-- ===== src/Tests/Collections.antt =====
-- A session of the view of collections.
use cocodb.Base.{◌≡◌, refl, true, none, some, List, [], ◌∷◌}
use cocodb.Base.Text.{Text, codes, text_eq}
use cocodb.Base.Result.{Result, ok, err}
use cocodb.Studio.Json.{Json, Fields, field, end, string}
use cocodb.Studio.Collections.{View, mount, closure, documents_request}
use cocodb.Studio.Collections.Latest.{current, Inv}
use cocodb.Studio.Collections.Session.{mount-Inv, session-Inv}
use cocodb.Studio.Collections.Refinement.{Move, shown, step-Move}
use cocodb.Studio.Collections.Stale.{delete_stale}
use cocodb.Studio.Collections.Events.{
  Event, catalog_arrives, select, apply_filter, delete_document, some_name, settle, step, run,
}

abbrev no_parse : Text → Result Json
no_parse t = err t

abbrev no_text : Json → Text
no_text j = []

abbrev names : List Text
names = codes "users" ∷ codes "orders" ∷ []

abbrev ann : Fields
ann = field (codes "_id") (string (codes "a1")) end

abbrev session : List Event
session =
    catalog_arrives names
    ∷ select (codes "orders")
    ∷ settle 1 (ok (some (ann ∷ [])))
    ∷ settle 0 (ok (some []))
    ∷ []

-- The answer about the first collection comes first, and is not shown.
overtaken :
    ((run no_parse no_text no_text (mount []) session).documents ≡ [])
    × ((run no_parse no_text no_text (mount []) session).selected_collection ≡ codes "orders")
unfolding step text_eq
overtaken = (refl, refl)

session-Inv_example : Inv (run no_parse no_text no_text (mount names) session)
session-Inv_example = session-Inv no_parse no_text no_text names session

step-Move_example :
    Move apply_filter
      (shown (mount names))
      (shown (step no_parse no_text no_text (mount names) apply_filter))
step-Move_example = step-Move no_parse no_text no_text (mount names) apply_filter (mount-Inv names)

abbrev with_row : View
with_row = record (mount names) { selected_collection = codes "users"; documents = ann ∷ [] }

abbrev overtaken_deletion : View
overtaken_deletion = run no_parse no_text no_text with_row (
    delete_document 0 true
    ∷ select (codes "orders")
    ∷ settle 0 (ok (some []))
    ∷ settle 0 (ok none)
    ∷ [])

delete_stale_example :
    let u = step no_parse no_text no_text overtaken_deletion (settle 0 (ok (some (ann ∷ [])))) in
    (current overtaken_deletion ≡ some (documents_request (closure with_row) (codes "users")))
    × (u.selected_collection ≡ codes "orders")
    × (u.documents ≡ ann ∷ [])
    × (u.tasks ≡ [])
unfolding some_name text_eq
delete_stale_example =
    delete_stale no_parse no_text no_text with_row 0 ann (codes "orders") (ann ∷ []) [] none refl
      refl refl refl refl refl refl
