-- ===== src/Studio/Vector/Unsynced.antt =====
-- VectorPlaygroundView.tsx: the collection shown is not the one searched, if the catalogue comes late.
use cocodb.Base.{◌≡◌, refl, false, Option, some, List, [], ◌∷◌}
use cocodb.Base.Text.{Text, codes}
use cocodb.Base.Result.{Result}
use cocodb.Studio.Json.{Json, Number}
use cocodb.Studio.Collections.Events.{some_name, first_name}
use cocodb.Studio.Vector.{
  mount, displayed, handle_search, catalog_arrives, type_vector, search, step, run,
}

-- Where no collection has an empty name, a view that is mounted before the catalogue has arrived shows
-- the catalogue's first collection as selected, but a search for any vector makes no request and asks to select a collection.
pub late_catalog_refused :
    (parse_float : Text → Option Number) (parse : Text → Result Json) (name vector : Text)
    (names : List Text)
    → some_name [] (name ∷ names) ≡ false
    → let v =
        run parse_float parse
          (mount [])
          (catalog_arrives (name ∷ names) ∷ type_vector vector ∷ search ∷ []) in
      (displayed v ≡ name)
      × (v.pending ≡ [])
      × (v.error ≡ some (codes "Please select a collection"))
unfolding step mount handle_search displayed first_name
late_catalog_refused parse_float parse name vector names h = (rw h refl, refl, refl)
