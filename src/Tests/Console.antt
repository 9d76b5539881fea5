-- ===== src/Tests/Console.antt =====
-- The studio's query console: one query at a time, and the Go code beside it.
use cocodb.Base.{Bool, ◌≡◌, ◌⊎◌, refl, true, false, List, [], ◌∷◌}
use cocodb.Base.Text.{Text, codes, text_eq, is_empty, trim}
use cocodb.Studio.Json.{Number, is_zero}
use cocodb.Studio.Collections.Events.{first_name}
use cocodb.Studio.Console.{console_request}
use cocodb.Studio.Console.Snippet.{code_snippet}
use cocodb.Studio.Console.Executions.{one_execution}
use cocodb.Studio.Console

abbrev executing : List Console.Event
executing = Console.where_field (codes "age") ∷ Console.execute false ∷ Console.execute true ∷ []

executing_loads : (Console.run (Console.mount (codes "users" ∷ [])) executing).loading ≡ true
unfolding Console.step Console.mount Console.handle_execute first_name
executing_loads = refl

one_execution_example :
    let v = Console.run (Console.mount (codes "users" ∷ [])) executing in
    ((v.loading ≡ false) × (v.pending ≡ []))
    ⊎ ((v.loading ≡ true)
        × (explain_only : Bool) × (w : Console.View) × (is_empty w.selected_collection ≡ false)
        × (v.pending ≡ console_request explain_only w ∷ []))
one_execution_example = one_execution (codes "users" ∷ []) executing

-- The form with a blank typed as the field.
abbrev blank_form : Console.View
blank_form = Console.run (Console.mount (codes "users" ∷ [])) (Console.where_field (codes " ") ∷ [])

abbrev twenty : Number → Text
twenty n = codes "20"

is_blank : is_empty (trim blank_form.where_field) ≡ true
unfolding Console.step Console.mount trim
is_blank = refl

is_typed : is_empty blank_form.where_field ≡ false
unfolding Console.step Console.mount
is_typed = refl

blank_snippet :
    code_snippet twenty blank_form
    ≡ codes
        "col := db.Collection(\"users\")\nrows, err := col.Query()\n  .Where(\" \").Eq()\n  .Limit(20)\n  .All()"
unfolding Console.step Console.mount code_snippet first_name is_zero text_eq
blank_snippet = refl
