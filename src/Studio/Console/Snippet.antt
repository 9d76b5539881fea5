-- ===== src/Studio/Console/Snippet.antt =====
-- QueryConsoleView.tsx: the Go code that is shown as equivalent to the query.
use cocodb.Base.{
  ◌≡◌, ◌≢◌, ◌∙◌, sym, ℕ, Bool, refl, ap, Bool-cases, true, false, inl, inr, arith, [], ◌∷◌, ◌++◌,
  if◌then◌else◌,
}
use cocodb.Base.Text.{Text, codes, is_empty, or_text, trim, text_eq}
use cocodb.Studio.Json.{Number, is_zero}
use cocodb.Studio.Console.{View, console_request, console_filters}
use mathlib.Core.List.{append_cancel_left}

-- The method of a comparison.
op_method : Text → Text
op_method op =
    if text_eq op (codes "gte")
    then codes "Gte"
    else if text_eq op (codes "gt")
    then codes "Gt"
    else if text_eq op (codes "lt")
    then codes "Lt"
    else if text_eq op (codes "lte")
    then codes "Lte"
    else codes "Eq"

query_lines : View → Text
query_lines v =
    codes "col := db.Collection(\""
    ++ or_text v.selected_collection (codes "collection")
    ++ codes "\")\nrows, err := col.Query()"

where_line : View → Text
unfolding op_method
where_line v =
    if is_empty v.where_field
    then []
    else codes "\n  .Where(\""
      ++ v.where_field
      ++ codes "\")."
      ++ op_method v.where_op
      ++ codes "("
      ++ v.where_val
      ++ codes ")"

order_line : View → Text
order_line v =
    if is_empty v.order_field
    then []
    else codes "\n  .OrderBy(\""
      ++ v.order_field
      ++ codes "\", coco."
      ++ (if v.order_desc then codes "Desc" else codes "Asc")
      ++ codes ")"

-- `display` is how a template shows a number.
module _ (display : Number → Text) where
  limit_line : View → Text
  limit_line v = if is_zero v.limit then [] else codes "\n  .Limit(" ++ display v.limit ++ codes ")"

  unfoldable pub code_snippet : View → Text
  unfolding query_lines where_line order_line limit_line
  code_snippet v =
      query_lines v ++ (where_line v ++ (order_line v ++ (limit_line v ++ codes "\n  .All()")))

-- The first letter of a method that the snippet begins a line with.
letter : Text → ℕ
letter (a ∷ b ∷ c ∷ d ∷ e ∷ s) = e
letter s = 0

unfiltered : View → View
unfiltered v = record v { where_field = [] }

rest : (Number → Text) → View → Text
unfolding order_line limit_line
rest display v = order_line v ++ (limit_line display v ++ codes "\n  .All()")

all_differs : ◌≢◌ {A = ℕ} b'A' b'W'
all_differs = omega arith

limit_differs : ◌≢◌ {A = ℕ} b'L' b'W'
limit_differs = omega arith

order_differs : ◌≢◌ {A = ℕ} b'O' b'W'
order_differs = omega arith

rest-letter : (display : Number → Text) (v : View) → letter (rest display v) ≢ b'W'
unfolding rest letter order_line limit_line
rest-letter display v = elim (Bool-cases (is_empty v.order_field)) [
  | inl o ↦ elim (Bool-cases (is_zero v.limit)) [
    | inl z ↦ rw (o, z) all_differs
    | inr z ↦ rw (o, z) limit_differs
  ]
  | inr o ↦ rw o order_differs
]

no_filters :
    (v : View)
    → is_empty (trim v.where_field) ≡ true
    → console_filters v ≡ console_filters (unfiltered v)
unfolding console_filters unfiltered trim
no_filters v h = rw h refl

snippet-parts :
    (display : Number → Text) (v : View)
    → code_snippet display v ≡ code_snippet display (unfiltered v)
    → where_line v ++ rest display v ≡ rest display v
unfolding code_snippet rest unfiltered where_line query_lines order_line limit_line
snippet-parts display v e =
    append_cancel_left (query_lines v) (where_line v ++ rest display v) (rest display v) e

where-letter :
    (v : View) (s : Text) → is_empty v.where_field ≡ false → letter (where_line v ++ s) ≡ b'W'
unfolding letter where_line
where-letter v s h = rw h refl

-- With a field of white space alone, the query is the same as with none, but the snippet that is
-- shown as equivalent is another one than with none.
pub blank_field_snippet :
    (display : Number → Text) (explain_only : Bool) (v : View)
    → is_empty (trim v.where_field) ≡ true
    → is_empty v.where_field ≡ false
    → let w = record v { where_field = [] } in
      (console_request explain_only v ≡ console_request explain_only w)
      × (code_snippet display v ≢ code_snippet display w)
unfolding unfiltered console_request
blank_field_snippet display explain_only v blank typed = (
  rw (no_filters v blank) refl,
  λ e.
      rest-letter display v
        (sym (ap letter (snippet-parts display v e)) ∙ where-letter v (rest display v) typed),
)
