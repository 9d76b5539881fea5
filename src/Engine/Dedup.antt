-- ===== src/Engine/Dedup.antt =====
-- internal/queue/dedup.go: the window in which an ID is a duplicate, over maps whose keys are strings.
pub mod Maps
pub mod Window
use cocodb.Base.{
  Bool, false, not, Option, none, some, List, [], ◌∷◌, if◌then◌else◌, ltb, length, filter,
}
use cocodb.Base.Text.{text_eq, is_empty}
use cocodb.Engine.Bytes.{Bytes}
use cocodb.Engine.Int64.{ℤ, at_most, less, plus}

abbrev pub Entry {ℓ} : Type ℓ → Type ℓ
Entry A = Bytes × A

module _ {A : Type 0} where
  unfoldable pub find : Bytes → List (Entry A) → Option A
  find k [] = none
  find k ((l, a) ∷ es) = let rest = find k es in if text_eq k l then some a else rest

  abbrev pub remove : Bytes → List (Entry A) → List (Entry A)
  remove k es = filter (λ e. not (text_eq k e.0)) es

  abbrev pub put : Bytes → A → List (Entry A) → List (Entry A)
  put k a es = (k, a) ∷ remove k es

-- `CheckOrSet`: none for a duplicate, else the entries with the new one. An entry has the time at
-- which it expires.
unfoldable pub cleanup : ℤ → List (Entry ℤ) → List (Entry ℤ)
cleanup now es = filter (λ e. not (at_most e.1 now)) es

abbrev pub is_active : ℤ → Option ℤ → Bool
is_active now none = false
is_active now (some t) = less now t

unfoldable pub check_or_set : ℤ → Bytes → ℤ → List (Entry ℤ) → Option (List (Entry ℤ))
unfolding cleanup find
check_or_set now id window es =
    if is_empty id
    then some es
    else if is_active now (find id es)
    then none
    else let set = put id (plus now window) es in
      some (if ltb 1000 (length set) then cleanup now set else set)
