-- ===== src/Studio/Collections/Table.antt =====
-- CollectionsView.tsx: the columns and the rows of the table of documents.
use cocodb.Base.{
  if_holds, ℕ, zero, suc, ◌≤◌, ◌≡◌, refl, Bool, false, ◌||◌, Option, none, some, List, [], ◌∷◌,
  ◌++◌, map, take, length, flat_map, arith, if◌then◌else◌, All, length-take, length-map, Bool-cases,
  inl, inr,
}
use cocodb.Base.Text.{Text, codes, text_eq, text_eq_iff}
use cocodb.Studio.Json.{Json, null, array, object, Fields, keys, property}
use cocodb.Studio.Collections.{View}
use cocodb.Studio.Collections.Events.{some_name}

-- `new Set(names)` in the order of insertion.
insert_key : Text → List Text → List Text
unfolding some_name
insert_key k seen = if some_name k seen then seen else seen ++ k ∷ []

set_of : List Text → List Text → List Text
unfolding insert_key
set_of seen [] = seen
set_of seen (k ∷ ks) = set_of (insert_key k seen) ks

unfoldable pub all_keys : List Fields → List Text
unfolding set_of
all_keys documents = take 6 (set_of [] (flat_map keys documents))

-- The body of the table; a message spans all columns and the one of the actions.
pub data Body : Type 0 where
  loading_message no_documents : (span : ℕ) → Body
  rows : List (List Text) → Body

-- Every row has a cell for each column.
pub Fits : ℕ → Body → Type 0
Fits n (loading_message span) = span ≡ suc n
Fits n (no_documents span) = span ≡ suc n
Fits n (rows rs) = All (λ (r : List Text). length r ≡ n) rs

-- `JSON.stringify` and `String` stay parameters.
module _ (stringify display : Json → Text) where
  display_val : Option Json → Text
  display_val none = codes "undefined"
  display_val (some null) = display null
  display_val (some (array xs)) = stringify (array xs)
  display_val (some (object fs)) = stringify (object fs)
  display_val (some v) = display v

  pub row : List Text → Fields → List Text
  unfolding display_val
  row columns doc = map (λ (k : Text). display_val (property k doc)) columns

  body_rows : List Text → List Fields → Body
  unfolding row
  body_rows columns [] = no_documents (suc (length columns))
  body_rows columns (doc ∷ docs) = rows (map (row columns) (doc ∷ docs))

  unfoldable pub body : View → Body
  unfolding body_rows
  body v =
      if v.loading
      then loading_message (suc (length (all_keys v.documents)))
      else body_rows (all_keys v.documents) v.documents

-- No text stands twice in the list.
abbrev pub Distinct : List Text → Type 0
Distinct [] = Unit
Distinct (k ∷ ks) = (some_name k ks ≡ false) × Distinct ks

or_false : (a b : Bool) → (a || b) ≡ false → (a ≡ false) × (b ≡ false)
or_false a b h = ground arith

text_eq_comm : (s t : Text) → text_eq s t ≡ text_eq t s
text_eq_comm s t = ground (arith, text_eq_iff s t, text_eq_iff t s)

some_name-append :
    (k : Text) (xs : List Text) (j : Text)
    → some_name k (xs ++ j ∷ []) ≡ (some_name k xs || text_eq j k)
unfolding some_name
some_name-append k [] j = ground arith
some_name-append k (x ∷ xs) j = ground (arith, some_name-append k xs j)

Distinct-append :
    (xs : List Text) (k : Text) → Distinct xs → some_name k xs ≡ false → Distinct (xs ++ k ∷ [])
unfolding some_name
Distinct-append [] k d h = (refl, tt)
Distinct-append (x ∷ xs) k (n, d) h =
    let (p, q) = or_false (text_eq x k) (some_name k xs) h in
    (rw (some_name-append x xs k, n, text_eq_comm k x) p, Distinct-append xs k d q)

set_of-Distinct : (ks seen : List Text) → Distinct seen → Distinct (set_of seen ks)
unfolding set_of insert_key
set_of-Distinct [] seen d = d
set_of-Distinct (k ∷ ks) seen d = elim (Bool-cases (some_name k seen)) [
  | inl y ↦ rw y (set_of-Distinct ks seen d)
  | inr n ↦ rw n (set_of-Distinct ks (seen ++ k ∷ []) (Distinct-append seen k d n))
]

some_name-take :
    (n : ℕ) (k : Text) (ks : List Text) → some_name k ks ≡ false → some_name k (take n ks) ≡ false
unfolding some_name
some_name-take zero k ks h = refl
some_name-take (suc n) k [] h = refl
some_name-take (suc n) k (x ∷ ks) h =
    let (p, q) = or_false (text_eq x k) (some_name k ks) h in rw p (some_name-take n k ks q)

take-Distinct : (n : ℕ) (ks : List Text) → Distinct ks → Distinct (take n ks)
take-Distinct zero ks d = tt
take-Distinct (suc n) [] d = tt
take-Distinct (suc n) (k ∷ ks) (h, d) = (some_name-take n k ks h, take-Distinct n ks d)

module _ (stringify display : Json → Text) where
  rows-Fits :
      (columns : List Text) (docs : List Fields)
      → All
          (λ (r : List Text). length r ≡ length columns)
          (map (row stringify display columns) docs)
  unfolding row
  rows-Fits columns [] = tt
  rows-Fits columns (doc ∷ docs) = (length-map _ columns, rows-Fits columns docs)

  body_rows-Fits :
      (columns : List Text) (docs : List Fields)
      → Fits (length columns) (body_rows stringify display columns docs)
  unfolding body_rows Fits
  body_rows-Fits columns [] = refl
  body_rows-Fits columns (doc ∷ docs) = rows-Fits columns (doc ∷ docs)

  -- The table of documents has at most six columns, no two of the same key, and in any state its
  -- body fits them: a row has a cell for each column, and a message spans them and the actions.
  pub table-Fits :
      (v : View)
      → Distinct (all_keys v.documents)
        × (length (all_keys v.documents) ≤ 6)
        × Fits (length (all_keys v.documents)) (body stringify display v)
  unfolding all_keys body Fits
  table-Fits v =
      let columns = set_of [] (flat_map keys v.documents) in
      (
        take-Distinct 6 columns (set_of-Distinct (flat_map keys v.documents) [] tt),
        omega (arith, length-take 6 columns),
        if_holds (Fits (length (all_keys v.documents))) v.loading
            (loading_message (suc (length (all_keys v.documents))))
            (body_rows stringify display (all_keys v.documents) v.documents) (λ y. refl)
            (λ n. body_rows-Fits (all_keys v.documents) v.documents),
      )
