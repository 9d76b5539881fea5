-- ===== src/Engine/Dedup/Window.antt =====
-- The entry of an ID stays until its window ends, and refuses the ID.
use cocodb.Base.{
  ◌≡◌, refl, sym, subst, true, false, Option, none, some, List, if◌then◌else◌, ltb, Bool-cases, inl,
  inr, if_holds, length, arith,
}
use cocodb.Base.Text.{text_eq, text_eq_iff, text_eq_refl, is_empty}
use cocodb.Engine.Bytes.{Bytes}
use cocodb.Engine.Int64.{ℤ, plus, less}
use cocodb.Engine.Dedup.{Entry, find, put, cleanup, is_active, check_or_set}
use cocodb.Engine.Dedup.Maps.{find-remove_other, find-cleanup}

-- The entry of `d`, which expires at `x`, is there.
abbrev pub Held : Bytes → ℤ → List (Entry ℤ) → Type 0
Held d x es = find d es ≡ some x

cleaned-Held :
    (now x : ℤ) (d : Bytes) (es : List (Entry ℤ))
    → less now x ≡ true
    → Held d x es
    → Held d x (if ltb 1000 (length es) then cleanup now es else es)
cleaned-Held now x d es l f =
    if_holds (Held d x) (ltb 1000 (length es)) _ _ (λ t. find-cleanup now x d es f l) (λ t. f)

abbrev pub IfSome : {A : Type 0} → (A → Type 0) → Option A → Type 0
IfSome P none = Unit
IfSome P (some a) = P a

put-Held :
    (now window x : ℤ) (d id : Bytes) (es : List (Entry ℤ))
    → Held d x es
    → less now x ≡ true
    → is_active now (find id es) ≡ false
    → Held d x (put id (plus now window) es)
unfolding find
put-Held now window x d id es f l a = elim (Bool-cases (text_eq d id)) [
  | inl t ↦
      let g : find id es ≡ some x =
        subst (λ (k : Bytes). find k es ≡ some x) ((text_eq_iff d id).0 t) f in
      let active : is_active now (find id es) ≡ true =
        subst (λ (o : Option ℤ). is_active now o ≡ true) (sym g) l in
      absurd (ground arith)
  | inr t ↦ rw (t, find-remove_other d id es t) f
]

pub check-Held :
    (now window x : ℤ) (d id : Bytes) (es : List (Entry ℤ))
    → Held d x es
    → less now x ≡ true
    → IfSome (Held d x) (check_or_set now id window es)
unfolding check_or_set
check-Held now window x d id es f l =
    if_holds (IfSome (Held d x)) (is_empty id) _ _ (λ t. f)
      (λ t.
        if_holds (IfSome (Held d x)) (is_active now (find id es)) _ _ (λ a. tt)
          (λ a.
            cleaned-Held now x d (put id (plus now window) es) l
              (put-Held now window x d id es f l a)))

-- The entry of a message that passed the check.
pub check-new :
    (now window : ℤ) (d : Bytes) (es : List (Entry ℤ))
    → is_empty d ≡ false
    → less now (plus now window) ≡ true
    → IfSome (Held d (plus now window)) (check_or_set now d window es)
unfolding check_or_set find
check-new now window d es n l =
    if_holds (IfSome (Held d (plus now window))) (is_empty d) _ _ (λ t. absurd (ground arith))
      (λ t.
        if_holds (IfSome (Held d (plus now window))) (is_active now (find d es)) _ _ (λ a. tt)
          (λ a.
            cleaned-Held now (plus now window) d (put d (plus now window) es) l
              (rw (text_eq_refl d) refl)))

pub check_active :
    (now window x : ℤ) (d : Bytes) (es : List (Entry ℤ))
    → is_empty d ≡ false
    → Held d x es
    → less now x ≡ true
    → check_or_set now d window es ≡ none
unfolding check_or_set
check_active now window x d es n f l = rw (n, f, l) refl
