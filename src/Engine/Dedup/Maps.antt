-- ===== src/Engine/Dedup/Maps.antt =====
-- What is found in a map after an entry was put, removed or cleaned up.
use cocodb.Base.{
  ◌≡◌, refl, subst, true, false, some, none, List, [], ◌∷◌, Bool-cases, inl, inr, All, arith,
}
use cocodb.Base.Text.{text_eq, text_eq_iff}
use cocodb.Engine.Bytes.{Bytes}
use cocodb.Engine.Int64.{ℤ, at_most, less}
use cocodb.Engine.Dedup.{Entry, find, remove, cleanup}

pub find-All :
    {A : Type 0} (P : A → Type 0) (k : Bytes) (es : List (Entry A)) (a : A)
    → All (λ e. P e.1) es
    → find k es ≡ some a
    → P a
unfolding find
find-All P k [] a ps e = absurd (ground arith)
find-All P k ((l, b) ∷ es) a (p, ps) e = elim (Bool-cases (text_eq k l)) [
  | inl t ↦ let same : b ≡ a = ground arith in subst P same p
  | inr t ↦ find-All P k es a ps (ground arith)
]

pub find-remove : {A : Type 0} (k : Bytes) (es : List (Entry A)) → find k (remove k es) ≡ none
unfolding find
find-remove k [] = refl
find-remove k ((l, a) ∷ es) = elim (Bool-cases (text_eq k l)) [
  | inl t ↦ rw t (find-remove k es)
  | inr t ↦ rw (t, t) (find-remove k es)
]

pub find-remove_other :
    {A : Type 0} (k l : Bytes) (es : List (Entry A))
    → text_eq k l ≡ false
    → find k (remove l es) ≡ find k es
unfolding find
find-remove_other k l [] n = refl
find-remove_other k l ((p, v) ∷ es) n = elim (Bool-cases (text_eq l p)) [
  | inl t ↦
      let apart : text_eq k p ≡ false =
        subst (λ (x : Bytes). text_eq k x ≡ false) ((text_eq_iff l p).0 t) n in
      rw (t, apart) (find-remove_other k l es n)
  | inr t ↦ rw (t, find-remove_other k l es n) refl
]

-- An entry that has not expired is still there.
pub find-cleanup :
    (now x : ℤ) (k : Bytes) (es : List (Entry ℤ))
    → find k es ≡ some x
    → less now x ≡ true
    → find k (cleanup now es) ≡ some x
unfolding find cleanup less
find-cleanup now x k [] f l = absurd (ground arith)
find-cleanup now x k ((p, y) ∷ es) f l = elim (Bool-cases (text_eq k p)) [
  | inl t ↦
      let same : x ≡ y = ground arith in
      let kept : at_most y now ≡ false =
        subst (λ (z : ℤ). at_most z now ≡ false) same (ground arith) in
      rw (kept, t) (ground arith)
  | inr t ↦
      let rest = find-cleanup now x k es (ground arith) l in
      elim (Bool-cases (at_most y now)) [ inl e ↦ rw e rest | inr e ↦ rw (e, t) rest ]
]
