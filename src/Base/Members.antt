-- ===== src/Base/Members.antt =====
-- Predicates on the members of a list, whatever the order they stand in.
use cocodb.Base.Lists.{All, length}
use Prim.Native.Nat.{suc}
use native.Mathlib.Nat.{ℕ_set}
use mathlib.Core.Path.{◌≡◌, refl, ap, ◌∙◌}
use mathlib.Core.Logic.{∥∥₁_elim}
use mathlib.Core.Bool.{Bool, Bool-set}
use mathlib.Core.List.{List, [], ◌∷◌, Mem, Perm, forall_mem-cons, not-mem-nil}
use mathlib.Core.List.Perm
use mathlib.Core.List.{Permᴰ}

module _ {ℓ κ} {A : Type ℓ} (P : A → Type κ) where
  abbrev pub Each : List A → Type (ℓ ⊔ κ)
  Each xs = (x : A) → Mem x xs → P x

  pub Each-nil : Each []
  Each-nil x m = absurd (not-mem-nil m)

  pub Each-perm : {xs ys : List A} → Perm xs ys → Each xs → Each ys
  Each-perm p e x m = e x ((Perm.mem_iff p).1 m)

  module _ (prop : (x : A) → IsProp (P x)) where
    pub Each-cons : {x : A} {xs : List A} → P x → Each xs → Each (x ∷ xs)
    Each-cons p e = (forall_mem-cons prop).1 (p, e)

    pub Each-uncons : {x : A} {xs : List A} → Each (x ∷ xs) → P x × Each xs
    Each-uncons e = (forall_mem-cons prop).0 e

    pub All-Each : (xs : List A) → All P xs → Each xs
    All-Each [] a = Each-nil
    All-Each (x ∷ xs) (p, a) = Each-cons p (All-Each xs a)

-- Of a Boolean test on the members.
pub test_prop {ℓ} : {A : Type ℓ} (f : A → Bool) (b : Bool) (x : A) → IsProp (f x ≡ b)
test_prop f b x = Bool-set (f x) b

length-permᴰ {ℓ} : {A : Type ℓ} {xs ys : List A} → Permᴰ xs ys → length xs ≡ length ys
length-permᴰ Permᴰ.nil = refl
length-permᴰ (Permᴰ.cons e p) = ap suc (length-permᴰ p)
length-permᴰ (Permᴰ.swap e f) = refl
length-permᴰ (Permᴰ.trans p q) = length-permᴰ p ∙ length-permᴰ q

-- A permutation has as many elements.
pub length-perm {ℓ} : {A : Type ℓ} {xs ys : List A} → Perm xs ys → length xs ≡ length ys
length-perm p = ∥∥₁_elim p (ℕ_set _ _) length-permᴰ
