-- ===== src/Engine/Heap/Chosen.antt =====
-- A heap as a list from which the first message in the order is chosen.
use cocodb.Base.{
  ◌≡◌, subst, refl, true, false, Option, none, some, List, [], ◌∷◌, inl, inr, if◌then◌else◌,
  Bool-cases, if_holds, All, All-mono, arith,
}
use cocodb.Base.Members.{All-Each, test_prop}
use mathlib.Core.List.{Perm}
use mathlib.Core.List.Perm
use cocodb.Engine.Int64.{less_weak, less_irrefl}
use cocodb.Engine.Message.{Message}
use cocodb.Engine.Heap.{less, PriorityHeap}

less-less : (x y z : Message) → less x z ≡ true → less y z ≡ false → less y x ≡ false
unfolding less
less-less x y z h k = ground (arith, less_weak x.visible_at y.visible_at z.visible_at)

less_self : (x : Message) → less x x ≡ false
unfolding less
less_self x = ground (arith, less_irrefl x.visible_at)

-- The chosen message of `x ∷ xs` and the others.
choose : Message → List Message → Message × List Message
choose x [] = (x, [])
choose x (y ∷ ys) = let (m, rest) = choose y ys in if less x m then (x, y ∷ ys) else (m, x ∷ rest)

unfoldable pub chosen : List Message → Option (Message × List Message)
unfolding choose
chosen [] = none
chosen (x ∷ xs) = some (choose x xs)

choose-Perm : (x : Message) (xs : List Message) → Perm ((choose x xs).0 ∷ (choose x xs).1) (x ∷ xs)
unfolding choose
choose-Perm x [] = Perm.rfl
choose-Perm x (y ∷ ys) = elim (Bool-cases (less x (choose y ys).0)) [
  | inl h ↦ rw h Perm.rfl
  | inr h ↦ rw h (Perm.trans (Perm.swap _ _ _) (Perm.cons x (choose-Perm y ys)))
]

choose_first :
    (x : Message) (xs : List Message) → All (λ y. less y (choose x xs).0 ≡ false) (x ∷ xs)
unfolding choose
choose_first x [] = (less_self x, tt)
choose_first x (y ∷ ys) =
    let (m, rest) = choose y ys in
    let before = choose_first y ys in
    if_holds (λ (r : Message × List Message). All (λ z. less z r.0 ≡ false) (x ∷ (y ∷ ys)))
      (less x m) (x, y ∷ ys) (m, x ∷ rest)
      (λ h. (less_self x, All-mono _ _ (λ z k. less-less x z m h k) (y ∷ ys) before))
      (λ h. (h, before))

pub chosen_of_none : (xs : List Message) → chosen xs ≡ none → xs ≡ []
unfolding chosen
chosen_of_none [] e = refl
chosen_of_none (x ∷ xs) e = absurd (ground arith)

pub chosen_of_some :
    (xs : List Message) (m : Message) (rest : List Message)
    → chosen xs ≡ some (m, rest)
    → Perm (m ∷ rest) xs × All (λ y. less y m ≡ false) xs
unfolding chosen
chosen_of_some [] m rest e = absurd (ground arith)
chosen_of_some (x ∷ xs) m rest e =
    let same : choose x xs ≡ (m, rest) = ground arith in
    subst
      (λ (r : Message × List Message).
        Perm (r.0 ∷ r.1) (x ∷ xs) × All (λ y. less y r.0 ≡ false) (x ∷ xs))
      same (choose-Perm x xs, choose_first x xs)

unfoldable pub chosen_heap : PriorityHeap
unfolding chosen
chosen_heap = record {
  Store = List Message;
  empty = [];
  push = ◌∷◌;
  pop = chosen;
  items = λ s. s;
  items_empty = refl;
  items_push = λ m s. Perm.rfl;
  pop_none = chosen_of_none;
  pop_same = λ s m rest e. (chosen_of_some s m rest e).0;
  pop_first =
      λ s m rest e. All-Each _ (test_prop (λ x. less x m) false) s (chosen_of_some s m rest e).1;
}
