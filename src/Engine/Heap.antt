-- ===== src/Engine/Heap.antt =====
-- internal/queue/queue.go: the heap of ready messages, as container/heap keeps it over its order.
pub mod Chosen
use cocodb.Base.{ℕ, ◌≡◌, Bool, false, Option, none, some, List, [], ◌∷◌, if◌then◌else◌, ltb, ◌==◌}
use cocodb.Base.Members.{Each}
use mathlib.Core.List.{Perm}
use cocodb.Engine.Int64
use cocodb.Engine.Message.{Message}

-- The higher priority first, then the earlier time.
unfoldable pub less : Message → Message → Bool
less a b =
    if a.priority == b.priority
    then Int64.less a.visible_at b.visible_at
    else ltb b.priority a.priority

-- What container/heap documents of `heap.Push`, and of `heap.Pop` with its element at index 0.
-- Which one of equal messages comes first is left open.
pub record PriorityHeap : Type 1 where
  pub Store : Type 0
  pub empty : Store
  pub push : Message → Store → Store
  pub pop : Store → Option (Message × Store)
  pub items : Store → List Message
  pub items_empty : items empty ≡ []
  pub items_push : (m : Message) (s : Store) → Perm (m ∷ items s) (items (push m s))
  pub pop_none : (s : Store) → pop s ≡ none → items s ≡ []
  pub pop_same :
      (s : Store) (m : Message) (rest : Store)
      → pop s ≡ some (m, rest)
      → Perm (m ∷ items rest) (items s)
  pub pop_first :
      (s : Store) (m : Message) (rest : Store)
      → pop s ≡ some (m, rest)
      → Each (λ x. less x m ≡ false) (items s)
