-- ===== src/Engine/Queue/Lost.antt =====
-- The queue of dead letters delivers each of them once.
use cocodb.Base.{
  ◌≡◌, refl, Bool, true, false, not, ◌||◌, ◌&&◌, Option, none, some, List, leb, ltb, Bool-cases,
  ◌⊎◌, inl, inr, if_holds, option_holds, subst, All, All-mono, arith,
}
use cocodb.Base.Members.{Each-nil}
use cocodb.Engine.Bytes.{Bytes}
use cocodb.Engine.Int64.{ℤ, less}
use cocodb.Engine.Dedup.{find}
use cocodb.Engine.Dedup.Maps.{find-All, find-remove}
use cocodb.Engine.Message.{Message}
use cocodb.Engine.Heap.{PriorityHeap}
use cocodb.Engine.Queue.{Config, Core, QueueError, filled_in, leased, nack, expire, bury}
use cocodb.Engine.Queue.Kept.{Rule, Kept}
use cocodb.Engine.Queue.Kept.Session.{IsNew, run_core-Kept}
use cocodb.Engine.Queue.Routed.{
  with_defaults, new_core, Operation, apply, enqueues, dequeues, resumes, acks, nacks, extends,
  expires, closes, run_core,
}

-- A message whose limit is reached.
abbrev pub is_spent : Message → Bool
is_spent m = ltb 0 m.max_retries && leb m.max_retries m.retry_count

module _ (h : PriorityHeap) where
  open h use {items_empty}

  spent_rule : Rule h
  unfolding filled_in leased
  spent_rule = record {
    new_ok = is_spent;
    ready_ok = is_spent;
    flight_ok = is_spent;
    fills_in = λ now q m s n. ground arith;
    leases = λ now timeout m l. ground arith;
    requeues = λ now m l f. absurd (ground arith);
    extends_to = λ t m f. f;
  }

  new-Kept :
      (name : Bytes) (c : Config) → Kept h spent_rule (new_core h name (with_defaults h c) false)
  unfolding new_core with_defaults
  new-Kept name c = record {
    some_retries = ground arith;
    in_heap = rw items_empty (Each-nil _);
    flying = tt;
  }

  -- What is enqueued has reached its limit.
  abbrev pub IsDead : Operation h → Type 0
  IsDead (enqueues checked now m) = is_spent m ≡ true
  IsDead o = Unit

  IsDead-IsNew : (o : Operation h) → IsDead o → IsNew h spent_rule o
  unfolding spent_rule
  IsDead-IsNew (enqueues checked now m) n = n
  IsDead-IsNew (dequeues now timeout) n = tt
  IsDead-IsNew (resumes now timeout) n = tt
  IsDead-IsNew (acks id) n = tt
  IsDead-IsNew (nacks now id again) n = tt
  IsDead-IsNew (extends now id d) n = tt
  IsDead-IsNew (expires now id) n = tt
  IsDead-IsNew closes n = tt

  -- The message with the ID is neither given back to the heap nor in flight afterwards.
  abbrev pub IsGone : Bytes → Core h → Core h → Type 0
  IsGone id q w = (w.ready ≡ q.ready) × (find id w.in_flight ≡ none)

  module _ (q : Core h) (now : ℤ) (id : Bytes) (m : Message)
      (e : find id q.in_flight ≡ some m) where
    found_is : (P : Message → Type 0) → P m → (n : Message) → find id q.in_flight ≡ some n → P n
    found_is P p n f = let same : m ≡ n = ground arith in subst P same p

    nack-IsGone :
        (again : Bool) → is_spent m ≡ true → IsGone id q (apply h (nacks now id again) q).0
    unfolding apply nack bury
    nack-IsGone again s =
        option_holds (λ (w : (Core h × Option Message) × Option QueueError). IsGone id q w.0.0)
          (find id q.in_flight) _ _ (λ f. absurd (ground arith))
          (λ n f.
            let spent = found_is (λ x. is_spent x ≡ true) s n f in
            if_holds (λ (w : (Core h × Option Message) × Option QueueError). IsGone id q w.0.0)
              (not again || leb n.max_retries n.retry_count) _ _
              (λ x. (refl, find-remove id q.in_flight)) (λ x. absurd (ground arith)))

    expire-IsGone :
        is_spent m ≡ true → less now m.visible_at ≡ false → IsGone id q (expire h now id q).0
    unfolding expire bury
    expire-IsGone s l =
        option_holds (λ (w : Core h × Option Message). IsGone id q w.0) (find id q.in_flight) _ _
          (λ f. absurd (ground arith))
          (λ n f.
            let spent = found_is (λ x. is_spent x ≡ true) s n f in
            let ended = found_is (λ x. less now x.visible_at ≡ false) l n f in
            if_holds (λ (w : Core h × Option Message). IsGone id q w.0) (less now n.visible_at) _ _
              (λ x. absurd (ground arith))
              (λ x.
                if_holds (λ (w : Core h × Option Message). IsGone id q w.0)
                  (leb n.max_retries n.retry_count) _ _ (λ y. (refl, find-remove id q.in_flight))
                  (λ y. absurd (ground arith))))

  -- The queue of dead letters of a new queue, after some operations.
  abbrev pub dead_letters : Bytes → Config → List (Operation h) → Core h
  dead_letters name c os = run_core h (new_core h name (with_defaults h c) false) os

  -- In any session with the dead letters of messages whose limit was reached, let one of them be in
  -- flight. Given back, also to be delivered again, it is neither in the heap nor in flight; and the
  -- worker either finds its lease running or does the same.
  pub dead_letter_lost :
      (name : Bytes) (c : Config) (os : List (Operation h)) (now : ℤ) (id : Bytes) (again : Bool)
      (m : Message)
      → All IsDead os
      → find id (dead_letters name c os).in_flight ≡ some m
      → IsGone id (dead_letters name c os) (apply h (nacks now id again) (dead_letters name c os)).0
        × ((less now m.visible_at ≡ true)
            ⊎ IsGone id (dead_letters name c os) (expire h now id (dead_letters name c os)).0)
  unfolding spent_rule
  dead_letter_lost name c os now id again m n e =
      let d = dead_letters name c os in
      let kept =
        run_core-Kept h spent_rule os _ (All-mono _ _ IsDead-IsNew os n) (new-Kept name c) in
      let spent = find-All (λ x. is_spent x ≡ true) id d.in_flight m kept.flying e in
      let ended : (less now m.visible_at ≡ true) ⊎ IsGone id d (expire h now id d).0 =
        elim (Bool-cases (less now m.visible_at)) [
          | inl l ↦ inl l
          | inr l ↦ inr (expire-IsGone d now id m e spent l)
        ] in
      (nack-IsGone d now id m e again spent, ended)
