-- ===== src/Engine/Queue/Kept/Session.antt =====
-- Every operation keeps what the rule says.
use cocodb.Base.{
  ◌≡◌, Bool, true, false, not, ◌||◌, Option, some, List, [], ◌∷◌, leb, option_holds, if_holds, All,
  arith,
}
use cocodb.Engine.Bytes.{Bytes}
use cocodb.Engine.Int64.{ℤ, plus, less}
use cocodb.Engine.Dedup.{find, remove}
use cocodb.Engine.Dedup.Maps.{find-All}
use cocodb.Engine.Message.{Message}
use cocodb.Engine.Heap.{PriorityHeap}
use cocodb.Engine.Queue.{Core, QueueError, ack, requeue, bury, nack, extend, expire}
use cocodb.Engine.Queue.Kept.{
  All-filter, Rule, Kept, push-ok, enqueue-Kept, dequeue-Served, resume_dequeue-Served,
}
use cocodb.Engine.Queue.Routed.{
  Operation, apply, enqueues, dequeues, resumes, acks, nacks, extends, expires, closes, run_core,
}

module _ (h : PriorityHeap) (r : Rule h) where
  open r use {new_ok, ready_ok, flight_ok, requeues, extends_to}

  -- The state without a message in flight.
  without-Kept :
      (id : Bytes) (q : Core h)
      → Kept h r q
      → All (λ e. flight_ok e.1 ≡ true) (remove id q.in_flight)
  without-Kept id q b = All-filter _ _ q.in_flight b.flying

  requeue-Kept :
      (now : ℤ) (id : Bytes) (m : Message) (q : Core h)
      → find id q.in_flight ≡ some m
      → leb m.max_retries m.retry_count ≡ false
      → Kept h r q
      → Kept h r (requeue h now id m q)
  unfolding requeue
  requeue-Kept now id m q e l b = record {
    some_retries = b.some_retries;
    in_heap =
        push-ok h r _ q.ready
          (requeues now m l (find-All (λ x. flight_ok x ≡ true) id q.in_flight m b.flying e))
          b.in_heap;
    flying = without-Kept id q b;
  }

  bury-Kept :
      (now : ℤ) (id : Bytes) (m : Message) (q : Core h)
      → Kept h r q
      → Kept h r (bury h now id m q).0
  unfolding bury
  bury-Kept now id m q b = record {
    some_retries = b.some_retries;
    in_heap = b.in_heap;
    flying = without-Kept id q b;
  }

  ack-Kept : (id : Bytes) (q : Core h) → Kept h r q → Kept h r (ack h id q).0
  unfolding ack
  ack-Kept id q b =
      option_holds (λ (w : Core h × Option QueueError). Kept h r w.0) (find id q.in_flight) _ _
        (λ e. b)
        (λ m e. record {
          some_retries = b.some_retries;
          in_heap = b.in_heap;
          flying = without-Kept id q b;
        })

  nack-Kept :
      (now : ℤ) (id : Bytes) (again : Bool) (q : Core h)
      → Kept h r q
      → Kept h r (nack h now id again q).0.0
  unfolding nack
  nack-Kept now id again q b =
      option_holds (λ (w : (Core h × Option Message) × Option QueueError). Kept h r w.0.0)
        (find id q.in_flight) _ _ (λ e. b)
        (λ m e.
          if_holds (λ (w : (Core h × Option Message) × Option QueueError). Kept h r w.0.0)
            (not again || leb m.max_retries m.retry_count) _ _ (λ x. bury-Kept now id m q b)
            (λ x. requeue-Kept now id m q e (ground arith) b))

  extend-Kept :
      (now : ℤ) (id : Bytes) (d : ℤ) (q : Core h) → Kept h r q → Kept h r (extend h now id d q).0
  unfolding extend
  extend-Kept now id d q b =
      option_holds (λ (w : Core h × Option QueueError). Kept h r w.0) (find id q.in_flight) _ _
        (λ e. b)
        (λ m e. record {
          some_retries = b.some_retries;
          in_heap = b.in_heap;
          flying = (
            extends_to (plus now d) m
                (find-All (λ x. flight_ok x ≡ true) id q.in_flight m b.flying e),
            without-Kept id q b,
          );
        })

  expire-Kept : (now : ℤ) (id : Bytes) (q : Core h) → Kept h r q → Kept h r (expire h now id q).0
  unfolding expire
  expire-Kept now id q b =
      option_holds (λ (w : Core h × Option Message). Kept h r w.0) (find id q.in_flight) _ _
        (λ e. b)
        (λ m e.
          if_holds (λ (w : Core h × Option Message). Kept h r w.0) (less now m.visible_at) _ _
            (λ x. b)
            (λ x.
              if_holds (λ (w : Core h × Option Message). Kept h r w.0)
                (leb m.max_retries m.retry_count) _ _ (λ y. bury-Kept now id m q b)
                (λ y. requeue-Kept now id m q e y b)))

  -- What is enqueued passes its test.
  abbrev pub IsNew : Operation h → Type 0
  IsNew (enqueues checked now m) = new_ok m ≡ true
  IsNew o = Unit

  pub apply-Kept : (o : Operation h) (q : Core h) → IsNew o → Kept h r q → Kept h r (apply h o q).0
  unfolding apply
  apply-Kept (enqueues checked now m) q n b = enqueue-Kept h r checked now m q n b
  apply-Kept (dequeues now timeout) q n b = (dequeue-Served h r now timeout q b).0
  apply-Kept (resumes now timeout) q n b = (resume_dequeue-Served h r now timeout q b).0
  apply-Kept (acks id) q n b = ack-Kept id q b
  apply-Kept (nacks now id again) q n b = nack-Kept now id again q b
  apply-Kept (extends now id d) q n b = extend-Kept now id d q b
  apply-Kept (expires now id) q n b =
      if_holds (λ (w : Core h × Option Message). Kept h r w.0) q.closed _ _ (λ c. b)
        (λ c. expire-Kept now id q b)
  apply-Kept closes q n b = record {
    some_retries = b.some_retries;
    in_heap = b.in_heap;
    flying = b.flying;
  }

  pub run_core-Kept :
      (os : List (Operation h)) (q : Core h)
      → All IsNew os
      → Kept h r q
      → Kept h r (run_core h q os)
  run_core-Kept [] q n b = b
  run_core-Kept (o ∷ os) q (n, ns) b = run_core-Kept os (apply h o q).0 ns (apply-Kept o q n b)
