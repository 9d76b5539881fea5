-- ===== src/Engine/Queue/Limit.antt =====
-- A queue delivers a message at most as often as its limit says, in any session.
use cocodb.Base.{◌≤◌, ◌≡◌, Bool, ◌&&◌, List, [], ◌∷◌, leb, ltb, ◌==◌, All, arith}
use cocodb.Base.Members.{Each-nil}
use cocodb.Engine.Bytes.{Bytes}
use cocodb.Engine.Int64.{ℤ}
use cocodb.Engine.Heap.{PriorityHeap}
use cocodb.Engine.Queue.{
  Config, Delivery, failed, waiting, delivered, filled_in, leased, dequeue, resume_dequeue,
  resume_dequeue,
}
use cocodb.Engine.Queue.Kept.{Rule, Kept, dequeue-Served, resume_dequeue-Served, Delivered}
use cocodb.Engine.Queue.Kept.Session.{IsNew, apply-Kept}
use cocodb.Engine.Queue.Routed.{
  QueueEngine, with_defaults, new_core, new_queue_engine, Event, on_main, on_dead_letters,
  Operation, enqueues, dequeues, resumes, acks, nacks, extends, expires, closes, step, run,
}

module _ (h : PriorityHeap) where
  open h use {items_empty}

  -- A message in the heap can be delivered once more; one in flight has been delivered at least once
  -- and at most as often as it may.
  pub retry_rule : Rule h
  unfolding filled_in leased
  retry_rule = record {
    new_ok = λ m. m.retry_count == 0;
    ready_ok = λ m. ltb m.retry_count m.max_retries;
    flight_ok = λ m. leb 1 m.retry_count && leb m.retry_count m.max_retries;
    fills_in = λ now q m s n. ground arith;
    leases = λ now timeout m l. ground arith;
    requeues = λ now m l f. ground arith;
    extends_to = λ t m f. f;
  }

  abbrev pub IsNewEvent : Event h → Type 0
  IsNewEvent (on_main (enqueues checked now m)) = m.retry_count ≡ 0
  IsNewEvent (on_main o) = Unit
  IsNewEvent (on_dead_letters o) = Unit

  IsNewEvent-IsNew : (o : Operation h) → IsNewEvent (on_main o) → IsNew h retry_rule o
  unfolding retry_rule
  IsNewEvent-IsNew (enqueues checked now m) n = ground arith
  IsNewEvent-IsNew (dequeues now timeout) n = tt
  IsNewEvent-IsNew (resumes now timeout) n = tt
  IsNewEvent-IsNew (acks id) n = tt
  IsNewEvent-IsNew (nacks now id again) n = tt
  IsNewEvent-IsNew (extends now id d) n = tt
  IsNewEvent-IsNew (expires now id) n = tt
  IsNewEvent-IsNew closes n = tt

  run-Kept :
      (xs : List (Event h)) (e : QueueEngine h)
      → All IsNewEvent xs
      → Kept h retry_rule e.main
      → Kept h retry_rule (run h e xs).main
  unfolding step
  run-Kept [] e n b = b
  run-Kept (on_main o ∷ xs) e (n, ns) b =
      run-Kept xs (step h e (on_main o)) ns
        (apply-Kept h retry_rule o e.main (IsNewEvent-IsNew o n) b)
  run-Kept (on_dead_letters o ∷ xs) e (n, ns) b = run-Kept xs (step h e (on_dead_letters o)) ns b

  new-Kept :
      (name : Bytes) (c : Config) (stored : Bool)
      → Kept h retry_rule (new_queue_engine h name c stored).main
  unfolding new_queue_engine new_core with_defaults
  new-Kept name c stored = record {
    some_retries = ground arith;
    in_heap = rw items_empty (Each-nil _);
    flying = tt;
  }

  abbrev pub IsInLimit : Delivery h → Type 0
  IsInLimit (failed e) = Unit
  IsInLimit waiting = Unit
  IsInLimit (delivered m) = (1 ≤ m.retry_count) × (m.retry_count ≤ m.max_retries)

  Delivered-IsInLimit : (d : Delivery h) → Delivered h retry_rule d → IsInLimit d
  unfolding retry_rule
  Delivered-IsInLimit (failed e) l = tt
  Delivered-IsInLimit waiting l = tt
  Delivered-IsInLimit (delivered m) l = ground arith

  -- After any session with a queue in which new messages are enqueued, and whatever is done with its
  -- dead letters, a message that it delivers, at once or when a caller that waits goes on, has been
  -- delivered at most as often as its limit says, this time included.
  pub dequeue-IsInLimit :
      (name : Bytes) (c : Config) (stored : Bool) (xs : List (Event h)) (now timeout : ℤ)
      → All IsNewEvent xs
      → let q = (run h (new_queue_engine h name c stored) xs).main in
        IsInLimit (dequeue h now timeout q).1 × IsInLimit (resume_dequeue h now timeout q).1
  dequeue-IsInLimit name c stored xs now timeout n =
      let kept = run-Kept xs _ n (new-Kept name c stored) in
      (
        Delivered-IsInLimit _ (dequeue-Served h retry_rule now timeout _ kept).1,
        Delivered-IsInLimit _ (resume_dequeue-Served h retry_rule now timeout _ kept).1,
      )
