-- ===== src/Engine/Queue/Duplicates.antt =====
-- Within the window of an accepted message no other with its ID for duplicates is accepted.
use cocodb.Base.{
  ℕ, zero, suc, ◌≡◌, refl, sym, subst, Bool, true, false, not, Option, List, [], ◌∷◌, leb, ◌||◌,
  option_holds, test_holds, if_holds, All, arith,
}
use cocodb.Base.Text.{is_empty}
use cocodb.Engine.Bytes.{Bytes}
use cocodb.Engine.Int64.{ℤ, plus, less}
use cocodb.Engine.Dedup.{Entry, find, check_or_set}
use cocodb.Engine.Dedup.Window.{Held, IfSome, check-Held, check-new, check_active}
use cocodb.Engine.Message.{Message}
use cocodb.Engine.Heap.{PriorityHeap}
use cocodb.Engine.Queue.{
  Core, QueueError, duplicate_message, Enqueued, refused, queued, Delivery, enqueue_open, enqueue,
  is_expired, deliver, drop_expired, scan, dequeue, resume_dequeue, ack, requeue, bury, nack,
  extend, expire,
}
use cocodb.Engine.Queue.Routed.{
  Operation, apply, enqueues, dequeues, resumes, acks, nacks, extends, expires, closes, run_core,
}

module _ (h : PriorityHeap) where
  open h use {pop, items}

  -- Only the check for duplicates changes the entries.
  enqueue_open-same :
      (now : ℤ) (m : Message) (q : Core h) → (enqueue_open h now m q).0.dedup ≡ q.dedup
  unfolding enqueue_open
  enqueue_open-same now m q =
      if_holds (λ (w : Core h × Enqueued h). w.0.dedup ≡ q.dedup) q.closed _ _ (λ c. refl)
        (λ c. refl)

  scan-same : (n : ℕ) (now timeout : ℤ) (q : Core h) → (scan h n now timeout q).0.dedup ≡ q.dedup
  unfolding scan drop_expired deliver
  scan-same zero now timeout q = refl
  scan-same (suc n) now timeout q =
      option_holds (λ (w : Core h × Delivery h). w.0.dedup ≡ q.dedup) (pop q.ready) _ _ (λ e. refl)
        (λ p e.
          test_holds (λ (w : Core h × Delivery h). w.0.dedup ≡ q.dedup) (is_expired h now p.0) _ _
            (λ x. scan-same n now timeout (drop_expired h p.0 p.1 q))
            (λ x.
              if_holds (λ (w : Core h × Delivery h). w.0.dedup ≡ q.dedup) (less now p.0.visible_at)
                _ _ (λ y. refl) (λ y. refl)))

  dequeue-same : (now timeout : ℤ) (q : Core h) → (dequeue h now timeout q).0.dedup ≡ q.dedup
  unfolding dequeue
  dequeue-same now timeout q =
      if_holds (λ (w : Core h × Delivery h). w.0.dedup ≡ q.dedup) q.closed _ _ (λ c. refl)
        (λ c. scan-same _ now _ q)

  resume_dequeue-same :
      (now timeout : ℤ) (q : Core h) → (resume_dequeue h now timeout q).0.dedup ≡ q.dedup
  unfolding resume_dequeue
  resume_dequeue-same now timeout q =
      if_holds (λ (w : Core h × Delivery h). w.0.dedup ≡ q.dedup) q.notified _ _
        (λ n. dequeue-same now timeout (record q { notified = false })) (λ n. refl)

  ack-same : (id : Bytes) (q : Core h) → (ack h id q).0.dedup ≡ q.dedup
  unfolding ack
  ack-same id q =
      option_holds (λ (w : Core h × Option QueueError). w.0.dedup ≡ q.dedup) (find id q.in_flight) _
        _ (λ e. refl) (λ m e. refl)

  nack-same :
      (now : ℤ) (id : Bytes) (again : Bool) (q : Core h)
      → (nack h now id again q).0.0.dedup ≡ q.dedup
  unfolding nack requeue bury
  nack-same now id again q =
      option_holds (λ (w : (Core h × Option Message) × Option QueueError). w.0.0.dedup ≡ q.dedup)
        (find id q.in_flight) _ _ (λ e. refl)
        (λ m e.
          if_holds (λ (w : (Core h × Option Message) × Option QueueError). w.0.0.dedup ≡ q.dedup)
            (not again || leb m.max_retries m.retry_count) _ _ (λ x. refl) (λ x. refl))

  extend-same :
      (now : ℤ) (id : Bytes) (t : ℤ) (q : Core h) → (extend h now id t q).0.dedup ≡ q.dedup
  unfolding extend
  extend-same now id t q =
      option_holds (λ (w : Core h × Option QueueError). w.0.dedup ≡ q.dedup) (find id q.in_flight) _
        _ (λ e. refl) (λ m e. refl)

  expire-same : (now : ℤ) (id : Bytes) (q : Core h) → (expire h now id q).0.dedup ≡ q.dedup
  unfolding expire requeue bury
  expire-same now id q =
      option_holds (λ (w : Core h × Option Message). w.0.dedup ≡ q.dedup) (find id q.in_flight) _ _
        (λ e. refl)
        (λ m e.
          if_holds (λ (w : Core h × Option Message). w.0.dedup ≡ q.dedup) (less now m.visible_at) _
            _ (λ x. refl)
            (λ x.
              if_holds (λ (w : Core h × Option Message). w.0.dedup ≡ q.dedup)
                (leb m.max_retries m.retry_count) _ _ (λ y. refl) (λ y. refl)))

  module _ (d : Bytes) (x : ℤ) where
    -- The checks of an operation are before the time x.
    abbrev pub IsBefore : Operation h → Type 0
    IsBefore (enqueues checked now m) = less checked x ≡ true
    IsBefore o = Unit

    keeps : {es fs : List (Entry ℤ)} → es ≡ fs → Held d x fs → Held d x es
    keeps e f = subst (Held d x) (sym e) f

    enqueue-Held :
        (checked now : ℤ) (m : Message) (q : Core h)
        → less checked x ≡ true
        → Held d x q.dedup
        → Held d x (enqueue h checked now m q).0.dedup
    unfolding enqueue
    enqueue-Held checked now m q l f =
        if_holds (λ (w : Core h × Enqueued h). Held d x w.0.dedup) (is_empty m.dedup_id) _ _
          (λ t. keeps (enqueue_open-same now m q) f)
          (λ t.
            option_holds (λ (w : Core h × Enqueued h). Held d x w.0.dedup)
              (check_or_set checked m.dedup_id q.cfg.dedup_window q.dedup) _ _ (λ e. f)
              (λ es e.
                let checked_in =
                  subst (IfSome (Held d x)) e
                    (check-Held checked q.cfg.dedup_window x d m.dedup_id q.dedup f l) in
                keeps (enqueue_open-same now m (record q { dedup = es })) checked_in))

    apply-Held :
        (o : Operation h) (q : Core h)
        → IsBefore o
        → Held d x q.dedup
        → Held d x (apply h o q).0.dedup
    unfolding apply
    apply-Held (enqueues checked now m) q l f = enqueue-Held checked now m q l f
    apply-Held (dequeues now timeout) q l f = keeps (dequeue-same now timeout q) f
    apply-Held (resumes now timeout) q l f = keeps (resume_dequeue-same now timeout q) f
    apply-Held (acks id) q l f = keeps (ack-same id q) f
    apply-Held (nacks now id again) q l f = keeps (nack-same now id again q) f
    apply-Held (extends now id t) q l f = keeps (extend-same now id t q) f
    apply-Held (expires now id) q l f =
        if_holds (λ (w : Core h × Option Message). Held d x w.0.dedup) q.closed _ _ (λ c. f)
          (λ c. keeps (expire-same now id q) f)
    apply-Held closes q l f = f

    run-Held :
        (os : List (Operation h)) (q : Core h)
        → All IsBefore os
        → Held d x q.dedup
        → Held d x (run_core h q os).dedup
    run-Held [] q l f = f
    run-Held (o ∷ os) q (l, ls) f = run-Held os (apply h o q).0 ls (apply-Held o q l f)

  enqueue-new :
      (c n : ℤ) (m r : Message) (q : Core h)
      → is_empty m.dedup_id ≡ false
      → less c (plus c q.cfg.dedup_window) ≡ true
      → (enqueue h c n m q).1 ≡ queued r
      → Held m.dedup_id (plus c q.cfg.dedup_window) (enqueue h c n m q).0.dedup
  unfolding enqueue
  enqueue-new c n m r q given l =
      let x = plus c q.cfg.dedup_window in
      if_holds (λ (w : Core h × Enqueued h). w.1 ≡ queued r → Held m.dedup_id x w.0.dedup)
        (is_empty m.dedup_id) _ _ (λ t a. absurd (ground arith))
        (λ t.
          option_holds (λ (w : Core h × Enqueued h). w.1 ≡ queued r → Held m.dedup_id x w.0.dedup)
            (check_or_set c m.dedup_id q.cfg.dedup_window q.dedup) _ _
            (λ e a. absurd (ground arith))
            (λ es e a.
              let entered =
                subst (IfSome (Held m.dedup_id x)) e
                  (check-new c q.cfg.dedup_window m.dedup_id q.dedup given l) in
              keeps m.dedup_id x (enqueue_open-same n m (record q { dedup = es })) entered))

  refuse-Held :
      (c n x : ℤ) (m : Message) (q : Core h)
      → is_empty m.dedup_id ≡ false
      → Held m.dedup_id x q.dedup
      → less c x ≡ true
      → enqueue h c n m q ≡ (q, refused duplicate_message)
  unfolding enqueue
  refuse-Held c n x m q given f l =
      rw (given, check_active c q.cfg.dedup_window x m.dedup_id q.dedup given f l) refl

  -- Let a message with an ID for duplicates be accepted, and let the window then not have ended, nor
  -- before, at any check of the session that follows. Whatever the session was, Ack of the message
  -- included, the queue refuses another message with that ID and stays as it is.
  pub enqueue-refused :
      (q : Core h) (c n : ℤ) (m r : Message) (os : List (Operation h)) (c' n' : ℤ) (m' : Message)
      → is_empty m.dedup_id ≡ false
      → m'.dedup_id ≡ m.dedup_id
      → (enqueue h c n m q).1 ≡ queued r
      → less c (plus c q.cfg.dedup_window) ≡ true
      → All (IsBefore m.dedup_id (plus c q.cfg.dedup_window)) os
      → less c' (plus c q.cfg.dedup_window) ≡ true
      → enqueue h c' n' m' (run_core h (enqueue h c n m q).0 os)
        ≡ (run_core h (enqueue h c n m q).0 os, refused duplicate_message)
  enqueue-refused q c n m r os c' n' m' given same a l ls l' =
      let x = plus c q.cfg.dedup_window in
      let w = run_core h (enqueue h c n m q).0 os in
      let held =
        run-Held m.dedup_id x os (enqueue h c n m q).0 ls (enqueue-new c n m r q given l a) in
      refuse-Held c' n' x m' w (subst (λ (s : Bytes). is_empty s ≡ false) (sym same) given)
        (subst (λ (s : Bytes). Held s x w.dedup) (sym same) held) l'
