-- ===== src/Engine/Queue/Kept.antt =====
-- What an engine keeps of its messages: a test of those in the heap, another of those in flight.
pub mod Session
use cocodb.Base.{
  ℕ, zero, suc, ◌<◌, ◌≡◌, refl, subst, Bool, true, false, Option, none, some, List, [], ◌∷◌, inl,
  inr, leb, Bool-cases, option_holds, test_holds, if_holds, filter, All, arith,
}
use cocodb.Base.Text.{text_eq, is_empty}
use cocodb.Base.Members.{Each, Each-perm, Each-cons, Each-uncons, test_prop}
use mathlib.Core.List.Perm
use cocodb.Engine.Bytes.{Bytes}
use cocodb.Engine.Int64.{ℤ, less}
use cocodb.Engine.Dedup.{Entry, find, check_or_set}
use cocodb.Engine.Message.{Message, state_ready}
use cocodb.Engine.Heap.{PriorityHeap}
use cocodb.Engine.Queue.{
  Core, Enqueued, Delivery, failed, waiting, delivered, filled_in, enqueue_open, enqueue,
  is_expired, leased, deliver, drop_expired, scan, dequeue, resume_dequeue,
}

pub All-filter :
    {A : Type 0} (P : A → Type 0) (f : A → Bool) (xs : List A) → All P xs → All P (filter f xs)
All-filter P f [] a = tt
All-filter P f (x ∷ xs) (p, a) =
    if_holds (All P) (f x) (x ∷ filter f xs) (filter f xs) (λ e. (p, All-filter P f xs a))
      (λ e. All-filter P f xs a)

-- The tests, with that of a message that is enqueued, and what makes them hold from step to step.
pub record Rule (h : PriorityHeap) : Type 0 where
  pub new_ok : Message → Bool
  pub ready_ok : Message → Bool
  pub flight_ok : Message → Bool
  pub fills_in :
      (now : ℤ) (q : Core h) (m : Message)
      → 0 < q.cfg.default_max_retries
      → new_ok m ≡ true
      → ready_ok (filled_in h now q m) ≡ true
  pub leases :
      (now timeout : ℤ) (m : Message)
      → ready_ok m ≡ true
      → flight_ok (leased h now timeout m) ≡ true
  pub requeues :
      (now : ℤ) (m : Message)
      → leb m.max_retries m.retry_count ≡ false
      → flight_ok m ≡ true
      → ready_ok (record m { state = state_ready; visible_at = now }) ≡ true
  pub extends_to :
      (t : ℤ) (m : Message) → flight_ok m ≡ true → flight_ok (record m { visible_at = t }) ≡ true

module _ (h : PriorityHeap) (r : Rule h) where
  open h use {Store, push, pop, items, items_push, pop_same}
  open r use {new_ok, ready_ok, flight_ok, fills_in, leases}

  pub record Kept (q : Core h) : Type 0 where
    pub some_retries : 0 < q.cfg.default_max_retries
    pub in_heap : Each (λ m. ready_ok m ≡ true) (items q.ready)
    pub flying : All (λ e. flight_ok e.1 ≡ true) q.in_flight

  pub push-ok :
      (m : Message) (s : Store)
      → ready_ok m ≡ true
      → Each (λ x. ready_ok x ≡ true) (items s)
      → Each (λ x. ready_ok x ≡ true) (items (push m s))
  push-ok m s p e = Each-perm _ (items_push m s) (Each-cons _ (test_prop ready_ok true) p e)

  pop-ok :
      (s : Store) (m : Message) (rest : Store)
      → pop s ≡ some (m, rest)
      → Each (λ x. ready_ok x ≡ true) (items s)
      → (ready_ok m ≡ true) × Each (λ x. ready_ok x ≡ true) (items rest)
  pop-ok s m rest e l =
      Each-uncons _ (test_prop ready_ok true) (Each-perm _ (Perm.symm (pop_same s m rest e)) l)

  enqueue_open-Kept :
      (now : ℤ) (m : Message) (q : Core h)
      → new_ok m ≡ true
      → Kept q
      → Kept (enqueue_open h now m q).0
  unfolding enqueue_open
  enqueue_open-Kept now m q e b =
      if_holds (λ (w : Core h × Enqueued h). Kept w.0) q.closed _ _ (λ c. b)
        (λ c. record {
          some_retries = b.some_retries;
          in_heap =
              push-ok (filled_in h now q m) q.ready (fills_in now q m b.some_retries e) b.in_heap;
          flying = b.flying;
        })

  pub enqueue-Kept :
      (checked now : ℤ) (m : Message) (q : Core h)
      → new_ok m ≡ true
      → Kept q
      → Kept (enqueue h checked now m q).0
  unfolding enqueue
  enqueue-Kept checked now m q e b =
      if_holds (λ (w : Core h × Enqueued h). Kept w.0) (is_empty m.dedup_id) _ _
        (λ t. enqueue_open-Kept now m q e b)
        (λ t.
          option_holds (λ (w : Core h × Enqueued h). Kept w.0)
            (check_or_set checked m.dedup_id q.cfg.dedup_window q.dedup) _ _ (λ d. b)
            (λ es d.
              enqueue_open-Kept now m (record q { dedup = es }) e
                (record { some_retries = b.some_retries; in_heap = b.in_heap; flying = b.flying })))

  abbrev pub Delivered : Delivery h → Type 0
  Delivered (failed e) = Unit
  Delivered waiting = Unit
  Delivered (delivered m) = flight_ok m ≡ true

  abbrev pub Served : Core h × Delivery h → Type 0
  Served (q, d) = Kept q × Delivered d

  deliver-Served :
      (now timeout : ℤ) (m : Message) (rest : Store) (q : Core h)
      → ready_ok m ≡ true
      → Each (λ x. ready_ok x ≡ true) (items rest)
      → Kept q
      → Served (deliver h now timeout m rest q)
  unfolding deliver
  deliver-Served now timeout m rest q l e b = (
    record {
      some_retries = b.some_retries;
      in_heap = e;
      flying = (leases now timeout m l, All-filter _ _ q.in_flight b.flying);
    },
    leases now timeout m l,
  )

  drop_expired-Kept :
      (m : Message) (rest : Store) (q : Core h)
      → Each (λ x. ready_ok x ≡ true) (items rest)
      → Kept q
      → Kept (drop_expired h m rest q)
  unfolding drop_expired
  drop_expired-Kept m rest q e b = record {
    some_retries = b.some_retries;
    in_heap = e;
    flying = b.flying;
  }

  scan-Served : (n : ℕ) (now timeout : ℤ) (q : Core h) → Kept q → Served (scan h n now timeout q)
  unfolding scan
  scan-Served zero now timeout q b = (b, tt)
  scan-Served (suc n) now timeout q b =
      option_holds Served (pop q.ready) _ _ (λ e. (b, tt))
        (λ p e.
          let (left, others) = pop-ok q.ready p.0 p.1 e b.in_heap in
          test_holds Served (is_expired h now p.0) _ _
            (λ x.
              scan-Served n now timeout (drop_expired h p.0 p.1 q)
                (drop_expired-Kept p.0 p.1 q others b))
            (λ x.
              if_holds Served (less now p.0.visible_at) _ _ (λ y. (b, tt))
                (λ y. deliver-Served now timeout p.0 p.1 q left others b)))

  pub dequeue-Served : (now timeout : ℤ) (q : Core h) → Kept q → Served (dequeue h now timeout q)
  unfolding dequeue
  dequeue-Served now timeout q b =
      if_holds Served q.closed _ _ (λ c. (b, tt)) (λ c. scan-Served _ now _ q b)

  pub resume_dequeue-Served :
      (now timeout : ℤ) (q : Core h) → Kept q → Served (resume_dequeue h now timeout q)
  unfolding resume_dequeue
  resume_dequeue-Served now timeout q b =
      if_holds Served q.notified _ _
        (λ n.
          dequeue-Served now timeout (record q { notified = false })
            (record { some_retries = b.some_retries; in_heap = b.in_heap; flying = b.flying }))
        (λ n. (b, tt))
