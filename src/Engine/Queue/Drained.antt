-- ===== src/Engine/Queue/Drained.antt =====
-- `Dequeue` called again and again at one moment: how long a worker finds messages, and which.
use cocodb.Base.{
  ℕ, zero, suc, ◌≤◌, ◌≡◌, ◌⊎◌, refl, false, List, [], ◌∷◌, ◌++◌, length, All-append, length-append,
  ◌∙◌, sym, arith,
}
use cocodb.Base.Members.{length-perm}
use mathlib.Core.List.{Perm, perm_middle, mem-append_left, mem-append_right, append_assoc}
use mathlib.Core.List.Perm
use cocodb.Engine.Int64.{ℤ}
use cocodb.Engine.Message.{Message}
use cocodb.Engine.Heap.{PriorityHeap}
use cocodb.Engine.Queue.{Core, Delivery, failed, waiting, delivered, leased, lease_time, dequeue}
use cocodb.Engine.Queue.Outcome.{
  IsFirst, AllExpired, Delays, Waits, Delivers, Outcome, dequeue-Outcome,
}

module _ (h : PriorityHeap) (now timeout : ℤ) where
  open h use {items}

  -- The messages, as the heap had them, that calls of `Dequeue` deliver until one waits.
  pub data Takes : Core h → List Message → Core h → Type 0 where
    ends : {q r : Core h} → dequeue h now timeout q ≡ (r, waiting) → Takes q [] r
    takes :
        {q r s : Core h} (m : Message) {ms : List Message}
        → dequeue h now timeout q ≡ (r, delivered (leased h now (lease_time h timeout q) m))
        → Takes r ms s
        → Takes q (m ∷ ms) s

  -- Each message is before no later one in the order of priorities.
  abbrev pub IsOrdered : List Message → Type 0
  IsOrdered [] = Unit
  IsOrdered (m ∷ ms) = IsFirst h now m ms × IsOrdered ms

  pub record Drains (q : Core h) : Type 0 where
    pub taken : List Message
    pub last : Core h
    pub calls : Takes q taken last
    pub dropped : List Message
    pub expired : AllExpired h now dropped
    pub same : Perm (dropped ++ (taken ++ items last.ready)) (items q.ready)
    pub ordered : IsOrdered taken
    pub blocked : (items last.ready ≡ []) ⊎ ((m : Message) × Delays h now m (items last.ready))

  -- Nothing is left to take.
  Waits-Drains :
      (q r : Core h) → dequeue h now timeout q ≡ (r, waiting) → Waits h now q r → Drains q
  Waits-Drains q r e w = record {
    taken = [];
    last = r;
    calls = ends e;
    dropped = w.dropped;
    expired = w.expired;
    same = w.same;
    ordered = tt;
    blocked = w.blocked;
  }

  module _ (q r : Core h) (m : Message) (e : dequeue h now timeout q ≡ (r, delivered m)) where
    -- A message is taken, and the others after it.
    takes-Drains : Delivers h now (lease_time h timeout q) q r m → Drains r → Drains q
    takes-Drains o d = record {
      taken = o.original ∷ d.taken;
      last = d.last;
      calls = takes o.original (rw (sym o.is_leased) e) d.calls;
      dropped = o.dropped ++ d.dropped;
      expired = All-append _ o.dropped d.dropped o.expired d.expired;
      same = rw (append_assoc o.dropped d.dropped (o.original ∷ (d.taken ++ items d.last.ready))) (
          Perm.trans (Perm.append_left o.dropped (perm_middle d.dropped _))
            (Perm.trans (Perm.append_left o.dropped (Perm.cons o.original d.same)) o.same));
      ordered = (
        λ x i. o.first x (
            (Perm.mem_iff d.same).0
              (mem-append_right d.dropped (mem-append_left (items d.last.ready) i))),
        d.ordered,
      );
      blocked = d.blocked;
    }

    shorter :
        Delivers h now (lease_time h timeout q) q r m
        → suc (length (items r.ready)) ≤ length (items q.ready)
    shorter o =
        omega (arith, length-perm o.same, length-append o.dropped (o.original ∷ items r.ready))

  -- By what one call gives, where queues with fewer messages are known to be drained.
  calls_after :
      (q : Core h)
      → q.closed ≡ false
      → ((r : Core h)
          → suc (length (items r.ready)) ≤ length (items q.ready)
          → r.closed ≡ false
          → Drains r)
      → (d : Core h × Delivery h) → dequeue h now timeout q ≡ d
      → Outcome h now (lease_time h timeout q) q d
      → Drains q
  calls_after q c fewer (r, failed f) e o = absurd (ground arith)
  calls_after q c fewer (r, waiting) e o = Waits-Drains q r e o
  calls_after q c fewer (r, delivered m) e o =
      takes-Drains q r m e o (fewer r (shorter q r m e o) (o.still_open ∙ c))

  calls_within : (n : ℕ) (q : Core h) → length (items q.ready) ≤ n → q.closed ≡ false → Drains q
  calls_within zero q l c =
      calls_after q c (λ r s o. absurd (omega arith)) _ refl (dequeue-Outcome h now timeout q)
  calls_within (suc n) q l c =
      calls_after q c (λ r s o. calls_within n r (omega arith) o) _ refl
        (dequeue-Outcome h now timeout q)

  -- A worker that calls `Dequeue` on an open queue until it waits comes to an end, at any fixed moment.
  -- Each ready message is then taken once, or dropped because it has expired, or still there. The
  -- messages taken come in the order of priorities, each under a lease. Where any message is left, the
  -- first one is not visible yet.
  pub dequeue-Drains : (q : Core h) → q.closed ≡ false → Drains q
  dequeue-Drains q c = calls_within (length (items q.ready)) q (omega arith) c
