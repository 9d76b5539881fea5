-- ===== src/Engine/Queue/Outcome.antt =====
-- What `Dequeue` gives: the loop over the heap, with the messages that have expired.
use cocodb.Base.{
  ℕ, zero, suc, ◌≤◌, ◌≡◌, ◌⊎◌, inl, inr, refl, sym, true, false, some, List, [], ◌∷◌, ◌++◌,
  option_holds, test_holds, if_holds, length, All, arith,
}
use cocodb.Base.Text.{text_eq_refl}
use cocodb.Base.Members.{Each, Each-perm, Each-uncons, test_prop, length-perm}
use mathlib.Core.List.{Mem, Perm, mem-cons_self}
use mathlib.Core.List.Perm
use cocodb.Engine.Int64.{ℤ, less}
use cocodb.Engine.Dedup.{find, put}
use cocodb.Engine.Message.{Message}
use cocodb.Engine.Heap.{PriorityHeap}
use cocodb.Engine.Heap
use cocodb.Engine.Queue.{
  Core, queue_closed, Delivery, failed, waiting, delivered, is_expired, leased, deliver,
  drop_expired, scan, lease_time, dequeue,
}

empty_of_length : (ms : List Message) → length ms ≤ 0 → ms ≡ []
empty_of_length [] l = refl
empty_of_length (m ∷ ms) l = absurd (omega arith)

module _ (h : PriorityHeap) (now : ℤ) where
  open h use {Store, pop, items, pop_none, pop_same, pop_first}

  -- `m` is before no other in the order.
  abbrev pub IsFirst : Message → List Message → Type 0
  IsFirst m ms = Each (λ x. Heap.less x m ≡ false) ms

  abbrev pub AllExpired : List Message → Type 0
  AllExpired ms = All (λ m. is_expired h now m ≡ true) ms

  -- The heap is empty, or its first message has not expired and is not visible yet.
  pub record Delays (m : Message) (ms : List Message) : Type 0 where
    pub member : Mem m ms
    pub fresh : is_expired h now m ≡ false
    pub delayed : less now m.visible_at ≡ true
    pub first : IsFirst m ms

  pub record Waits (q r : Core h) : Type 0 where
    pub dropped : List Message
    pub expired : AllExpired dropped
    pub same : Perm (dropped ++ items r.ready) (items q.ready)
    pub blocked : (items r.ready ≡ []) ⊎ ((m : Message) × Delays m (items r.ready))

  -- A message is delivered: the first one, after those that have expired.
  pub record Delivers (lease : ℤ) (q r : Core h) (m : Message) : Type 0 where
    pub dropped : List Message
    pub expired : AllExpired dropped
    pub original : Message
    pub same : Perm (dropped ++ original ∷ items r.ready) (items q.ready)
    pub fresh : is_expired h now original ≡ false
    pub visible : less now original.visible_at ≡ false
    pub first : IsFirst original (items r.ready)
    pub is_leased : m ≡ leased h now lease original
    pub held : find m.id r.in_flight ≡ some m
    pub still_open : r.closed ≡ q.closed

  abbrev pub Outcome : ℤ → Core h → Core h × Delivery h → Type 0
  Outcome lease q (r, failed e) = (e ≡ queue_closed) × (q.closed ≡ true) × (r ≡ q)
  Outcome lease q (r, waiting) = Waits q r
  Outcome lease q (r, delivered m) = Delivers lease q r m

  find-put : (m : Message) (q : Core h) → find m.id (put m.id m q.in_flight) ≡ some m
  unfolding find
  find-put m q = rw (text_eq_refl m.id) refl

  module _ (q : Core h) (m : Message) (rest : Store) (e : pop q.ready ≡ some (m, rest)) where
    pop-IsFirst : IsFirst m (items rest)
    pop-IsFirst =
        (Each-uncons _ (test_prop (λ x. Heap.less x m) false)
          (Each-perm _ (Perm.symm (pop_same q.ready m rest e)) (pop_first q.ready m rest e))).1

    delayed-Waits : is_expired h now m ≡ false → less now m.visible_at ≡ true → Waits q q
    delayed-Waits x y = record {
      dropped = [];
      expired = tt;
      same = Perm.rfl;
      blocked = inr (
        m,
        record {
          member = (Perm.mem_iff (pop_same q.ready m rest e)).0 mem-cons_self;
          fresh = x;
          delayed = y;
          first = pop_first q.ready m rest e;
        },
      );
    }

    deliver-Delivers :
        (lease : ℤ)
        → is_expired h now m ≡ false
        → less now m.visible_at ≡ false
        → Outcome lease q (deliver h now lease m rest q)
    unfolding deliver
    deliver-Delivers lease x y = record {
      dropped = [];
      expired = tt;
      original = m;
      same = pop_same q.ready m rest e;
      fresh = x;
      visible = y;
      first = pop-IsFirst;
      is_leased = refl;
      held = find-put (leased h now lease m) q;
      still_open = refl;
    }

    -- Behind a message that has expired.
    Outcome-drop :
        (lease : ℤ) (r : Core h × Delivery h)
        → is_expired h now m ≡ true
        → q.closed ≡ false
        → Outcome lease (drop_expired h m rest q) r
        → Outcome lease q r
    unfolding drop_expired
    Outcome-drop lease (r, failed f) x c o = absurd (ground arith)
    Outcome-drop lease (r, waiting) x c o = record {
      dropped = m ∷ o.dropped;
      expired = (x, o.expired);
      same = Perm.trans (Perm.cons m o.same) (pop_same q.ready m rest e);
      blocked = o.blocked;
    }
    Outcome-drop lease (r, delivered n) x c o = record {
      dropped = m ∷ o.dropped;
      expired = (x, o.expired);
      original = o.original;
      same = Perm.trans (Perm.cons m o.same) (pop_same q.ready m rest e);
      fresh = o.fresh;
      visible = o.visible;
      first = o.first;
      is_leased = o.is_leased;
      held = o.held;
      still_open = o.still_open;
    }

    length_of_pop : length (items q.ready) ≡ suc (length (items rest))
    length_of_pop = sym (length-perm (pop_same q.ready m rest e))

  scan-Outcome :
      (n : ℕ) (lease : ℤ) (q : Core h)
      → length (items q.ready) ≤ n
      → q.closed ≡ false
      → Outcome lease q (scan h n now lease q)
  unfolding scan drop_expired
  scan-Outcome zero lease q l c = record {
    dropped = [];
    expired = tt;
    same = Perm.rfl;
    blocked = inl (empty_of_length (items q.ready) l);
  }
  scan-Outcome (suc n) lease q l c =
      option_holds (Outcome lease q) (pop q.ready) _ _
        (λ e. record {
          dropped = [];
          expired = tt;
          same = Perm.rfl;
          blocked = inl (pop_none q.ready e);
        })
        (λ p e.
          test_holds (Outcome lease q) (is_expired h now p.0) _ _
            (λ x.
              Outcome-drop q p.0 p.1 e lease _ x c
                (scan-Outcome n lease (drop_expired h p.0 p.1 q) (shorter p e) c))
            (λ x.
              if_holds (Outcome lease q) (less now p.0.visible_at) _ _
                (λ y. delayed-Waits q p.0 p.1 e x y) (λ y. deliver-Delivers q p.0 p.1 e lease x y)))
    where
      shorter : (p : Message × Store) → pop q.ready ≡ some p → length (items p.1) ≤ n
      shorter p e = omega (arith, length_of_pop q p.0 p.1 e)

  -- `Dequeue` refuses a queue that is closed. Else it drops only messages that have expired. It waits
  -- where no message is left, or where the first one in the order of priorities is not visible yet,
  -- and then whatever is behind that one. Else it delivers that first one, which is then in flight
  -- with a lease; no other message of the heap is lost or doubled.
  pub dequeue-Outcome :
      (timeout : ℤ) (q : Core h) → Outcome (lease_time h timeout q) q (dequeue h now timeout q)
  unfolding dequeue
  dequeue-Outcome timeout q =
      if_holds (Outcome (lease_time h timeout q) q) q.closed _ _ (λ c. (refl, c, refl))
        (λ c. scan-Outcome (length (items q.ready)) _ q (omega arith) c)
