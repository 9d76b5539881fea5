-- ===== src/Engine/Queue.antt =====
-- internal/queue/queue.go: one engine of a queue; Queue/Routed has its dead-letter queue.
pub mod Routed
pub mod Kept
pub mod Limit
pub mod Lost
pub mod Duplicates
pub mod Outcome
pub mod Drained
use cocodb.Base.{
  ℕ, zero, suc, ◌+◌, Bool, true, false, not, ◌&&◌, ◌||◌, Option, none, some, List, [], ◌∷◌, ◌++◌,
  if◌then◌else◌, leb, ◌==◌, length,
}
use cocodb.Base.Text.{Text, codes, is_empty}
use cocodb.Base.Decimal.{decimal}
use cocodb.Engine.Bytes.{Bytes}
use cocodb.Engine.Int64.{ℤ, pos, negsuc, at_most, less, plus}
use cocodb.Engine.Dedup.{Entry, find, remove, put, check_or_set}
use cocodb.Engine.Message.{Message, encode, state_ready, state_invisible, state_dead_letter}
use cocodb.Engine.Heap.{PriorityHeap}

-- Times and durations are in nanoseconds.
pub record Config : Type 0 where
  pub default_visibility_timeout : ℤ
  pub default_max_retries : ℕ
  pub dedup_window : ℤ
  pub enable_dlq : Bool

pub data QueueError : Type 0 where
  duplicate_message queue_closed message_not_found max_retries_exceeded : QueueError

-- What an engine does with its B+tree, whose errors it drops.
pub data Write : Type 0 where
  insert : Bytes → Bytes → Write
  delete : Bytes → Write

module _ (h : PriorityHeap) where
  open h use {Store, empty, push, pop, items}

  -- `persistent` says that there is a tree. `notified` is the channel, which holds one signal.
  pub record Core : Type 0 where
    pub name : Bytes
    pub cfg : Config
    pub ready : Store
    pub in_flight : List (Entry Message)
    pub dedup : List (Entry ℤ)
    pub msg_seq : ℕ
    pub closed : Bool
    pub persistent : Bool
    pub writes : List Write
    pub notified : Bool

  abbrev pub write : Core → Write → List Write
  write q w = if q.persistent then q.writes ++ w ∷ [] else q.writes

  abbrev pub decimal_int : ℤ → Text
  decimal_int (pos n) = decimal n
  decimal_int (negsuc n) = b'-' ∷ decimal (suc n)

  -- The message as `Enqueue` fills it in.
  unfoldable pub filled_in : ℤ → Core → Message → Message
  filled_in now q msg = record msg {
    id =
        if is_empty msg.id
        then codes "msg_" ++ (decimal_int now ++ (codes "_" ++ decimal (suc q.msg_seq)))
        else msg.id;
    queue = q.name;
    created_at = now;
    state = state_ready;
    max_retries = if msg.max_retries == 0 then q.cfg.default_max_retries else msg.max_retries;
    visible_at = if at_most msg.visible_at (pos 0) then now else msg.visible_at;
  }

  pub data Enqueued : Type 0 where
    refused : QueueError → Enqueued
    queued : Message → Enqueued

  unfoldable pub enqueue_open : ℤ → Message → Core → Core × Enqueued
  enqueue_open now msg q =
      let m = filled_in now q msg in
      if q.closed then (q, refused queue_closed) else (
        record q {
          msg_seq = if is_empty msg.id then suc q.msg_seq else q.msg_seq;
          writes = write q (insert m.id (encode m));
          ready = push m q.ready;
          notified = true;
        },
        queued m,
      )

  -- `checked` is the time of the check for duplicates.
  unfoldable pub enqueue : (checked now : ℤ) → Message → Core → Core × Enqueued
  enqueue checked now msg q =
      if is_empty msg.dedup_id
      then enqueue_open now msg q
      else elim (check_or_set checked msg.dedup_id q.cfg.dedup_window q.dedup) [
        | none ↦ (q, refused duplicate_message)
        | some es ↦ enqueue_open now msg (record q { dedup = es })
      ]

  -- What one pass of the loop of `Dequeue` ends with.
  pub data Delivery : Type 0 where
    failed : QueueError → Delivery
    waiting : Delivery
    delivered : Message → Delivery

  unfoldable pub is_expired : ℤ → Message → Bool
  is_expired now m = less (pos 0) m.expire_at && at_most m.expire_at now

  unfoldable pub leased : ℤ → ℤ → Message → Message
  leased now timeout m = record m {
    state = state_invisible;
    retry_count = m.retry_count + 1;
    visible_at = plus now timeout;
  }

  unfoldable pub deliver : ℤ → ℤ → Message → Store → Core → Core × Delivery
  deliver now timeout msg rest q =
      let m = leased now timeout msg in
      (
        record q {
          ready = rest;
          in_flight = put m.id m q.in_flight;
          writes = write q (insert m.id (encode m));
        },
        delivered m,
      )

  unfoldable pub drop_expired : Message → Store → Core → Core
  drop_expired m rest q = record q { ready = rest; writes = write q (delete m.id) }

  -- The loop over the heap, on fuel for as many messages as it has.
  unfoldable pub scan : ℕ → ℤ → ℤ → Core → Core × Delivery
  scan zero now timeout q = (q, waiting)
  scan (suc n) now timeout q = elim (pop q.ready) [
    | none ↦ (q, waiting)
    | some (m, rest) ↦ elim (is_expired now m) [
      | true ↦ scan n now timeout (drop_expired m rest q)
      | false ↦ if less now m.visible_at then (q, waiting) else deliver now timeout m rest q
    ]
  ]

  unfoldable pub lease_time : ℤ → Core → ℤ
  lease_time timeout q =
      if at_most timeout (pos 0) then q.cfg.default_visibility_timeout else timeout

  unfoldable pub dequeue : ℤ → ℤ → Core → Core × Delivery
  dequeue now timeout q =
      if q.closed
      then (q, failed queue_closed)
      else scan (length (items q.ready)) now (lease_time timeout q) q

  -- A pass that waits goes on when there is a signal, which it takes.
  unfoldable pub resume_dequeue : ℤ → ℤ → Core → Core × Delivery
  resume_dequeue now timeout q =
      if q.notified then dequeue now timeout (record q { notified = false }) else (q, waiting)

  unfoldable pub ack : Bytes → Core → Core × Option QueueError
  ack id q = elim (find id q.in_flight) [
    | none ↦ (q, some message_not_found)
    | some m ↦ (record q { in_flight = remove id q.in_flight; writes = write q (delete id) }, none)
  ]

  -- A message that has been given back: to the heap, or, second, to the dead-letter queue.
  unfoldable pub requeue : ℤ → Bytes → Message → Core → Core
  requeue now id msg q =
      let m = record msg { state = state_ready; visible_at = now } in
      record q {
        in_flight = remove id q.in_flight;
        ready = push m q.ready;
        writes = write q (insert id (encode m));
        notified = true;
      }

  unfoldable pub bury : ℤ → Bytes → Message → Core → Core × Option Message
  bury now id msg q = (
    record q { in_flight = remove id q.in_flight; writes = write q (delete id) },
    some (record msg { state = state_dead_letter; visible_at = now; dedup_id = [] }),
  )

  unfoldable pub nack : ℤ → Bytes → Bool → Core → (Core × Option Message) × Option QueueError
  nack now id again q = elim (find id q.in_flight) [
    | none ↦ ((q, none), some message_not_found)
    | some m ↦
        if not again || leb m.max_retries m.retry_count
        then (bury now id m q, some max_retries_exceeded)
        else ((requeue now id m q, none), none)
  ]

  unfoldable pub extend : ℤ → Bytes → ℤ → Core → Core × Option QueueError
  extend now id d q = elim (find id q.in_flight) [
    | none ↦ (q, some message_not_found)
    | some msg ↦
        let m = record msg { visible_at = plus now d } in
        (
          record q { in_flight = put id m q.in_flight; writes = write q (insert id (encode m)) },
          none,
        )
  ]

  -- The visibility worker at one message in flight, which may be dead then.
  unfoldable pub expire : ℤ → Bytes → Core → Core × Option Message
  expire now id q = elim (find id q.in_flight) [
    | none ↦ (q, none)
    | some m ↦
        if less now m.visible_at
        then (q, none)
        else if leb m.max_retries m.retry_count
        then bury now id m q
        else (requeue now id m q, none)
  ]
