-- ===== src/Engine/Queue/Routed.antt =====
-- internal/queue/queue.go: a queue with the queue to which its dead letters are routed.
use cocodb.Base.{Bool, true, false, Option, none, some, List, [], ◌∷◌, ◌++◌, if◌then◌else◌, ◌==◌}
use cocodb.Base.Text.{codes}
use cocodb.Engine.Bytes.{Bytes}
use cocodb.Engine.Int64.{ℤ, pos, at_most}
use cocodb.Engine.Message.{Message}
use cocodb.Engine.Heap.{PriorityHeap}
use cocodb.Engine.Queue.{Config, Core, enqueue, dequeue, resume_dequeue, ack, nack, extend, expire}

module _ (h : PriorityHeap) where
  open h use {empty}

  pub record QueueEngine : Type 0 where
    pub main : Core h
    pub dlq : Option (Core h)

  abbrev or_default : ℤ → ℤ → ℤ
  or_default d x = if at_most x (pos 0) then d else x

  -- The configuration with the defaults for what is not positive.
  unfoldable pub with_defaults : Config → Config
  with_defaults c = record c {
    default_visibility_timeout = or_default (pos 30000000000) c.default_visibility_timeout;
    default_max_retries = if c.default_max_retries == 0 then 5 else c.default_max_retries;
    dedup_window = or_default (pos 600000000000) c.dedup_window;
  }

  unfoldable pub new_core : Bytes → Config → Bool → Core h
  new_core n c tree = record {
    name = n;
    cfg = c;
    ready = empty;
    in_flight = [];
    dedup = [];
    msg_seq = 0;
    closed = false;
    persistent = tree;
    writes = [];
    notified = false;
  }

  -- A new queue, whose tree, if there is one, has no messages. The dead letters have no tree.
  unfoldable pub new_queue_engine : Bytes → Config → Bool → QueueEngine
  new_queue_engine n c tree =
      let cfg = with_defaults c in
      record {
        main = new_core n cfg tree;
        dlq =
            if cfg.enable_dlq
            then some (new_core (n ++ codes ".dlq") (record cfg { enable_dlq = false }) false)
            else none;
      }

  -- A dead message goes to the dead letters, if there are any; the answer is dropped.
  unfoldable pub route : ℤ → Option Message → Option (Core h) → Option (Core h)
  route now none d = d
  route now (some m) none = none
  route now (some m) (some d) = some (enqueue h now now m d).0

  -- An operation of one queue, with the dead message that it may leave.
  pub data Operation : Type 0 where
    enqueues : (checked now : ℤ) → Message → Operation
    dequeues resumes : (now timeout : ℤ) → Operation
    acks : Bytes → Operation
    nacks : ℤ → Bytes → Bool → Operation
    extends : ℤ → Bytes → ℤ → Operation
    expires : ℤ → Bytes → Operation
    closes : Operation

  unfoldable pub apply : Operation → Core h → Core h × Option Message
  apply (enqueues checked now m) q = ((enqueue h checked now m q).0, none)
  apply (dequeues now timeout) q = ((dequeue h now timeout q).0, none)
  apply (resumes now timeout) q = ((resume_dequeue h now timeout q).0, none)
  apply (acks id) q = ((ack h id q).0, none)
  apply (nacks now id again) q = (nack h now id again q).0
  apply (extends now id d) q = ((extend h now id d q).0, none)
  apply (expires now id) q = if q.closed then (q, none) else expire h now id q
  apply closes q = (record q { closed = true }, none)

  -- When a dead message of an operation is routed.
  abbrev pub time_of : Operation → ℤ
  time_of (nacks now id again) = now
  time_of (expires now id) = now
  time_of o = pos 0

  -- The dead letters have none of their own: what dies there is dropped.
  unfoldable pub on_dlq : Operation → Option (Core h) → Option (Core h)
  on_dlq o none = none
  on_dlq o (some d) = some (apply o d).0

  -- A session with one engine, whatever becomes of the messages that die.
  abbrev pub run_core : Core h → List Operation → Core h
  run_core q [] = q
  run_core q (o ∷ os) = run_core (apply o q).0 os

  pub data Event : Type 0 where
    on_main on_dead_letters : Operation → Event

  -- Closing a queue closes its dead letters.
  abbrev close_too : Operation → Option (Core h) → Option (Core h)
  close_too closes d = on_dlq closes d
  close_too o d = d

  unfoldable pub step : QueueEngine → Event → QueueEngine
  step e (on_main o) =
      let (q, dead) = apply o e.main in
      record { main = q; dlq = close_too o (route (time_of o) dead e.dlq) }
  step e (on_dead_letters o) = record e { dlq = on_dlq o e.dlq }

  abbrev pub run : QueueEngine → List Event → QueueEngine
  run e [] = e
  run e (x ∷ xs) = run (step e x) xs
