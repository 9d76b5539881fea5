-- ===== src/Tests/Queue.antt =====
-- A queue with two messages, of which the first is not visible yet; a message written and read.
use cocodb.Base.{◌<◌, length, take, ◌≡◌, ◌⊎◌, refl, true, false, some, List, [], ◌∷◌, arith}
use cocodb.Base.Text.{codes, text_eq}
use cocodb.Base.Result.{ok}
use cocodb.Engine.Int64
use cocodb.Engine.Int64.{ℤ, pos, of_uint64, to_uint64, at_most}
use cocodb.Engine.Dedup.{find, check_or_set}
use cocodb.Engine.Message.{Message, encode, header, sized, decode_message}
use cocodb.Engine.Message.RoundTrip.{Fits, decode_message-encode}
use cocodb.Engine.Message.Truncated.{IsErr, decode_message-IsErr}
use cocodb.Engine.Bytes.{put_uint}
use cocodb.Engine.Heap
use cocodb.Engine.Heap.Chosen.{chosen_heap, chosen}
use cocodb.Engine.Queue.{
  Core, refused, queued, duplicate_message, Config, waiting, delivered, filled_in, enqueue_open,
  enqueue, is_expired, leased, deliver, scan, lease_time, dequeue, resume_dequeue, expire,
}
use cocodb.Engine.Queue.Limit.{IsInLimit, dequeue-IsInLimit}
use cocodb.Engine.Queue.Duplicates.{enqueue-refused}
use cocodb.Engine.Queue.Lost.{IsGone, dead_letters, dead_letter_lost}
use cocodb.Engine.Queue.Outcome.{Outcome, dequeue-Outcome}
use cocodb.Engine.Queue.Drained.{Drains, dequeue-Drains}
use cocodb.Engine.Queue.Routed.{
  QueueEngine, with_defaults, new_core, new_queue_engine, run_core, Operation, enqueues, dequeues,
  acks, nacks, Event, on_main, apply, step, run,
}

abbrev pub task : Message
task = record {
  id = codes "a";
  queue = [];
  payload = codes "send";
  priority = 128;
  dedup_id = [];
  retry_count = 0;
  max_retries = 2;
  state = 0;
  visible_at = pos 0;
  created_at = pos 0;
  expire_at = pos 0;
}

abbrev delayed_task : Message
delayed_task = record task { id = codes "b"; priority = 200; visible_at = pos 5000 }

task-Fits : Fits task
task-Fits = record {
  id_short = omega arith;
  queue_short = omega arith;
  dedup_short = omega arith;
  payload_short = omega arith;
  retries_small = omega arith;
  max_small = omega arith;
  visible_int64 = omega arith;
  created_int64 = omega arith;
  expire_int64 = omega arith;
}

decode_message-encode_example : decode_message (encode task) ≡ ok task
decode_message-encode_example = decode_message-encode task task-Fits

task_size : 40 < length (encode task)
unfolding encode header sized put_uint
task_size = omega arith

decode_message-IsErr_example : IsErr (decode_message (take 40 (encode task)))
decode_message-IsErr_example = decode_message-IsErr task task-Fits 40 task_size

abbrev config : Config
config = record {
  default_visibility_timeout = pos 0;
  default_max_retries = 0;
  dedup_window = pos 0;
  enable_dlq = true;
}

abbrev at_start : QueueEngine chosen_heap
at_start = new_queue_engine chosen_heap (codes "mail") config false

abbrev with_task : List (Event chosen_heap)
with_task = on_main (enqueues (pos 9) (pos 10) task) ∷ []

abbrev with_both : List (Event chosen_heap)
with_both = on_main (enqueues (pos 9) (pos 10) delayed_task) ∷ with_task

-- The delayed message of a higher priority keeps the one that is visible from being delivered.
visible_task_waits :
    (dequeue chosen_heap (pos 20) (pos 100) (run chosen_heap at_start with_both).main).1 ≡ waiting
unfolding chosen_heap chosen step apply enqueue enqueue_open filled_in dequeue scan lease_time
    is_expired Heap.less Int64.less at_most new_queue_engine new_core with_defaults
visible_task_waits = refl

visible_task_alone :
    (dequeue chosen_heap (pos 20) (pos 100) (run chosen_heap at_start with_task).main).1
    ≡ delivered (record task {
      queue = codes "mail";
      retry_count = 1;
      state = 1;
      visible_at = pos 120;
      created_at = pos 10;
    })
unfolding chosen_heap chosen step apply enqueue enqueue_open filled_in dequeue scan lease_time
    is_expired Heap.less Int64.less at_most new_queue_engine new_core with_defaults deliver leased
    Int64.plus of_uint64 to_uint64
visible_task_alone = refl

dequeue-IsInLimit_example :
    let q = (run chosen_heap at_start with_both).main in
    IsInLimit chosen_heap (dequeue chosen_heap (pos 6000) (pos 100) q).1
    × IsInLimit chosen_heap (resume_dequeue chosen_heap (pos 6000) (pos 100) q).1
dequeue-IsInLimit_example =
    dequeue-IsInLimit chosen_heap (codes "mail") config false with_both (pos 6000) (pos 100)
      (refl, (refl, tt))

dequeue-Outcome_example :
    let q = (run chosen_heap at_start with_both).main in
    Outcome chosen_heap
      (pos 20)
      (lease_time chosen_heap (pos 100) q)
      q
      (dequeue chosen_heap (pos 20) (pos 100) q)
dequeue-Outcome_example =
    dequeue-Outcome chosen_heap (pos 20) (pos 100) (run chosen_heap at_start with_both).main

-- Two messages that are visible.
abbrev with_two : List (Event chosen_heap)
with_two =
    on_main (enqueues (pos 9) (pos 10) (record task { id = codes "b"; priority = 200 })) ∷ with_task

with_two_open : (run chosen_heap at_start with_two).main.closed ≡ false
unfolding step apply enqueue enqueue_open filled_in new_queue_engine new_core
with_two_open = refl

dequeue-Drains_example :
    Drains chosen_heap (pos 20) (pos 100) (run chosen_heap at_start with_two).main
dequeue-Drains_example =
    dequeue-Drains chosen_heap (pos 20) (pos 100) (run chosen_heap at_start with_two).main
      with_two_open

-- A message that has been delivered twice of two times, and is delivered once as a dead letter.
abbrev dead_task : Message
dead_task = record task { retry_count = 2; state = 3 }

abbrev dead_session : List (Operation chosen_heap)
dead_session = enqueues (pos 9) (pos 10) dead_task ∷ (dequeues (pos 20) (pos 100) ∷ [])

abbrev third_delivery : Message
third_delivery = record task {
  queue = codes "mail.dlq";
  retry_count = 3;
  state = 1;
  visible_at = pos 120;
  created_at = pos 10;
}

third_delivery_in_flight :
    find (codes "a") (dead_letters chosen_heap (codes "mail.dlq") config dead_session).in_flight
    ≡ some third_delivery
unfolding chosen_heap chosen apply enqueue enqueue_open filled_in dequeue scan lease_time is_expired
    Int64.less at_most new_core with_defaults deliver leased Int64.plus of_uint64 to_uint64 find
    text_eq
third_delivery_in_flight = refl

dead_letter_lost_example :
    let d = dead_letters chosen_heap (codes "mail.dlq") config dead_session in
    IsGone chosen_heap (codes "a") d (apply chosen_heap (nacks (pos 50) (codes "a") true) d).0
    × ((Int64.less (pos 50) third_delivery.visible_at ≡ true)
        ⊎ IsGone chosen_heap (codes "a") d (expire chosen_heap (pos 50) (codes "a") d).0)
dead_letter_lost_example =
    dead_letter_lost chosen_heap (codes "mail.dlq") config dead_session (pos 50) (codes "a") true
      third_delivery (refl, (tt, tt)) third_delivery_in_flight

abbrev once_task : Message
once_task = record task { id = codes "c"; dedup_id = codes "order-1" }

abbrev empty_core : Core chosen_heap
empty_core = new_core chosen_heap (codes "mail") (with_defaults chosen_heap config) false

once_task_queued :
    (enqueue chosen_heap (pos 9) (pos 10) once_task empty_core).1
    ≡ queued (record once_task { queue = codes "mail"; visible_at = pos 10; created_at = pos 10 })
unfolding enqueue enqueue_open filled_in new_core with_defaults check_or_set find at_most
once_task_queued = refl

once_task_in_window : Int64.less (pos 9) (Int64.plus (pos 9) empty_core.cfg.dedup_window) ≡ true
unfolding Int64.less Int64.plus at_most of_uint64 to_uint64 new_core with_defaults
once_task_in_window = refl

checked_in_window : Int64.less (pos 40) (Int64.plus (pos 9) empty_core.cfg.dedup_window) ≡ true
unfolding Int64.less Int64.plus at_most of_uint64 to_uint64 new_core with_defaults
checked_in_window = refl

-- The task is delivered and acknowledged, and refused then.
enqueue-refused_example :
    let q = (enqueue chosen_heap (pos 9) (pos 10) once_task empty_core).0 in
    let w = run_core chosen_heap q (dequeues (pos 20) (pos 100) ∷ (acks (codes "c") ∷ [])) in
    enqueue chosen_heap (pos 40) (pos 41) once_task w ≡ (w, refused duplicate_message)
enqueue-refused_example =
    enqueue-refused chosen_heap empty_core (pos 9) (pos 10) once_task _
      (dequeues (pos 20) (pos 100) ∷ (acks (codes "c") ∷ [])) (pos 40) (pos 41) once_task refl refl
      once_task_queued once_task_in_window (tt, (tt, tt)) checked_in_window
