-- ===== src/Studio/Queues.antt =====
-- studio/frontend/src/views/QueueView.tsx: the list of queues, the form that enqueues a task and the
-- simulated worker; and what studio/handlers.go makes of the priority that the form sends.
pub mod Priority
pub mod Cards
use cocodb.Base.{
  ℕ, zero, suc, ◌+◌, ◌-◌, ◌*◌, ◌%◌, Bool, true, false, ◌||◌, ◌&&◌, Option, none, some, List, [],
  ◌∷◌, ◌++◌, if◌then◌else◌, ltb, ◌==◌, get_elem?, erase_idx,
}
use cocodb.Base.Text.{Text, codes, is_empty, text_eq, trim}
use cocodb.Base.Decimal.{digits_value}
use cocodb.Base.Result.{Result, ok, err}
use cocodb.Studio.Json.{Number, finite, infinite, nat, is_zero}
use cocodb.Studio.Number.Integer.{parse_int}
use cocodb.Studio.Api.{HttpRequest}
use cocodb.Studio.Api.Documents.{enqueue_task, dequeue_task}

pub record QueueStats : Type 0 where
  pub ready_count : ℕ
  pub in_flight_count : ℕ
  pub dlq_count : ℕ

pub record QueueItem : Type 0 where
  pub name : Text
  pub stats : Option QueueStats
  pub has_dlq : Bool

-- The answer to a dequeue.
pub record Dequeued : Type 0 where
  pub found : Bool
  pub message_id : Text
  pub payload : Text
  pub retry_count : ℕ
  pub priority : ℕ

-- The functions that wait: `listings` holds for each call of `loadQueues` the queue selected in its
-- render, `enqueues` and `dequeues` the requests, the latter with the box Auto-Ack of its render.
pub record View : Type 0 where
  pub queues : List QueueItem
  pub selected_queue : Text
  pub loading : Bool
  pub error : Option Text
  pub success : Option Text
  pub payload : Text
  pub dedup_id : Text
  pub priority : Number
  pub delay_ms : Number
  pub last_dequeued : Option Dequeued
  pub auto_ack : Bool
  pub listings : List Text
  pub enqueues : List HttpRequest
  pub dequeues : List (Bool × HttpRequest)

unfoldable pub load_queues : View → View
load_queues v = record v { loading = true; listings = v.listings ++ v.selected_queue ∷ [] }

first_selected : Text → List QueueItem → Text → Text
first_selected before [] current = current
first_selected before (q ∷ qs) current = if is_empty before then q.name else current

unfoldable pub queues_listed : Text → Result (Option (List QueueItem)) → View → View
unfolding first_selected
queues_listed before (ok none) v = record v { queues = []; loading = false }
queues_listed before (ok (some qs)) v = record v {
  queues = qs;
  selected_queue = first_selected before qs v.selected_queue;
  loading = false;
}
queues_listed before (err e) v = record v { error = some e; loading = false }

-- `text || undefined`.
given : Text → Option Text
given t = if is_empty t then none else some t

unfoldable pub handle_enqueue : View → View
unfolding given
handle_enqueue v = record v {
  error = none;
  success = none;
  enqueues =
      v.enqueues
      ++ enqueue_task v.selected_queue v.payload (given v.dedup_id) v.priority v.delay_ms ∷ [];
}

unfoldable pub enqueue_done : Result Text → View → View
unfolding load_queues
enqueue_done (ok message_id) v =
    load_queues
      (record v { success = some (codes "Task enqueued successfully! Message ID: " ++ message_id) })
enqueue_done (err e) v = record v { error = some e }

unfoldable pub handle_dequeue : View → View
handle_dequeue v = record v {
  error = none;
  success = none;
  dequeues = v.dequeues ++ (v.auto_ack, dequeue_task v.selected_queue v.auto_ack) ∷ [];
}

dequeued_message : Bool → Dequeued → Text
dequeued_message auto_ack d =
    if d.found
    then codes "Task dequeued: "
      ++ (d.message_id
          ++ (codes " ("
              ++ ((if auto_ack then codes "Auto-Acked" else codes "Leased") ++ codes ")")))
    else codes "Queue is currently empty."

unfoldable pub dequeue_done : Bool → Result Dequeued → View → View
unfolding dequeued_message load_queues
dequeue_done auto_ack (ok d) v =
    load_queues (record v { last_dequeued = some d; success = some (dequeued_message auto_ack d) })
dequeue_done auto_ack (err e) v = record v { error = some e }

-- The queue whose counts the bar shows: the first one of the name selected.
pub current_queue_info : Text → List QueueItem → Option QueueItem
current_queue_info name [] = none
current_queue_info name (q ∷ qs) =
    let rest = current_queue_info name qs in if text_eq q.name name then some q else rest

-- `number || fallback`.
pub or_number : Option Number → ℕ → Number
unfolding is_zero
or_number none d = nat d
or_number (some n) d = if is_zero n then nat d else n

pub data Event : Type 0 where
  timer_ticks refreshes enqueues dequeues : Event
  select type_payload type_dedup_id type_priority type_delay : Text → Event
  auto_acks : Bool → Event
  list_answers : (call : ℕ) → Result (Option (List QueueItem)) → Event
  enqueue_answers : (call : ℕ) → Result Text → Event
  dequeue_answers : (call : ℕ) → Result Dequeued → Event

on_listing : Option Text → ℕ → Result (Option (List QueueItem)) → View → View
unfolding queues_listed
on_listing none i r v = v
on_listing (some before) i r v =
    queues_listed before r (record v { listings = erase_idx v.listings i })

on_enqueue : Option HttpRequest → ℕ → Result Text → View → View
unfolding enqueue_done
on_enqueue none i r v = v
on_enqueue (some q) i r v = enqueue_done r (record v { enqueues = erase_idx v.enqueues i })

on_dequeue : Option (Bool × HttpRequest) → ℕ → Result Dequeued → View → View
unfolding dequeue_done
on_dequeue none i r v = v
on_dequeue (some (auto_ack, q)) i r v =
    dequeue_done auto_ack r (record v { dequeues = erase_idx v.dequeues i })

unfoldable pub step : View → Event → View
unfolding load_queues handle_enqueue handle_dequeue parse_int or_number on_listing on_enqueue
    on_dequeue
step v timer_ticks = load_queues v
step v refreshes = if v.loading then v else load_queues v
step v enqueues = handle_enqueue v
step v dequeues = handle_dequeue v
step v (select t) = record v { selected_queue = t }
step v (type_payload t) = record v { payload = t }
step v (type_dedup_id t) = record v { dedup_id = t }
step v (type_priority t) = record v { priority = or_number (parse_int t) 128 }
step v (type_delay t) = record v { delay_ms = or_number (parse_int t) 0 }
step v (auto_acks b) = record v { auto_ack = b }
step v (list_answers i r) = on_listing (get_elem? v.listings i) i r v
step v (enqueue_answers i r) = on_enqueue (get_elem? v.enqueues i) i r v
step v (dequeue_answers i r) = on_dequeue (get_elem? v.dequeues i) i r v

-- The first render, its effect run.
unfoldable pub mount : Option Text → View
unfolding load_queues
mount initial = load_queues (record {
  queues = [];
  selected_queue = elim initial [
    | none ↦ codes "default_tasks"
    | some q ↦ if is_empty q then codes "default_tasks" else q
  ];
  loading = false;
  error = none;
  success = none;
  payload =
      codes
        "{\n  \"order_id\": \"ORD-9988\",\n  \"action\": \"charge_customer\",\n  \"amount\": 250.00\n}";
  dedup_id = codes "order_ORD-9988";
  priority = nat 128;
  delay_ms = nat 0;
  last_dequeued = none;
  auto_ack = true;
  listings = [];
  enqueues = [];
  dequeues = [];
})

abbrev pub run : View → List Event → View
run v [] = v
run v (e ∷ es) = run (step v e) es

-- The server's side, for a number that its decoder takes for an int: a positive priority is passed
-- on as a byte, any other leaves the default of 128.
unfoldable pub enqueue_priority : Number → Option ℕ
enqueue_priority (finite negative n small (suc e)) = none
enqueue_priority (finite true n small zero) = some 128
enqueue_priority (finite false n small zero) =
    if ltb n (2 * 4611686018427387904) then some (if ltb 0 n then n % 256 else 128) else none
enqueue_priority (infinite negative) = none
