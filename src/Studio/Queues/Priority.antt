-- ===== src/Studio/Queues/Priority.antt =====
-- QueueView.tsx and studio/handlers.go: which priority a task gets for the text of the form.
use cocodb.Base.Result.{Result, ok, err}
use cocodb.Studio.Api.{HttpRequest}
use cocodb.Base.{
  get_elem?, Bool-cases, inl, inr, ℕ, ◌≡◌, refl, Bool, false, Option, none, some, List, [], ◌∷◌,
  if_holds,
}
use cocodb.Base.Text.{Text}
use cocodb.Studio.Json.{Number, nat, is_zero}
use cocodb.Studio.Number.Integer.{parse_int}
use cocodb.Studio.Queues.{
  View, or_number, step, type_priority, load_queues, handle_enqueue, handle_dequeue, on_listing,
  on_enqueue, on_dequeue, queues_listed, enqueue_done, dequeue_done, QueueItem, Dequeued, Event,
  timer_ticks, refreshes, enqueues, dequeues, select, type_payload, type_dedup_id, type_delay,
  auto_acks, list_answers, enqueue_answers, dequeue_answers, run, mount,
}

NonZero : Number → Type 0
NonZero n = is_zero n ≡ false

or_number-NonZero : (o : Option Number) (d : ℕ) → is_zero (nat d) ≡ false → NonZero (or_number o d)
unfolding or_number NonZero
or_number-NonZero none d h = h
or_number-NonZero (some n) d h = elim (Bool-cases (is_zero n)) [ inl y ↦ rw y h | inr z ↦ rw z z ]

listing-priority :
    (o : Option Text) (i : ℕ) (r : Result (Option (List QueueItem))) (v : View)
    → (on_listing o i r v).priority ≡ v.priority
unfolding on_listing queues_listed
listing-priority none i r v = refl
listing-priority (some b) i (ok none) v = refl
listing-priority (some b) i (ok (some qs)) v = refl
listing-priority (some b) i (err e) v = refl

enqueue-priority :
    (o : Option HttpRequest) (i : ℕ) (r : Result Text) (v : View)
    → (on_enqueue o i r v).priority ≡ v.priority
unfolding on_enqueue enqueue_done load_queues
enqueue-priority none i r v = refl
enqueue-priority (some q) i (ok m) v = refl
enqueue-priority (some q) i (err e) v = refl

dequeue-priority :
    (o : Option (Bool × HttpRequest)) (i : ℕ) (r : Result Dequeued) (v : View)
    → (on_dequeue o i r v).priority ≡ v.priority
unfolding on_dequeue dequeue_done load_queues
dequeue-priority none i r v = refl
dequeue-priority (some (a, q)) i (ok d) v = refl
dequeue-priority (some (a, q)) i (err e) v = refl

step-NonZero : (v : View) (e : Event) → NonZero v.priority → NonZero (step v e).priority
unfolding step load_queues handle_enqueue handle_dequeue
step-NonZero v timer_ticks h = h
step-NonZero v refreshes h =
    if_holds (λ (u : View). NonZero u.priority) v.loading v (load_queues v) (λ y. h) (λ n. h)
step-NonZero v enqueues h = h
step-NonZero v dequeues h = h
step-NonZero v (select t) h = h
step-NonZero v (type_payload t) h = h
step-NonZero v (type_dedup_id t) h = h
step-NonZero v (type_priority t) h = or_number-NonZero (parse_int t) 128 refl
step-NonZero v (type_delay t) h = h
step-NonZero v (auto_acks b) h = h
step-NonZero v (list_answers i r) h = rw (listing-priority (get_elem? v.listings i) i r v) h
step-NonZero v (enqueue_answers i r) h = rw (enqueue-priority (get_elem? v.enqueues i) i r v) h
step-NonZero v (dequeue_answers i r) h = rw (dequeue-priority (get_elem? v.dequeues i) i r v) h

run-NonZero : (es : List Event) (v : View) → NonZero v.priority → NonZero (run v es).priority
run-NonZero [] v h = h
run-NonZero (e ∷ es) v h = run-NonZero es (step v e) (step-NonZero v e h)

-- In any session, whatever is typed into the form, the priority that the next task would be sent
-- with is not zero, the lowest priority that the form's label offers.
pub priority_nonzero :
    (initial : Option Text) (es : List Event) → is_zero (run (mount initial) es).priority ≡ false
unfolding NonZero mount load_queues is_zero
priority_nonzero initial es = run-NonZero es (mount initial) refl
