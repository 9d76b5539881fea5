-- ===== src/Studio/Topics/Published.antt =====
-- PubSubView.tsx: one event is published at a time.
use cocodb.Base.{refl, Option, none, some, List, [], ◌∷◌, if_holds, length, ◌==◌}
use cocodb.Base.Text.{is_empty}
use cocodb.Base.Flight.{Flight, Flight-suc}
use cocodb.Base.Result.{Result, ok, err}
use cocodb.Studio.Topics.{
  PubSubEvent, Receipt, View, mount, load_history, history_loaded, handle_publish, publish_done,
  Event, timer_ticks, refreshes, publish, type_topic, type_payload, type_dedup_id, history_answers,
  publish_answers, step, run,
}

-- A request to publish is pending exactly while the button is disabled, and then one is.
abbrev pub OnePublish : View → Type 0
OnePublish v = Flight v.loading (length v.publishes)

history-OnePublish :
    (r : Result (Option (List PubSubEvent))) (v : View)
    → OnePublish v
    → OnePublish (history_loaded r v)
unfolding history_loaded
history-OnePublish (ok none) v h = h
history-OnePublish (ok (some es)) v h = h
history-OnePublish (err e) v h = h

done-OnePublish : (r : Result Receipt) (v : View) → OnePublish (publish_done r v)
unfolding publish_done load_history
done-OnePublish (ok r) v = refl
done-OnePublish (err e) v = refl

step-OnePublish : (v : View) (e : Event) → OnePublish v → OnePublish (step v e)
unfolding step load_history handle_publish
step-OnePublish v timer_ticks h = h
step-OnePublish v refreshes h = h
step-OnePublish v publish h =
    if_holds OnePublish v.loading v (handle_publish v) (λ y. h)
      (λ n. Flight-suc v.loading (length v.publishes) n h)
step-OnePublish v (type_topic t) h = h
step-OnePublish v (type_payload t) h = h
step-OnePublish v (type_dedup_id t) h = h
step-OnePublish v (history_answers r) h =
    if_holds OnePublish (v.histories == 0) v (history_loaded r v) (λ y. h)
      (λ n. history-OnePublish r v h)
step-OnePublish v (publish_answers r) h =
    if_holds OnePublish (is_empty v.publishes) v (publish_done r v) (λ y. h)
      (λ n. done-OnePublish r v)

run-OnePublish : (es : List Event) (v : View) → OnePublish v → OnePublish (run v es)
run-OnePublish [] v h = h
run-OnePublish (e ∷ es) v h = run-OnePublish es (step v e) (step-OnePublish v e h)

-- In any session of the view a request to publish is pending exactly while the button of the form
-- is disabled, and never are two pending.
pub published-OnePublish : (es : List Event) → OnePublish (run mount es)
unfolding mount load_history
published-OnePublish es = run-OnePublish es mount refl
