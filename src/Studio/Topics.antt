-- ===== src/Studio/Topics.antt =====
-- studio/frontend/src/views/PubSubView.tsx: the history of events and the form that publishes one.
pub mod Published
pub mod Broadcasts
use cocodb.Base.{
  ℕ, suc, ◌-◌, Bool, true, false, Option, none, some, List, [], ◌∷◌, ◌++◌, if◌then◌else◌, ◌==◌,
  get_elem?,
}
use cocodb.Base.Text.{Text, codes, is_empty}
use cocodb.Base.Decimal.{decimal}
use cocodb.Base.Result.{Result, ok, err}
use cocodb.Studio.Api.{HttpRequest}
use cocodb.Studio.Api.Documents.{publish_pub_sub}

-- A missing `dedup_id` is the empty text.
pub record PubSubEvent : Type 0 where
  pub id : Text
  pub topic : Text
  pub payload : Text
  pub dedup_id : Text
  pub created_at : Text

-- The answer to a publication.
pub record Receipt : Type 0 where
  pub topic : Text
  pub subscribers_hit : ℕ

-- `publishes` holds the requests that are pending, `histories` counts the polls that are.
pub record View : Type 0 where
  pub events : List PubSubEvent
  pub loading : Bool
  pub error : Option Text
  pub success : Option Text
  pub topic : Text
  pub payload : Text
  pub dedup_id : Text
  pub publishes : List HttpRequest
  pub histories : ℕ

unfoldable pub load_history : View → View
load_history v = record v { histories = suc v.histories }

-- A poll that fails is ignored.
unfoldable pub history_loaded : Result (Option (List PubSubEvent)) → View → View
history_loaded (ok none) v = record v { events = []; histories = v.histories - 1 }
history_loaded (ok (some es)) v = record v { events = es; histories = v.histories - 1 }
history_loaded (err e) v = record v { histories = v.histories - 1 }

given : Text → Option Text
given t = if is_empty t then none else some t

pub publish_request : View → HttpRequest
unfolding given
publish_request v = publish_pub_sub v.topic v.payload (given v.dedup_id)

unfoldable pub handle_publish : View → View
handle_publish v = record v {
  error = none;
  success = none;
  loading = true;
  publishes = publish_request v ∷ v.publishes;
}

receipt_message : Receipt → Text
receipt_message r =
    codes "Event broadcasted to topic \""
    ++ (r.topic
        ++ (codes "\" (" ++ (decimal r.subscribers_hit ++ codes " active subscribers hit)")))

unfoldable pub publish_done : Result Receipt → View → View
unfolding load_history receipt_message
publish_done (ok r) v =
    load_history (record v { success = some (receipt_message r); loading = false; publishes = [] })
publish_done (err e) v = record v { error = some e; loading = false; publishes = [] }

pub data Event : Type 0 where
  timer_ticks refreshes publish : Event
  type_topic type_payload type_dedup_id : Text → Event
  history_answers : Result (Option (List PubSubEvent)) → Event
  publish_answers : Result Receipt → Event

-- The form's button is disabled while an event is published.
unfoldable pub step : View → Event → View
unfolding load_history history_loaded handle_publish publish_done
step v timer_ticks = load_history v
step v refreshes = load_history v
step v publish = if v.loading then v else handle_publish v
step v (type_topic t) = record v { topic = t }
step v (type_payload t) = record v { payload = t }
step v (type_dedup_id t) = record v { dedup_id = t }
step v (history_answers r) = if v.histories == 0 then v else history_loaded r v
step v (publish_answers r) = if is_empty v.publishes then v else publish_done r v

-- The first render, its effect run.
unfoldable pub mount : View
unfolding load_history
mount = load_history (record {
  events = [];
  loading = false;
  error = none;
  success = none;
  topic = codes "sensors.iot.temperature";
  payload =
      codes "{\n  \"device_id\": \"SENSOR-01\",\n  \"temp_celsius\": 24.5,\n  \"humidity\": 55\n}";
  dedup_id = [];
  publishes = [];
  histories = 0;
})

abbrev pub run : View → List Event → View
run v [] = v
run v (e ∷ es) = run (step v e) es
