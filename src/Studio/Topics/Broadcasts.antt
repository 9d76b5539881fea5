-- ===== src/Studio/Topics/Broadcasts.antt =====
-- PubSubView.tsx: the stream of the events that were broadcast.
use cocodb.Base.{Option, none, some, List, [], ◌∷◌, ◌++◌, if◌then◌else◌, map, length}
use cocodb.Base.Text.{Text, codes, is_empty}
use cocodb.Base.Decimal.{decimal}
use cocodb.Studio.Topics.{PubSubEvent, View}

pub record Broadcast : Type 0 where
  pub key : Text
  pub topic : Text
  pub time : Text
  pub payload : Text
  pub dedup_line : Option Text

pub data StreamBox : Type 0 where
  no_events : StreamBox
  broadcasts : List Broadcast → StreamBox

unfoldable pub stream_title : View → Text
stream_title v = codes "Live Broadcast Stream (" ++ (decimal (length v.events) ++ codes ")")

-- `local_time` is `new Date(text).toLocaleTimeString()`.
module _ (local_time : Text → Text) where
  unfoldable pub broadcast : PubSubEvent → Broadcast
  broadcast evt = record {
    key = evt.id;
    topic = evt.topic;
    time = local_time evt.created_at;
    payload = evt.payload;
    dedup_line = if is_empty evt.dedup_id then none else some (codes "Dedup ID: " ++ evt.dedup_id);
  }

  box_of : List PubSubEvent → StreamBox
  unfolding broadcast
  box_of [] = no_events
  box_of (e ∷ es) = broadcasts (map broadcast (e ∷ es))

  unfoldable pub stream_box : View → StreamBox
  unfolding box_of
  stream_box v = box_of v.events
