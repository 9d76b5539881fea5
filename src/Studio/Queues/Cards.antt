-- ===== src/Studio/Queues/Cards.antt =====
-- QueueView.tsx: the bar with the counts of the selected queue, and the cards of all queues.
pub mod Clicked
use cocodb.Base.{ℕ, Bool, Option, none, some, List, [], ◌∷◌, ◌++◌, if◌then◌else◌, map, length}
use cocodb.Base.Text.{Text, codes, text_eq}
use cocodb.Base.Decimal.{decimal}
use cocodb.Studio.Queues.{QueueStats, QueueItem, View, current_queue_info}

pub record Counts : Type 0 where
  pub ready : ℕ
  pub in_flight : ℕ
  pub dlq : ℕ

-- `stats?.ReadyCount ?? 0` and the like.
unfoldable pub counts_of : Option QueueStats → Counts
counts_of none = record { ready = 0; in_flight = 0; dlq = 0 }
counts_of (some s) = record {
  ready = s.ready_count;
  in_flight = s.in_flight_count;
  dlq = s.dlq_count;
}

info_counts : Option QueueItem → Counts
unfolding counts_of
info_counts none = counts_of none
info_counts (some q) = counts_of q.stats

unfoldable pub metrics_bar : View → Counts
unfolding info_counts
metrics_bar v = info_counts (current_queue_info v.selected_queue v.queues)

-- A click on a card selects its queue.
pub record QueueCard : Type 0 where
  pub name : Text
  pub selected : Bool
  pub dlq_label : Text
  pub counts : Counts

unfoldable pub queue_card : Text → QueueItem → QueueCard
unfolding counts_of
queue_card selected_queue q = record {
  name = q.name;
  selected = text_eq selected_queue q.name;
  dlq_label = if q.has_dlq then codes "DLQ: ON" else codes "DLQ: OFF";
  counts = counts_of q.stats;
}

pub data Registered : Type 0 where
  no_queues : Registered
  cards : List QueueCard → Registered

registered_cards : Text → List QueueItem → Registered
unfolding queue_card
registered_cards name [] = no_queues
registered_cards name (q ∷ qs) = cards (map (queue_card name) (q ∷ qs))

unfoldable pub registered : View → Registered
unfolding registered_cards
registered v = registered_cards v.selected_queue v.queues

unfoldable pub registered_title : View → Text
registered_title v =
    codes "Registered Persistent Queues (" ++ (decimal (length v.queues) ++ codes ")")
