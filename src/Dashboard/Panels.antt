-- ===== src/Dashboard/Panels.antt =====
-- dashboard/frontend/src/App.tsx: what the cards and panels show of the latest telemetry, with the
-- samples that their sparklines draw.
pub mod Agreement
use cocodb.Base.{ℕ, Bool, true, false, Option, none, some, List, [], ◌∷◌, ◌++◌, if◌then◌else◌}
use cocodb.Base.Text.{Text, codes}
use cocodb.Base.Decimal.{decimal}
use cocodb.Dashboard.Telemetry.{
  Float, ClusterStatus, RealtimeTelemetry, or_zero, hit_point, size_mb, show_fixed_2,
}
use cocodb.Dashboard.Stream.{Stream}
use cocodb.Dashboard.Health.{cluster_of}

count_or_zero : Option ℕ → ℕ
count_or_zero none = 0
count_or_zero (some n) = n

module _ {Real : Type 0} where
  -- `telemetry?.field || 0`.
  field_or_zero : Option (RealtimeTelemetry Real) → (RealtimeTelemetry Real → ℕ) → ℕ
  field_or_zero none field = 0
  field_or_zero (some t) field = field t

  maybe : Option (RealtimeTelemetry Real) → (RealtimeTelemetry Real → Option Real) → Option Real
  maybe none field = none
  maybe (some t) field = field t

-- The four cards; a history is what the card's sparkline draws.
pub record MetricCards (Real : Type 0) : Type 0 where
  pub qps : Real
  pub qps_line : List Real
  pub hit_rate : Text
  pub hit_line : List Real
  pub hits : ℕ
  pub misses : ℕ
  pub size_mb : Text
  pub size_line : List Real
  pub page_count : ℕ
  pub last_lsn : ℕ
  pub last_txn_id : ℕ

-- The panel of the tab "Metrics Overview", less the cluster's card.
pub record OverviewPanel (Real : Type 0) : Type 0 where
  pub queue_count : ℕ
  pub ready_tasks : Real
  pub in_flight_tasks : ℕ
  pub dlq_tasks : ℕ
  pub ready_line : List Real
  pub active_topics : ℕ
  pub pubsub_events : Real
  pub delivered : ℕ
  pub pubsub_line : List Real

-- `fixed` is `toFixed(1)`.
module _ (f : Float) (fixed : Float.Real f → Text) where
  open f use {Real}

  unfoldable pub hit_rate_text : Option (RealtimeTelemetry Real) → Text
  hit_rate_text none = codes "100.0"
  hit_rate_text (some t) = fixed (hit_point f t)

  unfoldable pub metric_cards : Stream Real → MetricCards Real
  unfolding hit_rate_text field_or_zero maybe
  metric_cards s =
      let pages = field_or_zero s.latest (λ t. t.page_count) in
      record {
        qps = or_zero f (maybe s.latest (λ t. t.qps));
        qps_line = s.qps_history;
        hit_rate = hit_rate_text s.latest;
        hit_line = s.cache_hit_history;
        hits = field_or_zero s.latest (λ t. t.cache_hits);
        misses = field_or_zero s.latest (λ t. t.cache_misses);
        size_mb = show_fixed_2 (size_mb pages);
        size_line = s.allocated_mb_history;
        page_count = pages;
        last_lsn = field_or_zero s.latest (λ t. t.last_lsn);
        last_txn_id = field_or_zero s.latest (λ t. t.last_txn_id);
      }

  unfoldable pub overview_panel : Stream Real → OverviewPanel Real
  unfolding field_or_zero maybe count_or_zero
  overview_panel s = record {
    queue_count = field_or_zero s.latest (λ t. count_or_zero t.queue_count);
    ready_tasks = or_zero f (maybe s.latest (λ t. t.queue_ready_tasks));
    in_flight_tasks = field_or_zero s.latest (λ t. count_or_zero t.queue_inflight_tasks);
    dlq_tasks = field_or_zero s.latest (λ t. count_or_zero t.queue_dlq_tasks);
    ready_line = s.queue_ready_history;
    active_topics = field_or_zero s.latest (λ t. count_or_zero t.pubsub_active_topics);
    pubsub_events = or_zero f (maybe s.latest (λ t. t.pubsub_events_count));
    delivered = field_or_zero s.latest (λ t. count_or_zero t.pubsub_delivered_count);
    pubsub_line = s.pubsub_history;
  }

-- The badge of the header: the nodes of a cluster that is enabled.
unfoldable pub cluster_badge : Option ClusterStatus → Text
cluster_badge none = codes "Standalone Node"
cluster_badge (some c) =
    if c.enabled
    then codes "Cluster Active (" ++ (decimal c.total_nodes ++ codes " Nodes)")
    else codes "Standalone Node"

unfoldable pub connection_label : Bool → Text
connection_label connected = if connected then codes "SSE 500ms Live" else codes "Reconnecting..."
