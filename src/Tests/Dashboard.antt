-- ===== src/Tests/Dashboard.antt =====
-- The dashboard: a stream of telemetry, a cluster and the tabs.
use cocodb.Base.{
  ℕ, ◌+◌, ◌*◌, ◌/◌, ◌≡◌, ◌↔◌, refl, Bool, true, false, none, some, List, [], ◌∷◌, length, filter,
  map, All,
}
use cocodb.Base.Text.{Text, codes}
use cocodb.Base.Decimal.{decimal}
use cocodb.Dashboard.Telemetry.{Float, pos, PeerStatus, ClusterStatus, RealtimeTelemetry, qps_point}
use cocodb.Dashboard.Stream.{
  last, Event, opened, errored, message, telemetry, null, timer_fires, unmounts, mount, run, step,
}
use cocodb.Dashboard.Panels.{metric_cards, overview_panel}
use cocodb.Dashboard.Panels.Agreement.{figures_end_lines}
use cocodb.Dashboard.Stream.Histories.{Recorded, received, mount-Recorded}
use cocodb.Dashboard.Stream.Sources.{Phase, mount-Phase, unmount_leaks}
use cocodb.Dashboard.Health.{
  cluster_health, healthy, degraded, cluster_peers, online_peers, unreachable_peers, PeerRow,
  peer_rows,
}
use cocodb.Dashboard.Health.Counts.{Online, cluster_health_iff}

-- Doubles that are whole numbers.
abbrev whole_numbers : Float
whole_numbers = record { Real = ℕ; of_nat = λ n. n; times = λ a b. a * b; over = λ a b. a / b }

abbrev sample : ℕ → RealtimeTelemetry ℕ
sample n = record {
  page_count = 64;
  cache_hits = 0;
  cache_misses = 0;
  cache_hit_rate = 1;
  last_lsn = 7;
  last_txn_id = 3;
  qps = some n;
  queue_count = some 1;
  queue_ready_tasks = none;
  queue_inflight_tasks = none;
  queue_dlq_tasks = none;
  pubsub_events_count = some 2;
  pubsub_delivered_count = none;
  pubsub_active_topics = none;
  cluster = none;
}

-- The first source opens, brings a message and fails; the second one brings another.
abbrev session : List (Event ℕ)
session =
    opened 0
    ∷ message 0 (telemetry (sample 5))
    ∷ errored 0
    ∷ message 0 null
    ∷ timer_fires
    ∷ message 1 (telemetry (sample 6))
    ∷ []

qps_history_of_session : (run whole_numbers mount session).qps_history ≡ 5 ∷ 6 ∷ []
unfolding mount step last qps_point
qps_history_of_session = refl

mount-Recorded_example :
    Recorded whole_numbers
      (received whole_numbers mount session)
      mount
      (run whole_numbers mount session)
mount-Recorded_example = mount-Recorded whole_numbers session

mount-Phase_example : Phase (run whole_numbers mount session)
mount-Phase_example = mount-Phase whole_numbers session

abbrev failed : List (Event ℕ)
failed = opened 0 ∷ errored 0 ∷ []

failed_waits : (run whole_numbers mount failed).timers ≡ 1
unfolding mount step
failed_waits = refl

unmount_leaks_example :
    let u =
      step whole_numbers
        (step whole_numbers (run whole_numbers mount failed) unmounts)
        timer_fires in
    (u.mounted ≡ false) × (length u.open_sources ≡ 1)
unmount_leaks_example = unmount_leaks whole_numbers failed failed_waits

abbrev peer : Text → Text → Bool → PeerStatus
peer addr status is_local = record {
  addr = addr;
  status = status;
  latency_us = pos 250;
  is_local = is_local;
}

abbrev cluster : ClusterStatus
cluster = record {
  enabled = true;
  node_id = codes "n1";
  addr = codes "127.0.0.1:9001";
  tls_enabled = true;
  mtls_enforced = false;
  auth_enforced = true;
  total_nodes = 2;
  virtual_nodes = 256;
  active_conns = 1;
  peers = some (
      peer (codes "127.0.0.1:9001") (codes "online (local node)") true
      ∷ peer (codes "127.0.0.1:9002") (codes "unreachable") false
      ∷ []);
}

degraded_cluster : cluster_health (some cluster) ≡ degraded
unfolding cluster_health
degraded_cluster = refl

cluster_health_iff_example :
    ((cluster_health (some cluster) ≡ healthy) ↔ All Online (cluster_peers (some cluster)))
    × (online_peers (some cluster) + unreachable_peers (some cluster)
        ≡ length (cluster_peers (some cluster)))
    × (length (filter (λ (r : PeerRow). r.green) (peer_rows 0 (cluster_peers (some cluster))))
        ≡ online_peers (some cluster))
cluster_health_iff_example = cluster_health_iff cluster refl

latest_of_session : (run whole_numbers mount session).latest ≡ some (sample 6)
unfolding mount step
latest_of_session = refl

figures_end_lines_example :
    let s = run whole_numbers mount session in
    let cards = metric_cards whole_numbers decimal s in
    let panel = overview_panel whole_numbers decimal s in
    (last 1 cards.qps_line ≡ cards.qps ∷ [])
    × (map decimal (last 1 cards.hit_line) ≡ cards.hit_rate ∷ [])
    × (last 1 panel.ready_line ≡ panel.ready_tasks ∷ [])
    × (last 1 panel.pubsub_line ≡ panel.pubsub_events ∷ [])
figures_end_lines_example =
    figures_end_lines whole_numbers decimal session (sample 6) latest_of_session
