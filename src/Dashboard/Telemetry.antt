-- ===== src/Dashboard/Telemetry.antt =====
-- dashboard/frontend/src/types.ts, and the values that App.tsx derives from a message of telemetry.
-- A double is a value of an interface, exact or not; counters are natural numbers.
use cocodb.Base.{
  ℕ, ◌+◌, ◌*◌, ◌/◌, ◌%◌, ◌≤◌, ◌<◌, Bool, Option, none, some, List, [], ◌∷◌, ◌++◌, arith,
}
use cocodb.Base.Text.{Text, codes}
use cocodb.Base.Decimal.{decimal}

-- The arithmetic of doubles, as far as the dashboard uses it.
pub record Float : Type 1 where
  pub Real : Type 0
  pub of_nat : ℕ → Real
  pub times : Real → Real → Real
  pub over : Real → Real → Real

pub data ℤ : Type 0 where
  pos negsuc : ℕ → ℤ

pub record PeerStatus : Type 0 where
  pub addr : Text
  pub status : Text
  pub latency_us : ℤ
  pub is_local : Bool

-- A list of peers that Go leaves out is null.
pub record ClusterStatus : Type 0 where
  pub enabled : Bool
  pub node_id : Text
  pub addr : Text
  pub tls_enabled : Bool
  pub mtls_enforced : Bool
  pub auth_enforced : Bool
  pub total_nodes : ℕ
  pub virtual_nodes : ℕ
  pub active_conns : ℕ
  pub peers : Option (List PeerStatus)

-- The fields that the component reads; the ones that it reads with `|| 0` may be missing.
pub record RealtimeTelemetry (Real : Type 0) : Type 0 where
  pub page_count : ℕ
  pub cache_hits : ℕ
  pub cache_misses : ℕ
  pub cache_hit_rate : Real
  pub last_lsn : ℕ
  pub last_txn_id : ℕ
  pub qps : Option Real
  pub queue_count : Option ℕ
  pub queue_ready_tasks : Option Real
  pub queue_inflight_tasks : Option ℕ
  pub queue_dlq_tasks : Option ℕ
  pub pubsub_events_count : Option Real
  pub pubsub_delivered_count : Option ℕ
  pub pubsub_active_topics : Option ℕ
  pub cluster : Option ClusterStatus

module _ (f : Float) where
  open f use {Real, of_nat, times, over}

  unfoldable pub or_zero : Option Real → Real
  or_zero none = of_nat 0
  or_zero (some x) = x

  -- The points that one message adds to the five histories.
  unfoldable pub size_point : RealtimeTelemetry Real → Real
  size_point t = over (times (of_nat t.page_count) (of_nat 16)) (of_nat 1024)

  unfoldable pub hit_point : RealtimeTelemetry Real → Real
  hit_point t = times t.cache_hit_rate (of_nat 100)

  unfoldable pub qps_point : RealtimeTelemetry Real → Real
  unfolding or_zero
  qps_point t = or_zero t.qps

  unfoldable pub ready_point : RealtimeTelemetry Real → Real
  unfolding or_zero
  ready_point t = or_zero t.queue_ready_tasks

  unfoldable pub pubsub_point : RealtimeTelemetry Real → Real
  unfolding or_zero
  pubsub_point t = or_zero t.pubsub_events_count

-- `(num / den).toFixed(2)` in hundredths, half a hundredth upwards. The quotients of the component
-- are by a power of two, and so exact, below 2^53.
unfoldable pub to_fixed_2 : ℕ → ℕ → ℕ
to_fixed_2 num den = (200 * num + den) / (2 * den)

-- The hundredths as they are written.
unfoldable pub show_fixed_2 : ℕ → Text
show_fixed_2 h = decimal (h / 100) ++ (codes "." ++ (48 + h / 10 % 10) ∷ (48 + h % 10) ∷ [])

-- The card "Allocated Storage": pages of 16 KiB, in MiB.
unfoldable pub size_mb : ℕ → ℕ
unfolding to_fixed_2
size_mb page_count = to_fixed_2 (page_count * 16) 1024

-- The megabytes shown are within half a hundredth of the pages' sixty-fourth part, and never fall
-- while pages are added.
pub size_mb-rounds :
    (p q : ℕ)
    → (64 * size_mb p ≤ 100 * p + 32)
      × (100 * p < 64 * size_mb p + 32 + 1)
      × (p ≤ q → size_mb p ≤ size_mb q)
unfolding size_mb
size_mb-rounds p q = (omega arith, omega arith, λ h. omega arith)
