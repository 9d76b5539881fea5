-- ===== src/Dashboard/Stream.antt =====
-- dashboard/frontend/src/App.tsx: the stream of telemetry. Its event source, the timer that
-- reconnects, the connection's light and the five histories.
pub mod Histories
pub mod Sources
use cocodb.Base.{
  ℕ, suc, ◌-◌, Bool, true, false, Option, none, some, List, [], ◌∷◌, ◌++◌, ◌==◌, if◌then◌else◌,
  length, drop, ◌||◌,
}
use cocodb.Dashboard.Telemetry.{
  Float, RealtimeTelemetry, size_point, hit_point, qps_point, ready_point, pubsub_point,
}

-- `xs.slice(-n)` for a positive n.
unfoldable pub last {ℓ} : {A : Type ℓ} → ℕ → List A → List A
last n xs = drop (length xs - n) xs

-- `[...prev.slice(-29), x]`.
unfoldable pub record_point {ℓ} : {A : Type ℓ} → List A → A → List A
unfolding last
record_point prev x = last 29 prev ++ x ∷ []

-- What `JSON.parse(event.data)` gives. On null the telemetry is set before the first property is
-- read, which throws; on bad text nothing is set.
pub data Message (Real : Type 0) : Type 0 where
  telemetry : RealtimeTelemetry Real → Message Real
  null malformed : Message Real

-- `source` is the variable `eventSource`, `open_sources` are the ones that nobody has closed.
pub record Stream (Real : Type 0) : Type 0 where
  pub mounted : Bool
  pub connected : Bool
  pub latest : Option (RealtimeTelemetry Real)
  pub qps_history : List Real
  pub cache_hit_history : List Real
  pub allocated_mb_history : List Real
  pub queue_ready_history : List Real
  pub pubsub_history : List Real
  pub source : Option ℕ
  pub open_sources : List ℕ
  pub timers : ℕ
  pub next_source : ℕ

pub remove : ℕ → List ℕ → List ℕ
remove k [] = []
remove k (x ∷ xs) = if x == k then xs else x ∷ remove k xs

pub is_open : ℕ → List ℕ → Bool
is_open k [] = false
is_open k (x ∷ xs) = x == k || is_open k xs

-- `eventSource?.close()`.
close : Option ℕ → List ℕ → List ℕ
unfolding remove
close none sources = sources
close (some k) sources = remove k sources

module _ {Real : Type 0} where
  -- `connectSSE`.
  unfoldable pub connect_sse : Stream Real → Stream Real
  connect_sse s = record s {
    source = some s.next_source;
    open_sources = s.next_source ∷ s.open_sources;
    next_source = suc s.next_source;
  }

  unfoldable pub on_error : Stream Real → Stream Real
  unfolding close
  on_error s = record s {
    connected = false;
    open_sources = close s.source s.open_sources;
    timers = suc s.timers;
  }

  -- The clean-up of the effect. The timer of a reconnection is not cleared.
  unfoldable pub unmount : Stream Real → Stream Real
  unfolding close
  unmount s = record s { mounted = false; open_sources = close s.source s.open_sources }

  abbrev pub before_mount : Stream Real
  before_mount = record {
    mounted = true;
    connected = false;
    latest = none;
    qps_history = [];
    cache_hit_history = [];
    allocated_mb_history = [];
    queue_ready_history = [];
    pubsub_history = [];
    source = none;
    open_sources = [];
    timers = 0;
    next_source = 0;
  }

  unfoldable pub mount : Stream Real
  unfolding connect_sse
  mount = connect_sse before_mount

pub data Event (Real : Type 0) : Type 0 where
  opened errored : (source : ℕ) → Event Real
  message : (source : ℕ) → Message Real → Event Real
  timer_fires unmounts : Event Real

module _ (f : Float) where
  open f use {Real}

  unfoldable pub on_message : Message Real → Stream Real → Stream Real
  unfolding record_point
  on_message (telemetry t) s = record s {
    latest = some t;
    qps_history = record_point s.qps_history (qps_point f t);
    cache_hit_history = record_point s.cache_hit_history (hit_point f t);
    allocated_mb_history = record_point s.allocated_mb_history (size_point f t);
    queue_ready_history = record_point s.queue_ready_history (ready_point f t);
    pubsub_history = record_point s.pubsub_history (pubsub_point f t);
  }
  on_message null s = record s { latest = none }
  on_message malformed s = s

  -- A closed source sends no events.
  unfoldable pub step : Stream Real → Event Real → Stream Real
  unfolding is_open on_error on_message connect_sse unmount
  step s (opened k) = if is_open k s.open_sources then record s { connected = true } else s
  step s (errored k) = if is_open k s.open_sources then on_error s else s
  step s (message k m) = if is_open k s.open_sources then on_message m s else s
  step s timer_fires = if s.timers == 0 then s else connect_sse (record s { timers = s.timers - 1 })
  step s unmounts = if s.mounted then unmount s else s

  abbrev pub run : Stream Real → List (Event Real) → Stream Real
  run s [] = s
  run s (e ∷ es) = run (step s e) es
