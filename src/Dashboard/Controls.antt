-- ===== src/Dashboard/Controls.antt =====
-- dashboard/frontend/src/App.tsx: the theme, the tabs, the benchmark probe and the copied address.
pub mod Session
use cocodb.Base.{
  ℕ, suc, ◌-◌, Bool, true, false, Option, none, some, List, [], ◌∷◌, ◌++◌, if◌then◌else◌, ◌==◌,
}
use cocodb.Base.Text.{Text, codes}
use cocodb.Base.Result.{Result, ok, err}
use cocodb.Base.CopyLight.{CopyLight, no_copy, copy, copy_timer_fires}
use cocodb.Dashboard.Health.Tabs.{Tab, overview}

pub data Theme : Type 0 where
  dark light : Theme

unfoldable pub is_dark : Theme → Bool
is_dark dark = true
is_dark light = false

unfoldable pub is_light : Theme → Bool
is_light dark = false
is_light light = true

-- What `res.json()` of the probe gives: null, an object with `ops`, or a value that has none, such as
-- an object with an error. Numbers are texts, as they are shown.
pub data Answer : Type 0 where
  null : Answer
  measured : (ops p50 p99 : Text) → Answer
  other : Answer

-- `root_dark` and `root_light` are the document's classes; `probes` counts the requests that are
-- pending.
pub record Controls : Type 0 where
  pub theme : Theme
  pub root_dark : Bool
  pub root_light : Bool
  pub active_tab : Tab
  pub benchmarking : Bool
  pub benchmark_result : Answer
  pub probes : ℕ
  pub light : CopyLight

-- The effect on the theme.
unfoldable pub apply_theme : Controls → Controls
unfolding is_dark is_light
apply_theme c = record c { root_dark = is_dark c.theme; root_light = is_light c.theme }

unfoldable pub toggle : Theme → Theme
toggle dark = light
toggle light = dark

unfoldable pub run_benchmark_probe : Controls → Controls
run_benchmark_probe c = record c { benchmarking = true; probes = suc c.probes }

-- A request that fails, or an answer that is no JSON, is logged only.
unfoldable pub probe_done : Result Answer → Controls → Controls
probe_done (ok a) c = record c { benchmark_result = a; benchmarking = false; probes = c.probes - 1 }
probe_done (err e) c = record c { benchmarking = false; probes = c.probes - 1 }

unfoldable pub handle_copy_metrics : Bool → Text → Controls → Controls
handle_copy_metrics secure origin c = record c {
  light = copy secure (origin ++ codes "/metrics") c.light;
}

-- The banner of a result. `benchmarkResult.ops.toLocaleString()` throws where there is no `ops`.
pub data Banner : Type 0 where
  no_banner : Banner
  banner : (text : Text) → Banner

banner_of : Answer → Result Banner
banner_of null = ok no_banner
banner_of (measured ops p50 p99) = ok (
    banner (
      ops
      ++ (codes " ops in 1 sec · P50 Latency: "
          ++ (p50 ++ (codes " µs · P99 Latency: " ++ (p99 ++ codes " µs"))))))
banner_of other = err (codes "Cannot read properties of undefined (reading 'toLocaleString')")

unfoldable pub benchmark_banner : Controls → Result Banner
unfolding banner_of
benchmark_banner c = banner_of c.benchmark_result

unfoldable pub probe_label : Controls → Text
probe_label c = if c.benchmarking then codes "Probing..." else codes "Synthetic Probe"

unfoldable pub copy_label : Controls → Text
copy_label c = if c.light.copied then codes "Copied URL" else codes "Copy /metrics URL"

pub data Event : Type 0 where
  toggles_theme probes dismisses copies copy_timer : Event
  select_tab : Tab → Event
  probe_answers : Result Answer → Event

unfoldable pub mount : Controls
unfolding apply_theme
mount = apply_theme (record {
  theme = dark;
  root_dark = false;
  root_light = false;
  active_tab = overview;
  benchmarking = false;
  benchmark_result = null;
  probes = 0;
  light = no_copy;
})

-- `origin` is `window.location.origin`, and `secure` is `window.isSecureContext`.
module _ (secure : Bool) (origin : Text) where
  -- The probe's button is disabled while a probe runs.
  unfoldable pub step : Controls → Event → Controls
  unfolding apply_theme toggle run_benchmark_probe probe_done handle_copy_metrics copy
      copy_timer_fires
  step c toggles_theme = apply_theme (record c { theme = toggle c.theme })
  step c (select_tab t) = record c { active_tab = t }
  step c probes = if c.benchmarking then c else run_benchmark_probe c
  step c (probe_answers r) = if c.probes == 0 then c else probe_done r c
  step c dismisses = record c { benchmark_result = null }
  step c copies = handle_copy_metrics secure origin c
  step c copy_timer = record c { light = copy_timer_fires c.light }

  abbrev pub run : Controls → List Event → Controls
  run c [] = c
  run c (e ∷ es) = run (step c e) es
