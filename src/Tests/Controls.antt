-- ===== src/Tests/Controls.antt =====
-- The dashboard's controls, the server's probe and the figures beside the sparklines.
use cocodb.Base.{ℕ, ◌*◌, ◌/◌, ◌≡◌, ◌≢◌, refl, true, some, List, [], ◌∷◌, ◌++◌, All, length, arith}
use cocodb.Base.Text.{Text, codes}
use cocodb.Base.Decimal.{decimal}
use cocodb.Base.Result.{ok}
use cocodb.Base.Flight.{Flight}
use cocodb.Dashboard.Probe.{ProbeResult, probe, sort}
use cocodb.Dashboard.Probe.Percentiles.{Ranks, probe-Ranks}
use cocodb.Dashboard.Controls.{
  is_dark, is_light, Banner, banner, benchmark_banner, Event, toggles_theme, probes, copies,
  probe_answers, mount, run, step,
}
use cocodb.Dashboard.Controls.Session.{answer_of, Served, controls_session}

abbrev latencies : List ℕ
latencies = 30 ∷ 10 ∷ 20 ∷ 50 ∷ 40 ∷ []

abbrev measured_latencies : ProbeResult
measured_latencies = record { ops = 2000; p50 = 30; p99 = 50 }

probe_of_latencies : probe latencies ≡ some measured_latencies
unfolding probe sort
probe_of_latencies = refl

probe-Ranks_example :
    (r : ProbeResult) × (probe latencies ≡ some r)
    × (r.ops ≡ 2000)
    × Ranks latencies (length latencies * 50 / 100) r.p50
    × Ranks latencies (length latencies * 99 / 100) r.p99
probe-Ranks_example = probe-Ranks latencies (omega arith)

abbrev origin : Text
origin = codes "http://localhost:9090"

abbrev clicks : List Event
clicks =
    toggles_theme
    ∷ probes
    ∷ probes
    ∷ copies
    ∷ probe_answers (ok (answer_of decimal measured_latencies))
    ∷ []

banner_of_clicks :
    benchmark_banner (run true origin mount clicks)
    ≡ ok (banner (codes "2000 ops in 1 sec · P50 Latency: 30 µs · P99 Latency: 50 µs"))
unfolding mount step benchmark_banner decimal
banner_of_clicks = refl

clicks-Served : All (Served decimal) clicks
clicks-Served =
    (tt, (tt, (tt, (tt, ((latencies, measured_latencies, probe_of_latencies, refl), tt)))))

controls_session_example :
    let c = run true origin mount clicks in
    Flight c.benchmarking c.probes
    × (c.root_dark ≡ is_dark c.theme)
    × (c.root_light ≡ is_light c.theme)
    × (c.light.copied ≡ true
        → (true ≡ true)
          × (c.light.timers ≢ 0)
          × (c.light.asked ≡ some (origin ++ codes "/metrics")))
    × (b : Banner) × (benchmark_banner c ≡ ok b)
controls_session_example = controls_session true origin decimal clicks clicks-Served
