-- ===== src/Dashboard/Controls/Session.antt =====
-- The dashboard's controls in any session whose probes the server answers.
use cocodb.Base.{
  ℕ, ◌-◌, ◌≡◌, ◌≢◌, refl, Bool, true, false, some, List, [], ◌∷◌, ◌++◌, All, if_holds, ◌==◌, arith,
}
use cocodb.Base.Text.{Text, codes}
use cocodb.Base.Result.{Result, ok, err}
use cocodb.Base.Flight.{Flight, Flight-suc, Flight-pred}
use cocodb.Base.CopyLight.{CopyLight, copy, copy_timer_fires}
use cocodb.Base.Decimal.{decimal}
use cocodb.Dashboard.Probe.{ProbeResult, probe}
use cocodb.Dashboard.Controls.{
  is_dark, is_light, Answer, null, measured, other, Controls, run_benchmark_probe, probe_done,
  Banner, banner_of, benchmark_banner, Event, toggles_theme, probes, dismisses, copies, copy_timer,
  select_tab, probe_answers, mount, step, run,
}

-- What the page reads of the probe's JSON; `locale` is `toLocaleString()` of a number.
abbrev pub answer_of : (ℕ → Text) → ProbeResult → Answer
answer_of locale r = measured (locale r.ops) (decimal r.p50) (decimal r.p99)

-- A probe that is answered is answered by the handler.
abbrev pub Served : (ℕ → Text) → Event → Type 0
Served locale (probe_answers (ok a)) =
    (samples : List ℕ) × (r : ProbeResult) × (probe samples ≡ some r) × (a ≡ answer_of locale r)
Served locale (probe_answers (err e)) = Unit
Served locale toggles_theme = Unit
Served locale probes = Unit
Served locale dismisses = Unit
Served locale copies = Unit
Served locale copy_timer = Unit
Served locale (select_tab t) = Unit

module _ (secure : Bool) (origin : Text) (locale : ℕ → Text) where
  -- A light that is on has a timer that will put it out.
  abbrev Lit : CopyLight → Type 0
  Lit l =
      l.copied ≡ true
      → (secure ≡ true) × (l.timers ≢ 0) × (l.asked ≡ some (origin ++ codes "/metrics"))

  abbrev Holds : Controls → Type 0
  Holds c =
      Flight c.benchmarking c.probes
      × (c.root_dark ≡ is_dark c.theme)
      × (c.root_light ≡ is_light c.theme)
      × Lit c.light
      × (c.benchmark_result ≢ other)

  copy_timer_fires-Lit : (l : CopyLight) → Lit l → Lit (copy_timer_fires l)
  unfolding copy_timer_fires
  copy_timer_fires-Lit l h =
      if_holds Lit (l.timers == 0) l (record l { copied = false; timers = l.timers - 1 }) (λ y. h)
        (λ n e. cc)

  copy-Lit : (l : CopyLight) → Lit l → Lit (copy secure (origin ++ codes "/metrics") l)
  unfolding copy
  copy-Lit l h = if_holds Lit secure _ l (λ y k. (y, (λ e. omega arith), refl)) (λ n. h)

  probe_done-Holds :
      (r : Result Answer) (c : Controls)
      → Served locale (probe_answers r)
      → Holds c
      → Holds (probe_done r c)
  unfolding probe_done
  probe_done-Holds (err e) c s (f, k, l, m, o) = (Flight-pred c.benchmarking c.probes f, k, l, m, o)
  probe_done-Holds (ok a) c (samples, r, e, same) (f, k, l, m, o) =
      (Flight-pred c.benchmarking c.probes f, k, l, m, λ h. cc)

  step-Holds :
      (c : Controls) (e : Event) → Served locale e → Holds c → Holds (step secure origin c e)
  unfolding step run_benchmark_probe is_dark is_light
  step-Holds c toggles_theme s (f, k, l, m, o) = (f, refl, refl, m, o)
  step-Holds c (select_tab t) s h = h
  step-Holds c probes s (f, k, l, m, o) =
      if_holds Holds c.benchmarking c (run_benchmark_probe c) (λ y. (f, k, l, m, o))
        (λ n. (Flight-suc c.benchmarking c.probes n f, k, l, m, o))
  step-Holds c (probe_answers r) s h =
      if_holds Holds (c.probes == 0) c (probe_done r c) (λ y. h) (λ n. probe_done-Holds r c s h)
  step-Holds c dismisses s (f, k, l, m, o) = (f, k, l, m, λ h. cc)
  step-Holds c copies s (f, k, l, m, o) = (f, k, l, copy-Lit c.light m, o)
  step-Holds c copy_timer s (f, k, l, m, o) = (f, k, l, copy_timer_fires-Lit c.light m, o)

  run-Holds :
      (es : List Event) (c : Controls)
      → All (Served locale) es
      → Holds c
      → Holds (run secure origin c es)
  run-Holds [] c s h = h
  run-Holds (e ∷ es) c (s, ss) h = run-Holds es (step secure origin c e) ss (step-Holds c e s h)

banner_of-ok : (a : Answer) → a ≢ other → (b : Banner) × (banner_of a ≡ ok b)
unfolding banner_of
banner_of-ok null h = (_, refl)
banner_of-ok (measured ops p50 p99) h = (_, refl)
banner_of-ok other h = absurd (h refl)

-- In any session in which the probes that succeed are answered by the server's handler: the probe's
-- button is disabled exactly while a probe is pending and never are two; the document's classes are
-- the theme's; while the copied light is on, the page is in a secure context, the browser was last
-- asked to write the address to the clipboard, and a timer is to put the light out; and the banner
-- never throws.
pub controls_session :
    (secure : Bool) (origin : Text) (locale : ℕ → Text) (es : List Event)
    → All (Served locale) es
    → let c = run secure origin mount es in
      Flight c.benchmarking c.probes
      × (c.root_dark ≡ is_dark c.theme)
      × (c.root_light ≡ is_light c.theme)
      × (c.light.copied ≡ true
          → (secure ≡ true)
            × (c.light.timers ≢ 0)
            × (c.light.asked ≡ some (origin ++ codes "/metrics")))
      × (b : Banner) × (benchmark_banner c ≡ ok b)
unfolding mount benchmark_banner
controls_session secure origin locale es s =
    let (f, k, l, m, o) =
      run-Holds secure origin locale es mount s (refl, refl, refl, (λ h. cc), (λ h. cc)) in
    let (b, e) = banner_of-ok (run secure origin mount es).benchmark_result o in (f, k, l, m, b, e)

-- Of two copies in a row, in a secure context, the first timer puts the light out, while the second is
-- yet to fire.
first_timer_ends :
    (origin : Text) (c : Controls)
    → let after = run true origin c (copies ∷ copies ∷ copy_timer ∷ []) in
      (after.light.copied ≡ false) × (after.light.timers ≢ 0)
unfolding step copy_timer_fires
first_timer_ends origin c = (ground arith, λ e. ground arith)
