-- ===== src/Dashboard/Panels/Agreement.antt =====
-- The figures that the dashboard shows are the last points of the sparklines beside them.
use cocodb.Base.{
  ℕ, true, ◌-◌, ◌≡◌, refl, ◌∙◌, ap, some, List, [], ◌∷◌, ◌++◌, map, length, length-append, drop,
  arith, if_holds, ◌==◌,
}
use cocodb.Base.Text.{Text}
use cocodb.Dashboard.Telemetry.{
  Float, RealtimeTelemetry, qps_point, hit_point, ready_point, pubsub_point,
}
use cocodb.Dashboard.Stream.{
  last, record_point, Message, telemetry, null, malformed, Stream, Event, opened, errored, message,
  timer_fires, unmounts, is_open, connect_sse, on_error, unmount, on_message, mount, step, run,
}
use cocodb.Dashboard.Panels.{metric_cards, overview_panel}

module _ {ℓ} {A : Type ℓ} where
  drop-length : (xs ys : List A) → drop (length xs) (xs ++ ys) ≡ ys
  drop-length [] ys = refl
  drop-length (x ∷ xs) ys = drop-length xs ys

  last-record_point : (xs : List A) (x : A) → last 1 (record_point xs x) ≡ x ∷ []
  unfolding last record_point
  last-record_point xs x =
      let kept = last 29 xs in
      ap (λ (n : ℕ). drop n (kept ++ x ∷ [])) (omega (arith, length-append kept (x ∷ [])))
      ∙ drop-length kept (x ∷ [])

module _ (f : Float) (fixed : Float.Real f → Text) where
  open f use {Real}

  -- The last points of the histories are those of the latest telemetry.
  abbrev Ends : RealtimeTelemetry Real → Stream Real → Type 0
  Ends t s =
      (last 1 s.qps_history ≡ qps_point f t ∷ [])
      × (last 1 s.cache_hit_history ≡ hit_point f t ∷ [])
      × (last 1 s.queue_ready_history ≡ ready_point f t ∷ [])
      × (last 1 s.pubsub_history ≡ pubsub_point f t ∷ [])

  abbrev Fresh : Stream Real → Type 0
  Fresh s = (t : RealtimeTelemetry Real) → s.latest ≡ some t → Ends t s

  on_message-Fresh : (m : Message Real) (s : Stream Real) → Fresh s → Fresh (on_message f m s)
  unfolding on_message
  on_message-Fresh malformed s h = h
  on_message-Fresh null s h = λ t e. absurd (ground arith)
  on_message-Fresh (telemetry u) s h = λ t e.
      let same : u ≡ t = ground arith in
      rw (← same) (
        last-record_point s.qps_history (qps_point f u),
        last-record_point s.cache_hit_history (hit_point f u),
        last-record_point s.queue_ready_history (ready_point f u),
        last-record_point s.pubsub_history (pubsub_point f u),
      )

  step-Fresh : (s : Stream Real) (e : Event Real) → Fresh s → Fresh (step f s e)
  unfolding step on_error unmount connect_sse
  step-Fresh s (opened k) h =
      if_holds Fresh (is_open k s.open_sources) (record s { connected = true }) s (λ y. h) (λ n. h)
  step-Fresh s (errored k) h =
      if_holds Fresh (is_open k s.open_sources) (on_error s) s (λ y. h) (λ n. h)
  step-Fresh s (message k m) h =
      if_holds Fresh (is_open k s.open_sources) (on_message f m s) s (λ y. on_message-Fresh m s h)
        (λ n. h)
  step-Fresh s timer_fires h =
      if_holds Fresh (s.timers == 0) s (connect_sse (record s { timers = s.timers - 1 })) (λ y. h)
        (λ n. h)
  step-Fresh s unmounts h = if_holds Fresh s.mounted (unmount s) s (λ y. h) (λ n. h)

  run-Fresh : (es : List (Event Real)) (s : Stream Real) → Fresh s → Fresh (run f s es)
  run-Fresh [] s h = h
  run-Fresh (e ∷ es) s h = run-Fresh es (step f s e) (step-Fresh s e h)

  -- In any session of the stream, while there is telemetry, each of the throughput, the hit rate, the
  -- ready tasks and the published events is shown as the last sample of the sparkline beside it.
  pub figures_end_lines :
      (es : List (Event Real)) (t : RealtimeTelemetry Real)
      → let s = run f mount es in
        let cards = metric_cards f fixed s in
        let panel = overview_panel f fixed s in
        s.latest ≡ some t
        → (last 1 cards.qps_line ≡ cards.qps ∷ [])
          × (map fixed (last 1 cards.hit_line) ≡ cards.hit_rate ∷ [])
          × (last 1 panel.ready_line ≡ panel.ready_tasks ∷ [])
          × (last 1 panel.pubsub_line ≡ panel.pubsub_events ∷ [])
  unfolding metric_cards overview_panel mount qps_point ready_point pubsub_point
  figures_end_lines es t h =
      let (q, c, r, p) = run-Fresh es mount (λ u e. absurd (ground arith)) t h in
      rw h (q, ap (map fixed) c, r, p)
