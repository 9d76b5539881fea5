-- ===== src/Dashboard/Stream/Sources.antt =====
-- dashboard/frontend/src/App.tsx: how many event sources and timers the stream of telemetry holds.
use cocodb.Base.{
  ℕ, suc, ◌≡◌, refl, ap, length, ◌-◌, if_holds, true, false, Option, none, some, List, [], ◌∷◌,
  arith, ◌==◌, if◌then◌else◌,
}
use cocodb.Dashboard.Telemetry.{Float}
use cocodb.Dashboard.Stream.{
  Message, telemetry, null, malformed, Stream, Event, opened, errored, message, timer_fires,
  unmounts, is_open, remove, close, connect_sse, on_error, unmount, on_message, mount, step, run,
}

eq_refl : (k : ℕ) → (k == k) ≡ true
eq_refl k = ground arith

is_open_nil : (j : ℕ) (ks : List ℕ) → ks ≡ [] → is_open j ks ≡ false
unfolding is_open
is_open_nil j ks e = rw e refl

close_self : (o : Option ℕ) (ks : List ℕ) (k : ℕ) → o ≡ some k → ks ≡ k ∷ [] → close o ks ≡ []
unfolding close remove
close_self o ks k e h = simp (e, h, eq_refl k)

close_nil : (o : Option ℕ) (ks : List ℕ) → ks ≡ [] → close o ks ≡ []
unfolding close remove
close_nil none ks e = e
close_nil (some k) ks e = rw e refl

module _ {Real : Type 0} where
  -- One source is open and no timer waits, or the source has failed, the light is off and one timer
  -- waits, or the component is unmounted and holds neither.
  pub data Phase (s : Stream Real) : Type 0 where
    listening : (k : ℕ) → s.open_sources ≡ k ∷ [] → s.source ≡ some k → s.timers ≡ 0 → Phase s
    waiting : s.open_sources ≡ [] → s.connected ≡ false → s.timers ≡ 1 → Phase s
    silent : s.mounted ≡ false → s.open_sources ≡ [] → s.timers ≡ 0 → Phase s

  connect-Phase : (s : Stream Real) → s.open_sources ≡ [] → s.timers ≡ 0 → Phase (connect_sse s)
  unfolding connect_sse
  connect-Phase s o t = listening s.next_source (ap (s.next_source ∷◌) o) refl t

  error-Phase :
      (s : Stream Real) (k : ℕ)
      → s.open_sources ≡ k ∷ []
      → s.source ≡ some k
      → s.timers ≡ 0
      → Phase (on_error s)
  unfolding on_error
  error-Phase s k o e t = waiting (close_self s.source s.open_sources k e o) refl (ap suc t)

  unmount-Phase : (s : Stream Real) → Phase s → Phase (unmount s)
  unfolding unmount
  unmount-Phase s (listening k o e t) = silent refl (close_self s.source s.open_sources k e o) t
  unmount-Phase s (waiting o c t) = waiting (close_nil s.source s.open_sources o) c t
  unmount-Phase s (silent m o t) = silent refl (close_nil s.source s.open_sources o) t

  -- What an event of a source does, when it keeps the phase of a state that listens.
  guarded-Phase :
      (j : ℕ) (s u : Stream Real)
      → ((k : ℕ) → s.open_sources ≡ k ∷ [] → s.source ≡ some k → s.timers ≡ 0 → Phase u)
      → Phase s
      → Phase (if is_open j s.open_sources then u else s)
  guarded-Phase j s u keep (listening k o e t) =
      if_holds Phase (is_open j s.open_sources) u s (λ y. keep k o e t) (λ n. listening k o e t)
  guarded-Phase j s u keep (waiting o c t) = rw (is_open_nil j s.open_sources o) (waiting o c t)
  guarded-Phase j s u keep (silent m o t) = rw (is_open_nil j s.open_sources o) (silent m o t)

  abbrev reconnected : Stream Real → Stream Real
  reconnected s = connect_sse (record s { timers = s.timers - 1 })

  timer-Phase : (s : Stream Real) → Phase s → Phase (if s.timers == 0 then s else reconnected s)
  timer-Phase s p = if_holds Phase (s.timers == 0) s (reconnected s) (λ z. p) (λ n. fired s n p)
    where
      fired : (s : Stream Real) → (s.timers == 0) ≡ false → Phase s → Phase (reconnected s)
      fired s n (listening k o e t) = absurd (cc)
      fired s n (waiting o c t) =
          connect-Phase (record s { timers = s.timers - 1 }) o (ap (λ (m : ℕ). m - 1) t)
      fired s n (silent m o t) = absurd (cc)

  -- An unmounted component that waits to reconnect.
  Abandoned : Stream Real → Type 0
  Abandoned s = (s.mounted ≡ false) × (s.open_sources ≡ []) × (s.timers ≡ 1)

  unmount-Abandoned :
      (s : Stream Real) → Phase s → s.timers ≡ 1 → Abandoned (if s.mounted then unmount s else s)
  unfolding Abandoned unmount
  unmount-Abandoned s (listening k o e z) t = absurd (cc)
  unmount-Abandoned s (silent m o z) t = absurd (cc)
  unmount-Abandoned s (waiting o c z) t =
      if_holds Abandoned s.mounted (unmount s) s
        (λ y. (refl, close_nil s.source s.open_sources o, t)) (λ n. (n, o, t))

  -- What the timer leaves behind.
  Leaks : Stream Real → Type 0
  Leaks s = (s.mounted ≡ false) × (length s.open_sources ≡ 1)

  timer-Leaks : (s : Stream Real) → Abandoned s → Leaks (if s.timers == 0 then s else reconnected s)
  unfolding Abandoned Leaks connect_sse
  timer-Leaks s (m, o, t) =
      if_holds Leaks (s.timers == 0) s (reconnected s) (λ z. absurd (cc))
        (λ n. (m, ap (λ (ks : List ℕ). suc (length ks)) o))

module _ (f : Float) where
  open f use {Real}

  message-Phase :
      (m : Message Real) (s : Stream Real) (k : ℕ)
      → s.open_sources ≡ k ∷ []
      → s.source ≡ some k
      → s.timers ≡ 0
      → Phase (on_message f m s)
  unfolding on_message
  message-Phase (telemetry t) s k o e h = listening k o e h
  message-Phase null s k o e h = listening k o e h
  message-Phase malformed s k o e h = listening k o e h

  step-Phase : (s : Stream Real) (e : Event Real) → Phase s → Phase (step f s e)
  unfolding step
  step-Phase s (opened j) p =
      guarded-Phase j s (record s { connected = true }) (λ k o e t. listening k o e t) p
  step-Phase s (errored j) p = guarded-Phase j s (on_error s) (error-Phase s) p
  step-Phase s (message j m) p = guarded-Phase j s (on_message f m s) (message-Phase m s) p
  step-Phase s timer_fires p = timer-Phase s p
  step-Phase s unmounts p = if_holds Phase s.mounted (unmount s) s (λ y. unmount-Phase s p) (λ n. p)

  run-Phase : (es : List (Event Real)) (s : Stream Real) → Phase s → Phase (run f s es)
  run-Phase [] s p = p
  run-Phase (e ∷ es) s p = run-Phase es (step f s e) (step-Phase s e p)

  -- From the mount on, in any order of events, one source is open and no timer waits, or the source
  -- has failed, the light is off and one timer waits, or the component is unmounted and holds
  -- neither: it never holds two connections.
  pub mount-Phase : (es : List (Event Real)) → Phase (run f mount es)
  unfolding mount connect_sse
  mount-Phase es = run-Phase es mount (listening 0 refl refl refl)

  -- A component that is unmounted after any events while it waits to reconnect has, once the timer
  -- fires, one open source although it is not mounted.
  pub unmount_leaks :
      (es : List (Event Real))
      → (run f mount es).timers ≡ 1
      → let u = step f (step f (run f mount es) unmounts) timer_fires in
        (u.mounted ≡ false) × (length u.open_sources ≡ 1)
  unfolding Leaks step
  unmount_leaks es h =
      let s = run f mount es in
      timer-Leaks (step f s unmounts) (unmount-Abandoned s (mount-Phase es) h)
