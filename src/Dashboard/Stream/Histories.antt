-- ===== src/Dashboard/Stream/Histories.antt =====
-- The five histories of the dashboard are the last thirty points of the telemetry received.
use cocodb.Base.{
  ℕ, zero, suc, ◌+◌, ◌-◌, ◌≤◌, ◌≡◌, refl, sym, ◌∙◌, ap, Bool, true, false, List, [], ◌∷◌, ◌++◌, map,
  map-append, append_assoc, append-nil, arith, ◌==◌, if◌then◌else◌, length, length-append,
  length-drop, drop, Bool-cases, inl, inr,
}
use cocodb.Dashboard.Telemetry.{
  Float, RealtimeTelemetry, size_point, hit_point, qps_point, ready_point, pubsub_point,
}
use cocodb.Dashboard.Stream.{
  last, record_point, telemetry, null, malformed, Stream, Event, opened, errored, message,
  timer_fires, unmounts, is_open, on_error, unmount, on_message, mount, step, run,
}

suc_add : (b a : ℕ) → suc (b + a) ≡ suc b + a
suc_add b a = omega arith

module _ {ℓ} {A : Type ℓ} where
  drop-append : (k : ℕ) (xs ys : List A) → k ≤ length xs → drop k (xs ++ ys) ≡ drop k xs ++ ys
  drop-append zero xs ys h = refl
  drop-append (suc k) [] ys h = absurd (omega arith)
  drop-append (suc k) (x ∷ xs) ys h = drop-append k xs ys (omega arith)

  drop-nil : (k : ℕ) → drop {A = A} k [] ≡ []
  drop-nil zero = refl
  drop-nil (suc k) = refl

  drop-drop : (a b : ℕ) (xs : List A) → drop a (drop b xs) ≡ drop (b + a) xs
  drop-drop a zero xs = ap (λ (n : ℕ). drop n xs) (omega arith)
  drop-drop a (suc b) [] = drop-nil a ∙ sym (drop-nil (suc b + a))
  drop-drop a (suc b) (x ∷ xs) = drop-drop a b xs ∙ ap (λ (n : ℕ). drop n (x ∷ xs)) (suc_add b a)

  -- One more point, then the last thirty.
  pub record_point-last : (xs : List A) (x : A) → record_point xs x ≡ last 30 (xs ++ x ∷ [])
  unfolding record_point
  record_point-last xs x =
      sym (drop-append (length xs - 29) xs (x ∷ []) (omega arith))
      ∙ ap (λ (n : ℕ). drop n (xs ++ x ∷ [])) (omega (arith, length-append xs (x ∷ [])))

  pub last-append : (n : ℕ) (xs ys : List A) → last n (last n xs ++ ys) ≡ last n (xs ++ ys)
  unfolding last
  last-append n xs ys =
      let k = length xs - n in
      ap (drop (length (drop k xs ++ ys) - n)) (sym (drop-append k xs ys (omega arith)))
      ∙ (drop-drop (length (drop k xs ++ ys) - n) k (xs ++ ys)
          ∙ ap (λ (m : ℕ). drop m (xs ++ ys))
              (omega (arith, length-append xs ys, length-append (drop k xs) ys, length-drop k xs)))

  pub length-last : (n : ℕ) (xs : List A) → length (last n xs) ≤ n
  unfolding last
  length-last n xs = omega (arith, length-drop (length xs - n) xs)

module _ (f : Float) where
  open f use {Real}

  -- The telemetry that reaches the component: messages of open sources that parse.
  received_now : Stream Real → Event Real → List (RealtimeTelemetry Real)
  received_now s (message k (telemetry t)) = if is_open k s.open_sources then t ∷ [] else []
  received_now s (message k null) = []
  received_now s (message k malformed) = []
  received_now s (opened k) = []
  received_now s (errored k) = []
  received_now s timer_fires = []
  received_now s unmounts = []

  unfoldable pub received : Stream Real → List (Event Real) → List (RealtimeTelemetry Real)
  unfolding received_now
  received s [] = []
  received s (e ∷ es) = received_now s e ++ received (step f s e) es

  -- A history that keeps to its last thirty points.
  abbrev pub Grows :
      (RealtimeTelemetry Real → Real)
      → List (RealtimeTelemetry Real)
      → List Real
      → List Real
      → Type 0
  Grows point ts before after = after ≡ last 30 (before ++ map point ts)

  pub record Recorded (ts : List (RealtimeTelemetry Real)) (s u : Stream Real) : Type 0 where
    pub qps : Grows (qps_point f) ts s.qps_history u.qps_history
    pub cache_hits : Grows (hit_point f) ts s.cache_hit_history u.cache_hit_history
    pub allocated : Grows (size_point f) ts s.allocated_mb_history u.allocated_mb_history
    pub ready : Grows (ready_point f) ts s.queue_ready_history u.queue_ready_history
    pub pubsub : Grows (pubsub_point f) ts s.pubsub_history u.pubsub_history

  module _ (point : RealtimeTelemetry Real → Real) where
    Grows-none : (h : List Real) → last 30 h ≡ h → Grows point [] h h
    Grows-none h short = sym (ap (last 30) (append-nil h) ∙ short)

    Grows-trans :
        (ts us : List (RealtimeTelemetry Real)) (h k l : List Real)
        → Grows point ts h k
        → Grows point us k l
        → Grows point (ts ++ us) h l
    Grows-trans ts us h k l p q =
        rw (q, p, last-append 30 (h ++ map point ts) (map point us), map-append)
          (ap (last 30) (append_assoc h (map point ts) (map point us)))

    Grows-last :
        (ts : List (RealtimeTelemetry Real)) (h k : List Real) → Grows point ts h k → last 30 k ≡ k
    Grows-last ts h k p = rw p (simp append-nil at (last-append 30 (h ++ map point ts) []))

  -- Every history is as short as the component keeps it.
  pub record IsShort (s : Stream Real) : Type 0 where
    pub qps : last 30 s.qps_history ≡ s.qps_history
    pub cache_hits : last 30 s.cache_hit_history ≡ s.cache_hit_history
    pub allocated : last 30 s.allocated_mb_history ≡ s.allocated_mb_history
    pub ready : last 30 s.queue_ready_history ≡ s.queue_ready_history
    pub pubsub : last 30 s.pubsub_history ≡ s.pubsub_history

  same-Recorded :
      (s u : Stream Real)
      → IsShort s
      → u.qps_history ≡ s.qps_history
      → u.cache_hit_history ≡ s.cache_hit_history
      → u.allocated_mb_history ≡ s.allocated_mb_history
      → u.queue_ready_history ≡ s.queue_ready_history
      → u.pubsub_history ≡ s.pubsub_history
      → Recorded [] s u
  same-Recorded s u h a b c d e = record {
    qps = rw a (Grows-none (qps_point f) s.qps_history h.qps);
    cache_hits = rw b (Grows-none (hit_point f) s.cache_hit_history h.cache_hits);
    allocated = rw c (Grows-none (size_point f) s.allocated_mb_history h.allocated);
    ready = rw d (Grows-none (ready_point f) s.queue_ready_history h.ready);
    pubsub = rw e (Grows-none (pubsub_point f) s.pubsub_history h.pubsub);
  }

  if-Recorded :
      (b : Bool) (s u : Stream Real)
      → IsShort s
      → Recorded [] s u
      → Recorded [] s (if b then u else s)
  if-Recorded true s u h r = r
  if-Recorded false s u h r = same-Recorded s s h refl refl refl refl refl

  telemetry-Recorded :
      (b : Bool) (t : RealtimeTelemetry Real) (s : Stream Real)
      → IsShort s
      → Recorded (if b then t ∷ [] else []) s (if b then on_message f (telemetry t) s else s)
  unfolding on_message
  telemetry-Recorded true t s h = record {
    qps = record_point-last s.qps_history (qps_point f t);
    cache_hits = record_point-last s.cache_hit_history (hit_point f t);
    allocated = record_point-last s.allocated_mb_history (size_point f t);
    ready = record_point-last s.queue_ready_history (ready_point f t);
    pubsub = record_point-last s.pubsub_history (pubsub_point f t);
  }
  telemetry-Recorded false t s h = same-Recorded s s h refl refl refl refl refl

  step-Recorded :
      (s : Stream Real) (e : Event Real) → IsShort s → Recorded (received_now s e) s (step f s e)
  unfolding step received_now on_message on_error unmount
  step-Recorded s (opened k) h =
      if-Recorded (is_open k s.open_sources) s (record s { connected = true }) h
        (same-Recorded s (record s { connected = true }) h refl refl refl refl refl)
  step-Recorded s (errored k) h =
      if-Recorded (is_open k s.open_sources) s (on_error s) h
        (same-Recorded s (on_error s) h refl refl refl refl refl)
  step-Recorded s (message k (telemetry t)) h = telemetry-Recorded (is_open k s.open_sources) t s h
  step-Recorded s (message k null) h =
      if-Recorded (is_open k s.open_sources) s (on_message f null s) h
        (same-Recorded s (on_message f null s) h refl refl refl refl refl)
  step-Recorded s (message k malformed) h =
      if-Recorded (is_open k s.open_sources) s (on_message f malformed s) h
        (same-Recorded s (on_message f malformed s) h refl refl refl refl refl)
  step-Recorded s timer_fires h = elim (Bool-cases (s.timers == 0)) [
    | inl o ↦ rw o (same-Recorded s _ h refl refl refl refl refl)
    | inr o ↦ rw o (same-Recorded s _ h refl refl refl refl refl)
  ]
  step-Recorded s unmounts h =
      if-Recorded s.mounted s (unmount s) h (same-Recorded s (unmount s) h refl refl refl refl refl)

  Recorded-IsShort :
      (ts : List (RealtimeTelemetry Real)) (s u : Stream Real) → Recorded ts s u → IsShort u
  Recorded-IsShort ts s u r = record {
    qps = Grows-last (qps_point f) ts s.qps_history u.qps_history r.qps;
    cache_hits = Grows-last (hit_point f) ts s.cache_hit_history u.cache_hit_history r.cache_hits;
    allocated =
        Grows-last (size_point f) ts s.allocated_mb_history u.allocated_mb_history r.allocated;
    ready = Grows-last (ready_point f) ts s.queue_ready_history u.queue_ready_history r.ready;
    pubsub = Grows-last (pubsub_point f) ts s.pubsub_history u.pubsub_history r.pubsub;
  }

  Recorded-trans :
      (ts us : List (RealtimeTelemetry Real)) (s u w : Stream Real)
      → Recorded ts s u
      → Recorded us u w
      → Recorded (ts ++ us) s w
  Recorded-trans ts us s u w p q = record {
    qps = Grows-trans (qps_point f) ts us s.qps_history u.qps_history _ p.qps q.qps;
    cache_hits =
        Grows-trans (hit_point f) ts us s.cache_hit_history u.cache_hit_history _ p.cache_hits
          q.cache_hits;
    allocated =
        Grows-trans (size_point f) ts us s.allocated_mb_history u.allocated_mb_history _ p.allocated
          q.allocated;
    ready =
        Grows-trans (ready_point f) ts us s.queue_ready_history u.queue_ready_history _ p.ready
          q.ready;
    pubsub =
        Grows-trans (pubsub_point f) ts us s.pubsub_history u.pubsub_history _ p.pubsub q.pubsub;
  }

  run-Recorded :
      (es : List (Event Real)) (s : Stream Real)
      → IsShort s
      → Recorded (received s es) s (run f s es)
  unfolding received
  run-Recorded [] s h = same-Recorded s s h refl refl refl refl refl
  run-Recorded (e ∷ es) s h =
      let now = step-Recorded s e h in
      Recorded-trans (received_now s e) (received (step f s e) es) s (step f s e) (run f s (e ∷ es))
        now (run-Recorded es (step f s e) (Recorded-IsShort (received_now s e) s (step f s e) now))

  -- From the mount on, in any order of events, each of the five histories holds the points of the
  -- last thirty messages of telemetry that reached the component, oldest first.
  pub mount-Recorded :
      (es : List (Event Real)) → Recorded (received mount es) mount (run f mount es)
  unfolding mount last
  mount-Recorded es =
      run-Recorded es mount
        (record { qps = refl; cache_hits = refl; allocated = refl; ready = refl; pubsub = refl })
