-- ===== src/Studio/TimeSeries/Pending.antt =====
-- TimeSeriesView.tsx: the pending loads of points, by their numbers, and the guard of the answer.
use cocodb.Base.{
  ℕ, zero, suc, ◌≤◌, ◌<◌, ◌≡◌, ◌≢◌, refl, sym, ◌∙◌, Bool, false, some, List, [], ◌∷◌, arith,
  if◌then◌else◌, if_holds, ◌==◌, ◌||◌, get_elem?, erase_idx,
}
use cocodb.Base.Text.{codes, or_text}
use cocodb.Base.Result.{Result, ok, err}
use cocodb.Studio.Api.{HttpRequest}
use cocodb.Studio.Api.Endpoints.{Point}
use cocodb.Studio.TimeSeries.{View, points_loaded}

abbrev pub Loads : Type 0
Loads = List (ℕ × HttpRequest)

-- A load of that number is pending.
unfoldable pub is_pending : ℕ → Loads → Bool
is_pending n [] = false
is_pending n ((id, r) ∷ ls) = id == n || is_pending n ls

-- The numbers fall along the loads, from below `n`.
abbrev pub Falls : ℕ → Loads → Type 0
Falls n [] = Unit {0}
Falls n ((id, r) ∷ ls) = (id < n) × Falls id ls

-- The numbers of the pending loads are apart and not above the last one given out, and the light is
-- on exactly while the load of that number is pending.
abbrev pub Guarded : View → Type 0
Guarded v = Falls (suc v.latest_request) v.loads × (v.loading ≡ is_pending v.latest_request v.loads)

pub Falls-mono : {m n : ℕ} (ls : Loads) → m ≤ n → Falls m ls → Falls n ls
Falls-mono [] h f = tt
Falls-mono ((id, r) ∷ ls) h f = (omega arith, f.1)

pub pending_above : (n k : ℕ) (ls : Loads) → Falls n ls → n ≤ k → is_pending k ls ≡ false
unfolding is_pending
pending_above n k [] f h = refl
pending_above n k ((id, r) ∷ ls) f h = ground (arith, pending_above id k ls f.1)

Falls-erase_idx : (n i : ℕ) (ls : Loads) → Falls n ls → Falls n (erase_idx ls i)
Falls-erase_idx n i [] f = tt
Falls-erase_idx n zero ((id, r) ∷ ls) f = Falls-mono {m = id} ls (omega arith) f.1
Falls-erase_idx n (suc i) ((id, r) ∷ ls) f = (f.0, Falls-erase_idx id i ls f.1)

Falls-found :
    (n i : ℕ) (ls : Loads) (id : ℕ) (r : HttpRequest)
    → Falls n ls
    → get_elem? ls i ≡ some (id, r)
    → id < n
Falls-found n i [] id r f e = cc
Falls-found n zero ((jd, q) ∷ ls) id r f e = ground arith
Falls-found n (suc i) ((jd, q) ∷ ls) id r f e = omega (arith, Falls-found jd i ls id r f.1 e)

-- Taking out a load ends its own number and no other.
pending-erase_idx :
    (k n i : ℕ) (ls : Loads) (id : ℕ) (r : HttpRequest)
    → Falls n ls
    → get_elem? ls i ≡ some (id, r)
    → is_pending k (erase_idx ls i) ≡ (if id == k then false else is_pending k ls)
unfolding is_pending
pending-erase_idx k n i [] id r f e = cc
pending-erase_idx k n zero ((jd, q) ∷ ls) id r f e = ground (arith, pending_above jd k ls f.1)
pending-erase_idx k n (suc i) ((jd, q) ∷ ls) id r f e =
    ground (arith, pending-erase_idx k jd i ls id r f.1 e, Falls-found jd i ls id r f.1 e)

pub same_number : (n : ℕ) → (n == n) ≢ false
same_number n = ground arith

-- The answer to a load: the light goes off if its number is the last one, and else stays.
module _ (i id : ℕ) (r : HttpRequest) (v : View) (e : get_elem? v.loads i ≡ some (id, r))
    (h : Guarded v) where
  abbrev pub without : View
  without = record v { loads = erase_idx v.loads i }

  left_pending :
      is_pending v.latest_request (erase_idx v.loads i)
      ≡ (if id == v.latest_request then false else is_pending v.latest_request v.loads)
  left_pending = pending-erase_idx v.latest_request (suc v.latest_request) i v.loads id r h.0 e

  answered-Guarded :
      (u : View)
      → u.latest_request ≡ v.latest_request
      → u.loads ≡ erase_idx v.loads i
      → u.loading ≡ false
      → Guarded (if id == v.latest_request then u else without)
  answered-Guarded u n ls l =
      if_holds Guarded (id == v.latest_request) u without
        (λ y. (
          rw (n, ls) (Falls-erase_idx (suc v.latest_request) i v.loads h.0),
          rw (n, ls, l) (sym (left_pending ∙ rw y refl)),
        ))
        (λ x. (
          Falls-erase_idx (suc v.latest_request) i v.loads h.0,
          h.1 ∙ sym (left_pending ∙ rw x refl),
        ))

  pub points_loaded-Guarded : (a : Result (List Point)) → Guarded (points_loaded id a without)
  unfolding points_loaded
  points_loaded-Guarded (ok ps) =
      answered-Guarded (record v { loads = erase_idx v.loads i; points = ps; loading = false }) refl
        refl refl
  points_loaded-Guarded (err m) =
      answered-Guarded
        (record v {
          loads = erase_idx v.loads i;
          error = some (or_text m (codes "Unable to load points"));
          loading = false;
        })
        refl refl refl

-- An answer that is not the last load's leaves what is shown.
pub ignored :
    (id : ℕ) (a : Result (List Point)) (v : View)
    → (id == v.latest_request) ≡ false
    → ((points_loaded id a v).points ≡ v.points)
      × ((points_loaded id a v).loading ≡ v.loading)
      × ((points_loaded id a v).error ≡ v.error)
unfolding points_loaded
ignored id (ok ps) v n = rw n (refl, refl, refl)
ignored id (err m) v n = rw n (refl, refl, refl)
