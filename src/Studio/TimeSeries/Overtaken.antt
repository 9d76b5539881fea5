-- ===== src/Studio/TimeSeries/Overtaken.antt =====
-- TimeSeriesView.tsx: two series that are selected one after the other, whose answers overtake each other.
use cocodb.Base.{suc, ◌≡◌, refl, sym, ap, subst, ◌∙◌, false, true, none, List, [], ◌∷◌, ◌==◌, arith}
use cocodb.Base.Text.{Text, text_eq, is_empty, trim}
use cocodb.Base.Result.{Result, ok, err}
use cocodb.Studio.Json.{Json}
use cocodb.Studio.Api.{HttpRequest}
use cocodb.Studio.Api.Endpoints.{Point}
use cocodb.Studio.TimeSeries.{
  View, closure, points_request, load_points, begin_load, after_select, points_loaded,
}
use cocodb.Studio.TimeSeries.Handlers.{select, load_answers, resume_load, step, run}

is_empty_of_trim : (t : Text) → is_empty (trim t) ≡ false → is_empty t ≡ false
unfolding trim
is_empty_of_trim [] h = h
is_empty_of_trim (c ∷ t) h = refl

module _ (parse : Text → Result Json) (to_iso : Text → Result Text) where
  -- The view that has begun the load of the series that was selected.
  abbrev begun : View → Text → HttpRequest → View
  begun v t r = record v {
    selected = t;
    latest_request = suc v.latest_request;
    loading = true;
    error = none;
    loads = (suc v.latest_request, r) ∷ v.loads;
  }

  selection :
      (v : View) (t : Text) (r : HttpRequest)
      → text_eq v.selected t ≡ false
      → is_empty (trim t) ≡ false
      → points_request parse to_iso (closure (record v { selected = t })) ≡ ok r
      → step parse to_iso v (select t) ≡ begun v t r
  unfolding step after_select load_points begin_load
  selection v t r n h e = rw (n, is_empty_of_trim t h, h, e) refl

  -- The points of the view, with no load pending.
  abbrev pub IsShown : List Point → View → Type 0
  IsShown ps v = (v.points ≡ ps) × (v.loading ≡ false) × (v.loads ≡ [])

  module _ (v : View) (x y : Text) (p q : HttpRequest) where
    abbrev both : View
    both = begun (begun v x p) y q

    latest : (both.latest_request == both.latest_request) ≡ true
    latest = ground arith

    earlier : (suc v.latest_request == both.latest_request) ≡ false
    earlier = ground arith

    answers-IsShown :
        (of_x : Result (List Point)) (of_y : List Point)
        → v.loads ≡ []
        → IsShown of_y (run parse to_iso both (load_answers 0 (ok of_y) ∷ load_answers 0 of_x ∷ []))
          × IsShown of_y
              (run parse to_iso both (load_answers 1 of_x ∷ load_answers 0 (ok of_y) ∷ []))
    unfolding step resume_load points_loaded
    answers-IsShown (ok of_x) of_y l =
        rw (l, latest, earlier, latest) ((refl, refl, refl), (refl, refl, refl))
    answers-IsShown (err e) of_y l =
        rw (l, latest, earlier, latest) ((refl, refl, refl), (refl, refl, refl))

    -- In a view that waits for no points, whose form gives a request for each of two series, the user
    -- selects x and then y. Then the points of y are shown in the end, with the light out and nothing
    -- pending, in whichever order the answers come, and whatever the one about x brings.
    pub last_series-IsShown :
        (of_x : Result (List Point)) (of_y : List Point)
        → v.loads ≡ []
        → text_eq v.selected x ≡ false
        → text_eq x y ≡ false
        → is_empty (trim x) ≡ false
        → is_empty (trim y) ≡ false
        → points_request parse to_iso (closure (record v { selected = x })) ≡ ok p
        → points_request parse to_iso (closure (record v { selected = y })) ≡ ok q
        → let u = run parse to_iso v (select x ∷ select y ∷ []) in
          IsShown of_y (run parse to_iso u (load_answers 0 (ok of_y) ∷ load_answers 0 of_x ∷ []))
          × IsShown of_y (run parse to_iso u (load_answers 1 of_x ∷ load_answers 0 (ok of_y) ∷ []))
    last_series-IsShown of_x of_y l m n h k e f =
        let path =
          ap (λ u. step parse to_iso u (select y)) (selection v x p m h e)
          ∙ selection (begun v x p) y q n k f in
        subst
          (λ u.
            IsShown of_y (run parse to_iso u (load_answers 0 (ok of_y) ∷ load_answers 0 of_x ∷ []))
            × IsShown of_y
                (run parse to_iso u (load_answers 1 of_x ∷ load_answers 0 (ok of_y) ∷ [])))
          (sym path) (answers-IsShown of_x of_y l)
