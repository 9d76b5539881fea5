-- ===== src/Studio/TimeSeries/Guard.antt =====
-- TimeSeriesView.tsx: the guard of the latest request, and the light that follows it.
use cocodb.Base.{
  ℕ, suc, ◌≡◌, refl, sym, true, false, Option, none, some, List, [], ◌∷◌, arith, if_holds, ◌==◌,
  ◌||◌, get_elem?, erase_idx, Option-cases, inl, inr,
}
use cocodb.Base.Text.{Text, codes, is_empty, text_eq, trim, or_text}
use cocodb.Base.Result.{Result, ok, err}
use cocodb.Studio.Json.{Json}
use cocodb.Studio.Api.{HttpRequest}
use cocodb.Studio.Collections.Events.{first_name}
use cocodb.Studio.TimeSeries.{
  listing_first, listing_again, listing_after, writing, pruning, Closure, Task, View, closure,
  points_loaded, begin_load, load_points, points_request, after_select, series_listed, mount,
}
use cocodb.Studio.TimeSeries.Handlers.{
  failed, listed, written, removed, removed_message, prune_task, write_task, select, type_start,
  type_end, type_tags, type_limit, type_timestamp, type_write_tags, type_fields, type_cutoff,
  newest_first, refresh_series, run_query, prune, write, answers, load_answers, push_or_fail,
  handle_write, handle_prune, Answer, resume, resume_task, resume_load, Event, step, run,
}
use cocodb.Studio.TimeSeries.Pending.{
  is_pending, Falls, Falls-mono, Guarded, pending_above, same_number, points_loaded-Guarded,
}

module _ (parse : Text → Result Json) (to_iso : Text → Result Text) where
  begin_load-Guarded :
      (r : Result HttpRequest) (v : View)
      → Falls v.latest_request v.loads
      → v.loading ≡ true
      → Guarded (begin_load parse to_iso r v)
  unfolding begin_load points_loaded is_pending
  begin_load-Guarded (ok r) v f l = ((omega arith, f), ground arith)
  begin_load-Guarded (err m) v f l =
      if_holds Guarded (v.latest_request == v.latest_request)
        (record v { error = some (or_text m (codes "Unable to load points")); loading = false }) v
        (λ y. (
          Falls-mono {m = v.latest_request} v.loads (omega arith) f,
          sym (pending_above v.latest_request v.latest_request v.loads f (omega arith)),
        ))
        (λ n. absurd (same_number v.latest_request n))

  load_points-Guarded :
      (c : Closure) (v : View) → Guarded v → Guarded (load_points parse to_iso c v)
  unfolding load_points
  load_points-Guarded c v h =
      if_holds Guarded (is_empty (trim c.selected)) v
        (begin_load parse to_iso (points_request parse to_iso c)
          (record v { latest_request = suc v.latest_request; loading = true; error = none }))
        (λ y. h)
        (λ n.
          begin_load-Guarded (points_request parse to_iso c)
            (record v { latest_request = suc v.latest_request; loading = true; error = none }) h.0
            refl)

  after_select-Guarded :
      (before : Text) (v : View) → Guarded v → Guarded (after_select parse to_iso before v)
  unfolding after_select
  after_select-Guarded before v h =
      if_holds Guarded (text_eq before v.selected || is_empty v.selected) v
        (load_points parse to_iso (closure v) v) (λ y. h) (λ n. load_points-Guarded (closure v) v h)

  series_listed-Guarded :
      (names : List Text) (v : View) → Guarded v → Guarded (series_listed parse to_iso names v)
  unfolding series_listed
  series_listed-Guarded names v h =
      after_select-Guarded v.selected
        (record v { series = names; selected = or_text v.selected (first_name names) }) h

  push_or_fail-Guarded :
      (m : Text) (t : Result Task) (v : View) → Guarded v → Guarded (push_or_fail m t v)
  unfolding push_or_fail
  push_or_fail-Guarded m (ok t) v h = h
  push_or_fail-Guarded m (err e) v h = h

  resume-Guarded :
      (t : Task) (a : Answer) (v : View) → Guarded v → Guarded (resume parse to_iso t a v)
  unfolding resume
  resume-Guarded listing_first (failed e) v h = h
  resume-Guarded listing_first (listed names) v h = series_listed-Guarded names v h
  resume-Guarded listing_first written v h = h
  resume-Guarded listing_first (removed n) v h = h
  resume-Guarded listing_again (failed e) v h = h
  resume-Guarded listing_again (listed names) v h = series_listed-Guarded names v h
  resume-Guarded listing_again written v h = h
  resume-Guarded listing_again (removed n) v h = h
  resume-Guarded (listing_after c) (failed e) v h = h
  resume-Guarded (listing_after c) (listed names) v h =
      load_points-Guarded c (series_listed parse to_iso names v) (series_listed-Guarded names v h)
  resume-Guarded (listing_after c) written v h = h
  resume-Guarded (listing_after c) (removed n) v h = h
  resume-Guarded (writing c r) (failed e) v h = h
  resume-Guarded (writing c r) (listed names) v h = h
  resume-Guarded (writing c r) written v h = h
  resume-Guarded (writing c r) (removed n) v h = h
  resume-Guarded (pruning c r) (failed e) v h = h
  resume-Guarded (pruning c r) (listed names) v h = h
  resume-Guarded (pruning c r) written v h = h
  resume-Guarded (pruning c r) (removed n) v h =
      load_points-Guarded c (record v { success = some (removed_message n) }) h

  resume_task-Guarded :
      (o : Option Task) (i : ℕ) (a : Answer) (v : View)
      → Guarded v
      → Guarded (resume_task parse to_iso o i a v)
  unfolding resume_task
  resume_task-Guarded none i a v h = h
  resume_task-Guarded (some t) i a v h =
      resume-Guarded t a (record v { tasks = erase_idx v.tasks i }) h

  step-Guarded : (v : View) (e : Event) → Guarded v → Guarded (step parse to_iso v e)
  unfolding step handle_write handle_prune resume_load
  step-Guarded v (select t) h = after_select-Guarded v.selected (record v { selected = t }) h
  step-Guarded v (type_start t) h = h
  step-Guarded v (type_end t) h = h
  step-Guarded v (type_tags t) h = h
  step-Guarded v (type_limit t) h = h
  step-Guarded v (type_timestamp t) h = h
  step-Guarded v (type_write_tags t) h = h
  step-Guarded v (type_fields t) h = h
  step-Guarded v (type_cutoff t) h = h
  step-Guarded v (newest_first b) h = h
  step-Guarded v refresh_series h = h
  step-Guarded v run_query h =
      if_holds Guarded (v.loading || is_empty (trim v.selected)) v
        (load_points parse to_iso (closure v) v) (λ y. h) (λ n. load_points-Guarded (closure v) v h)
  step-Guarded v prune h =
      if_holds Guarded (is_empty (trim v.selected)) v (handle_prune parse to_iso v) (λ y. h)
        (λ n.
          push_or_fail-Guarded (codes "Unable to apply retention") (prune_task parse to_iso v) v h)
  step-Guarded v (write now) h =
      push_or_fail-Guarded (codes "Unable to write point") (write_task parse to_iso now v) v h
  step-Guarded v (answers i a) h = resume_task-Guarded (get_elem? v.tasks i) i a v h
  step-Guarded v (load_answers i a) h = elim (Option-cases (get_elem? v.loads i)) [
    | inl e ↦ rw e h
    | inr ((id, r), e) ↦ rw e (points_loaded-Guarded i id r v e h a)
  ]

  run-Guarded : (es : List Event) (v : View) → Guarded v → Guarded (run parse to_iso v es)
  run-Guarded [] v h = h
  run-Guarded (e ∷ es) v h = run-Guarded es (step parse to_iso v e) (step-Guarded v e h)

  module _ (day_ago now month_ago : Text) (es : List Event) where
    abbrev pub explored : View
    explored = run parse to_iso (mount day_ago now month_ago) es

    -- From the mount on, in any order of events and answers: the numbers of the pending loads of
    -- points are apart and not above the last one given out, and the light of the loading is on
    -- exactly while the load of that number is pending.
    pub explored-Guarded : Guarded explored
    unfolding is_pending
    explored-Guarded = run-Guarded es (mount day_ago now month_ago) (tt, refl)
