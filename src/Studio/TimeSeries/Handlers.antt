-- ===== src/Studio/TimeSeries/Handlers.antt =====
-- studio/frontend/src/views/TimeSeriesView.tsx: the handlers of the forms, the answers and the events.
use cocodb.Base.{
  ℕ, suc, Bool, Option, none, some, List, [], ◌∷◌, ◌++◌, if◌then◌else◌, ◌==◌, ◌||◌, get_elem?,
  erase_idx,
}
use cocodb.Base.Text.{Text, codes, is_empty, or_text, trim}
use cocodb.Base.Decimal.{decimal}
use cocodb.Base.Result.{Result, ok, err}
use cocodb.Studio.Json.{Json, Number, nat, is_zero}
use cocodb.Studio.Number.{to_number}
use cocodb.Studio.Api.{HttpRequest}
use cocodb.Studio.Api.Endpoints.{Point, write_time_series, prune_time_series}
use cocodb.Studio.TimeSeries.{
  Task, listing_first, listing_again, listing_after, writing, pruning, View, closure, ◌>>=◌,
  points_loaded, parse_json_map, load_points, after_select, series_listed,
}

-- What an answer brings; `failed` is a rejection.
pub data Answer : Type 0 where
  failed : Text → Answer
  listed : List Text → Answer
  written : Answer
  removed : ℕ → Answer

pub data Event : Type 0 where
  select type_start type_end type_tags type_limit type_timestamp type_write_tags type_fields
        type_cutoff :
      Text → Event
  newest_first : Bool → Event
  refresh_series run_query prune : Event
  write : (now : Text) → Event
  answers : (task : ℕ) → Answer → Event
  load_answers : (load : ℕ) → Result (List Point) → Event

needs_series : View → Result Text
needs_series v =
    if is_empty (trim v.selected)
    then err (codes "Enter a series name first")
    else ok (trim v.selected)

unfoldable pub push_or_fail : Text → Result Task → View → View
push_or_fail otherwise (ok t) v = record v { error = none; success = none; tasks = t ∷ v.tasks }
push_or_fail otherwise (err e) v = record v { error = some (or_text e otherwise); success = none }

unfoldable pub removed_message : ℕ → Text
removed_message n =
    codes "Retention applied: removed "
    ++ (decimal n ++ (codes " point" ++ ((if n == 1 then [] else codes "s") ++ codes ".")))

-- `JSON.parse` and `new Date(text).toISOString()` are parameters.
module _ (parse : Text → Result Json) (to_iso : Text → Result Text) where
  iso_or_now : Text → Text → Result Text
  iso_or_now now t = if is_empty t then ok now else to_iso t

  -- The point of the form; `now` is the present time.
  form_point : Text → View → Result Point
  unfolding iso_or_now parse_json_map
  form_point now v = do
    timestamp ← iso_or_now now v.timestamp
    tags ← parse_json_map parse to_iso v.write_tags (codes "Tags")
    fields ← parse_json_map parse to_iso v.fields (codes "Fields")
    ok (record { timestamp = timestamp; tags = tags; fields = fields })

  pub write_task : Text → View → Result Task
  unfolding form_point needs_series
  write_task now v = do
    name ← needs_series v
    p ← form_point now v
    ok (writing (closure v) (write_time_series name p))

  unfoldable pub handle_write : Text → View → View
  unfolding write_task push_or_fail
  handle_write now v = push_or_fail (codes "Unable to write point") (write_task now v) v

  pub prune_task : View → Result Task
  unfolding needs_series
  prune_task v = do
    name ← needs_series v
    before ← to_iso v.retention_cutoff
    ok (pruning (closure v) (prune_time_series name before))

  unfoldable pub handle_prune : View → View
  unfolding prune_task push_or_fail
  handle_prune v = push_or_fail (codes "Unable to apply retention") (prune_task v) v

  -- The functions that wait, from there on; an answer of another kind does not come.
  unfoldable pub resume : Task → Answer → View → View
  unfolding series_listed load_points removed_message
  resume listing_first (listed names) v = series_listed parse to_iso names v
  resume listing_first (failed e) v = record v {
    error = some (or_text e (codes "Unable to load series"));
  }
  resume listing_again (listed names) v = series_listed parse to_iso names v
  resume (listing_after c) (listed names) v =
      let u = load_points parse to_iso c (series_listed parse to_iso names v) in
      record u { catalog_refreshes = suc u.catalog_refreshes }
  resume (listing_after c) (failed e) v = record v {
    error = some (or_text e (codes "Unable to write point"));
  }
  resume (writing c r) written v = record v {
    success = some (codes "Point written successfully.");
    tasks = listing_after c ∷ v.tasks;
  }
  resume (writing c r) (failed e) v = record v {
    error = some (or_text e (codes "Unable to write point"));
  }
  resume (pruning c r) (removed n) v =
      load_points parse to_iso c (record v { success = some (removed_message n) })
  resume (pruning c r) (failed e) v = record v {
    error = some (or_text e (codes "Unable to apply retention"));
  }
  resume t a v = v

  unfoldable pub resume_task : Option Task → ℕ → Answer → View → View
  unfolding resume
  resume_task none i a v = v
  resume_task (some t) i a v = resume t a (record v { tasks = erase_idx v.tasks i })

  unfoldable pub resume_load : Option (ℕ × HttpRequest) → ℕ → Result (List Point) → View → View
  resume_load none i a v = v
  resume_load (some (id, r)) i a v = points_loaded id a (record v { loads = erase_idx v.loads i })

  -- `Number(text) || 100`.
  or_hundred : Option Number → Number
  or_hundred none = nat 100
  or_hundred (some n) = if is_zero n then nat 100 else n

  -- The query's button is disabled while points are loaded or where no series is named, as is the
  -- button of the retention in the latter case.
  unfoldable pub step : View → Event → View
  unfolding after_select load_points handle_write handle_prune resume_task resume_load or_hundred
  step v (select t) = after_select parse to_iso v.selected (record v { selected = t })
  step v (type_start t) = record v { start = t }
  step v (type_end t) = record v { finish = t }
  step v (type_tags t) = record v { tags = t }
  step v (type_limit t) = record v { limit = or_hundred (to_number t) }
  step v (type_timestamp t) = record v { timestamp = t }
  step v (type_write_tags t) = record v { write_tags = t }
  step v (type_fields t) = record v { fields = t }
  step v (type_cutoff t) = record v { retention_cutoff = t }
  step v (newest_first b) = record v { descending = b }
  step v refresh_series = record v { tasks = listing_again ∷ v.tasks }
  step v run_query =
      if v.loading || is_empty (trim v.selected) then v else load_points parse to_iso (closure v) v
  step v prune = if is_empty (trim v.selected) then v else handle_prune v
  step v (write now) = handle_write now v
  step v (answers i a) = resume_task (get_elem? v.tasks i) i a v
  step v (load_answers i a) = resume_load (get_elem? v.loads i) i a v

  abbrev pub run : View → List Event → View
  run v [] = v
  run v (e ∷ es) = run (step v e) es
