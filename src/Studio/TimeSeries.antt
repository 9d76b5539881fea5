-- ===== src/Studio/TimeSeries.antt =====
-- studio/frontend/src/views/TimeSeriesView.tsx: the explorer of time series.
pub mod Handlers
pub mod Pending
pub mod Guard
pub mod Overtaken
use cocodb.Base.{
  ℕ, suc, Bool, true, false, Option, none, some, List, [], ◌∷◌, ◌++◌, if◌then◌else◌, ◌==◌, ◌||◌,
  get_elem?, erase_idx,
}
use cocodb.Base.Text.{Text, codes, is_empty, or_text, text_eq, trim}
use cocodb.Base.Decimal.{decimal}
use cocodb.Base.Result.{Result, ok, err}
use cocodb.Studio.Json.{Json, object, Fields, Number, nat, is_zero}
use cocodb.Studio.Number.{to_number}
use cocodb.Studio.Api.{HttpRequest}
use cocodb.Studio.Api.Endpoints.{
  Point, TimeSeriesQuery, query_time_series, write_time_series, prune_time_series,
}
use cocodb.Studio.Collections.Events.{first_name}

-- What a closure of the component keeps of its render.
pub record Closure : Type 0 where
  pub selected : Text
  pub start : Text
  pub finish : Text
  pub tags : Text
  pub limit : Number
  pub descending : Bool

-- A function that waits, but for the loads of points: a list of series that is asked for by the
-- mount, by the button, or behind a write; a write; a retention.
pub data Task : Type 0 where
  listing_first listing_again : Task
  listing_after : Closure → Task
  writing pruning : Closure → HttpRequest → Task

-- `loads` holds the numbers and requests of the loads of points, the last one first.
pub record View : Type 0 where
  pub series : List Text
  pub selected : Text
  pub points : List Point
  pub start : Text
  pub finish : Text
  pub tags : Text
  pub limit : Number
  pub descending : Bool
  pub timestamp : Text
  pub write_tags : Text
  pub fields : Text
  pub retention_cutoff : Text
  pub loading : Bool
  pub error : Option Text
  pub success : Option Text
  pub latest_request : ℕ
  pub loads : List (ℕ × HttpRequest)
  pub tasks : List Task
  pub catalog_refreshes : ℕ

abbrev pub closure : View → Closure
closure v = record {
  selected = v.selected;
  start = v.start;
  finish = v.finish;
  tags = v.tags;
  limit = v.limit;
  descending = v.descending;
}

-- A chain of steps that may throw.
infixl 20 ◌>>=◌
abbrev pub ◌>>=◌ {ℓ κ} : {A : Type ℓ} {B : Type κ} → Result A → (A → Result B) → Result B
ok a >>= f = f a
err e >>= f = err e

unfoldable pub points_loaded : ℕ → Result (List Point) → View → View
points_loaded id (ok ps) v =
    if id == v.latest_request then record v { points = ps; loading = false } else v
points_loaded id (err e) v =
    if id == v.latest_request
    then record v { error = some (or_text e (codes "Unable to load points")); loading = false }
    else v

-- `JSON.parse`, and `new Date(text).toISOString()`, which throws for a text that is no date, are
-- parameters.
module _ (parse : Text → Result Json) (to_iso : Text → Result Text) where
  must_be_object : Text → Json → Result Fields
  must_be_object label (object fs) = ok fs
  must_be_object label v = err (label ++ codes " must be a JSON object")

  unfoldable pub parse_json_map : Text → Text → Result Fields
  unfolding must_be_object
  parse_json_map value label = parse value >>= must_be_object label

  -- `text ? new Date(text).toISOString() : undefined`.
  iso_or_none : Text → Result (Option Text)
  iso_or_none t = if is_empty t then ok none else to_iso t >>= (λ i. ok (some i))

  unfoldable pub points_request : Closure → Result HttpRequest
  unfolding iso_or_none parse_json_map
  points_request c = do
    start ← iso_or_none c.start
    finish ← iso_or_none c.finish
    tags ← parse_json_map c.tags (codes "Tag filter")
    ok (
        query_time_series (record {
          series = trim c.selected;
          start = start;
          finish = finish;
          tags = tags;
          limit = c.limit;
          descending = c.descending;
        }))

  -- A load that has taken its number; one whose request cannot be made ends at once.
  begin_load : Result HttpRequest → View → View
  begin_load (ok r) v = record v { loads = (v.latest_request, r) ∷ v.loads }
  begin_load (err e) v = points_loaded v.latest_request (err e) v

  unfoldable pub load_points : Closure → View → View
  unfolding points_request begin_load
  load_points c v =
      if is_empty (trim c.selected)
      then v
      else begin_load (points_request c)
          (record v { latest_request = suc v.latest_request; loading = true; error = none })

  -- The effect on the selection, after a render.
  unfoldable pub after_select : Text → View → View
  unfolding load_points
  after_select before v =
      if text_eq before v.selected || is_empty v.selected then v else load_points (closure v) v

  -- `loadSeries` behind its await.
  unfoldable pub series_listed : List Text → View → View
  unfolding after_select
  series_listed names v =
      after_select v.selected
        (record v { series = names; selected = or_text v.selected (first_name names) })

-- The first render, its effects run; the times of the inputs are those of the mount.
abbrev pub mount : (day_ago now month_ago : Text) → View
mount day_ago now month_ago = record {
  series = [];
  selected = [];
  points = [];
  start = day_ago;
  finish = now;
  tags = codes "{}";
  limit = nat 100;
  descending = true;
  timestamp = now;
  write_tags = codes "{\n  \"device\": \"sensor-01\"\n}";
  fields = codes "{\n  \"temperature\": 22.4\n}";
  retention_cutoff = month_ago;
  loading = false;
  error = none;
  success = none;
  latest_request = 0;
  loads = [];
  tasks = listing_first ∷ [];
  catalog_refreshes = 0;
}
