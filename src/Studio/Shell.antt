-- ===== src/Studio/Shell.antt =====
-- studio/frontend/src/App.tsx, components/Sidebar.tsx and components/ErrorBoundary.tsx: the frame
-- around the views. The view selected, the poll of the server, the theme and the error boundary.
pub mod Navigation
pub mod Storage
pub mod Polling
use cocodb.Base.{
  ℕ, suc, ◌-◌, Bool, true, false, not, Option, none, some, List, [], ◌∷◌, map, if◌then◌else◌, ◌==◌,
  ◌||◌, length, get_elem?,
}
use cocodb.Base.Text.{Text, codes, text_eq}
use cocodb.Base.Result.{Result, ok, err}

pub data ViewType : Type 0 where
  dashboard collections timeseries buckets queues pubsub query vector search maintenance : ViewType

pub data Theme : Type 0 where
  light dark : Theme

pub record CatalogObject : Type 0 where
  pub id : ℕ
  pub name : Text
  pub root : ℕ

-- A list that is missing or null is `none`.
pub record CatalogData : Type 0 where
  pub buckets : Option (List CatalogObject)
  pub collections : Option (List CatalogObject)
  pub queues : Option (List CatalogObject)

-- The body of the list of series; reading a property of null throws.
pub data SeriesAnswer : Type 0 where
  no_object : SeriesAnswer
  series : Option (List Text) → SeriesAnswer

-- `saved` is the entry `coco_theme` of the local storage and `root_dark` the class `dark` of the
-- document's root; `polls` counts the calls of `fetchData` whose promises are pending.
pub record App (Stats : Type 0) : Type 0 where
  pub current_view : ViewType
  pub stats : Option Stats
  pub catalog : Option CatalogData
  pub time_series_count : ℕ
  pub loading : Bool
  pub theme : Theme
  pub saved : Option Text
  pub root_dark : Bool
  pub error : Option Text
  pub polls : ℕ

pub theme_name : Theme → Text
theme_name light = codes "light"
theme_name dark = codes "dark"

unfoldable pub is_dark : Theme → Bool
is_dark light = false
is_dark dark = true

-- The initial theme: the one saved, if it is a theme.
unfoldable pub initial_theme : Option Text → Theme
initial_theme none = dark
initial_theme (some saved) =
    if text_eq saved (codes "light")
    then light
    else if text_eq saved (codes "dark")
    then dark
    else dark

unfoldable pub toggle : Theme → Theme
toggle dark = light
toggle light = dark

pub length_or_zero {ℓ} : {A : Type ℓ} → Option (List A) → ℕ
length_or_zero none = 0
length_or_zero (some xs) = length xs

abbrev pub empty_catalog : CatalogData
empty_catalog = record { buckets = some []; collections = some []; queues = some [] }

keep_catalog : Option CatalogData → Result (Option CatalogData) → Option CatalogData
keep_catalog before (ok (some c)) = some c
keep_catalog before (ok none) = before
keep_catalog before (err e) = some empty_catalog

-- Where the series cannot be counted the call throws, and the count stays.
count_series : ℕ → Result SeriesAnswer → ℕ
count_series before (err e) = 0
count_series before (ok no_object) = before
count_series before (ok (series none)) = before
count_series before (ok (series (some names))) = length names

module _ {Stats : Type 0} where
  -- The effect on the theme.
  unfoldable pub apply_theme : App Stats → App Stats
  unfolding theme_name is_dark
  apply_theme a = record a { root_dark = is_dark a.theme; saved = some (theme_name a.theme) }

  unfoldable pub toggle_theme : App Stats → App Stats
  unfolding apply_theme toggle
  toggle_theme a = apply_theme (record a { theme = toggle a.theme })

  -- `fetchData` up to its await, and from there on.
  unfoldable pub fetch_data : App Stats → App Stats
  fetch_data a = record a { loading = true; polls = suc a.polls }

  keep_stats : Option Stats → Result (Option Stats) → Option Stats
  keep_stats before (ok (some s)) = some s
  keep_stats before (ok none) = before
  keep_stats before (err e) = before

  unfoldable pub data_fetched :
      Result (Option Stats)
      → Result (Option CatalogData)
      → Result SeriesAnswer
      → App Stats
      → App Stats
  unfolding keep_stats keep_catalog count_series
  data_fetched stats_res catalog_res series_res a = record a {
    stats = keep_stats a.stats stats_res;
    catalog = keep_catalog a.catalog catalog_res;
    time_series_count = count_series a.time_series_count series_res;
    loading = false;
    polls = a.polls - 1;
  }

  -- The first render, its effects run.
  unfoldable pub mount : Option Text → App Stats
  unfolding initial_theme apply_theme fetch_data
  mount saved = fetch_data (
      apply_theme (record {
        current_view = dashboard;
        stats = none;
        catalog = none;
        time_series_count = 0;
        loading = false;
        theme = initial_theme saved;
        saved = saved;
        root_dark = false;
        error = none;
        polls = 0;
      }))

-- The strict equality of two views.
unfoldable pub same_view : ViewType → ViewType → Bool
same_view dashboard dashboard = true
same_view collections collections = true
same_view timeseries timeseries = true
same_view buckets buckets = true
same_view queues queues = true
same_view pubsub pubsub = true
same_view query query = true
same_view vector vector = true
same_view search search = true
same_view maintenance maintenance = true
same_view _ _ = false

pub data Event (Stats : Type 0) : Type 0 where
  select_view : ViewType → Event Stats
  toggles_theme timer_ticks refreshes retries : Event Stats
  poll_answers :
      Result (Option Stats) → Result (Option CatalogData) → Result SeriesAnswer → Event Stats
  view_throws : Text → Event Stats

module _ {Stats : Type 0} where
  -- The refresh button is disabled while data is loaded; the boundary's retry is there once a view
  -- has thrown, and a view can throw only while it is rendered.
  unfoldable pub step : App Stats → Event Stats → App Stats
  unfolding toggle_theme fetch_data data_fetched
  step a (select_view v) = record a { current_view = v }
  step a toggles_theme = toggle_theme a
  step a timer_ticks = fetch_data a
  step a refreshes = if a.loading then a else fetch_data a
  step a retries = record a { error = none }
  step a (poll_answers s c t) = if a.polls == 0 then a else data_fetched s c t a
  step a (view_throws e) = elim a.error [ none ↦ record a { error = some e } | some _ ↦ a ]

  abbrev pub run : App Stats → List (Event Stats) → App Stats
  run a [] = a
  run a (e ∷ es) = run (step a e) es
