-- ===== src/Tests/Shell.antt =====
-- The frame around the views of the studio.
use cocodb.Base.{ℕ, ◌≡◌, ◌≢◌, refl, true, false, none, some, List, [], ◌∷◌}
use cocodb.Base.Text.{codes}
use cocodb.Base.Result.{ok, err}
use cocodb.Studio.Shell.{
  App, Event, select_view, toggles_theme, timer_ticks, poll_answers, collections, query, series,
  is_dark, initial_theme, light, mount, step, run,
}
use cocodb.Studio.Shell.Navigation.{main_area, views, active_views, sidebar, navigation_agrees}
use cocodb.Studio.Shell.Storage.{started, theme_persists}
use cocodb.Studio.Shell.Polling.{begun, collection_names, failed_catalog_deselects, loading_ends}
use cocodb.Studio.Collections.Events.{reselect}

abbrev visited : App ℕ
visited = run (mount none) (select_view query ∷ toggles_theme ∷ [])

visited_light : visited.theme ≡ light
unfolding mount step
visited_light = refl

no_error : visited.error ≡ none
unfolding mount step
no_error = refl

navigation_agrees_example :
    (main_area visited ≡ views (visited.current_view ∷ []))
    × (active_views (sidebar visited) ≡ visited.current_view ∷ [])
navigation_agrees_example = navigation_agrees visited no_error

abbrev thrown : App ℕ
thrown = record visited { error = some (codes "boom") }

abbrev onwards : List (Event ℕ)
onwards = select_view collections ∷ timer_ticks ∷ []

theme_persists_example :
    let a = run (started ℕ (some (codes "light"))) (toggles_theme ∷ []) in
    (a.root_dark ≡ is_dark a.theme) × (initial_theme a.saved ≡ a.theme)
theme_persists_example = theme_persists ℕ (some (codes "light")) (toggles_theme ∷ [])

abbrev polling : App ℕ
polling = mount none

polls_once : polling.polls ≢ 0
unfolding mount
polls_once e = cc

failed_catalog_deselects_example :
    reselect
      (collection_names
        (step polling
          (poll_answers (ok (some 1)) (err (codes "timeout")) (ok (series (some []))))).catalog)
      (codes "users")
    ≡ []
failed_catalog_deselects_example =
    failed_catalog_deselects polling (ok (some 1)) (codes "timeout") (ok (series (some [])))
      (codes "users") polls_once

loads : (run (begun ℕ none) (timer_ticks ∷ [])).loading ≡ true
unfolding mount step
loads = refl

loading_ends_example :
    (step
      (run (begun ℕ none) (timer_ticks ∷ []))
      (poll_answers (err []) (err []) (ok (series none)))).loading
    ≡ false
loading_ends_example =
    loading_ends ℕ none (timer_ticks ∷ []) (err []) (err []) (ok (series none)) loads
