-- ===== src/Studio/Shell/Navigation.antt =====
-- The side bar and the main area: which view the application renders, and what the error boundary
-- renders in its place.
use cocodb.Base.{
  ℕ, ◌≡◌, ◌≢◌, refl, All, if_holds, ◌==◌, Bool, Option, none, some, List, [], ◌∷◌, ◌++◌, map,
  filter, if◌then◌else◌,
}
use cocodb.Base.Text.{Text, codes, or_text}
use cocodb.Studio.Shell.{
  ViewType, dashboard, collections, timeseries, buckets, queues, pubsub, query, vector, search,
  maintenance, same_view, App, Event, fetch_data, data_fetched, toggle_theme, apply_theme,
  select_view, toggles_theme, timer_ticks, refreshes, retries, poll_answers, view_throws, step, run,
  length_or_zero, CatalogData,
}

pub record NavItem : Type 0 where
  pub id : ViewType
  pub label : Text
  pub badge : Option ℕ

abbrev nav_item : ViewType → Text → Option ℕ → NavItem
nav_item id label badge = record { id = id; label = label; badge = badge }

unfoldable pub nav_items : (bucket collection time_series queue : ℕ) → List NavItem
nav_items bucket collection time_series queue =
    nav_item dashboard (codes "Dashboard") none
    ∷ nav_item collections (codes "Collections") (some collection)
    ∷ nav_item timeseries (codes "Time Series") (some time_series)
    ∷ nav_item buckets (codes "KV Buckets") (some bucket)
    ∷ nav_item queues (codes "Task Queues") (some queue)
    ∷ nav_item pubsub (codes "Real-Time Pub/Sub") none
    ∷ nav_item query (codes "Query Console") none
    ∷ nav_item vector (codes "Vector Search") none
    ∷ nav_item search (codes "Full-Text Search") none
    ∷ nav_item maintenance (codes "Integrity & Tools") none
    ∷ []

-- A button of the side bar: the view that it selects, its label and badge, whether it is marked.
pub record NavButton : Type 0 where
  pub selects : ViewType
  pub label : Text
  pub badge : Option ℕ
  pub is_active : Bool

nav_button : ViewType → NavItem → NavButton
unfolding same_view
nav_button current item = record {
  selects = item.id;
  label = item.label;
  badge = item.badge;
  is_active = same_view current item.id;
}

catalog_count {ℓ} : {A : Type ℓ} → Option CatalogData → (CatalogData → Option (List A)) → ℕ
unfolding length_or_zero
catalog_count none field = 0
catalog_count (some c) field = length_or_zero (field c)

module _ {Stats : Type 0} where
  -- The side bar of the application.
  unfoldable pub sidebar : App Stats → List NavButton
  unfolding nav_items nav_button catalog_count
  sidebar a = map (nav_button a.current_view) (
      nav_items (catalog_count a.catalog (λ c. c.buckets))
        (catalog_count a.catalog (λ c. c.collections)) a.time_series_count
        (catalog_count a.catalog (λ c. c.queues)))

-- `currentView === view && <View />`.
render_if : ViewType → ViewType → List ViewType
unfolding same_view
render_if current view = if same_view current view then view ∷ [] else []

-- The children of the main area.
unfoldable pub main_views : ViewType → List ViewType
unfolding render_if
main_views v =
    render_if v dashboard
    ++ (render_if v collections
        ++ (render_if v timeseries
            ++ (render_if v buckets
                ++ (render_if v queues
                    ++ (render_if v pubsub
                        ++ (render_if v query
                            ++ (render_if v vector
                                ++ (render_if v search ++ render_if v maintenance))))))))

pub data Main : Type 0 where
  views : List ViewType → Main
  rendering_error : Text → Main

-- What the error boundary renders.
unfoldable pub boundary : Option Text → List ViewType → Main
boundary none children = views children
boundary (some e) children =
    rendering_error (or_text e (codes "An unexpected error occurred while rendering."))

module _ {Stats : Type 0} where
  unfoldable pub main_area : App Stats → Main
  unfolding boundary main_views
  main_area a = boundary a.error (main_views a.current_view)

abbrev pub active_views : List NavButton → List ViewType
active_views bs = map (λ (b : NavButton). b.selects) (filter (λ (b : NavButton). b.is_active) bs)

main_views-one : (v : ViewType) → main_views v ≡ v ∷ []
unfolding main_views
main_views-one dashboard = refl
main_views-one collections = refl
main_views-one timeseries = refl
main_views-one buckets = refl
main_views-one queues = refl
main_views-one pubsub = refl
main_views-one query = refl
main_views-one vector = refl
main_views-one search = refl
main_views-one maintenance = refl

module _ (a b c d : ℕ) where
  marked : (v : ViewType) → active_views (map (nav_button v) (nav_items a b c d)) ≡ v ∷ []
  unfolding nav_items nav_button
  marked dashboard = refl
  marked collections = refl
  marked timeseries = refl
  marked buckets = refl
  marked queues = refl
  marked pubsub = refl
  marked query = refl
  marked vector = refl
  marked search = refl
  marked maintenance = refl

module _ {Stats : Type 0} where
  -- While no view has thrown, the main area holds the selected view and no other, and the side bar
  -- marks one button, the one that selects it.
  pub navigation_agrees :
      (a : App Stats)
      → a.error ≡ none
      → (main_area a ≡ views (a.current_view ∷ []))
        × (active_views (sidebar a) ≡ a.current_view ∷ [])
  unfolding main_area boundary sidebar
  navigation_agrees a h = (
    rw (h, main_views-one a.current_view) refl,
    marked (catalog_count a.catalog (λ c. c.buckets)) (catalog_count a.catalog (λ c. c.collections))
        a.time_series_count (catalog_count a.catalog (λ c. c.queues)) a.current_view,
  )

  step-error :
      (a : App Stats) (e : Event Stats) (msg : Text)
      → a.error ≡ some msg
      → (e ≢ retries)
      → (step a e).error ≡ some msg
  unfolding step toggle_theme apply_theme fetch_data data_fetched
  step-error a (select_view v) msg h k = h
  step-error a toggles_theme msg h k = h
  step-error a timer_ticks msg h k = h
  step-error a refreshes msg h k =
      if_holds (λ (b : App Stats). b.error ≡ some msg) a.loading a (fetch_data a) (λ y. h) (λ n. h)
  step-error a retries msg h k = absurd (k refl)
  step-error a (poll_answers s c t) msg h k =
      if_holds (λ (b : App Stats). b.error ≡ some msg) (a.polls == 0) a (data_fetched s c t a)
        (λ y. h) (λ n. h)
  step-error a (view_throws e) msg h k = rw h refl

  run-error :
      (es : List (Event Stats)) (a : App Stats) (msg : Text)
      → a.error ≡ some msg
      → All (λ (e : Event Stats). e ≢ retries) es
      → (run a es).error ≡ some msg
  run-error [] a msg h k = h
  run-error (e ∷ es) a msg h (k, l) = run-error es (step a e) msg (step-error a e msg h k) l

  -- Once a view has thrown, the main area shows the same error after any events but a retry,
  -- whichever views the side bar selects meanwhile.
  pub error_stays :
      (a : App Stats) (msg : Text) (es : List (Event Stats))
      → a.error ≡ some msg
      → All (λ (e : Event Stats). e ≢ retries) es
      → main_area (run a es) ≡ main_area a
  unfolding main_area boundary
  error_stays a msg es h k = rw (run-error es a msg h k, h) refl
