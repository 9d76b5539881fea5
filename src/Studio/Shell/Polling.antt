-- ===== src/Studio/Shell/Polling.antt =====
-- The poll of the server every five seconds, and what a failed request of it does to the selection
-- of the view of collections.
use cocodb.Base.{
  ◌≡◌, ◌≢◌, ==_iff, refl, ◌==◌, true, false, Option, none, some, List, [], ◌∷◌, map, if_holds,
  arith,
}
use cocodb.Base.Text.{Text}
use cocodb.Base.Result.{Result, err}
use cocodb.Studio.Shell.{
  CatalogData, SeriesAnswer, App, apply_theme, toggle_theme, fetch_data, data_fetched, keep_catalog,
  mount, Event, select_view, toggles_theme, timer_ticks, refreshes, retries, poll_answers,
  view_throws, step, run,
}
use cocodb.Studio.Collections.Events.{reselect}

or_empty {ℓ} : {A : Type ℓ} → Option (List A) → List A
or_empty none = []
or_empty (some xs) = xs

-- The names that the view of collections offers: `catalog?.collections || []`.
pub collection_names : Option CatalogData → List Text
unfolding or_empty
collection_names none = []
collection_names (some c) = map (λ o. o.name) (or_empty c.collections)

reselect-nil : (current : Text) → reselect [] current ≡ []
unfolding reselect
reselect-nil [] = refl
reselect-nil (c ∷ s) = refl

module _ {Stats : Type 0} where
  -- While a poll is pending, an answer whose request for the catalogue fails, with the other two
  -- answered in any way, empties the selection of the view of collections, whatever it was.
  pub failed_catalog_deselects :
      (a : App Stats) (s : Result (Option Stats)) (e : Text) (t : Result SeriesAnswer)
      (current : Text)
      → a.polls ≢ 0
      → reselect (collection_names (step a (poll_answers s (err e) t)).catalog) current ≡ []
  unfolding step data_fetched keep_catalog collection_names reselect
  failed_catalog_deselects a s e t current h =
      if_holds (λ (b : App Stats). reselect (collection_names b.catalog) current ≡ [])
        (a.polls == 0) a (data_fetched s (err e) t a) (λ y. absurd (h ((==_iff a.polls 0).0 y)))
        (λ n. reselect-nil current)

  -- While data is shown as loading a poll is pending.
  Waits : App Stats → Type 0
  Waits a = a.loading ≡ true → a.polls ≢ 0

  step-Waits : (a : App Stats) (e : Event Stats) → Waits a → Waits (step a e)
  unfolding step toggle_theme apply_theme fetch_data data_fetched Waits
  step-Waits a (select_view v) h = h
  step-Waits a toggles_theme h = h
  step-Waits a timer_ticks h = λ l e. omega arith
  step-Waits a refreshes h =
      if_holds Waits a.loading a (fetch_data a) (λ y. h) (λ n. λ l e. omega arith)
  step-Waits a retries h = h
  step-Waits a (poll_answers s c t) h =
      if_holds Waits (a.polls == 0) a (data_fetched s c t a) (λ y. h) (λ n. λ l e. cc)
  step-Waits a (view_throws e) h = thrown a.error
    where
      thrown :
          (o : Option Text) → Waits (elim o [ none ↦ record a { error = some e } | some _ ↦ a ])
      thrown none = h
      thrown (some m) = h

  run-Waits : (es : List (Event Stats)) (a : App Stats) → Waits a → Waits (run a es)
  run-Waits [] a h = h
  run-Waits (e ∷ es) a h = run-Waits es (step a e) (step-Waits a e h)

module _ (Stats : Type 0) where
  abbrev pub begun : Option Text → App Stats
  begun saved = mount saved

  begun-Waits : (saved : Option Text) → Waits (begun saved)
  unfolding Waits mount fetch_data
  begun-Waits saved = λ l e. omega arith

  -- Whenever data is shown as loading, so that the refresh button is disabled, a poll is pending
  -- whose answer, of any kind, enables the button again.
  pub loading_ends :
      (saved : Option Text) (es : List (Event Stats)) (s : Result (Option Stats))
      (c : Result (Option CatalogData)) (t : Result SeriesAnswer)
      → let a = run (begun saved) es in
        a.loading ≡ true → (step a (poll_answers s c t)).loading ≡ false
  unfolding step data_fetched Waits
  loading_ends saved es s c t h =
      let a = run (begun saved) es in
      if_holds (λ (b : App Stats). b.loading ≡ false) (a.polls == 0) a (data_fetched s c t a)
        (λ y. absurd (run-Waits es (begun saved) (begun-Waits saved) h ((==_iff a.polls 0).0 y)))
        (λ n. refl)
