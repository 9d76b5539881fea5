-- ===== src/Studio/Shell/Storage.antt =====
-- The theme: the class of the document and the entry of the local storage follow it.
use cocodb.Base.{◌≡◌, refl, ap, ◌∙◌, ◌==◌, Option, none, some, List, [], ◌∷◌, if_holds}
use cocodb.Base.Text.{Text, text_eq}
use cocodb.Studio.Shell.{
  Theme, light, dark, App, theme_name, is_dark, initial_theme, apply_theme, toggle_theme,
  fetch_data, data_fetched, mount, Event, select_view, toggles_theme, timer_ticks, refreshes,
  retries, poll_answers, view_throws, step, run,
}

module _ {Stats : Type 0} where
  -- The document and the storage show the theme.
  abbrev pub Themed : App Stats → Type 0
  Themed a = (a.root_dark ≡ is_dark a.theme) × (a.saved ≡ some (theme_name a.theme))

  step-Themed : (a : App Stats) (e : Event Stats) → Themed a → Themed (step a e)
  unfolding step toggle_theme apply_theme fetch_data data_fetched
  step-Themed a (select_view v) h = h
  step-Themed a toggles_theme h = (refl, refl)
  step-Themed a timer_ticks h = h
  step-Themed a refreshes h = if_holds Themed a.loading a (fetch_data a) (λ y. h) (λ n. h)
  step-Themed a retries h = h
  step-Themed a (poll_answers s c t) h =
      if_holds Themed (a.polls == 0) a (data_fetched s c t a) (λ y. h) (λ n. h)
  step-Themed a (view_throws e) h = thrown a.error
    where
      thrown :
          (o : Option Text) → Themed (elim o [ none ↦ record a { error = some e } | some _ ↦ a ])
      thrown none = h
      thrown (some m) = h

  run-Themed : (es : List (Event Stats)) (a : App Stats) → Themed a → Themed (run a es)
  run-Themed [] a h = h
  run-Themed (e ∷ es) a h = run-Themed es (step a e) (step-Themed a e h)

initial_theme-theme_name : (t : Theme) → initial_theme (some (theme_name t)) ≡ t
unfolding initial_theme theme_name text_eq
initial_theme-theme_name light = refl
initial_theme-theme_name dark = refl

module _ (Stats : Type 0) where
  abbrev pub started : Option Text → App Stats
  started saved = mount saved

  mount-Themed : (saved : Option Text) → Themed (started saved)
  unfolding mount apply_theme fetch_data
  mount-Themed saved = (refl, refl)

  -- After any events the root's class is the theme's, and an application that is loaded next from
  -- the same storage starts with the theme that this one ended with.
  pub theme_persists :
      (saved : Option Text) (es : List (Event Stats))
      → let a = run (started saved) es in
        (a.root_dark ≡ is_dark a.theme) × (initial_theme a.saved ≡ a.theme)
  theme_persists saved es =
      let a = run (started saved) es in
      let h = run-Themed es (started saved) (mount-Themed saved) in
      (h.0, ap initial_theme h.1 ∙ initial_theme-theme_name a.theme)
