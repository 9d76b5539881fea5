-- ===== src/Dashboard/Health/Tabs.antt =====
-- dashboard/frontend/src/App.tsx: the tabs of the page and the panels that it renders for them.
use cocodb.Base.{◌≡◌, ◌≢◌, ◌||◌, refl, Bool, true, false, List, [], ◌∷◌, ◌++◌, if◌then◌else◌}

pub data Tab : Type 0 where
  overview engine queues cluster prometheus : Tab

-- The strict equality of two tabs.
unfoldable pub same_tab : Tab → Tab → Bool
same_tab overview overview = true
same_tab engine engine = true
same_tab queues queues = true
same_tab cluster cluster = true
same_tab prometheus prometheus = true
same_tab _ _ = false

-- The buttons of the bar, in its order.
unfoldable pub navigation : List Tab
navigation = overview ∷ cluster ∷ engine ∷ queues ∷ prometheus ∷ []

-- `activeTab === tab && …`.
render_if : Tab → Tab → List Tab
unfolding same_tab
render_if active tab = if same_tab active tab then tab ∷ [] else []

-- The panels of the page, by the tab that each is rendered for.
unfoldable pub panels : Tab → List Tab
unfolding render_if
panels active =
    render_if active overview
    ++ (render_if active cluster ++ (render_if active engine ++ render_if active prometheus))

pub mem_tab : Tab → List Tab → Bool
unfolding same_tab
mem_tab t [] = false
mem_tab t (u ∷ us) = same_tab t u || mem_tab t us

-- Every tab of the bar but one shows its own panel and no other; the tab of the queues, which can be
-- selected too, shows no panel.
pub panels-of_tab :
    (t : Tab)
    → (mem_tab t navigation ≡ true) × ((t ≢ queues → panels t ≡ t ∷ []) × (panels queues ≡ []))
unfolding panels navigation mem_tab
panels-of_tab overview = (refl, ((λ h. refl), refl))
panels-of_tab engine = (refl, ((λ h. refl), refl))
panels-of_tab queues = (refl, ((λ h. absurd (h refl)), refl))
panels-of_tab cluster = (refl, ((λ h. refl), refl))
panels-of_tab prometheus = (refl, ((λ h. refl), refl))
