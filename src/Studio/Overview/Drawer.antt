-- ===== src/Studio/Overview/Drawer.antt =====
-- DashboardView.tsx: the drawer of the Prometheus exporter and the address that it copies.
use cocodb.Base.{Bool, false, not, Option, none, some, List, [], ◌∷◌, ◌++◌, if◌then◌else◌}
use cocodb.Base.Text.{Text, codes}
use cocodb.Base.CopyLight.{CopyLight, no_copy, copy, copy_timer_fires}

pub record Drawer : Type 0 where
  pub show_prometheus : Bool
  pub light : CopyLight

pub data Event : Type 0 where
  toggles copies copy_timer : Event

abbrev pub mount : Drawer
mount = record { show_prometheus = false; light = no_copy }

-- What an open drawer shows: the copy button's label and the address to scrape.
pub record Shown : Type 0 where
  pub copy_label : Text
  pub target : Text

unfoldable pub drawer : (origin : Text) → Drawer → Option Shown
drawer origin d =
    if d.show_prometheus
    then some (record {
      copy_label = if d.light.copied then codes "Copied URL" else codes "Copy Scrape URL";
      target = origin ++ codes "/api/metrics";
    })
    else none

-- `origin` is `window.location.origin`, and `secure` is `window.isSecureContext`.
module _ (secure : Bool) (origin : Text) where
  unfoldable pub handle_copy_metrics : Drawer → Drawer
  handle_copy_metrics d = record d { light = copy secure (origin ++ codes "/api/metrics") d.light }

  -- The copy button is there only while the drawer is open.
  unfoldable pub step : Drawer → Event → Drawer
  unfolding handle_copy_metrics copy copy_timer_fires
  step d toggles = record d { show_prometheus = not d.show_prometheus }
  step d copies = if d.show_prometheus then handle_copy_metrics d else d
  step d copy_timer = record d { light = copy_timer_fires d.light }

  abbrev pub run : Drawer → List Event → Drawer
  run d [] = d
  run d (e ∷ es) = run (step d e) es
