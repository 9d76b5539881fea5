-- ===== src/Studio/Overview/Counts.antt =====
-- DashboardView.tsx and Header.tsx: what the same statistics show in two places, and the lists that
-- the number of objects counts.
use cocodb.Base.{ℕ, ◌+◌, ◌≡◌, refl, true, Option, none, some, List, [], ◌∷◌, length, length-map}
use cocodb.Base.Text.{codes}
use cocodb.Studio.Shell.{CatalogObject, CatalogData, collections, buckets}
use cocodb.Studio.Overview.{
  Rates, DbStats, hit_rate, figures, header_rate, ObjectList, no_objects, lines, collections_card,
  buckets_card, object_line,
}

-- The number of lines of a card.
pub line_count : ObjectList → ℕ
line_count (no_objects m) = 0
line_count (lines ls) = length ls

collections-count : (os : List CatalogObject) → line_count (collections_card os) ≡ length os
unfolding line_count collections_card
collections-count [] = refl
collections-count (o ∷ os) = length-map (object_line collections) (o ∷ os)

buckets-count : (os : List CatalogObject) → line_count (buckets_card os) ≡ length os
unfolding line_count buckets_card
buckets-count [] = refl
buckets-count (o ∷ os) = length-map (object_line buckets) (o ∷ os)

module _ (rates : Rates) where
  open rates use {Rate, is_zero, percent}

  -- The number of schema objects is that of the lines of the two cards and of the queues.
  pub schema_objects-count :
      (stats : Option (DbStats Rate)) (catalog : Option CatalogData)
      → let f = figures rates stats catalog in
        f.schema_objects
        ≡ line_count (collections_card f.collections)
          + line_count (buckets_card f.buckets)
          + length f.queues
  unfolding figures
  schema_objects-count stats catalog =
      let f = figures rates stats catalog in
      rw (collections-count f.collections, buckets-count f.buckets) refl

  -- A database whose cache hit rate is zero, which is written 0.0, is shown with 100.0 percent in
  -- the view, as one without statistics is, and with 0.0% in the header above it.
  pub zero_rate_shown :
      (s : DbStats Rate) (catalog : Option CatalogData)
      → is_zero s.cache_hit_rate ≡ true
      → percent s.cache_hit_rate ≡ codes "0.0"
      → ((figures rates (some s) catalog).hit_rate ≡ codes "100.0")
        × ((figures rates none catalog).hit_rate ≡ codes "100.0")
        × (header_rate rates (some s) ≡ some (codes "0.0%"))
  unfolding figures hit_rate header_rate
  zero_rate_shown s catalog z p = (rw z refl, refl, rw p refl)
