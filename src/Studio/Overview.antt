-- ===== src/Studio/Overview.antt =====
-- studio/frontend/src/views/DashboardView.tsx and components/Header.tsx: the figures of the database.
pub mod Counts
pub mod Cards
pub mod Drawer
use cocodb.Base.{
  ℕ, ◌+◌, ◌*◌, ◌/◌, ◌%◌, Bool, true, false, Option, none, some, List, [], ◌∷◌, ◌++◌, map,
  if◌then◌else◌, length,
}
use cocodb.Base.Text.{Text, codes}
use cocodb.Base.Decimal.{decimal}
use cocodb.Studio.Shell.{
  ViewType, collections, buckets, queues, pubsub, query, maintenance, CatalogObject, CatalogData,
  Theme, light, dark,
}

-- A hit rate is a double between 0 and 1: whether it is zero, and `(rate * 100).toFixed(1)`.
pub record Rates : Type 1 where
  pub Rate : Type 0
  pub is_zero : Rate → Bool
  pub percent : Rate → Text

-- A counter that may be missing is `none`.
pub record DbStats (Rate : Type 0) : Type 0 where
  pub page_count : ℕ
  pub cache_hits : ℕ
  pub cache_misses : ℕ
  pub cache_hit_rate : Rate
  pub last_lsn : ℕ
  pub last_txn_id : ℕ
  pub queue_ready_tasks : Option ℕ
  pub queue_inflight_tasks : Option ℕ
  pub queue_dlq_tasks : Option ℕ
  pub pubsub_events_count : Option ℕ

or_zero : Option ℕ → ℕ
or_zero none = 0
or_zero (some n) = n

objects : Option CatalogData → (CatalogData → Option (List CatalogObject)) → List CatalogObject
objects none field = []
objects (some c) field = elim (field c) [ none ↦ [] | some os ↦ os ]

-- A number with two decimals, for pages of 16 KiB in MiB.
pub size_text : ℕ → Text
size_text page_count =
    let hundredths = (200 * (page_count * 16) + 1024) / 2048 in
    decimal (hundredths / 100)
    ++ (codes "." ++ (48 + hundredths / 10 % 10) ∷ (48 + hundredths % 10) ∷ [])

-- What the cards of the view show.
pub record Figures : Type 0 where
  pub size_mb : Text
  pub page_count : ℕ
  pub hit_rate : Text
  pub hits : ℕ
  pub misses : ℕ
  pub last_lsn : ℕ
  pub last_txn_id : ℕ
  pub ready_tasks : ℕ
  pub in_flight_tasks : ℕ
  pub dlq_tasks : ℕ
  pub pubsub_events : ℕ
  pub buckets : List CatalogObject
  pub collections : List CatalogObject
  pub queues : List CatalogObject
  pub schema_objects : ℕ

module _ (rates : Rates) where
  open rates use {Rate, is_zero, percent}

  -- A rate of zero counts as missing.
  unfoldable pub hit_rate : Option (DbStats Rate) → Text
  hit_rate none = codes "100.0"
  hit_rate (some s) = if is_zero s.cache_hit_rate then codes "100.0" else percent s.cache_hit_rate

  counted : Option (DbStats Rate) → (DbStats Rate → ℕ) → ℕ
  counted none field = 0
  counted (some s) field = field s

  unfoldable pub figures : Option (DbStats Rate) → Option CatalogData → Figures
  unfolding size_text hit_rate counted objects or_zero
  figures stats catalog =
      let bs = objects catalog (λ c. c.buckets) in
      let cs = objects catalog (λ c. c.collections) in
      let qs = objects catalog (λ c. c.queues) in
      record {
        size_mb = size_text (counted stats (λ s. s.page_count));
        page_count = counted stats (λ s. s.page_count);
        hit_rate = hit_rate stats;
        hits = counted stats (λ s. s.cache_hits);
        misses = counted stats (λ s. s.cache_misses);
        last_lsn = counted stats (λ s. s.last_lsn);
        last_txn_id = counted stats (λ s. s.last_txn_id);
        ready_tasks = counted stats (λ s. or_zero s.queue_ready_tasks);
        in_flight_tasks = counted stats (λ s. or_zero s.queue_inflight_tasks);
        dlq_tasks = counted stats (λ s. or_zero s.queue_dlq_tasks);
        pubsub_events = counted stats (λ s. or_zero s.pubsub_events_count);
        buckets = bs;
        collections = cs;
        queues = qs;
        schema_objects = length cs + length bs + length qs;
      }

  -- The header's line of the statistics.
  unfoldable pub header_rate : Option (DbStats Rate) → Option Text
  header_rate none = none
  header_rate (some s) = some (percent s.cache_hit_rate ++ codes "%")

-- A card that lists objects: a message, or a line and the view that a click on it opens.
pub data ObjectList : Type 0 where
  no_objects : (message : Text) → ObjectList
  lines : List (Text × Text × ViewType) → ObjectList

object_line : ViewType → CatalogObject → Text × Text × ViewType
object_line opens o = (
  o.name,
  codes "ObjectID: " ++ (decimal o.id ++ (codes " · Root: Page #" ++ decimal o.root)),
  opens,
)

pub collections_card : List CatalogObject → ObjectList
unfolding object_line
collections_card [] = no_objects (codes "No document collections found in database.")
collections_card (o ∷ os) = lines (map (object_line collections) (o ∷ os))

pub buckets_card : List CatalogObject → ObjectList
unfolding object_line
buckets_card [] = no_objects (codes "No Key/Value buckets found in database.")
buckets_card (o ∷ os) = lines (map (object_line buckets) (o ∷ os))
