-- ===== src/Studio/Overview/Cards.antt =====
-- DashboardView.tsx: the texts of the cards, and the bars of queues and events.
use cocodb.Base.{ℕ, List, [], ◌∷◌, ◌++◌, length}
use cocodb.Base.Text.{Text, codes}
use cocodb.Base.Decimal.{decimal}
use cocodb.Studio.Shell.{ViewType, queues, pubsub}
use cocodb.Studio.Overview.{Figures}

pub record Card : Type 0 where
  pub title : Text
  pub value : Text
  pub unit : Text
  pub detail : Text

unfoldable pub wal_card : Figures → Card
wal_card f = record {
  title = codes "WAL Log Sequence (LSN)";
  value = codes "#" ++ decimal f.last_lsn;
  unit = [];
  detail = codes "Txn ID #" ++ (decimal f.last_txn_id ++ codes " | SyncNormal");
}

unfoldable pub schema_card : Figures → Card
schema_card f = record {
  title = codes "Schema Objects";
  value = decimal f.schema_objects;
  unit = codes "total";
  detail =
      decimal (length f.collections)
      ++ (codes " Colls, "
          ++ (decimal (length f.buckets)
              ++ (codes " Buckets, " ++ (decimal (length f.queues) ++ codes " Queues"))));
}

-- `locale` is `toLocaleString()`.
module _ (locale : ℕ → Text) where
  unfoldable pub storage_card : Figures → Card
  storage_card f = record {
    title = codes "Allocated Storage";
    value = f.size_mb;
    unit = codes "MB";
    detail = locale f.page_count ++ codes " pages × 16 KiB";
  }

  unfoldable pub cache_card : Figures → Card
  cache_card f = record {
    title = codes "16-Partition LRU Cache";
    value = f.hit_rate ++ codes "%";
    unit = [];
    detail = locale f.hits ++ (codes " hits / " ++ (locale f.misses ++ codes " misses"));
  }

  unfoldable pub kpi_cards : Figures → List Card
  unfolding storage_card cache_card wal_card schema_card
  kpi_cards f = storage_card f ∷ (cache_card f ∷ (wal_card f ∷ (schema_card f ∷ [])))

-- A bar's counts under their titles, and the view that its button opens.
pub record Bar : Type 0 where
  pub counts : List (Text × ℕ)
  pub opens : ViewType

unfoldable pub queue_bar : Figures → Bar
queue_bar f = record {
  counts =
      (codes "Ready Tasks", f.ready_tasks)
      ∷ ((codes "In-Flight (Leased)", f.in_flight_tasks)
          ∷ ((codes "Dead-Letter (DLQ)", f.dlq_tasks) ∷ []));
  opens = queues;
}

unfoldable pub pubsub_bar : Figures → Bar
pubsub_bar f = record {
  counts = (codes "Live Session Events", f.pubsub_events) ∷ [];
  opens = pubsub;
}
