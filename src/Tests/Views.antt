-- ===== src/Tests/Views.antt =====
-- The views of the studio other than that of collections.
use cocodb.Base.{
  ℕ, zero, ◌/◌, ◌++◌, ◌%◌, ◌≤◌, ◌≡◌, refl, true, false, Option, none, some, List, [], ◌∷◌, length,
  ◌==◌,
}
use cocodb.Base.Text.{Text, codes, text_eq}
use cocodb.Base.Decimal.{decimal}
use cocodb.Base.Result.{Result, ok, err}
use cocodb.Studio.Json.{Json, Number, finite, Fields, field, string, end}
use cocodb.Studio.Collections.Table.{all_keys, Distinct, Fits, body, table-Fits}
use cocodb.Studio.Buckets.{KvEntry, table, rows}
use cocodb.Studio.Buckets.Pending.{has_scan, scan_pending}
use cocodb.Studio.Buckets.Overtaken.{overtaken_scan}
use cocodb.Base.Flight.{Flight}
use cocodb.Studio.Maintenance.Flights.{single_flights}
use cocodb.Studio.Console.{QueryResult}
use cocodb.Server.Query.{serve_query}
use cocodb.Studio.Overview.{Rates, DbStats}
use cocodb.Studio.Collections
use cocodb.Studio.Buckets
use cocodb.Studio.Maintenance
use cocodb.Studio.Console
use cocodb.Studio.Queues

abbrev entry : Text → KvEntry
entry key = record { key = key; value = codes "v"; size = 1 }

abbrev opened : List Buckets.Event
opened = Buckets.select (codes "users") ∷ Buckets.settle 0 (ok none) ∷ Buckets.scan ∷ []

opened_loads : (Buckets.run Buckets.mount opened).loading ≡ true
unfolding Buckets.step text_eq
opened_loads = refl

scan_pending_example : has_scan (Buckets.run Buckets.mount opened).tasks ≡ true
scan_pending_example = scan_pending opened opened_loads

overtaken_scan_example :
    let u = Buckets.run Buckets.mount (
      Buckets.select (codes "a")
      ∷ Buckets.select (codes "b")
      ∷ Buckets.settle 1 (ok (some []))
      ∷ Buckets.settle 0 (ok (some (entry (codes "k") ∷ [])))
      ∷ []) in
    (u.selected_bucket ≡ codes "b") × (table u ≡ rows (entry (codes "k") ∷ [])) × (u.tasks ≡ [])
overtaken_scan_example =
    overtaken_scan Buckets.mount (codes "a") (codes "b") [] [] (entry (codes "k")) refl
      (unfold text_eq in refl) (unfold text_eq in refl) refl refl

abbrev tools : List Maintenance.Event
tools = Maintenance.run_check ∷ Maintenance.run_check ∷ Maintenance.backup ∷ []

single_flights_example :
    let v = Maintenance.run Maintenance.mount tools in
    Flight v.loading_check v.checks
    × Flight v.loading_checkpoint v.checkpoints
    × Flight v.loading_backup v.backups
single_flights_example = single_flights tools

abbrev names : List Text
names = codes "users" ∷ []

-- Whole numbers as they are written without an exponent.
abbrev int_of : Number → ℕ
int_of (finite false m small zero) = m
int_of n = 0

abbrev resting : Console.View
resting = record (Console.mount names) { selected_collection = codes "users" }

abbrev awaiting : Console.View
awaiting = Console.step (Console.mount names) (Console.execute false)

-- A query with the limit 20 that matches nothing.
abbrev asked : List Console.Event
asked =
    Console.execute false
    ∷ Console.answers (ok (serve_query int_of [] [] (Console.console_request false resting)))
    ∷ []

abbrev no_number : Text → Option Number
no_number t = none

abbrev no_json : Text → Result Json
no_json t = err t

-- Rates in tenths of a percent.
abbrev per_mille : Rates
per_mille = record {
  Rate = ℕ;
  is_zero = λ r. r == 0;
  percent = λ r. decimal (r / 10) ++ (codes "." ++ decimal (r % 10));
}

abbrev fresh : DbStats ℕ
fresh = record {
  page_count = 8;
  cache_hits = 0;
  cache_misses = 4;
  cache_hit_rate = 0;
  last_lsn = 1;
  last_txn_id = 1;
  queue_ready_tasks = none;
  queue_inflight_tasks = none;
  queue_dlq_tasks = none;
  pubsub_events_count = none;
}

abbrev no_text : Json → Text
no_text j = []

abbrev ann : Fields
ann = field (codes "_id") (string (codes "a1")) (field (codes "age") (string (codes "30")) end)

abbrev loaded : Collections.View
loaded = record (Collections.mount names) { loading = false; documents = ann ∷ ann ∷ [] }

table-Fits_example :
    Distinct (all_keys loaded.documents)
    × (length (all_keys loaded.documents) ≤ 6)
    × Fits (length (all_keys loaded.documents)) (body no_text no_text loaded)
table-Fits_example = table-Fits no_text no_text loaded
