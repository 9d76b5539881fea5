-- ===== src/Studio/Buckets.antt =====
-- studio/frontend/src/views/BucketsView.tsx: the entries of a bucket, scanned by a prefix.
pub mod Pending
pub mod Overtaken
use cocodb.Base.{
  ℕ, suc, Bool, true, false, Option, none, some, List, [], ◌∷◌, ◌++◌, if◌then◌else◌, get_elem?,
  erase_idx,
}
use cocodb.Base.Text.{Text, codes, is_empty, or_text, text_eq, trim}
use cocodb.Base.Result.{Result, ok, err}
use cocodb.Studio.Json.{Number, nat}
use cocodb.Studio.Number.{to_number}
use cocodb.Studio.Api.{HttpRequest}
use cocodb.Studio.Api.Endpoints.{scan_bucket, put_kv, delete_kv, increment_kv}

pub record KvEntry : Type 0 where
  pub key : Text
  pub value : Text
  pub size : ℕ

-- What a closure of the component keeps of the render in which it was made.
pub record Closure : Type 0 where
  pub selected_bucket : Text
  pub prefix : Text

-- A function of the component that waits for the answer to its request.
pub data Task : Type 0 where
  scanning : HttpRequest → Task
  putting deleting incrementing : Closure → HttpRequest → Task

-- `refreshes` counts the calls of `onRefreshCatalog`.
pub record View : Type 0 where
  pub selected_bucket : Text
  pub entries : List KvEntry
  pub loading : Bool
  pub error : Option Text
  pub prefix : Text
  pub is_modal_open : Bool
  pub key_input : Text
  pub val_input : Text
  pub ttl_input : Text
  pub tasks : List Task
  pub refreshes : ℕ

abbrev pub closure : View → Closure
closure v = record { selected_bucket = v.selected_bucket; prefix = v.prefix }

abbrev pub mount : View
mount = record {
  selected_bucket = [];
  entries = [];
  loading = false;
  error = none;
  prefix = [];
  is_modal_open = false;
  key_input = [];
  val_input = [];
  ttl_input = [];
  tasks = [];
  refreshes = 0;
}

unfoldable pub load_entries : Closure → View → View
load_entries c v = if is_empty c.selected_bucket then v else record v {
  loading = true;
  error = none;
  tasks = v.tasks ++ scanning (scan_bucket c.selected_bucket c.prefix 100) ∷ [];
}

entries_or_none : Option (List KvEntry) → List KvEntry
entries_or_none none = []
entries_or_none (some es) = es

-- `loadEntries` from its await on.
unfoldable pub entries_loaded : Result (Option (List KvEntry)) → View → View
unfolding entries_or_none
entries_loaded (ok es) v = record v { entries = entries_or_none es; loading = false }
entries_loaded (err e) v = record v {
  error = some (or_text e (codes "Failed to scan bucket"));
  loading = false;
}

-- `Number(ttlInput)`, unless the input is empty. NaN is sent as null, which the server takes for no
-- time to live, as it takes a missing one.
ttl_seconds : Text → Option Number
ttl_seconds t = if is_empty t then none else to_number t

pub put_task : View → Task
unfolding ttl_seconds
put_task v =
    putting (closure v) (put_kv v.selected_bucket v.key_input v.val_input (ttl_seconds v.ttl_input))

unfoldable pub handle_put : View → View
unfolding put_task
handle_put v =
    if is_empty (trim v.key_input)
    then record v { error = some (codes "Key cannot be empty") }
    else record v { error = none; tasks = v.tasks ++ put_task v ∷ [] }

unfoldable pub put_done : Closure → Result (Option (List KvEntry)) → View → View
unfolding load_entries
put_done c (ok es) v =
    let u =
      load_entries c
        (record v { is_modal_open = false; key_input = []; val_input = []; ttl_input = [] }) in
    record u { refreshes = suc u.refreshes }
put_done c (err e) v = record v { error = some (or_text e (codes "Failed to put key-value")) }

unfoldable pub handle_delete : Text → Bool → View → View
handle_delete key confirmed v =
    if confirmed
    then record v { tasks = v.tasks ++ deleting (closure v) (delete_kv v.selected_bucket key) ∷ [] }
    else v

unfoldable pub delete_done : Closure → Result (Option (List KvEntry)) → View → View
unfolding load_entries
delete_done c (ok es) v = load_entries c v
delete_done c (err e) v = record v { error = some (or_text e (codes "Failed to delete key")) }

unfoldable pub handle_increment : Text → ℕ → View → View
handle_increment key delta v = record v {
  tasks = v.tasks ++ incrementing (closure v) (increment_kv v.selected_bucket key (nat delta)) ∷ [];
}

unfoldable pub increment_done : Closure → Result (Option (List KvEntry)) → View → View
unfolding load_entries
increment_done c (ok es) v = load_entries c v
increment_done c (err e) v = record v {
  error = some (or_text e (codes "Increment failed (is value an 8-byte integer?)"));
}

unfoldable pub resume : Task → Result (Option (List KvEntry)) → View → View
unfolding entries_loaded put_done delete_done increment_done
resume (scanning r) answer v = entries_loaded answer v
resume (putting c r) answer v = put_done c answer v
resume (deleting c r) answer v = delete_done c answer v
resume (incrementing c r) answer v = increment_done c answer v

unfoldable pub resume_task : Option Task → ℕ → Result (Option (List KvEntry)) → View → View
unfolding resume
resume_task none i answer v = v
resume_task (some t) i answer v = resume t answer (record v { tasks = erase_idx v.tasks i })

-- The two effects after a render: the first bucket is selected where none is, and a new selection is
-- scanned.
unfoldable pub select_first : List Text → Text → Text
select_first [] current = current
select_first (n ∷ names) current = or_text current n

unfoldable pub after_select : Text → View → View
unfolding load_entries
after_select before v = if text_eq before v.selected_bucket then v else load_entries (closure v) v

-- The rows of the table, which is not there while the bucket is scanned.
pub data Table : Type 0 where
  scanning_message empty_message : Table
  rows : List KvEntry → Table

rows_or_empty : List KvEntry → Table
rows_or_empty [] = empty_message
rows_or_empty (e ∷ es) = rows (e ∷ es)

unfoldable pub table : View → Table
unfolding rows_or_empty
table v = if v.loading then scanning_message else rows_or_empty v.entries

shown_row : View → ℕ → Option KvEntry
shown_row v row = if v.loading then none else get_elem? v.entries row

on_row : (KvEntry → View → View) → Option KvEntry → View → View
on_row f none v = v
on_row f (some e) v = f e v

-- The user's actions, the catalogue's arrival and the answers.
pub data Event : Type 0 where
  catalog_arrives : List Text → Event
  select type_prefix type_key type_value type_ttl : Text → Event
  scan open_put cancel save : Event
  delete : (row : ℕ) (confirmed : Bool) → Event
  increment : (row : ℕ) → Event
  settle : (task : ℕ) → Result (Option (List KvEntry)) → Event

unfoldable pub step : View → Event → View
unfolding load_entries handle_put handle_delete handle_increment resume_task select_first
    after_select shown_row on_row
step v (catalog_arrives names) =
    after_select v.selected_bucket
      (record v { selected_bucket = select_first names v.selected_bucket })
step v (select name) = after_select v.selected_bucket (record v { selected_bucket = name })
step v (type_prefix t) = record v { prefix = t }
step v (type_key t) = record v { key_input = t }
step v (type_value t) = record v { val_input = t }
step v (type_ttl t) = record v { ttl_input = t }
step v scan = load_entries (closure v) v
step v open_put =
    if is_empty v.selected_bucket
    then v
    else record v { key_input = []; val_input = []; ttl_input = []; is_modal_open = true }
step v cancel = record v { is_modal_open = false }
step v save = if v.is_modal_open then handle_put v else v
step v (delete row confirmed) = on_row (λ e. handle_delete e.key confirmed) (shown_row v row) v
step v (increment row) = on_row (λ e. handle_increment e.key 1) (shown_row v row) v
step v (settle i answer) = resume_task (get_elem? v.tasks i) i answer v

abbrev pub run : View → List Event → View
run v [] = v
run v (e ∷ es) = run (step v e) es
