-- ===== src/Studio/Buckets/Pending.antt =====
-- BucketsView.tsx: the message that a bucket is scanned stands only while a scan is pending.
use cocodb.Base.{
  ℕ, zero, suc, ◌≡◌, refl, ◌∙◌, ap, Bool, true, false, Option, none, some, List, [], ◌∷◌, ◌++◌,
  ◌||◌, if_holds, arith, Option-cases, inl, inr, get_elem?, erase_idx,
}
use cocodb.Base.Text.{codes, Text, is_empty, text_eq, trim}
use cocodb.Base.Result.{Result, ok, err}
use cocodb.Studio.Api.{HttpRequest}
use cocodb.Studio.Api.Endpoints.{scan_bucket}
use cocodb.Studio.Buckets.{
  KvEntry, Closure, Task, scanning, putting, deleting, incrementing, View, closure, mount,
  load_entries, entries_loaded, handle_put, put_task, put_done, handle_delete, delete_done,
  handle_increment, increment_done, resume, resume_task, select_first, after_select, shown_row,
  on_row, Event, catalog_arrives, select, type_prefix, type_key, type_value, type_ttl, scan,
  open_put, cancel, save, delete, increment, settle, step, run,
}

is_scan : Task → Bool
is_scan (scanning r) = true
is_scan (putting c r) = false
is_scan (deleting c r) = false
is_scan (incrementing c r) = false

pub has_scan : List Task → Bool
unfolding is_scan
has_scan [] = false
has_scan (t ∷ ts) = is_scan t || has_scan ts

-- The message of the table against the requests that are pending.
abbrev pub Waits : View → Type 0
Waits v = v.loading ≡ true → has_scan v.tasks ≡ true

has_scan-append : (ts us : List Task) → has_scan (ts ++ us) ≡ (has_scan ts || has_scan us)
unfolding has_scan
has_scan-append [] us = refl
has_scan-append (t ∷ ts) us = ground (arith, has_scan-append ts us)

-- One more task leaves a scan pending.
has_scan-more : (ts us : List Task) → has_scan ts ≡ true → has_scan (ts ++ us) ≡ true
has_scan-more ts us h = rw (has_scan-append ts us, h) refl

has_scan-scanning : (ts : List Task) (r : HttpRequest) → has_scan (ts ++ scanning r ∷ []) ≡ true
unfolding has_scan is_scan
has_scan-scanning [] r = refl
has_scan-scanning (t ∷ ts) r = ground (arith, has_scan-scanning ts r)

has_scan-erase_idx :
    (i : ℕ) (ts : List Task) (t : Task)
    → get_elem? ts i ≡ some t
    → is_scan t ≡ false
    → has_scan (erase_idx ts i) ≡ has_scan ts
unfolding has_scan
has_scan-erase_idx i [] t e n = refl
has_scan-erase_idx zero (u ∷ ts) t e n = ground arith
has_scan-erase_idx (suc i) (u ∷ ts) t e n = ap (is_scan u ||◌) (has_scan-erase_idx i ts t e n)

load_entries-Waits : (c : Closure) (v : View) → Waits v → Waits (load_entries c v)
unfolding load_entries
load_entries-Waits c v h =
    if_holds Waits (is_empty c.selected_bucket) v
      (record v {
        loading = true;
        error = none;
        tasks = v.tasks ++ scanning (scan_bucket c.selected_bucket c.prefix 100) ∷ [];
      })
      (λ y. h) (λ n. λ l. has_scan-scanning v.tasks (scan_bucket c.selected_bucket c.prefix 100))

after_select-Waits : (before : Text) (v : View) → Waits v → Waits (after_select before v)
unfolding after_select
after_select-Waits before v h =
    if_holds Waits (text_eq before v.selected_bucket) v (load_entries (closure v) v) (λ y. h)
      (λ n. load_entries-Waits (closure v) v h)

resume-Waits :
    (t : Task) (answer : Result (Option (List KvEntry))) (i : ℕ) (v : View)
    → get_elem? v.tasks i ≡ some t
    → Waits v
    → Waits (resume t answer (record v { tasks = erase_idx v.tasks i }))
unfolding resume entries_loaded put_done delete_done increment_done is_scan
resume-Waits (scanning r) (ok es) i v e h = λ l. cc
resume-Waits (scanning r) (err m) i v e h = λ l. cc
resume-Waits (putting c r) (ok es) i v e h =
    load_entries-Waits c
      (record v {
        is_modal_open = false;
        key_input = [];
        val_input = [];
        ttl_input = [];
        tasks = erase_idx v.tasks i;
      })
      (λ l. has_scan-erase_idx i v.tasks (putting c r) e refl ∙ h l)
resume-Waits (putting c r) (err m) i v e h =
    λ l. has_scan-erase_idx i v.tasks (putting c r) e refl ∙ h l
resume-Waits (deleting c r) (ok es) i v e h =
    load_entries-Waits c (record v { tasks = erase_idx v.tasks i })
      (λ l. has_scan-erase_idx i v.tasks (deleting c r) e refl ∙ h l)
resume-Waits (deleting c r) (err m) i v e h =
    λ l. has_scan-erase_idx i v.tasks (deleting c r) e refl ∙ h l
resume-Waits (incrementing c r) (ok es) i v e h =
    load_entries-Waits c (record v { tasks = erase_idx v.tasks i })
      (λ l. has_scan-erase_idx i v.tasks (incrementing c r) e refl ∙ h l)
resume-Waits (incrementing c r) (err m) i v e h =
    λ l. has_scan-erase_idx i v.tasks (incrementing c r) e refl ∙ h l

on_row-Waits :
    (f : KvEntry → View → View) (o : Option KvEntry) (v : View)
    → ((e : KvEntry) → Waits (f e v))
    → Waits v
    → Waits (on_row f o v)
unfolding on_row
on_row-Waits f none v k h = h
on_row-Waits f (some e) v k h = k e

handle_put-Waits : (v : View) → Waits v → Waits (handle_put v)
unfolding handle_put
handle_put-Waits v h =
    if_holds Waits (is_empty (trim v.key_input))
      (record v { error = some (codes "Key cannot be empty") })
      (record v { error = none; tasks = v.tasks ++ put_task v ∷ [] }) (λ y. h)
      (λ n. λ l. has_scan-more v.tasks (put_task v ∷ []) (h l))

handle_delete-Waits :
    (key : Text) (confirmed : Bool) (v : View) → Waits v → Waits (handle_delete key confirmed v)
unfolding handle_delete
handle_delete-Waits key true v h = λ l. has_scan-more v.tasks _ (h l)
handle_delete-Waits key false v h = h

step-Waits : (v : View) (e : Event) → Waits v → Waits (step v e)
unfolding step resume_task handle_put handle_delete handle_increment
step-Waits v (catalog_arrives names) h =
    after_select-Waits v.selected_bucket
      (record v { selected_bucket = select_first names v.selected_bucket }) h
step-Waits v (select name) h =
    after_select-Waits v.selected_bucket (record v { selected_bucket = name }) h
step-Waits v (type_prefix t) h = h
step-Waits v (type_key t) h = h
step-Waits v (type_value t) h = h
step-Waits v (type_ttl t) h = h
step-Waits v scan h = load_entries-Waits (closure v) v h
step-Waits v open_put h =
    if_holds Waits (is_empty v.selected_bucket) v
      (record v { key_input = []; val_input = []; ttl_input = []; is_modal_open = true }) (λ y. h)
      (λ n. h)
step-Waits v cancel h = h
step-Waits v save h =
    if_holds Waits v.is_modal_open (handle_put v) v (λ y. handle_put-Waits v h) (λ n. h)
step-Waits v (delete row confirmed) h =
    on_row-Waits (λ e. handle_delete e.key confirmed) (shown_row v row) v
      (λ e. handle_delete-Waits e.key confirmed v h) h
step-Waits v (increment row) h =
    on_row-Waits (λ e. handle_increment e.key 1) (shown_row v row) v
      (λ e. λ l. has_scan-more v.tasks _ (h l)) h
step-Waits v (settle i answer) h = elim (Option-cases (get_elem? v.tasks i)) [
  | inl e ↦ rw e h
  | inr (t, e) ↦ rw e (resume-Waits t answer i v e h)
]

run-Waits : (es : List Event) (v : View) → Waits v → Waits (run v es)
run-Waits [] v h = h
run-Waits (e ∷ es) v h = run-Waits es (step v e) (step-Waits v e h)

-- In any session, while the table says that the bucket is scanned, a scan is pending.
pub scan_pending :
    (es : List Event) → (run mount es).loading ≡ true → has_scan (run mount es).tasks ≡ true
scan_pending es = run-Waits es mount (λ l. cc)
