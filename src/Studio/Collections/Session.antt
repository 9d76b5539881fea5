-- ===== src/Studio/Collections/Session.antt =====
-- Whole sessions of the view of collections: the invariant of its requests, and the refinement of
-- the machine that shows the answer to one request.
use cocodb.Base.{
  ℕ, suc, ◌≡◌, refl, ◌⊎◌, inl, inr, Bool, false, Option, none, some, List, [], ◌∷◌, arith, ◌==◌,
  if◌then◌else◌, get_elem?, erase_idx, Bool-cases,
}
use cocodb.Base.Text.{Text}
use cocodb.Base.Result.{Result, ok, err}
use cocodb.Studio.Json.{Json, Fields}
use cocodb.Studio.Api.{HttpRequest}
use cocodb.Studio.Collections.{
  Task, loading_documents, saving, deleting, deferred, View, mount, closure, resume,
  handle_save_document, handle_delete,
}
use cocodb.Studio.Collections.Latest.{
  find_load, current, Inv, find_load-erase_idx, erase_idx-Below, load_documents-Inv,
  documents_loaded-Inv, load_id,
}
use cocodb.Studio.Collections.Events.{
  Event, catalog_arrives, select, type_filter_field, type_filter_op, type_filter_val, type_json,
  apply_filter, clear_filter, open_create, cancel_modal, save, close_document, show_document,
  open_edit, delete_document, settle, after_select, some_name, resume_task, shown_row, on_row, step,
  run,
}

after_select-Inv : (before : Text) (v : View) → Inv v → Inv (after_select before v)
unfolding after_select
after_select-Inv before v h =
    ground (arith, load_documents-Inv (closure v) v.selected_collection v h)

-- A view with the task at `i` taken out.
abbrev pub without : View → ℕ → View
without v i = record v { tasks = erase_idx v.tasks i }

module _ (t : Task) (i : ℕ) (v : View) (h : Inv v) (e : get_elem? v.tasks i ≡ some t) where
  -- What the removal of the task does to the current request.
  pub current-without :
      ((load_id t ≡ none) × (current (without v i) ≡ current v))
      ⊎ ((id : ℕ) × (r : HttpRequest) × (load_id t ≡ some (id, r))
          × (current (without v i) ≡ (if id == v.latest_request then none else current v))
          × (find_load id v.tasks ≡ some r))
  current-without =
      elim (find_load-erase_idx v.latest_request (suc v.latest_request) i v.tasks t h.fresh e) [
        | inl (p, q) ↦ inl (p, q)
        | inr (id, r, p, q, f, _) ↦ inr (id, r, p, q, f)
      ]

  without-Inv : load_id t ≡ none → Inv (without v i)
  without-Inv n = elim current-without [
    | inl (p, q) ↦ record {
      fresh = erase_idx-Below (suc v.latest_request) i v.tasks h.fresh;
      busy = rw q h.busy;
    }
    | inr (id, r, p, _, _) ↦ cc
  ]

resume-Inv :
    (t : Task) (i : ℕ) (answer : Result (Option (List Fields))) (v : View)
    → Inv v
    → get_elem? v.tasks i ≡ some t
    → Inv (resume t answer (without v i))
unfolding resume
resume-Inv (loading_documents id r) i answer v h e =
    documents_loaded-Inv id answer (without v i)
      (erase_idx-Below (suc v.latest_request) i v.tasks h.fresh)
      (λ ne. ground (arith, current-without (loading_documents id r) i v h e))
      (λ eq. ground (arith, current-without (loading_documents id r) i v h e))
resume-Inv (saving c r) i (ok docs) v h e =
    let w = without-Inv (saving c r) i v h e refl in
    let l =
      load_documents-Inv c c.selected_collection
        (record v { is_modal_open = false; tasks = erase_idx v.tasks i })
        (record { fresh = w.fresh; busy = w.busy }) in
    record { fresh = l.fresh; busy = l.busy }
resume-Inv (saving c r) i (err m) v h e =
    let w = without-Inv (saving c r) i v h e refl in record { fresh = w.fresh; busy = w.busy }
resume-Inv (deleting c r) i (ok docs) v h e =
    load_documents-Inv c c.selected_collection (without v i)
      (without-Inv (deleting c r) i v h e refl)
resume-Inv (deleting c r) i (err m) v h e =
    let w = without-Inv (deleting c r) i v h e refl in record { fresh = w.fresh; busy = w.busy }
resume-Inv (deferred c) i answer v h e =
    load_documents-Inv c c.selected_collection (without v i) (without-Inv (deferred c) i v h e refl)

resume_task-Inv :
    (o : Option Task) (i : ℕ) (answer : Result (Option (List Fields))) (v : View)
    → Inv v
    → get_elem? v.tasks i ≡ o
    → Inv (resume_task o i answer v)
unfolding resume_task
resume_task-Inv none i answer v h e = h
resume_task-Inv (some t) i answer v h e = resume-Inv t i answer v h e

-- A view that differs from a valid one neither in its requests nor in `loading`.
same-Inv :
    (v u : View)
    → Inv v
    → u.tasks ≡ v.tasks
    → u.latest_request ≡ v.latest_request
    → u.loading ≡ v.loading
    → Inv u
same-Inv v u h t l b = record { fresh = rw (t, l) h.fresh; busy = rw (b, t, l) h.busy }

module _ (parse : Text → Result Json) (stringify display : Json → Text) where
  handle_save_document-Inv : (v : View) → Inv v → Inv (handle_save_document parse display v)
  unfolding handle_save_document find_load
  handle_save_document-Inv v h = ground arith

  handle_delete-Inv :
      (doc : Fields) (confirmed : Bool) (v : View)
      → Inv v
      → Inv (handle_delete parse display doc confirmed v)
  unfolding handle_delete find_load
  handle_delete-Inv doc confirmed v h = ground arith

  clear-Inv : (v : View) → Inv v → Inv (step parse stringify display v clear_filter)
  unfolding step find_load
  clear-Inv v h = ground arith

  on_row-Inv :
      (f : Fields → View → View) (o : Option Fields) (v : View)
      → ((doc : Fields) → Inv (f doc v))
      → Inv v
      → Inv (on_row f o v)
  unfolding on_row
  on_row-Inv f none v k h = h
  on_row-Inv f (some doc) v k h = k doc

  -- Every event keeps the numbers of the pending requests apart and below the last one given out,
  -- and `loading` set exactly while the request of that number is pending.
  pub step-Inv : (v : View) (e : Event) → Inv v → Inv (step parse stringify display v e)
  unfolding step
  step-Inv v (catalog_arrives names) h =
      after_select-Inv v.selected_collection _ (same-Inv v _ h refl refl refl)
  step-Inv v (select name) h = elim (Bool-cases (some_name name v.collections)) [
    | inl known ↦
        rw known (after_select-Inv v.selected_collection _ (same-Inv v _ h refl refl refl))
    | inr unknown ↦ rw unknown h
  ]
  step-Inv v (type_filter_field t) h = same-Inv v _ h refl refl refl
  step-Inv v (type_filter_op t) h = same-Inv v _ h refl refl refl
  step-Inv v (type_filter_val t) h = same-Inv v _ h refl refl refl
  step-Inv v (type_json t) h = ground arith
  step-Inv v apply_filter h = load_documents-Inv (closure v) v.selected_collection v h
  step-Inv v clear_filter h = clear-Inv v h
  step-Inv v open_create h = ground arith
  step-Inv v cancel_modal h = same-Inv v _ h refl refl refl
  step-Inv v save h = ground (arith, handle_save_document-Inv v h)
  step-Inv v close_document h = same-Inv v _ h refl refl refl
  step-Inv v (show_document row) h =
      on_row-Inv _ (shown_row v row) v (λ doc. same-Inv v _ h refl refl refl) h
  step-Inv v (open_edit row) h =
      on_row-Inv _ (shown_row v row) v (λ doc. same-Inv v _ h refl refl refl) h
  step-Inv v (delete_document row confirmed) h =
      on_row-Inv _ (shown_row v row) v (λ doc. handle_delete-Inv doc confirmed v h) h
  step-Inv v (settle i answer) h = resume_task-Inv (get_elem? v.tasks i) i answer v h refl

  -- So it is after any session, in whatever order the answers come.
  pub run-Inv : (es : List Event) (v : View) → Inv v → Inv (run parse stringify display v es)
  run-Inv [] v h = h
  run-Inv (e ∷ es) v h = run-Inv es (step parse stringify display v e) (step-Inv v e h)

pub mount-Inv : (names : List Text) → Inv (mount names)
unfolding find_load
mount-Inv names = record { fresh = tt; busy = refl }

-- From the moment the component is mounted, in any order of events and answers: the numbers of the
-- pending requests are apart and not above the last one given out, and `loading` is set exactly
-- while the request of that number is pending.
pub session-Inv :
    (parse : Text → Result Json) (stringify display : Json → Text) (names : List Text)
    (es : List Event)
    → Inv (run parse stringify display (mount names) es)
session-Inv parse stringify display names es =
    run-Inv parse stringify display es (mount names) (mount-Inv names)
