-- ===== src/Studio/Collections/Refinement.antt =====
-- What `CollectionsView` promises of overlapping loads: it refines a machine that knows one request
-- and shows its answer.
use cocodb.Base.{
  ℕ, ◌≡◌, refl, ◌∙◌, inl, inr, Bool, false, Option, none, some, List, [], arith, ◌==◌,
  if◌then◌else◌, get_elem?, erase_idx, Bool-cases,
}
use cocodb.Base.Text.{Text, text_eq, is_empty}
use cocodb.Base.Result.{Result, ok, err}
use cocodb.Studio.Json.{Json, Fields}
use cocodb.Studio.Api.{HttpRequest}
use cocodb.Studio.Collections.{
  Task, loading_documents, saving, deleting, deferred, View, Closure, closure, documents_request,
  load_documents, documents_loaded, resume, handle_save_document, handle_delete,
}
use cocodb.Studio.Collections.Latest.{find_load, current, Inv, load_id}
use cocodb.Studio.Collections.Session.{without, current-without}
use cocodb.Studio.Collections.Events.{
  Event, catalog_arrives, select, type_filter_field, type_filter_op, type_filter_val, type_json,
  apply_filter, clear_filter, open_create, cancel_modal, save, close_document, show_document,
  open_edit, delete_document, settle, after_select, some_name, resume_task, shown_row, on_row, step,
}

pub record Shown : Type 0 where
  pub documents : List Fields
  pub pending : Option HttpRequest

abbrev pub shown : View → Shown
shown v = record { documents = v.documents; pending = current v }

-- The answer to the pending request: documents replace those of the table, an error leaves them.
abbrev pub answered : Result (Option (List Fields)) → Shown → Shown
answered (ok none) s = record { documents = []; pending = none }
answered (ok (some docs)) s = record { documents = docs; pending = none }
answered (err m) s = record s { pending = none }

-- Nothing happens, a request takes the place of the pending one, or the pending one is answered.
pub data Move (e : Event) (s t : Shown) : Type 0 where
  keep : t ≡ s → Move e s t
  load : (r : HttpRequest) → t ≡ record s { pending = some r } → Move e s t
  answer :
      (i : ℕ) (a : Result (Option (List Fields))) (r : HttpRequest)
      → e ≡ settle i a
      → s.pending ≡ some r
      → t ≡ answered a s
      → Move e s t

load_documents-Move :
    (e : Event) (s : Shown) (c : Closure) (name : Text) (v : View)
    → shown v ≡ s
    → Move e s (shown (load_documents c name v))
unfolding load_documents find_load
load_documents-Move e s c name v h = elim (Bool-cases (is_empty name)) [
  | inl b ↦ rw b (keep h)
  | inr b ↦ rw b (load (documents_request c name) (ground arith))
]

documents_loaded-shown :
    (id : ℕ) (a : Result (Option (List Fields))) (v : View)
    → (id ≡ v.latest_request → current v ≡ none)
    → shown (documents_loaded id a v)
      ≡ (if id == v.latest_request then answered a (shown v) else shown v)
unfolding documents_loaded
documents_loaded-shown id (ok none) v h = ground arith
documents_loaded-shown id (ok (some docs)) v h = ground arith
documents_loaded-shown id (err m) v h = ground arith

answered-without :
    (a : Result (Option (List Fields))) (v : View) (i : ℕ)
    → answered a (shown (without v i)) ≡ answered a (shown v)
answered-without (ok none) v i = refl
answered-without (ok (some docs)) v i = refl
answered-without (err m) v i = refl

loaded-Move :
    (id : ℕ) (r : HttpRequest) (i : ℕ) (a : Result (Option (List Fields))) (v : View)
    → Inv v
    → get_elem? v.tasks i ≡ some (loading_documents id r)
    → Move (settle i a) (shown v) (shown (documents_loaded id a (without v i)))
loaded-Move id r i a v h e = elim (current-without (loading_documents id r) i v h e) [
  | inl (p, q) ↦ cc
  | inr (n, q, p, gone, found) ↦ elim (Bool-cases (id == v.latest_request)) [
    | inl now ↦ answer i a r refl (ground arith) (
        documents_loaded-shown id a (without v i) (λ same. ground arith)
        ∙ (rw now (answered-without a v i)))
    | inr late ↦ keep (
        documents_loaded-shown id a (without v i) (λ same. ground arith) ∙ (rw late (ground arith)))
  ]
]

other-Move :
    (t : Task) (i : ℕ) (a : Result (Option (List Fields))) (v : View)
    → Inv v
    → get_elem? v.tasks i ≡ some t
    → load_id t ≡ none
    → shown (without v i) ≡ shown v
other-Move t i a v h e n = ground (arith, current-without t i v h e)

resume-Move :
    (t : Task) (i : ℕ) (a : Result (Option (List Fields))) (v : View)
    → Inv v
    → get_elem? v.tasks i ≡ some t
    → Move (settle i a) (shown v) (shown (resume t a (without v i)))
unfolding resume
resume-Move (loading_documents id r) i a v h e = loaded-Move id r i a v h e
resume-Move (saving c r) i (ok docs) v h e =
    load_documents-Move (settle i (ok docs)) (shown v) c c.selected_collection
      (record v { is_modal_open = false; tasks = erase_idx v.tasks i })
      (other-Move (saving c r) i (ok docs) v h e refl)
resume-Move (saving c r) i (err m) v h e = keep (other-Move (saving c r) i (err m) v h e refl)
resume-Move (deleting c r) i (ok docs) v h e =
    load_documents-Move (settle i (ok docs)) (shown v) c c.selected_collection (without v i)
      (other-Move (deleting c r) i (ok docs) v h e refl)
resume-Move (deleting c r) i (err m) v h e = keep (other-Move (deleting c r) i (err m) v h e refl)
resume-Move (deferred c) i a v h e =
    load_documents-Move (settle i a) (shown v) c c.selected_collection (without v i)
      (other-Move (deferred c) i a v h e refl)

resume_task-Move :
    (o : Option Task) (i : ℕ) (a : Result (Option (List Fields))) (v : View)
    → Inv v
    → get_elem? v.tasks i ≡ o
    → Move (settle i a) (shown v) (shown (resume_task o i a v))
unfolding resume_task
resume_task-Move none i a v h e = keep refl
resume_task-Move (some t) i a v h e = resume-Move t i a v h e

after_select-Move :
    (e : Event) (s : Shown) (before : Text) (v : View)
    → shown v ≡ s
    → Move e s (shown (after_select before v))
unfolding after_select
after_select-Move e s before v h = elim (Bool-cases (text_eq before v.selected_collection)) [
  | inl b ↦ rw b (keep h)
  | inr b ↦ rw b (load_documents-Move e s (closure v) v.selected_collection v h)
]

module _ (parse : Text → Result Json) (stringify display : Json → Text) where
  shown-save : (v : View) → shown (handle_save_document parse display v) ≡ shown v
  unfolding handle_save_document find_load
  shown-save v = ground arith

  shown-delete :
      (doc : Fields) (confirmed : Bool) (v : View)
      → shown (handle_delete parse display doc confirmed v) ≡ shown v
  unfolding handle_delete find_load
  shown-delete doc confirmed v = ground arith

  shown-on_row :
      (f : Fields → View → View) (o : Option Fields) (v : View)
      → ((doc : Fields) → shown (f doc v) ≡ shown v)
      → shown (on_row f o v) ≡ shown v
  unfolding on_row
  shown-on_row f none v k = refl
  shown-on_row f (some doc) v k = k doc

  shown-clear : (v : View) → shown (step parse stringify display v clear_filter) ≡ shown v
  unfolding step find_load
  shown-clear v = ground arith

  -- In a view of which the invariant holds, whatever happens, the table and the pending request
  -- move as that machine does: the documents change only by the answer to the pending request, and
  -- that is the one asked for last.
  pub step-Move :
      (v : View) (e : Event) → Inv v → Move e (shown v) (shown (step parse stringify display v e))
  unfolding step
  step-Move v (catalog_arrives names) h =
      after_select-Move (catalog_arrives names) (shown v) v.selected_collection _ refl
  step-Move v (select name) h = elim (Bool-cases (some_name name v.collections)) [
    | inl known ↦ rw known (after_select-Move (select name) (shown v) v.selected_collection _ refl)
    | inr unknown ↦ rw unknown (keep refl)
  ]
  step-Move v (type_filter_field t) h = keep refl
  step-Move v (type_filter_op t) h = keep refl
  step-Move v (type_filter_val t) h = keep refl
  step-Move v (type_json t) h = keep (ground arith)
  step-Move v apply_filter h =
      load_documents-Move apply_filter (shown v) (closure v) v.selected_collection v refl
  step-Move v clear_filter h = keep (shown-clear v)
  step-Move v open_create h = keep (ground arith)
  step-Move v cancel_modal h = keep refl
  step-Move v save h = keep (ground (arith, shown-save v))
  step-Move v close_document h = keep refl
  step-Move v (show_document row) h = keep (shown-on_row _ (shown_row v row) v (λ doc. refl))
  step-Move v (open_edit row) h = keep (shown-on_row _ (shown_row v row) v (λ doc. refl))
  step-Move v (delete_document row confirmed) h =
      keep (shown-on_row _ (shown_row v row) v (λ doc. shown-delete doc confirmed v))
  step-Move v (settle i a) h = resume_task-Move (get_elem? v.tasks i) i a v h refl
