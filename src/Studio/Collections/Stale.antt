-- ===== src/Studio/Collections/Stale.antt =====
-- What the closures of `CollectionsView` keep from the render in which they were made: two loads
-- that ask for something else than the view shows.
use cocodb.Base.{
  ℕ, suc, ◌≡◌, ◌≢◌, refl, sym, ap, subst, ◌∙◌, none, true, false, Option, some, List, [], ◌∷◌,
  arith, get_elem?,
}
use cocodb.Base.Text.{Text, codes, text_eq, is_empty, trim}
use cocodb.Base.Result.{Result, ok}
use cocodb.Studio.Json.{Json, Fields, property}
use cocodb.Studio.Api.{HttpRequest}
use cocodb.Studio.Api.Documents
use cocodb.Studio.Api.Documents.{query_documents}
use cocodb.Studio.Collections.{
  deferred, deleting, loading_documents, View, Closure, closure, documents_request, load_documents,
  resume, handle_delete, shown_id, documents_loaded,
}
use cocodb.Studio.Collections.Latest.{find_load, current}
use cocodb.Studio.Collections.Events.{
  clear_filter, settle, select, delete_document, some_name, shown_row, on_row, after_select,
  resume_task, step, run,
}

-- A request with a filter is another one than the request without.
documents_request-ne :
    (c d : Closure) (name : Text)
    → is_empty (trim c.filter_field) ≡ false
    → is_empty (trim d.filter_field) ≡ true
    → documents_request c name ≢ documents_request d name
unfolding documents_request query_documents
documents_request-ne c d name h k = rw (h, k) (λ e. cc)

is_empty_of_trim : (t : Text) → is_empty (trim t) ≡ false → is_empty t ≡ false
unfolding trim
is_empty_of_trim [] h = h
is_empty_of_trim (c ∷ t) h = refl

current-load_documents :
    (c : Closure) (name : Text) (v : View)
    → is_empty name ≡ false
    → current (load_documents c name v) ≡ some (documents_request c name)
unfolding load_documents find_load
current-load_documents c name v h = ground arith

load_documents-same :
    (c : Closure) (name : Text) (v : View)
    → ((load_documents c name v).filter_field ≡ v.filter_field)
      × ((load_documents c name v).selected_collection ≡ v.selected_collection)
unfolding load_documents
load_documents-same c name v = ground arith

abbrev cleared : View → View
cleared v = record v { filter_field = []; filter_val = [] }

-- The load that the closure `c` defers, in a view with no filter.
module _ (c : Closure) (v : View) (s : is_empty v.selected_collection ≡ false)
    (h : is_empty (trim c.filter_field) ≡ false) where
  reloaded : View
  reloaded = load_documents c v.selected_collection (cleared v)

  reloaded_stale :
      (reloaded.filter_field ≡ [])
      × (current reloaded ≡ some (documents_request c v.selected_collection))
      × (current reloaded
          ≢ some (documents_request (closure reloaded) reloaded.selected_collection))
  unfolding reloaded
  reloaded_stale =
      let (f, n) = load_documents-same c v.selected_collection (cleared v) in
      let e = current-load_documents c v.selected_collection (cleared v) s in
      (
        f,
        e,
        λ k.
            documents_request-ne c (closure reloaded) v.selected_collection h
              (rw f (unfold trim in refl)) (cc (e, k, n)),
      )

module _ (parse : Text → Result Json) (stringify display : Json → Text) where
  step-clear_filter :
      (v : View)
      → is_empty v.filter_field ≡ false
      → step parse stringify display v clear_filter
        ≡ record (cleared v) { tasks = deferred (closure v) ∷ v.tasks }
  unfolding step
  step-clear_filter v h = rw h

  -- Where a collection is selected and the filter's field is not blank: Clear empties the filter
  -- of the bar, and the load that it defers then asks with the old filter, not with the empty one
  -- that the bar shows.
  pub clear_filter_stale :
      (v : View) (any : Result (Option (List Fields)))
      → is_empty v.selected_collection ≡ false
      → is_empty (trim v.filter_field) ≡ false
      → let w = run parse stringify display v (clear_filter ∷ settle 0 any ∷ []) in
        (w.filter_field ≡ [])
        × (current w ≡ some (documents_request (closure v) v.selected_collection))
        × (current w ≢ some (documents_request (closure w) w.selected_collection))
  unfolding reloaded resume_task resume
  clear_filter_stale v any s h =
      rw (step-clear_filter v (is_empty_of_trim v.filter_field h))
        (unfold step in reloaded_stale (closure v) v s h)

  module _ (v : View) (b : Text) where
    -- The views of a deletion that is overtaken by a selection.
    abbrev asked : HttpRequest → View
    asked r = record v { tasks = deleting (closure v) r ∷ [] }

    abbrev moved : HttpRequest → View
    moved r =
        let c = record (closure v) { selected_collection = b } in
        record v {
          selected_collection = b;
          latest_request = suc v.latest_request;
          loading = true;
          error = none;
          tasks =
              loading_documents (suc v.latest_request) (documents_request c b)
              ∷ deleting (closure v) r
              ∷ [];
        }

    abbrev arrived : HttpRequest → List Fields → View
    arrived r of_b = record (moved r) {
      documents = of_b;
      loading = false;
      tasks = deleting (closure v) r ∷ [];
    }

    abbrev left : List Fields → View
    left of_b = record v {
      selected_collection = b;
      latest_request = suc v.latest_request;
      loading = false;
      error = none;
      documents = of_b;
      tasks = [];
    }

    deletion :
        (row : ℕ) (doc : Fields)
        → v.tasks ≡ []
        → v.loading ≡ false
        → get_elem? v.documents row ≡ some doc
        → (r : HttpRequest) × (step parse stringify display v (delete_document row true) ≡ asked r)
    unfolding step shown_row on_row handle_delete
    deletion row doc t l e = (
      Documents.delete_document v.selected_collection
          (shown_id parse display (property (codes "_id") doc)),
      rw (l, e, t) refl,
    )

    selection :
        (r : HttpRequest)
        → is_empty b ≡ false
        → some_name b v.collections ≡ true
        → text_eq v.selected_collection b ≡ false
        → step parse stringify display (asked r) (select b) ≡ moved r
    unfolding step after_select load_documents
    selection r m k x = rw (k, x, m) refl

    arrival :
        (r : HttpRequest) (of_b : List Fields)
        → step parse stringify display (moved r) (settle 0 (ok (some of_b))) ≡ arrived r of_b
    unfolding step resume_task resume documents_loaded
    arrival r of_b = ground arith

    reload :
        (r : HttpRequest) (of_b : List Fields) (deleted : Option (List Fields))
        → step parse stringify display (arrived r of_b) (settle 0 (ok deleted))
          ≡ load_documents (closure v) v.selected_collection (left of_b)
    unfolding step resume_task resume
    reload r of_b deleted = refl

    -- The view asks for the collection of the deletion, and shows the documents `of_a` that come.
    abbrev IsOvertaken : List Fields → View → Type 0
    IsOvertaken of_a w =
        let u = step parse stringify display w (settle 0 (ok (some of_a))) in
        (current w ≡ some (documents_request (closure v) v.selected_collection))
        × (u.selected_collection ≡ b)
        × (u.documents ≡ of_a)
        × (u.tasks ≡ [])

    reload-IsOvertaken :
        (of_a of_b : List Fields)
        → is_empty v.selected_collection ≡ false
        → IsOvertaken of_a (load_documents (closure v) v.selected_collection (left of_b))
    unfolding step resume_task resume documents_loaded load_documents find_load
    reload-IsOvertaken of_a of_b n = ground arith

  -- In a view that waits for nothing and has the collection a selected, the user confirms the deletion
  -- of a row and then selects another collection b, and the answers arrive in the order of their
  -- requests but for that of the deletion, which is last. Then a load of a is asked for, and its
  -- documents are shown although b is selected, with no request pending that would replace them.
  pub delete_stale :
      (v : View) (row : ℕ) (doc : Fields) (b : Text) (of_a of_b : List Fields)
      (deleted : Option (List Fields))
      → v.tasks ≡ []
      → v.loading ≡ false
      → is_empty v.selected_collection ≡ false
      → get_elem? v.documents row ≡ some doc
      → is_empty b ≡ false
      → some_name b v.collections ≡ true
      → text_eq v.selected_collection b ≡ false
      → let w = run parse stringify display v (
          delete_document row true
          ∷ select b
          ∷ settle 0 (ok (some of_b))
          ∷ settle 0 (ok deleted)
          ∷ []) in
        let u = step parse stringify display w (settle 0 (ok (some of_a))) in
        (current w ≡ some (documents_request (closure v) v.selected_collection))
        × (u.selected_collection ≡ b)
        × (u.documents ≡ of_a)
        × (u.tasks ≡ [])
  delete_stale v row doc b of_a of_b deleted t l n e m k x =
      let (r, f) = deletion v b row doc t l e in
      let path =
        ap
          (λ u.
            run parse stringify display u
              (select b ∷ settle 0 (ok (some of_b)) ∷ settle 0 (ok deleted) ∷ []))
          f
        ∙ (ap
              (λ u.
                run parse stringify display u
                  (settle 0 (ok (some of_b)) ∷ settle 0 (ok deleted) ∷ []))
              (selection v b r m k x)
            ∙ (ap (λ u. step parse stringify display u (settle 0 (ok deleted))) (arrival v b r of_b)
                ∙ reload v b r of_b deleted)) in
      subst (IsOvertaken v b of_a) (sym path) (reload-IsOvertaken v b of_a of_b n)
