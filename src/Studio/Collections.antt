-- ===== src/Studio/Collections.antt =====
-- studio/frontend/src/views/CollectionsView.tsx: the state of the component, the loading of
-- documents and the handlers up to their first `await`. An asynchronous handler leaves a task,
-- which holds what its closure had captured when it was started.
pub mod Events
pub mod Table
pub mod Latest
pub mod Session
pub mod Refinement
pub mod Stale
use cocodb.Base.{
  ℕ, suc, Bool, true, false, Option, none, some, List, [], ◌∷◌, ◌++◌, map, if◌then◌else◌, ◌==◌,
}
use cocodb.Base.Text.{Text, codes, text_eq, is_empty, or_text, trim}
use cocodb.Base.Result.{Result, ok, err}
use cocodb.Studio.Json.{Json, null, object, string, Fields, nat, property, truthy}
use cocodb.Studio.Number.{coerce}
use cocodb.Studio.Api.{HttpRequest}
use cocodb.Studio.Api.Documents.{
  Filter, DocumentQuery, query_documents, insert_document, update_document, delete_document,
}

pub data Mode : Type 0 where
  create edit : Mode

-- What a handler's closure reads of the render in which it was made.
pub record Closure : Type 0 where
  pub selected_collection : Text
  pub filter_field : Text
  pub filter_op : Text
  pub filter_val : Text

-- A promise that is pending, or a timer.
pub data Task : Type 0 where
  loading_documents : (request_id : ℕ) (request : HttpRequest) → Task
  saving deleting : Closure → (request : HttpRequest) → Task
  deferred : Closure → Task

-- `collections` are the names in the catalog, none of them before it has come.
pub record View : Type 0 where
  pub collections : List Text
  pub selected_collection : Text
  pub documents : List Fields
  pub loading : Bool
  pub error : Option Text
  pub filter_field : Text
  pub filter_op : Text
  pub filter_val : Text
  pub view_doc : Option Fields
  pub modal_mode : Mode
  pub is_modal_open : Bool
  pub json_input : Text
  pub latest_request : ℕ
  pub tasks : List Task
  pub catalog_refreshes : ℕ

abbrev pub closure : View → Closure
closure v = record {
  selected_collection = v.selected_collection;
  filter_field = v.filter_field;
  filter_op = v.filter_op;
  filter_val = v.filter_val;
}

abbrev pub mount : List Text → View
mount names = record {
  collections = names;
  selected_collection = [];
  documents = [];
  loading = false;
  error = none;
  filter_field = [];
  filter_op = codes "eq";
  filter_val = [];
  view_doc = none;
  modal_mode = create;
  is_modal_open = false;
  json_input = [];
  latest_request = 0;
  tasks = [];
  catalog_refreshes = 0;
}

-- The filter of the bar, if a field is named.
filters : Closure → Option (List Filter)
filters c =
    if is_empty (trim c.filter_field)
    then none
    else some
        (record { name = trim c.filter_field; op = c.filter_op; value = coerce c.filter_val } ∷ [])

unfoldable pub documents_request : Closure → Text → HttpRequest
unfolding filters
documents_request c collection =
    query_documents collection
      (record { filters = filters c; order_by = none; limit = nat 50; explain = none })

-- `loadDocuments(collection)` up to the `await`. The same closure gives the filter and, where no
-- collection is passed, the collection.
unfoldable pub load_documents : Closure → Text → View → View
unfolding documents_request
load_documents c collection v = if is_empty collection then v else record v {
  latest_request = suc v.latest_request;
  loading = true;
  error = none;
  tasks = loading_documents (suc v.latest_request) (documents_request c collection) ∷ v.tasks;
}

-- The rest of `loadDocuments`, once the answer is there.
unfoldable pub documents_loaded : ℕ → Result (Option (List Fields)) → View → View
documents_loaded id (ok none) v =
    if id == v.latest_request then record v { documents = []; loading = false } else v
documents_loaded id (ok (some docs)) v =
    if id == v.latest_request then record v { documents = docs; loading = false } else v
documents_loaded id (err m) v =
    if id == v.latest_request
    then record v { error = some (or_text m (codes "Failed to load documents")); loading = false }
    else v

abbrev fail : Text → Text → View → View
fail m otherwise v = record v { error = some (or_text m otherwise) }

abbrev push : Task → View → View
push t v = record v { tasks = t ∷ v.tasks }

-- `JSON.parse` and `String` are parameters.
module _ (parse : Text → Result Json) (display : Json → Text) where
  id_text : Json → Text
  id_text (string s) = s
  id_text v = display v

  save_failed : Text → View → View
  save_failed m = fail m (codes "Invalid JSON or Save Failed")

  missing_id : View → View
  missing_id = save_failed (codes "Document must have an _id for updating")

  update_with : Option Json → Fields → View → View
  unfolding missing_id save_failed id_text
  update_with none fs v = missing_id v
  update_with (some id) fs v =
      if truthy id
      then push
          (saving (closure v) (update_document v.selected_collection (id_text id) (object fs))) v
      else missing_id v

  save_parsed : Mode → Json → View → View
  unfolding update_with
  save_parsed create doc v = push (saving (closure v) (insert_document v.selected_collection doc)) v
  save_parsed edit (object fs) v = update_with (property (codes "_id") fs) fs v
  save_parsed edit null v = save_failed (codes "Cannot read properties of null (reading '_id')") v
  save_parsed edit doc v = missing_id v

  -- `handleSaveDocument`.
  unfoldable pub handle_save_document : View → View
  unfolding save_parsed
  handle_save_document v =
      let cleared = record v { error = none } in
      elim (parse v.json_input) [
        | ok doc ↦ save_parsed v.modal_mode doc cleared
        | err m ↦ save_failed m cleared
      ]

  -- `String(doc._id)`, which is "undefined" where there is none.
  shown_id : Option Json → Text
  unfolding id_text
  shown_id none = codes "undefined"
  shown_id (some v) = id_text v

  -- `handleDelete`, after the answer to `confirm`.
  unfoldable pub handle_delete : Fields → (confirmed : Bool) → View → View
  unfolding shown_id
  handle_delete doc confirmed v =
      if confirmed
      then push
          (deleting (closure v)
            (delete_document v.selected_collection (shown_id (property (codes "_id") doc))))
          v
      else v

unfoldable pub handle_open_create : View → View
handle_open_create v = record v {
  modal_mode = create;
  json_input = codes "{\n  \"name\": \"New Document\",\n  \"active\": true\n}";
  is_modal_open = true;
}

unfoldable pub handle_open_edit : (stringify : Json → Text) → Fields → View → View
handle_open_edit stringify doc v = record v {
  modal_mode = edit;
  json_input = stringify (object doc);
  is_modal_open = true;
}

-- What a task does when it is resumed: with the answer to its request, or when its timer fires.
unfoldable pub resume : Task → Result (Option (List Fields)) → View → View
unfolding documents_loaded load_documents
resume (loading_documents id request) answer v = documents_loaded id answer v
resume (saving c request) (ok _) v =
    let reloaded = load_documents c c.selected_collection (record v { is_modal_open = false }) in
    record reloaded { catalog_refreshes = suc v.catalog_refreshes }
resume (saving c request) (err m) v = fail m (codes "Invalid JSON or Save Failed") v
resume (deleting c request) (ok _) v = load_documents c c.selected_collection v
resume (deleting c request) (err m) v = fail m (codes "Failed to delete document") v
resume (deferred c) answer v = load_documents c c.selected_collection v
