-- ===== src/Studio/Collections/Events.antt =====
-- What happens to the view of collections: the user's actions, as far as the controls are there,
-- the catalog's arrival, and the resumption of any pending task. The render that follows runs the
-- effects of the component.
use cocodb.Base.{
  ℕ, Bool, false, Option, none, some, List, [], ◌∷◌, if◌then◌else◌, get_elem?, erase_idx, ◌||◌,
}
use cocodb.Base.Text.{Text, text_eq, is_empty}
use cocodb.Base.Result.{Result}
use cocodb.Studio.Json.{Json, Fields}
use cocodb.Studio.Collections.{
  View, Task, closure, deferred, load_documents, resume, handle_save_document, handle_delete,
  handle_open_create, handle_open_edit,
}

pub data Event : Type 0 where
  catalog_arrives : List Text → Event
  select : Text → Event
  type_filter_field type_filter_op type_filter_val type_json : Text → Event
  apply_filter clear_filter open_create cancel_modal save close_document : Event
  show_document open_edit : (row : ℕ) → Event
  delete_document : (row : ℕ) (confirmed : Bool) → Event
  settle : (task : ℕ) → Result (Option (List Fields)) → Event

unfoldable pub some_name : Text → List Text → Bool
some_name t [] = false
some_name t (n ∷ ns) = text_eq n t || some_name t ns

unfoldable pub first_name : List Text → Text
first_name [] = []
first_name (n ∷ ns) = n

-- The first effect: a selection that the catalog still has is kept.
unfoldable pub reselect : List Text → Text → Text
unfolding some_name first_name
reselect names current =
    if is_empty current
    then first_name names
    else if some_name current names
    then current
    else first_name names

-- The second effect: a new selection is loaded.
unfoldable pub after_select : Text → View → View
unfolding load_documents
after_select before v =
    if text_eq before v.selected_collection
    then v
    else load_documents (closure v) v.selected_collection v

-- The rows of the table, which is not there while documents are loaded.
unfoldable pub shown_row : View → ℕ → Option Fields
shown_row v row = if v.loading then none else get_elem? v.documents row

unfoldable pub on_row : (Fields → View → View) → Option Fields → View → View
on_row f none v = v
on_row f (some doc) v = f doc v

unfoldable pub resume_task : Option Task → ℕ → Result (Option (List Fields)) → View → View
unfolding resume
resume_task none i answer v = v
resume_task (some t) i answer v = resume t answer (record v { tasks = erase_idx v.tasks i })

module _ (parse : Text → Result Json) (stringify display : Json → Text) where
  unfoldable pub step : View → Event → View
  unfolding reselect after_select shown_row on_row resume_task handle_save_document handle_delete
      handle_open_create handle_open_edit
  step v (catalog_arrives names) =
      after_select v.selected_collection (record v {
        collections = names;
        selected_collection = reselect names v.selected_collection;
      })
  step v (select name) =
      if some_name name v.collections
      then after_select v.selected_collection (record v { selected_collection = name })
      else v
  step v (type_filter_field t) = record v { filter_field = t }
  step v (type_filter_op t) = record v { filter_op = t }
  step v (type_filter_val t) = record v { filter_val = t }
  step v (type_json t) = if v.is_modal_open then record v { json_input = t } else v
  step v apply_filter = load_documents (closure v) v.selected_collection v
  step v clear_filter =
      if is_empty v.filter_field
      then v
      else record v { filter_field = []; filter_val = []; tasks = deferred (closure v) ∷ v.tasks }
  step v open_create = if is_empty v.selected_collection then v else handle_open_create v
  step v cancel_modal = record v { is_modal_open = false }
  step v save = if v.is_modal_open then handle_save_document parse display v else v
  step v close_document = record v { view_doc = none }
  step v (show_document row) =
      on_row (λ doc u. record u { view_doc = some doc }) (shown_row v row) v
  step v (open_edit row) = on_row (handle_open_edit stringify) (shown_row v row) v
  step v (delete_document row confirmed) =
      on_row (λ doc. handle_delete parse display doc confirmed) (shown_row v row) v
  step v (settle i answer) = resume_task (get_elem? v.tasks i) i answer v

  abbrev pub run : View → List Event → View
  run v [] = v
  run v (e ∷ es) = run (step v e) es
