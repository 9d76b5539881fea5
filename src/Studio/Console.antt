-- ===== src/Studio/Console.antt =====
-- studio/frontend/src/views/QueryConsoleView.tsx: the query console.
pub mod Executions
pub mod Rendering
pub mod Snippet
use cocodb.Base.{
  ℕ, suc, ◌-◌, Bool, true, false, Option, none, some, List, [], ◌∷◌, ◌++◌, if◌then◌else◌, ◌==◌,
  ◌||◌, length,
}
use cocodb.Base.Text.{Text, codes, or_text, is_empty, trim, text_eq}
use cocodb.Base.Decimal.{decimal}
use cocodb.Base.Result.{Result, ok, err}
use cocodb.Studio.Json.{Json, Fields, Number, nat}
use cocodb.Studio.Number.{coerce}
use cocodb.Studio.Api.{HttpRequest}
use cocodb.Studio.Collections.Events.{first_name}
use cocodb.Studio.Api.Documents.{Filter, Order, DocumentQuery, query_documents}

pub record QueryResult : Type 0 where
  pub documents : Option (List Fields)
  pub execution_plan : Option Text

-- `pending` holds the requests whose answers are awaited.
pub record View : Type 0 where
  pub selected_collection : Text
  pub where_field : Text
  pub where_op : Text
  pub where_val : Text
  pub order_field : Text
  pub order_desc : Bool
  pub limit : Number
  pub result : Option QueryResult
  pub loading : Bool
  pub error : Option Text
  pub pending : List HttpRequest

-- The selection starts as `collections[0]?.name || ''`, of the catalogue that is there at the first
-- render.
unfoldable pub mount : List Text → View
unfolding first_name
mount collections = record {
  selected_collection = first_name collections;
  where_field = [];
  where_op = codes "eq";
  where_val = [];
  order_field = [];
  order_desc = false;
  limit = nat 20;
  result = none;
  loading = false;
  error = none;
  pending = [];
}

unfoldable console_filters : View → List Filter
console_filters v =
    if is_empty (trim v.where_field)
    then []
    else record { name = trim v.where_field; op = v.where_op; value = coerce v.where_val } ∷ []

console_order : View → Option Order
console_order v =
    if is_empty (trim v.order_field)
    then none
    else some (record { name = trim v.order_field; desc = v.order_desc })

unfoldable pub console_request : Bool → View → HttpRequest
unfolding console_filters console_order
console_request explain_only v = query_documents v.selected_collection (record {
  filters = some (console_filters v);
  order_by = console_order v;
  limit = v.limit;
  explain = some explain_only;
})

unfoldable pub handle_execute : Bool → View → View
handle_execute explain_only v = if is_empty v.selected_collection then v else record v {
  loading = true;
  error = none;
  pending = v.pending ++ console_request explain_only v ∷ [];
}

unfoldable pub execute_done : Result QueryResult → View → View
execute_done (ok res) v = record v { result = some res; loading = false; pending = [] }
execute_done (err e) v = record v {
  error = some (or_text e (codes "Query execution failed"));
  loading = false;
  pending = [];
}

-- The box of the results. Reading the length of null throws.
pub data ResultsBox : Type 0 where
  executing click_execute no_matches : ResultsBox
  shown : List Fields → ResultsBox

shown_documents : Option (List Fields) → Result ResultsBox
shown_documents none = err (codes "Cannot read properties of null (reading 'length')")
shown_documents (some []) = ok no_matches
shown_documents (some (d ∷ ds)) = ok (shown (d ∷ ds))

shown_result : Option QueryResult → Result ResultsBox
unfolding shown_documents
shown_result none = ok click_execute
shown_result (some r) = shown_documents r.documents

unfoldable pub results_box : View → Result ResultsBox
unfolding shown_result
results_box v = if v.loading then ok executing else shown_result v.result

pub data Event : Type 0 where
  select where_field where_op where_val order_field : Text → Event
  order_desc : Bool → Event
  limit : Number → Event
  execute : (explain_only : Bool) → Event
  answers : Result QueryResult → Event

-- Both buttons are disabled while a query is executed or where no collection is selected.
unfoldable pub step : View → Event → View
unfolding handle_execute execute_done
step v (select t) = record v { selected_collection = t }
step v (where_field t) = record v { where_field = t }
step v (where_op t) = record v { where_op = t }
step v (where_val t) = record v { where_val = t }
step v (order_field t) = record v { order_field = t }
step v (order_desc b) = record v { order_desc = b }
step v (limit n) = record v { limit = n }
step v (execute explain_only) =
    if v.loading || is_empty v.selected_collection then v else handle_execute explain_only v
step v (answers r) = if is_empty v.pending then v else execute_done r v

abbrev pub run : View → List Event → View
run v [] = v
run v (e ∷ es) = run (step v e) es
