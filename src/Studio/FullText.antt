-- ===== src/Studio/FullText.antt =====
-- studio/frontend/src/views/SearchPlaygroundView.tsx: the full-text search.
pub mod Selected
pub mod Tokens
pub mod Results
use cocodb.Base.{
  ℕ, suc, Bool, true, false, ◌||◌, Option, none, some, List, [], ◌∷◌, ◌++◌, if◌then◌else◌,
}
use cocodb.Base.Text.{Text, codes, is_empty, or_text, trim}
use cocodb.Base.Result.{Result, ok, err}
use cocodb.Studio.Json.{Number, Fields}
use cocodb.Studio.Api.{HttpRequest}
use cocodb.Studio.Api.Documents.{search_full_text}
use cocodb.Studio.Collections.Events.{some_name, first_name}

-- A missing `doc_id` is the empty text.
pub record TextSearchResult : Type 0 where
  pub record_id : ℕ
  pub doc_id : Text
  pub score : Number
  pub document : Option Fields

pub record View : Type 0 where
  pub collections : List Text
  pub collection : Text
  pub field : Text
  pub query_text : Text
  pub k : ℕ
  pub results : List TextSearchResult
  pub loading : Bool
  pub error : Option Text
  pub pending : List HttpRequest

-- The effect after each render: a collection that the catalogue lacks gives way to the first one.
unfoldable pub keep_selected : View → View
keep_selected v =
    if some_name v.collection v.collections
    then v
    else record v { collection = first_name v.collections }

unfoldable pub handle_search : View → View
handle_search v =
    if is_empty v.collection
    then record v { error = some (codes "Please select a collection") }
    else if is_empty (trim v.query_text)
    then record v { error = some (codes "Please enter search keywords") }
    else record v {
      error = none;
      loading = true;
      pending = v.pending ++ search_full_text v.collection v.field v.query_text v.k ∷ [];
    }

results_or_none : Option (List TextSearchResult) → List TextSearchResult
results_or_none none = []
results_or_none (some rs) = rs

unfoldable pub search_done : Result (Option (List TextSearchResult)) → View → View
unfolding results_or_none
search_done (ok rs) v = record v { results = results_or_none rs; loading = false; pending = [] }
search_done (err e) v = record v {
  error = some (or_text e (codes "Full-text search failed"));
  loading = false;
  pending = [];
}

pub data Event : Type 0 where
  catalog_arrives : List Text → Event
  select type_field type_query : Text → Event
  slide_k : ℕ → Event
  search : Event
  answers : Result (Option (List TextSearchResult)) → Event

-- The button is disabled while a search runs and where the catalogue has no collection.
unfoldable pub step : View → Event → View
unfolding keep_selected handle_search search_done
step v (catalog_arrives names) = keep_selected (record v { collections = names })
step v (select name) = keep_selected (record v { collection = name })
step v (type_field t) = record v { field = t }
step v (type_query t) = record v { query_text = t }
step v (slide_k n) = record v { k = n }
step v search = if v.loading || is_empty v.collections then v else handle_search v
step v (answers r) = if is_empty v.pending then v else search_done r v

unfoldable pub mount : List Text → View
unfolding keep_selected
mount names = keep_selected (record {
  collections = names;
  collection = [];
  field = [];
  query_text = [];
  k = 10;
  results = [];
  loading = false;
  error = none;
  pending = [];
})

abbrev pub run : View → List Event → View
run v [] = v
run v (e ∷ es) = run (step v e) es
