-- ===== src/Studio/Vector.antt =====
-- studio/frontend/src/views/VectorPlaygroundView.tsx: the search for near vectors.
pub mod Unsynced
pub mod Results
use cocodb.Base.{
  ℕ, suc, ◌+◌, ◌-◌, Bool, true, false, ◌||◌, ◌&&◌, not, Option, none, some, List, [], ◌∷◌, ◌++◌,
  if◌then◌else◌, ◌==◌, length, leb,
}
use cocodb.Base.Text.{Text, codes, is_empty, or_text, trim, starts_with}
use cocodb.Base.Decimal.{digits_value}
use cocodb.Base.Result.{Result, ok, err}
use cocodb.Studio.Json.{
  Number, finite, infinite, nat, Json, null, boolean, number, string, array, object, Items, nil,
  item, Fields,
}
use cocodb.Studio.Number.{span_digits}
use cocodb.Studio.Api.{HttpRequest}
use cocodb.Studio.Api.Documents.{search_vectors}
use cocodb.Studio.Collections.Events.{first_name, some_name}

-- A missing `doc_id` is the empty text.
pub record VectorSearchResult : Type 0 where
  pub id : ℕ
  pub doc_id : Text
  pub distance : Number
  pub similarity_pct : Number
  pub document : Option Fields

pub record View : Type 0 where
  pub collections : List Text
  pub collection : Text
  pub field : Text
  pub metric : Text
  pub k : ℕ
  pub vector_text : Text
  pub results : List VectorSearchResult
  pub loading : Bool
  pub error : Option Text
  pub pending : List HttpRequest

-- The catalogue's first collection at the first render; nothing follows a later catalogue.
unfoldable pub mount : List Text → View
mount names = record {
  collections = names;
  collection = first_name names;
  field = codes "embedding";
  metric = codes "cosine";
  k = 5;
  vector_text = [];
  results = [];
  loading = false;
  error = none;
  pending = [];
}

-- `text.split(',')`.
split_commas : Text → List Text
split_commas [] = [] ∷ []
split_commas (c ∷ s) = elim (split_commas s) [
  | [] ↦ (c ∷ []) ∷ []
  | t ∷ ts ↦ if c == b',' then [] ∷ t ∷ ts else (c ∷ t) ∷ ts
]

no_items : Items → Bool
no_items nil = true
no_items (item j js) = false

-- `parseFloat` and `JSON.parse` stay parameters; NaN is `none`.
module _ (parse_float : Text → Option Number) (parse : Text → Result Json) where
  coordinates : List Text → Items
  coordinates [] = nil
  coordinates (t ∷ ts) =
      let rest = coordinates ts in
      elim (parse_float (trim t)) [ none ↦ rest | some n ↦ item (number n) rest ]

  -- What `vec` becomes; the text of a JSON value that begins with a bracket is an array.
  parsed_items : Result Json → Result Items
  parsed_items (ok (array xs)) = ok xs
  parsed_items (ok v) = ok nil
  parsed_items (err e) = err e

  pub query_vector : Text → Result Items
  unfolding split_commas coordinates parsed_items
  query_vector t =
      if starts_with (codes "[") t
      then parsed_items (parse t)
      else ok (coordinates (split_commas t))

  search_with : View → Result Items → View
  unfolding no_items
  search_with v (err e) = record v {
    error = some (or_text e (codes "Vector search failed"));
    loading = false;
  }
  search_with v (ok xs) =
      if no_items xs
      then record v {
        error = some (codes "Please enter query vector coordinates (e.g. 0.1, 0.2, 0.3)");
        loading = false;
      }
      else record v {
        error = none;
        loading = true;
        pending = v.pending ++ search_vectors v.collection v.field xs v.k v.metric ∷ [];
      }

  unfoldable pub handle_search : View → View
  unfolding query_vector search_with
  handle_search v =
      if is_empty v.collection
      then record v { error = some (codes "Please select a collection") }
      else search_with v (query_vector v.vector_text)

results_or_none : Option (List VectorSearchResult) → List VectorSearchResult
results_or_none none = []
results_or_none (some rs) = rs

unfoldable pub search_done : Result (Option (List VectorSearchResult)) → View → View
unfolding results_or_none
search_done (ok rs) v = record v { results = results_or_none rs; loading = false; pending = [] }
search_done (err e) v = record v {
  error = some (or_text e (codes "Vector search failed"));
  loading = false;
  pending = [];
}

-- What the select shows: the collection of that name, and otherwise its first option.
pub displayed : View → Text
displayed v =
    if some_name v.collection v.collections then v.collection else first_name v.collections

pub data Event : Type 0 where
  catalog_arrives : List Text → Event
  select type_field choose_metric type_vector : Text → Event
  slide_k : ℕ → Event
  search : Event
  answers : Result (Option (List VectorSearchResult)) → Event

module _ (parse_float : Text → Option Number) (parse : Text → Result Json) where
  -- The button is disabled while a search runs and where the catalogue has no collection.
  unfoldable pub step : View → Event → View
  unfolding handle_search search_done
  step v (catalog_arrives names) = record v { collections = names }
  step v (select name) = record v { collection = name }
  step v (type_field t) = record v { field = t }
  step v (choose_metric t) = record v { metric = t }
  step v (type_vector t) = record v { vector_text = t }
  step v (slide_k n) = record v { k = n }
  step v search =
      if v.loading || is_empty v.collections then v else handle_search parse_float parse v
  step v (answers r) = if is_empty v.pending then v else search_done r v

  abbrev pub run : View → List Event → View
  run v [] = v
  run v (e ∷ es) = run (step v e) es
