-- ===== src/Studio/Console/Rendering.antt =====
-- QueryConsoleView.tsx: when the box of the results can be rendered, with the answers that the action
-- `query` of studio/handlers.go gives.
use cocodb.Base.{
  ℕ, Bool-cases, inl, inr, ◌<◌, ◌≡◌, ◌≢◌, refl, Bool, true, false, Option, none, some, List, [],
  ◌∷◌, All,
}
use cocodb.Base.Text.{Text}
use cocodb.Base.Result.{ok, err}
use cocodb.Studio.Json.{Fields, Number, nat}
use cocodb.Studio.Api.{HttpRequest}
use cocodb.Server.Query.{asked_limit, serve_query}
use cocodb.Studio.Console.{
  QueryResult, View, console_request, ResultsBox, executing, click_execute, no_matches, shown,
  shown_documents, shown_result, results_box, Event, select, where_field, where_op, where_val,
  order_field, order_desc, limit, execute, answers, step,
}

abbrev Listed : Option QueryResult → Type 0
Listed none = Unit
Listed (some r) = (ds : List Fields) × (r.documents ≡ some ds)

module _ (to_int : Number → ℕ) where
  abbrev HasLimit : HttpRequest → Type 0
  HasLimit r = asked_limit to_int r ≢ 0

  -- A limit that is typed is one above 0.
  abbrev pub SetsLimit : Event → Type 0
  SetsLimit (limit n) = to_int n ≢ 0
  SetsLimit _ = Unit

  -- A successful answer is the server's, to the request that is awaited; a failure has any text.
  pub data IsServed (v : View) : Event → Type 0 where
    served :
        (found : List Fields) (plan : Text) (r : HttpRequest) (rs : List HttpRequest)
        → v.pending ≡ r ∷ rs
        → IsServed v (answers (ok (serve_query to_int found plan r)))
    failed : (e : Text) → IsServed v (answers (err e))
    selects : (t : Text) → IsServed v (select t)
    types_field : (t : Text) → IsServed v (where_field t)
    types_op : (t : Text) → IsServed v (where_op t)
    types_val : (t : Text) → IsServed v (where_val t)
    types_order : (t : Text) → IsServed v (order_field t)
    orders : (b : Bool) → IsServed v (order_desc b)
    types_limit : (n : Number) → IsServed v (limit n)
    executes : (x : Bool) → IsServed v (execute x)

  abbrev pub AllServed : View → List Event → Type 0
  AllServed v [] = Unit
  AllServed v (e ∷ es) = IsServed v e × AllServed (step v e) es

  -- The form and every awaited request have a limit, and the result has a list.
  abbrev Limited : View → Type 0
  Limited v = (to_int v.limit ≢ 0) × All HasLimit v.pending × Listed v.result

  documents-Renders : (ds : List Fields) → (box : ResultsBox) × (shown_documents (some ds) ≡ ok box)
  unfolding shown_documents
  documents-Renders [] = (no_matches, refl)
  documents-Renders (d ∷ ds) = (shown (d ∷ ds), refl)

  result-Renders :
      (o : Option QueryResult) → Listed o → (box : ResultsBox) × (shown_result o ≡ ok box)
  unfolding shown_result
  result-Renders none h = (click_execute, refl)
  result-Renders (some r) (ds, e) = rw e (documents-Renders ds)

  box_of : (v : View) → Listed v.result → (box : ResultsBox) × (results_box v ≡ ok box)
  unfolding results_box
  box_of v h = elim (Bool-cases v.loading) [
    | inl y ↦ rw y (executing, refl)
    | inr n ↦ rw n (result-Renders v.result h)
  ]

  -- `to_int` reads whole numbers below 2^63.
  module _ (reads : (n : ℕ) → n < 9223372036854775808 → to_int (nat n) ≡ n) where
    -- The view in which a query without limit is awaited.
    abbrev unlimited : View → View
    unlimited v = record v {
      limit = nat 0;
      loading = true;
      error = none;
      pending = console_request false (record v { limit = nat 0 }) ∷ [];
    }
