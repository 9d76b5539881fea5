-- ===== src/Studio/FullText/Selected.antt =====
-- SearchPlaygroundView.tsx: the collection that is searched is one of the catalogue's.
use cocodb.Base.{
  ◌++◌, if◌then◌else◌, ◌≡◌, refl, true, ◌||◌, Option, none, some, List, [], ◌∷◌, if_holds, ◌⊎◌, inl,
  inr,
}
use cocodb.Base.Text.{Text, codes, is_empty, text_eq_refl, trim}
use cocodb.Base.Result.{Result, ok, err}
use cocodb.Studio.Api.Documents.{search_full_text}
use cocodb.Studio.Collections.Events.{some_name, first_name}
use cocodb.Studio.FullText.{
  TextSearchResult, View, keep_selected, handle_search, search_done, Event, catalog_arrives, select,
  type_field, type_query, slide_k, search, answers, step, mount, run,
}

-- The catalogue has the collection, or has none.
abbrev pub Offered : View → Type 0
Offered v = (some_name v.collection v.collections ≡ true) ⊎ (v.collections ≡ [])

first_Offered : (names : List Text) → (some_name (first_name names) names ≡ true) ⊎ (names ≡ [])
unfolding some_name first_name
first_Offered [] = inr refl
first_Offered (n ∷ names) = inl (rw (text_eq_refl n) refl)

keep_selected-Offered : (v : View) → Offered (keep_selected v)
unfolding keep_selected
keep_selected-Offered v =
    if_holds Offered (some_name v.collection v.collections) v
      (record v { collection = first_name v.collections }) (λ y. inl y)
      (λ n. first_Offered v.collections)

searching : View → View
searching v = record v {
  error = none;
  loading = true;
  pending = v.pending ++ search_full_text v.collection v.field v.query_text v.k ∷ [];
}

keywords : View → View
keywords v = record v { error = some (codes "Please enter search keywords") }

search-Offered : (v : View) → Offered v → Offered (handle_search v)
unfolding handle_search searching keywords
search-Offered v h =
    if_holds Offered (is_empty v.collection)
      (record v { error = some (codes "Please select a collection") })
      (if is_empty (trim v.query_text) then keywords v else searching v) (λ y. h)
      (λ n.
        if_holds Offered (is_empty (trim v.query_text)) (keywords v) (searching v) (λ y. h)
          (λ m. h))

search_done-Offered :
    (r : Result (Option (List TextSearchResult))) (v : View) → Offered v → Offered (search_done r v)
unfolding search_done
search_done-Offered (ok rs) v h = h
search_done-Offered (err e) v h = h

step-Offered : (v : View) (e : Event) → Offered v → Offered (step v e)
unfolding step
step-Offered v (catalog_arrives names) h = keep_selected-Offered (record v { collections = names })
step-Offered v (select name) h = keep_selected-Offered (record v { collection = name })
step-Offered v (type_field t) h = h
step-Offered v (type_query t) h = h
step-Offered v (slide_k n) h = h
step-Offered v search h =
    if_holds Offered (v.loading || is_empty v.collections) v (handle_search v) (λ y. h)
      (λ n. search-Offered v h)
step-Offered v (answers r) h =
    if_holds Offered (is_empty v.pending) v (search_done r v) (λ y. h)
      (λ n. search_done-Offered r v h)

run-Offered : (es : List Event) (v : View) → Offered v → Offered (run v es)
run-Offered [] v h = h
run-Offered (e ∷ es) v h = run-Offered es (step v e) (step-Offered v e h)

-- From the mount with any catalogue on, in any session, the collection to search is one of the
-- catalogue's, or the catalogue has no collection and the button is disabled.
pub searched_is_offered :
    (names : List Text) (es : List Event)
    → let v = run (mount names) es in
      (some_name v.collection v.collections ≡ true) ⊎ (v.collections ≡ [])
unfolding mount
searched_is_offered names es = run-Offered es (mount names) (keep_selected-Offered _)
