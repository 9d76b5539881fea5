-- ===== src/Studio/Console/Executions.antt =====
-- QueryConsoleView.tsx: one query at a time, and of a collection that has a name.
use cocodb.Base.{
  ◌≡◌, refl, ap, Bool, true, false, ◌||◌, List, [], ◌∷◌, ◌++◌, if_holds, ◌⊎◌, inl, inr, arith,
}
use cocodb.Base.Text.{Text, is_empty}
use cocodb.Base.Result.{Result, ok, err}
use cocodb.Studio.Console.{
  QueryResult, View, mount, console_request, handle_execute, execute_done, Event, select,
  where_field, where_op, where_val, order_field, order_desc, limit, execute, answers, step, run,
}

-- The console rests, or awaits the answer to the one request that a view made.
abbrev pub Executes : View → Type 0
Executes v =
    ((v.loading ≡ false) × (v.pending ≡ []))
    ⊎ ((v.loading ≡ true)
        × (explain_only : Bool) × (w : View) × (is_empty w.selected_collection ≡ false)
        × (v.pending ≡ console_request explain_only w ∷ []))

execute-Executes :
    (b : Bool) (v : View)
    → (v.loading || is_empty v.selected_collection) ≡ false
    → Executes v
    → Executes (handle_execute b v)
unfolding handle_execute
execute-Executes b v n (inl (l, p)) =
    rw named (inr (refl, b, v, named, ap (λ rs. rs ++ console_request b v ∷ []) p))
  where
    named : is_empty v.selected_collection ≡ false
    named = ground arith
execute-Executes b v n (inr (l, c, w, s, p)) = ground arith

done-Executes : (r : Result QueryResult) (v : View) → Executes (execute_done r v)
unfolding execute_done
done-Executes (ok res) v = inl (refl, refl)
done-Executes (err e) v = inl (refl, refl)

step-Executes : (v : View) (e : Event) → Executes v → Executes (step v e)
unfolding step
step-Executes v (select t) h = h
step-Executes v (where_field t) h = h
step-Executes v (where_op t) h = h
step-Executes v (where_val t) h = h
step-Executes v (order_field t) h = h
step-Executes v (order_desc b) h = h
step-Executes v (limit n) h = h
step-Executes v (execute b) h =
    if_holds Executes (v.loading || is_empty v.selected_collection) v (handle_execute b v) (λ y. h)
      (λ n. execute-Executes b v n h)
step-Executes v (answers r) h =
    if_holds Executes (is_empty v.pending) v (execute_done r v) (λ y. h) (λ n. done-Executes r v)

run-Executes : (es : List Event) (v : View) → Executes v → Executes (run v es)
run-Executes [] v h = h
run-Executes (e ∷ es) v h = run-Executes es (step v e) (step-Executes v e h)

-- In any session of the console, either no query is executed and no answer awaited, or the buttons are
-- disabled and exactly one answer is awaited, to a request that Run or Explain makes in some state of
-- the form, for a collection whose name is not empty.
pub one_execution :
    (names : List Text) (es : List Event)
    → let v = run (mount names) es in
      ((v.loading ≡ false) × (v.pending ≡ []))
      ⊎ ((v.loading ≡ true)
          × (explain_only : Bool) × (w : View) × (is_empty w.selected_collection ≡ false)
          × (v.pending ≡ console_request explain_only w ∷ []))
unfolding mount
one_execution names es = run-Executes es (mount names) (inl (refl, refl))
