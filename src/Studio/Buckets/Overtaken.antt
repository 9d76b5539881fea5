-- ===== src/Studio/Buckets/Overtaken.antt =====
-- BucketsView.tsx has no guard on the order of answers: an overtaken scan is shown.
use cocodb.Base.{◌≡◌, refl, false, some, List, [], ◌∷◌}
use cocodb.Base.Text.{Text, is_empty, text_eq}
use cocodb.Base.Result.{ok}
use cocodb.Studio.Buckets.{
  KvEntry, View, table, rows, select, settle, after_select, load_entries, resume_task, resume,
  entries_loaded, step, run,
}

-- In a view that waits for no answer the user opens the bucket a, which is not the open one, and
-- then another bucket b, both of names that are not empty, and the answer about b arrives first.
-- Then the table shows the entries of a although b is selected, and no request is pending that
-- would replace them.
pub overtaken_scan :
    (v : View) (a b : Text) (of_a of_b : List KvEntry) (first : KvEntry)
    → v.tasks ≡ []
    → text_eq v.selected_bucket a ≡ false
    → text_eq a b ≡ false
    → is_empty a ≡ false
    → is_empty b ≡ false
    → let u = run v (
        select a
        ∷ select b
        ∷ settle 1 (ok (some of_b))
        ∷ settle 0 (ok (some (first ∷ of_a)))
        ∷ []) in
      (u.selected_bucket ≡ b) × (table u ≡ rows (first ∷ of_a)) × (u.tasks ≡ [])
unfolding step after_select load_entries resume_task resume entries_loaded table
overtaken_scan v a b of_a of_b first t n m p q = simp (t, n, m, p, q) (refl, refl, refl)
