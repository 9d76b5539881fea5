-- ===== src/Tests/Rows.antt =====
-- What the studio's lists show: results of a search, broadcasts, an open drawer.
use cocodb.Base.{◌≡◌, refl, true, none, some, [], ◌∷◌}
use cocodb.Base.Text.{Text, codes}
use cocodb.Base.Decimal.{decimal}
use cocodb.Studio.Json.{Number, nat, Fields}
use cocodb.Studio.Collections.Events.{some_name}
use cocodb.Studio.FullText
use cocodb.Studio.FullText.Results.{ranked, results_box}
use cocodb.Studio.Overview.Drawer.{Drawer, toggles, copies, copy_timer, drawer, run}
use cocodb.Studio.Overview.Drawer

abbrev found : FullText.View
found = record (FullText.mount []) {
  results =
      record { record_id = 0; doc_id = []; score = nat 2; document = none }
      ∷ (record { record_id = 9; doc_id = codes "ORD-1"; score = nat 1; document = none } ∷ []);
}

abbrev as_two : Number → Text
as_two n = codes "2.000"

abbrev as_object : Fields → Text
as_object fs = codes "{}"

two_rows :
    results_box as_two as_object found
    ≡ ranked (
        record {
          key = 0;
          rank = 1;
          label = codes "Doc ID: #0";
          score = codes "Score: 2.000";
          document = none;
        }
        ∷ (record {
          key = 9;
          rank = 2;
          label = codes "Doc ID: ORD-1";
          score = codes "Score: 2.000";
          document = none;
        }
            ∷ []))
unfolding results_box FullText.mount decimal FullText.keep_selected some_name
two_rows = refl

-- The first of two timers puts the light out.
copied_twice :
    drawer
      (codes "http://h")
      (run true (codes "http://h") Drawer.mount (toggles ∷ (copies ∷ (copies ∷ (copy_timer ∷ [])))))
    ≡ some (record { copy_label = codes "Copy Scrape URL"; target = codes "http://h/api/metrics" })
unfolding drawer Drawer.step
copied_twice = refl
