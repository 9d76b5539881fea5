-- ===== src/Studio/Maintenance/Flights.antt =====
-- MaintenanceView.tsx: each of its three requests is in flight at most once, and what the view says
-- of the last one.
use cocodb.Base.{ℕ, refl, List, [], ◌∷◌, if_holds, ◌==◌}
use cocodb.Base.Flight.{Flight, Flight-suc, Flight-pred}
use cocodb.Base.Result.{Result, ok, err}
use cocodb.Base.Text.{Text}
use cocodb.Studio.Maintenance.{
  ReportBody, View, mount, handle_run_check, check_done, handle_checkpoint, checkpoint_done,
  handle_backup, backup_done, Event, run_check, checkpoint, backup, check_answers,
  checkpoint_answers, backup_answers, step, run,
}

-- The lights of the three buttons.
abbrev pub Flights : View → Type 0
Flights v =
    Flight v.loading_check v.checks
    × Flight v.loading_checkpoint v.checkpoints
    × Flight v.loading_backup v.backups

check_done-Flights : (r : Result ReportBody) (v : View) → Flights v → Flights (check_done r v)
unfolding check_done
check_done-Flights (ok res) v (a, b, c) = (Flight-pred v.loading_check v.checks a, b, c)
check_done-Flights (err e) v (a, b, c) = (Flight-pred v.loading_check v.checks a, b, c)

checkpoint_done-Flights : (r : Result ℕ) (v : View) → Flights v → Flights (checkpoint_done r v)
unfolding checkpoint_done
checkpoint_done-Flights (ok n) v (a, b, c) =
    (a, Flight-pred v.loading_checkpoint v.checkpoints b, c)
checkpoint_done-Flights (err e) v (a, b, c) =
    (a, Flight-pred v.loading_checkpoint v.checkpoints b, c)

backup_done-Flights : (r : Result Text) (v : View) → Flights v → Flights (backup_done r v)
unfolding backup_done
backup_done-Flights (ok p) v (a, b, c) = (a, b, Flight-pred v.loading_backup v.backups c)
backup_done-Flights (err e) v (a, b, c) = (a, b, Flight-pred v.loading_backup v.backups c)

step-Flights : (v : View) (e : Event) → Flights v → Flights (step v e)
unfolding step handle_run_check handle_checkpoint handle_backup
step-Flights v run_check (a, b, c) =
    if_holds Flights v.loading_check v (handle_run_check v) (λ y. (a, b, c))
      (λ n. (Flight-suc v.loading_check v.checks n a, b, c))
step-Flights v checkpoint (a, b, c) =
    if_holds Flights v.loading_checkpoint v (handle_checkpoint v) (λ y. (a, b, c))
      (λ n. (a, Flight-suc v.loading_checkpoint v.checkpoints n b, c))
step-Flights v backup (a, b, c) =
    if_holds Flights v.loading_backup v (handle_backup v) (λ y. (a, b, c))
      (λ n. (a, b, Flight-suc v.loading_backup v.backups n c))
step-Flights v (check_answers r) h =
    if_holds Flights (v.checks == 0) v (check_done r v) (λ y. h) (λ n. check_done-Flights r v h)
step-Flights v (checkpoint_answers r) h =
    if_holds Flights (v.checkpoints == 0) v (checkpoint_done r v) (λ y. h)
      (λ n. checkpoint_done-Flights r v h)
step-Flights v (backup_answers r) h =
    if_holds Flights (v.backups == 0) v (backup_done r v) (λ y. h) (λ n. backup_done-Flights r v h)

run-Flights : (es : List Event) (v : View) → Flights v → Flights (run v es)
run-Flights [] v h = h
run-Flights (e ∷ es) v h = run-Flights es (step v e) (step-Flights v e h)

-- In any session of the tools, for each of the integrity check, the checkpoint and the backup: its
-- button is disabled exactly while a request of its kind is pending, and never are two pending.
pub single_flights :
    (es : List Event)
    → let v = run mount es in
      Flight v.loading_check v.checks
      × Flight v.loading_checkpoint v.checkpoints
      × Flight v.loading_backup v.backups
single_flights es = run-Flights es mount (refl, refl, refl)
