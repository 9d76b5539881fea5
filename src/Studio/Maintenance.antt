-- ===== src/Studio/Maintenance.antt =====
-- studio/frontend/src/views/MaintenanceView.tsx: the integrity check, the checkpoint and the backup.
pub mod Flights
use cocodb.Base.{
  ℕ, suc, ◌-◌, Bool, true, false, Option, none, some, List, [], ◌∷◌, ◌++◌, if◌then◌else◌, ◌==◌,
}
use cocodb.Base.Text.{Text, codes, or_text}
use cocodb.Base.Decimal.{decimal}
use cocodb.Base.Result.{Result, ok, err}

pub record IntegrityReport : Type 0 where
  pub valid : Bool
  pub pages_checked : ℕ
  pub errors : List Text
  pub warnings : List Text

-- The body of the server's report; a list that is null is `none`.
pub record ReportBody : Type 0 where
  pub valid : Bool
  pub pages_checked : ℕ
  pub errors : Option (List Text)
  pub warnings : Option (List Text)

-- The counters say how many requests of each kind are pending.
pub record View : Type 0 where
  pub report : Option IntegrityReport
  pub loading_check : Bool
  pub loading_checkpoint : Bool
  pub loading_backup : Bool
  pub status_msg : Option Text
  pub error : Option Text
  pub checks : ℕ
  pub checkpoints : ℕ
  pub backups : ℕ

abbrev pub mount : View
mount = record {
  report = none;
  loading_check = false;
  loading_checkpoint = false;
  loading_backup = false;
  status_msg = none;
  error = none;
  checks = 0;
  checkpoints = 0;
  backups = 0;
}

or_empty : Option (List Text) → List Text
or_empty none = []
or_empty (some ts) = ts

unfoldable pub handle_run_check : View → View
handle_run_check v = record v {
  error = none;
  status_msg = none;
  loading_check = true;
  checks = suc v.checks;
}

unfoldable pub check_done : Result ReportBody → View → View
unfolding or_empty
check_done (ok res) v = record v {
  report = some (record {
    valid = res.valid;
    pages_checked = res.pages_checked;
    errors = or_empty res.errors;
    warnings = or_empty res.warnings;
  });
  loading_check = false;
  checks = v.checks - 1;
}
check_done (err e) v = record v {
  error = some (or_text e (codes "Integrity check failed"));
  loading_check = false;
  checks = v.checks - 1;
}

unfoldable pub handle_checkpoint : View → View
handle_checkpoint v = record v {
  error = none;
  status_msg = none;
  loading_checkpoint = true;
  checkpoints = suc v.checkpoints;
}

unfoldable pub checkpoint_done : Result ℕ → View → View
checkpoint_done (ok last_lsn) v = record v {
  status_msg =
      some (codes "WAL checkpoint completed successfully. LSN synced to #" ++ decimal last_lsn);
  loading_checkpoint = false;
  checkpoints = v.checkpoints - 1;
}
checkpoint_done (err e) v = record v {
  error = some (or_text e (codes "WAL Checkpoint failed"));
  loading_checkpoint = false;
  checkpoints = v.checkpoints - 1;
}

unfoldable pub handle_backup : View → View
handle_backup v = record v {
  error = none;
  status_msg = none;
  loading_backup = true;
  backups = suc v.backups;
}

unfoldable pub backup_done : Result Text → View → View
backup_done (ok backup_path) v = record v {
  status_msg = some (codes "Snapshot backup saved to: " ++ backup_path);
  loading_backup = false;
  backups = v.backups - 1;
}
backup_done (err e) v = record v {
  error = some (or_text e (codes "Backup failed"));
  loading_backup = false;
  backups = v.backups - 1;
}

-- The panel of the report: its light and title, and the parts below.
pub record ReportPanel : Type 0 where
  pub healthy : Bool
  pub pages : ℕ
  pub error_list : List Text
  pub warning_list : List Text
  pub all_passed : Bool

no_entries : List Text → Bool
no_entries [] = true
no_entries (t ∷ ts) = false

pub report_panel : IntegrityReport → ReportPanel
unfolding no_entries
report_panel r = record {
  healthy = r.valid;
  pages = r.pages_checked;
  error_list = r.errors;
  warning_list = r.warnings;
  all_passed = no_entries r.errors;
}

pub data Event : Type 0 where
  run_check checkpoint backup : Event
  check_answers : Result ReportBody → Event
  checkpoint_answers : Result ℕ → Event
  backup_answers : Result Text → Event

-- Each button is disabled while its own request is pending.
unfoldable pub step : View → Event → View
unfolding handle_run_check check_done handle_checkpoint checkpoint_done handle_backup backup_done
step v run_check = if v.loading_check then v else handle_run_check v
step v checkpoint = if v.loading_checkpoint then v else handle_checkpoint v
step v backup = if v.loading_backup then v else handle_backup v
step v (check_answers r) = if v.checks == 0 then v else check_done r v
step v (checkpoint_answers r) = if v.checkpoints == 0 then v else checkpoint_done r v
step v (backup_answers r) = if v.backups == 0 then v else backup_done r v

abbrev pub run : View → List Event → View
run v [] = v
run v (e ∷ es) = run (step v e) es
