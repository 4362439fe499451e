-- ===== src/Maintenance/Kinds.antt =====
-- src/maintenance.rs: the kinds of maintenance, requests and the records of jobs.
use curator_rs.Prelude.{String, Bool, true, false, Option, none, some}

pub data MaintenanceKind : Type 0 where
  create_backup validate_backup restore_backup clear_human_ratings : MaintenanceKind
  reset_ratings_and_evidence flatten_groups delete_groups clear_tag_assignments : MaintenanceKind
  clear_interactive_history rebuild_caches reconcile_library factory_reset : MaintenanceKind
  remove_phar_environment remove_archives : MaintenanceKind

unfoldable pub is_destructive : MaintenanceKind → Bool
is_destructive create_backup = false
is_destructive validate_backup = false
is_destructive reconcile_library = false
is_destructive _ = true

unfoldable pub confirmation_phrase : MaintenanceKind → Option String
confirmation_phrase create_backup = none
confirmation_phrase validate_backup = none
confirmation_phrase reconcile_library = none
confirmation_phrase restore_backup = some "RESTORE BACKUP"
confirmation_phrase clear_human_ratings = some "CLEAR HUMAN RATINGS"
confirmation_phrase reset_ratings_and_evidence = some "RESET RATINGS"
confirmation_phrase flatten_groups = some "FLATTEN GROUPS"
confirmation_phrase delete_groups = some "DELETE GROUPS"
confirmation_phrase clear_tag_assignments = some "CLEAR TAG ASSIGNMENTS"
confirmation_phrase clear_interactive_history = some "CLEAR SESSION HISTORY"
confirmation_phrase rebuild_caches = some "REBUILD CACHES"
confirmation_phrase factory_reset = some "RESET CURATOR"
confirmation_phrase remove_phar_environment = some "DELETE P-HAR"
confirmation_phrase remove_archives = some "DELETE ARCHIVES"

unfoldable pub needs_restart : MaintenanceKind → Bool
needs_restart restore_backup = true
needs_restart factory_reset = true
needs_restart _ = false

-- `matches!(kind, RestoreBackup | ValidateBackup)`
unfoldable pub takes_backup : MaintenanceKind → Bool
takes_backup restore_backup = true
takes_backup validate_backup = true
takes_backup _ = false

pub record MaintenanceRequest : Type 0 where
  pub kind : MaintenanceKind
  pub confirmation : String
  pub backup_id : Option String

pub data MaintenancePhase : Type 0 where
  queued running succeeded failed : MaintenancePhase

pub record MaintenanceJob : Type 0 where
  pub id : String
  pub kind : MaintenanceKind
  pub phase : MaintenancePhase
  pub created_at : String
  pub finished_at : Option String
  pub message : String
  pub error : Option String
  pub backup_id : Option String
  pub restart_required : Bool

pub record JobResult : Type 0 where
  pub message : String
  pub backup_id : Option String
  pub restart_required : Bool
