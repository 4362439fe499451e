-- ===== src/Maintenance/Work.antt =====
-- src/maintenance.rs: `run_blocking`, `required_backup_id` and `transactional`. The other functions that
-- it calls, and SQLite, work on the database, the files of the library and the archives of the crate zip; they
-- are the operations of `Library`.
use Prim.Native.String
use curator_rs.Prelude.{
  ℕ, String, Bool, true, false, Option, none, some, Result, ok, err, if◌then◌else◌,
}
use curator_rs.Text.{is_blank, show}
use curator_rs.Maintenance.Kinds.{
  MaintenanceKind, create_backup, validate_backup, restore_backup, clear_human_ratings,
  reset_ratings_and_evidence, flatten_groups, delete_groups, clear_tag_assignments,
  clear_interactive_history, rebuild_caches, reconcile_library, factory_reset,
  remove_phar_environment, remove_archives, MaintenanceRequest, JobResult, is_destructive,
  needs_restart,
}

-- A call that works on the state `W` of database and files.
abbrev pub M : Type 0 → Type 0 → Type 0
M W A = W → Result String A × W

-- What follows a call: an error is passed on, with the state that the call left.
abbrev pub then_do : {W A B : Type 0} → (A → M W B) → Result String A → W → Result String B × W
then_do f (ok a) w = f a w
then_do f (err e) w = (err e, w)

infixl 5 ◌>>=◌ ◌>>◌
abbrev pub ◌>>=◌ : {W A B : Type 0} → M W A → (A → M W B) → M W B
◌>>=◌ m f w = then_do f (m w).0 (m w).1

abbrev pub ◌>>◌ : {W B : Type 0} → M W (Unit {0}) → M W B → M W B
m >> k = m >>= λ _. k

abbrev pub return : {W A : Type 0} → A → M W A
return a w = (ok a, w)

abbrev pub lift : {W A : Type 0} → Result String A → M W A
lift r w = (r, w)

pub record Library (W : Type 0) : Type 0 where
  -- an online backup, and its id
  pub create_backup : M W String
  pub validate_backup : String → M W (Unit {0})
  pub stage_restore : String → M W (Unit {0})
  -- a connection of the pool with a transaction, SQL in it, its commit, and what its drop leaves
  pub begin : M W (Unit {0})
  pub execute : String → M W (Unit {0})
  pub commit : M W (Unit {0})
  pub roll_back : W → W
  pub rebuild_caches : M W (Unit {0})
  -- the number of rows that changed
  pub reconcile : M W ℕ
  pub stage_factory_reset : M W (Unit {0})
  pub disable_phar : M W (Unit {0})
  pub remove_phar_directory : M W (Unit {0})
  pub remove_archives_directory : M W (Unit {0})
  pub create_archives_directory : M W (Unit {0})

unfoldable pub required_backup_id : MaintenanceRequest → Result String String
required_backup_id request = elim request.backup_id [
  | none ↦ err "A backup id is required."
  | some id ↦ if is_blank id then err "A backup id is required." else ok id
]

abbrev pub append_text : String → String → String
append_text s t = String.◌++◌ s t

-- `CreateBackup` is the arm that returns.
abbrev pub is_create : MaintenanceKind → Bool
is_create create_backup = true
is_create _ = false

abbrev pub with_backup : String → Option String → String
with_backup message none = message
with_backup message (some id) =
    append_text message (append_text " Safety backup: " (append_text id "."))

-- The SQL of the kinds that are one transaction; a line break in it stands as a space.
unfoldable pub statements : MaintenanceKind → String
statements clear_human_ratings =
    "UPDATE media SET human_rating=NULL, rating=CASE WHEN auto_rating BETWEEN 1 AND 5 THEN auto_rating ELSE 0 END, rating_source=CASE WHEN auto_rating BETWEEN 1 AND 5 THEN 'auto' ELSE 'none' END, rating_reviewed=0, rating_reviewed_at=NULL WHERE human_rating IS NOT NULL OR rating_source='human' OR rating_reviewed=1;"
statements reset_ratings_and_evidence =
    "UPDATE media SET rating=0, auto_rating=0, human_rating=NULL, rating_source='none', rating_reviewed=0, rating_reviewed_at=NULL, classifier_model=NULL, classifier_version=NULL, classifier_score=NULL, classifier_evidence=NULL, action_model=NULL, action_model_version=NULL, action_score=NULL, action_evidence=NULL, action_rating=0, classification_label='unclassified', manual_review_required=0, manual_review_reason=NULL, classification_updated_at=NULL, nsfw_attempts=0, nsfw_retry_at=0, nsfw_state=CASE WHEN downloaded=1 AND missing=0 AND type='image' THEN 'pending' ELSE 'manual' END;"
statements flatten_groups = "UPDATE groups SET parent_id=NULL WHERE parent_id IS NOT NULL"
statements delete_groups =
    "DELETE FROM media_groups; UPDATE sources SET group_id=NULL; DELETE FROM group_tags; DELETE FROM groups;"
statements clear_tag_assignments =
    "DELETE FROM media_tags; DELETE FROM media_tag_provenance; DELETE FROM group_tags; DELETE FROM source_tags; DELETE FROM source_tag_rules;"
statements clear_interactive_history = "DELETE FROM ch_sessions; DELETE FROM interactive_sessions;"
statements _ = ""

module _ {W : Type 0} (l : Library W) where
  -- A transaction that was not committed is rolled back when it is dropped.
  abbrev pub close : Result String (Unit {0}) → W → Result String (Unit {0}) × W
  close (ok u) w = (ok u, w)
  close (err e) w = (err e, l.roll_back w)

  abbrev pub committed : String → M W (Unit {0})
  committed sql = l.execute sql >> l.commit

  abbrev pub in_open : String → M W (Unit {0})
  in_open sql w = close (committed sql w).0 (committed sql w).1

  unfoldable pub transactional : String → M W (Unit {0})
  transactional sql = l.begin >> in_open sql

  -- The statements of one kind, and the message that follows them.
  abbrev pub in_transaction : MaintenanceKind → String → M W String
  in_transaction kind message = do transactional (statements kind); return message

  -- The `match` of `run_blocking` but for `CreateBackup`, which returns.
  unfoldable pub perform : MaintenanceRequest → MaintenanceKind → M W String
  perform request create_backup = return ""
  perform request validate_backup = do
    id ← lift (required_backup_id request)
    l.validate_backup id
    return "Backup is valid."
  perform request restore_backup = do
    id ← lift (required_backup_id request)
    l.stage_restore id
    return "Restore is staged and will apply when AvtoHmver restarts."
  perform request clear_human_ratings =
      in_transaction clear_human_ratings "Cleared human rating overrides."
  perform request reset_ratings_and_evidence =
      in_transaction reset_ratings_and_evidence
        "Reset ratings and classifier evidence; eligible images are queued for analysis."
  perform request flatten_groups =
      in_transaction flatten_groups "Flattened group nesting while retaining all assignments."
  perform request delete_groups =
      in_transaction delete_groups
        "Deleted group structure and assignments; sources, media, and tags remain."
  perform request clear_tag_assignments =
      in_transaction clear_tag_assignments
        "Cleared tag assignments and source-tag rules; tag names remain."
  perform request clear_interactive_history =
      in_transaction clear_interactive_history "Cleared interactive-session history."
  perform request rebuild_caches = do
    l.rebuild_caches
    return "Cleared thumbnail and derived cache files; they will be rebuilt on demand."
  perform request reconcile_library = do
    changed ← l.reconcile
    return (
        append_text "Reconciled library metadata ("
          (append_text (show changed) " rows changed) and restarted size backfill."))
  perform request factory_reset = do
    l.stage_factory_reset
    return
        "Factory reset is staged and will apply when AvtoHmver restarts; media, archives, P-HAR, and backups are preserved."
  perform request remove_phar_environment = do
    l.disable_phar
    l.remove_phar_directory
    return "Removed the AvtoHmver-managed P-HAR environment and disabled its setup request."
  perform request remove_archives = do
    l.remove_archives_directory
    l.create_archives_directory
    return "Removed downloaded archives."

  abbrev pub backup_some : W → Result String (Option String) × W
  backup_some w = (do id ← l.create_backup; return (some id)) w

  -- The backup that a destructive kind takes first.
  unfoldable pub safety_backup : MaintenanceKind → W → Result String (Option String) × W
  safety_backup kind w = if is_destructive kind then backup_some w else (ok none, w)

  -- `CreateBackup`.
  abbrev pub create : M W JobResult
  create = do
    id ← l.create_backup
    return (record {
      message = append_text "Created backup " (append_text id ".");
      backup_id = some id;
      restart_required = false;
    })

  -- The other kinds, and the result after them.
  abbrev pub carry_out : MaintenanceRequest → Option String → M W JobResult
  carry_out request backup_id = do
    message ← perform request request.kind
    return (record {
      message = with_backup message backup_id;
      backup_id = backup_id;
      restart_required = needs_restart request.kind;
    })

  abbrev pub after_backup : MaintenanceRequest → Option String → W → Result String JobResult × W
  after_backup request backup_id w =
      if is_create request.kind then create w else carry_out request backup_id w

  unfoldable pub run_blocking : MaintenanceRequest → M W JobResult
  run_blocking request = do backup_id ← safety_backup request.kind; after_backup request backup_id
