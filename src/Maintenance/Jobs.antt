-- ===== src/Maintenance/Jobs.antt =====
-- src/maintenance.rs: `MaintenanceController::start`, the task that it spawns, and the records that
-- the task keeps. The times of day are arguments.
use text.Mathlib.Text.{◌==◌ as str_eq}
use curator_rs.Prelude.{
  ℕ, String, ◌+◌, ◌%◌, Bool, true, false, ◌&&◌, List, [], ◌∷◌, Option, none, some, Result, ok, err,
  if◌then◌else◌,
}
use curator_rs.Text.{is_blank, trim, show}
use curator_rs.Maintenance.Kinds.{
  MaintenanceKind, MaintenanceRequest, queued, running, succeeded, failed, MaintenanceJob,
  JobResult, confirmation_phrase, takes_backup,
}
use curator_rs.Maintenance.Work.{M, Library, run_blocking, append_text}

pub data StartError : Type 0 where
  -- "Type {phrase} to run this maintenance action."
  unconfirmed : String → StartError
  no_backup_chosen already_running : StartError

pub record MaintenanceController : Type 0 where
  pub active : Bool
  pub next_id : ℕ
  pub jobs : List (String × MaintenanceJob)

-- `BTreeMap::insert` and `get`
unfoldable pub insert_job :
    String → MaintenanceJob → List (String × MaintenanceJob) → List (String × MaintenanceJob)
insert_job id job [] = (id, job) ∷ []
insert_job id job ((k, v) ∷ jobs) =
    if str_eq k id then (id, job) ∷ jobs else (k, v) ∷ insert_job id job jobs

unfoldable pub find_job : String → List (String × MaintenanceJob) → Option MaintenanceJob
find_job id [] = none
find_job id ((k, v) ∷ jobs) = if str_eq k id then some v else find_job id jobs

-- `if let Some(job) = jobs.get_mut(id) { … }`
unfoldable pub update_job :
    String
    → (MaintenanceJob → MaintenanceJob)
    → List (String × MaintenanceJob)
    → List (String × MaintenanceJob)
update_job id f [] = []
update_job id f ((k, v) ∷ jobs) =
    if str_eq k id then (k, f v) ∷ jobs else (k, v) ∷ update_job id f jobs

abbrev pub is_unconfirmed : Option String → String → Option StartError
is_unconfirmed none confirmation = none
is_unconfirmed (some phrase) confirmation =
    if str_eq (trim confirmation) phrase then none else some (unconfirmed phrase)

-- `backup_id.as_deref().unwrap_or_default().trim().is_empty()`
abbrev pub lacks_backup : Option String → Bool
lacks_backup none = true
lacks_backup (some id) = is_blank id

-- The tests of `start` before it takes `active`.
unfoldable pub refusal : MaintenanceRequest → Option StartError
refusal request = elim (is_unconfirmed (confirmation_phrase request.kind) request.confirmation) [
  | some e ↦ some e
  | none ↦
      if takes_backup request.kind && lacks_backup request.backup_id
      then some no_backup_chosen
      else none
]

abbrev pub new_job : String → String → MaintenanceKind → MaintenanceJob
new_job id now kind = record {
  id = id;
  kind = kind;
  phase = queued;
  created_at = now;
  finished_at = none;
  message = "Waiting for maintenance mode.";
  error = none;
  backup_id = none;
  restart_required = false;
}

abbrev pub job_id : String → ℕ → String
job_id stamp n = append_text "job-" (append_text stamp (append_text "-" (show n)))

-- `start` up to the spawn. An error leaves the controller as it was.
unfoldable pub start :
    String
    → String
    → MaintenanceRequest
    → MaintenanceController
    → Result StartError (MaintenanceJob × MaintenanceController)
start stamp now request c = elim (refusal request) [
  | some e ↦ err e
  | none ↦
      if c.active
      then err already_running
      else (let id = job_id stamp c.next_id in
          let job = new_job id now request.kind in
          ok (
            job,
            record c {
              active = true;
              next_id = (c.next_id + 1) % 18446744073709551616;
              jobs = insert_job id job c.jobs;
            },
          ))
]

unfoldable pub set_running : String → String → MaintenanceController → MaintenanceController
set_running id message c = record c {
  jobs = update_job id (λ job. record job { phase = running; message = message }) c.jobs;
}

unfoldable pub succeed : String → JobResult → String → MaintenanceController → MaintenanceController
succeed id result now c = record c {
  jobs =
      update_job id
        (λ job. record job {
          phase = succeeded;
          message = result.message;
          backup_id = result.backup_id;
          restart_required = result.restart_required;
          finished_at = some now;
        })
        c.jobs;
}

unfoldable pub fail : String → String → String → MaintenanceController → MaintenanceController
fail id error now c = record c {
  jobs =
      update_job id
        (λ job. record job {
          phase = failed;
          message = "Maintenance did not complete; transactional changes were rolled back.";
          error = some error;
          finished_at = some now;
        })
        c.jobs;
}

abbrev pub settle :
    String → Result String JobResult → String → MaintenanceController → MaintenanceController
settle id (ok result) now c = succeed id result now c
settle id (err error) now c = fail id error now c

module _ {W : Type 0} (l : Library W) where
  -- The result of the task's work: `quiesced` is what `wait_for_quiescence` returned.
  unfoldable pub work : Bool → MaintenanceRequest → M W JobResult
  work quiesced request w = if quiesced then run_blocking l request w else (
    err
        "Timed out waiting for active download or background workers to stop; no changes were made.",
    w,
  )

  -- The spawned task, from the records that it writes to the store of `active`.
  unfoldable pub run_job :
      Bool
      → String
      → MaintenanceRequest
      → String
      → W
      → MaintenanceController
      → W × MaintenanceController
  run_job quiesced id request now w c =
      let c1 = set_running id "Quiescing downloads and background workers." c in
      let c2 = if quiesced then set_running id "Running maintenance transaction." c1 else c1 in
      let (result, w') = work quiesced request w in
      (w', record (settle id result now c2) { active = false })
