-- ===== src/Maintenance/Outcome.antt =====
-- src/maintenance.rs: how a maintenance job ends, and what a failed transaction leaves.
use curator_rs.Prelude.{
  String, ◌≡◌, ◌≢◌, ◌⊎◌, inl, inr, refl, ◌∙◌, Bool, true, false, some, List, arith, ok, err, eq_iff,
  if◌then◌else◌, Result-cases,
}
use curator_rs.Maintenance.Kinds.{
  MaintenanceKind, clear_human_ratings, reset_ratings_and_evidence, flatten_groups, delete_groups,
  clear_tag_assignments, clear_interactive_history, MaintenanceRequest, MaintenanceJob, JobResult,
  succeeded, failed,
}
use curator_rs.Maintenance.Work.{Library}
use curator_rs.Maintenance.Jobs.{
  MaintenanceController, find_job, update_job, set_running, succeed, fail, work, run_job,
}
use curator_rs.Maintenance.Safety.{find_job-update_job}

-- The kinds whose work is one transaction on the database.
abbrev pub is_transactional : MaintenanceKind → Bool
is_transactional clear_human_ratings = true
is_transactional reset_ratings_and_evidence = true
is_transactional flatten_groups = true
is_transactional delete_groups = true
is_transactional clear_tag_assignments = true
is_transactional clear_interactive_history = true
is_transactional _ = false

-- The states that an open transaction passes through: some SQL has run in it, with what outcome, or a
-- commit has failed.
pub data Open {W : Type 0} (l : Library W) (w : W) : W → Type 0 where
  begun : {w1 : W} → l.begin w ≡ (ok tt, w1) → Open l w w1
  ran : (sql : String) {w1 : W} → Open l w w1 → Open l w (l.execute sql w1).1
  uncommitted : (e : String) {w1 w2 : W} → Open l w w1 → l.commit w1 ≡ (err e, w2) → Open l w w2

-- What SQLite documents: a transaction that cannot begin changes nothing, and to roll back an open one
-- restores the state in which it began.
pub record RollsBack {W : Type 0} (l : Library W) : Type 0 where
  pub unbegun : (w w' : W) (e : String) → l.begin w ≡ (err e, w') → w' ≡ w
  pub restored : (w w' : W) → Open l w w' → l.roll_back w' ≡ w

update_job-same :
    (id : String) (f : MaintenanceJob → MaintenanceJob) (jobs : List (String × MaintenanceJob))
    (job : MaintenanceJob)
    → find_job id jobs ≡ some job
    → find_job id (update_job id f jobs) ≡ some (f job)
update_job-same id f jobs job h = find_job-update_job id id f jobs ∙ rw ((eq_iff id id).1 refl, h)

update_job-other :
    (id other : String) (f : MaintenanceJob → MaintenanceJob)
    (jobs : List (String × MaintenanceJob))
    → id ≢ other
    → find_job other (update_job id f jobs) ≡ find_job other jobs
update_job-other id other f jobs d =
    ground (arith, find_job-update_job id other f jobs, eq_iff id other)

-- The controller when the work begins, and the updates of the record afterwards.
abbrev prepared : Bool → String → MaintenanceController → MaintenanceController
prepared quiesced id c =
    let c1 = set_running id "Quiescing downloads and background workers." c in
    if quiesced then set_running id "Running maintenance transaction." c1 else c1

abbrev done : JobResult → String → MaintenanceJob → MaintenanceJob
done result now job = record job {
  phase = succeeded;
  message = result.message;
  backup_id = result.backup_id;
  restart_required = result.restart_required;
  finished_at = some now;
}

abbrev undone : String → String → MaintenanceJob → MaintenanceJob
undone e now job = record job {
  phase = failed;
  message = "Maintenance did not complete; transactional changes were rolled back.";
  error = some e;
  finished_at = some now;
}

prepared-find :
    (quiesced : Bool) (id : String) (c : MaintenanceController) (job : MaintenanceJob)
    → find_job id c.jobs ≡ some job
    → (job2 : MaintenanceJob) × (find_job id (prepared quiesced id c).jobs ≡ some job2)
unfolding set_running
prepared-find false id c job h = (_, update_job-same id _ c.jobs job h)
prepared-find true id c job h = (_, update_job-same id _ _ _ (update_job-same id _ c.jobs job h))

prepared-other :
    (quiesced : Bool) (id other : String) (c : MaintenanceController)
    → id ≢ other
    → find_job other (prepared quiesced id c).jobs ≡ find_job other c.jobs
unfolding set_running
prepared-other false id other c d = update_job-other id other _ c.jobs d
prepared-other true id other c d =
    update_job-other id other _ _ d ∙ update_job-other id other _ c.jobs d

module _ {W : Type 0} (l : Library W) where
  -- However the work of a job goes, the task opens the library to workers again and leaves the
  -- job's record finished: succeeded with the result's backup and need of a restart, or failed with
  -- the error. The records of other jobs stay as they were.
  pub run_job-finished :
      (quiesced : Bool) (id : String) (request : MaintenanceRequest) (now : String) (w : W)
      (c : MaintenanceController) (job : MaintenanceJob) (other : String)
      → find_job id c.jobs ≡ some job
      → id ≢ other
      → let (w', c') = run_job l quiesced id request now w c in
        (c'.active ≡ false)
        × (find_job other c'.jobs ≡ find_job other c.jobs)
        × ((job' : MaintenanceJob) × (find_job id c'.jobs ≡ some job')
            × (job'.finished_at ≡ some now)
            × (((result : JobResult) × (work l quiesced request w ≡ (ok result, w'))
                  × (job'.phase ≡ succeeded)
                  × (job'.backup_id ≡ result.backup_id)
                  × (job'.restart_required ≡ result.restart_required))
                ⊎ ((e : String) × (work l quiesced request w ≡ (err e, w'))
                    × (job'.phase ≡ failed)
                    × (job'.error ≡ some e))))
  unfolding run_job set_running succeed fail
  run_job-finished quiesced id request now w c job other h d =
      let (job2, found) = prepared-find quiesced id c job h in
      let c2 = prepared quiesced id c in
      elim (Result-cases (work l quiesced request w).0) [
        | inl (result, p) ↦ rw p (
          refl,
          update_job-other id other _ c2.jobs d ∙ prepared-other quiesced id other c d,
          (
            _,
            update_job-same id (done result now) c2.jobs job2 found,
            refl,
            inl (result, ground arith, refl, refl, refl),
          ),
        )
        | inr (e, p) ↦ rw p (
          refl,
          update_job-other id other _ c2.jobs d ∙ prepared-other quiesced id other c d,
          (
            _,
            update_job-same id (undone e now) c2.jobs job2 found,
            refl,
            inr (e, ground arith, refl, refl),
          ),
        )
      ]
