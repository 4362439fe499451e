-- ===== src/Maintenance/Tests.antt =====
-- Runs of the maintenance model, and its theorems at these runs.
use curator_rs.Prelude.{
  ℕ, String, ◌+◌, ◌≡◌, ◌≢◌, ◌⊎◌, refl, true, false, [], ◌∷◌, none, some, arith, ok, err, eq_iff,
}
use curator_rs.Text.{is_whitespace, is_blank, trim, trim_start, trim_end, show, show_digits}
use curator_rs.Maintenance.Kinds.{
  flatten_groups, factory_reset, MaintenanceRequest, MaintenanceJob, queued, is_destructive,
  confirmation_phrase, needs_restart, takes_backup,
}
use curator_rs.Maintenance.Leases.{
  Worker, idle, checked, counted, absent, working, Controller, worker_step, job_step, move_worker,
  move_job, by_worker, by_job, Reach, here, next, new_controller,
}
use curator_rs.Maintenance.Exclusion.{lease, total, Reach-exclusive, Reach-open}
use curator_rs.Maintenance.Work.{
  Library, transactional, perform, run_blocking, safety_backup, required_backup_id,
}
use curator_rs.Maintenance.Jobs.{
  MaintenanceController, insert_job, find_job, update_job, refusal, start, set_running, succeed,
  fail, work, run_job, unconfirmed, already_running, new_job, job_id,
}
use curator_rs.Maintenance.Safety.{start-ok, run_blocking-backup}

model : Unit {0}
unfolding is_whitespace is_blank trim trim_start trim_end show show_digits is_destructive
    confirmation_phrase needs_restart takes_backup worker_step job_step move_worker move_job
    new_controller perform run_blocking safety_backup required_backup_id insert_job find_job
    transactional update_job refusal start set_running succeed fail work run_job
model = tt

-- One worker looks, then a job takes the library, then the worker counts itself: it is refused,
-- and the job works when the counter is back at zero.
abbrev raced : Controller
raced = move_job true false (
    move_worker [] Worker.refused [] (
      move_worker [] counted [] (
        move_worker [] checked []
          (move_job true false (move_worker [] idle [] (new_controller 1))))))

raced_works : raced.job ≡ working
unfolding model
raced_works = refl

raced-Reach : Reach (new_controller 1) raced
unfolding model
raced-Reach =
    next
      (next
        (next
          (next (next (next here (by_worker [] idle [] refl)) (by_job true false))
            (by_worker [] checked [] refl))
          (by_worker [] counted [] refl))
        (by_worker [] Worker.refused [] refl))
      (by_job true false)

Reach-exclusive_example : total lease raced.workers ≡ 0
Reach-exclusive_example = Reach-exclusive 1 raced (omega arith) raced-Reach raced_works

abbrev released : Controller
released = move_job true false (move_job true false raced)

released_absent : released.job ≡ absent
unfolding model
released_absent = refl

Reach-open_example : released.active ≡ false
Reach-open_example =
    Reach-open 1 released (omega arith)
      (next (next raced-Reach (by_job true false)) (by_job true false)) released_absent

-- A library that counts the calls that change it; its transactions fail.
abbrev counting : Library ℕ
counting = record {
  create_backup = λ w. (ok "a.zip", w + 1);
  validate_backup = λ id w. (ok tt, w);
  stage_restore = λ id w. (ok tt, w + 1);
  begin = λ w. (ok tt, w);
  execute = λ sql w. (err "disk full", w);
  commit = λ w. (ok tt, w);
  roll_back = λ w. w;
  rebuild_caches = λ w. (ok tt, w + 1);
  reconcile = λ w. (ok 3, w + 1);
  stage_factory_reset = λ w. (ok tt, w + 1);
  disable_phar = λ w. (ok tt, w + 1);
  remove_phar_directory = λ w. (ok tt, w + 1);
  remove_archives_directory = λ w. (ok tt, w + 1);
  create_archives_directory = λ w. (ok tt, w + 1);
}

abbrev flatten : MaintenanceRequest
flatten = record { kind = flatten_groups; confirmation = " FLATTEN GROUPS\n"; backup_id = none }

abbrev resting : MaintenanceController
resting = record { active = false; next_id = 7; jobs = [] }

abbrev flatten_job : MaintenanceJob
flatten_job = new_job (job_id "20260101" 7) "now" flatten_groups

abbrev busy : MaintenanceController
busy = record { active = true; next_id = 8; jobs = (job_id "20260101" 7, flatten_job) ∷ [] }

flatten_starts : start "20260101" "now" flatten resting ≡ ok (flatten_job, busy)
unfolding model
flatten_starts = refl

unconfirmed_test :
    start "20260101" "now" (record flatten { confirmation = "yes" }) resting
    ≡ err (unconfirmed "FLATTEN GROUPS")
unfolding model
unconfirmed_test = refl

second_test : start "20260101" "now" flatten busy ≡ err already_running
unfolding model
second_test = refl

start-ok_example :
    ((is_destructive flatten_groups ≡ false)
      ⊎ ((phrase : String) × (confirmation_phrase flatten_groups ≡ some phrase)
          × (trim " FLATTEN GROUPS\n" ≡ phrase)))
    × (resting.active ≡ false)
    × (busy.active ≡ true)
    × (flatten_job.phase ≡ queued)
    × (find_job flatten_job.id busy.jobs ≡ some flatten_job)
start-ok_example = start-ok "20260101" "now" flatten resting flatten_starts

abbrev rebuild : MaintenanceRequest
rebuild = record { kind = factory_reset; confirmation = "FACTORY RESET"; backup_id = none }

abbrev staged : String
staged =
    "Factory reset is staged and will apply when AvtoHmver restarts; media, archives, P-HAR, and backups are preserved. Safety backup: a.zip."

run_blocking-backup_example :
    (id : String) × ((counting.create_backup 0).0 ≡ ok id)
    × (some "a.zip" ≡ some id)
    × ((perform counting rebuild factory_reset 1).1 ≡ 2)
    × (true ≡ needs_restart factory_reset)
unfolding model
run_blocking-backup_example =
    run_blocking-backup counting rebuild
      (record { message = staged; backup_id = some "a.zip"; restart_required = true }) 0 2 refl refl

other_id : job_id "20260101" 7 ≢ "other"
unfolding model
other_id e = absurd (ground (arith, (eq_iff (job_id "20260101" 7) "other").1 e))
