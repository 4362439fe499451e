-- ===== src/Maintenance/Safety.antt =====
-- src/maintenance.rs: what a maintenance job needs to start, what it does first, and how it ends.
use text.Mathlib.Text.{◌==◌ as str_eq}
use mathlib.Core.Option
use curator_rs.Prelude.{
  String, ◌≡◌, ◌⊎◌, inl, inr, refl, ap, ◌∙◌, Bool, true, false, List, [], ◌∷◌, none, some, arith,
  ok, err, eq_iff, if◌then◌else◌, Option-cases, Result-cases,
}
use curator_rs.Text.{trim}
use curator_rs.Maintenance.Kinds.{
  MaintenanceKind, create_backup, validate_backup, clear_human_ratings, reset_ratings_and_evidence,
  flatten_groups, delete_groups, clear_tag_assignments, clear_interactive_history,
  reconcile_library, MaintenanceRequest, MaintenanceJob, JobResult, queued, is_destructive,
  confirmation_phrase, needs_restart,
}
use curator_rs.Maintenance.Work.{
  Library, perform, safety_backup, run_blocking, is_create, carry_out, create, after_backup,
  backup_some, then_do, return,
}
use curator_rs.Maintenance.Jobs.{
  MaintenanceController, insert_job, find_job, update_job, refusal, start, job_id, new_job,
}

find_job-insert_job :
    (id : String) (job : MaintenanceJob) (jobs : List (String × MaintenanceJob))
    → find_job id (insert_job id job jobs) ≡ some job
unfolding find_job insert_job
find_job-insert_job id job [] = ground (arith, eq_iff id id)
find_job-insert_job id job ((k, v) ∷ jobs) =
    ground (arith, eq_iff id id, eq_iff k id, find_job-insert_job id job jobs)

pub find_job-update_job :
    (id k : String) (f : MaintenanceJob → MaintenanceJob) (jobs : List (String × MaintenanceJob))
    → find_job k (update_job id f jobs)
      ≡ (if str_eq id k then Option.map f (find_job k jobs) else find_job k jobs)
unfolding find_job update_job
find_job-update_job id k f [] = ground arith
find_job-update_job id k f ((j, v) ∷ jobs) =
    ground (arith, eq_iff j id, eq_iff j k, eq_iff id k, find_job-update_job id k f jobs)

destructive_phrase : (k : MaintenanceKind) → confirmation_phrase k ≡ none → is_destructive k ≡ false
unfolding is_destructive confirmation_phrase
destructive_phrase create_backup h = refl
destructive_phrase validate_backup h = refl
destructive_phrase reconcile_library h = refl
destructive_phrase _ h = absurd (ground arith)

confirmed :
    (request : MaintenanceRequest)
    → refusal request ≡ none
    → (is_destructive request.kind ≡ false)
      ⊎ ((phrase : String) × (confirmation_phrase request.kind ≡ some phrase)
          × (trim request.confirmation ≡ phrase))
unfolding refusal
confirmed request h = elim (Option-cases (confirmation_phrase request.kind)) [
  | inl e ↦ inl (destructive_phrase request.kind e)
  | inr (phrase, e) ↦ inr (phrase, e, (eq_iff (trim request.confirmation) phrase).0 (ground arith))
]

-- A job that starts destroys nothing or was confirmed by the phrase of its kind; it found no other
-- job at work, closes the library to workers, and is queued under its id.
pub start-ok :
    (stamp now : String) (request : MaintenanceRequest) (c : MaintenanceController)
    {job : MaintenanceJob} {c' : MaintenanceController}
    → start stamp now request c ≡ ok (job, c')
    → ((is_destructive request.kind ≡ false)
        ⊎ ((phrase : String) × (confirmation_phrase request.kind ≡ some phrase)
            × (trim request.confirmation ≡ phrase)))
      × (c.active ≡ false)
      × (c'.active ≡ true)
      × (job.phase ≡ queued)
      × (find_job job.id c'.jobs ≡ some job)
unfolding start
start-ok stamp now request c {job} {c'} h = elim (Option-cases (refusal request)) [
  | inr (e, q) ↦ absurd (ground arith)
  | inl q ↦
      let id = job_id stamp c.next_id in
      let added = find_job-insert_job id (new_job id now request.kind) c.jobs in
      (confirmed request q, ground arith, ground arith, ground arith, ground (arith, added))
]

not_create : (k : MaintenanceKind) → is_destructive k ≡ true → is_create k ≡ false
unfolding is_destructive
not_create create_backup h = cc
not_create _ h = refl

module _ {W : Type 0} (l : Library W) where
  safety_backup-eq :
      (kind : MaintenanceKind) (w : W)
      → is_destructive kind ≡ true
      → safety_backup l kind w ≡ backup_some l w
  unfolding safety_backup
  safety_backup-eq kind w d = ap (λ b. if b then backup_some l w else (ok none, w)) d

  safety_backup-some :
      (kind : MaintenanceKind) (w : W) (id : String)
      → is_destructive kind ≡ true
      → (l.create_backup w).0 ≡ ok id
      → safety_backup l kind w ≡ (ok (some id), (l.create_backup w).1)
  safety_backup-some kind w id d h =
      safety_backup-eq kind w d
      ∙ ap (λ r. then_do {W = W} (λ id. return (some id)) r (l.create_backup w).1) h

  run_blocking_failed :
      (request : MaintenanceRequest) (w : W) (e : String)
      → is_destructive request.kind ≡ true
      → (l.create_backup w).0 ≡ err e
      → run_blocking l request w ≡ (err e, (l.create_backup w).1)
  unfolding run_blocking
  run_blocking_failed request w e d h =
      ap (λ p. then_do (after_backup l request) p.0 p.1)
        (safety_backup-eq request.kind w d
          ∙ ap (λ r. then_do {W = W} (λ id. return (some id)) r (l.create_backup w).1) h)

  pub run_blocking-some :
      (request : MaintenanceRequest) (w : W) (id : String)
      → is_destructive request.kind ≡ true
      → (l.create_backup w).0 ≡ ok id
      → run_blocking l request w ≡ carry_out l request (some id) (l.create_backup w).1
  unfolding run_blocking
  run_blocking-some request w id d h =
      let w1 = (l.create_backup w).1 in
      ap (λ p. then_do (after_backup l request) p.0 p.1) (safety_backup-some request.kind w id d h)
      ∙ ap (λ b. if b then create l w1 else carry_out l request (some id) w1)
          (not_create request.kind d)

  -- A destructive kind that succeeds took a backup first: its work started from the state that the
  -- backup left, and its result names the backup and says whether to restart.
  pub run_blocking-backup :
      (request : MaintenanceRequest) (result : JobResult) (w w' : W)
      → is_destructive request.kind ≡ true
      → run_blocking l request w ≡ (ok result, w')
      → (id : String) × ((l.create_backup w).0 ≡ ok id)
        × (result.backup_id ≡ some id)
        × ((perform l request request.kind (l.create_backup w).1).1 ≡ w')
        × (result.restart_required ≡ needs_restart request.kind)
  unfolding run_blocking safety_backup
  run_blocking-backup request result w w' d h = elim (Result-cases (l.create_backup w).0) [
    | inl (id, b) ↦
        let q = run_blocking-some request w id d b in
        (id, b, ground arith, ground arith, ground arith)
    | inr (e, b) ↦ absurd (let q = run_blocking_failed request w e d b in ground arith)
  ]

  -- The kinds that change the database alone.
  abbrev is_transactional : MaintenanceKind → Bool
  is_transactional clear_human_ratings = true
  is_transactional reset_ratings_and_evidence = true
  is_transactional flatten_groups = true
  is_transactional delete_groups = true
  is_transactional clear_tag_assignments = true
  is_transactional clear_interactive_history = true
  is_transactional _ = false
