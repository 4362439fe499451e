-- ===== src/Maintenance/Leases.antt =====
-- src/maintenance.rs: `try_acquire_background_worker`, the drop of a lease, and the part of
-- `MaintenanceController::start` that takes and returns the library, as interleaved steps. Each
-- atomic operation is one step, and the steps are taken one after another.
use curator_rs.Prelude.{
  ℕ, zero, suc, ◌+◌, ◌%◌, Bool, true, false, ◌&&◌, List, [], ◌∷◌, ◌++◌, ◌≡◌, ◌==◌, if◌then◌else◌,
}

-- Where a background worker stands.
pub data Worker : Type 0 where
  -- it has no lease; the first look at `active` passed; `fetch_add` is done; the second look failed
  idle checked counted refused : Worker
  -- it has its lease and changes the library
  holding : Worker

-- Where the maintenance job stands.
pub data Job : Type 0 where
  -- there is none; `active` is taken, and the job waits for the workers
  absent waiting : Job
  -- the job changes the library; it is over, and `active` is still set
  working closing : Job

pub record Controller : Type 0 where
  pub active : Bool
  pub background_workers : ℕ
  pub workers : List Worker
  pub job : Job

-- `fetch_add(1)` and `fetch_sub(1)` on an `AtomicUsize` of 64 bits.
abbrev pub fetch_add : ℕ → ℕ
fetch_add n = (n + 1) % 18446744073709551616

abbrev pub fetch_sub : ℕ → ℕ
fetch_sub n = (n + 18446744073709551615) % 18446744073709551616

-- The next atomic step of a worker: the counter, and where the worker stands afterwards.
unfoldable pub worker_step : Bool → ℕ → Worker → ℕ × Worker
worker_step active n idle = (n, if active then idle else checked)
worker_step active n checked = (fetch_add n, counted)
worker_step active n counted = (n, if active then refused else holding)
worker_step active n refused = (fetch_sub n, idle)
worker_step active n holding = (fetch_sub n, idle)

-- The next step of the job: `compare_exchange`, one round of `wait_for_quiescence`, the end of the
-- work, and the store that opens the library again. `sources_idle` is what `running_sources` says,
-- `is_late` whether the deadline of thirty seconds has passed.
unfoldable pub job_step : Bool → Bool → Bool → ℕ → Job → Bool × Job
job_step sources_idle is_late active n absent = (true, if active then absent else waiting)
job_step sources_idle is_late active n waiting =
    (active, if sources_idle && n == 0 then working else if is_late then closing else waiting)
job_step sources_idle is_late active n working = (active, closing)
job_step sources_idle is_late active n closing = (false, absent)

unfoldable pub move_worker : List Worker → Worker → List Worker → Controller → Controller
move_worker before w after c =
    let (n, w') = worker_step c.active c.background_workers w in
    record c { background_workers = n; workers = before ++ w' ∷ after }

unfoldable pub move_job : Bool → Bool → Controller → Controller
move_job sources_idle is_late c =
    let (active, job) = job_step sources_idle is_late c.active c.background_workers c.job in
    record c { active = active; job = job }

-- Any worker, or the job, takes its next step.
pub data Step (c : Controller) : Controller → Type 0 where
  by_worker :
      (before : List Worker) (w : Worker) (after : List Worker)
      → c.workers ≡ before ++ w ∷ after
      → Step c (move_worker before w after c)
  by_job : (sources_idle is_late : Bool) → Step c (move_job sources_idle is_late c)

pub data Reach (c : Controller) : Controller → Type 0 where
  here : Reach c c
  next : {d e : Controller} → Reach c d → Step d e → Reach c e

-- `MaintenanceController::new`, with workers that have no lease.
abbrev pub idle_workers : ℕ → List Worker
idle_workers zero = []
idle_workers (suc n) = idle ∷ idle_workers n

unfoldable pub new_controller : ℕ → Controller
new_controller n = record {
  active = false;
  background_workers = 0;
  workers = idle_workers n;
  job = absent;
}
