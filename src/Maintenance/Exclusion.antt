-- ===== src/Maintenance/Exclusion.antt =====
-- src/maintenance.rs: a job works on the library only while no background worker does.
use curator_rs.Prelude.{
  ℕ, zero, suc, ◌+◌, ◌≤◌, ◌<◌, ◌≡◌, ◌≢◌, Bool, true, false, List, [], ◌∷◌, ◌++◌, arith, length,
  length-append,
}
use curator_rs.Maintenance.Leases.{
  Worker, idle, checked, counted, refused, holding, absent, working, Controller, worker_step,
  job_step, move_worker, move_job, Step, by_worker, by_job, Reach, here, next, idle_workers,
  new_controller,
}

-- What a worker adds to the counter, and whether it holds a lease.
abbrev pub share : Worker → ℕ
share idle = 0
share checked = 0
share _ = 1

abbrev pub lease : Worker → ℕ
lease holding = 1
lease _ = 0

abbrev pub total : (Worker → ℕ) → List Worker → ℕ
total f [] = 0
total f (w ∷ ws) = f w + total f ws

total-append : (f : Worker → ℕ) (xs ys : List Worker) → total f (xs ++ ys) ≡ total f xs + total f ys
total-append f [] ys = omega arith
total-append f (x ∷ xs) ys = omega (arith, total-append f xs ys)

lease-le-share : (ws : List Worker) → total lease ws ≤ total share ws
lease-le-share [] = omega arith
lease-le-share (w ∷ ws) = ground (arith, lease-le-share ws)

share-le-length : (ws : List Worker) → total share ws ≤ length ws
share-le-length [] = omega arith
share-le-length (w ∷ ws) = ground (arith, share-le-length ws)

-- The counter counts, `active` is set exactly while there is a job, and a working job is alone.
pub record Inv (c : Controller) : Type 0 where
  pub few : length c.workers < 18446744073709551616
  pub counts : c.background_workers ≡ total share c.workers
  pub closed : c.job ≢ absent → c.active ≡ true
  pub opened : c.job ≡ absent → c.active ≡ false
  pub alone : c.job ≡ working → total lease c.workers ≡ 0

idle_workers-total :
    (n : ℕ)
    → (length (idle_workers n) ≡ n)
      × (total share (idle_workers n) ≡ 0)
      × (total lease (idle_workers n) ≡ 0)
idle_workers-total zero = omega arith
idle_workers-total (suc n) = omega (arith, idle_workers-total n)

new_controller-Inv : (n : ℕ) → n < 18446744073709551616 → Inv (new_controller n)
unfolding new_controller
new_controller-Inv n h = ground (arith, idle_workers-total n)

-- The sums over the workers, with one of them taken out.
sums :
    (before : List Worker) (w : Worker) (after : List Worker)
    → (length (before ++ w ∷ after) ≡ length before + suc (length after))
      × (total share (before ++ w ∷ after) ≡ total share before + (share w + total share after))
      × (total lease (before ++ w ∷ after) ≡ total lease before + (lease w + total lease after))
sums before w after = (
  length-append before (w ∷ after),
  total-append share before (w ∷ after),
  total-append lease before (w ∷ after),
)

-- One worker's step, on the sums alone.
move_worker-Inv :
    (c : Controller) (before : List Worker) (w : Worker) (after : List Worker)
    → c.workers ≡ before ++ w ∷ after
    → Inv c
    → Inv (move_worker before w after c)
unfolding move_worker worker_step
move_worker-Inv c before idle after e v = ground (
  arith,
  sums before idle after,
  sums before checked after,
  share-le-length before,
  share-le-length after,
)
move_worker-Inv c before checked after e v = ground (
  arith,
  sums before checked after,
  sums before counted after,
  share-le-length before,
  share-le-length after,
)
move_worker-Inv c before counted after e v = ground (
  arith,
  sums before counted after,
  sums before refused after,
  sums before holding after,
  share-le-length before,
  share-le-length after,
)
move_worker-Inv c before refused after e v = ground (
  arith,
  sums before refused after,
  sums before idle after,
  share-le-length before,
  share-le-length after,
)
move_worker-Inv c before holding after e v = ground (
  arith,
  sums before holding after,
  sums before idle after,
  share-le-length before,
  share-le-length after,
)

move_job-Inv :
    (c : Controller) (sources_idle is_late : Bool) → Inv c → Inv (move_job sources_idle is_late c)
unfolding move_job job_step
move_job-Inv c sources_idle is_late v = ground (arith, lease-le-share c.workers)

Step-Inv : {c d : Controller} → Step c d → Inv c → Inv d
Step-Inv {c} (by_worker before w after e) v = move_worker-Inv c before w after e v
Step-Inv {c} (by_job sources_idle is_late) v = move_job-Inv c sources_idle is_late v

Reach-Inv : {c d : Controller} → Reach c d → Inv c → Inv d
Reach-Inv here v = v
Reach-Inv (next r s) v = Step-Inv s (Reach-Inv r v)

-- However the steps of any number of workers and of the jobs interleave: while a job works on the
-- library, no worker holds a lease.
pub Reach-exclusive :
    (n : ℕ) (c : Controller)
    → n < 18446744073709551616
    → Reach (new_controller n) c
    → c.job ≡ working
    → total lease c.workers ≡ 0
Reach-exclusive n c h r w = (Reach-Inv r (new_controller-Inv n h)).alone w

-- However the steps of any number of workers and of the jobs interleave: when no job is left, the
-- library is open to workers again.
pub Reach-open :
    (n : ℕ) (c : Controller)
    → n < 18446744073709551616
    → Reach (new_controller n) c
    → c.job ≡ absent
    → c.active ≡ false
Reach-open n c h r a = (Reach-Inv r (new_controller-Inv n h)).opened a
