-- ===== src/Downloads/Budget.antt =====
-- src/downloader.rs: the retries of a source and their delays.
use curator_rs.Prelude.{
  ℕ, zero, suc, ◌==◌, ==_iff, ◌+◌, ◌-◌, ◌*◌, ◌^◌, ◌≤◌, ◌<◌, ◌≡◌, inl, inr, String, Bool, true,
  false, Bool-cases, Option-cases, some, none, List, [], ◌∷◌, arith, min, length,
}
use native.Mathlib.Nat.{pow-suc}
use curator_rs.Storage.Limits.{SyncPause}
use curator_rs.Downloads.Retry.{
  retry_delay, retry_base, retry_cap, max_transient_retries, retryable_failure, rate_limited,
  is_exit,
}
use curator_rs.Downloads.Source.{retrying, Source, status_of_pause}
use curator_rs.Downloads.Decide.{Ended, decide, decide_unpaused, decide_failure, save, finish_run}

two_pow-suc : (m : ℕ) → 2 ^ suc m ≡ 2 * 2 ^ m
two_pow-suc m = omega (arith, pow-suc 2 m)

two_pow-pos : (m : ℕ) → 0 < 2 ^ m
two_pow-pos zero = omega arith
two_pow-pos (suc m) = omega (arith, two_pow-suc m, two_pow-pos m)

capped_bounds :
    (base cap attempt : ℕ)
    → base ≤ cap
    → (base ≤ min (base * 2 ^ min (attempt - 1) 8) cap)
      × (min (base * 2 ^ min (attempt - 1) 8) cap ≤ cap)
      × (min (base * 2 ^ min (attempt - 1) 8) cap ≤ min (base * 2 ^ min (attempt + 1 - 1) 8) cap)
capped_bounds base cap attempt h =
    let m = min (attempt - 1) 8 in
    let grown : base ≤ base * 2 ^ m = grind (arith, two_pow-pos m) in
    elim (Bool-cases (min (attempt + 1 - 1) 8 == m)) [
      | inl same ↦
          let p = (==_iff (min (attempt + 1 - 1) 8) m).0 same in rw p (omega (arith, h, grown))
      | inr further ↦
          let p : min (attempt + 1 - 1) 8 ≡ suc m = ground arith in
          rw (p, two_pow-suc m)
            (let twice : base * 2 ^ m ≤ base * (2 * 2 ^ m) = grind arith in
              omega (arith, h, grown, twice))
    ]

-- Each delay lies between its base and its cap, and no delay is shorter than the one before.
retry_delay_bounds :
    (attempt : ℕ) (is_rate_limited : Bool)
    → (retry_base is_rate_limited ≤ retry_delay attempt is_rate_limited)
      × (retry_delay attempt is_rate_limited ≤ retry_cap is_rate_limited)
      × (retry_delay attempt is_rate_limited ≤ retry_delay (attempt + 1) is_rate_limited)
unfolding retry_delay
retry_delay_bounds attempt true = capped_bounds 60 1800 attempt (omega arith)
retry_delay_bounds attempt false = capped_bounds 10 300 attempt (omega arith)

-- A run that is to be retried was not paused, interrupted or stopped by a limit, failed in a way that
-- may pass, and left a retry in the budget; the delay is that of the next attempt, and lies between
-- the base and the cap of its kind of failure.
pub decide-retrying :
    (attempts : ℕ) (e : Ended)
    → (decide attempts e).status ≡ retrying
    → (e.storage_pause ≡ none)
      × (e.was_paused ≡ false)
      × (e.was_interrupted ≡ false)
      × (is_exit 0 e.returncode ≡ false)
      × (retryable_failure e.returncode e.text ≡ true)
      × (attempts < max_transient_retries)
      × ((decide attempts e).delayed_retry
          ≡ some (retry_delay (attempts + 1) (rate_limited e.text)))
      × (retry_base (rate_limited e.text) ≤ retry_delay (attempts + 1) (rate_limited e.text))
      × (retry_delay (attempts + 1) (rate_limited e.text) ≤ retry_cap (rate_limited e.text))
unfolding decide decide_unpaused decide_failure status_of_pause
decide-retrying attempts e h =
    let (least, most, longer) = retry_delay_bounds (attempts + 1) (rate_limited e.text) in
    elim (Option-cases e.storage_pause) [
      | inl free ↦ ground arith
      | inr (SyncPause.source_quota used allowed, stopped) ↦ absurd (ground arith)
      | inr (SyncPause.low_disk free reserve, stopped) ↦ absurd (ground arith)
    ]

-- The source after runs that ended so, one after the other.
unfoldable pub runs : String → ℕ → List Ended → Source → Source
runs now seconds [] s = s
runs now seconds (e ∷ es) s = runs now seconds es (finish_run now seconds e s)

-- Each run of the list is retried.
abbrev pub AllRetried : String → ℕ → List Ended → Source → Type 0
AllRetried now seconds [] s = Unit
AllRetried now seconds (e ∷ es) s =
    ((finish_run now seconds e s).status ≡ retrying)
    × AllRetried now seconds es (finish_run now seconds e s)

finish_run-retrying :
    (now : String) (seconds : ℕ) (e : Ended) (s : Source)
    → (finish_run now seconds e s).status ≡ retrying
    → (s.retry_attempts < max_transient_retries)
      × ((finish_run now seconds e s).retry_attempts ≡ s.retry_attempts + 1)
unfolding finish_run save
finish_run-retrying now seconds e s h = ground (arith, decide-retrying s.retry_attempts e)

-- A source is retried six times in a row at most, whatever its runs end with: counted from the
-- attempts it has had.
pub AllRetried-length-le :
    (now : String) (seconds : ℕ) (es : List Ended) (s : Source)
    → s.retry_attempts ≤ max_transient_retries
    → AllRetried now seconds es s
    → s.retry_attempts + length es ≤ max_transient_retries
AllRetried-length-le now seconds [] s h r = omega (arith, h)
AllRetried-length-le now seconds (e ∷ es) s h (r, rs) =
    let (a, b) = finish_run-retrying now seconds e s r in
    omega (
      arith,
      a,
      b,
      AllRetried-length-le now seconds es (finish_run now seconds e s) (omega (arith, a, b)) rs,
    )
