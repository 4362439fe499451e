-- ===== src/Downloads/Decide.antt =====
-- src/downloader.rs, the end of `run_download_inner`: what a run of gallery-dl that has ended means
-- for its source, and how the source is saved.
use curator_rs.Prelude.{
  ℕ, ◌+◌, Bool, not, ◌&&◌, ◌||◌, Option, some, none, List, ◌==◌, ltb, if◌then◌else◌, String,
}
use curator_rs.Session.State.{ℤ}
use curator_rs.Storage.Limits.{SyncPause}
use curator_rs.Downloads.Retry.{
  max_transient_retries, rate_limited, filesize_skip_output, retryable_failure, retry_delay,
  error_detail, is_exit,
}
use curator_rs.Downloads.Source.{
  SourceStatus, retrying, paused, done, failed, status_of_pause, RunError, paused_by_storage,
  cancelled_by_user, interrupted_by_shutdown, skipped_by_size, temporary, final, Source,
  is_ended_status, is_status_retrying,
}

-- What is known when gallery-dl has ended: whether the run was interrupted, and whether by its
-- cancellation; whether the source is among those that are paused, and which limit stopped it; how
-- many items are new and how many the size limit kept out, since the start and altogether; and the
-- two outputs together.
pub record Ended : Type 0 where
  pub returncode : ℤ
  pub was_interrupted : Bool
  pub was_cancelled : Bool
  pub was_paused : Bool
  pub storage_pause : Option SyncPause
  pub total : ℕ
  pub new_count : ℕ
  pub skipped_for_size : ℕ
  pub new_size_skips : ℕ
  pub text : List ℕ

-- The status and the error to save, the delay of a retry, and the delay that the provider's cooldown
-- is extended by.
pub record Decision : Type 0 where
  pub status : SourceStatus
  pub error : Option RunError
  pub delayed_retry : Option ℕ
  pub cooldown : Option ℕ

abbrev pub settled : SourceStatus → Option RunError → Decision
settled status error = record {
  status = status;
  error = error;
  delayed_retry = none;
  cooldown = none;
}

unfoldable pub decide_failure : ℕ → Ended → Decision
decide_failure retry_attempts e =
    if retryable_failure e.returncode e.text && ltb retry_attempts max_transient_retries
    then (let delay = retry_delay (retry_attempts + 1) (rate_limited e.text) in
        record {
          status = retrying;
          error = some (temporary e.returncode (retry_attempts + 1) delay (error_detail e.text));
          delayed_retry = some delay;
          cooldown = (if rate_limited e.text then some delay else none);
        })
    else settled failed (some (final (error_detail e.text)))

-- A size skip is a completed decision.
unfoldable pub is_size_skip : Ended → Bool
is_size_skip e =
    (ltb 0 e.new_size_skips || ltb 0 e.skipped_for_size && filesize_skip_output e.text)
    && (filesize_skip_output e.text
        || e.new_count == 0 && not (retryable_failure e.returncode e.text))

unfoldable pub decide_unpaused : ℕ → Ended → Decision
decide_unpaused retry_attempts e =
    if e.was_paused
    then settled paused none
    else if e.was_interrupted
    then settled paused
        (some (if e.was_cancelled then cancelled_by_user else interrupted_by_shutdown))
    else if is_exit 0 e.returncode
    then settled done none
    else if is_size_skip e
    then settled done (some (skipped_by_size e.skipped_for_size))
    else decide_failure retry_attempts e

unfoldable pub decide : ℕ → Ended → Decision
decide retry_attempts e = elim e.storage_pause [
  | some pause ↦ settled (status_of_pause pause) (some (paused_by_storage pause))
  | none ↦ decide_unpaused retry_attempts e
]

abbrev or_zero : Option ℕ → ℕ
or_zero (some n) = n
or_zero none = 0

-- The two statements that save the source; `now` is the time of day and `seconds` the clock.
unfoldable pub save : String → ℕ → Ended → Decision → Source → Source
save now seconds e d s =
    let s' : Source = record s {
      status = d.status;
      item_count = e.total;
      completed_count = e.total;
      error = d.error;
      current_filename = none;
    } in
    if is_status_retrying d.status
    then record s' {
      retry_attempts = s.retry_attempts + 1;
      retry_at = seconds + or_zero d.delayed_retry;
    }
    else if is_ended_status d.status
    then record s' { completed_at = some now; retry_attempts = 0; retry_at = 0 }
    else s'

-- One run of a source that gallery-dl ends so.
unfoldable pub finish_run : String → ℕ → Ended → Source → Source
finish_run now seconds e s = save now seconds e (decide s.retry_attempts e) s
