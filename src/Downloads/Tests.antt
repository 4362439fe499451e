-- ===== src/Downloads/Tests.antt =====
-- Runs of the syncing model, and its theorems at these runs.
use curator_rs.Prelude.{
  ℕ, ◌+◌, ◌≤◌, ◌<◌, ◌≡◌, ◌⊎◌, refl, true, false, some, none, List, [], ◌∷◌, map, arith, err, length,
}
use curator_rs.Ascii.{
  codes, to_lower, lowered, contains_text, starts_with, is_one_of, contains_one_of,
}
use curator_rs.Session.State.{pos}
use curator_rs.Session.Samples.{thousandths}
use curator_rs.Storage.Limits.{Settings, source_sync_admission, reserve_pause, full_pause}
use curator_rs.Downloads.Retry.{
  filesize_skip_output, retry_delay, max_transient_retries, rate_limited, retryable_failure,
  is_exit,
}
use curator_rs.Downloads.Source.{
  Source, SourceStatus, pending, downloading, indexing, paused, done, find_source, update_sources,
}
use curator_rs.Downloads.Decide.{
  Ended, decide, decide_unpaused, decide_failure, is_size_skip, save, finish_run,
}
use curator_rs.Downloads.Budget.{AllRetried-length-le}
use curator_rs.Downloads.Admit.{
  Moments, granted, is_local_import, applies_limits, take_place, after_admission, on_admission,
  admit_run,
}
use curator_rs.Downloads.Limits.{admit_run-go}
use curator_rs.Downloads.Controls.{
  DownloadState, Admission, cancel_token, pause_process, pause_processes, pause_token, pause_tokens,
  pause_unchecked, requeue_each, paused_sources, resume_unchecked, resume_typed, maintenance_active,
  refusal, pause_source_typed, resume_source_typed, kill_process, begin_run, end_run,
}
use curator_rs.Downloads.Pausing.{IsQuiet, pause_unchecked-IsQuiet}
use curator_rs.Downloads.Resuming.{resumed, resume_unchecked-ok}
use curator_rs.Downloads.Report.{
  Row, phase_of, percentage_of, completed_of, row_status, report_rows, status,
}
use curator_rs.Downloads.Queue.{positions, numbers_from}

model : Unit {0}
unfolding to_lower lowered contains_text starts_with is_one_of contains_one_of source_sync_admission
    reserve_pause full_pause retry_delay filesize_skip_output rate_limited retryable_failure is_exit
    find_source update_sources decide decide_unpaused decide_failure is_size_skip save finish_run
    is_local_import applies_limits take_place after_admission on_admission admit_run cancel_token
    pause_process pause_processes pause_token pause_tokens pause_unchecked requeue_each
    paused_sources resume_unchecked resume_typed refusal pause_source_typed resume_source_typed
    kill_process begin_run end_run phase_of percentage_of completed_of row_status report_rows status
    positions numbers_from
model = tt

-- A run that the provider ended with its limit of requests.
abbrev limited : Ended
limited = record {
  returncode = pos 1;
  was_interrupted = false;
  was_cancelled = false;
  was_paused = false;
  storage_pause = none;
  total = 3;
  new_count = 0;
  skipped_for_size = 0;
  new_size_skips = 0;
  text = codes "HTTP 429 Too Many Requests";
}

abbrev fresh : ℕ → SourceStatus → Source
fresh n st = record {
  id = n;
  url = codes "https://example.com/gallery";
  status = st;
  error = none;
  item_count = 3;
  completed_count = 3;
  known_total = some 4;
  current_filename = none;
  retry_attempts = 0;
  retry_at = 0;
  queued_at = none;
  started_at = none;
  completed_at = none;
  storage_override_once = false;
}

limited_test : (decide 0 limited).delayed_retry ≡ some 60
unfolding model
limited_test = refl

sixth_test : (decide 5 limited).delayed_retry ≡ some 1800
unfolding model
sixth_test = refl

seventh_test : (decide 6 limited).delayed_retry ≡ none
unfolding model
seventh_test = refl

AllRetried-length-le_example : 0 + length (limited ∷ limited ∷ []) ≤ max_transient_retries
unfolding model
AllRetried-length-le_example =
    AllRetried-length-le "noon" 100 (limited ∷ limited ∷ []) (fresh 1 downloading) (omega arith)
      (refl, (refl, tt))

abbrev limits : Settings
limits = record {
  minimum_free_disk_bytes = some 1000;
  max_source_storage_bytes = some 500;
  apply_download_limits_to_local_imports = false;
}

abbrev smooth : Moments
smooth = record {
  paused_at_start = false;
  cooled_down = true;
  paused_after_cooldown = false;
  permit = granted;
  paused_at_last = false;
}

-- A source over its limit that may exceed it once.
abbrev excused : Source
excused = record (fresh 1 pending) { storage_override_once = true }

abbrev started : Source
started = record (fresh 1 downloading) { started_at = some "noon" }

admit_run-go_example :
    (1000 ≤ 2000)
    × (started.status ≡ downloading)
    × (smooth.paused_at_last ≡ false)
    × ((800 < 500)
        ⊎ ((excused.storage_override_once ≡ true) × (started.storage_override_once ≡ false)))
unfolding model
admit_run-go_example =
    admit_run-go "noon" limits 1000 500 2000 800 smooth excused started refl refl refl refl

-- One source runs, one waits with a token, one is queued and one is done.
abbrev busy : DownloadState
busy = record {
  sources = fresh 1 downloading ∷ fresh 2 indexing ∷ fresh 3 pending ∷ fresh 4 done ∷ [];
  is_paused = false;
  paused_ids = [];
  processes = (1, 101) ∷ [];
  tokens = (1, false) ∷ (2, false) ∷ [];
  running = 1 ∷ 2 ∷ [];
  killed = [];
  spawned = [];
}

paused_test : paused_sources (pause_unchecked busy).sources ≡ 2 ∷ 3 ∷ []
unfolding model
paused_test = refl

-- Resuming waits for the runs to end.
waits_test : resume_unchecked "noon" (pause_unchecked busy) ≡ none
unfolding model
waits_test = refl

pause_unchecked-IsQuiet_example : IsQuiet busy (pause_unchecked busy)
pause_unchecked-IsQuiet_example = pause_unchecked-IsQuiet busy

abbrev idle : DownloadState
idle = record busy {
  sources = fresh 1 paused ∷ fresh 2 paused ∷ fresh 4 done ∷ [];
  is_paused = true;
  paused_ids = 1 ∷ 2 ∷ [];
  processes = [];
  tokens = [];
  running = [];
}

resume_unchecked-ok_example :
    resume_unchecked "noon" idle
    ≡ some (
      2,
      record idle {
        sources = map (resumed "noon") idle.sources;
        paused_ids = [];
        is_paused = false;
        spawned = 1 ∷ 2 ∷ [];
      },
    )
unfolding model
resume_unchecked-ok_example = resume_unchecked-ok "noon" idle refl

-- A control is refused while maintenance is active.
refused_test :
    resume_typed
      (record { is_shutting_down = false; has_lease = false; is_shutting_down_later = false })
      "noon"
      idle
    ≡ some (err maintenance_active, idle)
unfolding model
refused_test = refl

abbrev admitted : Admission
admitted = record { is_shutting_down = false; has_lease = true; is_shutting_down_later = false }

abbrev report : List Row
report =
    (fresh 1 downloading, 3) ∷ (fresh 3 pending, 0) ∷ (fresh 4 done, 4) ∷ (fresh 5 pending, 0) ∷ []

positions_test : positions {F = ℕ} (status busy report).sources ≡ 1 ∷ 2 ∷ []
unfolding model
positions_test = refl
