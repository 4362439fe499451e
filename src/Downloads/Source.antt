-- ===== src/Downloads/Source.antt =====
-- The columns of the table `sources` that syncing reads and writes. The URL and the slug are read
-- only; times of day are texts, and `retry_at` is in seconds.
use curator_rs.Prelude.{
  ℕ, String, Bool, true, false, Option, some, none, List, [], ◌∷◌, ◌==◌, if◌then◌else◌,
}
use curator_rs.Session.State.{ℤ}
use curator_rs.Storage.Limits.{SyncPause}

-- The texts of `status`.
pub data SourceStatus : Type 0 where
  pending downloading indexing retrying paused storage_limit low_disk done failed : SourceStatus

-- `SyncPause::status`
unfoldable pub status_of_pause : SyncPause → SourceStatus
status_of_pause (SyncPause.source_quota used allowed) = storage_limit
status_of_pause (SyncPause.low_disk free reserve) = low_disk

-- The texts of `error_message`, with what they print.
pub data RunError : Type 0 where
  paused_by_storage : SyncPause → RunError
  cancelled_by_user interrupted_by_shutdown : RunError
  skipped_by_size : ℕ → RunError
  temporary : ℤ → ℕ → ℕ → List ℕ → RunError
  final : List ℕ → RunError

pub record Source : Type 0 where
  pub id : ℕ
  pub url : List ℕ
  pub status : SourceStatus
  pub error : Option RunError
  pub item_count : ℕ
  pub completed_count : ℕ
  pub known_total : Option ℕ
  pub current_filename : Option String
  pub retry_attempts : ℕ
  pub retry_at : ℕ
  pub queued_at : Option String
  pub started_at : Option String
  pub completed_at : Option String
  pub storage_override_once : Bool

unfoldable pub find_source : ℕ → List Source → Option Source
find_source id [] = none
find_source id (s ∷ ss) = let rest = find_source id ss in if s.id == id then some s else rest

-- `UPDATE sources SET … WHERE …`
unfoldable pub update_sources : (Source → Bool) → (Source → Source) → List Source → List Source
update_sources test change [] = []
update_sources test change (s ∷ ss) =
    (if test s then change s else s) ∷ update_sources test change ss

abbrev pub is_status_pending : SourceStatus → Bool
is_status_pending pending = true
is_status_pending _ = false

abbrev pub is_status_retrying : SourceStatus → Bool
is_status_retrying retrying = true
is_status_retrying _ = false

abbrev pub is_status_paused : SourceStatus → Bool
is_status_paused paused = true
is_status_paused _ = false

-- `status IN ('pending','retrying')`
abbrev pub is_queued_status : SourceStatus → Bool
is_queued_status pending = true
is_queued_status retrying = true
is_queued_status _ = false

-- `status IN ('downloading','indexing')`
abbrev pub is_busy_status : SourceStatus → Bool
is_busy_status downloading = true
is_busy_status indexing = true
is_busy_status _ = false

-- `status IN ('done','error')`
abbrev pub is_ended_status : SourceStatus → Bool
is_ended_status done = true
is_ended_status failed = true
is_ended_status _ = false

-- `status IN ('paused','storage_limit','low_disk','error','done','retrying')`
abbrev pub is_resumable_status : SourceStatus → Bool
is_resumable_status pending = false
is_resumable_status downloading = false
is_resumable_status indexing = false
is_resumable_status _ = true
