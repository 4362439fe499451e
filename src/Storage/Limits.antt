-- ===== src/Storage/Limits.antt =====
-- src/storage.rs: `SyncPause`, `source_sync_admission` and `active_sync_pause`. What the disk and the
-- directory of the source hold are arguments.
use curator_rs.Prelude.{ℕ, Bool, true, Option, some, none, or_else, ltb, leb, if◌then◌else◌}

-- The fields of `Settings` that the limits read.
pub record Settings : Type 0 where
  pub minimum_free_disk_bytes : Option ℕ
  pub max_source_storage_bytes : Option ℕ
  pub apply_download_limits_to_local_imports : Bool

pub data SyncPause : Type 0 where
  source_quota low_disk : ℕ → ℕ → SyncPause

-- `available_disk_bytes` returns nothing where the system does not tell.
unfoldable pub reserve_pause : Option ℕ → Option ℕ → Option SyncPause
reserve_pause (some reserve) (some free) =
    if ltb free reserve then some (low_disk free reserve) else none
reserve_pause _ _ = none

unfoldable pub full_pause : Bool → Option ℕ → ℕ → Option SyncPause
full_pause true (some limit) used = if leb limit used then some (source_quota used limit) else none
full_pause _ _ used = none

unfoldable pub over_pause : Bool → Option ℕ → ℕ → Option SyncPause
over_pause true (some limit) used = if ltb limit used then some (source_quota used limit) else none
over_pause _ _ used = none

unfoldable pub source_sync_admission : Settings → Option ℕ → ℕ → Bool → Option SyncPause
source_sync_admission s free used apply_source_limits =
    or_else (reserve_pause s.minimum_free_disk_bytes free)
      (full_pause apply_source_limits s.max_source_storage_bytes used)

unfoldable pub active_sync_pause : Settings → Option ℕ → ℕ → Bool → Option SyncPause
active_sync_pause s free used apply_source_limits =
    or_else (reserve_pause s.minimum_free_disk_bytes free)
      (over_pause apply_source_limits s.max_source_storage_bytes used)
