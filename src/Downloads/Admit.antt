-- ===== src/Downloads/Admit.antt =====
-- src/downloader.rs, `run_download_impl`: which checks a source passes before gallery-dl is started.
use curator_rs.Prelude.{
  ℕ, String, Bool, true, false, not, ◌&&◌, ◌||◌, Option, some, none, or_else, if◌then◌else◌,
}
use curator_rs.Ascii.{codes, starts_with}
use curator_rs.Storage.Limits.{Settings, SyncPause, source_sync_admission}
use curator_rs.Downloads.Source.{Source, downloading, paused, status_of_pause, paused_by_storage}

-- How the wait for one of the places among the running downloads ends; a semaphore that is closed
-- ends the run as its cancellation does.
pub data Permit : Type 0 where
  shut_down cancelled granted : Permit

-- What the run meets on its way: whether downloads are paused at the start, after the cooldown of the
-- provider and once it has its place, and how the two waits end.
pub record Moments : Type 0 where
  pub paused_at_start : Bool
  pub cooled_down : Bool
  pub paused_after_cooldown : Bool
  pub permit : Permit
  pub paused_at_last : Bool

unfoldable pub is_local_import : Source → Bool
is_local_import s = starts_with s.url (codes "local:")

unfoldable pub applies_limits : Settings → Source → Bool
applies_limits settings s =
    not (is_local_import s) || settings.apply_download_limits_to_local_imports

abbrev is_quota : SyncPause → Bool
is_quota (SyncPause.source_quota used allowed) = true
is_quota (SyncPause.low_disk free reserve) = false

abbrev pub stopped_as_paused : Source → Source × Bool
stopped_as_paused s = (record s { status = paused }, false)

-- `started_at=COALESCE(started_at,?1)`
abbrev pub claimed : String → Source → Source
claimed now s = record s {
  status = downloading;
  error = none;
  started_at = or_else s.started_at (some now);
  current_filename = none;
}

unfoldable pub take_place : Moments → Source → Source × Bool
take_place m s = elim m.permit [
  | shut_down ↦ stopped_as_paused s
  | cancelled ↦ (s, false)
  | granted ↦ if m.paused_at_last then stopped_as_paused s else (s, true)
]

unfoldable pub after_admission : String → Moments → Source → Source × Bool
after_admission now m s =
    if not (is_local_import s) && not m.cooled_down
    then stopped_as_paused s
    else if m.paused_after_cooldown
    then stopped_as_paused s
    else take_place m (claimed now s)

unfoldable pub on_admission : String → Moments → Source → Option SyncPause → Source × Bool
on_admission now m s none = after_admission now m s
on_admission now m s (some pause) =
    if s.storage_override_once && is_quota pause
    then after_admission now m (record s { storage_override_once = false })
    else (
      record s {
        status = status_of_pause pause;
        error = some (paused_by_storage pause);
        current_filename = none;
      },
      false,
    )

-- The source as the run leaves it, and whether gallery-dl is started.
unfoldable pub admit_run : String → Settings → Option ℕ → ℕ → Moments → Source → Source × Bool
admit_run now settings free used m s =
    if m.paused_at_start
    then stopped_as_paused s
    else on_admission now m s (source_sync_admission settings free used (applies_limits settings s))
