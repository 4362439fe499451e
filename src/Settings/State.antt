-- ===== src/Settings/State.antt =====
-- `Settings` of src/db.rs, and `SettingsPatch` and its errors of src/services/settings.rs. A text is
-- the list of its code points. The fields that no patch reads or writes are left out.
use curator_rs.Prelude.{ℕ, Bool, Option, List}
use curator_rs.Storage.Limits.{Settings as StorageSettings}

-- The fields that limit storage stand in a record of their own.
pub record Settings (F : Type 0) : Type 0 where
  pub limits : StorageSettings
  pub max_clip_length_secs : ℕ
  pub goon_default_limit : ℕ
  pub goon_log_sessions : Bool
  pub start_with_windows : Bool
  pub keep_running_in_tray : Bool
  pub lan_access_enabled : Bool
  pub last_play_mode : List ℕ
  pub max_concurrent : ℕ
  pub max_download_file_size_bytes : Option ℕ
  pub thumbnail_cache_max_bytes : Option ℕ
  pub automatic_cleanup_mode : List ℕ
  pub automatic_cleanup_low_disk_bytes : Option ℕ
  pub archive_retention_days : Option ℕ
  pub default_slideshow_speed : F
  pub default_slideshow_loop : Bool
  pub default_slideshow_shuffle : Bool
  pub theme : List ℕ
  pub export_reminder_days : ℕ
  pub export_reminder_snoozed_until : Option (List ℕ)
  pub ch_log_sessions : Bool
  pub ch_default_interval : F
  pub ch_default_limit : ℕ
  pub ch_default_shuffle : Bool
  pub ch_default_media_type : List ℕ
  pub nsfw_filter_enabled : Bool
  pub ffmpeg_restart_required : Bool
  pub nsfw_restart_required : Bool
  pub library_layout : List ℕ
  pub search_providers : List (List ℕ)
  pub metronome_enabled : Bool
  pub metronome_volume : F
  pub goon_persona : List ℕ
  pub tts_voice : Option (List ℕ)
  pub tts_rate : F
  pub tts_pitch : F
  pub tts_volume : F
  pub soundtrack_provider : List ℕ

-- Of a nullable limit, `none` leaves it and `some none` removes it.
pub record SettingsPatch (F : Type 0) : Type 0 where
  pub start_with_windows : Option Bool
  pub keep_running_in_tray : Option Bool
  pub lan_access_enabled : Option Bool
  pub max_clip_length_secs : Option ℕ
  pub goon_default_limit : Option ℕ
  pub goon_log_sessions : Option Bool
  pub max_concurrent : Option ℕ
  pub max_download_file_size_bytes : Option (Option ℕ)
  pub max_source_storage_bytes : Option (Option ℕ)
  pub minimum_free_disk_bytes : Option (Option ℕ)
  pub thumbnail_cache_max_bytes : Option (Option ℕ)
  pub apply_download_limits_to_local_imports : Option Bool
  pub automatic_cleanup_mode : Option (List ℕ)
  pub automatic_cleanup_confirmation : Option (List ℕ)
  pub automatic_cleanup_low_disk_bytes : Option (Option ℕ)
  pub archive_retention_days : Option (Option ℕ)
  pub archive_retention_confirmation : Option (List ℕ)
  pub default_slideshow_speed : Option F
  pub default_slideshow_loop : Option Bool
  pub default_slideshow_shuffle : Option Bool
  pub theme : Option (List ℕ)
  pub export_reminder_days : Option ℕ
  pub export_reminder_snoozed_until : Option (List ℕ)
  pub ch_log_sessions : Option Bool
  pub ch_default_interval : Option F
  pub ch_default_limit : Option ℕ
  pub ch_default_shuffle : Option Bool
  pub ch_default_media_type : Option (List ℕ)
  pub nsfw_filter_enabled : Option Bool
  pub library_layout : Option (List ℕ)
  pub last_play_mode : Option (List ℕ)
  pub search_providers : Option (List (List ℕ))
  pub metronome_enabled : Option Bool
  pub metronome_volume : Option F
  pub goon_persona : Option (List ℕ)
  pub tts_voice : Option (List ℕ)
  pub tts_rate : Option F
  pub tts_pitch : Option F
  pub tts_volume : Option F
  pub soundtrack_provider : Option (List ℕ)
  pub ffmpeg_bin : Option (List ℕ)

-- The messages; the last two come from outside: the saving of config.json and the registration.
pub data SettingsPatchError : Type 0 where
  ffmpeg_executable cleanup_mode retention_days : SettingsPatchError
  unknown_theme : List ℕ → SettingsPatchError
  unknown_layout unknown_play_mode provider_selection too_many_providers : SettingsPatchError
  provider_id metronome unknown_persona rate_range pitch_range volume_range : SettingsPatchError
  unknown_soundtrack no_threshold unconfirmed_cleanup unconfirmed_retention : SettingsPatchError
  config_unsaved not_registered : SettingsPatchError
