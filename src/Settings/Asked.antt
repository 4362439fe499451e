-- ===== src/Settings/Asked.antt =====
-- src/services/settings.rs: what a patch asks of each of the settings.
use curator_rs.Prelude.{ℕ, ◌≡◌, refl, Bool, not, ◌||◌, some, List, unwrap_or, ◌+◌, arith}
use curator_rs.Session.Floats.{Floats, clamp}
use curator_rs.Ascii.{codes, same, trimmed}
use curator_rs.Settings.State.{Settings, SettingsPatch}
use curator_rs.Settings.Checks.{given, normalize_optional_bytes}
use curator_rs.Settings.Apply.{
  apply_integrations, apply_download_limits, apply_slideshow_defaults, bounded, changed, differs,
  text_or_none, voice_of, normalized_mode,
}
use curator_rs.Settings.Patching.{SettingsState, with_start, with_restart, with_semaphore}
use curator_rs.Settings.Validity.{changed-map}
use curator_rs.Settings.Providers.{IsChosen}
use curator_rs.Settings.Steps.{patched, heard, featured, shown, cleaned}

module _ {F : Type 0} ⦃fl : Floats F⦄ where
  open fl use {of_nat}

  -- Each setting is what the patch names for it, bounded or normalized where the source says so, or
  -- what it was.
  pub record IsAsked (p : SettingsPatch F) (s s' : Settings F) : Type 0 where
    pub keep_running_in_tray :
        s'.keep_running_in_tray ≡ unwrap_or p.keep_running_in_tray s.keep_running_in_tray
    pub lan_access_enabled :
        s'.lan_access_enabled ≡ unwrap_or p.lan_access_enabled s.lan_access_enabled
    pub goon_log_sessions : s'.goon_log_sessions ≡ unwrap_or p.goon_log_sessions s.goon_log_sessions
    pub default_slideshow_loop :
        s'.default_slideshow_loop ≡ unwrap_or p.default_slideshow_loop s.default_slideshow_loop
    pub default_slideshow_shuffle :
        s'.default_slideshow_shuffle
        ≡ unwrap_or p.default_slideshow_shuffle s.default_slideshow_shuffle
    pub theme : s'.theme ≡ unwrap_or p.theme s.theme
    pub ch_log_sessions : s'.ch_log_sessions ≡ unwrap_or p.ch_log_sessions s.ch_log_sessions
    pub ch_default_interval :
        s'.ch_default_interval ≡ unwrap_or p.ch_default_interval s.ch_default_interval
    pub ch_default_limit : s'.ch_default_limit ≡ unwrap_or p.ch_default_limit s.ch_default_limit
    pub ch_default_shuffle :
        s'.ch_default_shuffle ≡ unwrap_or p.ch_default_shuffle s.ch_default_shuffle
    pub ch_default_media_type :
        s'.ch_default_media_type ≡ unwrap_or p.ch_default_media_type s.ch_default_media_type
    pub nsfw_filter_enabled :
        s'.nsfw_filter_enabled ≡ unwrap_or p.nsfw_filter_enabled s.nsfw_filter_enabled
    pub library_layout : s'.library_layout ≡ unwrap_or p.library_layout s.library_layout
    pub metronome_enabled : s'.metronome_enabled ≡ unwrap_or p.metronome_enabled s.metronome_enabled
    pub goon_persona : s'.goon_persona ≡ unwrap_or p.goon_persona s.goon_persona
    pub tts_rate : s'.tts_rate ≡ unwrap_or p.tts_rate s.tts_rate
    pub tts_pitch : s'.tts_pitch ≡ unwrap_or p.tts_pitch s.tts_pitch
    pub tts_volume : s'.tts_volume ≡ unwrap_or p.tts_volume s.tts_volume
    pub soundtrack_provider :
        s'.soundtrack_provider ≡ unwrap_or p.soundtrack_provider s.soundtrack_provider
    pub start_with_windows :
        s'.start_with_windows ≡ unwrap_or p.start_with_windows s.start_with_windows
    pub automatic_cleanup_mode :
        s'.automatic_cleanup_mode ≡ unwrap_or p.automatic_cleanup_mode s.automatic_cleanup_mode
    pub max_clip_length_secs :
        s'.max_clip_length_secs
        ≡ changed (bounded 5 3600) p.max_clip_length_secs s.max_clip_length_secs
    pub goon_default_limit :
        s'.goon_default_limit ≡ changed (bounded 1 10000) p.goon_default_limit s.goon_default_limit
    pub max_concurrent :
        s'.max_concurrent ≡ changed (bounded 1 20) p.max_concurrent s.max_concurrent
    pub export_reminder_days :
        s'.export_reminder_days
        ≡ changed (bounded 1 365) p.export_reminder_days s.export_reminder_days
    pub max_download_file_size_bytes :
        s'.max_download_file_size_bytes
        ≡ changed normalize_optional_bytes p.max_download_file_size_bytes
            s.max_download_file_size_bytes
    pub thumbnail_cache_max_bytes :
        s'.thumbnail_cache_max_bytes
        ≡ changed normalize_optional_bytes p.thumbnail_cache_max_bytes s.thumbnail_cache_max_bytes
    pub automatic_cleanup_low_disk_bytes :
        s'.automatic_cleanup_low_disk_bytes
        ≡ changed normalize_optional_bytes p.automatic_cleanup_low_disk_bytes
            s.automatic_cleanup_low_disk_bytes
    pub archive_retention_days :
        s'.archive_retention_days
        ≡ changed normalize_optional_bytes p.archive_retention_days s.archive_retention_days
    pub max_source_storage_bytes :
        s'.limits.max_source_storage_bytes
        ≡ changed normalize_optional_bytes p.max_source_storage_bytes
            s.limits.max_source_storage_bytes
    pub minimum_free_disk_bytes :
        s'.limits.minimum_free_disk_bytes
        ≡ changed normalize_optional_bytes p.minimum_free_disk_bytes
            s.limits.minimum_free_disk_bytes
    pub apply_download_limits_to_local_imports :
        s'.limits.apply_download_limits_to_local_imports
        ≡ unwrap_or p.apply_download_limits_to_local_imports
            s.limits.apply_download_limits_to_local_imports
    pub default_slideshow_speed :
        s'.default_slideshow_speed
        ≡ changed
            (λ v. clamp v (of_nat 500) (of_nat 60000))
            p.default_slideshow_speed
            s.default_slideshow_speed
    pub metronome_volume :
        s'.metronome_volume
        ≡ changed (λ v. clamp v (of_nat 0) (of_nat 1)) p.metronome_volume s.metronome_volume
    pub export_reminder_snoozed_until :
        s'.export_reminder_snoozed_until
        ≡ changed text_or_none p.export_reminder_snoozed_until s.export_reminder_snoozed_until
    pub last_play_mode :
        s'.last_play_mode ≡ changed normalized_mode p.last_play_mode s.last_play_mode
    pub tts_voice : s'.tts_voice ≡ changed voice_of p.tts_voice s.tts_voice
    pub nsfw_restart_required :
        s'.nsfw_restart_required
        ≡ (given (differs s.nsfw_filter_enabled) p.nsfw_filter_enabled || s.nsfw_restart_required)
    pub search_providers : IsChosen p.search_providers s.search_providers s'.search_providers

  -- The settings and what stands outside of them.
  pub record IsTaken (p : SettingsPatch F) (st st' : SettingsState F) : Type 0 where
    pub asked : IsAsked p st.settings st'.settings
    pub saved : st'.saved ≡ st'.settings
    pub ffmpeg_bin : st'.ffmpeg_bin ≡ changed (λ raw. some (trimmed raw)) p.ffmpeg_bin st.ffmpeg_bin
    pub ffmpeg_restart_required : st'.settings.ffmpeg_restart_required ≡ (
        given
          (λ raw. not (same (unwrap_or st.ffmpeg_bin (codes "ffmpeg")) (trimmed raw)))
          p.ffmpeg_bin
        || st.settings.ffmpeg_restart_required)
    pub permits : st'.permits ≡ changed (bounded 1 20) p.max_concurrent st.permits
    pub running : st'.held + st'.held_before ≡ st.held + st.held_before

  pub patched-IsAsked :
      (p : SettingsPatch F) (s : Settings F) (ps : List (List ℕ)) (ffmpeg_changed : Bool)
      → IsChosen p.search_providers s.search_providers ps
      → IsAsked p s (
          with_restart ffmpeg_changed
            (patched p (with_start (unwrap_or p.start_with_windows s.start_with_windows) s) ps))
  unfolding patched heard featured shown cleaned apply_download_limits apply_integrations
      apply_slideshow_defaults
  patched-IsAsked p s ps ffmpeg_changed chosen = record {
    keep_running_in_tray = refl;
    lan_access_enabled = refl;
    goon_log_sessions = refl;
    default_slideshow_loop = refl;
    default_slideshow_shuffle = refl;
    theme = refl;
    ch_log_sessions = refl;
    ch_default_interval = refl;
    ch_default_limit = refl;
    ch_default_shuffle = refl;
    ch_default_media_type = refl;
    nsfw_filter_enabled = refl;
    library_layout = refl;
    metronome_enabled = refl;
    goon_persona = refl;
    tts_rate = refl;
    tts_pitch = refl;
    tts_volume = refl;
    soundtrack_provider = refl;
    start_with_windows = refl;
    automatic_cleanup_mode = refl;
    max_clip_length_secs = refl;
    goon_default_limit = refl;
    max_concurrent = refl;
    export_reminder_days = refl;
    max_download_file_size_bytes = refl;
    thumbnail_cache_max_bytes = refl;
    archive_retention_days = refl;
    max_source_storage_bytes = refl;
    minimum_free_disk_bytes = refl;
    apply_download_limits_to_local_imports = refl;
    default_slideshow_speed = refl;
    metronome_volume = refl;
    export_reminder_snoozed_until = refl;
    last_play_mode = refl;
    tts_voice = refl;
    nsfw_restart_required = refl;
    automatic_cleanup_low_disk_bytes =
        changed-map p.automatic_cleanup_low_disk_bytes s.automatic_cleanup_low_disk_bytes;
    search_providers = chosen;
  }

  pub ffmpeg_restart_required_lem :
      (p : SettingsPatch F) (s : Settings F) (ps : List (List ℕ))
      → (patched p s ps).ffmpeg_restart_required ≡ s.ffmpeg_restart_required
  unfolding patched heard featured shown cleaned apply_download_limits apply_integrations
      apply_slideshow_defaults
  ffmpeg_restart_required_lem p s ps = refl

  pub with_semaphore-running :
      (p : SettingsPatch F) (st : SettingsState F)
      → (with_semaphore p st).held + (with_semaphore p st).held_before ≡ st.held + st.held_before
  with_semaphore-running p st = ground arith
