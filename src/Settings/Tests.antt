-- ===== src/Settings/Tests.antt =====
-- Runs of the model of settings, and its theorems at these runs.
use curator_rs.Prelude.{ℕ, ◌≡◌, ◌⊎◌, refl, true, false, some, none, [], ◌∷◌, arith, ok, err}
use curator_rs.Ascii.{byte_length, codes, same, is_one_of, to_lower, lowered, trimmed, drop_spaces}
use curator_rs.Text.{is_whitespace}
use curator_rs.Session.Samples.{thousandths}
use curator_rs.Settings.State.{Settings, SettingsPatch, SettingsPatchError, unconfirmed_cleanup}
use curator_rs.Settings.Checks.{
  normalize_optional_bytes, normalize_optional_days, outside, is_bad_executable, is_provider_byte,
  is_bad_provider, provider_of, is_bad_selection, is_too_old, is_text, is_bad_rate, is_over,
  validate_texts, validate_audio, validate_cleanup, validate_patch,
}
use curator_rs.Settings.Apply.{
  collect_providers, with_local, apply_integrations, apply_download_limits, apply_retention,
  apply_cleanup_policies, apply_slideshow_defaults, apply_appearance, apply_session_features,
  apply_search_providers, apply_audio,
}
use curator_rs.Settings.Patching.{
  SettingsState, Outside, Effects, set_ffmpeg, set_start, apply_bootstrap_integrations, apply_all,
  finish_patch, after_bootstrap, after_validation, apply_settings_patch,
}
use curator_rs.Settings.Asked.{IsTaken}
use curator_rs.Settings.Atomic.{
  IsConsistent, apply_settings_patch-IsConsistent, apply_settings_patch-atomic,
}

model : Unit {0}
unfolding same is_one_of to_lower lowered trimmed drop_spaces is_whitespace byte_length
    normalize_optional_bytes normalize_optional_days outside is_bad_executable is_provider_byte
    is_bad_provider provider_of is_bad_selection is_too_old is_text is_bad_rate is_over
    validate_texts validate_audio validate_cleanup validate_patch collect_providers with_local
    apply_integrations apply_download_limits apply_retention apply_cleanup_policies
    apply_slideshow_defaults apply_appearance apply_session_features apply_search_providers
    apply_audio set_ffmpeg set_start apply_bootstrap_integrations apply_all finish_patch
    after_bootstrap after_validation apply_settings_patch
model = tt

-- Most fields have the values of a first start.
abbrev first_settings : Settings ℕ
first_settings = record {
  limits = record {
    minimum_free_disk_bytes = none;
    max_source_storage_bytes = none;
    apply_download_limits_to_local_imports = false;
  };
  max_clip_length_secs = 30;
  goon_default_limit = 50;
  goon_log_sessions = false;
  start_with_windows = false;
  keep_running_in_tray = false;
  lan_access_enabled = false;
  last_play_mode = codes "feed";
  max_concurrent = 3;
  max_download_file_size_bytes = none;
  thumbnail_cache_max_bytes = none;
  automatic_cleanup_mode = codes "never";
  automatic_cleanup_low_disk_bytes = none;
  archive_retention_days = none;
  default_slideshow_speed = 4000000;
  default_slideshow_loop = true;
  default_slideshow_shuffle = false;
  theme = codes "dark";
  export_reminder_days = 30;
  export_reminder_snoozed_until = none;
  ch_log_sessions = false;
  ch_default_interval = 5000;
  ch_default_limit = 50;
  ch_default_shuffle = false;
  ch_default_media_type = codes "all";
  nsfw_filter_enabled = false;
  ffmpeg_restart_required = false;
  nsfw_restart_required = false;
  library_layout = codes "grid";
  search_providers = codes "local" ∷ codes "balbums" ∷ [];
  metronome_enabled = false;
  metronome_volume = 550;
  goon_persona = codes "neutral";
  tts_voice = none;
  tts_rate = 1000;
  tts_pitch = 1000;
  tts_volume = 1000;
  soundtrack_provider = codes "local";
}

abbrev first_state : SettingsState ℕ
first_state = record {
  settings = first_settings;
  saved = first_settings;
  permits = 3;
  held = 3;
  held_before = 0;
  ffmpeg_bin = none;
}

abbrev patch : SettingsPatch ℕ
patch = record {
  start_with_windows = some true;
  keep_running_in_tray = none;
  lan_access_enabled = none;
  max_clip_length_secs = some 2;
  goon_default_limit = none;
  goon_log_sessions = none;
  max_concurrent = some 99;
  max_download_file_size_bytes = none;
  max_source_storage_bytes = none;
  minimum_free_disk_bytes = some (some 0);
  thumbnail_cache_max_bytes = none;
  apply_download_limits_to_local_imports = none;
  automatic_cleanup_mode = some (codes "weekly");
  automatic_cleanup_confirmation = some (codes "ENABLE AUTOMATIC CLEANUP");
  automatic_cleanup_low_disk_bytes = none;
  archive_retention_days = some none;
  archive_retention_confirmation = none;
  default_slideshow_speed = none;
  default_slideshow_loop = none;
  default_slideshow_shuffle = none;
  theme = some (codes "ember");
  export_reminder_days = none;
  export_reminder_snoozed_until = none;
  ch_log_sessions = none;
  ch_default_interval = none;
  ch_default_limit = none;
  ch_default_shuffle = none;
  ch_default_media_type = none;
  nsfw_filter_enabled = none;
  library_layout = none;
  last_play_mode = some (codes "mobile-feed");
  search_providers = some (codes " Balbums" ∷ []);
  metronome_enabled = none;
  metronome_volume = none;
  goon_persona = none;
  tts_voice = none;
  tts_rate = some 1500;
  tts_pitch = none;
  tts_volume = none;
  soundtrack_provider = none;
  ffmpeg_bin = some (codes "/usr/bin/ffmpeg");
}

abbrev willing : Outside
willing = record { writes_config = true; writes_settings = true; registers = true }

clip_test : (apply_settings_patch willing patch first_state).1.settings.max_clip_length_secs ≡ 5
unfolding model
clip_test = refl

permits_test : (apply_settings_patch willing patch first_state).1.permits ≡ 20
unfolding model
permits_test = refl

-- The three downloads that run keep their permits, and twenty more may start.
held_test :
    let st = (apply_settings_patch willing patch first_state).1 in
    (st.held ≡ 0) × (st.held_before ≡ 3)
unfolding model
held_test = (refl, refl)

unsaved_test :
    (apply_settings_patch (record willing { writes_settings = false }) patch first_state).1.saved
    ≡ first_settings
unfolding model
unsaved_test = refl

providers_test :
    (apply_settings_patch willing patch first_state).1.settings.search_providers
    ≡ codes "local" ∷ codes "balbums" ∷ []
unfolding model
providers_test = refl

-- Without the phrase the cleanup is not enabled, and nothing changes.
unconfirmed_test :
    apply_settings_patch willing
      (record patch { automatic_cleanup_confirmation = none })
      first_state
    ≡ (err unconfirmed_cleanup, first_state)
unfolding model
unconfirmed_test = refl

first_state-IsConsistent : IsConsistent first_state
unfolding model
first_state-IsConsistent = record {
  valid = record {
    clip = (omega arith, omega arith);
    limit = (omega arith, omega arith);
    concurrent = (omega arith, omega arith);
    reminder = (omega arith, omega arith);
    some_source = refl;
    some_disk = refl;
    some_file = refl;
    some_cache = refl;
    some_threshold = refl;
    some_days = refl;
    few_days = refl;
    mode = refl;
    threshold = refl;
    theme = refl;
    layout = refl;
    play = refl;
    local = refl;
    providers = refl;
    persona = refl;
    rate = refl;
    pitch = refl;
    loudness = refl;
    soundtrack = refl;
  };
  saved = refl;
  permitted = refl;
}

apply_settings_patch-IsConsistent_example :
    IsConsistent (apply_settings_patch willing patch first_state).1
apply_settings_patch-IsConsistent_example =
    apply_settings_patch-IsConsistent willing patch first_state refl first_state-IsConsistent

apply_settings_patch-atomic_example :
    ((e : SettingsPatchError) × (validate_patch patch first_settings ≡ err e)
      × (apply_settings_patch willing patch first_state ≡ (err e, first_state)))
    ⊎ ((f : Effects) × (st' : SettingsState ℕ) × (validate_patch patch first_settings ≡ ok tt)
        × (apply_settings_patch willing patch first_state ≡ (ok f, st'))
        × IsTaken patch first_state st')
apply_settings_patch-atomic_example =
    apply_settings_patch-atomic willing patch first_state refl refl refl
