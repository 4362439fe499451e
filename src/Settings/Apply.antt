-- ===== src/Settings/Apply.antt =====
-- src/services/settings.rs: the functions `apply_*`. An error comes with the settings as they are
-- left in memory.
use curator_rs.Prelude.{
  ℕ, Bool, true, false, not, ◌&&◌, ◌||◌, Option, some, none, List, [], ◌∷◌, ◌++◌, ltb,
  if◌then◌else◌, unwrap_or, is_some, any, length, is_empty, take, Result, ok, err, ◌>>=◌, ◌>>◌,
  reject_if,
}
use curator_rs.Ascii.{codes, is_one_of, same, trimmed}
use curator_rs.Session.Floats.{Floats, clamp}
use curator_rs.Settings.State.{
  Settings, SettingsPatch, SettingsPatchError, cleanup_mode, unknown_theme, unknown_layout,
  unknown_play_mode, too_many_providers, provider_id, metronome, unknown_persona, rate_range,
  pitch_range, volume_range, unknown_soundtrack, no_threshold,
}
use curator_rs.Settings.Checks.{
  valid_themes, cleanup_modes, layouts, personas, soundtracks, play_modes, normalize_optional_bytes,
  normalize_optional_days, given, outside, is_bad_provider, provider_of, is_text, is_bad_rate,
  is_over, next_mode, next_threshold,
}

-- `value.clamp(least, most)`
abbrev pub bounded : ℕ → ℕ → ℕ → ℕ
bounded least most value = if ltb value least then least else if ltb most value then most else value

-- `if let Some(value) = patch.… { settings.… = change(value); }`
abbrev pub changed {ℓ κ} : {A : Type ℓ} {B : Type κ} → (A → B) → Option A → B → B
changed change none old = old
changed change (some value) old = change value

abbrev pub differs : Bool → Bool → Bool
differs true b = not b
differs false b = b

abbrev pub text_or_none : List ℕ → Option (List ℕ)
text_or_none s = if is_empty s then none else some s

abbrev pub voice_of : List ℕ → Option (List ℕ)
voice_of raw = let voice = trimmed raw in if is_empty voice then none else some (take 160 voice)

abbrev pub normalized_mode : List ℕ → List ℕ
normalized_mode value =
    if is_one_of ("feed" ∷ "mobile-feed" ∷ []) value then codes "feed" else value

-- The loop of `apply_search_providers`.
unfoldable pub collect_providers :
    List (List ℕ) → List (List ℕ) → Result SettingsPatchError (List (List ℕ))
collect_providers providers [] = ok providers
collect_providers providers (raw ∷ raws) = do
  reject_if (is_bad_provider (provider_of raw)) provider_id
  collect_providers
      (if any (same (provider_of raw)) providers
        then providers
        else providers ++ provider_of raw ∷ [])
      raws

unfoldable pub with_local : List (List ℕ) → List (List ℕ)
with_local providers =
    if any (is_text "local") providers then providers else codes "local" ∷ providers

abbrev pub Applied : Type 0 → Type 0
Applied F = Result (SettingsPatchError × Settings F) (Settings F)

-- The error of a step, with the settings that it leaves.
abbrev pub left_at {ℓ} :
    {F : Type 0} {A : Type ℓ}
    → Settings F
    → Result SettingsPatchError A
    → Result (SettingsPatchError × Settings F) A
left_at s (ok a) = ok a
left_at s (err e) = err (e, s)

module _ {F : Type 0} ⦃fl : Floats F⦄ where
  open fl use {of_nat, is_finite}

  unfoldable pub apply_integrations : SettingsPatch F → Settings F → Settings F
  apply_integrations p s = record s {
    keep_running_in_tray = unwrap_or p.keep_running_in_tray s.keep_running_in_tray;
    lan_access_enabled = unwrap_or p.lan_access_enabled s.lan_access_enabled;
  }

  unfoldable pub apply_download_limits : SettingsPatch F → Settings F → Settings F
  apply_download_limits p s = record s {
    max_clip_length_secs = changed (bounded 5 3600) p.max_clip_length_secs s.max_clip_length_secs;
    goon_default_limit = changed (bounded 1 10000) p.goon_default_limit s.goon_default_limit;
    goon_log_sessions = unwrap_or p.goon_log_sessions s.goon_log_sessions;
    max_concurrent = changed (bounded 1 20) p.max_concurrent s.max_concurrent;
    max_download_file_size_bytes =
        changed normalize_optional_bytes p.max_download_file_size_bytes
          s.max_download_file_size_bytes;
    thumbnail_cache_max_bytes =
        changed normalize_optional_bytes p.thumbnail_cache_max_bytes s.thumbnail_cache_max_bytes;
    limits = record s.limits {
      max_source_storage_bytes =
          changed normalize_optional_bytes p.max_source_storage_bytes
            s.limits.max_source_storage_bytes;
      minimum_free_disk_bytes =
          changed normalize_optional_bytes p.minimum_free_disk_bytes
            s.limits.minimum_free_disk_bytes;
      apply_download_limits_to_local_imports =
          unwrap_or p.apply_download_limits_to_local_imports
            s.limits.apply_download_limits_to_local_imports;
    };
  }

  unfoldable pub apply_retention : SettingsPatch F → Settings F → Applied F
  apply_retention p s = elim p.archive_retention_days [
    | none ↦ ok s
    | some value ↦ do
      days ← left_at s (normalize_optional_days value)
      ok (record s { archive_retention_days = days })
  ]

  unfoldable pub apply_cleanup_policies : SettingsPatch F → Settings F → Applied F
  apply_cleanup_policies p s = do
    reject_if (outside cleanup_modes p.automatic_cleanup_mode) (cleanup_mode, s)
    s' ← apply_retention p (record s {
      automatic_cleanup_mode = next_mode p s;
      automatic_cleanup_low_disk_bytes = next_threshold p s;
    })
    reject_if
        (is_text "low_disk" s'.automatic_cleanup_mode
          && not (is_some s'.automatic_cleanup_low_disk_bytes))
        (no_threshold, s')
    ok s'

  unfoldable pub apply_slideshow_defaults : SettingsPatch F → Settings F → Settings F
  apply_slideshow_defaults p s = record s {
    default_slideshow_speed =
        changed (λ v. clamp v (of_nat 500) (of_nat 60000)) p.default_slideshow_speed
          s.default_slideshow_speed;
    default_slideshow_loop = unwrap_or p.default_slideshow_loop s.default_slideshow_loop;
    default_slideshow_shuffle = unwrap_or p.default_slideshow_shuffle s.default_slideshow_shuffle;
  }

  unfoldable pub apply_appearance : SettingsPatch F → Settings F → Applied F
  apply_appearance p s = do
    reject_if (outside valid_themes p.theme) (unknown_theme (unwrap_or p.theme []), s)
    let s' : Settings F = record s {
      theme = unwrap_or p.theme s.theme;
      export_reminder_days = changed (bounded 1 365) p.export_reminder_days s.export_reminder_days;
      export_reminder_snoozed_until =
          changed text_or_none p.export_reminder_snoozed_until s.export_reminder_snoozed_until;
    }
    reject_if (outside layouts p.library_layout) (unknown_layout, s')
    ok (record s' { library_layout = unwrap_or p.library_layout s.library_layout })

  -- The match on the playback mode comes last.
  unfoldable pub apply_session_features : SettingsPatch F → Settings F → Applied F
  apply_session_features p s = do
    let s' : Settings F = record s {
      ch_log_sessions = unwrap_or p.ch_log_sessions s.ch_log_sessions;
      ch_default_interval = unwrap_or p.ch_default_interval s.ch_default_interval;
      ch_default_limit = unwrap_or p.ch_default_limit s.ch_default_limit;
      ch_default_shuffle = unwrap_or p.ch_default_shuffle s.ch_default_shuffle;
      ch_default_media_type = unwrap_or p.ch_default_media_type s.ch_default_media_type;
      nsfw_restart_required =
          (given (differs s.nsfw_filter_enabled) p.nsfw_filter_enabled || s.nsfw_restart_required);
      nsfw_filter_enabled = unwrap_or p.nsfw_filter_enabled s.nsfw_filter_enabled;
    }
    reject_if (outside ("mobile-feed" ∷ play_modes) p.last_play_mode) (unknown_play_mode, s')
    ok (record s' { last_play_mode = changed normalized_mode p.last_play_mode s.last_play_mode })

  unfoldable pub apply_search_providers : SettingsPatch F → Settings F → Applied F
  apply_search_providers p s = elim p.search_providers [
    | none ↦ ok s
    | some values ↦ do
      reject_if (ltb 64 (length values)) (too_many_providers, s)
      providers ← left_at s (collect_providers [] values)
      ok (record s { search_providers = with_local providers })
  ]

  unfoldable pub apply_audio : SettingsPatch F → Settings F → Applied F
  apply_audio p s = do
    let s1 : Settings F = record s {
      metronome_enabled = unwrap_or p.metronome_enabled s.metronome_enabled;
    }
    reject_if (given (λ v. not (is_finite v)) p.metronome_volume) (metronome, s1)
    let s2 : Settings F = record s1 {
      metronome_volume =
          changed (λ v. clamp v (of_nat 0) (of_nat 1)) p.metronome_volume s.metronome_volume;
    }
    reject_if (outside personas p.goon_persona) (unknown_persona, s2)
    let s3 : Settings F = record s2 {
      goon_persona = unwrap_or p.goon_persona s.goon_persona;
      tts_voice = changed voice_of p.tts_voice s.tts_voice;
    }
    reject_if (given is_bad_rate p.tts_rate) (rate_range, s3)
    let s4 : Settings F = record s3 { tts_rate = unwrap_or p.tts_rate s.tts_rate }
    reject_if (given (is_over 2) p.tts_pitch) (pitch_range, s4)
    let s5 : Settings F = record s4 { tts_pitch = unwrap_or p.tts_pitch s.tts_pitch }
    reject_if (given (is_over 1) p.tts_volume) (volume_range, s5)
    let s6 : Settings F = record s5 { tts_volume = unwrap_or p.tts_volume s.tts_volume }
    reject_if (outside soundtracks p.soundtrack_provider) (unknown_soundtrack, s6)
    ok (record s6 { soundtrack_provider = unwrap_or p.soundtrack_provider s.soundtrack_provider })
