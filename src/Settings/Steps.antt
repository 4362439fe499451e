-- ===== src/Settings/Steps.antt =====
-- src/services/settings.rs: what each `apply_*` makes of a patch that `validate_patch` accepts.
use curator_rs.Prelude.{
  ℕ, ◌≡◌, refl, sym, subst, true, false, not, ◌&&◌, ◌||◌, Option, some, none, List, [], ◌∷◌,
  unwrap_or, is_some, ok, ◌>>=◌, length, ltb, any, arith,
}
use curator_rs.Session.Floats.{Floats, clamp}
use curator_rs.Settings.State.{Settings, SettingsPatch}
use curator_rs.Settings.Checks.{
  normalize_optional_bytes, normalize_optional_days, flatten, is_bad_selection, given, outside,
  cleanup_modes, valid_themes, layouts, personas, soundtracks, play_modes, is_text, is_bad_provider,
  is_too_old, is_over, is_bad_rate, next_mode, next_threshold,
}
use curator_rs.Settings.Apply.{
  bounded, changed, differs, text_or_none, voice_of, normalized_mode, with_local, left_at,
  apply_integrations, apply_download_limits, apply_retention, apply_cleanup_policies,
  apply_slideshow_defaults, apply_appearance, apply_session_features, apply_search_providers,
  apply_audio,
}
use curator_rs.Settings.Providers.{IsChosen, with_local-IsChosen}
use curator_rs.Settings.Patching.{next_permits, apply_all}
use curator_rs.Settings.Validity.{
  IsChecked, IsValid, named-unwrap_or, unwrap_or-false, changed_bounds, changed-not_zero,
  changed-few_days, changed-map, normalize_optional_days-ok, play_mode-changed, local-with_local,
  good-with_local, collect_providers-ok,
}

-- The ids of the providers are good, and the local one is among them.
abbrev pub IsGood : List (List ℕ) → Type 0
IsGood ps = (any (is_text "local") ps ≡ true) × (any is_bad_provider ps ≡ false)

module _ {F : Type 0} ⦃fl : Floats F⦄ where
  open fl use {of_nat}

  unfoldable pub cleaned : SettingsPatch F → Settings F → Settings F
  cleaned p s = record s {
    automatic_cleanup_mode = next_mode p s;
    automatic_cleanup_low_disk_bytes = next_threshold p s;
    archive_retention_days =
        changed normalize_optional_bytes p.archive_retention_days s.archive_retention_days;
  }

  apply_retention-ok :
      (p : SettingsPatch F) (s : Settings F)
      → is_too_old (flatten p.archive_retention_days) ≡ false
      → apply_retention p s
        ≡ ok (record s {
          archive_retention_days =
              changed normalize_optional_bytes p.archive_retention_days s.archive_retention_days;
        })
  unfolding apply_retention
  apply_retention-ok p s h = retained p.archive_retention_days h
    where
      retained :
          (o : Option (Option ℕ))
          → is_too_old (flatten o) ≡ false
          → elim o [
            | none ↦ ok s
            | some value ↦ do
              days ← left_at s (normalize_optional_days value)
              ok (record s { archive_retention_days = days })
          ]
            ≡ ok (record s {
              archive_retention_days = changed normalize_optional_bytes o s.archive_retention_days;
            })
      retained none h = refl
      retained (some v) h = rw (normalize_optional_days-ok v h) refl

  apply_cleanup_policies-ok :
      (p : SettingsPatch F) (s : Settings F)
      → outside cleanup_modes p.automatic_cleanup_mode ≡ false
      → is_too_old (flatten p.archive_retention_days) ≡ false
      → (is_text "low_disk" (next_mode p s) && not (is_some (next_threshold p s))) ≡ false
      → apply_cleanup_policies p s ≡ ok (cleaned p s)
  unfolding apply_cleanup_policies cleaned
  apply_cleanup_policies-ok p s mode days threshold =
      let s1 : Settings F = record s {
        automatic_cleanup_mode = next_mode p s;
        automatic_cleanup_low_disk_bytes = next_threshold p s;
      } in
      rw (mode, apply_retention-ok p s1 days, threshold) refl

  unfoldable pub shown : SettingsPatch F → Settings F → Settings F
  shown p s = record s {
    theme = unwrap_or p.theme s.theme;
    export_reminder_days = changed (bounded 1 365) p.export_reminder_days s.export_reminder_days;
    export_reminder_snoozed_until =
        changed text_or_none p.export_reminder_snoozed_until s.export_reminder_snoozed_until;
    library_layout = unwrap_or p.library_layout s.library_layout;
  }

  apply_appearance-ok :
      (p : SettingsPatch F) (s : Settings F)
      → outside valid_themes p.theme ≡ false
      → outside layouts p.library_layout ≡ false
      → apply_appearance p s ≡ ok (shown p s)
  unfolding apply_appearance shown
  apply_appearance-ok p s theme layout = rw (theme, layout) refl

  unfoldable pub featured : SettingsPatch F → Settings F → Settings F
  featured p s = record s {
    ch_log_sessions = unwrap_or p.ch_log_sessions s.ch_log_sessions;
    ch_default_interval = unwrap_or p.ch_default_interval s.ch_default_interval;
    ch_default_limit = unwrap_or p.ch_default_limit s.ch_default_limit;
    ch_default_shuffle = unwrap_or p.ch_default_shuffle s.ch_default_shuffle;
    ch_default_media_type = unwrap_or p.ch_default_media_type s.ch_default_media_type;
    nsfw_restart_required =
        (given (differs s.nsfw_filter_enabled) p.nsfw_filter_enabled || s.nsfw_restart_required);
    nsfw_filter_enabled = unwrap_or p.nsfw_filter_enabled s.nsfw_filter_enabled;
    last_play_mode = changed normalized_mode p.last_play_mode s.last_play_mode;
  }

  apply_session_features-ok :
      (p : SettingsPatch F) (s : Settings F)
      → outside ("mobile-feed" ∷ play_modes) p.last_play_mode ≡ false
      → apply_session_features p s ≡ ok (featured p s)
  unfolding apply_session_features featured
  apply_session_features-ok p s play = rw play refl

  unfoldable pub heard : SettingsPatch F → Settings F → Settings F
  heard p s = record s {
    metronome_enabled = unwrap_or p.metronome_enabled s.metronome_enabled;
    metronome_volume =
        changed (λ v. clamp v (of_nat 0) (of_nat 1)) p.metronome_volume s.metronome_volume;
    goon_persona = unwrap_or p.goon_persona s.goon_persona;
    tts_voice = changed voice_of p.tts_voice s.tts_voice;
    tts_rate = unwrap_or p.tts_rate s.tts_rate;
    tts_pitch = unwrap_or p.tts_pitch s.tts_pitch;
    tts_volume = unwrap_or p.tts_volume s.tts_volume;
    soundtrack_provider = unwrap_or p.soundtrack_provider s.soundtrack_provider;
  }

  apply_audio-ok :
      (p : SettingsPatch F) (s s' : Settings F) → IsChecked p s' → apply_audio p s ≡ ok (heard p s)
  unfolding apply_audio heard
  apply_audio-ok p s s' c = rw (c.volume, c.persona, c.rate, c.pitch, c.loudness, c.soundtrack) refl

  search-ok :
      (o : Option (List (List ℕ))) (s : Settings F) (p : SettingsPatch F)
      → p.search_providers ≡ o
      → given is_bad_selection o ≡ false
      → (ps : List (List ℕ)) × (apply_search_providers p s
          ≡ ok (record s { search_providers = ps }))
        × (IsGood s.search_providers → IsGood ps)
        × IsChosen o s.search_providers ps
  unfolding apply_search_providers is_bad_selection
  search-ok none s p e h = (s.search_providers, rw e refl, λ good. good, refl)
  search-ok (some values) s p e h =
      let few : ltb 64 (length values) ≡ false = ground arith in
      let (ps, collected, good) = collect_providers-ok [] values (ground arith) refl in
      (
        with_local ps,
        rw (e, few, collected) refl,
        λ before. (local-with_local ps, good-with_local ps good),
        with_local-IsChosen values s.search_providers ps collected,
      )

  -- All the fields as the patch leaves them, but the ids of providers.
  unfoldable pub patched : SettingsPatch F → Settings F → List (List ℕ) → Settings F
  patched p s ps =
      let s1 = cleaned p (apply_download_limits p (apply_integrations p s)) in
      let s2 = featured p (shown p (apply_slideshow_defaults p s1)) in
      heard p (record s2 { search_providers = ps })

  pub max_concurrent-patched :
      (p : SettingsPatch F) (s : Settings F) (ps : List (List ℕ))
      → (patched p s ps).max_concurrent ≡ next_permits p s.max_concurrent
  unfolding patched heard featured shown cleaned apply_download_limits apply_integrations
      apply_slideshow_defaults
  max_concurrent-patched p s ps = refl

  pub patched-IsValid :
      (p : SettingsPatch F) (s : Settings F) (ps : List (List ℕ))
      → IsChecked p s
      → IsValid s
      → IsGood ps
      → IsValid (patched p s ps)
  unfolding patched heard featured shown cleaned apply_download_limits apply_integrations
      apply_slideshow_defaults
  patched-IsValid p s ps c v (local, good) = record {
    clip = changed_bounds 5 3600 p.max_clip_length_secs s.max_clip_length_secs (omega arith) v.clip;
    limit = changed_bounds 1 10000 p.goon_default_limit s.goon_default_limit (omega arith) v.limit;
    concurrent = changed_bounds 1 20 p.max_concurrent s.max_concurrent (omega arith) v.concurrent;
    reminder =
        changed_bounds 1 365 p.export_reminder_days s.export_reminder_days (omega arith) v.reminder;
    some_source =
        changed-not_zero p.max_source_storage_bytes s.limits.max_source_storage_bytes v.some_source;
    some_disk =
        changed-not_zero p.minimum_free_disk_bytes s.limits.minimum_free_disk_bytes v.some_disk;
    some_file =
        changed-not_zero p.max_download_file_size_bytes s.max_download_file_size_bytes v.some_file;
    some_cache =
        changed-not_zero p.thumbnail_cache_max_bytes s.thumbnail_cache_max_bytes v.some_cache;
    some_threshold =
        rw (changed-map p.automatic_cleanup_low_disk_bytes s.automatic_cleanup_low_disk_bytes) (
          changed-not_zero p.automatic_cleanup_low_disk_bytes s.automatic_cleanup_low_disk_bytes
            v.some_threshold);
    some_days = changed-not_zero p.archive_retention_days s.archive_retention_days v.some_days;
    few_days = changed-few_days p.archive_retention_days s.archive_retention_days c.days v.few_days;
    mode =
        named-unwrap_or cleanup_modes p.automatic_cleanup_mode s.automatic_cleanup_mode c.mode
          v.mode;
    threshold = c.threshold;
    theme = named-unwrap_or valid_themes p.theme s.theme c.theme v.theme;
    layout = named-unwrap_or layouts p.library_layout s.library_layout c.layout v.layout;
    play = play_mode-changed p.last_play_mode s.last_play_mode c.play v.play;
    local = local;
    providers = good;
    persona = named-unwrap_or personas p.goon_persona s.goon_persona c.persona v.persona;
    rate = unwrap_or-false is_bad_rate p.tts_rate s.tts_rate c.rate v.rate;
    pitch = unwrap_or-false (is_over 2) p.tts_pitch s.tts_pitch c.pitch v.pitch;
    loudness = unwrap_or-false (is_over 1) p.tts_volume s.tts_volume c.loudness v.loudness;
    soundtrack =
        named-unwrap_or soundtracks p.soundtrack_provider s.soundtrack_provider c.soundtrack
          v.soundtrack;
  }

  before_cleanup : SettingsPatch F → Settings F → Settings F
  before_cleanup p s = apply_download_limits p (apply_integrations p s)

  before_search : SettingsPatch F → Settings F → Settings F
  before_search p s =
      featured p (shown p (apply_slideshow_defaults p (cleaned p (before_cleanup p s))))

  before_cleanup-threshold :
      (p : SettingsPatch F) (s : Settings F)
      → IsChecked p s
      → (is_text "low_disk" (next_mode p (before_cleanup p s))
          && not (is_some (next_threshold p (before_cleanup p s))))
        ≡ false
  unfolding before_cleanup apply_download_limits apply_integrations
  before_cleanup-threshold p s c = c.threshold

  search_providers-before_search :
      (p : SettingsPatch F) (s : Settings F)
      → (before_search p s).search_providers ≡ s.search_providers
  unfolding before_search before_cleanup featured shown cleaned apply_slideshow_defaults
      apply_download_limits apply_integrations
  search_providers-before_search p s = refl

  pub apply_all-ok :
      (p : SettingsPatch F) (s : Settings F)
      → IsChecked p s
      → (ps : List (List ℕ)) × (apply_all p s ≡ ok (patched p s ps))
        × (IsGood s.search_providers → IsGood ps)
        × IsChosen p.search_providers s.search_providers ps
  unfolding apply_all patched before_search before_cleanup
  apply_all-ok p s c =
      let s0 = before_cleanup p s in
      let s1 = apply_slideshow_defaults p (cleaned p s0) in
      let (ps, e, good, chosen) =
        search-ok p.search_providers (before_search p s) p refl c.providers in
      (
        ps,
        rw
            (
              apply_cleanup_policies-ok p s0 c.mode c.days (before_cleanup-threshold p s c),
              apply_appearance-ok p s1 c.theme c.layout,
              apply_session_features-ok p (shown p s1) c.play,
              e,
              apply_audio-ok p (record (before_search p s) { search_providers = ps }) s c,
            )
            refl,
        λ before. good (subst IsGood (sym (search_providers-before_search p s)) before),
        subst (λ old. IsChosen p.search_providers old ps) (search_providers-before_search p s)
            chosen,
      )
