-- ===== src/Settings/Checks.antt =====
-- src/services/settings.rs: `validate_patch`, the tests that precede every change.
use curator_rs.Prelude.{
  ℕ, String, Bool, false, not, ◌&&◌, ◌||◌, Option, some, none, List, [], ◌∷◌, ◌==◌, ltb, leb,
  if◌then◌else◌, unwrap_or, is_some, any, all, length, is_empty, Result, ok, err, ◌>>◌, reject_if,
}
use mathlib.Core.Option
use curator_rs.Ascii.{byte_length, codes, is_one_of, same, trimmed, lowered}
use curator_rs.Session.Floats.{Floats, in_range}
use curator_rs.Settings.State.{
  Settings, SettingsPatch, SettingsPatchError, ffmpeg_executable, cleanup_mode, retention_days,
  unknown_theme, unknown_layout, unknown_play_mode, provider_selection, metronome, unknown_persona,
  rate_range, pitch_range, volume_range, unknown_soundtrack, no_threshold, unconfirmed_cleanup,
  unconfirmed_retention,
}

abbrev pub valid_themes : List String
valid_themes =
    "system" ∷ "atelier-dark" ∷ "midnight" ∷ "ember" ∷ "linen" ∷ "sage" ∷ "aurora" ∷ "oled"
    ∷ "gtk-system" ∷ "adwaita-light" ∷ "adwaita-dark" ∷ "yaru-light" ∷ "yaru-dark" ∷ "arc-light"
    ∷ "arc-dark" ∷ "breeze-light" ∷ "breeze-dark" ∷ "yotsuba" ∷ "yotsuba-b" ∷ "futaba" ∷ "burichan"
    ∷ "tomorrow" ∷ "photon" ∷ "light" ∷ "oled-dark" ∷ "dark" ∷ []

abbrev pub cleanup_modes : List String
cleanup_modes = "never" ∷ "low_disk" ∷ "weekly" ∷ []

abbrev pub layouts : List String
layouts = "grid" ∷ "table" ∷ []

abbrev pub personas : List String
personas = "neutral" ∷ "mommy" ∷ "dom" ∷ "brat" ∷ []

abbrev pub soundtracks : List String
soundtracks = "local" ∷ "youtube" ∷ "soundcloud" ∷ "apple_music" ∷ "spotify" ∷ []

-- The playback modes that are kept; `mobile-feed` is accepted and kept as `feed`.
abbrev pub play_modes : List String
play_modes = "feed" ∷ "slideshow" ∷ "portrait" ∷ "portrait-wall" ∷ "review" ∷ "goon" ∷ []

-- `value.filter(|value| *value > 0)`
unfoldable pub normalize_optional_bytes : Option ℕ → Option ℕ
normalize_optional_bytes none = none
normalize_optional_bytes (some n) = if n == 0 then none else some n

unfoldable pub normalize_optional_days : Option ℕ → Result SettingsPatchError (Option ℕ)
normalize_optional_days none = ok none
normalize_optional_days (some n) =
    if n == 0 then ok none else if leb n 36500 then ok (some n) else err retention_days

-- What a field that is not there satisfies.
abbrev pub given {ℓ} : {A : Type ℓ} → (A → Bool) → Option A → Bool
given test none = false
given test (some a) = test a

unfoldable pub outside : List String → Option (List ℕ) → Bool
outside names = given (λ s. not (is_one_of names s))

unfoldable pub is_bad_executable : List ℕ → Bool
is_bad_executable raw =
    let value = trimmed raw in
    is_empty value || ltb 4096 (byte_length value) || any (λ c. c == 0) value

unfoldable pub is_provider_byte : ℕ → Bool
is_provider_byte b = leb b'a' b && leb b b'z' || leb b'0' b && leb b b'9' || b == b'-' || b == b'_'

unfoldable pub is_bad_provider : List ℕ → Bool
is_bad_provider provider =
    is_empty provider || ltb 80 (byte_length provider) || not (all is_provider_byte provider)

unfoldable pub provider_of : List ℕ → List ℕ
provider_of raw = lowered (trimmed raw)

unfoldable pub is_bad_selection : List (List ℕ) → Bool
is_bad_selection values =
    ltb 64 (length values) || any (λ raw. is_bad_provider (provider_of raw)) values

unfoldable pub is_too_old : Option ℕ → Bool
is_too_old = given (λ n. ltb 36500 n)

-- `patch.archive_retention_days.flatten()`
abbrev pub flatten {ℓ} : {A : Type ℓ} → Option (Option A) → Option A
flatten none = none
flatten (some a) = a

unfoldable pub is_text : String → List ℕ → Bool
is_text name mode = same (codes name) mode

-- `patch.… != Some("…")`
abbrev unconfirmed : String → Option (List ℕ) → Bool
unconfirmed phrase confirmation = not (given (is_text phrase) confirmation)

module _ {F : Type 0} ⦃fl : Floats F⦄ where
  open fl use {of_nat, of_ratio, is_finite}

  unfoldable pub is_bad_rate : F → Bool
  is_bad_rate value = not (is_finite value) || not (in_range (of_ratio 1 10) (of_nat 3) value)

  -- Between nothing and `most`.
  unfoldable pub is_over : ℕ → F → Bool
  is_over most value = not (is_finite value) || not (in_range (of_nat 0) (of_nat most) value)

  abbrev pub next_mode : SettingsPatch F → Settings F → List ℕ
  next_mode p s = unwrap_or p.automatic_cleanup_mode s.automatic_cleanup_mode

  abbrev pub next_threshold : SettingsPatch F → Settings F → Option ℕ
  next_threshold p s =
      unwrap_or (Option.map normalize_optional_bytes p.automatic_cleanup_low_disk_bytes)
        s.automatic_cleanup_low_disk_bytes

  unfoldable pub validate_texts : SettingsPatch F → Result SettingsPatchError (Unit {0})
  validate_texts p = do
    reject_if (given is_bad_executable p.ffmpeg_bin) ffmpeg_executable
    reject_if (outside cleanup_modes p.automatic_cleanup_mode) cleanup_mode
    reject_if (is_too_old (flatten p.archive_retention_days)) retention_days
    reject_if (outside valid_themes p.theme) (unknown_theme (unwrap_or p.theme []))
    reject_if (outside layouts p.library_layout) unknown_layout
    reject_if (outside ("mobile-feed" ∷ play_modes) p.last_play_mode) unknown_play_mode
    reject_if (given is_bad_selection p.search_providers) provider_selection

  unfoldable pub validate_audio : SettingsPatch F → Result SettingsPatchError (Unit {0})
  validate_audio p = do
    reject_if (given (λ v. not (is_finite v)) p.metronome_volume) metronome
    reject_if (outside personas p.goon_persona) unknown_persona
    reject_if (given is_bad_rate p.tts_rate) rate_range
    reject_if (given (is_over 2) p.tts_pitch) pitch_range
    reject_if (given (is_over 1) p.tts_volume) volume_range
    reject_if (outside soundtracks p.soundtrack_provider) unknown_soundtrack

  unfoldable pub validate_cleanup :
      SettingsPatch F → Settings F → Result SettingsPatchError (Unit {0})
  validate_cleanup p s = do
    reject_if (is_text "low_disk" (next_mode p s) && not (is_some (next_threshold p s)))
        no_threshold
    reject_if
        (is_text "never" s.automatic_cleanup_mode
          && not (is_text "never" (next_mode p s))
          && unconfirmed "ENABLE AUTOMATIC CLEANUP" p.automatic_cleanup_confirmation)
        unconfirmed_cleanup
    reject_if
        (not (is_some s.archive_retention_days)
          && given (λ n. ltb 0 n) (flatten p.archive_retention_days)
          && unconfirmed "ENABLE ARCHIVE RETENTION" p.archive_retention_confirmation)
        unconfirmed_retention

  unfoldable pub validate_patch :
      SettingsPatch F → Settings F → Result SettingsPatchError (Unit {0})
  validate_patch p s = do validate_texts p; validate_audio p; validate_cleanup p s
