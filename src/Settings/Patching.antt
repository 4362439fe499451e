-- ===== src/Settings/Patching.antt =====
-- src/services/settings.rs: `apply_settings_patch`, with `set_start_with_windows_preference` of
-- src/lib.rs. No other patch comes between.
use curator_rs.Prelude.{
  ℕ, ◌+◌, Bool, false, not, ◌||◌, Option, some, none, List, if◌then◌else◌, unwrap_or, is_some,
  Result, ok, err, ◌>>=◌,
}
use curator_rs.Ascii.{codes, same, trimmed}
use curator_rs.Session.Floats.{Floats}
use curator_rs.Settings.State.{
  Settings, SettingsPatch, SettingsPatchError, config_unsaved, not_registered,
}
use curator_rs.Settings.Checks.{validate_patch}
use curator_rs.Settings.Apply.{
  Applied, bounded, changed, differs, apply_integrations, apply_download_limits,
  apply_cleanup_policies, apply_slideshow_defaults, apply_appearance, apply_session_features,
  apply_search_providers, apply_audio,
}

-- What a patch changes: the settings in memory and in settings.json, the semaphore for downloads, and
-- the path in config.json. Of the semaphore there are its permits and how many of them downloads hold;
-- a download keeps the permit of a semaphore that was replaced, and `held_before` counts these.
pub record SettingsState (F : Type 0) : Type 0 where
  pub settings : Settings F
  pub saved : Settings F
  pub permits : ℕ
  pub held : ℕ
  pub held_before : ℕ
  pub ffmpeg_bin : Option (List ℕ)

-- Whether config.json and settings.json can be written and Windows takes the registration.
pub record Outside : Type 0 where
  pub writes_config : Bool
  pub writes_settings : Bool
  pub registers : Bool

-- What follows a patch: the refresh of the listener, and the limit to which the thumbnails are trimmed.
pub record Effects : Type 0 where
  pub refreshes_listener : Bool
  pub trims_to : Option ℕ

abbrev pub Patched : Type 0 → Type 0 → Type 0
Patched F A = Result (SettingsPatchError × SettingsState F) (A × SettingsState F)

module _ {F : Type 0} ⦃fl : Floats F⦄ where
  unfoldable pub set_ffmpeg : Outside → Option (List ℕ) → SettingsState F → Patched F Bool
  set_ffmpeg o none st = ok (false, st)
  set_ffmpeg o (some raw) st =
      if o.writes_config
      then ok (
        not (same (unwrap_or st.ffmpeg_bin (codes "ffmpeg")) (trimmed raw)),
        record st { ffmpeg_bin = some (trimmed raw) },
      )
      else err (config_unsaved, st)

  -- `save_settings`, which ignores an error.
  abbrev pub save_settings : Outside → Settings F → SettingsState F → SettingsState F
  save_settings o s st = record st {
    settings = s;
    saved = (if o.writes_settings then s else st.saved);
  }

  abbrev pub with_start : Bool → Settings F → Settings F
  with_start enabled s = record s { start_with_windows = enabled }

  -- `set_start_with_windows_preference`
  unfoldable pub set_start : Outside → Option Bool → SettingsState F → Patched F (Unit {0})
  set_start o none st = ok (tt, st)
  set_start o (some enabled) st =
      if o.registers
      then ok (tt, save_settings o (with_start enabled st.settings) st)
      else err (not_registered, st)

  unfoldable pub apply_bootstrap_integrations :
      Outside → SettingsPatch F → SettingsState F → Patched F Bool
  apply_bootstrap_integrations o p st = do
    r ← set_ffmpeg o p.ffmpeg_bin st
    q ← set_start o p.start_with_windows r.1
    ok (r.0, q.1)

  -- The calls of `apply_*`, in their order.
  unfoldable pub apply_all : SettingsPatch F → Settings F → Applied F
  apply_all p s = do
    s1 ← apply_cleanup_policies p (apply_download_limits p (apply_integrations p s))
    s2 ← apply_appearance p (apply_slideshow_defaults p s1)
    s3 ← apply_session_features p s2
    s4 ← apply_search_providers p s3
    apply_audio p s4

  abbrev pub next_permits : SettingsPatch F → ℕ → ℕ
  next_permits p n = changed (bounded 1 20) p.max_concurrent n

  -- A new limit comes with a new semaphore.
  abbrev pub with_semaphore : SettingsPatch F → SettingsState F → SettingsState F
  with_semaphore p st = record st {
    permits = next_permits p st.permits;
    held = (if is_some p.max_concurrent then 0 else st.held);
    held_before = (if is_some p.max_concurrent then st.held_before + st.held else st.held_before);
  }

  abbrev pub with_restart : Bool → Settings F → Settings F
  with_restart ffmpeg_changed s = record s {
    ffmpeg_restart_required = (ffmpeg_changed || s.ffmpeg_restart_required);
  }

  abbrev pub effects_of : SettingsPatch F → Settings F → Settings F → Effects
  effects_of p before after = record {
    refreshes_listener = differs before.lan_access_enabled after.lan_access_enabled;
    trims_to =
        (if is_some p.thumbnail_cache_max_bytes then after.thumbnail_cache_max_bytes else none);
  }

  unfoldable pub finish_patch :
      Outside
      → SettingsPatch F
      → Bool
      → SettingsState F
      → Applied F
      → Result SettingsPatchError Effects × SettingsState F
  finish_patch o p ffmpeg_changed st (err (e, s)) =
      (err e, record (with_semaphore p st) { settings = s })
  finish_patch o p ffmpeg_changed st (ok s) =
      let s' = with_restart ffmpeg_changed s in
      (ok (effects_of p st.settings s'), save_settings o s' (with_semaphore p st))

  unfoldable pub after_bootstrap :
      Outside
      → SettingsPatch F
      → Patched F Bool
      → Result SettingsPatchError Effects × SettingsState F
  after_bootstrap o p (err (e, st)) = (err e, st)
  after_bootstrap o p (ok (ffmpeg_changed, st)) =
      finish_patch o p ffmpeg_changed st (apply_all p st.settings)

  unfoldable pub after_validation :
      Outside
      → SettingsPatch F
      → SettingsState F
      → Result SettingsPatchError (Unit {0})
      → Result SettingsPatchError Effects × SettingsState F
  after_validation o p st (err e) = (err e, st)
  after_validation o p st (ok u) = after_bootstrap o p (apply_bootstrap_integrations o p st)

  unfoldable pub apply_settings_patch :
      Outside
      → SettingsPatch F
      → SettingsState F
      → Result SettingsPatchError Effects × SettingsState F
  apply_settings_patch o p st = after_validation o p st (validate_patch p st.settings)
