-- ===== src/Settings/Atomic.antt =====
-- src/services/settings.rs: lemmas on `apply_settings_patch` as a whole.
use curator_rs.Prelude.{
  ℕ, ◌≡◌, ◌⊎◌, ◌∙◌, refl, sym, ap, subst, Bool, true, not, ◌||◌, Bool-cases, inl, inr, Option, some,
  none, List, unwrap_or, if◌then◌else◌, Result, ok, err, ◌>>=◌, Result-cases,
}
use curator_rs.Ascii.{codes, same, trimmed}
use curator_rs.Session.Floats.{Floats}
use curator_rs.Settings.State.{Settings, SettingsPatch, SettingsPatchError}
use curator_rs.Settings.Checks.{validate_patch, given}
use curator_rs.Settings.Apply.{changed}
use curator_rs.Settings.Asked.{
  IsTaken, patched-IsAsked, ffmpeg_restart_required_lem, with_semaphore-running,
}
use curator_rs.Settings.Patching.{
  SettingsState, with_semaphore, Outside, Effects, Patched, with_start, with_restart, effects_of,
  next_permits, set_ffmpeg, set_start, apply_bootstrap_integrations, finish_patch, after_bootstrap,
  after_validation, apply_settings_patch,
}
use curator_rs.Settings.Validity.{IsChecked, IsValid, validate_patch-IsChecked}
use curator_rs.Settings.Steps.{patched, patched-IsValid, max_concurrent-patched, apply_all-ok}

module _ {F : Type 0} ⦃fl : Floats F⦄ where
  -- The settings are valid and saved, and the semaphore that new downloads wait for has as many permits
  -- as they say.
  pub record IsConsistent (st : SettingsState F) : Type 0 where
    pub valid : IsValid st.settings
    pub saved : st.saved ≡ st.settings
    pub permitted : st.permits ≡ st.settings.max_concurrent

  with_start-IsChecked :
      (p : SettingsPatch F) (b : Bool) (s : Settings F)
      → IsChecked p s
      → IsChecked p (with_start b s)
  with_start-IsChecked p b s c = record {
    mode = c.mode;
    days = c.days;
    theme = c.theme;
    layout = c.layout;
    play = c.play;
    providers = c.providers;
    volume = c.volume;
    persona = c.persona;
    rate = c.rate;
    pitch = c.pitch;
    loudness = c.loudness;
    soundtrack = c.soundtrack;
    threshold = c.threshold;
  }

  -- What a step outside the settings keeps.
  record Keeps (p : SettingsPatch F) (st st' : SettingsState F) : Type 0 where
    pub checked : IsChecked p st.settings → IsChecked p st'.settings
    pub consistent : IsConsistent st → IsConsistent st'

  abbrev Ends : {A : Type 0} → SettingsPatch F → SettingsState F → Patched F A → Type 0
  Ends p st (err (e, st')) = Keeps p st st'
  Ends p st (ok (a, st')) = Keeps p st st'

  IsValid-flags :
      (starts restarts : Bool) (s : Settings F)
      → IsValid s
      → IsValid (record s { start_with_windows = starts; ffmpeg_restart_required = restarts })
  IsValid-flags starts restarts s v = record {
    clip = v.clip;
    limit = v.limit;
    concurrent = v.concurrent;
    reminder = v.reminder;
    some_source = v.some_source;
    some_disk = v.some_disk;
    some_file = v.some_file;
    some_cache = v.some_cache;
    some_threshold = v.some_threshold;
    some_days = v.some_days;
    few_days = v.few_days;
    mode = v.mode;
    threshold = v.threshold;
    theme = v.theme;
    layout = v.layout;
    play = v.play;
    local = v.local;
    providers = v.providers;
    persona = v.persona;
    rate = v.rate;
    pitch = v.pitch;
    loudness = v.loudness;
    soundtrack = v.soundtrack;
  }

  with_start-IsConsistent :
      (b : Bool) (st : SettingsState F)
      → IsConsistent st
      → IsConsistent
          (record st { settings = with_start b st.settings; saved = with_start b st.settings })
  with_start-IsConsistent b st h = record {
    valid = IsValid-flags b st.settings.ffmpeg_restart_required st.settings h.valid;
    saved = refl;
    permitted = h.permitted;
  }

  set_ffmpeg-Ends :
      (o : Outside) (x : Option (List ℕ)) (p : SettingsPatch F) (st : SettingsState F)
      → Ends p st (set_ffmpeg o x st)
  unfolding set_ffmpeg
  set_ffmpeg-Ends o none p st = record { checked = λ c. c; consistent = λ h. h }
  set_ffmpeg-Ends o (some raw) p st = elim (Bool-cases o.writes_config) [
    | inl t ↦ rw t (record {
      checked = λ c. c;
      consistent = λ h. record { valid = h.valid; saved = h.saved; permitted = h.permitted };
    })
    | inr f ↦ rw f (record { checked = λ c. c; consistent = λ h. h })
  ]

  set_start-Ends :
      (o : Outside) (x : Option Bool) (p : SettingsPatch F) (st : SettingsState F)
      → o.writes_settings ≡ true
      → Ends p st (set_start o x st)
  unfolding set_start
  set_start-Ends o none p st w = record { checked = λ c. c; consistent = λ h. h }
  set_start-Ends o (some b) p st w = elim (Bool-cases o.registers) [
    | inl t ↦
        rw (t, w)
          (record {
            checked = with_start-IsChecked p b st.settings;
            consistent = with_start-IsConsistent b st;
          })
    | inr f ↦ rw f (record { checked = λ c. c; consistent = λ h. h })
  ]

  bootstrap-Ends :
      (o : Outside) (p : SettingsPatch F) (st : SettingsState F)
      → o.writes_settings ≡ true
      → Ends p st (apply_bootstrap_integrations o p st)
  unfolding apply_bootstrap_integrations
  bootstrap-Ends o p st w =
      first (set_ffmpeg o p.ffmpeg_bin st) (set_ffmpeg-Ends o p.ffmpeg_bin p st)
    where
      second :
          (b : Bool) (st1 : SettingsState F) (q : Patched F (Unit {0}))
          → Keeps p st st1
          → Ends p st1 q
          → Ends p st (q >>= λ (u : Unit {0} × SettingsState F). ok (b, u.1))
      second b st1 (ok (u, st2)) k l = record {
        checked = λ c. l.checked (k.checked c);
        consistent = λ h. l.consistent (k.consistent h);
      }
      second b st1 (err (e, st2)) k l = record {
        checked = λ c. l.checked (k.checked c);
        consistent = λ h. l.consistent (k.consistent h);
      }

      first :
          (r : Patched F Bool)
          → Ends p st r
          → Ends p st (
              r >>= λ (r : Bool × SettingsState F).
              set_start o p.start_with_windows r.1 >>= λ (u : Unit {0} × SettingsState F).
              ok (r.0, u.1))
      first (ok (b, st1)) k =
          second b st1 (set_start o p.start_with_windows st1) k
            (set_start-Ends o p.start_with_windows p st1 w)
      first (err (e, st1)) k = k

  after_bootstrap-IsConsistent :
      (o : Outside) (p : SettingsPatch F) (st : SettingsState F) (r : Patched F Bool)
      → o.writes_settings ≡ true
      → Ends p st r
      → IsChecked p st.settings
      → IsConsistent st
      → IsConsistent (after_bootstrap o p r).1
  unfolding after_bootstrap finish_patch
  after_bootstrap-IsConsistent o p st (err (e, st')) w k c h = k.consistent h
  after_bootstrap-IsConsistent o p st (ok (b, st')) w k c h =
      let (ps, done, good, chosen) = apply_all-ok p st'.settings (k.checked c) in
      let h' = k.consistent h in
      let v = h'.valid in
      let s' = patched p st'.settings ps in
      let valid = patched-IsValid p st'.settings ps (k.checked c) v (good (v.local, v.providers)) in
      rw (done, w)
        (record {
          valid =
              IsValid-flags s'.start_with_windows (with_restart b s').ffmpeg_restart_required s'
                valid;
          saved = refl;
          permitted =
              ap (next_permits p) h'.permitted ∙ sym (max_concurrent-patched p st'.settings ps);
        })

  refused_lem :
      (o : Outside) (p : SettingsPatch F) (st : SettingsState F) (e : SettingsPatchError)
      → validate_patch p st.settings ≡ err e
      → apply_settings_patch o p st ≡ (err e, st)
  unfolding apply_settings_patch after_validation
  refused_lem o p st e h = ap (after_validation o p st) h

  accepted_lem :
      (o : Outside) (p : SettingsPatch F) (st : SettingsState F)
      → validate_patch p st.settings ≡ ok tt
      → apply_settings_patch o p st ≡ after_bootstrap o p (apply_bootstrap_integrations o p st)
  unfolding apply_settings_patch after_validation
  accepted_lem o p st h = ap (after_validation o p st) h

  -- Where settings.json can be written, whatever a patch asks for, and whether or not it is refused, on
  -- the way or before, the settings stay valid and saved, and the semaphore that new downloads wait for
  -- has as many permits as they say. Of the downloads that hold permits of an earlier one it says nothing.
  pub apply_settings_patch-IsConsistent :
      (o : Outside) (p : SettingsPatch F) (st : SettingsState F)
      → o.writes_settings ≡ true
      → IsConsistent st
      → IsConsistent (apply_settings_patch o p st).1
  apply_settings_patch-IsConsistent o p st w h =
      elim (Result-cases (validate_patch p st.settings)) [
        | inl (u, e) ↦
            subst (λ (r : Result SettingsPatchError Effects × SettingsState F). IsConsistent r.1)
              (sym (accepted_lem o p st e))
              (after_bootstrap-IsConsistent o p st (apply_bootstrap_integrations o p st) w
                (bootstrap-Ends o p st w) (validate_patch-IsChecked p st.settings e) h)
        | inr (x, e) ↦
            subst (λ (r : Result SettingsPatchError Effects × SettingsState F). IsConsistent r.1)
              (sym (refused_lem o p st x e)) h
      ]

  set_ffmpeg-ok :
      (o : Outside) (x : Option (List ℕ)) (st : SettingsState F)
      → o.writes_config ≡ true
      → set_ffmpeg o x st
        ≡ ok (
          given (λ raw. not (same (unwrap_or st.ffmpeg_bin (codes "ffmpeg")) (trimmed raw))) x,
          record st { ffmpeg_bin = changed (λ raw. some (trimmed raw)) x st.ffmpeg_bin },
        )
  unfolding set_ffmpeg
  set_ffmpeg-ok o none st w = refl
  set_ffmpeg-ok o (some raw) st w = rw w refl

  set_start-ok :
      (o : Outside) (x : Option Bool) (st : SettingsState F)
      → o.registers ≡ true
      → (kept : Settings F) × (set_start o x st
          ≡ ok (
            tt,
            record st {
              settings = with_start (unwrap_or x st.settings.start_with_windows) st.settings;
              saved = kept;
            },
          ))
  unfolding set_start
  set_start-ok o none st w = (st.saved, refl)
  set_start-ok o (some b) st w =
      ((if o.writes_settings then with_start b st.settings else st.saved), rw w refl)

  -- The state after the settings that stand outside settings.json.
  abbrev booted : SettingsPatch F → SettingsState F → Settings F → SettingsState F
  booted p st kept = record st {
    settings =
        with_start (unwrap_or p.start_with_windows st.settings.start_with_windows) st.settings;
    saved = kept;
    ffmpeg_bin = changed (λ raw. some (trimmed raw)) p.ffmpeg_bin st.ffmpeg_bin;
  }

  abbrev is_moved : SettingsPatch F → SettingsState F → Bool
  is_moved p st =
      given (λ raw. not (same (unwrap_or st.ffmpeg_bin (codes "ffmpeg")) (trimmed raw)))
        p.ffmpeg_bin

  bootstrap-ok :
      (o : Outside) (p : SettingsPatch F) (st : SettingsState F)
      → o.writes_config ≡ true
      → o.registers ≡ true
      → (kept : Settings F) × (apply_bootstrap_integrations o p st
          ≡ ok (is_moved p st, booted p st kept))
  unfolding apply_bootstrap_integrations
  bootstrap-ok o p st w r =
      let st1 : SettingsState F = record st {
        ffmpeg_bin = changed (λ raw. some (trimmed raw)) p.ffmpeg_bin st.ffmpeg_bin;
      } in
      let (kept, e) = set_start-ok o p.start_with_windows st1 r in
      (kept, rw (set_ffmpeg-ok o p.ffmpeg_bin st w, e) refl)

  -- Where config.json and settings.json can be written and the registration is taken, a patch is either
  -- refused by the validation, and then nothing has changed, or accepted by it, and then each setting is
  -- what the patch names for it, bounded or normalized where the source says so, or what it was. All are
  -- saved, the path of ffmpeg and the permits are changed too, and the downloads that hold permits keep
  -- them. Where the patch names providers, they become those and the local one, in whatever order.
  pub apply_settings_patch-atomic :
      (o : Outside) (p : SettingsPatch F) (st : SettingsState F)
      → o.writes_config ≡ true
      → o.writes_settings ≡ true
      → o.registers ≡ true
      → ((e : SettingsPatchError) × (validate_patch p st.settings ≡ err e)
          × (apply_settings_patch o p st ≡ (err e, st)))
        ⊎ ((f : Effects) × (st' : SettingsState F) × (validate_patch p st.settings ≡ ok tt)
            × (apply_settings_patch o p st ≡ (ok f, st'))
            × IsTaken p st st')
  unfolding after_bootstrap finish_patch
  apply_settings_patch-atomic o p st w v r = elim (Result-cases (validate_patch p st.settings)) [
    | inl (u, e) ↦
        let (kept, done) = bootstrap-ok o p st w r in
        let st1 = booted p st kept in
        let checked =
          with_start-IsChecked p (unwrap_or p.start_with_windows st.settings.start_with_windows)
            st.settings (validate_patch-IsChecked p st.settings e) in
        let (ps, all_done, good, chosen) = apply_all-ok p st1.settings checked in
        let s' = with_restart (is_moved p st) (patched p st1.settings ps) in
        let st2 : SettingsState F = record (with_semaphore p st1) { settings = s'; saved = s' } in
        inr (
          effects_of p st1.settings s',
          st2,
          e,
          accepted_lem o p st e
              ∙ ap (after_bootstrap o p) done
              ∙ ap (finish_patch o p (is_moved p st) st1) all_done
              ∙ rw v refl,
          record {
            asked = patched-IsAsked p st.settings ps (is_moved p st) chosen;
            saved = refl;
            ffmpeg_bin = refl;
            ffmpeg_restart_required =
                ap (λ b. is_moved p st || b) (ffmpeg_restart_required_lem p st1.settings ps);
            permits = refl;
            running = with_semaphore-running p st1;
          },
        )
    | inr (x, e) ↦ inl (x, e, refused_lem o p st x e)
  ]
