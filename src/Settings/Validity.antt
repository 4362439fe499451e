-- ===== src/Settings/Validity.antt =====
-- src/services/settings.rs: what every setting satisfies, and what a patch that is accepted writes.
use curator_rs.Prelude.{
  ℕ, ◌≤◌, ◌≡◌, refl, String, Bool, true, false, not, ◌&&◌, ◌||◌, Bool-cases, inl, inr, Option, some,
  none, List, [], ◌∷◌, ◌++◌, ◌==◌, if◌then◌else◌, unwrap_or, is_some, any, Result, ok, err, ◌>>◌,
  reject_if, arith,
}
use mathlib.Core.Option
use curator_rs.Ascii.{byte_length, codes, is_one_of, same}
use curator_rs.Session.Floats.{Floats}
use curator_rs.Settings.State.{Settings, SettingsPatch}
use curator_rs.Settings.Checks.{
  valid_themes, cleanup_modes, layouts, personas, soundtracks, play_modes, is_provider_byte,
  normalize_optional_bytes, normalize_optional_days, given, flatten, outside, is_bad_provider,
  is_bad_selection, is_too_old, provider_of, is_text, is_bad_rate, is_over, next_mode,
  next_threshold, validate_texts, validate_audio, validate_cleanup, validate_patch,
}
use curator_rs.Settings.Apply.{bounded, changed, normalized_mode, collect_providers, with_local}

module _ {E A : Type 0} where
  reject-ok :
      (test : Bool) (e : E) (k : Result E A) (a : A)
      → reject_if test e >> k ≡ ok a
      → (test ≡ false) × (k ≡ ok a)
  reject-ok true e k a h = absurd (cc)
  reject-ok false e k a h = (refl, h)

  then-ok :
      (m : Result E (Unit {0})) (k : Result E A) (a : A) → m >> k ≡ ok a → (m ≡ ok tt) × (k ≡ ok a)
  then-ok (ok tt) k a h = (refl, h)
  then-ok (err e) k a h = absurd (cc)

last-ok : {E : Type 0} (test : Bool) (e : E) → reject_if test e ≡ ok tt → test ≡ false
last-ok true e h = absurd (cc)
last-ok false e h = refl

module _ {F : Type 0} ⦃fl : Floats F⦄ where
  -- What `validate_patch` has made sure of, as far as the settings need it.
  pub record IsChecked (p : SettingsPatch F) (s : Settings F) : Type 0 where
    pub mode : outside cleanup_modes p.automatic_cleanup_mode ≡ false
    pub days : is_too_old (flatten p.archive_retention_days) ≡ false
    pub theme : outside valid_themes p.theme ≡ false
    pub layout : outside layouts p.library_layout ≡ false
    pub play : outside ("mobile-feed" ∷ play_modes) p.last_play_mode ≡ false
    pub providers : given is_bad_selection p.search_providers ≡ false
    pub volume : given (λ v. not (Floats.is_finite fl v)) p.metronome_volume ≡ false
    pub persona : outside personas p.goon_persona ≡ false
    pub rate : given is_bad_rate p.tts_rate ≡ false
    pub pitch : given (is_over 2) p.tts_pitch ≡ false
    pub loudness : given (is_over 1) p.tts_volume ≡ false
    pub soundtrack : outside soundtracks p.soundtrack_provider ≡ false
    pub threshold :
        (is_text "low_disk" (next_mode p s) && not (is_some (next_threshold p s))) ≡ false

  pub validate_patch-IsChecked :
      (p : SettingsPatch F) (s : Settings F) → validate_patch p s ≡ ok tt → IsChecked p s
  unfolding validate_patch validate_texts validate_audio validate_cleanup
  validate_patch-IsChecked p s h =
      let (texts, h1) = then-ok _ _ tt h in
      let (audio, cleanup) = then-ok _ _ tt h1 in
      let (t1, k1) = reject-ok _ _ _ tt texts in
      let (t2, k2) = reject-ok _ _ _ tt k1 in
      let (t3, k3) = reject-ok _ _ _ tt k2 in
      let (t4, k4) = reject-ok _ _ _ tt k3 in
      let (t5, k5) = reject-ok _ _ _ tt k4 in
      let (t6, k6) = reject-ok _ _ _ tt k5 in
      let (a1, l1) = reject-ok _ _ _ tt audio in
      let (a2, l2) = reject-ok _ _ _ tt l1 in
      let (a3, l3) = reject-ok _ _ _ tt l2 in
      let (a4, l4) = reject-ok _ _ _ tt l3 in
      let (a5, l5) = reject-ok _ _ _ tt l4 in
      record {
        mode = t2;
        days = t3;
        theme = t4;
        layout = t5;
        play = t6;
        providers = last-ok _ _ k6;
        volume = a1;
        persona = a2;
        rate = a3;
        pitch = a4;
        loudness = a5;
        soundtrack = last-ok _ _ l5;
        threshold = (reject-ok _ _ _ tt cleanup).0;
      }

  -- What the settings always satisfy; times and volumes that are clamped as `f64` are left out.
  pub record IsValid (s : Settings F) : Type 0 where
    pub clip : (5 ≤ s.max_clip_length_secs) × (s.max_clip_length_secs ≤ 3600)
    pub limit : (1 ≤ s.goon_default_limit) × (s.goon_default_limit ≤ 10000)
    pub concurrent : (1 ≤ s.max_concurrent) × (s.max_concurrent ≤ 20)
    pub reminder : (1 ≤ s.export_reminder_days) × (s.export_reminder_days ≤ 365)
    pub some_source : given (λ n. n == 0) s.limits.max_source_storage_bytes ≡ false
    pub some_disk : given (λ n. n == 0) s.limits.minimum_free_disk_bytes ≡ false
    pub some_file : given (λ n. n == 0) s.max_download_file_size_bytes ≡ false
    pub some_cache : given (λ n. n == 0) s.thumbnail_cache_max_bytes ≡ false
    pub some_threshold : given (λ n. n == 0) s.automatic_cleanup_low_disk_bytes ≡ false
    pub some_days : given (λ n. n == 0) s.archive_retention_days ≡ false
    pub few_days : is_too_old s.archive_retention_days ≡ false
    pub mode : is_one_of cleanup_modes s.automatic_cleanup_mode ≡ true
    pub threshold :
        (is_text "low_disk" s.automatic_cleanup_mode
          && not (is_some s.automatic_cleanup_low_disk_bytes))
        ≡ false
    pub theme : is_one_of valid_themes s.theme ≡ true
    pub layout : is_one_of layouts s.library_layout ≡ true
    pub play : is_one_of play_modes s.last_play_mode ≡ true
    pub local : any (is_text "local") s.search_providers ≡ true
    pub providers : any is_bad_provider s.search_providers ≡ false
    pub persona : is_one_of personas s.goon_persona ≡ true
    pub rate : is_bad_rate s.tts_rate ≡ false
    pub pitch : is_over 2 s.tts_pitch ≡ false
    pub loudness : is_over 1 s.tts_volume ≡ false
    pub soundtrack : is_one_of soundtracks s.soundtrack_provider ≡ true

-- A field that is changed, or left as it was.
pub named-unwrap_or :
    (names : List String) (o : Option (List ℕ)) (old : List ℕ)
    → outside names o ≡ false
    → is_one_of names old ≡ true
    → is_one_of names (unwrap_or o old) ≡ true
unfolding outside
named-unwrap_or names none old h k = k
named-unwrap_or names (some v) old h k = ground arith

pub unwrap_or-false {ℓ} :
    {A : Type ℓ} (test : A → Bool) (o : Option A) (old : A)
    → given test o ≡ false
    → test old ≡ false
    → test (unwrap_or o old) ≡ false
unwrap_or-false test none old h k = k
unwrap_or-false test (some v) old h k = h

pub changed_bounds :
    (least most : ℕ) (o : Option ℕ) (old : ℕ)
    → least ≤ most
    → (least ≤ old) × (old ≤ most)
    → (least ≤ changed (bounded least most) o old) × (changed (bounded least most) o old ≤ most)
changed_bounds least most none old h k = k
changed_bounds least most (some v) old h k = ground arith

normalized-not_zero : (o : Option ℕ) → given (λ n. n == 0) (normalize_optional_bytes o) ≡ false
unfolding normalize_optional_bytes
normalized-not_zero none = refl
normalized-not_zero (some n) = ground arith

pub changed-not_zero :
    (o : Option (Option ℕ)) (old : Option ℕ)
    → given (λ n. n == 0) old ≡ false
    → given (λ n. n == 0) (changed normalize_optional_bytes o old) ≡ false
changed-not_zero none old k = k
changed-not_zero (some v) old k = normalized-not_zero v

pub changed-few_days :
    (o : Option (Option ℕ)) (old : Option ℕ)
    → is_too_old (flatten o) ≡ false
    → is_too_old old ≡ false
    → is_too_old (changed normalize_optional_bytes o old) ≡ false
unfolding is_too_old normalize_optional_bytes
changed-few_days none old h k = k
changed-few_days (some none) old h k = refl
changed-few_days (some (some n)) old h k = ground arith

pub changed-map :
    (o : Option (Option ℕ)) (old : Option ℕ)
    → unwrap_or (Option.map normalize_optional_bytes o) old ≡ changed normalize_optional_bytes o old
changed-map none old = refl
changed-map (some v) old = refl

pub normalize_optional_days-ok :
    (o : Option ℕ)
    → is_too_old o ≡ false
    → normalize_optional_days o ≡ ok (normalize_optional_bytes o)
unfolding normalize_optional_days normalize_optional_bytes is_too_old
normalize_optional_days-ok none h = refl
normalize_optional_days-ok (some n) h = ground arith

pub play_mode-changed :
    (o : Option (List ℕ)) (old : List ℕ)
    → outside ("mobile-feed" ∷ play_modes) o ≡ false
    → is_one_of play_modes old ≡ true
    → is_one_of play_modes (changed normalized_mode o old) ≡ true
unfolding outside is_one_of same
play_mode-changed none old h k = k
play_mode-changed (some v) old h k =
    elim (Bool-cases (same (codes "feed") v || (same (codes "mobile-feed") v || false))) [
      | inl t ↦ rw t refl
      | inr f ↦ rw f (ground arith)
    ]

pub local-with_local : (ps : List (List ℕ)) → any (is_text "local") (with_local ps) ≡ true
unfolding with_local is_text same
local-with_local ps = elim (Bool-cases (any (is_text "local") ps)) [
  | inl t ↦ rw t t
  | inr f ↦ rw f refl
]

local_id-good : is_bad_provider (codes "local") ≡ false
unfolding is_bad_provider byte_length is_provider_byte
local_id-good = refl

pub good-with_local :
    (ps : List (List ℕ))
    → any is_bad_provider ps ≡ false
    → any is_bad_provider (with_local ps) ≡ false
unfolding with_local
good-with_local ps h =
    let fine = local_id-good in
    elim (Bool-cases (any (is_text "local") ps)) [ inl t ↦ rw t h | inr f ↦ rw f (ground arith) ]

any-append {ℓ} :
    {A : Type ℓ} (test : A → Bool) (xs ys : List A)
    → any test (xs ++ ys) ≡ (any test xs || any test ys)
any-append test [] ys = refl
any-append test (x ∷ xs) ys = ground (arith, any-append test xs ys)

-- The loop accepts the ids that were checked, and what it collects are such ids.
pub collect_providers-ok :
    (acc raws : List (List ℕ))
    → any (λ raw. is_bad_provider (provider_of raw)) raws ≡ false
    → any is_bad_provider acc ≡ false
    → (ps : List (List ℕ)) × (collect_providers acc raws ≡ ok ps) × (any is_bad_provider ps ≡ false)
unfolding collect_providers
collect_providers-ok acc [] h k = (acc, refl, k)
collect_providers-ok acc (raw ∷ raws) h k =
    let next : List (List ℕ) =
      if any (same (provider_of raw)) acc then acc else acc ++ provider_of raw ∷ [] in
    let good : any is_bad_provider next ≡ false =
      ground (arith, any-append is_bad_provider acc (provider_of raw ∷ [])) in
    let fine : is_bad_provider (provider_of raw) ≡ false = ground arith in
    let (ps, e, g) = collect_providers-ok next raws (ground arith) good in (ps, rw fine e, g)
