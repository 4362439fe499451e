-- ===== src/Session/Validate.antt =====
-- src/session.rs, `GameConfig::validate`, `GameConfig::quick_default` and `SessionEngine::new`.
pub mod Phases
pub mod Accepts
use Prim.Native.String
use curator_rs.Prelude.{
  ℕ, zero, suc, ◌/◌, ◌%◌, get_or, String, Bool, true, false, not, ◌&&◌, ◌||◌, List, [], ◌∷◌, none,
  ltb, leb, ◌==◌, any, contains, length, is_empty, Result, ok, ◌>>=◌, ◌>>◌, reject_if,
}
use curator_rs.Text.{is_blank}
use curator_rs.Session.Floats.{Floats, Rng, in_range}
use curator_rs.Session.Config.{
  game_config_schema_version, PhaseConfig, EventDefinition, GameConfig, TempoConfig, linear,
  seeded_random,
}
use curator_rs.Session.Tempo.{phase_at, target_tempo_for}
use curator_rs.Session.State.{ready, pos, SessionEngine}
use curator_rs.Session.Clock.{unwrap_or}

-- The messages of `validate`, with the values that they print.
pub data ConfigError : Type 0 where
  unsupported_schema : ℕ → ConfigError
  no_duration phase_count difficulty tempo : ConfigError
  invalid_phase phase_multiplier invalid_event : ConfigError
  unknown_phase : String → ConfigError
  unknown_event : String → String → ConfigError

-- The tests on one event in the second loop of `validate`.
unfoldable pub is_bad_event : List String → EventDefinition → Bool
is_bad_event seen d =
    is_blank d.id
    || ltb 10000 d.probability_basis_points
    || ltb d.maximum_occurrences d.minimum_occurrences
    || d.duration_ms == 0
    || contains seen d.id

-- The second loop; it returns `event_ids`.
unfoldable pub check_events :
    List String → List String → List EventDefinition → Result ConfigError (List String)
check_events phase_ids seen [] = ok seen
check_events phase_ids seen (d ∷ ds) = do
  reject_if (is_bad_event seen d) invalid_event
  reject_if (any (λ id. not (contains phase_ids id)) d.allowed_phase_ids) (unknown_phase d.id)
  check_events phase_ids (d.id ∷ seen) ds

-- `event_ids.iter().find(|id| !known.contains(id))`, as an error.
unfoldable pub check_known : List String → String → List String → Result ConfigError (Unit {0})
check_known known phase_id [] = ok tt
check_known known phase_id (id ∷ ids) = do
  reject_if (not (contains known id)) (unknown_event phase_id id)
  check_known known phase_id ids

-- The third loop.
unfoldable pub check_references :
    {F : Type 0} → List String → List (PhaseConfig F) → Result ConfigError (Unit {0})
check_references known [] = ok tt
check_references known (p ∷ ps) = do check_known known p.id p.event_ids; check_references known ps

module _ {F : Type 0} ⦃fl : Floats F⦄ where
  open fl use {of_nat, of_ratio, is_finite, lt, le}

  -- `value.is_finite() && (0.1..=4.0).contains(&value)`
  unfoldable pub is_multiplier : F → Bool
  is_multiplier value = is_finite value && in_range (of_ratio 1 10) (of_nat 4) value

  unfoldable pub is_bad_tempo : TempoConfig F → Bool
  is_bad_tempo c =
      not (is_finite c.min_bpm)
      || not (is_finite c.max_bpm)
      || le c.min_bpm (of_nat 0)
      || lt c.max_bpm c.min_bpm
      || not (leb 1 c.meter && leb c.meter 16)

  unfoldable pub is_bad_phase : List String → PhaseConfig F → Bool
  is_bad_phase seen p = is_blank p.id || p.duration_ms == 0 || contains seen p.id

  -- The first loop; it returns `phase_ids`.
  unfoldable pub check_phases :
      List String → List (PhaseConfig F) → Result ConfigError (List String)
  check_phases seen [] = ok seen
  check_phases seen (p ∷ ps) = do
    reject_if (is_bad_phase seen p) invalid_phase
    reject_if (not (is_multiplier p.tempo_multiplier)) phase_multiplier
    check_phases (p.id ∷ seen) ps

  unfoldable pub validate : GameConfig F → Result ConfigError (Unit {0})
  validate c = do
    reject_if (not (c.schema_version == game_config_schema_version))
        (unsupported_schema c.schema_version)
    reject_if (c.duration.active_duration_ms == 0) no_duration
    reject_if (is_empty c.phases || ltb 128 (length c.phases)) phase_count
    reject_if (not (is_multiplier c.difficulty.tempo_multiplier)) difficulty
    reject_if (is_bad_tempo c.tempo) tempo
    phase_ids ← check_phases [] c.phases
    event_ids ← check_events phase_ids [] c.events
    check_references event_ids c.phases

  unfoldable pub quick_default : GameConfig F
  quick_default = record {
    schema_version = game_config_schema_version;
    metadata = record { name = "Quick session"; description = "Native quick-mode baseline" };
    duration = record { active_duration_ms = 900000 };
    difficulty = record { tempo_multiplier = of_nat 1 };
    tempo = record {
      curve = linear (of_nat 80) (of_nat 120);
      min_bpm = of_nat 40;
      max_bpm = of_nat 180;
      smoothing_per_second = of_nat 4;
      meter = 4;
    };
    media = record {
      selection_strategy = seeded_random;
      required_tags = [];
      excluded_tags = [];
      allow_video_interruption = false;
    };
    phases =
        record { id = "main"; duration_ms = 900000; tempo_multiplier = of_nat 1; event_ids = [] }
        ∷ [];
    events = [];
    instructor = record { voice_pack_id = none; script_preset_id = none };
    audio = record {
      music_playlist_id = none;
      metronome_enabled = true;
      music_volume_percent = 80;
      voice_volume_percent = 80;
    };
    seed = none;
  }

abbrev pub digit_names : List String
digit_names =
    "0" ∷ "1" ∷ "2" ∷ "3" ∷ "4" ∷ "5" ∷ "6" ∷ "7" ∷ "8" ∷ "9" ∷ "a" ∷ "b" ∷ "c" ∷ "d" ∷ "e" ∷ "f"
    ∷ []

-- The hexadecimal digits of a number, the last `count` of them.
unfoldable pub hex_digits : ℕ → ℕ → String
hex_digits zero n = ""
hex_digits (suc count) n = String.◌++◌ (hex_digits count (n / 16)) (get_or digit_names (n % 16) "")

-- `{:016x}` of a `u64`.
abbrev pub hex16 : ℕ → String
hex16 n = hex_digits 16 n

module _ {F R : Type 0} ⦃fl : Floats F⦄ ⦃rg : Rng R⦄ where
  -- A new session, named `format!("session-{seed:016x}")`.
  unfoldable pub initial_state : ℕ → GameConfig F → SessionEngine F R
  initial_state seed config =
      let target = target_tempo_for config 0 0 in
      record {
        config = config;
        state = record {
          session_id = String.◌++◌ "session-" (hex16 seed);
          seed = seed;
          status = ready;
          active_elapsed_ms = 0;
          paused_elapsed_ms = 0;
          phase = record { index = 0; id = (phase_at config.phases 0).id; elapsed_ms = 0 };
          tempo = record { target_bpm = target; current_bpm = target; offset_ms = pos 0 };
          current_event = none;
          event_history = [];
          instruction = none;
          statistics = record {
            phase_changes = 0;
            events_started = 0;
            timing_corrections = 0;
            recovery_count = 0;
          };
        };
        rng = Rng.seed_from_u64 rg seed;
        last_monotonic_ms = none;
        paused_started_ms = none;
      }

  -- `random` is what `rand::random` draws, used if the configuration has no seed.
  unfoldable pub new : ℕ → GameConfig F → Result ConfigError (SessionEngine F R)
  new random config = do validate config; ok (initial_state (unwrap_or config.seed random) config)
