-- ===== src/Session/Config.antt =====
-- src/session.rs, the versioned configuration of a session. `F` is the type of `f64`.
use curator_rs.Prelude.{ℕ, String, Bool, List, Option}

abbrev pub game_config_schema_version : ℕ
game_config_schema_version = 1

pub record GameMetadata : Type 0 where
  pub name : String
  pub description : String

pub record EndCondition : Type 0 where
  pub active_duration_ms : ℕ

pub record DifficultyConfig (F : Type 0) : Type 0 where
  pub tempo_multiplier : F

pub data TempoCurve (F : Type 0) : Type 0 where
  constant : F → TempoCurve F
  linear : F → F → TempoCurve F
  stepped : F → F → ℕ → TempoCurve F
  eased : F → F → TempoCurve F
  adaptive : F → TempoCurve F

pub record TempoConfig (F : Type 0) : Type 0 where
  pub curve : TempoCurve F
  pub min_bpm : F
  pub max_bpm : F
  pub smoothing_per_second : F
  pub meter : ℕ

pub data SelectionStrategy : Type 0 where
  sequential shuffle seeded_random weighted_random : SelectionStrategy
  rating_weighted tag_weighted least_recently_shown : SelectionStrategy

pub record MediaConfig : Type 0 where
  pub selection_strategy : SelectionStrategy
  pub required_tags : List String
  pub excluded_tags : List String
  pub allow_video_interruption : Bool

pub record PhaseConfig (F : Type 0) : Type 0 where
  pub id : String
  pub duration_ms : ℕ
  pub tempo_multiplier : F
  pub event_ids : List String

pub record EventDefinition : Type 0 where
  pub id : String
  pub probability_basis_points : ℕ
  pub minimum_occurrences : ℕ
  pub maximum_occurrences : ℕ
  pub cooldown_ms : ℕ
  pub duration_ms : ℕ
  pub priority : ℕ
  pub allowed_phase_ids : List String
  pub instruction : Option String

pub record InstructorConfig : Type 0 where
  pub voice_pack_id : Option String
  pub script_preset_id : Option String

pub record AudioConfig : Type 0 where
  pub music_playlist_id : Option String
  pub metronome_enabled : Bool
  pub music_volume_percent : ℕ
  pub voice_volume_percent : ℕ

pub record GameConfig (F : Type 0) : Type 0 where
  pub schema_version : ℕ
  pub metadata : GameMetadata
  pub duration : EndCondition
  pub difficulty : DifficultyConfig F
  pub tempo : TempoConfig F
  pub media : MediaConfig
  pub phases : List (PhaseConfig F)
  pub events : List EventDefinition
  pub instructor : InstructorConfig
  pub audio : AudioConfig
  pub seed : Option ℕ
