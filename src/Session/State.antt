-- ===== src/Session/State.antt =====
-- src/session.rs, what a session keeps, the commands it takes and the effects it returns.
use curator_rs.Prelude.{ℕ, String, Bool, List, Option, ◌++◌, ◌∷◌, []}
use curator_rs.Session.Config.{GameConfig}

pub data SessionStatus : Type 0 where
  ready running paused completed cancelled interrupted : SessionStatus

pub record PhaseState : Type 0 where
  pub index : ℕ
  pub id : String
  pub elapsed_ms : ℕ

-- An `i64`, as the offset of the metronome has it: `negsuc n` is -(n + 1).
pub data ℤ : Type 0 where
  pos : ℕ → ℤ
  negsuc : ℕ → ℤ

pub record TempoState (F : Type 0) : Type 0 where
  pub target_bpm : F
  pub current_bpm : F
  pub offset_ms : ℤ

pub record EventRecord : Type 0 where
  pub id : String
  pub started_at_active_ms : ℕ
  pub duration_ms : ℕ

pub record SessionStatistics : Type 0 where
  pub phase_changes : ℕ
  pub events_started : ℕ
  pub timing_corrections : ℕ
  pub recovery_count : ℕ

pub record SessionState (F : Type 0) : Type 0 where
  pub session_id : String
  pub seed : ℕ
  pub status : SessionStatus
  pub active_elapsed_ms : ℕ
  pub paused_elapsed_ms : ℕ
  pub phase : PhaseState
  pub tempo : TempoState F
  pub current_event : Option EventRecord
  pub event_history : List EventRecord
  pub instruction : Option String
  pub statistics : SessionStatistics

pub data SessionCommand : Type 0 where
  start tick pause resume : ℕ → SessionCommand
  user_action : String → SessionCommand
  skip_media : SessionCommand
  report_playback_failure : String → SessionCommand
  change_tempo_offset : ℤ → SessionCommand
  end : Bool → ℕ → SessionCommand
  interrupt : ℕ → SessionCommand

pub data SessionEffect (F : Type 0) : Type 0 where
  start_music stop_music : SessionEffect F
  schedule_metronome : F → ℕ → SessionEffect F
  start_phase : String → SessionEffect F
  start_event : String → ℕ → SessionEffect F
  end_event : String → SessionEffect F
  show_instruction : String → SessionEffect F
  skip_media : SessionEffect F
  playback_failed : String → SessionEffect F
  persist_checkpoint : SessionEffect F
  end_session : SessionStatus → SessionEffect F

pub record SessionEngine (F R : Type 0) : Type 0 where
  pub config : GameConfig F
  pub state : SessionState F
  pub rng : R
  pub last_monotonic_ms : Option ℕ
  pub paused_started_ms : Option ℕ

-- `&mut self` and `effects: &mut Vec<SessionEffect>`, which every method of the engine takes.
pub record Turn (F R : Type 0) : Type 0 where
  pub engine : SessionEngine F R
  pub effects : List (SessionEffect F)

module _ {F R : Type 0} where
  abbrev pub push : SessionEffect F → Turn F R → Turn F R
  push e t = record t { effects = t.effects ++ e ∷ [] }

  abbrev pub set_state : SessionState F → Turn F R → Turn F R
  set_state s t = record t { engine = record t.engine { state = s } }

  abbrev pub state_of : Turn F R → SessionState F
  state_of t = t.engine.state

  abbrev pub config_of : Turn F R → GameConfig F
  config_of t = t.engine.config
