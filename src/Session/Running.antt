-- ===== src/Session/Running.antt =====
-- src/session.rs, the running clock: what `advance_running_time`, `tick`, `end` and
-- `settle_terminal_time` do to the fields of a session.
use curator_rs.Prelude.{ℕ, ◌≤◌, ◌≡◌, some, arith, u64_max, String}
use curator_rs.Session.Floats.{Floats, Rng}
use curator_rs.Session.Config.{GameConfig}
use curator_rs.Session.State.{Turn, state_of, config_of}
use curator_rs.Session.Clock.{locate, advance_running_time, update_tempo, running_target}
use curator_rs.Session.Advance.{
  active_of, advance_to_active-course, advance_to_active-active, advance_to_active-phase,
}

-- The fields that time alone does not change.
pub record Setting (F R : Type 0) : Type 0 where
  pub config : GameConfig F
  pub session_id : String

abbrev pub setting_of : {F R : Type 0} → Turn F R → Setting F R
setting_of t = record { config = t.engine.config; session_id = t.engine.state.session_id }

-- The active time lies within the configured duration, which is a `u64`.
pub record IsWithin {F R : Type 0} (t : Turn F R) : Type 0 where
  pub duration_u64 : (config_of t).duration.active_duration_ms ≤ u64_max
  pub active_le : active_of t ≤ (config_of t).duration.active_duration_ms

module _ {F R : Type 0} ⦃fl : Floats F⦄ ⦃rg : Rng R⦄ (m : ℕ) (t : Turn F R) where
  abbrev pub running_turn : Turn F R
  running_turn = record t { engine = record t.engine { last_monotonic_ms = some m } }

  pub running_target-ge : IsWithin t → active_of t ≤ running_target m t
  unfolding running_target
  running_target-ge w = ground arith

  pub running_target-le : running_target m t ≤ (config_of t).duration.active_duration_ms
  unfolding running_target
  running_target-le = ground arith

  pub advance_running_time-setting : setting_of (advance_running_time m t) ≡ setting_of t
  unfolding advance_running_time update_tempo
  advance_running_time-setting =
      ground (arith, advance_to_active-course (running_target m t) running_turn)

  pub advance_running_time-clock :
      ((advance_running_time m t).engine.last_monotonic_ms ≡ some m)
      × ((advance_running_time m t).engine.paused_started_ms ≡ t.engine.paused_started_ms)
      × ((state_of (advance_running_time m t)).status ≡ (state_of t).status)
      × ((state_of (advance_running_time m t)).paused_elapsed_ms ≡ (state_of t).paused_elapsed_ms)
  unfolding advance_running_time update_tempo
  advance_running_time-clock =
      ground (arith, advance_to_active-course (running_target m t) running_turn)

  pub advance_running_time-active :
      IsWithin t → active_of (advance_running_time m t) ≡ running_target m t
  unfolding advance_running_time update_tempo
  advance_running_time-active w =
      ground
        (arith, advance_to_active-active (running_target m t) running_turn (running_target-ge w))

  pub advance_running_time-phase :
      IsWithin t
      → let (index, remaining) = locate (config_of t).phases 0 (running_target m t) in
        ((state_of (advance_running_time m t)).phase.index ≡ index)
        × ((state_of (advance_running_time m t)).phase.elapsed_ms ≡ remaining)
  unfolding advance_running_time update_tempo
  advance_running_time-phase w =
      ground
        (arith, advance_to_active-phase (running_target m t) running_turn (running_target-ge w))
