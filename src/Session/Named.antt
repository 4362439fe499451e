-- ===== src/Session/Named.antt =====
-- src/session.rs: the id of a session's phase is the one that the configuration gives its index.
use curator_rs.Prelude.{ℕ, zero, suc, ◌-◌, ◌≡◌, arith, ltb, Bool, Bool-cases, inl, inr}
use curator_rs.Session.Floats.{Floats, Rng}
use curator_rs.Session.Tempo.{phase_at}
use curator_rs.Session.State.{Turn, state_of, config_of}
use curator_rs.Session.Clock.{
  locate, enter_phase, update_phase, finish_event, next_milestone, advance_once, advance_loop,
  advance_to_active, advance_running_time, update_tempo, running_target,
}
use curator_rs.Session.Frame.{place_of, finish_event-place, schedule_phase_events-place}
use curator_rs.Session.Advance.{active_of, moved}
use curator_rs.Session.Running.{running_turn}

module _ {F R : Type 0} ⦃fl : Floats F⦄ where
  abbrev pub IsNamed : Turn F R → Type 0
  IsNamed t = (state_of t).phase.id ≡ (phase_at (config_of t).phases (state_of t).phase.index).id

  -- A step that keeps the configuration and the phase keeps the name.
  pub IsNamed-of_place : (t u : Turn F R) → place_of u ≡ place_of t → IsNamed t → IsNamed u
  IsNamed-of_place t u p h = ground arith

module _ {F R : Type 0} ⦃fl : Floats F⦄ ⦃rg : Rng R⦄ where
  update_phase-IsNamed : (t : Turn F R) → IsNamed t → IsNamed (update_phase t)
  unfolding update_phase
  update_phase-IsNamed t h =
      let (index, remaining) = locate (config_of t).phases 0 (state_of t).active_elapsed_ms in
      ground (arith, schedule_phase_events-place (enter_phase index remaining t))

  finish_event-IsNamed : (b : Bool) (t : Turn F R) → IsNamed t → IsNamed (finish_event b t)
  finish_event-IsNamed b t h = IsNamed-of_place t (finish_event b t) (finish_event-place b t) h

  advance_once-IsNamed : (target : ℕ) (t : Turn F R) → IsNamed t → IsNamed (advance_once target t)
  unfolding advance_once
  advance_once-IsNamed target t h =
      finish_event-IsNamed _ _ (update_phase-IsNamed (moved (next_milestone target t) t) h)

  advance_loop-IsNamed :
      (fuel target : ℕ) (t : Turn F R) → IsNamed t → IsNamed (advance_loop fuel target t)
  unfolding advance_loop
  advance_loop-IsNamed zero target t h = h
  advance_loop-IsNamed (suc fuel) target t h = elim (Bool-cases (ltb (active_of t) target)) [
    | inl more ↦
        rw more (
          advance_loop-IsNamed fuel target (advance_once target t)
            (advance_once-IsNamed target t h))
    | inr done ↦ rw done h
  ]

  advance_to_active-IsNamed :
      (target : ℕ) (t : Turn F R) → IsNamed t → IsNamed (advance_to_active target t)
  unfolding advance_to_active
  advance_to_active-IsNamed target t h =
      update_phase-IsNamed _ (advance_loop-IsNamed (target - active_of t) target t h)

  pub advance_running_time-IsNamed :
      (m : ℕ) (t : Turn F R) → IsNamed t → IsNamed (advance_running_time m t)
  unfolding advance_running_time update_tempo
  advance_running_time-IsNamed m t h =
      ground (arith, advance_to_active-IsNamed (running_target m t) (running_turn m t) h)
