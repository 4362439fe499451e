-- ===== src/Session/Frame.antt =====
-- What the steps of src/session.rs leave alone: the view `course` of a turn holds the fields that
-- only commands change, and each step of the clock keeps it.
use curator_rs.Prelude.{
  ℕ, ◌≡◌, refl, Bool, true, false, List, [], ◌∷◌, Option, none, arith, Option-cases, ap, inl, inr,
  String,
}
use curator_rs.Session.Floats.{Floats, Rng}
use curator_rs.Session.Config.{GameConfig, EventDefinition}
use curator_rs.Session.State.{
  SessionStatus, PhaseState, Turn, state_of, config_of, TempoState, set_state, push, end_event,
}
use curator_rs.Session.Events.{
  find_event, draw, is_selected, begin_event, consider, schedule_from, schedule_phase_events,
}
use curator_rs.Session.Clock.{locate, enter_phase, update_phase, finish_event}

pub record Course (F R : Type 0) : Type 0 where
  pub config : GameConfig F
  pub status : SessionStatus
  pub paused_elapsed_ms : ℕ
  pub tempo : TempoState F
  pub session_id : String
  pub last_monotonic_ms : Option ℕ
  pub paused_started_ms : Option ℕ

-- What scheduling leaves alone beside the course.
pub record Place (F R : Type 0) : Type 0 where
  pub course : Course F R
  pub active_elapsed_ms : ℕ
  pub phase : PhaseState

module _ {F R : Type 0} where
  abbrev pub course_of : Turn F R → Course F R
  course_of t = record {
    config = t.engine.config;
    status = t.engine.state.status;
    paused_elapsed_ms = t.engine.state.paused_elapsed_ms;
    tempo = t.engine.state.tempo;
    session_id = t.engine.state.session_id;
    last_monotonic_ms = t.engine.last_monotonic_ms;
    paused_started_ms = t.engine.paused_started_ms;
  }

  abbrev pub place_of : Turn F R → Place F R
  place_of t = record {
    course = course_of t;
    active_elapsed_ms = t.engine.state.active_elapsed_ms;
    phase = t.engine.state.phase;
  }

module _ {F R : Type 0} ⦃fl : Floats F⦄ ⦃rg : Rng R⦄ where
  begin_event-place : (d : EventDefinition) (t : Turn F R) → place_of (begin_event d t) ≡ place_of t
  unfolding begin_event
  begin_event-place d t = ground arith

  is_selected-place :
      (d : EventDefinition) (t : Turn F R)
      → place_of (record t { engine = (is_selected d t.engine).1 }) ≡ place_of t
  unfolding is_selected draw
  is_selected-place d t = ground arith

  consider-place :
      (phase_id id : String) (t : Turn F R) → place_of (consider phase_id id t).1 ≡ place_of t
  unfolding consider
  consider-place phase_id id t = elim (Option-cases (find_event id (config_of t).events)) [
    | inl e ↦ rw (e, consider)
    | inr (d, e) ↦
        rw (e, consider)
          (ground (
            arith,
            is_selected-place d t,
            begin_event-place d (record t { engine = (is_selected d t.engine).1 }),
          ))
  ]

  schedule_from-place :
      (phase_id : String) (ids : List String) (t : Turn F R)
      → place_of (schedule_from phase_id ids t) ≡ place_of t
  unfolding schedule_from
  schedule_from-place phase_id [] t = refl
  schedule_from-place phase_id (id ∷ ids) t = ground (
    arith,
    consider-place phase_id id t,
    schedule_from-place phase_id ids (consider phase_id id t).1,
  )

  pub schedule_phase_events-place : (t : Turn F R) → place_of (schedule_phase_events t) ≡ place_of t
  unfolding schedule_phase_events
  schedule_phase_events-place t = schedule_from-place _ _ t

  pub schedule_phase_events-course :
      (t : Turn F R) → course_of (schedule_phase_events t) ≡ course_of t
  schedule_phase_events-course t = ap Place.course (schedule_phase_events-place t)

  -- `update_phase` changes no time.
  pub update_phase-course : (t : Turn F R) → course_of (update_phase t) ≡ course_of t
  unfolding update_phase
  update_phase-course t =
      let (index, remaining) = locate (config_of t).phases 0 (state_of t).active_elapsed_ms in
      ground (arith, schedule_phase_events-course (enter_phase index remaining t))

  pub update_phase-active :
      (t : Turn F R)
      → (state_of (update_phase t)).active_elapsed_ms ≡ (state_of t).active_elapsed_ms
  unfolding update_phase
  update_phase-active t =
      let (index, remaining) = locate (config_of t).phases 0 (state_of t).active_elapsed_ms in
      ground (arith, schedule_phase_events-place (enter_phase index remaining t))

  -- The phase of a turn is the one that its active time falls into.
  pub update_phase-phase :
      (t : Turn F R)
      → let (index, remaining) = locate (config_of t).phases 0 (state_of t).active_elapsed_ms in
        ((state_of (update_phase t)).phase.index ≡ index)
        × ((state_of (update_phase t)).phase.elapsed_ms ≡ remaining)
  unfolding update_phase
  update_phase-phase t =
      let (index, remaining) = locate (config_of t).phases 0 (state_of t).active_elapsed_ms in
      ground (arith, schedule_phase_events-place (enter_phase index remaining t))

  pub finish_event-place : (b : Bool) (t : Turn F R) → place_of (finish_event b t) ≡ place_of t
  unfolding finish_event
  finish_event-place false t = refl
  finish_event-place true t = elim (Option-cases (state_of t).current_event) [
    | inl e ↦ rw (e, finish_event)
    | inr (r, e) ↦
        rw (e, finish_event)
          (ground (
            arith,
            schedule_phase_events-place (
                push (end_event r.id) (set_state (record (state_of t) { current_event = none }) t)),
          ))
  ]
