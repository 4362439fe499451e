-- ===== src/Session/History.antt =====
-- src/session.rs: what scheduling keeps of the event history, every command keeps.
use curator_rs.Prelude.{
  ℕ, zero, suc, ◌-◌, Bool, true, false, Bool-cases, inl, inr, List, [], ◌∷◌, none, Option-cases,
  arith, ltb,
}
use curator_rs.Session.Floats.{Floats, Rng}
use curator_rs.Session.Config.{GameConfig}
use curator_rs.Session.State.{
  EventRecord, SessionEngine, SessionCommand, start, tick, pause, end, interrupt, end_event, Turn,
  state_of, config_of, set_state, push,
}
use curator_rs.Session.Events.{schedule_phase_events}
use curator_rs.Session.Clock.{
  locate, enter_phase, update_phase, finish_event, advance_once, advance_loop, advance_to_active,
  advance_running_time, update_tempo, running_target, next_milestone,
}
use curator_rs.Session.Dispatch.{
  end_as, tick_at, settle_pause, settle_terminal_time, started, start_at, pause_at, resume_at, act,
  dispatch, run,
}
use curator_rs.Session.Advance.{active_of, moved}
use curator_rs.Session.Running.{running_turn}

-- `P` speaks of the configuration and the history, and scheduling keeps it.
module _ {F R : Type 0} ⦃fl : Floats F⦄ ⦃rg : Rng R⦄ (P : GameConfig F → List EventRecord → Type 0)
    (keep : (t : Turn F R)
      → P t.engine.config t.engine.state.event_history
      → P
          (schedule_phase_events t).engine.config
          (schedule_phase_events t).engine.state.event_history) where
  abbrev Kept : Turn F R → Type 0
  Kept t = P t.engine.config t.engine.state.event_history

  update_phase-Kept : (t : Turn F R) → Kept t → Kept (update_phase t)
  unfolding update_phase
  update_phase-Kept t h =
      let (index, remaining) = locate (config_of t).phases 0 (state_of t).active_elapsed_ms in
      ground (arith, keep (enter_phase index remaining t))

  finish_event-Kept : (b : Bool) (t : Turn F R) → Kept t → Kept (finish_event b t)
  unfolding finish_event
  finish_event-Kept false t h = h
  finish_event-Kept true t h = elim (Option-cases (state_of t).current_event) [
    | inl e ↦ rw (e, finish_event) h
    | inr (r, e) ↦
        rw (e, finish_event)
          (ground (
            arith,
            keep (
                push (end_event r.id) (set_state (record (state_of t) { current_event = none }) t)),
          ))
  ]

  advance_loop-Kept : (fuel target : ℕ) (t : Turn F R) → Kept t → Kept (advance_loop fuel target t)
  unfolding advance_loop advance_once
  advance_loop-Kept zero target t h = h
  advance_loop-Kept (suc fuel) target t h = elim (Bool-cases (ltb (active_of t) target)) [
    | inl more ↦ rw more (
        advance_loop-Kept fuel target (advance_once target t)
          (finish_event-Kept _ _ (update_phase-Kept (moved (next_milestone target t) t) h)))
    | inr done ↦ rw done h
  ]

  advance_running_time-Kept : (m : ℕ) (t : Turn F R) → Kept t → Kept (advance_running_time m t)
  unfolding advance_running_time advance_to_active update_tempo
  advance_running_time-Kept m t h =
      let target = running_target m t in
      ground (
        arith,
        update_phase-Kept (advance_loop (target - active_of t) target (running_turn m t))
            (advance_loop-Kept (target - active_of t) target (running_turn m t) h),
      )

  act-Kept : (c : SessionCommand) (t : Turn F R) → Kept t → Kept (act c t)
  unfolding act start_at pause_at resume_at tick_at end_as settle_terminal_time settle_pause
  act-Kept (start m) t h = ground (arith, keep (started m t))
  act-Kept (tick m) t h = ground (arith, advance_running_time-Kept m t h)
  act-Kept (pause m) t h = ground (arith, advance_running_time-Kept m t h)
  act-Kept (end finished m) t h = ground (arith, advance_running_time-Kept m t h)
  act-Kept (interrupt m) t h = ground (arith, advance_running_time-Kept m t h)
  act-Kept _ t h = ground arith

  pub run-Kept :
      (cs : List SessionCommand) (e : SessionEngine F R)
      → P e.config e.state.event_history
      → P (run cs e).config (run cs e).state.event_history
  unfolding run dispatch
  run-Kept [] e h = h
  run-Kept (c ∷ cs) e h = run-Kept cs (dispatch c e).engine (act-Kept c _ h)
