-- ===== src/Session/Invariant.antt =====
-- src/session.rs: what holds of a session between two commands.
use curator_rs.Prelude.{
  ℕ, ◌≤◌, ◌<◌, length, ◌≡◌, refl, Bool, true, false, List, [], ◌∷◌, Option, none, some, arith,
  u64_max,
}
use curator_rs.Session.Floats.{Floats, Rng}
use curator_rs.Session.Tempo.{phase_at}
use curator_rs.Session.State.{
  SessionStatus, completed, cancelled, interrupted, SessionEngine, SessionCommand, start, tick,
  pause, resume, user_action, report_playback_failure, change_tempo_offset, end, interrupt, Turn,
}
use curator_rs.Session.Events.{schedule_phase_events}
use curator_rs.Session.Clock.{locate, advance_running_time}
use curator_rs.Session.Dispatch.{
  is_running, is_paused, is_live, end_as, tick_at, settle_pause, settle_terminal_time, started,
  start_at, pause_at, resume_at, act, dispatch, run,
}
use curator_rs.Session.Frame.{schedule_phase_events-place}
use curator_rs.Session.Running.{
  IsWithin, running_target-le, advance_running_time-setting, advance_running_time-clock,
  advance_running_time-active, advance_running_time-phase,
}
use curator_rs.Session.Named.{advance_running_time-IsNamed}

abbrev pub is_some : {A : Type 0} → Option A → Bool
is_some none = false
is_some (some a) = true

module _ {F R : Type 0} ⦃fl : Floats F⦄ where
  -- The part that no command may break: times within bounds, and the phase that they stand for.
  pub record IsPlaced (e : SessionEngine F R) : Type 0 where
    pub duration_u64 : e.config.duration.active_duration_ms ≤ u64_max
    pub active_le : e.state.active_elapsed_ms ≤ e.config.duration.active_duration_ms
    pub has_phase : 0 < length e.config.phases
    pub located : e.state.phase.index ≡ (locate e.config.phases 0 e.state.active_elapsed_ms).0
    pub elapsed : e.state.phase.elapsed_ms ≡ (locate e.config.phases 0 e.state.active_elapsed_ms).1
    pub named : e.state.phase.id ≡ (phase_at e.config.phases e.state.phase.index).id

  -- The part that ties the clock readings to the status.
  pub record IsClocked (e : SessionEngine F R) : Type 0 where
    pub running_clock : is_some e.last_monotonic_ms ≡ is_running e.state.status
    pub paused_clock : is_some e.paused_started_ms ≡ is_paused e.state.status

  abbrev pub Inv : SessionEngine F R → Type 0
  Inv e = IsPlaced e × IsClocked e

module _ {F R : Type 0} ⦃fl : Floats F⦄ ⦃rg : Rng R⦄ where
  within : (t : Turn F R) → IsPlaced t.engine → IsWithin t
  within t p = record { duration_u64 = p.duration_u64; active_le = p.active_le }

  pub advance_running_time-IsPlaced :
      (m : ℕ) (t : Turn F R) → IsPlaced t.engine → IsPlaced (advance_running_time m t).engine
  advance_running_time-IsPlaced m t p =
      let c = advance_running_time-setting m t in
      let a = advance_running_time-active m t (within t p) in
      let i = advance_running_time-phase m t (within t p) in
      let n = advance_running_time-IsNamed m t p.named in
      let b = running_target-le m t in
      record {
        duration_u64 = ground arith;
        active_le = ground arith;
        has_phase = ground arith;
        located = ground arith;
        elapsed = ground arith;
        named = n;
      }

  end_as-IsPlaced :
      (s : SessionStatus) (t : Turn F R) → IsPlaced t.engine → IsPlaced (end_as s t).engine
  unfolding end_as
  end_as-IsPlaced s t p = ground arith

  tick_at-IsPlaced : (m : ℕ) (t : Turn F R) → IsPlaced t.engine → IsPlaced (tick_at m t).engine
  unfolding tick_at
  tick_at-IsPlaced m t p = ground (
    arith,
    advance_running_time-IsPlaced m t p,
    end_as-IsPlaced completed (advance_running_time m t),
  )

  settle_pause-IsPlaced :
      (m : ℕ) (t : Turn F R) → IsPlaced t.engine → IsPlaced (settle_pause m t).engine
  unfolding settle_pause
  settle_pause-IsPlaced m t p = ground arith

  settle_terminal_time-IsPlaced :
      (m : ℕ) (t : Turn F R) → IsPlaced t.engine → IsPlaced (settle_terminal_time m t).engine
  unfolding settle_terminal_time
  settle_terminal_time-IsPlaced m t p =
      ground (arith, advance_running_time-IsPlaced m t p, settle_pause-IsPlaced m t p)

  schedule-IsPlaced : (t : Turn F R) → IsPlaced t.engine → IsPlaced (schedule_phase_events t).engine
  schedule-IsPlaced t p = ground (arith, schedule_phase_events-place t)

  act-IsPlaced : (c : SessionCommand) (t : Turn F R) → IsPlaced t.engine → IsPlaced (act c t).engine
  unfolding act start_at pause_at resume_at
  act-IsPlaced (start m) t p = ground (arith, schedule-IsPlaced (started m t))
  act-IsPlaced (tick m) t p = tick_at-IsPlaced m t p
  act-IsPlaced (pause m) t p = ground (arith, tick_at-IsPlaced m t p)
  act-IsPlaced (resume m) t p = ground (arith, settle_pause-IsPlaced m t p)
  act-IsPlaced (user_action name) t p = ground arith
  act-IsPlaced SessionCommand.skip_media t p = ground arith
  act-IsPlaced (report_playback_failure detail) t p = ground arith
  act-IsPlaced (change_tempo_offset offset) t p = ground arith
  act-IsPlaced (end finished m) t p = end_as-IsPlaced _ _ (settle_terminal_time-IsPlaced m t p)
  act-IsPlaced (interrupt m) t p = end_as-IsPlaced _ _ (settle_terminal_time-IsPlaced m t p)

  -- Whatever the status was, `end_as` leaves the clocks of a live session in order.
  end_as-IsClocked :
      (s : SessionStatus) (m : ℕ) (t : Turn F R)
      → is_live s ≡ false
      → IsClocked t.engine
      → IsClocked (end_as s (settle_terminal_time m t)).engine
  unfolding end_as settle_terminal_time settle_pause
  end_as-IsClocked s m t k c = ground (arith, advance_running_time-clock m t)

  act-IsClocked :
      (c : SessionCommand) (t : Turn F R) → IsClocked t.engine → IsClocked (act c t).engine
  unfolding act start_at pause_at resume_at tick_at end_as settle_pause
  act-IsClocked (start m) t p = ground (arith, schedule_phase_events-place (started m t))
  act-IsClocked (tick m) t p = ground (arith, advance_running_time-clock m t)
  act-IsClocked (pause m) t p = ground (arith, advance_running_time-clock m t)
  act-IsClocked (resume m) t p = ground arith
  act-IsClocked (user_action name) t p = ground arith
  act-IsClocked SessionCommand.skip_media t p = ground arith
  act-IsClocked (report_playback_failure detail) t p = ground arith
  act-IsClocked (change_tempo_offset offset) t p = ground arith
  act-IsClocked (end true m) t p = end_as-IsClocked completed m t refl p
  act-IsClocked (end false m) t p = end_as-IsClocked cancelled m t refl p
  act-IsClocked (interrupt m) t p = end_as-IsClocked interrupted m t refl p

  -- Every command keeps the invariant.
  pub dispatch-Inv :
      (c : SessionCommand) (e : SessionEngine F R) → Inv e → Inv (dispatch c e).engine
  unfolding dispatch
  dispatch-Inv c e (p, k) = (act-IsPlaced c _ p, act-IsClocked c _ k)

  pub run-Inv : (cs : List SessionCommand) (e : SessionEngine F R) → Inv e → Inv (run cs e)
  unfolding run
  run-Inv [] e v = v
  run-Inv (c ∷ cs) e v = run-Inv cs (dispatch c e).engine (dispatch-Inv c e v)
