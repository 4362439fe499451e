-- ===== src/Session/Status.antt =====
-- src/session.rs: the status of a session under its commands, and what its clock counts.
use mathlib.Core.List.{append_assoc}
use curator_rs.Prelude.{
  ℕ, ◌+◌, ◌-◌, ◌≤◌, ◌<◌, ◌≡◌, Bool, true, false, List, [], ◌∷◌, ◌++◌, none, some, arith, min,
  saturating_add, leb, if◌then◌else◌,
}
use curator_rs.Session.Floats.{Floats, Rng}
use curator_rs.Session.State.{
  SessionStatus, running, paused, completed, cancelled, interrupted, SessionEngine, SessionCommand,
  start, tick, pause, resume, end, interrupt, SessionEffect, stop_music, persist_checkpoint,
  end_session, Turn,
}
use curator_rs.Session.Clock.{advance_running_time, running_target}
use curator_rs.Session.Dispatch.{
  end_as, tick_at, settle_pause, settle_terminal_time, started, start_at, pause_at, resume_at, act,
  dispatch, run,
}
use curator_rs.Session.Frame.{schedule_phase_events-place}
use curator_rs.Session.Running.{
  IsWithin, running_target-ge, advance_running_time-setting, advance_running_time-clock,
  advance_running_time-active,
}
use curator_rs.Session.Invariant.{IsPlaced, Inv, dispatch-Inv}

abbrev pub is_terminal : SessionStatus → Bool
is_terminal completed = true
is_terminal cancelled = true
is_terminal interrupted = true
is_terminal _ = false

append-four :
    {A : Type 0} (xs : List A) (a b c d : A)
    → (((xs ++ a ∷ []) ++ b ∷ []) ++ c ∷ []) ++ d ∷ [] ≡ xs ++ a ∷ b ∷ c ∷ d ∷ []
append-four xs a b c d = simp append_assoc

module _ {F R : Type 0} ⦃fl : Floats F⦄ ⦃rg : Rng R⦄ where
  -- No command changes the status, the times, the phase, the running event or the history of a
  -- session that is completed, cancelled or interrupted.
  pub dispatch_terminal :
      (c : SessionCommand) (e : SessionEngine F R)
      → is_terminal e.state.status ≡ true
      → let s = (dispatch c e).engine.state in
        (s.status ≡ e.state.status)
        × (s.active_elapsed_ms ≡ e.state.active_elapsed_ms)
        × (s.paused_elapsed_ms ≡ e.state.paused_elapsed_ms)
        × (s.phase ≡ e.state.phase)
        × (s.current_event ≡ e.state.current_event)
        × (s.event_history ≡ e.state.event_history)
  unfolding dispatch act start_at tick_at pause_at resume_at settle_terminal_time end_as
  dispatch_terminal (start m) e h = ground arith
  dispatch_terminal _ e h = ground arith

  IsWithin-of :
      (e : SessionEngine F R) (effects : List (SessionEffect F))
      → IsPlaced e
      → IsWithin (record { engine = e; effects = effects })
  IsWithin-of e effects p = record { duration_u64 = p.duration_u64; active_le = p.active_le }

  advance_running_time-active-ge :
      (m : ℕ) (e : SessionEngine F R)
      → IsPlaced e
      → e.state.active_elapsed_ms
        ≤ (advance_running_time m
            (record { engine = e; effects = [] })).engine.state.active_elapsed_ms
  advance_running_time-active-ge m e p =
      let t : Turn F R = record { engine = e; effects = [] } in
      let w = IsWithin-of e [] p in
      omega (arith, advance_running_time-active m t w, running_target-ge m t w)

  -- Active time never falls, whatever the command, in a session whose active time is within the
  -- duration and whose phase is the one that it falls into.
  pub dispatch-active-ge :
      (c : SessionCommand) (e : SessionEngine F R)
      → IsPlaced e
      → e.state.active_elapsed_ms ≤ (dispatch c e).engine.state.active_elapsed_ms
  unfolding dispatch act start_at tick_at pause_at resume_at settle_terminal_time end_as
      settle_pause
  dispatch-active-ge (start m) e p =
      ground (arith, schedule_phase_events-place (started m (record { engine = e; effects = [] })))
  dispatch-active-ge (tick m) e p = ground (arith, advance_running_time-active-ge m e p)
  dispatch-active-ge (pause m) e p = ground (arith, advance_running_time-active-ge m e p)
  dispatch-active-ge (end finished m) e p = ground (arith, advance_running_time-active-ge m e p)
  dispatch-active-ge (interrupt m) e p = ground (arith, advance_running_time-active-ge m e p)
  dispatch-active-ge _ e p = ground arith

  -- A tick of a running session that is placed within its configuration counts the time since the
  -- last reading, up to the duration; the session completes exactly when the duration is reached.
  pub dispatch-tick :
      (m p : ℕ) (e : SessionEngine F R)
      → IsPlaced e
      → e.state.status ≡ running
      → e.last_monotonic_ms ≡ some p
      → let duration = e.config.duration.active_duration_ms in
        let target = min (saturating_add e.state.active_elapsed_ms (m - p)) duration in
        let e' = (dispatch (tick m) e).engine in
        (e'.state.active_elapsed_ms ≡ target)
        × (e'.state.paused_elapsed_ms ≡ e.state.paused_elapsed_ms)
        × (e'.state.status ≡ (if leb duration target then completed else running))
        × (e'.last_monotonic_ms ≡ (if leb duration target then none else some m))
  unfolding dispatch act tick_at end_as running_target
  dispatch-tick m p e q h k =
      let t : Turn F R = record { engine = e; effects = [] } in
      ground (
        arith,
        advance_running_time-active m t (IsWithin-of e [] q),
        advance_running_time-clock m t,
        advance_running_time-setting m t,
      )

  -- A pause that comes before the duration is over settles the active time and stops the clock.
  pub dispatch-pause :
      (m p : ℕ) (e : SessionEngine F R)
      → IsPlaced e
      → e.state.status ≡ running
      → e.last_monotonic_ms ≡ some p
      → e.state.active_elapsed_ms + (m - p) < e.config.duration.active_duration_ms
      → let e' = (dispatch (pause m) e).engine in
        (e'.state.active_elapsed_ms ≡ e.state.active_elapsed_ms + (m - p))
        × (e'.state.paused_elapsed_ms ≡ e.state.paused_elapsed_ms)
        × (e'.state.status ≡ paused)
        × (e'.paused_started_ms ≡ some m)
        × (e'.config ≡ e.config)
  unfolding dispatch act pause_at tick_at end_as running_target
  dispatch-pause m p e q h k l =
      let t : Turn F R = record { engine = e; effects = [] } in
      ground (
        arith,
        advance_running_time-active m t (IsWithin-of e [] q),
        advance_running_time-clock m t,
        advance_running_time-setting m t,
      )

  dispatch-resume :
      (m p : ℕ) (e : SessionEngine F R)
      → e.state.status ≡ paused
      → e.paused_started_ms ≡ some p
      → let e' = (dispatch (resume m) e).engine in
        (e'.state.active_elapsed_ms ≡ e.state.active_elapsed_ms)
        × (e'.state.paused_elapsed_ms ≡ saturating_add e.state.paused_elapsed_ms (m - p))
        × (e'.state.status ≡ running)
        × (e'.last_monotonic_ms ≡ some m)
        × (e'.config ≡ e.config)
  unfolding dispatch act resume_at settle_pause
  dispatch-resume m p e h k = ground arith

  -- Time spent in a pause is paused time and no active time: pause, resume and tick add to the
  -- active time what passed before the pause and after it, and to the paused time what passed
  -- between, as long as the duration is not over.
  pub pause-resume-tick :
      (p m1 m2 m3 : ℕ) (e : SessionEngine F R)
      → Inv e
      → e.state.status ≡ running
      → e.last_monotonic_ms ≡ some p
      → e.state.active_elapsed_ms + (m1 - p) + (m3 - m2) < e.config.duration.active_duration_ms
      → let e' = run (pause m1 ∷ resume m2 ∷ tick m3 ∷ []) e in
        (e'.state.active_elapsed_ms ≡ e.state.active_elapsed_ms + (m1 - p) + (m3 - m2))
        × (e'.state.paused_elapsed_ms ≡ saturating_add e.state.paused_elapsed_ms (m2 - m1))
        × (e'.state.status ≡ running)
  unfolding run
  pause-resume-tick p m1 m2 m3 e v h k l =
      let e1 = (dispatch (pause m1) e).engine in
      let e2 = (dispatch (resume m2) e1).engine in
      let s1 = dispatch-pause m1 p e v.0 h k (omega arith) in
      let s2 = dispatch-resume m2 m1 e1 s1.2 s1.3 in
      let v2 = dispatch-Inv (resume m2) e1 (dispatch-Inv (pause m1) e v) in
      ground (arith, s1, s2, v2.0.duration_u64, dispatch-tick m3 m2 e2 v2.0 s2.2 s2.3)

  -- A pause that arrives when the duration is over completes the session and then pauses it all the
  -- same: the end of the session is announced, and the status is `paused`.
  pub pause_past_deadline :
      (m p : ℕ) (e : SessionEngine F R)
      → IsPlaced e
      → e.state.status ≡ running
      → e.last_monotonic_ms ≡ some p
      → e.config.duration.active_duration_ms ≤ e.state.active_elapsed_ms + (m - p)
      → let t' = dispatch (pause m) e in
        (t'.engine.state.status ≡ paused)
        × (t'.effects
            ≡ (advance_running_time m (record { engine = e; effects = [] })).effects
              ++ stop_music ∷ persist_checkpoint ∷ end_session completed ∷ persist_checkpoint ∷ [])
  unfolding dispatch act pause_at tick_at end_as running_target
  pause_past_deadline m p e q h k l =
      let t : Turn F R = record { engine = e; effects = [] } in
      ground (
        arith,
        advance_running_time-clock m t,
        append-four (advance_running_time m t).effects stop_music persist_checkpoint
            (end_session completed) persist_checkpoint,
      )
