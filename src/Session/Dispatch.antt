-- ===== src/Session/Dispatch.antt =====
-- src/session.rs, the commands of the engine: `dispatch`, `tick`, `settle_terminal_time` and
-- `end`. `dispatch` returns the new engine beside the update.
use curator_rs.Prelude.{
  ℕ, ◌-◌, Bool, true, false, List, [], ◌∷◌, none, some, ltb, leb, if◌then◌else◌, saturating_add,
  wrapping_add32,
}
use curator_rs.Session.Floats.{Floats, Rng}
use curator_rs.Session.State.{
  SessionStatus, ready, running, paused, completed, cancelled, interrupted, ℤ, pos, negsuc,
  SessionState, SessionEngine, SessionCommand, start, tick, pause, resume, user_action,
  report_playback_failure, change_tempo_offset, end, interrupt, SessionEffect, Turn, start_music,
  stop_music, start_phase, show_instruction, playback_failed, persist_checkpoint, end_session, push,
  set_state, state_of, config_of,
}
use curator_rs.Session.Events.{schedule_phase_events}
use curator_rs.Session.Clock.{running_target, advance_running_time}

-- `matches!(status, Running | Paused)`
abbrev pub is_live : SessionStatus → Bool
is_live running = true
is_live paused = true
is_live _ = false

-- `status == Running`
abbrev pub is_running : SessionStatus → Bool
is_running running = true
is_running _ = false

abbrev pub is_paused : SessionStatus → Bool
is_paused paused = true
is_paused _ = false

abbrev pub is_ready : SessionStatus → Bool
is_ready ready = true
is_ready _ = false

-- `offset_ms.clamp(-30_000, 30_000)`
unfoldable pub clamp_offset : ℤ → ℤ
clamp_offset (pos n) = if ltb 30000 n then pos 30000 else pos n
clamp_offset (negsuc n) = if ltb 29999 n then negsuc 29999 else negsuc n

abbrev recover : {F : Type 0} → SessionState F → SessionState F
recover s = record s {
  statistics = record s.statistics {
    recovery_count = wrapping_add32 s.statistics.recovery_count 1;
  };
}

abbrev offset_by : {F : Type 0} → ℤ → SessionState F → SessionState F
offset_by offset s = record s {
  tempo = record s.tempo { offset_ms = clamp_offset offset };
  statistics = record s.statistics {
    timing_corrections = wrapping_add32 s.statistics.timing_corrections 1;
  };
}

module _ {F R : Type 0} ⦃fl : Floats F⦄ ⦃rg : Rng R⦄ where
  -- `end`, under a name that is no constructor's.
  unfoldable pub end_as : SessionStatus → Turn F R → Turn F R
  end_as status t =
      if is_live (state_of t).status
      then (let t' = set_state (record (state_of t) { status = status }) t in
          push (end_session status) (
            push persist_checkpoint (
              push stop_music
                (record t' { engine = record t'.engine { last_monotonic_ms = none } }))))
      else t

  unfoldable pub tick_at : ℕ → Turn F R → Turn F R
  tick_at monotonic_ms t =
      if is_running (state_of t).status
      then (let t' = advance_running_time monotonic_ms t in
          if leb (config_of t).duration.active_duration_ms (running_target monotonic_ms t)
          then end_as completed t'
          else t')
      else t

  -- `if let Some(started) = paused_started_ms.take() { paused_elapsed_ms = … }`
  unfoldable pub settle_pause : ℕ → Turn F R → Turn F R
  settle_pause monotonic_ms t = elim t.engine.paused_started_ms [
    | none ↦ t
    | some started ↦
        (let s = state_of t in
          let s' : SessionState F = record s {
            paused_elapsed_ms = saturating_add s.paused_elapsed_ms (monotonic_ms - started);
          } in
          record t { engine = record t.engine { state = s'; paused_started_ms = none } })
  ]

  abbrev pub settle_for : SessionStatus → ℕ → Turn F R → Turn F R
  settle_for running monotonic_ms t = advance_running_time monotonic_ms t
  settle_for paused monotonic_ms t = settle_pause monotonic_ms t
  settle_for _ monotonic_ms t = t

  unfoldable pub settle_terminal_time : ℕ → Turn F R → Turn F R
  settle_terminal_time monotonic_ms t = settle_for (state_of t).status monotonic_ms t

  -- What the arm of `Start` does before it schedules.
  abbrev pub started : ℕ → Turn F R → Turn F R
  started monotonic_ms t =
      let s' : SessionState F = record (state_of t) { status = running } in
      push (start_phase s'.phase.id) (
        push start_music (record t {
          engine = record t.engine { state = s'; last_monotonic_ms = some monotonic_ms };
        }))

  -- One function for each arm of the `match` in `dispatch`; a guard that fails leaves the engine.
  unfoldable pub start_at : ℕ → Turn F R → Turn F R
  start_at monotonic_ms t =
      if is_ready (state_of t).status then schedule_phase_events (started monotonic_ms t) else t

  unfoldable pub pause_at : ℕ → Turn F R → Turn F R
  pause_at monotonic_ms t =
      if is_running (state_of t).status
      then (let t' = tick_at monotonic_ms t in
          let s' : SessionState F = record (state_of t') { status = paused } in
          push persist_checkpoint (record t' {
            engine = record t'.engine {
              state = s';
              paused_started_ms = some monotonic_ms;
              last_monotonic_ms = none;
            };
          }))
      else t

  unfoldable pub resume_at : ℕ → Turn F R → Turn F R
  resume_at monotonic_ms t =
      if is_paused (state_of t).status
      then (let t' = settle_pause monotonic_ms t in
          let s' : SessionState F = record (state_of t') { status = running } in
          record t' {
            engine = record t'.engine { state = s'; last_monotonic_ms = some monotonic_ms };
          })
      else t

  unfoldable pub act : SessionCommand → Turn F R → Turn F R
  act (start m) t = start_at m t
  act (tick m) t = tick_at m t
  act (pause m) t = pause_at m t
  act (resume m) t = resume_at m t
  act (user_action name) t =
      push (show_instruction name) (set_state (record (state_of t) { instruction = some name }) t)
  act SessionCommand.skip_media t = push SessionEffect.skip_media t
  act (report_playback_failure detail) t =
      push SessionEffect.skip_media
        (push (playback_failed detail) (set_state (recover (state_of t)) t))
  act (change_tempo_offset offset) t =
      push persist_checkpoint (set_state (offset_by offset (state_of t)) t)
  act (end finished m) t =
      end_as (if finished then completed else cancelled) (settle_terminal_time m t)
  act (interrupt m) t = end_as interrupted (settle_terminal_time m t)

  unfoldable pub dispatch : SessionCommand → SessionEngine F R → Turn F R
  dispatch command e = act command (record { engine = e; effects = [] })

  -- Commands one after another, the effects forgotten.
  unfoldable pub run : List SessionCommand → SessionEngine F R → SessionEngine F R
  run [] e = e
  run (c ∷ cs) e = run cs (dispatch c e).engine
