-- ===== src/Session/Tests.antt =====
-- Runs of the session engine on the sample configuration, and the theorems at these runs.
use curator_rs.Prelude.{
  ℕ, ◌+◌, ◌≤◌, ◌<◌, ◌≡◌, refl, ◌↔◌, ok, List, [], ◌∷◌, none, some, arith, map, true, false,
  saturating_add, length, ◌++◌,
}
use curator_rs.Text.{is_whitespace, is_blank}
use curator_rs.Session.Samples.{cue, thousandths, congruential, sample}
use curator_rs.Session.State.{
  SessionEngine, SessionCommand, start, tick, pause, resume, running, paused, completed, Turn,
  end_session, stop_music, persist_checkpoint,
}
use curator_rs.Session.Tempo.{target_bpm, target_tempo_for}
use curator_rs.Session.Events.{
  find_event, occurrences, last_record, cooldown_met, is_allowed, draw, is_selected, begin_event,
  consider, schedule_from, schedule_phase_events,
}
use curator_rs.Session.Clock.{
  locate, boundary_from, smoothed, update_phase, finish_event, next_milestone, advance_once,
  advance_loop, advance_to_active, update_tempo, running_target, advance_running_time,
}
use curator_rs.Session.Dispatch.{
  clamp_offset, end_as, tick_at, settle_pause, settle_terminal_time, start_at, pause_at, resume_at,
  act, dispatch, run,
}
use curator_rs.Session.Validate.{
  is_bad_event, check_events, check_known, check_references, is_multiplier, is_bad_tempo,
  is_bad_phase, check_phases, validate, hex_digits, initial_state, new,
}
use curator_rs.Session.Advance.{active_of, advance_to_active-active}
use curator_rs.Session.Invariant.{Inv}
use curator_rs.Session.Located.{run-new-Inv}
use curator_rs.Session.Catchup.{IsSettled, advance_to_active_via}
use curator_rs.Session.Occurrences.{run-new-IsCapped}
use curator_rs.Session.Status.{
  is_terminal, dispatch_terminal, pause-resume-tick, pause_past_deadline,
}
use curator_rs.Session.Service.{Runner, SessionService, run_name, runner_round}
use curator_rs.Session.Service.Runners.{HasOneRunner, runner_round_stale}
use curator_rs.Session.Validate.Accepts.{IsValid, validate_iff}

engine : Unit {0}
unfolding target_bpm target_tempo_for find_event occurrences last_record cooldown_met is_allowed
    draw is_selected begin_event consider schedule_from schedule_phase_events locate boundary_from
    smoothed update_phase finish_event next_milestone advance_once advance_loop advance_to_active
    update_tempo running_target advance_running_time clamp_offset end_as tick_at settle_pause
    settle_terminal_time start_at pause_at resume_at act dispatch run is_whitespace is_blank
    is_bad_event check_events check_known check_references is_multiplier is_bad_tempo is_bad_phase
    check_phases validate hex_digits initial_state new
engine = tt

abbrev fresh : SessionEngine ℕ ℕ
fresh = initial_state 7 sample

sample_accepted : validate sample ≡ ok tt
unfolding engine
sample_accepted = refl

sample_starts : new 0 sample ≡ ok fresh
unfolding engine
sample_starts = refl

-- The event starts at once, again after its first end, and not a third time.
events_seen :
    map (λ r. r.started_at_active_ms) (run (start 100 ∷ tick 4100 ∷ []) fresh).state.event_history
    ≡ 0 ∷ 1000 ∷ []
unfolding engine
events_seen = refl

-- A tick over the whole session moves through the phases and ends it.
one_tick :
    ((run (start 100 ∷ tick 20000 ∷ []) fresh).state.status ≡ completed)
    × ((run (start 100 ∷ tick 20000 ∷ []) fresh).state.phase.id ≡ "peak")
unfolding engine
one_tick = (refl, refl)

abbrev begun : SessionEngine ℕ ℕ
begun = run (start 100 ∷ []) fresh

abbrev begun_turn : Turn ℕ ℕ
begun_turn = record { engine = begun; effects = [] }

abbrev driven : List SessionCommand
driven = start 100 ∷ tick 4100 ∷ pause 4600 ∷ resume 9000 ∷ []

begun-Inv : Inv begun
begun-Inv = (run-new-Inv 0 sample fresh (start 100 ∷ []) (omega arith) sample_starts).0

begun_running : begun.state.status ≡ running
unfolding engine
begun_running = refl

begun_reading : begun.last_monotonic_ms ≡ some 100
unfolding engine
begun_reading = refl

begun_duration : begun.config.duration.active_duration_ms ≡ 10000
unfolding engine
begun_duration = refl

begun_active : begun.state.active_elapsed_ms ≡ 0
unfolding engine
begun_active = refl

begun-IsSettled : IsSettled begun_turn
begun-IsSettled = (begun-Inv.0.located, begun-Inv.0.elapsed)

run-new-Inv_example :
    Inv (run driven fresh)
    × ((run driven fresh).state.phase.index < length (run driven fresh).config.phases)
run-new-Inv_example = run-new-Inv 0 sample fresh driven (omega arith) sample_starts

advance_to_active_via_example :
    advance_to_active 8000 (advance_to_active 3000 begun_turn) ≡ advance_to_active 8000 begun_turn
advance_to_active_via_example =
    advance_to_active_via 3000 8000 begun_turn begun-IsSettled (omega (arith, begun_active))
      (omega arith) (omega arith)

advance_to_active-active_example : active_of (advance_to_active 8000 begun_turn) ≡ 8000
advance_to_active-active_example =
    advance_to_active-active 8000 begun_turn (omega (arith, begun_active))

known_event : find_event "cue" (run driven fresh).config.events ≡ some cue
unfolding engine
known_event = refl

run-new-IsCapped_example :
    occurrences "cue" (run driven fresh).state.event_history ≤ cue.maximum_occurrences
run-new-IsCapped_example =
    run-new-IsCapped 0 sample fresh driven "cue" cue (omega arith) sample_starts known_event

pause-resume-tick_example :
    ((run (pause 1100 ∷ resume 5000 ∷ tick 5500 ∷ []) begun).state.active_elapsed_ms
      ≡ begun.state.active_elapsed_ms + 1000 + 500)
    × ((run (pause 1100 ∷ resume 5000 ∷ tick 5500 ∷ []) begun).state.paused_elapsed_ms
        ≡ saturating_add begun.state.paused_elapsed_ms 3900)
    × ((run (pause 1100 ∷ resume 5000 ∷ tick 5500 ∷ []) begun).state.status ≡ running)
pause-resume-tick_example =
    pause-resume-tick 100 1100 5000 5500 begun begun-Inv begun_running begun_reading
      (omega (arith, begun_active, begun_duration))

validate_iff_example : (validate sample ≡ ok tt) ↔ IsValid sample
validate_iff_example = validate_iff sample

abbrev over : SessionEngine ℕ ℕ
over = run (start 100 ∷ tick 20000 ∷ []) fresh

over_terminal : is_terminal over.state.status ≡ true
unfolding engine
over_terminal = refl

dispatch_terminal_example :
    let s = (dispatch (resume 30000) over).engine.state in
    (s.status ≡ over.state.status)
    × (s.active_elapsed_ms ≡ over.state.active_elapsed_ms)
    × (s.paused_elapsed_ms ≡ over.state.paused_elapsed_ms)
    × (s.phase ≡ over.state.phase)
    × (s.current_event ≡ over.state.current_event)
    × (s.event_history ≡ over.state.event_history)
dispatch_terminal_example = dispatch_terminal (resume 30000) over over_terminal

pause_past_deadline_example :
    let t' = dispatch (pause 20000) begun in
    (t'.engine.state.status ≡ paused)
    × (t'.effects
        ≡ (advance_running_time 20000 begun_turn).effects
          ++ stop_music ∷ persist_checkpoint ∷ end_session completed ∷ persist_checkpoint ∷ [])
pause_past_deadline_example =
    pause_past_deadline 20000 100 begun begun-Inv.0 begun_running begun_reading
      (omega (arith, begun_active, begun_duration))

abbrev idle : SessionService ℕ ℕ
idle = record { engine = none; runner = none; retired = []; updates = []; sequence = 1 }

idle-HasOneRunner : HasOneRunner idle
idle-HasOneRunner = record { current = λ r e. absurd (cc); others = tt }

abbrev second : SessionEngine ℕ ℕ
second = record begun { state = record begun.state { session_id = run_name 7 2 } }

abbrev busy : SessionService ℕ ℕ
busy = record idle { engine = some second }

abbrev first_runner : Runner
first_runner = record { session_id = run_name 7 1; is_cancelled = false }

runner_round_stale_example : runner_round false first_runner 500 busy ≡ (false, busy)
runner_round_stale_example =
    runner_round_stale 7 7 1 2 500 false first_runner second busy refl refl refl (omega arith)
      (omega arith) (omega arith)
