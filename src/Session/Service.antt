-- ===== src/Session/Service.antt =====
-- src/session.rs, `SessionService`: the one engine that the process shares, the runner that ticks it
-- and the subscribers' channel. Each method holds the engine's lock throughout, so it is one step;
-- a lock poisoned by a panic is not modelled. The clock's reading is an argument.
pub mod Runners
use Prim.Native.String
use text.Mathlib.Text.{◌==◌ as str_eq}
use mathlib.Core.Option
use curator_rs.Prelude.{
  ℕ, String, ◌+◌, ◌%◌, Bool, true, false, not, ◌&&◌, List, [], ◌∷◌, ◌++◌, Option, none, some,
  if◌then◌else◌, Result, ok, err, ◌>>=◌, ◌>>◌, reject_if,
}
use curator_rs.Session.Floats.{Floats, Rng}
use curator_rs.Session.Config.{GameConfig}
use curator_rs.Session.State.{
  SessionStatus, ready, running, paused, ℤ, SessionState, SessionEngine, SessionCommand, start,
  SessionEffect, Turn,
}
use curator_rs.Session.Dispatch.{dispatch}
use curator_rs.Session.Validate.{ConfigError, new, hex16}

pub data SessionControl : Type 0 where
  tick pause resume skip_media interrupt : SessionControl
  user_action report_playback_failure : String → SessionControl
  change_tempo_offset : ℤ → SessionControl
  end : Bool → SessionControl

pub record SessionUpdate (F : Type 0) : Type 0 where
  pub state : SessionState F
  pub effects : List (SessionEffect F)

-- A task that `start_runner` spawned, with its cancellation token.
pub record Runner : Type 0 where
  pub session_id : String
  pub is_cancelled : Bool

pub record SessionService (F R : Type 0) : Type 0 where
  pub engine : Option (SessionEngine F R)
  -- the token in `runner`, and the tasks whose token was replaced or taken
  pub runner : Option Runner
  pub retired : List Runner
  pub updates : List (SessionUpdate F)
  pub sequence : ℕ

pub data ServiceError : Type 0 where
  invalid : ConfigError → ServiceError
  already_active no_session replaced : ServiceError

-- `matches!(status, Ready | Running | Paused)`
abbrev pub is_active : SessionStatus → Bool
is_active ready = true
is_active running = true
is_active paused = true
is_active _ = false

abbrev pub has_active : {F R : Type 0} → Option (SessionEngine F R) → Bool
has_active none = false
has_active (some e) = is_active e.state.status

abbrev pub or_invalid : {A : Type 0} → Result ConfigError A → Result ServiceError A
or_invalid (ok a) = ok a
or_invalid (err e) = err (invalid e)

-- `slot.as_ref().ok_or_else(…)`
abbrev pub or_no_session : {A : Type 0} → Option A → Result ServiceError A
or_no_session none = err no_session
or_no_session (some a) = ok a

-- `format!("session-{:016x}-{sequence:016x}", seed)`
unfoldable pub run_name : ℕ → ℕ → String
run_name seed sequence =
    String.◌++◌ "session-" (String.◌++◌ (hex16 seed) (String.◌++◌ "-" (hex16 sequence)))

abbrev pub retire : Option Runner → List Runner
retire none = []
retire (some r) = record r { is_cancelled = true } ∷ []

-- The command that a control stands for at the clock's reading.
abbrev pub command_of : SessionControl → ℕ → Option SessionCommand
command_of SessionControl.tick now = none
command_of SessionControl.pause now = some (SessionCommand.pause now)
command_of SessionControl.resume now = some (SessionCommand.resume now)
command_of SessionControl.skip_media now = some SessionCommand.skip_media
command_of SessionControl.interrupt now = some (SessionCommand.interrupt now)
command_of (SessionControl.user_action name) now = some (SessionCommand.user_action name)
command_of (SessionControl.report_playback_failure detail) now =
    some (SessionCommand.report_playback_failure detail)
command_of (SessionControl.change_tempo_offset offset) now =
    some (SessionCommand.change_tempo_offset offset)
command_of (SessionControl.end finished) now = some (SessionCommand.end finished now)

module _ {F R : Type 0} ⦃fl : Floats F⦄ ⦃rg : Rng R⦄ where
  unfoldable pub start_session :
      ℕ
      → GameConfig F
      → SessionService F R
      → Result ServiceError (SessionState F × SessionService F R)
  start_session random config s = do
    reject_if (has_active s.engine) already_active
    e ← or_invalid (new random config)
    let state : SessionState F = record e.state { session_id = run_name e.state.seed s.sequence }
    ok (
      state,
      record s {
        engine = some (record e { state = state });
        sequence = (s.sequence + 1) % 18446744073709551616;
      },
    )

  -- The engine takes the command, and the update goes to the channel.
  abbrev pub perform :
      SessionCommand → SessionEngine F R → SessionService F R → SessionUpdate F × SessionService F R
  perform command e s =
      let t = dispatch command e in
      let update : SessionUpdate F = record { state = t.engine.state; effects = t.effects } in
      (update, record s { engine = some t.engine; updates = s.updates ++ update ∷ [] })

  unfoldable pub dispatch_command :
      SessionCommand
      → SessionService F R
      → Result ServiceError (SessionUpdate F × SessionService F R)
  dispatch_command command s = do e ← or_no_session s.engine; ok (perform command e s)

  -- `SessionService::default()` in a process that has started no session
  abbrev pub default_service : SessionService F R
  default_service = record {
    engine = none;
    runner = none;
    retired = [];
    updates = [];
    sequence = 1;
  }

  unfoldable pub snapshot : SessionService F R → Option (SessionState F)
  snapshot s = Option.map (λ e. e.state) s.engine

  -- `.ok()` forgets the error, and the service stays as it was.
  unfoldable pub interrupt_active :
      ℕ → SessionService F R → Option (SessionUpdate F) × SessionService F R
  interrupt_active now s = elim (dispatch_command (SessionCommand.interrupt now) s) [
    | ok (update, s') ↦ (some update, s')
    | err e ↦ (none, s)
  ]

  unfoldable pub tick_for_session :
      String → ℕ → SessionService F R → Result ServiceError (SessionUpdate F × SessionService F R)
  tick_for_session session_id monotonic_ms s = do
    e ← or_no_session s.engine
    reject_if (not (str_eq e.state.session_id session_id)) replaced
    ok (perform (SessionCommand.tick monotonic_ms) e s)

  -- `runner.take()` and `cancel()`
  unfoldable pub stop_runner : SessionService F R → SessionService F R
  stop_runner s = record s { runner = none; retired = s.retired ++ retire s.runner }

  -- `has_runtime` is `Handle::try_current().is_ok()`.
  unfoldable pub start_runner : Bool → String → SessionService F R → SessionService F R
  start_runner has_runtime session_id s =
      if has_runtime
      then record s {
        runner = some (record { session_id = session_id; is_cancelled = false });
        retired = s.retired ++ retire s.runner;
      }
      else s

  unfoldable pub start_running :
      Bool
      → ℕ
      → ℕ
      → GameConfig F
      → SessionService F R
      → Result ServiceError (SessionUpdate F × SessionService F R)
  start_running has_runtime random now config s = do
    (state, s1) ← start_session random config s
    (update, s2) ← dispatch_command (start now) (stop_runner s1)
    ok (update, start_runner has_runtime update.state.session_id s2)

  -- A `Tick` from outside reads the state and advances nothing.
  unfoldable pub control :
      SessionControl
      → ℕ
      → SessionService F R
      → Result ServiceError (SessionUpdate F × SessionService F R)
  control request now s = elim (command_of request now) [
    | some command ↦ dispatch_command command s
    | none ↦ do e ← or_no_session s.engine; ok (record { state = e.state; effects = [] }, s)
  ]

  -- One round of a runner's loop: whether the task goes on, and the service afterwards. `select!`
  -- takes any branch that is ready, so a cancelled task may tick once more; the loop's own look at
  -- the session's id is the one that `tick_for_session` repeats under the lock.
  unfoldable pub runner_round : Bool → Runner → ℕ → SessionService F R → Bool × SessionService F R
  runner_round sees_cancel r now s =
      if r.is_cancelled && sees_cancel
      then (false, s)
      else elim (tick_for_session r.session_id now s) [
        | err e ↦ (false, s)
        | ok (update, s') ↦ (is_active update.state.status, s')
      ]
