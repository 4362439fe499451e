-- ===== src/Session/Service/Runners.antt =====
-- src/session.rs, `SessionService`: which runner may tick which session, and what starting does.
use curator_rs.Prelude.{
  ℕ, String, ◌+◌, ◌<◌, ◌≡◌, ◌≢◌, ◌%◌, ◌∙◌, sym, refl, Bool, true, false, List, [], ◌∷◌, ◌++◌,
  Option, none, some, arith, All, ok, eq_iff,
}
use curator_rs.Session.Floats.{Floats, Rng}
use curator_rs.Session.Config.{GameConfig}
use curator_rs.Session.State.{running, SessionEngine, start}
use curator_rs.Session.Dispatch.{dispatch, act, start_at, started}
use curator_rs.Session.Validate.{validate, initial_state, new}
use curator_rs.Session.Service.{
  Runner, SessionService, SessionUpdate, perform, has_active, run_name, start_session,
  dispatch_command, tick_for_session, stop_runner, start_runner, start_running, runner_round,
  retire,
}
use curator_rs.Session.Clock.{unwrap_or}
use curator_rs.Session.Names.{run_name_inj}
use curator_rs.Session.Frame.{schedule_phase_events-place}

-- Two runners never tick at once: the token in the slot is the only one that is not cancelled.
pub record HasOneRunner {F R : Type 0} (s : SessionService F R) : Type 0 where
  pub current : (r : Runner) → s.runner ≡ some r → r.is_cancelled ≡ false
  pub others : All (λ r. r.is_cancelled ≡ true) s.retired

All-append : {A : Type 0} (P : A → Type 0) (xs ys : List A) → All P xs → All P ys → All P (xs ++ ys)
All-append P [] ys h k = k
All-append P (x ∷ xs) ys (h, hs) k = (h, All-append P xs ys hs k)

All-retire : (r : Option Runner) → All (λ r. r.is_cancelled ≡ true) (retire r)
All-retire none = tt
All-retire (some r) = (refl, tt)

module _ {F R : Type 0} ⦃fl : Floats F⦄ ⦃rg : Rng R⦄ where
  -- A runner whose session was replaced ends without touching the service, also if its
  -- cancellation has not reached it.
  pub runner_round_stale :
      (seed seed' a b now : ℕ) (sees : Bool) (r : Runner) (e : SessionEngine F R)
      (s : SessionService F R)
      → r.session_id ≡ run_name seed a
      → s.engine ≡ some e
      → e.state.session_id ≡ run_name seed' b
      → a < 18446744073709551616
      → b < 18446744073709551616
      → a ≢ b
      → runner_round sees r now s ≡ (false, s)
  unfolding runner_round tick_for_session
  runner_round_stale seed seed' a b now sees r e s p q n h k d =
      let f : e.state.session_id ≢ r.session_id =
        λ x. d (sym (run_name_inj seed' seed b a k h (sym n ∙ x ∙ p))) in
      ground (arith, eq_iff e.state.session_id r.session_id)

  start_runner-HasOneRunner :
      (has : Bool) (id : String) (s : SessionService F R)
      → HasOneRunner s
      → HasOneRunner (start_runner has id s)
  unfolding start_runner
  start_runner-HasOneRunner false id s v = v
  start_runner-HasOneRunner true id s v = record {
    current = λ r e. ground arith;
    others = All-append _ s.retired (retire s.runner) v.others (All-retire s.runner);
  }

  stop_runner-HasOneRunner :
      (s : SessionService F R) → HasOneRunner s → HasOneRunner (stop_runner s)
  unfolding stop_runner
  stop_runner-HasOneRunner s v = record {
    current = λ r e. absurd (cc);
    others = All-append _ s.retired (retire s.runner) v.others (All-retire s.runner);
  }

  -- The engine that `start` puts in the slot.
  abbrev admitted : ℕ → GameConfig F → SessionService F R → SessionEngine F R
  admitted random c s =
      let e : SessionEngine F R = initial_state (unwrap_or c.seed random) c in
      record e { state = record e.state { session_id = run_name e.state.seed s.sequence } }

  abbrev after_start : ℕ → GameConfig F → SessionService F R → SessionService F R
  after_start random c s = record s {
    engine = some (admitted random c s);
    sequence = (s.sequence + 1) % 18446744073709551616;
  }

  start_session-ok :
      (random : ℕ) (c : GameConfig F) (s : SessionService F R)
      → has_active s.engine ≡ false
      → validate c ≡ ok tt
      → start_session random c s ≡ ok ((admitted random c s).state, after_start random c s)
  unfolding start_session new
  start_session-ok random c s h v = rw (h, v)

  start-status :
      (random now : ℕ) (c : GameConfig F) (s : SessionService F R)
      → let t = dispatch (start now) (admitted random c s) in
        (t.engine.state.status ≡ running)
        × (t.engine.last_monotonic_ms ≡ some now)
        × (t.engine.state.session_id ≡ (admitted random c s).state.session_id)
  unfolding dispatch act start_at initial_state
  start-status random now c s = ground (
    arith,
    schedule_phase_events-place
        (started now (record { engine = admitted random c s; effects = [] })),
  )

  start_runner-engine :
      (has : Bool) (id : String) (s : SessionService F R)
      → (start_runner has id s).engine ≡ s.engine
  unfolding start_runner
  start_runner-engine has id s = ground arith

  admitted-name :
      (random : ℕ) (c : GameConfig F) (s : SessionService F R)
      → (admitted random c s).state.session_id ≡ run_name (unwrap_or c.seed random) s.sequence
  unfolding initial_state
  admitted-name random c s = refl

  -- With no session active and a valid configuration, starting succeeds: the new session runs from
  -- the reading of the clock, under the name of the next number, and the runner of the session
  -- before it is cancelled.
  pub start_running-ok :
      (has : Bool) (random now : ℕ) (c : GameConfig F) (s : SessionService F R)
      → has_active s.engine ≡ false
      → validate c ≡ ok tt
      → HasOneRunner s
      → (u : SessionUpdate F) × (e : SessionEngine F R) × (s' : SessionService F R) × (start_running
            has random now c s
          ≡ ok (u, s'))
        × (s'.engine ≡ some e)
        × (e.state ≡ u.state)
        × (u.state.status ≡ running)
        × (e.last_monotonic_ms ≡ some now)
        × (u.state.session_id ≡ run_name (unwrap_or c.seed random) s.sequence)
        × HasOneRunner s'
  unfolding start_running dispatch_command stop_runner
  start_running-ok has random now c s h v one =
      let e = admitted random c s in
      let t = dispatch (start now) e in
      let (u, s2) = perform (start now) e (stop_runner (after_start random c s)) in
      let q = start-status random now c s in
      let stopped =
        stop_runner-HasOneRunner (after_start random c s)
          (record { current = one.current; others = one.others }) in
      (
        u,
        t.engine,
        start_runner has u.state.session_id s2,
        rw (start_session-ok random c s h v),
        start_runner-engine has u.state.session_id s2,
        refl,
        q.0,
        q.1,
        q.2 ∙ admitted-name random c s,
        start_runner-HasOneRunner has u.state.session_id s2
            (record { current = stopped.current; others = stopped.others }),
      )
