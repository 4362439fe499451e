-- ===== src/Session/Located.antt =====
-- src/session.rs: where `update_phase` places a session, and a new session's invariant.
use curator_rs.Prelude.{
  ℕ, ◌+◌, ◌-◌, ◌≤◌, ◌<◌, ◌≡◌, refl, List, [], ◌∷◌, arith, u64_max, length, All, ok, Result-cases,
  inl, inr,
}
use curator_rs.Session.Floats.{Floats, Rng}
use curator_rs.Session.Config.{PhaseConfig, GameConfig}
use curator_rs.Session.State.{SessionEngine, SessionCommand}
use curator_rs.Session.Clock.{locate, unwrap_or}
use curator_rs.Session.Dispatch.{run}
use curator_rs.Session.Validate.{validate, initial_state, new}
use curator_rs.Session.Validate.Phases.{GoodPhase}
use curator_rs.Session.Validate.Accepts.{IsValid, validate_iff}
use curator_rs.Session.Invariant.{Inv, IsPlaced, run-Inv}

module _ {F : Type 0} where
  -- The index is one of the list's.
  pub locate-lt :
      (ps : List (PhaseConfig F)) (candidate remaining : ℕ)
      → 0 < length ps
      → (locate ps candidate remaining).0 < candidate + length ps
  unfolding locate
  locate-lt [] candidate remaining h = absurd (omega arith)
  locate-lt (p ∷ []) candidate remaining h = omega arith
  locate-lt (p ∷ q ∷ ps) candidate remaining h =
      ground (arith, locate-lt (q ∷ ps) (candidate + 1) (remaining - p.duration_ms))

module _ {F : Type 0} ⦃fl : Floats F⦄ where
  locate_start : (ps : List (PhaseConfig F)) → All GoodPhase ps → locate ps 0 0 ≡ (0, 0)
  unfolding locate
  locate_start [] g = refl
  locate_start (p ∷ []) g = refl
  locate_start (p ∷ q ∷ ps) g = ground (arith, g.0.lasting)

module _ {F R : Type 0} ⦃fl : Floats F⦄ ⦃rg : Rng R⦄ where
  phase-lt-length :
      (e : SessionEngine F R) → IsPlaced e → e.state.phase.index < length e.config.phases
  phase-lt-length e p =
      omega (arith, p.located, locate-lt e.config.phases 0 e.state.active_elapsed_ms p.has_phase)

  initial_state-Inv :
      (seed : ℕ) (c : GameConfig F)
      → c.duration.active_duration_ms ≤ u64_max
      → IsValid c
      → Inv (initial_state {F = F} {R = R} seed c)
  unfolding initial_state
  initial_state-Inv seed c h v = ground (arith, locate_start c.phases v.phases)

  -- A session that `new` returns, its duration a `u64`, and whatever commands it is given: its active
  -- time stays within the configured duration, its phase is one of the configuration's, the one that
  -- the active time falls into, and bears its id, and the session holds a reading of the clock
  -- exactly while it runs, and a pause's start exactly while it is paused.
  pub run-new-Inv :
      (random : ℕ) (c : GameConfig F) (e : SessionEngine F R) (cs : List SessionCommand)
      → c.duration.active_duration_ms ≤ u64_max
      → new random c ≡ ok e
      → Inv (run cs e) × ((run cs e).state.phase.index < length (run cs e).config.phases)
  unfolding new
  run-new-Inv random c e cs h n = elim (Result-cases (validate c)) [
    | inl (v, p) ↦
        let first = initial_state-Inv (unwrap_or c.seed random) c h ((validate_iff c).0 p) in
        let all = run-Inv cs e (ground arith) in (all, phase-lt-length (run cs e) all.0)
    | inr (x, p) ↦ absurd (ground arith)
  ]
