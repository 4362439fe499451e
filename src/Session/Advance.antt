-- ===== src/Session/Advance.antt =====
-- src/session.rs, the loop of `advance_to_active`: it ends within its fuel, at the target.
use curator_rs.Prelude.{
  ℕ, zero, suc, ◌-◌, ◌≤◌, ◌<◌, ◌≡◌, ◌∙◌, refl, ap, arith, ltb, Bool-cases, inl, inr,
}
use curator_rs.Session.Floats.{Floats, Rng}
use curator_rs.Session.State.{Turn, state_of, config_of, set_state}
use curator_rs.Session.Clock.{
  locate, update_phase, event_deadline, is_some_at, next_milestone, advance_once, advance_loop,
  advance_to_active,
}
use curator_rs.Session.Frame.{
  Course, Place, course_of, update_phase-course, update_phase-active, update_phase-phase,
  finish_event-place,
}

abbrev pub active_of : {F R : Type 0} → Turn F R → ℕ
active_of t = (state_of t).active_elapsed_ms

module _ {F R : Type 0} ⦃fl : Floats F⦄ ⦃rg : Rng R⦄ where
  -- A round moves forward, and not past the target.
  pub next_milestone_bounds :
      (target : ℕ) (t : Turn F R)
      → active_of t < target
      → (active_of t < next_milestone target t) × (next_milestone target t ≤ target)
  unfolding next_milestone
  next_milestone_bounds target t h = ground arith

  abbrev pub moved : ℕ → Turn F R → Turn F R
  moved next t = set_state (record (state_of t) { active_elapsed_ms = next }) t

  pub advance_once-active :
      (target : ℕ) (t : Turn F R) → active_of (advance_once target t) ≡ next_milestone target t
  unfolding advance_once
  advance_once-active target t =
      let next = next_milestone target t in
      ap Place.active_elapsed_ms (
        finish_event-place (is_some_at (event_deadline (state_of t).current_event) next)
          (update_phase (moved next t)))
      ∙ update_phase-active (moved next t)

  pub advance_once-course :
      (target : ℕ) (t : Turn F R) → course_of (advance_once target t) ≡ course_of t
  unfolding advance_once
  advance_once-course target t =
      let next = next_milestone target t in
      ap Place.course (
        finish_event-place (is_some_at (event_deadline (state_of t).current_event) next)
          (update_phase (moved next t)))
      ∙ update_phase-course (moved next t)

  pub advance_loop-course :
      (fuel target : ℕ) (t : Turn F R) → course_of (advance_loop fuel target t) ≡ course_of t
  unfolding advance_loop
  advance_loop-course zero target t = refl
  advance_loop-course (suc fuel) target t = elim (Bool-cases (ltb (active_of t) target)) [
    | inl more ↦
        rw more
          (advance_loop-course fuel target (advance_once target t) ∙ advance_once-course target t)
    | inr done ↦ rw done
  ]

  -- With enough fuel the loop ends at the target.
  pub advance_loop-active :
      (fuel target : ℕ) (t : Turn F R)
      → active_of t ≤ target
      → target - active_of t ≤ fuel
      → active_of (advance_loop fuel target t) ≡ target
  unfolding advance_loop
  advance_loop-active zero target t h k = omega arith
  advance_loop-active (suc fuel) target t h k = elim (Bool-cases (ltb (active_of t) target)) [
    | inl more ↦
        let b = next_milestone_bounds target t (ground arith) in
        let e = advance_once-active target t in
        rw more (
          advance_loop-active fuel target (advance_once target t) (omega (arith, e, b))
            (omega (arith, e, b)))
    | inr done ↦ rw done (ground arith)
  ]

  pub advance_to_active-course :
      (target : ℕ) (t : Turn F R) → course_of (advance_to_active target t) ≡ course_of t
  unfolding advance_to_active
  advance_to_active-course target t =
      update_phase-course (advance_loop (target - active_of t) target t)
      ∙ advance_loop-course (target - active_of t) target t

  -- The loop ends within its fuel, at its target: advancing to a time that is not before the active
  -- time leaves exactly that time as active time.
  pub advance_to_active-active :
      (target : ℕ) (t : Turn F R)
      → active_of t ≤ target
      → active_of (advance_to_active target t) ≡ target
  unfolding advance_to_active
  advance_to_active-active target t h =
      update_phase-active (advance_loop (target - active_of t) target t)
      ∙ advance_loop-active (target - active_of t) target t h (omega arith)

  -- Afterwards the phase is the one that the target falls into.
  pub advance_to_active-phase :
      (target : ℕ) (t : Turn F R)
      → active_of t ≤ target
      → let (index, remaining) = locate (config_of t).phases 0 target in
        ((state_of (advance_to_active target t)).phase.index ≡ index)
        × ((state_of (advance_to_active target t)).phase.elapsed_ms ≡ remaining)
  unfolding advance_to_active
  advance_to_active-phase target t h =
      let u = advance_loop (target - active_of t) target t in
      let p = update_phase-phase u in
      let c = ap Course.config (advance_loop-course (target - active_of t) target t) in
      let a = advance_loop-active (target - active_of t) target t h (omega arith) in
      (cc (p.0, c, a), cc (p.1, c, a))
