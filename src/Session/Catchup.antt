-- ===== src/Session/Catchup.antt =====
-- src/session.rs, `advance_to_active`, without what else a tick does: its comment says that delayed ticks are
-- equivalent to a sequence of timely ones.
use curator_rs.Prelude.{
  ℕ, zero, suc, ◌-◌, ◌≤◌, ◌<◌, ◌≡◌, ◌≢◌, ◌∙◌, sym, refl, ap, inl, inr, Bool-cases, false, arith,
  ltb, u64_max, lt→ltb, ltb-false, ℕ_discrete, dec_lt,
}
use native.Mathlib.Numerals.{unary_clauses}
use curator_rs.Session.Floats.{Floats, Rng}
use curator_rs.Session.State.{Turn, state_of, config_of, set_state}
use curator_rs.Session.Clock.{
  locate, event_deadline, is_some_at, next_phase_boundary, next_milestone, update_phase,
  finish_event, advance_once, advance_loop, advance_to_active,
}
use curator_rs.Session.Milestones.{
  IsAfter, locate_between, boundary_between, earliest_between, IsAfter_between,
  boundary_from-IsAfter,
}
use curator_rs.Session.Frame.{
  update_phase-phase, finish_event-place, update_phase-active, update_phase-course,
}
use curator_rs.Session.Advance.{
  active_of, moved, next_milestone_bounds, advance_once-active, advance_loop-active,
}

module _ {F R : Type 0} ⦃fl : Floats F⦄ ⦃rg : Rng R⦄ where
  with_elapsed : ℕ → Turn F R → Turn F R
  with_elapsed n t =
      set_state (record (state_of t) { phase = record (state_of t).phase { elapsed_ms = n } }) t

  -- `update_phase` writes the time in the phase whatever stood there.
  update_phase-with_elapsed :
      (n : ℕ) (t : Turn F R) → update_phase (with_elapsed n t) ≡ update_phase t
  unfolding update_phase with_elapsed
  update_phase-with_elapsed n t = ground arith

  -- The phase is the one of the active time, so `update_phase` finds nothing to do.
  abbrev pub IsSettled : Turn F R → Type 0
  IsSettled t =
      ((state_of t).phase.index ≡ (locate (config_of t).phases 0 (active_of t)).0)
      × ((state_of t).phase.elapsed_ms ≡ (locate (config_of t).phases 0 (active_of t)).1)

  update_phase-settled : (t : Turn F R) → IsSettled t → update_phase t ≡ t
  unfolding update_phase
  update_phase-settled t h = ground arith

  advance_once-IsSettled : (target : ℕ) (t : Turn F R) → IsSettled (advance_once target t)
  unfolding advance_once
  advance_once-IsSettled target t =
      let u = moved (next_milestone target t) t in
      let b = is_some_at (event_deadline (state_of t).current_event) (next_milestone target t) in
      ground (
        arith,
        finish_event-place b (update_phase u),
        update_phase-phase u,
        update_phase-active u,
        update_phase-course u,
      )

  advance_loop-IsSettled :
      (fuel target : ℕ) (t : Turn F R) → IsSettled t → IsSettled (advance_loop fuel target t)
  unfolding advance_loop
  advance_loop-IsSettled zero target t h = h
  advance_loop-IsSettled (suc fuel) target t h = elim (Bool-cases (ltb (active_of t) target)) [
    | inl more ↦ rw more (
        advance_loop-IsSettled fuel target (advance_once target t)
          (advance_once-IsSettled target t))
    | inr done ↦ rw done h
  ]

  -- Any two amounts of fuel that are enough give the same turn.
  pub advance_loop-fuel :
      (f g target : ℕ) (t : Turn F R)
      → target - active_of t ≤ f
      → target - active_of t ≤ g
      → advance_loop f target t ≡ advance_loop g target t
  unfolding advance_loop
  advance_loop-fuel zero zero target t h k = refl
  advance_loop-fuel zero (suc g) target t h k = rw (ltb-false (active_of t) target (omega arith))
  advance_loop-fuel (suc f) zero target t h k = rw (ltb-false (active_of t) target (omega arith))
  advance_loop-fuel (suc f) (suc g) target t h k = elim (Bool-cases (ltb (active_of t) target)) [
    | inl more ↦
        let b = next_milestone_bounds target t (ground arith) in
        let e = advance_once-active target t in
        rw more (
          advance_loop-fuel f g target (advance_once target t) (omega (arith, e, b))
            (omega (arith, e, b)))
    | inr done ↦ rw done
  ]

  update_phase-same :
      (t : Turn F R)
      → (state_of t).phase.index ≡ (locate (config_of t).phases 0 (active_of t)).0
      → update_phase t ≡ with_elapsed (locate (config_of t).phases 0 (active_of t)).1 t
  unfolding update_phase with_elapsed
  update_phase-same t h = ground arith

  -- A target before the next milestone: the time moves, and nothing else happens.
  module _ (near far : ℕ) (t : Turn F R) (s : IsSettled t) (h : active_of t < near) (k : near ≤ far)
      (m : far ≤ u64_max) (n : next_milestone near t ≢ next_milestone far t) where
    abbrev at_near : Turn F R
    at_near = with_elapsed (locate (config_of t).phases 0 near).1 (moved near t)

    after : IsAfter near (next_phase_boundary t)
    unfolding next_milestone
    after =
        IsAfter_between (active_of t) near far (event_deadline (state_of t).current_event)
          (next_phase_boundary t) h k (boundary_from-IsAfter (config_of t).phases 0 (active_of t)) n

    between :
        (is_some_at (event_deadline (state_of t).current_event) near ≡ false)
        × (next_milestone near t ≡ near)
        × (next_milestone far at_near ≡ next_milestone far t)
    unfolding next_milestone with_elapsed
    between =
        let d = event_deadline (state_of t).current_event in
        let p = next_phase_boundary t in
        let e = earliest_between (active_of t) near far d p h k n in
        let q = boundary_between (config_of t).phases 0 (active_of t) near (omega arith) after in
        (e.0, e.2, rw q e.3)

    same_phase :
        (locate (config_of t).phases 0 near).0 ≡ (locate (config_of t).phases 0 (active_of t)).0
    same_phase = simp unary_clauses at (
        locate_between (config_of t).phases 0 0 (active_of t) near (omega arith) h (omega arith)
          after)

    once_near : advance_once near t ≡ at_near
    unfolding advance_once finish_event
    once_near = rw (between.1, between.0) (update_phase-same (moved near t) (s.0 ∙ sym same_phase))

    once_far : advance_once far at_near ≡ advance_once far t
    unfolding advance_once with_elapsed
    once_far = rw between.2 (
        ap
          (finish_event
            (is_some_at (event_deadline (state_of t).current_event) (next_milestone far t)))
          (update_phase-with_elapsed (locate (config_of t).phases 0 near).1
            (moved (next_milestone far t) t)))

  advance_loop_step :
      (fuel target : ℕ) (t : Turn F R)
      → active_of t < target
      → advance_loop (suc fuel) target t ≡ advance_loop fuel target (advance_once target t)
  unfolding advance_loop
  advance_loop_step fuel target t h = rw (lt→ltb (active_of t) target h)

  advance_loop_done :
      (fuel target : ℕ) (t : Turn F R) → target ≤ active_of t → advance_loop fuel target t ≡ t
  unfolding advance_loop
  advance_loop_done zero target t h = refl
  advance_loop_done (suc fuel) target t h = rw (ltb-false (active_of t) target h)

  -- A round towards either target, when both have the same next milestone.
  once_same :
      (near far : ℕ) (t : Turn F R)
      → next_milestone near t ≡ next_milestone far t
      → advance_once near t ≡ advance_once far t
  unfolding advance_once
  once_same near far t e = rw e

  loop_via :
      (f g near far : ℕ) (t : Turn F R)
      → IsSettled t
      → active_of t ≤ near
      → near ≤ far
      → far ≤ u64_max
      → near - active_of t ≤ f
      → far - active_of t ≤ g
      → advance_loop g far (advance_loop f near t) ≡ advance_loop g far t
  loop_via zero g near far t s h k m a b = rw (advance_loop_done zero near t (omega arith))
  loop_via (suc f) zero near far t s h k m a b = rw (advance_loop_done (suc f) near t (omega arith))
  loop_via (suc f) (suc g) near far t s h k m a b = elim (dec_lt (active_of t) near) [
    | no done ↦ rw (advance_loop_done (suc f) near t (omega arith))
    | yes more ↦ elim (ℕ_discrete (next_milestone near t) (next_milestone far t)) [
      | yes same ↦
          let u = advance_once near t in
          let e = advance_once-active near t in
          let c = next_milestone_bounds near t more in
          let r = advance_loop-active f near u (omega (arith, e, c)) (omega (arith, e, c)) in
          ap (advance_loop (suc g) far) (advance_loop_step f near t more)
          ∙ advance_loop-fuel (suc g) g far (advance_loop f near u) (omega (arith, r))
              (omega (arith, r))
          ∙ loop_via f g near far u (advance_once-IsSettled near t) (omega (arith, e, c)) k m
              (omega (arith, e, c)) (omega (arith, e, c))
          ∙ ap (advance_loop g far) (once_same near far t same)
          ∙ sym (advance_loop_step g far t (omega arith))
      | no different ↦
          let u = advance_once near t in
          let e = advance_once-active near t ∙ (between near far t s more k m different).1 in
          let apart : near ≢ far = λ p. different (ap (λ x. next_milestone x t) p) in
          ap (advance_loop (suc g) far)
            (advance_loop_step f near t more ∙ advance_loop_done f near u (omega (arith, e)))
          ∙ advance_loop_step g far u (omega (arith, e, apart))
          ∙ ap (advance_loop g far) (
              ap (advance_once far) (once_near near far t s more k m different)
              ∙ once_far near far t s more k m different)
          ∙ sym (advance_loop_step g far t (omega arith))
    ]
  ]

  advance_to_active_settled :
      (target : ℕ) (t : Turn F R)
      → IsSettled t
      → advance_to_active target t ≡ advance_loop (target - active_of t) target t
  unfolding advance_to_active
  advance_to_active_settled target t s =
      update_phase-settled _ (advance_loop-IsSettled (target - active_of t) target t s)

  -- `advance_to_active` to a time in two steps does what one step does: from a session whose phase is the
  -- one its active time falls into, stopping at any time on the way, all of them `u64` values, makes no
  -- difference to the state, the generator, the history or the effects of `advance_to_active`. What else a
  -- tick does, `update_tempo` above all, is no part of this.
  pub advance_to_active_via :
      (near far : ℕ) (t : Turn F R)
      → IsSettled t
      → active_of t ≤ near
      → near ≤ far
      → far ≤ u64_max
      → advance_to_active far (advance_to_active near t) ≡ advance_to_active far t
  advance_to_active_via near far t s h k m =
      let l = advance_loop (near - active_of t) near t in
      let settled = advance_loop-IsSettled (near - active_of t) near t s in
      let r = advance_loop-active (near - active_of t) near t h (omega arith) in
      ap (advance_to_active far) (advance_to_active_settled near t s)
      ∙ advance_to_active_settled far l settled
      ∙ advance_loop-fuel (far - active_of l) (far - active_of t) far l (omega arith)
          (omega (arith, r))
      ∙ loop_via (near - active_of t) (far - active_of t) near far t s h k m (omega arith)
          (omega arith)
      ∙ sym (advance_to_active_settled far t s)
