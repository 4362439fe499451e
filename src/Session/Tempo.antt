-- ===== src/Session/Tempo.antt =====
-- src/session.rs, the tempo: `TempoCurve::target_bpm` and `SessionEngine::target_tempo_for`.
use curator_rs.Prelude.{ℕ, List, max, [], get_or}
use curator_rs.Session.Floats.{Floats, clamp}
use curator_rs.Session.Config.{
  TempoCurve, constant, linear, stepped, eased, adaptive, PhaseConfig, GameConfig,
}

module _ {F : Type 0} ⦃fl : Floats F⦄ where
  open fl use {of_nat, add, sub, mul, div, floor}

  -- start + (end - start) * weight
  abbrev pub lerp : F → F → F → F
  lerp start end weight = add start (mul (sub end start) weight)

  abbrev target_bpm_at : TempoCurve F → F → F
  target_bpm_at (constant bpm) progress = bpm
  target_bpm_at (linear start end) progress = lerp start end progress
  target_bpm_at (stepped start end steps) progress =
      let n = of_nat (max steps 1) in lerp start end (div (floor (mul progress n)) n)
  target_bpm_at (eased start end) progress =
      lerp start end (mul (mul progress progress) (sub (of_nat 3) (mul (of_nat 2) progress)))
  target_bpm_at (adaptive base) progress = base

  unfoldable pub target_bpm : TempoCurve F → F → F
  target_bpm curve progress = target_bpm_at curve (clamp progress (of_nat 0) (of_nat 1))

  -- What stands for the phase at an index out of range, where the source panics.
  abbrev pub no_phase : PhaseConfig F
  no_phase = record { id = ""; duration_ms = 0; tempo_multiplier = of_nat 0; event_ids = [] }

  -- `phases[index]`
  abbrev pub phase_at : List (PhaseConfig F) → ℕ → PhaseConfig F
  phase_at phases index = get_or phases index no_phase

  unfoldable pub target_tempo_for : GameConfig F → ℕ → ℕ → F
  target_tempo_for config phase_index elapsed_ms =
      let progress = div (of_nat elapsed_ms) (of_nat config.duration.active_duration_ms) in
      clamp
        (mul (mul (target_bpm config.tempo.curve progress) config.difficulty.tempo_multiplier)
          (phase_at config.phases phase_index).tempo_multiplier)
        config.tempo.min_bpm config.tempo.max_bpm
