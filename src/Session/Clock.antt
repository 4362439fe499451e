-- ===== src/Session/Clock.antt =====
-- src/session.rs, how a session moves through its active time: `advance_running_time`,
-- `advance_to_active`, `next_phase_boundary`, `update_phase` and
-- `update_tempo`.
pub use curator_rs.Prelude.{unwrap_or}
use curator_rs.Prelude.{
  ℕ, zero, suc, ◌+◌, ◌-◌, min, Bool, true, false, ◌&&◌, List, [], ◌∷◌, Option, none, some, ltb,
  ◌==◌, if◌then◌else◌, saturating_add, wrapping_add32,
}
use curator_rs.Session.Floats.{Floats, Rng, clamp}
use curator_rs.Session.Config.{PhaseConfig, GameConfig}
use curator_rs.Session.Tempo.{phase_at, lerp, target_tempo_for}
use curator_rs.Session.State.{
  EventRecord, SessionState, Turn, schedule_metronome, start_phase, end_event, push, set_state,
  state_of, config_of,
}
use curator_rs.Session.Events.{schedule_phase_events}

-- The loop of `update_phase`: the phase that `remaining` falls into, and the time spent in it.
unfoldable pub locate : {F : Type 0} → List (PhaseConfig F) → ℕ → ℕ → ℕ × ℕ
locate [] candidate remaining = (0, remaining)
locate (p ∷ []) candidate remaining = (candidate, remaining)
locate (p ∷ q ∷ ps) candidate remaining =
    let later = locate (q ∷ ps) (candidate + 1) (remaining - p.duration_ms) in
    if ltb remaining p.duration_ms then (candidate, remaining) else later

-- The loop of `next_phase_boundary`, over all phases but the last.
unfoldable pub boundary_from : {F : Type 0} → List (PhaseConfig F) → ℕ → ℕ → Option ℕ
boundary_from [] boundary active = none
boundary_from (p ∷ []) boundary active = none
boundary_from (p ∷ q ∷ ps) boundary active =
    let b = saturating_add boundary p.duration_ms in
    let later = boundary_from (q ∷ ps) b active in if ltb active b then some b else later

-- `event.started_at_active_ms.saturating_add(event.duration_ms)`
abbrev pub deadline_of : EventRecord → ℕ
deadline_of r = saturating_add r.started_at_active_ms r.duration_ms

abbrev pub event_deadline : Option EventRecord → Option ℕ
event_deadline none = none
event_deadline (some r) = some (deadline_of r)

-- `[..].into_iter().flatten().filter(|deadline| *deadline > current).min()`
abbrev pub earliest_after : ℕ → List (Option ℕ) → Option ℕ
earliest_after current [] = none
earliest_after current (none ∷ ds) = earliest_after current ds
earliest_after current (some d ∷ ds) = elim (earliest_after current ds) [
  | none ↦ if ltb current d then some d else none
  | some m ↦ if ltb current d then some (min d m) else some m
]

-- `event_deadline == Some(next)`
abbrev pub is_some_at : Option ℕ → ℕ → Bool
is_some_at none n = false
is_some_at (some m) n = m == n

abbrev pub is_none : {A : Type 0} → Option A → Bool
is_none none = true
is_none (some a) = false

module _ {F : Type 0} ⦃fl : Floats F⦄ where
  -- The tempo moves towards its target by a share of the time that has passed.
  unfoldable pub smoothed : GameConfig F → F → F → ℕ → F
  smoothed config target current elapsed_ms = lerp current target (
      clamp
        (Floats.div fl
          (Floats.mul fl config.tempo.smoothing_per_second (Floats.of_nat fl elapsed_ms))
          (Floats.of_nat fl 1000))
        (Floats.of_nat fl 0) (Floats.of_nat fl 1))

module _ {F R : Type 0} ⦃fl : Floats F⦄ ⦃rg : Rng R⦄ where
  abbrev pub next_phase_boundary : Turn F R → Option ℕ
  next_phase_boundary t = boundary_from (config_of t).phases 0 (state_of t).active_elapsed_ms

  -- `index != self.state.phase.index`: the state of the phase that begins.
  abbrev pub enter_phase : ℕ → ℕ → Turn F R → Turn F R
  enter_phase index remaining t =
      let s = state_of t in
      let phase = phase_at (config_of t).phases index in
      let s' : SessionState F = record s {
        phase = record { index = index; id = phase.id; elapsed_ms = remaining };
        statistics = record s.statistics {
          phase_changes = wrapping_add32 s.statistics.phase_changes 1;
        };
      } in
      push (start_phase phase.id) (set_state s' t)

  unfoldable pub update_phase : Turn F R → Turn F R
  update_phase t =
      let s = state_of t in
      let (index, remaining) = locate (config_of t).phases 0 s.active_elapsed_ms in
      if index == s.phase.index
      then set_state (record s { phase = record s.phase { elapsed_ms = remaining } }) t
      else (let t' = enter_phase index remaining t in
          if is_none s.current_event
            && ltb s.active_elapsed_ms (config_of t).duration.active_duration_ms
          then schedule_phase_events t'
          else t')

  -- `if event_deadline == Some(next) { if let Some(event) = current_event.take() { … } }`
  unfoldable pub finish_event : Bool → Turn F R → Turn F R
  finish_event false t = t
  finish_event true t = elim (state_of t).current_event [
    | none ↦ t
    | some event ↦
        (let t' =
            push (end_event event.id)
              (set_state (record (state_of t) { current_event = none }) t) in
          if ltb (state_of t).active_elapsed_ms (config_of t).duration.active_duration_ms
          then schedule_phase_events t'
          else t')
  ]

  -- The milestone that one round of the loop moves to.
  unfoldable pub next_milestone : ℕ → Turn F R → ℕ
  next_milestone target t =
      unwrap_or
        (earliest_after (state_of t).active_elapsed_ms
          (some target ∷ event_deadline (state_of t).current_event ∷ next_phase_boundary t ∷ []))
        target

  -- The body of the `while` loop.
  unfoldable pub advance_once : ℕ → Turn F R → Turn F R
  advance_once target t =
      let deadline = event_deadline (state_of t).current_event in
      let next = next_milestone target t in
      finish_event (is_some_at deadline next)
        (update_phase (set_state (record (state_of t) { active_elapsed_ms = next }) t))

  -- `while active_elapsed_ms < target`, on fuel.
  unfoldable pub advance_loop : ℕ → ℕ → Turn F R → Turn F R
  advance_loop zero target t = t
  advance_loop (suc fuel) target t =
      let rest = advance_loop fuel target (advance_once target t) in
      if ltb (state_of t).active_elapsed_ms target then rest else t

  -- Each round moves the time by a millisecond at least, so `target - active` rounds are enough.
  unfoldable pub advance_to_active : ℕ → Turn F R → Turn F R
  advance_to_active target t =
      update_phase (advance_loop (target - (state_of t).active_elapsed_ms) target t)

  unfoldable pub update_tempo : ℕ → Turn F R → Turn F R
  update_tempo elapsed_ms t =
      let s = state_of t in
      let config = config_of t in
      let target = target_tempo_for config s.phase.index s.active_elapsed_ms in
      let current = smoothed config target s.tempo.current_bpm elapsed_ms in
      let t' =
        set_state
          (record s { tempo = record s.tempo { target_bpm = target; current_bpm = current } }) t in
      if config.audio.metronome_enabled
      then push (schedule_metronome current config.tempo.meter) t'
      else t'

  -- The active time that the clock reading stands for.
  unfoldable pub running_target : ℕ → Turn F R → ℕ
  running_target monotonic_ms t =
      min
        (saturating_add (state_of t).active_elapsed_ms
          (monotonic_ms - unwrap_or t.engine.last_monotonic_ms monotonic_ms))
        (config_of t).duration.active_duration_ms

  unfoldable pub advance_running_time : ℕ → Turn F R → Turn F R
  advance_running_time monotonic_ms t =
      let target = running_target monotonic_ms t in
      update_tempo (target - (state_of t).active_elapsed_ms) (
        advance_to_active target
          (record t { engine = record t.engine { last_monotonic_ms = some monotonic_ms } }))
