-- ===== src/Session/Events.antt =====
-- src/session.rs, `SessionEngine::schedule_phase_events`.
use text.Mathlib.Text.{◌==◌ as str_eq}
use curator_rs.Prelude.{
  ℕ, String, ◌-◌, Bool, true, false, not, ◌&&◌, ◌||◌, List, [], ◌∷◌, ◌++◌, Option, none, some, ltb,
  leb, suc, if◌then◌else◌, any, is_empty, as_u16, wrapping_add32,
}
use curator_rs.Session.Floats.{Floats, Rng}
use curator_rs.Session.Config.{EventDefinition}
use curator_rs.Session.Tempo.{phase_at}
use curator_rs.Session.State.{
  EventRecord, SessionState, SessionEngine, Turn, start_event, show_instruction, push, set_state,
  state_of, config_of,
}

-- `events.iter().find(|event| event.id == id)`
unfoldable pub find_event : String → List EventDefinition → Option EventDefinition
find_event id [] = none
find_event id (d ∷ ds) = if str_eq d.id id then some d else find_event id ds

-- `history.iter().filter(|record| record.id == id).count()`
unfoldable pub occurrences : String → List EventRecord → ℕ
occurrences id [] = 0
occurrences id (r ∷ rs) = let rest = occurrences id rs in if str_eq r.id id then suc rest else rest

-- `history.iter().rev().find(|record| record.id == id)`
unfoldable pub last_record : String → List EventRecord → Option EventRecord
last_record id [] = none
last_record id (r ∷ rs) = elim (last_record id rs) [
  | none ↦ if str_eq r.id id then some r else none
  | some later ↦ some later
]

-- `cooldown_met`
unfoldable pub cooldown_met : EventDefinition → ℕ → List EventRecord → Bool
cooldown_met d now history = elim (last_record d.id history) [
  | none ↦ true
  | some r ↦ leb d.cooldown_ms (now - r.started_at_active_ms)
]

-- The phase admits the event: no list of phases, or the phase is on it.
unfoldable pub is_allowed : EventDefinition → String → Bool
is_allowed d phase_id =
    is_empty d.allowed_phase_ids || any (λ id. str_eq id phase_id) d.allowed_phase_ids

-- The record of an event that starts now.
abbrev pub record_of : {F : Type 0} → EventDefinition → SessionState F → EventRecord
record_of d s = record {
  id = d.id;
  started_at_active_ms = s.active_elapsed_ms;
  duration_ms = d.duration_ms;
}

module _ {F R : Type 0} ⦃fl : Floats F⦄ ⦃rg : Rng R⦄ where
  -- `gen_range(0..10_000) < probability`: the one place where the generator advances.
  unfoldable pub draw : EventDefinition → SessionEngine F R → Bool × SessionEngine F R
  draw d e =
      let (n, rng) = Rng.gen_range rg e.rng 10000 in
      (ltb n d.probability_basis_points, record e { rng = rng })

  -- `selected`: the generator is asked only when the tests before it leave the choice open.
  unfoldable pub is_selected : EventDefinition → SessionEngine F R → Bool × SessionEngine F R
  is_selected d e =
      let count = as_u16 (occurrences d.id e.state.event_history) in
      if ltb count d.minimum_occurrences
      then (true, e)
      else if ltb count d.maximum_occurrences
          && cooldown_met d e.state.active_elapsed_ms e.state.event_history
      then draw d e
      else (false, e)

  abbrev announce : Option String → Turn F R → Turn F R
  announce none t = t
  announce (some text) t =
      push (show_instruction text) (set_state (record (state_of t) { instruction = some text }) t)

  -- The body of the loop below `if !selected`.
  unfoldable pub begin_event : EventDefinition → Turn F R → Turn F R
  begin_event d t =
      let s = state_of t in
      let s' : SessionState F = record s {
        current_event = some (record_of d s);
        event_history = s.event_history ++ record_of d s ∷ [];
        statistics = record s.statistics {
          events_started = wrapping_add32 s.statistics.events_started 1;
        };
      } in
      announce d.instruction (push (start_event d.id d.duration_ms) (set_state s' t))

  -- One candidate: whether it was started, and what it leaves.
  unfoldable pub consider : String → String → Turn F R → Bool × Turn F R
  consider phase_id event_id t = elim (find_event event_id (config_of t).events) [
    | none ↦ (false, t)
    | some d ↦
        if not (is_allowed d phase_id)
        then (false, t)
        else (let (selected, e) = is_selected d t.engine in
            if selected
            then (true, begin_event d (record t { engine = e }))
            else (false, record t { engine = e }))
  ]

  -- The loop over the phase's event ids; it breaks at the first event that starts.
  unfoldable pub schedule_from : String → List String → Turn F R → Turn F R
  schedule_from phase_id [] t = t
  schedule_from phase_id (id ∷ ids) t =
      let (started, t') = consider phase_id id t in
      elim started [ true ↦ t' | false ↦ schedule_from phase_id ids t' ]

  unfoldable pub schedule_phase_events : Turn F R → Turn F R
  schedule_phase_events t =
      let phase = phase_at (config_of t).phases (state_of t).phase.index in
      schedule_from phase.id phase.event_ids t
