-- ===== src/Session/Validate/Accepts.antt =====
-- `GameConfig::validate` (src/session.rs) against its specification.
use curator_rs.Prelude.{
  String, ◌≤◌, ◌<◌, ◌≡◌, ◌↔◌, true, false, List, [], ◌∷◌, arith, All, length, contains, ok,
  Distinct, Disjoint-nil, insert_all, contains_iff, Elem-insert_all, Result-cases, inl, inr,
}
use curator_rs.Session.Floats.{Floats}
use curator_rs.Session.Config.{PhaseConfig, EventDefinition, GameConfig}
use curator_rs.Session.Validate.{is_multiplier, is_bad_tempo, check_phases, check_events, validate}
use curator_rs.Session.Validate.Phases.{
  phase_names, event_names, AllKnown, GoodEvent, GoodPhase, Resolved, check_events_sound,
  check_events_complete, check_references_iff, check_phases_sound, check_phases_complete,
}

-- Membership in the set is membership in the list that went into it.
contains-insert_all :
    (xs : List String) (s : String) → contains (insert_all [] xs) s ≡ contains xs s
contains-insert_all xs s =
    ground (arith, contains_iff (insert_all [] xs) s, contains_iff xs s, Elem-insert_all s [] xs)

AllKnown-insert_all :
    (known ids : List String) → AllKnown (insert_all [] known) ids ↔ AllKnown known ids
AllKnown-insert_all known [] = ground arith
AllKnown-insert_all known (id ∷ ids) =
    ground (arith, contains-insert_all known id, AllKnown-insert_all known ids)

GoodEvent-insert_all :
    (known : List String) (ds : List EventDefinition)
    → All (GoodEvent (insert_all [] known)) ds ↔ All (GoodEvent known) ds
GoodEvent-insert_all known [] = ground arith
GoodEvent-insert_all known (d ∷ ds) =
    ground (arith, AllKnown-insert_all known d.allowed_phase_ids, GoodEvent-insert_all known ds)

module _ {F : Type 0} ⦃fl : Floats F⦄ where
  Resolved-insert_all :
      (known : List String) (ps : List (PhaseConfig F))
      → Resolved (insert_all [] known) ps ↔ Resolved known ps
  Resolved-insert_all known [] = ground arith
  Resolved-insert_all known (p ∷ ps) =
      ground (arith, AllKnown-insert_all known p.event_ids, Resolved-insert_all known ps)

  -- What a configuration must satisfy, without the order in which the source looks.
  pub record IsValid (c : GameConfig F) : Type 0 where
    pub schema : c.schema_version ≡ 1
    pub lasting : 0 < c.duration.active_duration_ms
    pub some_phase : 0 < length c.phases
    pub few_phases : length c.phases ≤ 128
    pub difficulty : is_multiplier c.difficulty.tempo_multiplier ≡ true
    pub tempo : is_bad_tempo c.tempo ≡ false
    pub phases : All GoodPhase c.phases
    pub distinct_phases : Distinct (phase_names c.phases)
    pub events : All (GoodEvent (phase_names c.phases)) c.events
    pub distinct_events : Distinct (event_names c.events)
    pub resolved : Resolved (event_names c.events) c.phases

  validate_sound : (c : GameConfig F) → validate c ≡ ok tt → IsValid c
  unfolding validate
  validate_sound c h = elim (Result-cases (check_phases [] c.phases)) [
    | inr (e, p) ↦ ground arith
    | inl (phases, p) ↦ elim (Result-cases (check_events phases [] c.events)) [
      | inr (e, q) ↦ ground arith
      | inl (events, q) ↦ ground (
        arith,
        check_phases_sound [] c.phases p,
        check_events_sound phases [] c.events q,
        GoodEvent-insert_all (phase_names c.phases) c.events,
        check_references_iff events c.phases,
        Resolved-insert_all (event_names c.events) c.phases,
      )
    ]
  ]

  validate_complete : (c : GameConfig F) → IsValid c → validate c ≡ ok tt
  unfolding validate
  validate_complete c v = ground (
    arith,
    check_phases_complete [] c.phases v.phases (Disjoint-nil _) v.distinct_phases,
    check_events_complete (insert_all [] (phase_names c.phases)) [] c.events
        ((GoodEvent-insert_all (phase_names c.phases) c.events).1 v.events) (Disjoint-nil _)
        v.distinct_events,
    check_references_iff (insert_all [] (event_names c.events)) c.phases,
    Resolved-insert_all (event_names c.events) c.phases,
  )

  -- `validate` accepts exactly the configurations of this version with a positive duration, between
  -- 1 and 128 phases, a multiplier and a tempo within their bounds, distinct non-blank ids, phases
  -- and events that last, occurrences and probabilities in order, and references that resolve.
  pub validate_iff : (c : GameConfig F) → (validate c ≡ ok tt) ↔ IsValid c
  validate_iff c = (validate_sound c, validate_complete c)
