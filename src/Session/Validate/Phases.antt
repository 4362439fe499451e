-- ===== src/Session/Validate/Phases.antt =====
-- The loops of `GameConfig::validate` (src/session.rs) against what they are to establish.
use curator_rs.Prelude.{
  String, ◌≤◌, ◌<◌, ◌≡◌, refl, ◌↔◌, true, false, not, List, [], ◌∷◌, arith, All, any, contains, ok,
  Distinct, Disjoint, insert_all, Disjoint-cons,
}
use curator_rs.Text.{is_blank}
use curator_rs.Session.Floats.{Floats}
use curator_rs.Session.Config.{PhaseConfig, EventDefinition}
use curator_rs.Session.Validate.{
  is_blank, is_bad_event, is_multiplier, is_bad_phase, check_phases, check_events, check_known,
  check_references,
}

abbrev pub phase_names : {F : Type 0} → List (PhaseConfig F) → List String
phase_names [] = []
phase_names (p ∷ ps) = p.id ∷ phase_names ps

abbrev pub event_names : List EventDefinition → List String
event_names [] = []
event_names (d ∷ ds) = d.id ∷ event_names ds

abbrev pub AllKnown : List String → List String → Type 0
AllKnown known = All (λ id. contains known id ≡ true)

-- An event that may stand in a configuration with these phases.
pub record GoodEvent (phases : List String) (d : EventDefinition) : Type 0 where
  pub named : is_blank d.id ≡ false
  pub probability : d.probability_basis_points ≤ 10000
  pub occurrences : d.minimum_occurrences ≤ d.maximum_occurrences
  pub lasting : 0 < d.duration_ms
  pub allowed : AllKnown phases d.allowed_phase_ids

any-AllKnown :
    (known ids : List String)
    → (any (λ id. not (contains known id)) ids ≡ false) ↔ AllKnown known ids
any-AllKnown known [] = ground arith
any-AllKnown known (id ∷ ids) = ground (arith, any-AllKnown known ids)

pub check_events_sound :
    (phases seen : List String) (ds : List EventDefinition) {ids : List String}
    → check_events phases seen ds ≡ ok ids
    → All (GoodEvent phases) ds
      × Disjoint seen (event_names ds)
      × Distinct (event_names ds)
      × (ids ≡ insert_all seen (event_names ds))
unfolding check_events is_bad_event
check_events_sound phases seen [] h = (tt, tt, tt, ground arith)
check_events_sound phases seen (d ∷ ds) {ids} h = ground (
  arith,
  check_events_sound phases (d.id ∷ seen) ds {ids = ids},
  any-AllKnown phases d.allowed_phase_ids,
  Disjoint-cons d.id seen (event_names ds),
)

pub check_events_complete :
    (phases seen : List String) (ds : List EventDefinition)
    → All (GoodEvent phases) ds
    → Disjoint seen (event_names ds)
    → Distinct (event_names ds)
    → check_events phases seen ds ≡ ok (insert_all seen (event_names ds))
unfolding check_events is_bad_event
check_events_complete phases seen [] g j n = refl
check_events_complete phases seen (d ∷ ds) g j n = ground (
  arith,
  check_events_complete phases (d.id ∷ seen) ds g.1,
  any-AllKnown phases d.allowed_phase_ids,
  Disjoint-cons d.id seen (event_names ds),
)

check_known_iff :
    (known : List String) (phase : String) (ids : List String)
    → (check_known known phase ids ≡ ok tt) ↔ AllKnown known ids
unfolding check_known
check_known_iff known phase [] = ground arith
check_known_iff known phase (id ∷ ids) = ground (arith, check_known_iff known phase ids)

-- The references of the phases, resolved.
abbrev pub Resolved : {F : Type 0} → List String → List (PhaseConfig F) → Type 0
Resolved known = All (λ p. AllKnown known p.event_ids)

pub check_references_iff :
    {F : Type 0} (known : List String) (ps : List (PhaseConfig F))
    → (check_references known ps ≡ ok tt) ↔ Resolved known ps
unfolding check_references
check_references_iff known [] = ground arith
check_references_iff known (p ∷ ps) =
    ground (arith, check_known_iff known p.id p.event_ids, check_references_iff known ps)

module _ {F : Type 0} ⦃fl : Floats F⦄ where
  pub record GoodPhase (p : PhaseConfig F) : Type 0 where
    pub named : is_blank p.id ≡ false
    pub lasting : 0 < p.duration_ms
    pub multiplier : is_multiplier p.tempo_multiplier ≡ true

  pub check_phases_sound :
      (seen : List String) (ps : List (PhaseConfig F)) {ids : List String}
      → check_phases seen ps ≡ ok ids
      → All GoodPhase ps
        × Disjoint seen (phase_names ps)
        × Distinct (phase_names ps)
        × (ids ≡ insert_all seen (phase_names ps))
  unfolding check_phases is_bad_phase
  check_phases_sound seen [] h = (tt, tt, tt, ground arith)
  check_phases_sound seen (p ∷ ps) {ids} h = ground (
    arith,
    check_phases_sound (p.id ∷ seen) ps {ids = ids},
    Disjoint-cons p.id seen (phase_names ps),
  )

  pub check_phases_complete :
      (seen : List String) (ps : List (PhaseConfig F))
      → All GoodPhase ps
      → Disjoint seen (phase_names ps)
      → Distinct (phase_names ps)
      → check_phases seen ps ≡ ok (insert_all seen (phase_names ps))
  unfolding check_phases is_bad_phase
  check_phases_complete seen [] g j n = refl
  check_phases_complete seen (p ∷ ps) g j n =
      ground (
        arith,
        check_phases_complete (p.id ∷ seen) ps g.1,
        Disjoint-cons p.id seen (phase_names ps),
      )
