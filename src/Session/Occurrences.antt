-- ===== src/Session/Occurrences.antt =====
-- src/session.rs, `schedule_phase_events`: how often an event may start.
use text.Mathlib.Text.{◌==◌ as str_eq}
use curator_rs.Prelude.{
  ℕ, suc, ◌≤◌, ◌<◌, ◌≡◌, refl, true, Bool-cases, Option-cases, subst, sym, inl, inr, ◌⊎◌, List, [],
  ◌∷◌, ◌++◌, some, arith, String, All, eq_iff, ok, if◌then◌else◌, Result-cases,
}
use curator_rs.Session.Floats.{Floats, Rng}
use curator_rs.Session.Config.{GameConfig, EventDefinition}
use curator_rs.Session.State.{EventRecord, SessionEngine, SessionCommand, Turn, state_of, config_of}
use curator_rs.Session.Events.{
  find_event, occurrences, is_allowed, draw, is_selected, record_of, begin_event, consider,
  schedule_from, schedule_phase_events,
}
use curator_rs.Session.Clock.{unwrap_or}
use curator_rs.Session.Dispatch.{run}
use curator_rs.Session.Validate.{validate, initial_state, new}
use curator_rs.Session.Validate.Phases.{GoodEvent}
use curator_rs.Session.Validate.Accepts.{validate_iff}
use curator_rs.Session.History.{run-Kept}

-- The limits of an event are `u16` values in order.
abbrev pub Ordered : EventDefinition → Type 0
Ordered d = (d.minimum_occurrences ≤ d.maximum_occurrences) × (d.maximum_occurrences < 65536)

-- No event of the configuration is in the history more often than its maximum.
abbrev pub IsCapped : {F : Type 0} → GameConfig F → List EventRecord → Type 0
IsCapped c history =
    (id : String) (d : EventDefinition)
    → find_event id c.events ≡ some d
    → occurrences id history ≤ d.maximum_occurrences

abbrev Capped : {F : Type 0} → GameConfig F → List EventRecord → Type 0
Capped c history = All Ordered c.events × IsCapped c history

occurrences-append :
    (id : String) (history : List EventRecord) (r : EventRecord)
    → occurrences id (history ++ r ∷ [])
      ≡ (if str_eq r.id id then suc (occurrences id history) else occurrences id history)
unfolding occurrences
occurrences-append id [] r = ground arith
occurrences-append id (x ∷ history) r = ground (arith, occurrences-append id history r)

find_event-id :
    (id : String) (ds : List EventDefinition) (d : EventDefinition)
    → find_event id ds ≡ some d
    → d.id ≡ id
unfolding find_event
find_event-id id [] d h = cc
find_event-id id (x ∷ ds) d h = ground (arith, eq_iff x.id id, find_event-id id ds d)

find_event-All :
    (P : EventDefinition → Type 0) (id : String) (ds : List EventDefinition) (d : EventDefinition)
    → All P ds
    → find_event id ds ≡ some d
    → P d
unfolding find_event
find_event-All P id [] d g h = absurd (cc)
find_event-All P id (x ∷ ds) d (p, g) h = elim (Bool-cases (str_eq x.id id)) [
  | inl e ↦ let q : x ≡ d = ground arith in subst P q p
  | inr e ↦ find_event-All P id ds d g (ground arith)
]

-- One more start of an event that stood below its maximum.
Capped-append :
    {F : Type 0} (c : GameConfig F) (history : List EventRecord) (d : EventDefinition)
    (r : EventRecord)
    → Capped c history
    → find_event r.id c.events ≡ some d
    → occurrences r.id history < d.maximum_occurrences
    → Capped c (history ++ r ∷ [])
Capped-append c history d r (o, capped) f l = (
  o,
  λ id d' f'. elim (Bool-cases (str_eq r.id id)) [
    | inl same ↦
        let q : r.id ≡ id = (eq_iff r.id id).0 same in
        let g : d ≡ d' = ground arith in ground (arith, occurrences-append id history r)
    | inr other ↦ ground (arith, occurrences-append id history r, capped id d' f')
  ],
)

-- A step that keeps the configuration and the history.
Capped-cong :
    {F : Type 0} {c c' : GameConfig F} {h h' : List EventRecord}
    → c' ≡ c
    → h' ≡ h
    → Capped c h
    → Capped c' h'
Capped-cong {c' = c'} {h = h} p q k = subst (Capped c') (sym q) (subst (λ x. Capped x h) (sym p) k)

Ordered-of_good :
    (phases : List String) (ds : List EventDefinition)
    → All (GoodEvent phases) ds
    → All (λ d. d.maximum_occurrences < 65536) ds
    → All Ordered ds
Ordered-of_good phases [] g h = tt
Ordered-of_good phases (d ∷ ds) (g, gs) (h, hs) =
    ((g.occurrences, h), Ordered-of_good phases ds gs hs)

module _ {F R : Type 0} ⦃fl : Floats F⦄ ⦃rg : Rng R⦄ where
  is_selected-lt :
      (d : EventDefinition) (e : SessionEngine F R)
      → Ordered d
      → occurrences d.id e.state.event_history ≤ d.maximum_occurrences
      → (is_selected d e).0 ≡ true
      → occurrences d.id e.state.event_history < d.maximum_occurrences
  unfolding is_selected draw
  is_selected-lt d e o c h = ground arith

  is_selected-history :
      (d : EventDefinition) (e : SessionEngine F R)
      → ((is_selected d e).1.state ≡ e.state) × ((is_selected d e).1.config ≡ e.config)
  unfolding is_selected draw
  is_selected-history d e = ground arith

  begin_event-history :
      (d : EventDefinition) (t : Turn F R)
      → ((state_of (begin_event d t)).event_history
          ≡ (state_of t).event_history ++ record_of d (state_of t) ∷ [])
        × (config_of (begin_event d t) ≡ config_of t)
  unfolding begin_event
  begin_event-history d t = ground arith

  -- What considering one event does to the configuration and the history.
  consider-history :
      (phase_id id : String) (t : Turn F R)
      → let t' = (consider phase_id id t).1 in
        (config_of t' ≡ config_of t)
        × (((state_of t').event_history ≡ (state_of t).event_history)
            ⊎ ((d : EventDefinition) × (find_event id (config_of t).events ≡ some d)
                × ((is_selected d t.engine).0 ≡ true)
                × ((state_of t').event_history
                    ≡ (state_of t).event_history ++ record_of d (state_of t) ∷ [])))
  unfolding consider
  consider-history phase_id id t = elim (Option-cases (find_event id (config_of t).events)) [
    | inl f ↦ rw (f, consider) (refl, inl refl)
    | inr (d, f) ↦
        let a = is_selected-history d t.engine in
        let b = begin_event-history d (record t { engine = (is_selected d t.engine).1 }) in
        elim (Bool-cases (is_allowed d phase_id)) [
          | inr foreign ↦ rw (f, consider, foreign) (refl, inl refl)
          | inl allowed ↦ elim (Bool-cases (is_selected d t.engine).0) [
            | inr skipped ↦ (ground arith, inl (ground arith))
            | inl selected ↦ (ground arith, inr (d, f, selected, ground arith))
          ]
        ]
  ]

  consider-Capped :
      (phase_id id : String) (t : Turn F R)
      → Capped t.engine.config t.engine.state.event_history
      → let t' = (consider phase_id id t).1 in Capped t'.engine.config t'.engine.state.event_history
  consider-Capped phase_id id t (o, c) =
      let (same, change) = consider-history phase_id id t in
      elim change [
        | inl e ↦ Capped-cong same e (o, c)
        | inr (d, f, selected, e) ↦
            let i = find_event-id id (config_of t).events d f in
            let f' : find_event d.id (config_of t).events ≡ some d =
              subst (λ x. find_event x (config_of t).events ≡ some d) (sym i) f in
            Capped-cong same e (
              Capped-append (config_of t) (state_of t).event_history d (record_of d (state_of t))
                (o, c) f'
                (is_selected-lt d t.engine (find_event-All Ordered id _ d o f) (c d.id d f')
                  selected))
      ]

  schedule_from-Capped :
      (phase_id : String) (ids : List String) (t : Turn F R)
      → Capped t.engine.config t.engine.state.event_history
      → let t' = schedule_from phase_id ids t in
        Capped t'.engine.config t'.engine.state.event_history
  unfolding schedule_from
  schedule_from-Capped phase_id [] t h = h
  schedule_from-Capped phase_id (id ∷ ids) t h = elim (Bool-cases (consider phase_id id t).0) [
    | inl started ↦ rw (started, schedule_from) (consider-Capped phase_id id t h)
    | inr passed ↦
        rw (passed, schedule_from)
          (schedule_from-Capped phase_id ids (consider phase_id id t).1
            (consider-Capped phase_id id t h))
  ]

  schedule_phase_events-Capped :
      (t : Turn F R)
      → Capped t.engine.config t.engine.state.event_history
      → let t' = schedule_phase_events t in Capped t'.engine.config t'.engine.state.event_history
  unfolding schedule_phase_events
  schedule_phase_events-Capped t h = schedule_from-Capped _ _ t h

  new-Capped :
      (seed : ℕ) (c : GameConfig F) (e : SessionEngine F R)
      → All Ordered c.events
      → initial_state seed c ≡ e
      → Capped e.config e.state.event_history
  unfolding initial_state occurrences
  new-Capped seed c e o p =
      subst (λ x. Capped x.config x.state.event_history) p (o, λ id d f. omega arith)

  -- However a session is driven, and whatever its generator draws, no event starts more often than
  -- its configured maximum, which is a `u16`.
  pub run-new-IsCapped :
      (random : ℕ) (c : GameConfig F) (e : SessionEngine F R) (cs : List SessionCommand)
      (id : String) (d : EventDefinition)
      → All (λ d. d.maximum_occurrences < 65536) c.events
      → new random c ≡ ok e
      → find_event id (run cs e).config.events ≡ some d
      → occurrences id (run cs e).state.event_history ≤ d.maximum_occurrences
  unfolding new
  run-new-IsCapped random c e cs id d h n = elim (Result-cases (validate c)) [
    | inl (v, p) ↦
        let o = Ordered-of_good _ c.events ((validate_iff c).0 p).events h in
        (run-Kept Capped schedule_phase_events-Capped cs e
            (new-Capped (unwrap_or c.seed random) c e o (ground arith))).1
          id d
    | inr (x, p) ↦ absurd (ground arith)
  ]
