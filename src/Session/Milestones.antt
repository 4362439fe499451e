-- ===== src/Session/Milestones.antt =====
-- src/session.rs: what the deadlines that `advance_to_active` looks at say of the time between them.
use curator_rs.Prelude.{
  ℕ, ◌+◌, ◌-◌, ◌≤◌, ◌<◌, ◌≡◌, ◌≢◌, ◌∙◌, sym, refl, ap, inl, inr, List, [], ◌∷◌, Option, none, some,
  Bool-cases, false, arith, ltb, u64_max, lt→ltb, ltb-false, saturating_add, dec_lt, subst,
}
use curator_rs.Session.Config.{PhaseConfig}
use curator_rs.Session.Clock.{locate, boundary_from, is_some_at, unwrap_or, earliest_after}

-- No boundary in (a, x]: the deadline is absent or later than x.
abbrev pub IsAfter : ℕ → Option ℕ → Type 0
IsAfter x none = Unit {0}
IsAfter x (some d) = x < d

-- Below the cap of `u64` a boundary that lies behind is the exact sum.
exact_sum :
    (b d a x : ℕ)
    → a < x
    → x ≤ u64_max
    → saturating_add b d ≤ a
    → (saturating_add b d ≡ b + d) × (b + d ≤ a)
exact_sum b d a x k m h = omega arith

-- One step of `locate` at a time that has passed the phase.
locate_past :
    {F : Type 0} (p q : PhaseConfig F) (ps : List (PhaseConfig F)) (c b x : ℕ)
    → b + p.duration_ms ≤ x
    → locate (p ∷ q ∷ ps) c (x - b) ≡ locate (q ∷ ps) (c + 1) (x - (b + p.duration_ms))
unfolding locate
locate_past p q ps c b x h =
    let e : ltb (x - b) p.duration_ms ≡ false = ltb-false _ _ (omega arith) in
    let f : x - b - p.duration_ms ≡ x - (b + p.duration_ms) = omega arith in rw (e, f)

locate_within :
    {F : Type 0} (p q : PhaseConfig F) (ps : List (PhaseConfig F)) (c r : ℕ)
    → r < p.duration_ms
    → (locate (p ∷ q ∷ ps) c r).0 ≡ c
unfolding locate
locate_within p q ps c r h = rw (lt→ltb _ _ h)

boundary_past :
    {F : Type 0} (p q : PhaseConfig F) (ps : List (PhaseConfig F)) (b a : ℕ)
    → saturating_add b p.duration_ms ≤ a
    → boundary_from (p ∷ q ∷ ps) b a ≡ boundary_from (q ∷ ps) (saturating_add b p.duration_ms) a
unfolding boundary_from
boundary_past p q ps b a h = rw (ltb-false a (saturating_add b p.duration_ms) h)

boundary_within :
    {F : Type 0} (p q : PhaseConfig F) (ps : List (PhaseConfig F)) (b a : ℕ)
    → a < saturating_add b p.duration_ms
    → boundary_from (p ∷ q ∷ ps) b a ≡ some (saturating_add b p.duration_ms)
unfolding boundary_from
boundary_within p q ps b a h = rw (lt→ltb a (saturating_add b p.duration_ms) h)

-- Between two boundaries the phase stays the same.
pub locate_between :
    {F : Type 0} (ps : List (PhaseConfig F)) (c b a x : ℕ)
    → b ≤ a
    → a < x
    → x ≤ u64_max
    → IsAfter x (boundary_from ps b a)
    → (locate ps c (x - b)).0 ≡ (locate ps c (a - b)).0
locate_between [] c b a x h k m n = unfold locate in refl
locate_between (p ∷ []) c b a x h k m n = unfold locate in refl
locate_between (p ∷ q ∷ ps) c b a x h k m n = elim (dec_lt a (saturating_add b p.duration_ms)) [
  | yes within ↦
      let o = subst (IsAfter x) (boundary_within p q ps b a within) n in
      rw
        (locate_within p q ps c (x - b) (omega arith), locate_within p q ps c (a - b) (omega arith))
  | no past ↦
      let (s, l) = exact_sum b p.duration_ms a x k m (omega arith) in
      let o = subst (IsAfter x) (boundary_past p q ps b a (omega arith)) n in
      ap (λ y. y.0) (locate_past p q ps c b x (omega arith))
      ∙ locate_between (q ∷ ps) (c + 1) (b + p.duration_ms) a x l k m
          (subst (λ y. IsAfter x (boundary_from (q ∷ ps) y a)) s o)
      ∙ sym (ap (λ y. y.0) (locate_past p q ps c b a l))
]

pub boundary_between :
    {F : Type 0} (ps : List (PhaseConfig F)) (b a x : ℕ)
    → a ≤ x
    → IsAfter x (boundary_from ps b a)
    → boundary_from ps b x ≡ boundary_from ps b a
unfolding boundary_from
boundary_between [] b a x k n = refl
boundary_between (p ∷ []) b a x k n = refl
boundary_between (p ∷ q ∷ ps) b a x k n =
    ground (arith, boundary_between (q ∷ ps) (saturating_add b p.duration_ms) a x)

-- The earliest deadline after `a` for two targets, of which the nearer comes first.
pub earliest_between :
    (a near far : ℕ) (d p : Option ℕ)
    → a < near
    → near ≤ far
    → unwrap_or (earliest_after a (some near ∷ d ∷ p ∷ [])) near
      ≢ unwrap_or (earliest_after a (some far ∷ d ∷ p ∷ [])) far
    → (is_some_at d near ≡ false)
      × (near < far)
      × (unwrap_or (earliest_after a (some near ∷ d ∷ p ∷ [])) near ≡ near)
      × (unwrap_or (earliest_after near (some far ∷ d ∷ p ∷ [])) far
          ≡ unwrap_or (earliest_after a (some far ∷ d ∷ p ∷ [])) far)
earliest_between a near far d p h k n = ground arith

-- And a deadline behind `a` is no boundary up to the nearer target.
pub IsAfter_between :
    (a near far : ℕ) (d p : Option ℕ)
    → a < near
    → near ≤ far
    → IsAfter a p
    → unwrap_or (earliest_after a (some near ∷ d ∷ p ∷ [])) near
      ≢ unwrap_or (earliest_after a (some far ∷ d ∷ p ∷ [])) far
    → IsAfter near p
IsAfter_between a near far d none h k o n = tt
IsAfter_between a near far d (some m) h k o n = ground arith

pub boundary_from-IsAfter :
    {F : Type 0} (ps : List (PhaseConfig F)) (b a : ℕ) → IsAfter a (boundary_from ps b a)
unfolding boundary_from
boundary_from-IsAfter [] b a = tt
boundary_from-IsAfter (p ∷ []) b a = tt
boundary_from-IsAfter (p ∷ q ∷ ps) b a =
    elim (Bool-cases (ltb a (saturating_add b p.duration_ms))) [
      | inl more ↦ rw (more, boundary_from) (ground arith)
      | inr done ↦
          rw (done, boundary_from)
            (boundary_from-IsAfter (q ∷ ps) (saturating_add b p.duration_ms) a)
    ]
