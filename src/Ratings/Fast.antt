-- ===== src/Ratings/Fast.antt =====
-- src/nsfw.rs, `phar_fast_suggestion` and `nudenet_rating`: what evidence a suggestion needs.
use curator_rs.Prelude.{
  ◌≡◌, ◌↔◌, ◌⊎◌, inl, inr, refl, ap, true, ◌&&◌, Bool-cases, Option, some, none, is_some, List, [],
  ◌∷◌, ◌++◌, arith,
}
use curator_rs.Session.Floats.{Floats}
use curator_rs.Ratings.Policy.{
  ActionWindow, is_fast, follows, suggest, phar_fast_suggestion, fast_score,
}

module _ {F S : Type 0} ⦃ff : Floats F⦄ ⦃fs : Floats S⦄ where
  -- Two windows one after the other are fast, and the second begins where the first ends or soon
  -- after.
  abbrev pub HasFastPair : List (ActionWindow F S) → Type 0
  HasFastPair ws =
      (before : List (ActionWindow F S)) × (w : ActionWindow F S) × (v : ActionWindow F S)
      × (after : List (ActionWindow F S)) × (ws ≡ before ++ w ∷ v ∷ after)
      × (is_fast w ≡ true)
      × (is_fast v ≡ true)
      × (follows (some w.end_secs) v ≡ true)

  -- The first window is fast and completes a pair with the window before it.
  abbrev Completes : Option F → List (ActionWindow F S) → Type 0
  Completes last [] = ⊥
  Completes last (w ∷ ws) = (is_fast w ≡ true) × (follows last w ≡ true)

  HasFastPair-cons :
      (w : ActionWindow F S) (ws : List (ActionWindow F S)) → HasFastPair ws → HasFastPair (w ∷ ws)
  HasFastPair-cons w ws (before, a, b, after, e, x, y, z) =
      (w ∷ before, a, b, after, ap (λ l. w ∷ l) e, x, y, z)

  after_kept :
      (w : ActionWindow F S) (ws : List (ActionWindow F S))
      → is_fast w ≡ true
      → Completes (some w.end_secs) ws ⊎ HasFastPair ws
      → HasFastPair (w ∷ ws)
  after_kept w [] h (inl c) = absurd c
  after_kept w (v ∷ ws) h (inl (c, d)) = ([], w, v, ws, refl, h, c, d)
  after_kept w ws h (inr p) = HasFastPair-cons w ws p

  after_reset :
      (w : ActionWindow F S) (ws : List (ActionWindow F S))
      → Completes none ws ⊎ HasFastPair ws
      → HasFastPair (w ∷ ws)
  unfolding follows
  after_reset w [] (inl c) = absurd c
  after_reset w (v ∷ ws) (inl (c, d)) = absurd (cc)
  after_reset w ws (inr p) = HasFastPair-cons w ws p

  suggest_sound :
      (last : Option F) (score : S) (ws : List (ActionWindow F S))
      → is_some (suggest last score ws) ≡ true
      → Completes last ws ⊎ HasFastPair ws
  unfolding suggest
  suggest_sound last score [] h = absurd (ground arith)
  suggest_sound last score (w ∷ ws) h = elim (Bool-cases (is_fast w)) [
    | inl fast ↦ elim (Bool-cases (Floats.le fs fast_score score && follows last w)) [
      | inl complete ↦ inl (fast, ground arith)
      | inr open_pair ↦
          inr (after_kept w ws fast (suggest_sound (some w.end_secs) w.score ws (ground arith)))
    ]
    | inr slow ↦
        inr (after_reset w ws (suggest_sound none (Floats.of_ratio fs 0 1) ws (ground arith)))
  ]

  suggest_complete :
      (last : Option F) (score : S) (before : List (ActionWindow F S)) (w v : ActionWindow F S)
      (after : List (ActionWindow F S))
      → is_fast w ≡ true
      → is_fast v ≡ true
      → follows (some w.end_secs) v ≡ true
      → is_some (suggest last score (before ++ w ∷ v ∷ after)) ≡ true
  unfolding suggest is_fast
  suggest_complete last score [] w v after h k f = ground arith
  suggest_complete last score (u ∷ before) w v after h k f = ground (
    arith,
    suggest_complete (some u.end_secs) u.score before w v after h k f,
    suggest_complete none (Floats.of_ratio fs 0 1) before w v after h k f,
  )

  no_completion : (ws : List (ActionWindow F S)) → Completes none ws → HasFastPair ws
  unfolding follows
  no_completion [] c = absurd c
  no_completion (w ∷ ws) c = absurd (cc (c.1))

  -- The classifier of actions suggests a fast pace exactly if two windows in a row qualify and the
  -- second begins at most three quarters of a second after the first has ended.
  pub phar_fast_suggestion_iff :
      (ws : List (ActionWindow F S)) → (is_some (phar_fast_suggestion ws) ≡ true) ↔ HasFastPair ws
  unfolding phar_fast_suggestion
  phar_fast_suggestion_iff ws = (
    λ h. elim (suggest_sound none (Floats.of_ratio fs 0 1) ws h) [
      | inl c ↦ no_completion ws c
      | inr p ↦ p
    ],
    λ p. rw p.4 (suggest_complete none (Floats.of_ratio fs 0 1) p.0 p.1 p.2 p.3 p.5 p.6 p.7),
  )
