-- ===== src/Groups/Chain.antt =====
-- src/db.rs, `build_group_ancestry_map`: what the chain of a group holds, with loops in the table too.
use curator_rs.Prelude.{
  ℕ, zero, suc, ◌+◌, ◌<◌, ◌≡◌, ◌⊎◌, ◌↔◌, refl, sym, ap, subst, true, false, ◌||◌, Bool-cases,
  Option-cases, inl, inr, Option, some, none, List, [], ◌∷◌, ◌==◌, ==_iff, member, length,
  IsDistinct, arith,
}
use curator_rs.Groups.Tree.{Group, parent_of, climb, chain_of}
use curator_rs.Groups.Ancestors.{
  Ancestor, self, above, parent_of-member, unseen, unseen-cons-lt, unseen-le-length,
}

climb-Ancestor :
    (fuel : ℕ) (gs : List Group) (seen : List ℕ) (p a : ℕ)
    → member a (climb fuel gs seen (some p)) ≡ true
    → Ancestor gs p a
unfolding climb
climb-Ancestor zero gs seen p a h = absurd (cc)
climb-Ancestor (suc fuel) gs seen p a h = elim (Bool-cases (member p seen)) [
  | inl t ↦ absurd (ground arith)
  | inr f ↦ elim (Bool-cases (p == a)) [
    | inl e ↦ subst (Ancestor gs p) ((==_iff p a).0 e) (self p)
    | inr e ↦ elim (Option-cases (parent_of p gs)) [
      | inl n ↦
          let stops : climb fuel gs (p ∷ seen) (parent_of p gs) ≡ [] =
            ap (climb fuel gs (p ∷ seen)) n in
          absurd (ground arith)
      | inr (q, n) ↦
          let goes : climb fuel gs (p ∷ seen) (parent_of p gs) ≡ climb fuel gs (p ∷ seen) (some q) =
            ap (climb fuel gs (p ∷ seen)) n in
          above n (climb-Ancestor fuel gs (p ∷ seen) q a (ground arith))
    ]
  ]
]

climb_closed :
    (fuel : ℕ) (gs : List Group) (seen : List ℕ) (cur : Option ℕ) (x y : ℕ)
    → (unseen seen gs < fuel) ⊎ (cur ≡ none)
    → ((x y : ℕ)
        → member x seen ≡ true
        → parent_of x gs ≡ some y
        → (member y seen ≡ true) ⊎ (cur ≡ some y))
    → (member x seen || member x (climb fuel gs seen cur)) ≡ true
    → parent_of x gs ≡ some y
    → (member y seen || member y (climb fuel gs seen cur)) ≡ true
unfolding climb
climb_closed fuel gs seen none x y fits pre h e =
    let step = pre x y (ground arith) e in ground arith
climb_closed zero gs seen (some p) x y fits pre h e = absurd (ground arith)
climb_closed (suc fuel) gs seen (some p) x y fits pre h e = elim (Bool-cases (member p seen)) [
  | inl t ↦ let step = pre x y (ground arith) e in ground arith
  | inr f ↦
      let seen' = p ∷ seen in
      let cur' = parent_of p gs in
      let fits' : (unseen seen' gs < fuel) ⊎ (cur' ≡ none) = elim (Option-cases cur') [
        | inl n ↦ inr n
        | inr (q, n) ↦
            let fewer = unseen-cons-lt p seen gs (parent_of-member p q gs n) f in inl (ground arith)
      ] in
      let pre' : (x y : ℕ)
          → member x seen' ≡ true
          → parent_of x gs ≡ some y
          → (member y seen' ≡ true) ⊎ (cur' ≡ some y) =
        λ x y m n. elim (Bool-cases (p == x)) [
          | inl same ↦ inr (subst (λ z. parent_of z gs ≡ some y) (sym ((==_iff p x).0 same)) n)
          | inr other ↦ let step = pre x y (ground arith) n in inl (ground (arith, ==_iff p y))
        ] in
      let more = climb_closed fuel gs seen' cur' x y fits' pre' (ground arith) e in ground arith
]

-- Every group above one of the chain is on the chain.
chain_of-closed :
    (gs : List Group) (id x y : ℕ)
    → member x (chain_of gs id) ≡ true
    → parent_of x gs ≡ some y
    → member y (chain_of gs id) ≡ true
unfolding chain_of
chain_of-closed gs id x y h e =
    let fits = unseen-le-length (id ∷ []) gs in
    let more =
      climb_closed (length gs + 1) gs (id ∷ []) (parent_of id gs) x y (inl (omega (arith, fits)))
        (λ x y m n.
          inr (subst (λ z. parent_of z gs ≡ some y) (sym ((==_iff id x).0 (ground arith))) n))
        (ground arith) e in
    ground arith

chain_of-above :
    (gs : List Group) (id : ℕ) {x a : ℕ}
    → Ancestor gs x a
    → member x (chain_of gs id) ≡ true
    → member a (chain_of gs id) ≡ true
chain_of-above gs id (self a) h = h
chain_of-above gs id (above {a} {p} e q) h = chain_of-above gs id q (chain_of-closed gs id a p h e)

chain_of-Ancestor :
    (gs : List Group) (id a : ℕ) → member a (chain_of gs id) ≡ true → Ancestor gs id a
unfolding chain_of
chain_of-Ancestor gs id a h = elim (Bool-cases (id == a)) [
  | inl t ↦ subst (Ancestor gs id) ((==_iff id a).0 t) (self id)
  | inr f ↦ elim (Option-cases (parent_of id gs)) [
    | inl n ↦
        let stops : climb (length gs + 1) gs (id ∷ []) (parent_of id gs) ≡ [] =
          unfold climb in ap (climb (length gs + 1) gs (id ∷ [])) n in
        absurd (ground arith)
    | inr (q, n) ↦
        let goes = ap (climb (length gs + 1) gs (id ∷ [])) n in
        above n (climb-Ancestor (length gs + 1) gs (id ∷ []) q a (ground arith))
  ]
]

climb-new :
    (fuel : ℕ) (gs : List Group) (seen : List ℕ) (cur : Option ℕ) (a : ℕ)
    → member a seen ≡ true
    → member a (climb fuel gs seen cur) ≡ false
unfolding climb
climb-new fuel gs seen none a h = refl
climb-new zero gs seen (some p) a h = refl
climb-new (suc fuel) gs seen (some p) a h =
    let rest = climb-new fuel gs (p ∷ seen) (parent_of p gs) a (ground arith) in
    ground (arith, ==_iff p a)

climb-IsDistinct :
    (fuel : ℕ) (gs : List Group) (seen : List ℕ) (cur : Option ℕ)
    → IsDistinct (climb fuel gs seen cur)
unfolding climb
climb-IsDistinct fuel gs seen none = tt
climb-IsDistinct zero gs seen (some p) = tt
climb-IsDistinct (suc fuel) gs seen (some p) = elim (Bool-cases (member p seen)) [
  | inl t ↦ rw t tt
  | inr f ↦ rw f (
    climb-new fuel gs (p ∷ seen) (parent_of p gs) p (ground (arith, ==_iff p p)),
    climb-IsDistinct fuel gs (p ∷ seen) (parent_of p gs),
  )
]

-- The chain of a group holds exactly the groups above it and itself, each once, also where the
-- parents in the table go round in a circle.
pub chain_of_iff :
    (gs : List Group) (id : ℕ)
    → ((a : ℕ) → (member a (chain_of gs id) ≡ true) ↔ Ancestor gs id a)
      × IsDistinct (chain_of gs id)
unfolding chain_of
chain_of_iff gs id = (
  λ a. (chain_of-Ancestor gs id a, λ q. chain_of-above gs id q (ground (arith, ==_iff id id))),
  (
    climb-new (length gs + 1) gs (id ∷ []) (parent_of id gs) id (ground (arith, ==_iff id id)),
    climb-IsDistinct (length gs + 1) gs (id ∷ []) (parent_of id gs),
  ),
)
