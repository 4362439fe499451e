-- ===== src/Groups/Descendants.antt =====
-- src/routes/groups.rs: `group_is_self_or_descendant`, the check before a group moves.
use curator_rs.Prelude.{
  ℕ, zero, suc, ◌≤◌, ◌≡◌, ◌∙◌, sym, ap, subst, Bool, true, false, not, ◌&&◌, ◌||◌, Bool-cases,
  Option-cases, inl, inr, Option, some, none, List, [], ◌∷◌, ◌==◌, ==_iff, if◌then◌else◌, member,
  length, IsDistinct, arith,
}
use curator_rs.Groups.Tree.{Group, group_ids, parent_of, chain_of}
use curator_rs.Groups.Ancestors.{
  Ancestor, self, above, parent_of-member, unseen, unseen-cons-lt, unseen-le-length,
}
use curator_rs.Groups.Chain.{chain_of_iff}

-- `g.parent_id = d.id`, for the group or one of the rows that the query has.
unfoldable pub is_under : ℕ → List ℕ → Option ℕ → Bool
is_under id found none = false
is_under id found (some p) = id == p || member p found

-- A row that the query takes next: `UNION` leaves out those that it has.
unfoldable pub next_row : ℕ → List ℕ → List Group → Option ℕ
next_row id found [] = none
next_row id found (g ∷ gs) =
    let rest = next_row id found gs in
    if is_under id found g.parent_id && not (member g.id found) then some g.id else rest

abbrev or_stop : List ℕ → (ℕ → List ℕ) → Option ℕ → List ℕ
or_stop found go none = found
or_stop found go (some new) = go new

-- The recursive query, with fuel for each row.
unfoldable pub descendants_from : ℕ → ℕ → List Group → List ℕ → List ℕ
descendants_from zero id gs found = found
descendants_from (suc fuel) id gs found =
    or_stop found (λ new. descendants_from fuel id gs (new ∷ found)) (next_row id found gs)

unfoldable pub group_is_self_or_descendant : List Group → ℕ → ℕ → Bool
group_is_self_or_descendant gs candidate id =
    candidate == id || member candidate (descendants_from (length gs) id gs [])

-- A set that holds each row under the group or under one of the set.
abbrev IsClosed : List Group → ℕ → List ℕ → Type 0
IsClosed gs id found =
    (x p : ℕ) → parent_of x gs ≡ some p → is_under id found (some p) ≡ true → member x found ≡ true

next_row-IsClosed :
    (id : ℕ) (found : List ℕ) (gs : List Group) → next_row id found gs ≡ none → IsClosed gs id found
unfolding next_row parent_of
next_row-IsClosed id found [] n x p e u = absurd (cc)
next_row-IsClosed id found (g ∷ gs) n x p e u = elim (Bool-cases (g.id == x)) [
  | inl t ↦
      let same : member g.id found ≡ member x found =
        ap (λ i. member i found) ((==_iff g.id x).0 t) in
      let taken : is_under id found g.parent_id ≡ is_under id found (some p) =
        ap (is_under id found) (ground arith) in
      ground arith
  | inr f ↦ next_row-IsClosed id found gs (ground arith) x p (ground arith) u
]

next_row-new :
    (id : ℕ) (found : List ℕ) (gs : List Group) (new : ℕ)
    → next_row id found gs ≡ some new
    → (member new found ≡ false) × (member new (group_ids gs) ≡ true)
unfolding next_row
next_row-new id found [] new n = absurd (cc)
next_row-new id found (g ∷ gs) new n =
    elim (Bool-cases (is_under id found g.parent_id && not (member g.id found))) [
      | inl t ↦
          let same : g.id ≡ new = ground arith in
          let there : member g.id found ≡ member new found = ap (λ i. member i found) same in
          (ground arith, ground (arith, ==_iff g.id new))
      | inr f ↦ let rest = next_row-new id found gs new (ground arith) in (rest.0, ground arith)
    ]

descendants_from-IsClosed :
    (fuel id : ℕ) (gs : List Group) (found : List ℕ)
    → unseen found gs ≤ fuel
    → IsClosed gs id (descendants_from fuel id gs found)
unfolding descendants_from
descendants_from-IsClosed zero id gs found h x p e u = elim (Bool-cases (member x found)) [
  | inl t ↦ t
  | inr f ↦
      let fewer = unseen-cons-lt x found gs (parent_of-member x p gs e) f in
      absurd (omega (arith, fewer, h))
]
descendants_from-IsClosed (suc fuel) id gs found h x p e u =
    let taken = or_stop found (λ new. descendants_from fuel id gs (new ∷ found)) in
    elim (Option-cases (next_row id found gs)) [
      | inl n ↦
          let stops = ap taken n in
          subst (λ s. member x s ≡ true) (sym stops)
            (next_row-IsClosed id found gs n x p e
              (subst (λ s. is_under id s (some p) ≡ true) stops u))
      | inr (new, n) ↦
          let (out, there) = next_row-new id found gs new n in
          let fewer = unseen-cons-lt new found gs there out in
          let goes = ap taken n in
          subst (λ s. member x s ≡ true) (sym goes)
            (descendants_from-IsClosed fuel id gs (new ∷ found) (omega (arith, fewer, h)) x p e
              (subst (λ s. is_under id s (some p) ≡ true) goes u))
    ]

-- Each row that the query takes is a group under the given one.
next_row-Ancestor :
    (id : ℕ) (found : List ℕ) (gs : List Group) (new : ℕ)
    → IsDistinct (group_ids gs)
    → next_row id found gs ≡ some new
    → (p : ℕ) × (parent_of new gs ≡ some p) × (is_under id found (some p) ≡ true)
unfolding next_row parent_of is_under
next_row-Ancestor id found [] new d n = absurd (cc)
next_row-Ancestor id found (g ∷ gs) new (d, ds) n =
    elim (Bool-cases (is_under id found g.parent_id && not (member g.id found))) [
      | inl t ↦
          let same : g.id ≡ new = ground arith in
          elim (Option-cases g.parent_id) [
            | inl e ↦
                let none_under : is_under id found g.parent_id ≡ false = ap (is_under id found) e in
                absurd (ground arith)
            | inr (p, e) ↦
                let under : is_under id found g.parent_id ≡ is_under id found (some p) =
                  ap (is_under id found) e in
                (p, ground (arith, ==_iff g.id new), ground arith)
          ]
      | inr f ↦
          let (p, e, u) = next_row-Ancestor id found gs new ds (ground arith) in
          let there = parent_of-member new p gs e in
          let other : (g.id == new) ≡ false = elim (Bool-cases (g.id == new)) [
            | inl t ↦
                let bad : member g.id (group_ids gs) ≡ member new (group_ids gs) =
                  ap (λ i. member i (group_ids gs)) ((==_iff g.id new).0 t) in
                absurd (ground arith)
            | inr f ↦ f
          ] in
          (p, ground arith, u)
    ]

under-Ancestor :
    (id : ℕ) (gs : List Group) (found : List ℕ)
    → ((x : ℕ) → member x found ≡ true → Ancestor gs x id)
    → (p : ℕ) → is_under id found (some p) ≡ true
    → Ancestor gs p id
unfolding is_under
under-Ancestor id gs found h p u = elim (Bool-cases (id == p)) [
  | inl t ↦ subst (λ i. Ancestor gs p i) (sym ((==_iff id p).0 t)) (self p)
  | inr f ↦ h p (ground arith)
]

cons-Ancestor :
    (id new : ℕ) (gs : List Group) (found : List ℕ)
    → ((x : ℕ) → member x found ≡ true → Ancestor gs x id)
    → Ancestor gs new id
    → (x : ℕ) → member x (new ∷ found) ≡ true
    → Ancestor gs x id
cons-Ancestor id new gs found h a x m = elim (Bool-cases (new == x)) [
  | inl t ↦ subst (λ i. Ancestor gs i id) ((==_iff new x).0 t) a
  | inr f ↦ h x (ground arith)
]

descendants_from-Ancestor :
    (fuel id : ℕ) (gs : List Group) (found : List ℕ)
    → IsDistinct (group_ids gs)
    → ((x : ℕ) → member x found ≡ true → Ancestor gs x id)
    → (x : ℕ) → member x (descendants_from fuel id gs found) ≡ true
    → Ancestor gs x id
unfolding descendants_from
descendants_from-Ancestor zero id gs found d h x m = h x m
descendants_from-Ancestor (suc fuel) id gs found d h x m =
    let taken = or_stop found (λ new. descendants_from fuel id gs (new ∷ found)) in
    elim (Option-cases (next_row id found gs)) [
      | inl n ↦ h x (subst (λ o. member x (taken o) ≡ true) n m)
      | inr (new, n) ↦
          let (p, e, u) = next_row-Ancestor id found gs new d n in
          let up = under-Ancestor id gs found h p u in
          descendants_from-Ancestor fuel id gs (new ∷ found) d
            (cons-Ancestor id new gs found h (above e up)) x
            (subst (λ o. member x (taken o) ≡ true) n m)
    ]

self_or_descendant-Ancestor :
    (gs : List Group) (candidate id : ℕ)
    → IsDistinct (group_ids gs)
    → group_is_self_or_descendant gs candidate id ≡ true
    → Ancestor gs candidate id
unfolding group_is_self_or_descendant
self_or_descendant-Ancestor gs candidate id d h = elim (Bool-cases (candidate == id)) [
  | inl t ↦ subst (Ancestor gs candidate) ((==_iff candidate id).0 t) (self candidate)
  | inr f ↦
      descendants_from-Ancestor (length gs) id gs [] d (λ x m. absurd (cc)) candidate (ground arith)
]

-- Each group under the group is found, also where two rows have an id in common.
pub Ancestor-self_or_descendant :
    {gs : List Group} {candidate id : ℕ}
    → Ancestor gs candidate id
    → group_is_self_or_descendant gs candidate id ≡ true
unfolding group_is_self_or_descendant is_under
Ancestor-self_or_descendant (self a) = ground (arith, ==_iff a a)
Ancestor-self_or_descendant {gs} {candidate} {id} (above {a} {p} e q) =
    let rest = Ancestor-self_or_descendant q in
    let closed = descendants_from-IsClosed (length gs) id gs [] (unseen-le-length [] gs) a p e in
    ground (arith, ==_iff p id, ==_iff id p)

-- The recursive query before a move and the loop that makes the chains agree: a group is the given
-- one or under it, for the query, when the given one is on the chain of the group.
pub self_or_descendant-chain_of :
    (gs : List Group) (candidate id : ℕ)
    → IsDistinct (group_ids gs)
    → group_is_self_or_descendant gs candidate id ≡ member id (chain_of gs candidate)
self_or_descendant-chain_of gs candidate id d =
    let query = self_or_descendant-Ancestor gs candidate id d in
    let chain = (chain_of_iff gs candidate).0 id in
    elim (Bool-cases (member id (chain_of gs candidate))) [
      | inl t ↦ Ancestor-self_or_descendant (chain.0 t) ∙ sym t
      | inr f ↦ elim (Bool-cases (group_is_self_or_descendant gs candidate id)) [
        | inl t ↦ absurd (ground (arith, chain.1 (query t)))
        | inr g ↦ g ∙ sym f
      ]
    ]
