-- ===== src/Groups/Rows.antt =====
-- src/routes/groups.rs: the ids and the parents in the table after each statement that changes it.
use curator_rs.Prelude.{
  ℕ, ◌≡◌, ◌≢◌, ◌⊎◌, refl, ap, true, false, not, ◌&&◌, ◌||◌, Bool-cases, Option-cases, inl, inr,
  Option, some, List, [], ◌∷◌, ◌++◌, ◌==◌, ==_iff, if◌then◌else◌, keep, member, IsDistinct, arith,
}
use curator_rs.Groups.Tree.{Group, group_ids, parent_of}
use curator_rs.Groups.Moves.{or_old, write_group, is_child_of, promote}

pub ids-append :
    (gs : List Group) (g : Group) (x : ℕ)
    → member x (group_ids (gs ++ g ∷ [])) ≡ (member x (group_ids gs) || g.id == x)
ids-append [] g x = ground arith
ids-append (h ∷ gs) g x = ground (arith, ids-append gs g x)

pub IsDistinct-append :
    (gs : List Group) (g : Group)
    → IsDistinct (group_ids gs)
    → member g.id (group_ids gs) ≡ false
    → IsDistinct (group_ids (gs ++ g ∷ []))
IsDistinct-append [] g d h = (refl, tt)
IsDistinct-append (r ∷ gs) g (d, ds) h = (
  ground (arith, ids-append gs g r.id, ==_iff g.id r.id, ==_iff r.id g.id),
  IsDistinct-append gs g ds (ground arith),
)

pub parent_of-append :
    (gs : List Group) (g : Group) (x : ℕ)
    → member g.id (group_ids gs) ≡ false
    → parent_of x (gs ++ g ∷ []) ≡ (if g.id == x then g.parent_id else parent_of x gs)
unfolding parent_of
parent_of-append [] g x h = ground arith
parent_of-append (r ∷ gs) g x h =
    ground (arith, parent_of-append gs g x, ==_iff r.id x, ==_iff g.id x, ==_iff r.id g.id)

pub ids-write_group :
    (id : ℕ) (name : Option (List ℕ)) (parent_id : Option (Option ℕ)) (gs : List Group)
    → group_ids (write_group id name parent_id gs) ≡ group_ids gs
unfolding write_group
ids-write_group id name parent_id [] = refl
ids-write_group id name parent_id (g ∷ gs) = ground (arith, ids-write_group id name parent_id gs)

pub parent_of-write_other :
    (id : ℕ) (name : Option (List ℕ)) (parent_id : Option (Option ℕ)) (gs : List Group) (x : ℕ)
    → x ≢ id
    → parent_of x (write_group id name parent_id gs) ≡ parent_of x gs
unfolding write_group parent_of
parent_of-write_other id name parent_id [] x h = refl
parent_of-write_other id name parent_id (g ∷ gs) x h = elim (Bool-cases (g.id == id)) [
  | inl t ↦
      ground (arith, parent_of-write_other id name parent_id gs x, ==_iff g.id x, ==_iff g.id id)
  | inr f ↦ rw f (ground (arith, parent_of-write_other id name parent_id gs x, ==_iff g.id x))
]

pub parent_of-write_own :
    (id : ℕ) (name : Option (List ℕ)) (parent_id : Option (Option ℕ)) (gs : List Group)
    → member id (group_ids gs) ≡ true
    → parent_of id (write_group id name parent_id gs) ≡ or_old parent_id (parent_of id gs)
unfolding write_group parent_of
parent_of-write_own id name parent_id [] h = absurd (cc)
parent_of-write_own id name parent_id (g ∷ gs) h = elim (Bool-cases (g.id == id)) [
  | inl t ↦ rw (t, t) refl
  | inr f ↦ rw (f, f) (parent_of-write_own id name parent_id gs (ground arith))
]

pub ids-promote :
    (id : ℕ) (q : Option ℕ) (gs : List Group) → group_ids (promote id q gs) ≡ group_ids gs
unfolding promote
ids-promote id q [] = refl
ids-promote id q (g ∷ gs) = ground (arith, ids-promote id q gs)

pub parent_of-promote :
    (id : ℕ) (q : Option ℕ) (gs : List Group) (x p : ℕ)
    → parent_of x (promote id q gs) ≡ some p
    → ((parent_of x gs ≡ some p) × (p ≢ id)) ⊎ ((parent_of x gs ≡ some id) × (q ≡ some p))
unfolding promote parent_of
parent_of-promote id q [] x p e = absurd (cc)
parent_of-promote id q (g ∷ gs) x p e = elim (Bool-cases (g.id == x)) [
  | inl t ↦ elim (Option-cases g.parent_id) [
    | inl n ↦
        let other : is_child_of id g.parent_id ≡ false = ap (is_child_of id) n in
        absurd (ground arith)
    | inr (r, n) ↦
        let child : is_child_of id g.parent_id ≡ (r == id) = ap (is_child_of id) n in
        ground (arith, ==_iff r id)
  ]
  | inr f ↦
      let rest = parent_of-promote id q gs x p in
      elim (Bool-cases (is_child_of id g.parent_id)) [
        | inl c ↦ ground (arith, rest)
        | inr c ↦ ground (arith, rest)
      ]
]

pub ids-keep :
    (id : ℕ) (gs : List Group) (x : ℕ)
    → member x (group_ids (keep (λ g. not (g.id == id)) gs))
      ≡ (member x (group_ids gs) && not (x == id))
ids-keep id [] x = refl
ids-keep id (g ∷ gs) x =
    ground (arith, ids-keep id gs x, ==_iff g.id x, ==_iff x g.id, ==_iff g.id id, ==_iff x id)

pub IsDistinct-keep :
    (id : ℕ) (gs : List Group)
    → IsDistinct (group_ids gs)
    → IsDistinct (group_ids (keep (λ g. not (g.id == id)) gs))
IsDistinct-keep id [] d = tt
IsDistinct-keep id (g ∷ gs) (d, ds) = elim (Bool-cases (g.id == id)) [
  | inl t ↦ rw t (IsDistinct-keep id gs ds)
  | inr f ↦ rw f (ground (arith, ids-keep id gs g.id), IsDistinct-keep id gs ds)
]

pub parent_of-keep :
    (id : ℕ) (gs : List Group) (x p : ℕ)
    → parent_of x (keep (λ g. not (g.id == id)) gs) ≡ some p
    → (parent_of x gs ≡ some p) × (x ≢ id)
unfolding parent_of
parent_of-keep id [] x p e = absurd (cc)
parent_of-keep id (g ∷ gs) x p e =
    ground (arith, parent_of-keep id gs x p, ==_iff g.id x, ==_iff g.id id, ==_iff x id)
