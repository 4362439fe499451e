-- ===== src/Groups/Ancestors.antt =====
-- The groups above a group, by the parents in the table, and sets of groups that hold them.
use curator_rs.Prelude.{
  ℕ, ◌≤◌, ◌<◌, ◌≡◌, true, false, not, Bool-cases, inl, inr, some, List, [], ◌∷◌, ◌==◌, ==_iff,
  member, keep, length, arith,
}
use curator_rs.Groups.Tree.{Group, group_ids, parent_of}

pub data Ancestor (gs : List Group) : ℕ → ℕ → Type 0 where
  self : (a : ℕ) → Ancestor gs a a
  above : {a p b : ℕ} → parent_of a gs ≡ some p → Ancestor gs p b → Ancestor gs a b

pub Ancestor-trans :
    {gs : List Group} {a b c : ℕ} → Ancestor gs a b → Ancestor gs b c → Ancestor gs a c
Ancestor-trans (self a) q = q
Ancestor-trans (above e p) q = above e (Ancestor-trans p q)

-- A group that has a parent is in the table.
pub parent_of-member :
    (a p : ℕ) (gs : List Group) → parent_of a gs ≡ some p → member a (group_ids gs) ≡ true
unfolding parent_of
parent_of-member a p [] h = absurd (cc)
parent_of-member a p (g ∷ gs) h = ground (arith, parent_of-member a p gs)

-- How many rows have an id that is not in the set.
abbrev pub unseen : List ℕ → List Group → ℕ
unseen seen gs = length (keep (λ g. not (member g.id seen)) gs)

pub unseen-cons-le :
    (a : ℕ) (seen : List ℕ) (gs : List Group) → unseen (a ∷ seen) gs ≤ unseen seen gs
unseen-cons-le a seen [] = omega arith
unseen-cons-le a seen (g ∷ gs) = ground (arith, unseen-cons-le a seen gs)

pub unseen-cons-lt :
    (a : ℕ) (seen : List ℕ) (gs : List Group)
    → member a (group_ids gs) ≡ true
    → member a seen ≡ false
    → unseen (a ∷ seen) gs < unseen seen gs
unseen-cons-lt a seen [] h n = absurd (cc)
unseen-cons-lt a seen (g ∷ gs) h n = elim (Bool-cases (g.id == a)) [
  | inl t ↦
      let same = (==_iff g.id a).0 t in ground (arith, unseen-cons-le a seen gs, ==_iff a g.id)
  | inr f ↦ ground (arith, unseen-cons-lt a seen gs)
]

pub unseen-le-length : (seen : List ℕ) (gs : List Group) → unseen seen gs ≤ length gs
unseen-le-length seen [] = omega arith
unseen-le-length seen (g ∷ gs) = ground (arith, unseen-le-length seen gs)
