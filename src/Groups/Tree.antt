-- ===== src/Groups/Tree.antt =====
-- src/db.rs: the table of groups, and `build_group_ancestry_map`.
use curator_rs.Prelude.{
  ℕ, zero, suc, ◌+◌, Option, some, none, List, [], ◌∷◌, ◌==◌, if◌then◌else◌, member, length,
}

pub record Group : Type 0 where
  pub id : ℕ
  pub parent_id : Option ℕ
  pub name : List ℕ

abbrev pub group_ids : List Group → List ℕ
group_ids [] = []
group_ids (g ∷ gs) = g.id ∷ group_ids gs

-- `parents.get(&id).copied().flatten()`
unfoldable pub parent_of : ℕ → List Group → Option ℕ
parent_of id [] = none
parent_of id (g ∷ gs) = let rest = parent_of id gs in if g.id == id then g.parent_id else rest

-- The loop: the groups above, up to one that was seen. There is fuel for each group, and one more.
unfoldable pub climb : ℕ → List Group → List ℕ → Option ℕ → List ℕ
climb fuel gs seen none = []
climb zero gs seen (some p) = []
climb (suc fuel) gs seen (some p) =
    let above = climb fuel gs (p ∷ seen) (parent_of p gs) in if member p seen then [] else p ∷ above

-- The group itself, its parent, its parent's parent and so on.
unfoldable pub chain_of : List Group → ℕ → List ℕ
chain_of gs id = id ∷ climb (length gs + 1) gs (id ∷ []) (parent_of id gs)

abbrev pub chains : List Group → List ℕ → List (ℕ × List ℕ)
chains gs [] = []
chains gs (id ∷ ids) = (id, chain_of gs id) ∷ chains gs ids

-- An entry for each group.
unfoldable pub build_group_ancestry_map : List Group → List (ℕ × List ℕ)
build_group_ancestry_map gs = chains gs (group_ids gs)
