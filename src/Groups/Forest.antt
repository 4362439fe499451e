-- ===== src/Groups/Forest.antt =====
-- src/routes/groups.rs: the tree that the groups form, and the requests that change it.
use curator_rs.Prelude.{
  ℕ, ◌≡◌, ◌≢◌, ◌⊎◌, ◌∙◌, refl, sym, ap, subst, true, false, not, ◌&&◌, Bool-cases, Option-cases,
  inl, inr, Option, some, none, List, [], ◌∷◌, ◌++◌, ◌==◌, ==_iff, keep, member, IsDistinct, arith,
}
use curator_rs.Groups.Tree.{Group, group_ids, parent_of}
use curator_rs.Groups.Ancestors.{Ancestor, self, above, Ancestor-trans}
use curator_rs.Groups.Descendants.{group_is_self_or_descendant, Ancestor-self_or_descendant}
use curator_rs.Groups.Moves.{or_old, write_group, promote, delete_row}
use curator_rs.Groups.Rows.{
  ids-append, IsDistinct-append, parent_of-append, ids-write_group, parent_of-write_own,
  parent_of-write_other, ids-promote, parent_of-promote, ids-keep, IsDistinct-keep, parent_of-keep,
}

-- The ids are distinct, each parent is in the table, and no group is above itself.
pub record IsForest (gs : List Group) : Type 0 where
  pub distinct : IsDistinct (group_ids gs)
  pub has_parents : (x p : ℕ) → parent_of x gs ≡ some p → member p (group_ids gs) ≡ true
  pub is_acyclic : (x p : ℕ) → parent_of x gs ≡ some p → ¬ Ancestor gs p x

above_absent :
    (gs : List Group)
    → IsForest gs
    → (x new : ℕ) → Ancestor gs x new
    → member new (group_ids gs) ≡ false
    → x ≡ new
above_absent gs f x new (self a) h = refl
above_absent gs f x new (above {a} {p} e q) h =
    let top = above_absent gs f p new q h in let there = f.has_parents a p e in absurd (cc)

-- A step of the table with a new row is one of the old table, or starts at the new row.
module _ (gs : List Group) (g : Group) (f : IsForest gs)
    (h : member g.id (group_ids gs) ≡ false) where
  below_old :
      {a b : ℕ} → Ancestor (gs ++ g ∷ []) a b → member a (group_ids gs) ≡ true → Ancestor gs a b
  below_old (self a) m = self a
  below_old (above {a} {p} e q) m =
      let old = parent_of-append gs g a h in
      let step : parent_of a gs ≡ some p = ground (arith, ==_iff g.id a) in
      above step (below_old q (f.has_parents a p step))

  pub append-IsForest :
      ((p : ℕ) → g.parent_id ≡ some p → member p (group_ids gs) ≡ true) → IsForest (gs ++ g ∷ [])
  append-IsForest hp = record {
    distinct = IsDistinct-append gs g f.distinct h;
    has_parents = λ x p e.
        ground (arith, ids-append gs g p, parent_of-append gs g x h, hp p, f.has_parents x p);
    is_acyclic = λ x p e q. acyclic x p e q;
  }
    where
      acyclic : (x p : ℕ) → parent_of x (gs ++ g ∷ []) ≡ some p → ¬ Ancestor (gs ++ g ∷ []) p x
      acyclic x p e q =
          let at = parent_of-append gs g x h in
          elim (Bool-cases (g.id == x)) [
            | inl t ↦
                let old = below_old q (hp p (ground arith)) in
                let bottom =
                  above_absent gs f p g.id (subst (Ancestor gs p) (sym ((==_iff g.id x).0 t)) old)
                    h in
                absurd (ground (arith, hp p))
            | inr n ↦
                let step : parent_of x gs ≡ some p = ground arith in
                f.is_acyclic x p step (below_old q (f.has_parents x p step))
          ]

-- The groups of a table when one row has a new parent, or none.
module _ (gs : List Group) (id : ℕ) (name : Option (List ℕ)) (parent_id : Option (Option ℕ))
    (f : IsForest gs) (h : member id (group_ids gs) ≡ true) where
  abbrev moved : List Group
  moved = write_group id name parent_id gs

  moved-step :
      (a p : ℕ)
      → parent_of a moved ≡ some p
      → (parent_of a gs ≡ some p) ⊎ ((a ≡ id) × (parent_id ≡ some (some p)))
  moved-step a p e = elim (Bool-cases (a == id)) [
    | inl t ↦
        let same = (==_iff a id).0 t in
        let own : or_old parent_id (parent_of a gs) ≡ some p =
          ap (λ i. or_old parent_id (parent_of i gs)) same
          ∙ sym (parent_of-write_own id name parent_id gs h)
          ∙ sym (ap (λ i. parent_of i moved) same)
          ∙ e in
        elim (Option-cases parent_id) [
          | inl n ↦ inl (ap (λ o. or_old o (parent_of a gs)) (sym n) ∙ own)
          | inr (q, n) ↦ inr (same, n ∙ ap some (ap (λ o. or_old o (parent_of a gs)) (sym n) ∙ own))
        ]
    | inr n ↦ inl (
        sym
          (parent_of-write_other id name parent_id gs a (λ s. absurd (ground (arith, ==_iff a id))))
        ∙ e)
  ]

  -- A path of the new table is one of the old table, or goes through the row and its new parent.
  moved-path :
      {a b : ℕ}
      → Ancestor moved a b
      → Ancestor gs a b
        ⊎ ((p : ℕ) × (parent_id ≡ some (some p)) × Ancestor gs a id × Ancestor gs p b)
  moved-path (self a) = inl (self a)
  moved-path (above {a} {p} {b} e q) = elim (moved-step a p e) [
    | inl step ↦ elim (moved-path q) [
      | inl old ↦ inl (above step old)
      | inr (r, n, to, from) ↦ inr (r, n, above step to, from)
    ]
    | inr (same, new) ↦
        let here = subst (Ancestor gs a) same (self a) in
        elim (moved-path q) [
          | inl old ↦ inr (p, new, here, old)
          | inr (r, n, to, from) ↦ inr (r, n, here, from)
        ]
  ]

  -- What the request checks of a new parent.
  module _
      (guard : (p : ℕ)
        → parent_id ≡ some (some p)
        → (group_is_self_or_descendant gs p id ≡ false) × (member p (group_ids gs) ≡ true)) where
    moved-acyclic : (x p : ℕ) → parent_of x moved ≡ some p → ¬ Ancestor moved p x
    moved-acyclic x p e q =
        let fails : (r : ℕ) → parent_id ≡ some (some r) → ¬ Ancestor gs r id = λ r n path.
          absurd (let found = Ancestor-self_or_descendant path in let no = (guard r n).0 in cc) in
        elim (moved-step x p e) [
          | inl step ↦ elim (moved-path q) [
            | inl old ↦ f.is_acyclic x p step old
            | inr (r, n, to, from) ↦ fails r n (Ancestor-trans from (above step to))
          ]
          | inr (same, new) ↦ elim (moved-path q) [
            | inl old ↦ fails p new (subst (Ancestor gs p) same old)
            | inr (r, n, to, from) ↦ fails p new to
          ]
        ]

    pub write_group-IsForest : IsForest moved
    write_group-IsForest =
        let ids = ids-write_group id name parent_id gs in
        record {
          distinct = subst IsDistinct (sym ids) f.distinct;
          has_parents = λ x p e.
              subst (λ l. member p l ≡ true) (sym ids)
                (elim (moved-step x p e) [
                  | inl step ↦ f.has_parents x p step
                  | inr (same, new) ↦ (guard p new).1
                ]);
          is_acyclic = moved-acyclic;
        }

-- The groups of a table that loses a row, its children moved to its parent.
module _ (gs : List Group) (id : ℕ) (f : IsForest gs) where
  abbrev rest : List Group
  rest = delete_row id (promote id (parent_of id gs) gs)

  -- A step of the new table is one of the old table, or two through the row.
  rest-step :
      (x p : ℕ)
      → parent_of x rest ≡ some p
      → (x ≢ id)
        × (p ≢ id)
        × ((parent_of x gs ≡ some p) ⊎ ((parent_of x gs ≡ some id) × (parent_of id gs ≡ some p)))
  unfolding delete_row
  rest-step x p e = elim (parent_of-promote id none _ x p e) [
    | inl (kept, far) ↦
        let (there, other) = parent_of-keep id _ x p kept in
        elim (parent_of-promote id (parent_of id gs) gs x p there) [
          | inl (old, _) ↦ (other, far, inl old)
          | inr (old, up) ↦ (other, far, inr (old, up))
        ]
    | inr (kept, n) ↦ absurd (cc)
  ]

  rest-path : {a b : ℕ} → Ancestor rest a b → Ancestor gs a b
  rest-path (self a) = self a
  rest-path (above {a} {p} e q) = elim (rest-step a p e).2 [
    | inl old ↦ above old (rest-path q)
    | inr (child, up) ↦ above child (above up (rest-path q))
  ]

  rest-acyclic : (x p : ℕ) → parent_of x rest ≡ some p → ¬ Ancestor rest p x
  rest-acyclic x p e q = elim (rest-step x p e).2 [
    | inl old ↦ f.is_acyclic x p old (rest-path q)
    | inr (child, up) ↦ f.is_acyclic x id child (above up (rest-path q))
  ]

  rest-ids : (x : ℕ) → member x (group_ids rest) ≡ (member x (group_ids gs) && not (x == id))
  unfolding delete_row
  rest-ids x =
      ap (member x)
        (ids-promote id none (keep (λ g. not (g.id == id)) (promote id (parent_of id gs) gs)))
      ∙ ids-keep id (promote id (parent_of id gs) gs) x
      ∙ ap (λ l. member x l && not (x == id)) (ids-promote id (parent_of id gs) gs)

  rest-IsDistinct : IsDistinct (group_ids rest)
  unfolding delete_row
  rest-IsDistinct =
      let promoted = promote id (parent_of id gs) gs in
      subst IsDistinct (sym (ids-promote id none (keep (λ g. not (g.id == id)) promoted))) (
        IsDistinct-keep id promoted
          (subst IsDistinct (sym (ids-promote id (parent_of id gs) gs)) f.distinct))

  rest-parents : (x p : ℕ) → parent_of x rest ≡ some p → member p (group_ids rest) ≡ true
  rest-parents x p e =
      let (other, far, how) = rest-step x p e in
      let there : member p (group_ids gs) ≡ true = elim how [
        | inl old ↦ f.has_parents x p old
        | inr (child, up) ↦ f.has_parents id p up
      ] in
      ground (arith, rest-ids p, ==_iff p id)

  pub delete-IsForest : IsForest rest
  delete-IsForest = record {
    distinct = rest-IsDistinct;
    has_parents = rest-parents;
    is_acyclic = rest-acyclic;
  }
