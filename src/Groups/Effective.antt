-- ===== src/Groups/Effective.antt =====
-- src/db.rs, `build_group_effective_tags_map`: which tags the map has for a group.
use curator_rs.Prelude.{
  ℕ, ◌≡◌, ◌⊎◌, ◌↔◌, ◌∙◌, refl, sym, ap, subst, true, false, Bool-cases, inl, inr, some, List, [],
  ◌∷◌, ◌++◌, ◌==◌, ==_iff, member, is_empty, IsDistinct, arith,
}
use curator_rs.Groups.Tree.{Group, group_ids, chain_of, chains, build_group_ancestry_map}
use curator_rs.Groups.Ancestors.{Ancestor}
use curator_rs.Groups.Chain.{chain_of_iff}
use curator_rs.Groups.Moves.{Tables, normal}
use curator_rs.Groups.Tags.{
  own_tags, name_of, if_named, gather, gather_all, build_group_effective_tags_map, tags_at, IsIn,
  IsIn-append, HasTag, own_tags_iff,
}

module _ (to_lowercase : List ℕ → List ℕ) where
  -- A row of the table `groups` with the id whose name is the text, and not empty.
  abbrev pub HasName : ℕ → List ℕ → List Group → Type 0
  HasName id t gs =
      (g : Group) × IsIn g gs
      × (g.id ≡ id)
      × (normal to_lowercase g.name ≡ t)
      × (is_empty t ≡ false)

  -- A text is the name of the group or one of the tags it has itself.
  abbrev pub IsOwnTag : Tables → ℕ → List ℕ → Type 0
  IsOwnTag db id t = HasName id t db.groups ⊎ HasTag id t db.group_tags db.tags

  if_named_iff :
      (n t : List ℕ) → IsIn t (if_named to_lowercase (some n)) ↔ ((n ≡ t) × (is_empty t ≡ false))
  if_named_iff n t = elim (Bool-cases (is_empty n)) [
    | inl e ↦ rw e (λ h. absurd (h), λ (same, f). absurd (let at = ap is_empty same in cc))
    | inr e ↦ rw e (
      λ h. elim h [ inl same ↦ (same, sym (ap is_empty same) ∙ e) | inr m ↦ absurd (m) ],
      λ (same, f). inl same,
    )
  ]

  IsIn-member : (g : Group) (gs : List Group) → IsIn g gs → member g.id (group_ids gs) ≡ true
  IsIn-member g [] h = absurd (h)
  IsIn-member g (r ∷ gs) (inl e) =
      let at = ap (λ (x : Group). x.id) e in ground (arith, ==_iff r.id g.id)
  IsIn-member g (r ∷ gs) (inr m) = ground (arith, IsIn-member g gs m)

  name_of_iff :
      (id : ℕ) (t : List ℕ) (gs : List Group)
      → IsDistinct (group_ids gs)
      → IsIn t (if_named to_lowercase (name_of to_lowercase id gs)) ↔ HasName id t gs
  unfolding name_of
  name_of_iff id t [] d = (λ h. absurd (h), λ (g, m, _, _, _). absurd (m))
  name_of_iff id t (r ∷ gs) (d, ds) =
      let (to, from) = name_of_iff id t gs ds in
      elim (Bool-cases (member id (group_ids gs))) [
        | inl m ↦ rw m (
          λ h. (let (g, i, same, n, f) = to h in (g, inr i, same, n, f)),
          λ (g, i, same, n, f). elim i [
            | inl here ↦
                let at : r.id ≡ id = ap (λ (x : Group). x.id) here ∙ same in
                absurd (let out = subst (λ k. member k (group_ids gs) ≡ false) at d in cc)
            | inr later ↦ from (g, later, same, n, f)
          ],
        )
        | inr m ↦ rw m (elim (Bool-cases (r.id == id)) [
          | inl e ↦
              let (find, put) = if_named_iff (normal to_lowercase r.name) t in
              rw e (
                λ h. (let (n, f) = find h in (r, inl refl, (==_iff r.id id).0 e, n, f)),
                λ (g, i, same, n, f). elim i [
                  | inl here ↦ put (ap (λ (x : Group). normal to_lowercase x.name) here ∙ n, f)
                  | inr later ↦ absurd (
                      let there = IsIn-member g gs later in
                      let at = subst (λ k. member k (group_ids gs) ≡ true) same there in cc)
                ],
              )
          | inr e ↦ rw e (
            λ h. absurd (h),
            λ (g, i, same, n, f). elim i [
              | inl here ↦
                  let at : r.id ≡ id = ap (λ (x : Group). x.id) here ∙ same in
                  absurd (ground (arith, ==_iff r.id id))
              | inr later ↦ absurd (
                  let there = IsIn-member g gs later in
                  let at = subst (λ k. member k (group_ids gs) ≡ true) same there in cc)
            ],
          )
        ])
      ]

  gather_iff :
      (t : List ℕ) (chain : List ℕ) (db : Tables)
      → IsDistinct (group_ids db.groups)
      → IsIn t (gather to_lowercase chain db)
        ↔ ((a : ℕ) × (member a chain ≡ true) × IsOwnTag db a t)
  unfolding gather
  gather_iff t [] db d = (λ h. absurd (h), λ (a, m, _). absurd (cc))
  gather_iff t (id ∷ chain) db d =
      let (to, from) = gather_iff t chain db d in
      let (name, unname) = name_of_iff id t db.groups d in
      let (own, unown) = own_tags_iff id t db.group_tags db.tags in
      let tags = own_tags id db.group_tags db.tags ++ gather to_lowercase chain db in
      let (split, join) =
        IsIn-append t (if_named to_lowercase (name_of to_lowercase id db.groups)) tags in
      let (split', join') =
        IsIn-append t (own_tags id db.group_tags db.tags) (gather to_lowercase chain db) in
      let here : member id (id ∷ chain) ≡ true = ground (arith, ==_iff id id) in
      (
        λ h. elim (split h) [
          | inl n ↦ (id, here, inl (name n))
          | inr n ↦ elim (split' n) [
            | inl o ↦ (id, here, inr (own o))
            | inr o ↦ let (a, m, is) = to o in (a, ground arith, is)
          ]
        ],
        λ (a, m, is). elim (Bool-cases (id == a)) [
          | inl e ↦ elim (subst (λ x. IsOwnTag db x t) (sym ((==_iff id a).0 e)) is) [
            | inl n ↦ join (inl (unname n))
            | inr n ↦ join (inr (join' (inl (unown n))))
          ]
          | inr e ↦ join (inr (join' (inr (from (a, ground arith, is)))))
        ],
      )

  tags_at-gather_all :
      (gs ids : List Group) (id : ℕ) (db : Tables)
      → member id (group_ids ids) ≡ true
      → tags_at id (gather_all to_lowercase (chains gs (group_ids ids)) db)
        ≡ some (gather to_lowercase (chain_of gs id) db)
  unfolding tags_at
  tags_at-gather_all gs [] id db h = absurd (cc)
  tags_at-gather_all gs (g ∷ ids) id db h = elim (Bool-cases (g.id == id)) [
    | inl e ↦ rw e (ap (λ k. some (gather to_lowercase (chain_of gs k) db)) ((==_iff g.id id).0 e))
    | inr e ↦ rw e (tags_at-gather_all gs ids id db (ground arith))
  ]

  -- When the ids are distinct, the map has an entry for each group, and a text is a tag of the entry
  -- exactly when the group or one above it has it as a tag or, trimmed and in small letters, as its
  -- name, a name that is empty then left out.
  pub tags_at-build_map :
      (db : Tables) (id : ℕ)
      → IsDistinct (group_ids db.groups)
      → member id (group_ids db.groups) ≡ true
      → (tags : List (List ℕ)) × (tags_at id (build_group_effective_tags_map to_lowercase db)
          ≡ some tags)
        × ((t : List ℕ) → IsIn t tags ↔ ((a : ℕ) × Ancestor db.groups id a × IsOwnTag db a t))
  unfolding build_group_effective_tags_map build_group_ancestry_map
  tags_at-build_map db id d h = (
    gather to_lowercase (chain_of db.groups id) db,
    tags_at-gather_all db.groups db.groups id db h,
    λ t.
        (let (to, from) = gather_iff t (chain_of db.groups id) db d in
          (
            λ i. (let (a, m, is) = to i in (a, ((chain_of_iff db.groups id).0 a).0 m, is)),
            λ (a, up, is). from (a, ((chain_of_iff db.groups id).0 a).1 up, is),
          )),
  )
