-- ===== src/Groups/Tags.antt =====
-- src/db.rs: `build_group_effective_tags_map`, the tags that a group's media inherit.
use curator_rs.Prelude.{
  ℕ, ◌≡◌, ◌⊎◌, ◌↔◌, ◌∙◌, refl, sym, ap, Bool-cases, inl, inr, Option, some, none, List, [], ◌∷◌,
  ◌++◌, ◌==◌, ==_iff, if◌then◌else◌, member, is_empty, arith,
}
use curator_rs.Ascii.{same}
use curator_rs.Groups.Tree.{Group, group_ids, build_group_ancestry_map}
use curator_rs.Groups.Moves.{Tag, Tables, normal}

-- The names of the tags with an id: the rows that a join finds.
unfoldable pub names_of : ℕ → List Tag → List (List ℕ)
names_of id [] = []
names_of id (t ∷ tags) = let rest = names_of id tags in if t.id == id then t.name ∷ rest else rest

-- `own_tags.get(id)`
unfoldable pub own_tags : ℕ → List (ℕ × ℕ) → List Tag → List (List ℕ)
own_tags id [] tags = []
own_tags id (r ∷ rows) tags =
    let rest = own_tags id rows tags in if r.0 == id then names_of r.1 tags ++ rest else rest

module _ (to_lowercase : List ℕ → List ℕ) where
  -- `names.get(id)`, in a map where a later row takes the place of one before.
  unfoldable pub name_of : ℕ → List Group → Option (List ℕ)
  name_of id [] = none
  name_of id (g ∷ gs) =
      let rest = name_of id gs in
      if member id (group_ids gs)
      then rest
      else if g.id == id
      then some (normal to_lowercase g.name)
      else none

  abbrev pub if_named : Option (List ℕ) → List (List ℕ)
  if_named none = []
  if_named (some name) = if is_empty name then [] else name ∷ []

  -- The names of the groups of a chain and their tags.
  unfoldable pub gather : List ℕ → Tables → List (List ℕ)
  gather [] db = []
  gather (id ∷ chain) db =
      if_named (name_of id db.groups) ++ (own_tags id db.group_tags db.tags ++ gather chain db)

  abbrev pub gather_all : List (ℕ × List ℕ) → Tables → List (ℕ × List (List ℕ))
  gather_all [] db = []
  gather_all ((id, chain) ∷ rest) db = (id, gather chain db) ∷ gather_all rest db

  unfoldable pub build_group_effective_tags_map : Tables → List (ℕ × List (List ℕ))
  build_group_effective_tags_map db = gather_all (build_group_ancestry_map db.groups) db

-- The tags of a group in the map.
unfoldable pub tags_at : ℕ → List (ℕ × List (List ℕ)) → Option (List (List ℕ))
tags_at id [] = none
tags_at id ((k, tags) ∷ rest) = let more = tags_at id rest in if k == id then some tags else more

-- A list holds an element.
abbrev pub IsIn : {A : Type 0} → A → List A → Type 0
IsIn x [] = ⊥
IsIn x (y ∷ ys) = (y ≡ x) ⊎ IsIn x ys

pub IsIn-append :
    {A : Type 0} (x : A) (xs ys : List A) → IsIn x (xs ++ ys) ↔ (IsIn x xs ⊎ IsIn x ys)
IsIn-append x [] ys = ground arith
IsIn-append x (y ∷ xs) ys = ground (arith, IsIn-append x xs ys)

-- A row of the table `group_tags` with the tag it names.
abbrev pub HasTag : ℕ → List ℕ → List (ℕ × ℕ) → List Tag → Type 0
HasTag id t rows tags = (tag : Tag) × IsIn tag tags × IsIn (id, tag.id) rows × (tag.name ≡ t)

names_of_iff :
    (id : ℕ) (t : List ℕ) (tags : List Tag)
    → IsIn t (names_of id tags) ↔ ((tag : Tag) × IsIn tag tags × (tag.id ≡ id) × (tag.name ≡ t))
unfolding names_of
names_of_iff id t [] = (λ h. absurd (h), λ (tag, m, _, _). absurd (m))
names_of_iff id t (tag ∷ tags) =
    let (to, from) = names_of_iff id t tags in
    elim (Bool-cases (tag.id == id)) [
      | inl e ↦ rw e (
        λ h. elim h [
          | inl n ↦ (tag, inl refl, (==_iff tag.id id).0 e, n)
          | inr m ↦ let (x, i, same, n) = to m in (x, inr i, same, n)
        ],
        λ (x, i, same, n). elim i [
          | inl here ↦ inl (ap (λ (r : Tag). r.name) here ∙ n)
          | inr later ↦ inr (from (x, later, same, n))
        ],
      )
      | inr e ↦ rw e (
        λ h. (let (x, i, same, n) = to h in (x, inr i, same, n)),
        λ (x, i, same, n). elim i [
          | inl here ↦
              let at = ap (λ (r : Tag). r.id) here in absurd (ground (arith, ==_iff tag.id id))
          | inr later ↦ from (x, later, same, n)
        ],
      )
    ]

pub own_tags_iff :
    (id : ℕ) (t : List ℕ) (rows : List (ℕ × ℕ)) (tags : List Tag)
    → IsIn t (own_tags id rows tags) ↔ HasTag id t rows tags
unfolding own_tags
own_tags_iff id t [] tags = (λ h. absurd (h), λ (tag, _, m, _). absurd (m))
own_tags_iff id t (r ∷ rows) tags =
    let (to, from) = own_tags_iff id t rows tags in
    let (split, join) = IsIn-append t (names_of r.1 tags) (own_tags id rows tags) in
    let (find, put) = names_of_iff r.1 t tags in
    elim (Bool-cases (r.0 == id)) [
      | inl e ↦
          let pair : (tag : Tag) → tag.id ≡ r.1 → r ≡ (id, tag.id) =
            λ tag same i. ((==_iff r.0 id).0 e i, sym same i) in
          rw e (
            λ h. elim (split h) [
              | inl m ↦ let (tag, i, same, n) = find m in (tag, i, inl (pair tag same), n)
              | inr m ↦ let (tag, i, j, n) = to m in (tag, i, inr j, n)
            ],
            λ (tag, i, j, n). elim j [
              | inl here ↦ join (inl (put (tag, i, sym (ap (λ (q : ℕ × ℕ). q.1) here), n)))
              | inr later ↦ join (inr (from (tag, i, later, n)))
            ],
          )
      | inr e ↦ rw e (
        λ h. (let (tag, i, j, n) = to h in (tag, i, inr j, n)),
        λ (tag, i, j, n). elim j [
          | inl here ↦
              let at = ap (λ (q : ℕ × ℕ). q.0) here in absurd (ground (arith, ==_iff r.0 id))
          | inr later ↦ from (tag, i, later, n)
        ],
      )
    ]
