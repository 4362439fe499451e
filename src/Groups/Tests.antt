-- ===== src/Groups/Tests.antt =====
-- The groups on a table of three groups and a tag, and a few requests.
use curator_rs.Prelude.{
  ℕ, ◌≡◌, ◌↔◌, refl, true, false, Option, some, none, List, [], ◌∷◌, member, IsDistinct, err,
}
use curator_rs.Ascii.{lowered, codes, to_lower, trimmed, drop_spaces, same}
use curator_rs.Text.{is_whitespace}
use curator_rs.Groups.Tree.{Group, parent_of, climb, chain_of, build_group_ancestry_map}
use curator_rs.Groups.Ancestors.{Ancestor}
use curator_rs.Groups.Chain.{chain_of_iff}
use curator_rs.Groups.Descendants.{
  next_row, is_under, descendants_from, group_is_self_or_descendant, self_or_descendant-chain_of,
}
use curator_rs.Groups.Moves.{
  Tables, UpdateGroupBody, creating, deleting, own_subgroup, create, update, delete, add_tag,
  get_or_create_tag, is_group, is_no_parent, name_field, parent_field, write_fields, write_group,
  promote, delete_row, tag_named, link_tag, Reaches, start, step,
}
use curator_rs.Groups.Forest.{IsForest}
use curator_rs.Groups.Kept.{Reaches-IsForest}
use curator_rs.Groups.Tags.{
  name_of, own_tags, names_of, gather, tags_at, build_group_effective_tags_map, IsIn,
}
use curator_rs.Groups.Effective.{IsOwnTag, tags_at-build_map}
use curator_rs.Groups.Cache.{
  Served, effective_tags, Serves, started, changed, emptied, asked, effective_tags-Serves,
}

abbrev group : ℕ → Option ℕ → List ℕ → Group
group id parent_id name = record { id = id; parent_id = parent_id; name = name }

-- The third group is under the second, that under the first; a fourth and a fifth go in a circle.
abbrev table : List Group
table =
    group 1 none (codes "Films")
    ∷ group 2 (some 1) (codes "Shorts")
    ∷ group 3 (some 2) (codes " ")
    ∷ []

abbrev circle : List Group
circle = group 4 (some 5) (codes "A") ∷ group 5 (some 4) (codes "B") ∷ []

model : Unit {0}
unfolding chain_of climb parent_of group_is_self_or_descendant descendants_from next_row is_under
    trimmed drop_spaces is_whitespace lowered to_lower create update delete add_tag
    get_or_create_tag is_group is_no_parent name_field parent_field write_fields write_group promote
    delete_row tag_named link_tag same name_of own_tags names_of gather
    build_group_effective_tags_map tags_at build_group_ancestry_map effective_tags
model = tt

climbed_test : chain_of table 3 ≡ 3 ∷ 2 ∷ 1 ∷ []
unfolding model
climbed_test = refl

circle_test : chain_of circle 4 ≡ 4 ∷ 5 ∷ []
unfolding model
circle_test = refl

chain_of_iff_example :
    ((a : ℕ) → (member a (chain_of circle 4) ≡ true) ↔ Ancestor circle 4 a)
    × IsDistinct (chain_of circle 4)
chain_of_iff_example = chain_of_iff circle 4

self_or_descendant-chain_of_example :
    group_is_self_or_descendant circle 4 4 ≡ member 4 (chain_of circle 4)
self_or_descendant-chain_of_example = self_or_descendant-chain_of circle 4 4 (refl, (refl, tt))

abbrev empty : Tables
empty = record { groups = []; tags = []; group_tags = [] }

abbrev full : Tables
full = record {
  groups = table;
  tags = record { id = 7; name = codes "noir" } ∷ [];
  group_tags = (2, 7) ∷ [];
}

abbrev under : ℕ → UpdateGroupBody
under p = record { name = none; parent_id = some p; clear_parent = false }

own_subgroup_test : update 1 (under 3) full ≡ err own_subgroup
unfolding model
own_subgroup_test = refl

empty-IsForest : IsForest []
unfolding parent_of
empty-IsForest = record {
  distinct = tt;
  has_parents = λ x p e. absurd (cc);
  is_acyclic = λ x p e q. absurd (cc);
}

abbrev first : Tables
first = record empty { groups = group 1 none (codes "Films") ∷ [] }

abbrev two : Tables
two = record empty {
  groups = group 1 none (codes "Films") ∷ group 2 (some 1) (codes "Shorts") ∷ [];
}

abbrev left : Tables
left = record empty { groups = group 2 none (codes "Shorts") ∷ [] }

requests_test : Reaches lowered empty left
unfolding model
requests_test =
    step (deleting 1)
      (step (creating 2 (codes " Shorts") (some 1)) {db'' = two}
        (step (creating 1 (codes "Films") none) {db'' = first} start refl refl) refl refl)
      tt refl

Reaches-IsForest_example : IsForest left.groups
Reaches-IsForest_example = Reaches-IsForest lowered empty-IsForest requests_test

tags_test :
    tags_at 3 (build_group_effective_tags_map lowered full)
    ≡ some (codes "shorts" ∷ codes "noir" ∷ codes "films" ∷ [])
unfolding model
tags_test = refl

tags_at-build_map_example :
    (tags : List (List ℕ)) × (tags_at 3 (build_group_effective_tags_map lowered full) ≡ some tags)
    × ((t : List ℕ)
        → IsIn t tags ↔ ((a : ℕ) × Ancestor full.groups 3 a × IsOwnTag lowered full a t))
tags_at-build_map_example = tags_at-build_map lowered full 3 (refl, (refl, (refl, tt))) refl

abbrev idle : Served
idle = record { db = empty; cache = none; unfinished = 0 }

-- The tags are asked for, a group is made, they are asked for again, and the cache is emptied.
abbrev emptied_at : Served
emptied_at = record { db = first; cache = none; unfinished = 0 }

serves_test : Serves lowered idle emptied_at
unfolding model
serves_test =
    emptied 0 (asked (changed (creating 1 (codes "Films") none) first (asked started) refl)) refl

effective_tags-Serves_example :
    (effective_tags lowered emptied_at).0 ≡ build_group_effective_tags_map lowered first
effective_tags-Serves_example = effective_tags-Serves lowered serves_test refl refl
