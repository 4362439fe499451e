-- ===== src/Groups/Moves.antt =====
-- src/routes/groups.rs: `create`, `update`, `delete`, `add_tag` and `remove_tag`, with
-- `get_or_create_tag` of src/routes/media.rs and `delete_tag` of src/routes/tags.rs. The tables are
-- those the tags of groups are read from; the id of a new row is an argument.
use curator_rs.Prelude.{
  ℕ, ◌≡◌, Bool, true, false, not, ◌&&◌, Option, some, none, List, [], ◌∷◌, ◌++◌, ◌==◌,
  if◌then◌else◌, keep, any, member, is_empty, Result, ok, err, ◌>>=◌, ◌>>◌, reject_if,
}
use curator_rs.Ascii.{same, trimmed}
use curator_rs.Groups.Tree.{Group, group_ids, parent_of}
use curator_rs.Groups.Descendants.{group_is_self_or_descendant}

pub record Tag : Type 0 where
  pub id : ℕ
  pub name : List ℕ

-- The tables `groups`, `tags` and `group_tags`, a pair of a group's id and a tag's.
pub record Tables : Type 0 where
  pub groups : List Group
  pub tags : List Tag
  pub group_tags : List (ℕ × ℕ)

pub data GroupError : Type 0 where
  name_required parent_not_found group_not_found own_subgroup nothing_to_update tag_not_found
        invalid_query :
      GroupError

abbrev pub Change : Type 0
Change = Result GroupError Tables

unfoldable pub is_group : ℕ → Tables → Bool
is_group id db = member id (group_ids db.groups)

unfoldable pub is_no_parent : Option ℕ → Tables → Bool
is_no_parent none db = false
is_no_parent (some pid) db = not (is_group pid db)

unfoldable pub create : ℕ → List ℕ → Option ℕ → Tables → Change
create new name parent_id db =
    reject_if (is_empty (trimmed name)) name_required
    >> reject_if (is_no_parent parent_id db) parent_not_found
    >> ok (record db {
      groups = db.groups ++ record { id = new; parent_id = parent_id; name = trimmed name } ∷ [];
    })

pub record UpdateGroupBody : Type 0 where
  pub name : Option (List ℕ)
  pub parent_id : Option ℕ
  pub clear_parent : Bool

-- The field `name=?`, if the request has one.
unfoldable pub name_field : Option (List ℕ) → Result GroupError (Option (List ℕ))
name_field none = ok none
name_field (some name) =
    reject_if (is_empty (trimmed name)) name_required >> ok (some (trimmed name))

-- The field `parent_id=?`, if the request has one.
unfoldable pub parent_field : ℕ → Bool → Option ℕ → Tables → Result GroupError (Option (Option ℕ))
parent_field id true parent_id db = ok (some none)
parent_field id false none db = ok none
parent_field id false (some pid) db =
    reject_if (group_is_self_or_descendant db.groups pid id) own_subgroup
    >> reject_if (not (is_group pid db)) parent_not_found
    >> ok (some (some pid))

abbrev pub or_old {ℓ} : {A : Type ℓ} → Option A → A → A
or_old none old = old
or_old (some new) old = new

-- `UPDATE groups SET … WHERE id=?`
unfoldable pub write_group : ℕ → Option (List ℕ) → Option (Option ℕ) → List Group → List Group
write_group id name parent_id [] = []
write_group id name parent_id (g ∷ gs) =
    (if g.id == id
      then record g { name = or_old name g.name; parent_id = or_old parent_id g.parent_id }
      else g)
    ∷ write_group id name parent_id gs

unfoldable pub write_fields : ℕ → Option (List ℕ) → Option (Option ℕ) → Tables → Change
write_fields id none none db = err nothing_to_update
write_fields id (some name) parent_id db =
    ok (record db { groups = write_group id (some name) parent_id db.groups })
write_fields id none (some parent_id) db =
    ok (record db { groups = write_group id none (some parent_id) db.groups })

unfoldable pub update : ℕ → UpdateGroupBody → Tables → Change
update id body db =
    reject_if (not (is_group id db)) group_not_found
    >> (name_field body.name >>= λ name.
        parent_field id body.clear_parent body.parent_id db >>= λ parent_id.
        write_fields id name parent_id db)

abbrev pub is_child_of : ℕ → Option ℕ → Bool
is_child_of id none = false
is_child_of id (some p) = p == id

-- `UPDATE groups SET parent_id=?1 WHERE parent_id=?2`
unfoldable pub promote : ℕ → Option ℕ → List Group → List Group
promote id parent_id [] = []
promote id parent_id (g ∷ gs) =
    (if is_child_of id g.parent_id then record g { parent_id = parent_id } else g)
    ∷ promote id parent_id gs

-- `DELETE FROM groups WHERE id=?1`, with `ON DELETE SET NULL` of the column `parent_id`.
unfoldable pub delete_row : ℕ → List Group → List Group
delete_row id gs = promote id none (keep (λ g. not (g.id == id)) gs)

unfoldable pub delete : ℕ → Tables → Change
delete id db =
    reject_if (not (is_group id db)) group_not_found
    >> ok (record db {
      groups = delete_row id (promote id (parent_of id db.groups) db.groups);
      group_tags = keep (λ r. not (r.0 == id)) db.group_tags;
    })

unfoldable pub tag_named : List ℕ → List Tag → Option ℕ
tag_named name [] = none
tag_named name (t ∷ tags) =
    let rest = tag_named name tags in if same t.name name then some t.id else rest

abbrev pub is_pair : ℕ → ℕ → ℕ × ℕ → Bool
is_pair id tag_id r = r.0 == id && r.1 == tag_id

-- `INSERT OR IGNORE INTO group_tags`
unfoldable pub link_tag : ℕ → ℕ → List (ℕ × ℕ) → List (ℕ × ℕ)
link_tag id tag_id rows = if any (is_pair id tag_id) rows then rows else rows ++ (id, tag_id) ∷ []

unfoldable pub remove_tag : ℕ → ℕ → Tables → Change
remove_tag id tag_id db =
    ok (record db { group_tags = keep (λ r. not (is_pair id tag_id r)) db.group_tags })

unfoldable pub delete_tag : ℕ → Tables → Change
delete_tag id db =
    reject_if (not (any (λ t. t.id == id) db.tags)) tag_not_found
    >> ok (record db {
      tags = keep (λ t. not (t.id == id)) db.tags;
      group_tags = keep (λ r. not (r.1 == id)) db.group_tags;
    })

-- `str::to_lowercase`, with the tables of Unicode.
module _ (to_lowercase : List ℕ → List ℕ) where
  abbrev pub normal : List ℕ → List ℕ
  normal name = to_lowercase (trimmed name)

  abbrev tag_or_new : ℕ → List ℕ → List Tag → Option ℕ → ℕ × List Tag
  tag_or_new new name tags (some id) = (id, tags)
  tag_or_new new name tags none = (new, tags ++ record { id = new; name = name } ∷ [])

  unfoldable pub get_or_create_tag : ℕ → List ℕ → List Tag → Result GroupError (ℕ × List Tag)
  get_or_create_tag new name tags =
      reject_if (is_empty (normal name)) invalid_query
      >> ok (tag_or_new new (normal name) tags (tag_named (normal name) tags))

  unfoldable pub add_tag : ℕ → ℕ → List ℕ → Tables → Change
  add_tag new id name db =
      reject_if (not (is_group id db)) group_not_found
      >> (get_or_create_tag new name db.tags >>= λ found.
          ok (record db { tags = found.1; group_tags = link_tag id found.0 db.group_tags }))

  pub data Command : Type 0 where
    creating : ℕ → List ℕ → Option ℕ → Command
    updating : ℕ → UpdateGroupBody → Command
    deleting : ℕ → Command
    tagging : ℕ → ℕ → List ℕ → Command
    untagging : ℕ → ℕ → Command
    deleting_tag : ℕ → Command

  abbrev pub run : Command → Tables → Change
  run (creating new name parent_id) db = create new name parent_id db
  run (updating id body) db = update id body db
  run (deleting id) db = delete id db
  run (tagging new id name) db = add_tag new id name db
  run (untagging id tag_id) db = remove_tag id tag_id db
  run (deleting_tag id) db = delete_tag id db

  -- A new row has an id that no row has.
  abbrev pub IsFresh : Command → Tables → Type 0
  IsFresh (creating new name parent_id) db = is_group new db ≡ false
  IsFresh (tagging new id name) db = any (λ t. t.id == new) db.tags ≡ false
  IsFresh c db = Unit

  -- Requests that succeed, one after the other; one that fails changes no table.
  pub data Reaches (db : Tables) : Tables → Type 0 where
    start : Reaches db db
    step :
        (c : Command) {db' db'' : Tables}
        → Reaches db db'
        → IsFresh c db'
        → run c db' ≡ ok db''
        → Reaches db db''
