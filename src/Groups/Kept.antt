-- ===== src/Groups/Kept.antt =====
-- src/routes/groups.rs: the tree of the groups over any sequence of requests.
use curator_rs.Prelude.{
  ℕ, ◌≡◌, subst, Bool, true, false, not, Option, some, none, List, [], ◌∷◌, ◌++◌, ◌==◌, any, member,
  ok, reject_if-ok, bind-ok, arith,
}
use curator_rs.Ascii.{trimmed}
use curator_rs.Groups.Tree.{group_ids, parent_of}
use curator_rs.Groups.Descendants.{group_is_self_or_descendant}
use curator_rs.Groups.Moves.{
  Tables, group_not_found, tag_not_found, is_group, is_no_parent, create, UpdateGroupBody,
  name_field, parent_field, write_group, write_fields, update, promote, delete_row, delete,
  remove_tag, delete_tag, get_or_create_tag, add_tag, Command, creating, updating, deleting,
  tagging, untagging, deleting_tag, run, IsFresh, Reaches, start, step,
}
use curator_rs.Groups.Forest.{IsForest, append-IsForest, write_group-IsForest, delete-IsForest}

create-IsForest :
    (new : ℕ) (name : List ℕ) (parent_id : Option ℕ) (db db' : Tables)
    → IsForest db.groups
    → is_group new db ≡ false
    → create new name parent_id db ≡ ok db'
    → IsForest db'.groups
unfolding create is_group is_no_parent
create-IsForest new name none db db' f h e =
    let rows : db.groups ++ record { id = new; parent_id = none; name = trimmed name } ∷ []
        ≡ db'.groups =
      ground arith in
    subst IsForest rows (
      append-IsForest db.groups record { id = new; parent_id = none; name = trimmed name } f h
        (λ p n. absurd (cc)))
create-IsForest new name (some p) db db' f h e =
    let rows : db.groups ++ record { id = new; parent_id = some p; name = trimmed name } ∷ []
        ≡ db'.groups =
      ground arith in
    subst IsForest rows (
      append-IsForest db.groups record { id = new; parent_id = some p; name = trimmed name } f h
        (λ q n. ground arith))

parent_field-guard :
    (id : ℕ) (clear : Bool) (parent_id : Option ℕ) (db : Tables) (field : Option (Option ℕ)) (p : ℕ)
    → parent_field id clear parent_id db ≡ ok field
    → field ≡ some (some p)
    → (group_is_self_or_descendant db.groups p id ≡ false) × (member p (group_ids db.groups) ≡ true)
unfolding parent_field is_group
parent_field-guard id true parent_id db field p e n = absurd (cc)
parent_field-guard id false none db field p e n = absurd (cc)
parent_field-guard id false (some pid) db field p e n =
    let same : pid ≡ p = ground arith in
    subst
      (λ p.
        (group_is_self_or_descendant db.groups p id ≡ false)
        × (member p (group_ids db.groups) ≡ true))
      same (ground arith, ground arith)

write_fields-IsForest :
    (id : ℕ) (name : Option (List ℕ)) (parent_id : Option (Option ℕ)) (db db' : Tables)
    → write_fields id name parent_id db ≡ ok db'
    → IsForest (write_group id name parent_id db.groups)
    → IsForest db'.groups
unfolding write_fields
write_fields-IsForest id none none db db' e f = absurd (cc)
write_fields-IsForest id (some name) parent_id db db' e f =
    let rows : write_group id (some name) parent_id db.groups ≡ db'.groups = ground arith in
    subst IsForest rows f
write_fields-IsForest id none (some parent_id) db db' e f =
    let rows : write_group id none (some parent_id) db.groups ≡ db'.groups = ground arith in
    subst IsForest rows f

update-IsForest :
    (id : ℕ) (body : UpdateGroupBody) (db db' : Tables)
    → IsForest db.groups
    → update id body db ≡ ok db'
    → IsForest db'.groups
unfolding update is_group
update-IsForest id body db db' f e =
    let (there, fields) = reject_if-ok (not (is_group id db)) group_not_found _ db' e in
    let (name, _, rest) = bind-ok (name_field body.name) _ db' fields in
    let (parent_id, field, written) =
      bind-ok (parent_field id body.clear_parent body.parent_id db) _ db' rest in
    let guard =
      λ (p : ℕ). parent_field-guard id body.clear_parent body.parent_id db parent_id p field in
    write_fields-IsForest id name parent_id db db' written
      (write_group-IsForest db.groups id name parent_id f (ground arith) guard)

delete-kept :
    (id : ℕ) (db db' : Tables) → IsForest db.groups → delete id db ≡ ok db' → IsForest db'.groups
unfolding delete is_group
delete-kept id db db' f e =
    let (there, made) = reject_if-ok (not (is_group id db)) group_not_found _ db' e in
    let rows : delete_row id (promote id (parent_of id db.groups) db.groups) ≡ db'.groups =
      ground arith in
    subst IsForest rows (delete-IsForest db.groups id f)

remove_tag-IsForest :
    (id tag_id : ℕ) (db db' : Tables)
    → IsForest db.groups
    → remove_tag id tag_id db ≡ ok db'
    → IsForest db'.groups
unfolding remove_tag
remove_tag-IsForest id tag_id db db' f e =
    let rows : db.groups ≡ db'.groups = ground arith in subst IsForest rows f

delete_tag-IsForest :
    (id : ℕ) (db db' : Tables)
    → IsForest db.groups
    → delete_tag id db ≡ ok db'
    → IsForest db'.groups
unfolding delete_tag
delete_tag-IsForest id db db' f e =
    let (there, made) = reject_if-ok (not (any (λ t. t.id == id) db.tags)) tag_not_found _ db' e in
    let rows : db.groups ≡ db'.groups = ground arith in subst IsForest rows f

module _ (to_lowercase : List ℕ → List ℕ) where
  add_tag-IsForest :
      (new id : ℕ) (name : List ℕ) (db db' : Tables)
      → IsForest db.groups
      → add_tag to_lowercase new id name db ≡ ok db'
      → IsForest db'.groups
  unfolding add_tag
  add_tag-IsForest new id name db db' f e =
      let (there, tagged) = reject_if-ok (not (is_group id db)) group_not_found _ db' e in
      let (found, _, made) =
        bind-ok (get_or_create_tag to_lowercase new name db.tags) _ db' tagged in
      let rows : db.groups ≡ db'.groups = ground arith in subst IsForest rows f

  run-IsForest :
      (c : Command to_lowercase) (db db' : Tables)
      → IsForest db.groups
      → IsFresh to_lowercase c db
      → run to_lowercase c db ≡ ok db'
      → IsForest db'.groups
  run-IsForest (creating new name parent_id) db db' f fresh e =
      create-IsForest new name parent_id db db' f fresh e
  run-IsForest (updating id body) db db' f fresh e = update-IsForest id body db db' f e
  run-IsForest (deleting id) db db' f fresh e = delete-kept id db db' f e
  run-IsForest (tagging new id name) db db' f fresh e = add_tag-IsForest new id name db db' f e
  run-IsForest (untagging id tag_id) db db' f fresh e = remove_tag-IsForest id tag_id db db' f e
  run-IsForest (deleting_tag id) db db' f fresh e = delete_tag-IsForest id db db' f e

  -- Whatever requests succeed, the groups stay a forest: the ids are distinct, each parent is in the
  -- table, and no group is above itself. The new ids are ones that no row has.
  pub Reaches-IsForest :
      {db db' : Tables} → IsForest db.groups → Reaches to_lowercase db db' → IsForest db'.groups
  Reaches-IsForest f (start) = f
  Reaches-IsForest f (step c {db'} {db''} path fresh e) =
      run-IsForest c db' db'' (Reaches-IsForest f path) fresh e
