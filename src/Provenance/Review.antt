-- ===== src/Provenance/Review.antt =====
-- src/provenance.rs: `attach_tag`, `apply_rule_if_any` and `review_source_tag`.
use curator_rs.Prelude.{
  ℕ, Option, some, none, List, [], ◌∷◌, ◌++◌, if◌then◌else◌, or_else, ok, err, RowIds,
}
use curator_rs.Ascii.{codes, same, is_one_of}
use curator_rs.Provenance.Names.{normalize_tag}
use curator_rs.Provenance.Rows.{
  Evidence, NamedTag, Outcome, Reason, SourceTag, TagError, TagRule, TagState, after,
  insert_media_tag, insert_provenance, load_candidate, matching_rule, normalized, set_state,
  tag_id_of, tag_ids, pending, approved, skipped, human_edited, source_approved, invalid_query,
  no_rows, already_reviewed, invalid_rule, invalid_action, bad_review, name_required,
}

module _ (ids : RowIds) where
  open ids use {next}

  abbrev pub with_tag : List ℕ → List NamedTag → Option ℕ → List NamedTag
  with_tag name tags none = tags ++ record { id = next (tag_ids tags); name = name } ∷ []
  with_tag name tags (some id) = tags

  -- `INSERT OR IGNORE INTO tags`
  unfoldable pub insert_name : List ℕ → List NamedTag → List NamedTag
  insert_name name tags = with_tag name tags (tag_id_of name tags)

  abbrev pub found_tag : Option ℕ → Evidence → Outcome ℕ
  found_tag none db = (err no_rows, db)
  found_tag (some id) db = (ok id, db)

  abbrev pub named_tag : Option (List ℕ) → Evidence → Outcome ℕ
  named_tag none db = (err invalid_query, db)
  named_tag (some name) db =
      let tags = insert_name name db.tags in
      found_tag (tag_id_of name tags) (record db { tags = tags })

  unfoldable pub get_or_create_tag : List ℕ → Evidence → Outcome ℕ
  get_or_create_tag name db = named_tag (normalize_tag name) db

  unfoldable pub attach_tag : ℕ → List ℕ → Reason → Evidence → Outcome ℕ
  attach_tag media_id name reason db = after (get_or_create_tag name db) (λ tag_id db. (
    ok tag_id,
    record db {
      media_tags = insert_media_tag media_id tag_id db.media_tags;
      provenances = insert_provenance media_id tag_id reason db.provenances;
    },
  ))

  abbrev pub done : ℕ → Evidence → Outcome (Unit {0})
  done tag_id db = (ok tt, db)

  abbrev pub approve :
      SourceTag → TagError → Reason → Option (List ℕ) → Evidence → Outcome (Unit {0})
  approve t missing reason none db = (err missing, db)
  approve t missing reason (some name) db =
      after
        (attach_tag t.media_id name reason
          (record db { source_tags = set_state approved (some name) t.id db.source_tags }))
        done

  abbrev pub skip : SourceTag → Evidence → Evidence
  skip t db = record db { source_tags = set_state skipped none t.id db.source_tags }

  unfoldable pub apply_rule : SourceTag → TagRule → Evidence → Outcome (Unit {0})
  apply_rule t r db =
      if same r.action (codes "skip")
      then (ok tt, skip t db)
      else if is_one_of ("add" ∷ "normalize" ∷ []) r.action
      then approve t invalid_rule source_approved
          (or_else (normalized r.normalized_name) (normalize_tag t.raw_name)) db
      else (err invalid_action, db)

  abbrev pub apply_found : SourceTag → Option TagRule → Evidence → Outcome (Unit {0})
  apply_found t none db = (ok tt, db)
  apply_found t (some r) db = apply_rule t r db

  abbrev pub apply_pending : SourceTag → TagState → Evidence → Outcome (Unit {0})
  apply_pending t pending db = apply_found t (matching_rule t.provider t.raw_name db.rules) db
  apply_pending t approved db = (ok tt, db)
  apply_pending t skipped db = (ok tt, db)

  abbrev pub apply_loaded : Option SourceTag → Evidence → Outcome (Unit {0})
  apply_loaded none db = (err no_rows, db)
  apply_loaded (some t) db = apply_pending t t.state db

  unfoldable pub apply_rule_if_any : ℕ → Evidence → Outcome (Unit {0})
  apply_rule_if_any id db = apply_loaded (load_candidate id db.source_tags) db

  abbrev pub reloaded : ℕ → Option SourceTag → Evidence → Outcome SourceTag
  reloaded id none db = (err no_rows, db)
  reloaded id (some t) db = (ok t, db)

  abbrev pub reload : ℕ → Unit {0} → Evidence → Outcome SourceTag
  reload id done db = reloaded id (load_candidate id db.source_tags) db

  unfoldable pub name_for : SourceTag → Option (List ℕ) → Option (List ℕ)
  name_for t name =
      or_else (normalized name) (or_else (normalized t.normalized_name) (normalize_tag t.raw_name))

  unfoldable pub review_pending :
      SourceTag → List ℕ → Option (List ℕ) → Evidence → Outcome (Unit {0})
  review_pending t action name db =
      if same action (codes "skip")
      then (ok tt, skip t db)
      else if same action (codes "edit")
      then approve t name_required human_edited (name_for t name) db
      else if same action (codes "add")
      then approve t name_required source_approved (name_for t name) db
      else (err bad_review, db)

  abbrev pub review_state :
      SourceTag → TagState → List ℕ → Option (List ℕ) → Evidence → Outcome (Unit {0})
  review_state t pending action name db = review_pending t action name db
  review_state t approved action name db = (err already_reviewed, db)
  review_state t skipped action name db = (err already_reviewed, db)

  abbrev pub review_loaded :
      Option SourceTag → List ℕ → Option (List ℕ) → Evidence → Outcome (Unit {0})
  review_loaded none action name db = (err no_rows, db)
  review_loaded (some t) action name db = review_state t t.state action name db

  unfoldable pub review_source_tag : ℕ → List ℕ → Option (List ℕ) → Evidence → Outcome SourceTag
  review_source_tag id action name db =
      after (review_loaded (load_candidate id db.source_tags) action name db) (reload id)
