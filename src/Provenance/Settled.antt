-- ===== src/Provenance/Settled.antt =====
-- src/provenance.rs: what no call changes, whatever it returns.
use curator_rs.Prelude.{
  ℕ, ◌≡◌, ◌∙◌, refl, ap, not, ◌&&◌, Bool-cases, inl, inr, Option, some, none, List, [], ◌∷◌, any,
  RowIds, or_else, is_some,
}
use curator_rs.Ascii.{codes, same, is_one_of}
use curator_rs.Provenance.Names.{normalize_tag}
use curator_rs.Provenance.Metadata.{provider_from_metadata, extract_source_tags}
use curator_rs.Provenance.Rows.{
  TagState, pending, approved, skipped, human_edited, source_approved, SourceTag, TagRule, Evidence,
  invalid_rule, name_required, source_metadata_ids, load_candidate, normalized, matching_rule,
}
use curator_rs.Provenance.Review.{
  apply_rule, apply_found, apply_pending, apply_loaded, apply_rule_if_any, reloaded, name_for,
  review_pending, review_state, review_loaded, review_source_tag,
}
use curator_rs.Provenance.Capture.{
  insert_candidate, insert_source_tag, is_source_tag, apply_at, capture_tag, capture_tags,
  capture_for, write_metadata, metadata_row, metadata_id_of, capture_source_metadata,
}
use curator_rs.Provenance.Rules.{RuleInput, upsert_named, upsert_rule, delete_rule}
use curator_rs.Provenance.Commands.{
  Command, capturing, reviewing, attaching, setting_rule, deleting_rule, run_one, run_all,
}
use curator_rs.Provenance.Normal.{normalize_tag-normalize_tag}
use curator_rs.Provenance.Extends.{Extends, load_candidate-id}
use curator_rs.Provenance.Applied.{IsApplied, Keeps, Keeps-refl, Keeps-trans, after-Keeps}
use curator_rs.Provenance.Writing.{
  rules-Keeps, metadata-Keeps, metadata_ids-Keeps, attach_tag-Keeps, skip-Keeps, append-Keeps,
  approve-Keeps,
}

-- The names that rules and persons give are normalized ones.
normalized-IsNormal :
    (o : Option (List ℕ)) (n : List ℕ) → normalized o ≡ some n → normalize_tag n ≡ some n
normalized-IsNormal none n h = absurd (cc)
normalized-IsNormal (some raw) n h = normalize_tag-normalize_tag raw n h

or_else-IsNormal :
    (o p : Option (List ℕ))
    → ((n : List ℕ) → o ≡ some n → normalize_tag n ≡ some n)
    → ((n : List ℕ) → p ≡ some n → normalize_tag n ≡ some n)
    → (n : List ℕ) → or_else o p ≡ some n
    → normalize_tag n ≡ some n
or_else-IsNormal none p f g n h = g n h
or_else-IsNormal (some m) p f g n h = f n h

module _ (ids : RowIds) where
  apply_rule-Keeps :
      (t : SourceTag) (r : TagRule) (db : Evidence)
      → load_candidate t.id db.source_tags ≡ some t
      → t.state ≡ pending
      → Keeps db (apply_rule ids t r db).1
  unfolding apply_rule
  apply_rule-Keeps t r db h p = elim (Bool-cases (same r.action (codes "skip"))) [
    | inl e ↦ rw e (skip-Keeps ids t db h p)
    | inr e ↦ elim (Bool-cases (is_one_of ("add" ∷ "normalize" ∷ []) r.action)) [
      | inl f ↦
          rw (e, f)
            (approve-Keeps ids t invalid_rule source_approved
              (or_else (normalized r.normalized_name) (normalize_tag t.raw_name)) db h p
              (or_else-IsNormal (normalized r.normalized_name) (normalize_tag t.raw_name)
                (normalized-IsNormal r.normalized_name) (normalize_tag-normalize_tag t.raw_name)))
      | inr f ↦ rw (e, f) (Keeps-refl db)
    ]
  ]

  apply_found-Keeps :
      (t : SourceTag) (o : Option TagRule) (db : Evidence)
      → load_candidate t.id db.source_tags ≡ some t
      → t.state ≡ pending
      → Keeps db (apply_found ids t o db).1
  apply_found-Keeps t none db h p = Keeps-refl db
  apply_found-Keeps t (some r) db h p = apply_rule-Keeps t r db h p

  apply_pending-Keeps :
      (t : SourceTag) (state : TagState) (db : Evidence)
      → load_candidate t.id db.source_tags ≡ some t
      → t.state ≡ state
      → Keeps db (apply_pending ids t state db).1
  apply_pending-Keeps t pending db h p =
      apply_found-Keeps t (matching_rule t.provider t.raw_name db.rules) db h p
  apply_pending-Keeps t approved db h p = Keeps-refl db
  apply_pending-Keeps t skipped db h p = Keeps-refl db

  -- A source tag that is loaded has the id that was asked for.
  loaded_as :
      (id : ℕ) (t : SourceTag) (tags : List SourceTag)
      → load_candidate id tags ≡ some t
      → load_candidate t.id tags ≡ some t
  loaded_as id t tags h = ap (λ i. load_candidate i tags) (load_candidate-id id tags t h) ∙ h

  apply_loaded-Keeps :
      (id : ℕ) (o : Option SourceTag) (db : Evidence)
      → load_candidate id db.source_tags ≡ o
      → Keeps db (apply_loaded ids o db).1
  apply_loaded-Keeps id none db h = Keeps-refl db
  apply_loaded-Keeps id (some t) db h =
      apply_pending-Keeps t t.state db (loaded_as id t db.source_tags h) refl

  apply_at-Keeps : (o : Option ℕ) (db : Evidence) → Keeps db (apply_at ids o db).1
  unfolding apply_rule_if_any
  apply_at-Keeps none db = Keeps-refl db
  apply_at-Keeps (some id) db = apply_loaded-Keeps id (load_candidate id db.source_tags) db refl

  insert_candidate-Keeps :
      (media_id : ℕ) (provider raw_name : List ℕ) (db : Evidence)
      → Keeps db (record db {
        source_tags = insert_candidate ids media_id provider raw_name db.source_tags;
      })
  unfolding insert_candidate
  insert_candidate-Keeps media_id provider raw_name db =
      elim (Bool-cases (any (is_source_tag ids media_id provider raw_name) db.source_tags)) [
        | inl t ↦ rw t (Keeps-refl db)
        | inr f ↦ rw f (append-Keeps ids _ db refl)
      ]

  insert_source_tag-Keeps :
      (media_id metadata_id : ℕ) (provider raw_name : List ℕ) (db : Evidence)
      → Keeps db (insert_source_tag ids media_id metadata_id provider raw_name db)
  unfolding insert_source_tag
  insert_source_tag-Keeps media_id metadata_id provider raw_name db =
      Keeps-trans (insert_candidate-Keeps media_id provider raw_name db) (metadata_ids-Keeps _ _)

  capture_tag-Keeps :
      (media_id metadata_id : ℕ) (provider raw_name : List ℕ) (db : Evidence)
      → Keeps db (capture_tag ids media_id metadata_id provider raw_name db).1
  unfolding capture_tag
  capture_tag-Keeps media_id metadata_id provider raw_name db =
      Keeps-trans (insert_source_tag-Keeps media_id metadata_id provider raw_name db)
        (apply_at-Keeps _ _)

  capture_tags-Keeps :
      (media_id metadata_id : ℕ) (provider : List ℕ) (names : List (List ℕ)) (db : Evidence)
      → Keeps db (capture_tags ids media_id metadata_id provider names db).1
  unfolding capture_tags
  capture_tags-Keeps media_id metadata_id provider [] db = Keeps-refl db
  capture_tags-Keeps media_id metadata_id provider (name ∷ names) db =
      after-Keeps (capture_tag ids media_id metadata_id provider name db) _
        (capture_tag-Keeps media_id metadata_id provider name db)
        (λ done d. capture_tags-Keeps media_id metadata_id provider names d)

  capture_for-Keeps :
      (o : Option ℕ) (media_id : ℕ) (provider : List ℕ) (names : List (List ℕ)) (db : Evidence)
      → Keeps db (capture_for ids o media_id provider names db).1
  capture_for-Keeps none media_id provider names db = Keeps-refl db
  capture_for-Keeps (some metadata_id) media_id provider names db =
      capture_tags-Keeps media_id metadata_id provider names db

  reload-Keeps : (id : ℕ) (o : Option SourceTag) (db : Evidence) → Keeps db (reloaded ids id o db).1
  reload-Keeps id none db = Keeps-refl db
  reload-Keeps id (some t) db = Keeps-refl db

  name_for-IsNormal :
      (t : SourceTag) (name : Option (List ℕ)) (n : List ℕ)
      → name_for ids t name ≡ some n
      → normalize_tag n ≡ some n
  unfolding name_for
  name_for-IsNormal t name =
      or_else-IsNormal (normalized name)
        (or_else (normalized t.normalized_name) (normalize_tag t.raw_name))
        (normalized-IsNormal name)
        (or_else-IsNormal (normalized t.normalized_name) (normalize_tag t.raw_name)
          (normalized-IsNormal t.normalized_name) (normalize_tag-normalize_tag t.raw_name))

  review_pending-Keeps :
      (t : SourceTag) (action : List ℕ) (name : Option (List ℕ)) (db : Evidence)
      → load_candidate t.id db.source_tags ≡ some t
      → t.state ≡ pending
      → Keeps db (review_pending ids t action name db).1
  unfolding review_pending
  review_pending-Keeps t action name db h p = elim (Bool-cases (same action (codes "skip"))) [
    | inl e ↦ rw e (skip-Keeps ids t db h p)
    | inr e ↦ elim (Bool-cases (same action (codes "edit"))) [
      | inl f ↦
          rw (e, f)
            (approve-Keeps ids t name_required human_edited (name_for ids t name) db h p
              (name_for-IsNormal t name))
      | inr f ↦ elim (Bool-cases (same action (codes "add"))) [
        | inl g ↦
            rw (e, f, g)
              (approve-Keeps ids t name_required source_approved (name_for ids t name) db h p
                (name_for-IsNormal t name))
        | inr g ↦ rw (e, f, g) (Keeps-refl db)
      ]
    ]
  ]

  review_state-Keeps :
      (t : SourceTag) (state : TagState) (action : List ℕ) (name : Option (List ℕ)) (db : Evidence)
      → load_candidate t.id db.source_tags ≡ some t
      → t.state ≡ state
      → Keeps db (review_state ids t state action name db).1
  review_state-Keeps t pending action name db h p = review_pending-Keeps t action name db h p
  review_state-Keeps t approved action name db h p = Keeps-refl db
  review_state-Keeps t skipped action name db h p = Keeps-refl db

  review_loaded-Keeps :
      (id : ℕ) (o : Option SourceTag) (action : List ℕ) (name : Option (List ℕ)) (db : Evidence)
      → load_candidate id db.source_tags ≡ o
      → Keeps db (review_loaded ids o action name db).1
  review_loaded-Keeps id none action name db h = Keeps-refl db
  review_loaded-Keeps id (some t) action name db h =
      review_state-Keeps t t.state action name db (loaded_as id t db.source_tags h) refl

  upsert_named-Keeps :
      (input : RuleInput) (o : Option (List ℕ)) (db : Evidence)
      → Keeps db (upsert_named ids input o db).1
  unfolding upsert_named
  upsert_named-Keeps input none db = Keeps-refl db
  upsert_named-Keeps input (some name) db =
      elim (Bool-cases (not (is_one_of ("add" ∷ "normalize" ∷ "skip" ∷ []) input.action))) [
        | inl e ↦ rw e (Keeps-refl db)
        | inr e ↦
            elim (Bool-cases (
              same input.action (codes "normalize")
              && not (is_some (normalized input.normalized_name)))) [
                | inl f ↦ rw (e, f) (Keeps-refl db)
                | inr f ↦ rw (e, f) (rules-Keeps _ db)
              ]
      ]

  run_one-Keeps : (c : Command) (db : Evidence) → Keeps db (run_one ids c db)
  unfolding capture_source_metadata review_source_tag upsert_rule delete_rule
  run_one-Keeps (capturing media_id url metadata) db =
      let new =
        metadata_row ids (ids.next (source_metadata_ids db.metadata)) media_id url metadata in
      let rows = write_metadata ids new db.metadata in
      Keeps-trans (metadata-Keeps rows db) (
        capture_for-Keeps (metadata_id_of ids new rows) media_id
          (provider_from_metadata metadata url) (extract_source_tags metadata)
          (record db { metadata = rows }))
  run_one-Keeps (reviewing id action name) db =
      after-Keeps (review_loaded ids (load_candidate id db.source_tags) action name db) _
        (review_loaded-Keeps id (load_candidate id db.source_tags) action name db refl)
        (λ done d. reload-Keeps id (load_candidate id d.source_tags) d)
  run_one-Keeps (attaching media_id name reason) db = attach_tag-Keeps ids media_id name reason db
  run_one-Keeps (setting_rule input) db = upsert_named-Keeps input (normalize_tag input.raw_name) db
  run_one-Keeps (deleting_rule id) db = rules-Keeps _ db

  run_all-Keeps : (cs : List Command) (db : Evidence) → Keeps db (run_all ids cs db)
  run_all-Keeps [] db = Keeps-refl db
  run_all-Keeps (c ∷ cs) db = Keeps-trans (run_one-Keeps c db) (run_all-Keeps cs (run_one ids c db))

  -- Whatever calls that capture metadata, review source tags, attach tags, and set and delete rules
  -- follow one another, with what outcome: a source tag that was approved or skipped stays as it is,
  -- under the name it was given, but for the metadata it refers to, which stands beside its row; the
  -- reason why a medium has a tag stays the first; and none of these calls takes a tag from a medium
  -- or gives it another id. Other parts of the program do remove tags, and of them it says nothing.
  pub run_all-Extends : (cs : List Command) (db : Evidence) → Extends db (run_all ids cs db)
  run_all-Extends cs db = let k = run_all-Keeps cs db in k.extends

  -- If each approved source tag has a name and its medium has the tag of that name, with a reason,
  -- that is so after any calls, also those that fail half way.
  pub run_all-IsApplied :
      (cs : List Command) (db : Evidence) → IsApplied db → IsApplied (run_all ids cs db)
  run_all-IsApplied cs db h = let k = run_all-Keeps cs db in k.applied h
