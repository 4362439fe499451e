-- ===== src/Provenance/Capture.antt =====
-- src/provenance.rs: `capture_source_metadata`.
use curator_rs.Prelude.{
  ℕ, Bool, ◌&&◌, Option, some, none, List, [], ◌∷◌, ◌++◌, ◌==◌, if◌then◌else◌, any, or_else,
  unwrap_or, ok, err, RowIds,
}
use curator_rs.Ascii.{same}
use curator_rs.Provenance.Metadata.{
  Value, extract_source_tags, first_string, provider_from_metadata,
}
use curator_rs.Provenance.Rows.{
  Evidence, Outcome, SourceMetadata, SourceTag, after, source_tag_ids, source_metadata_ids, pending,
  no_rows,
}
use curator_rs.Provenance.Review.{apply_rule_if_any}

module _ (ids : RowIds) where
  open ids use {next}

  abbrev pub is_source_tag : ℕ → List ℕ → List ℕ → SourceTag → Bool
  is_source_tag media_id provider raw_name t =
      t.media_id == media_id && same t.provider provider && same t.raw_name raw_name

  unfoldable pub source_tag_id : ℕ → List ℕ → List ℕ → List SourceTag → Option ℕ
  source_tag_id media_id provider raw_name [] = none
  source_tag_id media_id provider raw_name (t ∷ tags) =
      let rest = source_tag_id media_id provider raw_name tags in
      if is_source_tag media_id provider raw_name t then some t.id else rest

  unfoldable pub insert_candidate : ℕ → List ℕ → List ℕ → List SourceTag → List SourceTag
  insert_candidate media_id provider raw_name tags =
      if any (is_source_tag media_id provider raw_name) tags
      then tags
      else tags
        ++ record {
          id = next (source_tag_ids tags);
          media_id = media_id;
          provider = provider;
          raw_name = raw_name;
          normalized_name = none;
          state = pending;
        }
          ∷ []

  -- `source_metadata_id` of a row, set.
  unfoldable pub set_metadata_id : Option ℕ → ℕ → List (ℕ × ℕ) → List (ℕ × ℕ)
  set_metadata_id none metadata_id rows = rows
  set_metadata_id (some id) metadata_id [] = (id, metadata_id) ∷ []
  set_metadata_id (some id) metadata_id (r ∷ rows) =
      let rest = set_metadata_id (some id) metadata_id rows in
      if r.0 == id then (id, metadata_id) ∷ rows else r ∷ rest

  -- `INSERT INTO source_tags … ON CONFLICT … DO UPDATE`: a new row refers to the metadata, and of a row
  -- with the same key only `source_metadata_id` is set.
  unfoldable pub insert_source_tag : ℕ → ℕ → List ℕ → List ℕ → Evidence → Evidence
  insert_source_tag media_id metadata_id provider raw_name db =
      let tags = insert_candidate media_id provider raw_name db.source_tags in
      record db {
        source_tags = tags;
        metadata_ids =
            set_metadata_id (source_tag_id media_id provider raw_name tags) metadata_id
              db.metadata_ids;
      }

  abbrev pub apply_at : Option ℕ → Evidence → Outcome (Unit {0})
  apply_at none db = (err no_rows, db)
  apply_at (some id) db = apply_rule_if_any ids id db

  unfoldable pub capture_tag : ℕ → ℕ → List ℕ → List ℕ → Evidence → Outcome (Unit {0})
  capture_tag media_id metadata_id provider raw_name db =
      let db' = insert_source_tag media_id metadata_id provider raw_name db in
      apply_at (source_tag_id media_id provider raw_name db'.source_tags) db'

  unfoldable pub capture_tags : ℕ → ℕ → List ℕ → List (List ℕ) → Evidence → Outcome (Unit {0})
  capture_tags media_id metadata_id provider [] db = (ok tt, db)
  capture_tags media_id metadata_id provider (t ∷ names) db =
      after (capture_tag media_id metadata_id provider t db)
        (λ _ db. capture_tags media_id metadata_id provider names db)

  abbrev pub is_metadata : SourceMetadata → SourceMetadata → Bool
  is_metadata new m =
      m.media_id == new.media_id && same m.provider new.provider && same m.source_url new.source_url

  -- `INSERT INTO source_metadata … ON CONFLICT … DO UPDATE`
  unfoldable pub write_metadata : SourceMetadata → List SourceMetadata → List SourceMetadata
  write_metadata new [] = new ∷ []
  write_metadata new (m ∷ ms) =
      let rest = write_metadata new ms in
      if is_metadata new m
      then record new {
        id = m.id;
        creator = or_else new.creator m.creator;
        title = or_else new.title m.title;
      }
        ∷ ms
      else m ∷ rest

  -- `SELECT id FROM source_metadata WHERE media_id=?1 AND provider=?2 AND source_url=?3`
  unfoldable pub metadata_id_of : SourceMetadata → List SourceMetadata → Option ℕ
  metadata_id_of new [] = none
  metadata_id_of new (m ∷ ms) =
      let rest = metadata_id_of new ms in if is_metadata new m then some m.id else rest

  unfoldable pub metadata_row : ℕ → ℕ → Option (List ℕ) → Value → SourceMetadata
  metadata_row id media_id source_url metadata = record {
    id = id;
    media_id = media_id;
    provider = provider_from_metadata metadata source_url;
    source_url = unwrap_or source_url [];
    raw_json = metadata;
    creator =
        first_string metadata
          ("creator" ∷ "username" ∷ "author" ∷ "user" ∷ "artist" ∷ "uploader" ∷ []);
    title = first_string metadata ("title" ∷ "gallery_title" ∷ "post_title" ∷ "name" ∷ []);
  }

  abbrev pub capture_for : Option ℕ → ℕ → List ℕ → List (List ℕ) → Evidence → Outcome (Unit {0})
  capture_for none media_id provider names db = (err no_rows, db)
  capture_for (some metadata_id) media_id provider names db =
      capture_tags media_id metadata_id provider names db

  unfoldable pub capture_source_metadata :
      ℕ → Option (List ℕ) → Value → Evidence → Outcome (Unit {0})
  capture_source_metadata media_id source_url metadata db =
      let new =
        metadata_row (next (source_metadata_ids db.metadata)) media_id source_url metadata in
      let rows = write_metadata new db.metadata in
      capture_for (metadata_id_of new rows) media_id (provider_from_metadata metadata source_url)
        (extract_source_tags metadata) (record db { metadata = rows })
