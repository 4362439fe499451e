-- ===== src/Provenance/Tests.antt =====
-- Runs of the model of source tags.
use curator_rs.Prelude.{sqlite, ℕ, ◌≡◌, refl, some, none, List, [], ◌∷◌, err}
use curator_rs.Ascii.{
  codes, same, trimmed, drop_spaces, lowered, to_lower, byte_length, is_one_of, after_text,
  before_byte, after_last, starts_with,
}
use curator_rs.Text.{is_whitespace}
use curator_rs.Provenance.Names.{words, join_words, spaced, normalize_tag}
use curator_rs.Provenance.Normal.{normalize_tag-normalize_tag}
use curator_rs.Provenance.Metadata.{
  Value, string, array, object, value_and, no_values, field_and, no_fields, field_of, is_before,
  insert_tag, insert_name, collect_tag_values, extract_source_tags, first_string, provider_from_url,
  provider_from_metadata,
}
use curator_rs.Provenance.Rows.{
  Evidence, SourceTag, approved, skipped, human_edited, already_reviewed, tag_id_of,
  insert_media_tag, insert_provenance, load_candidate, set_state, rule_of, matching_rule,
}
use curator_rs.Provenance.Review.{
  insert_name as insert_tag_name, get_or_create_tag, attach_tag, apply_rule, apply_rule_if_any,
  name_for, review_pending, review_source_tag,
}
use curator_rs.Provenance.Capture.{
  insert_candidate, set_metadata_id, metadata_id_of, insert_source_tag, source_tag_id, capture_tag,
  capture_tags, write_metadata, metadata_row, capture_source_metadata,
}
use curator_rs.Provenance.Rules.{write_rule, upsert_named, upsert_rule, delete_rule}
use curator_rs.Provenance.Commands.{Command, capturing, reviewing, setting_rule, run_all, reason_of}
use curator_rs.Provenance.Extends.{Extends}
use curator_rs.Provenance.Applied.{IsApplied}
use curator_rs.Provenance.Settled.{run_all-Extends, run_all-IsApplied}

model : Unit {0}
unfolding same trimmed drop_spaces lowered to_lower byte_length is_one_of after_text before_byte
    after_last starts_with is_whitespace words join_words spaced normalize_tag field_of is_before
    insert_tag insert_name collect_tag_values extract_source_tags first_string provider_from_url
    provider_from_metadata tag_id_of insert_media_tag insert_provenance load_candidate set_state
    rule_of matching_rule insert_tag_name get_or_create_tag attach_tag apply_rule apply_rule_if_any
    name_for review_pending review_source_tag insert_candidate set_metadata_id metadata_id_of
    insert_source_tag source_tag_id capture_tag capture_tags write_metadata metadata_row
    capture_source_metadata write_rule upsert_named upsert_rule delete_rule reason_of
model = tt

normalize_test : normalize_tag (codes "  Film  Noir ") ≡ some (codes "film noir")
unfolding model
normalize_test = refl

normalize_tag-normalize_tag_example : normalize_tag (codes "film noir") ≡ some (codes "film noir")
normalize_tag-normalize_tag_example =
    normalize_tag-normalize_tag (codes "  Film  Noir ") (codes "film noir") normalize_test

-- Two tags, one of them twice.
abbrev metadata : Value
metadata = object (
    field_and (codes "category") (string (codes "Gallery")) (
      field_and (codes "tags")
        (array (
          value_and (string (codes "Noir")) (
            value_and (string (codes " noir ")) (
              value_and (object (field_and (codes "name") (string (codes "blue")) no_fields))
                no_values))))
        no_fields))

extract_test : extract_source_tags metadata ≡ codes "blue" ∷ codes "noir" ∷ []
unfolding model
extract_test = refl

host_test : provider_from_url (some (codes "https://me@Host.org.:80/a")) ≡ codes "host.org"
unfolding model
host_test = refl

abbrev nothing : Evidence
nothing = record {
  metadata = [];
  source_tags = [];
  metadata_ids = [];
  rules = [];
  tags = [];
  media_tags = [];
  provenances = [];
}

-- A rule skips one of the tags; a person approves the other under another name, and tries again.
abbrev calls : List Command
calls =
    setting_rule record {
      raw_name = codes "Blue";
      action = codes "skip";
      normalized_name = none;
      provider = none;
    }
    ∷ capturing 1 none metadata
    ∷ reviewing 2 (codes "edit") (some (codes "Film Noir"))
    ∷ reviewing 2 (codes "skip") none
    ∷ []

abbrev row : ℕ → List ℕ → SourceTag
row id name = record {
  id = id;
  media_id = 1;
  provider = codes "gallery";
  raw_name = name;
  normalized_name = none;
  state = skipped;
}

calls_test :
    (run_all sqlite calls nothing).source_tags
    ≡ row 1 (codes "blue")
      ∷ (record (row 2 (codes "noir")) {
        state = approved;
        normalized_name = some (codes "film noir");
      })
      ∷ []
unfolding model
calls_test = refl

linked_test : (run_all sqlite calls nothing).metadata_ids ≡ (1, 1) ∷ (2, 1) ∷ []
unfolding model
linked_test = refl

-- A tag that was skipped, captured again with other metadata: the row refers to it now, and is else as
-- it was.
relinked_test :
    let db : Evidence = record nothing {
      source_tags = row 2 (codes "noir") ∷ [];
      metadata_ids = (2, 1) ∷ [];
    } in
    insert_source_tag sqlite 1 5 (codes "gallery") (codes "noir") db
    ≡ record db { metadata_ids = (2, 5) ∷ [] }
unfolding model
relinked_test = refl

reason_test : reason_of 1 1 (run_all sqlite calls nothing).provenances ≡ some human_edited
unfolding model
reason_test = refl

again_test :
    (review_source_tag sqlite 2 (codes "add") none (run_all sqlite calls nothing)).0
    ≡ err already_reviewed
unfolding model
again_test = refl

run_all-Extends_example :
    Extends (run_all sqlite calls nothing) (run_all sqlite calls (run_all sqlite calls nothing))
run_all-Extends_example = run_all-Extends sqlite calls (run_all sqlite calls nothing)

nothing-IsApplied : IsApplied nothing
unfolding load_candidate
nothing-IsApplied id t h a = absurd (cc)

run_all-IsApplied_example : IsApplied (run_all sqlite calls nothing)
run_all-IsApplied_example = run_all-IsApplied sqlite calls nothing nothing-IsApplied
