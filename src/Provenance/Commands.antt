-- ===== src/Provenance/Commands.antt =====
-- src/provenance.rs: what callers ask of it, one after the other, with the tables after each.
use curator_rs.Prelude.{ℕ, Option, none, some, List, [], ◌∷◌, RowIds, if◌then◌else◌}
use curator_rs.Provenance.Metadata.{Value}
use curator_rs.Provenance.Rows.{Evidence, Reason, MediaTag, is_media_tag}
use curator_rs.Provenance.Review.{attach_tag, review_source_tag}
use curator_rs.Provenance.Capture.{capture_source_metadata}
use curator_rs.Provenance.Rules.{RuleInput, upsert_rule, delete_rule}

pub data Command : Type 0 where
  capturing : ℕ → Option (List ℕ) → Value → Command
  reviewing : ℕ → List ℕ → Option (List ℕ) → Command
  attaching : ℕ → List ℕ → Reason → Command
  setting_rule : RuleInput → Command
  deleting_rule : ℕ → Command

-- The tables after a call, also one that fails.
abbrev pub run_one : RowIds → Command → Evidence → Evidence
run_one ids (capturing media_id url metadata) db =
    (capture_source_metadata ids media_id url metadata db).1
run_one ids (reviewing id action name) db = (review_source_tag ids id action name db).1
run_one ids (attaching media_id name reason) db = (attach_tag ids media_id name reason db).1
run_one ids (setting_rule input) db = (upsert_rule ids input db).1
run_one ids (deleting_rule id) db = (delete_rule ids id db).1

abbrev pub run_all : RowIds → List Command → Evidence → Evidence
run_all ids [] db = db
run_all ids (c ∷ cs) db = run_all ids cs (run_one ids c db)

-- The provenance of a tag of a medium.
unfoldable pub reason_of : ℕ → ℕ → List MediaTag → Option Reason
reason_of media_id tag_id [] = none
reason_of media_id tag_id (r ∷ rows) =
    let rest = reason_of media_id tag_id rows in
    if is_media_tag media_id tag_id r then some r.provenance else rest
