-- ===== src/Provenance/Rows.antt =====
-- src/provenance.rs: the rows of source tags, rules and the tags of media, with the statements on
-- them. Statements succeed but for what the source tests; the times of the rows are left out.
use curator_rs.Prelude.{
  ℕ, Bool, ◌&&◌, Option, some, none, List, [], ◌∷◌, ◌++◌, ◌==◌, if◌then◌else◌, any, or_else, Result,
  ok, err,
}
use curator_rs.Ascii.{same, lowered}
use curator_rs.Provenance.Names.{normalize_tag}
use curator_rs.Provenance.Metadata.{Value}

-- The column `state`.
pub data TagState : Type 0 where
  pending approved skipped : TagState

-- The provenances that `attach_tag` accepts.
pub data Reason : Type 0 where
  human human_edited source_approved automatic legacy : Reason

-- A row of `source_tags`, but for its column `source_metadata_id`.
pub record SourceTag : Type 0 where
  pub id : ℕ
  pub media_id : ℕ
  pub provider : List ℕ
  pub raw_name : List ℕ
  pub normalized_name : Option (List ℕ)
  pub state : TagState

-- A row of `source_tag_rules`.
pub record TagRule : Type 0 where
  pub id : ℕ
  pub provider : List ℕ
  pub raw_name : List ℕ
  pub action : List ℕ
  pub normalized_name : Option (List ℕ)

pub record NamedTag : Type 0 where
  pub id : ℕ
  pub name : List ℕ

-- A row of `media_tag_provenance`.
pub record MediaTag : Type 0 where
  pub media_id : ℕ
  pub tag_id : ℕ
  pub provenance : Reason

-- A row of `source_metadata`.
pub record SourceMetadata : Type 0 where
  pub id : ℕ
  pub media_id : ℕ
  pub provider : List ℕ
  pub source_url : List ℕ
  pub raw_json : Value
  pub creator : Option (List ℕ)
  pub title : Option (List ℕ)

-- The tables. The column `source_metadata_id` of `source_tags` stands beside its rows, as the pairs of
-- the id of a source tag and the id of the metadata that it refers to.
pub record Evidence : Type 0 where
  pub metadata : List SourceMetadata
  pub source_tags : List SourceTag
  pub metadata_ids : List (ℕ × ℕ)
  pub rules : List TagRule
  pub tags : List NamedTag
  pub media_tags : List (ℕ × ℕ)
  pub provenances : List MediaTag

pub data TagError : Type 0 where
  invalid_query no_rows already_reviewed invalid_rule invalid_action bad_review name_required
        tag_required bad_rule :
      TagError

-- An outcome, and the tables as they are then: the statements stand in no transaction of their own.
abbrev pub Outcome : Type 0 → Type 0
Outcome A = Result TagError A × Evidence

-- `?` after a call that may have written to the tables.
abbrev pub after : {A B : Type 0} → Outcome A → (A → Evidence → Outcome B) → Outcome B
after (ok a, db) k = k a db
after (err e, db) k = (err e, db)

unfoldable pub tag_id_of : List ℕ → List NamedTag → Option ℕ
tag_id_of name [] = none
tag_id_of name (t ∷ tags) =
    let rest = tag_id_of name tags in if same t.name name then some t.id else rest

abbrev pub tag_ids : List NamedTag → List ℕ
tag_ids [] = []
tag_ids (t ∷ tags) = t.id ∷ tag_ids tags

abbrev pub source_tag_ids : List SourceTag → List ℕ
source_tag_ids [] = []
source_tag_ids (t ∷ tags) = t.id ∷ source_tag_ids tags

abbrev pub source_metadata_ids : List SourceMetadata → List ℕ
source_metadata_ids [] = []
source_metadata_ids (m ∷ ms) = m.id ∷ source_metadata_ids ms

abbrev pub rule_ids : List TagRule → List ℕ
rule_ids [] = []
rule_ids (r ∷ rules) = r.id ∷ rule_ids rules

abbrev pub is_media_tag : ℕ → ℕ → MediaTag → Bool
is_media_tag media_id tag_id r = r.media_id == media_id && r.tag_id == tag_id

-- `INSERT OR IGNORE INTO media_tags`, and the same of `media_tag_provenance`.
unfoldable pub insert_media_tag : ℕ → ℕ → List (ℕ × ℕ) → List (ℕ × ℕ)
insert_media_tag media_id tag_id rows =
    if any (λ r. r.0 == media_id && r.1 == tag_id) rows
    then rows
    else rows ++ (media_id, tag_id) ∷ []

unfoldable pub insert_provenance : ℕ → ℕ → Reason → List MediaTag → List MediaTag
insert_provenance media_id tag_id reason rows =
    if any (is_media_tag media_id tag_id) rows
    then rows
    else rows ++ record { media_id = media_id; tag_id = tag_id; provenance = reason } ∷ []

-- `SELECT … WHERE st.id=?1`
unfoldable pub load_candidate : ℕ → List SourceTag → Option SourceTag
load_candidate id [] = none
load_candidate id (t ∷ tags) =
    let rest = load_candidate id tags in if t.id == id then some t else rest

-- `UPDATE source_tags SET state=…,normalized_name=… WHERE id=…`
unfoldable pub set_state : TagState → Option (List ℕ) → ℕ → List SourceTag → List SourceTag
set_state state name id [] = []
set_state state name id (t ∷ tags) =
    (if t.id == id
      then record t { state = state; normalized_name = or_else name t.normalized_name }
      else t)
    ∷ set_state state name id tags

abbrev pub is_rule : List ℕ → List ℕ → TagRule → Bool
is_rule provider raw_name r =
    same r.provider provider && same (lowered r.raw_name) (lowered raw_name)

unfoldable pub rule_of : List ℕ → List ℕ → List TagRule → Option TagRule
rule_of provider raw_name [] = none
rule_of provider raw_name (r ∷ rules) =
    let rest = rule_of provider raw_name rules in
    if is_rule provider raw_name r then some r else rest

-- The rule of the provider, or else the one of all providers.
unfoldable pub matching_rule : List ℕ → List ℕ → List TagRule → Option TagRule
matching_rule provider raw_name rules =
    or_else (rule_of provider raw_name rules) (rule_of [] raw_name rules)

abbrev pub normalized : Option (List ℕ) → Option (List ℕ)
normalized none = none
normalized (some name) = normalize_tag name
