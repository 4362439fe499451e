-- ===== src/Provenance/Writing.antt =====
-- src/provenance.rs: approvals, skips and new source tags, and the effects of the approved ones.
use curator_rs.Prelude.{
  ℕ, ◌≡◌, ◌∙◌, refl, sym, ap, subst, Bool-cases, inl, inr, Option, some, none, List, [], ◌∷◌, ◌++◌,
  ◌==◌, ==_iff, RowIds, ok, err, arith,
}
use curator_rs.Provenance.Names.{normalize_tag}
use curator_rs.Provenance.Rows.{
  pending, approved, skipped, Reason, SourceTag, TagRule, SourceMetadata, Evidence, TagError,
  Outcome, after, load_candidate, set_state,
}
use curator_rs.Provenance.Review.{attach_tag, done, approve, skip}
use curator_rs.Provenance.Applied.{HasEffect, Keeps, Keeps-refl, Keeps-from}
use curator_rs.Provenance.Extends.{
  load_candidate-set_state, Extends-trans, set_state-Extends, append-Extends,
}
use curator_rs.Provenance.Attached.{
  rules-Extends, metadata-Extends, metadata_ids-Extends, load_candidate-set_own,
  load_candidate-pending, attach_tag-Extends, attach_tag-source_tags, attach_tag-own,
}

pub rules-Keeps : (new : List TagRule) (db : Evidence) → Keeps db (record db { rules = new })
rules-Keeps new db = Keeps-from (rules-Extends new db) (λ id t e a. inl e)

pub metadata-Keeps :
    (new : List SourceMetadata) (db : Evidence) → Keeps db (record db { metadata = new })
metadata-Keeps new db = Keeps-from (metadata-Extends new db) (λ id t e a. inl e)

pub metadata_ids-Keeps :
    (new : List (ℕ × ℕ)) (db : Evidence) → Keeps db (record db { metadata_ids = new })
metadata_ids-Keeps new db = Keeps-from (metadata_ids-Extends new db) (λ id t e a. inl e)

module _ (ids : RowIds) where
  pub attach_tag-Keeps :
      (media_id : ℕ) (name : List ℕ) (reason : Reason) (db : Evidence)
      → Keeps db (attach_tag ids media_id name reason db).1
  attach_tag-Keeps media_id name reason db =
      Keeps-from (attach_tag-Extends ids media_id name reason db) (λ id t e a.
        inl (ap (load_candidate id) (attach_tag-source_tags ids media_id name reason db) ∙ e))

  pub skip-Keeps :
      (t : SourceTag) (db : Evidence)
      → load_candidate t.id db.source_tags ≡ some t
      → t.state ≡ pending
      → Keeps db (skip ids t db)
  skip-Keeps t db h p = Keeps-from (set_state-Extends skipped none t db h p) (λ id u e a.
      elim (Bool-cases (t.id == id)) [
        | inl s ↦
            let own = load_candidate-set_own skipped none t.id t db.source_tags h in
            let here : load_candidate t.id (set_state skipped none t.id db.source_tags) ≡ some u =
              ap (λ i. load_candidate i (set_state skipped none t.id db.source_tags))
                ((==_iff t.id id).0 s)
              ∙ e in
            let made : record t { state = skipped } ≡ u = cc in
            let state : skipped ≡ approved = ap (λ (x : SourceTag). x.state) made ∙ a in absurd (cc)
        | inr n ↦ inl (
            sym (
              load_candidate-set_state skipped none t.id id db.source_tags
                (λ q. absurd (ground (arith, ==_iff t.id id))))
            ∙ e)
      ])

  pub append-Keeps :
      (t : SourceTag) (db : Evidence)
      → t.state ≡ pending
      → Keeps db (record db { source_tags = db.source_tags ++ t ∷ [] })
  append-Keeps t db p =
      Keeps-from (append-Extends (t ∷ []) db)
        (λ id u e a. inl (load_candidate-pending id db.source_tags t u p e a))

  after-done : (o : Outcome ℕ) → o.1 ≡ (after o (done ids)).1
  after-done (ok k, d) = refl
  after-done (err e, d) = refl

  approved_row :
      (t u : SourceTag) (id : ℕ) (name : List ℕ) (reason : Reason) (db : Evidence)
      → load_candidate t.id db.source_tags ≡ some t
      → normalize_tag name ≡ some name
      → t.id ≡ id
      → load_candidate id (set_state approved (some name) t.id db.source_tags) ≡ some u
      → HasEffect u
          (attach_tag ids t.media_id name reason
            (record db { source_tags = set_state approved (some name) t.id db.source_tags })).1
  approved_row t u id name reason db h n s e =
      let rows = set_state approved (some name) t.id db.source_tags in
      let own = load_candidate-set_own approved (some name) t.id t db.source_tags h in
      let here : load_candidate t.id rows ≡ some u = ap (λ i. load_candidate i rows) s ∙ e in
      let made : record t { state = approved; normalized_name = some name } ≡ u = cc in
      let (k, r, tag, pair, why) =
        attach_tag-own ids t.media_id name reason (record db { source_tags = rows }) n in
      subst
        (λ v.
          HasEffect v (attach_tag ids t.media_id name reason (record db { source_tags = rows })).1)
        made
        record {
          name = name;
          tag_id = k;
          reason = r;
          is_named = refl;
          is_tag = tag;
          is_tagged = pair;
          has_reason = why;
        }

  pub approve-Keeps :
      (t : SourceTag) (missing : TagError) (reason : Reason) (name : Option (List ℕ))
      (db : Evidence)
      → load_candidate t.id db.source_tags ≡ some t
      → t.state ≡ pending
      → ((n : List ℕ) → name ≡ some n → normalize_tag n ≡ some n)
      → Keeps db (approve ids t missing reason name db).1
  approve-Keeps t missing reason none db h p n = Keeps-refl db
  approve-Keeps t missing reason (some name) db h p n =
      let rows = set_state approved (some name) t.id db.source_tags in
      let d = record db { source_tags = rows } in
      let made = attach_tag ids t.media_id name reason d in
      subst (Keeps db) (after-done made) (
        Keeps-from
          (Extends-trans (set_state-Extends approved (some name) t db h p)
            (attach_tag-Extends ids t.media_id name reason d))
          (λ id u e a.
            let found =
              ap (load_candidate id) (attach_tag-source_tags ids t.media_id name reason d) ∙ e in
            elim (Bool-cases (t.id == id)) [
              | inl s ↦
                  inr (
                    approved_row t u id name reason db h (n name refl) ((==_iff t.id id).0 s) found)
              | inr f ↦ inl (
                  sym (
                    load_candidate-set_state approved (some name) t.id id db.source_tags
                      (λ q. absurd (ground (arith, ==_iff t.id id))))
                  ∙ found)
            ]))
