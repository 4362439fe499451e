-- ===== src/Provenance/Attached.antt =====
-- src/provenance.rs, `attach_tag`: what it writes, and what it leaves as it was.
use curator_rs.Prelude.{
  ℕ, ◌≡◌, ◌∙◌, refl, sym, ap, true, Bool-cases, Option-cases, inl, inr, Option, some, none, List,
  [], ◌∷◌, ◌++◌, ◌==◌, RowIds, ok, err, or_else, arith,
}
use curator_rs.Ascii.{same_refl}
use curator_rs.Provenance.Names.{normalize_tag}
use curator_rs.Provenance.Rows.{
  tag_ids, insert_media_tag, insert_provenance, TagState, pending, approved, Reason, SourceTag,
  TagRule, NamedTag, SourceMetadata, Evidence, Outcome, after, tag_id_of, load_candidate, set_state,
}
use curator_rs.Provenance.Review.{
  insert_name, found_tag, named_tag, get_or_create_tag, attach_tag, with_tag,
}
use curator_rs.Provenance.Commands.{reason_of}
use curator_rs.Provenance.Extends.{
  has_pair, has_pair-insert_own, reason_of-insert_own, Extends, Extends-refl, Extends-trans,
  after-Extends, attach-Extends, tags-Extends,
}

pub rules-Extends :
    (rules : List TagRule) (db : Evidence) → Extends db (record db { rules = rules })
rules-Extends rules db = record {
  settled = λ id t h s. h;
  reasons = λ m k r h. h;
  named = λ n k h. h;
  tagged = λ m k h. h;
}

pub metadata-Extends :
    (metadata : List SourceMetadata) (db : Evidence)
    → Extends db (record db { metadata = metadata })
metadata-Extends metadata db = record {
  settled = λ id t h s. h;
  reasons = λ m k r h. h;
  named = λ n k h. h;
  tagged = λ m k h. h;
}

pub metadata_ids-Extends :
    (metadata_ids : List (ℕ × ℕ)) (db : Evidence)
    → Extends db (record db { metadata_ids = metadata_ids })
metadata_ids-Extends metadata_ids db = record {
  settled = λ id t h s. h;
  reasons = λ m k r h. h;
  named = λ n k h. h;
  tagged = λ m k h. h;
}

pub load_candidate-set_own :
    (state : TagState) (name : Option (List ℕ)) (id : ℕ) (t : SourceTag) (tags : List SourceTag)
    → load_candidate id tags ≡ some t
    → load_candidate id (set_state state name id tags)
      ≡ some (record t { state = state; normalized_name = or_else name t.normalized_name })
unfolding load_candidate set_state
load_candidate-set_own state name id t [] h = absurd (cc)
load_candidate-set_own state name id t (r ∷ tags) h = elim (Bool-cases (r.id == id)) [
  | inl e ↦
      let same : r ≡ t = ground arith in
      rw (e, e)
        (ap
          (λ (x : SourceTag).
            some (record x { state = state; normalized_name = or_else name x.normalized_name }))
          same)
  | inr e ↦ rw (e, e) (load_candidate-set_own state name id t tags (ground arith))
]

pub load_candidate-pending :
    (id : ℕ) (tags : List SourceTag) (t u : SourceTag)
    → t.state ≡ pending
    → load_candidate id (tags ++ t ∷ []) ≡ some u
    → u.state ≡ approved
    → load_candidate id tags ≡ some u
unfolding load_candidate
load_candidate-pending id [] t u p e a = elim (Bool-cases (t.id == id)) [
  | inl s ↦
      let same : t ≡ u = ground arith in
      let state : pending ≡ approved = sym p ∙ ap (λ (x : SourceTag). x.state) same ∙ a in
      absurd (cc)
  | inr f ↦ absurd (ground arith)
]
load_candidate-pending id (r ∷ tags) t u p e a = ground (arith, load_candidate-pending id tags t u)

tag_id_of-append_own :
    (name : List ℕ) (id : ℕ) (tags : List NamedTag)
    → tag_id_of name tags ≡ none
    → tag_id_of name (tags ++ record { id = id; name = name } ∷ []) ≡ some id
unfolding tag_id_of
tag_id_of-append_own name id [] h = ground (arith, same_refl name)
tag_id_of-append_own name id (t ∷ tags) h = ground (arith, tag_id_of-append_own name id tags)

module _ (ids : RowIds) where
  with_tag-Extends :
      (name : List ℕ) (o : Option ℕ) (db : Evidence)
      → Extends db (record db { tags = with_tag ids name db.tags o })
  with_tag-Extends name none db = tags-Extends _ db
  with_tag-Extends name (some id) db = Extends-refl db

  found_tag-Extends : (o : Option ℕ) (db : Evidence) → Extends db (found_tag ids o db).1
  found_tag-Extends none db = Extends-refl db
  found_tag-Extends (some id) db = Extends-refl db

  named_tag-Extends : (o : Option (List ℕ)) (db : Evidence) → Extends db (named_tag ids o db).1
  unfolding insert_name
  named_tag-Extends none db = Extends-refl db
  named_tag-Extends (some name) db =
      let tags = insert_name ids name db.tags in
      Extends-trans (with_tag-Extends name (tag_id_of name db.tags) db)
        (found_tag-Extends (tag_id_of name tags) (record db { tags = tags }))

  pub attach_tag-Extends :
      (media_id : ℕ) (name : List ℕ) (reason : Reason) (db : Evidence)
      → Extends db (attach_tag ids media_id name reason db).1
  unfolding attach_tag get_or_create_tag
  attach_tag-Extends media_id name reason db =
      after-Extends (get_or_create_tag ids name db) _ (named_tag-Extends (normalize_tag name) db)
        (λ tag_id d. attach-Extends media_id tag_id reason d)

  found_tag-source_tags :
      (o : Option ℕ) (db : Evidence) → (found_tag ids o db).1.source_tags ≡ db.source_tags
  found_tag-source_tags none db = refl
  found_tag-source_tags (some id) db = refl

  named_tag-source_tags :
      (o : Option (List ℕ)) (db : Evidence) → (named_tag ids o db).1.source_tags ≡ db.source_tags
  named_tag-source_tags none db = refl
  named_tag-source_tags (some name) db =
      found_tag-source_tags (tag_id_of name (insert_name ids name db.tags))
        (record db { tags = insert_name ids name db.tags })

  pub attach_tag-source_tags :
      (media_id : ℕ) (name : List ℕ) (reason : Reason) (db : Evidence)
      → db.source_tags ≡ (attach_tag ids media_id name reason db).1.source_tags
  unfolding attach_tag get_or_create_tag
  attach_tag-source_tags media_id name reason db =
      attached (get_or_create_tag ids name db) (named_tag-source_tags (normalize_tag name) db)
    where
      attached :
          (o : Outcome ℕ)
          → o.1.source_tags ≡ db.source_tags
          → db.source_tags
            ≡ (after o (λ tag_id db. (
              ok tag_id,
              record db {
                media_tags = insert_media_tag media_id tag_id db.media_tags;
                provenances = insert_provenance media_id tag_id reason db.provenances;
              },
            ))).1.source_tags
      attached (ok k, d) h = sym h
      attached (err e, d) h = sym h

  insert_name-own :
      (name : List ℕ) (tags : List NamedTag)
      → (k : ℕ) × (tag_id_of name (insert_name ids name tags) ≡ some k)
  unfolding insert_name
  insert_name-own name tags = elim (Option-cases (tag_id_of name tags)) [
    | inl n ↦
        let k = ids.next (tag_ids tags) in
        (
          k,
          ap (λ o. tag_id_of name (with_tag ids name tags o)) n
              ∙ tag_id_of-append_own name k tags n,
        )
    | inr (k, e) ↦ (k, ap (λ o. tag_id_of name (with_tag ids name tags o)) e ∙ e)
  ]

  -- A normalized name is attached: its tag is found, or made.
  pub attach_tag-own :
      (media_id : ℕ) (name : List ℕ) (reason : Reason) (db : Evidence)
      → normalize_tag name ≡ some name
      → (k : ℕ) × (r : Reason) × (tag_id_of name (attach_tag ids media_id name reason db).1.tags
          ≡ some k)
        × (has_pair media_id k (attach_tag ids media_id name reason db).1.media_tags ≡ true)
        × (reason_of media_id k (attach_tag ids media_id name reason db).1.provenances ≡ some r)
  unfolding attach_tag get_or_create_tag
  attach_tag-own media_id name reason db n =
      let (k, e) = insert_name-own name db.tags in
      let (r, g) = reason_of-insert_own media_id k reason db.provenances in
      let tags = insert_name ids name db.tags in
      rw (n, e) (k, r, e, has_pair-insert_own media_id k db.media_tags, g)
