-- ===== src/Provenance/Extends.antt =====
-- src/provenance.rs: what each statement leaves as it was.
use curator_rs.Prelude.{
  ℕ, ◌≡◌, ◌≢◌, ◌∙◌, refl, sym, ap, Bool, true, false, ◌&&◌, ◌||◌, Bool-cases, Option-cases, inl,
  inr, Option, some, none, List, [], ◌∷◌, ◌++◌, ◌==◌, ==_iff, any, ok, err, arith,
}
use curator_rs.Provenance.Rows.{
  TagState, pending, Reason, SourceTag, NamedTag, MediaTag, Evidence, Outcome, after, tag_id_of,
  is_media_tag, insert_media_tag, insert_provenance, load_candidate, set_state,
}
use curator_rs.Provenance.Commands.{reason_of}

abbrev pub has_pair : ℕ → ℕ → List (ℕ × ℕ) → Bool
has_pair media_id tag_id rows = any (λ r. r.0 == media_id && r.1 == tag_id) rows

-- What later tables keep of earlier ones: the source tags that are reviewed, the reasons, the ids of
-- the tags and the tags of media.
pub record Extends (db db' : Evidence) : Type 0 where
  pub settled :
      (id : ℕ) (t : SourceTag)
      → load_candidate id db.source_tags ≡ some t
      → t.state ≢ pending
      → load_candidate id db'.source_tags ≡ some t
  pub reasons :
      (media_id tag_id : ℕ) (r : Reason)
      → reason_of media_id tag_id db.provenances ≡ some r
      → reason_of media_id tag_id db'.provenances ≡ some r
  pub named :
      (name : List ℕ) (id : ℕ)
      → tag_id_of name db.tags ≡ some id
      → tag_id_of name db'.tags ≡ some id
  pub tagged :
      (media_id tag_id : ℕ)
      → has_pair media_id tag_id db.media_tags ≡ true
      → has_pair media_id tag_id db'.media_tags ≡ true

pub Extends-refl : (db : Evidence) → Extends db db
Extends-refl db = record {
  settled = λ id t h s. h;
  reasons = λ m k r h. h;
  named = λ n k h. h;
  tagged = λ m k h. h;
}

pub Extends-trans : {a b c : Evidence} → Extends a b → Extends b c → Extends a c
Extends-trans f g = record {
  settled = λ id t h s. g.settled id t (f.settled id t h s) s;
  reasons = λ m k r h. g.reasons m k r (f.reasons m k r h);
  named = λ n k h. g.named n k (f.named n k h);
  tagged = λ m k h. g.tagged m k (f.tagged m k h);
}

pub after-Extends :
    {A B : Type 0} {db : Evidence} (o : Outcome A) (k : A → Evidence → Outcome B)
    → Extends db o.1
    → ((a : A) (d : Evidence) → Extends d (k a d).1)
    → Extends db (after o k).1
after-Extends (ok a, d) k f g = Extends-trans f (g a d)
after-Extends (err e, d) k f g = f

pub load_candidate-id :
    (id : ℕ) (tags : List SourceTag) (t : SourceTag) → load_candidate id tags ≡ some t → t.id ≡ id
unfolding load_candidate
load_candidate-id id [] t h = absurd (cc)
load_candidate-id id (r ∷ tags) t h = elim (Bool-cases (r.id == id)) [
  | inl e ↦
      let same : r ≡ t = ground arith in
      sym (ap (λ (x : SourceTag). x.id) same) ∙ (==_iff r.id id).0 e
  | inr e ↦ load_candidate-id id tags t (ground arith)
]

pub load_candidate-append :
    (id : ℕ) (tags more : List SourceTag) (t : SourceTag)
    → load_candidate id tags ≡ some t
    → load_candidate id (tags ++ more) ≡ some t
unfolding load_candidate
load_candidate-append id [] more t h = absurd (cc)
load_candidate-append id (r ∷ tags) more t h = ground (arith, load_candidate-append id tags more t)

pub load_candidate-set_state :
    (state : TagState) (name : Option (List ℕ)) (changed id : ℕ) (tags : List SourceTag)
    → changed ≢ id
    → load_candidate id (set_state state name changed tags) ≡ load_candidate id tags
unfolding load_candidate set_state
load_candidate-set_state state name changed id [] n = refl
load_candidate-set_state state name changed id (r ∷ tags) n = elim (Bool-cases (r.id == changed)) [
  | inl e ↦ ground (
    arith,
    load_candidate-set_state state name changed id tags n,
    ==_iff r.id changed,
    ==_iff r.id id,
  )
  | inr e ↦ rw e (ground (arith, load_candidate-set_state state name changed id tags n))
]

source_tags-Extends :
    (db : Evidence) (new : List SourceTag)
    → ((id : ℕ) (t : SourceTag)
        → load_candidate id db.source_tags ≡ some t
        → t.state ≢ pending
        → load_candidate id new ≡ some t)
    → Extends db (record db { source_tags = new })
source_tags-Extends db new f = record {
  settled = f;
  reasons = λ m k r h. h;
  named = λ n k h. h;
  tagged = λ m k h. h;
}

-- A change of one source tag that is pending.
pub set_state-Extends :
    (state : TagState) (name : Option (List ℕ)) (t : SourceTag) (db : Evidence)
    → load_candidate t.id db.source_tags ≡ some t
    → t.state ≡ pending
    → Extends db (record db { source_tags = set_state state name t.id db.source_tags })
set_state-Extends state name t db h p =
    source_tags-Extends db (set_state state name t.id db.source_tags) (λ id u g s.
      elim (Bool-cases (t.id == id)) [
        | inl e ↦
            let found : load_candidate t.id db.source_tags ≡ some u =
              ap (λ i. load_candidate i db.source_tags) ((==_iff t.id id).0 e) ∙ g in
            let same : t ≡ u = cc in absurd (s (sym (ap (λ (x : SourceTag). x.state) same) ∙ p))
        | inr e ↦
            load_candidate-set_state state name t.id id db.source_tags
              (λ n. absurd (ground (arith, ==_iff t.id id)))
            ∙ g
      ])

pub append-Extends :
    (more : List SourceTag) (db : Evidence)
    → Extends db (record db { source_tags = db.source_tags ++ more })
append-Extends more db =
    source_tags-Extends db (db.source_tags ++ more)
      (λ id u g s. load_candidate-append id db.source_tags more u g)

reason_of-append :
    (m k : ℕ) (rows : List MediaTag) (new : MediaTag) (r : Reason)
    → reason_of m k rows ≡ some r
    → reason_of m k (rows ++ new ∷ []) ≡ some r
unfolding reason_of
reason_of-append m k [] new r h = absurd (cc)
reason_of-append m k (x ∷ rows) new r h = ground (arith, reason_of-append m k rows new r)

reason_of-insert :
    (m k media_id tag_id : ℕ) (reason r : Reason) (rows : List MediaTag)
    → reason_of m k rows ≡ some r
    → reason_of m k (insert_provenance media_id tag_id reason rows) ≡ some r
unfolding insert_provenance
reason_of-insert m k media_id tag_id reason r rows h = ground (
  arith,
  reason_of-append m k rows record { media_id = media_id; tag_id = tag_id; provenance = reason } r,
)

has_pair-append :
    (m k : ℕ) (rows : List (ℕ × ℕ)) (new : ℕ × ℕ)
    → has_pair m k (rows ++ new ∷ []) ≡ (has_pair m k rows || has_pair m k (new ∷ []))
has_pair-append m k [] new = ground arith
has_pair-append m k (r ∷ rows) new = ground (arith, has_pair-append m k rows new)

has_pair-insert :
    (m k media_id tag_id : ℕ) (rows : List (ℕ × ℕ))
    → has_pair m k rows ≡ true
    → has_pair m k (insert_media_tag media_id tag_id rows) ≡ true
unfolding insert_media_tag
has_pair-insert m k media_id tag_id rows h =
    ground (arith, has_pair-append m k rows (media_id, tag_id))

pub has_pair-insert_own :
    (m k : ℕ) (rows : List (ℕ × ℕ)) → has_pair m k (insert_media_tag m k rows) ≡ true
unfolding insert_media_tag
has_pair-insert_own m k rows =
    ground (arith, has_pair-append m k rows (m, k), ==_iff m m, ==_iff k k)

tag_id_of-append :
    (name : List ℕ) (tags more : List NamedTag) (id : ℕ)
    → tag_id_of name tags ≡ some id
    → tag_id_of name (tags ++ more) ≡ some id
unfolding tag_id_of
tag_id_of-append name [] more id h = absurd (cc)
tag_id_of-append name (t ∷ tags) more id h = ground (arith, tag_id_of-append name tags more id)

pub attach-Extends :
    (m k : ℕ) (reason : Reason) (db : Evidence)
    → Extends db (record db {
      media_tags = insert_media_tag m k db.media_tags;
      provenances = insert_provenance m k reason db.provenances;
    })
attach-Extends m k reason db = record {
  settled = λ id t h s. h;
  reasons = λ a b r h. reason_of-insert a b m k reason r db.provenances h;
  named = λ n i h. h;
  tagged = λ a b h. has_pair-insert a b m k db.media_tags h;
}

pub tags-Extends :
    (more : List NamedTag) (db : Evidence) → Extends db (record db { tags = db.tags ++ more })
tags-Extends more db = record {
  settled = λ id t h s. h;
  reasons = λ a b r h. h;
  named = λ n i h. tag_id_of-append n db.tags more i h;
  tagged = λ a b h. h;
}

reason_of-absent :
    (m k : ℕ) (rows : List MediaTag) (new : MediaTag)
    → reason_of m k rows ≡ none
    → (any (is_media_tag m k) rows ≡ false)
      × (reason_of m k (rows ++ new ∷ []) ≡ reason_of m k (new ∷ []))
unfolding reason_of
reason_of-absent m k [] new n = (refl, refl)
reason_of-absent m k (r ∷ rows) new n =
    let rest = reason_of-absent m k rows new (ground arith) in
    (ground arith, ground (arith, rest.1))

-- A tag that was attached has a reason: the first one.
pub reason_of-insert_own :
    (m k : ℕ) (reason : Reason) (rows : List MediaTag)
    → (r : Reason) × (reason_of m k (insert_provenance m k reason rows) ≡ some r)
unfolding insert_provenance reason_of
reason_of-insert_own m k reason rows = elim (Option-cases (reason_of m k rows)) [
  | inl n ↦
      let (absent, last) =
        reason_of-absent m k rows record { media_id = m; tag_id = k; provenance = reason } n in
      (reason, ground (arith, ==_iff m m, ==_iff k k))
  | inr (r, e) ↦ (r, reason_of-insert m k m k reason r rows e)
]
