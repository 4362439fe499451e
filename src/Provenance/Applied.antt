-- ===== src/Provenance/Applied.antt =====
-- src/provenance.rs: the approved source tags, and the tags that media have for them.
use curator_rs.Prelude.{ℕ, ◌≡◌, ◌⊎◌, true, inl, inr, some, List, ok, err}
use curator_rs.Provenance.Rows.{
  approved, Reason, SourceTag, Evidence, Outcome, after, tag_id_of, load_candidate,
}
use curator_rs.Provenance.Commands.{reason_of}
use curator_rs.Provenance.Extends.{Extends, Extends-refl, Extends-trans, has_pair}

-- The source tag has a name, and its medium has the tag of that name, with a reason.
pub record HasEffect (t : SourceTag) (db : Evidence) : Type 0 where
  pub name : List ℕ
  pub tag_id : ℕ
  pub reason : Reason
  pub is_named : t.normalized_name ≡ some name
  pub is_tag : tag_id_of name db.tags ≡ some tag_id
  pub is_tagged : has_pair t.media_id tag_id db.media_tags ≡ true
  pub has_reason : reason_of t.media_id tag_id db.provenances ≡ some reason

abbrev pub IsApplied : Evidence → Type 0
IsApplied db =
    (id : ℕ) (t : SourceTag)
    → load_candidate id db.source_tags ≡ some t
    → t.state ≡ approved
    → HasEffect t db

pub HasEffect-Extends :
    (t : SourceTag) {db db' : Evidence} → Extends db db' → HasEffect t db → HasEffect t db'
HasEffect-Extends t f e = record {
  name = e.name;
  tag_id = e.tag_id;
  reason = e.reason;
  is_named = e.is_named;
  is_tag = f.named e.name e.tag_id e.is_tag;
  is_tagged = f.tagged t.media_id e.tag_id e.is_tagged;
  has_reason = f.reasons t.media_id e.tag_id e.reason e.has_reason;
}

pub record Keeps (db db' : Evidence) : Type 0 where
  pub extends : Extends db db'
  pub applied : IsApplied db → IsApplied db'

pub Keeps-refl : (db : Evidence) → Keeps db db
Keeps-refl db = record { extends = Extends-refl db; applied = λ h. h }

pub Keeps-trans : {a b c : Evidence} → Keeps a b → Keeps b c → Keeps a c
Keeps-trans f g = record {
  extends = Extends-trans f.extends g.extends;
  applied = λ h. g.applied (f.applied h);
}

pub after-Keeps :
    {A B : Type 0} {db : Evidence} (o : Outcome A) (k : A → Evidence → Outcome B)
    → Keeps db o.1
    → ((a : A) (d : Evidence) → Keeps d (k a d).1)
    → Keeps db (after o k).1
after-Keeps (ok a, d) k f g = Keeps-trans f (g a d)
after-Keeps (err e, d) k f g = f

-- Each approved source tag of the later tables was there, or has its effect.
pub Keeps-from :
    {db db' : Evidence}
    → Extends db db'
    → ((id : ℕ) (t : SourceTag)
        → load_candidate id db'.source_tags ≡ some t
        → t.state ≡ approved
        → (load_candidate id db.source_tags ≡ some t) ⊎ HasEffect t db')
    → Keeps db db'
Keeps-from f g = record {
  extends = f;
  applied = λ h id t e a. elim (g id t e a) [
    | inl was ↦ HasEffect-Extends t f (h id t was a)
    | inr now ↦ now
  ];
}
