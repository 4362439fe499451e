-- ===== src/Playback/Spec.antt =====
-- The contract of src/services/playback.rs, apart from its table: a book of presets under ids, in
-- which a page replaces or removes a preset by naming the revision that it read.
use curator_rs.Prelude.{
  ℕ, ◌+◌, ◌≡◌, ◌≢◌, Bool, Option, some, none, List, [], ◌∷◌, ◌==◌, if◌then◌else◌, not, ◌||◌,
}
use curator_rs.Ascii.{trimmed}
use curator_rs.Session.Floats.{Floats}
use curator_rs.Playback.Presets.{
  PlaybackPreset, PresetError, missing, conflict, read_only, in_maintenance, Host, refused,
}

-- The revision and the preset under each id.
abbrev pub Book : Type 0 → Type 0
Book F = ℕ → Option (ℕ × PlaybackPreset F)

abbrev pub changed_at : {F : Type 0} → ℕ → Option (ℕ × PlaybackPreset F) → Book F → Book F
changed_at id entry b k = if k == id then entry else b k

pub data Request (F : Type 0) : Type 0 where
  saving : Host → PlaybackPreset F → Request F
  deleting : Host → ℕ → ℕ → Request F

pub data Reply (F : Type 0) : Type 0 where
  saved : PlaybackPreset F → Reply F
  deleted : Reply F
  failed : PresetError → Reply F

-- What is kept of a preset that is saved under an id, at a revision.
abbrev pub kept_as : {F : Type 0} → ℕ → ℕ → PlaybackPreset F → PlaybackPreset F
kept_as id revision p = record p { id = some id; revision = revision; name = trimmed p.name }

module _ {F : Type 0} ⦃fl : Floats F⦄ where
  -- Which replies a request may have, and what becomes of the book.
  pub data Answer : Book F → Request F → Reply F → Book F → Type 0 where
    save_refused :
        (b : Book F) (h : Host) (p : PlaybackPreset F) (e : PresetError)
        → refused h p ≡ some e
        → Answer b (saving h p) (failed e) b
    save_created :
        (b : Book F) (h : Host) (p : PlaybackPreset F) (id : ℕ)
        → refused h p ≡ none
        → p.id ≡ none
        → b id ≡ none
        → Answer b
            (saving h p)
            (saved (kept_as id 1 p))
            (changed_at id (some (1, kept_as id 1 p)) b)
    save_replaced :
        (b : Book F) (h : Host) (p old : PlaybackPreset F) (id : ℕ)
        → refused h p ≡ none
        → p.id ≡ some id
        → b id ≡ some (p.revision, old)
        → Answer b
            (saving h p)
            (saved (kept_as id (p.revision + 1) p))
            (changed_at id (some (p.revision + 1, kept_as id (p.revision + 1) p)) b)
    save_missing :
        (b : Book F) (h : Host) (p : PlaybackPreset F) (id : ℕ)
        → refused h p ≡ none
        → p.id ≡ some id
        → b id ≡ none
        → Answer b (saving h p) (failed missing) b
    save_conflict :
        (b : Book F) (h : Host) (p other : PlaybackPreset F) (id revision : ℕ)
        → refused h p ≡ none
        → p.id ≡ some id
        → b id ≡ some (revision, other)
        → revision ≢ p.revision
        → Answer b (saving h p) (failed conflict) b
    delete_done :
        (b : Book F) (h : Host) (id revision : ℕ) (old : PlaybackPreset F)
        → b id ≡ some (revision, old)
        → Answer b (deleting h id revision) deleted (changed_at id none b)
    delete_conflict :
        (b : Book F) (h : Host) (id revision : ℕ)
        → ((old : PlaybackPreset F) → b id ≢ some (revision, old))
        → Answer b (deleting h id revision) (failed conflict) b
    delete_read_only :
        (b : Book F) (h : Host) (id revision : ℕ)
        → (not h.owns_library || h.is_shutting_down) ≡ Bool.true
        → Answer b (deleting h id revision) (failed read_only) b
    delete_in_maintenance :
        (b : Book F) (h : Host) (id revision : ℕ)
        → h.has_lease ≡ Bool.false
        → Answer b (deleting h id revision) (failed in_maintenance) b

  -- The replies to a list of requests, one after the other.
  pub data Answers : Book F → List (Request F) → List (Reply F) → Book F → Type 0 where
    no_more : (b : Book F) → Answers b [] [] b
    first :
        {b b' b'' : Book F} {r : Request F} {a : Reply F} {rs : List (Request F)}
        {as' : List (Reply F)}
        → Answer b r a b'
        → Answers b' rs as' b''
        → Answers b (r ∷ rs) (a ∷ as') b''
