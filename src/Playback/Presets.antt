-- ===== src/Playback/Presets.antt =====
-- src/services/playback.rs: `PlaybackPreset`, `validate`, `list`, `save` and `delete`. The body of a
-- row, a text of JSON, is the preset; an error of the database is not modelled.
use curator_rs.Prelude.{
  ℕ, ◌+◌, Bool, not, ◌&&◌, ◌||◌, Option, some, none, List, [], ◌∷◌, ◌++◌, ◌==◌, ltb, if◌then◌else◌,
  any, keep, length, is_empty, Result, ok, err,
}
use curator_rs.Ascii.{is_one_of, trimmed, byte_length}
use curator_rs.Session.Floats.{Floats, in_range}

pub record PlaybackPreset (F : Type 0) : Type 0 where
  pub version : ℕ
  pub id : Option ℕ
  pub revision : ℕ
  pub name : List ℕ
  pub media_ids : List ℕ
  pub collection_id : Option ℕ
  pub tags : List (List ℕ)
  pub media_types : List (List ℕ)
  pub order : List ℕ
  pub display_fit : List ℕ
  pub captions : Bool
  pub music_source : List ℕ
  pub playlist_id : Option ℕ
  pub music_volume : F

pub data PresetError : Type 0 where
  invalid read_only in_maintenance missing conflict : PresetError

-- A row of the table `playback_presets`.
pub record PresetRow (F : Type 0) : Type 0 where
  pub id : ℕ
  pub revision : ℕ
  pub body : PlaybackPreset F

-- Whether this edition owns the library, shuts down, and is granted a lease.
pub record Host : Type 0 where
  pub owns_library : Bool
  pub is_shutting_down : Bool
  pub has_lease : Bool

unfoldable pub list_presets : {F : Type 0} → List (PresetRow F) → List (PlaybackPreset F)
list_presets [] = []
list_presets (r ∷ rows) = r.body ∷ list_presets rows

-- `SELECT revision FROM playback_presets WHERE id=?1`
unfoldable pub revision_of : {F : Type 0} → ℕ → List (PresetRow F) → Option ℕ
revision_of id [] = none
revision_of id (r ∷ rows) =
    let rest = revision_of id rows in if r.id == id then some r.revision else rest

-- `UPDATE playback_presets SET revision=?1,body=?2 WHERE id=?3`
unfoldable pub update_preset :
    {F : Type 0} → ℕ → ℕ → PlaybackPreset F → List (PresetRow F) → List (PresetRow F)
update_preset revision id p [] = []
update_preset revision id p (r ∷ rows) =
    (if r.id == id then record r { revision = revision; body = p } else r)
    ∷ update_preset revision id p rows

abbrev pub is_at : {F : Type 0} → ℕ → ℕ → PresetRow F → Bool
is_at id revision r = r.id == id && r.revision == revision

module _ {F : Type 0} ⦃fl : Floats F⦄ where
  open fl use {of_nat, is_finite}

  -- The condition of `validate`; an id is a natural number.
  unfoldable pub is_bad_preset : PlaybackPreset F → Bool
  is_bad_preset p =
      not (p.version == 1)
      || is_empty (trimmed p.name)
      || ltb 160 (byte_length p.name)
      || not (is_one_of ("shuffled" ∷ "sequential" ∷ []) p.order)
      || not (is_one_of ("contain" ∷ "cover" ∷ []) p.display_fit)
      || not (
          is_one_of ("none" ∷ "local" ∷ "spotify" ∷ "apple_music" ∷ "youtube" ∷ "soundcloud" ∷ [])
            p.music_source)
      || not (is_finite p.music_volume)
      || not (in_range (of_nat 0) (of_nat 1) p.music_volume)
      || ltb 10000 (length p.media_ids)
      || ltb 100 (length p.tags)
      || is_empty p.media_types
      || any (λ t. not (is_one_of ("image" ∷ "video" ∷ "gif" ∷ []) t)) p.media_types
      || any (λ id. id == 0) p.media_ids
      || any (λ t. ltb 160 (byte_length t)) p.tags

  unfoldable pub refused : Host → PlaybackPreset F → Option PresetError
  refused h p =
      if is_bad_preset p
      then some invalid
      else if not h.owns_library || h.is_shutting_down
      then some read_only
      else if not h.has_lease
      then some in_maintenance
      else none

  abbrev trimmed_name : PlaybackPreset F → PlaybackPreset F
  trimmed_name p = record p { name = trimmed p.name }

  abbrev stored : ℕ → ℕ → PlaybackPreset F → PlaybackPreset F
  stored id revision p = record p { id = some id; revision = revision }

  -- `new_id` is the row that SQLite inserts for a preset without an id.
  unfoldable pub write_new :
      ℕ
      → PlaybackPreset F
      → List (PresetRow F)
      → Result PresetError (PlaybackPreset F) × List (PresetRow F)
  write_new new_id p rows =
      let p' = stored new_id 1 p in
      (ok p', rows ++ record { id = new_id; revision = 1; body = p' } ∷ [])

  unfoldable pub write_over :
      ℕ
      → PlaybackPreset F
      → List (PresetRow F)
      → Option ℕ
      → Result PresetError (PlaybackPreset F) × List (PresetRow F)
  write_over id p rows none = (err missing, rows)
  write_over id p rows (some revision) =
      if revision == p.revision
      then (let p' = stored id (revision + 1) p in (ok p', update_preset (revision + 1) id p' rows))
      else (err conflict, rows)

  unfoldable pub write_preset :
      ℕ
      → PlaybackPreset F
      → Option ℕ
      → List (PresetRow F)
      → Result PresetError (PlaybackPreset F) × List (PresetRow F)
  write_preset new_id p none rows = write_new new_id p rows
  write_preset new_id p (some id) rows = write_over id p rows (revision_of id rows)

  unfoldable pub save_checked :
      Option PresetError
      → ℕ
      → PlaybackPreset F
      → List (PresetRow F)
      → Result PresetError (PlaybackPreset F) × List (PresetRow F)
  save_checked (some e) new_id p rows = (err e, rows)
  save_checked none new_id p rows = write_preset new_id (trimmed_name p) p.id rows

  unfoldable pub save :
      Host
      → ℕ
      → PlaybackPreset F
      → List (PresetRow F)
      → Result PresetError (PlaybackPreset F) × List (PresetRow F)
  save h new_id p rows = save_checked (refused h p) new_id p rows

unfoldable pub delete :
    {F : Type 0}
    → Host
    → ℕ
    → ℕ
    → List (PresetRow F)
    → Result PresetError (Unit {0}) × List (PresetRow F)
delete h id revision rows =
    if not h.owns_library || h.is_shutting_down
    then (err read_only, rows)
    else if not h.has_lease
    then (err in_maintenance, rows)
    else if any (is_at id revision) rows
    then (ok tt, keep (λ r. not (is_at id revision r)) rows)
    else (err conflict, rows)
