-- ===== src/Storage/Cleanup.antt =====
-- src/storage.rs: `CleanupOutcome`, `trim_thumbnail_cache`, `clear_thumbnail_cache` and
-- `remove_archives_older_than`. What a directory holds is an argument; whether the operating system
-- removes a file is an argument as well, and what is removed is returned.
use curator_rs.Prelude.{
  ℕ, ◌+◌, ◌-◌, ◌*◌, String, Bool, false, ◌||◌, ◌&&◌, not, Option, some, none, List, [], ◌∷◌, ltb,
  leb, ◌==◌, if◌then◌else◌, saturating_add, Result, ok, err,
}

pub record CleanupOutcome : Type 0 where
  pub removed_items : ℕ
  pub removed_bytes : ℕ

abbrev pub nothing_removed : CleanupOutcome
nothing_removed = record { removed_items = 0; removed_bytes = 0 }

unfoldable pub count_removed : ℕ → CleanupOutcome → CleanupOutcome
count_removed bytes o = record {
  removed_items = saturating_add o.removed_items 1;
  removed_bytes = saturating_add o.removed_bytes bytes;
}

-- What `thumbnail_unit` returns of a thumbnail: its path, the paths beside it, the bytes of all of
-- them, and the time it was last used.
pub record ThumbnailUnit : Type 0 where
  pub main : String
  pub extras : List String
  pub bytes : ℕ
  pub modified : ℕ

unfoldable pub total_bytes : List ThumbnailUnit → ℕ
total_bytes [] = 0
total_bytes (u ∷ us) = u.bytes + total_bytes us

-- `sort_by_key(|unit| unit.3)`, which keeps the order of equal keys.
unfoldable pub insert_unit : ThumbnailUnit → List ThumbnailUnit → List ThumbnailUnit
insert_unit u [] = u ∷ []
insert_unit u (v ∷ vs) =
    let rest = insert_unit u vs in if leb u.modified v.modified then u ∷ v ∷ vs else v ∷ rest

unfoldable pub sort_units : List ThumbnailUnit → List ThumbnailUnit
sort_units [] = []
sort_units (u ∷ us) = insert_unit u (sort_units us)

-- A failed removal ends the loop with the error of the operating system; `resists` says of which
-- path, and of no path that is not a file any more.
abbrev pub Removal : Type 0
Removal = Result String CleanupOutcome × List ThumbnailUnit

module _ (resists : String → Option String) where
  -- The loop over the sorted units; it returns what stays beside the outcome.
  unfoldable pub evict : ℕ → ℕ → CleanupOutcome → List ThumbnailUnit → Removal
  evict maximum total o [] = (ok o, [])
  evict maximum total o (u ∷ us) =
      let rest = evict maximum (total - u.bytes) (count_removed u.bytes o) us in
      if leb total maximum
      then (ok o, u ∷ us)
      else elim (resists u.main) [ some e ↦ (err e, u ∷ us) | none ↦ rest ]

  unfoldable pub trim_thumbnail_cache : ℕ → List ThumbnailUnit → Removal
  trim_thumbnail_cache maximum units =
      let total = total_bytes units in
      if maximum == 0 || leb total maximum
      then (ok nothing_removed, units)
      else evict maximum total nothing_removed (sort_units units)

-- An entry of a directory: its path, whether it is a file, and what its metadata says.
pub record DirectoryEntry : Type 0 where
  pub path : String
  pub is_file : Bool
  pub is_artifact : Bool
  pub size : Option ℕ
  pub modified : Option ℕ

abbrev size_or_zero : Option ℕ → ℕ
size_or_zero (some n) = n
size_or_zero none = 0

-- The entries that a test picks are removed, until a removal fails.
unfoldable pub remove_entries :
    (String → Option String)
    → (DirectoryEntry → Bool)
    → CleanupOutcome
    → List DirectoryEntry
    → Result String CleanupOutcome × List DirectoryEntry
remove_entries resists picks o [] = (ok o, [])
remove_entries resists picks o (e ∷ es) =
    let (skipped, others) = remove_entries resists picks o es in
    let rest = remove_entries resists picks (count_removed (size_or_zero e.size) o) es in
    if picks e
    then elim (resists e.path) [ some failure ↦ (err failure, e ∷ es) | none ↦ rest ]
    else (skipped, e ∷ others)

unfoldable pub clear_thumbnail_cache :
    (String → Option String)
    → List DirectoryEntry
    → Result String CleanupOutcome × List DirectoryEntry
clear_thumbnail_cache resists =
    remove_entries resists (λ e. e.is_artifact && e.is_file) nothing_removed

-- `modified.is_some_and(|modified| modified > cutoff)`
unfoldable pub is_newer : Option ℕ → Option ℕ → Bool
is_newer (some cutoff) (some modified) = ltb cutoff modified
is_newer _ _ = false

-- `now` and the times of files are in seconds.
unfoldable pub cutoff_at : ℕ → Option ℕ → Option ℕ
cutoff_at now none = none
cutoff_at now (some days) = some (now - days * 86400)

unfoldable pub remove_archives_older_than :
    (String → Option String)
    → ℕ
    → Option ℕ
    → List DirectoryEntry
    → Result String CleanupOutcome × List DirectoryEntry
remove_archives_older_than resists now age_days =
    remove_entries resists (λ e. e.is_file && not (is_newer (cutoff_at now age_days) e.modified))
      nothing_removed
