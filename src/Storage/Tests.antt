-- ===== src/Storage/Tests.antt =====
-- Runs of the storage model, and its theorems at these runs.
use mathlib.Core.List.{Permᴰ}
use curator_rs.Prelude.{
  ℕ, ◌≤◌, ◌≡◌, refl, String, Option, some, none, List, [], ◌∷◌, ◌++◌, ok, true, false, arith,
  length, All,
}
use curator_rs.Storage.Limits.{
  Settings, reserve_pause, full_pause, over_pause, source_sync_admission, active_sync_pause,
}
use curator_rs.Storage.Quota.{synced, largest}
use curator_rs.Storage.Cleanup.{
  CleanupOutcome, ThumbnailUnit, count_removed, total_bytes, insert_unit, sort_units, evict,
  trim_thumbnail_cache, DirectoryEntry, remove_entries, is_newer, cutoff_at,
  remove_archives_older_than,
}
use curator_rs.Storage.Eviction.{Needed, trim_thumbnail_cache-ok}

model : Unit {0}
unfolding reserve_pause full_pause over_pause source_sync_admission active_sync_pause synced largest
    count_removed total_bytes insert_unit sort_units evict trim_thumbnail_cache remove_entries
    is_newer cutoff_at remove_archives_older_than
model = tt

abbrev limited : Settings
limited = record {
  minimum_free_disk_bytes = some 50;
  max_source_storage_bytes = some 100;
  apply_download_limits_to_local_imports = false;
}

abbrev arriving : List (ℕ × Option ℕ)
arriving = (30, some 900) ∷ (40, some 800) ∷ (10, some 700) ∷ []

limited-admits : source_sync_admission limited (some 900) 60 true ≡ none
unfolding model
limited-admits = refl

-- The third file does not arrive: the second one crossed the limit.
arriving_test : synced limited 60 arriving ≡ 130
unfolding model
arriving_test = refl

abbrev thumbnail : String → ℕ → ℕ → ThumbnailUnit
thumbnail main bytes modified = record {
  main = main;
  extras = [];
  bytes = bytes;
  modified = modified;
}

abbrev cached : List ThumbnailUnit
cached = thumbnail "1.jpg" 40 9 ∷ thumbnail "2.jpg" 30 5 ∷ thumbnail "3.jpg" 50 7 ∷ []

abbrev nothing_resists : String → Option String
nothing_resists path = none

abbrev trimmed : CleanupOutcome
trimmed = record { removed_items = 1; removed_bytes = 30 }

abbrev staying : List ThumbnailUnit
staying = thumbnail "3.jpg" 50 7 ∷ thumbnail "1.jpg" 40 9 ∷ []

cached-trimmed : trim_thumbnail_cache nothing_resists 95 cached ≡ (ok trimmed, staying)
unfolding model
cached-trimmed = refl

trim_thumbnail_cache-ok_example :
    (gone : List ThumbnailUnit) × Permᴰ (gone ++ staying) cached
    × All (λ u. All (λ v. u.modified ≤ v.modified) staying) gone
    × (total_bytes staying ≤ 95)
    × Needed 95 gone staying
    × (1 ≡ length gone)
    × (30 ≡ total_bytes gone)
unfolding model
trim_thumbnail_cache-ok_example =
    trim_thumbnail_cache-ok nothing_resists 95 cached staying trimmed (omega arith) (omega arith)
      (omega arith) cached-trimmed

abbrev archive : String → Option ℕ → DirectoryEntry
archive path modified = record {
  path = path;
  is_file = true;
  is_artifact = false;
  size = some 7;
  modified = modified;
}

-- The archive of day one goes; the one of day nine and what follows it stay.
archives_test :
    remove_archives_older_than nothing_resists 864000
      (some 5)
      (archive "a" (some 86400) ∷ archive "b" (some 777600) ∷ [])
    ≡ (ok (record { removed_items = 1; removed_bytes = 7 }), archive "b" (some 777600) ∷ [])
unfolding model
archives_test = refl
