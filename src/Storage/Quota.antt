-- ===== src/Storage/Quota.antt =====
-- src/storage.rs: by how much a sync can exceed the quota of its source.
use curator_rs.Prelude.{
  ℕ, ◌+◌, ◌≤◌, ◌<◌, ◌≡◌, ◌↔◌, inl, inr, Option-cases, true, false, Option, some, none, List, [],
  ◌∷◌, arith, max,
}
use curator_rs.Storage.Limits.{
  Settings, source_sync_admission, active_sync_pause, reserve_pause, full_pause, over_pause,
}

-- What a source holds when files of these sizes arrive one after the other, with a reading of the
-- free disk space at each, and the sync stops at the first pause.
unfoldable pub synced : Settings → ℕ → List (ℕ × Option ℕ) → ℕ
synced s used [] = used
synced s used ((size, free) ∷ files) =
    let rest = synced s (used + size) files in
    elim (active_sync_pause s free (used + size) true) [ some pause ↦ used + size | none ↦ rest ]

unfoldable pub largest : List (ℕ × Option ℕ) → ℕ
largest [] = 0
largest ((size, free) ∷ files) = max size (largest files)

within :
    (s : Settings) (limit used : ℕ) (free : Option ℕ)
    → s.max_source_storage_bytes ≡ some limit
    → active_sync_pause s free used true ≡ none
    → used ≤ limit
unfolding active_sync_pause over_pause reserve_pause
within s limit used free q h = ground arith

synced_within :
    (s : Settings) (limit used : ℕ) (files : List (ℕ × Option ℕ))
    → s.max_source_storage_bytes ≡ some limit
    → used ≤ limit
    → synced s used files ≤ limit + largest files
unfolding synced largest
synced_within s limit used [] q h = omega (arith, h)
synced_within s limit used ((size, free) ∷ files) q h =
    elim (Option-cases (active_sync_pause s free (used + size) true)) [
      | inl going ↦
          let rest =
            synced_within s limit (used + size) files q
              (within s limit (used + size) free q going) in
          ground arith
      | inr (pause, now) ↦ ground arith
    ]

-- A sync that was admitted under the source limits, and stops at the first pause that is called for
-- after a file, leaves the source at most one file over its limit.
pub synced_le :
    (s : Settings) (limit used : ℕ) (free : Option ℕ) (files : List (ℕ × Option ℕ))
    → s.max_source_storage_bytes ≡ some limit
    → source_sync_admission s free used true ≡ none
    → synced s used files ≤ limit + largest files
unfolding source_sync_admission full_pause reserve_pause
synced_le s limit used free files q h = synced_within s limit used files q (ground arith)

-- A sync is admitted exactly if the disk is not known to be below its reserve and, where the limits
-- of sources apply, the source is below its limit; then it is not paused at the same readings.
pub admission_iff :
    (s : Settings) (limit reserve disk used : ℕ)
    → s.max_source_storage_bytes ≡ some limit
    → s.minimum_free_disk_bytes ≡ some reserve
    → ((source_sync_admission s (some disk) used true ≡ none) ↔ ((reserve ≤ disk) × (used < limit)))
      × ((source_sync_admission s (some disk) used false ≡ none) ↔ (reserve ≤ disk))
      × ((active_sync_pause s (some disk) used true ≡ none) ↔ ((reserve ≤ disk) × (used ≤ limit)))
unfolding source_sync_admission active_sync_pause full_pause over_pause reserve_pause
admission_iff s limit reserve disk used q r = ground arith
