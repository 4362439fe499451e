-- ===== src/Downloads/Limits.antt =====
-- src/downloader.rs with src/storage.rs: the limits under which a download starts.
use curator_rs.Prelude.{ℕ, ◌≤◌, ◌<◌, ◌≡◌, ◌⊎◌, refl, inl, inr, String, true, false, some, arith}
use curator_rs.Storage.Limits.{Settings, source_sync_admission, reserve_pause, full_pause}
use curator_rs.Downloads.Source.{Source, downloading}
use curator_rs.Downloads.Admit.{
  Moments, Permit, shut_down, cancelled, granted, applies_limits, take_place, after_admission,
  on_admission, admit_run,
}

permit_cases : (p : Permit) → (p ≡ shut_down) ⊎ ((p ≡ cancelled) ⊎ (p ≡ granted))
permit_cases shut_down = inl refl
permit_cases cancelled = inr (inl refl)
permit_cases granted = inr (inr refl)

-- A source whose download starts, on a disk whose free space is known, of a library with a reserve of the
-- disk and a limit of sources that applies, leaves the disk its reserve; and it is below its limit, or had the permit to exceed it once,
-- which is used up. It is downloading, and downloads are not paused.
pub admit_run-go :
    (now : String) (settings : Settings) (reserve limit free used : ℕ) (m : Moments) (s s' : Source)
    → settings.minimum_free_disk_bytes ≡ some reserve
    → settings.max_source_storage_bytes ≡ some limit
    → applies_limits settings s ≡ true
    → admit_run now settings (some free) used m s ≡ (s', true)
    → (reserve ≤ free)
      × (s'.status ≡ downloading)
      × (m.paused_at_last ≡ false)
      × ((used < limit) ⊎ ((s.storage_override_once ≡ true) × (s'.storage_override_once ≡ false)))
unfolding admit_run on_admission after_admission take_place source_sync_admission reserve_pause
    full_pause
admit_run-go now settings reserve limit free used m s s' r l a h = elim (permit_cases m.permit) [
  | inl e ↦ absurd (ground arith)
  | inr (inl e) ↦ absurd (ground arith)
  | inr (inr e) ↦ ground arith
]
