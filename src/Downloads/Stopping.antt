-- ===== src/Downloads/Stopping.antt =====
-- src/services/downloads.rs, `pause_unchecked`: which sources it stops.
use curator_rs.Prelude.{
  ℕ, ◌≡◌, refl, Bool, false, ◌&&◌, Bool-cases, inl, inr, List, [], ◌∷◌, ◌==◌, ==_iff, arith, All,
  member,
}
use curator_rs.Downloads.Source.{Source, update_sources, is_busy_status}
use curator_rs.Downloads.Controls.{
  DownloadState, as_paused, pause_process, pause_processes, pause_token, pause_tokens,
}

pub sources-pause_processes :
    (ps : List (ℕ × ℕ)) (st : DownloadState) → (pause_processes ps st).sources ≡ st.sources
unfolding pause_processes pause_process
sources-pause_processes [] st = refl
sources-pause_processes ((id, pid) ∷ ps) st =
    sources-pause_processes ps (pause_process (id, pid) st)

pub stop_each : List ℕ → List Source → List Source
stop_each [] ss = ss
stop_each (id ∷ ids) ss =
    stop_each ids (update_sources (λ s. s.id == id && is_busy_status s.status) as_paused ss)

pub sources-pause_tokens :
    (ids : List ℕ) (st : DownloadState) → (pause_tokens ids st).sources ≡ stop_each ids st.sources
unfolding pause_tokens pause_token stop_each
sources-pause_tokens [] st = refl
sources-pause_tokens (id ∷ ids) st = sources-pause_tokens ids (pause_token id st)

-- What holds of every paused source stays.
module _ (P : Source → Type 0) (paused_too : (s : Source) → P (as_paused s)) where
  All-update_paused :
      (test : Source → Bool) (ss : List Source)
      → All P ss
      → All P (update_sources test as_paused ss)
  unfolding update_sources
  All-update_paused test [] h = tt
  All-update_paused test (s ∷ ss) (h, hs) = elim (Bool-cases (test s)) [
    | inl t ↦ rw t (paused_too s, All-update_paused test ss hs)
    | inr f ↦ rw f (h, All-update_paused test ss hs)
  ]

  pub All-stop_each : (ids : List ℕ) (ss : List Source) → All P ss → All P (stop_each ids ss)
  unfolding stop_each
  All-stop_each [] ss h = h
  All-stop_each (id ∷ ids) ss h =
      All-stop_each ids _ (All-update_paused (λ s. s.id == id && is_busy_status s.status) ss h)

-- A test that is false of a paused source is false of all that were stopped by it.
pub update_paused-false :
    (test : Source → Bool) (ss : List Source)
    → ((s : Source) → test (as_paused s) ≡ false)
    → All (λ s. test s ≡ false) (update_sources test as_paused ss)
unfolding update_sources
update_paused-false test [] h = tt
update_paused-false test (s ∷ ss) h = elim (Bool-cases (test s)) [
  | inl t ↦ rw t (h s, update_paused-false test ss h)
  | inr f ↦ rw f (f, update_paused-false test ss h)
]

abbrev pub IsStopped : List ℕ → Source → Type 0
IsStopped ids s = (is_busy_status s.status && member s.id ids) ≡ false

All-IsStopped :
    (id : ℕ) (ids : List ℕ) (ss : List Source)
    → All (λ s. (s.id == id && is_busy_status s.status) ≡ false) ss
    → All (IsStopped ids) ss
    → All (IsStopped (id ∷ ids)) ss
All-IsStopped id ids [] h k = tt
All-IsStopped id ids (s ∷ ss) (h, hs) (k, ks) =
    (ground (arith, ==_iff s.id id, ==_iff id s.id), All-IsStopped id ids ss hs ks)

none-IsStopped : (ss : List Source) → All (IsStopped []) ss
none-IsStopped [] = tt
none-IsStopped (s ∷ ss) = (ground arith, none-IsStopped ss)

pub stop_each-IsStopped : (ids : List ℕ) (ss : List Source) → All (IsStopped ids) (stop_each ids ss)
unfolding stop_each
stop_each-IsStopped [] ss = none-IsStopped ss
stop_each-IsStopped (id ∷ ids) ss =
    let stopped = update_sources (λ s. s.id == id && is_busy_status s.status) as_paused ss in
    All-IsStopped id ids (stop_each ids stopped)
      (All-stop_each (λ s. (s.id == id && is_busy_status s.status) ≡ false) (λ s. ground arith) ids
        stopped
        (update_paused-false (λ s. s.id == id && is_busy_status s.status) ss (λ s. ground arith)))
      (stop_each-IsStopped ids stopped)
