-- ===== src/Downloads/Controls.antt =====
-- src/services/downloads.rs: pausing and resuming all sources or one. `download_control` makes the
-- controls one step each; a statement that the database refuses is not modelled.
use curator_rs.Prelude.{
  ℕ, String, Bool, true, false, not, ◌&&◌, ◌||◌, Option, some, none, List, [], ◌∷◌, ◌++◌, ◌==◌,
  if◌then◌else◌, Result, ok, err, keep, any, length, is_empty, is_some, member, insert_new, remove,
}
use curator_rs.Downloads.Source.{
  Source, pending, paused, find_source, update_sources, is_queued_status, is_busy_status,
  is_status_paused, is_resumable_status,
}

-- The fields of `AppState` that syncing shares: the tokens with whether each is cancelled, the ids and
-- processes that run, those that `kill_pid` ended, and the runs that were spawned.
pub record DownloadState : Type 0 where
  pub sources : List Source
  pub is_paused : Bool
  pub paused_ids : List ℕ
  pub processes : List (ℕ × ℕ)
  pub tokens : List (ℕ × Bool)
  pub running : List ℕ
  pub killed : List ℕ
  pub spawned : List ℕ

abbrev pub keys {ℓ} : {A : Type ℓ} → List (ℕ × A) → List ℕ
keys [] = []
keys ((k, a) ∷ m) = k ∷ keys m

abbrev pub value_at {ℓ} : {A : Type ℓ} → ℕ → List (ℕ × A) → Option A
value_at n [] = none
value_at n ((k, a) ∷ m) = if k == n then some a else value_at n m

-- `token.cancel()` of the source, if it has one.
unfoldable pub cancel_token : ℕ → List (ℕ × Bool) → List (ℕ × Bool)
cancel_token id [] = []
cancel_token id ((k, b) ∷ m) = (k, b || k == id) ∷ cancel_token id m

abbrev pub as_paused : Source → Source
as_paused s = record s { status = paused }

unfoldable pub pause_process : ℕ × ℕ → DownloadState → DownloadState
pause_process (id, pid) st = record st {
  paused_ids = insert_new id st.paused_ids;
  tokens = cancel_token id st.tokens;
  killed = pid ∷ st.killed;
}

unfoldable pub pause_processes : List (ℕ × ℕ) → DownloadState → DownloadState
pause_processes [] st = st
pause_processes (p ∷ ps) st = pause_processes ps (pause_process p st)

unfoldable pub pause_token : ℕ → DownloadState → DownloadState
pause_token id st = record st {
  paused_ids = insert_new id st.paused_ids;
  tokens = cancel_token id st.tokens;
  sources = update_sources (λ s. s.id == id && is_busy_status s.status) as_paused st.sources;
}

unfoldable pub pause_tokens : List ℕ → DownloadState → DownloadState
pause_tokens [] st = st
pause_tokens (id ∷ ids) st = pause_tokens ids (pause_token id st)

-- The ids that hold a token and have no process.
abbrev pub waiting_ids : DownloadState → List ℕ
waiting_ids st = keep (λ id. not (member id (keys st.processes))) (keys st.tokens)

unfoldable pub pause_unchecked : DownloadState → DownloadState
pause_unchecked st =
    let st' : DownloadState = record st {
      is_paused = true;
      sources = update_sources (λ s. is_queued_status s.status) as_paused st.sources;
    } in
    pause_tokens (waiting_ids st) (pause_processes st.processes st')

abbrev pub requeued : String → Source → Source
requeued now s = record s { status = pending; queued_at = some now; current_filename = none }

unfoldable pub requeue_each : String → List ℕ → List Source → List Source
requeue_each now [] ss = ss
requeue_each now (id ∷ ids) ss =
    requeue_each now ids
      (update_sources (λ s. s.id == id && is_status_paused s.status) (requeued now) ss)

-- `SELECT id FROM sources WHERE status='paused'`
unfoldable pub paused_sources : List Source → List ℕ
paused_sources [] = []
paused_sources (s ∷ ss) =
    let rest = paused_sources ss in if is_status_paused s.status then s.id ∷ rest else rest

-- The loop waits while the sources that a pause stopped still run: there is no result yet.
unfoldable pub resume_unchecked : String → DownloadState → Option (ℕ × DownloadState)
resume_unchecked now st =
    if st.is_paused && not (is_empty st.running)
    then none
    else (let ids = paused_sources st.sources in
        some (
          length ids,
          record st {
            sources = requeue_each now ids st.sources;
            paused_ids = [];
            is_paused = false;
            spawned = st.spawned ++ ids;
          },
        ))

pub data ControlError : Type 0 where
  shutting_down maintenance_active not_found globally_paused not_resumable : ControlError

-- What the process says while a control is admitted: shutdown before and after the lease, and whether
-- maintenance grants the lease.
pub record Admission : Type 0 where
  pub is_shutting_down : Bool
  pub has_lease : Bool
  pub is_shutting_down_later : Bool

unfoldable pub refusal : Admission → Option ControlError
refusal a =
    if a.is_shutting_down
    then some shutting_down
    else if not a.has_lease
    then some maintenance_active
    else if a.is_shutting_down_later
    then some shutting_down
    else none

unfoldable pub pause_typed :
    Admission → DownloadState → Result ControlError (Unit {0}) × DownloadState
pause_typed a st = elim (refusal a) [ some e ↦ (err e, st) | none ↦ (ok tt, pause_unchecked st) ]

abbrev pub resumed_ok : Option (ℕ × DownloadState) → Option (Result ControlError ℕ × DownloadState)
resumed_ok none = none
resumed_ok (some (n, st)) = some (ok n, st)

unfoldable pub resume_typed :
    Admission → String → DownloadState → Option (Result ControlError ℕ × DownloadState)
resume_typed a now st = elim (refusal a) [
  | some e ↦ some (err e, st)
  | none ↦ resumed_ok (resume_unchecked now st)
]

unfoldable pub kill_process : Option ℕ → List ℕ → List ℕ
kill_process none killed = killed
kill_process (some pid) killed = pid ∷ killed

-- `maintenance.is_active()` refuses as a lease that is not granted does.
unfoldable pub pause_source_typed :
    Admission → ℕ → DownloadState → Result ControlError ℕ × DownloadState
pause_source_typed a id st = elim (refusal a) [
  | some e ↦ (err e, st)
  | none ↦
      if is_some (find_source id st.sources)
      then (
        ok id,
        record st {
          paused_ids = insert_new id st.paused_ids;
          tokens = cancel_token id st.tokens;
          killed = kill_process (value_at id st.processes) st.killed;
          sources = update_sources (λ s. s.id == id) as_paused st.sources;
        },
      )
      else (err not_found, st)
]

unfoldable pub resume_source_typed :
    Admission → String → ℕ → DownloadState → Result ControlError ℕ × DownloadState
resume_source_typed a now id st = elim (refusal a) [
  | some e ↦ (err e, st)
  | none ↦
      if st.is_paused
      then (err globally_paused, st)
      else if any (λ s. s.id == id && is_resumable_status s.status) st.sources
      then (
        ok id,
        record st {
          sources =
              update_sources (λ s. s.id == id && is_resumable_status s.status) (requeued now)
                st.sources;
          paused_ids = remove id st.paused_ids;
          spawned = st.spawned ++ id ∷ [];
        },
      )
      else (err not_resumable, st)
]

abbrev pub without_key : ℕ → List (ℕ × Bool) → List (ℕ × Bool)
without_key id m = keep (λ (e : ℕ × Bool). not (e.0 == id)) m

-- The head of `run_download`: a source runs once at a time.
unfoldable pub begin_run : Admission → ℕ → DownloadState → Option DownloadState
begin_run a id st =
    if not a.has_lease || a.is_shutting_down || member id st.running
    then none
    else some
        (record st { running = id ∷ st.running; tokens = (id, false) ∷ without_key id st.tokens })

unfoldable pub end_run : ℕ → DownloadState → DownloadState
end_run id st = record st { running = remove id st.running; tokens = without_key id st.tokens }
