-- ===== src/Downloads/Report.antt =====
-- src/services/downloads.rs: `status`, what the shell and the pages show of all sources.
use curator_rs.Prelude.{
  ℕ, ◌+◌, Bool, true, false, Option, some, none, List, [], ◌∷◌, ◌==◌, min, max, ltb, leb,
  if◌then◌else◌, is_some, member, keep, length,
}
use curator_rs.Session.Floats.{Floats, clamp}
use curator_rs.Downloads.Source.{
  Source, SourceStatus, pending, downloading, indexing, retrying, paused, storage_limit, low_disk,
  done, failed, RunError,
}
use curator_rs.Downloads.Controls.{DownloadState, keys}

-- The texts of `phase`.
pub data Phase : Type 0 where
  queued active in_index in_retry at_pause at_limit at_low_disk completed in_error : Phase

unfoldable pub phase_of : Bool → SourceStatus → Phase
phase_of is_active pending = queued
phase_of is_active downloading = if is_active then active else queued
phase_of is_active indexing = in_index
phase_of is_active retrying = in_retry
phase_of is_active paused = at_pause
phase_of is_active storage_limit = at_limit
phase_of is_active low_disk = at_low_disk
phase_of is_active done = completed
phase_of is_active failed = in_error

abbrev pub is_queued : Phase → Bool
is_queued queued = true
is_queued _ = false

abbrev pub is_in_retry : Phase → Bool
is_in_retry in_retry = true
is_in_retry _ = false

abbrev is_completed : Phase → Bool
is_completed completed = true
is_completed _ = false

-- The names and times of a source are passed on as they are and left out.
pub record SourceDownloadStatus (F : Type 0) : Type 0 where
  pub id : ℕ
  pub status : SourceStatus
  pub phase : Phase
  pub queue_position : Option ℕ
  pub known_total : Option ℕ
  pub completed_count : ℕ
  pub percentage : Option F
  pub indeterminate : Bool
  pub retry_at : Option ℕ
  pub error : Option RunError

pub record DownloadStatus (F : Type 0) : Type 0 where
  pub is_paused : Bool
  pub active_count : ℕ
  pub queued_count : ℕ
  pub retrying_count : ℕ
  pub paused_source_ids : List ℕ
  pub sources : List (SourceDownloadStatus F)

-- `sort_unstable`
abbrev insert_sorted : ℕ → List ℕ → List ℕ
insert_sorted x [] = x ∷ []
insert_sorted x (y ∷ ys) = let rest = insert_sorted x ys in if leb x y then x ∷ y ∷ ys else y ∷ rest

abbrev sorted : List ℕ → List ℕ
sorted [] = []
sorted (x ∷ xs) = insert_sorted x (sorted xs)

-- A source with the number of its media that are indexed, in the order of the query.
abbrev pub Row : Type 0
Row = Source × ℕ

-- `indexed_count.max(persisted_completed).max(item_count.min(indexed_count))`
unfoldable pub completed_of : Row → ℕ
completed_of (s, indexed) = max (max indexed s.completed_count) (min s.item_count indexed)

module _ {F : Type 0} ⦃fl : Floats F⦄ where
  unfoldable pub percentage_of : Phase → ℕ → ℕ → F
  percentage_of phase done_items total =
      if total == 0
      then Floats.of_nat fl (if is_completed phase then 100 else 0)
      else clamp
          (Floats.mul fl (Floats.div fl (Floats.of_nat fl done_items) (Floats.of_nat fl total))
            (Floats.of_nat fl 100))
          (Floats.of_nat fl 0) (Floats.of_nat fl 100)

  abbrev percentage_known : Phase → ℕ → Option ℕ → Option F
  percentage_known phase done_items none = none
  percentage_known phase done_items (some total) = some (percentage_of phase done_items total)

  unfoldable pub row_status : Phase → Option ℕ → Row → SourceDownloadStatus F
  row_status phase position (s, indexed) = record {
    id = s.id;
    status = s.status;
    phase = phase;
    queue_position = position;
    known_total = s.known_total;
    completed_count = completed_of (s, indexed);
    percentage = percentage_known phase (completed_of (s, indexed)) s.known_total;
    indeterminate = (if is_some s.known_total then false else true);
    retry_at = (if ltb 0 s.retry_at then some s.retry_at else none);
    error = s.error;
  }

  -- The rows one after the other, with the number of queued ones so far.
  unfoldable pub report_rows : List ℕ → ℕ → List Row → List (SourceDownloadStatus F)
  report_rows active_ids count [] = []
  report_rows active_ids count ((s, indexed) ∷ rows) =
      let phase = phase_of (member s.id active_ids) s.status in
      let waiting = report_rows active_ids (count + 1) rows in
      let others = report_rows active_ids count rows in
      if is_queued phase
      then row_status phase (some (count + 1)) (s, indexed) ∷ waiting
      else row_status phase none (s, indexed) ∷ others

  unfoldable pub status : DownloadState → List Row → DownloadStatus F
  status st rows =
      let sources = report_rows (keys st.processes) 0 rows in
      record {
        is_paused = st.is_paused;
        active_count = length st.processes;
        queued_count = length (keep (λ (r : SourceDownloadStatus F). is_queued r.phase) sources);
        retrying_count =
            length (keep (λ (r : SourceDownloadStatus F). is_in_retry r.phase) sources);
        paused_source_ids = sorted st.paused_ids;
        sources = sources;
      }
