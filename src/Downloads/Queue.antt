-- ===== src/Downloads/Queue.antt =====
-- src/services/downloads.rs, `status`: the positions in the queue.
use curator_rs.Prelude.{
  ℕ, zero, suc, ◌+◌, ◌≡◌, refl, ap, Bool-cases, inl, inr, Option, some, none, List, [], ◌∷◌, member,
  keep, length,
}
use curator_rs.Session.Floats.{Floats}
use curator_rs.Downloads.Controls.{DownloadState, keys}
use curator_rs.Downloads.Report.{
  SourceDownloadStatus, DownloadStatus, Row, is_queued, phase_of, row_status, report_rows, status,
}

abbrev with_position : Option ℕ → List ℕ → List ℕ
with_position none ps = ps
with_position (some p) ps = p ∷ ps

-- The positions of the sources that have one, in the order of the report.
unfoldable pub positions : {F : Type 0} → List (SourceDownloadStatus F) → List ℕ
positions [] = []
positions (r ∷ rs) = with_position r.queue_position (positions rs)

-- `n` numbers from `first` on.
unfoldable pub numbers_from : ℕ → ℕ → List ℕ
numbers_from first zero = []
numbers_from first (suc n) = first ∷ numbers_from (first + 1) n

module _ (F : Type 0) ⦃fl : Floats F⦄ where
  abbrev queued_in : List (SourceDownloadStatus F) → ℕ
  queued_in rs = length (keep (λ (r : SourceDownloadStatus F). is_queued r.phase) rs)

  positions-report_rows :
      (active_ids : List ℕ) (count : ℕ) (rows : List Row)
      → positions (report_rows {F = F} active_ids count rows)
        ≡ numbers_from (count + 1) (queued_in (report_rows active_ids count rows))
  unfolding positions numbers_from report_rows row_status
  positions-report_rows active_ids count [] = refl
  positions-report_rows active_ids count ((s, indexed) ∷ rows) =
      elim (Bool-cases (is_queued (phase_of (member s.id active_ids) s.status))) [
        | inl waits ↦
            rw (waits, waits)
              (ap (λ l. (count + 1) ∷ l) (positions-report_rows active_ids (count + 1) rows))
        | inr other ↦ rw (other, other) (positions-report_rows active_ids count rows)
      ]

  -- The positions in the queue are the numbers from one to the number of queued sources, in the order
  -- of the report.
  pub positions-status :
      (st : DownloadState) (rows : List Row)
      → let report : DownloadStatus F = status st rows in
        positions report.sources ≡ numbers_from 1 report.queued_count
  unfolding status
  positions-status st rows = positions-report_rows (keys st.processes) 0 rows
