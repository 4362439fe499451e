-- ===== src/Downloads/Pausing.antt =====
-- src/services/downloads.rs: the state that `pause_unchecked` leaves.
use curator_rs.Prelude.{
  ℕ, ◌≡◌, ◌∙◌, refl, sym, ap, subst, Bool, true, false, ◌&&◌, List, [], ◌∷◌, arith, All, member,
  member-insert_new,
}
use curator_rs.Downloads.Source.{update_sources, is_queued_status}
use curator_rs.Downloads.Controls.{
  DownloadState, keys, as_paused, pause_process, pause_processes, pause_token, pause_tokens,
  waiting_ids, pause_unchecked,
}
use mathlib.Core.List.{append-nil}
use curator_rs.Downloads.Tokens.{
  CancelledBut, cancel_each, cancel_each-CancelledBut, CancelledBut-nil, CancelledBut-waiting,
  All-member-keys, tokens-pause_processes, tokens-pause_tokens,
}
use curator_rs.Downloads.Stopping.{
  sources-pause_processes, stop_each, sources-pause_tokens, All-stop_each, update_paused-false,
  IsStopped, stop_each-IsStopped,
}

-- The processes that were paused: their ids are among the paused ones, and they were killed.
abbrev AllKilled : List (ℕ × ℕ) → DownloadState → Type 0
AllKilled ps st = All (λ (p : ℕ × ℕ). (member p.0 st.paused_ids && member p.1 st.killed) ≡ true) ps

AllKilled-pause_process :
    (p : ℕ × ℕ) (ps : List (ℕ × ℕ)) (st : DownloadState)
    → AllKilled ps st
    → AllKilled ps (pause_process p st)
unfolding pause_process
AllKilled-pause_process p [] st h = tt
AllKilled-pause_process (id, pid) ((a, b) ∷ ps) st (h, hs) = (
  ground (arith, member-insert_new a id st.paused_ids),
  AllKilled-pause_process (id, pid) ps st hs,
)

AllKilled-pause_token :
    (id : ℕ) (ps : List (ℕ × ℕ)) (st : DownloadState)
    → AllKilled ps st
    → AllKilled ps (pause_token id st)
unfolding pause_token
AllKilled-pause_token id [] st h = tt
AllKilled-pause_token id ((a, b) ∷ ps) st (h, hs) =
    (ground (arith, member-insert_new a id st.paused_ids), AllKilled-pause_token id ps st hs)

AllKilled-pause_tokens :
    (ids : List ℕ) (ps : List (ℕ × ℕ)) (st : DownloadState)
    → AllKilled ps st
    → AllKilled ps (pause_tokens ids st)
unfolding pause_tokens
AllKilled-pause_tokens [] ps st h = h
AllKilled-pause_tokens (id ∷ ids) ps st h =
    AllKilled-pause_tokens ids ps (pause_token id st) (AllKilled-pause_token id ps st h)

AllKilled-keep :
    (qs ps : List (ℕ × ℕ)) (st : DownloadState)
    → AllKilled qs st
    → AllKilled qs (pause_processes ps st)
unfolding pause_processes
AllKilled-keep qs [] st h = h
AllKilled-keep qs (p ∷ ps) st h =
    AllKilled-keep qs ps (pause_process p st) (AllKilled-pause_process p qs st h)

AllKilled-pause_processes :
    (ps : List (ℕ × ℕ)) (st : DownloadState) → AllKilled ps (pause_processes ps st)
unfolding pause_processes pause_process
AllKilled-pause_processes [] st = tt
AllKilled-pause_processes ((id, pid) ∷ ps) st =
    let st' = pause_process (id, pid) st in
    let first : AllKilled ((id, pid) ∷ []) st' =
      (ground (arith, member-insert_new id id st.paused_ids), tt) in
    ((AllKilled-keep ((id, pid) ∷ []) ps st' first).0, AllKilled-pause_processes ps st')

is_paused-pause_processes :
    (ps : List (ℕ × ℕ)) (st : DownloadState) → (pause_processes ps st).is_paused ≡ st.is_paused
unfolding pause_processes pause_process
is_paused-pause_processes [] st = refl
is_paused-pause_processes ((id, pid) ∷ ps) st =
    is_paused-pause_processes ps (pause_process (id, pid) st)

is_paused-pause_tokens :
    (ids : List ℕ) (st : DownloadState) → (pause_tokens ids st).is_paused ≡ st.is_paused
unfolding pause_tokens pause_token
is_paused-pause_tokens [] st = refl
is_paused-pause_tokens (id ∷ ids) st = is_paused-pause_tokens ids (pause_token id st)

-- What a pause promises of the state that it leaves.
pub record IsQuiet (before after : DownloadState) : Type 0 where
  pub flagged : after.is_paused ≡ true
  pub unqueued : All (λ s. is_queued_status s.status ≡ false) after.sources
  pub stopped : All (IsStopped (waiting_ids before)) after.sources
  pub cancelled : All (λ (e : ℕ × Bool). e.1 ≡ true) after.tokens
  pub killed : AllKilled before.processes after

-- A pause of all downloads leaves no source queued and cancels every token; a source that held a
-- token and had no process is no longer downloading or indexing, and every process is killed and
-- its source remembered as paused.
pub pause_unchecked-IsQuiet : (st : DownloadState) → IsQuiet st (pause_unchecked st)
unfolding pause_unchecked
pause_unchecked-IsQuiet st =
    let ss = update_sources (λ s. is_queued_status s.status) as_paused st.sources in
    let st1 : DownloadState = record st { is_paused = true; sources = ss } in
    let st2 = pause_processes st.processes st1 in
    let ids = waiting_ids st in
    let sources : (pause_tokens ids st2).sources ≡ stop_each ids ss =
      sources-pause_tokens ids st2
      ∙ ap (stop_each ids) (sources-pause_processes st.processes st1) in
    let tokens : (pause_tokens ids st2).tokens
        ≡ cancel_each ids (cancel_each (keys st.processes) st.tokens) =
      tokens-pause_tokens ids st2
      ∙ ap (cancel_each ids) (tokens-pause_processes st.processes st1) in
    record {
      flagged = is_paused-pause_tokens ids st2 ∙ is_paused-pause_processes st.processes st1;
      unqueued = subst (All (λ s. is_queued_status s.status ≡ false)) (sym sources) (
          All-stop_each (λ s. is_queued_status s.status ≡ false) (λ s. refl) ids ss
            (update_paused-false (λ s. is_queued_status s.status) st.sources (λ s. refl)));
      stopped = subst (All (IsStopped ids)) (sym sources) (stop_each-IsStopped ids ss);
      cancelled = subst (All (λ (e : ℕ × Bool). e.1 ≡ true)) (sym tokens) (
          CancelledBut-nil _ (
            cancel_each-CancelledBut ids [] _ (
              subst (λ l. CancelledBut l (cancel_each (keys st.processes) st.tokens))
                (sym (append-nil ids))
                (cancel_each-CancelledBut (keys st.processes) ids st.tokens (
                  CancelledBut-waiting (keys st.processes) (keys st.tokens) st.tokens
                    (All-member-keys st.tokens))))));
      killed =
          AllKilled-pause_tokens ids st.processes st2 (AllKilled-pause_processes st.processes st1);
    }
