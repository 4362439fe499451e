-- ===== src/Downloads/Resuming.antt =====
-- src/services/downloads.rs: resuming all sources or one, after a pause.
use curator_rs.Prelude.{
  ℕ, ◌≡◌, ◌≢◌, ◌∙◌, refl, sym, ap, subst, String, Bool, true, false, not, ◌&&◌, ◌||◌, Bool-cases,
  Option-cases, inl, inr, some, none, List, [], ◌∷◌, ◌++◌, map, ◌==◌, ==_iff, if◌then◌else◌, arith,
  All, any, member, insert_new, remove, member-keep, length, ok, is_empty,
}
use mathlib.Core.Option
use curator_rs.Downloads.Source.{
  Source, find_source, update_sources, is_status_paused, is_resumable_status,
}
use curator_rs.Downloads.Controls.{
  DownloadState, Admission, cancel_token, as_paused, requeued, requeue_each, paused_sources,
  resume_unchecked, refusal, pause_source_typed, resume_source_typed, kill_process, value_at,
}

abbrev resumed_among : String → List ℕ → Source → Source
resumed_among now ids s = if is_status_paused s.status && member s.id ids then requeued now s else s

abbrev pub resumed : String → Source → Source
resumed now s = if is_status_paused s.status then requeued now s else s

resumed_among-cons :
    (now : String) (id : ℕ) (ids : List ℕ) (ss : List Source)
    → map
        (resumed_among now ids)
        (update_sources (λ s. s.id == id && is_status_paused s.status) (requeued now) ss)
      ≡ map (resumed_among now (id ∷ ids)) ss
unfolding update_sources
resumed_among-cons now id ids [] = refl
resumed_among-cons now id ids (s ∷ ss) =
    ground (arith, ==_iff s.id id, ==_iff id s.id, resumed_among-cons now id ids ss)

requeue_each-map :
    (now : String) (ids : List ℕ) (ss : List Source)
    → requeue_each now ids ss ≡ map (resumed_among now ids) ss
unfolding requeue_each
requeue_each-map now [] [] = refl
requeue_each-map now [] (s ∷ ss) = ground (arith, requeue_each-map now [] ss)
requeue_each-map now (id ∷ ids) ss =
    requeue_each-map now ids
      (update_sources (λ s. s.id == id && is_status_paused s.status) (requeued now) ss)
    ∙ resumed_among-cons now id ids ss

-- Each paused source is among these.
abbrev Covers : List ℕ → List Source → Type 0
Covers ids = All (λ s. (not (is_status_paused s.status) || member s.id ids) ≡ true)

Covers-cons : (id : ℕ) (ids : List ℕ) (ss : List Source) → Covers ids ss → Covers (id ∷ ids) ss
Covers-cons id ids [] h = tt
Covers-cons id ids (s ∷ ss) (h, hs) = (ground arith, Covers-cons id ids ss hs)

Covers-paused_sources : (ss : List Source) → Covers (paused_sources ss) ss
unfolding paused_sources
Covers-paused_sources [] = tt
Covers-paused_sources (s ∷ ss) =
    let rest = Covers-paused_sources ss in
    elim (Bool-cases (is_status_paused s.status)) [
      | inl t ↦
          let p : paused_sources (s ∷ ss) ≡ s.id ∷ paused_sources ss = rw t in
          subst (λ l. Covers l (s ∷ ss)) (sym p)
            (ground arith, Covers-cons s.id (paused_sources ss) ss rest)
      | inr f ↦
          let p : paused_sources (s ∷ ss) ≡ paused_sources ss = rw f in
          subst (λ l. Covers l (s ∷ ss)) (sym p) (ground arith, rest)
    ]

map-resumed :
    (now : String) (ids : List ℕ) (ss : List Source)
    → Covers ids ss
    → map (resumed_among now ids) ss ≡ map (resumed now) ss
map-resumed now ids [] h = refl
map-resumed now ids (s ∷ ss) (h, hs) = ground (arith, map-resumed now ids ss hs)

-- Resuming all downloads, when nothing runs or downloads are not paused, requeues exactly the paused
-- sources, spawns a run of each of them and of no other, and reports their number.
pub resume_unchecked-ok :
    (now : String) (st : DownloadState)
    → (st.is_paused && not (is_empty st.running)) ≡ false
    → resume_unchecked now st
      ≡ some (
        length (paused_sources st.sources),
        record st {
          sources = map (resumed now) st.sources;
          paused_ids = [];
          is_paused = false;
          spawned = st.spawned ++ paused_sources st.sources;
        },
      )
unfolding resume_unchecked
resume_unchecked-ok now st h = rw h (
    ap
      (λ ss. some (
        length (paused_sources st.sources),
        record st {
          sources = ss;
          paused_ids = [];
          is_paused = false;
          spawned = st.spawned ++ paused_sources st.sources;
        },
      ))
      (requeue_each-map now (paused_sources st.sources) st.sources
        ∙ map-resumed now (paused_sources st.sources) st.sources
            (Covers-paused_sources st.sources)))

find_source-update_sources :
    (test : Source → Bool) (change : Source → Source) (id : ℕ) (ss : List Source)
    → ((s : Source) → (change s).id ≡ s.id)
    → find_source id (update_sources test change ss)
      ≡ Option.map (λ s. if test s then change s else s) (find_source id ss)
unfolding find_source update_sources
find_source-update_sources test change id [] same = refl
find_source-update_sources test change id (s ∷ ss) same =
    ground (arith, same s, find_source-update_sources test change id ss same)

find_source-id : (id : ℕ) (ss : List Source) (s : Source) → find_source id ss ≡ some s → s.id ≡ id
unfolding find_source
find_source-id id [] s h = absurd (cc)
find_source-id id (x ∷ ss) s h = ground (arith, find_source-id id ss s)

any-find_source :
    (id : ℕ) (ss : List Source) (s : Source)
    → find_source id ss ≡ some s
    → is_resumable_status s.status ≡ true
    → any (λ s. s.id == id && is_resumable_status s.status) ss ≡ true
unfolding find_source
any-find_source id [] s h k = absurd (cc)
any-find_source id (x ∷ ss) s h k = ground (arith, any-find_source id ss s)

member-remove : (id : ℕ) (xs : List ℕ) → member id (remove id xs) ≡ false
member-remove id xs = ground (arith, member-keep (λ x. not (x == id)) id xs)

-- The state after one source is paused, and after it is resumed.
module _ (now : String) (id : ℕ) (st : DownloadState) where
  stopped_sources : List Source
  stopped_sources = update_sources (λ s. s.id == id) as_paused st.sources

  resumed_sources : List Source
  resumed_sources =
      update_sources (λ s. s.id == id && is_resumable_status s.status) (requeued now)
        stopped_sources

  found_stopped :
      (k : ℕ)
      → find_source k stopped_sources
        ≡ Option.map (λ s. if s.id == id then as_paused s else s) (find_source k st.sources)
  unfolding stopped_sources
  found_stopped k = find_source-update_sources (λ s. s.id == id) as_paused k st.sources (λ s. refl)

  found_resumed :
      (k : ℕ)
      → find_source k resumed_sources
        ≡ Option.map
            (λ s. if s.id == id && is_resumable_status s.status then requeued now s else s)
            (find_source k stopped_sources)
  unfolding resumed_sources
  found_resumed k =
      find_source-update_sources (λ s. s.id == id && is_resumable_status s.status) (requeued now) k
        stopped_sources (λ s. refl)

  same_again :
      (s : Source)
      → find_source id st.sources ≡ some s
      → find_source id resumed_sources ≡ some (requeued now s)
  same_again s found =
      let is_id = find_source-id id st.sources s found in
      ground (arith, found_stopped id, found_resumed id)

  others_same : (k : ℕ) → k ≢ id → find_source k resumed_sources ≡ find_source k st.sources
  others_same k other = elim (Option-cases (find_source k st.sources)) [
    | inl e ↦ ground (arith, found_stopped k, found_resumed k)
    | inr (x, e) ↦
        let is_k = find_source-id k st.sources x e in
        ground (arith, found_stopped k, found_resumed k)
  ]

  -- A source that is paused and resumed while downloads are not paused altogether is queued again and
  -- run once more; it is not among the paused ones, and no other source is touched.
  pub resume_source-pause_source :
      (a b : Admission) (k : ℕ) (s : Source)
      → refusal a ≡ none
      → refusal b ≡ none
      → st.is_paused ≡ false
      → find_source id st.sources ≡ some s
      → k ≢ id
      → (st' : DownloadState) × (resume_source_typed b now id (pause_source_typed a id st).1
          ≡ (ok id, st'))
        × (find_source id st'.sources ≡ some (requeued now s))
        × (find_source k st'.sources ≡ find_source k st.sources)
        × (member id st'.paused_ids ≡ false)
        × (st'.spawned ≡ st.spawned ++ id ∷ [])
  unfolding resume_source_typed pause_source_typed resumed_sources stopped_sources
  resume_source-pause_source a b k s admitted admitted' unpaused found other =
      let there : find_source id stopped_sources ≡ some (as_paused s) =
        (let is_id = find_source-id id st.sources s found in ground (arith, found_stopped id)) in
      let can = any-find_source id stopped_sources (as_paused s) there refl in
      (
        record st {
          sources = resumed_sources;
          paused_ids = remove id (insert_new id st.paused_ids);
          tokens = cancel_token id st.tokens;
          killed = kill_process (value_at id st.processes) st.killed;
          spawned = st.spawned ++ id ∷ [];
        },
        ground (arith, admitted, admitted', unpaused, found, can),
        same_again s found,
        others_same k other,
        member-remove id (insert_new id st.paused_ids),
        refl,
      )
