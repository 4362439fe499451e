-- ===== src/Ratings/Precedence.antt =====
-- src/nsfw.rs, src/services/media.rs and src/maintenance.rs together: the ratings of persons, of actions
-- and of images, and what takes them back.
use curator_rs.Prelude.{
  ℕ, ◌<◌, ◌≡◌, ◌⊎◌, sym, subst, String, true, not, ◌&&◌, ◌||◌, Bool-cases, inl, inr, Option, some,
  is_some, unwrap_or, List, [], ◌∷◌, ◌==◌, arith, All,
}
use curator_rs.Session.Floats.{Floats}
use curator_rs.Access.{Caller, Gate}
use curator_rs.Ratings.Policy.{Detection, ActionWindow, nudenet_rating, phar_fast_suggestion}
use curator_rs.Ratings.Rows.{
  MediaRow, update_where, find_row, is_present, with_nudenet, with_video_nudenet, persist_nudenet,
  persist_video_nudenet, persist_action, highest, Finding, in_image, in_frames, in_actions, persist,
}
use curator_rs.Ratings.Resets.{
  requeue, clear_human_ratings, with_nothing, reset_ratings_and_evidence,
}
use curator_rs.Ratings.Returned.{
  is_requeuable, is_clearable, requeue-IsCoherent, clear_human_ratings-IsCoherent,
  with_nothing-IsCoherent,
}
use curator_rs.Ratings.Reviews.{
  review, undo_review, rate_many, with_review, without_review, is_ratable, is_reviewed_at,
  rate_each, distinct_ids,
}
use curator_rs.Ratings.Coherent.{
  IsCoherent, update_where-All, with_review-IsCoherent, without_review-IsCoherent,
  with_nudenet-IsCoherent, with_action-IsCoherent, ratable_some, write_review_rows, write_undo_rows,
}

-- Reviews of one medium or many, their undoing, what the classifiers find, the return of a medium to
-- their queue, and the two resets of the maintenance. The copy of a rating from a medium to its placeholder
-- in src/downloader.rs and the rows of new clips in src/routes/clips.rs are not among the changes.
pub data Change (F S : Type 0) : Type 0 where
  reviewing : Gate → Caller → ℕ → Option ℕ → String → Change F S
  undoing : Gate → Caller → ℕ → String → Change F S
  rating_many : Gate → Caller → List ℕ → ℕ → String → Change F S
  finding : Finding F S → Change F S
  requeuing : ℕ → Change F S
  clearing_human_ratings resetting_ratings : Change F S

rate_each-IsCoherent :
    (rating : ℕ) (now : String) (ids : List ℕ) (rows : List MediaRow)
    → All IsCoherent rows
    → All IsCoherent (rate_each rating now ids rows).1
unfolding rate_each
rate_each-IsCoherent rating now [] rows h = h
rate_each-IsCoherent rating now (id ∷ ids) rows h = rate_each-IsCoherent rating now ids _ (
    update_where-All (λ r. r.id == id) (with_review (some rating) now) rows
      (λ r v t. with_review-IsCoherent (some rating) now r (ratable_some rating r)) h)

-- Rows that are what they were, or what an update made of them.
of_two :
    {rows old new : List MediaRow}
    → ((rows ≡ old) ⊎ (rows ≡ new))
    → All IsCoherent old
    → All IsCoherent new
    → All IsCoherent rows
of_two (inl e) h k = subst (All IsCoherent) (sym e) h
of_two (inr e) h k = subst (All IsCoherent) (sym e) k

review-IsCoherent :
    (g : Gate) (c : Caller) (id : ℕ) (rating : Option ℕ) (now : String) (rows : List MediaRow)
    → All IsCoherent rows
    → All IsCoherent (review g c id rating now rows).1
unfolding review
review-IsCoherent g c id rating now rows h =
    of_two (let cases = write_review_rows id rating now rows (find_row id rows) in ground arith) h (
      update_where-All (λ r. r.id == id && is_ratable rating r) (with_review rating now) rows
        (λ r v t. with_review-IsCoherent rating now r (ground arith)) h)

undo_review-IsCoherent :
    (g : Gate) (c : Caller) (id : ℕ) (at : String) (rows : List MediaRow)
    → All IsCoherent rows
    → All IsCoherent (undo_review g c id at rows).1
unfolding undo_review
undo_review-IsCoherent g c id at rows h =
    of_two (let cases = write_undo_rows id at rows (find_row id rows) in ground arith) h (
      update_where-All (λ r. r.id == id && is_reviewed_at at r) without_review rows
        (λ r v t. without_review-IsCoherent r) h)

rate_many-IsCoherent :
    (g : Gate) (c : Caller) (ids : List ℕ) (rating : ℕ) (now : String) (rows : List MediaRow)
    → All IsCoherent rows
    → All IsCoherent (rate_many g c ids rating now rows).1
unfolding rate_many
rate_many-IsCoherent g c ids rating now rows h =
    of_two {new = (rate_each rating now (distinct_ids ids) rows).1} (ground arith) h
      (rate_each-IsCoherent rating now (distinct_ids ids) rows h)

module _ {S : Type 0} ⦃fs : Floats S⦄ where
  nudenet_rating-pos : (ds : List (Detection S)) → 0 < nudenet_rating ds
  unfolding nudenet_rating
  nudenet_rating-pos ds = ground arith

  highest-pos : (frames : List (List (Detection S))) → 0 < unwrap_or (highest frames) 1
  unfolding highest
  highest-pos [] = omega arith
  highest-pos (ds ∷ frames) = ground (arith, nudenet_rating-pos ds)

  persist_nudenet-IsCoherent :
      (id : ℕ) (ds : List (Detection S)) (rows : List MediaRow)
      → All IsCoherent rows
      → All IsCoherent (persist_nudenet id ds rows).1
  unfolding persist_nudenet
  persist_nudenet-IsCoherent id ds rows =
      update_where-All (is_present id) (with_nudenet (nudenet_rating ds)) rows
        (λ r v t. (with_nudenet-IsCoherent (nudenet_rating ds) r (nudenet_rating-pos ds) v).0)

  persist_video_nudenet-IsCoherent :
      (id : ℕ) (frames : List (List (Detection S))) (rows : List MediaRow)
      → All IsCoherent rows
      → All IsCoherent (persist_video_nudenet id frames rows).1
  unfolding persist_video_nudenet
  persist_video_nudenet-IsCoherent id frames rows =
      let found = unwrap_or (highest frames) 1 in
      update_where-All (is_present id) (with_video_nudenet found) rows
        (λ r v t. (with_nudenet-IsCoherent found r (highest-pos frames) v).1)

module _ {F S : Type 0} ⦃ff : Floats F⦄ ⦃fs : Floats S⦄ where
  persist_action-IsCoherent :
      (id : ℕ) (ws : List (ActionWindow F S)) (rows : List MediaRow)
      → All IsCoherent rows
      → All (λ r. (not (r.id == id) || r.action_rating == 0) ≡ true) rows
      → All IsCoherent (persist_action id ws rows).1
  unfolding persist_action update_where is_present
  persist_action-IsCoherent id ws [] h f = tt
  persist_action-IsCoherent id ws (r ∷ rows) (h, k) (f, g) =
      let rest = persist_action-IsCoherent id ws rows k g in
      let is_fast = is_some (phar_fast_suggestion ws) in
      elim (Bool-cases (r.id == id && r.downloaded && not r.missing)) [
        | inl t ↦ rw t (with_action-IsCoherent is_fast r (ground arith) h, rest)
        | inr t ↦ rw t (h, rest)
      ]

module _ {F S : Type 0} ⦃ff : Floats F⦄ ⦃fs : Floats S⦄ where
  unfoldable pub apply : Change F S → List MediaRow → List MediaRow
  apply (reviewing g c id rating now) rows = (review g c id rating now rows).1
  apply (undoing g c id at) rows = (undo_review g c id at rows).1
  apply (rating_many g c ids rating now) rows = (rate_many g c ids rating now rows).1
  apply (finding f) rows = persist f rows
  apply (requeuing id) rows = requeue id rows
  apply clearing_human_ratings rows = clear_human_ratings rows
  apply resetting_ratings rows = reset_ratings_and_evidence rows

  -- No rating of actions is written over or taken away while it is the one that is shown.
  abbrev pub IsFresh : Change F S → List MediaRow → Type 0
  IsFresh (finding (in_actions id ws)) rows =
      All (λ r. (not (r.id == id) || r.action_rating == 0) ≡ true) rows
  IsFresh (requeuing id) rows = All (λ r. is_requeuable id r ≡ true) rows
  IsFresh clearing_human_ratings rows = All (λ r. is_clearable r ≡ true) rows
  IsFresh _ rows = Unit

  -- A review, its undoing, a rating of many media, a finding of images or frames, and the reset of all
  -- ratings keep the rows coherent. A finding of actions does if the medium has no rating of actions, a
  -- return to the queue if the medium has none or a person's rating, and the clearing of human ratings if
  -- the rows that it changes have none and a rating of images of at most 5. Other statements that write
  -- ratings, for placeholders and clips, are not among these changes.
  pub apply-IsCoherent :
      (change : Change F S) (rows : List MediaRow)
      → All IsCoherent rows
      → IsFresh change rows
      → All IsCoherent (apply change rows)
  unfolding apply persist reset_ratings_and_evidence
  apply-IsCoherent (reviewing g c id rating now) rows h f =
      review-IsCoherent g c id rating now rows h
  apply-IsCoherent (undoing g c id at) rows h f = undo_review-IsCoherent g c id at rows h
  apply-IsCoherent (rating_many g c ids rating now) rows h f =
      rate_many-IsCoherent g c ids rating now rows h
  apply-IsCoherent (finding (in_image id ds)) rows h f = persist_nudenet-IsCoherent id ds rows h
  apply-IsCoherent (finding (in_frames id frames)) rows h f =
      persist_video_nudenet-IsCoherent id frames rows h
  apply-IsCoherent (finding (in_actions id ws)) rows h f = persist_action-IsCoherent id ws rows h f
  apply-IsCoherent (requeuing id) rows h f = requeue-IsCoherent id rows h f
  apply-IsCoherent clearing_human_ratings rows h f = clear_human_ratings-IsCoherent rows h f
  apply-IsCoherent resetting_ratings rows h f =
      update_where-All (λ _. true) with_nothing rows (λ r v t. with_nothing-IsCoherent r) h
