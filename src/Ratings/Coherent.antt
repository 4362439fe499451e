-- ===== src/Ratings/Coherent.antt =====
-- What a rated row of the table `media` is to be, and that each statement of src/nsfw.rs and
-- src/services/media.rs makes it so.
use curator_rs.Prelude.{
  ℕ, ◌<◌, ◌≡◌, ◌⊎◌, refl, String, Bool, true, false, ◌&&◌, Bool-cases, inl, inr, Option, some, none,
  is_some, or_else, unwrap_or, List, [], ◌∷◌, ◌==◌, ltb, if◌then◌else◌, arith, All,
}
use mathlib.Core.Option
use curator_rs.Ratings.Rows.{
  MediaRow, human, automatic, auto_action, unrated, null_if_zero, update_where, find_row,
  with_nudenet, with_video_nudenet, with_action,
}
use curator_rs.Ratings.Reviews.{
  write_review, write_undo, with_review, without_review, chosen, is_ratable, is_rating,
  is_reviewed_at,
}

-- The rating that is shown is the first there is of the person's, the actions' and the images', and
-- the source names it.
pub record IsCoherent (r : MediaRow) : Type 0 where
  pub shown :
      r.rating ≡ unwrap_or (or_else r.human_rating (null_if_zero r.action_rating)) r.auto_rating
  pub named : r.rating_source ≡ (
      if is_some r.human_rating
      then human
      else if r.action_rating == 4
      then auto_action
      else if ltb 0 r.auto_rating
      then automatic
      else unrated)
  pub marked : r.rating_reviewed ≡ is_some r.human_rating

module _ (test : MediaRow → Bool) (change : MediaRow → MediaRow) where
  pub update_where-All :
      {P : MediaRow → Type 0} (rows : List MediaRow)
      → ((r : MediaRow) → P r → test r ≡ true → P (change r))
      → All P rows
      → All P (update_where test change rows).1
  unfolding update_where
  update_where-All [] keep h = tt
  update_where-All (r ∷ rs) keep (h, k) = elim (Bool-cases (test r)) [
    | inl t ↦ rw t (keep r h t, update_where-All rs keep k)
    | inr f ↦ rw f (h, update_where-All rs keep k)
  ]

  -- The same where the rows that change have another property.
  pub update_where-All_of :
      {P Q : MediaRow → Type 0} (rows : List MediaRow)
      → ((r : MediaRow) → P r → Q r → test r ≡ true → P (change r))
      → All P rows
      → All Q rows
      → All P (update_where test change rows).1
  unfolding update_where
  update_where-All_of [] keep h q = tt
  update_where-All_of (r ∷ rs) keep (h, k) (q, l) = elim (Bool-cases (test r)) [
    | inl t ↦ rw t (keep r h q t, update_where-All_of rs keep k l)
    | inr f ↦ rw f (h, update_where-All_of rs keep k l)
  ]

  pub find_row-update_where :
      (id : ℕ) (rows : List MediaRow)
      → ((r : MediaRow) → (change r).id ≡ r.id)
      → find_row id (update_where test change rows).1
        ≡ Option.map (λ r. if test r then change r else r) (find_row id rows)
  unfolding find_row update_where
  find_row-update_where id [] same = refl
  find_row-update_where id (r ∷ rs) same = ground (arith, same r, find_row-update_where id rs same)

pub with_review-IsCoherent :
    (rating : Option ℕ) (now : String) (r : MediaRow)
    → is_ratable rating r ≡ true
    → IsCoherent (with_review rating now r)
unfolding with_review is_ratable chosen is_rating
with_review-IsCoherent none now r h = ground arith
with_review-IsCoherent (some n) now r h = ground arith

pub without_review-IsCoherent : (r : MediaRow) → IsCoherent (without_review r)
unfolding without_review
without_review-IsCoherent r = ground arith

pub with_nudenet-IsCoherent :
    (found : ℕ) (r : MediaRow)
    → 0 < found
    → IsCoherent r
    → IsCoherent (with_nudenet found r) × IsCoherent (with_video_nudenet found r)
unfolding with_nudenet with_video_nudenet
with_nudenet-IsCoherent found r h v = ground arith

pub with_action-IsCoherent :
    (is_fast : Bool) (r : MediaRow)
    → r.action_rating ≡ 0
    → IsCoherent r
    → IsCoherent (with_action (if is_fast then 4 else 0) r)
unfolding with_action
with_action-IsCoherent true r h v = ground arith
with_action-IsCoherent false r h v = ground arith

pub ratable_some : (rating : ℕ) (r : MediaRow) → is_ratable (some rating) r ≡ true
unfolding is_ratable
ratable_some rating r = refl

pub write_review_rows :
    (id : ℕ) (rating : Option ℕ) (now : String) (rows : List MediaRow) (found : Option MediaRow)
    → ((write_review id rating now rows found).1 ≡ rows)
      ⊎ ((write_review id rating now rows found).1
          ≡ (update_where (λ r. r.id == id && is_ratable rating r) (with_review rating now) rows).1)
unfolding write_review
write_review_rows id rating now rows none = inl refl
write_review_rows id rating now rows (some r) = ground arith

pub write_undo_rows :
    (id : ℕ) (at : String) (rows : List MediaRow) (found : Option MediaRow)
    → ((write_undo id at rows found).1 ≡ rows)
      ⊎ ((write_undo id at rows found).1
          ≡ (update_where (λ r. r.id == id && is_reviewed_at at r) without_review rows).1)
unfolding write_undo
write_undo_rows id at rows none = inl refl
write_undo_rows id at rows (some r) = ground arith
