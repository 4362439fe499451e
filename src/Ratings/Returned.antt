-- ===== src/Ratings/Returned.antt =====
-- When the statements that take ratings back keep a row as it is to be.
use curator_rs.Prelude.{ℕ, ◌≡◌, Bool, true, not, ◌&&◌, ◌||◌, is_some, List, ◌==◌, leb, arith, All}
use curator_rs.Ratings.Rows.{MediaRow}
use curator_rs.Ratings.Resets.{
  with_requeue, requeue, is_overridden, is_auto_rating, with_auto_rating, clear_human_ratings,
  with_nothing,
}
use curator_rs.Ratings.Coherent.{IsCoherent, update_where-All_of}

-- Another row, or one that has no rating of actions, or a person's rating.
unfoldable pub is_requeuable : ℕ → MediaRow → Bool
is_requeuable id r = not (r.id == id) || (r.action_rating == 0 || is_some r.human_rating)

-- A row that is not touched, or has no rating of actions and one of images of at most 5.
unfoldable pub is_clearable : MediaRow → Bool
is_clearable r = not (is_overridden r) || (r.action_rating == 0 && leb r.auto_rating 5)

with_requeue-IsCoherent :
    (r : MediaRow)
    → (r.action_rating == 0 || is_some r.human_rating) ≡ true
    → IsCoherent r
    → IsCoherent (with_requeue r)
unfolding with_requeue
with_requeue-IsCoherent r e v = ground arith

pub requeue-IsCoherent :
    (id : ℕ) (rows : List MediaRow)
    → All IsCoherent rows
    → All (λ r. is_requeuable id r ≡ true) rows
    → All IsCoherent (requeue id rows)
unfolding requeue is_requeuable
requeue-IsCoherent id rows h f =
    update_where-All_of (λ r. r.id == id) with_requeue rows
      (λ r v q t. with_requeue-IsCoherent r (ground arith) v) h f

with_auto_rating-IsCoherent :
    (r : MediaRow)
    → (r.action_rating == 0 && leb r.auto_rating 5) ≡ true
    → IsCoherent (with_auto_rating r)
unfolding with_auto_rating is_auto_rating
with_auto_rating-IsCoherent r e = ground arith

pub clear_human_ratings-IsCoherent :
    (rows : List MediaRow)
    → All IsCoherent rows
    → All (λ r. is_clearable r ≡ true) rows
    → All IsCoherent (clear_human_ratings rows)
unfolding clear_human_ratings is_clearable
clear_human_ratings-IsCoherent rows h f =
    update_where-All_of is_overridden with_auto_rating rows
      (λ r v q t. with_auto_rating-IsCoherent r (ground arith)) h f

pub with_nothing-IsCoherent : (r : MediaRow) → IsCoherent (with_nothing r)
unfolding with_nothing
with_nothing-IsCoherent r = ground arith
