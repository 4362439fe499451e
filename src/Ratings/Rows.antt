-- ===== src/Ratings/Rows.antt =====
-- The columns of the table `media` that bear ratings, and the statements of src/nsfw.rs that write
-- them. The columns of evidence, of models and of times are left out: no statement reads them back.
use curator_rs.Prelude.{
  ℕ, suc, String, Bool, false, not, ◌&&◌, Option, some, none, List, [], ◌∷◌, ◌==◌, ltb,
  if◌then◌else◌, or_else, unwrap_or, is_some, max,
}
use curator_rs.Ratings.Policy.{
  Detection, ActionWindow, nudenet_rating, phar_fast_suggestion, pace_label,
}
use curator_rs.Session.Floats.{Floats}

-- The texts of `rating_source`.
pub data RatingSource : Type 0 where
  human automatic auto_action unrated : RatingSource

pub record MediaRow : Type 0 where
  pub id : ℕ
  pub downloaded : Bool
  pub missing : Bool
  pub human_rating : Option ℕ
  pub action_rating : ℕ
  pub auto_rating : ℕ
  pub rating : ℕ
  pub rating_source : RatingSource
  pub rating_reviewed : Bool
  pub rating_reviewed_at : Option String
  pub classification_label : String
  pub manual_review_required : Bool

-- `NULLIF(rating, 0)`
abbrev pub null_if_zero : ℕ → Option ℕ
null_if_zero n = if n == 0 then none else some n

-- `UPDATE media SET … WHERE …`, and the number of rows that it changes.
unfoldable pub update_where :
    (MediaRow → Bool) → (MediaRow → MediaRow) → List MediaRow → ℕ × List MediaRow
update_where test change [] = (0, [])
update_where test change (r ∷ rs) =
    let (n, rest) = update_where test change rs in
    if test r then (suc n, change r ∷ rest) else (n, r ∷ rest)

-- The row of an id, the table's primary key.
unfoldable pub find_row : ℕ → List MediaRow → Option MediaRow
find_row id [] = none
find_row id (r ∷ rs) = let rest = find_row id rs in if r.id == id then some r else rest

-- `WHERE id=?7 AND downloaded=1 AND missing=0`
unfoldable pub is_present : ℕ → MediaRow → Bool
is_present id r = r.id == id && r.downloaded && not r.missing

-- Every expression of a statement reads the row as it was before.
unfoldable pub with_nudenet : ℕ → MediaRow → MediaRow
with_nudenet found r = record r {
  auto_rating = found;
  classification_label = pace_label found;
  manual_review_required = false;
  rating =
      (if not (is_some r.human_rating) && r.action_rating == 0
        then found
        else unwrap_or (or_else r.human_rating (null_if_zero r.action_rating)) r.rating);
  rating_source =
      (if is_some r.human_rating
        then human
        else if r.action_rating == 4
        then auto_action
        else automatic);
  rating_reviewed = is_some r.human_rating;
}

unfoldable pub with_video_nudenet : ℕ → MediaRow → MediaRow
with_video_nudenet found r = record (with_nudenet found r) {
  manual_review_required = r.manual_review_required;
}

-- `fast` is what `phar_fast_suggestion` found, 4 or 0.
unfoldable pub with_action : ℕ → MediaRow → MediaRow
with_action fast r = record r {
  action_rating = fast;
  classification_label = (if fast == 4 then "fast" else r.classification_label);
  rating =
      (if not (is_some r.human_rating) && fast == 4
        then 4
        else unwrap_or
            (or_else r.human_rating
              (or_else (null_if_zero r.action_rating) (null_if_zero r.auto_rating)))
            0);
  rating_source =
      (if is_some r.human_rating
        then human
        else if fast == 4
        then auto_action
        else if ltb 0 r.auto_rating
        then automatic
        else unrated);
  rating_reviewed = is_some r.human_rating;
}

module _ {S : Type 0} ⦃fs : Floats S⦄ where
  unfoldable pub persist_nudenet : ℕ → List (Detection S) → List MediaRow → ℕ × List MediaRow
  persist_nudenet id ds = update_where (is_present id) (with_nudenet (nudenet_rating ds))

  -- `.map(nudenet_rating).max().unwrap_or(1)`
  unfoldable pub highest : List (List (Detection S)) → Option ℕ
  highest [] = none
  highest (ds ∷ frames) =
      some (max (nudenet_rating ds) (unwrap_or (highest frames) (nudenet_rating ds)))

  unfoldable pub persist_video_nudenet :
      ℕ → List (List (Detection S)) → List MediaRow → ℕ × List MediaRow
  persist_video_nudenet id frames =
      update_where (is_present id) (with_video_nudenet (unwrap_or (highest frames) 1))

module _ {F S : Type 0} ⦃ff : Floats F⦄ ⦃fs : Floats S⦄ where
  unfoldable pub persist_action : ℕ → List (ActionWindow F S) → List MediaRow → ℕ × List MediaRow
  persist_action id ws =
      update_where (is_present id)
        (with_action (if is_some (phar_fast_suggestion ws) then 4 else 0))

-- What the classifiers find of a medium: an image, the frames of a video, or its actions.
pub data Finding (F S : Type 0) : Type 0 where
  in_image : ℕ → List (Detection S) → Finding F S
  in_frames : ℕ → List (List (Detection S)) → Finding F S
  in_actions : ℕ → List (ActionWindow F S) → Finding F S

module _ {F S : Type 0} ⦃ff : Floats F⦄ ⦃fs : Floats S⦄ where
  unfoldable pub persist : Finding F S → List MediaRow → List MediaRow
  persist (in_image id ds) rows = (persist_nudenet id ds rows).1
  persist (in_frames id frames) rows = (persist_video_nudenet id frames rows).1
  persist (in_actions id ws) rows = (persist_action {F = F} {S = S} id ws rows).1

  unfoldable pub persist_all : List (Finding F S) → List MediaRow → List MediaRow
  persist_all [] rows = rows
  persist_all (f ∷ fs) rows = persist_all fs (persist f rows)
