-- ===== src/Ratings/Reviews.antt =====
-- src/services/media.rs: `review`, `undo_review` and `rate_many`. Errors of the database are not
-- modelled.
use curator_rs.Prelude.{
  ℕ, ◌+◌, String, Bool, true, false, not, ◌&&◌, ◌||◌, Option, some, none, List, [], ◌∷◌, ◌==◌, ltb,
  leb, if◌then◌else◌, or_else, unwrap_or, is_some, any, is_empty, length, Result, ok, err,
}
use text.Mathlib.Text.{◌==◌ as str_eq}
use curator_rs.Access.{Caller, Gate, Refusal, edit_lease}
use curator_rs.Ratings.Policy.{pace_label}
use curator_rs.Ratings.Rows.{
  MediaRow, RatingSource, human, automatic, auto_action, unrated, null_if_zero, update_where,
  find_row,
}

pub data MediaError : Type 0 where
  refused : Refusal → MediaError
  invalid_rating invalid_selection no_automated_rating missing_media changed_review : MediaError

-- The score of the classifier is left out.
pub record RatingReview : Type 0 where
  pub id : ℕ
  pub rating : ℕ
  pub label : String
  pub human_rating : Option ℕ
  pub auto_rating : ℕ
  pub action_rating : Option ℕ
  pub rating_source : RatingSource
  pub rating_reviewed : Bool
  pub rating_reviewed_at : Option String

-- `(1..=5).contains(&rating)`
unfoldable pub is_rating : ℕ → Bool
is_rating n = leb 1 n && leb n 5

unfoldable pub is_selected_rating : Option ℕ → Bool
is_selected_rating none = true
is_selected_rating (some n) = is_rating n

-- `COALESCE(?1,NULLIF(action_rating,0),NULLIF(auto_rating,0))`
unfoldable pub chosen : Option ℕ → MediaRow → Option ℕ
chosen rating r =
    or_else rating (or_else (null_if_zero r.action_rating) (null_if_zero r.auto_rating))

-- `?1 IS NOT NULL OR action_rating=4 OR auto_rating BETWEEN 1 AND 5`
unfoldable pub is_ratable : Option ℕ → MediaRow → Bool
is_ratable rating r = is_some rating || r.action_rating == 4 || is_rating r.auto_rating

-- A row that is ratable has a chosen rating.
unfoldable pub with_review : Option ℕ → String → MediaRow → MediaRow
with_review rating now r = record r {
  human_rating = chosen rating r;
  rating = unwrap_or (chosen rating r) 0;
  rating_source = human;
  rating_reviewed = true;
  rating_reviewed_at = some now;
}

abbrev pub reviewed_of : MediaRow → RatingReview
reviewed_of r = record {
  id = r.id;
  rating = r.rating;
  label = pace_label r.rating;
  human_rating = r.human_rating;
  auto_rating = r.auto_rating;
  action_rating = some r.action_rating;
  rating_source = r.rating_source;
  rating_reviewed = r.rating_reviewed;
  rating_reviewed_at = r.rating_reviewed_at;
}

unfoldable pub write_review :
    ℕ
    → Option ℕ
    → String
    → List MediaRow
    → Option MediaRow
    → Result MediaError RatingReview × List MediaRow
write_review id rating now rows none = (err missing_media, rows)
write_review id rating now rows (some r) =
    if is_ratable rating r
    then (
      ok (reviewed_of (with_review rating now r)),
      (update_where (λ r. r.id == id && is_ratable rating r) (with_review rating now) rows).1,
    )
    else (err no_automated_rating, rows)

unfoldable pub review :
    Gate
    → Caller
    → ℕ
    → Option ℕ
    → String
    → List MediaRow
    → Result MediaError RatingReview × List MediaRow
review g c id rating now rows = elim (edit_lease g c) [
  | some refusal ↦ (err (refused refusal), rows)
  | none ↦
      if not (is_selected_rating rating)
      then (err invalid_rating, rows)
      else write_review id rating now rows (find_row id rows)
]

abbrev is_at : Option String → String → Bool
is_at none at = false
is_at (some t) at = str_eq t at

-- `human_rating IS NOT NULL AND rating_reviewed_at=?2`
unfoldable pub is_reviewed_at : String → MediaRow → Bool
is_reviewed_at at r = is_some r.human_rating && is_at r.rating_reviewed_at at

unfoldable pub without_review : MediaRow → MediaRow
without_review r = record r {
  human_rating = none;
  rating = unwrap_or (null_if_zero r.action_rating) r.auto_rating;
  rating_source =
      (if r.action_rating == 4
        then auto_action
        else if ltb 0 r.auto_rating
        then automatic
        else unrated);
  rating_reviewed = false;
  rating_reviewed_at = none;
}

unfoldable pub write_undo :
    ℕ → String → List MediaRow → Option MediaRow → Result MediaError RatingReview × List MediaRow
write_undo id at rows none = (err changed_review, rows)
write_undo id at rows (some r) =
    if is_reviewed_at at r
    then (
      ok (record (reviewed_of (without_review r)) { action_rating = none }),
      (update_where (λ r. r.id == id && is_reviewed_at at r) without_review rows).1,
    )
    else (err changed_review, rows)

unfoldable pub undo_review :
    Gate → Caller → ℕ → String → List MediaRow → Result MediaError RatingReview × List MediaRow
undo_review g c id at rows = elim (edit_lease g c) [
  | some refusal ↦ (err (refused refusal), rows)
  | none ↦ write_undo id at rows (find_row id rows)
]

-- `ids.sort_unstable(); ids.dedup()`
unfoldable pub insert_id : ℕ → List ℕ → List ℕ
insert_id x [] = x ∷ []
insert_id x (y ∷ ys) =
    let rest = insert_id x ys in if ltb x y then x ∷ y ∷ ys else if x == y then y ∷ ys else y ∷ rest

unfoldable pub distinct_ids : List ℕ → List ℕ
distinct_ids [] = []
distinct_ids (x ∷ xs) = insert_id x (distinct_ids xs)

-- The loop of `rate_many`, and how many rows it changes.
unfoldable pub rate_each : ℕ → String → List ℕ → List MediaRow → ℕ × List MediaRow
rate_each rating now [] rows = (0, rows)
rate_each rating now (id ∷ ids) rows =
    let (n, rows') = update_where (λ r. r.id == id) (with_review (some rating) now) rows in
    let (m, rows'') = rate_each rating now ids rows' in (n + m, rows'')

-- An id is a natural number: the source refuses those below 1 as well.
unfoldable pub is_bad_selection : List ℕ → Bool
is_bad_selection ids = is_empty ids || ltb 500 (length ids) || any (λ id. id == 0) ids

unfoldable pub rate_many :
    Gate → Caller → List ℕ → ℕ → String → List MediaRow → Result MediaError ℕ × List MediaRow
rate_many g c ids rating now rows = elim (edit_lease g c) [
  | some refusal ↦ (err (refused refusal), rows)
  | none ↦
      if is_bad_selection ids
      then (err invalid_selection, rows)
      else if not (is_rating rating)
      then (err invalid_rating, rows)
      else (let (n, rows') = rate_each rating now (distinct_ids ids) rows in (ok n, rows'))
]
