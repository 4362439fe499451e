-- ===== src/Ratings/Resets.antt =====
-- src/media_files.rs, src/downloader.rs and src/maintenance.rs: the statements that take ratings back,
-- when a file is new or has changed, or when a person clears them.
use curator_rs.Prelude.{
  ℕ, Bool, true, false, ◌&&◌, ◌||◌, none, is_some, List, ◌==◌, leb, if◌then◌else◌,
}
use curator_rs.Ratings.Rows.{
  RatingSource, human, automatic, auto_action, unrated, MediaRow, update_where,
}

-- The evidence is void, and the classifiers look at the file again. Neither the rating that is shown nor
-- its source is changed.
unfoldable pub with_requeue : MediaRow → MediaRow
with_requeue r = record r {
  downloaded = true;
  missing = false;
  action_rating = 0;
  classification_label = "unclassified";
  manual_review_required = false;
}

-- `reconcile` of src/media_files.rs for a file that has another stamp or was missing, and `ON CONFLICT` of
-- src/downloader.rs for a row that a download fills.
unfoldable pub requeue : ℕ → List MediaRow → List MediaRow
requeue id rows = (update_where (λ r. r.id == id) with_requeue rows).1

unfoldable pub is_human_source : RatingSource → Bool
is_human_source human = true
is_human_source automatic = false
is_human_source auto_action = false
is_human_source unrated = false

-- `WHERE human_rating IS NOT NULL OR rating_source='human' OR rating_reviewed=1`
unfoldable pub is_overridden : MediaRow → Bool
is_overridden r = is_some r.human_rating || is_human_source r.rating_source || r.rating_reviewed

-- `auto_rating BETWEEN 1 AND 5`
unfoldable pub is_auto_rating : ℕ → Bool
is_auto_rating n = leb 1 n && leb n 5

unfoldable pub with_auto_rating : MediaRow → MediaRow
with_auto_rating r = record r {
  human_rating = none;
  rating = (if is_auto_rating r.auto_rating then r.auto_rating else 0);
  rating_source = (if is_auto_rating r.auto_rating then automatic else unrated);
  rating_reviewed = false;
  rating_reviewed_at = none;
}

-- `MaintenanceKind::ClearHumanRatings`
unfoldable pub clear_human_ratings : List MediaRow → List MediaRow
clear_human_ratings rows = (update_where is_overridden with_auto_rating rows).1

unfoldable pub with_nothing : MediaRow → MediaRow
with_nothing r = record r {
  rating = 0;
  auto_rating = 0;
  human_rating = none;
  rating_source = unrated;
  rating_reviewed = false;
  rating_reviewed_at = none;
  action_rating = 0;
  classification_label = "unclassified";
  manual_review_required = false;
}

-- `MaintenanceKind::ResetRatingsAndEvidence`, of every row.
unfoldable pub reset_ratings_and_evidence : List MediaRow → List MediaRow
reset_ratings_and_evidence rows = (update_where (λ _. true) with_nothing rows).1
