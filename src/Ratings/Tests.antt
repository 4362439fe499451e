-- ===== src/Ratings/Tests.antt =====
-- Runs of the rating model, and its theorems at these runs.
use curator_rs.Prelude.{
  ℕ, ◌≡◌, ◌↔◌, refl, true, false, some, none, is_some, List, [], ◌∷◌, All, ok, err,
}
use curator_rs.Ascii.{to_lower, to_upper, lowered, raised, same, is_one_of}
use curator_rs.Text.{is_whitespace, is_blank, trim, trim_start, trim_end}
use curator_rs.Session.Samples.{thousandths}
use curator_rs.Access.{
  Gate, host_caller, viewer_caller, default_permissions, edit_lease, can_edit_library, is_viewer,
  forbidden,
}
use curator_rs.Ratings.Policy.{
  Detection, ActionWindow, normalized_label, exposed_label, slow_label, phar_fast_label,
  is_qualifying, nudenet_rating, is_fast, follows, suggest, phar_fast_suggestion, pace_label,
}
use curator_rs.Ratings.Rows.{
  MediaRow, human, automatic, update_where, find_row, is_present, with_nudenet, with_action,
  persist_nudenet, persist_action, Finding, in_image, in_actions, persist, persist_all,
}
use curator_rs.Ratings.Resets.{
  with_auto_rating, is_overridden, is_human_source, is_auto_rating, clear_human_ratings,
}
use curator_rs.Ratings.Reviews.{
  RatingReview, refused, review, undo_review, write_review, write_undo, with_review, without_review,
  chosen, is_ratable, is_rating, is_selected_rating, is_reviewed_at, reviewed_of,
}
use curator_rs.Ratings.Fast.{HasFastPair, phar_fast_suggestion_iff}
use curator_rs.Ratings.Coherent.{IsCoherent}
use curator_rs.Ratings.Precedence.{finding, apply, apply-IsCoherent}
use curator_rs.Ratings.Undo.{BearsHuman, review_stays, undo_review-review}

model : Unit {0}
unfolding to_lower to_upper lowered raised same is_one_of is_whitespace is_blank trim trim_start
    trim_end edit_lease can_edit_library is_viewer normalized_label exposed_label slow_label
    phar_fast_label is_qualifying nudenet_rating is_fast follows suggest phar_fast_suggestion
    pace_label update_where find_row is_present with_nudenet with_action persist_nudenet
    persist_action persist persist_all with_auto_rating is_overridden is_human_source is_auto_rating
    clear_human_ratings review undo_review write_review write_undo with_review without_review chosen
    is_ratable is_rating is_selected_rating is_reviewed_at apply
model = tt

abbrev row : MediaRow
row = record {
  id = 7;
  downloaded = true;
  missing = false;
  human_rating = none;
  action_rating = 0;
  auto_rating = 3;
  rating = 3;
  rating_source = automatic;
  rating_reviewed = false;
  rating_reviewed_at = none;
  classification_label = "medium";
  manual_review_required = false;
}

row-IsCoherent : IsCoherent row
row-IsCoherent = record { shown = refl; named = refl; marked = refl }

abbrev rows : List MediaRow
rows = row ∷ []

abbrev open_gate : Gate
open_gate = record {
  owns_library = true;
  is_shutting_down = false;
  has_lease = true;
  is_shutting_down_later = false;
}

abbrev window : ℕ → ℕ → ActionWindow ℕ ℕ
window from to = record { start_secs = from; end_secs = to; label = "Doggy "; score = 800 }

abbrev windows : List (ActionWindow ℕ ℕ)
windows = window 0 4000 ∷ window 4500 8000 ∷ []

fast_test : phar_fast_suggestion windows ≡ some 800
unfolding model
fast_test = refl

-- A second too late.
apart_test : phar_fast_suggestion (window 0 4000 ∷ window 5000 9000 ∷ []) ≡ none
unfolding model
apart_test = refl

abbrev exposed : Detection ℕ
exposed = record { label = "female-breast exposed"; score = 900 }

exposed_test : nudenet_rating (exposed ∷ []) ≡ 3
unfolding model
exposed_test = refl

abbrev reviewed_row : MediaRow
reviewed_row = record row {
  human_rating = some 5;
  rating = 5;
  rating_source = human;
  rating_reviewed = true;
  rating_reviewed_at = some "noon";
}

five_given :
    review open_gate host_caller 7 (some 5) "noon" rows
    ≡ (ok (reviewed_of reviewed_row), reviewed_row ∷ [])
unfolding model
five_given = refl

-- A viewer that was not granted to edit is refused.
viewer_test :
    review open_gate (viewer_caller default_permissions) 7 (some 5) "noon" rows
    ≡ (err (refused forbidden), rows)
unfolding model
viewer_test = refl

phar_fast_suggestion_iff_example :
    (is_some (phar_fast_suggestion windows) ≡ true) ↔ HasFastPair windows
phar_fast_suggestion_iff_example = phar_fast_suggestion_iff windows

-- A rating of actions is not shown after human ratings are cleared.
cleared_test :
    clear_human_ratings (
      record row {
        action_rating = 4;
        human_rating = some 2;
        rating = 2;
        rating_source = human;
        rating_reviewed = true;
      }
      ∷ [])
    ≡ record row { action_rating = 4 } ∷ []
unfolding model
cleared_test = refl

apply-IsCoherent_example : All IsCoherent (apply (finding (in_actions 7 windows)) rows)
apply-IsCoherent_example =
    apply-IsCoherent (finding (in_actions 7 windows)) rows (row-IsCoherent, tt) (refl, tt)

abbrev findings : List (Finding ℕ ℕ)
findings = in_actions 7 windows ∷ in_image 7 (exposed ∷ []) ∷ []

review_stays_example :
    (r : MediaRow) × (find_row 7 (persist_all findings (reviewed_row ∷ [])) ≡ some r)
    × BearsHuman 5 r
review_stays_example =
    review_stays open_gate host_caller 7 (some 5) "noon" rows (reviewed_row ∷ [])
      (reviewed_of reviewed_row) findings five_given

undo_review-review_example :
    (u : RatingReview) × (rows'' : List MediaRow) × (undo_review open_gate host_caller 7 "noon"
        (reviewed_row ∷ [])
      ≡ (ok u, rows''))
    × (u.rating ≡ 3)
    × (find_row 7 rows'' ≡ find_row 7 rows)
unfolding model
undo_review-review_example =
    undo_review-review open_gate open_gate host_caller host_caller 7 7 (some 5) "noon" rows
      (reviewed_row ∷ []) (reviewed_of reviewed_row) row five_given refl refl row-IsCoherent refl
      refl
