-- ===== src/Ratings/Undo.antt =====
-- src/services/media.rs, reviews: what nothing but a person changes again, and how to take one back.
use mathlib.Core.Option
use text.Mathlib.TextPositions.{eq_refl}
use curator_rs.Prelude.{
  ℕ, ◌≡◌, refl, ◌∙◌, ap, String, Bool, true, ◌&&◌, Bool-cases, Option-cases, inl, inr, Option, some,
  none, is_some, unwrap_or, List, [], ◌∷◌, ◌==◌, if◌then◌else◌, arith, ok, ==_iff, subst,
}
use curator_rs.Session.Floats.{Floats}
use curator_rs.Access.{Caller, Gate, edit_lease}
use curator_rs.Ratings.Policy.{nudenet_rating, phar_fast_suggestion}
use curator_rs.Ratings.Rows.{
  MediaRow, human, update_where, find_row, is_present, with_nudenet, with_video_nudenet,
  with_action, persist_nudenet, persist_video_nudenet, persist_action, highest, Finding, in_image,
  in_frames, in_actions, persist, persist_all,
}
use curator_rs.Ratings.Reviews.{
  RatingReview, review, undo_review, write_review, write_undo, with_review, without_review, chosen,
  is_ratable, is_rating, is_reviewed_at, reviewed_of,
}
use curator_rs.Ratings.Coherent.{IsCoherent, find_row-update_where}

-- What a review that succeeds returns and leaves in the row of its medium.
pub review-ok :
    (g : Gate) (c : Caller) (id : ℕ) (rating : Option ℕ) (now : String) (rows rows' : List MediaRow)
    (v : RatingReview)
    → review g c id rating now rows ≡ (ok v, rows')
    → (r : MediaRow) × (find_row id rows ≡ some r)
      × (is_ratable rating r ≡ true)
      × (v ≡ reviewed_of (with_review rating now r))
      × (rows'
          ≡ (update_where (λ r. r.id == id && is_ratable rating r) (with_review rating now) rows).1)
unfolding review write_review
review-ok g c id rating now rows rows' v h = elim (Option-cases (find_row id rows)) [
  | inl none_found ↦ absurd (ground arith)
  | inr (r, found) ↦ (r, found, ground arith, ground arith, ground arith)
]

-- The row bears this rating of a person.
abbrev pub BearsHuman : ℕ → MediaRow → Type 0
BearsHuman n r =
    (r.human_rating ≡ some n)
    × (r.rating ≡ n)
    × (r.rating_source ≡ human)
    × (r.rating_reviewed ≡ true)

with_nudenet-BearsHuman :
    (n found : ℕ) (r : MediaRow)
    → BearsHuman n r
    → BearsHuman n (with_nudenet found r) × BearsHuman n (with_video_nudenet found r)
unfolding with_nudenet with_video_nudenet
with_nudenet-BearsHuman n found r h = ground arith

with_action-BearsHuman :
    (n fast : ℕ) (r : MediaRow) → BearsHuman n r → BearsHuman n (with_action fast r)
unfolding with_action
with_action-BearsHuman n fast r h = ground arith

-- A row is found again after an update that keeps its ids and what the row bears.
found_again :
    (n id : ℕ) (test : MediaRow → Bool) (change : MediaRow → MediaRow) (rows : List MediaRow)
    (r : MediaRow)
    → ((r : MediaRow) → (change r).id ≡ r.id)
    → BearsHuman n (change r)
    → find_row id rows ≡ some r
    → BearsHuman n r
    → (r' : MediaRow) × (find_row id (update_where test change rows).1 ≡ some r') × BearsHuman n r'
found_again n id test change rows r same changed found h =
    let e = find_row-update_where test change id rows same in
    elim (Bool-cases (test r)) [
      | inl t ↦ (change r, ground arith, changed)
      | inr t ↦ (r, ground arith, h)
    ]

find_row-id : (id : ℕ) (rows : List MediaRow) (r : MediaRow) → find_row id rows ≡ some r → r.id ≡ id
unfolding find_row
find_row-id id [] r h = absurd (cc)
find_row-id id (x ∷ rows) r h = ground (arith, find_row-id id rows r)

reviewed-BearsHuman :
    (rating : Option ℕ) (now : String) (r : MediaRow) (v : RatingReview)
    → is_ratable rating r ≡ true
    → v ≡ reviewed_of (with_review rating now r)
    → BearsHuman v.rating (with_review rating now r)
unfolding with_review chosen is_ratable is_rating
reviewed-BearsHuman none now r v h e = ground arith
reviewed-BearsHuman (some n) now r v h e = ground arith

module _ {F S : Type 0} ⦃ff : Floats F⦄ ⦃fs : Floats S⦄ where
  persist-BearsHuman :
      (f : Finding F S) (n id : ℕ) (rows : List MediaRow) (r : MediaRow)
      → find_row id rows ≡ some r
      → BearsHuman n r
      → (r' : MediaRow) × (find_row id (persist f rows) ≡ some r') × BearsHuman n r'
  unfolding persist persist_nudenet persist_video_nudenet persist_action with_nudenet
      with_video_nudenet with_action
  persist-BearsHuman (in_image k ds) n id rows r found h =
      found_again n id (is_present k) (with_nudenet (nudenet_rating ds)) rows r (λ r. refl)
        (with_nudenet-BearsHuman n (nudenet_rating ds) r h).0 found h
  persist-BearsHuman (in_frames k frames) n id rows r found h =
      let highest_found = unwrap_or (highest frames) 1 in
      found_again n id (is_present k) (with_video_nudenet highest_found) rows r (λ r. refl)
        (with_nudenet-BearsHuman n highest_found r h).1 found h
  persist-BearsHuman (in_actions k ws) n id rows r found h =
      let fast : ℕ = if is_some (phar_fast_suggestion ws) then 4 else 0 in
      found_again n id (is_present k) (with_action fast) rows r (λ r. refl)
        (with_action-BearsHuman n fast r h) found h

  persist_all-BearsHuman :
      (fs : List (Finding F S)) (n id : ℕ) (rows : List MediaRow) (r : MediaRow)
      → find_row id rows ≡ some r
      → BearsHuman n r
      → (r' : MediaRow) × (find_row id (persist_all fs rows) ≡ some r') × BearsHuman n r'
  unfolding persist_all
  persist_all-BearsHuman [] n id rows r found h = (r, found, h)
  persist_all-BearsHuman (f ∷ fs) n id rows r found h =
      let (r', found', h') = persist-BearsHuman f n id rows r found h in
      persist_all-BearsHuman fs n id (persist f rows) r' found' h'

  -- A rating that a person gave stays, whatever the classifiers find of the medium or others later:
  -- it is the rating that is shown, as reviewed by a person.
  pub review_stays :
      (g : Gate) (c : Caller) (id : ℕ) (rating : Option ℕ) (now : String)
      (rows rows' : List MediaRow) (v : RatingReview) (fs : List (Finding F S))
      → review g c id rating now rows ≡ (ok v, rows')
      → (r : MediaRow) × (find_row id (persist_all fs rows') ≡ some r) × BearsHuman v.rating r
  unfolding with_review chosen is_ratable is_rating
  review_stays g c id rating now rows rows' v fs h =
      let (r, found, ratable, e, e') = review-ok g c id rating now rows rows' v h in
      let test = λ (r : MediaRow). r.id == id && is_ratable rating r in
      let again = find_row-update_where test (with_review rating now) id rows (λ r. refl) in
      let is_id = find_row-id id rows r found in
      persist_all-BearsHuman fs v.rating id rows' (with_review rating now r)
        (ap (find_row id) e' ∙ ground (arith, again)) (reviewed-BearsHuman rating now r v ratable e)

without_review-with_review :
    (rating : Option ℕ) (now : String) (r : MediaRow)
    → IsCoherent r
    → r.human_rating ≡ none
    → r.rating_reviewed_at ≡ none
    → without_review (with_review rating now r) ≡ r
unfolding without_review with_review
without_review-with_review rating now r v h k = ground arith

is_reviewed_at-with_review :
    (rating : Option ℕ) (now : String) (r : MediaRow)
    → is_ratable rating r ≡ true
    → is_reviewed_at now (with_review rating now r) ≡ true
unfolding is_reviewed_at with_review is_ratable chosen is_rating
is_reviewed_at-with_review none now r h = ground (arith, eq_refl now)
is_reviewed_at-with_review (some n) now r h = ground (arith, eq_refl now)

id-with_review :
    (rating : Option ℕ) (now : String) (r : MediaRow) → (with_review rating now r).id ≡ r.id
unfolding with_review
id-with_review rating now r = refl

id-without_review : (r : MediaRow) → (without_review r).id ≡ r.id
unfolding without_review
id-without_review r = refl

-- The two updates, one after the other, on a row that is found.
module _ (id : ℕ) (rating : Option ℕ) (now : String) (r : MediaRow) where
  reviewed_row : MediaRow → MediaRow
  reviewed_row x = if x.id == id && is_ratable rating x then with_review rating now x else x

  restored_row : MediaRow → MediaRow
  restored_row x = if x.id == id && is_reviewed_at now x then without_review x else x

  restored_row-reviewed_row :
      (k : ℕ) (rows : List MediaRow)
      → find_row id rows ≡ some r
      → is_ratable rating r ≡ true
      → is_reviewed_at now (with_review rating now r) ≡ true
      → without_review (with_review rating now r) ≡ r
      → Option.map restored_row (Option.map reviewed_row (find_row k rows)) ≡ find_row k rows
  unfolding reviewed_row restored_row
  restored_row-reviewed_row k rows found ratable timed restored =
      elim (Option-cases (find_row k rows)) [
        | inl e ↦ rw e refl
        | inr (x, e) ↦
            let is_k = find_row-id k rows x e in
            let is_id = find_row-id id rows r found in
            let same_id = id-with_review rating now r in
            elim (Bool-cases (k == id)) [
              | inl t ↦
                  let p : k ≡ id = (==_iff k id).0 t in
                  let q : x ≡ r = ground (arith, ap (λ j. find_row j rows) p) in
                  rw (e, q) (ground arith)
              | inr f ↦ rw e (ground arith)
            ]
      ]

-- Undoing a review at the time it was made, by a caller who may edit, succeeds and restores the
-- medium, whose row was coherent and not reviewed, and leaves what is found of the others.
pub undo_review-review :
    (g g' : Gate) (c c' : Caller) (id k : ℕ) (rating : Option ℕ) (now : String)
    (rows rows' : List MediaRow) (v : RatingReview) (r : MediaRow)
    → review g c id rating now rows ≡ (ok v, rows')
    → edit_lease g' c' ≡ none
    → find_row id rows ≡ some r
    → IsCoherent r
    → r.human_rating ≡ none
    → r.rating_reviewed_at ≡ none
    → (u : RatingReview) × (rows'' : List MediaRow) × (undo_review g' c' id now rows'
        ≡ (ok u, rows''))
      × (u.rating ≡ r.rating)
      × (find_row k rows'' ≡ find_row k rows)
unfolding undo_review write_undo restored_row reviewed_row
undo_review-review g g' c c' id k rating now rows rows' v r h may found coherent unreviewed
      untimed =
    let (r0, found0, ratable0, e, e') = review-ok g c id rating now rows rows' v h in
    let same_row : r0 ≡ r = ground arith in
    let ratable : is_ratable rating r ≡ true =
      subst (λ r. is_ratable rating r ≡ true) same_row ratable0 in
    let test = λ (r : MediaRow). r.id == id && is_ratable rating r in
    let back = λ (r : MediaRow). r.id == id && is_reviewed_at now r in
    let restored = without_review-with_review rating now r coherent unreviewed untimed in
    let timed = is_reviewed_at-with_review rating now r ratable in
    let is_id = find_row-id id rows r found in
    let there : find_row id rows' ≡ some (with_review rating now r) =
      ap (find_row id) e'
      ∙ find_row-update_where test (with_review rating now) id rows (id-with_review rating now)
      ∙ ground arith in
    (
      record (reviewed_of (without_review (with_review rating now r))) { action_rating = none },
      (update_where back without_review rows').1,
      ground (arith, may, there, timed),
      ap (λ r. r.rating) restored,
      find_row-update_where back without_review k rows' id-without_review
          ∙ ap (λ l. Option.map (restored_row id rating now r) (find_row k l)) e'
          ∙ ap (Option.map (restored_row id rating now r)) (
              find_row-update_where test (with_review rating now) k rows
                (id-with_review rating now))
          ∙ restored_row-reviewed_row id rating now r k rows found ratable timed restored,
    )
