-- ===== src/Ratings/Policy.antt =====
-- src/nsfw.rs: which rating the findings of the classifiers suggest.
use curator_rs.Prelude.{
  ℕ, String, Bool, false, ◌&&◌, ◌||◌, Option, some, none, List, [], ◌∷◌, map, any, ◌==◌,
  if◌then◌else◌,
}
use curator_rs.Text.{trim}
use curator_rs.Ascii.{codes, raised, lowered, is_one_of}
use curator_rs.Session.Floats.{Floats}

-- The box of a detection is evidence only.
pub record Detection (S : Type 0) : Type 0 where
  pub label : String
  pub score : S

pub record ActionWindow (F S : Type 0) : Type 0 where
  pub start_secs : F
  pub end_secs : F
  pub label : String
  pub score : S

underscored : ℕ → ℕ
underscored c = if c == b'-' || c == b' ' then b'_' else c

unfoldable pub normalized_label : String → List ℕ
unfolding underscored
normalized_label label = map underscored (raised (codes (trim label)))

unfoldable pub exposed_label : String → Bool
exposed_label label =
    is_one_of
      ("FEMALE_BREAST_EXPOSED" ∷ "BUTTOCKS_EXPOSED" ∷ "FEMALE_GENITALIA_EXPOSED"
        ∷ "MALE_GENITALIA_EXPOSED" ∷ "ANUS_EXPOSED" ∷ "MALE_BREAST_EXPOSED" ∷ [])
      (normalized_label label)

unfoldable pub slow_label : String → Bool
slow_label label =
    is_one_of
      ("FEMALE_BREAST_COVERED" ∷ "BUTTOCKS_COVERED" ∷ "FEMALE_GENITALIA_COVERED"
        ∷ "MALE_GENITALIA_COVERED" ∷ "BELLY_EXPOSED" ∷ "ARMPITS_EXPOSED" ∷ [])
      (normalized_label label)

unfoldable pub phar_fast_label : String → Bool
phar_fast_label label =
    is_one_of
      ("handjob" ∷ "fingering" ∷ "titjob" ∷ "blowjob" ∷ "cunnilingus" ∷ "deepthroat" ∷ "doggy"
        ∷ "the-snake" ∷ "anal" ∷ "missionary" ∷ "cowgirl" ∷ "scoop-up" ∷ "69" ∷ [])
      (lowered (codes (trim label)))

unfoldable pub pace_label : ℕ → String
pace_label rating =
    if rating == 1
    then "sfw"
    else if rating == 2
    then "slow"
    else if rating == 3
    then "medium"
    else if rating == 4
    then "fast"
    else if rating == 5
    then "cum"
    else "unrated"

-- `S` is the type of `f32`, of which the scores are.
module _ {S : Type 0} ⦃fs : Floats S⦄ where
  -- `d.score.is_finite() && d.score >= DETECTION_MIN_SCORE`
  unfoldable pub is_qualifying : Detection S → Bool
  is_qualifying d = Floats.is_finite fs d.score && Floats.le fs (Floats.of_ratio fs 20 100) d.score

  unfoldable pub nudenet_rating : List (Detection S) → ℕ
  nudenet_rating ds =
      if any (λ d. is_qualifying d && exposed_label d.label) ds
      then 3
      else if any (λ d. is_qualifying d && slow_label d.label) ds
      then 2
      else 1

  abbrev pub fast_score : S
  fast_score = Floats.of_ratio fs 70 100

  abbrev pub lower : S → S → S
  lower a b = if Floats.lt fs b a then b else a

-- `F` is the type of `f64`, of which the times are.
module _ {F S : Type 0} ⦃ff : Floats F⦄ ⦃fs : Floats S⦄ where
  unfoldable pub is_fast : ActionWindow F S → Bool
  is_fast w =
      phar_fast_label w.label && Floats.is_finite fs w.score && Floats.le fs fast_score w.score

  -- `window.start_secs <= end + 0.75`
  unfoldable pub follows : Option F → ActionWindow F S → Bool
  follows none w = false
  follows (some last) w = Floats.le ff w.start_secs (Floats.add ff last (Floats.of_ratio ff 75 100))

  -- The loop of `phar_fast_suggestion`, after the last qualifying window's end and score.
  unfoldable pub suggest : Option F → S → List (ActionWindow F S) → Option S
  suggest previous_end previous_score [] = none
  suggest previous_end previous_score (w ∷ ws) =
      let kept = suggest (some w.end_secs) w.score ws in
      let reset = suggest none (Floats.of_ratio fs 0 1) ws in
      if is_fast w && Floats.le fs fast_score previous_score && follows previous_end w
      then some (lower previous_score w.score)
      else if is_fast w
      then kept
      else reset

  unfoldable pub phar_fast_suggestion : List (ActionWindow F S) → Option S
  phar_fast_suggestion ws = suggest none (Floats.of_ratio fs 0 1) ws
