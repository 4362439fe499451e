-- ===== src/Library/Pages.antt =====
-- src/services/library.rs, `list`: the order of media and the pages. The rows are those that the
-- filters of the request leave. A time and the place of a name among the names are numbers.
use curator_rs.Prelude.{
  ℕ, zero, suc, ◌+◌, ◌*◌, ◌%◌, Bool, true, false, not, ◌&&◌, ◌||◌, Option, some, none, List, [],
  ◌∷◌, ◌++◌, ◌==◌, ltb, leb, keep, length, take, unwrap_or, if◌then◌else◌,
}

pub record Row : Type 0 where
  pub id : ℕ
  pub file_size_bytes : Option ℕ
  pub added_at : ℕ
  pub filename : ℕ
  pub effective_rating : ℕ
  pub manual_review_required : Bool

pub data Sort : Type 0 where
  by_id shuffle size_desc size_asc rating_desc rating_asc date_desc date_asc filename_asc
        filename_desc :
      Sort

-- The expression `key`, with the sizes that stand for an unknown one before and after all others.
unfoldable pub key_of : ℕ → Sort → Row → ℕ
key_of seed by_id r = r.id
key_of seed shuffle r = r.id * seed % 2147483647
key_of seed size_desc r = size_or_first r.file_size_bytes
  where
    size_or_first : Option ℕ → ℕ
    size_or_first none = 0
    size_or_first (some n) = n + 1
key_of seed size_asc r = unwrap_or r.file_size_bytes 9223372036854775807
key_of seed rating_desc r = r.effective_rating
key_of seed rating_asc r = r.effective_rating
key_of seed date_desc r = r.added_at
key_of seed date_asc r = r.added_at
key_of seed filename_asc r = r.filename
key_of seed filename_desc r = r.filename

unfoldable pub is_descending : Sort → Bool
is_descending size_desc = true
is_descending rating_desc = true
is_descending date_desc = true
is_descending filename_desc = true
is_descending sort = false

unfoldable pub is_id_descending : Sort → Bool
is_id_descending date_desc = true
is_id_descending sort = false

-- One number before another, or the other way round.
abbrev pub is_beyond : Bool → ℕ → ℕ → Bool
is_beyond true a b = ltb b a
is_beyond false a b = ltb a b

-- By the key, then by the id, each upwards or downwards.
unfoldable pub by_key : Bool → Bool → ℕ × ℕ → ℕ × ℕ → Bool
by_key descending id_desc a b =
    is_beyond descending a.0 b.0 || (a.0 == b.0 && is_beyond id_desc a.1 b.1)

abbrev pub cursor_of : ℕ → Sort → Row → ℕ × ℕ
cursor_of seed sort r = (key_of seed sort r, r.id)

-- The condition of a cursor, which has a key and an id.
unfoldable pub is_after : ℕ → Sort → ℕ × ℕ → Row → Bool
is_after seed by_id c r = ltb c.1 r.id && leb c.0 r.id
is_after seed sort c r =
    by_key (is_descending sort) (is_id_descending sort) c (cursor_of seed sort r)

unfoldable pub base_before : ℕ → Sort → Row → Row → Bool
base_before seed date_desc r s =
    by_key true true (cursor_of seed date_desc r) (cursor_of seed date_desc s)
base_before seed sort r s =
    by_key (is_descending sort) false (cursor_of seed sort r) (cursor_of seed sort s)

-- `ORDER BY`: what a person has to review comes first when the request asks for that.
unfoldable pub comes_before : Bool → ℕ → Sort → Row → Row → Bool
comes_before needs_review seed sort r s =
    if needs_review && r.manual_review_required && not s.manual_review_required
    then true
    else if needs_review && s.manual_review_required && not r.manual_review_required
    then false
    else base_before seed sort r s

module _ (needs_review : Bool) (seed : ℕ) (sort : Sort) where
  unfoldable pub insert_row : Row → List Row → List Row
  insert_row r [] = r ∷ []
  insert_row r (s ∷ rows) =
      let rest = insert_row r rows in
      if comes_before needs_review seed sort r s then r ∷ s ∷ rows else s ∷ rest

  unfoldable pub sort_rows : List Row → List Row
  sort_rows [] = []
  sort_rows (r ∷ rows) = insert_row r (sort_rows rows)

unfoldable pub from_anchor : ℕ → Sort → Option (ℕ × ℕ) → List Row → List Row
from_anchor seed sort none rows = rows
from_anchor seed sort (some c) rows = keep (is_after seed sort c) rows

pub record MediaPage : Type 0 where
  pub media : List Row
  pub has_more : Bool
  pub next_cursor : Option (ℕ × ℕ)
  pub next_after_id : Option ℕ
  pub limit : ℕ

abbrev pub last_cursor : ℕ → Sort → List Row → Option (ℕ × ℕ)
last_cursor seed sort [] = none
last_cursor seed sort (r ∷ []) = some (cursor_of seed sort r)
last_cursor seed sort (r ∷ s ∷ rows) = last_cursor seed sort (s ∷ rows)

abbrev pub last_id : List Row → Option ℕ
last_id [] = none
last_id (r ∷ []) = some r.id
last_id (r ∷ s ∷ rows) = last_id (s ∷ rows)

-- What the query returns, one row more than the page when there are more, and the page.
unfoldable pub page_of : ℕ → Sort → ℕ → List Row → MediaPage
page_of seed sort limit rows =
    let has_more = ltb limit (length rows) in
    record {
      media = take limit rows;
      has_more = has_more;
      next_cursor = if has_more then last_cursor seed sort (take limit rows) else none;
      next_after_id = if has_more then last_id (take limit rows) else none;
      limit = limit;
    }

-- The rows after the cursor, in the order of the request.
unfoldable pub list : Bool → ℕ → Sort → ℕ → Option (ℕ × ℕ) → List Row → MediaPage
list needs_review seed sort limit anchor rows =
    page_of seed sort limit
      (take (suc limit) (from_anchor seed sort anchor (sort_rows needs_review seed sort rows)))

abbrev pub follow : (ℕ × ℕ → List Row) → Option (ℕ × ℕ) → List Row
follow next none = []
follow next (some c) = next c

-- The pages that a client has which follows the cursors, as many as the fuel at most.
unfoldable pub walk : ℕ → Bool → ℕ → Sort → ℕ → Option (ℕ × ℕ) → List Row → List Row
walk zero needs_review seed sort limit anchor rows = []
walk (suc fuel) needs_review seed sort limit anchor rows =
    let page = list needs_review seed sort limit anchor rows in
    page.media
    ++ follow (λ c. walk fuel needs_review seed sort limit (some c) rows) page.next_cursor
