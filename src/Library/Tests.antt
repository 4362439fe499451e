-- ===== src/Library/Tests.antt =====
-- Pages of a few media.
use curator_rs.Prelude.{ℕ, ◌≡◌, refl, Bool, true, false, Option, some, none, List, [], ◌∷◌, arith}
use curator_rs.Library.Pages.{
  Row, size_desc, key_of, is_descending, is_id_descending, by_key, is_after, base_before,
  comes_before, insert_row, sort_rows, from_anchor, page_of, list, walk,
}
use curator_rs.Library.Walk.{walk-sort_rows}

model : Unit {0}
unfolding key_of is_descending is_id_descending by_key is_after base_before comes_before insert_row
    sort_rows from_anchor page_of list walk
model = tt

abbrev row : ℕ → Option ℕ → Bool → Row
row id size review = record {
  id = id;
  file_size_bytes = size;
  added_at = 7;
  filename = id;
  effective_rating = 0;
  manual_review_required = review;
}

abbrev media : List Row
media = row 1 (some 10) false ∷ row 2 none true ∷ row 3 (some 20) false ∷ row 4 (some 10) true ∷ []

sizes_test :
    walk 5 false 1 size_desc 2 none media
    ≡ row 3 (some 20) false ∷ row 1 (some 10) false ∷ row 4 (some 10) true ∷ row 2 none true ∷ []
unfolding model
sizes_test = refl

walk-sort_rows_example : walk 5 false 1 size_desc 2 none media ≡ sort_rows false 1 size_desc media
walk-sort_rows_example =
    walk-sort_rows 1 size_desc 1 media (refl, (refl, (refl, (refl, tt)))) 5 (omega arith)

-- With the rows to review first, a client that follows the cursors misses rows.
review_test : walk 5 true 1 size_desc 2 none media ≡ row 4 (some 10) true ∷ row 2 none true ∷ []
unfolding model
review_test = refl
