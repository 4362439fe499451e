-- ===== src/Library/Walk.antt =====
-- src/services/library.rs, `list`: the pages that a client reads one after the other.
use curator_rs.Prelude.{
  ℕ, zero, suc, ◌+◌, ◌≤◌, ◌<◌, ◌≡◌, ◌∙◌, refl, sym, ap, subst, true, false, Bool-cases, inl, inr,
  Option, none, some, List, [], ◌∷◌, ◌++◌, ltb, ltb→lt, keep, length, length-append, take,
  IsDistinct, arith,
}
use mathlib.Core.List.{append_assoc, append-nil}
use curator_rs.Library.Pages.{
  Row, Sort, cursor_of, is_after, comes_before, insert_row, sort_rows, from_anchor, MediaPage,
  last_cursor, last_id, page_of, list, follow, walk,
}
use curator_rs.Library.Sorted.{row_ids, IsSorted, sort_rows-IsSorted, keep-IsSorted}

take_none : (n : ℕ) → take {A = Row} n [] ≡ []
take_none zero = refl
take_none (suc n) = refl

take-take : (n : ℕ) (xs : List Row) → take n (take (suc n) xs) ≡ take n xs
take-take n [] = refl
take-take zero (x ∷ xs) = refl
take-take (suc n) (x ∷ xs) = ap (λ l. x ∷ l) (take-take n xs)

take_all : (n : ℕ) (xs : List Row) → length xs ≤ n → take n xs ≡ xs
take_all n [] h = take_none n
take_all zero (x ∷ xs) h = absurd (omega arith)
take_all (suc n) (x ∷ xs) h = ap (λ l. x ∷ l) (take_all n xs (omega arith))

length-take_lt : (n : ℕ) (xs : List Row) → ltb n (length (take (suc n) xs)) ≡ ltb n (length xs)
length-take_lt n [] = refl
length-take_lt zero (x ∷ xs) = ground arith
length-take_lt (suc n) (x ∷ xs) = ground (arith, length-take_lt n xs)

-- A page that is not the last one ends in a row, the cursor's.
page_end :
    (seed : ℕ) (sort : Sort) (n : ℕ) (ys : List Row)
    → suc n < length ys
    → (zs : List Row) × (b : Row) × (ws : List Row) × (ys ≡ zs ++ b ∷ ws)
      × (take (suc n) ys ≡ zs ++ b ∷ [])
      × (last_cursor seed sort (take (suc n) ys) ≡ some (cursor_of seed sort b))
page_end seed sort n [] h = absurd (omega arith)
page_end seed sort zero (y ∷ ys) h = ([], y, ys, refl, refl, refl)
page_end seed sort (suc n) (y ∷ []) h = absurd (omega arith)
page_end seed sort (suc n) (y ∷ v ∷ ys) h =
    let (zs, b, ws, e, t, c) = page_end seed sort n (v ∷ ys) (omega arith) in
    (y ∷ zs, b, ws, ap (λ l. y ∷ l) e, ap (λ l. y ∷ l) t, c)

-- The page of the rows that are left, all of them or the first ones.
page_of-last :
    (seed : ℕ) (sort : Sort) (limit : ℕ) (ys : List Row)
    → length ys ≤ limit
    → page_of seed sort limit (take (suc limit) ys) ≡ record {
      media = ys;
      has_more = false;
      next_cursor = none;
      next_after_id = none;
      limit = limit;
    }
unfolding page_of
page_of-last seed sort limit ys h =
    let fits : ltb limit (length (take (suc limit) ys)) ≡ false =
      length-take_lt limit ys ∙ ground arith in
    rw fits (
      ap
        (λ l. record {
          media = l;
          has_more = false;
          next_cursor = none;
          next_after_id = none;
          limit = limit;
        })
        (take-take limit ys ∙ take_all limit ys h))

page_of-more :
    (seed : ℕ) (sort : Sort) (n : ℕ) (ys : List Row) (c : ℕ × ℕ)
    → suc n < length ys
    → last_cursor seed sort (take (suc n) ys) ≡ some c
    → page_of seed sort (suc n) (take (suc (suc n)) ys) ≡ record {
      media = take (suc n) ys;
      has_more = true;
      next_cursor = some c;
      next_after_id = last_id (take (suc n) ys);
      limit = suc n;
    }
unfolding page_of
page_of-more seed sort n ys c h e =
    let more : ltb (suc n) (length (take (suc (suc n)) ys)) ≡ true =
      length-take_lt (suc n) ys ∙ ground arith in
    let cut = take-take (suc n) ys in
    rw more (
      ap
        (λ l. record {
          media = l;
          has_more = true;
          next_cursor = last_cursor seed sort l;
          next_after_id = last_id l;
          limit = suc n;
        })
        cut
      ∙ ap
          (λ o. record {
            media = take (suc n) ys;
            has_more = true;
            next_cursor = o;
            next_after_id = last_id (take (suc n) ys);
            limit = suc n;
          })
          e)

module _ (seed : ℕ) (sort : Sort) (n : ℕ) (rows : List Row) (d : IsDistinct (row_ids rows)) where
  abbrev ordered : List Row
  ordered = sort_rows false seed sort rows

  -- From an anchor with the rows that are left of the order, given the walk after each of them.
  walk_from :
      (fuel : ℕ) (anchor : Option (ℕ × ℕ)) (xs ys : List Row)
      → ordered ≡ xs ++ ys
      → from_anchor seed sort anchor ordered ≡ ys
      → length ys < fuel
      → walk fuel false seed sort (suc n) anchor rows ≡ ys
  unfolding walk list from_anchor
  walk_from zero anchor xs ys e a h = absurd (omega arith)
  walk_from (suc fuel) anchor xs ys e a h =
      let page = λ (l : List Row). page_of seed sort (suc n) (take (suc (suc n)) l) in
      let shown = λ (p : MediaPage).
        p.media ++ follow (λ c. walk fuel false seed sort (suc n) (some c) rows) p.next_cursor in
      elim (Bool-cases (ltb (suc n) (length ys))) [
        | inl t ↦
            let more = ltb→lt (suc n) (length ys) t in
            let (zs, b, ws, split, first, last) = page_end seed sort n ys more in
            let sizes : length ys ≡ length zs + suc (length ws) =
              ap length split ∙ length-append zs (b ∷ ws) in
            let parts : ordered ≡ (xs ++ zs) ++ b ∷ ws =
              e ∙ ap (λ l. xs ++ l) split ∙ sym (append_assoc xs zs (b ∷ ws)) in
            let sorted = subst (IsSorted seed sort) parts (sort_rows-IsSorted seed sort rows d) in
            let left : from_anchor seed sort (some (cursor_of seed sort b)) ordered ≡ ws =
              ap (keep (is_after seed sort (cursor_of seed sort b))) parts
              ∙ keep-IsSorted seed sort (xs ++ zs) b ws sorted in
            let rest =
              walk_from fuel (some (cursor_of seed sort b)) (xs ++ zs ++ b ∷ []) ws
                (parts ∙ sym (append_assoc (xs ++ zs) (b ∷ []) ws)) left (omega (arith, sizes)) in
            ap (λ l. shown (page l)) a
            ∙ ap shown (page_of-more seed sort n ys (cursor_of seed sort b) more last)
            ∙ ap (λ l. take (suc n) ys ++ l) rest
            ∙ ap (λ l. l ++ ws) first
            ∙ append_assoc zs (b ∷ []) ws
            ∙ sym split
        | inr f ↦
            ap (λ l. shown (page l)) a
            ∙ ap shown (page_of-last seed sort (suc n) ys (ground arith))
            ∙ append-nil ys
      ]

  length-insert_row :
      (r : Row) (l : List Row) → length (insert_row false seed sort r l) ≡ suc (length l)
  unfolding insert_row
  length-insert_row r [] = refl
  length-insert_row r (s ∷ l) = elim (Bool-cases (comes_before false seed sort r s)) [
    | inl t ↦ rw t refl
    | inr f ↦ rw f (omega (arith, length-insert_row r l))
  ]

  length-sort_rows : (l : List Row) → length (sort_rows false seed sort l) ≡ length l
  unfolding sort_rows
  length-sort_rows [] = refl
  length-sort_rows (r ∷ l) =
      omega (arith, length-insert_row r (sort_rows false seed sort l), length-sort_rows l)

  -- When the ids are distinct, a page is not empty and the order is not that of the review, a client
  -- that follows the cursors has each row exactly once, in the order that the request asks for, after
  -- at most one page for each row and one more.
  pub walk-sort_rows :
      (fuel : ℕ)
      → length rows < fuel
      → walk fuel false seed sort (suc n) none rows ≡ sort_rows false seed sort rows
  unfolding from_anchor
  walk-sort_rows fuel h =
      walk_from fuel none [] (sort_rows false seed sort rows) refl refl
        (omega (arith, length-sort_rows rows))
