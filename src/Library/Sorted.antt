-- ===== src/Library/Sorted.antt =====
-- src/services/library.rs, `list`: the order of media is strict, and the condition of a cursor is the
-- order.
use curator_rs.Prelude.{
  ℕ, ◌≡◌, ◌≢◌, ◌∙◌, refl, sym, ap, Bool, true, false, ◌&&◌, ◌||◌, Bool-cases, inl, inr, List, [],
  ◌∷◌, ◌++◌, ◌==◌, ==_iff, keep, all, all-append, member, IsDistinct, arith,
}
use curator_rs.Library.Pages.{
  Row, Sort, by_id, shuffle, size_desc, size_asc, rating_desc, rating_asc, date_desc, date_asc,
  filename_asc, filename_desc, key_of, by_key, is_descending, is_id_descending, cursor_of, is_after,
  base_before, comes_before, insert_row, sort_rows,
}

by_key_asym : (d i : Bool) (a b : ℕ × ℕ) → by_key d i a b ≡ true → by_key d i b a ≡ false
unfolding by_key
by_key_asym true true a b h = ground (arith, ==_iff a.0 b.0, ==_iff b.0 a.0)
by_key_asym true false a b h = ground (arith, ==_iff a.0 b.0, ==_iff b.0 a.0)
by_key_asym false true a b h = ground (arith, ==_iff a.0 b.0, ==_iff b.0 a.0)
by_key_asym false false a b h = ground (arith, ==_iff a.0 b.0, ==_iff b.0 a.0)

by_key_trans :
    (d i : Bool) (a b c : ℕ × ℕ)
    → by_key d i a b ≡ true
    → by_key d i b c ≡ true
    → by_key d i a c ≡ true
unfolding by_key
by_key_trans true true a b c h k = ground (arith, ==_iff a.0 b.0, ==_iff b.0 c.0, ==_iff a.0 c.0)
by_key_trans true false a b c h k = ground (arith, ==_iff a.0 b.0, ==_iff b.0 c.0, ==_iff a.0 c.0)
by_key_trans false true a b c h k = ground (arith, ==_iff a.0 b.0, ==_iff b.0 c.0, ==_iff a.0 c.0)
by_key_trans false false a b c h k = ground (arith, ==_iff a.0 b.0, ==_iff b.0 c.0, ==_iff a.0 c.0)

by_key_total :
    (d i : Bool) (a b : ℕ × ℕ) → a.1 ≢ b.1 → by_key d i a b ≡ false → by_key d i b a ≡ true
unfolding by_key
by_key_total true true a b n h = ground (arith, ==_iff a.0 b.0, ==_iff b.0 a.0)
by_key_total true false a b n h = ground (arith, ==_iff a.0 b.0, ==_iff b.0 a.0)
by_key_total false true a b n h = ground (arith, ==_iff a.0 b.0, ==_iff b.0 a.0)
by_key_total false false a b n h = ground (arith, ==_iff a.0 b.0, ==_iff b.0 a.0)

-- The order, without the rows to review first, by the directions of the cursor.
pub before-by_key :
    (seed : ℕ) (sort : Sort) (r s : Row)
    → comes_before false seed sort r s
      ≡ by_key
          (is_descending sort)
          (is_id_descending sort)
          (cursor_of seed sort r)
          (cursor_of seed sort s)
unfolding comes_before base_before is_descending is_id_descending
before-by_key seed by_id r s = refl
before-by_key seed shuffle r s = refl
before-by_key seed size_desc r s = refl
before-by_key seed size_asc r s = refl
before-by_key seed rating_desc r s = refl
before-by_key seed rating_asc r s = refl
before-by_key seed date_desc r s = refl
before-by_key seed date_asc r s = refl
before-by_key seed filename_asc r s = refl
before-by_key seed filename_desc r s = refl

pub is_after-before :
    (seed : ℕ) (sort : Sort) (r s : Row)
    → is_after seed sort (cursor_of seed sort r) s ≡ comes_before false seed sort r s
unfolding is_after key_of comes_before base_before is_descending is_id_descending by_key
is_after-before seed by_id r s = ground (arith, ==_iff r.id s.id)
is_after-before seed shuffle r s = refl
is_after-before seed size_desc r s = refl
is_after-before seed size_asc r s = refl
is_after-before seed rating_desc r s = refl
is_after-before seed rating_asc r s = refl
is_after-before seed date_desc r s = refl
is_after-before seed date_asc r s = refl
is_after-before seed filename_asc r s = refl
is_after-before seed filename_desc r s = refl

abbrev pub row_ids : List Row → List ℕ
row_ids [] = []
row_ids (r ∷ rows) = r.id ∷ row_ids rows

module _ (seed : ℕ) (sort : Sort) where
  abbrev before : Row → Row → Bool
  before r s = comes_before false seed sort r s

  abbrev pub IsSorted : List Row → Type 0
  IsSorted [] = Unit {0}
  IsSorted (r ∷ rows) = (all (before r) rows ≡ true) × IsSorted rows

  before_asym : (r s : Row) → before r s ≡ true → before s r ≡ false
  before_asym r s h =
      before-by_key seed sort s r
      ∙ by_key_asym (is_descending sort) (is_id_descending sort) (cursor_of seed sort r)
          (cursor_of seed sort s) (sym (before-by_key seed sort r s) ∙ h)

  before_trans : (r s t : Row) → before r s ≡ true → before s t ≡ true → before r t ≡ true
  before_trans r s t h k =
      before-by_key seed sort r t
      ∙ by_key_trans (is_descending sort) (is_id_descending sort) (cursor_of seed sort r)
          (cursor_of seed sort s) (cursor_of seed sort t) (sym (before-by_key seed sort r s) ∙ h)
          (sym (before-by_key seed sort s t) ∙ k)

  before_total : (r s : Row) → r.id ≢ s.id → before r s ≡ false → before s r ≡ true
  before_total r s n h =
      before-by_key seed sort s r
      ∙ by_key_total (is_descending sort) (is_id_descending sort) (cursor_of seed sort r)
          (cursor_of seed sort s) n (sym (before-by_key seed sort r s) ∙ h)

  all-before :
      (r s : Row) (rows : List Row)
      → before r s ≡ true
      → all (before s) rows ≡ true
      → all (before r) rows ≡ true
  all-before r s [] h k = refl
  all-before r s (t ∷ rows) h k =
      let this = before_trans r s t h (ground arith) in ground (arith, all-before r s rows h)

  all-insert_row :
      (p : Row → Bool) (r : Row) (rows : List Row)
      → all p (insert_row false seed sort r rows) ≡ (p r && all p rows)
  unfolding insert_row
  all-insert_row p r [] = refl
  all-insert_row p r (s ∷ rows) = elim (Bool-cases (before r s)) [
    | inl t ↦ rw t refl
    | inr f ↦ rw f (ground (arith, all-insert_row p r rows))
  ]

  ids-insert_row :
      (x : ℕ) (r : Row) (rows : List Row)
      → member x (row_ids (insert_row false seed sort r rows))
        ≡ (r.id == x || member x (row_ids rows))
  unfolding insert_row
  ids-insert_row x r [] = refl
  ids-insert_row x r (s ∷ rows) = elim (Bool-cases (before r s)) [
    | inl t ↦ rw t refl
    | inr f ↦ rw f (ground (arith, ids-insert_row x r rows))
  ]

  insert_row-IsSorted :
      (r : Row) (rows : List Row)
      → IsSorted rows
      → member r.id (row_ids rows) ≡ false
      → IsSorted (insert_row false seed sort r rows)
  unfolding insert_row
  insert_row-IsSorted r [] h n = (refl, tt)
  insert_row-IsSorted r (s ∷ rows) (h, hs) n = elim (Bool-cases (before r s)) [
    | inl t ↦ let later = all-before r s rows t h in rw t (ground arith, (h, hs))
    | inr f ↦
        let other = before_total r s (λ e. absurd (ground (arith, ==_iff s.id r.id))) f in
        rw f (
          all-insert_row (before s) r rows ∙ ground arith,
          insert_row-IsSorted r rows hs (ground arith),
        )
  ]

  ids-sort_rows :
      (x : ℕ) (rows : List Row)
      → member x (row_ids (sort_rows false seed sort rows)) ≡ member x (row_ids rows)
  unfolding sort_rows
  ids-sort_rows x [] = refl
  ids-sort_rows x (r ∷ rows) =
      ids-insert_row x r (sort_rows false seed sort rows)
      ∙ ap (λ b. r.id == x || b) (ids-sort_rows x rows)

  pub sort_rows-IsSorted :
      (rows : List Row) → IsDistinct (row_ids rows) → IsSorted (sort_rows false seed sort rows)
  unfolding sort_rows
  sort_rows-IsSorted [] d = tt
  sort_rows-IsSorted (r ∷ rows) (d, ds) =
      insert_row-IsSorted r (sort_rows false seed sort rows) (sort_rows-IsSorted rows ds)
        (ids-sort_rows r.id rows ∙ d)

  keep-later :
      (a : Row) (ys : List Row)
      → all (before a) ys ≡ true
      → keep (is_after seed sort (cursor_of seed sort a)) ys ≡ ys
  keep-later a [] h = refl
  keep-later a (y ∷ ys) h =
      let here : is_after seed sort (cursor_of seed sort a) y ≡ true =
        is_after-before seed sort a y ∙ ground arith in
      let rest = keep-later a ys (ground arith) in rw here (ap (λ l. y ∷ l) rest)

  drop_first :
      (a x : Row) (rows : List Row)
      → before a x ≡ false
      → keep (is_after seed sort (cursor_of seed sort a)) (x ∷ rows)
        ≡ keep (is_after seed sort (cursor_of seed sort a)) rows
  drop_first a x rows h =
      let out : is_after seed sort (cursor_of seed sort a) x ≡ false =
        is_after-before seed sort a x ∙ h in
      rw out refl

  before_self : (a : Row) → before a a ≡ false
  before_self a = elim (Bool-cases (before a a)) [ inl t ↦ before_asym a a t | inr f ↦ f ]

  -- The rows after the cursor of a row are those that follow it.
  pub keep-IsSorted :
      (xs : List Row) (a : Row) (ys : List Row)
      → IsSorted (xs ++ a ∷ ys)
      → keep (is_after seed sort (cursor_of seed sort a)) (xs ++ a ∷ ys) ≡ ys
  keep-IsSorted [] a ys (h, hs) = drop_first a a ys (before_self a) ∙ keep-later a ys h
  keep-IsSorted (x ∷ xs) a ys (h, hs) =
      let first : before x a ≡ true = ground (arith, all-append (before x) xs (a ∷ ys)) in
      drop_first a x (xs ++ a ∷ ys) (before_asym x a first) ∙ keep-IsSorted xs a ys hs
