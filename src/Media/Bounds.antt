-- ===== src/Media/Bounds.antt =====
-- src/services/media.rs, `plan_range`: its plans stay within the file, and it reads what a player
-- writes.
use curator_rs.Prelude.{
  ℕ, ◌+◌, ◌-◌, ◌≤◌, ◌<◌, ◌≡◌, refl, Bool, true, false, ◌||◌, Option-cases, inl, inr, Option, some,
  none, List, [], ◌∷◌, ◌++◌, min, arith, any, all, ◌==◌, u64_max,
}
use curator_rs.Media.Digits.{is_digit, decimal, all-decimal, parse_u64-decimal}
use curator_rs.Media.Range.{
  StreamPlan, end, strip_prefix, split_once, is_ascii_whitespace, plan_suffix, plan_from,
  plan_bounds, plan_spec, plan_range, bytes_prefix,
}

-- What a plan promises of a file.
pub record IsWithin (total : ℕ) (p : StreamPlan) : Type 0 where
  pub whole : p.total ≡ total
  pub fits : p.start + p.length ≤ total
  pub nonempty : p.partial ≡ true → 0 < p.length
  pub last : p.partial ≡ true → end p < total

plan_bounds-IsWithin :
    (total : ℕ) (start last : List ℕ) (p : StreamPlan)
    → 0 < total
    → plan_bounds total start last ≡ some p
    → IsWithin total p
unfolding plan_bounds plan_suffix plan_from end
plan_bounds-IsWithin total [] last p t h = ground arith
plan_bounds-IsWithin total (c ∷ cs) [] p t h = ground arith
plan_bounds-IsWithin total (c ∷ cs) (d ∷ ds) p t h = ground arith

plan_spec-IsWithin :
    (total : ℕ) (spec : List ℕ) (p : StreamPlan) → plan_spec total spec ≡ some p → IsWithin total p
unfolding plan_spec
plan_spec-IsWithin total spec p h = elim (Option-cases (split_once b'-' spec)) [
  | inl no_dash ↦ absurd (ground arith)
  | inr ((start, last), e) ↦ plan_bounds-IsWithin total start last p (ground arith) (ground arith)
]

-- A plan stays within the file: a part of it is not empty, and its last byte is a byte of the file.
pub plan_range-IsWithin :
    (total : ℕ) (range : Option (List ℕ)) (p : StreamPlan)
    → plan_range total range ≡ some p
    → IsWithin total p
unfolding plan_range end
plan_range-IsWithin total none p h = ground arith
plan_range-IsWithin total (some range) p h = elim (Option-cases (strip_prefix bytes_prefix range)) [
  | inl e ↦ absurd (ground arith)
  | inr (spec, e) ↦ plan_spec-IsWithin total spec p (ground arith)
]

split_once-digits :
    (xs ys : List ℕ) → all is_digit xs ≡ true → split_once b'-' (xs ++ b'-' ∷ ys) ≡ some (xs, ys)
unfolding split_once is_digit
split_once-digits [] ys h = refl
split_once-digits (x ∷ xs) ys h = ground (arith, split_once-digits xs ys)

no_comma : (xs : List ℕ) → all is_digit xs ≡ true → any (λ c. c == b',') xs ≡ false
unfolding is_digit
no_comma [] h = refl
no_comma (x ∷ xs) h = ground (arith, no_comma xs)

no_whitespace : (xs : List ℕ) → all is_digit xs ≡ true → any is_ascii_whitespace xs ≡ false
unfolding is_digit is_ascii_whitespace
no_whitespace [] h = refl
no_whitespace (x ∷ xs) h = ground (arith, no_whitespace xs)

any-append : (p : ℕ → Bool) (xs ys : List ℕ) → any p (xs ++ ys) ≡ (any p xs || any p ys)
any-append p [] ys = refl
any-append p (x ∷ xs) ys = ground (arith, any-append p xs ys)

plan_spec-digits :
    (total : ℕ) (xs ys : List ℕ)
    → 0 < total
    → all is_digit xs ≡ true
    → all is_digit ys ≡ true
    → plan_spec total (xs ++ b'-' ∷ ys) ≡ plan_bounds total xs ys
unfolding plan_spec is_ascii_whitespace
plan_spec-digits total xs ys t h k = rw (split_once-digits xs ys h) (
    ground (
      arith,
      no_comma xs h,
      no_comma ys k,
      no_whitespace xs h,
      no_whitespace ys k,
      any-append (λ c. c == b',') xs (b'-' ∷ ys),
      any-append is_ascii_whitespace xs (b'-' ∷ ys),
    ))

strip_prefix-append : (ps s : List ℕ) → strip_prefix ps (ps ++ s) ≡ some s
unfolding strip_prefix
strip_prefix-append [] s = refl
strip_prefix-append (p ∷ ps) s = ground (arith, strip_prefix-append ps s)

-- What a player writes for the bytes from one place to another is read as these bytes, cut off at
-- the end of the file. The places are `u64` values, and the first is a byte of the file.
pub plan_range-decimal :
    (total first last : ℕ)
    → first < total
    → first ≤ last
    → first ≤ u64_max
    → last ≤ u64_max
    → plan_range total (some (bytes_prefix ++ (decimal first ++ b'-' ∷ decimal last)))
      ≡ some (record {
        start = first;
        length = min last (total - 1) - first + 1;
        total = total;
        partial = true;
      })
unfolding plan_range plan_bounds plan_from
plan_range-decimal total first last h k m n =
    let (c, cs, e, p) = parse_u64-decimal first m in
    let (d, ds, f, q) = parse_u64-decimal last n in
    let prefix = strip_prefix-append bytes_prefix (decimal first ++ b'-' ∷ decimal last) in
    let spec =
      plan_spec-digits total (decimal first) (decimal last) (omega (arith, h)) (all-decimal first)
        (all-decimal last) in
    ground (arith, prefix, spec, e, p, f, q)
