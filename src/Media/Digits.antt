-- ===== src/Media/Digits.antt =====
-- Decimal numbers as bytes: `str::parse::<u64>`, and the digits that it reads back.
use curator_rs.Prelude.{
  ℕ, zero, suc, ◌+◌, ◌-◌, ◌*◌, ◌/◌, ◌%◌, ◌≤◌, ◌<◌, ◌≡◌, refl, ◌∙◌, Bool, true, ◌&&◌, Option, some,
  none, List, [], ◌∷◌, ◌++◌, arith, ltb, leb, if◌then◌else◌, u64_max, all, all-append, append-cons,
  sym, Bool-cases, inl, inr,
}

-- `byte.is_ascii_digit()`
unfoldable pub is_digit : ℕ → Bool
is_digit c = leb b'0' c && leb c b'9'

-- The digits that follow the value read so far.
unfoldable pub parse_from : ℕ → List ℕ → Option ℕ
parse_from value [] = some value
parse_from value (c ∷ cs) =
    let rest = parse_from (value * 10 + (c - b'0')) cs in
    if is_digit c && leb (value * 10 + (c - b'0')) u64_max then rest else none

-- `text.parse::<u64>()` on a text without a sign.
unfoldable pub parse_u64 : List ℕ → Option ℕ
parse_u64 [] = none
parse_u64 (c ∷ cs) = parse_from 0 (c ∷ cs)

-- The digits of a number below `10 ^ fuel`, and a number is below that for itself and one.
unfoldable pub digits : ℕ → ℕ → List ℕ
digits zero n = []
digits (suc fuel) n =
    let front = digits fuel (n / 10) in
    if ltb n 10 then (n + b'0') ∷ [] else front ++ (n % 10 + b'0') ∷ []

unfoldable pub decimal : ℕ → List ℕ
decimal n = digits (suc n) n

parse_from-append :
    (value middle : ℕ) (xs ys : List ℕ)
    → parse_from value xs ≡ some middle
    → parse_from value (xs ++ ys) ≡ parse_from middle ys
unfolding parse_from
parse_from-append value middle [] ys h = ground arith
parse_from-append value middle (x ∷ xs) ys h =
    ground (arith, parse_from-append (value * 10 + (x - b'0')) middle xs ys)

parse_from-digits : (fuel n : ℕ) → n < fuel → n ≤ u64_max → parse_from 0 (digits fuel n) ≡ some n
unfolding digits parse_from is_digit
parse_from-digits zero n h k = absurd (omega arith)
parse_from-digits (suc fuel) n h k = elim (Bool-cases (ltb n 10)) [
  | inl small ↦ rw small (ground arith)
  | inr large ↦ rw large (
      parse_from-append 0 (n / 10) (digits fuel (n / 10)) ((n % 10 + b'0') ∷ [])
        (parse_from-digits fuel (n / 10) (ground arith) (omega (arith, k)))
      ∙ ground arith)
]

All-digits : (fuel n : ℕ) → all is_digit (digits fuel n) ≡ true
unfolding digits is_digit
All-digits zero n = refl
All-digits (suc fuel) n = ground (
  arith,
  All-digits fuel (n / 10),
  all-append is_digit (digits fuel (n / 10)) ((n % 10 + b'0') ∷ []),
)

pub all-decimal : (n : ℕ) → all is_digit (decimal n) ≡ true
unfolding decimal
all-decimal n = All-digits (suc n) n

digits-ne-nil : (fuel n : ℕ) → (c : ℕ) × (cs : List ℕ) × (digits (suc fuel) n ≡ c ∷ cs)
unfolding digits
digits-ne-nil fuel n = elim (Bool-cases (ltb n 10)) [
  | inl small ↦ (n + b'0', [], rw small)
  | inr large ↦ rw large (append-cons (digits fuel (n / 10)) (n % 10 + b'0'))
]

-- Reading back what was written.
pub parse_u64-decimal :
    (n : ℕ)
    → n ≤ u64_max
    → (c : ℕ) × (cs : List ℕ) × (decimal n ≡ c ∷ cs) × (parse_u64 (decimal n) ≡ some n)
unfolding decimal parse_u64
parse_u64-decimal n h =
    let (c, cs, e) = digits-ne-nil n n in
    (c, cs, e, rw e ((rw (sym e) (parse_from-digits (suc n) n (omega arith) h))))
