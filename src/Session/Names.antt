-- ===== src/Session/Names.antt =====
-- src/session.rs: the names of sessions tell their sequence numbers apart.
use Prim.Native.Char.{code}
use Prim.Native.String
use text.Mathlib.TextLemmas.{length-append, append_inj, append_cancel_left}
use native.Mathlib.Nat.{pow-suc}
use curator_rs.Prelude.{
  ℕ, zero, suc, ◌+◌, ◌-◌, ◌≤◌, Bool-cases, inl, inr, ◌/◌, ◌%◌, ◌^◌, ◌<◌, ◌≡◌, ◌∙◌, sym, refl, ap,
  Bool, true, ◌&&◌, arith, String, leb, ◌==◌, ==_iff, if◌then◌else◌, get_or,
}
use curator_rs.Session.Validate.{hex_digits, hex16, digit_names}
use curator_rs.Session.Service.{run_name}

abbrev digit : ℕ → String
digit d = get_or digit_names d ""

-- The value of a digit, to read it back.
digit_value : String → ℕ
digit_value String.[] = 16
digit_value (String.◌∷◌ c s) = if leb (code c) b'9' then code c - b'0' else code c - 87

-- A test of the `count` numbers from `first` on.
passes_from : ℕ → ℕ → (ℕ → Bool) → Bool
passes_from first zero test = true
passes_from first (suc count) test = test first && passes_from (first + 1) count test

passes_at :
    (first count d : ℕ) (test : ℕ → Bool)
    → passes_from first count test ≡ true
    → first ≤ d
    → d < first + count
    → test d ≡ true
unfolding passes_from
passes_at first zero d test every low high = absurd (omega arith)
passes_at first (suc count) d test every low high = elim (Bool-cases (d == first)) [
  | inl same ↦ rw ((==_iff d first).0 same) (ground arith)
  | inr other ↦ passes_at (first + 1) count d test (ground arith) (ground arith) (omega arith)
]

digits_read : passes_from 0 16 (λ d. digit_value (digit d) == d) ≡ true
unfolding passes_from digit_value
digits_read = refl

digits_single : passes_from 0 16 (λ d. String.count (digit d) == 1) ≡ true
unfolding passes_from
digits_single = refl

digit_inj : (a b : ℕ) → a < 16 → b < 16 → digit a ≡ digit b → a ≡ b
digit_inj a b h k e =
    sym ((==_iff _ a).0 (passes_at 0 16 a _ digits_read (omega arith) h))
    ∙ ap digit_value e
    ∙ (==_iff _ b).0 (passes_at 0 16 b _ digits_read (omega arith) k)

count-digit : (a : ℕ) → a < 16 → String.count (digit a) ≡ 1
count-digit a h = (==_iff _ 1).0 (passes_at 0 16 a _ digits_single (omega arith) h)

count-hex_digits : (k n : ℕ) → String.count (hex_digits k n) ≡ k
unfolding hex_digits
count-hex_digits zero n = refl
count-hex_digits (suc k) n = omega (
  arith,
  length-append (hex_digits k (n / 16)) (digit (n % 16)),
  count-hex_digits k (n / 16),
  count-digit (n % 16) (omega arith),
)

hex_digits_inj : (k n m : ℕ) → n < 16 ^ k → m < 16 ^ k → hex_digits k n ≡ hex_digits k m → n ≡ m
unfolding hex_digits
hex_digits_inj zero n m h l e = omega arith
hex_digits_inj (suc k) n m h l e =
    let (front, back) =
      append_inj e (count-hex_digits k (n / 16) ∙ sym (count-hex_digits k (m / 16))) in
    omega (
      arith,
      hex_digits_inj k (n / 16) (m / 16) (omega (arith, pow-suc 16 k)) (omega (arith, pow-suc 16 k))
          front,
      digit_inj (n % 16) (m % 16) (omega arith) (omega arith) back,
    )

hex16_inj :
    (n m : ℕ) → n < 18446744073709551616 → m < 18446744073709551616 → hex16 n ≡ hex16 m → n ≡ m
hex16_inj n m h l e = hex_digits_inj 16 n m h l e

-- Two runs have the same name only if they have the same number, whatever their seeds: the numbers
-- are `u64` values.
pub run_name_inj :
    (seed seed' a b : ℕ)
    → a < 18446744073709551616
    → b < 18446744073709551616
    → run_name seed a ≡ run_name seed' b
    → a ≡ b
unfolding run_name
run_name_inj seed seed' a b h k e =
    let rest = append_cancel_left "session-" _ _ e in
    let (front, back) =
      append_inj rest (count-hex_digits 16 seed ∙ sym (count-hex_digits 16 seed')) in
    hex16_inj a b h k (append_cancel_left "-" _ _ back)
