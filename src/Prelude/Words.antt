-- ===== src/Prelude/Words.antt =====
-- Unsigned machine words: the saturating operations of `u64`, and the wrap-around of `u32` and
-- `u16` in a release build.
use Prim.Native.Nat.{ℕ, ◌+◌, ◌%◌, min}

abbrev pub u64_max : ℕ
u64_max = 18446744073709551615

-- `a.saturating_add(b)`; `a.saturating_sub(b)` is `a - b`.
abbrev pub saturating_add : ℕ → ℕ → ℕ
saturating_add a b = min (a + b) u64_max

-- `a += b` on a `u32`, and the cast `a as u16`.
abbrev pub wrapping_add32 : ℕ → ℕ → ℕ
wrapping_add32 a b = (a + b) % 4294967296

abbrev pub as_u16 : ℕ → ℕ
as_u16 a = a % 65536
