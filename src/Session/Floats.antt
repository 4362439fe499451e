-- ===== src/Session/Floats.antt =====
-- The arithmetic of `f64` and the random generator `StdRng` of the crate rand, which src/session.rs
-- uses and does not define: parameters of the model.
use curator_rs.Prelude.{ℕ, ◌<◌, Bool, ◌&&◌, if◌then◌else◌}

-- The operations of `f64` that the engine uses. `of_ratio 1 10` is the literal 0.1.
pub record Floats (F : Type 0) : Type 0 where
  pub of_nat : ℕ → F
  pub of_ratio : ℕ → ℕ → F
  pub add : F → F → F
  pub sub : F → F → F
  pub mul : F → F → F
  pub div : F → F → F
  pub floor : F → F
  pub is_finite : F → Bool
  pub lt : F → F → Bool
  pub le : F → F → Bool

-- A seeded generator; `gen_range g n` draws from 0..n, and is below n.
pub record Rng (R : Type 0) : Type 0 where
  pub seed_from_u64 : ℕ → R
  pub gen_range : R → ℕ → ℕ × R
  pub gen_range-lt : (g : R) (n : ℕ) → 0 < n → (gen_range g n).0 < n

module _ {F : Type 0} ⦃fl : Floats F⦄ where
  -- `value.clamp(lo, hi)`
  abbrev pub clamp : F → F → F → F
  clamp value lo hi =
      if Floats.lt fl value lo then lo else if Floats.lt fl hi value then hi else value

  -- `(lo..=hi).contains(&value)`
  abbrev pub in_range : F → F → F → Bool
  in_range lo hi value = Floats.le fl lo value && Floats.le fl value hi
