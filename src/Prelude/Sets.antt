-- ===== src/Prelude/Sets.antt =====
-- Lists of native numbers as sets: the `HashSet`s and the keys of the `HashMap`s of ids.
use Prim.Native.Nat.{ℕ, ◌+◌, ◌<◌, max}
use mathlib.Core.Path.{◌≡◌, refl}
use mathlib.Core.Bool.{Bool, false, not, ◌&&◌, ◌||◌}
use mathlib.Core.List.{List, [], ◌∷◌}
use native.Mathlib.Omega.{arith}
use curator_rs.Prelude.Tests.{◌==◌, ==_iff, if◌then◌else◌}
use curator_rs.Prelude.Lists.{keep}

abbrev pub member : ℕ → List ℕ → Bool
member n [] = false
member n (x ∷ xs) = x == n || member n xs

abbrev pub insert_new : ℕ → List ℕ → List ℕ
insert_new n xs = if member n xs then xs else n ∷ xs

abbrev pub remove : ℕ → List ℕ → List ℕ
remove n xs = keep (λ x. not (x == n)) xs

pub member-insert_new :
    (n m : ℕ) (xs : List ℕ) → member n (insert_new m xs) ≡ (m == n || member n xs)
member-insert_new n m xs = ground arith

pub member-keep : (p : ℕ → Bool) (n : ℕ) (xs : List ℕ) → member n (keep p xs) ≡ (member n xs && p n)
member-keep p n [] = refl
member-keep p n (x ∷ xs) = ground (arith, member-keep p n xs)

-- No number stands twice on the list.
abbrev pub IsDistinct : List ℕ → Type 0
IsDistinct [] = Unit {0}
IsDistinct (x ∷ xs) = (member x xs ≡ false) × IsDistinct xs

-- The ids that SQLite gives to new rows: no row has one of them already.
pub record RowIds : Type 0 where
  pub next : List ℕ → ℕ
  pub next-new : (ids : List ℕ) → member (next ids) ids ≡ false

-- The largest id and one, as SQLite does.
abbrev pub greatest : List ℕ → ℕ
greatest [] = 0
greatest (x ∷ xs) = max x (greatest xs)

member-greatest : (n : ℕ) (xs : List ℕ) → greatest xs < n → member n xs ≡ false
member-greatest n [] h = refl
member-greatest n (x ∷ xs) h = ground (arith, member-greatest n xs, ==_iff x n)

pub greatest-new : (xs : List ℕ) → member (greatest xs + 1) xs ≡ false
greatest-new xs = member-greatest (greatest xs + 1) xs (omega arith)

abbrev pub sqlite : RowIds
sqlite = record { next = λ xs. greatest xs + 1; next-new = greatest-new }
