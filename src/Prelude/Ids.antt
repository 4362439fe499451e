-- ===== src/Prelude/Ids.antt =====
-- Lists of ids as sets: membership, distinct ids, and the accumulating insertion of a `HashSet`.
use Prim.Native.String.{String}
use mathlib.Core.Path.{◌≡◌, refl}
use mathlib.Core.Logic.{◌↔◌, ◌⊎◌}
use mathlib.Core.Bool.{true, false}
use mathlib.Core.List.{List, [], ◌∷◌}
use native.Mathlib.Omega.{arith}
use text.Mathlib.TextEquality.{eq_iff}
use curator_rs.Prelude.Lists.{All, contains}

-- The text is on the list.
abbrev pub Elem : String → List String → Type 0
Elem s [] = ⊥
Elem s (x ∷ xs) = (x ≡ s) ⊎ Elem s xs

abbrev pub Distinct : List String → Type 0
Distinct [] = Unit {0}
Distinct (x ∷ xs) = (¬ Elem x xs) × Distinct xs

abbrev pub Disjoint : List String → List String → Type 0
Disjoint seen = All (λ x. contains seen x ≡ false)

-- The set after the ids of a list went in, one by one.
abbrev pub insert_all : List String → List String → List String
insert_all seen [] = seen
insert_all seen (x ∷ xs) = insert_all (x ∷ seen) xs

pub contains_iff : (xs : List String) (s : String) → (contains xs s ≡ true) ↔ Elem s xs
contains_iff [] s = ground arith
contains_iff (x ∷ xs) s = ground (arith, eq_iff x s, contains_iff xs s)

pub contains-false : (xs : List String) (s : String) → ¬ Elem s xs → contains xs s ≡ false
contains-false xs s h = ground (arith, contains_iff xs s)

pub Elem-insert_all :
    (s : String) (seen xs : List String) → Elem s (insert_all seen xs) ↔ (Elem s seen ⊎ Elem s xs)
Elem-insert_all s seen [] = ground arith
Elem-insert_all s seen (x ∷ xs) = ground (arith, Elem-insert_all s (x ∷ seen) xs)

-- Disjointness from a longer set, taken apart and put together.
pub Disjoint-cons :
    (x : String) (seen xs : List String)
    → Disjoint (x ∷ seen) xs ↔ (Disjoint seen xs × (¬ Elem x xs))
Disjoint-cons x seen [] = ground arith
Disjoint-cons x seen (y ∷ ys) = ground (arith, eq_iff x y, Disjoint-cons x seen ys)

pub Disjoint-nil : (xs : List String) → Disjoint [] xs
Disjoint-nil [] = tt
Disjoint-nil (x ∷ xs) = (refl, Disjoint-nil xs)
