-- ===== src/Prelude/Sorting.antt =====
-- sorted of Python on lists of numbers, and the number of the members of a set.
use Prim.Native.Nat.{ℕ, suc, ◌≤◌}
use mathlib.Core.Path.{◌≡◌, refl, ap, ◌∙◌}
use mathlib.Core.Bool.{◌||◌}
use mathlib.Core.List.{List, [], ◌∷◌}
use native.Mathlib.Omega.{arith}
use benchexec.Prelude.Tests.{leb, ◌==◌, if◌then◌else◌}
use benchexec.Prelude.Lists.{length}
use benchexec.Prelude.Dict.{member, nat_eq, Distinct}

insert_sorted : ℕ → List ℕ → List ℕ
insert_sorted a [] = a ∷ []
insert_sorted a (x ∷ xs) = if leb a x then a ∷ x ∷ xs else x ∷ insert_sorted a xs

-- sorted(xs)
unfoldable pub sorted : List ℕ → List ℕ
unfolding insert_sorted
sorted [] = []
sorted (x ∷ xs) = insert_sorted x (sorted xs)

-- len(set(xs))
unfoldable pub distinct_count : List ℕ → ℕ
unfolding member
distinct_count [] = 0
distinct_count (x ∷ xs) = let rest = distinct_count xs in if member x xs then rest else suc rest

member-insert_sorted :
    (a b : ℕ) (xs : List ℕ) → member a (insert_sorted b xs) ≡ (a == b || member a xs)
unfolding insert_sorted member
member-insert_sorted a b [] = refl
member-insert_sorted a b (x ∷ xs) = ground (arith, member-insert_sorted a b xs)

-- Sorting keeps the members.
pub member-sorted : (a : ℕ) (xs : List ℕ) → member a (sorted xs) ≡ member a xs
unfolding sorted member
member-sorted a [] = refl
member-sorted a (x ∷ xs) = ground (arith, member-insert_sorted a x (sorted xs), member-sorted a xs)

length-insert_sorted : (a : ℕ) (xs : List ℕ) → length (insert_sorted a xs) ≡ suc (length xs)
unfolding insert_sorted
length-insert_sorted a [] = refl
length-insert_sorted a (x ∷ xs) = ground (arith, length-insert_sorted a xs)

pub length-sorted : (xs : List ℕ) → length (sorted xs) ≡ length xs
unfolding sorted
length-sorted [] = refl
length-sorted (x ∷ xs) = length-insert_sorted x (sorted xs) ∙ ap suc (length-sorted xs)

-- Each number is at most the next one.
abbrev pub IsSorted : List ℕ → Type 0
IsSorted [] = Unit
IsSorted (x ∷ []) = Unit
IsSorted (x ∷ y ∷ xs) = (x ≤ y) × IsSorted (y ∷ xs)

insert_sorted-IsSorted : (a : ℕ) (xs : List ℕ) → IsSorted xs → IsSorted (insert_sorted a xs)
unfolding insert_sorted
insert_sorted-IsSorted a [] h = tt
insert_sorted-IsSorted a (x ∷ []) h = ground arith
insert_sorted-IsSorted a (x ∷ y ∷ xs) h = ground (arith, insert_sorted-IsSorted a (y ∷ xs) h.1)

pub sorted-IsSorted : (xs : List ℕ) → IsSorted (sorted xs)
unfolding sorted
sorted-IsSorted [] = tt
sorted-IsSorted (x ∷ xs) = insert_sorted-IsSorted x (sorted xs) (sorted-IsSorted xs)

distinct_count-le-length : (xs : List ℕ) → distinct_count xs ≤ length xs
unfolding distinct_count
distinct_count-le-length [] = omega arith
distinct_count-le-length (x ∷ xs) = ground (arith, distinct_count-le-length xs)

pub Distinct-of_count : (xs : List ℕ) → distinct_count xs ≡ length xs → Distinct xs
unfolding distinct_count
Distinct-of_count [] h = tt
Distinct-of_count (x ∷ xs) h = (
  ground (arith, distinct_count-le-length xs),
  Distinct-of_count xs (ground (arith, distinct_count-le-length xs)),
)
