-- ===== src/TableGenerator/StatError.antt =====
-- When StatValue.from_list of benchexec/tablegenerator/statistics.py has no median.
use mathlib.Core.List.{Permᴰ}
use mathlib.Core.List.Permᴰ
use benchexec.Prelude.{
  ℕ, zero, suc, ◌≡◌, refl, ◌∙◌, true, false, Option, none, some, List, [], ◌∷◌, ◌++◌, arith,
  replicate, length, All, inl, inr, subst, ◌-◌, ◌/◌, ◌%◌, ◌==◌, Bool-cases, ◌↔◌, All-append,
}
use benchexec.Prelude.Order.{
  IsSortedBy, sort_by, sort_by-IsSortedBy, sort_by-sorted, sort_by-permuted, Perm-sort_by,
  All-permuted,
}
use benchexec.Prelude.Outcome.{raised, >>=-eq-raised}
use benchexec.TableGenerator.StatValue.{
  Decimal, minus_inf, inf, le, any_nan, given_values, median_of, invalid_operation, of_sorted,
  from_list, stat_of, stat_with,
}
use benchexec.TableGenerator.StatOrder.{le-IsTotalOrder}
use benchexec.TableGenerator.StatInfinite.{
  IsNumber, halves, around, odd_half, length-around, nth-around_low, nth-around_high, middle_pair,
}

median_of-raised :
    (l : List Decimal)
    → All IsNumber l
    → IsSortedBy le l
    → median_of l ≡ raised invalid_operation
    → (n : ℕ) × (l ≡ halves n)
unfolding median_of
median_of-raised l all s r = elim (Bool-cases (length l % 2 == 1)) [
  | inl odd ↦ absurd (ground arith)
  | inr even ↦ middle_pair (length l / 2) l all s (odd_half (length l) even) (rw even at r)
]

median_of-halves : (n : ℕ) → median_of (halves n) ≡ raised invalid_operation
unfolding median_of around
median_of-halves n =
    let counted = length-around n n in
    let half : length (halves n) / 2 ≡ suc n = omega arith in
    let even : (length (halves n) % 2 == 1) ≡ false = ground arith in
    let before : suc n - 1 ≡ n = omega arith in
    rw (even, half, before, nth-around_low n n, nth-around_high n n) refl

of_sorted-raised :
    (l : List Decimal)
    → of_sorted l ≡ raised invalid_operation
    → median_of l ≡ raised invalid_operation
of_sorted-raised [] r = absurd (ground arith)
of_sorted-raised (v ∷ l) r =
    >>=-eq-raised (median_of (v ∷ l)) (stat_with v l) (>>=-eq-raised (stat_of v l) some r)

of_sorted-halves : (n : ℕ) → of_sorted (halves n) ≡ raised invalid_operation
of_sorted-halves n = rw (median_of-halves n) refl

All-replicate : (P : Decimal → Type 0) (v : Decimal) (n : ℕ) → P v → All P (replicate n v)
All-replicate P v zero p = tt
All-replicate P v (suc n) p = (p, All-replicate P v n p)

above_low : (i k : ℕ) → All (λ v. le minus_inf v ≡ true) (replicate i minus_inf ++ replicate k inf)
above_low i k =
    All-append (λ v. le minus_inf v ≡ true) (replicate i minus_inf) (replicate k inf)
      (All-replicate (λ v. le minus_inf v ≡ true) minus_inf i refl)
      (All-replicate (λ v. le minus_inf v ≡ true) inf k refl)

IsSortedBy-around : (i k : ℕ) → IsSortedBy le (replicate i minus_inf ++ replicate k inf)
IsSortedBy-around zero zero = tt
IsSortedBy-around zero (suc k) =
    (All-replicate (λ v. le inf v ≡ true) inf k refl, IsSortedBy-around zero k)
IsSortedBy-around (suc i) k = (above_low i k, IsSortedBy-around i k)

pub All-IsNumber-given_values :
    (values : List (Option Decimal)) → any_nan values ≡ false → All IsNumber (given_values values)
All-IsNumber-given_values [] h = tt
All-IsNumber-given_values (none ∷ values) h = All-IsNumber-given_values values h
All-IsNumber-given_values (some v ∷ values) h =
    (ground arith, All-IsNumber-given_values values (ground arith))

any_nan-IsNumber :
    (values : List (Option Decimal)) → All IsNumber (given_values values) → any_nan values ≡ false
any_nan-IsNumber [] h = refl
any_nan-IsNumber (none ∷ values) h = any_nan-IsNumber values h
any_nan-IsNumber (some v ∷ values) h = rw h.0 (any_nan-IsNumber values h.1)

sorted_halves : (l : List Decimal) (n : ℕ) → Permᴰ l (halves n) → sort_by le l ≡ halves n
sorted_halves l n p =
    sort_by-permuted le le-IsTotalOrder l (halves n) p
    ∙ sort_by-sorted le (halves n) (IsSortedBy-around (suc n) (suc n))

pub from_list-raised :
    (values : List (Option Decimal))
    → from_list values ≡ raised invalid_operation
    → (n : ℕ) × Permᴰ (given_values values) (halves n)
unfolding from_list
from_list-raised values r = elim (Bool-cases (any_nan values)) [
  | inl some_nan ↦ absurd (ground arith)
  | inr fine ↦
      (let l = sort_by le (given_values values) in
        let p = Perm-sort_by le (given_values values) in
        let numbers =
          All-permuted IsNumber (given_values values) l p (All-IsNumber-given_values values fine) in
        let found =
          median_of-raised l numbers (sort_by-IsSortedBy le le-IsTotalOrder (given_values values))
            (of_sorted-raised l (rw fine at r)) in
        (found.0, subst (λ x. Permᴰ (given_values values) x) found.1 p))
]

from_list-halves :
    (values : List (Option Decimal)) (n : ℕ)
    → Permᴰ (given_values values) (halves n)
    → from_list values ≡ raised invalid_operation
unfolding from_list
from_list-halves values n p =
    let numbers =
      All-append IsNumber (replicate (suc n) minus_inf) (replicate (suc n) inf)
        (All-replicate IsNumber minus_inf (suc n) refl) (All-replicate IsNumber inf (suc n) refl) in
    let fine =
      any_nan-IsNumber values
        (All-permuted IsNumber (halves n) (given_values values) (Permᴰ.symm p) numbers) in
    rw (fine, sorted_halves (given_values values) n p) (of_sorted-halves n)

-- InvalidOperation is raised exactly for values that are, in some order, as many times -inf as +inf, at
-- least once, and nothing else but None.
pub from_list_raised_iff :
    (values : List (Option Decimal))
    → (from_list values ≡ raised invalid_operation)
      ↔ ((n : ℕ) × Permᴰ (given_values values) (halves n))
from_list_raised_iff values = (from_list-raised values, λ h. from_list-halves values h.0 h.1)
