-- ===== src/TableGenerator/StatOrder.antt =====
-- The order of the values of StatValue.from_list of benchexec/tablegenerator/statistics.py: it is total,
-- and the result does not depend on the order in which the values are given.
use mathlib.Core.List.{Permᴰ}
use mathlib.Core.List.Permᴰ
use benchexec.Prelude.{
  ◌≡◌, refl, ap, ◌∙◌, Bool, true, false, ◌||◌, Option, none, some, List, ◌∷◌, if◌then◌else◌, arith,
}
use benchexec.Prelude.Int.{eq_of_parts}
use benchexec.Prelude.Outcome.{returned}
use benchexec.Prelude.Order.{IsTotalOrder, sort_by-permuted}
use benchexec.TableGenerator.StatValue.{
  Decimal, minus_inf, inf, finite, le, is_nan, any_nan, given_values, of_sorted, nan_value,
  from_list,
}

le_total : (a b : Decimal) → le a b ≡ false → le b a ≡ true
le_total a b h = ground arith

le_antisym : (a b : Decimal) → le a b ≡ true → le b a ≡ true → a ≡ b
le_antisym Decimal.nan Decimal.nan h g = refl
le_antisym minus_inf minus_inf h g = refl
le_antisym inf inf h g = refl
le_antisym (finite a) (finite b) h g = ap finite (eq_of_parts a b (ground arith))
le_antisym a b h g = ground arith

le_trans : (a b c : Decimal) → le a b ≡ true → le b c ≡ true → le a c ≡ true
le_trans a b c h g = ground arith

pub le-IsTotalOrder : IsTotalOrder le
le-IsTotalOrder = record { total = le_total; antisym = le_antisym; transitive = le_trans }

swap_or : (a b c : Bool) → (a || (b || c)) ≡ (b || (a || c))
swap_or a b c = ground arith

any_nan-permuted : (xs ys : List (Option Decimal)) → Permᴰ xs ys → any_nan xs ≡ any_nan ys
any_nan-permuted xs ys Permᴰ.nil = refl
any_nan-permuted (x ∷ xs) (y ∷ ys) (Permᴰ.cons e p) = rw (e, any_nan-permuted xs ys p) refl
any_nan-permuted (a ∷ b ∷ xs) (c ∷ d ∷ ys) (Permᴰ.swap e f) =
    rw (e, f) (swap_or (is_nan d) (is_nan c) (any_nan xs))
any_nan-permuted xs zs (Permᴰ.trans {l₂ = ys} p q) =
    any_nan-permuted xs ys p ∙ any_nan-permuted ys zs q

swap_given :
    (a b : Option Decimal) (xs : List (Option Decimal))
    → Permᴰ (given_values (a ∷ b ∷ xs)) (given_values (b ∷ a ∷ xs))
swap_given none none xs = Permᴰ.refl (given_values xs)
swap_given none (some b) xs = Permᴰ.refl (b ∷ given_values xs)
swap_given (some a) none xs = Permᴰ.refl (a ∷ given_values xs)
swap_given (some a) (some b) xs = Permᴰ.swap refl refl

keep_given :
    (a : Option Decimal) (xs ys : List (Option Decimal))
    → Permᴰ (given_values xs) (given_values ys)
    → Permᴰ (given_values (a ∷ xs)) (given_values (a ∷ ys))
keep_given none xs ys p = p
keep_given (some a) xs ys p = Permᴰ.cons refl p

pub given_values-permuted :
    (xs ys : List (Option Decimal)) → Permᴰ xs ys → Permᴰ (given_values xs) (given_values ys)
given_values-permuted xs ys Permᴰ.nil = Permᴰ.nil
given_values-permuted (x ∷ xs) (y ∷ ys) (Permᴰ.cons e p) =
    rw e (keep_given y xs ys (given_values-permuted xs ys p))
given_values-permuted (a ∷ b ∷ xs) (c ∷ d ∷ ys) (Permᴰ.swap e f) = rw (e, f) (swap_given d c xs)
given_values-permuted xs zs (Permᴰ.trans {l₂ = ys} p q) =
    Permᴰ.trans (given_values-permuted xs ys p) (given_values-permuted ys zs q)

-- The statistics do not depend on the order in which the values are given.
pub from_list-permuted : (xs ys : List (Option Decimal)) → Permᴰ xs ys → from_list xs ≡ from_list ys
unfolding from_list
from_list-permuted xs ys p = rw (any_nan-permuted xs ys p) (
    ap (λ l. if any_nan ys then returned (some nan_value) else of_sorted l)
      (sort_by-permuted le le-IsTotalOrder (given_values xs) (given_values ys)
        (given_values-permuted xs ys p)))
