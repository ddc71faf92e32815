-- ===== src/TableGenerator/StatValue.antt =====
-- StatValue.from_list and _get_stats_of_number_column of benchexec/tablegenerator/statistics.py. A
-- finite Decimal is an integer, in a unit that is small enough for all values; an average or a median
-- is a fraction, and the square of the standard deviation is: what Decimal rounds off is not modelled.
use benchexec.Prelude.{
  ℕ, zero, suc, ◌-◌, ◌*◌, ◌/◌, ◌%◌, Bool, true, false, not, ◌&&◌, ◌||◌, Option, none, some, List,
  [], ◌∷◌, length, if◌then◌else◌, ◌==◌,
}
use benchexec.Prelude.Int.{ℤ, pos, ◌+ℤ◌, ◌-ℤ◌, ◌*ℤ◌, ltb_ℤ}
use benchexec.Prelude.Order.{sort_by}
use benchexec.Prelude.Outcome.{Outcome, returned, raised, ◌>>=◌}

pub data Decimal : Type 0 where
  nan minus_inf inf : Decimal
  finite : ℤ → Decimal

-- numerator / denominator, or a value that is not finite
pub data Figure : Type 0 where
  nan minus_inf inf : Figure
  ratio : ℤ → ℕ → Figure

pub record StatValue : Type 0 where
  pub sum : Decimal
  pub min : Decimal
  pub max : Decimal
  pub avg : Figure
  pub median : Figure
  pub stdev_squared : Figure

-- -inf + inf
pub data InvalidOperation : Type 0 where
  invalid_operation : InvalidOperation

-- a <= b; a NaN, which the code never compares, comes first here
abbrev pub le : Decimal → Decimal → Bool
le Decimal.nan b = true
le a Decimal.nan = false
le minus_inf b = true
le a inf = true
le (finite a) (finite b) = not (ltb_ℤ b a)
le inf b = false
le (finite a) b = false

abbrev pub is_nan : Option Decimal → Bool
is_nan (some Decimal.nan) = true
is_nan v = false

abbrev pub any_nan : List (Option Decimal) → Bool
any_nan [] = false
any_nan (v ∷ values) = is_nan v || any_nan values

-- v for v in values if v is not None
abbrev pub given_values : List (Option Decimal) → List Decimal
given_values [] = []
given_values (none ∷ values) = given_values values
given_values (some v ∷ values) = v ∷ given_values values

-- values[-1], of v and what follows it
abbrev pub last_value : Decimal → List Decimal → Decimal
last_value v [] = v
last_value v (w ∷ values) = last_value w values

abbrev pub finite_or_zero : Decimal → ℤ
finite_or_zero (finite z) = z
finite_or_zero _ = pos 0

-- sum(values), of finite values
abbrev pub sum_of : List Decimal → ℤ
sum_of [] = pos 0
sum_of (v ∷ values) = finite_or_zero v +ℤ sum_of values

-- The sum of the squares of values_len * v - values_sum.
abbrev pub squares_of : ℤ → ℤ → List Decimal → ℤ
squares_of n total [] = pos 0
squares_of n total (v ∷ values) =
    let diff = n *ℤ finite_or_zero v -ℤ total in diff *ℤ diff +ℤ squares_of n total values

abbrev pub figure_of : Decimal → Figure
figure_of Decimal.nan = Figure.nan
figure_of Decimal.minus_inf = Figure.minus_inf
figure_of Decimal.inf = Figure.inf
figure_of (finite z) = ratio z 1

-- (a + b) / 2
abbrev pub half_sum : Decimal → Decimal → Outcome InvalidOperation Figure
half_sum minus_inf inf = raised invalid_operation
half_sum inf minus_inf = raised invalid_operation
half_sum Decimal.nan b = returned Figure.nan
half_sum a Decimal.nan = returned Figure.nan
half_sum inf b = returned Figure.inf
half_sum a inf = returned Figure.inf
half_sum minus_inf b = returned Figure.minus_inf
half_sum a minus_inf = returned Figure.minus_inf
half_sum (finite a) (finite b) = returned (ratio (a +ℤ b) 2)

abbrev pub nth_value : List Decimal → ℕ → Decimal
nth_value [] i = Decimal.nan
nth_value (v ∷ values) zero = v
nth_value (v ∷ values) (suc i) = nth_value values i

-- The median of sorted values; an index is always in range.
unfoldable pub median_of : List Decimal → Outcome InvalidOperation Figure
median_of values =
    let half = length values / 2 in
    if length values % 2 == 1
    then returned (figure_of (nth_value values half))
    else half_sum (nth_value values (half - 1)) (nth_value values half)

pub record Moments : Type 0 where
  pub total : Decimal
  pub mean : Figure
  pub variance : Figure

abbrev pub is_inf : Decimal → Bool
is_inf inf = true
is_inf _ = false

abbrev pub is_minus_inf : Decimal → Bool
is_minus_inf minus_inf = true
is_minus_inf _ = false

-- values_sum, mean and the square of stdev
abbrev pub moments : Decimal → Decimal → List Decimal → Moments
moments min_value max_value values =
    let n = length values in
    if is_minus_inf min_value && is_inf max_value
    then record { total = Decimal.nan; mean = Figure.nan; variance = Figure.nan }
    else if is_inf max_value
    then record { total = Decimal.inf; mean = Figure.inf; variance = Figure.inf }
    else if is_minus_inf min_value
    then record { total = Decimal.minus_inf; mean = Figure.minus_inf; variance = Figure.inf }
    else record {
      total = finite (sum_of values);
      mean = ratio (sum_of values) n;
      variance = ratio (squares_of (pos n) (sum_of values) values) (n * n * n);
    }

-- StatValue(...), for the sorted values v ∷ values
abbrev pub stat_with : Decimal → List Decimal → Figure → StatValue
stat_with v values median =
    let m = moments v (last_value v values) (v ∷ values) in
    record {
      sum = m.total;
      min = v;
      max = last_value v values;
      avg = m.mean;
      median = median;
      stdev_squared = m.variance;
    }

abbrev pub stat_of : Decimal → List Decimal → Outcome InvalidOperation StatValue
stat_of v values = do median ← median_of (v ∷ values); returned (stat_with v values median)

abbrev pub nan_value : StatValue
nan_value = record {
  sum = Decimal.nan;
  min = Decimal.nan;
  max = Decimal.nan;
  avg = Figure.nan;
  median = Figure.nan;
  stdev_squared = Figure.nan;
}

abbrev pub of_sorted : List Decimal → Outcome InvalidOperation (Option StatValue)
of_sorted [] = returned none
of_sorted (v ∷ values) = do stat ← stat_of v values; returned (some stat)

unfoldable pub from_list : List (Option Decimal) → Outcome InvalidOperation (Option StatValue)
unfolding median_of sort_by ◌+ℤ◌ ◌-ℤ◌ ◌*ℤ◌
from_list values =
    if any_nan values
    then returned (some nan_value)
    else of_sorted (sort_by le (given_values values))
