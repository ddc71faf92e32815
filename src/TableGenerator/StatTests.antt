-- ===== src/TableGenerator/StatTests.antt =====
-- Runs of StatValue.from_list and _get_stats_of_number_column of benchexec/tablegenerator/statistics.py
-- on small inputs, and the theorems at such inputs.
use mathlib.Core.List.{Permᴰ, cons≢nil}
use benchexec.Prelude.{
  ℕ, ◌≡◌, ◌↔◌, refl, true, false, none, some, List, [], ◌∷◌, Option, codes, arith,
}
use benchexec.Prelude.Int.{pos, negsuc}
use benchexec.Prelude.Order.{All-permuted}
use benchexec.Prelude.Outcome.{returned, raised}
use benchexec.Result.{correct, wrong}
use benchexec.TableGenerator.StatValue.{
  Decimal, minus_inf, inf, finite, Figure, ratio, StatValue, invalid_operation, given_values,
  is_minus_inf, from_list,
}
use benchexec.TableGenerator.StatOrder.{from_list-permuted}
use benchexec.TableGenerator.StatInfinite.{halves}
use benchexec.TableGenerator.StatError.{from_list_raised_iff}
use benchexec.TableGenerator.StatSummary.{IsSummary, from_list-IsSummary}
use benchexec.TableGenerator.NumberColumn.{ColumnValue, get_stats_of_number_column}
use benchexec.TableGenerator.NumberStats.{stats_of_runs, get_stats_of_number_column_lem}

abbrev some_values : List (Option Decimal)
some_values =
    some (finite (pos 3))
    ∷ some (finite (pos 1))
    ∷ none
    ∷ some (finite (pos 2))
    ∷ some (finite (pos 10))
    ∷ []

abbrev both_infinite : List (Option Decimal)
both_infinite = some inf ∷ none ∷ some minus_inf ∷ []

test_from_list :
    (from_list some_values
      ≡ returned (
          some (record {
            sum = finite (pos 16);
            min = finite (pos 1);
            max = finite (pos 10);
            avg = ratio (pos 16) 4;
            median = ratio (pos 5) 2;
            stdev_squared = ratio (pos 800) 64;
          })))
    × (from_list (some (finite (negsuc 0)) ∷ some inf ∷ [])
        ≡ returned (
            some (record {
              sum = inf;
              min = finite (negsuc 0);
              max = inf;
              avg = Figure.inf;
              median = Figure.inf;
              stdev_squared = Figure.inf;
            })))
    × (from_list both_infinite ≡ raised invalid_operation)
    × (from_list (none ∷ []) ≡ returned none)
unfolding from_list
test_from_list = (refl, refl, refl, refl)

from_list-permuted_example : from_list (some inf ∷ none ∷ []) ≡ from_list (none ∷ some inf ∷ [])
from_list-permuted_example =
    from_list-permuted (some inf ∷ none ∷ []) (none ∷ some inf ∷ []) (Permᴰ.swap refl refl)

from_list_raised_iff_example :
    (from_list both_infinite ≡ raised invalid_operation)
    ↔ ((n : ℕ) × Permᴰ (given_values both_infinite) (halves n))
from_list_raised_iff_example = from_list_raised_iff both_infinite

some_values-unbalanced : (n : ℕ) → ¬ (Permᴰ (given_values some_values) (halves n))
some_values-unbalanced n p =
    let above =
      All-permuted (λ v. is_minus_inf v ≡ false) (given_values some_values) (halves n) p
        (refl, (refl, (refl, (refl, tt)))) in
    absurd (ground arith)

from_list-IsSummary_example :
    (s : StatValue) × (from_list some_values ≡ returned (some s))
    × IsSummary (given_values some_values) s
from_list-IsSummary_example =
    from_list-IsSummary some_values refl (λ e. absurd (cons≢nil e)) some_values-unbalanced

abbrev some_column : List ColumnValue
some_column =
    record { value = some (finite (pos 3)); category = correct; status = some (codes "true") }
    ∷ record { value = some inf; category = wrong; status = some (codes "false(p)") }
    ∷ record { value = some (finite (pos 5)); category = correct; status = some (codes "false(p)") }
    ∷ record { value = some (finite (pos 7)); category = correct; status = none }
    ∷ []

test_number_column :
    (get_stats_of_number_column some_column true ≡ stats_of_runs some_column true)
    × (get_stats_of_number_column [] false ≡ stats_of_runs [] false)
unfolding get_stats_of_number_column
test_number_column = (refl, refl)

get_stats_of_number_column_lem_example :
    get_stats_of_number_column some_column false ≡ stats_of_runs some_column false
get_stats_of_number_column_lem_example = get_stats_of_number_column_lem some_column false
