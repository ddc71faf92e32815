-- ===== src/TableGenerator/Statistics.antt =====
-- _get_stats_of_status_column of benchexec/tablegenerator/statistics.py. A StatValue that only has a
-- sum is this sum; a Counter is a dict, in which a missing key counts zero.
use benchexec.Prelude.{ℕ, ◌+◌, ◌*◌, Option, none, some, List, [], ◌∷◌, Text, if◌then◌else◌}
use benchexec.Prelude.Int.{ℤ, pos, ◌+ℤ◌}
use benchexec.Prelude.Dict.{nat_eq, get, assign}
use benchexec.Result.{
  Category, correct, correct_unconfirmed, wrong, unknown, missing, error, Class, class_true,
  class_false, class_other, get_result_classification, truthy,
}

-- What the statistics read of a run result: its value in the status column is the status.
pub record RunResult : Type 0 where
  pub category : Category
  pub score : Option ℤ
  pub status : Option Text

abbrev pub category_number : Category → ℕ
category_number correct = 0
category_number correct_unconfirmed = 1
category_number wrong = 2
category_number unknown = 3
category_number missing = 4
category_number error = 5

abbrev pub class_number : Class → ℕ
class_number class_true = 0
class_number class_false = 1
class_number class_other = 2

-- The pair of a category and a class, as a number.
abbrev pub pair_key : Category → Class → ℕ
pair_key category class = category_number category * 3 + class_number class

abbrev pub run_key : RunResult → ℕ
run_key r = pair_key r.category (get_result_classification r.status)

abbrev pub or_zero : Option ℕ → ℕ
or_zero none = 0
or_zero (some n) = n

-- counts[key]
abbrev pub counted_at : ℕ → List (ℕ × ℕ) → ℕ
counted_at key counts = or_zero (get key counts)

-- collections.Counter(...)
abbrev pub count_runs : List (ℕ × ℕ) → List RunResult → List (ℕ × ℕ)
count_runs counts [] = counts
count_runs counts (r ∷ runs) =
    count_runs (assign (run_key r) (counted_at (run_key r) counts + 1) counts) runs

abbrev pub score_or_zero : Option ℤ → ℤ
score_or_zero none = pos 0
score_or_zero (some s) = s

abbrev pub sum_scores : List RunResult → ℤ
sum_scores [] = pos 0
sum_scores (r ∷ runs) = score_or_zero r.score +ℤ sum_scores runs

-- sum(1 for run_result in run_results if run_result.values[col])
abbrev pub count_values : List RunResult → ℕ
count_values [] = 0
count_values (r ∷ runs) = (if truthy r.status then 1 else 0) + count_values runs

-- ColumnStatistics, with the fields that are set here.
pub record ColumnStatistics : Type 0 where
  pub score : ℤ
  pub total : ℕ
  pub all_correct : ℕ
  pub correct_true : ℕ
  pub correct_false : ℕ
  pub all_unconfirmed : ℕ
  pub correct_unconfirmed_true : ℕ
  pub correct_unconfirmed_false : ℕ
  pub all_wrong : ℕ
  pub wrong_true : ℕ
  pub wrong_false : ℕ

abbrev pub statistics_of : ℤ → ℕ → List (ℕ × ℕ) → ColumnStatistics
statistics_of score total counts = record {
  score = score;
  total = total;
  all_correct =
      counted_at (pair_key correct class_true) counts
      + counted_at (pair_key correct class_false) counts;
  correct_true = counted_at (pair_key correct class_true) counts;
  correct_false = counted_at (pair_key correct class_false) counts;
  all_unconfirmed =
      counted_at (pair_key correct_unconfirmed class_true) counts
      + counted_at (pair_key correct_unconfirmed class_false) counts;
  correct_unconfirmed_true = counted_at (pair_key correct_unconfirmed class_true) counts;
  correct_unconfirmed_false = counted_at (pair_key correct_unconfirmed class_false) counts;
  all_wrong =
      counted_at (pair_key wrong class_true) counts
      + counted_at (pair_key wrong class_false) counts;
  wrong_true = counted_at (pair_key wrong class_true) counts;
  wrong_false = counted_at (pair_key wrong class_false) counts;
}

-- _get_stats_of_status_column
unfoldable pub get_stats_of_status_column : List RunResult → ColumnStatistics
unfolding get assign get_result_classification ◌+ℤ◌
get_stats_of_status_column runs =
    statistics_of (sum_scores runs) (count_values runs) (count_runs [] runs)
