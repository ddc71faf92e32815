-- ===== src/TableGenerator/NumberColumn.antt =====
-- _get_stats_of_number_column of benchexec/tablegenerator/statistics.py, for the values as to_decimal
-- reads them. Both of its lists come from the same runs, so they are one list here.
use benchexec.Prelude.{Bool, true, false, Option, none, some, List, [], ◌∷◌, ◌++◌, ℕ, Text, map}
use benchexec.Prelude.Dict.{nat_eq, get, assign}
use benchexec.Prelude.Outcome.{Outcome, returned, ◌>>=◌}
use benchexec.Result.{
  Category, correct, correct_unconfirmed, wrong, class_true, class_false, get_result_classification,
}
use benchexec.TableGenerator.Statistics.{pair_key}
use benchexec.TableGenerator.StatValue.{Decimal, StatValue, InvalidOperation, from_list}

pub record ColumnValue : Type 0 where
  pub value : Option Decimal
  pub category : Category
  pub status : Option Text

abbrev pub Groups : Type 0
Groups = List (ℕ × List (Option Decimal))

abbrev pub or_empty : Option (List (Option Decimal)) → List (Option Decimal)
or_empty none = []
or_empty (some values) = values

-- valuesPerCategory[key]
abbrev pub values_at : ℕ → Groups → List (Option Decimal)
values_at key groups = or_empty (get key groups)

abbrev pub group_value : ColumnValue → Option Text → Groups → Groups
group_value r none groups = groups
group_value r (some status) groups =
    let key = pair_key r.category (get_result_classification (some status)) in
    assign key (values_at key groups ++ r.value ∷ []) groups

abbrev pub group_values : Groups → List ColumnValue → Groups
group_values groups [] = groups
group_values groups (r ∷ runs) = group_values (group_value r r.status groups) runs

-- itertools.chain.from_iterable(valuesPerCategory[key] for key in keys)
abbrev pub chain_values : Groups → List ℕ → List (Option Decimal)
chain_values groups [] = []
chain_values groups (key ∷ others) = values_at key groups ++ chain_values groups others

abbrev pub create_stat_value_for : Groups → List ℕ → Outcome InvalidOperation (Option StatValue)
create_stat_value_for groups others = from_list (chain_values groups others)

-- The statistics of the runs of one category: of all its answers, of true, and of false.
pub record AnswerStatistics : Type 0 where
  pub answered : Option StatValue
  pub answered_true : Option StatValue
  pub answered_false : Option StatValue

abbrev pub category_stats : Groups → Category → Outcome InvalidOperation AnswerStatistics
category_stats groups category = do
  both ←
      create_stat_value_for groups
        (pair_key category class_true ∷ pair_key category class_false ∷ [])
  only_true ← create_stat_value_for groups (pair_key category class_true ∷ [])
  only_false ← create_stat_value_for groups (pair_key category class_false ∷ [])
  returned (record { answered = both; answered_true = only_true; answered_false = only_false })

-- An attribute that is not set is None.
abbrev pub wrong_stats : Bool → Groups → Outcome InvalidOperation AnswerStatistics
wrong_stats true groups =
    returned (record { answered = none; answered_true = none; answered_false = none })
wrong_stats false groups = category_stats groups wrong

pub record NumberStatistics : Type 0 where
  pub total_value : Option StatValue
  pub of_correct : AnswerStatistics
  pub of_unconfirmed : AnswerStatistics
  pub of_wrong : AnswerStatistics

abbrev pub number_stats :
    List ColumnValue → Groups → Bool → Outcome InvalidOperation NumberStatistics
number_stats runs groups correct_only = do
  total ← from_list (map (λ (r : ColumnValue). r.value) runs)
  right ← category_stats groups correct
  unconfirmed ← category_stats groups correct_unconfirmed
  others ← wrong_stats correct_only groups
  returned (record {
    total_value = total;
    of_correct = right;
    of_unconfirmed = unconfirmed;
    of_wrong = others;
  })

unfoldable pub get_stats_of_number_column :
    List ColumnValue → Bool → Outcome InvalidOperation NumberStatistics
unfolding get assign get_result_classification from_list
get_stats_of_number_column runs correct_only = number_stats runs (group_values [] runs) correct_only
