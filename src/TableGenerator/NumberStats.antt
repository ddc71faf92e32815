-- ===== src/TableGenerator/NumberStats.antt =====
-- _get_stats_of_number_column of benchexec/tablegenerator/statistics.py against statistics of the values
-- of the runs that are selected directly.
use mathlib.Core.List.{Permᴰ}
use mathlib.Core.List.Permᴰ
use benchexec.Prelude.{
  Bool, true, false, ◌&&◌, ◌||◌, Option, none, some, List, [], ◌∷◌, ◌++◌, ℕ, Text, map,
  if◌then◌else◌, ◌==◌, ◌≡◌, refl, ◌∙◌, Bool-cases, inl, inr, arith, append-nil, ◌+◌, ◌*◌,
}
use benchexec.Prelude.Outcome.{Outcome, returned, ◌>>=◌}
use benchexec.Prelude.Dict.{get}
use benchexec.Result.{
  Category, correct, correct_unconfirmed, wrong, Class, class_true, class_false, class_other,
  get_result_classification,
}
use benchexec.TableGenerator.Statistics.{pair_key, category_number, class_number}
use benchexec.TableGenerator.Counts.{is_answer}
use benchexec.TableGenerator.StatValue.{InvalidOperation, from_list}
use benchexec.TableGenerator.StatOrder.{from_list-permuted}
use benchexec.TableGenerator.NumberColumn.{
  ColumnValue, group_values, values_at, AnswerStatistics, NumberStatistics, category_stats,
  get_stats_of_number_column,
}
use benchexec.TableGenerator.NumberSelected.{
  values_where, is_in, is_true, is_false, has_status, is_grouped, values_at-group_values,
}

true_key :
    (a b : ℕ) (class : Class)
    → (a * 3 + 0 == b * 3 + class_number class) ≡ (a == b && is_true class)
true_key a b class_true = ground arith
true_key a b class_false = ground arith
true_key a b class_other = ground arith

false_key :
    (a b : ℕ) (class : Class)
    → (a * 3 + 1 == b * 3 + class_number class) ≡ (a == b && is_false class)
false_key a b class_true = ground arith
false_key a b class_false = ground arith
false_key a b class_other = ground arith

-- A run without a status has no answer.
with_status :
    (a b : Bool) (p : Class → Bool) (status : Option Text)
    → p class_other ≡ false
    → b ≡ (a && p (get_result_classification status))
    → (has_status status && b) ≡ (a && p (get_result_classification status))
unfolding get_result_classification
with_status a b p none h e = ground arith
with_status a b p (some status) h e = e

grouped_true :
    (c : Category) (r : ColumnValue) → is_grouped (pair_key c class_true) r ≡ is_in c is_true r
grouped_true c r =
    let class = get_result_classification r.status in
    with_status (category_number c == category_number r.category)
      (pair_key c class_true == pair_key r.category class) is_true r.status refl
      (true_key (category_number c) (category_number r.category) class)

grouped_false :
    (c : Category) (r : ColumnValue) → is_grouped (pair_key c class_false) r ≡ is_in c is_false r
grouped_false c r =
    let class = get_result_classification r.status in
    with_status (category_number c == category_number r.category)
      (pair_key c class_false == pair_key r.category class) is_false r.status refl
      (false_key (category_number c) (category_number r.category) class)

values_where-same :
    (p q : ColumnValue → Bool) (runs : List ColumnValue)
    → ((r : ColumnValue) → p r ≡ q r)
    → values_where p runs ≡ values_where q runs
values_where-same p q [] h = refl
values_where-same p q (r ∷ runs) h = rw (h r, values_where-same p q runs h) refl

values_where-either :
    (p q o : ColumnValue → Bool) (runs : List ColumnValue)
    → ((r : ColumnValue) → (p r && q r) ≡ false)
    → ((r : ColumnValue) → o r ≡ (p r || q r))
    → Permᴰ (values_where p runs ++ values_where q runs) (values_where o runs)
values_where-either p q o [] h e = Permᴰ.nil
values_where-either p q o (r ∷ runs) h e =
    let rest = values_where-either p q o runs h e in
    elim (Bool-cases (p r)) [
      | inl first ↦
          (let other : q r ≡ false = (let d = h r in ground arith) in
            let either : o r ≡ true = (let d = e r in ground arith) in
            rw (first, other, either) (Permᴰ.cons refl rest))
      | inr first ↦ elim (Bool-cases (q r)) [
        | inl second ↦
            (let either : o r ≡ true = (let d = e r in ground arith) in
              rw (first, second, either)
                (Permᴰ.trans (Permᴰ.middle r.value (values_where p runs) (values_where q runs))
                  (Permᴰ.cons refl rest)))
        | inr second ↦
            (let either : o r ≡ false = (let d = e r in ground arith) in
              rw (first, second, either) rest)
      ]
    ]

disjoint_answers :
    (c : Category) (r : ColumnValue) → (is_in c is_true r && is_in c is_false r) ≡ false
disjoint_answers c r =
    by_class (category_number c == category_number r.category) (get_result_classification r.status)
  where
    by_class : (a : Bool) (class : Class) → ((a && is_true class) && (a && is_false class)) ≡ false
    by_class a class = ground arith

either_answer :
    (c : Category) (r : ColumnValue)
    → is_in c is_answer r ≡ (is_in c is_true r || is_in c is_false r)
either_answer c r =
    by_class (category_number c == category_number r.category) (get_result_classification r.status)
  where
    by_class :
        (a : Bool) (class : Class)
        → (a && is_answer class) ≡ ((a && is_true class) || (a && is_false class))
    by_class a class = ground arith

-- The statistics of the values of the selected runs.
abbrev pub selected_stats : List ColumnValue → Category → Outcome InvalidOperation AnswerStatistics
selected_stats runs category = do
  both ← from_list (values_where (is_in category is_answer) runs)
  only_true ← from_list (values_where (is_in category is_true) runs)
  only_false ← from_list (values_where (is_in category is_false) runs)
  returned (record { answered = both; answered_true = only_true; answered_false = only_false })

abbrev pub no_stats : AnswerStatistics
no_stats = record { answered = none; answered_true = none; answered_false = none }

abbrev pub stats_of_runs : List ColumnValue → Bool → Outcome InvalidOperation NumberStatistics
stats_of_runs runs correct_only = do
  total ← from_list (map (λ (r : ColumnValue). r.value) runs)
  right ← selected_stats runs correct
  unconfirmed ← selected_stats runs correct_unconfirmed
  others ← if correct_only then returned no_stats else selected_stats runs wrong
  returned (record {
    total_value = total;
    of_correct = right;
    of_unconfirmed = unconfirmed;
    of_wrong = others;
  })

trues :
    (c : Category) (runs : List ColumnValue)
    → values_at (pair_key c class_true) (group_values [] runs) ≡ values_where (is_in c is_true) runs
unfolding get
trues c runs =
    values_at-group_values (pair_key c class_true) [] runs
    ∙ values_where-same (is_grouped (pair_key c class_true)) (is_in c is_true) runs (grouped_true c)

falses :
    (c : Category) (runs : List ColumnValue)
    → values_at (pair_key c class_false) (group_values [] runs)
      ≡ values_where (is_in c is_false) runs
unfolding get
falses c runs =
    values_at-group_values (pair_key c class_false) [] runs
    ∙ values_where-same (is_grouped (pair_key c class_false)) (is_in c is_false) runs
        (grouped_false c)

answers :
    (c : Category) (runs : List ColumnValue)
    → from_list (values_where (is_in c is_true) runs ++ values_where (is_in c is_false) runs)
      ≡ from_list (values_where (is_in c is_answer) runs)
answers c runs =
    from_list-permuted (values_where (is_in c is_true) runs ++ values_where (is_in c is_false) runs)
      (values_where (is_in c is_answer) runs)
      (values_where-either (is_in c is_true) (is_in c is_false) (is_in c is_answer) runs
        (disjoint_answers c) (either_answer c))

category_stats-group_values :
    (c : Category) (runs : List ColumnValue)
    → category_stats (group_values [] runs) c ≡ selected_stats runs c
category_stats-group_values c runs =
    rw
      (
        trues c runs,
        falses c runs,
        append-nil (values_where (is_in c is_true) runs),
        append-nil (values_where (is_in c is_false) runs),
        answers c runs,
      )
      refl

-- The statistics of a number column are those of all its values, and of the values of the runs of each
-- category whose status says true or false, true, and false; of wrong results only if they are wanted.
pub get_stats_of_number_column_lem :
    (runs : List ColumnValue) (correct_only : Bool)
    → get_stats_of_number_column runs correct_only ≡ stats_of_runs runs correct_only
unfolding get_stats_of_number_column
get_stats_of_number_column_lem runs true =
    rw
      (
        category_stats-group_values correct runs,
        category_stats-group_values correct_unconfirmed runs,
      )
      refl
get_stats_of_number_column_lem runs false =
    rw
      (
        category_stats-group_values correct runs,
        category_stats-group_values correct_unconfirmed runs,
        category_stats-group_values wrong runs,
      )
      refl
