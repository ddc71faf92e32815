-- ===== src/OutputHandler.antt =====
-- Statistics of benchexec/outputhandler.py: the numbers that are printed after a benchmark. A key of
-- the dict, which is a category or a pair of a category and a class, is a number.
pub mod Totals
mod Scored
mod Tests
use benchexec.Prelude.{ℕ, ◌+◌, ◌*◌, ◌≡◌, Option, none, some, List, [], ◌∷◌, Text}
use benchexec.Prelude.Int.{ℤ, pos, ◌+ℤ◌, ◌-ℤ◌}
use benchexec.Prelude.Dict.{nat_eq, get, assign}
use benchexec.Prelude.Outcome.{Outcome, returned, ◌>>=◌}
use benchexec.Result.{
  Category, correct, correct_unconfirmed, wrong, unknown, missing, error, Class, class_true,
  class_false, class_other, get_result_classification, ExpectedResult, Property, Failure,
  expected_for, compute_score, max_score,
}

-- What add_result reads of a run.
pub record Run : Type 0 where
  pub category : Category
  pub status : Option Text
  pub properties : List Property
  pub expected_results : List (Text × ExpectedResult)

pub record Statistics : Type 0 where
  pub dic : List (ℕ × ℕ)
  pub counter : ℕ
  pub score : ℤ
  pub maximal_score : Option ℤ

-- Statistics.__init__
abbrev pub no_statistics : Statistics
no_statistics = record { dic = []; counter = 0; score = pos 0; maximal_score = none }

abbrev pub category_key : Category → ℕ
category_key correct = 0
category_key correct_unconfirmed = 1
category_key wrong = 2
category_key unknown = 3
category_key missing = 4
category_key error = 5

abbrev pub class_key : Class → ℕ
class_key class_true = 1
class_key class_false = 2
class_key class_other = 3

abbrev pub pair_key : Category → Class → ℕ
pair_key category class = category_key category + 6 * class_key class

abbrev pub or_zero : Option ℕ → ℕ
or_zero none = 0
or_zero (some n) = n

-- dic[key], of a defaultdict
abbrev pub count_of : ℕ → List (ℕ × ℕ) → ℕ
count_of key dic = or_zero (get key dic)

-- dic[key] += 1
abbrev pub increment : ℕ → List (ℕ × ℕ) → List (ℕ × ℕ)
increment key dic = assign key (count_of key dic + 1) dic

abbrev pub or_no_score : Option ℤ → ℤ
or_no_score none = pos 0
or_no_score (some s) = s

-- max_score + (self.max_score or 0)
abbrev pub add_max_score : Option ℤ → Option ℤ → Option ℤ
add_max_score none total = total
add_max_score (some m) total = some (m +ℤ or_no_score total)

-- The loop over the properties.
abbrev pub add_properties : Run → List Property → Statistics → Outcome Failure Statistics
add_properties run [] s = returned s
add_properties run (prop ∷ properties) s = do
  score ← compute_score prop run.category run.status
  add_properties run properties (record s {
    score = s.score +ℤ or_no_score score;
    maximal_score =
        add_max_score (max_score prop (expected_for prop.filename run.expected_results))
          s.maximal_score;
  })

-- Statistics.add_result
unfoldable pub add_result : Run → Statistics → Outcome Failure Statistics
unfolding get assign ◌+ℤ◌ compute_score max_score expected_for get_result_classification
add_result run s = add_properties run run.properties (record s {
  dic =
      increment (pair_key run.category (get_result_classification run.status))
        (increment (category_key run.category) s.dic);
  counter = s.counter + 1;
})

abbrev pub add_results : List Run → Statistics → Outcome Failure Statistics
add_results [] s = returned s
add_results (run ∷ runs) s = do next ← add_result run s; add_results runs next

-- The numbers that __str__ prints; a score is printed where there is a maximal score.
pub record Printed : Type 0 where
  pub files : ℕ
  pub all_correct : ℕ
  pub correct_true : ℕ
  pub correct_false : ℤ
  pub all_incorrect : ℕ
  pub incorrect_true : ℕ
  pub incorrect_false : ℤ
  pub all_unknown : ℕ
  pub score : Option (ℤ × ℤ)

abbrev pub printed_score : ℤ → Option ℤ → Option (ℤ × ℤ)
printed_score score none = none
printed_score score (some m) = some (score, m)

unfoldable pub printed_numbers : Statistics → Printed
unfolding get ◌-ℤ◌
printed_numbers s =
    let all_correct = count_of (category_key correct) s.dic in
    let correct_true = count_of (pair_key correct class_true) s.dic in
    let all_incorrect = count_of (category_key wrong) s.dic in
    let incorrect_true = count_of (pair_key wrong class_true) s.dic in
    record {
      files = s.counter;
      all_correct = all_correct;
      correct_true = correct_true;
      correct_false = pos all_correct -ℤ pos correct_true;
      all_incorrect = all_incorrect;
      incorrect_true = incorrect_true;
      incorrect_false = pos all_incorrect -ℤ pos incorrect_true;
      all_unknown = count_of (category_key unknown) s.dic + count_of (category_key error) s.dic;
      score = printed_score s.score s.maximal_score;
    }
