-- ===== src/OutputHandler/Tests.antt =====
-- The Statistics of benchexec/outputhandler.py for three runs, and the theorems for them.
use benchexec.Prelude.{◌≡◌, ◌↔◌, refl, true, some, none, List, [], ◌∷◌, codes, All, Text}
use benchexec.Prelude.Int.{pos, negsuc, ◌≤ℤ◌}
use benchexec.Prelude.Outcome.{returned}
use benchexec.Result.{
  Category, correct, wrong, unknown, ExpectedResult, Property, expected_for, get_result_category,
}
use benchexec.OutputHandler.{
  Run, Statistics, no_statistics, or_no_score, add_result, add_results, printed_numbers,
}
use benchexec.OutputHandler.Totals.{IsTally, printed_numbers-IsTally}
use benchexec.OutputHandler.Scored.{IsJudged, IsCorrect, add_results_fair}

abbrev unreach : Property
unreach = record { filename = some (codes "u.prp"); is_svcomp = true; name = codes "u" }

abbrev safe : List (Text × ExpectedResult)
safe = (codes "u.prp", record { result = some true; subproperty = none }) ∷ []

abbrev run_with : Category → Text → Run
run_with category status = record {
  category = category;
  status = some status;
  properties = unreach ∷ [];
  expected_results = safe;
}

abbrev three_runs : List Run
three_runs =
    run_with correct (codes "true")
    ∷ run_with wrong (codes "false(u)")
    ∷ run_with unknown (codes "unknown")
    ∷ []

abbrev three_statistics : Statistics
three_statistics = record {
  dic = (0, 1) ∷ (6, 1) ∷ (2, 1) ∷ (14, 1) ∷ (3, 1) ∷ (21, 1) ∷ [];
  counter = 3;
  score = negsuc 13;
  maximal_score = some (pos 6);
}

three_added : add_results three_runs no_statistics ≡ returned three_statistics
unfolding add_result
three_added = refl

test_printed :
    ((printed_numbers three_statistics).all_correct ≡ 1)
    × ((printed_numbers three_statistics).correct_false ≡ pos 0)
    × ((printed_numbers three_statistics).incorrect_false ≡ pos 1)
    × ((printed_numbers three_statistics).all_unknown ≡ 1)
    × ((printed_numbers three_statistics).score ≡ some (negsuc 13, pos 6))
unfolding printed_numbers
test_printed = (refl, refl, refl, refl, refl)

printed_numbers-IsTally_example : IsTally three_runs (printed_numbers three_statistics)
printed_numbers-IsTally_example = printed_numbers-IsTally three_runs three_statistics three_added

run_with-IsJudged :
    (category : Category) (status : Text)
    → get_result_category safe (some status) (unreach ∷ []) ≡ returned category
    → IsJudged (run_with category status)
unfolding expected_for
run_with-IsJudged category status judged = record {
  prop = unreach;
  expectation = record { result = some true; subproperty = none };
  verdict = true;
  answer = status;
  single = refl;
  svcomp = refl;
  found = refl;
  known = refl;
  answered = refl;
  judged = judged;
}

All-IsJudged : All IsJudged three_runs
unfolding get_result_category
All-IsJudged = (
  run_with-IsJudged correct (codes "true") refl,
  (
    run_with-IsJudged wrong (codes "false(u)") refl,
    (run_with-IsJudged unknown (codes "unknown") refl, tt),
  ),
)

add_results_fair_example :
    (s : Statistics) × (add_results three_runs no_statistics ≡ returned s)
    × (s.score ≤ℤ or_no_score s.maximal_score)
    × (All IsCorrect three_runs ↔ (s.score ≡ or_no_score s.maximal_score))
add_results_fair_example = add_results_fair three_runs All-IsJudged
