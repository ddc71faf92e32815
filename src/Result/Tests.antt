-- ===== src/Result/Tests.antt =====
-- Runs of the functions of benchexec/result.py on small inputs, and the theorems at such inputs.
use benchexec.Prelude.{◌≡◌, refl, ◌↔◌, ◌⊎◌, true, false, some, List, [], ◌∷◌, Text, codes}
use benchexec.Prelude.Int.{negsuc}
use benchexec.Prelude.Outcome.{returned, raised}
use benchexec.Result.{
  correct, wrong, unknown, missing, error, class_true, class_false, ExpectedResult, Property,
  value_error, assertion_error, get_result_classification, get_result_category, compute_score,
  result_true_prop, result_false_prop, false_with,
}
use benchexec.Result.Answer.{violated, answer_text, classification_exact}
use benchexec.Result.Judgement.{Agreement, verdict_category, category-answer, correct_iff}
use benchexec.Result.Score.{IsFairScore, score-le-max_score}
use benchexec.Result.Verdict.{to_str, from_str, from_str-to_str}

abbrev valid_deref : Text
valid_deref = codes "valid-deref"

abbrev unsafe : ExpectedResult
unsafe = record { result = some false; subproperty = some valid_deref }

abbrev memsafety : Property
memsafety = record { filename = some (codes "m.prp"); is_svcomp = true; name = codes "m" }

abbrev task : List (Text × ExpectedResult)
task = (codes "m.prp", unsafe) ∷ []

test_categories :
    (get_result_category task (some (codes "false(valid-deref)")) (memsafety ∷ [])
      ≡ returned correct)
    × (get_result_category task (some (codes "false(valid-free)")) (memsafety ∷ [])
        ≡ returned unknown)
    × (get_result_category task (some (codes "true")) (memsafety ∷ []) ≡ returned wrong)
    × (get_result_category task (some (codes "TIMEOUT")) (memsafety ∷ []) ≡ returned error)
    × (get_result_category task (some (codes "done")) (memsafety ∷ []) ≡ returned missing)
    × (get_result_category task (some (codes "true")) (memsafety ∷ memsafety ∷ [])
        ≡ raised assertion_error)
unfolding get_result_category
test_categories = (refl, refl, refl, refl, refl, refl)

test_scores :
    (compute_score memsafety wrong (some (codes "true")) ≡ returned (some (negsuc 31)))
    × (compute_score memsafety correct (some (codes "done")) ≡ raised assertion_error)
unfolding compute_score
test_scores = (refl, refl)

test_from_str :
    (from_str (codes "false(a)b)\n")
      ≡ returned (record { result = some false; subproperty = some (codes "a)b") }))
    × (from_str (codes "true()") ≡ raised value_error)
    × (from_str (codes "unknown") ≡ raised value_error)
unfolding from_str
test_from_str = (refl, refl, refl)

read_unsafe : from_str (codes "false(valid-deref)") ≡ returned unsafe
unfolding from_str
read_unsafe = refl

classification_exact_example :
    ((get_result_classification (some (codes "false()")) ≡ class_true)
      ↔ (codes "false()" ≡ result_true_prop))
    × ((get_result_classification (some (codes "false()")) ≡ class_false) ↔ (
        (codes "false()" ≡ result_false_prop)
        ⊎ ((sub : Text) × (codes "false()" ≡ false_with sub))))
classification_exact_example = classification_exact (codes "false()")

category-answer_example :
    get_result_category task (some (answer_text (violated (some valid_deref)))) (memsafety ∷ [])
    ≡ returned (verdict_category false (some valid_deref) (violated (some valid_deref)))
unfolding get_result_category
category-answer_example =
    category-answer task memsafety unsafe false (violated (some valid_deref)) refl refl

correct_iff_example :
    (get_result_category task (some (codes "true")) (memsafety ∷ []) ≡ returned correct)
    ↔ Agreement task (some (codes "true")) (memsafety ∷ [])
correct_iff_example = correct_iff task (some (codes "true")) (memsafety ∷ [])

score-le-max_score_example : IsFairScore memsafety unsafe (codes "true") wrong
unfolding get_result_category
score-le-max_score_example =
    score-le-max_score task memsafety unsafe false (codes "true") wrong refl refl refl refl

from_str-to_str_example : from_str (to_str unsafe) ≡ returned unsafe
from_str-to_str_example = from_str-to_str unsafe refl
