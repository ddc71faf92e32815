-- ===== src/Result.antt =====
-- benchexec/result.py: expected verdicts, the classification of a tool's answer, the category of a
-- run and its score. A str is a Text, and None is none. The strings of CATEGORY_* and
-- RESULT_CLASS_* are only compared, so they are the constructors of two enumerations.
pub mod Answer
pub mod Judgement
pub mod Score
pub mod Verdict
pub mod PropertyFile
mod Tests
use benchexec.Prelude.{
  ℕ, ◌-◌, ◌≡◌, Bool, true, false, not, ◌&&◌, ◌||◌, Option, none, some, List, [], ◌∷◌, ◌++◌, reverse,
  Text, codes, text_eq, starts_with, ends_with, rstrip, if◌then◌else◌, ◌==◌, leb, length,
}
use mathlib.Core.Option.{get_or}
use benchexec.Prelude.Int.{ℤ, pos, negsuc}
use benchexec.Prelude.Outcome.{Outcome, returned, raised, ◌>>=◌, require}

-- CATEGORY_*
pub data Category : Type 0 where
  correct correct_unconfirmed wrong unknown error missing : Category

-- RESULT_CLASS_*
pub data Class : Type 0 where
  class_true class_false class_other : Class

-- RESULT_*
abbrev pub result_done : Text
result_done = codes "done"

abbrev pub result_unknown : Text
result_unknown = codes "unknown"

abbrev pub result_true_prop : Text
result_true_prop = codes "true"

abbrev pub result_false_prop : Text
result_false_prop = codes "false"

-- f"{RESULT_FALSE_PROP}({subproperty})"
abbrev pub false_with : Text → Text
false_with subproperty = result_false_prop ++ b'(' ∷ (subproperty ++ b')' ∷ [])

abbrev pub score_correct_true : ℤ
score_correct_true = pos 2

abbrev pub score_correct_unconfirmed_true : ℤ
score_correct_unconfirmed_true = pos 0

abbrev pub score_correct_false : ℤ
score_correct_false = pos 1

abbrev pub score_correct_unconfirmed_false : ℤ
score_correct_unconfirmed_false = pos 0

abbrev pub score_unknown : ℤ
score_unknown = pos 0

abbrev pub score_wrong_false : ℤ
score_wrong_false = negsuc 15

abbrev pub score_wrong_true : ℤ
score_wrong_true = negsuc 31

pub record ExpectedResult : Type 0 where
  pub result : Option Bool
  pub subproperty : Option Text

pub record Property : Type 0 where
  pub filename : Option Text
  pub is_svcomp : Bool
  pub name : Text

-- Why a call fails: an assert, or the ValueError of from_str.
pub data Failure : Type 0 where
  assertion_error value_error : Failure

-- The truth of an optional str: None and "" are false.
abbrev pub truthy : Option Text → Bool
truthy none = false
truthy (some []) = false
truthy (some (c ∷ s)) = true

-- Without the `not result` test: the answer is a non-empty str.
abbrev pub classify_text : Text → Class
classify_text result =
    if text_eq result []
    then class_other
    else if text_eq result result_false_prop
    then class_false
    else if starts_with result (result_false_prop ++ b'(' ∷ []) && ends_with result (b')' ∷ [])
    then class_false
    else if text_eq result result_true_prop
    then class_true
    else class_other

unfoldable pub get_result_classification : Option Text → Class
get_result_classification none = class_other
get_result_classification (some result) = classify_text result

abbrev pub is_text : Option Text → Text → Bool
is_text none t = false
is_text (some s) t = text_eq s t

-- expected_results.get(filename): the keys are distinct, so the first entry is the one.
unfoldable pub expected_for : Option Text → List (Text × ExpectedResult) → Option ExpectedResult
expected_for filename [] = none
expected_for filename ((key, e) ∷ rest) =
    if is_text filename key then some e else expected_for filename rest

abbrev pub other_category : Option Text → Category
other_category result =
    if is_text result result_unknown
    then unknown
    else if is_text result result_done
    then missing
    else error

abbrev pub is_valid_result : Text → Option Text → Bool
is_valid_result result none =
    text_eq result result_true_prop || starts_with result result_false_prop
is_valid_result result (some []) =
    text_eq result result_true_prop || starts_with result result_false_prop
is_valid_result result (some (c ∷ s)) =
    text_eq result result_true_prop || text_eq result (false_with (c ∷ s))

-- The last `if` of get_result_category.
abbrev pub compare_verdict : Text → Class → Bool → Option Text → Category
compare_verdict result class_true true sub = correct
compare_verdict result _ true sub = wrong
compare_verdict result c false (some (d ∷ s)) =
    if text_eq result (false_with (d ∷ s)) then correct else wrong
compare_verdict result class_false false _ = correct
compare_verdict result _ false _ = wrong

abbrev pub judge : Text → Class → Option ExpectedResult → Category
judge result c none = missing
judge result c (some e) = elim e.result [
  | none ↦ missing
  | some holds ↦
      if is_valid_result result e.subproperty
      then compare_verdict result c holds e.subproperty
      else unknown
]

-- From `if not properties` on, where the class is true or false (so there is an answer).
abbrev pub judge_properties :
    List (Text × ExpectedResult) → Option Text → Class → List Property → Outcome Failure Category
judge_properties expected_results none c properties = returned error
judge_properties expected_results (some result) c [] = returned missing
judge_properties expected_results (some result) c (prop ∷ []) =
    returned (judge result c (expected_for prop.filename expected_results))
judge_properties expected_results (some result) c (prop ∷ _ ∷ _) = raised assertion_error

abbrev pub by_class :
    Class → List (Text × ExpectedResult) → Option Text → List Property → Outcome Failure Category
by_class class_other expected_results result properties = returned (other_category result)
by_class c expected_results result properties =
    judge_properties expected_results result c properties

unfoldable pub get_result_category :
    List (Text × ExpectedResult) → Option Text → List Property → Outcome Failure Category
unfolding get_result_classification expected_for
get_result_category expected_results result properties =
    by_class (get_result_classification result) expected_results result properties

-- _svcomp_max_score
unfoldable pub svcomp_max_score : Option Bool → ℤ
svcomp_max_score (some true) = score_correct_true
svcomp_max_score (some false) = score_correct_false
svcomp_max_score none = pos 0

abbrev pub class_score : ℤ → ℤ → Class → Outcome Failure ℤ
class_score if_true if_false class_true = returned if_true
class_score if_true if_false class_false = returned if_false
class_score if_true if_false class_other = raised assertion_error

abbrev pub category_score : Category → Class → Outcome Failure ℤ
category_score correct_unconfirmed c =
    class_score score_correct_unconfirmed_true score_correct_unconfirmed_false c
category_score correct c = class_score score_correct_true score_correct_false c
category_score wrong c = class_score score_wrong_true score_wrong_false c
category_score _ c = returned score_unknown

-- _svcomp_score
unfoldable pub svcomp_score : Category → Option Text → Outcome Failure ℤ
unfolding get_result_classification
svcomp_score category none = raised assertion_error
svcomp_score category (some result) =
    category_score category (get_result_classification (some result))

-- Property.compute_score
unfoldable pub compute_score : Property → Category → Option Text → Outcome Failure (Option ℤ)
unfolding svcomp_score
compute_score prop category result =
    if not prop.is_svcomp
    then returned none
    else (do s ← svcomp_score category result; returned (some s))

-- Property.max_score; `not expected_result` is true of None only, a namedtuple being non-empty.
unfoldable pub max_score : Property → Option ExpectedResult → Option ℤ
unfolding svcomp_max_score
max_score prop none = none
max_score prop (some e) = if not prop.is_svcomp then none else some (svcomp_max_score e.result)
