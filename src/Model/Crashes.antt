-- ===== src/Model/Crashes.antt =====
-- The status and the category of a run in benchexec/model.py that violates no limit: where the tool
-- crashed, and where it answered.
use benchexec.Prelude.{
  ℕ, suc, zero, ◌≡◌, refl, ap, sym, ◌∙◌, ◌⊎◌, inl, inr, Bool, true, false, not, ◌&&◌, Option, none,
  some, List, ◌++◌, Text, codes, text_eq, text_eq_iff, if◌then◌else◌, ◌==◌, Bool-cases, arith,
}
use benchexec.Prelude.Numerals.{str}
use benchexec.Prelude.Outcome.{Outcome, returned}
use benchexec.Prelude.Dict.{member, text_key}
use benchexec.Util.ExitCode.{ProcessExitCode, nonzero}
use benchexec.Result.{
  Category, error, unknown, missing, Failure, Property, ExpectedResult, result_done, result_unknown,
  get_result_category, get_result_classification,
}
use benchexec.Model.Status.{
  Times, is_timeout, judge_run, by_value, by_signal, result_error, result_list_other,
  DetermineResult, add_exit_code, violation, analyze_result,
}
use benchexec.Model.Violations.{IsCapital, capital_category}

-- A tool result of result_list_other, as a case each.
pub other_cases :
    (t : Text)
    → member t result_list_other ≡ true
    → (t ≡ result_done) ⊎ ((t ≡ result_error) ⊎ (t ≡ result_unknown))
unfolding member
other_cases t h = elim (Bool-cases (text_eq t result_done)) [
  | inl e ↦ inl ((text_eq_iff t result_done).0 e)
  | inr d ↦ elim (Bool-cases (text_eq t result_error)) [
    | inl e ↦ inr (inl ((text_eq_iff t result_error).0 e))
    | inr r ↦ inr (inr ((text_eq_iff t result_unknown).0 (ground arith)))
  ]
]

-- What the category of a run is by its exit signal, its return value and the unspecific result.
abbrev pub crash_category : Option ℕ → Option ℕ → Text → Category
crash_category signal value t =
    if nonzero signal
    then error
    else if text_eq t result_unknown
    then unknown
    else if text_eq t result_done && not (nonzero value)
    then missing
    else error

-- The category of an unspecific tool result, where a flag says if it was replaced by an error.
replaced_category :
    (expected : List (Text × ExpectedResult)) (properties : List Property) (t u : Text) (bad : Bool)
    (c : Category)
    → IsCapital (some u)
    → get_result_category expected (some t) properties ≡ returned c
    → get_result_category expected (some (if bad then u else t)) properties
      ≡ returned (if bad then error else c)
replaced_category expected properties t u true c capital known =
    capital_category expected properties (some u) capital
replaced_category expected properties t u false c capital known = known

unspecific_category :
    (expected : List (Text × ExpectedResult)) (properties : List Property)
    → (get_result_category expected (some result_done) properties ≡ returned missing)
      × (get_result_category expected (some result_error) properties ≡ returned error)
      × (get_result_category expected (some result_unknown) properties ≡ returned unknown)
unfolding get_result_category get_result_classification
unspecific_category expected properties = (refl, refl, refl)

pub error_text-IsCapital :
    (v : ℕ) → IsCapital (some (result_error ++ codes " (" ++ str v ++ codes ")"))
error_text-IsCapital v = (69, codes "RROR (" ++ str v ++ codes ")", refl, refl)

by_value_category :
    (expected : List (Text × ExpectedResult)) (properties : List Property) (value : Option ℕ)
    (t : Text)
    → (t ≡ result_done) ⊎ ((t ≡ result_error) ⊎ (t ≡ result_unknown))
    → get_result_category expected (some (by_value value t)) properties
      ≡ returned (crash_category none value t)
by_value_category expected properties none t (inl e) =
    rw e (unspecific_category expected properties).0
by_value_category expected properties none t (inr (inl e)) =
    rw e (unspecific_category expected properties).1
by_value_category expected properties none t (inr (inr e)) =
    rw e (unspecific_category expected properties).2
by_value_category expected properties (some v) t (inl e) = rw e (
    replaced_category expected properties result_done _ (nonzero (some v) && true) missing
      (error_text-IsCapital v) (unspecific_category expected properties).0
    ∙ ground arith)
by_value_category expected properties (some v) t (inr (inl e)) = rw e (
    replaced_category expected properties result_error _ (nonzero (some v) && true) error
      (error_text-IsCapital v) (unspecific_category expected properties).1
    ∙ ground arith)
by_value_category expected properties (some v) t (inr (inr e)) = rw e (
    replaced_category expected properties result_unknown _ (nonzero (some v) && false) unknown
      (error_text-IsCapital v) (unspecific_category expected properties).2
    ∙ ground arith)

-- The texts for signals start with a capital.
pub signal_text-IsCapital :
    (signal : ℕ) (rest : Text)
    → nonzero (some signal) ≡ true
    → IsCapital (
        some (
          if signal == 6
          then codes "ABORTED"
          else if signal == 11
          then codes "SEGMENTATION FAULT"
          else if signal == 15
          then codes "KILLED"
          else if nonzero (some signal)
          then codes "KILLED BY SIGNAL " ++ str signal
          else rest))
signal_text-IsCapital signal rest given =
    one_of (signal == 6) (signal == 11) (signal == 15) (nonzero (some signal)) given
  where
    one_of :
        (a b c d : Bool)
        → d ≡ true
        → IsCapital (
            some (
              if a
              then codes "ABORTED"
              else if b
              then codes "SEGMENTATION FAULT"
              else if c
              then codes "KILLED"
              else if d
              then codes "KILLED BY SIGNAL " ++ str signal
              else rest))
    one_of true b c d h = (65, codes "BORTED", refl, refl)
    one_of false true c d h = (83, codes "EGMENTATION FAULT", refl, refl)
    one_of false false true d h = (75, codes "ILLED", refl, refl)
    one_of false false false true h = (75, codes "ILLED BY SIGNAL " ++ str signal, refl, refl)
    one_of false false false false h = absurd (ground arith)

abbrev judged : Category → Outcome Failure Category
judged c = returned c

signalled_category :
    (expected : List (Text × ExpectedResult)) (properties : List Property) (signal : ℕ)
    (value : Option ℕ) (t : Text)
    → nonzero (some signal) ≡ true
    → get_result_category expected (some (by_signal (some signal) value t)) properties
      ≡ returned (crash_category (some signal) value t)
signalled_category expected properties signal value t given =
    capital_category expected properties _ (signal_text-IsCapital signal (by_value value t) given)
    ∙ ap (λ (b : Bool). judged (if b then error else crash_category none value t)) (sym given)

by_signal_category :
    (expected : List (Text × ExpectedResult)) (properties : List Property) (signal value : Option ℕ)
    (t : Text)
    → (t ≡ result_done) ⊎ ((t ≡ result_error) ⊎ (t ≡ result_unknown))
    → get_result_category expected (some (by_signal signal value t)) properties
      ≡ returned (crash_category signal value t)
by_signal_category expected properties none value t other =
    by_value_category expected properties value t other
by_signal_category expected properties (some zero) value t other =
    by_value_category expected properties value t other
by_signal_category expected properties (some (suc n)) value t other =
    signalled_category expected properties (suc n) value t (ground arith)

-- A run that violates no limit, and of which the tool says nothing more specific than done, ERROR or
-- unknown, has the category error if it was ended by a signal; else unknown if the tool says so;
-- else missing if the tool says done and the return value is zero; else error.
pub judge_run-crashed :
    (determine_result : DetermineResult) (values rlimits : Times) (exitcode : ProcessExitCode)
    (expected : List (Text × ExpectedResult)) (properties : List Property)
    → is_timeout values rlimits ≡ false
    → member (determine_result exitcode none) result_list_other ≡ true
    → (judge_run determine_result values rlimits (some exitcode) none expected properties).1
      ≡ returned (crash_category exitcode.signal exitcode.value (determine_result exitcode none))
unfolding judge_run analyze_result add_exit_code violation
judge_run-crashed determine_result values rlimits exitcode expected properties in_time other =
    rw (in_time, other)
      (by_signal_category expected properties exitcode.signal exitcode.value
        (determine_result exitcode none) (other_cases (determine_result exitcode none) other))
