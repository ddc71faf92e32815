-- ===== src/Model/Answered.antt =====
-- The runs in benchexec/model.py whose status is an answer true or false.
use benchexec.Prelude.{
  ℕ, suc, zero, ◌≡◌, refl, ap, inl, inr, Bool, true, false, not, ◌&&◌, Option, none, some, List,
  Text, text_eq, if◌then◌else◌, Bool-cases, arith, ◌≢◌,
}
use benchexec.Prelude.Dict.{member, text_key}
use benchexec.Util.ExitCode.{ProcessExitCode, nonzero}
use benchexec.Result.{
  class_other, Property, ExpectedResult, result_unknown, get_result_classification,
}
use benchexec.Model.Status.{
  Times, is_timeout, judge_run, by_value, by_signal, result_list_other, DetermineResult,
  add_exit_code, violation, analyze_result, ask_tool,
}
use benchexec.Model.Violations.{
  Reason, reason_given, IsCapital, capital_class, violated_status-IsCapital,
}
use benchexec.Model.Crashes.{other_cases, error_text-IsCapital, signal_text-IsCapital}

other_class :
    (t : Text)
    → member t result_list_other ≡ true
    → get_result_classification (some t) ≡ class_other
unfolding get_result_classification
other_class t h = elim (other_cases t h) [
  | inl e ↦ rw e refl
  | inr (inl e) ↦ rw e refl
  | inr (inr e) ↦ rw e refl
]

replaced_class :
    (t u : Text) (bad : Bool)
    → IsCapital (some u)
    → get_result_classification (some t) ≡ class_other
    → get_result_classification (some (if bad then u else t)) ≡ class_other
replaced_class t u true capital known = capital_class (some u) capital
replaced_class t u false capital known = known

by_value_class :
    (value : Option ℕ) (t : Text)
    → get_result_classification (some t) ≡ class_other
    → get_result_classification (some (by_value value t)) ≡ class_other
by_value_class none t known = known
by_value_class (some v) t known =
    replaced_class t _ (nonzero (some v) && not (text_eq t result_unknown)) (error_text-IsCapital v)
      known

by_signal_class :
    (signal value : Option ℕ) (t : Text)
    → get_result_classification (some t) ≡ class_other
    → get_result_classification (some (by_signal signal value t)) ≡ class_other
by_signal_class none value t known = by_value_class value t known
by_signal_class (some zero) value t known = by_value_class value t known
by_signal_class (some (suc n)) value t known =
    capital_class _ (signal_text-IsCapital (suc n) (by_value value t) (ground arith))

-- The exit code changes no answer, and makes none of an unspecific result.
add_exit_code-answered :
    (exitcode : ProcessExitCode) (t : Text)
    → get_result_classification (some (add_exit_code exitcode t)) ≢ class_other
    → add_exit_code exitcode t ≡ t
unfolding add_exit_code
add_exit_code-answered exitcode t answered = elim (Bool-cases (member t result_list_other)) [
  | inl other ↦
      absurd (
        answered
          (rw other (by_signal_class exitcode.signal exitcode.value t (other_class t other))))
  | inr specific ↦ rw specific refl
]

regular_status :
    (determine_result : DetermineResult) (timeout : Bool) (exitcode : Option ProcessExitCode)
    (reason : Option Reason)
    → get_result_classification
        (analyze_result determine_result timeout exitcode (reason_given reason))
      ≢ class_other
    → (timeout ≡ false)
      × (reason ≡ none)
      × ((e : ProcessExitCode) × (exitcode ≡ some e)
          × (analyze_result determine_result timeout exitcode (reason_given reason)
              ≡ some (determine_result e none)))
unfolding analyze_result violation get_result_classification
regular_status determine_result true exitcode reason answered = absurd (
    answered (
      capital_class _ (
        violated_status-IsCapital true reason
          (ask_tool determine_result exitcode (reason_given reason)) (inl refl))))
regular_status determine_result false exitcode (some r) answered = absurd (
    answered (
      capital_class _ (
        violated_status-IsCapital false (some r)
          (ask_tool determine_result exitcode (reason_given (some r))) (inr (r, refl)))))
regular_status determine_result false none none answered = absurd (answered refl)
regular_status determine_result false (some e) none answered = (
  refl,
  refl,
  (
    e,
    refl,
    ap (λ (t : Text). some t) (add_exit_code-answered e (determine_result e none) answered),
  ),
)

-- Where the status of a run is classified as true or false, the run exceeded no time limit, the
-- executor gave no reason for its end, there is an exit code, and the status is what the tool-info
-- module says.
pub judge_run-answered :
    (determine_result : DetermineResult) (values rlimits : Times)
    (exitcode : Option ProcessExitCode) (reason : Option Reason)
    (expected : List (Text × ExpectedResult)) (properties : List Property)
    → get_result_classification
        (judge_run determine_result values rlimits exitcode
          (reason_given reason)
          expected
          properties).0
      ≢ class_other
    → (is_timeout values rlimits ≡ false)
      × (reason ≡ none)
      × ((e : ProcessExitCode) × (exitcode ≡ some e)
          × ((judge_run determine_result values rlimits exitcode
                (reason_given reason)
                expected
                properties).0
              ≡ some (determine_result e none)))
unfolding judge_run
judge_run-answered determine_result values rlimits exitcode reason expected properties answered =
    regular_status determine_result (is_timeout values rlimits) exitcode reason answered
