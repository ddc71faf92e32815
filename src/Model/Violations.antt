-- ===== src/Model/Violations.antt =====
-- The status and the category of a run in benchexec/model.py, where a limit was violated, where the
-- tool crashed, and where it answered.
use benchexec.Prelude.{
  ℕ, ◌≡◌, refl, ap, ◌∙◌, ◌⊎◌, Bool, true, false, not, ◌&&◌, Option, none, some, List, [], ◌∷◌, ◌++◌,
  Text, codes, if◌then◌else◌, ltb, arith,
}
use benchexec.Prelude.Outcome.{Outcome, returned}
use benchexec.Prelude.Dict.{member, text_key}
use benchexec.Util.ExitCode.{ProcessExitCode}
use benchexec.Result.{
  by_class, other_category, Class, class_other, Category, error, Failure, Property, ExpectedResult,
  truthy, get_result_category, get_result_classification,
}
use benchexec.Model.Status.{
  is_timeout, Times, judge_run, result_list_other, DetermineResult, violation, with_answer,
  analyze_result, final_status, ask_tool,
}

-- The reasons that the executor gives for the end of a run.
pub data Reason : Type 0 where
  cputime cputime_soft walltime memory killed failed files_count files_size : Reason

abbrev pub reason_text : Reason → Text
reason_text cputime = codes "cputime"
reason_text cputime_soft = codes "cputime-soft"
reason_text walltime = codes "walltime"
reason_text memory = codes "memory"
reason_text killed = codes "killed"
reason_text failed = codes "failed"
reason_text files_count = codes "files-count"
reason_text files_size = codes "files-size"

abbrev pub reason_given : Option Reason → Option Text
reason_given none = none
reason_given (some r) = some (reason_text r)

-- A text whose first letter is a capital.
abbrev pub IsCapital : Option Text → Type 0
IsCapital t = (c : ℕ) × (s : Text) × (ltb c 97 ≡ true) × (t ≡ some (c ∷ s))

pub capital_class : (t : Option Text) → IsCapital t → get_result_classification t ≡ class_other
unfolding get_result_classification
capital_class t (c, s, small, e) = rw e (ground arith)

capital_other :
    (t : Option Text)
    → IsCapital t
    → ◌≡◌ {A = Outcome Failure Category} (returned (other_category t)) (returned error)
capital_other t (c, s, small, e) = rw e (ground arith)

pub capital_category :
    (expected : List (Text × ExpectedResult)) (properties : List Property) (t : Option Text)
    → IsCapital t
    → get_result_category expected t properties ≡ returned error
unfolding get_result_category
capital_category expected properties t capital =
    ap (λ (k : Class). by_class k expected t properties) (capital_class t capital)
    ∙ capital_other t capital

-- The answer of the tool only extends the status of a violation.
with_answer-IsCapital :
    (c : ℕ) (s : Text) (tool_status : Option Text)
    → ltb c 97 ≡ true
    → IsCapital (some (with_answer (c ∷ s) tool_status))
unfolding with_answer
with_answer-IsCapital c s none small = (c, s, small, refl)
with_answer-IsCapital c s (some t) small = either_status c s t small (
    truthy (some t)
    && not (
        member t (result_list_other ++ (c ∷ s) ∷ codes "KILLED" ∷ codes "KILLED BY SIGNAL 9" ∷ [])))
  where
    either_status :
        (c : ℕ) (s t : Text)
        → ltb c 97 ≡ true
        → (answered : Bool)
        → IsCapital (some (if answered then (c ∷ s) ++ codes " (" ++ t ++ codes ")" else c ∷ s))
    either_status c s t small true = (c, s ++ codes " (" ++ t ++ codes ")", small, refl)
    either_status c s t small false = (c, s, small, refl)

-- A limit was violated, or the executor gave a reason.
abbrev pub IsViolated : Bool → Option Reason → Type 0
IsViolated timeout reason = (timeout ≡ true) ⊎ ((r : Reason) × (reason ≡ some r))

reason_status-IsCapital :
    (r : Reason) (tool_status : Option Text)
    → IsCapital (final_status (violation false (some (reason_text r))) tool_status)
unfolding violation
reason_status-IsCapital cputime t = with_answer-IsCapital _ _ t refl
reason_status-IsCapital cputime_soft t = with_answer-IsCapital _ _ t refl
reason_status-IsCapital walltime t = with_answer-IsCapital _ _ t refl
reason_status-IsCapital memory t = with_answer-IsCapital _ _ t refl
reason_status-IsCapital killed t = with_answer-IsCapital _ _ t refl
reason_status-IsCapital failed t = with_answer-IsCapital _ _ t refl
reason_status-IsCapital files_count t = with_answer-IsCapital _ _ t refl
reason_status-IsCapital files_size t = with_answer-IsCapital _ _ t refl

pub violated_status-IsCapital :
    (timeout : Bool) (reason : Option Reason) (tool_status : Option Text)
    → IsViolated timeout reason
    → IsCapital (final_status (violation timeout (reason_given reason)) tool_status)
unfolding violation
violated_status-IsCapital true reason t violated = with_answer-IsCapital _ _ t refl
violated_status-IsCapital false none t violated = absurd (ground arith)
violated_status-IsCapital false (some r) t violated = reason_status-IsCapital r t

-- A run that exceeds a time limit, or for whose end the executor gives a reason, has the category
-- error, whatever the tool answers.
pub judge_run-violated :
    (determine_result : DetermineResult) (values rlimits : Times)
    (exitcode : Option ProcessExitCode) (reason : Option Reason)
    (expected : List (Text × ExpectedResult)) (properties : List Property)
    → IsViolated (is_timeout values rlimits) reason
    → (judge_run determine_result values rlimits exitcode
        (reason_given reason)
        expected
        properties).1
      ≡ returned error
unfolding judge_run analyze_result
judge_run-violated determine_result values rlimits exitcode reason expected properties violated =
    capital_category expected properties _ (
      violated_status-IsCapital (is_timeout values rlimits) reason
        (ask_tool determine_result exitcode (reason_given reason)) violated)
