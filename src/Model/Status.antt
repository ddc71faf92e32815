-- ===== src/Model/Status.antt =====
-- Run._analyze_result and Run._is_timeout of benchexec/model.py: the status of a run, from what the
-- tool-info module says about the output of the tool and what the executor measured.
use benchexec.Prelude.{
  ℕ, Bool, true, false, not, ◌&&◌, ◌||◌, Option, none, some, List, [], ◌∷◌, ◌++◌, Text, codes,
  text_eq, if◌then◌else◌, ltb, ◌==◌,
}
use benchexec.Prelude.Numerals.{str}
use benchexec.Prelude.Outcome.{Outcome}
use benchexec.Prelude.Dict.{member, text_key, get}
use benchexec.Util.ExitCode.{ProcessExitCode, nonzero}
use benchexec.Result.{
  Category, Failure, Property, ExpectedResult, result_done, result_unknown, truthy,
  get_result_category,
}

abbrev pub result_error : Text
result_error = codes "ERROR"

abbrev pub result_timeout : Text
result_timeout = codes "TIMEOUT"

-- RESULT_LIST_OTHER
abbrev pub result_list_other : List Text
result_list_other = result_done ∷ result_error ∷ result_unknown ∷ []

-- _ERROR_RESULTS_FOR_TERMINATION_REASON
abbrev pub error_results : List (Text × Text)
error_results =
    (codes "cputime", result_timeout)
    ∷ (codes "cputime-soft", result_timeout)
    ∷ (codes "walltime", result_timeout)
    ∷ (codes "memory", codes "OUT OF MEMORY")
    ∷ (codes "killed", codes "KILLED")
    ∷ (codes "failed", codes "FAILED")
    ∷ (codes "files-count", codes "FILES-COUNT LIMIT")
    ∷ (codes "files-size", codes "FILES-SIZE LIMIT")
    ∷ []

-- The times that were measured, or the limits on them, in the same unit; None where there is none.
pub record Times : Type 0 where
  pub cputime : Option ℕ
  pub walltime : Option ℕ

-- value and limit and value > limit
abbrev pub exceeds : Option ℕ → Option ℕ → Bool
exceeds none limit = false
exceeds (some value) none = false
exceeds (some value) (some limit) = nonzero (some value) && nonzero (some limit) && ltb limit value

-- _is_timeout
unfoldable pub is_timeout : Times → Times → Bool
is_timeout values rlimits =
    exceeds values.cputime rlimits.cputime || exceeds values.walltime rlimits.walltime

-- The last two cases: there is no signal.
abbrev pub by_value : Option ℕ → Text → Text
by_value none tool_status = tool_status
by_value (some value) tool_status =
    if nonzero (some value) && not (text_eq tool_status result_unknown)
    then result_error ++ codes " (" ++ str value ++ codes ")"
    else tool_status

abbrev pub by_signal : Option ℕ → Option ℕ → Text → Text
by_signal none value tool_status = by_value value tool_status
by_signal (some signal) value tool_status =
    if signal == 6
    then codes "ABORTED"
    else if signal == 11
    then codes "SEGMENTATION FAULT"
    else if signal == 15
    then codes "KILLED"
    else if nonzero (some signal)
    then codes "KILLED BY SIGNAL " ++ str signal
    else by_value value tool_status

-- `if tool_status in result.RESULT_LIST_OTHER`
unfoldable pub add_exit_code : ProcessExitCode → Text → Text
unfolding member str
add_exit_code exitcode tool_status =
    if member tool_status result_list_other
    then by_signal exitcode.signal exitcode.value tool_status
    else tool_status

-- What the tool-info module says of a run, by its exit code and the termination reason; the command
-- line and the output are those of the run.
abbrev pub DetermineResult : Type 0
DetermineResult = ProcessExitCode → Option Text → Text

abbrev pub ask_tool : DetermineResult → Option ProcessExitCode → Option Text → Option Text
ask_tool determine_result none termination_reason = none
ask_tool determine_result (some exitcode) termination_reason =
    some (add_exit_code exitcode (determine_result exitcode termination_reason))

-- get(termination_reason, termination_reason)
abbrev pub found_or : Text → Option Text → Text
found_or reason none = reason
found_or reason (some status) = status

-- The status that a violated limit or another termination reason gives.
unfoldable pub violation : Bool → Option Text → Option Text
unfolding get
violation true termination_reason = some result_timeout
violation false none = none
violation false (some []) = none
violation false (some (c ∷ reason)) = some (found_or (c ∷ reason) (get (c ∷ reason) error_results))

-- timeout/OOM but tool still returned some result
unfoldable pub with_answer : Text → Option Text → Text
unfolding member
with_answer status none = status
with_answer status (some tool_status) =
    if truthy (some tool_status)
      && not (
          member tool_status
            (result_list_other ++ status ∷ codes "KILLED" ∷ codes "KILLED BY SIGNAL 9" ∷ []))
    then status ++ codes " (" ++ tool_status ++ codes ")"
    else status

abbrev pub final_status : Option Text → Option Text → Option Text
final_status none tool_status = tool_status
final_status (some []) tool_status = tool_status
final_status (some (c ∷ status)) tool_status = some (with_answer (c ∷ status) tool_status)

unfoldable pub analyze_result :
    DetermineResult → Bool → Option ProcessExitCode → Option Text → Option Text
unfolding add_exit_code violation with_answer
analyze_result determine_result timeout exitcode termination_reason =
    final_status (violation timeout termination_reason)
      (ask_tool determine_result exitcode termination_reason)

-- The status and the category that Run.set_result stores.
unfoldable pub judge_run :
    DetermineResult
    → Times
    → Times
    → Option ProcessExitCode
    → Option Text
    → List (Text × ExpectedResult)
    → List Property
    → Option Text × Outcome Failure Category
unfolding analyze_result is_timeout get_result_category
judge_run determine_result values rlimits exitcode termination_reason expected_results properties =
    let status =
      analyze_result determine_result (is_timeout values rlimits) exitcode termination_reason in
    (status, get_result_category expected_results status properties)
