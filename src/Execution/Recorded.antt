-- ===== src/Execution/Recorded.antt =====
-- What _Worker.execute of benchexec/localexecution.py records of a run after its execution: nothing
-- where the executor was stopped, so that the run keeps its first status and category.
use benchexec.Prelude.{Bool, true, false, Option, some, List, [], ◌∷◌, Text, if◌then◌else◌}
use benchexec.Prelude.Outcome.{Outcome, returned}
use benchexec.Result.{Failure, Category, unknown}
use benchexec.Execution.Events.{Event, stop}

-- PROCESS_KILLED of an executor that is not stopped before these events
abbrev pub process_killed : List Event → Bool
process_killed [] = false
process_killed (stop ∷ events) = true
process_killed (e ∷ events) = process_killed events

-- The status and the category of a Run that has no result.
abbrev pub dummy_result : Option Text × Outcome Failure Category
dummy_result = (some [], returned unknown)

-- The check before run.set_result, for what this call would store.
unfoldable pub record_result :
    Bool → Option Text × Outcome Failure Category → Option Text × Outcome Failure Category
record_result killed judged = if killed then dummy_result else judged
