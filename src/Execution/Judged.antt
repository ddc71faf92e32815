-- ===== src/Execution/Judged.antt =====
-- From the events of an execution in benchexec/runexecutor.py to the category of the run in
-- benchexec/model.py.
use benchexec.Prelude.{
  arith, Bool, not, ◌&&◌, if◌then◌else◌, ℕ, ◌≡◌, ◌≢◌, ap, sym, ◌∙◌, inr, false, Option, none, some,
  List, [], ◌∷◌, Text, refl, true,
}
use benchexec.Prelude.Outcome.{returned}
use benchexec.Util.ExitCode.{ProcessExitCode}
use benchexec.Result.{
  Property, ExpectedResult, class_other, error, unknown, get_result_classification,
}
use benchexec.Model.Status.{DetermineResult, Times, judge_run}
use benchexec.Model.Violations.{Reason, memory, killed, reason_given, judge_run-violated}
use benchexec.Model.Answered.{judge_run-answered}
use benchexec.Execution.Events.{
  Event, time_pass, files_walked, oom_event, stop, pid_added, pid_discarded, tool_ended, Threads,
  start_run, run_events, termination_reason, memory_exhausted,
}
use benchexec.Execution.Recorded.{process_killed, record_result}
use benchexec.Execution.Timer.{Timer}
use benchexec.Execution.Limiters.{FileLimits, WalkedFile, file_pass, check_limit}
use benchexec.Execution.FirstReason.{first_reason, or_later, time_reason, files_reason}
use benchexec.Execution.Refined.{run_events-first_reason}

-- The reason in the result of _execute, for its events and the memory that was measured.
abbrev pub reason_of_run : Threads → List Event → Option ℕ → Option ℕ → Option Reason
reason_of_run t events memlimit used =
    termination_reason (run_events (start_run t) events).reason memlimit used

reason_of_run_known :
    (t : Threads) (events : List Event) (memlimit used : Option ℕ) (r : Reason)
    → first_reason t false events ≡ some r
    → reason_of_run t events memlimit used ≡ some r
unfolding termination_reason
reason_of_run_known t events memlimit used r h =
    ap (λ (v : Option Reason). termination_reason v memlimit used)
      (run_events-first_reason t events ∙ h)

-- No limit has the reason of a call of stop.
time_reason_ne :
    (timer : Option Timer) (measured now : ℕ) → time_reason timer measured now ≢ some killed
time_reason_ne none measured now h = ground arith
time_reason_ne (some t) measured now h = ground arith

files_reason_ne :
    (limits : Option FileLimits) (files : List WalkedFile) → files_reason limits files ≢ some killed
unfolding file_pass check_limit
files_reason_ne none files h = ground arith
files_reason_ne (some limits) files h = ground arith

oom_reason_ne : (b : Bool) → (if b then some memory else none) ≢ some killed
oom_reason_ne b h = ground arith

later :
    {A : Type 0} {b : Option Reason} (v : Option Reason)
    → v ≢ some killed
    → or_later v b ≡ some killed
    → (b ≡ some killed → A)
    → A
later none ne h rest = rest h
later (some r) ne h rest = absurd (ne h)

killed_by_stop :
    (t : Threads) (ended : Bool) (events : List Event)
    → first_reason t ended events ≡ some killed
    → process_killed events ≡ true
killed_by_stop t ended [] h = absurd (ground arith)
killed_by_stop t ended (stop ∷ events) h = refl
killed_by_stop t ended (pid_added ∷ events) h = killed_by_stop t ended events h
killed_by_stop t ended (pid_discarded ∷ events) h = killed_by_stop t ended events h
killed_by_stop t ended (tool_ended ∷ events) h = killed_by_stop t true events h
killed_by_stop t ended (time_pass measured now ∷ events) h =
    later (time_reason t.timer measured now) (time_reason_ne t.timer measured now) h
      (killed_by_stop t ended events)
killed_by_stop t ended (files_walked files ∷ events) h =
    later (files_reason t.files files) (files_reason_ne t.files files) h
      (killed_by_stop t ended events)
killed_by_stop t ended (oom_event has_value tasks ∷ events) h =
    later (if t.oom && not ended then some memory else none) (oom_reason_ne (t.oom && not ended)) h
      (killed_by_stop t ended events)

-- After an event that gives a termination reason, such as a check that finds a limit exceeded, the
-- category error is recorded of a run, whatever the tool answers; unless stop is called, as it is if
-- this is the reason: then the run keeps an empty status and the category unknown.
pub executed-violated :
    (t : Threads) (events : List Event) (memlimit used : Option ℕ) (r : Reason)
    (determine_result : DetermineResult) (values rlimits : Times)
    (exitcode : Option ProcessExitCode) (expected : List (Text × ExpectedResult))
    (properties : List Property)
    → first_reason t false events ≡ some r
    → (process_killed events ≡ false
        → (record_result (process_killed events) (
            judge_run determine_result values rlimits exitcode
              (reason_given (reason_of_run t events memlimit used))
              expected
              properties)).1
          ≡ returned error)
      × (process_killed events ≡ true
          → record_result (process_killed events) (
              judge_run determine_result values rlimits exitcode
                (reason_given (reason_of_run t events memlimit used))
                expected
                properties)
            ≡ (some [], returned unknown))
      × (r ≡ killed → process_killed events ≡ true)
unfolding record_result
executed-violated t events memlimit used r determine_result values rlimits exitcode expected
      properties h =
    let violated =
      judge_run-violated determine_result values rlimits exitcode
        (reason_of_run t events memlimit used) expected properties
        (inr (r, reason_of_run_known t events memlimit used r h)) in
    (λ e. rw e violated, λ e. rw e refl, λ e. killed_by_stop t false events (rw e at h))

no_reason :
    (v : Option Reason) (memlimit used : Option ℕ)
    → termination_reason v memlimit used ≡ none
    → (v ≡ none) × (memory_exhausted memlimit used ≡ false)
unfolding termination_reason
no_reason none memlimit used h = ground (arith, memory_exhausted memlimit used)
no_reason (some r) memlimit used h = cc

-- Where the status of a run is classified as true or false, no event gave a termination reason, the
-- memory that was measured is below the limit, and the status is what the tool-info module says of
-- the exit code.
pub executed-answered :
    (t : Threads) (events : List Event) (memlimit used : Option ℕ)
    (determine_result : DetermineResult) (values rlimits : Times)
    (exitcode : Option ProcessExitCode) (expected : List (Text × ExpectedResult))
    (properties : List Property)
    → get_result_classification
        (judge_run determine_result values rlimits exitcode
          (reason_given (reason_of_run t events memlimit used))
          expected
          properties).0
      ≢ class_other
    → (first_reason t false events ≡ none)
      × (memory_exhausted memlimit used ≡ false)
      × ((e : ProcessExitCode) × (exitcode ≡ some e)
          × ((judge_run determine_result values rlimits exitcode
                (reason_given (reason_of_run t events memlimit used))
                expected
                properties).0
              ≡ some (determine_result e none)))
executed-answered t events memlimit used determine_result values rlimits exitcode expected
      properties h =
    let (in_time, regular, judged) =
      judge_run-answered determine_result values rlimits exitcode
        (reason_of_run t events memlimit used) expected properties h in
    let (quiet, small) = no_reason (run_events (start_run t) events).reason memlimit used regular in
    (sym (run_events-first_reason t events) ∙ quiet, small, judged)
