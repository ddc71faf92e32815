-- ===== src/Execution/Refined.antt =====
-- The executions of benchexec/runexecutor.py implement their specification: the first reason among the
-- events, and a signal to the process if there is one.
use benchexec.Prelude.{◌≡◌, refl, Bool, false, ◌||◌, Option, none, some, List, [], ◌∷◌}
use benchexec.Model.Violations.{Reason}
use benchexec.Execution.Timer.{Timer}
use benchexec.Execution.Events.{Execution, Event, step, run_events, Threads, start_run}
use benchexec.Execution.FirstReason.{
  event_reason, is_end, or_later, first_reason, signals, IsIdle, run_events-reason,
}
use benchexec.Execution.Noticed.{Follows, step-Follows}

run_events-IsIdle_reason :
    (t : Threads) (ended : Bool) (s : Execution) (events : List Event)
    → IsIdle t ended s
    → (run_events s events).reason ≡ first_reason t ended events
unfolding run_events
run_events-IsIdle_reason t ended s [] idle = idle.no_reason
run_events-IsIdle_reason t ended s (e ∷ events) idle =
    followed (event_reason t ended e) (step-Follows t ended s e idle)
      (run_events-IsIdle_reason t (is_end e || ended) (step s e) events)
  where
    followed :
        (v : Option Reason)
        → Follows t (is_end e || ended) v (signals s.has_pid e) (step s e)
        → (IsIdle t (is_end e || ended) (step s e)
            → (run_events (step s e) events).reason ≡ first_reason t (is_end e || ended) events)
        → (run_events (step s e) events).reason
          ≡ or_later v (first_reason t (is_end e || ended) events)
    followed none idle later = later idle
    followed (some r) noticed later = run_events-reason (step s e) r events noticed.reason

start-IsIdle : (t : Threads) → IsIdle t false (start_run t)
start-IsIdle t = record {
  no_reason = refl;
  same_timer = refl;
  same_files = refl;
  same_end = refl;
  same_oom = λ h. refl;
}

-- Whatever the order of the passes of the threads, of calls of stop and of the end of the tool, the
-- termination reason of an execution is that of the first event that gives one by itself, and there
-- is none if no event does.
pub run_events-first_reason :
    (t : Threads) (events : List Event)
    → (run_events (start_run t) events).reason ≡ first_reason t false events
run_events-first_reason t events =
    run_events-IsIdle_reason t false (start_run t) events (start-IsIdle t)
