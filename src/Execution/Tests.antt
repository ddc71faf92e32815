-- ===== src/Execution/Tests.antt =====
-- Executions on small inputs, and the theorems at such inputs.
use benchexec.Prelude.{
  ltb, if◌then◌else◌, ◌↔◌, ℕ, ◌≡◌, ◌≢◌, refl, true, false, Option, none, some, List, [], ◌∷◌, Text,
  codes, ◌≤◌, ◌+◌, ◌*◌, arith,
}
use benchexec.Prelude.Int.{ℤ, pos}
use benchexec.Prelude.Outcome.{returned, raised}
use benchexec.Util.ExitCode.{ProcessExitCode}
use benchexec.Result.{unknown, error, class_other, get_result_classification}
use benchexec.Model.Status.{Times, DetermineResult, judge_run}
use benchexec.Model.Violations.{cputime_soft, killed, memory, files_count, reason_given}
use benchexec.Execution.Arguments.{
  RunArguments, Environment, ExecutionLimits, execute_run, forbidden_cores, soft_limit_larger,
  critical_cgroups,
}
use benchexec.Execution.Timer.{
  check_limits, Timer, second, run_pass, wait_time, send_kill, send_terminate, set_reason,
}
use benchexec.Execution.TimerLaws.{run_pass_in_time}
use benchexec.Execution.Limiters.{FileLimits, WalkedFile, file_pass}
use benchexec.Execution.Events.{
  memory_exhausted, termination_reason, Event, Threads, time_pass, files_walked, oom_event, stop,
  pid_added, pid_discarded, tool_ended, start_run, run_events,
}
use benchexec.Execution.Recorded.{process_killed, record_result}
use benchexec.Execution.FirstReason.{first_reason}
use benchexec.Execution.Refined.{run_events-first_reason}
use benchexec.Execution.Judged.{reason_of_run, executed-violated, executed-answered}
use benchexec.Execution.Scanned.{Exceeds, number_of, size_of, file_pass_iff}
use benchexec.Execution.Measurements.{
  read_until_stable, choose_cputime, read_core_times, add_blkio_lines,
}
use benchexec.Execution.Measured.{IsStable, read_until_stable_total}

abbrev machine : Environment
machine = record {
  has_cpuacct = true;
  has_memory = true;
  cpus = some (0 ∷ 1 ∷ 2 ∷ 3 ∷ []);
  memory_nodes = none;
  subsystems = [];
  has_value = λ subsystem option. false;
}

abbrev arguments : Option ℤ → Option ℤ → Option (List ℕ) → RunArguments
arguments hard soft cores = record {
  stdin_is_pipe = false;
  hardtimelimit = hard;
  softtimelimit = soft;
  walltimelimit = none;
  cores = cores;
  memlimit = some (pos 1000);
  memory_nodes = none;
  working_dir = none;
  cgroup_values = [];
  files_count_limit = none;
  files_size_limit = none;
}

abbrev accepted : ExecutionLimits
accepted = record {
  times = record { hard = some 60; soft = some 50; wall = some 90 };
  cores = some (1 ∷ 2 ∷ []);
  memlimit = some 1000;
  files_count_limit = none;
  files_size_limit = none;
}

test_arguments :
    (execute_run machine (arguments (some (pos 60)) (some (pos 50)) (some (1 ∷ 2 ∷ [])))
      ≡ returned accepted)
    × (execute_run machine (arguments (some (pos 60)) (some (pos 61)) none)
        ≡ raised soft_limit_larger)
    × (execute_run machine (arguments none none (some (1 ∷ 7 ∷ []))) ≡ raised forbidden_cores)
    × (execute_run (record machine { has_memory = false }) (arguments none none none)
        ≡ raised critical_cgroups)
unfolding execute_run
test_arguments = (refl, refl, refl, refl)

abbrev timer : Timer
timer = record {
  timelimit = 60 * second;
  softtimelimit = 50 * second;
  latest_kill_time = 90 * second;
  cpu_count = 2;
  has_cpuacct = true;
  finished = false;
}

test_waits :
    (wait_time timer (40 * second) (30 * second) ≡ 6 * second)
    × (wait_time timer (51 * second) (30 * second) ≡ 500000000)
    × ((run_pass timer (55 * second) (30 * second)).effects
        ≡ set_reason cputime_soft ∷ send_terminate ∷ [])
unfolding wait_time run_pass
test_waits = (refl, refl, refl)

run_pass_in_time_example :
    (52 * second ≤ timer.timelimit + timer.cpu_count * second)
    × (30 * second + 6 * second ≤ timer.latest_kill_time + second)
unfolding wait_time run_pass check_limits
run_pass_in_time_example =
    run_pass_in_time timer (40 * second) (30 * second) (6 * second) (52 * second) refl refl
      (omega arith) (omega arith)

abbrev threads : Threads
threads = record {
  timer = some timer;
  files = some (record { files_count_limit = some 1; files_size_limit = none });
  oom = true;
}

abbrev plain_file : WalkedFile
plain_file = record { is_system_config = false; is_file = true; is_link = false; size = some 10 }

abbrev soft_then_hard : List Event
soft_then_hard =
    pid_added
    ∷ time_pass (10 * second) (20 * second)
    ∷ files_walked (plain_file ∷ [])
    ∷ time_pass (51 * second) (40 * second)
    ∷ time_pass (60 * second) (50 * second)
    ∷ stop
    ∷ pid_discarded
    ∷ tool_ended
    ∷ []

test_events :
    ((run_events (start_run threads) soft_then_hard).reason ≡ some cputime_soft)
    × ((run_events (start_run threads) soft_then_hard).sent
        ≡ send_terminate ∷ send_kill ∷ send_kill ∷ [])
    × ((run_events (start_run threads) (pid_added ∷ pid_discarded ∷ stop ∷ [])).sent ≡ [])
    × ((run_events (start_run threads) (tool_ended ∷ oom_event (λ f. false) [] ∷ [])).reason ≡ none)
    × ((run_events (start_run threads) (oom_event (λ f. false) [] ∷ stop ∷ [])).reason
        ≡ some memory)
    × ((run_events (start_run threads) (files_walked (plain_file ∷ plain_file ∷ []) ∷ [])).reason
        ≡ some files_count)
unfolding run_events
test_events = (refl, refl, refl, refl, refl, refl)

run_events-first_reason_example :
    (run_events (start_run threads) soft_then_hard).reason
    ≡ first_reason threads false soft_then_hard
run_events-first_reason_example = run_events-first_reason threads soft_then_hard

abbrev always : Text → DetermineResult
always t exitcode reason = t

abbrev unlimited : Times
unlimited = record { cputime = none; walltime = none }

abbrev exited : ProcessExitCode
exited = record { raw = 0; value = some 0; signal = none }

-- The soft time limit and the end of the tool, without stop.
abbrev soft_only : List Event
soft_only = pid_added ∷ time_pass (51 * second) (40 * second) ∷ pid_discarded ∷ tool_ended ∷ []

executed-violated_example :
    (process_killed soft_only ≡ false
      → (record_result (process_killed soft_only) (
          judge_run
            (always (codes "true"))
            unlimited
            unlimited
            (some exited)
            (reason_given (reason_of_run threads soft_only none none))
            []
            [])).1
        ≡ returned error)
    × (process_killed soft_only ≡ true
        → record_result (process_killed soft_only) (
            judge_run
              (always (codes "true"))
              unlimited
              unlimited
              (some exited)
              (reason_given (reason_of_run threads soft_only none none))
              []
              [])
          ≡ (some [], returned unknown))
    × (cputime_soft ≡ killed → process_killed soft_only ≡ true)
unfolding file_pass
executed-violated_example =
    executed-violated threads soft_only none none cputime_soft (always (codes "true")) unlimited
      unlimited (some exited) [] [] refl

quiet_answered :
    get_result_classification
      (judge_run
        (always (codes "true"))
        unlimited
        unlimited
        (some exited)
        (reason_given (reason_of_run threads (tool_ended ∷ []) (some 100) (some 50)))
        []
        []).0
    ≢ class_other
unfolding judge_run get_result_classification run_events termination_reason
quiet_answered h = cc

executed-answered_example :
    (first_reason threads false (tool_ended ∷ []) ≡ none)
    × (memory_exhausted (some 100) (some 50) ≡ false)
    × ((e : ProcessExitCode) × (some exited ≡ some e)
        × ((judge_run
              (always (codes "true"))
              unlimited
              unlimited
              (some exited)
              (reason_given (reason_of_run threads (tool_ended ∷ []) (some 100) (some 50)))
              []
              []).0
            ≡ some (codes "true")))
executed-answered_example =
    executed-answered threads (tool_ended ∷ []) (some 100) (some 50) (always (codes "true"))
      unlimited unlimited (some exited) [] [] quiet_answered

abbrev one_file : FileLimits
one_file = record { files_count_limit = some 1; files_size_limit = some 0 }

file_pass_iff_example :
    ((file_pass one_file (plain_file ∷ plain_file ∷ []) ≡ some files_count)
      ↔ Exceeds (number_of (plain_file ∷ plain_file ∷ [])) (some 1))
    × ((file_pass one_file (plain_file ∷ plain_file ∷ []) ≡ none) ↔ (
        (¬ (Exceeds (number_of (plain_file ∷ plain_file ∷ [])) (some 1)))
        × (¬ (Exceeds (size_of (plain_file ∷ plain_file ∷ [])) (some 0)))))
file_pass_iff_example = file_pass_iff one_file (plain_file ∷ plain_file ∷ [])

-- A clock that stands still from 3 on.
abbrev settling : ℕ → ℕ
settling n = if ltb n 3 then n else 3

test_measurements :
    (read_until_stable 5 settling 0 0 ≡ some 3)
    × (choose_cputime (2 * second) second ≡ 2 * second)
    × (choose_cputime (2 * second) (2 * second + 1) ≡ 2 * second + 1)
    × (read_core_times (codes "12 0 x 7") ≡ (0, pos 12) ∷ (3, pos 7) ∷ [])
    × (add_blkio_lines
          (record { bytes_read = pos 0; bytes_written = pos 0 })
          (codes "8:0 Read 5" ∷ codes "8:0 Write 7" ∷ codes "Total 12" ∷ codes "8:1 Read 2" ∷ [])
        ≡ record { bytes_read = pos 7; bytes_written = pos 7 })
unfolding read_until_stable choose_cputime read_core_times add_blkio_lines
test_measurements = (refl, refl, refl, refl, refl)

read_until_stable_total_example :
    (value : ℕ) × (read_until_stable 5 settling 0 0 ≡ some value) × IsStable settling 0 3 value
read_until_stable_total_example =
    read_until_stable_total 5 settling 0 3 refl (omega arith) (omega arith)
