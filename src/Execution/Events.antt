-- ===== src/Execution/Events.antt =====
-- A run of RunExecutor._execute in benchexec/runexecutor.py from the start of the tool to the result, as the sequence of the events that may come in any order: the passes of the threads that
-- enforce limits, RunExecutor.stop, and the end of the tool. A pass of a thread may be under way when
-- the thread is cancelled, so no event is excluded after the end of the tool; only the thread for
-- memory looks at its cancellation right before it acts.
use benchexec.Prelude.{
  ℕ, Bool, true, false, ◌&&◌, Option, none, some, List, [], ◌∷◌, ◌++◌, Text, if◌then◌else◌, leb,
}
use benchexec.Util.ExitCode.{nonzero}
use benchexec.Model.Violations.{Reason, memory, killed}
use benchexec.Execution.Timer.{
  Timer, Effect, set_reason, send_kill, send_terminate, kill_task, set_limit, Pass, run_pass,
}
use benchexec.Execution.Limiters.{FileLimits, WalkedFile, file_pass, limit_effects, handle_oom}

-- The threads of a run that have not ended, the first reason, whether the process of the tool is in
-- SUB_PROCESS_PIDS, and what was sent, in order.
pub record Execution : Type 0 where
  pub reason : Option Reason
  pub timer : Option Timer
  pub files : Option FileLimits
  pub oom : Bool
  pub oom_finished : Bool
  pub has_pid : Bool
  pub sent : List Effect

-- What the environment chooses: the values that a pass reads, and what it finds; and the steps of
-- _execute: the process is put into SUB_PROCESS_PIDS, it is taken out when it has ended, and then the
-- thread for memory is cancelled.
pub data Event : Type 0 where
  time_pass : ℕ → ℕ → Event
  files_walked : List WalkedFile → Event
  oom_event : (Text → Bool) → List ℕ → Event
  stop pid_added pid_discarded tool_ended : Event

-- _set_termination_reason
unfoldable pub set_termination_reason : Option Reason → Reason → Option Reason
set_termination_reason none reason = some reason
set_termination_reason (some first) reason = some first

-- The effects of a thread, one after the other.
unfoldable pub apply_effects : Execution → List Effect → Execution
unfolding set_termination_reason
apply_effects s [] = s
apply_effects s (set_reason r ∷ effects) =
    apply_effects (record s { reason = set_termination_reason s.reason r }) effects
apply_effects s (send_kill ∷ effects) =
    apply_effects (record s { sent = s.sent ++ send_kill ∷ [] }) effects
apply_effects s (send_terminate ∷ effects) =
    apply_effects (record s { sent = s.sent ++ send_terminate ∷ [] }) effects
apply_effects s (kill_task t ∷ effects) =
    apply_effects (record s { sent = s.sent ++ kill_task t ∷ [] }) effects
apply_effects s (set_limit f n ∷ effects) =
    apply_effects (record s { sent = s.sent ++ set_limit f n ∷ [] }) effects

abbrev pub after_pass : Execution → Pass → Execution
after_pass s p = apply_effects (record s { timer = some p.timer }) p.effects

-- A pass with a reason is the last one of the thread.
abbrev pub after_walk : Execution → FileLimits → Option Reason → Execution
after_walk s limits none = s
after_walk s limits (some reason) =
    apply_effects (record s { files = none }) (limit_effects (some reason))

abbrev pub time_step : Execution → Option Timer → ℕ → ℕ → Execution
time_step s none measured now = s
time_step s (some t) measured now = after_pass s (run_pass t measured now)

abbrev pub files_step : Execution → Option FileLimits → List WalkedFile → Execution
files_step s none files = s
files_step s (some limits) files = after_walk s limits (file_pass limits files)

abbrev pub oom_step : Execution → Bool → (Text → Bool) → List ℕ → Execution
oom_step s false has_value tasks = s
oom_step s true has_value tasks =
    apply_effects (record s { oom = false }) (handle_oom s.oom_finished has_value tasks)

-- BaseExecutor.stop kills the processes in SUB_PROCESS_PIDS.
abbrev pub stop_effects : Bool → List Effect
stop_effects true = send_kill ∷ []
stop_effects false = []

unfoldable pub step : Execution → Event → Execution
unfolding apply_effects run_pass file_pass handle_oom
step s (time_pass measured now) = time_step s s.timer measured now
step s (files_walked files) = files_step s s.files files
step s (oom_event has_value tasks) = oom_step s s.oom has_value tasks
step s stop = apply_effects s (set_reason killed ∷ stop_effects s.has_pid)
step s pid_added = record s { has_pid = true }
step s pid_discarded = record s { has_pid = false }
step s tool_ended = record s { oom_finished = true }

unfoldable pub run_events : Execution → List Event → Execution
unfolding step
run_events s [] = s
run_events s (e ∷ events) = run_events (step s e) events

-- The threads of a run, at its start.
pub record Threads : Type 0 where
  pub timer : Option Timer
  pub files : Option FileLimits
  pub oom : Bool

abbrev pub start_run : Threads → Execution
start_run t = record {
  reason = none;
  timer = t.timer;
  files = t.files;
  oom = t.oom;
  oom_finished = false;
  has_pid = false;
  sent = [];
}

-- memlimit and "memory" in result and result["memory"] >= memlimit
abbrev pub memory_exhausted : Option ℕ → Option ℕ → Bool
memory_exhausted (some memlimit) (some used) = nonzero (some memlimit) && leb memlimit used
memory_exhausted _ _ = false

-- result["terminationreason"], where there is one
unfoldable pub termination_reason : Option Reason → Option ℕ → Option ℕ → Option Reason
termination_reason (some reason) memlimit used = some reason
termination_reason none memlimit used = if memory_exhausted memlimit used then some memory else none
