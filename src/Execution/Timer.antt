-- ===== src/Execution/Timer.antt =====
-- _TimelimitThread of benchexec/runexecutor.py. Times are natural numbers of nanoseconds, in which
-- the kernel counts; a limit is a number of seconds.
use benchexec.Prelude.{
  ℕ, ◌+◌, ◌-◌, ◌*◌, ◌/◌, Bool, true, false, not, ◌||◌, Option, none, some, List, [], ◌∷◌, Text,
  if◌then◌else◌, leb, ltb, length,
}
use benchexec.Prelude.Outcome.{Outcome, returned, raised, ◌>>=◌, ◌>>◌, require}
use benchexec.Model.Violations.{Reason, cputime, cputime_soft, walltime}
use benchexec.Execution.Arguments.{TimeLimits, is_given}

-- What a thread that enforces a limit does: call the callback with a reason, send a signal to the
-- process or to some tasks, or change a value of the cgroup.
pub data Effect : Type 0 where
  set_reason : Reason → Effect
  send_kill send_terminate : Effect
  kill_task : ℕ → Effect
  set_limit : Text → ℕ → Effect

-- The asserts of __init__.
pub data TimerFailure : Type 0 where
  no_cpuacct no_walltime_limit : TimerFailure

pub record Timer : Type 0 where
  pub timelimit : ℕ
  pub softtimelimit : ℕ
  pub latest_kill_time : ℕ
  pub cpu_count : ℕ
  pub has_cpuacct : Bool
  pub finished : Bool

abbrev pub second : ℕ
second = 1000000000

-- The large dummy value, in seconds.
abbrev pub hundred_years : ℕ
hundred_years = 60 * 60 * 24 * 365 * 100

-- limit or (60 * 60 * 24 * 365 * 100); a limit is never zero
abbrev pub or_dummy : Option ℕ → ℕ
or_dummy none = hundred_years * second
or_dummy (some limit) = limit * second

abbrev pub deadline : ℕ → Option ℕ → Outcome TimerFailure ℕ
deadline now none = raised no_walltime_limit
deadline now (some wall) = returned (now + wall * second)

-- len(cores), or the count of the host, where that is known
abbrev pub count_cpus : Option (List ℕ) → Option ℕ → ℕ
count_cpus (some (x ∷ cores)) host = length (x ∷ cores)
count_cpus _ (some n) = n
count_cpus _ none = 1

-- __init__, at the time `now`
unfoldable pub make_timer :
    TimeLimits → Option (List ℕ) → Option ℕ → Bool → ℕ → Outcome TimerFailure Timer
make_timer limits cores host has_cpuacct now = do
  require (not (is_given limits.hard || is_given limits.soft) || has_cpuacct) no_cpuacct
  latest ← deadline now limits.wall
  returned (record {
    timelimit = or_dummy limits.hard;
    softtimelimit = or_dummy limits.soft;
    latest_kill_time = latest;
    cpu_count = count_cpus cores host;
    has_cpuacct = has_cpuacct;
    finished = false;
  })

-- What one pass of the loop does.
pub record Pass : Type 0 where
  pub timer : Timer
  pub effects : List Effect

-- The body of the loop of run, for the CPU time that was used and the time `now`.
unfoldable pub check_limits : Timer → ℕ → ℕ → Pass
check_limits t used now =
    if leb t.timelimit used
    then record {
      timer = record t { finished = true };
      effects = set_reason cputime ∷ send_kill ∷ [];
    }
    else if leb t.latest_kill_time now
    then record {
      timer = record t { finished = true };
      effects = set_reason walltime ∷ send_kill ∷ [];
    }
    else if leb t.softtimelimit used
    then record {
      timer = record t { softtimelimit = t.timelimit };
      effects = set_reason cputime_soft ∷ send_terminate ∷ [];
    }
    else record { timer = t; effects = [] }

abbrev pub used_time : Timer → ℕ → ℕ
used_time t used = if t.has_cpuacct then used else 0

-- One pass of the loop, for the CPU time of the cgroup.
unfoldable pub run_pass : Timer → ℕ → ℕ → Pass
unfolding check_limits
run_pass t measured now =
    if t.finished
    then record { timer = t; effects = [] }
    else check_limits t (used_time t measured) now

abbrev pub min : ℕ → ℕ → ℕ
min a b = if leb a b then a else b

-- The wait at the end of a pass that does not return, for the soft limit before the pass. Where the
-- soft limit is violated, the remaining soft time is negative, and so is the minimum.
unfoldable pub wait_time : Timer → ℕ → ℕ → ℕ
wait_time t used now =
    if ltb t.softtimelimit used
    then second - (used - t.softtimelimit) / t.cpu_count
    else min ((t.timelimit - used) / t.cpu_count)
        (min ((t.softtimelimit - used) / t.cpu_count) (t.latest_kill_time - now))
      + second
