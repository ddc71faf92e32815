-- ===== src/Execution/TimerLaws.antt =====
-- That the asserts of _TimelimitThread in benchexec/runexecutor.py hold, and how late it may notice
-- that a limit is exceeded.
use native.Mathlib.Nat.{mul-le-mul_left, mul-div-le, mul-add}
use benchexec.Prelude.{
  ℕ, ◌+◌, ◌-◌, ◌*◌, ◌/◌, ◌≤◌, ◌<◌, ◌≡◌, refl, inl, inr, Bool, true, false, not, ◌||◌, Option, none,
  some, List, [], if◌then◌else◌, leb, Bool-cases, arith,
}
use benchexec.Prelude.Outcome.{returned}
use benchexec.Execution.Arguments.{
  TimeLimits, is_given, Environment, RunArguments, ExecutionLimits, execute_run,
}
use benchexec.Execution.Accepted.{AreUsable, AreAccepted, has_cpu_limit, execute_run-AreAccepted}
use benchexec.Execution.Timer.{
  Timer, Pass, second, make_timer, run_pass, check_limits, used_time, wait_time, or_dummy,
  count_cpus,
}

-- any([hardtimelimit, softtimelimit, walltimelimit])
abbrev pub needs_timer : TimeLimits → Bool
needs_timer t = is_given t.hard || is_given t.soft || is_given t.wall

started :
    (limits : TimeLimits) (cores : Option (List ℕ)) (host : Option ℕ) (has_cpuacct : Bool)
    (now wall : ℕ)
    → (not (is_given limits.hard || is_given limits.soft) || has_cpuacct) ≡ true
    → limits.wall ≡ some wall
    → (t : Timer) × (make_timer limits cores host has_cpuacct now ≡ returned t)
      × (t.timelimit ≡ or_dummy limits.hard)
unfolding make_timer
started limits cores host has_cpuacct now wall ok given = (
  record {
    timelimit = or_dummy limits.hard;
    softtimelimit = or_dummy limits.soft;
    latest_kill_time = now + wall * second;
    cpu_count = count_cpus cores host;
    has_cpuacct = has_cpuacct;
    finished = false;
  },
  rw (ok, given) refl,
  refl,
)

wall_of : (wall : Option ℕ) → is_given wall ≡ true → (w : ℕ) × (wall ≡ some w)
wall_of none h = cc
wall_of (some w) h = (w, refl)

wall_needed :
    (limits : TimeLimits)
    → AreUsable limits
    → needs_timer limits ≡ true
    → is_given limits.wall ≡ true
wall_needed limits usable needed = elim (Bool-cases (has_cpu_limit limits)) [
  | inl cpu ↦ usable.wall_given cpu
  | inr free ↦ wall_last (is_given limits.hard || is_given limits.soft) _ free needed
]
  where
    wall_last : (a b : Bool) → a ≡ false → (a || b) ≡ true → b ≡ true
    wall_last a b h e = ground arith

-- Where the arguments of a run are accepted and a time limit is given, the thread that enforces it is
-- created: the asserts of its constructor hold.
make_timer_total :
    (env : Environment) (a : RunArguments) (l : ExecutionLimits) (host : Option ℕ) (now : ℕ)
    → execute_run env a ≡ returned l
    → needs_timer l.times ≡ true
    → (t : Timer) × (make_timer l.times l.cores host env.has_cpuacct now ≡ returned t)
      × (t.timelimit ≡ or_dummy l.times.hard)
make_timer_total env a l host now h needed =
    let ok : AreAccepted env l = execute_run-AreAccepted env a l h in
    let (wall, given) = wall_of l.times.wall (wall_needed l.times ok.usable needed) in
    started l.times l.cores host env.has_cpuacct now wall
      (either (has_cpu_limit l.times) env.has_cpuacct ok.cpuacct) given
  where
    either : (b c : Bool) → (b ≡ true → c ≡ true) → (not b || c) ≡ true
    either true c h = h refl
    either false c h = refl

-- A pass after which the loop goes on has seen no violated limit but the soft one.
goes_on :
    (t : Timer) (used now : ℕ)
    → (check_limits t used now).timer.finished ≡ false
    → (used < t.timelimit) × (now < t.latest_kill_time)
unfolding check_limits
goes_on t used now h = elim (Bool-cases (leb t.timelimit used)) [
  | inl over ↦ absurd (ended (rw over at h))
  | inr under ↦ elim (Bool-cases (leb t.latest_kill_time now)) [
    | inl late ↦ absurd (ended (rw (under, late) at h))
    | inr early ↦ (ground arith, ground arith)
  ]
]
  where
    ended : true ≡ false → ⊥
    ended e = cc

loop_goes_on :
    (finished : Bool) (t : Timer) (p : Pass)
    → finished ≡ false
    → (if finished then record { timer = t; effects = [] } else p).timer.finished ≡ false
    → p.timer.finished ≡ false
loop_goes_on true t p h e = cc
loop_goes_on false t p h e = e

-- The wait leaves no more time than is left of the CPU time, on all cores, and of the wall time,
-- and a second.
short_wait :
    (t : Timer) (used now : ℕ)
    → (wait_time t used now ≤ (t.timelimit - used) / t.cpu_count + second)
      × (wait_time t used now ≤ t.latest_kill_time - now + second)
unfolding wait_time
short_wait t used now = ground arith

cpu_bound :
    (limit used cpus elapsed later : ℕ)
    → used < limit
    → elapsed ≤ (limit - used) / cpus + second
    → later ≤ used + cpus * elapsed
    → later ≤ limit + cpus * second
cpu_bound limit used cpus elapsed later under wait consumed =
    let scaled : cpus * elapsed ≤ cpus * ((limit - used) / cpus + second) =
      mul-le-mul_left cpus wait in
    let share : cpus * ((limit - used) / cpus) ≤ limit - used = mul-div-le (limit - used) cpus in
    omega (arith, mul-add cpus ((limit - used) / cpus) second)

-- Where a pass does not end the loop, the tool uses at most the time of all its cores until the next
-- pass, and that comes after the wait at the latest, then the next pass sees at most one second for
-- each core more than the limit on the CPU time, and is at most one second after the last point in
-- time for the process.
pub run_pass_in_time :
    (t : Timer) (measured now elapsed later : ℕ)
    → t.finished ≡ false
    → (run_pass t measured now).timer.finished ≡ false
    → elapsed ≤ wait_time t (used_time t measured) now
    → later ≤ used_time t measured + t.cpu_count * elapsed
    → (later ≤ t.timelimit + t.cpu_count * second) × (now + elapsed ≤ t.latest_kill_time + second)
unfolding run_pass
run_pass_in_time t measured now elapsed later running on wait consumed =
    let (under, early) =
      goes_on t (used_time t measured) now (loop_goes_on t.finished t _ running on) in
    let (cpu, wall) = short_wait t (used_time t measured) now in
    (
      cpu_bound t.timelimit (used_time t measured) t.cpu_count elapsed later under (omega arith)
          consumed,
      omega arith,
    )
