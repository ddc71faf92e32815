-- ===== src/Execution/FirstReason.antt =====
-- The termination reason of a run in benchexec/runexecutor.py is the first one among its events.
use benchexec.Prelude.{
  ℕ, ◌≡◌, ap, Bool, true, false, not, ◌&&◌, ◌||◌, Option, none, some, List, [], ◌∷◌, if◌then◌else◌,
  leb,
}
use benchexec.Model.Violations.{Reason, memory, killed, cputime, walltime, cputime_soft}
use benchexec.Execution.Timer.{
  Timer, Effect, set_reason, send_kill, send_terminate, kill_task, set_limit, run_pass, used_time,
}
use benchexec.Execution.Limiters.{FileLimits, WalkedFile, file_pass, limit_effects, handle_oom}
use benchexec.Execution.Events.{
  oom_step, files_step, after_walk, time_step, Execution, Event, time_pass, files_walked, oom_event,
  stop, pid_added, pid_discarded, tool_ended, stop_effects, set_termination_reason, apply_effects,
  step, run_events, Threads,
}

-- The limit that a pass over the times finds exceeded.
abbrev pub time_violation : Timer → ℕ → ℕ → Option Reason
time_violation t measured now =
    if t.finished
    then none
    else if leb t.timelimit (used_time t measured)
    then some cputime
    else if leb t.latest_kill_time now
    then some walltime
    else if leb t.softtimelimit (used_time t measured)
    then some cputime_soft
    else none

abbrev pub time_reason : Option Timer → ℕ → ℕ → Option Reason
time_reason none measured now = none
time_reason (some t) measured now = time_violation t measured now

abbrev pub files_reason : Option FileLimits → List WalkedFile → Option Reason
files_reason none files = none
files_reason (some limits) files = file_pass limits files

-- The reason that an event gives by itself, for the threads as they were started; `ended` says if the
-- tool has ended before.
abbrev pub event_reason : Threads → Bool → Event → Option Reason
event_reason t ended (time_pass measured now) = time_reason t.timer measured now
event_reason t ended (files_walked files) = files_reason t.files files
event_reason t ended (oom_event has_value tasks) = if t.oom && not ended then some memory else none
event_reason t ended stop = some killed
event_reason t ended pid_added = none
event_reason t ended pid_discarded = none
event_reason t ended tool_ended = none

abbrev pub is_end : Event → Bool
is_end tool_ended = true
is_end _ = false

abbrev pub or_later : Option Reason → Option Reason → Option Reason
or_later none later = later
or_later (some r) later = some r

-- The reason of the first event that gives one.
abbrev pub first_reason : Threads → Bool → List Event → Option Reason
first_reason t ended [] = none
first_reason t ended (e ∷ events) =
    or_later (event_reason t ended e) (first_reason t (is_end e || ended) events)

-- Whether the process can be killed by stop, after an event.
abbrev pub pid_after : Bool → Event → Bool
pid_after pid pid_added = true
pid_after pid pid_discarded = false
pid_after pid _ = pid

-- Whether an event that gives a reason sends a signal: a call of stop only to a process that it knows.
abbrev pub signals : Bool → Event → Bool
signals pid stop = pid
signals pid _ = true

abbrev pub or_earlier : Option Reason → Bool → Bool → Bool
or_earlier none here later = later
or_earlier (some r) here later = here

-- Whether the first event that gives a reason sends a signal; `pid` says if stop knows the process.
abbrev pub first_signals : Threads → Bool → Bool → List Event → Bool
first_signals t ended pid [] = false
first_signals t ended pid (e ∷ events) =
    or_earlier (event_reason t ended e) (signals pid e)
      (first_signals t (is_end e || ended) (pid_after pid e) events)

-- Nothing has happened that gives a reason.
pub record IsIdle (t : Threads) (ended : Bool) (s : Execution) : Type 0 where
  pub no_reason : s.reason ≡ none
  pub same_timer : s.timer ≡ t.timer
  pub same_files : s.files ≡ t.files
  pub same_end : s.oom_finished ≡ ended
  pub same_oom : ended ≡ false → s.oom ≡ t.oom

-- A reason stays.
pub apply_effects-reason :
    (s : Execution) (r : Reason) (effects : List Effect)
    → s.reason ≡ some r
    → (apply_effects s effects).reason ≡ some r
unfolding apply_effects set_termination_reason
apply_effects-reason s r [] h = h
apply_effects-reason s r (set_reason q ∷ effects) h =
    apply_effects-reason _ r effects (ap (λ o. set_termination_reason o q) h)
apply_effects-reason s r (send_kill ∷ effects) h = apply_effects-reason _ r effects h
apply_effects-reason s r (send_terminate ∷ effects) h = apply_effects-reason _ r effects h
apply_effects-reason s r (kill_task k ∷ effects) h = apply_effects-reason _ r effects h
apply_effects-reason s r (set_limit f n ∷ effects) h = apply_effects-reason _ r effects h

time_step_reason :
    (s : Execution) (r : Reason) (timer : Option Timer) (measured now : ℕ)
    → s.reason ≡ some r
    → (time_step s timer measured now).reason ≡ some r
time_step_reason s r none measured now h = h
time_step_reason s r (some t) measured now h =
    apply_effects-reason _ r (run_pass t measured now).effects h

files_step_reason :
    (s : Execution) (r : Reason) (limits : FileLimits) (found : Option Reason)
    → s.reason ≡ some r
    → (after_walk s limits found).reason ≡ some r
files_step_reason s r limits none h = h
files_step_reason s r limits (some q) h = apply_effects-reason _ r (limit_effects (some q)) h

pub step-reason :
    (s : Execution) (r : Reason) (e : Event) → s.reason ≡ some r → (step s e).reason ≡ some r
unfolding step
step-reason s r (time_pass measured now) h = time_step_reason s r s.timer measured now h
step-reason s r (files_walked files) h = walked s.files
  where
    walked : (limits : Option FileLimits) → (files_step s limits files).reason ≡ some r
    walked none = h
    walked (some limits) = files_step_reason s r limits (file_pass limits files) h
step-reason s r (oom_event has_value tasks) h = event s.oom
  where
    event : (oom : Bool) → (oom_step s oom has_value tasks).reason ≡ some r
    event false = h
    event true = apply_effects-reason _ r (handle_oom s.oom_finished has_value tasks) h
step-reason s r stop h = apply_effects-reason s r (set_reason killed ∷ stop_effects s.has_pid) h
step-reason s r pid_added h = h
step-reason s r pid_discarded h = h
step-reason s r tool_ended h = h

-- Once there is a reason, it is not replaced.
pub run_events-reason :
    (s : Execution) (r : Reason) (events : List Event)
    → s.reason ≡ some r
    → (run_events s events).reason ≡ some r
unfolding run_events
run_events-reason s r [] h = h
run_events-reason s r (e ∷ events) h = run_events-reason (step s e) r events (step-reason s r e h)
