-- ===== src/Execution/Noticed.antt =====
-- That an execution in benchexec/runexecutor.py has the first reason among its events, and that the
-- process was sent a signal then, if there was one to send it to.
use benchexec.Prelude.{
  append_assoc, ℕ, ◌≡◌, refl, ap, sym, subst, ◌⊎◌, inl, inr, Bool, true, false, not, ◌&&◌, ◌||◌,
  Option, none, some, List, [], ◌∷◌, ◌++◌, Text, if◌then◌else◌, arith,
}
use benchexec.Model.Violations.{
  files_count, files_size, Reason, memory, killed, cputime, walltime, cputime_soft,
}
use benchexec.Execution.Timer.{
  Timer, Effect, set_reason, send_kill, send_terminate, kill_task, set_limit, run_pass,
  check_limits,
}
use benchexec.Execution.Limiters.{FileLimits, WalkedFile, file_pass, handle_oom}
use benchexec.Execution.Events.{
  after_pass, oom_step, files_step, after_walk, time_step, Execution, Event, time_pass,
  files_walked, oom_event, stop, pid_added, pid_discarded, tool_ended, stop_effects,
  set_termination_reason, apply_effects, step, Threads,
}
use benchexec.Execution.FirstReason.{
  apply_effects-reason, time_violation, time_reason, files_reason, event_reason, is_end, signals,
  IsIdle,
}

quiet_pass :
    (t : Timer) (measured now : ℕ)
    → time_violation t measured now ≡ none
    → run_pass t measured now ≡ record { timer = t; effects = [] }
unfolding run_pass check_limits
quiet_pass t measured now h = ground arith

-- The signal that is sent for a reason.
abbrev pub signal_for : Reason → Effect
signal_for cputime_soft = send_terminate
signal_for _ = send_kill

noticed_pass :
    (t : Timer) (measured now : ℕ) (r : Reason)
    → time_violation t measured now ≡ some r
    → (run_pass t measured now).effects ≡ set_reason r ∷ signal_for r ∷ []
unfolding run_pass check_limits
noticed_pass t measured now r h = ground arith

-- The effect was among what was sent.
abbrev pub HasSent : Effect → Execution → Type 0
HasSent x s = (before : List Effect) × (after : List Effect) × (s.sent ≡ before ++ x ∷ after)

abbrev pub WasSignalled : Execution → Type 0
WasSignalled s = HasSent send_kill s ⊎ HasSent send_terminate s

HasSent-more :
    (x y : Effect) (sent before after : List Effect)
    → sent ≡ before ++ x ∷ after
    → (sent ++ y ∷ []) ≡ before ++ x ∷ (after ++ y ∷ [])
HasSent-more x y sent before after h = rw h (append_assoc before (x ∷ after) (y ∷ []))

pub apply_effects-HasSent :
    (x : Effect) (s : Execution) (effects : List Effect)
    → HasSent x s
    → HasSent x (apply_effects s effects)
unfolding apply_effects
apply_effects-HasSent x s [] h = h
apply_effects-HasSent x s (set_reason q ∷ effects) h = apply_effects-HasSent x _ effects h
apply_effects-HasSent x s (send_kill ∷ effects) (before, after, h) =
    apply_effects-HasSent x _ effects
      (before, after ++ send_kill ∷ [], HasSent-more x send_kill s.sent before after h)
apply_effects-HasSent x s (send_terminate ∷ effects) (before, after, h) =
    apply_effects-HasSent x _ effects
      (before, after ++ send_terminate ∷ [], HasSent-more x send_terminate s.sent before after h)
apply_effects-HasSent x s (kill_task k ∷ effects) (before, after, h) =
    apply_effects-HasSent x _ effects
      (before, after ++ kill_task k ∷ [], HasSent-more x (kill_task k) s.sent before after h)
apply_effects-HasSent x s (set_limit f n ∷ effects) (before, after, h) =
    apply_effects-HasSent x _ effects
      (before, after ++ set_limit f n ∷ [], HasSent-more x (set_limit f n) s.sent before after h)

-- The reason is there, and the process was sent a signal if there was one to send.
pub record IsNoticed (r : Reason) (sends : Bool) (s : Execution) : Type 0 where
  pub reason : s.reason ≡ some r
  pub signalled : sends ≡ true → WasSignalled s

IsNoticed-kill :
    (s : Execution) (r : Reason) (rest : List Effect)
    → s.reason ≡ none
    → IsNoticed r true (apply_effects s (set_reason r ∷ send_kill ∷ rest))
unfolding apply_effects set_termination_reason
IsNoticed-kill s r rest h = record {
  reason = apply_effects-reason _ r rest (ap (λ o. set_termination_reason o r) h);
  signalled = λ sends. inl (apply_effects-HasSent send_kill _ rest (s.sent, [], refl));
}

IsNoticed-terminate :
    (s : Execution) (r : Reason)
    → s.reason ≡ none
    → IsNoticed r true (apply_effects s (set_reason r ∷ send_terminate ∷ []))
unfolding apply_effects set_termination_reason
IsNoticed-terminate s r h = record {
  reason = ap (λ o. set_termination_reason o r) h;
  signalled = λ sends. inr (s.sent, [], refl);
}

IsNoticed-signal :
    (s : Execution) (r : Reason)
    → s.reason ≡ none
    → IsNoticed r true (apply_effects s (set_reason r ∷ signal_for r ∷ []))
IsNoticed-signal s cputime h = IsNoticed-kill s cputime [] h
IsNoticed-signal s cputime_soft h = IsNoticed-terminate s cputime_soft h
IsNoticed-signal s walltime h = IsNoticed-kill s walltime [] h
IsNoticed-signal s memory h = IsNoticed-kill s memory [] h
IsNoticed-signal s killed h = IsNoticed-kill s killed [] h
IsNoticed-signal s Reason.failed h = IsNoticed-kill s Reason.failed [] h
IsNoticed-signal s files_count h = IsNoticed-kill s files_count [] h
IsNoticed-signal s files_size h = IsNoticed-kill s files_size [] h

-- What a step of an idle execution leads to.
abbrev pub Follows : Threads → Bool → Option Reason → Bool → Execution → Type 0
Follows t ended none sends s = IsIdle t ended s
Follows t ended (some r) sends s = IsNoticed r sends s

IsIdle-timer :
    (t : Threads) (ended : Bool) (s : Execution) (tm : Timer)
    → IsIdle t ended s
    → t.timer ≡ some tm
    → IsIdle t ended (apply_effects (record s { timer = some tm }) [])
unfolding apply_effects
IsIdle-timer t ended s tm idle same = record {
  no_reason = idle.no_reason;
  same_timer = sym same;
  same_files = idle.same_files;
  same_end = idle.same_end;
  same_oom = idle.same_oom;
}

time_step-Follows :
    (t : Threads) (ended : Bool) (s : Execution) (timer : Option Timer) (measured now : ℕ)
    → IsIdle t ended s
    → t.timer ≡ timer
    → Follows t ended (time_reason timer measured now) true (time_step s timer measured now)
time_step-Follows t ended s none measured now idle same = idle
time_step-Follows t ended s (some tm) measured now idle same =
    found (time_violation tm measured now) refl
  where
    found :
        (v : Option Reason)
        → time_violation tm measured now ≡ v
        → Follows t ended v true (after_pass s (run_pass tm measured now))
    found none e = rw (quiet_pass tm measured now e) (IsIdle-timer t ended s tm idle same)
    found (some r) e =
        subst
          (λ (effects : List Effect).
            IsNoticed r true
              (apply_effects (record s { timer = some (run_pass tm measured now).timer }) effects))
          (sym (noticed_pass tm measured now r e))
          (IsNoticed-signal (record s { timer = some (run_pass tm measured now).timer }) r
            idle.no_reason)

files_step-Follows :
    (t : Threads) (ended : Bool) (s : Execution) (limits : Option FileLimits)
    (files : List WalkedFile)
    → IsIdle t ended s
    → Follows t ended (files_reason limits files) true (files_step s limits files)
files_step-Follows t ended s none files idle = idle
files_step-Follows t ended s (some limits) files idle = found (file_pass limits files)
  where
    found : (v : Option Reason) → Follows t ended v true (after_walk s limits v)
    found none = idle
    found (some r) = IsNoticed-kill (record s { files = none }) r [] idle.no_reason

IsIdle-oom :
    (t : Threads) (s : Execution)
    → IsIdle t true s
    → IsIdle t true (apply_effects (record s { oom = false }) [])
unfolding apply_effects
IsIdle-oom t s idle = record {
  no_reason = idle.no_reason;
  same_timer = idle.same_timer;
  same_files = idle.same_files;
  same_end = idle.same_end;
  same_oom = λ h. cc;
}

oom_step-Follows :
    (t : Threads) (ended : Bool) (s : Execution) (oom : Bool) (has_value : Text → Bool)
    (tasks : List ℕ)
    → IsIdle t ended s
    → (ended ≡ false → oom ≡ t.oom)
    → Follows t ended
        (if t.oom && not ended then some memory else none)
        true
        (oom_step s oom has_value tasks)
unfolding handle_oom
oom_step-Follows t true s false has_value tasks idle same = rw (never t.oom) idle
  where
    never : (b : Bool) → (b && false) ≡ false
    never b = ground arith
oom_step-Follows t true s true has_value tasks idle same = rw (never t.oom) (
    subst
      (λ (b : Bool).
        IsIdle t true (apply_effects (record s { oom = false }) (handle_oom b has_value tasks)))
      (sym idle.same_end) (IsIdle-oom t s idle))
  where
    never : (b : Bool) → (b && false) ≡ false
    never b = ground arith
oom_step-Follows t false s false has_value tasks idle same =
    subst
      (λ (b : Bool).
        Follows t false (if b && true then some memory else none) true
          (oom_step s false has_value tasks))
      (same refl) idle
oom_step-Follows t false s true has_value tasks idle same =
    subst
      (λ (b : Bool).
        Follows t false (if b && true then some memory else none) true
          (oom_step s true has_value tasks))
      (same refl)
      (subst
        (λ (b : Bool).
          IsNoticed memory true
            (apply_effects (record s { oom = false }) (handle_oom b has_value tasks)))
        (sym idle.same_end) (IsNoticed-kill (record s { oom = false }) memory _ idle.no_reason))

pub step-Follows :
    (t : Threads) (ended : Bool) (s : Execution) (e : Event)
    → IsIdle t ended s
    → Follows t (is_end e || ended) (event_reason t ended e) (signals s.has_pid e) (step s e)
unfolding step apply_effects set_termination_reason
step-Follows t ended s (time_pass measured now) idle =
    subst
      (λ (timer : Option Timer).
        Follows t ended (time_reason t.timer measured now) true (time_step s timer measured now))
      (sym idle.same_timer) (time_step-Follows t ended s t.timer measured now idle refl)
step-Follows t ended s (files_walked files) idle =
    subst
      (λ (limits : Option FileLimits).
        Follows t ended (files_reason t.files files) true (files_step s limits files))
      (sym idle.same_files) (files_step-Follows t ended s t.files files idle)
step-Follows t ended s (oom_event has_value tasks) idle =
    oom_step-Follows t ended s s.oom has_value tasks idle idle.same_oom
step-Follows t ended s stop idle = stopped s.has_pid
  where
    stopped :
        (pid : Bool) → IsNoticed killed pid (apply_effects s (set_reason killed ∷ stop_effects pid))
    stopped true = IsNoticed-kill s killed [] idle.no_reason
    stopped false = record {
      reason =
          apply_effects-reason (record s { reason = set_termination_reason s.reason killed }) killed
            [] (ap (λ o. set_termination_reason o killed) idle.no_reason);
      signalled = λ sends. absurd (ground arith);
    }
step-Follows t ended s pid_added idle = record {
  no_reason = idle.no_reason;
  same_timer = idle.same_timer;
  same_files = idle.same_files;
  same_end = idle.same_end;
  same_oom = idle.same_oom;
}
step-Follows t ended s pid_discarded idle = record {
  no_reason = idle.no_reason;
  same_timer = idle.same_timer;
  same_files = idle.same_files;
  same_end = idle.same_end;
  same_oom = idle.same_oom;
}
step-Follows t ended s tool_ended idle = record {
  no_reason = idle.no_reason;
  same_timer = idle.same_timer;
  same_files = idle.same_files;
  same_end = refl;
  same_oom = λ h. cc;
}
