-- ===== src/Execution/Accepted.antt =====
-- What holds of the arguments that RunExecutor.execute_run of benchexec/runexecutor.py accepts.
use benchexec.Prelude.{
  ℕ, suc, zero, ◌≤◌, ◌≡◌, refl, subst, Bool, true, false, not, ◌&&◌, ◌||◌, Option, none, some, List,
  [], ◌∷◌, ◌++◌, Text, codes, arith,
}
use benchexec.Prelude.Int.{ℤ, pos, negsuc}
use benchexec.Prelude.Outcome.{
  Outcome, returned, >>=-eq-returned, >>-eq-returned, returned-injective,
}
use benchexec.Prelude.Dict.{nat_eq, text_key}
use benchexec.Execution.Arguments.{
  invalid_files_size, invalid_files_count, not_negative, Refusal, no_core, forbidden_cores,
  no_memory_node, forbidden_nodes, illegal_stdin, invalid_time_limit, invalid_soft_limit,
  soft_limit_larger, invalid_wall_limit, invalid_memory_limit, RunArguments, Environment, positive,
  soft_is_larger, default_walltime, or_default, TimeLimits, check_times, is_given, critical_if,
  is_subset, check_items, check_directory, handle_errors, check_cgroup_values, ExecutionLimits,
  cpuacct_missing, execute_run,
}

-- A limit that is given is positive.
abbrev pub IsPositive : Option ℕ → Type 0
IsPositive none = Unit {0}
IsPositive (some n) = 1 ≤ n

positive-IsPositive :
    (refusal : Refusal) (given : Option ℤ) (limit : Option ℕ)
    → positive refusal given ≡ returned limit
    → IsPositive limit
positive-IsPositive refusal none limit h = subst IsPositive (returned-injective h) tt
positive-IsPositive refusal (some (pos (suc n))) limit h =
    subst IsPositive (returned-injective h) (omega arith)
positive-IsPositive refusal (some (pos zero)) limit h = cc
positive-IsPositive refusal (some (negsuc n)) limit h = cc

-- The soft limit is at most the hard one, where both are given.
abbrev pub IsOrdered : Option ℕ → Option ℕ → Type 0
IsOrdered (some hard) (some soft) = soft ≤ hard
IsOrdered (some hard) none = Unit {0}
IsOrdered none soft = Unit {0}

soft_limit-IsOrdered :
    (hard soft : Option ℕ) → not (soft_is_larger hard soft) ≡ true → IsOrdered hard soft
soft_limit-IsOrdered (some hard) (some soft) h = ground arith
soft_limit-IsOrdered (some hard) none h = tt
soft_limit-IsOrdered none (some soft) h = tt
soft_limit-IsOrdered none none h = tt

abbrev pub has_cpu_limit : TimeLimits → Bool
has_cpu_limit t = is_given t.hard || is_given t.soft

pub record AreUsable (t : TimeLimits) : Type 0 where
  pub hard_positive : IsPositive t.hard
  pub soft_positive : IsPositive t.soft
  pub wall_positive : IsPositive t.wall
  pub ordered : IsOrdered t.hard t.soft
  pub wall_given : has_cpu_limit t ≡ true → is_given t.wall ≡ true

wall_limit-AreUsable :
    (hard soft wall : Option ℕ)
    → IsPositive hard
    → IsPositive soft
    → IsPositive wall
    → IsOrdered hard soft
    → AreUsable
        (record { hard = hard; soft = soft; wall = or_default wall (default_walltime hard soft) })
wall_limit-AreUsable hard soft (some w) p q r ordered = record {
  hard_positive = p;
  soft_positive = q;
  wall_positive = r;
  ordered = ordered;
  wall_given = λ h. refl;
}
wall_limit-AreUsable (some hard) soft none p q r ordered = record {
  hard_positive = p;
  soft_positive = q;
  wall_positive = omega arith;
  ordered = ordered;
  wall_given = λ h. refl;
}
wall_limit-AreUsable none (some soft) none p q r ordered = record {
  hard_positive = p;
  soft_positive = q;
  wall_positive = omega arith;
  ordered = ordered;
  wall_given = λ h. refl;
}
wall_limit-AreUsable none none none p q r ordered = record {
  hard_positive = p;
  soft_positive = q;
  wall_positive = tt;
  ordered = ordered;
  wall_given = λ h. cc;
}

check_times-AreUsable :
    (a : RunArguments) (t : TimeLimits) → check_times a ≡ returned t → AreUsable t
unfolding check_times
check_times-AreUsable a t h =
    let (hard, p, h1) = >>=-eq-returned (positive invalid_time_limit a.hardtimelimit) _ h in
    let (soft, q, h2) = >>=-eq-returned (positive invalid_soft_limit a.softtimelimit) _ h1 in
    let (ordered, h3) = >>-eq-returned (not (soft_is_larger hard soft)) soft_limit_larger _ h2 in
    let (wall, r, h4) = >>=-eq-returned (positive invalid_wall_limit a.walltimelimit) _ h3 in
    subst AreUsable (returned-injective h4) (
      wall_limit-AreUsable hard soft wall (positive-IsPositive _ _ hard p)
        (positive-IsPositive _ _ soft q) (positive-IsPositive _ _ wall r)
        (soft_limit-IsOrdered hard soft ordered))

-- Cores that are given are some of the allowed ones, at least one.
abbrev pub AreAllowed : Option (List ℕ) → Option (List ℕ) → Type 0
AreAllowed allowed none = Unit {0}
AreAllowed none (some items) = ⊥
AreAllowed (some allowed) (some []) = ⊥
AreAllowed (some allowed) (some (x ∷ items)) = is_subset (x ∷ items) allowed ≡ true

check_items-AreAllowed :
    (empty forbidden : Refusal) (allowed items : Option (List ℕ))
    → check_items empty forbidden allowed items ≡ returned []
    → AreAllowed allowed items
check_items-AreAllowed empty forbidden allowed none h = tt
check_items-AreAllowed empty forbidden none (some items) h = absurd (cons≢nil h)
  where
    cons≢nil :
        ◌≡◌ {A = Outcome Refusal (List Text)} (returned (codes "cpuset" ∷ [])) (returned []) → ⊥
    cons≢nil e = cc (returned-injective e)
check_items-AreAllowed empty forbidden (some allowed) (some []) h = cc
check_items-AreAllowed empty forbidden (some allowed) (some (x ∷ items)) h =
    (>>-eq-returned (is_subset (x ∷ items) allowed) forbidden _ h).0

-- No cgroup is critical.
none_critical :
    (cpuacct memory : Bool) (cores nodes : List Text)
    → handle_errors (
        critical_if cpuacct (codes "cpuacct")
        ++ cores
        ++ critical_if memory (codes "memory")
        ++ nodes)
      ≡ returned tt
    → (cpuacct ≡ false) × (memory ≡ false) × (cores ≡ []) × (nodes ≡ [])
none_critical true memory cores nodes h = cc
none_critical false memory (c ∷ cores) nodes h = cc
none_critical false true [] nodes h = cc
none_critical false false [] (c ∷ nodes) h = cc
none_critical false false [] [] h = (refl, refl, refl, refl)

-- The limits can be implemented in the environment.
pub record AreAccepted (env : Environment) (l : ExecutionLimits) : Type 0 where
  pub usable : AreUsable l.times
  pub cpuacct : has_cpu_limit l.times ≡ true → env.has_cpuacct ≡ true
  pub allowed : AreAllowed env.cpus l.cores
  pub memory_positive : IsPositive l.memlimit
  pub memory : is_given l.memlimit ≡ true → env.has_memory ≡ true

has_of_critical : (given has : Bool) → (given && not has) ≡ false → given ≡ true → has ≡ true
has_of_critical given has h g = ground arith

pub execute_run-AreAccepted :
    (env : Environment) (a : RunArguments) (l : ExecutionLimits)
    → execute_run env a ≡ returned l
    → AreAccepted env l
unfolding execute_run
execute_run-AreAccepted env a l h =
    let (_, h1) = >>-eq-returned (not a.stdin_is_pipe) illegal_stdin _ h in
    let (times, t, h2) = >>=-eq-returned (check_times a) _ h1 in
    let (cores, c, h3) =
      >>=-eq-returned (check_items no_core forbidden_cores env.cpus a.cores) _ h2 in
    let (mem, m, h4) = >>=-eq-returned (positive invalid_memory_limit a.memlimit) _ h3 in
    let (nodes, n, h5) =
      >>=-eq-returned (check_items no_memory_node forbidden_nodes env.memory_nodes a.memory_nodes) _
        h4 in
    let (_, d, h6) = >>=-eq-returned (check_directory a.working_dir) _ h5 in
    let (_, critical, h7) =
      >>=-eq-returned
        (handle_errors (
          critical_if (cpuacct_missing env times) (codes "cpuacct")
          ++ cores
          ++ critical_if (is_given mem && not env.has_memory) (codes "memory")
          ++ nodes))
        _ h6 in
    let (_, v, h8) = >>=-eq-returned (check_cgroup_values env a.cgroup_values) _ h7 in
    let (count, x, h9) =
      >>=-eq-returned (not_negative invalid_files_count a.files_count_limit) _ h8 in
    let (size, y, h10) =
      >>=-eq-returned (not_negative invalid_files_size a.files_size_limit) _ h9 in
    let (no_cpu, no_memory, no_cores, no_nodes) =
      none_critical (cpuacct_missing env times) (is_given mem && not env.has_memory) cores nodes
        critical in
    subst (AreAccepted env) (returned-injective h10) (record {
      usable = check_times-AreUsable a times t;
      cpuacct = has_of_critical (has_cpu_limit times) env.has_cpuacct no_cpu;
      allowed = check_items-AreAllowed no_core forbidden_cores env.cpus a.cores (rw no_cores at c);
      memory_positive = positive-IsPositive _ _ mem m;
      memory = has_of_critical (is_given mem) env.has_memory no_memory;
    })
