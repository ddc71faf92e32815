-- ===== src/Execution/Arguments.antt =====
-- The checks of the arguments in RunExecutor.execute_run of benchexec/runexecutor.py. What the
-- cgroups and the file system say is an Environment.
use benchexec.Prelude.{
  ℕ, suc, zero, ◌+◌, Bool, true, false, not, ◌&&◌, ◌||◌, Option, none, some, List, [], ◌∷◌, ◌++◌,
  Text, codes, if◌then◌else◌, ltb,
}
use benchexec.Prelude.Int.{ℤ, pos, negsuc}
use benchexec.Prelude.Outcome.{Outcome, returned, raised, ◌>>=◌, ◌>>◌, require}
use benchexec.Prelude.Dict.{member, nat_eq, text_key}

-- sys.exit with its messages.
pub data Refusal : Type 0 where
  illegal_stdin invalid_time_limit invalid_soft_limit soft_limit_larger invalid_wall_limit : Refusal
  no_core forbidden_cores invalid_memory_limit no_memory_node forbidden_nodes : Refusal
  no_working_dir not_a_directory permission_denied critical_cgroups : Refusal
  subsystem_not_enabled no_such_option invalid_files_count invalid_files_size : Refusal

-- What os.path and os.access say of the working directory.
pub record Directory : Type 0 where
  pub exists : Bool
  pub is_dir : Bool
  pub searchable : Bool

pub record RunArguments : Type 0 where
  pub stdin_is_pipe : Bool
  pub hardtimelimit : Option ℤ
  pub softtimelimit : Option ℤ
  pub walltimelimit : Option ℤ
  pub cores : Option (List ℕ)
  pub memlimit : Option ℤ
  pub memory_nodes : Option (List ℕ)
  pub working_dir : Option Directory
  pub cgroup_values : List (Text × Text)
  pub files_count_limit : Option ℤ
  pub files_size_limit : Option ℤ

-- The cgroups of the executor, with the cores and memory nodes that were read from cpuset.
pub record Environment : Type 0 where
  pub has_cpuacct : Bool
  pub has_memory : Bool
  pub cpus : Option (List ℕ)
  pub memory_nodes : Option (List ℕ)
  pub subsystems : List Text
  pub has_value : Text → Text → Bool

-- _WALLTIME_LIMIT_DEFAULT_OVERHEAD
abbrev pub walltime_limit_default_overhead : ℕ
walltime_limit_default_overhead = 30

abbrev pub positive : Refusal → Option ℤ → Outcome Refusal (Option ℕ)
positive refusal none = returned none
positive refusal (some (pos (suc n))) = returned (some (suc n))
positive refusal (some (pos zero)) = raised refusal
positive refusal (some (negsuc n)) = raised refusal

abbrev pub not_negative : Refusal → Option ℤ → Outcome Refusal (Option ℕ)
not_negative refusal none = returned none
not_negative refusal (some (pos n)) = returned (some n)
not_negative refusal (some (negsuc n)) = raised refusal

-- softtimelimit > hardtimelimit, where both are given
abbrev pub soft_is_larger : Option ℕ → Option ℕ → Bool
soft_is_larger (some hard) (some soft) = ltb hard soft
soft_is_larger _ _ = false

abbrev pub default_walltime : Option ℕ → Option ℕ → Option ℕ
default_walltime (some hard) soft = some (hard + walltime_limit_default_overhead)
default_walltime none (some soft) = some (soft + walltime_limit_default_overhead)
default_walltime none none = none

abbrev pub or_default : Option ℕ → Option ℕ → Option ℕ
or_default (some wall) default = some wall
or_default none default = default

pub record TimeLimits : Type 0 where
  pub hard : Option ℕ
  pub soft : Option ℕ
  pub wall : Option ℕ

unfoldable pub check_times : RunArguments → Outcome Refusal TimeLimits
check_times a = do
  hard ← positive invalid_time_limit a.hardtimelimit
  soft ← positive invalid_soft_limit a.softtimelimit
  require (not (soft_is_larger hard soft)) soft_limit_larger
  wall ← positive invalid_wall_limit a.walltimelimit
  returned
      (record { hard = hard; soft = soft; wall = or_default wall (default_walltime hard soft) })

abbrev pub is_given {ℓ} : {A : Type ℓ} → Option A → Bool
is_given none = false
is_given (some a) = true

-- critical_cgroups.add(...)
abbrev pub critical_if : Bool → Text → List Text
critical_if b subsystem = if b then subsystem ∷ [] else []

-- set(items).issubset(allowed)
abbrev pub is_subset : List ℕ → List ℕ → Bool
is_subset [] allowed = true
is_subset (x ∷ items) allowed = member x allowed && is_subset items allowed

-- The cores, or the memory nodes: the result is the list of critical cgroups.
abbrev pub check_items :
    Refusal → Refusal → Option (List ℕ) → Option (List ℕ) → Outcome Refusal (List Text)
check_items empty forbidden allowed none = returned []
check_items empty forbidden none (some items) = returned (codes "cpuset" ∷ [])
check_items empty forbidden (some allowed) (some []) = raised empty
check_items empty forbidden (some allowed) (some (x ∷ items)) = do
  require (is_subset (x ∷ items) allowed) forbidden
  returned []

abbrev pub check_directory : Option Directory → Outcome Refusal (Unit {0})
check_directory none = returned tt
check_directory (some d) = do
  require d.exists no_working_dir
  require d.is_dir not_a_directory
  require d.searchable permission_denied

-- Cgroups.handle_errors, as far as it says whether the program ends.
abbrev pub handle_errors : List Text → Outcome Refusal (Unit {0})
handle_errors [] = returned tt
handle_errors (c ∷ critical) = raised critical_cgroups

abbrev pub check_cgroup_values : Environment → List (Text × Text) → Outcome Refusal (Unit {0})
check_cgroup_values env [] = returned tt
check_cgroup_values env ((subsystem, option) ∷ rest) = do
  require (member subsystem env.subsystems) subsystem_not_enabled
  require (env.has_value subsystem option) no_such_option
  check_cgroup_values env rest

-- The arguments of _execute that the checks may change, or that they read.
pub record ExecutionLimits : Type 0 where
  pub times : TimeLimits
  pub cores : Option (List ℕ)
  pub memlimit : Option ℕ
  pub files_count_limit : Option ℕ
  pub files_size_limit : Option ℕ

abbrev pub cpuacct_missing : Environment → TimeLimits → Bool
cpuacct_missing env t = (is_given t.hard || is_given t.soft) && not env.has_cpuacct

-- execute_run, up to the call of _execute
unfoldable pub execute_run : Environment → RunArguments → Outcome Refusal ExecutionLimits
unfolding check_times member
execute_run env a = do
  require (not a.stdin_is_pipe) illegal_stdin
  times ← check_times a
  core_cgroups ← check_items no_core forbidden_cores env.cpus a.cores
  memlimit ← positive invalid_memory_limit a.memlimit
  node_cgroups ← check_items no_memory_node forbidden_nodes env.memory_nodes a.memory_nodes
  check_directory a.working_dir
  handle_errors (
      critical_if (cpuacct_missing env times) (codes "cpuacct")
      ++ core_cgroups
      ++ critical_if (is_given memlimit && not env.has_memory) (codes "memory")
      ++ node_cgroups)
  check_cgroup_values env a.cgroup_values
  files_count_limit ← not_negative invalid_files_count a.files_count_limit
  files_size_limit ← not_negative invalid_files_size a.files_size_limit
  returned (record {
    times = times;
    cores = a.cores;
    memlimit = memlimit;
    files_count_limit = files_count_limit;
    files_size_limit = files_size_limit;
  })
