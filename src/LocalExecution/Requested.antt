-- ===== src/LocalExecution/Requested.antt =====
-- What benchexec/localexecution.py asks of the executor: the check of the cgroups in
-- execute_benchmark, and the arguments that _Worker.execute passes to execute_run.
use benchexec.Prelude.{
  ℕ, Bool, true, false, not, ◌&&◌, ◌||◌, Option, none, some, List, [], ◌∷◌, ◌++◌, Text, codes,
}
use benchexec.Prelude.Int.{ℤ, pos}
use benchexec.Prelude.Outcome.{Outcome, require, ◌>>◌}
use benchexec.Model.Limits.{ResourceLimits}
use benchexec.Execution.Arguments.{Directory, RunArguments, Environment, is_given, critical_if}

-- The two sys.exit of execute_benchmark for its limits.
pub data Unprepared : Type 0 where
  cores_not_limited cgroups_missing : Unprepared

-- required_cgroups
abbrev pub required_cgroups : Environment → ResourceLimits → List Text
required_cgroups env l =
    critical_if (is_given l.cpu_cores && not (is_given env.cpus)) (codes "cpuset")
    ++ critical_if (is_given l.memory && not env.has_memory) (codes "memory")
    ++ critical_if (is_given l.cputime && not env.has_cpuacct) (codes "cpuacct")

-- Cgroups.handle_errors
abbrev pub no_errors : List Text → Bool
no_errors [] = true
no_errors (c ∷ required) = false

-- The checks before the run sets are executed, with config.coreset.
unfoldable pub prepare : Bool → Environment → ResourceLimits → Outcome Unprepared (Unit {0})
prepare coreset env l = do
  require (is_given l.cpu_cores || not coreset) cores_not_limited
  require (no_errors (required_cgroups env l)) cgroups_missing

-- What a worker knows beside the limits: its resources, what the tool says of the working directory,
-- and the options for the files.
pub record WorkerSettings : Type 0 where
  pub my_cpus : Option (List ℕ)
  pub my_memory_nodes : Option (List ℕ)
  pub working_dir : Option Directory
  pub files_count_limit : Option ℤ
  pub files_size_limit : Option ℤ

abbrev pub as_int : Option ℕ → Option ℤ
as_int none = none
as_int (some n) = some (pos n)

-- The arguments in _Worker.execute; there is no stdin, and there are no cgroup values.
abbrev pub run_arguments : ResourceLimits → WorkerSettings → RunArguments
run_arguments l w = record {
  stdin_is_pipe = false;
  hardtimelimit = as_int l.cputime_hard;
  softtimelimit = as_int l.cputime;
  walltimelimit = as_int l.walltime;
  cores = w.my_cpus;
  memlimit = as_int l.memory;
  memory_nodes = w.my_memory_nodes;
  working_dir = w.working_dir;
  cgroup_values = [];
  files_count_limit = w.files_count_limit;
  files_size_limit = w.files_size_limit;
}
