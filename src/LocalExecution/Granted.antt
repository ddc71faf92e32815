-- ===== src/LocalExecution/Granted.antt =====
-- The executor of benchexec/runexecutor.py accepts what benchexec/localexecution.py asks of it for the
-- limits that benchexec/model.py has read.
use benchexec.Prelude.{ℕ, ◌≡◌, Option, none, some}
use benchexec.Prelude.Int.{ℤ, pos, negsuc}
use benchexec.Prelude.Outcome.{returned}
use benchexec.Model.Limits.{ResourceLimits}
use benchexec.Execution.Arguments.{
  Environment, ExecutionLimits, or_default, default_walltime, check_directory,
}
use benchexec.Execution.Accepted.{AreAllowed}
use benchexec.LocalExecution.Requested.{WorkerSettings}

-- A limit for the files is not negative.
abbrev pub IsNotNegative : Option ℤ → Type 0
IsNotNegative none = Unit {0}
IsNotNegative (some (pos n)) = Unit {0}
IsNotNegative (some (negsuc n)) = ⊥

-- The resources of a worker are available, and its working directory can be used.
pub record IsReady (env : Environment) (w : WorkerSettings) : Type 0 where
  pub cores : AreAllowed env.cpus w.my_cpus
  pub nodes : AreAllowed env.memory_nodes w.my_memory_nodes
  pub directory : check_directory w.working_dir ≡ returned tt
  pub files_count : IsNotNegative w.files_count_limit
  pub files_size : IsNotNegative w.files_size_limit

-- The limits of the executor.
abbrev limits_for : ResourceLimits → WorkerSettings → Option ℕ → Option ℕ → ExecutionLimits
limits_for l w count size = record {
  times = record {
    hard = l.cputime_hard;
    soft = l.cputime;
    wall = or_default l.walltime (default_walltime l.cputime_hard l.cputime);
  };
  cores = w.my_cpus;
  memlimit = l.memory;
  files_count_limit = count;
  files_size_limit = size;
}
