-- ===== src/LocalExecution/Tests.antt =====
-- Workers on a few runs, the limits of a benchmark, and the theorems for them.
use benchexec.Prelude.{ℕ, ◌≡◌, ◌≤◌, refl, false, List, [], ◌∷◌, ◌+◌, ◌*◌, ◌⊎◌, arith, length}
use benchexec.LocalExecution.{
  idle, executing, ended, advance, Pool, Step, work, Steps, here, next, start_pool, min,
}
use benchexec.LocalExecution.Finished.{count, AllEnded, workers_finish}
use benchexec.LocalExecution.Ending.{workers_end}
use benchexec.Prelude.{true, some, none, codes}
use benchexec.Prelude.Int.{pos}
use benchexec.Prelude.Outcome.{returned, raised}
use benchexec.Model.Limits.{ResourceLimits, LimitTexts}
use benchexec.Execution.Arguments.{Environment}
use benchexec.LocalExecution.Requested.{prepare, cores_not_limited, cgroups_missing, WorkerSettings}

abbrev one_run : List ℕ
one_run = 7 ∷ []

test_start : (start_pool 2 (4 ∷ 5 ∷ 6 ∷ [])).workers ≡ idle ∷ idle ∷ []
unfolding start_pool
test_start = refl

-- The only worker takes the run, finishes it, and ends.
abbrev taken : Pool
taken = record {
  queue = [];
  workers = executing 7 ∷ [];
  finished = [];
  unfinished = 1;
  stopped = false;
}

abbrev finished_once : Pool
finished_once = record {
  queue = [];
  workers = idle ∷ [];
  finished = 7 ∷ [];
  unfinished = 0;
  stopped = false;
}

abbrev all_done : Pool
all_done = record {
  queue = [];
  workers = ended ∷ [];
  finished = 7 ∷ [];
  unfinished = 0;
  stopped = false;
}

three-Steps : Steps (start_pool 2 one_run) 3 all_done
unfolding start_pool advance
three-Steps =
    let first : Steps (start_pool 2 one_run) 1 taken =
      next here (work [] [] idle refl (λ h. cc) refl) in
    let second : Steps (start_pool 2 one_run) 2 finished_once =
      next first (work [] [] (executing 7) refl (λ h. cc) refl) in
    next second (work [] [] idle refl (λ h. cc) refl)

workers_finish_example :
    ((run : ℕ) → count run all_done.finished ≤ count run one_run)
    × (AllEnded all_done.workers
        → all_done.stopped ≡ false
        → (all_done.unfinished ≡ 0) × ((run : ℕ) → count run all_done.finished ≡ count run one_run))
workers_finish_example = workers_finish 2 one_run 3 all_done (omega arith) three-Steps

workers_end_example :
    (3 ≤ 2 * length one_run + min 2 (length one_run) + 1)
    × (AllEnded all_done.workers ⊎ ((u : Pool) × Step all_done u))
workers_end_example = workers_end 2 one_run 3 all_done three-Steps

-- A benchmark with a limit on the CPU time and on the memory, and a worker with two cores.
abbrev no_texts : LimitTexts
no_texts = record {
  timelimit = none;
  hardtimelimit = none;
  walltimelimit = none;
  memorylimit = none;
  corelimit = none;
}

abbrev root_texts : LimitTexts
root_texts = record {
  timelimit = some (codes "90 s");
  hardtimelimit = none;
  walltimelimit = none;
  memorylimit = some (codes "2 GB");
  corelimit = some (codes "2");
}

abbrev loaded : ResourceLimits
loaded = record {
  cputime = some 90;
  cputime_hard = some 90;
  walltime = none;
  memory = some 2000000000;
  cpu_cores = some 2;
}

abbrev host : Environment
host = record {
  has_cpuacct = true;
  has_memory = true;
  cpus = some (0 ∷ 1 ∷ 2 ∷ 3 ∷ []);
  memory_nodes = some (0 ∷ []);
  subsystems = [];
  has_value = λ s o. false;
}

abbrev worker_settings : WorkerSettings
worker_settings = record {
  my_cpus = some (2 ∷ 3 ∷ []);
  my_memory_nodes = some (0 ∷ []);
  working_dir = none;
  files_count_limit = none;
  files_size_limit = some (pos 1000);
}

test_prepare :
    (prepare true host loaded ≡ returned tt)
    × (prepare true host (record loaded { cpu_cores = none }) ≡ raised cores_not_limited)
    × (prepare false (record host { has_memory = false }) loaded ≡ raised cgroups_missing)
unfolding prepare
test_prepare = (refl, refl, refl)
