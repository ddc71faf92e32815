-- ===== src/Resources/Plan.antt =====
-- _get_cpu_cores_per_run0 of benchexec/resources.py: the checks, and the values computed from them.
-- The quotients of math.ceil are exact: numbers of cores are far below 2 ** 53.
use benchexec.Prelude.{
  ℕ, ◌+◌, ◌*◌, Bool, true, false, not, ◌&&◌, ◌||◌, List, [], ◌∷◌, if◌then◌else◌, ltb, leb, ◌==◌,
  length,
}
use benchexec.Prelude.Outcome.{Outcome, returned, raised, ◌>>=◌, ◌>>◌, require}
use benchexec.Prelude.Dict.{member, nat_eq, keys}
use benchexec.Prelude.Sorting.{sorted}
use benchexec.Resources.Machine.{
  Failure, exit_too_few_cores, exit_too_many_runs, exit_asymmetric_units, exit_asymmetric_cores,
  exit_unusable_siblings, exit_split_and_shared, exit_split_needed, assertion_error, stop_iteration,
  Machine, ceil_div,
}

-- len(next(iter(d.values())))
abbrev pub first_size : List (ℕ × List ℕ) → Outcome Failure ℕ
first_size [] = raised stop_iteration
first_size ((k, v) ∷ d) = returned (length v)

-- not any(len(v) != size for v in d.values())
abbrev pub all_sizes : ℕ → List (ℕ × List ℕ) → Bool
all_sizes size [] = true
all_sizes size ((k, v) ∷ d) = length v == size && all_sizes size d

-- set(xs).issubset(ys)
abbrev pub subset : List ℕ → List ℕ → Bool
subset [] ys = true
subset (x ∷ xs) ys = member x ys && subset xs ys

-- Every list of siblings consists of usable cores.
abbrev pub siblings_usable : List ℕ → List (ℕ × List ℕ) → Bool
siblings_usable all_cpus [] = true
siblings_usable all_cpus ((core, siblings) ∷ d) =
    subset siblings all_cpus && siblings_usable all_cpus d

-- What is computed before the assignment starts.
pub record Plan : Type 0 where
  pub core_limit : ℕ
  pub num_of_threads : ℕ
  pub units : List ℕ
  pub unit_count : ℕ
  pub units_per_run : ℕ
  pub need_ht : Bool
  pub siblings_of_core : List (ℕ × List ℕ)

abbrev pub check_counts : ℕ → ℕ → ℕ → Outcome Failure (Unit {0})
check_counts core_limit num_of_threads core_count = do
  require (not (ltb core_count core_limit)) exit_too_few_cores
  require (not (ltb core_count (core_limit * num_of_threads))) exit_too_many_runs

-- need_HT
abbrev pub needs_ht : ℕ → ℕ → ℕ → ℕ → ℕ → ℕ → ℕ → Outcome Failure Bool
needs_ht core_limit rounded num_of_threads units_per_run runs_per_unit unit_size cpu_count =
    if units_per_run == 1
    then (do
      require (leb (core_limit * runs_per_unit) unit_size) assertion_error
      returned (ltb unit_size (rounded * runs_per_unit)))
    else if ltb cpu_count (rounded * num_of_threads)
    then (do require (ltb unit_size (rounded * runs_per_unit)) assertion_error; returned true)
    else returned false

-- From `unit_size = ...` to the start of the assignment.
unfoldable pub make_plan : ℕ → ℕ → Machine → Outcome Failure Plan
unfolding member sorted
make_plan core_limit num_of_threads m = do
  unit_size ← first_size m.cores_of_unit
  require (all_sizes unit_size m.cores_of_unit) exit_asymmetric_units
  core_size ← first_size m.siblings_of_core
  require (all_sizes core_size m.siblings_of_core) exit_asymmetric_cores
  require (siblings_usable m.all_cpus m.siblings_of_core) exit_unusable_siblings
  let unit_count = length m.cores_of_unit
  full_cores ← ceil_div core_limit core_size
  let rounded = full_cores * core_size
  require (leb core_limit rounded && ltb rounded (core_limit + core_size)) assertion_error
  units_per_run ← ceil_div rounded unit_size
  require (not (ltb 1 units_per_run && ltb unit_count (units_per_run * num_of_threads)))
      exit_split_and_shared
  runs_per_unit ← ceil_div num_of_threads unit_count
  require (units_per_run == 1 || runs_per_unit == 1) assertion_error
  require (not (units_per_run == 1 && ltb unit_size (runs_per_unit * core_limit))) exit_split_needed
  need_ht ←
      needs_ht core_limit rounded num_of_threads units_per_run runs_per_unit unit_size
        (length m.all_cpus)
  returned (record {
    core_limit = core_limit;
    num_of_threads = num_of_threads;
    units = sorted (keys m.cores_of_unit);
    unit_count = unit_count;
    units_per_run = units_per_run;
    need_ht = need_ht;
    siblings_of_core = m.siblings_of_core;
  })
