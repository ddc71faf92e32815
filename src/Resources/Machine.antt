-- ===== src/Resources/Machine.antt =====
-- The data of benchexec/resources.py. Cores, units and memory banks are numbers; a dict is an
-- association list in the order of insertion; a set is a list of which only the members count.
use benchexec.Prelude.{ℕ, ◌+◌, ◌-◌, ◌/◌, Option, none, some, List, if◌then◌else◌, ◌==◌}
use benchexec.Prelude.Outcome.{Outcome, returned, raised}

-- The calls of sys.exit, in their order, and the exceptions.
pub data Failure : Type 0 where
  exit_too_few_cores exit_too_many_runs exit_asymmetric_units exit_asymmetric_cores : Failure
  exit_unusable_siblings exit_split_and_shared exit_split_needed : Failure
  exit_no_cpu_information exit_too_little_memory exit_memory_shared : Failure
  assertion_error key_error value_error index_error stop_iteration zero_division : Failure

-- allCpus, cores_of_unit and siblings_of_core
pub record Machine : Type 0 where
  pub all_cpus : List ℕ
  pub cores_of_unit : List (ℕ × List ℕ)
  pub siblings_of_core : List (ℕ × List ℕ)

-- d[k], of what d.get(k) is
abbrev pub or_raise {ℓ} : {A : Type ℓ} → Failure → Option A → Outcome Failure A
or_raise e none = raised e
or_raise e (some a) = returned a

-- int(math.ceil(a / b))
abbrev pub ceil_div : ℕ → ℕ → Outcome Failure ℕ
ceil_div a b = if b == 0 then raised zero_division else returned ((a + (b - 1)) / b)
