-- ===== src/Resources/Assignment.antt =====
-- _get_cpu_cores_per_run0 of benchexec/resources.py: the assignment of cores to runs.
use benchexec.Prelude.{
  ℕ, zero, suc, ◌*◌, ◌%◌, Bool, true, false, not, ◌&&◌, List, [], ◌∷◌, ◌++◌, if◌then◌else◌, ltb,
  leb, ◌==◌, length, take, get_elem?,
}
use benchexec.Prelude.Outcome.{Outcome, returned, ◌>>=◌, ◌>>◌, require}
use benchexec.Prelude.Dict.{member, without, nat_eq, get, assign}
use benchexec.Prelude.Sorting.{sorted, distinct_count}
use benchexec.Resources.Machine.{
  Failure, assertion_error, key_error, index_error, Machine, or_raise,
}
use benchexec.Resources.HyperThreading.{one_core_each}
use benchexec.Resources.Plan.{Plan, check_counts, make_plan}

-- if core not in cores: cores.extend(c for c in siblings_of_core[core] if c not in used_cores)
unfoldable pub add_core : Plan → List ℕ → List ℕ → ℕ → Outcome Failure (List ℕ)
unfolding member without get
add_core p used_cores cores core = if member core cores then returned cores else (do
  siblings ← or_raise key_error (get core p.siblings_of_core)
  returned (cores ++ without used_cores siblings))

-- The loop over the cores of a unit, which stops when there are enough.
unfoldable pub take_cores : Plan → List ℕ → List ℕ → List ℕ → Outcome Failure (List ℕ)
unfolding add_core
take_cores p used_cores cores [] = returned cores
take_cores p used_cores cores (core ∷ rest) = do
  grown ← add_core p used_cores cores core
  if leb p.core_limit (length grown) then returned grown else take_cores p used_cores grown rest

-- What the loop over the units of one run changes.
pub record Filling : Type 0 where
  pub cores_of_unit : List (ℕ × List ℕ)
  pub cores : List ℕ
  pub cores_with_siblings : List ℕ

unfoldable pub fill_unit : Plan → List ℕ → ℕ → Filling → Outcome Failure Filling
unfolding take_cores without get assign
fill_unit p used_cores unit_nr f = do
  require (ltb (length f.cores) p.core_limit) assertion_error
  unit ← or_raise index_error (get_elem? p.units unit_nr)
  available ← or_raise key_error (get unit f.cores_of_unit)
  grown ← take_cores p used_cores f.cores available
  returned (record {
    cores_of_unit = assign unit (without (take p.core_limit grown) available) f.cores_of_unit;
    cores = take p.core_limit grown;
    cores_with_siblings = f.cores_with_siblings ++ grown;
  })

-- for unit_nr in range(unit_nr, unit_nr + count)
unfoldable pub fill_units : Plan → List ℕ → ℕ → ℕ → Filling → Outcome Failure Filling
unfolding fill_unit
fill_units p used_cores zero unit_nr f = returned f
fill_units p used_cores (suc count) unit_nr f = do
  g ← fill_unit p used_cores unit_nr f
  fill_units p used_cores count (suc unit_nr) g

-- What the loop over the runs changes.
pub record Assigning : Type 0 where
  pub cores_of_unit : List (ℕ × List ℕ)
  pub used_cores : List ℕ
  pub result : List (List ℕ)

abbrev pub blocked : Plan → Filling → List ℕ
blocked p f = if p.need_ht then f.cores else f.cores_with_siblings

-- not used_cores.intersection(blocked_cores)
abbrev pub none_of : List ℕ → List ℕ → Bool
none_of used_cores [] = true
none_of used_cores (c ∷ cores) = not (member c used_cores) && none_of used_cores cores

unfoldable pub assign_run : Plan → ℕ → Assigning → Outcome Failure Assigning
unfolding fill_units member sorted
assign_run p run a = do
  f ←
      fill_units p a.used_cores p.units_per_run ((run * p.units_per_run) % p.unit_count)
        (record { cores_of_unit = a.cores_of_unit; cores = []; cores_with_siblings = [] })
  require (length f.cores == p.core_limit) assertion_error
  require (none_of a.used_cores (blocked p f)) assertion_error
  returned (record {
    cores_of_unit = f.cores_of_unit;
    used_cores = a.used_cores ++ blocked p f;
    result = a.result ++ sorted f.cores ∷ [];
  })

-- for run in range(run, run + count)
unfoldable pub assign_runs : Plan → ℕ → ℕ → Assigning → Outcome Failure Assigning
unfolding assign_run
assign_runs p zero run a = returned a
assign_runs p (suc count) run a = do b ← assign_run p run a; assign_runs p count (suc run) b

abbrev pub all_lengths : ℕ → List (List ℕ) → Bool
all_lengths n [] = true
all_lengths n (cores ∷ result) = length cores == n && all_lengths n result

-- itertools.chain(*result)
abbrev pub chain : List (List ℕ) → List ℕ
chain [] = []
chain (cores ∷ result) = cores ++ chain result

unfoldable pub assign_cores : Plan → List (ℕ × List ℕ) → Outcome Failure (List (List ℕ))
unfolding assign_runs distinct_count
assign_cores p cores_of_unit = do
  a ←
      assign_runs p p.num_of_threads 0
        (record { cores_of_unit = cores_of_unit; used_cores = []; result = [] })
  require (length a.result == p.num_of_threads) assertion_error
  require (all_lengths p.core_limit a.result) assertion_error
  require (distinct_count (chain a.result) == p.num_of_threads * p.core_limit) assertion_error
  returned a.result

abbrev pub usable_machine : Bool → Machine → Outcome Failure Machine
usable_machine true m = returned m
usable_machine false m = one_core_each m

-- _get_cpu_cores_per_run0
unfoldable pub get_cpu_cores_per_run0 : ℕ → ℕ → Bool → Machine → Outcome Failure (List (List ℕ))
unfolding one_core_each make_plan assign_cores
get_cpu_cores_per_run0 core_limit num_of_threads use_hyperthreading machine = do
  check_counts core_limit num_of_threads (length machine.all_cpus)
  m ← usable_machine use_hyperthreading machine
  p ← make_plan core_limit num_of_threads m
  assign_cores p m.cores_of_unit
