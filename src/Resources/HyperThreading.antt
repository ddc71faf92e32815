-- ===== src/Resources/HyperThreading.antt =====
-- The part of _get_cpu_cores_per_run0 in benchexec/resources.py that leaves out the siblings of the
-- cores, so that each physical core is used through one of its cores only.
use benchexec.Prelude.{ℕ, Option, none, some, List, [], ◌∷◌, ◌++◌, if◌then◌else◌, ◌==◌}
use benchexec.Prelude.Outcome.{Outcome, returned, ◌>>=◌}
use benchexec.Prelude.Dict.{member, without, nat_eq, get, assign, remove}
use benchexec.Resources.Machine.{Failure, key_error, value_error, Machine, or_raise}

-- for core in cores: unit_of_core[core] = unit
abbrev pub set_unit : ℕ → List ℕ → List (ℕ × ℕ) → List (ℕ × ℕ)
set_unit unit [] d = d
set_unit unit (core ∷ cores) d = set_unit unit cores (assign core unit d)

-- The dict unit_of_core.
abbrev pub units_of_cores : List (ℕ × List ℕ) → List (ℕ × ℕ) → List (ℕ × ℕ)
units_of_cores [] d = d
units_of_cores ((unit, cores) ∷ rest) d = units_of_cores rest (set_unit unit cores d)

abbrev pub keep_first : ℕ → Option (List ℕ) → Option (List ℕ)
keep_first x none = none
keep_first x (some ys) = some (x ∷ ys)

-- xs.remove(a); none stands for the ValueError.
abbrev pub remove_first : ℕ → List ℕ → Option (List ℕ)
remove_first a [] = none
remove_first a (x ∷ xs) = if a == x then some xs else keep_first x (remove_first a xs)

-- What the loop changes: the machine, and unused_cores.
pub record Filtering : Type 0 where
  pub machine : Machine
  pub unused_cores : List ℕ

-- The branch of the loop for a core that is available.
abbrev pub keep_core : List (ℕ × ℕ) → Filtering → ℕ → List ℕ → Outcome Failure Filtering
keep_core unit_of_core f core siblings = do
  others ← or_raise value_error (remove_first core siblings)
  unit ← or_raise key_error (get core unit_of_core)
  cores ← or_raise key_error (get unit f.machine.cores_of_unit)
  returned (record f {
    machine = record {
      all_cpus = without others f.machine.all_cpus;
      cores_of_unit = assign unit (without others cores) f.machine.cores_of_unit;
      siblings_of_core = assign core (core ∷ []) f.machine.siblings_of_core;
    };
  })

abbrev pub filter_core : List (ℕ × ℕ) → Filtering → ℕ → List ℕ → Outcome Failure Filtering
filter_core unit_of_core f core siblings =
    if member core f.machine.all_cpus
    then keep_core unit_of_core f core siblings
    else returned (record f { unused_cores = f.unused_cores ++ core ∷ [] })

-- The loop over siblings_of_core.items(). An iteration changes the entry of its own core only.
abbrev pub filter_cores : List (ℕ × ℕ) → Filtering → List (ℕ × List ℕ) → Outcome Failure Filtering
filter_cores unit_of_core f [] = returned f
filter_cores unit_of_core f ((core, siblings) ∷ rest) = do
  g ← filter_core unit_of_core f core siblings
  filter_cores unit_of_core g rest

-- for core in unused_cores: siblings_of_core.pop(core)
abbrev pub pop_all : List ℕ → List (ℕ × List ℕ) → List (ℕ × List ℕ)
pop_all [] d = d
pop_all (core ∷ cores) d = pop_all cores (remove core d)

abbrev pub drop_unused : Filtering → Machine
drop_unused f = record f.machine {
  siblings_of_core = pop_all f.unused_cores f.machine.siblings_of_core;
}

-- `if not use_hyperthreading`
unfoldable pub one_core_each : Machine → Outcome Failure Machine
unfolding member without get assign remove
one_core_each m = do
  f ←
      filter_cores (units_of_cores m.cores_of_unit []) (record { machine = m; unused_cores = [] })
        m.siblings_of_core
  returned (drop_unused f)
