-- ===== src/Resources/Tests.antt =====
-- Runs of the core assignment of benchexec/resources.py, and the theorems on a small machine.
use benchexec.Util.{parse_int_list}
use benchexec.Resources.Kernel.{
  Kernel, read_machine, get_cpu_cores_per_run, IsSelected, HasOneEach,
  get_cpu_cores_per_run-IsValid,
}
use benchexec.Resources.Memory.{get_memory_banks_per_run, check_banks, banks_per_run_iff}
use benchexec.Prelude.{
  codes, ltb, if◌then◌else◌, none, some, ◌↔◌, get_elem?, some, ℕ, ◌≡◌, refl, true, false, List, [],
  ◌∷◌, arith,
}
use benchexec.Prelude.Outcome.{returned, raised}
use benchexec.Prelude.Dict.{member, nat_eq, text_key, get, assign}
use benchexec.Resources.Machine.{Machine, exit_too_many_runs, exit_memory_shared}
use benchexec.Resources.Plan.{Plan, make_plan}
use benchexec.Resources.Assignment.{assign_cores, get_cpu_cores_per_run0}
use benchexec.Resources.Valid.{IsValidAssignment}
use benchexec.Resources.Separated.{IsSiblingTable, Separated, assign_cores-Separated}

-- Two package_table, each with one physical core of two virtual cores.
abbrev sibling_table : List (ℕ × List ℕ)
sibling_table = (0, 0 ∷ 1 ∷ []) ∷ (1, 0 ∷ 1 ∷ []) ∷ (2, 2 ∷ 3 ∷ []) ∷ (3, 2 ∷ 3 ∷ []) ∷ []

abbrev package_table : List (ℕ × List ℕ)
package_table = (0, 0 ∷ 1 ∷ []) ∷ (1, 2 ∷ 3 ∷ []) ∷ []

abbrev machine : Machine
machine = record {
  all_cpus = 0 ∷ 1 ∷ 2 ∷ 3 ∷ [];
  cores_of_unit = package_table;
  siblings_of_core = sibling_table;
}

test_assignments :
    (get_cpu_cores_per_run0 1 2 true machine ≡ returned ((0 ∷ []) ∷ (2 ∷ []) ∷ []))
    × (get_cpu_cores_per_run0 1 4 true machine
        ≡ returned ((0 ∷ []) ∷ (2 ∷ []) ∷ (1 ∷ []) ∷ (3 ∷ []) ∷ []))
    × (get_cpu_cores_per_run0 3 1 true machine ≡ returned ((0 ∷ 1 ∷ 2 ∷ []) ∷ []))
    × (get_cpu_cores_per_run0 2 1 false machine ≡ returned ((0 ∷ 2 ∷ []) ∷ []))
    × (get_cpu_cores_per_run0 2 3 true machine ≡ raised exit_too_many_runs)
unfolding get_cpu_cores_per_run0
test_assignments = (refl, refl, refl, refl, refl)

two_runs : get_cpu_cores_per_run0 1 2 true machine ≡ returned ((0 ∷ []) ∷ (2 ∷ []) ∷ [])
unfolding get_cpu_cores_per_run0
two_runs = refl

abbrev plan : Plan
plan = record {
  core_limit = 1;
  num_of_threads = 2;
  units = 0 ∷ 1 ∷ [];
  unit_count = 2;
  units_per_run = 1;
  need_ht = false;
  siblings_of_core = sibling_table;
}

test_make_plan : make_plan 1 2 machine ≡ returned plan
unfolding make_plan
test_make_plan = refl

plan_runs : assign_cores plan package_table ≡ returned ((0 ∷ []) ∷ (2 ∷ []) ∷ [])
unfolding assign_cores
plan_runs = refl

beside_of_beside :
    (k c s : ℕ) (xs ys : List ℕ)
    → get k sibling_table ≡ some xs
    → member c xs ≡ true
    → get c sibling_table ≡ some ys
    → member s ys ≡ true
    → member s xs ≡ true
unfolding get member
beside_of_beside k c s xs ys h m g n = ground arith

siblings-IsSiblingTable : IsSiblingTable sibling_table
siblings-IsSiblingTable = record {
  shared = λ k c s a b. record {
    siblings = a.siblings;
    listed = a.listed;
    beside = beside_of_beside k c s a.siblings b.siblings a.listed a.beside b.listed b.beside;
  };
}

assign_cores-Separated_example : Separated sibling_table [] ((0 ∷ []) ∷ (2 ∷ []) ∷ [])
assign_cores-Separated_example =
    assign_cores-Separated plan package_table ((0 ∷ []) ∷ (2 ∷ []) ∷ []) siblings-IsSiblingTable
      refl plan_runs

-- The same machine as the kernel shows it.
abbrev kernel : Kernel
kernel = record {
  cpus = codes "0-3";
  core_dir = λ core. codes "topology" ∷ (if ltb core 2 then codes "node0" else codes "node1") ∷ [];
  physical_package_id = λ core. if ltb core 2 then codes "0\n" else codes "1\n";
  thread_siblings_list = λ core. if ltb core 2 then codes "0-1\n" else codes "2-3\n";
}

test_read_machine : read_machine none kernel ≡ returned machine
unfolding read_machine
test_read_machine = refl

-- A kernel that knows no packages and no memory regions: one unit, with the number -1.
abbrev plain_kernel : Kernel
plain_kernel = record kernel { core_dir = λ core. []; physical_package_id = λ core. codes "-1\n" }

test_plain_kernel :
    get_cpu_cores_per_run 1 2 true plain_kernel none ≡ returned ((0 ∷ []) ∷ (2 ∷ []) ∷ [])
unfolding get_cpu_cores_per_run
test_plain_kernel = refl

kernel_runs : get_cpu_cores_per_run 1 1 false kernel (some (2 ∷ 3 ∷ [])) ≡ returned ((2 ∷ []) ∷ [])
unfolding get_cpu_cores_per_run
kernel_runs = refl

test_memory_banks :
    get_memory_banks_per_run
      (0 ∷ 1 ∷ [])
      (λ core. (if ltb core 2 then 0 else 1) ∷ [])
      true
      ((0 ∷ 2 ∷ []) ∷ (3 ∷ []) ∷ [])
    ≡ some ((0 ∷ 1 ∷ []) ∷ (1 ∷ []) ∷ [])
unfolding get_memory_banks_per_run
test_memory_banks = refl

test_check_banks :
    (check_banks 6 (λ bank. 10) [] ((0 ∷ []) ∷ (0 ∷ []) ∷ []) ≡ raised exit_memory_shared)
    × (check_banks 5 (λ bank. 10) [] ((0 ∷ []) ∷ (0 ∷ []) ∷ []) ≡ returned tt)
unfolding check_banks get assign
test_check_banks = (refl, refl)

get_cpu_cores_per_run-IsValid_example :
    (available : List ℕ) × (parse_int_list (codes "0-3") ≡ returned available)
    × IsValidAssignment 1 1 available ((2 ∷ []) ∷ [])
    × ((c : ℕ) → member c (2 ∷ []) ≡ true → IsSelected (some (2 ∷ 3 ∷ [])) c)
    × (false ≡ false → HasOneEach kernel (2 ∷ []))
get_cpu_cores_per_run-IsValid_example =
    get_cpu_cores_per_run-IsValid 1 1 false kernel (some (2 ∷ 3 ∷ [])) ((2 ∷ []) ∷ []) kernel_runs

banks_per_run_iff_example :
    (mems : List ℕ) × (get_elem? {A = List ℕ} ((0 ∷ 1 ∷ []) ∷ (1 ∷ []) ∷ []) 1 ≡ some mems)
    × ((m : ℕ)
        → (member m mems ≡ true) ↔ (
            (member m (0 ∷ 1 ∷ []) ≡ true)
            × ((core : ℕ) × (member core (3 ∷ []) ≡ true)
                × (member m ((if ltb core 2 then 0 else 1) ∷ []) ≡ true))))
banks_per_run_iff_example =
    banks_per_run_iff (0 ∷ 1 ∷ []) (λ core. (if ltb core 2 then 0 else 1) ∷ []) true
      ((0 ∷ 2 ∷ []) ∷ (3 ∷ []) ∷ []) ((0 ∷ 1 ∷ []) ∷ (1 ∷ []) ∷ []) 1 (3 ∷ []) test_memory_banks
      refl
