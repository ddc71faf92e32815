-- ===== src/Resources/Kernel.antt =====
-- get_cpu_cores_per_run of benchexec/resources.py: how the machine is read. What the kernel and the
-- cgroups say is an argument.
use benchexec.Prelude.{
  ◌⊎◌, inl, inr, false, ==_iff, Bool-cases, ◌∙◌, ℕ, ◌+◌, ◌-◌, ◌≡◌, ap, sym, subst, Bool, true,
  Option, none, some, List, [], ◌∷◌, ◌++◌, if◌then◌else◌, leb, ◌==◌, length, arith, Text, codes,
  starts_with, drop,
}
use benchexec.Prelude.Outcome.{
  >>-eq-returned, Outcome, returned, raised, ◌>>=◌, ◌>>◌, require, >>=-eq-returned,
  returned-injective,
}
use benchexec.Prelude.Dict.{member, member-within, within, without, nat_eq, get, get-assign, assign}
use benchexec.Prelude.Int.{ℤ, pos_part, neg_part}
use benchexec.Prelude.Numerals.{int}
use benchexec.Util.{ValueError, value_error, parse_int_list}
use benchexec.Resources.Machine.{Failure, exit_no_cpu_information, Machine}
use benchexec.Resources.Assignment.{get_cpu_cores_per_run0, chain}
use benchexec.Resources.Valid.{
  IsValidAssignment, get_cpu_cores_per_run0-IsValid, get_cpu_cores_per_run0-AreAlone,
}

-- The files that are read: the cpus of the cgroup, and of each core the entries of its directory,
-- its physical_package_id and its thread_siblings_list.
pub record Kernel : Type 0 where
  pub cpus : Text
  pub core_dir : ℕ → List Text
  pub physical_package_id : ℕ → Text
  pub thread_siblings_list : ℕ → Text

-- The try block: a ValueError ends the program.
abbrev pub or_exit {ℓ} : {A : Type ℓ} → Outcome ValueError A → Outcome Failure A
or_exit (returned a) = returned a
or_exit (raised e) = raised exit_no_cpu_information

-- int(text)
abbrev pub integer : Text → Outcome ValueError ℤ
integer text = elim (int text) [ none ↦ raised value_error | some z ↦ returned z ]

-- _get_memory_banks_listed_in_dir, of the entries of the directory
unfoldable pub memory_banks_listed : List Text → Outcome ValueError (List ℤ)
unfolding int
memory_banks_listed [] = returned []
memory_banks_listed (entry ∷ entries) =
    if starts_with entry (codes "node")
    then (do
      bank ← integer (drop 4 entry)
      banks ← memory_banks_listed entries
      returned (bank ∷ banks))
    else memory_banks_listed entries

-- The cores that the user selects; all have to be there.
unfoldable pub select_cores : Option (List ℕ) → List ℕ → Outcome Failure (List ℕ)
unfolding without within
select_cores none all_cpus = returned all_cpus
select_cores (some []) all_cpus = returned all_cpus
select_cores (some (c ∷ core_set)) all_cpus = do
  require (length (without all_cpus (c ∷ core_set)) == 0) exit_no_cpu_information
  returned (within (c ∷ core_set) all_cpus)

abbrev pub entries : Option (List ℕ) → List ℕ
entries none = []
entries (some cores) = cores

-- d[k].append(core), of a defaultdict(list)
unfoldable pub append_to : ℕ → ℕ → List (ℕ × List ℕ) → List (ℕ × List ℕ)
unfolding get assign
append_to k core d = assign k (entries (get k d) ++ core ∷ []) d

-- How far the numbers go below zero.
abbrev pub below_zero : List ℤ → ℕ
below_zero [] = 0
below_zero (z ∷ numbers) =
    let rest = below_zero numbers in if leb (neg_part z) rest then rest else neg_part z

-- The units of cores are only compared and sorted, so their numbers, which may be negative, are moved
-- up by how far they go below zero.
abbrev pub group_cores : ℕ → List (ℕ × List ℕ) → List ℕ → List ℤ → List (ℕ × List ℕ)
group_cores offset d [] numbers = d
group_cores offset d (core ∷ cores) [] = d
group_cores offset d (core ∷ cores) (z ∷ numbers) =
    group_cores offset (append_to (offset + pos_part z - neg_part z) core d) cores numbers

abbrev pub group_by_number : List ℕ → List ℤ → List (ℕ × List ℕ)
group_by_number cores numbers = group_cores (below_zero numbers) [] cores numbers

abbrev pub cons_number : ℤ → Option (List ℤ) → Option (List ℤ)
cons_number z none = none
cons_number z (some numbers) = some (z ∷ numbers)

-- The first memory region of each core; none as soon as a core has no memory region.
abbrev pub region_numbers : Kernel → List ℕ → Outcome Failure (Option (List ℤ))
region_numbers kernel [] = returned (some [])
region_numbers kernel (core ∷ cores) = do
  regions ← or_exit (memory_banks_listed (kernel.core_dir core))
  elim regions [
    | [] ↦ returned none
    | region ∷ _ ↦ (do numbers ← region_numbers kernel cores; returned (cons_number region numbers))
  ]

abbrev pub grouped : List ℕ → Option (List ℤ) → List (ℕ × List ℕ)
grouped cores none = []
grouped cores (some numbers) = group_by_number cores numbers

-- cores_of_memory_region
abbrev pub memory_regions : Kernel → List ℕ → Outcome Failure (List (ℕ × List ℕ))
memory_regions kernel cores = do
  numbers ← region_numbers kernel cores
  returned (grouped cores numbers)

-- get_cpu_package_for_core, of each core
abbrev pub package_numbers : Kernel → List ℕ → Outcome Failure (List ℤ)
package_numbers kernel [] = returned []
package_numbers kernel (core ∷ cores) = do
  socket ← or_exit (integer (kernel.physical_package_id core))
  numbers ← package_numbers kernel cores
  returned (socket ∷ numbers)

-- cores_of_package
abbrev pub packages : Kernel → List ℕ → Outcome Failure (List (ℕ × List ℕ))
packages kernel cores = do
  numbers ← package_numbers kernel cores
  returned (group_by_number cores numbers)

-- siblings_of_core
abbrev pub siblings : Kernel → List (ℕ × List ℕ) → List ℕ → Outcome Failure (List (ℕ × List ℕ))
siblings kernel d [] = returned d
siblings kernel d (core ∷ cores) = do
  others ← or_exit (parse_int_list (kernel.thread_siblings_list core))
  siblings kernel (assign core others d) cores

unfoldable pub read_machine : Option (List ℕ) → Kernel → Outcome Failure Machine
unfolding parse_int_list select_cores memory_banks_listed append_to int
read_machine core_set kernel = do
  available ← or_exit (parse_int_list kernel.cpus)
  all_cpus ← select_cores core_set available
  regions ← memory_regions kernel all_cpus
  sockets ← packages kernel all_cpus
  siblings_of_core ← siblings kernel [] all_cpus
  returned (record {
    all_cpus = all_cpus;
    cores_of_unit = if leb (length sockets) (length regions) then regions else sockets;
    siblings_of_core = siblings_of_core;
  })

unfoldable pub get_cpu_cores_per_run :
    ℕ → ℕ → Bool → Kernel → Option (List ℕ) → Outcome Failure (List (List ℕ))
unfolding read_machine get_cpu_cores_per_run0
get_cpu_cores_per_run core_limit num_of_threads use_hyperthreading kernel core_set = do
  machine ← read_machine core_set kernel
  get_cpu_cores_per_run0 core_limit num_of_threads use_hyperthreading machine

or_exit-eq_returned {ℓ} :
    {A : Type ℓ} (o : Outcome ValueError A) {a : A} → or_exit o ≡ returned a → o ≡ returned a
or_exit-eq_returned (returned b) h = ap returned (returned-injective h)
or_exit-eq_returned (raised e) h = cc

-- Whether the user's selection has the core; no selection, or an empty one, has all.
abbrev pub IsSelected : Option (List ℕ) → ℕ → Type 0
IsSelected none c = Unit
IsSelected (some []) c = Unit
IsSelected (some (x ∷ core_set)) c = member c (x ∷ core_set) ≡ true

select_cores-IsSelected :
    (core_set : Option (List ℕ)) (all_cpus selected : List ℕ) (c : ℕ)
    → select_cores core_set all_cpus ≡ returned selected
    → member c selected ≡ true
    → (member c all_cpus ≡ true) × IsSelected core_set c
unfolding select_cores
select_cores-IsSelected none all_cpus selected c e m =
    (subst (λ (l : List ℕ). member c l ≡ true) (sym (returned-injective e)) m, tt)
select_cores-IsSelected (some []) all_cpus selected c e m =
    (subst (λ (l : List ℕ). member c l ≡ true) (sym (returned-injective e)) m, tt)
select_cores-IsSelected (some (x ∷ core_set)) all_cpus selected c e m =
    let (known, e1) =
      >>-eq-returned (length (without all_cpus (x ∷ core_set)) == 0) exit_no_cpu_information _ e in
    let both : member c (within (x ∷ core_set) all_cpus) ≡ true =
      subst (λ (l : List ℕ). member c l ≡ true) (sym (returned-injective e1)) m in
    (
      ground (arith, member-within c (x ∷ core_set) all_cpus),
      ground (arith, member-within c (x ∷ core_set) all_cpus),
    )

-- The siblings that are read of a core.
siblings-read :
    (kernel : Kernel) (d t : List (ℕ × List ℕ)) (cores : List ℕ) (c : ℕ) (found : List ℕ)
    → siblings kernel d cores ≡ returned t
    → parse_int_list (kernel.thread_siblings_list c) ≡ returned found
    → (member c cores ≡ true) ⊎ (get c d ≡ some found)
    → get c t ≡ some found
unfolding member
siblings-read kernel d t [] c found e p (inl h) = cc
siblings-read kernel d t [] c found e p (inr h) =
    subst (λ (x : List (ℕ × List ℕ)). get c x ≡ some found) (returned-injective e) h
siblings-read kernel d t (core ∷ cores) c found e p h =
    let (others, a, e1) =
      >>=-eq-returned (or_exit (parse_int_list (kernel.thread_siblings_list core))) _ e in
    let here = get-assign core c others d in
    siblings-read kernel (assign core others d) t cores c found e1 p
      (elim (Bool-cases (c == core)) [
        | inl same ↦
            (let own : returned others ≡ returned found =
                sym (or_exit-eq_returned (parse_int_list (kernel.thread_siblings_list core)) a)
                ∙ subst (λ (x : ℕ). parse_int_list (kernel.thread_siblings_list x) ≡ returned found)
                    ((==_iff c core).0 same) p in
              inr (here ∙ rw same (ap some (returned-injective own))))
        | inr other ↦ elim h [
          | inl among ↦ inl (ground arith)
          | inr before ↦ inr (here ∙ rw other before)
        ]
      ])

-- No two of the cores are siblings, as the kernel lists them.
abbrev pub HasOneEach : Kernel → List ℕ → Type 0
HasOneEach kernel cores =
    (c s : ℕ) (found : List ℕ)
    → member c cores ≡ true
    → member s cores ≡ true
    → parse_int_list (kernel.thread_siblings_list c) ≡ returned found
    → member s found ≡ true
    → s ≡ c

-- Where the machine is read and the cores are assigned: the list of cores of the cgroup was read, the
-- assignment is valid for it, and every core of it is among those that the user selected; without
-- hyper-threading, no two cores of it are siblings.
pub get_cpu_cores_per_run-IsValid :
    (core_limit num_of_threads : ℕ) (use_hyperthreading : Bool) (kernel : Kernel)
    (core_set : Option (List ℕ)) (result : List (List ℕ))
    → get_cpu_cores_per_run core_limit num_of_threads use_hyperthreading kernel core_set
      ≡ returned result
    → (available : List ℕ) × (parse_int_list kernel.cpus ≡ returned available)
      × IsValidAssignment core_limit num_of_threads available result
      × ((c : ℕ) → member c (chain result) ≡ true → IsSelected core_set c)
      × (use_hyperthreading ≡ false → HasOneEach kernel (chain result))
unfolding get_cpu_cores_per_run
get_cpu_cores_per_run-IsValid core_limit num_of_threads use_hyperthreading kernel core_set result
      e =
    let (machine, reading, e1) = >>=-eq-returned (read_machine core_set kernel) _ e in
    let (available, parsed, r1) =
      >>=-eq-returned (or_exit (parse_int_list kernel.cpus)) _ reading in
    let (all_cpus, selected, r2) = >>=-eq-returned (select_cores core_set available) _ r1 in
    let (regions, a3, r3) = >>=-eq-returned (memory_regions kernel all_cpus) _ r2 in
    let (sockets, a4, r4) = >>=-eq-returned (packages kernel all_cpus) _ r3 in
    let (siblings_of_core, a5, r5) = >>=-eq-returned (siblings kernel [] all_cpus) _ r4 in
    let valid =
      get_cpu_cores_per_run0-IsValid core_limit num_of_threads use_hyperthreading machine result
        e1 in
    let cpus : machine.all_cpus ≡ all_cpus =
      ap (λ (m : Machine). m.all_cpus) (sym (returned-injective r5)) in
    let chosen : (c : ℕ)
        → member c (chain result) ≡ true
        → (member c available ≡ true) × IsSelected core_set c =
      λ c m.
        select_cores-IsSelected core_set available all_cpus c selected
          (subst (λ (l : List ℕ). member c l ≡ true) cpus (valid.usable c m)) in
    (
      available,
      or_exit-eq_returned (parse_int_list kernel.cpus) parsed,
      record {
        runs = valid.runs;
        sizes = valid.sizes;
        ordered = valid.ordered;
        once = valid.once;
        usable = λ c m. (chosen c m).0;
      },
      λ c m. (chosen c m).1,
      λ off c s found m k read beside.
          get_cpu_cores_per_run0-AreAlone core_limit num_of_threads machine result
            (subst
              (λ (b : Bool).
                get_cpu_cores_per_run0 core_limit num_of_threads b machine ≡ returned result)
              off e1)
            c s m k
            (record {
              siblings = found;
              listed =
                  subst (λ (x : Machine). get c x.siblings_of_core ≡ some found)
                    (returned-injective r5)
                    (siblings-read kernel [] siblings_of_core all_cpus c found a5 read
                      (inl (subst (λ (l : List ℕ). member c l ≡ true) cpus (valid.usable c m))));
              beside = beside;
            }),
    )
