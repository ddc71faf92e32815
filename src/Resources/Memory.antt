-- ===== src/Resources/Memory.antt =====
-- The memory checks of benchexec/resources.py: get_memory_banks_per_run, and check_memory_size on the
-- sizes of the memory banks. The banks that a directory of the kernel lists, and the sizes, are
-- arguments; a tuple of banks that keys a Counter is its list.
use benchexec.Prelude.{
  get_elem?, ==_iff, ℕ, zero, suc, ◌+◌, ◌*◌, ◌≤◌, ◌<◌, ◌≡◌, ◌↔◌, refl, ap, sym, ◌∙◌, subst, Bool,
  true, false, not, ◌&&◌, Option, none, some, List, [], ◌∷◌, ◌++◌, if◌then◌else◌, ltb, ◌==◌, arith,
  inl, inr, Bool-cases, text_eq, text_eq_iff, text_eq_self, map,
}
use mathlib.Core.Option
use benchexec.Prelude.Outcome.{>>-eq-returned, Outcome, returned, raised, ◌>>◌, require}
use benchexec.Prelude.Dict.{member, member-append, nat_eq, text_key, get, assign, get-assign}
use benchexec.Prelude.Sorting.{member-sorted, sorted}
use benchexec.Resources.Machine.{Failure, exit_too_little_memory, exit_memory_shared}

-- mems.intersection(allMems), once each
abbrev pub allowed : List ℕ → List ℕ → List ℕ
allowed all_mems [] = []
allowed all_mems (m ∷ mems) =
    let rest = allowed all_mems mems in
    if member m all_mems && not (member m rest) then m ∷ rest else rest

-- mems.update(...) for each core of the run
abbrev pub banks_of_cores : (ℕ → List ℕ) → List ℕ → List ℕ
banks_of_cores banks [] = []
banks_of_cores banks (core ∷ cores) = banks core ++ banks_of_cores banks cores

abbrev pub any_banks : List (List ℕ) → Bool
any_banks [] = false
any_banks ([] ∷ result) = any_banks result
any_banks ((m ∷ mems) ∷ result) = true

-- get_memory_banks_per_run; `has_nodes` is os.path.isdir("/sys/devices/system/node/").
unfoldable pub get_memory_banks_per_run :
    List ℕ → (ℕ → List ℕ) → Bool → List (List ℕ) → Option (List (List ℕ))
unfolding member sorted
get_memory_banks_per_run all_mems banks has_nodes core_assignment =
    let result =
      map (λ cores. sorted (allowed all_mems (banks_of_cores banks cores))) core_assignment in
    if any_banks result && has_nodes then some result else none

-- check_limit, inside check_memory_size
unfoldable pub check_limit : ℕ → ℕ → ℕ → Outcome Failure (Unit {0})
check_limit mem_limit num_of_threads actual_limit =
    if ltb actual_limit mem_limit
    then raised exit_too_little_memory
    else if ltb actual_limit (mem_limit * num_of_threads)
    then raised exit_memory_shared
    else returned tt

-- sum(memSizes[mem] for mem in mems_of_run)
abbrev pub total_size : (ℕ → ℕ) → List ℕ → ℕ
total_size sizes [] = 0
total_size sizes (mem ∷ mems) = sizes mem + total_size sizes mems

-- A missing key of a Counter counts 0.
abbrev pub counted : Option ℕ → ℕ
counted none = 0
counted (some n) = n

-- The loop at the end of check_memory_size, with usedMem.
unfoldable pub check_banks :
    ℕ → (ℕ → ℕ) → List (List ℕ × ℕ) → List (List ℕ) → Outcome Failure (Unit {0})
check_banks mem_limit sizes used_mem [] = returned tt
check_banks mem_limit sizes used_mem (mems ∷ assignment) = do
  require (not (ltb (total_size sizes mems) mem_limit)) exit_too_little_memory
  let used = counted (get mems used_mem) + mem_limit
  require (not (ltb (total_size sizes mems) used)) exit_memory_shared
  check_banks mem_limit sizes (assign mems used used_mem) assignment

-- How many runs are given these banks.
abbrev pub sharers : List ℕ → List (List ℕ) → ℕ
sharers mems [] = 0
sharers mems (other ∷ assignment) =
    let rest = sharers mems assignment in if text_eq mems other then suc rest else rest

-- The banks of every run have room for all the runs with the same banks, beside what is used.
abbrev HasRoom : ℕ → (ℕ → ℕ) → List (List ℕ × ℕ) → List (List ℕ) → Type 0
HasRoom mem_limit sizes used_mem assignment =
    (mems : List ℕ)
    → 0 < sharers mems assignment
    → counted (get mems used_mem) + sharers mems assignment * mem_limit ≤ total_size sizes mems

counted-assign :
    (k j : List ℕ) (v : ℕ) (d : List (List ℕ × ℕ))
    → counted (get j (assign k v d)) ≡ (if text_eq j k then v else counted (get j d))
counted-assign k j v d = ground (arith, get-assign k j v d)

one_more :
    (n u l total : ℕ) → u + l ≤ total → (0 < n → u + l + n * l ≤ total) → u + suc n * l ≤ total
one_more zero u l total fits later = grind arith
one_more (suc n) u l total fits later = grind (arith, later (omega arith))

one_less : (n u l total : ℕ) → u + suc n * l ≤ total → u + l + n * l ≤ total
one_less n u l total h = grind arith

first_fits : (n u l total : ℕ) → u + suc n * l ≤ total → (u + l ≤ total) × (l ≤ total)
first_fits n u l total h = (grind arith, grind arith)

module _ (mem_limit : ℕ) (sizes : ℕ → ℕ) where
  check_banks→HasRoom :
      (assignment : List (List ℕ)) (used_mem : List (List ℕ × ℕ))
      → check_banks mem_limit sizes used_mem assignment ≡ returned tt
      → HasRoom mem_limit sizes used_mem assignment
  unfolding check_banks
  check_banks→HasRoom [] used_mem h mems some_run = elim some_run [ ]
  check_banks→HasRoom (first ∷ assignment) used_mem h mems some_run =
      let used = counted (get first used_mem) + mem_limit in
      let (fits, h1) =
        >>-eq-returned (not (ltb (total_size sizes first) mem_limit)) exit_too_little_memory _ h in
      let (room, h2) =
        >>-eq-returned (not (ltb (total_size sizes first) used)) exit_memory_shared _ h1 in
      let later = check_banks→HasRoom assignment (assign first used used_mem) h2 mems in
      let now = counted-assign first mems used used_mem in
      elim (Bool-cases (text_eq mems first)) [
        | inl same ↦
            let e = (text_eq_iff mems first).0 same in
            let old : counted (get first used_mem) ≡ counted (get mems used_mem) =
              ap (λ (m : List ℕ). counted (get m used_mem)) (sym e) in
            let size : total_size sizes first ≡ total_size sizes mems =
              ap (total_size sizes) (sym e) in
            rw same (
              one_more (sharers mems assignment) (counted (get mems used_mem)) mem_limit
                (total_size sizes mems) (ground (arith, old, size))
                (λ k. ground (arith, old, now, later k)))
        | inr other ↦ rw other (ground (arith, now, later (rw other at some_run)))
      ]

  HasRoom→check_banks :
      (assignment : List (List ℕ)) (used_mem : List (List ℕ × ℕ))
      → HasRoom mem_limit sizes used_mem assignment
      → check_banks mem_limit sizes used_mem assignment ≡ returned tt
  unfolding check_banks
  HasRoom→check_banks [] used_mem h = refl
  HasRoom→check_banks (first ∷ assignment) used_mem h =
      let used = counted (get first used_mem) + mem_limit in
      let self = text_eq_self first in
      let all : counted (get first used_mem) + suc (sharers first assignment) * mem_limit
          ≤ total_size sizes first =
        rw self at (h first (rw self (omega arith))) in
      let (room, fits) =
        first_fits (sharers first assignment) (counted (get first used_mem)) mem_limit
          (total_size sizes first) all in
      ground (arith, room, fits, HasRoom→check_banks assignment (assign first used used_mem) later)
    where
      later :
          HasRoom mem_limit sizes
            (assign first (counted (get first used_mem) + mem_limit) used_mem)
            assignment
      later mems some_run =
          let used = counted (get first used_mem) + mem_limit in
          let now = counted-assign first mems used used_mem in
          elim (Bool-cases (text_eq mems first)) [
            | inl same ↦
                let old : counted (get first used_mem) ≡ counted (get mems used_mem) =
                  ap (λ (m : List ℕ). counted (get m used_mem))
                    (sym ((text_eq_iff mems first).0 same)) in
                let all : counted (get mems used_mem) + suc (sharers mems assignment) * mem_limit
                    ≤ total_size sizes mems =
                  rw same at (h mems (rw same (omega arith))) in
                ground (
                  arith,
                  now,
                  old,
                  one_less (sharers mems assignment) (counted (get mems used_mem)) mem_limit
                      (total_size sizes mems) all,
                )
            | inr other ↦
                let all : counted (get mems used_mem) + sharers mems assignment * mem_limit
                    ≤ total_size sizes mems =
                  rw other at (h mems (rw other some_run)) in
                ground (arith, now, all)
          ]

-- The check passes exactly if, for the banks of every run, as many times the limit as there are runs
-- with the same banks fit into these banks.
check_banks_iff :
    (mem_limit : ℕ) (sizes : ℕ → ℕ) (assignment : List (List ℕ))
    → (check_banks mem_limit sizes [] assignment ≡ returned tt) ↔ (
        (mems : List ℕ)
        → 0 < sharers mems assignment
        → sharers mems assignment * mem_limit ≤ total_size sizes mems)
unfolding get
check_banks_iff mem_limit sizes assignment = (
  λ h mems k. ground (arith, check_banks→HasRoom mem_limit sizes assignment [] h mems k),
  λ h. HasRoom→check_banks mem_limit sizes assignment [] (λ mems k. ground (arith, h mems k)),
)

member-allowed :
    (m : ℕ) (all_mems mems : List ℕ)
    → member m (allowed all_mems mems) ≡ (member m all_mems && member m mems)
unfolding member
member-allowed m all_mems [] = ground arith
member-allowed m all_mems (x ∷ mems) = elim (Bool-cases (m == x)) [
  | inl same ↦
      let here : member m all_mems ≡ member x all_mems =
        ap (λ (z : ℕ). member z all_mems) ((==_iff m x).0 same) in
      let there : member m (allowed all_mems mems) ≡ member x (allowed all_mems mems) =
        ap (λ (z : ℕ). member z (allowed all_mems mems)) ((==_iff m x).0 same) in
      ground (arith, member-allowed m all_mems mems)
  | inr other ↦ ground (arith, member-allowed m all_mems mems)
]

get_elem?-map {ℓ κ} :
    {A : Type ℓ} {B : Type κ} (f : A → B) (xs : List A) (i : ℕ) {x : A}
    → get_elem? xs i ≡ some x
    → get_elem? (map f xs) i ≡ some (f x)
get_elem?-map f [] i h = cc
get_elem?-map f (y ∷ xs) zero h = ap (λ o. Option.map f o) h
get_elem?-map f (y ∷ xs) (suc i) h = get_elem?-map f xs i h

-- A bank is near to some of the cores exactly if it is near to one of them.
member-banks_of_cores :
    (banks : ℕ → List ℕ) (m : ℕ) (cores : List ℕ)
    → (member m (banks_of_cores banks cores) ≡ true)
      ↔ ((core : ℕ) × (member core cores ≡ true) × (member m (banks core) ≡ true))
unfolding member
member-banks_of_cores banks m [] = (λ h. absurd (ground arith), λ h. absurd (ground (arith, h.1)))
member-banks_of_cores banks m (first ∷ cores) =
    let split = member-append m (banks first) (banks_of_cores banks cores) in
    let rest = member-banks_of_cores banks m cores in
    (
      λ h. elim (Bool-cases (member m (banks first))) [
        | inl here ↦ (first, (let same = (==_iff first first).1 refl in ground arith), here)
        | inr other ↦
            (let found = rest.0 (ground arith) in
              (found.0, (let later = found.1 in ground arith), found.2))
      ],
      λ h. elim (Bool-cases (h.0 == first)) [
        | inl here ↦
            (let near : member m (banks first) ≡ true =
                subst (λ (c : ℕ). member m (banks c) ≡ true) ((==_iff (h.0) first).0 here) h.2 in
              ground arith)
        | inr other ↦
            (let later = rest.1 (h.0, (let among = h.1 in ground arith), h.2) in ground arith)
      ],
    )

-- Where banks are assigned, each run gets exactly the banks that are allowed and near to one of its
-- cores.
pub banks_per_run_iff :
    (all_mems : List ℕ) (banks : ℕ → List ℕ) (has_nodes : Bool)
    (core_assignment result : List (List ℕ)) (i : ℕ) (cores : List ℕ)
    → get_memory_banks_per_run all_mems banks has_nodes core_assignment ≡ some result
    → get_elem? core_assignment i ≡ some cores
    → (mems : List ℕ) × (get_elem? result i ≡ some mems)
      × ((m : ℕ)
          → (member m mems ≡ true) ↔ (
              (member m all_mems ≡ true)
              × ((core : ℕ) × (member core cores ≡ true) × (member m (banks core) ≡ true))))
unfolding get_memory_banks_per_run
banks_per_run_iff all_mems banks has_nodes core_assignment result i cores h e = (
  sorted (allowed all_mems (banks_of_cores banks cores)),
  subst
      (λ (r : List (List ℕ)).
        get_elem? r i ≡ some (sorted (allowed all_mems (banks_of_cores banks cores))))
      (ground arith)
      (get_elem?-map (λ l. sorted (allowed all_mems (banks_of_cores banks l))) core_assignment i e),
  λ m.
      let near = member-banks_of_cores banks m cores in
      let both =
        member-sorted m (allowed all_mems (banks_of_cores banks cores))
        ∙ member-allowed m all_mems (banks_of_cores banks cores) in
      (
        λ k. ((ground arith), near.0 (ground arith)),
        λ k. (let there = near.1 k.1 in let allowed_there = k.0 in ground arith),
      ),
)
