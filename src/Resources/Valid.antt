-- ===== src/Resources/Valid.antt =====
-- Every assignment that _get_cpu_cores_per_run0 of benchexec/resources.py returns is a valid one.
use benchexec.Prelude.{
  ℕ, ◌*◌, ◌≡◌, ap, sym, ◌∙◌, subst, Bool, true, false, some, List, [], ◌∷◌, ◌++◌, ◌==◌, ==_iff,
  length, arith, ◌⊎◌, inl, inr, Bool-cases, All, All-append, length-append,
}
use mathlib.Core.Option.{some-injective}
use benchexec.Prelude.Outcome.{returned, >>=-eq-returned}
use benchexec.Prelude.Dict.{Distinct, member, nat_eq, get, member-append}
use benchexec.Prelude.Sorting.{sorted, member-sorted, IsSorted, sorted-IsSorted, Distinct-of_count}
use benchexec.Resources.Machine.{Machine}
use benchexec.Resources.Plan.{Plan, make_plan, subset, siblings_usable, check_counts}
use benchexec.Resources.Assignment.{
  Assigning, assign_cores, chain, all_lengths, usable_machine, get_cpu_cores_per_run0,
}
use benchexec.Resources.OneEach.{AreAlone, usable_machine-AreAlone}
use benchexec.Resources.Planned.{make_plan-IsPlanned, usable_machine-subset}
use benchexec.Resources.Collected.{
  AreSiblings, IsFilled, fill_units-IsFilled, empty-IsFilled, chain-snoc, IsRun, IsReturned,
  assign_cores-eq_returned, assign_runs_ind,
}

pub record IsValidAssignment (core_limit num_of_threads : ℕ) (cpus : List ℕ)
    (result : List (List ℕ)) : Type 0 where
  pub runs : length result ≡ num_of_threads
  pub sizes : All (λ (cores : List ℕ). length cores ≡ core_limit) result
  pub ordered : All IsSorted result
  pub once : Distinct (chain result)
  pub usable : (c : ℕ) → member c (chain result) ≡ true → member c cpus ≡ true

member-subset :
    (c : ℕ) (xs ys : List ℕ) → subset xs ys ≡ true → member c xs ≡ true → member c ys ≡ true
unfolding member
member-subset c [] ys h m = cc
member-subset c (x ∷ xs) ys h m = elim (Bool-cases (c == x)) [
  | inl same ↦ subst (λ (z : ℕ). member z ys ≡ true) (sym ((==_iff c x).0 same)) (ground arith)
  | inr other ↦ member-subset c xs ys (ground arith) (ground arith)
]

-- The siblings of a core are usable, by the check.
usable_siblings :
    (cpus : List ℕ) (d : List (ℕ × List ℕ)) (k : ℕ) (siblings : List ℕ)
    → siblings_usable cpus d ≡ true
    → get k d ≡ some siblings
    → subset siblings cpus ≡ true
unfolding get
usable_siblings cpus [] k siblings h e = cc
usable_siblings cpus ((j, s) ∷ d) k siblings h e = elim (Bool-cases (k == j)) [
  | inl same ↦
      subst (λ (l : List ℕ). subset l cpus ≡ true) (some-injective _ _ (rw same at e))
        (ground arith)
  | inr other ↦ usable_siblings cpus d k siblings (ground arith) (rw other at e)
]

-- What the loop over the runs keeps: the results are sorted, and their cores are listed siblings.
module _ (p : Plan) where
  record IsListed (a : Assigning) : Type 0 where
    ordered : All IsSorted a.result
    source :
        (c : ℕ) → member c (chain a.result) ≡ true → (k : ℕ) × AreSiblings p.siblings_of_core k c

  keep-IsListed : (run : ℕ) (a b : Assigning) → IsListed a → IsRun p run a b → IsListed b
  keep-IsListed run a b h r = subst IsListed r.after (record {
    ordered = All-append _ a.result _ h.ordered (sorted-IsSorted r.filling.cores, tt);
    source = λ c m. elim (parts c m) [
      | inl old ↦ h.source c old
      | inr new ↦ filled.drawn.source c (sym (member-sorted c r.filling.cores) ∙ new)
    ];
  })
    where
      filled : IsFilled p a.used_cores r.filling
      filled =
          fill_units-IsFilled p a.used_cores _ _ _ r.filling
            (empty-IsFilled p a.used_cores a.cores_of_unit) r.filled

      parts :
          (c : ℕ)
          → member c (chain (a.result ++ sorted r.filling.cores ∷ [])) ≡ true
          → (member c (chain a.result) ≡ true) ⊎ (member c (sorted r.filling.cores) ≡ true)
      parts c m = ground (
        arith,
        member-append c (chain a.result) (sorted r.filling.cores),
        ap (member c) (chain-snoc a.result (sorted r.filling.cores)),
      )

  empty-IsListed :
      (left : List (ℕ × List ℕ))
      → IsListed (record { cores_of_unit = left; used_cores = []; result = [] })
  unfolding member
  empty-IsListed left = record { ordered = tt; source = λ c m. cc }

sizes_of_test :
    (n : ℕ) (result : List (List ℕ))
    → all_lengths n result ≡ true
    → All (λ (cores : List ℕ). length cores ≡ n) result
sizes_of_test n [] h = tt
sizes_of_test n (x ∷ result) h =
    ((==_iff (length x) n).0 (ground arith), sizes_of_test n result (ground arith))

length-chain :
    (n : ℕ) (result : List (List ℕ))
    → All (λ (cores : List ℕ). length cores ≡ n) result
    → length (chain result) ≡ length result * n
length-chain n [] h = omega arith
length-chain n (x ∷ result) h =
    length-append x (chain result) ∙ grind (arith, length-chain n result h.1, h.0)

assign_cores-IsValid :
    (p : Plan) (cpus : List ℕ) (cores_of_unit : List (ℕ × List ℕ)) (result : List (List ℕ))
    → siblings_usable cpus p.siblings_of_core ≡ true
    → assign_cores p cores_of_unit ≡ returned result
    → IsValidAssignment p.core_limit p.num_of_threads cpus result
assign_cores-IsValid p cpus cores_of_unit result usable e =
    let r = assign_cores-eq_returned p cores_of_unit result e in
    subst (IsValidAssignment p.core_limit p.num_of_threads cpus) r.after (checked r)
  where
    checked :
        (r : IsReturned p cores_of_unit result)
        → IsValidAssignment p.core_limit p.num_of_threads cpus r.last.result
    checked r =
        let sizes = sizes_of_test p.core_limit r.last.result r.sized in
        let listed =
          assign_runs_ind p (IsListed p) (keep-IsListed p) p.num_of_threads 0 _ r.last
            (empty-IsListed p cores_of_unit) r.ran in
        let runs : length r.last.result ≡ p.num_of_threads = (==_iff _ _).0 r.counted in
        record {
          runs = runs;
          sizes = sizes;
          ordered = listed.ordered;
          once = Distinct-of_count (chain r.last.result) (
              (==_iff _ _).0 r.distinct
              ∙ ap (λ n. n * p.core_limit) (sym runs)
              ∙ sym (length-chain p.core_limit r.last.result sizes));
          usable = λ c m.
              let (k, sib) = listed.source c m in
              member-subset c sib.siblings cpus
                (usable_siblings cpus p.siblings_of_core k sib.siblings usable sib.listed)
                sib.beside;
        }

-- An assignment that is returned has one list for each run, of as many cores as asked for, in
-- ascending order; no core stands in it twice, and all are available.
pub get_cpu_cores_per_run0-IsValid :
    (core_limit num_of_threads : ℕ) (use_hyperthreading : Bool) (machine : Machine)
    (result : List (List ℕ))
    → get_cpu_cores_per_run0 core_limit num_of_threads use_hyperthreading machine ≡ returned result
    → IsValidAssignment core_limit num_of_threads machine.all_cpus result
unfolding get_cpu_cores_per_run0
get_cpu_cores_per_run0-IsValid core_limit num_of_threads use_hyperthreading machine result e =
    let (u, counts, e1) =
      >>=-eq-returned (check_counts core_limit num_of_threads (length machine.all_cpus)) _ e in
    let (m, usable, e2) = >>=-eq-returned (usable_machine use_hyperthreading machine) _ e1 in
    let (p, planned, e3) = >>=-eq-returned (make_plan core_limit num_of_threads m) _ e2 in
    let made = make_plan-IsPlanned core_limit num_of_threads m p planned in
    let valid =
      assign_cores-IsValid p m.all_cpus m.cores_of_unit result
        (subst (λ (d : List (ℕ × List ℕ)). siblings_usable m.all_cpus d ≡ true) made.table
          made.usable)
        e3 in
    record {
      runs = valid.runs ∙ sym made.threads;
      sizes =
          subst (λ (n : ℕ). All (λ (cores : List ℕ). length cores ≡ n) result) (sym made.limit)
            valid.sizes;
      ordered = valid.ordered;
      once = valid.once;
      usable =
          λ c h. usable_machine-subset use_hyperthreading machine m c usable (valid.usable c h);
    }

-- Without hyper-threading, no two cores of an assignment that is returned are siblings.
pub get_cpu_cores_per_run0-AreAlone :
    (core_limit num_of_threads : ℕ) (machine : Machine) (result : List (List ℕ))
    → get_cpu_cores_per_run0 core_limit num_of_threads false machine ≡ returned result
    → AreAlone machine.siblings_of_core (chain result)
unfolding get_cpu_cores_per_run0
get_cpu_cores_per_run0-AreAlone core_limit num_of_threads machine result e c s m k sib =
    let (u, counts, e1) =
      >>=-eq-returned (check_counts core_limit num_of_threads (length machine.all_cpus)) _ e in
    let (left, usable, e2) = >>=-eq-returned (usable_machine false machine) _ e1 in
    let (p, planned, e3) = >>=-eq-returned (make_plan core_limit num_of_threads left) _ e2 in
    let made = make_plan-IsPlanned core_limit num_of_threads left p planned in
    let valid =
      assign_cores-IsValid p left.all_cpus left.cores_of_unit result
        (subst (λ (d : List (ℕ × List ℕ)). siblings_usable left.all_cpus d ≡ true) made.table
          made.usable)
        e3 in
    usable_machine-AreAlone machine left usable c s (valid.usable c m) (valid.usable s k) sib
