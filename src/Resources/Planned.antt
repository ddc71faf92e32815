-- ===== src/Resources/Planned.antt =====
-- What the checks and the filter of _get_cpu_cores_per_run0 in benchexec/resources.py establish.
use benchexec.Prelude.{
  ℕ, ◌+◌, ◌*◌, ◌≡◌, ap, sym, subst, Bool, true, false, not, ◌&&◌, ◌||◌, List, [], ◌∷◌, ltb, leb,
  ◌==◌, length, arith, inl, inr, Bool-cases,
}
use benchexec.Prelude.Outcome.{>>-eq-returned, returned, returned-injective, >>=-eq-returned}
use benchexec.Prelude.Dict.{member, nat_eq, get, member-without}
use benchexec.Resources.Machine.{
  Machine, or_raise, ceil_div, assertion_error, key_error, value_error, exit_asymmetric_units,
  exit_asymmetric_cores, exit_unusable_siblings, exit_split_and_shared, exit_split_needed,
}
use benchexec.Resources.HyperThreading.{
  Filtering, keep_core, filter_core, filter_cores, remove_first, one_core_each, units_of_cores,
}
use benchexec.Resources.Plan.{Plan, make_plan, first_size, all_sizes, needs_ht, siblings_usable}
use benchexec.Resources.Assignment.{usable_machine}

-- What a plan keeps of the values that it was made from.
pub record IsPlanned (core_limit num_of_threads : ℕ) (m : Machine) (p : Plan) : Type 0 where
  pub limit : core_limit ≡ p.core_limit
  pub threads : num_of_threads ≡ p.num_of_threads
  pub table : m.siblings_of_core ≡ p.siblings_of_core
  pub usable : siblings_usable m.all_cpus m.siblings_of_core ≡ true

pub make_plan-IsPlanned :
    (core_limit num_of_threads : ℕ) (m : Machine) (p : Plan)
    → make_plan core_limit num_of_threads m ≡ returned p
    → IsPlanned core_limit num_of_threads m p
unfolding make_plan
make_plan-IsPlanned core_limit num_of_threads m p e =
    let (unit_size, a1, e1) = >>=-eq-returned (first_size m.cores_of_unit) _ e in
    let (a2, e2) =
      >>-eq-returned (all_sizes unit_size m.cores_of_unit) exit_asymmetric_units _ e1 in
    let (core_size, a3, e3) = >>=-eq-returned (first_size m.siblings_of_core) _ e2 in
    let (a4, e4) =
      >>-eq-returned (all_sizes core_size m.siblings_of_core) exit_asymmetric_cores _ e3 in
    let (usable, e5) =
      >>-eq-returned (siblings_usable m.all_cpus m.siblings_of_core) exit_unusable_siblings _ e4 in
    let (full_cores, a6, e6) = >>=-eq-returned (ceil_div core_limit core_size) _ e5 in
    let rounded = full_cores * core_size in
    let (a7, e7) =
      >>-eq-returned (leb core_limit rounded && ltb rounded (core_limit + core_size))
        assertion_error _ e6 in
    let (units_per_run, a8, e8) = >>=-eq-returned (ceil_div rounded unit_size) _ e7 in
    let unit_count = length m.cores_of_unit in
    let (a9, e9) =
      >>-eq-returned (not (ltb 1 units_per_run && ltb unit_count (units_per_run * num_of_threads)))
        exit_split_and_shared _ e8 in
    let (runs_per_unit, b1, f1) = >>=-eq-returned (ceil_div num_of_threads unit_count) _ e9 in
    let (b2, f2) = >>-eq-returned (units_per_run == 1 || runs_per_unit == 1) assertion_error _ f1 in
    let (b3, f3) =
      >>-eq-returned (not (units_per_run == 1 && ltb unit_size (runs_per_unit * core_limit)))
        exit_split_needed _ f2 in
    let (need_ht, b4, f4) =
      >>=-eq-returned
        (needs_ht core_limit rounded num_of_threads units_per_run runs_per_unit unit_size
          (length m.all_cpus))
        _ f3 in
    let q = returned-injective f4 in
    record {
      limit = ap (λ (x : Plan). x.core_limit) q;
      threads = ap (λ (x : Plan). x.num_of_threads) q;
      table = ap (λ (x : Plan). x.siblings_of_core) q;
      usable = usable;
    }

-- Leaving out siblings leaves no core in that was not there.
pub filter_cores-subset :
    (unit_of_core : List (ℕ × ℕ)) (items : List (ℕ × List ℕ)) (f g : Filtering) (c : ℕ)
    → filter_cores unit_of_core f items ≡ returned g
    → member c g.machine.all_cpus ≡ true
    → member c f.machine.all_cpus ≡ true
filter_cores-subset unit_of_core [] f g c e m =
    subst (λ (x : Filtering). member c x.machine.all_cpus ≡ true) (sym (returned-injective e)) m
filter_cores-subset unit_of_core ((core, siblings) ∷ items) f g c e m =
    let (next, kept, rest) = >>=-eq-returned (filter_core unit_of_core f core siblings) _ e in
    filter_core-subset kept (filter_cores-subset unit_of_core items next g c rest m)
  where
    keep_core-subset :
        {next : Filtering}
        → keep_core unit_of_core f core siblings ≡ returned next
        → member c next.machine.all_cpus ≡ true
        → member c f.machine.all_cpus ≡ true
    keep_core-subset h n =
        let (others, a, h1) =
          >>=-eq-returned (or_raise value_error (remove_first core siblings)) _ h in
        let (unit, b, h2) = >>=-eq-returned (or_raise key_error (get core unit_of_core)) _ h1 in
        let (cores, d, h3) =
          >>=-eq-returned (or_raise key_error (get unit f.machine.cores_of_unit)) _ h2 in
        let k =
          subst (λ (x : Filtering). member c x.machine.all_cpus ≡ true)
            (sym (returned-injective h3)) n in
        ground (arith, member-without c others f.machine.all_cpus)

    filter_core-subset :
        {next : Filtering}
        → filter_core unit_of_core f core siblings ≡ returned next
        → member c next.machine.all_cpus ≡ true
        → member c f.machine.all_cpus ≡ true
    filter_core-subset h n = elim (Bool-cases (member core f.machine.all_cpus)) [
      | inl available ↦ keep_core-subset (rw available at h) n
      | inr other ↦
          subst (λ (x : Filtering). member c x.machine.all_cpus ≡ true)
            (sym (returned-injective (rw other at h))) n
    ]

pub usable_machine-subset :
    (use_hyperthreading : Bool) (machine m : Machine) (c : ℕ)
    → usable_machine use_hyperthreading machine ≡ returned m
    → member c m.all_cpus ≡ true
    → member c machine.all_cpus ≡ true
unfolding one_core_each
usable_machine-subset true machine m c e h =
    subst (λ (x : Machine). member c x.all_cpus ≡ true) (sym (returned-injective e)) h
usable_machine-subset false machine m c e h =
    let (f, filtered, ends) =
      >>=-eq-returned
        (filter_cores (units_of_cores machine.cores_of_unit [])
          (record { machine = machine; unused_cores = [] }) machine.siblings_of_core)
        _ e in
    filter_cores-subset (units_of_cores machine.cores_of_unit []) machine.siblings_of_core _ f c
      filtered
      (subst (λ (x : Machine). member c x.all_cpus ≡ true) (sym (returned-injective ends)) h)
