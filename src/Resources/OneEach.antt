-- ===== src/Resources/OneEach.antt =====
-- Without hyper-threading, _get_cpu_cores_per_run0 of benchexec/resources.py uses one core of each
-- physical core.
use benchexec.Prelude.{
  ℕ, ◌≡◌, ap, sym, ◌∙◌, subst, true, false, some, none, Option, List, [], ◌∷◌, ◌==◌, ==_iff, arith,
  inl, inr, Bool-cases, Option-cases,
}
use mathlib.Core.Option.{some-injective}
use benchexec.Prelude.Outcome.{returned, >>=-eq-returned, returned-injective}
use benchexec.Prelude.Dict.{member, nat_eq, get, member-without}
use benchexec.Resources.Machine.{Failure, Machine, or_raise, key_error, value_error}
use benchexec.Resources.HyperThreading.{
  Filtering, keep_core, filter_core, filter_cores, remove_first, one_core_each, units_of_cores,
}
use benchexec.Resources.Assignment.{usable_machine}
use benchexec.Resources.Planned.{filter_cores-subset}
use benchexec.Resources.Collected.{AreSiblings}

-- No two of these cores are siblings.
abbrev pub AreAlone : List (ℕ × List ℕ) → List ℕ → Type 0
AreAlone d cores =
    (c s : ℕ) → member c cores ≡ true → member s cores ≡ true → AreSiblings d c s → s ≡ c

member-remove_first :
    (core s : ℕ) (siblings others : List ℕ)
    → remove_first core siblings ≡ some others
    → member s siblings ≡ true
    → (s == core) ≡ false
    → member s others ≡ true
unfolding member
member-remove_first core s [] others e m n = cc
member-remove_first core s (x ∷ siblings) others e m n = elim (Bool-cases (core == x)) [
  | inl same ↦
      (let first : siblings ≡ others = some-injective _ _ (rw same at e) in
        let there : member s siblings ≡ true = ground arith in
        subst (λ (l : List ℕ). member s l ≡ true) first there)
  | inr other ↦ elim (Option-cases (remove_first core siblings)) [
    | inl none_left ↦ cc
    | inr left ↦
        (let kept : member s (x ∷ left.0) ≡ true = elim (Bool-cases (s == x)) [
          | inl here ↦ ground arith
          | inr beyond ↦
              (let rest = member-remove_first core s siblings left.0 left.1 (ground arith) n in
                ground arith)
        ] in
          let made : x ∷ left.0 ≡ others = some-injective _ _ (rw (other, left.1) at e) in
          subst (λ (l : List ℕ). member s l ≡ true) made kept)
  ]
]

or_raise-eq_returned :
    (e : Failure) (o : Option (List ℕ)) {a : List ℕ} → or_raise e o ≡ returned a → o ≡ some a
or_raise-eq_returned e none h = cc
or_raise-eq_returned e (some b) h = ap some (returned-injective h)

keep_core-removes :
    (unit_of_core : List (ℕ × ℕ)) (f next : Filtering) (core s : ℕ) (siblings : List ℕ)
    → keep_core unit_of_core f core siblings ≡ returned next
    → member s siblings ≡ true
    → (s == core) ≡ false
    → member s next.machine.all_cpus ≡ false
keep_core-removes unit_of_core f next core s siblings e m n =
    let (others, a, h1) = >>=-eq-returned (or_raise value_error (remove_first core siblings)) _ e in
    let (unit, b, h2) = >>=-eq-returned (or_raise key_error (get core unit_of_core)) _ h1 in
    let (cores, d, h3) =
      >>=-eq-returned (or_raise key_error (get unit f.machine.cores_of_unit)) _ h2 in
    let there =
      member-remove_first core s siblings others
        (or_raise-eq_returned value_error (remove_first core siblings) a) m n in
    subst (λ (x : Filtering). member s x.machine.all_cpus ≡ false) (returned-injective h3)
      (ground (arith, member-without s others f.machine.all_cpus))

filter_cores-AreAlone :
    (unit_of_core : List (ℕ × ℕ)) (items : List (ℕ × List ℕ)) (f g : Filtering)
    → filter_cores unit_of_core f items ≡ returned g
    → AreAlone items g.machine.all_cpus
unfolding get
filter_cores-AreAlone unit_of_core [] f g e c s m k sib =
    absurd (let missing = sib.listed in ground arith)
filter_cores-AreAlone unit_of_core ((core, siblings) ∷ items) f g e c s m k sib =
    let (next, kept, rest) = >>=-eq-returned (filter_core unit_of_core f core siblings) _ e in
    let listed = sib.listed in
    elim (Bool-cases (c == core)) [
      | inl same ↦ elim (Bool-cases (s == core)) [
        | inl also ↦ (==_iff s core).0 also ∙ sym ((==_iff c core).0 same)
        | inr other ↦
            (let own : siblings ≡ sib.siblings = some-injective _ _ (rw same at sib.listed) in
              let beside : member s siblings ≡ true =
                subst (λ (l : List ℕ). member s l ≡ true) (sym own) sib.beside in
              let here : member core f.machine.all_cpus ≡ true =
                subst (λ (x : ℕ). member x f.machine.all_cpus ≡ true) ((==_iff c core).0 same)
                  (filter_cores-subset unit_of_core ((core, siblings) ∷ items) f g c e m) in
              let gone =
                keep_core-removes unit_of_core f next core s siblings (rw here at kept) beside
                  other in
              let there = filter_cores-subset unit_of_core items next g s rest k in
              absurd (ground arith))
      ]
      | inr other ↦
          filter_cores-AreAlone unit_of_core items next g rest c s m k (record {
            siblings = sib.siblings;
            listed = rw other at sib.listed;
            beside = sib.beside;
          })
    ]

pub usable_machine-AreAlone :
    (machine m : Machine)
    → usable_machine false machine ≡ returned m
    → AreAlone machine.siblings_of_core m.all_cpus
unfolding one_core_each
usable_machine-AreAlone machine m e =
    let (f, filtered, ends) =
      >>=-eq-returned
        (filter_cores (units_of_cores machine.cores_of_unit [])
          (record { machine = machine; unused_cores = [] }) machine.siblings_of_core)
        _ e in
    subst (λ (x : Machine). AreAlone machine.siblings_of_core x.all_cpus) (returned-injective ends)
      (filter_cores-AreAlone (units_of_cores machine.cores_of_unit []) machine.siblings_of_core _ f
        filtered)
