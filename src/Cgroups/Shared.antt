-- ===== src/Cgroups/Shared.antt =====
-- Which subsystems share a child in create_fresh_child_cgroup of benchexec/cgroups.py.
use mathlib.Core.Option.{some-injective}
use benchexec.Prelude.{
  ℕ, true, false, Option, some, List, [], ◌∷◌, Text, ◌≡◌, ◌↔◌, refl, ap, ◌∙◌, sym, inl, inr, arith,
  Option-cases,
}
use benchexec.Prelude.Dict.{text_key, get, member, keys, values}
use benchexec.Prelude.Outcome.{returned, returned->>=, require-true}
use benchexec.Cgroups.{
  Cgroup, assertion_error, are_in, all_not_empty, is_there, contains, make_cgroup,
  all_known_subsystems,
}
use benchexec.Cgroups.Children.{Created, create_children, create_fresh_child_cgroup, AreChildren}
use benchexec.Cgroups.Fresh.{IsMkdtemp, get-given, are_in-member, IsGood, Adds, create_one}

make_cgroup_returned :
    (d : List (Text × Text))
    → are_in (keys d) all_known_subsystems ≡ true
    → all_not_empty (values d) ≡ true
    → (c : Cgroup) × (make_cgroup d ≡ returned c) × (c.per_subsystem ≡ d)
unfolding make_cgroup
make_cgroup_returned d known named =
    (_, require-true assertion_error known (require-true assertion_error named refl), refl)

module _ (mkdtemp : ℕ → Text → Option Text) (m : IsMkdtemp mkdtemp) (own : List (Text × Text)) where
  create_children_lem :
      (subsystems : List Text) (st : Created)
      → are_in subsystems (keys own) ≡ true
      → are_in (keys own) all_known_subsystems ≡ true
      → IsGood mkdtemp m own st
      → Adds mkdtemp m own (λ t. member t subsystems) st (create_children mkdtemp own subsystems st)
  unfolding member
  create_children_lem [] st present known good = (st, refl, good, λ t. refl)
  create_children_lem (s ∷ subsystems) st present known good = elim (Option-cases (get s own)) [
    | inl missing ↦
        (let given = get-given s own in
          let lost : is_there (get s own) ≡ false = ap is_there missing in absurd (ground arith))
    | inr found ↦
        (let s_known = are_in-member (keys own) all_known_subsystems s (ground arith) known in
          let step =
            create_one mkdtemp m own s (found.0) st (get (found.0) st.created_per_parent) found.1
              s_known refl good in
          let rest = create_children_lem subsystems step.0 (ground arith) known step.2 in
          (
            rest.0,
            rw (found.1, step.1) rest.1,
            rest.2,
            λ t. rest.3 t ∙ (let e = step.3 t in ground arith),
          ))
  ]

  shared :
      (st : Created) (s t p q x y : Text)
      → AreChildren mkdtemp own st
      → get s own ≡ some p
      → get t own ≡ some q
      → get s st.created_per_subsystem ≡ some x
      → get t st.created_per_subsystem ≡ some y
      → (x ≡ y) ↔ (p ≡ q)
  shared st s t p q x y a g h e f =
      let left = a.of_parent s x e in
      let right = a.of_parent t y f in
      let p_left : p ≡ left.0 = some-injective _ _ (sym g ∙ left.1) in
      let q_right : q ≡ right.0 = some-injective _ _ (sym h ∙ right.1) in
      let made_left = a.in_parent (left.0) x left.2 in
      let made_right = a.in_parent (right.0) y right.2 in
      (
        λ same.
            p_left
            ∙ m.inside (made_left.0) (made_right.0) (left.0) (right.0) y
                (made_left.1 ∙ ap some same) made_right.1
            ∙ sym q_right,
        λ same. some-injective _ _ (
            sym left.2
            ∙ ap (λ r. get r st.created_per_parent) (sym p_left ∙ same ∙ q_right)
            ∙ right.2),
      )

-- Where mkdtemp succeeds, with a path that is not empty and lies in its directory, and the subsystems are
-- known and among those of the cgroups: a child is returned, of these subsystems and no other, in which
-- two subsystems have one cgroup exactly if they have one in the parent.
pub create_fresh_child_cgroup_lem :
    (mkdtemp : ℕ → Text → Option Text) (c : Cgroup) (subsystems : List Text)
    → IsMkdtemp mkdtemp
    → are_in subsystems (keys c.per_subsystem) ≡ true
    → are_in (keys c.per_subsystem) all_known_subsystems ≡ true
    → (child : Cgroup) × (create_fresh_child_cgroup mkdtemp c subsystems ≡ returned child)
      × ((t : Text) → contains t child ≡ member t subsystems)
      × ((s t p q x y : Text)
          → get s c.per_subsystem ≡ some p
          → get t c.per_subsystem ≡ some q
          → get s child.per_subsystem ≡ some x
          → get t child.per_subsystem ≡ some y
          → (x ≡ y) ↔ (p ≡ q))
unfolding create_fresh_child_cgroup get
create_fresh_child_cgroup_lem mkdtemp c subsystems m present known =
    let start : Created = record {
      created_per_subsystem = [];
      created_per_parent = [];
      calls = 0;
    } in
    let done =
      create_children_lem mkdtemp m c.per_subsystem subsystems start present known (record {
        children = record {
          of_parent = λ s x h. absurd (ground arith);
          in_parent = λ p x h. absurd (ground arith);
        };
        known = refl;
        not_empty = refl;
      }) in
    let made = make_cgroup_returned (done.0.created_per_subsystem) done.2.known done.2.not_empty in
    (
      made.0,
      require-true assertion_error present (returned->>= _ done.1 made.1),
      λ t. rw made.2 (done.3 t ∙ ground arith),
      λ s t p q x y.
          rw made.2 (shared mkdtemp m c.per_subsystem done.0 s t p q x y done.2.children),
    )
