-- ===== src/Cgroups/Children.antt =====
-- Cgroup.create_fresh_child_cgroup of benchexec/cgroups.py. The call with number n of tempfile.mkdtemp
-- for a directory is an argument, which gives none for an OSError.
use benchexec.Prelude.{
  ℕ, suc, Option, none, some, List, [], ◌∷◌, Text, ◌≡◌, refl, ◌∙◌, sym, subst, inl, inr, arith,
  Bool-cases,
}
use benchexec.Prelude.Dict.{text_key, get, assign, member, keys, get-assign}
use benchexec.Prelude.Outcome.{Outcome, returned, raised, require, ◌>>=◌, ◌>>◌}
use benchexec.Cgroups.{
  Cgroup, CgroupFailure, assertion_error, key_error, os_error, are_in, make_cgroup,
}

pub record Created : Type 0 where
  pub created_per_subsystem : List (Text × Text)
  pub created_per_parent : List (Text × Text)
  pub calls : ℕ

abbrev pub or_failure : CgroupFailure → Option Text → Outcome CgroupFailure Text
or_failure e none = raised e
or_failure e (some path) = returned path

-- For a subsystem and the cgroup of its parent: what was created for the parent, or a new cgroup.
abbrev pub create_for :
    (ℕ → Text → Option Text) → Text → Text → Created → Option Text → Outcome CgroupFailure Created
create_for mkdtemp subsystem parent st (some cgroup) = returned (record {
  created_per_subsystem = assign subsystem cgroup st.created_per_subsystem;
  created_per_parent = st.created_per_parent;
  calls = st.calls;
})
create_for mkdtemp subsystem parent st none = do
  cgroup ← or_failure os_error (mkdtemp st.calls parent)
  returned (record {
    created_per_subsystem = assign subsystem cgroup st.created_per_subsystem;
    created_per_parent = assign parent cgroup st.created_per_parent;
    calls = suc st.calls;
  })

abbrev pub create_children :
    (ℕ → Text → Option Text)
    → List (Text × Text)
    → List Text
    → Created
    → Outcome CgroupFailure Created
create_children mkdtemp own [] st = returned st
create_children mkdtemp own (s ∷ subsystems) st = do
  parent ← or_failure key_error (get s own)
  next ← create_for mkdtemp s parent st (get parent st.created_per_parent)
  create_children mkdtemp own subsystems next

unfoldable pub create_fresh_child_cgroup :
    (ℕ → Text → Option Text) → Cgroup → List Text → Outcome CgroupFailure Cgroup
unfolding member get assign make_cgroup
create_fresh_child_cgroup mkdtemp c subsystems = do
  require (are_in subsystems (keys c.per_subsystem)) assertion_error
  created ←
      create_children mkdtemp c.per_subsystem subsystems
        (record { created_per_subsystem = []; created_per_parent = []; calls = 0 })
  make_cgroup created.created_per_subsystem

module _ (mkdtemp : ℕ → Text → Option Text) (own : List (Text × Text)) where
  -- Each child is the one of its parent, and was created in it.
  pub record AreChildren (st : Created) : Type 0 where
    pub of_parent :
        (s x : Text)
        → get s st.created_per_subsystem ≡ some x
        → (p : Text) × (get s own ≡ some p) × (get p st.created_per_parent ≡ some x)
    pub in_parent :
        (p x : Text) → get p st.created_per_parent ≡ some x → (n : ℕ) × (mkdtemp n p ≡ some x)

  pub reused-AreChildren :
      (s p y : Text) (st : Created)
      → get s own ≡ some p
      → get p st.created_per_parent ≡ some y
      → AreChildren st
      → AreChildren (record {
        created_per_subsystem = assign s y st.created_per_subsystem;
        created_per_parent = st.created_per_parent;
        calls = st.calls;
      })
  reused-AreChildren s p y st g e a = record {
    of_parent = λ t x h. elim (Bool-cases (text_key.beq t s)) [
      | inl here ↦
          (let same : t ≡ s = (text_key.beq_iff t s).0 here in
            let value : some y ≡ some x =
              sym (get-assign s t y st.created_per_subsystem ∙ rw here refl) ∙ h in
            (p, rw same g, e ∙ value))
      | inr other ↦
          a.of_parent t x (sym (get-assign s t y st.created_per_subsystem ∙ rw other refl) ∙ h)
    ];
    in_parent = a.in_parent;
  }

  pub fresh-AreChildren :
      (p y : Text) (st : Created)
      → get p st.created_per_parent ≡ none
      → mkdtemp st.calls p ≡ some y
      → AreChildren st
      → AreChildren (record {
        created_per_subsystem = st.created_per_subsystem;
        created_per_parent = assign p y st.created_per_parent;
        calls = suc st.calls;
      })
  fresh-AreChildren p y st missing made a = record {
    of_parent = λ t x h.
        let old = a.of_parent t x h in
        elim (Bool-cases (text_key.beq (old.0) p)) [
          | inl here ↦
              (let same : old.0 ≡ p = (text_key.beq_iff (old.0) p).0 here in
                let none_there : none ≡ some x =
                  sym missing ∙ subst (λ q. get q st.created_per_parent ≡ some x) same old.2 in
                absurd (ground arith))
          | inr other ↦
              (old.0, old.1, get-assign p (old.0) y st.created_per_parent ∙ rw other old.2)
        ];
    in_parent = λ q x h. elim (Bool-cases (text_key.beq q p)) [
      | inl here ↦
          (let same : q ≡ p = (text_key.beq_iff q p).0 here in
            let value : some y ≡ some x =
              sym (get-assign p q y st.created_per_parent ∙ rw here refl) ∙ h in
            (st.calls, rw same (made ∙ value)))
      | inr other ↦
          a.in_parent q x (sym (get-assign p q y st.created_per_parent ∙ rw other refl) ∙ h)
    ];
  }
