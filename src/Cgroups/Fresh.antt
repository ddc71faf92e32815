-- ===== src/Cgroups/Fresh.antt =====
-- What create_fresh_child_cgroup of benchexec/cgroups.py creates, where tempfile.mkdtemp succeeds.
use benchexec.Prelude.{
  ℕ, suc, Bool, true, ◌||◌, Option, none, some, List, [], ◌∷◌, Text, ◌≡◌, refl, ap, ◌∙◌, inl, inr,
  arith, Bool-cases,
}
use benchexec.Prelude.Dict.{text_key, get, assign, member, keys, values, get-assign}
use benchexec.Prelude.Outcome.{Outcome, returned}
use benchexec.Cgroups.{
  CgroupFailure, are_in, all_not_empty, is_not_empty, is_there, all_known_subsystems,
}
use benchexec.Cgroups.Children.{
  Created, create_for, AreChildren, reused-AreChildren, fresh-AreChildren,
}

-- mkdtemp gives a path, which is not empty and lies in the directory that it is called for.
pub record IsMkdtemp (mkdtemp : ℕ → Text → Option Text) : Type 0 where
  pub gives : (n : ℕ) (p : Text) → (x : Text) × (mkdtemp n p ≡ some x)
  pub named : (n : ℕ) (p x : Text) → mkdtemp n p ≡ some x → is_not_empty x ≡ true
  pub inside : (n m : ℕ) (p q x : Text) → mkdtemp n p ≡ some x → mkdtemp m q ≡ some x → p ≡ q

pub get-given : (k : Text) (d : List (Text × Text)) → is_there (get k d) ≡ member k (keys d)
unfolding get member
get-given k [] = refl
get-given k ((j, v) ∷ d) = ground (arith, get-given k d)

pub are_in-member :
    (xs ys : List Text) (k : Text) → member k xs ≡ true → are_in xs ys ≡ true → member k ys ≡ true
unfolding member
are_in-member [] ys k h all = absurd (ground arith)
are_in-member (x ∷ xs) ys k h all = elim (Bool-cases (text_key.beq k x)) [
  | inl here ↦ (let same : k ≡ x = (text_key.beq_iff k x).0 here in rw same (ground arith))
  | inr other ↦ are_in-member xs ys k (ground arith) (ground arith)
]

are_in-assign :
    (k v : Text) (d : List (Text × Text)) (ys : List Text)
    → member k ys ≡ true
    → are_in (keys d) ys ≡ true
    → are_in (keys (assign k v d)) ys ≡ true
unfolding assign
are_in-assign k v [] ys h all = rw h refl
are_in-assign k v ((j, w) ∷ d) ys h all = elim (Bool-cases (text_key.beq k j)) [
  | inl here ↦ rw here all
  | inr other ↦ (let rest = are_in-assign k v d ys h (ground arith) in rw other (ground arith))
]

all_not_empty-assign :
    (k v : Text) (d : List (Text × Text))
    → is_not_empty v ≡ true
    → all_not_empty (values d) ≡ true
    → all_not_empty (values (assign k v d)) ≡ true
unfolding assign
all_not_empty-assign k v [] h all = rw h refl
all_not_empty-assign k v ((j, w) ∷ d) h all = elim (Bool-cases (text_key.beq k j)) [
  | inl here ↦ rw here (ground arith)
  | inr other ↦ (let rest = all_not_empty-assign k v d h (ground arith) in rw other (ground arith))
]

module _ (mkdtemp : ℕ → Text → Option Text) (m : IsMkdtemp mkdtemp) (own : List (Text × Text)) where
  pub record IsGood (st : Created) : Type 0 where
    pub children : AreChildren mkdtemp own st
    pub known : are_in (keys st.created_per_subsystem) all_known_subsystems ≡ true
    pub not_empty : all_not_empty (values st.created_per_subsystem) ≡ true

  -- After the step for s: a good state, with a child for s and for what there was one.
  abbrev pub Adds : (Text → Bool) → Created → Outcome CgroupFailure Created → Type 0
  Adds added st o =
      (next : Created) × (o ≡ returned next)
      × IsGood next
      × ((t : Text)
          → is_there (get t next.created_per_subsystem)
            ≡ (added t || is_there (get t st.created_per_subsystem)))

  given-assign :
      (t s y : Text) (d : List (Text × Text))
      → is_there (get t (assign s y d)) ≡ (text_key.beq t s || is_there (get t d))
  given-assign t s y d = ap is_there (get-assign s t y d) ∙ ground arith

  reuse :
      (s p y : Text) (st : Created)
      → get s own ≡ some p
      → member s all_known_subsystems ≡ true
      → get p st.created_per_parent ≡ some y
      → IsGood st
      → Adds (λ t. text_key.beq t s) st (create_for mkdtemp s p st (some y))
  reuse s p y st g k e good =
      let made = good.children.in_parent p y e in
      (
        _,
        refl,
        record {
          children = reused-AreChildren mkdtemp own s p y st g e good.children;
          known = are_in-assign s y st.created_per_subsystem all_known_subsystems k good.known;
          not_empty =
              all_not_empty-assign s y st.created_per_subsystem (m.named (made.0) p y made.1)
                good.not_empty;
        },
        λ t. given-assign t s y st.created_per_subsystem,
      )

  pub create_one :
      (s p : Text) (st : Created) (o : Option Text)
      → get s own ≡ some p
      → member s all_known_subsystems ≡ true
      → get p st.created_per_parent ≡ o
      → IsGood st
      → Adds (λ t. text_key.beq t s) st (create_for mkdtemp s p st o)
  create_one s p st (some y) g k e good = reuse s p y st g k e good
  create_one s p st none g k e good =
      let made = m.gives st.calls p in
      let fresh : Created = record {
        created_per_subsystem = st.created_per_subsystem;
        created_per_parent = assign p (made.0) st.created_per_parent;
        calls = suc st.calls;
      } in
      let there : get p fresh.created_per_parent ≡ some (made.0) =
        get-assign p p (made.0) st.created_per_parent ∙ rw ((text_key.beq_iff p p).1 refl) refl in
      let result = reuse s p (made.0) fresh g k there (record {
        children = fresh-AreChildren mkdtemp own p (made.0) st e made.1 good.children;
        known = good.known;
        not_empty = good.not_empty;
      }) in
      (result.0, rw made.1 result.1, result.2, result.3)
