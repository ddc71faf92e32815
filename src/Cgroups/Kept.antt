-- ===== src/Cgroups/Kept.antt =====
-- What calls of require_subsystem of benchexec/cgroups.py leave of the cgroups.
use benchexec.Prelude.{
  ℕ, Bool, true, false, Option, none, some, List, Text, ◌≡◌, refl, ap, ◌∙◌, sym, ◌⊎◌, inl, inr,
  arith, Bool-cases,
}
use benchexec.Prelude.Dict.{
  text_key, get, remove, member, keys, Distinct, get-remove, Distinct-remove,
}
use benchexec.Cgroups.{
  Cgroup, is_there, contains, tried, require_present, require_subsystem, after_require,
}

abbrev pub is_none : Option ℕ → Bool
is_none none = true
is_none (some errno) = false

abbrev pub usable_at : (Text → Text → Option ℕ) → Text → Option Text → Bool
usable_at creating s none = false
usable_at creating s (some path) = is_none (creating s path)

-- The subsystem is there, and a child of its cgroup can be created and removed.
abbrev pub is_usable : (Text → Text → Option ℕ) → List (Text × Text) → Text → Bool
is_usable creating own s = usable_at creating s (get s own)

module _ (creating : Text → Text → Option ℕ) (own : List (Text × Text)) where
  -- These cgroups are those at the start, without some that are not usable.
  pub record IsFiltered (c : Cgroup) : Type 0 where
    pub distinct : Distinct (keys c.per_subsystem)
    pub each :
        (t : Text)
        → (get t c.per_subsystem ≡ get t own)
          ⊎ ((get t c.per_subsystem ≡ none) × (is_usable creating own t ≡ false))

  tried-IsFiltered :
      (s path : Text) (c : Cgroup) (o : Option ℕ)
      → creating s path ≡ o
      → get s c.per_subsystem ≡ some path
      → IsFiltered c
      → IsFiltered ((tried o s path c).1)
  tried-IsFiltered s path c none e g f = f
  tried-IsFiltered s path c (some errno) e g f = record {
    distinct = Distinct-remove s c.per_subsystem f.distinct;
    each = λ t. elim (Bool-cases (text_key.beq t s)) [
      | inl here ↦
          (let same : t ≡ s = (text_key.beq_iff t s).0 here in
            inr (
              get-remove t s c.per_subsystem f.distinct ∙ rw here refl,
              rw same (unusable (f.each s)),
            ))
      | inr other ↦
          (let kept : get t (remove s c.per_subsystem) ≡ get t c.per_subsystem =
              get-remove t s c.per_subsystem f.distinct ∙ rw other refl in
            rw kept (f.each t))
    ];
  }
    where
      unusable :
          (get s c.per_subsystem ≡ get s own)
            ⊎ ((get s c.per_subsystem ≡ none) × (is_usable creating own s ≡ false))
          → is_usable creating own s ≡ false
      unusable (inl same) = let at : get s own ≡ some path = sym same ∙ g in rw at (rw e refl)
      unusable (inr both) = both.1

  present-IsFiltered :
      (s : Text) (c : Cgroup) (o : Option Text)
      → get s c.per_subsystem ≡ o
      → IsFiltered c
      → IsFiltered ((require_present creating s c o).1)
  present-IsFiltered s c none g f = record { distinct = f.distinct; each = f.each }
  present-IsFiltered s c (some path) g f = tried-IsFiltered s path c (creating s path) refl g f

  pub after_require-IsFiltered :
      (s : Text) (c : Cgroup) → IsFiltered c → IsFiltered (after_require creating s c)
  unfolding require_subsystem
  after_require-IsFiltered s c f = present-IsFiltered s c (get s c.per_subsystem) refl f

  present-contains :
      (s : Text) (c : Cgroup) (o : Option Text)
      → get s c.per_subsystem ≡ o
      → IsFiltered c
      → contains s ((require_present creating s c o).1) ≡ usable_at creating s o
  present-contains s c none g f = rw g refl
  present-contains s c (some path) g f = by_try (creating s path)
    where
      by_try : (o : Option ℕ) → contains s ((tried o s path c).1) ≡ is_none o
      by_try none = rw g refl
      by_try (some errno) =
          let gone : get s (remove s c.per_subsystem) ≡ none =
            get-remove s s c.per_subsystem f.distinct ∙ rw ((text_key.beq_iff s s).1 refl) refl in
          rw gone refl

  -- A subsystem is left after the call for it exactly if it is usable.
  pub contains-after_require :
      (s : Text) (c : Cgroup)
      → IsFiltered c
      → contains s (after_require creating s c) ≡ is_usable creating own s
  unfolding require_subsystem
  contains-after_require s c f =
      present-contains s c (get s c.per_subsystem) refl f
      ∙ elim (f.each s) [ inl same ↦ rw same refl | inr both ↦ rw (both.0, both.1) refl ]

-- The unusable subsystems stay, and that of a call that leaves none of it is one.
module _ (creating : Text → Text → Option ℕ) where
  tried-grows :
      (t s path : Text) (c : Cgroup) (o : Option ℕ)
      → member t c.unusable_subsystems ≡ true
      → member t ((tried o s path c).1.unusable_subsystems) ≡ true
  unfolding member
  tried-grows t s path c none h = h
  tried-grows t s path c (some errno) h = ground arith

  present-grows :
      (t s : Text) (c : Cgroup) (o : Option Text)
      → member t c.unusable_subsystems ≡ true
      → member t ((require_present creating s c o).1.unusable_subsystems) ≡ true
  unfolding member
  present-grows t s c none h = ground arith
  present-grows t s c (some path) h = tried-grows t s path c (creating s path) h

  pub after_require-grows :
      (t s : Text) (c : Cgroup)
      → member t c.unusable_subsystems ≡ true
      → member t (after_require creating s c).unusable_subsystems ≡ true
  unfolding require_subsystem
  after_require-grows t s c h = present-grows t s c (get s c.per_subsystem) h

  tried-noted :
      (s path : Text) (c : Cgroup) (o : Option ℕ)
      → contains s c ≡ true
      → contains s ((tried o s path c).1) ≡ false
      → member s ((tried o s path c).1.unusable_subsystems) ≡ true
  unfolding member
  tried-noted s path c none g h = absurd (ground arith)
  tried-noted s path c (some errno) g h = rw ((text_key.beq_iff s s).1 refl) refl

  present-noted :
      (s : Text) (c : Cgroup) (o : Option Text)
      → get s c.per_subsystem ≡ o
      → contains s ((require_present creating s c o).1) ≡ false
      → member s ((require_present creating s c o).1.unusable_subsystems) ≡ true
  unfolding member
  present-noted s c none g h = rw ((text_key.beq_iff s s).1 refl) refl
  present-noted s c (some path) g h = tried-noted s path c (creating s path) (ap is_there g) h

  pub after_require-noted :
      (s : Text) (c : Cgroup)
      → contains s (after_require creating s c) ≡ false
      → member s (after_require creating s c).unusable_subsystems ≡ true
  unfolding require_subsystem
  after_require-noted s c h = present-noted s c (get s c.per_subsystem) refl h
