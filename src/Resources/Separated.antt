-- ===== src/Resources/Separated.antt =====
-- Where hyper-threading is not needed, _get_cpu_cores_per_run0 of benchexec/resources.py puts no two
-- runs on one physical core.
use benchexec.Prelude.{
  ℕ, ◌<◌, ◌≡◌, ap, sym, ◌∙◌, subst, Bool, true, false, some, List, [], ◌∷◌, ◌++◌, length, take,
  arith, ◌⊎◌, inl, inr, Bool-cases, append_assoc,
}
use mathlib.Core.Option.{some-injective}
use benchexec.Prelude.Outcome.{returned}
use benchexec.Prelude.Dict.{member, without, nat_eq, get, member-without, member-append}
use benchexec.Prelude.Sorting.{sorted, member-sorted}
use benchexec.Resources.Plan.{Plan}
use benchexec.Resources.Assignment.{
  take_cores, fill_units, Filling, Assigning, assign_cores, chain, blocked,
}
use benchexec.Resources.Collected.{
  take_cores_ind, fill_units_ind, AreSiblings, member-take, IsFilled, fill_units-IsFilled,
  empty_filling, empty-IsFilled, chain-snoc, IsRun, assign_cores-eq_returned, assign_runs_ind,
}

-- A table of siblings in which siblings have the same siblings.
pub record IsSiblingTable (d : List (ℕ × List ℕ)) : Type 0 where
  pub shared : (k c s : ℕ) → AreSiblings d k c → AreSiblings d c s → AreSiblings d k s

-- The siblings of the cores lie in the second list of cores, or are used.
abbrev ClosedIn : List (ℕ × List ℕ) → List ℕ → List ℕ → List ℕ → Type 0
ClosedIn d used cores all =
    (c s : ℕ)
    → member c cores ≡ true
    → AreSiblings d c s
    → (member s used ≡ true) ⊎ (member s all ≡ true)

either :
    (c : ℕ) (xs ys : List ℕ)
    → member c (xs ++ ys) ≡ true
    → (member c xs ≡ true) ⊎ (member c ys ≡ true)
either c xs ys h = ground (arith, member-append c xs ys)

member-append_left : (c : ℕ) (xs ys : List ℕ) → member c xs ≡ true → member c (xs ++ ys) ≡ true
member-append_left c xs ys h = ground (arith, member-append c xs ys)

member-append_right : (c : ℕ) (xs ys : List ℕ) → member c ys ≡ true → member c (xs ++ ys) ≡ true
member-append_right c xs ys h = ground (arith, member-append c xs ys)

module _ (p : Plan) (used : List ℕ) (table : IsSiblingTable p.siblings_of_core) where
  -- With what was blocked before, the collected cores are closed.
  abbrev GrownClosed : List ℕ → List ℕ → Type 0
  GrownClosed base cores = ClosedIn p.siblings_of_core used cores (base ++ cores)

  grow-closed :
      (base cores siblings : List ℕ) (core : ℕ)
      → get core p.siblings_of_core ≡ some siblings
      → GrownClosed base cores
      → GrownClosed base (cores ++ without used siblings)
  grow-closed base cores siblings core found h c s m sib =
      elim (either c cores (without used siblings) m) [
        | inl old ↦ elim (h c s old sib) [
          | inl u ↦ inl u
          | inr k ↦ inr (
              ground (
                arith,
                member-append s base cores,
                member-append s base (cores ++ without used siblings),
                member-append s cores (without used siblings),
              ))
        ]
        | inr new ↦
            let of_core : AreSiblings p.siblings_of_core core c = record {
              siblings = siblings;
              listed = found;
              beside = ground (arith, member-without c used siblings);
            } in
            let also = table.shared core c s of_core sib in
            let beside : member s siblings ≡ true =
              subst (λ (l : List ℕ). member s l ≡ true)
                (some-injective _ _ (sym also.listed ∙ found)) also.beside in
            elim (Bool-cases (member s used)) [
              | inl u ↦ inl u
              | inr n ↦ inr (
                  ground (
                    arith,
                    member-without s used siblings,
                    member-append s base (cores ++ without used siblings),
                    member-append s cores (without used siblings),
                  ))
            ]
      ]

  -- What a run blocks is closed.
  record IsClosed (f : Filling) : Type 0 where
    closed : ClosedIn p.siblings_of_core used f.cores_with_siblings f.cores_with_siblings
    inside : (c : ℕ) → member c f.cores ≡ true → member c f.cores_with_siblings ≡ true

  fill_step-IsClosed :
      (f : Filling) (available grown : List ℕ) (left : List (ℕ × List ℕ))
      → length f.cores < p.core_limit
      → take_cores p used f.cores available ≡ returned grown
      → IsClosed f
      → IsClosed (record {
        cores_of_unit = left;
        cores = take p.core_limit grown;
        cores_with_siblings = f.cores_with_siblings ++ grown;
      })
  fill_step-IsClosed f available grown left room taken h = record {
    closed = λ c s m sib. elim (either c f.cores_with_siblings grown m) [
      | inl old ↦ elim (h.closed c s old sib) [
        | inl u ↦ inl u
        | inr k ↦ inr (member-append_left s f.cores_with_siblings grown k)
      ]
      | inr new ↦ more c s new sib
    ];
    inside = λ c m.
        member-append_right c f.cores_with_siblings grown (member-take c p.core_limit grown m);
  }
    where
      start : GrownClosed f.cores_with_siblings f.cores
      start c s m sib = elim (h.closed c s (h.inside c m) sib) [
        | inl u ↦ inl u
        | inr k ↦ inr (member-append_left s f.cores_with_siblings f.cores k)
      ]

      more : GrownClosed f.cores_with_siblings grown
      more =
          take_cores_ind p used (GrownClosed f.cores_with_siblings)
            (grow-closed f.cores_with_siblings) available f.cores grown start taken

  empty-IsClosed : (left : List (ℕ × List ℕ)) → IsClosed (empty_filling p used left)
  unfolding member
  empty-IsClosed left = record { closed = λ c s m sib. cc; inside = λ c m. cc }

  fill_units-IsClosed :
      (count unit_nr : ℕ) (f g : Filling)
      → IsClosed f
      → fill_units p used count unit_nr f ≡ returned g
      → IsClosed g
  fill_units-IsClosed = fill_units_ind p used IsClosed fill_step-IsClosed

-- No core of a run is listed as a sibling of a core of an earlier run, or of a core in `before`.
abbrev pub Separated : List (ℕ × List ℕ) → List ℕ → List (List ℕ) → Type 0
Separated d before [] = Unit
Separated d before (cores ∷ result) =
    ((b c : ℕ) → member b before ≡ true → member c cores ≡ true → ¬ AreSiblings d b c)
    × Separated d (before ++ cores) result

Separated-snoc :
    (d : List (ℕ × List ℕ)) (before : List ℕ) (result : List (List ℕ)) (cores : List ℕ)
    → Separated d before result
    → ((b c : ℕ)
        → member b (before ++ chain result) ≡ true
        → member c cores ≡ true
        → ¬ AreSiblings d b c)
    → Separated d before (result ++ cores ∷ [])
Separated-snoc d before [] cores h new = (λ b c m. new b c (member-append_left b before [] m), tt)
Separated-snoc d before (x ∷ result) cores h new = (
  h.0,
  Separated-snoc d (before ++ x) result cores h.1 λ b c m.
      new b c (subst (λ (l : List ℕ). member b l ≡ true) (append_assoc before x (chain result)) m),
)

module _ (p : Plan) (table : IsSiblingTable p.siblings_of_core) (no_ht : p.need_ht ≡ false) where
  record Inv (a : Assigning) : Type 0 where
    closed :
        (c s : ℕ)
        → member c a.used_cores ≡ true
        → AreSiblings p.siblings_of_core c s
        → member s a.used_cores ≡ true
    covered : (c : ℕ) → member c (chain a.result) ≡ true → member c a.used_cores ≡ true
    apart : Separated p.siblings_of_core [] a.result

  blocked-eq : (f : Filling) → blocked p f ≡ f.cores_with_siblings
  blocked-eq f = rw no_ht

  run-Inv :
      (a : Assigning) (f : Filling) (left : List (ℕ × List ℕ))
      → Inv a
      → IsFilled p a.used_cores f
      → IsClosed p a.used_cores table f
      → Inv (record {
        cores_of_unit = left;
        used_cores = a.used_cores ++ f.cores_with_siblings;
        result = a.result ++ sorted f.cores ∷ [];
      })
  run-Inv a f left inv filled closing = record {
    closed = λ c s m sib. elim (either c a.used_cores f.cores_with_siblings m) [
      | inl old ↦ member-append_left s a.used_cores _ (inv.closed c s old sib)
      | inr new ↦ elim (closing.closed c s new sib) [
        | inl u ↦ member-append_left s a.used_cores _ u
        | inr k ↦ member-append_right s a.used_cores _ k
      ]
    ];
    covered = λ c m.
        elim (either c (chain a.result) (sorted f.cores)
          (subst (λ (l : List ℕ). member c l ≡ true) (chain-snoc a.result (sorted f.cores)) m)) [
            | inl old ↦ member-append_left c a.used_cores _ (inv.covered c old)
            | inr new ↦
                member-append_right c a.used_cores _
                  (closing.inside c (sym (member-sorted c f.cores) ∙ new))
          ];
    apart = Separated-snoc _ [] a.result (sorted f.cores) inv.apart λ b c m n sib. absurd (
        clash (inv.closed b c (inv.covered b m) sib)
          (filled.drawn.fresh c (sym (member-sorted c f.cores) ∙ n)));
  }
    where
      clash : {x : Bool} → x ≡ true → x ≡ false → ⊥
      clash t u = cc

  keep_Inv : (run : ℕ) (a b : Assigning) → Inv a → IsRun p run a b → Inv b
  keep_Inv run a b inv r =
      let f = r.filling in
      subst Inv
        (ap
            (λ (l : List ℕ). record {
              cores_of_unit = f.cores_of_unit;
              used_cores = a.used_cores ++ l;
              result = a.result ++ sorted f.cores ∷ [];
            })
            (sym (blocked-eq f))
          ∙ r.after)
        (run-Inv a f f.cores_of_unit inv
          (fill_units-IsFilled p a.used_cores _ _ _ f
            (empty-IsFilled p a.used_cores a.cores_of_unit) r.filled)
          (fill_units-IsClosed p a.used_cores table _ _ _ f
            (empty-IsClosed p a.used_cores table a.cores_of_unit) r.filled))

  empty-Inv :
      (left : List (ℕ × List ℕ))
      → Inv (record { cores_of_unit = left; used_cores = []; result = [] })
  unfolding member
  empty-Inv left = record { closed = λ c s m sib. cc; covered = λ c m. cc; apart = tt }

-- Where the plan needs no hyper-threading and siblings have the same siblings, the cores of a run
-- are no siblings of the cores of an earlier run.
pub assign_cores-Separated :
    (p : Plan) (cores_of_unit : List (ℕ × List ℕ)) (result : List (List ℕ))
    → IsSiblingTable p.siblings_of_core
    → p.need_ht ≡ false
    → assign_cores p cores_of_unit ≡ returned result
    → Separated p.siblings_of_core [] result
assign_cores-Separated p cores_of_unit result table no_ht e =
    let r = assign_cores-eq_returned p cores_of_unit result e in
    subst (Separated p.siblings_of_core []) r.after
      (assign_runs_ind p (Inv p table no_ht) (keep_Inv p table no_ht) p.num_of_threads 0 _ r.last
        (empty-Inv p table no_ht cores_of_unit) r.ran).apart
