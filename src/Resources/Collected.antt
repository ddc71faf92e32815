-- ===== src/Resources/Collected.antt =====
-- What the loops of _get_cpu_cores_per_run0 in benchexec/resources.py collect for a run.
use benchexec.Prelude.{
  append_assoc, append-nil, ◌%◌, ltb→lt, ◌<◌, ℕ, zero, suc, ◌*◌, ◌≡◌, refl, ap, sym, ◌∙◌, subst,
  Bool, true, false, Option, none, some, List, [], ◌∷◌, ◌++◌, ltb, leb, ◌==◌, length, take,
  get_elem?, arith, ◌⊎◌, inl, inr, Bool-cases,
}
use benchexec.Prelude.Outcome.{
  >>-eq-returned, returned, require, returned-injective, >>=-eq-returned,
}
use benchexec.Prelude.Dict.{member, without, nat_eq, get, member-without, member-append}
use benchexec.Resources.Machine.{Failure, or_raise, assertion_error}
use benchexec.Resources.Plan.{Plan}
use benchexec.Prelude.Sorting.{sorted, distinct_count}
use benchexec.Resources.Assignment.{
  Assigning, assign_run, assign_runs, assign_cores, blocked, none_of, all_lengths, chain, add_core,
  take_cores, fill_unit, fill_units, Filling,
}

or_raise-eq_returned {ℓ} :
    {A : Type ℓ} (e : Failure) (o : Option A) {a : A} → or_raise e o ≡ returned a → o ≡ some a
or_raise-eq_returned e none h = cc
or_raise-eq_returned e (some b) h = ap some (returned-injective h)

-- What is true of the cores that a run has, as it adds the unused ones among the siblings of a core.
module _ (p : Plan) (used : List ℕ) (P : List ℕ → Type 0)
    (grow : (cores siblings : List ℕ) (core : ℕ)
      → get core p.siblings_of_core ≡ some siblings
      → P cores
      → P (cores ++ without used siblings)) where
  add_core_ind :
      (cores grown : List ℕ) (core : ℕ)
      → P cores
      → add_core p used cores core ≡ returned grown
      → P grown
  unfolding add_core
  add_core_ind cores grown core h e = elim (Bool-cases (member core cores)) [
    | inl old ↦ subst P (returned-injective (rw old at e)) h
    | inr new ↦
        let (siblings, found, ends) =
          >>=-eq-returned (or_raise _ (get core p.siblings_of_core)) _ (rw new at e) in
        subst P (returned-injective ends)
          (grow cores siblings core (or_raise-eq_returned _ _ found) h)
  ]

  pub take_cores_ind :
      (available cores grown : List ℕ)
      → P cores
      → take_cores p used cores available ≡ returned grown
      → P grown
  unfolding take_cores
  take_cores_ind [] cores grown h e = subst P (returned-injective e) h
  take_cores_ind (core ∷ rest) cores grown h e =
      let (more, added, ends) = >>=-eq-returned (add_core p used cores core) _ e in
      let kept = add_core_ind cores more core h added in
      elim (Bool-cases (leb p.core_limit (length more))) [
        | inl enough ↦ subst P (returned-injective (rw enough at ends)) kept
        | inr few ↦ take_cores_ind rest more grown kept (rw few at ends)
      ]

require-eq_returned : (b : Bool) (e : Failure) {u : Unit {0}} → require b e ≡ returned u → b ≡ true
require-eq_returned true e h = refl
require-eq_returned false e h = cc

-- What is true as a run takes cores from one unit after the other.
module _ (p : Plan) (used : List ℕ) (Q : Filling → Type 0)
    (step : (f : Filling) (available grown : List ℕ) (left : List (ℕ × List ℕ))
      → length f.cores < p.core_limit
      → take_cores p used f.cores available ≡ returned grown
      → Q f
      → Q (record {
        cores_of_unit = left;
        cores = take p.core_limit grown;
        cores_with_siblings = f.cores_with_siblings ++ grown;
      })) where
  fill_unit_ind :
      (unit_nr : ℕ) (f g : Filling) → Q f → fill_unit p used unit_nr f ≡ returned g → Q g
  unfolding fill_unit
  fill_unit_ind unit_nr f g h e =
      let (room, e1) = >>-eq-returned (ltb (length f.cores) p.core_limit) _ _ e in
      let (unit, u, e2) = >>=-eq-returned (or_raise _ (get_elem? p.units unit_nr)) _ e1 in
      let (available, v, e3) = >>=-eq-returned (or_raise _ (get unit f.cores_of_unit)) _ e2 in
      let (grown, taken, e4) = >>=-eq-returned (take_cores p used f.cores available) _ e3 in
      subst Q (returned-injective e4) (step f available grown _ (ltb→lt _ _ room) taken h)

  pub fill_units_ind :
      (count unit_nr : ℕ) (f g : Filling)
      → Q f
      → fill_units p used count unit_nr f ≡ returned g
      → Q g
  unfolding fill_units
  fill_units_ind zero unit_nr f g h e = subst Q (returned-injective e) h
  fill_units_ind (suc count) unit_nr f g h e =
      let (next, filled, ends) = >>=-eq-returned (fill_unit p used unit_nr f) _ e in
      fill_units_ind count (suc unit_nr) next g (fill_unit_ind unit_nr f next h filled) ends

-- Two cores share a physical core: the table lists one beside the other.
pub record AreSiblings (d : List (ℕ × List ℕ)) (core other : ℕ) : Type 0 where
  pub siblings : List ℕ
  pub listed : get core d ≡ some siblings
  pub beside : member other siblings ≡ true

pub member-take : (c n : ℕ) (xs : List ℕ) → member c (take n xs) ≡ true → member c xs ≡ true
unfolding member
member-take c zero xs h = cc
member-take c (suc n) [] h = h
member-take c (suc n) (x ∷ xs) h = ground (arith, member-take c n xs)

-- What a run has collected: cores that were not used, each a sibling of some core.
pub record IsDrawn (d : List (ℕ × List ℕ)) (used cores : List ℕ) : Type 0 where
  pub fresh : (c : ℕ) → member c cores ≡ true → member c used ≡ false
  pub source : (c : ℕ) → member c cores ≡ true → (k : ℕ) × AreSiblings d k c

module _ (d : List (ℕ × List ℕ)) (used : List ℕ) where
  IsDrawn-nil : IsDrawn d used []
  unfolding member
  IsDrawn-nil = record { fresh = λ c h. cc; source = λ c h. cc }

  IsDrawn-append :
      (xs ys : List ℕ) → IsDrawn d used xs → IsDrawn d used ys → IsDrawn d used (xs ++ ys)
  IsDrawn-append xs ys a b = record {
    fresh = λ c h. elim (either c h) [ inl m ↦ a.fresh c m | inr m ↦ b.fresh c m ];
    source = λ c h. elim (either c h) [ inl m ↦ a.source c m | inr m ↦ b.source c m ];
  }
    where
      either : (c : ℕ) → member c (xs ++ ys) ≡ true → (member c xs ≡ true) ⊎ (member c ys ≡ true)
      either c h = ground (arith, member-append c xs ys)

  IsDrawn-without :
      (core : ℕ) (siblings : List ℕ)
      → get core d ≡ some siblings
      → IsDrawn d used (without used siblings)
  IsDrawn-without core siblings found = record {
    fresh = λ c h. ground (arith, member-without c used siblings);
    source = λ c h. (
      core,
      record {
        siblings = siblings;
        listed = found;
        beside = ground (arith, member-without c used siblings);
      },
    );
  }

  IsDrawn-take : (n : ℕ) (xs : List ℕ) → IsDrawn d used xs → IsDrawn d used (take n xs)
  IsDrawn-take n xs a = record {
    fresh = λ c h. a.fresh c (member-take c n xs h);
    source = λ c h. a.source c (member-take c n xs h);
  }

module _ (p : Plan) (used : List ℕ) where
  take_cores-IsDrawn :
      (available cores grown : List ℕ)
      → IsDrawn p.siblings_of_core used cores
      → take_cores p used cores available ≡ returned grown
      → IsDrawn p.siblings_of_core used grown
  take_cores-IsDrawn =
      take_cores_ind p used (IsDrawn p.siblings_of_core used) λ cores siblings core found h.
        IsDrawn-append _ used cores _ h (IsDrawn-without _ used core siblings found)

  -- The cores of the run, and with them their siblings, while they are collected.
  pub record IsFilled (f : Filling) : Type 0 where
    pub drawn : IsDrawn p.siblings_of_core used f.cores
    pub blocked_drawn : IsDrawn p.siblings_of_core used f.cores_with_siblings
    pub inside : (c : ℕ) → member c f.cores ≡ true → member c f.cores_with_siblings ≡ true

  fill_step-IsFilled :
      (f : Filling) (available grown : List ℕ) (left : List (ℕ × List ℕ))
      → length f.cores < p.core_limit
      → take_cores p used f.cores available ≡ returned grown
      → IsFilled f
      → IsFilled (record {
        cores_of_unit = left;
        cores = take p.core_limit grown;
        cores_with_siblings = f.cores_with_siblings ++ grown;
      })
  fill_step-IsFilled f available grown left room taken h = record {
    drawn = IsDrawn-take _ used p.core_limit grown more;
    blocked_drawn = IsDrawn-append _ used f.cores_with_siblings grown h.blocked_drawn more;
    inside = λ c m.
        ground
          (arith, member-append c f.cores_with_siblings grown, member-take c p.core_limit grown m);
  }
    where
      more : IsDrawn p.siblings_of_core used grown
      more = take_cores-IsDrawn available f.cores grown h.drawn taken

  -- All that the loop over the units collects is fresh and listed, and the cores are blocked.
  pub fill_units-IsFilled :
      (count unit_nr : ℕ) (f g : Filling)
      → IsFilled f
      → fill_units p used count unit_nr f ≡ returned g
      → IsFilled g
  fill_units-IsFilled = fill_units_ind p used IsFilled fill_step-IsFilled

  abbrev pub empty_filling : List (ℕ × List ℕ) → Filling
  empty_filling left = record { cores_of_unit = left; cores = []; cores_with_siblings = [] }

  pub empty-IsFilled : (left : List (ℕ × List ℕ)) → IsFilled (empty_filling left)
  unfolding member
  empty-IsFilled left = record {
    drawn = IsDrawn-nil _ used;
    blocked_drawn = IsDrawn-nil _ used;
    inside = λ c m. cc;
  }

pub chain-snoc :
    (result : List (List ℕ)) (cores : List ℕ) → chain (result ++ cores ∷ []) ≡ chain result ++ cores
chain-snoc [] cores = append-nil cores
chain-snoc (x ∷ result) cores =
    ap (λ l. x ++ l) (chain-snoc result cores) ∙ sym (append_assoc x (chain result) cores)

-- What a run that is assigned has gone through.
pub record IsRun (p : Plan) (run : ℕ) (a b : Assigning) : Type 0 where
  pub filling : Filling
  pub filled :
      fill_units p a.used_cores p.units_per_run
        ((run * p.units_per_run) % p.unit_count)
        (empty_filling p a.used_cores a.cores_of_unit)
      ≡ returned filling
  pub full : (length filling.cores == p.core_limit) ≡ true
  pub after :
      record {
        cores_of_unit = filling.cores_of_unit;
        used_cores = a.used_cores ++ blocked p filling;
        result = a.result ++ sorted filling.cores ∷ [];
      }
      ≡ b

pub assign_run-eq_returned :
    (p : Plan) (run : ℕ) (a b : Assigning) → assign_run p run a ≡ returned b → IsRun p run a b
unfolding assign_run
assign_run-eq_returned p run a b e =
    let (f, filled, e1) =
      >>=-eq-returned
        (fill_units p a.used_cores p.units_per_run ((run * p.units_per_run) % p.unit_count)
          (empty_filling p a.used_cores a.cores_of_unit))
        _ e in
    let (full, e2) = >>-eq-returned (length f.cores == p.core_limit) assertion_error _ e1 in
    let (apart, e3) = >>-eq-returned (none_of a.used_cores (blocked p f)) assertion_error _ e2 in
    record { filling = f; filled = filled; full = full; after = returned-injective e3 }

-- What an assignment that is returned has gone through.
pub record IsReturned (p : Plan) (cores_of_unit : List (ℕ × List ℕ)) (result : List (List ℕ))
    : Type 0 where
  pub last : Assigning
  pub ran :
      assign_runs p p.num_of_threads 0
        (record { cores_of_unit = cores_of_unit; used_cores = []; result = [] })
      ≡ returned last
  pub counted : (length last.result == p.num_of_threads) ≡ true
  pub sized : all_lengths p.core_limit last.result ≡ true
  pub distinct : (distinct_count (chain last.result) == p.num_of_threads * p.core_limit) ≡ true
  pub after : last.result ≡ result

pub assign_cores-eq_returned :
    (p : Plan) (cores_of_unit : List (ℕ × List ℕ)) (result : List (List ℕ))
    → assign_cores p cores_of_unit ≡ returned result
    → IsReturned p cores_of_unit result
unfolding assign_cores
assign_cores-eq_returned p cores_of_unit result e =
    let (a, ran, e1) =
      >>=-eq-returned
        (assign_runs p p.num_of_threads 0
          (record { cores_of_unit = cores_of_unit; used_cores = []; result = [] }))
        _ e in
    let (h1, e2) = >>-eq-returned (length a.result == p.num_of_threads) assertion_error _ e1 in
    let (h2, e3) = >>-eq-returned (all_lengths p.core_limit a.result) assertion_error _ e2 in
    let (h3, e4) =
      >>-eq-returned (distinct_count (chain a.result) == p.num_of_threads * p.core_limit)
        assertion_error _ e3 in
    record {
      last = a;
      ran = ran;
      counted = h1;
      sized = h2;
      distinct = h3;
      after = returned-injective e4;
    }

-- What every run keeps holds of the last state.
module _ (p : Plan) (I : Assigning → Type 0)
    (keep : (run : ℕ) (a b : Assigning) → I a → IsRun p run a b → I b) where
  pub assign_runs_ind :
      (count run : ℕ) (a b : Assigning) → I a → assign_runs p count run a ≡ returned b → I b
  unfolding assign_runs
  assign_runs_ind zero run a b h e = subst I (returned-injective e) h
  assign_runs_ind (suc count) run a b h e =
      let (next, ran, rest) = >>=-eq-returned (assign_run p run a) _ e in
      assign_runs_ind count (suc run) next b
        (keep run a next h (assign_run-eq_returned p run a next ran)) rest
