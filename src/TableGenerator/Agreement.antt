-- ===== src/TableGenerator/Agreement.antt =====
-- Which rows filter_rows_with_differences of benchexec/tablegenerator/__init__.py selects.
use benchexec.Prelude.{
  ℕ, zero, suc, ◌≡◌, ◌↔◌, ◌≤◌, refl, ap, sym, ◌∙◌, subst, ◌⊎◌, inl, inr, Bool, true, false,
  Bool-cases, some, List, [], ◌∷◌, length, get_elem?, Text, leb, leb→le, arith, if-holds,
}
use benchexec.Prelude.Dict.{Eq, member, text_key, Distinct}
use benchexec.Prelude.Outcome.{Outcome, returned, >>=-eq-returned, returned-injective}
use benchexec.TableGenerator.Differences.{
  ComparedResult, DiffFailure, value_of, has_values, cons_if, values_of, to_set,
}

module _ {V : Type 0} ⦃e : Eq V⦄ where
  member-to_set : (a : V) (vs : List V) → member a (to_set vs) ≡ member a vs
  unfolding member
  member-to_set a [] = refl
  member-to_set a (v ∷ vs) = elim (Bool-cases (e.beq a v)) [
    | inl same ↦
        let eq : member a (to_set vs) ≡ member v (to_set vs) =
          ap (λ (z : V). member z (to_set vs)) ((e.beq_iff a v).0 same) in
        ground (arith, member-to_set a vs)
    | inr other ↦ ground (arith, member-to_set a vs)
  ]

  Distinct-to_set : (vs : List V) → Distinct (to_set vs)
  Distinct-to_set [] = tt
  Distinct-to_set (v ∷ vs) =
      if-holds Distinct (member v (to_set vs)) (λ old. Distinct-to_set vs)
        (λ new. (new, Distinct-to_set vs))

  -- Of a set with at most one element, any two elements are equal, and conversely.
  only_one : (s : List V) (a b : V) → length s ≤ 1 → member a s ≡ true → member b s ≡ true → a ≡ b
  unfolding member
  only_one [] a b h ha hb = cc
  only_one (x ∷ []) a b h ha hb =
      (e.beq_iff a x).0 (ground arith) ∙ sym ((e.beq_iff b x).0 (ground arith))
  only_one (x ∷ y ∷ s) a b h ha hb = absurd (omega arith)

  at_most_one :
      (s : List V)
      → Distinct s
      → ((a b : V) → member a s ≡ true → member b s ≡ true → a ≡ b)
      → length s ≤ 1
  unfolding member
  at_most_one [] d h = omega arith
  at_most_one (x ∷ []) d h = omega arith
  at_most_one (x ∷ y ∷ s) d h =
      let here : e.beq x x ≡ true = (e.beq_iff x x).1 refl in
      let there : e.beq y y ≡ true = (e.beq_iff y y).1 refl in
      let same : x ≡ y = h x y (ground arith) (ground arith) in
      let equal : e.beq x y ≡ true = (e.beq_iff x y).1 same in absurd (ground arith)

  cons_if-eq-returned :
      (has : Bool) (value : Outcome DiffFailure V) (rest vs : List V)
      → cons_if has value rest ≡ returned vs
      → ((has ≡ false) × (rest ≡ vs))
        ⊎ ((has ≡ true) × ((v : V) × (value ≡ returned v) × (v ∷ rest ≡ vs)))
  cons_if-eq-returned false value rest vs h = inl (refl, returned-injective h)
  cons_if-eq-returned true value rest vs h =
      let (v, ev, k) = >>=-eq-returned value _ h in inr (refl, (v, ev, returned-injective k))

  member-head : (v : V) (vs : List V) → member v (v ∷ vs) ≡ true
  unfolding member
  member-head v vs = let same : e.beq v v ≡ true = (e.beq_iff v v).1 refl in ground arith

  member-tail : (v x : V) (vs : List V) → member v vs ≡ true → member v (x ∷ vs) ≡ true
  unfolding member
  member-tail v x vs h = ground arith

  -- A result with values has its value among those of the column.
  value-collected :
      (col : Text) (results : List (ComparedResult V)) (vs : List V) (i : ℕ) (r : ComparedResult V)
      → values_of col results ≡ returned vs
      → get_elem? results i ≡ some r
      → has_values r ≡ true
      → (v : V) × (value_of col r ≡ returned v) × (member v vs ≡ true)
  unfolding values_of member
  value-collected col [] vs i r h at has = cc
  value-collected col (x ∷ results) vs zero r h at has =
      let same : x ≡ r = cc in
      let (rest, _, k) = >>=-eq-returned (values_of col results) _ h in
      elim (cons_if-eq-returned (has_values x) (value_of col x) rest vs k) [
        | inl (without, _) ↦
            absurd (clash (has_values r) has (subst (λ q. has_values q ≡ false) same without))
        | inr (_, (v, ev, evs)) ↦ (
          v,
          subst (λ q. value_of col q ≡ returned v) same ev,
          subst (λ l. member v l ≡ true) evs (member-head v rest),
        )
      ]
    where
      clash : (b : Bool) → b ≡ true → b ≡ false → ⊥
      clash b p q = cc
  value-collected col (x ∷ results) vs (suc i) r h at has =
      let (rest, kept, k) = >>=-eq-returned (values_of col results) _ h in
      let (v, ev, m) = value-collected col results rest i r kept at has in
      elim (cons_if-eq-returned (has_values x) (value_of col x) rest vs k) [
        | inl (_, evs) ↦ (v, ev, subst (λ l. member v l ≡ true) evs m)
        | inr (_, (w, _, evs)) ↦
            (v, ev, subst (λ l. member v l ≡ true) evs (member-tail v w rest m))
      ]

  -- A value of a column is that of a result.
  abbrev HasValue : Text → V → List (ComparedResult V) → Type 0
  HasValue col v results =
      (i : ℕ) × (r : ComparedResult V) × (get_elem? results i ≡ some r)
      × (has_values r ≡ true)
      × (value_of col r ≡ returned v)

  HasValue-cons :
      (col : Text) (v : V) (x : ComparedResult V) (results : List (ComparedResult V))
      → HasValue col v results
      → HasValue col v (x ∷ results)
  HasValue-cons col v x results (i, r, at, has, ev) = (suc i, r, at, has, ev)

  HasValue-first :
      (col : Text) (v w : V) (x : ComparedResult V) (results : List (ComparedResult V))
      (rest : List V)
      → has_values x ≡ true
      → value_of col x ≡ returned w
      → (member v rest ≡ true → HasValue col v results)
      → member v (w ∷ rest) ≡ true
      → HasValue col v (x ∷ results)
  unfolding member
  HasValue-first col v w x results rest has ev later m = elim (Bool-cases (e.beq v w)) [
    | inl same ↦ (0, x, refl, has, ev ∙ ap returned (sym ((e.beq_iff v w).0 same)))
    | inr other ↦ HasValue-cons col v x results (later (ground arith))
  ]

  collected-HasValue :
      (col : Text) (results : List (ComparedResult V)) (vs : List V) (v : V)
      → values_of col results ≡ returned vs
      → member v vs ≡ true
      → HasValue col v results
  unfolding values_of member
  collected-HasValue col [] vs v h m =
      absurd (none_in (subst (λ l. member v l ≡ true) (sym (returned-injective h)) m))
    where
      none_in : member v [] ≡ true → ⊥
      none_in p = cc
  collected-HasValue col (x ∷ results) vs v h m =
      let (rest, kept, k) = >>=-eq-returned (values_of col results) _ h in
      let later : member v rest ≡ true → HasValue col v results =
        λ p. collected-HasValue col results rest v kept p in
      elim (cons_if-eq-returned (has_values x) (value_of col x) rest vs k) [
        | inl (_, evs) ↦
            HasValue-cons col v x results (later (subst (λ l. member v l ≡ true) (sym evs) m))
        | inr (has, (w, ev, evs)) ↦
            HasValue-first col v w x results rest has ev later
              (subst (λ l. member v l ≡ true) (sym evs) m)
      ]

  -- Any two results of a row that have values agree on a column.
  pub AgreeOn : List (ComparedResult V) → Text → Type 0
  AgreeOn results col =
      (i j : ℕ) (r q : ComparedResult V)
      → get_elem? results i ≡ some r
      → get_elem? results j ≡ some q
      → has_values r ≡ true
      → has_values q ≡ true
      → value_of col r ≡ value_of col q

  pub one_value_iff :
      (col : Text) (results : List (ComparedResult V)) (vs : List V)
      → values_of col results ≡ returned vs
      → (leb (length (to_set vs)) 1 ≡ true) ↔ AgreeOn results col
  unfolding AgreeOn
  one_value_iff col results vs h = (agree, one)
    where
      agree : leb (length (to_set vs)) 1 ≡ true → AgreeOn results col
      agree few i j r q at_i at_j has_r has_q =
          let (v, ev, mv) = value-collected col results vs i r h at_i has_r in
          let (w, ew, mw) = value-collected col results vs j q h at_j has_q in
          let same : v ≡ w =
            only_one (to_set vs) v w (leb→le (length (to_set vs)) 1 few) (member-to_set v vs ∙ mv)
              (member-to_set w vs ∙ mw) in
          ev ∙ ap returned same ∙ sym ew

      one : AgreeOn results col → leb (length (to_set vs)) 1 ≡ true
      one agreed =
          let few : length (to_set vs) ≤ 1 = at_most_one (to_set vs) (Distinct-to_set vs) equal in
          ground arith
        where
          equal : (a b : V) → member a (to_set vs) ≡ true → member b (to_set vs) ≡ true → a ≡ b
          equal a b ma mb =
              let (i, r, at_i, has_r, ea) =
                collected-HasValue col results vs a h (sym (member-to_set a vs) ∙ ma) in
              let (j, q, at_j, has_q, eb) =
                collected-HasValue col results vs b h (sym (member-to_set b vs) ∙ mb) in
              returned-injective (sym ea ∙ agreed i j r q at_i at_j has_r has_q ∙ eb)
