-- ===== src/TableGenerator/Selected.antt =====
-- The rows that filter_rows_with_differences of benchexec/tablegenerator/__init__.py returns.
use benchexec.Prelude.{
  suc, ap, ◌≡◌, ◌↔◌, ◌≤◌, refl, sym, subst, inl, inr, Bool, true, false, ◌&&◌, Bool-cases, List, [],
  ◌∷◌, length, Text, ◌==◌, ==_iff, leb, arith, All, if-holds,
}
use benchexec.Prelude.Dict.{Eq, member, text_key}
use benchexec.Prelude.Outcome.{returned, >>=-eq-returned, returned-injective}
use benchexec.TableGenerator.Differences.{
  ComparedResult, relevant_columns, values_of, to_set, all_equal_on, all_equal_result,
  different_rows, unless_all, filter_rows_with_differences,
}
use benchexec.TableGenerator.Agreement.{AgreeOn, one_value_iff}

module _ {V : Type 0} ⦃e : Eq V⦄ where
  -- The results of a row agree on each of the relevant columns.
  pub IsUniform : List (ComparedResult V) → Type 0
  IsUniform row = (col : Text) → member col (relevant_columns row) ≡ true → AgreeOn row col

  -- The rows that are not uniform, in their order.
  pub data IsSelection
      : List (List (ComparedResult V)) → List (List (ComparedResult V)) → Type 0 where
    nothing : IsSelection [] []
    uniform :
        {row : List (ComparedResult V)} {rows out : List (List (ComparedResult V))}
        → IsUniform row
        → IsSelection rows out
        → IsSelection (row ∷ rows) out
    differing :
        {row : List (ComparedResult V)} {rows out : List (List (ComparedResult V))}
        → (IsUniform row → ⊥)
        → IsSelection rows out
        → IsSelection (row ∷ rows) (row ∷ out)

  all_equal_on_iff :
      (results : List (ComparedResult V)) (cols : List Text) (b : Bool)
      → all_equal_on results cols ≡ returned b
      → (b ≡ true) ↔ ((col : Text) → member col cols ≡ true → AgreeOn results col)
  unfolding member
  all_equal_on_iff results [] b h = (λ _ col m. absurd cc, λ _. sym (returned-injective h))
  all_equal_on_iff results (c ∷ cols) b h =
      let (vs, collected, h1) = >>=-eq-returned (values_of c results) _ h in
      let (rest, others, h2) = >>=-eq-returned (all_equal_on results cols) _ h1 in
      let both : (leb (length (to_set vs)) 1 && rest) ≡ b = returned-injective h2 in
      let one = one_value_iff c results vs collected in
      let more = all_equal_on_iff results cols rest others in
      (
        λ all col m. elim (Bool-cases (text_key.beq col c)) [
          | inl same ↦
              subst (AgreeOn results) (sym ((text_key.beq_iff col c).0 same)) (one.0 (ground arith))
          | inr other ↦ more.0 (ground arith) col (ground arith)
        ],
        λ agree.
            let first : leb (length (to_set vs)) 1 ≡ true = one.1 (
              agree c (
                let here : text_key.beq c c ≡ true = (text_key.beq_iff c c).1 refl in
                ground arith)) in
            let last : rest ≡ true = more.1 (λ col m. agree col (ground arith)) in ground arith,
      )

  different_rows-IsSelection :
      (rows out : List (List (ComparedResult V)))
      → different_rows rows ≡ returned out
      → IsSelection rows out
  unfolding all_equal_result IsUniform
  different_rows-IsSelection [] out h = subst (IsSelection []) (returned-injective h) nothing
  different_rows-IsSelection (row ∷ rows) out h =
      let (same, equal, h1) = >>=-eq-returned (all_equal_result row) _ h in
      let (rest, others, h2) = >>=-eq-returned (different_rows rows) _ h1 in
      let selection = different_rows-IsSelection rows rest others in
      let iff = all_equal_on_iff row (relevant_columns row) same equal in
      subst (IsSelection (row ∷ rows)) (returned-injective h2) (
        if-holds (IsSelection (row ∷ rows)) same (λ yes. uniform (iff.0 yes) selection)
          (λ no. differing (λ u. clash same (iff.1 u) no) selection))
    where
      clash : (b : Bool) → b ≡ true → b ≡ false → ⊥
      clash b p q = cc

  IsSelection-le :
      (rows out : List (List (ComparedResult V))) → IsSelection rows out → length out ≤ length rows
  IsSelection-le rows out nothing = omega arith
  IsSelection-le (row ∷ rows) out (uniform u s) = omega (arith, IsSelection-le rows out s)
  IsSelection-le (row ∷ rows) (r ∷ out) (differing u s) = omega (arith, IsSelection-le rows out s)

  each_differs :
      (rows out : List (List (ComparedResult V)))
      → IsSelection rows out
      → length out ≡ length rows
      → All (λ row. IsUniform row → ⊥) rows
  each_differs rows out nothing h = tt
  each_differs (row ∷ rows) out (uniform u s) h =
      absurd (let few = IsSelection-le rows out s in omega arith)
  each_differs (row ∷ rows) (r ∷ out) (differing u s) h = (u, each_differs rows out s (omega arith))

  -- The table has one run set.
  abbrev pub IsSingle : List (List (ComparedResult V)) → Type 0
  IsSingle [] = ⊥
  IsSingle (row ∷ rows) = length row ≡ 1

  -- The converse: of rows that all differ, each is selected.
  keeps_length :
      (rows out : List (List (ComparedResult V)))
      → IsSelection rows out
      → All (λ row. IsUniform row → ⊥) rows
      → length out ≡ length rows
  keeps_length rows out nothing h = refl
  keeps_length (row ∷ rows) out (uniform u s) h = absurd (h.0 u)
  keeps_length (row ∷ rows) (r ∷ out) (differing u s) h = ap suc (keeps_length rows out s h.1)

  -- Of a table with one run set, or of rows that all differ, none are returned; of others those in
  -- which two results with values differ in a relevant column.
  pub record IsFiltered (rows out : List (List (ComparedResult V))) : Type 0 where
    pub none_of_single : IsSingle rows → out ≡ []
    pub none_of_all : All (λ row. IsUniform row → ⊥) rows → out ≡ []
    pub selection :
        (IsSingle rows → ⊥) → (All (λ row. IsUniform row → ⊥) rows → ⊥) → IsSelection rows out

  -- Where the columns are found, no rows are returned where the table has one run set or all rows
  -- differ; otherwise those in which two results with values differ in a relevant column, in their order.
  pub filter_rows_with_differences-IsFiltered :
      (rows out : List (List (ComparedResult V)))
      → filter_rows_with_differences rows ≡ returned out
      → IsFiltered rows out
  unfolding filter_rows_with_differences
  filter_rows_with_differences-IsFiltered [] out h = record {
    none_of_single = λ single. absurd single;
    none_of_all = λ all. sym (returned-injective h);
    selection = λ several some_uniform. absurd (some_uniform tt);
  }
  filter_rows_with_differences-IsFiltered (row ∷ rows) out h = elim (Bool-cases (length row == 1)) [
    | inl single ↦
        (let empty : out ≡ [] = sym (returned-injective (rw single at h)) in
          record {
            none_of_single = λ one. empty;
            none_of_all = λ all. empty;
            selection = λ several some_uniform. absurd (several ((==_iff (length row) 1).0 single));
          })
    | inr several ↦
        (let (found, made, k) = >>=-eq-returned (different_rows (row ∷ rows)) _ (rw several at h) in
          let selected = different_rows-IsSelection (row ∷ rows) found made in
          let result : unless_all (row ∷ rows) found ≡ out = returned-injective k in
          record {
            none_of_single =
                λ one. absurd (let same = (==_iff (length row) 1).1 one in ground arith);
            none_of_all = λ all. sym (
                rw
                  ((==_iff (length found) (length (row ∷ rows))).1
                    (keeps_length (row ∷ rows) found selected all))
                  at result);
            selection = λ two some_uniform.
                elim (Bool-cases (length found == length (row ∷ rows))) [
                  | inl all ↦ absurd (
                      some_uniform (
                        each_differs (row ∷ rows) found selected
                          ((==_iff (length found) (length (row ∷ rows))).0 all)))
                  | inr part ↦ subst (IsSelection (row ∷ rows)) (rw part at result) selected
                ];
          })
  ]
