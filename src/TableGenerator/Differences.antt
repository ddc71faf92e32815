-- ===== src/TableGenerator/Differences.antt =====
-- The rows of the table of differences: filter_rows_with_differences of
-- benchexec/tablegenerator/__init__.py. A set is a list without repetitions; its order does not matter
-- for the result, only for which assertion fails first.
use benchexec.Prelude.{
  ℕ, suc, Bool, true, false, ◌&&◌, Option, none, some, List, [], ◌∷◌, length, get_elem?, Text,
  codes, text_eq, if◌then◌else◌, ◌==◌, leb,
}
use benchexec.Prelude.Dict.{Eq, member, text_key}
use benchexec.Prelude.Outcome.{Outcome, returned, raised, ◌>>=◌}

-- What is read of a run result: the titles of its columns, those that are relevant, and the values.
pub record ComparedResult (V : Type 0) : Type 0 where
  pub columns : List Text
  pub columns_relevant_for_diff : List Text
  pub values : List V

-- The two assertions, and the IndexError for a column without a value.
pub data DiffFailure : Type 0 where
  empty_columns column_not_found index_error : DiffFailure

abbrev pub index_after : Outcome DiffFailure ℕ → Outcome DiffFailure ℕ
index_after (returned i) = returned (suc i)
index_after (raised failure) = raised failure

abbrev pub search_column : Text → List Text → Outcome DiffFailure ℕ
search_column name [] = raised column_not_found
search_column name (c ∷ cols) =
    let rest = search_column name cols in if text_eq c name then returned 0 else index_after rest

-- get_index_of_column
abbrev pub get_index_of_column : Text → List Text → Outcome DiffFailure ℕ
get_index_of_column name [] = raised empty_columns
get_index_of_column name (c ∷ cols) = search_column name (c ∷ cols)

-- relevant_columns.add(column), or the union with a set of them
abbrev pub add_columns : List Text → List Text → List Text
add_columns columns [] = columns
add_columns columns (c ∷ cols) =
    let rest = add_columns columns cols in if member c rest then rest else c ∷ rest

abbrev pub or_status : List Text → List Text
or_status [] = codes "status" ∷ []
or_status (c ∷ cols) = c ∷ cols

module _ {V : Type 0} where
  abbrev pub collect_columns : List (ComparedResult V) → List Text
  collect_columns [] = []
  collect_columns (res ∷ results) =
      add_columns (collect_columns results) res.columns_relevant_for_diff

  unfoldable pub relevant_columns : List (ComparedResult V) → List Text
  unfolding member
  relevant_columns results = or_status (collect_columns results)

  -- values[i]
  abbrev pub value_at : Option V → Outcome DiffFailure V
  value_at none = raised index_error
  value_at (some v) = returned v

  unfoldable pub value_of : Text → ComparedResult V → Outcome DiffFailure V
  value_of col res = do i ← get_index_of_column col res.columns; value_at (get_elem? res.values i)

  -- if res.values
  abbrev pub has_values : ComparedResult V → Bool
  has_values res = elim res.values [ [] ↦ false | v ∷ vs ↦ true ]

  abbrev pub cons_if : Bool → Outcome DiffFailure V → List V → Outcome DiffFailure (List V)
  cons_if false value rest = returned rest
  cons_if true value rest = do v ← value; returned (v ∷ rest)

  -- The values of a column, of the results that have values.
  unfoldable pub values_of : Text → List (ComparedResult V) → Outcome DiffFailure (List V)
  unfolding value_of
  values_of col [] = returned []
  values_of col (res ∷ results) = do
    rest ← values_of col results
    cons_if (has_values res) (value_of col res) rest

module _ {V : Type 0} ⦃e : Eq V⦄ where
  abbrev pub to_set : List V → List V
  to_set [] = []
  to_set (v ∷ vs) = let rest = to_set vs in if member v rest then rest else v ∷ rest

  -- all_equal_result, for some of the relevant columns
  abbrev pub all_equal_on : List (ComparedResult V) → List Text → Outcome DiffFailure Bool
  all_equal_on results [] = returned true
  all_equal_on results (col ∷ cols) = do
    status ← values_of col results
    rest ← all_equal_on results cols
    returned (leb (length (to_set status)) 1 && rest)

  unfoldable pub all_equal_result : List (ComparedResult V) → Outcome DiffFailure Bool
  unfolding values_of relevant_columns
  all_equal_result results = all_equal_on results (relevant_columns results)

  abbrev pub different_rows :
      List (List (ComparedResult V)) → Outcome DiffFailure (List (List (ComparedResult V)))
  different_rows [] = returned []
  different_rows (row ∷ rows) = do
    same ← all_equal_result row
    rest ← different_rows rows
    returned (if same then rest else row ∷ rest)

  abbrev pub unless_all :
      List (List (ComparedResult V))
      → List (List (ComparedResult V))
      → List (List (ComparedResult V))
  unless_all rows rows_diff = if length rows_diff == length rows then [] else rows_diff

  unfoldable pub filter_rows_with_differences :
      List (List (ComparedResult V)) → Outcome DiffFailure (List (List (ComparedResult V)))
  unfolding all_equal_result
  filter_rows_with_differences [] = returned []
  filter_rows_with_differences (row ∷ rows) = if length row == 1 then returned [] else (do
    rows_diff ← different_rows (row ∷ rows)
    returned (unless_all (row ∷ rows) rows_diff))
