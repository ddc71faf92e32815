-- ===== src/TableGenerator/NumberSelected.antt =====
-- The groups of values in _get_stats_of_number_column of benchexec/tablegenerator/statistics.py.
use benchexec.Prelude.{
  Bool, true, false, ◌&&◌, Option, none, some, List, [], ◌∷◌, ◌++◌, ℕ, Text, if◌then◌else◌, ◌==◌,
  ==_iff, ◌≡◌, refl, ap, ◌∙◌, sym, Bool-cases, inl, inr, append_assoc, append-nil,
}
use benchexec.Prelude.Dict.{nat_eq, get-assign}
use benchexec.Result.{Category, Class, class_true, class_false, get_result_classification}
use benchexec.TableGenerator.Statistics.{pair_key, category_number}
use benchexec.TableGenerator.StatValue.{Decimal}
use benchexec.TableGenerator.NumberColumn.{
  ColumnValue, Groups, or_empty, values_at, group_value, group_values,
}

-- The values of the runs with p, in the order of the runs.
abbrev pub values_where : (ColumnValue → Bool) → List ColumnValue → List (Option Decimal)
values_where p [] = []
values_where p (r ∷ runs) = let rest = values_where p runs in if p r then r.value ∷ rest else rest

-- The run has this category, and a status of such a class.
abbrev pub is_in : Category → (Class → Bool) → ColumnValue → Bool
is_in category p r =
    category_number category == category_number r.category && p (get_result_classification r.status)

abbrev pub is_true : Class → Bool
is_true class_true = true
is_true c = false

abbrev pub is_false : Class → Bool
is_false class_false = true
is_false c = false

abbrev pub has_status : Option Text → Bool
has_status none = false
has_status (some status) = true

abbrev pub is_grouped : ℕ → ColumnValue → Bool
is_grouped key r =
    has_status r.status && key == pair_key r.category (get_result_classification r.status)

values_at-group_value :
    (key : ℕ) (r : ColumnValue) (status : Option Text) (groups : Groups)
    → values_at key (group_value r status groups)
      ≡ values_at key groups
        ++ (if has_status status && key == pair_key r.category (get_result_classification status)
            then r.value ∷ []
            else [])
values_at-group_value key r none groups = sym (append-nil (values_at key groups))
values_at-group_value key r (some status) groups =
    let own = pair_key r.category (get_result_classification (some status)) in
    elim (Bool-cases (key == own)) [
      | inl e ↦
          (let same : key ≡ own = (==_iff key own).0 e in
            ap or_empty (get-assign own key (values_at own groups ++ r.value ∷ []) groups)
            ∙ rw e (ap (λ k. values_at k groups ++ r.value ∷ []) (sym same)))
      | inr e ↦
          ap or_empty (get-assign own key (values_at own groups ++ r.value ∷ []) groups)
          ∙ rw e (sym (append-nil (values_at key groups)))
    ]

values_where-one :
    (p : ColumnValue → Bool) (r : ColumnValue) (runs : List ColumnValue)
    → (if p r then r.value ∷ [] else []) ++ values_where p runs ≡ values_where p (r ∷ runs)
values_where-one p r runs = elim (Bool-cases (p r)) [ inl e ↦ rw e refl | inr e ↦ rw e refl ]

pub values_at-group_values :
    (key : ℕ) (groups : Groups) (runs : List ColumnValue)
    → values_at key (group_values groups runs)
      ≡ values_at key groups ++ values_where (is_grouped key) runs
values_at-group_values key groups [] = sym (append-nil (values_at key groups))
values_at-group_values key groups (r ∷ runs) =
    let here = if is_grouped key r then r.value ∷ [] else [] in
    values_at-group_values key (group_value r r.status groups) runs
    ∙ ap (λ l. l ++ values_where (is_grouped key) runs)
        (values_at-group_value key r r.status groups)
    ∙ append_assoc (values_at key groups) here (values_where (is_grouped key) runs)
    ∙ ap (λ l. values_at key groups ++ l) (values_where-one (is_grouped key) r runs)
