-- ===== src/TableGenerator/Counts.antt =====
-- The counts of _get_stats_of_status_column of benchexec/tablegenerator/statistics.py.
use benchexec.Prelude.{
  ℕ, ◌+◌, ◌*◌, ◌≡◌, ◌≤◌, refl, ap, ◌∙◌, inl, inr, Option, none, some, List, [], ◌∷◌, Text, Bool,
  true, false, ◌&&◌, if◌then◌else◌, ◌==◌, ==_iff, Bool-cases, arith,
}
use benchexec.Prelude.Dict.{nat_eq, get, assign, get-assign}
use benchexec.Result.{
  Category, correct, correct_unconfirmed, wrong, Class, class_true, class_false, class_other,
  get_result_classification, truthy,
}
use benchexec.TableGenerator.Statistics.{
  RunResult, category_number, class_number, pair_key, run_key, or_zero, counted_at, count_runs,
  count_values, get_stats_of_status_column,
}

abbrev one : Bool → ℕ
one b = if b then 1 else 0

occurrences : ℕ → List RunResult → ℕ
occurrences key [] = 0
occurrences key (r ∷ runs) = one (key == run_key r) + occurrences key runs

counted_at-assign :
    (j k : ℕ) (counts : List (ℕ × ℕ))
    → counted_at j (assign k (counted_at k counts + 1) counts) ≡ one (j == k) + counted_at j counts
counted_at-assign j k counts = elim (Bool-cases (j == k)) [
  | inl e ↦
      let same : j ≡ k = (==_iff j k).0 e in
      ap or_zero (get-assign k j (counted_at k counts + 1) counts) ∙ rw (e, same) (omega arith)
  | inr e ↦ ap or_zero (get-assign k j (counted_at k counts + 1) counts) ∙ rw e (omega arith)
]

counted_at-count_runs :
    (key : ℕ) (counts : List (ℕ × ℕ)) (runs : List RunResult)
    → counted_at key (count_runs counts runs) ≡ counted_at key counts + occurrences key runs
unfolding occurrences
counted_at-count_runs key counts [] = omega arith
counted_at-count_runs key counts (r ∷ runs) =
    let rest =
      counted_at-count_runs key (assign (run_key r) (counted_at (run_key r) counts + 1) counts)
        runs in
    let here = counted_at-assign key (run_key r) counts in omega arith

-- A status that says true or false.
abbrev pub is_answer : Class → Bool
is_answer class_true = true
is_answer class_false = true
is_answer class_other = false

-- The number of the runs of a category whose status says true or false.
abbrev pub answers_in : Category → List RunResult → ℕ
answers_in category [] = 0
answers_in category (r ∷ runs) =
    one (
      category_number category == category_number r.category
      && is_answer (get_result_classification r.status))
    + answers_in category runs

hits :
    (a b : ℕ) (class : Class)
    → one (a * 3 + 0 == b * 3 + class_number class) + one (a * 3 + 1 == b * 3 + class_number class)
      ≡ one (a == b && is_answer class)
hits a b class_true = ground arith
hits a b class_false = ground arith
hits a b class_other = ground arith

occurrences_answers :
    (category : Category) (runs : List RunResult)
    → occurrences (pair_key category class_true) runs
        + occurrences (pair_key category class_false) runs
      ≡ answers_in category runs
unfolding occurrences
occurrences_answers category [] = refl
occurrences_answers category (r ∷ runs) =
    let rest = occurrences_answers category runs in
    let here =
      hits (category_number category) (category_number r.category)
        (get_result_classification r.status) in
    omega arith

counted_answers :
    (category : Category) (runs : List RunResult)
    → counted_at (pair_key category class_true) (count_runs [] runs)
        + counted_at (pair_key category class_false) (count_runs [] runs)
      ≡ answers_in category runs
unfolding get
counted_answers category runs =
    let yes = counted_at-count_runs (pair_key category class_true) [] runs in
    let no = counted_at-count_runs (pair_key category class_false) [] runs in
    let both = occurrences_answers category runs in omega arith

answer-truthy :
    (status : Option Text)
    → is_answer (get_result_classification status) ≡ true
    → truthy status ≡ true
unfolding get_result_classification
answer-truthy none h = cc
answer-truthy (some []) h = cc
answer-truthy (some (c ∷ s)) h = refl

one_category :
    (n : ℕ) (answer value : Bool)
    → (answer ≡ true → value ≡ true)
    → one (0 == n && answer) + one (1 == n && answer) + one (2 == n && answer)
      ≤ (if value then 1 else 0)
one_category n false value h = ground arith
one_category n true value h = rw (h refl) (ground arith)

answers-le-values :
    (runs : List RunResult)
    → answers_in correct runs + answers_in correct_unconfirmed runs + answers_in wrong runs
      ≤ count_values runs
answers-le-values [] = omega arith
answers-le-values (r ∷ runs) =
    let rest = answers-le-values runs in
    let here =
      one_category (category_number r.category) (is_answer (get_result_classification r.status))
        (truthy r.status) (answer-truthy r.status) in
    omega arith

-- The numbers of correct, of correct but unconfirmed, and of wrong results are the numbers of the runs
-- of these categories whose status says true or false, and their sum is at most the total.
status_column_counts :
    (runs : List RunResult)
    → ((get_stats_of_status_column runs).all_correct ≡ answers_in correct runs)
      × ((get_stats_of_status_column runs).all_unconfirmed ≡ answers_in correct_unconfirmed runs)
      × ((get_stats_of_status_column runs).all_wrong ≡ answers_in wrong runs)
      × ((get_stats_of_status_column runs).all_correct
            + (get_stats_of_status_column runs).all_unconfirmed
            + (get_stats_of_status_column runs).all_wrong
          ≤ (get_stats_of_status_column runs).total)
unfolding get_stats_of_status_column
status_column_counts runs =
    let c = counted_answers correct runs in
    let u = counted_answers correct_unconfirmed runs in
    let w = counted_answers wrong runs in
    let bound = answers-le-values runs in (c, u, w, rw (c, u, w) bound)
