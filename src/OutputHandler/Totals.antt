-- ===== src/OutputHandler/Totals.antt =====
-- The counts that the Statistics of benchexec/outputhandler.py print.
use benchexec.Prelude.{
  ℕ, ◌+◌, ◌*◌, ◌≡◌, ◌≤◌, refl, ap, sym, ◌∙◌, subst, inl, inr, List, [], ◌∷◌, Bool, not, ◌&&◌,
  if◌then◌else◌, ◌==◌, ==_iff, Bool-cases, arith, length,
}
use benchexec.Prelude.Int.{pos, ◌+ℤ◌, ◌-ℤ◌, int_laws}
use benchexec.Prelude.Dict.{nat_eq, get, get-assign}
use benchexec.Prelude.Outcome.{returned, >>=-eq-returned, returned-injective}
use benchexec.Result.{
  Category, correct, correct_unconfirmed, wrong, unknown, missing, error, Class, class_true,
  class_false, class_other, get_result_classification, Property, compute_score, max_score,
  expected_for,
}
use benchexec.OutputHandler.{
  Run, Statistics, no_statistics, category_key, class_key, pair_key, or_zero, count_of, increment,
  add_properties, add_result, add_results, or_no_score, add_max_score, Printed, printed_numbers,
}

-- The number of the runs that pass a test.
abbrev pub count_if : (Run → Bool) → List Run → ℕ
count_if test [] = 0
count_if test (run ∷ runs) = (if test run then 1 else 0) + count_if test runs

abbrev pub in_category : Category → Run → Bool
in_category category run = category_key category == category_key run.category

abbrev pub is_true : Run → Bool
is_true run = class_key class_true == class_key (get_result_classification run.status)

count_of-increment :
    (j k : ℕ) (dic : List (ℕ × ℕ))
    → count_of j (increment k dic) ≡ (if j == k then 1 else 0) + count_of j dic
count_of-increment j k dic = elim (Bool-cases (j == k)) [
  | inl e ↦
      let same : j ≡ k = (==_iff j k).0 e in
      ap or_zero (get-assign k j (count_of k dic + 1) dic) ∙ rw (e, same) (omega arith)
  | inr e ↦ ap or_zero (get-assign k j (count_of k dic + 1) dic) ∙ rw e (omega arith)
]

-- The properties of a run change the scores only.
record KeepsCounts (s t : Statistics) : Type 0 where
  dic : t.dic ≡ s.dic
  counter : t.counter ≡ s.counter

add_properties-KeepsCounts :
    (run : Run) (properties : List Property) (s t : Statistics)
    → add_properties run properties s ≡ returned t
    → KeepsCounts s t
unfolding compute_score max_score expected_for ◌+ℤ◌
add_properties-KeepsCounts run [] s t h =
    subst (KeepsCounts s) (returned-injective h) (record { dic = refl; counter = refl })
add_properties-KeepsCounts run (prop ∷ properties) s t h =
    let (score, e, rest) = >>=-eq-returned (compute_score prop run.category run.status) _ h in
    let kept =
      add_properties-KeepsCounts run properties
        (record s {
          score = s.score +ℤ or_no_score score;
          maximal_score =
              add_max_score (max_score prop (expected_for prop.filename run.expected_results))
                s.maximal_score;
        })
        t rest in
    record { dic = kept.dic; counter = kept.counter }

-- A key counts the runs that pass a test, if it is hit once by those and never by others.
abbrev IsHitBy : ℕ → (Run → Bool) → Type 0
IsHitBy key test =
    (run : Run)
    → (if key == pair_key run.category (get_result_classification run.status) then 1 else 0)
        + (if key == category_key run.category then 1 else 0)
      ≡ (if test run then 1 else 0)

category_key-bounded : (category : Category) → category_key category ≤ 5
category_key-bounded correct = omega arith
category_key-bounded correct_unconfirmed = omega arith
category_key-bounded wrong = omega arith
category_key-bounded unknown = omega arith
category_key-bounded missing = omega arith
category_key-bounded error = omega arith

hit_category :
    (a b : ℕ) (class : Class)
    → a ≤ 5
    → (if a == b + 6 * class_key class then 1 else 0) + (if a == b then 1 else 0)
      ≡ (if a == b then 1 else 0)
hit_category a b class_true h = ground arith
hit_category a b class_false h = ground arith
hit_category a b class_other h = ground arith

hit_pair :
    (a b : ℕ) (class : Class)
    → a ≤ 5
    → b ≤ 5
    → (if a + 6 == b + 6 * class_key class then 1 else 0) + (if a + 6 == b then 1 else 0)
      ≡ (if a == b && 1 == class_key class then 1 else 0)
hit_pair a b class_true ha hb = ground arith
hit_pair a b class_false ha hb = ground arith
hit_pair a b class_other ha hb = ground arith

category_key-IsHitBy :
    (category : Category) → IsHitBy (category_key category) (in_category category)
category_key-IsHitBy category run =
    hit_category (category_key category) (category_key run.category)
      (get_result_classification run.status) (category_key-bounded category)

pair_key-IsHitBy :
    (category : Category)
    → IsHitBy (pair_key category class_true) (λ run. in_category category run && is_true run)
pair_key-IsHitBy category run =
    hit_pair (category_key category) (category_key run.category)
      (get_result_classification run.status) (category_key-bounded category)
      (category_key-bounded run.category)

module _ (key : ℕ) (test : Run → Bool) (hit : IsHitBy key test) where
  count_of-add_result :
      (run : Run) (s t : Statistics)
      → add_result run s ≡ returned t
      → count_of key t.dic ≡ (if test run then 1 else 0) + count_of key s.dic
  unfolding add_result
  count_of-add_result run s t h =
      let pair : ℕ = pair_key run.category (get_result_classification run.status) in
      let inner = count_of-increment key (category_key run.category) s.dic in
      let outer = count_of-increment key pair (increment (category_key run.category) s.dic) in
      let kept = add_properties-KeepsCounts run run.properties _ t h in
      ap (count_of key) kept.dic ∙ omega (arith, inner, outer, hit run)

  count_of-add_results :
      (runs : List Run) (s t : Statistics)
      → add_results runs s ≡ returned t
      → count_of key t.dic ≡ count_if test runs + count_of key s.dic
  count_of-add_results [] s t h =
      ap (λ (u : Statistics). count_of key u.dic) (sym (returned-injective h)) ∙ omega arith
  count_of-add_results (run ∷ runs) s t h =
      let (next, e, rest) = >>=-eq-returned (add_result run s) _ h in
      let first = count_of-add_result run s next e in
      let others = count_of-add_results runs next t rest in omega arith

add_results_counter :
    (runs : List Run) (s t : Statistics)
    → add_results runs s ≡ returned t
    → t.counter ≡ s.counter + length runs
unfolding add_result
add_results_counter [] s t h =
    ap (λ (u : Statistics). u.counter) (sym (returned-injective h)) ∙ omega arith
add_results_counter (run ∷ runs) s t h =
    let (next, e, rest) = >>=-eq-returned (add_result run s) _ h in
    let kept = add_properties-KeepsCounts run run.properties _ next e in
    let first = kept.counter in let others = add_results_counter runs next t rest in omega arith

-- The runs of a category with another answer than true.
abbrev pub not_true_in : Category → Run → Bool
not_true_in category run = in_category category run && not (is_true run)

difference :
    (category : Category) (runs : List Run)
    → pos (count_if (in_category category) runs)
        -ℤ pos (count_if (λ run. in_category category run && is_true run) runs)
      ≡ pos (count_if (not_true_in category) runs)
difference category runs = omega (int_laws, split category runs)
  where
    split :
        (category : Category) (runs : List Run)
        → count_if (in_category category) runs
          ≡ count_if (λ run. in_category category run && is_true run) runs
            + count_if (not_true_in category) runs
    split category [] = refl
    split category (run ∷ runs) = ground (arith, split category runs)

all_categories :
    (runs : List Run)
    → count_if (in_category correct) runs
        + count_if (in_category wrong) runs
        + (count_if (in_category unknown) runs + count_if (in_category error) runs)
        + count_if (in_category correct_unconfirmed) runs
        + count_if (in_category missing) runs
      ≡ length runs
all_categories [] = refl
all_categories (run ∷ runs) = let rest = all_categories runs in ground arith

-- The numbers that are printed for some runs.
pub record IsTally (runs : List Run) (p : Printed) : Type 0 where
  pub files : p.files ≡ length runs
  pub all_correct : p.all_correct ≡ count_if (in_category correct) runs
  pub correct_true : p.correct_true ≡ count_if (λ run. in_category correct run && is_true run) runs
  pub correct_false : p.correct_false ≡ pos (count_if (not_true_in correct) runs)
  pub all_incorrect : p.all_incorrect ≡ count_if (in_category wrong) runs
  pub incorrect_true :
      p.incorrect_true ≡ count_if (λ run. in_category wrong run && is_true run) runs
  pub incorrect_false : p.incorrect_false ≡ pos (count_if (not_true_in wrong) runs)
  pub all_unknown :
      p.all_unknown ≡ count_if (in_category unknown) runs + count_if (in_category error) runs
  pub all_runs :
      p.all_correct
        + p.all_incorrect
        + p.all_unknown
        + count_if (in_category correct_unconfirmed) runs
        + count_if (in_category missing) runs
      ≡ p.files

-- After the results of some runs have been added without a failure, each number that is printed is
-- the number of the runs that it stands for, and only the runs that are correct but unconfirmed, or
-- have the category missing, are in none of the three sums.
pub printed_numbers-IsTally :
    (runs : List Run) (s : Statistics)
    → add_results runs no_statistics ≡ returned s
    → IsTally runs (printed_numbers s)
unfolding printed_numbers get
printed_numbers-IsTally runs s h =
    let c = count correct in
    let w = count wrong in
    let u = count unknown in
    let e = count error in
    let ct = count_true correct in
    let wt = count_true wrong in
    let files : s.counter ≡ length runs =
      add_results_counter runs no_statistics s h ∙ omega arith in
    record {
      files = files;
      all_correct = c;
      correct_true = ct;
      correct_false = rw (c, ct) (difference correct runs);
      all_incorrect = w;
      incorrect_true = wt;
      incorrect_false = rw (w, wt) (difference wrong runs);
      all_unknown = omega arith;
      all_runs = omega (arith, all_categories runs);
    }
  where
    count :
        (category : Category)
        → count_of (category_key category) s.dic ≡ count_if (in_category category) runs
    count category =
        count_of-add_results (category_key category) (in_category category)
          (category_key-IsHitBy category) runs no_statistics s h
        ∙ omega arith

    count_true :
        (category : Category)
        → count_of (pair_key category class_true) s.dic
          ≡ count_if (λ run. in_category category run && is_true run) runs
    count_true category =
        count_of-add_results (pair_key category class_true)
          (λ run. in_category category run && is_true run) (pair_key-IsHitBy category) runs
          no_statistics s h
        ∙ omega arith
