-- ===== src/OutputHandler/Scored.antt =====
-- The score and the maximal score in the Statistics of benchexec/outputhandler.py.
use benchexec.Prelude.{
  ℕ, ◌+◌, ◌≡◌, ◌≤◌, refl, ap, ◌∙◌, ◌↔◌, true, some, List, [], ◌∷◌, Text, All, Bool, arith,
}
use benchexec.Prelude.Int.{ℤ, pos_part, neg_part, ◌+ℤ◌, ◌≤ℤ◌, +ℤ_parts, eq_of_parts}
use benchexec.Prelude.Outcome.{returned, returned->>=}
use benchexec.Result.{
  correct, get_result_category, get_result_classification, ExpectedResult, Property, expected_for,
  compute_score, max_score,
}
use benchexec.Result.Score.{IsFairScore, score-le-max_score}
use benchexec.OutputHandler.{
  Run, Statistics, no_statistics, category_key, pair_key, increment, or_no_score, add_max_score,
  add_properties, add_result, add_results,
}

-- A run with an answer, for one SV-COMP property with a known expected verdict, that has been judged.
pub record IsJudged (run : Run) : Type 0 where
  pub prop : Property
  pub expectation : ExpectedResult
  pub verdict : Bool
  pub answer : Text
  pub single : run.properties ≡ prop ∷ []
  pub svcomp : prop.is_svcomp ≡ true
  pub found : expected_for prop.filename run.expected_results ≡ some expectation
  pub known : expectation.result ≡ some verdict
  pub answered : run.status ≡ some answer
  pub judged :
      get_result_category run.expected_results (some answer) (prop ∷ []) ≡ returned run.category

abbrev pub IsCorrect : Run → Type 0
IsCorrect run = run.category ≡ correct

-- The two sides of: the score grows from s to t by at most as much as the maximal score.
abbrev growth : Statistics → Statistics → ℕ
growth s t =
    pos_part t.score
    + neg_part s.score
    + pos_part (or_no_score s.maximal_score)
    + neg_part (or_no_score t.maximal_score)

abbrev room : Statistics → Statistics → ℕ
room s t =
    neg_part t.score
    + pos_part s.score
    + neg_part (or_no_score s.maximal_score)
    + pos_part (or_no_score t.maximal_score)

record IsFairGrowth (all : Type 0) (s t : Statistics) : Type 0 where
  bounded : growth s t ≤ room s t
  exact : all ↔ (growth s t ≡ room s t)

-- What add_result makes of a run with a score.
abbrev scored_with : Run → ℤ → ℤ → Statistics → Statistics
scored_with run score best s = record {
  dic =
      increment (pair_key run.category (get_result_classification run.status))
        (increment (category_key run.category) s.dic);
  counter = s.counter + 1;
  score = s.score +ℤ score;
  maximal_score = some (best +ℤ or_no_score s.maximal_score);
}

add_result_scored :
    (run : Run) (s : Statistics) (j : IsJudged run)
    → (f : IsFairScore j.prop j.expectation j.answer run.category)
    → add_result run s ≡ returned (scored_with run f.score f.best s)
unfolding add_result
add_result_scored run s j f =
    let one_more : Statistics = record s {
      dic =
          increment (pair_key run.category (get_result_classification run.status))
            (increment (category_key run.category) s.dic);
      counter = s.counter + 1;
    } in
    let scored : compute_score j.prop run.category run.status ≡ returned (some f.score) =
      ap (compute_score j.prop run.category) j.answered ∙ f.scored in
    let best : max_score j.prop (expected_for j.prop.filename run.expected_results) ≡ some f.best =
      ap (max_score j.prop) j.found ∙ f.attainable in
    ap (λ properties. add_properties run properties one_more) j.single
    ∙ returned->>= _ scored (
        ap
          (λ m. returned (record one_more {
            score = s.score +ℤ f.score;
            maximal_score = add_max_score m s.maximal_score;
          }))
          best)

scored_with-IsFairGrowth :
    (run : Run) (s : Statistics) (score best : ℤ)
    → score ≤ℤ best
    → (IsCorrect run ↔ (score ≡ best))
    → IsFairGrowth (IsCorrect run) s (scored_with run score best s)
scored_with-IsFairGrowth run s score best bounded exact =
    let p = +ℤ_parts s.score score in
    let q = +ℤ_parts best (or_no_score s.maximal_score) in
    record {
      bounded = omega arith;
      exact = (
        λ c. (let e = exact.0 c in let a = ap pos_part e in let b = ap neg_part e in omega arith),
        λ h. exact.1 (eq_of_parts score best (omega arith)),
      );
    }

module _ {P Q : Type 0} (s t u : Statistics) where
  IsFairGrowth-trans : IsFairGrowth P s t → IsFairGrowth Q t u → IsFairGrowth (P × Q) s u
  IsFairGrowth-trans f g = record {
    bounded = (let a = f.bounded in let b = g.bounded in omega arith);
    exact = (both, apart);
  }
    where
      both : P × Q → growth s u ≡ room s u
      both (p, q) = let a = f.exact.0 p in let b = g.exact.0 q in omega arith

      apart : growth s u ≡ room s u → P × Q
      apart h = (
        f.exact.1 (let a = f.bounded in let b = g.bounded in omega arith),
        g.exact.1 (let a = f.bounded in let b = g.bounded in omega arith),
      )

add_results-IsFairGrowth :
    (runs : List Run) (s : Statistics)
    → All IsJudged runs
    → (t : Statistics) × (add_results runs s ≡ returned t) × IsFairGrowth (All IsCorrect runs) s t
add_results-IsFairGrowth [] s h =
    (s, refl, record { bounded = omega arith; exact = (λ _. omega arith, λ _. tt) })
add_results-IsFairGrowth (run ∷ runs) s h =
    let j : IsJudged run = h.0 in
    let f =
      score-le-max_score run.expected_results j.prop j.expectation j.verdict j.answer run.category
        j.svcomp j.found j.known j.judged in
    let next : Statistics = scored_with run f.score f.best s in
    let first = scored_with-IsFairGrowth run s f.score f.best f.bounded f.best_iff_correct in
    let rest = add_results-IsFairGrowth runs next h.1 in
    (
      rest.0,
      returned->>= (add_results runs) (add_result_scored run s j f) rest.1,
      IsFairGrowth-trans s next rest.0 first rest.2,
    )

-- Where all runs have been judged, each for one SV-COMP property with a known expected verdict: their
-- results are added without a failure, the score is at most the maximal score, and it is the maximal
-- score exactly if all runs are correct.
pub add_results_fair :
    (runs : List Run)
    → All IsJudged runs
    → (s : Statistics) × (add_results runs no_statistics ≡ returned s)
      × (s.score ≤ℤ or_no_score s.maximal_score)
      × (All IsCorrect runs ↔ (s.score ≡ or_no_score s.maximal_score))
add_results_fair runs h =
    let (s, added, fair) = add_results-IsFairGrowth runs no_statistics h in
    (s, added, (let b = fair.bounded in omega arith), (exact s fair, reached s fair))
  where
    exact :
        (s : Statistics)
        → IsFairGrowth (All IsCorrect runs) no_statistics s
        → All IsCorrect runs
        → s.score ≡ or_no_score s.maximal_score
    exact s fair all =
        let e = fair.exact.0 all in eq_of_parts s.score (or_no_score s.maximal_score) (omega arith)

    reached :
        (s : Statistics)
        → IsFairGrowth (All IsCorrect runs) no_statistics s
        → s.score ≡ or_no_score s.maximal_score
        → All IsCorrect runs
    reached s fair e = fair.exact.1 (let p = ap pos_part e in let n = ap neg_part e in omega arith)
