-- ===== src/Result/Score.antt =====
-- The SV-COMP scores of benchexec/result.py against the categories that they are computed from.
use benchexec.Prelude.{
  ◌≡◌, ◌≢◌, refl, sym, ap, subst, ◌∙◌, ◌↔◌, inl, inr, Bool, true, false, some, List, [], ◌∷◌, arith,
  Text, if◌then◌else◌,
}
use benchexec.Prelude.Int.{ℤ, pos, negsuc, ◌≤ℤ◌}
use benchexec.Prelude.Outcome.{returned, returned-injective}
use benchexec.Result.{
  Class, class_true, class_false, class_other, get_result_classification, get_result_category,
  Category, correct, wrong, unknown, missing, error, correct_unconfirmed, ExpectedResult, Property,
  expected_for, other_category, compute_score, max_score, category_score,
}
use benchexec.Result.Answer.{
  Answer, holds, violated, answer_class, classification-answer_text, answer_view,
}
use benchexec.Result.Judgement.{fits, says, same_bool, category-answer, category-of_other}

-- The score of a run beside the largest score for its task.
pub record IsFairScore (prop : Property) (e : ExpectedResult) (t : Text) (c : Category)
    : Type 0 where
  pub score : ℤ
  pub best : ℤ
  pub scored : compute_score prop c (some t) ≡ returned (some score)
  pub attainable : max_score prop (some e) ≡ some best
  pub bounded : score ≤ℤ best
  pub best_iff_correct : (c ≡ correct) ↔ (score ≡ best)

score-of_class :
    (prop : Property) (c : Category) (t : Text) (k : Class) (s : ℤ)
    → prop.is_svcomp ≡ true
    → get_result_classification (some t) ≡ k
    → category_score c k ≡ returned s
    → compute_score prop c (some t) ≡ returned (some s)
unfolding compute_score
score-of_class prop c t k s svcomp class h = rw (svcomp, class, h)

abbrev best_score : Bool → ℤ
best_score true = pos 2
best_score false = pos 1

max_score-known :
    (prop : Property) (e : ExpectedResult) (b : Bool)
    → prop.is_svcomp ≡ true
    → e.result ≡ some b
    → max_score prop (some e) ≡ some (best_score b)
unfolding max_score
max_score-known prop e true svcomp known = rw (svcomp, known)
max_score-known prop e false svcomp known = rw (svcomp, known)

module _ (prop : Property) (e : ExpectedResult) (b : Bool) (t : Text)
    (svcomp : prop.is_svcomp ≡ true) (known : e.result ≡ some b) where
  fair :
      (c : Category) (k : Class) (s : ℤ)
      → get_result_classification (some t) ≡ k
      → category_score c k ≡ returned s
      → s ≤ℤ best_score b
      → ((c ≡ correct) ↔ (s ≡ best_score b))
      → IsFairScore prop e t c
  fair c k s class scored bounded exact = record {
    score = s;
    best = best_score b;
    scored = score-of_class prop c t k s svcomp class scored;
    attainable = max_score-known prop e b svcomp known;
    bounded = bounded;
    best_iff_correct = exact;
  }

  no_points :
      (c : Category) (k : Class)
      → get_result_classification (some t) ≡ k
      → category_score c k ≡ returned (pos 0)
      → c ≢ correct
      → IsFairScore prop e t c
  no_points c k class scored ne =
      fair c k (pos 0) class scored (zero-le_best b)
        (λ h. absurd (ne h), λ h. absurd (zero-ne_best b h))
    where
      zero-le_best : (b : Bool) → pos 0 ≤ℤ best_score b
      zero-le_best true = omega arith
      zero-le_best false = omega arith

      zero-ne_best : (b : Bool) → pos 0 ≢ best_score b
      zero-ne_best true = λ h. ground arith
      zero-ne_best false = λ h. ground arith

  other_fair :
      (c : Category)
      → get_result_classification (some t) ≡ class_other
      → other_category (some t) ≡ c
      → IsFairScore prop e t c
  other_fair unknown class h = no_points unknown class_other class refl (λ p. cc)
  other_fair missing class h = no_points missing class_other class refl (λ p. cc)
  other_fair error class h = no_points error class_other class refl (λ p. cc)
  other_fair correct class h = absurd (ground arith)
  other_fair correct_unconfirmed class h = absurd (ground arith)
  other_fair wrong class h = absurd (ground arith)

module _ (prop : Property) (e : ExpectedResult) (t : Text) (svcomp : prop.is_svcomp ≡ true) where
  answer_fair :
      (b : Bool) (a : Answer) (f : Bool)
      → e.result ≡ some b
      → get_result_classification (some t) ≡ answer_class a
      → IsFairScore prop e t
          (if f then (if same_bool (says a) b then correct else wrong) else unknown)
  answer_fair b a false known class =
      no_points prop e b t svcomp known unknown (answer_class a) class refl (λ p. cc)
  answer_fair true holds true known class =
      fair prop e true t svcomp known correct class_true (pos 2) class refl (omega arith)
        (λ _. refl, λ _. refl)
  answer_fair true (violated s) true known class =
      fair prop e true t svcomp known wrong class_false (negsuc 15) class refl (omega arith)
        (λ h. cc, λ h. cc)
  answer_fair false holds true known class =
      fair prop e false t svcomp known wrong class_true (negsuc 31) class refl (omega arith)
        (λ h. cc, λ h. cc)
  answer_fair false (violated s) true known class =
      fair prop e false t svcomp known correct class_false (pos 1) class refl (omega arith)
        (λ _. refl, λ _. refl)

-- For an SV-COMP property with a known expected verdict, and whatever the tool's answer: the score
-- of the category that the run gets is computed without a failed assertion, is at most the maximal
-- score of the task, and reaches it exactly if the run is correct.
pub score-le-max_score :
    (expected : List (Text × ExpectedResult)) (prop : Property) (e : ExpectedResult) (b : Bool)
    (t : Text) (c : Category)
    → prop.is_svcomp ≡ true
    → expected_for prop.filename expected ≡ some e
    → e.result ≡ some b
    → get_result_category expected (some t) (prop ∷ []) ≡ returned c
    → IsFairScore prop e t c
score-le-max_score expected prop e b t c svcomp found known judged = elim (answer_view t) [
  | inl (a, p) ↦
      subst (IsFairScore prop e t)
        (returned-injective (
          sym (category-answer expected prop e b a found known)
          ∙ ap (λ (u : Text). get_result_category expected (some u) (prop ∷ [])) (sym p)
          ∙ judged))
        (answer_fair prop e t svcomp b a (fits e.subproperty a) known
          (ap (λ (u : Text). get_result_classification (some u)) p ∙ classification-answer_text a))
  | inr other ↦
      other_fair prop e b t svcomp known c other
        (returned-injective (sym (category-of_other expected (some t) (prop ∷ []) other) ∙ judged))
]
