-- ===== src/Result/Judgement.antt =====
-- get_result_category of benchexec/result.py against an independent reading of a run: what the
-- tool's answer says, and whether it is about the expected subproperty.
use benchexec.Prelude.{
  ℕ, ◌≡◌, ◌≢◌, refl, sym, ap, subst, ◌∙◌, ◌↔◌, inl, inr, Bool, true, false, Option, none, some,
  List, [], ◌∷◌, ◌++◌, arith, Text, text_eq, if◌then◌else◌,
}
use benchexec.Prelude.Outcome.{Outcome, returned, returned-injective}
use benchexec.Result.{
  Class, class_other, get_result_classification, get_result_category, judge, judge_properties,
  other_category, Failure, Category, correct, wrong, unknown, missing, ExpectedResult, Property,
  expected_for,
}
use benchexec.Result.Answer.{
  Answer, holds, violated, answer_text, answer_class, classification-answer_text, answer_view,
}

-- Whether the answer says that the property holds.
abbrev pub says : Answer → Bool
says holds = true
says (violated _) = false

abbrev pub same_bool : Bool → Bool → Bool
same_bool true b = b
same_bool false true = false
same_bool false false = true

-- Whether the answer fits the expected subproperty: a violation has to name it, if one is expected.
abbrev pub fits : Option Text → Answer → Bool
fits (some (c ∷ p)) (violated (some q)) = text_eq q (c ∷ p)
fits (some (c ∷ p)) (violated none) = false
fits _ a = true

abbrev pub verdict_category : Bool → Option Text → Answer → Category
verdict_category b sub a =
    if fits sub a then (if same_bool (says a) b then correct else wrong) else unknown

text_eq-snoc : (s t : Text) (c : ℕ) → text_eq (s ++ c ∷ []) (t ++ c ∷ []) ≡ text_eq s t
text_eq-snoc [] [] c = ground arith
text_eq-snoc [] (b ∷ []) c = ground arith
text_eq-snoc [] (b ∷ d ∷ t) c = ground arith
text_eq-snoc (a ∷ []) [] c = ground arith
text_eq-snoc (a ∷ d ∷ s) [] c = ground arith
text_eq-snoc (a ∷ s) (b ∷ t) c = ground (arith, text_eq-snoc s t c)

abbrev expecting : Bool → Option Text → ExpectedResult
expecting b sub = record { result = some b; subproperty = sub }

judge_answer :
    (a : Answer) (b : Bool) (sub : Option Text)
    → judge (answer_text a) (answer_class a) (some (expecting b sub)) ≡ verdict_category b sub a
judge_answer holds true none = refl
judge_answer holds true (some []) = refl
judge_answer holds true (some (c ∷ p)) = refl
judge_answer holds false none = refl
judge_answer holds false (some []) = refl
judge_answer holds false (some (c ∷ p)) = refl
judge_answer (violated none) true none = refl
judge_answer (violated none) true (some []) = refl
judge_answer (violated none) true (some (c ∷ p)) = refl
judge_answer (violated none) false none = refl
judge_answer (violated none) false (some []) = refl
judge_answer (violated none) false (some (c ∷ p)) = refl
judge_answer (violated (some q)) true none = refl
judge_answer (violated (some q)) true (some []) = refl
judge_answer (violated (some q)) true (some (c ∷ p)) = ground (arith, text_eq-snoc q (c ∷ p) b')')
judge_answer (violated (some q)) false none = refl
judge_answer (violated (some q)) false (some []) = refl
judge_answer (violated (some q)) false (some (c ∷ p)) = ground (arith, text_eq-snoc q (c ∷ p) b')')

judge_known :
    (a : Answer) (e : ExpectedResult) (r : Option Bool) (b : Bool)
    → e.result ≡ r
    → r ≡ some b
    → judge (answer_text a) (answer_class a) (some e) ≡ verdict_category b e.subproperty a
judge_known a e r b p q =
    ap
      (λ (x : Option Bool).
        judge (answer_text a) (answer_class a)
          (some (record { result = x; subproperty = e.subproperty })))
      (p ∙ q)
    ∙ judge_answer a b e.subproperty

judge_unknown :
    (t : Text) (c : Class) (e : ExpectedResult) → e.result ≡ none → judge t c (some e) ≡ missing
judge_unknown t c e p =
    ap (λ (x : Option Bool). judge t c (some (record { result = x; subproperty = e.subproperty })))
      p

category-of_answer :
    (expected : List (Text × ExpectedResult)) (a : Answer) (properties : List Property)
    → get_result_category expected (some (answer_text a)) properties
      ≡ judge_properties expected (some (answer_text a)) (answer_class a) properties
unfolding get_result_category
category-of_answer expected holds properties = refl
category-of_answer expected (violated none) properties = refl
category-of_answer expected (violated (some sub)) properties =
    rw (classification-answer_text (violated (some sub)))

-- For a single property whose expected verdict is known, the category of every answer: "unknown" if
-- the answer does not fit the expected subproperty, else "correct" or "wrong" as it agrees or not.
pub category-answer :
    (expected : List (Text × ExpectedResult)) (prop : Property) (e : ExpectedResult) (b : Bool)
    (a : Answer)
    → expected_for prop.filename expected ≡ some e
    → e.result ≡ some b
    → get_result_category expected (some (answer_text a)) (prop ∷ [])
      ≡ returned (verdict_category b e.subproperty a)
category-answer expected prop e b a found known =
    category-of_answer expected a (prop ∷ [])
    ∙ ap returned
        (ap (judge (answer_text a) (answer_class a)) found ∙ judge_known a e e.result b refl known)

-- What makes a run correct: one property, whose expected verdict is known, and an answer that fits
-- the expected subproperty and says the expected verdict.
pub record Agreement (expected : List (Text × ExpectedResult)) (result : Option Text)
    (properties : List Property) : Type 0 where
  pub answer : Answer
  pub prop : Property
  pub expectation : ExpectedResult
  pub given : result ≡ some (answer_text answer)
  pub single : properties ≡ prop ∷ []
  pub found : expected_for prop.filename expected ≡ some expectation
  pub known : expectation.result ≡ some (says answer)
  pub fitting : fits expectation.subproperty answer ≡ true

pub category-of_other :
    (expected : List (Text × ExpectedResult)) (result : Option Text) (properties : List Property)
    → get_result_classification result ≡ class_other
    → get_result_category expected result properties ≡ returned (other_category result)
unfolding get_result_category
category-of_other expected result properties h = rw h

other-ne-correct :
    (expected : List (Text × ExpectedResult)) (result : Option Text) (properties : List Property)
    → get_result_classification result ≡ class_other
    → get_result_category expected result properties ≢ returned correct
unfolding get_result_category
other-ne-correct expected result properties h = rw h (ground arith)

same_bool→eq : (a b : Bool) → same_bool a b ≡ true → b ≡ a
same_bool→eq a b h = ground arith

same_bool_self : (a : Bool) → same_bool a a ≡ true
same_bool_self a = ground arith

verdict-correct :
    (b : Bool) (sub : Option Text) (a : Answer)
    → verdict_category b sub a ≡ correct
    → (fits sub a ≡ true) × (same_bool (says a) b ≡ true)
verdict-correct b sub a h = go (fits sub a) (same_bool (says a) b) h
  where
    go :
        (f s : Bool)
        → (if f then (if s then correct else wrong) else unknown) ≡ correct
        → (f ≡ true) × (s ≡ true)
    go f s h = ground arith

judged_correct :
    (a : Answer) (o : Option ExpectedResult)
    → judge (answer_text a) (answer_class a) o ≡ correct
    → (e : ExpectedResult) × (o ≡ some e)
      × (e.result ≡ some (says a))
      × (fits e.subproperty a ≡ true)
judged_correct a none h = cc
judged_correct a (some e) h = go e.result refl
  where
    go :
        (r : Option Bool)
        → e.result ≡ r
        → (e' : ExpectedResult) × (some e ≡ some e')
          × (e'.result ≡ some (says a))
          × (fits e'.subproperty a ≡ true)
    go none p = cc (h, judge_unknown (answer_text a) (answer_class a) e p)
    go (some b) p =
        let (f, s) =
          verdict-correct b e.subproperty a (sym (judge_known a e e.result b refl p) ∙ h) in
        (e, refl, p ∙ ap some (same_bool→eq (says a) b s), f)

module _ (expected : List (Text × ExpectedResult)) (a : Answer) where
  Agreement-of_correct :
      (properties : List Property)
      → get_result_category expected (some (answer_text a)) properties ≡ returned correct
      → Agreement expected (some (answer_text a)) properties
  Agreement-of_correct [] h = cc (h, category-of_answer expected a [])
  Agreement-of_correct (prop ∷ []) h =
      let judged = sym (category-of_answer expected a (prop ∷ [])) ∙ h in
      let (e, found, known, fitting) =
        judged_correct a (expected_for prop.filename expected) (returned-injective judged) in
      record {
        answer = a;
        prop = prop;
        expectation = e;
        given = refl;
        single = refl;
        found = found;
        known = known;
        fitting = fitting;
      }
  Agreement-of_correct (prop ∷ q ∷ r) h = cc (h, category-of_answer expected a (prop ∷ q ∷ r))

correct→Agreement :
    (expected : List (Text × ExpectedResult)) (result : Option Text) (properties : List Property)
    → get_result_category expected result properties ≡ returned correct
    → Agreement expected result properties
correct→Agreement expected none properties h =
    absurd (other-ne-correct expected none properties (unfold get_result_classification in refl) h)
correct→Agreement expected (some t) properties h = elim (answer_view t) [
  | inl (a, e) ↦
      subst (λ (u : Text). Agreement expected (some u) properties) (sym e)
        (Agreement-of_correct expected a properties (
          subst (λ (u : Text). get_result_category expected (some u) properties ≡ returned correct)
            e h))
  | inr other ↦ absurd (other-ne-correct expected (some t) properties other h)
]

Agreement→correct :
    (expected : List (Text × ExpectedResult)) (result : Option Text) (properties : List Property)
    → Agreement expected result properties
    → get_result_category expected result properties ≡ returned correct
Agreement→correct expected result properties g =
    ap (λ (r : Option Text). get_result_category expected r properties) g.given
    ∙ ap (get_result_category expected (some (answer_text g.answer))) g.single
    ∙ category-answer expected g.prop g.expectation (says g.answer) g.answer g.found g.known
    ∙ agreeing g.expectation.subproperty g.answer g.fitting
  where
    agreeing :
        (sub : Option Text) (a : Answer)
        → fits sub a ≡ true
        → ◌≡◌ {A = Outcome Failure Category}
            (returned (verdict_category (says a) sub a))
            (returned correct)
    agreeing sub a f = ground (arith, same_bool_self (says a))

-- A run is judged correct exactly if there is one property, its expected verdict is known, and the
-- tool's answer says that verdict and names the expected subproperty if it reports a violation.
pub correct_iff :
    (expected : List (Text × ExpectedResult)) (result : Option Text) (properties : List Property)
    → (get_result_category expected result properties ≡ returned correct)
      ↔ Agreement expected result properties
correct_iff expected result properties =
    (correct→Agreement expected result properties, Agreement→correct expected result properties)
