-- ===== src/Result/Answer.antt =====
-- get_result_classification of benchexec/result.py against the answers that a tool can give.
use benchexec.Prelude.{
  ℕ, ◌≡◌, refl, ap, ◌↔◌, ◌⊎◌, inl, inr, true, false, ◌&&◌, Option, none, some, [], ◌∷◌, ◌++◌,
  append_assoc, arith, Bool-cases, Text, text_eq, text_eq→eq, starts_with, starts_with-rest,
  ends_with, ends_with-append, ends_with-snoc, snoc_view, ==_iff,
}
use benchexec.Result.{
  Class, class_true, class_false, class_other, result_true_prop, result_false_prop, false_with,
  get_result_classification,
}

abbrev opening : Text
opening = result_false_prop ++ b'(' ∷ []

closing_is_last :
    (p sub : Text) (d : ℕ) → ends_with (p ++ (sub ++ d ∷ [])) (b')' ∷ []) ≡ true → d ≡ b')'
closing_is_last p sub d h = (==_iff d b')').0 (
    ground (
      arith,
      ends_with-snoc (p ++ sub) d b')',
      ap (λ t. ends_with t (b')' ∷ [])) (append_assoc p sub (d ∷ [])),
    ))

split_closed :
    (r : Text) → ends_with (opening ++ r) (b')' ∷ []) ≡ true → (sub : Text) × (r ≡ sub ++ b')' ∷ [])
split_closed r closes = elim (snoc_view r) [
  | inl empty ↦ cc (closes, ap (λ t. ends_with (opening ++ t) (b')' ∷ [])) empty)
  | inr (sub, d, last) ↦ (sub, rw (← closing_is_last opening sub d (rw last at closes)) last)
]

-- A text that opens with "false(" and ends with ")" holds a subproperty between the two.
split_false :
    (t : Text)
    → starts_with t opening ≡ true
    → ends_with t (b')' ∷ []) ≡ true
    → (sub : Text) × (t ≡ false_with sub)
split_false t opens closes =
    let (r, e) = starts_with-rest t opening opens in
    let (sub, e') = split_closed r (rw e at closes) in (sub, rw (e, e'))

-- The answers about a property: it holds, or it is violated, perhaps in a named subproperty.
pub data Answer : Type 0 where
  holds : Answer
  violated : Option Text → Answer

abbrev pub answer_text : Answer → Text
answer_text holds = result_true_prop
answer_text (violated none) = result_false_prop
answer_text (violated (some sub)) = false_with sub

abbrev pub answer_class : Answer → Class
answer_class holds = class_true
answer_class (violated _) = class_false

opening-false_with :
    (sub : Text)
    → (starts_with (false_with sub) opening ≡ true)
      × (ends_with (false_with sub) (b')' ∷ []) ≡ true)
opening-false_with sub = (refl, ends_with-append (opening ++ sub) (b')' ∷ []))

-- Every answer is recognised.
pub classification-answer_text :
    (a : Answer) → get_result_classification (some (answer_text a)) ≡ answer_class a
unfolding get_result_classification
classification-answer_text holds = refl
classification-answer_text (violated none) = refl
classification-answer_text (violated (some sub)) = ground (arith, (opening-false_with sub).1)

classification_other :
    (t : Text)
    → text_eq t result_false_prop ≡ false
    → (starts_with t opening && ends_with t (b')' ∷ [])) ≡ false
    → text_eq t result_true_prop ≡ false
    → get_result_classification (some t) ≡ class_other
unfolding get_result_classification
classification_other t a b c = ground arith

-- A text is the text of an answer, or has the class "other".
pub answer_view :
    (t : Text)
    → ((a : Answer) × (t ≡ answer_text a)) ⊎ (get_result_classification (some t) ≡ class_other)
answer_view t = elim (Bool-cases (text_eq t result_false_prop)) [
  | inl e ↦ inl (violated none, text_eq→eq t _ e)
  | inr n ↦ elim (Bool-cases (starts_with t opening && ends_with t (b')' ∷ []))) [
    | inl e ↦
        let (sub, p) = split_false t (ground arith) (ground arith) in inl (violated (some sub), p)
    | inr m ↦ elim (Bool-cases (text_eq t result_true_prop)) [
      | inl e ↦ inl (holds, text_eq→eq t _ e)
      | inr k ↦ inr (classification_other t n m k)
    ]
  ]
]

class_of_false_text :
    (t : Text)
    → (t ≡ result_false_prop) ⊎ ((sub : Text) × (t ≡ false_with sub))
    → get_result_classification (some t) ≡ class_false
class_of_false_text t (inl e) = rw e (classification-answer_text (violated none))
class_of_false_text t (inr (sub, e)) = rw e (classification-answer_text (violated (some sub)))

module _ (t : Text) where
  true_text_of_class :
      ((a : Answer) × (t ≡ answer_text a)) ⊎ (get_result_classification (some t) ≡ class_other)
      → get_result_classification (some t) ≡ class_true
      → t ≡ result_true_prop
  true_text_of_class (inl (holds, e)) h = e
  true_text_of_class (inl (violated s, e)) h =
      cc
        (h, ap (λ u. get_result_classification (some u)) e, classification-answer_text (violated s))
  true_text_of_class (inr o) h = cc (h, o)

  false_text_of_class :
      ((a : Answer) × (t ≡ answer_text a)) ⊎ (get_result_classification (some t) ≡ class_other)
      → get_result_classification (some t) ≡ class_false
      → (t ≡ result_false_prop) ⊎ ((sub : Text) × (t ≡ false_with sub))
  false_text_of_class (inl (holds, e)) h =
      cc (h, ap (λ u. get_result_classification (some u)) e, classification-answer_text holds)
  false_text_of_class (inl (violated none, e)) h = inl e
  false_text_of_class (inl (violated (some sub), e)) h = inr (sub, e)
  false_text_of_class (inr o) h = cc (h, o)

-- A text has the class "true" exactly if it is "true", and the class "false" exactly if it is
-- "false" or "false(sub)" for some text sub.
pub classification_exact :
    (t : Text)
    → ((get_result_classification (some t) ≡ class_true) ↔ (t ≡ result_true_prop))
      × ((get_result_classification (some t) ≡ class_false)
          ↔ ((t ≡ result_false_prop) ⊎ ((sub : Text) × (t ≡ false_with sub))))
classification_exact t = (
  (true_text_of_class t (answer_view t), λ e. rw e (classification-answer_text holds)),
  (false_text_of_class t (answer_view t), class_of_false_text t),
)
