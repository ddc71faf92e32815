-- ===== src/Result/Verdict.antt =====
-- ExpectedResult.from_str and __str__ of benchexec/result.py.
use benchexec.Prelude.{
  ◌&&◌, text_eq, not, ℕ, ◌≡◌, refl, sym, ap, subst, ◌∙◌, inl, inr, Bool, true, false, Option, none,
  some, [], ◌∷◌, ◌++◌, arith, Bool-cases, Text, codes, starts_with, starts_with-rest, if◌then◌else◌,
  ◌==◌, ==_iff,
}
use mathlib.Core.Option.{some-injective}
use benchexec.Prelude.Outcome.{Outcome, returned, raised, ◌>>=◌, returned-injective}
use benchexec.Result.{ExpectedResult, Failure, value_error, result_true_prop, result_false_prop}

-- {True: "true", False: "false"}.get(self.result, "")
abbrev pub verdict_word : Option Bool → Text
verdict_word none = []
verdict_word (some true) = result_true_prop
verdict_word (some false) = result_false_prop

abbrev pub with_subproperty : Text → Option Text → Text
with_subproperty word none = word
with_subproperty word (some []) = word
with_subproperty word (some (c ∷ s)) = word ++ b'(' ∷ ((c ∷ s) ++ b')' ∷ [])

-- ExpectedResult.__str__: the word stands alone where there is no verdict or no subproperty.
unfoldable pub to_str : ExpectedResult → Text
to_str e =
    if not (text_eq (verdict_word e.result) [])
    then with_subproperty (verdict_word e.result) e.subproperty
    else verdict_word e.result

-- `$` also matches before a newline that ends the text.
abbrev pub before_final_newline : Text → Text
before_final_newline [] = []
before_final_newline (c ∷ []) = if c == b'\n' then [] else c ∷ []
before_final_newline (c ∷ d ∷ s) = c ∷ before_final_newline (d ∷ s)

-- `.+` matches at least one character, and no newline.
abbrev pub no_newline : Text → Bool
no_newline [] = true
no_newline (c ∷ s) = not (c == b'\n') && no_newline s

abbrev pub prepend : ℕ → Option Text → Option Text
prepend c none = none
prepend c (some r) = some (c ∷ r)

-- What stands before the ")" that ends the text.
abbrev pub before_paren : Text → Option Text
before_paren [] = none
before_paren (c ∷ []) = if c == b')' then some [] else none
before_paren (c ∷ d ∷ s) = prepend c (before_paren (d ∷ s))

-- What `.+` accepts between the parentheses.
abbrev pub group_text : Option Text → Outcome Failure (Option Text)
group_text none = raised value_error
group_text (some []) = raised value_error
group_text (some (d ∷ r)) =
    if no_newline (d ∷ r) then returned (some (d ∷ r)) else raised value_error

-- (\((.+)\))?$ on what follows the word: group 3, or no match.
abbrev pub subproperty_group : Text → Outcome Failure (Option Text)
subproperty_group [] = returned none
subproperty_group (c ∷ s) = if c == b'(' then group_text (before_paren s) else raised value_error

abbrev after : ℕ → Text → Text
after ℕ.zero s = s
after (ℕ.suc n) [] = []
after (ℕ.suc n) (c ∷ s) = after n s

-- re.match(r"^(true|false)(\((.+)\))?$", s)
abbrev pub match_verdict : Text → Outcome Failure ExpectedResult
match_verdict s =
    if starts_with s result_true_prop
    then (do
      sub ← subproperty_group (after 4 s)
      returned (record { result = some true; subproperty = sub }))
    else if starts_with s result_false_prop
    then (do
      sub ← subproperty_group (after 5 s)
      returned (record { result = some false; subproperty = sub }))
    else raised value_error

-- ExpectedResult.from_str
unfoldable pub from_str : Text → Outcome Failure ExpectedResult
from_str [] = returned (record { result = none; subproperty = none })
from_str (c ∷ s) = match_verdict (before_final_newline (c ∷ s))

before_paren-snoc : (s : Text) → before_paren (s ++ b')' ∷ []) ≡ some s
before_paren-snoc [] = refl
before_paren-snoc (c ∷ []) = refl
before_paren-snoc (c ∷ d ∷ s) = rw (before_paren-snoc (d ∷ s), before_paren)

before_final_newline-snoc : (s : Text) → before_final_newline (s ++ b')' ∷ []) ≡ s ++ b')' ∷ []
before_final_newline-snoc [] = refl
before_final_newline-snoc (c ∷ []) = refl
before_final_newline-snoc (c ∷ d ∷ s) = ap (λ t. c ∷ t) (before_final_newline-snoc (d ∷ s))

-- What can be written and read back: no subproperty without a verdict, and a subproperty that is
-- not empty and has no newline.
abbrev IsPrintablePair : Option Bool → Option Text → Type 0
IsPrintablePair r none = Unit
IsPrintablePair none (some s) = ⊥
IsPrintablePair (some b) (some []) = ⊥
IsPrintablePair (some b) (some (c ∷ s)) = no_newline (c ∷ s) ≡ true

abbrev pub IsPrintable : ExpectedResult → Type 0
IsPrintable e = IsPrintablePair e.result e.subproperty

subproperty_group-print :
    (c : ℕ) (s : Text)
    → no_newline (c ∷ s) ≡ true
    → subproperty_group (b'(' ∷ ((c ∷ s) ++ b')' ∷ [])) ≡ returned (some (c ∷ s))
subproperty_group-print c s h = rw (before_paren-snoc (c ∷ s), subproperty_group) (rw h)

read_back :
    (r : Option Bool) (p : Option Text)
    → IsPrintablePair r p
    → from_str (to_str (record { result = r; subproperty = p }))
      ≡ returned (record { result = r; subproperty = p })
unfolding from_str to_str
read_back none none h = refl
read_back (some true) none h = refl
read_back (some false) none h = refl
read_back none (some s) h = elim h [ ]
read_back (some b) (some []) h = elim h [ ]
read_back (some true) (some (c ∷ s)) h =
    ap match_verdict (before_final_newline-snoc (codes "true(" ++ c ∷ s))
    ∙ ap
        (λ (g : Outcome Failure (Option Text)).
          g >>= λ sub. returned (record { result = some true; subproperty = sub }))
        (subproperty_group-print c s h)
read_back (some false) (some (c ∷ s)) h =
    ap match_verdict (before_final_newline-snoc (codes "false(" ++ c ∷ s))
    ∙ ap
        (λ (g : Outcome Failure (Option Text)).
          g >>= λ sub. returned (record { result = some false; subproperty = sub }))
        (subproperty_group-print c s h)

-- Reading the text of a printable expected result gives that result back.
pub from_str-to_str : (e : ExpectedResult) → IsPrintable e → from_str (to_str e) ≡ returned e
from_str-to_str e h = read_back e.result e.subproperty h

prepend-eq_some :
    (c : ℕ) (t : Text) (o : Option Text) (r : Text)
    → ((q : Text) → o ≡ some q → t ≡ q ++ b')' ∷ [])
    → prepend c o ≡ some r
    → c ∷ t ≡ r ++ b')' ∷ []
prepend-eq_some c t none r ih h = cc
prepend-eq_some c t (some q) r ih h =
    ap (λ u. c ∷ u) (ih q refl) ∙ ap (λ u. u ++ b')' ∷ []) (some-injective (c ∷ q) r h)

before_paren-eq_some : (s r : Text) → before_paren s ≡ some r → s ≡ r ++ b')' ∷ []
before_paren-eq_some [] r h = cc
before_paren-eq_some (c ∷ []) r h = ground arith
before_paren-eq_some (c ∷ d ∷ s) r h =
    prepend-eq_some c (d ∷ s) (before_paren (d ∷ s)) r (before_paren-eq_some (d ∷ s)) h

-- What was read after the word, and that it can be printed.
abbrev Read : Text → Option Text → Type 0
Read s p = (s ≡ with_subproperty [] p) × IsPrintablePair (some true) p

group_text-Read :
    (s : Text) (o p : Option Text)
    → ((q : Text) → o ≡ some q → s ≡ q ++ b')' ∷ [])
    → group_text o ≡ returned p
    → Read (b'(' ∷ s) p
group_text-Read s none p split h = cc
group_text-Read s (some []) p split h = cc
group_text-Read s (some (d ∷ r)) p split h = go (no_newline (d ∷ r)) refl h
  where
    go :
        (k : Bool)
        → no_newline (d ∷ r) ≡ k
        → ◌≡◌ {A = Outcome Failure (Option Text)}
            (if k then returned (some (d ∷ r)) else raised value_error)
            (returned p)
        → Read (b'(' ∷ s) p
    go true fine e =
        subst (Read (b'(' ∷ s)) (returned-injective e)
          (ap (λ u. b'(' ∷ u) (split (d ∷ r) refl), fine)
    go false bad e = cc

subproperty_group-Read : (s : Text) (p : Option Text) → subproperty_group s ≡ returned p → Read s p
subproperty_group-Read [] p h = subst (Read []) (returned-injective h) (refl, tt)
subproperty_group-Read (c ∷ s) p h = go (c == b'(') refl h
  where
    go :
        (k : Bool)
        → (c == b'(') ≡ k
        → ◌≡◌ {A = Outcome Failure (Option Text)}
            (if k then group_text (before_paren s) else raised value_error)
            (returned p)
        → Read (c ∷ s) p
    go true opens e =
        subst (λ (x : ℕ). Read (x ∷ s) p) (sym ((==_iff c b'(').0 opens))
          (group_text-Read s (before_paren s) p (before_paren-eq_some s) e)
    go false bad e = cc

-- The text that an accepted verdict was read from.
abbrev IsReading : Text → ExpectedResult → Type 0
IsReading s e = IsPrintable e × (to_str e ≡ s)

printed :
    (b : Bool) (p : Option Text) (rest : Text)
    → rest ≡ with_subproperty [] p
    → to_str (record { result = some b; subproperty = p }) ≡ verdict_word (some b) ++ rest
unfolding to_str
printed true none rest k = ap (λ u. verdict_word (some true) ++ u) (sym k)
printed true (some []) rest k = ap (λ u. verdict_word (some true) ++ u) (sym k)
printed true (some (c ∷ t)) rest k = ap (λ u. verdict_word (some true) ++ u) (sym k)
printed false none rest k = ap (λ u. verdict_word (some false) ++ u) (sym k)
printed false (some []) rest k = ap (λ u. verdict_word (some false) ++ u) (sym k)
printed false (some (c ∷ t)) rest k = ap (λ u. verdict_word (some false) ++ u) (sym k)

IsReading-word :
    (s : Text) (b : Bool) (rest : Text) (g : Outcome Failure (Option Text)) (e : ExpectedResult)
    → s ≡ verdict_word (some b) ++ rest
    → ((p : Option Text) → g ≡ returned p → Read rest p)
    → (g >>= λ sub. returned (record { result = some b; subproperty = sub })) ≡ returned e
    → IsReading s e
IsReading-word s b rest (raised x) e split read h = cc
IsReading-word s b rest (returned p) e split read h =
    subst (IsReading s) (returned-injective h)
      (printable b p (read p refl).1, printed b p rest (read p refl).0 ∙ sym split)
  where
    printable :
        (b : Bool) (p : Option Text) → IsPrintablePair (some true) p → IsPrintablePair (some b) p
    printable b none k = tt
    printable b (some []) k = k
    printable b (some (c ∷ t)) k = k

match_verdict-IsReading :
    (s : Text) (e : ExpectedResult) → match_verdict s ≡ returned e → IsReading s e
match_verdict-IsReading s e h = elim (Bool-cases (starts_with s result_true_prop)) [
  | inl t ↦
      let (r, split) = starts_with-rest s result_true_prop t in
      IsReading-word s true r (subproperty_group r) e split (subproperty_group-Read r)
        (subst (λ (u : Text). match_verdict u ≡ returned e) split h)
  | inr n ↦ elim (Bool-cases (starts_with s result_false_prop)) [
    | inl f ↦
        let (r, split) = starts_with-rest s result_false_prop f in
        IsReading-word s false r (subproperty_group r) e split (subproperty_group-Read r)
          (subst (λ (u : Text). match_verdict u ≡ returned e) split h)
    | inr m ↦ cc (h, match_verdict-none s n m)
  ]
]
  where
    match_verdict-none :
        (s : Text)
        → starts_with s result_true_prop ≡ false
        → starts_with s result_false_prop ≡ false
        → match_verdict s ≡ raised value_error
    match_verdict-none s n m = rw (n, m)

-- A text is accepted only if, up to a newline at its end, it is the text of the expected result
-- that is returned, and that one can be printed.
from_str_sound :
    (s : Text) (e : ExpectedResult)
    → from_str s ≡ returned e
    → IsPrintable e × (to_str e ≡ before_final_newline s)
unfolding from_str to_str
from_str_sound [] e h = subst (IsReading []) (returned-injective h) (tt, refl)
from_str_sound (c ∷ s) e h = match_verdict-IsReading (before_final_newline (c ∷ s)) e h
