-- ===== src/Util/Units.antt =====
-- split_number_and_unit of benchexec/util.py, and the parsers of values with a unit.
use native.Mathlib.Nat.{zero-add, suc-add, add-zero, add-suc}
use mathlib.Core.Path.{ap₂}
use mathlib.Core.List.{reverse-append, reverse-reverse}
use benchexec.Prelude.{
  ◌^◌, All-append_right, subst, snoc_view, ◌≢◌, inr, inl, is_space, ℕ, zero, suc, ◌+◌, ◌*◌, ◌<◌,
  ◌≡◌, refl, ap, ◌∙◌, sym, Bool, true, false, Option, none, some, List, [], ◌∷◌, ◌++◌, append_assoc,
  arith, Text, codes, text_eq, strip, rstrip, lstrip, All, All-append, if◌then◌else◌, length, take,
  drop, reverse, length-append,
}
use benchexec.Prelude.Int.{ℤ, pos, pos-*ℤ-pos}
use benchexec.Prelude.Numerals.{
  digit-not_space, str, str-AllDigits, AllDigits, NoSpace, strip-NoSpace, int, int-str, is_digit,
}
use benchexec.Prelude.Outcome.{Outcome, returned, raised, ◌>>=◌}
use benchexec.Prelude.Dict.{get, text_key}
use benchexec.Util.{
  memory_unit, timespan_unit, frequency_unit, with_unit, ValueError, value_error, digit_at,
  number_end, split_at, split_stripped, split_number_and_unit, parse_memory_value,
  parse_timespan_value, parse_frequency_value,
}

-- No character is a digit.
abbrev pub NoDigit : Text → Type 0
NoDigit u = All (λ c. is_digit c ≡ false) u

take-append_self : (d u : Text) → take (length d) (d ++ u) ≡ d
take-append_self [] u = refl
take-append_self (c ∷ d) u = ap (λ s. c ∷ s) (take-append_self d u)

drop-append_self : (d u : Text) → drop (length d) (d ++ u) ≡ u
drop-append_self [] u = refl
drop-append_self (c ∷ d) u = drop-append_self d u

digit_at-append_left :
    (d u : Text) (p : ℕ) → AllDigits d → p < length d → digit_at (d ++ u) p ≡ true
digit_at-append_left [] u p h lt = elim lt [ ]
digit_at-append_left (c ∷ d) u zero h lt = h.0
digit_at-append_left (c ∷ d) u (suc p) h lt = digit_at-append_left d u p h.1 (omega arith)

digit_at-NoDigit : (u : Text) (k : ℕ) → NoDigit u → digit_at u k ≡ false
digit_at-NoDigit [] k h = refl
digit_at-NoDigit (c ∷ u) zero h = h.0
digit_at-NoDigit (c ∷ u) (suc k) h = digit_at-NoDigit u k h.1

digit_at-append_right : (d u : Text) (k : ℕ) → NoDigit u → digit_at (d ++ u) (length d + k) ≡ false
digit_at-append_right [] u k h = rw (zero-add k) (digit_at-NoDigit u k h)
digit_at-append_right (c ∷ d) u k h = rw (suc-add (length d) k) (digit_at-append_right d u k h)

-- Scanning from k characters into the unit stops behind the last digit.
number_end-append :
    (c : ℕ) (d u : Text) (k : ℕ)
    → AllDigits (c ∷ d)
    → NoDigit u
    → number_end ((c ∷ d) ++ u) (length (c ∷ d) + k) ≡ length (c ∷ d)
number_end-append c d u zero h n = rw (add-zero (suc (length d))) (
    ap (λ b. if b then suc (length d) else number_end ((c ∷ d) ++ u) (length d))
      (digit_at-append_left (c ∷ d) u (length d) h (omega arith)))
number_end-append c d u (suc k) h n = rw (add-suc (suc (length d)) k) (
    ap (λ b. if b then suc (suc (length d) + k) else number_end ((c ∷ d) ++ u) (suc (length d) + k))
      (digit_at-append_right (c ∷ d) u k n)
    ∙ number_end-append c d u k h n)

-- A number, then a unit with no digit in it and no white space behind it.
split_stripped-append :
    (c : ℕ) (d u : Text)
    → AllDigits (c ∷ d)
    → NoDigit u
    → split_stripped ((c ∷ d) ++ u) ≡ with_unit u (int (c ∷ d))
split_stripped-append c d u h n =
    ap (split_at ((c ∷ d) ++ u)) (
      ap (number_end ((c ∷ d) ++ u)) (length-append (c ∷ d) u)
      ∙ number_end-append c d u (length u) h n)
    ∙ ap₂ (λ r t. with_unit r (int t)) (drop-append_self (c ∷ d) u) (take-append_self (c ∷ d) u)

-- Every character is white space.
abbrev pub AllSpace : Text → Type 0
AllSpace s = All (λ c. is_space c ≡ true) s

lstrip-AllSpace : (gap s : Text) → AllSpace gap → lstrip (gap ++ s) ≡ lstrip s
unfolding lstrip
lstrip-AllSpace [] s h = refl
lstrip-AllSpace (c ∷ gap) s h = rw (h.0) (lstrip-AllSpace gap s h.1)

lstrip-head : (c : ℕ) (s : Text) → is_space c ≡ false → lstrip (c ∷ s) ≡ c ∷ s
unfolding lstrip
lstrip-head c s h = rw h

rstrip-last : (s : Text) (c : ℕ) → is_space c ≡ false → rstrip (s ++ c ∷ []) ≡ s ++ c ∷ []
unfolding rstrip
rstrip-last s c h =
    ap (λ t. reverse (lstrip t)) (reverse-append s (c ∷ []))
    ∙ ap reverse (lstrip-head c (reverse s) h)
    ∙ ap reverse (sym (reverse-append s (c ∷ [])))
    ∙ reverse-reverse (s ++ c ∷ [])

strip-ends :
    (c : ℕ) (s : Text) (d : ℕ)
    → is_space c ≡ false
    → is_space d ≡ false
    → strip ((c ∷ s) ++ d ∷ []) ≡ (c ∷ s) ++ d ∷ []
unfolding strip
strip-ends c s d h k = ap rstrip (lstrip-head c (s ++ d ∷ []) h) ∙ rstrip-last (c ∷ s) d k

AllSpace-NoDigit : (s : Text) → AllSpace s → NoDigit s
AllSpace-NoDigit [] h = tt
AllSpace-NoDigit (c ∷ s) h = (not_digit (is_digit c) refl, AllSpace-NoDigit s h.1)
  where
    not_digit : (b : Bool) → is_digit c ≡ b → b ≡ false
    not_digit true e = cc (h.0, digit-not_space c e)
    not_digit false e = refl

int-nil : int [] ≡ none
unfolding int
int-nil = refl

str-cons : (n : ℕ) → (c : ℕ) × (d : Text) × (str n ≡ c ∷ d)
str-cons n = first (str n) refl
  where
    first : (s : Text) → str n ≡ s → (c : ℕ) × (d : Text) × (str n ≡ c ∷ d)
    first [] e = cc (int-str n, ap int e, int-nil)
    first (c ∷ d) e = (c, d, e)

-- A unit: not empty, with neither digits nor white space in it.
pub record IsUnit (name : Text) : Type 0 where
  pub some_letter : name ≢ []
  pub no_space : NoSpace name
  pub no_digit : NoDigit name

strip-number_unit :
    (c : ℕ) (d gap name : Text)
    → AllDigits (c ∷ d)
    → IsUnit name
    → strip ((c ∷ d) ++ (gap ++ name)) ≡ (c ∷ d) ++ (gap ++ name)
strip-number_unit c d gap name h unit = elim (snoc_view name) [
  | inl empty ↦ absurd (unit.some_letter empty)
  | inr (r, x, e) ↦
      let last : NoSpace (x ∷ []) = All-append_right _ r (x ∷ []) (subst NoSpace e unit.no_space) in
      rw e (
        ap (λ t. strip ((c ∷ d) ++ t)) (sym (append_assoc gap r (x ∷ [])))
        ∙ ap (λ t. strip t) (sym (append_assoc (c ∷ d) (gap ++ r) (x ∷ [])))
        ∙ strip-ends c (d ++ (gap ++ r)) x (digit-not_space c h.0) last.0
        ∙ append_assoc (c ∷ d) (gap ++ r) (x ∷ [])
        ∙ ap (λ t. (c ∷ d) ++ t) (append_assoc gap r (x ∷ [])))
]

strip-gap_unit : (gap name : Text) → AllSpace gap → IsUnit name → strip (gap ++ name) ≡ name
unfolding strip
strip-gap_unit gap name spaces unit =
    ap rstrip (lstrip-AllSpace gap name spaces) ∙ unfold strip in strip-NoSpace name unit.no_space

number_then_unit :
    (s : Text) (n : ℕ) (gap name : Text)
    → s ≡ str n
    → AllSpace gap
    → IsUnit name
    → split_number_and_unit (s ++ (gap ++ name)) ≡ returned (pos n, name)
unfolding split_number_and_unit
number_then_unit [] n gap name e spaces unit = cc (int-str n, ap int e, int-nil)
number_then_unit (c ∷ s) n gap name e spaces unit =
    ap split_stripped (strip-number_unit c s gap name digits unit)
    ∙ split_stripped-append c s (gap ++ name) digits
        (All-append _ gap name (AllSpace-NoDigit gap spaces) unit.no_digit)
    ∙ ap (with_unit (gap ++ name)) (ap int e ∙ int-str n)
    ∙ ap (λ t. returned (pos n, t)) (strip-gap_unit gap name spaces unit)
  where
    digits : AllDigits (c ∷ s)
    digits = subst AllDigits (sym e) (str-AllDigits n)

-- A decimal number, white space or none, and a unit are split into the number and the unit.
pub split_number_and_unit-append :
    (n : ℕ) (gap name : Text)
    → AllSpace gap
    → IsUnit name
    → split_number_and_unit (str n ++ (gap ++ name)) ≡ returned (pos n, name)
split_number_and_unit-append n gap name spaces unit =
    number_then_unit (str n) n gap name refl spaces unit

-- What a value with a unit is worth: the unit's factor from a table, or the error of an unknown unit.
abbrev pub worth : ℕ → Option ℕ → Outcome ValueError ℤ
worth n none = raised value_error
worth n (some factor) = returned (pos (n * factor))

abbrev pub memory_factors : List (Text × ℕ)
memory_factors =
    (codes "B", 1)
    ∷ (codes "kB", 10 ^ 3)
    ∷ (codes "MB", 10 ^ 6)
    ∷ (codes "GB", 10 ^ 9)
    ∷ (codes "TB", 10 ^ 12)
    ∷ []

abbrev pub timespan_factors : List (Text × ℕ)
timespan_factors = (codes "s", 1) ∷ (codes "min", 60) ∷ (codes "h", 3600) ∷ (codes "d", 86400) ∷ []

abbrev pub frequency_factors : List (Text × ℕ)
frequency_factors =
    (codes "Hz", 1) ∷ (codes "kHz", 10 ^ 3) ∷ (codes "MHz", 10 ^ 6) ∷ (codes "GHz", 10 ^ 9) ∷ []

not_empty : (name : Text) → IsUnit name → text_eq name [] ≡ false
not_empty [] unit = absurd (unit.some_letter refl)
not_empty (c ∷ s) unit = refl

memory_unit-worth :
    (n : ℕ) (name : Text)
    → text_eq name [] ≡ false
    → memory_unit (pos n, name) ≡ worth n (get name memory_factors)
unfolding get
memory_unit-worth n name h = ground (
  arith,
  pos-*ℤ-pos n 1000,
  pos-*ℤ-pos n 1000000,
  pos-*ℤ-pos n 1000000000,
  pos-*ℤ-pos n 1000000000000,
)

timespan_unit-worth :
    (n : ℕ) (name : Text)
    → text_eq name [] ≡ false
    → timespan_unit (pos n, name) ≡ worth n (get name timespan_factors)
unfolding get
timespan_unit-worth n name h =
    ground (arith, pos-*ℤ-pos n 60, pos-*ℤ-pos n 3600, pos-*ℤ-pos n 86400)

frequency_unit-worth :
    (n : ℕ) (name : Text)
    → text_eq name [] ≡ false
    → frequency_unit (pos n, name) ≡ worth n (get name frequency_factors)
unfolding get
frequency_unit-worth n name h =
    ground (arith, pos-*ℤ-pos n 1000, pos-*ℤ-pos n 1000000, pos-*ℤ-pos n 1000000000)

-- A decimal number, white space or none, and a unit: each parser multiplies the number by the
-- factor that its table has for the unit, and refuses a unit that is not in the table.
pub units_worth :
    (n : ℕ) (gap name : Text)
    → AllSpace gap
    → IsUnit name
    → (parse_memory_value (str n ++ (gap ++ name)) ≡ worth n (get name memory_factors))
      × (parse_timespan_value (str n ++ (gap ++ name)) ≡ worth n (get name timespan_factors))
      × (parse_frequency_value (str n ++ (gap ++ name)) ≡ worth n (get name frequency_factors))
unfolding parse_memory_value parse_timespan_value parse_frequency_value
units_worth n gap name spaces unit = (
  with_parser memory_unit ∙ memory_unit-worth n name (not_empty name unit),
  with_parser timespan_unit ∙ timespan_unit-worth n name (not_empty name unit),
  with_parser frequency_unit ∙ frequency_unit-worth n name (not_empty name unit),
)
  where
    with_parser :
        (scale : (ℤ × Text) → Outcome ValueError ℤ)
        → (split_number_and_unit (str n ++ (gap ++ name)) >>= scale) ≡ scale (pos n, name)
    with_parser scale =
        ap (λ (o : Outcome ValueError (ℤ × Text)). o >>= scale)
          (split_number_and_unit-append n gap name spaces unit)
