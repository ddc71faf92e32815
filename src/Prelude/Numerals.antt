-- ===== src/Prelude/Numerals.antt =====
-- Python's int(s) and str(n), on texts of ASCII digits.
use Prim.Native.Nat.{ℕ, zero, suc, ◌+◌, ◌-◌, ◌*◌, ◌/◌, ◌%◌, ◌<◌}
use mathlib.Core.Logic.{inl, inr}
use mathlib.Core.Path.{◌≡◌, refl, ap, ◌∙◌, sym}
use mathlib.Core.Bool.{Bool, true, false, ◌&&◌}
use mathlib.Core.Option.{Option, none, some}
use mathlib.Core.List.{reverse, [], ◌∷◌, ◌++◌, append_assoc, append-nil, reverse, reverse-reverse}
use native.Mathlib.Omega.{arith}
use benchexec.Prelude.Tests.{leb, ltb, ◌==◌, if◌then◌else◌, Bool-cases}
use benchexec.Prelude.Strings.{is_space, lstrip, Text, strip}
use benchexec.Prelude.Lists.{All, All-append, All-reverse}
use benchexec.Prelude.Int.{ℤ, pos, sub_ℕ}

-- c.isdigit()
abbrev pub is_digit : ℕ → Bool
is_digit c = leb b'0' c && leb c b'9'

-- The digits of an int literal, with single underscores between them: `open_end` says that a digit
-- has to follow.
unfoldable pub digits_value : ℕ → Bool → Text → Option ℕ
digits_value acc true [] = none
digits_value acc false [] = some acc
digits_value acc open_end (c ∷ s) = elim (is_digit c) [
  | true ↦ digits_value (acc * 10 + (c - b'0')) false s
  | false ↦ elim open_end [
    | true ↦ none
    | false ↦ elim (c == b'_') [ true ↦ digits_value acc true s | false ↦ none ]
  ]
]

abbrev pub negate : Option ℕ → Option ℤ
negate none = none
negate (some n) = some (sub_ℕ 0 n)

abbrev pub plain : Option ℕ → Option ℤ
plain none = none
plain (some n) = some (pos n)

abbrev pub signed : Text → Option ℤ
signed [] = none
signed (c ∷ s) =
    if c == b'-'
    then negate (digits_value 0 true s)
    else if c == b'+'
    then plain (digits_value 0 true s)
    else plain (digits_value 0 true (c ∷ s))

-- int(s); none stands for the ValueError.
unfoldable pub int : Text → Option ℤ
unfolding digits_value strip
int s = signed (strip s)

-- The last digit of n is written behind the digits of n / 10.
show : ℕ → ℕ → Text
show zero n = []
show (suc fuel) n =
    let rest = show fuel (n / 10) in (if ltb n 10 then [] else rest) ++ (b'0' + n % 10) ∷ []

-- str(n)
unfoldable pub str : ℕ → Text
unfolding show
str n = show (suc n) n

digits_value-digit :
    (acc d : ℕ) (b : Bool) (s : Text)
    → d < 10
    → digits_value acc b ((b'0' + d) ∷ s) ≡ digits_value (acc * 10 + d) false s
unfolding digits_value
digits_value-digit acc d true s h = ground arith
digits_value-digit acc d false s h = ground arith

digits_value-show :
    (fuel n : ℕ) (s : Text)
    → n < fuel
    → digits_value 0 true (show fuel n ++ s) ≡ digits_value n false s
unfolding show
digits_value-show zero n s h = elim h [ ]
digits_value-show (suc fuel) n s h = elim (Bool-cases (ltb n 10)) [
  | inl small ↦ rw small (
      rw (digits_value-digit 0 (n % 10) true s (omega arith))
        (ap (λ k. digits_value k false s) (ground arith)))
  | inr big ↦ rw big (
      rw append_assoc (
        digits_value-show fuel (n / 10) ((b'0' + n % 10) ∷ s) (ground arith)
        ∙ digits_value-digit (n / 10) (n % 10) false s (omega arith)
        ∙ ap (λ k. digits_value k false s) (omega arith)))
]

-- Every character is a digit.
abbrev pub AllDigits : Text → Type 0
AllDigits s = All (λ c. is_digit c ≡ true) s

show-AllDigits : (fuel n : ℕ) → AllDigits (show fuel n)
unfolding show
show-AllDigits zero n = tt
show-AllDigits (suc fuel) n = elim (Bool-cases (ltb n 10)) [
  | inl small ↦ rw small (ground arith, tt)
  | inr big ↦
      rw big (All-append _ (show fuel (n / 10)) _ (show-AllDigits fuel (n / 10)) (ground arith, tt))
]

pub str-AllDigits : (n : ℕ) → AllDigits (str n)
unfolding str
str-AllDigits n = show-AllDigits (suc n) n

digits_value-str : (n : ℕ) → digits_value 0 true (str n) ≡ some n
unfolding str digits_value
digits_value-str n =
    ap (digits_value 0 true) (sym (append-nil (show (suc n) n)))
    ∙ digits_value-show (suc n) n [] (omega arith)

pub digit-not_space : (c : ℕ) → is_digit c ≡ true → is_space c ≡ false
unfolding is_space
digit-not_space c h = ground arith

-- No character is white space.
abbrev pub NoSpace : Text → Type 0
NoSpace s = All (λ c. is_space c ≡ false) s

pub lstrip-NoSpace : (s : Text) → NoSpace s → lstrip s ≡ s
unfolding lstrip
lstrip-NoSpace [] h = refl
lstrip-NoSpace (c ∷ s) h = rw h.0

pub strip-NoSpace : (s : Text) → NoSpace s → strip s ≡ s
unfolding strip
strip-NoSpace s h =
    rw (lstrip-NoSpace s h)
      (rw (lstrip-NoSpace (reverse s) (All-reverse _ s h)) (reverse-reverse s))

pub AllDigits-NoSpace : (s : Text) → AllDigits s → NoSpace s
AllDigits-NoSpace [] h = tt
AllDigits-NoSpace (c ∷ s) h = (digit-not_space c h.0, AllDigits-NoSpace s h.1)

signed-digit :
    (c : ℕ) (s : Text) → is_digit c ≡ true → signed (c ∷ s) ≡ plain (digits_value 0 true (c ∷ s))
signed-digit c s h = ground arith

signed-AllDigits : (s : Text) → AllDigits s → signed s ≡ plain (digits_value 0 true s)
unfolding digits_value
signed-AllDigits [] h = refl
signed-AllDigits (c ∷ s) h = signed-digit c s h.0

-- Python's int reads back what str writes.
pub int-str : (n : ℕ) → int (str n) ≡ some (pos n)
unfolding int
int-str n =
    ap signed (strip-NoSpace (str n) (AllDigits-NoSpace (str n) (str-AllDigits n)))
    ∙ signed-AllDigits (str n) (str-AllDigits n)
    ∙ ap plain (digits_value-str n)
