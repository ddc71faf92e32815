-- ===== src/Util.antt =====
-- benchexec/util.py: the parsers of lists of integers and of values with a unit, and the small
-- helpers on texts and lists.
pub mod Units
pub mod IntLists
pub mod ExitCode
mod Tests
use benchexec.Prelude.{
  ℕ, zero, suc, ◌+◌, ◌-◌, ◌*◌, ◌≡◌, Bool, true, false, ◌||◌, Option, none, some, List, [], ◌∷◌,
  ◌++◌, Text, codes, text_eq, starts_with, split, strip, if◌then◌else◌, ltb, length, get_elem?,
  take, drop,
}
use benchexec.Prelude.Int.{ℤ, pos, negsuc, ◌*ℤ◌}
use benchexec.Prelude.Numerals.{is_digit, int}
use benchexec.Prelude.Outcome.{Outcome, returned, raised, ◌>>=◌}

-- InputValueError is a ValueError, and the program only catches the latter.
pub data ValueError : Type 0 where
  value_error : ValueError

-- _BYTE_FACTOR
abbrev pub byte_factor : ℕ
byte_factor = 1000

-- _FREQUENCY_FACTOR
abbrev pub frequency_factor : ℕ
frequency_factor = 1000

unfoldable pub is_comment : Text → Bool
is_comment line = text_eq line [] || starts_with line (codes "#") || starts_with line (codes "//")

-- range(a, b)
abbrev pub count_from : ℕ → ℕ → List ℕ
count_from zero a = []
count_from (suc k) a = a ∷ count_from k (suc a)

abbrev pub range : ℕ → ℕ → List ℕ
range a b = count_from (b - a) a

abbrev pub natural : Option ℤ → Outcome ValueError ℕ
natural none = raised value_error
natural (some (pos n)) = returned n
natural (some (negsuc n)) = raised value_error

-- int(part) where no "-" is left in the part, so that the value is never negative.
abbrev pub int_part : Text → Outcome ValueError ℕ
int_part part = natural (int part)

abbrev pub range_values : List Text → Outcome ValueError (List ℕ)
range_values [] = raised value_error
range_values (a ∷ []) = do n ← int_part a; returned (n ∷ [])
range_values (a ∷ b ∷ []) = do
  start ← int_part a
  last ← int_part b
  returned (range start (last + 1))
range_values (a ∷ b ∷ c ∷ r) = raised value_error

abbrev pub item_values : Text → Outcome ValueError (List ℕ)
item_values item = range_values (split b'-' (strip item))

-- The loop over the items, with `result`.
abbrev pub parse_items : List ℕ → List Text → Outcome ValueError (List ℕ)
parse_items result [] = returned result
parse_items result (item ∷ rest) = do values ← item_values item; parse_items (result ++ values) rest

unfoldable pub parse_int_list : Text → Outcome ValueError (List ℕ)
unfolding split strip int
parse_int_list s = parse_items [] (split b',' s)

-- s[p].isdigit()
abbrev pub digit_at : Text → ℕ → Bool
digit_at s p = elim (get_elem? s p) [ none ↦ false | some c ↦ is_digit c ]

-- while pos and not s[pos - 1].isdigit(): pos -= 1
abbrev pub number_end : Text → ℕ → ℕ
number_end s zero = zero
number_end s (suc p) = let rest = number_end s p in if digit_at s p then suc p else rest

abbrev pub with_unit : Text → Option ℤ → Outcome ValueError (ℤ × Text)
with_unit rest none = raised value_error
with_unit rest (some number) = returned (number, strip rest)

abbrev pub split_at : Text → ℕ → Outcome ValueError (ℤ × Text)
split_at s p = with_unit (drop p s) (int (take p s))

abbrev pub split_stripped : Text → Outcome ValueError (ℤ × Text)
split_stripped s = split_at s (number_end s (length s))

unfoldable pub split_number_and_unit : Text → Outcome ValueError (ℤ × Text)
unfolding strip int
split_number_and_unit s = if text_eq s [] then raised value_error else split_stripped (strip s)

abbrev pub memory_unit : ℤ × Text → Outcome ValueError ℤ
memory_unit (number, unit) =
    if text_eq unit [] || text_eq unit (codes "B")
    then returned number
    else if text_eq unit (codes "kB")
    then returned (number *ℤ pos byte_factor)
    else if text_eq unit (codes "MB")
    then returned (number *ℤ pos (byte_factor * byte_factor))
    else if text_eq unit (codes "GB")
    then returned (number *ℤ pos (byte_factor * byte_factor * byte_factor))
    else if text_eq unit (codes "TB")
    then returned (number *ℤ pos (byte_factor * byte_factor * byte_factor * byte_factor))
    else raised value_error

unfoldable pub parse_memory_value : Text → Outcome ValueError ℤ
unfolding split_number_and_unit ◌*ℤ◌
parse_memory_value s = do parsed ← split_number_and_unit s; memory_unit parsed

abbrev pub timespan_unit : ℤ × Text → Outcome ValueError ℤ
timespan_unit (number, unit) =
    if text_eq unit [] || text_eq unit (codes "s")
    then returned number
    else if text_eq unit (codes "min")
    then returned (number *ℤ pos 60)
    else if text_eq unit (codes "h")
    then returned (number *ℤ pos (60 * 60))
    else if text_eq unit (codes "d")
    then returned (number *ℤ pos (24 * 60 * 60))
    else raised value_error

unfoldable pub parse_timespan_value : Text → Outcome ValueError ℤ
unfolding split_number_and_unit ◌*ℤ◌
parse_timespan_value s = do parsed ← split_number_and_unit s; timespan_unit parsed

abbrev pub frequency_unit : ℤ × Text → Outcome ValueError ℤ
frequency_unit (number, unit) =
    if text_eq unit [] || text_eq unit (codes "Hz")
    then returned number
    else if text_eq unit (codes "kHz")
    then returned (number *ℤ pos frequency_factor)
    else if text_eq unit (codes "MHz")
    then returned (number *ℤ pos (frequency_factor * frequency_factor))
    else if text_eq unit (codes "GHz")
    then returned (number *ℤ pos (frequency_factor * frequency_factor * frequency_factor))
    else raised value_error

unfoldable pub parse_frequency_value : Text → Outcome ValueError ℤ
unfolding split_number_and_unit ◌*ℤ◌
parse_frequency_value s = do parsed ← split_number_and_unit s; frequency_unit parsed

unfoldable pub non_empty_str : Text → Outcome ValueError Text
non_empty_str [] = raised value_error
non_empty_str (c ∷ s) = returned (c ∷ s)
