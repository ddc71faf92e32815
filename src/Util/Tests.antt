-- ===== src/Util/Tests.antt =====
-- Runs of the parsers of benchexec/util.py, and the theorems at small inputs.
use benchexec.Prelude.{is_space, ◌≡◌, refl, [], ◌∷◌, ◌++◌, Text, codes}
use benchexec.Prelude.Int.{pos, negsuc}
use benchexec.Prelude.Numerals.{str}
use benchexec.Prelude.Dict.{get, text_key}
use benchexec.Prelude.Outcome.{returned, raised}
use benchexec.Util.{
  value_error, parse_int_list, parse_memory_value, parse_timespan_value, parse_frequency_value,
}
use benchexec.Util.IntLists.{one, span, items_text, all_members, parse_int_list-items_text}
use benchexec.Util.Units.{
  IsUnit, worth, memory_factors, timespan_factors, frequency_factors, units_worth,
}

test_parse_int_list :
    (parse_int_list (codes "0-2, 7,9-8") ≡ returned (0 ∷ 1 ∷ 2 ∷ 7 ∷ []))
    × (parse_int_list (codes "") ≡ raised value_error)
    × (parse_int_list (codes "1-2-3") ≡ raised value_error)
    × (parse_int_list (codes "-1") ≡ raised value_error)
unfolding parse_int_list
test_parse_int_list = (refl, refl, refl, refl)

test_units :
    (parse_memory_value (codes " 16 GB ") ≡ returned (pos 16000000000))
    × (parse_memory_value (codes "-2kB") ≡ returned (negsuc 1999))
    × (parse_memory_value (codes "16 gb") ≡ raised value_error)
    × (parse_timespan_value (codes "15min") ≡ returned (pos 900))
    × (parse_timespan_value (codes "900") ≡ returned (pos 900))
    × (parse_frequency_value (codes "1_000 MHz") ≡ returned (pos 1000000000))
unfolding parse_memory_value parse_timespan_value parse_frequency_value
test_units = (refl, refl, refl, refl, refl, refl)

abbrev gigabytes : Text
gigabytes = codes "GB"

gigabytes-IsUnit : IsUnit gigabytes
unfolding is_space
gigabytes-IsUnit = record {
  some_letter = λ e. cc;
  no_space = (refl, (refl, tt));
  no_digit = (refl, (refl, tt));
}

parse_int_list-items_text_example :
    parse_int_list (items_text (span 0 3) (one 8 ∷ []))
    ≡ returned (all_members (span 0 3) (one 8 ∷ []))
parse_int_list-items_text_example = parse_int_list-items_text (span 0 3) (one 8 ∷ [])

units_worth_example :
    (parse_memory_value (str 7 ++ (codes " " ++ gigabytes))
      ≡ worth 7 (get gigabytes memory_factors))
    × (parse_timespan_value (str 7 ++ (codes " " ++ gigabytes))
        ≡ worth 7 (get gigabytes timespan_factors))
    × (parse_frequency_value (str 7 ++ (codes " " ++ gigabytes))
        ≡ worth 7 (get gigabytes frequency_factors))
unfolding is_space
units_worth_example = units_worth 7 (codes " ") gigabytes (refl, tt) gigabytes-IsUnit
