-- ===== src/Model/Limits.antt =====
-- The resource limits of Benchmark.__init__ of benchexec/model.py, from the benchmark definition and
-- from the command line, and Requirements.__init__. The result of a parser is an integer; a limit or
-- a requirement that is kept is a natural number, since it is checked to be positive.
use benchexec.Prelude.{
  ℕ, suc, zero, Option, none, some, Text, codes, text_eq, if◌then◌else◌, ltb, strip,
}
use benchexec.Prelude.Int.{ℤ, pos, negsuc}
use benchexec.Prelude.Numerals.{int}
use benchexec.Prelude.Outcome.{Outcome, returned, raised, ◌>>=◌}
use benchexec.Util.{ValueError, value_error, parse_memory_value, parse_timespan_value}

-- sys.exit with its messages, the ValueError of int, and the Exceptions of Requirements.
pub data LimitFailure : Type 0 where
  exit_invalid_value exit_not_positive exit_no_thread bad_number : LimitFailure
  double_specification invalid_requirement : LimitFailure

abbrev pub int_or_error : Option ℤ → Outcome ValueError ℤ
int_or_error none = raised value_error
int_or_error (some n) = returned n

-- int
abbrev pub parse_int : Text → Outcome ValueError ℤ
parse_int value = int_or_error (int value)

abbrev pub memory_limit : Text → Option ℤ → Outcome ValueError ℤ
memory_limit value none = parse_memory_value value
memory_limit value (some n) = raised value_error

unfoldable pub parse_memory_limit : Text → Outcome ValueError ℤ
unfolding int parse_memory_value
parse_memory_limit value = memory_limit value (int value)

-- The value that the command line leaves of the one in the benchmark definition.
unfoldable pub limit_text : Option Text → Option Text → Option Text
unfolding strip
limit_text value none = value
limit_text value (some cmdline_value) =
    if text_eq (strip cmdline_value) (codes "-1") then none else some cmdline_value

abbrev pub positive_limit : Outcome ValueError ℤ → Outcome LimitFailure (Option ℕ)
positive_limit (raised e) = raised exit_invalid_value
positive_limit (returned (pos (suc n))) = returned (some (suc n))
positive_limit (returned (pos zero)) = raised exit_not_positive
positive_limit (returned (negsuc n)) = raised exit_not_positive

abbrev pub parse_limit :
    (Text → Outcome ValueError ℤ) → Option Text → Outcome LimitFailure (Option ℕ)
parse_limit parse_fn none = returned none
parse_limit parse_fn (some value) = positive_limit (parse_fn value)

unfoldable pub handle_limit_value :
    Option Text → Option Text → (Text → Outcome ValueError ℤ) → Outcome LimitFailure (Option ℕ)
unfolding limit_text
handle_limit_value value cmdline_value parse_fn =
    parse_limit parse_fn (limit_text value cmdline_value)

-- The attributes of the root tag, by the names of the limits.
pub record LimitTexts : Type 0 where
  pub timelimit : Option Text
  pub hardtimelimit : Option Text
  pub walltimelimit : Option Text
  pub memorylimit : Option Text
  pub corelimit : Option Text

-- tooladapter.CURRENT_BASETOOL.ResourceLimits
pub record ResourceLimits : Type 0 where
  pub cputime : Option ℕ
  pub cputime_hard : Option ℕ
  pub walltime : Option ℕ
  pub memory : Option ℕ
  pub cpu_cores : Option ℕ

-- The soft and the hard limit on the CPU time, after their adjustment; a limit is never zero.
unfoldable pub adjust_times : Option ℕ → Option ℕ → Option ℕ × Option ℕ
adjust_times none none = (none, none)
adjust_times none (some hard) = (some hard, some hard)
adjust_times (some soft) none = (some soft, some soft)
adjust_times (some soft) (some hard) =
    if ltb hard soft then (some soft, some soft) else (some soft, some hard)

abbrev pub limits_of : Option ℕ × Option ℕ → Option ℕ → Option ℕ → Option ℕ → ResourceLimits
limits_of (cputime, cputime_hard) walltime memory cpu_cores = record {
  cputime = cputime;
  cputime_hard = cputime_hard;
  walltime = walltime;
  memory = memory;
  cpu_cores = cpu_cores;
}

-- The limits of the benchmark; of the options of the command line there is no hard time limit.
unfoldable pub read_limits : LimitTexts → LimitTexts → Outcome LimitFailure ResourceLimits
unfolding handle_limit_value adjust_times int parse_timespan_value parse_memory_limit
read_limits root config = do
  cputime ← handle_limit_value root.timelimit config.timelimit parse_timespan_value
  cputime_hard ← handle_limit_value root.hardtimelimit config.timelimit parse_timespan_value
  walltime ← handle_limit_value root.walltimelimit config.walltimelimit parse_timespan_value
  memory ← handle_limit_value root.memorylimit config.memorylimit parse_memory_limit
  cpu_cores ← handle_limit_value root.corelimit config.corelimit parse_int
  returned (limits_of (adjust_times cputime cputime_hard) walltime memory cpu_cores)
