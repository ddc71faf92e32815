-- ===== src/Model/Tests.antt =====
-- Runs of the functions of benchexec/model.py on small inputs, and the theorems at such inputs.
use benchexec.Prelude.{Bool, ◌≡◌, refl, true, false, none, some, List, [], ◌∷◌, Text, codes, ℕ}
use benchexec.Prelude.{◌≢◌, Option}
use benchexec.Prelude.Dict.{member}
use benchexec.Prelude.Outcome.{raised, returned}
use benchexec.Util.ExitCode.{ProcessExitCode}
use benchexec.Result.{
  ExpectedResult, Property, correct, error, unknown, class_other, get_result_classification,
}
use benchexec.Model.Status.{Times, DetermineResult, is_timeout, judge_run}
use benchexec.Model.Violations.{Reason, reason_given}
use benchexec.Model.Crashes.{crash_category, judge_run-crashed}
use benchexec.Model.TaskDefinition.{
  FileSystem, PropertyEntry, Entry, property_entry, not_a_property, verdict, select_run,
  accepts_filter, missing_property_file, specified_multiple_times, one_pattern, pattern_list,
  create_run_from_task_definition,
}
use benchexec.Model.Verdicts.{IsRead, AllRead, nil, cons, selected, last_verdict, select_run-read}
use benchexec.Model.Filters.{select_run-multiple}
use benchexec.Model.Limits.{
  LimitTexts, ResourceLimits, read_limits, exit_not_positive, exit_invalid_value,
}
use benchexec.Model.Limited.{AreSound, read_limits-AreSound}
use benchexec.Prelude.{◌++◌}
use benchexec.Prelude.Int.{pos}
use benchexec.Model.Limits.{double_specification}
use benchexec.Model.Requirements.{RequireTag, Requirements, make_requirements}
use benchexec.Model.Answered.{judge_run-answered}

abbrev unreach : Property
unreach = record { filename = some (codes "u.prp"); is_svcomp = true; name = codes "u" }

abbrev safe : List (Text × ExpectedResult)
safe = (codes "u.prp", record { result = some true; subproperty = none }) ∷ []

abbrev always : Text → DetermineResult
always t exitcode reason = t

abbrev exited : ℕ → ProcessExitCode
exited n = record { raw = n; value = some n; signal = none }

abbrev aborted : ProcessExitCode
aborted = record { raw = 6; value = none; signal = some 6 }

abbrev limits : Times
limits = record { cputime = some 900; walltime = none }

abbrev used : ℕ → Times
used n = record { cputime = some n; walltime = some n }

test_statuses :
    (judge_run (always (codes "true")) (used 5) limits (some (exited 0)) none safe (unreach ∷ [])
      ≡ (some (codes "true"), returned correct))
    × (judge_run
          (always (codes "true"))
          (used 901)
          limits
          (some (exited 0))
          none
          safe
          (unreach ∷ [])
        ≡ (some (codes "TIMEOUT (true)"), returned error))
    × (judge_run
          (always (codes "unknown"))
          (used 5)
          limits
          (some (exited 3))
          none
          safe
          (unreach ∷ [])
        ≡ (some (codes "unknown"), returned unknown))
    × (judge_run (always (codes "done")) (used 5) limits (some (exited 3)) none safe (unreach ∷ [])
        ≡ (some (codes "ERROR (3)"), returned error))
    × (judge_run (always (codes "unknown")) (used 5) limits (some aborted) none safe (unreach ∷ [])
        ≡ (some (codes "ABORTED"), returned error))
unfolding judge_run
test_statuses = (refl, refl, refl, refl, refl)

judge_run-crashed_example :
    (judge_run (always (codes "unknown")) (used 5) limits (some aborted) none safe (unreach ∷ [])).1
    ≡ returned (crash_category (some 6) none (codes "unknown"))
unfolding is_timeout member
judge_run-crashed_example =
    judge_run-crashed (always (codes "unknown")) (used 5) limits aborted safe (unreach ∷ []) refl
      refl

true_answered :
    get_result_classification
      (judge_run
        (always (codes "true"))
        (used 5)
        limits
        (some (exited 0))
        (reason_given none)
        safe
        (unreach ∷ [])).0
    ≢ class_other
unfolding judge_run get_result_classification
true_answered h = cc

judge_run-answered_example :
    (is_timeout (used 5) limits ≡ false)
    × (◌≡◌ {A = Option Reason} none none)
    × ((e : ProcessExitCode) × (some (exited 0) ≡ some e)
        × ((judge_run
              (always (codes "true"))
              (used 5)
              limits
              (some (exited 0))
              (reason_given none)
              safe
              (unreach ∷ [])).0
            ≡ some (codes "true")))
judge_run-answered_example =
    judge_run-answered (always (codes "true")) (used 5) limits (some (exited 0)) none safe
      (unreach ∷ []) true_answered

-- A file system in which a pattern is the one file of its name.
abbrev plain_files : FileSystem
plain_files = record { expand = λ pattern. pattern ∷ []; samefile = λ a b. false }

abbrev entry_of : Text → Bool → Option Text → PropertyEntry
entry_of file holds sub = record {
  property_file = file;
  expected_verdict = verdict holds;
  subproperty = sub;
}

abbrev twice : List Entry
twice =
    property_entry (entry_of (codes "u.prp") true none)
    ∷ property_entry (entry_of (codes "u.prp") false (some (codes "s")))
    ∷ []

IsRead-plain :
    (file : Text) (holds : Bool) (sub : Option Text)
    → IsRead plain_files (property_entry (entry_of file holds sub))
IsRead-plain file holds sub = record {
  content = entry_of file holds sub;
  file = file;
  holds = some holds;
  is_entry = refl;
  is_file = refl;
  is_verdict = refl;
}

abbrev twice_read : AllRead plain_files twice
twice_read =
    cons (IsRead-plain (codes "u.prp") true none)
      (cons (IsRead-plain (codes "u.prp") false (some (codes "s"))) nil)

test_runs :
    (select_run plain_files (codes "u.prp") (some (codes "false(s)")) twice
      ≡ returned (
          some
            ((codes "u.prp", record { result = some false; subproperty = some (codes "s") }) ∷ [])))
    × (select_run plain_files (codes "u.prp") (some (codes "true")) twice ≡ returned none)
    × (select_run plain_files (codes "v.prp") none twice ≡ returned none)
    × (select_run plain_files (codes "v.prp") none (not_a_property ∷ [])
        ≡ raised missing_property_file)
    × (create_run_from_task_definition plain_files none none (record {
      format_version = codes "2.0";
      has_options = true;
      input_files = one_pattern (codes "a.c");
      required_files = pattern_list (codes "c.h" ∷ codes "b.h" ∷ []);
      properties = [];
    })
        ≡ returned (
            some (record {
              input_files = codes "a.c" ∷ [];
              required_files = codes "c.h" ∷ codes "b.h" ∷ [];
              expected_results = [];
            })))
    × (accepts_filter (codes "falsehood") ≡ true)
unfolding select_run create_run_from_task_definition accepts_filter
test_runs = (refl, refl, refl, refl, refl, refl)

select_run-read_example :
    select_run plain_files (codes "u.prp") none twice
    ≡ returned (selected (codes "u.prp") none (last_verdict (codes "u.prp") twice_read))
select_run-read_example = select_run-read plain_files (codes "u.prp") none twice twice_read

select_run-multiple_example :
    select_run plain_files (codes "u.prp") none twice ≢ raised specified_multiple_times
select_run-multiple_example = select_run-multiple plain_files (codes "u.prp") none twice

abbrev root_limits : LimitTexts
root_limits = record {
  timelimit = some (codes "90 s");
  hardtimelimit = some (codes "1 min");
  walltimelimit = none;
  memorylimit = some (codes "2 GB");
  corelimit = some (codes "4");
}

abbrev from_command_line : Option Text → Option Text → LimitTexts
from_command_line time mem = record {
  timelimit = time;
  hardtimelimit = none;
  walltimelimit = none;
  memorylimit = mem;
  corelimit = none;
}

abbrev read_result : Option ℕ → Option ℕ → ResourceLimits
read_result time mem = record {
  cputime = time;
  cputime_hard = time;
  walltime = none;
  memory = mem;
  cpu_cores = some 4;
}

test_limits :
    (read_limits root_limits (from_command_line none none)
      ≡ returned (read_result (some 90) (some 2000000000)))
    × (read_limits root_limits (from_command_line (some (codes "2 min")) (some (codes " -1 ")))
        ≡ returned (read_result (some 120) none))
    × (read_limits root_limits (from_command_line (some (codes "0 s")) none)
        ≡ raised exit_not_positive)
    × (read_limits root_limits (from_command_line none (some (codes "2000")))
        ≡ raised exit_invalid_value)
unfolding read_limits
test_limits = (refl, refl, refl, refl)

read_limits-AreSound_example : AreSound (read_result (some 90) (some 2000000000))
unfolding read_limits
read_limits-AreSound_example =
    read_limits-AreSound root_limits (from_command_line none none)
      (read_result (some 90) (some 2000000000)) refl

abbrev require_tags : List RequireTag
require_tags =
    record { cpu_model = some (codes "Xeon"); cpu_cores = none; memory = some (codes "500") }
    ∷ record { cpu_model = none; cpu_cores = some (codes "8"); memory = some [] }
    ∷ []

abbrev required : Requirements
required = record {
  cpu_model = some (codes "Xeon");
  cpu_cores = some (pos 8);
  memory = some (pos 500000000);
}

test_requirements :
    (make_requirements require_tags (read_result none none) none ≡ returned required)
    × (make_requirements [] (read_result none none) (some (codes "i7"))
        ≡ returned
            (record { cpu_model = some (codes "i7"); cpu_cores = some (pos 4); memory = none }))
    × (make_requirements (require_tags ++ require_tags) (read_result none none) none
        ≡ raised double_specification)
unfolding make_requirements
test_requirements = (refl, refl, refl)
