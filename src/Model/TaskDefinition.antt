-- ===== src/Model/TaskDefinition.antt =====
-- Task definitions in benchexec/model.py: load_task_definition_file after parsing,
-- handle_files_from_task_definition, and how RunSet.create_run_from_task_definition chooses the
-- expected verdict and filters by it. The YAML document is a TaskDefinition; what the file system
-- says is an argument.
use benchexec.Prelude.{
  Bool, true, false, not, ◌&&◌, ◌||◌, Option, none, some, List, [], ◌∷◌, ◌++◌, Text, codes, text_eq,
  starts_with, if◌then◌else◌, ltb, ◌==◌,
}
use benchexec.Prelude.Outcome.{Outcome, returned, raised, ◌>>=◌, ◌>>◌, require}
use benchexec.Prelude.Dict.{member, nat_eq, text_key, assign}
use benchexec.Result.{ExpectedResult}

-- The BenchExecExceptions, by their messages.
pub data TaskFailure : Type 0 where
  invalid_version options_not_allowed no_match no_input_files missing_property_file : TaskFailure
  not_one_file invalid_expected_result specified_multiple_times : TaskFailure

-- The value of a key like input_files.
pub data Patterns : Type 0 where
  no_patterns : Patterns
  one_pattern : Text → Patterns
  pattern_list : List Text → Patterns

-- The value of expected_verdict: missing or null, a truth value, or something else.
pub data YamlVerdict : Type 0 where
  no_verdict other_verdict : YamlVerdict
  verdict : Bool → YamlVerdict

pub record PropertyEntry : Type 0 where
  pub property_file : Text
  pub expected_verdict : YamlVerdict
  pub subproperty : Option Text

-- An entry of properties; the first is no dictionary, or has no property_file.
pub data Entry : Type 0 where
  not_a_property : Entry
  property_entry : PropertyEntry → Entry

pub record TaskDefinition : Type 0 where
  pub format_version : Text
  pub has_options : Bool
  pub input_files : Patterns
  pub required_files : Patterns
  pub properties : List Entry

-- util.expand_filename_pattern at the directory of the task-definition file, and os.path.samefile.
pub record FileSystem : Type 0 where
  pub expand : Text → List Text
  pub samefile : Text → Text → Bool

-- _TASK_DEF_VERSIONS
abbrev pub task_def_versions : List Text
task_def_versions = codes "0.1" ∷ codes "1.0" ∷ codes "2.0" ∷ []

-- load_task_definition_file, after the parsing
unfoldable pub check_task_definition : TaskDefinition → Outcome TaskFailure TaskDefinition
unfolding member
check_task_definition task_def = do
  require (member task_def.format_version task_def_versions) invalid_version
  require (text_eq task_def.format_version (codes "2.0") || not task_def.has_options)
      options_not_allowed
  returned task_def

-- expanded.sort()
abbrev pub text_le : Text → Text → Bool
text_le [] t = true
text_le (c ∷ s) [] = false
text_le (c ∷ s) (d ∷ t) = ltb c d || (c == d && text_le s t)

abbrev pub insert_text : Text → List Text → List Text
insert_text s [] = s ∷ []
insert_text s (t ∷ texts) =
    let rest = insert_text s texts in if text_le s t then s ∷ t ∷ texts else t ∷ rest

abbrev pub sort_texts : List Text → List Text
sort_texts [] = []
sort_texts (t ∷ texts) = insert_text t (sort_texts texts)

abbrev pub found_files : List Text → Outcome TaskFailure (List Text)
found_files [] = raised no_match
found_files (f ∷ files) = returned (sort_texts (f ∷ files))

-- The loop over the patterns, with `result`.
abbrev pub expand_all : FileSystem → List Text → List Text → Outcome TaskFailure (List Text)
expand_all fs result [] = returned result
expand_all fs result (pattern ∷ patterns) = do
  expanded ← found_files (fs.expand pattern)
  expand_all fs (result ++ expanded) patterns

unfoldable pub handle_files_from_task_definition :
    FileSystem → Patterns → Outcome TaskFailure (List Text)
handle_files_from_task_definition fs no_patterns = returned []
handle_files_from_task_definition fs (one_pattern pattern) = expand_all fs [] (pattern ∷ [])
handle_files_from_task_definition fs (pattern_list patterns) = expand_all fs [] patterns

abbrev pub the_file : List Text → Outcome TaskFailure Text
the_file [] = raised not_one_file
the_file (f ∷ []) = returned f
the_file (f ∷ g ∷ files) = raised not_one_file

abbrev pub expected_verdict_of : YamlVerdict → Outcome TaskFailure (Option Bool)
expected_verdict_of no_verdict = returned none
expected_verdict_of (verdict b) = returned (some b)
expected_verdict_of other_verdict = raised invalid_expected_result

abbrev pub same_property : FileSystem → Text → Text → Bool
same_property fs filename found = text_eq filename found || fs.samefile filename found

-- run.expected_results[prop.filename] = ExpectedResult(...), for an entry of the property of the run
abbrev pub store_verdict :
    Text
    → List (Text × ExpectedResult)
    → PropertyEntry
    → Bool
    → Outcome TaskFailure (List (Text × ExpectedResult))
store_verdict filename results p false = returned results
store_verdict filename results p true = do
  v ← expected_verdict_of p.expected_verdict
  returned (assign filename (record { result = v; subproperty = p.subproperty }) results)

abbrev pub read_entry :
    FileSystem
    → Text
    → List (Text × ExpectedResult)
    → Entry
    → Outcome TaskFailure (List (Text × ExpectedResult))
read_entry fs filename results not_a_property = raised missing_property_file
read_entry fs filename results (property_entry p) = do
  found ← the_file (fs.expand p.property_file)
  store_verdict filename results p (same_property fs filename found)

-- for prop_dict in task_def.get("properties", [])
abbrev pub read_entries :
    FileSystem
    → Text
    → List (Text × ExpectedResult)
    → List Entry
    → Outcome TaskFailure (List (Text × ExpectedResult))
read_entries fs filename results [] = returned results
read_entries fs filename results (entry ∷ entries) = do
  grown ← read_entry fs filename results entry
  read_entries fs filename grown entries

-- _EXPECTED_RESULT_FILTER_VALUES
abbrev pub filter_value : Option Bool → Text
filter_value (some true) = codes "true"
filter_value (some false) = codes "false"
filter_value none = codes "unknown"

-- f"({expected_result.subproperty})", where it is added
abbrev pub filter_suffix : Option Bool → Option Text → Text → Text
filter_suffix (some false) (some (c ∷ s)) filter =
    if member b'(' filter then b'(' ∷ ((c ∷ s) ++ b')' ∷ []) else []
filter_suffix _ _ filter = []

unfoldable pub passes_filter : ExpectedResult → Option Text → Bool
unfolding member
passes_filter e none = true
passes_filter e (some filter) =
    text_eq (filter_value e.result ++ filter_suffix e.result e.subproperty filter) filter

-- From `if not run.expected_results` on: the run is ignored, or it has these expected results.
abbrev pub choose_run :
    Option Text
    → List (Text × ExpectedResult)
    → Outcome TaskFailure (Option (List (Text × ExpectedResult)))
choose_run filter [] = returned none
choose_run filter ((filename, e) ∷ []) =
    returned (if passes_filter e filter then some ((filename, e) ∷ []) else none)
choose_run filter (a ∷ b ∷ results) = raised specified_multiple_times

unfoldable pub select_run :
    FileSystem
    → Text
    → Option Text
    → List Entry
    → Outcome TaskFailure (Option (List (Text × ExpectedResult)))
unfolding assign passes_filter
select_run fs filename filter entries = do
  results ← read_entries fs filename [] entries
  choose_run filter results

-- What create_run_from_task_definition sets of a run.
pub record TaskRun : Type 0 where
  pub input_files : List Text
  pub required_files : List Text
  pub expected_results : List (Text × ExpectedResult)

abbrev pub with_results :
    List Text → List Text → Option (List (Text × ExpectedResult)) → Option TaskRun
with_results inputs required none = none
with_results inputs required (some results) =
    some (record { input_files = inputs; required_files = required; expected_results = results })

abbrev pub some_file : List Text → Bool
some_file [] = false
some_file (f ∷ files) = true

-- `if not run.propertyfile: return run`
abbrev pub results_for :
    FileSystem
    → Option Text
    → Option Text
    → List Entry
    → Outcome TaskFailure (Option (List (Text × ExpectedResult)))
results_for fs none filter entries = returned (some [])
results_for fs (some []) filter entries = returned (some [])
results_for fs (some (c ∷ propertyfile)) filter entries =
    select_run fs (c ∷ propertyfile) filter entries

-- create_run_from_task_definition, for the property file of the run and the filter of its property tag
unfoldable pub create_run_from_task_definition :
    FileSystem → Option Text → Option Text → TaskDefinition → Outcome TaskFailure (Option TaskRun)
unfolding check_task_definition handle_files_from_task_definition select_run
create_run_from_task_definition fs propertyfile filter document = do
  task_def ← check_task_definition document
  inputs ← handle_files_from_task_definition fs task_def.input_files
  require (some_file inputs) no_input_files
  required ← handle_files_from_task_definition fs task_def.required_files
  results ← results_for fs propertyfile filter task_def.properties
  returned (with_results inputs required results)

-- get_propertytag: the values of expectedverdict that it accepts; the parentheses of its regular
-- expression "false(.*)" are a group.
unfoldable pub accepts_filter : Text → Bool
accepts_filter expected_verdict =
    text_eq expected_verdict (codes "true")
    || text_eq expected_verdict (codes "false")
    || text_eq expected_verdict (codes "unknown")
    || starts_with expected_verdict (codes "false")
