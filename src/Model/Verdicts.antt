-- ===== src/Model/Verdicts.antt =====
-- Which runs RunSet.create_run_from_task_definition of benchexec/model.py creates, by the expected
-- verdicts of the task definition.
use benchexec.Prelude.{
  ◌≡◌, refl, ap, ◌∙◌, Bool, true, false, Option, none, some, List, [], ◌∷◌, Text, text_eq_self,
  if◌then◌else◌,
}
use benchexec.Prelude.Outcome.{Outcome, returned, ◌>>=◌}
use benchexec.Prelude.Dict.{nat_eq, text_key, assign}
use benchexec.Result.{ExpectedResult}
use benchexec.Model.TaskDefinition.{
  TaskFailure, PropertyEntry, Entry, property_entry, FileSystem, expected_verdict_of, same_property,
  store_verdict, read_entry, read_entries, passes_filter, choose_run, select_run,
}

-- The expected results of a run of one property: none, or those of the property.
abbrev pub single : Text → Option ExpectedResult → List (Text × ExpectedResult)
single filename none = []
single filename (some e) = (filename, e) ∷ []

-- An entry that is read without an exception, as the file that it names and its verdict.
pub record IsRead (fs : FileSystem) (entry : Entry) : Type 0 where
  pub content : PropertyEntry
  pub file : Text
  pub holds : Option Bool
  pub is_entry : entry ≡ property_entry content
  pub is_file : fs.expand content.property_file ≡ file ∷ []
  pub is_verdict : expected_verdict_of content.expected_verdict ≡ returned holds

pub data AllRead (fs : FileSystem) : List Entry → Type 0 where
  nil : AllRead fs []
  cons :
      {entry : Entry} {entries : List Entry}
      → IsRead fs entry
      → AllRead fs entries
      → AllRead fs (entry ∷ entries)

-- What an entry says of the property in the file.
abbrev pub entry_verdict :
    {fs : FileSystem} {entry : Entry} → Text → IsRead fs entry → Option ExpectedResult
entry_verdict {fs} filename r =
    if same_property fs filename r.file
    then some (record { result = r.holds; subproperty = r.content.subproperty })
    else none

-- The verdict of the last entry for the property.
abbrev pub later : Option ExpectedResult → Option ExpectedResult → Option ExpectedResult
later earlier none = earlier
later earlier (some e) = some e

abbrev pub last_verdict :
    {fs : FileSystem} {entries : List Entry} → Text → AllRead fs entries → Option ExpectedResult
last_verdict filename nil = none
last_verdict filename (cons r rest) = later (entry_verdict filename r) (last_verdict filename rest)

abbrev pub selected :
    Text → Option Text → Option ExpectedResult → Option (List (Text × ExpectedResult))
selected filename filter none = none
selected filename filter (some e) =
    if passes_filter e filter then some ((filename, e) ∷ []) else none

pub assign-single :
    (filename : Text) (e : ExpectedResult) (known : Option ExpectedResult)
    → assign filename e (single filename known) ≡ (filename, e) ∷ []
unfolding assign
assign-single filename e none = refl
assign-single filename e (some d) = rw (text_eq_self filename) refl

store_single :
    (filename : Text) (known : Option ExpectedResult) (p : PropertyEntry) (holds : Option Bool)
    (same : Bool)
    → expected_verdict_of p.expected_verdict ≡ returned holds
    → store_verdict filename (single filename known) p same
      ≡ returned (
          single filename (
            later known (
              if same
              then some (record { result = holds; subproperty = p.subproperty })
              else none)))
store_single filename known p holds true e =
    rw e (ap (λ (d : List (Text × ExpectedResult)). returned d) (assign-single filename _ known))
store_single filename known p holds false e = refl

read_single :
    (fs : FileSystem) (filename : Text) (known : Option ExpectedResult) (entry : Entry)
    (r : IsRead fs entry)
    → read_entry fs filename (single filename known) entry
      ≡ returned (single filename (later known (entry_verdict filename r)))
read_single fs filename known entry r =
    rw (r.is_entry, r.is_file)
      (store_single filename known r.content r.holds (same_property fs filename r.file)
        r.is_verdict)

later_assoc : (a b c : Option ExpectedResult) → later (later a b) c ≡ later a (later b c)
later_assoc a b none = refl
later_assoc a b (some c) = refl

later-none : (a : Option ExpectedResult) → later none a ≡ a
later-none none = refl
later-none (some a) = refl

read_all :
    (fs : FileSystem) (filename : Text) (known : Option ExpectedResult) (entries : List Entry)
    (all : AllRead fs entries)
    → read_entries fs filename (single filename known) entries
      ≡ returned (single filename (later known (last_verdict filename all)))
read_all fs filename known [] nil = refl
read_all fs filename known (entry ∷ entries) (cons r rest) =
    ap
      (λ (m : Outcome TaskFailure (List (Text × ExpectedResult))).
        m >>= λ grown. read_entries fs filename grown entries)
      (read_single fs filename known entry r)
    ∙ read_all fs filename (later known (entry_verdict filename r)) entries rest
    ∙ ap (λ (e : Option ExpectedResult). returned (single filename e))
        (later_assoc known (entry_verdict filename r) (last_verdict filename rest))

choose_single :
    (filename : Text) (filter : Option Text) (e : Option ExpectedResult)
    → choose_run filter (single filename e) ≡ returned (selected filename filter e)
choose_single filename filter none = refl
choose_single filename filter (some e) = refl

-- Where every entry for a property is read without an exception, a run is created exactly if an entry
-- names the property file of the run and the verdict of the last such entry passes the filter; this
-- verdict is then the only expected result of the run.
pub select_run-read :
    (fs : FileSystem) (filename : Text) (filter : Option Text) (entries : List Entry)
    (all : AllRead fs entries)
    → select_run fs filename filter entries
      ≡ returned (selected filename filter (last_verdict filename all))
unfolding select_run
select_run-read fs filename filter entries all =
    ap (λ (m : Outcome TaskFailure (List (Text × ExpectedResult))). m >>= choose_run filter)
      (read_all fs filename none entries all)
    ∙ choose_single filename filter (later none (last_verdict filename all))
    ∙ ap (λ (e : Option ExpectedResult). returned (selected filename filter e))
        (later-none (last_verdict filename all))
