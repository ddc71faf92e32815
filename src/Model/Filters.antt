-- ===== src/Model/Filters.antt =====
-- The exception for a property that is specified multiple times, in RunSet.create_run_from_task_definition of benchexec/model.py.
use benchexec.Prelude.{
  ◌≡◌, ◌≢◌, refl, ap, sym, ◌∙◌, Bool, true, false, Option, none, some, List, [], ◌∷◌, Text,
}
use benchexec.Prelude.Outcome.{raised-injective, Outcome, returned, raised, ◌>>=◌}
use benchexec.Prelude.Dict.{nat_eq, text_key, assign}
use benchexec.Result.{ExpectedResult}
use benchexec.Model.TaskDefinition.{
  TaskFailure, specified_multiple_times, PropertyEntry, Entry, not_a_property, property_entry,
  FileSystem, YamlVerdict, no_verdict, other_verdict, verdict, the_file, expected_verdict_of,
  same_property, store_verdict, read_entry, read_entries, choose_run, select_run,
}
use benchexec.Model.Verdicts.{single, assign-single}

-- What the loop over the entries returns for a run of one property, and what it does not raise.
abbrev IsSingle : Text → Outcome TaskFailure (List (Text × ExpectedResult)) → Type 0
IsSingle filename (returned results) = (e : Option ExpectedResult) × (results ≡ single filename e)
IsSingle filename (raised failure) = failure ≢ specified_multiple_times

verdict_single :
    (filename : Text) (known : Option ExpectedResult) (sub : Option Text) (v : YamlVerdict)
    → IsSingle filename (
        expected_verdict_of v >>= λ holds.
        returned
          (assign filename (record { result = holds; subproperty = sub }) (single filename known)))
verdict_single filename known sub no_verdict =
    (some (record { result = none; subproperty = sub }), assign-single filename _ known)
verdict_single filename known sub other_verdict = λ h. cc
verdict_single filename known sub (verdict b) =
    (some (record { result = some b; subproperty = sub }), assign-single filename _ known)

entry_single :
    (filename : Text) (known : Option ExpectedResult) (p : PropertyEntry) (same : Bool)
    → IsSingle filename (store_verdict filename (single filename known) p same)
entry_single filename known p true = verdict_single filename known p.subproperty p.expected_verdict
entry_single filename known p false = (known, refl)

file_single :
    (fs : FileSystem) (filename : Text) (known : Option ExpectedResult) (p : PropertyEntry)
    (files : List Text)
    → IsSingle filename (
        the_file files >>= λ found.
        store_verdict filename (single filename known) p (same_property fs filename found))
file_single fs filename known p [] = λ h. cc
file_single fs filename known p (f ∷ []) =
    entry_single filename known p (same_property fs filename f)
file_single fs filename known p (f ∷ g ∷ files) = λ h. cc

read_entry-IsSingle :
    (fs : FileSystem) (filename : Text) (known : Option ExpectedResult) (entry : Entry)
    → IsSingle filename (read_entry fs filename (single filename known) entry)
read_entry-IsSingle fs filename known not_a_property = λ h. cc
read_entry-IsSingle fs filename known (property_entry p) =
    file_single fs filename known p (fs.expand p.property_file)

continue_single :
    (fs : FileSystem) (filename : Text) (entries : List Entry)
    (m : Outcome TaskFailure (List (Text × ExpectedResult)))
    → ((e : Option ExpectedResult)
        → IsSingle filename (read_entries fs filename (single filename e) entries))
    → IsSingle filename m
    → IsSingle filename (m >>= λ grown. read_entries fs filename grown entries)
continue_single fs filename entries (returned results) rest (e, same) = rw same (rest e)
continue_single fs filename entries (raised failure) rest other = other

read_entries-IsSingle :
    (fs : FileSystem) (filename : Text) (known : Option ExpectedResult) (entries : List Entry)
    → IsSingle filename (read_entries fs filename (single filename known) entries)
read_entries-IsSingle fs filename known [] = (known, refl)
read_entries-IsSingle fs filename known (entry ∷ entries) =
    continue_single fs filename entries (read_entry fs filename (single filename known) entry)
      (λ e. read_entries-IsSingle fs filename e entries)
      (read_entry-IsSingle fs filename known entry)

chosen :
    (filename : Text) (filter : Option Text) (e : Option ExpectedResult)
    → choose_run filter (single filename e) ≢ raised specified_multiple_times
chosen filename filter none h = cc
chosen filename filter (some e) h = cc

choose_single :
    (filename : Text) (filter : Option Text)
    (m : Outcome TaskFailure (List (Text × ExpectedResult)))
    → IsSingle filename m
    → (m >>= choose_run filter) ≢ raised specified_multiple_times
choose_single filename filter (returned results) (e, same) h =
    chosen filename filter e (ap (choose_run filter) (sym same) ∙ h)
choose_single filename filter (raised failure) other h = other (raised-injective h)

-- However often an entry names the property of the run, the exception for a property that is
-- specified multiple times is never raised.
pub select_run-multiple :
    (fs : FileSystem) (filename : Text) (filter : Option Text) (entries : List Entry)
    → select_run fs filename filter entries ≢ raised specified_multiple_times
unfolding select_run
select_run-multiple fs filename filter entries =
    choose_single filename filter (read_entries fs filename [] entries)
      (read_entries-IsSingle fs filename none entries)
