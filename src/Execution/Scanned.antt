-- ===== src/Execution/Scanned.antt =====
-- When FileHierarchyLimitThread of benchexec/filehierarchylimit.py reports a limit.
use benchexec.Prelude.{
  ℕ, ◌+◌, ◌≡◌, ◌<◌, ◌↔◌, refl, ◌∙◌, Bool, true, false, Option, none, some, List, [], ◌∷◌,
  if◌then◌else◌, arith,
}
use benchexec.Util.ExitCode.{nonzero}
use benchexec.Model.Violations.{files_count, files_size}
use benchexec.Execution.Limiters.{
  WalkedFile, FileLimits, Totals, counts, read_size, add_file, scan, is_over, check_limit,
  file_pass,
}

-- The number of the files that count, and the sum of their sizes.
abbrev pub number_of : List WalkedFile → ℕ
number_of [] = 0
number_of (f ∷ files) = (if counts f then 1 else 0) + number_of files

abbrev pub size_of : List WalkedFile → ℕ
size_of [] = 0
size_of (f ∷ files) = (if counts f then read_size f else 0) + size_of files

scan_totals :
    (limits : FileLimits) (t : Totals) (files : List WalkedFile)
    → ((scan limits t files).files_count ≡ t.files_count + number_of files)
      × ((scan limits t files).files_size
          ≡ t.files_size + (if nonzero limits.files_size_limit then size_of files else 0))
unfolding scan
scan_totals limits t [] = (omega arith, ground arith)
scan_totals limits t (f ∷ files) =
    let (count, size) = scan_totals limits (add_file limits t f) files in
    (count ∙ ground arith, size ∙ ground arith)

-- A limit of zero is none.
abbrev pub Exceeds : ℕ → Option ℕ → Type 0
Exceeds total none = ⊥
Exceeds total (some limit) = (0 < limit) × (limit < total)

is_over_iff : (limit : Option ℕ) (total : ℕ) → (is_over limit total ≡ true) ↔ Exceeds total limit
is_over_iff none total = ground arith
is_over_iff (some limit) total = ground arith

is_over_size :
    (limit : Option ℕ) (total : ℕ)
    → is_over limit (0 + (if nonzero limit then total else 0)) ≡ is_over limit total
is_over_size none total = refl
is_over_size (some limit) total = ground arith

-- The limit that is reported for two tests.
decided :
    (count size : Bool)
    → (((if count then some files_count else if size then some files_size else none)
          ≡ some files_count)
        ↔ (count ≡ true))
      × (((if count then some files_count else if size then some files_size else none) ≡ none)
          ↔ ((count ≡ false) × (size ≡ false)))
decided count size = ground arith

not_over :
    (limit : Option ℕ) (total : ℕ) → (is_over limit total ≡ false) ↔ (¬ (Exceeds total limit))
not_over none total = ground arith
not_over (some limit) total = ground arith

passed :
    (limits : FileLimits) (files : List WalkedFile)
    → file_pass limits files ≡ (
        if is_over limits.files_count_limit (number_of files)
        then some files_count
        else if is_over limits.files_size_limit (size_of files)
        then some files_size
        else none)
unfolding file_pass check_limit
passed limits files =
    let (count, size) = scan_totals limits (record { files_count = 0; files_size = 0 }) files in
    let count' : (scan limits (record { files_count = 0; files_size = 0 }) files).files_count
        ≡ number_of files =
      omega arith in
    rw (count', size, is_over_size limits.files_size_limit (size_of files)) refl

-- A pass over the files reports the limit on their number exactly if there is such a limit, not zero,
-- and more files count than it allows; it reports nothing exactly if neither their number nor the sum
-- of their sizes exceeds a limit that is not zero.
pub file_pass_iff :
    (limits : FileLimits) (files : List WalkedFile)
    → ((file_pass limits files ≡ some files_count)
        ↔ Exceeds (number_of files) limits.files_count_limit)
      × ((file_pass limits files ≡ none) ↔ (
          (¬ (Exceeds (number_of files) limits.files_count_limit))
          × (¬ (Exceeds (size_of files) limits.files_size_limit))))
file_pass_iff limits files =
    let count = is_over_iff limits.files_count_limit (number_of files) in
    let (yes_count, nothing) =
      decided (is_over limits.files_count_limit (number_of files))
        (is_over limits.files_size_limit (size_of files)) in
    let few = not_over limits.files_count_limit (number_of files) in
    let small = not_over limits.files_size_limit (size_of files) in
    rw (passed limits files) (
      (λ h. count.0 (yes_count.0 h), λ h. yes_count.1 (count.1 h)),
      (
        λ h. (few.0 (nothing.0 h).0, small.0 (nothing.0 h).1),
        λ (a, b). nothing.1 (few.1 a, small.1 b),
      ),
    )
