-- ===== src/Container/Modes.antt =====
-- path_is_below of benchexec/util.py and determine_directory_mode of benchexec/container.py. The modes
-- are a dict from directories, in the order of its entries; os.path.isdir is an argument.
use benchexec.Prelude.{
  Bool, true, false, not, ◌||◌, Option, none, some, List, [], ◌∷◌, ◌++◌, Text, codes, text_eq,
  starts_with, ends_with, if◌then◌else◌,
}
use benchexec.Prelude.Outcome.{Outcome, returned, raised}

-- DIR_MODES
pub data Mode : Type 0 where
  hidden read_only overlay full_access : Mode

-- os.path.join(path, ""): a slash at the end, except for the empty path
abbrev pub with_slash : Text → Text
with_slash [] = []
with_slash (c ∷ s) = if ends_with (c ∷ s) (codes "/") then c ∷ s else (c ∷ s) ++ codes "/"

unfoldable pub path_is_below : Text → Text → Bool
path_is_below path target_path = starts_with (with_slash path) (with_slash target_path)

-- What the loop over the directories finds.
pub record FoundModes : Type 0 where
  pub parent_mode : Option Mode
  pub result_mode : Option Mode

abbrev pub note_mode : Text → Text → Mode → FoundModes → FoundModes
note_mode path special_dir mode found = record {
  parent_mode = if text_eq path special_dir then found.parent_mode else some mode;
  result_mode = some mode;
}

unfoldable pub find_modes : Text → List (Text × Mode) → FoundModes → FoundModes
unfolding path_is_below
find_modes path [] found = found
find_modes path ((special_dir, mode) ∷ dir_modes) found =
    find_modes path dir_modes
      (if path_is_below path special_dir then note_mode path special_dir mode found else found)

abbrev pub is_fstype : Option Text → Text → Bool
is_fstype none name = false
is_fstype (some fstype) name = text_eq fstype name

abbrev pub fstype_starts_with : Option Text → Text → Bool
fstype_starts_with none prefix = false
fstype_starts_with (some fstype) prefix = starts_with fstype prefix

-- Directories for which an overlay makes no sense, and file systems that overlayfs does not support.
unfoldable pub no_overlay : (Text → Bool) → Text → Option Text → Bool
unfolding path_is_below
no_overlay isdir path fstype =
    path_is_below path (codes "/dev")
    || path_is_below path (codes "/sys")
    || is_fstype fstype (codes "fuse.lxcfs")
    || is_fstype fstype (codes "cgroup")
    || fstype_starts_with fstype (codes "fuse.")
    || is_fstype fstype (codes "autofs")
    || is_fstype fstype (codes "vfat")
    || is_fstype fstype (codes "ntfs")
    || not (isdir path)

-- assert result_mode is not None
pub data ModeFailure : Type 0 where
  no_mode : ModeFailure

abbrev pub is_hidden : Option Mode → Bool
is_hidden (some hidden) = true
is_hidden _ = false

abbrev pub adjust_mode : Bool → FoundModes → Outcome ModeFailure (Option Mode)
adjust_mode unsupported found = elim found.result_mode [
  | none ↦ raised no_mode
  | some hidden ↦ returned (if is_hidden found.parent_mode then none else some hidden)
  | some read_only ↦ returned (some read_only)
  | some overlay ↦ returned (some (if unsupported then read_only else overlay))
  | some full_access ↦ returned (some full_access)
]

-- None where nothing is to be mounted.
unfoldable pub determine_directory_mode :
    (Text → Bool) → List (Text × Mode) → Text → Option Text → Outcome ModeFailure (Option Mode)
unfolding find_modes no_overlay
determine_directory_mode isdir dir_modes path fstype =
    if is_fstype fstype (codes "proc")
    then returned (some read_only)
    else if path_is_below path (codes "/proc")
    then returned none
    else adjust_mode (no_overlay isdir path fstype)
        (find_modes path dir_modes (record { parent_mode = none; result_mode = none }))
