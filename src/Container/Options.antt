-- ===== src/Container/Options.antt =====
-- The directory modes of a container: handle_basic_container_args of benchexec/containerexecutor.py,
-- and the checks and the order of ContainerExecutor.__init__. os.path.abspath and os.path.isdir are
-- arguments.
use benchexec.Prelude.{
  Bool, true, false, not, Option, none, some, List, [], ◌∷◌, Text, codes, text_eq, starts_with,
  if◌then◌else◌, leb, length,
}
use benchexec.Prelude.Dict.{text_key, get, assign, member, keys}
use benchexec.Prelude.Outcome.{Outcome, returned, ◌>>=◌, ◌>>◌, require}
use benchexec.Container.Modes.{Mode, hidden, read_only, overlay, full_access}

pub record ContainerOptions : Type 0 where
  pub hidden_dir : List Text
  pub read_only_dir : List Text
  pub overlay_dir : List Text
  pub full_access_dir : List Text
  pub keep_tmp : Bool
  pub container_system_config : Bool

-- The calls of error_fn.
pub data OptionFailure : Type 0 where
  no_directory multiple_modes mode_for_proc tmp_kept_and_hidden : OptionFailure

module _ (abspath : Text → Text) (isdir : Text → Bool) where
  abbrev pub handle_dir_mode :
      Mode → Text → List (Text × Mode) → Outcome OptionFailure (List (Text × Mode))
  handle_dir_mode mode given dir_modes = do
    let path = abspath given
    require (isdir path) no_directory
    require (not (member path (keys dir_modes))) multiple_modes
    require (not (text_eq path (codes "/proc"))) mode_for_proc
    returned (assign path mode dir_modes)

  abbrev pub handle_dirs :
      Mode → List Text → List (Text × Mode) → Outcome OptionFailure (List (Text × Mode))
  handle_dirs mode [] dir_modes = returned dir_modes
  handle_dirs mode (path ∷ paths) dir_modes = do
    next ← handle_dir_mode mode path dir_modes
    handle_dirs mode paths next

-- if path not in dir_modes: dir_modes[path] = mode
abbrev pub set_default : Text → Mode → List (Text × Mode) → List (Text × Mode)
set_default path mode dir_modes =
    if member path (keys dir_modes) then dir_modes else assign path mode dir_modes

abbrev pub is_other_mode : Option Mode → Bool
is_other_mode none = false
is_other_mode (some full_access) = false
is_other_mode (some mode) = true

abbrev pub handle_tmp : Bool → List (Text × Mode) → Outcome OptionFailure (List (Text × Mode))
handle_tmp false dir_modes = returned (set_default (codes "/tmp") hidden dir_modes)
handle_tmp true dir_modes = do
  require (not (is_other_mode (get (codes "/tmp") dir_modes))) tmp_kept_and_hidden
  returned (assign (codes "/tmp") full_access dir_modes)

-- /run/resolvconf and /run/systemd/resolve stay readable without the special configuration.
abbrev pub keep_readable : (Text → Bool) → Text → List (Text × Mode) → List (Text × Mode)
keep_readable isdir path dir_modes =
    if isdir path then set_default path read_only dir_modes else dir_modes

abbrev pub add_defaults : (Text → Bool) → Bool → List (Text × Mode) → List (Text × Mode)
add_defaults isdir system_config dir_modes =
    let modes = set_default (codes "/run") hidden (set_default (codes "/") overlay dir_modes) in
    if system_config
    then modes
    else keep_readable isdir (codes "/run/systemd/resolve")
        (keep_readable isdir (codes "/run/resolvconf") modes)

-- The dir_modes of the result.
unfoldable pub handle_basic_container_args :
    (Text → Text) → (Text → Bool) → ContainerOptions → Outcome OptionFailure (List (Text × Mode))
unfolding assign get member
handle_basic_container_args abspath isdir options = do
  m1 ← handle_dirs abspath isdir hidden options.hidden_dir []
  m2 ← handle_dirs abspath isdir read_only options.read_only_dir m1
  m3 ← handle_dirs abspath isdir overlay options.overlay_dir m2
  m4 ← handle_dirs abspath isdir full_access options.full_access_dir m3
  m5 ← handle_tmp options.keep_tmp m4
  returned (add_defaults isdir options.container_system_config m5)

-- The ValueErrors of ContainerExecutor.__init__; that a mode is one of DIR_MODES is its type.
pub data ModesError : Type 0 where
  need_root_mode not_absolute proc_mode : ModesError

abbrev pub container_home : Text
container_home = codes "/home/benchexec"

abbrev pub check_paths : List Text → Outcome ModesError (Unit {0})
check_paths [] = returned tt
check_paths (path ∷ paths) = do
  require (starts_with path (codes "/")) not_absolute
  require (not (text_eq path (codes "/proc"))) proc_mode
  check_paths paths

-- sorted(..., key=len of the directory), which keeps the order of directories of one length
abbrev pub insert_by_length : Text × Mode → List (Text × Mode) → List (Text × Mode)
insert_by_length entry [] = entry ∷ []
insert_by_length entry (x ∷ dir_modes) =
    let rest = insert_by_length entry dir_modes in
    if leb (length entry.0) (length x.0) then entry ∷ x ∷ dir_modes else x ∷ rest

unfoldable pub sorted_by_length : List (Text × Mode) → List (Text × Mode)
sorted_by_length [] = []
sorted_by_length (entry ∷ dir_modes) = insert_by_length entry (sorted_by_length dir_modes)

-- self._dir_modes
unfoldable pub executor_dir_modes :
    Bool → List (Text × Mode) → Outcome ModesError (List (Text × Mode))
unfolding sorted_by_length assign member
executor_dir_modes system_config given = do
  let dir_modes = if system_config then set_default container_home hidden given else given
  require (member (codes "/") (keys dir_modes)) need_root_mode
  check_paths (keys dir_modes)
  returned (sorted_by_length dir_modes)
