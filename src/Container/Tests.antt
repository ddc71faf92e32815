-- ===== src/Container/Tests.antt =====
-- The functions of benchexec/container.py on small inputs, and the theorems at such inputs.
use benchexec.Prelude.{
  if-holds, ◌≡◌, refl, true, false, some, none, List, [], ◌∷◌, ◌++◌, Text, codes, split,
  starts_with, if◌then◌else◌, Bool,
}
use benchexec.Prelude.Outcome.{returned, raised}
use benchexec.Container.Modes.{
  Mode, hidden, read_only, overlay, full_access, determine_directory_mode,
}
use benchexec.Container.Options.{
  ContainerOptions, multiple_modes, need_root_mode, handle_basic_container_args, executor_dir_modes,
}
use benchexec.Container.Accepted.{HasModes, handle_basic_container_args_accepted}
use benchexec.Container.MountTable.{parse_mount, wrong_number}
use benchexec.Container.Decoded.{mount_line, parse_mount-mount_line}

abbrev all_dirs : Text → Bool
all_dirs path = true

-- Paths that are relative stand below /d.
abbrev below_d : Text → Text
below_d path = if starts_with path (codes "/") then path else codes "/d/" ++ path

abbrev options : ContainerOptions
options = record {
  hidden_dir = codes "x" ∷ [];
  read_only_dir = codes "/home" ∷ [];
  overlay_dir = [];
  full_access_dir = codes "/d/x/y" ∷ [];
  keep_tmp = false;
  container_system_config = true;
}

abbrev handled : List (Text × Mode)
handled =
    (codes "/d/x", hidden)
    ∷ (codes "/home", read_only)
    ∷ (codes "/d/x/y", full_access)
    ∷ (codes "/tmp", hidden)
    ∷ (codes "/", overlay)
    ∷ (codes "/run", hidden)
    ∷ []

abbrev executor_modes : List (Text × Mode)
executor_modes =
    (codes "/", overlay)
    ∷ (codes "/d/x", hidden)
    ∷ (codes "/tmp", hidden)
    ∷ (codes "/run", hidden)
    ∷ (codes "/home", read_only)
    ∷ (codes "/d/x/y", full_access)
    ∷ (codes "/home/benchexec", hidden)
    ∷ []

options_handled : handle_basic_container_args below_d all_dirs options ≡ returned handled
unfolding handle_basic_container_args
options_handled = refl

test_modes :
    (handle_basic_container_args below_d all_dirs
        (record options { overlay_dir = codes "/d/x" ∷ [] })
      ≡ raised multiple_modes)
    × (executor_dir_modes false [] ≡ raised need_root_mode)
    × (determine_directory_mode all_dirs executor_modes (codes "/d/x/y/z") none
        ≡ returned (some full_access))
    × (determine_directory_mode all_dirs executor_modes (codes "/d/x/z") none ≡ returned none)
    × (determine_directory_mode all_dirs executor_modes (codes "/d/x") none
        ≡ returned (some hidden))
    × (determine_directory_mode all_dirs executor_modes (codes "/dev") none
        ≡ returned (some read_only))
unfolding handle_basic_container_args executor_dir_modes determine_directory_mode
test_modes = (refl, refl, refl, refl, refl, refl)

below_d_absolute : (path : Text) → starts_with (below_d path) (codes "/") ≡ true
below_d_absolute path =
    if-holds (λ t. starts_with t (codes "/") ≡ true) (starts_with path (codes "/")) (λ h. h)
      (λ h. refl)

handle_basic_container_args_accepted_example :
    HasModes below_d options handled
    × ((dir_modes : List (Text × Mode)) × (executor_dir_modes true handled ≡ returned dir_modes))
handle_basic_container_args_accepted_example =
    handle_basic_container_args_accepted below_d all_dirs options handled below_d_absolute
      options_handled

test_mounts : parse_mount (codes "a b c") ≡ raised wrong_number
unfolding parse_mount
test_mounts = refl

parse_mount-mount_line_example :
    parse_mount (
      mount_line
        (codes "a b")
        (92 ∷ codes "040")
        (codes "ext4")
        (codes "rw,ro")
        (codes "0")
        (codes "0"))
    ≡ returned (record {
      source = codes "a b";
      target = 92 ∷ codes "040";
      fstype = codes "ext4";
      options = split b',' (codes "rw,ro");
    })
parse_mount-mount_line_example =
    parse_mount-mount_line (codes "a b") (92 ∷ codes "040") (codes "ext4") (codes "rw,ro")
      (codes "0") (codes "0") (refl, (refl, (refl, (refl, tt))))
      (refl, (refl, (refl, (refl, (refl, tt))))) (refl, tt) (refl, tt)
