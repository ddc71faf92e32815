-- ===== src/Container/MountTable.antt =====
-- get_mount_points of benchexec/container.py, for the lines of /proc/self/mounts.
use benchexec.Prelude.{List, [], ◌∷◌, Text, codes, split}
use benchexec.Prelude.Replace.{replace, replace_from}
use benchexec.Prelude.Outcome.{Outcome, returned, raised}

-- decode_path; 92 is the backslash.
unfoldable pub decode_path : Text → Text
unfolding replace_from
decode_path path = replace (92 ∷ codes "134") (92 ∷ []) (
    replace (92 ∷ codes "012") (0x0a ∷ [])
      (replace (92 ∷ codes "040") (0x20 ∷ []) (replace (92 ∷ codes "011") (0x09 ∷ []) path)))

pub record MountPoint : Type 0 where
  pub source : Text
  pub target : Text
  pub fstype : Text
  pub options : List Text

-- The ValueError of the assignment to six names.
pub data MountFailure : Type 0 where
  wrong_number : MountFailure

abbrev pub mount_of : List Text → Outcome MountFailure MountPoint
mount_of (source ∷ target ∷ fstype ∷ options ∷ unused1 ∷ unused2 ∷ []) = returned (record {
  source = decode_path source;
  target = decode_path target;
  fstype = fstype;
  options = split b',' options;
})
mount_of _ = raised wrong_number

-- One line of the file.
unfoldable pub parse_mount : Text → Outcome MountFailure MountPoint
unfolding decode_path split
parse_mount line = mount_of (split b' ' line)
