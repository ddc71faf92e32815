-- ===== src/Cgroups.antt =====
-- The state of Cgroup in benchexec/cgroups.py: __init__, require_subsystem and handle_errors, and
-- RunExecutor._init_cgroups of benchexec/runexecutor.py. A set is a list of which only membership is used.
mod Kept
mod Required
pub mod Children
mod Fresh
mod Shared
mod Tests
use benchexec.Prelude.{
  ℕ, Bool, true, false, ◌&&◌, ◌||◌, ◌==◌, Option, none, some, List, [], ◌∷◌, Text, codes,
  if◌then◌else◌,
}
use benchexec.Prelude.Dict.{text_key, get, assign, remove, member, keys, values}
use benchexec.Prelude.Outcome.{Outcome, returned, raised, require, ◌>>=◌, ◌>>◌}

pub record Cgroup : Type 0 where
  pub per_subsystem : List (Text × Text)
  pub paths : List Text
  pub unusable_subsystems : List Text
  pub denied_subsystems : List (Text × Text)

pub data Version : Type 0 where
  version1 version2 : Version

pub data CgroupFailure : Type 0 where
  assertion_error no_version key_error os_error : CgroupFailure
  -- the texts of sys.exit: the permissions of directories, the version, and other reasons
  exit_permissions : List Text → CgroupFailure
  exit_version exit_other : CgroupFailure

abbrev pub blkio : Text
blkio = codes "blkio"

abbrev pub cpuacct : Text
cpuacct = codes "cpuacct"

abbrev pub cpuset : Text
cpuset = codes "cpuset"

abbrev pub freezer : Text
freezer = codes "freezer"

abbrev pub memory : Text
memory = codes "memory"

abbrev pub all_known_subsystems : List Text
all_known_subsystems =
    blkio
    ∷ cpuacct
    ∷ cpuset
    ∷ freezer
    ∷ memory
    ∷ codes "cpu"
    ∷ codes "devices"
    ∷ codes "net_cls"
    ∷ codes "net_prio"
    ∷ codes "hugetlb"
    ∷ codes "perf_event"
    ∷ codes "pids"
    ∷ []

abbrev pub are_in : List Text → List Text → Bool
are_in [] ys = true
are_in (x ∷ xs) ys = member x ys && are_in xs ys

abbrev pub is_not_empty : Text → Bool
is_not_empty [] = false
is_not_empty (c ∷ s) = true

abbrev pub all_not_empty : List Text → Bool
all_not_empty [] = true
all_not_empty (s ∷ rest) = is_not_empty s && all_not_empty rest

-- Cgroup(...)
unfoldable pub make_cgroup : List (Text × Text) → Outcome CgroupFailure Cgroup
unfolding member
make_cgroup per_subsystem = do
  require (are_in (keys per_subsystem) all_known_subsystems) assertion_error
  require (all_not_empty (values per_subsystem)) assertion_error
  returned (record {
    per_subsystem = per_subsystem;
    paths = values per_subsystem;
    unusable_subsystems = [];
    denied_subsystems = [];
  })

abbrev pub is_there : Option Text → Bool
is_there none = false
is_there (some path) = true

-- key in cgroup
abbrev pub contains : Text → Cgroup → Bool
contains key c = is_there (get key c.per_subsystem)

abbrev pub eacces : ℕ
eacces = 13

abbrev pub with_denied : ℕ → Text → Text → List (Text × Text) → List (Text × Text)
with_denied errno subsystem path denied =
    if errno == eacces then assign subsystem path denied else denied

-- What follows from creating and removing a child: the number of an OSError, or none.
abbrev pub tried : Option ℕ → Text → Text → Cgroup → Bool × Cgroup
tried none subsystem path c = (true, c)
tried (some errno) subsystem path c = (
  false,
  record {
    per_subsystem = remove subsystem c.per_subsystem;
    paths = values (remove subsystem c.per_subsystem);
    unusable_subsystems = subsystem ∷ c.unusable_subsystems;
    denied_subsystems = with_denied errno subsystem path c.denied_subsystems;
  },
)

abbrev pub require_present : (Text → Text → Option ℕ) → Text → Cgroup → Option Text → Bool × Cgroup
require_present creating subsystem c none = (
  false,
  record {
    per_subsystem = c.per_subsystem;
    paths = c.paths;
    unusable_subsystems = subsystem ∷ c.unusable_subsystems;
    denied_subsystems = c.denied_subsystems;
  },
)
require_present creating subsystem c (some path) = tried (creating subsystem path) subsystem path c

-- The answer of require_subsystem, and what it leaves.
unfoldable pub require_subsystem : (Text → Text → Option ℕ) → Text → Cgroup → Bool × Cgroup
unfolding get assign remove
require_subsystem creating subsystem c =
    require_present creating subsystem c (get subsystem c.per_subsystem)

-- _get_cgroup_version, for the file-system types in /proc/mounts
abbrev pub version_of : Option Version → List Text → Option Version
version_of version [] = version
version_of version (fstype ∷ mounts) =
    if text_key.beq fstype (codes "cgroup")
    then version_of (some version1) mounts
    else version_of (if text_key.beq fstype (codes "cgroup2") then second version else version)
        mounts
  where
    second : Option Version → Option Version
    second (some version1) = some version1
    second v = some version2

abbrev pub exit_for : Option Version → CgroupFailure
exit_for none = no_version
exit_for (some version1) = exit_other
exit_for (some version2) = exit_version

unfoldable pub handle_errors : List Text → List Text → Cgroup → Outcome CgroupFailure (Unit {0})
unfolding member
handle_errors mounts [] c = returned tt
handle_errors mounts (s ∷ critical) c = do
  require (are_in (s ∷ critical) c.unusable_subsystems) assertion_error
  raised (
      if are_in (s ∷ critical) (keys c.denied_subsystems)
      then exit_permissions (values c.denied_subsystems)
      else exit_for (version_of none mounts))

abbrev pub after_require : (Text → Text → Option ℕ) → Text → Cgroup → Cgroup
after_require creating subsystem c = (require_subsystem creating subsystem c).1

-- critical_cgroups.add(subsystem), if it is missing
abbrev pub note_missing : Text → Bool → List Text → List Text
note_missing subsystem present critical = if present then critical else subsystem ∷ critical

-- The loop over self._cgroup_subsystems: the cgroups that it leaves, and the critical ones.
abbrev pub require_all :
    (Text → Text → Option ℕ) → List Text → Cgroup → List Text → Cgroup × List Text
require_all creating [] c critical = (c, critical)
require_all creating (s ∷ subsystems) c critical =
    let next = after_require creating s c in
    require_all creating subsystems next (note_missing s (contains s next) critical)

-- The rest of _init_cgroups, but for the values that it reads of the cpuset.
abbrev pub require_others :
    (Text → Text → Option ℕ) → List Text → Bool → Cgroup × List Text → Outcome CgroupFailure Cgroup
require_others creating mounts use_namespaces (c, critical) =
    let frozen =
      after_require creating freezer
        (after_require creating cpuacct (after_require creating blkio c)) in
    let all_critical = note_missing freezer (contains freezer frozen || use_namespaces) critical in
    let final = after_require creating cpuset (after_require creating memory frozen) in
    handle_errors mounts all_critical final >> returned final

unfoldable pub init_cgroups :
    (Text → Text → Option ℕ)
    → List Text
    → Bool
    → List Text
    → List (Text × Text)
    → Outcome CgroupFailure Cgroup
unfolding make_cgroup require_subsystem handle_errors get
init_cgroups creating mounts use_namespaces subsystems own_cgroups = do
  c ← make_cgroup own_cgroups
  require_others creating mounts use_namespaces (require_all creating subsystems c [])
