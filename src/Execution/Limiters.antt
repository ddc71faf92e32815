-- ===== src/Execution/Limiters.antt =====
-- The threads that enforce the other limits: FileHierarchyLimitThread of
-- benchexec/filehierarchylimit.py and KillProcessOnOomThread of benchexec/oomhandler.py.
use benchexec.Prelude.{
  ℕ, ◌+◌, ◌*◌, Bool, false, not, ◌&&◌, Option, none, some, List, [], ◌∷◌, ◌++◌, map, Text, codes,
  if◌then◌else◌, ltb,
}
use benchexec.Util.{byte_factor}
use benchexec.Util.ExitCode.{nonzero}
use benchexec.Model.Violations.{Reason, memory, files_count, files_size}
use benchexec.Execution.Timer.{Effect, set_reason, send_kill, kill_task, set_limit}

-- A file that os.walk gives: whether container.is_container_system_config_file holds of its path,
-- what os.path says, and its size, if it can be read.
pub record WalkedFile : Type 0 where
  pub is_system_config : Bool
  pub is_file : Bool
  pub is_link : Bool
  pub size : Option ℕ

pub record FileLimits : Type 0 where
  pub files_count_limit : Option ℕ
  pub files_size_limit : Option ℕ

abbrev pub counts : WalkedFile → Bool
counts f = not f.is_system_config && f.is_file && not f.is_link

-- os.path.getsize, where an OSError adds nothing
abbrev pub read_size : WalkedFile → ℕ
read_size f = elim f.size [ none ↦ 0 | some n ↦ n ]

-- files_count and files_size
pub record Totals : Type 0 where
  pub files_count : ℕ
  pub files_size : ℕ

abbrev pub add_file : FileLimits → Totals → WalkedFile → Totals
add_file limits t f =
    if counts f
    then record {
      files_count = t.files_count + 1;
      files_size =
          if nonzero limits.files_size_limit then t.files_size + read_size f else t.files_size;
    }
    else t

-- The loops over the files.
unfoldable pub scan : FileLimits → Totals → List WalkedFile → Totals
scan limits t [] = t
scan limits t (f ∷ files) = scan limits (add_file limits t f) files

-- limit and total > limit
abbrev pub is_over : Option ℕ → ℕ → Bool
is_over none total = false
is_over (some limit) total = nonzero (some limit) && ltb limit total

-- _check_limit
unfoldable pub check_limit : FileLimits → Totals → Option Reason
check_limit limits t =
    if is_over limits.files_count_limit t.files_count
    then some files_count
    else if is_over limits.files_size_limit t.files_size
    then some files_size
    else none

abbrev pub limit_effects : Option Reason → List Effect
limit_effects none = []
limit_effects (some reason) = set_reason reason ∷ send_kill ∷ []

-- One pass of run over the files: the reason for which the thread ends, if it does.
unfoldable pub file_pass : FileLimits → List WalkedFile → Option Reason
unfolding scan check_limit
file_pass limits files =
    check_limit limits (scan limits (record { files_count = 0; files_size = 0 }) files)

-- 1 PB
abbrev pub petabyte : ℕ
petabyte = byte_factor * byte_factor * byte_factor * byte_factor * byte_factor

-- _reset_memory_limit
abbrev pub reset_memory_limit : (Text → Bool) → Text → List Effect
reset_memory_limit has_value limit_file =
    if has_value limit_file then set_limit limit_file petabyte ∷ [] else []

-- run of KillProcessOnOomThread, when the event was read, for the tasks of the cgroup
unfoldable pub handle_oom : Bool → (Text → Bool) → List ℕ → List Effect
handle_oom finished has_value tasks =
    if finished
    then []
    else (set_reason memory ∷ send_kill ∷ map kill_task tasks)
      ++ reset_memory_limit has_value (codes "memory.memsw.limit_in_bytes")
      ++ reset_memory_limit has_value (codes "memory.limit_in_bytes")
