-- ===== src/Execution/Measurements.antt =====
-- RunExecutor._get_cgroup_measurements of benchexec/runexecutor.py. What the cgroups give is an
-- argument. Times are numbers of nanoseconds.
use benchexec.Prelude.{
  ℕ, zero, suc, ◌*◌, Bool, ◌&&◌, Option, none, some, List, [], ◌∷◌, Text, codes, text_eq, split,
  if◌then◌else◌, ltb, ◌==◌,
}
use benchexec.Prelude.Int.{ℤ, pos, negsuc, ◌+ℤ◌}
use benchexec.Prelude.Numerals.{int}
use benchexec.Execution.Timer.{second}

-- while tmp != tmp2, from the reading number i, with what it gave; the fuel bounds the readings.
unfoldable pub read_until_stable : ℕ → (ℕ → ℕ) → ℕ → ℕ → Option ℕ
read_until_stable zero readings i tmp = none
read_until_stable (suc fuel) readings i tmp =
    let rest = read_until_stable fuel readings (suc i) (readings (suc i)) in
    if readings (suc i) == tmp then some tmp else rest

-- cputime_wait > 0.5 and (cputime_wait * 0.95) > cputime_cgroups
unfoldable pub choose_cputime : ℕ → ℕ → ℕ
choose_cputime wait cgroups =
    if ltb second (wait * 2) && ltb (cgroups * 100) (wait * 95) then wait else cgroups

-- The CPU time of a core, if it is a number and not zero.
abbrev pub core_time : ℕ → Option ℤ → List (ℕ × ℤ) → List (ℕ × ℤ)
core_time core none rest = rest
core_time core (some (pos zero)) rest = rest
core_time core (some (pos (suc n))) rest = (core, pos (suc n)) ∷ rest
core_time core (some (negsuc n)) rest = (core, negsuc n) ∷ rest

-- enumerate(...)
abbrev pub core_times : ℕ → List Text → List (ℕ × ℤ)
core_times core [] = []
core_times core (t ∷ texts) = core_time core (int t) (core_times (suc core) texts)

unfoldable pub read_core_times : Text → List (ℕ × ℤ)
unfolding int split
read_core_times usage_percpu = core_times 0 (split b' ' usage_percpu)

-- What the cgroup says of the memory: which files it has, and the value.
pub record MemoryFiles : Type 0 where
  pub has_memsw : Bool
  pub has_max_usage : Bool
  pub memsw : Text
  pub max_usage : Text

-- The text that is read, and the number in it.
abbrev pub memory_text : MemoryFiles → Option Text
memory_text m =
    if m.has_memsw then some m.memsw else if m.has_max_usage then some m.max_usage else none

-- bytes_read and bytes_written
pub record Transferred : Type 0 where
  pub bytes_read : ℤ
  pub bytes_written : ℤ

abbrev pub add_read : Transferred → Option ℤ → Transferred
add_read t none = t
add_read t (some n) = record t { bytes_read = t.bytes_read +ℤ n }

abbrev pub add_written : Transferred → Option ℤ → Transferred
add_written t none = t
add_written t (some n) = record t { bytes_written = t.bytes_written +ℤ n }

abbrev pub add_amount : Transferred → Text → Text → Transferred
add_amount t io_type amount =
    if text_eq io_type (codes "Read")
    then add_read t (int amount)
    else if text_eq io_type (codes "Write")
    then add_written t (int amount)
    else t

-- Lines with another number of parts are skipped.
abbrev pub add_parts : Transferred → List Text → Transferred
add_parts t (dev ∷ io_type ∷ amount ∷ []) = add_amount t io_type amount
add_parts t _ = t

unfoldable pub add_blkio_lines : Transferred → List Text → Transferred
unfolding int split ◌+ℤ◌
add_blkio_lines t [] = t
add_blkio_lines t (line ∷ lines) = add_blkio_lines (add_parts t (split b' ' line)) lines
