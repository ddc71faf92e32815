-- ===== src/Util/ExitCode.antt =====
-- ProcessExitCode of benchexec/util.py: the exit status of a process, as os.wait() gives it.
use benchexec.Prelude.{
  leb→le, subst, lt→ltb, ℕ, ◌+◌, ◌*◌, ◌/◌, ◌%◌, ◌≡◌, refl, Bool, true, false, ◌&&◌, Option, none,
  some, ltb, leb, ◌==◌, if◌then◌else◌, ◌≤◌, arith,
}
use benchexec.Prelude.Outcome.{returned-injective, Outcome, returned, raised}

pub record ProcessExitCode : Type 0 where
  pub raw : ℕ
  pub value : Option ℕ
  pub signal : Option ℕ

-- A ValueError, and the assert of from_raw.
pub data InvalidCode : Type 0 where
  invalid_code value_and_signal : InvalidCode

-- exitcode & 0x7F is the remainder modulo 2 ^ 7, and exitcode >> 8 the quotient by 2 ^ 8.
abbrev pub split_raw : ℕ → ℕ → ℕ → Outcome InvalidCode ProcessExitCode
split_raw exitcode exitsignal returnvalue =
    if exitsignal == 0
    then returned (record { raw = exitcode; value = some returnvalue; signal = none })
    else if returnvalue == 0
    then returned (record { raw = exitcode; value = none; signal = some exitsignal })
    else raised value_and_signal

unfoldable pub from_raw : ℕ → Outcome InvalidCode ProcessExitCode
from_raw exitcode =
    if ltb exitcode 65536
    then split_raw exitcode (exitcode % 128) (exitcode / 256)
    else raised invalid_code

unfoldable pub create : Option ℕ → Option ℕ → Outcome InvalidCode ProcessExitCode
create none none = raised invalid_code
create (some value) (some signal) = raised invalid_code
create (some value) none =
    if leb value 255
    then returned (record { raw = value * 256 + 0; value = some value; signal = none })
    else raised invalid_code
create none (some signal) =
    if leb 1 signal && leb signal 127
    then returned (record { raw = 0 * 256 + signal; value = none; signal = some signal })
    else raised invalid_code

-- The truth of an optional number: None and 0 are false.
abbrev pub nonzero : Option ℕ → Bool
nonzero none = false
nonzero (some n) = ltb 0 n

-- __bool__
abbrev pub failed : ProcessExitCode → Bool
failed e = if nonzero e.signal then true else nonzero e.value

value_raw :
    (v : ℕ)
    → v ≤ 255
    → from_raw (v * 256 + 0)
      ≡ returned (record { raw = v * 256 + 0; value = some v; signal = none })
unfolding from_raw
value_raw v small =
    let small_raw : ltb (v * 256 + 0) 65536 ≡ true = lt→ltb (v * 256 + 0) 65536 (omega arith) in
    let no_signal : (v * 256 + 0) % 128 ≡ 0 = omega arith in
    let back : (v * 256 + 0) / 256 ≡ v = omega arith in rw (small_raw, no_signal, back) refl

signal_raw :
    (s : ℕ)
    → 1 ≤ s
    → s ≤ 127
    → from_raw (0 * 256 + s)
      ≡ returned (record { raw = 0 * 256 + s; value = none; signal = some s })
unfolding from_raw
signal_raw s positive small =
    let small_raw : ltb (0 * 256 + s) 65536 ≡ true = lt→ltb (0 * 256 + s) 65536 (omega arith) in
    let the_signal : (0 * 256 + s) % 128 ≡ s = omega arith in
    let no_value : (0 * 256 + s) / 256 ≡ 0 = omega arith in ground arith

read_back :
    (made e : ProcessExitCode)
    → from_raw made.raw ≡ returned made
    → ◌≡◌ {A = Outcome InvalidCode ProcessExitCode} (returned made) (returned e)
    → from_raw e.raw ≡ returned e
read_back made e read h =
    subst (λ (z : ProcessExitCode). from_raw z.raw ≡ returned z) (returned-injective h) read

create_value :
    (v : ℕ) (e : ProcessExitCode) (small : Bool)
    → leb v 255 ≡ small
    → (if small
        then returned (record { raw = v * 256 + 0; value = some v; signal = none })
        else raised invalid_code)
      ≡ returned e
    → from_raw e.raw ≡ returned e
create_value v e true small h =
    read_back (record { raw = v * 256 + 0; value = some v; signal = none }) e
      (value_raw v (leb→le v 255 small)) h
create_value v e false big h = cc

create_signal :
    (s : ℕ) (e : ProcessExitCode) (valid : Bool)
    → (leb 1 s && leb s 127) ≡ valid
    → (if valid
        then returned (record { raw = 0 * 256 + s; value = none; signal = some s })
        else raised invalid_code)
      ≡ returned e
    → from_raw e.raw ≡ returned e
create_signal s e true valid h =
    read_back (record { raw = 0 * 256 + s; value = none; signal = some s }) e
      (signal_raw s (ground (arith, valid)) (ground (arith, valid))) h
create_signal s e false invalid h = cc

-- Every exit code that create builds, from a return value or from a signal, is the one that from_raw
-- reads from its raw status.
from_raw-create :
    (value signal : Option ℕ) (e : ProcessExitCode)
    → create value signal ≡ returned e
    → from_raw e.raw ≡ returned e
unfolding create
from_raw-create none none e h = cc
from_raw-create (some value) (some signal) e h = cc
from_raw-create (some value) none e h = create_value value e (leb value 255) refl h
from_raw-create none (some signal) e h =
    create_signal signal e (leb 1 signal && leb signal 127) refl h
