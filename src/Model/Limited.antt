-- ===== src/Model/Limited.antt =====
-- The limits that Benchmark.__init__ of benchexec/model.py accepts, and how the command line
-- overrides the benchmark definition.
use benchexec.Prelude.{
  ℕ, suc, zero, ◌≡◌, ◌≤◌, subst, inl, inr, Option, none, some, Text, ltb, Bool-cases, arith,
}
use benchexec.Prelude.Int.{ℤ, pos, negsuc}
use benchexec.Prelude.Outcome.{Outcome, returned, raised, >>=-eq-returned, returned-injective}
use benchexec.Util.{ValueError, parse_timespan_value}
use benchexec.Model.Limits.{
  positive_limit, parse_limit, handle_limit_value, limit_text, LimitTexts, ResourceLimits,
  adjust_times, limits_of, read_limits, parse_int, parse_memory_limit,
}

-- A limit that is given is positive.
abbrev pub IsPositive : Option ℕ → Type 0
IsPositive none = Unit {0}
IsPositive (some n) = 1 ≤ n

-- Both limits on the CPU time are given or none, and the hard one is not below the soft one.
abbrev pub AreOrdered : Option ℕ → Option ℕ → Type 0
AreOrdered none none = Unit {0}
AreOrdered (some soft) (some hard) = soft ≤ hard
AreOrdered none (some hard) = ⊥
AreOrdered (some soft) none = ⊥

pub record AreSound (l : ResourceLimits) : Type 0 where
  pub cputime : IsPositive l.cputime
  pub cputime_hard : IsPositive l.cputime_hard
  pub walltime : IsPositive l.walltime
  pub memory : IsPositive l.memory
  pub cpu_cores : IsPositive l.cpu_cores
  pub ordered : AreOrdered l.cputime l.cputime_hard

positive_limit-IsPositive :
    (m : Outcome ValueError ℤ) (limit : Option ℕ)
    → positive_limit m ≡ returned limit
    → IsPositive limit
positive_limit-IsPositive (raised e) limit h = cc
positive_limit-IsPositive (returned (pos (suc n))) limit h =
    subst IsPositive (returned-injective h) (omega arith)
positive_limit-IsPositive (returned (pos zero)) limit h = cc
positive_limit-IsPositive (returned (negsuc n)) limit h = cc

parse_limit-IsPositive :
    (parse_fn : Text → Outcome ValueError ℤ) (value : Option Text) (limit : Option ℕ)
    → parse_limit parse_fn value ≡ returned limit
    → IsPositive limit
parse_limit-IsPositive parse_fn none limit h = subst IsPositive (returned-injective h) tt
parse_limit-IsPositive parse_fn (some value) limit h =
    positive_limit-IsPositive (parse_fn value) limit h

handled-IsPositive :
    (value cmdline : Option Text) (parse_fn : Text → Outcome ValueError ℤ) (limit : Option ℕ)
    → handle_limit_value value cmdline parse_fn ≡ returned limit
    → IsPositive limit
unfolding handle_limit_value
handled-IsPositive value cmdline parse_fn limit h =
    parse_limit-IsPositive parse_fn (limit_text value cmdline) limit h

adjust_times_sound :
    (soft hard : Option ℕ)
    → IsPositive soft
    → IsPositive hard
    → IsPositive (adjust_times soft hard).0
      × IsPositive (adjust_times soft hard).1
      × AreOrdered (adjust_times soft hard).0 (adjust_times soft hard).1
unfolding adjust_times
adjust_times_sound none none p q = (tt, tt, tt)
adjust_times_sound none (some h) p q = (q, q, omega arith)
adjust_times_sound (some s) none p q = (p, p, omega arith)
adjust_times_sound (some s) (some h) p q = elim (Bool-cases (ltb h s)) [
  | inl smaller ↦ rw smaller (p, p, omega arith)
  | inr larger ↦ rw larger (p, q, ground arith)
]

limits_of-AreSound :
    (times : Option ℕ × Option ℕ) (walltime memory cpu_cores : Option ℕ)
    → IsPositive times.0 × IsPositive times.1 × AreOrdered times.0 times.1
    → IsPositive walltime
    → IsPositive memory
    → IsPositive cpu_cores
    → AreSound (limits_of times walltime memory cpu_cores)
limits_of-AreSound (soft, hard) walltime memory cpu_cores (p, q, ordered) w m c = record {
  cputime = p;
  cputime_hard = q;
  walltime = w;
  memory = m;
  cpu_cores = c;
  ordered = ordered;
}

-- What each of the five limits is read as, in the order in which they are read.
record AreRead (root config : LimitTexts) (l : ResourceLimits) : Type 0 where
  soft : Option ℕ
  hard : Option ℕ
  wall : Option ℕ
  mem : Option ℕ
  cores : Option ℕ
  soft_read :
      handle_limit_value root.timelimit config.timelimit parse_timespan_value ≡ returned soft
  hard_read :
      handle_limit_value root.hardtimelimit config.timelimit parse_timespan_value ≡ returned hard
  wall_read :
      handle_limit_value root.walltimelimit config.walltimelimit parse_timespan_value
      ≡ returned wall
  mem_read :
      handle_limit_value root.memorylimit config.memorylimit parse_memory_limit ≡ returned mem
  cores_read : handle_limit_value root.corelimit config.corelimit parse_int ≡ returned cores
  limits : limits_of (adjust_times soft hard) wall mem cores ≡ l

read_limits-AreRead :
    (root config : LimitTexts) (l : ResourceLimits)
    → read_limits root config ≡ returned l
    → AreRead root config l
unfolding read_limits
read_limits-AreRead root config l h =
    let (soft, a, h1) =
      >>=-eq-returned (handle_limit_value root.timelimit config.timelimit parse_timespan_value) _
        h in
    let (hard, b, h2) =
      >>=-eq-returned (handle_limit_value root.hardtimelimit config.timelimit parse_timespan_value)
        _ h1 in
    let (wall, c, h3) =
      >>=-eq-returned
        (handle_limit_value root.walltimelimit config.walltimelimit parse_timespan_value) _ h2 in
    let (mem, d, h4) =
      >>=-eq-returned (handle_limit_value root.memorylimit config.memorylimit parse_memory_limit) _
        h3 in
    let (cores, e, h5) =
      >>=-eq-returned (handle_limit_value root.corelimit config.corelimit parse_int) _ h4 in
    record {
      soft = soft;
      hard = hard;
      wall = wall;
      mem = mem;
      cores = cores;
      soft_read = a;
      hard_read = b;
      wall_read = c;
      mem_read = d;
      cores_read = e;
      limits = returned-injective h5;
    }

-- Every limit of a benchmark that is loaded is positive; the soft and the hard limit on the CPU time
-- are both given or none is, and the hard limit is not below the soft one.
pub read_limits-AreSound :
    (root config : LimitTexts) (l : ResourceLimits)
    → read_limits root config ≡ returned l
    → AreSound l
read_limits-AreSound root config l h =
    let r : AreRead root config l = read_limits-AreRead root config l h in
    subst AreSound r.limits (
      limits_of-AreSound (adjust_times r.soft r.hard) r.wall r.mem r.cores
        (adjust_times_sound r.soft r.hard (handled-IsPositive _ _ _ r.soft r.soft_read)
          (handled-IsPositive _ _ _ r.hard r.hard_read))
        (handled-IsPositive _ _ _ r.wall r.wall_read) (handled-IsPositive _ _ _ r.mem r.mem_read)
        (handled-IsPositive _ _ _ r.cores r.cores_read))
