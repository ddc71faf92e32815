-- ===== src/Model/Requirements.antt =====
-- Requirements.__init__ of benchexec/model.py: the requirements of a benchmark on the machine, from
-- the tags, the limits and the CPU model that the user gives.
use benchexec.Prelude.{
  ℕ, suc, zero, ◌+◌, ◌≡◌, ◌≤◌, refl, sym, subst, Option, none, some, List, [], ◌∷◌, Text, arith,
}
use benchexec.Prelude.Int.{ℤ, pos, negsuc, ◌*ℤ◌}
use benchexec.Prelude.Numerals.{int}
use benchexec.Prelude.Outcome.{
  Outcome, returned, raised, ◌>>=◌, ◌>>◌, >>=-eq-returned, returned-injective,
}
use benchexec.Util.{ValueError, byte_factor, parse_memory_value}
use benchexec.Model.Limits.{
  LimitFailure, bad_number, double_specification, invalid_requirement, ResourceLimits, parse_int,
}

-- The attributes of a tag.
pub record RequireTag : Type 0 where
  pub cpu_model : Option Text
  pub cpu_cores : Option Text
  pub memory : Option Text

pub record Requirements : Type 0 where
  pub cpu_model : Option Text
  pub cpu_cores : Option ℤ
  pub memory : Option ℤ

abbrev pub number_or_error : Outcome ValueError ℤ → Outcome LimitFailure ℤ
number_or_error (raised e) = raised bad_number
number_or_error (returned n) = returned n

-- A number without a unit is in MB.
abbrev pub memory_in_mb : Text → Option ℤ → Outcome LimitFailure ℤ
memory_in_mb memory none = number_or_error (parse_memory_value memory)
memory_in_mb memory (some n) = returned (n *ℤ pos byte_factor *ℤ pos byte_factor)

abbrev pub parse_cores : Text → Outcome LimitFailure ℤ
parse_cores cpu_cores = number_or_error (parse_int cpu_cores)

abbrev pub parse_memory : Text → Outcome LimitFailure ℤ
parse_memory memory = memory_in_mb memory (int memory)

-- One attribute of one tag: it is read if it is not empty, and then it must be the first.
abbrev pub specify :
    {A : Type 0}
    → (Text → Outcome LimitFailure A)
    → Option A
    → Option Text
    → Outcome LimitFailure (Option A)
specify parse_fn current none = returned current
specify parse_fn current (some []) = returned current
specify parse_fn none (some (c ∷ s)) = do a ← parse_fn (c ∷ s); returned (some a)
specify parse_fn (some a) (some (c ∷ s)) = raised double_specification

-- The loop over the tags.
unfoldable pub read_tags : Requirements → List RequireTag → Outcome LimitFailure Requirements
unfolding int parse_memory_value ◌*ℤ◌
read_tags r [] = returned r
read_tags r (tag ∷ tags) = do
  cpu_model ← specify (λ model. returned model) r.cpu_model tag.cpu_model
  cpu_cores ← specify parse_cores r.cpu_cores tag.cpu_cores
  memory ← specify parse_memory r.memory tag.memory
  read_tags (record { cpu_model = cpu_model; cpu_cores = cpu_cores; memory = memory }) tags

abbrev pub or_limit : Option ℤ → Option ℕ → Option ℤ
or_limit (some n) limit = some n
or_limit none none = none
or_limit none (some n) = some (pos n)

abbrev pub or_else : Option Text → Option Text → Option Text
or_else (some given) model = some given
or_else none model = model

abbrev pub check_positive : Option ℤ → Outcome LimitFailure (Unit {0})
check_positive none = returned tt
check_positive (some (pos (suc n))) = returned tt
check_positive (some (pos zero)) = raised invalid_requirement
check_positive (some (negsuc n)) = raised invalid_requirement

abbrev pub complete : Option Text → ResourceLimits → Requirements → Requirements
complete config_model rlimits r = record {
  cpu_model = or_else config_model r.cpu_model;
  cpu_cores = or_limit r.cpu_cores rlimits.cpu_cores;
  memory = or_limit r.memory rlimits.memory;
}

-- Requirements.__init__, for the CPU model of the configuration
unfoldable pub make_requirements :
    List RequireTag → ResourceLimits → Option Text → Outcome LimitFailure Requirements
unfolding read_tags
make_requirements tags rlimits config_model = do
  r ← read_tags (record { cpu_model = none; cpu_cores = none; memory = none }) tags
  check_positive (complete config_model rlimits r).cpu_cores
  check_positive (complete config_model rlimits r).memory
  returned (complete config_model rlimits r)

-- The number of non-empty values among those of an attribute.
abbrev pub given_text : Option Text → ℕ
given_text none = 0
given_text (some []) = 0
given_text (some (c ∷ s)) = 1

abbrev pub specified : (RequireTag → Option Text) → List RequireTag → ℕ
specified attribute [] = 0
specified attribute (tag ∷ tags) = given_text (attribute tag) + specified attribute tags

abbrev count {ℓ} : {A : Type ℓ} → Option A → ℕ
count none = 0
count (some a) = 1

count_le {ℓ} : {A : Type ℓ} (a : Option A) → count a ≤ 1
count_le none = omega arith
count_le (some a) = omega arith

count-specify :
    {A : Type 0} (parse_fn : Text → Outcome LimitFailure A) (current : Option A)
    (attribute : Option Text) (next : Option A)
    → specify parse_fn current attribute ≡ returned next
    → count next ≡ count current + given_text attribute
count-specify parse_fn current none next h = rw (sym (returned-injective h)) (omega arith)
count-specify parse_fn current (some []) next h = rw (sym (returned-injective h)) (omega arith)
count-specify parse_fn none (some (c ∷ s)) next h =
    let (a, read, e) = >>=-eq-returned (parse_fn (c ∷ s)) _ h in
    rw (sym (returned-injective e)) refl
count-specify parse_fn (some a) (some (c ∷ s)) next h = cc

abbrev Counts : Requirements → List RequireTag → Requirements → Type 0
Counts r tags q =
    (count q.cpu_model ≡ count r.cpu_model + specified (λ t. t.cpu_model) tags)
    × (count q.cpu_cores ≡ count r.cpu_cores + specified (λ t. t.cpu_cores) tags)
    × (count q.memory ≡ count r.memory + specified (λ t. t.memory) tags)

count-read_tags :
    (r : Requirements) (tags : List RequireTag) (q : Requirements)
    → read_tags r tags ≡ returned q
    → Counts r tags q
unfolding read_tags
count-read_tags r [] q h = rw (sym (returned-injective h)) (omega arith, omega arith, omega arith)
count-read_tags r (tag ∷ tags) q h =
    let (model, a, h1) =
      >>=-eq-returned (specify (λ m. returned m) r.cpu_model tag.cpu_model) _ h in
    let (cores, b, h2) = >>=-eq-returned (specify parse_cores r.cpu_cores tag.cpu_cores) _ h1 in
    let (memory, c, h3) = >>=-eq-returned (specify parse_memory r.memory tag.memory) _ h2 in
    let (x, y, z) =
      count-read_tags (record { cpu_model = model; cpu_cores = cores; memory = memory }) tags q
        h3 in
    let p = count-specify (λ m. returned m) r.cpu_model tag.cpu_model model a in
    let u = count-specify parse_cores r.cpu_cores tag.cpu_cores cores b in
    let w = count-specify parse_memory r.memory tag.memory memory c in
    (omega arith, omega arith, omega arith)

-- A number that is given is positive.
abbrev pub IsRequired : Option ℤ → Type 0
IsRequired none = Unit {0}
IsRequired (some (pos n)) = 1 ≤ n
IsRequired (some (negsuc n)) = ⊥

check_positive-IsRequired : (n : Option ℤ) → check_positive n ≡ returned tt → IsRequired n
check_positive-IsRequired none h = tt
check_positive-IsRequired (some (pos (suc n))) h = omega arith
check_positive-IsRequired (some (pos zero)) h = cc
check_positive-IsRequired (some (negsuc n)) h = cc

at_most_one : {A : Type 0} (known : Option A) (n : ℕ) → count known ≡ 0 + n → n ≤ 1
at_most_one known n h = let small = count_le known in omega arith

-- Where the requirements are accepted, the numbers of cores and of bytes are positive if they are
-- given, and at most one tag specifies the CPU model, at most one the cores, and at most one the
-- memory.
make_requirements_sound :
    (tags : List RequireTag) (rlimits : ResourceLimits) (config_model : Option Text)
    (q : Requirements)
    → make_requirements tags rlimits config_model ≡ returned q
    → IsRequired q.cpu_cores
      × IsRequired q.memory
      × (specified (λ t. t.cpu_model) tags ≤ 1)
      × (specified (λ t. t.cpu_cores) tags ≤ 1)
      × (specified (λ t. t.memory) tags ≤ 1)
unfolding make_requirements
make_requirements_sound tags rlimits config_model q h =
    let (r, read, h1) =
      >>=-eq-returned
        (read_tags (record { cpu_model = none; cpu_cores = none; memory = none }) tags) _ h in
    let (_, cores, h2) =
      >>=-eq-returned (check_positive (complete config_model rlimits r).cpu_cores) _ h1 in
    let (_, memory, h3) =
      >>=-eq-returned (check_positive (complete config_model rlimits r).memory) _ h2 in
    let (x, y, z) = count-read_tags _ tags r read in
    let same : complete config_model rlimits r ≡ q = returned-injective h3 in
    (
      subst (λ (p : Requirements). IsRequired p.cpu_cores) same (check_positive-IsRequired _ cores),
      subst (λ (p : Requirements). IsRequired p.memory) same (check_positive-IsRequired _ memory),
      at_most_one r.cpu_model _ x,
      at_most_one r.cpu_cores _ y,
      at_most_one r.memory _ z,
    )
