-- ===== src/Cgroups/Required.antt =====
-- RunExecutor._init_cgroups of benchexec/runexecutor.py, with handle_errors of benchexec/cgroups.py.
use benchexec.Prelude.{
  ℕ, Bool, true, false, ◌&&◌, ◌||◌, Option, none, some, List, [], ◌∷◌, Text, if-holds, ◌≡◌, ◌≢◌,
  refl, ap, ◌∙◌, sym, subst, inl, inr, arith, Bool-cases, All,
}
use benchexec.Prelude.Dict.{text_key, get, member, keys, values, Distinct}
use benchexec.Prelude.Outcome.{Outcome, returned, raised, ◌>>◌, >>-eq-returned, returned-injective}
use benchexec.Cgroups.{
  Cgroup, CgroupFailure, assertion_error, exit_for, version_of, Version, version1, version2,
  exit_permissions, contains, are_in, after_require, note_missing, require_all, require_others,
  handle_errors, init_cgroups, make_cgroup, blkio, cpuacct, cpuset, freezer, memory,
  all_known_subsystems, all_not_empty,
}
use benchexec.Cgroups.Kept.{
  is_usable, IsFiltered, after_require-IsFiltered, contains-after_require, after_require-grows,
  after_require-noted,
}

abbrev pub is_empty : List Text → Bool
is_empty [] = true
is_empty (s ∷ critical) = false

abbrev pub all_usable : (Text → Text → Option ℕ) → List (Text × Text) → List Text → Bool
all_usable creating own [] = true
all_usable creating own (s ∷ subsystems) =
    is_usable creating own s && all_usable creating own subsystems

module _ (creating : Text → Text → Option ℕ) (own : List (Text × Text)) where
  -- The state in the middle of _init_cgroups; ok says that no critical subsystem is missing.
  record Progress (c : Cgroup) (critical : List Text) (ok : Bool) : Type 0 where
    filtered : IsFiltered creating own c
    noted : All (λ t. member t c.unusable_subsystems ≡ true) critical
    empty : is_empty critical ≡ ok

  All-grows :
      (s : Text) (c : Cgroup) (critical : List Text)
      → All (λ t. member t c.unusable_subsystems ≡ true) critical
      → All (λ t. member t (after_require creating s c).unusable_subsystems ≡ true) critical
  All-grows s c [] h = tt
  All-grows s c (t ∷ critical) h =
      (after_require-grows creating t s c h.0, All-grows s c critical h.1)

  after_require-Progress :
      (s : Text) (c : Cgroup) (critical : List Text) (ok : Bool)
      → Progress c critical ok
      → Progress (after_require creating s c) critical ok
  after_require-Progress s c critical ok p = record {
    filtered = after_require-IsFiltered creating own s c p.filtered;
    noted = All-grows s c critical p.noted;
    empty = p.empty;
  }

  note_missing-Progress :
      (s : Text) (c : Cgroup) (critical : List Text) (ok present other : Bool)
      → present ≡ (contains s (after_require creating s c) || other)
      → Progress c critical ok
      → Progress
          (after_require creating s c)
          (note_missing s present critical)
          (ok && (is_usable creating own s || other))
  note_missing-Progress s c critical ok present other same p =
      let next = after_require-Progress s c critical ok p in
      let left = contains-after_require creating own s c p.filtered in
      elim (Bool-cases present) [
        | inl fine ↦ rw fine (record {
          filtered = next.filtered;
          noted = next.noted;
          empty = (let e = next.empty in ground arith);
        })
        | inr lost ↦ rw lost (record {
          filtered = next.filtered;
          noted = (after_require-noted creating s c (ground arith), next.noted);
          empty = ground arith;
        })
      ]

  require_all-Progress :
      (subsystems : List Text) (c : Cgroup) (critical : List Text) (ok : Bool)
      → Progress c critical ok
      → Progress
          ((require_all creating subsystems c critical).0)
          ((require_all creating subsystems c critical).1)
          (ok && all_usable creating own subsystems)
  require_all-Progress [] c critical ok p = subst (Progress c critical) (ground arith) p
  require_all-Progress (s ∷ subsystems) c critical ok p =
      let present = contains s (after_require creating s c) in
      let next = note_missing-Progress s c critical ok present false (ground arith) p in
      subst
        (Progress ((require_all creating (s ∷ subsystems) c critical).0)
          ((require_all creating (s ∷ subsystems) c critical).1))
        (ground arith)
        (require_all-Progress subsystems (after_require creating s c)
          (note_missing s present critical) (ok && (is_usable creating own s || false)) next)

  start-Progress : (c : Cgroup) → Distinct (keys own) → c.per_subsystem ≡ own → Progress c [] true
  start-Progress c d e = record {
    filtered = record {
      distinct = subst (λ l. Distinct (keys l)) (sym e) d;
      each = λ t. inl (ap (get t) e);
    };
    noted = tt;
    empty = refl;
  }

exit_for-fair : (v : Option Version) → exit_for v ≢ assertion_error
exit_for-fair none h = cc
exit_for-fair (some version1) h = cc
exit_for-fair (some version2) h = cc

exit_permissions-fair : (paths : List Text) → exit_permissions paths ≢ assertion_error
exit_permissions-fair paths h = cc

All-are_in : (xs ys : List Text) → All (λ t. member t ys ≡ true) xs → are_in xs ys ≡ true
All-are_in [] ys h = refl
All-are_in (x ∷ xs) ys h = rw (h.0, All-are_in xs ys h.1) refl

-- An exit of handle_errors, which is not its assertion.
unfoldable IsExit : Outcome CgroupFailure Cgroup → Type 0
IsExit o = (e : CgroupFailure) × (o ≡ raised e) × (e ≢ assertion_error)

handled :
    (mounts critical : List Text) (c : Cgroup)
    → All (λ t. member t c.unusable_subsystems ≡ true) critical
    → (is_empty critical ≡ true → (handle_errors mounts critical c >> returned c) ≡ returned c)
      × (is_empty critical ≡ false → IsExit (handle_errors mounts critical c >> returned c))
unfolding handle_errors IsExit
handled mounts [] c h = (λ e. refl, λ e. absurd (ground arith))
handled mounts (s ∷ critical) c h = (
  λ e. absurd (ground arith),
  λ e. (
    _,
    rw (All-are_in (s ∷ critical) c.unusable_subsystems h) refl,
    if-holds (λ f. f ≢ assertion_error) (are_in (s ∷ critical) (keys c.denied_subsystems))
        (λ denied. exit_permissions-fair (values c.denied_subsystems))
        (λ other. exit_for-fair (version_of none mounts)),
  ),
)

pub make_cgroup_per_subsystem :
    (own : List (Text × Text)) (c : Cgroup) → make_cgroup own ≡ returned c → c.per_subsystem ≡ own
unfolding make_cgroup
make_cgroup_per_subsystem own c h =
    let known = >>-eq-returned (are_in (keys own) all_known_subsystems) assertion_error _ h in
    let named = >>-eq-returned (all_not_empty (values own)) assertion_error _ known.1 in
    sym (ap (λ (x : Cgroup). x.per_subsystem) (returned-injective named.1))

others_lem :
    (creating : Text → Text → Option ℕ) (own : List (Text × Text)) (mounts : List Text)
    (use_namespaces ok : Bool) (c : Cgroup) (critical : List Text)
    → Progress creating own c critical ok
    → ((ok && (is_usable creating own freezer || use_namespaces)) ≡ true
        → (final : Cgroup) × (require_others creating mounts use_namespaces (c, critical)
            ≡ returned final)
          × IsFiltered creating own final)
      × ((ok && (is_usable creating own freezer || use_namespaces)) ≡ false
          → IsExit (require_others creating mounts use_namespaces (c, critical)))
others_lem creating own mounts use_namespaces ok c critical p =
    let counted = after_require creating cpuacct (after_require creating blkio c) in
    let frozen = after_require creating freezer counted in
    let present = contains freezer frozen || use_namespaces in
    let all_critical = note_missing freezer present critical in
    let needed = ok && (is_usable creating own freezer || use_namespaces) in
    let a = after_require-Progress creating own blkio c critical ok p in
    let b =
      after_require-Progress creating own cpuacct (after_require creating blkio c) critical ok a in
    let d =
      note_missing-Progress creating own freezer counted critical ok present use_namespaces refl
        b in
    let e = after_require-Progress creating own memory frozen all_critical needed d in
    let f =
      after_require-Progress creating own cpuset (after_require creating memory frozen) all_critical
        needed e in
    let final = after_require creating cpuset (after_require creating memory frozen) in
    let result = handled mounts all_critical final f.noted in
    (λ fine. (final, result.0 (f.empty ∙ fine), f.filtered), λ lost. result.1 (f.empty ∙ lost))

-- Where the cgroups of the process are known and their paths are not empty: _init_cgroups returns
-- exactly if each subsystem that is asked for is usable, and the freezer is or namespaces are used;
-- what it returns are the cgroups without some that are not usable, and otherwise it exits with an
-- error, which is not the failed assertion that the critical subsystems are known to be unusable.
pub init_cgroups_lem :
    (creating : Text → Text → Option ℕ) (mounts : List Text) (use_namespaces : Bool)
    (subsystems : List Text) (own : List (Text × Text)) (c : Cgroup)
    → Distinct (keys own)
    → make_cgroup own ≡ returned c
    → ((all_usable creating own subsystems && (is_usable creating own freezer || use_namespaces))
          ≡ true
        → (final : Cgroup) × (init_cgroups creating mounts use_namespaces subsystems own
            ≡ returned final)
          × IsFiltered creating own final)
      × ((all_usable creating own subsystems && (is_usable creating own freezer || use_namespaces))
            ≡ false
          → (e : CgroupFailure) × (init_cgroups creating mounts use_namespaces subsystems own
              ≡ raised e)
            × (e ≢ assertion_error))
unfolding init_cgroups IsExit
init_cgroups_lem creating mounts use_namespaces subsystems own c d made =
    let start = start-Progress creating own c d (make_cgroup_per_subsystem own c made) in
    let middle = require_all-Progress creating own subsystems c [] true start in
    rw made (
      others_lem creating own mounts use_namespaces (all_usable creating own subsystems)
        ((require_all creating subsystems c []).0) ((require_all creating subsystems c []).1)
        middle)
