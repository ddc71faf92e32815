-- ===== src/Cgroups/Tests.antt =====
-- Runs of the functions of benchexec/cgroups.py and of RunExecutor._init_cgroups on small inputs, and the
-- theorems at such inputs.
use benchexec.Prelude.{
  ℕ, Bool, true, false, Option, none, some, List, [], ◌∷◌, Text, codes, ◌≡◌, ◌≢◌, ◌↔◌, refl, ap,
  ◌∙◌, sym, ◌&&◌, ◌||◌,
}
use benchexec.Prelude.Dict.{text_key, get, member}
use benchexec.Prelude.Outcome.{returned, raised}
use benchexec.Cgroups.{
  Cgroup, CgroupFailure, assertion_error, is_not_empty, exit_permissions, exit_version, exit_other,
  cpuacct, cpuset, freezer, memory, contains, make_cgroup, init_cgroups,
}
use benchexec.Cgroups.Kept.{is_usable, IsFiltered}
use benchexec.Cgroups.Required.{all_usable, init_cgroups_lem}
use benchexec.Cgroups.Children.{create_fresh_child_cgroup}
use benchexec.Cgroups.Fresh.{IsMkdtemp}
use benchexec.Cgroups.Shared.{create_fresh_child_cgroup_lem}

-- cpu and cpuacct in one hierarchy, memory and freezer each in its own
abbrev own : List (Text × Text)
own =
    (cpuacct, codes "/c/cpu")
    ∷ (codes "cpu", codes "/c/cpu")
    ∷ (memory, codes "/c/mem")
    ∷ (freezer, codes "/c/frz")
    ∷ []

-- No child can be created for the memory.
abbrev creating : Text → Text → Option ℕ
creating s path = if_memory (text_key.beq s memory)
  where
    if_memory : Bool → Option ℕ
    if_memory true = some 13
    if_memory false = none

abbrev own_cgroup : Cgroup
own_cgroup = record {
  per_subsystem = own;
  paths = codes "/c/cpu" ∷ codes "/c/cpu" ∷ codes "/c/mem" ∷ codes "/c/frz" ∷ [];
  unusable_subsystems = [];
  denied_subsystems = [];
}

test_init_cgroups :
    (init_cgroups creating [] false (memory ∷ []) own
      ≡ raised (exit_permissions (codes "/c/mem" ∷ [])))
    × (init_cgroups creating (codes "cgroup2" ∷ []) false (cpuset ∷ []) own ≡ raised exit_version)
    × (init_cgroups creating (codes "cgroup2" ∷ codes "cgroup" ∷ []) false (cpuset ∷ []) own
        ≡ raised exit_other)
unfolding init_cgroups
test_init_cgroups = (refl, refl, refl)

init_cgroups_lem_example :
    ((all_usable creating own (cpuacct ∷ []) && (is_usable creating own freezer || false)) ≡ true
      → (final : Cgroup) × (init_cgroups creating [] false (cpuacct ∷ []) own ≡ returned final)
        × IsFiltered creating own final)
    × ((all_usable creating own (cpuacct ∷ []) && (is_usable creating own freezer || false)) ≡ false
        → (e : CgroupFailure) × (init_cgroups creating [] false (cpuacct ∷ []) own ≡ raised e)
          × (e ≢ assertion_error))
unfolding make_cgroup member
init_cgroups_lem_example =
    init_cgroups_lem creating [] false (cpuacct ∷ []) own own_cgroup
      (refl, (refl, (refl, (refl, tt)))) refl

-- A path in p with the number of the call.
abbrev numbered : ℕ → Text → Option Text
numbered n p = some (n ∷ p)

abbrev text_in : Option Text → Text
text_in none = []
text_in (some x) = x

abbrev rest_of : Text → Text
rest_of [] = []
rest_of (c ∷ s) = s

numbered-IsMkdtemp : IsMkdtemp numbered
numbered-IsMkdtemp = record {
  gives = λ n p. (n ∷ p, refl);
  named = λ n p x h. ap (λ o. is_not_empty (text_in o)) (sym h);
  inside = λ n m p q x e f. ap (λ o. rest_of (text_in o)) (e ∙ sym f);
}

create_fresh_child_cgroup_lem_example :
    (child : Cgroup) × (create_fresh_child_cgroup numbered own_cgroup
        (cpuacct ∷ codes "cpu" ∷ memory ∷ [])
      ≡ returned child)
    × ((t : Text) → contains t child ≡ member t (cpuacct ∷ codes "cpu" ∷ memory ∷ []))
    × ((s t p q x y : Text)
        → get s own ≡ some p
        → get t own ≡ some q
        → get s child.per_subsystem ≡ some x
        → get t child.per_subsystem ≡ some y
        → (x ≡ y) ↔ (p ≡ q))
unfolding member
create_fresh_child_cgroup_lem_example =
    create_fresh_child_cgroup_lem numbered own_cgroup (cpuacct ∷ codes "cpu" ∷ memory ∷ [])
      numbered-IsMkdtemp refl refl
