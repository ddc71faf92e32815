-- ===== src/Container/Accepted.antt =====
-- What handle_basic_container_args of benchexec/containerexecutor.py accepts is accepted by
-- ContainerExecutor.__init__.
use benchexec.Prelude.{
  ◌≡◌, refl, sym, ap, subst, ◌∙◌, inl, inr, Bool, true, false, not, Option, some, List, [], ◌∷◌,
  Text, codes, text_eq, text_eq_iff, starts_with, Bool-cases, if◌then◌else◌, All, if-holds,
}
use benchexec.Prelude.Dict.{text_key, get, get-assign, assign, member, keys}
use benchexec.Prelude.Outcome.{
  returned, >>=-eq-returned, >>-eq-returned, returned-injective, returned->>=, require-true,
}
use benchexec.Container.Modes.{Mode, hidden, read_only, overlay, full_access}
use benchexec.Container.Options.{
  ContainerOptions, tmp_kept_and_hidden, handle_dirs, set_default, is_other_mode, handle_tmp,
  keep_readable, add_defaults, handle_basic_container_args, need_root_mode, not_absolute, proc_mode,
  container_home, check_paths, sorted_by_length, executor_dir_modes,
}
use benchexec.Container.Steps.{
  IsAccepted, AreAccepted, Keeps, IsStep, assign-AreAccepted, member-of_get, IsStep-refl,
  IsStep-trans, set_default-IsStep, keep_readable-IsStep, handle_dirs-IsStep,
}

handle_tmp-IsStep :
    (keep_tmp : Bool) (dir_modes next : List (Text × Mode))
    → handle_tmp keep_tmp dir_modes ≡ returned next
    → IsStep dir_modes next
handle_tmp-IsStep false dir_modes next h =
    subst (IsStep dir_modes) (returned-injective h)
      (set_default-IsStep (codes "/tmp") hidden dir_modes (refl, refl))
handle_tmp-IsStep true dir_modes next h =
    let (free, h1) =
      >>-eq-returned (not (is_other_mode (get (codes "/tmp") dir_modes))) tmp_kept_and_hidden _ h in
    subst (IsStep dir_modes) (returned-injective h1) (record {
      accepted = λ ok. assign-AreAccepted (codes "/tmp") full_access dir_modes (refl, refl) ok;
      keeps = λ d m there. keep d m there free;
    })
  where
    only_full :
        (m : Mode) (o : Option Mode)
        → o ≡ some m
        → not (is_other_mode o) ≡ true
        → some full_access ≡ some m
    only_full full_access o e f = refl
    only_full hidden o e f = absurd (let g = ap (λ q. not (is_other_mode q)) e in cc)
    only_full read_only o e f = absurd (let g = ap (λ q. not (is_other_mode q)) e in cc)
    only_full overlay o e f = absurd (let g = ap (λ q. not (is_other_mode q)) e in cc)

    keep :
        (d : Text) (m : Mode)
        → get d dir_modes ≡ some m
        → not (is_other_mode (get (codes "/tmp") dir_modes)) ≡ true
        → get d (assign (codes "/tmp") full_access dir_modes) ≡ some m
    keep d m there free = elim (Bool-cases (text_eq d (codes "/tmp"))) [
      | inl same ↦
          get-assign (codes "/tmp") d full_access dir_modes
          ∙ rw same (
              only_full m (get (codes "/tmp") dir_modes)
                (ap (λ t. get t dir_modes) (sym ((text_eq_iff d (codes "/tmp")).0 same)) ∙ there)
                free)
      | inr other ↦ get-assign (codes "/tmp") d full_access dir_modes ∙ rw other there
    ]

get_of_member :
    (d : Text) (dir_modes : List (Text × Mode))
    → member d (keys dir_modes) ≡ true
    → (m : Mode) × (get d dir_modes ≡ some m)
unfolding get member
get_of_member d [] h = cc
get_of_member d ((f, m) ∷ dir_modes) h = elim (Bool-cases (text_eq d f)) [
  | inl same ↦ (m, rw same refl)
  | inr other ↦ (let r = get_of_member d dir_modes (rw other at h) in (r.0, rw other r.1))
]

set_default-has :
    (d : Text) (mode : Mode) (dir_modes : List (Text × Mode))
    → (m : Mode) × (get d (set_default d mode dir_modes) ≡ some m)
set_default-has d mode dir_modes = elim (Bool-cases (member d (keys dir_modes))) [
  | inl there ↦ (let r = get_of_member d dir_modes there in (r.0, rw there r.1))
  | inr new ↦ (mode, rw new (get-assign d d mode dir_modes ∙ rw ((text_eq_iff d d).1 refl) refl))
]

-- What add_defaults does after the root has its mode.
after_root-IsStep :
    (isdir : Text → Bool) (system_config : Bool) (dir_modes : List (Text × Mode))
    → IsStep
        (set_default (codes "/") overlay dir_modes)
        (add_defaults isdir system_config dir_modes)
after_root-IsStep isdir system_config dir_modes =
    let rooted : List (Text × Mode) = set_default (codes "/") overlay dir_modes in
    let m1 : List (Text × Mode) = set_default (codes "/run") hidden rooted in
    let m2 : List (Text × Mode) = keep_readable isdir (codes "/run/resolvconf") m1 in
    let m3 : List (Text × Mode) = keep_readable isdir (codes "/run/systemd/resolve") m2 in
    let s1 : IsStep rooted m1 = set_default-IsStep (codes "/run") hidden rooted (refl, refl) in
    if-holds (IsStep rooted) system_config (λ special. s1)
      (λ plain. IsStep-trans rooted m1 m3 s1 (
        IsStep-trans m1 m2 m3 (keep_readable-IsStep isdir (codes "/run/resolvconf") m1 (refl, refl))
          (keep_readable-IsStep isdir (codes "/run/systemd/resolve") m2 (refl, refl))))

check_paths-accepted : (paths : List Text) → All IsAccepted paths → check_paths paths ≡ returned tt
check_paths-accepted [] h = refl
check_paths-accepted (path ∷ paths) h =
    require-true not_absolute h.0.0
      (require-true proc_mode (rw h.0.1 refl) (check_paths-accepted paths h.1))

-- A dict of accepted directories, with a mode for the root, makes an executor.
executor_dir_modes_made :
    (system_config : Bool) (given : List (Text × Mode)) (root : Mode)
    → AreAccepted given
    → get (codes "/") given ≡ some root
    → (dir_modes : List (Text × Mode)) × (executor_dir_modes system_config given
        ≡ returned dir_modes)
unfolding executor_dir_modes
executor_dir_modes_made system_config given root ok has =
    let all : List (Text × Mode) =
      if system_config then set_default container_home hidden given else given in
    let step : IsStep given all =
      if-holds (IsStep given) system_config
        (λ special. set_default-IsStep container_home hidden given (refl, refl))
        (λ plain. IsStep-refl given) in
    let rooted = member-of_get (codes "/") root all (step.keeps (codes "/") root has) in
    (
      sorted_by_length all,
      require-true need_root_mode rooted
          (returned->>= _ (check_paths-accepted (keys all) (step.accepted ok)) refl),
    )

-- The modes of the directories that the options name.
pub record HasModes (abspath : Text → Text) (options : ContainerOptions)
    (dir_modes : List (Text × Mode)) : Type 0 where
  pub hidden_dirs : All (λ p. get (abspath p) dir_modes ≡ some hidden) options.hidden_dir
  pub read_only_dirs : All (λ p. get (abspath p) dir_modes ≡ some read_only) options.read_only_dir
  pub overlay_dirs : All (λ p. get (abspath p) dir_modes ≡ some overlay) options.overlay_dir
  pub full_access_dirs :
      All (λ p. get (abspath p) dir_modes ≡ some full_access) options.full_access_dir

All-Keeps :
    (abspath : Text → Text) (mode : Mode) (paths : List Text) (dir_modes next : List (Text × Mode))
    → Keeps dir_modes next
    → All (λ p. get (abspath p) dir_modes ≡ some mode) paths
    → All (λ p. get (abspath p) next ≡ some mode) paths
All-Keeps abspath mode [] dir_modes next keeps h = tt
All-Keeps abspath mode (p ∷ paths) dir_modes next keeps h =
    (keeps (abspath p) mode h.0, All-Keeps abspath mode paths dir_modes next keeps h.1)

-- Where os.path.abspath gives absolute paths and the options are accepted: each directory that an
-- option names has the mode of this option, whatever the others are, and an executor is made from the
-- modes without a ValueError.
pub handle_basic_container_args_accepted :
    (abspath : Text → Text) (isdir : Text → Bool) (options : ContainerOptions)
    (given : List (Text × Mode))
    → ((p : Text) → starts_with (abspath p) (codes "/") ≡ true)
    → handle_basic_container_args abspath isdir options ≡ returned given
    → HasModes abspath options given
      × ((dir_modes : List (Text × Mode)) × (executor_dir_modes options.container_system_config
              given
            ≡ returned dir_modes))
unfolding handle_basic_container_args
handle_basic_container_args_accepted abspath isdir options given absolute h =
    let (m1, e1, h1) =
      >>=-eq-returned (handle_dirs abspath isdir hidden options.hidden_dir []) _ h in
    let (m2, e2, h2) =
      >>=-eq-returned (handle_dirs abspath isdir read_only options.read_only_dir m1) _ h1 in
    let (m3, e3, h3) =
      >>=-eq-returned (handle_dirs abspath isdir overlay options.overlay_dir m2) _ h2 in
    let (m4, e4, h4) =
      >>=-eq-returned (handle_dirs abspath isdir full_access options.full_access_dir m3) _ h3 in
    let (m5, e5, h5) = >>=-eq-returned (handle_tmp options.keep_tmp m4) _ h4 in
    let s1 = handle_dirs-IsStep abspath isdir absolute hidden options.hidden_dir [] m1 e1 in
    let s2 = handle_dirs-IsStep abspath isdir absolute read_only options.read_only_dir m1 m2 e2 in
    let s3 = handle_dirs-IsStep abspath isdir absolute overlay options.overlay_dir m2 m3 e3 in
    let s4 =
      handle_dirs-IsStep abspath isdir absolute full_access options.full_access_dir m3 m4 e4 in
    let s5 = handle_tmp-IsStep options.keep_tmp m4 m5 e5 in
    let rooted : List (Text × Mode) = set_default (codes "/") overlay m5 in
    let final : add_defaults isdir options.container_system_config m5 ≡ given =
      returned-injective h5 in
    let r6 : IsStep m5 rooted = set_default-IsStep (codes "/") overlay m5 (refl, refl) in
    let r7 : IsStep rooted given =
      subst (IsStep rooted) final (after_root-IsStep isdir options.container_system_config m5) in
    let t5 : IsStep m5 given = IsStep-trans m5 rooted given r6 r7 in
    let t4 : IsStep m4 given = IsStep-trans m4 m5 given s5 t5 in
    let t3 : IsStep m3 given = IsStep-trans m3 m4 given s4.0 t4 in
    let t2 : IsStep m2 given = IsStep-trans m2 m3 given s3.0 t3 in
    let t1 : IsStep m1 given = IsStep-trans m1 m2 given s2.0 t2 in
    let t0 : IsStep [] given = IsStep-trans [] m1 given s1.0 t1 in
    let (root, has) = set_default-has (codes "/") overlay m5 in
    (
      record {
        hidden_dirs = All-Keeps abspath hidden options.hidden_dir m1 given t1.keeps s1.1;
        read_only_dirs = All-Keeps abspath read_only options.read_only_dir m2 given t2.keeps s2.1;
        overlay_dirs = All-Keeps abspath overlay options.overlay_dir m3 given t3.keeps s3.1;
        full_access_dirs =
            All-Keeps abspath full_access options.full_access_dir m4 given t4.keeps s4.1;
      },
      executor_dir_modes_made options.container_system_config given root (t0.accepted tt)
          (r7.keeps (codes "/") root has),
    )
