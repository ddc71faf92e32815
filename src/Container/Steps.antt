-- ===== src/Container/Steps.antt =====
-- What each step of handle_basic_container_args of benchexec/containerexecutor.py does to the modes.
use benchexec.Prelude.{
  ◌≡◌, refl, subst, ◌∙◌, inl, inr, Bool, true, false, not, some, List, [], ◌∷◌, Text, codes,
  text_eq, text_eq_iff, starts_with, Bool-cases, arith, All, if-holds,
}
use benchexec.Prelude.Dict.{text_key, get, get-assign, assign, member, keys}
use benchexec.Prelude.Outcome.{returned, >>=-eq-returned, >>-eq-returned, returned-injective}
use benchexec.Container.Modes.{Mode, read_only}
use benchexec.Container.Options.{
  no_directory, multiple_modes, mode_for_proc, handle_dir_mode, handle_dirs, set_default,
  keep_readable,
}

-- A directory that ContainerExecutor.__init__ accepts.
abbrev pub IsAccepted : Text → Type 0
IsAccepted d = (starts_with d (codes "/") ≡ true) × (text_eq d (codes "/proc") ≡ false)

abbrev pub AreAccepted : List (Text × Mode) → Type 0
AreAccepted dir_modes = All IsAccepted (keys dir_modes)

pub assign-AreAccepted :
    (d : Text) (mode : Mode) (dir_modes : List (Text × Mode))
    → IsAccepted d
    → AreAccepted dir_modes
    → AreAccepted (assign d mode dir_modes)
unfolding assign
assign-AreAccepted d mode [] ok h = (ok, tt)
assign-AreAccepted d mode ((f, m) ∷ dir_modes) ok h = elim (Bool-cases (text_eq d f)) [
  | inl same ↦ rw same (h.0, h.1)
  | inr other ↦ rw other (h.0, assign-AreAccepted d mode dir_modes ok h.1)
]

-- Every mode that is there stays.
abbrev pub Keeps : List (Text × Mode) → List (Text × Mode) → Type 0
Keeps dir_modes next = (d : Text) (m : Mode) → get d dir_modes ≡ some m → get d next ≡ some m

pub member-of_get :
    (d : Text) (m : Mode) (dir_modes : List (Text × Mode))
    → get d dir_modes ≡ some m
    → member d (keys dir_modes) ≡ true
unfolding get member
member-of_get d m [] h = cc
member-of_get d m ((f, k) ∷ dir_modes) h = elim (Bool-cases (text_eq d f)) [
  | inl same ↦ rw same refl
  | inr other ↦ rw other (member-of_get d m dir_modes (rw other at h))
]

assign-Keeps :
    (d : Text) (mode : Mode) (dir_modes : List (Text × Mode))
    → member d (keys dir_modes) ≡ false
    → Keeps dir_modes (assign d mode dir_modes)
assign-Keeps d mode dir_modes new f m h = elim (Bool-cases (text_eq f d)) [
  | inl same ↦
      (let there = member-of_get f m dir_modes h in
        let equal : f ≡ d = (text_eq_iff f d).0 same in
        absurd (
          clash (member d (keys dir_modes))
            (subst (λ t. member t (keys dir_modes) ≡ true) equal there) new))
  | inr other ↦ get-assign d f mode dir_modes ∙ rw other h
]
  where
    clash : (b : Bool) → b ≡ true → b ≡ false → ⊥
    clash b p q = cc

-- What a step keeps of the dict, and that it adds accepted directories only.
pub record IsStep (dir_modes next : List (Text × Mode)) : Type 0 where
  pub accepted : AreAccepted dir_modes → AreAccepted next
  pub keeps : Keeps dir_modes next

pub IsStep-refl : (dir_modes : List (Text × Mode)) → IsStep dir_modes dir_modes
IsStep-refl dir_modes = record { accepted = λ h. h; keeps = λ d m h. h }

pub IsStep-trans : (a b c : List (Text × Mode)) → IsStep a b → IsStep b c → IsStep a c
IsStep-trans a b c f g = record {
  accepted = λ h. g.accepted (f.accepted h);
  keeps = λ d m h. g.keeps d m (f.keeps d m h);
}

assign-IsStep :
    (d : Text) (mode : Mode) (dir_modes : List (Text × Mode))
    → IsAccepted d
    → member d (keys dir_modes) ≡ false
    → IsStep dir_modes (assign d mode dir_modes)
assign-IsStep d mode dir_modes ok new = record {
  accepted = λ h. assign-AreAccepted d mode dir_modes ok h;
  keeps = assign-Keeps d mode dir_modes new;
}

pub set_default-IsStep :
    (d : Text) (mode : Mode) (dir_modes : List (Text × Mode))
    → IsAccepted d
    → IsStep dir_modes (set_default d mode dir_modes)
set_default-IsStep d mode dir_modes ok =
    if-holds (IsStep dir_modes) (member d (keys dir_modes)) (λ there. IsStep-refl dir_modes)
      (λ new. assign-IsStep d mode dir_modes ok new)

pub keep_readable-IsStep :
    (isdir : Text → Bool) (d : Text) (dir_modes : List (Text × Mode))
    → IsAccepted d
    → IsStep dir_modes (keep_readable isdir d dir_modes)
keep_readable-IsStep isdir d dir_modes ok =
    if-holds (IsStep dir_modes) (isdir d) (λ there. set_default-IsStep d read_only dir_modes ok)
      (λ missing. IsStep-refl dir_modes)

module _ (abspath : Text → Text) (isdir : Text → Bool)
    (absolute : (p : Text) → starts_with (abspath p) (codes "/") ≡ true) where
  handle_dir_mode-IsStep :
      (mode : Mode) (path : Text) (dir_modes next : List (Text × Mode))
      → handle_dir_mode abspath isdir mode path dir_modes ≡ returned next
      → IsStep dir_modes next × (get (abspath path) next ≡ some mode)
  handle_dir_mode-IsStep mode path dir_modes next h =
      let (_, h1) = >>-eq-returned (isdir (abspath path)) no_directory _ h in
      let (new, h2) =
        >>-eq-returned (not (member (abspath path) (keys dir_modes))) multiple_modes _ h1 in
      let (no_proc, h3) =
        >>-eq-returned (not (text_eq (abspath path) (codes "/proc"))) mode_for_proc _ h2 in
      let made : assign (abspath path) mode dir_modes ≡ next = returned-injective h3 in
      (
        subst (IsStep dir_modes) made (
            assign-IsStep (abspath path) mode dir_modes (absolute path, negated _ no_proc)
              (negated _ new)),
        subst (λ l. get (abspath path) l ≡ some mode) made
            (get-assign (abspath path) (abspath path) mode dir_modes
              ∙ rw ((text_eq_iff (abspath path) (abspath path)).1 refl) refl),
      )
    where
      negated : (b : Bool) → not b ≡ true → b ≡ false
      negated b h = ground arith

  pub handle_dirs-IsStep :
      (mode : Mode) (paths : List Text) (dir_modes next : List (Text × Mode))
      → handle_dirs abspath isdir mode paths dir_modes ≡ returned next
      → IsStep dir_modes next × All (λ p. get (abspath p) next ≡ some mode) paths
  handle_dirs-IsStep mode [] dir_modes next h =
      (subst (IsStep dir_modes) (returned-injective h) (IsStep-refl dir_modes), tt)
  handle_dirs-IsStep mode (path ∷ paths) dir_modes next h =
      let (first, made, rest) =
        >>=-eq-returned (handle_dir_mode abspath isdir mode path dir_modes) _ h in
      let one = handle_dir_mode-IsStep mode path dir_modes first made in
      let others = handle_dirs-IsStep mode paths first next rest in
      (
        IsStep-trans dir_modes first next one.0 others.0,
        (others.0.keeps (abspath path) mode one.1, others.1),
      )
