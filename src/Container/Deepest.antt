-- ===== src/Container/Deepest.antt =====
-- determine_directory_mode of benchexec/container.py takes the mode of the deepest directory, and never
-- allows more than it.
use benchexec.Prelude.{
  ℕ, ◌≡◌, ◌≤◌, refl, ap, subst, ◌∙◌, ◌⊎◌, inl, inr, Bool, true, false, ◌||◌, leb→le, Option, none,
  some, List, [], ◌∷◌, length, Text, codes, text_eq, Bool-cases, if◌then◌else◌, leb, arith, All,
  if-holds,
}
use benchexec.Prelude.Dict.{member, keys, text_key}
use benchexec.Prelude.Outcome.{returned, >>=-eq-returned, >>-eq-returned, returned-injective}
use benchexec.Container.Modes.{Mode, hidden, read_only, overlay, full_access, path_is_below}
use benchexec.Container.Options.{
  container_home, set_default, check_paths, need_root_mode, insert_by_length, sorted_by_length,
  executor_dir_modes,
}
use benchexec.Container.Last.{IsEntry, IsByLength, contains}

-- The deepest directory with a mode that contains the path: it is below every other one.
pub record IsDeepest (dir_modes : List (Text × Mode)) (path : Text) (e : Text × Mode) : Type 0 where
  pub entry : IsEntry e dir_modes
  pub contains : path_is_below path e.0 ≡ true
  pub deepest :
      (x : Text × Mode)
      → IsEntry x dir_modes
      → path_is_below path x.0 ≡ true
      → path_is_below e.0 x.0 ≡ true

-- Another directory than the path that contains it, and is hidden.
pub record HasHiddenParent (dir_modes : List (Text × Mode)) (path : Text) : Type 0 where
  pub parent : Text × Mode
  pub entry : IsEntry parent dir_modes
  pub above : path_is_below path parent.0 ≡ true
  pub other : text_eq path parent.0 ≡ false
  pub parent_hidden : parent.1 ≡ hidden

-- What may be made of a mode: an overlay becomes read-only where it is not supported, and nothing is
-- done for a hidden directory in a hidden directory.
abbrev pub IsAllowed : Mode → Bool → Option Mode → Type 0 → Type 0
IsAllowed full_access unsupported r hidden_parent = r ≡ some full_access
IsAllowed read_only unsupported r hidden_parent = r ≡ some read_only
IsAllowed overlay unsupported r hidden_parent =
    r ≡ some (if unsupported then read_only else overlay)
IsAllowed hidden unsupported r hidden_parent = (r ≡ some hidden) ⊎ ((r ≡ none) × hidden_parent)

-- What makes a dict of directory modes usable: the order of the directories, and a mode for the root.
pub record AreUsable (dir_modes : List (Text × Mode)) : Type 0 where
  pub by_length : IsByLength dir_modes
  pub root : member (codes "/") (keys dir_modes) ≡ true

All-insert_by_length :
    (P : Text × Mode → Type 0) (e : Text × Mode) (dir_modes : List (Text × Mode))
    → P e
    → All P dir_modes
    → All P (insert_by_length e dir_modes)
All-insert_by_length P e [] p h = (p, tt)
All-insert_by_length P e (x ∷ dir_modes) p h =
    if-holds (All P) (leb (length e.0) (length x.0)) (λ small. (p, h))
      (λ large. (h.0, All-insert_by_length P e dir_modes p h.1))

All-longer :
    (n m : ℕ) (dir_modes : List (Text × Mode))
    → n ≤ m
    → All (λ y. m ≤ length y.0) dir_modes
    → All (λ y. n ≤ length y.0) dir_modes
All-longer n m [] le h = tt
All-longer n m (x ∷ dir_modes) le h = (omega (arith, h.0), All-longer n m dir_modes le h.1)

insert_by_length-IsByLength :
    (e : Text × Mode) (dir_modes : List (Text × Mode))
    → IsByLength dir_modes
    → IsByLength (insert_by_length e dir_modes)
insert_by_length-IsByLength e [] h = (tt, tt)
insert_by_length-IsByLength e (x ∷ dir_modes) h =
    if-holds IsByLength (leb (length e.0) (length x.0))
      (λ small. (
        (
          leb→le (length e.0) (length x.0) small,
          All-longer (length e.0) (length x.0) dir_modes (leb→le (length e.0) (length x.0) small)
              h.0,
        ),
        h,
      ))
      (λ large. (
        All-insert_by_length (λ y. length x.0 ≤ length y.0) e dir_modes (ground arith) h.0,
        insert_by_length-IsByLength e dir_modes h.1,
      ))

sorted_by_length-IsByLength :
    (dir_modes : List (Text × Mode)) → IsByLength (sorted_by_length dir_modes)
unfolding sorted_by_length
sorted_by_length-IsByLength [] = tt
sorted_by_length-IsByLength (e ∷ dir_modes) =
    insert_by_length-IsByLength e (sorted_by_length dir_modes)
      (sorted_by_length-IsByLength dir_modes)

member-keys_insert :
    (d : Text) (e : Text × Mode) (dir_modes : List (Text × Mode))
    → member d (keys (insert_by_length e dir_modes)) ≡ (text_eq d e.0 || member d (keys dir_modes))
unfolding member
member-keys_insert d (f, m) [] = refl
member-keys_insert d (f, m) ((x, k) ∷ dir_modes) = elim (Bool-cases (leb (length f) (length x))) [
  | inl small ↦ rw small refl
  | inr large ↦ rw large (ground (arith, member-keys_insert d (f, m) dir_modes))
]

member-keys_sorted :
    (d : Text) (dir_modes : List (Text × Mode))
    → member d (keys (sorted_by_length dir_modes)) ≡ member d (keys dir_modes)
unfolding sorted_by_length member
member-keys_sorted d [] = refl
member-keys_sorted d ((f, m) ∷ dir_modes) =
    member-keys_insert d (f, m) (sorted_by_length dir_modes)
    ∙ ap (λ b. text_eq d f || b) (member-keys_sorted d dir_modes)

pub executor_dir_modes-AreUsable :
    (system_config : Bool) (given dir_modes : List (Text × Mode))
    → executor_dir_modes system_config given ≡ returned dir_modes
    → AreUsable dir_modes
unfolding executor_dir_modes
executor_dir_modes-AreUsable system_config given dir_modes h =
    let all : List (Text × Mode) =
      if system_config then set_default container_home hidden given else given in
    let (root, h1) = >>-eq-returned (member (codes "/") (keys all)) need_root_mode _ h in
    let (_, checked, h2) = >>=-eq-returned (check_paths (keys all)) _ h1 in
    subst AreUsable (returned-injective h2) (record {
      by_length = sorted_by_length-IsByLength all;
      root = member-keys_sorted (codes "/") all ∙ root;
    })
