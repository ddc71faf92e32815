-- ===== src/Container/Last.antt =====
-- The loop of determine_directory_mode of benchexec/container.py finds the last directory, which is the
-- longest, that contains a path.
use mathlib.Core.Option.{some-injective}
use benchexec.Prelude.{
  ◌≡◌, ◌≤◌, refl, sym, subst, ◌∙◌, ◌⊎◌, inl, inr, Bool, true, false, not, ◌&&◌, Option, none, some,
  List, [], ◌∷◌, length, Text, text_eq, Bool-cases, if◌then◌else◌, arith, All,
}
use benchexec.Prelude.Dict.{text_key}
use benchexec.Container.Modes.{Mode, path_is_below, FoundModes, note_mode, find_modes}

abbrev pub IsEntry : Text × Mode → List (Text × Mode) → Type 0
IsEntry e [] = ⊥
IsEntry e (x ∷ dir_modes) = (e ≡ x) ⊎ IsEntry e dir_modes

-- No directory is followed by a shorter one.
abbrev pub IsByLength : List (Text × Mode) → Type 0
IsByLength [] = Unit
IsByLength (x ∷ dir_modes) = All (λ y. length x.0 ≤ length y.0) dir_modes × IsByLength dir_modes

abbrev pub or_this : Option (Text × Mode) → Bool → Text × Mode → Option (Text × Mode)
or_this (some later) b e = some later
or_this none true e = some e
or_this none false e = none

-- The last entry whose directory passes a test.
abbrev pub last_where : (Text → Bool) → List (Text × Mode) → Option (Text × Mode)
last_where test [] = none
last_where test (e ∷ dir_modes) = or_this (last_where test dir_modes) (test e.0) e

abbrev pub mode_or : Option (Text × Mode) → Option Mode → Option Mode
mode_or none mode = mode
mode_or (some e) mode = some e.1

abbrev pub contains : Text → Text → Bool
contains path d = path_is_below path d

abbrev pub is_parent : Text → Text → Bool
is_parent path d = path_is_below path d && not (text_eq path d)

or_this_result :
    (later : Option (Text × Mode)) (below : Bool) (path d : Text) (mode : Mode) (found : FoundModes)
    → mode_or later (if below then note_mode path d mode found else found).result_mode
      ≡ mode_or (or_this later below (d, mode)) found.result_mode
or_this_result (some e) below path d mode found = refl
or_this_result none true path d mode found = refl
or_this_result none false path d mode found = refl

pub find_modes_result :
    (path : Text) (dir_modes : List (Text × Mode)) (found : FoundModes)
    → (find_modes path dir_modes found).result_mode
      ≡ mode_or (last_where (contains path) dir_modes) found.result_mode
unfolding find_modes
find_modes_result path [] found = refl
find_modes_result path ((d, mode) ∷ dir_modes) found =
    find_modes_result path dir_modes
      (if path_is_below path d then note_mode path d mode found else found)
    ∙ or_this_result (last_where (contains path) dir_modes) (path_is_below path d) path d mode found

or_this_parent :
    (later : Option (Text × Mode)) (below : Bool) (path d : Text) (mode : Mode) (found : FoundModes)
    → mode_or later (if below then note_mode path d mode found else found).parent_mode
      ≡ mode_or (or_this later (below && not (text_eq path d)) (d, mode)) found.parent_mode
or_this_parent (some e) below path d mode found = refl
or_this_parent none false path d mode found = refl
or_this_parent none true path d mode found = elim (Bool-cases (text_eq path d)) [
  | inl same ↦ rw same refl
  | inr other ↦ rw other refl
]

pub find_modes_parent :
    (path : Text) (dir_modes : List (Text × Mode)) (found : FoundModes)
    → (find_modes path dir_modes found).parent_mode
      ≡ mode_or (last_where (is_parent path) dir_modes) found.parent_mode
unfolding find_modes
find_modes_parent path [] found = refl
find_modes_parent path ((d, mode) ∷ dir_modes) found =
    find_modes_parent path dir_modes
      (if path_is_below path d then note_mode path d mode found else found)
    ∙ or_this_parent (last_where (is_parent path) dir_modes) (path_is_below path d) path d mode
        found

-- What the last entry is that passes a test.
pub record IsLast (test : Text → Bool) (dir_modes : List (Text × Mode)) (e : Text × Mode)
    : Type 0 where
  pub entry : IsEntry e dir_modes
  pub passes : test e.0 ≡ true
  pub longest : (x : Text × Mode) → IsEntry x dir_modes → test x.0 ≡ true → length x.0 ≤ length e.0

or_this-eq_none :
    (later : Option (Text × Mode)) (b : Bool) (e : Text × Mode)
    → or_this later b e ≡ none
    → (later ≡ none) × (b ≡ false)
or_this-eq_none (some x) b e h = cc
or_this-eq_none none true e h = cc
or_this-eq_none none false e h = (refl, refl)

or_this-eq_some :
    (later : Option (Text × Mode)) (b : Bool) (x e : Text × Mode)
    → or_this later b x ≡ some e
    → (later ≡ some e) ⊎ ((later ≡ none) × (b ≡ true) × (x ≡ e))
or_this-eq_some (some y) b x e h = inl h
or_this-eq_some none true x e h = inr (refl, refl, some-injective x e h)
or_this-eq_some none false x e h = cc

All-IsEntry :
    (P : Text × Mode → Type 0) (dir_modes : List (Text × Mode)) (x : Text × Mode)
    → All P dir_modes
    → IsEntry x dir_modes
    → P x
All-IsEntry P [] x h i = absurd i
All-IsEntry P (e ∷ dir_modes) x h (inl same) = subst P (sym same) h.0
All-IsEntry P (e ∷ dir_modes) x h (inr i) = All-IsEntry P dir_modes x h.1 i

pub none_passes :
    (test : Text → Bool) (dir_modes : List (Text × Mode)) (x : Text × Mode)
    → last_where test dir_modes ≡ none
    → IsEntry x dir_modes
    → test x.0 ≡ false
none_passes test [] x h i = absurd i
none_passes test (e ∷ dir_modes) x h (inl same) =
    let p = or_this-eq_none (last_where test dir_modes) (test e.0) e h in
    subst (λ (y : Text × Mode). test y.0 ≡ false) (sym same) p.1
none_passes test (e ∷ dir_modes) x h (inr i) =
    let p = or_this-eq_none (last_where test dir_modes) (test e.0) e h in
    none_passes test dir_modes x p.0 i

pub last_where-IsLast :
    (test : Text → Bool) (dir_modes : List (Text × Mode)) (e : Text × Mode)
    → IsByLength dir_modes
    → last_where test dir_modes ≡ some e
    → IsLast test dir_modes e
last_where-IsLast test [] e sorted h = cc
last_where-IsLast test (x ∷ dir_modes) e sorted h =
    elim (or_this-eq_some (last_where test dir_modes) (test x.0) x e h) [
      | inl later ↦
          (let last = last_where-IsLast test dir_modes e sorted.1 later in
            record {
              entry = inr last.entry;
              passes = last.passes;
              longest = λ y i p. elim i [
                | inl same ↦
                    subst (λ (z : Text × Mode). length z.0 ≤ length e.0) (sym same)
                      (All-IsEntry (λ z. length x.0 ≤ length z.0) dir_modes e sorted.0 last.entry)
                | inr rest ↦ last.longest y rest p
              ];
            })
      | inr (none_later, passes, same) ↦ subst (IsLast test (x ∷ dir_modes)) same (record {
        entry = inl refl;
        passes = passes;
        longest = λ y i p. elim i [
          | inl this ↦ subst (λ (z : Text × Mode). length z.0 ≤ length x.0) (sym this) (omega arith)
          | inr rest ↦ absurd (clash (test y.0) p (none_passes test dir_modes y none_later rest))
        ];
      })
    ]
  where
    clash : (b : Bool) → b ≡ true → b ≡ false → ⊥
    clash b p q = cc
