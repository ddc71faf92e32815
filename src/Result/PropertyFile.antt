-- ===== src/Result/PropertyFile.antt =====
-- Property.create of benchexec/result.py: which property files have SV-COMP scores.
use benchexec.Prelude.{
  if◌then◌else◌, ◌++◌, some, ◌≡◌, refl, ◌↔◌, ◌⊎◌, inl, inr, Bool, true, false, List, [], ◌∷◌, arith,
  Text, codes, text_eq, starts_with, rstrip,
}
use benchexec.Result.{Property, truthy}
use mathlib.Core.Option.{get_or}

-- The loop of Property.create over the lines of the file: what `is_svcomp` is at the end.
unfoldable pub svcomp_lines : Bool → List Text → Bool
unfolding rstrip
svcomp_lines seen [] = seen
svcomp_lines seen (line ∷ rest) = elim (text_eq (rstrip line) []) [
  | true ↦ svcomp_lines seen rest
  | false ↦ elim (starts_with line (codes "CHECK")) [
    | true ↦ svcomp_lines true rest
    | false ↦ false
  ]
]

-- Property.create, given the lines of the file and its base name without the extension.
unfoldable pub create : Text → List Text → Text → Property
unfolding svcomp_lines
create propertyfile lines stem = record {
  filename = some propertyfile;
  is_svcomp = svcomp_lines false lines;
  name = stem;
}

-- Property.nice_name
unfoldable pub nice_name : Property → Text
nice_name prop =
    (if prop.is_svcomp then codes "SV-COMP-" else [])
    ++ (codes "Property " ++ elim (truthy prop.filename) [
      | true ↦ codes "from " ++ get_or prop.filename []
      | false ↦ prop.name
    ])

-- A line with nothing but white space.
abbrev pub IsBlank : Text → Type 0
IsBlank line = text_eq (rstrip line) [] ≡ true

abbrev pub IsCheck : Text → Type 0
IsCheck line = starts_with line (codes "CHECK") ≡ true

-- Every line is blank or starts with CHECK.
abbrev pub AllChecks : List Text → Type 0
AllChecks [] = Unit
AllChecks (line ∷ rest) = (IsBlank line ⊎ IsCheck line) × AllChecks rest

-- Some line is not blank.
abbrev pub SomeText : List Text → Type 0
SomeText [] = ⊥
SomeText (line ∷ rest) = (text_eq (rstrip line) [] ≡ false) ⊎ SomeText rest

svcomp_lines→ :
    (seen : Bool) (lines : List Text)
    → svcomp_lines seen lines ≡ true
    → AllChecks lines × ((seen ≡ true) ⊎ SomeText lines)
unfolding svcomp_lines
svcomp_lines→ seen [] h = (tt, inl h)
svcomp_lines→ seen (line ∷ rest) h =
    ground (arith, svcomp_lines→ seen rest, svcomp_lines→ true rest)

svcomp_lines← :
    (seen : Bool) (lines : List Text)
    → AllChecks lines
    → ((seen ≡ true) ⊎ SomeText lines)
    → svcomp_lines seen lines ≡ true
unfolding svcomp_lines
svcomp_lines← seen [] a (inl h) = h
svcomp_lines← seen [] a (inr h) = absurd h
svcomp_lines← seen (line ∷ rest) (a, as') h =
    ground (arith, svcomp_lines← seen rest as', svcomp_lines← true rest as' (inl refl))

-- A property file has SV-COMP scores exactly if some line is not blank and every line that is not
-- blank starts with CHECK.
create-svcomp_iff :
    (propertyfile : Text) (lines : List Text) (stem : Text)
    → ((create propertyfile lines stem).is_svcomp ≡ true) ↔ (AllChecks lines × SomeText lines)
unfolding create
create-svcomp_iff propertyfile lines stem = (to, λ h. svcomp_lines← false lines h.0 (inr h.1))
  where
    to : svcomp_lines false lines ≡ true → AllChecks lines × SomeText lines
    to h = let (checks, some_text) = svcomp_lines→ false lines h in (checks, not_seen some_text)
      where
        not_seen : (◌≡◌ {A = Bool} false true ⊎ SomeText lines) → SomeText lines
        not_seen (inl e) = cc
        not_seen (inr t) = t
