-- ===== src/Prelude/Replace.antt =====
-- s.replace(old, new) of Python, for a text old that is not empty, and facts on split.
use Prim.Native.Nat.{ℕ, zero, suc, ◌-◌}
use mathlib.Core.Path.{◌≡◌, refl}
use mathlib.Core.Bool.{false}
use mathlib.Core.List.{[], ◌∷◌, ◌++◌}
use native.Mathlib.Omega.{arith}
use benchexec.Prelude.Tests.{◌==◌, if◌then◌else◌}
use benchexec.Prelude.Lists.{length, All}
use benchexec.Prelude.Strings.{Text, starts_with, split}

-- The rest of an occurrence, of a number of characters, is skipped.
unfoldable pub replace_from : ℕ → Text → Text → Text → Text
replace_from skip old new [] = []
replace_from (suc skip) old new (c ∷ s) = replace_from skip old new s
replace_from zero old new (c ∷ s) =
    let found = starts_with (c ∷ s) old in
    (if found then new else c ∷ []) ++ replace_from (if found then length old - 1 else 0) old new s

abbrev pub replace : Text → Text → Text → Text
replace old new s = replace_from 0 old new s

-- Where no occurrence starts.
pub replace-other :
    (a c : ℕ) (old new s : Text)
    → (c == a) ≡ false
    → replace (a ∷ old) new (c ∷ s) ≡ c ∷ replace (a ∷ old) new s
unfolding replace_from
replace-other a c old new s h = rw h

-- No character is the separator.
abbrev pub IsWithout : ℕ → Text → Type 0
IsWithout sep s = All (λ c. (c == sep) ≡ false) s

pub split-IsWithout : (sep : ℕ) (s : Text) → IsWithout sep s → split sep s ≡ s ∷ []
unfolding split
split-IsWithout sep [] h = refl
split-IsWithout sep (c ∷ s) h = rw (h.0, split-IsWithout sep s h.1)

pub split-append :
    (sep : ℕ) (s t : Text) → IsWithout sep s → split sep (s ++ sep ∷ t) ≡ s ∷ split sep t
unfolding split
split-append sep [] t h = ground arith
split-append sep (c ∷ s) t h = rw (h.0, split-append sep s t h.1)
