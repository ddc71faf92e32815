-- ===== src/Prelude/Strings.antt =====
-- Python's str as a list of code points, with the methods that the program calls on it.
use Prim.Native.Nat.{ℕ}
use Prim.Native.Char.{code}
use Prim.Native.String.{String}
use mathlib.Core.Path.{◌≡◌, refl, ap}
use mathlib.Core.Logic.{◌↔◌, ◌⊎◌, inl, inr}
use mathlib.Core.Bool.{Bool, true, false, ◌&&◌, ◌||◌}
use mathlib.Core.List.{List, [], ◌∷◌, ◌++◌, reverse, reverse-append}
use native.Mathlib.Omega.{arith}
use benchexec.Prelude.Tests.{◌==◌, leb, if◌then◌else◌}

abbrev pub Text : Type 0
Text = List ℕ

-- The code points of a literal.
abbrev pub codes : String → Text
codes String.[] = []
codes (String.◌∷◌ c s) = code c ∷ codes s

-- s == t
abbrev pub text_eq : Text → Text → Bool
text_eq [] [] = true
text_eq (a ∷ s) (b ∷ t) = a == b && text_eq s t
text_eq _ _ = false

-- s.startswith(p)
abbrev pub starts_with : Text → Text → Bool
starts_with s [] = true
starts_with [] (b ∷ p) = false
starts_with (a ∷ s) (b ∷ p) = a == b && starts_with s p

-- s.endswith(p): the last characters of s are those of p
abbrev pub ends_with : Text → Text → Bool
ends_with s p = starts_with (reverse s) (reverse p)

-- str.isspace of one character
unfoldable pub is_space : ℕ → Bool
is_space c =
    leb 0x09 c && leb c 0x0d
    || leb 0x1c c && leb c 0x20
    || c == 0x85
    || c == 0xa0
    || c == 0x1680
    || leb 0x2000 c && leb c 0x200a
    || leb 0x2028 c && leb c 0x2029
    || c == 0x202f
    || c == 0x205f
    || c == 0x3000

-- s.lstrip()
unfoldable pub lstrip : Text → Text
unfolding is_space
lstrip [] = []
lstrip (c ∷ s) = let rest = lstrip s in if is_space c then rest else c ∷ s

-- s.rstrip()
unfoldable pub rstrip : Text → Text
unfolding lstrip
rstrip s = reverse (lstrip (reverse s))

-- s.strip()
unfoldable pub strip : Text → Text
unfolding rstrip
strip s = rstrip (lstrip s)

abbrev cons_first : ℕ → List Text → List Text
cons_first c [] = (c ∷ []) ∷ []
cons_first c (s ∷ parts) = (c ∷ s) ∷ parts

-- s.split(sep) for a separator of one character
unfoldable pub split : ℕ → Text → List Text
split sep [] = [] ∷ []
split sep (c ∷ s) = let rest = split sep s in if c == sep then [] ∷ rest else cons_first c rest

pub text_eq→eq : (s t : Text) → text_eq s t ≡ true → s ≡ t
text_eq→eq [] [] h = refl
text_eq→eq [] (b ∷ t) h = ground arith
text_eq→eq (a ∷ s) [] h = ground arith
text_eq→eq (a ∷ s) (b ∷ t) h = ground (arith, text_eq→eq s t)

pub text_eq_self : (s : Text) → text_eq s s ≡ true
text_eq_self [] = refl
text_eq_self (a ∷ s) = ground (arith, text_eq_self s)

pub text_eq_iff : (s t : Text) → (text_eq s t ≡ true) ↔ (s ≡ t)
text_eq_iff s t = (text_eq→eq s t, λ e. rw e (text_eq_self t))

pub starts_with-append : (p s : Text) → starts_with (p ++ s) p ≡ true
starts_with-append [] s = refl
starts_with-append (a ∷ p) s = ground (arith, starts_with-append p s)

-- What follows the prefix.
pub starts_with-rest : (s p : Text) → starts_with s p ≡ true → (r : Text) × (s ≡ p ++ r)
starts_with-rest s [] h = (s, refl)
starts_with-rest [] (b ∷ p) h = ground arith
starts_with-rest (a ∷ s) (b ∷ p) h =
    let (r, e) = starts_with-rest s p (ground arith) in (r, ground arith)

pub ends_with-append : (s p : Text) → ends_with (s ++ p) p ≡ true
ends_with-append s p = rw (reverse-append s p) (starts_with-append (reverse p) (reverse s))

-- A text is empty or has a last character.
pub snoc_view : (s : Text) → (s ≡ []) ⊎ ((r : Text) × (d : ℕ) × (s ≡ r ++ d ∷ []))
snoc_view [] = inl refl
snoc_view (c ∷ s) = elim (snoc_view s) [
  | inl e ↦ inr ([], c, ap (λ t. c ∷ t) e)
  | inr (r, d, e) ↦ inr (c ∷ r, d, ap (λ t. c ∷ t) e)
]

-- The last character decides whether a text ends with a given character.
pub ends_with-snoc : (r : Text) (d c : ℕ) → ends_with (r ++ d ∷ []) (c ∷ []) ≡ (d == c && true)
ends_with-snoc r d c = rw (reverse-append r (d ∷ []))
