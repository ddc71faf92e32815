-- ===== src/Container/Below.antt =====
-- The order of directories by path_is_below of benchexec/util.py.
use benchexec.Prelude.{
  ◌+◌, ◌≡◌, ◌≤◌, ◌<◌, refl, sym, ap, subst, ◌∙◌, ◌⊎◌, inl, inr, true, false, [], ◌∷◌, ◌++◌, length,
  length-append, Text, codes, starts_with, ends_with, ends_with-append, Bool-cases, leb, leb→le,
  arith,
}
use benchexec.Container.Modes.{with_slash, path_is_below}

-- Of two prefixes of a text, the shorter is a prefix of the longer.
prefixes_nested :
    (s a b : Text)
    → starts_with s a ≡ true
    → starts_with s b ≡ true
    → length a ≤ length b
    → starts_with b a ≡ true
prefixes_nested s [] b ha hb h = refl
prefixes_nested s (x ∷ a) [] ha hb h = absurd (omega arith)
prefixes_nested [] (x ∷ a) (y ∷ b) ha hb h = cc
prefixes_nested (z ∷ s) (x ∷ a) (y ∷ b) ha hb h =
    let rest = prefixes_nested s a b in ground (arith, rest)

-- A prefix of a ++ b that is as long as a is a.
prefix-of_append : (a b s : Text) → starts_with (a ++ b) s ≡ true → length s ≡ length a → s ≡ a
prefix-of_append [] b [] h e = refl
prefix-of_append [] b (x ∷ s) h e = absurd (omega arith)
prefix-of_append (y ∷ a) b [] h e = absurd (omega arith)
prefix-of_append (y ∷ a) b (x ∷ s) h e = let rest = prefix-of_append a b s in ground (arith, rest)

-- A slash is added, or not.
with_slash_cases :
    (t : Text)
    → (with_slash t ≡ t) ⊎ ((with_slash t ≡ t ++ codes "/") × (ends_with t (codes "/") ≡ false))
with_slash_cases [] = inl refl
with_slash_cases (c ∷ s) = elim (Bool-cases (ends_with (c ∷ s) (codes "/"))) [
  | inl there ↦ inl (rw there)
  | inr missing ↦ inr (rw missing (refl, refl))
]

with_slash_ends : (t : Text) → (with_slash t ≡ []) ⊎ (ends_with (with_slash t) (codes "/") ≡ true)
with_slash_ends [] = inl refl
with_slash_ends (c ∷ s) = inr (elim (Bool-cases (ends_with (c ∷ s) (codes "/"))) [
  | inl there ↦ (rw there there)
  | inr missing ↦ (rw missing (ends_with-append (c ∷ s) (codes "/")))
])

module _ (d d' : Text) where
  -- Where the text of d with its slash is a prefix of that of d', and d is not shorter, then d' is not
  -- longer with its slash either.
  not_longer :
      starts_with (with_slash d') (with_slash d) ≡ true
      → length d' ≤ length d
      → length (with_slash d) < length (with_slash d')
      → ⊥
  not_longer nested shorter longer = elim (with_slash_cases d') [
    | inl plain ↦ elim (with_slash_cases d) [
      | inl same ↦ (let p = ap length plain in let q = ap length same in omega arith)
      | inr (added, _) ↦
          (let p = ap length plain in
            let q = ap length added ∙ length-append d (codes "/") in omega arith)
    ]
    | inr (added', bare) ↦ elim (with_slash_cases d) [
      | inl same ↦
          (let q = ap length same in
            let p = ap length added' ∙ length-append d' (codes "/") in
            let equal : with_slash d ≡ d' =
              prefix-of_append d' (codes "/") (with_slash d)
                (subst (λ t. starts_with t (with_slash d) ≡ true) added' nested) (omega arith) in
            ends_differ equal bare p)
      | inr (added, _) ↦
          (let q = ap length added ∙ length-append d (codes "/") in
            let p = ap length added' ∙ length-append d' (codes "/") in omega arith)
    ]
  ]
    where
      ends_differ :
          with_slash d ≡ d'
          → ends_with d' (codes "/") ≡ false
          → length (with_slash d') ≡ length d' + 1
          → ⊥
      ends_differ equal bare long = elim (with_slash_ends d) [
        | inl empty ↦
            (let nothing : d' ≡ [] = sym equal ∙ empty in
              let p = ap (λ t. length (with_slash t)) nothing in omega arith)
        | inr slash ↦
            (let there : ends_with d' (codes "/") ≡ true =
                subst (λ t. ends_with t (codes "/") ≡ true) equal slash in
              cc)
      ]

-- Of two directories that contain a path, the longer one is below the other.
pub path_is_below_nested :
    (path d d' : Text)
    → path_is_below path d ≡ true
    → path_is_below path d' ≡ true
    → length d' ≤ length d
    → path_is_below d d' ≡ true
unfolding path_is_below
path_is_below_nested path d d' h h' shorter =
    elim (Bool-cases (leb (length (with_slash d')) (length (with_slash d)))) [
      | inl fits ↦
          prefixes_nested (with_slash path) (with_slash d') (with_slash d) h' h
            (leb→le (length (with_slash d')) (length (with_slash d)) fits)
      | inr longer ↦ absurd (
          let less : length (with_slash d) < length (with_slash d') = ground arith in
          not_longer d d'
            (prefixes_nested (with_slash path) (with_slash d) (with_slash d') h h' (omega arith))
            shorter less)
    ]
