-- ===== src/Container/Decoded.antt =====
-- get_mount_points of benchexec/container.py reads back what Linux writes into /proc/self/mounts.
use benchexec.Prelude.{
  ℕ, ◌≡◌, refl, sym, ap, subst, ◌∙◌, inl, inr, Bool, true, false, [], ◌∷◌, ◌++◌, Text, codes, ◌==◌,
  ==_iff, Bool-cases, if◌then◌else◌, All-append, split,
}
use benchexec.Prelude.Replace.{
  replace_from, replace, replace-other, IsWithout, split-IsWithout, split-append,
}
use benchexec.Prelude.Outcome.{returned}
use benchexec.Container.MountTable.{decode_path, mount_of, parse_mount}

-- Which of the four characters are escaped.
record Escaped : Type 0 where
  tab : Bool
  space : Bool
  newline : Bool

-- A backslash is always escaped.
abbrev token : Escaped → ℕ → Text
token e c =
    if c == 0x09
    then (if e.tab then 92 ∷ codes "011" else 0x09 ∷ [])
    else if c == 0x20
    then (if e.space then 92 ∷ codes "040" else 0x20 ∷ [])
    else if c == 0x0a
    then (if e.newline then 92 ∷ codes "012" else 0x0a ∷ [])
    else if c == 92
    then 92 ∷ codes "134"
    else c ∷ []

abbrev escape : (ℕ → Text) → Text → Text
escape written [] = []
escape written (c ∷ s) = written c ++ escape written s

abbrev all_escaped : Escaped
all_escaped = record { tab = true; space = true; newline = true }

-- The path as Linux writes it: tab, space, newline and backslash as a backslash and three octal digits.
abbrev pub escaped_path : Text → Text
escaped_path path = escape (token all_escaped) path

-- A property of every character, from the four that are escaped and the others.
by_char :
    (P : ℕ → Type 0)
    → P 0x09
    → P 0x20
    → P 0x0a
    → P 92
    → ((c : ℕ)
        → (c == 0x09) ≡ false
        → (c == 0x20) ≡ false
        → (c == 0x0a) ≡ false
        → (c == 92) ≡ false
        → P c)
    → (c : ℕ) → P c
by_char P tab space newline backslash other c = elim (Bool-cases (c == 0x09)) [
  | inl e ↦ subst P (sym ((==_iff c 0x09).0 e)) tab
  | inr t ↦ elim (Bool-cases (c == 0x20)) [
    | inl e ↦ subst P (sym ((==_iff c 0x20).0 e)) space
    | inr s ↦ elim (Bool-cases (c == 0x0a)) [
      | inl e ↦ subst P (sym ((==_iff c 0x0a).0 e)) newline
      | inr n ↦ elim (Bool-cases (c == 92)) [
        | inl e ↦ subst P (sym ((==_iff c 92).0 e)) backslash
        | inr b ↦ other c t s n b
      ]
    ]
  ]
]

-- One replacement turns one escaping into another, character by character.
module _ (old new : Text) (before after : ℕ → Text) where
  IsStep : ℕ → Type 0
  IsStep c =
      (rest : Text)
      → replace (92 ∷ old) new (before c ++ rest) ≡ after c ++ replace (92 ∷ old) new rest

  replace_all :
      ((c : ℕ) → IsStep c) → (s : Text) → replace (92 ∷ old) new (escape before s) ≡ escape after s
  unfolding IsStep replace_from
  replace_all step [] = refl
  replace_all step (c ∷ s) = step c (escape before s) ∙ ap (λ t. after c ++ t) (replace_all step s)

IsStep-other :
    (old new : Text) (e f : Escaped) (c : ℕ)
    → (c == 0x09) ≡ false
    → (c == 0x20) ≡ false
    → (c == 0x0a) ≡ false
    → (c == 92) ≡ false
    → IsStep old new (token e) (token f) c
unfolding IsStep
IsStep-other old new e f c t s n b rest = rw (t, s, n, b) (replace-other 92 c old new rest b)

abbrev without_tab : Escaped
without_tab = record { tab = false; space = true; newline = true }

abbrev newline_only : Escaped
newline_only = record { tab = false; space = false; newline = true }

abbrev backslash_only : Escaped
backslash_only = record { tab = false; space = false; newline = false }

tab-IsStep : (c : ℕ) → IsStep (codes "011") (0x09 ∷ []) (token all_escaped) (token without_tab) c
unfolding IsStep replace_from
tab-IsStep =
    by_char (IsStep (codes "011") (0x09 ∷ []) (token all_escaped) (token without_tab))
      (λ rest. refl) (λ rest. refl) (λ rest. refl) (λ rest. refl)
      (IsStep-other (codes "011") (0x09 ∷ []) all_escaped without_tab)

space-IsStep : (c : ℕ) → IsStep (codes "040") (0x20 ∷ []) (token without_tab) (token newline_only) c
unfolding IsStep replace_from
space-IsStep =
    by_char (IsStep (codes "040") (0x20 ∷ []) (token without_tab) (token newline_only))
      (λ rest. refl) (λ rest. refl) (λ rest. refl) (λ rest. refl)
      (IsStep-other (codes "040") (0x20 ∷ []) without_tab newline_only)

newline-IsStep :
    (c : ℕ) → IsStep (codes "012") (0x0a ∷ []) (token newline_only) (token backslash_only) c
unfolding IsStep replace_from
newline-IsStep =
    by_char (IsStep (codes "012") (0x0a ∷ []) (token newline_only) (token backslash_only))
      (λ rest. refl) (λ rest. refl) (λ rest. refl) (λ rest. refl)
      (IsStep-other (codes "012") (0x0a ∷ []) newline_only backslash_only)

backslash_end :
    (c : ℕ)
    → (c == 0x09) ≡ false
    → (c == 0x20) ≡ false
    → (c == 0x0a) ≡ false
    → (c == 92) ≡ false
    → IsStep (codes "134") (92 ∷ []) (token backslash_only) (λ d. d ∷ []) c
unfolding IsStep
backslash_end c t s n b rest = rw (t, s, n, b) (replace-other 92 c (codes "134") (92 ∷ []) rest b)

backslash-IsStep : (c : ℕ) → IsStep (codes "134") (92 ∷ []) (token backslash_only) (λ d. d ∷ []) c
unfolding IsStep replace_from
backslash-IsStep =
    by_char (IsStep (codes "134") (92 ∷ []) (token backslash_only) (λ d. d ∷ [])) (λ rest. refl)
      (λ rest. refl) (λ rest. refl) (λ rest. refl) backslash_end

escape_plain : (s : Text) → escape (λ d. d ∷ []) s ≡ s
escape_plain [] = refl
escape_plain (c ∷ s) = ap (λ t. c ∷ t) (escape_plain s)

decode_path-escaped_path : (path : Text) → decode_path (escaped_path path) ≡ path
unfolding decode_path
decode_path-escaped_path path =
    ap
      (λ t.
        replace (92 ∷ codes "134") (92 ∷ [])
          (replace (92 ∷ codes "012") (0x0a ∷ []) (replace (92 ∷ codes "040") (0x20 ∷ []) t)))
      (replace_all (codes "011") (0x09 ∷ []) (token all_escaped) (token without_tab) tab-IsStep
        path)
    ∙ ap (λ t. replace (92 ∷ codes "134") (92 ∷ []) (replace (92 ∷ codes "012") (0x0a ∷ []) t))
        (replace_all (codes "040") (0x20 ∷ []) (token without_tab) (token newline_only) space-IsStep
          path)
    ∙ ap (λ t. replace (92 ∷ codes "134") (92 ∷ []) t)
        (replace_all (codes "012") (0x0a ∷ []) (token newline_only) (token backslash_only)
          newline-IsStep path)
    ∙ replace_all (codes "134") (92 ∷ []) (token backslash_only) (λ d. d ∷ []) backslash-IsStep path
    ∙ escape_plain path

-- An escaped path has no space.
token-IsWithout : (c : ℕ) → IsWithout b' ' (token all_escaped c)
token-IsWithout =
    by_char (λ c. IsWithout b' ' (token all_escaped c)) (refl, (refl, (refl, (refl, tt))))
      (refl, (refl, (refl, (refl, tt)))) (refl, (refl, (refl, (refl, tt))))
      (refl, (refl, (refl, (refl, tt)))) (λ c t s n b. rw (t, s, n, b) (s, tt))

escaped_path-IsWithout : (path : Text) → IsWithout b' ' (escaped_path path)
escaped_path-IsWithout [] = tt
escaped_path-IsWithout (c ∷ s) =
    All-append (λ d. (d == b' ') ≡ false) (token all_escaped c) (escaped_path s) (token-IsWithout c)
      (escaped_path-IsWithout s)

-- A line of /proc/self/mounts.
abbrev pub mount_line : Text → Text → Text → Text → Text → Text → Text
mount_line source target fstype options freq passno =
    escaped_path source
    ++ b' '
      ∷ (escaped_path target
          ++ b' ' ∷ (fstype ++ b' ' ∷ (options ++ b' ' ∷ (freq ++ b' ' ∷ passno))))

-- A line of /proc/self/mounts, with the paths escaped as Linux does it and no space in the other
-- fields, is read as the paths themselves, whatever their characters are, the file system, and the
-- options between the commas.
pub parse_mount-mount_line :
    (source target fstype options freq passno : Text)
    → IsWithout b' ' fstype
    → IsWithout b' ' options
    → IsWithout b' ' freq
    → IsWithout b' ' passno
    → parse_mount (mount_line source target fstype options freq passno)
      ≡ returned (record {
        source = source;
        target = target;
        fstype = fstype;
        options = split b',' options;
      })
unfolding parse_mount
parse_mount-mount_line source target fstype options freq passno hf ho hq hp =
    ap mount_of (
      split-append b' ' (escaped_path source) _ (escaped_path-IsWithout source)
      ∙ ap (λ l. escaped_path source ∷ l)
          (split-append b' ' (escaped_path target) _ (escaped_path-IsWithout target)
            ∙ ap (λ l. escaped_path target ∷ l)
                (split-append b' ' fstype _ hf
                  ∙ ap (λ l. fstype ∷ l)
                      (split-append b' ' options _ ho
                        ∙ ap (λ l. options ∷ l)
                            (split-append b' ' freq passno hq
                              ∙ ap (λ l. freq ∷ l) (split-IsWithout b' ' passno hp))))))
    ∙ ap
        (λ d. returned (record {
          source = d;
          target = decode_path (escaped_path target);
          fstype = fstype;
          options = split b',' options;
        }))
        (decode_path-escaped_path source)
    ∙ ap
        (λ d.
          returned
            (record { source = source; target = d; fstype = fstype; options = split b',' options }))
        (decode_path-escaped_path target)
