-- ===== src/Prelude/Dict.antt =====
-- Keys with an equality test, and Python's dict with such keys: the entries in the order of their
-- insertion, one for each key.
use Prim.Native.Nat.{ℕ}
use mathlib.Core.Path.{◌≡◌, refl, ap}
use mathlib.Core.Logic.{◌↔◌, inl, inr}
use mathlib.Core.Bool.{Bool, true, false, ◌&&◌, ◌||◌, not}
use mathlib.Core.Option.{Option, none, some}
use mathlib.Core.List.{List, [], ◌∷◌, ◌++◌}
use native.Mathlib.Omega.{arith}
use benchexec.Prelude.Tests.{◌==◌, ==_iff, if◌then◌else◌, Bool-cases}
use benchexec.Prelude.Strings.{Text, text_eq, text_eq_iff}

pub record Eq {ℓ} (A : Type ℓ) : Type ℓ where
  pub beq : A → A → Bool
  pub beq_iff : (a b : A) → (beq a b ≡ true) ↔ (a ≡ b)

instance abbrev pub nat_eq : Eq ℕ
nat_eq = record { beq = ◌==◌; beq_iff = ==_iff }

instance abbrev pub text_key : Eq Text
text_key = record { beq = text_eq; beq_iff = text_eq_iff }

module _ {ℓ} {A : Type ℓ} ⦃e : Eq A⦄ where
  -- a in xs
  unfoldable pub member : A → List A → Bool
  member a [] = false
  member a (x ∷ xs) = e.beq a x || member a xs

  pub member-append : (a : A) (xs ys : List A) → member a (xs ++ ys) ≡ (member a xs || member a ys)
  unfolding member
  member-append a [] ys = refl
  member-append a (x ∷ xs) ys = ground (arith, member-append a xs ys)

  -- No element stands twice.
  abbrev pub Distinct : List A → Type 0
  Distinct [] = Unit
  Distinct (x ∷ xs) = (member x xs ≡ false) × Distinct xs

  -- [x for x in xs if x not in ys]
  unfoldable pub without : List A → List A → List A
  unfolding member
  without ys [] = []
  without ys (x ∷ xs) = let rest = without ys xs in if member x ys then rest else x ∷ rest

  -- [x for x in xs if x in ys]
  unfoldable pub within : List A → List A → List A
  unfolding member
  within ys [] = []
  within ys (x ∷ xs) = let rest = within ys xs in if member x ys then x ∷ rest else rest

  pub member-within :
      (a : A) (ys xs : List A) → member a (within ys xs) ≡ (member a xs && member a ys)
  unfolding member within
  member-within a ys [] = refl
  member-within a ys (x ∷ xs) = elim (Bool-cases (e.beq a x)) [
    | inl same ↦
        let here : member a ys ≡ member x ys =
          ap (λ (z : A). member z ys) ((e.beq_iff a x).0 same) in
        ground (arith, member-within a ys xs)
    | inr other ↦ ground (arith, member-within a ys xs)
  ]

  pub member-without :
      (a : A) (ys xs : List A) → member a (without ys xs) ≡ (member a xs && not (member a ys))
  unfolding member without
  member-without a ys [] = refl
  member-without a ys (x ∷ xs) = elim (Bool-cases (e.beq a x)) [
    | inl same ↦
        let here : member a ys ≡ member x ys =
          ap (λ (z : A). member z ys) ((e.beq_iff a x).0 same) in
        ground (arith, member-without a ys xs)
    | inr other ↦ ground (arith, member-without a ys xs)
  ]

module _ {ℓ κ} {K : Type ℓ} {V : Type κ} ⦃e : Eq K⦄ where
  -- d.get(k)
  unfoldable pub get : K → List (K × V) → Option V
  get k [] = none
  get k ((j, v) ∷ d) = if e.beq k j then some v else get k d

  -- d[k] = v: a key that is there keeps its place.
  unfoldable pub assign : K → V → List (K × V) → List (K × V)
  assign k v [] = (k, v) ∷ []
  assign k v ((j, w) ∷ d) = if e.beq k j then (j, v) ∷ d else (j, w) ∷ assign k v d

  -- d.pop(k), of a key that is there or not
  unfoldable pub remove : K → List (K × V) → List (K × V)
  remove k [] = []
  remove k ((j, w) ∷ d) = if e.beq k j then d else (j, w) ∷ remove k d

  pub get-assign :
      (k j : K) (v : V) (d : List (K × V))
      → get j (assign k v d) ≡ (if e.beq j k then some v else get j d)
  unfolding get assign
  get-assign k j v [] = refl
  get-assign k j v ((i, w) ∷ d) =
      ground (arith, e.beq_iff k i, e.beq_iff j i, e.beq_iff j k, get-assign k j v d)

abbrev pub keys {ℓ κ} : {K : Type ℓ} {V : Type κ} → List (K × V) → List K
keys [] = []
keys ((k, v) ∷ d) = k ∷ keys d

abbrev pub values {ℓ κ} : {K : Type ℓ} {V : Type κ} → List (K × V) → List V
values [] = []
values ((k, v) ∷ d) = v ∷ values d

-- A dict, where each key stands once, after a key is taken out.
module _ {ℓ κ} {K : Type ℓ} {V : Type κ} ⦃e : Eq K⦄ where
  get-other : (k : K) (d : List (K × V)) → member k (keys d) ≡ false → get k d ≡ none
  unfolding get member
  get-other k [] h = refl
  get-other k ((j, v) ∷ d) h = ground (arith, get-other k d)

  pub get-remove :
      (j k : K) (d : List (K × V))
      → Distinct (keys d)
      → get j (remove k d) ≡ (if e.beq j k then none else get j d)
  unfolding get remove
  get-remove j k [] h = ground arith
  get-remove j k ((i, w) ∷ d) h =
      ground (
        arith,
        e.beq_iff k i,
        e.beq_iff j i,
        e.beq_iff j k,
        get-remove j k d h.1,
        get-other i d h.0,
      )

  member-keys-remove :
      (j k : K) (d : List (K × V))
      → member j (keys d) ≡ false
      → member j (keys (remove k d)) ≡ false
  unfolding remove member
  member-keys-remove j k [] h = refl
  member-keys-remove j k ((i, w) ∷ d) h = ground (arith, member-keys-remove j k d)

  pub Distinct-remove :
      (k : K) (d : List (K × V)) → Distinct (keys d) → Distinct (keys (remove k d))
  unfolding remove
  Distinct-remove k [] h = tt
  Distinct-remove k ((i, w) ∷ d) h = elim (Bool-cases (e.beq k i)) [
    | inl same ↦ rw same h.1
    | inr other ↦ rw other (member-keys-remove i k d h.0, Distinct-remove k d h.1)
  ]
