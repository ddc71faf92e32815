-- ===== src/Prelude/Order.antt =====
-- sorted of Python for values with a total order: the result does not depend on the order of the list.
use Prim.Native.Nat.{suc}
use mathlib.Core.Path.{◌≡◌, refl, ap, ◌∙◌, sym, subst}
use mathlib.Core.Logic.{inl, inr}
use mathlib.Core.Bool.{Bool, true, false}
use mathlib.Core.List.{List, [], ◌∷◌, Permᴰ}
use mathlib.Core.List.Permᴰ
use benchexec.Prelude.Tests.{if◌then◌else◌, Bool-cases, if-holds}
use benchexec.Prelude.Lists.{length, All}

pub record IsTotalOrder {A : Type 0} (le : A → A → Bool) : Type 0 where
  pub total : (a b : A) → le a b ≡ false → le b a ≡ true
  pub antisym : (a b : A) → le a b ≡ true → le b a ≡ true → a ≡ b
  pub transitive : (a b c : A) → le a b ≡ true → le b c ≡ true → le a c ≡ true

module _ {A : Type 0} (le : A → A → Bool) where
  abbrev pub insert_by : A → List A → List A
  insert_by a [] = a ∷ []
  insert_by a (x ∷ xs) = let rest = insert_by a xs in if le a x then a ∷ x ∷ xs else x ∷ rest

  unfoldable pub sort_by : List A → List A
  sort_by [] = []
  sort_by (x ∷ xs) = insert_by x (sort_by xs)

  -- Each element is at most all that follow.
  abbrev pub IsSortedBy : List A → Type 0
  IsSortedBy [] = Unit
  IsSortedBy (x ∷ xs) = All (λ y. le x y ≡ true) xs × IsSortedBy xs

  module _ (o : IsTotalOrder le) where
    insert_smaller :
        (a b : A) (xs : List A)
        → le a b ≡ true
        → le b a ≡ false
        → insert_by a (insert_by b xs) ≡ insert_by b (insert_by a xs)
    insert_smaller a b [] h g = rw (h, g) refl
    insert_smaller a b (x ∷ xs) h g = elim (Bool-cases (le b x)) [
      | inl low ↦
          (let small : le a x ≡ true = o.transitive a b x h low in
            rw (low, small, h, g) (rw low refl))
      | inr high ↦ elim (Bool-cases (le a x)) [
        | inl small ↦ rw (high, small, g) (rw high refl)
        | inr large ↦ rw (high, large, high) (ap (λ l. x ∷ l) (insert_smaller a b xs h g))
      ]
    ]

    insert_by_comm :
        (a b : A) (xs : List A) → insert_by a (insert_by b xs) ≡ insert_by b (insert_by a xs)
    insert_by_comm a b xs = elim (Bool-cases (le a b)) [
      | inl h ↦ elim (Bool-cases (le b a)) [
        | inl g ↦ (let same : a ≡ b = o.antisym a b h g in rw same refl)
        | inr g ↦ insert_smaller a b xs h g
      ]
      | inr h ↦ sym (insert_smaller b a xs (o.total a b h) h)
    ]

    pub sort_by-permuted : (xs ys : List A) → Permᴰ xs ys → sort_by xs ≡ sort_by ys
    unfolding sort_by
    sort_by-permuted xs ys Permᴰ.nil = refl
    sort_by-permuted (x ∷ xs) (y ∷ ys) (Permᴰ.cons e p) = rw (e, sort_by-permuted xs ys p) refl
    sort_by-permuted (a ∷ b ∷ xs) (c ∷ d ∷ ys) (Permᴰ.swap e f) =
        rw (e, f) (insert_by_comm d c (sort_by xs))
    sort_by-permuted xs zs (Permᴰ.trans {l₂ = ys} p q) =
        sort_by-permuted xs ys p ∙ sort_by-permuted ys zs q

    All-insert_by : (P : A → Type 0) (a : A) (xs : List A) → P a → All P xs → All P (insert_by a xs)
    All-insert_by P a [] p h = (p, tt)
    All-insert_by P a (x ∷ xs) p h =
        if-holds (All P) (le a x) (λ small. (p, h)) (λ large. (h.0, All-insert_by P a xs p h.1))

    All-smaller :
        (a x : A) (xs : List A)
        → le a x ≡ true
        → All (λ y. le x y ≡ true) xs
        → All (λ y. le a y ≡ true) xs
    All-smaller a x [] h all = tt
    All-smaller a x (y ∷ xs) h all = (o.transitive a x y h all.0, All-smaller a x xs h all.1)

    insert_by-IsSortedBy : (a : A) (xs : List A) → IsSortedBy xs → IsSortedBy (insert_by a xs)
    insert_by-IsSortedBy a [] h = (tt, tt)
    insert_by-IsSortedBy a (x ∷ xs) h =
        if-holds IsSortedBy (le a x) (λ small. ((small, All-smaller a x xs small h.0), h))
          (λ large. (
            All-insert_by (λ y. le x y ≡ true) a xs (o.total a x large) h.0,
            insert_by-IsSortedBy a xs h.1,
          ))

    pub sort_by-IsSortedBy : (xs : List A) → IsSortedBy (sort_by xs)
    unfolding sort_by
    sort_by-IsSortedBy [] = tt
    sort_by-IsSortedBy (x ∷ xs) = insert_by-IsSortedBy x (sort_by xs) (sort_by-IsSortedBy xs)

  length-insert_by : (a : A) (xs : List A) → length (insert_by a xs) ≡ suc (length xs)
  length-insert_by a [] = refl
  length-insert_by a (x ∷ xs) =
      if-holds (λ l. length l ≡ suc (suc (length xs))) (le a x) (λ small. refl)
        (λ large. ap suc (length-insert_by a xs))

  pub length-sort_by : (xs : List A) → length (sort_by xs) ≡ length xs
  unfolding sort_by
  length-sort_by [] = refl
  length-sort_by (x ∷ xs) = length-insert_by x (sort_by xs) ∙ ap suc (length-sort_by xs)

-- A sorted list is left as it is, and every list is permuted.
module _ {A : Type 0} (le : A → A → Bool) where
  insert_by-head : (a : A) (xs : List A) → All (λ y. le a y ≡ true) xs → insert_by le a xs ≡ a ∷ xs
  insert_by-head a [] h = refl
  insert_by-head a (x ∷ xs) h = rw h.0 refl

  pub sort_by-sorted : (xs : List A) → IsSortedBy le xs → sort_by le xs ≡ xs
  unfolding sort_by
  sort_by-sorted [] h = refl
  sort_by-sorted (x ∷ xs) h = rw (sort_by-sorted xs h.1) (insert_by-head x xs h.0)

  Perm-insert_by : (a : A) (xs : List A) → Permᴰ (a ∷ xs) (insert_by le a xs)
  Perm-insert_by a [] = Permᴰ.refl (a ∷ [])
  Perm-insert_by a (x ∷ xs) =
      if-holds (λ l. Permᴰ (a ∷ x ∷ xs) l) (le a x) (λ small. Permᴰ.refl (a ∷ x ∷ xs))
        (λ large. Permᴰ.trans (Permᴰ.swap refl refl) (Permᴰ.cons refl (Perm-insert_by a xs)))

  pub Perm-sort_by : (xs : List A) → Permᴰ xs (sort_by le xs)
  unfolding sort_by
  Perm-sort_by [] = Permᴰ.nil
  Perm-sort_by (x ∷ xs) =
      Permᴰ.trans (Permᴰ.cons refl (Perm-sort_by xs)) (Perm-insert_by x (sort_by le xs))

pub All-permuted :
    {A : Type 0} (P : A → Type 0) (xs ys : List A) → Permᴰ xs ys → All P xs → All P ys
All-permuted P xs ys Permᴰ.nil h = h
All-permuted P (x ∷ xs) (y ∷ ys) (Permᴰ.cons e p) h = (subst P e h.0, All-permuted P xs ys p h.1)
All-permuted P (a ∷ b ∷ xs) (c ∷ d ∷ ys) (Permᴰ.swap e f) h =
    (subst P f h.1.0, (subst P e h.0, h.1.1))
All-permuted P xs zs (Permᴰ.trans {l₂ = ys} p q) h =
    All-permuted P ys zs q (All-permuted P xs ys p h)
