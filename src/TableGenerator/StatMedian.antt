-- ===== src/TableGenerator/StatMedian.antt =====
-- The median in StatValue.from_list of benchexec/tablegenerator/statistics.py: how many of the values are
-- at most, and how many are at least, this fraction.
use mathlib.Core.List.{Permᴰ}
use native.Mathlib.Nat.{mul-le-mul_right, add-mul}
use benchexec.Prelude.{
  ℕ, zero, suc, ◌≡◌, refl, ◌∙◌, Bool, true, false, List, [], ◌∷◌, arith, length, All, subst, ◌+◌,
  ◌*◌, ◌<◌, ◌≤◌, if◌then◌else◌, if-holds, not,
}
use benchexec.Prelude.Int.{ℤ, pos, ◌*ℤ◌, ltb_ℤ, negsuc, ◌≤ℤ◌, pos_part, neg_part, +ℤ_parts}
use benchexec.Prelude.Order.{IsSortedBy}
use benchexec.Prelude.Outcome.{returned, returned-injective}
use benchexec.TableGenerator.StatValue.{
  Decimal, minus_inf, inf, finite, Figure, ratio, le, nth_value, half_sum, figure_of,
}
use benchexec.TableGenerator.StatInfinite.{IsNumber, All-nth_value}

-- v <= m, for a value and a fraction
abbrev pub at_most : Figure → Decimal → Bool
at_most Figure.nan v = false
at_most m Decimal.nan = false
at_most m minus_inf = true
at_most Figure.inf v = true
at_most (ratio t n) (finite z) = not (ltb_ℤ t (z *ℤ pos n))
at_most m v = false

-- v >= m
abbrev pub at_least : Figure → Decimal → Bool
at_least Figure.nan v = false
at_least m Decimal.nan = false
at_least m inf = true
at_least Figure.minus_inf v = true
at_least (ratio t n) (finite z) = not (ltb_ℤ (z *ℤ pos n) t)
at_least m v = false

abbrev pub count : (Decimal → Bool) → List Decimal → ℕ
count p [] = 0
count p (v ∷ l) = (if p v then 1 else 0) + count p l

pub count-permuted :
    (p : Decimal → Bool) (xs ys : List Decimal) → Permᴰ xs ys → count p xs ≡ count p ys
count-permuted p xs ys Permᴰ.nil = refl
count-permuted p (x ∷ xs) (y ∷ ys) (Permᴰ.cons e d) = rw (e, count-permuted p xs ys d) refl
count-permuted p (a ∷ b ∷ xs) (c ∷ d ∷ ys) (Permᴰ.swap e f) = rw (e, f) (omega arith)
count-permuted p xs zs (Permᴰ.trans {l₂ = ys} d e) =
    count-permuted p xs ys d ∙ count-permuted p ys zs e

count-All : (p : Decimal → Bool) (l : List Decimal) → All (λ v. p v ≡ true) l → count p l ≡ length l
count-All p [] h = refl
count-All p (v ∷ l) h = rw h.0 (let rest = count-All p l h.1 in omega arith)

scale_pos : (z : ℤ) (n : ℕ) → pos_part (z *ℤ pos n) ≡ pos_part z * n
unfolding ◌*ℤ◌
scale_pos (pos a) n = ground arith
scale_pos (negsuc a) n = ground arith

scale_neg : (z : ℤ) (n : ℕ) → neg_part (z *ℤ pos n) ≡ neg_part z * n
unfolding ◌*ℤ◌
scale_neg (pos a) n = ground arith
scale_neg (negsuc a) n = ground arith

scale_sums : (a b c d n : ℕ) → a + b ≤ c + d → a * n + b * n ≤ c * n + d * n
scale_sums a b c d n h =
    let scaled = mul-le-mul_right n h in
    let left = add-mul a b n in let right = add-mul c d n in omega arith

scale_le : (a b : ℤ) (n : ℕ) → a ≤ℤ b → a *ℤ pos n ≤ℤ b *ℤ pos n
scale_le a b n h =
    rw (scale_pos a n, scale_pos b n, scale_neg a n, scale_neg b n)
      (scale_sums (pos_part a) (neg_part b) (pos_part b) (neg_part a) n h)

at_most-le :
    (m : Figure) (a b : Decimal)
    → IsNumber a
    → le a b ≡ true
    → at_most m b ≡ true
    → at_most m a ≡ true
at_most-le (ratio t d) (finite a) (finite b) n h g =
    let scaled = scale_le a b d (ground arith) in ground arith
at_most-le m a b n h g = ground arith

at_least-le :
    (m : Figure) (a b : Decimal) → le a b ≡ true → at_least m a ≡ true → at_least m b ≡ true
at_least-le (ratio t d) (finite a) (finite b) h g =
    let scaled = scale_le a b d (ground arith) in ground arith
at_least-le m a b h g = ground arith

abbrev pub IsBetween : Figure → Decimal → Decimal → Type 0
IsBetween m a b = (at_most m a ≡ true) × (at_least m b ≡ true)

-- The sum of two values, where it has one, lies between them.
pub half_sum-IsBetween :
    (a b : Decimal) (m : Figure)
    → IsNumber a
    → IsNumber b
    → le a b ≡ true
    → half_sum a b ≡ returned m
    → IsBetween m a b
half_sum-IsBetween (finite a) (finite b) m n k h g =
    let parts = +ℤ_parts a b in
    let pa = scale_pos a 2 in
    let na = scale_neg a 2 in
    let pb = scale_pos b 2 in
    let nb = scale_neg b 2 in
    let same = returned-injective g in
    subst (λ f. IsBetween f (finite a) (finite b)) same (ground arith, ground arith)
half_sum-IsBetween minus_inf minus_inf m n k h g =
    subst (λ f. IsBetween f minus_inf minus_inf) (returned-injective g) (refl, refl)
half_sum-IsBetween minus_inf (finite b) m n k h g =
    subst (λ f. IsBetween f minus_inf (finite b)) (returned-injective g) (refl, refl)
half_sum-IsBetween (finite a) inf m n k h g =
    subst (λ f. IsBetween f (finite a) inf) (returned-injective g) (refl, refl)
half_sum-IsBetween inf inf m n k h g =
    subst (λ f. IsBetween f inf inf) (returned-injective g) (refl, refl)
half_sum-IsBetween a b m n k h g = absurd (ground arith)

pub figure_of-IsBetween : (a : Decimal) → IsNumber a → IsBetween (figure_of a) a a
figure_of-IsBetween (finite z) h =
    let p = scale_pos z 1 in let n = scale_neg z 1 in (ground arith, ground arith)
figure_of-IsBetween a h = (ground arith, ground arith)

at_most-IsNumber : (m : Figure) (v : Decimal) → at_most m v ≡ true → IsNumber v
at_most-IsNumber m v h = ground arith

All-above :
    (m : Figure) (x : Decimal) (l : List Decimal)
    → All (λ y. le x y ≡ true) l
    → at_least m x ≡ true
    → All (λ y. at_least m y ≡ true) l
All-above m x [] h g = tt
All-above m x (y ∷ l) h g = (at_least-le m x y h.0 g, All-above m x l h.1 g)

-- The values up to a place in a sorted list are at most what that value is at most, and so from it on.
pub count-low :
    (m : Figure) (l : List Decimal) (i : ℕ)
    → All IsNumber l
    → IsSortedBy le l
    → i < length l
    → at_most m (nth_value l i) ≡ true
    → suc i ≤ count (at_most m) l
count-low m [] i all s h g = absurd (omega arith)
count-low m (x ∷ l) zero all s h g = rw g (omega arith)
count-low m (x ∷ l) (suc i) all s h g =
    let rest = count-low m l i all.1 s.1 (omega arith) g in
    let first : at_most m x ≡ true =
      at_most-le m x (nth_value l i) all.0
        (All-nth_value (λ y. le x y ≡ true) l i (nth_value l i) s.0 refl
          (at_most-IsNumber m (nth_value l i) g))
        g in
    rw first (omega arith)

pub count-high :
    (m : Figure) (l : List Decimal) (i : ℕ)
    → IsSortedBy le l
    → i < length l
    → at_least m (nth_value l i) ≡ true
    → length l ≤ count (at_least m) l + i
count-high m [] i s h g = absurd (omega arith)
count-high m (x ∷ l) zero s h g =
    let rest = count-All (at_least m) l (All-above m x l s.0 g) in rw g (omega arith)
count-high m (x ∷ l) (suc i) s h g =
    let rest = count-high m l i s.1 (omega arith) g in
    if-holds (λ k. suc (length l) ≤ k + count (at_least m) l + suc i) (at_least m x)
      (λ first. omega arith) (λ first. omega arith)
