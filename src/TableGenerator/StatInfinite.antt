-- ===== src/TableGenerator/StatInfinite.antt =====
-- Infinite values in StatValue.from_list of benchexec/tablegenerator/statistics.py: the median adds the
-- two values in the middle, which has no result for -inf and +inf.
use benchexec.Prelude.{
  ℕ, zero, suc, ◌≡◌, refl, ap, ◌∙◌, true, false, some, List, [], ◌∷◌, ◌++◌, arith, replicate,
  length, All, ◌⊎◌, inl, inr, subst, ◌+◌, ◌-◌, ◌/◌, ◌%◌, ◌==◌, length-append, length-replicate,
}
use benchexec.Prelude.Order.{IsSortedBy}
use benchexec.Prelude.Outcome.{raised}
use benchexec.TableGenerator.StatValue.{
  Decimal, minus_inf, inf, le, is_nan, nth_value, half_sum, invalid_operation,
}

abbrev pub IsNumber : Decimal → Type 0
IsNumber v = is_nan (some v) ≡ false

-- n + 1 times -inf and n + 1 times +inf
abbrev pub halves : ℕ → List Decimal
halves n = replicate (suc n) minus_inf ++ replicate (suc n) inf

top_only : (v : Decimal) → le inf v ≡ true → v ≡ inf
top_only v h = ground arith

bottom_only : (v : Decimal) → IsNumber v → le v minus_inf ≡ true → v ≡ minus_inf
bottom_only v n h = ground arith

pub All-nth_value :
    (P : Decimal → Type 0) (l : List Decimal) (i : ℕ) (v : Decimal)
    → All P l
    → nth_value l i ≡ v
    → IsNumber v
    → P v
All-nth_value P [] i v all e n =
    let same : true ≡ false = ap (λ w. is_nan (some w)) e ∙ n in absurd (ground arith)
All-nth_value P (x ∷ l) zero v all e n = subst P e all.0
All-nth_value P (x ∷ l) (suc i) v all e n = All-nth_value P l i v all.1 e n

from_top : (l : List Decimal) → All (λ y. le inf y ≡ true) l → l ≡ replicate (length l) inf
from_top [] h = refl
from_top (v ∷ l) h =
    let first : v ≡ inf = top_only v h.0 in
    let others : l ≡ replicate (length l) inf = from_top l h.1 in
    rw first (ap (λ r. inf ∷ r) others)

pub nth_value-le :
    (l : List Decimal) (i : ℕ) (a b : Decimal)
    → IsSortedBy le l
    → nth_value l i ≡ a
    → nth_value l (suc i) ≡ b
    → IsNumber a
    → IsNumber b
    → le a b ≡ true
nth_value-le [] i a b s e f n m = absurd (ground arith)
nth_value-le (x ∷ l) zero a b s e f n m =
    subst (λ y. le y b ≡ true) e (All-nth_value (λ y. le x y ≡ true) l 0 b s.0 f m)
nth_value-le (x ∷ l) (suc i) a b s e f n m = nth_value-le l i a b s.1 e f n m

halves_around :
    (i : ℕ) (l : List Decimal)
    → All IsNumber l
    → IsSortedBy le l
    → nth_value l i ≡ minus_inf
    → nth_value l (suc i) ≡ inf
    → (k : ℕ) × (l ≡ replicate (suc i) minus_inf ++ replicate (suc k) inf)
halves_around i [] all s e f = absurd (ground arith)
halves_around zero (x ∷ []) all s e f = absurd (ground arith)
halves_around zero (x ∷ y ∷ l) all s e f =
    let others = from_top l (subst (λ z. All (λ y. le z y ≡ true) l) f s.1.0) in
    (length l, rw (e, f) (ap (λ r. minus_inf ∷ inf ∷ r) others))
halves_around (suc i) (x ∷ l) all s e f =
    let found = halves_around i l all.1 s.1 e f in
    let first = bottom_only x all.0 (All-nth_value (λ y. le x y ≡ true) l i minus_inf s.0 e refl) in
    (found.0, rw first (ap (λ r. minus_inf ∷ r) found.1))

half_sum_raised :
    (a b : Decimal)
    → half_sum a b ≡ raised invalid_operation
    → ((a ≡ minus_inf) × (b ≡ inf)) ⊎ ((a ≡ inf) × (b ≡ minus_inf))
half_sum_raised minus_inf inf h = inl (refl, refl)
half_sum_raised inf minus_inf h = inr (refl, refl)
half_sum_raised a b h = ground arith

pub odd_half : (n : ℕ) → (n % 2 == 1) ≡ false → n / 2 + n / 2 ≡ n
odd_half n h = ground arith

unfoldable pub around : ℕ → ℕ → List Decimal
around i k = replicate (suc i) minus_inf ++ replicate (suc k) inf

pub length-around : (i k : ℕ) → length (around i k) ≡ suc i + suc k
unfolding around
length-around i k =
    let low : List Decimal = replicate (suc i) minus_inf in
    let high : List Decimal = replicate (suc k) inf in
    let a = length-append low high in
    let b : length low ≡ suc i = length-replicate (suc i) Decimal.minus_inf in
    let c : length high ≡ suc k = length-replicate (suc k) Decimal.inf in omega arith

differ : (v : Decimal) → v ≡ minus_inf → v ≡ inf → ⊥
differ v e f = ground arith

descending :
    (i : ℕ) (l : List Decimal)
    → IsSortedBy le l
    → nth_value l i ≡ inf
    → nth_value l (suc i) ≡ minus_inf
    → ⊥
descending i l s e f = let up = nth_value-le l i inf minus_inf s e f refl refl in ground arith

pub middle_pair :
    (h : ℕ) (l : List Decimal)
    → All IsNumber l
    → IsSortedBy le l
    → h + h ≡ length l
    → half_sum (nth_value l (h - 1)) (nth_value l h) ≡ raised invalid_operation
    → (n : ℕ) × (l ≡ halves n)
unfolding around
middle_pair zero l all s e r = elim (half_sum_raised (nth_value l 0) (nth_value l 0) r) [
  | inl both ↦ absurd (differ (nth_value l 0) both.0 both.1)
  | inr both ↦ absurd (differ (nth_value l 0) both.1 both.0)
]
middle_pair (suc i) l all s e r =
    let before : suc i - 1 ≡ i = omega arith in
    let pair =
      subst (λ j. half_sum (nth_value l j) (nth_value l (suc i)) ≡ raised invalid_operation) before
        r in
    elim (half_sum_raised (nth_value l i) (nth_value l (suc i)) pair) [
      | inl both ↦
          (let found = halves_around i l all s both.0 both.1 in
            let counted = ap length found.1 ∙ length-around i found.0 in
            let same : found.0 ≡ i = omega arith in (i, subst (λ k. l ≡ around i k) same found.1))
      | inr both ↦ absurd (descending i l s both.0 both.1)
    ]

pub nth-around_low : (i k : ℕ) → nth_value (around i k) i ≡ minus_inf
unfolding around
nth-around_low zero k = refl
nth-around_low (suc i) k = nth-around_low i k

pub nth-around_high : (i k : ℕ) → nth_value (around i k) (suc i) ≡ inf
unfolding around
nth-around_high zero k = refl
nth-around_high (suc i) k = nth-around_high i k
