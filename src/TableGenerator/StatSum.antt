-- ===== src/TableGenerator/StatSum.antt =====
-- The sum and the average in StatValue.from_list of benchexec/tablegenerator/statistics.py.
use mathlib.Core.List.{Permᴰ}
use mathlib.Core.List.Permᴰ
use benchexec.Prelude.{
  suc, Bool, true, false, List, [], ◌∷◌, length, All, ◌≡◌, refl, ap, ◌∙◌, arith,
}
use benchexec.Prelude.Int.{ℤ, ◌+ℤ◌, int_laws}
use benchexec.Prelude.Order.{All-permuted}
use benchexec.TableGenerator.StatValue.{
  Decimal, finite, Figure, ratio, StatValue, sum_of, finite_or_zero, last_value, is_inf,
  is_minus_inf, stat_with,
}

abbrev pub is_finite : Decimal → Bool
is_finite (finite z) = true
is_finite v = false

-- The sum and the average of finite values.
abbrev pub AreTotals : List Decimal → StatValue → Type 0
AreTotals values s =
    All (λ v. is_finite v ≡ true) values
    → (s.sum ≡ finite (sum_of values)) × (s.avg ≡ ratio (sum_of values) (length values))

swap_sum : (a b s : ℤ) → a +ℤ (b +ℤ s) ≡ b +ℤ (a +ℤ s)
swap_sum a b s = omega int_laws

sum_of-permuted : (xs ys : List Decimal) → Permᴰ xs ys → sum_of xs ≡ sum_of ys
sum_of-permuted xs ys Permᴰ.nil = refl
sum_of-permuted (x ∷ xs) (y ∷ ys) (Permᴰ.cons e p) = rw (e, sum_of-permuted xs ys p) refl
sum_of-permuted (a ∷ b ∷ xs) (c ∷ d ∷ ys) (Permᴰ.swap e f) =
    rw (e, f) (swap_sum (finite_or_zero d) (finite_or_zero c) (sum_of xs))
sum_of-permuted xs zs (Permᴰ.trans {l₂ = ys} p q) =
    sum_of-permuted xs ys p ∙ sum_of-permuted ys zs q

pub length-permuted : (xs ys : List Decimal) → Permᴰ xs ys → length xs ≡ length ys
length-permuted xs ys Permᴰ.nil = refl
length-permuted (x ∷ xs) (y ∷ ys) (Permᴰ.cons e p) = ap suc (length-permuted xs ys p)
length-permuted (a ∷ b ∷ xs) (c ∷ d ∷ ys) (Permᴰ.swap e f) = refl
length-permuted xs zs (Permᴰ.trans {l₂ = ys} p q) =
    length-permuted xs ys p ∙ length-permuted ys zs q

pub AreTotals-permuted :
    (xs ys : List Decimal) (s : StatValue) → Permᴰ xs ys → AreTotals xs s → AreTotals ys s
AreTotals-permuted xs ys s p h all =
    let totals = h (All-permuted (λ v. is_finite v ≡ true) ys xs (Permᴰ.symm p) all) in
    let same = sum_of-permuted xs ys p in
    let size = length-permuted xs ys p in (totals.0 ∙ rw same refl, totals.1 ∙ rw (same, size) refl)

is_finite-last_value :
    (v : Decimal) (l : List Decimal)
    → All (λ w. is_finite w ≡ true) (v ∷ l)
    → is_finite (last_value v l) ≡ true
is_finite-last_value v [] h = h.0
is_finite-last_value v (w ∷ l) h = is_finite-last_value w l h.1

not_inf : (v : Decimal) → is_finite v ≡ true → is_inf v ≡ false
not_inf v h = ground arith

not_minus_inf : (v : Decimal) → is_finite v ≡ true → is_minus_inf v ≡ false
not_minus_inf v h = ground arith

pub stat_with-AreTotals :
    (v : Decimal) (l : List Decimal) (m : Figure) → AreTotals (v ∷ l) (stat_with v l m)
unfolding ◌+ℤ◌
stat_with-AreTotals v l m all =
    let low = not_minus_inf v all.0 in
    let high = not_inf (last_value v l) (is_finite-last_value v l all) in
    (rw (low, high) refl, rw (low, high) refl)
