-- ===== src/TableGenerator/StatSummary.antt =====
-- What StatValue.from_list of benchexec/tablegenerator/statistics.py returns for numbers, against the
-- values themselves.
use mathlib.Core.List.{Permᴰ}
use mathlib.Core.List.Permᴰ
use mathlib.Core.List.{Mem, mem-cons_self, mem-cons_of_mem}
use benchexec.Prelude.{
  ℕ, zero, suc, ◌≡◌, refl, ap, true, false, Option, some, List, [], ◌∷◌, arith, length, All, ◌⊎◌,
  inl, inr, subst, ◌-◌, ◌*◌, ◌/◌, ◌%◌, ◌==◌, Bool-cases, ◌<◌, ◌≤◌, ◌≢◌,
}
use benchexec.Prelude.Order.{
  IsSortedBy, sort_by, sort_by-IsSortedBy, Perm-sort_by, All-permuted, length-sort_by,
}
use benchexec.Prelude.Outcome.{Outcome, raised, returned, returned-injective}
use benchexec.TableGenerator.StatValue.{
  Decimal, Figure, le, any_nan, given_values, nth_value, median_of, InvalidOperation,
  invalid_operation, of_sorted, from_list, stat_with, StatValue, last_value, figure_of,
}
use benchexec.TableGenerator.StatOrder.{le-IsTotalOrder}
use benchexec.TableGenerator.StatInfinite.{IsNumber, halves, odd_half, nth_value-le}
use benchexec.TableGenerator.StatError.{from_list-raised, All-IsNumber-given_values}
use benchexec.TableGenerator.StatSum.{
  AreTotals, length-permuted, AreTotals-permuted, stat_with-AreTotals,
}
use benchexec.TableGenerator.StatMedian.{
  at_most, at_least, count, count-permuted, count-low, count-high, IsBetween, half_sum-IsBetween,
  figure_of-IsBetween,
}

-- Half of the values are at most m, and half of them at least.
pub record IsMedian (values : List Decimal) (m : Figure) : Type 0 where
  pub low : length values ≤ 2 * count (at_most m) values
  pub high : length values ≤ 2 * count (at_least m) values

pub record IsSummary (values : List Decimal) (s : StatValue) : Type 0 where
  pub smallest : Mem s.min values × All (λ v. le s.min v ≡ true) values
  pub greatest : Mem s.max values × All (λ v. le v s.max ≡ true) values
  pub halved : IsMedian values s.median
  pub totals : AreTotals values s

All-nth :
    (P : Decimal → Type 0) (l : List Decimal) (i : ℕ) → All P l → i < length l → P (nth_value l i)
All-nth P [] i h b = absurd (omega arith)
All-nth P (x ∷ l) zero h b = h.0
All-nth P (x ∷ l) (suc i) h b = All-nth P l i h.1 (omega arith)

median_lem :
    (l : List Decimal) (i j : ℕ) (m : Figure)
    → All IsNumber l
    → IsSortedBy le l
    → i < length l
    → j < length l
    → length l ≤ 2 * suc i
    → 2 * j ≤ length l
    → IsBetween m (nth_value l i) (nth_value l j)
    → IsMedian l m
median_lem l i j m all s below above half rest b =
    let low = count-low m l i all s below b.0 in
    let high = count-high m l j s above b.1 in record { low = omega arith; high = omega arith }

median_of-IsMedian :
    (l : List Decimal) (m : Figure)
    → All IsNumber l
    → IsSortedBy le l
    → zero < length l
    → median_of l ≡ returned m
    → IsMedian l m
unfolding median_of
median_of-IsMedian l m all s given r = elim (Bool-cases (length l % 2 == 1)) [
  | inl odd ↦
      let inside : length l / 2 < length l = omega arith in
      let same : figure_of (nth_value l (length l / 2)) ≡ m = returned-injective (rw odd at r) in
      let number = All-nth IsNumber l (length l / 2) all inside in
      let between : IsBetween m (nth_value l (length l / 2)) (nth_value l (length l / 2)) =
        subst (λ f. IsBetween f (nth_value l (length l / 2)) (nth_value l (length l / 2))) same
          (figure_of-IsBetween (nth_value l (length l / 2)) number) in
      median_lem l (length l / 2) (length l / 2) m all s inside inside (omega arith) (omega arith)
        between
  | inr even ↦
      let double = odd_half (length l) even in
      let before : length l / 2 - 1 < length l = omega arith in
      let inside : length l / 2 < length l = omega arith in
      let next : suc (length l / 2 - 1) ≡ length l / 2 = omega arith in
      let a = All-nth IsNumber l (length l / 2 - 1) all before in
      let b = All-nth IsNumber l (length l / 2) all inside in
      let up =
        nth_value-le l (length l / 2 - 1) (nth_value l (length l / 2 - 1))
          (nth_value l (length l / 2)) s refl (ap (nth_value l) next) a b in
      median_lem l (length l / 2 - 1) (length l / 2) m all s before inside (omega arith)
        (omega arith)
        (half_sum-IsBetween (nth_value l (length l / 2 - 1)) (nth_value l (length l / 2)) m a b up
          (rw even at r))
]

le_refl : (v : Decimal) → le v v ≡ true
le_refl v = ground arith

below_last :
    (v : Decimal) (l : List Decimal)
    → IsSortedBy le (v ∷ l)
    → All (λ x. le x (last_value v l) ≡ true) (v ∷ l)
below_last v [] s = (le_refl v, tt)
below_last v (w ∷ l) s =
    let rest = below_last w l s.1 in
    (le-IsTotalOrder.transitive v w (last_value w l) s.0.0 rest.0, rest)

Mem-last_value : (v : Decimal) (l : List Decimal) → Mem (last_value v l) (v ∷ l)
Mem-last_value v [] = mem-cons_self
Mem-last_value v (w ∷ l) = mem-cons_of_mem v (Mem-last_value w l)

median-cases :
    (o : Outcome InvalidOperation Figure)
    → (o ≡ raised invalid_operation) ⊎ ((m : Figure) × (o ≡ returned m))
median-cases (raised invalid_operation) = inl refl
median-cases (returned m) = inr (m, refl)

of_sorted-IsSummary :
    (l : List Decimal)
    → All IsNumber l
    → IsSortedBy le l
    → l ≢ []
    → of_sorted l ≢ raised invalid_operation
    → (s : StatValue) × (of_sorted l ≡ returned (some s)) × IsSummary l s
of_sorted-IsSummary [] all s ne fine = absurd (ne refl)
of_sorted-IsSummary (v ∷ l) all s ne fine = elim (median-cases (median_of (v ∷ l))) [
  | inl failed ↦ absurd (fine (rw failed refl))
  | inr found ↦
      (let median = median_of-IsMedian (v ∷ l) found.0 all s (omega arith) found.1 in
        (
          stat_with v l found.0,
          rw found.1 refl,
          record {
            smallest = (mem-cons_self, (le_refl v, s.0));
            greatest = (Mem-last_value v l, below_last v l s);
            halved = median;
            totals = stat_with-AreTotals v l found.0;
          },
        ))
]

IsMedian-permuted :
    (xs ys : List Decimal) (m : Figure) → Permᴰ xs ys → IsMedian xs m → IsMedian ys m
IsMedian-permuted xs ys m p h =
    let low = count-permuted (at_most m) xs ys p in
    let high = count-permuted (at_least m) xs ys p in
    let size = length-permuted xs ys p in
    let a = h.low in let b = h.high in record { low = omega arith; high = omega arith }

IsSummary-permuted :
    (xs ys : List Decimal) (s : StatValue) → Permᴰ xs ys → IsSummary xs s → IsSummary ys s
IsSummary-permuted xs ys s p h = record {
  smallest = (Permᴰ.mem p h.smallest.0, All-permuted (λ v. le s.min v ≡ true) xs ys p h.smallest.1);
  greatest = (Permᴰ.mem p h.greatest.0, All-permuted (λ v. le v s.max ≡ true) xs ys p h.greatest.1);
  halved = IsMedian-permuted xs ys s.median p h.halved;
  totals = AreTotals-permuted xs ys s p h.totals;
}

sort_by-nil : (l : List Decimal) → l ≢ [] → sort_by le l ≢ []
sort_by-nil [] ne e = ne refl
sort_by-nil (x ∷ l) ne e =
    let size = length-sort_by le (x ∷ l) in let empty = ap length e in absurd (omega arith)

-- For at least one value, none of them NaN, which are not as many times -inf as +inf and nothing else:
-- the minimum and the maximum are values between which all others are, and half of the values are at
-- most the median and half of them at least; of finite values, the sum and the average are returned.
pub from_list-IsSummary :
    (values : List (Option Decimal))
    → any_nan values ≡ false
    → given_values values ≢ []
    → ((n : ℕ) → ¬ (Permᴰ (given_values values) (halves n)))
    → (s : StatValue) × (from_list values ≡ returned (some s)) × IsSummary (given_values values) s
unfolding from_list
from_list-IsSummary values fine ne unbalanced =
    let given = given_values values in
    let p = Perm-sort_by le (given_values values) in
    let numbers =
      All-permuted IsNumber (given_values values) (sort_by le (given_values values)) p
        (All-IsNumber-given_values values fine) in
    let found =
      of_sorted-IsSummary (sort_by le (given_values values)) numbers
        (sort_by-IsSortedBy le le-IsTotalOrder (given_values values))
        (sort_by-nil (given_values values) ne)
        (λ r. let failed = from_list-raised values (rw fine r) in unbalanced failed.0 failed.1) in
    (
      found.0,
      rw fine found.1,
      IsSummary-permuted (sort_by le (given_values values)) (given_values values) found.0
          (Permᴰ.symm p) found.2,
    )
