-- ===== src/Util/IntLists.antt =====
-- parse_int_list of benchexec/util.py reads back what lists of numbers and ranges are written as.
use benchexec.Prelude.{
  is_space, ℕ, ◌+◌, ◌≡◌, refl, ap, ◌∙◌, false, List, [], ◌∷◌, ◌++◌, append_assoc, arith, Text,
  split, All, All-append, ◌==◌,
}
use benchexec.Prelude.Numerals.{
  str, str-AllDigits, AllDigits, NoSpace, AllDigits-NoSpace, strip-NoSpace, int-str, is_digit,
}
use benchexec.Prelude.Outcome.{Outcome, returned, ◌>>=◌}
use benchexec.Util.{
  ValueError, range, natural, range_values, int_part, item_values, parse_items, parse_int_list,
}

-- A part of such a list: "5", or "1-5".
pub data Item : Type 0 where
  one : ℕ → Item
  span : ℕ → ℕ → Item

abbrev pub item_text : Item → Text
item_text (one n) = str n
item_text (span a b) = str a ++ b'-' ∷ str b

abbrev pub members : Item → List ℕ
members (one n) = n ∷ []
members (span a b) = range a (b + 1)

-- The items, separated by commas.
abbrev pub items_text : Item → List Item → Text
items_text i [] = item_text i
items_text i (j ∷ rest) = item_text i ++ b',' ∷ items_text j rest

abbrev pub all_members : Item → List Item → List ℕ
all_members i [] = members i
all_members i (j ∷ rest) = members i ++ all_members j rest

abbrev Without : ℕ → Text → Type 0
Without sep s = All (λ c. (c == sep) ≡ false) s

split-Without : (sep : ℕ) (s : Text) → Without sep s → split sep s ≡ s ∷ []
unfolding split
split-Without sep [] h = refl
split-Without sep (c ∷ s) h = rw (h.0) (rw (split-Without sep s h.1))

split-append : (sep : ℕ) (s t : Text) → Without sep s → split sep (s ++ sep ∷ t) ≡ s ∷ split sep t
unfolding split
split-append sep [] t h = ground arith
split-append sep (c ∷ s) t h = rw (h.0) (rw (split-append sep s t h.1))

digits-Without : (sep : ℕ) (s : Text) → is_digit sep ≡ false → AllDigits s → Without sep s
digits-Without sep [] n h = tt
digits-Without sep (c ∷ s) n h = (ground arith, digits-Without sep s n h.1)

int_part-str : (n : ℕ) → int_part (str n) ≡ returned n
int_part-str n = ap natural (int-str n)

item-NoSpace : (i : Item) → NoSpace (item_text i)
unfolding is_space
item-NoSpace (one n) = AllDigits-NoSpace (str n) (str-AllDigits n)
item-NoSpace (span a b) =
    All-append _ (str a) (b'-' ∷ str b) (AllDigits-NoSpace (str a) (str-AllDigits a))
      (refl, AllDigits-NoSpace (str b) (str-AllDigits b))

item-Without_comma : (i : Item) → Without b',' (item_text i)
item-Without_comma (one n) = digits-Without b',' (str n) refl (str-AllDigits n)
item-Without_comma (span a b) =
    All-append _ (str a) (b'-' ∷ str b) (digits-Without b',' (str a) refl (str-AllDigits a))
      (refl, digits-Without b',' (str b) refl (str-AllDigits b))

no_dash : (n : ℕ) → Without b'-' (str n)
no_dash n = digits-Without b'-' (str n) refl (str-AllDigits n)

item_values-item_text : (i : Item) → item_values (item_text i) ≡ returned (members i)
item_values-item_text (one n) =
    ap (λ t. range_values (split b'-' t)) (strip-NoSpace (str n) (item-NoSpace (one n)))
    ∙ ap range_values (split-Without b'-' (str n) (no_dash n))
    ∙ ap (λ (o : Outcome ValueError ℕ). o >>= λ k. returned (k ∷ [])) (int_part-str n)
item_values-item_text (span a b) =
    ap (λ t. range_values (split b'-' t))
      (strip-NoSpace (item_text (span a b)) (item-NoSpace (span a b)))
    ∙ ap range_values (
        split-append b'-' (str a) (str b) (no_dash a)
        ∙ ap (λ l. str a ∷ l) (split-Without b'-' (str b) (no_dash b)))
    ∙ ap
        (λ (o : Outcome ValueError ℕ).
          o >>= λ k. int_part (str b) >>= λ m. returned (range k (m + 1)))
        (int_part-str a)
    ∙ ap (λ (o : Outcome ValueError ℕ). o >>= λ m. returned (range a (m + 1))) (int_part-str b)

parse_items-item :
    (acc : List ℕ) (i : Item) (rest : List Text)
    → parse_items acc (item_text i ∷ rest) ≡ parse_items (acc ++ members i) rest
parse_items-item acc i rest =
    ap (λ (o : Outcome ValueError (List ℕ)). o >>= λ values. parse_items (acc ++ values) rest)
      (item_values-item_text i)

parse_items-items :
    (acc : List ℕ) (i : Item) (rest : List Item)
    → parse_items acc (split b',' (items_text i rest)) ≡ returned (acc ++ all_members i rest)
parse_items-items acc i [] =
    ap (parse_items acc) (split-Without b',' (item_text i) (item-Without_comma i))
    ∙ parse_items-item acc i []
parse_items-items acc i (j ∷ rest) =
    ap (parse_items acc)
      (split-append b',' (item_text i) (items_text j rest) (item-Without_comma i))
    ∙ parse_items-item acc i (split b',' (items_text j rest))
    ∙ parse_items-items (acc ++ members i) j rest
    ∙ ap returned (append_assoc acc (members i) (all_members j rest))

-- Numbers and ranges, written in decimal and separated by commas, are read as the numbers and the
-- members of the ranges, in their order.
pub parse_int_list-items_text :
    (i : Item) (rest : List Item)
    → parse_int_list (items_text i rest) ≡ returned (all_members i rest)
unfolding parse_int_list
parse_int_list-items_text i rest = parse_items-items [] i rest
