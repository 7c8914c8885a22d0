-- ===== src/Interp/Group/Totals.antt =====
-- The aggregates of `build_group_row` in c/src/interp.c, over the groups and over all rows.
use db.Prelude.{
  ℕ, ◌+◌, if◌then◌else◌, inl, inr, ◌%◌, ◌<◌, ◌≡◌, refl, sym, ap, ◌∙◌, Bool, true, false, List, [],
  ◌∷◌, ◌++◌, length, length-append, arith, Bool-cases,
}
use db.Prelude.Bits.{word}
use db.Value.{FieldType, int_of}
use db.Table.{Table, column_at, null_test}
use db.Table.Cells.{table_get_int}
use db.Interp.{AggFunc, agg_count, agg_sum, agg_avg}
use db.Interp.Eval.{DoubleOps, is_double_kind}
use db.Interp.Group.{
  ItemPlan, Sums, count_values, add_to_sums, sum_rows, no_sums, agg_sum_value, group_cell,
  split_groups, agg_value,
}
use db.Interp.Group.Split.{flatten, flatten-split_groups}

module _ (f : DoubleOps) (t : Table) where
  -- The sum of the INTs that are not NULL.
  int_total : ℕ → List ℕ → ℕ
  int_total col [] = 0
  int_total col (r ∷ rows) =
      (if null_test t col r then 0 else table_get_int t r col) + int_total col rows

  int_total-append :
      (col : ℕ) (g h : List ℕ) → int_total col (g ++ h) ≡ int_total col g + int_total col h
  unfolding int_total
  int_total-append col [] h = omega arith
  int_total-append col (r ∷ g) h = omega (arith, int_total-append col g h)

  count_values-append :
      (col : ℕ) (g h : List ℕ)
      → count_values t col (g ++ h) ≡ count_values t col g + count_values t col h
  unfolding count_values
  count_values-append col [] h = omega arith
  count_values-append col (r ∷ g) h = ground (arith, count_values-append col g h)

  skipped :
      (col : ℕ) (s : Sums) (r : ℕ) → null_test t col r ≡ true → add_to_sums f t col false s r ≡ s
  unfolding add_to_sums
  skipped col s r null = rw null refl

  abbrev with_value : ℕ → Sums → ℕ → Sums
  with_value col s r = record s { any = true; isum = (s.isum + table_get_int t r col) % word }

  added :
      (col : ℕ) (s : Sums) (r : ℕ)
      → null_test t col r ≡ false
      → add_to_sums f t col false s r ≡ with_value col s r
  unfolding add_to_sums
  added col s r kept = rw kept refl

  sum_rows-isum :
      (col : ℕ) (s : Sums) (rows : List ℕ)
      → s.isum < word
      → (sum_rows f t col false s rows).isum ≡ (s.isum + int_total col rows) % word
  unfolding sum_rows int_total
  sum_rows-isum col s [] h = omega arith
  sum_rows-isum col s (r ∷ rows) h = elim (Bool-cases (null_test t col r)) [
    | inl null ↦
        ap (λ q. (sum_rows f t col false q rows).isum) (skipped col s r null)
        ∙ rw null (omega (arith, sum_rows-isum col s rows h))
    | inr kept ↦
        ap (λ q. (sum_rows f t col false q rows).isum) (added col s r kept)
        ∙ rw kept (omega (arith, sum_rows-isum col (with_value col s r) rows (omega arith)))
  ]

  -- Once a value is met, that is kept.
  sum_rows-keeps :
      (col : ℕ) (s : Sums) (rows : List ℕ)
      → s.any ≡ true
      → (sum_rows f t col false s rows).any ≡ true
  unfolding sum_rows
  sum_rows-keeps col s [] h = h
  sum_rows-keeps col s (r ∷ rows) h = elim (Bool-cases (null_test t col r)) [
    | inl null ↦
        ap (λ q. (sum_rows f t col false q rows).any) (skipped col s r null)
        ∙ sum_rows-keeps col s rows h
    | inr kept ↦
        ap (λ q. (sum_rows f t col false q rows).any) (added col s r kept)
        ∙ sum_rows-keeps col (with_value col s r) rows refl
  ]

  -- Where no value is met, nothing is added.
  sum_rows-none :
      (col : ℕ) (s : Sums) (rows : List ℕ)
      → (sum_rows f t col false s rows).any ≡ false
      → (sum_rows f t col false s rows).isum ≡ s.isum
  unfolding sum_rows
  sum_rows-none col s [] h = refl
  sum_rows-none col s (r ∷ rows) h = elim (Bool-cases (null_test t col r)) [
    | inl null ↦
        let same = skipped col s r null in
        ap (λ q. (sum_rows f t col false q rows).isum) same
        ∙ sum_rows-none col s rows (sym (ap (λ q. (sum_rows f t col false q rows).any) same) ∙ h)
    | inr kept ↦
        let now = ap (λ q. (sum_rows f t col false q rows).any) (added col s r kept) in
        absurd (cc (now, h, sum_rows-keeps col (with_value col s r) rows refl))
  ]

  -- SUM of an INT column, NULL taken as 0.
  agg_sum_value-total :
      (col : ℕ) (rows : List ℕ)
      → is_double_kind (column_at t col).kind ≡ false
      → int_of (agg_sum_value f t col rows).content ≡ int_total col rows % word
  unfolding agg_sum_value
  agg_sum_value-total col rows h =
      let sum = sum_rows-isum col no_sums rows (omega arith) in
      elim (Bool-cases (sum_rows f t col false no_sums rows).any) [
        | inl met ↦ rw (agg_sum_value, h, met) (omega (arith, sum))
        | inr none_met ↦
            rw (agg_sum_value, h, none_met)
              (omega (arith, sum, sum_rows-none col no_sums rows none_met))
      ]

  -- COUNT, and SUM of INTs.
  abbrev pub IsAdditive : AggFunc → FieldType → Type 0
  IsAdditive agg_count kind = Unit
  IsAdditive agg_sum kind = is_double_kind kind ≡ false
  IsAdditive agg_avg kind = ⊥

  abbrev pub cell_amount : ItemPlan → List ℕ → ℕ
  cell_amount p rows = int_of (group_cell f t p rows).content

  abbrev amount : AggFunc → Bool → ℕ → List ℕ → ℕ
  amount agg_count star col rows = if star then length rows else count_values t col rows
  amount agg_sum star col rows = int_total col rows
  amount agg_avg star col rows = 0

  amount-append :
      (a : AggFunc) (star : Bool) (col : ℕ) (g h : List ℕ)
      → amount a star col (g ++ h) ≡ amount a star col g + amount a star col h
  amount-append agg_count true col g h = length-append g h
  amount-append agg_count false col g h = count_values-append col g h
  amount-append agg_sum star col g h = int_total-append col g h
  amount-append agg_avg star col g h = omega arith

  agg_value-amount :
      (p : ItemPlan) (rows : List ℕ) (a : AggFunc)
      → IsAdditive a (column_at t p.col).kind
      → int_of (agg_value f t p rows a).content % word
        ≡ amount a p.item.agg_arg_is_star p.col rows % word
  agg_value-amount p rows agg_count h = refl
  agg_value-amount p rows agg_sum h = omega (arith, agg_sum_value-total p.col rows h)
  agg_value-amount p rows agg_avg h = absurd h

  cell_amount_sound :
      (p : ItemPlan) (rows : List ℕ)
      → p.is_group ≡ false
      → IsAdditive p.item.agg_func (column_at t p.col).kind
      → cell_amount p rows % word ≡ amount p.item.agg_func p.item.agg_arg_is_star p.col rows % word
  unfolding group_cell
  cell_amount_sound p rows g h = rw (group_cell, g) (agg_value-amount p rows p.item.agg_func h)

  -- The cells of an item, summed over the groups.
  abbrev pub cell_total : ItemPlan → List (List ℕ) → ℕ
  cell_total p [] = 0
  cell_total p (g ∷ groups) = cell_amount p g + cell_total p groups

  amount-nil : (a : AggFunc) (star : Bool) (col : ℕ) → 0 % word ≡ amount a star col [] % word
  unfolding int_total count_values
  amount-nil agg_count true col = refl
  amount-nil agg_count false col = refl
  amount-nil agg_sum star col = refl
  amount-nil agg_avg star col = refl

  cell_total-flatten :
      (p : ItemPlan) (groups : List (List ℕ))
      → p.is_group ≡ false
      → IsAdditive p.item.agg_func (column_at t p.col).kind
      → cell_total p groups % word
        ≡ amount p.item.agg_func p.item.agg_arg_is_star p.col (flatten groups) % word
  cell_total-flatten p [] g h = amount-nil p.item.agg_func p.item.agg_arg_is_star p.col
  cell_total-flatten p (first ∷ groups) g h = omega (
    arith,
    cell_amount_sound p first g h,
    cell_total-flatten p groups g h,
    amount-append p.item.agg_func p.item.agg_arg_is_star p.col first (flatten groups),
  )

  -- The answers of a COUNT, or of a SUM over an INT column, for the groups of rows add up to its
  -- answer for all the rows, as 64-bit integers and with a NULL sum taken as 0.
  pub group_cell-split_groups :
      (p : ItemPlan) (cols rows : List ℕ)
      → p.is_group ≡ false
      → IsAdditive p.item.agg_func (column_at t p.col).kind
      → cell_total p (split_groups t cols rows) % word ≡ cell_amount p rows % word
  group_cell-split_groups p cols rows g h =
      cell_total-flatten p (split_groups t cols rows) g h
      ∙ ap (λ all. amount p.item.agg_func p.item.agg_arg_is_star p.col all % word)
          (flatten-split_groups t cols rows)
      ∙ sym (cell_amount_sound p rows g h)
