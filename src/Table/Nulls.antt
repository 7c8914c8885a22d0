-- ===== src/Table/Nulls.antt =====
-- `table_set_null` of c/src/table.c: what it changes.
use db.Prelude.{
  ℕ, ◌<◌, ◌≡◌, ◌≢◌, ◌⊎◌, inl, inr, refl, ap, subst, ◌∙◌, true, length, length-set, get_or,
  get_or-set_self, get_or-set_ne,
}
use native.Mathlib.Decide.{ℕ_discrete}
use db.Bitmap.{test_bit, set_bit}
use db.Bitmap.Laws.{test_bit-set_self, test_bit-set_ne, length-set_bit}
use db.Table.{Table, Column, column_at, no_column, null_test, null_set, zero_cell}
use db.Table.Rows.{table_set_null}
use db.Table.Views.{IsInside, SameCell}
use db.Table.Reads.{column-IsInside}

-- The cell is NULL, and the other cells are as they were.
pub record IsNulling (t u : Table) (row col : ℕ) : Type 0 where
  pub null : null_test u col row ≡ true
  pub kinds : (c : ℕ) → (column_at u c).kind ≡ (column_at t c).kind
  pub dead : u.dead ≡ t.dead
  pub pk_col : u.pk_col ≡ t.pk_col
  pub pk_index : u.pk_index ≡ t.pk_index
  pub heap_data : u.heap_data ≡ t.heap_data
  pub n_rows : u.n_rows ≡ t.n_rows
  pub others : (r c : ℕ) → (col ≢ c) ⊎ (row ≢ r) → SameCell t u r c
  pub room : (r c : ℕ) → IsInside t r c → IsInside u r c

module _ (t : Table) (row col : ℕ) (h : col < length t.columns) where
  nulled_column : Column
  nulled_column = record (column_at t col) { nulls = set_bit (column_at t col).nulls row }

  column_at-nulled : column_at (table_set_null t row col) col ≡ nulled_column
  unfolding table_set_null null_set nulled_column
  column_at-nulled = get_or-set_self t.columns col nulled_column no_column h

  column_at-other : (c : ℕ) → col ≢ c → column_at (table_set_null t row col) c ≡ column_at t c
  unfolding table_set_null null_set nulled_column
  column_at-other c ne = get_or-set_ne t.columns col c nulled_column no_column ne

  nulled-kinds : (c : ℕ) → (column_at (table_set_null t row col) c).kind ≡ (column_at t c).kind
  unfolding nulled_column
  nulled-kinds c = elim (ℕ_discrete col c) [
    | no ne ↦ ap (λ (d : Column). d.kind) (column_at-other c ne)
    | yes e ↦
        subst (λ c. (column_at (table_set_null t row col) c).kind ≡ (column_at t c).kind) e
          (ap (λ (d : Column). d.kind) column_at-nulled)
  ]

  nulled-SameCell : (r c : ℕ) → (col ≢ c) ⊎ (row ≢ r) → SameCell t (table_set_null t row col) r c
  unfolding null_test nulled_column
  nulled-SameCell r c apart = elim (ℕ_discrete col c) [
    | no ne ↦
        let same = column_at-other c ne in
        record {
          null = ap (λ (d : Column). test_bit d.nulls r) same;
          kind = ap (λ (d : Column). d.kind) same;
          cell = ap (λ (d : Column). get_or d.cells r (zero_cell d.kind)) same;
        }
    | yes e ↦ elim apart [
      | inl ne ↦ absurd (ne e)
      | inr ne ↦ subst (SameCell t (table_set_null t row col) r) e (record {
        null =
            ap (λ (d : Column). test_bit d.nulls r) column_at-nulled
            ∙ test_bit-set_ne (column_at t col).nulls row r ne;
        kind = ap (λ (d : Column). d.kind) column_at-nulled;
        cell = ap (λ (d : Column). get_or d.cells r (zero_cell d.kind)) column_at-nulled;
      })
    ]
  ]

  nulled-IsInside : (r c : ℕ) → IsInside t r c → IsInside (table_set_null t row col) r c
  unfolding table_set_null null_set nulled_column
  nulled-IsInside r c i = elim (ℕ_discrete col c) [
    | no ne ↦
        let same = column_at-other c ne in
        column-IsInside t (table_set_null t row col) r c (length-set t.columns col nulled_column)
          (ap (λ (d : Column). length d.cells) same) (ap (λ (d : Column). length d.nulls) same) i
    | yes e ↦
        subst (λ c. IsInside t r c → IsInside (table_set_null t row col) r c) e
          (column-IsInside t (table_set_null t row col) r col
            (length-set t.columns col nulled_column)
            (ap (λ (d : Column). length d.cells) column_at-nulled)
            (ap (λ (d : Column). length d.nulls) column_at-nulled
              ∙ length-set_bit (column_at t col).nulls row))
          i
  ]

pub table_set_null-IsNulling :
    (t : Table) (row col : ℕ) → IsInside t row col → IsNulling t (table_set_null t row col) row col
unfolding table_set_null null_set null_test nulled_column
table_set_null-IsNulling t row col i = record {
  null =
      ap (λ (d : Column). test_bit d.nulls row) (column_at-nulled t row col i.col_inside)
      ∙ test_bit-set_self (column_at t col).nulls row i.null_inside;
  kinds = nulled-kinds t row col i.col_inside;
  dead = refl;
  pk_col = refl;
  pk_index = refl;
  heap_data = refl;
  n_rows = refl;
  others = nulled-SameCell t row col i.col_inside;
  room = nulled-IsInside t row col i.col_inside;
}
