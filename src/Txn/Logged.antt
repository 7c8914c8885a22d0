-- ===== src/Txn/Logged.antt =====
-- The operations of c/src/table.c are changes that a transaction can log.
use db.Prelude.{ℕ, ◌/◌, ◌<◌, ◌≡◌, ◌≢◌, ◌⊎◌, inl, sym, ap, subst, Bool, length, arith}
use native.Mathlib.Decide.{ℕ_discrete}
use db.Bitmap.{test_bit}
use db.Value.{ft_err}
use db.Table.{Table, Cell, column_at, dead_test}
use db.Table.Rows.{table_set_null}
use db.Table.Cells.{table_set_int, table_set_double, table_set_bool}
use db.Table.Views.{IsInside, SameCell}
use db.Table.Reads.{IsWrite, write_cell-IsWrite}
use db.Table.Nulls.{table_set_null-IsNulling}
use db.Txn.Changes.{Updates}

-- A cell of a row of the table, in a column of a proper type.
pub record IsCell (t : Table) (row col : ℕ) : Type 0 where
  pub row_inside : row < t.n_rows
  pub inside : IsInside t row col
  pub typed : (column_at t col).kind ≢ ft_err

pub same_rows-Updates :
    (t u : Table) (row col : ℕ)
    → IsCell t row col
    → u.n_rows ≡ t.n_rows
    → u.dead ≡ t.dead
    → ((r c : ℕ) → IsInside t r c → IsInside u r c)
    → ((c : ℕ) → (column_at u c).kind ≡ (column_at t c).kind)
    → ((r c : ℕ) → (col ≢ c) ⊎ (row ≢ r) → SameCell t u r c)
    → Updates t u row col
unfolding dead_test
same_rows-Updates t u row col i rows dead room kinds others = record {
  row_inside = i.row_inside;
  inside = i.inside;
  typed = i.typed;
  n_rows = rows;
  covers = record {
    rows = omega arith;
    dead_room = λ r h. subst (λ d. r / 8 < length d) (sym dead) h;
    room = room;
    kinds = kinds;
  };
  live = λ r. ap (λ d. test_bit d r) dead;
  others = others;
}

IsWrite-Updates :
    (t u : Table) (row col : ℕ) (x : Cell)
    → IsCell t row col
    → IsWrite t u row col x
    → Updates t u row col
IsWrite-Updates t u row col x i w =
    same_rows-Updates t u row col i w.n_rows w.dead w.room
      (λ c. elim (ℕ_discrete col c) [
        | yes e ↦ subst (λ c. (column_at u c).kind ≡ (column_at t c).kind) e w.kind
        | no ne ↦ (w.others row c (inl ne)).kind
      ])
      w.others

-- A write to a cell of a row of the table, or a NULL in it, is an update that a transaction can log
-- and undo. Where the code writes, the setter is that of the column's type.
pub setters-Updates :
    (t : Table) (row col : ℕ)
    → IsCell t row col
    → ((v : ℕ) → Updates t (table_set_int t row col v) row col)
      × ((v : ℕ) → Updates t (table_set_double t row col v) row col)
      × ((v : Bool) → Updates t (table_set_bool t row col v) row col)
      × Updates t (table_set_null t row col) row col
unfolding table_set_int table_set_double table_set_bool
setters-Updates t row col i = (
  λ v. IsWrite-Updates t _ row col _ i (write_cell-IsWrite t row col _ i.inside),
  λ v. IsWrite-Updates t _ row col _ i (write_cell-IsWrite t row col _ i.inside),
  λ v. IsWrite-Updates t _ row col _ i (write_cell-IsWrite t row col _ i.inside),
  let n = table_set_null-IsNulling t row col i.inside in
      same_rows-Updates t _ row col i n.n_rows n.dead n.room n.kinds n.others,
)
