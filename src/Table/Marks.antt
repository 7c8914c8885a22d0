-- ===== src/Table/Marks.antt =====
-- `table_delete_row` and `table_undelete_row` of c/src/table.c: what the deletion marks change.
use db.Prelude.{ℕ, ◌/◌, ◌<◌, ◌≡◌, ◌≢◌, inl, inr, refl, Bool, true, false, length, Bool-cases}
use db.Bitmap.Laws.{
  test_bit-clear_self, test_bit-clear_ne, test_bit-set_self, test_bit-set_ne, length-set_bit,
  length-clear_bit,
}
use db.Table.{Table, dead_test, dead_set, dead_clear}
use db.Table.Rows.{table_delete_row, table_undelete_row}

-- A mark of deletion is set or cleared, and nothing else changes.
pub record Marks (t u : Table) (row : ℕ) (mark : Bool) : Type 0 where
  pub columns : u.columns ≡ t.columns
  pub n_rows : u.n_rows ≡ t.n_rows
  pub pk_col : u.pk_col ≡ t.pk_col
  pub pk_index : u.pk_index ≡ t.pk_index
  pub heap_data : u.heap_data ≡ t.heap_data
  pub dead_len : length u.dead ≡ length t.dead
  pub marked : row / 8 < length t.dead → dead_test u row ≡ mark
  pub others : (r : ℕ) → row ≢ r → dead_test u r ≡ dead_test t r

pub table_delete_row-Marks : (t : Table) (row : ℕ) → Marks t (table_delete_row t row) row true
unfolding table_delete_row dead_set dead_test
table_delete_row-Marks t row = elim (Bool-cases (dead_test t row)) [
  | inl dead ↦ rw dead (record {
    columns = refl;
    n_rows = refl;
    pk_col = refl;
    pk_index = refl;
    heap_data = refl;
    dead_len = refl;
    marked = λ h. dead;
    others = λ r ne. refl;
  })
  | inr live ↦ rw live (record {
    columns = refl;
    n_rows = refl;
    pk_col = refl;
    pk_index = refl;
    heap_data = refl;
    dead_len = length-set_bit t.dead row;
    marked = test_bit-set_self t.dead row;
    others = test_bit-set_ne t.dead row;
  })
]

pub table_undelete_row-Marks : (t : Table) (row : ℕ) → Marks t (table_undelete_row t row) row false
unfolding table_undelete_row dead_clear dead_test
table_undelete_row-Marks t row = elim (Bool-cases (dead_test t row)) [
  | inr live ↦ rw live (record {
    columns = refl;
    n_rows = refl;
    pk_col = refl;
    pk_index = refl;
    heap_data = refl;
    dead_len = refl;
    marked = λ h. live;
    others = λ r ne. refl;
  })
  | inl dead ↦ rw dead (record {
    columns = refl;
    n_rows = refl;
    pk_col = refl;
    pk_index = refl;
    heap_data = refl;
    dead_len = length-clear_bit t.dead row;
    marked = test_bit-clear_self t.dead row;
    others = test_bit-clear_ne t.dead row;
  })
]
