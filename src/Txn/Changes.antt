-- ===== src/Txn/Changes.antt =====
-- The changes that a transaction logs for c/src/txn.c: one row insertion, cell write or row deletion
-- at a time.
use db.Prelude.{ℕ, ◌+◌, ◌/◌, ◌<◌, ◌≡◌, ◌≢◌, ◌⊎◌, false, length}
use db.Value.{ft_err}
use db.Table.{Table, Name, column_at, dead_test}
use db.Table.Rows.{table_delete_row}
use db.Table.Views.{IsInside, SameCell}
use db.Txn.{UndoEntry, undo_insert, undo_delete, update_entry, row_entry}
use db.Txn.Undo.{Covers}

-- A new last row: the earlier rows are as they were.
pub record Inserts (t u : Table) (row : ℕ) : Type 0 where
  pub last : row ≡ t.n_rows
  pub n_rows : u.n_rows ≡ t.n_rows + 1
  pub dead_inside : row / 8 < length u.dead
  pub covers : Covers t u
  pub live : (r : ℕ) → r < t.n_rows → dead_test u r ≡ dead_test t r
  pub cells : (r c : ℕ) → r < t.n_rows → SameCell t u r c

-- One cell is given another content, or NULL.
pub record Updates (t u : Table) (row col : ℕ) : Type 0 where
  pub row_inside : row < t.n_rows
  pub inside : IsInside t row col
  pub typed : (column_at t col).kind ≢ ft_err
  pub n_rows : u.n_rows ≡ t.n_rows
  pub covers : Covers t u
  pub live : (r : ℕ) → dead_test u r ≡ dead_test t r
  pub others : (r c : ℕ) → (col ≢ c) ⊎ (row ≢ r) → SameCell t u r c

-- A live row is marked as deleted.
pub record Deletes (t u : Table) (row : ℕ) : Type 0 where
  pub row_inside : row < t.n_rows
  pub dead_inside : row / 8 < length t.dead
  pub was_live : dead_test t row ≡ false
  pub result : u ≡ table_delete_row t row

-- A change of a table with the entry that is logged for it.
pub data Step (t u : Table) : UndoEntry → Type 0 where
  inserts :
      (i row : ℕ) (name : Name) → Inserts t u row → Step t u (row_entry undo_insert i name row)
  updates :
      (i row col : ℕ) (name : Name) → Updates t u row col → Step t u (update_entry t i name row col)
  deletes :
      (i row : ℕ) (name : Name) → Deletes t u row → Step t u (row_entry undo_delete i name row)
