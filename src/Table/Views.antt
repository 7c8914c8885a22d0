-- ===== src/Table/Views.antt =====
-- What a cell of a table shows: `read_column` of c/src/value.c over the arrays of c/src/table.c.
use db.Prelude.{
  ℕ, ◌/◌, ◌<◌, ◌≡◌, inl, inr, refl, sym, ap, ◌∙◌, Bool, List, get_or, length, Bool-cases,
  if◌then◌else◌,
}
use db.Bitmap.{test_bit}
use db.Value.{
  Value, FieldType, ft_int, ft_double, ft_bool, ft_text, ft_err, value_null, value_int,
  value_double, value_bool, value_text,
}
use db.Table.{Table, Cell, column_at, no_column, null_test, zero_cell}
use db.Table.Cells.{
  cell_at, as_int, as_double, as_bool, as_ref, heap_slice, index_row_if_primary_key, insert_key,
  is_pk_col, read_column, read_cell, cell_hash,
}

-- The cell is inside the arrays of its table.
pub record IsInside (t : Table) (row col : ℕ) : Type 0 where
  pub col_inside : col < length t.columns
  pub cell_inside : row < length (column_at t col).cells
  pub null_inside : row / 8 < length (column_at t col).nulls

-- Tables that differ in their index and their memory at most.
pub record SameData (t u : Table) : Type 0 where
  pub columns : u.columns ≡ t.columns
  pub heap_data : u.heap_data ≡ t.heap_data
  pub dead : u.dead ≡ t.dead
  pub n_rows : u.n_rows ≡ t.n_rows
  pub pk_col : u.pk_col ≡ t.pk_col

pub insert_key-SameData : (t : Table) (row hash : ℕ) → SameData t (insert_key t row hash)
unfolding insert_key
insert_key-SameData t row hash = record {
  columns = refl;
  heap_data = refl;
  dead = refl;
  n_rows = refl;
  pk_col = refl;
}

pub SameData-refl : (t : Table) → SameData t t
SameData-refl t = record {
  columns = refl;
  heap_data = refl;
  dead = refl;
  n_rows = refl;
  pk_col = refl;
}

pub index_row-SameData : (t : Table) (row col : ℕ) → SameData t (index_row_if_primary_key t row col)
unfolding index_row_if_primary_key
index_row-SameData t row col = elim (Bool-cases (is_pk_col t col)) [
  | inl key ↦ rw key (insert_key-SameData t row (cell_hash t row col))
  | inr other ↦ rw other (SameData-refl t)
]

-- What a cell reads as, from its content and the heap.
unfoldable pub read_content : FieldType → Cell → List ℕ → Value
read_content ft_int x heap = value_int (as_int x)
read_content ft_double x heap = value_double (as_double x)
read_content ft_bool x heap = value_bool (as_bool x)
read_content ft_text x heap = value_text (heap_slice heap (as_ref x))
read_content ft_err x heap = value_null ft_text

unfoldable pub read_value : Bool → FieldType → Cell → List ℕ → Value
read_value null kind x heap = if null then value_null kind else read_content kind x heap

pub read_cell-content :
    (t : Table) (row col : ℕ) (k : FieldType)
    → read_cell t row col k ≡ read_content k (cell_at t row col) t.heap_data
unfolding read_cell read_content
read_cell-content t row col ft_int = refl
read_cell-content t row col ft_double = refl
read_cell-content t row col ft_bool = refl
read_cell-content t row col ft_text = refl
read_cell-content t row col ft_err = refl

pub read_column-value :
    (t : Table) (row col : ℕ)
    → read_column t row col
      ≡ read_value (null_test t col row) (column_at t col).kind (cell_at t row col) t.heap_data
unfolding read_column read_value
read_column-value t row col =
    ap (λ v. if null_test t col row then value_null (column_at t col).kind else v)
      (read_cell-content t row col (column_at t col).kind)

-- Both tables have the same in the cell.
pub record SameCell (t u : Table) (row col : ℕ) : Type 0 where
  pub null : null_test u col row ≡ null_test t col row
  pub kind : (column_at u col).kind ≡ (column_at t col).kind
  pub cell : cell_at u row col ≡ cell_at t row col

pub SameCell-read :
    (t u : Table) (row col : ℕ)
    → SameCell t u row col
    → u.heap_data ≡ t.heap_data
    → read_column u row col ≡ read_column t row col
SameCell-read t u row col s heap =
    read_column-value u row col
    ∙ ap (λ b. read_value b (column_at u col).kind (cell_at u row col) u.heap_data) s.null
    ∙ ap (λ k. read_value (null_test t col row) k (cell_at u row col) u.heap_data) s.kind
    ∙ ap (λ x. read_value (null_test t col row) (column_at t col).kind x u.heap_data) s.cell
    ∙ ap (read_value (null_test t col row) (column_at t col).kind (cell_at t row col)) heap
    ∙ sym (read_column-value t row col)

pub SameData-SameCell : (t u : Table) (row col : ℕ) → SameData t u → SameCell t u row col
unfolding null_test
SameData-SameCell t u row col d = record {
  null = ap (λ cs. test_bit (get_or cs col no_column).nulls row) d.columns;
  kind = ap (λ cs. (get_or cs col no_column).kind) d.columns;
  cell =
      ap
        (λ cs.
          get_or (get_or cs col no_column).cells row (zero_cell (get_or cs col no_column).kind))
        d.columns;
}
