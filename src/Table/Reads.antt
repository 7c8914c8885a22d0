-- ===== src/Table/Reads.antt =====
-- What the writes of c/src/table.c change, and what its reads then see.
use db.Prelude.{
  ℕ, ◌/◌, ◌<◌, ◌≡◌, ◌≢◌, ◌⊎◌, inl, inr, sym, ap, subst, ◌∙◌, Bool, false, set, get_or, length,
  length-set, get_or-set_self, get_or-set_ne,
}
use native.Mathlib.Decide.{ℕ_discrete}
use db.Bitmap.{test_bit, clear_bit}
use db.Bitmap.Laws.{test_bit-clear_self, test_bit-clear_ne, length-clear_bit}
use db.Value.{Value, FieldType, ft_int, ft_double, ft_bool, value_int, value_double, value_bool}
use db.Table.{
  int_cell, double_cell, bool_cell, Table, Column, Cell, column_at, no_column, null_test,
  null_clear, zero_cell,
}
use db.Table.Cells.{
  table_set_int, table_set_double, table_set_bool, cell_at, put_cell, write_cell,
  index_row_if_primary_key, read_column,
}
use db.Table.Views.{
  IsInside, SameData, index_row-SameData, read_content, read_value, read_column-value, SameCell,
  SameCell-read, SameData-SameCell,
}

-- The column with a cell written and its NULL mark cleared.
abbrev pub written_column : Column → ℕ → Cell → Column
written_column c row x = record c { cells = set c.cells row x; nulls = clear_bit c.nulls row }

abbrev pub written : Table → ℕ → ℕ → Cell → Table
written t row col x = null_clear (put_cell t row col x) col row

pub column_at-written :
    (t : Table) (row col : ℕ) (x : Cell)
    → col < length t.columns
    → column_at (written t row col x) col ≡ written_column (column_at t col) row x
unfolding null_clear
column_at-written t row col x h =
    get_or-set_self _ col _ no_column (rw length-set h)
    ∙ ap (λ (c : Column). record c { nulls = clear_bit c.nulls row })
        (get_or-set_self t.columns col _ no_column h)

pub column_at-other :
    (t : Table) (row col c : ℕ) (x : Cell)
    → col ≢ c
    → column_at (written t row col x) c ≡ column_at t c
unfolding null_clear
column_at-other t row col c x ne =
    get_or-set_ne _ col c _ no_column ne ∙ get_or-set_ne t.columns col c _ no_column ne

pub written-SameCell :
    (t : Table) (row col r c : ℕ) (x : Cell)
    → col < length t.columns
    → (col ≢ c) ⊎ (row ≢ r)
    → SameCell t (written t row col x) r c
unfolding null_test
written-SameCell t row col r c x h apart = elim (ℕ_discrete col c) [
  | no ne ↦
      let same = column_at-other t row col c x ne in
      record {
        null = ap (λ (d : Column). test_bit d.nulls r) same;
        kind = ap (λ (d : Column). d.kind) same;
        cell = ap (λ (d : Column). get_or d.cells r (zero_cell d.kind)) same;
      }
  | yes e ↦ elim apart [
    | inl ne ↦ absurd (ne e)
    | inr ne ↦
        let same = column_at-written t row col x h in
        subst (SameCell t (written t row col x) r) e (record {
          null = ap (λ (d : Column). test_bit d.nulls r) same ∙ test_bit-clear_ne _ row r ne;
          kind = ap (λ (d : Column). d.kind) same;
          cell =
              ap (λ (d : Column). get_or d.cells r (zero_cell d.kind)) same
              ∙ get_or-set_ne (column_at t col).cells row r x (zero_cell (column_at t col).kind) ne;
        })
  ]
]

-- A written cell holds what was written and is not NULL.
record IsWritten (u : Table) (row col : ℕ) (x : Cell) : Type 0 where
  cell : cell_at u row col ≡ x
  not_null : null_test u col row ≡ false

written-IsWritten :
    (t : Table) (row col : ℕ) (x : Cell)
    → IsInside t row col
    → IsWritten (written t row col x) row col x
unfolding null_test
written-IsWritten t row col x i =
    let same = column_at-written t row col x i.col_inside in
    record {
      cell =
          ap (λ (d : Column). get_or d.cells row (zero_cell d.kind)) same
          ∙ get_or-set_self (column_at t col).cells row x (zero_cell (column_at t col).kind)
              i.cell_inside;
      not_null =
          ap (λ (d : Column). test_bit d.nulls row) same ∙ test_bit-clear_self _ row i.null_inside;
    }

SameCell-SameData :
    (t u v : Table) (row col : ℕ) → SameCell t u row col → SameData u v → SameCell t v row col
SameCell-SameData t u v row col s d =
    let e = SameData-SameCell u v row col d in
    record { null = e.null ∙ s.null; kind = e.kind ∙ s.kind; cell = e.cell ∙ s.cell }

pub SameData-IsInside :
    (t u : Table) (row col : ℕ) → SameData t u → IsInside t row col → IsInside u row col
SameData-IsInside t u row col d i = record {
  col_inside = subst (λ cs. col < length cs) (sym d.columns) i.col_inside;
  cell_inside =
      subst (λ cs. row < length (get_or cs col no_column).cells) (sym d.columns) i.cell_inside;
  null_inside =
      subst (λ cs. row / 8 < length (get_or cs col no_column).nulls) (sym d.columns) i.null_inside;
}

-- A column that stands for another of the same size keeps every cell inside.
pub column-IsInside :
    (t u : Table) (row col : ℕ)
    → length u.columns ≡ length t.columns
    → length (column_at u col).cells ≡ length (column_at t col).cells
    → length (column_at u col).nulls ≡ length (column_at t col).nulls
    → IsInside t row col
    → IsInside u row col
column-IsInside t u row col width cells nulls i = record {
  col_inside = rw width i.col_inside;
  cell_inside = subst (λ n. row < n) (sym cells) i.cell_inside;
  null_inside = subst (λ n. row / 8 < n) (sym nulls) i.null_inside;
}

width :
    (t : Table) (row col : ℕ) (x : Cell) → length (written t row col x).columns ≡ length t.columns
unfolding null_clear
width t row col x = length-set _ col _ ∙ length-set t.columns col _

written-IsInside :
    (t : Table) (row col r c : ℕ) (x : Cell)
    → col < length t.columns
    → IsInside t r c
    → IsInside (written t row col x) r c
written-IsInside t row col r c x h i = elim (ℕ_discrete col c) [
  | no ne ↦
      let same = column_at-other t row col c x ne in
      column-IsInside t (written t row col x) r c (width t row col x)
        (ap (λ (d : Column). length d.cells) same) (ap (λ (d : Column). length d.nulls) same) i
  | yes e ↦
      let same = column_at-written t row col x h in
      subst (λ c. IsInside t r c → IsInside (written t row col x) r c) e
        (column-IsInside t (written t row col x) r col (width t row col x)
          (ap (λ (d : Column). length d.cells) same ∙ length-set _ row x)
          (ap (λ (d : Column). length d.nulls) same ∙ length-clear_bit _ row))
        i
]

-- `write_cell` as seen by reads: the written cell has the content, and the others read as before.
pub record IsWrite (t u : Table) (row col : ℕ) (x : Cell) : Type 0 where
  pub cell : cell_at u row col ≡ x
  pub not_null : null_test u col row ≡ false
  pub kind : (column_at u col).kind ≡ (column_at t col).kind
  pub heap_data : u.heap_data ≡ t.heap_data
  pub dead : u.dead ≡ t.dead
  pub n_rows : u.n_rows ≡ t.n_rows
  pub pk_col : u.pk_col ≡ t.pk_col
  pub others : (r c : ℕ) → (col ≢ c) ⊎ (row ≢ r) → SameCell t u r c
  pub room : (r c : ℕ) → IsInside t r c → IsInside u r c

pub write_cell-IsWrite :
    (t : Table) (row col : ℕ) (x : Cell)
    → IsInside t row col
    → IsWrite t (write_cell t row col x) row col x
unfolding write_cell null_clear
write_cell-IsWrite t row col x i =
    let w = written t row col x in
    let d = index_row-SameData w row col in
    let at = SameData-SameCell w (index_row_if_primary_key w row col) row col d in
    let new = written-IsWritten t row col x i in
    record {
      cell = at.cell ∙ new.cell;
      not_null = at.null ∙ new.not_null;
      kind = at.kind ∙ ap (λ (d : Column). d.kind) (column_at-written t row col x i.col_inside);
      heap_data = d.heap_data;
      dead = d.dead;
      n_rows = d.n_rows;
      pk_col = d.pk_col;
      others = λ r c apart.
          SameCell-SameData t w (index_row_if_primary_key w row col) r c
            (written-SameCell t row col r c x i.col_inside apart) d;
      room = λ r c j. SameData-IsInside w _ r c d (written-IsInside t row col r c x i.col_inside j);
    }

-- The cell reads as the value, and every other cell as before.
pub record Sets (t u : Table) (row col : ℕ) (v : Value) : Type 0 where
  pub reads : read_column u row col ≡ v
  pub others : (r c : ℕ) → (col ≢ c) ⊎ (row ≢ r) → read_column u r c ≡ read_column t r c

pub write-Sets :
    (t u : Table) (row col : ℕ) (x : Cell) (k : FieldType)
    → IsWrite t u row col x
    → (column_at t col).kind ≡ k
    → Sets t u row col (read_content k x t.heap_data)
unfolding read_value
write-Sets t u row col x k w e = record {
  reads =
      read_column-value u row col
      ∙ ap (λ b. read_value b (column_at u col).kind (cell_at u row col) u.heap_data) w.not_null
      ∙ ap (λ k. read_content k (cell_at u row col) u.heap_data) (w.kind ∙ e)
      ∙ ap (λ x. read_content k x u.heap_data) w.cell
      ∙ ap (read_content k x) w.heap_data;
  others = λ r c apart. SameCell-read t u r c (w.others r c apart) w.heap_data;
}

-- A cell inside a INT column of the table that `table_set_int` writes reads as the value written,
-- and every other cell of the table reads as before.
pub table_set_int-Sets :
    (t : Table) (row col : ℕ) (v : ℕ)
    → IsInside t row col
    → (column_at t col).kind ≡ ft_int
    → Sets t (table_set_int t row col v) row col (value_int v)
unfolding table_set_int read_content
table_set_int-Sets t row col v i e =
    write-Sets t _ row col (int_cell v) ft_int (write_cell-IsWrite t row col _ i) e

-- A cell inside a DOUBLE column of the table that `table_set_double` writes reads as the value
-- written, and every other cell of the table reads as before.
pub table_set_double-Sets :
    (t : Table) (row col : ℕ) (v : ℕ)
    → IsInside t row col
    → (column_at t col).kind ≡ ft_double
    → Sets t (table_set_double t row col v) row col (value_double v)
unfolding table_set_double read_content
table_set_double-Sets t row col v i e =
    write-Sets t _ row col (double_cell v) ft_double (write_cell-IsWrite t row col _ i) e

-- A cell inside a BOOL column of the table that `table_set_bool` writes reads as the value
-- written, and every other cell of the table reads as before.
pub table_set_bool-Sets :
    (t : Table) (row col : ℕ) (v : Bool)
    → IsInside t row col
    → (column_at t col).kind ≡ ft_bool
    → Sets t (table_set_bool t row col v) row col (value_bool v)
unfolding table_set_bool read_content
table_set_bool-Sets t row col v i e =
    write-Sets t _ row col (bool_cell v) ft_bool (write_cell-IsWrite t row col _ i) e
