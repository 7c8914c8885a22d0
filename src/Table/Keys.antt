-- ===== src/Table/Keys.antt =====
-- Primary keys and lookups by value of c/src/table.c, on the index and by a scan.
use db.Prelude.{
  ℕ, zero, suc, ◌+◌, Bool, true, false, not, ◌&&◌, ◌||◌, some, List, [], ◌∷◌, ◌==◌, bool_eq,
  if◌then◌else◌,
}
use db.Index.{RowRef, Visitor, row_index_find, row_index_usable}
use db.Value.{FieldType, ft_int, ft_double, ft_bool, ft_text, ft_err, double_eq}
use db.Table.{Table, Column, bytes_eq, column_at, with_column, dead_test, null_test, table_misuse}
use db.Table.Cells.{
  table_get_int, table_get_double, table_get_bool, table_get_text, cell_hash, insert_key, is_pk_col,
}

unfoldable pub other_pk : List Column → ℕ → ℕ → Bool
other_pk [] i col = false
other_pk (c ∷ cs) i col = (not (i == col) && c.is_pk) || other_pk cs (i + 1) col

-- Live rows with a key, from row `row` on.
unfoldable pub index_rows : ℕ → Table → ℕ → ℕ → Table
unfolding insert_key
index_rows zero t row col = t
index_rows (suc rounds) t row col =
    let u = insert_key t row (cell_hash t row col) in
    index_rows rounds (if dead_test t row || null_test t col row then t else u) (row + 1) col

unfoldable pub mark_pk : Table → ℕ → Table
mark_pk t col =
    let c = column_at t col in
    let u = with_column t col (record c { is_pk = true }) in record u { pk_col = some col }

unfoldable pub table_set_primary_key : Table → ℕ → Table
unfolding other_pk index_rows mark_pk
table_set_primary_key t col =
    if other_pk t.columns 0 col then table_misuse t else index_rows t.n_rows (mark_pk t col) 0 col

unfoldable pub table_is_primary_key : Table → ℕ → Bool
table_is_primary_key t col = (column_at t col).is_pk

-- By the type of the first column.
unfoldable pub cell_equal_as : FieldType → Table → ℕ → ℕ → Table → ℕ → ℕ → Bool
cell_equal_as ft_int ta row_a col_a tb row_b col_b =
    table_get_int ta row_a col_a == table_get_int tb row_b col_b
cell_equal_as ft_double ta row_a col_a tb row_b col_b =
    double_eq (table_get_double ta row_a col_a) (table_get_double tb row_b col_b)
cell_equal_as ft_bool ta row_a col_a tb row_b col_b =
    bool_eq (table_get_bool ta row_a col_a) (table_get_bool tb row_b col_b)
cell_equal_as ft_text ta row_a col_a tb row_b col_b =
    bytes_eq (table_get_text ta row_a col_a) (table_get_text tb row_b col_b)
cell_equal_as ft_err ta row_a col_a tb row_b col_b = false

unfoldable pub cell_equal : Table → ℕ → ℕ → Table → ℕ → ℕ → Bool
unfolding cell_equal_as
cell_equal ta row_a col_a tb row_b col_b =
    cell_equal_as (column_at ta col_a).kind ta row_a col_a tb row_b col_b

-- `DupCtx.found` is the visitor's state; true as the first part goes on.
unfoldable pub dup_visit : Table → ℕ → ℕ → Visitor Bool
dup_visit t row col found r =
    if (r == row) || (dead_test t r || null_test t col r)
    then (true, found)
    else if cell_equal t row col t r col
    then (false, true)
    else (true, found)

-- The scan from row `r` on.
unfoldable pub dup_scan : ℕ → Table → ℕ → ℕ → ℕ → Bool
dup_scan zero t col row r = false
dup_scan (suc rounds) t col row r =
    let rest = dup_scan rounds t col row (r + 1) in
    if (r == row) || (dead_test t r || null_test t col r)
    then rest
    else if cell_equal t row col t r col
    then true
    else rest

unfoldable pub table_column_has_duplicate : Table → ℕ → RowRef → Bool
unfolding dup_visit dup_scan
table_column_has_duplicate t col row =
    if null_test t col row
    then false
    else if is_pk_col t col && row_index_usable t.pk_index
    then row_index_find (dup_visit t row col) t.pk_index (cell_hash t row col) false
    else dup_scan t.n_rows t col row 0

unfoldable pub match_visit : Table → ℕ → Table → ℕ → ℕ → Visitor Bool
match_visit ref_t ref_col t row col found r =
    if dead_test ref_t r || null_test ref_t ref_col r
    then (true, found)
    else if cell_equal ref_t r ref_col t row col
    then (false, true)
    else (true, found)

unfoldable pub match_scan : ℕ → Table → ℕ → Table → ℕ → ℕ → ℕ → Bool
match_scan zero ref_t ref_col t row col r = false
match_scan (suc rounds) ref_t ref_col t row col r =
    let rest = match_scan rounds ref_t ref_col t row col (r + 1) in
    if dead_test ref_t r || null_test ref_t ref_col r
    then rest
    else if cell_equal ref_t r ref_col t row col
    then true
    else rest

-- The number of an enum's constructor, which C compares.
abbrev pub type_number : FieldType → ℕ
type_number ft_int = 0
type_number ft_double = 1
type_number ft_bool = 2
type_number ft_text = 3
type_number ft_err = 4

unfoldable pub same_type : FieldType → FieldType → Bool
same_type a b = type_number a == type_number b

unfoldable pub table_has_matching_value : Table → ℕ → Table → RowRef → ℕ → Bool
unfolding match_visit match_scan same_type
table_has_matching_value ref_t ref_col t row col =
    if not (same_type (column_at ref_t ref_col).kind (column_at t col).kind)
    then false
    else if is_pk_col ref_t ref_col && row_index_usable ref_t.pk_index
    then row_index_find (match_visit ref_t ref_col t row col) ref_t.pk_index (cell_hash t row col)
        false
    else match_scan ref_t.n_rows ref_t ref_col t row col 0

module _ {S : Type 0} (visit : Visitor S) where
  unfoldable pub matching_rows : ℕ → Table → ℕ → Table → ℕ → ℕ → ℕ → S → S
  matching_rows zero t col val_t val_row val_col r s = s
  matching_rows (suc rounds) t col val_t val_row val_col r s =
      let rest = matching_rows rounds t col val_t val_row val_col (r + 1) s in
      let after = matching_rows rounds t col val_t val_row val_col (r + 1) (visit s r).1 in
      if dead_test t r || null_test t col r
      then rest
      else if cell_equal t r col val_t val_row val_col
      then (if (visit s r).0 then after else (visit s r).1)
      else rest

  unfoldable pub table_find_matching_rows : Table → ℕ → Table → RowRef → ℕ → S → S
  unfolding matching_rows same_type
  table_find_matching_rows t col val_t val_row val_col s =
      if not (same_type (column_at t col).kind (column_at val_t val_col).kind)
      then s
      else if null_test val_t val_col val_row
      then s
      else matching_rows t.n_rows t col val_t val_row val_col 0 s

  unfoldable pub table_find_by_pk_hash : Table → ℕ → S → S
  table_find_by_pk_hash t hash s = row_index_find visit t.pk_index hash s

unfoldable pub table_pk_index_usable : Table → Bool
table_pk_index_usable t = row_index_usable t.pk_index
