-- ===== src/Interp/Checks.antt =====
-- The checks and the assignment of c/src/interp.c that INSERT, UPDATE and DELETE share.
use db.Prelude.{
  ℕ, zero, suc, ◌+◌, Bool, false, not, ◌&&◌, Option, none, some, List, [], ◌∷◌, if◌then◌else◌,
  length,
}
use db.Index.{RowRef}
use db.Value.{
  Value, FieldType, ft_int, ft_double, ft_bool, ft_text, ft_err, int_of, double_of, bool_of,
  text_of, int_to_double,
}
use db.Table.{Table, Name, bytes_eq, column_at}
use db.Table.Columns.{table_find_column, table_get_foreign_key}
use db.Table.Rows.{table_is_null, table_set_null}
use db.Table.Cells.{table_set_int, table_set_double, table_set_bool, table_set_text}
use db.Table.Keys.{table_column_has_duplicate, table_has_matching_value, table_is_primary_key}
use db.Catalog.{Catalog, NamedTable, catalog_find}
use db.Interp.{Result, ok, err, ◌>>=◌, pk_null, pk_duplicate, fk_not_found, row_referenced}
use db.Interp.Eval.{is_int_kind}

abbrev pub col_name : Table → ℕ → Name
col_name t col = (column_at t col).name

unfoldable pub check_key : Table → RowRef → ℕ → Result (Unit {0})
check_key t row col =
    if not (table_is_primary_key t col)
    then ok tt
    else if table_is_null t row col
    then err (pk_null (col_name t col))
    else if table_column_has_duplicate t col row
    then err (pk_duplicate (col_name t col))
    else ok tt

-- The entry of the catalog at a position that `catalog_find` gave.
unfoldable pub table_at : List NamedTable → ℕ → Option Table
table_at [] i = none
table_at (e ∷ es) zero = some e.table
table_at (e ∷ es) (suc i) = table_at es i

-- `&catalog->tables[ref_idx].table`, where the name is in the catalog.
unfoldable pub referenced_table : Catalog → Name → Option Table
unfolding table_at
referenced_table catalog name = elim (catalog_find catalog name) [
  | none ↦ none
  | some i ↦ table_at catalog.tables i
]

-- A reference into a column that does not exist is not checked.
unfoldable pub check_match : Table → Option ℕ → Table → RowRef → ℕ → Name × Name → Result (Unit {0})
check_match ref_table none t row col target = ok tt
check_match ref_table (some ref_col) t row col target =
    if not (table_has_matching_value ref_table ref_col t row col)
    then err (fk_not_found (col_name t col) target.0 target.1)
    else ok tt

unfoldable pub check_target : Option Table → Table → RowRef → ℕ → Name × Name → Result (Unit {0})
unfolding check_match
check_target none t row col target = ok tt
check_target (some ref_table) t row col target =
    check_match ref_table (table_find_column ref_table target.1) t row col target

unfoldable pub check_reference :
    Catalog → Table → RowRef → ℕ → Option (Name × Name) → Result (Unit {0})
unfolding check_target referenced_table
check_reference catalog t row col none = ok tt
check_reference catalog t row col (some target) =
    if table_is_null t row col
    then ok tt
    else check_target (referenced_table catalog target.0) t row col target

unfoldable pub check_column : Catalog → Table → RowRef → ℕ → Result (Unit {0})
unfolding check_key check_reference
check_column catalog t row col = do
  _ ← check_key t row col
  check_reference catalog t row col (table_get_foreign_key t col)

-- The loop over the columns, from column `col` on.
unfoldable pub check_columns : ℕ → Catalog → Table → RowRef → ℕ → Result (Unit {0})
unfolding check_column
check_columns zero catalog t row col = ok tt
check_columns (suc rounds) catalog t row col = do
  _ ← check_column catalog t row col
  check_columns rounds catalog t row (col + 1)

unfoldable pub check_row_constraints : Table → RowRef → Catalog → Result (Unit {0})
unfolding check_columns
check_row_constraints t row catalog = check_columns (length t.columns) catalog t row 0

-- Whether a column refers to the key column `key` of the table `table_name`.
abbrev pub refers_to : Option (Name × Name) → Name → Name → Bool
refers_to none table_name key = false
refers_to (some target) table_name key = bytes_eq target.0 table_name && bytes_eq target.1 key

-- The columns of one table of the catalog, from column `c` on.
unfoldable pub check_referencing :
    ℕ → NamedTable → ℕ → Table → Name → RowRef → ℕ → Result (Unit {0})
check_referencing zero other c t table_name row col = ok tt
check_referencing (suc rounds) other c t table_name row col =
    let rest = check_referencing rounds other (c + 1) t table_name row col in
    if not (refers_to (table_get_foreign_key other.table c) table_name (col_name t col))
    then rest
    else if table_has_matching_value other.table c t row col
    then err (row_referenced other.name (col_name other.table c))
    else rest

unfoldable pub check_referencing_tables :
    List NamedTable → Table → Name → RowRef → ℕ → Result (Unit {0})
unfolding check_referencing
check_referencing_tables [] t table_name row col = ok tt
check_referencing_tables (other ∷ others) t table_name row col = do
  _ ← check_referencing (length other.table.columns) other 0 t table_name row col
  check_referencing_tables others t table_name row col

unfoldable pub check_key_not_referenced :
    Option ℕ → Catalog → Table → Name → RowRef → Result (Unit {0})
unfolding check_referencing_tables
check_key_not_referenced none catalog t table_name row = ok tt
check_key_not_referenced (some col) catalog t table_name row =
    if table_is_null t row col
    then ok tt
    else check_referencing_tables catalog.tables t table_name row col

unfoldable pub check_pk_not_referenced : Catalog → Table → Name → RowRef → Result (Unit {0})
unfolding check_key_not_referenced
check_pk_not_referenced catalog t table_name row =
    check_key_not_referenced t.pk_col catalog t table_name row

-- The double of a value that goes into a DOUBLE column: an INT is widened.
abbrev pub widened : Value → ℕ
widened v = if is_int_kind v.kind then int_to_double (int_of v.content) else double_of v.content

unfoldable pub assign_as : FieldType → Table → RowRef → ℕ → Value → Table
assign_as ft_int t row col v = table_set_int t row col (int_of v.content)
assign_as ft_double t row col v = table_set_double t row col (widened v)
assign_as ft_bool t row col v = table_set_bool t row col (bool_of v.content)
assign_as ft_text t row col v = table_set_text t row col (text_of v.content)
assign_as ft_err t row col v = t

unfoldable pub assign_value : Table → RowRef → ℕ → Value → Table
unfolding assign_as
assign_value t row col v =
    if v.is_null then table_set_null t row col else assign_as (column_at t col).kind t row col v
