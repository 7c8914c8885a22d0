-- ===== src/Tests/Groups.antt =====
-- A run of a SELECT with GROUP BY.
use db.Prelude.{◌≡◌, refl, true, false, some, none, List, [], ◌∷◌, ◌%◌}
use db.Prelude.Bits.{word}
use db.Bitmap.{test_bit, test_byte}
use db.Index.{RowRef}
use db.Value.{
  Sign, less, same, greater, value_int, compare_values, is_numeric_kind, double_lt, int_to_double,
}
use db.Table.{Table, int_cell, null_test, dead_test, bytes_eq}
use db.Table.Cells.{read_column, table_get_int, read_cell}
use db.Table.Columns.{table_find_column, find_name}
use db.Table.Rows.{table_row_is_dead}
use db.Catalog.{Catalog, catalog_find, find_from}
use db.Cursor.{cursor_init, cursor_next, cursor_loop}
use db.Interp.{agg_count, agg_sum, SelectItem, SelectStmt, ok}
use db.Interp.Checks.{table_at}
use db.Interp.Select.{
  ResultSet, from_table, at_no_rows, at_rows, accepts, check_condition, scan_rows, cursor_rows,
  compare_for_sort,
}
use db.Interp.Group.{
  RowSort, ItemPlan, group_columns, plan_items, plan_agg, plan_column, accepted_rows, group_title,
  build_group_col_names, build_rows, build_group_row, group_cell, count_values, agg_sum_value,
  sum_rows, add_to_sums, groups_of, split_groups, gather, group_key_equal, group_key_cmp,
  exec_select_grouped,
}
use db.Interp.Group.Split.{IsGroupedResult, exec_select_grouped-IsGroupedResult}
use db.Interp.Group.Totals.{cell_total, cell_amount, group_cell-split_groups}
use db.Tests.{one_row, id_column, users}
use db.Tests.Queries.{some_ops, id_name}

abbrev put_before : Sign → RowRef → RowRef → List RowRef → List RowRef → List RowRef
put_before greater r q rows later = q ∷ later
put_before less r q rows later = r ∷ q ∷ rows
put_before same r q rows later = r ∷ q ∷ rows

abbrev place_row : (RowRef → RowRef → Sign) → RowRef → List RowRef → List RowRef
place_row cmp r [] = r ∷ []
place_row cmp r (q ∷ rows) = put_before (cmp r q) r q rows (place_row cmp r rows)

abbrev insertion_sort : RowSort
insertion_sort cmp [] = []
insertion_sort cmp (r ∷ rows) = place_row cmp r (insertion_sort cmp rows)

abbrev pub ages : Table
ages = record one_row {
  columns =
      record id_column {
        cells = int_cell 7 ∷ int_cell 5 ∷ int_cell 7 ∷ int_cell 5 ∷ [];
        nulls = 0 ∷ [];
      }
      ∷ [];
  n_rows = 3;
  pk_col = none;
}

abbrev people : Catalog
people = record users { tables = record { name = 117 ∷ []; path = none; table = ages } ∷ [] }

abbrev count_star : SelectItem
count_star = record {
  is_agg = true;
  table = none;
  column = [];
  agg_func = agg_count;
  agg_arg_is_star = true;
  agg_arg_table = none;
  agg_arg_column = [];
}

abbrev sum_id : SelectItem
sum_id = record count_star { agg_func = agg_sum; agg_arg_is_star = false; agg_arg_column = id_name }

abbrev plain_id : SelectItem
plain_id = record count_star { is_agg = false; agg_arg_is_star = false; column = id_name }

-- SELECT id, COUNT(*), SUM(id) FROM u GROUP BY id
abbrev by_id : SelectStmt
by_id = record {
  items = some (plain_id ∷ count_star ∷ sum_id ∷ []);
  table = 117 ∷ [];
  joins = [];
  condition = none;
  group_by = record { table = none; column = id_name } ∷ [];
  order_by = none;
  limit = none;
}

abbrev by_id_answer : ResultSet
by_id_answer = record {
  col_names =
      id_name
      ∷ (99 ∷ 111 ∷ 117 ∷ 110 ∷ 116 ∷ 40 ∷ 42 ∷ 41 ∷ [])
      ∷ (115 ∷ 117 ∷ 109 ∷ 40 ∷ 105 ∷ 100 ∷ 41 ∷ [])
      ∷ [];
  rows =
      (value_int 5 ∷ value_int 1 ∷ value_int 5 ∷ [])
      ∷ (value_int 7 ∷ value_int 2 ∷ value_int 14 ∷ [])
      ∷ [];
}

by_id_runs : exec_select_grouped some_ops insertion_sort by_id people [] ≡ ok by_id_answer
unfolding exec_select_grouped from_table catalog_find find_from bytes_eq table_at group_columns
    table_find_column find_name plan_items plan_column plan_agg is_numeric_kind check_condition
    at_no_rows scan_rows cursor_rows cursor_init cursor_next cursor_loop table_row_is_dead dead_test
    test_bit test_byte accepted_rows accepts at_rows groups_of split_groups gather group_key_cmp
    group_key_equal compare_for_sort read_column read_cell table_get_int null_test compare_values
    build_group_col_names group_title build_rows build_group_row group_cell count_values
    agg_sum_value sum_rows add_to_sums double_lt int_to_double
by_id_runs = refl

exec_select_grouped-IsGroupedResult_example :
    IsGroupedResult some_ops insertion_sort by_id people [] by_id_answer
exec_select_grouped-IsGroupedResult_example =
    exec_select_grouped-IsGroupedResult some_ops insertion_sort by_id people [] by_id_answer
      (λ e. cc (e)) by_id_runs

abbrev sum_plan : ItemPlan
sum_plan = record { item = sum_id; col = 0; is_group = false }

group_cell-split_groups_example :
    cell_total some_ops ages sum_plan (split_groups ages (0 ∷ []) (1 ∷ 0 ∷ 2 ∷ [])) % word
    ≡ cell_amount some_ops ages sum_plan (1 ∷ 0 ∷ 2 ∷ []) % word
group_cell-split_groups_example =
    group_cell-split_groups some_ops ages sum_plan (0 ∷ []) (1 ∷ 0 ∷ 2 ∷ []) refl refl
