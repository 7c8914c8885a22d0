-- ===== src/Interp/Group.antt =====
-- SELECT with GROUP BY or aggregates, over one table: `exec_select_grouped` of c/src/interp.c, and
-- `interp_exec_select`, which chooses. The arrays are lists, so no allocation is refused, and `qsort`
-- is a parameter. A sum of INTs past 64 bits, which C leaves undefined, wraps around.

pub mod Split
pub mod Totals
use db.Prelude.{
  ℕ, suc, ◌+◌, ◌-◌, ◌%◌, ◌^◌, Bool, true, false, not, ◌&&◌, ◌||◌, Option, none, some, List, [], ◌∷◌,
  ◌++◌, ◌==◌, ltb, if◌then◌else◌, length, take,
}
use db.Prelude.Bits.{word}
use db.Index.{RowRef}
use db.Value.{
  Value, FieldType, ft_int, ft_double, ft_text, value_int, value_double, value_null, int_to_double,
  Sign, less, same, greater, compare_values, is_numeric_kind,
}
use db.Table.{Table, Name, bytes_eq, column_at, null_test}
use db.Table.Cells.{read_column, table_get_int, table_get_double}
use db.Table.Columns.{table_find_column}
use db.Catalog.{Catalog}
use db.Interp.{
  Expr, AggFunc, agg_count, agg_sum, agg_avg, SelectItem, GroupBy, SelectStmt, Result, ok, err,
  ◌>>=◌, no_table, no_column, star_grouped, not_grouped, agg_requires_numeric, join_grouped,
  order_grouped,
}
use db.Interp.Eval.{DoubleOps, is_double_kind}
use db.Interp.Select.{
  From, ResultSet, accepts, from_table, at_rows, at_no_rows, check_condition, scan_rows,
  compare_for_sort, Sort, exec_select_plain,
}

abbrev pub then_sign : Sign → Sign → Sign
then_sign same s = s
then_sign less s = less
then_sign greater s = greater

unfoldable pub group_key_cmp : Table → List ℕ → RowRef → RowRef → Sign
unfolding compare_for_sort
group_key_cmp t [] a b = same
group_key_cmp t (c ∷ cols) a b =
    then_sign (compare_for_sort (read_column t a c) (read_column t b c)) (group_key_cmp t cols a b)

abbrev pub is_same : Sign → Bool
is_same same = true
is_same less = false
is_same greater = false

abbrev pub same_value : Value → Value → Bool
same_value a b = if a.is_null then b.is_null else not b.is_null && is_same (compare_values a b)

unfoldable pub group_key_equal : Table → List ℕ → RowRef → RowRef → Bool
group_key_equal t [] a b = true
group_key_equal t (c ∷ cols) a b =
    same_value (read_column t a c) (read_column t b c) && group_key_equal t cols a b

-- An item with its entries of `item_col` and `item_is_group`; the column of `COUNT(*)` is -1.
pub record ItemPlan : Type 0 where
  pub item : SelectItem
  pub col : ℕ
  pub is_group : Bool

abbrev pub minus_one : ℕ
minus_one = 2 ^ 32 - 1

unfoldable pub count_values : Table → ℕ → List RowRef → ℕ
count_values t col [] = 0
count_values t col (r ∷ rows) =
    let rest = count_values t col rows in if null_test t col r then rest else suc rest

-- The variables of the loop of `AGG_SUM`.
pub record Sums : Type 0 where
  pub any : Bool
  pub dsum : ℕ
  pub isum : ℕ

unfoldable pub add_to_sums : DoubleOps → Table → ℕ → Bool → Sums → RowRef → Sums
add_to_sums f t col is_double s r =
    if null_test t col r
    then s
    else if is_double
    then record s { any = true; dsum = f.add s.dsum (table_get_double t r col) }
    else record s { any = true; isum = (s.isum + table_get_int t r col) % word }

unfoldable pub sum_rows : DoubleOps → Table → ℕ → Bool → Sums → List RowRef → Sums
unfolding add_to_sums
sum_rows f t col is_double s [] = s
sum_rows f t col is_double s (r ∷ rows) =
    sum_rows f t col is_double (add_to_sums f t col is_double s r) rows

abbrev pub no_sums : Sums
no_sums = record { any = false; dsum = 0; isum = 0 }

unfoldable pub agg_sum_value : DoubleOps → Table → ℕ → List RowRef → Value
unfolding sum_rows
agg_sum_value f t col rows =
    let is_double = is_double_kind (column_at t col).kind in
    let s = sum_rows f t col is_double no_sums rows in
    if not s.any
    then value_null (if is_double then ft_double else ft_int)
    else if is_double
    then value_double s.dsum
    else value_int s.isum

-- The variables of the loop of `AGG_AVG`.
pub record Mean : Type 0 where
  pub n : ℕ
  pub sum : ℕ

unfoldable pub add_to_mean : DoubleOps → Table → ℕ → Mean → RowRef → Mean
add_to_mean f t col m r =
    let x =
      if is_double_kind (column_at t col).kind
      then table_get_double t r col
      else int_to_double (table_get_int t r col) in
    if null_test t col r then m else record { n = m.n + 1; sum = f.add m.sum x }

unfoldable pub mean_rows : DoubleOps → Table → ℕ → Mean → List RowRef → Mean
unfolding add_to_mean
mean_rows f t col m [] = m
mean_rows f t col m (r ∷ rows) = mean_rows f t col (add_to_mean f t col m r) rows

unfoldable pub agg_avg_value : DoubleOps → Table → ℕ → List RowRef → Value
unfolding mean_rows
agg_avg_value f t col rows =
    let m = mean_rows f t col (record { n = 0; sum = 0 }) rows in
    if m.n == 0 then value_null ft_double else value_double (f.div m.sum (int_to_double m.n))

abbrev pub first_value : Table → ℕ → List RowRef → Value
first_value t col [] = value_null ft_text
first_value t col (r ∷ rows) = read_column t r col

abbrev pub agg_value : DoubleOps → Table → ItemPlan → List RowRef → AggFunc → Value
agg_value f t p rows agg_count =
    value_int (if p.item.agg_arg_is_star then length rows else count_values t p.col rows)
agg_value f t p rows agg_sum = agg_sum_value f t p.col rows
agg_value f t p rows agg_avg = agg_avg_value f t p.col rows

unfoldable pub group_cell : DoubleOps → Table → ItemPlan → List RowRef → Value
unfolding count_values agg_sum_value agg_avg_value
group_cell f t p rows =
    if p.is_group then first_value t p.col rows else agg_value f t p rows p.item.agg_func

unfoldable pub build_group_row : DoubleOps → Table → List ItemPlan → List RowRef → List Value
unfolding group_cell
build_group_row f t [] rows = []
build_group_row f t (p ∷ plans) rows = group_cell f t p rows ∷ build_group_row f t plans rows

unfoldable pub build_rows :
    DoubleOps → Table → List ItemPlan → List (List RowRef) → List (List Value)
unfolding build_group_row
build_rows f t plans [] = []
build_rows f t plans (g ∷ groups) = build_group_row f t plans g ∷ build_rows f t plans groups

-- The loop over j, which compares with the first row of the group.
unfoldable pub gather : Table → List ℕ → RowRef → List RowRef → List RowRef → List (List RowRef)
gather t cols first group [] = group ∷ []
gather t cols first group (r ∷ rows) =
    let longer = gather t cols first (group ++ (r ∷ [])) rows in
    let next = group ∷ gather t cols r (r ∷ []) rows in
    if group_key_equal t cols first r then longer else next

-- The loop over i.
unfoldable pub split_groups : Table → List ℕ → List RowRef → List (List RowRef)
unfolding gather group_key_equal
split_groups t cols [] = []
split_groups t cols (r ∷ rows) = gather t cols r (r ∷ []) rows

abbrev pub fits_query : Option Name → Name → Bool
fits_query none table = true
fits_query (some qual) table = bytes_eq qual table

abbrev pub column_or : Table → Name → Name → Result ℕ
column_or t table column = elim (table_find_column t column) [
  | none ↦ err (no_column (some table) column)
  | some col ↦ ok col
]

abbrev pub qualifier_of : Option Name → Name
qualifier_of none = []
qualifier_of (some qual) = qual

abbrev pub check_qualifier : Name → GroupBy → Result (Unit {0})
check_qualifier table g =
    if fits_query g.table table then ok tt else err (no_table (qualifier_of g.table))

unfoldable pub group_columns : Table → Name → List GroupBy → Result (List ℕ)
group_columns t table [] = ok []
group_columns t table (g ∷ gs) = do
  _ ← check_qualifier table g
  col ← column_or t table g.column
  rest ← group_columns t table gs
  ok (col ∷ rest)

abbrev pub in_group : ℕ → List ℕ → Bool
in_group col [] = false
in_group col (c ∷ cols) = (c == col) || in_group col cols

abbrev pub is_counting : AggFunc → Bool
is_counting agg_count = true
is_counting agg_sum = false
is_counting agg_avg = false

unfoldable pub plan_column : Table → Name → List ℕ → SelectItem → Result ItemPlan
plan_column t table group_by i = do
  col ← column_or t table i.column
  (if in_group col group_by
      then ok (record { item = i; col = col; is_group = true })
      else err (not_grouped i.column))

unfoldable pub plan_agg : Table → Name → SelectItem → Result ItemPlan
plan_agg t table i =
    if i.agg_arg_is_star then ok (record { item = i; col = minus_one; is_group = false }) else (do
      col ← column_or t table i.agg_arg_column
      (if not (is_counting i.agg_func) && not (is_numeric_kind (column_at t col).kind)
          then err (agg_requires_numeric i.agg_func (column_at t col).kind)
          else ok (record { item = i; col = col; is_group = false })))

unfoldable pub plan_items : Table → Name → List ℕ → List SelectItem → Result (List ItemPlan)
unfolding plan_column plan_agg
plan_items t table group_by [] = ok []
plan_items t table group_by (i ∷ is) = do
  plan ← if i.is_agg then plan_agg t table i else plan_column t table group_by i
  rest ← plan_items t table group_by is
  ok (plan ∷ rest)

abbrev pub listed : Option (List SelectItem) → Result (List SelectItem)
listed none = err star_grouped
listed (some items) = ok items

-- The live rows that the condition accepts.
unfoldable pub accepted_rows :
    DoubleOps → Option Expr → From → List Value → List RowRef → List RowRef
unfolding accepts at_rows
accepted_rows f condition from params [] = []
accepted_rows f condition from params (r ∷ rows) =
    let rest = accepted_rows f condition from params rows in
    if accepts f condition (record { sources = at_rows (from ∷ []) (r ∷ []); params = params })
    then r ∷ rest
    else rest

abbrev func_name : AggFunc → Name
func_name agg_count = 99 ∷ 111 ∷ 117 ∷ 110 ∷ 116 ∷ []
func_name agg_sum = 115 ∷ 117 ∷ 109 ∷ []
func_name agg_avg = 97 ∷ 118 ∷ 103 ∷ []

-- `name`, `f(*)` or `f(name)`, cut to the 191 bytes that `namebuf` has room for.
unfoldable pub group_title : SelectItem → Name
group_title i = take 191 (
    if not i.is_agg
    then i.column
    else func_name i.agg_func
      ++ (40 ∷ ((if i.agg_arg_is_star then 42 ∷ [] else i.agg_arg_column) ++ (41 ∷ []))))

unfoldable pub build_group_col_names : List SelectItem → List Name
unfolding group_title
build_group_col_names [] = []
build_group_col_names (i ∷ is) = group_title i ∷ build_group_col_names is

abbrev pub RowSort : Type 0
RowSort = (RowRef → RowRef → Sign) → List RowRef → List RowRef

-- Without GROUP BY all rows are one group, also where there is none.
unfoldable pub groups_of : RowSort → Table → List ℕ → List RowRef → List (List RowRef)
unfolding split_groups group_key_cmp
groups_of sort t [] rows = rows ∷ []
groups_of sort t (c ∷ cols) rows =
    split_groups t (c ∷ cols) (sort (group_key_cmp t (c ∷ cols)) rows)

unfoldable pub exec_select_grouped :
    DoubleOps → RowSort → SelectStmt → Catalog → List Value → Result ResultSet
unfolding from_table at_no_rows check_condition scan_rows group_columns plan_items accepted_rows
    build_group_col_names build_rows groups_of
exec_select_grouped f sort stmt catalog params = do
  from ← from_table catalog stmt.table
  items ← listed stmt.items
  cols ← group_columns from.table stmt.table stmt.group_by
  plans ← plan_items from.table stmt.table cols items
  _ ← check_condition stmt.condition (record { sources = at_no_rows (from ∷ []); params = params })
  let rows = accepted_rows f stmt.condition from params (scan_rows from.table)
  ok (record {
    col_names = build_group_col_names items;
    rows = build_rows f from.table plans (groups_of sort from.table cols rows);
  })

abbrev pub any_agg : List SelectItem → Bool
any_agg [] = false
any_agg (i ∷ is) = i.is_agg || any_agg is

abbrev pub has_agg : Option (List SelectItem) → Bool
has_agg none = false
has_agg (some items) = any_agg items

abbrev pub is_present {ℓ} : {A : Type ℓ} → Option A → Bool
is_present none = false
is_present (some x) = true

unfoldable pub interp_exec_select :
    DoubleOps → Sort → RowSort → SelectStmt → Catalog → List Value → Result ResultSet
unfolding exec_select_grouped exec_select_plain
interp_exec_select f sort row_sort stmt catalog params =
    let grouped = has_agg stmt.items || ltb 0 (length stmt.group_by) in
    if grouped && ltb 0 (length stmt.joins)
    then err join_grouped
    else if grouped && (is_present stmt.order_by || is_present stmt.limit)
    then err order_grouped
    else if grouped
    then exec_select_grouped f row_sort stmt catalog params
    else exec_select_plain f sort stmt catalog params
