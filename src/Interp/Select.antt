-- ===== src/Interp/Select.antt =====
-- SELECT without grouping: `exec_select_plain` of c/src/interp.c. Its scratch arrays and its result
-- are lists, so no allocation is refused here. `qsort`, which leaves open where equal rows go, is
-- the parameter `sort`.
use db.Prelude.{
  ℕ, zero, suc, ◌+◌, ◌^◌, Bool, true, false, not, ◌&&◌, ◌||◌, Option, none, some, List, [], ◌∷◌,
  ◌++◌, ltb, leb, ◌==◌, if◌then◌else◌, length, get_or, take,
}
use db.Index.{RowRef, row_ref_invalid, Visitor}
use db.Value.{Value, FieldType, Sign, less, same, greater, value_hash, compare_values}
use db.Table.{Table, Name, Column, bytes_eq, column_at}
use db.Table.Rows.{table_row_is_dead}
use db.Table.Cells.{read_column}
use db.Table.Keys.{table_find_by_pk_hash, table_pk_index_usable}
use db.Catalog.{Catalog, catalog_find}
use db.Cursor.{Cursor, cursor_init, cursor_next}
use db.Interp.{
  Expr, ExprValueType, field_type_to_expr_type, JoinClause, SelectItem, OrderBy, SelectStmt,
  RowSource, RowCtx, Result, ok, err, ◌>>=◌, no_table, too_many_tables, self_join, on_not_bool,
}
use db.Interp.Names.{resolve_column}
use db.Interp.Types.{infer_expr_type, validate_where, is_bool_type, is_null_type, etype_number}
use db.Interp.Eval.{DoubleOps, Tri, tri_true, eval_tri, eval_value}
use db.Interp.Checks.{table_at, col_name}
use db.Interp.Points.{find_pk_equality, find_join_pk_equality}

-- A table of the query, by its name in the catalog.
pub record From : Type 0 where
  pub name : Name
  pub table : Table

abbrev pub is_true : Tri → Bool
is_true tri_true = true
is_true _ = false

-- A missing condition accepts every row.
unfoldable pub accepts : DoubleOps → Option Expr → RowCtx → Bool
accepts f none ctx = true
accepts f (some e) ctx = is_true (eval_tri f e ctx)

abbrev pub found_table : Name → Option Table → Result From
found_table name none = err (no_table name)
found_table name (some t) = ok (record { name = name; table = t })

abbrev pub entry_at : Catalog → Option ℕ → Option Table
entry_at catalog none = none
entry_at catalog (some i) = table_at catalog.tables i

unfoldable pub from_table : Catalog → Name → Result From
from_table catalog name = found_table name (entry_at catalog (catalog_find catalog name))

unfoldable pub from_joins : Catalog → List JoinClause → Result (List From)
unfolding from_table
from_joins catalog [] = ok []
from_joins catalog (j ∷ js) = do
  t ← from_table catalog j.table
  rest ← from_joins catalog js
  ok (t ∷ rest)

unfoldable pub is_named : Name → List From → Bool
is_named name [] = false
is_named name (t ∷ ts) = bytes_eq name t.name || is_named name ts

unfoldable pub check_self_join : List From → Result (Unit {0})
unfolding is_named
check_self_join [] = ok tt
check_self_join (t ∷ ts) =
    let rest = check_self_join ts in if is_named t.name ts then err (self_join t.name) else rest

-- The tables at the rows of a tuple, as far as it goes.
unfoldable pub at_rows : List From → List RowRef → List RowSource
at_rows [] rows = []
at_rows (t ∷ ts) [] = []
at_rows (t ∷ ts) (r ∷ rows) = record { alias = t.name; table = t.table; row = r } ∷ at_rows ts rows

unfoldable pub at_no_rows : List From → List RowSource
at_no_rows [] = []
at_no_rows (t ∷ ts) =
    record { alias = t.name; table = t.table; row = row_ref_invalid } ∷ at_no_rows ts

abbrev pub on_type : ExprValueType → Result (Unit {0})
on_type ty = if not (is_bool_type ty) && not (is_null_type ty) then err (on_not_bool ty) else ok tt

unfoldable pub check_joins : List JoinClause → RowCtx → Result (Unit {0})
check_joins [] ctx = ok tt
check_joins (j ∷ js) ctx = do ty ← infer_expr_type j.on ctx; _ ← on_type ty; check_joins js ctx

unfoldable pub check_condition : Option Expr → RowCtx → Result (Unit {0})
check_condition none ctx = ok tt
check_condition (some e) ctx = validate_where e ctx

unfoldable pub resolve_items : List SelectItem → RowCtx → Result (List (ℕ × ℕ))
resolve_items [] ctx = ok []
resolve_items (i ∷ is) ctx = do
  found ← resolve_column ctx i.table i.column
  rest ← resolve_items is ctx
  ok (found ∷ rest)

-- Every column of every table, for `*`.
unfoldable pub columns_from : ℕ → ℕ → ℕ → List (ℕ × ℕ)
columns_from zero src col = []
columns_from (suc n) src col = (src, col) ∷ columns_from n src (col + 1)

unfoldable pub all_columns : List From → ℕ → List (ℕ × ℕ)
unfolding columns_from
all_columns [] src = []
all_columns (t ∷ ts) src = columns_from (length t.table.columns) src 0 ++ all_columns ts (src + 1)

unfoldable pub projection : Option (List SelectItem) → List From → RowCtx → Result (List (ℕ × ℕ))
unfolding resolve_items all_columns
projection none tables ctx = ok (all_columns tables 0)
projection (some items) tables ctx = resolve_items items ctx

unfoldable pub order_column : Option OrderBy → RowCtx → Result (Option (ℕ × ℕ × Bool))
order_column none ctx = ok none
order_column (some o) ctx = do
  found ← resolve_column ctx o.table o.column
  ok (some (found.0, found.1, o.desc))

-- `collect_pk_row`: the rows in the order of the visits.
unfoldable pub collect_pk_row : Visitor (List RowRef)
collect_pk_row rows row = (true, rows ++ (row ∷ []))

unfoldable pub drop_dead : Table → List RowRef → List RowRef
drop_dead t [] = []
drop_dead t (r ∷ rows) =
    let rest = drop_dead t rows in if table_row_is_dead t r then rest else r ∷ rest

-- The live rows that the index has under the hash of the value.
unfoldable pub lookup_rows : Table → Value → List RowRef
unfolding collect_pk_row drop_dead
lookup_rows t v = drop_dead t (table_find_by_pk_hash collect_pk_row t (value_hash v) [])

-- The cursor's rows: it yields at most one for each row of the table.
unfoldable pub cursor_rows : ℕ → Cursor → List RowRef
cursor_rows zero c = []
cursor_rows (suc rounds) c = elim (cursor_next c).0 [
  | none ↦ []
  | some row ↦ row ∷ cursor_rows rounds (cursor_next c).1
]

unfoldable pub scan_rows : Table → List RowRef
unfolding cursor_rows
scan_rows t = cursor_rows t.n_rows (cursor_init t)

module _ (f : DoubleOps) where
  unfoldable pub key_of_condition : Option ℕ → Option Expr → Table → RowCtx → Option Value
  key_of_condition none condition t ctx = none
  key_of_condition (some pk) none t ctx = none
  key_of_condition (some pk) (some e) t ctx =
      if not (table_pk_index_usable t)
      then none
      else find_pk_equality f e ctx (col_name t pk) (column_at t pk).kind

  -- The rows of the first table: a point lookup, where it is the only one and the condition
  -- fixes its key, or all its live rows.
  unfoldable pub first_rows : SelectStmt → Table → RowCtx → List RowRef
  unfolding lookup_rows scan_rows key_of_condition
  first_rows stmt t ctx =
      if length stmt.joins == 0
      then elim (key_of_condition t.pk_col stmt.condition t ctx) [
        | none ↦ scan_rows t
        | some v ↦ lookup_rows t v
      ]
      else scan_rows t

  abbrev pub key_if_typed : Result ExprValueType → FieldType → Expr → Option Expr
  key_if_typed (err _) pk_type e = none
  key_if_typed (ok ty) pk_type e =
      if etype_number ty == etype_number (field_type_to_expr_type pk_type) then some e else none

  abbrev outer_key : Option Expr → RowCtx → FieldType → Option Expr
  outer_key none ctx pk_type = none
  outer_key (some e) ctx pk_type = key_if_typed (infer_expr_type e ctx) pk_type e

  -- `outer_key_expr` of a join step.
  unfoldable pub join_key : Option ℕ → Expr → From → RowCtx → Option Expr
  join_key none on inner ctx = none
  join_key (some pk) on inner ctx =
      if table_pk_index_usable inner.table
      then outer_key (find_join_pk_equality on inner.name (col_name inner.table pk)) ctx
          (column_at inner.table pk).kind
      else none

  -- The rows of the joined table that are tried for a tuple.
  unfoldable pub inner_rows : Option Expr → From → RowCtx → List RowRef
  inner_rows none inner ctx = scan_rows inner.table
  inner_rows (some e) inner ctx =
      let key = eval_value f e ctx in if key.is_null then [] else lookup_rows inner.table key

  -- The tuple extended by each row that the ON clause accepts.
  unfoldable pub extend :
      Expr → List From → List Value → List RowRef → List RowRef → List (List RowRef)
  unfolding at_rows
  extend on tables params tuple [] = []
  extend on tables params tuple (r ∷ rows) =
      let rest = extend on tables params tuple rows in
      let longer = tuple ++ (r ∷ []) in
      if is_true (eval_tri f on (record { sources = at_rows tables longer; params = params }))
      then longer ∷ rest
      else rest

  -- One join step, over the tuples so far.
  unfoldable pub join_tuples :
      Option Expr → Expr → List From → From → List Value → List (List RowRef) → List (List RowRef)
  unfolding extend inner_rows at_rows
  join_tuples key on left inner params [] = []
  join_tuples key on left inner params (tuple ∷ tuples) =
      let ctx : RowCtx = record { sources = at_rows left tuple; params = params } in
      extend on (left ++ (inner ∷ [])) params tuple (inner_rows key inner ctx)
      ++ join_tuples key on left inner params tuples

  unfoldable pub join_all :
      List From → List From → List JoinClause → List Value → List (List RowRef) → List (List RowRef)
  unfolding join_tuples join_key at_no_rows
  join_all left [] joins params tuples = tuples
  join_all left (inner ∷ rest) [] params tuples = tuples
  join_all left (inner ∷ rest) (j ∷ js) params tuples =
      let outer : RowCtx = record { sources = at_no_rows left; params = params } in
      let key = join_key inner.table.pk_col j.on inner outer in
      join_all (left ++ (inner ∷ [])) rest js params (join_tuples key j.on left inner params tuples)

  unfoldable pub matched :
      Option Expr → List From → List Value → List (List RowRef) → List (List RowRef)
  unfolding accepts at_rows
  matched condition tables params [] = []
  matched condition tables params (tuple ∷ tuples) =
      let rest = matched condition tables params tuples in
      if accepts f condition (record { sources = at_rows tables tuple; params = params })
      then tuple ∷ rest
      else rest

unfoldable pub opposite : Sign → Sign
opposite less = greater
opposite same = same
opposite greater = less

-- `join_sort_cmp`: NULL comes first.
unfoldable pub compare_for_sort : Value → Value → Sign
compare_for_sort a b =
    if a.is_null && b.is_null
    then same
    else if a.is_null
    then less
    else if b.is_null
    then greater
    else compare_values a b

unfoldable pub join_sort_cmp : Table → ℕ → ℕ → Bool → List RowRef → List RowRef → Sign
unfolding compare_for_sort opposite
join_sort_cmp t src col desc a b =
    let c =
      compare_for_sort (read_column t (get_or a src row_ref_invalid) col)
        (read_column t (get_or b src row_ref_invalid) col) in
    if desc then opposite c else c

abbrev pub Sort : Type 0
Sort = (List RowRef → List RowRef → Sign) → List (List RowRef) → List (List RowRef)

abbrev from_at : List From → ℕ → Option Table
from_at [] i = none
from_at (t ∷ ts) zero = some t.table
from_at (t ∷ ts) (suc i) = from_at ts i

unfoldable pub ordered :
    Sort → Option (ℕ × ℕ × Bool) → List From → List (List RowRef) → List (List RowRef)
unfolding join_sort_cmp
ordered sort none tables tuples = tuples
ordered sort (some o) tables tuples = elim (from_at tables o.0) [
  | none ↦ tuples
  | some t ↦ sort (join_sort_cmp t o.0 o.1 o.2) tuples
]

-- A negative limit is 0.
unfoldable pub limited : Option ℕ → List (List RowRef) → List (List RowRef)
limited none tuples = tuples
limited (some lim) tuples = take (if leb (2 ^ 63) lim then 0 else lim) tuples

unfoldable pub project_row : List From → List RowRef → List (ℕ × ℕ) → List Value
project_row tables tuple [] = []
project_row tables tuple (c ∷ cs) = elim (from_at tables c.0) [
  | none ↦ project_row tables tuple cs
  | some t ↦ read_column t (get_or tuple c.0 row_ref_invalid) c.1 ∷ project_row tables tuple cs
]

unfoldable pub project_rows : List From → List (ℕ × ℕ) → List (List RowRef) → List (List Value)
unfolding project_row
project_rows tables columns [] = []
project_rows tables columns (tuple ∷ tuples) =
    project_row tables tuple columns ∷ project_rows tables columns tuples

unfoldable pub singletons : List RowRef → List (List RowRef)
singletons [] = []
singletons (r ∷ rows) = (r ∷ []) ∷ singletons rows

-- `char namebuf[192]`, with the terminator.
abbrev name_limit : ℕ
name_limit = 191

-- `"%s.%s"` where there are several tables, `"%s"` else.
unfoldable pub column_title : Bool → Name → Name → Name
column_title qualified table column =
    take name_limit (if qualified then table ++ (46 ∷ column) else column)

unfoldable pub table_titles : Bool → Name → List Column → List Name
unfolding column_title
table_titles qualified table [] = []
table_titles qualified table (c ∷ cs) =
    column_title qualified table c.name ∷ table_titles qualified table cs

unfoldable pub all_titles : Bool → List From → List Name
unfolding table_titles
all_titles qualified [] = []
all_titles qualified (t ∷ ts) =
    table_titles qualified t.name t.table.columns ++ all_titles qualified ts

unfoldable pub item_titles : List SelectItem → List Name
item_titles [] = []
item_titles (i ∷ is) = i.column ∷ item_titles is

unfoldable pub titles : Option (List SelectItem) → List From → List Name
unfolding all_titles item_titles
titles none tables = all_titles (ltb 1 (length tables)) tables
titles (some items) tables = item_titles items

-- c/include/result.h: the names of the columns, and the cells by rows.
pub record ResultSet : Type 0 where
  pub col_names : List Name
  pub rows : List (List Value)

abbrev pub max_join_sources : ℕ
max_join_sources = 8

abbrev check_count : List JoinClause → Result (Unit {0})
check_count joins = if ltb max_join_sources (1 + length joins) then err too_many_tables else ok tt

-- The result.
unfoldable pub exec_select_plain :
    DoubleOps → Sort → SelectStmt → Catalog → List Value → Result ResultSet
unfolding from_table from_joins check_self_join at_no_rows check_joins check_condition projection
    order_column first_rows join_all matched ordered limited project_rows singletons titles
exec_select_plain f sort stmt catalog params = do
  _ ← check_count stmt.joins
  first ← from_table catalog stmt.table
  joined ← from_joins catalog stmt.joins
  _ ← check_self_join (first ∷ joined)
  let ctx : RowCtx = record { sources = at_no_rows (first ∷ joined); params = params }
  _ ← check_joins stmt.joins ctx
  _ ← check_condition stmt.condition ctx
  columns ← projection stmt.items (first ∷ joined) ctx
  order ← order_column stmt.order_by ctx
  let seeds = singletons (first_rows f stmt first.table ctx)
  let tuples = join_all f (first ∷ []) joined stmt.joins params seeds
  let kept = matched f stmt.condition (first ∷ joined) params tuples
  ok (record {
    col_names = titles stmt.items (first ∷ joined);
    rows =
        project_rows (first ∷ joined) columns
          (limited stmt.limit (ordered sort order (first ∷ joined) kept));
  })
