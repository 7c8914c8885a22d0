-- ===== src/Table/Columns.antt =====
-- Creating a table, and its columns: `table_init` to `table_drop_column` of c/src/table.c, and the
-- foreign-key declarations of a column.
use db.Prelude.{
  ℕ, zero, suc, ◌+◌, ◌-◌, ◌*◌, ◌/◌, Bool, true, false, not, ◌||◌, Option, none, some, List, [], ◌∷◌,
  ◌++◌, ltb, leb, ◌==◌, if◌then◌else◌, length, replicate,
}
use db.Prelude.Bits.{size_max}
use db.Arena.{
  Arena, arena_init, arena_term, arena_alloc, arena_zalloc, arena_failed, arena_checked_mul,
}
use db.Index.{row_index_clear}
use db.Value.{FieldType}
use db.Table.{
  Table, Column, Name, FkAction, bytes_eq, field_width, field_align, zero_cell, column_at,
  no_column, with_column, table_misuse,
}

-- Allocations whose results are looked at together, through `arena_failed`.
unfoldable pub alloc_all : Arena → List (ℕ × ℕ) → Arena
alloc_all a [] = a
alloc_all a ((size, align) ∷ rest) = alloc_all (arena_alloc a size align).1 rest

-- arena_strdup of a name: its bytes and the terminator.
unfoldable pub strdup_size : Name → ℕ × ℕ
strdup_size name = (length name + 1, 1)

-- The nine arrays of n entries, in the order of the source.
unfoldable pub column_arrays : ℕ → List (ℕ × ℕ)
column_arrays n =
    (n * 8, 8)
    ∷ (n * 4, 4)
    ∷ (n * 8, 8)
    ∷ (n * 8, 8)
    ∷ (n * 8, 8)
    ∷ (n * 8, 8)
    ∷ (n * 4, 4)
    ∷ (n * 4, 4)
    ∷ (n * 1, 1)
    ∷ []

unfoldable pub new_column : Name × FieldType → Column
new_column (name, kind) = record no_column { name = name; kind = kind }

unfoldable pub new_columns : List (Name × FieldType) → List Column
unfolding new_column
new_columns [] = []
new_columns (c ∷ cs) = new_column c ∷ new_columns cs

unfoldable pub has_err_type : List (Name × FieldType) → Bool
has_err_type [] = false
has_err_type (c ∷ cs) = (field_width c.1 == 0) || has_err_type cs

unfoldable pub strdup_all : Arena → List (Name × FieldType) → Arena
unfolding strdup_size
strdup_all a [] = a
strdup_all a (c ∷ cs) = strdup_all (arena_alloc a (length c.0 + 1) 1).1 cs

unfoldable pub empty_table : Arena → Arena → Table
empty_table arena heap = record {
  columns = [];
  n_rows = 0;
  row_cap = 0;
  dead = [];
  n_dead = 0;
  heap = heap;
  heap_data = [];
  heap_len = 0;
  heap_cap = 0;
  pk_col = none;
  pk_index = row_index_clear;
  wal_generation = 0;
  arena = arena;
}

-- The arrays, the names, and last the column count: a failure leaves the table without columns.
unfoldable pub init_columns : Table → List (Name × FieldType) → Table
unfolding alloc_all column_arrays strdup_all new_columns
init_columns t cols =
    let arrays = alloc_all t.arena (column_arrays (length cols)) in
    let names = strdup_all arrays cols in
    if arena_failed arrays
    then record t { arena = arrays }
    else if arena_failed names
    then record t { arena = names }
    else record t { arena = names; columns = new_columns cols }

-- The two streams answer the block requests of the two arenas.
unfoldable pub table_init : (ℕ → Option ℕ) → (ℕ → Option ℕ) → List (Name × FieldType) → Table
unfolding empty_table has_err_type init_columns
table_init supply heap_supply cols =
    let t = empty_table (arena_init supply) (arena_init heap_supply) in
    if has_err_type cols then table_misuse t else init_columns t cols

unfoldable pub table_term : Table → Table
table_term t = record t { arena = arena_term t.arena; heap = arena_term t.heap }

unfoldable pub find_name : List Column → Name → ℕ → Option ℕ
find_name [] name i = none
find_name (c ∷ cs) name i =
    let rest = find_name cs name (i + 1) in if bytes_eq c.name name then some i else rest

-- -1 is `none`.
unfoldable pub table_find_column : Table → Name → Option ℕ
unfolding find_name
table_find_column t name = find_name t.columns name 0

-- The arrays regrown by one entry, the name, the cells and the null bitmap of the new column.
unfoldable pub add_column_arena : Table → Name → FieldType → Arena
unfolding alloc_all column_arrays strdup_size
add_column_arena t name kind =
    let a = alloc_all t.arena (column_arrays (length t.columns + 1) ++ (strdup_size name ∷ [])) in
    let (bytes, b) = arena_checked_mul a t.row_cap (field_width kind) in
    let c = (arena_zalloc b bytes (field_align kind)).1 in (arena_alloc c ((t.row_cap + 7) / 8) 1).1

-- Every row of the new column starts as NULL: its bitmap is all ones.
unfoldable pub table_add_column : Table → Name → FieldType → ℕ × Table
unfolding add_column_arena
table_add_column t name kind =
    let arena = add_column_arena t name kind in
    let column : Column = record no_column {
      name = name;
      kind = kind;
      cells = replicate t.row_cap (zero_cell kind);
      nulls = replicate ((t.row_cap + 7) / 8) 255;
    } in
    if field_width kind == 0
    then (size_max, table_misuse t)
    else if arena_failed arena
    then (size_max, record t { arena = arena })
    else (length t.columns, record t { arena = arena; columns = t.columns ++ (column ∷ []) })

-- The memmoves: the columns from `col + 1` on move down by one.
unfoldable pub remove_at : List Column → ℕ → List Column
remove_at [] col = []
remove_at (c ∷ cs) zero = cs
remove_at (c ∷ cs) (suc col) = c ∷ remove_at cs col

unfoldable pub drop_pk : Table → Option ℕ → ℕ → Table
drop_pk t none col = t
drop_pk t (some pk) col =
    if pk == col
    then record t { pk_col = none; pk_index = row_index_clear }
    else if ltb col pk
    then record t { pk_col = some (pk - 1) }
    else t

unfoldable pub table_drop_column : Table → ℕ → Bool × Table
unfolding remove_at drop_pk
table_drop_column t col =
    if leb (length t.columns) 1
    then (false, t)
    else (true, drop_pk (record t { columns = remove_at t.columns col }) t.pk_col col)

unfoldable pub fk_column : Column → Name → Name → FkAction → FkAction → Column
fk_column c ref_table ref_column on_delete on_update = record c {
  fk = some (ref_table, ref_column);
  fk_on_delete = on_delete;
  fk_on_update = on_update;
}

-- Nothing changes where one of the two names cannot be copied.
unfoldable pub table_set_foreign_key : Table → ℕ → Name → Name → FkAction → FkAction → Table
unfolding fk_column
table_set_foreign_key t col ref_table ref_column on_delete on_update =
    let (got_table, a) = arena_alloc t.arena (length ref_table + 1) 1 in
    let (got_column, b) = arena_alloc a (length ref_column + 1) 1 in
    let u = record t { arena = b } in
    if not got_table || not got_column
    then u
    else with_column u col (fk_column (column_at t col) ref_table ref_column on_delete on_update)

unfoldable pub table_get_foreign_key : Table → ℕ → Option (Name × Name)
table_get_foreign_key t col = (column_at t col).fk

unfoldable pub table_get_on_delete : Table → ℕ → FkAction
table_get_on_delete t col = (column_at t col).fk_on_delete

unfoldable pub table_get_on_update : Table → ℕ → FkAction
table_get_on_update t col = (column_at t col).fk_on_update
