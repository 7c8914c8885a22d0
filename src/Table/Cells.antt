-- ===== src/Table/Cells.antt =====
-- Reading and writing cells: the typed accessors and the text heap of c/src/table.c, and
-- `read_column` of c/src/value.c.
use db.Prelude.{
  ℕ, zero, suc, ◌+◌, ◌-◌, ◌^◌, Bool, true, false, not, none, some, List, ◌++◌, ltb, leb, ◌==◌,
  if◌then◌else◌, get_or, set, length, take, drop, ◌&&◌,
}
use db.Prelude.Bits.{size_max}
use db.Arena.{
  Arena, arena_fail, arena_fail_oom, arena_failed, arena_grow, arena_checked_add, arena_checked_mul,
}
use db.Index.{RowRef, row_index_insert}
use db.Value.{
  Value, FieldType, ft_int, ft_double, ft_bool, ft_text, ft_err, value_int, value_double,
  value_bool, value_text, value_null, value_hash,
}
use db.Table.{
  Table, Cell, int_cell, double_cell, bool_cell, text_cell, StringRef, zero_cell, column_at,
  with_column, null_test, null_clear,
}
use db.Table.Rows.{regrow}

abbrev pub cell_at : Table → RowRef → ℕ → Cell
cell_at t row col = get_or (column_at t col).cells row (zero_cell (column_at t col).kind)

abbrev pub put_cell : Table → RowRef → ℕ → Cell → Table
put_cell t row col x =
    let c = column_at t col in with_column t col (record c { cells = set c.cells row x })

abbrev pub as_int : Cell → ℕ
as_int (int_cell v) = v
as_int _ = 0

abbrev pub as_double : Cell → ℕ
as_double (double_cell v) = v
as_double _ = 0

abbrev pub as_bool : Cell → Bool
as_bool (bool_cell v) = v
as_bool _ = false

abbrev pub as_ref : Cell → StringRef
as_ref (text_cell r) = r
as_ref _ = record { offset = 0; len = 0 }

unfoldable pub table_get_int : Table → RowRef → ℕ → ℕ
table_get_int t row col = as_int (cell_at t row col)

unfoldable pub table_get_double : Table → RowRef → ℕ → ℕ
table_get_double t row col = as_double (cell_at t row col)

unfoldable pub table_get_bool : Table → RowRef → ℕ → Bool
table_get_bool t row col = as_bool (cell_at t row col)

unfoldable pub table_get_text_ref : Table → RowRef → ℕ → StringRef
table_get_text_ref t row col = as_ref (cell_at t row col)

-- The bytes of the heap that a reference spans.
unfoldable pub heap_slice : List ℕ → StringRef → List ℕ
heap_slice heap ref = take ref.len (drop ref.offset heap)

unfoldable pub table_get_text : Table → RowRef → ℕ → List ℕ
unfolding table_get_text_ref heap_slice
table_get_text t row col = heap_slice t.heap_data (table_get_text_ref t row col)

unfoldable pub read_cell : Table → RowRef → ℕ → FieldType → Value
unfolding table_get_int table_get_double table_get_bool table_get_text
read_cell t row col ft_int = value_int (table_get_int t row col)
read_cell t row col ft_double = value_double (table_get_double t row col)
read_cell t row col ft_bool = value_bool (table_get_bool t row col)
read_cell t row col ft_text = value_text (table_get_text t row col)
read_cell t row col ft_err = value_null ft_text

unfoldable pub read_column : Table → RowRef → ℕ → Value
unfolding read_cell
read_column t row col =
    if null_test t col row
    then value_null (column_at t col).kind
    else read_cell t row col (column_at t col).kind

unfoldable pub cell_hash : Table → ℕ → ℕ → ℕ
unfolding read_column
cell_hash t row col = value_hash (read_column t row col)

unfoldable pub insert_key : Table → ℕ → ℕ → Table
insert_key t row hash =
    let (idx, a) = row_index_insert t.pk_index t.arena hash row in
    record t { pk_index = idx; arena = a }

abbrev pub is_pk_col : Table → ℕ → Bool
is_pk_col t col = elim t.pk_col [ none ↦ false | some pk ↦ pk == col ]

unfoldable pub index_row_if_primary_key : Table → ℕ → ℕ → Table
unfolding insert_key
index_row_if_primary_key t row col =
    let u = insert_key t row (cell_hash t row col) in if is_pk_col t col then u else t

-- A cell is written, is no longer NULL, and is indexed if its column is the primary key.
unfoldable pub write_cell : Table → RowRef → ℕ → Cell → Table
write_cell t row col x =
    index_row_if_primary_key (null_clear (put_cell t row col x) col row) row col

unfoldable pub table_set_int : Table → RowRef → ℕ → ℕ → Table
unfolding write_cell index_row_if_primary_key
table_set_int t row col v = write_cell t row col (int_cell v)

unfoldable pub table_set_double : Table → RowRef → ℕ → ℕ → Table
unfolding write_cell index_row_if_primary_key
table_set_double t row col v = write_cell t row col (double_cell v)

unfoldable pub table_set_bool : Table → RowRef → ℕ → Bool → Table
unfolding write_cell index_row_if_primary_key
table_set_bool t row col v = write_cell t row col (bool_cell v)

unfoldable pub table_set_text_ref : Table → RowRef → ℕ → StringRef → Table
unfolding write_cell index_row_if_primary_key
table_set_text_ref t row col ref = write_cell t row col (text_cell ref)

-- `while (grown < needed && !arena_failed(a)) grown = arena_checked_mul(a, grown, 2)`. A positive
-- size reaches any 64-bit size in sixty-four doublings.
unfoldable pub heap_capacity : ℕ → Arena → ℕ → ℕ → ℕ × Arena
heap_capacity zero a grown needed = (grown, a)
heap_capacity (suc fuel) a grown needed =
    let doubled = arena_checked_mul a grown 2 in
    let more = heap_capacity fuel doubled.1 doubled.0 needed in
    if ltb grown needed && not (arena_failed a) then more else (grown, a)

abbrev pub heap_doublings : ℕ
heap_doublings = 64

unfoldable pub first_heap_capacity : Arena → ℕ → ℕ × Arena
first_heap_capacity a heap_cap = if heap_cap == 0 then (64, a) else arena_checked_mul a heap_cap 2

-- memcpy(data + offset, src, len)
abbrev pub overwrite : List ℕ → ℕ → List ℕ → List ℕ
overwrite xs offset src = take offset xs ++ (src ++ drop (offset + length src) xs)

-- The heap with room for `needed` bytes, or whether that failed.
unfoldable pub reserve_heap : Table → Arena → ℕ → Bool × Table
unfolding heap_capacity first_heap_capacity
reserve_heap t a needed =
    let first = first_heap_capacity a t.heap_cap in
    let grown = heap_capacity heap_doublings first.1 first.0 needed in
    let (granted, b) = arena_grow grown.1 grown.0 1 in
    if leb needed t.heap_cap
    then (true, record t { heap = a })
    else if granted
    then (true, record t { heap = b; heap_data = regrow t.heap_data grown.0 0; heap_cap = grown.0 })
    else (false, record t { heap = b })

unfoldable pub append_bytes : Table → ℕ → List ℕ → ℕ × Table
append_bytes t needed src =
    (t.heap_len, record t { heap_data = overwrite t.heap_data t.heap_len src; heap_len = needed })

-- `buf_append` on the heap: the offset of the bytes, or SIZE_MAX.
unfoldable pub buf_append : Table → List ℕ → ℕ × Table
unfolding reserve_heap append_bytes
buf_append t src =
    let (needed, a) = arena_checked_add t.heap t.heap_len (length src) in
    let (room, u) = reserve_heap t a needed in
    if arena_failed a
    then (size_max, record t { heap = a })
    else if room
    then append_bytes u needed src
    else (size_max, u)

abbrev uint32_max : ℕ
uint32_max = 2 ^ 32 - 1

unfoldable pub fail_heap : Table → Table
fail_heap t = record t { heap = arena_fail t.heap arena_fail_oom }

-- The reference to the appended bytes, where their offset fits into 32 bits.
unfoldable pub set_appended : ℕ × Table → RowRef → ℕ → ℕ → Table
unfolding fail_heap write_cell index_row_if_primary_key
set_appended (offset, t) row col len =
    if offset == size_max
    then t
    else if ltb uint32_max offset
    then fail_heap t
    else write_cell t row col (text_cell (record { offset = offset; len = len }))

unfoldable pub table_set_text : Table → RowRef → ℕ → List ℕ → Table
unfolding set_appended buf_append
table_set_text t row col s =
    if ltb uint32_max (length s)
    then fail_heap t
    else set_appended (buf_append t s) row col (length s)
