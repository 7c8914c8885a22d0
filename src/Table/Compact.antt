-- ===== src/Table/Compact.antt =====
-- `table_compact` and `table_compact_heap` of c/src/table.c: dead rows and dead text go.
use db.Prelude.{
  ℕ, zero, suc, ◌+◌, ◌%◌, ◌^◌, Bool, true, false, not, Option, none, some, List, [], ◌∷◌, ◌++◌,
  ◌==◌, if◌then◌else◌, get_or, set, length, replicate,
}
use db.Arena.{Arena, arena_init, arena_alloc, arena_fail, arena_fail_oom, arena_checked_add}
use db.Bitmap.{test_bit, set_bit, clear_bit}
use db.Index.{row_index_clear}
use db.Value.{FieldType, ft_text}
use db.Table.{Table, Column, Cell, StringRef, text_cell, zero_cell, null_test}
use db.Table.Cells.{as_ref, heap_slice, insert_key, cell_hash}

-- One cell and its NULL bit, from `row` to `dest`.
unfoldable pub move_cell : Column → ℕ → ℕ → Column
move_cell c row dest = record c {
  cells = set c.cells dest (get_or c.cells row (zero_cell c.kind));
  nulls = if test_bit c.nulls row then set_bit c.nulls dest else clear_bit c.nulls dest;
}

unfoldable pub move_row : List Column → ℕ → ℕ → List Column
unfolding move_cell
move_row [] row dest = []
move_row (c ∷ cs) row dest = move_cell c row dest ∷ move_row cs row dest

-- The rows from `row` on, of which `dest` have been kept so far.
unfoldable pub compact_rows : ℕ → List ℕ → List Column → ℕ → ℕ → ℕ × List Column
unfolding move_row
compact_rows zero dead columns row dest = (dest, columns)
compact_rows (suc rounds) dead columns row dest =
    let live = not (test_bit dead row) in
    compact_rows rounds dead
      (if live then (if dest == row then columns else move_row columns row dest) else columns)
      (row + 1) (if live then dest + 1 else dest)

-- Every key from row `row` on.
unfoldable pub reindex_rows : ℕ → Table → ℕ → ℕ → Table
unfolding insert_key
reindex_rows zero t row col = t
reindex_rows (suc rounds) t row col =
    let u = insert_key t row (cell_hash t row col) in
    reindex_rows rounds (if null_test t col row then t else u) (row + 1) col

unfoldable pub reindex : Table → Table
unfolding reindex_rows
reindex t = elim t.pk_col [
  | none ↦ t
  | some pk ↦ reindex_rows t.n_rows (record t { pk_index = row_index_clear }) 0 pk
]

unfoldable pub table_compact : Table → Table
unfolding compact_rows reindex
table_compact t =
    let (dest, columns) = compact_rows t.n_rows t.dead t.columns 0 0 in
    reindex (record t {
      columns = columns;
      n_rows = dest;
      n_dead = 0;
      dead = replicate (length t.dead) 0;
    })

unfoldable pub is_text : FieldType → Bool
is_text ft_text = true
is_text _ = false

-- The length of the text of the live rows of one column, added to `total`.
unfoldable pub column_total : ℕ → Arena → List ℕ → List Cell → ℕ → ℕ → ℕ × Arena
column_total zero a dead cells row total = (total, a)
column_total (suc rounds) a dead cells row total =
    let (more, b) = arena_checked_add a total (as_ref (get_or cells row (zero_cell ft_text))).len in
    let counted = not (test_bit dead row) in
    column_total rounds (if counted then b else a) dead cells (row + 1)
      (if counted then more else total)

unfoldable pub heap_total : List Column → Arena → ℕ → List ℕ → ℕ → ℕ × Arena
unfolding column_total is_text
heap_total [] a n_rows dead total = (total, a)
heap_total (c ∷ cs) a n_rows dead total =
    let (more, b) = column_total n_rows a dead c.cells 0 total in
    let counted = is_text c.kind in
    heap_total cs (if counted then b else a) n_rows dead (if counted then more else total)

-- The bytes of one reference go to the end of the new heap.
unfoldable pub move_ref : List ℕ → List ℕ → StringRef → StringRef × List ℕ
unfolding heap_slice
move_ref heap new ref =
    (record { offset = length new % 2 ^ 32; len = ref.len }, new ++ heap_slice heap ref)

unfoldable pub move_refs : ℕ → List ℕ → List ℕ → List Cell → ℕ → List ℕ → List Cell × List ℕ
unfolding move_ref
move_refs zero dead heap cells row new = (cells, new)
move_refs (suc rounds) dead heap cells row new =
    let (ref, new') = move_ref heap new (as_ref (get_or cells row (zero_cell ft_text))) in
    let skipped = test_bit dead row in
    move_refs rounds dead heap (if skipped then cells else set cells row (text_cell ref)) (row + 1)
      (if skipped then new else new')

unfoldable pub move_columns : List Column → ℕ → List ℕ → List ℕ → List ℕ → List Column × List ℕ
unfolding move_refs is_text
move_columns [] n_rows dead heap new = ([], new)
move_columns (c ∷ cs) n_rows dead heap new =
    let (cells, new') = move_refs n_rows dead heap c.cells 0 new in
    let text = is_text c.kind in
    let (cs', end) = move_columns cs n_rows dead heap (if text then new' else new) in
    ((if text then record c { cells = cells } else c) ∷ cs', end)

unfoldable pub replace_heap : Table → Bool × Arena → Table
unfolding move_columns
replace_heap t (false, new_heap) = record t { heap = arena_fail t.heap arena_fail_oom }
replace_heap t (true, new_heap) =
    let (columns, new) = move_columns t.columns t.n_rows t.dead t.heap_data [] in
    record t {
      columns = columns;
      heap = arena_fail new_heap t.heap.failure;
      heap_data = new;
      heap_len = length new;
      heap_cap = length new;
    }

-- The stream answers the block requests of the new heap.
unfoldable pub table_compact_heap : (ℕ → Option ℕ) → Table → Table
unfolding replace_heap heap_total
table_compact_heap supply t =
    let (total, new_heap) = heap_total t.columns (arena_init supply) t.n_rows t.dead 0 in
    replace_heap t (arena_alloc new_heap total 1)
