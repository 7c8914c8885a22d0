-- ===== src/Table/Rows.antt =====
-- Rows: `table_grow`, `table_append_row`, deletion marks and NULL marks of c/src/table.c.
use db.Prelude.{
  ℕ, ◌+◌, ◌-◌, ◌*◌, ◌/◌, ◌%◌, Bool, true, false, not, List, [], ◌∷◌, ◌++◌, ◌==◌, if◌then◌else◌, set,
  length, replicate,
}
use db.Prelude.Bits.{word}
use db.Arena.{Arena, arena_grow, arena_checked_mul}
use db.Bitmap.{set_bit}
use db.Index.{RowRef, row_ref_invalid}
use db.Value.{FieldType}
use db.Table.{
  Table, Column, field_width, field_align, zero_cell, dead_test, dead_set, dead_clear, null_test,
  null_set,
}

-- arena_grow: the old contents and zeros.
abbrev pub regrow {ℓ} : {A : Type ℓ} → List A → ℕ → A → List A
regrow xs n fill = xs ++ replicate (n - length xs) fill

-- The two checked sizes and the new array of one column.
unfoldable pub grow_cells : Arena → ℕ → ℕ → FieldType → Bool × Arena
grow_cells a row_cap new_cap kind =
    let old = arena_checked_mul a row_cap (field_width kind) in
    let new = arena_checked_mul old.1 new_cap (field_width kind) in
    arena_grow new.1 new.0 (field_align kind)

-- The columns before the first failure have their new arrays, the others their old ones.
unfoldable pub grow_columns : Arena → ℕ → ℕ → List Column → Bool × Arena × List Column
unfolding grow_cells
grow_columns a row_cap new_cap [] = (true, a, [])
grow_columns a row_cap new_cap (c ∷ cs) =
    let (granted, b) = grow_cells a row_cap new_cap c.kind in
    let c' : Column = record c { cells = regrow c.cells new_cap (zero_cell c.kind) } in
    let (done, d, cs') = grow_columns b row_cap new_cap cs in
    if granted then (done, d, c' ∷ cs') else (false, b, c ∷ cs)

unfoldable pub grow_nulls : Arena → ℕ → List Column → Bool × Arena × List Column
grow_nulls a new_bytes [] = (true, a, [])
grow_nulls a new_bytes (c ∷ cs) =
    let (granted, b) = arena_grow a new_bytes 1 in
    let c' : Column = record c { nulls = regrow c.nulls new_bytes 0 } in
    let (done, d, cs') = grow_nulls b new_bytes cs in
    if granted then (done, d, c' ∷ cs') else (false, b, c ∷ cs)

unfoldable pub grow_bitmaps : Table → ℕ → Bool × Table
unfolding grow_nulls
grow_bitmaps t new_cap =
    let new_bytes = (new_cap + 7) / 8 in
    let (granted, a) = arena_grow t.arena new_bytes 1 in
    let (done, b, columns) = grow_nulls a new_bytes t.columns in
    if granted
    then (if done
        then (
          true,
          record t {
            arena = b;
            columns = columns;
            dead = regrow t.dead new_bytes 0;
            row_cap = new_cap;
          },
        )
        else (false, record t { arena = b; columns = columns }))
    else (false, record t { arena = a })

abbrev pub next_row_cap : ℕ → ℕ
next_row_cap row_cap = if row_cap == 0 then 8 else row_cap * 2 % word

unfoldable pub table_grow : Table → Bool × Table
unfolding grow_columns grow_bitmaps
table_grow t =
    let new_cap = next_row_cap t.row_cap in
    let (done, a, columns) = grow_columns t.arena t.row_cap new_cap t.columns in
    let u = record t { arena = a; columns = columns } in
    if done then grow_bitmaps u new_cap else (false, u)

-- The cell of the new row is zero and NULL in every column.
unfoldable pub blank_row : ℕ → List Column → List Column
blank_row row [] = []
blank_row row (c ∷ cs) =
    record c { cells = set c.cells row (zero_cell c.kind); nulls = set_bit c.nulls row }
    ∷ blank_row row cs

unfoldable pub add_row : Table → RowRef × Table
unfolding blank_row
add_row t =
    let row = t.n_rows in
    (row, dead_clear (record t { n_rows = row + 1; columns = blank_row row t.columns }) row)

unfoldable pub table_append_row : Table → RowRef × Table
unfolding add_row table_grow
table_append_row t =
    let (grown, u) = table_grow t in
    if t.n_rows == t.row_cap then (if grown then add_row u else (row_ref_invalid, u)) else add_row t

unfoldable pub table_delete_row : Table → RowRef → Table
table_delete_row t row =
    let u = dead_set t row in if dead_test t row then t else record u { n_dead = t.n_dead + 1 }

unfoldable pub table_undelete_row : Table → RowRef → Table
table_undelete_row t row =
    let u = dead_clear t row in
    if not (dead_test t row) then t else record u { n_dead = t.n_dead - 1 }

unfoldable pub table_row_is_dead : Table → RowRef → Bool
table_row_is_dead t row = dead_test t row

unfoldable pub table_set_null : Table → RowRef → ℕ → Table
table_set_null t row col = null_set t col row

unfoldable pub table_is_null : Table → RowRef → ℕ → Bool
table_is_null t row col = null_test t col row
