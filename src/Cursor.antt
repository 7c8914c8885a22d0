-- ===== src/Cursor.antt =====
-- c/src/cursor.c: the live rows of a table, in storage order.
pub mod Rows
use db.Prelude.{ℕ, zero, suc, ◌+◌, ◌-◌, Bool, true, false, Option, none, some, ltb, if◌then◌else◌}
use db.Index.{RowRef}
use db.Table.{Table, dead_test}

pub record Cursor : Type 0 where
  pub table : Table
  pub next_row : ℕ

unfoldable pub cursor_init : Table → Cursor
cursor_init t = record { table = t; next_row = 0 }

-- The loop, on one round for each row that is left.
unfoldable pub cursor_loop : ℕ → Cursor → Option RowRef × Cursor
cursor_loop zero c = (none, c)
cursor_loop (suc rounds) c =
    let row = c.next_row in
    let moved = record c { next_row = row + 1 } in
    let more = cursor_loop rounds moved in
    if ltb row c.table.n_rows
    then (if dead_test c.table row then more else (some row, moved))
    else (none, c)

-- `*out_row`, where the answer is true.
unfoldable pub cursor_next : Cursor → Option RowRef × Cursor
unfolding cursor_loop
cursor_next c = cursor_loop (c.table.n_rows - c.next_row) c
