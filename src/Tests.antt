-- ===== src/Tests.antt =====
-- Test data: small arenas, indexes, tables and catalogs.
pub mod Memory
pub mod Tables
pub mod Rollbacks
pub mod Sessions
pub mod Sources
pub mod Texts
pub mod Queries
pub mod Groups
pub mod Logs
pub mod Statements
use db.Prelude.{
  ℕ, zero, suc, ◌+◌, ◌*◌, ◌<◌, ◌≤◌, ◌≡◌, ◌≢◌, true, false, some, none, List, [], ◌∷◌, Option, Bool,
  arith,
}
use db.Arena.{Arena, arena_init, arena_ok}
use db.Index.{RowIndex, row_index_clear}
use db.Value.{ft_int, ft_text, FieldType}
use db.Table.{Table, Column, int_cell, fk_action_none, no_column}
use db.Catalog.{Catalog, NamedTable}

-- Every block is at an address that a page allocator would give.
abbrev pub arena_0 : Arena
arena_0 = record {
  full = [];
  rest = [];
  block_size = 4096;
  bytes_used = 0;
  bytes_allocd = 0;
  failure = arena_ok;
  supply = λ n. some 65536;
  asked = 0;
}

-- An INT column with one row, which is NULL, and room for eight.
abbrev pub id_column : Column
id_column = record no_column {
  name = 105 ∷ 100 ∷ [];
  kind = ft_int;
  cells =
      int_cell 0
      ∷ int_cell 0
      ∷ int_cell 0
      ∷ int_cell 0
      ∷ int_cell 0
      ∷ int_cell 0
      ∷ int_cell 0
      ∷ int_cell 0
      ∷ [];
  nulls = 1 ∷ [];
  is_pk = true;
}

abbrev pub one_row : Table
one_row = record {
  columns = id_column ∷ [];
  n_rows = 1;
  row_cap = 8;
  dead = 0 ∷ [];
  n_dead = 0;
  heap = arena_0;
  heap_data = [];
  heap_len = 0;
  heap_cap = 0;
  pk_col = some 0;
  pk_index = row_index_clear;
  wal_generation = 0;
  arena = arena_0;
}

abbrev pub users : Catalog
users = record {
  tables = record { name = 117 ∷ []; path = none; table = one_row } ∷ [];
  capacity = 4;
}
