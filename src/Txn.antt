-- ===== src/Txn.antt =====
-- c/include/txn.h and c/src/txn.c: the undo log of a transaction. The log is a list with the latest
-- entry first, and realloc's answer is an argument.
pub mod Undo
pub mod Changes
pub mod Steps
pub mod Rollback
pub mod Logged
use db.Prelude.{
  ℕ, zero, suc, ◌+◌, ◌-◌, ◌*◌, Bool, true, false, Option, none, some, List, [], ◌∷◌, ◌==◌,
  if◌then◌else◌, get_or, set, length, drop,
}
use db.Index.{RowRef}
use db.Value.{FieldType, ft_int, ft_double, ft_bool, ft_text, ft_err}
use db.Table.{
  Table, Cell, Name, int_cell, double_cell, bool_cell, text_cell, StringRef, zero_cell, column_at,
}
use db.Table.Rows.{table_delete_row, table_undelete_row, table_set_null, table_is_null}
use db.Table.Cells.{
  table_get_int, table_get_double, table_get_bool, table_get_text_ref, table_set_int,
  table_set_double, table_set_bool, table_set_text_ref, as_int, as_double, as_bool, as_ref,
}
use db.Catalog.{Catalog, NamedTable}

pub data UndoKind : Type 0 where
  undo_insert undo_update undo_delete : UndoKind

-- `old` is the union, `col` to `old` are for updates only.
pub record UndoEntry : Type 0 where
  pub kind : UndoKind
  pub table_idx : ℕ
  pub table_name : Name
  pub row : RowRef
  pub col : ℕ
  pub type : FieldType
  pub was_null : Bool
  pub old : Cell

pub record Txn : Type 0 where
  pub active : Bool
  pub log : List UndoEntry
  pub capacity : ℕ

unfoldable pub txn_init : Txn
txn_init = record { active = false; log = []; capacity = 0 }

unfoldable pub txn_term : Txn → Txn
txn_term txn = record txn { log = []; capacity = 0 }

unfoldable pub push : Txn → Bool → UndoEntry → Bool × Txn
push txn granted e =
    let new_cap = if txn.capacity == 0 then 16 else txn.capacity * 2 in
    if length txn.log == txn.capacity
    then (if granted
        then (true, record txn { log = e ∷ txn.log; capacity = new_cap })
        else (false, txn))
    else (true, record txn { log = e ∷ txn.log })

unfoldable pub txn_begin : Txn → Bool × Txn
txn_begin txn = if txn.active then (false, txn) else (true, record txn { active = true; log = [] })

abbrev pub row_entry : UndoKind → ℕ → Name → RowRef → UndoEntry
row_entry kind table_idx name row = record {
  kind = kind;
  table_idx = table_idx;
  table_name = name;
  row = row;
  col = 0;
  type = ft_err;
  was_null = false;
  old = zero_cell ft_err;
}

unfoldable pub txn_log_insert : Txn → Bool → ℕ → Name → RowRef → Bool × Txn
unfolding push
txn_log_insert txn granted table_idx name row =
    push txn granted (row_entry undo_insert table_idx name row)

unfoldable pub txn_log_delete : Txn → Bool → ℕ → Name → RowRef → Bool × Txn
unfolding push
txn_log_delete txn granted table_idx name row =
    push txn granted (row_entry undo_delete table_idx name row)

-- The cell's content, by the type of its column.
unfoldable pub saved_cell : FieldType → Table → RowRef → ℕ → Cell
saved_cell ft_int t row col = int_cell (table_get_int t row col)
saved_cell ft_double t row col = double_cell (table_get_double t row col)
saved_cell ft_bool t row col = bool_cell (table_get_bool t row col)
saved_cell ft_text t row col = text_cell (table_get_text_ref t row col)
saved_cell ft_err t row col = zero_cell ft_err

unfoldable pub update_entry : Table → ℕ → Name → RowRef → ℕ → UndoEntry
unfolding saved_cell
update_entry t table_idx name row col = record {
  kind = undo_update;
  table_idx = table_idx;
  table_name = name;
  row = row;
  col = col;
  type = (column_at t col).kind;
  was_null = table_is_null t row col;
  old =
      if table_is_null t row col
      then zero_cell ft_err
      else saved_cell (column_at t col).kind t row col;
}

unfoldable pub txn_log_update : Txn → Bool → Table → ℕ → Name → RowRef → ℕ → Bool × Txn
unfolding push update_entry
txn_log_update txn granted t table_idx name row col =
    push txn granted (update_entry t table_idx name row col)

unfoldable pub restore_cell : FieldType → Table → RowRef → ℕ → Cell → Table
restore_cell ft_int t row col old = table_set_int t row col (as_int old)
restore_cell ft_double t row col old = table_set_double t row col (as_double old)
restore_cell ft_bool t row col old = table_set_bool t row col (as_bool old)
restore_cell ft_text t row col old = table_set_text_ref t row col (as_ref old)
restore_cell ft_err t row col old = t

unfoldable pub undo_in_table : UndoKind → UndoEntry → Table → Table
unfolding restore_cell
undo_in_table undo_insert e t = table_delete_row t e.row
undo_in_table undo_delete e t = table_undelete_row t e.row
undo_in_table undo_update e t =
    if e.was_null then table_set_null t e.row e.col else restore_cell e.type t e.row e.col e.old

abbrev pub at_table : List NamedTable → ℕ → (Table → Table) → List NamedTable
at_table [] i f = []
at_table (t ∷ ts) zero f = record t { table = f t.table } ∷ ts
at_table (t ∷ ts) (suc i) f = t ∷ at_table ts i f

unfoldable pub undo_one : UndoEntry → Catalog → Catalog
unfolding undo_in_table
undo_one e c = record c { tables = at_table c.tables e.table_idx (undo_in_table e.kind e) }

-- The latest `n` entries, the latest first.
unfoldable pub undo_latest : ℕ → List UndoEntry → Catalog → Catalog
unfolding undo_one
undo_latest zero log c = c
undo_latest (suc n) [] c = c
undo_latest (suc n) (e ∷ log) c = undo_latest n log (undo_one e c)

unfoldable pub txn_rollback : Txn → Catalog → Txn × Catalog
unfolding undo_latest
txn_rollback txn c =
    (record txn { log = []; active = false }, undo_latest (length txn.log) txn.log c)

-- `mark` is an earlier number of entries.
unfoldable pub txn_rollback_to : Txn → Catalog → ℕ → Txn × Catalog
unfolding undo_latest
txn_rollback_to txn c mark =
    let n = length txn.log - mark in (record txn { log = drop n txn.log }, undo_latest n txn.log c)
