-- ===== src/Exec.antt =====
-- INSERT, UPDATE and DELETE of c/src/interp.c, on a catalog and the transaction that is open, if any.
-- `granted` answers the undo log's realloc by the number of entries that the log has. The scratch
-- arrays of a statement are lists.
pub mod Delete
pub mod Atomic
pub mod DeleteAtomic
pub mod UpdateAtomic
pub mod Assigned
pub mod Update
pub mod Insert
use db.Prelude.{
  ℕ, zero, suc, ◌+◌, Bool, true, false, Option, none, some, List, [], ◌∷◌, if◌then◌else◌, length,
}
use db.Index.{RowRef}
use db.Value.{Value}
use db.Table.{Table, Name}
use db.Catalog.{Catalog, NamedTable}
use db.Txn.{Txn, at_table, txn_rollback_to}
use db.Cursor.{cursor_next}
use db.Interp.Checks.{table_at}
use db.Interp.{Expr, RowSource, RowCtx, InterpError, Result, ok, err}

pub record DeleteStmt : Type 0 where
  pub table : Name
  pub condition : Option Expr

pub record Assignment : Type 0 where
  pub column : Name
  pub value : Expr

pub record UpdateStmt : Type 0 where
  pub table : Name
  pub assignments : List Assignment
  pub condition : Option Expr

-- No columns stand for all of them.
pub record InsertStmt : Type 0 where
  pub table : Name
  pub columns : List Name
  pub rows : List (List Expr)

pub record Session : Type 0 where
  pub catalog : Catalog
  pub txn : Option Txn

-- How a statement ended: the number of rows it changed, or why it failed.
abbrev pub Outcome : Type 0
Outcome = Result ℕ × Session

abbrev pub log_length : Option Txn → ℕ
log_length none = 0
log_length (some txn) = length txn.log

-- `if (txn && !txn_log_...(txn, ...))`: no transaction is no failure.
abbrev pub log_with : Option Txn → (Txn → Bool × Txn) → Bool × Option Txn
log_with none write = (true, none)
log_with (some txn) write = ((write txn).0, some (write txn).1)

abbrev pub rolled_back : Option Txn → Catalog → ℕ → Session
rolled_back none catalog mark = record { catalog = catalog; txn = none }
rolled_back (some txn) catalog mark = record {
  catalog = (txn_rollback_to txn catalog mark).1;
  txn = some (txn_rollback_to txn catalog mark).0;
}

-- The statement fails, and its changes since `mark` are taken back.
unfoldable pub fail : InterpError → Session → ℕ → Outcome
fail e s mark = (err e, rolled_back s.txn s.catalog mark)

abbrev pub with_table : Session → ℕ → (Table → Table) → Session
with_table s idx f = record s {
  catalog = record s.catalog { tables = at_table s.catalog.tables idx f };
}

-- The rest of a loop, where a step did not fail.
abbrev pub then_on : Outcome → (ℕ → Session → Outcome) → Outcome
then_on (ok n, s) rest = rest n s
then_on (err e, s) rest = (err e, s)

-- One table at a row.
abbrev pub row_ctx : Name → Table → RowRef → List Value → RowCtx
row_ctx name t row params = record {
  sources = record { alias = name; table = t; row = row } ∷ [];
  params = params;
}

unfoldable pub name_at : List NamedTable → ℕ → Name
name_at [] i = []
name_at (t ∷ ts) zero = t.name
name_at (t ∷ ts) (suc i) = name_at ts i

-- `while (cursor_next(&cur, &row))` over the table at an index, with the number of rows changed. The
-- cursor reads the table as it then stands, and moves on by a row at least, so that a round for each
-- row is enough.
module _ (step : Session → Table → RowRef → Outcome) (idx : ℕ) where
  unfoldable pub for_each_row : ℕ → Session → ℕ → ℕ → Outcome
  for_each_row zero s next n_changed = (ok n_changed, s)
  for_each_row (suc rounds) s next n_changed = elim (table_at s.catalog.tables idx) [
    | none ↦ (ok n_changed, s)
    | some t ↦
        let moved = cursor_next (record { table = t; next_row = next }) in
        elim moved.0 [
          | none ↦ (ok n_changed, s)
          | some row ↦
              then_on (step s t row)
                (λ k after. for_each_row rounds after moved.1.next_row (n_changed + k))
        ]
  ]
