-- ===== src/Exec/Delete.antt =====
-- `interp_exec_delete` of c/src/interp.c.
use db.Prelude.{ℕ, Bool, not, Option, none, some, List, if◌then◌else◌}
use db.Index.{RowRef, row_ref_invalid}
use db.Value.{Value}
use db.Table.{Table}
use db.Table.Rows.{table_delete_row}
use db.Catalog.{catalog_find}
use db.Txn.{Txn, txn_log_delete}
use db.Interp.{Result, ok, err, no_table, out_of_memory}
use db.Interp.Eval.{DoubleOps}
use db.Interp.Checks.{table_at, check_pk_not_referenced}
use db.Interp.Select.{accepts, check_condition}
use db.Exec.{
  DeleteStmt, Session, Outcome, log_length, log_with, fail, with_table, for_each_row, row_ctx,
  name_at,
}

-- The row is logged and marked as deleted.
unfoldable pub delete_logged : Session → ℕ → RowRef → ℕ → Bool × Option Txn → Outcome
unfolding fail
delete_logged s idx row mark (logged, txn) =
    if logged
    then (ok 1, with_table (record s { txn = txn }) idx (λ t. table_delete_row t row))
    else fail out_of_memory (record s { txn = txn }) mark

module _ (f : DoubleOps) (granted : ℕ → Bool) (stmt : DeleteStmt) (params : List Value)
    (idx mark : ℕ) where
  -- One row that the WHERE clause accepts.
  unfoldable pub delete_checked : Session → RowRef → Result (Unit {0}) → Outcome
  unfolding delete_logged name_at
  delete_checked s row (err e) = fail e s mark
  delete_checked s row (ok _) = delete_logged s idx row mark (
      log_with s.txn (λ txn.
        txn_log_delete txn (granted (log_length s.txn)) idx (name_at s.catalog.tables idx) row))

  unfoldable pub delete_row : Session → Table → RowRef → Outcome
  unfolding delete_checked
  delete_row s t row =
      if not (accepts f stmt.condition (row_ctx stmt.table t row params))
      then (ok 0, s)
      else delete_checked s row (check_pk_not_referenced s.catalog t stmt.table row)

unfoldable pub delete_from :
    DoubleOps
    → (ℕ → Bool)
    → DeleteStmt
    → List Value
    → Session
    → ℕ
    → Table
    → Result (Unit {0})
    → Outcome
unfolding for_each_row delete_row
delete_from f granted stmt params s idx t (err e) = (err e, s)
delete_from f granted stmt params s idx t (ok _) =
    for_each_row (delete_row f granted stmt params idx (log_length s.txn)) idx t.n_rows s 0 0

-- The table at the index that `catalog_find` gave.
unfoldable pub delete_found :
    DoubleOps → (ℕ → Bool) → DeleteStmt → List Value → Session → ℕ → Option Table → Outcome
unfolding delete_from
delete_found f granted stmt params s idx none = (err (no_table stmt.table), s)
delete_found f granted stmt params s idx (some t) =
    delete_from f granted stmt params s idx t
      (check_condition stmt.condition (row_ctx stmt.table t row_ref_invalid params))

unfoldable pub interp_exec_delete :
    DoubleOps → (ℕ → Bool) → DeleteStmt → List Value → Session → Outcome
unfolding delete_found
interp_exec_delete f granted stmt params s = elim (catalog_find s.catalog stmt.table) [
  | none ↦ (err (no_table stmt.table), s)
  | some idx ↦ delete_found f granted stmt params s idx (table_at s.catalog.tables idx)
]
