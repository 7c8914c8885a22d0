-- ===== src/Exec/Update.antt =====
-- `interp_exec_update` of c/src/interp.c.
use db.Prelude.{ℕ, Bool, false, not, ◌||◌, Option, none, some, List, [], ◌∷◌, if◌then◌else◌}
use db.Index.{RowRef, row_ref_invalid}
use db.Value.{Value}
use db.Table.{Table, column_at, table_failed}
use db.Table.Columns.{table_find_column}
use db.Table.Cells.{is_pk_col}
use db.Catalog.{catalog_find}
use db.Txn.{Txn, txn_log_update}
use db.Interp.{RowCtx, Result, ok, err, ◌>>=◌, no_table, no_column, out_of_memory}
use db.Interp.Types.{expr_fits_column}
use db.Interp.Eval.{DoubleOps, eval_value}
use db.Interp.Checks.{
  table_at, check_pk_not_referenced, check_row_constraints, assign_value, col_name,
}
use db.Interp.Select.{accepts, check_condition}
use db.Exec.{
  UpdateStmt, Assignment, Session, Outcome, log_length, log_with, fail, with_table, for_each_row,
  row_ctx, name_at,
}

-- The column of an assignment that fits it.
unfoldable pub assigned_column : Table → RowCtx → Assignment → Option ℕ → Result ℕ
assigned_column t ctx a none = err (no_column none a.column)
assigned_column t ctx a (some col) = do
  _ ← expr_fits_column a.value ctx (column_at t col).kind (col_name t col)
  ok col

unfoldable pub assigned_columns : Table → RowCtx → List Assignment → Result (List ℕ)
unfolding assigned_column
assigned_columns t ctx [] = ok []
assigned_columns t ctx (a ∷ more) = do
  col ← assigned_column t ctx a (table_find_column t a.column)
  cols ← assigned_columns t ctx more
  ok (col ∷ cols)

unfoldable pub updates_pk : Table → List ℕ → Bool
updates_pk t [] = false
updates_pk t (col ∷ cols) = is_pk_col t col || updates_pk t cols

-- `new_vals`: every right side at the row as it was.
unfoldable pub new_values : DoubleOps → List Assignment → RowCtx → List Value
new_values f [] ctx = []
new_values f (a ∷ more) ctx = eval_value f a.value ctx ∷ new_values f more ctx

abbrev pub assigned : Session → ℕ → RowRef → ℕ → Value → Session
assigned s idx row col v = with_table s idx (λ t. assign_value t row col v)

-- The checks after a row's assignments.
unfoldable pub check_updated : Session → RowRef → ℕ → Option Table → Outcome
unfolding fail
check_updated s row mark none = (ok 0, s)
check_updated s row mark (some t) =
    if table_failed t
    then fail out_of_memory s mark
    else elim (check_row_constraints t row s.catalog) [ ok _ ↦ (ok 1, s) | err e ↦ fail e s mark ]

-- The assignment is made where its entry is in the log, and the rest follows.
unfoldable pub assign_logged :
    ℕ → ℕ → RowRef → Session → ℕ → Value → (Session → Outcome) → Bool × Option Txn → Outcome
unfolding fail
assign_logged idx mark row s col v rest (logged, txn) =
    if logged
    then rest (assigned (record s { txn = txn }) idx row col v)
    else fail out_of_memory (record s { txn = txn }) mark

module _ (granted : ℕ → Bool) (idx mark : ℕ) (row : RowRef) where
  -- Each assignment is logged, the old cell with it, and made, and then the row is checked.
  unfoldable pub assign_all : List ℕ → List Value → Session → Outcome
  unfolding check_updated assign_logged name_at
  assign_all [] vs s = check_updated s row mark (table_at s.catalog.tables idx)
  assign_all (col ∷ cols) [] s = check_updated s row mark (table_at s.catalog.tables idx)
  assign_all (col ∷ cols) (v ∷ vs) s = elim (table_at s.catalog.tables idx) [
    | none ↦ (ok 0, s)
    | some t ↦ assign_logged idx mark row s col v (assign_all cols vs) (
        log_with s.txn (λ txn.
          txn_log_update txn (granted (log_length s.txn)) t idx (name_at s.catalog.tables idx) row
            col))
  ]

module _ (f : DoubleOps) (granted : ℕ → Bool) (stmt : UpdateStmt) (params : List Value)
    (idx mark : ℕ) (cols : List ℕ) (pk_updated : Bool) where
  unfoldable pub update_checked : Session → Table → RowRef → Result (Unit {0}) → Outcome
  unfolding assign_all new_values
  update_checked s t row (err e) = fail e s mark
  update_checked s t row (ok _) =
      assign_all granted idx mark row cols
        (new_values f stmt.assignments (row_ctx stmt.table t row params)) s

  unfoldable pub update_row : Session → Table → RowRef → Outcome
  unfolding update_checked
  update_row s t row =
      if not (accepts f stmt.condition (row_ctx stmt.table t row params))
      then (ok 0, s)
      else update_checked s t row
          (if pk_updated then check_pk_not_referenced s.catalog t stmt.table row else ok tt)

-- Where the columns and the WHERE clause have passed their checks.
unfoldable pub update_with :
    DoubleOps
    → (ℕ → Bool)
    → UpdateStmt
    → List Value
    → Session
    → ℕ
    → Table
    → Result (List ℕ)
    → Outcome
unfolding for_each_row update_row updates_pk
update_with f granted stmt params s idx t (err e) = (err e, s)
update_with f granted stmt params s idx t (ok cols) =
    for_each_row (update_row f granted stmt params idx (log_length s.txn) cols (updates_pk t cols))
      idx t.n_rows s 0 0

unfoldable pub update_found :
    DoubleOps → (ℕ → Bool) → UpdateStmt → List Value → Session → ℕ → Option Table → Outcome
unfolding update_with assigned_columns
update_found f granted stmt params s idx none = (err (no_table stmt.table), s)
update_found f granted stmt params s idx (some t) =
    let ctx = row_ctx stmt.table t row_ref_invalid params in
    update_with f granted stmt params s idx t (do
      cols ← assigned_columns t ctx stmt.assignments
      _ ← check_condition stmt.condition ctx
      ok cols)

unfoldable pub interp_exec_update :
    DoubleOps → (ℕ → Bool) → UpdateStmt → List Value → Session → Outcome
unfolding update_found
interp_exec_update f granted stmt params s = elim (catalog_find s.catalog stmt.table) [
  | none ↦ (err (no_table stmt.table), s)
  | some idx ↦ update_found f granted stmt params s idx (table_at s.catalog.tables idx)
]
