-- ===== src/Exec/Insert.antt =====
-- `interp_exec_insert` of c/src/interp.c.
use db.Prelude.{
  ℕ, zero, suc, ◌+◌, Bool, false, not, ◌||◌, Option, none, some, List, [], ◌∷◌, ◌==◌, if◌then◌else◌,
  length,
}
use db.Index.{RowRef, row_ref_valid}
use db.Value.{Value}
use db.Table.{Table, Name, column_at, table_failed}
use db.Table.Columns.{table_find_column}
use db.Table.Rows.{table_append_row, table_delete_row}
use db.Catalog.{catalog_find}
use db.Txn.{Txn, txn_log_insert}
use db.Interp.{
  RowCtx, Expr, InterpError, Result, ok, err, ◌>>=◌, no_table, no_column, column_repeated,
  value_count, column_in_values, out_of_memory,
}
use db.Interp.Types.{expr_fits_column}
use db.Interp.Eval.{DoubleOps, eval_value}
use db.Interp.Checks.{table_at, check_row_constraints, assign_value, col_name}
use db.Interp.Points.{expr_has_column_ref}
use db.Exec.{InsertStmt, Session, Outcome, log_length, log_with, fail, with_table, then_on, name_at}

abbrev pub found_column : Name → Name → Option ℕ → Result ℕ
found_column table column none = err (no_column (some table) column)
found_column table column (some col) = ok col

unfoldable pub find_columns : Table → Name → List Name → Result (List ℕ)
find_columns t table [] = ok []
find_columns t table (c ∷ cs) = do
  col ← found_column table c (table_find_column t c)
  cols ← find_columns t table cs
  ok (col ∷ cols)

unfoldable pub is_among : ℕ → List ℕ → Bool
is_among col [] = false
is_among col (c ∷ cs) = (col == c) || is_among col cs

-- The first column that comes again.
unfoldable pub check_distinct : Table → List ℕ → Result (Unit {0})
unfolding is_among
check_distinct t [] = ok tt
check_distinct t (col ∷ cols) =
    let rest = check_distinct t cols in
    if is_among col cols then err (column_repeated (col_name t col)) else rest

-- The columns from `col` on.
unfoldable pub count_columns : ℕ → ℕ → List ℕ
count_columns zero col = []
count_columns (suc n) col = col ∷ count_columns n (col + 1)

unfoldable pub target_columns : Table → InsertStmt → Result (List ℕ)
unfolding find_columns check_distinct count_columns
target_columns t stmt =
    if length stmt.columns == 0
    then ok (count_columns (length t.columns) 0)
    else do cols ← find_columns t stmt.table stmt.columns; _ ← check_distinct t cols; ok cols

-- VALUES has no columns to refer to.
abbrev pub values_ctx : List Value → RowCtx
values_ctx params = record { sources = []; params = params }

unfoldable pub check_values : Table → List Value → ℕ → List ℕ → List Expr → Result (Unit {0})
check_values t params r [] vs = ok tt
check_values t params r (col ∷ cols) [] = ok tt
check_values t params r (col ∷ cols) (v ∷ vs) =
    let rest = check_values t params r cols vs in
    if expr_has_column_ref v
    then err (column_in_values (r + 1))
    else (expr_fits_column v (values_ctx params) (column_at t col).kind (col_name t col) >>= λ _.
        rest)

unfoldable pub check_value_row : Table → List Value → ℕ → List ℕ → List Expr → Result (Unit {0})
unfolding check_values
check_value_row t params r cols vs =
    if length vs == length cols
    then check_values t params r cols vs
    else err (value_count (r + 1) (length vs) (length cols))

unfoldable pub assign_values : DoubleOps → List Value → RowRef → List ℕ → List Expr → Table → Table
assign_values f params row [] vs t = t
assign_values f params row (col ∷ cols) [] t = t
assign_values f params row (col ∷ cols) (v ∷ vs) t =
    assign_values f params row cols vs (assign_value t row col (eval_value f v (values_ctx params)))

abbrev pub set_table : Session → ℕ → Table → Session
set_table s idx t = with_table s idx (λ _. t)

module _ (f : DoubleOps) (granted : ℕ → Bool) (stmt : InsertStmt) (params : List Value)
    (idx mark : ℕ) (cols : List ℕ) where
  -- The row is taken back by hand, as it is not in the log.
  unfoldable pub fail_deleting : InterpError → Session → Table → RowRef → Outcome
  unfolding fail
  fail_deleting e s t row = fail e (set_table s idx (table_delete_row t row)) mark

  unfoldable pub insert_logged : Session → Table → RowRef → Bool × Option Txn → Outcome
  unfolding fail_deleting
  insert_logged s t row (logged, txn) =
      if logged
      then (ok 1, record s { txn = txn })
      else fail_deleting out_of_memory (record s { txn = txn }) t row

  unfoldable pub insert_assigned : Session → Table → RowRef → Outcome
  unfolding insert_logged name_at
  insert_assigned s t row =
      if table_failed t
      then fail_deleting out_of_memory s t row
      else elim (check_row_constraints t row s.catalog) [
        | err e ↦ fail_deleting e s t row
        | ok _ ↦ insert_logged s t row (
            log_with s.txn (λ txn.
              txn_log_insert txn (granted (log_length s.txn)) idx (name_at s.catalog.tables idx)
                row))
      ]

  unfoldable pub insert_appended : Session → List Expr → RowRef × Table → Outcome
  unfolding insert_assigned assign_values
  insert_appended s vs (row, t) =
      let u = assign_values f params row cols vs t in
      if not (row_ref_valid row) || table_failed t
      then fail out_of_memory (set_table s idx t) mark
      else insert_assigned (set_table s idx u) u row

  unfoldable pub insert_row : ℕ → List Expr → Session → Table → Outcome
  unfolding insert_appended check_value_row
  insert_row r vs s t = elim (check_value_row t params r cols vs) [
    | err e ↦ fail e s mark
    | ok _ ↦ insert_appended s vs (table_append_row t)
  ]

  unfoldable pub insert_loop : ℕ → List (List Expr) → Session → ℕ → Outcome
  unfolding insert_row
  insert_loop r [] s n_inserted = (ok n_inserted, s)
  insert_loop r (vs ∷ rows) s n_inserted = elim (table_at s.catalog.tables idx) [
    | none ↦ (ok n_inserted, s)
    | some t ↦
        then_on (insert_row r vs s t) (λ k after. insert_loop (r + 1) rows after (n_inserted + k))
  ]

unfoldable pub insert_into :
    DoubleOps → (ℕ → Bool) → InsertStmt → List Value → Session → ℕ → Result (List ℕ) → Outcome
unfolding insert_loop
insert_into f granted stmt params s idx (err e) = (err e, s)
insert_into f granted stmt params s idx (ok cols) =
    insert_loop f granted stmt params idx (log_length s.txn) cols 0 stmt.rows s 0

unfoldable pub insert_found :
    DoubleOps → (ℕ → Bool) → InsertStmt → List Value → Session → ℕ → Option Table → Outcome
unfolding insert_into target_columns
insert_found f granted stmt params s idx none = (err (no_table stmt.table), s)
insert_found f granted stmt params s idx (some t) =
    insert_into f granted stmt params s idx (target_columns t stmt)

unfoldable pub interp_exec_insert :
    DoubleOps → (ℕ → Bool) → InsertStmt → List Value → Session → Outcome
unfolding insert_found
interp_exec_insert f granted stmt params s = elim (catalog_find s.catalog stmt.table) [
  | none ↦ (err (no_table stmt.table), s)
  | some idx ↦ insert_found f granted stmt params s idx (table_at s.catalog.tables idx)
]
