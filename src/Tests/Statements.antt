-- ===== src/Tests/Statements.antt =====
-- Runs of the constraint checks, of DELETE and of UPDATE.
use db.Prelude.{
  ℕ, zero, suc, ◌<◌, ◌/◌, ◌≡◌, ◌↔◌, refl, true, some, none, [], ◌∷◌, length, arith, subst,
}
use db.Table.{Table}
use db.Txn.{Txn}
use db.Txn.Logged.{IsCell}
use db.Interp.{expr_lit_int, ok}
use db.Interp.Checks.{table_at, check_row_constraints, check_pk_not_referenced}
use db.Interp.Constraints.{
  ColumnHolds, NotReferenced, check_row_constraints-exact, check_pk_not_referenced-exact,
}
use db.Exec.{Session, DeleteStmt, UpdateStmt}
use db.Exec.Delete.{interp_exec_delete}
use db.Exec.Update.{interp_exec_update}
use db.Exec.Atomic.{IsAtomic}
use db.Exec.DeleteAtomic.{HasDeadRoom, interp_exec_delete-IsAtomic}
use db.Exec.UpdateAtomic.{AreCells, interp_exec_update-IsAtomic}
use db.Tests.{one_row, users}
use db.Tests.Tables.{keyed, keyed-not_null, keyed_pk_col, one_row-IsIndexed}
use db.Tests.Rollbacks.{one_row-IsCell}
use db.Tests.Queries.{some_ops, id_name}

check_row_constraints-exact_example :
    (check_row_constraints one_row 0 users ≡ ok tt)
    ↔ ((c : ℕ) → c < length one_row.columns → ColumnHolds users one_row 0 c)
check_row_constraints-exact_example =
    check_row_constraints-exact users one_row 0 one_row-IsIndexed (one_row-IsIndexed, tt)

check_pk_not_referenced-exact_example :
    (check_pk_not_referenced users keyed (117 ∷ []) 0 ≡ ok tt)
    ↔ NotReferenced users.tables keyed (117 ∷ []) 0 0
check_pk_not_referenced-exact_example =
    check_pk_not_referenced-exact users keyed (117 ∷ []) 0 0 (one_row-IsIndexed, tt) keyed_pk_col
      keyed-not_null

abbrev open_txn : Txn
open_txn = record { active = true; log = []; capacity = 0 }

abbrev session : Session
session = record { catalog = users; txn = some open_txn }

only_table : (idx : ℕ) (t : Table) → table_at users.tables idx ≡ some t → one_row ≡ t
unfolding table_at
only_table zero t e = cc
only_table (suc idx) t e = cc

session-HasDeadRoom : (idx : ℕ) → HasDeadRoom idx session
session-HasDeadRoom idx t e r inside =
    let same = only_table idx t e in
    subst (λ (u : Table). r < u.n_rows → r / 8 < length u.dead) same (λ inside. omega arith) inside

abbrev delete_all : DeleteStmt
delete_all = record { table = 117 ∷ []; condition = none }

interp_exec_delete-IsAtomic_example :
    IsAtomic users [] (interp_exec_delete some_ops (λ n. true) delete_all [] session)
interp_exec_delete-IsAtomic_example =
    interp_exec_delete-IsAtomic some_ops (λ n. true) delete_all [] session open_txn refl
      session-HasDeadRoom

abbrev set_id : UpdateStmt
set_id = record {
  table = 117 ∷ [];
  assignments = record { column = id_name; value = expr_lit_int 3 } ∷ [];
  condition = none;
}

session-AreCells : AreCells session
session-AreCells idx t e r col inside width =
    let same = only_table idx t e in
    subst (λ (u : Table). r < u.n_rows → col < length u.columns → IsCell u r col) same
      (λ inside width.
        let first_row : 0 ≡ r = omega arith in
        let first_col : 0 ≡ col = omega arith in
        subst (λ r. IsCell one_row r col) first_row
          (subst (λ col. IsCell one_row 0 col) first_col one_row-IsCell))
      inside width

interp_exec_update-IsAtomic_example :
    IsAtomic users [] (interp_exec_update some_ops (λ n. true) set_id [] session)
interp_exec_update-IsAtomic_example =
    interp_exec_update-IsAtomic some_ops (λ n. true) set_id [] session open_txn refl
      session-AreCells
