-- ===== src/Exec/DeleteAtomic.antt =====
-- `interp_exec_delete` of c/src/interp.c is all or nothing.
use db.Prelude.{
  ℕ, ◌/◌, ◌<◌, ◌≡◌, inl, inr, refl, sym, ap, subst, Bool, false, Option, some, List, length,
  Bool-cases, Option-cases,
}
use db.Index.{row_ref_invalid}
use db.Value.{Value}
use db.Table.{Table, Name, dead_test}
use db.Table.Rows.{table_delete_row}
use db.Table.Marks.{table_delete_row-Marks}
use db.Catalog.{Catalog, catalog_find}
use db.Txn.{UndoEntry, Txn, push, txn_log_delete, row_entry, undo_delete}
use db.Txn.Changes.{deletes}
use db.Interp.{Result, ok, err, out_of_memory}
use db.Interp.Eval.{DoubleOps}
use db.Interp.Checks.{table_at, check_pk_not_referenced}
use db.Interp.Select.{accepts, check_condition}
use db.Exec.{
  DeleteStmt, Session, Outcome, log_length, log_with, with_table, for_each_row, row_ctx, name_at,
}
use db.Exec.Delete.{
  delete_logged, delete_checked, delete_row, delete_from, delete_found, interp_exec_delete,
}
use db.Exec.Atomic.{
  IsOpen, IsAtomic, fail-IsUndone, logged-IsOpen, refused-IsOpen, at_table-Change,
  table_at-at_table, fresh-IsOpen, IsStep, for_each_row-IsAtomic, early-IsUndone,
}

-- The deletion marks of the table at the index have room for its rows.
abbrev pub HasDeadRoom : ℕ → Session → Type 0
HasDeadRoom idx s =
    (t : Table)
    → table_at s.catalog.tables idx ≡ some t
    → (r : ℕ) → r < t.n_rows
    → r / 8 < length t.dead

module _ (c : Catalog) (earlier : List UndoEntry) (idx : ℕ) where
  abbrev IsDeleteStep : Outcome → Type 0
  IsDeleteStep = IsStep c earlier (HasDeadRoom idx)

  module _ (s : Session) (t : Table) (row : ℕ) (o : IsOpen c earlier s) (room : HasDeadRoom idx s)
      (there : table_at s.catalog.tables idx ≡ some t) (inside : row < t.n_rows)
      (live : dead_test t row ≡ false) where
    deleted-HasDeadRoom :
        (txn : Option Txn)
        → HasDeadRoom idx (with_table (record s { txn = txn }) idx (λ t. table_delete_row t row))
    deleted-HasDeadRoom txn u e r h =
        let now = table_at-at_table s.catalog.tables idx t (λ t. table_delete_row t row) there in
        let same : table_delete_row t row ≡ u = cc in
        let m = table_delete_row-Marks t row in
        subst (λ v. r / 8 < length v.dead) same
          (subst (λ n. r / 8 < n) (sym m.dead_len)
            (room t there r (subst (λ n. r < n) m.n_rows (subst (λ v. r < v.n_rows) (sym same) h))))

    delete_logged-IsStep :
        (granted : Bool) (name : Name)
        → IsDeleteStep (
            delete_logged s idx row (length earlier) (
              (push o.txn granted (row_entry undo_delete idx name row)).0,
              some (push o.txn granted (row_entry undo_delete idx name row)).1,
            ))
    unfolding delete_logged
    delete_logged-IsStep granted name =
        let e = row_entry undo_delete idx name row in
        elim (Bool-cases (push o.txn granted e).0) [
          | inl done ↦ rw done (
            logged-IsOpen c earlier s _ e granted o done (
                at_table-Change s.catalog.tables idx t (λ t. table_delete_row t row) e there
                  (deletes idx row name (record {
                    row_inside = inside;
                    dead_inside = room t there row inside;
                    was_live = live;
                    result = refl;
                  }))),
            deleted-HasDeadRoom (some (push o.txn granted e).1),
          )
          | inr refused ↦ rw refused (
              fail-IsUndone c earlier out_of_memory
                (record s { txn = some (push o.txn granted e).1 })
                (refused-IsOpen c earlier s e granted o refused))
        ]

    checked :
        (f : DoubleOps) (granted : ℕ → Bool) (stmt : DeleteStmt) (params : List Value)
        (res : Result (Unit {0}))
        → IsDeleteStep (delete_checked f granted stmt params idx (length earlier) s row res)
    unfolding delete_checked txn_log_delete
    checked f granted stmt params (err e) = fail-IsUndone c earlier e s o
    checked f granted stmt params (ok _) =
        subst
          (λ txn. IsDeleteStep (
            delete_logged s idx row (length earlier) (
              log_with txn (λ txn.
                txn_log_delete txn (granted (log_length s.txn)) idx (name_at s.catalog.tables idx)
                  row))))
          (sym o.is_txn)
          (delete_logged-IsStep (granted (log_length s.txn)) (name_at s.catalog.tables idx))

    step_rows :
        (f : DoubleOps) (granted : ℕ → Bool) (stmt : DeleteStmt) (params : List Value)
        → IsDeleteStep (delete_row f granted stmt params idx (length earlier) s t row)
    unfolding delete_row delete_checked txn_log_delete
    step_rows f granted stmt params =
        elim (Bool-cases (accepts f stmt.condition (row_ctx stmt.table t row params))) [
          | inr other ↦ rw (delete_row, other) (o, room)
          | inl fits ↦
              rw (delete_row, fits)
                (checked f granted stmt params (check_pk_not_referenced s.catalog t stmt.table row))
        ]

started :
    (f : DoubleOps) (granted : ℕ → Bool) (stmt : DeleteStmt) (params : List Value) (s : Session)
    (idx : ℕ) (t : Table) (txn : Txn)
    → s.txn ≡ some txn
    → HasDeadRoom idx s
    → (res : Result (Unit {0}))
    → IsAtomic s.catalog txn.log (delete_from f granted stmt params s idx t res)
unfolding delete_from
started f granted stmt params s idx t txn e room (err x) = early-IsUndone s txn e
started f granted stmt params s idx t txn e room (ok _) =
    subst
      (λ mark.
        IsAtomic s.catalog txn.log
          (for_each_row (delete_row f granted stmt params idx mark) idx t.n_rows s 0 0))
      (sym (ap log_length e))
      (for_each_row-IsAtomic s.catalog txn.log idx _ (HasDeadRoom idx) t.n_rows s 0 0
        (λ now u row o ready there inside live.
          step_rows s.catalog txn.log idx now u row o ready there inside live f granted stmt params)
        (fresh-IsOpen s txn e) room)

-- In an open transaction, on tables whose deletion marks have room for their rows, a DELETE is all
-- or nothing: where it fails, on a bad statement, a row that is referred to or a log that cannot
-- grow, every table of the catalog shows the rows that it showed, over the text heap as it now
-- stands, and the log is as it was; where it succeeds, the log has grown by the entries of the
-- changes that were made, which a rollback takes back.
pub interp_exec_delete-IsAtomic :
    (f : DoubleOps) (granted : ℕ → Bool) (stmt : DeleteStmt) (params : List Value) (s : Session)
    (txn : Txn)
    → s.txn ≡ some txn
    → ((idx : ℕ) → HasDeadRoom idx s)
    → IsAtomic s.catalog txn.log (interp_exec_delete f granted stmt params s)
unfolding interp_exec_delete delete_found delete_from
interp_exec_delete-IsAtomic f granted stmt params s txn e room =
    elim (Option-cases (catalog_find s.catalog stmt.table)) [
      | inl missing ↦ rw (interp_exec_delete, missing) (early-IsUndone s txn e)
      | inr (idx, is) ↦ elim (Option-cases (table_at s.catalog.tables idx)) [
        | inl missing ↦ rw (interp_exec_delete, is, delete_found, missing) (early-IsUndone s txn e)
        | inr (t, there) ↦
            rw (interp_exec_delete, is, delete_found, there)
              (started f granted stmt params s idx t txn e (room idx)
                (check_condition stmt.condition (row_ctx stmt.table t row_ref_invalid params)))
      ]
    ]
