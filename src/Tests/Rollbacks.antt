-- ===== src/Tests/Rollbacks.antt =====
-- Runs of transactions.
use db.Prelude.{◌≡◌, true, false, none, [], ◌∷◌, arith, refl}
use db.Table.{Table, Name}
use db.Table.Cells.{table_set_int}
use db.Catalog.{Catalog}
use db.Txn.{Txn, UndoEntry, update_entry, txn_rollback, txn_rollback_to, undo_in_table}
use db.Txn.Undo.{Restored, Restored-refl}
use db.Txn.Changes.{Step}
use db.Txn.Changes.{updates}
use db.Txn.Steps.{undo_in_table-Restored}
use db.Txn.Logged.{IsCell, setters-Updates}
use db.Txn.Rollback.{
  AllRestored, Run, start, change, here, txn_rollback_to-restores, txn_rollback-restores,
}
use db.Tests.{one_row, users}
use db.Tests.Tables.{one_row-IsInside}

pub one_row-IsCell : IsCell one_row 0 0
one_row-IsCell = record { row_inside = omega arith; inside = one_row-IsInside; typed = λ e. cc }

abbrev table_name : Name
table_name = 117 ∷ []

abbrev logged : UndoEntry
logged = update_entry one_row 0 table_name 0 0

abbrev after : Table
after = table_set_int one_row 0 0 7

set-Step : Step one_row after logged
set-Step = updates 0 0 0 table_name ((setters-Updates one_row 0 0 one_row-IsCell).0 7)

undo_in_table-Restored_example : Restored one_row (undo_in_table logged.kind logged after)
undo_in_table-Restored_example =
    undo_in_table-Restored one_row after after logged set-Step (Restored-refl after)

abbrev users_after : Catalog
users_after = record {
  tables = record { name = 117 ∷ []; path = none; table = after } ∷ [];
  capacity = 4;
}

set-Run : Run users.tables users_after.tables (logged ∷ [])
unfolding update_entry
set-Run = change users.tables _ [] logged start (here _ _ [] logged set-Step)

abbrev open_txn : Txn
open_txn = record { active = true; log = logged ∷ []; capacity = 16 }

txn_rollback-restores_example :
    AllRestored users.tables (txn_rollback open_txn users_after).1.tables
    × ((txn_rollback open_txn users_after).0.log ≡ [])
    × ((txn_rollback open_txn users_after).0.active ≡ false)
txn_rollback-restores_example = txn_rollback-restores open_txn users users_after set-Run

abbrev later_txn : Txn
later_txn = record { active = true; log = logged ∷ logged ∷ []; capacity = 16 }

txn_rollback_to-restores_example :
    AllRestored users.tables (txn_rollback_to later_txn users_after 1).1.tables
    × ((txn_rollback_to later_txn users_after 1).0.log ≡ logged ∷ [])
    × ((txn_rollback_to later_txn users_after 1).0.active ≡ true)
txn_rollback_to-restores_example =
    txn_rollback_to-restores later_txn users users_after (logged ∷ []) (logged ∷ []) set-Run refl
