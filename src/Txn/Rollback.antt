-- ===== src/Txn/Rollback.antt =====
-- Rolling back a transaction, or one statement of it: c/src/txn.c.
use db.Prelude.{
  ℕ, zero, suc, ◌-◌, ◌≡◌, refl, sym, subst, List, [], ◌∷◌, ◌++◌, append-nil, length, length-append,
  drop, false, arith,
}
use db.Catalog.{Catalog, NamedTable}
use db.Txn.{
  UndoEntry, Txn, at_table, undo_in_table, undo_one, undo_latest, txn_rollback, txn_rollback_to,
}
use db.Txn.Undo.{Restored, Restored-refl, Restored-trans}
use db.Txn.Changes.{Step}
use db.Txn.Steps.{undo_in_table-Restored}

-- The tables of a catalog by their index.
pub data Entry : List NamedTable → ℕ → NamedTable → Type 0 where
  first : (t : NamedTable) (ts : List NamedTable) → Entry (t ∷ ts) zero t
  later :
      (t u : NamedTable) (ts : List NamedTable) (i : ℕ) → Entry ts i u → Entry (t ∷ ts) (suc i) u

-- Every table of the first catalog is restored in the second, which may have more.
pub data AllRestored : List NamedTable → List NamedTable → Type 0 where
  none_left : (us : List NamedTable) → AllRestored [] us
  both :
      (t u : NamedTable) (ts us : List NamedTable)
      → Restored t.table u.table
      → AllRestored ts us
      → AllRestored (t ∷ ts) (u ∷ us)

pub AllRestored-refl : (ts : List NamedTable) → AllRestored ts ts
AllRestored-refl [] = none_left []
AllRestored-refl (t ∷ ts) = both t t ts ts (Restored-refl t.table) (AllRestored-refl ts)

-- A logged change of the table at an index; the other tables stay.
pub data Change : List NamedTable → List NamedTable → ℕ → UndoEntry → Type 0 where
  here :
      (t u : NamedTable) (ts : List NamedTable) (e : UndoEntry)
      → Step t.table u.table e
      → Change (t ∷ ts) (u ∷ ts) zero e
  there :
      (t : NamedTable) (ts us : List NamedTable) (i : ℕ) (e : UndoEntry)
      → Change ts us i e
      → Change (t ∷ ts) (t ∷ us) (suc i) e

-- What happens while a transaction is open, with the entries logged since its start, the latest
-- first: logged changes, and changes that need no entry since every table still shows its rows, as
-- a row that is inserted and deleted again, or a new table.
pub data Run (ts : List NamedTable) : List NamedTable → List UndoEntry → Type 0 where
  start : Run ts ts []
  change :
      (us vs : List NamedTable) (log : List UndoEntry) (e : UndoEntry)
      → Run ts us log
      → Change us vs e.table_idx e
      → Run ts vs (e ∷ log)
  kept :
      (us vs : List NamedTable) (log : List UndoEntry)
      → Run ts us log
      → AllRestored us vs
      → Run ts vs log

AllRestored-trans :
    (ts us vs : List NamedTable) → AllRestored ts us → AllRestored us vs → AllRestored ts vs
AllRestored-trans ts us vs (none_left _) y = none_left vs
AllRestored-trans ts us vs (both t u rest more r x) (both _ v _ last q y) =
    both t v rest last (Restored-trans t.table u.table v.table r q)
      (AllRestored-trans rest more last x y)

-- A table that is added to the catalog, as `catalog_put` does.
pub AllRestored-added :
    (ts : List NamedTable) (fresh : NamedTable) → AllRestored ts (ts ++ (fresh ∷ []))
AllRestored-added [] fresh = none_left _
AllRestored-added (t ∷ ts) fresh =
    both t t ts (ts ++ (fresh ∷ [])) (Restored-refl t.table) (AllRestored-added ts fresh)

Change-undone :
    (ts us vs : List NamedTable) (i : ℕ) (e : UndoEntry)
    → Change ts us i e
    → AllRestored us vs
    → AllRestored ts (at_table vs i (undo_in_table e.kind e))
Change-undone ts us vs i e (here t u rest _ s) (both _ v _ ws r x) =
    both t _ rest ws (undo_in_table-Restored t.table u.table v.table e s r) x
Change-undone ts us vs i e (there t rest more j _ c) (both _ v _ ws r x) =
    both t v rest _ r (Change-undone rest more ws j e c x)

Run-undone :
    (ts us vs : List NamedTable) (log earlier : List UndoEntry) (n : ℕ)
    → Run ts us log
    → AllRestored us vs
    → AllRestored ts
        (undo_latest (length log) (log ++ earlier) (record { tables = vs; capacity = n })).tables
unfolding undo_latest undo_one
Run-undone ts us vs log earlier n start x = x
Run-undone ts us vs log earlier n (change ws _ rest e r c) x =
    Run-undone ts ws _ rest earlier n r (Change-undone ws us vs e.table_idx e c x)
Run-undone ts us vs log earlier n (kept ws _ _ r y) x =
    Run-undone ts ws vs log earlier n r (AllRestored-trans ws us vs y x)

drop-append : (xs ys : List UndoEntry) → drop (length xs) (xs ++ ys) ≡ ys
drop-append [] ys = refl
drop-append (x ∷ xs) ys = drop-append xs ys

-- The entries since `mark`, the number of earlier ones.
since_mark : (log earlier : List UndoEntry) → length (log ++ earlier) - length earlier ≡ length log
since_mark log earlier = omega (arith, length-append log earlier)

-- `txn_rollback_to` with the number of entries that an earlier moment had takes back what happened
-- since, where each change was a row insertion, a cell write or a row deletion with its entry in
-- the log, or left every table showing its rows: each table that the catalog had then shows the
-- rows it showed, over the text heap as it now stands, the rows added since are deleted, the
-- earlier entries stay in the log, and the transaction stays as active as it was.
pub txn_rollback_to-restores :
    (txn : Txn) (c d : Catalog) (log earlier : List UndoEntry)
    → Run c.tables d.tables log
    → txn.log ≡ log ++ earlier
    → AllRestored c.tables (txn_rollback_to txn d (length earlier)).1.tables
      × ((txn_rollback_to txn d (length earlier)).0.log ≡ earlier)
      × ((txn_rollback_to txn d (length earlier)).0.active ≡ txn.active)
unfolding txn_rollback_to
txn_rollback_to-restores txn c d log earlier r e = (
  subst (λ l. AllRestored c.tables (undo_latest (length l - length earlier) l d).tables) (sym e)
      (rw (since_mark log earlier) (
        Run-undone c.tables d.tables d.tables log earlier d.capacity r
          (AllRestored-refl d.tables))),
  subst (λ l. drop (length l - length earlier) l ≡ earlier) (sym e)
      (rw (since_mark log earlier) (drop-append log earlier)),
  refl,
)

-- `txn_rollback` takes back what happened since the start of the transaction, where each change
-- was a row insertion, a cell write or a row deletion with its entry in the log, or left every
-- table showing its rows: each table that the catalog had then shows the rows it showed, over the
-- text heap as it now stands, the rows added since are deleted, the log is empty, and no
-- transaction is active.
pub txn_rollback-restores :
    (txn : Txn) (c d : Catalog)
    → Run c.tables d.tables txn.log
    → AllRestored c.tables (txn_rollback txn d).1.tables
      × ((txn_rollback txn d).0.log ≡ [])
      × ((txn_rollback txn d).0.active ≡ false)
unfolding txn_rollback
txn_rollback-restores txn c d r = (
  subst (λ l. AllRestored c.tables (undo_latest (length txn.log) l d).tables) (append-nil txn.log)
      (Run-undone c.tables d.tables d.tables txn.log [] d.capacity r (AllRestored-refl d.tables)),
  refl,
  refl,
)
