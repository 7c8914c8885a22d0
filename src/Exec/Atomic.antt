-- ===== src/Exec/Atomic.antt =====
-- What a statement of c/src/interp.c leaves behind, by how it ended, and the steps that keep it so.
use db.Prelude.{
  ℕ, zero, suc, ◌+◌, ◌<◌, ◌≡◌, inl, inr, refl, sym, ap, subst, ◌∙◌, Bool, true, false, Option, none,
  some, List, [], ◌∷◌, ◌++◌, length, arith, Option-cases,
}
use db.Index.{RowRef}
use db.Cursor.{Cursor}
use db.Cursor.Rows.{Advances, yields, ends, cursor_next-Advances}
use db.Table.{Table, dead_test}
use db.Catalog.{Catalog, NamedTable}
use db.Txn.{UndoEntry, Txn, at_table, push, txn_rollback_to}
use db.Txn.Changes.{Step}
use db.Txn.Rollback.{
  Run, start, change, Change, here, there, AllRestored, AllRestored-refl, txn_rollback_to-restores,
}
use db.Interp.{InterpError, ok, err}
use db.Interp.Checks.{table_at}
use db.Exec.{Session, Outcome, fail, then_on, rolled_back, for_each_row}

push-done :
    (txn : Txn) (granted : Bool) (e : UndoEntry)
    → (push txn granted e).0 ≡ true
    → (push txn granted e).1.log ≡ e ∷ txn.log
unfolding push
push-done txn granted e h = ground arith

push-refused :
    (txn : Txn) (granted : Bool) (e : UndoEntry)
    → (push txn granted e).0 ≡ false
    → (push txn granted e).1.log ≡ txn.log
unfolding push
push-refused txn granted e h = ground arith

module _ (c : Catalog) (earlier : List UndoEntry) where
  -- Every change since the statement began is in the log.
  pub record IsOpen (s : Session) : Type 0 where
    pub txn : Txn
    pub log : List UndoEntry
    pub is_txn : s.txn ≡ some txn
    pub logged : txn.log ≡ log ++ earlier
    pub run : Run c.tables s.catalog.tables log

  -- Every table shows the rows it showed when the statement began, and the log is as it was.
  pub record IsUndone (s : Session) : Type 0 where
    pub txn : Txn
    pub is_txn : s.txn ≡ some txn
    pub logged : txn.log ≡ earlier
    pub tables : AllRestored c.tables s.catalog.tables

  -- A statement that fails has undone its changes, and one that succeeds has logged them.
  abbrev pub IsAtomic : Outcome → Type 0
  IsAtomic (ok n, s) = IsOpen s
  IsAtomic (err e, s) = IsUndone s

  pub fail-IsUndone :
      (e : InterpError) (s : Session) → IsOpen s → IsAtomic (fail e s (length earlier))
  unfolding fail
  fail-IsUndone e s o =
      let back = txn_rollback_to-restores o.txn c s.catalog o.log earlier o.run o.logged in
      subst (λ t. IsUndone (rolled_back t s.catalog (length earlier))) (sym o.is_txn)
        (record {
          txn = (txn_rollback_to o.txn s.catalog (length earlier)).0;
          is_txn = refl;
          logged = back.1;
          tables = back.0;
        })

  -- A change that is logged.
  pub logged-IsOpen :
      (s : Session) (ts : List NamedTable) (e : UndoEntry) (granted : Bool) (o : IsOpen s)
      → (push o.txn granted e).0 ≡ true
      → Change s.catalog.tables ts e.table_idx e
      → IsOpen (record {
        catalog = record s.catalog { tables = ts };
        txn = some (push o.txn granted e).1;
      })
  unfolding push
  logged-IsOpen s ts e granted o done ch = record {
    txn = (push o.txn granted e).1;
    log = e ∷ o.log;
    is_txn = refl;
    logged = push-done o.txn granted e done ∙ ap (◌∷◌ e) o.logged;
    run = change s.catalog.tables ts o.log e o.run ch;
  }

  -- An entry that was refused leaves the log alone.
  pub refused-IsOpen :
      (s : Session) (e : UndoEntry) (granted : Bool) (o : IsOpen s)
      → (push o.txn granted e).0 ≡ false
      → IsOpen (record s { txn = some (push o.txn granted e).1 })
  unfolding push
  refused-IsOpen s e granted o refused = record {
    txn = (push o.txn granted e).1;
    log = o.log;
    is_txn = refl;
    logged = push-refused o.txn granted e refused ∙ o.logged;
    run = o.run;
  }

-- A step on the table at an index is a change of the catalog.
pub at_table-Change :
    (ts : List NamedTable) (i : ℕ) (t : Table) (f : Table → Table) (e : UndoEntry)
    → table_at ts i ≡ some t
    → Step t (f t) e
    → Change ts (at_table ts i f) i e
unfolding table_at
at_table-Change [] i t f e h s = cc
at_table-Change (n ∷ ts) zero t f e h s =
    let same : n.table ≡ t = cc in here n _ ts e (subst (λ u. Step u (f u) e) (sym same) s)
at_table-Change (n ∷ ts) (suc i) t f e h s = there n ts _ i e (at_table-Change ts i t f e h s)

pub table_at-at_table :
    (ts : List NamedTable) (i : ℕ) (t : Table) (f : Table → Table)
    → table_at ts i ≡ some t
    → table_at (at_table ts i f) i ≡ some (f t)
unfolding table_at
table_at-at_table [] i t f h = cc
table_at-at_table (n ∷ ts) zero t f h = let same : n.table ≡ t = cc in ap (λ u. some (f u)) same
table_at-at_table (n ∷ ts) (suc i) t f h = table_at-at_table ts i t f h

pub fresh-IsOpen : (s : Session) (txn : Txn) → s.txn ≡ some txn → IsOpen s.catalog txn.log s
fresh-IsOpen s txn e = record { txn = txn; log = []; is_txn = e; logged = refl; run = start }

-- A statement that fails before its first change.
pub early-IsUndone : (s : Session) (txn : Txn) → s.txn ≡ some txn → IsUndone s.catalog txn.log s
early-IsUndone s txn e = record {
  txn = txn;
  is_txn = e;
  logged = refl;
  tables = AllRestored-refl s.catalog.tables;
}

-- A step that keeps an invariant, or undoes the statement.
module _ (c : Catalog) (earlier : List UndoEntry) (Ready : Session → Type 0) where
  abbrev pub IsStep : Outcome → Type 0
  IsStep (ok n, s) = IsOpen c earlier s × Ready s
  IsStep (err e, s) = IsUndone c earlier s

-- A loop over the rows with such a step.
module _ (c : Catalog) (earlier : List UndoEntry) (idx : ℕ)
    (step : Session → Table → RowRef → Outcome) (Ready : Session → Type 0) where
  -- The step at a live row of the table as it stands.
  abbrev pub Steps : Type 0
  Steps =
      (s : Session) (t : Table) (row : ℕ)
      → IsOpen c earlier s
      → Ready s
      → table_at s.catalog.tables idx ≡ some t
      → row < t.n_rows
      → dead_test t row ≡ false
      → IsStep c earlier Ready (step s t row)

  then_on-IsAtomic :
      (res : Outcome) (rest : ℕ → Session → Outcome)
      → IsStep c earlier Ready res
      → ((n : ℕ) (after : Session)
          → IsOpen c earlier after
          → Ready after
          → IsAtomic c earlier (rest n after))
      → IsAtomic c earlier (then_on res rest)
  then_on-IsAtomic (ok n, s) rest (o, ready) k = k n s o ready
  then_on-IsAtomic (err e, s) rest undone k = undone

  moved_on :
      (rounds : ℕ) (s : Session) (next n_changed : ℕ) (t : Table)
      → Steps
      → ((after : Session) (at n : ℕ)
          → IsOpen c earlier after
          → Ready after
          → IsAtomic c earlier (for_each_row step idx rounds after at n))
      → IsOpen c earlier s
      → Ready s
      → table_at s.catalog.tables idx ≡ some t
      → (moved : Option RowRef × Cursor) → Advances (record { table = t; next_row = next }) moved
      → IsAtomic c earlier (elim moved.0 [
        | none ↦ (ok n_changed, s)
        | some row ↦
            then_on
              (step s t row)
              (λ k after. for_each_row step idx rounds after moved.1.next_row (n_changed + k))
      ])
  moved_on rounds s next n_changed t steps rest o ready at_idx _ (ends d dead same past) = o
  moved_on rounds s next n_changed t steps rest o ready at_idx _
        (yields row low inside live before) =
      then_on-IsAtomic _ _ (steps s t row o ready at_idx inside live)
        (λ n after. rest after (row + 1) (n_changed + n))

  pub for_each_row-IsAtomic :
      (rounds : ℕ) (s : Session) (next n_changed : ℕ)
      → Steps
      → IsOpen c earlier s
      → Ready s
      → IsAtomic c earlier (for_each_row step idx rounds s next n_changed)
  unfolding for_each_row
  for_each_row-IsAtomic zero s next n_changed steps o ready = o
  for_each_row-IsAtomic (suc rounds) s next n_changed steps o ready =
      elim (Option-cases (table_at s.catalog.tables idx)) [
        | inl missing ↦ rw (for_each_row, missing) o
        | inr (t, at_idx) ↦
            rw (for_each_row, at_idx)
              (moved_on rounds s next n_changed t steps
                (λ after at n. for_each_row-IsAtomic rounds after at n steps) o ready at_idx _
                (cursor_next-Advances (record { table = t; next_row = next })))
      ]
