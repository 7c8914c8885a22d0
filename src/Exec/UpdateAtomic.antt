-- ===== src/Exec/UpdateAtomic.antt =====
-- `interp_exec_update` of c/src/interp.c is all or nothing.
use db.Prelude.{
  ℕ, ◌+◌, arith, ◌<◌, ◌≡◌, inl, inr, refl, sym, ap, subst, ◌∙◌, Bool, Option, none, some, List, [],
  ◌∷◌, length, if◌then◌else◌, Has, Bool-cases, Option-cases,
}
use db.Index.{row_ref_invalid}
use db.Value.{Value}
use db.Table.{Table, Name, column_at, Column, bytes_eq, table_failed}
use db.Table.Columns.{find_name, table_find_column}
use db.Catalog.{Catalog, catalog_find}
use db.Txn.{UndoEntry, Txn, push, txn_log_update, update_entry}
use db.Txn.Changes.{Updates, updates}
use db.Txn.Logged.{IsCell}
use db.Interp.{RowCtx, Result, ok, err, ◌>>=◌, out_of_memory}
use db.Interp.Eval.{DoubleOps}
use db.Interp.Checks.{
  table_at, check_pk_not_referenced, check_row_constraints, assign_value, col_name,
}
use db.Interp.Types.{expr_fits_column}
use db.Interp.Select.{accepts, check_condition}
use db.Exec.{
  UpdateStmt, Assignment, Session, Outcome, log_length, log_with, fail, for_each_row, row_ctx,
  name_at,
}
use db.Exec.Update.{
  assigned_column, assigned_columns, updates_pk, new_values, assigned, check_updated, assign_logged,
  assign_all, update_checked, update_row, update_with, update_found, interp_exec_update,
}
use db.Interp.Sound.{step_ok}
use db.Exec.Assigned.{assign_value-Updates}
use db.Exec.Atomic.{
  IsOpen, IsAtomic, fail-IsUndone, logged-IsOpen, refused-IsOpen, at_table-Change,
  table_at-at_table, fresh-IsOpen, early-IsUndone, IsStep, for_each_row-IsAtomic,
}

-- The cells of the columns, in every row of the table at the index, are there and have a type.
abbrev pub HasCells : ℕ → List ℕ → Session → Type 0
HasCells idx cols s =
    (t : Table)
    → table_at s.catalog.tables idx ≡ some t
    → (r col : ℕ) → r < t.n_rows
    → Has col cols
    → IsCell t r col

Updates-IsCell : (t u : Table) (row col r c : ℕ) → Updates t u row col → IsCell t r c → IsCell u r c
Updates-IsCell t u row col r c w i = record {
  row_inside = subst (λ n. r < n) (sym w.n_rows) i.row_inside;
  inside = w.covers.room r c i.inside;
  typed = λ e. i.typed (sym (w.covers.kinds c) ∙ e);
}

module _ (c : Catalog) (earlier : List UndoEntry) (idx : ℕ) (cols : List ℕ) (row : ℕ) where
  abbrev IsUpdateStep : Outcome → Type 0
  IsUpdateStep = IsStep c earlier (HasCells idx cols)

  -- The row is one of the table at the index.
  abbrev IsRow : Session → Type 0
  IsRow s = (t : Table) → table_at s.catalog.tables idx ≡ some t → row < t.n_rows

  check_updated-IsStep :
      (s : Session) (o : Option Table)
      → IsOpen c earlier s
      → HasCells idx cols s
      → IsUpdateStep (check_updated s row (length earlier) o)
  unfolding check_updated
  check_updated-IsStep s none o cells = (o, cells)
  check_updated-IsStep s (some t) o cells = elim (Bool-cases (table_failed t)) [
    | inl failed ↦ rw (check_updated, failed) (fail-IsUndone c earlier out_of_memory s o)
    | inr fine ↦ rw (check_updated, fine) (after_check (check_row_constraints t row s.catalog))
  ]
    where
      after_check :
          (res : Result (Unit {0}))
          → IsUpdateStep (elim res [ ok _ ↦ (ok 1, s) | err e ↦ fail e s (length earlier) ])
      after_check (ok _) = (o, cells)
      after_check (err e) = fail-IsUndone c earlier e s o

  module _ (s : Session) (t : Table) (col : ℕ) (v : Value)
      (at_idx : table_at s.catalog.tables idx ≡ some t) (cell : IsCell t row col) where
    now : table_at (assigned s idx row col v).catalog.tables idx ≡ some (assign_value t row col v)
    now = table_at-at_table s.catalog.tables idx t (λ t. assign_value t row col v) at_idx

    assigned-HasCells : HasCells idx cols s → HasCells idx cols (assigned s idx row col v)
    assigned-HasCells cells u e r d inside has =
        let same : assign_value t row col v ≡ u = cc (now, e) in
        let w = assign_value-Updates t row col v cell in
        subst (λ u. IsCell u r d) same
          (Updates-IsCell t _ row col r d w (
            cells t at_idx r d
              (subst (λ n. r < n) w.n_rows (subst (λ u. r < u.n_rows) (sym same) inside)) has))

    assigned-IsRow : IsRow (assigned s idx row col v)
    assigned-IsRow u e =
        let same : assign_value t row col v ≡ u = cc (now, e) in
        let w = assign_value-Updates t row col v cell in
        subst (λ u. row < u.n_rows) same (subst (λ n. row < n) (sym w.n_rows) cell.row_inside)

    assign_logged-IsStep :
        (rest : Session → Outcome) (granted : Bool) (name : Name) (o : IsOpen c earlier s)
        → HasCells idx cols s
        → ((after : Session)
            → IsOpen c earlier after
            → HasCells idx cols after
            → IsRow after
            → IsUpdateStep (rest after))
        → IsUpdateStep (
            assign_logged idx (length earlier) row s col v rest (
              (txn_log_update o.txn granted t idx name row col).0,
              some (txn_log_update o.txn granted t idx name row col).1,
            ))
    unfolding assign_logged txn_log_update
    assign_logged-IsStep rest granted name o cells k =
        let e = update_entry t idx name row col in
        let txn = some (push o.txn granted e).1 in
        elim (Bool-cases (push o.txn granted e).0) [
          | inl done ↦ rw done (
              k (assigned (record s { txn = txn }) idx row col v)
                (logged-IsOpen c earlier s _ e granted o done (
                  at_table-Change s.catalog.tables idx t (λ t. assign_value t row col v) e at_idx
                    (updates idx row col name (assign_value-Updates t row col v cell))))
                (assigned-HasCells cells) assigned-IsRow)
          | inr refused ↦ rw refused (
              fail-IsUndone c earlier out_of_memory (record s { txn = txn })
                (refused-IsOpen c earlier s e granted o refused))
        ]

  module _ (granted : ℕ → Bool) where
    assign_all-IsStep :
        (some_cols : List ℕ) (vs : List Value) (s : Session)
        → ((col : ℕ) → Has col some_cols → Has col cols)
        → IsOpen c earlier s
        → HasCells idx cols s
        → IsRow s
        → IsUpdateStep (assign_all granted idx (length earlier) row some_cols vs s)
    unfolding assign_all txn_log_update
    assign_all-IsStep [] vs s sub o cells is_row = check_updated-IsStep s _ o cells
    assign_all-IsStep (col ∷ more) [] s sub o cells is_row = check_updated-IsStep s _ o cells
    assign_all-IsStep (col ∷ more) (v ∷ vs) s sub o cells is_row =
        elim (Option-cases (table_at s.catalog.tables idx)) [
          | inl missing ↦ rw (assign_all, missing) (o, cells)
          | inr (t, at_idx) ↦
              rw (assign_all, at_idx)
                (subst
                  (λ txn. IsUpdateStep (
                    assign_logged idx (length earlier) row s col v
                      (assign_all granted idx (length earlier) row more vs)
                      (log_with txn (λ txn.
                        txn_log_update txn (granted (log_length s.txn)) t idx
                          (name_at s.catalog.tables idx) row col))))
                  (sym o.is_txn)
                  (assign_logged-IsStep s t col v at_idx
                    (cells t at_idx row col (is_row t at_idx) (sub col (inl refl))) _
                    (granted (log_length s.txn)) (name_at s.catalog.tables idx) o cells
                    (λ after o cells is_row.
                      assign_all-IsStep more vs after (λ d h. sub d (inr h)) o cells is_row)))
        ]

module _ (c : Catalog) (earlier : List UndoEntry) (idx : ℕ) (cols : List ℕ) (f : DoubleOps)
    (granted : ℕ → Bool) (stmt : UpdateStmt) (params : List Value) (pk_updated : Bool) where
  row_IsStep :
      (s : Session) (t : Table) (row : ℕ)
      → IsOpen c earlier s
      → HasCells idx cols s
      → table_at s.catalog.tables idx ≡ some t
      → row < t.n_rows
      → IsStep c earlier
          (HasCells idx cols)
          (update_row f granted stmt params idx (length earlier) cols pk_updated s t row)
  unfolding update_row update_checked
  row_IsStep s t row o cells at_idx inside =
      elim (Bool-cases (accepts f stmt.condition (row_ctx stmt.table t row params))) [
        | inr other ↦ rw (update_row, other) (o, cells)
        | inl fits ↦
            rw (update_row, fits)
              (checked
                (if pk_updated then check_pk_not_referenced s.catalog t stmt.table row else ok tt))
      ]
    where
      checked :
          (res : Result (Unit {0}))
          → IsStep c earlier (HasCells idx cols) (
              update_checked f granted stmt params idx (length earlier) cols pk_updated s t row res)
      checked (err e) = fail-IsUndone c earlier e s o
      checked (ok _) =
          assign_all-IsStep c earlier idx cols row granted cols
            (new_values f stmt.assignments (row_ctx stmt.table t row params)) s (λ d h. h) o cells
            (λ u e. let same : t ≡ u = cc in subst (λ u. row < u.n_rows) same inside)

find_name-bound :
    (cs : List Column) (name : Name) (i j : ℕ) → find_name cs name i ≡ some j → j < i + length cs
unfolding find_name
find_name-bound [] name i j h = cc
find_name-bound (d ∷ cs) name i j h = elim (Bool-cases (bytes_eq d.name name)) [
  | inl here ↦
      let at : some i ≡ some j = rw (find_name, here) at h in let same : i ≡ j = cc in omega arith
  | inr other ↦ omega (arith, find_name-bound cs name (i + 1) j (rw (find_name, other) at h))
]

ok_list : {a b : List ℕ} → ok a ≡ ok b → a ≡ b
ok_list e = cc

assigned_column-found :
    (t : Table) (ctx : RowCtx) (a : Assignment) (found : Option ℕ) (col : ℕ)
    → assigned_column t ctx a found ≡ ok col
    → found ≡ some col
unfolding assigned_column
assigned_column-found t ctx a none col h = cc
assigned_column-found t ctx a (some d) col h =
    let (_, fits, last) =
      step_ok (expr_fits_column a.value ctx (column_at t d).kind (col_name t d)) _ h in
    let same : d ≡ col = cc in ap some same

assigned_columns-bound :
    (t : Table) (ctx : RowCtx) (list : List Assignment) (cols : List ℕ)
    → assigned_columns t ctx list ≡ ok cols
    → (col : ℕ) → Has col cols
    → col < length t.columns
unfolding assigned_columns assigned_column table_find_column
assigned_columns-bound t ctx [] cols h col has = absurd (subst (Has col) (sym (ok_list h)) has)
assigned_columns-bound t ctx (a ∷ more) cols h col has =
    let (d, first, rest) = step_ok (assigned_column t ctx a (table_find_column t a.column)) _ h in
    let (ds, others, last) = step_ok (assigned_columns t ctx more) _ rest in
    elim (subst (Has col) (sym (ok_list last)) has) [
      | inl here ↦
          let bound =
            find_name-bound t.columns a.column 0 d
              (assigned_column-found t ctx a (table_find_column t a.column) d first) in
          subst (λ c. c < length t.columns) (sym here) (omega (arith, bound))
      | inr later ↦ assigned_columns-bound t ctx more ds others col later
    ]

-- Every cell of every table is there and has a type.
abbrev pub AreCells : Session → Type 0
AreCells s =
    (idx : ℕ) (t : Table)
    → table_at s.catalog.tables idx ≡ some t
    → (r col : ℕ) → r < t.n_rows
    → col < length t.columns
    → IsCell t r col

module _ (f : DoubleOps) (granted : ℕ → Bool) (stmt : UpdateStmt) (params : List Value)
    (s : Session) (txn : Txn) (is_txn : s.txn ≡ some txn) (cells : AreCells s) where
  started :
      (idx : ℕ) (t : Table)
      → table_at s.catalog.tables idx ≡ some t
      → (res : Result (List ℕ))
      → ((cols : List ℕ) → res ≡ ok cols → (col : ℕ) → Has col cols → col < length t.columns)
      → IsAtomic s.catalog txn.log (update_with f granted stmt params s idx t res)
  unfolding update_with
  started idx t at_idx (err e) bound = early-IsUndone s txn is_txn
  started idx t at_idx (ok cols) bound =
      let has_cells : HasCells idx cols s = λ u e r col inside has.
        let same : t ≡ u = cc in
        cells idx u e r col inside
          (subst (λ (u : Table). col < length u.columns) same (bound cols refl col has)) in
      subst
        (λ mark. IsAtomic s.catalog txn.log (
          for_each_row (update_row f granted stmt params idx mark cols (updates_pk t cols)) idx
            t.n_rows s 0 0))
        (sym (ap log_length is_txn))
        (for_each_row-IsAtomic s.catalog txn.log idx _ (HasCells idx cols) t.n_rows s 0 0
          (λ now u row o ready at_now inside live.
            row_IsStep s.catalog txn.log idx cols f granted stmt params (updates_pk t cols) now u
              row o ready at_now inside)
          (fresh-IsOpen s txn is_txn) has_cells)

  checked_columns :
      (t : Table) (ctx : RowCtx) (cols : List ℕ)
      → (assigned_columns t ctx stmt.assignments >>= λ cols.
          check_condition stmt.condition ctx >>= λ _. ok cols)
        ≡ ok cols
      → assigned_columns t ctx stmt.assignments ≡ ok cols
  checked_columns t ctx cols h =
      let (ds, found, rest) = step_ok (assigned_columns t ctx stmt.assignments) _ h in
      let (_, passed, last) = step_ok (check_condition stmt.condition ctx) _ rest in found ∙ last

  -- In an open transaction, on tables whose cells are all there and typed, an UPDATE is all or
  -- nothing: where it fails, on a bad statement, a row that is referred to, a broken constraint, a
  -- text heap or a log that cannot grow, every table of the catalog shows the rows that it showed,
  -- over the text heap as it now stands, and the log is as it was; where it succeeds, the log has
  -- grown by the entries of the changes that were made, which a rollback takes back.
  pub interp_exec_update-IsAtomic :
      IsAtomic s.catalog txn.log (interp_exec_update f granted stmt params s)
  unfolding interp_exec_update update_found
  interp_exec_update-IsAtomic = elim (Option-cases (catalog_find s.catalog stmt.table)) [
    | inl missing ↦ rw (interp_exec_update, missing) (early-IsUndone s txn is_txn)
    | inr (idx, is) ↦ elim (Option-cases (table_at s.catalog.tables idx)) [
      | inl missing ↦
          rw (interp_exec_update, is, update_found, missing) (early-IsUndone s txn is_txn)
      | inr (t, at_idx) ↦
          let ctx = row_ctx stmt.table t row_ref_invalid params in
          rw (interp_exec_update, is, update_found, at_idx)
            (started idx t at_idx _ (λ cols h.
              assigned_columns-bound t ctx stmt.assignments cols (checked_columns t ctx cols h)))
    ]
  ]
