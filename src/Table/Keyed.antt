-- ===== src/Table/Keyed.antt =====
-- The primary-key index as rows come, go and lose their keys in c/src/table.c.
use db.Prelude.{
  ℕ, ◌*◌, ◌/◌, ◌<◌, ◌≡◌, ◌≢◌, ◌⊎◌, inl, inr, sym, ap, subst, ◌∙◌, Bool, true, false, length, arith,
  some, get_or,
}
use native.Mathlib.Decide.{ℕ_discrete}
use db.Prelude.Bits.{word}
use db.Bitmap.{test_bit}
use db.Index.{RowIndex}
use db.Index.Store.{Holds}
use db.Index.Insert.{IsIndex}
use db.Table.{Table, no_column, null_test, dead_test, zero_cell}
use db.Table.Rows.{table_append_row, table_delete_row, table_undelete_row, table_set_null}
use db.Table.Cells.{cell_hash}
use db.Table.Views.{IsInside, SameCell}
use db.Table.Marks.{Marks, table_delete_row-Marks, table_undelete_row-Marks}
use db.Table.Nulls.{table_set_null-IsNulling}
use db.Table.Append.{IsShaped, Keeps, Keeps-SameCell, Appended, table_append_row-Appended}
use db.Table.Lookup.{IsIndexed}
use db.Table.Indexed.{IsIndexed-kept, IsKeyed, WasKeyed, cell_hash-same}

-- A row that was live and has the same cell under the key was keyed.
same_key :
    (t u : Table) (pk r : ℕ)
    → SameCell t u r pk
    → u.heap_data ≡ t.heap_data
    → t.pk_col ≡ some pk
    → r < t.n_rows
    → dead_test t r ≡ false
    → IsKeyed u pk r
    → WasKeyed t u pk r
same_key t u pk r s heap key inside live k = record {
  keyed = record { key = key; inside = inside; live = live; not_null = sym s.null ∙ k.not_null };
  hash = cell_hash-same t u r pk s heap;
}

Keeps-was : (t u : Table) (pk r : ℕ) → Keeps t u → r < t.n_rows → IsKeyed u pk r → WasKeyed t u pk r
Keeps-was t u pk r k h x =
    same_key t u pk r (Keeps-SameCell t u r pk k h) k.heap_data (sym k.pk_col ∙ x.key) h
      (sym (k.live r h) ∙ x.live) x

Appended-IsIndexed :
    (t u : Table) (row : ℕ)
    → Appended t u row
    → ((pk : ℕ) → t.pk_col ≡ some pk → pk < length t.columns)
    → IsIndexed t
    → IsIndexed u
Appended-IsIndexed t u row a valid i =
    let rows = a.n_rows in
    let last = a.last in
    IsIndexed-kept t u i a.keeps.pk_index (omega arith) (λ pk r x. elim (ℕ_discrete row r) [
      | yes e ↦
          let null = a.is_null pk (valid pk (sym a.keeps.pk_col ∙ x.key)) in
          absurd (cc (null, subst (λ q. null_test u pk q ≡ false) (sym e) x.not_null))
      | no ne ↦ let inside = x.inside in Keeps-was t u pk r a.keeps (omega arith) x
    ])

-- The invariant of the primary-key index is kept by `table_append_row`, whether it adds a row or
-- has no memory for it, on a table whose arrays have the room its capacity says, whose capacity
-- can be doubled without overflow, and whose key is among its columns.
pub table_append_row-IsIndexed :
    (t : Table)
    → IsShaped t
    → t.row_cap * 2 < word
    → ((pk : ℕ) → t.pk_col ≡ some pk → pk < length t.columns)
    → IsIndexed t
    → IsIndexed (table_append_row t).1
table_append_row-IsIndexed t s small valid i = elim (table_append_row-Appended t s small) [
  | inl added ↦ Appended-IsIndexed t _ _ added valid i
  | inr refused ↦
      let rows = refused.n_rows in
      IsIndexed-kept t _ i refused.keeps.pk_index (omega arith)
        (λ pk r x. let inside = x.inside in Keeps-was t _ pk r refused.keeps (omega arith) x)
]

Marks-SameCell :
    (t u : Table) (row : ℕ) (mark : Bool) (r c : ℕ) → Marks t u row mark → SameCell t u r c
unfolding null_test
Marks-SameCell t u row mark r c m = record {
  null = ap (λ cs. test_bit (get_or cs c no_column).nulls r) m.columns;
  kind = ap (λ cs. (get_or cs c no_column).kind) m.columns;
  cell =
      ap (λ cs. get_or (get_or cs c no_column).cells r (zero_cell (get_or cs c no_column).kind))
        m.columns;
}

Marks-was :
    (t u : Table) (row : ℕ) (mark : Bool) (pk r : ℕ)
    → Marks t u row mark
    → dead_test t r ≡ false
    → IsKeyed u pk r
    → WasKeyed t u pk r
Marks-was t u row mark pk r m live x =
    let rows = m.n_rows in
    let inside = x.inside in
    same_key t u pk r (Marks-SameCell t u row mark r pk m) m.heap_data (sym m.pk_col ∙ x.key)
      (omega arith) live x

-- The invariant of the primary-key index is kept by `table_delete_row` on a row inside the bitmap.
pub table_delete_row-IsIndexed :
    (t : Table) (row : ℕ)
    → IsIndexed t
    → row / 8 < length t.dead
    → IsIndexed (table_delete_row t row)
table_delete_row-IsIndexed t row i bound =
    let m = table_delete_row-Marks t row in
    let rows = m.n_rows in
    IsIndexed-kept t _ i m.pk_index (omega arith) (λ pk r x. elim (ℕ_discrete row r) [
      | yes e ↦ absurd (
          cc (
            m.marked bound,
            subst (λ q. dead_test (table_delete_row t row) q ≡ false) (sym e) x.live,
          ))
      | no ne ↦ Marks-was t _ row true pk r m (sym (m.others r ne) ∙ x.live) x
    ])

-- The invariant of the primary-key index is kept by `table_set_null` on a cell of the table, the
-- key's own column included.
pub table_set_null-IsIndexed :
    (t : Table) (row col : ℕ)
    → IsIndexed t
    → IsInside t row col
    → IsIndexed (table_set_null t row col)
unfolding dead_test
table_set_null-IsIndexed t row col i inside =
    let n = table_set_null-IsNulling t row col inside in
    let rows = n.n_rows in
    let live : (r : ℕ) → dead_test (table_set_null t row col) r ≡ dead_test t r =
      λ r. ap (λ d. test_bit d r) n.dead in
    IsIndexed-kept t _ i n.pk_index (omega arith) (λ pk r x.
      let apart : (col ≢ pk) ⊎ (row ≢ r) → WasKeyed t (table_set_null t row col) pk r = λ away.
        let bound = x.inside in
        same_key t _ pk r (n.others r pk away) n.heap_data (sym n.pk_col ∙ x.key) (omega arith)
          (sym (live r) ∙ x.live) x in
      elim (ℕ_discrete col pk) [
        | no ne ↦ apart (inl ne)
        | yes e ↦ elim (ℕ_discrete row r) [
          | no ne ↦ apart (inr ne)
          | yes f ↦ absurd (
              cc (
                n.null,
                subst (λ q. null_test (table_set_null t row col) q row ≡ false) (sym e)
                    (subst (λ q. null_test (table_set_null t row col) pk q ≡ false) (sym f)
                      x.not_null),
              ))
        ]
      ])

-- Undoing a deletion keeps the invariant of the primary-key index where the row's key, if it has
-- one, is still stored.
pub table_undelete_row-IsIndexed :
    (t : Table) (row : ℕ)
    → IsIndexed t
    → ((pk : ℕ)
        → t.pk_col ≡ some pk
        → null_test t pk row ≡ false
        → Holds t.pk_index.slots (cell_hash t row pk) row)
    → IsIndexed (table_undelete_row t row)
table_undelete_row-IsIndexed t row i stored =
    let m = table_undelete_row-Marks t row in
    let u = table_undelete_row t row in
    let rows = m.n_rows in
    let held : (h r : ℕ) → Holds t.pk_index.slots h r → Holds u.pk_index.slots h r =
      λ h r x. subst (λ (y : RowIndex). Holds y.slots h r) (sym m.pk_index) x in
    record {
      index = subst IsIndex (sym m.pk_index) i.index;
      found = λ pk r key healthy inside live not_null.
          let s = Marks-SameCell t u row false r pk m in
          let before : null_test t pk r ≡ false = sym s.null ∙ not_null in
          let same = cell_hash-same t u r pk s m.heap_data in
          held _ r (
            subst (λ h. Holds t.pk_index.slots h r) (sym same)
              (elim (ℕ_discrete row r) [
                | yes e ↦
                    subst
                      (λ q. null_test t pk q ≡ false → Holds t.pk_index.slots (cell_hash t q pk) q)
                      e (stored pk (sym m.pk_col ∙ key)) before
                | no ne ↦
                    i.found pk r (sym m.pk_col ∙ key)
                      (ap (λ (x : RowIndex). x.degraded) (sym m.pk_index) ∙ healthy) (omega arith)
                      (sym (m.others r ne) ∙ live) before
              ]));
      rows = λ h r x.
          let bound = i.rows h r (subst (λ (y : RowIndex). Holds y.slots h r) m.pk_index x) in
          omega arith;
    }
