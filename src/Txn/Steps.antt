-- ===== src/Txn/Steps.antt =====
-- `undo_one` of c/src/txn.c takes back each change that a transaction logs.
use db.Prelude.{
  ℕ, ◌/◌, ◌<◌, ◌≡◌, ◌≢◌, ◌⊎◌, inl, inr, refl, sym, ap, subst, ◌∙◌, true, false, List, length, arith,
  Bool-cases,
}
use native.Mathlib.Decide.{ℕ_discrete}
use db.Bitmap.{test_bit}
use db.Value.{FieldType, ft_int, ft_double, ft_bool, ft_text, ft_err}
use db.Table.{Table, Cell, Name, column_at, dead_test, null_test}
use db.Table.Rows.{table_delete_row, table_undelete_row, table_set_null, table_is_null}
use db.Table.Cells.{
  cell_at, table_set_int, table_set_double, table_set_bool, table_set_text_ref, table_get_int,
  table_get_double, table_get_bool, table_get_text_ref,
}
use db.Table.Nulls.{IsNulling, table_set_null-IsNulling}
use db.Table.Marks.{Marks, table_delete_row-Marks, table_undelete_row-Marks}
use db.Table.Views.{IsInside, SameCell, read_content, read_value}
use db.Table.Reads.{IsWrite, write_cell-IsWrite}
use db.Txn.{UndoEntry, undo_update, saved_cell, update_entry, restore_cell, undo_in_table}
use db.Txn.Undo.{shown, SameCell-shown, Covers, Restored, Covers-trans, Marks-shown, Marks-Covers}
use db.Txn.Changes.{Inserts, Updates, Deletes, Step, inserts, updates, deletes}

undo_insert_Restored :
    (t u v : Table) (row : ℕ) → Inserts t u row → Restored u v → Restored t (table_delete_row v row)
undo_insert_Restored t u v row s x =
    let m = table_delete_row-Marks v row in
    let rows = m.n_rows in
    let last = s.last in
    let more = s.n_rows in
    record {
      covers =
          Covers-trans t u _ s.covers (Covers-trans u v _ x.covers (Marks-Covers v _ row true m));
      live = λ r h. m.others r (λ e. omega arith) ∙ x.live r (omega arith) ∙ s.live r h;
      beyond = λ r low high. elim (ℕ_discrete row r) [
        | yes same ↦
            subst (λ q. dead_test (table_delete_row v row) q ≡ true) same
              (m.marked (x.covers.dead_room row s.dead_inside))
        | no ne ↦ m.others r ne ∙ x.beyond r (omega arith) (omega arith)
      ];
      cells = λ r c h heap.
          Marks-shown v _ row true r c heap m
          ∙ x.cells r c (omega arith) heap
          ∙ SameCell-shown t u r c heap (s.cells r c h);
    }

undo_delete_Restored :
    (t u v : Table) (row : ℕ)
    → Deletes t u row
    → Restored u v
    → Restored t (table_undelete_row v row)
undo_delete_Restored t u v row s x =
    let m = table_undelete_row-Marks v row in
    let d : Marks t u row true =
      subst (λ w. Marks t w row true) (sym s.result) (table_delete_row-Marks t row) in
    let rows = m.n_rows in
    let same = d.n_rows in
    let low = s.row_inside in
    let room = Covers-trans t u v (Marks-Covers t u row true d) x.covers in
    record {
      covers = Covers-trans t v _ room (Marks-Covers v _ row false m);
      live = λ r h. elim (ℕ_discrete row r) [
        | yes e ↦
            subst (λ q. dead_test (table_undelete_row v row) q ≡ dead_test t q) e
              (m.marked (room.dead_room row s.dead_inside) ∙ sym s.was_live)
        | no ne ↦ m.others r ne ∙ x.live r (omega arith) ∙ d.others r ne
      ];
      beyond = λ r h k. m.others r (λ e. omega arith) ∙ x.beyond r (omega arith) (omega arith);
      cells = λ r c h heap.
          Marks-shown v _ row false r c heap m
          ∙ x.cells r c (omega arith) heap
          ∙ Marks-shown t u row true r c heap d;
    }

-- `w` is `v` with one cell that shows what it showed in `t`.
record Rewrites (t v w : Table) (row col : ℕ) : Type 0 where
  n_rows : w.n_rows ≡ v.n_rows
  dead : w.dead ≡ v.dead
  others : (r c : ℕ) → (col ≢ c) ⊎ (row ≢ r) → SameCell v w r c
  kinds : (c : ℕ) → (column_at w c).kind ≡ (column_at v c).kind
  room : (r c : ℕ) → IsInside v r c → IsInside w r c
  shows : (heap : List ℕ) → shown w row col heap ≡ shown t row col heap

Rewrites-Restored :
    (t u v w : Table) (row col : ℕ)
    → Updates t u row col
    → Restored u v
    → Rewrites t v w row col
    → Restored t w
unfolding dead_test
Rewrites-Restored t u v w row col s x k =
    let rows = k.n_rows in
    let same = s.n_rows in
    let dead : (r : ℕ) → dead_test w r ≡ dead_test v r = λ r. ap (λ d. test_bit d r) k.dead in
    let wide = k.dead in
    let step : Covers v w = record {
      rows = omega arith;
      dead_room = λ r h. subst (λ d. r / 8 < length d) (sym wide) h;
      room = k.room;
      kinds = k.kinds;
    } in
    record {
      covers = Covers-trans t u w s.covers (Covers-trans u v w x.covers step);
      live = λ r h. dead r ∙ x.live r (omega arith) ∙ s.live r;
      beyond = λ r low high. dead r ∙ x.beyond r (omega arith) (omega arith);
      cells = λ r c h heap.
          let away : (col ≢ c) ⊎ (row ≢ r) → shown w r c heap ≡ shown t r c heap = λ apart.
            SameCell-shown v w r c heap (k.others r c apart)
            ∙ x.cells r c (omega arith) heap
            ∙ SameCell-shown t u r c heap (s.others r c apart) in
          elim (ℕ_discrete col c) [
            | no ne ↦ away (inl ne)
            | yes e ↦ elim (ℕ_discrete row r) [
              | no ne ↦ away (inr ne)
              | yes f ↦
                  subst (λ q. shown w q c heap ≡ shown t q c heap) f
                    (subst (λ q. shown w row q heap ≡ shown t row q heap) e (k.shows heap))
            ]
          ];
    }

null_Rewrites :
    (t v w : Table) (row col : ℕ)
    → null_test t col row ≡ true
    → (column_at v col).kind ≡ (column_at t col).kind
    → IsNulling v w row col
    → Rewrites t v w row col
unfolding shown read_value
null_Rewrites t v w row col null kind n = record {
  n_rows = n.n_rows;
  dead = n.dead;
  others = n.others;
  kinds = n.kinds;
  room = n.room;
  shows = λ heap.
      ap (λ b. read_value b (column_at w col).kind (cell_at w row col) heap) n.null
      ∙ ap (λ k. read_value true k (cell_at w row col) heap) (n.kinds col ∙ kind)
      ∙ sym (ap (λ b. read_value b (column_at t col).kind (cell_at t row col) heap) null);
}

write_Rewrites :
    (t v w : Table) (row col : ℕ) (x : Cell)
    → null_test t col row ≡ false
    → (column_at v col).kind ≡ (column_at t col).kind
    → ((heap : List ℕ)
        → read_content (column_at t col).kind x heap
          ≡ read_content (column_at t col).kind (cell_at t row col) heap)
    → IsWrite v w row col x
    → Rewrites t v w row col
unfolding shown read_value
write_Rewrites t v w row col x keyed kind same n = record {
  n_rows = n.n_rows;
  dead = n.dead;
  others = n.others;
  kinds = λ c. elim (ℕ_discrete col c) [
    | yes e ↦ subst (λ c. (column_at w c).kind ≡ (column_at v c).kind) e n.kind
    | no ne ↦ (n.others row c (inl ne)).kind
  ];
  room = n.room;
  shows = λ heap.
      ap (λ b. read_value b (column_at w col).kind (cell_at w row col) heap) n.not_null
      ∙ ap (λ k. read_content k (cell_at w row col) heap) (n.kind ∙ kind)
      ∙ ap (λ y. read_content (column_at t col).kind y heap) n.cell
      ∙ same heap
      ∙ sym (ap (λ b. read_value b (column_at t col).kind (cell_at t row col) heap) keyed);
}

-- The restoring setter of a type writes a cell that reads as the saved one.
restore_Rewrites :
    (k : FieldType) (t v : Table) (row col : ℕ)
    → (column_at t col).kind ≡ k
    → k ≢ ft_err
    → null_test t col row ≡ false
    → (column_at v col).kind ≡ (column_at t col).kind
    → IsInside v row col
    → Rewrites t v (restore_cell k v row col (saved_cell k t row col)) row col
unfolding restore_cell saved_cell read_content table_set_int table_set_double table_set_bool
    table_set_text_ref table_get_int table_get_double table_get_bool table_get_text_ref
restore_Rewrites ft_int t v row col e ne keyed kind i =
    write_Rewrites t v _ row col _ keyed kind (λ heap. rw e refl) (write_cell-IsWrite v row col _ i)
restore_Rewrites ft_double t v row col e ne keyed kind i =
    write_Rewrites t v _ row col _ keyed kind (λ heap. rw e refl) (write_cell-IsWrite v row col _ i)
restore_Rewrites ft_bool t v row col e ne keyed kind i =
    write_Rewrites t v _ row col _ keyed kind (λ heap. rw e refl) (write_cell-IsWrite v row col _ i)
restore_Rewrites ft_text t v row col e ne keyed kind i =
    write_Rewrites t v _ row col _ keyed kind (λ heap. rw e refl) (write_cell-IsWrite v row col _ i)
restore_Rewrites ft_err t v row col e ne keyed kind i = absurd (ne refl)

undo_update_Restored :
    (t u v : Table) (i row col : ℕ) (name : Name)
    → Updates t u row col
    → Restored u v
    → Restored t (undo_in_table undo_update (update_entry t i name row col) v)
unfolding undo_in_table update_entry table_is_null
undo_update_Restored t u v i row col name s x =
    let cover = Covers-trans t u v s.covers x.covers in
    let inside = cover.room row col s.inside in
    elim (Bool-cases (null_test t col row)) [
      | inl null ↦ rw null (
          Rewrites-Restored t u v (table_set_null v row col) row col s x (
            null_Rewrites t v _ row col null (cover.kinds col)
              (table_set_null-IsNulling v row col inside)))
      | inr keyed ↦ rw keyed (
          Rewrites-Restored t u v _ row col s x (
            restore_Rewrites (column_at t col).kind t v row col refl s.typed keyed (cover.kinds col)
              inside))
    ]

-- Undoing the entry of a row insertion, a cell write or a row deletion, on any table that shows
-- the rows as they were after the change, gives a table that shows them as they were before it.
pub undo_in_table-Restored :
    (t u v : Table) (e : UndoEntry)
    → Step t u e
    → Restored u v
    → Restored t (undo_in_table e.kind e v)
unfolding undo_in_table update_entry
undo_in_table-Restored t u v e (inserts i row name s) x = undo_insert_Restored t u v row s x
undo_in_table-Restored t u v e (updates i row col name s) x =
    undo_update_Restored t u v i row col name s x
undo_in_table-Restored t u v e (deletes i row name s) x = undo_delete_Restored t u v row s x
