-- ===== src/Txn/Undo.antt =====
-- What undoing one entry of the log restores in a table, for c/src/txn.c.
use db.Prelude.{
  ℕ, ◌/◌, ◌<◌, ◌≤◌, ◌≡◌, refl, sym, ap, subst, ◌∙◌, Bool, true, List, length, arith, get_or,
}
use native.Mathlib.Decide.{dec_lt}
use db.Bitmap.{test_bit}
use db.Value.{Value}
use db.Table.{Table, column_at, no_column, dead_test, null_test, zero_cell}
use db.Table.Cells.{cell_at}
use db.Table.Marks.{Marks}
use db.Table.Views.{IsInside, SameCell, read_value}

-- What a cell shows, over a text heap.
unfoldable pub shown : Table → ℕ → ℕ → List ℕ → Value
shown t row col heap =
    read_value (null_test t col row) (column_at t col).kind (cell_at t row col) heap

pub SameCell-shown :
    (t u : Table) (row col : ℕ) (heap : List ℕ)
    → SameCell t u row col
    → shown u row col heap ≡ shown t row col heap
unfolding shown
SameCell-shown t u row col heap s =
    ap (λ b. read_value b (column_at u col).kind (cell_at u row col) heap) s.null
    ∙ ap (λ k. read_value (null_test t col row) k (cell_at u row col) heap) s.kind
    ∙ ap (λ x. read_value (null_test t col row) (column_at t col).kind x heap) s.cell

-- `u` has at least the room of `t`, for the same columns.
pub record Covers (t u : Table) : Type 0 where
  pub rows : t.n_rows ≤ u.n_rows
  pub dead_room : (r : ℕ) → r / 8 < length t.dead → r / 8 < length u.dead
  pub room : (r c : ℕ) → IsInside t r c → IsInside u r c
  pub kinds : (c : ℕ) → (column_at u c).kind ≡ (column_at t c).kind

-- `v` shows the rows of `t` as `t` does, and its further rows are deleted.
pub record Restored (t v : Table) : Type 0 where
  pub covers : Covers t v
  pub live : (r : ℕ) → r < t.n_rows → dead_test v r ≡ dead_test t r
  pub beyond : (r : ℕ) → t.n_rows ≤ r → r < v.n_rows → dead_test v r ≡ true
  pub cells : (r c : ℕ) → r < t.n_rows → (heap : List ℕ) → shown v r c heap ≡ shown t r c heap

pub Restored-refl : (t : Table) → Restored t t
Restored-refl t = record {
  covers = record {
    rows = omega arith;
    dead_room = λ r h. h;
    room = λ r c i. i;
    kinds = λ c. refl;
  };
  live = λ r h. refl;
  beyond = λ r h k. absurd (omega arith);
  cells = λ r c h heap. refl;
}

pub Covers-trans : (t u v : Table) → Covers t u → Covers u v → Covers t v
Covers-trans t u v a b = record {
  rows = let x = a.rows in let y = b.rows in omega arith;
  dead_room = λ r h. b.dead_room r (a.dead_room r h);
  room = λ r c i. b.room r c (a.room r c i);
  kinds = λ c. b.kinds c ∙ a.kinds c;
}

pub Restored-trans : (t u v : Table) → Restored t u → Restored u v → Restored t v
Restored-trans t u v a b =
    let rows = a.covers.rows in
    record {
      covers = Covers-trans t u v a.covers b.covers;
      live = λ r h. b.live r (omega arith) ∙ a.live r h;
      beyond = λ r low high. elim (dec_lt r u.n_rows) [
        | yes before ↦ b.live r before ∙ a.beyond r low before
        | no after ↦ b.beyond r (omega arith) high
      ];
      cells = λ r c h heap. b.cells r c (omega arith) heap ∙ a.cells r c h heap;
    }

pub Marks-shown :
    (t u : Table) (row : ℕ) (mark : Bool) (r c : ℕ) (heap : List ℕ)
    → Marks t u row mark
    → shown u r c heap ≡ shown t r c heap
unfolding shown null_test
Marks-shown t u row mark r c heap m =
    ap
      (λ cs.
        read_value (test_bit (get_or cs c no_column).nulls r) (get_or cs c no_column).kind
          (get_or (get_or cs c no_column).cells r (zero_cell (get_or cs c no_column).kind)) heap)
      m.columns

columns-IsInside : (t u : Table) (r c : ℕ) → u.columns ≡ t.columns → IsInside t r c → IsInside u r c
columns-IsInside t u r c e i = record {
  col_inside = subst (λ cs. c < length cs) (sym e) i.col_inside;
  cell_inside = subst (λ cs. r < length (get_or cs c no_column).cells) (sym e) i.cell_inside;
  null_inside = subst (λ cs. r / 8 < length (get_or cs c no_column).nulls) (sym e) i.null_inside;
}

pub Marks-Covers : (t u : Table) (row : ℕ) (mark : Bool) → Marks t u row mark → Covers t u
Marks-Covers t u row mark m = record {
  rows = let e = m.n_rows in omega arith;
  dead_room = λ r h. let e = m.dead_len in omega arith;
  room = λ r c i. columns-IsInside t u r c m.columns i;
  kinds = λ c. ap (λ cs. (get_or cs c no_column).kind) m.columns;
}
