-- ===== src/Table/Append.antt =====
-- `table_append_row` of c/src/table.c: the shape of a table, and what appending keeps.
use db.Prelude.{
  ℕ, zero, suc, ◌+◌, ◌*◌, ◌/◌, ◌%◌, ◌<◌, ◌≤◌, ◌≡◌, ◌≢◌, ◌⊎◌, inl, inr, refl, subst, ◌∙◌, Bool, true,
  false, List, [], ◌∷◌, length, get_or, arith, Bool-cases, ◌==◌, ==_iff,
}
use db.Prelude.Bits.{word}
use db.Arena.{Arena, arena_grow}
use db.Bitmap.{test_bit}
use db.Bitmap.Laws.{test_bit-set_self, test_bit-clear_self, test_bit-clear_ne, length-clear_bit}
use db.Index.{row_ref_invalid}
use db.Table.{Table, Column, no_column, null_test, dead_test, dead_clear}
use db.Table.Views.{SameCell}
use db.Table.Rows.{
  grow_columns, grow_nulls, grow_bitmaps, table_grow, next_row_cap, add_row, table_append_row,
  blank_row,
}
use db.Table.Growth.{
  AllKept, AllKept-refl, AllKept-trans, AllKept-length, AllKept-at, HasRoom, HasRoom-kept,
  grow_columns-AllKept, grow_columns-HasRoom, grow_nulls-AllKept, grow_nulls-HasRoom,
  blank_row-AllKept, length-regrow, test_bit-regrow,
}

-- Every array has room for the row capacity.
pub record IsShaped (t : Table) : Type 0 where
  pub rows : t.n_rows ≤ t.row_cap
  pub room : HasRoom t.row_cap ((t.row_cap + 7) / 8) t.columns
  pub dead_room : (t.row_cap + 7) / 8 ≤ length t.dead

-- The rows of `t` are kept; only arrays and memory differ.
pub record Keeps (t u : Table) : Type 0 where
  pub columns : AllKept t.n_rows t.columns u.columns
  pub live : (r : ℕ) → r < t.n_rows → dead_test u r ≡ dead_test t r
  pub dead_len : length t.dead ≤ length u.dead
  pub pk_col : u.pk_col ≡ t.pk_col
  pub pk_index : u.pk_index ≡ t.pk_index
  pub heap_data : u.heap_data ≡ t.heap_data

-- The two outcomes of a growth.
pub record Grown (t : Table) (done : Bool) (u : Table) : Type 0 where
  pub keeps : Keeps t u
  pub n_rows : u.n_rows ≡ t.n_rows
  pub shaped : IsShaped u
  pub larger : done ≡ true → u.row_cap ≡ next_row_cap t.row_cap

next_row_cap-larger : (n : ℕ) → n * 2 < word → n < next_row_cap n
next_row_cap-larger n h = elim (Bool-cases (n == 0)) [
  | inl z ↦ let e = (==_iff n 0).0 z in rw z (omega arith)
  | inr p ↦
      let e : n ≢ 0 = λ e. cc ((==_iff n 0).1 e) in
      let small : n * 2 % word ≡ n * 2 = omega arith in rw (p, small) (omega arith)
]

-- Columns that are kept keep the shape of the table.
kept-IsShaped :
    (t : Table) (a : Arena) (n : ℕ) (cs : List Column)
    → AllKept n t.columns cs
    → IsShaped t
    → IsShaped (record t { arena = a; columns = cs })
kept-IsShaped t a n cs k s = record {
  rows = s.rows;
  room = HasRoom-kept n _ _ t.columns cs k s.room;
  dead_room = s.dead_room;
}

-- Only columns and memory differ.
columns-Keeps :
    (t : Table) (a : Arena) (cs : List Column)
    → AllKept t.n_rows t.columns cs
    → Keeps t (record t { arena = a; columns = cs })
unfolding dead_test
columns-Keeps t a cs k = record {
  columns = k;
  live = λ r h. refl;
  dead_len = omega arith;
  pk_col = refl;
  pk_index = refl;
  heap_data = refl;
}

grow_bitmaps-Grown :
    (t : Table) (a : Arena) (cs : List Column) (new_cap : ℕ)
    → AllKept t.n_rows t.columns cs
    → HasRoom new_cap ((t.row_cap + 7) / 8) cs
    → IsShaped t
    → t.row_cap < new_cap
    → new_cap ≡ next_row_cap t.row_cap
    → Grown t
        (grow_bitmaps (record t { arena = a; columns = cs }) new_cap).0
        (grow_bitmaps (record t { arena = a; columns = cs }) new_cap).1
unfolding grow_bitmaps dead_test
grow_bitmaps-Grown t a cs new_cap k room s low e =
    let bytes = (new_cap + 7) / 8 in
    let first = arena_grow a bytes 1 in
    let second = grow_nulls first.1 bytes cs in
    let more = grow_nulls-AllKept t.n_rows first.1 bytes cs in
    elim (Bool-cases first.0) [
      | inr refused ↦ rw refused (record {
        keeps = columns-Keeps t first.1 cs k;
        n_rows = refl;
        shaped = kept-IsShaped t first.1 t.n_rows cs k s;
        larger = λ h. cc;
      })
      | inl granted ↦ elim (Bool-cases second.0) [
        | inr refused ↦
            rw (granted, refused)
              (record {
                keeps = columns-Keeps t second.1 second.2 (AllKept-trans t.n_rows _ _ _ k more);
                n_rows = refl;
                shaped =
                    kept-IsShaped t second.1 t.n_rows second.2 (AllKept-trans t.n_rows _ _ _ k more)
                      s;
                larger = λ h. cc;
              })
        | inl done ↦
            let size = length-regrow t.dead bytes 0 in
            let wide = s.dead_room in
            let rows = s.rows in
            rw (granted, done)
              (record {
                keeps = record {
                  columns = AllKept-trans t.n_rows _ _ _ k more;
                  live = λ r h. test_bit-regrow t.dead bytes r;
                  dead_len = omega arith;
                  pk_col = refl;
                  pk_index = refl;
                  heap_data = refl;
                };
                n_rows = refl;
                shaped = record {
                  rows = omega arith;
                  room = grow_nulls-HasRoom new_cap _ first.1 bytes cs room done;
                  dead_room = omega arith;
                };
                larger = λ h. e;
              })
      ]
    ]

-- `table_grow` on a table whose arrays have the room its capacity says, and whose capacity can be
-- doubled without overflow, succeeds with a larger capacity or fails; either way the rows are
-- kept, and the arrays have the room that the capacity says.
pub table_grow-Grown :
    (t : Table) → IsShaped t → t.row_cap * 2 < word → Grown t (table_grow t).0 (table_grow t).1
unfolding table_grow
table_grow-Grown t s small =
    let new_cap = next_row_cap t.row_cap in
    let cols = grow_columns t.arena t.row_cap new_cap t.columns in
    let k = grow_columns-AllKept t.n_rows t.arena t.row_cap new_cap t.columns in
    elim (Bool-cases cols.0) [
      | inr refused ↦ rw refused (record {
        keeps = columns-Keeps t cols.1 cols.2 k;
        n_rows = refl;
        shaped = kept-IsShaped t cols.1 t.n_rows cols.2 k s;
        larger = λ h. cc;
      })
      | inl done ↦
          let room =
            grow_columns-HasRoom _ t.arena t.row_cap new_cap t.row_cap t.columns s.room done in
          rw done (
            grow_bitmaps-Grown t cols.1 cols.2 new_cap k room s
              (next_row_cap-larger t.row_cap small) refl)
    ]

blank_row-null :
    (cells bytes row : ℕ) (cs : List Column) (c : ℕ)
    → HasRoom cells bytes cs
    → row / 8 < bytes
    → c < length cs
    → test_bit (get_or (blank_row row cs) c no_column).nulls row ≡ true
unfolding blank_row HasRoom
blank_row-null cells bytes row [] c r h k = absurd (omega arith)
blank_row-null cells bytes row (d ∷ cs) zero (x, y, r) h k =
    test_bit-set_self d.nulls row (omega arith)
blank_row-null cells bytes row (d ∷ cs) (suc c) (x, y, r) h k =
    blank_row-null cells bytes row cs c r h (omega arith)

-- The row was added as the last one: live, and NULL in every column.
pub record Appended (t u : Table) (row : ℕ) : Type 0 where
  pub last : row ≡ t.n_rows
  pub n_rows : u.n_rows ≡ t.n_rows + 1
  pub keeps : Keeps t u
  pub shaped : IsShaped u
  pub inside : row / 8 < length u.dead
  pub is_live : dead_test u row ≡ false
  pub is_null : (c : ℕ) → c < length t.columns → null_test u c row ≡ true

-- There was no memory for it: the rows are as they were.
pub record Refused (t u : Table) (row : ℕ) : Type 0 where
  pub invalid : row ≡ row_ref_invalid
  pub n_rows : u.n_rows ≡ t.n_rows
  pub keeps : Keeps t u
  pub shaped : IsShaped u

add_row-Appended :
    (t u : Table)
    → Keeps t u
    → u.n_rows ≡ t.n_rows
    → IsShaped u
    → u.n_rows < u.row_cap
    → Appended t (add_row u).1 (add_row u).0
unfolding add_row dead_clear dead_test null_test
add_row-Appended t u k e s low =
    let row = u.n_rows in
    let wide = s.dead_room in
    let size = length-clear_bit u.dead row in
    let blank : AllKept t.n_rows u.columns (blank_row row u.columns) =
      subst (λ n. AllKept n u.columns (blank_row row u.columns)) e
        (blank_row-AllKept row u.columns) in
    let dead_len = k.dead_len in
    record {
      last = e;
      n_rows = omega arith;
      keeps = record {
        columns = AllKept-trans t.n_rows _ _ _ k.columns blank;
        live = λ r h. test_bit-clear_ne u.dead row r (λ q. omega arith) ∙ k.live r h;
        dead_len = omega arith;
        pk_col = k.pk_col;
        pk_index = k.pk_index;
        heap_data = k.heap_data;
      };
      shaped = record {
        rows = omega arith;
        room = HasRoom-kept t.n_rows _ _ u.columns _ blank s.room;
        dead_room = omega arith;
      };
      inside = omega arith;
      is_live = test_bit-clear_self u.dead row (omega arith);
      is_null = λ c h.
          let width = AllKept-length t.n_rows _ _ k.columns in
          blank_row-null _ _ row u.columns c s.room (omega arith) (omega arith);
    }

Keeps-refl : (t : Table) → Keeps t t
Keeps-refl t = record {
  columns = AllKept-refl t.n_rows t.columns;
  live = λ r h. refl;
  dead_len = omega arith;
  pk_col = refl;
  pk_index = refl;
  heap_data = refl;
}

-- `table_append_row` on a table whose arrays have the room its capacity says, and whose capacity
-- can be doubled without overflow: it adds a live last row that is NULL in every column, or
-- answers with the invalid reference; either way the earlier rows are kept, and so is the shape.
pub table_append_row-Appended :
    (t : Table)
    → IsShaped t
    → t.row_cap * 2 < word
    → Appended t (table_append_row t).1 (table_append_row t).0
      ⊎ Refused t (table_append_row t).1 (table_append_row t).0
unfolding table_append_row
table_append_row-Appended t s small =
    let g = table_grow-Grown t s small in
    let low = s.rows in
    let larger = next_row_cap-larger t.row_cap small in
    elim (Bool-cases (t.n_rows == t.row_cap)) [
      | inr roomy ↦
          let apart : t.n_rows ≢ t.row_cap = λ e. cc ((==_iff t.n_rows t.row_cap).1 e) in
          rw roomy (inl (add_row-Appended t t (Keeps-refl t) refl s (omega arith)))
      | inl full ↦
          let e = (==_iff t.n_rows t.row_cap).0 full in
          elim (Bool-cases (table_grow t).0) [
            | inr refused ↦
                rw (full, refused)
                  (inr (record {
                    invalid = refl;
                    n_rows = g.n_rows;
                    keeps = g.keeps;
                    shaped = g.shaped;
                  }))
            | inl grown ↦
                let cap_now = g.larger grown in
                let rows_now = g.n_rows in
                rw (full, grown)
                  (inl (add_row-Appended t _ g.keeps g.n_rows g.shaped (omega arith)))
          ]
    ]

pub Keeps-SameCell : (t u : Table) (r c : ℕ) → Keeps t u → r < t.n_rows → SameCell t u r c
unfolding null_test
Keeps-SameCell t u r c k h =
    let x = AllKept-at t.n_rows t.columns u.columns c k.columns in
    record { null = x.nulls r h; kind = x.kind; cell = x.cells r h }
