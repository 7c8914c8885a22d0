-- ===== src/Exec/Assigned.antt =====
-- `assign_value` of c/src/interp.c is an update that a transaction can log and undo, for values of
-- every type.
use db.Prelude.{
  ℕ, ◌/◌, ◌-◌, ◌^◌, ◌<◌, ◌≡◌, inl, inr, refl, sym, ap, subst, ◌∙◌, Bool, true, false, List, length,
  get_or, ltb, ◌==◌, leb, if◌then◌else◌, Bool-cases,
}
use native.Mathlib.Decide.{ℕ_discrete}
use db.Prelude.Bits.{size_max}
use db.Arena.{Arena, arena_failed, arena_grow, arena_checked_add}
use db.Bitmap.{test_bit}
use db.Value.{
  Value, FieldType, ft_int, ft_double, ft_bool, ft_text, ft_err, int_of, bool_of, text_of,
}
use db.Table.{Table, Cell, column_at, no_column, null_test, zero_cell}
use db.Table.Cells.{
  write_cell, table_set_text, buf_append, reserve_heap, append_bytes, set_appended, fail_heap,
  heap_capacity, first_heap_capacity,
}
use db.Table.Views.{IsInside, SameCell}
use db.Table.Reads.{write_cell-IsWrite}
use db.Txn.Changes.{Updates}
use db.Txn.Logged.{IsCell, setters-Updates, same_rows-Updates}
use db.Interp.Checks.{assign_as, assign_value, widened}

-- The tables have the same rows; their heaps and memory may differ.
pub record SameRows (t u : Table) : Type 0 where
  pub columns : u.columns ≡ t.columns
  pub dead : u.dead ≡ t.dead
  pub n_rows : u.n_rows ≡ t.n_rows

SameRows-refl : (t : Table) → SameRows t t
SameRows-refl t = record { columns = refl; dead = refl; n_rows = refl }

SameRows-SameCell : (t u : Table) (r c : ℕ) → SameRows t u → SameCell t u r c
unfolding null_test
SameRows-SameCell t u r c s = record {
  null = ap (λ cs. test_bit (get_or cs c no_column).nulls r) s.columns;
  kind = ap (λ cs. (get_or cs c no_column).kind) s.columns;
  cell =
      ap (λ cs. get_or (get_or cs c no_column).cells r (zero_cell (get_or cs c no_column).kind))
        s.columns;
}

SameRows-IsInside : (t u : Table) (r c : ℕ) → SameRows t u → IsInside t r c → IsInside u r c
SameRows-IsInside t u r c s i = record {
  col_inside = subst (λ cs. c < length cs) (sym s.columns) i.col_inside;
  cell_inside =
      subst (λ cs. r < length (get_or cs c no_column).cells) (sym s.columns) i.cell_inside;
  null_inside =
      subst (λ cs. r / 8 < length (get_or cs c no_column).nulls) (sym s.columns) i.null_inside;
}

SameCell-trans : (t u v : Table) (r c : ℕ) → SameCell t u r c → SameCell u v r c → SameCell t v r c
SameCell-trans t u v r c a b = record {
  null = b.null ∙ a.null;
  kind = b.kind ∙ a.kind;
  cell = b.cell ∙ a.cell;
}

-- No cell is written.
SameRows-Updates :
    (t u : Table) (row col : ℕ) → IsCell t row col → SameRows t u → Updates t u row col
SameRows-Updates t u row col i s =
    same_rows-Updates t u row col i s.n_rows s.dead (λ r c j. SameRows-IsInside t u r c s j)
      (λ c. ap (λ cs. (get_or cs c no_column).kind) s.columns)
      (λ r c apart. SameRows-SameCell t u r c s)

write_after-Updates :
    (t u : Table) (row col : ℕ) (x : Cell)
    → IsCell t row col
    → SameRows t u
    → Updates t (write_cell u row col x) row col
write_after-Updates t u row col x i s =
    let w = write_cell-IsWrite u row col x (SameRows-IsInside t u row col s i.inside) in
    let kinds : (c : ℕ) → (column_at u c).kind ≡ (column_at t c).kind =
      λ c. ap (λ cs. (get_or cs c no_column).kind) s.columns in
    same_rows-Updates t _ row col i (w.n_rows ∙ s.n_rows) (w.dead ∙ s.dead)
      (λ r c j. w.room r c (SameRows-IsInside t u r c s j))
      (λ c. elim (ℕ_discrete col c) [
        | yes e ↦
            subst (λ c. (column_at (write_cell u row col x) c).kind ≡ (column_at t c).kind) e
              (w.kind ∙ kinds col)
        | no ne ↦ (w.others row c (inl ne)).kind ∙ kinds c
      ])
      (λ r c apart. SameCell-trans t u _ r c (SameRows-SameCell t u r c s) (w.others r c apart))

-- What holds of both branches.
if_holds : {A : Type 0} (P : A → Type 0) (b : Bool) (x y : A) → P x → P y → P (if b then x else y)
if_holds P true x y p q = p
if_holds P false x y p q = q

-- A table with another heap.
heap-SameRows :
    (t u : Table) → u.columns ≡ t.columns → u.dead ≡ t.dead → u.n_rows ≡ t.n_rows → SameRows t u
heap-SameRows t u a b c = record { columns = a; dead = b; n_rows = c }

-- The table of an answer has the same rows.
record KeepsRows {A : Type 0} (t : Table) (p : A × Table) : Type 0 where
  rows : SameRows t p.1

heap-KeepsRows :
    {A : Type 0} (t u : Table) (x : A)
    → u.columns ≡ t.columns
    → u.dead ≡ t.dead
    → u.n_rows ≡ t.n_rows
    → KeepsRows t (x, u)
heap-KeepsRows t u x a b c = record { rows = heap-SameRows t u a b c }

reserve_heap-KeepsRows :
    (t : Table) (a : Arena) (needed : ℕ) → KeepsRows t (reserve_heap t a needed)
unfolding reserve_heap
reserve_heap-KeepsRows t a needed =
    let first = first_heap_capacity a t.heap_cap in
    let grown = heap_capacity 64 first.1 first.0 needed in
    let answer = arena_grow grown.1 grown.0 1 in
    elim (Bool-cases (leb needed t.heap_cap)) [
      | inl enough ↦ rw (reserve_heap, enough) (heap-KeepsRows t _ _ refl refl refl)
      | inr more ↦ elim (Bool-cases answer.0) [
        | inl granted ↦ rw (reserve_heap, more, granted) (heap-KeepsRows t _ _ refl refl refl)
        | inr refused ↦ rw (reserve_heap, more, refused) (heap-KeepsRows t _ _ refl refl refl)
      ]
    ]

SameRows-trans : (t u v : Table) → SameRows t u → SameRows u v → SameRows t v
SameRows-trans t u v a b = record {
  columns = b.columns ∙ a.columns;
  dead = b.dead ∙ a.dead;
  n_rows = b.n_rows ∙ a.n_rows;
}

append_bytes-KeepsRows :
    (t u : Table) (needed : ℕ) (src : List ℕ)
    → SameRows t u
    → KeepsRows t (append_bytes u needed src)
unfolding append_bytes
append_bytes-KeepsRows t u needed src s = record {
  rows = SameRows-trans t u _ s (heap-SameRows u _ refl refl refl);
}

buf_append-KeepsRows : (t : Table) (src : List ℕ) → KeepsRows t (buf_append t src)
unfolding buf_append
buf_append-KeepsRows t src =
    let sum = arena_checked_add t.heap t.heap_len (length src) in
    let reserved = (reserve_heap-KeepsRows t sum.1 sum.0).rows in
    elim (Bool-cases (arena_failed sum.1)) [
      | inl failed ↦ rw (buf_append, failed) (heap-KeepsRows t _ _ refl refl refl)
      | inr fits ↦ elim (Bool-cases (reserve_heap t sum.1 sum.0).0) [
        | inl room ↦ rw (buf_append, fits, room) (append_bytes-KeepsRows t _ sum.0 src reserved)
        | inr full ↦ rw (buf_append, fits, full) (record { rows = reserved })
      ]
    ]

fail_heap-SameRows : (t u : Table) → SameRows t u → SameRows t (fail_heap u)
unfolding fail_heap
fail_heap-SameRows t u s = record { columns = s.columns; dead = s.dead; n_rows = s.n_rows }

set_appended-Updates :
    (t u : Table) (offset row col len : ℕ)
    → IsCell t row col
    → SameRows t u
    → Updates t (set_appended (offset, u) row col len) row col
unfolding set_appended
set_appended-Updates t u offset row col len i s =
    if_holds (λ v. Updates t v row col) (offset == size_max) _ _ (SameRows-Updates t u row col i s)
      (if_holds (λ v. Updates t v row col) (ltb (2 ^ 32 - 1) offset) _ _
        (SameRows-Updates t (fail_heap u) row col i (fail_heap-SameRows t u s))
        (write_after-Updates t u row col _ i s))

table_set_text-Updates :
    (t : Table) (row col : ℕ) (s : List ℕ)
    → IsCell t row col
    → Updates t (table_set_text t row col s) row col
unfolding table_set_text
table_set_text-Updates t row col s i =
    let appended = (buf_append-KeepsRows t s).rows in
    if_holds (λ v. Updates t v row col) (ltb (2 ^ 32 - 1) (length s)) _ _
      (SameRows-Updates t (fail_heap t) row col i (fail_heap-SameRows t t (SameRows-refl t)))
      (set_appended-Updates t (buf_append t s).1 (buf_append t s).0 row col (length s) i appended)

assign_as-Updates :
    (k : FieldType) (t : Table) (row col : ℕ) (v : Value)
    → IsCell t row col
    → Updates t (assign_as k t row col v) row col
unfolding assign_as
assign_as-Updates ft_int t row col v i = (setters-Updates t row col i).0 (int_of v.content)
assign_as-Updates ft_double t row col v i = (setters-Updates t row col i).1 (widened v)
assign_as-Updates ft_bool t row col v i = (setters-Updates t row col i).2 (bool_of v.content)
assign_as-Updates ft_text t row col v i = table_set_text-Updates t row col (text_of v.content) i
assign_as-Updates ft_err t row col v i = SameRows-Updates t t row col i (SameRows-refl t)

pub assign_value-Updates :
    (t : Table) (row col : ℕ) (v : Value)
    → IsCell t row col
    → Updates t (assign_value t row col v) row col
unfolding assign_value
assign_value-Updates t row col v i =
    if_holds (λ u. Updates t u row col) v.is_null _ _ (setters-Updates t row col i).3
      (assign_as-Updates (column_at t col).kind t row col v i)
