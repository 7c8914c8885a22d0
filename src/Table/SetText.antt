-- ===== src/Table/SetText.antt =====
-- `table_set_text` of c/src/table.c.
use db.Prelude.{
  ℕ, ◌-◌, ◌^◌, ==_iff, ◌/◌, ◌≤◌, ◌<◌, ◌≡◌, ◌≢◌, ◌⊎◌, inl, inr, refl, sym, ap, subst, ◌∙◌, List,
  length, true, false, ltb, leb, ltb→lt, ◌==◌, arith, Bool-cases, get_or,
}
use db.Prelude.Bits.{size_max}
use db.Arena.{Arena, arena_checked_add, arena_failed, arena_grow}
use db.Bitmap.{test_bit}
use db.Value.{value_text, ft_text}
use db.Table.{Table, StringRef, text_cell, column_at, no_column, null_test, zero_cell}
use db.Table.Cells.{
  buf_append, heap_slice, set_appended, table_set_text, write_cell, fail_heap, read_column,
  reserve_heap, append_bytes, first_heap_capacity, heap_capacity, heap_doublings,
}
use db.Table.Views.{IsInside, SameCell, read_content}
use db.Table.Reads.{write-Sets, write_cell-IsWrite}
use db.Table.Texts.{SameTexts, Stored, buf_append-Stored, reserve_heap-Reserved}

-- The text is stored in the cell; the other cells, and the texts that the heap had, are kept.
pub record TextSet (t u : Table) (row col : ℕ) (s : List ℕ) : Type 0 where
  pub reads : read_column u row col ≡ value_text s
  pub others : (r c : ℕ) → (col ≢ c) ⊎ (row ≢ r) → SameCell t u r c
  pub texts : SameTexts t.heap_len t u

-- Every cell and every text is kept.
pub record TextRefused (t u : Table) : Type 0 where
  pub columns : u.columns ≡ t.columns
  pub texts : SameTexts t.heap_len t u

-- The size of the heap that `buf_append` asks for, with the arena then, and the capacity for it.
abbrev pub needed_heap : Table → List ℕ → ℕ × Arena
needed_heap t s = arena_checked_add t.heap t.heap_len (length s)

abbrev pub next_heap : Table → List ℕ → ℕ × Arena
next_heap t s =
    let first = first_heap_capacity (needed_heap t s).1 t.heap_cap in
    heap_capacity heap_doublings first.1 first.0 (needed_heap t s).0

-- The arena of the heap has failed, be it that the new length is no 64-bit size, or the bytes do not
-- fit the capacity and the arena refuses a larger one.
abbrev pub HeapRefuses : Table → List ℕ → Type 0
HeapRefuses t s =
    (arena_failed (needed_heap t s).1 ≡ true)
    ⊎ ((t.heap_cap < (needed_heap t s).0)
        × ((arena_grow (next_heap t s).1 (next_heap t s).0 1).0 ≡ false))

-- The text is longer, or starts later in the heap, than 32 bits can say, or the heap refuses it.
abbrev pub CannotStore : Table → List ℕ → Type 0
CannotStore t s = (2 ^ 32 - 1 < length s) ⊎ ((2 ^ 32 - 1 < t.heap_len) ⊎ HeapRefuses t s)

columns-IsInside :
    (t u : Table) (row col : ℕ) → u.columns ≡ t.columns → IsInside t row col → IsInside u row col
columns-IsInside t u row col e i = record {
  col_inside = subst (λ cs. col < length cs) (sym e) i.col_inside;
  cell_inside = subst (λ cs. row < length (get_or cs col no_column).cells) (sym e) i.cell_inside;
  null_inside =
      subst (λ cs. row / 8 < length (get_or cs col no_column).nulls) (sym e) i.null_inside;
}

columns-SameCell :
    (t u v : Table) (r c : ℕ) → u.columns ≡ t.columns → SameCell u v r c → SameCell t v r c
unfolding null_test
columns-SameCell t u v r c e s = record {
  null = s.null ∙ ap (λ cs. test_bit (get_or cs c no_column).nulls r) e;
  kind = s.kind ∙ ap (λ cs. (get_or cs c no_column).kind) e;
  cell =
      s.cell
      ∙ ap (λ cs. get_or (get_or cs c no_column).cells r (zero_cell (get_or cs c no_column).kind))
          e;
}

Stored-TextSet :
    (t u : Table) (row col offset : ℕ) (s : List ℕ)
    → IsInside t row col
    → (column_at t col).kind ≡ ft_text
    → Stored t u offset s
    → TextSet t
        (write_cell u row col (text_cell (record { offset = offset; len = length s })))
        row
        col
        s
unfolding read_content SameTexts
Stored-TextSet t u row col offset s i kind stored =
    let ref : StringRef = record { offset = offset; len = length s } in
    let inside = columns-IsInside t u row col stored.columns i in
    let w = write_cell-IsWrite u row col (text_cell ref) inside in
    let same_kind = ap (λ cs. (get_or cs col no_column).kind) stored.columns in
    let sets = write-Sets u _ row col (text_cell ref) ft_text w (same_kind ∙ kind) in
    record {
      reads = sets.reads ∙ ap value_text stored.stored;
      others = λ r c apart. columns-SameCell t u _ r c stored.columns (w.others r c apart);
      texts = λ ref h. ap (λ d. heap_slice d ref) w.heap_data ∙ stored.same ref h;
    }

not_leb : (m n : ℕ) → leb m n ≡ false → n < m
not_leb m n h = ground arith

reserve_heap_refused :
    (t : Table) (s : List ℕ)
    → (reserve_heap t (needed_heap t s).1 (needed_heap t s).0).0 ≡ false
    → HeapRefuses t s
unfolding reserve_heap
reserve_heap_refused t s h = elim (Bool-cases (leb (needed_heap t s).0 t.heap_cap)) [
  | inl fits ↦ cc (rw (fits, reserve_heap) at h)
  | inr larger ↦ elim (Bool-cases (arena_grow (next_heap t s).1 (next_heap t s).0 1).0) [
    | inl granted ↦ cc (rw (larger, granted, reserve_heap) at h)
    | inr refused ↦ inr (not_leb (needed_heap t s).0 t.heap_cap larger, refused)
  ]
]

large_heap : (n : ℕ) → n ≡ size_max → 2 ^ 32 - 1 < n
large_heap n e = omega arith

-- SIZE_MAX is answered where the heap refuses the bytes, or where it has as many.
buf_append_refused :
    (t : Table) (s : List ℕ)
    → (buf_append t s).0 ≡ size_max
    → (2 ^ 32 - 1 < t.heap_len) ⊎ HeapRefuses t s
unfolding buf_append append_bytes
buf_append_refused t s h = elim (Bool-cases (arena_failed (needed_heap t s).1)) [
  | inl failed ↦ inr (inl failed)
  | inr ok ↦ elim (Bool-cases (reserve_heap t (needed_heap t s).1 (needed_heap t s).0).0) [
    | inr refused ↦ inr (reserve_heap_refused t s refused)
    | inl granted ↦
        let same = reserve_heap-Reserved t (needed_heap t s).1 (needed_heap t s).0 in
        let at_end = rw (buf_append, ok, granted) at h in
        inl (large_heap t.heap_len (sym same.heap_len ∙ at_end))
  ]
]

kept :
    (t : Table) (s : List ℕ)
    → t.heap_len ≤ length t.heap_data
    → length s ≤ size_max
    → TextRefused t (buf_append t s).1
kept t s h small = elim (buf_append-Stored t s h small) [
  | inl there ↦ record { columns = there.columns; texts = there.same }
  | inr lost ↦ record { columns = lost.columns; texts = lost.same }
]

kept_failed : (t u : Table) → TextRefused t u → TextRefused t (fail_heap u)
unfolding fail_heap SameTexts
kept_failed t u r = record { columns = r.columns; texts = r.texts }

-- `table_set_text` on a cell inside a TEXT column of the table, where the length of the heap is
-- within its data: the cell reads as the text, and every other cell and every text in the heap is
-- kept; or all cells and texts are kept, but that only where the text or the heap is longer than a
-- 32-bit number can say, the arena of the heap has failed or fails on the new length, or the bytes
-- do not fit the capacity and the arena refuses a larger one.
pub table_set_text-TextSet :
    (t : Table) (row col : ℕ) (s : List ℕ)
    → IsInside t row col
    → (column_at t col).kind ≡ ft_text
    → t.heap_len ≤ length t.heap_data
    → TextSet t (table_set_text t row col s) row col s
      ⊎ CannotStore t s × TextRefused t (table_set_text t row col s)
unfolding table_set_text set_appended fail_heap SameTexts
table_set_text-TextSet t row col s i kind h = elim (Bool-cases (ltb (2 ^ 32 - 1) (length s))) [
  | inl long ↦ rw long (
      inr (
        inl (ltb→lt (2 ^ 32 - 1) (length s) long),
        record { columns = refl; texts = λ ref k. refl },
      ))
  | inr short ↦
      let small : length s ≤ size_max = ground arith in
      let b = buf_append t s in
      elim (Bool-cases (b.0 == size_max)) [
        | inl failed ↦
            rw (short, failed)
              (inr
                (inr (buf_append_refused t s ((==_iff b.0 size_max).0 failed)), kept t s h small))
        | inr stored ↦ elim (Bool-cases (ltb (2 ^ 32 - 1) b.0)) [
          | inl far ↦
              rw (short, stored, far)
                (elim (buf_append-Stored t s h small) [
                  | inl there ↦ inr (
                    inr (
                        inl
                          (subst (λ n. 2 ^ 32 - 1 < n) there.at_end (ltb→lt (2 ^ 32 - 1) b.0 far))),
                    kept_failed t _ (kept t s h small),
                  )
                  | inr lost ↦ absurd (cc (stored, (==_iff b.0 size_max).1 lost.failed))
                ])
          | inr near ↦
              rw (short, stored, near)
                (elim (buf_append-Stored t s h small) [
                  | inl there ↦ inl (Stored-TextSet t b.1 row col b.0 s i kind there)
                  | inr lost ↦ absurd (cc (stored, (==_iff b.0 size_max).1 lost.failed))
                ])
        ]
      ]
]
