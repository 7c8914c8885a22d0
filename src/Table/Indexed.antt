-- ===== src/Table/Indexed.antt =====
-- The primary-key index under the operations of c/src/table.c that change keys and rows.
use db.Prelude.{
  ℕ, ◌<◌, ◌≤◌, ◌≡◌, ◌≢◌, ◌⊎◌, inl, inr, refl, sym, ap, subst, ◌∙◌, true, false, some, arith,
  Bool-cases, ==_iff,
}
use native.Mathlib.Decide.{ℕ_discrete}
use db.Index.{RowIndex, row_index_insert}
use db.Index.Store.{Holds}
use db.Index.Insert.{IsIndex, row_index_insert-IsIndex, row_index_insert-Inserts}
use db.Value.{value_hash}
use db.Table.{Table, Cell, dead_test, null_test, null_clear}
use db.Table.Cells.{write_cell, index_row_if_primary_key, insert_key, is_pk_col, cell_hash}
use db.Table.Lookup.{IsIndexed, is_pk_col-some}
use db.Table.Views.{IsInside, SameCell, SameCell-read}
use db.Table.Reads.{written, written-SameCell}

some-inj : (a b : ℕ) → some a ≡ some b → a ≡ b
some-inj a b e = cc

-- A healthy index in which every live row with a key is stored, except perhaps `row`.
record IsIndexedBut (t : Table) (row : ℕ) : Type 0 where
  index : IsIndex t.pk_index
  healthy : t.pk_index.degraded ≡ false
  found :
      (pk r : ℕ)
      → t.pk_col ≡ some pk
      → row ≢ r
      → r < t.n_rows
      → dead_test t r ≡ false
      → null_test t pk r ≡ false
      → Holds t.pk_index.slots (cell_hash t r pk) r
  rows : (h r : ℕ) → Holds t.pk_index.slots h r → r < t.n_rows

pub cell_hash-same :
    (t u : Table) (row col : ℕ)
    → SameCell t u row col
    → u.heap_data ≡ t.heap_data
    → cell_hash u row col ≡ cell_hash t row col
unfolding cell_hash
cell_hash-same t u row col s heap = ap value_hash (SameCell-read t u row col s heap)

insert_key-IsIndexed :
    (t : Table) (row col : ℕ)
    → IsIndexedBut t row
    → t.pk_col ≡ some col
    → row < t.n_rows
    → IsIndexed (insert_key t row (cell_hash t row col))
unfolding insert_key dead_test null_test
insert_key-IsIndexed t row col b key inside =
    let h = cell_hash t row col in
    let idx = (row_index_insert t.pk_index t.arena h row).0 in
    let index : IsIndex idx = row_index_insert-IsIndex t.pk_index t.arena h row b.index in
    let same_hash : (r c : ℕ) → cell_hash (insert_key t row h) r c ≡ cell_hash t r c = λ r c.
      cell_hash-same t (insert_key t row h) r c (record { null = refl; kind = refl; cell = refl })
        refl in
    elim (row_index_insert-Inserts t.pk_index t.arena h row b.index) [
      | inl lost ↦
          let dropped = lost.marked in
          record {
            index = index;
            found = λ pk r e healthy bound live keyed.
                absurd (cc (healthy, ap (λ (i : RowIndex). i.degraded) dropped));
            rows = λ h' r x. b.rows h' r (subst (λ (i : RowIndex). Holds i.slots h' r) dropped x);
          }
      | inr (adds, _) ↦ record {
        index = index;
        found = λ pk r e healthy bound live keyed. elim (ℕ_discrete row r) [
          | yes same ↦
              let at_row =
                subst (λ c. Holds idx.slots (cell_hash t row c) row) (some-inj col pk (sym key ∙ e))
                  adds.added in
              let at_r = subst (λ q. Holds idx.slots (cell_hash t q pk) q) same at_row in
              subst (λ x. Holds idx.slots x r) (sym (same_hash r pk)) at_r
          | no apart ↦
              subst (λ x. Holds idx.slots x r) (sym (same_hash r pk))
                (adds.kept _ r (b.found pk r e apart bound live keyed))
        ];
        rows = λ h' r x. elim (adds.nothing_else h' r x) [
          | inl before ↦ b.rows h' r before
          | inr (_, new) ↦ subst (λ q. q < t.n_rows) (sym new) inside
        ];
      }
    ]

-- A live row with a key.
pub record IsKeyed (t : Table) (pk r : ℕ) : Type 0 where
  pub key : t.pk_col ≡ some pk
  pub inside : r < t.n_rows
  pub live : dead_test t r ≡ false
  pub not_null : null_test t pk r ≡ false

-- The keyed row `r` of `u` was one of `t` and has the same key.
pub record WasKeyed (t u : Table) (pk r : ℕ) : Type 0 where
  pub keyed : IsKeyed t pk r
  pub hash : cell_hash u r pk ≡ cell_hash t r pk

-- A change that adds no key and keeps the index and the rows.
pub IsIndexed-kept :
    (t u : Table)
    → IsIndexed t
    → u.pk_index ≡ t.pk_index
    → t.n_rows ≤ u.n_rows
    → ((pk r : ℕ) → IsKeyed u pk r → WasKeyed t u pk r)
    → IsIndexed u
IsIndexed-kept t u i same more was = record {
  index = subst IsIndex (sym same) i.index;
  found = λ pk r key healthy inside live not_null.
      let w = was pk r (record { key = key; inside = inside; live = live; not_null = not_null }) in
      let k = w.keyed in
      let before =
        i.found pk r k.key (ap (λ (x : RowIndex). x.degraded) (sym same) ∙ healthy) k.inside k.live
          k.not_null in
      subst (λ (x : RowIndex). Holds x.slots (cell_hash u r pk) r) (sym same)
        (subst (λ h. Holds t.pk_index.slots h r) (sym w.hash) before);
  rows = λ h r x.
      let bound = i.rows h r (subst (λ (y : RowIndex). Holds y.slots h r) same x) in omega arith;
}

is_pk_col_refl : (t : Table) (col : ℕ) → t.pk_col ≡ some col → is_pk_col t col ≡ true
is_pk_col_refl t col e = rw e ((==_iff col col).1 refl)

module _ (t : Table) (row col : ℕ) (x : Cell) (i : IsIndexed t) (cell : IsInside t row col) where
  w : Table
  w = written t row col x

  w-was : (pk r : ℕ) → (col ≢ pk) ⊎ (row ≢ r) → IsKeyed w pk r → WasKeyed t w pk r
  unfolding w null_clear dead_test
  w-was pk r apart k =
      let s = written-SameCell t row col r pk x cell.col_inside apart in
      record {
        keyed = record {
          key = k.key;
          inside = k.inside;
          live = k.live;
          not_null = sym s.null ∙ k.not_null;
        };
        hash = cell_hash-same t w r pk s refl;
      }

  w-But : t.pk_index.degraded ≡ false → IsIndexedBut w row
  unfolding w null_clear
  w-But healthy = record {
    index = i.index;
    healthy = healthy;
    found = λ pk r key apart inside live not_null.
        let was =
          w-was pk r (inr apart)
            (record { key = key; inside = inside; live = live; not_null = not_null }) in
        let k = was.keyed in
        subst (λ h. Holds t.pk_index.slots h r) (sym was.hash)
          (i.found pk r k.key healthy k.inside k.live k.not_null);
    rows = i.rows;
  }

  w-other : is_pk_col w col ≡ false → IsIndexed w
  unfolding w null_clear
  w-other other = IsIndexed-kept t w i refl (omega arith) (λ pk r k.
      w-was pk r
        (inl (λ same.
          cc (other, is_pk_col_refl w col (subst (λ c. w.pk_col ≡ some c) (sym same) k.key))))
        k)

  -- The invariant of the primary-key index is kept by a write of a cell inside the table, of the
  -- key or of another column, where no insertion into the index had been dropped before.
  pub write_cell-IsIndexed :
      row < t.n_rows → t.pk_index.degraded ≡ false → IsIndexed (write_cell t row col x)
  unfolding write_cell index_row_if_primary_key w null_clear
  write_cell-IsIndexed inside healthy = elim (Bool-cases (is_pk_col w col)) [
    | inl key ↦
        rw key (insert_key-IsIndexed w row col (w-But healthy) (is_pk_col-some w col key) inside)
    | inr other ↦ rw other (w-other other)
  ]
