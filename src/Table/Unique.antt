-- ===== src/Table/Unique.antt =====
-- `table_column_has_duplicate` of c/src/table.c, on the primary-key index and by a scan.
use db.Prelude.{
  ℕ, zero, suc, ◌+◌, ◌<◌, ◌≡◌, ◌≢◌, ◌↔◌, inl, inr, refl, Bool, true, false, not, ◌&&◌, ◌||◌, ◌==◌,
  ==_iff, arith, Bool-cases,
}
use db.Index.{row_index_find, row_index_usable}
use db.Table.{Table, dead_test, null_test}
use db.Table.Cells.{cell_hash, is_pk_col}
use db.Table.Search.{Searches, any_row}
use db.Table.Keys.{cell_equal, dup_visit, dup_scan, table_column_has_duplicate}
use db.Table.Lookup.{IsIndexed, cell_hash-eq, is_pk_col-some, find_exact, scan_exact}

-- What a lookup counts as the same value in another live row.
pub duplicate_at : Table → ℕ → ℕ → ℕ → Bool
duplicate_at t col row r =
    not ((r == row) || (dead_test t r || null_test t col r)) && cell_equal t row col t r col

dup_visit-Searches :
    (t : Table) (row col : ℕ) → Searches (dup_visit t row col) (duplicate_at t col row)
unfolding dup_visit duplicate_at Searches
dup_visit-Searches t row col found r = ground arith

dup_scan-any_row :
    (t : Table) (col row rounds r : ℕ)
    → dup_scan rounds t col row r ≡ any_row (duplicate_at t col row) rounds r
unfolding dup_scan any_row duplicate_at
dup_scan-any_row t col row zero r = refl
dup_scan-any_row t col row (suc rounds) r =
    ground (arith, dup_scan-any_row t col row rounds (r + 1))

-- A live row other than `row` whose cell in the column has the same value.
pub record IsDuplicate (t : Table) (col row r : ℕ) : Type 0 where
  pub inside : r < t.n_rows
  pub apart : r ≢ row
  pub live : dead_test t r ≡ false
  pub not_null : null_test t col r ≡ false
  pub equal : cell_equal t row col t r col ≡ true

duplicate_at-IsDuplicate :
    (t : Table) (col row r : ℕ)
    → r < t.n_rows
    → duplicate_at t col row r ≡ true
    → IsDuplicate t col row r
unfolding duplicate_at
duplicate_at-IsDuplicate t col row r h e = record {
  inside = h;
  apart = λ same. ground (arith, (==_iff r row).1 same);
  live = ground arith;
  not_null = ground arith;
  equal = ground arith;
}

IsDuplicate-duplicate_at :
    (t : Table) (col row r : ℕ) → IsDuplicate t col row r → duplicate_at t col row r ≡ true
unfolding duplicate_at
IsDuplicate-duplicate_at t col row r d = ground (arith, d.apart, d.live, d.not_null, d.equal)

dup_find_exact :
    (t : Table) (col row : ℕ)
    → IsIndexed t
    → null_test t col row ≡ false
    → (is_pk_col t col && row_index_usable t.pk_index) ≡ true
    → (row_index_find (dup_visit t row col) t.pk_index (cell_hash t row col) false ≡ true)
      ↔ ((r : ℕ) × (r < t.n_rows) × (duplicate_at t col row r ≡ true))
unfolding row_index_usable
dup_find_exact t col row i keyed usable =
    find_exact _ _ t _ (dup_visit-Searches t row col) i (λ r bound fine.
      let d = duplicate_at-IsDuplicate t col row r bound fine in
      rw (cell_hash-eq t t row col r col refl keyed d.not_null d.equal) (
        i.found col r (is_pk_col-some t col (ground arith)) (ground arith) bound d.live d.not_null))

dup_path_exact :
    (t : Table) (col row : ℕ)
    → IsIndexed t
    → null_test t col row ≡ false
    → (table_column_has_duplicate t col row ≡ true)
      ↔ ((r : ℕ) × (r < t.n_rows) × (duplicate_at t col row r ≡ true))
unfolding table_column_has_duplicate
dup_path_exact t col row i keyed =
    elim (Bool-cases (is_pk_col t col && row_index_usable t.pk_index)) [
      | inl usable ↦ rw (keyed, usable) (dup_find_exact t col row i keyed usable)
      | inr scanned ↦
          rw (keyed, scanned, dup_scan-any_row) (scan_exact (duplicate_at t col row) t.n_rows)
    ]

-- In a table whose index is well kept, `table_column_has_duplicate` on a cell that is not NULL
-- answers true exactly when another live row holds an equal value in the column, whether it asks
-- the primary-key index or scans the rows.
pub table_column_has_duplicate-exact :
    (t : Table) (col row : ℕ)
    → IsIndexed t
    → null_test t col row ≡ false
    → (table_column_has_duplicate t col row ≡ true) ↔ ((r : ℕ) × IsDuplicate t col row r)
table_column_has_duplicate-exact t col row i keyed =
    let (finds, back) = dup_path_exact t col row i keyed in
    (
      λ h. let (r, bound, fine) = finds h in (r, duplicate_at-IsDuplicate t col row r bound fine),
      λ (r, d). back (r, d.inside, IsDuplicate-duplicate_at t col row r d),
    )
