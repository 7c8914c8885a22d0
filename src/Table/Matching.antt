-- ===== src/Table/Matching.antt =====
-- `table_has_matching_value` of c/src/table.c, on the primary-key index and by a scan.
use db.Prelude.{
  ℕ, zero, suc, ◌+◌, ◌<◌, ◌≡◌, ◌↔◌, inl, inr, refl, sym, ap, ◌∙◌, Bool, true, false, not, ◌&&◌,
  ◌||◌, ==_iff, arith, Bool-cases,
}
use db.Index.{row_index_find, row_index_usable}
use db.Value.{FieldType, ft_int, ft_double, ft_bool, ft_text, ft_err}
use db.Table.{Table, column_at, dead_test, null_test}
use db.Table.Cells.{cell_hash, is_pk_col}
use db.Table.Search.{Searches, any_row}
use db.Table.Keys.{
  cell_equal, match_visit, match_scan, table_has_matching_value, same_type, type_number,
}
use db.Table.Lookup.{IsIndexed, cell_hash-eq, is_pk_col-some, find_exact, scan_exact}

pub match_at : Table → ℕ → Table → ℕ → ℕ → ℕ → Bool
match_at ref_t ref_col t row col r =
    not (dead_test ref_t r || null_test ref_t ref_col r) && cell_equal ref_t r ref_col t row col

match_visit-Searches :
    (ref_t : Table) (ref_col : ℕ) (t : Table) (row col : ℕ)
    → Searches (match_visit ref_t ref_col t row col) (match_at ref_t ref_col t row col)
unfolding match_visit match_at Searches
match_visit-Searches ref_t ref_col t row col found r = ground arith

match_scan-any_row :
    (ref_t : Table) (ref_col : ℕ) (t : Table) (row col rounds r : ℕ)
    → match_scan rounds ref_t ref_col t row col r
      ≡ any_row (match_at ref_t ref_col t row col) rounds r
unfolding match_scan any_row match_at
match_scan-any_row ref_t ref_col t row col zero r = refl
match_scan-any_row ref_t ref_col t row col (suc rounds) r =
    ground (arith, match_scan-any_row ref_t ref_col t row col rounds (r + 1))

-- A live row of the referenced table whose cell has the value of `t`'s cell.
pub record IsMatch (ref_t : Table) (ref_col : ℕ) (t : Table) (row col r : ℕ) : Type 0 where
  pub inside : r < ref_t.n_rows
  pub live : dead_test ref_t r ≡ false
  pub not_null : null_test ref_t ref_col r ≡ false
  pub equal : cell_equal ref_t r ref_col t row col ≡ true

match_at-IsMatch :
    (ref_t : Table) (ref_col : ℕ) (t : Table) (row col r : ℕ)
    → r < ref_t.n_rows
    → match_at ref_t ref_col t row col r ≡ true
    → IsMatch ref_t ref_col t row col r
unfolding match_at
match_at-IsMatch ref_t ref_col t row col r h e = record {
  inside = h;
  live = ground arith;
  not_null = ground arith;
  equal = ground arith;
}

IsMatch-match_at :
    (ref_t : Table) (ref_col : ℕ) (t : Table) (row col r : ℕ)
    → IsMatch ref_t ref_col t row col r
    → match_at ref_t ref_col t row col r ≡ true
unfolding match_at
IsMatch-match_at ref_t ref_col t row col r d = ground (arith, d.live, d.not_null, d.equal)

type_numbered : ℕ → FieldType
type_numbered zero = ft_int
type_numbered (suc zero) = ft_double
type_numbered (suc (suc zero)) = ft_bool
type_numbered (suc (suc (suc zero))) = ft_text
type_numbered (suc (suc (suc (suc n)))) = ft_err

type_numbered-type_number : (a : FieldType) → type_numbered (type_number a) ≡ a
unfolding type_numbered
type_numbered-type_number ft_int = refl
type_numbered-type_number ft_double = refl
type_numbered-type_number ft_bool = refl
type_numbered-type_number ft_text = refl
type_numbered-type_number ft_err = refl

pub same_type_sound : (a b : FieldType) → same_type a b ≡ true → a ≡ b
unfolding same_type
same_type_sound a b h =
    sym (type_numbered-type_number a)
    ∙ ap type_numbered ((==_iff _ _).0 h)
    ∙ type_numbered-type_number b

match_find_exact :
    (ref_t : Table) (ref_col : ℕ) (t : Table) (row col : ℕ)
    → IsIndexed ref_t
    → (column_at ref_t ref_col).kind ≡ (column_at t col).kind
    → null_test t col row ≡ false
    → (is_pk_col ref_t ref_col && row_index_usable ref_t.pk_index) ≡ true
    → (row_index_find
          (match_visit ref_t ref_col t row col)
          ref_t.pk_index
          (cell_hash t row col)
          false
        ≡ true)
      ↔ ((r : ℕ) × (r < ref_t.n_rows) × (match_at ref_t ref_col t row col r ≡ true))
unfolding row_index_usable
match_find_exact ref_t ref_col t row col i kinds keyed usable =
    find_exact _ _ ref_t _ (match_visit-Searches ref_t ref_col t row col) i (λ r bound fine.
      let d = match_at-IsMatch ref_t ref_col t row col r bound fine in
      rw (← cell_hash-eq ref_t t r ref_col row col kinds d.not_null keyed d.equal) (
        i.found ref_col r (is_pk_col-some ref_t ref_col (ground arith)) (ground arith) bound d.live
          d.not_null))

match_path_exact :
    (ref_t : Table) (ref_col : ℕ) (t : Table) (row col : ℕ)
    → IsIndexed ref_t
    → same_type (column_at ref_t ref_col).kind (column_at t col).kind ≡ true
    → null_test t col row ≡ false
    → (table_has_matching_value ref_t ref_col t row col ≡ true)
      ↔ ((r : ℕ) × (r < ref_t.n_rows) × (match_at ref_t ref_col t row col r ≡ true))
unfolding table_has_matching_value
match_path_exact ref_t ref_col t row col i kinds keyed =
    elim (Bool-cases (is_pk_col ref_t ref_col && row_index_usable ref_t.pk_index)) [
      | inl usable ↦
          rw (kinds, usable)
            (match_find_exact ref_t ref_col t row col i (same_type_sound _ _ kinds) keyed usable)
      | inr scanned ↦
          rw (kinds, scanned, match_scan-any_row)
            (scan_exact (match_at ref_t ref_col t row col) ref_t.n_rows)
    ]

-- In a referenced table whose index is well kept, and for a cell that is not NULL and is of the
-- referenced column's type, `table_has_matching_value` answers true exactly when a live row of the
-- referenced table holds an equal value, whether it asks the primary-key index or scans the rows.
pub table_has_matching_value-exact :
    (ref_t : Table) (ref_col : ℕ) (t : Table) (row col : ℕ)
    → IsIndexed ref_t
    → same_type (column_at ref_t ref_col).kind (column_at t col).kind ≡ true
    → null_test t col row ≡ false
    → (table_has_matching_value ref_t ref_col t row col ≡ true)
      ↔ ((r : ℕ) × IsMatch ref_t ref_col t row col r)
table_has_matching_value-exact ref_t ref_col t row col i kinds keyed =
    let (finds, back) = match_path_exact ref_t ref_col t row col i kinds keyed in
    (
      λ h.
          let (r, bound, fine) = finds h in
          (r, match_at-IsMatch ref_t ref_col t row col r bound fine),
      λ (r, d). back (r, d.inside, IsMatch-match_at ref_t ref_col t row col r d),
    )
