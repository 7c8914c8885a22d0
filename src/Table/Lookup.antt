-- ===== src/Table/Lookup.antt =====
-- Lookups by value in c/src/table.c: equal cells hash alike, the invariant of the primary-key index,
-- and the search on the index.
use db.Prelude.{
  ℕ, ◌<◌, ◌≡◌, ◌↔◌, inl, inr, refl, sym, ap, ◌∙◌, Bool, true, false, some, List, [], ◌∷◌,
  bool_eq_sound, ==_iff, arith, Option-cases,
}
use db.Index.{Visitor, row_index_find}
use db.Index.Store.{Holds}
use db.Index.Insert.{IsIndex}
use db.Index.Find.{row_index_find-exact}
use db.Value.{
  FieldType, ft_int, ft_double, ft_bool, ft_text, ft_err, value_hash, value_int, value_bool,
  value_text,
}
use db.Value.Hash.{double_hash}
use db.Table.{Table, bytes_eq, column_at, dead_test, null_test}
use db.Table.Cells.{cell_hash, is_pk_col, read_column, read_cell}
use db.Table.Search.{
  Searches, visit_all-found, visit_all-finds, any_row, any_row-found, any_row-finds,
}
use db.Table.Keys.{cell_equal, cell_equal_as}

pub bytes_eq_sound : (a b : List ℕ) → bytes_eq a b ≡ true → a ≡ b
unfolding bytes_eq
bytes_eq_sound [] [] h = refl
bytes_eq_sound [] (y ∷ b) h = cc
bytes_eq_sound (x ∷ a) [] h = cc
bytes_eq_sound (x ∷ a) (y ∷ b) h = ground (arith, bytes_eq_sound a b)

-- By the type of the cells.
read_cell-hash :
    (k : FieldType) (ta tb : Table) (ra ca rb cb : ℕ)
    → cell_equal_as k ta ra ca tb rb cb ≡ true
    → value_hash (read_cell ta ra ca k) ≡ value_hash (read_cell tb rb cb k)
unfolding cell_equal_as read_cell
read_cell-hash ft_int ta tb ra ca rb cb e = ap (λ v. value_hash (value_int v)) ((==_iff _ _).0 e)
read_cell-hash ft_double ta tb ra ca rb cb e = double_hash _ _ e
read_cell-hash ft_bool ta tb ra ca rb cb e =
    ap (λ v. value_hash (value_bool v)) (bool_eq_sound _ _ e)
read_cell-hash ft_text ta tb ra ca rb cb e =
    ap (λ v. value_hash (value_text v)) (bytes_eq_sound _ _ e)
read_cell-hash ft_err ta tb ra ca rb cb e = cc

-- Cells of columns of one type that are not NULL and are equal have the same hash.
pub cell_hash-eq :
    (ta tb : Table) (ra ca rb cb : ℕ)
    → (column_at ta ca).kind ≡ (column_at tb cb).kind
    → null_test ta ca ra ≡ false
    → null_test tb cb rb ≡ false
    → cell_equal ta ra ca tb rb cb ≡ true
    → cell_hash ta ra ca ≡ cell_hash tb rb cb
unfolding cell_hash read_column cell_equal
cell_hash-eq ta tb ra ca rb cb k na nb e =
    rw (na, nb, ← k) (read_cell-hash (column_at ta ca).kind ta tb ra ca rb cb e)

-- The primary-key index: every live row with a key is stored under the hash of its key, unless an
-- insertion was dropped, and no row beyond the last one is stored.
pub record IsIndexed (t : Table) : Type 0 where
  pub index : IsIndex t.pk_index
  pub found :
      (pk r : ℕ)
      → t.pk_col ≡ some pk
      → t.pk_index.degraded ≡ false
      → r < t.n_rows
      → dead_test t r ≡ false
      → null_test t pk r ≡ false
      → Holds t.pk_index.slots (cell_hash t r pk) r
  pub rows : (h r : ℕ) → Holds t.pk_index.slots h r → r < t.n_rows

pub is_pk_col-some : (t : Table) (col : ℕ) → is_pk_col t col ≡ true → t.pk_col ≡ some col
is_pk_col-some t col = elim (Option-cases t.pk_col) [
  | inl none_set ↦ rw none_set (λ h. cc)
  | inr (pk, e) ↦ rw e (λ h. ap some ((==_iff pk col).0 h))
]

-- On the index: what the visitor finds is a row that the test accepts, and every row that the test
-- accepts is met, where the rows it accepts are stored under the hash.
pub find_exact :
    (visit : Visitor Bool) (good : ℕ → Bool) (t : Table) (hash : ℕ)
    → Searches visit good
    → IsIndexed t
    → ((r : ℕ) → r < t.n_rows → good r ≡ true → Holds t.pk_index.slots hash r)
    → (row_index_find visit t.pk_index hash false ≡ true)
      ↔ ((r : ℕ) × (r < t.n_rows) × (good r ≡ true))
find_exact visit good t hash s i stored =
    let (runs, has) = row_index_find-exact visit t.pk_index hash false i.index in
    (
      λ h.
          let (r, there, fine) = visit_all-found visit good s _ (sym runs ∙ h) in
          (r, i.rows hash r ((has r).0 there), fine),
      λ (r, bound, fine).
          runs ∙ visit_all-finds visit good s _ r ((has r).1 (stored r bound fine)) fine,
    )

pub scan_exact :
    (good : ℕ → Bool) (n : ℕ) → (any_row good n 0 ≡ true) ↔ ((r : ℕ) × (r < n) × (good r ≡ true))
scan_exact good n = (
  λ h. let (r, bound, fine) = any_row-found good n 0 h in (r, omega arith, fine),
  λ (r, bound, fine). any_row-finds good n 0 r (omega arith) (omega arith) fine,
)
