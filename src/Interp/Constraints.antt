-- ===== src/Interp/Constraints.antt =====
-- What the checks of c/src/interp.c decide: a row's constraints, and that nothing refers to a row.
use db.Prelude.{
  ℕ, zero, suc, ◌+◌, ◌≤◌, ◌<◌, ◌≡◌, ◌↔◌, inl, inr, refl, sym, subst, true, false, not, Option, none,
  some, List, [], ◌∷◌, if◌then◌else◌, length, Has, arith, Bool-cases, Option-cases,
}
use native.Mathlib.Decide.{ℕ_discrete}
use db.Table.{Table, Name, column_at, null_test}
use db.Table.Columns.{table_find_column, table_get_foreign_key}
use db.Table.Rows.{table_is_null}
use db.Table.Keys.{
  table_column_has_duplicate, table_has_matching_value, table_is_primary_key, same_type,
}
use db.Table.Lookup.{IsIndexed}
use db.Table.Unique.{IsDuplicate, table_column_has_duplicate-exact}
use db.Table.Matching.{IsMatch, table_has_matching_value-exact}
use db.Catalog.{Catalog, NamedTable, catalog_find}
use db.Interp.{row_referenced, Result, ok, err, ◌>>=◌}
use db.Interp.Checks.{
  check_key, table_at, referenced_table, check_match, check_target, check_reference, check_column,
  check_columns, check_row_constraints, refers_to, col_name, check_referencing,
  check_referencing_tables, check_key_not_referenced, check_pk_not_referenced,
}

-- Every table of the catalog keeps its index well.
abbrev pub AreIndexed : List NamedTable → Type 0
AreIndexed [] = Unit
AreIndexed (e ∷ es) = IsIndexed e.table × AreIndexed es

table_at-IsIndexed :
    (es : List NamedTable) (i : ℕ) (t : Table)
    → AreIndexed es
    → table_at es i ≡ some t
    → IsIndexed t
unfolding table_at
table_at-IsIndexed [] i t h e = cc
table_at-IsIndexed (n ∷ es) zero t h e = let same : n.table ≡ t = cc in subst IsIndexed same h.0
table_at-IsIndexed (n ∷ es) (suc i) t h e = table_at-IsIndexed es i t h.1 e

referenced_table-IsIndexed :
    (catalog : Catalog) (name : Name) (t : Table)
    → AreIndexed catalog.tables
    → referenced_table catalog name ≡ some t
    → IsIndexed t
unfolding referenced_table
referenced_table-IsIndexed catalog name t h e = elim (Option-cases (catalog_find catalog name)) [
  | inl missing ↦ absurd (cc (rw (referenced_table, missing) at e))
  | inr (i, is) ↦ table_at-IsIndexed catalog.tables i t h (rw (referenced_table, is) at e)
]

-- Both steps succeed.
both_ok : (m k : Result (Unit {0})) → ((m >>= λ _. k) ≡ ok tt) ↔ ((m ≡ ok tt) × (k ≡ ok tt))
both_ok (ok _) k = (λ h. (refl, h), λ (_, h). h)
both_ok (err e) k = (λ h. absurd (cc h), λ (h, _). absurd (cc h))

-- A key that is there and is nobody else's.
abbrev pub KeyHolds : Table → ℕ → ℕ → Type 0
KeyHolds t row col =
    table_is_primary_key t col ≡ true
    → (null_test t col row ≡ false) × ¬ ((r : ℕ) × IsDuplicate t col row r)

-- A live row of the referenced table has the value, in a column of the same type.
abbrev pub Matches : Table → ℕ → Table → ℕ → ℕ → Type 0
Matches ref_table ref_col t row col =
    (same_type (column_at ref_table ref_col).kind (column_at t col).kind ≡ true)
    × ((r : ℕ) × IsMatch ref_table ref_col t row col r)

-- A reference that is not NULL, into a table and a column that exist, finds its value.
abbrev pub ReferenceHolds : Catalog → Table → ℕ → ℕ → Type 0
ReferenceHolds catalog t row col =
    (target : Name × Name) (ref_table : Table) (ref_col : ℕ)
    → table_get_foreign_key t col ≡ some target
    → null_test t col row ≡ false
    → referenced_table catalog target.0 ≡ some ref_table
    → table_find_column ref_table target.1 ≡ some ref_col
    → Matches ref_table ref_col t row col

abbrev pub ColumnHolds : Catalog → Table → ℕ → ℕ → Type 0
ColumnHolds catalog t row col = KeyHolds t row col × ReferenceHolds catalog t row col

check_key-exact :
    (t : Table) (row col : ℕ) → IsIndexed t → (check_key t row col ≡ ok tt) ↔ KeyHolds t row col
unfolding check_key table_is_null
check_key-exact t row col i = elim (Bool-cases (table_is_primary_key t col)) [
  | inr plain ↦ rw plain (λ _. (λ key. absurd (cc key)), λ _. refl)
  | inl key ↦ elim (Bool-cases (null_test t col row)) [
    | inl null ↦ rw (key, null) (λ h. absurd (cc h), λ h. absurd (cc (h refl).0))
    | inr kept ↦
        let (finds, back) = table_column_has_duplicate-exact t col row i kept in
        elim (Bool-cases (table_column_has_duplicate t col row)) [
          | inl dup ↦ rw (key, kept, dup) (λ h. absurd (cc h), λ h. absurd ((h refl).1 (finds dup)))
          | inr unique ↦
              rw (key, kept, unique)
                (λ _. (λ _. (refl, λ d. absurd (cc (back d, unique)))), λ _. refl)
        ]
  ]
]

matching-exact :
    (ref_table : Table) (ref_col : ℕ) (t : Table) (row col : ℕ)
    → IsIndexed ref_table
    → null_test t col row ≡ false
    → (table_has_matching_value ref_table ref_col t row col ≡ true)
      ↔ Matches ref_table ref_col t row col
unfolding table_has_matching_value
matching-exact ref_table ref_col t row col i kept =
    elim (Bool-cases (same_type (column_at ref_table ref_col).kind (column_at t col).kind)) [
      | inl kinds ↦
          let (finds, back) =
            table_has_matching_value-exact ref_table ref_col t row col i kinds kept in
          (λ h. (kinds, finds h), λ (_, m). back m)
      | inr apart ↦ (λ h. absurd (cc (rw apart at h)), λ (kinds, _). absurd (cc (kinds, apart)))
    ]

check_match-exact :
    (ref_table : Table) (found : Option ℕ) (t : Table) (row col : ℕ) (target : Name × Name)
    → IsIndexed ref_table
    → null_test t col row ≡ false
    → (check_match ref_table found t row col target ≡ ok tt)
      ↔ ((ref_col : ℕ) → found ≡ some ref_col → Matches ref_table ref_col t row col)
unfolding check_match
check_match-exact ref_table none t row col target i kept = (λ _ c e. absurd (cc e), λ _. refl)
check_match-exact ref_table (some ref_col) t row col target i kept =
    let (finds, back) = matching-exact ref_table ref_col t row col i kept in
    elim (Bool-cases (table_has_matching_value ref_table ref_col t row col)) [
      | inl found ↦ rw found (
        λ _ c e.
            let same : ref_col ≡ c = cc in
            subst (λ c. Matches ref_table c t row col) same (finds found),
        λ _. refl,
      )
      | inr missing ↦
          rw missing (λ h. absurd (cc h), λ h. absurd (cc (back (h ref_col refl), missing)))
    ]

check_target-exact :
    (found : Option Table) (t : Table) (row col : ℕ) (target : Name × Name)
    → ((u : Table) → found ≡ some u → IsIndexed u)
    → null_test t col row ≡ false
    → (check_target found t row col target ≡ ok tt) ↔ (
        (ref_table : Table) (ref_col : ℕ)
        → found ≡ some ref_table
        → table_find_column ref_table target.1 ≡ some ref_col
        → Matches ref_table ref_col t row col)
unfolding check_target
check_target-exact none t row col target i kept = (λ _ u c e. absurd (cc e), λ _. refl)
check_target-exact (some u) t row col target i kept =
    let (finds, back) =
      check_match-exact u (table_find_column u target.1) t row col target (i u refl) kept in
    (
      λ h v c e.
          let same : u ≡ v = cc in
          subst (λ v. table_find_column v target.1 ≡ some c → Matches v c t row col) same
            (finds h c),
      λ h. back (λ c. h u c refl),
    )

check_reference-exact :
    (catalog : Catalog) (t : Table) (row col : ℕ)
    → AreIndexed catalog.tables
    → (check_reference catalog t row col (table_get_foreign_key t col) ≡ ok tt)
      ↔ ReferenceHolds catalog t row col
unfolding check_reference table_is_null
check_reference-exact catalog t row col i = elim (Option-cases (table_get_foreign_key t col)) [
  | inl plain ↦ rw plain (λ _ target ref_table ref_col e. absurd (cc e), λ _. refl)
  | inr (target, is) ↦ elim (Bool-cases (null_test t col row)) [
    | inl null ↦ rw (is, null) (λ _ target ref_table ref_col e kept. absurd (cc kept), λ _. refl)
    | inr kept ↦
        rw (is, kept)
          let (finds, back) =
              check_target-exact (referenced_table catalog target.0) t row col target
                (λ u e. referenced_table-IsIndexed catalog target.0 u i e) kept in
            (
              λ h target' ref_table ref_col e k there at_col.
                  let same : target ≡ target' = cc in
                  finds h ref_table ref_col
                    (subst (λ tg. referenced_table catalog tg.0 ≡ some ref_table) (sym same) there)
                    (subst (λ tg. table_find_column ref_table tg.1 ≡ some ref_col) (sym same)
                      at_col),
              λ h. back (λ ref_table ref_col there at_col.
                  h target ref_table ref_col refl refl there at_col),
            )
  ]
]

step_exact :
    (catalog : Catalog) (t : Table) (row col : ℕ)
    → IsIndexed t
    → AreIndexed catalog.tables
    → (check_column catalog t row col ≡ ok tt) ↔ ColumnHolds catalog t row col
unfolding check_column
step_exact catalog t row col i is =
    let (split, join) =
      both_ok (check_key t row col)
        (check_reference catalog t row col (table_get_foreign_key t col)) in
    let (key, key_back) = check_key-exact t row col i in
    let (ref, ref_back) = check_reference-exact catalog t row col is in
    (λ h. (key (split h).0, ref (split h).1), λ (a, b). join (key_back a, ref_back b))

-- From column `col` on.
columns_exact :
    (rounds : ℕ) (catalog : Catalog) (t : Table) (row col : ℕ)
    → IsIndexed t
    → AreIndexed catalog.tables
    → (check_columns rounds catalog t row col ≡ ok tt)
      ↔ ((c : ℕ) → col ≤ c → c < col + rounds → ColumnHolds catalog t row c)
unfolding check_columns
columns_exact zero catalog t row col i is = (λ _ c low high. absurd (omega arith), λ _. refl)
columns_exact (suc rounds) catalog t row col i is =
    let (split, join) =
      both_ok (check_column catalog t row col) (check_columns rounds catalog t row (col + 1)) in
    let (here, here_back) = step_exact catalog t row col i is in
    let (rest, rest_back) = columns_exact rounds catalog t row (col + 1) i is in
    (
      λ h c low high. elim (ℕ_discrete col c) [
        | yes same ↦ subst (ColumnHolds catalog t row) same (here (split h).0)
        | no apart ↦ rest (split h).1 c (omega arith) (omega arith)
      ],
      λ all. join (
        here_back (all col (omega arith) (omega arith)),
        rest_back (λ c low high. all c (omega arith) (omega arith)),
      ),
    )

-- In a table and a catalog whose indexes are well kept, `check_row_constraints` accepts a row
-- exactly when each column's constraints hold at it: a primary key is not NULL and no other live
-- row has it, and a foreign key that is not NULL, into a table and a column that exist, finds its
-- value in a live row there, in a column of the same type.
pub check_row_constraints-exact :
    (catalog : Catalog) (t : Table) (row : ℕ)
    → IsIndexed t
    → AreIndexed catalog.tables
    → (check_row_constraints t row catalog ≡ ok tt)
      ↔ ((c : ℕ) → c < length t.columns → ColumnHolds catalog t row c)
unfolding check_row_constraints
check_row_constraints-exact catalog t row i is =
    let (all, back) = columns_exact (length t.columns) catalog t row 0 i is in
    (λ h c inside. all h c (omega arith) (omega arith), λ h. back (λ c low high. h c (omega arith)))

-- A live row of a table of the catalog refers to the key.
abbrev pub Refers : NamedTable → ℕ → Table → Name → ℕ → ℕ → Type 0
Refers other c t table_name row col =
    (refers_to (table_get_foreign_key other.table c) table_name (col_name t col) ≡ true)
    × Matches other.table c t row col

one_reference :
    (other : NamedTable) (c : ℕ) (t : Table) (table_name : Name) (row col : ℕ)
    (rest : Result (Unit {0}))
    → IsIndexed other.table
    → null_test t col row ≡ false
    → ((if not (refers_to (table_get_foreign_key other.table c) table_name (col_name t col))
          then rest
          else if table_has_matching_value other.table c t row col
          then err (row_referenced other.name (col_name other.table c))
          else rest)
        ≡ ok tt)
      ↔ ((¬ Refers other c t table_name row col) × (rest ≡ ok tt))
one_reference other c t table_name row col rest i kept =
    let (finds, back) = matching-exact other.table c t row col i kept in
    elim (Bool-cases
      (refers_to (table_get_foreign_key other.table c) table_name (col_name t col))) [
        | inr plain ↦ rw plain (λ h. (λ r. absurd (cc r.0), h), λ (_, h). h)
        | inl refers ↦ elim (Bool-cases (table_has_matching_value other.table c t row col)) [
          | inl found ↦
              rw (refers, found)
                (λ h. absurd (cc h), λ (none_refers, _). absurd (none_refers (refl, finds found)))
          | inr missing ↦
              rw (refers, missing) (λ h. (λ r. absurd (cc (back r.1, missing)), h), λ (_, h). h)
        ]
      ]

referencing_exact :
    (rounds : ℕ) (other : NamedTable) (c : ℕ) (t : Table) (table_name : Name) (row col : ℕ)
    → IsIndexed other.table
    → null_test t col row ≡ false
    → (check_referencing rounds other c t table_name row col ≡ ok tt)
      ↔ ((d : ℕ) → c ≤ d → d < c + rounds → ¬ Refers other d t table_name row col)
unfolding check_referencing
referencing_exact zero other c t table_name row col i kept =
    (λ _ d low high. absurd (omega arith), λ _. refl)
referencing_exact (suc rounds) other c t table_name row col i kept =
    let (split, join) =
      one_reference other c t table_name row col
        (check_referencing rounds other (c + 1) t table_name row col) i kept in
    let (rest, rest_back) = referencing_exact rounds other (c + 1) t table_name row col i kept in
    (
      λ h d low high. elim (ℕ_discrete c d) [
        | yes same ↦ subst (λ d. ¬ Refers other d t table_name row col) same (split h).0
        | no apart ↦ rest (split h).1 d (omega arith) (omega arith)
      ],
      λ all. join (
        all c (omega arith) (omega arith),
        rest_back (λ d low high. all d (omega arith) (omega arith)),
      ),
    )

-- No live row of the catalog's tables refers to the row's key.
abbrev pub NotReferenced : List NamedTable → Table → Name → ℕ → ℕ → Type 0
NotReferenced tables t table_name row col =
    (other : NamedTable) (c : ℕ)
    → Has other tables
    → c < length other.table.columns
    → ¬ Refers other c t table_name row col

tables_exact :
    (tables : List NamedTable) (t : Table) (table_name : Name) (row col : ℕ)
    → AreIndexed tables
    → null_test t col row ≡ false
    → (check_referencing_tables tables t table_name row col ≡ ok tt)
      ↔ NotReferenced tables t table_name row col
unfolding check_referencing_tables
tables_exact [] t table_name row col i kept = (λ _ other c h. absurd h, λ _. refl)
tables_exact (first ∷ others) t table_name row col i kept =
    let (split, join) =
      both_ok (check_referencing (length first.table.columns) first 0 t table_name row col)
        (check_referencing_tables others t table_name row col) in
    let (here, here_back) =
      referencing_exact (length first.table.columns) first 0 t table_name row col i.0 kept in
    let (rest, rest_back) = tables_exact others t table_name row col i.1 kept in
    (
      λ h other c has inside. elim has [
        | inl same ↦
            subst
              (λ (o : NamedTable). c < length o.table.columns → ¬ Refers o c t table_name row col)
              (sym same) (λ within. here (split h).0 c (omega arith) (omega arith)) inside
        | inr later ↦ rest (split h).1 other c later inside
      ],
      λ all. join (
        here_back (λ c low high. all first c (inl refl) (omega arith)),
        rest_back (λ other c later. all other c (inr later)),
      ),
    )

-- In a catalog whose indexes are well kept, `check_pk_not_referenced` accepts a row of a table with
-- a primary key that is not NULL in it exactly when no live row of the catalog's tables, that
-- table included, has the key in a column that is declared to refer to it.
pub check_pk_not_referenced-exact :
    (catalog : Catalog) (t : Table) (table_name : Name) (row col : ℕ)
    → AreIndexed catalog.tables
    → t.pk_col ≡ some col
    → null_test t col row ≡ false
    → (check_pk_not_referenced catalog t table_name row ≡ ok tt)
      ↔ NotReferenced catalog.tables t table_name row col
unfolding check_pk_not_referenced check_key_not_referenced table_is_null
check_pk_not_referenced-exact catalog t table_name row col i key kept =
    subst
      (λ pk.
        (check_key_not_referenced pk catalog t table_name row ≡ ok tt)
        ↔ NotReferenced catalog.tables t table_name row col)
      (sym key) (rw kept (tables_exact catalog.tables t table_name row col i kept))
