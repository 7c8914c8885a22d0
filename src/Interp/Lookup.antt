-- ===== src/Interp/Lookup.antt =====
-- Point lookups of c/src/interp.c: `find_pk_equality` with the primary-key index gives the rows of a
-- full scan.
use db.Prelude.{
  ◌⊎◌, Option-cases, ℕ, ◌≡◌, ◌↔◌, inl, inr, refl, sym, subst, true, false, ◌==◌, Option, none, some,
  List, [], ◌∷◌, if◌then◌else◌, Has, length, Bool-cases,
}
use db.Index.{row_index_usable}
use db.Index.Store.{Holds}
use db.Value.{Value, value_hash}
use db.Table.{Table, column_at, null_test}
use db.Table.Columns.{table_find_column}
use db.Table.Cells.{read_column, cell_hash}
use db.Table.Keys.{table_pk_index_usable}
use db.Table.Lookup.{IsIndexed}
use db.Interp.{Expr, SelectStmt, RowCtx}
use db.Interp.Eval.{DoubleOps, Tri, tri_true, tri_false, tri_unknown, eval_tri}
use db.Interp.Checks.{col_name}
use db.Interp.Points.{find_pk_equality}
use db.Interp.Select.{
  From, is_true, accepts, at_rows, at_no_rows, lookup_rows, scan_rows, key_of_condition, first_rows,
  matched, singletons,
}
use db.Interp.Keys.{IsExactKey}
use db.Interp.Kept.{
  singletons-exact, matched-exact, AreAscending, singletons-AreAscending, matched-AreAscending,
}
use db.Interp.Scan.{IsAscending, scan_rows-IsAscending, IsLive, scan_rows-exact, lookup_rows-exact}
use db.Interp.Equality.{find_sound, true_negation, no_row, at_row}

null-read : (t : Table) (r pk : ℕ) → (read_column t r pk).is_null ≡ false → null_test t pk r ≡ false
unfolding read_column
null-read t r pk h = elim (Bool-cases (null_test t pk r)) [
  | inl null ↦ absurd (cc (rw (read_column, null) at h))
  | inr kept ↦ kept
]

-- Every live row that the condition accepts is among the rows of the lookup.
lookup_complete :
    (f : DoubleOps) (first : From) (pk r : ℕ) (params : List Value) (e : Expr) (v : Value)
    → IsIndexed first.table
    → first.table.pk_col ≡ some pk
    → table_find_column first.table (col_name first.table pk) ≡ some pk
    → IsExactKey first.table pk v
    → table_pk_index_usable first.table ≡ true
    → find_pk_equality f e
        (no_row f first pk r params)
        (col_name first.table pk)
        (column_at first.table pk).kind
      ≡ some v
    → IsLive first.table r
    → eval_tri f e (at_row f first pk r params) ≡ tri_true
    → Has r (lookup_rows first.table v)
unfolding table_pk_index_usable row_index_usable cell_hash
lookup_complete f first pk r params e v i has_key named exact usable found live holds =
    let k = find_sound f first pk r params named e _ v found holds in
    let eq = exact r live k in
    let stored =
      i.found pk r has_key (true_negation _ usable) live.0 live.1
        (null-read first.table r pk k.not_null) in
    (lookup_rows-exact first.table v r i).1
      (subst (λ h. Holds first.table.pk_index.slots h r) eq stored, live.1)

is_true_sound : (t : Tri) → is_true t ≡ true → t ≡ tri_true
is_true_sound tri_true h = refl
is_true_sound tri_false h = cc
is_true_sound tri_unknown h = cc

-- What a point lookup was decided on.
record LooksUp (f : DoubleOps) (o : Option ℕ) (c : Option Expr) (t : Table) (ctx : RowCtx)
    (v : Value) : Type 0 where
  pk : ℕ
  e : Expr
  has_key : o ≡ some pk
  condition : c ≡ some e
  usable : table_pk_index_usable t ≡ true
  found : find_pk_equality f e ctx (col_name t pk) (column_at t pk).kind ≡ some v

key_of_condition-LooksUp :
    (f : DoubleOps) (o : Option ℕ) (c : Option Expr) (t : Table) (ctx : RowCtx) (v : Value)
    → key_of_condition f o c t ctx ≡ some v
    → LooksUp f o c t ctx v
unfolding key_of_condition
key_of_condition-LooksUp f none c t ctx v h = cc
key_of_condition-LooksUp f (some pk) none t ctx v h = cc
key_of_condition-LooksUp f (some pk) (some e) t ctx v h =
    elim (Bool-cases (table_pk_index_usable t)) [
      | inr full ↦ absurd (cc (rw (key_of_condition, full) at h))
      | inl usable ↦ record {
        pk = pk;
        e = e;
        has_key = refl;
        condition = refl;
        usable = usable;
        found = rw (key_of_condition, usable) at h;
      }
    ]

-- The key's column is the first of its name, and where the condition fixes the key to a value, a
-- live row's key that compares as equal with that value has its hash.
pub record IsPlainLookup (f : DoubleOps) (condition : Option Expr) (first : From)
    (params : List Value) : Type 0 where
  pub named :
      (pk : ℕ)
      → first.table.pk_col ≡ some pk
      → table_find_column first.table (col_name first.table pk) ≡ some pk
  pub exact :
      (pk : ℕ) (v : Value)
      → first.table.pk_col ≡ some pk
      → key_of_condition f first.table.pk_col condition first.table
          (record { sources = at_no_rows (first ∷ []); params = params })
        ≡ some v
      → IsExactKey first.table pk v

abbrev seed_rows : Table → Option Value → List ℕ
seed_rows t k = elim k [ none ↦ scan_rows t | some v ↦ lookup_rows t v ]

module _ (f : DoubleOps) (first : From) (c : Option Expr) (r : ℕ) (params : List Value) where
  abbrev one_row_ctx : RowCtx
  one_row_ctx = record { sources = at_rows (first ∷ []) (r ∷ []); params = params }

  abbrev no_row_ctx : RowCtx
  no_row_ctx = record { sources = at_no_rows (first ∷ []); params = params }

  seed_rows-IsLive :
      (k : Option Value)
      → IsIndexed first.table
      → Has r (seed_rows first.table k)
      → IsLive first.table r
  seed_rows-IsLive none i x = (scan_rows-exact first.table r).0 x
  seed_rows-IsLive (some v) i x =
      let (stored, live) = (lookup_rows-exact first.table v r i).0 x in
      (i.rows (value_hash v) r stored, live)

  seed_rows-Has :
      (k : Option Value)
      → key_of_condition f first.table.pk_col c first.table no_row_ctx ≡ k
      → IsIndexed first.table
      → IsPlainLookup f c first params
      → IsLive first.table r
      → accepts f c one_row_ctx ≡ true
      → Has r (seed_rows first.table k)
  unfolding accepts
  seed_rows-Has none e i plain live fine = (scan_rows-exact first.table r).1 live
  seed_rows-Has (some v) e i plain live fine =
      let l = key_of_condition-LooksUp f _ c first.table no_row_ctx v e in
      let holds : is_true (eval_tri f l.e one_row_ctx) ≡ true =
        subst (λ c. accepts f c one_row_ctx ≡ true) l.condition fine in
      lookup_complete f first l.pk r params l.e v i l.has_key (plain.named l.pk l.has_key)
        (plain.exact l.pk v l.has_key e) l.usable l.found live (is_true_sound _ holds)

-- The rows that a SELECT of one table keeps, as tuples of one row.
abbrev pub kept_rows : DoubleOps → SelectStmt → From → List Value → List (List ℕ)
kept_rows f stmt first params = matched f stmt.condition (first ∷ []) params (
    singletons (
      first_rows f stmt first.table
        (record { sources = at_no_rows (first ∷ []); params = params })))

-- The value that the condition fixes the key to, where it does and the index is usable.
abbrev pub fixed_key : DoubleOps → SelectStmt → From → List Value → Option Value
fixed_key f stmt first params =
    key_of_condition f first.table.pk_col stmt.condition first.table
      (record { sources = at_no_rows (first ∷ []); params = params })

first_rows-seed_rows :
    (f : DoubleOps) (stmt : SelectStmt) (first : From) (params : List Value)
    → stmt.joins ≡ []
    → first_rows f stmt first.table (record { sources = at_no_rows (first ∷ []); params = params })
      ≡ seed_rows first.table (fixed_key f stmt first params)
unfolding first_rows
first_rows-seed_rows f stmt first params joins =
    let k = fixed_key f stmt first params in
    subst
      (λ js.
        (if length js == 0 then seed_rows first.table k else scan_rows first.table)
        ≡ seed_rows first.table k)
      (sym joins) refl

seed_rows-none : (t : Table) (k : Option Value) → k ≡ none → IsAscending 0 (seed_rows t k)
seed_rows-none t none e = scan_rows-IsAscending t
seed_rows-none t (some v) e = cc

-- A SELECT of one table keeps a row exactly when it is live and its WHERE clause accepts it, whether
-- it starts from a point lookup by the primary-key index or from a full scan: in a table whose index
-- is well kept and whose key column is the first of its name, and where, if the clause fixes the key
-- to a value, the live rows' keys that compare as equal with that value have its hash. Where the
-- clause fixes no key, or the index is not usable, the rows come in ascending order, each once; how
-- often a point lookup lists a row is not said, and it can be more than once.
pub single_table_rows-exact :
    (f : DoubleOps) (stmt : SelectStmt) (first : From) (params : List Value)
    → stmt.joins ≡ []
    → IsIndexed first.table
    → IsPlainLookup f stmt.condition first params
    → ((r : ℕ)
        → Has (r ∷ []) (kept_rows f stmt first params) ↔ (
            IsLive first.table r
            × (accepts f stmt.condition
                  (record { sources = at_rows (first ∷ []) (r ∷ []); params = params })
                ≡ true)))
      × (AreAscending 0 (kept_rows f stmt first params)
          ⊎ ((v : Value) × (fixed_key f stmt first params ≡ some v)))
single_table_rows-exact f stmt first params joins i plain =
    let k = fixed_key f stmt first params in
    let seeds = first_rows-seed_rows f stmt first params joins in
    (
      λ r.
          let (sound, complete) = matched-exact f stmt.condition (first ∷ []) params _ (r ∷ []) in
          let (single, single_back) = singletons-exact _ r in
          (
            λ x.
                let (there, fine) = sound x in
                (
                  seed_rows-IsLive f first stmt.condition r params k i
                      (subst (Has r) seeds (single there)),
                  fine,
                ),
            λ (live, fine). complete (
              single_back (
                  subst (Has r) (sym seeds)
                    (seed_rows-Has f first stmt.condition r params k refl i plain live fine)),
              fine,
            ),
          ),
      elim (Option-cases k) [
        | inr fixed ↦ inr fixed
        | inl free ↦ inl (
            matched-AreAscending f stmt.condition (first ∷ []) params _ 0 (
              singletons-AreAscending _ 0
                (subst (IsAscending 0) (sym seeds) (seed_rows-none first.table k free))))
      ],
    )
