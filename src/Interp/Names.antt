-- ===== src/Interp/Names.antt =====
-- `resolve_column` of c/src/interp.c: the source and the column that a reference means.
use db.Prelude.{ℕ, ◌+◌, Option, none, some, List, [], ◌∷◌, if◌then◌else◌}
use db.Table.{Name, bytes_eq}
use db.Table.Columns.{table_find_column}
use db.Interp.{RowSource, RowCtx, Result, ok, err, no_column, no_table, ambiguous}

-- The column of the source that the qualifier names.
unfoldable pub in_source : Name → Name → ℕ → Option ℕ → Result (ℕ × ℕ)
in_source qual_table col_name i none = err (no_column (some qual_table) col_name)
in_source qual_table col_name i (some col) = ok (i, col)

-- The first source with the alias, from source `i` on.
unfoldable pub resolve_qualified : List RowSource → ℕ → Name → Name → Result (ℕ × ℕ)
unfolding in_source
resolve_qualified [] i qual_table col_name = err (no_table qual_table)
resolve_qualified (s ∷ ss) i qual_table col_name =
    let rest = resolve_qualified ss (i + 1) qual_table col_name in
    if bytes_eq s.alias qual_table
    then in_source qual_table col_name i (table_find_column s.table col_name)
    else rest

unfoldable pub found_or_none : Name → Option (ℕ × ℕ) → Result (ℕ × ℕ)
found_or_none col_name none = err (no_column none col_name)
found_or_none col_name (some found) = ok found

-- The loop over the sources, with what was found so far.
unfoldable pub resolve_unqualified : List RowSource → ℕ → Name → Option (ℕ × ℕ) → Result (ℕ × ℕ)
unfolding found_or_none
resolve_unqualified [] i col_name found = found_or_none col_name found
resolve_unqualified (s ∷ ss) i col_name found = elim (table_find_column s.table col_name) [
  | none ↦ resolve_unqualified ss (i + 1) col_name found
  | some col ↦ elim found [
    | none ↦ resolve_unqualified ss (i + 1) col_name (some (i, col))
    | some first ↦ err (ambiguous col_name first.0 i)
  ]
]

unfoldable pub resolve_column : RowCtx → Option Name → Name → Result (ℕ × ℕ)
unfolding resolve_qualified resolve_unqualified
resolve_column ctx none col_name = resolve_unqualified ctx.sources 0 col_name none
resolve_column ctx (some qual_table) col_name = resolve_qualified ctx.sources 0 qual_table col_name
