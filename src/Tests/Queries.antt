-- ===== src/Tests/Queries.antt =====
-- Runs of expressions and of a SELECT.
use db.Prelude.{
  ◌⊎◌, ℕ, ◌≡◌, ◌↔◌, refl, sym, subst, inr, ◌∙◌, true, false, some, none, [], ◌∷◌, List, Has, get_or,
  arith,
}
use db.Bitmap.{test_bit, test_byte}
use db.Index.Insert.{row_index_clear-IsIndex}
use db.Value.{Value, ft_text, value_int}
use db.Interp.Names.{resolve_column, resolve_unqualified}
use db.Table.{bytes_eq, Table, Name, null_test, text_cell, Cell, Column, no_column, null_clear}
use db.Table.Cells.{write_cell}
use db.Table.Columns.{table_find_column, find_name}
use db.Table.Lookup.{IsIndexed}
use db.Table.Views.{IsInside, index_row-SameData}
use db.Table.Reads.{written, IsWrite, write_cell-IsWrite}
use db.Table.Indexed.{write_cell-IsIndexed}
use db.Interp.{
  Expr, expr_column, expr_lit_string, expr_lit_int, expr_binary, expr_param, op_eq, op_add, op_lt,
  RowCtx, SelectStmt, ok, etype_bool,
}
use db.Interp.Types.{
  source_type, binary_type, arith_type, comparison_type, infer_expr_type, validate_where,
}
use db.Interp.Eval.{DoubleOps, eval_value}
use db.Interp.Sound.{HasType}
use db.Interp.Where.{infer_expr_type_sound}
use db.Interp.Checks.{col_name}
use db.Interp.Points.{expr_has_column_ref}
use db.Interp.Select.{From, accepts, at_rows}
use db.Interp.Scan.{IsLive}
use db.Interp.Keys.{IsExactKey, text-IsExactKey}
use db.Interp.Kept.{AreAscending}
use db.Interp.Lookup.{IsPlainLookup, kept_rows, fixed_key, single_table_rows-exact}
use db.Tests.{one_row, id_column}

-- Any functions may stand for the platform's.
abbrev pub some_ops : DoubleOps
some_ops = record { add = λ x y. x; sub = λ x y. x; mul = λ x y. y; div = λ x y. y }

abbrev pub id_name : Name
id_name = 105 ∷ 100 ∷ []

-- id + 1 < ?1
abbrev condition : Expr
condition =
    expr_binary op_lt (expr_binary op_add (expr_column none id_name) (expr_lit_int 1))
      (expr_param 1)

abbrev ctx_at : ℕ → RowCtx
ctx_at row = record {
  sources = record { alias = 117 ∷ []; table = one_row; row = row } ∷ [];
  params = value_int 5 ∷ [];
}

condition_typed : infer_expr_type condition (ctx_at 9) ≡ ok etype_bool
unfolding infer_expr_type resolve_column resolve_unqualified table_find_column find_name bytes_eq
    source_type binary_type arith_type comparison_type
condition_typed = refl

infer_expr_type_sound_example : HasType etype_bool (eval_value some_ops condition (ctx_at 0))
infer_expr_type_sound_example =
    infer_expr_type_sound some_ops condition (ctx_at 9) (ctx_at 0) etype_bool (refl, refl, tt) refl
      (inr (5, refl), tt) condition_typed

condition_valid : validate_where condition (ctx_at 0) ≡ ok tt
unfolding validate_where infer_expr_type resolve_column resolve_unqualified table_find_column
    find_name bytes_eq source_type binary_type arith_type comparison_type
condition_valid = refl

-- ?1 + 1
abbrev constant : Expr
constant = expr_binary op_add (expr_param 1) (expr_lit_int 1)

constant_has_no_column : expr_has_column_ref constant ≡ false
unfolding expr_has_column_ref
constant_has_no_column = refl

-- A TEXT key, first NULL and then the empty text.
abbrev one_name : Table
one_name = record one_row {
  columns =
      record id_column {
        kind = ft_text;
        cells =
            text_cell (record { offset = 0; len = 0 })
            ∷ text_cell (record { offset = 0; len = 0 })
            ∷ [];
      }
      ∷ [];
}

abbrev no_text : Cell
no_text = text_cell (record { offset = 0; len = 0 })

one_name-IsInside : IsInside one_name 0 0
one_name-IsInside = record {
  col_inside = omega arith;
  cell_inside = omega arith;
  null_inside = omega arith;
}

one_name-null : null_test one_name 0 0 ≡ true
unfolding null_test test_bit test_byte
one_name-null = refl

one_name-IsIndexed : IsIndexed one_name
one_name-IsIndexed = record {
  index = row_index_clear-IsIndex;
  found = λ pk r key healthy inside live not_null.
      let zero_row : r ≡ 0 = omega arith in
      let first : 0 ≡ pk = cc (key) in
      let now : null_test one_name 0 0 ≡ false =
        subst (λ c. null_test one_name c 0 ≡ false) (sym first)
          (subst (λ q. null_test one_name pk q ≡ false) zero_row not_null) in
      absurd (cc (now, one_name-null));
  rows = λ h r (p, bound, e). absurd (omega arith);
}

abbrev named : Table
named = write_cell one_name 0 0 no_text

named-IsIndexed : IsIndexed named
named-IsIndexed =
    write_cell-IsIndexed one_name 0 0 no_text one_name-IsIndexed one_name-IsInside (omega arith)
      refl

named-IsWrite : IsWrite one_name named 0 0 no_text
named-IsWrite = write_cell-IsWrite one_name 0 0 no_text one_name-IsInside

abbrev NamesFirst : List Column → Type 0
NamesFirst cs = find_name cs (get_or cs 0 no_column).name 0 ≡ some 0

written_first : NamesFirst (written one_name 0 0 no_text).columns
unfolding find_name bytes_eq null_clear
written_first = refl

named_first : table_find_column named (col_name named 0) ≡ some 0
unfolding table_find_column write_cell
named_first =
    subst NamesFirst (sym (index_row-SameData (written one_name 0 0 no_text) 0 0).columns)
      written_first

-- name = ''
abbrev key_select : SelectStmt
key_select = record {
  items = none;
  table = 110 ∷ [];
  joins = [];
  condition = some (expr_binary op_eq (expr_column none id_name) (expr_lit_string []));
  group_by = [];
  order_by = none;
  limit = none;
}

abbrev from_named : From
from_named = record { name = 110 ∷ []; table = named }

key-IsPlainLookup : IsPlainLookup some_ops key_select.condition from_named []
key-IsPlainLookup = record {
  named = λ pk key.
      let first : some 0 ≡ some pk = sym named-IsWrite.pk_col ∙ key in
      let same : 0 ≡ pk = cc (first) in
      subst (λ pk. table_find_column named (col_name named pk) ≡ some pk) same named_first;
  exact = λ pk v key fixed.
      let first : some 0 ≡ some pk = sym named-IsWrite.pk_col ∙ key in
      let same : 0 ≡ pk = cc (first) in
      subst (λ pk. IsExactKey named pk v) same (text-IsExactKey named 0 v named-IsWrite.kind);
}

single_table_rows-exact_example :
    ((r : ℕ)
      → Has (r ∷ []) (kept_rows some_ops key_select from_named []) ↔ (
          IsLive named r
          × (accepts some_ops key_select.condition
                (record { sources = at_rows (from_named ∷ []) (r ∷ []); params = [] })
              ≡ true)))
    × (AreAscending 0 (kept_rows some_ops key_select from_named [])
        ⊎ ((v : Value) × (fixed_key some_ops key_select from_named [] ≡ some v)))
single_table_rows-exact_example =
    single_table_rows-exact some_ops key_select from_named [] refl named-IsIndexed key-IsPlainLookup
