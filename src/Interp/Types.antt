-- ===== src/Interp/Types.antt =====
-- The static check of expressions: `infer_expr_type`, `validate_where` and `expr_fits_column` of
-- c/src/interp.c.
use db.Prelude.{
  ℕ, zero, suc, Bool, true, false, not, ◌&&◌, ◌||◌, Option, none, some, List, [], ◌∷◌, ◌==◌,
  if◌then◌else◌, get_elem?,
}
use db.Value.{Value, FieldType, ft_int, ft_double, ft_bool, ft_text, ft_err}
use db.Table.{Name, column_at}
use db.Table.Keys.{same_type}
use db.Interp.{
  Expr, expr_column, expr_lit_int, expr_lit_double, expr_lit_string, expr_lit_bool, expr_lit_null,
  expr_not, expr_neg, expr_binary, expr_param, BinaryOp, op_and, op_or, op_div, ExprValueType,
  etype_int, etype_double, etype_bool, etype_string, etype_null, field_type_to_expr_type,
  is_numeric, is_arith_op, RowSource, RowCtx, Result, ok, err, ◌>>=◌, not_bound, not_requires_bool,
  neg_requires_numeric, requires_bools, requires_numerics, cannot_compare, where_not_bool,
  wrong_type,
}
use db.Interp.Names.{resolve_column}

-- `ctx->sources[src].table->types[col]`
unfoldable pub source_type : List RowSource → ℕ → ℕ → FieldType
source_type [] src col = ft_err
source_type (s ∷ ss) zero col = (column_at s.table col).kind
source_type (s ∷ ss) (suc src) col = source_type ss src col

-- The value bound to a parameter. The index below 1 wraps to SIZE_MAX, beyond every count.
abbrev pub bound_param : List Value → ℕ → Option Value
bound_param params zero = none
bound_param params (suc i) = get_elem? params i

abbrev pub param_type : ℕ → Option Value → Result ExprValueType
param_type i none = err (not_bound i)
param_type i (some v) = ok (if v.is_null then etype_null else field_type_to_expr_type v.kind)

abbrev pub is_null_type : ExprValueType → Bool
is_null_type etype_null = true
is_null_type _ = false

abbrev pub is_bool_type : ExprValueType → Bool
is_bool_type etype_bool = true
is_bool_type _ = false

abbrev pub is_double_type : ExprValueType → Bool
is_double_type etype_double = true
is_double_type _ = false

-- The number of an enum's constructor, which `l == r` compares.
abbrev pub etype_number : ExprValueType → ℕ
etype_number etype_int = 0
etype_number etype_double = 1
etype_number etype_bool = 2
etype_number etype_string = 3
etype_number etype_null = 4

abbrev pub is_logic_op : BinaryOp → Bool
is_logic_op op_and = true
is_logic_op op_or = true
is_logic_op _ = false

abbrev pub is_div_op : BinaryOp → Bool
is_div_op op_div = true
is_div_op _ = false

abbrev pub not_type : ExprValueType → Result ExprValueType
not_type operand =
    if not (is_bool_type operand) && not (is_null_type operand)
    then err (not_requires_bool operand)
    else ok etype_bool

abbrev pub neg_type : ExprValueType → Result ExprValueType
neg_type operand =
    if not (is_numeric operand) && not (is_null_type operand)
    then err (neg_requires_numeric operand)
    else ok operand

unfoldable pub logic_type : BinaryOp → ExprValueType → ExprValueType → Result ExprValueType
logic_type op l r =
    if (not (is_bool_type l) && not (is_null_type l))
      || (not (is_bool_type r) && not (is_null_type r))
    then err (requires_bools op l r)
    else ok etype_bool

unfoldable pub arith_type : BinaryOp → ExprValueType → ExprValueType → Result ExprValueType
arith_type op l r =
    if not (is_numeric l || is_null_type l) || not (is_numeric r || is_null_type r)
    then err (requires_numerics op l r)
    else if is_null_type l || is_null_type r
    then ok etype_null
    else if is_div_op op
    then ok etype_double
    else ok (if is_double_type l || is_double_type r then etype_double else etype_int)

unfoldable pub comparison_type : ExprValueType → ExprValueType → Result ExprValueType
comparison_type l r =
    if not (
      is_null_type l
      || is_null_type r
      || (is_numeric l && is_numeric r)
      || (etype_number l == etype_number r))
    then err (cannot_compare l r)
    else ok etype_bool

unfoldable pub binary_type : BinaryOp → ExprValueType → ExprValueType → Result ExprValueType
unfolding logic_type arith_type comparison_type
binary_type op l r =
    if is_logic_op op
    then logic_type op l r
    else if is_arith_op op
    then arith_type op l r
    else comparison_type l r

unfoldable pub infer_expr_type : Expr → RowCtx → Result ExprValueType
unfolding source_type binary_type
infer_expr_type (expr_column qual name) ctx = do
  (src, col) ← resolve_column ctx qual name
  ok (field_type_to_expr_type (source_type ctx.sources src col))
infer_expr_type (expr_lit_int v) ctx = ok etype_int
infer_expr_type (expr_lit_double v) ctx = ok etype_double
infer_expr_type (expr_lit_bool v) ctx = ok etype_bool
infer_expr_type (expr_lit_string v) ctx = ok etype_string
infer_expr_type expr_lit_null ctx = ok etype_null
infer_expr_type (expr_param i) ctx = param_type i (bound_param ctx.params i)
infer_expr_type (expr_not e) ctx = do operand ← infer_expr_type e ctx; not_type operand
infer_expr_type (expr_neg e) ctx = do operand ← infer_expr_type e ctx; neg_type operand
infer_expr_type (expr_binary op left right) ctx = do
  l ← infer_expr_type left ctx
  r ← infer_expr_type right ctx
  binary_type op l r

abbrev pub where_type : ExprValueType → Result (Unit {0})
where_type ty =
    if not (is_bool_type ty) && not (is_null_type ty) then err (where_not_bool ty) else ok tt

unfoldable pub validate_where : Expr → RowCtx → Result (Unit {0})
validate_where e ctx = do ty ← infer_expr_type e ctx; where_type ty

abbrev pub expr_field_type : ExprValueType → FieldType
expr_field_type etype_int = ft_int
expr_field_type etype_double = ft_double
expr_field_type etype_bool = ft_bool
expr_field_type _ = ft_text

unfoldable pub type_fits : ExprValueType → FieldType → Name → Result (Unit {0})
unfolding same_type
type_fits ty col_type col_name =
    if is_null_type ty
    then ok tt
    else if same_type (expr_field_type ty) col_type
    then ok tt
    else if same_type (expr_field_type ty) ft_int && same_type col_type ft_double
    then ok tt
    else err (wrong_type col_name col_type (expr_field_type ty))

unfoldable pub expr_fits_column : Expr → RowCtx → FieldType → Name → Result (Unit {0})
unfolding type_fits
expr_fits_column e ctx col_type col_name = do
  ty ← infer_expr_type e ctx
  type_fits ty col_type col_name
