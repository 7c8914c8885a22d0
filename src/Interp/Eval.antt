-- ===== src/Interp/Eval.antt =====
-- The evaluation of expressions: `eval_tri` and `eval_value` of c/src/interp.c. A double's sum,
-- difference, product and quotient are the platform's: they are the parameter `f`.
use db.Prelude.{
  ℕ, zero, suc, ◌+◌, ◌-◌, ◌*◌, ◌%◌, ◌^◌, Bool, true, false, ◌||◌, Option, none, some, List, [], ◌∷◌,
  if◌then◌else◌,
}
use db.Prelude.Bits.{word}
use db.Value.{
  Value, FieldType, ft_int, ft_double, ft_bool, ft_text, value_int, value_double, value_bool,
  value_text, value_null, int_of, double_of, bool_of, int_to_double, Sign, less, same, greater,
  compare_values,
}
use db.Table.{Name}
use db.Table.Cells.{read_column}
use db.Interp.{
  Expr, expr_column, expr_lit_int, expr_lit_double, expr_lit_string, expr_lit_bool, expr_lit_null,
  expr_not, expr_neg, expr_binary, expr_param, BinaryOp, op_eq, op_ne, op_lt, op_le, op_gt, op_ge,
  op_and, op_or, op_add, op_sub, is_arith_op, RowSource, RowCtx, Result, ok, err,
}
use db.Interp.Names.{resolve_column}
use db.Interp.Types.{bound_param, is_div_op}

pub record DoubleOps : Type 0 where
  pub add : ℕ → ℕ → ℕ
  pub sub : ℕ → ℕ → ℕ
  pub mul : ℕ → ℕ → ℕ
  pub div : ℕ → ℕ → ℕ

pub data Tri : Type 0 where
  tri_false tri_true tri_unknown : Tri

abbrev pub tri_of : Bool → Tri
tri_of b = if b then tri_true else tri_false

abbrev pub value_to_tri : Value → Tri
value_to_tri v = if v.is_null then tri_unknown else tri_of (bool_of v.content)

-- What `eval_value` makes of a truth value.
abbrev pub tri_to_value : Tri → Value
tri_to_value tri_unknown = value_null ft_bool
tri_to_value tri_true = value_bool true
tri_to_value tri_false = value_bool false

unfoldable pub compares : BinaryOp → Sign → Bool
compares op_eq same = true
compares op_ne less = true
compares op_ne greater = true
compares op_lt less = true
compares op_le less = true
compares op_le same = true
compares op_gt greater = true
compares op_ge same = true
compares op_ge greater = true
compares _ _ = false

unfoldable pub eval_comparison : BinaryOp → Value → Value → Tri
unfolding compares
eval_comparison op l r =
    if l.is_null || r.is_null then tri_unknown else tri_of (compares op (compare_values l r))

abbrev pub not_tri : Tri → Tri
not_tri tri_unknown = tri_unknown
not_tri tri_true = tri_false
not_tri tri_false = tri_true

-- FALSE decides, then unknown.
abbrev pub and_tri : Tri → Tri → Tri
and_tri tri_false r = tri_false
and_tri tri_true r = r
and_tri tri_unknown tri_false = tri_false
and_tri tri_unknown _ = tri_unknown

-- TRUE decides, then unknown.
abbrev pub or_tri : Tri → Tri → Tri
or_tri tri_true r = tri_true
or_tri tri_false r = r
or_tri tri_unknown tri_true = tri_true
or_tri tri_unknown _ = tri_unknown

-- `ctx->sources[src].row` read at the column.
unfoldable pub source_value : List RowSource → ℕ → ℕ → Value
source_value [] src col = value_null ft_text
source_value (s ∷ ss) zero col = read_column s.table s.row col
source_value (s ∷ ss) (suc src) col = source_value ss src col

unfoldable pub resolved_value : RowCtx → Result (ℕ × ℕ) → Value
unfolding source_value
resolved_value ctx (ok found) = source_value ctx.sources found.0 found.1
resolved_value ctx (err _) = value_null ft_text

unfoldable pub eval_column : RowCtx → Option Name → Name → Value
unfolding resolved_value
eval_column ctx qual name = resolved_value ctx (resolve_column ctx qual name)

abbrev pub param_value : Option Value → Value
param_value none = value_null ft_text
param_value (some v) = v

abbrev pub is_int_kind : FieldType → Bool
is_int_kind ft_int = true
is_int_kind _ = false

abbrev pub is_double_kind : FieldType → Bool
is_double_kind ft_double = true
is_double_kind _ = false

-- `-d` turns the sign bit over.
abbrev pub negate_double : ℕ → ℕ
negate_double d = (d + 2 ^ 63) % word

unfoldable pub negate : Value → Value
negate v =
    if v.is_null
    then v
    else if is_int_kind v.kind
    then value_int ((word - int_of v.content) % word)
    else value_double (negate_double (double_of v.content))

-- The number as a double.
abbrev pub number_as_double : Value → ℕ
number_as_double v =
    if is_int_kind v.kind then int_to_double (int_of v.content) else double_of v.content

abbrev pub double_result : DoubleOps → BinaryOp → ℕ → ℕ → ℕ
double_result f op_add x y = f.add x y
double_result f op_sub x y = f.sub x y
double_result f _ x y = f.mul x y

-- In `uint64_t`, back to the pattern of an `int64_t`.
abbrev pub int_result : BinaryOp → ℕ → ℕ → ℕ
int_result op_add x y = (x + y) % word
int_result op_sub x y = (x + word - y) % word
int_result _ x y = x * y % word

unfoldable pub eval_arith : DoubleOps → BinaryOp → Value → Value → Value
eval_arith f op l r =
    if l.is_null || r.is_null
    then value_null ft_double
    else if is_div_op op
    then value_double (f.div (number_as_double l) (number_as_double r))
    else if is_double_kind l.kind || is_double_kind r.kind
    then value_double (double_result f op (number_as_double l) (number_as_double r))
    else value_int (int_result op (int_of l.content) (int_of r.content))

-- A binary operator on the truth values and the values of its operands.
unfoldable pub binary_tri : DoubleOps → BinaryOp → Tri → Tri → Value → Value → Tri
unfolding eval_comparison eval_arith
binary_tri f op_and tl tr l r = and_tri tl tr
binary_tri f op_or tl tr l r = or_tri tl tr
binary_tri f op_eq tl tr l r = eval_comparison op_eq l r
binary_tri f op_ne tl tr l r = eval_comparison op_ne l r
binary_tri f op_lt tl tr l r = eval_comparison op_lt l r
binary_tri f op_le tl tr l r = eval_comparison op_le l r
binary_tri f op_gt tl tr l r = eval_comparison op_gt l r
binary_tri f op_ge tl tr l r = eval_comparison op_ge l r
binary_tri f op tl tr l r = value_to_tri (eval_arith f op l r)

unfoldable pub binary_value : DoubleOps → BinaryOp → Tri → Tri → Value → Value → Value
unfolding binary_tri eval_arith
binary_value f op tl tr l r =
    if is_arith_op op then eval_arith f op l r else tri_to_value (binary_tri f op tl tr l r)

-- A column, a parameter and a negation are evaluated to a value in both; NOT, AND, OR and the
-- comparisons to a truth value in both.
module _ (f : DoubleOps) where
  unfoldable mutual
    unfolding eval_column negate binary_tri binary_value

    pub eval_tri : Expr → RowCtx → Tri
    eval_tri (expr_lit_bool v) ctx = tri_of v
    eval_tri (expr_column qual name) ctx = value_to_tri (eval_column ctx qual name)
    eval_tri (expr_param i) ctx = value_to_tri (param_value (bound_param ctx.params i))
    eval_tri (expr_neg e) ctx = value_to_tri (negate (eval_value e ctx))
    eval_tri (expr_not e) ctx = not_tri (eval_tri e ctx)
    eval_tri (expr_binary op left right) ctx =
        binary_tri f op (eval_tri left ctx) (eval_tri right ctx) (eval_value left ctx)
          (eval_value right ctx)
    eval_tri _ ctx = tri_unknown

    pub eval_value : Expr → RowCtx → Value
    eval_value (expr_column qual name) ctx = eval_column ctx qual name
    eval_value (expr_lit_int v) ctx = value_int v
    eval_value (expr_lit_double v) ctx = value_double v
    eval_value (expr_lit_bool v) ctx = value_bool v
    eval_value (expr_lit_string v) ctx = value_text v
    eval_value expr_lit_null ctx = value_null ft_text
    eval_value (expr_param i) ctx = param_value (bound_param ctx.params i)
    eval_value (expr_neg e) ctx = negate (eval_value e ctx)
    eval_value (expr_not e) ctx = tri_to_value (not_tri (eval_tri e ctx))
    eval_value (expr_binary op left right) ctx =
        binary_value f op (eval_tri left ctx) (eval_tri right ctx) (eval_value left ctx)
          (eval_value right ctx)
