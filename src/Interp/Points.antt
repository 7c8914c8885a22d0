-- ===== src/Interp/Points.antt =====
-- Constants and point lookups of c/src/interp.c: `expr_has_column_ref`, `find_pk_equality` and
-- `find_join_pk_equality`.
use db.Prelude.{
  Bool, true, false, not, ◌&&◌, ◌||◌, Option, none, some, List, [], ◌∷◌, if◌then◌else◌,
}
use db.Value.{Value, FieldType}
use db.Table.{Name, bytes_eq}
use db.Table.Keys.{same_type}
use db.Interp.{
  Expr, expr_column, expr_not, expr_neg, expr_binary, BinaryOp, op_eq, op_and, RowSource, RowCtx,
}
use db.Interp.Eval.{DoubleOps, eval_value}

unfoldable pub expr_has_column_ref : Expr → Bool
expr_has_column_ref (expr_column qual name) = true
expr_has_column_ref (expr_not e) = expr_has_column_ref e
expr_has_column_ref (expr_neg e) = expr_has_column_ref e
expr_has_column_ref (expr_binary op left right) =
    expr_has_column_ref left || expr_has_column_ref right
expr_has_column_ref _ = false

abbrev pub is_and_op : BinaryOp → Bool
is_and_op op_and = true
is_and_op _ = false

abbrev pub is_eq_op : BinaryOp → Bool
is_eq_op op_eq = true
is_eq_op _ = false

abbrev pub is_column : Expr → Bool
is_column (expr_column qual name) = true
is_column _ = false

abbrev first_alias : List RowSource → Name
first_alias [] = []
first_alias (s ∷ ss) = s.alias

abbrev pub alias_fits : Option Name → Name → Bool
alias_fits none alias = true
alias_fits (some table) alias = bytes_eq table alias

-- Whether the column side names the key.
unfoldable pub names_key : Expr → RowCtx → Name → Bool
names_key (expr_column qual name) ctx pk_name =
    alias_fits qual (first_alias ctx.sources) && bytes_eq name pk_name
names_key _ ctx pk_name = false

abbrev pub key_value : Value → FieldType → Option Value
key_value v pk_type =
    if v.is_null then none else if not (same_type v.kind pk_type) then none else some v

abbrev pub or_else {ℓ} : {A : Type ℓ} → Option A → Option A → Option A
or_else none b = b
or_else (some a) b = some a

module _ (f : DoubleOps) where
  -- `col_side = const_side`
  unfoldable pub key_sides : Expr → Expr → RowCtx → Name → FieldType → Option Value
  unfolding names_key
  key_sides col_side const_side ctx pk_name pk_type =
      if not (names_key col_side ctx pk_name)
      then none
      else key_value (eval_value f const_side ctx) pk_type

  unfoldable pub key_equality : Expr → Expr → RowCtx → Name → FieldType → Option Value
  unfolding key_sides expr_has_column_ref
  key_equality left right ctx pk_name pk_type =
      if is_column left && not (expr_has_column_ref right)
      then key_sides left right ctx pk_name pk_type
      else if is_column right && not (expr_has_column_ref left)
      then key_sides right left ctx pk_name pk_type
      else none

  -- `*out`, where the answer is true.
  unfoldable pub find_pk_equality : Expr → RowCtx → Name → FieldType → Option Value
  unfolding key_equality
  find_pk_equality (expr_binary op left right) ctx pk_name pk_type =
      let in_left = find_pk_equality left ctx pk_name pk_type in
      let in_right = find_pk_equality right ctx pk_name pk_type in
      if is_and_op op
      then or_else in_left in_right
      else if not (is_eq_op op)
      then none
      else key_equality left right ctx pk_name pk_type
  find_pk_equality _ ctx pk_name pk_type = none

-- The column of the joined table that is its key.
unfoldable pub names_inner_key : Expr → Name → Name → Bool
names_inner_key (expr_column (some table) name) inner_alias pk_name =
    bytes_eq table inner_alias && bytes_eq name pk_name
names_inner_key _ inner_alias pk_name = false

unfoldable pub find_join_pk_equality : Expr → Name → Name → Option Expr
unfolding names_inner_key
find_join_pk_equality (expr_binary op left right) inner_alias pk_name =
    let in_left = find_join_pk_equality left inner_alias pk_name in
    let in_right = find_join_pk_equality right inner_alias pk_name in
    if is_and_op op
    then or_else in_left in_right
    else if not (is_eq_op op)
    then none
    else if names_inner_key left inner_alias pk_name
    then some right
    else if names_inner_key right inner_alias pk_name
    then some left
    else none
find_join_pk_equality _ inner_alias pk_name = none
