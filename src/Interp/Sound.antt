-- ===== src/Interp/Sound.antt =====
-- The static check of c/src/interp.c is sound for its evaluator: no row yields a value of another
-- type than the one that was inferred.
use db.Prelude.{
  ℕ, zero, suc, ◌≡◌, ◌⊎◌, inl, inr, refl, subst, Bool, true, false, Option, some, List, [], ◌∷◌,
  arith, Bool-cases, Option-cases, get_elem?,
}
use db.Value.{
  Value, FieldType, ft_int, ft_double, ft_bool, ft_text, ft_err, value_int, value_double,
  value_bool, value_text, value_null,
}
use db.Table.{Table, Name, column_at, null_test}
use db.Table.Cells.{read_column, read_cell}
use db.Interp.{
  Expr, expr_column, expr_lit_int, expr_lit_double, expr_lit_string, expr_lit_bool, expr_lit_null,
  expr_not, expr_neg, expr_binary, expr_param, BinaryOp, op_add, op_sub, op_mul, op_div,
  ExprValueType, etype_int, etype_double, etype_bool, etype_string, etype_null,
  field_type_to_expr_type, is_arith_op, RowSource, RowCtx, Result, ok, err, ◌>>=◌,
}
use db.Interp.Names.{resolve_column}
use db.Interp.Types.{
  infer_expr_type, source_type, bound_param, param_type, neg_type, not_type, is_div_op, is_logic_op,
  binary_type, logic_type, arith_type, comparison_type,
}
use db.Interp.Eval.{
  DoubleOps, Tri, tri_false, tri_true, tri_unknown, tri_to_value, not_tri, eval_tri, eval_value,
  eval_column, resolved_value, source_value, param_value, negate, eval_arith, binary_tri,
  binary_value,
}

abbrev pub IsA : ExprValueType → Value → Type 0
IsA etype_int v = (n : ℕ) × (v ≡ value_int n)
IsA etype_double v = (d : ℕ) × (v ≡ value_double d)
IsA etype_bool v = (b : Bool) × (v ≡ value_bool b)
IsA etype_string v = (s : List ℕ) × (v ≡ value_text s)
IsA etype_null v = ⊥

-- NULL, or a value of the type.
abbrev pub HasType : ExprValueType → Value → Type 0
HasType ty v = (v.is_null ≡ true) ⊎ IsA ty v

-- The bound values hold what their kinds say.
abbrev pub AreBound : List Value → Type 0
AreBound [] = Unit
AreBound (v ∷ vs) = HasType (field_type_to_expr_type v.kind) v × AreBound vs

read_cell-HasType :
    (t : Table) (row col : ℕ) (k : FieldType)
    → HasType (field_type_to_expr_type k) (read_cell t row col k)
unfolding read_cell
read_cell-HasType t row col ft_int = inr (_, refl)
read_cell-HasType t row col ft_double = inr (_, refl)
read_cell-HasType t row col ft_bool = inr (_, refl)
read_cell-HasType t row col ft_text = inr (_, refl)
read_cell-HasType t row col ft_err = inl refl

read_column-HasType :
    (t : Table) (row col : ℕ)
    → HasType (field_type_to_expr_type (column_at t col).kind) (read_column t row col)
unfolding read_column
read_column-HasType t row col = elim (Bool-cases (null_test t col row)) [
  | inl null ↦ rw null (inl refl)
  | inr kept ↦ rw kept (read_cell-HasType t row col (column_at t col).kind)
]

source_value-HasType :
    (ss : List RowSource) (src col : ℕ)
    → HasType (field_type_to_expr_type (source_type ss src col)) (source_value ss src col)
unfolding source_type source_value
source_value-HasType [] src col = inl refl
source_value-HasType (s ∷ ss) zero col = read_column-HasType s.table s.row col
source_value-HasType (s ∷ ss) (suc src) col = source_value-HasType ss src col

bound-HasType :
    (params : List Value) (i : ℕ) (v : Value)
    → AreBound params
    → get_elem? params i ≡ some v
    → HasType (field_type_to_expr_type v.kind) v
bound-HasType [] i v h e = cc
bound-HasType (p ∷ ps) zero v h e =
    let same : p ≡ v = cc in
    subst (λ (w : Value). HasType (field_type_to_expr_type w.kind) w) same h.0
bound-HasType (p ∷ ps) (suc i) v h e = bound-HasType ps i v h.1 e

-- The result of a successful step, taken apart.
pub step_ok :
    {A B : Type 0} (step : Result A) (rest : A → Result B) {last : B}
    → (step >>= rest) ≡ ok last
    → (got : A) × (step ≡ ok got) × (rest got ≡ ok last)
step_ok (err x) rest done = cc
step_ok (ok got) rest done = (got, refl, done)

ok_inj : {a b : ExprValueType} → ok a ≡ ok b → a ≡ b
ok_inj e = cc

as_type : {a b : ExprValueType} (v : Value) → ok a ≡ ok b → HasType a v → HasType b v
as_type v e h = subst (λ t. HasType t v) (ok_inj e) h

as_kind : {a b : ExprValueType} (v : Value) → ok a ≡ ok b → IsA a v → IsA b v
as_kind v e h = subst (λ t. IsA t v) (ok_inj e) h

bound_value :
    (v : Value) (ty : ExprValueType)
    → HasType (field_type_to_expr_type v.kind) v
    → param_type 1 (some v) ≡ ok ty
    → HasType ty v
bound_value v ty h e = elim (Bool-cases v.is_null) [
  | inl null ↦ inl null
  | inr kept ↦ as_type _ (rw kept at e) h
]

param-HasType :
    (params : List Value) (i : ℕ) (ty : ExprValueType)
    → AreBound params
    → param_type i (bound_param params i) ≡ ok ty
    → HasType ty (param_value (bound_param params i))
param-HasType params zero ty h e = cc
param-HasType params (suc i) ty h e = elim (Option-cases (get_elem? params i)) [
  | inl missing ↦ absurd (cc (rw missing at e))
  | inr (v, is) ↦ rw is (bound_value v ty (bound-HasType params i v h is) (rw is at e))
]

tri-HasType : (t : Tri) → HasType etype_bool (tri_to_value t)
tri-HasType tri_unknown = inl refl
tri-HasType tri_true = inr (_, refl)
tri-HasType tri_false = inr (_, refl)

negate-null : (v : Value) → v.is_null ≡ true → negate v ≡ v
unfolding negate
negate-null v null = ground arith

negate-HasType :
    (operand ty : ExprValueType) (v : Value)
    → neg_type operand ≡ ok ty
    → HasType operand v
    → HasType ty (negate v)
unfolding negate
negate-HasType operand ty v e (inl null) = rw (negate-null v null) (inl null)
negate-HasType etype_int ty v e (inr (n, is)) = as_type _ e (rw is (inr (_, refl)))
negate-HasType etype_double ty v e (inr (n, is)) = as_type _ e (rw is (inr (_, refl)))
negate-HasType etype_bool ty v e h = cc
negate-HasType etype_string ty v e h = cc
negate-HasType etype_null ty v e (inr h) = absurd h

eval_arith-null :
    (f : DoubleOps) (op : BinaryOp) (l r : Value)
    → (l.is_null ≡ true) ⊎ (r.is_null ≡ true)
    → eval_arith f op l r ≡ value_null ft_double
unfolding eval_arith
eval_arith-null f op l r h = ground arith

arith-IsA :
    (f : DoubleOps) (op : BinaryOp) (a b ty : ExprValueType) (l r : Value)
    → arith_type op a b ≡ ok ty
    → IsA a l
    → IsA b r
    → IsA ty (eval_arith f op l r)
unfolding arith_type eval_arith
arith-IsA f op etype_int etype_int ty l r e (m, p) (n, q) = elim (Bool-cases (is_div_op op)) [
  | inl div ↦ as_kind _ (rw div at e) (rw (p, q, div) (_, refl))
  | inr other ↦ as_kind _ (rw other at e) (rw (p, q, other) (_, refl))
]
arith-IsA f op etype_int etype_double ty l r e (m, p) (n, q) = elim (Bool-cases (is_div_op op)) [
  | inl div ↦ as_kind _ (rw div at e) (rw (p, q, div) (_, refl))
  | inr other ↦ as_kind _ (rw other at e) (rw (p, q, other) (_, refl))
]
arith-IsA f op etype_int etype_bool ty l r e hl hr = cc
arith-IsA f op etype_int etype_string ty l r e hl hr = cc
arith-IsA f op etype_double etype_int ty l r e (m, p) (n, q) = elim (Bool-cases (is_div_op op)) [
  | inl div ↦ as_kind _ (rw div at e) (rw (p, q, div) (_, refl))
  | inr other ↦ as_kind _ (rw other at e) (rw (p, q, other) (_, refl))
]
arith-IsA f op etype_double etype_double ty l r e (m, p) (n, q) = elim (Bool-cases (is_div_op op)) [
  | inl div ↦ as_kind _ (rw div at e) (rw (p, q, div) (_, refl))
  | inr other ↦ as_kind _ (rw other at e) (rw (p, q, other) (_, refl))
]
arith-IsA f op etype_double etype_bool ty l r e hl hr = cc
arith-IsA f op etype_double etype_string ty l r e hl hr = cc
arith-IsA f op etype_bool b ty l r e hl hr = cc
arith-IsA f op etype_string b ty l r e hl hr = cc
arith-IsA f op etype_null b ty l r e hl hr = absurd hl
arith-IsA f op a etype_null ty l r e hl hr = absurd hr

eval_arith-HasType :
    (f : DoubleOps) (op : BinaryOp) (a b ty : ExprValueType) (l r : Value)
    → arith_type op a b ≡ ok ty
    → HasType a l
    → HasType b r
    → HasType ty (eval_arith f op l r)
eval_arith-HasType f op a b ty l r e (inl null) hr =
    rw (eval_arith-null f op l r (inl null)) (inl refl)
eval_arith-HasType f op a b ty l r e hl (inl null) =
    rw (eval_arith-null f op l r (inr null)) (inl refl)
eval_arith-HasType f op a b ty l r e (inr hl) (inr hr) = inr (arith-IsA f op a b ty l r e hl hr)

comparison-bool : (a b ty : ExprValueType) → comparison_type a b ≡ ok ty → ty ≡ etype_bool
unfolding comparison_type
comparison-bool a b ty e = ground arith

logic-bool : (op : BinaryOp) (a b ty : ExprValueType) → logic_type op a b ≡ ok ty → ty ≡ etype_bool
unfolding logic_type
logic-bool op a b ty e = ground arith

arith_only :
    (op : BinaryOp) (a b ty : ExprValueType)
    → is_arith_op op ≡ true
    → binary_type op a b ≡ ok ty
    → arith_type op a b ≡ ok ty
unfolding binary_type
arith_only op_add a b ty h e = e
arith_only op_sub a b ty h e = e
arith_only op_mul a b ty h e = e
arith_only op_div a b ty h e = e
arith_only _ a b ty h e = cc

bool_only :
    (op : BinaryOp) (a b ty : ExprValueType)
    → is_arith_op op ≡ false
    → binary_type op a b ≡ ok ty
    → ty ≡ etype_bool
unfolding binary_type
bool_only op a b ty h e = elim (Bool-cases (is_logic_op op)) [
  | inl logic ↦ logic-bool op a b ty (rw logic at e)
  | inr compared ↦ comparison-bool a b ty (rw (compared, h) at e)
]

binary-HasType :
    (f : DoubleOps) (op : BinaryOp) (a b ty : ExprValueType) (tl tr : Tri) (l r : Value)
    → binary_type op a b ≡ ok ty
    → HasType a l
    → HasType b r
    → HasType ty (binary_value f op tl tr l r)
unfolding binary_type binary_value
binary-HasType f op a b ty tl tr l r e hl hr = elim (Bool-cases (is_arith_op op)) [
  | inl arith_op ↦
      rw arith_op (eval_arith-HasType f op a b ty l r (arith_only op a b ty arith_op e) hl hr)
  | inr other ↦ rw (other, bool_only op a b ty other e) (tri-HasType (binary_tri f op tl tr l r))
]

not-bool : (operand ty : ExprValueType) → not_type operand ≡ ok ty → ty ≡ etype_bool
not-bool operand ty e = ground arith

column-HasType :
    (ctx : RowCtx) (qual : Option Name) (name : Name) (ty : ExprValueType)
    → infer_expr_type (expr_column qual name) ctx ≡ ok ty
    → HasType ty (eval_column ctx qual name)
unfolding infer_expr_type eval_column resolved_value
column-HasType ctx qual name ty e =
    let ((src, col), found, typed) = step_ok (resolve_column ctx qual name) _ e in
    rw found (as_type _ typed (source_value-HasType ctx.sources src col))

module _ (f : DoubleOps) where
  pub infer_sound :
      (e : Expr) (ctx : RowCtx) (ty : ExprValueType)
      → AreBound ctx.params
      → infer_expr_type e ctx ≡ ok ty
      → HasType ty (eval_value f e ctx)
  unfolding infer_expr_type eval_value
  infer_sound (expr_column qual name) ctx ty h e = column-HasType ctx qual name ty e
  infer_sound (expr_lit_int v) ctx ty h e = as_type _ e (inr (_, refl))
  infer_sound (expr_lit_double v) ctx ty h e = as_type _ e (inr (_, refl))
  infer_sound (expr_lit_bool v) ctx ty h e = as_type _ e (inr (_, refl))
  infer_sound (expr_lit_string v) ctx ty h e = as_type _ e (inr (_, refl))
  infer_sound expr_lit_null ctx ty h e = inl refl
  infer_sound (expr_param i) ctx ty h e = param-HasType ctx.params i ty h e
  infer_sound (expr_not e0) ctx ty h e =
      let (operand, inner, outer) = step_ok (infer_expr_type e0 ctx) _ e in
      rw (not-bool operand ty outer) (tri-HasType (not_tri (eval_tri f e0 ctx)))
  infer_sound (expr_neg e0) ctx ty h e =
      let (operand, inner, outer) = step_ok (infer_expr_type e0 ctx) _ e in
      negate-HasType operand ty _ outer (infer_sound e0 ctx operand h inner)
  infer_sound (expr_binary op left right) ctx ty h e =
      let (a, ea, rest) = step_ok (infer_expr_type left ctx) _ e in
      let (b, eb, both) = step_ok (infer_expr_type right ctx) _ rest in
      binary-HasType f op a b ty _ _ _ _ both (infer_sound left ctx a h ea)
        (infer_sound right ctx b h eb)
