-- ===== src/Interp/Constant.antt =====
-- An expression of c/src/interp.c without a column reference has one value on every row.
use db.Prelude.{◌≡◌, refl, ap, Bool, false, ◌||◌, arith}
use db.Interp.{
  Expr, expr_column, expr_lit_int, expr_lit_double, expr_lit_string, expr_lit_bool, expr_lit_null,
  expr_not, expr_neg, expr_binary, expr_param, RowCtx,
}
use db.Interp.Types.{bound_param}
use db.Interp.Eval.{DoubleOps, eval_tri, eval_value, param_value, value_to_tri, negate}
use db.Interp.Points.{expr_has_column_ref}

neither : (a b : Bool) → (a || b) ≡ false → (a ≡ false) × (b ≡ false)
neither a b h = ground arith

module _ (f : DoubleOps) (ctx at : RowCtx) (same : ctx.params ≡ at.params) where
  mutual
    unfolding expr_has_column_ref eval_tri eval_value

    constant_tri : (e : Expr) → expr_has_column_ref e ≡ false → eval_tri f e ctx ≡ eval_tri f e at
    constant_tri (expr_column qual name) h = cc
    constant_tri (expr_lit_int v) h = refl
    constant_tri (expr_lit_double v) h = refl
    constant_tri (expr_lit_bool v) h = refl
    constant_tri (expr_lit_string v) h = refl
    constant_tri expr_lit_null h = refl
    constant_tri (expr_param i) h = ap (λ ps. value_to_tri (param_value (bound_param ps i))) same
    constant_tri (expr_neg e) h = ap (λ v. value_to_tri (negate v)) (constant_value e h)
    constant_tri (expr_not e) h = rw (constant_tri e h) refl
    constant_tri (expr_binary op left right) h =
        let (l, r) = neither _ _ h in
        rw
          (constant_tri left l, constant_tri right r, constant_value left l, constant_value right r)
          refl

    constant_value :
        (e : Expr) → expr_has_column_ref e ≡ false → eval_value f e ctx ≡ eval_value f e at
    constant_value (expr_column qual name) h = cc
    constant_value (expr_lit_int v) h = refl
    constant_value (expr_lit_double v) h = refl
    constant_value (expr_lit_bool v) h = refl
    constant_value (expr_lit_string v) h = refl
    constant_value expr_lit_null h = refl
    constant_value (expr_param i) h = ap (λ ps. param_value (bound_param ps i)) same
    constant_value (expr_neg e) h = ap negate (constant_value e h)
    constant_value (expr_not e) h = rw (constant_tri e h) refl
    constant_value (expr_binary op left right) h =
        let (l, r) = neither _ _ h in
        rw
          (constant_tri left l, constant_tri right r, constant_value left l, constant_value right r)
          refl

-- An expression for which `expr_has_column_ref` answers false has the same value, and the same truth value,
-- in any two contexts with the same bound parameters, whatever their tables and rows.
pub expr_has_column_ref-constant :
    (f : DoubleOps) (e : Expr) (ctx at : RowCtx)
    → ctx.params ≡ at.params
    → expr_has_column_ref e ≡ false
    → (eval_value f e ctx ≡ eval_value f e at) × (eval_tri f e ctx ≡ eval_tri f e at)
expr_has_column_ref-constant f e ctx at same h =
    (constant_value f ctx at same e h, constant_tri f ctx at same e h)
