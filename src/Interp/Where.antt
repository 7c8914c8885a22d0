-- ===== src/Interp/Where.antt =====
-- The check of an expression in c/src/interp.c does not depend on the rows that the expression is
-- evaluated at, so that what it infers once holds of every row.
use db.Prelude.{
  ℕ, zero, suc, ◌≡◌, inl, inr, refl, ap, sym, ◌+◌, ◌∙◌, Option, none, some, List, [], ◌∷◌,
  Option-cases,
}
use db.Table.{Name, column_at}
use db.Interp.{
  Expr, expr_column, expr_lit_int, expr_lit_double, expr_lit_string, expr_lit_bool, expr_lit_null,
  expr_not, expr_neg, expr_binary, expr_param, ExprValueType, field_type_to_expr_type, RowSource,
  RowCtx, Result, ok, err, ◌>>=◌,
}
use db.Interp.Names.{resolve_column, resolve_qualified, resolve_unqualified}
use db.Interp.Types.{infer_expr_type, source_type, bound_param, param_type}
use db.Interp.Eval.{DoubleOps, eval_value}
use db.Table.Columns.{table_find_column}
use db.Interp.Sound.{AreBound, HasType, infer_sound}

-- The same tables under the same names, at other rows.
abbrev pub SameTables : List RowSource → List RowSource → Type 0
SameTables [] [] = Unit
SameTables [] (y ∷ ys) = ⊥
SameTables (x ∷ xs) [] = ⊥
SameTables (x ∷ xs) (y ∷ ys) = (x.alias ≡ y.alias) × (x.table ≡ y.table) × SameTables xs ys

qualified_rows :
    (xs ys : List RowSource) (i : ℕ) (qual name : Name)
    → SameTables xs ys
    → resolve_qualified xs i qual name ≡ resolve_qualified ys i qual name
unfolding resolve_qualified
qualified_rows [] [] i qual name h = refl
qualified_rows [] (y ∷ ys) i qual name h = absurd h
qualified_rows (x ∷ xs) [] i qual name h = absurd h
qualified_rows (x ∷ xs) (y ∷ ys) i qual name h =
    rw (h.0, h.1, qualified_rows xs ys (i + 1) qual name h.2) refl

unqualified_rows :
    (xs ys : List RowSource) (i : ℕ) (name : Name) (found : Option (ℕ × ℕ))
    → SameTables xs ys
    → resolve_unqualified xs i name found ≡ resolve_unqualified ys i name found
unfolding resolve_unqualified
unqualified_rows [] [] i name found h = refl
unqualified_rows [] (y ∷ ys) i name found h = absurd h
unqualified_rows (x ∷ xs) [] i name found h = absurd h
unqualified_rows (x ∷ xs) (y ∷ ys) i name none h =
    elim (Option-cases (table_find_column y.table name)) [
      | inl missing ↦
          rw (resolve_unqualified, ap (λ t. table_find_column t name) h.1 ∙ missing, missing)
            (unqualified_rows xs ys (i + 1) name none h.2)
      | inr (col, is) ↦
          rw (resolve_unqualified, ap (λ t. table_find_column t name) h.1 ∙ is, is)
            (unqualified_rows xs ys (i + 1) name (some (i, col)) h.2)
    ]
unqualified_rows (x ∷ xs) (y ∷ ys) i name (some first) h =
    elim (Option-cases (table_find_column y.table name)) [
      | inl missing ↦
          rw (resolve_unqualified, ap (λ t. table_find_column t name) h.1 ∙ missing, missing)
            (unqualified_rows xs ys (i + 1) name (some first) h.2)
      | inr (col, is) ↦
          rw (resolve_unqualified, ap (λ t. table_find_column t name) h.1 ∙ is, is) refl
    ]

source_type_rows :
    (xs ys : List RowSource) (src col : ℕ)
    → SameTables xs ys
    → source_type xs src col ≡ source_type ys src col
unfolding source_type
source_type_rows [] [] src col h = refl
source_type_rows [] (y ∷ ys) src col h = absurd h
source_type_rows (x ∷ xs) [] src col h = absurd h
source_type_rows (x ∷ xs) (y ∷ ys) zero col h = ap (λ t. (column_at t col).kind) h.1
source_type_rows (x ∷ xs) (y ∷ ys) (suc src) col h = source_type_rows xs ys src col h.2

resolve_rows :
    (ctx at : RowCtx) (qual : Option Name) (name : Name)
    → SameTables ctx.sources at.sources
    → resolve_column ctx qual name ≡ resolve_column at qual name
unfolding resolve_column
resolve_rows ctx at none name h = unqualified_rows ctx.sources at.sources 0 name none h
resolve_rows ctx at (some qual) name h = qualified_rows ctx.sources at.sources 0 qual name h

column_rows :
    (xs ys : List RowSource) (found : Result (ℕ × ℕ))
    → SameTables xs ys
    → (found >>= λ c. ok (field_type_to_expr_type (source_type xs c.0 c.1)))
      ≡ (found >>= λ c. ok (field_type_to_expr_type (source_type ys c.0 c.1)))
column_rows xs ys (ok c) h =
    ap (λ k. ok (field_type_to_expr_type k)) (source_type_rows xs ys c.0 c.1 h)
column_rows xs ys (err e) h = refl

infer_rows :
    (e : Expr) (ctx at : RowCtx)
    → SameTables ctx.sources at.sources
    → ctx.params ≡ at.params
    → infer_expr_type e ctx ≡ infer_expr_type e at
unfolding infer_expr_type
infer_rows (expr_column qual name) ctx at h p =
    rw (resolve_rows ctx at qual name h)
      (column_rows ctx.sources at.sources (resolve_column at qual name) h)
infer_rows (expr_lit_int v) ctx at h p = refl
infer_rows (expr_lit_double v) ctx at h p = refl
infer_rows (expr_lit_bool v) ctx at h p = refl
infer_rows (expr_lit_string v) ctx at h p = refl
infer_rows expr_lit_null ctx at h p = refl
infer_rows (expr_param i) ctx at h p = ap (λ ps. param_type i (bound_param ps i)) p
infer_rows (expr_not e) ctx at h p = rw (infer_rows e ctx at h p) refl
infer_rows (expr_neg e) ctx at h p = rw (infer_rows e ctx at h p) refl
infer_rows (expr_binary op left right) ctx at h p =
    rw (infer_rows left ctx at h p, infer_rows right ctx at h p) refl

-- Where `infer_expr_type` gives an expression a type on the tables of a query, and the bound
-- parameters hold what their kinds say, the expression's value at any rows of these tables is NULL
-- or of that type; an expression of type `etype_null` is NULL at every row.
pub infer_expr_type_sound :
    (f : DoubleOps) (e : Expr) (ctx at : RowCtx) (ty : ExprValueType)
    → SameTables ctx.sources at.sources
    → ctx.params ≡ at.params
    → AreBound at.params
    → infer_expr_type e ctx ≡ ok ty
    → HasType ty (eval_value f e at)
infer_expr_type_sound f e ctx at ty h p bound typed =
    infer_sound f e at ty bound (sym (infer_rows e ctx at h p) ∙ typed)
