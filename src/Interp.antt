-- ===== src/Interp.antt =====
-- The expressions of c/include/ast.h and the row contexts of c/src/interp.c, with the errors that
-- its checks report. An error keeps what its message names; a result is what a check hands out.
pub mod Names
pub mod Types
pub mod Eval
pub mod Sound
pub mod Where
pub mod Checks
pub mod Constraints
pub mod Points
pub mod Constant
pub mod Select
pub mod Scan
pub mod Group
pub mod Equality
pub mod Keys
pub mod Kept
pub mod Lookup
use db.Prelude.{ℕ, Bool, true, false, Option, List}
use db.Index.{RowRef}
use db.Value.{Value, FieldType, ft_int, ft_double, ft_bool, ft_text, ft_err}
use db.Table.{Table, Name}

pub data BinaryOp : Type 0 where
  op_eq op_ne op_lt op_le op_gt op_ge op_and op_or op_add op_sub op_mul op_div : BinaryOp

-- A column has a qualifier or none; a parameter is numbered from 1.
pub data Expr : Type 0 where
  expr_column : Option Name → Name → Expr
  expr_lit_int : ℕ → Expr
  expr_lit_double : ℕ → Expr
  expr_lit_string : List ℕ → Expr
  expr_lit_bool : Bool → Expr
  expr_lit_null : Expr
  expr_not : Expr → Expr
  expr_neg : Expr → Expr
  expr_binary : BinaryOp → Expr → Expr → Expr
  expr_param : ℕ → Expr

pub data ExprValueType : Type 0 where
  etype_int etype_double etype_bool etype_string etype_null : ExprValueType

abbrev pub field_type_to_expr_type : FieldType → ExprValueType
field_type_to_expr_type ft_int = etype_int
field_type_to_expr_type ft_double = etype_double
field_type_to_expr_type ft_bool = etype_bool
field_type_to_expr_type ft_text = etype_string
field_type_to_expr_type ft_err = etype_null

abbrev pub is_numeric : ExprValueType → Bool
is_numeric etype_int = true
is_numeric etype_double = true
is_numeric _ = false

abbrev pub is_arith_op : BinaryOp → Bool
is_arith_op op_add = true
is_arith_op op_sub = true
is_arith_op op_mul = true
is_arith_op op_div = true
is_arith_op _ = false

pub record JoinClause : Type 0 where
  pub table : Name
  pub on : Expr

pub data AggFunc : Type 0 where
  agg_count agg_sum agg_avg : AggFunc

-- A column with its qualifier, or an aggregate, which reads the `agg_` fields only.
pub record SelectItem : Type 0 where
  pub is_agg : Bool
  pub table : Option Name
  pub column : Name
  pub agg_func : AggFunc
  pub agg_arg_is_star : Bool
  pub agg_arg_table : Option Name
  pub agg_arg_column : Name

pub record GroupBy : Type 0 where
  pub table : Option Name
  pub column : Name

pub record OrderBy : Type 0 where
  pub table : Option Name
  pub column : Name
  pub desc : Bool

-- No items stand for `*`, and the limit is an `int64_t`.
pub record SelectStmt : Type 0 where
  pub items : Option (List SelectItem)
  pub table : Name
  pub joins : List JoinClause
  pub condition : Option Expr
  pub group_by : List GroupBy
  pub order_by : Option OrderBy
  pub limit : Option ℕ

-- One table of a query, at a row.
pub record RowSource : Type 0 where
  pub alias : Name
  pub table : Table
  pub row : RowRef

pub record RowCtx : Type 0 where
  pub sources : List RowSource
  pub params : List Value

pub data InterpError : Type 0 where
  no_column : Option Name → Name → InterpError
  no_table : Name → InterpError
  ambiguous : Name → ℕ → ℕ → InterpError
  not_bound : ℕ → InterpError
  not_requires_bool : ExprValueType → InterpError
  neg_requires_numeric : ExprValueType → InterpError
  requires_bools : BinaryOp → ExprValueType → ExprValueType → InterpError
  requires_numerics : BinaryOp → ExprValueType → ExprValueType → InterpError
  cannot_compare : ExprValueType → ExprValueType → InterpError
  where_not_bool : ExprValueType → InterpError
  wrong_type : Name → FieldType → FieldType → InterpError
  pk_null : Name → InterpError
  pk_duplicate : Name → InterpError
  fk_not_found : Name → Name → Name → InterpError
  row_referenced : Name → Name → InterpError
  too_many_tables : InterpError
  self_join : Name → InterpError
  on_not_bool : ExprValueType → InterpError
  column_repeated : Name → InterpError
  value_count : ℕ → ℕ → ℕ → InterpError
  column_in_values : ℕ → InterpError
  star_grouped : InterpError
  not_grouped : Name → InterpError
  agg_requires_numeric : AggFunc → FieldType → InterpError
  join_grouped : InterpError
  order_grouped : InterpError
  out_of_memory : InterpError

-- What a check answers.
pub data Result {ℓ} (A : Type ℓ) : Type ℓ where
  err : InterpError → Result A
  ok : A → Result A

infixl 1 ◌>>=◌
abbrev pub ◌>>=◌ {ℓ κ} : {A : Type ℓ} {B : Type κ} → Result A → (A → Result B) → Result B
err problem >>= next = err problem
ok got >>= next = next got
