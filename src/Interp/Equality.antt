-- ===== src/Interp/Equality.antt =====
-- What `find_pk_equality` of c/src/interp.c finds: where the condition holds at a row, the row's key
-- compares as equal with the value that was found.
use db.Prelude.{
  ℕ, ◌≡◌, ◌⊎◌, inl, inr, refl, sym, ap, subst, ◌∙◌, Bool, true, false, not, ◌&&◌, Option, none,
  some, List, [], ◌∷◌, if◌then◌else◌, arith, Bool-cases,
}
use db.Value.{Value, FieldType, Sign, same, less, greater, compare_values}
use db.Table.{Name, bytes_eq}
use db.Table.Columns.{table_find_column}
use db.Table.Cells.{read_column}
use db.Table.Keys.{same_type}
use db.Table.Lookup.{bytes_eq_sound}
use db.Catalog.Lookup.{bytes_eq_refl}
use db.Interp.{Expr, expr_column, expr_binary, op_eq, op_and, RowCtx, ok}
use db.Interp.Names.{resolve_column, resolve_qualified, resolve_unqualified}
use db.Interp.Eval.{
  DoubleOps, Tri, tri_true, tri_false, tri_unknown, and_tri, eval_comparison, compares, binary_tri,
  eval_tri, eval_value, eval_column, resolved_value, source_value,
}
use db.Interp.Checks.{col_name}
use db.Interp.Points.{
  expr_has_column_ref, is_column, names_key, key_value, key_sides, key_equality, find_pk_equality,
  or_else,
}
use db.Interp.Constant.{expr_has_column_ref-constant}
use db.Interp.Select.{From, at_rows, at_no_rows}

-- A value of the key's type that compares as equal with the key, on one side or the other, and
-- the key is not NULL.
pub record IsKeyValue (kind : FieldType) (key v : Value) : Type 0 where
  pub typed : same_type v.kind kind ≡ true
  pub not_null : key.is_null ≡ false
  pub equal : (compare_values key v ≡ same) ⊎ (compare_values v key ≡ same)

and_true : (a b : Tri) → and_tri a b ≡ tri_true → (a ≡ tri_true) × (b ≡ tri_true)
and_true tri_true b h = (refl, h)
and_true tri_false b h = cc
and_true tri_unknown tri_true h = cc
and_true tri_unknown tri_false h = cc
and_true tri_unknown tri_unknown h = cc

equal_signs : (s : Sign) → compares op_eq s ≡ true → s ≡ same
unfolding compares
equal_signs less h = cc
equal_signs same h = refl
equal_signs greater h = cc

equality_true :
    (l r : Value)
    → eval_comparison op_eq l r ≡ tri_true
    → (l.is_null ≡ false) × (r.is_null ≡ false) × (compare_values l r ≡ same)
unfolding eval_comparison
equality_true l r h = ground (arith, equal_signs (compare_values l r))

both_true : (a b : Bool) → (a && b) ≡ true → (a ≡ true) × (b ≡ true)
both_true a b h = ground arith

some_or : (a b : Option Value) (v : Value) → or_else a b ≡ some v → (a ≡ some v) ⊎ (b ≡ some v)
some_or none b v h = inr h
some_or (some a) b v h = inl h

pub true_negation : (b : Bool) → not b ≡ true → b ≡ false
true_negation b h = ground arith

subst2 : {a b c d : Value} → a ≡ c → b ≡ d → compare_values a b ≡ same → compare_values c d ≡ same
subst2 p q e = cc

passed :
    (null typed : Bool) (w v : Value)
    → (if null then none else if not typed then none else some w) ≡ some v
    → (w ≡ v) × (typed ≡ true)
passed true typed w v e = cc
passed false true w v e = (cc, refl)
passed false false w v e = cc

key_value-eq :
    (w v : Value) (kind : FieldType)
    → key_value w kind ≡ some v
    → (w ≡ v) × (same_type v.kind kind ≡ true)
key_value-eq w v kind e =
    let (eq, typed) = passed _ _ w v e in
    (eq, subst (λ (x : Value). same_type x.kind kind ≡ true) eq typed)

-- A query of one table, without rows and at a row.
module _ (f : DoubleOps) (first : From) (pk r : ℕ) (params : List Value) where
  abbrev pub no_row : RowCtx
  no_row = record { sources = at_no_rows (first ∷ []); params = params }

  abbrev pub at_row : RowCtx
  at_row = record { sources = at_rows (first ∷ []) (r ∷ []); params = params }

  abbrev pub key : Value
  key = read_column first.table r pk

  abbrev pub pk_name : Name
  pk_name = col_name first.table pk

  module _ (named : table_find_column first.table pk_name ≡ some pk) where
    key_column :
        (qual : Option Name) (name : Name)
        → names_key (expr_column qual name) no_row pk_name ≡ true
        → eval_column at_row qual name ≡ key
    unfolding names_key at_no_rows at_rows eval_column resolved_value source_value resolve_column
        resolve_unqualified resolve_qualified
    key_column none name h =
        let found : table_find_column first.table name ≡ some pk =
          subst (λ n. table_find_column first.table n ≡ some pk)
            (sym (bytes_eq_sound name pk_name h)) named in
        let resolved : resolve_unqualified (at_rows (first ∷ []) (r ∷ [])) 0 name none
            ≡ ok (0, pk) =
          rw (resolve_unqualified, found) refl in
        ap (resolved_value at_row) resolved
    key_column (some table) name h =
        let (alias, column) = both_true _ _ h in
        let found : table_find_column first.table name ≡ some pk =
          subst (λ n. table_find_column first.table n ≡ some pk)
            (sym (bytes_eq_sound name pk_name column)) named in
        let here : bytes_eq first.name table ≡ true =
          subst (λ n. bytes_eq first.name n ≡ true) (sym (bytes_eq_sound table first.name alias))
            (bytes_eq_refl first.name) in
        rw (here, found) refl

    -- The column's side is the key, and the other side is the value.
    sides_sound :
        (col_side const_side : Expr) (kind : FieldType) (v : Value)
        → is_column col_side ≡ true
        → expr_has_column_ref const_side ≡ false
        → key_sides f col_side const_side no_row pk_name kind ≡ some v
        → (eval_value f col_side at_row ≡ key)
          × (eval_value f const_side at_row ≡ v)
          × (same_type v.kind kind ≡ true)
    unfolding key_sides eval_value
    sides_sound (expr_column qual name) const_side kind v c k e =
        elim (Bool-cases (names_key (expr_column qual name) no_row pk_name)) [
          | inr other ↦ absurd (cc (rw (key_sides, other) at e))
          | inl names ↦
              let (same_value, typed) = key_value-eq _ v kind (rw (key_sides, names) at e) in
              (
                key_column qual name names,
                sym (expr_has_column_ref-constant f const_side no_row at_row refl k).0 ∙ same_value,
                typed,
              )
        ]
    sides_sound _ const_side kind v c k e = cc

    equality_sound :
        (left right : Expr) (kind : FieldType) (v : Value)
        → key_equality f left right no_row pk_name kind ≡ some v
        → eval_comparison op_eq (eval_value f left at_row) (eval_value f right at_row) ≡ tri_true
        → IsKeyValue kind key v
    unfolding key_equality
    equality_sound left right kind v e h =
        let (l, r0, eq) = equality_true _ _ h in
        elim (Bool-cases (is_column left && not (expr_has_column_ref right))) [
          | inl first_side ↦
              let (c, k) = both_true _ _ first_side in
              let (is_key, is_value, typed) =
                sides_sound left right kind v c (true_negation _ k) (rw first_side at e) in
              record {
                typed = typed;
                not_null = subst (λ (w : Value). w.is_null ≡ false) is_key l;
                equal = inl (subst2 is_key is_value eq);
              }
          | inr other ↦ elim (Bool-cases (is_column right && not (expr_has_column_ref left))) [
            | inl second_side ↦
                let (c, k) = both_true _ _ second_side in
                let (is_key, is_value, typed) =
                  sides_sound right left kind v c (true_negation _ k)
                    (rw (other, second_side) at e) in
                record {
                  typed = typed;
                  not_null = subst (λ (w : Value). w.is_null ≡ false) is_key r0;
                  equal = inr (subst2 is_value is_key eq);
                }
            | inr neither ↦ absurd (cc (rw (other, neither) at e))
          ]
        ]

    pub find_sound :
        (e : Expr) (kind : FieldType) (v : Value)
        → find_pk_equality f e no_row pk_name kind ≡ some v
        → eval_tri f e at_row ≡ tri_true
        → IsKeyValue kind key v
    unfolding find_pk_equality eval_tri binary_tri
    find_sound (expr_binary op_and left right) kind v e h =
        let (l, r0) = and_true _ _ h in
        elim (some_or _ _ v e) [
          | inl in_left ↦ find_sound left kind v in_left l
          | inr in_right ↦ find_sound right kind v in_right r0
        ]
    find_sound (expr_binary op_eq left right) kind v e h = equality_sound left right kind v e h
    find_sound _ kind v e h = cc
