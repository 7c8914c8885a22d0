-- ===== src/Wal/Payload.antt =====
-- The payload of a row's frame, encoded and applied: `encode_row` and `apply_row_payload` of
-- c/src/wal.c.
use db.Prelude.{
  ℕ, ◌+◌, ◌*◌, ◌/◌, ◌%◌, ◌^◌, ◌<◌, ◌≡◌, inl, inr, refl, sym, ap, ◌∙◌, Bool, true, false, not, some,
  List, [], ◌∷◌, ◌++◌, ltb, ◌==◌, length, length-append, if◌then◌else◌, arith, Bool-cases,
}
use db.Index.{RowRef}
use db.Value.{FieldType, ft_int, ft_double, ft_bool, ft_text, ft_err}
use db.Table.{Table, Column}
use db.Table.Rows.{table_is_null, table_set_null, table_undelete_row}
use db.Table.Cells.{
  table_get_int, table_get_double, table_get_bool, table_get_text, table_set_int, table_set_double,
  table_set_bool, table_set_text,
}
use db.Wal.{u32_bytes, u64_bytes, encode_cell, encode_cells, encode_row}
use db.Wal.Replay.{
  read_u32, read_u8, read_u64, read_sized, put_int, put_double, put_text, apply_cell, apply_marked,
  after_cell, apply_cells, apply_row_payload, ◌>>=◌,
}
use db.Wal.Frames.{u32_value, take_exact, drop_exact}

-- A cell set to the value that another table has there.
copy_value : Table → Table → RowRef → ℕ → FieldType → Table
copy_value from t row col ft_int = table_set_int t row col (table_get_int from row col)
copy_value from t row col ft_double = table_set_double t row col (table_get_double from row col)
copy_value from t row col ft_bool = table_set_bool t row col (table_get_bool from row col)
copy_value from t row col ft_text = table_set_text t row col (table_get_text from row col)
copy_value from t row col ft_err = t

copy_cell : Table → Table → RowRef → ℕ → FieldType → Table
copy_cell from t row col kind =
    if table_is_null from row col then table_set_null t row col else copy_value from t row col kind

-- The cells of a row, from a column on, set to those of another table.
pub copy_cells : Table → Table → RowRef → ℕ → List Column → Table
unfolding copy_cell copy_value
copy_cells from t row col [] = t
copy_cells from t row col (c ∷ cs) =
    copy_cells from (copy_cell from t row col c.kind) row (col + 1) cs

-- The value fits the bytes that it is encoded in.
abbrev pub FitsCell : Table → RowRef → ℕ → FieldType → Type 0
FitsCell t row col ft_int = table_get_int t row col < 2 ^ 64
FitsCell t row col ft_double = table_get_double t row col < 2 ^ 64
FitsCell t row col ft_bool = Unit
FitsCell t row col ft_text = length (table_get_text t row col) < 2 ^ 32
FitsCell t row col ft_err = Unit

abbrev pub FitsCells : Table → RowRef → ℕ → List Column → Type 0
FitsCells t row col [] = Unit
FitsCells t row col (c ∷ cs) = FitsCell t row col c.kind × FitsCells t row (col + 1) cs

read_u64-u64_bytes :
    (n : ℕ) (rest : List ℕ) → n < 2 ^ 64 → read_u64 (u64_bytes n ++ rest) ≡ some (n, rest)
unfolding read_u64 read_u32
read_u64-u64_bytes n rest h =
    let low = u32_value (n % 2 ^ 32) (omega arith) in
    let high = u32_value (n / 2 ^ 32) (omega arith) in
    let parts : n % 2 ^ 32 + n / 2 ^ 32 * 2 ^ 32 ≡ n = omega arith in
    (λ i. some (low i + high i * 2 ^ 32, rest)) ∙ ap (λ m. some (m, rest)) parts

read_sized-encoded :
    (s rest : List ℕ)
    → length s < 2 ^ 32
    → read_sized ((u32_bytes (length s % 2 ^ 32) ++ s) ++ rest) ≡ some (s, rest)
unfolding read_sized read_u32
read_sized-encoded s rest h =
    let fits : length s % 2 ^ 32 ≡ length s = omega arith in
    let enough : ltb (length (s ++ rest)) (length s) ≡ false =
      ground (arith, length-append s rest) in
    rw
      (
        u32_value (length s % 2 ^ 32) (omega arith),
        fits,
        enough,
        take_exact s rest,
        drop_exact s rest,
      )
      refl

bool_byte : (b : Bool) → not ((if b then 1 else 0) == 0) ≡ b
bool_byte true = refl
bool_byte false = refl

apply_cell-encode_cell :
    (t u : Table) (row : RowRef) (col : ℕ) (kind : FieldType) (rest : List ℕ)
    → FitsCell t row col kind
    → apply_cell u row col kind (encode_cell t row col kind ++ rest)
      ≡ some (copy_value t u row col kind, rest)
unfolding apply_cell encode_cell copy_value read_u8
apply_cell-encode_cell t u row col ft_int rest h =
    ap (λ got. got >>= put_int u row col) (read_u64-u64_bytes (table_get_int t row col) rest h)
apply_cell-encode_cell t u row col ft_double rest h =
    ap (λ got. got >>= put_double u row col)
      (read_u64-u64_bytes (table_get_double t row col) rest h)
apply_cell-encode_cell t u row col ft_bool rest h =
    ap (λ b. some (table_set_bool u row col b, rest)) (bool_byte (table_get_bool t row col))
apply_cell-encode_cell t u row col ft_text rest h =
    ap (λ got. got >>= put_text u row col) (read_sized-encoded (table_get_text t row col) rest h)
apply_cell-encode_cell t u row col ft_err rest h = refl

-- Columns of the same types.
abbrev pub SameKinds : List Column → List Column → Type 0
SameKinds [] [] = Unit
SameKinds [] (d ∷ ds) = ⊥
SameKinds (c ∷ cs) [] = ⊥
SameKinds (c ∷ cs) (d ∷ ds) = (c.kind ≡ d.kind) × SameKinds cs ds

apply_cells-encode_cells :
    (t u : Table) (row : RowRef) (col : ℕ) (cs ds : List Column)
    → SameKinds cs ds
    → FitsCells t row col cs
    → apply_cells ds col row u (encode_cells t row col cs) ≡ (true, copy_cells t u row col cs)
unfolding apply_cells encode_cells copy_cells copy_cell apply_marked
apply_cells-encode_cells t u row col [] [] same fits = refl
apply_cells-encode_cells t u row col [] (d ∷ ds) same fits = absurd same
apply_cells-encode_cells t u row col (c ∷ cs) [] same fits = absurd same
apply_cells-encode_cells t u row col (c ∷ cs) (d ∷ ds) (kind, same) fits =
    elim (Bool-cases (table_is_null t row col)) [
      | inl null ↦
          rw null
            (apply_cells-encode_cells t (table_set_null u row col) row (col + 1) cs ds same fits.1)
      | inr kept ↦ rw kept (
          ap (after_cell (apply_cells ds (col + 1) row) u) (
            ap
              (λ k.
                apply_cell u row col k
                  (encode_cell t row col c.kind ++ encode_cells t row (col + 1) cs))
              (sym kind)
            ∙ apply_cell-encode_cell t u row col c.kind (encode_cells t row (col + 1) cs) fits.0)
          ∙ apply_cells-encode_cells t (copy_value t u row col c.kind) row (col + 1) cs ds same
              fits.1)
    ]

-- The payload of a row, applied to the row of a table with columns of the same types, revives the
-- row and sets each of its cells to the encoded one's value, NULL where that is NULL, by the setter
-- of the column's type. Its numbers must fit 64 bits, and the lengths of its texts 32.
pub apply_row_payload-encode_row :
    (t u : Table) (row : RowRef)
    → SameKinds t.columns u.columns
    → FitsCells t row 0 t.columns
    → apply_row_payload u row (encode_row t row)
      ≡ (true, copy_cells t (table_undelete_row u row) row 0 t.columns)
unfolding apply_row_payload encode_row
apply_row_payload-encode_row t u row same fits =
    apply_cells-encode_cells t (table_undelete_row u row) row 0 t.columns u.columns same fits
