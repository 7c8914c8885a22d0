-- ===== src/Interp/Keys.antt =====
-- Keys of the types whose equal values have equal hashes, for the point lookups of c/src/interp.c.
use db.Prelude.{ℕ, ◌≡◌, inl, inr, refl, ◌∙◌, false, Bool-cases}
use db.Value.Hash.{IsNumber, doubles_hash, text_hash}
use db.Table.Matching.{same_type_sound}
use db.Value.{Value, ft_text, ft_double, double_of, value_hash}
use db.Table.{Table, column_at, null_test}
use db.Table.Cells.{read_column}
use db.Interp.Scan.{IsLive}
use db.Interp.Equality.{IsKeyValue}

-- A key that compares as equal with the value has its hash.
abbrev pub IsExactKey : Table → ℕ → Value → Type 0
IsExactKey t pk v =
    (r : ℕ)
    → IsLive t r
    → IsKeyValue (column_at t pk).kind (read_column t r pk) v
    → value_hash (read_column t r pk) ≡ value_hash v

read_text :
    (t : Table) (r pk : ℕ) → (column_at t pk).kind ≡ ft_text → (read_column t r pk).kind ≡ ft_text
unfolding read_column
read_text t r pk k = elim (Bool-cases (null_test t pk r)) [
  | inl null ↦ rw (read_column, null) k
  | inr kept ↦ rw (read_column, kept, k) refl
]

-- Texts that compare as equal are the same bytes.
pub text-IsExactKey :
    (t : Table) (pk : ℕ) (v : Value) → (column_at t pk).kind ≡ ft_text → IsExactKey t pk v
text-IsExactKey t pk v k r live kv =
    text_hash _ v (read_text t r pk k) (same_type_sound _ _ kv.typed ∙ k) kv.equal

read_double :
    (t : Table) (r pk : ℕ)
    → (column_at t pk).kind ≡ ft_double
    → (read_column t r pk).kind ≡ ft_double
unfolding read_column
read_double t r pk k = elim (Bool-cases (null_test t pk r)) [
  | inl null ↦ rw (read_column, null) k
  | inr kept ↦ rw (read_column, kept, k) refl
]

-- Doubles that compare as equal have the same hash, where neither the value nor a live row's key is a
-- NaN.
pub double-IsExactKey :
    (t : Table) (pk : ℕ) (v : Value)
    → (column_at t pk).kind ≡ ft_double
    → IsNumber (double_of v.content)
    → ((r : ℕ)
        → IsLive t r
        → (read_column t r pk).is_null ≡ false
        → IsNumber (double_of (read_column t r pk).content))
    → IsExactKey t pk v
double-IsExactKey t pk v k number numbers r live kv =
    doubles_hash _ v (read_double t r pk k) (same_type_sound _ _ kv.typed ∙ k)
      (numbers r live kv.not_null) number kv.equal
