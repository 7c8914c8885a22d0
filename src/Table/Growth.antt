-- ===== src/Table/Growth.antt =====
-- `table_grow` of c/src/table.c: the arrays get room for the new capacity and keep their contents.
use db.Prelude.{
  ℕ, zero, suc, ◌+◌, ◌-◌, ◌/◌, ◌<◌, ◌≤◌, ◌≡◌, inl, inr, refl, ap, ◌∙◌, true, List, [], ◌∷◌, ◌++◌,
  length, get_or, set, replicate, arith, Bool-cases, length-append, length-replicate, length-set,
  get_or-set_ne, get_or-replicate,
}
use db.Arena.{Arena, arena_grow}
use db.Bitmap.{test_bit, set_bit}
use db.Bitmap.Laws.{test_bit-set_ne, length-set_bit}
use db.Table.{Column, zero_cell, no_column}
use db.Table.Rows.{regrow, grow_cells, grow_columns, grow_nulls, blank_row}

get_or-grown :
    {A : Type 0} (xs : List A) (n i : ℕ) (d : A) → get_or (xs ++ replicate n d) i d ≡ get_or xs i d
get_or-grown [] n i d = get_or-replicate n i d
get_or-grown (x ∷ xs) n zero d = refl
get_or-grown (x ∷ xs) n (suc i) d = get_or-grown xs n i d

pub get_or-regrow :
    {A : Type 0} (xs : List A) (n i : ℕ) (d : A) → get_or (regrow xs n d) i d ≡ get_or xs i d
get_or-regrow xs n i d = get_or-grown xs (n - length xs) i d

pub length-regrow :
    {A : Type 0} (xs : List A) (n : ℕ) (d : A)
    → length (regrow xs n d) ≡ length xs + (n - length xs)
length-regrow xs n d = length-append xs _ ∙ ap (λ k. length xs + k) (length-replicate _ d)

pub test_bit-regrow : (xs : List ℕ) (n i : ℕ) → test_bit (regrow xs n 0) i ≡ test_bit xs i
unfolding test_bit
test_bit-regrow xs n i = rw (get_or-regrow xs n (i / 8) 0) refl

-- `d` has the rows of `c` below `n`, and no less room.
pub record Kept (n : ℕ) (c d : Column) : Type 0 where
  pub kind : d.kind ≡ c.kind
  pub cells :
      (i : ℕ) → i < n → get_or d.cells i (zero_cell d.kind) ≡ get_or c.cells i (zero_cell c.kind)
  pub nulls : (i : ℕ) → i < n → test_bit d.nulls i ≡ test_bit c.nulls i
  pub cell_room : length c.cells ≤ length d.cells
  pub null_room : length c.nulls ≤ length d.nulls

Kept-refl : (n : ℕ) (c : Column) → Kept n c c
Kept-refl n c = record {
  kind = refl;
  cells = λ i h. refl;
  nulls = λ i h. refl;
  cell_room = omega arith;
  null_room = omega arith;
}

-- Column by column.
pub data AllKept (n : ℕ) : List Column → List Column → Type 0 where
  no_columns : AllKept n [] []
  columns :
      (c d : Column) (cs ds : List Column)
      → Kept n c d
      → AllKept n cs ds
      → AllKept n (c ∷ cs) (d ∷ ds)

pub AllKept-refl : (n : ℕ) (cs : List Column) → AllKept n cs cs
AllKept-refl n [] = no_columns
AllKept-refl n (c ∷ cs) = columns c c cs cs (Kept-refl n c) (AllKept-refl n cs)

pub AllKept-at :
    (n : ℕ) (cs ds : List Column) (i : ℕ)
    → AllKept n cs ds
    → Kept n (get_or cs i no_column) (get_or ds i no_column)
AllKept-at n _ _ i no_columns = Kept-refl n no_column
AllKept-at n _ _ zero (columns c d cs ds k x) = k
AllKept-at n _ _ (suc i) (columns c d cs ds k x) = AllKept-at n cs ds i x

pub AllKept-length : (n : ℕ) (cs ds : List Column) → AllKept n cs ds → length ds ≡ length cs
AllKept-length n _ _ no_columns = refl
AllKept-length n _ _ (columns c d cs ds k x) = ap suc (AllKept-length n cs ds x)

Kept-trans : (n : ℕ) (c d e : Column) → Kept n c d → Kept n d e → Kept n c e
Kept-trans n c d e x y = record {
  kind = y.kind ∙ x.kind;
  cells = λ i h. y.cells i h ∙ x.cells i h;
  nulls = λ i h. y.nulls i h ∙ x.nulls i h;
  cell_room = let a = x.cell_room in let b = y.cell_room in omega arith;
  null_room = let a = x.null_room in let b = y.null_room in omega arith;
}

pub AllKept-trans :
    (n : ℕ) (cs ds es : List Column) → AllKept n cs ds → AllKept n ds es → AllKept n cs es
AllKept-trans n _ _ _ no_columns no_columns = no_columns
AllKept-trans n _ _ _ (columns c d cs ds k x) (columns _ e _ es l y) =
    columns c e cs es (Kept-trans n c d e k l) (AllKept-trans n cs ds es x y)

-- Every column has room for `cells` cells and `bytes` bytes of NULL marks.
unfoldable pub HasRoom : ℕ → ℕ → List Column → Type 0
HasRoom cells bytes [] = Unit {0}
HasRoom cells bytes (c ∷ cs) =
    (cells ≤ length c.cells) × (bytes ≤ length c.nulls) × HasRoom cells bytes cs

pub HasRoom-kept :
    (n cells bytes : ℕ) (cs ds : List Column)
    → AllKept n cs ds
    → HasRoom cells bytes cs
    → HasRoom cells bytes ds
unfolding HasRoom
HasRoom-kept n cells bytes _ _ no_columns r = tt
HasRoom-kept n cells bytes _ _ (columns c d cs ds k x) (a, b, r) =
    let more = k.cell_room in
    let wide = k.null_room in (omega arith, omega arith, HasRoom-kept n cells bytes cs ds x r)

regrown-cells :
    (n new_cap : ℕ) (c : Column)
    → Kept n c (record c { cells = regrow c.cells new_cap (zero_cell c.kind) })
regrown-cells n new_cap c = record {
  kind = refl;
  cells = λ i h. get_or-regrow c.cells new_cap i (zero_cell c.kind);
  nulls = λ i h. refl;
  cell_room = let e = length-regrow c.cells new_cap (zero_cell c.kind) in omega arith;
  null_room = omega arith;
}

regrown-nulls : (n bytes : ℕ) (c : Column) → Kept n c (record c { nulls = regrow c.nulls bytes 0 })
regrown-nulls n bytes c = record {
  kind = refl;
  cells = λ i h. refl;
  nulls = λ i h. test_bit-regrow c.nulls bytes i;
  cell_room = omega arith;
  null_room = let e = length-regrow c.nulls bytes 0 in omega arith;
}

pub grow_columns-AllKept :
    (n : ℕ) (a : Arena) (row_cap new_cap : ℕ) (cs : List Column)
    → AllKept n cs (grow_columns a row_cap new_cap cs).2
unfolding grow_columns
grow_columns-AllKept n a row_cap new_cap [] = no_columns
grow_columns-AllKept n a row_cap new_cap (c ∷ cs) =
    let grown = grow_cells a row_cap new_cap c.kind in
    elim (Bool-cases grown.0) [
      | inl granted ↦ rw granted (
          columns c _ cs _ (regrown-cells n new_cap c)
            (grow_columns-AllKept n grown.1 row_cap new_cap cs))
      | inr refused ↦ rw refused (AllKept-refl n (c ∷ cs))
    ]

pub grow_columns-HasRoom :
    (bytes : ℕ) (a : Arena) (row_cap new_cap old : ℕ) (cs : List Column)
    → HasRoom old bytes cs
    → (grow_columns a row_cap new_cap cs).0 ≡ true
    → HasRoom new_cap bytes (grow_columns a row_cap new_cap cs).2
unfolding grow_columns HasRoom
grow_columns-HasRoom bytes a row_cap new_cap old [] r h = tt
grow_columns-HasRoom bytes a row_cap new_cap old (c ∷ cs) (x, y, r) h =
    let grown = grow_cells a row_cap new_cap c.kind in
    elim (Bool-cases grown.0) [
      | inl granted ↦
          let e = length-regrow c.cells new_cap (zero_cell c.kind) in
          rw granted (
            omega arith,
            y,
            grow_columns-HasRoom bytes grown.1 row_cap new_cap old cs r (rw granted at h),
          )
      | inr refused ↦ absurd (cc (rw refused at h))
    ]

pub grow_nulls-AllKept :
    (n : ℕ) (a : Arena) (bytes : ℕ) (cs : List Column) → AllKept n cs (grow_nulls a bytes cs).2
unfolding grow_nulls
grow_nulls-AllKept n a bytes [] = no_columns
grow_nulls-AllKept n a bytes (c ∷ cs) =
    let grown = arena_grow a bytes 1 in
    elim (Bool-cases grown.0) [
      | inl granted ↦
          rw granted
            (columns c _ cs _ (regrown-nulls n bytes c) (grow_nulls-AllKept n grown.1 bytes cs))
      | inr refused ↦ rw refused (AllKept-refl n (c ∷ cs))
    ]

pub grow_nulls-HasRoom :
    (cells old : ℕ) (a : Arena) (bytes : ℕ) (cs : List Column)
    → HasRoom cells old cs
    → (grow_nulls a bytes cs).0 ≡ true
    → HasRoom cells bytes (grow_nulls a bytes cs).2
unfolding grow_nulls HasRoom
grow_nulls-HasRoom cells old a bytes [] r h = tt
grow_nulls-HasRoom cells old a bytes (c ∷ cs) (x, y, r) h =
    let grown = arena_grow a bytes 1 in
    elim (Bool-cases grown.0) [
      | inl granted ↦
          let e = length-regrow c.nulls bytes 0 in
          rw granted
            (x, omega arith, grow_nulls-HasRoom cells old grown.1 bytes cs r (rw granted at h))
      | inr refused ↦ absurd (cc (rw refused at h))
    ]

blanked :
    (n : ℕ) (c : Column)
    → Kept n c (record c { cells = set c.cells n (zero_cell c.kind); nulls = set_bit c.nulls n })
blanked n c = record {
  kind = refl;
  cells = λ i h. get_or-set_ne c.cells n i (zero_cell c.kind) (zero_cell c.kind) (λ e. omega arith);
  nulls = λ i h. test_bit-set_ne c.nulls n i (λ e. omega arith);
  cell_room = let e = length-set c.cells n (zero_cell c.kind) in omega arith;
  null_room = let e = length-set_bit c.nulls n in omega arith;
}

pub blank_row-AllKept : (n : ℕ) (cs : List Column) → AllKept n cs (blank_row n cs)
unfolding blank_row
blank_row-AllKept n [] = no_columns
blank_row-AllKept n (c ∷ cs) = columns c _ cs _ (blanked n c) (blank_row-AllKept n cs)
