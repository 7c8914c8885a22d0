-- ===== src/Csv.antt =====
-- c/include/csv.h and c/src/csv.c: reading CSV, and `write_csv_field` of c/src/load.c. The data is
-- bytes, and the reader stands before the bytes that are left. What sds and realloc answer is a
-- parameter: whether the scratch string can take a number of bytes, and the field arrays an index.
pub mod Fields
pub mod Rows
use db.Prelude.{
  ℕ, zero, suc, ◌+◌, ◌*◌, ◌/◌, ◌^◌, ◌-◌, Bool, true, false, not, ◌&&◌, ◌||◌, List, [], ◌∷◌, ◌++◌,
  leb, ltb, ◌==◌, length, if◌then◌else◌, get_or, drop,
}
use db.Prelude.Bits.{size_max}
use db.Arena.{Arena, arena_alloc}

pub data FieldStatus : Type 0 where
  field_ok field_unterminated field_bad_trailing field_too_large field_nomem : FieldStatus

pub data CsvStatus : Type 0 where
  csv_ok csv_eof csv_err csv_nomem : CsvStatus

abbrev pub csv_max_field_len : ℕ
csv_max_field_len = 2 ^ 20

abbrev pub quote : ℕ
quote = 34

abbrev pub ends_field : ℕ → Bool
ends_field c = (c == 44) || ((c == 13) || (c == 10))

-- What a field's bytes gave: the text, the bytes that are left, and the line ends passed.
pub record Field : Type 0 where
  pub status : FieldStatus
  pub text : List ℕ
  pub left : List ℕ
  pub lines : ℕ

abbrev pub stop : FieldStatus → List ℕ → Field
stop status left = record { status = status; text = []; left = left; lines = 0 }

abbrev pub and_lines : ℕ → Field → Field
and_lines n f = record f { lines = n + f.lines }

abbrev pub with_byte : ℕ → Field → Field
with_byte c f = record f { text = c ∷ f.text }

-- The bytes after the line end, which is one byte or "\r\n".
unfoldable pub after_line : ℕ → List ℕ → List ℕ
after_line c [] = []
after_line c (d ∷ cs) = if (c == 13) && (d == 10) then cs else d ∷ cs

-- `resync_to_next_row`: the bytes that are left and the lines passed.
unfoldable pub resync : Bool → List ℕ → List ℕ × ℕ
unfolding after_line
resync in_quotes [] = ([], 0)
resync in_quotes (c ∷ cs) = elim (c == quote) [
  | true ↦ resync (not in_quotes) cs
  | false ↦ elim (not in_quotes && ((c == 13) || (c == 10))) [
    | true ↦ (after_line c cs, 1)
    | false ↦ ((resync in_quotes cs).0, (if c == 10 then 1 else 0) + (resync in_quotes cs).1)
  ]
]

unfoldable pub resynced : FieldStatus → Bool → List ℕ → Field
unfolding resync
resynced status in_quotes left = record {
  status = status;
  text = [];
  left = (resync in_quotes left).0;
  lines = (resync in_quotes left).1;
}

-- After the closing quote.
unfoldable pub after_quote : List ℕ → Field
unfolding resynced
after_quote [] = stop field_ok []
after_quote (c ∷ cs) =
    if ends_field c then stop field_ok (c ∷ cs) else resynced field_bad_trailing false (c ∷ cs)

module _ (grows : ℕ → Bool) where
  -- The text of a quoted field, of which `n` bytes are in the scratch string.
  unfoldable pub read_quoted : ℕ → List ℕ → Field
  unfolding after_quote resynced
  read_quoted n [] = stop field_unterminated []
  read_quoted n (c ∷ []) = elim (c == quote) [
    | true ↦ after_quote []
    | false ↦ and_lines (if c == 10 then 1 else 0) (elim (grows (n + 1)) [
      | false ↦ stop field_nomem (c ∷ [])
      | true ↦
          if ltb csv_max_field_len (n + 1)
          then resynced field_too_large true []
          else with_byte c (stop field_unterminated [])
    ])
  ]
  read_quoted n (c ∷ d ∷ cs) = elim (c == quote) [
    | true ↦ elim (d == quote) [
      | false ↦ after_quote (d ∷ cs)
      | true ↦ elim (grows (n + 1)) [
        | false ↦ stop field_nomem (c ∷ d ∷ cs)
        | true ↦ elim (ltb csv_max_field_len (n + 1)) [
          | true ↦ resynced field_too_large true cs
          | false ↦ with_byte quote (read_quoted (n + 1) cs)
        ]
      ]
    ]
    | false ↦ and_lines (if c == 10 then 1 else 0) (elim (grows (n + 1)) [
      | false ↦ stop field_nomem (c ∷ d ∷ cs)
      | true ↦ elim (ltb csv_max_field_len (n + 1)) [
        | true ↦ resynced field_too_large true (d ∷ cs)
        | false ↦ with_byte c (read_quoted (n + 1) (d ∷ cs))
      ]
    ])
  ]

  unfoldable pub read_unquoted : ℕ → List ℕ → Field
  unfolding resynced
  read_unquoted n [] = stop field_ok []
  read_unquoted n (c ∷ cs) = elim (ends_field c) [
    | true ↦ stop field_ok (c ∷ cs)
    | false ↦ elim (grows (n + 1)) [
      | false ↦ stop field_nomem (c ∷ cs)
      | true ↦ elim (ltb csv_max_field_len (n + 1)) [
        | true ↦ resynced field_too_large false cs
        | false ↦ with_byte c (read_unquoted (n + 1) cs)
      ]
    ]
  ]

  -- Whether the field is quoted, and the field. The scratch string is there.
  unfoldable pub read_field : List ℕ → Bool × Field
  unfolding read_quoted read_unquoted
  read_field [] = (false, read_unquoted 0 [])
  read_field (c ∷ cs) =
      if c == quote then (true, read_quoted 0 cs) else (false, read_unquoted 0 (c ∷ cs))

unfoldable pub csv_field_needs_quotes : List ℕ → Bool
csv_field_needs_quotes [] = false
csv_field_needs_quotes (c ∷ cs) =
    ((c == 44) || ((c == quote) || ((c == 10) || (c == 13)))) || csv_field_needs_quotes cs

unfoldable pub doubled_quotes : List ℕ → List ℕ
doubled_quotes [] = []
doubled_quotes (c ∷ cs) =
    let more = doubled_quotes cs in if c == quote then quote ∷ (quote ∷ more) else c ∷ more

-- The bytes that `write_csv_field` writes, where no write fails.
unfoldable pub write_csv_field : List ℕ → List ℕ
unfolding csv_field_needs_quotes doubled_quotes
write_csv_field s =
    if not (csv_field_needs_quotes s) then s else quote ∷ (doubled_quotes s ++ (quote ∷ []))

unfoldable pub has_utf8_bom : List ℕ → Bool
has_utf8_bom data_ =
    leb 3 (length data_)
    && ((get_or data_ 0 0 == 239) && ((get_or data_ 1 0 == 187) && (get_or data_ 2 0 == 191)))

-- `left` are the bytes from `pos` on; `messages` are the lines of the errors set.
pub record CsvReader : Type 0 where
  pub left : List ℕ
  pub line : ℕ
  pub n_cols : ℕ
  pub field_cap : ℕ
  pub err_line : ℕ

unfoldable pub csv_reader_init : List ℕ → CsvReader
unfolding has_utf8_bom
csv_reader_init data_ = record {
  left = if has_utf8_bom data_ then drop 3 data_ else data_;
  line = 1;
  n_cols = 0;
  field_cap = 0;
  err_line = 0;
}

unfoldable pub set_err : CsvReader → ℕ → CsvReader
set_err r line = record r { err_line = line }

-- `push_field`: the arrays have room for the index or grow, and the field's bytes are allocated.
unfoldable pub grow_fields : CsvReader → Bool → ℕ → Bool × CsvReader
grow_fields r granted idx =
    let new_cap = if r.field_cap == 0 then 8 else r.field_cap * 2 in
    if leb r.field_cap idx
    then (if ltb (size_max / 8) new_cap || not granted
        then (false, r)
        else (true, record r { field_cap = new_cap }))
    else (true, r)

unfoldable pub push_field : CsvReader → Arena → Bool → ℕ → ℕ → Bool × CsvReader × Arena
unfolding grow_fields
push_field r a granted idx len =
    let (room, s) = grow_fields r granted idx in
    let (allocated, b) = arena_alloc a (len + 1) 1 in
    if room then (allocated, s, b) else (false, s, a)

abbrev pub is_field_ok : FieldStatus → Bool
is_field_ok field_ok = true
is_field_ok _ = false

abbrev pub row_status : FieldStatus → CsvStatus
row_status field_nomem = csv_nomem
row_status _ = csv_err

-- The fields of a row with the status so far.
pub record Row : Type 0 where
  pub status : CsvStatus
  pub fields : List (List ℕ × Bool)
  pub reader : CsvReader
  pub arena : Arena

abbrev pub row_of : CsvStatus → CsvReader → Arena → Row
row_of status r a = record { status = status; fields = []; reader = r; arena = a }

abbrev pub with_field : List ℕ × Bool → Row → Row
with_field f row = record row { fields = f ∷ row.fields }

-- A field that could not be read: `set_err` with the row's first line, but for want of memory.
unfoldable pub failed_row : FieldStatus → CsvReader → Arena → ℕ → Row
unfolding set_err
failed_row field_nomem r a line = row_of csv_nomem r a
failed_row status r a line = row_of (row_status status) (set_err r line) a

-- What ends a field: the end of the data, a comma with more of the row after it, or a line end.
unfoldable pub after_field : (List ℕ → Row) → CsvReader → Arena → List ℕ → Row
unfolding after_line
after_field more r a [] = row_of csv_ok r a
after_field more r a (c ∷ cs) =
    if c == 44
    then more cs
    else row_of csv_ok (record r { left = after_line c cs; line = r.line + 1 }) a

-- The row by what came of the field and of its place in the arrays.
unfoldable pub row_by : Bool → Bool → Row → Row → Row → Row
row_by read pushed failed no_memory row =
    if read then (if pushed then row else no_memory) else failed

module _ (grows : ℕ → Bool) (arrays_grow : ℕ → Bool) where
  -- The loop over the fields of a row that starts on `line`; each round reads a field and what
  -- ends it.
  unfoldable pub read_fields : ℕ → CsvReader → Arena → ℕ → ℕ → Row
  unfolding read_field push_field failed_row after_field row_by
  read_fields zero r a line count = row_of csv_ok r a
  read_fields (suc rounds) r a line count =
      let quoted = (read_field grows r.left).0 in
      let f = (read_field grows r.left).1 in
      let s : CsvReader = record r { left = f.left; line = r.line + f.lines } in
      let (pushed, q, b) = push_field s a (arrays_grow count) count (length f.text) in
      row_by (is_field_ok f.status) pushed (failed_row f.status s a line) (row_of csv_nomem q b) (
        with_field (f.text, quoted)
          (after_field (λ left. read_fields rounds (record q { left = left }) b line (count + 1)) q
            b f.left))

  -- The copies of the arrays, and the check of the number of columns.
  unfoldable pub finish_row : ℕ → Row → Row
  unfolding set_err
  finish_row line row =
      let count = length row.fields in
      let (fields_copied, b) = arena_alloc row.arena (count * 8) 8 in
      let (quoted_copied, d) = arena_alloc b count 1 in
      let r = row.reader in
      if not (fields_copied && quoted_copied)
      then record row { status = csv_nomem; arena = d }
      else if r.n_cols == 0
      then record row { reader = record r { n_cols = count }; arena = d }
      else if not (count == r.n_cols)
      then record row { status = csv_err; reader = set_err r line; arena = d }
      else record row { arena = d }

  abbrev is_csv_ok : CsvStatus → Bool
  is_csv_ok csv_ok = true
  is_csv_ok _ = false

  unfoldable pub csv_reader_next_row : CsvReader → Arena → Row
  unfolding read_fields finish_row
  csv_reader_next_row r a =
      let row = read_fields (suc (length r.left)) r a r.line 0 in
      if length r.left == 0
      then row_of csv_eof r a
      else if is_csv_ok row.status
      then finish_row r.line row
      else row
