-- ===== src/Wal/Replay.antt =====
-- `apply_row_payload` and `wal_replay` of c/src/wal.c. What `malloc` answers for a size is the
-- parameter `malloc`.
use db.Prelude.{
  ℕ, zero, suc, ◌+◌, ◌-◌, ◌*◌, ◌^◌, Bool, true, false, not, Option, none, some, List, [], ◌∷◌, ltb,
  ◌==◌, if◌then◌else◌, length, take, drop,
}
use db.Index.{RowRef, row_ref_valid}
use db.Value.{FieldType, ft_int, ft_double, ft_bool, ft_text, ft_err}
use db.Table.{Table, Column}
use db.Table.Rows.{table_append_row, table_delete_row, table_undelete_row, table_set_null}
use db.Table.Cells.{table_set_int, table_set_double, table_set_bool, table_set_text}
use db.Wal.{
  Frame, frame_checksum, schema_fingerprint, wal_magic, wal_header_magic, wal_frame_tombstone,
}

infixl 1 ◌>>=◌
abbrev pub ◌>>=◌ {ℓ κ} : {A : Type ℓ} {B : Type κ} → Option A → (A → Option B) → Option B
none >>= next = none
some got >>= next = next got

-- `fread` of a `uint32_t`, and what is left of the file.
unfoldable pub read_u32 : List ℕ → Option (ℕ × List ℕ)
read_u32 [] = none
read_u32 (a ∷ []) = none
read_u32 (a ∷ b ∷ []) = none
read_u32 (a ∷ b ∷ c ∷ []) = none
read_u32 (a ∷ b ∷ c ∷ d ∷ rest) = some (a + b * 256 + c * 65536 + d * 16777216, rest)

unfoldable pub read_u8 : List ℕ → Option (ℕ × List ℕ)
read_u8 [] = none
read_u8 (a ∷ rest) = some (a, rest)

unfoldable pub read_u64 : List ℕ → Option (ℕ × List ℕ)
unfolding read_u32
read_u64 bytes = do
  low ← read_u32 bytes
  high ← read_u32 low.1
  some (low.0 + high.0 * 2 ^ 32, high.1)

-- A length and as many bytes.
unfoldable pub read_sized : List ℕ → Option (List ℕ × List ℕ)
unfolding read_u32
read_sized bytes = do
  len ← read_u32 bytes
  (if ltb (length len.1) len.0 then none else some (take len.0 len.1, drop len.0 len.1))

abbrev pub put_int : Table → RowRef → ℕ → ℕ × List ℕ → Option (Table × List ℕ)
put_int t row col got = some (table_set_int t row col got.0, got.1)

abbrev pub put_double : Table → RowRef → ℕ → ℕ × List ℕ → Option (Table × List ℕ)
put_double t row col got = some (table_set_double t row col got.0, got.1)

abbrev pub put_bool : Table → RowRef → ℕ → ℕ × List ℕ → Option (Table × List ℕ)
put_bool t row col got = some (table_set_bool t row col (not (got.0 == 0)), got.1)

abbrev pub put_text : Table → RowRef → ℕ → List ℕ × List ℕ → Option (Table × List ℕ)
put_text t row col got = some (table_set_text t row col got.0, got.1)

-- Nothing where the bytes left are too few for a value of the type.
unfoldable pub apply_cell : Table → RowRef → ℕ → FieldType → List ℕ → Option (Table × List ℕ)
unfolding read_u64 read_u8 read_sized
apply_cell t row col ft_int bytes = read_u64 bytes >>= put_int t row col
apply_cell t row col ft_double bytes = read_u64 bytes >>= put_double t row col
apply_cell t row col ft_bool bytes = read_u8 bytes >>= put_bool t row col
apply_cell t row col ft_text bytes = read_sized bytes >>= put_text t row col
apply_cell t row col ft_err bytes = some (t, bytes)

-- A cell from its NULL mark on.
unfoldable pub apply_marked : Table → RowRef → ℕ → FieldType → ℕ → List ℕ → Option (Table × List ℕ)
unfolding apply_cell
apply_marked t row col kind is_null bytes =
    if is_null == 0 then apply_cell t row col kind bytes else some (table_set_null t row col, bytes)

abbrev pub after_cell :
    (Table → List ℕ → Bool × Table) → Table → Option (Table × List ℕ) → Bool × Table
after_cell next t none = (false, t)
after_cell next t (some (u, bytes)) = next u bytes

unfoldable pub apply_cells : List Column → ℕ → RowRef → Table → List ℕ → Bool × Table
unfolding apply_marked
apply_cells [] col row t bytes = (true, t)
apply_cells (c ∷ cs) col row t [] = (true, t)
apply_cells (c ∷ cs) col row t (is_null ∷ bytes) =
    after_cell (apply_cells cs (col + 1) row) t (apply_marked t row col c.kind is_null bytes)

unfoldable pub apply_row_payload : Table → RowRef → List ℕ → Bool × Table
unfolding apply_cells
apply_row_payload t row payload = apply_cells t.columns 0 row (table_undelete_row t row) payload

-- The numbers in front of a payload, and what follows them.
pub record Head : Type 0 where
  pub row : ℕ
  pub kind : ℕ
  pub payload_len : ℕ
  pub checksum : ℕ
  pub rest : List ℕ

unfoldable pub read_head : List ℕ → Option Head
unfolding read_u32 read_u8
read_head file = do
  magic ← read_u32 file
  row ← (if magic.0 == wal_magic then read_u32 magic.1 else none)
  kind ← read_u8 row.1
  payload_len ← read_u32 kind.1
  checksum ← read_u32 payload_len.1
  some (record {
    row = row.0;
    kind = kind.0;
    payload_len = payload_len.0;
    checksum = checksum.0;
    rest = checksum.1;
  })

-- The end of the file and a frame that is torn or corrupt stop the replay alike.
pub data FrameRead : Type 0 where
  torn : FrameRead
  no_memory : FrameRead
  whole : Frame → List ℕ → FrameRead

unfoldable pub check_frame : Head → List ℕ → List ℕ → FrameRead
check_frame h payload rest =
    if frame_checksum h.row h.kind payload == h.checksum
    then whole (record { row = h.row; kind = h.kind; payload = payload }) rest
    else torn

unfoldable pub read_payload : (ℕ → Bool) → Option Head → FrameRead
unfolding check_frame
read_payload malloc none = torn
read_payload malloc (some h) =
    if h.payload_len == 0
    then check_frame h [] h.rest
    else if not (malloc h.payload_len)
    then no_memory
    else if ltb (length h.rest) h.payload_len
    then torn
    else check_frame h (take h.payload_len h.rest) (drop h.payload_len h.rest)

unfoldable pub read_frame : (ℕ → Bool) → List ℕ → FrameRead
unfolding read_payload read_head
read_frame malloc file = read_payload malloc (read_head file)

-- `while (t->n_rows <= row)`: each round adds a row.
unfoldable pub append_up_to : ℕ → RowRef → Table → Bool × Table
append_up_to zero row t = (true, t)
append_up_to (suc rounds) row t =
    let (added, u) = table_append_row t in
    let rest = append_up_to rounds row u in
    if ltb row t.n_rows then (true, t) else if row_ref_valid added then rest else (false, u)

abbrev pub after_payload : (Table → Bool × Table) → Bool × Table → Bool × Table
after_payload next (false, t) = (true, t)
after_payload next (true, t) = next t

abbrev pub apply_grown : (Table → Bool × Table) → Frame → Bool × Table → Bool × Table
apply_grown next fr (false, t) = (false, t)
apply_grown next fr (true, t) =
    if fr.kind == wal_frame_tombstone
    then next (table_delete_row t fr.row)
    else after_payload next (apply_row_payload t fr.row fr.payload)

-- A frame, and then the rest of the log.
unfoldable pub apply_frame : (Table → Bool × Table) → Frame → Table → Bool × Table
unfolding append_up_to apply_row_payload
apply_frame next fr t = apply_grown next fr (append_up_to (fr.row + 1 - t.n_rows) fr.row t)

abbrev pub after_read : (List ℕ → Table → Bool × Table) → Table → FrameRead → Bool × Table
after_read next t torn = (true, t)
after_read next t no_memory = (false, t)
after_read next t (whole fr rest) = apply_frame (next rest) fr t

-- A frame has 17 bytes at least, so there are fewer rounds than bytes.
unfoldable pub replay_frames : (ℕ → Bool) → ℕ → List ℕ → Table → Bool × Table
unfolding read_frame apply_frame
replay_frames malloc zero file t = (true, t)
replay_frames malloc (suc rounds) file t =
    after_read (replay_frames malloc rounds) t (read_frame malloc file)

abbrev pub after_fingerprint : (ℕ → Bool) → Table → Option (ℕ × List ℕ) → Bool × Table
after_fingerprint malloc t none = (false, t)
after_fingerprint malloc t (some (fingerprint, frames)) =
    if fingerprint == schema_fingerprint t
    then replay_frames malloc (length frames + 1) frames t
    else (false, t)

abbrev pub after_magic : (ℕ → Bool) → Table → Option (ℕ × List ℕ) → Bool × Table
after_magic malloc t none = (true, t)
after_magic malloc t (some (magic, rest)) =
    if magic == wal_header_magic then after_fingerprint malloc t (read_u32 rest) else (false, t)

-- Whether no memory was refused and no file refused, and the table.
unfoldable pub wal_replay : (ℕ → Bool) → Option (List ℕ) → Table → Bool × Table
unfolding replay_frames read_u32
wal_replay malloc none t = (true, t)
wal_replay malloc (some file) t = after_magic malloc t (read_u32 file)
