-- ===== src/Wal.antt =====
-- The frames of a write-ahead log: c/src/wal.c. A file is its bytes. Integers lie in memory, and so
-- in the file, with the low byte first. A byte buffer is a list: a refused `realloc` counts as a
-- failed write, and `schema_fingerprint` is never refused one.
pub mod Replay
pub mod Frames
pub mod Recovery
pub mod Append
pub mod Torn
pub mod Payload
pub mod Rounds
use db.Prelude.{
  ℕ, zero, suc, ◌+◌, ◌-◌, ◌*◌, ◌/◌, ◌%◌, ◌^◌, bit_xor, Bool, true, false, not, Option, none, some,
  List, [], ◌∷◌, ◌++◌, ltb, ◌==◌, if◌then◌else◌, length, take, drop,
}
use db.Index.{RowRef}
use db.Value.{FieldType, ft_int, ft_double, ft_bool, ft_text, ft_err}
use db.Table.{Table, Column}
use db.Table.Rows.{table_row_is_dead, table_is_null}
use db.Table.Cells.{table_get_int, table_get_double, table_get_bool, table_get_text}

abbrev pub wal_magic : ℕ
wal_magic = 0x314c_4157

abbrev pub wal_header_magic : ℕ
wal_header_magic = 0x4834_4c57

abbrev pub wal_frame_row : ℕ
wal_frame_row = 0

abbrev pub wal_frame_tombstone : ℕ
wal_frame_tombstone = 1

-- The bytes of a `uint32_t` and of eight bytes.
abbrev pub u32_bytes : ℕ → List ℕ
u32_bytes n = n % 256 ∷ n / 256 % 256 ∷ n / 65536 % 256 ∷ n / 16777216 % 256 ∷ []

abbrev pub u64_bytes : ℕ → List ℕ
u64_bytes n = u32_bytes (n % 2 ^ 32) ++ u32_bytes (n / 2 ^ 32)

unfoldable pub fnv1a_update : ℕ → List ℕ → ℕ
fnv1a_update h [] = h
fnv1a_update h (b ∷ bytes) = fnv1a_update (bit_xor h b * 16777619 % 2 ^ 32) bytes

abbrev pub fnv_start : ℕ
fnv_start = 2166136261

unfoldable pub fnv1a : List ℕ → ℕ
unfolding fnv1a_update
fnv1a bytes = fnv1a_update fnv_start bytes

unfoldable pub frame_checksum : ℕ → ℕ → List ℕ → ℕ
unfolding fnv1a_update
frame_checksum row kind payload =
    fnv1a_update (fnv1a_update (fnv1a_update fnv_start (u32_bytes row)) (kind ∷ [])) payload

unfoldable pub encode_cell : Table → RowRef → ℕ → FieldType → List ℕ
encode_cell t row col ft_int = u64_bytes (table_get_int t row col)
encode_cell t row col ft_double = u64_bytes (table_get_double t row col)
encode_cell t row col ft_bool = (if table_get_bool t row col then 1 else 0) ∷ []
encode_cell t row col ft_text =
    let s = table_get_text t row col in u32_bytes (length s % 2 ^ 32) ++ s
encode_cell t row col ft_err = []

unfoldable pub encode_cells : Table → RowRef → ℕ → List Column → List ℕ
unfolding encode_cell
encode_cells t row col [] = []
encode_cells t row col (c ∷ cs) =
    (if table_is_null t row col then 1 ∷ [] else 0 ∷ encode_cell t row col c.kind)
    ++ encode_cells t row (col + 1) cs

unfoldable pub encode_row : Table → RowRef → List ℕ
unfolding encode_cells
encode_row t row = encode_cells t row 0 t.columns

abbrev type_byte : FieldType → ℕ
type_byte ft_int = 0
type_byte ft_double = 1
type_byte ft_bool = 2
type_byte ft_text = 3
type_byte ft_err = 4

abbrev pub schema_bytes : List Column → List ℕ
schema_bytes [] = []
schema_bytes (c ∷ cs) = type_byte c.kind ∷ ((c.name ++ (0 ∷ [])) ++ schema_bytes cs)

unfoldable pub schema_fingerprint : Table → ℕ
unfolding fnv1a
schema_fingerprint t = fnv1a (u32_bytes (length t.columns % 2 ^ 32) ++ schema_bytes t.columns)

-- What a frame says of a row. A tombstone has no payload.
pub record Frame : Type 0 where
  pub row : ℕ
  pub kind : ℕ
  pub payload : List ℕ

unfoldable pub write_frame : Frame → List ℕ
write_frame fr =
    let payload_len = length fr.payload % 2 ^ 32 in
    let payload = take payload_len fr.payload in
    u32_bytes wal_magic
    ++ (u32_bytes fr.row
        ++ (fr.kind
            ∷ (u32_bytes payload_len
                ++ (u32_bytes (frame_checksum fr.row fr.kind payload) ++ payload))))

unfoldable pub write_frames : List Frame → List ℕ
unfolding write_frame
write_frames [] = []
write_frames (fr ∷ frames) = write_frame fr ++ write_frames frames

-- The frame of a row as it stands: a tombstone if it is deleted.
unfoldable pub frame_of : Table → RowRef → Frame
unfolding encode_row
frame_of t row =
    if table_row_is_dead t row
    then record { row = row % 2 ^ 32; kind = wal_frame_tombstone; payload = [] }
    else record { row = row % 2 ^ 32; kind = wal_frame_row; payload = encode_row t row }

unfoldable pub frames_of : Table → List RowRef → List Frame
unfolding frame_of
frames_of t [] = []
frames_of t (r ∷ rows) = frame_of t r ∷ frames_of t rows

unfoldable pub wal_header : Table → List ℕ
wal_header t = u32_bytes wal_header_magic ++ u32_bytes (schema_fingerprint t)

abbrev pub content : Option (List ℕ) → List ℕ
content none = []
content (some bytes) = bytes

-- What becomes of the file operations of one append: whether fopen succeeds, whether all writes and
-- the fsync do or else how many bytes reached the file before the failure, and whether ftruncate
-- does.
pub record Disk : Type 0 where
  pub opens : Bool
  pub fails_after : Option ℕ
  pub truncates : Bool

-- ftruncate to a size, which nothing looks at.
abbrev pub truncated : Bool → ℕ → List ℕ → List ℕ
truncated truncates size bytes = if truncates then take size bytes else bytes

-- The file after the writes: all of them, or those that got through, cut back to the start.
abbrev pub after_writes : Disk → List ℕ → List ℕ → Option ℕ → Bool × Option (List ℕ)
after_writes disk old new none = (true, some (old ++ new))
after_writes disk old new (some n) =
    (false, some (truncated disk.truncates (length old) (old ++ take n new)))

-- The file is missing or has bytes.
unfoldable pub wal_append : Disk → Option (List ℕ) → Table → List RowRef → Bool × Option (List ℕ)
unfolding wal_header frames_of write_frames
wal_append disk file t rows =
    let old = content file in
    let header = if length old == 0 then wal_header t else [] in
    let new = header ++ write_frames (frames_of t rows) in
    if length rows == 0
    then (true, file)
    else if not disk.opens
    then (false, file)
    else after_writes disk old new disk.fails_after
