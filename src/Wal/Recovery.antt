-- ===== src/Wal/Recovery.antt =====
-- What a replay of a log makes of a table, also where a crash cut the log off: c/src/wal.c.
use db.Prelude.{
  ℕ, zero, suc, ◌+◌, ◌%◌, ◌^◌, ◌≤◌, ◌<◌, ◌≡◌, ap, ◌∙◌, fun_ext, Bool, true, some, List, [], ◌∷◌,
  ◌++◌, append_assoc, ==_refl, length, length-append, take, arith,
}
use db.Table.{Table}
use db.Wal.{
  Frame, u32_bytes, fnv1a, write_frame, write_frames, wal_header, schema_fingerprint, fnv_start,
  schema_bytes,
}
use db.Wal.Replay.{
  torn, read_frame, apply_frame, after_read, after_fingerprint, replay_frames, wal_replay,
}
use db.Wal.Frames.{
  IsFrame, AreFrames, IsGenerous, fnv_bound, read_u32-u32_bytes, write_frame-head,
  read_frame-write_frame, cut_frame,
}

-- The frames applied in order, up to the first that cannot be.
unfoldable pub apply_frames : List Frame → Table → Bool × Table
apply_frames [] t = (true, t)
apply_frames (fr ∷ frames) t = apply_frame (apply_frames frames) fr t

-- A replay of whole frames, before bytes that are none, applies them all.
replay_frames-write_frames :
    (malloc : ℕ → Bool) (rounds : ℕ) (frames : List Frame) (tail : List ℕ) (t : Table)
    → IsGenerous malloc
    → AreFrames frames
    → read_frame malloc tail ≡ torn
    → length frames < rounds
    → replay_frames malloc rounds (write_frames frames ++ tail) t ≡ apply_frames frames t
unfolding replay_frames write_frames apply_frames
replay_frames-write_frames malloc zero frames tail t g are ends h = absurd (omega arith)
replay_frames-write_frames malloc (suc rounds) [] tail t g are ends h =
    ap (after_read (replay_frames malloc rounds) t) ends
replay_frames-write_frames malloc (suc rounds) (fr ∷ frames) tail t g are ends h =
    let rest = write_frames frames ++ tail in
    ap (λ file. after_read (replay_frames malloc rounds) t (read_frame malloc file))
      (append_assoc (write_frame fr) (write_frames frames) tail)
    ∙ ap (after_read (replay_frames malloc rounds) t)
        (read_frame-write_frame malloc fr rest g are.0)
    ∙ ap (λ next. apply_frame next fr t)
        (fun_ext
          (λ u. replay_frames-write_frames malloc rounds frames tail u g are.1 ends (omega arith)))

write_frames-length :
    (frames : List Frame) → AreFrames frames → length frames ≤ length (write_frames frames)
unfolding write_frames
write_frames-length [] are = omega arith
write_frames-length (fr ∷ frames) are = omega (
  arith,
  write_frames-length frames are.1,
  length-append (write_frame fr) (write_frames frames),
  ap (λ (l : List ℕ). length l) (write_frame-head fr are.0),
)

fingerprint_bound : (t : Table) → schema_fingerprint t < 2 ^ 32
unfolding schema_fingerprint fnv1a
fingerprint_bound t =
    fnv_bound fnv_start (u32_bytes (length t.columns % 2 ^ 32) ++ schema_bytes t.columns)
      (omega arith)

-- The header and the frames of a log, before bytes that are no frame.
pub replay_log :
    (malloc : ℕ → Bool) (frames : List Frame) (tail : List ℕ) (written t : Table)
    → IsGenerous malloc
    → AreFrames frames
    → read_frame malloc tail ≡ torn
    → schema_fingerprint written ≡ schema_fingerprint t
    → wal_replay malloc (some (wal_header written ++ (write_frames frames ++ tail))) t
      ≡ apply_frames frames t
unfolding wal_replay wal_header
replay_log malloc frames tail written t g are ends same =
    let bytes = write_frames frames ++ tail in
    let fingerprint = schema_fingerprint written in
    let read = read_u32-u32_bytes fingerprint bytes (fingerprint_bound written) in
    ap (after_fingerprint malloc t) read
    ∙ rw (same, ==_refl (schema_fingerprint t))
        (replay_frames-write_frames malloc (length bytes + 1) frames tail t g are ends
          (omega (arith, write_frames-length frames are, length-append (write_frames frames) tail)))

-- A log whose last frame a crash cut off, where all row numbers and lengths of payloads are 32-bit
-- numbers, replayed onto a table with the columns that the log was started for, where malloc refuses
-- nothing: the result is that of applying the frames before the cut in order, each as it was
-- written, up to the first that cannot be applied. What is left of the last frame changes nothing,
-- also where nothing of it was written.
pub wal_replay-recovers :
    (malloc : ℕ → Bool) (frames : List Frame) (last : Frame) (k : ℕ) (written t : Table)
    → IsGenerous malloc
    → AreFrames frames
    → IsFrame last
    → k < length (write_frame last)
    → schema_fingerprint written ≡ schema_fingerprint t
    → wal_replay malloc
        (some (wal_header written ++ (write_frames frames ++ take k (write_frame last))))
        t
      ≡ apply_frames frames t
wal_replay-recovers malloc frames last k written t g are fits cut same =
    replay_log malloc frames (take k (write_frame last)) written t g are
      (cut_frame malloc last k g fits cut) same
