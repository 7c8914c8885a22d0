-- ===== src/Wal/Torn.antt =====
-- An append to a log that a crash cut off: `wal_append` and `wal_replay` of c/src/wal.c.
use db.Prelude.{
  ℕ, zero, suc, ◌≤◌, ◌≡◌, refl, ap, ◌∙◌, Bool, true, Option, none, some, List, [], ◌∷◌, ◌++◌,
  append_assoc, length, suc-eq-zero, take, arith,
}
use db.Index.{RowRef}
use db.Table.{Table}
use db.Wal.{
  Disk, Frame, write_frame, write_frames, wal_header, wal_append, schema_fingerprint, frames_of,
}
use db.Wal.Replay.{torn, read_frame, read_payload, read_head, read_u32, wal_replay}
use db.Wal.Frames.{AreFrames, IsGenerous}
use db.Wal.Recovery.{apply_frames, replay_log}
use db.Wal.Append.{no_header}

-- One to three bytes of a frame, and frames behind them, do not start with a frame's magic.
misaligned :
    (malloc : ℕ → Bool) (k : ℕ) (last : Frame) (more : List Frame)
    → k ≤ 2
    → read_frame malloc (take (suc k) (write_frame last) ++ write_frames more) ≡ torn
unfolding read_frame read_payload read_head read_u32 write_frame write_frames
misaligned malloc zero last [] h = refl
misaligned malloc zero last (fr ∷ more) h = refl
misaligned malloc (suc zero) last [] h = refl
misaligned malloc (suc zero) last (fr ∷ more) h = refl
misaligned malloc (suc (suc zero)) last [] h = refl
misaligned malloc (suc (suc zero)) last (fr ∷ more) h = refl
misaligned malloc (suc (suc (suc k))) last more h = absurd (omega arith)

-- A log whose last frame was cut off after one to three bytes.
abbrev pub cut_log : Table → List Frame → Frame → ℕ → List ℕ
cut_log written frames last k =
    wal_header written ++ (write_frames frames ++ take (suc k) (write_frame last))

-- Every file operation succeeds.
abbrev pub healthy_disk : Disk
healthy_disk = record { opens = true; fails_after = none; truncates = true }

grown_log :
    (written t : Table) (frames : List Frame) (last : Frame) (k : ℕ) (r : RowRef)
    (rows : List RowRef)
    → wal_append healthy_disk (some (cut_log written frames last k)) t (r ∷ rows) ≡ (
      true,
      some (
          wal_header written
          ++ (write_frames frames
              ++ (take (suc k) (write_frame last) ++ write_frames (frames_of t (r ∷ rows))))),
    )
unfolding wal_append
grown_log written t frames last k r rows = rw (suc-eq-zero (length rows)) (
    ap (λ b. (true, some b))
      (no_header written (write_frames frames ++ take (suc k) (write_frame last)) t
          (write_frames (frames_of t (r ∷ rows)))
        ∙ ap (◌++◌ (wal_header written)) (
            append_assoc (write_frames frames) (take (suc k) (write_frame last))
              (write_frames (frames_of t (r ∷ rows))))))

-- Where a crash left one to three bytes of a frame at the end of a log, a later append of a row
-- whose file operations all succeed answers that it is done, and yet a replay applies none of its
-- frames, only those of the log before the crash. Their row numbers and the lengths of their
-- payloads are 32-bit numbers, the replayed table has the columns that the log was started for, and
-- malloc refuses nothing.
pub wal_append-lost :
    (malloc : ℕ → Bool) (written t u : Table) (frames : List Frame) (last : Frame) (k : ℕ)
    (r : RowRef) (rows : List RowRef)
    → IsGenerous malloc
    → AreFrames frames
    → schema_fingerprint written ≡ schema_fingerprint u
    → k ≤ 2
    → ((wal_append healthy_disk (some (cut_log written frames last k)) t (r ∷ rows)).0 ≡ true)
      × (wal_replay malloc
            (wal_append healthy_disk (some (cut_log written frames last k)) t (r ∷ rows)).1
            u
          ≡ apply_frames frames u)
wal_append-lost malloc written t u frames last k r rows g are same few =
    let grown = grown_log written t frames last k r rows in
    let more = frames_of t (r ∷ rows) in
    (
      ap (λ (a : Bool × Option (List ℕ)). a.0) grown,
      ap (λ (a : Bool × Option (List ℕ)). wal_replay malloc a.1 u) grown
          ∙ replay_log malloc frames (take (suc k) (write_frame last) ++ write_frames more) written
              u g are (misaligned malloc k last more few) same,
    )
