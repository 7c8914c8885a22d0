-- ===== src/Tests/Logs.antt =====
-- Runs of the write-ahead log.
use db.Prelude.{
  List, ℕ, ◌+◌, ◌≡◌, ◌<◌, inl, refl, Bool, true, some, none, [], ◌∷◌, ◌++◌, length, take, arith,
}
use db.Bitmap.{test_bit, test_byte}
use db.Table.{null_test, dead_test}
use db.Table.Cells.{table_get_int}
use db.Table.Rows.{table_row_is_dead, table_is_null, table_undelete_row}
use db.Wal.{
  Disk, Frame, wal_frame_row, wal_frame_tombstone, write_frame, write_frames, frames_of, frame_of,
  encode_row, encode_cells, wal_header, wal_append,
}
use db.Wal.Replay.{apply_row_payload, read_frame, replay_frames, whole, wal_replay}
use db.Wal.Frames.{IsFrame, AreFrames, read_frame-write_frame}
use db.Wal.Recovery.{apply_frames, wal_replay-recovers}
use db.Wal.Append.{appended, LogAfter, wal_append-replayed}
use db.Wal.Torn.{healthy_disk, cut_log, wal_append-lost}
use db.Wal.Rounds.{replay_frames_enough}
use db.Wal.Payload.{FitsCells, copy_cells, apply_row_payload-encode_row}
use db.Tests.{one_row}
use db.Tests.Groups.{ages}

abbrev grants : ℕ → Bool
grants n = true

-- Row 0 with a NULL, and row 0 deleted.
abbrev null_row : Frame
null_row = record { row = 0; kind = wal_frame_row; payload = 1 ∷ [] }

abbrev deleted_row : Frame
deleted_row = record { row = 0; kind = wal_frame_tombstone; payload = [] }

null_row-IsFrame : IsFrame null_row
null_row-IsFrame = (omega arith, omega arith)

deleted_row-IsFrame : IsFrame deleted_row
deleted_row-IsFrame = (omega arith, omega arith)

long_enough : 5 < length (write_frame deleted_row)
unfolding write_frame
long_enough = omega arith

read_frame-write_frame_example :
    read_frame grants (write_frame null_row ++ (87 ∷ [])) ≡ whole null_row (87 ∷ [])
read_frame-write_frame_example =
    read_frame-write_frame grants null_row (87 ∷ []) (λ n. refl) null_row-IsFrame

wal_replay-recovers_example :
    wal_replay grants
      (some
        (wal_header one_row ++ (write_frames (null_row ∷ []) ++ take 5 (write_frame deleted_row))))
      one_row
    ≡ apply_frames (null_row ∷ []) one_row
wal_replay-recovers_example =
    wal_replay-recovers grants (null_row ∷ []) deleted_row 5 one_row one_row (λ n. refl)
      (null_row-IsFrame, tt) deleted_row-IsFrame long_enough refl

one_row-AreFrames : AreFrames (frames_of one_row (0 ∷ []))
unfolding frames_of frame_of encode_row encode_cells table_row_is_dead dead_test table_is_null
    null_test test_bit test_byte
one_row-AreFrames = ((omega arith, omega arith), tt)

-- Five bytes are written before the disk is full.
abbrev full_disk : Disk
full_disk = record { opens = true; fails_after = some 5; truncates = true }

wal_append-replayed_example :
    LogAfter one_row [] (frames_of one_row (0 ∷ [])) (wal_append full_disk none one_row (0 ∷ []))
    × (wal_replay grants (wal_append full_disk none one_row (0 ∷ [])).1 one_row
        ≡ apply_frames
            (appended
              (wal_append full_disk none one_row (0 ∷ [])).0
              []
              (frames_of one_row (0 ∷ [])))
            one_row)
wal_append-replayed_example =
    wal_append-replayed grants full_disk none [] one_row one_row (0 ∷ []) (λ n. refl) refl
      (inl (refl, refl)) refl one_row-AreFrames

wal_append-lost_example :
    ((wal_append healthy_disk (some (cut_log one_row [] null_row 0)) one_row (0 ∷ [])).0 ≡ true)
    × (wal_replay grants
          (wal_append healthy_disk (some (cut_log one_row [] null_row 0)) one_row (0 ∷ [])).1
          one_row
        ≡ apply_frames [] one_row)
wal_append-lost_example =
    wal_append-lost grants one_row one_row one_row [] null_row 0 0 [] (λ n. refl) tt refl
      (omega arith)

ages-FitsCells : FitsCells ages 0 0 ages.columns
unfolding table_get_int
ages-FitsCells = (omega arith, tt)

apply_row_payload-encode_row_example :
    apply_row_payload one_row 0 (encode_row ages 0)
    ≡ (true, copy_cells ages (table_undelete_row one_row 0) 0 0 ages.columns)
apply_row_payload-encode_row_example =
    apply_row_payload-encode_row ages one_row 0 (refl, tt) ages-FitsCells

abbrev null_log : List ℕ
null_log = write_frame null_row ++ (87 ∷ [])

replay_frames_enough_example :
    replay_frames grants (length null_log + 1) null_log one_row
    ≡ replay_frames grants (2 + (length null_log + 1)) null_log one_row
replay_frames_enough_example = replay_frames_enough grants 2 null_log one_row
