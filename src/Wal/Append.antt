-- ===== src/Wal/Append.antt =====
-- What `wal_append` of c/src/wal.c leaves for `wal_replay` to read.
use db.Prelude.{
  ℕ, ◌≡◌, ◌⊎◌, inl, inr, refl, sym, ap, subst, ◌∙◌, Bool, true, false, Option, none, some, List, [],
  ◌∷◌, ◌++◌, append_assoc, append-nil, ◌==◌, length, if◌then◌else◌, suc-eq-zero, take, Bool-cases,
  arith,
}
use db.Index.{RowRef}
use db.Table.{Table}
use db.Wal.{
  Disk, after_writes, Frame, write_frame, write_frames, wal_header, wal_append, schema_fingerprint,
  frames_of, content,
}
use db.Wal.Replay.{torn, read_frame, read_payload, read_head, read_u32, wal_replay}
use db.Wal.Frames.{take_exact, AreFrames, IsGenerous}
use db.Wal.Recovery.{apply_frames, replay_log}

-- The bytes are a log of the frames, for a table with the columns of u.
abbrev pub IsLog : Table → List ℕ → List Frame → Type 0
IsLog u bytes frames =
    ((bytes ≡ []) × (frames ≡ []))
    ⊎ ((written : Table) × (schema_fingerprint written ≡ schema_fingerprint u)
        × AreFrames frames
        × (bytes ≡ wal_header written ++ write_frames frames))

write_frames-append : (a b : List Frame) → write_frames (a ++ b) ≡ write_frames a ++ write_frames b
unfolding write_frames
write_frames-append [] b = refl
write_frames-append (fr ∷ a) b =
    ap (◌++◌ (write_frame fr)) (write_frames-append a b)
    ∙ sym (append_assoc (write_frame fr) (write_frames a) (write_frames b))

AreFrames-append : (a b : List Frame) → AreFrames a → AreFrames b → AreFrames (a ++ b)
AreFrames-append [] b h k = k
AreFrames-append (fr ∷ a) b h k = (h.0, AreFrames-append a b h.1 k)

no_bytes : (malloc : ℕ → Bool) → read_frame malloc [] ≡ torn
unfolding read_frame read_payload read_head read_u32
no_bytes malloc = refl

empty_log :
    (malloc : ℕ → Bool) (file : Option (List ℕ)) (u : Table)
    → content file ≡ []
    → wal_replay malloc file u ≡ (true, u)
unfolding wal_replay read_u32
empty_log malloc none u e = refl
empty_log malloc (some bytes) u e = ap (λ b. wal_replay malloc (some b) u) e

some_bytes :
    (file : Option (List ℕ)) (written : Table) (bytes : List ℕ)
    → content file ≡ wal_header written ++ bytes
    → file ≡ some (wal_header written ++ bytes)
unfolding wal_header
some_bytes none written bytes e = cc (e)
some_bytes (some file) written bytes e = ap (λ b. some b) e

-- A log is replayed frame by frame.
log_replayed :
    (malloc : ℕ → Bool) (file : Option (List ℕ)) (frames : List Frame) (u : Table)
    → IsGenerous malloc
    → IsLog u (content file) frames
    → wal_replay malloc file u ≡ apply_frames frames u
unfolding apply_frames
log_replayed malloc file frames u g (inl (nothing, none_written)) =
    empty_log malloc file u nothing ∙ sym (ap (λ frs. apply_frames frs u) none_written)
log_replayed malloc file frames u g (inr (written, same, are, bytes)) =
    ap (λ f. wal_replay malloc f u)
      (some_bytes file written (write_frames frames) bytes
        ∙ ap (λ b. some (wal_header written ++ b)) (sym (append-nil (write_frames frames))))
    ∙ replay_log malloc frames [] written u g are (no_bytes malloc) same

abbrev pub header_for : List ℕ → Table → List ℕ
header_for old t = if length old == 0 then wal_header t else []

pub no_header :
    (written : Table) (bytes : List ℕ) (t : Table) (more : List ℕ)
    → (wal_header written ++ bytes) ++ (header_for (wal_header written ++ bytes) t ++ more)
      ≡ wal_header written ++ (bytes ++ more)
unfolding wal_header
no_header written bytes t more =
    let old : List ℕ = wal_header written ++ bytes in
    let not_empty : (length old == 0) ≡ false = ground arith in
    ap (λ b. old ++ ((if b then wal_header t else []) ++ more)) not_empty
    ∙ append_assoc (wal_header written) bytes more

appended-IsLog :
    (old : List ℕ) (frames more : List Frame) (t u : Table)
    → IsLog u old frames
    → schema_fingerprint t ≡ schema_fingerprint u
    → AreFrames more
    → IsLog u (old ++ (header_for old t ++ write_frames more)) (frames ++ more)
appended-IsLog old frames more t u (inl (nothing, none_written)) same are = inr (
  t,
  same,
  subst (λ frs. AreFrames (frs ++ more)) (sym none_written) are,
  ap (λ b. b ++ (header_for b t ++ write_frames more)) nothing
      ∙ ap (λ frs. wal_header t ++ write_frames (frs ++ more)) (sym none_written),
)
appended-IsLog old frames more t u (inr (written, alike, before, bytes)) same are = inr (
  written,
  alike,
  AreFrames-append frames more before are,
  ap (λ b. b ++ (header_for b t ++ write_frames more)) bytes
      ∙ no_header written (write_frames frames) t (write_frames more)
      ∙ ap (◌++◌ (wal_header written)) (sym (write_frames-append frames more)),
)

-- The frames that a log has after an append that answers `done`.
abbrev pub appended : Bool → List Frame → List Frame → List Frame
appended done frames more = if done then frames ++ more else frames

abbrev pub LogAfter : Table → List Frame → List Frame → Bool × Option (List ℕ) → Type 0
LogAfter u frames more after = IsLog u (content after.1) (appended after.0 frames more)

-- What a failed write leaves, cut back.
written-IsLog :
    (disk : Disk) (fails : Option ℕ) (old new : List ℕ) (frames more : List Frame) (u : Table)
    → disk.truncates ≡ true
    → IsLog u old frames
    → IsLog u (old ++ new) (frames ++ more)
    → LogAfter u frames more (after_writes disk old new fails)
written-IsLog disk none old new frames more u cuts before after = after
written-IsLog disk (some n) old new frames more u cuts before after =
    rw (cuts, take_exact old (take n new)) before

append-IsLog :
    (disk : Disk) (file : Option (List ℕ)) (frames : List Frame) (t u : Table) (rows : List RowRef)
    → disk.truncates ≡ true
    → IsLog u (content file) frames
    → schema_fingerprint t ≡ schema_fingerprint u
    → AreFrames (frames_of t rows)
    → LogAfter u frames (frames_of t rows) (wal_append disk file t rows)
unfolding wal_append
append-IsLog disk file frames t u [] cuts log same are =
    subst (IsLog u (content file)) (sym (append-nil frames)) log
append-IsLog disk file frames t u (r ∷ rows) cuts log same are =
    let more = frames_of t (r ∷ rows) in
    let new = header_for (content file) t ++ write_frames more in
    elim (Bool-cases disk.opens) [
      | inr closed ↦ rw (suc-eq-zero (length rows), closed) log
      | inl opens ↦
          rw (suc-eq-zero (length rows), opens)
            (written-IsLog disk disk.fails_after (content file) new frames more u cuts log
              (appended-IsLog (content file) frames more t u log same are))
    ]

-- An append to a log, where the file can be cut back after a failed write, leaves a log: with the
-- frames of the rows behind the old ones where it answers that it is done, and with the old ones
-- only where it fails, however much of the new ones was written. The row numbers and the lengths of
-- the payloads must be 32-bit numbers, and malloc must refuse the replay nothing: replayed onto a
-- table with the columns of the one that was written, the frames are applied in order, up to the
-- first that cannot be.
pub wal_append-replayed :
    (malloc : ℕ → Bool) (disk : Disk) (file : Option (List ℕ)) (frames : List Frame) (t u : Table)
    (rows : List RowRef)
    → IsGenerous malloc
    → disk.truncates ≡ true
    → IsLog u (content file) frames
    → schema_fingerprint t ≡ schema_fingerprint u
    → AreFrames (frames_of t rows)
    → LogAfter u frames (frames_of t rows) (wal_append disk file t rows)
      × (wal_replay malloc (wal_append disk file t rows).1 u
          ≡ apply_frames (appended (wal_append disk file t rows).0 frames (frames_of t rows)) u)
wal_append-replayed malloc disk file frames t u rows g cuts log same are =
    let after = append-IsLog disk file frames t u rows cuts log same are in
    (
      after,
      log_replayed malloc (wal_append disk file t rows).1
          (appended (wal_append disk file t rows).0 frames (frames_of t rows)) u g after,
    )
