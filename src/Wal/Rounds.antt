-- ===== src/Wal/Rounds.antt =====
-- The loop of `wal_replay` in c/src/wal.c ends.
use db.Prelude.{
  ℕ, zero, suc, ◌+◌, ◌≤◌, ◌<◌, ◌≡◌, inl, inr, refl, sym, ap, ◌∙◌, fun_ext, Bool, none, some, List,
  [], ◌∷◌, ltb, ◌==◌, length, take, drop, arith, Bool-cases, Option-cases,
}
use db.Table.{Table}
use db.Wal.{Frame, frame_checksum}
use db.Wal.Replay.{
  Head, FrameRead, torn, no_memory, whole, check_frame, read_payload, read_head, read_frame,
  apply_frame, after_read, replay_frames,
}
use db.Wal.Frames.{read_head_left}

drop_at_most : (n : ℕ) (xs : List ℕ) → length (drop n xs) ≤ length xs
drop_at_most zero xs = omega arith
drop_at_most (suc n) [] = omega arith
drop_at_most (suc n) (x ∷ xs) = omega (arith, drop_at_most n xs)

check_frame_left :
    (h : Head) (payload after rest : List ℕ) (fr : Frame)
    → check_frame h payload after ≡ whole fr rest
    → after ≡ rest
unfolding check_frame
check_frame_left h payload after rest fr e =
    elim (Bool-cases (frame_checksum h.row h.kind payload == h.checksum)) [
      | inl passes ↦ let same = rw (check_frame, passes) at e in cc (same)
      | inr fails ↦ let differ = rw (check_frame, fails) at e in cc (differ)
    ]

read_payload_left :
    (malloc : ℕ → Bool) (h : Head) (fr : Frame) (rest : List ℕ)
    → read_payload malloc (some h) ≡ whole fr rest
    → length rest ≤ length h.rest
unfolding read_payload
read_payload_left malloc h fr rest e = elim (Bool-cases (h.payload_len == 0)) [
  | inl nothing ↦
      let same = check_frame_left h [] h.rest rest fr (rw (read_payload, nothing) at e) in
      omega (arith, ap (λ (l : List ℕ). length l) same)
  | inr some_bytes ↦ elim (Bool-cases (malloc h.payload_len)) [
    | inr refused ↦ cc (rw (read_payload, some_bytes, refused) at e)
    | inl granted ↦ elim (Bool-cases (ltb (length h.rest) h.payload_len)) [
      | inl few ↦ cc (rw (read_payload, some_bytes, granted, few) at e)
      | inr enough ↦
          let passed = rw (read_payload, some_bytes, granted, enough) at e in
          let same =
            check_frame_left h (take h.payload_len h.rest) (drop h.payload_len h.rest) rest fr
              passed in
          omega (arith, ap (λ (l : List ℕ). length l) same, drop_at_most h.payload_len h.rest)
    ]
  ]
]

no_frame :
    (malloc : ℕ → Bool) (fr : Frame) (rest : List ℕ) → read_payload malloc none ≡ whole fr rest → ⊥
unfolding read_payload
no_frame malloc fr rest e = cc (e)

-- What follows a frame is shorter than the file by its 17 bytes at least.
read_frame_left :
    (malloc : ℕ → Bool) (file : List ℕ) (fr : Frame) (rest : List ℕ)
    → read_frame malloc file ≡ whole fr rest
    → 17 + length rest ≤ length file
unfolding read_frame
read_frame_left malloc file fr rest e = elim (Option-cases (read_head file)) [
  | inl nothing ↦ absurd (no_frame malloc fr rest (sym (ap (read_payload malloc) nothing) ∙ e))
  | inr (h, found) ↦ omega (
    arith,
    read_head_left file h found,
    read_payload_left malloc h fr rest (sym (ap (read_payload malloc) found) ∙ e),
  )
]

-- One round more changes nothing after a read, where it changes nothing on the shorter rest.
after_read_enough :
    (malloc : ℕ → Bool) (rounds : ℕ) (file : List ℕ) (t : Table)
    → ((rest : List ℕ) (u : Table)
        → length rest < rounds
        → replay_frames malloc rounds rest u ≡ replay_frames malloc (suc rounds) rest u)
    → length file < suc rounds
    → (got : FrameRead) → read_frame malloc file ≡ got
    → after_read (replay_frames malloc rounds) t got
      ≡ after_read (replay_frames malloc (suc rounds)) t got
after_read_enough malloc rounds file t ih h torn e = refl
after_read_enough malloc rounds file t ih h no_memory e = refl
after_read_enough malloc rounds file t ih h (whole fr rest) e =
    let left = read_frame_left malloc file fr rest e in
    ap (λ next. apply_frame next fr t) (fun_ext (λ u. ih rest u (omega (arith, left))))

one_more :
    (malloc : ℕ → Bool) (rounds : ℕ) (file : List ℕ) (t : Table)
    → length file < rounds
    → replay_frames malloc rounds file t ≡ replay_frames malloc (suc rounds) file t
unfolding replay_frames
one_more malloc zero file t h = absurd (omega arith)
one_more malloc (suc rounds) file t h =
    after_read_enough malloc rounds file t (one_more malloc rounds) h (read_frame malloc file) refl

-- Whatever the bytes of a log, its replay has ended after one round more than there are bytes: any
-- number of further rounds answers the same.
pub replay_frames_enough :
    (malloc : ℕ → Bool) (more : ℕ) (file : List ℕ) (t : Table)
    → replay_frames malloc (length file + 1) file t
      ≡ replay_frames malloc (more + (length file + 1)) file t
replay_frames_enough malloc zero file t =
    let e : length file + 1 ≡ 0 + (length file + 1) = omega arith in
    ap (λ n. replay_frames malloc n file t) e
replay_frames_enough malloc (suc more) file t =
    let e : suc (more + (length file + 1)) ≡ suc more + (length file + 1) = omega arith in
    replay_frames_enough malloc more file t
    ∙ one_more malloc (more + (length file + 1)) file t (omega arith)
    ∙ ap (λ n. replay_frames malloc n file t) e
