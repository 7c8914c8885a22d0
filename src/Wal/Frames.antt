-- ===== src/Wal/Frames.antt =====
-- Frames written and read back, and frames that a crash cut off: c/src/wal.c.
use db.Prelude.{
  ℕ, zero, suc, ◌+◌, ◌-◌, ◌*◌, ◌/◌, ◌%◌, ◌^◌, ◌≤◌, ◌<◌, ◌≡◌, inl, inr, refl, ap, subst, ◌∙◌, Bool,
  true, false, Option, none, some, List, [], ◌∷◌, ◌++◌, append-nil, ltb, ◌==◌, ==_refl, suc-eq-zero,
  lt→ltb, if◌then◌else◌, length, length-append, take, drop, arith, bit_xor, Option-cases,
}
use native.Mathlib.Decide.{dec_lt}
use db.Wal.{Frame, u32_bytes, wal_magic, fnv1a_update, frame_checksum, write_frame}
use db.Wal.Replay.{
  ◌>>=◌, read_u32, read_u8, Head, read_head, torn, whole, check_frame, read_payload, read_frame,
}

module _ {A : Type 0} where
  pub take_exact : (xs ys : List A) → take (length xs) (xs ++ ys) ≡ xs
  take_exact [] ys = refl
  take_exact (x ∷ xs) ys = ap (◌∷◌ x) (take_exact xs ys)

  pub drop_exact : (xs ys : List A) → drop (length xs) (xs ++ ys) ≡ ys
  drop_exact [] ys = refl
  drop_exact (x ∷ xs) ys = drop_exact xs ys

  take_more : (n : ℕ) (xs ys : List A) → take (length xs + n) (xs ++ ys) ≡ xs ++ take n ys
  take_more n [] ys = let e : 0 + n ≡ n = omega arith in ap (λ m. take m ys) e
  take_more n (x ∷ xs) ys =
      let e : suc (length xs) + n ≡ suc (length xs + n) = omega arith in
      ap (λ m. take m (x ∷ (xs ++ ys))) e ∙ ap (◌∷◌ x) (take_more n xs ys)

  take_short : (n : ℕ) (xs : List A) → n < length xs → length (take n xs) ≡ n
  take_short zero xs h = refl
  take_short (suc n) [] h = absurd (omega arith)
  take_short (suc n) (x ∷ xs) h = ap suc (take_short n xs (omega arith))

  take_at_most : (n : ℕ) (xs : List A) → length (take n xs) ≤ n
  take_at_most zero xs = omega arith
  take_at_most (suc n) [] = omega arith
  take_at_most (suc n) (x ∷ xs) = omega (arith, take_at_most n xs)

-- A frame whose numbers fit their fields.
abbrev pub IsFrame : Frame → Type 0
IsFrame fr = (fr.row < 2 ^ 32) × (length fr.payload < 2 ^ 32)

abbrev pub AreFrames : List Frame → Type 0
AreFrames [] = Unit
AreFrames (fr ∷ frames) = IsFrame fr × AreFrames frames

-- `malloc` refuses nothing.
abbrev pub IsGenerous : (ℕ → Bool) → Type 0
IsGenerous malloc = (n : ℕ) → malloc n ≡ true

pub fnv_bound : (h : ℕ) (bytes : List ℕ) → h < 2 ^ 32 → fnv1a_update h bytes < 2 ^ 32
unfolding fnv1a_update
fnv_bound h [] bound = bound
fnv_bound h (b ∷ bytes) bound = fnv_bound (bit_xor h b * 16777619 % 2 ^ 32) bytes (omega arith)

frame_checksum_bound : (row kind : ℕ) (payload : List ℕ) → frame_checksum row kind payload < 2 ^ 32
unfolding frame_checksum
frame_checksum_bound row kind payload =
    fnv_bound _ payload (fnv_bound _ (kind ∷ []) (fnv_bound _ (u32_bytes row) (omega arith)))

pub u32_value :
    (n : ℕ)
    → n < 2 ^ 32
    → n % 256 + n / 256 % 256 * 256 + n / 65536 % 256 * 65536 + n / 16777216 % 256 * 16777216 ≡ n
u32_value n h = omega arith

pub read_u32-u32_bytes :
    (n : ℕ) (rest : List ℕ) → n < 2 ^ 32 → read_u32 (u32_bytes n ++ rest) ≡ some (n, rest)
unfolding read_u32
read_u32-u32_bytes n rest h = ap (λ m. some (m, rest)) (u32_value n h)

-- The 17 bytes in front of the payload.
abbrev pub frame_head : Frame → List ℕ
frame_head fr =
    u32_bytes wal_magic
    ++ (u32_bytes fr.row
        ++ (fr.kind
            ∷ (u32_bytes (length fr.payload)
                ++ u32_bytes (frame_checksum fr.row fr.kind fr.payload))))

pub write_frame-head : (fr : Frame) → IsFrame fr → write_frame fr ≡ frame_head fr ++ fr.payload
unfolding write_frame
write_frame-head fr h =
    let len : length fr.payload % 2 ^ 32 ≡ length fr.payload = omega arith in
    let whole_payload : take (length fr.payload) fr.payload ≡ fr.payload =
      subst (λ p. take (length fr.payload) p ≡ fr.payload) (append-nil fr.payload)
        (take_exact fr.payload []) in
    rw (len, whole_payload) refl

read_head-frame_head :
    (fr : Frame) (rest : List ℕ)
    → IsFrame fr
    → read_head (frame_head fr ++ rest)
      ≡ some (record {
        row = fr.row;
        kind = fr.kind;
        payload_len = length fr.payload;
        checksum = frame_checksum fr.row fr.kind fr.payload;
        rest = rest;
      })
unfolding read_head read_u32 read_u8
read_head-frame_head fr rest h = λ i. some (record {
  row = u32_value fr.row h.0 i;
  kind = fr.kind;
  payload_len = u32_value (length fr.payload) h.1 i;
  checksum =
      u32_value (frame_checksum fr.row fr.kind fr.payload)
        (frame_checksum_bound fr.row fr.kind fr.payload) i;
  rest = rest;
})

abbrev head_of : Frame → List ℕ → Head
head_of fr rest = record {
  row = fr.row;
  kind = fr.kind;
  payload_len = length fr.payload;
  checksum = frame_checksum fr.row fr.kind fr.payload;
  rest = rest;
}

-- With its payload whole, a frame passes the check.
check_frame-passes :
    (fr : Frame) (more rest : List ℕ)
    → check_frame (head_of fr more) fr.payload rest ≡ whole fr rest
unfolding check_frame
check_frame-passes fr more rest = rw (==_refl (frame_checksum fr.row fr.kind fr.payload)) refl

abbrev frame : ℕ → ℕ → List ℕ → Frame
frame row kind payload = record { row = row; kind = kind; payload = payload }

read_payload-passes :
    (malloc : ℕ → Bool) (row kind : ℕ) (payload rest : List ℕ)
    → IsGenerous malloc
    → read_payload malloc (some (head_of (frame row kind payload) (payload ++ rest)))
      ≡ whole (frame row kind payload) rest
unfolding read_payload
read_payload-passes malloc row kind [] rest g = check_frame-passes (frame row kind []) rest rest
read_payload-passes malloc row kind (p ∷ ps) rest g =
    let enough : ltb (suc (length (ps ++ rest))) (suc (length ps)) ≡ false =
      ground (arith, length-append ps rest) in
    rw
      (suc-eq-zero (length ps), g (suc (length ps)), enough, take_exact ps rest, drop_exact ps rest)
      (check_frame-passes (frame row kind (p ∷ ps)) ((p ∷ ps) ++ rest) rest)

-- A payload that is cut off stops the replay.
read_payload-cut :
    (malloc : ℕ → Bool) (row kind : ℕ) (payload left : List ℕ)
    → IsGenerous malloc
    → length left < length payload
    → read_payload malloc (some (head_of (frame row kind payload) left)) ≡ torn
unfolding read_payload
read_payload-cut malloc row kind [] left g h = absurd (omega arith)
read_payload-cut malloc row kind (p ∷ ps) left g h =
    rw (suc-eq-zero (length ps), g (suc (length ps)), lt→ltb (length left) (suc (length ps)) h) refl

-- A frame whose row number and length of payload are 32-bit numbers is read back as it was written,
-- where malloc refuses nothing, and what follows it is left.
pub read_frame-write_frame :
    (malloc : ℕ → Bool) (fr : Frame) (rest : List ℕ)
    → IsGenerous malloc
    → IsFrame fr
    → read_frame malloc (write_frame fr ++ rest) ≡ whole fr rest
unfolding read_frame
read_frame-write_frame malloc fr rest g h =
    ap (λ file. read_frame malloc (file ++ rest)) (write_frame-head fr h)
    ∙ ap (read_payload malloc) (read_head-frame_head fr (fr.payload ++ rest) h)
    ∙ read_payload-passes malloc fr.row fr.kind fr.payload rest g

-- The steps of a chain of reads that succeeds.
read_step :
    {A B : Type 0} (step : Option A) (next : A → Option B) {last : B}
    → (step >>= next) ≡ some last
    → (got : A) × (step ≡ some got) × (next got ≡ some last)
read_step none next e = cc
read_step (some got) next e = (got, refl, e)

read_u32_left :
    (file : List ℕ) (got : ℕ × List ℕ) → read_u32 file ≡ some got → length file ≡ 4 + length got.1
unfolding read_u32
read_u32_left [] got e = cc
read_u32_left (a ∷ []) got e = cc
read_u32_left (a ∷ b ∷ []) got e = cc
read_u32_left (a ∷ b ∷ c ∷ []) got e = cc
read_u32_left (a ∷ b ∷ c ∷ d ∷ rest) got e =
    let same : rest ≡ got.1 = cc (e) in omega (arith, ap (λ (l : List ℕ). length l) same)

read_u8_left :
    (file : List ℕ) (got : ℕ × List ℕ) → read_u8 file ≡ some got → length file ≡ 1 + length got.1
unfolding read_u8
read_u8_left [] got e = cc
read_u8_left (a ∷ rest) got e =
    let same : rest ≡ got.1 = cc (e) in omega (arith, ap (λ (l : List ℕ). length l) same)

checked_magic :
    (b : Bool) (file : List ℕ) (got : ℕ × List ℕ)
    → (if b then read_u32 file else none) ≡ some got
    → length file ≡ 4 + length got.1
checked_magic true file got e = read_u32_left file got e
checked_magic false file got e = cc

-- A head is 17 bytes.
pub read_head_left :
    (file : List ℕ) (h : Head) → read_head file ≡ some h → length file ≡ 17 + length h.rest
unfolding read_head
read_head_left file h e =
    let (magic, m, e1) = read_step (read_u32 file) _ e in
    let (row, r, e2) = read_step (if magic.0 == wal_magic then read_u32 magic.1 else none) _ e1 in
    let (kind, k, e3) = read_step (read_u8 row.1) _ e2 in
    let (payload_len, p, e4) = read_step (read_u32 kind.1) _ e3 in
    let (checksum, c, e5) = read_step (read_u32 payload_len.1) _ e4 in
    let same : checksum.1 ≡ h.rest = cc (e5) in
    let left = ap (λ (l : List ℕ). length l) same in
    omega (
      arith,
      read_u32_left file magic m,
      checked_magic (magic.0 == wal_magic) magic.1 row r,
      read_u8_left row.1 kind k,
      read_u32_left kind.1 payload_len p,
      read_u32_left payload_len.1 checksum c,
      left,
    )

no_head : (malloc : ℕ → Bool) → read_payload malloc none ≡ torn
unfolding read_payload
no_head malloc = refl

cut_at :
    (fr : Frame) (k : ℕ)
    → 17 ≤ k
    → take k (frame_head fr ++ fr.payload) ≡ frame_head fr ++ take (k - 17) fr.payload
cut_at fr k h =
    let e : k ≡ 17 + (k - 17) = omega arith in
    ap (λ m. take m (frame_head fr ++ fr.payload)) e ∙ take_more (k - 17) (frame_head fr) fr.payload

-- A frame that is cut off stops the replay.
pub cut_frame :
    (malloc : ℕ → Bool) (fr : Frame) (k : ℕ)
    → IsGenerous malloc
    → IsFrame fr
    → k < length (write_frame fr)
    → read_frame malloc (take k (write_frame fr)) ≡ torn
unfolding read_frame
cut_frame malloc fr k g h cut = elim (dec_lt k 17) [
  | yes few ↦
      let file = take k (write_frame fr) in
      elim (Option-cases (read_head file)) [
        | inl nothing ↦ ap (read_payload malloc) nothing ∙ no_head malloc
        | inr (head, found) ↦
            absurd (omega (arith, read_head_left file head found, take_at_most k (write_frame fr)))
      ]
  | no many ↦
      let j = k - 17 in
      let left = take j fr.payload in
      let split : take k (write_frame fr) ≡ frame_head fr ++ left =
        ap (take k) (write_frame-head fr h) ∙ cut_at fr k (omega arith) in
      let short : j < length fr.payload =
        omega (arith, ap (λ (l : List ℕ). length l) (write_frame-head fr h), cut) in
      ap (read_frame malloc) split
      ∙ ap (read_payload malloc) (read_head-frame_head fr left h)
      ∙ read_payload-cut malloc fr.row fr.kind fr.payload left g
          (omega (arith, take_short j fr.payload short))
]
