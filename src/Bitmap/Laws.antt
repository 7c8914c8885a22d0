-- ===== src/Bitmap/Laws.antt =====
-- A bit that is written is read back, and the others stay.
use db.Prelude.{
  ℕ, zero, suc, ◌+◌, ◌/◌, ◌%◌, ◌≤◌, ◌<◌, ◌≡◌, ◌≢◌, refl, sym, ap, ◌∙◌, Bool, true, false, ◌&&◌,
  List, arith, ◌==◌, bool_eq, bool_eq_sound, if◌then◌else◌, set, length, length-set,
  get_or-set_self, get_or-set_ne, ==_refl, set-out_of_range,
}
use native.Mathlib.Decide.{ℕ_discrete, dec_lt}
use db.Bitmap.{byte_at, test_byte, set_byte, clear_byte, test_bit, set_bit, clear_bit}

-- The test holds for `rounds` numbers from `first` on.
every : (ℕ → Bool) → ℕ → ℕ → Bool
every test zero first = true
every test (suc rounds) first =
    let rest = every test rounds (first + 1) in if test first then rest else false

every_at :
    (test : ℕ → Bool) (rounds first x : ℕ)
    → first ≤ x
    → x < first + rounds
    → every test rounds first ≡ true
    → test x ≡ true
unfolding every
every_at test zero first x low high e = absurd (omega arith)
every_at test (suc rounds) first x low high e = elim (ℕ_discrete first x) [
  | yes here ↦ ap test (sym here) ∙ ground arith
  | no further ↦ every_at test rounds (first + 1) x (omega arith) (omega arith) (ground arith)
]

-- Both writes and all the bits of one byte.
abbrev bit_ok : ℕ → ℕ → ℕ → Bool
bit_ok b k j =
    bool_eq (test_byte (set_byte b k % 256) j) (if j == k then true else test_byte b j)
    && bool_eq (test_byte (clear_byte b k % 256) j) (if j == k then false else test_byte b j)

byte_table : every (λ b. every (λ k. every (λ j. bit_ok b k j) 8 0) 8 0) 256 0 ≡ true
unfolding every test_byte set_byte clear_byte
byte_table = refl

and_left : (a b : Bool) → a && b ≡ true → a ≡ true
and_left a b h = ground arith

and_right : (a b : Bool) → a && b ≡ true → b ≡ true
and_right a b h = ground arith

byte_ok : (b k j : ℕ) → b < 256 → k < 8 → j < 8 → bit_ok b k j ≡ true
byte_ok b k j hb hk hj =
    let at_byte = every_at _ 256 0 b (omega arith) (omega arith) byte_table in
    let at_bit = every_at _ 8 0 k (omega arith) (omega arith) at_byte in
    every_at _ 8 0 j (omega arith) (omega arith) at_bit

test_byte-set :
    (b k j : ℕ)
    → b < 256
    → k < 8
    → j < 8
    → test_byte (set_byte b k % 256) j ≡ (if j == k then true else test_byte b j)
test_byte-set b k j hb hk hj = bool_eq_sound _ _ (and_left _ _ (byte_ok b k j hb hk hj))

test_byte-clear :
    (b k j : ℕ)
    → b < 256
    → k < 8
    → j < 8
    → test_byte (clear_byte b k % 256) j ≡ (if j == k then false else test_byte b j)
test_byte-clear b k j hb hk hj = bool_eq_sound _ _ (and_right _ _ (byte_ok b k j hb hk hj))

-- A write of a byte that sets its own bit to `v` and keeps the others.
abbrev WritesBit : (ℕ → ℕ → ℕ) → Bool → Type 0
WritesBit write v =
    (b k j : ℕ)
    → b < 256
    → k < 8
    → j < 8
    → test_byte (write b k % 256) j ≡ (if j == k then v else test_byte b j)

module _ (write : ℕ → ℕ → ℕ) (v : Bool) (law : WritesBit write v) (bytes : List ℕ) (row : ℕ) where
  written : List ℕ
  written = set bytes (row / 8) (write (byte_at bytes (row / 8)) (row % 8))

  bit_written : row / 8 < length bytes → test_bit written row ≡ v
  unfolding test_bit written byte_at
  bit_written h = rw (get_or-set_self bytes (row / 8) _ 0 h) (
      law _ (row % 8) (row % 8) (omega arith) (omega arith) (omega arith)
      ∙ ap (λ c. if c then v else test_byte (byte_at bytes (row / 8)) (row % 8))
          (==_refl (row % 8)))

  bit_kept : (j : ℕ) → row ≢ j → test_bit written j ≡ test_bit bytes j
  unfolding test_bit written byte_at
  bit_kept j ne = elim (ℕ_discrete (row / 8) (j / 8)) [
    | no apart ↦ rw (get_or-set_ne bytes (row / 8) (j / 8) _ 0 apart)
    | yes same ↦ elim (dec_lt (row / 8) (length bytes)) [
      | no out ↦ rw (set-out_of_range bytes (row / 8) _ (omega arith))
      | yes within ↦
          let other : (j % 8 == row % 8) ≡ false = ground (arith, same_row same) in
          rw (← same, get_or-set_self bytes (row / 8) _ 0 within)
            (law _ (row % 8) (j % 8) (omega arith) (omega arith) (omega arith)
              ∙ ap (λ c. if c then v else test_byte (byte_at bytes (row / 8)) (j % 8)) other)
    ]
  ]
    where
      same_row : row / 8 ≡ j / 8 → row % 8 ≢ j % 8
      same_row e f = ne (omega arith)

module _ (bytes : List ℕ) (row : ℕ) where
  pub test_bit-set_self : row / 8 < length bytes → test_bit (set_bit bytes row) row ≡ true
  unfolding set_bit written
  test_bit-set_self = bit_written set_byte true test_byte-set bytes row

  pub test_bit-set_ne : (j : ℕ) → row ≢ j → test_bit (set_bit bytes row) j ≡ test_bit bytes j
  unfolding set_bit written
  test_bit-set_ne = bit_kept set_byte true test_byte-set bytes row

  pub test_bit-clear_self : row / 8 < length bytes → test_bit (clear_bit bytes row) row ≡ false
  unfolding clear_bit written
  test_bit-clear_self = bit_written clear_byte false test_byte-clear bytes row

  pub test_bit-clear_ne : (j : ℕ) → row ≢ j → test_bit (clear_bit bytes row) j ≡ test_bit bytes j
  unfolding clear_bit written
  test_bit-clear_ne = bit_kept clear_byte false test_byte-clear bytes row

  pub length-set_bit : length (set_bit bytes row) ≡ length bytes
  unfolding set_bit
  length-set_bit = length-set bytes _ _

  pub length-clear_bit : length (clear_bit bytes row) ≡ length bytes
  unfolding clear_bit
  length-clear_bit = length-set bytes _ _
