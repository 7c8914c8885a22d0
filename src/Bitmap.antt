-- ===== src/Bitmap.antt =====
-- The row bitmaps of c/src/table.c (`dead_test`, `dead_set`, `dead_clear` and their `null_` twins):
-- bit `row % 8` of byte `row / 8`. A byte is read as `uint8_t`, so modulo 256.
pub mod Laws
use db.Prelude.{ℕ, ◌-◌, ◌/◌, ◌%◌, ◌^◌, bit_and, bit_or, Bool, List, ◌==◌, get_or, set}

byte_at : List ℕ → ℕ → ℕ
byte_at bytes i = get_or bytes i 0 % 256

-- (byte >> k) & 1
unfoldable pub test_byte : ℕ → ℕ → Bool
test_byte b k = b / 2 ^ k % 2 == 1

-- byte | 1 << k
unfoldable pub set_byte : ℕ → ℕ → ℕ
set_byte b k = bit_or b (2 ^ k)

-- byte & (uint8_t)~(1 << k)
unfoldable pub clear_byte : ℕ → ℕ → ℕ
clear_byte b k = bit_and b (255 - 2 ^ k)

unfoldable pub test_bit : List ℕ → ℕ → Bool
unfolding byte_at
test_bit bytes row = test_byte (byte_at bytes (row / 8)) (row % 8)

unfoldable pub set_bit : List ℕ → ℕ → List ℕ
unfolding byte_at
set_bit bytes row = set bytes (row / 8) (set_byte (byte_at bytes (row / 8)) (row % 8))

unfoldable pub clear_bit : List ℕ → ℕ → List ℕ
unfolding byte_at
clear_bit bytes row = set bytes (row / 8) (clear_byte (byte_at bytes (row / 8)) (row % 8))
