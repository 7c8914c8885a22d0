-- ===== src/Arena/Checked.antt =====
-- Size arithmetic of c/src/arena.c.
use db.Prelude.{
  ℕ, zero, suc, ◌+◌, ◌*◌, ◌/◌, ◌%◌, ◌≤◌, ◌<◌, ◌≡◌, ◌⊎◌, refl, none, some, arith, true, false, ltb,
  inl, inr, Option-cases, Bool-cases,
}
use db.Prelude.Bits.{word, size_max}
use native.Mathlib.Decide.{dec_lt}
use native.Mathlib.Nat.{mod-eq_of_lt, lt_of_le_of_lt}
use db.Arena.{
  Arena, is_ok, latch, checked_add_size, checked_mul_size, arena_checked_mul, arena_alloc,
  arena_zalloc, is_power_of_two, arena_fail_oom,
}

-- `checked_add_size` gives the exact sum of two 64-bit sizes, or reports exactly those sums that
-- do not fit into 64 bits.
pub checked_add_size_lem :
    (a b : ℕ)
    → a < word
    → b < word
    → (a + b < word) × (checked_add_size a b ≡ some (a + b))
      ⊎ (word ≤ a + b) × (checked_add_size a b ≡ none)
unfolding checked_add_size
checked_add_size_lem a b ha hb = elim (dec_lt (a + b) word) [
  | yes fits ↦ inl (fits, ground arith)
  | no over ↦ let large : word ≤ a + b = omega arith in inr (large, ground arith)
]

mul-le-div : (a b m : ℕ) → 0 < a → b ≤ m / a → a * b ≤ m
mul-le-div a b m p h = grind arith

lt-mul-div : (a b m : ℕ) → 0 < a → m / a < b → m < a * b
lt-mul-div a b m p h = grind arith

-- `checked_mul_size` gives the exact product of two 64-bit sizes, or reports exactly those products
-- that do not fit into 64 bits.
pub checked_mul_size_lem :
    (a b : ℕ)
    → a < word
    → b < word
    → (a * b < word) × (checked_mul_size a b ≡ some (a * b))
      ⊎ (word ≤ a * b) × (checked_mul_size a b ≡ none)
unfolding checked_mul_size
checked_mul_size_lem a b ha hb = elim (dec_lt (a * b) word) [
  | yes fits ↦ inl (fits, ground (arith, mul-le-div a b size_max, lt-mul-div a b size_max))
  | no over ↦
      let large : word ≤ a * b = omega arith in
      inr (large, ground (arith, mul-le-div a b size_max, lt-mul-div a b size_max))
]

mul_fits : (x y : ℕ) → ltb (size_max / x) y ≡ false → 0 < x → x * y % word ≡ x * y
mul_fits x y h p =
    mod-eq_of_lt (lt_of_le_of_lt (mul-le-div x y size_max p (ground arith)) (omega arith))

-- Where it does not report an overflow, the product is exact, whatever the operands.
checked_mul_size-some : (x y n : ℕ) → checked_mul_size x y ≡ some n → n ≡ x * y
unfolding checked_mul_size
checked_mul_size-some zero y n e = ground arith
checked_mul_size-some (suc x) y n e = ground (arith, mul_fits (suc x) y)

latch-is_ok : (a : Arena) → is_ok (latch a arena_fail_oom).failure ≡ false
unfolding latch
latch-is_ok a = ground arith

-- A product taken in an arena that is healthy afterwards is exact, and the arena is as before.
pub arena_checked_mul-ok :
    (a : Arena) (x y : ℕ)
    → is_ok (arena_checked_mul a x y).1.failure ≡ true
    → ((arena_checked_mul a x y).0 ≡ x * y) × ((arena_checked_mul a x y).1 ≡ a)
unfolding arena_checked_mul
arena_checked_mul-ok a x y h = elim (Option-cases (checked_mul_size x y)) [
  | inl e ↦ cc (rw (e, arena_checked_mul) at h, latch-is_ok a)
  | inr (n, e) ↦ rw (e, arena_checked_mul) (checked_mul_size-some x y n e, refl)
]

-- Memory is granted to a healthy arena only.
pub arena_zalloc-ok :
    (a : Arena) (size align : ℕ) → (arena_zalloc a size align).0 ≡ true → is_ok a.failure ≡ true
unfolding arena_zalloc arena_alloc
arena_zalloc-ok a size align h = elim (Bool-cases (is_ok a.failure)) [
  | inl healthy ↦ healthy
  | inr broken ↦ elim (Bool-cases (is_power_of_two align)) [
    | inl good ↦ cc (rw (good, broken, arena_alloc) at h)
    | inr bad ↦ cc (rw (bad, arena_alloc) at h)
  ]
]
