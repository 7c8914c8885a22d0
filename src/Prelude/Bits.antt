-- ===== src/Prelude/Bits.antt =====
-- Masks and bits: the C operators `&`, `|`, `~` and shifts on unsigned words.
use Prim.Native.Nat.{
  ℕ, zero, suc, ◌+◌, ◌-◌, ◌*◌, ◌/◌, ◌%◌, ◌^◌, ◌≤◌, ◌<◌, min, bit_and, digits, bit_and-bitwise,
}
use mathlib.Core.Path.{◌≡◌, refl, ap, ◌∙◌}
use native.Mathlib.Omega.{arith}
use native.Mathlib.Decide.{ℕ_discrete}
use native.Mathlib.Nat.{
  pow-suc, zero-add, suc-add, div-div-eq-div-mul, mul_comm, le_trans, mul-le-mul_right, mod-le,
  div-mul-le_self,
}

-- The unsigned 64-bit maximum, and the modulus of `size_t` and `uint64_t`.
abbrev pub word : ℕ
word = 2 ^ 64

abbrev pub size_max : ℕ
size_max = 2 ^ 64 - 1

-- The binary digits of a conjunction, `rounds` of them at most.
abbrev conjunction : ℕ → ℕ → ℕ → ℕ
conjunction rounds a b = digits (λ rest. zero) min rounds a b

-- Rounds beyond the first number change nothing.
rounds_enough :
    (b a more rounds : ℕ) → a ≤ rounds → a ≤ more → conjunction rounds a b ≡ conjunction more a b
rounds_enough b (suc a) (suc more) (suc rounds) low high =
    let half = suc a / 2 in
    let fewer : half ≤ rounds = omega arith in
    let less : half ≤ more = omega arith in
    omega (arith, rounds_enough (b / 2) half more rounds fewer less)
rounds_enough b (suc a) zero rounds low high = absurd (omega arith)
rounds_enough b (suc a) (suc more) zero low high = absurd (omega arith)
rounds_enough b zero (suc more) (suc rounds) low high = refl
rounds_enough b zero (suc more) zero low high = refl
rounds_enough b zero zero (suc rounds) low high = refl
rounds_enough b zero zero zero low high = refl

-- The last digit apart from the others.
bit_and_halve : (a b : ℕ) → bit_and a b ≡ bit_and (a / 2) (b / 2) * 2 + min (a % 2) (b % 2)
bit_and_halve (suc a) b =
    let half = suc a / 2 in
    let short : half ≤ a = omega arith in
    let long : half ≤ half = omega arith in
    let same = rounds_enough (b / 2) half half a short long in
    omega (arith, same, bit_and-bitwise half (b / 2), bit_and-bitwise (suc a) b)
bit_and_halve zero b =
    let whole : bit_and 0 b ≡ 0 = bit_and-bitwise 0 b in
    let halved : bit_and 0 (b / 2) ≡ 0 = bit_and-bitwise 0 (b / 2) in omega arith

pub pow_pos : (k : ℕ) → 0 < 2 ^ k
pow_pos zero = omega arith
pow_pos (suc k) = omega (arith, pow-suc 2 k, pow_pos k)

-- No digit is shared with zero, and every digit with the number itself, below 2 ^ k.
bit_and_ends : (k a : ℕ) → a < 2 ^ k → (bit_and a 0 ≡ 0) × (bit_and a a ≡ a)
bit_and_ends zero a h =
    let one : 2 ^ zero ≡ 1 = refl in
    let none_left : a ≡ 0 = omega arith in rw none_left (refl, refl)
bit_and_ends (suc k) a h =
    let (with_zero, with_self) = bit_and_ends k (a / 2) (omega (arith, pow-suc 2 k)) in
    (omega (arith, bit_and_halve a 0), omega (arith, bit_and_halve a a))

lt_pow : (a : ℕ) → a < 2 ^ a
lt_pow zero = omega arith
lt_pow (suc a) = omega (arith, pow-suc 2 a, lt_pow a)

-- The remainder by an even number, from that of the half.
mod_double : (x p : ℕ) → 0 < p → x % (p * 2) ≡ x / 2 % p * 2 + x % 2
mod_double x p h = grind arith

-- A mask of `k` ones takes the remainder by 2 ^ k.
pub bit_and-mask : (k x : ℕ) → bit_and x (2 ^ k - 1) ≡ x % 2 ^ k
bit_and-mask zero x = omega (arith, (bit_and_ends x x (lt_pow x)).0)
bit_and-mask (suc k) x =
    let half : (2 ^ k * 2 - 1) / 2 ≡ 2 ^ k - 1 = omega (arith, pow_pos k) in
    rw (pow-suc 2 k) (
      omega (
        arith,
        bit_and_halve x (2 ^ k * 2 - 1),
        ap (bit_and (x / 2)) half,
        bit_and-mask k (x / 2),
        mod_double x (2 ^ k) (pow_pos k),
        pow_pos k,
      ))

-- Clearing the low `k` of `k + j` bits.
pub bit_and-high_mask : (k j x : ℕ) → bit_and x (2 ^ (k + j) - 2 ^ k) ≡ x / 2 ^ k % 2 ^ j * 2 ^ k
bit_and-high_mask zero j x =
    let one : 2 ^ zero ≡ 1 = refl in
    let whole : x / 1 ≡ x = omega arith in
    rw (zero-add, one, whole) (omega (arith, bit_and-mask j x))
bit_and-high_mask (suc k) j x =
    let halves : (2 ^ (k + j) * 2 - 2 ^ k * 2) / 2 ≡ 2 ^ (k + j) - 2 ^ k = omega arith in
    let quotient : x / 2 / 2 ^ k ≡ x / (2 ^ k * 2) =
      div-div-eq-div-mul x 2 (2 ^ k) ∙ ap (λ t. x / t) (mul_comm 2 (2 ^ k)) in
    rw (suc-add, pow-suc 2 (k + j), pow-suc 2 k, ← quotient)
      (omega (
        arith,
        bit_and_halve x (2 ^ (k + j) * 2 - 2 ^ k * 2),
        ap (bit_and (x / 2)) halves,
        ap (λ t. t * 2) (bit_and-high_mask k j (x / 2)),
      ))

-- Below 2 ^ w, `n & (n - 1)` is 0 at powers of two only.
pub power_of_test :
    (w n : ℕ)
    → n < 2 ^ w
    → 0 < n
    → bit_and n (n - 1) ≡ 0
    → (k : ℕ) × (j : ℕ) × (n ≡ 2 ^ k) × (k + j ≡ w)
power_of_test zero n h p e = let one : 2 ^ zero ≡ 1 = refl in absurd (omega arith)
power_of_test (suc w) n h p e = elim (ℕ_discrete (n % 2) 0) [
  | yes even ↦
      let half : (n - 1) / 2 ≡ n / 2 - 1 = omega arith in
      let (k, j, q, r) =
        power_of_test w (n / 2) (omega (arith, pow-suc 2 w)) (omega arith)
          (omega (arith, bit_and_halve n (n - 1), ap (bit_and (n / 2)) half)) in
      (suc k, j, omega (arith, pow-suc 2 k), omega arith)
  | no odd ↦
      let half : (n - 1) / 2 ≡ n / 2 = omega arith in
      let one : 2 ^ zero ≡ 1 = refl in
      (
        zero,
        suc w,
        omega (
          arith,
          bit_and_halve n (n - 1),
          ap (bit_and (n / 2)) half,
          (bit_and_ends (n / 2) (n / 2) (lt_pow (n / 2))).1,
        ),
        omega arith,
      )
]

pub bit_and-high_mask-le : (x w k j : ℕ) → w ≡ 2 ^ (k + j) → bit_and x (w - 2 ^ k) ≤ x
bit_and-high_mask-le x w k j e =
    rw (e, bit_and-high_mask k j x)
      (le_trans (mul-le-mul_right (2 ^ k) (mod-le (x / 2 ^ k) (2 ^ j))) (div-mul-le_self x (2 ^ k)))
