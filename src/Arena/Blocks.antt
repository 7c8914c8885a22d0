-- ===== src/Arena/Blocks.antt =====
-- What the steps of the loop of `arena_alloc` in c/src/arena.c give.
use db.Prelude.{
  ℕ, zero, suc, ◌+◌, ◌-◌, ◌*◌, ◌%◌, ◌^◌, ◌≤◌, ◌<◌, ◌≡◌, ◌⊎◌, inl, inr, refl, suc-eq-zero,
  Option-cases, Bool-cases, ltb, Option, none, some, arith, true, [], ◌∷◌, ap,
}
use db.Prelude.Bits.{word, size_max, pow_pos, bit_and-high_mask-le}
use native.Mathlib.Nat.{pow-suc}
use db.Arena.Checked.{checked_mul_size_lem}
use db.Arena.{
  Arena, Block, arena_fail_oom, arena_failed, latch, new_block, adopt_first, double_to,
  next_block_capacity, Extended, ready, refused, extend_last, extend_empty, block_alloc_size,
  checked_add_size, checked_mul_size, padding_of, request, adopt_next, extend_by, extend_with,
  or_self,
}

pub double_to-ge :
    (fuel size target : ℕ)
    → 0 < size
    → target ≤ size * 2 ^ fuel
    → target ≤ double_to fuel size target
unfolding double_to
double_to-ge zero size target p h = let one : 2 ^ zero ≡ 1 = refl in omega (arith, h)
double_to-ge (suc fuel) size target p h =
    let more : target ≤ size * 2 * 2 ^ fuel = omega (arith, ap (λ t. size * t) (pow-suc 2 fuel)) in
    ground (arith, double_to-ge fuel (size * 2) target)

-- A block that `new_block` returns is empty, of the size asked for, at an address that was supplied.
pub record IsFresh (a : Arena) (capacity : ℕ) (b : Block) (c : Arena) : Type 0 where
  pub size : b.capacity ≡ capacity
  pub unused : b.used ≡ 0
  pub healthy : c.failure ≡ a.failure
  pub origin : a.supply a.asked ≡ some b.address
  pub same : c.supply ≡ a.supply

abbrev pub Answers : Arena → ℕ → Option Block × Arena → Type 0
Answers a capacity (none, c) = arena_failed c ≡ true
Answers a capacity (some b, c) = IsFresh a capacity b c

request-Answers : (a : Arena) (capacity : ℕ) → Answers a capacity (request a capacity)
unfolding request arena_failed latch
request-Answers a capacity = elim (Option-cases (a.supply a.asked)) [
  | inl e ↦ rw (e, request) (ground arith)
  | inr (address, e) ↦
      rw (e, request)
        (record { size = refl; unused = refl; healthy = refl; origin = e; same = refl })
]

-- The size with the header, or 0 with a failure latched.
block_alloc_size_cases :
    (a : Arena) (capacity : ℕ)
    → ((block_alloc_size a capacity ≡ (0, latch a arena_fail_oom)))
      ⊎ ((total : ℕ) × (block_alloc_size a capacity ≡ (suc total, a)))
unfolding block_alloc_size
block_alloc_size_cases a capacity = elim (Bool-cases (ltb (size_max - capacity) 24)) [
  | inl big ↦ inl (ground arith)
  | inr small ↦ inr (23 + capacity, ground arith)
]

pub latch-failed : (a : Arena) → arena_failed (latch a arena_fail_oom) ≡ true
unfolding latch arena_failed
latch-failed a = ground arith

pub new_block-Answers : (a : Arena) (capacity : ℕ) → Answers a capacity (new_block a capacity)
unfolding new_block
new_block-Answers a capacity = elim (block_alloc_size_cases a capacity) [
  | inl e ↦ rw (e, new_block) (latch-failed a)
  | inr (total, e) ↦ rw (e, new_block, suc-eq-zero total) (request-Answers a capacity)
]

pub target-bounds :
    (needed : ℕ)
    → needed < word
    → (needed ≤ or_self (checked_mul_size needed 4) needed)
      × (or_self (checked_mul_size needed 4) needed < word)
target-bounds needed h = elim (checked_mul_size_lem needed 4 h (omega arith)) [
  | inl (p, e) ↦ rw e (omega arith, p)
  | inr (_, e) ↦ rw e (omega arith, h)
]

-- `padding_of` skips less than the alignment, at an address that leaves room for it.
pub padding_of-lt :
    (b : Block) (k j : ℕ)
    → word ≡ 2 ^ (k + j)
    → b.address + b.used + 2 ^ k ≤ word
    → padding_of b (2 ^ k) < 2 ^ k
unfolding padding_of
padding_of-lt b k j e room =
    omega
      (arith, bit_and-high_mask-le ((b.address + b.used + 2 ^ k - 1) % word) word k j e, pow_pos k)

-- The arena after a round that found no room: one empty block, with room for the request.
pub record IsReady (a c : Arena) (size align : ℕ) (head : Block) : Type 0 where
  pub only : c.rest ≡ head ∷ []
  pub unused : head.used ≡ 0
  pub roomy : size + align ≤ head.capacity + 1
  pub healthy : c.failure ≡ a.failure
  pub same : c.supply ≡ a.supply
  pub origin : a.supply a.asked ≡ some head.address

abbrev pub Extends : Arena → ℕ → ℕ → Extended → Type 0
Extends a size align (refused c) = arena_failed c ≡ true
Extends a size align (ready c) = (head : Block) × IsReady a c size align head

pub double_to-ge_size : (fuel size target : ℕ) → size ≤ double_to fuel size target
unfolding double_to
double_to-ge_size zero size target = omega arith
double_to-ge_size (suc fuel) size target = ground (arith, double_to-ge_size fuel (size * 2) target)

-- What `next_block_capacity` returns: 0 with a failure latched, or a capacity that is enough.
pub next_block_capacity_cases :
    (a : Arena) (size align : ℕ)
    → 0 < a.block_size
    → size < word
    → align < word
    → (arena_failed (next_block_capacity a size align).1 ≡ true)
        × ((next_block_capacity a size align).0 ≡ 0)
      ⊎ ((next_block_capacity a size align).1 ≡ a)
        × (0 < (next_block_capacity a size align).0)
        × (size + align ≤ (next_block_capacity a size align).0 + 1)
unfolding next_block_capacity arena_failed latch
next_block_capacity_cases a size align p hs ha = ground (
  arith,
  target-bounds (size + (align - 1)),
  double_to-ge 64 a.block_size
      (or_self (checked_mul_size (size + (align - 1)) 4) (size + (align - 1))),
  double_to-ge_size 64 a.block_size
      (or_self (checked_mul_size (size + (align - 1)) 4) (size + (align - 1))),
)

adopt_next-Extends :
    (a : Arena) (last : Block) (capacity allocd size align : ℕ) (r : Option Block × Arena)
    → size + align ≤ capacity + 1
    → Answers a capacity r
    → Extends a size align (adopt_next last capacity allocd r)
unfolding adopt_next
adopt_next-Extends a last capacity allocd size align (none, c) h t = t
adopt_next-Extends a last capacity allocd size align (some b, c) h t =
    elim (Option-cases (checked_add_size c.bytes_allocd allocd)) [
      | inl e ↦ rw (e, adopt_next) (latch-failed _)
      | inr (n, e) ↦
          rw (e, adopt_next)
            (
              b,
              record {
                only = refl;
                unused = t.unused;
                roomy = rw t.size h;
                healthy = t.healthy;
                same = t.same;
                origin = t.origin;
              },
            )
    ]

extend_with-Extends :
    (a : Arena) (last : Block) (capacity size align : ℕ)
    → size + align ≤ capacity + 1
    → Extends a size align (extend_with last capacity (block_alloc_size a capacity))
unfolding extend_with
extend_with-Extends a last capacity size align h = elim (block_alloc_size_cases a capacity) [
  | inl e ↦ rw (e, extend_with) (latch-failed a)
  | inr (total, e) ↦
      rw (e, extend_with, suc-eq-zero total)
        (adopt_next-Extends a last capacity (suc total) size align (new_block a capacity) h
          (new_block-Answers a capacity))
]

extend_by-Extends :
    (a c : Arena) (last : Block) (capacity size align : ℕ)
    → (arena_failed c ≡ true) × (capacity ≡ 0)
      ⊎ (c ≡ a) × (0 < capacity) × (size + align ≤ capacity + 1)
    → Extends a size align (extend_by last (capacity, c))
unfolding extend_by
extend_by-Extends a c last capacity size align (inl (f, z)) = rw (z, extend_by) f
extend_by-Extends a c last zero size align (inr (e, p, h)) = absurd (omega arith)
extend_by-Extends a c last (suc n) size align (inr (e, p, h)) =
    rw (e, extend_by, suc-eq-zero n) (extend_with-Extends a last (suc n) size align h)

pub extend_last-Extends :
    (a : Arena) (last : Block) (size align : ℕ)
    → 0 < a.block_size
    → size < word
    → align < word
    → Extends a size align (extend_last a last size align)
unfolding extend_last
extend_last-Extends a last size align p hs ha =
    extend_by-Extends a _ last _ size align (next_block_capacity_cases a size align p hs ha)

-- The first block of an empty arena.
pub record IsFirst (a c : Arena) (head : Block) : Type 0 where
  pub only : c.rest ≡ head ∷ []
  pub sized : c.block_size ≡ a.block_size
  pub healthy : c.failure ≡ a.failure
  pub same : c.supply ≡ a.supply

abbrev pub Starts : Arena → Extended → Type 0
Starts a (refused c) = arena_failed c ≡ true
Starts a (ready c) = (head : Block) × IsFirst a c head

request-block_size : (a : Arena) (capacity : ℕ) → (request a capacity).1.block_size ≡ a.block_size
unfolding request latch
request-block_size a capacity = ground arith

pub new_block-block_size :
    (a : Arena) (capacity : ℕ) → (new_block a capacity).1.block_size ≡ a.block_size
unfolding new_block latch
new_block-block_size a capacity = elim (block_alloc_size_cases a capacity) [
  | inl e ↦ rw (e, new_block) (ground arith)
  | inr (total, e) ↦ rw (e, new_block, suc-eq-zero total) (request-block_size a capacity)
]

adopt_first-Starts :
    (a : Arena) (total : ℕ) (r : Option Block × Arena)
    → r.1.block_size ≡ a.block_size
    → Answers a a.block_size r
    → Starts a (adopt_first r total)
unfolding adopt_first
adopt_first-Starts a total (none, c) e t = t
adopt_first-Starts a total (some b, c) e t =
    (b, record { only = refl; sized = e; healthy = t.healthy; same = t.same })

pub extend_empty-Starts : (a : Arena) → Starts a (extend_empty a)
unfolding extend_empty
extend_empty-Starts a =
    adopt_first-Starts a _ (new_block a a.block_size) (new_block-block_size a a.block_size)
      (new_block-Answers a a.block_size)
