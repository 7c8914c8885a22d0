-- ===== src/Arena.antt =====
-- c/include/arena.h and c/src/arena.c: the block allocator behind every table, index and parser.
-- A pointer that a call returns is modelled by whether it is NULL; what the memory holds is a
-- value of the client's. `supply` is what `budget_charge` and `malloc` answer to the n-th request
-- for a block: an address, or none.
pub mod Checked
pub mod Blocks
pub mod Alloc
use db.Prelude.{
  ℕ, zero, suc, ◌+◌, ◌-◌, ◌*◌, ◌/◌, ◌%◌, ◌^◌, bit_and, Bool, true, false, not, ◌&&◌, ◌||◌, Option,
  none, some, List, [], ◌∷◌, ◌++◌, length, ltb, leb, ◌==◌, if◌then◌else◌,
}
use db.Prelude.Bits.{word, size_max}

pub data ArenaFailure : Type 0 where
  arena_ok arena_fail_oom arena_fail_misuse : ArenaFailure

pub record Block : Type 0 where
  pub address : ℕ
  pub capacity : ℕ
  pub used : ℕ

-- The block list from `first` is `full ++ rest`, and `head` points at the first block of `rest`.
pub record Arena : Type 0 where
  pub full : List Block
  pub rest : List Block
  pub block_size : ℕ
  pub bytes_used : ℕ
  pub bytes_allocd : ℕ
  pub failure : ArenaFailure
  pub supply : ℕ → Option ℕ
  pub asked : ℕ

abbrev pub arena_block_size : ℕ
arena_block_size = 4096

abbrev pub hog_factor : ℕ
hog_factor = 4

-- sizeof(Block): a pointer and two sizes.
abbrev pub block_header : ℕ
block_header = 24

abbrev pub is_ok : ArenaFailure → Bool
is_ok arena_ok = true
is_ok _ = false

unfoldable pub latch : Arena → ArenaFailure → Arena
latch a f = if is_ok a.failure then record a { failure = f } else a

unfoldable pub is_power_of_two : ℕ → Bool
is_power_of_two n = not (n == 0) && (bit_and n (n - 1) == 0)

-- `checked_add_size` and `checked_mul_size`: `none` where they return 1.
unfoldable pub checked_add_size : ℕ → ℕ → Option ℕ
checked_add_size a b = if ltb (size_max - b) a then none else some ((a + b) % word)

unfoldable pub checked_mul_size : ℕ → ℕ → Option ℕ
checked_mul_size a b = if not (a == 0) && ltb (size_max / a) b then none else some (a * b % word)

-- The value, or 0 with the out-of-memory failure latched.
abbrev or_latch : Arena → Option ℕ → ℕ × Arena
or_latch a none = (0, latch a arena_fail_oom)
or_latch a (some out) = (out, a)

unfoldable pub arena_checked_add : Arena → ℕ → ℕ → ℕ × Arena
unfolding checked_add_size
arena_checked_add a x y = or_latch a (checked_add_size x y)

unfoldable pub arena_checked_mul : Arena → ℕ → ℕ → ℕ × Arena
unfolding checked_mul_size
arena_checked_mul a x y = or_latch a (checked_mul_size x y)

unfoldable pub block_alloc_size : Arena → ℕ → ℕ × Arena
unfolding checked_add_size
block_alloc_size a capacity = or_latch a (checked_add_size block_header capacity)

-- What the next request for a block is answered, after the size check.
request : Arena → ℕ → Option Block × Arena
request a capacity = elim (a.supply a.asked) [
  | none ↦ (none, latch (record a { asked = a.asked + 1 }) arena_fail_oom)
  | some address ↦ (
    some (record { address = address; capacity = capacity; used = 0 }),
    record a { asked = a.asked + 1 },
  )
]

unfoldable pub new_block : Arena → ℕ → Option Block × Arena
unfolding request block_alloc_size
new_block a capacity =
    let (total, b) = block_alloc_size a capacity in
    if total == 0 then (none, b) else request b capacity

-- `while (cap < target)`: doubling, and the target itself past SIZE_MAX / 2. Sixty-four doublings
-- reach any 64-bit target from a positive size.
unfoldable pub double_to : ℕ → ℕ → ℕ → ℕ
double_to zero cap target = cap
double_to (suc fuel) cap target =
    let more = double_to fuel (cap * 2) target in
    if ltb cap target then (if ltb (size_max / 2) cap then target else more) else cap

abbrev doublings : ℕ
doublings = 64

abbrev or_self : Option ℕ → ℕ → ℕ
or_self none d = d
or_self (some n) d = n

capacity_for : Arena → Option ℕ → ℕ × Arena
capacity_for a none = (0, latch a arena_fail_oom)
capacity_for a (some needed) =
    (double_to doublings a.block_size (or_self (checked_mul_size needed hog_factor) needed), a)

unfoldable pub next_block_capacity : Arena → ℕ → ℕ → ℕ × Arena
unfolding capacity_for checked_add_size checked_mul_size
next_block_capacity a size align = capacity_for a (checked_add_size size (align - 1))

abbrev empty_arena : (ℕ → Option ℕ) → Arena
empty_arena supply = record {
  full = [];
  rest = [];
  block_size = arena_block_size;
  bytes_used = 0;
  bytes_allocd = 0;
  failure = arena_ok;
  supply = supply;
  asked = 0;
}

first_block : Option Block × Arena → Arena
first_block (none, a) = a
first_block (some b, a) = record a { rest = b ∷ []; bytes_allocd = block_header + arena_block_size }

unfoldable pub arena_init : (ℕ → Option ℕ) → Arena
unfolding first_block new_block
arena_init supply = first_block (new_block (empty_arena supply) arena_block_size)

-- The blocks go back to `malloc` and their bytes to the budget.
unfoldable pub arena_term : Arena → Arena
arena_term a = record a { full = []; rest = []; bytes_allocd = 0 }

unuse : List Block → List Block
unuse [] = []
unuse (b ∷ bs) = record b { used = 0 } ∷ unuse bs

unfoldable pub arena_reset : Arena → Arena
unfolding unuse
arena_reset a = record a { full = []; rest = unuse (a.full ++ a.rest); bytes_used = 0 }

-- Bytes to skip so that the next address of the block is a multiple of `align`.
unfoldable pub padding_of : Block → ℕ → ℕ
padding_of b align =
    let cur = b.address + b.used in bit_and ((cur + align - 1) % word) (word - align) - cur

unfoldable pub fits : Block → ℕ → ℕ → Bool
fits b size padding =
    let avail = b.capacity - b.used in leb padding avail && leb size (avail - padding)

use_block : Arena → Block → List Block → ℕ → Arena
use_block a b bs amount = record a {
  rest = record b { used = b.used + amount } ∷ bs;
  bytes_used = (a.bytes_used + amount) % word;
}

-- Whether the loop goes on with a new head, or returns NULL.
pub data Extended : Type 0 where
  ready refused : Arena → Extended

-- The first block of an arena that has none.
adopt_first : Option Block × Arena → ℕ → Extended
adopt_first (none, a) size = refused a
adopt_first (some b, a) size =
    ready (record a { rest = b ∷ []; bytes_allocd = (a.bytes_allocd + size) % word })

charge : Arena → Option ℕ → Extended
charge a none = refused (latch a arena_fail_oom)
charge a (some n) = ready (record a { bytes_allocd = n })

-- A new last block becomes the head; then its size is added to the total.
adopt_next : Block → ℕ → ℕ → Option Block × Arena → Extended
unfolding charge checked_add_size
adopt_next last cap allocd (none, a) = refused a
adopt_next last cap allocd (some b, a) =
    charge (record a { full = a.full ++ (last ∷ []); rest = b ∷ []; block_size = cap })
      (checked_add_size a.bytes_allocd allocd)

extend_with : Block → ℕ → ℕ × Arena → Extended
unfolding adopt_next new_block
extend_with last cap (allocd, a) =
    if allocd == 0 then refused a else adopt_next last cap allocd (new_block a cap)

extend_by : Block → ℕ × Arena → Extended
unfolding extend_with block_alloc_size
extend_by last (cap, a) =
    if cap == 0 then refused a else extend_with last cap (block_alloc_size a cap)

-- `head` is the last block and the request does not fit into it.
pub extend_last : Arena → Block → ℕ → ℕ → Extended
unfolding extend_by next_block_capacity
extend_last a last size align = extend_by last (next_block_capacity a size align)

pub extend_empty : Arena → Extended
unfolding adopt_first new_block block_alloc_size
extend_empty a = adopt_first (new_block a a.block_size) (block_alloc_size a a.block_size).0

-- The loop of `arena_alloc`, a round at a time: place, go to the next block, or ask for one.
pub alloc_loop : ℕ → Arena → List Block → ℕ → ℕ → Bool × Arena
alloc_loop zero a blocks size align = (false, a)
alloc_loop (suc fuel) a [] size align = elim (extend_empty a) [
  | refused b ↦ (false, b)
  | ready b ↦ alloc_loop fuel b b.rest size align
]
alloc_loop (suc fuel) a (b ∷ []) size align = elim (fits b size (padding_of b align)) [
  | true ↦ (true, use_block a b [] (padding_of b align + size))
  | false ↦ elim (extend_last a b size align) [
    | refused c ↦ (false, c)
    | ready c ↦ alloc_loop fuel c c.rest size align
  ]
]
alloc_loop (suc fuel) a (b ∷ c ∷ bs) size align = elim (fits b size (padding_of b align)) [
  | true ↦ (true, use_block a b (c ∷ bs) (padding_of b align + size))
  | false ↦
      alloc_loop fuel (record a { full = a.full ++ (b ∷ []); rest = c ∷ bs }) (c ∷ bs) size align
]

-- One round for each block from the head on, and three for the blocks that it may ask for.
unfoldable pub arena_alloc : Arena → ℕ → ℕ → Bool × Arena
unfolding alloc_loop extend_empty extend_last use_block fits padding_of
arena_alloc a size align =
    if is_power_of_two align
    then (if is_ok a.failure
        then alloc_loop (length a.rest + 3) a a.rest size align
        else (false, a))
    else (false, latch a arena_fail_misuse)

-- The zero fill and the copy of `arena_zalloc`, `arena_grow` and `arena_memdup` are values of the
-- client's; as to the arena each of them is one allocation.
unfoldable pub arena_zalloc : Arena → ℕ → ℕ → Bool × Arena
unfolding arena_alloc
arena_zalloc a size align = arena_alloc a size align

unfoldable pub arena_grow : Arena → ℕ → ℕ → Bool × Arena
unfolding arena_alloc
arena_grow a new_size align = arena_alloc a new_size align

unfoldable pub arena_fail : Arena → ArenaFailure → Arena
unfolding latch
arena_fail a f = latch a f

unfoldable pub arena_failed : Arena → Bool
arena_failed a = not (is_ok a.failure)

unfoldable pub arena_take_failure : Arena → ArenaFailure × Arena
arena_take_failure a = (a.failure, record a { failure = arena_ok })
