-- ===== src/Index.antt =====
-- c/include/index.h and c/src/index.c: the open-addressing hash index from the hash of a primary
-- key to row references. Entries are only ever added; a probe runs over them from the home slot.
pub mod Probe
pub mod Store
pub mod Regrow
pub mod Insert
pub mod Find
use db.Prelude.{
  ℕ, zero, suc, ◌+◌, ◌-◌, ◌*◌, ◌/◌, bit_and, Bool, true, false, not, ◌||◌, Option, none, some, List,
  [], ◌∷◌, leb, ◌==◌, if◌then◌else◌, get_or, set, replicate,
}
use db.Prelude.Bits.{size_max}
use db.Arena.{Arena, arena_checked_mul, arena_zalloc}

-- `RowRef` is a wrapped `size_t`; SIZE_MAX is the invalid one.
abbrev pub RowRef : Type 0
RowRef = ℕ

abbrev pub row_ref_invalid : RowRef
row_ref_invalid = size_max

unfoldable pub row_ref_valid : RowRef → Bool
row_ref_valid r = not (r == size_max)

pub record Slot : Type 0 where
  pub hash : ℕ
  pub row : RowRef
  pub occupied : Bool

-- A zero-filled slot.
abbrev pub no_slot : Slot
no_slot = record { hash = 0; row = 0; occupied = false }

pub record RowIndex : Type 0 where
  pub slots : List Slot
  pub capacity : ℕ
  pub count : ℕ
  pub degraded : Bool

abbrev pub initial_cap : ℕ
initial_cap = 8

-- sizeof(RowIndexSlot) and its alignment.
abbrev slot_size : ℕ
slot_size = 24

abbrev slot_align : ℕ
slot_align = 8

pub needs_grow : RowIndex → Bool
needs_grow idx = (idx.capacity == 0) || leb (idx.capacity / 4 * 3) idx.count

-- `while (slots[i].occupied) i = (i + 1) & mask`, for as many rounds as there are slots. `none` is
-- a full table, on which the source does not return.
pub free_slot : ℕ → List Slot → ℕ → ℕ → Option ℕ
free_slot zero slots mask i = none
free_slot (suc fuel) slots mask i = elim (get_or slots i no_slot).occupied [
  | true ↦ free_slot fuel slots mask (bit_and (i + 1) mask)
  | false ↦ some i
]

put_at : List Slot → Option ℕ → ℕ → RowRef → List Slot
put_at slots none hash row = slots
put_at slots (some i) hash row = set slots i (record { hash = hash; row = row; occupied = true })

pub raw_insert : List Slot → ℕ → ℕ → RowRef → List Slot
unfolding free_slot put_at
raw_insert slots capacity hash row =
    let mask = capacity - 1 in
    put_at slots (free_slot capacity slots mask (bit_and hash mask)) hash row

-- The old slots, first to last, into the new ones.
pub reinsert : List Slot → List Slot → ℕ → List Slot
unfolding raw_insert
reinsert [] grown capacity = grown
reinsert (s ∷ ss) grown capacity =
    reinsert ss (if s.occupied then raw_insert grown capacity s.hash s.row else grown) capacity

-- `arena_checked_mul(a, cap, 2)`, or the first capacity.
pub doubled : RowIndex → Arena → ℕ × Arena
doubled idx a = if idx.capacity == 0 then (initial_cap, a) else arena_checked_mul a idx.capacity 2

-- The new slots, if their memory was granted; then the old ones are left alone.
regrown : RowIndex → ℕ → Bool × Arena → Option RowIndex × Arena
unfolding reinsert
regrown idx new_cap (false, a) = (none, a)
regrown idx new_cap (true, a) = (
  some (record {
    slots = reinsert idx.slots (replicate new_cap no_slot) new_cap;
    capacity = new_cap;
    count = idx.count;
    degraded = false;
  }),
  a,
)

-- The size in bytes, and the memory.
pub alloc_slots : ℕ → Arena → Bool × Arena
alloc_slots new_cap a =
    let (bytes, b) = arena_checked_mul a new_cap slot_size in arena_zalloc b bytes slot_align

pub grow : RowIndex → Arena → Option RowIndex × Arena
unfolding regrown doubled alloc_slots
grow idx a = let (new_cap, b) = doubled idx a in regrown idx new_cap (alloc_slots new_cap b)

pub add_entry : RowIndex → ℕ → RowRef → RowIndex
unfolding raw_insert
add_entry idx hash row = record idx {
  slots = raw_insert idx.slots idx.capacity hash row;
  count = idx.count + 1;
}

add_grown : RowIndex → ℕ → RowRef → Option RowIndex × Arena → RowIndex × Arena
unfolding add_entry
add_grown idx hash row (none, a) = (record idx { degraded = true }, a)
add_grown idx hash row (some grown, a) = (add_entry grown hash row, a)

unfoldable pub row_index_insert : RowIndex → Arena → ℕ → RowRef → RowIndex × Arena
unfolding needs_grow grow add_grown
row_index_insert idx a hash row =
    if needs_grow idx then add_grown idx hash row (grow idx a) else (add_entry idx hash row, a)

unfoldable pub row_index_usable : RowIndex → Bool
row_index_usable idx = not idx.degraded

-- A visitor has its context as state, and says whether to go on.
abbrev pub Visitor : Type 0 → Type 0
Visitor S = S → RowRef → Bool × S

module _ {S : Type 0} (visit : Visitor S) where
  pub find_loop : ℕ → List Slot → ℕ → ℕ → ℕ → S → S
  find_loop zero slots mask hash i s = s
  find_loop (suc probes) slots mask hash i s =
      let slot = get_or slots i no_slot in
      let next = bit_and (i + 1) mask in
      elim slot.occupied [
        | false ↦ s
        | true ↦ elim (slot.hash == hash) [
          | false ↦ find_loop probes slots mask hash next s
          | true ↦ elim (visit s slot.row).0 [
            | false ↦ (visit s slot.row).1
            | true ↦ find_loop probes slots mask hash next (visit s slot.row).1
          ]
        ]
      ]

  unfoldable pub row_index_find : RowIndex → ℕ → S → S
  unfolding find_loop
  row_index_find idx hash s =
      let mask = idx.capacity - 1 in
      if idx.capacity == 0
      then s
      else find_loop idx.capacity idx.slots mask hash (bit_and hash mask) s

abbrev pub row_index_clear : RowIndex
row_index_clear = record { slots = []; capacity = 0; count = 0; degraded = false }
