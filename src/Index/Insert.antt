-- ===== src/Index/Insert.antt =====
-- `row_index_insert` as a whole: the invariant of the index, and what an insertion adds.
use db.Prelude.{
  ℕ, suc, ◌+◌, ◌*◌, ◌/◌, ◌^◌, ◌≤◌, ◌≡◌, ◌≢◌, ◌⊎◌, inl, inr, refl, ap, subst, Bool, true, false,
  Option, none, some, [], arith, ◌==◌, Bool-cases, replicate, ==_iff,
}
use native.Mathlib.Nat.{pow-suc}
use db.Arena.{Arena, is_ok, arena_checked_mul}
use db.Arena.Checked.{arena_checked_mul-ok, arena_zalloc-ok}
use db.Index.{
  no_slot, RowIndex, raw_insert, reinsert, row_index_insert, needs_grow, grow, regrown, doubled,
  alloc_slots, add_entry, add_grown, row_index_clear,
}
use db.Index.Probe.{occupancy}
use db.Index.Store.{IsTable, Holds, raw_insert-Inserted}
use db.Index.Regrow.{reinsert-Merged, empty-IsTable, empty-Holds, occupancy-empty}

-- No slots yet, or a table whose capacity is a power of two from 8 on.
pub data HasShape (idx : RowIndex) : Type 0 where
  unallocated : idx.capacity ≡ 0 → idx.slots ≡ [] → HasShape idx
  allocated : (k : ℕ) → idx.capacity ≡ 2 ^ k → 8 ≤ idx.capacity → IsTable k idx.slots → HasShape idx

-- The invariant: the count is that of the taken slots, and at most three quarters are taken.
pub record IsIndex (idx : RowIndex) : Type 0 where
  pub shape : HasShape idx
  pub counted : occupancy idx.slots ≡ idx.count
  pub load : idx.count ≤ idx.capacity / 4 * 3

pub row_index_clear-IsIndex : IsIndex row_index_clear
unfolding occupancy
row_index_clear-IsIndex = record {
  shape = unallocated refl refl;
  counted = refl;
  load = omega arith;
}

-- `idx'` holds the entries of `idx` and one more.
pub record Adds (idx idx' : RowIndex) (h r : ℕ) : Type 0 where
  pub added : Holds idx'.slots h r
  pub kept : (h' r' : ℕ) → Holds idx.slots h' r' → Holds idx'.slots h' r'
  pub nothing_else :
      (h' r' : ℕ) → Holds idx'.slots h' r' → Holds idx.slots h' r' ⊎ (h' ≡ h) × (r' ≡ r)

-- An index with room for one more entry.
record HasRoom (idx : RowIndex) (k : ℕ) : Type 0 where
  size : idx.capacity ≡ 2 ^ k
  large : 8 ≤ idx.capacity
  table : IsTable k idx.slots
  counted : occupancy idx.slots ≡ idx.count
  room : idx.count + 1 ≤ idx.capacity / 4 * 3

add_entry-Adds :
    (idx : RowIndex) (k h r : ℕ)
    → HasRoom idx k
    → IsIndex (add_entry idx h r) × Adds idx (add_entry idx h r) h r
unfolding add_entry
add_entry-Adds idx k h r t =
    let i =
      raw_insert-Inserted k idx.slots h r t.table (omega (arith, t.counted, t.room, t.size)) in
    let same : raw_insert idx.slots idx.capacity h r ≡ raw_insert idx.slots (2 ^ k) h r =
      ap (λ c. raw_insert idx.slots c h r) t.size in
    (
      record {
        shape = allocated k t.size t.large (rw same i.table);
        counted = rw same (omega (arith, i.one_more, t.counted));
        load = t.room;
      },
      record {
        added = rw same i.added;
        kept = rw same i.kept;
        nothing_else = rw same i.nothing_else;
      },
    )

-- A grown index is healthy, has room, and has the same entries.
record Regrown (idx grown : RowIndex) (k : ℕ) : Type 0 where
  room : HasRoom grown k
  healthy : grown.degraded ≡ false
  kept : (h r : ℕ) → Holds idx.slots h r → Holds grown.slots h r
  nothing_else : (h r : ℕ) → Holds grown.slots h r → Holds idx.slots h r

abbrev Grows : RowIndex → Option RowIndex × Arena → Type 0
Grows idx (none, b) = Unit {0}
Grows idx (some grown, b) = (k : ℕ) × Regrown idx grown k

-- A capacity for one more entry than the index has.
record NextCap (idx : RowIndex) (new_cap k : ℕ) : Type 0 where
  size : new_cap ≡ 2 ^ k
  large : 8 ≤ new_cap
  fits : idx.count + 1 ≤ new_cap / 4 * 3

alloc_slots-ok : (n : ℕ) (a : Arena) → (alloc_slots n a).0 ≡ true → is_ok a.failure ≡ true
unfolding alloc_slots
alloc_slots-ok n a h =
    let zalloc = arena_zalloc-ok (arena_checked_mul a n 24).1 (arena_checked_mul a n 24).0 8 h in
    subst (λ (b : Arena). is_ok b.failure ≡ true) (arena_checked_mul-ok a n 24 zalloc).1 zalloc

doubled_cases :
    (idx : RowIndex) (a : Arena)
    → is_ok (doubled idx a).1.failure ≡ true
    → (idx.capacity ≡ 0) × ((doubled idx a).0 ≡ 8)
      ⊎ (idx.capacity ≢ 0) × ((doubled idx a).0 ≡ idx.capacity * 2)
unfolding doubled
doubled_cases idx a h = elim (Bool-cases (idx.capacity == 0)) [
  | inl zero_cap ↦ rw (zero_cap, doubled) (inl ((==_iff idx.capacity 0).0 zero_cap, refl))
  | inr pos_cap ↦
      rw (pos_cap, doubled)
        (inr (
          λ e. cc ((==_iff idx.capacity 0).1 e),
          (arena_checked_mul-ok a idx.capacity 2 (rw (pos_cap, doubled) at h)).0,
        ))
]

next_cap :
    (idx : RowIndex) (n : ℕ)
    → IsIndex idx
    → (idx.capacity ≡ 0) × (n ≡ 8) ⊎ (idx.capacity ≢ 0) × (n ≡ idx.capacity * 2)
    → (k : ℕ) × NextCap idx n k
next_cap idx n t (inl (zero_cap, e)) =
    (3, record { size = e; large = omega arith; fits = omega (arith, t.load) })
next_cap idx n t (inr (pos_cap, e)) = elim t.shape [
  | unallocated z _ ↦ absurd (pos_cap z)
  | allocated k size large _ ↦ (
    suc k,
    record { size = omega (arith, pow-suc 2 k); large = omega arith; fits = omega (arith, t.load) },
  )
]

regrown-Grows :
    (idx : RowIndex) (n : ℕ) (r : Bool × Arena)
    → IsIndex idx
    → (r.0 ≡ true → (k : ℕ) × NextCap idx n k)
    → Grows idx (regrown idx n r)
unfolding regrown
regrown-Grows idx n (false, b) t next = tt
regrown-Grows idx n (true, b) t next =
    let (k, c) = next refl in
    let m =
      reinsert-Merged k idx.slots (replicate (2 ^ k) no_slot) (empty-IsTable k)
        (omega (arith, occupancy-empty (2 ^ k), t.counted, t.load, c.size, c.fits)) in
    let same : reinsert idx.slots (replicate n no_slot) n
        ≡ reinsert idx.slots (replicate (2 ^ k) no_slot) (2 ^ k) =
      ap (λ c. reinsert idx.slots (replicate c no_slot) c) c.size in
    (
      k,
      record {
        room = record {
          size = c.size;
          large = c.large;
          table = rw same m.table;
          counted = rw same (omega (arith, m.sum, occupancy-empty (2 ^ k), t.counted));
          room = c.fits;
        };
        healthy = refl;
        kept = rw same m.old;
        nothing_else = λ h r x. elim (m.nothing_else h r (rw same at x)) [
          | inl before ↦ before
          | inr fresh ↦ absurd (empty-Holds (2 ^ k) h r fresh)
        ];
      },
    )

grow-Grows : (idx : RowIndex) (a : Arena) → IsIndex idx → Grows idx (grow idx a)
unfolding grow
grow-Grows idx a t =
    regrown-Grows idx _ (alloc_slots (doubled idx a).0 (doubled idx a).1) t (λ granted.
      next_cap idx (doubled idx a).0 t (doubled_cases idx a (alloc_slots-ok _ _ granted)))

-- The index is three quarters full, which an index without slots is too, the arena refuses the slots
-- of the next capacity, and the index is as before but marked degraded.
pub record Degrades (idx : RowIndex) (a : Arena) (idx' : RowIndex) : Type 0 where
  pub marked : idx' ≡ record idx { degraded = true }
  pub full : idx.capacity / 4 * 3 ≤ idx.count
  pub refused : (alloc_slots (doubled idx a).0 (doubled idx a).1).0 ≡ false

-- The two outcomes of an insertion: the entry is in, or the index is degraded.
abbrev pub Inserts : RowIndex → Arena → ℕ → ℕ → RowIndex → Type 0
Inserts idx a h r idx' =
    Degrades idx a idx' ⊎ Adds idx idx' h r × ((idx.degraded ≡ false) → (idx'.degraded ≡ false))

record Added (idx : RowIndex) (a : Arena) (idx' : RowIndex) (h r : ℕ) : Type 0 where
  index : IsIndex idx'
  outcome : Inserts idx a h r idx'

-- Growth answers nothing only where the slots are refused.
regrown_refused :
    (idx : RowIndex) (n : ℕ) (r : Bool × Arena)
    → ((grown : RowIndex) → (regrown idx n r).0 ≡ some grown → ⊥)
    → r.0 ≡ false
unfolding regrown
regrown_refused idx n (false, b) never = refl
regrown_refused idx n (true, b) never = absurd (never _ refl)

degrade-IsIndex : (idx : RowIndex) → IsIndex idx → IsIndex (record idx { degraded = true })
degrade-IsIndex idx t = record {
  shape = elim t.shape [
    | unallocated z e ↦ unallocated z e
    | allocated k e l x ↦ allocated k e l x
  ];
  counted = t.counted;
  load = t.load;
}

add_grown-Added :
    (idx : RowIndex) (a : Arena) (h r : ℕ) (g : Option RowIndex × Arena)
    → IsIndex idx
    → idx.capacity / 4 * 3 ≤ idx.count
    → (g.0 ≡ none → (alloc_slots (doubled idx a).0 (doubled idx a).1).0 ≡ false)
    → Grows idx g
    → Added idx a (add_grown idx h r g).0 h r
unfolding add_grown
add_grown-Added idx a h r (none, b) t full why g = record {
  index = degrade-IsIndex idx t;
  outcome = inl (record { marked = refl; full = full; refused = why refl });
}
add_grown-Added idx a h r (some grown, b) t full why (k, g) =
    let (index, adds) = add_entry-Adds grown k h r g.room in
    record {
      index = index;
      outcome = inr (
        record {
          added = adds.added;
          kept = λ h' r' x. adds.kept h' r' (g.kept h' r' x);
          nothing_else = λ h' r' x. elim (adds.nothing_else h' r' x) [
            | inl before ↦ inl (g.nothing_else h' r' before)
            | inr new ↦ inr new
          ];
        },
        λ _. unfold add_entry in g.healthy,
      );
    }

grow_refused :
    (idx : RowIndex) (a : Arena)
    → (grow idx a).0 ≡ none
    → (alloc_slots (doubled idx a).0 (doubled idx a).1).0 ≡ false
unfolding grow
grow_refused idx a nothing =
    regrown_refused idx (doubled idx a).0 (alloc_slots (doubled idx a).0 (doubled idx a).1)
      (λ grown e. cc (nothing, e))

full_now : (idx : RowIndex) → needs_grow idx ≡ true → idx.capacity / 4 * 3 ≤ idx.count
unfolding needs_grow
full_now idx h = ground arith

room_now : (idx : RowIndex) → IsIndex idx → needs_grow idx ≡ false → (k : ℕ) × HasRoom idx k
unfolding needs_grow
room_now idx t h = elim t.shape [
  | unallocated z _ ↦ absurd (ground arith)
  | allocated k size large table ↦ (
    k,
    record { size = size; large = large; table = table; counted = t.counted; room = ground arith },
  )
]

row_index_insert-Added :
    (idx : RowIndex) (a : Arena) (h r : ℕ)
    → IsIndex idx
    → Added idx a (row_index_insert idx a h r).0 h r
unfolding row_index_insert
row_index_insert-Added idx a h r t = elim (Bool-cases (needs_grow idx)) [
  | inl full ↦
      rw (full, row_index_insert)
        (add_grown-Added idx a h r (grow idx a) t (full_now idx full) (grow_refused idx a)
          (grow-Grows idx a t))
  | inr roomy ↦
      let (k, room) = room_now idx t roomy in
      let (index, adds) = add_entry-Adds idx k h r room in
      rw (roomy, row_index_insert)
        (record { index = index; outcome = inr (adds, λ e. unfold add_entry in e) })
]

-- `row_index_insert` keeps the invariant of the index: a capacity that is zero or a power of two
-- from 8 on, a count that is the number of taken slots and at most three quarters of the capacity,
-- and every entry on the probe run of its hash.
pub row_index_insert-IsIndex :
    (idx : RowIndex) (a : Arena) (h r : ℕ) → IsIndex idx → IsIndex (row_index_insert idx a h r).0
row_index_insert-IsIndex idx a h r t = (row_index_insert-Added idx a h r t).index

-- `row_index_insert` on a well-formed index adds the entry and keeps the others, with nothing else,
-- and a healthy index stays healthy; or, only where three quarters of the slots are taken and the
-- arena refuses the slots of the next capacity, leaves the index as it was but marked as degraded.
pub row_index_insert-Inserts :
    (idx : RowIndex) (a : Arena) (h r : ℕ)
    → IsIndex idx
    → Inserts idx a h r (row_index_insert idx a h r).0
row_index_insert-Inserts idx a h r t = (row_index_insert-Added idx a h r t).outcome
