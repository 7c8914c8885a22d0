-- ===== src/Arena/Alloc.antt =====
-- The loop of `arena_alloc` ends, and a NULL result comes with a latched failure.
use db.Prelude.{
  ℕ, zero, suc, ◌+◌, ◌-◌, ◌^◌, ◌≤◌, ◌<◌, ◌≡◌, ◌⊎◌, inl, inr, refl, ◌∙◌, Bool-cases, Option, some,
  arith, Bool, true, false, List, [], ◌∷◌, length, ap, bit_and,
}
use db.Prelude.Bits.{word, power_of_test}
use mathlib.Core.Path.{subst, subst₂, sym}
use db.Arena.{
  Arena, Block, ArenaFailure, arena_fail_misuse, arena_failed, latch, use_block, Extended, ready,
  refused, extend_last, extend_empty, alloc_loop, arena_alloc, is_ok, padding_of, fits,
  is_power_of_two,
}
use db.Arena.Blocks.{
  padding_of-lt, IsReady, Extends, extend_last-Extends, Starts, extend_empty-Starts,
}

-- Memory, or NULL with a failure latched.
abbrev Settles : ArenaFailure → Bool × Arena → Type 0
Settles f r = (r.0 ≡ true) × (r.1.failure ≡ f) ⊎ (r.0 ≡ false) × (arena_failed r.1 ≡ true)

module _ (size k j : ℕ) (hs : size < word) (ha : 2 ^ k < word) (e : word ≡ 2 ^ (k + j))
    (supply : ℕ → Option ℕ)
    (room : (n address : ℕ) → supply n ≡ some address → address + 2 ^ k ≤ word) where
  fresh-fits :
      (b : Block)
      → b.used ≡ 0
      → size + 2 ^ k ≤ b.capacity + 1
      → b.address + 2 ^ k ≤ word
      → fits b size (padding_of b (2 ^ k)) ≡ true
  unfolding fits
  fresh-fits b u r h = ground (arith, padding_of-lt b k j e)

  ready_round :
      (fuel : ℕ) (a c : Arena) (head : Block)
      → a.supply ≡ supply
      → IsReady a c size (2 ^ k) head
      → Settles a.failure (alloc_loop (suc fuel) c c.rest size (2 ^ k))
  unfolding alloc_loop use_block
  ready_round fuel a c head es r =
      let address = room a.asked head.address (rw (← es) r.origin) in
      rw (r.only, alloc_loop, fresh-fits head r.unused r.roomy address) (inl (refl, r.healthy))

  last_round :
      (fuel : ℕ) (a : Arena) (b : Block)
      → a.supply ≡ supply
      → 0 < a.block_size
      → Settles a.failure (alloc_loop (suc (suc fuel)) a (b ∷ []) size (2 ^ k))
  unfolding alloc_loop use_block
  last_round fuel a b es p = elim (Bool-cases (fits b size (padding_of b (2 ^ k)))) [
    | inl yes' ↦ rw (yes', alloc_loop) (inl (refl, refl))
    | inr no' ↦
        rw (no', alloc_loop)
          (go (extend_last a b size (2 ^ k)) (extend_last-Extends a b size (2 ^ k) p hs ha))
  ]
    where
      go :
          (x : Extended)
          → Extends a size (2 ^ k) x
          → Settles a.failure (elim x [
            | refused c ↦ (false, c)
            | ready c ↦ alloc_loop (suc fuel) c c.rest size (2 ^ k)
          ])
      go (refused c) t = inr (refl, t)
      go (ready c) t = ready_round fuel a c t.0 es t.1

  walk_rounds :
      (bs : List Block) (fuel : ℕ) (a : Arena) (b : Block)
      → length bs + 2 ≤ fuel
      → a.supply ≡ supply
      → 0 < a.block_size
      → Settles a.failure (alloc_loop fuel a (b ∷ bs) size (2 ^ k))
  unfolding alloc_loop use_block
  walk_rounds bs zero a b h es p = absurd (omega arith)
  walk_rounds [] (suc zero) a b h es p = absurd (omega arith)
  walk_rounds [] (suc (suc fuel)) a b h es p = last_round fuel a b es p
  walk_rounds (c ∷ bs) (suc fuel) a b h es p =
      elim (Bool-cases (fits b size (padding_of b (2 ^ k)))) [
        | inl here ↦ rw (here, alloc_loop) (inl (refl, refl))
        | inr full ↦ rw (full, alloc_loop) (walk_rounds bs fuel _ c (omega arith) es p)
      ]

  first_round :
      (fuel : ℕ) (a : Arena)
      → a.supply ≡ supply
      → 0 < a.block_size
      → Settles a.failure (alloc_loop (suc (suc (suc fuel))) a [] size (2 ^ k))
  unfolding alloc_loop
  first_round fuel a es p = go (extend_empty a) (extend_empty-Starts a)
    where
      go :
          (x : Extended)
          → Starts a x
          → Settles a.failure (elim x [
            | refused c ↦ (false, c)
            | ready c ↦ alloc_loop (suc (suc fuel)) c c.rest size (2 ^ k)
          ])
      go (refused c) t = inr (refl, t)
      go (ready c) t =
          subst₂ (λ f bs. Settles f (alloc_loop (suc (suc fuel)) c bs size (2 ^ k))) t.1.healthy
            (sym t.1.only) (last_round fuel c t.0 (t.1.same ∙ es) (rw t.1.sized p))

  alloc_rounds :
      (blocks : List Block) (a : Arena)
      → a.supply ≡ supply
      → 0 < a.block_size
      → Settles a.failure (alloc_loop (length blocks + 3) a blocks size (2 ^ k))
  alloc_rounds [] a es p = first_round 0 a es p
  alloc_rounds (b ∷ bs) a es p = walk_rounds bs _ a b (omega arith) es p

latch-failed_any : (a : Arena) → arena_failed (latch a arena_fail_misuse) ≡ true
unfolding latch arena_failed
latch-failed_any a = ground arith

is_power_of_two-eq : (n : ℕ) → is_power_of_two n ≡ true → (0 < n) × (bit_and n (n - 1) ≡ 0)
unfolding is_power_of_two
is_power_of_two-eq n h = ground arith

settle_healthy :
    (f : ArenaFailure) (r : Bool × Arena)
    → is_ok f ≡ true
    → Settles f r
    → (r.0 ≡ true) × (arena_failed r.1 ≡ false) ⊎ (r.0 ≡ false) × (arena_failed r.1 ≡ true)
unfolding arena_failed
settle_healthy f r h (inl (got, same)) = inl (got, rw (same, h))
settle_healthy f r h (inr lost) = inr lost

alloc_rounds-any :
    (a : Arena) (size align : ℕ)
    → 0 < a.block_size
    → size < word
    → align < word
    → ((n address : ℕ) → a.supply n ≡ some address → address + align ≤ word)
    → is_power_of_two align ≡ true
    → Settles a.failure (alloc_loop (length a.rest + 3) a a.rest size align)
alloc_rounds-any a size align p hs ha room good =
    let (pos, test) = is_power_of_two-eq align good in
    let (k, j, q, w) = power_of_test 64 align ha pos test in
    subst (λ t. Settles a.failure (alloc_loop (length a.rest + 3) a a.rest size t)) (sym q)
      (alloc_rounds size k j hs (rw (← q) ha) (ap (λ t. 2 ^ t) (sym w)) a.supply
        (λ n address e. rw (← q) (room n address e)) a.rest a refl p)

-- `arena_alloc` ends, and returns NULL exactly when the arena then has a failure latched, for a
-- positive block size, a size and an alignment of 64 bits, and blocks supplied at addresses that
-- leave the alignment below the end of memory.
pub arena_alloc-Settles :
    (a : Arena) (size align : ℕ)
    → 0 < a.block_size
    → size < word
    → align < word
    → ((n address : ℕ) → a.supply n ≡ some address → address + align ≤ word)
    → ((arena_alloc a size align).0 ≡ true) × (arena_failed (arena_alloc a size align).1 ≡ false)
      ⊎ ((arena_alloc a size align).0 ≡ false) × (arena_failed (arena_alloc a size align).1 ≡ true)
unfolding arena_alloc
arena_alloc-Settles a size align p hs ha room = elim (Bool-cases (is_power_of_two align)) [
  | inr bad ↦ rw (bad, arena_alloc) (inr (refl, latch-failed_any a))
  | inl good ↦
      rw (good, arena_alloc)
        (elim (Bool-cases (is_ok a.failure)) [
          | inr broken ↦ rw broken (inr (refl, unfold arena_failed in rw broken))
          | inl healthy ↦
              rw healthy (
                settle_healthy a.failure _ healthy
                  (alloc_rounds-any a size align p hs ha room good))
        ])
]
