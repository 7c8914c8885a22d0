-- ===== src/Index/Probe.antt =====
-- The probe sequence of a hash: slot (hash + j) % cap at step j.
use db.Prelude.{
  ℕ, zero, suc, ◌+◌, ◌-◌, ◌%◌, ◌^◌, ◌<◌, ◌≡◌, inl, inr, ap, ◌∙◌, Bool, true, false, some, List, [],
  ◌∷◌, arith, get_or, set, length, Bool-cases, if◌then◌else◌,
}
use native.Mathlib.Decide.{dec_le}
use native.Mathlib.Nat.{mod-lt, mod-eq_of_lt, mod-add-mod, add-mod_right}
use db.Prelude.Bits.{bit_and-mask, pow_pos}
use db.Index.{Slot, no_slot, free_slot}

abbrev pub slot_at : List Slot → ℕ → Slot
slot_at slots i = get_or slots i no_slot

-- The next position, from any step.
pub next_mod : (n i j : ℕ) → ((i + 1) % n + j) % n ≡ (i + suc j) % n
next_mod n i j = mod-add-mod (i + 1) n j ∙ ap (λ t. t % n) (omega arith)

-- Every position is on the probe sequence of every start.
probe_reaches : (n i p : ℕ) → i < n → p < n → (j : ℕ) × (j < n) × ((i + j) % n ≡ p)
probe_reaches n i p hi hp = elim (dec_le i p) [
  | yes h ↦ let e : i + (p - i) ≡ p = omega arith in (p - i, omega arith, rw e (mod-eq_of_lt hp))
  | no h ↦
      let e : i + (p + n - i) ≡ p + n = omega arith in
      (p + n - i, omega arith, rw (e, add-mod_right) (mod-eq_of_lt hp))
]

abbrev pub occupied_at : List Slot → ℕ → Bool
occupied_at slots i = (get_or slots i no_slot).occupied

-- The first `d` slots of the probe sequence from `i` are taken.
abbrev pub Taken : List Slot → ℕ → ℕ → ℕ → Type 0
Taken slots n i d = (j : ℕ) → j < d → occupied_at slots ((i + j) % n) ≡ true

Taken-cons :
    (slots : List Slot) (n i d : ℕ)
    → i < n
    → occupied_at slots i ≡ true
    → Taken slots n ((i + 1) % n) d
    → Taken slots n i (suc d)
Taken-cons slots n i d hi h t zero hj = let e : i + 0 ≡ i = omega arith in rw (e, mod-eq_of_lt hi) h
Taken-cons slots n i d hi h t (suc j) hj = rw (← next_mod n i j) (t j (omega arith))

-- The free slot that a probe from `i` returns: the first one, at step `step`.
pub record FirstFree (fuel : ℕ) (slots : List Slot) (k i : ℕ) (step : ℕ) : Type 0 where
  pub found : free_slot fuel slots (2 ^ k - 1) i ≡ some ((i + step) % 2 ^ k)
  pub within : step < fuel
  pub unoccupied : occupied_at slots ((i + step) % 2 ^ k) ≡ false
  pub run : Taken slots (2 ^ k) i step

pub step_zero : (n i : ℕ) → i < n → (i + 0) % n ≡ i
step_zero n i h = ap (λ t. t % n) (omega arith) ∙ mod-eq_of_lt h

first_here :
    (fuel : ℕ) (slots : List Slot) (k i : ℕ)
    → i < 2 ^ k
    → occupied_at slots i ≡ false
    → FirstFree (suc fuel) slots k i 0
unfolding free_slot
first_here fuel slots k i h e = record {
  found = rw (e, free_slot, step_zero (2 ^ k) i h);
  within = omega arith;
  unoccupied = rw (step_zero (2 ^ k) i h) e;
  run = λ m hm. elim hm [ ];
}

first_later :
    (fuel : ℕ) (slots : List Slot) (k i step : ℕ)
    → i < 2 ^ k
    → occupied_at slots i ≡ true
    → FirstFree fuel slots k ((i + 1) % 2 ^ k) step
    → FirstFree (suc fuel) slots k i (suc step)
unfolding free_slot
first_later fuel slots k i step h e t = record {
  found = rw (e, free_slot, bit_and-mask, ← next_mod (2 ^ k) i step) t.found;
  within = omega arith;
  unoccupied = rw (← next_mod (2 ^ k) i step) t.unoccupied;
  run = Taken-cons slots (2 ^ k) i step h e t.run;
}

-- A probe that meets a free slot within its rounds returns the first one.
pub free_slot_lem :
    (fuel : ℕ) (slots : List Slot) (k i j : ℕ)
    → i < 2 ^ k
    → j < fuel
    → occupied_at slots ((i + j) % 2 ^ k) ≡ false
    → (step : ℕ) × FirstFree fuel slots k i step
free_slot_lem zero slots k i j hi hj e = elim hj [ ]
free_slot_lem (suc fuel) slots k i zero hi hj e =
    (0, first_here fuel slots k i hi (rw (step_zero (2 ^ k) i hi) at e))
free_slot_lem (suc fuel) slots k i (suc j) hi hj e = elim (Bool-cases (occupied_at slots i)) [
  | inr open_slot ↦ (0, first_here fuel slots k i hi open_slot)
  | inl full ↦
      let (step, t) =
        free_slot_lem fuel slots k ((i + 1) % 2 ^ k) j (mod-lt (i + 1) (pow_pos k)) (omega arith)
          (rw (next_mod (2 ^ k) i j) e) in
      (suc step, first_later fuel slots k i step hi full t)
]

-- The number of taken slots.
unfoldable pub occupancy : List Slot → ℕ
occupancy [] = 0
occupancy (s ∷ ss) = (if s.occupied then 1 else 0) + occupancy ss

-- A free slot that is written with an entry adds one.
pub occupancy-set :
    (slots : List Slot) (p : ℕ) (s : Slot)
    → p < length slots
    → occupied_at slots p ≡ false
    → s.occupied ≡ true
    → occupancy (set slots p s) ≡ occupancy slots + 1
unfolding occupancy
occupancy-set [] p s h e t = elim h [ ]
occupancy-set (x ∷ slots) zero s h e t = ground arith
occupancy-set (x ∷ slots) (suc p) s h e t = omega (arith, occupancy-set slots p s (omega arith) e t)

-- Where fewer slots are taken than there are, one is free.
free_exists :
    (slots : List Slot)
    → occupancy slots < length slots
    → (p : ℕ) × (p < length slots) × (occupied_at slots p ≡ false)
unfolding occupancy
free_exists [] h = elim h [ ]
free_exists (s ∷ ss) h = elim (Bool-cases s.occupied) [
  | inr free ↦ (0, omega arith, free)
  | inl taken ↦ let (p, hp, e) = free_exists ss (ground arith) in (suc p, omega arith, e)
]

-- A table with room gives every hash a slot.
pub free_slot-total :
    (slots : List Slot) (k hash : ℕ)
    → length slots ≡ 2 ^ k
    → occupancy slots < 2 ^ k
    → (step : ℕ) × FirstFree (2 ^ k) slots k (hash % 2 ^ k) step
free_slot-total slots k hash e h =
    let (p, hp, free) = free_exists slots (rw e h) in
    let (j, hj, q) =
      probe_reaches (2 ^ k) (hash % 2 ^ k) p (mod-lt hash (pow_pos k)) (rw (← e) hp) in
    free_slot_lem (2 ^ k) slots k (hash % 2 ^ k) j (mod-lt hash (pow_pos k)) hj (rw q free)
