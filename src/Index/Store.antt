-- ===== src/Index/Store.antt =====
-- `raw_insert` and the growth of the slot array keep every entry, and place it on its probe run.
use db.Prelude.{
  ℕ, ◌+◌, ◌%◌, ◌^◌, ◌<◌, ◌≡◌, ◌≢◌, ◌⊎◌, inl, inr, refl, sym, ap, subst, ◌∙◌, true, false, List, set,
  length, length-set, get_or-set_self, get_or-set_ne,
}
use native.Mathlib.Nat.{mod-lt}
use native.Mathlib.Decide.{ℕ_discrete}
use db.Prelude.Bits.{bit_and-mask, pow_pos}
use db.Index.{Slot, no_slot, raw_insert}
use db.Index.Probe.{slot_at, occupied_at, Taken, occupancy, occupancy-set, free_slot-total}

-- The slot at `p` can be reached by a probe for its own hash.
pub record Reached (slots : List Slot) (n p : ℕ) (d : ℕ) : Type 0 where
  pub on_run : ((slot_at slots p).hash % n + d) % n ≡ p
  pub within : d < n
  pub run : Taken slots n ((slot_at slots p).hash % n) d

pub record IsTable (k : ℕ) (slots : List Slot) : Type 0 where
  pub width : length slots ≡ 2 ^ k
  pub placed :
      (p : ℕ) → p < 2 ^ k → occupied_at slots p ≡ true → (d : ℕ) × Reached slots (2 ^ k) p d

abbrev pub entry : ℕ → ℕ → Slot
entry h r = record { hash = h; row = r; occupied = true }

-- Some slot holds the entry.
abbrev pub Holds : List Slot → ℕ → ℕ → Type 0
Holds slots h r = (p : ℕ) × (p < length slots) × (slot_at slots p ≡ entry h r)

module _ (slots : List Slot) (q h r : ℕ) (hq : q < length slots)
    (free : occupied_at slots q ≡ false) where
  stored : List Slot
  stored = set slots q (entry h r)

  stored-length : length stored ≡ length slots
  unfolding stored
  stored-length = length-set slots q (entry h r)

  stored_self : slot_at stored q ≡ entry h r
  unfolding stored
  stored_self = get_or-set_self slots q (entry h r) no_slot hq

  stored_ne : (p : ℕ) → q ≢ p → slot_at stored p ≡ slot_at slots p
  unfolding stored
  stored_ne p ne = get_or-set_ne slots q p (entry h r) no_slot ne

  stored_taken : (p : ℕ) → occupied_at slots p ≡ true → slot_at stored p ≡ slot_at slots p
  stored_taken p e = stored_ne p (λ same. cc (ap (occupied_at slots) same))

  stored_occupied : (p : ℕ) → occupied_at slots p ≡ true → occupied_at stored p ≡ true
  stored_occupied p e = ap (λ (s : Slot). s.occupied) (stored_taken p e) ∙ e

  stored-Taken : (n i d : ℕ) → Taken slots n i d → Taken stored n i d
  stored-Taken n i d t j hj = stored_occupied _ (t j hj)

  stored_old : (h' r' : ℕ) → Holds slots h' r' → Holds stored h' r'
  unfolding stored
  stored_old h' r' (p, hp, e) =
      (p, rw length-set hp, stored_taken p (ap (λ (s : Slot). s.occupied) e) ∙ e)

  stored_new : Holds stored h r
  unfolding stored
  stored_new = (q, rw length-set hq, stored_self)

  stored_cases : (h' r' : ℕ) → Holds stored h' r' → Holds slots h' r' ⊎ (h' ≡ h) × (r' ≡ r)
  unfolding stored
  stored_cases h' r' (p, hp, e) = elim (ℕ_discrete q p) [
    | yes same ↦
        let twice : entry h r ≡ entry h' r' = sym stored_self ∙ ap (slot_at stored) same ∙ e in
        inr (ap (λ (s : Slot). s.hash) (sym twice), ap (λ (s : Slot). s.row) (sym twice))
    | no apart ↦ inl (p, rw (length-set slots q (entry h r)) at hp, sym (stored_ne p apart) ∙ e)
  ]

  new_Reached :
      (n d : ℕ) → (h % n + d) % n ≡ q → d < n → Taken slots n (h % n) d → Reached stored n q d
  new_Reached n d on within run =
      let same : (slot_at stored q).hash ≡ h = ap (λ (s : Slot). s.hash) stored_self in
      record { on_run = rw same on; within = within; run = rw same (stored-Taken n (h % n) d run) }

  old_Reached :
      (n p d : ℕ) → slot_at stored p ≡ slot_at slots p → Reached slots n p d → Reached stored n p d
  old_Reached n p d same t =
      let hashes = ap (λ (s : Slot). s.hash) same in
      record {
        on_run = rw hashes t.on_run;
        within = t.within;
        run = rw hashes (stored-Taken n _ d t.run);
      }

  stored-IsTable :
      (k step : ℕ)
      → (h % 2 ^ k + step) % 2 ^ k ≡ q
      → step < 2 ^ k
      → Taken slots (2 ^ k) (h % 2 ^ k) step
      → IsTable k slots
      → IsTable k stored
  stored-IsTable k step on within run t = record {
    width = stored-length ∙ t.width;
    placed = λ p hp e. elim (ℕ_discrete q p) [
      | yes same ↦ (
        step,
        subst (λ x. Reached stored (2 ^ k) x step) same (new_Reached (2 ^ k) step on within run),
      )
      | no apart ↦
          let same = stored_ne p apart in
          let (d, old) = t.placed p hp (ap (λ (s : Slot). s.occupied) (sym same) ∙ e) in
          (d, old_Reached (2 ^ k) p d same old)
    ];
  }

-- What one `raw_insert` into a table with room does.
pub record Inserted (k : ℕ) (slots slots' : List Slot) (h r : ℕ) : Type 0 where
  pub table : IsTable k slots'
  pub one_more : occupancy slots' ≡ occupancy slots + 1
  pub added : Holds slots' h r
  pub kept : (h' r' : ℕ) → Holds slots h' r' → Holds slots' h' r'
  pub nothing_else : (h' r' : ℕ) → Holds slots' h' r' → Holds slots h' r' ⊎ (h' ≡ h) × (r' ≡ r)

pub raw_insert-Inserted :
    (k : ℕ) (slots : List Slot) (h r : ℕ)
    → IsTable k slots
    → occupancy slots < 2 ^ k
    → Inserted k slots (raw_insert slots (2 ^ k) h r) h r
unfolding raw_insert stored
raw_insert-Inserted k slots h r t room =
    let (step, f) = free_slot-total slots k h t.width room in
    let q = (h % 2 ^ k + step) % 2 ^ k in
    let hq : q < length slots = rw t.width (mod-lt (h % 2 ^ k + step) (pow_pos k)) in
    rw (bit_and-mask, f.found)
      (record {
        table = stored-IsTable slots q h r hq f.unoccupied k step refl f.within f.run t;
        one_more = occupancy-set slots q (entry h r) hq f.unoccupied refl;
        added = stored_new slots q h r hq f.unoccupied;
        kept = stored_old slots q h r hq f.unoccupied;
        nothing_else = stored_cases slots q h r hq f.unoccupied;
      })
