-- ===== src/Index/Find.antt =====
-- `row_index_find` visits every entry of the hash, and nothing else.
use db.Prelude.{
  ℕ, zero, suc, ◌+◌, ◌-◌, ◌%◌, ◌^◌, ◌<◌, ◌≡◌, ◌⊎◌, ◌↔◌, inl, inr, refl, sym, ap, subst, ◌∙◌, true,
  false, List, [], ◌∷◌, arith, length, Has, ◌==◌, bit_and, Bool-cases, if◌then◌else◌, ==_iff,
  ==_refl,
}
use native.Mathlib.Nat.{mod-lt}
use db.Prelude.Bits.{bit_and-mask, pow_pos}
use db.Index.{Slot, RowIndex, Visitor, find_loop, row_index_find}
use db.Index.Probe.{slot_at, occupied_at, Taken, next_mod, step_zero}
use db.Index.Store.{Holds, entry}
use db.Index.Insert.{IsIndex, unallocated, allocated}

-- The rows with the hash on a probe run, from position `i` to the first free slot.
pub run_rows : ℕ → List Slot → ℕ → ℕ → ℕ → List ℕ
run_rows zero slots n hash i = []
run_rows (suc fuel) slots n hash i =
    let s = slot_at slots i in
    let rest = run_rows fuel slots n hash ((i + 1) % n) in
    if s.occupied then (if s.hash == hash then s.row ∷ rest else rest) else []

-- A visitor over a list of rows, until it says to stop.
unfoldable pub visit_all : {S : Type 0} → Visitor S → List ℕ → S → S
visit_all visit [] s = s
visit_all visit (r ∷ rs) s =
    let rest = visit_all visit rs (visit s r).1 in if (visit s r).0 then rest else (visit s r).1

entry-eq : (s : Slot) (h r : ℕ) → s.occupied ≡ true → s.hash ≡ h → r ≡ s.row → s ≡ entry h r
entry-eq s h r o e f = ground arith

find_loop-visit_all :
    {S : Type 0} (visit : Visitor S) (fuel : ℕ) (slots : List Slot) (k hash i : ℕ) (s : S)
    → find_loop visit fuel slots (2 ^ k - 1) hash i s
      ≡ visit_all visit (run_rows fuel slots (2 ^ k) hash i) s
unfolding find_loop run_rows visit_all
find_loop-visit_all visit zero slots k hash i s = refl
find_loop-visit_all visit (suc fuel) slots k hash i s =
    elim (Bool-cases (slot_at slots i).occupied) [
      | inr free ↦ rw (free, find_loop, run_rows)
      | inl taken ↦ elim (Bool-cases ((slot_at slots i).hash == hash)) [
        | inr other ↦
            rw (taken, find_loop, run_rows, other, bit_and-mask)
              (find_loop-visit_all visit fuel slots k hash ((i + 1) % 2 ^ k) s)
        | inl same ↦ elim (Bool-cases (visit s (slot_at slots i).row).0) [
          | inr stop ↦ rw (taken, find_loop, run_rows, same, stop)
          | inl go_on ↦
              rw (taken, find_loop, run_rows, same, go_on, bit_and-mask)
                (find_loop-visit_all visit fuel slots k hash ((i + 1) % 2 ^ k) _)
        ]
      ]
    ]

run_rows-Holds :
    (fuel : ℕ) (slots : List Slot) (n hash i r : ℕ)
    → length slots ≡ n
    → i < n
    → Has r (run_rows fuel slots n hash i)
    → Holds slots hash r
unfolding run_rows
run_rows-Holds zero slots n hash i r e hi x = absurd x
run_rows-Holds (suc fuel) slots n hash i r e hi x =
    let next = run_rows-Holds fuel slots n hash ((i + 1) % n) r e (mod-lt (i + 1) (omega arith)) in
    elim (Bool-cases (slot_at slots i).occupied) [
      | inr free ↦ absurd (rw (free, run_rows) at x)
      | inl taken ↦ elim (Bool-cases ((slot_at slots i).hash == hash)) [
        | inr other ↦ next (rw (taken, run_rows, other) at x)
        | inl same ↦ elim (at_head taken same x) [
          | inl here ↦ (
            i,
            omega arith,
            entry-eq (slot_at slots i) hash r taken ((==_iff _ hash).0 same) here,
          )
          | inr later ↦ next later
        ]
      ]
    ]
  where
    at_head :
        (slot_at slots i).occupied ≡ true
        → ((slot_at slots i).hash == hash) ≡ true
        → Has r (run_rows (suc fuel) slots n hash i)
        → (r ≡ (slot_at slots i).row) ⊎ Has r (run_rows fuel slots n hash ((i + 1) % n))
    at_head taken same x = rw (taken, run_rows, same) at x

-- What follows on the run of a taken slot is on the run.
run_rows-later :
    (fuel : ℕ) (slots : List Slot) (n hash i r : ℕ)
    → occupied_at slots i ≡ true
    → Has r (run_rows fuel slots n hash ((i + 1) % n))
    → Has r (run_rows (suc fuel) slots n hash i)
unfolding run_rows
run_rows-later fuel slots n hash i r taken x = elim (Bool-cases ((slot_at slots i).hash == hash)) [
  | inr other ↦ rw (taken, run_rows, other) x
  | inl same ↦ rw (taken, run_rows, same) (inr x)
]

run_rows-here :
    (fuel : ℕ) (slots : List Slot) (n i : ℕ)
    → occupied_at slots i ≡ true
    → Has (slot_at slots i).row (run_rows (suc fuel) slots n (slot_at slots i).hash i)
unfolding run_rows
run_rows-here fuel slots n i taken = rw (taken, run_rows, ==_refl (slot_at slots i).hash) (inl refl)

run_rows-Has :
    (fuel : ℕ) (slots : List Slot) (n i d : ℕ)
    → i < n
    → d < fuel
    → Taken slots n i d
    → (p : ℕ) → (i + d) % n ≡ p
    → occupied_at slots p ≡ true
    → Has (slot_at slots p).row (run_rows fuel slots n (slot_at slots p).hash i)
run_rows-Has zero slots n i d hi hd t p e o = elim hd [ ]
run_rows-Has (suc fuel) slots n i zero hi hd t p e o =
    let home : p ≡ i = sym e ∙ step_zero n i hi in
    subst (λ x. Has (slot_at slots p).row (run_rows (suc fuel) slots n (slot_at slots p).hash x))
      home (run_rows-here fuel slots n p o)
run_rows-Has (suc fuel) slots n i (suc d) hi hd t p e o =
    run_rows-later fuel slots n _ i _ (rw (step_zero n i hi) at (t 0 (omega arith))) (
      run_rows-Has fuel slots n ((i + 1) % n) d (mod-lt (i + 1) (omega arith)) (omega arith)
        (λ j hj. rw (next_mod n i j) (t (suc j) (omega arith))) p (next_mod n i d ∙ e) o)

-- The rows that a probe for the hash meets.
pub candidates : RowIndex → ℕ → List ℕ
candidates idx hash = run_rows idx.capacity idx.slots idx.capacity hash (hash % idx.capacity)

candidates_sound :
    (idx : RowIndex) (hash r : ℕ)
    → IsIndex idx
    → Has r (candidates idx hash)
    → Holds idx.slots hash r
unfolding candidates run_rows
candidates_sound idx hash r t x = elim t.shape [
  | unallocated z _ ↦ absurd (rw (z, run_rows) at x)
  | allocated k size large table ↦
      run_rows-Holds idx.capacity idx.slots idx.capacity hash _ r (table.width ∙ sym size)
        (mod-lt hash (omega arith)) x
]

candidates_complete :
    (idx : RowIndex) (hash r : ℕ)
    → IsIndex idx
    → Holds idx.slots hash r
    → Has r (candidates idx hash)
unfolding candidates
candidates_complete idx hash r t (p, hp, e) = elim t.shape [
  | unallocated z empty ↦ absurd (omega (arith, ap length empty))
  | allocated k size large table ↦
      let taken = ap (λ (s : Slot). s.occupied) e in
      let (d, reach) = table.placed p (rw (← table.width) hp) taken in
      subst (λ c. Has r (run_rows c idx.slots c hash (hash % c))) (sym size)
        (subst
          (λ (s : Slot). Has s.row (run_rows (2 ^ k) idx.slots (2 ^ k) s.hash (s.hash % 2 ^ k))) e
          (run_rows-Has (2 ^ k) idx.slots (2 ^ k) _ d (mod-lt _ (pow_pos k)) reach.within reach.run
            p reach.on_run taken))
]

-- `row_index_find` over the fields of an index.
abbrev AgreesAt : {S : Type 0} → Visitor S → List Slot → ℕ → S → ℕ → Type 0
AgreesAt visit slots hash s c =
    (if c == 0 then s else find_loop visit c slots (c - 1) hash (bit_and hash (c - 1)) s)
    ≡ visit_all visit (run_rows c slots c hash (hash % c)) s

agrees_zero :
    {S : Type 0} (visit : Visitor S) (slots : List Slot) (hash : ℕ) (s : S)
    → AgreesAt visit slots hash s 0
unfolding run_rows visit_all
agrees_zero visit slots hash s = refl

agrees_pow :
    {S : Type 0} (visit : Visitor S) (slots : List Slot) (hash : ℕ) (s : S) (k : ℕ)
    → AgreesAt visit slots hash s (2 ^ k)
agrees_pow visit slots hash s k =
    let positive : (2 ^ k == 0) ≡ false = ground (arith, pow_pos k) in
    rw (positive, bit_and-mask) (find_loop-visit_all visit (2 ^ k) slots k hash (hash % 2 ^ k) s)

-- On a well-formed index a find is the visitor run, until it says to stop, over a list of rows
-- that has exactly the rows stored under the hash.
pub row_index_find-exact :
    {S : Type 0} (visit : Visitor S) (idx : RowIndex) (hash : ℕ) (s : S)
    → IsIndex idx
    → (row_index_find visit idx hash s ≡ visit_all visit (candidates idx hash) s)
      × ((r : ℕ) → Has r (candidates idx hash) ↔ Holds idx.slots hash r)
unfolding row_index_find candidates
row_index_find-exact visit idx hash s t = (
  elim t.shape [
    | unallocated z empty ↦
        subst (AgreesAt visit idx.slots hash s) (sym z) (agrees_zero visit idx.slots hash s)
    | allocated k size large table ↦
        subst (AgreesAt visit idx.slots hash s) (sym size) (agrees_pow visit idx.slots hash s k)
  ],
  λ r. (candidates_sound idx hash r t, candidates_complete idx hash r t),
)
