-- ===== src/Index/Regrow.antt =====
-- `reinsert` carries every entry of the old slots over to the grown ones.
use db.Prelude.{
  ℕ, zero, suc, ◌+◌, ◌^◌, ◌≤◌, ◌≡◌, ◌⊎◌, inl, inr, refl, sym, ap, subst, ◌∙◌, Bool, true, false,
  List, [], ◌∷◌, arith, length, Bool-cases, if◌then◌else◌, replicate, length-replicate,
  get_or-replicate,
}
use mathlib.Core.Path.{subst₂, ap₂}
use db.Index.{Slot, no_slot, raw_insert, reinsert}
use db.Index.Probe.{occupancy}
use db.Index.Store.{IsTable, Holds, entry, Inserted, raw_insert-Inserted}

Holds-cons : (s : Slot) (ss : List Slot) (h r : ℕ) → Holds ss h r → Holds (s ∷ ss) h r
Holds-cons s ss h r (p, hp, e) = (suc p, omega arith, e)

Holds-uncons :
    (s : Slot) (ss : List Slot) (h r : ℕ) → Holds (s ∷ ss) h r → (s ≡ entry h r) ⊎ Holds ss h r
Holds-uncons s ss h r (zero, hp, e) = inl e
Holds-uncons s ss h r (suc p, hp, e) = inr (p, omega arith, e)

-- What `reinsert` does with the old slots `ss` and the new ones `grown`.
pub record Merged (k : ℕ) (ss grown result : List Slot) : Type 0 where
  pub table : IsTable k result
  pub sum : occupancy result ≡ occupancy ss + occupancy grown
  pub old : (h r : ℕ) → Holds ss h r → Holds result h r
  pub new : (h r : ℕ) → Holds grown h r → Holds result h r
  pub nothing_else : (h r : ℕ) → Holds result h r → Holds ss h r ⊎ Holds grown h r

entry-taken : (s : Slot) → s.occupied ≡ true → s ≡ entry s.hash s.row
entry-taken s e = ground arith

Merged-taken :
    (k : ℕ) (s : Slot) (ss grown grown' result : List Slot)
    → s.occupied ≡ true
    → Inserted k grown grown' s.hash s.row
    → Merged k ss grown' result
    → Merged k (s ∷ ss) grown result
unfolding occupancy
Merged-taken k s ss grown grown' result e i m = record {
  table = m.table;
  sum = ground (arith, m.sum, i.one_more);
  old = λ h r x. elim (Holds-uncons s ss h r x) [
    | inl here ↦
        let same = sym (entry-taken s e) ∙ here in
        subst₂ (λ h r. Holds result h r) (ap (λ (s : Slot). s.hash) same)
          (ap (λ (s : Slot). s.row) same) (m.new s.hash s.row i.added)
    | inr later ↦ m.old h r later
  ];
  new = λ h r x. m.new h r (i.kept h r x);
  nothing_else = λ h r x. elim (m.nothing_else h r x) [
    | inl later ↦ inl (Holds-cons s ss h r later)
    | inr there ↦ elim (i.nothing_else h r there) [
      | inl before ↦ inr before
      | inr (p, q) ↦ inl (0, omega arith, entry-taken s e ∙ ap₂ entry (sym p) (sym q))
    ]
  ];
}

Merged-free :
    (k : ℕ) (s : Slot) (ss grown result : List Slot)
    → s.occupied ≡ false
    → Merged k ss grown result
    → Merged k (s ∷ ss) grown result
unfolding occupancy
Merged-free k s ss grown result e m = record {
  table = m.table;
  sum = ground (arith, m.sum);
  old = λ h r x. elim (Holds-uncons s ss h r x) [
    | inl here ↦ cc (ap (λ (s : Slot). s.occupied) here)
    | inr later ↦ m.old h r later
  ];
  new = m.new;
  nothing_else = λ h r x. elim (m.nothing_else h r x) [
    | inl later ↦ inl (Holds-cons s ss h r later)
    | inr there ↦ inr there
  ];
}

pub reinsert-Merged :
    (k : ℕ) (ss grown : List Slot)
    → IsTable k grown
    → occupancy ss + occupancy grown ≤ 2 ^ k
    → Merged k ss grown (reinsert ss grown (2 ^ k))
unfolding reinsert occupancy
reinsert-Merged k [] grown t room = record {
  table = t;
  sum = omega arith;
  old = λ h r (p, hp, e). elim hp [ ];
  new = λ h r x. x;
  nothing_else = λ h r x. inr x;
}
reinsert-Merged k (s ∷ ss) grown t room =
    let rest = λ (b : Bool).
      reinsert ss (if b then raw_insert grown (2 ^ k) s.hash s.row else grown) (2 ^ k) in
    elim (Bool-cases s.occupied) [
      | inl taken ↦
          let i = raw_insert-Inserted k grown s.hash s.row t (ground arith) in
          subst (λ b. Merged k (s ∷ ss) grown (rest b)) (sym taken)
            (Merged-taken k s ss grown _ _ taken i
              (reinsert-Merged k ss _ i.table (ground (arith, i.one_more))))
      | inr free ↦
          subst (λ b. Merged k (s ∷ ss) grown (rest b)) (sym free)
            (Merged-free k s ss grown _ free (reinsert-Merged k ss grown t (ground arith)))
    ]

empty-length : (n : ℕ) → length (replicate n no_slot) ≡ n
empty-length n = length-replicate n no_slot

pub occupancy-empty : (n : ℕ) → occupancy (replicate n no_slot) ≡ 0
unfolding occupancy
occupancy-empty zero = refl
occupancy-empty (suc n) = omega (arith, occupancy-empty n)

-- Fresh slots are a table with nothing in it.
pub empty-IsTable : (k : ℕ) → IsTable k (replicate (2 ^ k) no_slot)
empty-IsTable k = record {
  width = empty-length (2 ^ k);
  placed = λ p hp e. cc (ap (λ (s : Slot). s.occupied) (get_or-replicate (2 ^ k) p no_slot));
}

pub empty-Holds : (n h r : ℕ) → ¬ Holds (replicate n no_slot) h r
empty-Holds n h r (p, hp, e) =
    cc (ap (λ (s : Slot). s.occupied) (sym (get_or-replicate n p no_slot) ∙ e))
