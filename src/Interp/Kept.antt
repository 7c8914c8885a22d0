-- ===== src/Interp/Kept.antt =====
-- The tuples that the WHERE clause of a SELECT keeps: c/src/interp.c.
use db.Prelude.{
  ◌≤◌, ◌+◌, get_or, arith, ℕ, ◌≡◌, ◌↔◌, inl, inr, ap, ◌∙◌, Bool, true, Option, List, [], ◌∷◌, Has,
  Bool-cases,
}
use db.Value.{Value}
use db.Interp.{Expr}
use db.Interp.Eval.{DoubleOps}
use db.Interp.Select.{From, accepts, at_rows, matched, singletons}
use db.Interp.Scan.{IsAscending}

pub singletons-exact : (rows : List ℕ) (r : ℕ) → Has (r ∷ []) (singletons rows) ↔ Has r rows
unfolding singletons
singletons-exact [] r = (λ x. absurd x, λ x. absurd x)
singletons-exact (q ∷ rows) r =
    let (sound, complete) = singletons-exact rows r in
    (
      λ x. elim x [ inl here ↦ inl cc | inr later ↦ inr (sound later) ],
      λ x. elim x [ inl here ↦ inl cc | inr later ↦ inr (complete later) ],
    )

pub matched-exact :
    (f : DoubleOps) (condition : Option Expr) (tables : List From) (params : List Value)
    (tuples : List (List ℕ)) (tuple : List ℕ)
    → Has tuple (matched f condition tables params tuples) ↔ (
        Has tuple tuples
        × (accepts f condition (record { sources = at_rows tables tuple; params = params }) ≡ true))
unfolding matched
matched-exact f condition tables params [] tuple = (λ x. absurd x, λ (x, _). absurd x)
matched-exact f condition tables params (first ∷ rest) tuple =
    let (sound, complete) = matched-exact f condition tables params rest tuple in
    let good : List ℕ → Bool =
      λ rows. accepts f condition (record { sources = at_rows tables rows; params = params }) in
    elim (Bool-cases (good first)) [
      | inr other ↦
          rw (matched, other)
            (
              λ x. (inr (sound x).0, (sound x).1),
              λ (x, fine). elim x [
                | inl here ↦ absurd (cc (ap good here, other, fine))
                | inr later ↦ complete (later, fine)
              ],
            )
      | inl fits ↦
          rw (matched, fits)
            (
              λ x. elim x [
                | inl here ↦ (inl here, ap good here ∙ fits)
                | inr later ↦ (inr (sound later).0, (sound later).1)
              ],
              λ (x, fine). elim x [
                | inl here ↦ inl here
                | inr later ↦ inr (complete (later, fine))
              ],
            )
    ]

-- Tuples of one row each, in ascending order, so that none comes twice.
abbrev pub AreAscending : ℕ → List (List ℕ) → Type 0
AreAscending low [] = Unit
AreAscending low (tuple ∷ tuples) =
    (low ≤ get_or tuple 0 0) × AreAscending (get_or tuple 0 0 + 1) tuples

pub singletons-AreAscending :
    (rows : List ℕ) (low : ℕ) → IsAscending low rows → AreAscending low (singletons rows)
unfolding singletons
singletons-AreAscending [] low h = tt
singletons-AreAscending (r ∷ rows) low h = (h.0, singletons-AreAscending rows (r + 1) h.1)

AreAscending-lower :
    (tuples : List (List ℕ)) (low high : ℕ)
    → low ≤ high
    → AreAscending high tuples
    → AreAscending low tuples
AreAscending-lower [] low high h above = tt
AreAscending-lower (tuple ∷ tuples) low high h (first, rest) = (omega arith, rest)

pub matched-AreAscending :
    (f : DoubleOps) (condition : Option Expr) (tables : List From) (params : List Value)
    (tuples : List (List ℕ)) (low : ℕ)
    → AreAscending low tuples
    → AreAscending low (matched f condition tables params tuples)
unfolding matched
matched-AreAscending f condition tables params [] low h = tt
matched-AreAscending f condition tables params (tuple ∷ tuples) low h =
    let at = get_or tuple 0 0 in
    let rest = matched-AreAscending f condition tables params tuples (at + 1) h.1 in
    let first = h.0 in
    elim (Bool-cases
      (accepts f condition (record { sources = at_rows tables tuple; params = params }))) [
        | inl fits ↦ rw (matched, fits) (first, rest)
        | inr other ↦
            rw (matched, other)
              (AreAscending-lower (matched f condition tables params tuples) low (at + 1)
                (omega arith) rest)
      ]
