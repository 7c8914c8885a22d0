-- ===== src/Table/Search.antt =====
-- Searches for a row that a Boolean test accepts: over a list of candidate rows, as the visitors of
-- c/src/table.c make it, and over the rows from a first one on, as its loops do.
use db.Prelude.{
  ℕ, zero, suc, ◌+◌, ◌≤◌, ◌<◌, ◌≡◌, ◌≢◌, inl, inr, refl, ap, Bool, true, false, List, [], ◌∷◌,
  if◌then◌else◌, Has, arith, Bool-cases,
}
use db.Index.{Visitor}
use db.Index.Find.{visit_all}

-- The visitor of a search: it stops at the first row that the test accepts.
unfoldable pub Searches : Visitor Bool → (ℕ → Bool) → Type 0
Searches visit good =
    (found : Bool) (r : ℕ) → visit found r ≡ (if good r then (false, true) else (true, found))

module _ (visit : Visitor Bool) (good : ℕ → Bool) (s : Searches visit good) where
  pub visit_all-found :
      (rows : List ℕ) → visit_all visit rows false ≡ true → (r : ℕ) × Has r rows × (good r ≡ true)
  unfolding visit_all Searches
  visit_all-found [] h = cc
  visit_all-found (r ∷ rows) h = elim (Bool-cases (good r)) [
    | inl fits ↦ (r, inl refl, fits)
    | inr other ↦
        let (q, there, fine) = visit_all-found rows (rw (s false r, other) at h) in
        (q, inr there, fine)
  ]

  pub visit_all-finds :
      (rows : List ℕ) (r : ℕ) → Has r rows → good r ≡ true → visit_all visit rows false ≡ true
  unfolding visit_all Searches
  visit_all-finds [] r x e = absurd x
  visit_all-finds (q ∷ rows) r x e = elim (Bool-cases (good q)) [
    | inl fits ↦ rw (s false q, fits)
    | inr other ↦
        rw (s false q, other)
          (elim x [ inl here ↦ cc (ap good here) | inr later ↦ visit_all-finds rows r later e ])
  ]

-- The search from row `first` on.
unfoldable pub any_row : (ℕ → Bool) → ℕ → ℕ → Bool
any_row good zero first = false
any_row good (suc rounds) first =
    let rest = any_row good rounds (first + 1) in if good first then true else rest

pub any_row-found :
    (good : ℕ → Bool) (rounds first : ℕ)
    → any_row good rounds first ≡ true
    → (r : ℕ) × (r < first + rounds) × (good r ≡ true)
unfolding any_row
any_row-found good zero first h = cc
any_row-found good (suc rounds) first h = elim (Bool-cases (good first)) [
  | inl fits ↦ (first, omega arith, fits)
  | inr other ↦
      let (r, bound, fine) = any_row-found good rounds (first + 1) (rw (any_row, other) at h) in
      (r, omega arith, fine)
]

pub any_row-finds :
    (good : ℕ → Bool) (rounds first r : ℕ)
    → first ≤ r
    → r < first + rounds
    → good r ≡ true
    → any_row good rounds first ≡ true
unfolding any_row
any_row-finds good zero first r low high e = absurd (omega arith)
any_row-finds good (suc rounds) first r low high e = elim (Bool-cases (good first)) [
  | inl fits ↦ rw (any_row, fits)
  | inr other ↦
      let apart : first ≢ r = λ same. cc (ap good same) in
      rw (any_row, other)
        (any_row-finds good rounds (first + 1) r (omega (arith, apart)) (omega arith) e)
]
