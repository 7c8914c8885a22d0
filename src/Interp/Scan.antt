-- ===== src/Interp/Scan.antt =====
-- The rows that a SELECT of c/src/interp.c starts from: by the cursor, and by the primary-key index.
use db.Prelude.{
  ℕ, zero, suc, ◌+◌, ◌≤◌, ◌<◌, ◌≡◌, ◌↔◌, inl, inr, refl, sym, ap, subst, ◌∙◌, true, false, Option,
  none, some, List, [], ◌∷◌, ◌++◌, append_assoc, append-nil, Has, arith, Bool-cases,
}
use native.Mathlib.Decide.{ℕ_discrete, dec_lt}
use db.Index.{RowRef}
use db.Index.Store.{Holds}
use db.Index.Find.{visit_all, candidates, row_index_find-exact}
use db.Value.{Value, value_hash}
use db.Table.{Table, dead_test}
use db.Table.Rows.{table_row_is_dead}
use db.Table.Keys.{table_find_by_pk_hash}
use db.Table.Lookup.{IsIndexed}
use db.Cursor.{Cursor, cursor_init, cursor_next}
use db.Cursor.Rows.{Advances, yields, ends, AllDead, cursor_next-Advances}
use db.Interp.Select.{collect_pk_row, drop_dead, lookup_rows, cursor_rows, scan_rows}

-- A row of the table that is not deleted.
abbrev pub IsLive : Table → ℕ → Type 0
IsLive t r = (r < t.n_rows) × (dead_test t r ≡ false)

abbrev step_rows : ℕ → Option RowRef × Cursor → List RowRef
step_rows rounds res = elim res.0 [ none ↦ [] | some row ↦ row ∷ cursor_rows rounds res.1 ]

module _ (t : Table) where
  -- The rows from a position on are the live ones.
  abbrev LiveFrom : ℕ → List RowRef → Type 0
  LiveFrom low rows = (r : ℕ) → Has r rows ↔ ((low ≤ r) × IsLive t r)

  past_end : (low : ℕ) → t.n_rows ≤ low → LiveFrom low []
  past_end low h r = (λ x. absurd x, λ (at, live). let inside = live.0 in absurd (omega arith))

  step_rows-LiveFrom :
      (rounds : ℕ) (c : Cursor)
      → ((d : Cursor)
          → d.table ≡ t
          → t.n_rows ≤ d.next_row + rounds
          → LiveFrom d.next_row (cursor_rows rounds d))
      → c.table ≡ t
      → t.n_rows ≤ c.next_row + suc rounds
      → (res : Option RowRef × Cursor) → Advances c res
      → LiveFrom c.next_row (step_rows rounds res)
  unfolding AllDead
  step_rows-LiveFrom rounds c later_rows e h _ (ends d dead same past) r = (
    λ x. absurd x,
    λ (low, (inside, live)).
        let gone : dead_test t r ≡ true =
          subst (λ u. dead_test u r ≡ true) e
            (dead r low (subst (λ u. r < u.n_rows) (sym e) inside)) in
        absurd (cc (gone, live)),
  )
  step_rows-LiveFrom rounds c later_rows e h _ (yields row low inside live before) r =
      let rest = later_rows (record c { next_row = row + 1 }) e (omega arith) r in
      (
        λ x. elim x [
          | inl here ↦
              subst (λ q. (c.next_row ≤ q) × IsLive t q) (sym here)
                (low, subst (λ u. IsLive u row) e (inside, live))
          | inr later ↦ let (after, rows) = rest.0 later in (omega arith, rows)
        ],
        λ (at, rows). elim (ℕ_discrete r row) [
          | yes same ↦ inl same
          | no apart ↦ elim (dec_lt row r) [
            | yes after ↦ inr (rest.1 (omega arith, rows))
            | no not_after ↦
                let gone : dead_test t r ≡ true =
                  subst (λ u. dead_test u r ≡ true) e (before r at (omega arith)) in
                absurd (cc (gone, rows.1))
          ]
        ],
      )

  cursor_rows-LiveFrom :
      (rounds : ℕ) (c : Cursor)
      → c.table ≡ t
      → t.n_rows ≤ c.next_row + rounds
      → LiveFrom c.next_row (cursor_rows rounds c)
  unfolding cursor_rows
  cursor_rows-LiveFrom zero c e h = past_end c.next_row (omega arith)
  cursor_rows-LiveFrom (suc rounds) c e h =
      step_rows-LiveFrom rounds c (cursor_rows-LiveFrom rounds) e h (cursor_next c)
        (cursor_next-Advances c)

-- The cursor's rows are the live rows of the table.
pub scan_rows-exact : (t : Table) (r : ℕ) → Has r (scan_rows t) ↔ IsLive t r
unfolding scan_rows cursor_init
scan_rows-exact t r =
    let (sound, complete) = cursor_rows-LiveFrom t t.n_rows (cursor_init t) refl (omega arith) r in
    (λ x. (sound x).1, λ live. complete (omega arith, live))

-- From a row on, and each greater than the one before.
abbrev pub IsAscending : ℕ → List ℕ → Type 0
IsAscending low [] = Unit
IsAscending low (r ∷ rows) = (low ≤ r) × IsAscending (r + 1) rows

step_rows-IsAscending :
    (rounds : ℕ) (c : Cursor)
    → ((d : Cursor) → IsAscending d.next_row (cursor_rows rounds d))
    → (res : Option RowRef × Cursor) → Advances c res
    → IsAscending c.next_row (step_rows rounds res)
step_rows-IsAscending rounds c later_rows _ (ends d dead same past) = tt
step_rows-IsAscending rounds c later_rows _ (yields row low inside live before) =
    (low, later_rows (record c { next_row = row + 1 }))

cursor_rows-IsAscending : (rounds : ℕ) (c : Cursor) → IsAscending c.next_row (cursor_rows rounds c)
unfolding cursor_rows
cursor_rows-IsAscending zero c = tt
cursor_rows-IsAscending (suc rounds) c =
    step_rows-IsAscending rounds c (cursor_rows-IsAscending rounds) (cursor_next c)
      (cursor_next-Advances c)

-- The cursor's rows come in ascending order, so none comes twice.
pub scan_rows-IsAscending : (t : Table) → IsAscending 0 (scan_rows t)
unfolding scan_rows cursor_init
scan_rows-IsAscending t = cursor_rows-IsAscending t.n_rows (cursor_init t)

drop_dead-exact :
    (t : Table) (rows : List ℕ) (r : ℕ)
    → Has r (drop_dead t rows) ↔ (Has r rows × (dead_test t r ≡ false))
unfolding drop_dead table_row_is_dead
drop_dead-exact t [] r = (λ x. absurd x, λ (x, _). absurd x)
drop_dead-exact t (q ∷ rows) r =
    let (sound, complete) = drop_dead-exact t rows r in
    elim (Bool-cases (dead_test t q)) [
      | inl dead ↦
          rw (drop_dead, dead)
            (
              λ x. (inr (sound x).0, (sound x).1),
              λ (x, live). elim x [
                | inl here ↦ absurd (cc (ap (dead_test t) here, dead, live))
                | inr later ↦ complete (later, live)
              ],
            )
      | inr kept ↦
          rw (drop_dead, kept)
            (
              λ x. elim x [
                | inl here ↦ (inl here, ap (dead_test t) here ∙ kept)
                | inr later ↦ (inr (sound later).0, (sound later).1)
              ],
              λ (x, live). elim x [
                | inl here ↦ inl here
                | inr later ↦ inr (complete (later, live))
              ],
            )
    ]

collect_all : (rows acc : List ℕ) → visit_all collect_pk_row rows acc ≡ acc ++ rows
unfolding visit_all collect_pk_row
collect_all [] acc = sym (append-nil acc)
collect_all (r ∷ rows) acc = collect_all rows (acc ++ (r ∷ [])) ∙ append_assoc acc (r ∷ []) rows

-- The rows of a point lookup are the live ones that are stored under the value's hash.
pub lookup_rows-exact :
    (t : Table) (v : Value) (r : ℕ)
    → IsIndexed t
    → Has r (lookup_rows t v) ↔ (Holds t.pk_index.slots (value_hash v) r × (dead_test t r ≡ false))
unfolding lookup_rows table_find_by_pk_hash
lookup_rows-exact t v r i =
    let (runs, has) = row_index_find-exact collect_pk_row t.pk_index (value_hash v) [] i.index in
    let all = runs ∙ collect_all (candidates t.pk_index (value_hash v)) [] in
    let (sound, complete) = drop_dead-exact t (candidates t.pk_index (value_hash v)) r in
    rw all (λ x. ((has r).0 (sound x).0, (sound x).1), λ (x, live). complete ((has r).1 x, live))
