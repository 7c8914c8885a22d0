-- ===== src/Cursor/Rows.antt =====
-- The rows that the cursor of c/src/cursor.c yields.
use db.Prelude.{
  ℕ, zero, suc, ◌+◌, ◌-◌, ◌<◌, ◌≤◌, ◌≡◌, inl, inr, refl, sym, ap, ◌∙◌, true, false, Option, some,
  none, arith, Bool-cases, ltb, ltb→lt,
}
use native.Mathlib.Decide.{dec_lt}
use db.Index.{RowRef}
use db.Table.{Table, dead_test}
use db.Cursor.{Cursor, cursor_loop, cursor_next}

-- The rows from `low` on, below `high`, are deleted.
unfoldable pub AllDead : Table → ℕ → ℕ → Type 0
AllDead t low high = (r : ℕ) → low ≤ r → r < high → dead_test t r ≡ true

-- What a call of `cursor_next` answers.
pub data Advances (c : Cursor) : Option RowRef × Cursor → Type 0 where
  yields :
      (row : RowRef)
      → c.next_row ≤ row
      → row < c.table.n_rows
      → dead_test c.table row ≡ false
      → AllDead c.table c.next_row row
      → Advances c (some row, record c { next_row = row + 1 })
  ends :
      (d : Cursor)
      → AllDead c.table c.next_row c.table.n_rows
      → d.table ≡ c.table
      → c.table.n_rows ≤ d.next_row
      → Advances c (none, d)

-- From one row further on, where the row is deleted.
Advances-skip :
    (c : Cursor) (r : Option RowRef × Cursor)
    → dead_test c.table c.next_row ≡ true
    → Advances (record c { next_row = c.next_row + 1 }) r
    → Advances c r
unfolding AllDead
Advances-skip c r dead (yields row low high live before) =
    yields row (omega arith) high live (λ q l h. elim (dec_lt c.next_row q) [
      | yes later ↦ before q (omega arith) h
      | no out ↦ let e : c.next_row ≡ q = omega arith in sym (ap (dead_test c.table) e) ∙ dead
    ])
Advances-skip c r dead (ends d before e past) =
    ends d
      (λ q l h. elim (dec_lt c.next_row q) [
        | yes later ↦ before q (omega arith) h
        | no out ↦ let e : c.next_row ≡ q = omega arith in sym (ap (dead_test c.table) e) ∙ dead
      ])
      e past

cursor_loop-Advances :
    (rounds : ℕ) (c : Cursor)
    → c.table.n_rows ≤ c.next_row + rounds
    → Advances c (cursor_loop rounds c)
unfolding cursor_loop AllDead
cursor_loop-Advances zero c h = ends c (λ r l k. absurd (omega arith)) refl (omega arith)
cursor_loop-Advances (suc rounds) c h = elim (Bool-cases (ltb c.next_row c.table.n_rows)) [
  | inr past ↦
      let out : c.table.n_rows ≤ c.next_row = ground arith in
      rw (past, cursor_loop) (ends c (λ r l k. absurd (omega arith)) refl out)
  | inl more ↦ elim (Bool-cases (dead_test c.table c.next_row)) [
    | inl dead ↦
        rw (more, cursor_loop, dead)
          (Advances-skip c _ dead
            (cursor_loop-Advances rounds (record c { next_row = c.next_row + 1 }) (omega arith)))
    | inr live ↦
        rw (more, cursor_loop, live)
          (yields c.next_row (omega arith) (ltb→lt c.next_row c.table.n_rows more) live
            (λ r l k. absurd (omega arith)))
  ]
]

-- `cursor_next` ends: it yields the first live row from its position on and moves past it, or it
-- answers that there is none when every row from its position on is deleted.
pub cursor_next-Advances : (c : Cursor) → Advances c (cursor_next c)
unfolding cursor_next
cursor_next-Advances c = cursor_loop-Advances (c.table.n_rows - c.next_row) c (omega arith)
