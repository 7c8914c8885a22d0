-- ===== src/Tests/Memory.antt =====
-- Runs of the arena, of the sizes and of the index.
use db.Prelude.{
  ℕ, ◌*◌, ◌<◌, ◌≤◌, ◌≡◌, ◌⊎◌, ◌↔◌, true, false, some, none, List, [], ◌∷◌, arith, Bool, Has,
}
use db.Prelude.Bits.{word}
use db.Arena.{arena_alloc, arena_failed, checked_mul_size}
use db.Arena.Alloc.{arena_alloc-Settles}
use db.Arena.Checked.{checked_mul_size_lem}
use db.Index.{RowIndex, row_index_insert, row_index_find, row_index_clear}
use db.Index.Store.{Holds}
use db.Index.Insert.{
  IsIndex, Inserts, row_index_clear-IsIndex, row_index_insert-IsIndex, row_index_insert-Inserts,
}
use db.Index.Find.{visit_all, candidates, row_index_find-exact}
use db.Tests.{arena_0}

arena_alloc-Settles_example :
    ((arena_alloc arena_0 100 8).0 ≡ true) × (arena_failed (arena_alloc arena_0 100 8).1 ≡ false)
    ⊎ ((arena_alloc arena_0 100 8).0 ≡ false) × (arena_failed (arena_alloc arena_0 100 8).1 ≡ true)
arena_alloc-Settles_example =
    arena_alloc-Settles arena_0 100 8 (omega arith) (omega arith) (omega arith)
      (λ n address e. ground arith)

checked_mul_size_lem_example :
    (24 * 16 < word) × (checked_mul_size 24 16 ≡ some 384)
    ⊎ (word ≤ 24 * 16) × (checked_mul_size 24 16 ≡ none)
checked_mul_size_lem_example = checked_mul_size_lem 24 16 (omega arith) (omega arith)

abbrev one_key : RowIndex
one_key = (row_index_insert row_index_clear arena_0 42 0).0

row_index_insert-IsIndex_example : IsIndex one_key
row_index_insert-IsIndex_example =
    row_index_insert-IsIndex row_index_clear arena_0 42 0 row_index_clear-IsIndex

one_key-IsIndex : IsIndex one_key
one_key-IsIndex = row_index_insert-IsIndex row_index_clear arena_0 42 0 row_index_clear-IsIndex

row_index_insert-Inserts_example :
    Inserts one_key arena_0 50 1 (row_index_insert one_key arena_0 50 1).0
row_index_insert-Inserts_example = row_index_insert-Inserts one_key arena_0 50 1 one_key-IsIndex

abbrev collect : List ℕ → ℕ → Bool × List ℕ
collect found r = (true, r ∷ found)

row_index_find-exact_example :
    (row_index_find collect one_key 42 [] ≡ visit_all collect (candidates one_key 42) [])
    × ((r : ℕ) → Has r (candidates one_key 42) ↔ Holds one_key.slots 42 r)
row_index_find-exact_example = row_index_find-exact collect one_key 42 [] one_key-IsIndex

abbrev text_a : List ℕ
text_a = 97 ∷ []

abbrev text_b : List ℕ
text_b = 97 ∷ 98 ∷ []
