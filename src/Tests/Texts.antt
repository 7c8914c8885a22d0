-- ===== src/Tests/Texts.antt =====
-- Runs of the text heap.
use db.Prelude.{ℕ, ◌⊎◌, List, [], ◌∷◌, arith, refl}
use db.Value.{ft_text}
use db.Table.{Table, text_cell}
use db.Table.Cells.{table_set_text}
use db.Table.SetText.{TextSet, TextRefused, CannotStore, table_set_text-TextSet}
use db.Tests.{one_row, id_column}

abbrev one_text : Table
one_text = record one_row {
  columns =
      record id_column { kind = ft_text; cells = text_cell (record { offset = 0; len = 0 }) ∷ [] }
      ∷ [];
}

abbrev word_ab : List ℕ
word_ab = 97 ∷ 98 ∷ []

table_set_text-TextSet_example :
    TextSet one_text (table_set_text one_text 0 0 word_ab) 0 0 word_ab
    ⊎ CannotStore one_text word_ab × TextRefused one_text (table_set_text one_text 0 0 word_ab)
table_set_text-TextSet_example =
    table_set_text-TextSet one_text 0 0 word_ab
      (record { col_inside = omega arith; cell_inside = omega arith; null_inside = omega arith })
      refl (omega arith)
