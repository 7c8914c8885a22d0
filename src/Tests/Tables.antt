-- ===== src/Tests/Tables.antt =====
-- Runs of a table, its index and its lookups.
use db.Prelude.{ℕ, ◌≡◌, ◌⊎◌, ◌↔◌, some, true, false, [], ◌∷◌, arith, refl, sym, subst, ==_refl}
use db.Bitmap.{test_bit, test_byte}
use db.Value.{FieldType, value_int, ft_double, double_eq}
use db.Table.{Table, null_test, dead_test, dead_set, int_cell, double_cell}
use db.Table.Rows.{table_set_null, table_append_row, table_grow, table_delete_row}
use db.Table.Cells.{write_cell, table_set_int, table_get_double, cell_hash}
use db.Table.Keys.{
  table_column_has_duplicate, table_has_matching_value, same_type, type_number, cell_equal,
  cell_equal_as,
}
use db.Table.Lookup.{IsIndexed, cell_hash-eq}
use db.Table.Unique.{IsDuplicate, table_column_has_duplicate-exact}
use db.Table.Matching.{IsMatch, table_has_matching_value-exact}
use db.Table.Views.{IsInside}
use db.Table.Reads.{Sets, table_set_int-Sets, write_cell-IsWrite}
use db.Table.Growth.{HasRoom}
use db.Table.Append.{
  IsShaped, Grown, Appended, Refused, table_grow-Grown, table_append_row-Appended,
}
use db.Table.Indexed.{write_cell-IsIndexed}
use db.Table.Keyed.{
  table_append_row-IsIndexed, table_delete_row-IsIndexed, table_set_null-IsIndexed,
}
use db.Index.Insert.{row_index_clear-IsIndex}
use db.Tests.{one_row, id_column}

pub one_row-IsInside : IsInside one_row 0 0
one_row-IsInside = record {
  col_inside = omega arith;
  cell_inside = omega arith;
  null_inside = omega arith;
}

pub one_row-IsShaped : IsShaped one_row
unfolding HasRoom
one_row-IsShaped = record {
  rows = omega arith;
  room = (omega arith, omega arith, tt);
  dead_room = omega arith;
}

one_row-null : null_test one_row 0 0 ≡ true
unfolding null_test test_bit test_byte
one_row-null = refl

pub one_row-IsIndexed : IsIndexed one_row
one_row-IsIndexed = record {
  index = row_index_clear-IsIndex;
  found = λ pk r key healthy inside live not_null.
      let zero_row : r ≡ 0 = omega arith in
      let first : 0 ≡ pk = cc (key) in
      let now : null_test one_row 0 0 ≡ false =
        subst (λ c. null_test one_row c 0 ≡ false) (sym first)
          (subst (λ q. null_test one_row pk q ≡ false) zero_row not_null) in
      absurd (cc (now, one_row-null));
  rows = λ h r (p, bound, e). absurd (omega arith);
}

table_append_row-Appended_example :
    Appended one_row (table_append_row one_row).1 (table_append_row one_row).0
    ⊎ Refused one_row (table_append_row one_row).1 (table_append_row one_row).0
table_append_row-Appended_example = table_append_row-Appended one_row one_row-IsShaped (omega arith)

table_grow-Grown_example : Grown one_row (table_grow one_row).0 (table_grow one_row).1
table_grow-Grown_example = table_grow-Grown one_row one_row-IsShaped (omega arith)

write_cell-IsIndexed_example : IsIndexed (write_cell one_row 0 0 (int_cell 7))
write_cell-IsIndexed_example =
    write_cell-IsIndexed one_row 0 0 (int_cell 7) one_row-IsIndexed one_row-IsInside (omega arith)
      refl

abbrev pub keyed : Table
keyed = write_cell one_row 0 0 (int_cell 7)

pub keyed-IsIndexed : IsIndexed keyed
keyed-IsIndexed =
    write_cell-IsIndexed one_row 0 0 (int_cell 7) one_row-IsIndexed one_row-IsInside (omega arith)
      refl

pub keyed-not_null : null_test keyed 0 0 ≡ false
keyed-not_null = (write_cell-IsWrite one_row 0 0 (int_cell 7) one_row-IsInside).not_null

pub keyed_pk_col : keyed.pk_col ≡ some 0
keyed_pk_col = (write_cell-IsWrite one_row 0 0 (int_cell 7) one_row-IsInside).pk_col

table_column_has_duplicate-exact_example :
    (table_column_has_duplicate keyed 0 0 ≡ true) ↔ ((r : ℕ) × IsDuplicate keyed 0 0 r)
table_column_has_duplicate-exact_example =
    table_column_has_duplicate-exact keyed 0 0 keyed-IsIndexed keyed-not_null

same_type_refl : (k : FieldType) → same_type k k ≡ true
unfolding same_type
same_type_refl k = ==_refl (type_number k)

table_has_matching_value-exact_example :
    (table_has_matching_value keyed 0 keyed 0 0 ≡ true) ↔ ((r : ℕ) × IsMatch keyed 0 keyed 0 0 r)
table_has_matching_value-exact_example =
    table_has_matching_value-exact keyed 0 keyed 0 0 keyed-IsIndexed (same_type_refl _)
      keyed-not_null

table_append_row-IsIndexed_example : IsIndexed (table_append_row one_row).1
table_append_row-IsIndexed_example =
    table_append_row-IsIndexed one_row one_row-IsShaped (omega arith)
      (λ pk key. let first : 0 ≡ pk = cc (key) in omega arith) one_row-IsIndexed

table_delete_row-IsIndexed_example : IsIndexed (table_delete_row one_row 0)
table_delete_row-IsIndexed_example =
    table_delete_row-IsIndexed one_row 0 one_row-IsIndexed (omega arith)

table_set_null-IsIndexed_example : IsIndexed (table_set_null one_row 0 0)
table_set_null-IsIndexed_example =
    table_set_null-IsIndexed one_row 0 0 one_row-IsIndexed one_row-IsInside

table_set_int-Sets_example : Sets one_row (table_set_int one_row 0 0 7) 0 0 (value_int 7)
table_set_int-Sets_example = table_set_int-Sets one_row 0 0 7 one_row-IsInside refl

deleted-null : null_test (table_delete_row one_row 0) 0 0 ≡ true
unfolding table_delete_row dead_test dead_set null_test test_bit test_byte
deleted-null = refl

-- Zero and minus zero.
abbrev zeros : Table
zeros = record one_row {
  columns =
      record id_column {
        kind = ft_double;
        cells = double_cell 0 ∷ double_cell 9223372036854775808 ∷ [];
        nulls = 0 ∷ [];
      }
      ∷ [];
  n_rows = 2;
}

cell_hash-eq_example : cell_hash zeros 0 0 ≡ cell_hash zeros 1 0
unfolding null_test test_bit test_byte cell_equal cell_equal_as table_get_double double_eq
cell_hash-eq_example = cell_hash-eq zeros zeros 0 0 1 0 refl refl refl refl
