-- ===== src/Table.antt =====
-- c/include/table.h and c/src/table.c: columnar tables with row bitmaps, a text heap and a hash
-- index on the primary key. The parallel arrays of a column are one record here; a cell is what
-- the column's array holds at a row.
pub mod Columns
pub mod Rows
pub mod Cells
pub mod Keys
pub mod Compact
pub mod Views
pub mod Reads
pub mod Marks
pub mod Nulls
pub mod Texts
pub mod SetText
pub mod Growth
pub mod Append
pub mod Search
pub mod Lookup
pub mod Unique
pub mod Matching
pub mod Indexed
pub mod Keyed
use db.Prelude.{
  ℕ, zero, suc, ◌+◌, ◌-◌, ◌*◌, ◌/◌, Bool, true, false, ◌||◌, Option, none, some, List, [], ◌∷◌,
  ◌==◌, if◌then◌else◌, get_or, get_elem?, set, ◌&&◌,
}
use db.Arena.{Arena, ArenaFailure, arena_fail, arena_failed, arena_take_failure, arena_fail_misuse}
use db.Bitmap.{test_bit, set_bit, clear_bit}
use db.Index.{RowIndex}
use db.Value.{FieldType, ft_int, ft_double, ft_bool, ft_text, ft_err}

pub record StringRef : Type 0 where
  pub offset : ℕ
  pub len : ℕ

pub data FkAction : Type 0 where
  fk_action_none fk_action_restrict fk_action_cascade fk_action_set_null : FkAction

-- Names are their bytes.
abbrev pub Name : Type 0
Name = List ℕ

-- `strcmp(a, b) == 0`, and `memcmp` over equal lengths.
unfoldable pub bytes_eq : List ℕ → List ℕ → Bool
bytes_eq [] [] = true
bytes_eq [] (y ∷ ys) = false
bytes_eq (x ∷ xs) [] = false
bytes_eq (x ∷ xs) (y ∷ ys) = (x == y) && bytes_eq xs ys

pub data Cell : Type 0 where
  int_cell : ℕ → Cell
  double_cell : ℕ → Cell
  bool_cell : Bool → Cell
  text_cell : StringRef → Cell

pub record Column : Type 0 where
  pub name : Name
  pub kind : FieldType
  pub cells : List Cell
  pub nulls : List ℕ
  pub fk : Option (Name × Name)
  pub fk_on_delete : FkAction
  pub fk_on_update : FkAction
  pub is_pk : Bool

-- `columns` holds the first `n_cols` entries of the arrays; -1 as `pk_col` is `none`.
pub record Table : Type 0 where
  pub columns : List Column
  pub n_rows : ℕ
  pub row_cap : ℕ
  pub dead : List ℕ
  pub n_dead : ℕ
  pub heap : Arena
  pub heap_data : List ℕ
  pub heap_len : ℕ
  pub heap_cap : ℕ
  pub pk_col : Option ℕ
  pub pk_index : RowIndex
  pub wal_generation : ℕ
  pub arena : Arena

unfoldable pub table_misuse : Table → Table
table_misuse t = record t { arena = arena_fail t.arena arena_fail_misuse }

unfoldable pub table_failed : Table → Bool
table_failed t = arena_failed t.arena || arena_failed t.heap

unfoldable pub table_take_failure : Table → Bool × Table
unfolding table_failed
table_take_failure t = (
  table_failed t,
  record t { arena = (arena_take_failure t.arena).1; heap = (arena_take_failure t.heap).1 },
)

abbrev pub field_width : FieldType → ℕ
field_width ft_int = 8
field_width ft_double = 8
field_width ft_bool = 1
field_width ft_text = 8
field_width ft_err = 0

abbrev pub field_align : FieldType → ℕ
field_align ft_int = 8
field_align ft_double = 8
field_align ft_bool = 1
field_align ft_text = 4
field_align ft_err = 1

-- A zero-filled cell.
abbrev pub zero_cell : FieldType → Cell
zero_cell ft_int = int_cell 0
zero_cell ft_double = double_cell 0
zero_cell ft_bool = bool_cell false
zero_cell _ = text_cell (record { offset = 0; len = 0 })

abbrev pub no_column : Column
no_column = record {
  name = [];
  kind = ft_err;
  cells = [];
  nulls = [];
  fk = none;
  fk_on_delete = fk_action_none;
  fk_on_update = fk_action_none;
  is_pk = false;
}

abbrev pub column_at : Table → ℕ → Column
column_at t col = get_or t.columns col no_column

abbrev pub with_column : Table → ℕ → Column → Table
with_column t col c = record t { columns = set t.columns col c }

unfoldable pub dead_test : Table → ℕ → Bool
dead_test t row = test_bit t.dead row

unfoldable pub dead_set : Table → ℕ → Table
dead_set t row = record t { dead = set_bit t.dead row }

unfoldable pub dead_clear : Table → ℕ → Table
dead_clear t row = record t { dead = clear_bit t.dead row }

unfoldable pub null_test : Table → ℕ → ℕ → Bool
null_test t col row = test_bit (column_at t col).nulls row

unfoldable pub null_set : Table → ℕ → ℕ → Table
null_set t col row =
    let c = column_at t col in with_column t col (record c { nulls = set_bit c.nulls row })

unfoldable pub null_clear : Table → ℕ → ℕ → Table
null_clear t col row =
    let c = column_at t col in with_column t col (record c { nulls = clear_bit c.nulls row })
