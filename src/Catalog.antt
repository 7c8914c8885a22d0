-- ===== src/Catalog.antt =====
-- c/src/catalog.c: the named tables of a session. Memory comes from malloc and realloc, whose
-- answers are arguments here.
pub mod Lookup
use db.Prelude.{
  ℕ, zero, suc, ◌+◌, ◌-◌, ◌*◌, ◌/◌, Bool, true, false, not, ◌&&◌, ◌||◌, Option, none, some, List,
  [], ◌∷◌, ◌++◌, ltb, ◌==◌, if◌then◌else◌, get_or, set, length,
}
use db.Prelude.Bits.{size_max}
use db.Table.{Table, Name, bytes_eq}
use db.Table.Columns.{table_term}

pub record NamedTable : Type 0 where
  pub name : Name
  pub path : Option Name
  pub table : Table

-- `tables` holds the first `count` entries of the array.
pub record Catalog : Type 0 where
  pub tables : List NamedTable
  pub capacity : ℕ

-- From entry `i` on; -1 is `none`.
unfoldable pub find_from : List NamedTable → ℕ → Name → Option ℕ
find_from [] i name = none
find_from (t ∷ ts) i name =
    let rest = find_from ts (i + 1) name in if bytes_eq t.name name then some i else rest

unfoldable pub catalog_find : Catalog → Name → Option ℕ
unfolding find_from
catalog_find c name = find_from c.tables 0 name

-- The answers of the allocations of one `catalog_put`, `sizeof(NamedTable)`, and what the memory
--  of a new entry holds.
pub record Memory : Type 0 where
  pub grown : Bool
  pub name_copied : Bool
  pub path_copied : Bool
  pub entry_size : ℕ
  pub fresh : Table

unfoldable pub copied_path : Bool → Option Name → Option Name
copied_path granted none = none
copied_path granted (some p) = if granted then some p else none

-- An existing entry: its table is emptied, and its path replaced.
unfoldable pub reuse_entry : List NamedTable → ℕ → Bool → Option Name → List NamedTable
unfolding copied_path
reuse_entry [] i granted path = []
reuse_entry (t ∷ ts) zero granted path =
    record { name = t.name; path = copied_path granted path; table = table_term t.table } ∷ ts
reuse_entry (t ∷ ts) (suc i) granted path = t ∷ reuse_entry ts i granted path

unfoldable pub grow_catalog : Catalog → Memory → Option Catalog
grow_catalog c m =
    let new_cap = if c.capacity == 0 then 4 else c.capacity * 2 in
    if length c.tables == c.capacity
    then (if ltb (size_max / m.entry_size) new_cap || not m.grown
        then none
        else some (record c { capacity = new_cap }))
    else some c

unfoldable pub path_failed : Option Name → Bool → Bool
path_failed none granted = false
path_failed (some p) granted = not granted

unfoldable pub add_table : Catalog → Name → Option Name → Memory → Option ℕ × Catalog
unfolding path_failed
add_table c name path m =
    let entry : NamedTable = record { name = name; path = path; table = m.fresh } in
    if not m.name_copied || path_failed path m.path_copied
    then (none, c)
    else (some (length c.tables), record c { tables = c.tables ++ (entry ∷ []) })

-- A new entry in the grown array.
unfoldable pub put_new : Catalog → Name → Option Name → Memory → Option Catalog → Option ℕ × Catalog
unfolding add_table
put_new c name path m none = (none, c)
put_new c name path m (some d) = add_table d name path m

unfoldable pub put_found : Catalog → Name → Option Name → Memory → Option ℕ → Option ℕ × Catalog
unfolding reuse_entry put_new grow_catalog
put_found c name path m (some i) =
    (some i, record c { tables = reuse_entry c.tables i m.path_copied path })
put_found c name path m none = put_new c name path m (grow_catalog c m)

-- The index of the entry, or `none` for NULL.
unfoldable pub catalog_put : Catalog → Name → Option Name → Memory → Option ℕ × Catalog
unfolding put_found catalog_find
catalog_put c name path m = put_found c name path m (catalog_find c name)

abbrev pub catalog_term : Catalog
catalog_term = record { tables = []; capacity = 0 }
