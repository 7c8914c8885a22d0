-- ===== src/Catalog/Lookup.antt =====
-- Finding tables by name in c/src/catalog.c.
use db.Prelude.{
  ℕ, zero, suc, ◌+◌, ◌*◌, ◌/◌, ltb, ◌≡◌, ◌≢◌, inl, inr, refl, ap, subst, ◌∙◌, Bool, true, not, ◌||◌,
  Option, some, none, List, [], ◌∷◌, ◌++◌, length, arith, Bool-cases, if◌then◌else◌, ==_refl, ◌==◌,
}
use db.Prelude.Bits.{size_max}
use db.Table.{Name, bytes_eq}
use db.Table.Lookup.{bytes_eq_sound}
use db.Catalog.{
  Catalog, NamedTable, Memory, find_from, catalog_find, catalog_put, put_new, put_found, add_table,
  grow_catalog, path_failed, reuse_entry,
}

pub bytes_eq_refl : (a : Name) → bytes_eq a a ≡ true
unfolding bytes_eq
bytes_eq_refl [] = refl
bytes_eq_refl (x ∷ a) = rw (==_refl x, bytes_eq_refl a) refl

-- No table from the first one on has the name.
pub Unnamed : List NamedTable → Name → Type 0
Unnamed [] name = Unit {0}
Unnamed (t ∷ ts) name = (t.name ≢ name) × Unnamed ts name

-- The first table with the name stands at `n`.
pub Named : List NamedTable → Name → ℕ → Type 0
Named [] name n = ⊥
Named (t ∷ ts) name zero = t.name ≡ name
Named (t ∷ ts) name (suc n) = (t.name ≢ name) × Named ts name n

pub Found : List NamedTable → ℕ → Name → Option ℕ → Type 0
Found ts i name none = Unnamed ts name
Found ts i name (some k) = (n : ℕ) × (k ≡ i + n) × Named ts name n

Found-later :
    (t : NamedTable) (ts : List NamedTable) (i : ℕ) (name : Name) (o : Option ℕ)
    → t.name ≢ name
    → Found ts (i + 1) name o
    → Found (t ∷ ts) i name o
unfolding Found Unnamed Named
Found-later t ts i name none ne x = (ne, x)
Found-later t ts i name (some k) ne (n, e, x) = (suc n, omega arith, (ne, x))

find_from-Found :
    (ts : List NamedTable) (i : ℕ) (name : Name) → Found ts i name (find_from ts i name)
unfolding find_from Found Unnamed Named
find_from-Found [] i name = tt
find_from-Found (t ∷ ts) i name = elim (Bool-cases (bytes_eq t.name name)) [
  | inl same ↦ rw same (zero, omega arith, bytes_eq_sound t.name name same)
  | inr other ↦
      let ne : t.name ≢ name =
        λ e. cc (other, subst (λ n. bytes_eq t.name n ≡ true) e (bytes_eq_refl t.name)) in
      rw other (Found-later t ts i name _ ne (find_from-Found ts (i + 1) name))
]

-- `catalog_find` answers with the first table of the name, or that no table has it.
pub catalog_find-Found : (c : Catalog) (name : Name) → Found c.tables 0 name (catalog_find c name)
unfolding catalog_find
catalog_find-Found c name = find_from-Found c.tables 0 name

-- The table with the name that is added last is found at the end.
find_from-added :
    (ts : List NamedTable) (i : ℕ) (t : NamedTable)
    → find_from ts i t.name ≡ none
    → find_from (ts ++ (t ∷ [])) i t.name ≡ some (i + length ts)
unfolding find_from
find_from-added [] i t e = rw (bytes_eq_refl t.name) (ap some (omega arith))
find_from-added (u ∷ ts) i t e = elim (Bool-cases (bytes_eq u.name t.name)) [
  | inl same ↦ cc (rw same at e)
  | inr other ↦ rw other (find_from-added ts (i + 1) t (rw other at e) ∙ ap some (omega arith))
]

-- A path or a table that is replaced does not change where a name is found.
find_from-reuse :
    (ts : List NamedTable) (i j : ℕ) (granted : Bool) (path : Option Name) (name : Name)
    → find_from (reuse_entry ts j granted path) i name ≡ find_from ts i name
unfolding find_from reuse_entry
find_from-reuse [] i j granted path name = refl
find_from-reuse (t ∷ ts) i zero granted path name = refl
find_from-reuse (t ∷ ts) i (suc j) granted path name =
    rw (find_from-reuse ts (i + 1) j granted path name) refl

-- Growing the array keeps the tables.
GrownFrom : Catalog → Option Catalog → Type 0
GrownFrom c none = Unit {0}
GrownFrom c (some d) = d.tables ≡ c.tables

grow_catalog-GrownFrom : (c : Catalog) (m : Memory) → GrownFrom c (grow_catalog c m)
unfolding grow_catalog GrownFrom
grow_catalog-GrownFrom c m = elim (Bool-cases (length c.tables == c.capacity)) [
  | inr roomy ↦ rw roomy refl
  | inl full ↦
      let next = if c.capacity == 0 then 4 else c.capacity * 2 in
      elim (Bool-cases (ltb (size_max / m.entry_size) next || not m.grown)) [
        | inl refused ↦ rw (full, refused) tt
        | inr granted ↦ rw (full, granted) refl
      ]
]

-- NULL and the tables as they were, or the entry of the name.
pub Put : Catalog → Name → Option ℕ × Catalog → Type 0
Put c name (none, d) = d.tables ≡ c.tables
Put c name (some i, d) = catalog_find d name ≡ some i

add_table-Put :
    (c d : Catalog) (name : Name) (path : Option Name) (m : Memory)
    → d.tables ≡ c.tables
    → catalog_find c name ≡ none
    → Put c name (add_table d name path m)
unfolding add_table Put catalog_find
add_table-Put c d name path m same absent =
    elim (Bool-cases (not m.name_copied || path_failed path m.path_copied)) [
      | inl refused ↦ rw refused same
      | inr granted ↦ rw granted (
          find_from-added d.tables 0 (record { name = name; path = path; table = m.fresh })
            (ap (λ ts. find_from ts 0 name) same ∙ absent)
          ∙ ap some (omega arith))
    ]

put_new-Put :
    (c : Catalog) (name : Name) (path : Option Name) (m : Memory) (g : Option Catalog)
    → GrownFrom c g
    → catalog_find c name ≡ none
    → Put c name (put_new c name path m g)
unfolding put_new GrownFrom Put
put_new-Put c name path m none x absent = refl
put_new-Put c name path m (some d) x absent = add_table-Put c d name path m x absent

put_found-Put :
    (c : Catalog) (name : Name) (path : Option Name) (m : Memory) (o : Option ℕ)
    → catalog_find c name ≡ o
    → Put c name (put_found c name path m o)
unfolding put_found Put catalog_find
put_found-Put c name path m none absent =
    put_new-Put c name path m (grow_catalog c m) (grow_catalog-GrownFrom c m) absent
put_found-Put c name path m (some i) there =
    find_from-reuse c.tables 0 i m.path_copied path name ∙ there

-- `catalog_put` answers with the entry at which `catalog_find` then finds the name, whether the
-- name was there before or is new; where it answers NULL, the tables are as they were.
pub catalog_put-Put :
    (c : Catalog) (name : Name) (path : Option Name) (m : Memory)
    → Put c name (catalog_put c name path m)
unfolding catalog_put
catalog_put-Put c name path m = put_found-Put c name path m (catalog_find c name) refl
