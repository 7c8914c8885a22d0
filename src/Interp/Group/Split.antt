-- ===== src/Interp/Group/Split.antt =====
-- What `exec_select_grouped` of c/src/interp.c makes groups of, and what it splits them into.
use db.Prelude.{
  ℕ, ◌≡◌, ◌≢◌, ◌↔◌, inl, inr, refl, ap, ◌∙◌, Bool, true, false, Option, none, some, List, [], ◌∷◌,
  ◌++◌, append_assoc, Has, get_or, Bool-cases,
}
use db.Value.{Value}
use db.Table.{Table}
use db.Catalog.{Catalog}
use db.Interp.{SelectItem, Expr, GroupBy, SelectStmt, ok}
use db.Interp.Eval.{DoubleOps}
use db.Interp.Sound.{step_ok}
use db.Interp.Select.{From, ResultSet, accepts, at_rows, from_table, scan_rows, check_condition}
use db.Interp.Scan.{IsLive, scan_rows-exact}
use db.Interp.Group.{
  ItemPlan, group_key_cmp, group_key_equal, gather, split_groups, groups_of, build_rows,
  accepted_rows, RowSort, group_columns, plan_items, exec_select_grouped, check_qualifier,
  column_or, listed,
}

-- The groups end to end.
abbrev pub flatten : List (List ℕ) → List ℕ
flatten [] = []
flatten (g ∷ groups) = g ++ flatten groups

abbrev pub head_of : List ℕ → ℕ
head_of g = get_or g 0 0

module _ (t : Table) (cols : List ℕ) where
  abbrev pub AllLike : ℕ → List ℕ → Type 0
  AllLike first [] = Unit
  AllLike first (r ∷ rows) = (group_key_equal t cols first r ≡ true) × AllLike first rows

  -- At least one row, and all have the key of the first.
  abbrev pub IsKeyGroup : List ℕ → Type 0
  IsKeyGroup [] = ⊥
  IsKeyGroup (first ∷ rest) = AllLike first rest

  abbrev pub StartsApart : ℕ → List (List ℕ) → Type 0
  StartsApart first [] = Unit
  StartsApart first (g ∷ groups) = group_key_equal t cols first (head_of g) ≡ false

  -- Groups of one key each, no two next to each other with the same.
  abbrev pub AreKeyGroups : List (List ℕ) → Type 0
  AreKeyGroups [] = Unit
  AreKeyGroups (g ∷ groups) = IsKeyGroup g × StartsApart (head_of g) groups × AreKeyGroups groups

  AllLike-append :
      (first r : ℕ) (rows : List ℕ)
      → AllLike first rows
      → group_key_equal t cols first r ≡ true
      → AllLike first (rows ++ (r ∷ []))
  AllLike-append first r [] h e = (e, tt)
  AllLike-append first r (q ∷ rows) h e = (h.0, AllLike-append first r rows h.1 e)

  gather-StartsApart :
      (p first : ℕ) (more rows : List ℕ)
      → group_key_equal t cols p first ≡ false
      → StartsApart p (gather t cols first (first ∷ more) rows)
  unfolding gather
  gather-StartsApart p first more [] e = e
  gather-StartsApart p first more (r ∷ rows) e =
      elim (Bool-cases (group_key_equal t cols first r)) [
        | inl alike ↦ rw (gather, alike) (gather-StartsApart p first (more ++ (r ∷ [])) rows e)
        | inr other ↦ rw (gather, other) e
      ]

  gather-AreKeyGroups :
      (first : ℕ) (more rows : List ℕ)
      → AllLike first more
      → AreKeyGroups (gather t cols first (first ∷ more) rows)
  unfolding gather
  gather-AreKeyGroups first more [] h = (h, tt, tt)
  gather-AreKeyGroups first more (r ∷ rows) h = elim (Bool-cases (group_key_equal t cols first r)) [
    | inl alike ↦
        rw (gather, alike)
          (gather-AreKeyGroups first (more ++ (r ∷ [])) rows (AllLike-append first r more h alike))
    | inr other ↦
        rw (gather, other)
          (h, gather-StartsApart first r [] rows other, gather-AreKeyGroups r [] rows tt)
  ]

  flatten-gather :
      (first : ℕ) (group rows : List ℕ) → flatten (gather t cols first group rows) ≡ group ++ rows
  unfolding gather
  flatten-gather first group [] = refl
  flatten-gather first group (r ∷ rows) = elim (Bool-cases (group_key_equal t cols first r)) [
    | inl alike ↦
        rw (gather, alike)
          (flatten-gather first (group ++ (r ∷ [])) rows ∙ append_assoc group (r ∷ []) rows)
    | inr other ↦ rw (gather, other) (ap (◌++◌ group) (flatten-gather r (r ∷ []) rows))
  ]

  -- The groups are the rows in order, cut where the key changes.
  pub flatten-split_groups : (rows : List ℕ) → flatten (split_groups t cols rows) ≡ rows
  unfolding split_groups
  flatten-split_groups [] = refl
  flatten-split_groups (r ∷ rows) = flatten-gather r (r ∷ []) rows

  pub split_groups-AreKeyGroups : (rows : List ℕ) → AreKeyGroups (split_groups t cols rows)
  unfolding split_groups
  split_groups-AreKeyGroups [] = tt
  split_groups-AreKeyGroups (r ∷ rows) = gather-AreKeyGroups r [] rows tt

abbrev row_accepted : DoubleOps → Option Expr → From → List Value → ℕ → Bool
row_accepted f condition from params r =
    accepts f condition (record { sources = at_rows (from ∷ []) (r ∷ []); params = params })

accepted_rows-exact :
    (f : DoubleOps) (condition : Option Expr) (from : From) (params : List Value) (rows : List ℕ)
    (r : ℕ)
    → Has r (accepted_rows f condition from params rows)
      ↔ (Has r rows × (row_accepted f condition from params r ≡ true))
unfolding accepted_rows
accepted_rows-exact f condition from params [] r = (λ x. absurd x, λ (x, _). absurd x)
accepted_rows-exact f condition from params (q ∷ rows) r =
    let (sound, complete) = accepted_rows-exact f condition from params rows r in
    let good : ℕ → Bool = row_accepted f condition from params in
    elim (Bool-cases (good q)) [
      | inr other ↦
          rw (accepted_rows, other)
            (
              λ x. (inr (sound x).0, (sound x).1),
              λ (x, fine). elim x [
                | inl here ↦ absurd (cc (ap good here, other, fine))
                | inr later ↦ complete (later, fine)
              ],
            )
      | inl fits ↦
          rw (accepted_rows, fits)
            (
              λ x. elim x [
                | inl here ↦ (inl here, ap good here ∙ fits)
                | inr later ↦ (inr (sound later).0, (sound later).1)
              ],
              λ (x, fine). elim x [
                | inl here ↦ inl here
                | inr later ↦ inr (complete (later, fine))
              ],
            )
    ]

-- What a SELECT with GROUP BY answers: a row for each group of the live rows that the condition
-- accepts, in the order of the sort by the key.
pub record IsGroupedResult (f : DoubleOps) (sort : RowSort) (stmt : SelectStmt) (catalog : Catalog)
    (params : List Value) (rs : ResultSet) : Type 0 where
  pub from : From
  pub cols : List ℕ
  pub items : List SelectItem
  pub plans : List ItemPlan
  pub kept : List ℕ
  pub groups : List (List ℕ)
  pub found : from_table catalog stmt.table ≡ ok from
  pub keyed : group_columns from.table stmt.table stmt.group_by ≡ ok cols
  pub listed_items : stmt.items ≡ some items
  pub planned : plan_items from.table stmt.table cols items ≡ ok plans
  pub kept_exact :
      (r : ℕ)
      → Has r kept ↔ (IsLive from.table r × (row_accepted f stmt.condition from params r ≡ true))
  pub sorted : flatten groups ≡ sort (group_key_cmp from.table cols) kept
  pub grouped : AreKeyGroups from.table cols groups
  pub rows : rs.rows ≡ build_rows f from.table plans groups

group_columns-nonempty :
    (t : Table) (name : List ℕ) (gs : List GroupBy) → gs ≢ [] → group_columns t name gs ≢ ok []
unfolding group_columns
group_columns-nonempty t name [] h e = h refl
group_columns-nonempty t name (g ∷ gs) h e =
    let (_, fits, rest) = step_ok (check_qualifier name g) _ e in
    let (col, found, more) = step_ok (column_or t name g.column) _ rest in
    let (cols, others, last) = step_ok (group_columns t name gs) _ more in absurd (cc (last))

groups_of-sorted :
    (sort : RowSort) (t : Table) (cols rows : List ℕ)
    → cols ≢ []
    → (flatten (groups_of sort t cols rows) ≡ sort (group_key_cmp t cols) rows)
      × AreKeyGroups t cols (groups_of sort t cols rows)
unfolding groups_of
groups_of-sorted sort t [] rows h = absurd (h refl)
groups_of-sorted sort t (c ∷ cols) rows h =
    let sorted = sort (group_key_cmp t (c ∷ cols)) rows in
    (flatten-split_groups t (c ∷ cols) sorted, split_groups-AreKeyGroups t (c ∷ cols) sorted)

listed_sound :
    (o : Option (List SelectItem)) (items : List SelectItem) → listed o ≡ ok items → o ≡ some items
listed_sound none items h = cc
listed_sound (some is) items h = cc

same_rows : {a b : ResultSet} → ok a ≡ ok b → b.rows ≡ a.rows
same_rows {a} {b} e = let same : b ≡ a = cc (e) in ap (λ rs. rs.rows) same

-- A SELECT with GROUP BY that succeeds answers one row for each group. The groups are the live rows
-- of the table that the condition accepts, in the order in which the sort by the group key left
-- them, cut into runs: a group is not empty, its rows have the key of its first row, and the next
-- group's first row has another.
pub exec_select_grouped-IsGroupedResult :
    (f : DoubleOps) (sort : RowSort) (stmt : SelectStmt) (catalog : Catalog) (params : List Value)
    (rs : ResultSet)
    → stmt.group_by ≢ []
    → exec_select_grouped f sort stmt catalog params ≡ ok rs
    → IsGroupedResult f sort stmt catalog params rs
unfolding exec_select_grouped
exec_select_grouped-IsGroupedResult f sort stmt catalog params rs h e =
    let (from, found, e1) = step_ok (from_table catalog stmt.table) _ e in
    let (items, given, e2) = step_ok (listed stmt.items) _ e1 in
    let (cols, keyed, e3) = step_ok (group_columns from.table stmt.table stmt.group_by) _ e2 in
    let (plans, planned, e4) = step_ok (plan_items from.table stmt.table cols items) _ e3 in
    let (_, passed, last) = step_ok (check_condition stmt.condition _) _ e4 in
    let kept = accepted_rows f stmt.condition from params (scan_rows from.table) in
    let (sorted, grouped) = groups_of-sorted sort from.table cols kept (λ none_left.
      group_columns-nonempty from.table stmt.table stmt.group_by h
        (keyed ∙ ap (λ cs. ok cs) none_left)) in
    record {
      from = from;
      cols = cols;
      items = items;
      plans = plans;
      kept = kept;
      groups = groups_of sort from.table cols kept;
      found = found;
      keyed = keyed;
      listed_items = listed_sound stmt.items items given;
      planned = planned;
      kept_exact = λ r.
          let (sound, complete) =
            accepted_rows-exact f stmt.condition from params (scan_rows from.table) r in
          let (live_sound, live_complete) = scan_rows-exact from.table r in
          (
            λ x. (live_sound (sound x).0, (sound x).1),
            λ (live, fine). complete (live_complete live, fine),
          );
      sorted = sorted;
      grouped = grouped;
      rows = same_rows last;
    }
