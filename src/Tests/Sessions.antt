-- ===== src/Tests/Sessions.antt =====
-- Runs of the catalog and the cursor.
use db.Prelude.{true, none, [], ◌∷◌}
use db.Catalog.{Memory, catalog_put}
use db.Catalog.Lookup.{Put, catalog_put-Put}
use db.Cursor.{cursor_init, cursor_next}
use db.Cursor.Rows.{Advances, cursor_next-Advances}
use db.Tests.{one_row, users}

abbrev granted : Memory
granted = record {
  grown = true;
  name_copied = true;
  path_copied = true;
  entry_size = 448;
  fresh = one_row;
}

catalog_put-Put_example : Put users (118 ∷ []) (catalog_put users (118 ∷ []) none granted)
catalog_put-Put_example = catalog_put-Put users (118 ∷ []) none granted

cursor_next-Advances_example : Advances (cursor_init one_row) (cursor_next (cursor_init one_row))
cursor_next-Advances_example = cursor_next-Advances (cursor_init one_row)
