-- ===== src/Lib.antt =====
-- db4, an embedded SQL database in C: the storage engine, its transactions, the evaluation of
-- expressions and the statements that read and change rows, and the reading of SQL tokens and CSV.
--
-- A table keeps its columns in arrays that an arena allocates (c/src/arena.c); rows are only ever
-- appended, and deletion sets a bit (c/src/table.c). Writing a cell of the primary key also inserts
-- the row into a hash index (c/src/index.c), on which the lookups for duplicates and for foreign
-- keys run; values are hashed and compared in c/src/value.c. A catalog holds the named tables
-- (c/src/catalog.c), a cursor walks a table's live rows (c/src/cursor.c), and a transaction logs
-- every change and takes it back on rollback (c/src/txn.c). A commit appends the changed rows to a
-- write-ahead log, which is replayed when the table is loaded (c/src/wal.c). Beside the engine stand
-- the lexer of its SQL (c/src/lexer.c) and the CSV reader that loads tables (c/src/csv.c). The interpreter
-- (c/src/interp.c) checks the types of a statement's expressions once, evaluates them at each row,
-- and runs SELECT, INSERT, UPDATE and DELETE on the catalog and the undo log. The parser, the files
-- and the shell are clients of these parts.
--
--   Prelude   Boolean tests, lists over native numbers, masks and bits
--   Arena     c/src/arena.c: blocks, allocation, checked sizes, the latched failure
--   Index     c/src/index.c: row_index_insert, row_index_find and what they call
--   Bitmap    the bit operations behind dead_test to null_clear of c/src/table.c
--   Value     c/src/value.c: values, compare_values, value_hash
--   Table     c/src/table.c; Columns, Rows, Cells, Keys and Compact hold its functions, the other
--             children its theorems
--   Catalog   c/src/catalog.c
--   Cursor    c/src/cursor.c
--   Txn       c/src/txn.c
--   Interp    c/include/ast.h and the expressions, checks and SELECT of c/src/interp.c; Names, Types,
--             Eval, Points, Checks, Select and Group hold its functions, the other children its
--             theorems
--   Exec      INSERT, UPDATE and DELETE of c/src/interp.c, in Insert, Update and Delete; the other
--             children hold the theorems
--   Wal       c/src/wal.c: the frames of a log and wal_append; wal_replay is in Replay, the other
--             children hold the theorems
--   Lexer     c/src/lexer.c: tokens; the keyword table is in Words
--   Csv       c/src/csv.c, and write_csv_field of c/src/load.c
--   Tests     data and runs of the theorems
--
-- Definitions carry the names of the C functions. An int64 and a double are their 64-bit patterns,
-- held in a natural number whose bound is a hypothesis where a result needs it,
-- size_t arithmetic is written out modulo 2 ^ 64 where it can wrap, and a string is its bytes. What
-- C passes by pointer and changes is returned. The parallel arrays of a table's columns are one
-- record for each column. A pointer into memory is a value of its own; where the code tests a
-- pointer for NULL, the model has a Boolean. What malloc answers is a parameter: the supply of an
-- arena gives the address of each block or none, and the catalog and the undo log take the answers
-- as arguments.
--
-- A cell is a value of a type, where C has bytes in an array: a setter of another width than the
-- column's would overwrite other cells in C, and does not here. The code calls the setter of the
-- column's type only, so a result on cells says nothing of C for another one.
--
-- The file of a log is a list of bytes, written by a machine that stores the low byte first. Whether
-- it opens, how many bytes reach it before a write fails, and whether it can then be cut back are the
-- argument Disk of wal_append.
--
-- Loops: a scan over rows runs on the number of rows left, a probe on the capacity of the index, the
-- search of the arena on three rounds more than there are blocks after the current one, which
-- arena_alloc-Settles shows to be enough, and the doublings of a 64-bit size on 64 rounds.
--
-- The replay of a log runs on one round more than there are bytes, which replay_frames_enough
-- shows to be enough, and the loop that appends rows up to a frame's on the number of rows
-- missing.
--
-- The loop of UPDATE and DELETE over the cursor's rows, and the scan of a SELECT, run on the number
-- of rows of the table, as a cursor moves on by a row at least.
--
-- The two evaluators of expressions call each other on the same expression in C; here each does what
-- the other's call would do, so that both recurse on smaller expressions, and no result compares
-- them. The sum, difference, product and quotient of doubles and qsort are parameters of the
-- definitions that use them. A SUM of INTs past 64 bits, which C leaves undefined, wraps around. An
-- error of the interpreter is a constructor that keeps what the message names.
--
-- The loops of the lexer and of a CSV field run along the bytes left, and that over the fields of a
-- CSV row on one round more than there are bytes left, which read_fields_enough shows to be enough.
--
-- The build is one with NDEBUG: otherwise misuse of an arena or a table ends the program. Characters
-- are classified as in the C locale.
--
-- Not modelled: the parser, CREATE TABLE, COMMIT, the generations and checkpoints of a log,
-- schema files, the allocations of a statement's scratch arrays and of a result, the budget, which
-- asks the operating system, locks, the shell, and the vendored libraries.
pub mod Prelude
pub mod Arena
pub mod Index
pub mod Bitmap
pub mod Value
pub mod Table
pub mod Catalog
pub mod Cursor
pub mod Txn
pub mod Lexer
pub mod Csv
pub mod Interp
pub mod Exec
pub mod Wal
pub mod Tests
