-- ===== src/Tests/Sources.antt =====
-- Runs of the lexer and the CSV reader.
use db.Prelude.{ℕ, ◌≡◌, Bool, true, List, [], ◌∷◌, ◌++◌, arith, refl}
use db.Lexer.{Lexer, lexer_next}
use db.Lexer.Spans.{Reads, lexer_next-Reads}
use db.Csv.{CsvReader, read_fields, read_field, write_csv_field, csv_field_needs_quotes}
use db.Csv.Fields.{EndsHere, field_of, line_ends, read_field-write_csv_field}
use db.Csv.Rows.{read_fields_enough}
use db.Tests.{arena_0}

-- "a<>1.5 'x''y'"
abbrev source : List ℕ
source = 97 ∷ 60 ∷ 62 ∷ 49 ∷ 46 ∷ 53 ∷ 32 ∷ 39 ∷ 120 ∷ 39 ∷ 39 ∷ 121 ∷ 39 ∷ []

abbrev lexer_0 : Lexer
lexer_0 = record { src = source; pos = 0; line = 1 }

lexer_next-Reads_example : Reads lexer_0 (lexer_next lexer_0).0 (lexer_next lexer_0).1
lexer_next-Reads_example = lexer_next-Reads lexer_0 (omega arith)

abbrev always : ℕ → Bool
always n = true

-- a,"b
abbrev special : List ℕ
special = 97 ∷ 44 ∷ 34 ∷ 98 ∷ 10 ∷ []

abbrev line_end : List ℕ
line_end = 10 ∷ []

read_field-write_csv_field_example :
    read_field always (write_csv_field special ++ line_end)
    ≡ (csv_field_needs_quotes special, field_of special line_end (line_ends special))
unfolding EndsHere
read_field-write_csv_field_example =
    read_field-write_csv_field always (λ n. refl) special line_end (omega arith) refl

abbrev reader_0 : CsvReader
reader_0 = record {
  left = 97 ∷ 44 ∷ 98 ∷ 10 ∷ [];
  line = 1;
  n_cols = 0;
  field_cap = 0;
  err_line = 0;
}

read_fields_enough_example :
    read_fields always always 5 reader_0 arena_0 1 0
    ≡ read_fields always always 9 reader_0 arena_0 1 0
read_fields_enough_example =
    read_fields_enough always always 5 9 reader_0 arena_0 1 0 (omega arith) (omega arith)
