-- ===== src/Csv/Fields.antt =====
-- A field that `write_csv_field` writes is read back by `read_field`: c/src/load.c and c/src/csv.c.
use db.Prelude.{
  ℕ, ◌+◌, ◌<◌, ◌≤◌, ◌≡◌, inl, inr, refl, sym, ap, subst, ◌∙◌, Bool, true, false, List, [], ◌∷◌,
  ◌++◌, ltb, ◌==◌, ==_iff, length, length-append, if◌then◌else◌, arith, Bool-cases, append_assoc,
}
use db.Csv.{
  Field, stop, with_byte, and_lines, field_ok, quote, ends_field, csv_max_field_len, after_quote,
  read_quoted, read_unquoted, read_field, csv_field_needs_quotes, doubled_quotes, write_csv_field,
}

-- What may follow a field: nothing, a comma or a line end.
unfoldable pub EndsHere : List ℕ → Type 0
EndsHere [] = Unit {0}
EndsHere (c ∷ cs) = ends_field c ≡ true

-- How many line ends a text has.
pub line_ends : List ℕ → ℕ
line_ends [] = 0
line_ends (c ∷ cs) = (if c == 10 then 1 else 0) + line_ends cs

-- The field of a text, with the bytes after it left.
abbrev pub field_of : List ℕ → List ℕ → ℕ → Field
field_of s left lines = record { status = field_ok; text = s; left = left; lines = lines }

after_quote-EndsHere : (rest : List ℕ) → EndsHere rest → after_quote rest ≡ stop field_ok rest
unfolding after_quote EndsHere
after_quote-EndsHere [] e = refl
after_quote-EndsHere (c ∷ cs) e = rw e refl

module _ (grows : ℕ → Bool) (all : (n : ℕ) → grows n ≡ true) where
  -- The closing quote.
  closed :
      (n : ℕ) (rest : List ℕ)
      → EndsHere rest
      → read_quoted grows n (quote ∷ rest) ≡ stop field_ok rest
  unfolding read_quoted after_quote EndsHere
  closed n [] e = refl
  closed n (c ∷ cs) e = elim (Bool-cases (c == quote)) [
    | inl bad ↦ absurd (let same : c ≡ quote = (==_iff c quote).0 bad in cc (e, ap ends_field same))
    | inr other ↦ rw (other, read_quoted, e) refl
  ]

  read_quoted-byte :
      (n c : ℕ) (rest : List ℕ)
      → (c == quote) ≡ false
      → n < csv_max_field_len
      → 0 < length rest
      → read_quoted grows n (c ∷ rest)
        ≡ and_lines (if c == 10 then 1 else 0) (with_byte c (read_quoted grows (n + 1) rest))
  unfolding read_quoted
  read_quoted-byte n c [] e h more = absurd (omega arith)
  read_quoted-byte n c (d ∷ cs) e h more =
      let small : ltb csv_max_field_len (n + 1) ≡ false = ground arith in
      rw (e, read_quoted, all (n + 1), small) refl

  read_quoted-pair :
      (n : ℕ) (rest : List ℕ)
      → n < csv_max_field_len
      → read_quoted grows n (quote ∷ (quote ∷ rest))
        ≡ with_byte quote (read_quoted grows (n + 1) rest)
  unfolding read_quoted
  read_quoted-pair n rest h =
      let small : ltb csv_max_field_len (n + 1) ≡ false = ground arith in
      rw (all (n + 1), small) refl

  quoted_text :
      (s rest : List ℕ) (n : ℕ)
      → n + length s ≤ csv_max_field_len
      → EndsHere rest
      → read_quoted grows n (doubled_quotes s ++ (quote ∷ rest)) ≡ field_of s rest (line_ends s)
  unfolding doubled_quotes line_ends
  quoted_text [] rest n h e = closed n rest e
  quoted_text (c ∷ s) rest n h e = elim (Bool-cases (c == quote)) [
    | inl same ↦
        let is_quote = (==_iff c quote).0 same in
        let more = quoted_text s rest (n + 1) (omega arith) e in
        subst
          (λ x.
            read_quoted grows n (doubled_quotes (x ∷ s) ++ (quote ∷ rest))
            ≡ field_of (x ∷ s) rest (line_ends (x ∷ s)))
          (sym is_quote)
          (read_quoted-pair n (doubled_quotes s ++ (quote ∷ rest)) (omega arith)
            ∙ ap (with_byte quote) more
            ∙ ap (field_of (quote ∷ s) rest) (omega arith))
    | inr other ↦
        let more = quoted_text s rest (n + 1) (omega arith) e in
        let left = doubled_quotes s ++ (quote ∷ rest) in
        let some_left : 0 < length left =
          omega (arith, length-append (doubled_quotes s) (quote ∷ rest)) in
        rw other (
          read_quoted-byte n c left other (omega arith) some_left
          ∙ ap (λ f. and_lines (if c == 10 then 1 else 0) (with_byte c f)) more)
  ]

  unquoted_text :
      (s rest : List ℕ) (n : ℕ)
      → csv_field_needs_quotes s ≡ false
      → n + length s ≤ csv_max_field_len
      → EndsHere rest
      → read_unquoted grows n (s ++ rest) ≡ field_of s rest 0
  unfolding csv_field_needs_quotes read_unquoted EndsHere
  unquoted_text [] [] n plain h e = refl
  unquoted_text [] (d ∷ rest) n plain h e = rw (e, read_unquoted) refl
  unquoted_text (c ∷ s) rest n plain h e =
      let inner : ends_field c ≡ false = ground arith in
      let later : csv_field_needs_quotes s ≡ false = ground arith in
      let small : ltb csv_max_field_len (n + 1) ≡ false = ground arith in
      rw (inner, read_unquoted, all (n + 1), small)
        (ap (with_byte c) (unquoted_text s rest (n + 1) later (omega arith) e))

  plain_lines : (s : List ℕ) → csv_field_needs_quotes s ≡ false → line_ends s ≡ 0
  unfolding csv_field_needs_quotes line_ends
  plain_lines [] plain = refl
  plain_lines (c ∷ s) plain =
      let other : (c == 10) ≡ false = ground arith in
      let later : csv_field_needs_quotes s ≡ false = ground arith in
      rw other (omega (arith, plain_lines s later))

  -- What starts with no quote is read as an unquoted field.
  read_field_plain :
      (s rest : List ℕ)
      → csv_field_needs_quotes s ≡ false
      → EndsHere rest
      → read_field grows (s ++ rest) ≡ (false, read_unquoted grows 0 (s ++ rest))
  unfolding read_field csv_field_needs_quotes EndsHere
  read_field_plain [] [] plain e = refl
  read_field_plain [] (d ∷ rest) plain e =
      let other : (d == quote) ≡ false = ground arith in rw (other, read_field) refl
  read_field_plain (c ∷ s) rest plain e =
      let other : (c == quote) ≡ false = ground arith in rw (other, read_field) refl

  -- A text of at most `csv_max_field_len` bytes that `write_csv_field` writes before a comma, a
  -- line end or the end of the data is what `read_field` reads there, with the bytes after it left
  -- and its line ends counted, where the scratch string can always grow. The field counts as
  -- quoted exactly when the text has a comma, a quote or a line end.
  pub read_field-write_csv_field :
      (s rest : List ℕ)
      → length s ≤ csv_max_field_len
      → EndsHere rest
      → read_field grows (write_csv_field s ++ rest)
        ≡ (csv_field_needs_quotes s, field_of s rest (line_ends s))
  unfolding write_csv_field read_field
  read_field-write_csv_field s rest h e = elim (Bool-cases (csv_field_needs_quotes s)) [
    | inr plain ↦
        rw (plain, write_csv_field)
          (read_field_plain s rest plain e
            ∙ ap (λ f. (false, f))
                (unquoted_text s rest 0 plain (omega arith) e
                  ∙ ap (field_of s rest) (sym (plain_lines s plain))))
    | inl special ↦
        rw (special, write_csv_field)
          (ap (λ f. (true, f))
            (ap (read_quoted grows 0) (append_assoc (doubled_quotes s) (quote ∷ []) rest)
              ∙ quoted_text s rest 0 (omega arith) e))
  ]
