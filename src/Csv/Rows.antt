-- ===== src/Csv/Rows.antt =====
-- The loops of c/src/csv.c: a field never reads beyond the data, and the rounds for the fields of a
-- row are enough.
use db.Prelude.{
  ℕ, zero, suc, ◌+◌, ◌<◌, ◌≤◌, ◌≡◌, inl, inr, refl, ap, Bool, true, false, not, ◌&&◌, ◌||◌, List,
  [], ◌∷◌, ltb, ◌==◌, length, if◌then◌else◌, arith, Bool-cases,
}
use db.Arena.{Arena}
use db.Csv.{
  quote, ends_field, csv_max_field_len, after_line, resync, resynced, after_quote, read_quoted,
  read_unquoted, read_field, CsvReader, Row, push_field, read_fields, after_field, row_by, csv_ok,
  csv_nomem, row_of, with_field, failed_row, is_field_ok,
}

after_line-le : (c : ℕ) (cs : List ℕ) → length (after_line c cs) ≤ length cs
unfolding after_line
after_line-le c [] = omega arith
after_line-le c (d ∷ cs) = ground arith

resync-le : (in_quotes : Bool) (cs : List ℕ) → length (resync in_quotes cs).0 ≤ length cs
unfolding resync
resync-le in_quotes [] = omega arith
resync-le in_quotes (c ∷ cs) = elim (Bool-cases (c == quote)) [
  | inl turn ↦ rw (turn, resync) (omega (arith, resync-le (not in_quotes) cs))
  | inr other ↦ elim (Bool-cases (not in_quotes && ((c == 13) || (c == 10)))) [
    | inl line ↦ rw (other, resync, line) (omega (arith, after_line-le c cs))
    | inr inside ↦ rw (other, resync, inside) (omega (arith, resync-le in_quotes cs))
  ]
]

after_quote-le : (cs : List ℕ) → length (after_quote cs).left ≤ length cs
unfolding after_quote resynced
after_quote-le [] = omega arith
after_quote-le (c ∷ cs) = elim (Bool-cases (ends_field c)) [
  | inl ends ↦ rw (ends, after_quote) (omega arith)
  | inr bad ↦ rw (bad, after_quote) (resync-le false (c ∷ cs))
]

module _ (grows : ℕ → Bool) where
  read_unquoted-le : (n : ℕ) (cs : List ℕ) → length (read_unquoted grows n cs).left ≤ length cs
  unfolding read_unquoted resynced
  read_unquoted-le n [] = omega arith
  read_unquoted-le n (c ∷ cs) = elim (Bool-cases (ends_field c)) [
    | inl ends ↦ rw (ends, read_unquoted) (omega arith)
    | inr text ↦ elim (Bool-cases (grows (n + 1))) [
      | inr refused ↦ rw (text, read_unquoted, refused) (omega arith)
      | inl granted ↦ elim (Bool-cases (ltb csv_max_field_len (n + 1))) [
        | inl long ↦ rw (text, read_unquoted, granted, long) (omega (arith, resync-le false cs))
        | inr short ↦
            rw (text, read_unquoted, granted, short) (omega (arith, read_unquoted-le (n + 1) cs))
      ]
    ]
  ]

  read_quoted-le : (n : ℕ) (cs : List ℕ) → length (read_quoted grows n cs).left ≤ length cs
  unfolding read_quoted resynced
  read_quoted-le n [] = omega arith
  read_quoted-le n (c ∷ []) = elim (Bool-cases (c == quote)) [
    | inl ends ↦ rw (ends, read_quoted) (omega (arith, after_quote-le []))
    | inr text ↦ elim (Bool-cases (grows (n + 1))) [
      | inr refused ↦ rw (text, read_quoted, refused) (omega arith)
      | inl granted ↦ elim (Bool-cases (ltb csv_max_field_len (n + 1))) [
        | inl long ↦ rw (text, read_quoted, granted, long) (omega (arith, resync-le true []))
        | inr short ↦ rw (text, read_quoted, granted, short) (omega arith)
      ]
    ]
  ]
  read_quoted-le n (c ∷ d ∷ cs) = elim (Bool-cases (c == quote)) [
    | inl mark ↦ elim (Bool-cases (d == quote)) [
      | inr ends ↦ rw (mark, read_quoted, ends) (omega (arith, after_quote-le (d ∷ cs)))
      | inl pair ↦ elim (Bool-cases (grows (n + 1))) [
        | inr refused ↦ rw (mark, read_quoted, pair, refused) (omega arith)
        | inl granted ↦ elim (Bool-cases (ltb csv_max_field_len (n + 1))) [
          | inl long ↦
              rw (mark, read_quoted, pair, granted, long) (omega (arith, resync-le true cs))
          | inr short ↦
              rw (mark, read_quoted, pair, granted, short)
                (omega (arith, read_quoted-le (n + 1) cs))
        ]
      ]
    ]
    | inr text ↦ elim (Bool-cases (grows (n + 1))) [
      | inr refused ↦ rw (text, read_quoted, refused) (omega arith)
      | inl granted ↦ elim (Bool-cases (ltb csv_max_field_len (n + 1))) [
        | inl long ↦ rw (text, read_quoted, granted, long) (omega (arith, resync-le true (d ∷ cs)))
        | inr short ↦
            rw (text, read_quoted, granted, short) (omega (arith, read_quoted-le (n + 1) (d ∷ cs)))
      ]
    ]
  ]

  pub read_field-le : (cs : List ℕ) → length (read_field grows cs).1.left ≤ length cs
  unfolding read_field
  read_field-le [] = read_unquoted-le 0 []
  read_field-le (c ∷ cs) = elim (Bool-cases (c == quote)) [
    | inl mark ↦ rw (mark, read_field) (omega (arith, read_quoted-le 0 cs))
    | inr text ↦ rw (text, read_field) (read_unquoted-le 0 (c ∷ cs))
  ]

after_field_cong :
    (f g : List ℕ → Row) (r : CsvReader) (a : Arena) (left : List ℕ)
    → ((cs : List ℕ) → length cs < length left → f cs ≡ g cs)
    → after_field f r a left ≡ after_field g r a left
unfolding after_field
after_field_cong f g r a [] h = refl
after_field_cong f g r a (c ∷ cs) h =
    ap
      (λ x.
        if c == 44
        then x
        else row_of csv_ok (record r { left = after_line c cs; line = r.line + 1 }) a)
      (h cs (omega arith))

-- Rounds for the fields of a row that are more than the bytes left are enough: any two such
-- numbers of rounds give the same row.
pub read_fields_enough :
    (grows arrays_grow : ℕ → Bool) (n m : ℕ) (r : CsvReader) (a : Arena) (line count : ℕ)
    → length r.left < n
    → length r.left < m
    → read_fields grows arrays_grow n r a line count
      ≡ read_fields grows arrays_grow m r a line count
unfolding read_fields
read_fields_enough grows arrays_grow zero m r a line count h k = absurd (omega arith)
read_fields_enough grows arrays_grow (suc n) zero r a line count h k = absurd (omega arith)
read_fields_enough grows arrays_grow (suc n) (suc m) r a line count h k =
    let quoted = (read_field grows r.left).0 in
    let f = (read_field grows r.left).1 in
    let s : CsvReader = record r { left = f.left; line = r.line + f.lines } in
    let p = push_field s a (arrays_grow count) count (length f.text) in
    let shorter = read_field-le grows r.left in
    ap
      (λ x.
        row_by (is_field_ok f.status) p.0 (failed_row f.status s a line) (row_of csv_nomem p.1 p.2)
          (with_field (f.text, quoted) x))
      (after_field_cong _ _ p.1 p.2 f.left (λ cs less.
        read_fields_enough grows arrays_grow n m (record p.1 { left = cs }) p.2 line (count + 1)
          (omega arith) (omega arith)))
