-- ===== src/Lexer/Spans.antt =====
-- Where the tokens of c/src/lexer.c stand in the source.
use db.Prelude.{
  ℕ, zero, suc, ◌+◌, ◌-◌, ◌<◌, ◌≤◌, ◌≡◌, ◌⊎◌, inl, inr, refl, Bool, true, false, ◌&&◌, ◌||◌, List,
  [], ◌∷◌, ◌==◌, length, drop, if◌then◌else◌, arith, Bool-cases,
}
use db.Lexer.Words.{tok_eof}
use db.Lexer.{
  Token, Lexer, Lexeme, run, skip_trivia, string_rest, one_more, is_digit, ident_char, ident_start,
  peek_at, lex, lex_word, lex_number, lex_string, lex_symbol, next_token, lexer_next,
}

run-le : (class : ℕ → Bool) (xs : List ℕ) → run class xs ≤ length xs
unfolding run
run-le class [] = omega arith
run-le class (c ∷ cs) = ground (arith, run-le class cs)

run_some : (class : ℕ → Bool) (c : ℕ) (cs : List ℕ) → class c ≡ true → 0 < run class (c ∷ cs)
unfolding run
run_some class c cs e = rw e (omega arith)

skip_trivia-le : (comment : Bool) (xs : List ℕ) → (skip_trivia comment xs).bytes ≤ length xs
unfolding skip_trivia one_more
skip_trivia-le comment [] = omega arith
skip_trivia-le comment (c ∷ cs) = elim (Bool-cases (c == 10)) [
  | inl line ↦ rw (line, skip_trivia) (omega (arith, skip_trivia-le false cs))
  | inr other ↦ elim (Bool-cases (comment || ((c == 32) || ((c == 9) || (c == 13))))) [
    | inl space ↦ rw (other, skip_trivia, space) (omega (arith, skip_trivia-le comment cs))
    | inr solid ↦ elim (Bool-cases ((c == 45) && (peek_at cs 0 == 45))) [
      | inl opens ↦ rw (other, skip_trivia, solid, opens) (omega (arith, skip_trivia-le true cs))
      | inr token ↦ rw (other, skip_trivia, solid, token) (omega arith)
    ]
  ]
]

string_rest-le : (xs : List ℕ) → (string_rest xs).1.bytes ≤ length xs
unfolding string_rest one_more
string_rest-le [] = omega arith
string_rest-le (c ∷ []) = ground arith
string_rest-le (c ∷ d ∷ cs) = elim (Bool-cases (c == 0)) [
  | inl stop ↦ rw (stop, string_rest) (omega arith)
  | inr go_on ↦ elim (Bool-cases (c == 39)) [
    | inr other ↦ rw (go_on, string_rest, other) (omega (arith, string_rest-le (d ∷ cs)))
    | inl quote ↦ elim (Bool-cases (d == 39)) [
      | inl again ↦ rw (go_on, string_rest, quote, again) (omega (arith, string_rest-le cs))
      | inr close ↦ rw (go_on, string_rest, quote, close) (omega arith)
    ]
  ]
]

pub length-drop : (n : ℕ) (xs : List ℕ) → length (drop n xs) ≡ length xs - n
length-drop zero xs = omega arith
length-drop (suc n) [] = omega arith
length-drop (suc n) (x ∷ xs) = omega (arith, length-drop n xs)

peek-inside : (xs : List ℕ) (n : ℕ) → 0 < peek_at xs n → n < length xs
peek-inside [] n h = absurd (omega arith)
peek-inside (x ∷ xs) zero h = omega arith
peek-inside (x ∷ xs) (suc n) h = omega (arith, peek-inside xs n h)

-- A token of at least one byte that ends inside the source.
abbrev Inside : Lexeme → List ℕ → Type 0
Inside t rest = (0 < t.extent.bytes) × (t.extent.bytes ≤ length rest)

lex_symbol-Inside : (c : ℕ) (cs : List ℕ) → Inside (lex_symbol c cs) (c ∷ cs)
unfolding lex_symbol
lex_symbol-Inside c cs = ground (arith, peek-inside cs 0)

lex_word-Inside : (c : ℕ) (cs : List ℕ) → ident_start c ≡ true → Inside (lex_word (c ∷ cs)) (c ∷ cs)
unfolding lex_word
lex_word-Inside c cs e =
    let char : ident_char c ≡ true = ground arith in
    (run_some ident_char c cs char, run-le ident_char (c ∷ cs))

-- A number with a fraction: the point and a digit stand before the end.
fraction-le :
    (rest : List ℕ) (n : ℕ)
    → is_digit (peek_at rest (n + 1)) ≡ true
    → n + 1 + run is_digit (drop (suc n) rest) ≤ length rest
fraction-le rest n e =
    let present : 0 < peek_at rest (n + 1) = ground arith in
    omega (
      arith,
      peek-inside rest (n + 1) present,
      length-drop (suc n) rest,
      run-le is_digit (drop (suc n) rest),
    )

lex_number-Inside :
    (c : ℕ) (cs : List ℕ) → is_digit c ≡ true → Inside (lex_number (c ∷ cs)) (c ∷ cs)
unfolding lex_number
lex_number-Inside c cs e =
    let rest = c ∷ cs in
    let n = run is_digit rest in
    elim (Bool-cases ((peek_at rest n == 46) && is_digit (peek_at rest (n + 1)))) [
      | inl point ↦
          let digit : is_digit (peek_at rest (n + 1)) ≡ true = ground arith in
          rw (point, lex_number) (omega arith, fraction-le rest n digit)
      | inr whole ↦ rw (whole, lex_number) (run_some is_digit c cs e, run-le is_digit rest)
    ]

lex_string-Inside : (c : ℕ) (cs : List ℕ) → Inside (lex_string cs) (c ∷ cs)
unfolding lex_string one_more
lex_string-Inside c cs = (omega arith, omega (arith, string_rest-le cs))

either :
    (rest : List ℕ) (b : Bool) (x y : Lexeme)
    → (b ≡ true → Inside x rest)
    → (b ≡ false → Inside y rest)
    → Inside (if b then x else y) rest
either rest true x y f g = f refl
either rest false x y f g = g refl

lex-Inside : (c : ℕ) (cs : List ℕ) → Inside (lex c cs) (c ∷ cs)
unfolding lex
lex-Inside c cs =
    let rest = c ∷ cs in
    either rest (ident_start c) (lex_word rest) _ (lex_word-Inside c cs) (λ _.
      either rest (is_digit c) (lex_number rest) _ (lex_number-Inside c cs) (λ _.
        either rest (c == 39) (lex_string cs) (lex_symbol c cs) (λ _. lex_string-Inside c cs)
          (λ _. lex_symbol-Inside c cs)))

-- A token read from `lx`, and the lexer after it.
pub record Reads (lx : Lexer) (t : Token) (lx' : Lexer) : Type 0 where
  pub src : lx'.src ≡ lx.src
  pub after : lx.pos ≤ t.start
  pub ends : lx'.pos ≡ t.start + t.len
  pub inside : lx'.pos ≤ length lx.src
  pub progress : (t.type ≡ tok_eof) × (lx'.pos ≡ length lx.src) × (t.len ≡ 0) ⊎ (0 < t.len)

next_token-Reads :
    (lx : Lexer) (pos line : ℕ) (rest : List ℕ)
    → lx.pos ≤ pos
    → pos + length rest ≡ length lx.src
    → Reads lx
        (next_token (record lx { pos = pos; line = line }) rest).0
        (next_token (record lx { pos = pos; line = line }) rest).1
unfolding next_token
next_token-Reads lx pos line [] low e = record {
  src = refl;
  after = low;
  ends = omega arith;
  inside = omega arith;
  progress = inl (refl, omega arith, refl);
}
next_token-Reads lx pos line (c ∷ cs) low e =
    let (positive, bounded) = lex-Inside c cs in
    record { src = refl; after = low; ends = refl; inside = omega arith; progress = inr positive }

-- `lexer_next` from a place in the source: the token starts at or after it and lies inside the
-- source, the lexer stands where the token ends, and it is either the end-of-input token, with the
-- whole source read, or it has at least one byte.
pub lexer_next-Reads :
    (lx : Lexer) → lx.pos ≤ length lx.src → Reads lx (lexer_next lx).0 (lexer_next lx).1
unfolding lexer_next
lexer_next-Reads lx h =
    let e = skip_trivia false (drop lx.pos lx.src) in
    let pos = lx.pos + e.bytes in
    next_token-Reads lx pos (lx.line + e.lines) (drop pos lx.src) (omega arith) (
      omega (
        arith,
        skip_trivia-le false (drop lx.pos lx.src),
        length-drop lx.pos lx.src,
        length-drop pos lx.src,
      ))
