-- ===== src/Lexer.antt =====
-- c/include/lexer.h and c/src/lexer.c: tokens of SQL source. A source is its bytes, and a token is
-- the place of its first byte and a length.
pub mod Words
pub mod Spans
use db.Prelude.{
  ℕ, zero, suc, ◌+◌, Bool, true, false, not, ◌&&◌, ◌||◌, List, [], ◌∷◌, leb, ltb, ◌==◌, length,
  drop, if◌then◌else◌, get_or,
}
use db.Lexer.Words.{
  TokenType, tok_eof, tok_error, tok_ident, tok_int, tok_float, tok_string, tok_star, tok_comma,
  tok_dot, tok_question, tok_semicolon, tok_lparen, tok_rparen, tok_eq, tok_ne, tok_lt, tok_le,
  tok_gt, tok_ge, tok_plus, tok_minus, tok_slash, keyword_type,
}

pub record Token : Type 0 where
  pub type : TokenType
  pub start : ℕ
  pub len : ℕ
  pub line : ℕ

pub record Lexer : Type 0 where
  pub src : List ℕ
  pub pos : ℕ
  pub line : ℕ

unfoldable pub lexer_init : List ℕ → Lexer
lexer_init src = record { src = src; pos = 0; line = 1 }

abbrev pub is_digit : ℕ → Bool
is_digit c = leb 48 c && leb c 57

abbrev pub is_alpha : ℕ → Bool
is_alpha c = (leb 65 c && leb c 90) || (leb 97 c && leb c 122)

abbrev pub ident_start : ℕ → Bool
ident_start c = is_alpha c || (c == 95)

abbrev pub ident_char : ℕ → Bool
ident_char c = is_alpha c || (is_digit c || (c == 95))

-- The byte at an offset, and 0 beyond the end.
abbrev pub peek_at : List ℕ → ℕ → ℕ
peek_at rest off = get_or rest off 0

-- `while (class(peek_at(lx, n))) n++`, for classes without 0.
unfoldable pub run : (ℕ → Bool) → List ℕ → ℕ
run class [] = 0
run class (c ∷ cs) = let more = run class cs in if class c then suc more else 0

-- A number of bytes and of line ends among them.
pub record Extent : Type 0 where
  pub bytes : ℕ
  pub lines : ℕ

abbrev pub nothing : Extent
nothing = record { bytes = 0; lines = 0 }

unfoldable pub one_more : ℕ → Extent → Extent
one_more lines e = record { bytes = suc e.bytes; lines = lines + e.lines }

-- `skip_trivia`; the first argument tells whether the loop over a comment is running.
unfoldable pub skip_trivia : Bool → List ℕ → Extent
unfolding one_more
skip_trivia comment [] = nothing
skip_trivia comment (c ∷ cs) = elim (c == 10) [
  | true ↦ one_more 1 (skip_trivia false cs)
  | false ↦ elim (comment || ((c == 32) || ((c == 9) || (c == 13)))) [
    | true ↦ one_more 0 (skip_trivia comment cs)
    | false ↦ elim ((c == 45) && (peek_at cs 0 == 45)) [
      | true ↦ one_more 0 (skip_trivia true cs)
      | false ↦ nothing
    ]
  ]
]

-- The rest of a string literal: whether it is closed, and its extent.
unfoldable pub string_rest : List ℕ → Bool × Extent
unfolding one_more
string_rest [] = (false, nothing)
string_rest (c ∷ []) =
    if c == 0
    then (false, nothing)
    else if c == 39
    then (true, one_more 0 nothing)
    else (false, one_more (if c == 10 then 1 else 0) nothing)
string_rest (c ∷ d ∷ cs) = elim (c == 0) [
  | true ↦ (false, nothing)
  | false ↦ elim (c == 39) [
    | true ↦ elim (d == 39) [
      | true ↦ ((string_rest cs).0, one_more 0 (one_more 0 (string_rest cs).1))
      | false ↦ (true, one_more 0 nothing)
    ]
    | false ↦
        ((string_rest (d ∷ cs)).0, one_more (if c == 10 then 1 else 0) (string_rest (d ∷ cs)).1)
  ]
]

-- A token's type and extent.
pub record Lexeme : Type 0 where
  pub kind : TokenType
  pub extent : Extent

abbrev pub lexeme : TokenType → ℕ → Lexeme
lexeme kind n = record { kind = kind; extent = record { bytes = n; lines = 0 } }

unfoldable pub lex_number : List ℕ → Lexeme
unfolding run
lex_number rest =
    let n = run is_digit rest in
    let m = run is_digit (drop (suc n) rest) in
    if (peek_at rest n == 46) && is_digit (peek_at rest (n + 1))
    then lexeme tok_float (n + 1 + m)
    else lexeme tok_int n

unfoldable pub lex_string : List ℕ → Lexeme
unfolding string_rest one_more
lex_string cs = record {
  kind = if (string_rest cs).0 then tok_string else tok_error;
  extent = one_more 0 (string_rest cs).1;
}

unfoldable pub lex_symbol : ℕ → List ℕ → Lexeme
lex_symbol c cs =
    let next = peek_at cs 0 in
    if c == 42
    then lexeme tok_star 1
    else if c == 44
    then lexeme tok_comma 1
    else if c == 46
    then lexeme tok_dot 1
    else if c == 63
    then lexeme tok_question 1
    else if c == 59
    then lexeme tok_semicolon 1
    else if c == 40
    then lexeme tok_lparen 1
    else if c == 41
    then lexeme tok_rparen 1
    else if c == 61
    then lexeme tok_eq 1
    else if c == 43
    then lexeme tok_plus 1
    else if c == 45
    then lexeme tok_minus 1
    else if c == 47
    then lexeme tok_slash 1
    else if c == 33
    then (if next == 61 then lexeme tok_ne 2 else lexeme tok_error 1)
    else if c == 60
    then (if next == 61
        then lexeme tok_le 2
        else if next == 62
        then lexeme tok_ne 2
        else lexeme tok_lt 1)
    else if c == 62
    then (if next == 61 then lexeme tok_ge 2 else lexeme tok_gt 1)
    else lexeme tok_error 1

unfoldable pub lex_word : List ℕ → Lexeme
unfolding run
lex_word rest = lexeme (keyword_type rest (run ident_char rest)) (run ident_char rest)

-- The token at a byte that is not trivia.
unfoldable pub lex : ℕ → List ℕ → Lexeme
unfolding lex_word lex_number lex_string lex_symbol
lex c cs =
    if ident_start c
    then lex_word (c ∷ cs)
    else if is_digit c
    then lex_number (c ∷ cs)
    else if c == 39
    then lex_string cs
    else lex_symbol c cs

unfoldable pub next_token : Lexer → List ℕ → Token × Lexer
unfolding lex
next_token lx [] = (record { type = tok_eof; start = lx.pos; len = 0; line = lx.line }, lx)
next_token lx (c ∷ cs) =
    let e = (lex c cs).extent in
    (
      record { type = (lex c cs).kind; start = lx.pos; len = e.bytes; line = lx.line },
      record lx { pos = lx.pos + e.bytes; line = lx.line + e.lines },
    )

unfoldable pub lexer_next : Lexer → Token × Lexer
unfolding next_token skip_trivia
lexer_next lx =
    let e = skip_trivia false (drop lx.pos lx.src) in
    let pos = lx.pos + e.bytes in
    next_token (record lx { pos = pos; line = lx.line + e.lines }) (drop pos lx.src)
