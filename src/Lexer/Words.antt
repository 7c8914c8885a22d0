-- ===== src/Lexer/Words.antt =====
-- The token types, the keyword table and the names of token types of c/src/lexer.c.
use db.Prelude.{
  ℕ, zero, suc, ◌+◌, Bool, true, false, ◌&&◌, List, [], ◌∷◌, leb, ◌==◌, length, if◌then◌else◌,
}

pub data TokenType : Type 0 where
  tok_eof tok_error tok_ident tok_int tok_float tok_string tok_select tok_from tok_where tok_order
        tok_by tok_limit tok_and tok_or tok_not tok_asc tok_desc tok_null tok_true tok_false
        tok_insert tok_into tok_values tok_update tok_set tok_delete tok_begin tok_commit
        tok_rollback tok_transaction tok_create tok_table tok_primary tok_key tok_references tok_on
        tok_cascade tok_restrict tok_join tok_inner tok_group tok_star tok_comma tok_dot
        tok_question tok_semicolon tok_lparen tok_rparen tok_eq tok_ne tok_lt tok_le tok_gt tok_ge
        tok_plus tok_minus tok_slash :
      TokenType

-- A lowercase word and its type.
abbrev pub keywords : List (List ℕ × TokenType)
keywords =
    (115 ∷ 101 ∷ 108 ∷ 101 ∷ 99 ∷ 116 ∷ [], tok_select)
    ∷ (102 ∷ 114 ∷ 111 ∷ 109 ∷ [], tok_from)
    ∷ (119 ∷ 104 ∷ 101 ∷ 114 ∷ 101 ∷ [], tok_where)
    ∷ (111 ∷ 114 ∷ 100 ∷ 101 ∷ 114 ∷ [], tok_order)
    ∷ (98 ∷ 121 ∷ [], tok_by)
    ∷ (108 ∷ 105 ∷ 109 ∷ 105 ∷ 116 ∷ [], tok_limit)
    ∷ (97 ∷ 110 ∷ 100 ∷ [], tok_and)
    ∷ (111 ∷ 114 ∷ [], tok_or)
    ∷ (110 ∷ 111 ∷ 116 ∷ [], tok_not)
    ∷ (97 ∷ 115 ∷ 99 ∷ [], tok_asc)
    ∷ (100 ∷ 101 ∷ 115 ∷ 99 ∷ [], tok_desc)
    ∷ (110 ∷ 117 ∷ 108 ∷ 108 ∷ [], tok_null)
    ∷ (116 ∷ 114 ∷ 117 ∷ 101 ∷ [], tok_true)
    ∷ (102 ∷ 97 ∷ 108 ∷ 115 ∷ 101 ∷ [], tok_false)
    ∷ (105 ∷ 110 ∷ 115 ∷ 101 ∷ 114 ∷ 116 ∷ [], tok_insert)
    ∷ (105 ∷ 110 ∷ 116 ∷ 111 ∷ [], tok_into)
    ∷ (118 ∷ 97 ∷ 108 ∷ 117 ∷ 101 ∷ 115 ∷ [], tok_values)
    ∷ (117 ∷ 112 ∷ 100 ∷ 97 ∷ 116 ∷ 101 ∷ [], tok_update)
    ∷ (115 ∷ 101 ∷ 116 ∷ [], tok_set)
    ∷ (100 ∷ 101 ∷ 108 ∷ 101 ∷ 116 ∷ 101 ∷ [], tok_delete)
    ∷ (98 ∷ 101 ∷ 103 ∷ 105 ∷ 110 ∷ [], tok_begin)
    ∷ (99 ∷ 111 ∷ 109 ∷ 109 ∷ 105 ∷ 116 ∷ [], tok_commit)
    ∷ (114 ∷ 111 ∷ 108 ∷ 108 ∷ 98 ∷ 97 ∷ 99 ∷ 107 ∷ [], tok_rollback)
    ∷ (116 ∷ 114 ∷ 97 ∷ 110 ∷ 115 ∷ 97 ∷ 99 ∷ 116 ∷ 105 ∷ 111 ∷ 110 ∷ [], tok_transaction)
    ∷ (99 ∷ 114 ∷ 101 ∷ 97 ∷ 116 ∷ 101 ∷ [], tok_create)
    ∷ (116 ∷ 97 ∷ 98 ∷ 108 ∷ 101 ∷ [], tok_table)
    ∷ (112 ∷ 114 ∷ 105 ∷ 109 ∷ 97 ∷ 114 ∷ 121 ∷ [], tok_primary)
    ∷ (107 ∷ 101 ∷ 121 ∷ [], tok_key)
    ∷ (114 ∷ 101 ∷ 102 ∷ 101 ∷ 114 ∷ 101 ∷ 110 ∷ 99 ∷ 101 ∷ 115 ∷ [], tok_references)
    ∷ (111 ∷ 110 ∷ [], tok_on)
    ∷ (99 ∷ 97 ∷ 115 ∷ 99 ∷ 97 ∷ 100 ∷ 101 ∷ [], tok_cascade)
    ∷ (114 ∷ 101 ∷ 115 ∷ 116 ∷ 114 ∷ 105 ∷ 99 ∷ 116 ∷ [], tok_restrict)
    ∷ (106 ∷ 111 ∷ 105 ∷ 110 ∷ [], tok_join)
    ∷ (105 ∷ 110 ∷ 110 ∷ 101 ∷ 114 ∷ [], tok_inner)
    ∷ (103 ∷ 114 ∷ 111 ∷ 117 ∷ 112 ∷ [], tok_group)
    ∷ []

abbrev pub lower : ℕ → ℕ
lower c = if leb 65 c && leb c 90 then c + 32 else c

-- `klen == n && strncasecmp(start, word, n) == 0`, on the `n` first bytes.
unfoldable pub same_word : List ℕ → ℕ → List ℕ → Bool
same_word rest zero [] = true
same_word rest zero (k ∷ ks) = false
same_word rest (suc n) [] = false
same_word [] (suc n) (k ∷ ks) = false
same_word (c ∷ cs) (suc n) (k ∷ ks) = (lower c == k) && same_word cs n ks

unfoldable pub find_keyword : List (List ℕ × TokenType) → List ℕ → ℕ → TokenType
unfolding same_word
find_keyword [] rest n = tok_ident
find_keyword ((word, type) ∷ more) rest n =
    let later = find_keyword more rest n in if same_word rest n word then type else later

unfoldable pub keyword_type : List ℕ → ℕ → TokenType
unfolding find_keyword
keyword_type rest n = find_keyword keywords rest n

abbrev pub lexer_keyword_count : ℕ
lexer_keyword_count = length keywords

unfoldable pub token_type_name : TokenType → List ℕ
token_type_name tok_eof = 101 ∷ 110 ∷ 100 ∷ 32 ∷ 111 ∷ 102 ∷ 32 ∷ 105 ∷ 110 ∷ 112 ∷ 117 ∷ 116 ∷ []
token_type_name tok_error =
    105 ∷ 110 ∷ 118 ∷ 97 ∷ 108 ∷ 105 ∷ 100 ∷ 32 ∷ 116 ∷ 111 ∷ 107 ∷ 101 ∷ 110 ∷ []
token_type_name tok_ident = 105 ∷ 100 ∷ 101 ∷ 110 ∷ 116 ∷ 105 ∷ 102 ∷ 105 ∷ 101 ∷ 114 ∷ []
token_type_name tok_int =
    105 ∷ 110 ∷ 116 ∷ 101 ∷ 103 ∷ 101 ∷ 114 ∷ 32 ∷ 108 ∷ 105 ∷ 116 ∷ 101 ∷ 114 ∷ 97 ∷ 108 ∷ []
token_type_name tok_float =
    102 ∷ 108 ∷ 111 ∷ 97 ∷ 116 ∷ 32 ∷ 108 ∷ 105 ∷ 116 ∷ 101 ∷ 114 ∷ 97 ∷ 108 ∷ []
token_type_name tok_string =
    115 ∷ 116 ∷ 114 ∷ 105 ∷ 110 ∷ 103 ∷ 32 ∷ 108 ∷ 105 ∷ 116 ∷ 101 ∷ 114 ∷ 97 ∷ 108 ∷ []
token_type_name tok_select = 83 ∷ 69 ∷ 76 ∷ 69 ∷ 67 ∷ 84 ∷ []
token_type_name tok_from = 70 ∷ 82 ∷ 79 ∷ 77 ∷ []
token_type_name tok_where = 87 ∷ 72 ∷ 69 ∷ 82 ∷ 69 ∷ []
token_type_name tok_order = 79 ∷ 82 ∷ 68 ∷ 69 ∷ 82 ∷ []
token_type_name tok_by = 66 ∷ 89 ∷ []
token_type_name tok_limit = 76 ∷ 73 ∷ 77 ∷ 73 ∷ 84 ∷ []
token_type_name tok_and = 65 ∷ 78 ∷ 68 ∷ []
token_type_name tok_or = 79 ∷ 82 ∷ []
token_type_name tok_not = 78 ∷ 79 ∷ 84 ∷ []
token_type_name tok_asc = 65 ∷ 83 ∷ 67 ∷ []
token_type_name tok_desc = 68 ∷ 69 ∷ 83 ∷ 67 ∷ []
token_type_name tok_null = 78 ∷ 85 ∷ 76 ∷ 76 ∷ []
token_type_name tok_true = 84 ∷ 82 ∷ 85 ∷ 69 ∷ []
token_type_name tok_false = 70 ∷ 65 ∷ 76 ∷ 83 ∷ 69 ∷ []
token_type_name tok_insert = 73 ∷ 78 ∷ 83 ∷ 69 ∷ 82 ∷ 84 ∷ []
token_type_name tok_into = 73 ∷ 78 ∷ 84 ∷ 79 ∷ []
token_type_name tok_values = 86 ∷ 65 ∷ 76 ∷ 85 ∷ 69 ∷ 83 ∷ []
token_type_name tok_update = 85 ∷ 80 ∷ 68 ∷ 65 ∷ 84 ∷ 69 ∷ []
token_type_name tok_set = 83 ∷ 69 ∷ 84 ∷ []
token_type_name tok_delete = 68 ∷ 69 ∷ 76 ∷ 69 ∷ 84 ∷ 69 ∷ []
token_type_name tok_begin = 66 ∷ 69 ∷ 71 ∷ 73 ∷ 78 ∷ []
token_type_name tok_commit = 67 ∷ 79 ∷ 77 ∷ 77 ∷ 73 ∷ 84 ∷ []
token_type_name tok_rollback = 82 ∷ 79 ∷ 76 ∷ 76 ∷ 66 ∷ 65 ∷ 67 ∷ 75 ∷ []
token_type_name tok_transaction = 84 ∷ 82 ∷ 65 ∷ 78 ∷ 83 ∷ 65 ∷ 67 ∷ 84 ∷ 73 ∷ 79 ∷ 78 ∷ []
token_type_name tok_create = 67 ∷ 82 ∷ 69 ∷ 65 ∷ 84 ∷ 69 ∷ []
token_type_name tok_table = 84 ∷ 65 ∷ 66 ∷ 76 ∷ 69 ∷ []
token_type_name tok_primary = 80 ∷ 82 ∷ 73 ∷ 77 ∷ 65 ∷ 82 ∷ 89 ∷ []
token_type_name tok_key = 75 ∷ 69 ∷ 89 ∷ []
token_type_name tok_references = 82 ∷ 69 ∷ 70 ∷ 69 ∷ 82 ∷ 69 ∷ 78 ∷ 67 ∷ 69 ∷ 83 ∷ []
token_type_name tok_on = 79 ∷ 78 ∷ []
token_type_name tok_cascade = 67 ∷ 65 ∷ 83 ∷ 67 ∷ 65 ∷ 68 ∷ 69 ∷ []
token_type_name tok_restrict = 82 ∷ 69 ∷ 83 ∷ 84 ∷ 82 ∷ 73 ∷ 67 ∷ 84 ∷ []
token_type_name tok_join = 74 ∷ 79 ∷ 73 ∷ 78 ∷ []
token_type_name tok_inner = 73 ∷ 78 ∷ 78 ∷ 69 ∷ 82 ∷ []
token_type_name tok_group = 71 ∷ 82 ∷ 79 ∷ 85 ∷ 80 ∷ []
token_type_name tok_star = 42 ∷ []
token_type_name tok_comma = 44 ∷ []
token_type_name tok_dot = 46 ∷ []
token_type_name tok_question = 63 ∷ []
token_type_name tok_semicolon = 59 ∷ []
token_type_name tok_lparen = 40 ∷ []
token_type_name tok_rparen = 41 ∷ []
token_type_name tok_eq = 61 ∷ []
token_type_name tok_ne = 33 ∷ 61 ∷ []
token_type_name tok_lt = 60 ∷ []
token_type_name tok_le = 60 ∷ 61 ∷ []
token_type_name tok_gt = 62 ∷ []
token_type_name tok_ge = 62 ∷ 61 ∷ []
token_type_name tok_plus = 43 ∷ []
token_type_name tok_minus = 45 ∷ []
token_type_name tok_slash = 47 ∷ []
