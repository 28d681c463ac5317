-- ===== src/Lexer/Scan.antt =====
-- src/lexer.c: the scanner. The source is the bytes before the NUL, and the `current` pointer is
-- the text that is left with its offset; `peek` at the end gives the NUL, 0. Inner `while` loops of
-- `skip_whitespace` are modes of one loop.
mod Consume
mod Columns
pub mod NextToken
use my_pl.Prelude.{
  ℕ, zero, suc, ◌+◌, ◌-◌, Bool, true, false, not, ◌&&◌, ◌||◌, List, [], ◌∷◌, ◌++◌, Option, none,
  some, leb, ◌==◌, if◌then◌else◌, length, take,
}
use my_pl.Prelude.Int.{ℤ, pos, ◌+ℤ◌}
use my_pl.Lexer.Keyword.{codes, identifier_type}
use my_pl.Lexer.Token.{
  Text, Token, TokenType, token_arrow, token_eq, token_ne, token_ge, token_le, token_assign,
  token_lt, token_gt, token_bang, token_question, token_plus, token_minus, token_star, token_slash,
  token_dot, token_lparen, token_rparen, token_lbrace, token_rbrace, token_lbracket, token_rbracket,
  token_comma, token_semicolon, token_colon, token_percent, token_error, token_eof, token_int,
  token_float, token_string, token_sql_query,
}

-- `current`, `line` and `line_start`; pointers are offsets from the start of the source.
pub record Position : Type 0 where
  pub offset : ℕ
  pub line : ℤ
  pub line_start : ℕ

pub record Lexer : Type 0 where
  pub rest : Text
  pub at : Position

abbrev lexer_init_at_line : Text → ℤ → Lexer
lexer_init_at_line source first_line = record {
  rest = source;
  at = record { offset = 0; line = first_line; line_start = 0 };
}

abbrev pub lexer_init : Text → Lexer
lexer_init source = lexer_init_at_line source (pos 1)

abbrev pub peek : Text → ℕ
peek [] = 0
peek (c ∷ s) = c

abbrev pub peek_next : Text → ℕ
peek_next [] = 0
peek_next (c ∷ s) = peek s

unfoldable pub is_alpha : ℕ → Bool
is_alpha c = (leb b'a' c && leb c b'z') || (leb b'A' c && leb c b'Z') || c == b'_'

unfoldable pub is_digit : ℕ → Bool
is_digit c = leb b'0' c && leb c b'9'

-- `advance`, and the bookkeeping of a newline at the current byte that comes ahead of it.
abbrev pub advance : Position → Position
advance at = record at { offset = at.offset + 1 }

abbrev pub at_newline : ℕ → Position → Position
at_newline c at =
    if c == b'\n' then record at { line = at.line +ℤ pos 1; line_start = at.offset + 1 } else at

-- The loops that only advance: over the bytes that satisfy a test.
unfoldable pub advance_while : (ℕ → Bool) → Text → Position → Lexer
advance_while test [] at = record { rest = []; at = at }
advance_while test (c ∷ s) at =
    let next = advance_while test s (advance at) in
    if test c then next else record { rest = c ∷ s; at = at }

-- The loops of `skip_whitespace`. `opening` and `closing` stand between the two bytes of `/*` and of
-- `*/`.
pub data Skip : Type 0 where
  between line_comment opening block_comment closing : Skip

-- One round at the byte `c`, with `s` behind it; `none` is the `return`.
unfoldable pub skip_step : Skip → ℕ → Text → Position → Option (Skip × Position)
skip_step between c s at =
    if c == b' ' || c == b'\r' || c == b'\t'
    then some (between, advance at)
    else if c == b'\n'
    then some (between, advance (at_newline c at))
    else if c == b'/' && peek s == b'/'
    then some (line_comment, advance at)
    else if c == b'/' && peek s == b'*'
    then some (opening, advance at)
    else none
skip_step line_comment c s at =
    if c == b'\n'
    then some (between, advance (at_newline c at))
    else some (line_comment, advance at)
skip_step opening c s at = some (block_comment, advance at)
skip_step block_comment c s at =
    if c == b'*' && peek s == b'/'
    then some (closing, advance at)
    else some (block_comment, advance (at_newline c at))
skip_step closing c s at = some (between, advance at)

unfoldable pub skip : Skip → Text → Position → Lexer
unfolding skip_step
skip m [] at = record { rest = []; at = at }
skip m (c ∷ s) at = elim (skip_step m c s at) [
  | none ↦ record { rest = c ∷ s; at = at }
  | some (m', at') ↦ skip m' s at'
]

unfoldable pub skip_whitespace : Lexer → Lexer
unfolding skip
skip_whitespace l = skip between l.rest l.at

-- `start`, `start_line` and `start_column` of the token that is being scanned.
pub record Start : Type 0 where
  pub text : Text
  pub offset : ℕ
  pub line : ℤ
  pub column : ℕ

abbrev pub start_of : Lexer → Start
start_of l = record {
  text = l.rest;
  offset = l.at.offset;
  line = l.at.line;
  column = l.at.offset - l.at.line_start + 1;
}

abbrev pub make_token : Start → Lexer → TokenType → Token × Lexer
make_token start l type = (
  record {
    type = type;
    start = start.text;
    length = l.at.offset - start.offset;
    line = start.line;
    column = start.column;
  },
  l,
)

abbrev error_token : Start → Lexer → Text → Token × Lexer
error_token start l message = (
  record {
    type = token_error;
    start = message;
    length = 0;
    line = start.line;
    column = start.column;
  },
  l,
)

-- The dot of a number and the digits behind it.
unfoldable pub fraction : Start → Text → Position → Token × Lexer
unfolding advance_while is_digit
fraction start [] at = make_token start (record { rest = []; at = at }) token_float
fraction start (c ∷ s) at = make_token start (advance_while is_digit s (advance at)) token_float

unfoldable pub number : Start → Lexer → Token × Lexer
unfolding advance_while is_digit fraction
number start l =
    let whole = advance_while is_digit l.rest l.at in
    if peek whole.rest == b'.' && is_digit (peek_next whole.rest)
    then fraction start whole.rest whole.at
    else make_token start whole token_int

-- The loop of `string` up to the closing quote or the end.
unfoldable pub string_loop : Text → Position → Lexer
string_loop [] at = record { rest = []; at = at }
string_loop (c ∷ []) at =
    if c == b'"'
    then record { rest = c ∷ []; at = at }
    else record { rest = []; at = advance (at_newline c at) }
string_loop (c ∷ d ∷ s) at =
    let escaped = string_loop s (advance (at_newline d (advance (at_newline c at)))) in
    let plain = string_loop (d ∷ s) (advance (at_newline c at)) in
    if c == b'"'
    then record { rest = c ∷ d ∷ s; at = at }
    else if c == b'\\'
    then escaped
    else plain

-- The closing quote, at which the loop has stopped.
pub close_string : Start → Text → Position → Token × Lexer
close_string start [] at =
    error_token start (record { rest = []; at = at }) (codes "unterminated string")
close_string start (c ∷ s) at = make_token start (record { rest = s; at = advance at }) token_string

unfoldable pub string : Start → Lexer → Token × Lexer
unfolding string_loop close_string
string start l = let body = string_loop l.rest l.at in close_string start body.rest body.at

unfoldable pub sql_loop : Text → Position → Lexer
sql_loop [] at = record { rest = []; at = at }
sql_loop (c ∷ s) at =
    let next = sql_loop s (advance (at_newline c at)) in
    if c == b'{' || c == b';' then record { rest = c ∷ s; at = at } else next

unfoldable pub sql_query : Start → Lexer → Token × Lexer
unfolding sql_loop
sql_query start l = make_token start (sql_loop l.rest l.at) token_sql_query

abbrev pub is_sql_query : TokenType → Bool
is_sql_query token_sql_query = true
is_sql_query _ = false

unfoldable pub identifier : Start → Lexer → Token × Lexer
unfolding advance_while is_alpha is_digit identifier_type sql_query
identifier start l =
    let word = advance_while (λ c. is_alpha c || is_digit c) l.rest l.at in
    let type = identifier_type (take (word.at.offset - start.offset) start.text) in
    if is_sql_query type then sql_query start word else make_token start word type

-- The type of a byte that is a token by itself.
unfoldable pub symbol : ℕ → Option TokenType
symbol c =
    if c == b'('
    then some token_lparen
    else if c == b')'
    then some token_rparen
    else if c == b'{'
    then some token_lbrace
    else if c == b'}'
    then some token_rbrace
    else if c == b'['
    then some token_lbracket
    else if c == b']'
    then some token_rbracket
    else if c == b'+'
    then some token_plus
    else if c == b'*'
    then some token_star
    else if c == b'/'
    then some token_slash
    else if c == b','
    then some token_comma
    else if c == b';'
    then some token_semicolon
    else if c == b':'
    then some token_colon
    else if c == b'?'
    then some token_question
    else if c == b'.'
    then some token_dot
    else if c == b'%'
    then some token_percent
    else none

-- Of a byte that may begin a token of two: the second byte, and the types with and without it.
unfoldable pub pair : ℕ → Option (ℕ × TokenType × TokenType)
pair c =
    if c == b'-'
    then some (b'>', token_arrow, token_minus)
    else if c == b'<'
    then some (b'=', token_le, token_lt)
    else if c == b'>'
    then some (b'=', token_ge, token_gt)
    else if c == b'='
    then some (b'=', token_eq, token_assign)
    else if c == b'!'
    then some (b'=', token_ne, token_bang)
    else none

-- `if (match(lexer, expected)) return make_token(…); return make_token(…)`
unfoldable pub match_pair : Start → ℕ × TokenType × TokenType → Text → Position → Token × Lexer
match_pair start (expected, long, short) [] at =
    make_token start (record { rest = []; at = at }) short
match_pair start (expected, long, short) (c ∷ s) at =
    if c == expected
    then make_token start (record { rest = s; at = advance at }) long
    else make_token start (record { rest = c ∷ s; at = at }) short

-- The switch of `lexer_next_token` on the byte `c`, behind which the lexer stands.
unfoldable pub dispatch : Start → ℕ → Lexer → Token × Lexer
unfolding symbol pair match_pair identifier number string is_alpha is_digit
dispatch start c l = elim (symbol c) [
  | some type ↦ make_token start l type
  | none ↦ elim (pair c) [
    | some two ↦ match_pair start two l.rest l.at
    | none ↦
        if is_alpha c
        then identifier start l
        else if is_digit c
        then number start l
        else if c == b'"'
        then string start l
        else error_token start l (codes "unexpected character")
  ]
]

unfoldable pub next_from : Start → Text → Position → Token × Lexer
unfolding dispatch
next_from start [] at = make_token start (record { rest = []; at = at }) token_eof
next_from start (c ∷ s) at = dispatch start c (record { rest = s; at = advance at })

unfoldable pub lexer_next_token : Lexer → Token × Lexer
unfolding skip_whitespace next_from
lexer_next_token l = let here = skip_whitespace l in next_from (start_of here) here.rest here.at
