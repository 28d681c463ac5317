-- ===== src/Sql/Token.antt =====
-- src/sql_engine.c: the scanner of SQL statements. The query is its bytes before the NUL, and the
-- `current` pointer is the text that is left. The character classes are those of the C locale.
use my_pl.Prelude.{
  ℕ, ◌+◌, Bool, true, false, not, ◌&&◌, ◌||◌, List, [], ◌∷◌, leb, ◌==◌, if◌then◌else◌, take, drop,
}
use my_pl.Lexer.Token.{Text}
use my_pl.Lexer.Keyword.{codes}

pub data SqlTokenType : Type 0 where
  tok_eof tok_ident tok_number tok_string tok_star tok_comma tok_lparen tok_rparen : SqlTokenType
  tok_dot tok_select tok_from tok_where tok_order tok_group tok_by tok_asc tok_desc : SqlTokenType
  tok_limit tok_join tok_left tok_outer tok_on tok_count tok_sum tok_avg tok_min : SqlTokenType
  tok_max tok_create tok_table tok_insert tok_into tok_values tok_update tok_set : SqlTokenType
  tok_delete tok_int tok_float tok_bool_kw tok_date_kw tok_timestamp_kw tok_true : SqlTokenType
  tok_false tok_string_kw tok_eq tok_lt tok_gt tok_le tok_ge tok_ne tok_null tok_is : SqlTokenType
  tok_not tok_and tok_or tok_in tok_like tok_drop tok_alter tok_add tok_if : SqlTokenType
  tok_exists tok_column tok_index tok_primary tok_key tok_unique tok_default : SqlTokenType
  tok_view tok_as tok_param : SqlTokenType

-- `text` and `length`: the text of the token alone.
pub record SqlToken : Type 0 where
  pub type : SqlTokenType
  pub text : Text

abbrev keywords : List (Text × SqlTokenType)
keywords =
    (codes "SELECT", tok_select)
    ∷ (codes "FROM", tok_from)
    ∷ (codes "WHERE", tok_where)
    ∷ (codes "ORDER", tok_order)
    ∷ (codes "GROUP", tok_group)
    ∷ (codes "BY", tok_by)
    ∷ (codes "ASC", tok_asc)
    ∷ (codes "DESC", tok_desc)
    ∷ (codes "LIMIT", tok_limit)
    ∷ (codes "JOIN", tok_join)
    ∷ (codes "LEFT", tok_left)
    ∷ (codes "OUTER", tok_outer)
    ∷ (codes "ON", tok_on)
    ∷ (codes "COUNT", tok_count)
    ∷ (codes "SUM", tok_sum)
    ∷ (codes "AVG", tok_avg)
    ∷ (codes "MIN", tok_min)
    ∷ (codes "MAX", tok_max)
    ∷ (codes "CREATE", tok_create)
    ∷ (codes "TABLE", tok_table)
    ∷ (codes "INSERT", tok_insert)
    ∷ (codes "INTO", tok_into)
    ∷ (codes "VALUES", tok_values)
    ∷ (codes "UPDATE", tok_update)
    ∷ (codes "SET", tok_set)
    ∷ (codes "DELETE", tok_delete)
    ∷ (codes "INT", tok_int)
    ∷ (codes "FLOAT", tok_float)
    ∷ (codes "STRING", tok_string_kw)
    ∷ (codes "BOOL", tok_bool_kw)
    ∷ (codes "BOOLEAN", tok_bool_kw)
    ∷ (codes "DATE", tok_date_kw)
    ∷ (codes "TIMESTAMP", tok_timestamp_kw)
    ∷ (codes "TRUE", tok_true)
    ∷ (codes "FALSE", tok_false)
    ∷ (codes "NULL", tok_null)
    ∷ (codes "IS", tok_is)
    ∷ (codes "NOT", tok_not)
    ∷ (codes "AND", tok_and)
    ∷ (codes "OR", tok_or)
    ∷ (codes "IN", tok_in)
    ∷ (codes "LIKE", tok_like)
    ∷ (codes "DROP", tok_drop)
    ∷ (codes "ALTER", tok_alter)
    ∷ (codes "ADD", tok_add)
    ∷ (codes "IF", tok_if)
    ∷ (codes "EXISTS", tok_exists)
    ∷ (codes "COLUMN", tok_column)
    ∷ (codes "INDEX", tok_index)
    ∷ (codes "PRIMARY", tok_primary)
    ∷ (codes "KEY", tok_key)
    ∷ (codes "UNIQUE", tok_unique)
    ∷ (codes "DEFAULT", tok_default)
    ∷ (codes "VIEW", tok_view)
    ∷ (codes "AS", tok_as)
    ∷ []

-- `isspace`, `isalpha` with the underscore, and `isdigit`.
unfoldable isspace : ℕ → Bool
isspace c = c == b' ' || (leb 9 c && leb c 13)

unfoldable pub sql_is_alpha_or : ℕ → Bool
sql_is_alpha_or c = (leb b'a' c && leb c b'z') || (leb b'A' c && leb c b'Z') || c == b'_'

unfoldable pub isdigit : ℕ → Bool
isdigit c = leb b'0' c && leb c b'9'

-- `tolower`, and `strncasecmp` of two texts of one length.
unfoldable pub tolower : ℕ → ℕ
tolower c = if leb b'A' c && leb c b'Z' then c + 32 else c

unfoldable pub equal_nocase : Text → Text → Bool
unfolding tolower
equal_nocase [] [] = true
equal_nocase [] (d ∷ t) = false
equal_nocase (c ∷ s) [] = false
equal_nocase (c ∷ s) (d ∷ t) = tolower c == tolower d && equal_nocase s t

unfoldable pub find_keyword : Text → List (Text × SqlTokenType) → SqlTokenType
unfolding equal_nocase
find_keyword word [] = tok_ident
find_keyword word ((kw, type) ∷ rest) =
    if equal_nocase word kw then type else find_keyword word rest

unfoldable pub sql_check_keyword : Text → SqlTokenType
unfolding find_keyword
sql_check_keyword word = find_keyword word keywords

unfoldable pub sql_skip_whitespace : Text → Text
unfolding isspace
sql_skip_whitespace [] = []
sql_skip_whitespace (c ∷ s) = if isspace c then sql_skip_whitespace s else c ∷ s

-- The loops that advance over the bytes of a test: the bytes, and the text that is left.
unfoldable pub span : (ℕ → Bool) → Text → Text × Text
span test [] = ([], [])
span test (c ∷ s) =
    let (word, rest) = span test s in if test c then (c ∷ word, rest) else ([], c ∷ s)

abbrev pub token : SqlTokenType → Text → SqlToken
token type text = record { type = type; text = text }

-- The closing quote is passed if it is there.
abbrev skip_quote : Text → Text
skip_quote [] = []
skip_quote (c ∷ s) = s

-- The token of one or two bytes that starts with `c`.
abbrev followed_by : ℕ → Text → Bool
followed_by d [] = false
followed_by d (c ∷ s) = c == d

unfoldable pub sql_symbol : ℕ → Text → SqlToken × Text
sql_symbol c s =
    if c == b'*'
    then (token tok_star (c ∷ []), s)
    else if c == b','
    then (token tok_comma (c ∷ []), s)
    else if c == b'('
    then (token tok_lparen (c ∷ []), s)
    else if c == b')'
    then (token tok_rparen (c ∷ []), s)
    else if c == b'.'
    then (token tok_dot (c ∷ []), s)
    else if c == b'='
    then (token tok_eq (c ∷ []), s)
    else if c == b'<' && followed_by b'=' s
    then (token tok_le (c ∷ take 1 s), drop 1 s)
    else if c == b'<' && followed_by b'>' s
    then (token tok_ne (c ∷ take 1 s), drop 1 s)
    else if c == b'<'
    then (token tok_lt (c ∷ []), s)
    else if c == b'>' && followed_by b'=' s
    then (token tok_ge (c ∷ take 1 s), drop 1 s)
    else if c == b'>'
    then (token tok_gt (c ∷ []), s)
    else (token tok_eof (c ∷ []), s)

abbrev starts_digit : Text → Bool
starts_digit [] = false
starts_digit (c ∷ s) = isdigit c

unfoldable pub token_at : Text → SqlToken × Text
unfolding sql_symbol span sql_check_keyword isdigit sql_is_alpha_or
token_at [] = (token tok_eof [], [])
token_at (c ∷ s) =
    let (word, after_word) = span (λ d. sql_is_alpha_or d || isdigit d) (c ∷ s) in
    let (digits, after_digits) = span (λ d. isdigit d || d == b'.') (c ∷ s) in
    let (quoted, after_quoted) = span (λ d. not (d == c)) s in
    let (index, after_index) = span isdigit s in
    if sql_is_alpha_or c
    then (token (sql_check_keyword word) word, after_word)
    else if isdigit c
    then (token tok_number digits, after_digits)
    else if c == b'\'' || c == b'"'
    then (token tok_string quoted, skip_quote after_quoted)
    else if c == b'?' && starts_digit s
    then (token tok_param index, after_index)
    else sql_symbol c s

-- A token that was pushed back is the caller's to keep: the parsers of conditions push none back.
unfoldable pub sql_next_token : Text → SqlToken × Text
unfolding sql_skip_whitespace token_at
sql_next_token s = token_at (sql_skip_whitespace s)
