-- ===== src/Lexer/Keyword.antt =====
-- src/lexer.c, `identifier_type`: the switch on the first letter of a word, and behind it the
-- keywords that start with the letter, in the order of the code. Words are compared as the code
-- does, by length and `memcmp`.
use Prim.Native.Char.{code}
use Prim.Native.String.{String}
use my_pl.Prelude.{
  ℕ, Bool, true, false, ◌&&◌, List, [], ◌∷◌, Option, none, some, ◌==◌, if◌then◌else◌,
}
use my_pl.Lexer.Token.{
  Text, TokenType, token_ident, token_any_type, token_array_type, token_begin, token_block,
  token_body, token_bool_type, token_break, token_case, token_catch, token_close, token_commit,
  token_continue, token_create, token_cursor, token_date_type, token_delete, token_do, token_drop,
  token_else, token_end, token_exception, token_false, token_fetch, token_float_type, token_for,
  token_forall, token_from, token_func, token_if, token_import, token_in, token_insert,
  token_int_type, token_into, token_is, token_map_type, token_null, token_open, token_out,
  token_package, token_print, token_proc, token_raise, token_return, token_rollback, token_rowtype,
  token_set, token_sql_query, token_sqlcode, token_sqlerrm, token_string_type, token_struct,
  token_subtype, token_table, token_timestamp_type, token_trigger, token_true, token_try,
  token_type, token_update, token_values, token_when, token_where, token_while,
}

-- The bytes of an ASCII text.
abbrev pub codes : String → Text
codes String.[] = []
codes (String.◌∷◌ c s) = code c ∷ codes s

unfoldable pub same_text : Text → Text → Bool
same_text [] [] = true
same_text [] (b ∷ t) = false
same_text (a ∷ s) [] = false
same_text (a ∷ s) (b ∷ t) = a == b && same_text s t

abbrev pub switch : List (ℕ × List (Text × TokenType))
switch =
    (b'a', (codes "array", token_array_type) ∷ (codes "any", token_any_type) ∷ [])
    ∷ (
      b'b',
      (codes "block", token_block)
          ∷ (codes "bool", token_bool_type)
          ∷ (codes "begin", token_begin)
          ∷ (codes "break", token_break)
          ∷ (codes "body", token_body)
          ∷ [],
    )
    ∷ (
      b'c',
      (codes "case", token_case)
          ∷ (codes "catch", token_catch)
          ∷ (codes "commit", token_commit)
          ∷ (codes "create", token_create)
          ∷ (codes "continue", token_continue)
          ∷ (codes "close", token_close)
          ∷ (codes "cursor", token_cursor)
          ∷ [],
    )
    ∷ (
      b'd',
      (codes "date", token_date_type)
          ∷ (codes "do", token_do)
          ∷ (codes "delete", token_delete)
          ∷ (codes "drop", token_drop)
          ∷ [],
    )
    ∷ (
      b'e',
      (codes "else", token_else)
          ∷ (codes "end", token_end)
          ∷ (codes "exception", token_exception)
          ∷ [],
    )
    ∷ (
      b'f',
      (codes "func", token_func)
          ∷ (codes "for", token_for)
          ∷ (codes "forall", token_forall)
          ∷ (codes "from", token_from)
          ∷ (codes "float", token_float_type)
          ∷ (codes "false", token_false)
          ∷ (codes "fetch", token_fetch)
          ∷ [],
    )
    ∷ (
      b'i',
      (codes "if", token_if)
          ∷ (codes "insert", token_insert)
          ∷ (codes "into", token_into)
          ∷ (codes "int", token_int_type)
          ∷ (codes "in", token_in)
          ∷ (codes "import", token_import)
          ∷ (codes "is", token_is)
          ∷ [],
    )
    ∷ (b'm', (codes "map", token_map_type) ∷ [])
    ∷ (b'n', (codes "null", token_null) ∷ [])
    ∷ (b'o', (codes "out", token_out) ∷ (codes "open", token_open) ∷ [])
    ∷ (
      b'p',
      (codes "proc", token_proc)
          ∷ (codes "print", token_print)
          ∷ (codes "package", token_package)
          ∷ [],
    )
    ∷ (
      b'r',
      (codes "rollback", token_rollback)
          ∷ (codes "return", token_return)
          ∷ (codes "raise", token_raise)
          ∷ (codes "rowtype", token_rowtype)
          ∷ [],
    )
    ∷ (b'S', (codes "SELECT", token_sql_query) ∷ [])
    ∷ (
      b's',
      (codes "struct", token_struct)
          ∷ (codes "select", token_sql_query)
          ∷ (codes "set", token_set)
          ∷ (codes "string", token_string_type)
          ∷ (codes "subtype", token_subtype)
          ∷ (codes "sqlcode", token_sqlcode)
          ∷ (codes "sqlerrm", token_sqlerrm)
          ∷ [],
    )
    ∷ (
      b't',
      (codes "table", token_table)
          ∷ (codes "trigger", token_trigger)
          ∷ (codes "type", token_type)
          ∷ (codes "try", token_try)
          ∷ (codes "true", token_true)
          ∷ (codes "timestamp", token_timestamp_type)
          ∷ [],
    )
    ∷ (b'u', (codes "update", token_update) ∷ [])
    ∷ (b'v', (codes "values", token_values) ∷ [])
    ∷ (
      b'w',
      (codes "when", token_when) ∷ (codes "while", token_while) ∷ (codes "where", token_where) ∷ [],
    )
    ∷ []

unfoldable pub lookup : Text → List (Text × TokenType) → Option TokenType
unfolding same_text
lookup word [] = none
lookup word ((key, type) ∷ table) = if same_text word key then some type else lookup word table

-- The `case` of a letter; a letter without one falls through to the end of the switch.
unfoldable pub case_of : ℕ → List (ℕ × List (Text × TokenType)) → List (Text × TokenType)
case_of c [] = []
case_of c ((letter, table) ∷ cases) = if c == letter then table else case_of c cases

abbrev pub or_ident : Option TokenType → TokenType
or_ident none = token_ident
or_ident (some type) = type

abbrev pub letter_of : Text → ℕ
letter_of [] = 0
letter_of (c ∷ s) = c

unfoldable pub identifier_type : Text → TokenType
unfolding lookup case_of
identifier_type word = or_ident (lookup word (case_of (letter_of word) switch))
