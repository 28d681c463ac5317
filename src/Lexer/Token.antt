-- ===== src/Lexer/Token.antt =====
-- include/lexer.h: the token types, and a token as the lexer returns it.
use my_pl.Prelude.{ℕ, List}
use my_pl.Prelude.Int.{ℤ}

pub data TokenType : Type 0 where
  token_proc token_struct token_for token_while token_do token_if token_else : TokenType
  token_return token_break token_continue token_try token_catch token_case token_when : TokenType
  token_block token_func token_in token_out token_print token_import token_cursor : TokenType
  token_open token_fetch token_close token_is token_package token_body token_end : TokenType
  token_exception token_raise token_forall token_sqlcode token_sqlerrm token_trigger : TokenType
  token_create token_drop token_table token_insert token_into token_values : TokenType
  token_update token_set token_delete token_from token_where token_begin token_commit : TokenType
  token_rollback token_int_type token_float_type token_string_type token_bool_type : TokenType
  token_any_type token_date_type token_timestamp_type token_array_type token_map_type : TokenType
  token_subtype token_rowtype token_type token_ident token_int token_float : TokenType
  token_string token_sql_query token_true token_false token_null token_arrow token_eq : TokenType
  token_ne token_ge token_le token_assign token_lt token_gt token_bang token_question : TokenType
  token_plus token_minus token_star token_slash token_dot token_lparen token_rparen : TokenType
  token_lbrace token_rbrace token_lbracket token_rbracket token_comma token_semicolon : TokenType
  token_colon token_percent token_error token_eof : TokenType

abbrev pub Text : Type 0
Text = List ℕ

-- `start` is the text from the pointer on; of an error it is the message. A line number may be
-- negative (`lexer_init_at_line`), and is taken to fit its `int`.
pub record Token : Type 0 where
  pub type : TokenType
  pub start : Text
  pub length : ℕ
  pub line : ℤ
  pub column : ℕ
