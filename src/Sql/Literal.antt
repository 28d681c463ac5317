-- ===== src/Sql/Literal.antt =====
-- src/sql_engine.c: the literals of SQL texts, with the values that a statement binds to its
-- parameters. `strtod` and `atoi` are parameters.
use my_pl.Prelude.{
  ℕ, ◌+◌, ◌-◌, ◌*◌, Bool, true, false, List, [], ◌∷◌, Option, none, some, ltb, ◌==◌, if◌then◌else◌,
  take, get_elem?, length,
}
use my_pl.BTree.Key.{Cell, null, int, bool, float, string}
use my_pl.Lexer.Token.{Text}
use my_pl.Sql.Token.{
  SqlToken, SqlTokenType, tok_number, tok_null, tok_true, tok_false, tok_param, tok_string,
}

-- A value of the language that is bound; `bound_other` is any further type.
pub data Bound : Type 0 where
  bound_int bound_bool bound_float : ℕ → Bound
  bound_string : Option Text → Bound
  bound_other : Bound

pub record Literals : Type 0 where
  -- The 64 bits of the double, and the 32 bits of the `int`, that a text stands for.
  pub strtod : Text → ℕ
  pub atoi : Text → ℕ
  -- `g_sql_binds` with its count.
  pub binds : List Bound

-- The text in a buffer of `size` bytes.
unfoldable pub sql_token_text : SqlToken → ℕ → Text
sql_token_text tok size = take (size - 1) tok.text

-- The number of a parameter, given up once it is greater than the count.
unfoldable pub param_index : ℕ → ℕ → Text → Option ℕ
param_index count index [] = some index
param_index count index (c ∷ s) =
    let index' = index * 10 + (c - b'0') in
    let rest = param_index count index' s in if ltb count index' then none else rest

abbrev bound_cell : Bound → Cell
bound_cell (bound_int v) = int v
bound_cell (bound_bool v) = int v
bound_cell (bound_float u) = float u
bound_cell (bound_string none) = string (some [])
bound_cell (bound_string (some s)) = string (some s)
bound_cell bound_other = null

abbrev bound_at : List Bound → Option ℕ → Option Cell
bound_at binds none = none
bound_at binds (some index) =
    if ltb index 1
    then none
    else elim (get_elem? binds (index - 1)) [ none ↦ none | some v ↦ some (bound_cell v) ]

unfoldable pub sql_param_cell : Literals → SqlToken → Option Cell
unfolding param_index
sql_param_cell lits tok = bound_at lits.binds (param_index (length lits.binds) 0 tok.text)

-- `strchr(s, '.') != NULL`
unfoldable pub has_point : Text → Bool
has_point [] = false
has_point (c ∷ s) = let rest = has_point s in if c == b'.' then true else rest

abbrev number_cell : Literals → Text → Cell
number_cell lits s = if has_point s then float (lits.strtod s) else int (lits.atoi s)

abbrev literal_of : Literals → SqlTokenType → SqlToken → Option Cell
literal_of lits tok_number tok = some (number_cell lits (sql_token_text tok 64))
literal_of lits tok_null tok = some null
literal_of lits tok_true tok = some (bool 1)
literal_of lits tok_false tok = some (bool 0)
literal_of lits tok_param tok = sql_param_cell lits tok
literal_of lits tok_string tok = some (string (some tok.text))
literal_of lits type tok = none

unfoldable pub sql_parse_literal_cell : Literals → SqlToken → Option Cell
unfolding sql_token_text has_point sql_param_cell
sql_parse_literal_cell lits tok = literal_of lits tok.type tok
