-- ===== src/Sql/Parse.antt =====
-- src/sql_engine.c: the parser of WHERE conditions. It reads the tokens that sql_next_token gives,
-- the one under `tok` first; behind the last token stands TOK_EOF again and again. The calls of the
-- parser are bounded by fuel, and `no_fuel` stands for an expression that needs more.
pub mod Grammar
pub mod Column
pub mod Steps
pub mod Complete
use my_pl.Prelude.{
  ℕ, zero, suc, Bool, true, false, List, [], ◌∷◌, Option, none, some, length, if◌then◌else◌,
}
use my_pl.BTree.Key.{Cell, string}
use my_pl.Lexer.Token.{Text}
use my_pl.Sql.Token.{
  SqlToken, SqlTokenType, tok_eof, tok_ident, tok_dot, tok_lparen, tok_rparen, tok_comma, tok_is,
  tok_not, tok_null, tok_in, tok_like, tok_string, tok_param, tok_eq, tok_lt, tok_gt, tok_le,
  tok_ge, tok_ne, tok_and, tok_or, sql_next_token, token,
}
use my_pl.Sql.Literal.{Literals, sql_token_text, sql_parse_literal_cell}
use my_pl.Sql.Where.{
  CmpOp, equal, less, greater, less_equal, greater_equal, different, WhereNode, where_cmp,
  where_is_null, where_is_not_null, where_in, where_like, where_and, where_or, where_not,
}

-- The tokens of a text up to its end.
unfoldable pub sql_tokens : ℕ → Text → List SqlToken
unfolding sql_next_token
sql_tokens zero s = []
sql_tokens (suc fuel) s =
    let (tok, rest) = sql_next_token s in let later = sql_tokens fuel rest in at_end rest tok later
  where
    at_end : Text → SqlToken → List SqlToken → List SqlToken
    at_end [] tok later = tok ∷ []
    at_end (c ∷ cs) tok later = tok ∷ later

-- NULL, or the tree with the tokens from `tok` on.
pub data Parsed : Type 0 where
  no_fuel failed : Parsed
  done : WhereNode → List SqlToken → Parsed

abbrev pub then_parsed : Parsed → (WhereNode → List SqlToken → Parsed) → Parsed
then_parsed no_fuel next = no_fuel
then_parsed failed next = failed
then_parsed (done w ts) next = next w ts

abbrev pub type_of : List SqlToken → SqlTokenType
type_of [] = tok_eof
type_of (tok ∷ ts) = tok.type

abbrev pub behind : List SqlToken → List SqlToken
behind [] = []
behind (tok ∷ ts) = ts

abbrev name_size : ℕ
name_size = 256

-- The column, and the prefix if there is a dot.
abbrev pub Column : Type 0
Column = Text × Text × List SqlToken

abbrev dotted : Text → List SqlToken → SqlTokenType → Option Column
dotted prefix [] tok_ident = none
dotted prefix (tok ∷ ts) tok_ident = some (prefix, sql_token_text tok name_size, ts)
dotted prefix ts type = none

abbrev pub column_after : Text → List SqlToken → SqlTokenType → Option Column
column_after name ts tok_dot = dotted name (behind ts) (type_of (behind ts))
column_after name ts type = some ([], name, ts)

abbrev pub is_rparen : SqlTokenType → Bool
is_rparen tok_rparen = true
is_rparen type = false

abbrev is_comma : SqlTokenType → Bool
is_comma tok_comma = true
is_comma type = false

-- The literals of an IN list, behind its parenthesis: at most `room` more.
abbrev pub Items : Type 0
Items = Option (List Cell × List SqlToken)

abbrev add_item : Cell → Items → Items
add_item c none = none
add_item c (some (cells, ts)) = some (c ∷ cells, ts)

unfoldable pub in_items : Literals → ℕ → List SqlToken → Items
unfolding sql_parse_literal_cell
in_items lits room [] = none
in_items lits zero (tok ∷ ts) = if is_rparen tok.type then some ([], tok ∷ ts) else none
in_items lits (suc room) (tok ∷ ts) =
    let over_comma = in_items lits room (behind ts) in
    let at_end = in_items lits room ts in
    if is_rparen tok.type then some ([], tok ∷ ts) else elim (sql_parse_literal_cell lits tok) [
      | none ↦ none
      | some c ↦
          if is_comma (type_of ts)
          then add_item c over_comma
          else if is_rparen (type_of ts)
          then add_item c at_end
          else none
    ]

abbrev pub max_in_list : ℕ
max_in_list = 16

abbrev pub in_node : Text → Text → Bool → Items → Parsed
in_node prefix column negate none = failed
in_node prefix column negate (some ([], ts)) = failed
in_node prefix column negate (some (c ∷ cells, ts)) =
    done (where_in prefix column negate (c ∷ cells)) (behind ts)

abbrev in_list : Literals → Text → Text → Bool → List SqlToken → SqlTokenType → Parsed
in_list lits prefix column negate ts tok_lparen =
    in_node prefix column negate (in_items lits max_in_list (behind ts))
in_list lits prefix column negate ts type = failed

abbrev like_node : Text → Text → Bool → List SqlToken → Option Cell → Parsed
like_node prefix column negate ts (some (string (some pattern))) =
    done (where_like prefix column negate pattern) ts
like_node prefix column negate ts cell = failed

abbrev like_literal : Literals → Text → Text → Bool → List SqlToken → SqlTokenType → Parsed
like_literal lits prefix column negate (tok ∷ ts) tok_string =
    like_node prefix column negate ts (sql_parse_literal_cell lits tok)
like_literal lits prefix column negate (tok ∷ ts) tok_param =
    like_node prefix column negate ts (sql_parse_literal_cell lits tok)
like_literal lits prefix column negate ts type = failed

abbrev cmp_node : Text → Text → CmpOp → List SqlToken → Option Cell → Parsed
cmp_node prefix column op ts none = failed
cmp_node prefix column op ts (some c) = done (where_cmp prefix column op c) ts

abbrev cmp_literal : Literals → Text → Text → CmpOp → List SqlToken → Parsed
cmp_literal lits prefix column op [] = failed
cmp_literal lits prefix column op (tok ∷ ts) =
    cmp_node prefix column op ts (sql_parse_literal_cell lits tok)

-- IN and LIKE behind a column and perhaps NOT; a comparison only without it.
unfoldable pub test_of : Literals → Text → Text → Bool → List SqlToken → SqlTokenType → Parsed
unfolding in_items
test_of lits prefix column negate ts tok_in =
    in_list lits prefix column negate (behind ts) (type_of (behind ts))
test_of lits prefix column negate ts tok_like =
    like_literal lits prefix column negate (behind ts) (type_of (behind ts))
test_of lits prefix column false ts tok_eq = cmp_literal lits prefix column equal (behind ts)
test_of lits prefix column false ts tok_lt = cmp_literal lits prefix column less (behind ts)
test_of lits prefix column false ts tok_gt = cmp_literal lits prefix column greater (behind ts)
test_of lits prefix column false ts tok_le = cmp_literal lits prefix column less_equal (behind ts)
test_of lits prefix column false ts tok_ge =
    cmp_literal lits prefix column greater_equal (behind ts)
test_of lits prefix column false ts tok_ne = cmp_literal lits prefix column different (behind ts)
test_of lits prefix column negate ts type = failed

abbrev null_test : Text → Text → List SqlToken → SqlTokenType → Parsed
null_test prefix column ts tok_null = done (where_is_null prefix column) (behind ts)
null_test prefix column ts type = failed

abbrev not_null_test : Text → Text → List SqlToken → SqlTokenType → Parsed
not_null_test prefix column ts tok_null = done (where_is_not_null prefix column) (behind ts)
not_null_test prefix column ts type = failed

-- IS, behind which NOT may stand.
abbrev is_test : Text → Text → List SqlToken → SqlTokenType → Parsed
is_test prefix column ts tok_not = not_null_test prefix column (behind ts) (type_of (behind ts))
is_test prefix column ts type = null_test prefix column ts type

unfoldable pub after_column : Literals → Text → Text → List SqlToken → SqlTokenType → Parsed
unfolding test_of
after_column lits prefix column ts tok_is = is_test prefix column (behind ts) (type_of (behind ts))
after_column lits prefix column ts tok_not =
    test_of lits prefix column true (behind ts) (type_of (behind ts))
after_column lits prefix column ts type = test_of lits prefix column false ts type

abbrev tested : Literals → Option Column → Parsed
tested lits none = failed
tested lits (some (prefix, column, ts)) = after_column lits prefix column ts (type_of ts)

-- A comparison, from its column on.
unfoldable pub comparison : Literals → List SqlToken → Parsed
unfolding after_column sql_token_text
comparison lits [] = failed
comparison lits (tok ∷ ts) =
    tested lits (column_after (sql_token_text tok name_size) ts (type_of ts))

abbrev closed : WhereNode → List SqlToken → SqlTokenType → Parsed
closed w ts tok_rparen = done w (behind ts)
closed w ts type = failed

abbrev pub is_and : SqlTokenType → Bool
is_and tok_and = true
is_and type = false

abbrev pub is_or : SqlTokenType → Bool
is_or tok_or = true
is_or type = false

-- What a primary condition starts with.
pub data Start : Type 0 where
  at_paren at_column at_other : Start

abbrev pub start_of : SqlTokenType → Start
start_of tok_lparen = at_paren
start_of tok_ident = at_column
start_of type = at_other

abbrev pub is_not : SqlTokenType → Bool
is_not tok_not = true
is_not type = false

unfoldable mutual
  unfolding comparison

  pub where_parse_primary : Literals → ℕ → List SqlToken → Parsed
  where_parse_primary lits zero ts = no_fuel
  where_parse_primary lits (suc fuel) ts = elim (start_of (type_of ts)) [
    | at_paren ↦
        then_parsed (where_parse_or lits fuel (behind ts)) (λ w rest. closed w rest (type_of rest))
    | at_column ↦ comparison lits ts
    | at_other ↦ failed
  ]

  pub where_parse_not : Literals → ℕ → List SqlToken → Parsed
  where_parse_not lits zero ts = no_fuel
  where_parse_not lits (suc fuel) ts = elim (is_not (type_of ts)) [
    | true ↦ then_parsed (where_parse_not lits fuel (behind ts)) (λ w rest. done (where_not w) rest)
    | false ↦ where_parse_primary lits fuel ts
  ]

  pub where_parse_and : Literals → ℕ → List SqlToken → Parsed
  where_parse_and lits zero ts = no_fuel
  where_parse_and lits (suc fuel) ts =
      then_parsed (where_parse_not lits fuel ts) (λ w rest. and_loop lits fuel w rest)

  pub and_loop : Literals → ℕ → WhereNode → List SqlToken → Parsed
  and_loop lits zero w ts = if is_and (type_of ts) then no_fuel else done w ts
  and_loop lits (suc fuel) w ts = elim (is_and (type_of ts)) [
    | true ↦
        then_parsed (where_parse_not lits fuel (behind ts))
          (λ r rest. and_loop lits fuel (where_and w r) rest)
    | false ↦ done w ts
  ]

  pub where_parse_or : Literals → ℕ → List SqlToken → Parsed
  where_parse_or lits zero ts = no_fuel
  where_parse_or lits (suc fuel) ts =
      then_parsed (where_parse_and lits fuel ts) (λ w rest. or_loop lits fuel w rest)

  pub or_loop : Literals → ℕ → WhereNode → List SqlToken → Parsed
  or_loop lits zero w ts = if is_or (type_of ts) then no_fuel else done w ts
  or_loop lits (suc fuel) w ts = elim (is_or (type_of ts)) [
    | true ↦
        then_parsed (where_parse_and lits fuel (behind ts))
          (λ r rest. or_loop lits fuel (where_or w r) rest)
    | false ↦ done w ts
  ]
