-- ===== src/Sql/Parse/Grammar.antt =====
-- src/sql_engine.c: the grammar of WHERE conditions, as the comment above the parser gives it, with
-- the tree that each text stands for. NOT binds closer than AND, and AND closer than OR; both
-- operators group to the left. Two limits of the code, which the comment does not name, are added:
-- an IN list has at most 16 literals, and the tree holds names cut to 255 bytes.
use my_pl.Prelude.{◌≤◌, ◌≡◌, Bool, true, false, List, [], ◌∷◌, ◌++◌, some, length, take}
use my_pl.BTree.Key.{Cell}
use my_pl.Lexer.Token.{Text}
use my_pl.Sql.Token.{
  SqlToken, SqlTokenType, token, tok_ident, tok_dot, tok_lparen, tok_rparen, tok_comma, tok_is,
  tok_not, tok_null, tok_in, tok_like, tok_string, tok_eq, tok_lt, tok_gt, tok_le, tok_ge, tok_ne,
  tok_and, tok_or,
}
use my_pl.Sql.Literal.{Literals, sql_parse_literal_cell}
use my_pl.Sql.Where.{
  CmpOp, equal, less, greater, less_equal, greater_equal, different, WhereNode, where_cmp,
  where_is_null, where_is_not_null, where_in, where_like, where_and, where_or, where_not,
}
use my_pl.Sql.Parse.{is_rparen}

-- `column` or `table.column`; a name is cut to the size of its buffer.
pub data Names : Text → Text → List SqlToken → Type 0 where
  plain : {name word : Text} → take 255 name ≡ word → Names [] word (token tok_ident name ∷ [])
  prefixed :
      {name word table prefix dot : Text}
      → take 255 table ≡ prefix
      → take 255 name ≡ word
      → Names prefix word (token tok_ident table ∷ token tok_dot dot ∷ token tok_ident name ∷ [])

pub data Operator : CmpOp → SqlTokenType → Type 0 where
  op_eq : Operator equal tok_eq
  op_lt : Operator less tok_lt
  op_gt : Operator greater tok_gt
  op_le : Operator less_equal tok_le
  op_ge : Operator greater_equal tok_ge
  op_ne : Operator different tok_ne

-- The literals of a list, with commas between them.
pub data Listed (lits : Literals) : List Cell → List SqlToken → Type 0 where
  last :
      {c : Cell} {tok : SqlToken}
      → is_rparen tok.type ≡ false
      → sql_parse_literal_cell lits tok ≡ some c
      → Listed lits (c ∷ []) (tok ∷ [])
  more :
      {c : Cell} {cells : List Cell} {tok : SqlToken} {comma : Text} {ts : List SqlToken}
      → is_rparen tok.type ≡ false
      → sql_parse_literal_cell lits tok ≡ some c
      → Listed lits cells ts
      → Listed lits (c ∷ cells) (tok ∷ token tok_comma comma ∷ ts)

-- NOT or nothing.
pub data Negation : Bool → List SqlToken → Type 0 where
  plainly : Negation false []
  negated : {word : Text} → Negation true (token tok_not word ∷ [])

-- What may stand behind the column of a comparison.
pub data Tests (lits : Literals) (prefix column : Text) : WhereNode → List SqlToken → Type 0 where
  compares :
      {op : CmpOp} {type : SqlTokenType} {word : Text} {tok : SqlToken} {c : Cell}
      → Operator op type
      → sql_parse_literal_cell lits tok ≡ some c
      → Tests lits prefix column (where_cmp prefix column op c) (token type word ∷ tok ∷ [])
  is_null :
      {is null : Text}
      → Tests lits prefix column
          (where_is_null prefix column)
          (token tok_is is ∷ token tok_null null ∷ [])
  is_not_null :
      {is not null : Text}
      → Tests lits prefix column
          (where_is_not_null prefix column)
          (token tok_is is ∷ token tok_not not ∷ token tok_null null ∷ [])
  among :
      {negate : Bool} {cells : List Cell} {ns ts : List SqlToken} (word paren close : Text)
      → Negation negate ns
      → Listed lits cells ts
      → length cells ≤ 16
      → Tests lits prefix column (where_in prefix column negate cells) (
          ns
          ++ (token tok_in word ∷ token tok_lparen paren ∷ (ts ++ (token tok_rparen close ∷ []))))
  like :
      {negate : Bool} {ns : List SqlToken} (word pattern : Text)
      → Negation negate ns
      → Tests lits prefix column
          (where_like prefix column negate pattern)
          (ns ++ (token tok_like word ∷ token tok_string pattern ∷ []))

pub data Level : Type 0 where
  or_level and_level not_level primary_level : Level

pub data Derives (lits : Literals) : Level → WhereNode → List SqlToken → Type 0 where
  one_and :
      {w : WhereNode} {ts : List SqlToken}
      → Derives lits and_level w ts
      → Derives lits or_level w ts
  or_more :
      {l r : WhereNode} {ts us : List SqlToken} (word : Text)
      → Derives lits or_level l ts
      → Derives lits and_level r us
      → Derives lits or_level (where_or l r) (ts ++ (token tok_or word ∷ us))
  one_not :
      {w : WhereNode} {ts : List SqlToken}
      → Derives lits not_level w ts
      → Derives lits and_level w ts
  and_more :
      {l r : WhereNode} {ts us : List SqlToken} (word : Text)
      → Derives lits and_level l ts
      → Derives lits not_level r us
      → Derives lits and_level (where_and l r) (ts ++ (token tok_and word ∷ us))
  not_not :
      {w : WhereNode} {ts : List SqlToken} (word : Text)
      → Derives lits not_level w ts
      → Derives lits not_level (where_not w) (token tok_not word ∷ ts)
  one_primary :
      {w : WhereNode} {ts : List SqlToken}
      → Derives lits primary_level w ts
      → Derives lits not_level w ts
  paren :
      {w : WhereNode} {ts : List SqlToken} (left right : Text)
      → Derives lits or_level w ts
      → Derives lits primary_level w (token tok_lparen left ∷ (ts ++ (token tok_rparen right ∷ [])))
  test :
      {w : WhereNode} {prefix column : Text} {ns ts : List SqlToken}
      → Names prefix column ns
      → Tests lits prefix column w ts
      → Derives lits primary_level w (ns ++ ts)
