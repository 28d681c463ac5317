-- ===== src/Sql/Parse/Column.antt =====
-- src/sql_engine.c: comparisons, from their column on, as the parser of conditions reads them.
use my_pl.Prelude.{
  ℕ, zero, suc, ◌≤◌, ◌≡◌, refl, Bool, true, false, List, [], ◌∷◌, ◌++◌, some, length, append_assoc,
  arith, take,
}
use my_pl.BTree.Key.{Cell}
use my_pl.Lexer.Token.{Text}
use my_pl.Sql.Token.{SqlToken, token, tok_rparen}
use my_pl.Sql.Literal.{Literals, sql_parse_literal_cell, sql_token_text}
use my_pl.Sql.Where.{WhereNode, where_in}
use my_pl.Sql.Parse.{
  done, type_of, start_of, at_column, column_after, in_node, in_items, comparison, after_column,
  test_of, max_in_list,
}
use my_pl.Sql.Parse.Grammar.{
  Names, plain, prefixed, op_eq, op_lt, op_gt, op_le, op_ge, op_ne, Listed, last, more, plainly,
  negated, Tests, compares, is_null, is_not_null, among, like,
}

module _ (lits : Literals) where
  in_items-Listed :
      {cells : List Cell} {ts : List SqlToken} (room : ℕ) (word : Text) (rest : List SqlToken)
      → Listed lits cells ts
      → length cells ≤ room
      → in_items lits room (ts ++ (token tok_rparen word ∷ rest))
        ≡ some (cells, token tok_rparen word ∷ rest)
  unfolding in_items
  in_items-Listed zero word rest (last no_paren lit) few = absurd (omega (arith, few))
  in_items-Listed zero word rest (more no_paren lit later) few = absurd (omega (arith, few))
  in_items-Listed (suc zero) word rest (last no_paren lit) few = rw (no_paren, lit)
  in_items-Listed (suc (suc room)) word rest (last no_paren lit) few = rw (no_paren, lit)
  in_items-Listed (suc room) word rest (more no_paren lit later) few =
      rw (no_paren, lit, in_items-Listed room word rest later (omega (arith, few)))

  in_node-Listed :
      {cells : List Cell} {ts : List SqlToken} (prefix column : Text) (negate : Bool) (word : Text)
      (rest : List SqlToken)
      → Listed lits cells ts
      → in_node prefix column negate (some (cells, token tok_rparen word ∷ rest))
        ≡ done (where_in prefix column negate cells) rest
  in_node-Listed prefix column negate word rest (last no_paren lit) = refl
  in_node-Listed prefix column negate word rest (more no_paren lit later) = refl

  Tests-done :
      {prefix column : Text} {w : WhereNode} {ts : List SqlToken} (rest : List SqlToken)
      → Tests lits prefix column w ts
      → after_column lits prefix column (ts ++ rest) (type_of (ts ++ rest)) ≡ done w rest
  unfolding after_column test_of sql_parse_literal_cell
  Tests-done rest (compares op_eq lit) = rw (lit)
  Tests-done rest (compares op_lt lit) = rw (lit)
  Tests-done rest (compares op_gt lit) = rw (lit)
  Tests-done rest (compares op_le lit) = rw (lit)
  Tests-done rest (compares op_ge lit) = rw (lit)
  Tests-done rest (compares op_ne lit) = rw (lit)
  Tests-done rest is_null = refl
  Tests-done rest is_not_null = refl
  Tests-done rest (among a b c plainly listed few) =
      rw (append_assoc, in_items-Listed max_in_list c rest listed few)
        (in_node-Listed _ _ false c rest listed)
  Tests-done rest (among a b c negated listed few) =
      rw (append_assoc, in_items-Listed max_in_list c rest listed few)
        (in_node-Listed _ _ true c rest listed)
  Tests-done rest (like word pattern plainly) = refl
  Tests-done rest (like word pattern negated) = refl

  -- A test does not start with a dot.
  column_after-Tests :
      {prefix column : Text} {w : WhereNode} {ts : List SqlToken} (name : Text)
      (rest : List SqlToken)
      → Tests lits prefix column w ts
      → column_after name (ts ++ rest) (type_of (ts ++ rest)) ≡ some ([], name, ts ++ rest)
  column_after-Tests name rest (compares op_eq lit) = refl
  column_after-Tests name rest (compares op_lt lit) = refl
  column_after-Tests name rest (compares op_gt lit) = refl
  column_after-Tests name rest (compares op_le lit) = refl
  column_after-Tests name rest (compares op_ge lit) = refl
  column_after-Tests name rest (compares op_ne lit) = refl
  column_after-Tests name rest is_null = refl
  column_after-Tests name rest is_not_null = refl
  column_after-Tests name rest (among a b c plainly listed few) = refl
  column_after-Tests name rest (among a b c negated listed few) = refl
  column_after-Tests name rest (like word pattern plainly) = refl
  column_after-Tests name rest (like word pattern negated) = refl

  pub comparison-done :
      {prefix column : Text} {w : WhereNode} {ns ts : List SqlToken} (rest : List SqlToken)
      → Names prefix column ns
      → Tests lits prefix column w ts
      → comparison lits ((ns ++ ts) ++ rest) ≡ done w rest
  unfolding comparison sql_token_text
  comparison-done rest (plain {name = name} e) t =
      rw (column_after-Tests (take 255 name) rest t, e) (Tests-done rest t)
  comparison-done rest (prefixed e f) t = rw (e, f) (Tests-done rest t)

  pub comparison-starts :
      {prefix column : Text} {ns : List SqlToken} (ts rest : List SqlToken)
      → Names prefix column ns
      → start_of (type_of ((ns ++ ts) ++ rest)) ≡ at_column
  comparison-starts ts rest (plain e) = refl
  comparison-starts ts rest (prefixed e f) = refl
