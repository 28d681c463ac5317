-- ===== src/Sql/Parse/Steps.antt =====
-- src/sql_engine.c: single steps of the parser of conditions.
use my_pl.Prelude.{ℕ, zero, suc, ◌≡◌, false, List, ◌∷◌}
use my_pl.Lexer.Token.{Text}
use my_pl.Sql.Token.{SqlToken, token, tok_rparen, tok_lparen, tok_not, tok_and, tok_or}
use my_pl.Sql.Literal.{Literals}
use my_pl.Sql.Where.{WhereNode, where_and, where_or, where_not}
use my_pl.Sql.Parse.{
  done, type_of, is_and, is_or, is_not, start_of, at_column, comparison, where_parse_primary,
  where_parse_not, where_parse_and, and_loop, where_parse_or, or_loop,
}

module _ (lits : Literals) where
  pub or_loop-done :
      (fuel : ℕ) (w : WhereNode) (rest : List SqlToken)
      → is_or (type_of rest) ≡ false
      → or_loop lits fuel w rest ≡ done w rest
  unfolding or_loop
  or_loop-done zero w rest e = rw (e)
  or_loop-done (suc fuel) w rest e = rw (or_loop, e)

  pub and_loop-done :
      (fuel : ℕ) (w : WhereNode) (rest : List SqlToken)
      → is_and (type_of rest) ≡ false
      → and_loop lits fuel w rest ≡ done w rest
  unfolding and_loop
  and_loop-done zero w rest e = rw (e)
  and_loop-done (suc fuel) w rest e = rw (and_loop, e)

  -- One step of each parser.
  pub or_step :
      (fuel : ℕ) (ts : List SqlToken) {w : WhereNode} {rest : List SqlToken}
      → where_parse_and lits fuel ts ≡ done w rest
      → where_parse_or lits (suc fuel) ts ≡ or_loop lits fuel w rest
  unfolding where_parse_or
  or_step fuel ts e = rw (where_parse_or, e)

  pub or_turn :
      (fuel : ℕ) (l : WhereNode) (word : Text) (ts : List SqlToken) {r : WhereNode}
      {rest : List SqlToken}
      → where_parse_and lits fuel ts ≡ done r rest
      → or_loop lits (suc fuel) l (token tok_or word ∷ ts) ≡ or_loop lits fuel (where_or l r) rest
  unfolding or_loop
  or_turn fuel l word ts e = rw (or_loop, e)

  pub and_step :
      (fuel : ℕ) (ts : List SqlToken) {w : WhereNode} {rest : List SqlToken}
      → where_parse_not lits fuel ts ≡ done w rest
      → where_parse_and lits (suc fuel) ts ≡ and_loop lits fuel w rest
  unfolding where_parse_and
  and_step fuel ts e = rw (where_parse_and, e)

  pub and_turn :
      (fuel : ℕ) (l : WhereNode) (word : Text) (ts : List SqlToken) {r : WhereNode}
      {rest : List SqlToken}
      → where_parse_not lits fuel ts ≡ done r rest
      → and_loop lits (suc fuel) l (token tok_and word ∷ ts)
        ≡ and_loop lits fuel (where_and l r) rest
  unfolding and_loop
  and_turn fuel l word ts e = rw (and_loop, e)

  pub not_step :
      (fuel : ℕ) (word : Text) (ts : List SqlToken) {w : WhereNode} {rest : List SqlToken}
      → where_parse_not lits fuel ts ≡ done w rest
      → where_parse_not lits (suc fuel) (token tok_not word ∷ ts) ≡ done (where_not w) rest
  unfolding where_parse_not
  not_step fuel word ts e = rw (where_parse_not, e)

  pub primary_step :
      (fuel : ℕ) (ts : List SqlToken) {w : WhereNode} {rest : List SqlToken}
      → is_not (type_of ts) ≡ false
      → where_parse_primary lits fuel ts ≡ done w rest
      → where_parse_not lits (suc fuel) ts ≡ done w rest
  unfolding where_parse_not
  primary_step fuel ts n e = rw (where_parse_not, n, e)

  pub paren_step :
      (fuel : ℕ) (left right : Text) (ts : List SqlToken) {w : WhereNode} {rest : List SqlToken}
      → where_parse_or lits fuel ts ≡ done w (token tok_rparen right ∷ rest)
      → where_parse_primary lits (suc fuel) (token tok_lparen left ∷ ts) ≡ done w rest
  unfolding where_parse_primary
  paren_step fuel left right ts e = rw (where_parse_primary, e)

  pub test_step :
      (fuel : ℕ) (ts : List SqlToken) {w : WhereNode} {rest : List SqlToken}
      → start_of (type_of ts) ≡ at_column
      → comparison lits ts ≡ done w rest
      → where_parse_primary lits (suc fuel) ts ≡ done w rest
  unfolding where_parse_primary
  test_step fuel ts s e = rw (where_parse_primary, s, e)
