-- ===== src/Sql/Tests.antt =====
-- Runs of the conditions on one row.
use my_pl.Prelude.{
  ℕ, List, ◌≡◌, ◌↔◌, refl, true, false, [], ◌∷◌, none, some, ltb, ◌+◌, ◌-◌, ◌*◌, ◌++◌, arith,
}
use my_pl.BTree.Key.{null, int, string}
use my_pl.Lexer.Keyword.{codes}
use my_pl.Sql.Cells.{Numbers, cell_compare}
use my_pl.Sql.Like.{like_match, Matches, like_match-Matches}
use my_pl.Sql.Token.{
  tok_ident, SqlToken, token, tok_le, tok_number, sql_next_token, tok_lt, tok_is, tok_null, tok_or,
}
use my_pl.Sql.Where.{
  where_like, Row, where_cmp, where_in, where_and, where_not, less, where_eval, same_text, is_false,
  WhereNode, where_or, where_is_null,
}
use my_pl.Sql.Literal.{Literals, bound_string, sql_parse_literal_cell}
use my_pl.Sql.Parse.{sql_tokens, where_parse_or, done}
use my_pl.Sql.Parse.Grammar.{
  Derives, or_level, primary_level, or_more, one_and, one_not, one_primary, test, plain, compares,
  op_lt, is_null,
}
use my_pl.Sql.Parse.Complete.{where_parse_or-Derives}
use my_pl.Lexer.Token.{Text}
use my_pl.Sql.Where.Negation.{opposite, where_eval-opposite}
use my_pl.Sql.Where.InList.{any_equal, where_eval-in}

-- An order of doubles that compares their bits, which is the one of those that are not negative.
abbrev positive_numbers : Numbers
positive_numbers = record { lt_float = ltb; float_of_int = λ v. v; int_bits = λ cell. 0 }

abbrev row : Row
row =
    (codes "age", int 30) ∷ (codes "name", string (some (codes "Ada"))) ∷ (codes "email", null) ∷ []

scanned_operator : sql_next_token (codes "  <= 12") ≡ (token tok_le (codes "<="), codes " 12")
unfolding sql_next_token
scanned_operator = refl

scanned_number : sql_next_token (codes " 12") ≡ (token tok_number (codes "12"), [])
unfolding sql_next_token
scanned_number = refl

like_match-Matches_example :
    (like_match (codes "A%a") (codes "Ada") ≡ true) ↔ Matches (codes "A%a") (codes "Ada")
like_match-Matches_example = like_match-Matches (codes "A%a") (codes "Ada")

ada_matches : like_match (codes "A_%") (codes "Ada") ≡ true
unfolding like_match
ada_matches = refl

-- An unknown operand of AND does not hide a false one.
young_or_mailed :
    where_eval positive_numbers row
      (where_and
        (where_cmp [] (codes "email") less (int 1))
        (where_cmp [] (codes "age") less (int 18)))
      none
    ≡ is_false
unfolding where_eval cell_compare same_text
young_or_mailed = refl

where_eval-opposite_example :
    where_eval positive_numbers row (opposite (where_cmp [] (codes "age") less (int 18))) none
    ≡ where_eval positive_numbers row (where_not (where_cmp [] (codes "age") less (int 18))) none
where_eval-opposite_example =
    where_eval-opposite positive_numbers row (where_cmp [] (codes "age") less (int 18)) none

where_eval-in_example :
    (where_eval positive_numbers row (where_in [] (codes "age") false (int 1 ∷ null ∷ [])) none
      ≡ where_eval positive_numbers row (any_equal [] (codes "age") (int 1) (null ∷ [])) none)
    × (where_eval positive_numbers row (where_in [] (codes "age") true (int 1 ∷ null ∷ [])) none
        ≡ where_eval positive_numbers row
            (where_not (any_equal [] (codes "age") (int 1) (null ∷ [])))
            none)
where_eval-in_example = where_eval-in positive_numbers row [] (codes "age") (int 1) (null ∷ []) none

abbrev decimal : ℕ → Text → ℕ
decimal n [] = n
decimal n (c ∷ s) = decimal (n * 10 + (c - b'0')) s

-- Numbers without a point or a sign, and one value that is bound.
abbrev plain_literals : Literals
plain_literals = record {
  strtod = λ s. 0;
  atoi = decimal 0;
  binds = bound_string (some (codes "A%")) ∷ [];
}

abbrev age_less : WhereNode
age_less = where_cmp [] (codes "age") less (int 18)

abbrev number_18 : SqlToken
number_18 = token tok_number (codes "18")

eighteen : sql_parse_literal_cell plain_literals number_18 ≡ some (int 18)
unfolding sql_parse_literal_cell
eighteen = refl

-- AND binds closer than OR, and NOT closer than AND.
abbrev query : Text
query = codes "age<18 OR not name LIKE ?1 AND t.age in (18, NULL)"

parsed_query :
    where_parse_or plain_literals 20 (sql_tokens 30 query)
    ≡ done
        (where_or age_less (
          where_and
            (where_not (where_like [] (codes "name") false (codes "A%")))
            (where_in (codes "t") (codes "age") false (int 18 ∷ null ∷ []))))
        []
unfolding sql_tokens where_parse_or
parsed_query = refl

abbrev column_age : SqlToken
column_age = token tok_ident (codes "age")

abbrev young_tokens : List SqlToken
young_tokens = column_age ∷ token tok_lt (codes "<") ∷ number_18 ∷ []

abbrev unknown_tokens : List SqlToken
unknown_tokens = column_age ∷ token tok_is (codes "IS") ∷ token tok_null (codes "NULL") ∷ []

abbrev young : Derives plain_literals primary_level age_less young_tokens
young = test (plain refl) (compares op_lt eighteen)

abbrev young_or_unknown :
    Derives plain_literals or_level
      (where_or age_less (where_is_null [] (codes "age")))
      (young_tokens ++ (token tok_or (codes "OR") ∷ unknown_tokens))
young_or_unknown =
    or_more (codes "OR") (one_and (one_not (one_primary young)))
      (one_not (one_primary (test (plain refl) is_null)))

where_parse_or-Derives_example :
    where_parse_or plain_literals 20
      ((young_tokens ++ (token tok_or (codes "OR") ∷ unknown_tokens)) ++ [])
    ≡ done (where_or age_less (where_is_null [] (codes "age"))) []
where_parse_or-Derives_example =
    where_parse_or-Derives plain_literals young_or_unknown 20 [] refl refl (omega arith)
