-- ===== src/Lexer/Tests.antt =====
-- Runs of src/lexer.c.
use my_pl.Prelude.{arith}
use my_pl.Lexer.Token.{Text}
use my_pl.Lexer.Keyword.{codes}
use my_pl.Lexer.Scan.{lexer_init, lexer_next_token}
use my_pl.Lexer.Scan.NextToken.{IsNextToken, lexer_next_token-IsNextToken}

-- A comment, a newline and a number with a fraction.
abbrev source : Text
source = codes "/* a */\n 12.5;"

lexer_next_token-IsNextToken_example :
    IsNextToken
      (lexer_init source)
      (lexer_next_token (lexer_init source)).0
      (lexer_next_token (lexer_init source)).1
lexer_next_token-IsNextToken_example =
    lexer_next_token-IsNextToken (lexer_init source) (omega arith)
