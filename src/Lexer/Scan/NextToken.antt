-- ===== src/Lexer/Scan/NextToken.antt =====
-- The token of `lexer_next_token` in src/lexer.c: what it spans, where it says that it is, and that the
-- scanner goes on.
use my_pl.Prelude.{
  ℕ, ◌+◌, ◌-◌, ◌≤◌, Bool, true, false, ◌&&◌, ◌||◌, [], ◌∷◌, ◌++◌, some, ◌==◌, ◌≡◌, refl, sym, ap,
  ◌∙◌, ◌⊎◌, ◌≢◌, Bool-cases, Option-cases, inl, inr, arith, length, take,
}
use my_pl.Prelude.Int.{pos, ◌+ℤ◌}
use my_pl.Lexer.Keyword.{identifier_type}
use my_pl.Lexer.Token.{Text, Token, TokenType, token_error, token_eof, token_int}
use my_pl.Lexer.Scan.{
  Position, Lexer, Start, advance, at_newline, advance_while, is_digit, is_alpha, fraction, number,
  string_loop, close_string, string, sql_query, is_sql_query, identifier, symbol, pair, match_pair,
  dispatch, next_from, lexer_next_token, start_of, make_token, skip_whitespace, peek, peek_next,
}
use my_pl.Lexer.Scan.Consume.{
  Consumes, Consumes-none, Consumes-plain, Consumes-trans, past_all, past_all-append, past-plain,
  advance_while-Consumes, sql_loop-Consumes, string_loop-Consumes, skip_whitespace-Consumes,
  skip_whitespace-stops, at_line_end,
}
use my_pl.Lexer.Scan.Columns.{
  newlines, columns, past_all-offset, past_all-line, past_all-start, past_all-column,
}

-- The token stands where `start` says, and spans what was passed unless it is an error.
record IsScanned (start : Start) (s : Text) (at : Position) (r : Token × Lexer) : Type 0 where
  consumes : Consumes s at r.1
  line : r.0.line ≡ start.line
  column : r.0.column ≡ start.column
  span :
      (r.0.type ≡ token_error)
      ⊎ ((r.0.start ≡ start.text) × (r.0.length ≡ r.1.at.offset - start.offset))

-- At a quote or at the end.
abbrev at_quote : Text → Bool
at_quote [] = true
at_quote (c ∷ s) = c == b'"'

string_loop-at_quote : (s : Text) (at : Position) → at_quote (string_loop s at).rest ≡ true
unfolding string_loop
string_loop-at_quote [] at = refl
string_loop-at_quote (c ∷ []) at = ground arith
string_loop-at_quote (c ∷ d ∷ s) at =
    let first = advance (at_newline c at) in
    ground (
      arith,
      string_loop-at_quote s (advance (at_newline d first)),
      string_loop-at_quote (d ∷ s) first,
    )

module _ (start : Start) where
  token-IsScanned :
      (s : Text) (at : Position) (l : Lexer) (type : TokenType)
      → Consumes s at l
      → IsScanned start s at (make_token start l type)
  token-IsScanned s at l type h = record {
    consumes = h;
    line = refl;
    column = refl;
    span = inr (refl, refl);
  }

  IsScanned-after :
      (s : Text) (at : Position) (m : Lexer) (r : Token × Lexer)
      → Consumes s at m
      → IsScanned start m.rest m.at r
      → IsScanned start s at r
  IsScanned-after s at m r h k = record {
    consumes = Consumes-trans s at m r.1 h k.consumes;
    line = k.line;
    column = k.column;
    span = k.span;
  }

  digit_plain : (c : ℕ) → is_digit c ≡ true → (c == b'\n') ≡ false
  unfolding is_digit
  digit_plain c h = ground arith

  word_plain : (c : ℕ) → (is_alpha c || is_digit c) ≡ true → (c == b'\n') ≡ false
  unfolding is_digit is_alpha
  word_plain c h = ground arith

  fraction-IsScanned :
      (s : Text) (at : Position)
      → (peek s == b'.') ≡ true
      → IsScanned start s at (fraction start s at)
  unfolding fraction
  fraction-IsScanned [] at h = token-IsScanned [] at _ _ (Consumes-none [] at)
  fraction-IsScanned (c ∷ s) at h = token-IsScanned (c ∷ s) at _ _ (
      Consumes-plain c s at _ (ground arith)
        (advance_while-Consumes is_digit s (advance at) digit_plain))

  number-IsScanned : (l : Lexer) → IsScanned start l.rest l.at (number start l)
  unfolding number
  number-IsScanned l =
      let whole = advance_while is_digit l.rest l.at in
      let h = advance_while-Consumes is_digit l.rest l.at digit_plain in
      elim (Bool-cases (peek whole.rest == b'.' && is_digit (peek_next whole.rest))) [
        | inl dot ↦ rw dot (
            IsScanned-after l.rest l.at whole _ h
              (fraction-IsScanned whole.rest whole.at (ground (arith, dot))))
        | inr end ↦ rw end (token-IsScanned l.rest l.at whole token_int h)
      ]

  -- The loop of `string` stops at a quote or at the end.
  close_string-IsScanned :
      (s : Text) (at : Position)
      → at_quote s ≡ true
      → IsScanned start s at (close_string start s at)
  unfolding close_string
  close_string-IsScanned [] at h = record {
    consumes = Consumes-none [] at;
    line = refl;
    column = refl;
    span = inl refl;
  }
  close_string-IsScanned (c ∷ s) at h =
      token-IsScanned (c ∷ s) at _ _
        (Consumes-plain c s at _ (ground arith) (Consumes-none s (advance at)))

  string-IsScanned : (l : Lexer) → IsScanned start l.rest l.at (string start l)
  unfolding string
  string-IsScanned l =
      let body = string_loop l.rest l.at in
      IsScanned-after l.rest l.at body _ (string_loop-Consumes l.rest l.at)
        (close_string-IsScanned body.rest body.at (string_loop-at_quote l.rest l.at))

  identifier-IsScanned : (l : Lexer) → IsScanned start l.rest l.at (identifier start l)
  unfolding identifier sql_query
  identifier-IsScanned l =
      let test : ℕ → Bool = λ c. is_alpha c || is_digit c in
      let word = advance_while test l.rest l.at in
      let h = advance_while-Consumes test l.rest l.at word_plain in
      let type = identifier_type (take (word.at.offset - start.offset) start.text) in
      elim (Bool-cases (is_sql_query type)) [
        | inl sql ↦ rw sql (
            IsScanned-after l.rest l.at word _ h
              (token-IsScanned word.rest word.at _ _ (sql_loop-Consumes word.rest word.at)))
        | inr other ↦ rw other (token-IsScanned l.rest l.at word type h)
      ]

  match_pair-IsScanned :
      (two : ℕ × TokenType × TokenType) (s : Text) (at : Position)
      → (two.0 == b'\n') ≡ false
      → IsScanned start s at (match_pair start two s at)
  unfolding match_pair
  match_pair-IsScanned (expected, long, short) [] at h =
      token-IsScanned [] at _ _ (Consumes-none [] at)
  match_pair-IsScanned (expected, long, short) (c ∷ s) at h = elim (Bool-cases (c == expected)) [
    | inl same ↦ rw same (
        token-IsScanned (c ∷ s) at _ long
          (Consumes-plain c s at _ (ground arith) (Consumes-none s (advance at))))
    | inr differ ↦ rw differ (token-IsScanned (c ∷ s) at _ short (Consumes-none (c ∷ s) at))
  ]

  pair_plain :
      (c : ℕ) (two : ℕ × TokenType × TokenType) → pair c ≡ some two → (two.0 == b'\n') ≡ false
  unfolding pair
  pair_plain c two h = ground arith

  dispatch-IsScanned : (c : ℕ) (l : Lexer) → IsScanned start l.rest l.at (dispatch start c l)
  unfolding dispatch
  dispatch-IsScanned c l = elim (Option-cases (symbol c)) [
    | inr (type, one) ↦
        rw (dispatch, one) (token-IsScanned l.rest l.at l type (Consumes-none l.rest l.at))
    | inl many ↦ elim (Option-cases (pair c)) [
      | inr (two, is_pair) ↦
          rw (dispatch, many, is_pair)
            (match_pair-IsScanned two l.rest l.at (pair_plain c two is_pair))
      | inl single ↦ elim (Bool-cases (is_alpha c)) [
        | inl letter ↦ rw (dispatch, many, single, letter) (identifier-IsScanned l)
        | inr other ↦ elim (Bool-cases (is_digit c)) [
          | inl digit ↦ rw (dispatch, many, single, other, digit) (number-IsScanned l)
          | inr sign ↦ elim (Bool-cases (c == b'"')) [
            | inl quote ↦ rw (dispatch, many, single, other, sign, quote) (string-IsScanned l)
            | inr odd ↦
                rw (dispatch, many, single, other, sign, odd)
                  (record {
                    consumes = Consumes-none l.rest l.at;
                    line = refl;
                    column = refl;
                    span = inl refl;
                  })
          ]
        ]
      ]
    ]
  ]

-- What a call of `lexer_next_token` on `l` has done: it has skipped one stretch of the text and
-- scanned another.
pub record IsNextToken (l : Lexer) (t : Token) (l' : Lexer) : Type 0 where
  pub skipped : Text
  pub lexeme : Text
  pub splits : l.rest ≡ skipped ++ (lexeme ++ l'.rest)
  pub moves : l'.at.offset ≡ l.at.offset + length skipped + length lexeme
  pub next_line : l'.at.line ≡ l.at.line +ℤ pos (newlines (skipped ++ lexeme))
  pub next_start : l'.at.line_start ≤ l'.at.offset
  pub next_column :
      l'.at.offset - l'.at.line_start ≡ columns (skipped ++ lexeme) (l.at.offset - l.at.line_start)
  pub line : t.line ≡ l.at.line +ℤ pos (newlines skipped)
  pub column : t.column ≡ columns skipped (l.at.offset - l.at.line_start) + 1
  pub span : (t.type ≡ token_error) ⊎ (t.start ≡ lexeme ++ l'.rest) × (t.length ≡ length lexeme)
  pub progress : (lexeme ≢ []) ⊎ (t.type ≡ token_eof) × (l'.rest ≡ [])

-- The token at `s`, where the spaces and comments have ended.
record IsLexeme (start : Start) (s : Text) (at : Position) (r : Token × Lexer) : Type 0 where
  scanned : IsScanned start s at r
  progress : (scanned.consumes.taken ≢ []) ⊎ (r.0.type ≡ token_eof) × (r.1.rest ≡ [])

next_from-IsLexeme :
    (start : Start) (s : Text) (at : Position)
    → at_line_end s ≡ false
    → IsLexeme start s at (next_from start s at)
unfolding next_from past_all
next_from-IsLexeme start [] at h = record {
  scanned = token-IsScanned start [] at _ _ (Consumes-none [] at);
  progress = inr (refl, refl);
}
next_from-IsLexeme start (c ∷ s) at h =
    let behind : Lexer = record { rest = s; at = advance at } in
    let r = dispatch start c behind in
    let k = dispatch-IsScanned start c behind in
    record {
      scanned = record {
        consumes = record {
          taken = c ∷ k.consumes.taken;
          splits = ap (◌∷◌ c) k.consumes.splits;
          moves = k.consumes.moves ∙ ap (past_all k.consumes.taken) (sym (past-plain c at h));
        };
        line = k.line;
        column = k.column;
        span = k.span;
      };
      progress = inl (λ e. cc);
    }

IsLexeme-IsNextToken :
    (l here : Lexer) (r : Token × Lexer)
    → l.at.line_start ≤ l.at.offset
    → Consumes l.rest l.at here
    → IsLexeme (start_of here) here.rest here.at r
    → IsNextToken l r.0 r.1
IsLexeme-IsNextToken l here r h skips found =
    let token = found.scanned in
    let lexeme = token.consumes.taken in
    let behind = past_all-offset lexeme here.at in
    let goes = ap (λ (p : Position). p.offset) token.consumes.moves in
    let all : r.1.at ≡ past_all (skips.taken ++ lexeme) l.at =
      token.consumes.moves
      ∙ ap (past_all lexeme) skips.moves
      ∙ sym (past_all-append skips.taken lexeme l.at) in
    record {
      skipped = skips.taken;
      lexeme = lexeme;
      splits = skips.splits ∙ ap (◌++◌ skips.taken) token.consumes.splits;
      moves =
          goes
          ∙ behind
          ∙ ap (λ (p : Position). p.offset + length lexeme) skips.moves
          ∙ ap (◌+ length lexeme) (past_all-offset skips.taken l.at);
      next_line = ap (λ (p : Position). p.line) all ∙ past_all-line (skips.taken ++ lexeme) l.at;
      next_start = rw (all) (past_all-start (skips.taken ++ lexeme) l.at h);
      next_column =
          ap (λ (p : Position). p.offset - p.line_start) all
          ∙ past_all-column (skips.taken ++ lexeme) l.at h;
      line =
          token.line ∙ ap (λ (p : Position). p.line) skips.moves ∙ past_all-line skips.taken l.at;
      column =
          token.column
          ∙ ap (λ (p : Position). p.offset - p.line_start + 1) skips.moves
          ∙ ap (◌+ 1) (past_all-column skips.taken l.at h);
      span = elim token.span [
        | inl error ↦ inl error
        | inr (text, count) ↦ inr (text ∙ token.consumes.splits, omega (arith, count, goes, behind))
      ];
      progress = found.progress;
    }

-- From a position whose line starts at or before it, `lexer_next_token` skips a stretch of the text
-- and scans another: the token's line and column are those of the lexeme, by the newlines ahead of
-- it; unless it is an error, its pointer and length span the lexeme; the lexer goes on behind it
-- with its offset, its line and the start of its line in step, as the next call needs them; and the
-- lexeme is empty only for the end of the text.
pub lexer_next_token-IsNextToken :
    (l : Lexer)
    → l.at.line_start ≤ l.at.offset
    → IsNextToken l (lexer_next_token l).0 (lexer_next_token l).1
unfolding lexer_next_token
lexer_next_token-IsNextToken l h =
    let here = skip_whitespace l in
    IsLexeme-IsNextToken l here (next_from (start_of here) here.rest here.at) h
      (skip_whitespace-Consumes l)
      (next_from-IsLexeme (start_of here) here.rest here.at (skip_whitespace-stops l))
