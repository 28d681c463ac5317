-- ===== src/Sql/Parse/Complete.antt =====
-- src/sql_engine.c: the parser of conditions reads the texts of the grammar, IN lists of at most 16
-- literals, as the trees that the grammar gives them.
use my_pl.Prelude.{
  ℕ, zero, suc, ◌+◌, ◌-◌, ◌≤◌, ◌≡◌, refl, ◌∙◌, false, List, ◌∷◌, ◌++◌, append_assoc, arith,
}
use my_pl.Sql.Token.{SqlToken, token, tok_rparen}
use my_pl.Sql.Literal.{Literals}
use my_pl.Sql.Where.{WhereNode}
use my_pl.Sql.Parse.{
  Parsed, done, type_of, is_and, is_or, is_not, where_parse_primary, where_parse_not,
  where_parse_and, and_loop, where_parse_or, or_loop,
}
use my_pl.Sql.Parse.Grammar.{
  plain, prefixed, Level, or_level, and_level, not_level, primary_level, Derives, one_and, or_more,
  one_not, and_more, not_not, one_primary, paren, test,
}
use my_pl.Sql.Parse.Column.{comparison-starts, comparison-done}
use my_pl.Sql.Parse.Steps.{
  or_loop-done, and_loop-done, or_step, or_turn, and_step, and_turn, not_step, primary_step,
  paren_step, test_step,
}

-- The parser of each level.
abbrev pub parse_at : Literals → Level → ℕ → List SqlToken → Parsed
parse_at lits or_level = where_parse_or lits
parse_at lits and_level = where_parse_and lits
parse_at lits not_level = where_parse_not lits
parse_at lits primary_level = where_parse_primary lits

module _ (lits : Literals) where
  -- The turns of the loops of one level, and fuel that is enough.
  abbrev pub spine : {l : Level} {w : WhereNode} {ts : List SqlToken} → Derives lits l w ts → ℕ
  spine (one_and d) = 1
  spine (or_more word l r) = suc (spine l)
  spine (one_not d) = 1
  spine (and_more word l r) = suc (spine l)
  spine (not_not word d) = 1
  spine (one_primary d) = 1
  spine (paren left right d) = 1
  spine (test n t) = 1

  abbrev pub cost : {l : Level} {w : WhereNode} {ts : List SqlToken} → Derives lits l w ts → ℕ
  cost (one_and d) = suc (cost d)
  cost (or_more word l r) = suc (spine l + cost l + cost r)
  cost (one_not d) = suc (cost d)
  cost (and_more word l r) = suc (spine l + cost l + cost r)
  cost (not_not word d) = suc (cost d)
  cost (one_primary d) = suc (cost d)
  cost (paren left right d) = suc (cost d)
  cost (test n t) = 1

  spine-cost :
      {l : Level} {w : WhereNode} {ts : List SqlToken} (d : Derives lits l w ts) → spine d ≤ cost d
  spine-cost (one_and d) = omega arith
  spine-cost (or_more word l r) = omega (arith, spine-cost l)
  spine-cost (one_not d) = omega arith
  spine-cost (and_more word l r) = omega (arith, spine-cost l)
  spine-cost (not_not word d) = omega arith
  spine-cost (one_primary d) = omega arith
  spine-cost (paren left right d) = omega arith
  spine-cost (test n t) = omega arith

  -- A primary condition does not start with NOT.
  is_not-primary :
      {w : WhereNode} {ts : List SqlToken} (rest : List SqlToken)
      → Derives lits primary_level w ts
      → is_not (type_of (ts ++ rest)) ≡ false
  is_not-primary rest (paren left right d) = refl
  is_not-primary rest (test (plain e) t) = refl
  is_not-primary rest (test (prefixed e f) t) = refl

  -- Tokens behind which no operator of the level goes on.
  abbrev Stops : Level → List SqlToken → Type 0
  Stops or_level rest = (is_or (type_of rest) ≡ false) × (is_and (type_of rest) ≡ false)
  Stops and_level rest = is_and (type_of rest) ≡ false
  Stops not_level rest = Unit
  Stops primary_level rest = Unit

  omega-same : (n fuel : ℕ) → suc n ≡ 1 + fuel → n ≡ fuel
  omega-same n fuel e = omega (arith, e)

  cost-pos : {l : Level} {w : WhereNode} {ts : List SqlToken} (d : Derives lits l w ts) → 1 ≤ cost d
  cost-pos (one_and d) = omega arith
  cost-pos (or_more word l r) = omega arith
  cost-pos (one_not d) = omega arith
  cost-pos (and_more word l r) = omega arith
  cost-pos (not_not word d) = omega arith
  cost-pos (one_primary d) = omega arith
  cost-pos (paren left right d) = omega arith
  cost-pos (test n t) = omega arith

  mutual
    or_steps :
        {w : WhereNode} {ts : List SqlToken} (d : Derives lits or_level w ts) (n fuel : ℕ)
        (rest : List SqlToken)
        → is_and (type_of rest) ≡ false
        → n ≡ spine d + fuel
        → cost d ≤ n
        → where_parse_or lits n (ts ++ rest) ≡ or_loop lits fuel w rest
    or_steps (one_and d) zero fuel rest stop e enough = absurd (omega (arith, enough))
    or_steps (one_and d) (suc n) fuel rest stop e enough =
        or_step lits n _ (parse-done and_level d n rest stop (omega (arith, enough)))
        ∙ rw (omega-same n fuel e)
    or_steps (or_more word l r) n fuel rest stop e enough = rw (append_assoc) (
        or_steps l n (suc fuel) _ refl (omega (arith, e)) (omega (arith, enough))
        ∙ or_turn lits fuel _ word _
            (parse-done and_level r fuel rest stop (omega (arith, e, enough))))

    and_steps :
        {w : WhereNode} {ts : List SqlToken} (d : Derives lits and_level w ts) (n fuel : ℕ)
        (rest : List SqlToken)
        → n ≡ spine d + fuel
        → cost d ≤ n
        → where_parse_and lits n (ts ++ rest) ≡ and_loop lits fuel w rest
    and_steps (one_not d) zero fuel rest e enough = absurd (omega (arith, enough))
    and_steps (one_not d) (suc n) fuel rest e enough =
        and_step lits n _ (parse-done not_level d n rest tt (omega (arith, enough)))
        ∙ rw (omega-same n fuel e)
    and_steps (and_more word l r) n fuel rest e enough = rw (append_assoc) (
        and_steps l n (suc fuel) _ (omega (arith, e)) (omega (arith, enough))
        ∙ and_turn lits fuel _ word _
            (parse-done not_level r fuel rest tt (omega (arith, e, enough))))

    -- With fuel that depends on its length alone, the parser of each level reads a text of that
    -- level of the grammar as its tree and stops behind it, where no operator goes on.
    parse-done :
        (level : Level) {w : WhereNode} {ts : List SqlToken} (d : Derives lits level w ts)
        (fuel : ℕ) (rest : List SqlToken)
        → Stops level rest
        → cost d ≤ fuel
        → parse_at lits level fuel (ts ++ rest) ≡ done w rest
    parse-done level d zero rest stop enough = absurd (omega (arith, cost-pos d, enough))
    parse-done or_level (one_and d) (suc fuel) rest stop enough =
        or_step lits fuel _ (parse-done and_level d fuel rest stop.1 (omega (arith, enough)))
        ∙ or_loop-done lits fuel _ rest stop.0
    parse-done or_level (or_more word l r) (suc fuel) rest stop enough =
        let left = fuel - spine l in
        rw (append_assoc) (
          or_steps l (suc fuel) (suc left) _ refl (omega (arith, enough, spine-cost l))
            (omega (arith, enough))
          ∙ or_turn lits left _ word _
              (parse-done and_level r left rest stop.1 (omega (arith, enough)))
          ∙ or_loop-done lits left _ rest stop.0)
    parse-done and_level (one_not d) (suc fuel) rest stop enough =
        and_step lits fuel _ (parse-done not_level d fuel rest tt (omega (arith, enough)))
        ∙ and_loop-done lits fuel _ rest stop
    parse-done and_level (and_more word l r) (suc fuel) rest stop enough =
        let left = fuel - spine l in
        rw (append_assoc) (
          and_steps l (suc fuel) (suc left) _ (omega (arith, enough, spine-cost l))
            (omega (arith, enough))
          ∙ and_turn lits left _ word _
              (parse-done not_level r left rest tt (omega (arith, enough)))
          ∙ and_loop-done lits left _ rest stop)
    parse-done not_level (not_not word d) (suc fuel) rest stop enough =
        not_step lits fuel word _ (parse-done not_level d fuel rest tt (omega (arith, enough)))
    parse-done not_level (one_primary d) (suc fuel) rest stop enough =
        primary_step lits fuel _ (is_not-primary rest d)
          (parse-done primary_level d fuel rest tt (omega (arith, enough)))
    parse-done primary_level (paren left right d) (suc fuel) rest stop enough =
        paren_step lits fuel left right _ (
          rw (append_assoc) (
            parse-done or_level d fuel (token tok_rparen right ∷ rest) (refl, refl)
              (omega (arith, enough))))
    parse-done primary_level (test {ts = ts} names t) (suc fuel) rest stop enough =
        test_step lits fuel _ (comparison-starts lits ts rest names)
          (comparison-done lits rest names t)

  -- With fuel for its derivation, the parser reads a condition of the grammar in which no IN list has
  -- more than 16 literals as the tree that the grammar gives it, its names cut to 255 bytes, NOT
  -- closer than AND and AND closer than OR, both to the left, and stops behind it where neither AND
  -- nor OR follows.
  pub where_parse_or-Derives :
      {w : WhereNode} {ts : List SqlToken} (d : Derives lits or_level w ts) (fuel : ℕ)
      (rest : List SqlToken)
      → is_or (type_of rest) ≡ false
      → is_and (type_of rest) ≡ false
      → cost d ≤ fuel
      → where_parse_or lits fuel (ts ++ rest) ≡ done w rest
  where_parse_or-Derives d fuel rest no_or no_and enough =
      parse-done or_level d fuel rest (no_or, no_and) enough
