-- ===== src/Trigger/Drop.antt =====
-- `sql_drop_trigger_name`: the texts that it takes for a `drop trigger` statement.
use my_pl.Prelude.{
  ℕ, zero, suc, ◌-◌, ◌≤◌, ◌≡◌, ◌⊎◌, inl, inr, ◌∙◌, refl, ap, sym, true, false, [], ◌∷◌, ◌++◌, some,
  take, All, arith,
}
use mathlib.Core.Path.{subst}
use my_pl.Trigger.{
  Text, is_ident, skip_sql_ws, word_of, drop, starts_ident, match_sql_keyword, span_ident,
  read_drop_name, skip_semicolon, trigger_word, sql_drop_trigger_name,
}
use my_pl.Trigger.Names.{
  SameLetters, SameLetters-IsCased, IsWs, IsGap, IsName, IsCased, match_word-IsCased,
  skip_sql_ws-IsWs, skip_sql_ws-IsName, skip_sql_ws-IsCased, IsKeyword, word_of-IsKeyword,
  ws_not_ident,
}

match_sql_keyword-IsCased :
    (word kw w s : Text)
    → IsCased word kw
    → IsGap w
    → match_sql_keyword word (kw ++ (w ++ s)) ≡ some (skip_sql_ws s)
unfolding match_sql_keyword
match_sql_keyword-IsCased word kw [] s c h = absurd h
match_sql_keyword-IsCased word kw (b ∷ w) s c h =
    rw (match_sql_keyword, match_word-IsCased kw (b ∷ w ++ s) word c, ws_not_ident b h.0)
      (ap some (skip_sql_ws-IsWs (b ∷ w) s h))

span_ident-name :
    (name s : Text)
    → All (λ c. is_ident c ≡ true) name
    → starts_ident s ≡ false
    → span_ident (name ++ s) ≡ (name, s)
unfolding span_ident
span_ident-name [] [] a h = refl
span_ident-name [] (c ∷ s) a h = rw h
span_ident-name (c ∷ name) s a h = rw (a.0, span_ident-name name s a.1 h)

-- What may stand behind the name: white space, and at most one semicolon within it.
abbrev IsEnd : Text → Type 0
IsEnd s = IsWs s ⊎ ((w : Text) × (w' : Text) × (s ≡ w ++ (b';' ∷ w')) × IsWs w × IsWs w')

skip_all : (w : Text) → IsWs w → skip_sql_ws w ≡ []
unfolding skip_sql_ws
skip_all [] h = refl
skip_all (c ∷ w) h = rw h.0 (skip_all w h.1)

skip_at_semicolon : (w' : Text) → skip_sql_ws (b';' ∷ w') ≡ b';' ∷ w'
unfolding skip_sql_ws
skip_at_semicolon w' = refl

skip_end : (s : Text) → IsEnd s → skip_semicolon (skip_sql_ws s) ≡ []
skip_end s (inl h) = rw (skip_all s h)
skip_end s (inr (w, w', e, h, h')) =
    rw (e, skip_sql_ws-IsWs w (b';' ∷ w') h, skip_at_semicolon w') (skip_all w' h')

semicolon_not_ident : is_ident b';' ≡ false
unfolding is_ident
semicolon_not_ident = refl

end_not_ident : (s : Text) → IsEnd s → starts_ident s ≡ false
end_not_ident [] h = refl
end_not_ident (c ∷ s) (inl h) = ws_not_ident c h.0
end_not_ident (c ∷ s) (inr ([], w', e, h, h')) =
    subst (λ t. starts_ident t ≡ false) (sym e) semicolon_not_ident
end_not_ident (c ∷ s) (inr (b ∷ w, w', e, h, h')) =
    subst (λ t. starts_ident t ≡ false) (sym e) (ws_not_ident b h.0)

read_drop_name-lem :
    (name rest : Text) (size : ℕ)
    → IsName name
    → IsEnd rest
    → 2 ≤ size
    → read_drop_name size (name ++ rest) ≡ some (take (size - 1) name)
unfolding read_drop_name
read_drop_name-lem [] rest size n e h = absurd n
read_drop_name-lem (c ∷ name) rest zero n e h = absurd (omega arith)
read_drop_name-lem (c ∷ name) rest (suc zero) n e h = absurd (omega arith)
read_drop_name-lem (c ∷ name) rest (suc (suc size)) n e h =
    let room : suc (suc size) - 1 ≡ suc size = omega arith in
    rw (
      read_drop_name,
      span_ident-name (c ∷ name) rest n (end_not_ident rest e),
      skip_end rest e,
      room,
    )

sql_drop_trigger_name-steps :
    (sql s s' s'' : Text) (size : ℕ)
    → skip_sql_ws sql ≡ s
    → match_sql_keyword (word_of drop) s ≡ some s'
    → match_sql_keyword trigger_word s' ≡ some s''
    → sql_drop_trigger_name sql size ≡ read_drop_name size s''
unfolding sql_drop_trigger_name
sql_drop_trigger_name-steps sql s s' s'' size a b c = rw (sql_drop_trigger_name, a, b) (rw c)

trigger_word-IsKeyword : IsKeyword trigger_word
trigger_word-IsKeyword = (omega arith, λ q. cc, omega arith)

-- A `drop trigger` statement, in letters of either case, with white space as it likes and at most
-- one semicolon at its end, gives its name, cut to what the buffer holds.
pub sql_drop_trigger_name_lem :
    (before kw w kw' w' name rest : Text) (size : ℕ)
    → IsWs before
    → SameLetters kw (word_of drop)
    → IsGap w
    → SameLetters kw' trigger_word
    → IsGap w'
    → IsName name
    → IsEnd rest
    → 2 ≤ size
    → sql_drop_trigger_name (before ++ (kw ++ (w ++ (kw' ++ (w' ++ (name ++ rest)))))) size
      ≡ some (take (size - 1) name)
sql_drop_trigger_name_lem before kw w kw' w' name rest size b c g c' g' n e h =
    let cased = SameLetters-IsCased (word_of drop) kw (word_of-IsKeyword drop).0 c in
    let cased' = SameLetters-IsCased trigger_word kw' trigger_word-IsKeyword.0 c' in
    let tail = name ++ rest in
    let tail' = kw' ++ (w' ++ tail) in
    sql_drop_trigger_name-steps _ (kw ++ (w ++ tail')) tail' tail size
      (skip_sql_ws-IsWs before (kw ++ (w ++ tail')) b
        ∙ skip_sql_ws-IsCased (word_of drop) kw (w ++ tail') (word_of-IsKeyword drop) cased)
      (match_sql_keyword-IsCased (word_of drop) kw w tail' cased g
        ∙ ap some (skip_sql_ws-IsCased trigger_word kw' (w' ++ tail) trigger_word-IsKeyword cased'))
      (match_sql_keyword-IsCased trigger_word kw' w' tail cased' g'
        ∙ ap some (skip_sql_ws-IsName name rest n))
    ∙ read_drop_name-lem name rest size n e h
