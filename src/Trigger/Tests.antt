-- ===== src/Trigger/Tests.antt =====
-- Runs of src/trigger.c.
use my_pl.Prelude.{
  ℕ, ◌+◌, ◌≤◌, inr, inl, refl, [], ◌∷◌, ◌-◌, ◌≡◌, ◌↔◌, true, ◌++◌, some, take, arith,
}
use my_pl.Trigger.{
  Text, word_of, drop, event_of, read_word, skip_sql_ws, skip_to_table, read_ident, update, create,
  trigger_word, trigger_name_equals, lower, sql_trigger_info, sql_drop_trigger_name, is_ws,
  is_ident, is_letter,
}
use my_pl.Lexer.Keyword.{codes}
use my_pl.Trigger.Names.{
  SameLetter, SameLetters, trigger_name_equals-SameLetters, sql_trigger_info_lem, IsName, IsGap,
}
use my_pl.Trigger.Drop.{sql_drop_trigger_name_lem}

abbrev name : Text
name = b't' ∷ b'1' ∷ []

abbrev other_name : Text
other_name = b'T' ∷ b'1' ∷ []

trigger_name_equals-SameLetters_example :
    (trigger_name_equals name other_name ≡ true) ↔ SameLetters name other_name
trigger_name_equals-SameLetters_example = trigger_name_equals-SameLetters name other_name

abbrev space : Text
space = b' ' ∷ []

name-IsName : IsName name
unfolding is_ident is_letter
name-IsName = (refl, (refl, tt))

space-IsGap : IsGap space
unfolding is_ws
space-IsGap = (refl, tt)

-- UPDATE t1 (in capitals)
abbrev verb : Text
verb = b'U' ∷ b'P' ∷ b'D' ∷ b'A' ∷ b'T' ∷ b'E' ∷ []

capital : (c : ℕ) → b'A' ≤ c → c ≤ b'Z' → SameLetter c (c + 32)
capital c lo hi = inr (inl (lo, hi, refl))

verb-SameLetters : SameLetters verb (word_of update)
verb-SameLetters = (
  capital b'U' (omega arith) (omega arith),
  (
    capital b'P' (omega arith) (omega arith),
    (
      capital b'D' (omega arith) (omega arith),
      (
        capital b'A' (omega arith) (omega arith),
        (capital b'T' (omega arith) (omega arith), (capital b'E' (omega arith) (omega arith), tt)),
      ),
    ),
  ),
)

sql_trigger_info_example :
    sql_trigger_info ([] ++ (verb ++ (space ++ (name ++ [])))) 64 ≡ some (update, name)
unfolding lower
sql_trigger_info_example =
    sql_trigger_info_lem update [] verb space name [] 64 tt verb-SameLetters space-IsGap name-IsName
      refl (omega arith)

abbrev drop_verb : Text
drop_verb = b'D' ∷ b'r' ∷ b'o' ∷ b'p' ∷ []

drop_verb-SameLetters : SameLetters drop_verb (word_of drop)
drop_verb-SameLetters =
    (capital b'D' (omega arith) (omega arith), (inl refl, (inl refl, (inl refl, tt))))

same-SameLetters : (s : Text) → SameLetters s s
same-SameLetters [] = tt
same-SameLetters (c ∷ s) = (inl refl, same-SameLetters s)

sql_drop_trigger_name_example :
    sql_drop_trigger_name
      ([] ++ (drop_verb ++ (space ++ (trigger_word ++ (space ++ (name ++ []))))))
      64
    ≡ some (take (64 - 1) name)
unfolding lower
sql_drop_trigger_name_example =
    sql_drop_trigger_name_lem [] drop_verb space trigger_word space name [] 64 tt
      drop_verb-SameLetters space-IsGap (same-SameLetters trigger_word) space-IsGap name-IsName
      (inl tt) (omega arith)

-- IF stands where the name of the table is looked for.
if_is_the_table :
    sql_trigger_info (codes "create table if not exists users") 64 ≡ some (create, codes "if")
unfolding sql_trigger_info event_of read_word skip_sql_ws skip_to_table read_ident
if_is_the_table = refl
