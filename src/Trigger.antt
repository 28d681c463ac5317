-- ===== src/Trigger.antt =====
-- src/trigger.c: which statement and table a SQL text is about, `drop trigger` texts, and the
-- comparison of trigger names. A text is its bytes before the NUL; a buffer that the code fills is
-- the text in it, and the out-parameters of a function are what it returns (`none` is the result 0).
pub mod Names
pub mod Drop
mod Tests
use my_pl.Prelude.{
  ℕ, zero, suc, ◌+◌, ◌-◌, Bool, true, false, not, ◌&&◌, ◌||◌, List, [], ◌∷◌, ◌++◌, Option, none,
  some, leb, ◌==◌, if◌then◌else◌, take,
}

abbrev pub Text : Type 0
Text = List ℕ

abbrev within : ℕ → ℕ → ℕ → Bool
within lo hi c = leb lo c && leb c hi

unfoldable pub is_ws : ℕ → Bool
is_ws c = c == b' ' || c == b'\t' || c == b'\n' || c == b'\r'

unfoldable pub is_letter : ℕ → Bool
is_letter c = within b'a' b'z' c || within b'A' b'Z' c

unfoldable pub is_ident : ℕ → Bool
unfolding is_letter
is_ident c = is_letter c || within b'0' b'9' c || c == b'_'

unfoldable pub lower : ℕ → ℕ
lower c = if within b'A' b'Z' c then c + 32 else c

unfoldable pub skip_sql_ws : Text → Text
unfolding is_ws
skip_sql_ws [] = []
skip_sql_ws (c ∷ s) = if is_ws c then skip_sql_ws s else c ∷ s

-- The bytes that the loop over the first word takes, lowered, and the rest of the text.
unfoldable pub read_word : ℕ → Text → Text × Text
unfolding is_letter lower
read_word zero s = ([], s)
read_word (suc room) [] = ([], [])
read_word (suc room) (c ∷ s) =
    let (word, rest) = read_word room s in
    if is_letter c then (lower c ∷ word, rest) else ([], c ∷ s)

-- The bytes that the loop over a table name takes.
unfoldable pub read_ident : ℕ → Text → Text
unfolding is_ident
read_ident zero s = []
read_ident (suc room) [] = []
read_ident (suc room) (c ∷ s) = let name = read_ident room s in if is_ident c then c ∷ name else []

-- The rest of the text behind a word that stands at its front in letters of either case.
unfoldable pub match_word : Text → Text → Option Text
unfolding lower
match_word [] s = some s
match_word (k ∷ kw) [] = none
match_word (k ∷ kw) (c ∷ s) =
    let rest = match_word kw s in if not (lower c == k) then none else rest

unfoldable pub same_text : Text → Text → Bool
same_text [] [] = true
same_text [] (b ∷ t) = false
same_text (a ∷ s) [] = false
same_text (a ∷ s) (b ∷ t) = a == b && same_text s t

-- The TRIGGER_* constants of an event.
pub data Event : Type 0 where
  insert update delete create drop : Event

abbrev pub word_of : Event → Text
word_of insert = b'i' ∷ b'n' ∷ b's' ∷ b'e' ∷ b'r' ∷ b't' ∷ []
word_of update = b'u' ∷ b'p' ∷ b'd' ∷ b'a' ∷ b't' ∷ b'e' ∷ []
word_of delete = b'd' ∷ b'e' ∷ b'l' ∷ b'e' ∷ b't' ∷ b'e' ∷ []
word_of create = b'c' ∷ b'r' ∷ b'e' ∷ b'a' ∷ b't' ∷ b'e' ∷ []
word_of drop = b'd' ∷ b'r' ∷ b'o' ∷ b'p' ∷ []

-- `skip_kw`; NULL is `none`.
abbrev pub skip_word : Event → Option Text
skip_word insert = some (b'i' ∷ b'n' ∷ b't' ∷ b'o' ∷ [])
skip_word update = none
skip_word delete = some (b'f' ∷ b'r' ∷ b'o' ∷ b'm' ∷ [])
skip_word create = some (b't' ∷ b'a' ∷ b'b' ∷ b'l' ∷ b'e' ∷ [])
skip_word drop = some (b't' ∷ b'a' ∷ b'b' ∷ b'l' ∷ b'e' ∷ [])

unfoldable pub event_of : Text → Option Event
unfolding same_text
event_of kw =
    if same_text kw (word_of insert)
    then some insert
    else if same_text kw (word_of update)
    then some update
    else if same_text kw (word_of delete)
    then some delete
    else if same_text kw (word_of create)
    then some create
    else if same_text kw (word_of drop)
    then some drop
    else none

-- The text from the table name on.
unfoldable pub skip_to_table : Option Text → Text → Option Text
unfolding match_word skip_sql_ws
skip_to_table none s = some (skip_sql_ws s)
skip_to_table (some kw) s = elim (match_word kw (skip_sql_ws s)) [
  | none ↦ none
  | some rest ↦ some (skip_sql_ws rest)
]

abbrev pub found_table : Event → Text → Option (Event × Text)
found_table ev [] = none
found_table ev (c ∷ table) = some (ev, c ∷ table)

unfoldable pub sql_trigger_info : Text → ℕ → Option (Event × Text)
sql_trigger_info sql table_size =
    let (kw, rest) = read_word 15 (skip_sql_ws sql) in
    elim (event_of kw) [
      | none ↦ none
      | some ev ↦ elim (skip_to_table (skip_word ev) rest) [
        | none ↦ none
        | some s ↦ found_table ev (read_ident (table_size - 1) s)
      ]
    ]

unfoldable pub trigger_name_equals : Text → Text → Bool
unfolding lower
trigger_name_equals [] [] = true
trigger_name_equals [] (b ∷ t) = false
trigger_name_equals (a ∷ s) [] = false
trigger_name_equals (a ∷ s) (b ∷ t) =
    let rest = trigger_name_equals s t in if not (lower a == lower b) then false else rest

abbrev pub starts_ident : Text → Bool
starts_ident [] = false
starts_ident (c ∷ s) = is_ident c

unfoldable pub match_sql_keyword : Text → Text → Option Text
unfolding match_word skip_sql_ws is_ident
match_sql_keyword kw s = elim (match_word kw s) [
  | none ↦ none
  | some rest ↦ if starts_ident rest then none else some (skip_sql_ws rest)
]

-- All the bytes of a name, and the rest of the text.
unfoldable pub span_ident : Text → Text × Text
unfolding is_ident
span_ident [] = ([], [])
span_ident (c ∷ s) =
    let (name, rest) = span_ident s in if is_ident c then (c ∷ name, rest) else ([], c ∷ s)

abbrev pub skip_semicolon : Text → Text
skip_semicolon [] = []
skip_semicolon (c ∷ s) = if c == b';' then skip_sql_ws s else c ∷ s

-- The end of `sql_drop_trigger_name`: a name, and nothing but a semicolon behind it.
abbrev drop_name : Text → Text → Option Text
drop_name [] rest = none
drop_name (c ∷ name) [] = some (c ∷ name)
drop_name (c ∷ name) (d ∷ rest) = none

unfoldable pub read_drop_name : ℕ → Text → Option Text
unfolding span_ident skip_sql_ws
read_drop_name name_size s =
    let (name, rest) = span_ident s in
    drop_name (take (name_size - 1) name) (skip_semicolon (skip_sql_ws rest))

abbrev pub trigger_word : Text
trigger_word = b't' ∷ b'r' ∷ b'i' ∷ b'g' ∷ b'g' ∷ b'e' ∷ b'r' ∷ []

unfoldable pub sql_drop_trigger_name : Text → ℕ → Option Text
sql_drop_trigger_name sql name_size = elim (match_sql_keyword (word_of drop) (skip_sql_ws sql)) [
  | none ↦ none
  | some s ↦ elim (match_sql_keyword trigger_word s) [
    | none ↦ none
    | some rest ↦ read_drop_name name_size rest
  ]
]
