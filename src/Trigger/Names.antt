-- ===== src/Trigger/Names.antt =====
-- `trigger_name_equals` and `sql_trigger_info`.
use my_pl.Prelude.{
  ℕ, zero, suc, ◌-◌, ◌≤◌, ◌<◌, ◌+◌, ◌≡◌, ◌≢◌, ◌↔◌, ◌⊎◌, inl, inr, Bool-cases, ==_iff, ◌==◌, ◌∙◌,
  append_assoc, refl, ap, sym, Bool, true, false, [], ◌∷◌, ◌++◌, map, Option, none, some, length,
  All, arith,
}
use my_pl.Trigger.{
  Text, is_ws, is_letter, is_ident, lower, within, skip_sql_ws, read_word, read_ident, match_word,
  Event, insert, update, delete, create, drop, word_of, skip_word, event_of, skip_to_table,
  sql_trigger_info, trigger_name_equals, starts_ident, found_table,
}

-- The same byte, or the two cases of one letter.
abbrev pub SameLetter : ℕ → ℕ → Type 0
SameLetter a b =
    (a ≡ b) ⊎ ((b'A' ≤ a) × (a ≤ b'Z') × (b ≡ a + 32)) ⊎ ((b'A' ≤ b) × (b ≤ b'Z') × (a ≡ b + 32))

-- Byte for byte, and of one length.
abbrev pub SameLetters : Text → Text → Type 0
SameLetters [] [] = Unit
SameLetters (a ∷ s) (b ∷ t) = SameLetter a b × SameLetters s t
SameLetters _ _ = ⊥

lower-SameLetter : (a b : ℕ) → lower a ≡ lower b → SameLetter a b
unfolding lower
lower-SameLetter a b h = elim (Bool-cases (within b'A' b'Z' a)) [
  | inl upper ↦ elim (Bool-cases (within b'A' b'Z' b)) [
    | inl upper' ↦ inl (ground arith)
    | inr other ↦ inr (inl (ground arith, ground arith, ground arith))
  ]
  | inr other ↦ elim (Bool-cases (within b'A' b'Z' b)) [
    | inl upper ↦ inr (inr (ground arith, ground arith, ground arith))
    | inr other' ↦ inl (ground arith)
  ]
]

SameLetter-lower : (a b : ℕ) → SameLetter a b → lower a ≡ lower b
unfolding lower
SameLetter-lower a b (inl e) = ap lower e
SameLetter-lower a b (inr (inl (lo, hi, e))) = ground arith
SameLetter-lower a b (inr (inr (lo, hi, e))) = ground arith

-- Trigger names are equal exactly when they are as long and have, byte for byte, the same byte or
-- the two cases of one ASCII letter.
pub trigger_name_equals-SameLetters :
    (a b : Text) → (trigger_name_equals a b ≡ true) ↔ SameLetters a b
unfolding trigger_name_equals
trigger_name_equals-SameLetters [] [] = (λ h. tt, λ h. refl)
trigger_name_equals-SameLetters [] (y ∷ b) = (λ h. cc, λ h. absurd h)
trigger_name_equals-SameLetters (x ∷ a) [] = (λ h. cc, λ h. absurd h)
trigger_name_equals-SameLetters (x ∷ a) (y ∷ b) =
    let ih = trigger_name_equals-SameLetters a b in
    elim (Bool-cases (lower x == lower y)) [
      | inl same ↦
          rw same (
            λ h. (lower-SameLetter x y ((==_iff (lower x) (lower y)).0 same), ih.0 h),
            λ h. ih.1 h.1,
          )
      | inr differ ↦
          rw differ (λ h. cc, λ h. absurd (ground (arith, SameLetter-lower x y h.0, differ)))
    ]

skip_sql_ws-append :
    (w s : Text) → All (λ c. is_ws c ≡ true) w → skip_sql_ws (w ++ s) ≡ skip_sql_ws s
unfolding skip_sql_ws
skip_sql_ws-append [] s h = refl
skip_sql_ws-append (c ∷ w) s h = rw h.0 (skip_sql_ws-append w s h.1)

-- A text that starts with a byte of a name, or with a letter.
ident_not_ws : (c : ℕ) → is_ident c ≡ true → is_ws c ≡ false
unfolding is_ident is_ws
ident_not_ws c h = ground arith

pub ws_not_ident : (c : ℕ) → is_ws c ≡ true → is_ident c ≡ false
unfolding is_ident is_ws
ws_not_ident c h = ground arith

ws_not_letter : (c : ℕ) → is_ws c ≡ true → is_letter c ≡ false
unfolding is_letter is_ws
ws_not_letter c h = ground arith

-- White space, possibly none, and white space of at least one byte.
abbrev pub IsWs : Text → Type 0
IsWs = All (λ c. is_ws c ≡ true)

abbrev pub IsGap : Text → Type 0
IsGap [] = ⊥
IsGap (c ∷ w) = IsWs (c ∷ w)

-- A name of at least one byte.
abbrev pub IsName : Text → Type 0
IsName [] = ⊥
IsName (c ∷ s) = All (λ c. is_ident c ≡ true) (c ∷ s)

pub skip_sql_ws-IsName : (name s : Text) → IsName name → skip_sql_ws (name ++ s) ≡ name ++ s
unfolding skip_sql_ws
skip_sql_ws-IsName [] s h = absurd h
skip_sql_ws-IsName (c ∷ name) s h = rw (ident_not_ws c h.0)

pub skip_sql_ws-IsWs : (w s : Text) → IsWs w → skip_sql_ws (w ++ s) ≡ skip_sql_ws s
skip_sql_ws-IsWs = skip_sql_ws-append

-- A word in letters of either case.
abbrev pub IsCased : Text → Text → Type 0
IsCased word kw = map lower kw ≡ word

abbrev IsLower : Text → Type 0
IsLower = All (λ c. (b'a' ≤ c) × (c ≤ b'z'))

cased_letters : (kw : Text) → IsLower (map lower kw) → All (λ c. is_letter c ≡ true) kw
unfolding lower is_letter
cased_letters [] h = tt
cased_letters (c ∷ kw) h = (ground arith, cased_letters kw h.1)

pub match_word-IsCased :
    (kw s : Text) (word : Text) → IsCased word kw → match_word word (kw ++ s) ≡ some s
unfolding match_word
match_word-IsCased [] s [] h = refl
match_word-IsCased [] s (k ∷ word) h = cc
match_word-IsCased (c ∷ kw) s [] h = cc
match_word-IsCased (c ∷ kw) s (k ∷ word) h = ground (arith, match_word-IsCased kw s word)

starts_letter : Text → Bool
starts_letter [] = false
starts_letter (c ∷ s) = is_letter c

read_word-cased :
    (room : ℕ) (kw s : Text)
    → All (λ c. is_letter c ≡ true) kw
    → starts_letter s ≡ false
    → length kw < room
    → read_word room (kw ++ s) ≡ (map lower kw, s)
unfolding read_word starts_letter
read_word-cased zero kw s a n k = absurd (omega arith)
read_word-cased (suc room) [] [] a n k = refl
read_word-cased (suc room) [] (c ∷ s) a n k = rw n
read_word-cased (suc room) (c ∷ kw) s a n k =
    rw (a.0, read_word-cased room kw s a.1 n (omega arith))

read_ident-name :
    (room : ℕ) (name s : Text)
    → All (λ c. is_ident c ≡ true) name
    → starts_ident s ≡ false
    → length name ≤ room
    → read_ident room (name ++ s) ≡ name
unfolding read_ident
read_ident-name zero [] s a n h = refl
read_ident-name zero (c ∷ name) s a n h = absurd (omega arith)
read_ident-name (suc room) [] [] a n h = refl
read_ident-name (suc room) [] (c ∷ s) a n h = rw n
read_ident-name (suc room) (c ∷ name) s a n h =
    rw (a.0, read_ident-name room name s a.1 n (omega arith))

-- What stands between the first word of a statement and its table: white space, with the word that
-- the event skips.
abbrev Separates : Option Text → Text → Type 0
Separates none mid = IsGap mid
Separates (some word) mid =
    (w : Text) × (kw : Text) × (w' : Text) × (mid ≡ w ++ (kw ++ w'))
    × IsGap w
    × IsCased word kw
    × IsGap w'

gap-IsWs : (w : Text) → IsGap w → IsWs w
gap-IsWs [] h = absurd h
gap-IsWs (c ∷ w) h = h

skip_sql_ws-letter :
    (kw s : Text) → All (λ c. is_letter c ≡ true) kw → kw ≢ [] → skip_sql_ws (kw ++ s) ≡ kw ++ s
unfolding skip_sql_ws is_ws is_letter
skip_sql_ws-letter [] s h n = absurd (n refl)
skip_sql_ws-letter (c ∷ kw) s h n = ground arith

abbrev pub IsKeyword : Text → Type 0
IsKeyword word = IsLower word × (word ≢ []) × (length word < 15)

pub word_of-IsKeyword : (ev : Event) → IsKeyword (word_of ev)
word_of-IsKeyword insert = (omega arith, λ q. cc, omega arith)
word_of-IsKeyword update = (omega arith, λ q. cc, omega arith)
word_of-IsKeyword delete = (omega arith, λ q. cc, omega arith)
word_of-IsKeyword create = (omega arith, λ q. cc, omega arith)
word_of-IsKeyword drop = (omega arith, λ q. cc, omega arith)

abbrev KeywordOrNone : Option Text → Type 0
KeywordOrNone none = Unit
KeywordOrNone (some word) = IsKeyword word

skip_word-IsKeyword : (ev : Event) → KeywordOrNone (skip_word ev)
skip_word-IsKeyword insert = (omega arith, λ q. cc, omega arith)
skip_word-IsKeyword update = tt
skip_word-IsKeyword delete = (omega arith, λ q. cc, omega arith)
skip_word-IsKeyword create = (omega arith, λ q. cc, omega arith)
skip_word-IsKeyword drop = (omega arith, λ q. cc, omega arith)

cased_ne_nil : (word kw : Text) → IsCased word kw → word ≢ [] → kw ≢ []
cased_ne_nil word [] h n = λ q. n (sym h)
cased_ne_nil word (c ∷ kw) h n = λ q. cc

length-cased : (kw : Text) → length (map lower kw) ≡ length kw
length-cased [] = refl
length-cased (c ∷ kw) = ap suc (length-cased kw)

pub skip_sql_ws-IsCased :
    (word kw s : Text) → IsKeyword word → IsCased word kw → skip_sql_ws (kw ++ s) ≡ kw ++ s
skip_sql_ws-IsCased word kw s k h =
    skip_sql_ws-letter kw s (cased_letters kw (rw h k.0)) (cased_ne_nil word kw h k.1)

skip_to_table-lem :
    (o : Option Text) (mid s : Text)
    → KeywordOrNone o
    → Separates o mid
    → skip_sql_ws s ≡ s
    → skip_to_table o (mid ++ s) ≡ some s
unfolding skip_to_table
skip_to_table-lem none mid s k h e = ap some (skip_sql_ws-append mid s (gap-IsWs mid h) ∙ e)
skip_to_table-lem (some word) mid s k (w, kw, w', split, gap, cased, gap') e =
    rw
      (
        split,
        append_assoc w (kw ++ w') s,
        append_assoc kw w' s,
        skip_to_table,
        skip_sql_ws-append w _ (gap-IsWs w gap),
        skip_sql_ws-IsCased word kw _ k cased,
        match_word-IsCased kw _ word cased,
      )
      (ap some (skip_sql_ws-append w' s (gap-IsWs w' gap') ∙ e))

event_of-word_of : (ev : Event) → event_of (word_of ev) ≡ some ev
unfolding event_of
event_of-word_of insert = refl
event_of-word_of update = refl
event_of-word_of delete = refl
event_of-word_of create = refl
event_of-word_of drop = refl

gap_starts : (w s : Text) → IsGap w → starts_letter (w ++ s) ≡ false
unfolding starts_letter
gap_starts [] s h = absurd h
gap_starts (c ∷ w) s h = ws_not_letter c h.0

Separates-starts :
    (o : Option Text) (mid s : Text) → Separates o mid → starts_letter (mid ++ s) ≡ false
Separates-starts none mid s h = gap_starts mid s h
Separates-starts (some word) mid s (w, kw, w', split, gap, _, _) =
    rw (split, append_assoc w (kw ++ w') s) (gap_starts w ((kw ++ w') ++ s) gap)

sql_trigger_info-steps :
    (sql s kw rest t : Text) (ev : Event) (size : ℕ)
    → skip_sql_ws sql ≡ s
    → read_word 15 s ≡ (kw, rest)
    → event_of kw ≡ some ev
    → skip_to_table (skip_word ev) rest ≡ some t
    → sql_trigger_info sql size ≡ found_table ev (read_ident (size - 1) t)
unfolding sql_trigger_info
sql_trigger_info-steps sql s kw rest t ev size a b c d =
    rw (sql_trigger_info, a, b) (rw (c, a, b) (rw d))

sql_trigger_info-cased :
    (ev : Event) (before kw mid name rest : Text) (table_size : ℕ)
    → IsWs before
    → IsCased (word_of ev) kw
    → Separates (skip_word ev) mid
    → IsName name
    → starts_ident rest ≡ false
    → length name < table_size
    → sql_trigger_info (before ++ (kw ++ (mid ++ (name ++ rest)))) table_size ≡ some (ev, name)
sql_trigger_info-cased ev before kw mid [] rest size b c m n r h = absurd n
sql_trigger_info-cased ev before kw mid (x ∷ name) rest size b c m n r h =
    let k = word_of-IsKeyword ev in
    let tail : Text = (x ∷ name) ++ rest in
    sql_trigger_info-steps _ (kw ++ (mid ++ tail)) (word_of ev) (mid ++ tail) tail ev size
      (skip_sql_ws-append before (kw ++ (mid ++ tail)) b
        ∙ skip_sql_ws-IsCased (word_of ev) kw (mid ++ tail) k c)
      (read_word-cased 15 kw (mid ++ tail) (cased_letters kw (rw c k.0))
          (Separates-starts (skip_word ev) mid tail m)
          (omega (arith, length-cased kw, ap length c, k.2))
        ∙ ap (λ t. (t, mid ++ tail)) c)
      (event_of-word_of ev)
      (skip_to_table-lem (skip_word ev) mid tail (skip_word-IsKeyword ev) m
        (skip_sql_ws-IsName (x ∷ name) rest n))
    ∙ ap (found_table ev) (read_ident-name (size - 1) (x ∷ name) rest n r (omega arith))

-- What stands between the first word of a statement and the name: white space, with the word that
-- the event skips in letters of either case.
abbrev pub Between : Option Text → Text → Type 0
Between none mid = IsGap mid
Between (some word) mid =
    (w : Text) × (kw : Text) × (w' : Text) × (mid ≡ w ++ (kw ++ w'))
    × IsGap w
    × SameLetters kw word
    × IsGap w'

lower_letter : (c k : ℕ) → b'a' ≤ k → k ≤ b'z' → SameLetter c k → lower c ≡ k
unfolding lower
lower_letter c k lo hi (inl e) = ground arith
lower_letter c k lo hi (inr (inl (lo', hi', e))) = ground arith
lower_letter c k lo hi (inr (inr (lo', hi', e))) = absurd (omega (arith, lo, hi'))

pub SameLetters-IsCased : (word kw : Text) → IsLower word → SameLetters kw word → IsCased word kw
SameLetters-IsCased [] [] h s = refl
SameLetters-IsCased [] (c ∷ kw) h s = absurd s
SameLetters-IsCased (k ∷ word) [] h s = absurd s
SameLetters-IsCased (k ∷ word) (c ∷ kw) h s =
    ap (λ d. d ∷ map lower kw) (lower_letter c k h.0.0 h.0.1 s.0)
    ∙ ap (◌∷◌ k) (SameLetters-IsCased word kw h.1 s.1)

Between-Separates :
    (o : Option Text) (mid : Text) → KeywordOrNone o → Between o mid → Separates o mid
Between-Separates none mid k b = b
Between-Separates (some word) mid k (w, kw, w', split, gap, same, gap') =
    (w, kw, w', split, gap, SameLetters-IsCased word kw k.0 same, gap')

-- A statement of an event, in letters of either case and with white space as it likes, gives the
-- event and the whole name that stands behind INSERT INTO, UPDATE, DELETE FROM, CREATE TABLE or DROP
-- TABLE, where the buffer holds it: the name of the table, but the word IF where the statement goes
-- on with IF EXISTS or IF NOT EXISTS.
pub sql_trigger_info_lem :
    (ev : Event) (before kw mid name rest : Text) (table_size : ℕ)
    → IsWs before
    → SameLetters kw (word_of ev)
    → Between (skip_word ev) mid
    → IsName name
    → starts_ident rest ≡ false
    → length name < table_size
    → sql_trigger_info (before ++ (kw ++ (mid ++ (name ++ rest)))) table_size ≡ some (ev, name)
sql_trigger_info_lem ev before kw mid name rest size b c m n r h =
    sql_trigger_info-cased ev before kw mid name rest size b
      (SameLetters-IsCased (word_of ev) kw (word_of-IsKeyword ev).0 c)
      (Between-Separates (skip_word ev) mid (skip_word-IsKeyword ev) m) n r h
