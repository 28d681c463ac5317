-- ===== src/Sql/Like.antt =====
-- src/sql_engine.c, `like_match`.
use my_pl.Prelude.{
  ℕ, ◌≡◌, ◌≢◌, ◌↔◌, refl, inl, inr, Bool, true, false, not, ◌&&◌, [], ◌∷◌, ◌==◌, if◌then◌else◌,
  ==_iff, Bool-cases, arith,
}
use my_pl.Lexer.Token.{Text}

-- The loop behind a `%`: the rest of the pattern is tried at every end of the text.
unfoldable pub try_ends : (Text → Bool) → Text → Bool
try_ends rest [] = rest []
try_ends rest (c ∷ s) = let later = try_ends rest s in if rest (c ∷ s) then true else later

abbrev is_end : Text → Bool
is_end [] = true
is_end (c ∷ s) = false

-- One byte of the pattern that is not a `%`.
abbrev one_byte : ℕ → (Text → Bool) → Text → Bool
one_byte p rest [] = false
one_byte p rest (c ∷ s) = if not (p == b'_') && not (p == c) then false else rest s

-- The test behind a trailing `%` saves the loop.
unfoldable pub like_match : Text → Text → Bool
unfolding try_ends
like_match [] s = is_end s
like_match (p ∷ ps) s =
    let rest = like_match ps in
    if p == b'%' then (if is_end ps then true else try_ends rest s) else one_byte p rest s

-- What a pattern means: `%` stands for any bytes, `_` for one, and another byte for itself.
pub data Matches : Text → Text → Type 0 where
  empty : Matches [] []
  same : {p c : ℕ} {ps s : Text} → p ≢ b'%' → p ≡ c → Matches ps s → Matches (p ∷ ps) (c ∷ s)
  any_one : {p c : ℕ} {ps s : Text} → p ≡ b'_' → Matches ps s → Matches (p ∷ ps) (c ∷ s)
  leave : {p : ℕ} {ps s : Text} → p ≡ b'%' → Matches ps s → Matches (p ∷ ps) s
  take_one : {p c : ℕ} {ps s : Text} → p ≡ b'%' → Matches (p ∷ ps) s → Matches (p ∷ ps) (c ∷ s)

any_tail : (p : ℕ) (s : Text) → p ≡ b'%' → Matches (p ∷ []) s
any_tail p [] h = leave h empty
any_tail p (c ∷ s) h = take_one h (any_tail p s h)

module _ (p : ℕ) (ps : Text) (percent : p ≡ b'%')
    (ih : (s : Text) → (like_match ps s ≡ true) ↔ Matches ps s) where
  ends_sound : (s : Text) → try_ends (like_match ps) s ≡ true → Matches (p ∷ ps) s
  unfolding try_ends
  ends_sound [] h = leave percent ((ih []).0 h)
  ends_sound (c ∷ s) h = elim (Bool-cases (like_match ps (c ∷ s))) [
    | inl here ↦ leave percent ((ih (c ∷ s)).0 here)
    | inr later ↦ take_one percent (ends_sound s (rw later at h))
  ]

  ends_complete : (s : Text) → Matches (p ∷ ps) s → try_ends (like_match ps) s ≡ true
  unfolding try_ends
  ends_complete [] (leave _ m) = (ih []).1 m
  ends_complete (c ∷ s) (leave _ m) = rw ((ih (c ∷ s)).1 m)
  ends_complete (c ∷ s) (take_one _ m) = elim (Bool-cases (like_match ps (c ∷ s))) [
    | inl here ↦ rw (here)
    | inr later ↦ rw (later, ends_complete s m)
  ]
  ends_complete (c ∷ s) (same other e m) = absurd (other percent)
  ends_complete (c ∷ s) (any_one one m) = grind arith

module _ (p : ℕ) (ps : Text) (other : p ≢ b'%')
    (ih : (s : Text) → (like_match ps s ≡ true) ↔ Matches ps s) where
  one_sound : (s : Text) → one_byte p (like_match ps) s ≡ true → Matches (p ∷ ps) s
  one_sound [] h = cc
  one_sound (c ∷ s) h = elim (Bool-cases (p == b'_')) [
    | inl one ↦ any_one ((==_iff p b'_').0 one) ((ih s).0 (rw one at h))
    | inr no_one ↦ elim (Bool-cases (p == c)) [
      | inl here ↦ same other ((==_iff p c).0 here) ((ih s).0 (rw (no_one, here) at h))
      | inr there ↦ cc
    ]
  ]

  one_complete : (s : Text) → Matches (p ∷ ps) s → one_byte p (like_match ps) s ≡ true
  one_complete s (leave percent _) = absurd (other percent)
  one_complete (c ∷ s) (take_one percent _) = absurd (other percent)
  one_complete (c ∷ s) (any_one one m) = rw ((==_iff p b'_').1 one, (ih s).1 m)
  one_complete (c ∷ s) (same _ e m) =
      let here = (==_iff p c).1 e in let after = (ih s).1 m in ground arith

different : (a b : ℕ) → (a == b) ≡ false → a ≢ b
different a b h e = grind arith

-- On every pattern and text, the matcher accepts exactly the texts that the pattern stands for.
pub like_match-Matches : (ps s : Text) → (like_match ps s ≡ true) ↔ Matches ps s
unfolding like_match
like_match-Matches [] [] = ((λ h. empty), (λ m. refl))
like_match-Matches [] (c ∷ s) = ((λ h. cc), (λ m. elim m [ ]))
like_match-Matches (p ∷ []) s = elim (Bool-cases (p == b'%')) [
  | inl percent ↦
      let e = (==_iff p b'%').0 percent in rw (percent) ((λ h. any_tail p s e), (λ m. refl))
  | inr other ↦
      let e = different p b'%' other in
      rw (other)
        (one_sound p [] e (like_match-Matches []) s, one_complete p [] e (like_match-Matches []) s)
]
like_match-Matches (p ∷ q ∷ ps) s = elim (Bool-cases (p == b'%')) [
  | inl percent ↦
      let e = (==_iff p b'%').0 percent in
      let ih = like_match-Matches (q ∷ ps) in
      rw (percent) (ends_sound p (q ∷ ps) e ih s, ends_complete p (q ∷ ps) e ih s)
  | inr other ↦
      let e = different p b'%' other in
      let ih = like_match-Matches (q ∷ ps) in
      rw (other) (one_sound p (q ∷ ps) e ih s, one_complete p (q ∷ ps) e ih s)
]
