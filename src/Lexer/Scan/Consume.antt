-- ===== src/Lexer/Scan/Consume.antt =====
-- The loops of src/lexer.c take bytes off the front of the text, and keep the position in step.
use my_pl.Prelude.{
  ℕ, Bool, true, false, ◌||◌, [], ◌∷◌, ◌++◌, none, some, ◌==◌, ◌≡◌, refl, sym, ap, ◌∙◌, Bool-cases,
  Option-cases, inl, inr, arith, append_assoc,
}
use mathlib.Core.Path.{subst}
use my_pl.Lexer.Token.{Text}
use my_pl.Lexer.Scan.{
  Position, Lexer, advance, at_newline, advance_while, Skip, between, line_comment, opening,
  block_comment, closing, skip_step, skip, skip_whitespace, string_loop, sql_loop, peek,
}

-- The position behind the byte `c`, and behind a text.
abbrev pub past : ℕ → Position → Position
past c at = advance (at_newline c at)

unfoldable pub past_all : Text → Position → Position
past_all [] at = at
past_all (c ∷ s) at = past_all s (past c at)

-- The lexer `l` is what is left of the text `s` at `at` when the bytes `taken` have been passed.
pub record Consumes (s : Text) (at : Position) (l : Lexer) : Type 0 where
  pub taken : Text
  pub splits : s ≡ taken ++ l.rest
  pub moves : l.at ≡ past_all taken at

pub Consumes-none : (s : Text) (at : Position) → Consumes s at (record { rest = s; at = at })
unfolding past_all
Consumes-none s at = record { taken = []; splits = refl; moves = refl }

Consumes-cons :
    (c : ℕ) (s : Text) (at : Position) (l : Lexer)
    → Consumes s (past c at) l
    → Consumes (c ∷ s) at l
unfolding past_all
Consumes-cons c s at l h = record {
  taken = c ∷ h.taken;
  splits = ap (◌∷◌ c) h.splits;
  moves = h.moves;
}

pub past_all-append :
    (x y : Text) (at : Position) → past_all (x ++ y) at ≡ past_all y (past_all x at)
unfolding past_all
past_all-append [] y at = refl
past_all-append (c ∷ x) y at = past_all-append x y (past c at)

pub Consumes-trans :
    (s : Text) (at : Position) (m l : Lexer)
    → Consumes s at m
    → Consumes m.rest m.at l
    → Consumes s at l
Consumes-trans s at m l h k = record {
  taken = h.taken ++ k.taken;
  splits = h.splits ∙ ap (◌++◌ h.taken) k.splits ∙ sym (append_assoc h.taken k.taken l.rest);
  moves = k.moves ∙ ap (past_all k.taken) h.moves ∙ sym (past_all-append h.taken k.taken at);
}

pub past-plain : (c : ℕ) (at : Position) → (c == b'\n') ≡ false → past c at ≡ advance at
past-plain c at h = rw h refl

-- A byte of which is known that it is not a newline.
pub Consumes-plain :
    (c : ℕ) (s : Text) (at : Position) (l : Lexer)
    → (c == b'\n') ≡ false
    → Consumes s (advance at) l
    → Consumes (c ∷ s) at l
Consumes-plain c s at l h k =
    Consumes-cons c s at l (subst (λ p. Consumes s p l) (sym (past-plain c at h)) k)

pub advance_while-Consumes :
    (test : ℕ → Bool) (s : Text) (at : Position)
    → ((c : ℕ) → test c ≡ true → (c == b'\n') ≡ false)
    → Consumes s at (advance_while test s at)
unfolding advance_while
advance_while-Consumes test [] at h = Consumes-none [] at
advance_while-Consumes test (c ∷ s) at h = elim (Bool-cases (test c)) [
  | inl holds ↦
      rw holds (Consumes-plain c s at _ (h c holds) (advance_while-Consumes test s (advance at) h))
  | inr fails ↦ rw fails (Consumes-none (c ∷ s) at)
]

pub sql_loop-Consumes : (s : Text) (at : Position) → Consumes s at (sql_loop s at)
unfolding sql_loop
sql_loop-Consumes [] at = Consumes-none [] at
sql_loop-Consumes (c ∷ s) at = elim (Bool-cases (c == b'{' || c == b';')) [
  | inl stop ↦ rw stop (Consumes-none (c ∷ s) at)
  | inr on ↦ rw on (Consumes-cons c s at _ (sql_loop-Consumes s (advance (at_newline c at))))
]

pub string_loop-Consumes : (s : Text) (at : Position) → Consumes s at (string_loop s at)
unfolding string_loop
string_loop-Consumes [] at = Consumes-none [] at
string_loop-Consumes (c ∷ []) at = elim (Bool-cases (c == b'"')) [
  | inl quote ↦ rw quote (Consumes-none (c ∷ []) at)
  | inr on ↦ rw on (Consumes-cons c [] at _ (Consumes-none [] (advance (at_newline c at))))
]
string_loop-Consumes (c ∷ d ∷ s) at =
    let first = advance (at_newline c at) in
    let escaped = string_loop-Consumes s (advance (at_newline d first)) in
    let plain = string_loop-Consumes (d ∷ s) first in
    elim (Bool-cases (c == b'"')) [
      | inl quote ↦ rw quote (Consumes-none (c ∷ d ∷ s) at)
      | inr on ↦ elim (Bool-cases (c == b'\\')) [
        | inl slash ↦
            rw (on, slash) (Consumes-cons c (d ∷ s) at _ (Consumes-cons d s _ _ (escaped)))
        | inr other ↦ rw (on, other) (Consumes-cons c (d ∷ s) at _ (plain))
      ]
    ]

-- What the byte ahead is, by the mode that the loops of `skip_whitespace` are in.
abbrev Ahead : Skip → Text → Type 0
Ahead opening s = peek s ≡ b'*'
Ahead closing s = peek s ≡ b'/'
Ahead _ s = Unit

-- A round of the loops goes past its byte, and leads to a mode that fits the byte behind it.
skip_step-lem :
    (m m' : Skip) (c : ℕ) (s : Text) (at at' : Position)
    → Ahead m (c ∷ s)
    → skip_step m c s at ≡ some (m', at')
    → (at' ≡ past c at) × Ahead m' s
unfolding skip_step
skip_step-lem between m' c s at at' a h = ground arith
skip_step-lem line_comment m' c s at at' a h = ground arith
skip_step-lem opening m' c s at at' a h = ground arith
skip_step-lem block_comment m' c s at at' a h = ground arith
skip_step-lem closing m' c s at at' a h = ground arith

skip-Consumes : (m : Skip) (s : Text) (at : Position) → Ahead m s → Consumes s at (skip m s at)
unfolding skip
skip-Consumes m [] at a = Consumes-none [] at
skip-Consumes m (c ∷ s) at a = elim (Option-cases (skip_step m c s at)) [
  | inl stop ↦ rw (skip, stop) (Consumes-none (c ∷ s) at)
  | inr ((m', at'), on) ↦
      let (moved, ahead) = skip_step-lem m m' c s at at' a on in
      rw (skip, on)
        (Consumes-cons c s at _
          (subst (λ p. Consumes s p (skip m' s at')) moved (skip-Consumes m' s at' ahead)))
]

pub skip_whitespace-Consumes : (l : Lexer) → Consumes l.rest l.at (skip_whitespace l)
unfolding skip_whitespace
skip_whitespace-Consumes l = skip-Consumes between l.rest l.at tt

-- The loops of `skip_whitespace` stop at no newline.
abbrev pub at_line_end : Text → Bool
at_line_end [] = false
at_line_end (c ∷ s) = c == b'\n'

skip_step-stops :
    (m : Skip) (c : ℕ) (s : Text) (at : Position) → skip_step m c s at ≡ none → (c == b'\n') ≡ false
unfolding skip_step
skip_step-stops between c s at h = ground arith
skip_step-stops line_comment c s at h = ground arith
skip_step-stops opening c s at h = ground arith
skip_step-stops block_comment c s at h = ground arith
skip_step-stops closing c s at h = ground arith

skip-stops : (m : Skip) (s : Text) (at : Position) → at_line_end (skip m s at).rest ≡ false
unfolding skip
skip-stops m [] at = refl
skip-stops m (c ∷ s) at = elim (Option-cases (skip_step m c s at)) [
  | inl stop ↦ rw (skip, stop) (skip_step-stops m c s at stop)
  | inr ((m', at'), on) ↦ rw (skip, on) (skip-stops m' s at')
]

pub skip_whitespace-stops : (l : Lexer) → at_line_end (skip_whitespace l).rest ≡ false
unfolding skip_whitespace
skip_whitespace-stops l = skip-stops between l.rest l.at
