-- ===== src/Lexer/Scan/Columns.antt =====
-- The offset, the line and the column that src/lexer.c has reached behind a text.
use my_pl.Prelude.{
  ℕ, ◌+◌, ◌-◌, ◌≤◌, [], ◌∷◌, ◌==◌, if◌then◌else◌, ◌≡◌, refl, sym, ap, ◌∙◌, Bool-cases, inl, inr,
  arith, length,
}
use my_pl.Prelude.Int.{ℤ, pos, negsuc, ◌+ℤ◌}
use my_pl.Lexer.Token.{Text}
use my_pl.Lexer.Scan.{Position}
use my_pl.Lexer.Scan.Consume.{past, past_all}

-- The newlines of a text; the columns behind a text that begins `n` columns after its line's start.
abbrev pub newlines : Text → ℕ
newlines [] = 0
newlines (c ∷ s) = if c == b'\n' then 1 + newlines s else newlines s

abbrev pub columns : Text → ℕ → ℕ
columns [] n = n
columns (c ∷ s) n = if c == b'\n' then columns s 0 else columns s (n + 1)

pub past_all-offset : (s : Text) (at : Position) → (past_all s at).offset ≡ at.offset + length s
unfolding past_all
past_all-offset [] at = omega arith
past_all-offset (c ∷ s) at = ground (arith, past_all-offset s (past c at))

+ℤ-next : (a : ℤ) (n : ℕ) → (a +ℤ pos 1) +ℤ pos n ≡ a +ℤ pos (1 + n)
unfolding ◌+ℤ◌
+ℤ-next (pos a) n = ground arith
+ℤ-next (negsuc a) n = ground arith

+ℤ-zero : (a : ℤ) → a +ℤ pos 0 ≡ a
unfolding ◌+ℤ◌
+ℤ-zero (pos a) = ground arith
+ℤ-zero (negsuc a) = ground arith

pub past_all-line : (s : Text) (at : Position) → (past_all s at).line ≡ at.line +ℤ pos (newlines s)
unfolding past_all
past_all-line [] at = sym (+ℤ-zero at.line)
past_all-line (c ∷ s) at = elim (Bool-cases (c == b'\n')) [
  | inl new ↦ rw new (past_all-line s (past c at) ∙ rw new (+ℤ-next at.line (newlines s)))
  | inr old ↦ rw old (past_all-line s (past c at) ∙ rw old refl)
]

pub past_all-start :
    (s : Text) (at : Position)
    → at.line_start ≤ at.offset
    → (past_all s at).line_start ≤ (past_all s at).offset
unfolding past_all
past_all-start [] at h = h
past_all-start (c ∷ s) at h = past_all-start s (past c at) (ground arith)

pub past_all-column :
    (s : Text) (at : Position)
    → at.line_start ≤ at.offset
    → (past_all s at).offset - (past_all s at).line_start ≡ columns s (at.offset - at.line_start)
unfolding past_all
past_all-column [] at h = refl
past_all-column (c ∷ s) at h = elim (Bool-cases (c == b'\n')) [
  | inl new ↦
      rw new (
        past_all-column s (past c at) (rw new (omega arith))
        ∙ rw new (ap (columns s) (omega arith)))
  | inr old ↦
      rw old (
        past_all-column s (past c at) (rw old (omega arith))
        ∙ rw old (ap (columns s) (omega arith)))
]
