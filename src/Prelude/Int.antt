-- ===== src/Prelude/Int.antt =====
-- Signed integers over the native numbers, under the library's names, and the C `int` as a pattern
-- of 32 bits.
use my_pl.Prelude.{ℕ, suc, ◌+◌, ◌-◌, ◌%◌, ◌^◌, Bool, ltb, leb, if◌then◌else◌}

-- `negsuc n` is -(n + 1).
pub data ℤ : Type 0 where
  pos : ℕ → ℤ
  negsuc : ℕ → ℤ

abbrev pub pos_part : ℤ → ℕ
pos_part (pos n) = n
pos_part (negsuc n) = 0

abbrev neg_part : ℤ → ℕ
neg_part (pos n) = 0
neg_part (negsuc n) = suc n

-- a - b, as an integer.
abbrev sub_ℕ : ℕ → ℕ → ℤ
sub_ℕ a b = if leb b a then pos (a - b) else negsuc (b - a - 1)

infixl 65 ◌+ℤ◌ ◌-ℤ◌
unfoldable pub ◌+ℤ◌ : ℤ → ℤ → ℤ
a +ℤ b = sub_ℕ (pos_part a + pos_part b) (neg_part a + neg_part b)

unfoldable pub ◌-ℤ◌ : ℤ → ℤ → ℤ
a -ℤ b = sub_ℕ (pos_part a + neg_part b) (neg_part a + pos_part b)

abbrev pub ltb_ℤ : ℤ → ℤ → Bool
ltb_ℤ a b = ltb (pos_part a + neg_part b) (pos_part b + neg_part a)

-- An `int` or `int32_t` as its 32 bits, a number below 2 ^ 32. `bias` moves the signed order onto
-- the order of the numbers: it flips the top bit.
abbrev bias : ℕ → ℕ
bias w = (w + 2 ^ 31) % 2 ^ 32

-- a < b of two `int`s.
abbrev pub ltb_int : ℕ → ℕ → Bool
ltb_int a b = ltb (bias a) (bias b)

-- 0 < a of an `int`.
abbrev pub is_positive : ℕ → Bool
is_positive a = ltb_int 0 a

-- The integer that the 32 bits stand for.
abbrev pub signed32 : ℕ → ℤ
signed32 bits = if leb (2 ^ 31) bits then negsuc (2 ^ 32 - 1 - bits) else pos bits
