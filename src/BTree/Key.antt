-- ===== src/BTree/Key.antt =====
-- src/btree.c, `encode_key`: the fixed-width byte strings under which cells are indexed.
pub mod Order
use my_pl.Prelude.{
  ℕ, zero, suc, ◌+◌, ◌-◌, ◌/◌, ◌%◌, ◌^◌, Bool, List, [], ◌∷◌, ◌++◌, Option, none, some, ltb,
  if◌then◌else◌, replicate,
}

abbrev pub string_key_bytes : ℕ
string_key_bytes = 36

abbrev pub key_size : ℕ
key_size = 1 + string_key_bytes

-- A cell that is not a NULL pointer. Numbers are their bits: 32 of an `int`, 64 of a `double`; a
-- text is its bytes before the NUL, `none` for a NULL pointer; `other` is any further type tag, its number.
pub data Cell : Type 0 where
  null : Cell
  int : ℕ → Cell
  bool : ℕ → Cell
  float : ℕ → Cell
  string : Option (List ℕ) → Cell
  date : Option (List ℕ) → Cell
  timestamp : Option (List ℕ) → Cell
  other : ℕ → Cell

-- `u ^ 0x80000000`: the top bit flipped.
abbrev pub flip_sign : ℕ → ℕ
flip_sign u = if ltb u (2 ^ 31) then u + 2 ^ 31 else u - 2 ^ 31

-- `~u` of a negative double, the sign bit set of any other.
abbrev pub order_bits : ℕ → ℕ
order_bits u = if ltb u (2 ^ 63) then u + 2 ^ 63 else 2 ^ 64 - 1 - u

abbrev pub be32 : ℕ → List ℕ
be32 u = u / 2 ^ 24 % 256 ∷ u / 2 ^ 16 % 256 ∷ u / 2 ^ 8 % 256 ∷ u % 256 ∷ []

abbrev pub be64 : ℕ → List ℕ
be64 u = be32 (u / 2 ^ 32) ++ be32 u

-- `memset(out, 0, n)` and `memcpy(out, s, min(strlen(s), n))`.
unfoldable pub padded : ℕ → List ℕ → List ℕ
padded zero s = []
padded (suc n) [] = 0 ∷ padded n []
padded (suc n) (c ∷ s) = c ∷ padded n s

abbrev text_of : Option (List ℕ) → List ℕ
text_of none = []
text_of (some s) = s

unfoldable pub encode_key : Cell → List ℕ
unfolding padded
encode_key null = 0 ∷ padded string_key_bytes []
encode_key (int v) = 1 ∷ padded string_key_bytes (be32 (flip_sign v))
encode_key (bool v) = 1 ∷ padded string_key_bytes (be32 (flip_sign v))
encode_key (float u) = 2 ∷ padded string_key_bytes (be64 (order_bits u))
encode_key (string s) = 3 ∷ padded string_key_bytes (text_of s)
encode_key (date s) = 3 ∷ padded string_key_bytes (text_of s)
encode_key (timestamp s) = 3 ∷ padded string_key_bytes (text_of s)
encode_key (other type) = 3 ∷ padded string_key_bytes []
