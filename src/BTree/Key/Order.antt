-- ===== src/BTree/Key/Order.antt =====
-- `encode_key` keeps the order of the cells.
use my_pl.Prelude.{
  ℕ, zero, suc, ◌/◌, ◌%◌, ◌^◌, ◌≤◌, ◌<◌, ◌≡◌, refl, ap, ◌∙◌, Bool, true, false, List, [], ◌∷◌, ◌++◌,
  Ordering, Option, some, length, All, arith, ltb, leb, if◌then◌else◌, ◌==◌,
}
use my_pl.Prelude.Int.{ltb_ℤ, signed32}
use my_pl.Prelude.Bytes.{memcmp, leb_bytes, ltb_bytes, memcmp_refl}
use my_pl.BTree.Key.{
  Cell, null, int, bool, float, string, date, timestamp, other, key_size, string_key_bytes,
  flip_sign, order_bits, be32, be64, padded, encode_key,
}

length-padded : (n : ℕ) (s : List ℕ) → length (padded n s) ≡ n
unfolding padded
length-padded zero s = refl
length-padded (suc n) [] = ap suc (length-padded n [])
length-padded (suc n) (c ∷ s) = ap suc (length-padded n s)

-- Every key fills the array of `BTREE_KEY_SIZE` bytes exactly.
pub length-encode_key : (c : Cell) → length (encode_key c) ≡ key_size
unfolding encode_key
length-encode_key null = ap suc (length-padded string_key_bytes [])
length-encode_key (int v) = ap suc (length-padded string_key_bytes (be32 (flip_sign v)))
length-encode_key (bool v) = ap suc (length-padded string_key_bytes (be32 (flip_sign v)))
length-encode_key (float u) = ap suc (length-padded string_key_bytes (be64 (order_bits u)))
length-encode_key (string _) = ap suc (length-padded string_key_bytes _)
length-encode_key (date _) = ap suc (length-padded string_key_bytes _)
length-encode_key (timestamp _) = ap suc (length-padded string_key_bytes _)
length-encode_key (other _) = ap suc (length-padded string_key_bytes [])

-- The sign of a comparison that goes on with `rest` where the numbers are equal.
abbrev select : ℕ → ℕ → Ordering → Ordering
select u v rest = if ltb u v then Ordering.lt else if u == v then rest else Ordering.gt

select-digit :
    (u v u' v' : ℕ) (rest : Ordering)
    → u' ≡ u / 256
    → v' ≡ v / 256
    → select u' v' (select (u % 256) (v % 256) rest) ≡ select u v rest
select-digit u v u' v' rest hu hv = ground arith

memcmp-cons : (a b : ℕ) (xs ys : List ℕ) → memcmp (a ∷ xs) (b ∷ ys) ≡ select a b (memcmp xs ys)
unfolding memcmp
memcmp-cons a b xs ys = refl

-- The big-endian bytes of numbers compare as the numbers do.
memcmp-be32 :
    (u v : ℕ) (r s : List ℕ)
    → u < 2 ^ 32
    → v < 2 ^ 32
    → memcmp (be32 u ++ r) (be32 v ++ s) ≡ select u v (memcmp r s)
unfolding memcmp
memcmp-be32 u v r s hu hv =
    select-digit (u / 2 ^ 16) (v / 2 ^ 16) (u / 2 ^ 24 % 256) (v / 2 ^ 24 % 256) _ (omega arith)
      (omega arith)
    ∙ select-digit (u / 2 ^ 8) (v / 2 ^ 8) (u / 2 ^ 16) (v / 2 ^ 16) _ (omega arith) (omega arith)
    ∙ select-digit u v (u / 2 ^ 8) (v / 2 ^ 8) (memcmp r s) (omega arith) (omega arith)

be32_low : (u : ℕ) → be32 u ≡ be32 (u % 2 ^ 32)
be32_low u = ground arith

select-low :
    (u v : ℕ) (rest : Ordering)
    → select (u / 2 ^ 32) (v / 2 ^ 32) (select (u % 2 ^ 32) (v % 2 ^ 32) rest) ≡ select u v rest
select-low u v rest = ground arith

memcmp-be64 :
    (u v : ℕ) (r s : List ℕ)
    → u < 2 ^ 64
    → v < 2 ^ 64
    → memcmp (be64 u ++ r) (be64 v ++ s) ≡ select u v (memcmp r s)
memcmp-be64 u v r s hu hv =
    memcmp-be32 (u / 2 ^ 32) (v / 2 ^ 32) (be32 u ++ r) (be32 v ++ s) (omega arith) (omega arith)
    ∙ ap (select (u / 2 ^ 32) (v / 2 ^ 32)) (
        ap (λ t. memcmp (t ++ r) (be32 v ++ s)) (be32_low u)
        ∙ ap (λ t. memcmp (be32 (u % 2 ^ 32) ++ r) (t ++ s)) (be32_low v)
        ∙ memcmp-be32 (u % 2 ^ 32) (v % 2 ^ 32) r s (omega arith) (omega arith))
    ∙ select-low u v (memcmp r s)

padded-be32 : (n u : ℕ) → padded (suc (suc (suc (suc n)))) (be32 u) ≡ be32 u ++ padded n []
unfolding padded
padded-be32 n u = refl

-- Keys of integers, by their 32 bits, compare as the signed integers do, and are equal only for
-- equal integers.
pub encode_key-int :
    (a b : ℕ)
    → a < 2 ^ 32
    → b < 2 ^ 32
    → memcmp (encode_key (int a)) (encode_key (int b)) ≡ (
        if ltb_ℤ (signed32 a) (signed32 b)
        then Ordering.lt
        else if a == b
        then Ordering.eq
        else Ordering.gt)
unfolding encode_key
encode_key-int a b ha hb =
    memcmp-cons 1 1 _ _
    ∙ memcmp-be32 (flip_sign a) (flip_sign b) (padded 32 []) (padded 32 []) (ground arith)
        (ground arith)
    ∙ ground (arith, memcmp_refl (padded 32 []))

-- The order of doubles by their bits: negative before positive, and by magnitude towards the sign.
abbrev is_negative_float : ℕ → Bool
is_negative_float u = leb (2 ^ 63) u

abbrev magnitude : ℕ → ℕ
magnitude u = u % 2 ^ 63

abbrev pub ltb_float : ℕ → ℕ → Bool
ltb_float a b =
    if is_negative_float a
    then (if is_negative_float b then ltb (magnitude b) (magnitude a) else true)
    else (if is_negative_float b then false else ltb (magnitude a) (magnitude b))

-- Keys of doubles, by their 64 bits, compare by sign and magnitude, and are equal only for equal
-- bits.
pub encode_key-float :
    (a b : ℕ)
    → a < 2 ^ 64
    → b < 2 ^ 64
    → memcmp (encode_key (float a)) (encode_key (float b))
      ≡ (if ltb_float a b then Ordering.lt else if a == b then Ordering.eq else Ordering.gt)
unfolding encode_key
encode_key-float a b ha hb =
    memcmp-cons 2 2 _ _
    ∙ memcmp-be64 (order_bits a) (order_bits b) (padded 28 []) (padded 28 []) (ground arith)
        (ground arith)
    ∙ ground (arith, memcmp_refl (padded 28 []))

-- A text of C has no NUL inside.
abbrev IsText : List ℕ → Type 0
IsText = All (λ c. 0 < c)

padded_mono :
    (n : ℕ) (s t : List ℕ) → leb_bytes s t ≡ true → leb_bytes (padded n s) (padded n t) ≡ true
unfolding memcmp padded
padded_mono zero s t h = refl
padded_mono (suc n) [] [] h = ground (arith, padded_mono n [] [])
padded_mono (suc n) [] (y ∷ t) h = ground (arith, padded_mono n [] t (nil_le t))
  where
    nil_le : (t : List ℕ) → leb_bytes [] t ≡ true
    nil_le [] = refl
    nil_le (y ∷ t) = refl
padded_mono (suc n) (x ∷ s) [] h = cc
padded_mono (suc n) (x ∷ s) (y ∷ t) h = ground (arith, padded_mono n s t)

-- The truncation of texts to the bytes of a key is monotone, whatever their lengths: a text that is
-- not greater never has a greater key.
pub encode_key-string_mono :
    (s t : List ℕ)
    → leb_bytes s t ≡ true
    → leb_bytes (encode_key (string (some s))) (encode_key (string (some t))) ≡ true
unfolding encode_key memcmp
encode_key-string_mono s t h = ground (arith, padded_mono string_key_bytes s t h)

padded-eq :
    (n : ℕ) (s t : List ℕ)
    → IsText s
    → IsText t
    → length s ≤ n
    → length t ≤ n
    → memcmp (padded n s) (padded n t) ≡ memcmp s t
unfolding memcmp padded
padded-eq zero [] [] hs ht a b = refl
padded-eq zero (x ∷ s) t hs ht a b = absurd (omega arith)
padded-eq zero [] (y ∷ t) hs ht a b = absurd (omega arith)
padded-eq (suc n) [] [] hs ht a b = ground (arith, padded-eq n [] [] tt tt)
padded-eq (suc n) [] (y ∷ t) hs ht a b = ground arith
padded-eq (suc n) (x ∷ s) [] hs ht a b = ground arith
padded-eq (suc n) (x ∷ s) (y ∷ t) hs ht a b = ground (arith, padded-eq n s t)

-- Keys of texts of at most 36 bytes without a NUL compare as the texts do.
pub encode_key-string_short :
    (s t : List ℕ)
    → IsText s
    → IsText t
    → length s ≤ string_key_bytes
    → length t ≤ string_key_bytes
    → memcmp (encode_key (string (some s))) (encode_key (string (some t))) ≡ memcmp s t
unfolding encode_key
encode_key-string_short s t hs ht a b =
    memcmp-cons 3 3 _ _ ∙ padded-eq string_key_bytes s t hs ht a b

-- The key spaces follow one another: NULL, integers and booleans, doubles, texts.
encode_key_spaces :
    (v u : ℕ) (s : Option (List ℕ))
    → (ltb_bytes (encode_key null) (encode_key (int v)) ≡ true)
      × (ltb_bytes (encode_key (int v)) (encode_key (float u)) ≡ true)
      × (ltb_bytes (encode_key (float u)) (encode_key (string s)) ≡ true)
unfolding encode_key memcmp
encode_key_spaces v u s = (refl, refl, refl)
