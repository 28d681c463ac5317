-- ===== src/Value/NextKey.antt =====
-- `map_next_key` of src/value.c among keys of one kind.
use my_pl.Prelude.{
  ℕ, ◌<◌, ◌^◌, ◌≡◌, ◌⊎◌, true, false, List, [], ◌∷◌, Option, none, some, Ordering, All,
}
use my_pl.Prelude.Bytes.{memcmp}
use my_pl.Prelude.Int.{ℤ, pos, negsuc}
use my_pl.Value.{Doubles, Value, int, string, is_lt, is_gt, sign_of, Entries}

pub data Kind : Type 0 where
  ints strings : Kind

-- Integers from -2 ^ 30 to 2 ^ 30 - 1, any two of which have a difference that fits an `int`.
abbrev pub IsSmall : ℤ → Type 0
IsSmall (pos n) = n < 2 ^ 30
IsSmall (negsuc n) = n < 2 ^ 30

module _ (D : Doubles) where
  pub data OfKind : Kind → Value D → Type 0 where
    an_int : (a : ℤ) → IsSmall a → OfKind ints (int a)
    a_string : (s : List ℕ) → OfKind strings (string s)

  -- The order of two keys of one kind: of the integers, or of the texts byte for byte.
  abbrev pub key_order : Value D → Value D → Ordering
  key_order (int a) (int b) = sign_of a b
  key_order (string s) (string t) = memcmp s t
  key_order _ _ = Ordering.eq

  -- The second key does not come before the first.
  abbrev Below : Value D → Value D → Type 0
  Below a b = is_lt (key_order b a) ≡ false

  abbrev AllOf : Kind → Entries D → Type 0
  AllOf κ es = All (λ (e : Value D × Value D). OfKind κ e.0) es

  -- A key of the entries.
  abbrev HasKey : Value D → Entries D → Type 0
  HasKey d [] = ⊥
  HasKey d ((k, v) ∷ es) = (d ≡ k) ⊎ HasKey d es

  -- `d` is no greater than the keys that are greater than `key`.
  abbrev IsLeast : Value D → Value D → Entries D → Type 0
  IsLeast key d es =
      All (λ (e : Value D × Value D). is_gt (key_order e.0 key) ≡ true → Below d e.0) es

  -- What `map_next_key` should answer: the least of the keys that are greater, if there is one.
  abbrev pub IsNext : Value D → Entries D → Option (Value D) → Type 0
  IsNext key es none = All (λ (e : Value D × Value D). is_gt (key_order e.0 key) ≡ false) es
  IsNext key es (some d) = HasKey d es × (is_gt (key_order d key) ≡ true) × IsLeast key d es

  -- The loop with a candidate `c`.
  module _ (κ : Kind) (key : Value D) where
    abbrev Better : Value D → Entries D → Option (Value D) → Type 0
    Better c es none = ⊥
    Better c es (some d) =
        ((d ≡ c) ⊎ HasKey d es)
        × (is_gt (key_order d key) ≡ true)
        × OfKind κ d
        × Below d c
        × IsLeast key d es
