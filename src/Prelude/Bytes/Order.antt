-- ===== src/Prelude/Bytes/Order.antt =====
-- The order of byte strings that `memcmp` decides.
use my_pl.Prelude.{
  ℕ, ◌≡◌, refl, Ordering, Bool, true, false, List, [], ◌∷◌, arith, ltb, if◌then◌else◌, ◌==◌, not,
}

-- The sign of `memcmp` over strings of one length; a proper prefix counts as smaller.
unfoldable pub memcmp : List ℕ → List ℕ → Ordering
memcmp [] [] = Ordering.eq
memcmp [] (b ∷ bs) = Ordering.lt
memcmp (a ∷ xs) [] = Ordering.gt
memcmp (a ∷ xs) (b ∷ ys) =
    let rest = memcmp xs ys in if ltb a b then Ordering.lt else if a == b then rest else Ordering.gt

-- `memcmp(a, b, n) <= 0` and `memcmp(a, b, n) < 0`
abbrev pub leb_bytes : List ℕ → List ℕ → Bool
leb_bytes a b = elim (memcmp a b) [ Ordering.gt ↦ false | _ ↦ true ]

abbrev pub ltb_bytes : List ℕ → List ℕ → Bool
ltb_bytes a b = elim (memcmp a b) [ Ordering.lt ↦ true | _ ↦ false ]

pub memcmp_refl : (a : List ℕ) → memcmp a a ≡ Ordering.eq
unfolding memcmp
memcmp_refl [] = refl
memcmp_refl (x ∷ a) = ground (arith, memcmp_refl a)

pub memcmp-eq : (a b : List ℕ) → memcmp a b ≡ Ordering.eq → a ≡ b
unfolding memcmp
memcmp-eq [] [] h = refl
memcmp-eq [] (y ∷ b) h = cc
memcmp-eq (x ∷ a) [] h = cc
memcmp-eq (x ∷ a) (y ∷ b) h = ground (arith, memcmp-eq a b)

-- Exchanging the operands exchanges the signs.
abbrev pub swap_sign : Ordering → Ordering
swap_sign Ordering.lt = Ordering.gt
swap_sign Ordering.eq = Ordering.eq
swap_sign Ordering.gt = Ordering.lt

pub memcmp-swap : (a b : List ℕ) → memcmp b a ≡ swap_sign (memcmp a b)
unfolding memcmp
memcmp-swap [] [] = refl
memcmp-swap [] (y ∷ b) = refl
memcmp-swap (x ∷ a) [] = refl
memcmp-swap (x ∷ a) (y ∷ b) = ground (arith, memcmp-swap a b)

pub leb_bytes_refl : (a : List ℕ) → leb_bytes a a ≡ true
leb_bytes_refl a = ground (arith, memcmp_refl a)

pub leb_bytes_total : (a b : List ℕ) → leb_bytes a b ≡ false → leb_bytes b a ≡ true
leb_bytes_total a b h = ground (arith, memcmp-swap a b)

pub leb_bytes_trans :
    (a b c : List ℕ) → leb_bytes a b ≡ true → leb_bytes b c ≡ true → leb_bytes a c ≡ true
unfolding memcmp
leb_bytes_trans [] [] c h k = k
leb_bytes_trans [] (y ∷ b) [] h k = cc
leb_bytes_trans [] (y ∷ b) (z ∷ c) h k = refl
leb_bytes_trans (x ∷ a) [] c h k = cc
leb_bytes_trans (x ∷ a) (y ∷ b) [] h k = cc
leb_bytes_trans (x ∷ a) (y ∷ b) (z ∷ c) h k = ground (arith, leb_bytes_trans a b c)

-- `memcmp(a, b) > 0` is the strict order the other way round.
pub ltb_bytes-swap : (a b : List ℕ) → ltb_bytes b a ≡ not (leb_bytes a b)
ltb_bytes-swap a b = ground (arith, memcmp-swap a b)
