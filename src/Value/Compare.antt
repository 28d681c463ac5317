-- ===== src/Value/Compare.antt =====
-- The comparisons of src/value.c with one another.
use my_pl.Prelude.{ℕ, List, ◌≡◌, refl, sym, ap, ◌∙◌, Ordering, arith}
use my_pl.Prelude.Bytes.{memcmp, memcmp-eq, memcmp-swap, swap_sign}
use my_pl.Prelude.Int.{ℤ, pos, negsuc}
use my_pl.Value.{
  Doubles, Value, null, int, float, bool, string, date, timestamp, array, map, row, cursor, sign_of,
  is_lt, is_eq, is_gt, value_int, value_eq, value_lt, value_gt,
}

pub sign_of-swap : (a b : ℤ) → sign_of b a ≡ swap_sign (sign_of a b)
sign_of-swap (pos a) (pos b) = ground arith
sign_of-swap (pos a) (negsuc b) = ground arith
sign_of-swap (negsuc a) (pos b) = ground arith
sign_of-swap (negsuc a) (negsuc b) = ground arith

pub sign_of-eq : (a b : ℤ) → sign_of a b ≡ Ordering.eq → a ≡ b
sign_of-eq (pos a) (pos b) h = ground arith
sign_of-eq (pos a) (negsuc b) h = ground arith
sign_of-eq (negsuc a) (pos b) h = ground arith
sign_of-eq (negsuc a) (negsuc b) h = ground arith

is_gt-swap : (o : Ordering) → is_gt o ≡ is_lt (swap_sign o)
is_gt-swap Ordering.lt = refl
is_gt-swap Ordering.eq = refl
is_gt-swap Ordering.gt = refl

int_gt : (a b : ℤ) → is_gt (sign_of a b) ≡ is_lt (sign_of b a)
int_gt a b = is_gt-swap (sign_of a b) ∙ ap is_lt (sym (sign_of-swap a b))

text_gt : (s t : List ℕ) → is_gt (memcmp s t) ≡ is_lt (memcmp t s)
text_gt s t = is_gt-swap (memcmp s t) ∙ ap is_lt (sym (memcmp-swap s t))

module _ (D : Doubles) where
  -- `a > b` and `b < a` have one value, NULL included, on operands of any types.
  pub value_gt-value_lt : (a b : Value D) → value_gt D a b ≡ value_lt D b a
  unfolding value_gt value_lt
  value_gt-value_lt null b = grind (arith, int_gt, text_gt)
  value_gt-value_lt (int x) b = grind (arith, int_gt, text_gt)
  value_gt-value_lt (float x) b = grind (arith, int_gt, text_gt)
  value_gt-value_lt (bool x) b = grind (arith, int_gt, text_gt)
  value_gt-value_lt (string x) b = grind (arith, int_gt, text_gt)
  value_gt-value_lt (date x) b = grind (arith, int_gt, text_gt)
  value_gt-value_lt (timestamp x) b = grind (arith, int_gt, text_gt)
  value_gt-value_lt (array x) b = grind (arith, int_gt, text_gt)
  value_gt-value_lt (map x) b = grind (arith, int_gt, text_gt)
  value_gt-value_lt (row x) b = grind (arith, int_gt, text_gt)
  value_gt-value_lt (cursor x) b = grind (arith, int_gt, text_gt)

  -- Two operands that have an order: integers, strings or booleans.
  pub data Comparable : Value D → Value D → Type 0 where
    ints : (a b : ℤ) → Comparable (int a) (int b)
    bools : (a b : ℤ) → Comparable (bool a) (bool b)
    strings : (s t : List ℕ) → Comparable (string s) (string t)

  -- The values of `a < b`, `a == b` and `a > b`.
  abbrev pub relations : Value D → Value D → Value D × Value D × Value D
  relations a b = (value_lt D a b, value_eq D a b, value_gt D a b)

  abbrev pub only : Ordering → Value D × Value D × Value D
  only o = (value_int D (is_lt o), value_int D (is_eq o), value_int D (is_gt o))

  -- Of two integers, two booleans or two strings exactly one of `<`, `==` and `>` is 1 and the others
  -- are 0, and `==` is 1 only for equal operands.
  pub value_eq-trichotomy :
      {a b : Value D}
      → Comparable a b
      → (o : Ordering) × (relations a b ≡ only o) × (o ≡ Ordering.eq → a ≡ b)
  unfolding value_eq value_lt value_gt
  value_eq-trichotomy (ints a b) = (sign_of a b, refl, λ e. ap int (sign_of-eq a b e))
  value_eq-trichotomy (bools a b) = (sign_of a b, refl, λ e. ap bool (sign_of-eq a b e))
  value_eq-trichotomy (strings s t) = (memcmp s t, refl, λ e. ap string (memcmp-eq s t e))
