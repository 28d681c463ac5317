-- ===== src/Sql/Cells.antt =====
-- src/sql_engine.c, `cell_compare`: the order of two cells in conditions, sorting and grouping. The
-- arithmetic of `double` is a parameter, and so are the bits that the union of a cell shows as an
-- `int` when the cell holds something else.
use my_pl.Prelude.{
  ℕ, ◌+◌, ◌-◌, ◌%◌, ◌^◌, Bool, true, false, List, [], Option, none, some, ◌==◌, if◌then◌else◌,
  Ordering,
}
use my_pl.Prelude.Int.{ltb_int, is_positive}
use my_pl.Prelude.Bytes.{memcmp}
use my_pl.BTree.Key.{Cell, null, int, bool, float, string, date, timestamp}

pub record Numbers : Type 0 where
  -- `a < b` on doubles, and `(double)v`.
  pub lt_float : ℕ → ℕ → Bool
  pub float_of_int : ℕ → ℕ
  -- `as_int` of a cell that is neither an integer nor a boolean.
  pub int_bits : Cell → ℕ

unfoldable pub as_int : Numbers → Cell → ℕ
as_int num (int v) = v
as_int num (bool v) = v
as_int num cell = num.int_bits cell

abbrev as_double : Numbers → Cell → ℕ
as_double num (float u) = u
as_double num cell = num.float_of_int (as_int num cell)

abbrev order_by {ℓ} : {A : Type ℓ} → (A → A → Bool) → A → A → Ordering
order_by lt a b = if lt a b then Ordering.lt else if lt b a then Ordering.gt else Ordering.eq

-- The sign of `a - b` on 32 bits.
abbrev difference_sign : ℕ → ℕ → Ordering
difference_sign a b =
    let d = (a + 2 ^ 32 - b) % 2 ^ 32 in
    if d == 0 then Ordering.eq else if is_positive d then Ordering.gt else Ordering.lt

-- The text of a cell that owns one; a NULL pointer counts as the empty text.
abbrev pub text_or_empty : Option (List ℕ) → List ℕ
text_or_empty none = []
text_or_empty (some s) = s

unfoldable pub owned_text : Cell → Option (List ℕ)
owned_text (string s) = some (text_or_empty s)
owned_text (date s) = some (text_or_empty s)
owned_text (timestamp s) = some (text_or_empty s)
owned_text cell = none

abbrev is_float : Cell → Bool
is_float (float u) = true
is_float cell = false

-- The end of the function: a double beside anything, and what is left compares as equal.
unfoldable compare_mixed : Numbers → Cell → Cell → Ordering
unfolding as_int
compare_mixed num a b =
    if (if is_float a then true else is_float b)
    then order_by num.lt_float (as_double num a) (as_double num b)
    else Ordering.eq

unfoldable compare_texts : Numbers → Cell → Cell → Option (List ℕ) → Option (List ℕ) → Ordering
unfolding compare_mixed
compare_texts num a b (some s) (some t) = memcmp s t
compare_texts num a b none t = compare_mixed num a b
compare_texts num a b (some s) none = compare_mixed num a b

unfoldable pub cell_compare : Numbers → Cell → Cell → Ordering
unfolding compare_texts owned_text
cell_compare num null null = Ordering.eq
cell_compare num null b = Ordering.lt
cell_compare num a null = Ordering.gt
cell_compare num (int v) (int w) = order_by ltb_int v w
cell_compare num (float u) (float v) = order_by num.lt_float u v
cell_compare num (bool v) (bool w) = difference_sign v w
cell_compare num (bool v) (int w) = difference_sign v w
cell_compare num (int v) (bool w) = difference_sign v w
cell_compare num a b = compare_texts num a b (owned_text a) (owned_text b)
