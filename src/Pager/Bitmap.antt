-- ===== src/Pager/Bitmap.antt =====
-- The bitmap operations of src/pager.c act on the one bit that they name.
use my_pl.Prelude.{
  ℕ, ◌*◌, ◌/◌, ◌%◌, ◌<◌, ◌≡◌, inl, inr, Bool-cases, refl, Bool, true, List, [], ◌∷◌, zero, suc,
  ◌==◌, ltb, if◌then◌else◌, ◌&&◌, arith, All, get_or, set, length, get_or-set_self, get_or-set_ne,
  length-set,
}
use my_pl.Prelude.Bytes.{IsByte}
use my_pl.Prelude.Finite.{every, every-lt}
use my_pl.Pager.{byte_test, byte_set, byte_clear, bitmap_set, bitmap_clear, bitmap_test}

-- Every byte and every pair of bits.
abbrev byte_laws : ℕ → ℕ → ℕ → Bool
byte_laws j k b =
    (byte_test (byte_set b k) j == (if j == k then 1 else byte_test b j))
    && (byte_test (byte_clear b k) j == (if j == k then 0 else byte_test b j))
    && ltb (byte_set b k) 256
    && ltb (byte_clear b k) 256

byte_laws_table : every (λ j. every (λ k. every (byte_laws j k) 256) 8) 8 ≡ true
unfolding every byte_test byte_set byte_clear
byte_laws_table = refl

byte_laws_hold : (j k b : ℕ) → j < 8 → k < 8 → b < 256 → byte_laws j k b ≡ true
byte_laws_hold j k b hj hk hb = every-lt (byte_laws j k) b hb (
    every-lt (λ k'. every (byte_laws j k') 256) k hk
      (every-lt (λ j'. every (λ k'. every (byte_laws j' k') 256) 8) j hj byte_laws_table))

get_or-IsByte : (bm : List ℕ) (i : ℕ) → All IsByte bm → get_or bm i 0 < 256
get_or-IsByte [] i h = omega arith
get_or-IsByte (x ∷ bm) zero h = h.0
get_or-IsByte (x ∷ bm) (suc i) h = get_or-IsByte bm i h.1

set-IsByte : (bm : List ℕ) (i v : ℕ) → All IsByte bm → v < 256 → All IsByte (set bm i v)
set-IsByte [] i v h k = tt
set-IsByte (x ∷ bm) zero v h k = (k, h.1)
set-IsByte (x ∷ bm) (suc i) v h k = (h.0, set-IsByte bm i v h.1 k)

module _ (bm : List ℕ) (i j : ℕ) (bytes : All IsByte bm) where
  -- Bits of one byte are read off the table, bits of two bytes do not meet.
  pub bitmap_test-bitmap_set :
      i < 8 * length bm → bitmap_test (bitmap_set bm i) j ≡ (if j == i then 1 else bitmap_test bm j)
  unfolding bitmap_test bitmap_set
  bitmap_test-bitmap_set h = elim (Bool-cases (j / 8 == i / 8)) [
    | inl same ↦ ground (
      arith,
      byte_laws_hold (j % 8) (i % 8) (get_or bm (i / 8) 0) (omega arith) (omega arith)
          (get_or-IsByte bm (i / 8) bytes),
      get_or-set_self bm (i / 8) (byte_set (get_or bm (i / 8) 0) (i % 8)) 0 (omega arith),
    )
    | inr other ↦
        ground (
          arith,
          get_or-set_ne bm {i = i / 8} {j = j / 8} (byte_set (get_or bm (i / 8) 0) (i % 8)) 0,
        )
  ]

  pub bitmap_test-bitmap_clear :
      i < 8 * length bm
      → bitmap_test (bitmap_clear bm i) j ≡ (if j == i then 0 else bitmap_test bm j)
  unfolding bitmap_test bitmap_clear
  bitmap_test-bitmap_clear h = elim (Bool-cases (j / 8 == i / 8)) [
    | inl same ↦ ground (
      arith,
      byte_laws_hold (j % 8) (i % 8) (get_or bm (i / 8) 0) (omega arith) (omega arith)
          (get_or-IsByte bm (i / 8) bytes),
      get_or-set_self bm (i / 8) (byte_clear (get_or bm (i / 8) 0) (i % 8)) 0 (omega arith),
    )
    | inr other ↦ ground (
      arith,
      get_or-set_ne bm {i = i / 8} {j = j / 8} (byte_clear (get_or bm (i / 8) 0) (i % 8)) 0,
    )
  ]

pub bitmap_set-IsByte : (bm : List ℕ) (i : ℕ) → All IsByte bm → All IsByte (bitmap_set bm i)
unfolding bitmap_set
bitmap_set-IsByte bm i bytes = set-IsByte bm (i / 8) _ bytes (
    ground (
      arith,
      byte_laws_hold 0 (i % 8) (get_or bm (i / 8) 0) (omega arith) (omega arith)
          (get_or-IsByte bm (i / 8) bytes),
    ))

pub bitmap_clear-IsByte : (bm : List ℕ) (i : ℕ) → All IsByte bm → All IsByte (bitmap_clear bm i)
unfolding bitmap_clear
bitmap_clear-IsByte bm i bytes = set-IsByte bm (i / 8) _ bytes (
    ground (
      arith,
      byte_laws_hold 0 (i % 8) (get_or bm (i / 8) 0) (omega arith) (omega arith)
          (get_or-IsByte bm (i / 8) bytes),
    ))

pub length-bitmap_set : (bm : List ℕ) (i : ℕ) → length (bitmap_set bm i) ≡ length bm
unfolding bitmap_set
length-bitmap_set bm i = length-set bm (i / 8) _

pub length-bitmap_clear : (bm : List ℕ) (i : ℕ) → length (bitmap_clear bm i) ≡ length bm
unfolding bitmap_clear
length-bitmap_clear bm i = length-set bm (i / 8) _
