-- ===== src/Prelude/Bytes.antt =====
-- Byte strings: `memcmp`, and the little-endian layout in which `memcpy` stores a 16-bit or 32-bit
-- number on the platforms that the program is built for.
mod Order
use my_pl.Prelude.{ℕ, ◌+◌, ◌*◌, ◌/◌, ◌%◌, ◌^◌, ◌<◌, ◌≡◌, List, [], ◌∷◌, ◌++◌, get_or, arith}
unfoldable pub use Order.*

abbrev pub IsByte : ℕ → Type 0
IsByte b = b < 256

abbrev pub u16_bytes : ℕ → List ℕ
u16_bytes w = w % 256 ∷ w / 256 % 256 ∷ []

abbrev pub u32_bytes : ℕ → List ℕ
u32_bytes w = w % 256 ∷ w / 256 % 256 ∷ w / 65536 % 256 ∷ w / 16777216 % 256 ∷ []

-- The number stored at the front of the bytes.
abbrev pub bytes_u16 : List ℕ → ℕ
bytes_u16 bs = get_or bs 0 0 + 256 * get_or bs 1 0

abbrev pub bytes_u32 : List ℕ → ℕ
bytes_u32 bs =
    get_or bs 0 0 + 256 * get_or bs 1 0 + 65536 * get_or bs 2 0 + 16777216 * get_or bs 3 0

bytes_u16-u16_bytes : (w : ℕ) (bs : List ℕ) → w < 2 ^ 16 → bytes_u16 (u16_bytes w ++ bs) ≡ w
bytes_u16-u16_bytes w bs h = omega arith

pub bytes_u32-u32_bytes : (w : ℕ) (bs : List ℕ) → w < 2 ^ 32 → bytes_u32 (u32_bytes w ++ bs) ≡ w
bytes_u32-u32_bytes w bs h = omega arith
