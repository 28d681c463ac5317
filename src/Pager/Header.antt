-- ===== src/Pager/Header.antt =====
-- The header page: `write_header`, `read_header`, `pager_open` and `pager_close`.
use my_pl.Prelude.{
  ℕ, ◌/◌, ltb, ◌∙◌, false, get_or, ◌^◌, ◌<◌, ◌≡◌, refl, List, [], ◌∷◌, zero, suc, ap, some, arith,
  All, length, take, ◌==◌, if◌then◌else◌, length-replicate, replicate,
}
use my_pl.Prelude.Bytes.{memcmp, IsByte}
use my_pl.Pager.{
  File, Pager, page_size, bitmap_bytes, bitmap_set, bitmap_test, header, write_header, parse_header,
  read_header, pager_open, pager_close, os_read, os_write, blank, empty_bitmap,
}
use my_pl.Pager.Alloc.{IsValid}
use my_pl.Pager.Bitmap.{bitmap_test-bitmap_set, bitmap_set-IsByte, length-bitmap_set}
use my_pl.Pager.Pages.{Fits}

take_all : (n : ℕ) (xs : List ℕ) → length xs ≡ n → take n xs ≡ xs
take_all zero [] h = refl
take_all zero (x ∷ xs) h = absurd (omega arith)
take_all (suc n) [] h = refl
take_all (suc n) (x ∷ xs) h = ap (◌∷◌ x) (take_all n xs (omega arith))

parse_header-header :
    (q p : Pager)
    → length p.bitmap ≡ bitmap_bytes
    → p.page_count < 2 ^ 32
    → parse_header q (header p) ≡ some (record q { page_count = p.page_count; bitmap = p.bitmap })
unfolding parse_header header memcmp
parse_header-header q p h c = ground (arith, take_all bitmap_bytes p.bitmap h)

os_read-os_write : (f : File) (n : ℕ) (bytes : List ℕ) → os_read (os_write f n bytes) n ≡ some bytes
os_read-os_write f n bytes = ground arith

read_header-eq :
    (p : Pager) {bytes : List ℕ}
    → os_read p.file 0 ≡ some bytes
    → read_header p ≡ parse_header p bytes
unfolding read_header
read_header-eq p h = rw (read_header, h)

pager_open-nonempty : (f : File) → (f.size == 0) ≡ false → pager_open f ≡ read_header (blank f)
unfolding pager_open
pager_open-nonempty f h = rw h

-- A valid pager that was closed opens again with its page count and bitmap, over the file as it
-- was closed.
pub pager_open-pager_close :
    (p : Pager) → IsValid p → pager_open (pager_close p) ≡ some (record p { file = pager_close p })
unfolding pager_close write_header
pager_open-pager_close p v =
    pager_open-nonempty (os_write p.file 0 (header p)) (ground arith)
    ∙ read_header-eq (blank (os_write p.file 0 (header p))) (os_read-os_write p.file 0 (header p))
    ∙ parse_header-header _ p v.bitmap_length (omega (arith, v.count_le))

replicate-IsByte : (n : ℕ) → All IsByte (replicate n 0)
replicate-IsByte zero = tt
replicate-IsByte (suc n) = (omega arith, replicate-IsByte n)

get_or-replicate : (n i : ℕ) → get_or {A = ℕ} (replicate n 0) i 0 ≡ 0
get_or-replicate zero i = refl
get_or-replicate (suc n) zero = refl
get_or-replicate (suc n) (suc i) = get_or-replicate n i

empty_bitmap-IsByte : All IsByte empty_bitmap
unfolding empty_bitmap
empty_bitmap-IsByte = replicate-IsByte bitmap_bytes

length-empty_bitmap : length empty_bitmap ≡ bitmap_bytes
unfolding empty_bitmap
length-empty_bitmap = length-replicate {A = ℕ} bitmap_bytes 0

bitmap_test-empty_bitmap : (j : ℕ) → bitmap_test empty_bitmap j ≡ 0
unfolding bitmap_test empty_bitmap
bitmap_test-empty_bitmap j = omega (arith, get_or-replicate bitmap_bytes (j / 8))

abbrev new_bitmap : List ℕ
new_bitmap = bitmap_set (bitmap_set empty_bitmap 0) 1

bitmap_test-new_bitmap : (j : ℕ) → bitmap_test new_bitmap j ≡ (if ltb j 2 then 1 else 0)
bitmap_test-new_bitmap j = ground (
  arith,
  bitmap_test-bitmap_set (bitmap_set empty_bitmap 0) 1 j
      (bitmap_set-IsByte empty_bitmap 0 empty_bitmap-IsByte)
      (omega (arith, length-bitmap_set empty_bitmap 0, length-empty_bitmap)),
  bitmap_test-bitmap_set empty_bitmap 0 j empty_bitmap-IsByte (omega (arith, length-empty_bitmap)),
  bitmap_test-empty_bitmap j,
)

abbrev pub new_pager : File → Pager
new_pager f = record (blank f) { page_count = 2; bitmap = new_bitmap }

pager_open-empty : (f : File) → f.size ≡ 0 → pager_open f ≡ some (write_header (new_pager f))
unfolding pager_open
pager_open-empty f e = rw e

pub new_pager-IsValid :
    (f : File)
    → f.size ≡ 0
    → IsValid (write_header (new_pager f)) × Fits (write_header (new_pager f))
unfolding write_header
new_pager-IsValid f e = (
  record {
    bitmap_length = omega (
      arith,
      length-bitmap_set (bitmap_set empty_bitmap 0) 1,
      length-bitmap_set empty_bitmap 0,
      length-empty_bitmap,
    );
    bitmap_is_bytes = bitmap_set-IsByte _ 1 (bitmap_set-IsByte empty_bitmap 0 empty_bitmap-IsByte);
    count_pos = omega arith;
    count_le = omega arith;
    header_in_use = bitmap_test-new_bitmap 0;
    in_use_lt_count = λ j h u. ground (arith, bitmap_test-new_bitmap j);
  },
  record { whole_pages = omega (arith, e); size_le = omega (arith, e) },
)

-- A file of no bytes opens as a new database: a valid pager of two pages, both in use, whose
-- file holds nothing but the header page.
pub pager_open-new :
    (f : File)
    → f.size ≡ 0
    → (p : Pager) × (pager_open f ≡ some p)
      × IsValid p
      × Fits p
      × (p.page_count ≡ 2)
      × ((j : ℕ) → bitmap_test p.bitmap j ≡ (if ltb j 2 then 1 else 0))
      × (p.file.size ≡ page_size)
unfolding write_header
pager_open-new f e = (
  write_header (new_pager f),
  pager_open-empty f e,
  (new_pager-IsValid f e).0,
  (new_pager-IsValid f e).1,
  refl,
  bitmap_test-new_bitmap,
  omega arith,
)
