-- ===== src/Pager.antt =====
-- src/pager.c: pages of a database file, and the bitmap of the pages in use. The file is a size in
-- bytes and the content of its pages; the wrappers of src/os.c around pread and pwrite are taken to
-- complete, as the code assumes where it ignores their result. An `int` is its 32 bits
-- (Prelude/Int.antt). The functions take a pager that is not NULL.
pub mod Bitmap
pub mod Alloc
pub mod Pages
pub mod Header
pub mod Tests
use my_pl.Prelude.{
  ℕ, zero, suc, ◌+◌, ◌-◌, ◌*◌, ◌/◌, ◌%◌, ◌^◌, Bool, true, false, not, ◌&&◌, ◌||◌, Option, none,
  some, List, [], ◌∷◌, ◌++◌, ltb, leb, ◌==◌, if◌then◌else◌, get_or, set, take, drop, replicate,
}
use my_pl.Prelude.Int.{ltb_int}
use my_pl.Prelude.Bytes.{memcmp, u32_bytes, bytes_u32}
use Prim.Native.Nat.{max, Ordering}

abbrev pub page_size : ℕ
page_size = 4096

abbrev pub bitmap_bytes : ℕ
bitmap_bytes = page_size - 16

abbrev pub bitmap_bits : ℕ
bitmap_bits = bitmap_bytes * 8

unfoldable pub zero_page : List ℕ
zero_page = replicate page_size 0

pub record File : Type 0 where
  pub size : ℕ
  pub content : ℕ → List ℕ

-- `os_read` of one page: it is complete only inside the file.
abbrev pub os_read : File → ℕ → Option (List ℕ)
os_read f n = if leb ((n + 1) * page_size) f.size then some (f.content n) else none

-- `os_write` of one page: a gap behind the old end reads as zeros.
abbrev pub os_write : File → ℕ → List ℕ → File
os_write f n bytes = record {
  size = max f.size ((n + 1) * page_size);
  content =
      λ i. if i == n then bytes else if ltb (i * page_size) f.size then f.content i else zero_page;
}

pub record Pager : Type 0 where
  pub file : File
  pub page_count : ℕ
  pub bitmap : List ℕ

-- One bit of a byte, `bit` below 8: `(b >> bit) & 1`, `b | 1 << bit` and `b & ~(1 << bit)`.
pub byte_test : ℕ → ℕ → ℕ
byte_test b bit = b / 2 ^ bit % 2

pub byte_set : ℕ → ℕ → ℕ
byte_set b bit = if b / 2 ^ bit % 2 == 1 then b else b + 2 ^ bit

pub byte_clear : ℕ → ℕ → ℕ
byte_clear b bit = if b / 2 ^ bit % 2 == 1 then b - 2 ^ bit else b

unfoldable pub bitmap_set : List ℕ → ℕ → List ℕ
unfolding byte_set
bitmap_set bm bit = set bm (bit / 8) (byte_set (get_or bm (bit / 8) 0) (bit % 8))

unfoldable pub bitmap_clear : List ℕ → ℕ → List ℕ
unfolding byte_clear
bitmap_clear bm bit = set bm (bit / 8) (byte_clear (get_or bm (bit / 8) 0) (bit % 8))

unfoldable pub bitmap_test : List ℕ → ℕ → ℕ
unfolding byte_test
bitmap_test bm bit = byte_test (get_or bm (bit / 8) 0) (bit % 8)

-- The loop of `pager_allocate_page` from bit `i` on, with the number of bits that are left.
unfoldable pub find_free : List ℕ → ℕ → ℕ → Option ℕ
unfolding bitmap_test
find_free bm zero i = none
find_free bm (suc left) i =
    let rest = find_free bm left (i + 1) in if bitmap_test bm i == 0 then some i else rest

-- The page that the loop has found is taken; `none` is the result -1.
pub take_page : Pager → Option ℕ → Option ℕ × Pager
take_page p none = (none, p)
take_page p (some i) = (
  some i,
  record p {
    bitmap = bitmap_set p.bitmap i;
    page_count = if ltb_int i p.page_count then p.page_count else i + 1;
  },
)

unfoldable pub allocate_page : Pager → Option ℕ × Pager
unfolding find_free take_page bitmap_set
allocate_page p = take_page p (find_free p.bitmap (bitmap_bits - 1) 1)

unfoldable pub free_page : Pager → ℕ → Pager
unfolding bitmap_clear
free_page p n =
    if not (ltb_int 0 n) || not (ltb_int n bitmap_bits)
    then p
    else record p { bitmap = bitmap_clear p.bitmap n }

-- A short read gives a page of zeros.
abbrev or_zero_page : Option (List ℕ) → List ℕ
or_zero_page none = zero_page
or_zero_page (some bytes) = bytes

unfoldable pub read_page : Pager → ℕ → List ℕ
read_page p n =
    if ltb_int n 0 || not (ltb_int n p.page_count)
    then zero_page
    else or_zero_page (os_read p.file n)

-- The bookkeeping of `pager_write_page` ahead of the write.
abbrev grow_to : Pager → ℕ → Pager
grow_to p n =
    if ltb_int n p.page_count
    then p
    else record p { page_count = n + 1; bitmap = bitmap_set p.bitmap n }

unfoldable pub write_page : Pager → ℕ → List ℕ → Pager
unfolding bitmap_set
write_page p n bytes =
    if ltb_int n 0 || not (ltb_int n bitmap_bits)
    then p
    else record (grow_to p n) { file = os_write p.file n bytes }

-- "MYDB"
abbrev magic : List ℕ
magic = b'M' ∷ b'Y' ∷ b'D' ∷ b'B' ∷ []

abbrev version : ℕ
version = 1

unfoldable pub header : Pager → List ℕ
header p =
    magic ++ (u32_bytes version ++ (u32_bytes page_size ++ (u32_bytes p.page_count ++ p.bitmap)))

unfoldable pub write_header : Pager → Pager
unfolding header
write_header p = record p { file = os_write p.file 0 (header p) }

-- What `read_header` takes from the bytes of page 0.
abbrev same_bytes : List ℕ → List ℕ → Bool
same_bytes a b = elim (memcmp a b) [ Ordering.eq ↦ true | _ ↦ false ]

pub parse_header : Pager → List ℕ → Option Pager
parse_header p bytes =
    if not (same_bytes (take 4 bytes) magic)
    then none
    else if not (bytes_u32 (drop 4 bytes) == version)
    then none
    else if not (bytes_u32 (drop 8 bytes) == page_size)
    then none
    else some (record p {
      page_count = bytes_u32 (drop 12 bytes);
      bitmap = take bitmap_bytes (drop 16 bytes);
    })

unfoldable pub read_header : Pager → Option Pager
unfolding parse_header
read_header p = elim (os_read p.file 0) [ none ↦ none | some bytes ↦ parse_header p bytes ]

-- `memset(bitmap, 0, BITMAP_BYTES)`
unfoldable pub empty_bitmap : List ℕ
empty_bitmap = replicate bitmap_bytes 0

-- The pager as `calloc` leaves it, then a new database or the one in the file.
abbrev pub blank : File → Pager
blank f = record { file = f; page_count = 0; bitmap = empty_bitmap }

unfoldable pub pager_open : File → Option Pager
unfolding write_header read_header bitmap_set
pager_open f =
    if f.size == 0
    then some (
        write_header
          (record (blank f) { page_count = 2; bitmap = bitmap_set (bitmap_set empty_bitmap 0) 1 }))
    else read_header (blank f)

unfoldable pub pager_close : Pager → File
unfolding write_header
pager_close p = (write_header p).file
