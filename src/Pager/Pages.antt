-- ===== src/Pager/Pages.antt =====
-- `pager_read_page` and `pager_write_page`: the file as an array of pages.
use my_pl.Prelude.{ℕ, ◌*◌, ◌%◌, ◌^◌, ◌≤◌, ◌<◌, ◌≡◌, ◌&&◌, List, ltb, ◌==◌, if◌then◌else◌, arith}
use my_pl.Pager.{Pager, page_size, bitmap_bits, read_page, write_page}
use my_pl.Pager.Alloc.{IsValid, Allocated, InUse}
use my_pl.Pager.Bitmap.{bitmap_test-bitmap_set, bitmap_set-IsByte, length-bitmap_set}

-- The file holds whole pages, and none behind the page count.
pub record Fits (p : Pager) : Type 0 where
  pub whole_pages : p.file.size % page_size ≡ 0
  pub size_le : p.file.size ≤ p.page_count * page_size

-- In a valid pager whose file fits its page count, and for page numbers that are not negative: a
-- page that was written reads back, every other page reads as before, and a number outside the
-- bitmap writes nothing.
pub read_page-write_page :
    (p : Pager) (n m : ℕ) (bytes : List ℕ)
    → IsValid p
    → Fits p
    → n < 2 ^ 31
    → m < 2 ^ 31
    → read_page (write_page p n bytes) m
      ≡ (if m == n && ltb n bitmap_bits then bytes else read_page p m)
unfolding read_page write_page
read_page-write_page p n m bytes v f hn hm = ground (arith, v.count_le, f.size_le, f.whole_pages)

-- Writing a page, by a number that is not negative, keeps a valid pager valid and its file in step
-- with the page count.
pub write_page-IsValid :
    (p : Pager) (n : ℕ) (bytes : List ℕ)
    → IsValid p
    → Fits p
    → n < 2 ^ 31
    → IsValid (write_page p n bytes) × Fits (write_page p n bytes)
unfolding write_page
write_page-IsValid p n bytes v f hn = (
  record {
    bitmap_length = ground (arith, length-bitmap_set p.bitmap n, v.bitmap_length);
    bitmap_is_bytes = ground (arith, bitmap_set-IsByte p.bitmap n, v.bitmap_is_bytes);
    count_pos = ground (arith, v.count_pos);
    count_le = ground (arith, v.count_le);
    header_in_use = ground (
      arith,
      bitmap_test-bitmap_set p.bitmap n 0 v.bitmap_is_bytes,
      v.bitmap_length,
      v.header_in_use,
    );
    in_use_lt_count = λ j hj u. ground (
      arith,
      bitmap_test-bitmap_set p.bitmap n j v.bitmap_is_bytes,
      v.bitmap_length,
      v.in_use_lt_count j,
    );
  },
  record { whole_pages = ground (arith, f.whole_pages); size_le = ground (arith, f.size_le) },
)

-- Writing a page frees none.
pub write_page-InUse :
    (p : Pager) (n j : ℕ) (bytes : List ℕ)
    → IsValid p
    → n < 2 ^ 31
    → InUse p j
    → InUse (write_page p n bytes) j
unfolding write_page
write_page-InUse p n j bytes v hn used =
    ground (arith, bitmap_test-bitmap_set p.bitmap n j v.bitmap_is_bytes, v.bitmap_length, used)

-- An allocation neither changes what a page reads nor the shape of the file.
pub read_page-Allocated :
    {p p' : Pager} {i : ℕ} (m : ℕ)
    → IsValid p
    → IsValid p'
    → Fits p
    → m < 2 ^ 31
    → Allocated p i p'
    → read_page p' m ≡ read_page p m
unfolding read_page
read_page-Allocated {p} {p'} m v v' f hm a =
    ground (arith, a.same_file, a.count_grows, v.count_le, v'.count_le, f.size_le)

pub Allocated-Fits : {p p' : Pager} {i : ℕ} → Fits p → Allocated p i p' → Fits p'
Allocated-Fits f a = record {
  whole_pages = rw a.same_file f.whole_pages;
  size_le = rw a.same_file (grind (arith, f.size_le, a.count_grows));
}
