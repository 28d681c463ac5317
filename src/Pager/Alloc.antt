-- ===== src/Pager/Alloc.antt =====
-- `pager_allocate_page` and `pager_free_page`: the pages in use, and the invariant of a pager.
use my_pl.Prelude.{
  ℕ, zero, suc, ◌+◌, ◌≤◌, ◌<◌, ◌≡◌, ◌≢◌, refl, inl, inr, Bool-cases, List, All, length, ◌==◌,
  if◌then◌else◌, arith, ◌-◌, ◌^◌, ◌&&◌, ltb, ◌↔◌, Option, none, some, Option-cases,
}
use my_pl.Prelude.Bytes.{IsByte}
use my_pl.Pager.{
  Pager, bitmap_bytes, bitmap_bits, bitmap_test, bitmap_set, bitmap_clear, find_free, take_page,
  allocate_page, free_page,
}
use my_pl.Pager.Bitmap.{
  bitmap_test-bitmap_set, bitmap_test-bitmap_clear, bitmap_set-IsByte, bitmap_clear-IsByte,
  length-bitmap_set, length-bitmap_clear,
}

-- Page `i` is marked as in use.
abbrev pub InUse : Pager → ℕ → Type 0
InUse p i = bitmap_test p.bitmap i ≡ 1

pub record IsValid (p : Pager) : Type 0 where
  pub bitmap_length : length p.bitmap ≡ bitmap_bytes
  pub bitmap_is_bytes : All IsByte p.bitmap
  pub count_pos : 1 ≤ p.page_count
  pub count_le : p.page_count ≤ bitmap_bits
  pub header_in_use : InUse p 0
  pub in_use_lt_count : (j : ℕ) → j < bitmap_bits → InUse p j → j < p.page_count

bitmap_test_bit : (bm : List ℕ) (i : ℕ) → bitmap_test bm i ≢ 0 → bitmap_test bm i ≡ 1
unfolding bitmap_test
bitmap_test_bit bm i h = omega arith

-- The loop stops at the first free bit.
find_free-some :
    (bm : List ℕ) (left i : ℕ) {k : ℕ}
    → find_free bm left i ≡ some k
    → (i ≤ k)
      × (k < i + left)
      × (bitmap_test bm k ≡ 0)
      × ((j : ℕ) → i ≤ j → j < k → bitmap_test bm j ≡ 1)
unfolding find_free
find_free-some bm zero i h = cc
find_free-some bm (suc left) i {k} h = elim (Bool-cases (bitmap_test bm i == 0)) [
  | inl free ↦ (ground arith, ground arith, ground arith, λ j a b. absurd (ground arith))
  | inr used ↦
      let (a, b, c, d) = find_free-some bm left (i + 1) {k = k} (ground arith) in
      (omega arith, omega arith, c, λ j p q. ground (arith, d j, bitmap_test_bit bm i))
]

find_free-none :
    (bm : List ℕ) (left i j : ℕ)
    → find_free bm left i ≡ none
    → i ≤ j
    → j < i + left
    → bitmap_test bm j ≡ 1
unfolding find_free
find_free-none bm zero i j h a b = absurd (omega arith)
find_free-none bm (suc left) i j h a b =
    ground (arith, find_free-none bm left (i + 1) j, bitmap_test_bit bm i)

-- What an allocation that gives page `i` has done.
pub record Allocated (p : Pager) (i : ℕ) (p' : Pager) : Type 0 where
  pub not_header : 1 ≤ i
  pub in_range : i < bitmap_bits
  pub was_free : bitmap_test p.bitmap i ≡ 0
  pub is_first : (j : ℕ) → 1 ≤ j → j < i → InUse p j
  pub marks_only :
      (j : ℕ) → bitmap_test p'.bitmap j ≡ (if j == i then 1 else bitmap_test p.bitmap j)
  pub counted : i < p'.page_count
  pub count_grows : p.page_count ≤ p'.page_count
  pub same_file : p'.file ≡ p.file

module _ (p : Pager) (v : IsValid p) (i : ℕ) (h : i < bitmap_bits) where
  marks_only_i :
      (j : ℕ)
      → bitmap_test (bitmap_set p.bitmap i) j ≡ (if j == i then 1 else bitmap_test p.bitmap j)
  marks_only_i j =
      bitmap_test-bitmap_set p.bitmap i j v.bitmap_is_bytes (omega (arith, v.bitmap_length))

  take_page-IsValid : IsValid (take_page p (some i)).1
  unfolding take_page
  take_page-IsValid = record {
    bitmap_length = omega (arith, length-bitmap_set p.bitmap i, v.bitmap_length);
    bitmap_is_bytes = bitmap_set-IsByte p.bitmap i v.bitmap_is_bytes;
    count_pos = ground (arith, v.count_pos);
    count_le = ground (arith, v.count_le);
    header_in_use = ground (arith, marks_only_i 0, v.header_in_use);
    in_use_lt_count = λ j hj u. ground (arith, marks_only_i j, v.in_use_lt_count j, v.count_le);
  }

  take_page-Allocated :
      1 ≤ i
      → bitmap_test p.bitmap i ≡ 0
      → ((j : ℕ) → 1 ≤ j → j < i → InUse p j)
      → Allocated p i (take_page p (some i)).1
  unfolding take_page
  take_page-Allocated a free first = record {
    not_header = a;
    in_range = h;
    was_free = free;
    is_first = first;
    marks_only = marks_only_i;
    counted = ground (arith, v.count_le);
    count_grows = ground (arith, v.count_le);
    same_file = refl;
  }

take_page-eq_some :
    (p : Pager) (o : Option ℕ) {i : ℕ} {p' : Pager}
    → take_page p o ≡ (some i, p')
    → (o ≡ some i) × ((take_page p (some i)).1 ≡ p')
unfolding take_page
take_page-eq_some p none h = cc
take_page-eq_some p (some j) h = ground arith

take_page-eq_none : (p : Pager) (o : Option ℕ) → (take_page p o).0 ≡ none → o ≡ none
unfolding take_page
take_page-eq_none p none h = refl
take_page-eq_none p (some j) h = cc

-- A page number that `pager_allocate_page` returns is the first one free, is at least 1 and inside
-- the bitmap; exactly its bit changes, the page count covers it, and the pager stays valid.
pub allocate_page-Allocated :
    {p p' : Pager} {i : ℕ}
    → IsValid p
    → allocate_page p ≡ (some i, p')
    → Allocated p i p' × IsValid p'
unfolding allocate_page
allocate_page-Allocated {p} {p'} {i} v h =
    let (found, e) = take_page-eq_some p (find_free p.bitmap (bitmap_bits - 1) 1) h in
    let (a, b, free, first) = find_free-some p.bitmap (bitmap_bits - 1) 1 {k = i} found in
    rw (← e)
      (take_page-Allocated p v i (omega arith) a free first, take_page-IsValid p v i (omega arith))

-- `pager_allocate_page` fails exactly when every page but the header's is in use, and then leaves
-- the pager as it is.
pub allocate_page-none :
    (p : Pager)
    → ((allocate_page p).0 ≡ none ↔ ((j : ℕ) → 1 ≤ j → j < bitmap_bits → InUse p j))
      × ((allocate_page p).0 ≡ none → (allocate_page p).1 ≡ p)
unfolding allocate_page take_page
allocate_page-none p = elim (Option-cases (find_free p.bitmap (bitmap_bits - 1) 1)) [
  | inl full ↦ (
    (λ h j a b. find_free-none p.bitmap (bitmap_bits - 1) 1 j full a (omega arith), λ all. rw full),
    λ h. rw full,
  )
  | inr (i, found) ↦
      let (a, b, free, first) = find_free-some p.bitmap (bitmap_bits - 1) 1 {k = i} found in
      (
        (
          λ h. cc (take_page-eq_none p _ h, found),
          λ all. absurd (omega (arith, all i a (omega arith), free)),
        ),
        λ h. cc (take_page-eq_none p _ h, found),
      )
]

-- `pager_free_page` clears exactly the bit of a page between 1 and the end of the bitmap, changes
-- nothing for any other number, and keeps the pager valid.
pub free_page_lem :
    (p : Pager) (n : ℕ)
    → IsValid p
    → n < 2 ^ 31
    → ((j : ℕ)
        → bitmap_test (free_page p n).bitmap j
          ≡ (if j == n && ltb 0 n && ltb n bitmap_bits then 0 else bitmap_test p.bitmap j))
      × ((free_page p n).page_count ≡ p.page_count)
      × ((free_page p n).file ≡ p.file)
      × IsValid (free_page p n)
unfolding free_page
free_page_lem p n v h = (
  λ j. ground (arith, cleared j),
  ground arith,
  ground arith,
  record {
    bitmap_length = ground (arith, length-bitmap_clear p.bitmap n, v.bitmap_length);
    bitmap_is_bytes = ground (arith, bitmap_clear-IsByte p.bitmap n, v.bitmap_is_bytes);
    count_pos = ground (arith, v.count_pos);
    count_le = ground (arith, v.count_le);
    header_in_use = ground (arith, cleared 0, v.header_in_use);
    in_use_lt_count = λ j hj u. ground (arith, cleared j, v.in_use_lt_count j);
  },
)
  where
    cleared :
        (j : ℕ)
        → n < bitmap_bits
        → bitmap_test (bitmap_clear p.bitmap n) j ≡ (if j == n then 0 else bitmap_test p.bitmap j)
    cleared j k =
        bitmap_test-bitmap_clear p.bitmap n j v.bitmap_is_bytes (omega (arith, v.bitmap_length))

freed :
    (q p : List ℕ) (n : ℕ)
    → bitmap_test q n ≡ (if n == n && ltb 0 n && ltb n bitmap_bits then 0 else bitmap_test p n)
    → bitmap_test q n ≡ 1
    → 1 ≤ n
    → n < bitmap_bits
    → ⊥
freed q p n e used a b = ground arith

earlier :
    (q p : List ℕ) (n i : ℕ)
    → bitmap_test q n ≡ (if n == n && ltb 0 n && ltb n bitmap_bits then 0 else bitmap_test p n)
    → ((j : ℕ) → 1 ≤ j → j < i → bitmap_test q j ≡ 1)
    → 1 ≤ n
    → n < bitmap_bits
    → i ≤ n
earlier q p n i e first a b = ground (arith, first n)

-- After a page is freed the next allocation succeeds, with that page or one before it.
pub allocate_page-free_page :
    (p : Pager) (n : ℕ)
    → IsValid p
    → 1 ≤ n
    → n < bitmap_bits
    → (i : ℕ) × ((allocate_page (free_page p n)).0 ≡ some i) × (i ≤ n)
unfolding allocate_page take_page
allocate_page-free_page p n v a b =
    let (bits, count, file, v') = free_page_lem p n v (omega arith) in
    let q = free_page p n in
    elim (Option-cases (find_free q.bitmap (bitmap_bits - 1) 1)) [
      | inl full ↦
          let used = find_free-none q.bitmap (bitmap_bits - 1) 1 n full a (omega arith) in
          absurd (freed q.bitmap p.bitmap n (bits n) used a b)
      | inr (i, found) ↦
          let (c, d, free, first) = find_free-some q.bitmap (bitmap_bits - 1) 1 {k = i} found in
          (i, rw found, earlier q.bitmap p.bitmap n i (bits n) first a b)
    ]
