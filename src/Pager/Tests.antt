-- ===== src/Pager/Tests.antt =====
-- Runs of src/pager.c on a new database.
use my_pl.Prelude.{
  ℕ, ◌≡◌, ◌↔◌, ◌≤◌, ◌<◌, refl, List, [], ◌∷◌, none, some, arith, ltb, if◌then◌else◌, ◌==◌, ◌&&◌,
}
use my_pl.Pager.{
  File, Pager, zero_page, write_header, allocate_page, find_free, bitmap_test, bitmap_set,
  empty_bitmap, bitmap_bits, free_page, read_page, write_page, pager_open, pager_close,
}
use my_pl.Pager.Alloc.{
  IsValid, InUse, Allocated, allocate_page-Allocated, allocate_page-none, allocate_page-free_page,
}
use my_pl.Pager.Pages.{Fits, read_page-write_page}
use my_pl.Pager.Header.{new_pager, new_pager-IsValid, pager_open-pager_close}

abbrev no_file : File
no_file = record { size = 0; content = λ i. zero_page }

abbrev pub fresh : Pager
fresh = write_header (new_pager no_file)

pub fresh-IsValid : IsValid fresh
fresh-IsValid = (new_pager-IsValid no_file refl).0

pub fresh-Fits : Fits fresh
fresh-Fits = (new_pager-IsValid no_file refl).1

abbrev grown : Pager
grown = (allocate_page fresh).1

fresh_allocates : allocate_page fresh ≡ (some 2, grown)
unfolding allocate_page find_free bitmap_test bitmap_set write_header empty_bitmap
fresh_allocates = refl

allocate_page-Allocated_example : Allocated fresh 2 grown × IsValid grown
allocate_page-Allocated_example = allocate_page-Allocated fresh-IsValid fresh_allocates

allocate_page-none_example :
    ((allocate_page fresh).0 ≡ none ↔ ((j : ℕ) → 1 ≤ j → j < bitmap_bits → InUse fresh j))
    × ((allocate_page fresh).0 ≡ none → (allocate_page fresh).1 ≡ fresh)
allocate_page-none_example = allocate_page-none fresh

allocate_page-free_page_example :
    (i : ℕ) × ((allocate_page (free_page fresh 1)).0 ≡ some i) × (i ≤ 1)
allocate_page-free_page_example =
    allocate_page-free_page fresh 1 fresh-IsValid (omega arith) (omega arith)

abbrev some_bytes : List ℕ
some_bytes = 1 ∷ 2 ∷ []

read_page-write_page_example :
    read_page (write_page fresh 5 some_bytes) 5
    ≡ (if 5 == 5 && ltb 5 bitmap_bits then some_bytes else read_page fresh 5)
read_page-write_page_example =
    read_page-write_page fresh 5 5 some_bytes fresh-IsValid fresh-Fits (omega arith) (omega arith)

pager_open-pager_close_example :
    pager_open (pager_close fresh) ≡ some (record fresh { file = pager_close fresh })
pager_open-pager_close_example = pager_open-pager_close fresh fresh-IsValid
