-- ===== src/Sql/RowPages/Tests.antt =====
-- Runs on the records of rows and on a page of them.
use my_pl.Prelude.{
  ℕ, ◌∙◌, List, ◌≡◌, refl, [], ◌∷◌, some, ◌+◌, ◌++◌, arith, ◌<◌, ◌≤◌, ◌≢◌, ◌^◌, length, replicate,
  All,
}
use my_pl.Prelude.Bytes.{bytes_u16}
use my_pl.Pager.{
  write_page, allocate_page, find_free, bitmap_test, bitmap_set, empty_bitmap, Pager, page_size,
  read_page,
}
use my_pl.BTree.Key.{Cell, null, int, string}
use my_pl.Sql.Rows.{row_record_size, serialize_row, deserialize_row}
use my_pl.Sql.Rows.RoundTrip.{
  IsStorable, stored_row, serialize_row-size, deserialize_row-serialize_row,
}
use my_pl.Sql.RowPages.Append.{Table, appended, row_page_append}
use my_pl.Sql.RowPages.Extend.{AllUsed}
use my_pl.Sql.RowPages.First.{read_all_rows-row_page_append_first}
use my_pl.Sql.RowPages.Full.{read_all_rows-row_page_append_full}
use my_pl.Sql.RowPages.Grow.{ChainTo, at_tail, before, read_all_rows-row_page_append}
use my_pl.Pager.{write_header}
use my_pl.Pager.Alloc.{IsValid}
use my_pl.Pager.Pages
use my_pl.Pager.Pages.{read_page-write_page, write_page-IsValid}
use my_pl.Pager.Tests.{fresh, fresh-IsValid, fresh-Fits}
use my_pl.Sql.RowPages.{row_page_header_size, no_fuel, scanned, page_rows, read_all_rows}
use my_pl.Sql.RowPages.Scan.{
  Fits, records, row_page, nowhere, linked, page_rows-fuel, read_all_rows-Chain,
}
use my_pl.Lexer.Keyword.{codes}
use my_pl.Lexer.Token.{Text}

abbrev columns : List Text
columns = codes "id" ∷ codes "name" ∷ codes "email" ∷ []

abbrev cells : List Cell
cells = int 5 ∷ string (some (codes "ab")) ∷ null ∷ []

row_bytes : serialize_row cells ≡ 15 ∷ 0 ∷ 0 ∷ 5 ∷ 0 ∷ 0 ∷ 0 ∷ 2 ∷ 2 ∷ 0 ∷ 0 ∷ 0 ∷ 97 ∷ 98 ∷ 10 ∷ []
unfolding serialize_row
row_bytes = refl

serialize_row-size_example :
    (length (serialize_row cells) ≡ row_record_size cells)
    × (row_record_size cells < 2 ^ 15 → bytes_u16 (serialize_row cells) ≡ row_record_size cells)
serialize_row-size_example = serialize_row-size cells

cells-IsStorable : All IsStorable cells
cells-IsStorable = (omega arith, (omega arith, (tt, tt)))

deserialize_row-serialize_row_example :
    deserialize_row columns (serialize_row cells ++ (1 ∷ 2 ∷ [])) ≡ stored_row columns cells
deserialize_row-serialize_row_example =
    deserialize_row-serialize_row columns cells (1 ∷ 2 ∷ []) refl cells-IsStorable

page_rows-fuel_example : page_rows 4 columns (serialize_row cells) 4 ≢ no_fuel
page_rows-fuel_example = page_rows-fuel 4 columns (serialize_row cells) 4 (omega arith)

-- A table of one page with the same row twice.
abbrev table : Pager
table = record {
  file = record { size = 8192; content = λ n. row_page 0 (cells ∷ cells ∷ []) (replicate 4058 0) };
  page_count = 2;
  bitmap = [];
}

cells-Fits : Fits columns cells
unfolding row_record_size
cells-Fits = (refl, cells-IsStorable, omega arith)

table_page : read_page table 1 ≡ row_page 0 (cells ∷ cells ∷ []) (replicate 4058 0)
unfolding read_page
table_page = refl

table_room : row_page_header_size + length (records (cells ∷ cells ∷ [])) ≤ page_size
unfolding serialize_row
table_room = omega arith

read_all_rows-Chain_example :
    read_all_rows 1 table columns 1
    ≡ scanned (stored_row columns cells ∷ stored_row columns cells ∷ [])
read_all_rows-Chain_example =
    read_all_rows-Chain table columns (omega arith)
      (linked (cells ∷ cells ∷ []) [] (replicate 4058 0) (omega arith) table_page (omega arith)
        table_room (cells-Fits, (cells-Fits, tt)) nowhere)
      1 (omega arith)

another_room :
    row_page_header_size + length (records (cells ∷ [])) + row_record_size cells ≤ page_size
unfolding serialize_row row_record_size
another_room = omega arith

-- Two pages with a row each.
abbrev space : List ℕ
space = replicate 4073 0

abbrev first_page : Pager
first_page = write_page fresh 1 (row_page 2 (cells ∷ []) space)

abbrev two_pages : Pager
two_pages = write_page first_page 2 (row_page 0 (cells ∷ []) space)

first_page-IsValid : IsValid first_page
first_page-IsValid =
    (write_page-IsValid fresh 1 (row_page 2 (cells ∷ []) space) fresh-IsValid fresh-Fits
      (omega arith)).0

first_page-Fits : Pages.Fits first_page
first_page-Fits =
    (write_page-IsValid fresh 1 (row_page 2 (cells ∷ []) space) fresh-IsValid fresh-Fits
      (omega arith)).1

two_pages-IsValid : IsValid two_pages
two_pages-IsValid =
    (write_page-IsValid first_page 2 (row_page 0 (cells ∷ []) space) first_page-IsValid
      first_page-Fits (omega arith)).0

two_pages-Fits : Pages.Fits two_pages
two_pages-Fits =
    (write_page-IsValid first_page 2 (row_page 0 (cells ∷ []) space) first_page-IsValid
      first_page-Fits (omega arith)).1

second_read : read_page two_pages 2 ≡ row_page 0 (cells ∷ []) space
second_read =
    read_page-write_page first_page 2 2 (row_page 0 (cells ∷ []) space) first_page-IsValid
      first_page-Fits (omega arith) (omega arith)

first_read : read_page two_pages 1 ≡ row_page 2 (cells ∷ []) space
first_read =
    read_page-write_page first_page 2 1 (row_page 0 (cells ∷ []) space) first_page-IsValid
      first_page-Fits (omega arith) (omega arith)
    ∙ read_page-write_page fresh 1 1 (row_page 2 (cells ∷ []) space) fresh-IsValid fresh-Fits
        (omega arith) (omega arith)

two_pages_count : two_pages.page_count ≡ 3
unfolding write_page write_header
two_pages_count = refl

row_room : row_page_header_size + length (records (cells ∷ [])) ≤ page_size
row_room = omega (arith, another_room)

chain_of_two : ChainTo two_pages columns 2 (cells ∷ []) space 2 1 (cells ∷ [])
chain_of_two =
    before (cells ∷ []) [] space (omega arith) (omega (arith, two_pages_count)) first_read
      (omega arith) (omega (arith, two_pages_count)) row_room (cells-Fits, tt)
      (at_tail refl (omega arith) (omega (arith, two_pages_count)) second_read row_room
        (cells-Fits, tt))

-- A table that was opened again, whose last page is not known.
abbrev reopened : Table
reopened = record { first_row_page = 1; last_row_page = 1 }

read_all_rows-row_page_append_example :
    let (answer, (p', t')) = row_page_append 2 two_pages reopened cells in
    (answer ≡ appended 2 (row_page_header_size + length (records (cells ∷ []))))
    × (t' ≡ record reopened { last_row_page = 2 })
    × ((n : ℕ) → n < 2 ^ 31 → n ≢ 2 → read_page p' n ≡ read_page two_pages n)
    × (read_all_rows 2 p' columns 1
        ≡ scanned
            (stored_row columns cells ∷ stored_row columns cells ∷ stored_row columns cells ∷ []))
read_all_rows-row_page_append_example =
    read_all_rows-row_page_append 2 2 two_pages reopened cells two_pages-IsValid two_pages-Fits
      chain_of_two chain_of_two (omega arith) (omega arith) cells-Fits another_room

-- A row that leaves no room for another like it.
abbrev big : List Cell
big = int 5 ∷ string (some (replicate 4060 b'a')) ∷ null ∷ []

big-Fits : Fits columns big
unfolding row_record_size
big-Fits = (refl, (omega arith, (omega arith, (tt, tt))), omega arith)

abbrev full_pager : Pager
full_pager = write_page fresh 1 (row_page 0 (big ∷ []) [])

full_pager-Valid : IsValid full_pager × Pages.Fits full_pager
full_pager-Valid =
    write_page-IsValid fresh 1 (row_page 0 (big ∷ []) []) fresh-IsValid fresh-Fits (omega arith)

full_read : read_page full_pager 1 ≡ row_page 0 (big ∷ []) []
full_read =
    read_page-write_page fresh 1 1 (row_page 0 (big ∷ []) []) fresh-IsValid fresh-Fits (omega arith)
      (omega arith)

full_count : full_pager.page_count ≡ 2
unfolding write_page write_header
full_count = refl

big_size : row_record_size big ≡ 4073
unfolding row_record_size
big_size = refl

big_length : length (records (big ∷ [])) ≡ 4073
unfolding serialize_row
big_length = refl

abbrev full_chain : ChainTo full_pager columns 1 (big ∷ []) [] 1 1 []
full_chain =
    at_tail refl (omega arith) (omega (arith, full_count)) full_read (omega (arith, big_length))
      (big-Fits, tt)

full_used : AllUsed full_chain
unfolding write_page bitmap_test bitmap_set write_header empty_bitmap
full_used = refl

full_allocates : allocate_page full_pager ≡ (some 2, (allocate_page full_pager).1)
unfolding allocate_page find_free bitmap_test bitmap_set write_page write_header empty_bitmap
full_allocates = refl

read_all_rows-row_page_append_full_example :
    let (answer, (p', t')) = row_page_append 1 full_pager reopened big in
    (answer ≡ appended 2 row_page_header_size)
    × (t' ≡ record reopened { last_row_page = 2 })
    × ((n : ℕ) → n < 2 ^ 31 → n ≢ 1 → n ≢ 2 → read_page p' n ≡ read_page full_pager n)
    × (read_all_rows 2 p' columns 1
        ≡ scanned (stored_row columns big ∷ stored_row columns big ∷ []))
read_all_rows-row_page_append_full_example =
    read_all_rows-row_page_append_full 1 2 full_pager (allocate_page full_pager).1 reopened big
      full_pager-Valid.0 full_pager-Valid.1 full_chain full_used full_chain (omega arith)
      (omega arith) big-Fits (omega (arith, big_size)) (omega (arith, big_size, big_length))
      full_allocates

abbrev no_rows : Table
no_rows = record { first_row_page = 0; last_row_page = 0 }

first_allocates : allocate_page fresh ≡ (some 2, (allocate_page fresh).1)
unfolding allocate_page find_free bitmap_test bitmap_set write_header empty_bitmap
first_allocates = refl

read_all_rows-row_page_append_first_example :
    let (answer, (p', t')) = row_page_append 0 fresh no_rows cells in
    (answer ≡ appended 2 row_page_header_size)
    × (t' ≡ record { first_row_page = 2; last_row_page = 2 })
    × ((n : ℕ) → n < 2 ^ 31 → n ≢ 2 → read_page p' n ≡ read_page fresh n)
    × (read_all_rows 1 p' columns 2 ≡ scanned (stored_row columns cells ∷ []))
read_all_rows-row_page_append_first_example =
    read_all_rows-row_page_append_first 0 1 fresh (allocate_page fresh).1 no_rows columns cells
      fresh-IsValid fresh-Fits refl (omega arith) cells-Fits (omega (arith, another_room))
      first_allocates
