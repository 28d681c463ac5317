-- ===== src/Sql/RowPages.antt =====
-- src/sql_engine.c: row pages and the scan of all the rows of a table. Row pages are linked from the
-- first one of the table on; the records of a page stand packed behind its header.
pub mod Append
pub mod Extend
pub mod First
pub mod Full
pub mod Grow
pub mod Scan
mod Tests
use my_pl.Prelude.{
  ℕ, zero, suc, ◌+◌, ◌-◌, ◌*◌, ◌^◌, Bool, ◌&&◌, ◌||◌, not, List, [], ◌∷◌, ◌++◌, ltb, leb, ◌==◌,
  if◌then◌else◌, take, drop, replicate,
}
use my_pl.Prelude.Int.{ltb_int, is_positive}
use my_pl.Prelude.Bytes.{u32_bytes, bytes_u16, bytes_u32}
use my_pl.Pager.{Pager, page_size, read_page}
use my_pl.Lexer.Token.{Text}
use my_pl.Sql.Where.{Row}
use my_pl.Sql.Rows.{deserialize_row}

abbrev pub row_page_header_size : ℕ
row_page_header_size = 8

-- The free pointer is an `int32_t`.
unfoldable pub row_page_data_end : List ℕ → ℕ
row_page_data_end page =
    let free_ptr = bytes_u32 (drop 4 page) in
    if ltb_int free_ptr row_page_header_size
    then row_page_header_size
    else if ltb_int page_size free_ptr
    then page_size
    else free_ptr

unfoldable pub row_page_next : Pager → List ℕ → ℕ
row_page_next p page =
    let next = bytes_u32 page in
    if not (is_positive next) || not (ltb_int next p.page_count) then 0 else next

unfoldable pub row_page_init : List ℕ
row_page_init = u32_bytes 0 ++ (u32_bytes row_page_header_size ++ replicate (page_size - 8) 0)

-- The result 1 with the rows, the result 0, or fuel that ran out.
pub data Scanned : Type 0 where
  scanned : List Row → Scanned
  undecodable no_fuel : Scanned

abbrev pub add_rows : Scanned → Scanned → Scanned
add_rows (scanned rows) (scanned later) = scanned (rows ++ later)
add_rows (scanned rows) undecodable = undecodable
add_rows (scanned rows) no_fuel = no_fuel
add_rows undecodable later = undecodable
add_rows no_fuel later = no_fuel

-- The records of a page: its bytes from `offset` on, of which `left` are before the end of the data.
unfoldable pub page_rows : ℕ → List Text → List ℕ → ℕ → Scanned
unfolding deserialize_row
page_rows zero columns bytes left = if left == 0 then scanned [] else no_fuel
page_rows (suc fuel) columns bytes left =
    let record_size = bytes_u16 bytes in
    let later = page_rows fuel columns (drop record_size bytes) (left - record_size) in
    if left == 0
    then scanned []
    else if ltb 0 record_size && ltb record_size (2 ^ 15) && leb record_size left
    then add_rows (scanned (deserialize_row columns bytes ∷ [])) later
    else undecodable

-- Nothing bounds a chain of pages that a damaged file links to itself, so the loop takes fuel.
unfoldable pub read_all_rows : ℕ → Pager → List Text → ℕ → Scanned
unfolding page_rows row_page_data_end row_page_next
read_all_rows zero p columns page_num = if page_num == 0 then scanned [] else no_fuel
read_all_rows (suc fuel) p columns page_num =
    let page = read_page p page_num in
    let left = row_page_data_end page - row_page_header_size in
    let here = page_rows left columns (drop row_page_header_size page) left in
    let later = read_all_rows fuel p columns (row_page_next p page) in
    if page_num == 0 then scanned [] else add_rows here later
