-- ===== src/Sql/RowPages/Scan.antt =====
-- The scan of a table gives the rows that were serialized onto its pages.
use my_pl.Prelude.{
  ℕ, zero, suc, ◌+◌, ◌-◌, ◌^◌, ◌≤◌, ◌<◌, ◌≡◌, ◌≢◌, refl, List, [], ◌∷◌, ◌++◌, length, map, drop,
  All, append_assoc, length-append, drop-append, ltb, leb, ◌==◌, ◌&&◌, ◌||◌, not, arith,
  if◌then◌else◌,
}
use mathlib.Core.List.{map-append}
use my_pl.Prelude.Int.{ltb_int, is_positive}
use my_pl.Prelude.Bytes.{u32_bytes, bytes_u16, bytes_u32-u32_bytes}
use my_pl.Pager.{Pager, page_size, read_page}
use my_pl.BTree.Key.{Cell}
use my_pl.Lexer.Token.{Text}
use my_pl.Sql.Where.{Row}
use my_pl.Sql.Rows.{row_record_size, serialize_row}
use my_pl.Sql.Rows.RoundTrip.{
  IsStorable, stored_row, serialize_row-size, deserialize_row-serialize_row,
  bytes_u16-serialize_row, row_record_size-positive,
}
use my_pl.Sql.RowPages.{
  row_page_header_size, Scanned, scanned, undecodable, no_fuel, add_rows, page_rows,
  row_page_data_end, row_page_next, read_all_rows,
}

add_rows-fuel :
    (rows : List Row) (later : Scanned) → later ≢ no_fuel → add_rows (scanned rows) later ≢ no_fuel
add_rows-fuel rows (scanned xs) h e = cc
add_rows-fuel rows undecodable h e = cc
add_rows-fuel rows no_fuel h e = h refl

-- The loop over a page ends within as many rounds as the page has bytes of data, whatever they are.
pub page_rows-fuel :
    (fuel : ℕ) (columns : List Text) (bytes : List ℕ) (left : ℕ)
    → left ≤ fuel
    → page_rows fuel columns bytes left ≢ no_fuel
unfolding page_rows
page_rows-fuel zero columns bytes left h e = ground (arith, h, e)
page_rows-fuel (suc fuel) columns bytes left h e =
    let later : 0 < bytes_u16 bytes
        → page_rows fuel columns (drop (bytes_u16 bytes) bytes) (left - bytes_u16 bytes) ≢ no_fuel =
      λ positive.
        page_rows-fuel fuel columns (drop (bytes_u16 bytes) bytes) (left - bytes_u16 bytes)
          (omega (arith, h, positive)) in
    ground arith

-- Rows that a table with these columns can hold.
abbrev pub Fits : List Text → List Cell → Type 0
Fits columns cells =
    (length columns ≡ length cells) × All IsStorable cells × (row_record_size cells < 2 ^ 15)

abbrev pub records : List (List Cell) → List ℕ
records [] = []
records (cells ∷ rows) = serialize_row cells ++ records rows

-- The tests of a round that stands at a record of `n` bytes with `m` behind it.
reads_record :
    (n m : ℕ) (rows : Scanned)
    → 0 < n
    → n < 2 ^ 15
    → (if n + m == 0
        then scanned []
        else if ltb 0 n && ltb n (2 ^ 15) && leb n (n + m)
        then rows
        else undecodable)
      ≡ rows
reads_record n m rows positive small = ground arith

module _ (columns : List Text) where
  page_rows-records :
      (fuel : ℕ) (rows : List (List Cell)) (rest : List ℕ)
      → All (Fits columns) rows
      → length (records rows) ≤ fuel
      → page_rows fuel columns (records rows ++ rest) (length (records rows))
        ≡ scanned (map (stored_row columns) rows)
  unfolding page_rows
  page_rows-records zero [] rest h enough = refl
  page_rows-records (suc fuel) [] rest h enough = refl
  page_rows-records zero (cells ∷ rows) rest h enough = absurd (
      omega (
        arith,
        enough,
        length-append (serialize_row cells) (records rows),
        (serialize_row-size cells).0,
        row_record_size-positive cells,
      ))
  page_rows-records (suc fuel) (cells ∷ rows) rest ((len, storable, small), h) enough =
      let all = length-append (serialize_row cells) (records rows) in
      let size = (serialize_row-size cells).0 in
      let positive = row_record_size-positive cells in
      let left : row_record_size cells + length (records rows) - row_record_size cells
          ≡ length (records rows) =
        omega arith in
      let later = page_rows-records fuel rows rest h (omega (arith, enough, all, size, positive)) in
      rw (
        all,
        append_assoc,
        bytes_u16-serialize_row cells (records rows ++ rest) small,
        size,
        left,
        drop-append (row_record_size cells) (serialize_row cells) (records rows ++ rest) size,
        deserialize_row-serialize_row columns cells (records rows ++ rest) len storable,
        later,
        reads_record (row_record_size cells) (length (records rows))
            (add_rows (scanned (stored_row columns cells ∷ []))
              (scanned (map (stored_row columns) rows)))
            positive small,
      )

-- A row page with the records of `rows` and free space behind them.
abbrev pub row_page : ℕ → List (List Cell) → List ℕ → List ℕ
row_page next rows free =
    u32_bytes next
    ++ (u32_bytes (row_page_header_size + length (records rows)) ++ (records rows ++ free))

-- The chain of row pages that starts at a page, with how many there are and the rows they hold.
pub data Chain (p : Pager) (columns : List Text) : ℕ → ℕ → List (List Cell) → Type 0 where
  nowhere : Chain p columns 0 0 []
  linked :
      {count page_num next : ℕ} (rows later : List (List Cell)) (free : List ℕ)
      → 0 < page_num
      → read_page p page_num ≡ row_page next rows free
      → next < p.page_count
      → row_page_header_size + length (records rows) ≤ page_size
      → All (Fits columns) rows
      → Chain p columns count next later
      → Chain p columns (suc count) page_num (rows ++ later)

in_page :
    (size : ℕ)
    → 8 + size ≤ 4096
    → (if ltb_int (8 + size) row_page_header_size
        then row_page_header_size
        else if ltb_int page_size (8 + size)
        then page_size
        else 8 + size)
      ≡ 8 + size
in_page size fits = ground arith

pub row_page_data_end-row_page :
    (next : ℕ) (rows : List (List Cell)) (free : List ℕ)
    → row_page_header_size + length (records rows) ≤ page_size
    → row_page_data_end (row_page next rows free) ≡ row_page_header_size + length (records rows)
unfolding row_page_data_end
row_page_data_end-row_page next rows free fits = rw (
  bytes_u32-u32_bytes (row_page_header_size + length (records rows)) (records rows ++ free)
      (omega (arith, fits)),
  in_page (length (records rows)) fits,
)

next_in_range :
    (next count : ℕ)
    → next < count
    → count < 2 ^ 31
    → (if not (is_positive next) || not (ltb_int next count) then 0 else next) ≡ next
next_in_range next count inside small = ground arith

pub row_page_next-row_page :
    (p : Pager) (next : ℕ) (rows : List (List Cell)) (free : List ℕ)
    → next < p.page_count
    → p.page_count < 2 ^ 31
    → row_page_next p (row_page next rows free) ≡ next
unfolding row_page_next
row_page_next-row_page p next rows free inside small = rw (
  bytes_u32-u32_bytes next
      (u32_bytes (row_page_header_size + length (records rows)) ++ (records rows ++ free))
      (omega (arith, inside, small)),
  next_in_range next p.page_count inside small,
)

on_a_page : (n : ℕ) (none_left here : Scanned) → 0 < n → (if n == 0 then none_left else here) ≡ here
on_a_page n none_left here positive = ground arith

-- The scan of a table gives the rows that were serialized onto its pages, page after page and in
-- order on each, as they read back; a round for each page of the chain is enough.
pub read_all_rows-Chain :
    (p : Pager) (columns : List Text) {count page_num : ℕ} {rows : List (List Cell)}
    → p.page_count < 2 ^ 31
    → Chain p columns count page_num rows
    → (fuel : ℕ) → count ≤ fuel
    → read_all_rows fuel p columns page_num ≡ scanned (map (stored_row columns) rows)
unfolding read_all_rows
read_all_rows-Chain p columns small nowhere zero enough = refl
read_all_rows-Chain p columns small nowhere (suc fuel) enough = refl
read_all_rows-Chain p columns small (linked rows later free positive page inside fits stored chain)
      zero enough =
    absurd (omega (arith, enough))
read_all_rows-Chain p columns small
      (linked {count} {page_num} {next} rows later free positive page inside fits stored chain)
      (suc fuel) enough =
    let rest = read_all_rows-Chain p columns small chain fuel (omega (arith, enough)) in
    let left : row_page_header_size + length (records rows) - row_page_header_size
        ≡ length (records rows) =
      omega arith in
    let here : page_rows (length (records rows)) columns
          (drop row_page_header_size (row_page next rows free)) (length (records rows))
        ≡ scanned (map (stored_row columns) rows) =
      page_rows-records columns (length (records rows)) rows free stored (omega arith) in
    rw (
      page,
      row_page_data_end-row_page next rows free fits,
      row_page_next-row_page p next rows free inside small,
      rest,
      left,
      here,
      map-append (stored_row columns) rows later,
      on_a_page page_num (scanned [])
          (scanned (map (stored_row columns) rows ++ map (stored_row columns) later)) positive,
    )
