-- ===== src/Sql/RowPages/Full.antt =====
-- src/sql_engine.c: row_page_append and a scan of the table, where the last page is full.
use my_pl.Prelude.{
  ℕ, suc, ◌+◌, ◌-◌, ◌≤◌, ◌<◌, ◌^◌, ◌≡◌, ◌≢◌, refl, List, [], ◌∷◌, ◌++◌, length, map, some,
  length-append, arith,
}
use my_pl.Pager.{Pager, page_size, allocate_page, read_page, write_page}
use my_pl.Pager.Alloc.{IsValid, InUse, allocate_page-Allocated}
use my_pl.Pager.Pages
use my_pl.BTree.Key.{Cell}
use my_pl.Lexer.Token.{Text}
use my_pl.Sql.Rows.{row_record_size, serialize_row}
use my_pl.Sql.Rows.RoundTrip.{stored_row, serialize_row-size}
use my_pl.Sql.RowPages.{row_page_header_size, scanned, read_all_rows}
use my_pl.Sql.RowPages.Append.{Table, appended, not_above, find_tail, row_page_append}
use my_pl.Sql.RowPages.Scan.{Fits, records, row_page, read_all_rows-Chain}
use my_pl.Sql.RowPages.Grow.{
  ChainTo, at_tail, before, tail_page, find_tail-ChainTo, ChainTo-Chain, not_zero,
}
use my_pl.Sql.RowPages.Extend.{
  AllUsed, space_behind, put_on-full, extended-ChainTo, extended-count, reads_others,
}

module _ {p : Pager} {columns : List Text} {tail : ℕ} {rows : List (List Cell)}
    {free : List ℕ} where
  tail_used :
      {count n : ℕ} {earlier : List (List Cell)}
      (chain : ChainTo p columns tail rows free count n earlier)
      → AllUsed chain
      → InUse p tail
  tail_used (at_tail e pos inside page fits stored) used = rw (← e) used
  tail_used (before here earlier space pos n_in page on next_in fits stored chain) used =
      tail_used chain used.1

  rows_size :
      {count n : ℕ} {earlier : List (List Cell)}
      → ChainTo p columns tail rows free count n earlier
      → row_page_header_size + length (records rows) ≤ page_size
  rows_size (at_tail e pos inside page fits stored) = fits
  rows_size (before here earlier space pos n_in page on next_in fits stored chain) = rows_size chain

row_page_append-full :
    (fuel : ℕ) (p q : Pager) (t : Table) (tail fresh : ℕ) (rows : List (List Cell))
    (cells : List Cell) (free : List ℕ)
    → 0 < t.last_row_page
    → find_tail fuel p t.last_row_page ≡ some tail
    → read_page p tail ≡ row_page 0 rows free
    → row_page_header_size + length (records rows) ≤ page_size
    → page_size < row_page_header_size + length (records rows) + row_record_size cells
    → row_record_size cells ≤ page_size - row_page_header_size
    → allocate_page p ≡ (some fresh, q)
    → row_page_append fuel p t cells ≡ (
      appended fresh row_page_header_size,
      (
        write_page
            (write_page q tail (row_page fresh rows free))
            fresh
            (row_page 0 (cells ∷ []) (space_behind cells)),
        record t { last_row_page = fresh },
      ),
    )
unfolding row_page_append
row_page_append-full fuel p q t tail fresh rows cells free on found page fits full small
      fresh_page =
    rw (
      not_above (page_size - row_page_header_size) (row_record_size cells) small,
      not_zero t.last_row_page on,
      found,
      page,
      put_on-full p q (record t { last_row_page = tail }) tail 0 fresh rows cells free fits full
          fresh_page,
    )

-- On a valid pager, a row of the columns that fits an empty page but not behind the last row of its
-- table's chain, whose pages are in use, goes onto the page that the pager allocates: the answer is
-- that page with the offset behind its header, `last_row_page` is set to it, the old last page and
-- the fresh one are the only ones that change, and a scan of the table then gives the rows from
-- before and the new one behind them.
pub read_all_rows-row_page_append_full :
    (fuel scan_fuel : ℕ) (p q : Pager) (t : Table) {columns : List Text} {tail fresh : ℕ}
    {rows : List (List Cell)} {free : List ℕ} {count count' : ℕ}
    {earlier earlier' : List (List Cell)} (cells : List Cell)
    → IsValid p
    → Pages.Fits p
    → (chain : ChainTo p columns tail rows free count t.first_row_page earlier) → AllUsed chain
    → ChainTo p columns tail rows free count' t.last_row_page earlier'
    → count' ≤ fuel
    → suc count ≤ scan_fuel
    → Fits columns cells
    → row_record_size cells ≤ page_size - row_page_header_size
    → page_size < row_page_header_size + length (records rows) + row_record_size cells
    → allocate_page p ≡ (some fresh, q)
    → let (answer, (p', t')) = row_page_append fuel p t cells in
      (answer ≡ appended fresh row_page_header_size)
      × (t' ≡ record t { last_row_page = fresh })
      × ((n : ℕ) → n < 2 ^ 31 → n ≢ tail → n ≢ fresh → read_page p' n ≡ read_page p n)
      × (read_all_rows scan_fuel p' columns t.first_row_page
          ≡ scanned (map (stored_row columns) ((earlier ++ rows) ++ (cells ∷ []))))
read_all_rows-row_page_append_full fuel scan_fuel p q t {columns} {tail} {fresh} {rows} {free} cells
      v f chain used last enough scan_enough fit small full fresh_page =
    let al = allocate_page-Allocated {i = fresh} v fresh_page in
    let (page, inside, on) = tail_page last in
    let in_use = tail_used chain used in
    let space = space_behind cells in
    let new = cells ∷ [] in
    let size : row_page_header_size + length (records new) ≤ page_size =
      omega (arith, length-append (serialize_row cells) [], (serialize_row-size cells).0, small) in
    let count_same = extended-count tail rows free new space v f al inside in_use in
    let grown =
      extended-ChainTo tail rows free new space v f al inside in_use size (fit, tt) chain used in
    let run =
      row_page_append-full fuel p q t tail fresh rows cells free on
        (find_tail-ChainTo fuel (omega (arith, v.count_le)) last enough) page (rows_size last) full
        small fresh_page in
    rw (run) (
      refl,
      refl,
      (λ n hn not_tail not_fresh.
          reads_others tail rows free new space v f al inside in_use n hn not_tail not_fresh),
      read_all_rows-Chain _ columns (omega (arith, count_same, al.1.count_le)) (ChainTo-Chain grown)
          scan_fuel scan_enough,
    )
