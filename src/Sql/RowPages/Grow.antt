-- ===== src/Sql/RowPages/Grow.antt =====
-- src/sql_engine.c: what row_page_append does to the chain of a table, and to a scan of it.
use my_pl.Prelude.{
  ℕ, zero, suc, ◌+◌, ◌≤◌, ◌<◌, ◌^◌, ◌≡◌, ◌≢◌, refl, sym, ap, ◌∙◌, true, false, List, [], ◌∷◌, ◌++◌,
  length, map, some, drop, All, All-append, append_assoc, append-nil, length-append, ◌==◌, ◌&&◌,
  ltb, arith,
}
use my_pl.Prelude.Bytes.{u32_bytes, bytes_u32, bytes_u32-u32_bytes}
use my_pl.Pager.{Pager, page_size, bitmap_bits, read_page, write_page}
use my_pl.Pager.Alloc.{IsValid}
use my_pl.Pager.Pages
use my_pl.Pager.Pages.{read_page-write_page}
use my_pl.BTree.Key.{Cell}
use my_pl.Lexer.Token.{Text}
use my_pl.Sql.Rows.{row_record_size, serialize_row}
use my_pl.Sql.Rows.RoundTrip.{stored_row, serialize_row-size}
use my_pl.Sql.RowPages.{row_page_header_size, scanned, read_all_rows}
use my_pl.Sql.RowPages.Append.{
  Table, appended, find_tail, row_page_append, records-append, row_page_append-room,
}
use my_pl.Sql.RowPages.Scan.{
  Fits, records, row_page, Chain, nowhere, linked, row_page_next-row_page, read_all_rows-Chain,
}

-- The chain from a page to `tail`, which links to no other: how many pages there are, and the rows
-- ahead of those on `tail`.
pub data ChainTo (p : Pager) (columns : List Text) (tail : ℕ) (rows : List (List Cell))
    (free : List ℕ) : ℕ → ℕ → List (List Cell) → Type 0 where
  at_tail :
      {page_num : ℕ}
      → page_num ≡ tail
      → 0 < tail
      → tail < p.page_count
      → read_page p tail ≡ row_page 0 rows free
      → row_page_header_size + length (records rows) ≤ page_size
      → All (Fits columns) rows
      → ChainTo p columns tail rows free 1 page_num []
  before :
      {count page_num next : ℕ} (here earlier : List (List Cell)) (space : List ℕ)
      → 0 < page_num
      → page_num < p.page_count
      → read_page p page_num ≡ row_page next here space
      → 0 < next
      → next < p.page_count
      → row_page_header_size + length (records here) ≤ page_size
      → All (Fits columns) here
      → ChainTo p columns tail rows free count next earlier
      → ChainTo p columns tail rows free (suc count) page_num (here ++ earlier)

pub not_zero : (n : ℕ) → 0 < n → (n == 0) ≡ false
not_zero n h = ground arith

module _ {p : Pager} {columns : List Text} {tail : ℕ} {rows : List (List Cell)}
    {free : List ℕ} where
  pub tail_page :
      {count n : ℕ} {earlier : List (List Cell)}
      → ChainTo p columns tail rows free count n earlier
      → (read_page p tail ≡ row_page 0 rows free) × (tail < p.page_count) × (0 < n)
  tail_page (at_tail e pos inside page fits stored) = (page, inside, omega (arith, e, pos))
  tail_page (before here earlier space pos _ page _ _ fits stored chain) =
      let (found, inside, _) = tail_page chain in (found, inside, pos)

  rows_fit :
      {count n : ℕ} {earlier : List (List Cell)}
      → ChainTo p columns tail rows free count n earlier
      → All (Fits columns) rows
  rows_fit (at_tail e pos inside page fits stored) = stored
  rows_fit (before here earlier space pos _ page _ _ fits stored chain) = rows_fit chain

  -- The loop ends on the last page.
  pub find_tail-ChainTo :
      {count n : ℕ} {earlier : List (List Cell)} (fuel : ℕ)
      → p.page_count < 2 ^ 31
      → ChainTo p columns tail rows free count n earlier
      → count ≤ fuel
      → find_tail fuel p n ≡ some tail
  unfolding find_tail
  find_tail-ChainTo zero small (at_tail e pos inside page fits stored) enough =
      absurd (omega (arith, enough))
  find_tail-ChainTo (suc fuel) small (at_tail e pos inside page fits stored) enough = rw (e, page)
  find_tail-ChainTo zero small (before here earlier space pos _ page on next_in fits stored chain)
        enough =
      absurd (omega (arith, enough))
  find_tail-ChainTo (suc fuel) small
        (before {next = next} here earlier space pos _ page on next_in fits stored chain) enough =
      rw (
        page,
        row_page_next-row_page p next here space next_in small,
        not_zero next on,
        find_tail-ChainTo fuel small chain (omega (arith, enough)),
      )

  pub ChainTo-Chain :
      {count n : ℕ} {earlier : List (List Cell)}
      → ChainTo p columns tail rows free count n earlier
      → Chain p columns count n (earlier ++ rows)
  ChainTo-Chain (at_tail e pos inside page fits stored) =
      rw (e, ← append-nil rows)
        (linked rows [] free pos page (omega (arith, inside)) fits stored nowhere)
  ChainTo-Chain (before here earlier space pos _ page on next_in fits stored chain) =
      rw (append_assoc)
        (linked here (earlier ++ rows) space pos page next_in fits stored (ChainTo-Chain chain))

pub reads_back : (tail : ℕ) → tail < bitmap_bits → (tail == tail && ltb tail bitmap_bits) ≡ true
reads_back tail h = ground arith

pub reads_other : (n tail : ℕ) → n ≢ tail → (n == tail && ltb tail bitmap_bits) ≡ false
reads_other n tail h = ground arith

-- A page that links to another is not the last one.
pub link_differs :
    (next : ℕ) (here rows : List (List Cell)) (space free : List ℕ)
    → next < 2 ^ 32
    → row_page next here space ≡ row_page 0 rows free
    → next ≡ 0
link_differs next here rows space free small e =
    sym (
      bytes_u32-u32_bytes next
        (u32_bytes (row_page_header_size + length (records here)) ++ (records here ++ space)) small)
    ∙ ap bytes_u32 e

pub write_page-count :
    (p : Pager) (n : ℕ) (bytes : List ℕ)
    → n < p.page_count
    → p.page_count ≤ bitmap_bits
    → (write_page p n bytes).page_count ≡ p.page_count
unfolding write_page
write_page-count p n bytes h c = ground arith

module _ {p : Pager} (tail : ℕ) (v : IsValid p) (f : Pages.Fits p) (rows' : List (List Cell))
    (free' : List ℕ) where
  others_stay :
      (n : ℕ)
      → tail < p.page_count
      → n < 2 ^ 31
      → n ≢ tail
      → read_page (write_page p tail (row_page 0 rows' free')) n ≡ read_page p n
  others_stay n inside hn differ =
      read_page-write_page p tail n (row_page 0 rows' free') v f (omega (arith, inside, v.count_le))
        hn
      ∙ rw (reads_other n tail differ)

  -- The last page takes other rows, and the chain up to it stays.
  written-ChainTo :
      {columns : List Text} {rows : List (List Cell)} {free : List ℕ} {count n : ℕ}
      {earlier : List (List Cell)}
      → row_page_header_size + length (records rows') ≤ page_size
      → All (Fits columns) rows'
      → ChainTo p columns tail rows free count n earlier
      → ChainTo
          (write_page p tail (row_page 0 rows' free'))
          columns
          tail
          rows'
          free'
          count
          n
          earlier
  written-ChainTo size stored' (at_tail e pos inside page fits stored) =
      let same = write_page-count p tail (row_page 0 rows' free') inside v.count_le in
      at_tail e pos (omega (arith, same, inside))
        (read_page-write_page p tail tail (row_page 0 rows' free') v f
            (omega (arith, inside, v.count_le)) (omega (arith, inside, v.count_le))
          ∙ rw (reads_back tail (omega (arith, inside, v.count_le))))
        size stored'
  written-ChainTo {rows = rows} {free = free} size stored'
        (before {page_num = n} {next = next} here earlier space pos n_in page on next_in fits stored
          chain) =
      let (last, inside, _) = tail_page chain in
      let same = write_page-count p tail (row_page 0 rows' free') inside v.count_le in
      let differ : n ≢ tail = λ e.
        let zero_link =
          link_differs next here rows space free (omega (arith, next_in, v.count_le))
            (sym page ∙ ap (read_page p) e ∙ last) in
        absurd (omega (arith, zero_link, on)) in
      before here earlier space pos (omega (arith, same, n_in))
        (others_stay n inside (omega (arith, n_in, v.count_le)) differ ∙ page) on
        (omega (arith, same, next_in)) fits stored (written-ChainTo size stored' chain)

-- On a valid pager, a row of the columns that fits behind the last one goes onto the last page of
-- its table's chain, wherever on the chain `last_row_page` stands: the answer is that page with the
-- offset, `last_row_page` is set to it, no other page changes, and a scan of the table then gives
-- the rows from before and the new one behind them. A step for each page from `last_row_page` on,
-- and for the scan for each page, is enough.
pub read_all_rows-row_page_append :
    (fuel scan_fuel : ℕ) (p : Pager) (t : Table) {columns : List Text} {tail : ℕ}
    {rows : List (List Cell)} {free : List ℕ} {count count' : ℕ}
    {earlier earlier' : List (List Cell)} (cells : List Cell)
    → IsValid p
    → Pages.Fits p
    → ChainTo p columns tail rows free count t.first_row_page earlier
    → ChainTo p columns tail rows free count' t.last_row_page earlier'
    → count' ≤ fuel
    → count ≤ scan_fuel
    → Fits columns cells
    → row_page_header_size + length (records rows) + row_record_size cells ≤ page_size
    → let (answer, (p', t')) = row_page_append fuel p t cells in
      (answer ≡ appended tail (row_page_header_size + length (records rows)))
      × (t' ≡ record t { last_row_page = tail })
      × ((n : ℕ) → n < 2 ^ 31 → n ≢ tail → read_page p' n ≡ read_page p n)
      × (read_all_rows scan_fuel p' columns t.first_row_page
          ≡ scanned (map (stored_row columns) (earlier ++ (rows ++ (cells ∷ [])))))
read_all_rows-row_page_append fuel scan_fuel p t {columns} {tail} {rows} {free} cells v f chain last
      enough scan_enough fit room =
    let small : p.page_count < 2 ^ 31 = omega (arith, v.count_le) in
    let (page, inside, on) = tail_page last in
    let after = drop (row_record_size cells) free in
    let rows' = rows ++ (cells ∷ []) in
    let size : row_page_header_size + length (records rows') ≤ page_size = omega (
      arith,
      ap length (records-append rows cells),
      length-append (records rows) (serialize_row cells),
      (serialize_row-size cells).0,
      room,
    ) in
    let same = write_page-count p tail (row_page 0 rows' after) inside v.count_le in
    let grown =
      written-ChainTo tail v f rows' after size
        (All-append (Fits columns) rows (cells ∷ []) (rows_fit chain) (fit, tt)) chain in
    let run =
      row_page_append-room fuel p t tail 0 rows cells free (λ e. absurd (omega (arith, e, on)))
        (find_tail-ChainTo fuel small last enough) page room in
    rw (run) (
      refl,
      refl,
      (λ n hn differ. others_stay tail v f rows' after n inside hn differ),
      read_all_rows-Chain (write_page p tail (row_page 0 rows' after)) columns
          (omega (arith, same, small)) (ChainTo-Chain grown) scan_fuel scan_enough,
    )
