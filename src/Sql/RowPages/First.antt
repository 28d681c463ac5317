-- ===== src/Sql/RowPages/First.antt =====
-- src/sql_engine.c: row_page_append and a scan of the table, for its first row.
use my_pl.Prelude.{
  ℕ, ◌+◌, ◌-◌, ◌≤◌, ◌<◌, ◌^◌, ◌≡◌, ◌≢◌, refl, ap, ◌∙◌, List, [], ◌∷◌, Option, length, some,
  replicate, length-append, arith,
}
use my_pl.Pager.{Pager, page_size, allocate_page, read_page, write_page}
use my_pl.Pager.Alloc.{IsValid, allocate_page-Allocated}
use my_pl.Pager.Pages
use my_pl.Pager.Pages.{read_page-write_page, read_page-Allocated, Allocated-Fits}
use my_pl.BTree.Key.{Cell}
use my_pl.Lexer.Token.{Text}
use my_pl.Sql.Rows.{row_record_size, serialize_row}
use my_pl.Sql.Rows.RoundTrip.{stored_row, serialize_row-size}
use my_pl.Sql.RowPages.{row_page_header_size, row_page_init, scanned, read_all_rows}
use my_pl.Sql.RowPages.Append.{Table, appended, not_above, put_on-room, row_page_append}
use my_pl.Sql.RowPages.Scan.{Fits, records, row_page, read_all_rows-Chain}
use my_pl.Sql.RowPages.Grow.{at_tail, ChainTo-Chain, reads_back, reads_other, write_page-count}
use my_pl.Sql.RowPages.Extend.{space_behind}

row_page_append-first :
    (fuel : ℕ) (p q : Pager) (t : Table) (fresh : ℕ) (cells : List Cell)
    → t.last_row_page ≡ 0
    → row_record_size cells ≤ page_size - row_page_header_size
    → allocate_page p ≡ (some fresh, q)
    → row_page_append fuel p t cells ≡ (
      appended fresh row_page_header_size,
      (
        write_page q fresh (row_page 0 (cells ∷ []) (space_behind cells)),
        record { first_row_page = fresh; last_row_page = fresh },
      ),
    )
unfolding row_page_append row_page_init
row_page_append-first fuel p q t fresh cells none_yet small fresh_page = rw (
  not_above (page_size - row_page_header_size) (row_record_size cells) small,
  none_yet,
  fresh_page,
  ap (λ (r : Option ℕ × Pager). r.1) fresh_page,
  put_on-room q (record { first_row_page = fresh; last_row_page = fresh }) fresh 0 [] cells
      (replicate (page_size - row_page_header_size) 0) (omega (arith, small)),
)

-- On a valid pager, the first row of a table, where it is of the columns and fits an empty page,
-- goes onto the page that the pager allocates: the answer is that page with the offset behind its
-- header, the page is the first and the last one of the table and the only one that changes, and a
-- scan then gives that row alone.
pub read_all_rows-row_page_append_first :
    (fuel scan_fuel : ℕ) (p q : Pager) (t : Table) (columns : List Text) {fresh : ℕ}
    (cells : List Cell)
    → IsValid p
    → Pages.Fits p
    → t.last_row_page ≡ 0
    → 1 ≤ scan_fuel
    → Fits columns cells
    → row_record_size cells ≤ page_size - row_page_header_size
    → allocate_page p ≡ (some fresh, q)
    → let (answer, (p', t')) = row_page_append fuel p t cells in
      (answer ≡ appended fresh row_page_header_size)
      × (t' ≡ record { first_row_page = fresh; last_row_page = fresh })
      × ((n : ℕ) → n < 2 ^ 31 → n ≢ fresh → read_page p' n ≡ read_page p n)
      × (read_all_rows scan_fuel p' columns fresh ≡ scanned (stored_row columns cells ∷ []))
read_all_rows-row_page_append_first fuel scan_fuel p q t columns {fresh} cells v f none_yet
      scan_enough fit small fresh_page =
    let (al, vq) = allocate_page-Allocated {i = fresh} v fresh_page in
    let fq = Allocated-Fits f al in
    let bytes = row_page 0 (cells ∷ []) (space_behind cells) in
    let size : row_page_header_size + length (records (cells ∷ [])) ≤ page_size =
      omega (arith, length-append (serialize_row cells) [], (serialize_row-size cells).0, small) in
    let count_same = write_page-count q fresh bytes al.counted vq.count_le in
    let back : read_page (write_page q fresh bytes) fresh ≡ bytes =
      read_page-write_page q fresh fresh bytes vq fq (omega (arith, al.in_range))
        (omega (arith, al.in_range))
      ∙ rw (reads_back fresh al.in_range) in
    rw (row_page_append-first fuel p q t fresh cells none_yet small fresh_page) (
      refl,
      refl,
      (λ n hn differ.
          read_page-write_page q fresh n bytes vq fq (omega (arith, al.in_range)) hn
          ∙ (rw (reads_other n fresh differ) refl)
          ∙ read_page-Allocated n v vq f hn al),
      read_all_rows-Chain _ columns (omega (arith, count_same, vq.count_le))
          (ChainTo-Chain {rows = cells ∷ []} {free = space_behind cells} (
            at_tail refl (omega (arith, al.not_header)) (omega (arith, count_same, al.counted)) back
              size (fit, tt)))
          scan_fuel scan_enough,
    )
