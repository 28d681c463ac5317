-- ===== src/Sql/RowPages/Append.antt =====
-- src/sql_engine.c: row_page_append, which writes a row behind the last one of its table. The catalog
-- page that it writes at its end, with the first page of the table, is left to the caller.
use my_pl.Prelude.{
  ℕ, zero, suc, ◌+◌, ◌-◌, ◌≤◌, ◌≡◌, ◌≢◌, refl, sym, ap, ◌∙◌, false, List, [], ◌∷◌, ◌++◌, Option,
  none, some, length, take, drop, ltb, ◌==◌, if◌then◌else◌, arith, append_assoc, append-nil,
  length-append, take-append, drop-append,
}
use my_pl.Prelude.Bytes.{u32_bytes}
use my_pl.Pager.{Pager, page_size, read_page, write_page, allocate_page}
use my_pl.BTree.Key.{Cell}
use my_pl.Sql.Rows.{row_record_size, serialize_row}
use my_pl.Sql.Rows.RoundTrip.{serialize_row-size}
use my_pl.Sql.RowPages.{row_page_header_size, row_page_data_end, row_page_next, row_page_init}
use my_pl.Sql.RowPages.Scan.{records, row_page, row_page_data_end-row_page}

-- The pages of a table.
pub record Table : Type 0 where
  pub first_row_page : ℕ
  pub last_row_page : ℕ

-- The result 1 with the page and the offset, the result 0, or fuel that ran out.
pub data Appended : Type 0 where
  appended : ℕ → ℕ → Appended
  refused out_of_fuel : Appended

-- `memcpy(page + at, bytes, length)`
abbrev pub overwrite : ℕ → List ℕ → List ℕ → List ℕ
overwrite at bytes page = take at page ++ (bytes ++ drop (length bytes) (drop at page))

-- The page with the record at the free pointer, and the free pointer behind it.
unfoldable pub put_record : ℕ → List Cell → List ℕ → List ℕ
unfolding serialize_row row_record_size
put_record free_ptr cells page =
    overwrite 4 (u32_bytes (free_ptr + row_record_size cells))
      (overwrite free_ptr (serialize_row cells) page)

-- The loop to the real tail.
unfoldable pub find_tail : ℕ → Pager → ℕ → Option ℕ
unfolding row_page_next
find_tail zero p page_num = none
find_tail (suc fuel) p page_num =
    let next = row_page_next p (read_page p page_num) in
    let later = find_tail fuel p next in if next == 0 then some page_num else later

-- The record on the page that `tail` is, or on a fresh page behind it.
unfoldable pub put_on : Pager → Table → ℕ → List ℕ → List Cell → Appended × (Pager × Table)
unfolding put_record row_page_data_end row_page_init row_record_size
put_on p t tail bytes cells =
    let free_ptr = row_page_data_end bytes in
    let page = overwrite 0 (u32_bytes 0) bytes in
    if ltb page_size (free_ptr + row_record_size cells)
    then (let (page_num, q) = allocate_page p in
        elim page_num [
          | none ↦ (refused, (q, t))
          | some fresh ↦ (
            appended fresh row_page_header_size,
            (
              write_page (write_page q tail (overwrite 0 (u32_bytes fresh) page)) fresh
                  (put_record row_page_header_size cells row_page_init),
              record t { last_row_page = fresh },
            ),
          )
        ])
    else (appended tail free_ptr, (write_page p tail (put_record free_ptr cells page), t))

unfoldable pub row_page_append : ℕ → Pager → Table → List Cell → Appended × (Pager × Table)
row_page_append fuel p t cells =
    if ltb (page_size - row_page_header_size) (row_record_size cells)
    then (refused, (p, t))
    else if t.last_row_page == 0
    then (let (page_num, q) = allocate_page p in
        elim page_num [
          | none ↦ (refused, (q, t))
          | some fresh ↦
              put_on q (record { first_row_page = fresh; last_row_page = fresh }) fresh
                row_page_init cells
        ])
    else elim (find_tail fuel p t.last_row_page) [
      | none ↦ (out_of_fuel, (p, t))
      | some tail ↦ put_on p (record t { last_row_page = tail }) tail (read_page p tail) cells
    ]

overwrite-append :
    (at : ℕ) (front back bytes : List ℕ)
    → length front ≡ at
    → overwrite at bytes (front ++ back) ≡ front ++ (bytes ++ drop (length bytes) back)
overwrite-append at front back bytes h =
    rw (take-append at front back h, drop-append at front back h)

pub records-append :
    (rows : List (List Cell)) (cells : List Cell)
    → records (rows ++ (cells ∷ [])) ≡ records rows ++ serialize_row cells
records-append [] cells = append-nil (serialize_row cells)
records-append (row ∷ rows) cells =
    ap (λ xs. serialize_row row ++ xs) (records-append rows cells)
    ∙ sym (append_assoc (serialize_row row) (records rows) (serialize_row cells))

records_behind :
    (rows : List (List Cell)) (cells : List Cell) (free : List ℕ)
    → records rows ++ (serialize_row cells ++ drop (length (serialize_row cells)) free)
      ≡ records (rows ++ (cells ∷ [])) ++ drop (row_record_size cells) free
records_behind rows cells free =
    rw ((serialize_row-size cells).0, records-append rows cells, append_assoc) refl

-- A record on a row page with room for it.
pub put_record-row_page :
    (next : ℕ) (rows : List (List Cell)) (cells : List Cell) (free : List ℕ)
    → put_record
        (row_page_header_size + length (records rows))
        cells
        (overwrite 0 (u32_bytes 0) (row_page next rows free))
      ≡ row_page 0 (rows ++ (cells ∷ [])) (drop (row_record_size cells) free)
unfolding put_record
put_record-row_page next rows cells free =
    let size = (serialize_row-size cells).0 in
    let at = row_page_header_size + length (records rows) in
    let front = u32_bytes 0 ++ (u32_bytes at ++ records rows) in
    let placed : overwrite at (serialize_row cells)
          (u32_bytes 0 ++ (u32_bytes at ++ (records rows ++ free)))
        ≡ front ++ (serialize_row cells ++ drop (length (serialize_row cells)) free) =
      overwrite-append at front free (serialize_row cells) (omega arith) in
    let end : at + row_record_size cells
        ≡ row_page_header_size + length (records (rows ++ (cells ∷ []))) =
      omega (
        arith,
        ap length (records-append rows cells),
        length-append (records rows) (serialize_row cells),
        size,
      ) in
    ap (overwrite 4 (u32_bytes (at + row_record_size cells))) placed
    ∙ ap
        (λ e.
          u32_bytes 0
          ++ (u32_bytes e
              ++ (records rows
                  ++ (serialize_row cells ++ drop (length (serialize_row cells)) free))))
        end
    ∙ ap
        (λ xs.
          u32_bytes 0
          ++ (u32_bytes (row_page_header_size + length (records (rows ++ (cells ∷ [])))) ++ xs))
        (records_behind rows cells free)

pub not_above : (bound n : ℕ) → n ≤ bound → ltb bound n ≡ false
not_above bound n h = ground arith

not_zero : (n : ℕ) → n ≢ 0 → (n == 0) ≡ false
not_zero n h = ground arith

pub put_on-room :
    (p : Pager) (t : Table) (tail next : ℕ) (rows : List (List Cell)) (cells : List Cell)
    (free : List ℕ)
    → row_page_header_size + length (records rows) + row_record_size cells ≤ page_size
    → put_on p t tail (row_page next rows free) cells ≡ (
      appended tail (row_page_header_size + length (records rows)),
      (
        write_page p tail (row_page 0 (rows ++ (cells ∷ [])) (drop (row_record_size cells) free)),
        t,
      ),
    )
unfolding put_on
put_on-room p t tail next rows cells free room = rw (
  row_page_data_end-row_page next rows free (omega (arith, room)),
  not_above page_size (row_page_header_size + length (records rows) + row_record_size cells) room,
  put_record-row_page next rows cells free,
)

-- A row that fits behind the last one on the tail of its table's chain goes there, is found at the
-- page and the offset that are given back, and the tail then holds its rows and the new one and is
-- the last page of the table; that page is the only one written.
pub row_page_append-room :
    (fuel : ℕ) (p : Pager) (t : Table) (tail next : ℕ) (rows : List (List Cell)) (cells : List Cell)
    (free : List ℕ)
    → t.last_row_page ≢ 0
    → find_tail fuel p t.last_row_page ≡ some tail
    → read_page p tail ≡ row_page next rows free
    → row_page_header_size + length (records rows) + row_record_size cells ≤ page_size
    → row_page_append fuel p t cells ≡ (
      appended tail (row_page_header_size + length (records rows)),
      (
        write_page p tail (row_page 0 (rows ++ (cells ∷ [])) (drop (row_record_size cells) free)),
        record t { last_row_page = tail },
      ),
    )
unfolding row_page_append
row_page_append-room fuel p t tail next rows cells free some_page found page room = rw (
  not_above (page_size - row_page_header_size) (row_record_size cells) (omega (arith, room)),
  not_zero t.last_row_page some_page,
  found,
  page,
  put_on-room p (record t { last_row_page = tail }) tail next rows cells free room,
)
