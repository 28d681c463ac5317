-- ===== src/Sql/RowPages/Extend.antt =====
-- src/sql_engine.c: row_page_append where the last page of the chain is full.
use my_pl.Prelude.{
  ℕ, suc, ◌+◌, ◌-◌, ◌≤◌, ◌<◌, ◌^◌, ◌≡◌, ◌≢◌, refl, sym, ap, ◌∙◌, true, List, [], ◌∷◌, ◌++◌, length,
  Option, some, drop, replicate, All, append_assoc, append-nil, ltb, arith,
}
use mathlib.Core.Path.{subst}
use my_pl.Pager.{bitmap_test, Pager, page_size, bitmap_bits, allocate_page, read_page, write_page}
use my_pl.Pager.Alloc.{IsValid, InUse, Allocated}
use my_pl.Pager.Pages
use my_pl.Pager.Pages.{
  read_page-write_page, read_page-Allocated, Allocated-Fits, write_page-IsValid,
}
use my_pl.BTree.Key.{Cell}
use my_pl.Lexer.Token.{Text}
use my_pl.Sql.Rows.{row_record_size}
use my_pl.Sql.RowPages.{row_page_header_size, row_page_init}
use my_pl.Sql.RowPages.Append.{Table, appended, put_on, put_record-row_page}
use my_pl.Sql.RowPages.Scan.{Fits, records, row_page, row_page_data_end-row_page}
use my_pl.Sql.RowPages.Grow.{
  ChainTo, at_tail, before, tail_page, reads_back, reads_other, link_differs, write_page-count,
}

-- The free space behind one record on a page that was cleared.
abbrev pub space_behind : List Cell → List ℕ
space_behind cells = drop (row_record_size cells) (replicate (page_size - row_page_header_size) 0)

above : (bound n : ℕ) → bound < n → ltb bound n ≡ true
above bound n h = ground arith

pub put_on-full :
    (p q : Pager) (t : Table) (tail next fresh : ℕ) (rows : List (List Cell)) (cells : List Cell)
    (free : List ℕ)
    → row_page_header_size + length (records rows) ≤ page_size
    → page_size < row_page_header_size + length (records rows) + row_record_size cells
    → allocate_page p ≡ (some fresh, q)
    → put_on p t tail (row_page next rows free) cells ≡ (
      appended fresh row_page_header_size,
      (
        write_page
            (write_page q tail (row_page fresh rows free))
            fresh
            (row_page 0 (cells ∷ []) (space_behind cells)),
        record t { last_row_page = fresh },
      ),
    )
unfolding put_on row_page_init
put_on-full p q t tail next fresh rows cells free fits full fresh_page = rw (
  row_page_data_end-row_page next rows free fits,
  above page_size (row_page_header_size + length (records rows) + row_record_size cells) full,
  fresh_page,
  ap (λ (r : Option ℕ × Pager). r.1) fresh_page,
  put_record-row_page 0 [] cells (replicate (page_size - row_page_header_size) 0),
)

-- The pages of a chain are in use.
abbrev pub AllUsed :
    {p : Pager} {columns : List Text} {tail : ℕ} {rows : List (List Cell)} {free : List ℕ}
    {count n : ℕ} {earlier : List (List Cell)}
    → ChainTo p columns tail rows free count n earlier
    → Type 0
AllUsed {p} (at_tail {page_num = n} e pos inside page fits stored) = InUse p n
AllUsed {p} (before {page_num = n} here earlier space pos n_in page on next_in fits stored chain) =
    InUse p n × AllUsed chain

-- A fresh page that is linked behind the page `tail`.
module _ {p q : Pager} {fresh : ℕ} (tail : ℕ) (rows : List (List Cell)) (free : List ℕ)
    (new : List (List Cell)) (space : List ℕ) (v : IsValid p) (f : Pages.Fits p)
    (al : Allocated p fresh q × IsValid q) (inside : tail < p.page_count)
    (tail_used : InUse p tail) where
  abbrev linking : Pager
  linking = write_page q tail (row_page fresh rows free)

  abbrev extended : Pager
  extended = write_page linking fresh (row_page 0 new space)

  q-Fits : Pages.Fits q
  q-Fits = Allocated-Fits f al.0

  tail_in : tail < bitmap_bits
  tail_in = omega (arith, inside, v.count_le)

  linking-IsValid : IsValid linking × Pages.Fits linking
  linking-IsValid =
      write_page-IsValid q tail (row_page fresh rows free) al.1 q-Fits (omega (arith, tail_in))

  pub extended-count : extended.page_count ≡ q.page_count
  extended-count =
      let first =
        write_page-count q tail (row_page fresh rows free) (omega (arith, inside, al.0.count_grows))
          al.1.count_le in
      write_page-count linking fresh (row_page 0 new space) (omega (arith, first, al.0.counted))
        (omega (arith, first, al.1.count_le))
      ∙ first

  -- A page in use is not the fresh one.
  used_differs : (n : ℕ) → InUse p n → n ≢ fresh
  used_differs n used e =
      absurd (omega (arith, ap (λ m. bitmap_test p.bitmap m) e, used, al.0.was_free))

  reads_fresh : read_page extended fresh ≡ row_page 0 new space
  reads_fresh =
      read_page-write_page linking fresh fresh (row_page 0 new space) linking-IsValid.0
        linking-IsValid.1 (omega (arith, al.0.in_range)) (omega (arith, al.0.in_range))
      ∙ rw (reads_back fresh al.0.in_range)

  before_fresh : (n : ℕ) → n < 2 ^ 31 → n ≢ fresh → read_page extended n ≡ read_page linking n
  before_fresh n hn differ =
      read_page-write_page linking fresh n (row_page 0 new space) linking-IsValid.0
        linking-IsValid.1 (omega (arith, al.0.in_range)) hn
      ∙ rw (reads_other n fresh differ)

  reads_tail : read_page extended tail ≡ row_page fresh rows free
  reads_tail =
      before_fresh tail (omega (arith, tail_in)) (used_differs tail tail_used)
      ∙ read_page-write_page q tail tail (row_page fresh rows free) al.1 q-Fits
          (omega (arith, tail_in)) (omega (arith, tail_in))
      ∙ rw (reads_back tail tail_in)

  pub reads_others :
      (n : ℕ) → n < 2 ^ 31 → n ≢ tail → n ≢ fresh → read_page extended n ≡ read_page p n
  reads_others n hn not_tail not_fresh =
      before_fresh n hn not_fresh
      ∙ read_page-write_page q tail n (row_page fresh rows free) al.1 q-Fits
          (omega (arith, tail_in)) hn
      ∙ (rw (reads_other n tail not_tail) refl)
      ∙ read_page-Allocated n v al.1 f hn al.0

  -- The chain goes on to the fresh page.
  pub extended-ChainTo :
      {columns : List Text} {count n : ℕ} {earlier : List (List Cell)}
      → row_page_header_size + length (records new) ≤ page_size
      → All (Fits columns) new
      → (chain : ChainTo p columns tail rows free count n earlier) → AllUsed chain
      → ChainTo extended columns fresh new space (suc count) n (earlier ++ rows)
  extended-ChainTo {columns} size new_fit (at_tail e pos _ page fits stored) used = rw (e) (
      subst (λ rs. ChainTo extended columns fresh new space 2 tail rs) (append-nil rows)
        (before rows [] free pos (omega (arith, extended-count, inside, al.0.count_grows))
          reads_tail (omega (arith, al.0.not_header)) (omega (arith, extended-count, al.0.counted))
          fits stored
          (at_tail refl (omega (arith, al.0.not_header))
            (omega (arith, extended-count, al.0.counted)) reads_fresh size new_fit)))
  extended-ChainTo size new_fit
        (before {page_num = n} {next = next} here earlier gap pos n_in page on next_in fits stored
          chain)
        (used, more) =
      let (last, _, _) = tail_page chain in
      let differ : n ≢ tail = λ e.
        let zero_link =
          link_differs next here rows gap free (omega (arith, next_in, v.count_le))
            (sym page ∙ ap (read_page p) e ∙ last) in
        absurd (omega (arith, zero_link, on)) in
      rw (append_assoc) (
        before here (earlier ++ rows) gap pos
          (omega (arith, extended-count, n_in, al.0.count_grows))
          (reads_others n (omega (arith, n_in, v.count_le)) differ (used_differs n used) ∙ page) on
          (omega (arith, extended-count, next_in, al.0.count_grows)) fits stored
          (extended-ChainTo size new_fit chain more))
