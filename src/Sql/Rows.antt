-- ===== src/Sql/Rows.antt =====
-- src/sql_engine.c: the records of rows, as the bytes on a row page. A row has a cell for each column
-- of its table, so the column count is the length of the cells.
pub mod RoundTrip
use my_pl.Prelude.{
  ℕ, zero, suc, ◌+◌, ◌*◌, ◌/◌, ◌%◌, ◌^◌, Bool, List, [], ◌∷◌, ◌++◌, Option, some, ◌==◌,
  if◌then◌else◌, length, take, drop, get_or,
}
use my_pl.Prelude.Bytes.{u16_bytes, u32_bytes, bytes_u32}
use my_pl.BTree.Key.{Cell, null, int, bool, float, string, date, timestamp, other}
use my_pl.Lexer.Token.{Text}
use my_pl.Sql.Cells.{text_or_empty}
use my_pl.Sql.Where.{Row}

-- The tags of the cells: VAL_INT to VAL_TIMESTAMP, and VAL_NULL.
abbrev val_int : ℕ
val_int = 0

abbrev val_float : ℕ
val_float = 1

abbrev val_string : ℕ
val_string = 2

abbrev val_bool : ℕ
val_bool = 3

abbrev val_date : ℕ
val_date = 4

abbrev val_timestamp : ℕ
val_timestamp = 5

abbrev val_null : ℕ
val_null = 10

unfoldable pub row_record_size : List Cell → ℕ
row_record_size [] = 2
row_record_size (int v ∷ cells) = 5 + row_record_size cells
row_record_size (float u ∷ cells) = 9 + row_record_size cells
row_record_size (string s ∷ cells) = 5 + length (text_or_empty s) + row_record_size cells
row_record_size (date s ∷ cells) = 5 + length (text_or_empty s) + row_record_size cells
row_record_size (timestamp s ∷ cells) = 5 + length (text_or_empty s) + row_record_size cells
row_record_size (bool v ∷ cells) = 5 + row_record_size cells
row_record_size (null ∷ cells) = 1 + row_record_size cells
row_record_size (other type ∷ cells) = 5 + row_record_size cells

-- A double as its bytes in memory.
abbrev u64_bytes : ℕ → List ℕ
u64_bytes u = u32_bytes (u % 2 ^ 32) ++ u32_bytes (u / 2 ^ 32)

abbrev bytes_u64 : List ℕ → ℕ
bytes_u64 bs = bytes_u32 bs + 2 ^ 32 * bytes_u32 (drop 4 bs)

-- `v != 0 ? 1 : 0`
abbrev truth_bit : ℕ → ℕ
truth_bit v = if v == 0 then 0 else 1

abbrev pub text_bytes : Text → List ℕ
text_bytes s = u32_bytes (length s) ++ s

-- A cell with its tag, in the order of the loop.
unfoldable pub serialize_cell : Cell → List ℕ
serialize_cell (int v) = val_int ∷ u32_bytes v
serialize_cell (float u) = val_float ∷ u64_bytes u
serialize_cell (string s) = val_string ∷ text_bytes (text_or_empty s)
serialize_cell (date s) = val_date ∷ text_bytes (text_or_empty s)
serialize_cell (timestamp s) = val_timestamp ∷ text_bytes (text_or_empty s)
serialize_cell (bool v) = val_bool ∷ u32_bytes (truth_bit v)
serialize_cell null = val_null ∷ []
serialize_cell (other type) = type % 256 ∷ u32_bytes 0

unfoldable pub serialize_cells : List Cell → List ℕ
unfolding serialize_cell
serialize_cells [] = []
serialize_cells (cell ∷ cells) = serialize_cell cell ++ serialize_cells cells

-- The length in front is an `int16_t`.
unfoldable pub serialize_row : List Cell → List ℕ
unfolding serialize_cells
serialize_row cells =
    let body = serialize_cells cells in u16_bytes ((2 + length body) % 2 ^ 16) ++ body

-- A text with its length in front, and what is behind it.
abbrev pub read_text : (Option Text → Cell) → List ℕ → Cell × List ℕ
read_text kind bs =
    let rest = drop 4 bs in (kind (some (take (bytes_u32 bs) rest)), drop (bytes_u32 bs) rest)

-- The bytes from `*offset` on, which a call moves behind the cell. Failed allocations are left out;
-- of a text that stands past its page or holds a NUL, as on a damaged page, the bytes there are kept.
unfoldable pub deserialize_cell : List ℕ → Cell × List ℕ
deserialize_cell bs =
    let tag = get_or bs 0 0 in
    let body = drop 1 bs in
    if tag == val_null
    then (null, body)
    else if tag == val_int
    then (int (bytes_u32 body), drop 4 body)
    else if tag == val_float
    then (float (bytes_u64 body), drop 8 body)
    else if tag == val_bool
    then (bool (truth_bit (bytes_u32 body)), drop 4 body)
    else if tag == val_string
    then read_text string body
    else if tag == val_date
    then read_text date body
    else if tag == val_timestamp
    then read_text timestamp body
    else (int 0, drop 4 body)

-- One cell for each column, with its name.
unfoldable pub deserialize_fields : List Text → List ℕ → Row
unfolding deserialize_cell
deserialize_fields [] bs = []
deserialize_fields (name ∷ names) bs =
    let (cell, rest) = deserialize_cell bs in
    let fields = deserialize_fields names rest in (name, cell) ∷ fields

unfoldable pub deserialize_row : List Text → List ℕ → Row
unfolding deserialize_fields
deserialize_row columns record_bytes = deserialize_fields columns (drop 2 record_bytes)
