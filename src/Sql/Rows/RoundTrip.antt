-- ===== src/Sql/Rows/RoundTrip.antt =====
-- A row that was serialized reads back, and its record has the size that was reckoned.
use my_pl.Prelude.{
  ℕ, ◌+◌, ◌^◌, ◌≤◌, ◌<◌, ◌≡◌, refl, List, [], ◌∷◌, ◌++◌, Option, some, length, All, append_assoc,
  length-append, take-append, drop-append, arith, if◌then◌else◌, ◌==◌,
}
use my_pl.Prelude.Bytes.{bytes_u16, bytes_u32, bytes_u32-u32_bytes}
use my_pl.BTree.Key.{Cell, null, int, bool, float, string, date, timestamp, other}
use my_pl.Lexer.Token.{Text}
use my_pl.Sql.Cells.{text_or_empty}
use my_pl.Sql.Where.{Row}
use my_pl.Sql.Rows.{
  row_record_size, serialize_cell, serialize_cells, serialize_row, deserialize_cell,
  deserialize_fields, read_text, text_bytes, deserialize_row,
}

length-serialize_cells :
    (cells : List Cell) → 2 + length (serialize_cells cells) ≡ row_record_size cells
unfolding serialize_cells row_record_size serialize_cell
length-serialize_cells [] = refl
length-serialize_cells (int v ∷ cells) = omega (arith, length-serialize_cells cells)
length-serialize_cells (float v ∷ cells) = omega (arith, length-serialize_cells cells)
length-serialize_cells (bool v ∷ cells) = omega (arith, length-serialize_cells cells)
length-serialize_cells (null ∷ cells) = omega (arith, length-serialize_cells cells)
length-serialize_cells (other v ∷ cells) = omega (arith, length-serialize_cells cells)
length-serialize_cells (string s ∷ cells) =
    omega
      (arith, length-serialize_cells cells, length-append (text_or_empty s) (serialize_cells cells))
length-serialize_cells (date s ∷ cells) =
    omega
      (arith, length-serialize_cells cells, length-append (text_or_empty s) (serialize_cells cells))
length-serialize_cells (timestamp s ∷ cells) =
    omega
      (arith, length-serialize_cells cells, length-append (text_or_empty s) (serialize_cells cells))

-- A row fits in as many bytes as row_record_size reckons, and where these are below 2 ^ 15 the
-- length in front of the record is that size.
pub serialize_row-size :
    (cells : List Cell)
    → (length (serialize_row cells) ≡ row_record_size cells)
      × (row_record_size cells < 2 ^ 15 → bytes_u16 (serialize_row cells) ≡ row_record_size cells)
unfolding serialize_row
serialize_row-size cells = (
  omega (arith, length-serialize_cells cells),
  λ small. omega (arith, length-serialize_cells cells, small),
)

pub bytes_u16-serialize_row :
    (cells : List Cell) (rest : List ℕ)
    → row_record_size cells < 2 ^ 15
    → bytes_u16 (serialize_row cells ++ rest) ≡ row_record_size cells
unfolding serialize_row
bytes_u16-serialize_row cells rest small = omega (arith, length-serialize_cells cells, small)

pub row_record_size-positive : (cells : List Cell) → 0 < row_record_size cells
row_record_size-positive cells = omega (arith, length-serialize_cells cells)

-- Cells as memory holds them: 32-bit integers, 64-bit doubles and texts whose length is an `int`.
abbrev pub IsStorable : Cell → Type 0
IsStorable (int v) = v < 2 ^ 32
IsStorable (float u) = u < 2 ^ 64
IsStorable (string s) = length (text_or_empty s) < 2 ^ 31
IsStorable (date s) = length (text_or_empty s) < 2 ^ 31
IsStorable (timestamp s) = length (text_or_empty s) < 2 ^ 31
IsStorable (bool v) = Unit
IsStorable null = Unit
IsStorable (other type) = (6 ≤ type) × (type < 10)

-- What comes back: a boolean as 0 or 1, a NULL text as the empty one, and the integer 0 for a value
-- that a column cannot hold.
abbrev pub as_stored : Cell → Cell
as_stored (bool v) = bool (if v == 0 then 0 else 1)
as_stored (string s) = string (some (text_or_empty s))
as_stored (date s) = date (some (text_or_empty s))
as_stored (timestamp s) = timestamp (some (text_or_empty s))
as_stored (other type) = int 0
as_stored cell = cell

read_text-text_bytes :
    (kind : Option Text → Cell) (s : Text) (rest : List ℕ)
    → length s < 2 ^ 31
    → read_text kind (text_bytes s ++ rest) ≡ (kind (some s), rest)
read_text-text_bytes kind s rest h =
    let size : bytes_u32 (text_bytes s ++ rest) ≡ length s =
      bytes_u32-u32_bytes (length s) (s ++ rest) (omega (arith, h)) in
    rw (size, take-append (length s) s rest refl, drop-append (length s) s rest refl)

deserialize_cell-serialize_cell :
    (cell : Cell) (rest : List ℕ)
    → IsStorable cell
    → deserialize_cell (serialize_cell cell ++ rest) ≡ (as_stored cell, rest)
unfolding deserialize_cell serialize_cell
deserialize_cell-serialize_cell (int v) rest h = ground (arith, h)
deserialize_cell-serialize_cell (float u) rest h = ground (arith, h)
deserialize_cell-serialize_cell (bool v) rest h = ground arith
deserialize_cell-serialize_cell null rest h = refl
deserialize_cell-serialize_cell (other type) rest h = ground (arith, h.0, h.1)
deserialize_cell-serialize_cell (string s) rest h =
    read_text-text_bytes string (text_or_empty s) rest h
deserialize_cell-serialize_cell (date s) rest h = read_text-text_bytes date (text_or_empty s) rest h
deserialize_cell-serialize_cell (timestamp s) rest h =
    read_text-text_bytes timestamp (text_or_empty s) rest h

-- Each column's name with what its cell reads back as.
abbrev pub stored_row : List Text → List Cell → Row
stored_row [] cells = []
stored_row (name ∷ names) [] = []
stored_row (name ∷ names) (cell ∷ cells) = (name, as_stored cell) ∷ stored_row names cells

deserialize_fields-serialize_cells :
    (columns : List Text) (cells : List Cell) (rest : List ℕ)
    → length columns ≡ length cells
    → All IsStorable cells
    → deserialize_fields columns (serialize_cells cells ++ rest) ≡ stored_row columns cells
unfolding deserialize_fields serialize_cells
deserialize_fields-serialize_cells [] cells rest len h = refl
deserialize_fields-serialize_cells (name ∷ names) [] rest len h = absurd (omega (arith, len))
deserialize_fields-serialize_cells (name ∷ names) (cell ∷ cells) rest len h = rw (
  append_assoc,
  deserialize_cell-serialize_cell cell (serialize_cells cells ++ rest) h.0,
  deserialize_fields-serialize_cells names cells rest (omega (arith, len)) h.1,
)

-- A record of storable cells, with any bytes behind it, reads back as the row with the names of the
-- columns: every cell as it was, but a boolean as 0 or 1, a NULL text as the empty one, and a value
-- that a column cannot hold as the integer 0.
pub deserialize_row-serialize_row :
    (columns : List Text) (cells : List Cell) (rest : List ℕ)
    → length columns ≡ length cells
    → All IsStorable cells
    → deserialize_row columns (serialize_row cells ++ rest) ≡ stored_row columns cells
unfolding deserialize_row serialize_row
deserialize_row-serialize_row columns cells rest len h =
    deserialize_fields-serialize_cells columns cells rest len h
