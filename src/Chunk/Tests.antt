-- ===== src/Chunk/Tests.antt =====
-- Runs of src/chunk.c, with numbers for constants.
use my_pl.Prelude.{ℕ, ◌≡◌, List, [], ◌∷◌, drop, length, arith}
use my_pl.Prelude.Int.{pos}
use my_pl.Chunk.{Chunk, init_chunk, write_chunk_u16_line, read_u16}
use my_pl.Chunk.Edits.{
  Edit, write_byte, write_u16, constant, edits, IsValid, init_chunk-IsValid, edits-IsValid,
  read_u16-edits,
}

abbrev run : List (Edit ℕ)
run = write_byte 7 (pos 1) (pos 2) ∷ constant 9 ∷ write_u16 513 (pos 3) (pos 4) ∷ []

edits-IsValid_example : IsValid (edits run init_chunk)
edits-IsValid_example = edits-IsValid run init_chunk init_chunk-IsValid

abbrev start : Chunk ℕ
start = edits run init_chunk

read_u16-edits_example :
    read_u16 (
      drop
        (length start.code.items)
        (edits run (write_chunk_u16_line 700 (pos 5) (pos 6) start)).code.items)
    ≡ 700
read_u16-edits_example = read_u16-edits 700 (pos 5) (pos 6) run start (omega arith)
