-- ===== src/Chunk.antt =====
-- src/chunk.c and include/compiler.h: a compiled program: its code with the line and column of each
-- byte, its constants and its triggers. An array with its count and capacity is a `Buffer`; memory
-- is taken to be granted, and a capacity to fit its `int`. The values of constants are a parameter.
pub mod Edits
mod Tests
use my_pl.Prelude.{
  ℕ, ◌+◌, ◌-◌, ◌*◌, ◌/◌, ◌%◌, Bool, List, [], ◌∷◌, ◌++◌, Option, none, leb, ltb, if◌then◌else◌,
  length, map,
}
use my_pl.Prelude.Int.{ℤ, negsuc}
use my_pl.Trigger.{Text, trigger_name_equals}

pub record Buffer (A : Type 0) : Type 0 where
  pub items : List A
  pub capacity : ℕ

pub record ChunkTrigger : Type 0 where
  pub name : Text
  pub table : Text
  pub timing : ℕ
  pub event : ℕ
  pub offset : ℤ
  pub for_each_row : Bool

pub record Chunk (V : Type 0) : Type 0 where
  pub code : Buffer ℕ
  pub lines : Buffer ℤ
  pub columns : Buffer ℤ
  pub constants : Buffer V
  pub triggers : Buffer ChunkTrigger
  pub source_path : Option Text

unfoldable pub grow_capacity : ℕ → ℕ
grow_capacity capacity = if ltb capacity 8 then 8 else capacity * 2

abbrev empty : {A : Type 0} → Buffer A
empty = record { items = []; capacity = 0 }

-- `if (count >= capacity) capacity = grow_capacity(capacity); items[count++] = x`
unfoldable pub append : {A : Type 0} → A → Buffer A → Buffer A
unfolding grow_capacity
append x b = record {
  items = b.items ++ (x ∷ []);
  capacity = if leb b.capacity (length b.items) then grow_capacity b.capacity else b.capacity;
}

-- The trigger with the offset -1.
abbrev dropped : ChunkTrigger → ChunkTrigger
dropped t = record t { offset = negsuc 0 }

unfoldable pub remove_triggers : Text → List ChunkTrigger → List ChunkTrigger
remove_triggers name [] = []
remove_triggers name (t ∷ ts) =
    (if trigger_name_equals t.name name then dropped t else t) ∷ remove_triggers name ts

module _ {V : Type 0} where
  unfoldable pub init_chunk : Chunk V
  init_chunk = record {
    code = empty;
    lines = empty;
    columns = empty;
    constants = empty;
    triggers = empty;
    source_path = none;
  }

  abbrev pub chunk_add_trigger : ChunkTrigger → Chunk V → Chunk V
  chunk_add_trigger t chunk = record chunk { triggers = append t chunk.triggers }

  abbrev pub chunk_remove_trigger : Text → Chunk V → Chunk V
  chunk_remove_trigger name chunk = record chunk {
    triggers = record chunk.triggers { items = remove_triggers name chunk.triggers.items };
  }

  abbrev pub write_chunk_line : ℕ → ℤ → ℤ → Chunk V → Chunk V
  write_chunk_line byte line column chunk = record chunk {
    code = append byte chunk.code;
    lines = append line chunk.lines;
    columns = append column chunk.columns;
  }

  -- The index of the constant, and the chunk.
  abbrev pub add_constant : V → Chunk V → ℕ × Chunk V
  add_constant value chunk =
      let chunk' : Chunk V = record chunk { constants = append value chunk.constants } in
      (length chunk'.constants.items - 1, chunk')

  abbrev pub write_chunk_u16_line : ℕ → ℤ → ℤ → Chunk V → Chunk V
  write_chunk_u16_line value line column chunk =
      write_chunk_line (value % 256) line column
        (write_chunk_line (value / 256 % 256) line column chunk)

-- The number in the two bytes at the front.
unfoldable pub read_u16 : List ℕ → ℕ
read_u16 [] = 0
read_u16 (hi ∷ []) = hi * 256
read_u16 (hi ∷ lo ∷ rest) = hi * 256 + lo
