-- ===== src/Chunk/Edits.antt =====
-- Any run of the edits of src/chunk.c on a chunk.
use my_pl.Prelude.{
  ℕ, suc, ◌/◌, ◌%◌, ◌^◌, ◌≤◌, ◌<◌, List, [], ◌∷◌, ◌++◌, some, length, length-append, get_elem?,
  drop, drop-append_length, ◌≡◌, refl, sym, ap, ◌∙◌, arith, append_assoc, append-nil,
}
use my_pl.Prelude.Int.{ℤ}
use my_pl.Trigger.{Text}
use my_pl.Chunk.{
  Buffer, ChunkTrigger, Chunk, grow_capacity, append, remove_triggers, init_chunk,
  chunk_add_trigger, chunk_remove_trigger, write_chunk_line, add_constant, write_chunk_u16_line,
  read_u16,
}

abbrev pub Fits : {A : Type 0} → Buffer A → Type 0
Fits b = length b.items ≤ b.capacity

-- Every array is within its capacity, and there is a line and a column for each byte of code.
pub record IsValid {V : Type 0} (c : Chunk V) : Type 0 where
  pub code : Fits c.code
  pub lines : Fits c.lines
  pub columns : Fits c.columns
  pub constants : Fits c.constants
  pub triggers : Fits c.triggers
  pub lines_in_step : length c.lines.items ≡ length c.code.items
  pub columns_in_step : length c.columns.items ≡ length c.code.items

append-Fits : {A : Type 0} (x : A) (b : Buffer A) → Fits b → Fits (append x b)
unfolding append grow_capacity
append-Fits x b h = ground (arith, length-append b.items (x ∷ []))

length-append_item :
    {A : Type 0} (x : A) (b : Buffer A) → length (append x b).items ≡ suc (length b.items)
unfolding append
length-append_item x b = omega (arith, length-append b.items (x ∷ []))

length-remove_triggers :
    (name : Text) (ts : List ChunkTrigger) → length (remove_triggers name ts) ≡ length ts
unfolding remove_triggers
length-remove_triggers name [] = refl
length-remove_triggers name (t ∷ ts) = ap suc (length-remove_triggers name ts)

pub data Edit (V : Type 0) : Type 0 where
  add_trigger : ChunkTrigger → Edit V
  remove_trigger : Text → Edit V
  write_byte : ℕ → ℤ → ℤ → Edit V
  write_u16 : ℕ → ℤ → ℤ → Edit V
  constant : V → Edit V

module _ {V : Type 0} where
  abbrev edit : Edit V → Chunk V → Chunk V
  edit (add_trigger t) c = chunk_add_trigger t c
  edit (remove_trigger name) c = chunk_remove_trigger name c
  edit (write_byte byte line column) c = write_chunk_line byte line column c
  edit (write_u16 value line column) c = write_chunk_u16_line value line column c
  edit (constant value) c = (add_constant value c).1

  abbrev pub edits : List (Edit V) → Chunk V → Chunk V
  edits [] c = c
  edits (e ∷ es) c = edits es (edit e c)

  write_chunk_line-IsValid :
      (byte : ℕ) (line column : ℤ) (c : Chunk V)
      → IsValid c
      → IsValid (write_chunk_line byte line column c)
  write_chunk_line-IsValid byte line column c h = record {
    code = append-Fits byte c.code h.code;
    lines = append-Fits line c.lines h.lines;
    columns = append-Fits column c.columns h.columns;
    constants = h.constants;
    triggers = h.triggers;
    lines_in_step =
        length-append_item line c.lines
        ∙ ap suc h.lines_in_step
        ∙ sym (length-append_item byte c.code);
    columns_in_step =
        length-append_item column c.columns
        ∙ ap suc h.columns_in_step
        ∙ sym (length-append_item byte c.code);
  }

  edit-IsValid : (e : Edit V) (c : Chunk V) → IsValid c → IsValid (edit e c)
  edit-IsValid (add_trigger t) c h = record {
    code = h.code;
    lines = h.lines;
    columns = h.columns;
    constants = h.constants;
    triggers = append-Fits t c.triggers h.triggers;
    lines_in_step = h.lines_in_step;
    columns_in_step = h.columns_in_step;
  }
  edit-IsValid (remove_trigger name) c h = record {
    code = h.code;
    lines = h.lines;
    columns = h.columns;
    constants = h.constants;
    triggers = omega (arith, h.triggers, length-remove_triggers name c.triggers.items);
    lines_in_step = h.lines_in_step;
    columns_in_step = h.columns_in_step;
  }
  edit-IsValid (write_byte byte line column) c h = write_chunk_line-IsValid byte line column c h
  edit-IsValid (write_u16 value line column) c h =
      write_chunk_line-IsValid (value % 256) line column _
        (write_chunk_line-IsValid (value / 256 % 256) line column c h)
  edit-IsValid (constant value) c h = record {
    code = h.code;
    lines = h.lines;
    columns = h.columns;
    constants = append-Fits value c.constants h.constants;
    triggers = h.triggers;
    lines_in_step = h.lines_in_step;
    columns_in_step = h.columns_in_step;
  }

  -- After any run of edits of a chunk that is valid, every array is within its capacity, and there is
  -- a line and a column for each byte of code.
  pub edits-IsValid : (es : List (Edit V)) (c : Chunk V) → IsValid c → IsValid (edits es c)
  edits-IsValid [] c h = h
  edits-IsValid (e ∷ es) c h = edits-IsValid es (edit e c) (edit-IsValid e c h)

  pub init_chunk-IsValid : IsValid {V = V} init_chunk
  unfolding init_chunk
  init_chunk-IsValid = record {
    code = omega arith;
    lines = omega arith;
    columns = omega arith;
    constants = omega arith;
    triggers = omega arith;
    lines_in_step = refl;
    columns_in_step = refl;
  }

  -- The bytes that an edit writes.
  abbrev written : Edit V → List ℕ
  written (write_byte byte line column) = byte ∷ []
  written (write_u16 value line column) = value / 256 % 256 ∷ value % 256 ∷ []
  written _ = []

  abbrev all_written : List (Edit V) → List ℕ
  all_written [] = []
  all_written (e ∷ es) = written e ++ all_written es

  edit-code : (e : Edit V) (c : Chunk V) → (edit e c).code.items ≡ c.code.items ++ written e
  unfolding append
  edit-code (add_trigger t) c = sym (append-nil c.code.items)
  edit-code (remove_trigger name) c = sym (append-nil c.code.items)
  edit-code (write_byte byte line column) c = refl
  edit-code (write_u16 value line column) c = append_assoc c.code.items _ _
  edit-code (constant value) c = sym (append-nil c.code.items)

  edits-code :
      (es : List (Edit V)) (c : Chunk V) → (edits es c).code.items ≡ c.code.items ++ all_written es
  edits-code [] c = sym (append-nil c.code.items)
  edits-code (e ∷ es) c =
      edits-code es (edit e c)
      ∙ ap (◌++ all_written es) (edit-code e c)
      ∙ append_assoc c.code.items (written e) (all_written es)

  -- A number below 2 ^ 16 that write_chunk_u16_line has written is read back at the place where it
  -- was written, whatever edits come later.
  pub read_u16-edits :
      (value : ℕ) (line column : ℤ) (es : List (Edit V)) (c : Chunk V)
      → value < 2 ^ 16
      → read_u16 (
          drop
            (length c.code.items)
            (edits es (write_chunk_u16_line value line column c)).code.items)
        ≡ value
  read_u16-edits value line column es c h =
      let all = edits-code (write_u16 value line column ∷ es) c in
      let at : List ℕ = c.code.items in
      ap (λ s. read_u16 (drop (length at) s)) all
      ∙ ap read_u16 (drop-append_length at (all_written (write_u16 value line column ∷ es)))
      ∙ unfold read_u16 in omega arith

  -- The constants that an edit adds.
  abbrev added : Edit V → List V
  added (constant value) = value ∷ []
  added _ = []

  abbrev all_added : List (Edit V) → List V
  all_added [] = []
  all_added (e ∷ es) = added e ++ all_added es

  edit-constants :
      (e : Edit V) (c : Chunk V) → (edit e c).constants.items ≡ c.constants.items ++ added e
  unfolding append
  edit-constants (add_trigger t) c = sym (append-nil c.constants.items)
  edit-constants (remove_trigger name) c = sym (append-nil c.constants.items)
  edit-constants (write_byte byte line column) c = sym (append-nil c.constants.items)
  edit-constants (write_u16 value line column) c = sym (append-nil c.constants.items)
  edit-constants (constant value) c = refl

  edits-constants :
      (es : List (Edit V)) (c : Chunk V)
      → (edits es c).constants.items ≡ c.constants.items ++ all_added es
  edits-constants [] c = sym (append-nil c.constants.items)
  edits-constants (e ∷ es) c =
      edits-constants es (edit e c)
      ∙ ap (◌++ all_added es) (edit-constants e c)
      ∙ append_assoc c.constants.items (added e) (all_added es)

  get_elem?-append_length :
      (x : V) (xs ys : List V) → get_elem? (xs ++ (x ∷ ys)) (length xs) ≡ some x
  get_elem?-append_length x [] ys = refl
  get_elem?-append_length x (y ∷ xs) ys = get_elem?-append_length x xs ys

  add_constant_index :
      (value : V) (c : Chunk V) → (add_constant value c).0 ≡ length c.constants.items
  unfolding append
  add_constant_index value c = omega (arith, length-append c.constants.items (value ∷ []))

  -- The index that `add_constant` returns holds the value, whatever edits come later.
  pub add_constant-edits :
      (value : V) (es : List (Edit V)) (c : Chunk V)
      → let (index, c') = add_constant value c in
        get_elem? (edits es c').constants.items index ≡ some value
  add_constant-edits value es c =
      let all = edits-constants (constant value ∷ es) c in
      ap (λ s. get_elem? s (add_constant value c).0) all
      ∙ ap (get_elem? (c.constants.items ++ (value ∷ all_added es))) (add_constant_index value c)
      ∙ get_elem?-append_length value c.constants.items (all_added es)
