-- ===== src/Sql/Where/InList.antt =====
-- src/sql_engine.c, `where_eval`: IN lists against comparisons that are joined by OR.
use my_pl.Prelude.{
  ◌≡◌, refl, sym, ◌∙◌, ap, Bool, true, false, Bool-cases, inl, inr, List, [], ◌∷◌, Option, none,
  some,
}
use my_pl.BTree.Key.{Cell}
use my_pl.Lexer.Token.{Text}
use my_pl.Sql.Cells.{Numbers, cell_compare}
use my_pl.Sql.Where.{
  equal, WhereNode, where_cmp, where_in, where_or, where_not, Row, SelectStmt, where_eval, Truth,
  not_truth, or_truth, compare_as, holds, is_null_cell, is_true, is_false, unknown, where_resolve,
  in_as, search_list,
}

-- `column = c OR column = d OR …`.
unfoldable pub any_equal : Text → Text → Cell → List Cell → WhereNode
any_equal prefix column c [] = where_cmp prefix column equal c
any_equal prefix column c (d ∷ cells) =
    where_or (where_cmp prefix column equal c) (any_equal prefix column d cells)

abbrev found : Numbers → Option Cell → Cell → List Cell → Truth
found num value c [] = compare_as num equal value c
found num value c (d ∷ cells) = or_truth (compare_as num equal value c) (found num value d cells)

where_eval-any_equal :
    (num : Numbers) (row : Row) (prefix column : Text) (c : Cell) (cells : List Cell)
    (stmt : Option SelectStmt)
    → where_eval num row (any_equal prefix column c cells) stmt
      ≡ found num (where_resolve row prefix column stmt) c cells
unfolding where_eval any_equal
where_eval-any_equal num row prefix column c [] stmt = refl
where_eval-any_equal num row prefix column c (d ∷ cells) stmt =
    rw (where_eval-any_equal num row prefix column d cells stmt)

found-none : (num : Numbers) (c : Cell) (cells : List Cell) → found num none c cells ≡ unknown
found-none num c [] = refl
found-none num c (d ∷ cells) = rw (found-none num d cells)

or_truth-false : (t : Truth) → or_truth is_false t ≡ t
or_truth-false is_true = refl
or_truth-false is_false = refl
or_truth-false unknown = refl

or_truth-unknown_twice : (t : Truth) → or_truth unknown (or_truth unknown t) ≡ or_truth unknown t
or_truth-unknown_twice is_true = refl
or_truth-unknown_twice is_false = refl
or_truth-unknown_twice unknown = refl

module _ (num : Numbers) (value : Cell) where
  found-null :
      (c : Cell) (cells : List Cell)
      → is_null_cell value ≡ true
      → found num (some value) c cells ≡ unknown
  found-null c [] h = rw (h)
  found-null c (d ∷ cells) h = rw (found-null d cells h, h)

  abbrev hit : Cell → Bool
  hit c = holds equal (cell_compare num value c)

  -- A NULL before makes a miss unknown.
  search_list-saw_null :
      (cells : List Cell)
      → search_list num value true cells ≡ or_truth unknown (search_list num value false cells)
  unfolding search_list
  search_list-saw_null [] = refl
  search_list-saw_null (c ∷ cells) =
      let ih = search_list-saw_null cells in
      elim (Bool-cases (is_null_cell c)) [
        | inl blank ↦
            rw (blank, ih) (sym (or_truth-unknown_twice (search_list num value false cells)))
        | inr there ↦ elim (Bool-cases (hit c)) [
          | inl same ↦ rw (there, same)
          | inr missed ↦ rw (there, missed, ih)
        ]
      ]

  search_list-found :
      (c : Cell) (cells : List Cell)
      → is_null_cell value ≡ false
      → search_list num value false (c ∷ cells) ≡ found num (some value) c cells
  unfolding search_list
  search_list-found c [] h = elim (Bool-cases (is_null_cell c)) [
    | inl blank ↦ rw (h, blank)
    | inr there ↦ elim (Bool-cases (hit c)) [
      | inl same ↦ rw (h, there, same)
      | inr missed ↦ rw (h, there, missed)
    ]
  ]
  search_list-found c (d ∷ cells) h =
      let ih = search_list-found d cells h in
      elim (Bool-cases (is_null_cell c)) [
        | inl blank ↦ rw (h, blank) (search_list-saw_null (d ∷ cells) ∙ ap (or_truth unknown) ih)
        | inr there ↦ elim (Bool-cases (hit c)) [
          | inl same ↦ rw (h, there, same)
          | inr missed ↦
              rw (h, there, missed) (ih ∙ sym (or_truth-false (found num (some value) d cells)))
        ]
      ]

  in_as-found :
      (c : Cell) (cells : List Cell)
      → in_as num (some value) (c ∷ cells) ≡ found num (some value) c cells
  in_as-found c cells = elim (Bool-cases (is_null_cell value)) [
    | inl blank ↦ rw (blank) (sym (found-null c cells blank))
    | inr present ↦ rw (present) (search_list-found c cells present)
  ]

in_as-found_any :
    (num : Numbers) (value : Option Cell) (c : Cell) (cells : List Cell)
    → in_as num value (c ∷ cells) ≡ found num value c cells
in_as-found_any num none c cells = sym (found-none num c cells)
in_as-found_any num (some value) c cells = in_as-found num value c cells

-- On every row, IN over operands that are not empty is the OR of the comparisons with each of them,
-- and NOT IN is its negation, with NULLs in the column or among the operands.
pub where_eval-in :
    (num : Numbers) (row : Row) (prefix column : Text) (c : Cell) (cells : List Cell)
    (stmt : Option SelectStmt)
    → (where_eval num row (where_in prefix column false (c ∷ cells)) stmt
        ≡ where_eval num row (any_equal prefix column c cells) stmt)
      × (where_eval num row (where_in prefix column true (c ∷ cells)) stmt
          ≡ where_eval num row (where_not (any_equal prefix column c cells)) stmt)
unfolding where_eval
where_eval-in num row prefix column c cells stmt =
    let e =
      in_as-found_any num (where_resolve row prefix column stmt) c cells
      ∙ sym (where_eval-any_equal num row prefix column c cells stmt) in
    (e, ap not_truth e)
