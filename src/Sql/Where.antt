-- ===== src/Sql/Where.antt =====
-- src/sql_engine.c: the conditions of WHERE clauses and their three-valued evaluation on a row. A
-- row is the list of its named cells; a column that is not found is the NULL pointer `none`.
pub mod Negation
pub mod InList
use my_pl.Prelude.{
  ℕ, ◌+◌, ◌-◌, Bool, true, false, not, ◌&&◌, List, [], ◌∷◌, Option, none, some, if◌then◌else◌,
  Ordering, take, drop,
}
use my_pl.BTree.Key.{Cell, null, string}
use my_pl.Lexer.Token.{Text}
use my_pl.Sql.Cells.{Numbers, cell_compare, text_or_empty}
use my_pl.Sql.Like.{like_match}
use my_pl.Prelude.Bytes.{memcmp}

pub data CmpOp : Type 0 where
  equal less greater less_equal greater_equal different : CmpOp

-- The table's prefix and the column; the prefix is empty when there is none.
pub data WhereNode : Type 0 where
  where_cmp : Text → Text → CmpOp → Cell → WhereNode
  where_is_null where_is_not_null : Text → Text → WhereNode
  -- `negate` and the operands, or the pattern.
  where_in : Text → Text → Bool → List Cell → WhereNode
  where_like : Text → Text → Bool → Text → WhereNode
  where_and where_or : WhereNode → WhereNode → WhereNode
  where_not : WhereNode → WhereNode

-- The result 1, 0 or -1.
pub data Truth : Type 0 where
  is_true is_false unknown : Truth

abbrev pub Row : Type 0
Row = List (Text × Cell)

-- What the conditions read of a SelectStmt: `join_table_name` with the column counts of both sides
-- if `has_join` is set.
pub record SelectStmt : Type 0 where
  pub table_name : Text
  pub has_join : Bool
  pub join_table_name : Text
  pub join_left_column_count : ℕ
  pub join_right_column_count : ℕ

-- `strcmp(s, t) == 0`.
unfoldable pub same_text : Text → Text → Bool
unfolding memcmp
same_text s t = elim (memcmp s t) [ Ordering.eq ↦ true | _ ↦ false ]

unfoldable pub row_find_field : Row → Text → Option Cell
unfolding same_text
row_find_field [] name = none
row_find_field ((field, value) ∷ row) name =
    if same_text field name then some value else row_find_field row name

-- The fields that a table's prefix stands for; `none` if the statement has no such table.
unfoldable pub prefix_fields : Row → Text → SelectStmt → Option Row
unfolding same_text
prefix_fields row prefix stmt =
    let left = stmt.join_left_column_count in
    if same_text prefix stmt.table_name
    then (if stmt.has_join then some (take left row) else some row)
    else if stmt.has_join && same_text prefix stmt.join_table_name
    then some (take stmt.join_right_column_count (drop left row))
    else none

abbrev find_in : Option Row → Text → Option Cell
find_in none name = none
find_in (some row) name = row_find_field row name

unfoldable pub resolve_field : Row → Text → Text → SelectStmt → Option Cell
unfolding prefix_fields row_find_field
resolve_field row [] name stmt = row_find_field row name
resolve_field row (p ∷ ps) name stmt = find_in (prefix_fields row (p ∷ ps) stmt) name

unfoldable pub where_resolve : Row → Text → Text → Option SelectStmt → Option Cell
unfolding resolve_field
where_resolve row prefix column none = row_find_field row column
where_resolve row prefix column (some stmt) = resolve_field row prefix column stmt

abbrev pub truth : Bool → Truth
truth true = is_true
truth false = is_false

unfoldable pub holds : CmpOp → Ordering → Bool
holds equal o = elim o [ Ordering.eq ↦ true | _ ↦ false ]
holds less o = elim o [ Ordering.lt ↦ true | _ ↦ false ]
holds greater o = elim o [ Ordering.gt ↦ true | _ ↦ false ]
holds less_equal o = elim o [ Ordering.gt ↦ false | _ ↦ true ]
holds greater_equal o = elim o [ Ordering.lt ↦ false | _ ↦ true ]
holds different o = elim o [ Ordering.eq ↦ false | _ ↦ true ]

abbrev pub is_null_cell : Cell → Bool
is_null_cell null = true
is_null_cell cell = false

-- A comparison, where NULL on either side is unknown.
abbrev pub compare_as : Numbers → CmpOp → Option Cell → Cell → Truth
compare_as num op none literal = unknown
compare_as num op (some value) literal =
    if is_null_cell value
    then unknown
    else if is_null_cell literal
    then unknown
    else truth (holds op (cell_compare num value literal))

-- The loop over the operands of IN: the result before `negate`, with whether a NULL was seen.
unfoldable pub search_list : Numbers → Cell → Bool → List Cell → Truth
unfolding holds
search_list num value saw_null [] = if saw_null then unknown else is_false
search_list num value saw_null (c ∷ cells) =
    let skipped = search_list num value true cells in
    let missed = search_list num value saw_null cells in
    if is_null_cell c
    then skipped
    else if holds equal (cell_compare num value c)
    then is_true
    else missed

abbrev pub and_truth : Truth → Truth → Truth
and_truth is_false r = is_false
and_truth l is_false = is_false
and_truth is_true r = r
and_truth unknown r = unknown

abbrev pub or_truth : Truth → Truth → Truth
or_truth is_true r = is_true
or_truth l is_true = is_true
or_truth is_false r = r
or_truth unknown r = unknown

abbrev pub not_truth : Truth → Truth
not_truth is_true = is_false
not_truth is_false = is_true
not_truth unknown = unknown

abbrev pub negated_if : Bool → Truth → Truth
negated_if true t = not_truth t
negated_if false t = t

abbrev pub null_as : Option Cell → Truth
null_as none = unknown
null_as (some value) = truth (is_null_cell value)

abbrev pub in_as : Numbers → Option Cell → List Cell → Truth
in_as num none cells = unknown
in_as num (some value) cells =
    if is_null_cell value then unknown else search_list num value false cells

-- Only a string matches a pattern or not.
abbrev pub like_as : Option Cell → Text → Truth
like_as (some (string s)) pattern = truth (like_match pattern (text_or_empty s))
like_as value pattern = unknown

unfoldable pub where_eval : Numbers → Row → WhereNode → Option SelectStmt → Truth
unfolding where_resolve search_list like_match
where_eval num row (where_and l r) stmt =
    and_truth (where_eval num row l stmt) (where_eval num row r stmt)
where_eval num row (where_or l r) stmt =
    or_truth (where_eval num row l stmt) (where_eval num row r stmt)
where_eval num row (where_not w) stmt = not_truth (where_eval num row w stmt)
where_eval num row (where_is_null prefix column) stmt =
    null_as (where_resolve row prefix column stmt)
where_eval num row (where_is_not_null prefix column) stmt =
    not_truth (null_as (where_resolve row prefix column stmt))
where_eval num row (where_cmp prefix column op literal) stmt =
    compare_as num op (where_resolve row prefix column stmt) literal
where_eval num row (where_in prefix column negate cells) stmt =
    negated_if negate (in_as num (where_resolve row prefix column stmt) cells)
where_eval num row (where_like prefix column negate pattern) stmt =
    negated_if negate (like_as (where_resolve row prefix column stmt) pattern)
