-- ===== src/Sql/Where/Negation.antt =====
-- src/sql_engine.c, `where_eval`: conditions under NOT.
use my_pl.Prelude.{
  ◌≡◌, refl, sym, arith, Bool-cases, inl, inr, Bool, true, false, not, Option, none, some, Ordering,
}
use my_pl.BTree.Key.{Cell}
use my_pl.Sql.Cells.{Numbers, cell_compare}
use my_pl.Sql.Where.{
  CmpOp, equal, less, greater, less_equal, greater_equal, different, WhereNode, where_cmp,
  where_is_null, where_is_not_null, where_in, where_like, where_and, where_or, where_not, Row,
  SelectStmt, where_eval, Truth, not_truth, and_truth, or_truth, compare_as, holds, is_null_cell,
  null_as, negated_if, is_true, is_false, unknown, where_resolve, in_as, like_as, truth,
}

-- The operator of the opposite answer.
unfoldable pub complement : CmpOp → CmpOp
complement equal = different
complement less = greater_equal
complement greater = less_equal
complement less_equal = greater
complement greater_equal = less
complement different = equal

-- The condition that says the opposite without a NOT above a column.
unfoldable pub opposite : WhereNode → WhereNode
unfolding complement
opposite (where_cmp prefix column op literal) = where_cmp prefix column (complement op) literal
opposite (where_is_null prefix column) = where_is_not_null prefix column
opposite (where_is_not_null prefix column) = where_is_null prefix column
opposite (where_in prefix column negate cells) = where_in prefix column (not negate) cells
opposite (where_like prefix column negate pattern) = where_like prefix column (not negate) pattern
opposite (where_and l r) = where_or (opposite l) (opposite r)
opposite (where_or l r) = where_and (opposite l) (opposite r)
opposite (where_not w) = w

not_truth_twice : (t : Truth) → not_truth (not_truth t) ≡ t
not_truth_twice is_true = refl
not_truth_twice is_false = refl
not_truth_twice unknown = refl

de_morgan-and : (l r : Truth) → or_truth (not_truth l) (not_truth r) ≡ not_truth (and_truth l r)
de_morgan-and is_true is_true = refl
de_morgan-and is_true is_false = refl
de_morgan-and is_true unknown = refl
de_morgan-and is_false r = refl
de_morgan-and unknown is_true = refl
de_morgan-and unknown is_false = refl
de_morgan-and unknown unknown = refl

de_morgan-or : (l r : Truth) → and_truth (not_truth l) (not_truth r) ≡ not_truth (or_truth l r)
de_morgan-or is_true r = refl
de_morgan-or is_false is_true = refl
de_morgan-or is_false is_false = refl
de_morgan-or is_false unknown = refl
de_morgan-or unknown is_true = refl
de_morgan-or unknown is_false = refl
de_morgan-or unknown unknown = refl

holds-complement :
    (op : CmpOp) (o : Ordering) → truth (holds (complement op) o) ≡ not_truth (truth (holds op o))
unfolding complement holds
holds-complement equal o = ground arith
holds-complement less o = ground arith
holds-complement greater o = ground arith
holds-complement less_equal o = ground arith
holds-complement greater_equal o = ground arith
holds-complement different o = ground arith

compare_as-complement :
    (num : Numbers) (op : CmpOp) (value : Option Cell) (literal : Cell)
    → compare_as num (complement op) value literal ≡ not_truth (compare_as num op value literal)
compare_as-complement num op none literal = refl
compare_as-complement num op (some value) literal = elim (Bool-cases (is_null_cell value)) [
  | inl blank ↦ rw (blank)
  | inr present ↦ elim (Bool-cases (is_null_cell literal)) [
    | inl blank ↦ rw (present, blank)
    | inr there ↦ rw (present, there) (holds-complement op (cell_compare num value literal))
  ]
]

negated_if-not :
    (negate : Bool) (t : Truth) → negated_if (not negate) t ≡ not_truth (negated_if negate t)
negated_if-not true t = sym (not_truth_twice t)
negated_if-not false t = refl

-- On every row, the opposite of a condition evaluates to what NOT in front of it does, unknown
-- results included: NOT moves through AND and OR as De Morgan's laws say.
pub where_eval-opposite :
    (num : Numbers) (row : Row) (w : WhereNode) (stmt : Option SelectStmt)
    → where_eval num row (opposite w) stmt ≡ where_eval num row (where_not w) stmt
unfolding where_eval opposite
where_eval-opposite num row (where_cmp prefix column op literal) stmt =
    compare_as-complement num op (where_resolve row prefix column stmt) literal
where_eval-opposite num row (where_is_null prefix column) stmt = refl
where_eval-opposite num row (where_is_not_null prefix column) stmt =
    sym (not_truth_twice (null_as (where_resolve row prefix column stmt)))
where_eval-opposite num row (where_in prefix column negate cells) stmt =
    negated_if-not negate (in_as num (where_resolve row prefix column stmt) cells)
where_eval-opposite num row (where_like prefix column negate pattern) stmt =
    negated_if-not negate (like_as (where_resolve row prefix column stmt) pattern)
where_eval-opposite num row (where_and l r) stmt =
    rw (where_eval-opposite num row l stmt, where_eval-opposite num row r stmt)
      (de_morgan-and (where_eval num row l stmt) (where_eval num row r stmt))
where_eval-opposite num row (where_or l r) stmt =
    rw (where_eval-opposite num row l stmt, where_eval-opposite num row r stmt)
      (de_morgan-or (where_eval num row l stmt) (where_eval num row r stmt))
where_eval-opposite num row (where_not w) stmt = sym (not_truth_twice (where_eval num row w stmt))
