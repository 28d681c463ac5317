-- ===== src/BTree/Scan.antt =====
-- src/btree.c: `find_leaf`, `leftmost_leaf`, `btree_scan_eq` and `btree_scan_range`. The calls of
-- `fn` are the list of the locators in the order of the calls.
pub mod Chain
use my_pl.Prelude.{
  ℕ, zero, suc, ◌+◌, Bool, true, false, not, ◌&&◌, ◌||◌, List, [], ◌∷◌, ◌++◌, Option, none, some,
  ◌==◌, if◌then◌else◌, length, get_or,
}
use my_pl.Prelude.Int.{is_positive}
use my_pl.Prelude.Bytes.{leb_bytes, ltb_bytes}
use my_pl.Pager.{Pager}
use my_pl.BTree.Key.{Cell, encode_key}
use my_pl.BTree.Node.{Key, Entry, BtNode, leaf, internal, entries_of, next_of, node_load}
use my_pl.BTree.Insert.{BTree, child_index}

-- A descent: `none` stands for fuel that ran out, `some 0` for corruption.
unfoldable pub find_leaf : ℕ → Pager → ℕ → Key → Option ℕ
unfolding child_index
find_leaf zero p n key = none
find_leaf (suc fuel) p n key = elim (node_load p n) [
  | none ↦ some 0
  | some (leaf es next) ↦ some n
  | some (internal cs ks) ↦
      let child = get_or cs (child_index key ks) 0 in
      let rest = find_leaf fuel p child key in if not (is_positive child) then some 0 else rest
]

unfoldable pub leftmost_leaf : ℕ → Pager → ℕ → Option ℕ
leftmost_leaf zero p n = none
leftmost_leaf (suc fuel) p n = elim (node_load p n) [
  | none ↦ some 0
  | some (leaf es next) ↦ some n
  | some (internal cs ks) ↦
      let child = get_or cs 0 0 in
      let rest = leftmost_leaf fuel p child in if not (is_positive child) then some 0 else rest
]

abbrev pub Locator : Type 0
Locator = ℕ × ℕ

abbrev pub locator : Entry → Locator
locator e = (e.row_page, e.row_offset)

-- One leaf of a scan: the locators that were reported, and whether the scan is done.
abbrev Visit : Type 0
Visit = List Locator × Bool

abbrev report : Entry → Visit → Visit
report e v = (locator e ∷ v.0, v.1)

unfoldable pub visit_eq : Key → List Entry → Visit
visit_eq key [] = ([], false)
visit_eq key (e ∷ es) =
    let rest = visit_eq key es in
    if not (leb_bytes e.key key)
    then ([], true)
    else if ltb_bytes e.key key
    then rest
    else report e rest

-- A bound: its key, and whether it is inclusive. A NULL cell is `none`.
abbrev pub Bound : Type 0
Bound = Option (Key × Bool)

unfoldable pub is_below : Bound → Key → Bool
is_below none k = false
is_below (some (lo, inclusive)) k = ltb_bytes k lo || (not (ltb_bytes lo k) && not inclusive)

unfoldable pub is_above : Bound → Key → Bool
is_above none k = false
is_above (some (hi, inclusive)) k = ltb_bytes hi k || (not (ltb_bytes k hi) && not inclusive)

unfoldable pub visit_range : Bound → Bound → List Entry → Visit
unfolding is_below is_above
visit_range lo hi [] = ([], false)
visit_range lo hi (e ∷ es) =
    let rest = visit_range lo hi es in
    if is_below lo e.key then rest else if is_above hi e.key then ([], true) else report e rest

-- `no_fuel` stands for a chain longer than the fuel, `corrupt` is the result -1, and both carry
-- what was reported before; `scanned` carries the result, a count.
pub data Scanned : Type 0 where
  no_fuel corrupt : List Locator → Scanned
  scanned : ℕ → List Locator → Scanned

-- The loop over the chain of leaves, with what was reported so far.
unfoldable pub scan_chain : (List Entry → Visit) → ℕ → Pager → ℕ → List Locator → Scanned
scan_chain visit zero p n seen = if n == 0 then scanned (length seen) seen else no_fuel seen
scan_chain visit (suc fuel) p n seen = elim (node_load p n) [
  | none ↦ if n == 0 then scanned (length seen) seen else corrupt seen
  | some node ↦
      let v = visit (entries_of node) in
      let seen' = seen ++ v.0 in
      let rest = scan_chain visit fuel p (next_of node) seen' in
      if n == 0
      then scanned (length seen) seen
      else if v.1
      then scanned (length seen') seen'
      else rest
]

-- A scan from the leaf that a descent gives.
unfoldable pub scan_from : (List Entry → Visit) → ℕ → Pager → Option ℕ → Scanned
unfolding scan_chain
scan_from visit fuel p none = no_fuel []
scan_from visit fuel p (some n) = if n == 0 then corrupt [] else scan_chain visit fuel p n []

unfoldable pub btree_scan_eq : ℕ → BTree → Cell → Scanned
unfolding find_leaf visit_eq scan_from encode_key
btree_scan_eq fuel t key =
    scan_from (visit_eq (encode_key key)) fuel t.pager
      (find_leaf fuel t.pager t.root_page (encode_key key))

abbrev pub bound_of : Option (Cell × Bool) → Bound
bound_of none = none
bound_of (some (c, inclusive)) = some (encode_key c, inclusive)

unfoldable pub start_leaf : ℕ → BTree → Bound → Option ℕ
unfolding find_leaf leftmost_leaf
start_leaf fuel t none = leftmost_leaf fuel t.pager t.root_page
start_leaf fuel t (some (lo, inclusive)) = find_leaf fuel t.pager t.root_page lo

unfoldable pub btree_scan_range : ℕ → BTree → Option (Cell × Bool) → Option (Cell × Bool) → Scanned
unfolding start_leaf visit_range scan_from encode_key
btree_scan_range fuel t lo hi =
    scan_from (visit_range (bound_of lo) (bound_of hi)) fuel t.pager
      (start_leaf fuel t (bound_of lo))
