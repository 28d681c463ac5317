-- ===== src/BTree/Delete.antt =====
-- src/btree.c, `btree_delete`: removal, redistribution between siblings, merging, and the collapse
-- of a root without separators. The recursion takes fuel, as in BTree/Insert.antt.
pub mod Siblings
pub mod Find
use my_pl.Prelude.{
  ℕ, zero, suc, ◌+◌, ◌-◌, Bool, true, false, not, ◌&&◌, ◌||◌, List, [], ◌∷◌, ◌++◌, Option, none,
  some, ltb, leb, ◌==◌, if◌then◌else◌, length, take, drop, get_or, set, remove_at, insert_at,
}
use my_pl.Prelude.Int.{is_positive}
use my_pl.Prelude.Bytes.{leb_bytes, ltb_bytes}
use my_pl.Pager.{Pager, free_page}
use my_pl.BTree.Key.{Cell, encode_key}
use my_pl.BTree.Node.{
  Key, Entry, BtNode, leaf, internal, leaf_min, internal_min, entries_of, keys_of, children_of,
  next_of, nkeys, min_keys, node_load, node_store,
}
use my_pl.BTree.Insert.{BTree, first_key, child_index}

abbrev pub blank_entry : Entry
blank_entry = record { key = []; row_page = 0; row_offset = 0 }

-- The node without its last item: `nkeys--`.
unfoldable pub drop_last_item : BtNode → BtNode
drop_last_item (leaf es next) = leaf (take (length es - 1) es) next
drop_last_item (internal cs ks) = internal (take (length ks) cs) (take (length ks - 1) ks)

-- `leaf_remove_at(node, 0)`: of an internal node it moves the keys and not the children.
unfoldable pub leaf_remove_first : BtNode → BtNode
leaf_remove_first (leaf es next) = leaf (remove_at 0 es) next
leaf_remove_first (internal cs ks) = internal (take (length ks) cs) (remove_at 0 ks)

-- The keys moved up by one, under locators that stay.
unfoldable shift_keys : List Entry → List Entry
shift_keys [] = []
shift_keys (e ∷ []) = []
shift_keys (e ∷ d ∷ es) = record e { key = d.key } ∷ shift_keys (d ∷ es)

-- The last lines of `borrow_from_right` for an internal child: keys and children move up by one.
unfoldable pub remove_first_child : BtNode → BtNode
unfolding shift_keys
remove_first_child (leaf es next) = leaf (shift_keys es) next
remove_first_child (internal cs ks) = internal (remove_at 0 cs) (remove_at 0 ks)

-- Three nodes and the separators of the parent, as a redistribution leaves them.
pub record Moved : Type 0 where
  pub separators : List Key
  pub left : BtNode
  pub right : BtNode

unfoldable pub rotate_right : List Key → ℕ → BtNode → BtNode → Moved
unfolding drop_last_item
rotate_right ks idx left (leaf es next) =
    let moved = get_or (entries_of left) (nkeys left - 1) blank_entry in
    record {
      separators = set ks (idx - 1) moved.key;
      left = drop_last_item left;
      right = leaf (moved ∷ es) next;
    }
rotate_right ks idx left (internal cs seps) = record {
  separators = set ks (idx - 1) (get_or (keys_of left) (nkeys left - 1) []);
  left = drop_last_item left;
  right = internal (get_or (children_of left) (nkeys left) 0 ∷ cs) (get_or ks (idx - 1) [] ∷ seps);
}

unfoldable pub rotate_left : List Key → ℕ → BtNode → BtNode → Moved
unfolding leaf_remove_first remove_first_child
rotate_left ks idx (leaf es next) right =
    let right' = leaf_remove_first right in
    record {
      separators = set ks idx (get_or (keys_of right') 0 []);
      left = leaf (es ++ get_or (entries_of right) 0 blank_entry ∷ []) next;
      right = right';
    }
rotate_left ks idx (internal cs seps) right = record {
  separators = set ks idx (get_or (keys_of right) 0 []);
  left = internal (cs ++ get_or (children_of right) 0 0 ∷ []) (seps ++ get_or ks idx [] ∷ []);
  right = remove_first_child right;
}

-- The three stores at the end of both `borrow` functions; `first` is stored first.
abbrev store_three : Pager → ℕ → List ℕ → List Key → ℕ → BtNode → ℕ → BtNode → Pager
store_three p page cs ks first a second b =
    node_store (node_store (node_store p first a) second b) page (internal cs ks)

-- An internal node in memory and the pager.
pub record Parent : Type 0 where
  pub pager : Pager
  pub children : List ℕ
  pub separators : List Key

unfoldable borrow_from_left : Pager → ℕ → List ℕ → List Key → ℕ → BtNode → BtNode → Parent
unfolding rotate_right
borrow_from_left p page cs ks idx left child =
    let m = rotate_right ks idx left child in
    record {
      pager =
          store_three p page cs m.separators (get_or cs (idx - 1) 0) m.left (get_or cs idx 0)
            m.right;
      children = cs;
      separators = m.separators;
    }

unfoldable borrow_from_right : Pager → ℕ → List ℕ → List Key → ℕ → BtNode → BtNode → Parent
unfolding rotate_left
borrow_from_right p page cs ks idx child right =
    let m = rotate_left ks idx child right in
    record {
      pager =
          store_three p page cs m.separators (get_or cs idx 0) m.left (get_or cs (idx + 1) 0)
            m.right;
      children = cs;
      separators = m.separators;
    }

-- The node that takes the place of two siblings; `sep` is the key of the separator between them.
unfoldable pub merge_nodes : Key → BtNode → BtNode → BtNode
merge_nodes sep (leaf es next) right = leaf (es ++ entries_of right) (next_of right)
merge_nodes sep (internal cs ks) right =
    internal (cs ++ children_of right) ((ks ++ sep ∷ []) ++ keys_of right)

unfoldable merge_children : Pager → ℕ → List ℕ → List Key → ℕ → Parent
unfolding merge_nodes
merge_children p page cs ks sep =
    let left_page = get_or cs sep 0 in
    let right_page = get_or cs (suc sep) 0 in
    let unchanged : Parent = record { pager = p; children = cs; separators = ks } in
    elim (node_load p left_page) [
      | none ↦ unchanged
      | some left ↦ elim (node_load p right_page) [
        | none ↦ unchanged
        | some right ↦
            let ks' = remove_at sep ks in
            let cs' = remove_at (suc sep) cs in
            let p' = node_store p left_page (merge_nodes (get_or ks sep []) left right) in
            record {
              pager = free_page (node_store p' page (internal cs' ks')) right_page;
              children = cs';
              separators = ks';
            }
      ]
    ]

-- A sibling that is there and has an entry to spare.
unfoldable can_spare : ℕ → Option BtNode → Option BtNode
can_spare least none = none
can_spare least (some sibling) = if ltb least (nkeys sibling) then some sibling else none

-- The merge that `rebalance_child` ends with.
unfoldable merge_beside : Pager → ℕ → List ℕ → List Key → ℕ → Parent
unfolding merge_children
merge_beside p page cs ks idx =
    if ltb 0 idx
    then merge_children p page cs ks (idx - 1)
    else if ltb 0 (length ks)
    then merge_children p page cs ks idx
    else record { pager = p; children = cs; separators = ks }

unfoldable rebalance_right : Pager → ℕ → List ℕ → List Key → ℕ → BtNode → Parent
unfolding can_spare borrow_from_right merge_beside
rebalance_right p page cs ks idx child =
    let sibling =
      if ltb idx (length ks)
      then can_spare (min_keys child) (node_load p (get_or cs (idx + 1) 0))
      else none in
    elim sibling [
      | none ↦ merge_beside p page cs ks idx
      | some right ↦ borrow_from_right p page cs ks idx child right
    ]

unfoldable rebalance_child : Pager → ℕ → List ℕ → List Key → ℕ → Parent
unfolding can_spare borrow_from_left rebalance_right
rebalance_child p page cs ks idx =
    let unchanged : Parent = record { pager = p; children = cs; separators = ks } in
    elim (node_load p (get_or cs idx 0)) [
      | none ↦ unchanged
      | some child ↦
          let sibling =
            if ltb 0 idx
            then can_spare (min_keys child) (node_load p (get_or cs (idx - 1) 0))
            else none in
          if leb (min_keys child) (nkeys child) then unchanged else elim sibling [
            | none ↦ rebalance_right p page cs ks idx child
            | some left ↦ borrow_from_left p page cs ks idx left child
          ]
    ]

-- `absent` is the result 0; `removed` carries `*underflow`.
pub data Deleted : Type 0 where
  absent no_fuel : Deleted
  removed : Bool → Deleted

-- The loop over a leaf from index `i` on: the index of the entry to remove.
unfoldable pub find_entry : Entry → List Entry → ℕ → Option ℕ
find_entry e [] i = none
find_entry e (d ∷ es) i =
    let rest = find_entry e es (suc i) in
    if not (leb_bytes d.key e.key)
    then none
    else if ltb_bytes d.key e.key
    then rest
    else if not (d.row_page == e.row_page) || not (d.row_offset == e.row_offset)
    then rest
    else some i

unfoldable delete_leaf : Pager → ℕ → List Entry → ℕ → Option ℕ → Deleted × Pager
delete_leaf p n es next none = (absent, p)
delete_leaf p n es next (some i) =
    let es' = remove_at i es in
    (removed (ltb (length es') leaf_min), node_store p n (leaf es' next))

-- What an internal node does when its child `i` has removed the entry.
unfoldable after_removal : ℕ → List ℕ → List Key → ℕ → Bool → Pager → Deleted × Pager
unfolding rebalance_child
after_removal n cs ks i false p = (removed (ltb (length ks) internal_min), p)
after_removal n cs ks i true p =
    let parent = rebalance_child p n cs ks i in
    (removed (ltb (length parent.separators) internal_min), parent.pager)

-- `i > 0 && memcmp(node.keys[i - 1], key) > 0`
abbrev is_past : List Key → Key → ℕ → Bool
is_past ks key i = ltb 0 i && not (leb_bytes (get_or ks (i - 1) []) key)

-- One round of the loop: `rest` is the loop from the next child on.
next_child :
    ℕ → List ℕ → List Key → ℕ → (Pager → Deleted × Pager) → Deleted × Pager → Deleted × Pager
next_child n cs ks i rest (absent, p) = rest p
next_child n cs ks i rest (no_fuel, p) = (no_fuel, p)
next_child n cs ks i rest (removed underflow, p) = after_removal n cs ks i underflow p

-- The loop over the children from `i` on, with the number of them left; `delete` is the recursion.
unfoldable delete_children :
    (Pager → ℕ → Deleted × Pager) → ℕ → List ℕ → List Key → Key → ℕ → ℕ → Pager → Deleted × Pager
unfolding next_child after_removal
delete_children delete n cs ks key zero i p = (absent, p)
delete_children delete n cs ks key (suc left) i p =
    if is_past ks key i || not (is_positive (get_or cs i 0))
    then (absent, p)
    else next_child n cs ks i (delete_children delete n cs ks key left (suc i))
        (delete p (get_or cs i 0))

unfoldable delete_rec : ℕ → Pager → ℕ → Entry → Deleted × Pager
unfolding find_entry delete_leaf delete_children child_index
delete_rec zero p n e = (no_fuel, p)
delete_rec (suc fuel) p n e = elim (node_load p n) [
  | none ↦ (absent, p)
  | some (leaf es next) ↦ delete_leaf p n es next (find_entry e es 0)
  | some (internal cs ks) ↦
      let i = child_index e.key ks in
      delete_children (λ q c. delete_rec fuel q c e) n cs ks e.key (suc (length ks) - i) i p
]

-- The loop at the end of `btree_delete`; `none` stands for fuel that ran out.
unfoldable collapse_root : ℕ → BTree → Option BTree
collapse_root zero t = none
collapse_root (suc fuel) t = elim (node_load t.pager t.root_page) [
  | none ↦ some t
  | some (leaf es next) ↦ some t
  | some (internal cs ks) ↦
      let child = get_or cs 0 0 in
      let rest =
        collapse_root fuel (record { pager = free_page t.pager t.root_page; root_page = child }) in
      if ltb 0 (length ks) then some t else if not (is_positive child) then some t else rest
]

unfoldable after_delete : ℕ → ℕ → Deleted × Pager → Option (Bool × BTree)
unfolding collapse_root
after_delete fuel root (absent, p) = some (false, record { pager = p; root_page = root })
after_delete fuel root (no_fuel, p) = none
after_delete fuel root (removed underflow, p) =
    elim (collapse_root fuel (record { pager = p; root_page = root })) [
      | none ↦ none
      | some t ↦ some (true, t)
    ]

unfoldable btree_delete : ℕ → BTree → Cell → ℕ → ℕ → Option (Bool × BTree)
unfolding delete_rec after_delete encode_key
btree_delete fuel t key row_page row_offset =
    let e : Entry = record { key = encode_key key; row_page = row_page; row_offset = row_offset } in
    after_delete fuel t.root_page (delete_rec fuel t.pager t.root_page e)
