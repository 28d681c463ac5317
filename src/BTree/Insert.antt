-- ===== src/BTree/Insert.antt =====
-- src/btree.c: the lifecycle of a tree and `btree_insert`. A NULL tree or key, and a failed
-- `calloc`, are left out. The recursion takes fuel: `no_fuel` stands for a descent that is deeper.
pub mod Leaf
pub mod Split
pub mod Internal
use my_pl.Prelude.{
  ℕ, zero, suc, ◌+◌, ◌/◌, Bool, true, false, not, List, [], ◌∷◌, ◌++◌, Option, none, some, leb,
  if◌then◌else◌, length, take, drop, get_or, insert_at,
}
use my_pl.Prelude.Int.{is_positive}
use my_pl.Prelude.Bytes.{leb_bytes}
use my_pl.Pager.{Pager, allocate_page}
use my_pl.BTree.Key.{Cell, encode_key}
use my_pl.BTree.Node.{
  Key, Entry, BtNode, leaf, internal, leaf_max, internal_max, keys_of, node_load, node_store,
}

pub record BTree : Type 0 where
  pub pager : Pager
  pub root_page : ℕ

-- What `btree_create` returns for the page that it was given.
unfoldable pub create_at : Option ℕ × Pager → Option BTree × Pager
create_at (none, p) = (none, p)
create_at (some root, p) =
    let p' = node_store p root (leaf [] 0) in (some (record { pager = p'; root_page = root }), p')

unfoldable pub btree_create : Pager → Option BTree × Pager
unfolding create_at
btree_create p = create_at (allocate_page p)

unfoldable btree_open : Pager → ℕ → Option BTree
btree_open p root =
    if not (is_positive root) then none else some (record { pager = p; root_page = root })

-- The result and the out-parameters of `insert_rec`: `failed` is 0, `split` sets `*did_split`.
pub data Inserted : Type 0 where
  failed stored no_fuel : Inserted
  split : Key → ℕ → Inserted

-- Where a new entry goes in a leaf: behind every key that is not greater.
unfoldable pub upper_pos : Key → List Entry → ℕ
upper_pos key [] = 0
upper_pos key (e ∷ es) = if leb_bytes e.key key then suc (upper_pos key es) else 0

-- The child to descend into: the first whose separator is not less than the key.
unfoldable pub child_index : Key → List Key → ℕ
child_index key [] = 0
child_index key (k ∷ ks) = if not (leb_bytes key k) then suc (child_index key ks) else 0

unfoldable pub leaf_insert : Entry → List Entry → List Entry
unfolding upper_pos
leaf_insert e es = insert_at (upper_pos e.key es) e es

abbrev pub first_key : List Entry → Key
first_key [] = []
first_key (e ∷ es) = e.key

-- The split of a leaf, once `pager_allocate_page` has answered.
unfoldable pub split_leaf : ℕ → List Entry → ℕ → Option ℕ × Pager → Inserted × Pager
split_leaf n es next (none, p) = (failed, p)
split_leaf n es next (some new_page, p) =
    let half = length es / 2 in
    let right = drop half es in
    let p' = node_store p n (leaf (take half es) new_page) in
    let p'' = node_store p' new_page (leaf right next) in (split (first_key right) new_page, p'')

unfoldable pub insert_leaf : Pager → ℕ → List Entry → ℕ → Entry → Inserted × Pager
unfolding leaf_insert split_leaf
insert_leaf p n es next e =
    let es' = leaf_insert e es in
    if leb (length es') leaf_max
    then (stored, node_store p n (leaf es' next))
    else split_leaf n es' next (allocate_page p)

-- The split of an internal node: the median separator moves up.
unfoldable pub split_internal : ℕ → List ℕ → List Key → Option ℕ × Pager → Inserted × Pager
split_internal n cs ks (none, p) = (failed, p)
split_internal n cs ks (some new_page, p) =
    let mid = length ks / 2 in
    let p' = node_store p n (internal (take (suc mid) cs) (take mid ks)) in
    let p'' = node_store p' new_page (internal (drop (suc mid) cs) (drop (suc mid) ks)) in
    (split (get_or ks mid []) new_page, p'')

-- What an internal node does with the answer of child `i`.
unfoldable pub after_child : ℕ → List ℕ → List Key → ℕ → Inserted × Pager → Inserted × Pager
unfolding split_internal
after_child n cs ks i (failed, p) = (failed, p)
after_child n cs ks i (no_fuel, p) = (no_fuel, p)
after_child n cs ks i (stored, p) = (stored, p)
after_child n cs ks i (split child_key child_page, p) =
    let ks' = insert_at i child_key ks in
    let cs' = insert_at (suc i) child_page cs in
    if leb (length ks') internal_max
    then (stored, node_store p n (internal cs' ks'))
    else split_internal n cs' ks' (allocate_page p)

unfoldable pub insert_rec : ℕ → Pager → ℕ → Entry → Inserted × Pager
unfolding insert_leaf after_child child_index
insert_rec zero p n e = (no_fuel, p)
insert_rec (suc fuel) p n e = elim (node_load p n) [
  | none ↦ (failed, p)
  | some (leaf es next) ↦ insert_leaf p n es next e
  | some (internal cs ks) ↦
      let i = child_index e.key ks in after_child n cs ks i (insert_rec fuel p (get_or cs i 0) e)
]

-- The root split of `btree_insert`, once `pager_allocate_page` has answered.
unfoldable pub grow_root : ℕ → Key → ℕ → Option ℕ × Pager → Option Bool × BTree
grow_root root key page (none, p) = (some false, record { pager = p; root_page = root })
grow_root root key page (some new_root, p) = (
  some true,
  record {
    pager = node_store p new_root (internal (root ∷ page ∷ []) (key ∷ []));
    root_page = new_root;
  },
)

unfoldable pub after_root : ℕ → Inserted × Pager → Option Bool × BTree
after_root root (failed, p) = (some false, record { pager = p; root_page = root })
after_root root (no_fuel, p) = (none, record { pager = p; root_page = root })
after_root root (stored, p) = (some true, record { pager = p; root_page = root })
after_root root (split key page, p) = grow_root root key page (allocate_page p)

-- `none` stands for fuel that ran out.
unfoldable pub btree_insert : ℕ → BTree → Cell → ℕ → ℕ → Option Bool × BTree
unfolding insert_rec after_root grow_root encode_key
btree_insert fuel t key row_page row_offset =
    let e : Entry = record { key = encode_key key; row_page = row_page; row_offset = row_offset } in
    after_root t.root_page (insert_rec fuel t.pager t.root_page e)
