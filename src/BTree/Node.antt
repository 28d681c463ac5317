-- ===== src/BTree/Node.antt =====
-- src/btree.c: a node in memory (`BtNode`), and its page (`node_load`, `node_store`). The arrays of
-- the struct are lists of the `nkeys` items in use. `entries_of` and the functions behind it read
-- the arrays of a node of either kind, as the code does, with the zeros that `memset` leaves.
pub mod RoundTrip
use my_pl.Prelude.{
  ℕ, zero, suc, ◌+◌, ◌-◌, ◌*◌, Bool, true, false, List, [], ◌∷◌, ◌++◌, map, Option, none, some, leb,
  ◌==◌, if◌then◌else◌, length, take, drop, replicate, get_or,
}
use my_pl.Prelude.Bytes.{u16_bytes, u32_bytes, bytes_u16, bytes_u32}
use my_pl.Pager.{Pager, page_size, read_page, write_page}
use my_pl.BTree.Key.{key_size}

abbrev pub leaf_max : ℕ
leaf_max = 90

abbrev pub internal_max : ℕ
internal_max = 99

abbrev pub leaf_min : ℕ
leaf_min = 45

abbrev pub internal_min : ℕ
internal_min = 49

abbrev pub Key : Type 0
Key = List ℕ

pub record Entry : Type 0 where
  pub key : Key
  pub row_page : ℕ
  pub row_offset : ℕ

-- A leaf's entries and its link; an internal node's children and separators.
pub data BtNode : Type 0 where
  leaf : List Entry → ℕ → BtNode
  internal : List ℕ → List Key → BtNode

abbrev pub entries_of : BtNode → List Entry
entries_of (leaf es next) = es
entries_of (internal cs ks) = map (λ k. record { key = k; row_page = 0; row_offset = 0 }) ks

abbrev pub keys_of : BtNode → List Key
keys_of (leaf es next) = map (λ e. e.key) es
keys_of (internal cs ks) = ks

abbrev pub children_of : BtNode → List ℕ
children_of (leaf es next) = replicate (suc (length es)) 0
children_of (internal cs ks) = cs

abbrev pub next_of : BtNode → ℕ
next_of (leaf es next) = next
next_of (internal cs ks) = 0

abbrev pub nkeys : BtNode → ℕ
nkeys (leaf es next) = length es
nkeys (internal cs ks) = length ks

abbrev is_leaf : BtNode → Bool
is_leaf (leaf es next) = true
is_leaf (internal cs ks) = false

abbrev pub min_keys : BtNode → ℕ
min_keys (leaf es next) = leaf_min
min_keys (internal cs ks) = internal_min

pub read_entries : ℕ → List ℕ → List Entry
read_entries zero bs = []
read_entries (suc n) bs =
    record {
      key = take key_size bs;
      row_page = bytes_u32 (drop key_size bs);
      row_offset = bytes_u32 (drop 4 (drop key_size bs));
    }
    ∷ read_entries n (drop 4 (drop 4 (drop key_size bs)))

pub read_children : ℕ → List ℕ → List ℕ
read_children zero bs = []
read_children (suc n) bs = bytes_u32 bs ∷ read_children n (drop 4 bs)

pub read_keys : ℕ → List ℕ → List Key
read_keys zero bs = []
read_keys (suc n) bs = take key_size bs ∷ read_keys n (drop key_size bs)

-- `BTREE_INTERNAL_KEYS_OFF` less the 8 bytes of the node's head.
abbrev pub children_bytes : ℕ
children_bytes = 4 * (internal_max + 1)

abbrev leaf_tag : ℕ
leaf_tag = 1

abbrev internal_tag : ℕ
internal_tag = 2

-- A node from the bytes of its page; `none` is the result 0.
unfoldable pub parse_node : List ℕ → Option BtNode
unfolding read_entries read_children read_keys
parse_node page =
    let tag = get_or page 0 0 in
    let count = bytes_u16 (drop 2 page) in
    let body = drop 8 page in
    if tag == leaf_tag
    then if leb count leaf_max
      then some (leaf (read_entries count body) (bytes_u32 (drop 4 page)))
      else none
    else if tag == internal_tag
    then if leb count internal_max
      then some
          (internal (read_children (suc count) body) (read_keys count (drop children_bytes body)))
      else none
    else none

unfoldable pub node_load : Pager → ℕ → Option BtNode
unfolding parse_node
node_load p n = parse_node (read_page p n)

pub write_entries : List Entry → List ℕ
write_entries [] = []
write_entries (e ∷ es) =
    e.key ++ (u32_bytes e.row_page ++ (u32_bytes e.row_offset ++ write_entries es))

pub write_children : List ℕ → List ℕ
write_children [] = []
write_children (c ∷ cs) = u32_bytes c ++ write_children cs

pub write_keys : List Key → List ℕ
write_keys [] = []
write_keys (k ∷ ks) = k ++ write_keys ks

-- The rest of an area that `memset` has cleared.
abbrev pub cleared : ℕ → List ℕ → List ℕ
cleared n bs = replicate (n - length bs) 0

unfoldable pub print_node : BtNode → List ℕ
unfolding write_entries write_children write_keys
print_node (leaf es next) =
    let body = write_entries es in
    leaf_tag
    ∷ 0
    ∷ (u16_bytes (length es) ++ (u32_bytes next ++ (body ++ cleared (page_size - 8) body)))
print_node (internal cs ks) =
    let links = write_children cs in
    let separators = write_keys ks in
    internal_tag
    ∷ 0
    ∷ (u16_bytes (length ks)
        ++ (u32_bytes 0
            ++ ((links ++ cleared children_bytes links)
                ++ (separators ++ cleared (page_size - 8 - children_bytes) separators))))

unfoldable pub node_store : Pager → ℕ → BtNode → Pager
unfolding print_node
node_store p n node = write_page p n (print_node node)
