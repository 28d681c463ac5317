-- ===== src/BTree/Node/RoundTrip.antt =====
-- A node that is stored on a page loads as it was.
use my_pl.Prelude.{
  ℕ, suc, ◌+◌, ◌-◌, ◌*◌, ◌/◌, ◌%◌, ◌^◌, ◌≤◌, ◌<◌, ◌≡◌, refl, List, [], ◌∷◌, ◌++◌, some,
  append_assoc, length, All, take-append, drop-append, length-append, length-replicate, arith,
  if◌then◌else◌, ◌==◌,
}
use my_pl.Pager.{page_size, Pager, bitmap_bits}
use my_pl.Pager.Alloc.{IsValid}
use my_pl.Pager.Pages.{Fits, read_page-write_page}
use my_pl.BTree.Key.{key_size}
use my_pl.BTree.Node.{
  Key, Entry, BtNode, leaf, internal, leaf_max, internal_max, read_entries, read_children,
  read_keys, write_entries, write_children, write_keys, parse_node, print_node, node_load,
  node_store, children_bytes, cleared,
}

abbrev pub IsKey : Key → Type 0
IsKey k = length k ≡ key_size

abbrev pub IsWord : ℕ → Type 0
IsWord w = w < 2 ^ 32

abbrev pub IsEntry : Entry → Type 0
IsEntry e = IsKey e.key × IsWord e.row_page × IsWord e.row_offset

-- A node that the fixed arrays of `BtNode` can hold.
abbrev pub IsNode : BtNode → Type 0
IsNode (leaf es next) = (length es ≤ leaf_max) × All IsEntry es × IsWord next
IsNode (internal cs ks) =
    (length ks ≤ internal_max) × (length cs ≡ suc (length ks)) × All IsWord cs × All IsKey ks

read_entries-write_entries :
    (es : List Entry) (rest : List ℕ)
    → All IsEntry es
    → read_entries (length es) (write_entries es ++ rest) ≡ es
unfolding read_entries write_entries
read_entries-write_entries [] rest h = refl
read_entries-write_entries (e ∷ es) rest h =
    simp
      (
        append_assoc,
        take-append key_size e.key _ h.0.0,
        drop-append key_size e.key _ h.0.0,
        read_entries-write_entries es rest h.1,
      )
      (ground arith)

read_children-write_children :
    (cs : List ℕ) (rest : List ℕ)
    → All IsWord cs
    → read_children (length cs) (write_children cs ++ rest) ≡ cs
unfolding read_children write_children
read_children-write_children [] rest h = refl
read_children-write_children (c ∷ cs) rest h =
    ground (arith, read_children-write_children cs rest h.1)

read_keys-write_keys :
    (ks : List Key) (rest : List ℕ)
    → All IsKey ks
    → read_keys (length ks) (write_keys ks ++ rest) ≡ ks
unfolding read_keys write_keys
read_keys-write_keys [] rest h = refl
read_keys-write_keys (k ∷ ks) rest h = simp (
  append_assoc,
  take-append key_size k _ h.0,
  drop-append key_size k _ h.0,
  read_keys-write_keys ks rest h.1,
)

length-write_children : (cs : List ℕ) → length (write_children cs) ≡ 4 * length cs
unfolding write_children
length-write_children [] = refl
length-write_children (c ∷ cs) = omega (arith, length-write_children cs)

-- The two-byte count of a page.
count-u16 : (n : ℕ) → n < 2 ^ 16 → n % 256 + 256 * (n / 256 % 256) ≡ n
count-u16 n h = omega arith

length-links :
    (cs : List ℕ)
    → length cs ≤ suc internal_max
    → length (write_children cs ++ cleared children_bytes (write_children cs)) ≡ children_bytes
length-links cs h = omega (
  arith,
  length-append (write_children cs) (cleared children_bytes (write_children cs)),
  length-write_children cs,
  length-replicate {A = ℕ} (children_bytes - length (write_children cs)) 0,
)

-- The bytes of a node that fits the arrays parse to that node.
pub parse_node-print_node : (node : BtNode) → IsNode node → parse_node (print_node node) ≡ some node
unfolding parse_node print_node
parse_node-print_node (leaf es next) (few, wf, link) =
    rw (count-u16 (length es) (omega arith)) (
      ground (arith, read_entries-write_entries es (cleared (page_size - 8) (write_entries es)) wf))
parse_node-print_node (internal cs ks) (few, links, words, keys) =
    rw (count-u16 (length ks) (omega arith)) (
      ground (
        arith,
        drop-append children_bytes (write_children cs ++ cleared children_bytes (write_children cs))
            (write_keys ks ++ cleared (page_size - 8 - children_bytes) (write_keys ks))
            (length-links cs (omega arith)),
        read_keys-write_keys ks (cleared (page_size - 8 - children_bytes) (write_keys ks)) keys,
        read_children-write_children cs
            (cleared children_bytes (write_children cs)
              ++ (write_keys ks ++ cleared (page_size - 8 - children_bytes) (write_keys ks)))
            words,
        append_assoc (write_children cs) (cleared children_bytes (write_children cs))
            (write_keys ks ++ cleared (page_size - 8 - children_bytes) (write_keys ks)),
      ))

-- In a valid pager whose file fits its page count, a node that fits the arrays and is stored on a
-- page of the bitmap loads as it was, and every other page loads as before.
pub node_load-node_store :
    (p : Pager) (n m : ℕ) (node : BtNode)
    → IsValid p
    → Fits p
    → n < bitmap_bits
    → m < 2 ^ 31
    → IsNode node
    → node_load (node_store p n node) m ≡ (if m == n then some node else node_load p m)
unfolding node_load node_store
node_load-node_store p n m node v f hn hm wf =
    ground (arith, read_page-write_page p n m (print_node node) v f, parse_node-print_node node wf)
