-- ===== src/BTree/Tests.antt =====
-- Runs of src/btree.c on small nodes.
use my_pl.Prelude.{
  ℕ, ◌+◌, ◌≡◌, refl, true, List, [], ◌∷◌, none, some, Ordering, arith, if◌then◌else◌, ◌==◌,
  replicate, get_or, set, insert_at,
}
use my_pl.Prelude.Int.{ltb_ℤ, signed32}
use my_pl.Prelude.Bytes.{memcmp, leb_bytes}
use my_pl.Pager.{Pager, bitmap_test, bitmap_set, write_header, empty_bitmap}
use my_pl.Pager.Alloc.{InUse}
use my_pl.Pager.Tests.{fresh, fresh-IsValid, fresh-Fits}
use my_pl.BTree.Key.{int, float, string, key_size, encode_key}
use my_pl.BTree.Key.Order.{encode_key-int, encode_key-float, encode_key-string_short, ltb_float}
use my_pl.BTree.Node.{Key, Entry, leaf, node_load, node_store, nkeys}
use my_pl.BTree.Node.RoundTrip.{IsNode, node_load-node_store}
use my_pl.BTree.Insert.{insert_leaf, split, after_child}
use my_pl.BTree.Insert.Leaf.{IsSorted}
use my_pl.BTree.Insert.Split.{IsReady, LeafOutcome, insert_leaf-LeafOutcome}
use my_pl.BTree.Insert.Internal.{InternalOutcome, after_child-InternalOutcome}
use my_pl.BTree.Delete.{rotate_right, rotate_left, merge_nodes, find_entry}
use my_pl.BTree.Delete.Siblings.{
  SameItems, IsMerged, rotate_right-SameItems, rotate_left-SameItems, merge_nodes-IsMerged,
}
use my_pl.BTree.Scan.Chain.{Chain, end, link}

abbrev pub key_of : ℕ → Key
key_of n = replicate key_size n

abbrev pub entry : ℕ → Entry
entry n = record { key = key_of n; row_page = n; row_offset = 0 }

abbrev one : List Entry
one = entry 1 ∷ []

abbrev pub two : List Entry
two = entry 1 ∷ entry 2 ∷ []

pub two-IsSorted : IsSorted two
unfolding memcmp
two-IsSorted = ((refl, tt), (tt, tt))

encode_key-int_example : memcmp (encode_key (int 5)) (encode_key (int 4294967295)) ≡ (
    if ltb_ℤ (signed32 5) (signed32 4294967295)
    then Ordering.lt
    else if 5 == 4294967295
    then Ordering.eq
    else Ordering.gt)
encode_key-int_example = encode_key-int 5 4294967295 (omega arith) (omega arith)

-- The keys of 0.0 and of -0.0.
encode_key-float_example :
    memcmp (encode_key (float 9223372036854775808)) (encode_key (float 0)) ≡ (
      if ltb_float 9223372036854775808 0
      then Ordering.lt
      else if 9223372036854775808 == 0
      then Ordering.eq
      else Ordering.gt)
encode_key-float_example = encode_key-float 9223372036854775808 0 (omega arith) (omega arith)

abbrev ab : List ℕ
ab = b'a' ∷ b'b' ∷ []

abbrev ac : List ℕ
ac = b'a' ∷ b'c' ∷ []

ab_le_ac : leb_bytes ab ac ≡ true
unfolding memcmp
ab_le_ac = refl

encode_key-string_short_example :
    memcmp (encode_key (string (some ab))) (encode_key (string (some ac))) ≡ memcmp ab ac
encode_key-string_short_example =
    encode_key-string_short ab ac (omega arith, (omega arith, tt)) (omega arith, (omega arith, tt))
      (omega arith) (omega arith)

pub two-IsNode : IsNode (leaf two 7)
two-IsNode = (
  omega arith,
  ((refl, omega arith, omega arith), ((refl, omega arith, omega arith), tt)),
  omega arith,
)

node_load-node_store_example :
    node_load (node_store fresh 1 (leaf two 7)) 1
    ≡ (if 1 == 1 then some (leaf two 7) else node_load fresh 1)
node_load-node_store_example =
    node_load-node_store fresh 1 1 (leaf two 7) fresh-IsValid fresh-Fits (omega arith) (omega arith)
      two-IsNode

pub fresh_uses : InUse fresh 1
unfolding bitmap_test bitmap_set write_header empty_bitmap
fresh_uses = refl

pub fresh-IsReady : IsReady fresh
fresh-IsReady = record { valid = fresh-IsValid; fits = fresh-Fits }

insert_leaf-LeafOutcome_example :
    LeafOutcome fresh 1 two 7 (entry 3) (insert_leaf fresh 1 two 7 (entry 3))
insert_leaf-LeafOutcome_example =
    insert_leaf-LeafOutcome fresh 1 two 7 (entry 3) fresh-IsReady fresh_uses (omega arith)
      two-IsNode (refl, omega arith, omega arith)

abbrev children : List ℕ
children = 2 ∷ 3 ∷ []

abbrev keys : List Key
keys = key_of 1 ∷ []

after_child-InternalOutcome_example :
    InternalOutcome fresh 1
      (insert_at 2 4 children)
      (insert_at 1 (key_of 2) keys)
      (after_child 1 children keys 1 (split (key_of 2) 4, fresh))
after_child-InternalOutcome_example =
    after_child-InternalOutcome fresh 1 children keys 1 (key_of 2) 4 fresh-IsReady fresh_uses
      (omega arith) (omega arith, refl, (omega arith, (omega arith, tt)), (refl, tt)) refl
      (omega arith)

rotate_right-SameItems_example :
    let m = rotate_right (key_of 3 ∷ []) 1 (leaf two 5) (leaf (entry 3 ∷ []) 0) in
    SameItems
      (key_of 3)
      (leaf two 5)
      (leaf (entry 3 ∷ []) 0)
      (get_or m.separators 0 [])
      m.left
      m.right
    × (nkeys m.left + 1 ≡ 2)
    × (nkeys m.right ≡ 2)
    × (m.separators ≡ set (key_of 3 ∷ []) 0 (get_or m.separators 0 []))
rotate_right-SameItems_example =
    rotate_right-SameItems (key_of 3 ∷ []) 1 (leaf two 5) (leaf (entry 3 ∷ []) 0) tt tt tt
      (omega arith) (omega arith) (omega arith)

rotate_left-SameItems_example :
    let m = rotate_left (key_of 1 ∷ []) 0 (leaf (entry 0 ∷ []) 5) (leaf two 0) in
    SameItems
      (key_of 1)
      (leaf (entry 0 ∷ []) 5)
      (leaf two 0)
      (get_or m.separators 0 [])
      m.left
      m.right
    × (nkeys m.left ≡ 2)
    × (nkeys m.right + 1 ≡ 2)
    × (m.separators ≡ set (key_of 1 ∷ []) 0 (get_or m.separators 0 []))
rotate_left-SameItems_example =
    rotate_left-SameItems (key_of 1 ∷ []) 0 (leaf (entry 0 ∷ []) 5) (leaf two 0) tt tt tt
      (omega arith) (omega arith)

merge_nodes-IsMerged_example :
    IsMerged
      (key_of 3)
      (leaf two 5)
      (leaf (entry 3 ∷ []) 9)
      (merge_nodes (key_of 3) (leaf two 5) (leaf (entry 3 ∷ []) 9))
merge_nodes-IsMerged_example =
    merge_nodes-IsMerged (key_of 3) (leaf two 5) (leaf (entry 3 ∷ []) 9) tt tt (omega arith)

found_second : find_entry (entry 2) two 0 ≡ some 1
unfolding find_entry memcmp
found_second = refl

found_none : find_entry (entry 3) two 0 ≡ none
unfolding find_entry memcmp
found_none = refl

abbrev pub stored_leaf : Pager
stored_leaf = node_store fresh 1 (leaf two 0)

one_leaf : Chain stored_leaf 1 (two ∷ [])
one_leaf =
    link (λ e. absurd (omega (arith, e)))
      (node_load-node_store fresh 1 1 (leaf two 0) fresh-IsValid fresh-Fits (omega arith)
        (omega arith) (two-IsNode.0, two-IsNode.1, omega arith))
      (end refl)
