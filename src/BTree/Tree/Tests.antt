-- ===== src/BTree/Tree/Tests.antt =====
-- Whole trees on concrete pagers.
use my_pl.Prelude.{
  ℕ, zero, ◌≤◌, ◌≡◌, ◌≢◌, refl, ap, ◌∙◌, true, none, some, List, ◌∷◌, ◌++◌, length, arith,
}
use my_pl.Pager.Tests.{fresh, fresh-IsValid, fresh-Fits}
use my_pl.BTree.Key.{Cell, int, encode_key}
use my_pl.BTree.Node.{Entry, leaf, node_store}
use my_pl.BTree.Node.RoundTrip.{node_load-node_store}
use my_pl.BTree.Insert.{
  BTree, stored, leaf_insert, insert_leaf, after_root, btree_create, btree_insert,
}
use my_pl.BTree.Insert.Leaf.{length-leaf_insert}
use my_pl.BTree.Insert.Split.{node_store-IsReady, node_store-InUse}
use my_pl.BTree.Scan.{Locator, scanned, btree_scan_eq, btree_scan_range}
use my_pl.BTree.Tests.{two, two-IsSorted, two-IsNode, fresh_uses, fresh-IsReady, stored_leaf}
use my_pl.BTree.Tree.{TreeOf, IsTree}
use my_pl.BTree.Tree.Create.{CreateOutcome, btree_create-CreateOutcome}
use my_pl.BTree.Tree.Root.{InsertOutcome, btree_insert-InsertOutcome, btree_insert-fuel}
use my_pl.BTree.Tree.Insertion.{insert_rec-leaf}
use my_pl.BTree.Tree.Lookup.{located, encoded, btree_scan_eq-located, btree_scan_range-located}
use my_pl.BTree.Tree.Update.{btree_scan_eq-btree_insert}

abbrev small : BTree
small = record { pager = stored_leaf; root_page = 1 }

abbrev small_leaf : TreeOf zero
small_leaf = record { page = 1; entries = two; next = 0 }

small-IsTree : IsTree zero stored_leaf 1 small_leaf
small-IsTree = record {
  at_root = refl;
  ready = node_store-IsReady fresh 1 (leaf two 0) fresh-IsReady (omega arith);
  owned = record {
    once = λ m. ground arith;
    used = λ m some_time.
        let same : 1 ≡ m = ground (arith, some_time) in
        (
          rw (← same)
              (node_store-InUse fresh 1 1 (leaf two 0) fresh-IsReady (omega arith) fresh_uses),
          rw (← same) (omega arith),
        );
  };
  stored = (
    node_load-node_store fresh 1 1 (leaf two 0) fresh-IsValid fresh-Fits (omega arith) (omega arith)
        (two-IsNode.0, two-IsNode.1, omega arith),
    two-IsNode.0,
    two-IsNode.1,
    omega arith,
  );
  ordered = (two-IsSorted, ((tt, tt), ((tt, tt), tt)));
  linked = refl;
  no_header = refl;
}

btree_create-CreateOutcome_example : CreateOutcome fresh (btree_create fresh)
btree_create-CreateOutcome_example = btree_create-CreateOutcome fresh fresh-IsReady

abbrev five : Entry
five = record { key = encode_key (int 5); row_page = 7; row_offset = 8 }

btree_insert-InsertOutcome_example :
    InsertOutcome zero stored_leaf five small_leaf (btree_insert 1 small (int 5) 7 8)
btree_insert-InsertOutcome_example =
    btree_insert-InsertOutcome zero 1 small small_leaf (int 5) 7 8 small-IsTree (omega arith)
      (omega arith) (omega arith)

btree_insert-fuel_example :
    (btree_insert 1 small (int 5) 7 8 ≡ btree_insert 9 small (int 5) 7 8)
    × ((btree_insert 1 small (int 5) 7 8).0 ≢ none)
btree_insert-fuel_example =
    btree_insert-fuel zero 1 9 small small_leaf (int 5) 7 8 small-IsTree (omega arith) (omega arith)
      (omega arith) (omega arith)

abbrev larger : BTree
larger = record { pager = node_store stored_leaf 1 (leaf (leaf_insert five two) 0); root_page = 1 }

leaf_takes_five :
    insert_leaf stored_leaf 1 two 0 five
    ≡ (stored, node_store stored_leaf 1 (leaf (leaf_insert five two) 0))
unfolding insert_leaf
leaf_takes_five = rw (length-leaf_insert)

small_takes_five : btree_insert 1 small (int 5) 7 8 ≡ (some true, larger)
unfolding btree_insert after_root
small_takes_five =
    ap (after_root 1) (insert_rec-leaf 0 stored_leaf 1 five small-IsTree.stored.0 ∙ leaf_takes_five)

btree_scan_eq-located_example :
    let found = located (some (encode_key (int 5), true)) (some (encode_key (int 5), true)) two in
    btree_scan_eq 1 small (int 5) ≡ scanned (length found) found
btree_scan_eq-located_example =
    btree_scan_eq-located 1 small small_leaf small-IsTree (omega arith) (omega arith) (int 5)

btree_scan_range-located_example :
    let found = located none (encoded (some (int 5, true))) two in
    btree_scan_range 1 small none (some (int 5, true)) ≡ scanned (length found) found
btree_scan_range-located_example =
    btree_scan_range-located 1 small small_leaf small-IsTree (omega arith) (omega arith) none
      (some (int 5, true))

btree_scan_eq-btree_insert_example :
    (enough : ℕ) × (before : List Locator) × (after : List Locator) × ((f : ℕ)
      → enough ≤ f
      → (btree_scan_eq f small (int 5) ≡ scanned (length (before ++ after)) (before ++ after))
        × (btree_scan_eq f larger (int 5)
            ≡ scanned (length (before ++ ((7, 8) ∷ after))) (before ++ ((7, 8) ∷ after)))
        × ((other : Cell)
            → encode_key (int 5) ≢ encode_key other
            → btree_scan_eq f larger other ≡ btree_scan_eq f small other))
btree_scan_eq-btree_insert_example =
    btree_scan_eq-btree_insert zero 1 small larger small_leaf (int 5) 7 8 small-IsTree (omega arith)
      (omega arith) (omega arith) small_takes_five
