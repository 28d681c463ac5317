-- ===== src/BTree/Tree/Lookup.antt =====
-- `btree_scan_eq` and `btree_scan_range` on a search tree, alone and after an insertion.
use my_pl.Prelude.{
  ℕ, zero, suc, ◌≤◌, ◌<◌, ◌≡◌, refl, sym, ap, ◌∙◌, Bool, true, false, List, [], ◌∷◌, ◌++◌, Option,
  none, some, map, All, append-nil, length, arith, ◌==◌,
}
use my_pl.Prelude.Int.{is_positive}
use my_pl.Prelude.Bytes.{leb_bytes, ltb_bytes-swap}
use my_pl.Pager.{Pager}
use my_pl.BTree.Key.{Cell, encode_key}
use my_pl.BTree.Node.{Key, Entry, leaf, internal, node_load}
use my_pl.BTree.Insert.{BTree}
use my_pl.BTree.Insert.Leaf.{IsSorted}
use my_pl.BTree.Scan.{
  Bound, Locator, locator, is_below, scanned, scan_from, find_leaf, leftmost_leaf, start_leaf,
  bound_of, btree_scan_eq, btree_scan_range,
}
use my_pl.BTree.Scan.Chain.{
  Chain, end, concat, selected, at_least-is_below, selected-append, reports, IsSorted-append_right,
  scan_chain-reports, scan_chain-reports_eq,
}
use my_pl.BTree.Tree.{
  TreeOf, page_of, items, count, Stored, Owned, IsTree, first_of, first_leaf, total,
}
use my_pl.BTree.Tree.Bounds.{Ordered-SortedWithin}
use my_pl.BTree.Tree.Search.{
  leaves, concat-leaves, leaves-Chain, Arrives, find_leaf-Arrives, page-is_positive,
}

-- The locators of the entries within the bounds, in order.
abbrev pub located : Bound → Bound → List Entry → List Locator
located lo hi es = map locator (selected lo hi es)

-- What the bounds of a caller say of keys: none, or a cell with whether it is inclusive.
abbrev pub encoded : Option (Cell × Bool) → Bound
encoded none = none
encoded (some (cell, inclusive)) = some (encode_key cell, inclusive)

bound_of-encoded : (b : Option (Cell × Bool)) → bound_of b ≡ encoded b
bound_of-encoded none = refl
bound_of-encoded (some (cell, inclusive)) = refl

-- Entries that are less than the lower bound are not reported.
selected-skipped :
    (key : Key) (inclusive : Bool) (hi : Bound) (es : List Entry)
    → All (λ (d : Entry). leb_bytes key d.key ≡ false) es
    → selected (some (key, inclusive)) hi es ≡ []
unfolding is_below
selected-skipped key inclusive hi [] a = refl
selected-skipped key inclusive hi (d ∷ es) a = ground (
  arith,
  selected-skipped key inclusive hi es a.1,
  ltb_bytes-swap key d.key,
  a.0,
  at_least-is_below (some (key, inclusive)) d.key,
)

module _ {h : ℕ} {p : Pager} {t : TreeOf h} {key : Key} {n : ℕ} (a : Arrives h p t key n)
    (inclusive : Bool) (hi : Bound) where
  Arrives-reports :
      reports (some (key, inclusive)) hi a.rest ≡ located (some (key, inclusive)) hi (items h t)
  Arrives-reports = ap (map locator) (
      sym (
        ap (λ es. es ++ selected (some (key, inclusive)) hi (concat a.rest))
          (selected-skipped key inclusive hi a.skipped a.all_less))
      ∙ sym (selected-append (some (key, inclusive)) hi a.skipped (concat a.rest))
      ∙ ap (selected (some (key, inclusive)) hi) (sym a.all_items))

  Arrives-IsSorted : IsSorted (items h t) → IsSorted (concat a.rest)
  Arrives-IsSorted s = IsSorted-append_right a.skipped (concat a.rest) (rw (← a.all_items) s)

leftmost_leaf-leaf :
    (fuel : ℕ) (p : Pager) (n : ℕ) {es : List Entry} {next : ℕ}
    → node_load p n ≡ some (leaf es next)
    → leftmost_leaf (suc fuel) p n ≡ some n
unfolding leftmost_leaf
leftmost_leaf-leaf fuel p n loads = rw (leftmost_leaf, loads)

leftmost_leaf-internal :
    (fuel : ℕ) (p : Pager) (n child : ℕ) {cs : List ℕ} {ks : List Key}
    → node_load p n ≡ some (internal (child ∷ cs) ks)
    → is_positive child ≡ true
    → leftmost_leaf (suc fuel) p n ≡ leftmost_leaf fuel p child
unfolding leftmost_leaf
leftmost_leaf-internal fuel p n child loads positive = rw (leftmost_leaf, loads, positive)

-- The descent to the left ends on the first leaf.
leftmost_leaf-first :
    (h fuel : ℕ) (p : Pager) (t : TreeOf h)
    → h < fuel
    → Owned p (count h t)
    → Stored h p t
    → count h t 0 ≡ 0
    → (leftmost_leaf fuel p (page_of h t) ≡ some (first_leaf h t)) × ((first_leaf h t == 0) ≡ false)
leftmost_leaf-first h zero p t deep o s z = absurd (omega arith)
leftmost_leaf-first zero (suc fuel) p t deep o s z =
    (leftmost_leaf-leaf fuel p t.page s.0, ground (arith, z))
leftmost_leaf-first (suc h) (suc fuel) p t deep o (loads, few, len, keys, below) z =
    below_first (λ c. leftmost_leaf-first h fuel p c (omega arith)) t.children loads len below
      (λ m. omega arith)
  where
    below_first :
        ((c : TreeOf h)
          → Owned p (count h c)
          → Stored h p c
          → count h c 0 ≡ 0
          → (leftmost_leaf fuel p (page_of h c) ≡ some (first_leaf h c))
            × ((first_leaf h c == 0) ≡ false))
        → (ts : List (TreeOf h))
        → node_load p t.page ≡ some (internal (map (page_of h) ts) t.separators)
        → length ts ≡ suc (length t.separators)
        → All (Stored h p) ts
        → ((m : ℕ) → total (λ u. count h u m) ts ≤ count (suc h) t m)
        → (leftmost_leaf (suc fuel) p t.page ≡ some (first_of (first_leaf h) ts 0))
          × ((first_of (first_leaf h) ts 0 == 0) ≡ false)
    below_first each [] loads' len' below' among = absurd (omega (arith, len'))
    below_first each (c ∷ cs) loads' len' below' among =
        let owned : Owned p (count h c) = record {
          once = λ m. omega (arith, among m, o.once m);
          used = λ m one. o.used m (omega (arith, among m, one));
        } in
        let no_zero : count h c 0 ≡ 0 = omega (arith, among 0, z) in
        let (found, not_end) = each c owned below'.0 no_zero in
        (
          leftmost_leaf-internal fuel p t.page (page_of h c) loads'
                (page-is_positive h p c owned no_zero)
              ∙ found,
          not_end,
        )

module _ {h : ℕ} (fuel : ℕ) (b : BTree) (t : TreeOf h) (is : IsTree h b.pager b.root_page t)
    (deep : h < fuel) (long : length (leaves h t) ≤ fuel) where
  sorted : IsSorted (items h t)
  sorted = (Ordered-SortedWithin h none none t is.ordered).0

  arrives :
      (key : Key)
      → (n : ℕ) × (find_leaf fuel b.pager b.root_page key ≡ some n) × Arrives h b.pager t key n
  arrives key = rw (← is.at_root) (
      find_leaf-Arrives h fuel b.pager none none t key deep is.owned is.stored is.ordered (tt, tt)
        is.no_header)

  Chain-at : {key : Key} {n : ℕ} (a : Arrives h b.pager t key n) → Chain b.pager n a.rest
  Chain-at a = rw (← append-nil a.rest) (a.chain 0 [] is.linked (end refl))

  -- On a search tree, with fuel for more than its height and for its leaves, the scan for a key
  -- reports exactly the entries of that key, in order and each once, and counts them.
  pub btree_scan_eq-located :
      (key : Cell)
      → let bound : Bound = some (encode_key key, true) in
        let found = located bound bound (items h t) in
        btree_scan_eq fuel b key ≡ scanned (length found) found
  unfolding btree_scan_eq scan_from
  btree_scan_eq-located key =
      let k = encode_key key in
      let (n, found, a) = arrives k in
      let not_end : (n == 0) ≡ false = grind (arith, a.not_zero) in
      rw (found, not_end, ← Arrives-reports a true (some (k, true)))
        (scan_chain-reports_eq b.pager k a.rest fuel (Chain-at a)
          (Arrives-IsSorted a true (some (k, true)) sorted) (omega (arith, a.few)))

  -- On a search tree, with fuel for more than its height and for its leaves, the scan between two
  -- bounds, either of which may be missing, reports exactly the entries within them, in order and
  -- each once, and counts them.
  pub btree_scan_range-located :
      (lo hi : Option (Cell × Bool))
      → let found = located (encoded lo) (encoded hi) (items h t) in
        btree_scan_range fuel b lo hi ≡ scanned (length found) found
  unfolding btree_scan_range start_leaf scan_from
  btree_scan_range-located none hi =
      let first = leftmost_leaf-first h fuel b.pager t deep is.owned is.stored is.no_header in
      let chain : Chain b.pager (first_leaf h t) (leaves h t) =
        rw (← append-nil (leaves h t))
          (leaves-Chain h b.pager t 0 [] is.stored is.linked is.no_header (end refl)) in
      rw (← bound_of-encoded hi, ← is.at_root, first.0, first.1, ← concat-leaves h t)
        (scan_chain-reports none (bound_of hi) b.pager (leaves h t) fuel [] chain
          (rw (concat-leaves h t) sorted) long)
  btree_scan_range-located (some (lo, inclusive)) hi =
      let k = encode_key lo in
      let (n, found, a) = arrives k in
      let not_end : (n == 0) ≡ false = grind (arith, a.not_zero) in
      rw (← bound_of-encoded hi, found, not_end, ← Arrives-reports a inclusive (bound_of hi))
        (scan_chain-reports (some (k, inclusive)) (bound_of hi) b.pager a.rest fuel [] (Chain-at a)
          (Arrives-IsSorted a inclusive (bound_of hi) sorted) (omega (arith, a.few)))
