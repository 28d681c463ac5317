-- ===== src/BTree/Tree/Update.antt =====
-- `btree_scan_eq` before and after `btree_insert`.
use my_pl.Prelude.{
  ℕ, suc, ◌+◌, ◌≤◌, ◌<◌, ◌^◌, ◌≡◌, ◌≢◌, refl, sym, ap, ◌∙◌, ◌⊎◌, inl, inr, true, List, ◌∷◌, ◌++◌,
  some, map, length, arith, Ordering,
}
use mathlib.Core.List.{map-append}
use my_pl.Prelude.Bytes.{memcmp, memcmp-eq, memcmp-swap, ltb_bytes, leb_bytes_refl, ltb_bytes-swap}
use my_pl.BTree.Key.{Cell, encode_key}
use my_pl.BTree.Node.{Key, Entry}
use my_pl.BTree.Insert.{BTree, btree_insert}
use my_pl.BTree.Scan.{Bound, Locator, locator, scanned, btree_scan_eq}
use my_pl.BTree.Scan.Chain.{selected, selected-append}
use my_pl.BTree.Tree.{TreeOf, IsTree}
use my_pl.BTree.Tree.Descent.{Places}
use my_pl.BTree.Tree.Root.{InsertOutcome, btree_insert-InsertOutcome}
use my_pl.BTree.Tree.Search.{leaves}
use my_pl.BTree.Tree.Lookup.{located, btree_scan_eq-located}

abbrev exactly : Key → Bound
exactly key = some (key, true)

selected-same :
    (e : Entry) (es : List Entry)
    → selected (exactly e.key) (exactly e.key) (e ∷ es)
      ≡ e ∷ selected (exactly e.key) (exactly e.key) es
selected-same e es = ground (arith, leb_bytes_refl e.key, ltb_bytes-swap e.key e.key)

memcmp-cases : (a b : Key) → (a ≡ b) ⊎ ((ltb_bytes a b ≡ true) ⊎ (ltb_bytes b a ≡ true))
memcmp-cases a b = by_sign (memcmp a b) refl
  where
    by_sign :
        (o : Ordering)
        → memcmp a b ≡ o
        → (a ≡ b) ⊎ ((ltb_bytes a b ≡ true) ⊎ (ltb_bytes b a ≡ true))
    by_sign Ordering.lt h = inr (inl (rw (ltb_bytes, h)))
    by_sign Ordering.eq h = inl (memcmp-eq a b h)
    by_sign Ordering.gt h = inr (inr (rw (ltb_bytes, memcmp-swap a b, h)))

selected-other :
    (key : Key) (e : Entry) (es : List Entry)
    → e.key ≢ key
    → selected (exactly key) (exactly key) (e ∷ es) ≡ selected (exactly key) (exactly key) es
selected-other key e es ne = elim (memcmp-cases e.key key) [
  | inl same ↦ absurd (ne same)
  | inr (inl less) ↦ ground (arith, less, ltb_bytes-swap key e.key)
  | inr (inr greater) ↦ ground (arith, greater, ltb_bytes-swap e.key key)
]

-- What the scan for one key reports before and after an entry is placed.
module _ {e : Entry} {old new : List Entry} (pl : Places e old new) where
  abbrev found : Key → List Entry → List Locator
  found key es = located (exactly key) (exactly key) es

  found-old : (key : Key) → found key old ≡ found key pl.before ++ found key pl.after
  found-old key =
      ap (found key) pl.old_is
      ∙ ap (map locator) (selected-append (exactly key) (exactly key) pl.before pl.after)
      ∙ map-append locator (selected (exactly key) (exactly key) pl.before)
          (selected (exactly key) (exactly key) pl.after)

  found-new : (key : Key) → found key new ≡ found key pl.before ++ found key (e ∷ pl.after)
  found-new key =
      ap (found key) pl.new_is
      ∙ ap (map locator) (selected-append (exactly key) (exactly key) pl.before (e ∷ pl.after))
      ∙ map-append locator (selected (exactly key) (exactly key) pl.before)
          (selected (exactly key) (exactly key) (e ∷ pl.after))

  found-placed : found e.key new ≡ found e.key pl.before ++ (locator e ∷ found e.key pl.after)
  found-placed =
      found-new e.key
      ∙ ap (λ es. found e.key pl.before ++ map locator es) (selected-same e pl.after)

  found-unchanged : (key : Key) → e.key ≢ key → found key new ≡ found key old
  found-unchanged key ne =
      found-new key
      ∙ ap (λ es. found key pl.before ++ map locator es) (selected-other key e pl.after ne)
      ∙ sym (found-old key)

-- An insertion into a search tree that succeeds makes the scan for its key report the new locator
-- among those that it reported before, whose order stays, and leaves the scan for every key with
-- another encoding as it was; for every amount of fuel from some point on.
pub btree_scan_eq-btree_insert :
    (h fuel : ℕ) (b b' : BTree) (t : TreeOf h) (key : Cell) (row_page row_offset : ℕ)
    → IsTree h b.pager b.root_page t
    → h < fuel
    → row_page < 2 ^ 32
    → row_offset < 2 ^ 32
    → btree_insert fuel b key row_page row_offset ≡ (some true, b')
    → (enough : ℕ) × (before : List Locator) × (after : List Locator) × ((f : ℕ)
        → enough ≤ f
        → (btree_scan_eq f b key ≡ scanned (length (before ++ after)) (before ++ after))
          × (btree_scan_eq f b' key
              ≡ scanned
                  (length (before ++ ((row_page, row_offset) ∷ after)))
                  (before ++ ((row_page, row_offset) ∷ after)))
          × ((other : Cell)
              → encode_key key ≢ encode_key other
              → btree_scan_eq f b' other ≡ btree_scan_eq f b other))
btree_scan_eq-btree_insert h fuel b b' t key row_page row_offset is deep hp ho ok =
    let e : Entry = record { key = encode_key key; row_page = row_page; row_offset = row_offset } in
    let (h', t', out) =
      coe 0 1 (i. InsertOutcome h b.pager e t (ok i))
        (btree_insert-InsertOutcome h fuel b t key row_page row_offset is deep hp ho) in
    let pl = out.places in
    let whole = λ (es fs : List Locator) (same : es ≡ fs).
      ap (λ (ls : List Locator). scanned (length ls) ls) same in
    (
      suc (h + h' + length (leaves h t) + length (leaves h' t')),
      found pl e.key pl.before,
      found pl e.key pl.after,
      λ f enough. (
        btree_scan_eq-located f b t is (omega (arith, enough)) (omega (arith, enough)) key
            ∙ whole _ _ (found-old pl e.key),
        btree_scan_eq-located f b' t' out.is_tree (omega (arith, enough)) (omega (arith, enough))
              key
            ∙ whole _ _ (found-placed pl),
        λ other ne.
            btree_scan_eq-located f b' t' out.is_tree (omega (arith, enough))
              (omega (arith, enough)) other
            ∙ whole _ _ (found-unchanged pl (encode_key other) ne)
            ∙ sym (
                btree_scan_eq-located f b t is (omega (arith, enough)) (omega (arith, enough))
                  other),
      ),
    )
