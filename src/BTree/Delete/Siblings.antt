-- ===== src/BTree/Delete/Siblings.antt =====
-- Redistribution between siblings and merging: no item is lost, added or reordered.
use my_pl.Prelude.{
  ℕ, zero, suc, ◌+◌, ◌-◌, ◌*◌, ◌≤◌, ◌<◌, ◌≡◌, refl, ap, sym, ◌∙◌, List, [], ◌∷◌, ◌++◌, append_assoc,
  length, take, get_or, set, length-append, length-take, arith,
}
use my_pl.BTree.Node.{
  Key, BtNode, leaf, internal, leaf_max, leaf_min, internal_max, internal_min, nkeys,
}
use my_pl.BTree.Insert.{first_key}
use my_pl.BTree.Delete.{
  blank_entry, drop_last_item, leaf_remove_first, remove_first_child, rotate_right, rotate_left,
  merge_nodes,
}

-- An internal node has one child more than separators.
abbrev IsShaped : BtNode → Type 0
IsShaped (leaf es next) = Unit
IsShaped (internal cs ks) = length cs ≡ suc (length ks)

-- Two neighbours before and after, with the separator between them. Leaves keep their entries in
-- order and their links, and the separator is the first key of the right one; internal nodes keep
-- their children, and their separators around the one between them.
abbrev pub SameItems : Key → BtNode → BtNode → Key → BtNode → BtNode → Type 0
SameItems sep (leaf a x) (leaf b y) sep' (leaf c z) (leaf d w) =
    (c ++ d ≡ a ++ b) × (z ≡ x) × (w ≡ y) × (sep' ≡ first_key d)
SameItems sep (internal a j) (internal b k) sep' (internal c l) (internal d m) =
    (c ++ d ≡ a ++ b)
    × (l ++ (sep' ∷ m) ≡ j ++ (sep ∷ k))
    × (length c ≡ suc (length l))
    × (length d ≡ suc (length m))
SameItems _ _ _ _ _ _ = ⊥

-- Two nodes of one level.
abbrev SameKind : BtNode → BtNode → Type 0
SameKind (leaf _ _) (leaf _ _) = Unit
SameKind (internal _ _) (internal _ _) = Unit
SameKind _ _ = ⊥

init-last {ℓ} :
    {A : Type ℓ} (n : ℕ) (d : A) (xs ys : List A)
    → length xs ≡ suc n
    → take n xs ++ (get_or xs n d ∷ ys) ≡ xs ++ ys
init-last n d [] ys h = absurd (omega arith)
init-last zero d (x ∷ []) ys h = refl
init-last zero d (x ∷ y ∷ xs) ys h = absurd (omega arith)
init-last (suc n) d (x ∷ xs) ys h = ap (◌∷◌ x) (init-last n d xs ys (omega arith))

get_or-set {ℓ} :
    {A : Type ℓ} (xs : List A) (i : ℕ) (v d : A) → i < length xs → get_or (set xs i v) i d ≡ v
get_or-set [] i v d h = absurd (omega arith)
get_or-set (x ∷ xs) zero v d h = refl
get_or-set (x ∷ xs) (suc i) v d h = get_or-set xs i v d (omega arith)

-- The last item of the left sibling moves to the front of the child, for two nodes of one level
-- that are well shaped, a left one that is not empty and a place among the separators: the items
-- of both and the separator between them are the same in the same order, one has an item less and
-- the other one more, and no other separator changes.
pub rotate_right-SameItems :
    (ks : List Key) (idx : ℕ) (left child : BtNode)
    → SameKind left child
    → IsShaped left
    → IsShaped child
    → 1 ≤ nkeys left
    → 1 ≤ idx
    → idx ≤ length ks
    → let m = rotate_right ks idx left child in
      SameItems
        (get_or ks (idx - 1) [])
        left
        child
        (get_or m.separators (idx - 1) [])
        m.left
        m.right
      × (nkeys m.left + 1 ≡ nkeys left)
      × (nkeys m.right ≡ nkeys child + 1)
      × (m.separators ≡ set ks (idx - 1) (get_or m.separators (idx - 1) []))
unfolding rotate_right drop_last_item
rotate_right-SameItems ks idx (leaf a x) (leaf b y) k s t h i j = (
  (
    init-last (length a - 1) blank_entry a b (omega arith),
    refl,
    refl,
    get_or-set ks (idx - 1) _ [] (omega arith),
  ),
  omega (arith, length-take (length a - 1) a),
  omega arith,
  ap (set ks (idx - 1)) (sym (get_or-set ks (idx - 1) _ [] (omega arith))),
)
rotate_right-SameItems ks idx (internal a j) (internal b l) k s t h i o = (
  (
    init-last (length j) 0 a b s,
    ap (λ v. take (length j - 1) j ++ (v ∷ get_or ks (idx - 1) [] ∷ l))
          (get_or-set ks (idx - 1) _ [] (omega arith))
        ∙ init-last (length j - 1) [] j (get_or ks (idx - 1) [] ∷ l) (omega arith),
    omega (arith, length-take (length j) a, length-take (length j - 1) j),
    omega arith,
  ),
  omega (arith, length-take (length j - 1) j),
  omega arith,
  ap (set ks (idx - 1)) (sym (get_or-set ks (idx - 1) _ [] (omega arith))),
)
rotate_right-SameItems ks idx (leaf a x) (internal b l) k s t h i o = absurd k
rotate_right-SameItems ks idx (internal a j) (leaf b y) k s t h i o = absurd k

-- The first item of the right sibling moves to the end of the child, for two nodes of one level
-- that are well shaped, a right one of at least two items and a place among the separators: the
-- items of both and the separator between them are the same in the same order, one has an item
-- more and the other one less, and no other separator changes.
pub rotate_left-SameItems :
    (ks : List Key) (idx : ℕ) (child right : BtNode)
    → SameKind child right
    → IsShaped child
    → IsShaped right
    → 2 ≤ nkeys right
    → idx < length ks
    → let m = rotate_left ks idx child right in
      SameItems (get_or ks idx []) child right (get_or m.separators idx []) m.left m.right
      × (nkeys m.left ≡ nkeys child + 1)
      × (nkeys m.right + 1 ≡ nkeys right)
      × (m.separators ≡ set ks idx (get_or m.separators idx []))
unfolding rotate_left leaf_remove_first remove_first_child
rotate_left-SameItems ks idx (leaf a x) (leaf [] y) k s t h i = absurd (omega arith)
rotate_left-SameItems ks idx (leaf a x) (leaf (e ∷ []) y) k s t h i = absurd (omega arith)
rotate_left-SameItems ks idx (leaf a x) (leaf (e ∷ d ∷ b) y) k s t h i = (
  (append_assoc a (e ∷ []) (d ∷ b), refl, refl, get_or-set ks idx _ [] i),
  omega (arith, length-append a (e ∷ [])),
  omega arith,
  ap (set ks idx) (sym (get_or-set ks idx _ [] i)),
)
rotate_left-SameItems ks idx (internal a j) (internal b []) k s t h i = absurd (omega arith)
rotate_left-SameItems ks idx (internal a j) (internal [] (q ∷ l)) k s t h i = absurd (omega arith)
rotate_left-SameItems ks idx (internal a j) (internal (c ∷ b) (q ∷ l)) k s t h i = (
  (
    append_assoc a (c ∷ []) b,
    ap (λ v. (j ++ (get_or ks idx [] ∷ [])) ++ (v ∷ l)) (get_or-set ks idx q [] i)
        ∙ append_assoc j (get_or ks idx [] ∷ []) (q ∷ l),
    omega (arith, length-append a (c ∷ []), length-append j (get_or ks idx [] ∷ [])),
    omega arith,
  ),
  omega (arith, length-append j (get_or ks idx [] ∷ [])),
  omega arith,
  ap (set ks idx) (sym (get_or-set ks idx q [] i)),
)
rotate_left-SameItems ks idx (leaf a x) (internal b l) k s t h i = absurd k
rotate_left-SameItems ks idx (internal a j) (leaf b y) k s t h i = absurd k

-- Where `rebalance_child` merges: one of the two is under its minimum and the other cannot spare.
abbrev CanMerge : BtNode → BtNode → Type 0
CanMerge (leaf a x) (leaf b y) = length a + length b < 2 * leaf_min
CanMerge (internal a j) (internal b k) = length j + length k < 2 * internal_min
CanMerge _ _ = ⊥

-- The node that a merge leaves: all items in order around the separator, the right leaf's link,
-- and never more than the arrays hold.
abbrev pub IsMerged : Key → BtNode → BtNode → BtNode → Type 0
IsMerged sep (leaf a x) (leaf b y) (leaf c z) = (c ≡ a ++ b) × (z ≡ y) × (length c ≤ leaf_max)
IsMerged sep (internal a j) (internal b k) (internal c l) =
    (c ≡ a ++ b) × (l ≡ j ++ (sep ∷ k)) × (length c ≡ suc (length l)) × (length l ≤ internal_max)
IsMerged _ _ _ _ = ⊥

-- Two neighbours of one level that are well shaped and together below twice the least count merge
-- into a node that holds all their items in order, internal ones around the separator, with the
-- link of the right leaf, and that fits the arrays.
pub merge_nodes-IsMerged :
    (sep : Key) (left right : BtNode)
    → IsShaped left
    → IsShaped right
    → CanMerge left right
    → IsMerged sep left right (merge_nodes sep left right)
unfolding merge_nodes
merge_nodes-IsMerged sep (leaf a x) (leaf b y) s t h =
    (refl, refl, omega (arith, length-append a b))
merge_nodes-IsMerged sep (internal a j) (internal b k) s t h = (
  refl,
  append_assoc j (sep ∷ []) k,
  omega (arith, length-append a b, length-append (j ++ sep ∷ []) k, length-append j (sep ∷ [])),
  omega (arith, length-append (j ++ sep ∷ []) k, length-append j (sep ∷ [])),
)
merge_nodes-IsMerged sep (leaf a x) (internal b k) s t h = absurd h
merge_nodes-IsMerged sep (internal a j) (leaf b y) s t h = absurd h
