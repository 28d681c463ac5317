-- ===== src/BTree/Tree.antt =====
-- src/btree.c: a whole B+ tree, as the nodes that its pages hold, all leaves at one depth. Height 0
-- is a leaf. A tree is what the recursive functions of the file walk through `node_load`.
pub mod Bounds
pub mod Footprint
pub mod Descent
pub mod Links
pub mod Outcome
pub mod Leaves
pub mod Branches
pub mod Child
pub mod Insertion
pub mod Root
pub mod Search
pub mod Create
pub mod Lookup
pub mod Update
mod Tests
use my_pl.Prelude.{
  ℕ, zero, suc, ◌+◌, ◌≤◌, ◌<◌, ◌≡◌, Bool, true, List, [], ◌∷◌, ◌++◌, map, Option, none, some, ◌==◌,
  if◌then◌else◌, length, All,
}
use my_pl.Prelude.Bytes.{leb_bytes}
use my_pl.Pager.{Pager, bitmap_bits}
use my_pl.Pager.Alloc.{InUse}
use my_pl.BTree.Node.{Key, Entry, leaf, internal, leaf_max, internal_max, node_load}
use my_pl.BTree.Node.RoundTrip.{IsKey, IsWord, IsEntry}
use my_pl.BTree.Insert.Leaf.{IsSorted}
use my_pl.BTree.Insert.Split.{IsReady}

pub record LeafPage : Type 0 where
  pub page : ℕ
  pub entries : List Entry
  pub next : ℕ

pub record Branch (Child : Type 0) : Type 0 where
  pub page : ℕ
  pub children : List Child
  pub separators : List Key

abbrev pub TreeOf : ℕ → Type 0
TreeOf zero = LeafPage
TreeOf (suc h) = Branch (TreeOf h)

abbrev pub page_of : (h : ℕ) → TreeOf h → ℕ
page_of zero t = t.page
page_of (suc h) t = t.page

abbrev pub items_all {ℓ} : {A : Type ℓ} → (A → List Entry) → List A → List Entry
items_all items [] = []
items_all items (t ∷ ts) = items t ++ items_all items ts

-- The entries of the leaves from left to right.
abbrev pub items : (h : ℕ) → TreeOf h → List Entry
items zero t = t.entries
items (suc h) t = items_all (items h) t.children

abbrev pub total {ℓ} : {A : Type ℓ} → (A → ℕ) → List A → ℕ
total weight [] = 0
total weight (t ∷ ts) = weight t + total weight ts

abbrev pub one_if : Bool → ℕ
one_if b = if b then 1 else 0

-- How often page `m` is one of the tree's.
abbrev pub count : (h : ℕ) → TreeOf h → ℕ → ℕ
count zero t m = one_if (t.page == m)
count (suc h) t m = one_if (t.page == m) + total (λ u. count h u m) t.children

-- The pages hold the nodes of the tree.
abbrev pub Stored : (h : ℕ) → Pager → TreeOf h → Type 0
Stored zero p t =
    (node_load p t.page ≡ some (leaf t.entries t.next))
    × (length t.entries ≤ leaf_max)
    × All IsEntry t.entries
    × IsWord t.next
Stored (suc h) p t =
    (node_load p t.page ≡ some (internal (map (page_of h) t.children) t.separators))
    × (length t.separators ≤ internal_max)
    × (length t.children ≡ suc (length t.separators))
    × All IsKey t.separators
    × All (Stored h p) t.children

-- Keys between two bounds, either of which may be missing.
abbrev pub AtLeast : Option Key → Key → Type 0
AtLeast none k = Unit
AtLeast (some lo) k = leb_bytes lo k ≡ true

abbrev pub AtMost : Option Key → Key → Type 0
AtMost none k = Unit
AtMost (some hi) k = leb_bytes k hi ≡ true

abbrev pub Within : Option Key → Option Key → Key → Type 0
Within lo hi k = AtLeast lo k × AtMost hi k

-- The children of a node lie between the separators around them.
abbrev pub OrderedAll {ℓ} :
    {A : Type ℓ}
    → (Option Key → Option Key → A → Type 0)
    → Option Key
    → Option Key
    → List Key
    → List A
    → Type 0
OrderedAll Ordered lo hi [] [] = ⊥
OrderedAll Ordered lo hi [] (t ∷ []) = Ordered lo hi t
OrderedAll Ordered lo hi [] (t ∷ u ∷ ts) = ⊥
OrderedAll Ordered lo hi (k ∷ ks) [] = ⊥
OrderedAll Ordered lo hi (k ∷ ks) (t ∷ ts) =
    Within lo hi k × Ordered lo (some k) t × OrderedAll Ordered (some k) hi ks ts

abbrev pub Ordered : (h : ℕ) → Option Key → Option Key → TreeOf h → Type 0
Ordered zero lo hi t = IsSorted t.entries × All (λ (e : Entry). Within lo hi e.key) t.entries
Ordered (suc h) lo hi t = OrderedAll (Ordered h) lo hi t.separators t.children

abbrev pub first_of {ℓ} : {A : Type ℓ} → (A → ℕ) → List A → ℕ → ℕ
first_of first [] out = out
first_of first (t ∷ ts) out = first t

-- The page of the leftmost leaf.
abbrev pub first_leaf : (h : ℕ) → TreeOf h → ℕ
first_leaf zero t = t.page
first_leaf (suc h) t = first_of (first_leaf h) t.children 0

abbrev pub LinkedAll {ℓ} : {A : Type ℓ} → (A → ℕ) → (ℕ → A → Type 0) → ℕ → List A → Type 0
LinkedAll first Linked out [] = Unit
LinkedAll first Linked out (t ∷ ts) =
    Linked (first_of first ts out) t × LinkedAll first Linked out ts

-- The leaves are linked from left to right, and the last one to `out`.
abbrev pub Linked : (h : ℕ) → ℕ → TreeOf h → Type 0
Linked zero out t = t.next ≡ out
Linked (suc h) out t = LinkedAll (first_leaf h) (Linked h) out t.children

-- No page occurs twice, and every page is in use.
pub record Owned (p : Pager) (times : ℕ → ℕ) : Type 0 where
  pub once : (m : ℕ) → times m ≤ 1
  pub used : (m : ℕ) → 1 ≤ times m → InUse p m × (m < bitmap_bits)

-- A search tree on the pages of a pager that may be written, none of them the header's; its leaves
-- are chained from left to right.
pub record IsTree (h : ℕ) (p : Pager) (root : ℕ) (t : TreeOf h) : Type 0 where
  pub at_root : page_of h t ≡ root
  pub ready : IsReady p
  pub owned : Owned p (count h t)
  pub stored : Stored h p t
  pub ordered : Ordered h none none t
  pub linked : Linked h 0 t
  pub no_header : count h t 0 ≡ 0
