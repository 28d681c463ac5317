-- ===== src/BTree/Tree/Outcome.antt =====
-- What `insert_rec` leaves behind, for a whole tree.
use my_pl.Prelude.{ℕ, ◌+◌, ◌≤◌, ◌<◌, ◌≡◌, [], ◌∷◌, ◌++◌, Option, some}
use my_pl.Pager.{Pager, bitmap_bits}
use my_pl.Pager.Alloc.{InUse}
use my_pl.BTree.Node.{Key, Entry}
use my_pl.BTree.Node.RoundTrip.{IsKey}
use my_pl.BTree.Insert.{Inserted, failed, stored, no_fuel, split}
use my_pl.BTree.Tree.{TreeOf, page_of, items, count, Stored, Within, Ordered}
use my_pl.BTree.Tree.Footprint.{Grown}
use my_pl.BTree.Tree.Descent.{Places}
use my_pl.BTree.Tree.Links.{Relinked}

-- Every page but the header's is in use.
abbrev pub Full : Pager → Type 0
Full p = (j : ℕ) → 1 ≤ j → j < bitmap_bits → InUse p j

module _ (h : ℕ) (p p' : Pager) (lo hi : Option Key) (e : Entry) (t : TreeOf h) where
  -- The tree has taken the entry in.
  pub record OneTree (t' : TreeOf h) : Type 0 where
    pub same_page : page_of h t' ≡ page_of h t
    pub grown : Grown p p' (count h t) (count h t')
    pub is_stored : Stored h p' t'
    pub ordered : Ordered h lo hi t'
    pub places : Places e (items h t) (items h t')
    pub relinked : Relinked h t (t' ∷ [])

  -- The tree has become two with a separator between them.
  pub record TwoTrees (key : Key) (page : ℕ) (left right : TreeOf h) : Type 0 where
    pub same_page : page_of h left ≡ page_of h t
    pub new_page : page_of h right ≡ page
    pub grown : Grown p p' (count h t) (λ m. count h left m + count h right m)
    pub left_stored : Stored h p' left
    pub right_stored : Stored h p' right
    pub is_key : IsKey key
    pub within : Within lo hi key
    pub left_ordered : Ordered h lo (some key) left
    pub right_ordered : Ordered h (some key) hi right
    pub places : Places e (items h t) (items h left ++ items h right)
    pub relinked : Relinked h t (left ∷ right ∷ [])

abbrev pub TreeOutcome :
    (h : ℕ) → Pager → Option Key → Option Key → Entry → TreeOf h → Inserted × Pager → Type 0
TreeOutcome h p lo hi e t (no_fuel, p') = ⊥
TreeOutcome h p lo hi e t (failed, p') = Full p'
TreeOutcome h p lo hi e t (stored, p') = (t' : TreeOf h) × OneTree h p p' lo hi e t t'
TreeOutcome h p lo hi e t (split key page, p') =
    (left : TreeOf h) × (right : TreeOf h) × TwoTrees h p p' lo hi e t key page left right
