-- ===== src/BTree/Tree/Leaves.antt =====
-- An insertion that has reached a leaf, as an insertion into a tree of height 0.
use my_pl.Prelude.{
  ℕ, zero, ◌≤◌, ◌<◌, ◌≡◌, refl, inl, inr, Bool-cases, true, List, [], ◌∷◌, ◌++◌, Option, some,
  length, All, All-append_parts, ap, arith,
}
use my_pl.Prelude.Bytes.{leb_bytes, leb_bytes_trans, leb_bytes_total, leb_bytes_refl}
use my_pl.Pager.{Pager, bitmap_bits}
use my_pl.Pager.Alloc.{InUse}
use my_pl.BTree.Node.{Key, Entry, leaf}
use my_pl.BTree.Node.RoundTrip.{IsEntry, IsWord}
use my_pl.BTree.Insert.{
  Inserted, failed, stored, no_fuel, split, leaf_insert, insert_leaf, upper_pos,
}
use my_pl.BTree.Insert.Leaf.{IsSorted, All-leaf_insert, leaf_insert-IsSorted, leaf_insert-cons}
use my_pl.BTree.Insert.Split.{IsReady, Splits, LeafOutcome, LeafHalves, insert_leaf-LeafOutcome}
use my_pl.BTree.Tree.{LeafPage, count, Stored, Owned, Within, Ordered}
use my_pl.BTree.Tree.Bounds.{All-map_of, EntryWithin, SortedWithin}
use my_pl.BTree.Tree.Footprint.{Grown-rewrite, Grown-split}
use my_pl.BTree.Tree.Descent.{Places}
use my_pl.BTree.Tree.Outcome.{OneTree, TwoTrees, TreeOutcome}

-- The new entry stands between those that are not greater and those that are not less.
leaf_insert-Places : (e : Entry) (es : List Entry) → IsSorted es → Places e es (leaf_insert e es)
leaf_insert-Places e [] s = record {
  before = [];
  after = [];
  old_is = refl;
  new_is = unfold leaf_insert upper_pos in refl;
  not_greater = tt;
  not_less = tt;
}
leaf_insert-Places e (d ∷ es) (first, rest) = elim (Bool-cases (leb_bytes d.key e.key)) [
  | inl le ↦
      let p = leaf_insert-Places e es rest in
      record {
        before = d ∷ p.before;
        after = p.after;
        old_is = ap (◌∷◌ d) p.old_is;
        new_is = rw (leaf_insert-cons, le, p.new_is);
        not_greater = (le, p.not_greater);
        not_less = p.not_less;
      }
  | inr gt ↦
      let le = leb_bytes_total d.key e.key gt in
      record {
        before = [];
        after = d ∷ es;
        old_is = refl;
        new_is = rw (leaf_insert-cons, gt);
        not_greater = tt;
        not_less = (le, All-map_of es (λ c h. leb_bytes_trans e.key d.key c.key le h) first);
      }
]

-- Two halves of sorted entries, around the first key of the right one.
module _ (lo hi : Option Key) (d : Entry) (right : List Entry) where
  halves-SortedWithin :
      (left : List Entry)
      → SortedWithin lo hi (left ++ (d ∷ right))
      → SortedWithin lo (some d.key) left
        × Within lo hi d.key
        × SortedWithin (some d.key) hi (d ∷ right)
  halves-SortedWithin [] (s, w) =
      ((tt, tt), w.0, (s, ((leb_bytes_refl d.key, w.0.1), both right s.0 w.1)))
    where
      both :
          (es : List Entry)
          → All (λ (c : Entry). leb_bytes d.key c.key ≡ true) es
          → All (EntryWithin lo hi) es
          → All (EntryWithin (some d.key) hi) es
      both [] a b = tt
      both (c ∷ es) a b = ((a.0, b.0.1), both es a.1 b.1)
  halves-SortedWithin (c ∷ left) (s, w) =
      let (l, k, r) = halves-SortedWithin left (s.1, w.1) in
      let (among, rest) = All-append_parts _ left (d ∷ right) s.0 in
      (((among, l.0), ((w.0.0, rest.0), l.1)), k, r)

first_key-cons : (es : List Entry) → 1 ≤ length es → (d : Entry) × (ds : List Entry) × (es ≡ d ∷ ds)
first_key-cons [] h = absurd (omega arith)
first_key-cons (d ∷ ds) h = (d, ds, refl)

module _ (p : Pager) (lo hi : Option Key) (e : Entry) (t : LeafPage)
    (owned : Owned p (count zero t)) (o : SortedWithin lo hi (leaf_insert e t.entries))
    (places : Places e t.entries (leaf_insert e t.entries))
    (wf : All IsEntry (leaf_insert e t.entries)) (link : IsWord t.next) where
  page_used : InUse p t.page × (t.page < bitmap_bits)
  page_used = owned.used t.page (ground arith)

  stored-OneTree :
      (p' : Pager)
      → LeafOutcome p t.page t.entries t.next e (stored, p')
      → OneTree zero p p' lo hi e t (record t { entries = leaf_insert e t.entries })
  stored-OneTree p' (ready, loads, others, kept, few) = record {
    same_page = refl;
    grown = Grown-rewrite t.page owned (ground arith) ready others kept;
    is_stored = (loads, few, wf, link);
    ordered = o;
    places = places;
    relinked = record { first = λ out. refl; linked = λ out l. (l, tt) };
  }

  split-TwoTrees :
      (p' : Pager) (key : Key) (page : ℕ) (d : Entry) (left right : List Entry)
      → LeafHalves (leaf_insert e t.entries) key left (d ∷ right)
      → Splits p p' t.page page (leaf left page) (leaf (d ∷ right) t.next)
      → TwoTrees zero p p' lo hi e t key page
          (record { page = t.page; entries = left; next = page })
          (record { page = page; entries = d ∷ right; next = t.next })
  split-TwoTrees p' key page d left right halves s =
      let (wl, wr) = All-append_parts IsEntry left (d ∷ right) (rw (halves.whole) wf) in
      let (ol, ok, or) = halves-SortedWithin lo hi d right left (rw (halves.whole) o) in
      record {
        same_page = refl;
        new_page = refl;
        grown = Grown-split t.page page owned (ground arith) s;
        left_stored = (s.left_loads, halves.left_most, wl, omega (arith, s.in_range));
        right_stored = (s.right_loads, halves.right_most, wr, link);
        is_key = rw (halves.separator) wr.0.0;
        within = rw (halves.separator) ok;
        left_ordered = coe 1 0 (i. SortedWithin lo (some (halves.separator i)) left) ol;
        right_ordered = coe 1 0 (i. SortedWithin (some (halves.separator i)) hi (d ∷ right)) or;
        places = rw (halves.whole) places;
        relinked = record { first = λ out. refl; linked = λ out l. (refl, (l, tt)) };
      }

  leaf_outcome :
      (answer : Inserted × Pager)
      → LeafOutcome p t.page t.entries t.next e answer
      → TreeOutcome zero p lo hi e t answer
  leaf_outcome (no_fuel, p') never = never
  leaf_outcome (failed, p') (same, _, full) = rw (same) full
  leaf_outcome (stored, p') out =
      (record t { entries = leaf_insert e t.entries }, stored-OneTree p' out)
  leaf_outcome (split key page, p') (left, [], halves, s) =
      absurd (omega (arith, halves.right_least))
  leaf_outcome (split key page, p') (left, d ∷ right, halves, s) =
      (_, _, split-TwoTrees p' key page d left right halves s)

-- Inserting into a leaf page is inserting into the tree that it is.
pub insert_leaf-TreeOutcome :
    (p : Pager) (lo hi : Option Key) (e : Entry) (t : LeafPage)
    → IsReady p
    → Owned p (count zero t)
    → Stored zero p t
    → Ordered zero lo hi t
    → IsEntry e
    → Within lo hi e.key
    → TreeOutcome zero p lo hi e t (insert_leaf p t.page t.entries t.next e)
insert_leaf-TreeOutcome p lo hi e t r owned (loads, few, wf, link) (s, b) we w =
    let (used, below) = owned.used t.page (ground arith) in
    leaf_outcome p lo hi e t owned
      (leaf_insert-IsSorted e t.entries s, All-leaf_insert _ e t.entries w b)
      (leaf_insert-Places e t.entries s) (All-leaf_insert IsEntry e t.entries we wf) link
      (insert_leaf p t.page t.entries t.next e)
      (insert_leaf-LeafOutcome p t.page t.entries t.next e r used below (few, wf, link) we)
