-- ===== src/BTree/Tree/Branches.antt =====
-- An internal node whose child has been split, as an insertion into a tree.
use my_pl.Prelude.{
  ℕ, suc, ◌+◌, ◌<◌, ◌^◌, ◌≡◌, ◌≢◌, refl, sym, ap, ◌∙◌, List, [], ◌∷◌, ◌++◌, Option, length, map,
  All, All-append_parts, append_assoc, ◌==◌, arith,
}
use my_pl.Pager.{Pager}
use my_pl.Pager.Alloc.{InUse}
use my_pl.BTree.Node.{Key, Entry, internal, node_load}
use my_pl.BTree.Node.RoundTrip.{IsKey}
use my_pl.BTree.Insert.{Inserted, failed, stored, no_fuel, split}
use my_pl.BTree.Insert.Split.{Splits}
use my_pl.BTree.Insert.Internal.{InternalOutcome, InternalHalves}
use my_pl.BTree.Tree.{
  Branch, TreeOf, page_of, items, items_all, total, one_if, count, Stored, Ordered, OrderedAll,
  first_of, first_leaf, Linked, LinkedAll,
}
use my_pl.BTree.Tree.Bounds.{OrderedAll-cut}
use my_pl.BTree.Tree.Footprint.{
  total-append, Same, All-Same, Stored-Same, Grown, Grown-trans, Grown-counts, Grown-rewrite,
  Grown-split,
}
use my_pl.BTree.Tree.Descent.{Places}
use my_pl.BTree.Tree.Links.{first_of-append, first_of-some, LinkedAll-parts}
use my_pl.BTree.Tree.Outcome.{OneTree, TwoTrees, TreeOutcome}

pub items_all-append :
    {A : Type 0} (entries : A → List Entry) (ts us : List A)
    → items_all entries (ts ++ us) ≡ items_all entries ts ++ items_all entries us
items_all-append entries [] us = refl
items_all-append entries (t ∷ ts) us =
    rw (items_all-append entries ts us) (sym (append_assoc (entries t) _ _))

pub length-map : {A : Type 0} (f : A → ℕ) (ts : List A) → length (map f ts) ≡ length ts
length-map f [] = refl
length-map f (t ∷ ts) = ap suc (length-map f ts)

-- Two lists that together are the image of a list are the images of its parts.
map-parts :
    {A : Type 0} (f : A → ℕ) (left right : List ℕ) (ts : List A)
    → left ++ right ≡ map f ts
    → (ts1 : List A) × (ts2 : List A) × (ts ≡ ts1 ++ ts2) × (left ≡ map f ts1) × (right ≡ map f ts2)
map-parts f [] right ts h = ([], ts, refl, refl, h)
map-parts f (n ∷ left) right [] h = absurd (grind arith)
map-parts f (n ∷ left) right (t ∷ ts) h =
    let (ts1, ts2, whole, l, r) = map-parts f left right ts (cc) in
    (t ∷ ts1, ts2, ap (◌∷◌ t) whole, cc (h, l), r)

module _ (h : ℕ) (p p' : Pager) (lo hi : Option Key) (e : Entry) (t : Branch (TreeOf h))
    (ts : List (TreeOf h)) (ks : List Key)
    (grown : Grown p p' (count (suc h) t) (λ m. one_if (t.page == m) + total (λ u. count h u m) ts))
    (below : All (Stored h p') ts) (keys : All IsKey ks) (len : length ts ≡ suc (length ks))
    (o : OrderedAll (Ordered h) lo hi ks ts)
    (places : Places e (items (suc h) t) (items_all (items h) ts))
    (first : first_of (first_leaf h) ts 0 ≡ first_leaf (suc h) t)
    (linked : (out : ℕ) → Linked (suc h) out t → LinkedAll (first_leaf h) (Linked h) out ts) where
  -- The children's pages are not the node's.
  Same-children :
      (q : Pager)
      → ((m : ℕ) → m < 2 ^ 31 → m ≢ t.page → InUse p' m → node_load q m ≡ node_load p' m)
      → Same p' q (λ m. total (λ u. count h u m) ts)
  Same-children q others m one =
      let (u, l) = grown.owned.used m (omega (arith, one)) in
      others m (omega arith) (λ same. ground (arith, grown.owned.once m)) u

  stored-OneTree :
      (q : Pager)
      → InternalOutcome p' t.page (map (page_of h) ts) ks (stored, q)
      → OneTree (suc h) p q lo hi e t (record { page = t.page; children = ts; separators = ks })
  stored-OneTree q (ready, loads, others, kept, few) = record {
    same_page = refl;
    grown = Grown-trans grown (Grown-rewrite t.page grown.owned (ground arith) ready others kept);
    is_stored = (
      loads,
      few,
      len,
      keys,
      All-Same (count h) (Stored h) p' q (Stored-Same h p' q) ts
          (Same-children q (λ m l ne u. others m l ne)) below,
    );
    ordered = o;
    places = places;
    relinked = record { first = λ out. first; linked = λ out l. (linked out l, tt) };
  }

  split-TwoTrees :
      (q : Pager) (key : Key) (page : ℕ) (left right : List ℕ) (left_keys right_keys : List Key)
      → InternalHalves (map (page_of h) ts) ks key left right left_keys right_keys
      → Splits p' q t.page page (internal left left_keys) (internal right right_keys)
      → (ts1 ts2 : List (TreeOf h)) → ts ≡ ts1 ++ ts2
      → left ≡ map (page_of h) ts1
      → right ≡ map (page_of h) ts2
      → TwoTrees
          (suc h)
          p
          q
          lo
          hi
          e
          t
          key
          page
          (record { page = t.page; children = ts1; separators = left_keys })
          (record { page = page; children = ts2; separators = right_keys })
  split-TwoTrees q key page left right left_keys right_keys halves s ts1 ts2 whole l r =
      let still =
        All-Same (count h) (Stored h) p' q (Stored-Same h p' q) ts
          (Same-children q (λ m b ne u. s.others m b ne (λ same. s.was_free (rw (← same) u))))
          below in
      let (sl, sr) = All-append_parts (Stored h q) ts1 ts2 (rw (← whole) still) in
      let (kl, kr) = All-append_parts IsKey left_keys (key ∷ right_keys) (rw (halves.keys) keys) in
      let ll : length ts1 ≡ suc (length left_keys) =
        omega (arith, halves.left_count, ap length l, length-map (page_of h) ts1) in
      let lr : length ts2 ≡ suc (length right_keys) =
        omega (arith, halves.right_count, ap length r, length-map (page_of h) ts2) in
      let (w, ol, or) =
        OrderedAll-cut (Ordered h) lo hi left_keys key right_keys ts1 ts2 ll
          (rw (halves.keys, ← whole) o) in
      record {
        same_page = refl;
        new_page = refl;
        grown = Grown-trans grown (
            Grown-counts (λ m. refl)
              (λ m. omega (
                arith,
                ap (total (λ u. count h u m)) whole,
                total-append (λ u. count h u m) ts1 ts2,
              ))
              (Grown-split t.page page grown.owned (ground arith) s));
        left_stored = (s.left_loads ∙ rw (l), halves.left_most, ll, kl, sl);
        right_stored = (s.right_loads ∙ rw (r), halves.right_most, lr, kr.1, sr);
        is_key = kr.0;
        within = w;
        left_ordered = ol;
        right_ordered = or;
        places = rw (← items_all-append (items h) ts1 ts2, ← whole) places;
        relinked = record {
          first = λ out.
              first_of-some (first_leaf h) (Linked h) ts1 0 (first_of (first_leaf h) ts2 0)
                (omega (arith, ll))
              ∙ sym (first_of-append (first_leaf h) (Linked h) ts1 ts2 0)
              ∙ ap (λ us. first_of (first_leaf h) us 0) (sym whole)
              ∙ first;
          linked = λ out chain.
              let (before, after) =
                LinkedAll-parts (first_leaf h) (Linked h) ts1 ts2 out
                  (rw (← whole) (linked out chain)) in
              (
                rw (first_of-some (first_leaf h) (Linked h) ts2 0 out (omega (arith, lr))) before,
                (after, tt),
              );
        };
      }

  -- The answer of the node is that of the tree.
  pub branch_outcome :
      (answer : Inserted × Pager)
      → InternalOutcome p' t.page (map (page_of h) ts) ks answer
      → TreeOutcome (suc h) p lo hi e t answer
  branch_outcome (no_fuel, q) never = never
  branch_outcome (failed, q) (same, _, full) = rw (same) full
  branch_outcome (stored, q) out = (_, stored-OneTree q out)
  branch_outcome (split key page, q) (left, right, left_keys, right_keys, halves, s) =
      let (ts1, ts2, whole, l, r) = map-parts (page_of h) left right ts halves.children in
      (_, _, split-TwoTrees q key page left right left_keys right_keys halves s ts1 ts2 whole l r)
