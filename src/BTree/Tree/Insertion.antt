-- ===== src/BTree/Tree/Insertion.antt =====
-- `insert_rec` and `btree_insert` on a whole tree.
use my_pl.Prelude.{ℕ, zero, suc, ◌<◌, ◌≡◌, sym, ◌∙◌, List, Option, some, get_or, arith}
use my_pl.Pager.{Pager}
use my_pl.BTree.Node.{Key, Entry, leaf, internal, node_load}
use my_pl.BTree.Node.RoundTrip.{IsEntry}
use my_pl.BTree.Insert.{child_index, after_child, insert_leaf, insert_rec}
use my_pl.BTree.Insert.Split.{IsReady}
use my_pl.BTree.Tree.{TreeOf, page_of, items, count, Stored, Owned, Within, Ordered}
use my_pl.BTree.Tree.Bounds.{Ordered-SortedWithin}
use my_pl.BTree.Tree.Descent.{around}
use my_pl.BTree.Tree.Outcome.{TreeOutcome}
use my_pl.BTree.Tree.Leaves.{insert_leaf-TreeOutcome}
use my_pl.BTree.Tree.Child.{child_outcome, child_stored, child-Owned, child_page}

pub insert_rec-leaf :
    (fuel : ℕ) (p : Pager) (n : ℕ) (e : Entry) {es : List Entry} {next : ℕ}
    → node_load p n ≡ some (leaf es next)
    → insert_rec (suc fuel) p n e ≡ insert_leaf p n es next e
unfolding insert_rec
insert_rec-leaf fuel p n e loads = rw (insert_rec, loads)

insert_rec-internal :
    (fuel : ℕ) (p : Pager) (n : ℕ) (e : Entry) {cs : List ℕ} {ks : List Key}
    → node_load p n ≡ some (internal cs ks)
    → insert_rec (suc fuel) p n e
      ≡ after_child n cs ks
          (child_index e.key ks)
          (insert_rec fuel p (get_or cs (child_index e.key ks) 0) e)
unfolding insert_rec
insert_rec-internal fuel p n e loads = rw (insert_rec, loads)

-- With fuel for more than the height of the tree, inserting into a search tree always ends. It has
-- taken the entry in at a place that keeps the order of keys, or has become two trees around a
-- separator, or no page is free. The pages stay a search tree within the same bounds, none that was
-- in use is freed or, outside the tree, changed.
pub insert_rec-TreeOutcome :
    (h fuel : ℕ) (p : Pager) (lo hi : Option Key) (e : Entry) (t : TreeOf h)
    → h < fuel
    → IsReady p
    → Owned p (count h t)
    → Stored h p t
    → Ordered h lo hi t
    → IsEntry e
    → Within lo hi e.key
    → TreeOutcome h p lo hi e t (insert_rec fuel p (page_of h t) e)
insert_rec-TreeOutcome h zero p lo hi e t deep r owned s o we w = absurd (omega arith)
insert_rec-TreeOutcome zero (suc fuel) p lo hi e t deep r owned s o we w =
    rw (insert_rec-leaf fuel p t.page e s.0) (insert_leaf-TreeOutcome p lo hi e t r owned s o we w)
insert_rec-TreeOutcome (suc h) (suc fuel) p lo hi e t deep r owned s o we w =
    let a =
      around (items h) (Ordered h) (Ordered-SortedWithin h) e lo hi t.separators t.children w o in
    let below =
      insert_rec-TreeOutcome h fuel p a.low a.high e a.child (omega arith) r
        (child-Owned h p lo hi e t a owned s) (child_stored h p lo hi e t a owned s) a.in_order we
        a.within in
    rw (insert_rec-internal fuel p t.page e s.0, child_page h p lo hi e t a owned s)
      (child_outcome h p lo hi e t a owned s (insert_rec fuel p (page_of h a.child) e) below)

-- More fuel changes nothing.
pub insert_rec-fuel :
    (h fuel fuel' : ℕ) (p : Pager) (lo hi : Option Key) (e : Entry) (t : TreeOf h)
    → h < fuel
    → h < fuel'
    → Owned p (count h t)
    → Stored h p t
    → Ordered h lo hi t
    → Within lo hi e.key
    → insert_rec fuel p (page_of h t) e ≡ insert_rec fuel' p (page_of h t) e
insert_rec-fuel h zero fuel' p lo hi e t deep deep' owned s o w = absurd (omega arith)
insert_rec-fuel h (suc fuel) zero p lo hi e t deep deep' owned s o w = absurd (omega arith)
insert_rec-fuel zero (suc fuel) (suc fuel') p lo hi e t deep deep' owned s o w =
    insert_rec-leaf fuel p t.page e s.0 ∙ sym (insert_rec-leaf fuel' p t.page e s.0)
insert_rec-fuel (suc h) (suc fuel) (suc fuel') p lo hi e t deep deep' owned s o w =
    let a =
      around (items h) (Ordered h) (Ordered-SortedWithin h) e lo hi t.separators t.children w o in
    let below =
      insert_rec-fuel h fuel fuel' p a.low a.high e a.child (omega arith) (omega arith)
        (child-Owned h p lo hi e t a owned s) (child_stored h p lo hi e t a owned s) a.in_order
        a.within in
    let page = child_page h p lo hi e t a owned s in
    insert_rec-internal fuel p t.page e s.0
    ∙ rw (page, below) (sym (insert_rec-internal fuel' p t.page e s.0 ∙ rw (page)))
