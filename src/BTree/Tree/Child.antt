-- ===== src/BTree/Tree/Child.antt =====
-- An internal node of a tree whose child an insertion has changed.
use my_pl.Prelude.{
  ℕ, suc, ◌+◌, ◌≤◌, ◌≡◌, refl, sym, ap, ◌∙◌, List, [], ◌∷◌, ◌++◌, Option, some, length, map, All,
  All-append, All-append_parts, append-nil, length-append, insert_at, get_or, ◌==◌, arith,
}
use my_pl.Pager.{Pager}
use my_pl.BTree.Node.{Key, Entry, internal, node_load}
use my_pl.BTree.Node.RoundTrip.{IsKey}
use my_pl.BTree.Insert.{Inserted, failed, stored, no_fuel, split, child_index, after_child}
use my_pl.BTree.Insert.Internal.{InternalOutcome, after_child-InternalOutcome}
use my_pl.BTree.Tree.{
  Branch, TreeOf, page_of, items, items_all, total, one_if, count, Stored, Owned, Ordered, first_of,
  first_leaf, Linked, LinkedAll,
}
use my_pl.BTree.Tree.Footprint.{
  total-append, count-page_of, IsWord-page_of, Same, All-Same, Stored-Same, Grown, Grown-counts,
  Grown-beside, Grown-Same,
}
use my_pl.Prelude.Bytes.{leb_bytes_total}
use my_pl.BTree.Tree.Bounds.{All-map_of}
use my_pl.BTree.Tree.Links.{Relinked, first_of-Relinked, LinkedAll-Relinked}
use my_pl.BTree.Tree.Descent.{Places, Places-eq, Places-beside, Around}
use my_pl.BTree.Tree.Outcome.{OneTree, TwoTrees, TreeOutcome}
use my_pl.BTree.Tree.Branches.{length-map, items_all-append, branch_outcome}

module _ {A : Type 0} where
  insert_at-append :
      (xs : List A) (a : A) (ys : List A) → insert_at (length xs) a (xs ++ ys) ≡ xs ++ (a ∷ ys)
  insert_at-append [] a ys = refl
  insert_at-append (x ∷ xs) a ys = ap (◌∷◌ x) (insert_at-append xs a ys)

  module _ (f : A → ℕ) (c : A) (back : List A) where
    get_or-child : (front : List A) → get_or (map f (front ++ (c ∷ back))) (length front) 0 ≡ f c
    get_or-child [] = refl
    get_or-child (t ∷ front) = get_or-child front

    map-one :
        (front : List A) (c' : A)
        → f c' ≡ f c
        → map f (front ++ (c' ∷ back)) ≡ map f (front ++ (c ∷ back))
    map-one [] c' e = rw (e)
    map-one (t ∷ front) c' e = ap (◌∷◌ (f t)) (map-one front c' e)

    insert_at-two :
        (front : List A) (l r : A) (n : ℕ)
        → f l ≡ f c
        → f r ≡ n
        → insert_at (suc (length front)) n (map f (front ++ (c ∷ back)))
          ≡ map f (front ++ (l ∷ r ∷ back))
    insert_at-two [] l r n el er = rw (el, er)
    insert_at-two (t ∷ front) l r n el er = ap (◌∷◌ (f t)) (insert_at-two front l r n el er)

module _ (h : ℕ) (p : Pager) (lo hi : Option Key) (e : Entry) (t : Branch (TreeOf h))
    (a : Around (Ordered h) (items h) lo hi e t.separators t.children)
    (owned : Owned p (count (suc h) t)) (is_stored : Stored (suc h) p t) where
  -- The pages of the tree outside the child.
  abbrev beside : ℕ → ℕ
  beside m =
      one_if (t.page == m) + (total (λ u. count h u m) a.front + total (λ u. count h u m) a.back)

  count-around :
      (middle : List (TreeOf h)) (m : ℕ)
      → one_if (t.page == m) + total (λ u. count h u m) (a.front ++ (middle ++ a.back))
        ≡ beside m + total (λ u. count h u m) middle
  count-around middle m = omega (
    arith,
    total-append (λ u. count h u m) a.front (middle ++ a.back),
    total-append (λ u. count h u m) middle a.back,
  )

  pub count-child : (m : ℕ) → count (suc h) t m ≡ beside m + count h a.child m
  count-child m =
      omega (arith, ap (total (λ u. count h u m)) a.children_are, count-around (a.child ∷ []) m)

  children-Owned : Owned p (λ m. total (λ u. count h u m) t.children)
  children-Owned = record {
    once = λ m. omega (arith, owned.once m);
    used = λ m one. owned.used m (omega (arith, one));
  }

  Owned-beside : Owned p (λ m. beside m + count h a.child m)
  Owned-beside = record {
    once = λ m. omega (arith, owned.once m, count-child m);
    used = λ m one. owned.used m (omega (arith, count-child m, one));
  }

  -- What an insertion into the child means for the node, whose children are now `middle`.
  module _ (p' : Pager) (middle : List (TreeOf h))
      (grown : Grown p p' (count h a.child) (λ m. total (λ u. count h u m) middle))
      (below : All (Stored h p') middle)
      (places : Places e (items h a.child) (items_all (items h) middle))
      (relinked : Relinked h a.child middle) where
    node_grown :
        Grown p p'
          (count (suc h) t)
          (λ m. one_if (t.page == m) + total (λ u. count h u m) (a.front ++ (middle ++ a.back)))
    node_grown =
        Grown-counts count-child (count-around middle) (Grown-beside beside Owned-beside grown)

    Same-beside : Same p p' beside
    Same-beside = Grown-Same beside Owned-beside grown

    node_same : node_load p' t.page ≡ node_load p t.page
    node_same = Same-beside t.page (ground arith)

    all_stored : All (Stored h p') (a.front ++ (middle ++ a.back))
    all_stored =
        let (front, rest) =
          All-append_parts (Stored h p) a.front (a.child ∷ a.back)
            (rw (← a.children_are) is_stored.4) in
        let still =
          λ (ts : List (TreeOf h)) (among : (m : ℕ) → total (λ u. count h u m) ts ≤ beside m).
            All-Same (count h) (Stored h) p p' (Stored-Same h p p') ts
              (λ m one. Same-beside m (omega (arith, among m, one))) in
        All-append _ a.front _ (still a.front (λ m. omega arith) front)
          (All-append _ middle a.back below (still a.back (λ m. omega arith) rest.1))

    all-Places : Places e (items (suc h) t) (items_all (items h) (a.front ++ (middle ++ a.back)))
    all-Places =
        Places-eq
          (ap (items_all (items h)) a.children_are
            ∙ items_all-append (items h) a.front (a.child ∷ a.back))
          (items_all-append (items h) a.front (middle ++ a.back)
            ∙ ap (◌++◌ (items_all (items h) a.front)) (items_all-append (items h) middle a.back))
          (Places-beside (items_all (items h) a.front) (items_all (items h) a.back)
            (All-map_of (items_all (items h) a.front) (λ d. leb_bytes_total e.key d.key) a.before_e)
            a.after_e places)

    first_same : first_of (first_leaf h) (a.front ++ (middle ++ a.back)) 0 ≡ first_leaf (suc h) t
    first_same =
        first_of-Relinked a.front a.back relinked 0
        ∙ ap (λ us. first_of (first_leaf h) us 0) (sym a.children_are)

    all-Linked :
        (out : ℕ)
        → Linked (suc h) out t
        → LinkedAll (first_leaf h) (Linked h) out (a.front ++ (middle ++ a.back))
    all-Linked out l = LinkedAll-Relinked a.front a.back relinked out (rw (← a.children_are) l)

  -- The child has taken the entry in.
  taken_in :
      (p' : Pager) (t' : TreeOf h)
      → OneTree h p p' a.low a.high e a.child t'
      → OneTree (suc h) p p' lo hi e t (record t { children = a.front ++ (t' ∷ a.back) })
  taken_in p' t' out =
      let grown = Grown-counts (λ m. refl) (λ m. omega arith) out.grown in
      let places = Places-eq refl (append-nil (items h t')) out.places in
      let below : All (Stored h p') (t' ∷ []) = (out.is_stored, tt) in
      let (loads, few, len, keys, _) = is_stored in
      let pages =
        map-one (page_of h) a.child a.back a.front t' out.same_page
        ∙ ap (map (page_of h)) (sym a.children_are) in
      record {
        same_page = refl;
        grown = node_grown p' (t' ∷ []) grown below places out.relinked;
        is_stored = (
          node_same p' (t' ∷ []) grown below places out.relinked
              ∙ loads
              ∙ ap (λ cs. some (internal cs t.separators)) (sym pages),
          few,
          omega (
            arith,
            len,
            ap length a.children_are,
            length-append a.front (t' ∷ a.back),
            length-append a.front (a.child ∷ a.back),
          ),
          keys,
          all_stored p' (t' ∷ []) grown below places out.relinked,
        );
        ordered = a.put_one t' out.ordered;
        places = all-Places p' (t' ∷ []) grown below places out.relinked;
        relinked = record {
          first = λ out'. first_same p' (t' ∷ []) grown below places out.relinked;
          linked = λ out' l. (all-Linked p' (t' ∷ []) grown below places out.relinked out' l, tt);
        };
      }

  -- The child has been split.
  split_up :
      (p' : Pager) (key : Key) (page : ℕ) (l r : TreeOf h)
      → TwoTrees h p p' a.low a.high e a.child key page l r
      → TreeOutcome (suc h) p lo hi e t (
          after_child t.page
            (map (page_of h) t.children)
            t.separators
            (length a.front_keys)
            (split key page, p'))
  split_up p' key page l r out =
      let grown = Grown-counts (λ m. refl) (λ m. omega arith) out.grown in
      let places = Places-eq refl (ap (◌++◌ (items h l)) (append-nil (items h r))) out.places in
      let below : All (Stored h p') (l ∷ r ∷ []) = (out.left_stored, (out.right_stored, tt)) in
      let (loads, few, len, keys, _) = is_stored in
      let (used, in_range) = owned.used t.page (ground arith) in
      let (_, new_in_range) =
        out.grown.owned.used (page_of h r) (omega (arith, count-page_of h r)) in
      let ts = a.front ++ (l ∷ r ∷ a.back) in
      let pages : insert_at (suc (length a.front_keys)) page (map (page_of h) t.children)
          ≡ map (page_of h) ts =
        rw (a.children_are, ← a.same_length)
          (insert_at-two (page_of h) a.child a.back a.front l r page out.same_page out.new_page) in
      let separators : insert_at (length a.front_keys) key t.separators
          ≡ a.front_keys ++ (key ∷ a.back_keys) =
        rw (a.keys_are) (insert_at-append a.front_keys key a.back_keys) in
      let (front_keys, back_keys) =
        All-append_parts IsKey a.front_keys a.back_keys (rw (← a.keys_are) keys) in
      let result =
        after_child-InternalOutcome p' t.page (map (page_of h) t.children) t.separators
          (length a.front_keys) key page out.grown.ready (out.grown.kept_used t.page used) in_range
          (
            few,
            length-map (page_of h) t.children ∙ len,
            IsWord-page_of {p = p} h t.children children-Owned,
            keys,
          )
          out.is_key (rw (← out.new_page) (omega (arith, new_in_range))) in
      branch_outcome h p p' lo hi e t ts (a.front_keys ++ (key ∷ a.back_keys))
        (node_grown p' (l ∷ r ∷ []) grown below places out.relinked)
        (all_stored p' (l ∷ r ∷ []) grown below places out.relinked)
        (All-append IsKey a.front_keys (key ∷ a.back_keys) front_keys (out.is_key, back_keys))
        (omega (
          arith,
          a.same_length,
          len,
          ap length a.children_are,
          ap length a.keys_are,
          length-append a.front_keys a.back_keys,
          length-append a.front_keys (key ∷ a.back_keys),
          length-append a.front (l ∷ r ∷ a.back),
          length-append a.front (a.child ∷ a.back),
        ))
        (a.put_two l r key out.within out.left_ordered out.right_ordered)
        (all-Places p' (l ∷ r ∷ []) grown below places out.relinked)
        (first_same p' (l ∷ r ∷ []) grown below places out.relinked)
        (all-Linked p' (l ∷ r ∷ []) grown below places out.relinked) _
        (coe 0 1
          (j. InternalOutcome p' t.page (pages j) (separators j) (
            after_child t.page (map (page_of h) t.children) t.separators (length a.front_keys)
              (split key page, p')))
          result)

  pub child_outcome :
      (answer : Inserted × Pager)
      → TreeOutcome h p a.low a.high e a.child answer
      → TreeOutcome (suc h) p lo hi e t (
          after_child t.page
            (map (page_of h) t.children)
            t.separators
            (child_index e.key t.separators)
            answer)
  child_outcome (no_fuel, p') never = absurd never
  child_outcome (failed, p') full = unfold after_child in full
  child_outcome (stored, p') (t', out) = unfold after_child in (_, taken_in p' t' out)
  child_outcome (split key page, p') (l, r, out) = rw (a.index) (split_up p' key page l r out)

  pub child_stored : Stored h p a.child
  child_stored =
      (All-append_parts (Stored h p) a.front (a.child ∷ a.back)
        (rw (← a.children_are) is_stored.4)).1.0

  pub child-Owned : Owned p (count h a.child)
  child-Owned = record {
    once = λ m. omega (arith, Owned-beside.once m);
    used = λ m one. Owned-beside.used m (omega (arith, one));
  }

  pub child_page :
      get_or (map (page_of h) t.children) (child_index e.key t.separators) 0 ≡ page_of h a.child
  child_page =
      rw (a.index, a.children_are, ← a.same_length)
        (get_or-child (page_of h) a.child a.back a.front)
