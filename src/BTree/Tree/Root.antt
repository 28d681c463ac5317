-- ===== src/BTree/Tree/Root.antt =====
-- `btree_insert` on a search tree, at its root.
use my_pl.Prelude.{
  ℕ, suc, ◌+◌, ◌≤◌, ◌<◌, ◌^◌, ◌≡◌, ◌≢◌, refl, sym, ap, ◌∙◌, inl, inr, Bool, true, false, Bool-cases,
  [], ◌∷◌, ◌++◌, Option, none, some, append-nil, ◌==◌, ==_iff, if◌then◌else◌, arith,
}
use my_pl.Pager.{Pager, bitmap_bits, allocate_page}
use my_pl.Pager.Alloc.{InUse, IsValid, Allocated, allocate_page-Allocated, allocate_page-none}
use my_pl.BTree.Key.{Cell, encode_key}
use my_pl.BTree.Key.Order.{length-encode_key}
use my_pl.BTree.Node.{Key, Entry, BtNode, internal, node_load, node_store}
use my_pl.BTree.Node.RoundTrip.{IsNode, IsWord, node_load-node_store}
use my_pl.BTree.Insert.{
  BTree, Inserted, failed, stored, no_fuel, split, insert_rec, grow_root, after_root, btree_insert,
}
use my_pl.BTree.Insert.Split.{
  IsReady, node_store-IsReady, node_store-InUse, node_load-Allocated, Allocated-InUse,
}
use my_pl.BTree.Tree.{TreeOf, page_of, items, one_if, count, Owned, IsTree, Linked}
use my_pl.BTree.Tree.Footprint.{count-page_of, Same, Stored-Same, Grown, Grown-trans, Grown-counts}
use my_pl.BTree.Tree.Descent.{Places, Places-eq}
use my_pl.BTree.Tree.Outcome.{Full, TwoTrees, TreeOutcome}
use my_pl.BTree.Tree.Insertion.{insert_rec-TreeOutcome, insert_rec-fuel}

-- A node on a fresh page joins the tree.
module _ {p q : Pager} {c : ℕ → ℕ} {n : ℕ} (node : BtNode) (o : Owned p c) (r : IsReady p)
    (al : Allocated p n q × IsValid q) (wf : IsNode node) where
  fresh_loads :
      (m : ℕ)
      → m < 2 ^ 31
      → node_load (node_store q n node) m ≡ (if m == n then some node else node_load p m)
  fresh_loads m hm =
      let (rq, same) = node_load-Allocated m r al hm in
      node_load-node_store q n m node rq.valid rq.fits al.0.in_range hm wf ∙ rw (same)

  IsReady-before : IsReady q
  IsReady-before = (node_load-Allocated n r al (omega (arith, al.0.in_range))).0

  kept : (m : ℕ) → InUse p m → InUse (node_store q n node) m
  kept m u = node_store-InUse q n m node IsReady-before al.0.in_range (Allocated-InUse m al.0 u)

  marked : InUse (node_store q n node) n
  marked =
      let set : InUse q n = ground (arith, al.0.marks_only n) in
      node_store-InUse q n n node IsReady-before al.0.in_range set

  was_free : (m : ℕ) → n ≡ m → ¬ InUse p m
  was_free m same u =
      let used : InUse p n = rw (same) u in absurd (omega (arith, al.0.was_free, used))

  absent : (m : ℕ) → n ≡ m → c m ≡ 0
  absent m same = elim (Bool-cases (c m == 0)) [
    | inl z ↦ ground arith
    | inr some_time ↦ absurd (was_free m same (o.used m (ground arith)).0)
  ]

  pub fresh_self : node_load (node_store q n node) n ≡ some node
  fresh_self = fresh_loads n (omega (arith, al.0.in_range)) ∙ ground arith

  fresh_others :
      (m : ℕ) → InUse p m → m < bitmap_bits → node_load (node_store q n node) m ≡ node_load p m
  fresh_others m u l = elim (Bool-cases (m == n)) [
    | inl e ↦ absurd (was_free m (sym ((==_iff m n).0 e)) u)
    | inr e ↦ fresh_loads m (omega arith) ∙ rw (e)
  ]

  fresh-Same : Same p (node_store q n node) c
  fresh-Same m one = let (u, l) = o.used m one in fresh_others m u l

  pub Grown-fresh : Grown p (node_store q n node) c (λ m. one_if (n == m) + c m)
  Grown-fresh = record {
    ready = node_store-IsReady q n node IsReady-before al.0.in_range;
    kept_used = kept;
    owned = record {
      once = λ m. elim (Bool-cases (n == m)) [
        | inl e ↦ rw (e) (omega (arith, absent m ((==_iff n m).0 e)))
        | inr e ↦ rw (e) (omega (arith, o.once m))
      ];
      used = λ m one. elim (Bool-cases (n == m)) [
        | inl e ↦ let same = (==_iff n m).0 e in (rw (← same) marked, rw (← same) al.0.in_range)
        | inr e ↦ let (u, l) = o.used m (ground arith) in (kept m u, l)
      ];
    };
    as_before = λ m u. elim (Bool-cases (n == m)) [
      | inl e ↦ absurd (was_free m ((==_iff n m).0 e) u)
      | inr e ↦ rw (e) (omega arith)
    ];
    others = λ m u l z. fresh_others m u l;
  }

-- What an insertion into the tree `t` on the pages of `p` gives.
pub record Inserts (h : ℕ) (p : Pager) (e : Entry) (t : TreeOf h) (b : BTree) (h' : ℕ)
    (t' : TreeOf h') : Type 0 where
  pub is_tree : IsTree h' b.pager b.root_page t'
  pub height : (h ≤ h') × (h' ≤ suc h)
  pub places : Places e (items h t) (items h' t')
  pub others :
      (m : ℕ)
      → InUse p m
      → m < bitmap_bits
      → count h t m ≡ 0
      → (count h' t' m ≡ 0) × InUse b.pager m × (node_load b.pager m ≡ node_load p m)

abbrev pub InsertOutcome : (h : ℕ) → Pager → Entry → TreeOf h → Option Bool × BTree → Type 0
InsertOutcome h p e t (none, b) = ⊥
InsertOutcome h p e t (some false, b) = Full b.pager
InsertOutcome h p e t (some true, b) = (h' : ℕ) × (t' : TreeOf h') × Inserts h p e t b h' t'

module _ (h : ℕ) (p : Pager) (e : Entry) (t : TreeOf h) (r : IsReady p) (linked : Linked h 0 t)
    (no_header : count h t 0 ≡ 0) where
  -- The header's page is in use.
  no_header_after : {p' : Pager} {c : ℕ → ℕ} → Grown p p' (count h t) c → c 0 ≡ 0
  no_header_after g = g.as_before 0 r.valid.header_in_use ∙ no_header

  from_Grown :
      {p' : Pager} {c : ℕ → ℕ}
      → Grown p p' (count h t) c
      → (m : ℕ) → InUse p m
      → m < bitmap_bits
      → count h t m ≡ 0
      → (c m ≡ 0) × InUse p' m × (node_load p' m ≡ node_load p m)
  from_Grown g m u l z = (g.as_before m u ∙ z, g.kept_used m u, g.others m u l z)

  grown_root :
      (p' : Pager) (key : Key) (page : ℕ) (l r : TreeOf h) (answer : Option ℕ × Pager)
      → allocate_page p' ≡ answer
      → TwoTrees h p p' none none e t key page l r
      → InsertOutcome h p e t (grow_root (page_of h t) key page answer)
  unfolding grow_root
  grown_root p' key page l r (none, q) a out =
      let same : q ≡ p' = cc ((allocate_page-none p').1 (rw (a)), a) in
      rw (same) ((allocate_page-none p').0.0 (rw (a)))
  grown_root p' key page l r (some n, q) a out =
      let al = allocate_page-Allocated {i = n} out.grown.ready.valid a in
      let node = internal (page_of h t ∷ page ∷ []) (key ∷ []) in
      let wf : IsNode node = (
        omega arith,
        refl,
        (
          rw (← out.same_page) (page_is_word l (λ m. omega arith)),
          (rw (← out.new_page) (page_is_word r (λ m. omega arith)), tt),
        ),
        (out.is_key, tt),
      ) in
      let fresh = Grown-fresh node out.grown.owned out.grown.ready al wf in
      let still = λ (u : TreeOf h) (among : (m : ℕ) → count h u m ≤ count h l m + count h r m).
        Stored-Same h p' (node_store q n node) u (λ m one.
          fresh-Same node out.grown.owned out.grown.ready al wf m (omega (arith, among m, one))) in
      let grown = Grown-trans out.grown (Grown-counts (λ m. refl) (λ m. omega arith) fresh) in
      (
        suc h,
        record { page = n; children = l ∷ r ∷ []; separators = key ∷ [] },
        record {
          is_tree = record {
            at_root = refl;
            ready = grown.ready;
            owned = grown.owned;
            stored = (
              rw (out.same_page, out.new_page)
                  (fresh_self node out.grown.owned out.grown.ready al wf),
              omega arith,
              refl,
              (out.is_key, tt),
              (
                still l (λ m. omega arith) out.left_stored,
                (still r (λ m. omega arith) out.right_stored, tt),
              ),
            );
            ordered = (out.within, out.left_ordered, out.right_ordered);
            linked = out.relinked.linked 0 linked;
            no_header = no_header_after grown;
          };
          height = (omega arith, omega arith);
          places = Places-eq refl (ap (◌++◌ (items h l)) (append-nil (items h r))) out.places;
          others = from_Grown grown;
        },
      )
    where
      page_is_word :
          (u : TreeOf h)
          → ((m : ℕ) → count h u m ≤ count h l m + count h r m)
          → IsWord (page_of h u)
      page_is_word u among = omega (
        arith,
        (out.grown.owned.used (page_of h u)
            (omega (arith, count-page_of h u, among (page_of h u)))).1,
      )

  root_outcome :
      (answer : Inserted × Pager)
      → TreeOutcome h p none none e t answer
      → InsertOutcome h p e t (after_root (page_of h t) answer)
  unfolding after_root
  root_outcome (no_fuel, p') never = never
  root_outcome (failed, p') full = full
  root_outcome (stored, p') (t', out) = (
    h,
    t',
    record {
      is_tree = record {
        at_root = out.same_page;
        ready = out.grown.ready;
        owned = out.grown.owned;
        stored = out.is_stored;
        ordered = out.ordered;
        linked = (out.relinked.linked 0 linked).0;
        no_header = no_header_after out.grown;
      };
      height = (omega arith, omega arith);
      places = out.places;
      others = from_Grown out.grown;
    },
  )
  root_outcome (split key page, p') (l, r, out) =
      grown_root p' key page l r (allocate_page p') refl out

-- Inserting into a search tree of any height, with fuel for more than that height, always ends. The
-- result 1 comes with a search tree at the tree's root page, as high or one higher, whose entries
-- from left to right are the old ones with the new one at a place that keeps the order of keys; no
-- page outside the tree has changed, been freed or become the tree's. The result 0 means that no
-- page is free.
pub btree_insert-InsertOutcome :
    (h fuel : ℕ) (b : BTree) (t : TreeOf h) (key : Cell) (row_page row_offset : ℕ)
    → IsTree h b.pager b.root_page t
    → h < fuel
    → row_page < 2 ^ 32
    → row_offset < 2 ^ 32
    → InsertOutcome h b.pager
        (record { key = encode_key key; row_page = row_page; row_offset = row_offset })
        t
        (btree_insert fuel b key row_page row_offset)
unfolding btree_insert
btree_insert-InsertOutcome h fuel b t key row_page row_offset is deep hp ho =
    let e : Entry = record { key = encode_key key; row_page = row_page; row_offset = row_offset } in
    rw (← is.at_root) (
      root_outcome h b.pager e t is.ready is.linked is.no_header
        (insert_rec fuel b.pager (page_of h t) e)
        (insert_rec-TreeOutcome h fuel b.pager none none e t deep is.ready is.owned is.stored
          is.ordered (length-encode_key key, hp, ho) (tt, tt)))

-- Any two amounts of fuel above the height of a search tree give `btree_insert` one result, and it
-- is never that the fuel ran out.
pub btree_insert-fuel :
    (h fuel fuel' : ℕ) (b : BTree) (t : TreeOf h) (key : Cell) (row_page row_offset : ℕ)
    → IsTree h b.pager b.root_page t
    → h < fuel
    → h < fuel'
    → row_page < 2 ^ 32
    → row_offset < 2 ^ 32
    → (btree_insert fuel b key row_page row_offset ≡ btree_insert fuel' b key row_page row_offset)
      × ((btree_insert fuel b key row_page row_offset).0 ≢ none)
unfolding btree_insert
btree_insert-fuel h fuel fuel' b t key row_page row_offset is deep deep' hp ho =
    let e : Entry = record { key = encode_key key; row_page = row_page; row_offset = row_offset } in
    let same =
      insert_rec-fuel h fuel fuel' b.pager none none e t deep deep' is.owned is.stored is.ordered
        (tt, tt) in
    (
      rw (← is.at_root) (ap (after_root (page_of h t)) same),
      ended e (btree_insert fuel b key row_page row_offset)
          (btree_insert-InsertOutcome h fuel b t key row_page row_offset is deep hp ho),
    )
  where
    ended :
        (e : Entry) (answer : Option Bool × BTree)
        → InsertOutcome h b.pager e t answer
        → answer.0 ≢ none
    ended e (none, b') out never = out
    ended e (some ok, b') out never = cc
