-- ===== src/BTree/Insert/Split.antt =====
-- Inserting into a leaf page: the page is rewritten, or split over a fresh page.
use my_pl.Prelude.{
  ℕ, ◌/◌, ◌^◌, ◌≤◌, ◌<◌, ◌≡◌, ◌≢◌, refl, ◌∙◌, Bool-cases, inl, inr, List, ◌++◌, Option, none, some,
  length, take, drop, All, arith, leb, ◌==◌, if◌then◌else◌, length-take, length-drop,
  take-append-drop, All-take, All-drop,
}
use my_pl.Pager.{Pager, bitmap_bits, allocate_page}
use my_pl.Pager.Alloc.{IsValid, InUse, Allocated, allocate_page-Allocated, allocate_page-none}
use my_pl.Pager.Pages.{
  Fits, read_page-Allocated, Allocated-Fits, write_page-IsValid, write_page-InUse,
}
use my_pl.BTree.Node.{Key, Entry, BtNode, leaf, leaf_max, node_load, node_store}
use my_pl.BTree.Node.RoundTrip.{IsNode, IsEntry, IsWord, node_load-node_store}
use my_pl.BTree.Insert.{
  Inserted, failed, stored, no_fuel, split, first_key, leaf_insert, split_leaf, insert_leaf,
}
use my_pl.BTree.Insert.Leaf.{All-leaf_insert, length-leaf_insert}

-- A pager that may be written.
pub record IsReady (p : Pager) : Type 0 where
  pub valid : IsValid p
  pub fits : Fits p

pub node_store-IsReady :
    (p : Pager) (n : ℕ) (node : BtNode)
    → IsReady p
    → n < bitmap_bits
    → IsReady (node_store p n node)
unfolding node_store
node_store-IsReady p n node r h =
    let (v, f) = write_page-IsValid p n _ r.valid r.fits (omega arith) in
    record { valid = v; fits = f }

pub node_store-InUse :
    (p : Pager) (n j : ℕ) (node : BtNode)
    → IsReady p
    → n < bitmap_bits
    → InUse p j
    → InUse (node_store p n node) j
unfolding node_store
node_store-InUse p n j node r h used = write_page-InUse p n j _ r.valid (omega arith) used

pub Allocated-InUse : {p p' : Pager} {i : ℕ} (j : ℕ) → Allocated p i p' → InUse p j → InUse p' j
Allocated-InUse j a used = ground (arith, a.marks_only j)

pub node_load-Allocated :
    {p p' : Pager} {i : ℕ} (m : ℕ)
    → IsReady p
    → Allocated p i p' × IsValid p'
    → m < 2 ^ 31
    → IsReady p' × (node_load p' m ≡ node_load p m)
unfolding node_load
node_load-Allocated m r (a, v') h = (
  record { valid = v'; fits = Allocated-Fits r.fits a },
  rw (read_page-Allocated m r.valid v' r.fits h a),
)

-- What two stores leave on a page.
node_load-two_stores :
    (p : Pager) (n n' m : ℕ) (a b : BtNode)
    → IsReady p
    → n < bitmap_bits
    → n' < bitmap_bits
    → m < 2 ^ 31
    → IsNode a
    → IsNode b
    → node_load (node_store (node_store p n a) n' b) m
      ≡ (if m == n' then some b else if m == n then some a else node_load p m)
node_load-two_stores p n n' m a b r hn hn' hm wa wb =
    let s = node_store-IsReady p n a r hn in
    node_load-node_store (node_store p n a) n' m b s.valid s.fits hn' hm wb
    ∙ rw (node_load-node_store p n m a r.valid r.fits hn hm wa)

-- A split gives two nodes on the old page and a fresh one, and touches no other page.
pub record Splits (p p' : Pager) (n new_page : ℕ) (a b : BtNode) : Type 0 where
  pub ready : IsReady p'
  pub fresh : new_page ≢ n
  pub was_free : ¬ InUse p new_page
  pub in_range : new_page < bitmap_bits
  pub new_used : InUse p' new_page
  pub kept_used : (j : ℕ) → InUse p j → InUse p' j
  pub left_loads : node_load p' n ≡ some a
  pub right_loads : node_load p' new_page ≡ some b
  pub others : (m : ℕ) → m < 2 ^ 31 → m ≢ n → m ≢ new_page → node_load p' m ≡ node_load p m

pub two_stores-Splits :
    {p q : Pager} {new_page : ℕ} (n : ℕ) (a b : BtNode)
    → IsReady p
    → InUse p n
    → n < bitmap_bits
    → Allocated p new_page q × IsValid q
    → IsNode a
    → IsNode b
    → Splits p (node_store (node_store q n a) new_page b) n new_page a b
two_stores-Splits {p} {q} {new_page} n a b r used hn (al, vq) wa wb =
    let (rq, _) = node_load-Allocated n r (al, vq) (omega arith) in
    let hnew : new_page < bitmap_bits = al.in_range in
    let sq = node_store-IsReady q n a rq hn in
    let differ : new_page ≢ n = λ e. absurd (omega (arith, rw e at al.was_free, used)) in
    record {
      ready = node_store-IsReady (node_store q n a) new_page b sq hnew;
      fresh = differ;
      was_free = λ u. absurd (omega (arith, u, al.was_free));
      in_range = hnew;
      new_used =
          let marked : InUse q new_page = ground (arith, al.marks_only new_page) in
          node_store-InUse _ new_page new_page b sq hnew
            (node_store-InUse q n new_page a rq hn marked);
      kept_used = λ j used.
          node_store-InUse _ new_page j b sq hnew
            (node_store-InUse q n j a rq hn (Allocated-InUse j al used));
      left_loads =
          node_load-two_stores q n new_page n a b rq hn hnew (omega arith) wa wb ∙ ground arith;
      right_loads =
          node_load-two_stores q n new_page new_page a b rq hn hnew (omega arith) wa wb
          ∙ ground arith;
      others = λ m hm e e'.
          node_load-two_stores q n new_page m a b rq hn hnew hm wa wb
          ∙ ground (arith, (node_load-Allocated m r (al, vq) hm).1);
    }

-- The halves of a leaf that overflowed.
pub record LeafHalves (es : List Entry) (key : Key) (left right : List Entry) : Type 0 where
  pub whole : left ++ right ≡ es
  pub left_least : 45 ≤ length left
  pub left_most : length left ≤ leaf_max
  pub right_least : 45 ≤ length right
  pub right_most : length right ≤ leaf_max
  pub separator : key ≡ first_key right

-- What `insert_leaf` has done, by its answer.
abbrev pub LeafOutcome : Pager → ℕ → List Entry → ℕ → Entry → Inserted × Pager → Type 0
LeafOutcome p n es next e (no_fuel, p') = ⊥
LeafOutcome p n es next e (failed, p') =
    (p' ≡ p) × (length es ≡ leaf_max) × ((j : ℕ) → 1 ≤ j → j < bitmap_bits → InUse p j)
LeafOutcome p n es next e (stored, p') =
    IsReady p'
    × (node_load p' n ≡ some (leaf (leaf_insert e es) next))
    × ((m : ℕ) → m < 2 ^ 31 → m ≢ n → node_load p' m ≡ node_load p m)
    × ((j : ℕ) → InUse p j → InUse p' j)
    × (length (leaf_insert e es) ≤ leaf_max)
LeafOutcome p n es next e (split key new_page, p') =
    (left : List Entry) × (right : List Entry) × LeafHalves (leaf_insert e es) key left right
    × Splits p p' n new_page (leaf left new_page) (leaf right next)

module _ (p : Pager) (n : ℕ) (es : List Entry) (next : ℕ) (e : Entry) where
  split_leaf-Outcome :
      (answer : Option ℕ × Pager)
      → allocate_page p ≡ answer
      → IsReady p
      → InUse p n
      → n < bitmap_bits
      → length es ≡ leaf_max
      → All IsEntry (leaf_insert e es)
      → IsWord next
      → LeafOutcome p n es next e (split_leaf n (leaf_insert e es) next answer)
  unfolding split_leaf
  split_leaf-Outcome (none, q) h r used hn full wf link =
      (cc ((allocate_page-none p).1 (rw h), h), full, (allocate_page-none p).0.0 (rw h))
  split_leaf-Outcome (some new_page, q) h r used hn full wf link =
      let es' = leaf_insert e es in
      let half = length es' / 2 in
      let al = allocate_page-Allocated {i = new_page} r.valid h in
      let len = length-leaf_insert e es in
      let len_left = length-take half es' in
      let len_right = length-drop half es' in
      (
        take half es',
        drop half es',
        record {
          whole = take-append-drop half es';
          left_least = omega (arith, len, len_left);
          left_most = omega (arith, len, len_left);
          right_least = omega (arith, len, len_right);
          right_most = omega (arith, len, len_right);
          separator = refl;
        },
        two_stores-Splits n _ _ r used hn al
            (
              omega (arith, len, len_left),
              All-take IsEntry half es' wf,
              omega (arith, al.0.in_range),
            )
            (omega (arith, len, len_right), All-drop IsEntry half es' wf, link),
      )

  -- Inserting a well-formed entry into a leaf on a page in use of a valid pager, by the answer. A
  -- leaf with room is rewritten with the new entry in its place. A full one is split: its page and
  -- a fresh one hold two halves, each at least half full and at most full, which together are the
  -- leaf with the new entry; the separator is the first key of the right half, and the chain runs
  -- on through the fresh page, which was free. Without a free page nothing changes. No other page
  -- changes or is freed, and the answer is never that fuel ran out.
  pub insert_leaf-LeafOutcome :
      IsReady p
      → InUse p n
      → n < bitmap_bits
      → IsNode (leaf es next)
      → IsEntry e
      → LeafOutcome p n es next e (insert_leaf p n es next e)
  unfolding insert_leaf
  insert_leaf-LeafOutcome r used hn (few, wf, link) we =
      elim (Bool-cases (leb (length (leaf_insert e es)) leaf_max)) [
        | inl room ↦
            let wf' = All-leaf_insert IsEntry e es we wf in
            let loads = λ (m : ℕ) (hm : m < 2 ^ 31).
              node_load-node_store p n m (leaf (leaf_insert e es) next) r.valid r.fits hn hm
                (ground arith, wf', link) in
            rw room (
              node_store-IsReady p n _ r hn,
              loads n (omega arith) ∙ ground arith,
              λ m hm ne. loads m hm ∙ ground arith,
              λ j. node_store-InUse p n j _ r hn,
              ground arith,
            )
        | inr full ↦ rw full (
            split_leaf-Outcome (allocate_page p) refl r used hn
              (ground (arith, length-leaf_insert e es)) (All-leaf_insert IsEntry e es we wf) link)
      ]
