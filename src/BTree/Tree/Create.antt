-- ===== src/BTree/Tree/Create.antt =====
-- `btree_create`: an empty search tree on a fresh page.
use my_pl.Prelude.{
  ℕ, zero, ◌≡◌, ◌≢◌, ◌≤◌, ◌<◌, ◌^◌, ◌==◌, ◌∙◌, ap, false, if◌then◌else◌, List, [], Option, none,
  some, arith, refl,
}
use my_pl.Pager.{Pager, allocate_page, bitmap_bits, bitmap_test, read_page, write_page}
use my_pl.Pager.Pages.{read_page-write_page, read_page-Allocated, Allocated-Fits}
use my_pl.Pager.Alloc.{IsValid, Allocated, allocate_page-Allocated, allocate_page-none}
use my_pl.BTree.Node.{BtNode, leaf, node_store}
use my_pl.BTree.Node.RoundTrip.{IsNode}
use my_pl.BTree.Insert.{BTree, create_at, btree_create}
use my_pl.BTree.Insert.Split.{IsReady}
use my_pl.BTree.Tree.{LeafPage, IsTree, Owned}
use my_pl.BTree.Tree.Footprint.{Grown-counts}
use my_pl.BTree.Tree.Outcome.{Full}
use my_pl.BTree.Tree.Root.{Grown-fresh, fresh_self}

abbrev pub empty_leaf : ℕ → LeafPage
empty_leaf n = record { page = n; entries = []; next = 0 }

-- The page `n` was free, is the only one that was put in use, and is the only one that changed.
pub record FreshPage (p p' : Pager) (n : ℕ) : Type 0 where
  pub not_header : 1 ≤ n
  pub was_free : bitmap_test p.bitmap n ≡ 0
  pub marks_only :
      (j : ℕ) → bitmap_test p'.bitmap j ≡ (if j == n then 1 else bitmap_test p.bitmap j)
  pub others : (m : ℕ) → m < 2 ^ 31 → m ≢ n → read_page p' m ≡ read_page p m

-- What `btree_create` has done, by its answer.
abbrev pub CreateOutcome : Pager → Option BTree × Pager → Type 0
CreateOutcome p (none, p') = (p' ≡ p) × Full p
CreateOutcome p (some b, p') =
    (p' ≡ b.pager)
    × IsTree zero b.pager b.root_page (empty_leaf b.root_page)
    × FreshPage p p' b.root_page

not_same : (m n : ℕ) → m ≢ n → (m == n) ≡ false
not_same m n h = ground arith

-- A page below the count is written without a change of the bitmap.
write_page-bitmap :
    (p : Pager) (n : ℕ) (bytes : List ℕ)
    → n < p.page_count
    → n < bitmap_bits
    → p.page_count ≤ bitmap_bits
    → (write_page p n bytes).bitmap ≡ p.bitmap
unfolding write_page
write_page-bitmap p n bytes h k c = ground arith

-- A node on the page that an allocation gives.
node_store-FreshPage :
    {p q : Pager} (n : ℕ) (node : BtNode)
    → IsReady p
    → Allocated p n q × IsValid q
    → FreshPage p (node_store q n node) n
unfolding node_store
node_store-FreshPage {p} {q} n node r (al, vq) = record {
  not_header = al.not_header;
  was_free = al.was_free;
  marks_only = λ j.
      ap (λ bm. bitmap_test bm j) (write_page-bitmap q n _ al.counted al.in_range vq.count_le)
      ∙ al.marks_only j;
  others = λ m hm differ.
      read_page-write_page q n m _ vq (Allocated-Fits r.fits al) (omega (arith, al.in_range)) hm
      ∙ rw (not_same m n differ) (read_page-Allocated m r.valid vq r.fits hm al);
}

module _ (p : Pager) (r : IsReady p) where
  nothing-Owned : Owned p (λ m. 0)
  nothing-Owned = record { once = λ m. omega arith; used = λ m one. absurd (omega (arith, one)) }

  create_at-Outcome :
      (answer : Option ℕ × Pager) → allocate_page p ≡ answer → CreateOutcome p (create_at answer)
  unfolding create_at
  create_at-Outcome (none, q) a =
      (cc ((allocate_page-none p).1 (rw (a)), a), (allocate_page-none p).0.0 (rw (a)))
  create_at-Outcome (some n, q) a =
      let al = allocate_page-Allocated {i = n} r.valid a in
      let wf : IsNode (leaf [] 0) = (omega arith, tt, omega arith) in
      let g =
        Grown-counts (λ m. refl) (λ m. omega arith)
          (Grown-fresh (leaf [] 0) nothing-Owned r al wf) in
      (
        refl,
        record {
          at_root = refl;
          ready = g.ready;
          owned = g.owned;
          stored = (fresh_self (leaf [] 0) nothing-Owned r al wf, omega arith, tt, omega arith);
          ordered = (tt, tt);
          linked = refl;
          no_header = ground (arith, al.0.not_header);
        },
        node_store-FreshPage n (leaf [] 0) r al,
      )

  -- On a valid pager `btree_create` gives an empty search tree on a page that was free, and that is
  -- the only one put in use and the only one written, or no page is free and the pager stays as it is.
  pub btree_create-CreateOutcome : CreateOutcome p (btree_create p)
  unfolding btree_create
  btree_create-CreateOutcome = create_at-Outcome (allocate_page p) refl
