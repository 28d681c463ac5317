-- ===== src/BTree/Tree/Footprint.antt =====
-- The pages of a tree, by how often each occurs, and what an insertion may do to the others.
use my_pl.Prelude.{
  ℕ, zero, suc, ◌+◌, ◌^◌, ◌≤◌, ◌<◌, ◌≡◌, refl, inl, inr, Bool-cases, List, [], ◌∷◌, ◌++◌, map, All,
  ◌==◌, arith, ◌⊎◌, ◌≢◌, ◌∙◌, ==_iff,
}
use my_pl.Pager.{Pager, bitmap_bits}
use my_pl.Pager.Alloc.{InUse}
use my_pl.BTree.Node.{BtNode, node_load}
use my_pl.BTree.Node.RoundTrip.{IsWord}
use my_pl.BTree.Insert.Split.{IsReady, Splits}
use my_pl.BTree.Tree.{TreeOf, page_of, total, one_if, count, Stored, Owned}

pub total-append :
    {A : Type 0} (weight : A → ℕ) (ts us : List A)
    → total weight (ts ++ us) ≡ total weight ts + total weight us
total-append weight [] us = omega arith
total-append weight (t ∷ ts) us = omega (arith, total-append weight ts us)

pub count-page_of : (h : ℕ) (t : TreeOf h) → 1 ≤ count h t (page_of h t)
count-page_of zero t = ground arith
count-page_of (suc h) t = ground arith

-- The pages of the children are among those counted.
pub IsWord-page_of :
    {p : Pager} (h : ℕ) (ts : List (TreeOf h))
    → Owned p (λ m. total (λ t. count h t m) ts)
    → All IsWord (map (page_of h) ts)
IsWord-page_of {p} h [] o = tt
IsWord-page_of {p} h (t ∷ ts) o = (
  omega (arith, (o.used (page_of h t) (omega (arith, count-page_of h t))).1),
  IsWord-page_of {p = p} h ts record {
    once = λ m. omega (arith, o.once m);
    used = λ m at_least. o.used m (omega (arith, at_least));
  },
)

-- A tree is still stored when its pages load as before.
abbrev pub Same : Pager → Pager → (ℕ → ℕ) → Type 0
Same p p' times = (m : ℕ) → 1 ≤ times m → node_load p' m ≡ node_load p m

module _ {A : Type 0} (weight : A → ℕ → ℕ) (Holds : Pager → A → Type 0) (p p' : Pager)
    (each : (t : A) → Same p p' (weight t) → Holds p t → Holds p' t) where
  pub All-Same :
      (ts : List A)
      → Same p p' (λ m. total (λ t. weight t m) ts)
      → All (Holds p) ts
      → All (Holds p') ts
  All-Same [] same h = tt
  All-Same (t ∷ ts) same h =
      (each t (λ m one. same m (omega arith)) h.0, All-Same ts (λ m one. same m (omega arith)) h.1)

pub Stored-Same :
    (h : ℕ) (p p' : Pager) (t : TreeOf h) → Same p p' (count h t) → Stored h p t → Stored h p' t
Stored-Same zero p p' t same (s, few, wf, link) =
    (same t.page (count-page_of zero t) ∙ s, few, wf, link)
Stored-Same (suc h) p p' t same (s, few, len, keys, below) = (
  same t.page (count-page_of (suc h) t) ∙ s,
  few,
  len,
  keys,
  All-Same (count h) (Stored h) p p' (Stored-Same h p p') t.children (λ m one. same m (omega arith))
      below,
)

-- The pages of a tree go from `old` to `new`: those that were in use stay the tree's or not, the
-- others were free, and the pages in use that are not the tree's load as before.
pub record Grown (p p' : Pager) (old new : ℕ → ℕ) : Type 0 where
  pub ready : IsReady p'
  pub kept_used : (m : ℕ) → InUse p m → InUse p' m
  pub owned : Owned p' new
  pub as_before : (m : ℕ) → InUse p m → new m ≡ old m
  pub others : (m : ℕ) → InUse p m → m < bitmap_bits → old m ≡ 0 → node_load p' m ≡ node_load p m

pub Grown-trans : {p q r : Pager} {a b c : ℕ → ℕ} → Grown p q a b → Grown q r b c → Grown p r a c
Grown-trans g k = record {
  ready = k.ready;
  kept_used = λ m u. k.kept_used m (g.kept_used m u);
  owned = k.owned;
  as_before = λ m u. k.as_before m (g.kept_used m u) ∙ g.as_before m u;
  others = λ m u l z. k.others m (g.kept_used m u) l (g.as_before m u ∙ z) ∙ g.others m u l z;
}

-- A page of the tree is rewritten.
pub Grown-rewrite :
    {p p' : Pager} {c : ℕ → ℕ} (n : ℕ)
    → Owned p c
    → 1 ≤ c n
    → IsReady p'
    → ((m : ℕ) → m < 2 ^ 31 → m ≢ n → node_load p' m ≡ node_load p m)
    → ((j : ℕ) → InUse p j → InUse p' j)
    → Grown p p' c c
Grown-rewrite {c = c} n o one ready others kept = record {
  ready = ready;
  kept_used = kept;
  owned = record { once = o.once; used = λ m one'. let (u, l) = o.used m one' in (kept m u, l) };
  as_before = λ m u. refl;
  others = λ m u l z. others m (omega arith) (λ same. not_zero (c m) z (rw (same) one));
}
  where
    not_zero : (k : ℕ) → k ≡ 0 → 1 ≤ k → ⊥
    not_zero k z one' = omega arith

-- A page of the tree is split over a fresh page.
pub Grown-split :
    {p p' : Pager} {c : ℕ → ℕ} {a b : BtNode} (n page : ℕ)
    → Owned p c
    → 1 ≤ c n
    → Splits p p' n page a b
    → Grown p p' c (λ m. c m + one_if (page == m))
Grown-split {p} {p'} {c} n page o one s = record {
  ready = s.ready;
  kept_used = s.kept_used;
  owned = record {
    once = λ m. elim (Bool-cases (page == m)) [
      | inl e ↦ rw (e) (omega (arith, o.once m, unused m ((==_iff page m).0 e)))
      | inr e ↦ rw (e) (omega (arith, o.once m))
    ];
    used = λ m some_time. elim (Bool-cases (page == m)) [
      | inl e ↦
          let same = (==_iff page m).0 e in (rw (← same) s.new_used, omega (arith, s.in_range))
      | inr e ↦ let (u, l) = o.used m (ground arith) in (s.kept_used m u, l)
    ];
  };
  as_before = λ m u. elim (Bool-cases (page == m)) [
    | inl e ↦ absurd (s.was_free (rw ((==_iff page m).0 e) u))
    | inr e ↦ rw (e) (omega arith)
  ];
  others = λ m u l z.
      s.others m (omega arith) (λ same. not_zero (c m) z (rw (same) one))
        (λ same. s.was_free (rw (← same) u));
}
  where
    not_zero : (k : ℕ) → k ≡ 0 → 1 ≤ k → ⊥
    not_zero k z one' = omega arith

    unused : (m : ℕ) → page ≡ m → c m ≡ 0
    unused m same = elim (Bool-cases (c m == 0)) [
      | inl z ↦ ground arith
      | inr used ↦ absurd (s.was_free (rw (same) (o.used m (ground arith)).0))
    ]

-- Other counts that are the same numbers.
pub Grown-counts :
    {p q : Pager} {a b a' b' : ℕ → ℕ}
    → ((m : ℕ) → a' m ≡ a m)
    → ((m : ℕ) → b' m ≡ b m)
    → Grown p q a b
    → Grown p q a' b'
Grown-counts ea eb g = record {
  ready = g.ready;
  kept_used = g.kept_used;
  owned = record {
    once = λ m. omega (arith, g.owned.once m, eb m);
    used = λ m one. g.owned.used m (omega (arith, eb m));
  };
  as_before = λ m u. omega (arith, g.as_before m u, ea m, eb m);
  others = λ m u l z. g.others m u l (omega (arith, ea m));
}

-- An insertion below takes place beside other pages of the tree.
pub Grown-beside :
    {p q : Pager} {a b : ℕ → ℕ} (c : ℕ → ℕ)
    → Owned p (λ m. c m + a m)
    → Grown p q a b
    → Grown p q (λ m. c m + a m) (λ m. c m + b m)
Grown-beside {p} {q} {a} {b} c o g = record {
  ready = g.ready;
  kept_used = g.kept_used;
  owned = record {
    once = λ m. elim (beside_or_free m) [
      | inl e ↦ omega (arith, o.once m)
      | inr z ↦ omega (arith, g.owned.once m)
    ];
    used = λ m one. elim (beside_or_free m) [
      | inl e ↦ let (u, l) = o.used m (omega arith) in (g.kept_used m u, l)
      | inr z ↦ g.owned.used m (omega arith)
    ];
  };
  as_before = λ m u. omega (arith, g.as_before m u);
  others = λ m u l z. g.others m u l (omega arith);
}
  where
    beside_or_free : (m : ℕ) → (b m ≡ a m) ⊎ (c m ≡ 0)
    beside_or_free m = elim (Bool-cases (c m == 0)) [
      | inl z ↦ inr (ground arith)
      | inr one ↦ inl (g.as_before m (o.used m (ground arith)).0)
    ]

-- The pages beside load as before.
pub Grown-Same :
    {p q : Pager} {a b : ℕ → ℕ} (c : ℕ → ℕ) → Owned p (λ m. c m + a m) → Grown p q a b → Same p q c
Grown-Same c o g m one =
    let (used, below) = o.used m (omega arith) in g.others m used below (omega (arith, o.once m))
