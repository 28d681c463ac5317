-- ===== src/BTree/Tree/Bounds.antt =====
-- The order of a search tree: its entries are sorted, and it can be cut at a separator.
use my_pl.Prelude.{
  ℕ, zero, suc, ◌≡◌, true, List, [], ◌∷◌, ◌++◌, Option, none, some, length, All, All-append,
  append-nil, arith,
}
use my_pl.Prelude.Bytes.{leb_bytes, leb_bytes_trans}
use my_pl.BTree.Node.{Key, Entry}
use my_pl.BTree.Insert.Leaf.{IsSorted}
use my_pl.BTree.Tree.{TreeOf, items, items_all, AtLeast, AtMost, Within, Ordered, OrderedAll}

pub AtLeast-trans :
    (lo : Option Key) (k x : Key) → AtLeast lo k → leb_bytes k x ≡ true → AtLeast lo x
AtLeast-trans none k x h le = tt
AtLeast-trans (some lo) k x h le = leb_bytes_trans lo k x h le

pub AtMost-trans : (hi : Option Key) (k x : Key) → AtMost hi k → leb_bytes x k ≡ true → AtMost hi x
AtMost-trans none k x h le = tt
AtMost-trans (some hi) k x h le = leb_bytes_trans x k hi le h

module _ {ℓ} {A : Type ℓ} where
  pub All-map_of {κ μ} :
      {P : A → Type κ} {Q : A → Type μ} (xs : List A) → ((x : A) → P x → Q x) → All P xs → All Q xs
  All-map_of [] f h = tt
  All-map_of (x ∷ xs) f h = (f x h.0, All-map_of xs f h.1)

abbrev pub EntryWithin : Option Key → Option Key → Entry → Type 0
EntryWithin lo hi e = Within lo hi e.key

widen_right :
    (lo hi : Option Key) (k : Key) (es : List Entry)
    → Within lo hi k
    → All (EntryWithin lo (some k)) es
    → All (EntryWithin lo hi) es
widen_right lo hi k es w h = All-map_of es (λ e b. (b.0, AtMost-trans hi k e.key w.1 b.1)) h

widen_left :
    (lo hi : Option Key) (k : Key) (es : List Entry)
    → Within lo hi k
    → All (EntryWithin (some k) hi) es
    → All (EntryWithin lo hi) es
widen_left lo hi k es w h = All-map_of es (λ e b. (AtLeast-trans lo k e.key w.0 b.0, b.1)) h

IsSorted-append :
    (k : Key) (xs ys : List Entry)
    → IsSorted xs
    → IsSorted ys
    → All (λ (e : Entry). leb_bytes e.key k ≡ true) xs
    → All (λ (e : Entry). leb_bytes k e.key ≡ true) ys
    → IsSorted (xs ++ ys)
IsSorted-append k [] ys sx sy below above = sy
IsSorted-append k (x ∷ xs) ys sx sy below above = (
  All-append _ xs ys sx.0 (All-map_of ys (λ e le. leb_bytes_trans x.key k e.key below.0 le) above),
  IsSorted-append k xs ys sx.1 sy below.1 above,
)

-- What the entries of a tree between two bounds are.
abbrev pub SortedWithin : Option Key → Option Key → List Entry → Type 0
SortedWithin lo hi es = IsSorted es × All (EntryWithin lo hi) es

module _ {A : Type 0} (entries : A → List Entry) (InOrder : Option Key → Option Key → A → Type 0)
    (each : (lo hi : Option Key) (t : A) → InOrder lo hi t → SortedWithin lo hi (entries t)) where
  pub items_all-SortedWithin :
      (lo hi : Option Key) (ks : List Key) (ts : List A)
      → OrderedAll InOrder lo hi ks ts
      → SortedWithin lo hi (items_all entries ts)
  items_all-SortedWithin lo hi [] [] h = absurd h
  items_all-SortedWithin lo hi [] (t ∷ []) h = let (s, w) = each lo hi t h in rw (append-nil) (s, w)
  items_all-SortedWithin lo hi [] (t ∷ u ∷ ts) h = absurd h
  items_all-SortedWithin lo hi (k ∷ ks) [] h = absurd h
  items_all-SortedWithin lo hi (k ∷ ks) (t ∷ ts) (w, o, rest) =
      let (s, b) = each lo (some k) t o in
      let (s', b') = items_all-SortedWithin (some k) hi ks ts rest in
      (
        IsSorted-append k (entries t) (items_all entries ts) s s'
            (All-map_of (entries t) (λ e p. p.1) b)
            (All-map_of (items_all entries ts) (λ e p. p.0) b'),
        All-append _ (entries t) (items_all entries ts) (widen_right lo hi k _ w b)
            (widen_left lo hi k _ w b'),
      )

-- The entries of a search tree are sorted and lie between its bounds.
pub Ordered-SortedWithin :
    (h : ℕ) (lo hi : Option Key) (t : TreeOf h) → Ordered h lo hi t → SortedWithin lo hi (items h t)
Ordered-SortedWithin zero lo hi t o = o
Ordered-SortedWithin (suc h) lo hi t o =
    items_all-SortedWithin (items h) (Ordered h) (Ordered-SortedWithin h) lo hi t.separators
      t.children o

-- Children in order, cut at a separator.
pub OrderedAll-cut :
    {A : Type 0} (InOrder : Option Key → Option Key → A → Type 0) (lo hi : Option Key)
    (ks : List Key) (k : Key) (ks' : List Key) (ts ts' : List A)
    → length ts ≡ suc (length ks)
    → OrderedAll InOrder lo hi (ks ++ (k ∷ ks')) (ts ++ ts')
    → Within lo hi k × OrderedAll InOrder lo (some k) ks ts × OrderedAll InOrder (some k) hi ks' ts'
OrderedAll-cut InOrder lo hi ks k ks' [] ts' len o = absurd (omega arith)
OrderedAll-cut InOrder lo hi [] k ks' (t ∷ []) ts' len o = o
OrderedAll-cut InOrder lo hi [] k ks' (t ∷ u ∷ ts) ts' len o = absurd (omega arith)
OrderedAll-cut InOrder lo hi (j ∷ ks) k ks' (t ∷ ts) ts' len (w, o, rest) =
    let (w', left, right) = OrderedAll-cut InOrder (some j) hi ks k ks' ts ts' (omega arith) rest in
    ((AtLeast-trans lo j k w.0 w'.0, w'.1), ((w.0, w'.0), o, left), right)
