-- ===== src/BTree/Tree/Search.antt =====
-- `find_leaf` and `leftmost_leaf` on a search tree: where they arrive in the chain of its leaves.
use my_pl.Prelude.{
  ℕ, zero, suc, ◌+◌, ◌≤◌, ◌<◌, ◌≡◌, ◌≢◌, refl, sym, ap, ◌∙◌, true, false, List, [], ◌∷◌, ◌++◌,
  Option, some, All, All-append, All-append_parts, append_assoc, append-nil, length-append, get_or,
  arith, length,
}
use my_pl.Prelude.Bytes.{leb_bytes}
use my_pl.Prelude.Int.{is_positive}
use my_pl.Pager.{Pager}
use my_pl.BTree.Node.{Key, Entry, leaf, internal, node_load}
use my_pl.BTree.Insert.{child_index}
use my_pl.BTree.Scan.{find_leaf}
use my_pl.BTree.Scan.Chain.{Chain, link, concat}
use my_pl.BTree.Tree.{
  TreeOf, page_of, items, items_all, total, count, Stored, Owned, Within, Ordered, first_of,
  first_leaf, Linked, LinkedAll,
}
use my_pl.BTree.Tree.Bounds.{Ordered-SortedWithin}
use my_pl.BTree.Tree.Footprint.{count-page_of, total-append}
use my_pl.BTree.Tree.Descent.{Around, around}
use my_pl.BTree.Tree.Links.{LinkedAll-parts, first_of-some}
use my_pl.BTree.Tree.Branches.{items_all-append}
use my_pl.BTree.Tree.Child.{child_stored, child-Owned, child_page, count-child}

abbrev pub leaves_all {ℓ} : {A : Type ℓ} → (A → List (List Entry)) → List A → List (List Entry)
leaves_all leaves_of [] = []
leaves_all leaves_of (t ∷ ts) = leaves_of t ++ leaves_all leaves_of ts

-- The leaves from left to right.
abbrev pub leaves : (h : ℕ) → TreeOf h → List (List Entry)
leaves zero t = t.entries ∷ []
leaves (suc h) t = leaves_all (leaves h) t.children

concat-append : (xs ys : List (List Entry)) → concat (xs ++ ys) ≡ concat xs ++ concat ys
concat-append [] ys = refl
concat-append (es ∷ xs) ys =
    rw (concat-append xs ys) (sym (append_assoc es (concat xs) (concat ys)))

concat-leaves_all :
    {A : Type 0} (leaves_of : A → List (List Entry)) (items_of : A → List Entry)
    → ((t : A) → concat (leaves_of t) ≡ items_of t)
    → (ts : List A) → concat (leaves_all leaves_of ts) ≡ items_all items_of ts
concat-leaves_all leaves_of items_of each [] = refl
concat-leaves_all leaves_of items_of each (t ∷ ts) = rw (
  concat-append (leaves_of t) (leaves_all leaves_of ts),
  each t,
  concat-leaves_all leaves_of items_of each ts,
)

pub concat-leaves : (h : ℕ) (t : TreeOf h) → concat (leaves h t) ≡ items h t
concat-leaves zero t = append-nil t.entries
concat-leaves (suc h) t = concat-leaves_all (leaves h) (items h) (concat-leaves h) t.children

-- The chain from the first leaf of a tree, whatever it is linked to behind.
module _ {A : Type 0} (p : Pager) (first : A → ℕ) (leaves_of : A → List (List Entry))
    (IsLinked : ℕ → A → Type 0) (times : A → ℕ) (Holds : A → Type 0)
    (each : (t : A) (out : ℕ) (tail : List (List Entry))
      → Holds t
      → IsLinked out t
      → times t ≡ 0
      → Chain p out tail
      → Chain p (first t) (leaves_of t ++ tail)) where
  Chain-all :
      (ts : List A) (out : ℕ) (tail : List (List Entry))
      → All Holds ts
      → LinkedAll first IsLinked out ts
      → total times ts ≡ 0
      → Chain p out tail
      → Chain p (first_of first ts out) (leaves_all leaves_of ts ++ tail)
  Chain-all [] out tail s l z c = c
  Chain-all (t ∷ ts) out tail s l z c = rw (append_assoc) (
      each t (first_of first ts out) (leaves_all leaves_of ts ++ tail) s.0 l.0 (omega (arith, z))
        (Chain-all ts out tail s.1 l.1 (omega (arith, z)) c))

pub leaves-Chain :
    (h : ℕ) (p : Pager) (t : TreeOf h) (out : ℕ) (tail : List (List Entry))
    → Stored h p t
    → Linked h out t
    → count h t 0 ≡ 0
    → Chain p out tail
    → Chain p (first_leaf h t) (leaves h t ++ tail)
leaves-Chain zero p t out tail s l z c = link (λ e. absurd (ground (arith, z, e))) s.0 (rw (l) c)
leaves-Chain (suc h) p t out tail s l z c =
    let (loads, few, len, keys, below) = s in
    rw (first_of-some (first_leaf h) (Linked h) t.children 0 out (omega (arith, len))) (
      Chain-all p (first_leaf h) (leaves h) (Linked h) (λ u. count h u 0) (Stored h p)
        (leaves-Chain h p) t.children out tail below l (omega (arith, z)) c)

-- Leaf page `n` is where the entries that are not less than the key begin.
pub record Arrives (h : ℕ) (p : Pager) (t : TreeOf h) (key : Key) (n : ℕ) : Type 0 where
  pub not_zero : n ≢ 0
  pub skipped : List Entry
  pub rest : List (List Entry)
  pub all_items : items h t ≡ skipped ++ concat rest
  pub all_less : All (λ (d : Entry). leb_bytes key d.key ≡ false) skipped
  pub few : length rest ≤ length (leaves h t)
  pub chain :
      (out : ℕ) (tail : List (List Entry))
      → Linked h out t
      → Chain p out tail
      → Chain p n (rest ++ tail)

abbrev entry_of : Key → Entry
entry_of key = record { key = key; row_page = 0; row_offset = 0 }

Arrives-leaf :
    (p : Pager) (t : TreeOf zero) (key : Key)
    → Stored zero p t
    → count zero t 0 ≡ 0
    → Arrives zero p t key t.page
Arrives-leaf p t key s z = record {
  not_zero = λ e. absurd (ground (arith, z, e));
  skipped = [];
  rest = t.entries ∷ [];
  all_items = sym (append-nil t.entries);
  all_less = tt;
  few = omega arith;
  chain = λ out tail l c. link (λ e. absurd (ground (arith, z, e))) s.0 (rw (l) c);
}

leaves_all-append :
    {A : Type 0} (leaves_of : A → List (List Entry)) (ts us : List A)
    → length (leaves_all leaves_of (ts ++ us))
      ≡ length (leaves_all leaves_of ts) + length (leaves_all leaves_of us)
leaves_all-append leaves_of [] us = omega arith
leaves_all-append leaves_of (t ∷ ts) us = omega (
  arith,
  leaves_all-append leaves_of ts us,
  length-append (leaves_of t) (leaves_all leaves_of (ts ++ us)),
  length-append (leaves_of t) (leaves_all leaves_of ts),
)

module _ (h : ℕ) (p : Pager) (lo hi : Option Key) (key : Key) (t : TreeOf (suc h))
    (a : Around (Ordered h) (items h) lo hi (entry_of key) t.separators t.children)
    (s : Stored (suc h) p t) (z : count (suc h) t 0 ≡ 0) where
  no_zero : total (λ u. count h u 0) a.back ≡ 0
  no_zero = omega (
    arith,
    z,
    ap (total (λ u. count h u 0)) a.children_are,
    total-append (λ u. count h u 0) a.front (a.child ∷ a.back),
  )

  Arrives-below : (n : ℕ) → Arrives h p a.child key n → Arrives (suc h) p t key n
  Arrives-below n f = record {
    not_zero = f.not_zero;
    skipped = items_all (items h) a.front ++ f.skipped;
    rest = f.rest ++ leaves_all (leaves h) a.back;
    all_items =
        ap (items_all (items h)) a.children_are
        ∙ items_all-append (items h) a.front (a.child ∷ a.back)
        ∙ rw
            (
              f.all_items,
              concat-append f.rest (leaves_all (leaves h) a.back),
              concat-leaves_all (leaves h) (items h) (concat-leaves h) a.back,
            )
            (simp append_assoc);
    all_less = All-append _ (items_all (items h) a.front) f.skipped a.before_e f.all_less;
    few = omega (
      arith,
      f.few,
      length-append f.rest (leaves_all (leaves h) a.back),
      ap (λ us. length (leaves_all (leaves h) us)) a.children_are,
      leaves_all-append (leaves h) a.front (a.child ∷ a.back),
      length-append (leaves h a.child) (leaves_all (leaves h) a.back),
    );
    chain = λ out tail l c.
        let (_, (to_back, within_back)) =
          LinkedAll-parts (first_leaf h) (Linked h) a.front (a.child ∷ a.back) out
            (rw (← a.children_are) l) in
        let (_, (_, back)) =
          All-append_parts (Stored h p) a.front (a.child ∷ a.back) (rw (← a.children_are) s.4) in
        rw (append_assoc) (
          f.chain (first_of (first_leaf h) a.back out) (leaves_all (leaves h) a.back ++ tail)
            to_back
            (Chain-all p (first_leaf h) (leaves h) (Linked h) (λ u. count h u 0) (Stored h p)
              (leaves-Chain h p) a.back out tail back within_back no_zero c));
  }

pub page-is_positive :
    (h : ℕ) (p : Pager) (t : TreeOf h)
    → Owned p (count h t)
    → count h t 0 ≡ 0
    → is_positive (page_of h t) ≡ true
page-is_positive h p t o z =
    let (_, l) = o.used (page_of h t) (count-page_of h t) in
    let not_zero : page_of h t ≢ 0 =
      λ e. no (coe 0 1 (i. 1 ≤ count h t (e i)) (count-page_of h t)) in
    grind (arith, l, not_zero)
  where
    no : 1 ≤ count h t 0 → ⊥
    no one = omega (arith, one, z)

find_leaf-leaf :
    (fuel : ℕ) (p : Pager) (n : ℕ) (key : Key) {es : List Entry} {next : ℕ}
    → node_load p n ≡ some (leaf es next)
    → find_leaf (suc fuel) p n key ≡ some n
unfolding find_leaf
find_leaf-leaf fuel p n key loads = rw (find_leaf, loads)

find_leaf-internal :
    (fuel : ℕ) (p : Pager) (n : ℕ) (key : Key) {cs : List ℕ} {ks : List Key} {child : ℕ}
    → node_load p n ≡ some (internal cs ks)
    → get_or cs (child_index key ks) 0 ≡ child
    → is_positive child ≡ true
    → find_leaf (suc fuel) p n key ≡ find_leaf fuel p child key
unfolding find_leaf
find_leaf-internal fuel p n key loads at positive = rw (find_leaf, loads, at, positive)

-- With fuel for more than the height, the descent for a key in a search tree ends on a leaf. The
-- entries of the leaves before are all less than the key; from there the chain runs through the
-- others in order.
pub find_leaf-Arrives :
    (h fuel : ℕ) (p : Pager) (lo hi : Option Key) (t : TreeOf h) (key : Key)
    → h < fuel
    → Owned p (count h t)
    → Stored h p t
    → Ordered h lo hi t
    → Within lo hi key
    → count h t 0 ≡ 0
    → (n : ℕ) × (find_leaf fuel p (page_of h t) key ≡ some n) × Arrives h p t key n
find_leaf-Arrives h zero p lo hi t key deep owned s o w z = absurd (omega arith)
find_leaf-Arrives zero (suc fuel) p lo hi t key deep owned s o w z =
    (t.page, find_leaf-leaf fuel p t.page key s.0, Arrives-leaf p t key s z)
find_leaf-Arrives (suc h) (suc fuel) p lo hi t key deep owned s o w z =
    let e = entry_of key in
    let a =
      around (items h) (Ordered h) (Ordered-SortedWithin h) e lo hi t.separators t.children w o in
    let below-Owned = child-Owned h p lo hi e t a owned s in
    let z' : count h a.child 0 ≡ 0 = omega (arith, z, count-child h p lo hi e t a owned s 0) in
    let (n, found, f) =
      find_leaf-Arrives h fuel p a.low a.high a.child key (omega arith) below-Owned
        (child_stored h p lo hi e t a owned s) a.in_order a.within z' in
    let positive = page-is_positive h p a.child below-Owned z' in
    (
      n,
      find_leaf-internal fuel p t.page key s.0 (child_page h p lo hi e t a owned s) positive
          ∙ found,
      Arrives-below h p lo hi key t a s z n f,
    )
