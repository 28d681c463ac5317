-- ===== src/BTree/Insert/Internal.antt =====
-- What an internal node does with a child that was split: it takes the separator in, or is split
-- over a fresh page around its median.
use my_pl.Prelude.{
  ℕ, suc, ◌/◌, ◌^◌, ◌≤◌, ◌<◌, ◌≡◌, ◌≢◌, refl, ◌∙◌, Bool-cases, inl, inr, List, [], ◌∷◌, ◌++◌,
  Option, none, some, length, take, drop, All, insert_at, arith, leb, length-take, length-drop,
  length-insert_at, take-append-drop, All-take, All-drop, All-insert_at, take-get_or-drop,
}
use my_pl.Pager.{Pager, bitmap_bits, allocate_page}
use my_pl.Pager.Alloc.{InUse, allocate_page-Allocated, allocate_page-none}
use my_pl.BTree.Node.{Key, internal, internal_max, node_load}
use my_pl.BTree.Node.RoundTrip.{IsNode, IsKey, IsWord, node_load-node_store}
use my_pl.BTree.Insert.{Inserted, failed, stored, no_fuel, split, split_internal, after_child}
use my_pl.BTree.Insert.Split.{
  IsReady, node_store-IsReady, node_store-InUse, Splits, two_stores-Splits,
}

-- The halves of an internal node that overflowed: the median key stands between them.
pub record InternalHalves (cs : List ℕ) (ks : List Key) (key : Key) (left right : List ℕ)
    (left_keys right_keys : List Key) : Type 0 where
  pub children : left ++ right ≡ cs
  pub keys : left_keys ++ (key ∷ right_keys) ≡ ks
  pub left_count : length left ≡ suc (length left_keys)
  pub right_count : length right ≡ suc (length right_keys)
  pub left_least : 49 ≤ length left_keys
  pub left_most : length left_keys ≤ internal_max
  pub right_least : 49 ≤ length right_keys
  pub right_most : length right_keys ≤ internal_max

-- What an internal node has done with the separator and the page of a split child, by its answer.
abbrev pub InternalOutcome : Pager → ℕ → List ℕ → List Key → Inserted × Pager → Type 0
InternalOutcome p n cs ks (no_fuel, p') = ⊥
InternalOutcome p n cs ks (failed, p') =
    (p' ≡ p) × (length ks ≡ suc internal_max) × ((j : ℕ) → 1 ≤ j → j < bitmap_bits → InUse p j)
InternalOutcome p n cs ks (stored, p') =
    IsReady p'
    × (node_load p' n ≡ some (internal cs ks))
    × ((m : ℕ) → m < 2 ^ 31 → m ≢ n → node_load p' m ≡ node_load p m)
    × ((j : ℕ) → InUse p j → InUse p' j)
    × (length ks ≤ internal_max)
InternalOutcome p n cs ks (split key new_page, p') =
    (left : List ℕ) × (right : List ℕ) × (left_keys : List Key) × (right_keys : List Key)
    × InternalHalves cs ks key left right left_keys right_keys
    × Splits p p' n new_page (internal left left_keys) (internal right right_keys)

module _ (p : Pager) (n : ℕ) (cs : List ℕ) (ks : List Key) where
  split_internal-Outcome :
      (answer : Option ℕ × Pager)
      → allocate_page p ≡ answer
      → IsReady p
      → InUse p n
      → n < bitmap_bits
      → length ks ≡ suc internal_max
      → length cs ≡ suc (length ks)
      → All IsWord cs
      → All IsKey ks
      → InternalOutcome p n cs ks (split_internal n cs ks answer)
  unfolding split_internal
  split_internal-Outcome (none, q) h r used hn full count words keys =
      (cc ((allocate_page-none p).1 (rw h), h), full, (allocate_page-none p).0.0 (rw h))
  split_internal-Outcome (some new_page, q) h r used hn full count words keys =
      let mid = length ks / 2 in
      let al = allocate_page-Allocated {i = new_page} r.valid h in
      let cl = length-take (suc mid) cs in
      let cr = length-drop (suc mid) cs in
      let kl = length-take mid ks in
      let kr = length-drop (suc mid) ks in
      (
        take (suc mid) cs,
        drop (suc mid) cs,
        take mid ks,
        drop (suc mid) ks,
        record {
          children = take-append-drop (suc mid) cs;
          keys = take-get_or-drop mid [] ks (omega arith);
          left_count = omega (arith, cl, kl);
          right_count = omega (arith, cr, kr);
          left_least = omega (arith, kl);
          left_most = omega (arith, kl);
          right_least = omega (arith, kr);
          right_most = omega (arith, kr);
        },
        two_stores-Splits n _ _ r used hn al
            (
              omega (arith, kl),
              omega (arith, cl, kl),
              All-take IsWord (suc mid) cs words,
              All-take IsKey mid ks keys,
            )
            (
              omega (arith, kr),
              omega (arith, cr, kr),
              All-drop IsWord (suc mid) cs words,
              All-drop IsKey (suc mid) ks keys,
            ),
      )

module _ (p : Pager) (n : ℕ) (cs : List ℕ) (ks : List Key) (i : ℕ) (key : Key) (page : ℕ) where
  -- A split child gives its parent, an internal node on a page in use of a valid pager, a
  -- separator at place `i` and a child behind it. With room the parent is rewritten with both. A
  -- full parent is split over a fresh page: the median separator moves up, its neighbours are the
  -- two halves, each of at least 49 separators and within the capacity, and nothing is lost or reordered. Without a free
  -- page the pager stays as the child left it. No other page
  -- changes or is freed.
  pub after_child-InternalOutcome :
      IsReady p
      → InUse p n
      → n < bitmap_bits
      → IsNode (internal cs ks)
      → IsKey key
      → IsWord page
      → InternalOutcome p n
          (insert_at (suc i) page cs)
          (insert_at i key ks)
          (after_child n cs ks i (split key page, p))
  unfolding after_child
  after_child-InternalOutcome r used hn (few, count, words, keys) hk hp =
      let lc = length-insert_at (suc i) page cs in
      let lk = length-insert_at i key ks in
      let words' = All-insert_at IsWord (suc i) page cs hp words in
      let keys' = All-insert_at IsKey i key ks hk keys in
      elim (Bool-cases (leb (length (insert_at i key ks)) internal_max)) [
        | inl room ↦
            let loads = λ (m : ℕ) (hm : m < 2 ^ 31).
              node_load-node_store p n m (internal (insert_at (suc i) page cs) (insert_at i key ks))
                r.valid r.fits hn hm (ground arith, omega (arith, lc, lk), words', keys') in
            rw room (
              node_store-IsReady p n _ r hn,
              loads n (omega arith) ∙ ground arith,
              λ m hm ne. loads m hm ∙ ground arith,
              λ j. node_store-InUse p n j _ r hn,
              ground arith,
            )
        | inr full ↦ rw full (
            split_internal-Outcome p n _ _ (allocate_page p) refl r used hn (ground (arith, lk))
              (omega (arith, lc, lk)) words' keys')
      ]
