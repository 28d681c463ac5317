-- ===== src/BTree/Scan/Chain.antt =====
-- A scan over a chain of sorted leaves reports exactly the entries within its bounds, in order.
use my_pl.Prelude.{
  ℕ, zero, suc, ◌≤◌, ◌≡◌, ◌≢◌, refl, ap, sym, ◌∙◌, Bool-cases, inl, inr, Bool, true, false, not,
  ◌&&◌, List, [], ◌∷◌, ◌++◌, map, append_assoc, append-nil, Option-cases, none, some, length, All,
  arith, if◌then◌else◌,
}
use mathlib.Core.List.{map-append}
use mathlib.Core.Path.{fun_ext}
use my_pl.Prelude.Bytes.{leb_bytes, ltb_bytes, leb_bytes_trans, ltb_bytes-swap, memcmp-swap}
use my_pl.Pager.{Pager}
use my_pl.BTree.Node.{Key, Entry, leaf, node_load}
use my_pl.BTree.Insert.Leaf.{IsSorted}
use my_pl.BTree.Scan.{
  Bound, Locator, locator, is_below, is_above, visit_eq, visit_range, Scanned, scanned, scan_chain,
}

-- The keys that are at least a lower bound, or greater than one that is not inclusive; and those
-- that are at most an upper bound, or less.
abbrev pub at_least : Bound → Key → Bool
at_least none k = true
at_least (some (lo, true)) k = leb_bytes lo k
at_least (some (lo, false)) k = ltb_bytes lo k

abbrev pub at_most : Bound → Key → Bool
at_most none k = true
at_most (some (hi, true)) k = leb_bytes k hi
at_most (some (hi, false)) k = ltb_bytes k hi

-- The entries within the bounds, in order.
abbrev pub selected : Bound → Bound → List Entry → List Entry
selected lo hi [] = []
selected lo hi (e ∷ es) =
    if at_least lo e.key && at_most hi e.key then e ∷ selected lo hi es else selected lo hi es

pub at_least-is_below : (lo : Bound) (k : Key) → at_least lo k ≡ not (is_below lo k)
unfolding is_below
at_least-is_below none k = refl
at_least-is_below (some (lo, true)) k = ground (arith, memcmp-swap lo k)
at_least-is_below (some (lo, false)) k = ground (arith, memcmp-swap lo k)

pub at_most-is_above : (hi : Bound) (k : Key) → at_most hi k ≡ not (is_above hi k)
unfolding is_above
at_most-is_above none k = refl
at_most-is_above (some (hi, true)) k = ground (arith, memcmp-swap hi k)
at_most-is_above (some (hi, false)) k = ground (arith, memcmp-swap hi k)

append-eq_nil : {A : Type 0} (xs ys : List A) → xs ++ ys ≡ [] → (xs ≡ []) × (ys ≡ [])
append-eq_nil [] ys h = (refl, h)
append-eq_nil (x ∷ xs) ys h = cc

module _ (lo hi : Bound) where
  pub selected-append :
      (xs ys : List Entry) → selected lo hi (xs ++ ys) ≡ selected lo hi xs ++ selected lo hi ys
  selected-append [] ys = refl
  selected-append (x ∷ xs) ys = ground (arith, selected-append xs ys)

  is_above_mono : (a b : Key) → leb_bytes a b ≡ true → is_above hi a ≡ true → is_above hi b ≡ true
  unfolding is_above
  is_above_mono a b h k = mono hi k
    where
      mono : (hi : Bound) → is_above hi a ≡ true → is_above hi b ≡ true
      mono none k = k
      mono (some (t, inclusive)) k = ground (
        arith,
        ltb_bytes-swap t a,
        ltb_bytes-swap t b,
        ltb_bytes-swap a t,
        ltb_bytes-swap b t,
        leb_bytes_trans a b t h,
        leb_bytes_trans t a b,
      )

  none_selected :
      (e : Entry) (es : List Entry)
      → is_above hi e.key ≡ true
      → All (λ (d : Entry). leb_bytes e.key d.key ≡ true) es
      → selected lo hi es ≡ []
  none_selected e [] h a = refl
  none_selected e (d ∷ es) h a =
      ground (
        arith,
        none_selected e es h a.1,
        is_above_mono e.key d.key a.0 h,
        at_most-is_above hi d.key,
      )

  visit_range-selected :
      (es rest : List Entry)
      → IsSorted (es ++ rest)
      → ((visit_range lo hi es).0 ≡ map locator (selected lo hi es))
        × ((visit_range lo hi es).1 ≡ true → selected lo hi rest ≡ [])
  unfolding visit_range
  visit_range-selected [] rest s = (refl, λ h. cc)
  visit_range-selected (e ∷ es) rest s =
      let (found, stop) = visit_range-selected es rest s.1 in
      rw (at_least-is_below lo e.key, at_most-is_above hi e.key)
        (elim (Bool-cases (is_below lo e.key)) [
          | inl below ↦ rw below (found, stop)
          | inr inside ↦ elim (Bool-cases (is_above hi e.key)) [
            | inl above ↦
                let later =
                  sym (selected-append es rest) ∙ none_selected e (es ++ rest) above s.0 in
                let (here, there) = append-eq_nil (selected lo hi es) (selected lo hi rest) later in
                rw (inside, above) (rw here, λ h. there)
            | inr below ↦ rw (inside, below) (ap (◌∷◌ (locator e)) found, stop)
          ]
        ])

-- The leaves from page `n` on, along their links to the end of the chain.
pub data Chain (p : Pager) : ℕ → List (List Entry) → Type 0 where
  end : {n : ℕ} → n ≡ 0 → Chain p n []
  link :
      {n next : ℕ} {es : List Entry} {rest : List (List Entry)}
      → n ≢ 0
      → node_load p n ≡ some (leaf es next)
      → Chain p next rest
      → Chain p n (es ∷ rest)

abbrev pub concat : List (List Entry) → List Entry
concat [] = []
concat (es ∷ rest) = es ++ concat rest

pub IsSorted-append_right : (xs ys : List Entry) → IsSorted (xs ++ ys) → IsSorted ys
IsSorted-append_right [] ys s = s
IsSorted-append_right (x ∷ xs) ys s = IsSorted-append_right xs ys s.1

-- What a scan between two bounds should report of a list of leaves.
abbrev pub reports : Bound → Bound → List (List Entry) → List Locator
reports lo hi leaves = map locator (selected lo hi (concat leaves))

module _ (lo hi : Bound) (p : Pager) where
  reports-cons :
      (es : List Entry) (rest : List (List Entry))
      → reports lo hi (es ∷ rest) ≡ map locator (selected lo hi es) ++ reports lo hi rest
  reports-cons es rest =
      ap (map locator) (selected-append lo hi es (concat rest))
      ∙ map-append locator (selected lo hi es) (selected lo hi (concat rest))

  abbrev finished : List Locator → Scanned
  finished seen = scanned (length seen) seen

  scan_chain-end :
      (visit : List Entry → List Locator × Bool) (fuel n : ℕ) (seen : List Locator)
      → n ≡ 0
      → scan_chain visit fuel p n seen ≡ finished seen
  unfolding scan_chain
  scan_chain-end visit zero n seen e = rw e
  scan_chain-end visit (suc fuel) n seen e = elim (Option-cases (node_load p n)) [
    | inl gone ↦ rw (scan_chain, gone) (ground arith)
    | inr (node, loads) ↦ rw (scan_chain, loads) (ground arith)
  ]

  scan_chain-link :
      (visit : List Entry → List Locator × Bool) (fuel n next : ℕ) (es : List Entry)
      (seen : List Locator)
      → n ≢ 0
      → node_load p n ≡ some (leaf es next)
      → scan_chain visit (suc fuel) p n seen ≡ (
          if (visit es).1
          then finished (seen ++ (visit es).0)
          else scan_chain visit fuel p next (seen ++ (visit es).0))
  unfolding scan_chain
  scan_chain-link visit fuel n next es seen ne loads = rw (scan_chain, loads) (ground arith)

  -- The scan of a chain of leaves, sorted from its first leaf to its last, ends within one round for
  -- each leaf, and reports exactly the entries within the bounds, in order and each once. Its result
  -- is their number, added to that of what was seen before.
  pub scan_chain-reports :
      (leaves : List (List Entry)) (fuel : ℕ) {n : ℕ} (seen : List Locator)
      → Chain p n leaves
      → IsSorted (concat leaves)
      → length leaves ≤ fuel
      → scan_chain (visit_range lo hi) fuel p n seen
        ≡ scanned (length (seen ++ reports lo hi leaves)) (seen ++ reports lo hi leaves)
  scan_chain-reports [] fuel {n} seen (end e) s h =
      rw append-nil (scan_chain-end (visit_range lo hi) fuel n seen e)
  scan_chain-reports (es ∷ rest) zero seen c s h = absurd (omega arith)
  scan_chain-reports (es ∷ rest) (suc fuel) {n} seen (link {next = next} ne loads more) s h =
      let (found, stop) = visit_range-selected lo hi es (concat rest) s in
      let step = scan_chain-link (visit_range lo hi) fuel n next es seen ne loads in
      let later = IsSorted-append_right es (concat rest) s in
      elim (Bool-cases (visit_range lo hi es).1) [
        | inl done ↦ step ∙ rw (done, found, reports-cons, stop done, append-nil)
        | inr on ↦
            step
            ∙ rw (on, found, reports-cons, ← append_assoc)
                (scan_chain-reports rest fuel _ more later (omega arith))
      ]

-- The scan for one key is the scan from that key to that key.
visit_eq-range :
    (key : Key) (es : List Entry)
    → visit_eq key es ≡ visit_range (some (key, true)) (some (key, true)) es
unfolding visit_eq visit_range
visit_eq-range key [] = refl
visit_eq-range key (e ∷ es) = ground (
  arith,
  visit_eq-range key es,
  ltb_bytes-swap key e.key,
  ltb_bytes-swap e.key key,
  memcmp-swap e.key key,
)

-- The scan for one key of a chain of leaves, sorted from its first leaf to its last, ends within
-- one round for each leaf, reports exactly the entries of the key, in order and each once, and
-- counts them.
pub scan_chain-reports_eq :
    (p : Pager) (key : Key) (leaves : List (List Entry)) (fuel : ℕ) {n : ℕ}
    → Chain p n leaves
    → IsSorted (concat leaves)
    → length leaves ≤ fuel
    → let found = reports (some (key, true)) (some (key, true)) leaves in
      scan_chain (visit_eq key) fuel p n [] ≡ scanned (length found) found
scan_chain-reports_eq p key leaves fuel c s h =
    rw (fun_ext (visit_eq-range key))
      (scan_chain-reports (some (key, true)) (some (key, true)) p leaves fuel [] c s h)
