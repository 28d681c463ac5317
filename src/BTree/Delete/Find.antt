-- ===== src/BTree/Delete/Find.antt =====
-- `find_entry` and the removal from a leaf.
use my_pl.Prelude.{
  ℕ, zero, suc, ◌+◌, ◌≡◌, ◌≢◌, ap, Bool-cases, inl, inr, Bool, true, false, not, ◌||◌, ◌==◌, List,
  [], ◌∷◌, none, some, All, remove_at, arith,
}
use mathlib.Core.List.{Perm}
use mathlib.Core.List.Perm
use my_pl.Prelude.Bytes.{leb_bytes, ltb_bytes, memcmp-eq, memcmp_refl, leb_bytes_refl}
use my_pl.BTree.Node.{Entry}
use my_pl.BTree.Delete.{find_entry}
use my_pl.BTree.Insert.Leaf.{IsSorted}

-- The three tests of the loop on one entry.
abbrev test_past : Entry → Entry → Bool
test_past e d = not (leb_bytes d.key e.key)

abbrev test_before : Entry → Entry → Bool
test_before e d = ltb_bytes d.key e.key

abbrev test_other : Entry → Entry → Bool
test_other e d = not (d.row_page == e.row_page) || not (d.row_offset == e.row_offset)

passes-eq :
    (e d : Entry) → test_past e d ≡ false → test_before e d ≡ false → test_other e d ≡ false → d ≡ e
passes-eq e d a b c = ground (arith, memcmp-eq d.key e.key)

-- The entry at the index that the loop gives is the one asked for: removing it leaves the others.
pub find_entry-perm :
    (e : Entry) (es : List Entry) (i : ℕ) {k : ℕ}
    → find_entry e es i ≡ some k
    → (j : ℕ) × (k ≡ i + j) × Perm es (e ∷ remove_at j es)
unfolding find_entry
find_entry-perm e [] i h = cc
find_entry-perm e (d ∷ es) i {k} h = elim (Bool-cases (test_past e d)) [
  | inl past ↦ absurd (ground arith)
  | inr a ↦ elim (Bool-cases (test_before e d)) [
    | inl before ↦
        let (j, q, s) = find_entry-perm e es (suc i) {k = k} (ground arith) in
        (suc j, omega arith, Perm.trans (Perm.cons d s) (Perm.swap e d (remove_at j es)))
    | inr b ↦ elim (Bool-cases (test_other e d)) [
      | inl other ↦
          let (j, q, s) = find_entry-perm e es (suc i) {k = k} (ground arith) in
          (suc j, omega arith, Perm.trans (Perm.cons d s) (Perm.swap e d (remove_at j es)))
      | inr c ↦ (0, ground arith, rw (passes-eq e d a b c) (Perm.refl _))
    ]
  ]
]

-- Behind an entry that is past the key every entry of a sorted leaf is.
past_all :
    (e d : Entry) (es : List Entry)
    → test_past e d ≡ true
    → All (λ (c : Entry). leb_bytes d.key c.key ≡ true) es
    → All (λ (c : Entry). c ≢ e) es
past_all e d [] h a = tt
past_all e d (c ∷ es) h a =
    (λ q. absurd (ground (arith, ap (λ (x : Entry). x.key) q)), past_all e d es h a.1)

-- Where the search of a sorted leaf finds nothing, no entry of the leaf is the one sought.
pub find_entry-none :
    (e : Entry) (es : List Entry) (i : ℕ)
    → IsSorted es
    → find_entry e es i ≡ none
    → All (λ (c : Entry). c ≢ e) es
unfolding find_entry
find_entry-none e [] i s h = tt
find_entry-none e (d ∷ es) i s h = elim (Bool-cases (test_past e d)) [
  | inl past ↦ (
    λ q. absurd (ground (arith, ap (λ (x : Entry). x.key) q, leb_bytes_refl e.key)),
    past_all e d es past s.0,
  )
  | inr a ↦ elim (Bool-cases (test_before e d)) [
    | inl before ↦ (
      λ q. absurd (ground (arith, ap (λ (x : Entry). x.key) q, memcmp_refl e.key)),
      find_entry-none e es (suc i) s.1 (ground arith),
    )
    | inr b ↦ elim (Bool-cases (test_other e d)) [
      | inl other ↦ (
        λ q.
            absurd (
              ground (arith, ap (λ (x : Entry). x.row_page) q, ap (λ (x : Entry). x.row_offset) q)),
        find_entry-none e es (suc i) s.1 (ground arith),
      )
      | inr c ↦ absurd (ground arith)
    ]
  ]
]

All-remove_at {ℓ} :
    (P : Entry → Type ℓ) (j : ℕ) (es : List Entry) → All P es → All P (remove_at j es)
All-remove_at P j [] a = tt
All-remove_at P zero (d ∷ es) a = a.1
All-remove_at P (suc j) (d ∷ es) a = (a.0, All-remove_at P j es a.1)

remove_at-IsSorted : (j : ℕ) (es : List Entry) → IsSorted es → IsSorted (remove_at j es)
remove_at-IsSorted j [] s = tt
remove_at-IsSorted zero (d ∷ es) s = s.1
remove_at-IsSorted (suc j) (d ∷ es) s = (All-remove_at _ j es s.0, remove_at-IsSorted j es s.1)
