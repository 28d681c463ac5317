-- ===== src/BTree/Insert/Leaf.antt =====
-- `leaf_insert`: a new entry goes behind every entry whose key is not greater.
use my_pl.Prelude.{
  suc, ◌≡◌, Bool-cases, inl, inr, true, List, [], ◌∷◌, length, All, length-insert_at, arith,
  if◌then◌else◌,
}
use mathlib.Core.List.{Perm}
use mathlib.Core.List.Perm
use my_pl.Prelude.Bytes.{leb_bytes, leb_bytes_trans, leb_bytes_total}
use my_pl.BTree.Node.{Entry}
use my_pl.BTree.Insert.{upper_pos, leaf_insert}

-- Sorted by key; entries of one key may stand in any order.
abbrev pub IsSorted : List Entry → Type 0
IsSorted [] = Unit
IsSorted (e ∷ es) = All (λ (d : Entry). leb_bytes e.key d.key ≡ true) es × IsSorted es

pub leaf_insert-cons :
    (e d : Entry) (es : List Entry)
    → leaf_insert e (d ∷ es) ≡ (if leb_bytes d.key e.key then d ∷ leaf_insert e es else e ∷ d ∷ es)
unfolding leaf_insert upper_pos
leaf_insert-cons e d es = ground arith

All_le_trans :
    (e d : Entry) (es : List Entry)
    → leb_bytes e.key d.key ≡ true
    → All (λ (c : Entry). leb_bytes d.key c.key ≡ true) es
    → All (λ (c : Entry). leb_bytes e.key c.key ≡ true) es
All_le_trans e d [] h a = tt
All_le_trans e d (c ∷ es) h a = (leb_bytes_trans e.key d.key c.key h a.0, All_le_trans e d es h a.1)

pub All-leaf_insert {ℓ} :
    (P : Entry → Type ℓ) (e : Entry) (es : List Entry) → P e → All P es → All P (leaf_insert e es)
unfolding leaf_insert upper_pos
All-leaf_insert P e [] h a = (h, tt)
All-leaf_insert P e (d ∷ es) h a = elim (Bool-cases (leb_bytes d.key e.key)) [
  | inl before ↦ rw before (a.0, All-leaf_insert P e es h a.1)
  | inr after ↦ rw after (h, a)
]

-- Inserting into a sorted leaf leaves it sorted.
pub leaf_insert-IsSorted : (e : Entry) (es : List Entry) → IsSorted es → IsSorted (leaf_insert e es)
leaf_insert-IsSorted e [] h = unfold leaf_insert upper_pos in (tt, tt)
leaf_insert-IsSorted e (d ∷ es) h = elim (Bool-cases (leb_bytes d.key e.key)) [
  | inl before ↦
      rw (leaf_insert-cons, before)
        (All-leaf_insert _ e es before h.0, leaf_insert-IsSorted e es h.1)
  | inr after ↦
      let le = leb_bytes_total d.key e.key after in
      rw (leaf_insert-cons, after) ((le, All_le_trans e d es le h.0), h)
]

-- Inserting keeps every entry, adds the new one, and does nothing else.
pub leaf_insert-perm : (e : Entry) (es : List Entry) → Perm (leaf_insert e es) (e ∷ es)
leaf_insert-perm e [] = unfold leaf_insert upper_pos in Perm.refl _
leaf_insert-perm e (d ∷ es) = elim (Bool-cases (leb_bytes d.key e.key)) [
  | inl before ↦
      rw (leaf_insert-cons, before)
        (Perm.trans (Perm.cons d (leaf_insert-perm e es)) (Perm.swap e d es))
  | inr after ↦ rw (leaf_insert-cons, after) (Perm.refl _)
]

pub length-leaf_insert : (e : Entry) (es : List Entry) → length (leaf_insert e es) ≡ suc (length es)
unfolding leaf_insert
length-leaf_insert e es = length-insert_at (upper_pos e.key es) e es
