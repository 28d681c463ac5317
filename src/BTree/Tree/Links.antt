-- ===== src/BTree/Tree/Links.antt =====
-- The chain of leaves when a part of a tree is replaced.
use my_pl.Prelude.{ℕ, ◌≤◌, arith, length, ◌≡◌, refl, sym, ap, ◌∙◌, List, [], ◌∷◌, ◌++◌}
use my_pl.BTree.Tree.{TreeOf, first_of, first_leaf, Linked, LinkedAll}

module _ {A : Type 0} (first : A → ℕ) (IsLinked : ℕ → A → Type 0) where
  pub first_of-append :
      (ts us : List A) (out : ℕ)
      → first_of first (ts ++ us) out ≡ first_of first ts (first_of first us out)
  first_of-append [] us out = refl
  first_of-append (t ∷ ts) us out = refl

  pub first_of-some :
      (ts : List A) (out out' : ℕ) → 1 ≤ length ts → first_of first ts out ≡ first_of first ts out'
  first_of-some [] out out' h = absurd (omega arith)
  first_of-some (t ∷ ts) out out' h = refl

  pub LinkedAll-parts :
      (ts us : List A) (out : ℕ)
      → LinkedAll first IsLinked out (ts ++ us)
      → LinkedAll first IsLinked (first_of first us out) ts × LinkedAll first IsLinked out us
  LinkedAll-parts [] us out l = (tt, l)
  LinkedAll-parts (t ∷ ts) us out (l, ls) =
      let (a, b) = LinkedAll-parts ts us out ls in ((rw (← first_of-append ts us out) l, a), b)

  pub LinkedAll-append :
      (ts us : List A) (out : ℕ)
      → LinkedAll first IsLinked (first_of first us out) ts
      → LinkedAll first IsLinked out us
      → LinkedAll first IsLinked out (ts ++ us)
  LinkedAll-append [] us out a b = b
  LinkedAll-append (t ∷ ts) us out (l, a) b =
      (rw (first_of-append ts us out) l, LinkedAll-append ts us out a b)

-- Trees that may stand in a chain of leaves where `t` did.
pub record Relinked (h : ℕ) (t : TreeOf h) (ts : List (TreeOf h)) : Type 0 where
  pub first : (out : ℕ) → first_of (first_leaf h) ts out ≡ first_leaf h t
  pub linked : (out : ℕ) → Linked h out t → LinkedAll (first_leaf h) (Linked h) out ts

module _ {h : ℕ} {t : TreeOf h} {middle : List (TreeOf h)} (front back : List (TreeOf h))
    (r : Relinked h t middle) where
  pub first_of-Relinked :
      (out : ℕ)
      → first_of (first_leaf h) (front ++ (middle ++ back)) out
        ≡ first_of (first_leaf h) (front ++ (t ∷ back)) out
  first_of-Relinked out =
      first_of-append (first_leaf h) (Linked h) front (middle ++ back) out
      ∙ ap (first_of (first_leaf h) front)
          (first_of-append (first_leaf h) (Linked h) middle back out ∙ r.first _)
      ∙ sym (first_of-append (first_leaf h) (Linked h) front (t ∷ back) out)

  pub LinkedAll-Relinked :
      (out : ℕ)
      → LinkedAll (first_leaf h) (Linked h) out (front ++ (t ∷ back))
      → LinkedAll (first_leaf h) (Linked h) out (front ++ (middle ++ back))
  LinkedAll-Relinked out l =
      let (a, b) = LinkedAll-parts (first_leaf h) (Linked h) front (t ∷ back) out l in
      let same =
        first_of-append (first_leaf h) (Linked h) middle back out
        ∙ r.first (first_of (first_leaf h) back out) in
      LinkedAll-append (first_leaf h) (Linked h) front (middle ++ back) out (rw (same) a) (
        LinkedAll-append (first_leaf h) (Linked h) middle back out
          (r.linked (first_of (first_leaf h) back out) b.0) b.1)
