-- ===== src/BTree/Tree/Descent.antt =====
-- The child that an insertion descends into, and what may stand in its place.
use my_pl.Prelude.{
  suc, ◌≡◌, refl, ap, ◌∙◌, Bool, inl, inr, Bool-cases, true, false, List, [], ◌∷◌, ◌++◌, Option,
  some, length, All, All-append, append_assoc,
}
use my_pl.Prelude.Bytes.{leb_bytes, leb_bytes_trans, leb_bytes_total}
use my_pl.BTree.Node.{Key, Entry}
use my_pl.BTree.Insert.{child_index}
use my_pl.BTree.Tree.{items_all, AtLeast, Within, OrderedAll}
use my_pl.BTree.Tree.Bounds.{AtMost-trans, All-map_of, SortedWithin, items_all-SortedWithin}

-- `new` is `old` with the entry `e` added at a place that keeps the order of keys.
pub record Places (e : Entry) (old new : List Entry) : Type 0 where
  pub before : List Entry
  pub after : List Entry
  pub old_is : old ≡ before ++ after
  pub new_is : new ≡ before ++ (e ∷ after)
  pub not_greater : All (λ (d : Entry). leb_bytes d.key e.key ≡ true) before
  pub not_less : All (λ (d : Entry). leb_bytes e.key d.key ≡ true) after

pub Places-eq :
    {e : Entry} {old new old' new' : List Entry}
    → old' ≡ old
    → new' ≡ new
    → Places e old new
    → Places e old' new'
Places-eq eo en p = record {
  before = p.before;
  after = p.after;
  old_is = eo ∙ p.old_is;
  new_is = en ∙ p.new_is;
  not_greater = p.not_greater;
  not_less = p.not_less;
}

pub Places-beside :
    {e : Entry} {old new : List Entry} (front back : List Entry)
    → All (λ (d : Entry). leb_bytes d.key e.key ≡ true) front
    → All (λ (d : Entry). leb_bytes e.key d.key ≡ true) back
    → Places e old new
    → Places e (front ++ (old ++ back)) (front ++ (new ++ back))
Places-beside {e} {old} {new} front back low high p = record {
  before = front ++ p.before;
  after = p.after ++ back;
  old_is = rw (p.old_is) (simp append_assoc);
  new_is = rw (p.new_is) (simp append_assoc);
  not_greater = All-append _ front p.before low p.not_greater;
  not_less = All-append _ p.after back p.not_less high;
}

-- Children and separators around one child, with the bounds of that child, and what the order lets
-- stand there in its stead.
pub record Around {A : Type 0} (InOrder : Option Key → Option Key → A → Type 0)
    (entries : A → List Entry) (lo hi : Option Key) (e : Entry) (ks : List Key) (ts : List A)
    : Type 0 where
  pub child : A
  pub front : List A
  pub back : List A
  pub front_keys : List Key
  pub back_keys : List Key
  pub low : Option Key
  pub high : Option Key
  pub children_are : ts ≡ front ++ (child ∷ back)
  pub keys_are : ks ≡ front_keys ++ back_keys
  pub same_length : length front ≡ length front_keys
  pub index : child_index e.key ks ≡ length front_keys
  pub within : Within low high e.key
  pub in_order : InOrder low high child
  pub before_e : All (λ (d : Entry). leb_bytes e.key d.key ≡ false) (items_all entries front)
  pub after_e : All (λ (d : Entry). leb_bytes e.key d.key ≡ true) (items_all entries back)
  pub put_one : (t : A) → InOrder low high t → OrderedAll InOrder lo hi ks (front ++ (t ∷ back))
  pub put_two :
      (t u : A) (k : Key)
      → Within low high k
      → InOrder low (some k) t
      → InOrder (some k) high u
      → OrderedAll InOrder lo hi (front_keys ++ (k ∷ back_keys)) (front ++ (t ∷ u ∷ back))

module _ {A : Type 0} (entries : A → List Entry) (InOrder : Option Key → Option Key → A → Type 0)
    (each : (lo hi : Option Key) (t : A) → InOrder lo hi t → SortedWithin lo hi (entries t))
    (e : Entry) where
  below_separator :
      (d : Entry) (k : Key)
      → leb_bytes e.key k ≡ false
      → leb_bytes d.key k ≡ true
      → leb_bytes e.key d.key ≡ false
  below_separator d k gt le = elim (Bool-cases (leb_bytes e.key d.key)) [
    | inl least ↦ absurd (true_false (leb_bytes_trans e.key d.key k least le) gt)
    | inr less ↦ less
  ]
    where
      true_false : {b : Bool} → b ≡ true → b ≡ false → ⊥
      true_false yes_true no_false = cc

  Around-last :
      (lo hi : Option Key) (t : A)
      → Within lo hi e.key
      → InOrder lo hi t
      → Around InOrder entries lo hi e [] (t ∷ [])
  Around-last lo hi t w o = record {
    child = t;
    front = [];
    back = [];
    front_keys = [];
    back_keys = [];
    low = lo;
    high = hi;
    children_are = refl;
    keys_are = refl;
    same_length = refl;
    index = unfold child_index in refl;
    within = w;
    in_order = o;
    before_e = tt;
    after_e = tt;
    put_one = λ u o'. o';
    put_two = λ u v k b o' o''. (b, o', o'');
  }

  module _ (lo hi : Option Key) (k : Key) (ks : List Key) (t : A) (ts : List A) (b : Within lo hi k)
      (o : InOrder lo (some k) t) (rest : OrderedAll InOrder (some k) hi ks ts) where
    Around-here :
        AtLeast lo e.key
        → leb_bytes e.key k ≡ true
        → Around InOrder entries lo hi e (k ∷ ks) (t ∷ ts)
    Around-here w le = record {
      child = t;
      front = [];
      back = ts;
      front_keys = [];
      back_keys = k ∷ ks;
      low = lo;
      high = some k;
      children_are = refl;
      keys_are = refl;
      same_length = refl;
      index = unfold child_index in rw (le);
      within = (w, le);
      in_order = o;
      before_e = tt;
      after_e =
          All-map_of (items_all entries ts) (λ d p. leb_bytes_trans e.key k d.key le p.0)
            (items_all-SortedWithin entries InOrder each (some k) hi ks ts rest).1;
      put_one = λ u o'. (b, o', rest);
      put_two =
          λ u v k' b' o' o''. ((b'.0, AtMost-trans hi k k' b.1 b'.1), o', ((b'.1, b.1), o'', rest));
    }

    Around-later :
        leb_bytes e.key k ≡ false
        → Around InOrder entries (some k) hi e ks ts
        → Around InOrder entries lo hi e (k ∷ ks) (t ∷ ts)
    Around-later gt r = record {
      child = r.child;
      front = t ∷ r.front;
      back = r.back;
      front_keys = k ∷ r.front_keys;
      back_keys = r.back_keys;
      low = r.low;
      high = r.high;
      children_are = ap (◌∷◌ t) r.children_are;
      keys_are = ap (◌∷◌ k) r.keys_are;
      same_length = ap suc r.same_length;
      index = unfold child_index in rw (gt, r.index);
      within = r.within;
      in_order = r.in_order;
      before_e =
          All-append _ (entries t) (items_all entries r.front)
            (All-map_of (entries t) (λ d b. below_separator d k gt b.1) (each lo (some k) t o).1)
            r.before_e;
      after_e = r.after_e;
      put_one = λ u o'. (b, o, r.put_one u o');
      put_two = λ u v k' b' o' o''. (b, o, r.put_two u v k' b' o' o'');
    }

  pub around :
      (lo hi : Option Key) (ks : List Key) (ts : List A)
      → Within lo hi e.key
      → OrderedAll InOrder lo hi ks ts
      → Around InOrder entries lo hi e ks ts
  around lo hi [] [] w o = absurd o
  around lo hi [] (t ∷ []) w o = Around-last lo hi t w o
  around lo hi [] (t ∷ u ∷ ts) w o = absurd o
  around lo hi (k ∷ ks) [] w o = absurd o
  around lo hi (k ∷ ks) (t ∷ ts) w (b, o, rest) = elim (Bool-cases (leb_bytes e.key k)) [
    | inl le ↦ Around-here lo hi k ks t ts b o rest w.0 le
    | inr gt ↦
        Around-later lo hi k ks t ts b o rest gt
          (around (some k) hi ks ts (leb_bytes_total e.key k gt, w.1) rest)
  ]
