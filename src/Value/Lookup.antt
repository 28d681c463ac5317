-- ===== src/Value/Lookup.antt =====
-- The entries of a map of src/value.c: a lookup, a write and a deletion at the first entry of a key,
-- and how they follow one another.
use my_pl.Prelude.{
  ℕ, suc, ◌≡◌, refl, sym, ap, ◌∙◌, inl, inr, true, false, [], ◌∷◌, ◌++◌, Option, none, some,
  Ordering, arith, if◌then◌else◌, remove_at, All, Bool-cases, Option-cases,
}
use mathlib.Core.Path.{subst}
use my_pl.Prelude.Bytes.{memcmp-eq, memcmp_refl}
use my_pl.Prelude.Int.{ℤ, pos, negsuc}
use my_pl.Value.{
  Doubles, Value, int, string, is_eq, sign_of, Entries, values_equal_values, map_find_key, put,
  is_key, value_at,
}
use my_pl.Value.Compare.{sign_of-eq}

sign_of_refl : (a : ℤ) → sign_of a a ≡ Ordering.eq
sign_of_refl (pos a) = ground arith
sign_of_refl (negsuc a) = ground arith

module _ (D : Doubles) where
  equal_refl : (k : Value D) → is_key D k ≡ true → values_equal_values D k k ≡ true
  unfolding values_equal_values
  equal_refl (int a) h = ap is_eq (sign_of_refl a)
  equal_refl (string s) h = ap is_eq (memcmp_refl s)
  equal_refl _ h = cc

  is_eq-eq : (o : Ordering) → is_eq o ≡ true → o ≡ Ordering.eq
  is_eq-eq Ordering.eq h = refl
  is_eq-eq Ordering.lt h = cc
  is_eq-eq Ordering.gt h = cc

  equal-eq : (k k' : Value D) → is_key D k ≡ true → values_equal_values D k k' ≡ true → k ≡ k'
  unfolding values_equal_values
  equal-eq (int a) (int b) h e = ap int (sign_of-eq a b (is_eq-eq _ e))
  equal-eq (string s) (string t) h e = ap string (memcmp-eq s t (is_eq-eq _ e))
  equal-eq _ _ h e = cc

  equal-eq_right :
      (k k' : Value D) → is_key D k' ≡ true → values_equal_values D k k' ≡ true → k ≡ k'
  unfolding values_equal_values
  equal-eq_right (int a) (int b) h e = ap int (sign_of-eq a b (is_eq-eq _ e))
  equal-eq_right (string s) (string t) h e = ap string (memcmp-eq s t (is_eq-eq _ e))
  equal-eq_right _ _ h e = grind arith

  -- Of two keys, equality does not depend on the order.
  equal-swap_ne :
      (k k' : Value D)
      → is_key D k' ≡ true
      → values_equal_values D k k' ≡ false
      → values_equal_values D k' k ≡ false
  equal-swap_ne k k' h n = elim (Bool-cases (values_equal_values D k' k)) [
    | inl same ↦
        subst (λ x. values_equal_values D k' x ≡ false) (equal-eq k' k h same)
          (subst (λ x. values_equal_values D x k' ≡ false) (sym (equal-eq k' k h same)) n)
    | inr differ ↦ differ
  ]

  -- A lookup, a write and a deletion at the first entry of a key, by recursion on the entries.
  unfoldable pub lookup : Entries D → Value D → Option (Value D)
  lookup [] k = none
  lookup ((k0, v0) ∷ es) k =
      let rest = lookup es k in if values_equal_values D k0 k then some v0 else rest

  unfoldable pub store : Entries D → Value D → Value D → Entries D
  store [] k v = (k, v) ∷ []
  store ((k0, v0) ∷ es) k v =
      let rest = store es k v in
      if values_equal_values D k0 k then (k0, v) ∷ es else (k0, v0) ∷ rest

  unfoldable pub remove : Entries D → Value D → Entries D
  remove [] k = []
  remove ((k0, v0) ∷ es) k =
      let rest = remove es k in if values_equal_values D k0 k then es else (k0, v0) ∷ rest

  find-skip :
      (k0 v0 : Value D) (es : Entries D) (k : Value D)
      → values_equal_values D k0 k ≡ false
      → map_find_key D ((k0, v0) ∷ es) k
        ≡ elim (map_find_key D es k) [ none ↦ none | some i ↦ some (suc i) ]
  unfolding map_find_key
  find-skip k0 v0 es k h = rw h refl

  find-hit :
      (k0 v0 : Value D) (es : Entries D) (k : Value D)
      → values_equal_values D k0 k ≡ true
      → map_find_key D ((k0, v0) ∷ es) k ≡ some 0
  unfolding map_find_key
  find-hit k0 v0 es k h = rw h refl

  abbrev pub found_value : Entries D → Option ℕ → Option (Value D)
  found_value es none = none
  found_value es (some i) = value_at D es i

  pub get-lookup :
      (es : Entries D) (k : Value D) → found_value es (map_find_key D es k) ≡ lookup es k
  unfolding lookup
  get-lookup [] k = unfold map_find_key in refl
  get-lookup ((k0, v0) ∷ es) k =
      let rest = get-lookup es k in
      elim (Bool-cases (values_equal_values D k0 k)) [
        | inl hit ↦ rw (find-hit k0 v0 es k hit, hit) refl
        | inr miss ↦
            rw (find-skip k0 v0 es k miss, miss)
              (elim (Option-cases (map_find_key D es k)) [
                | inl gone ↦ rw gone (sym (ap (found_value es) gone) ∙ rest)
                | inr (i, here) ↦ rw here (sym (ap (found_value es) here) ∙ rest)
              ])
      ]

  abbrev pub stored : Entries D → Option ℕ → Value D → Value D → Entries D
  stored es none k v = es ++ ((k, v) ∷ [])
  stored es (some i) k v = put D es i v

  pub set-store :
      (es : Entries D) (k v : Value D) → stored es (map_find_key D es k) k v ≡ store es k v
  unfolding store
  set-store [] k v = unfold map_find_key in refl
  set-store ((k0, v0) ∷ es) k v =
      let rest = set-store es k v in
      elim (Bool-cases (values_equal_values D k0 k)) [
        | inl hit ↦ rw (find-hit k0 v0 es k hit, hit) refl
        | inr miss ↦
            rw (find-skip k0 v0 es k miss, miss)
              (elim (Option-cases (map_find_key D es k)) [
                | inl gone ↦
                    rw gone (ap (◌∷◌ (k0, v0)) (sym (ap (λ o. stored es o k v) gone) ∙ rest))
                | inr (i, here) ↦
                    rw here (ap (◌∷◌ (k0, v0)) (sym (ap (λ o. stored es o k v) here) ∙ rest))
              ])
      ]

  abbrev pub removed : Entries D → Option ℕ → Entries D
  removed es none = es
  removed es (some i) = remove_at i es

  pub delete-remove :
      (es : Entries D) (k : Value D) → removed es (map_find_key D es k) ≡ remove es k
  unfolding remove
  delete-remove [] k = unfold map_find_key in refl
  delete-remove ((k0, v0) ∷ es) k =
      let rest = delete-remove es k in
      elim (Bool-cases (values_equal_values D k0 k)) [
        | inl hit ↦ rw (find-hit k0 v0 es k hit, hit) refl
        | inr miss ↦
            rw (find-skip k0 v0 es k miss, miss)
              (elim (Option-cases (map_find_key D es k)) [
                | inl gone ↦ rw gone (ap (◌∷◌ (k0, v0)) (sym (ap (removed es) gone) ∙ rest))
                | inr (i, here) ↦ rw here (ap (◌∷◌ (k0, v0)) (sym (ap (removed es) here) ∙ rest))
              ])
      ]

  -- A key that is equal to two values makes them one.
  not_both :
      (a b k : Value D)
      → is_key D b ≡ true
      → values_equal_values D b k ≡ true
      → values_equal_values D a b ≡ false
      → values_equal_values D a k ≡ false
  not_both a b k h e n = subst (λ x. values_equal_values D a x ≡ false) (equal-eq b k h e) n

  pub lookup-store :
      (es : Entries D) (k v k' : Value D)
      → is_key D k ≡ true
      → lookup (store es k v) k' ≡ (if values_equal_values D k k' then some v else lookup es k')
  unfolding lookup store
  lookup-store [] k v k' h = refl
  lookup-store ((k0, v0) ∷ es) k v k' h =
      let rest = lookup-store es k v k' h in
      elim (Bool-cases (values_equal_values D k0 k)) [
        | inl hit ↦
            let one = equal-eq_right k0 k h hit in
            elim (Bool-cases (values_equal_values D k k')) [
              | inl same ↦ rw (hit, same, ap (λ x. values_equal_values D x k') one ∙ same) refl
              | inr other ↦ rw (hit, other, ap (λ x. values_equal_values D x k') one ∙ other) refl
            ]
        | inr miss ↦ elim (Bool-cases (values_equal_values D k k')) [
          | inl same ↦ rw (miss, same, not_both k0 k k' h same miss) (rest ∙ rw same refl)
          | inr other ↦
              let keeps : lookup (store es k v) k' ≡ lookup es k' = rest ∙ rw other refl in
              rw (miss, other) (ap (λ o. if values_equal_values D k0 k' then some v0 else o) keeps)
        ]
      ]

  -- Every key is an integer or a string, and stands once.
  abbrev pub IsMap : Entries D → Type 0
  IsMap [] = Unit
  IsMap ((k, v) ∷ es) =
      (is_key D k ≡ true)
      × All (λ (e : Value D × Value D). values_equal_values D k e.0 ≡ false) es
      × IsMap es

  lookup-absent :
      (es : Entries D) (k : Value D)
      → All (λ (e : Value D × Value D). values_equal_values D k e.0 ≡ false) es
      → IsMap es
      → lookup es k ≡ none
  unfolding lookup
  lookup-absent [] k a m = refl
  lookup-absent ((k0, v0) ∷ es) k a m = rw (equal-swap_ne k k0 m.0 a.0) (lookup-absent es k a.1 m.2)

  apart_from :
      (a b k : Value D)
      → is_key D a ≡ true
      → values_equal_values D a b ≡ false
      → values_equal_values D b k ≡ true
      → values_equal_values D a k ≡ false
  apart_from a b k h n e = elim (Bool-cases (values_equal_values D a k)) [
    | inr differ ↦ differ
    | inl same ↦
        let back : values_equal_values D b a ≡ true =
          subst (λ x. values_equal_values D b x ≡ true) (sym (equal-eq a k h same)) e in
        let one = equal-eq_right b a h back in
        let twice = subst (λ x. values_equal_values D a x ≡ true) (sym one) (equal_refl a h) in cc
  ]

  pub lookup-remove :
      (es : Entries D) (k k' : Value D)
      → IsMap es
      → lookup (remove es k) k' ≡ (if values_equal_values D k k' then none else lookup es k')
  unfolding lookup remove
  lookup-remove [] k k' m = elim (Bool-cases (values_equal_values D k k')) [
    | inl same ↦ rw same refl
    | inr other ↦ rw other refl
  ]
  lookup-remove ((k0, v0) ∷ es) k k' m =
      let rest = lookup-remove es k k' m.2 in
      elim (Bool-cases (values_equal_values D k0 k)) [
        | inl hit ↦
            let one = equal-eq k0 k m.0 hit in
            elim (Bool-cases (values_equal_values D k k')) [
              | inl same ↦
                  let gone : lookup es k0 ≡ none = lookup-absent es k0 m.1 m.2 in
                  let next : k0 ≡ k' = one ∙ equal-eq k k' (ap (is_key D) (sym one) ∙ m.0) same in
                  rw (hit, same) (subst (λ x. lookup es x ≡ none) next gone)
              | inr other ↦ rw (hit, other, ap (λ x. values_equal_values D x k') one ∙ other) refl
            ]
        | inr miss ↦ elim (Bool-cases (values_equal_values D k k')) [
          | inl same ↦ rw (miss, same, apart_from k0 k k' m.0 miss same) (rest ∙ rw same refl)
          | inr other ↦
              let keeps : lookup (remove es k) k' ≡ lookup es k' = rest ∙ rw other refl in
              rw (miss, other) (ap (λ o. if values_equal_values D k0 k' then some v0 else o) keeps)
        ]
      ]

  All-store :
      (P : Value D → Type 0) (es : Entries D) (k v : Value D)
      → P k
      → All (λ (e : Value D × Value D). P e.0) es
      → All (λ (e : Value D × Value D). P e.0) (store es k v)
  unfolding store
  All-store P [] k v p a = (p, tt)
  All-store P ((k0, v0) ∷ es) k v p a = elim (Bool-cases (values_equal_values D k0 k)) [
    | inl hit ↦ rw hit a
    | inr miss ↦ rw miss (a.0, All-store P es k v p a.1)
  ]

  pub store-IsMap :
      (es : Entries D) (k v : Value D) → is_key D k ≡ true → IsMap es → IsMap (store es k v)
  unfolding store
  store-IsMap [] k v h m = (h, tt, tt)
  store-IsMap ((k0, v0) ∷ es) k v h m = elim (Bool-cases (values_equal_values D k0 k)) [
    | inl hit ↦ rw hit m
    | inr miss ↦ rw miss (
      m.0,
      All-store (λ x. values_equal_values D k0 x ≡ false) es k v miss m.1,
      store-IsMap es k v h m.2,
    )
  ]

  All-remove :
      (P : Value D → Type 0) (es : Entries D) (k : Value D)
      → All (λ (e : Value D × Value D). P e.0) es
      → All (λ (e : Value D × Value D). P e.0) (remove es k)
  unfolding remove
  All-remove P [] k a = tt
  All-remove P ((k0, v0) ∷ es) k a = elim (Bool-cases (values_equal_values D k0 k)) [
    | inl hit ↦ rw hit a.1
    | inr miss ↦ rw miss (a.0, All-remove P es k a.1)
  ]

  pub remove-IsMap : (es : Entries D) (k : Value D) → IsMap es → IsMap (remove es k)
  unfolding remove
  remove-IsMap [] k m = tt
  remove-IsMap ((k0, v0) ∷ es) k m = elim (Bool-cases (values_equal_values D k0 k)) [
    | inl hit ↦ rw hit m.2
    | inr miss ↦
        rw miss (
          m.0,
          All-remove (λ x. values_equal_values D k0 x ≡ false) es k m.1,
          remove-IsMap es k m.2,
        )
  ]
