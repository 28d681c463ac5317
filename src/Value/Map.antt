-- ===== src/Value/Map.antt =====
-- The map of src/value.c as a finite map from its keys.
use my_pl.Prelude.{
  ℕ, zero, suc, ◌≡◌, ◌≢◌, refl, sym, ap, ◌∙◌, ◌⊎◌, inl, inr, true, [], ◌∷◌, none, some, arith,
  if◌then◌else◌, remove_at, Option-cases,
}
use mathlib.Core.Path.{subst}
use my_pl.Value.{
  Doubles, Value, Entries, MapObj, values_equal_values, map_find_key, put, is_key, map_set,
  value_at, map_get, map_delete, add_entry,
}
use my_pl.Value.Lookup.{
  lookup, store, remove, found_value, get-lookup, stored, set-store, removed, delete-remove,
  lookup-store, IsMap, lookup-remove, store-IsMap, remove-IsMap,
}

module _ (D : Doubles) where
  map_get-lookup : (m : MapObj D) (k : Value D) → map_get D m k ≡ lookup D m.entries k
  unfolding map_get
  map_get-lookup m k = elim (Option-cases (map_find_key D m.entries k)) [
    | inl gone ↦
        rw (map_get, gone) (sym (ap (found_value D m.entries) gone) ∙ get-lookup D m.entries k)
    | inr (i, here) ↦
        rw (map_get, here) (sym (ap (found_value D m.entries) here) ∙ get-lookup D m.entries k)
  ]

  map_set-store :
      (m : MapObj D) (k v : Value D)
      → is_key D k ≡ true
      → (m' : MapObj D) × (map_set D m k v ≡ some m') × (m'.entries ≡ store D m.entries k v)
  unfolding map_set
  map_set-store m k v h = elim (Option-cases (map_find_key D m.entries k)) [
    | inl gone ↦ (
      add_entry D m k v,
      rw (map_set, h, gone) refl,
      sym (ap (λ o. stored D m.entries o k v) gone) ∙ set-store D m.entries k v,
    )
    | inr (i, here) ↦ (
      record m { entries = put D m.entries i v },
      rw (map_set, h, here) refl,
      sym (ap (λ o. stored D m.entries o k v) here) ∙ set-store D m.entries k v,
    )
  ]

  -- Setting an integer or string key of a map succeeds; a lookup then gives the value for that key
  -- and what it gave before for any other, and the map still holds each key once.
  pub map_get-map_set :
      (m : MapObj D) (k v : Value D)
      → is_key D k ≡ true
      → IsMap D m.entries
      → (m' : MapObj D) × (map_set D m k v ≡ some m')
        × IsMap D m'.entries
        × ((k' : Value D)
            → map_get D m' k' ≡ (if values_equal_values D k k' then some v else map_get D m k'))
  map_get-map_set m k v h i =
      let (m', sets, e) = map_set-store m k v h in
      (
        m',
        sets,
        subst (IsMap D) (sym e) (store-IsMap D m.entries k v h i),
        λ k'.
            map_get-lookup m' k'
            ∙ ap (λ es. lookup D es k') e
            ∙ lookup-store D m.entries k v k' h
            ∙ ap (λ o. if values_equal_values D k k' then some v else o)
                (sym (map_get-lookup m k')),
      )

  find-value :
      (es : Entries D) (k : Value D) (i : ℕ) → map_find_key D es k ≡ some i → value_at D es i ≢ none
  unfolding map_find_key
  find-value [] k i h = λ e. cc
  find-value ((k0, v0) ∷ es) k zero h = λ e. cc
  find-value ((k0, v0) ∷ es) k (suc i) h = find-value es k i (ground arith)

  -- Deleting a key fails exactly where a lookup of it fails; otherwise the lookup of it fails then, a
  -- lookup of any other key gives what it gave before, and the map still holds each key once.
  pub map_get-map_delete :
      (m : MapObj D) (k : Value D)
      → IsMap D m.entries
      → (map_delete D m k ≡ none) × (map_get D m k ≡ none)
        ⊎ (m' : MapObj D) × (map_delete D m k ≡ some m')
          × (map_get D m k ≢ none)
          × IsMap D m'.entries
          × ((k' : Value D)
              → map_get D m' k' ≡ (if values_equal_values D k k' then none else map_get D m k'))
  unfolding map_delete map_get
  map_get-map_delete m k i = elim (Option-cases (map_find_key D m.entries k)) [
    | inl gone ↦ inl (rw (map_delete, gone) refl, rw (map_get, gone) refl)
    | inr (j, here) ↦
        let e : remove_at j m.entries ≡ remove D m.entries k =
          sym (ap (removed D m.entries) here) ∙ delete-remove D m.entries k in
        let m' : MapObj D = record m { entries = remove_at j m.entries } in
        inr (
          m',
          rw (map_delete, here) refl,
          rw (map_get, here) (find-value m.entries k j here),
          subst (IsMap D) (sym e) (remove-IsMap D m.entries k i),
          λ k'.
              map_get-lookup m' k'
              ∙ ap (λ es. lookup D es k') e
              ∙ lookup-remove D m.entries k k' i
              ∙ ap (λ o. if values_equal_values D k k' then none else o)
                  (sym (map_get-lookup m k')),
        )
  ]
