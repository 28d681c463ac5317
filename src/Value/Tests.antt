-- ===== src/Value/Tests.antt =====
-- Runs of src/value.c, with whole numbers in place of doubles.
use my_pl.Prelude.{
  Ordering, ◌^◌, ◌-◌, ℕ, ◌≡◌, ◌≢◌, ◌⊎◌, refl, [], ◌∷◌, some, none, ◌==◌, ltb, if◌then◌else◌,
}
use my_pl.Prelude.Int.{negsuc, ◌-ℤ◌, pos, pos_part}
use my_pl.Value.{
  Doubles, Value, int, float, string, MapObj, map_set, map_get, map_delete, values_equal_values,
}
use my_pl.Value.{map_next_key, next_loop, map_key_compare}
use my_pl.Value.NextKey.Kind.{ints as ints_only}
use my_pl.Value.Lookup.{IsMap}
use my_pl.Value.Map.{map_get-map_set, map_get-map_delete}

abbrev whole : Doubles
whole = record { F = ℕ; eqb = ◌==◌; lt = ltb; of_int = pos_part }

abbrev three : Value whole
three = int (pos 3)

abbrev four : Value whole
four = int (pos 4)

abbrev key : Value whole
key = string (b'k' ∷ [])

abbrev one_key : MapObj whole
one_key = record { entries = (key, int (pos 1)) ∷ []; capacity = 4 }

map_get-map_set_example :
    (m : MapObj whole) × (map_set whole one_key (int (pos 5)) (float 2) ≡ some m)
    × IsMap whole m.entries
    × ((k : Value whole)
        → map_get whole m k ≡ (
            if values_equal_values whole (int (pos 5)) k
            then some (float 2)
            else map_get whole one_key k))
map_get-map_set_example = map_get-map_set whole one_key (int (pos 5)) (float 2) refl (refl, tt, tt)

map_get-map_delete_example :
    (map_delete whole one_key key ≡ none) × (map_get whole one_key key ≡ none)
    ⊎ (m : MapObj whole) × (map_delete whole one_key key ≡ some m)
      × (map_get whole one_key key ≢ none)
      × IsMap whole m.entries
      × ((k : Value whole)
          → map_get whole m k
            ≡ (if values_equal_values whole key k then none else map_get whole one_key k))
map_get-map_delete_example = map_get-map_delete whole one_key key (refl, tt, tt)

abbrev two_keys : MapObj whole
two_keys = record {
  entries = (int (pos 7), int (pos 1)) ∷ (int (pos 5), int (pos 2)) ∷ [];
  capacity = 4;
}

next_of_three : map_next_key whole two_keys three ≡ some (int (pos 5))
unfolding next_loop map_key_compare ◌-ℤ◌
next_of_three = refl

-- A difference that does not fit makes the greatest key compare as the less.
greatest_below_minus_one :
    map_key_compare whole (int (pos (2 ^ 31 - 1))) (int (negsuc 0)) ≡ Ordering.lt
unfolding map_key_compare ◌-ℤ◌
greatest_below_minus_one = refl
