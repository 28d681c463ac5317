-- ===== src/Value.antt =====
-- src/value.c and include/compiler.h: values, their comparison, and the containers. The kinds of
-- number that C's `double` has are a parameter with its tests. An `int` is the integer it holds; a handle of a container is its number; a missing string
-- pointer is read as the empty string, and so is the empty string here. Reference counts and the
-- cycle collector are left out, and memory is taken to be granted.
pub mod Compare
pub mod Lookup
pub mod Map
pub mod NextKey
mod Tests
use my_pl.Prelude.{
  ℕ, zero, suc, ◌+◌, ◌-◌, ◌*◌, ◌%◌, ◌^◌, ◌≡◌, Bool, true, false, not, ◌&&◌, ◌||◌, List, [], ◌∷◌,
  ◌++◌, Option, none, some, compare, Ordering, leb, ltb, ◌==◌, if◌then◌else◌, length, take,
  remove_at,
}
use my_pl.Prelude.Bytes.{memcmp}
use my_pl.Prelude.Int.{ℤ, pos, negsuc, ◌-ℤ◌, ltb_ℤ, pos_part, signed32}

abbrev pub Text : Type 0
Text = List ℕ

-- The sign of `strcmp`: the NUL at the end of a text is below any other byte.
abbrev strcmp : Text → Text → Ordering
strcmp = memcmp

-- The sign of a difference of integers.
abbrev pub sign_of : ℤ → ℤ → Ordering
sign_of a b = if ltb_ℤ a b then Ordering.lt else if ltb_ℤ b a then Ordering.gt else Ordering.eq

-- What an `int` holds of an integer.
abbrev pub wrap32 : ℤ → ℤ
wrap32 (pos n) = signed32 (n % 2 ^ 32)
wrap32 (negsuc n) = signed32 (2 ^ 32 - 1 - n % 2 ^ 32)

abbrev pub is_lt : Ordering → Bool
is_lt Ordering.lt = true
is_lt _ = false

abbrev pub is_eq : Ordering → Bool
is_eq Ordering.eq = true
is_eq _ = false

abbrev pub is_gt : Ordering → Bool
is_gt Ordering.gt = true
is_gt _ = false

-- A type that stands for `double`, with `==`, `<` and the conversion of an `int`.
pub record Doubles : Type 1 where
  pub F : Type 0
  pub eqb : F → F → Bool
  pub lt : F → F → Bool
  pub of_int : ℤ → F

module _ (D : Doubles) where
  pub data Value : Type 0 where
    null : Value
    int : ℤ → Value
    float : D.F → Value
    bool : ℤ → Value
    string date timestamp : Text → Value
    array map row cursor : ℕ → Value

  abbrev pub value_int : Bool → Value
  value_int b = int (pos (if b then 1 else 0))

  abbrev either_float : Value → Value → Bool
  either_float (float x) _ = true
  either_float _ (float y) = true
  either_float _ _ = false

  abbrev as_number : Value → D.F
  as_number (float x) = x
  as_number (int a) = D.of_int a
  as_number _ = D.of_int (pos 0)

  unfoldable pub value_eq : Value → Value → Value
  value_eq null b = null
  value_eq a null = null
  value_eq (bool a) (bool b) = value_int (is_eq (sign_of a b))
  value_eq (bool a) b = value_int false
  value_eq a (bool b) = value_int false
  value_eq (float x) b = value_int (D.eqb x (as_number b))
  value_eq a (float y) = value_int (D.eqb (as_number a) y)
  value_eq (int a) (int b) = value_int (is_eq (sign_of a b))
  value_eq (string s) (string t) = value_int (is_eq (strcmp s t))
  value_eq a b = value_int false

  unfoldable pub value_lt : Value → Value → Value
  value_lt null b = null
  value_lt a null = null
  value_lt (string s) (string t) = value_int (is_lt (strcmp s t))
  value_lt (bool a) (bool b) = value_int (is_lt (sign_of a b))
  value_lt (bool a) b = value_int false
  value_lt a (bool b) = value_int false
  value_lt (float x) b = value_int (D.lt x (as_number b))
  value_lt a (float y) = value_int (D.lt (as_number a) y)
  value_lt (int a) (int b) = value_int (is_lt (sign_of a b))
  value_lt a b = value_int false

  unfoldable pub value_gt : Value → Value → Value
  value_gt null b = null
  value_gt a null = null
  value_gt (string s) (string t) = value_int (is_gt (strcmp s t))
  value_gt (bool a) (bool b) = value_int (is_gt (sign_of a b))
  value_gt (bool a) b = value_int false
  value_gt a (bool b) = value_int false
  value_gt (float x) b = value_int (D.lt (as_number b) x)
  value_gt a (float y) = value_int (D.lt y (as_number a))
  value_gt (int a) (int b) = value_int (is_gt (sign_of a b))
  value_gt a b = value_int false

  -- Equality of keys: of the type and what is held, handles by identity.
  unfoldable pub values_equal_values : Value → Value → Bool
  values_equal_values null null = true
  values_equal_values (int a) (int b) = is_eq (sign_of a b)
  values_equal_values (float x) (float y) = D.eqb x y
  values_equal_values (bool a) (bool b) = is_eq (sign_of a b)
  values_equal_values (string s) (string t) = is_eq (strcmp s t)
  values_equal_values (date s) (date t) = is_eq (strcmp s t)
  values_equal_values (timestamp s) (timestamp t) = is_eq (strcmp s t)
  values_equal_values (array m) (array n) = m == n
  values_equal_values (map m) (map n) = m == n
  values_equal_values (row m) (row n) = m == n
  values_equal_values (cursor m) (cursor n) = m == n
  values_equal_values _ _ = false

  -- `keys[i]` with `values[i]`, for each i below `count`.
  abbrev pub Entries : Type 0
  Entries = List (Value × Value)

  unfoldable pub map_find_key : Entries → Value → Option ℕ
  unfolding values_equal_values
  map_find_key [] key = none
  map_find_key ((k, v) ∷ es) key =
      let rest = map_find_key es key in
      if values_equal_values k key
      then some 0
      else elim rest [ none ↦ none | some i ↦ some (suc i) ]

  pub record MapObj : Type 0 where
    pub entries : Entries
    pub capacity : ℕ

  -- `values[idx] = value`
  abbrev pub put : Entries → ℕ → Value → Entries
  put [] idx value = []
  put ((k, v) ∷ es) zero value = (k, value) ∷ es
  put ((k, v) ∷ es) (suc idx) value = (k, v) ∷ put es idx value

  abbrev pub is_key : Value → Bool
  is_key (int a) = true
  is_key (string s) = true
  is_key _ = false

  abbrev pub add_entry : MapObj → Value → Value → MapObj
  add_entry m key value = record {
    entries = m.entries ++ ((key, value) ∷ []);
    capacity =
        if leb m.capacity (length m.entries)
        then (if m.capacity == 0 then 4 else m.capacity * 2)
        else m.capacity;
  }

  -- `none` is the result 0, with the map as it was.
  unfoldable pub map_set : MapObj → Value → Value → Option MapObj
  unfolding map_find_key
  map_set m key value = if not (is_key key) then none else elim (map_find_key m.entries key) [
    | none ↦ some (add_entry m key value)
    | some idx ↦ some (record m { entries = put m.entries idx value })
  ]

  -- `values[idx]`, for an index of the map.
  abbrev pub value_at : Entries → ℕ → Option Value
  value_at [] idx = none
  value_at ((k, v) ∷ es) zero = some v
  value_at ((k, v) ∷ es) (suc idx) = value_at es idx

  unfoldable pub map_get : MapObj → Value → Option Value
  unfolding map_find_key
  map_get m key = elim (map_find_key m.entries key) [
    | none ↦ none
    | some idx ↦ value_at m.entries idx
  ]

  unfoldable pub map_delete : MapObj → Value → Option MapObj
  unfolding map_find_key
  map_delete m key = elim (map_find_key m.entries key) [
    | none ↦ none
    | some idx ↦ some (record m { entries = remove_at idx m.entries })
  ]

  -- The sign of `map_key_compare`. The difference of integers is an `int`, which wraps around where
  -- the difference does not fit.
  unfoldable pub map_key_compare : Value → Value → Ordering
  map_key_compare (int a) (int b) = sign_of (wrap32 (a -ℤ b)) (pos 0)
  map_key_compare (string s) (string t) = strcmp s t
  map_key_compare _ _ = Ordering.eq

  -- The loops of `map_next_key` and `map_prior_key`: `candidate`, where `found` is set.
  unfoldable pub next_loop : Value → Option Value → Entries → Option Value
  next_loop key found [] = found
  next_loop key none ((k, v) ∷ es) =
      let take_it = next_loop key (some k) es in
      let pass = next_loop key none es in if is_gt (map_key_compare k key) then take_it else pass
  next_loop key (some candidate) ((k, v) ∷ es) =
      let take_it = next_loop key (some k) es in
      let pass = next_loop key (some candidate) es in
      if is_gt (map_key_compare k key) && is_lt (map_key_compare k candidate) then take_it else pass

  abbrev pub map_next_key : MapObj → Value → Option Value
  map_next_key m key = next_loop key none m.entries

  unfoldable prior_loop : Value → Option Value → Entries → Option Value
  prior_loop key found [] = found
  prior_loop key none ((k, v) ∷ es) =
      let take_it = prior_loop key (some k) es in
      let pass = prior_loop key none es in if is_lt (map_key_compare k key) then take_it else pass
  prior_loop key (some candidate) ((k, v) ∷ es) =
      let take_it = prior_loop key (some k) es in
      let pass = prior_loop key (some candidate) es in
      if is_lt (map_key_compare k key) && is_gt (map_key_compare k candidate) then take_it else pass

  abbrev map_prior_key : MapObj → Value → Option Value
  map_prior_key m key = prior_loop key none m.entries

  unfoldable first_loop : Value → Entries → Value
  first_loop min [] = min
  first_loop min ((k, v) ∷ es) =
      let take_it = first_loop k es in
      let pass = first_loop min es in if is_lt (map_key_compare k min) then take_it else pass

  abbrev first_of : Entries → Option Value
  first_of [] = none
  first_of ((k, v) ∷ es) = some (first_loop k es)

  abbrev map_first_key : MapObj → Option Value
  map_first_key m = first_of m.entries

  unfoldable last_loop : Value → Entries → Value
  last_loop max [] = max
  last_loop max ((k, v) ∷ es) =
      let take_it = last_loop k es in
      let pass = last_loop max es in if is_gt (map_key_compare k max) then take_it else pass

  abbrev last_of : Entries → Option Value
  last_of [] = none
  last_of ((k, v) ∷ es) = some (last_loop k es)

  abbrev map_last_key : MapObj → Option Value
  map_last_key m = last_of m.entries
