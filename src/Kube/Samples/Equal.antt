-- ===== src/Kube/Samples/Equal.antt =====
-- A comparison of contents and of maps for the tests: structural, with the order of keys told apart.
use hohapiserver.Base.{
  String, ◌==◌, eq_refl, leb, arith, ◌≡◌, refl, Bool, true, false, ◌&&◌, Option, none, some, List,
  [], ◌∷◌,
}
use hohapiserver.Kube.Content.{
  Value, null, bool, uint, real, str, arr, obj, Values, nil, cons, Fields, end, field,
}

abbrev same_bool : Bool → Bool → Bool
same_bool true b = b
same_bool false true = false
same_bool false false = true

unfoldable mutual
  pub same_value : Value → Value → Bool
  same_value null null = true
  same_value (bool a) (bool b) = same_bool a b
  same_value (uint a) (uint b) = leb a b && leb b a
  same_value (real a) (real b) = a == b
  same_value (str a) (str b) = a == b
  same_value (arr a) (arr b) = same_values a b
  same_value (obj a) (obj b) = same_fields a b
  same_value _ _ = false

  pub same_values : Values → Values → Bool
  same_values nil nil = true
  same_values (cons a x) (cons b y) = same_value a b && same_values x y
  same_values _ _ = false

  pub same_fields : Fields → Fields → Bool
  same_fields end end = true
  same_fields (field j a x) (field k b y) = j == k && same_value a b && same_fields x y
  same_fields _ _ = false

mutual
  unfolding same_value same_values same_fields

  pub same_value_refl : (v : Value) → same_value v v ≡ true
  same_value_refl null = refl
  same_value_refl (bool true) = refl
  same_value_refl (bool false) = refl
  same_value_refl (uint n) = ground arith
  same_value_refl (real s) = eq_refl s
  same_value_refl (str s) = eq_refl s
  same_value_refl (arr vs) = same_values_refl vs
  same_value_refl (obj m) = same_fields_refl m

  pub same_values_refl : (vs : Values) → same_values vs vs ≡ true
  same_values_refl nil = refl
  same_values_refl (cons v vs) = rw (same_value_refl v, same_values_refl vs)

  pub same_fields_refl : (m : Fields) → same_fields m m ≡ true
  same_fields_refl end = refl
  same_fields_refl (field k v m) = rw (eq_refl k, same_value_refl v, same_fields_refl m)

unfoldable pub same_pairs : List (String × String) → List (String × String) → Bool
same_pairs [] [] = true
same_pairs ((j, a) ∷ m) ((k, b) ∷ n) = j == k && a == b && same_pairs m n
same_pairs _ _ = false

same_pairs_refl : (m : List (String × String)) → same_pairs m m ≡ true
unfolding same_pairs
same_pairs_refl [] = refl
same_pairs_refl ((k, v) ∷ m) = rw (eq_refl k, eq_refl v, same_pairs_refl m)

unfoldable pub same_map : Option (List (String × String)) → Option (List (String × String)) → Bool
same_map none none = true
same_map (some m) (some n) = same_pairs m n
same_map _ _ = false

pub same_map_refl : (m : Option (List (String × String))) → same_map m m ≡ true
unfolding same_map
same_map_refl none = refl
same_map_refl (some m) = same_pairs_refl m
