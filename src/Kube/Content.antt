-- ===== src/Kube/Content.antt =====
-- The content of an unstructured object: the `interface{}` values that the JSON decoder makes.
use hohapiserver.Base.{ℕ, String, ◌≡◌, Bool, refl, eq_iff, eq_refl, arith, ◌==◌, if◌then◌else◌}
use hohapiserver.Base.{List, [], ◌∷◌}

mutual
  pub data Value : Type 0 where
    -- nil, and the value read under a key that a map does not hold
    null : Value
    bool : Bool → Value
    -- a number without sign, fraction and exponent
    uint : ℕ → Value
    -- any other number, by its text
    real : String → Value
    str : String → Value
    arr : Values → Value
    obj : Fields → Value

  pub data Values : Type 0 where
    nil : Values
    cons : Value → Values → Values

  -- map[string]interface{}
  pub data Fields : Type 0 where
    end : Fields
    field : String → Value → Fields → Fields

-- m[k]
unfoldable pub get : String → Fields → Value
get k end = null
get k (field j v m) = if j == k then v else get k m

-- m[k] = v
unfoldable pub put : String → Value → Fields → Fields
put k v end = field k v end
put k v (field j w m) = if j == k then field k v m else field j w (put k v m)

-- The keys of a map.
unfoldable pub keys : Fields → List String
keys end = []
keys (field j v m) = j ∷ keys m

pub get-put :
    (k j : String) (v : Value) (m : Fields) → get j (put k v m) ≡ (if k == j then v else get j m)
unfolding get put
get-put k j v end = refl
get-put k j v (field i w m) = ground (arith, eq_iff k j, eq_iff i k, eq_iff i j, get-put k j v m)

pub get-put_self : (k : String) (v : Value) (m : Fields) → get k (put k v m) ≡ v
unfolding get put
get-put_self k v end = rw (eq_refl k)
get-put_self k v (field i w m) = ground (arith, eq_refl k, eq_iff i k, get-put_self k v m)
