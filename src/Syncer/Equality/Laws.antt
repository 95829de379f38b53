-- ===== src/Syncer/Equality/Laws.antt =====
-- What the comparisons of syncer/specsyncer.go and syncer/statussyncer.go decide.
use hohapiserver.Base.{
  String, eq_iff, arith, ◌≡◌, refl, ◌≢◌, ◌↔◌, ◌⊎◌, inl, inr, true, false, Bool-cases, List, [], ◌∷◌,
  elem, Option,
}
use hohapiserver.Kube.{
  Value, null, Fields, end, field, get, keys, put, get-put, Unstructured, unstructured,
}
use hohapiserver.Syncer.Equality.{
  DeepEqual, content_keys, union, same_keys, deep_equal_apart_from_status,
}

elem-union_left :
    (k : String) (xs ys : List String) → elem k xs ≡ true → elem k (union xs ys) ≡ true
unfolding elem union
elem-union_left k xs [] h = h
elem-union_left k xs (y ∷ ys) h = ground (arith, elem-union_left k xs ys)

elem-union_right :
    (k : String) (xs ys : List String) → elem k ys ≡ true → elem k (union xs ys) ≡ true
unfolding elem union
elem-union_right k xs [] h = cc
elem-union_right k xs (y ∷ ys) h =
    ground (arith, eq_iff k y, elem-union_left k xs ys, elem-union_right k xs ys)

get_of_not_elem : (k : String) (m : Fields) → elem k (keys m) ≡ false → get k m ≡ null
unfolding elem keys get
get_of_not_elem k end h = refl
get_of_not_elem k (field j v m) h = ground (arith, eq_iff k j, eq_iff j k, get_of_not_elem k m)

module _ (deep : DeepEqual) (old new : Unstructured) where
  -- Two objects agree at a key that is not skipped.
  abbrev pub Agree : String → Type 0
  Agree k =
      (k ≡ "metadata")
      ⊎ (k ≡ "status")
      ⊎ (deep.on_value (get k old.content) (get k new.content) ≡ true)

  same_keys_sound :
      (ks : List String) (k : String)
      → same_keys deep old new ks ≡ true
      → elem k ks ≡ true
      → Agree k
  unfolding same_keys elem
  same_keys_sound [] k h e = cc
  same_keys_sound (j ∷ ks) k h e =
      ground (arith, eq_iff k j, eq_iff j "metadata", eq_iff j "status", same_keys_sound ks k)

  same_keys_complete :
      (ks : List String) → ((k : String) → Agree k) → same_keys deep old new ks ≡ true
  unfolding same_keys
  same_keys_complete [] all = refl
  same_keys_complete (j ∷ ks) all =
      ground (arith, eq_iff j "metadata", eq_iff j "status", all j, same_keys_complete ks all)

  -- A key that neither object holds reads nil in both.
  Agree-everywhere :
      deep.on_value null null ≡ true
      → same_keys deep old new (union (content_keys old) (content_keys new)) ≡ true
      → (k : String) → Agree k
  unfolding content_keys elem
  Agree-everywhere nil_eq h k = elim (Bool-cases (elem k (keys old.content))) [
    | inl e ↦
        same_keys_sound _ k h
          (elem-union_left k (content_keys old) (content_keys new) (ground arith))
    | inr e ↦ elim (Bool-cases (elem k (keys new.content))) [
      | inl e' ↦
          same_keys_sound _ k h
            (elem-union_right k (content_keys old) (content_keys new) (ground arith))
      | inr e' ↦ inr (
          inr (rw (get_of_not_elem k old.content e) (rw (get_of_not_elem k new.content e') nil_eq)))
    ]
  ]

-- The comparison of two objects holds exactly when their annotations, their labels and the values
-- under every key but metadata and status are equal, provided that nil equals nil.
pub deep_equal_apart_from_status_iff :
    (deep : DeepEqual) (old new : Unstructured)
    → deep.on_value null null ≡ true
    → (deep_equal_apart_from_status deep (unstructured old) (unstructured new) ≡ true) ↔ (
        (deep.on_map old.metadata.annotations new.metadata.annotations ≡ true)
        × (deep.on_map old.metadata.labels new.metadata.labels ≡ true)
        × ((k : String) → Agree deep old new k))
unfolding deep_equal_apart_from_status
deep_equal_apart_from_status_iff deep old new nil_eq =
    let ks = union (content_keys old) (content_keys new) in
    (
      λ h. (ground arith, ground arith, Agree-everywhere deep old new nil_eq (ground arith)),
      λ (ha, hl, hk). ground (arith, same_keys_complete deep old new ks hk),
    )

-- An update that writes only the status is no change for the syncer of specs, whatever the object.
pub deep_equal_apart_from_status-put :
    (deep : DeepEqual) (u : Unstructured) (status : Value)
    → ((v : Value) → deep.on_value v v ≡ true)
    → ((m : Option (List (String × String))) → deep.on_map m m ≡ true)
    → deep_equal_apart_from_status deep
        (unstructured u)
        (unstructured (record u { content = put "status" status u.content }))
      ≡ true
deep_equal_apart_from_status-put deep u status value_refl map_refl =
    let new = record u { content = put "status" status u.content } in
    (deep_equal_apart_from_status_iff deep u new (value_refl null)).1 (
      map_refl _,
      map_refl _,
      λ k.
          rw (get-put "status" k status u.content)
            (ground (arith, eq_iff "status" k, value_refl (get k u.content))),
    )

-- A change under a key other than metadata and status is seen.
pub deep_equal_apart_from_status-differs :
    (deep : DeepEqual) (old new : Unstructured) (key : String)
    → deep.on_value null null ≡ true
    → key ≢ "metadata"
    → key ≢ "status"
    → deep.on_value (get key old.content) (get key new.content) ≡ false
    → deep_equal_apart_from_status deep (unstructured old) (unstructured new) ≡ false
deep_equal_apart_from_status-differs deep old new key nil_eq nm ns differs =
    elim (Bool-cases (deep_equal_apart_from_status deep (unstructured old) (unstructured new))) [
      | inl same ↦
          let agree : Agree deep old new key =
            ((deep_equal_apart_from_status_iff deep old new nil_eq).0 same).2 key in
          ground arith
      | inr e ↦ e
    ]
