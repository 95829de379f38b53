-- ===== src/Syncer/Equality.antt =====
-- deepEqualApartFromStatus (syncer/specsyncer.go) and deepEqualStatus (syncer/statussyncer.go): which
-- updates the two controllers take for a change.
pub mod Laws
use hohapiserver.Base.{String, ◌==◌, if◌then◌else◌, Bool, true, false, ◌||◌, Option, elem}
use hohapiserver.Base.{List, [], ◌∷◌}
use hohapiserver.Kube.{Value, get, keys, Unstructured, Object, unstructured}

-- equality.Semantic.DeepEqual of apimachinery, at the two types on which it is called.
pub record DeepEqual : Type 0 where
  pub on_value : Value → Value → Bool
  pub on_map : Option (List (String × String)) → Option (List (String × String)) → Bool

-- The keys of UnstructuredContent().
unfoldable pub content_keys : Unstructured → List String
content_keys u = "metadata" ∷ keys u.content

-- oldObjKeys.Union(newObjKeys), in some order.
unfoldable pub union : List String → List String → List String
union xs [] = xs
union xs (y ∷ ys) = if elem y xs then union xs ys else y ∷ union xs ys

module _ (deep : DeepEqual) where
  -- The loop over the keys: metadata and status are skipped.
  unfoldable pub same_keys : Unstructured → Unstructured → List String → Bool
  same_keys old new [] = true
  same_keys old new (key ∷ rest) =
      let later = same_keys old new rest in
      if key == "metadata" || key == "status"
      then later
      else if deep.on_value (get key old.content) (get key new.content)
      then later
      else false

  unfoldable pub deep_equal_apart_from_status : Object → Object → Bool
  unfolding same_keys
  deep_equal_apart_from_status (unstructured old) (unstructured new) =
      if deep.on_map old.metadata.annotations new.metadata.annotations
      then if deep.on_map old.metadata.labels new.metadata.labels
        then same_keys old new (union (content_keys old) (content_keys new))
        else false
      else false
  deep_equal_apart_from_status _ _ = false

  unfoldable pub deep_equal_status : Object → Object → Bool
  deep_equal_status (unstructured old) (unstructured new) =
      deep.on_value (get "status" old.content) (get "status" new.content)
  deep_equal_status _ _ = false
