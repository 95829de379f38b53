-- ===== src/Kube/Client.antt =====
-- Unstructured objects, and the requests that a dynamic client sends with the answers it gets.
use hohapiserver.Base.{String, Bool, Option, none, List}
use hohapiserver.Kube.Content.{Value, Fields}

-- schema.GroupVersionResource
pub record Gvr : Type 0 where
  pub group : String
  pub version : String
  pub resource : String

-- The metadata that the program reads or writes. `null` stands for a field that is not set; a nil
-- map of labels or annotations is `none`.
pub record Metadata : Type 0 where
  pub name : String
  pub namespace : String
  pub uid : String
  pub resource_version : String
  pub labels : Option (List (String × String))
  pub annotations : Option (List (String × String))
  pub managed_fields : Value
  pub deletion_timestamp : Value
  pub deletion_grace_period : Value
  pub owner_references : Value
  pub finalizers : Value
  -- The keys that no operation reads or changes, such as creationTimestamp and generation.
  pub carried : Fields

-- unstructured.Unstructured: `content` holds the top-level keys other than metadata.
pub record Unstructured : Type 0 where
  pub metadata : Metadata
  pub content : Fields

-- The dynamic type of an `interface{}` that a handler or an indexer gets.
pub data Object : Type 0 where
  -- nil
  nothing : Object
  unstructured : Unstructured → Object
  -- cache.DeletedFinalStateUnknown with its field Obj
  tombstone : Object → Object
  other : Object

-- obj.(*unstructured.Unstructured)
abbrev pub as_unstructured : Object → Option Unstructured
as_unstructured (unstructured u) = Option.some u
as_unstructured _ = none

-- The reason of an API status error, as IsNotFound and the like tell it.
pub data ApiError : Type 0 where
  not_found already_exists conflict : ApiError
  other_error : String → ApiError

-- What a dynamic client sends; the namespace "" is a call without Namespace(…).
pub data Request : Type 0 where
  get_object : Gvr → String → String → Request
  create_object : Gvr → String → Unstructured → Request
  update_object : Gvr → String → Unstructured → Request
  update_status : Gvr → String → Unstructured → Request
  delete_object : Gvr → String → String → Request
  -- server-side apply: namespace, name, body, field manager, force, subresource ("" for none)
  apply_patch : Gvr → String → String → String → String → Bool → String → Request

pub data Response : Type 0 where
  found : Unstructured → Response
  refused : ApiError → Response
