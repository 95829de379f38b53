-- ===== src/Syncer/Spec.antt =====
-- syncer/specsyncer.go: specs go down to the regional hub by server-side apply.
pub mod Laws
use hohapiserver.Base.{String, if◌then◌else◌, Bool, true, false, inl, inr}
use hohapiserver.Kube.{
  null, str, end, field, Gvr, Metadata, Unstructured, create_object, delete_object, apply_patch,
  already_exists, Err, api, M, pure, throw, attempt, lift, Server, send, ◌>>=◌, ◌>>◌,
}
use hohapiserver.Base.{none}
use hohapiserver.Syncer.Controller.{Holder, Env, syncer_apply_manager}

abbrev pub empty_metadata : Metadata
empty_metadata = record {
  name = "";
  namespace = "";
  uid = "";
  resource_version = "";
  labels = none;
  annotations = none;
  managed_fields = null;
  deletion_timestamp = null;
  deletion_grace_period = null;
  owner_references = null;
  finalizers = null;
  carried = end;
}

abbrev pub namespaces_gvr : Gvr
namespaces_gvr = record { group = ""; version = "v1"; resource = "namespaces" }

abbrev pub new_namespace : String → Unstructured
new_namespace name = record {
  metadata = record empty_metadata { name = name };
  content = field "apiVersion" (str "v1") (field "kind" (str "Namespace") end);
}

-- k8serrors.IsAlreadyExists
abbrev pub is_already_exists : Err → Bool
is_already_exists (api already_exists) = true
is_already_exists _ = false

-- The copy that is sent down: what belongs to the upstream server is unset.
unfoldable pub downstream_object : String → Unstructured → Unstructured
downstream_object namespace u = record u {
  metadata = record m {
    uid = "";
    resource_version = "";
    namespace = namespace;
    managed_fields = null;
    deletion_timestamp = null;
    deletion_grace_period = null;
    owner_references = null;
    finalizers = null;
  };
}
  where
    open u use {metadata as m}

module _ {S : Type 0} (serve : Server S) where
  unfoldable pub delete_from_downstream : Gvr → String → String → M S Holder (Unit {0})
  delete_from_downstream gvr namespace name = do
    _ ← send serve (delete_object gvr namespace name)
    pure tt

  unfoldable pub ensure_downstream_namespace_exists : String → M S Holder (Unit {0})
  ensure_downstream_namespace_exists namespace = do
    created ← attempt (send serve (create_object namespaces_gvr "" (new_namespace namespace)))
    elim created [ inl e ↦ if is_already_exists e then pure tt else throw e | inr _ ↦ pure tt ]

  -- The part of applyToDownstream behind the copy: encode it and apply it.
  unfoldable pub apply_copy : Env → Gvr → String → Unstructured → M S Holder (Unit {0})
  apply_copy env gvr namespace downstream = do
    body ← lift (env.marshal downstream)
    _ ←
        send serve
          (apply_patch gvr namespace downstream.metadata.name body syncer_apply_manager true "")
    pure tt

  unfoldable pub apply_to_downstream : Env → Gvr → String → Unstructured → M S Holder (Unit {0})
  apply_to_downstream env gvr namespace upstream = do
    ensure_downstream_namespace_exists namespace
    apply_copy env gvr namespace (downstream_object namespace upstream)
