-- ===== src/Syncer/Status.antt =====
-- syncer/statussyncer.go: status goes up to the global hub.
pub mod Laws
use hohapiserver.Base.{String, ◌==◌, if◌then◌else◌, Bool, true, false, ◌||◌, inl, inr}
use hohapiserver.Kube.{
  null, str, put, Gvr, Unstructured, get_object, update_status, apply_patch, not_found, Err, api, M,
  pure, throw, attempt, lift, Server, send, ◌>>=◌,
}
use hohapiserver.Syncer.Controller.{
  Controller, Holder, Env, crds, managed_clusters, cluster_management_addons, syncer_apply_manager,
}
use hohapiserver.Syncer.Summary.{hub_control_plane}

abbrev pub hub_control_plane_gvr : Gvr
hub_control_plane_gvr = record {
  group = "cluster.open-cluster-management.io";
  version = "v1alpha1";
  resource = "hubcontrolplanes";
}

-- errors.IsNotFound
abbrev pub is_not_found : Err → Bool
is_not_found (api not_found) = true
is_not_found _ = false

-- The copy that applyToUpstream makes, before its namespace is set.
unfoldable pub upstream_object : Unstructured → Unstructured
upstream_object u = record u {
  metadata = record m {
    uid = "";
    resource_version = "";
    managed_fields = null;
    deletion_timestamp = null;
    deletion_grace_period = null;
    owner_references = null;
    finalizers = null;
  };
}
  where
    open u use {metadata as m}

abbrev pub in_namespace : String → Unstructured → Unstructured
in_namespace namespace u = record u { metadata = record m { namespace = namespace } }
  where
    open u use {metadata as m}

-- The copy whose status is sent: identity and version of the upstream object.
unfoldable pub status_object : String → String → Unstructured → Unstructured
status_object namespace version u = record u {
  metadata = record m { uid = ""; resource_version = version; namespace = namespace };
}
  where
    open u use {metadata as m}

-- The object content that SetGroupVersionKind completes.
abbrev pub as_hub_control_plane : Unstructured → Unstructured
as_hub_control_plane u = record u {
  content =
      put "kind" (str "HubControlPlane")
        (put "apiVersion" (str "cluster.open-cluster-management.io/v1alpha1") u.content);
}

module _ {S : Type 0} (serve : Server S) where
  -- Both patches of one branch: the object, then its status.
  unfoldable pub apply_both : Gvr → String → String → String → M S Holder (Unit {0})
  apply_both gvr namespace name body = do
    _ ← send serve (apply_patch gvr namespace name body syncer_apply_manager true "")
    _ ← send serve (apply_patch gvr namespace name body syncer_apply_manager true "status")
    pure tt

  unfoldable pub apply_to_upstream : Env → Gvr → String → Unstructured → M S Holder (Unit {0})
  unfolding apply_both upstream_object
  apply_to_upstream env gvr namespace downstream = do
    let upstream = upstream_object downstream
    if upstream.metadata.namespace == ""
        then (do body ← lift (env.marshal upstream); apply_both gvr "" upstream.metadata.name body)
        else (do
          body ← lift (env.marshal (in_namespace namespace upstream))
          apply_both gvr namespace upstream.metadata.name body)

  -- The error of applyToUpstream is dropped.
  unfoldable pub apply_hub_control_plane_in_upstream : Controller → Env → M S Holder (Unit {0})
  apply_hub_control_plane_in_upstream c env = do
    plane ← lift (hub_control_plane c env)
    u ← lift (env.to_unstructured plane)
    _ ← attempt (apply_to_upstream env hub_control_plane_gvr "" (as_hub_control_plane u))
    pure tt

  -- The part of updateStatusInUpstream behind the translations to hubcontrolplane.
  unfoldable pub sync_status : Controller → Env → Gvr → Unstructured → M S Holder (Unit {0})
  sync_status c env gvr downstream = do
    existing ← attempt (send serve (get_object gvr c.syncer_name downstream.metadata.name))
    elim existing [
      | inl e ↦
          if is_not_found e
          then attempt (apply_to_upstream env gvr c.syncer_name downstream) >>= (λ _. pure tt)
          else throw e
      | inr existing ↦ (do
        _ ← send serve (
            update_status gvr c.syncer_name
              (status_object c.syncer_name existing.metadata.resource_version downstream))
        pure tt)
    ]

  unfoldable pub update_status_in_upstream :
      Controller → Env → Gvr → Unstructured → M S Holder (Unit {0})
  update_status_in_upstream c env gvr downstream =
      if gvr.resource == crds || gvr.resource == cluster_management_addons
      then apply_hub_control_plane_in_upstream c env
      else if gvr.resource == managed_clusters
      then (do
        _ ← attempt (apply_hub_control_plane_in_upstream c env)
        sync_status c env gvr downstream)
      else sync_status c env gvr downstream
