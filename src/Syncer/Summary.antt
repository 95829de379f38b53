-- ===== src/Syncer/Summary.antt =====
-- syncer/statussyncer.go, applyHubControlPlaneInUpstream: the summary of a regional hub that is made
-- from the informers' caches. A failed type assertion without `ok` is a panic.
pub mod Laws
pub mod Plane
use hohapiserver.Base.{String, ◌==◌, if◌then◌else◌, Option, none, some, List, [], ◌∷◌, ◌++◌}
use hohapiserver.Kube.{
  Value, str, arr, obj, Values, nil, cons, get, Gvr, Unstructured, Object, unstructured,
  not_unstructured, no_pod_namespace, Outcome, ok, fail, panic,
}
use hohapiserver.Kube.Outcomes.{◌>>=◌}
use hohapiserver.Syncer.Controller.{
  Controller, Env, ManagedClustersStatus, HubControlPlane, managed_clusters,
  cluster_management_addons,
}

abbrev pub managed_cluster_gvr : Gvr
managed_cluster_gvr = record {
  group = "cluster.open-cluster-management.io";
  version = "v1";
  resource = managed_clusters;
}

abbrev pub cluster_management_addon_gvr : Gvr
cluster_management_addon_gvr = record {
  group = "addon.open-cluster-management.io";
  version = "v1alpha1";
  resource = cluster_management_addons;
}

abbrev pub condition_available : String
condition_available = "ManagedClusterConditionAvailable"

abbrev pub no_clusters : ManagedClustersStatus
no_clusters = record { available = []; unavailable = []; unknown = [] }

abbrev pub append_unknown : String → ManagedClustersStatus → ManagedClustersStatus
append_unknown name s = record s { unknown = s.unknown ++ name ∷ [] }

-- The switch on cond["status"].(string).
unfoldable pub append_by_status : String → String → ManagedClustersStatus → ManagedClustersStatus
append_by_status status name s =
    if status == "True"
    then record s { available = s.available ++ name ∷ [] }
    else if status == "False"
    then record s { unavailable = s.unavailable ++ name ∷ [] }
    else append_unknown name s

append_condition : Value → String → ManagedClustersStatus → Outcome ManagedClustersStatus
append_condition (str status) name s = ok (append_by_status status name s)
append_condition _ name s = panic

-- The loop over the conditions, which ends at the first of type ManagedClusterConditionAvailable.
unfoldable pub scan_conditions :
    Values → String → ManagedClustersStatus → Outcome ManagedClustersStatus
unfolding append_condition
scan_conditions nil name s = ok s
scan_conditions (cons (obj cond) rest) name s =
    let later = scan_conditions rest name s in
    elim (get "type" cond) [
      | str type ↦
          if type == condition_available then append_condition (get "status" cond) name s else later
      | _ ↦ panic
    ]
scan_conditions (cons _ rest) name s = panic

add_conditions : Value → String → ManagedClustersStatus → Outcome ManagedClustersStatus
add_conditions (arr conditions) name s = scan_conditions conditions name s
add_conditions _ name s = ok (append_unknown name s)

-- One round of the loop over the managed clusters.
unfoldable pub add_status : Value → String → ManagedClustersStatus → Outcome ManagedClustersStatus
unfolding add_conditions
add_status (obj status) name s = add_conditions (get "conditions" status) name s
add_status _ name s = ok (append_unknown name s)

unfoldable pub add_cluster : Unstructured → ManagedClustersStatus → Outcome ManagedClustersStatus
unfolding add_status
add_cluster u s = add_status (get "status" u.content) u.metadata.name s

unfoldable pub add_clusters : List Object → ManagedClustersStatus → Outcome ManagedClustersStatus
add_clusters [] s = ok s
add_clusters (unstructured u ∷ rest) s = do s' ← add_cluster u s; add_clusters rest s'
add_clusters (_ ∷ rest) s = fail not_unstructured

unfoldable pub addon_names : List Object → List String → Outcome (List String)
addon_names [] addons = ok addons
addon_names (unstructured u ∷ rest) addons = addon_names rest (addons ++ u.metadata.name ∷ [])
addon_names (_ ∷ rest) addons = fail not_unstructured

-- !ok || syncerNamespace == ""
unfoldable pub syncer_namespace : Option String → Outcome String
syncer_namespace none = fail no_pod_namespace
syncer_namespace (some s) = if s == "" then fail no_pod_namespace else ok s

-- The HubControlPlane that is applied.
unfoldable pub hub_control_plane : Controller → Env → Outcome HubControlPlane
unfolding add_clusters addon_names syncer_namespace
hub_control_plane c env = do
  namespace ← syncer_namespace env.pod_namespace
  clusters ← add_clusters (env.list managed_cluster_gvr) no_clusters
  addons ← addon_names (env.list cluster_management_addon_gvr) []
  ok (record {
    name = namespace;
    endpoint = c.from_host;
    managed_clusters = clusters;
    addons = addons;
  })
