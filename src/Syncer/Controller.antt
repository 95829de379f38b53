-- ===== src/Syncer/Controller.antt =====
-- syncer/syncer.go: the controller, its constructor, the items of its queue and its filters on
-- watched objects. What client-go and the environment provide is the record `Env`.
use hohapiserver.Base.{String, ◌==◌, if◌then◌else◌, Bool, Option, none, some}
use hohapiserver.Base.{List, [], ◌∷◌}
use Prim.Native.String
use hohapiserver.Kube.{Gvr, Unstructured, Object, Err, Outcome}

pub data SyncDirection : Type 0 where
  sync_down sync_up : SyncDirection

-- The method values that New stores.
pub data UpsertFunc : Type 0 where
  apply_to_downstream update_status_in_upstream : UpsertFunc

pub data DeleteFunc : Type 0 where
  delete_from_downstream : DeleteFunc

pub record Controller : Type 0 where
  pub name : String
  pub syncer_name : String
  -- fromConfig.Host
  pub from_host : String
  pub upsert_fn : Option UpsertFunc
  pub delete_fn : Option DeleteFunc
  pub direction : SyncDirection
  pub gvrs : List String

-- An item of the work queue.
pub record Holder : Type 0 where
  pub gvr : Gvr
  pub namespace : String
  pub name : String

abbrev pub crds : String
crds = "customresourcedefinitions"

abbrev pub managed_clusters : String
managed_clusters = "managedclusters"

abbrev pub cluster_management_addons : String
cluster_management_addons = "clustermanagementaddons"

-- GlobalHubPolicyNamespaceLabel
abbrev pub original_namespace_label : String
original_namespace_label = "global-hub.open-cluster-management.io/original-namespace"

abbrev pub syncer_apply_manager : String
syncer_apply_manager = "syncer"

abbrev down_gvrs : List String
down_gvrs =
    "policies.v1.policy.open-cluster-management.io"
    ∷ "placementbindings.v1.policy.open-cluster-management.io"
    ∷ "placementrules.v1.apps.open-cluster-management.io" ∷ []

abbrev up_gvrs : List String
up_gvrs =
    "policies.v1.policy.open-cluster-management.io"
    ∷ "managedclusters.v1.cluster.open-cluster-management.io"
    ∷ "clustermanagementaddons.v1alpha1.addon.open-cluster-management.io"
    ∷ "customresourcedefinitions.v1.apiextensions.k8s.io" ∷ []

-- New, less the informers that it starts: the handlers are in `Handlers`.
unfoldable pub new : String → String → SyncDirection → Controller
new syncer_name from_host sync_down = record {
  name = "down--global-hub-->regional-hub";
  syncer_name = syncer_name;
  from_host = from_host;
  upsert_fn = some apply_to_downstream;
  delete_fn = some delete_from_downstream;
  direction = sync_down;
  gvrs = down_gvrs;
}
new syncer_name from_host sync_up = record {
  name = "up--regional-hub-->global-hub";
  syncer_name = syncer_name;
  from_host = from_host;
  upsert_fn = some update_status_in_upstream;
  delete_fn = none;
  direction = sync_up;
  gvrs = up_gvrs;
}

-- The answer of Indexer.GetByKey.
pub record Indexed : Type 0 where
  pub object : Object
  pub exists : Bool
  pub error : Option Err

-- HubControlPlane of apis/hubcontrolplane/v1alpha1, with the three lists of ManagedClustersStatus.
pub record ManagedClustersStatus : Type 0 where
  pub available : List String
  pub unavailable : List String
  pub unknown : List String

pub record HubControlPlane : Type 0 where
  pub name : String
  pub endpoint : String
  pub managed_clusters : ManagedClustersStatus
  pub addons : List String

-- What the syncer calls and does not implement: the informers' caches, the JSON encoder and the
-- converter of apimachinery, and the environment variable POD_NAMESPACE.
pub record Env : Type 0 where
  pub get_by_key : Gvr → String → Indexed
  pub list : Gvr → List Object
  pub marshal : Unstructured → Outcome String
  pub to_unstructured : HubControlPlane → Outcome Unstructured
  pub pod_namespace : Option String

-- namespace + "/" + name, or the name alone.
unfoldable pub qualified_name : String → String → String
qualified_name namespace name =
    if namespace == "" then name else String.◌++◌ namespace (String.◌++◌ "/" name)
