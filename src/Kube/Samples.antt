-- ===== src/Kube/Samples.antt =====
-- Concrete objects and API servers on which the tests of the components run.
pub mod Equal
use hohapiserver.Base.{ℕ, suc, String, ◌∷◌, [], none, some, Option, List}
use hohapiserver.Kube.Content.{null, str, arr, obj, nil, cons, end, field, Fields, Values}
use hohapiserver.Kube.Client.{
  Gvr, Metadata, Unstructured, get_object, found, refused, not_found, already_exists, other_error,
}
use hohapiserver.Kube.Effects.{World, Server}

abbrev pub policies : Gvr
policies = record {
  group = "policy.open-cluster-management.io";
  version = "v1";
  resource = "policies";
}

abbrev pub clusters : Gvr
clusters = record {
  group = "cluster.open-cluster-management.io";
  version = "v1";
  resource = "managedclusters";
}

abbrev pub crd_resource : Gvr
crd_resource = record {
  group = "apiextensions.k8s.io";
  version = "v1";
  resource = "customresourcedefinitions";
}

abbrev pub sample_metadata : String → String → Option (List (String × String)) → Metadata
sample_metadata namespace name labels = record {
  name = name;
  namespace = namespace;
  uid = "4711";
  resource_version = "12";
  labels = labels;
  annotations = none;
  managed_fields = null;
  deletion_timestamp = null;
  deletion_grace_period = null;
  owner_references = null;
  finalizers = null;
  carried = end;
}

abbrev pub sample : String → String → Option (List (String × String)) → Fields → Unstructured
sample namespace name labels content = record {
  metadata = sample_metadata namespace name labels;
  content = content;
}

abbrev pub label_key : String
label_key = "global-hub.open-cluster-management.io/original-namespace"

abbrev pub spec_of : String → Fields
spec_of action = field "spec" (obj (field "remediationAction" (str action) end)) end

-- A policy of the global hub, one that a syncer sent up, and one without the label.
abbrev pub hub_policy : Unstructured
hub_policy = sample "default" "p1" (some ((label_key, "default") ∷ [])) (spec_of "inform")

abbrev pub synced_policy : Unstructured
synced_policy = sample "hub1" "p1" (some ((label_key, "default") ∷ [])) (spec_of "inform")

abbrev pub bare_policy : Unstructured
bare_policy = sample "default" "p1" none (spec_of "inform")

abbrev pub condition : String → String → Fields
condition type status = field "type" (str type) (field "status" (str status) end)

abbrev pub cluster : String → Values → Unstructured
cluster name conditions =
    sample "" name none (field "status" (obj (field "conditions" (arr conditions) end)) end)

-- A cluster that is available, and one that has joined without saying more.
abbrev pub good_cluster : Unstructured
good_cluster = cluster "c1" (cons (obj (condition "ManagedClusterConditionAvailable" "True")) nil)

abbrev pub silent_cluster : Unstructured
silent_cluster = cluster "c2" (cons (obj (condition "ManagedClusterJoined" "True")) nil)

-- Servers that count the requests: one accepts all, one has every namespace, one holds no object, and
-- one refuses all.
abbrev pub accepting : Server ℕ
accepting q n = (found hub_policy, suc n)

abbrev pub existing : Server ℕ
existing (get_object _ _ _) n = (found hub_policy, suc n)
existing _ n = (refused already_exists, suc n)

abbrev pub empty : Server ℕ
empty (get_object _ _ _) n = (refused not_found, suc n)
empty _ n = (found hub_policy, suc n)

abbrev pub refusing : Server ℕ
refusing q n = (refused (other_error "unavailable"), suc n)

abbrev pub start : {K : Type 0} → World ℕ K
start = record { server = 0; log = [] }
