-- ===== src/Syncer/Samples.antt =====
-- A concrete environment, two controllers and some objects on which the tests run.
use hohapiserver.Base.{false, none, some, [], ◌∷◌, ◌==◌, if◌then◌else◌}
use hohapiserver.Kube.{str, end, Unstructured, nothing, unstructured, ok}
use hohapiserver.Kube.Samples.{policies, sample, spec_of, hub_policy, good_cluster, silent_cluster}
use hohapiserver.Kube.Samples.Equal.{same_value, same_map}
use hohapiserver.Syncer.Controller.{
  Controller, sync_down, sync_up, new, Holder, Indexed, Env, managed_clusters,
}
use hohapiserver.Syncer.Equality.{DeepEqual}

abbrev pub deep : DeepEqual
deep = record { on_value = same_value; on_map = same_map }

abbrev pub gone : Indexed
gone = record { object = nothing; exists = false; error = none }

abbrev pub addon : Unstructured
addon = sample "" "work-manager" none end

-- An environment with two managed clusters, one addon and no policy in the caches.
abbrev pub env : Env
env = record {
  get_by_key = λ gvr key. gone;
  list = λ gvr.
      if gvr.resource == managed_clusters
      then unstructured good_cluster ∷ unstructured silent_cluster ∷ []
      else unstructured addon ∷ [];
  marshal = λ u. ok u.metadata.name;
  to_unstructured = λ plane. ok (sample "" plane.name none end);
  pod_namespace = some "hub1";
}

abbrev pub down : Controller
down = new "hub1" "https://hub1" sync_down

abbrev pub up : Controller
up = new "hub1" "https://hub1" sync_up

abbrev pub item : Holder
item = record { gvr = policies; namespace = "default"; name = "p1" }

abbrev pub enforcing_policy : Unstructured
enforcing_policy = record hub_policy { content = spec_of "enforce" }

abbrev pub moved_policy : Unstructured
moved_policy = record hub_policy {
  metadata = record m { uid = "8"; resource_version = "1"; finalizers = str "x" };
}
  where
    open hub_policy use {metadata as m}
