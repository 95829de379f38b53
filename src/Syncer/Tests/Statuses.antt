-- ===== src/Syncer/Tests/Statuses.antt =====
-- The HubControlPlane and the way up at concrete inputs.
use hohapiserver.Kube.{ApiError, Response, found, refused, Unstructured}
use hohapiserver.Base.{◌⊎◌, String}
use hohapiserver.Syncer.Summary.Laws.{healthy, unhealthy, undecided, names}
use hohapiserver.Base.{arith, ◌≡◌, refl, inl, none, [], ◌∷◌, ◌+◌, eq_iff, All}
use hohapiserver.Kube.{end, get, unstructured, ok, sent}
use hohapiserver.Kube.Samples.{
  crd_resource, sample, hub_policy, good_cluster, silent_cluster, accepting, refusing, start,
}
use hohapiserver.Syncer.Controller.{new, HubControlPlane}
use hohapiserver.Syncer.Spec.Laws.{forced_apply}
use hohapiserver.Syncer.Summary.{
  managed_cluster_gvr, hub_control_plane, add_cluster, scan_conditions, append_by_status,
}
use hohapiserver.Syncer.Summary.Laws.{unlisted, names_of, names}
use hohapiserver.Syncer.Summary.Plane.{
  TypedCluster, reported, hub_control_plane-reported, hub_control_plane-partition, occurrences,
}
use hohapiserver.Syncer.Status.{
  hub_control_plane_gvr, upstream_object, apply_both, apply_to_upstream,
  apply_hub_control_plane_in_upstream, update_status_in_upstream,
}
use hohapiserver.Syncer.Status.Laws.{update_status_in_upstream-plane}
use hohapiserver.Syncer.Samples.{env, up}

the_plane :
    hub_control_plane up env
    ≡ ok (record {
      name = "hub1";
      endpoint = "https://hub1";
      managed_clusters = record { available = "c1" ∷ []; unavailable = []; unknown = [] };
      addons = "work-manager" ∷ [];
    })
unfolding hub_control_plane new add_cluster get scan_conditions append_by_status
the_plane = refl

env_typed : All TypedCluster (env.list managed_cluster_gvr)
unfolding get
env_typed = (
  (("ManagedClusterConditionAvailable", refl), ("True", refl), tt),
  ((("ManagedClusterJoined", refl), ("True", refl), tt), tt),
)

hub_control_plane-reported_example :
    hub_control_plane up env
    ≡ ok (record {
      name = "hub1";
      endpoint = up.from_host;
      managed_clusters = reported (unstructured good_cluster ∷ unstructured silent_cluster ∷ []);
      addons = "work-manager" ∷ [];
    })
unfolding get names
hub_control_plane-reported_example =
    hub_control_plane-reported up env "hub1" refl (ground (arith, eq_iff "hub1" "")) env_typed
      (tt, tt)

hub_control_plane-partition_example :
    (plane : HubControlPlane) × (hub_control_plane up env ≡ ok plane)
    × (plane.managed_clusters.available ≡ names_of healthy (env.list managed_cluster_gvr))
    × (plane.managed_clusters.unavailable ≡ names_of unhealthy (env.list managed_cluster_gvr))
    × (plane.managed_clusters.unknown ≡ names_of undecided (env.list managed_cluster_gvr))
    × ((x : String)
        → occurrences x plane.managed_clusters.available
            + occurrences x plane.managed_clusters.unavailable
            + occurrences x plane.managed_clusters.unknown
            + occurrences x (names_of unlisted (env.list managed_cluster_gvr))
          ≡ occurrences x (names (env.list managed_cluster_gvr)))
hub_control_plane-partition_example =
    hub_control_plane-partition up env "hub1" refl (ground (arith, eq_iff "hub1" "")) env_typed
      (tt, tt)

plane_result : (apply_hub_control_plane_in_upstream refusing up env start).0 ≡ ok tt
unfolding apply_hub_control_plane_in_upstream hub_control_plane new add_cluster get scan_conditions
    append_by_status apply_to_upstream apply_both
plane_result = refl

abbrev plane_body : HubControlPlane
plane_body = record {
  name = "hub1";
  endpoint = "https://hub1";
  managed_clusters = record { available = "c1" ∷ []; unavailable = []; unknown = [] };
  addons = "work-manager" ∷ [];
}

update_status_in_upstream-plane_example :
    let t = update_status_in_upstream accepting up env crd_resource good_cluster start in
    (((made : Unstructured) × (◌≡◌ {A = Response} (found hub_policy) (found made)))
      × (t ≡ (
        ok tt,
        record {
          server = 2;
          log =
              sent (forced_apply hub_control_plane_gvr "" "hub1" "hub1" "status")
              ∷ sent (forced_apply hub_control_plane_gvr "" "hub1" "hub1" "")
              ∷ [];
        },
      )))
    ⊎ (((e : ApiError) × (◌≡◌ {A = Response} (found hub_policy) (refused e)))
        × (t ≡ (
          ok tt,
          record {
            server = 1;
            log = sent (forced_apply hub_control_plane_gvr "" "hub1" "hub1" "") ∷ [];
          },
        )))
unfolding upstream_object
update_status_in_upstream-plane_example =
    update_status_in_upstream-plane accepting up env crd_resource good_cluster
      (sample "" "hub1" none end) plane_body "hub1" start (inl refl) the_plane refl refl refl
