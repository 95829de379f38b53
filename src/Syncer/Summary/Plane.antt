-- ===== src/Syncer/Summary/Plane.antt =====
-- The HubControlPlane that syncer/statussyncer.go builds: it is built whenever the caches hold what the
-- API server stores, and it reports each cluster by its health.
use hohapiserver.Base.{
  String, ◌==◌, eq_iff, arith, ◌≡◌, refl, ◌≢◌, some, List, [], ◌∷◌, ◌++◌, if◌then◌else◌, ℕ, suc,
  All, ◌+◌,
}
use hohapiserver.Kube.{
  Value, null, str, arr, obj, Values, nil, cons, get, Object, nothing, unstructured, ok,
}
use hohapiserver.Syncer.Controller.{Controller, Env, ManagedClustersStatus, HubControlPlane}
use hohapiserver.Syncer.Summary.{
  managed_cluster_gvr, cluster_management_addon_gvr, condition_available, no_clusters,
  append_by_status, scan_conditions, add_conditions, add_status, add_cluster, add_clusters,
  addon_names, syncer_namespace, hub_control_plane,
}
use hohapiserver.Syncer.Summary.Laws.{
  healthy, unhealthy, undecided, unlisted, names_of, names, add_clusters-Gains, addon_names-names,
}

-- Conditions as the API server stores them: objects with a text for type and for status.
abbrev pub TypedConditions : Values → Type 0
TypedConditions nil = Unit
TypedConditions (cons (obj c) rest) =
    ((t : String) × (get "type" c ≡ str t))
    × ((s : String) × (get "status" c ≡ str s))
    × TypedConditions rest
TypedConditions (cons _ rest) = ⊥

abbrev TypedConditionList : Value → Type 0
TypedConditionList (arr cs) = TypedConditions cs
TypedConditionList _ = Unit

abbrev TypedStatus : Value → Type 0
TypedStatus (obj s) = TypedConditionList (get "conditions" s)
TypedStatus _ = Unit

-- A cached managed cluster with such conditions, if it has any.
abbrev pub TypedCluster : Object → Type 0
TypedCluster (unstructured u) = TypedStatus (get "status" u.content)
TypedCluster _ = ⊥

abbrev pub IsUnstructured : Object → Type 0
IsUnstructured (unstructured u) = Unit
IsUnstructured _ = ⊥

scan_conditions-total :
    (cs : Values) (name : String) (s : ManagedClustersStatus)
    → TypedConditions cs
    → (t : ManagedClustersStatus) × (scan_conditions cs name s ≡ ok t)
unfolding scan_conditions
scan_conditions-total nil name s h = (s, refl)
scan_conditions-total (cons (obj c) rest) name s ((type, te), (status, se), h) =
    let (t, later) = scan_conditions-total rest name s h in
    (if type == condition_available then append_by_status status name s else t, ground arith)
scan_conditions-total (cons v rest) name s h = absurd h

add_conditions-total :
    (v : Value) (name : String) (s : ManagedClustersStatus)
    → TypedConditionList v
    → (t : ManagedClustersStatus) × (add_conditions v name s ≡ ok t)
unfolding add_conditions
add_conditions-total (arr cs) name s h = scan_conditions-total cs name s h
add_conditions-total null name s h = (_, refl)
add_conditions-total _ name s h = (_, refl)

add_status-total :
    (v : Value) (name : String) (s : ManagedClustersStatus)
    → TypedStatus v
    → (t : ManagedClustersStatus) × (add_status v name s ≡ ok t)
unfolding add_status
add_status-total (obj m) name s h = add_conditions-total (get "conditions" m) name s h
add_status-total null name s h = (_, refl)
add_status-total _ name s h = (_, refl)

add_clusters-total :
    (os : List Object) (s : ManagedClustersStatus)
    → All TypedCluster os
    → (t : ManagedClustersStatus) × (add_clusters os s ≡ ok t)
unfolding add_clusters add_cluster
add_clusters-total [] s h = (s, refl)
add_clusters-total (unstructured u ∷ os) s (here, h) =
    let (s', first) = add_status-total (get "status" u.content) u.metadata.name s here in
    let (t, later) = add_clusters-total os s' h in (t, rw first later)
add_clusters-total (nothing ∷ os) s (here, h) = absurd here
add_clusters-total (_ ∷ os) s (here, h) = absurd here

addon_names-total :
    (os : List Object) (acc : List String)
    → All IsUnstructured os
    → (l : List String) × (addon_names os acc ≡ ok l)
unfolding addon_names
addon_names-total [] acc h = (acc, refl)
addon_names-total (unstructured u ∷ os) acc (here, h) =
    addon_names-total os (acc ++ u.metadata.name ∷ []) h
addon_names-total (nothing ∷ os) acc (here, h) = absurd here
addon_names-total (_ ∷ os) acc (here, h) = absurd here

syncer_namespace_lem : (s : String) → s ≢ "" → syncer_namespace (some s) ≡ ok s
unfolding syncer_namespace
syncer_namespace_lem s h = ground (arith, eq_iff s "")

-- The status that reports each cached cluster by its health.
abbrev pub reported : List Object → ManagedClustersStatus
reported os = record {
  available = names_of healthy os;
  unavailable = names_of unhealthy os;
  unknown = names_of undecided os;
}

-- With POD_NAMESPACE set and caches that hold well-typed objects, the HubControlPlane is built: it
-- has the namespace for a name, lists the clusters by their health and names all addons.
pub hub_control_plane-reported :
    (c : Controller) (env : Env) (namespace : String)
    → env.pod_namespace ≡ some namespace
    → namespace ≢ ""
    → All TypedCluster (env.list managed_cluster_gvr)
    → All IsUnstructured (env.list cluster_management_addon_gvr)
    → hub_control_plane c env
      ≡ ok (record {
        name = namespace;
        endpoint = c.from_host;
        managed_clusters = reported (env.list managed_cluster_gvr);
        addons = names (env.list cluster_management_addon_gvr);
      })
unfolding hub_control_plane
hub_control_plane-reported c env namespace set nonempty typed plain =
    let (t, clusters) = add_clusters-total (env.list managed_cluster_gvr) no_clusters typed in
    let (l, addons) = addon_names-total (env.list cluster_management_addon_gvr) [] plain in
    let g = add_clusters-Gains (env.list managed_cluster_gvr) no_clusters t clusters in
    let e = addon_names-names (env.list cluster_management_addon_gvr) [] l addons in
    rw (set, syncer_namespace_lem namespace nonempty, clusters, addons) (ground (arith, g, e))

-- How often a name is in a list.
abbrev pub occurrences : String → List String → ℕ
occurrences x [] = 0
occurrences x (y ∷ ys) = if y == x then suc (occurrences x ys) else occurrences x ys

reported-partition :
    (x : String) (os : List Object)
    → All IsUnstructured os
    → occurrences x (reported os).available
        + occurrences x (reported os).unavailable
        + occurrences x (reported os).unknown
        + occurrences x (names_of unlisted os)
      ≡ occurrences x (names os)
unfolding names_of names
reported-partition x [] h = omega arith
reported-partition x (unstructured u ∷ os) (here, h) = ground (arith, reported-partition x os h)
reported-partition x (nothing ∷ os) (here, h) = absurd here
reported-partition x (_ ∷ os) (here, h) = absurd here

plain_of_typed : (os : List Object) → All TypedCluster os → All IsUnstructured os
plain_of_typed [] h = tt
plain_of_typed (unstructured u ∷ os) (here, h) = (tt, plain_of_typed os h)
plain_of_typed (nothing ∷ os) (here, h) = absurd here
plain_of_typed (_ ∷ os) (here, h) = absurd here

-- With POD_NAMESPACE set and caches that hold well-typed objects: each list of the HubControlPlane that is
-- built holds the names of the cached clusters of that health, and no others, and each name is as often in the
-- three lists together as among the cached clusters, less the clusters that have conditions of which none says
-- whether the cluster is available. Those are in no list.
pub hub_control_plane-partition :
    (c : Controller) (env : Env) (namespace : String)
    → env.pod_namespace ≡ some namespace
    → namespace ≢ ""
    → All TypedCluster (env.list managed_cluster_gvr)
    → All IsUnstructured (env.list cluster_management_addon_gvr)
    → let clusters = env.list managed_cluster_gvr in
      (plane : HubControlPlane) × (hub_control_plane c env ≡ ok plane)
      × (plane.managed_clusters.available ≡ names_of healthy clusters)
      × (plane.managed_clusters.unavailable ≡ names_of unhealthy clusters)
      × (plane.managed_clusters.unknown ≡ names_of undecided clusters)
      × ((x : String)
          → occurrences x plane.managed_clusters.available
              + occurrences x plane.managed_clusters.unavailable
              + occurrences x plane.managed_clusters.unknown
              + occurrences x (names_of unlisted clusters)
            ≡ occurrences x (names clusters))
hub_control_plane-partition c env namespace set nonempty typed plain = (
  _,
  hub_control_plane-reported c env namespace set nonempty typed plain,
  refl,
  refl,
  refl,
  λ x.
      reported-partition x (env.list managed_cluster_gvr)
        (plain_of_typed (env.list managed_cluster_gvr) typed),
)
