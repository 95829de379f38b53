-- ===== src/Syncer/Handlers.antt =====
-- syncer/syncer.go: the event handlers that New registers for each resource, and AddToQueue. A method
-- call on the nil pointer that a failed type assertion leaves is a panic.
pub mod Laws
use hohapiserver.Base.{
  String, ◌==◌, if◌then◌else◌, Bool, true, false, not, ◌&&◌, Option, none, some,
}
use hohapiserver.Base.{lookup}
use hohapiserver.Kube.{
  Gvr, Metadata, Unstructured, Object, tombstone, as_unstructured, Outcome, ok, panic, M, pure,
  lift, emit, queue_add, ◌>>=◌,
}
use hohapiserver.Syncer.Controller.{
  Controller, SyncDirection, sync_down, sync_up, Holder, crds, original_namespace_label,
}
use hohapiserver.Syncer.Equality.{DeepEqual, deep_equal_apart_from_status, deep_equal_status}

abbrev pub hub_crd : String
hub_crd = "managedclusters.cluster.open-cluster-management.io"

-- GetLabels()[key], with its ok.
abbrev pub label : String → Metadata → Option String
label key m = elim m.labels [ none ↦ none | some labels ↦ lookup key labels ]

-- The test of the direction SyncUp: of all CRDs only that of managedclusters passes.
filter_up : Gvr → Option Unstructured → Outcome Bool
filter_up gvr none = if gvr.resource == crds then panic else ok false
filter_up gvr (some u) = if gvr.resource == crds then ok (u.metadata.name == hub_crd) else ok true

-- The test of the direction SyncDown: a namespaced object must carry its own namespace as label.
filter_down : Option Unstructured → Outcome Bool
filter_down none = panic
filter_down (some u) =
    if u.metadata.namespace == ""
    then ok true
    else elim (label original_namespace_label u.metadata) [
      | none ↦ ok false
      | some original ↦ ok (original == u.metadata.namespace)
    ]

-- The value of shouldEnqueue after these tests, the same in the three handlers.
unfoldable pub should_enqueue : SyncDirection → Gvr → Object → Outcome Bool
unfolding filter_up filter_down
should_enqueue sync_up gvr o = filter_up gvr (as_unstructured o)
should_enqueue sync_down gvr o = filter_down (as_unstructured o)

-- objToCheck, and meta.Accessor of it.
abbrev untombed : Object → Object
untombed (tombstone o) = o
untombed o = o

-- The last test of UpdateFunc.
unchanged : DeepEqual → SyncDirection → Object → Object → Bool
unchanged deep sync_down old new = deep_equal_apart_from_status deep old new
unchanged deep sync_up old new = deep_equal_status deep old new

module _ {S : Type 0} where
  unfoldable pub add_to_queue : Gvr → Object → M S Holder (Unit {0})
  add_to_queue gvr o = elim (as_unstructured (untombed o)) [
    | none ↦ pure tt
    | some u ↦
        emit (
          queue_add
            (record { gvr = gvr; namespace = u.metadata.namespace; name = u.metadata.name }))
  ]

  -- AddFunc; DeleteFunc has the same text.
  unfoldable pub add_func : Controller → Gvr → Object → M S Holder (Unit {0})
  unfolding should_enqueue add_to_queue
  add_func c gvr o = do
    enqueue ← lift (should_enqueue c.direction gvr o)
    if enqueue then add_to_queue gvr o else pure tt

  unfoldable pub delete_func : Controller → Gvr → Object → M S Holder (Unit {0})
  unfolding should_enqueue add_to_queue
  delete_func c gvr o = do
    enqueue ← lift (should_enqueue c.direction gvr o)
    if enqueue then add_to_queue gvr o else pure tt

  unfoldable pub update_func :
      DeepEqual → Controller → Gvr → Object → Object → M S Holder (Unit {0})
  unfolding should_enqueue add_to_queue unchanged
  update_func deep c gvr old new = do
    enqueue ← lift (should_enqueue c.direction gvr new)
    if enqueue && not (unchanged deep c.direction old new) then add_to_queue gvr new else pure tt
