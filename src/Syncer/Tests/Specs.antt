-- ===== src/Syncer/Tests/Specs.antt =====
-- Comparisons, handlers and the way down at concrete inputs.
use hohapiserver.Base.{
  arith, ◌≡◌, refl, ◌≢◌, ◌⊎◌, inr, ◌↔◌, true, none, [], ◌∷◌, String, eq_iff, lookup,
}
use hohapiserver.Kube.{
  null, get, unstructured, tombstone, already_exists, ok, fail, panic, sent, api,
}
use hohapiserver.Kube.Samples.{policies, hub_policy, existing, start}
use hohapiserver.Kube.Samples.Equal.{same_value, same_value_refl, same_map}
use hohapiserver.Syncer.Controller.{sync_down, sync_up, new}
use hohapiserver.Syncer.Equality.{deep_equal_apart_from_status}
use hohapiserver.Syncer.Equality.Laws.{Agree, deep_equal_apart_from_status_iff}
use hohapiserver.Syncer.Handlers.{add_func, update_func, delete_func}
use hohapiserver.Syncer.Handlers.Laws.{
  Eligible, enqueued, add_func_lem, delete_func-tombstone, update_func-changed,
}
use hohapiserver.Syncer.Spec.{downstream_object, apply_to_downstream}
use hohapiserver.Syncer.Spec.Laws.{
  create_namespace, forced_apply, apply_to_downstream-sends, apply_to_downstream-SameSpec,
}
use hohapiserver.Syncer.Samples.{deep, env, down, enforcing_policy, moved_policy}

deep_equal_apart_from_status_iff_example :
    (deep_equal_apart_from_status deep (unstructured hub_policy) (unstructured moved_policy) ≡ true)
    ↔ ((same_map none none ≡ true)
        × (same_map hub_policy.metadata.labels moved_policy.metadata.labels ≡ true)
        × ((k : String) → Agree deep hub_policy moved_policy k))
deep_equal_apart_from_status_iff_example =
    deep_equal_apart_from_status_iff deep hub_policy moved_policy (same_value_refl null)

add_func_example :
    (Eligible down.direction policies hub_policy
      × (add_func down policies (unstructured hub_policy) start
          ≡ (ok tt, enqueued policies hub_policy start)))
    ⊎ ((¬ Eligible down.direction policies hub_policy)
        × (add_func down policies (unstructured hub_policy) start ≡ (ok tt, start)))
add_func_example = add_func_lem down policies start hub_policy

delete_func-tombstone_example :
    (((down.direction ≡ sync_down) ⊎ (policies.resource ≡ "customresourcedefinitions"))
      × (delete_func down policies (tombstone (unstructured hub_policy)) start ≡ (panic, start)))
    ⊎ ((down.direction ≡ sync_up)
        × (policies.resource ≢ "customresourcedefinitions")
        × (delete_func down policies (tombstone (unstructured hub_policy)) start ≡ (ok tt, start)))
delete_func-tombstone_example = delete_func-tombstone down policies start (unstructured hub_policy)

update_func-changed_example :
    update_func deep down policies (unstructured hub_policy) (unstructured enforcing_policy) start
    ≡ (ok tt, enqueued policies enforcing_policy start)
unfolding new same_value get lookup
update_func-changed_example =
    update_func-changed down policies start deep hub_policy enforcing_policy "spec" refl refl
      (inr refl) (ground (arith, eq_iff "spec" "metadata")) (ground (arith, eq_iff "spec" "status"))
      refl

apply_to_downstream-sends_example :
    apply_to_downstream existing env policies "default" hub_policy start ≡ (
      fail (api already_exists),
      record {
        server = 2;
        log =
            sent (forced_apply policies "default" "p1" "p1" "")
            ∷ sent (create_namespace "default")
            ∷ [];
      },
    )
unfolding downstream_object
apply_to_downstream-sends_example =
    apply_to_downstream-sends existing env policies "default" hub_policy "p1" start (inr refl) refl

apply_to_downstream-SameSpec_example :
    apply_to_downstream existing env policies "default" hub_policy start
    ≡ apply_to_downstream existing env policies "default" moved_policy start
apply_to_downstream-SameSpec_example =
    apply_to_downstream-SameSpec existing env policies "default" hub_policy moved_policy start
      (record {
        same_name = refl;
        same_labels = refl;
        same_annotations = refl;
        same_carried = refl;
        same_content = refl;
      })
