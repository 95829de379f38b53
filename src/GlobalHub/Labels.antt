-- ===== src/GlobalHub/Labels.antt =====
-- placementbinding_controller.go and placementrule_controller.go: an object without the label
-- GlobalHubPolicyNamespaceLabel gets it, with its own namespace. The reconcilers change the object in
-- place, and that object is the one in the informer's store.
pub mod Laws
use hohapiserver.Base.{String, Option, none, some, List, [], lookup, insert}
use hohapiserver.Kube.{
  Gvr, Metadata, Unstructured, Object, unstructured, as_unstructured, update_object,
  not_unstructured, Outcome, fail, ok, World, M, pure, Server, send, ◌>>=◌,
}

abbrev pub original_namespace_label : String
original_namespace_label = "global-hub.open-cluster-management.io/original-namespace"

-- GetLabels, and the empty map in place of a nil one.
abbrev pub labels_of : Metadata → List (String × String)
labels_of m = elim m.labels [ none ↦ [] | some labels ↦ labels ]

-- labels[GlobalHubPolicyNamespaceLabel], with its ok.
abbrev pub original_namespace : Unstructured → Option String
original_namespace u = lookup original_namespace_label (labels_of u.metadata)

-- The object after SetLabels.
unfoldable pub labelled : Unstructured → Unstructured
labelled u = record u {
  metadata = record m { labels = some (insert original_namespace_label m.namespace (labels_of m)) };
}
  where
    open u use {metadata as m}

-- What a reconciler leaves: its result, the world, and the object of the store.
pub record Reconciled (S : Type 0) : Type 0 where
  pub outcome : Outcome (Unit {0})
  pub world : World S String
  pub object : Object

module _ {S : Type 0} (serve : Server S) where
  update_label : Gvr → Unstructured → M S String (Unit {0})
  update_label gvr u = do _ ← send serve (update_object gvr u.metadata.namespace u); pure tt

  -- The branch of a missing label.
  unfoldable pub add_label : Gvr → Unstructured → World S String → Reconciled S
  unfolding update_label
  add_label gvr u w =
      let t = update_label gvr (labelled u) w in
      record { outcome = t.0; world = t.1; object = unstructured (labelled u) }

  -- ReconcileFunc of the placement binding controller.
  unfoldable pub reconcile_placement_binding : Gvr → Object → World S String → Reconciled S
  reconcile_placement_binding gvr o w = elim (as_unstructured o) [
    | none ↦ record { outcome = fail not_unstructured; world = w; object = o }
    | some u ↦ elim (original_namespace u) [
      | none ↦ add_label gvr u w
      | some _ ↦ record { outcome = ok tt; world = w; object = o }
    ]
  ]

  -- ReconcileFunc of the placement rule controller, which has the same text.
  unfoldable pub reconcile_placement_rule : Gvr → Object → World S String → Reconciled S
  reconcile_placement_rule gvr o w = elim (as_unstructured o) [
    | none ↦ record { outcome = fail not_unstructured; world = w; object = o }
    | some u ↦ elim (original_namespace u) [
      | none ↦ add_label gvr u w
      | some _ ↦ record { outcome = ok tt; world = w; object = o }
    ]
  ]
