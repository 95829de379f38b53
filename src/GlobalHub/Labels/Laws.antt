-- ===== src/GlobalHub/Labels/Laws.antt =====
-- placementbinding_controller.go and placementrule_controller.go: what the label is for.
use hohapiserver.Base.{
  String, ◌==◌, arith, ◌≡◌, refl, ap, ◌⊎◌, inl, inr, none, some, ◌∷◌, lookup, lookup-insert,
  lookup-insert_self, if◌then◌else◌, Option-cases,
}
use hohapiserver.Kube.{
  Gvr, Unstructured, Object, unstructured, update_object, Response, found, refused, Request,
  continue, pure, Outcome, ok, World, sent, Server,
}
use hohapiserver.Kube.Effects.{answer}
use hohapiserver.Syncer.Controller.{sync_down}
use hohapiserver.Syncer.Handlers.Laws.{Eligible}
use hohapiserver.Syncer.Spec.Laws.{reply}
use hohapiserver.GlobalHub.Labels.{
  original_namespace_label, labels_of, original_namespace, labelled, Reconciled, add_label,
  reconcile_placement_binding, reconcile_placement_rule,
}

-- The label of the labelled object is its namespace, and its other labels stay.
pub labelled_labels :
    (u : Unstructured) (key : String)
    → lookup key (labels_of (labelled u).metadata) ≡ (
        if original_namespace_label == key
        then some u.metadata.namespace
        else lookup key (labels_of u.metadata))
unfolding labelled
labelled_labels u key =
    lookup-insert original_namespace_label key u.metadata.namespace (labels_of u.metadata)

pub original_namespace-labelled :
    (u : Unstructured) → original_namespace (labelled u) ≡ some u.metadata.namespace
unfolding labelled
original_namespace-labelled u =
    lookup-insert_self original_namespace_label u.metadata.namespace (labels_of u.metadata)

-- An object that a controller of the global hub has labelled is one that the syncer takes down.
pub labelled-Eligible : (gvr : Gvr) (u : Unstructured) → Eligible sync_down gvr (labelled u)
unfolding labelled
labelled-Eligible gvr u = inr (original_namespace-labelled u)

module _ {S : Type 0} (serve : Server S) (gvr : Gvr) where
  -- The outcome of the one update that labels an object.
  abbrev pub labelling : Unstructured → World S String → Reconciled S
  labelling u w =
      let q = update_object gvr u.metadata.namespace (labelled u) in
      record {
        outcome = reply (serve q w.server).0;
        world = record w { server = (serve q w.server).1; log = sent q ∷ w.log };
        object = unstructured (labelled u);
      }

  answered :
      (r : Response × S) (w : World S String) (q : Request)
      → continue (answer r.0, record { server = r.1; log = sent q ∷ w.log }) (λ _. pure tt)
        ≡ (reply r.0, record { server = r.1; log = sent q ∷ w.log })
  answered (found u, s) w q = refl
  answered (refused e, s) w q = refl

  pub add_label_lem :
      (u : Unstructured) (w : World S String) → add_label serve gvr u w ≡ labelling u w
  unfolding add_label labelled
  add_label_lem u w =
      let q = update_object gvr u.metadata.namespace (labelled u) in
      ap (λ (t : Outcome (Unit {0}) × World S String). mark t.0 t.1 (unstructured (labelled u)))
        (answered (serve q w.server) w q)
    where
      mark : Outcome (Unit {0}) → World S String → Object → Reconciled S
      mark o w' x = record { outcome = o; world = w'; object = x }

  -- Both placement controllers send exactly one request for an object without the label, the update to
  -- the labelled object, and none for an object that has it.
  pub reconcile_placement_binding-labels :
      (u : Unstructured) (w : World S String)
      → ((original_namespace u ≡ none)
          × (reconcile_placement_binding serve gvr (unstructured u) w ≡ labelling u w)
          × (reconcile_placement_rule serve gvr (unstructured u) w ≡ labelling u w))
        ⊎ (((namespace : String) × (original_namespace u ≡ some namespace))
            × (reconcile_placement_binding serve gvr (unstructured u) w
                ≡ record { outcome = ok tt; world = w; object = unstructured u })
            × (reconcile_placement_rule serve gvr (unstructured u) w
                ≡ record { outcome = ok tt; world = w; object = unstructured u }))
  unfolding reconcile_placement_binding reconcile_placement_rule
  reconcile_placement_binding-labels u w = elim (Option-cases (original_namespace u)) [
    | inl e ↦ inl (e, ground (arith, add_label_lem u w), ground (arith, add_label_lem u w))
    | inr (o, e) ↦ inr ((o, e), ground arith, ground arith)
  ]
