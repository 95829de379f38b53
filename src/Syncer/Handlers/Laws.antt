-- ===== src/Syncer/Handlers/Laws.antt =====
-- Which watched objects the handlers of syncer/syncer.go put into the work queue.
use hohapiserver.Base.{
  String, ◌==◌, eq_iff, arith, ◌≡◌, refl, ap, ◌∙◌, ◌≢◌, ◌⊎◌, inl, inr, true, false, Bool-cases,
  Option, some, Option-cases, List, ◌∷◌,
}
use hohapiserver.Kube.{
  Gvr, Value, null, get, put, Unstructured, Object, unstructured, tombstone, ok, panic, queue_add,
  World,
}
use hohapiserver.Syncer.Controller.{
  Controller, SyncDirection, sync_down, sync_up, Holder, crds, original_namespace_label,
}
use hohapiserver.Syncer.Equality.{DeepEqual}
use hohapiserver.Syncer.Equality.Laws.{
  deep_equal_apart_from_status-put, deep_equal_apart_from_status-differs,
}
use hohapiserver.Syncer.Handlers.{
  hub_crd, label, should_enqueue, add_func, update_func, delete_func,
}

-- What a controller of each direction is meant to sync: downwards an object without a namespace, or
-- one whose label names the namespace that it is in; upwards any object, but of the CRDs only that
-- of managedclusters.
abbrev pub Eligible : SyncDirection → Gvr → Unstructured → Type 0
Eligible sync_down gvr u =
    (u.metadata.namespace ≡ "")
    ⊎ (label original_namespace_label u.metadata ≡ some u.metadata.namespace)
Eligible sync_up gvr u = (gvr.resource ≢ crds) ⊎ (u.metadata.name ≡ hub_crd)

-- The item for an object.
abbrev pub holder_of : Gvr → Unstructured → Holder
holder_of gvr u = record { gvr = gvr; namespace = u.metadata.namespace; name = u.metadata.name }

abbrev pub enqueued : {S : Type 0} → Gvr → Unstructured → World S Holder → World S Holder
enqueued gvr u w = record w { log = queue_add (holder_of gvr u) ∷ w.log }

pub should_enqueue_lem :
    (d : SyncDirection) (gvr : Gvr) (u : Unstructured)
    → (Eligible d gvr u × (should_enqueue d gvr (unstructured u) ≡ ok true))
      ⊎ ((¬ Eligible d gvr u) × (should_enqueue d gvr (unstructured u) ≡ ok false))
unfolding should_enqueue
should_enqueue_lem sync_down gvr u =
    let ns = u.metadata.namespace in
    let own = label original_namespace_label u.metadata in
    elim (Bool-cases (ns == "")) [
      | inl cluster ↦ inl (inl ((eq_iff ns "").0 cluster), rw cluster)
      | inr namespaced ↦ elim (Option-cases own) [
        | inl missing ↦ inr (ground (arith, eq_iff ns ""), rw (namespaced, missing))
        | inr (o, e) ↦ elim (Bool-cases (o == ns)) [
          | inl same ↦ inl (inr (e ∙ ap some ((eq_iff o ns).0 same)), rw (namespaced, e, same))
          | inr differs ↦
              inr (ground (arith, eq_iff ns "", eq_iff o ns), rw (namespaced, e, differs))
        ]
      ]
    ]
should_enqueue_lem sync_up gvr u = elim (Bool-cases (gvr.resource == crds)) [
  | inl crd ↦ elim (Bool-cases (u.metadata.name == hub_crd)) [
    | inl hub ↦ inl (inr ((eq_iff _ _).0 hub), rw (crd, hub))
    | inr not_hub ↦ inr (
      ground (arith, eq_iff gvr.resource crds, eq_iff u.metadata.name hub_crd),
      rw (crd, not_hub),
    )
  ]
  | inr not_crd ↦ inl (inl (ground (arith, eq_iff gvr.resource crds)), rw not_crd)
]

direction-cases : (d : SyncDirection) → (d ≡ sync_down) ⊎ (d ≡ sync_up)
direction-cases sync_down = inl refl
direction-cases sync_up = inr refl

module _ {S : Type 0} (c : Controller) (gvr : Gvr) (w : World S Holder) where
  -- AddFunc puts exactly the eligible objects into the queue, each as the item of its own resource,
  -- namespace and name, and does nothing on any other.
  pub add_func_lem :
      (u : Unstructured)
      → (Eligible c.direction gvr u
          × (add_func c gvr (unstructured u) w ≡ (ok tt, enqueued gvr u w)))
        ⊎ ((¬ Eligible c.direction gvr u) × (add_func c gvr (unstructured u) w ≡ (ok tt, w)))
  unfolding add_func
  add_func_lem u = elim (should_enqueue_lem c.direction gvr u) [
    | inl (e, p) ↦ inl (e, rw p)
    | inr (e, p) ↦ inr (e, rw p)
  ]

  -- A deletion that reaches DeleteFunc as a tombstone is never put into the queue: a controller of
  -- specs, and one of status at a CRD, panics, and any other drops it.
  pub delete_func-tombstone :
      (o : Object)
      → (((c.direction ≡ sync_down) ⊎ (gvr.resource ≡ crds))
          × (delete_func c gvr (tombstone o) w ≡ (panic, w)))
        ⊎ ((c.direction ≡ sync_up)
            × (gvr.resource ≢ crds)
            × (delete_func c gvr (tombstone o) w ≡ (ok tt, w)))
  unfolding delete_func
  delete_func-tombstone o = elim (direction-cases c.direction) [
    | inl down ↦ inl (inl down, rw down)
    | inr up ↦ elim (Bool-cases (gvr.resource == crds)) [
      | inl crd ↦ inl (inr ((eq_iff _ _).0 crd), rw (up, crd))
      | inr not_crd ↦ inr (up, ground (arith, eq_iff gvr.resource crds), rw (up, not_crd))
    ]
  ]

  -- In a controller of specs, UpdateFunc never enqueues an object of which only the status changed.
  pub update_func-status_only :
      (deep : DeepEqual) (u : Unstructured) (status : Value)
      → c.direction ≡ sync_down
      → ((v : Value) → deep.on_value v v ≡ true)
      → ((m : Option (List (String × String))) → deep.on_map m m ≡ true)
      → update_func deep c gvr
          (unstructured u)
          (unstructured (record u { content = put "status" status u.content }))
          w
        ≡ (ok tt, w)
  unfolding update_func
  update_func-status_only deep u status down value_refl map_refl =
      let new = record u { content = put "status" status u.content } in
      elim (should_enqueue_lem sync_down gvr new) [
        | inl (e, p) ↦
            rw (down, p) (rw (deep_equal_apart_from_status-put deep u status value_refl map_refl))
        | inr (e, p) ↦ rw (down, p)
      ]

  -- In a controller of specs, UpdateFunc enqueues every eligible object in which the value under some
  -- key other than metadata and status has changed.
  pub update_func-changed :
      (deep : DeepEqual) (old new : Unstructured) (key : String)
      → c.direction ≡ sync_down
      → deep.on_value null null ≡ true
      → Eligible sync_down gvr new
      → key ≢ "metadata"
      → key ≢ "status"
      → deep.on_value (get key old.content) (get key new.content) ≡ false
      → update_func deep c gvr (unstructured old) (unstructured new) w ≡ (ok tt, enqueued gvr new w)
  unfolding update_func
  update_func-changed deep old new key down nil_eq eligible nm ns differs =
      let changed = deep_equal_apart_from_status-differs deep old new key nil_eq nm ns differs in
      elim (should_enqueue_lem sync_down gvr new) [
        | inl (e, p) ↦ rw (down, p) (rw changed)
        | inr (e, p) ↦ absurd (e eligible)
      ]
