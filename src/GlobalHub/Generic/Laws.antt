-- ===== src/GlobalHub/Generic/Laws.antt =====
-- generic_controller.go: no error of a reconciler comes back from process.
use hohapiserver.Base.{
  ℕ, zero, suc, ◌∙◌, String, eq_refl, arith, ◌≡◌, ◌⊎◌, inl, inr, true, none, some, ◌∷◌,
}
use hohapiserver.Kube.{
  Gvr, Unstructured, Object, unstructured, update_object, refused, ApiError, Outcome, ok, panic,
  World, sent, queue_forget, queue_done, Server,
}
use hohapiserver.GlobalHub.Labels.{
  original_namespace, labelled, Reconciled, reconcile_placement_binding,
}
use hohapiserver.GlobalHub.Labels.Laws.{
  original_namespace-labelled, labelling, reconcile_placement_binding-labels,
}
use hohapiserver.GlobalHub.Generic.{Hub, Keys, process, process_next_work_item}

module _ {S : Type 0} (keys : Keys) (reconcile : Object → World S String → Reconciled S) where
  process_outcome :
      (key : String) (h : Hub S)
      → ((process keys reconcile key h).0 ≡ ok tt) ⊎ ((process keys reconcile key h).0 ≡ panic)
  unfolding process
  process_outcome key h = ground arith

  -- Whatever the reconciler returns, the key is forgotten and marked done, and is never put back to be
  -- tried again, unless there is a panic.
  pub process_next_work_item-never_retries :
      (key : String) (h : Hub S)
      → let t = process_next_work_item keys reconcile (some key) h in
        let p = process keys reconcile key h in
        ((t.0 ≡ ok true) × (t.1.world.log ≡ queue_done key ∷ queue_forget key ∷ p.1.world.log))
        ⊎ ((p.0 ≡ panic) × (t.0 ≡ panic))
  unfolding process_next_work_item
  process_next_work_item-never_retries key h = elim (process_outcome key h) [
    | inl e ↦ inl (ground arith, ground arith)
    | inr e ↦ inr (e, ground arith)
  ]

module _ {S : Type 0} (serve : Server S) (gvr : Gvr) where
  binding_unlabelled :
      (u : Unstructured) (w : World S String)
      → original_namespace u ≡ none
      → reconcile_placement_binding serve gvr (unstructured u) w ≡ labelling serve gvr u w
  binding_unlabelled u w e = elim (reconcile_placement_binding-labels serve gvr u w) [
    | inl (_, binding, _) ↦ binding
    | inr ((o, f), _, _) ↦ cc
  ]

  binding_labelled :
      (u : Unstructured) (w : World S String)
      → reconcile_placement_binding serve gvr (unstructured (labelled u)) w
        ≡ record { outcome = ok tt; world = w; object = unstructured (labelled u) }
  binding_labelled u w = elim (reconcile_placement_binding-labels serve gvr (labelled u) w) [
    | inl (f, _, _) ↦ cc (original_namespace-labelled u)
    | inr (_, binding, _) ↦ binding
  ]

-- The hub after so many calls of process for a key.
abbrev pub calls : {S : Type 0} → (Hub S → Hub S) → ℕ → Hub S → Hub S
calls f zero h = h
calls f (suc n) h = f (calls f n h)

module _ {S : Type 0} (serve : Server S) (gvr : Gvr) (keys : Keys) (key namespace name : String)
    (valid : keys.split key ≡ ok (namespace, name)) where
  abbrev run : Hub S → Outcome (Unit {0}) × Hub S
  run = process keys (reconcile_placement_binding serve gvr) key

  -- What the informer's store answers for the object of the key.
  abbrev Holds : Unstructured → Hub S → Type 0
  Holds u h =
      h.store namespace name ≡ record { object = unstructured u; exists = true; error = none }

  run-labelled :
      (u : Unstructured) (h : Hub S)
      → Holds (labelled u) h
      → ((run h).0 ≡ ok tt) × ((run h).1.world ≡ h.world) × Holds (labelled u) (run h).1
  unfolding process
  run-labelled u h stored =
      let same_namespace = eq_refl namespace in
      let same_name = eq_refl name in
      let binding = binding_labelled serve gvr u h.world in
      (
        ground (arith, same_namespace, same_name, binding),
        ground (arith, same_namespace, same_name, binding),
        ground (arith, same_namespace, same_name, binding),
      )

  calls-labelled :
      (u : Unstructured) (n : ℕ) (h : Hub S)
      → Holds (labelled u) h
      → let t = calls (λ h'. (run h').1) n h in
        ((run t).0 ≡ ok tt) × ((run t).1.world ≡ h.world) × Holds (labelled u) (run t).1
  calls-labelled u zero h stored = run-labelled u h stored
  calls-labelled u (suc n) h stored =
      let (_, world, kept) = calls-labelled u n h stored in
      let (done, same, kept') = run-labelled u (run (calls (λ h'. (run h').1) n h)).1 kept in
      (done, same ∙ world, kept')

  -- A placement binding whose first label update is refused: the object in the store was changed before the
  -- request. So any number of later calls of process for its key find the label, answer success and send
  -- nothing, as long as nothing but these calls changes the store.
  pub process-label_lost :
      (u : Unstructured) (e : ApiError) (h : Hub S) (n : ℕ)
      → let q = update_object gvr u.metadata.namespace (labelled u) in
        let t = calls (λ h'. (run h').1) n (run h).1 in
        Holds u h
        → original_namespace u ≡ none
        → (serve q h.world.server).0 ≡ refused e
        → ((run h).0 ≡ ok tt)
          × ((run h).1.world.log ≡ sent q ∷ h.world.log)
          × ((run t).0 ≡ ok tt)
          × ((run t).1.world ≡ (run h).1.world)
  unfolding process
  process-label_lost u e h n stored unlabelled refusal =
      let same_namespace = eq_refl namespace in
      let same_name = eq_refl name in
      let binding = binding_unlabelled serve gvr u h.world unlabelled in
      let (done, same, _) =
        calls-labelled u n (run h).1 (ground (arith, same_namespace, same_name, binding)) in
      (
        ground (arith, same_namespace, same_name, binding),
        ground (arith, same_namespace, same_name, binding),
        done,
        same,
      )
