-- ===== src/Syncer/Worker/Laws.antt =====
-- What process, processNextWorkItem and startWorker of syncer/syncer.go do with an item of the queue.
use hohapiserver.Base.{String, arith, ◌≡◌, refl, ◌∙◌, Option, none, some, ◌∷◌}
use hohapiserver.Kube.{
  Gvr, Unstructured, as_unstructured, get_object, Outcome, ok, fail, panic, sent, World, Server, M,
  pure, continue,
}
use hohapiserver.Kube.Effects.{catch}
use hohapiserver.Kube.Effects.Laws.{queue_calls}
use hohapiserver.Syncer.Controller.{
  Controller, UpsertFunc, apply_to_downstream as upsert_down,
  update_status_in_upstream as upsert_up, DeleteFunc, delete_from_downstream as delete_down, Holder,
  Env, qualified_name,
}
use hohapiserver.Syncer.Spec.{
  apply_to_downstream, apply_copy, ensure_downstream_namespace_exists, delete_from_downstream,
}
use hohapiserver.Syncer.Summary.{hub_control_plane}
use hohapiserver.Syncer.Status.{
  hub_control_plane_gvr, as_hub_control_plane, apply_both, apply_to_upstream,
  apply_hub_control_plane_in_upstream, sync_status, update_status_in_upstream,
}
use hohapiserver.Syncer.Worker.{run_upsert, run_delete, upsert, process}

continue-queue_calls :
    {S A B : Type 0} (w : World S Holder) (p : Outcome A × World S Holder) (f : A → M S Holder B)
    → queue_calls p.1.log ≡ queue_calls w.log
    → ((a : A) (w' : World S Holder) → queue_calls (f a w').1.log ≡ queue_calls w'.log)
    → queue_calls (continue p f).1.log ≡ queue_calls w.log
continue-queue_calls w (ok a, w') f h k = k a w' ∙ h
continue-queue_calls w (fail e, w') f h k = h
continue-queue_calls w (panic, w') f h k = h

catch-queue_calls :
    {S A : Type 0} (w : World S Holder) (p : Outcome A × World S Holder)
    → queue_calls p.1.log ≡ queue_calls w.log
    → queue_calls (catch p).1.log ≡ queue_calls w.log
catch-queue_calls w (ok a, w') h = h
catch-queue_calls w (fail e, w') h = h
catch-queue_calls w (panic, w') h = h

-- The calls that return to process leave the queue alone.
module _ {S : Type 0} (serve : Server S) (env : Env) where
  apply_to_downstream-queue_calls :
      (gvr : Gvr) (namespace : String) (u : Unstructured) (w : World S Holder)
      → queue_calls (apply_to_downstream serve env gvr namespace u w).1.log ≡ queue_calls w.log
  unfolding apply_to_downstream ensure_downstream_namespace_exists apply_copy
  apply_to_downstream-queue_calls gvr namespace u w = ground arith

  apply_to_upstream-queue_calls :
      (gvr : Gvr) (namespace : String) (u : Unstructured) (w : World S Holder)
      → queue_calls (apply_to_upstream serve env gvr namespace u w).1.log ≡ queue_calls w.log
  unfolding apply_to_upstream apply_both
  apply_to_upstream-queue_calls gvr namespace u w = ground arith

  module _ (c : Controller) where
    apply_hub_control_plane-queue_calls :
        (w : World S Holder)
        → queue_calls (apply_hub_control_plane_in_upstream serve c env w).1.log ≡ queue_calls w.log
    unfolding apply_hub_control_plane_in_upstream
    apply_hub_control_plane-queue_calls w =
        continue-queue_calls w (hub_control_plane c env, w) _ refl
          (λ plane w'.
            continue-queue_calls w' (env.to_unstructured plane, w') _ refl
              (λ u w''.
                let p =
                  apply_to_upstream serve env hub_control_plane_gvr "" (as_hub_control_plane u)
                    w'' in
                continue-queue_calls w'' (catch p) (λ _. pure tt)
                  (catch-queue_calls w'' p (apply_to_upstream-queue_calls _ "" _ w''))
                  (λ _ w3. refl)))

    sync_status-queue_calls :
        (gvr : Gvr) (u : Unstructured) (w : World S Holder)
        → queue_calls (sync_status serve c env gvr u w).1.log ≡ queue_calls w.log
    unfolding sync_status
    sync_status-queue_calls gvr u w =
        let q = get_object gvr c.syncer_name u.metadata.name in
        let r = serve q w.server in
        let w' = record w { server = r.1; log = sent q ∷ w.log } in
        ground (arith, apply_to_upstream-queue_calls gvr c.syncer_name u w')

    update_status-queue_calls :
        (gvr : Gvr) (u : Unstructured) (w : World S Holder)
        → queue_calls (update_status_in_upstream serve c env gvr u w).1.log ≡ queue_calls w.log
    unfolding update_status_in_upstream
    update_status-queue_calls gvr u w =
        let p = apply_hub_control_plane_in_upstream serve c env w in
        ground (
          arith,
          apply_hub_control_plane-queue_calls w,
          sync_status-queue_calls gvr u w,
          sync_status-queue_calls gvr u p.1,
        )

    upsert-queue_calls :
        (o : Option Unstructured) (h : Holder) (w : World S Holder)
        → queue_calls (upsert serve c env o h w).1.log ≡ queue_calls w.log
    unfolding upsert
    upsert-queue_calls none h w = refl
    upsert-queue_calls (some u) h w = go c.upsert_fn
      where
        go :
            (f : Option UpsertFunc)
            → queue_calls (run_upsert serve c env f h.gvr h.namespace u w).1.log ≡ queue_calls w.log
        go none = refl
        go (some upsert_down) = apply_to_downstream-queue_calls h.gvr h.namespace u w
        go (some upsert_up) = update_status-queue_calls h.gvr u w

    run_delete-queue_calls :
        (f : Option DeleteFunc) (gvr : Gvr) (namespace name : String) (w : World S Holder)
        → queue_calls (run_delete serve c env f gvr namespace name w).1.log ≡ queue_calls w.log
    unfolding delete_from_downstream
    run_delete-queue_calls none gvr namespace name w = refl
    run_delete-queue_calls (some delete_down) gvr namespace name w = ground arith

    pub process-queue_calls :
        (h : Holder) (w : World S Holder)
        → queue_calls (process serve c env h w).1.log ≡ queue_calls w.log
    unfolding process
    process-queue_calls h w =
        let found = env.get_by_key h.gvr (qualified_name h.namespace h.name) in
        ground (
          arith,
          upsert-queue_calls (as_unstructured found.object) h w,
          run_delete-queue_calls c.delete_fn h.gvr h.namespace h.name w,
        )
