-- ===== src/Pipeline.antt =====
-- A policy on its way through the components: labelled by server/controllers/globalhubcontroller, taken down
-- and sent up again by syncer/, and merged by policy_controller.go.
mod Tests
use hohapiserver.Base.{String, ◌≡◌, Option, none, List, ◌∷◌, insert}
use hohapiserver.Kube.{
  Gvr, Metadata, Unstructured, unstructured, get_object, Outcome, ok, sent, World, M, Server,
}
use hohapiserver.Syncer.Controller.{Controller, sync_down, sync_up, new, Holder, Env}
use hohapiserver.Syncer.Handlers.{add_func}
use hohapiserver.Syncer.Handlers.Laws.{enqueued}
use hohapiserver.Syncer.Spec.{apply_to_downstream}
use hohapiserver.Syncer.Spec.Laws.{reply, create_namespace, forced_apply}
use hohapiserver.Syncer.Status.{upstream_object, in_namespace, update_status_in_upstream}
use hohapiserver.GlobalHub.Compliance.{ComplianceState}
use hohapiserver.GlobalHub.Labels.{labelled}
use hohapiserver.GlobalHub.Policy.{Policy, update_global_hub_policy, reconcile_policy}

-- What a server keeps of an object that is applied to it: its name, namespace and labels. It may add a status,
-- and sets the other metadata.
abbrev pub Keeps : Unstructured → Unstructured → Type 0
Keeps applied stored =
    (stored.metadata.name ≡ applied.metadata.name)
    × (stored.metadata.namespace ≡ applied.metadata.namespace)
    × (stored.metadata.labels ≡ applied.metadata.labels)

-- The object that the syncer with that name sends up for one of the regional hub.
abbrev pub sent_up : String → Unstructured → Unstructured
sent_up syncer v = in_namespace syncer (upstream_object v)

module _ {R G : Type 0} (regional : Server R) (global : Server G) (env : Env) (gvr : Gvr)
    (retry : M G String (Unit {0}) → M G String (Unit {0}))
    (to_policy : Unstructured → Outcome Policy) (syncer global_host regional_host : String) where
  -- NewSpecSyncer's and NewStatusSyncer's controllers.
  abbrev pub spec_controller : Controller
  spec_controller = new syncer global_host sync_down

  abbrev pub status_controller : Controller
  status_controller = new syncer regional_host sync_up

  -- The six stations of a policy `u` of the global hub, with its copy `v` on the regional hub, each on a world
  -- of its own: the queues `q`, the hubs as the workers find them, `wr` and `wg`, and as the global hub's
  -- controller finds it, `wc`.
  pub record GoesRound (u v : Unstructured) (down_body up_body : String) (policy : Policy)
      (states : List ComplianceState) (q : World G Holder) (q' : World R Holder)
      (wr : World R Holder) (wg : World G Holder) (wc : World G String) : Type 0 where
    queued_down :
        add_func spec_controller gvr (unstructured (labelled u)) q
        ≡ (ok tt, enqueued gvr (labelled u) q)
    applied_down :
        let made = create_namespace u.metadata.namespace in
        let patch = forced_apply gvr u.metadata.namespace u.metadata.name down_body "" in
        let answer = regional patch (regional made wr.server).1 in
        apply_to_downstream regional env gvr u.metadata.namespace (labelled u) wr
        ≡ (reply answer.0, record { server = answer.1; log = sent patch ∷ sent made ∷ wr.log })
    queued_up : add_func status_controller gvr (unstructured v) q' ≡ (ok tt, enqueued gvr v q')
    applied_up :
        let read = get_object gvr syncer v.metadata.name in
        let patch = forced_apply gvr syncer v.metadata.name up_body "" in
        let patch_status = forced_apply gvr syncer v.metadata.name up_body "status" in
        let patched = global patch (global read wg.server).1 in
        update_status_in_upstream global status_controller env gvr v wg ≡ (
          ok tt,
          record {
            server = (global patch_status patched.1).1;
            log = sent patch_status ∷ sent patch ∷ sent read ∷ wg.log;
          },
        )
    not_again : add_func spec_controller gvr (unstructured (sent_up syncer v)) q ≡ (ok tt, q)
    merged :
        let t = update_global_hub_policy global gvr policy states u.metadata.namespace wc in
        reconcile_policy global gvr retry to_policy (unstructured (sent_up syncer v)) wc
        ≡ record { outcome = t.0; world = t.1; object = unstructured (sent_up syncer v) }
