-- ===== src/GlobalHub/Policy.antt =====
-- policy_controller.go: ReconcileFunc and updateGlobalHubPolicy. A policy that a syncer sent up lies in
-- the syncer's namespace and carries the original one as label; its compliance is merged into the
-- status of the policy in the original namespace.
pub mod Laws
use hohapiserver.Base.{String, ◌==◌, if◌then◌else◌, Option, none, some, List}
use hohapiserver.Kube.{
  Value, null, obj, Fields, end, get, put, Gvr, Unstructured, Object, as_unstructured, get_object,
  update_status, not_unstructured, Outcome, ok, fail, panic, World, M, pure, lift, Server, send,
  ◌>>=◌,
}
use hohapiserver.GlobalHub.Compliance.{
  ComplianceState, ComplianceSummary, new_cluster_summary, merge, encode, decode,
}
use hohapiserver.GlobalHub.Labels.{original_namespace, Reconciled, add_label}

-- policyv1.Policy, as far as it is read; `none` is a nil slice Status.Status.
pub record Policy : Type 0 where
  pub name : String
  pub namespace : String
  pub statuses : Option (List ComplianceState)

-- globalObj.Object["status"] as a map: a new one for nil, a panic for what is no map.
abbrev status_map : Value → Outcome Fields
status_map null = ok end
status_map (obj m) = ok m
status_map _ = panic

-- The global policy with the summary in its status.
unfoldable pub with_summary : Fields → ComplianceSummary → Unstructured → Unstructured
with_summary status summary u = record u {
  content = put "status" (obj (put "complianceSummary" (encode summary) status)) u.content;
}

module _ {S : Type 0} (serve : Server S) (gvr : Gvr) where
  unfoldable pub update_global_hub_policy :
      Policy → List ComplianceState → String → M S String (Unit {0})
  update_global_hub_policy policy states original = do
    global ← send serve (get_object gvr original policy.name)
    let new = new_cluster_summary policy.namespace states
    status ← lift (status_map (get "status" global.content))
    summary ← lift (decode (get "complianceSummary" status))
    _ ← send serve (
        update_status gvr global.metadata.namespace
          (with_summary status (merge new summary) global))
    pure tt

  -- retry.RetryOnConflict with DefaultRetry, and FromUnstructured, are parameters.
  module _ (retry : M S String (Unit {0}) → M S String (Unit {0}))
      (to_policy : Unstructured → Outcome Policy) where
    -- The branch of a policy that comes from a syncer.
    unfoldable pub reconcile_status : Unstructured → String → M S String (Unit {0})
    reconcile_status u original = do
      policy ← lift (to_policy u)
      elim policy.statuses [
        | none ↦ pure tt
        | some states ↦ retry (update_global_hub_policy policy states original)
      ]

    unfoldable pub reconcile_policy : Object → World S String → Reconciled S
    reconcile_policy o w = elim (as_unstructured o) [
      | none ↦ record { outcome = fail not_unstructured; world = w; object = o }
      | some u ↦ elim (original_namespace u) [
        | none ↦ add_label serve gvr u w
        | some original ↦
            if original == u.metadata.namespace
            then record { outcome = ok tt; world = w; object = o }
            else (let t = reconcile_status u original w in
                record { outcome = t.0; world = t.1; object = o })
      ]
    ]
