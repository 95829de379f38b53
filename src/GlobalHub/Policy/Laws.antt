-- ===== src/GlobalHub/Policy/Laws.antt =====
-- policy_controller.go: what a reconciliation of a policy writes.
use hohapiserver.Base.{String, eq_iff, eq_refl, arith, ◌≡◌, refl, ◌≢◌, ◌⊎◌, none, some, List, ◌∷◌}
use hohapiserver.Kube.{
  Value, null, obj, Fields, get, put, get-put, get-put_self, Gvr, Unstructured, unstructured,
  get_object, update_status, found, refused, ApiError, conflict, api, Outcome, ok, fail, World, M,
  sent, Server,
}
use hohapiserver.Syncer.Spec.Laws.{reply}
use hohapiserver.GlobalHub.Compliance.{
  ComplianceState, ComplianceSummary, new_cluster_summary, merge, encode, decode,
}
use hohapiserver.GlobalHub.Compliance.Totals.{
  IsConsistent, merge-IsConsistent, mod-lt_of, new_cluster_summary-InRange,
}
use hohapiserver.GlobalHub.Compliance.Codec.{decode-encode}
use hohapiserver.GlobalHub.Labels.{original_namespace, labelled}
use hohapiserver.GlobalHub.Labels.Laws.{labelling, add_label_lem, original_namespace-labelled}
use hohapiserver.GlobalHub.Policy.{
  Policy, status_map, with_summary, update_global_hub_policy, reconcile_status, reconcile_policy,
}

-- The summary that a policy stores in its status.
abbrev stored_in : Value → Outcome ComplianceSummary
stored_in (obj m) = decode (get "complianceSummary" m)
stored_in _ = decode null

abbrev pub stored_summary : Unstructured → Outcome ComplianceSummary
stored_summary u = stored_in (get "status" u.content)

-- A status is an object or is not there.
abbrev pub HasStatusMap : Unstructured → Fields → Type 0
HasStatusMap u m = status_map (get "status" u.content) ≡ ok m

-- The written policy stores exactly the new summary; the other keys of its status and of the policy
-- itself, and its metadata, are as before.
pub record Writes (u v : Unstructured) (status : Fields) (s : ComplianceSummary) : Type 0 where
  pub summary_lem : stored_summary v ≡ ok s
  pub metadata_lem : v.metadata ≡ u.metadata
  pub status_keys :
      (m : Fields) × (get "status" v.content ≡ obj m)
      × ((key : String) → (key ≡ "complianceSummary") ⊎ (get key m ≡ get key status))
  pub content_keys : (key : String) → (key ≡ "status") ⊎ (get key v.content ≡ get key u.content)

with_summary-Writes :
    (u : Unstructured) (status : Fields) (s : ComplianceSummary)
    → decode (encode s) ≡ ok s
    → Writes u (with_summary status s u) status s
unfolding with_summary
with_summary-Writes u status s e = record {
  summary_lem =
      rw (get-put_self "status" (obj (put "complianceSummary" (encode s) status)) u.content)
        (rw (get-put_self "complianceSummary" (encode s) status) e);
  metadata_lem = refl;
  status_keys = (
    put "complianceSummary" (encode s) status,
    get-put_self "status" _ u.content,
    λ key.
        ground (
          arith,
          eq_iff "complianceSummary" key,
          get-put "complianceSummary" key (encode s) status,
        ),
  );
  content_keys = λ key. ground (
    arith,
    eq_iff "status" key,
    get-put "status" key (obj (put "complianceSummary" (encode s) status)) u.content,
  );
}

module _ {S : Type 0} (serve : Server S) (gvr : Gvr) where
  -- If the policy is there, with a status that is an object or missing and holds a consistent summary,
  -- its status is updated with the summary into which the hub's count is merged. The written policy
  -- stores that summary, which is consistent again, and is otherwise as it was read.
  pub update_global_hub_policy-Writes :
      (policy : Policy) (states : List ComplianceState) (original : String) (u : Unstructured)
      (status : Fields) (s : ComplianceSummary) (w : World S String)
      → let q = get_object gvr original policy.name in
        let r = serve q w.server in
        let t = merge (new_cluster_summary policy.namespace states) s in
        let v = with_summary status t u in
        let p = update_status gvr u.metadata.namespace v in
        r.0 ≡ found u
        → HasStatusMap u status
        → decode (get "complianceSummary" status) ≡ ok s
        → IsConsistent s
        → (update_global_hub_policy serve gvr policy states original w ≡ (
          reply (serve p r.1).0,
          record { server = (serve p r.1).1; log = sent p ∷ sent q ∷ w.log },
        ))
          × Writes u v status t
          × IsConsistent t
  unfolding update_global_hub_policy
  update_global_hub_policy-Writes policy states original u status s w there map stored k =
      let new = new_cluster_summary policy.namespace states in
      let t = merge-IsConsistent new s (new_cluster_summary-InRange policy.namespace states) k in
      (
        ground arith,
        with_summary-Writes u status (merge new s) (
            decode-encode (merge new s) (mod-lt_of _ _ t.compliant_sum)
              (mod-lt_of _ _ t.noncompliant_sum) t.in_range),
        t,
      )

  -- If the read is refused, because the policy is not there or otherwise, nothing is written.
  pub update_global_hub_policy-refused :
      (policy : Policy) (states : List ComplianceState) (original : String) (e : ApiError)
      (w : World S String)
      → let q = get_object gvr original policy.name in
        let r = serve q w.server in
        r.0 ≡ refused e
        → update_global_hub_policy serve gvr policy states original w
          ≡ (fail (api e), record { server = r.1; log = sent q ∷ w.log })
  unfolding update_global_hub_policy
  update_global_hub_policy-refused policy states original e w h = ground arith

  module _ (retry : M S String (Unit {0}) → M S String (Unit {0}))
      (to_policy : Unstructured → Outcome Policy) where
    -- A policy that lies in the namespace that its label names is left alone.
    pub reconcile_policy-own :
        (u : Unstructured) (w : World S String)
        → original_namespace u ≡ some u.metadata.namespace
        → reconcile_policy serve gvr retry to_policy (unstructured u) w
          ≡ record { outcome = ok tt; world = w; object = unstructured u }
    unfolding reconcile_policy
    reconcile_policy-own u w own = ground (arith, eq_refl u.metadata.namespace)

    -- Labelling settles after one round: a policy without the label is sent once, labelled, and to
    -- reconcile the object that this leaves sends nothing.
    pub reconcile_policy-labels_once :
        (u : Unstructured) (w : World S String)
        → original_namespace u ≡ none
        → let l = labelling serve gvr u w in
          (reconcile_policy serve gvr retry to_policy (unstructured u) w ≡ l)
          × (reconcile_policy serve gvr retry to_policy l.object l.world
              ≡ record { outcome = ok tt; world = l.world; object = l.object })
    unfolding reconcile_policy labelled
    reconcile_policy-labels_once u w unlabelled = (
      ground (arith, add_label_lem serve gvr u w),
      reconcile_policy-own (labelled u) (labelling serve gvr u w).world
          (original_namespace-labelled u),
    )

    -- A policy from a syncer is counted into the policy of the original namespace: where RetryOnConflict
    -- has nothing to retry, the result and the requests are those of one update.
    pub reconcile_policy-merges :
        (u : Unstructured) (original : String) (policy : Policy) (states : List ComplianceState)
        (w : World S String)
        → let once = update_global_hub_policy serve gvr policy states original in
          ((m : M S String (Unit {0})) (w' : World S String)
            → (m w').0 ≢ fail (api conflict)
            → retry m w' ≡ m w')
          → original_namespace u ≡ some original
          → original ≢ u.metadata.namespace
          → to_policy u ≡ ok policy
          → policy.statuses ≡ some states
          → (once w).0 ≢ fail (api conflict)
          → reconcile_policy serve gvr retry to_policy (unstructured u) w
            ≡ record { outcome = (once w).0; world = (once w).1; object = unstructured u }
    unfolding reconcile_policy reconcile_status
    reconcile_policy-merges u original policy states w plain labelled other decoded some_states
          calm =
        ground (
          arith,
          eq_iff original u.metadata.namespace,
          plain (update_global_hub_policy serve gvr policy states original) w,
        )
