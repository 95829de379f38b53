-- ===== src/Syncer/Status/Laws.antt =====
-- What reaches the global hub from the calls of syncer/statussyncer.go.
use hohapiserver.Base.{String, eq_iff, arith, ◌≡◌, refl, ◌≢◌, ◌⊎◌, inl, inr, ◌∷◌}
use hohapiserver.Kube.{
  Gvr, Unstructured, get_object, found, refused, ApiError, not_found, api, Outcome, ok, fail, panic,
  sent, World, Server, M, continue,
}
use hohapiserver.Kube.Effects.{catch}
use hohapiserver.Syncer.Controller.{
  Controller, Holder, Env, HubControlPlane, crds, managed_clusters, cluster_management_addons,
}
use hohapiserver.Syncer.Spec.Laws.{reply, answer-cases, forced_apply}
use hohapiserver.Syncer.Summary.{hub_control_plane}
use hohapiserver.Syncer.Status.{
  hub_control_plane_gvr, upstream_object, in_namespace, as_hub_control_plane, apply_both,
  apply_to_upstream, apply_hub_control_plane_in_upstream, sync_status, update_status_in_upstream,
}

module _ {S : Type 0} (serve : Server S) where
  -- Two patches, the second only if the first is accepted; the answer to the last one is the result.
  apply_both-accepted :
      (gvr : Gvr) (namespace name body : String) (made : Unstructured) (w : World S Holder)
      → let q = forced_apply gvr namespace name body "" in
        let qs = forced_apply gvr namespace name body "status" in
        let r = serve q w.server in
        r.0 ≡ found made
        → apply_both serve gvr namespace name body w ≡ (
          reply (serve qs r.1).0,
          record { server = (serve qs r.1).1; log = sent qs ∷ sent q ∷ w.log },
        )
  unfolding apply_both
  apply_both-accepted gvr namespace name body made w h = ground arith

  apply_both-refused :
      (gvr : Gvr) (namespace name body : String) (e : ApiError) (w : World S Holder)
      → let q = forced_apply gvr namespace name body "" in
        let r = serve q w.server in
        r.0 ≡ refused e
        → apply_both serve gvr namespace name body w
          ≡ (fail (api e), record { server = r.1; log = sent q ∷ w.log })
  unfolding apply_both
  apply_both-refused gvr namespace name body e w h = ground arith

  module _ (env : Env) (gvr : Gvr) where
    -- A namespaced object is applied in the syncer's namespace, first itself and then its status, both
    -- with the encoding of the stripped copy that has this namespace.
    pub apply_to_upstream-namespaced :
        (namespace body : String) (u made : Unstructured) (w : World S Holder)
        → let q = forced_apply gvr namespace u.metadata.name body "" in
          let qs = forced_apply gvr namespace u.metadata.name body "status" in
          let r = serve q w.server in
          u.metadata.namespace ≢ ""
          → env.marshal (in_namespace namespace (upstream_object u)) ≡ ok body
          → r.0 ≡ found made
          → apply_to_upstream serve env gvr namespace u w ≡ (
            reply (serve qs r.1).0,
            record { server = (serve qs r.1).1; log = sent qs ∷ sent q ∷ w.log },
          )
    unfolding apply_to_upstream apply_both
    apply_to_upstream-namespaced namespace body u made w ns encoded h =
        ground (arith, eq_iff u.metadata.namespace "")

-- The resources for which a change is synced as it is.
abbrev pub IsSynced : Gvr → Type 0
IsSynced gvr =
    (gvr.resource ≢ crds)
    × (gvr.resource ≢ cluster_management_addons)
    × (gvr.resource ≢ managed_clusters)

attempt-drop :
    {S A B : Type 0} (p : Outcome A × World S Holder) (f : M S Holder B)
    → p.0 ≢ panic
    → continue (catch p) (λ _. f) ≡ f p.1
attempt-drop (ok a, w) f h = refl
attempt-drop (fail e, w) f h = refl
attempt-drop (panic, w) f h = absurd (h refl)

module _ {S : Type 0} (serve : Server S) (c : Controller) (env : Env) (gvr : Gvr) where
  update_status_in_upstream-IsSynced :
      (u : Unstructured) (w : World S Holder)
      → IsSynced gvr
      → update_status_in_upstream serve c env gvr u w ≡ sync_status serve c env gvr u w
  unfolding update_status_in_upstream
  update_status_in_upstream-IsSynced u w (a, b, d) = ground (
    arith,
    eq_iff gvr.resource crds,
    eq_iff gvr.resource cluster_management_addons,
    eq_iff gvr.resource managed_clusters,
  )

  -- Any other error of the read is the result, and nothing is written.
  pub update_status_in_upstream-read_error :
      (u : Unstructured) (e : ApiError) (w : World S Holder)
      → let q = get_object gvr c.syncer_name u.metadata.name in
        let r = serve q w.server in
        IsSynced gvr
        → e ≢ not_found
        → r.0 ≡ refused e
        → update_status_in_upstream serve c env gvr u w
          ≡ (fail (api e), record { server = r.1; log = sent q ∷ w.log })
  unfolding sync_status
  update_status_in_upstream-read_error u e w synced ne h =
      rw (update_status_in_upstream-IsSynced u w synced) (ground arith)

  -- A managed cluster is synced on top of the HubControlPlane: its own result does not depend on
  -- whether that could be applied, unless applying it panics.
  pub update_status_in_upstream-managed_cluster :
      (u : Unstructured) (w : World S Holder)
      → let plane = apply_hub_control_plane_in_upstream serve c env w in
        gvr.resource ≡ managed_clusters
        → plane.0 ≢ panic
        → update_status_in_upstream serve c env gvr u w ≡ sync_status serve c env gvr u plane.1
  unfolding update_status_in_upstream
  update_status_in_upstream-managed_cluster u w mc safe = ground (
    arith,
    eq_iff gvr.resource crds,
    eq_iff gvr.resource cluster_management_addons,
    eq_iff gvr.resource managed_clusters,
    eq_iff managed_clusters crds,
    eq_iff managed_clusters cluster_management_addons,
    attempt-drop (apply_hub_control_plane_in_upstream serve c env w) (sync_status serve c env gvr u)
        safe,
  )

  -- For a CRD or an add-on whose HubControlPlane is built, converted without a namespace and encoded: it is
  -- applied under its own name, first itself and then, only if that is accepted, its status. The result is
  -- success whatever the two answers are.
  pub update_status_in_upstream-plane :
      (u v : Unstructured) (plane : HubControlPlane) (body : String) (w : World S Holder)
      → let q = forced_apply hub_control_plane_gvr "" v.metadata.name body "" in
        let qs = forced_apply hub_control_plane_gvr "" v.metadata.name body "status" in
        let r = serve q w.server in
        (gvr.resource ≡ crds) ⊎ (gvr.resource ≡ cluster_management_addons)
        → hub_control_plane c env ≡ ok plane
        → env.to_unstructured plane ≡ ok v
        → v.metadata.namespace ≡ ""
        → env.marshal (upstream_object (as_hub_control_plane v)) ≡ ok body
        → let t = update_status_in_upstream serve c env gvr u w in
          (((made : Unstructured) × (r.0 ≡ found made))
            × (t ≡ (ok tt, record { server = (serve qs r.1).1; log = sent qs ∷ sent q ∷ w.log })))
          ⊎ (((e : ApiError) × (r.0 ≡ refused e))
              × (t ≡ (ok tt, record { server = r.1; log = sent q ∷ w.log })))
  unfolding update_status_in_upstream apply_hub_control_plane_in_upstream apply_to_upstream
      apply_both
  update_status_in_upstream-plane u v plane body w kind built converted scope encoded =
      elim (answer-cases
        (serve (forced_apply hub_control_plane_gvr "" v.metadata.name body "") w.server).0) [
          | inl (made, h) ↦ inl (
            (made, h),
            ground (
              arith,
              eq_iff gvr.resource crds,
              eq_iff gvr.resource cluster_management_addons,
              eq_iff v.metadata.namespace "",
              h,
            ),
          )
          | inr (e, h) ↦ inr (
            (e, h),
            ground (
              arith,
              eq_iff gvr.resource crds,
              eq_iff gvr.resource cluster_management_addons,
              eq_iff v.metadata.namespace "",
              h,
            ),
          )
        ]
