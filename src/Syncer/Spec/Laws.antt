-- ===== src/Syncer/Spec/Laws.antt =====
-- What reaches the regional hub from the calls of syncer/specsyncer.go.
use hohapiserver.Base.{String, arith, ◌≡◌, refl, ap, ◌≢◌, ◌⊎◌, inl, inr, true, ◌∷◌}
use hohapiserver.Kube.{
  Gvr, Unstructured, Request, create_object, apply_patch, Response, found, refused, ApiError,
  already_exists, continue, api, Outcome, ok, fail, sent, World, Server,
}
use hohapiserver.Syncer.Controller.{Holder, Env, syncer_apply_manager}
use hohapiserver.Syncer.Spec.{
  namespaces_gvr, new_namespace, downstream_object, apply_to_downstream,
  ensure_downstream_namespace_exists, apply_copy,
}

-- The result of a call that returns only the error of its request.
abbrev pub reply : Response → Outcome (Unit {0})
reply (found _) = ok tt
reply (refused e) = fail (api e)

abbrev pub create_namespace : String → Request
create_namespace namespace = create_object namespaces_gvr "" (new_namespace namespace)

-- The forced server-side apply of an object, with the field manager of the syncer.
abbrev pub forced_apply : Gvr → String → String → String → String → Request
forced_apply gvr namespace name body subresource =
    apply_patch gvr namespace name body syncer_apply_manager true subresource

-- Objects that differ at most in what applyToDownstream unsets or overwrites. The keys that it copies, the time of
-- creation and the generation among them, are the same.
pub record SameSpec (u v : Unstructured) : Type 0 where
  pub same_name : u.metadata.name ≡ v.metadata.name
  pub same_labels : u.metadata.labels ≡ v.metadata.labels
  pub same_annotations : u.metadata.annotations ≡ v.metadata.annotations
  pub same_carried : u.metadata.carried ≡ v.metadata.carried
  pub same_content : u.content ≡ v.content

downstream_object-SameSpec :
    (namespace : String) (u v : Unstructured)
    → SameSpec u v
    → downstream_object namespace u ≡ downstream_object namespace v
unfolding downstream_object
downstream_object-SameSpec namespace u v s = ground arith

pub answer-cases :
    (r : Response) → ((u : Unstructured) × (r ≡ found u)) ⊎ ((e : ApiError) × (r ≡ refused e))
answer-cases (found u) = inl (u, refl)
answer-cases (refused e) = inr (e, refl)

module _ {S : Type 0} (serve : Server S) (env : Env) (gvr : Gvr) (namespace : String) where
  -- Once the namespace is there, made by this call or before it, exactly one forced apply follows: it
  -- carries the encoding of the stripped copy, and its answer is the result.
  pub apply_to_downstream-sends :
      (u : Unstructured) (body : String) (w : World S Holder)
      → let r = serve (create_namespace namespace) w.server in
        let q = forced_apply gvr namespace u.metadata.name body "" in
        ((made : Unstructured) × (r.0 ≡ found made)) ⊎ (r.0 ≡ refused already_exists)
        → env.marshal (downstream_object namespace u) ≡ ok body
        → apply_to_downstream serve env gvr namespace u w ≡ (
          reply (serve q r.1).0,
          record {
            server = (serve q r.1).1;
            log = sent q ∷ sent (create_namespace namespace) ∷ w.log;
          },
        )
  unfolding apply_to_downstream apply_copy ensure_downstream_namespace_exists downstream_object
  apply_to_downstream-sends u body w there encoded =
      elim (answer-cases
        (serve (forced_apply gvr namespace u.metadata.name body "")
          (serve (create_namespace namespace) w.server).1).0) [
            | inl (x, e) ↦ ground arith
            | inr (x, e) ↦ ground arith
          ]

  -- Any other refusal of the namespace is the result, and nothing is applied.
  pub apply_to_downstream-namespace_error :
      (u : Unstructured) (e : ApiError) (w : World S Holder)
      → let r = serve (create_namespace namespace) w.server in
        r.0 ≡ refused e
        → e ≢ already_exists
        → apply_to_downstream serve env gvr namespace u w
          ≡ (fail (api e), record { server = r.1; log = sent (create_namespace namespace) ∷ w.log })
  unfolding apply_to_downstream apply_copy ensure_downstream_namespace_exists downstream_object
  apply_to_downstream-namespace_error u e w p ne = ground arith

  -- Objects that differ only in UID, version, namespace, managed fields, deletion fields, owners and
  -- finalizers are applied alike, with the same requests and the same result.
  pub apply_to_downstream-SameSpec :
      (u v : Unstructured) (w : World S Holder)
      → SameSpec u v
      → apply_to_downstream serve env gvr namespace u w
        ≡ apply_to_downstream serve env gvr namespace v w
  unfolding apply_to_downstream
  apply_to_downstream-SameSpec u v w s =
      ap
        (λ d.
          continue (ensure_downstream_namespace_exists serve namespace w)
            (λ _. apply_copy serve env gvr namespace d))
        (downstream_object-SameSpec namespace u v s)
