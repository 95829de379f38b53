-- ===== src/GlobalHub/Tests/Controllers.antt =====
-- The generic controller, the placement controllers and the installation of the CRDs at concrete inputs.
use hohapiserver.Base.{
  ℕ, suc, ◌≤◌, ltb, if◌then◌else◌, true, ◌≡◌, refl, ◌⊎◌, some, [], ◌∷◌, ◌++◌, lookup,
}
use hohapiserver.Kube.{
  Server, found, update_object, create_object, other_error, refused, already_exists, api, ok, fail,
  panic, sent, queue_forget, queue_done,
}
use hohapiserver.Kube.Samples.{policies, hub_policy, bare_policy, refusing, start}
use hohapiserver.GlobalHub.Samples.{keys, binding_hub}
use hohapiserver.GlobalHub.Labels.{labelled, reconcile_placement_binding}
use hohapiserver.GlobalHub.Generic.{process, process_next_work_item}
use hohapiserver.GlobalHub.Generic.Laws.{
  process_next_work_item-never_retries, calls, process-label_lost,
}
use hohapiserver.Kube.Lifecycle.{finished, initial, own, context_done, caches_synced, play}
use hohapiserver.GlobalHub.Run.{run, run-guarded}
use hohapiserver.GlobalHub.Crds.{crd_gvr, directory, file, install_global_hub_crds}
use hohapiserver.GlobalHub.Crds.Laws.{install_global_hub_crds-stops}

run-guarded_example :
    let t =
      play (run 1) (own true ∷ caches_synced ∷ own true ∷ own true ∷ context_done ∷ []) initial in
    (t.workers ≤ 1)
    × ((t.workers ≡ 0) ⊎ (t.synced ≡ true))
    × ((t.queue_open ≡ true) ⊎ ((t.phase ≡ finished) × (t.cancelled ≡ true)))
run-guarded_example =
    run-guarded 1 (own true ∷ caches_synced ∷ own true ∷ own true ∷ context_done ∷ [])

never_retries_example :
    let reconcile = reconcile_placement_binding refusing policies in
    let t = process_next_work_item keys reconcile (some "default/b1") binding_hub in
    let p = process keys reconcile "default/b1" binding_hub in
    ((t.0 ≡ ok true)
      × (t.1.world.log ≡ queue_done "default/b1" ∷ queue_forget "default/b1" ∷ p.1.world.log))
    ⊎ ((p.0 ≡ panic) × (t.0 ≡ panic))
never_retries_example =
    process_next_work_item-never_retries keys (reconcile_placement_binding refusing policies)
      "default/b1" binding_hub

process-label_lost_example :
    let run = process keys (reconcile_placement_binding refusing policies) "default/b1" in
    let h = run binding_hub in
    let t = calls (λ h'. (run h').1) 3 h.1 in
    (h.0 ≡ ok tt)
    × (h.1.world.log ≡ sent (update_object policies "default" (labelled bare_policy)) ∷ [])
    × ((run t).0 ≡ ok tt)
    × ((run t).1.world ≡ h.1.world)
unfolding lookup
process-label_lost_example =
    process-label_lost refusing policies keys "default/b1" "default" "b1" refl bare_policy
      (other_error "unavailable") binding_hub 3 refl refl refl

-- A server that has all but the first CRD.
abbrev second_refused : Server ℕ
second_refused q n = (if ltb n 1 then found hub_policy else refused already_exists, suc n)

install_global_hub_crds-stops_example :
    let t =
      install_global_hub_crds second_refused
        (directory ∷ (file (ok hub_policy) ∷ [])
          ++ file (ok bare_policy) ∷ file (ok hub_policy) ∷ [])
        start in
    (t.0 ≡ fail (api already_exists))
    × (t.1.log
        ≡ sent (create_object crd_gvr "" bare_policy)
          ∷ sent (create_object crd_gvr "" hub_policy)
          ∷ [])
install_global_hub_crds-stops_example =
    install_global_hub_crds-stops second_refused (file (ok hub_policy) ∷ []) bare_policy
      (file (ok hub_policy) ∷ []) already_exists start tt ((hub_policy, refl), tt) refl
