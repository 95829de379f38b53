-- ===== src/Syncer/Tests/Workers.antt =====
-- Runs of the workers.
use hohapiserver.Base.{ℕ, ◌≡◌, refl, ◌⊎◌, Bool, true, none, some, [], ◌∷◌}
use hohapiserver.Kube.{
  Outcome, ok, fail, panic, queue_add_rate_limited, queue_forget, queue_done, World, Err,
}
use hohapiserver.Kube.Samples.{accepting, start}
use hohapiserver.Kube.Effects.Laws.{queue_calls, Settles}
use hohapiserver.Syncer.Controller.{new, Holder}
use hohapiserver.Syncer.Spec.{delete_from_downstream}
use hohapiserver.Syncer.Worker.{process, process_next_work_item, start_worker}
use hohapiserver.Syncer.Worker.Items.{
  process_next_work_item-settles, taken, start_worker-Settles, process_next_work_item-retries_up,
}
use hohapiserver.Syncer.Samples.{env, down, up, item}

abbrev worked : Outcome Bool × World ℕ Holder
worked = process_next_work_item accepting down env (some item) start

process_next_work_item-settles_example :
    (((process accepting down env item start).0 ≡ ok tt)
      × (worked.0 ≡ ok true)
      × (queue_calls worked.1.log ≡ queue_done item ∷ queue_forget item ∷ []))
    ⊎ (((e : Err) × ((process accepting down env item start).0 ≡ fail e))
        × (worked.0 ≡ ok true)
        × (queue_calls worked.1.log ≡ queue_done item ∷ queue_add_rate_limited item ∷ []))
    ⊎ (((process accepting down env item start).0 ≡ panic)
        × (worked.0 ≡ panic)
        × (queue_calls worked.1.log ≡ queue_done item ∷ []))
process_next_work_item-settles_example =
    process_next_work_item-settles accepting down env item start

abbrev run : Outcome (Unit {0}) × World ℕ Holder
run = start_worker accepting down env (some item ∷ some item ∷ none ∷ []) start

run_ends : run.0 ≡ ok tt
unfolding start_worker process_next_work_item process new delete_from_downstream
run_ends = refl

start_worker-Settles_example : Settles (item ∷ item ∷ []) [] (queue_calls run.1.log)
unfolding taken
start_worker-Settles_example =
    start_worker-Settles accepting down env (some item ∷ some item ∷ none ∷ []) start run_ends

process_next_work_item-retries_up_example :
    process_next_work_item accepting up env (some item) start
    ≡ (ok true, record { server = 0; log = queue_done item ∷ queue_add_rate_limited item ∷ [] })
process_next_work_item-retries_up_example =
    process_next_work_item-retries_up accepting env "hub1" "https://hub1" item start refl refl
