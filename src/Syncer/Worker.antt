-- ===== src/Syncer/Worker.antt =====
-- syncer/syncer.go: process, processNextWorkItem and startWorker.
pub mod Laws
pub mod Items
use hohapiserver.Base.{String, Bool, true, false, if◌then◌else◌, Option, none, some, List, [], ◌∷◌}
use hohapiserver.Kube.{
  Gvr, Unstructured, as_unstructured, not_unstructured, Outcome, ok, fail, panic, World, M, pure,
  throw, emit, queue_add_rate_limited, queue_forget, queue_done, Server, ◌>>=◌, ◌>>◌,
}
use hohapiserver.Syncer.Controller.{
  Controller, SyncDirection, sync_down, sync_up, UpsertFunc, apply_to_downstream as upsert_down,
  update_status_in_upstream as upsert_up, DeleteFunc, delete_from_downstream as delete_down, Holder,
  Env, qualified_name,
}
use hohapiserver.Syncer.Spec.{apply_to_downstream, delete_from_downstream}
use hohapiserver.Syncer.Status.{update_status_in_upstream}

abbrev is_down : SyncDirection → Bool
is_down sync_down = true
is_down sync_up = false

module _ {S : Type 0} (serve : Server S) (c : Controller) (env : Env) where
  abbrev run_upsert : Option UpsertFunc → Gvr → String → Unstructured → M S Holder (Unit {0})
  run_upsert none gvr namespace u = pure tt
  run_upsert (some upsert_down) gvr namespace u = apply_to_downstream serve env gvr namespace u
  run_upsert (some upsert_up) gvr namespace u = update_status_in_upstream serve c env gvr u

  abbrev run_delete : Option DeleteFunc → Gvr → String → String → M S Holder (Unit {0})
  run_delete none gvr namespace name = pure tt
  run_delete (some delete_down) gvr namespace name = delete_from_downstream serve gvr namespace name

  unfoldable pub upsert : Option Unstructured → Holder → M S Holder (Unit {0})
  upsert none h = throw not_unstructured
  upsert (some u) h = run_upsert c.upsert_fn h.gvr h.namespace u

  unfoldable pub process : Holder → M S Holder (Unit {0})
  process h =
      let found = env.get_by_key h.gvr (qualified_name h.namespace h.name) in
      elim found.error [
        | some e ↦ throw e
        | none ↦ elim (is_down c.direction) [
          | true ↦ elim found.exists [
            | false ↦ run_delete c.delete_fn h.gvr h.namespace h.name
            | true ↦ upsert (as_unstructured found.object) h
          ]
          | false ↦ upsert (as_unstructured found.object) h
        ]
      ]

  -- What follows process: the deferred Done comes last, after a panic too.
  unfoldable pub settle :
      Holder → Outcome (Unit {0}) × World S Holder → Outcome Bool × World S Holder
  settle h (ok _, w) = (do emit (queue_forget h); emit (queue_done h); pure true) w
  settle h (fail _, w) = (do emit (queue_add_rate_limited h); emit (queue_done h); pure true) w
  settle h (panic, w) = (panic, record w { log = queue_done h ∷ w.log })

  -- The argument is what queue.Get returned: `none` says that the queue is shut down.
  unfoldable pub process_next_work_item : Option Holder → M S Holder Bool
  unfolding settle
  process_next_work_item none w = (ok false, w)
  process_next_work_item (some h) w = settle h (process h w)

  -- startWorker, over what successive calls of queue.Get return.
  unfoldable pub start_worker : List (Option Holder) → M S Holder (Unit {0})
  start_worker [] = pure tt
  start_worker (got ∷ later) = do
    more ← process_next_work_item got
    if more then start_worker later else pure tt
