-- ===== src/Syncer/Worker/Items.antt =====
-- The workers of syncer/syncer.go: every item that a worker takes is settled once and marked done once,
-- and what becomes of an item whose object is gone.
use hohapiserver.Base.{
  String, arith, ◌≡◌, refl, ap, sym, ◌∙◌, Bool, ◌⊎◌, inl, inr, true, false, Option, none, some,
  List, [], ◌∷◌,
}
use hohapiserver.Kube.{
  nothing, delete_object, Err, Outcome, ok, fail, panic, sent, queue_add_rate_limited, queue_forget,
  queue_done, World, Server,
}
use hohapiserver.Kube.Effects.Laws.{queue_calls, Settles, none_left, forgotten, put_back}
use hohapiserver.Syncer.Controller.{
  Controller, sync_down, sync_up, Holder, Indexed, Env, new, qualified_name,
}
use hohapiserver.Syncer.Spec.{delete_from_downstream}
use hohapiserver.Syncer.Spec.Laws.{reply}
use hohapiserver.Syncer.Worker.{upsert, process, settle, process_next_work_item, start_worker}
use hohapiserver.Syncer.Worker.Laws.{process-queue_calls}

module _ {S : Type 0} (serve : Server S) (c : Controller) (env : Env) where
  -- An item is settled by the result of process, and marked done after that: forgotten on success, put
  -- back with rate limiting on an error. These are the only calls to the queue; on a panic the item is
  -- just marked done, and the panic goes on.
  pub process_next_work_item-settles :
      (h : Holder) (w : World S Holder)
      → let p = process serve c env h w in
        let t = process_next_work_item serve c env (some h) w in
        ((p.0 ≡ ok tt)
          × (t.0 ≡ ok true)
          × (queue_calls t.1.log ≡ queue_done h ∷ queue_forget h ∷ queue_calls w.log))
        ⊎ (((e : Err) × (p.0 ≡ fail e))
            × (t.0 ≡ ok true)
            × (queue_calls t.1.log ≡ queue_done h ∷ queue_add_rate_limited h ∷ queue_calls w.log))
        ⊎ ((p.0 ≡ panic) × (t.0 ≡ panic) × (queue_calls t.1.log ≡ queue_done h ∷ queue_calls w.log))
  unfolding process_next_work_item
  process_next_work_item-settles h w =
      go (process serve c env h w) (process-queue_calls serve env c h w)
    where
      go :
          (p : Outcome (Unit {0}) × World S Holder)
          → queue_calls p.1.log ≡ queue_calls w.log
          → let t = settle serve c env h p in
            ((p.0 ≡ ok tt)
              × (t.0 ≡ ok true)
              × (queue_calls t.1.log ≡ queue_done h ∷ queue_forget h ∷ queue_calls w.log))
            ⊎ (((e : Err) × (p.0 ≡ fail e))
                × (t.0 ≡ ok true)
                × (queue_calls t.1.log
                    ≡ queue_done h ∷ queue_add_rate_limited h ∷ queue_calls w.log))
            ⊎ ((p.0 ≡ panic)
                × (t.0 ≡ panic)
                × (queue_calls t.1.log ≡ queue_done h ∷ queue_calls w.log))
      go (ok done, w') e = inl (refl, refl, cc)
      go (fail x, w') e = inr (inl ((x, refl), refl, cc))
      go (panic, w') e = inr (inr (refl, refl, cc))

-- The items that a worker takes before it sees that the queue is shut down.
unfoldable pub taken : List (Option Holder) → List Holder
taken [] = []
taken (none ∷ later) = []
taken (some h ∷ later) = h ∷ taken later

module _ {S : Type 0} (serve : Server S) (c : Controller) (env : Env) where
  process_next_work_item-none :
      (w : World S Holder) → process_next_work_item serve c env none w ≡ (ok false, w)
  unfolding process_next_work_item
  process_next_work_item-none w = refl

  goes_on :
      (k : Holder) (later : List (Option Holder)) (w : World S Holder)
      → let t = process_next_work_item serve c env (some k) w in
        t.0 ≡ ok true
        → start_worker serve c env (some k ∷ later) w ≡ start_worker serve c env later t.1
  unfolding start_worker
  goes_on k later w e = ground (arith, e)

  panics_too :
      (k : Holder) (later : List (Option Holder)) (w : World S Holder)
      → (process_next_work_item serve c env (some k) w).0 ≡ panic
      → (start_worker serve c env (some k ∷ later) w).0 ≡ panic
  unfolding start_worker
  panics_too k later w e = ground (arith, e)

  -- A worker that is stopped by the queue alone has settled exactly the items that it took, one after the
  -- other: each is forgotten or put back with rate limiting, and then marked done, under its own key. It makes
  -- no other call to the queue.
  pub start_worker-Settles :
      (gots : List (Option Holder)) (w : World S Holder)
      → let t = start_worker serve c env gots w in
        t.0 ≡ ok tt → Settles (taken gots) (queue_calls w.log) (queue_calls t.1.log)
  unfolding start_worker taken
  start_worker-Settles [] w h = none_left
  start_worker-Settles (none ∷ later) w h = rw (process_next_work_item-none w) none_left
  start_worker-Settles (some k ∷ later) w h =
      elim (process_next_work_item-settles serve c env k w) [
        | inl (_, e, q) ↦ continued e (start_worker-Settles later t.1) (λ s. forgotten (rw q at s))
        | inr (inl (_, e, q)) ↦
            continued e (start_worker-Settles later t.1) (λ s. put_back (rw q at s))
        | inr (inr (_, e, q)) ↦ absurd (ground (arith, panics_too k later w e, h))
      ]
    where
      t : Outcome Bool × World S Holder
      t = process_next_work_item serve c env (some k) w

      continued :
          t.0 ≡ ok true
          → ((start_worker serve c env later t.1).0 ≡ ok tt
              → Settles
                  (taken later)
                  (queue_calls t.1.log)
                  (queue_calls (start_worker serve c env later t.1).1.log))
          → (Settles
                (taken later)
                (queue_calls t.1.log)
                (queue_calls (start_worker serve c env later t.1).1.log)
              → Settles
                  (k ∷ taken later)
                  (queue_calls w.log)
                  (queue_calls (start_worker serve c env later t.1).1.log))
          → Settles
              (k ∷ taken later)
              (queue_calls w.log)
              (queue_calls (start_worker serve c env (some k ∷ later) w).1.log)
      continued e later_settles f =
          rw (goes_on k later w e)
            (f (later_settles (sym (ap (λ r. r.0) (goes_on k later w e)) ∙ h)))

-- How a controller that New makes treats an item whose object the cache does not hold.
module _ {S : Type 0} (serve : Server S) (env : Env) (syncer_name host : String) (h : Holder) where
  abbrev found : Indexed
  found = env.get_by_key h.gvr (qualified_name h.namespace h.name)

  -- Downwards, exactly one request is sent: the object is deleted under the same name in the namespace.
  pub process-deletes_down :
      (w : World S Holder)
      → let q = delete_object h.gvr h.namespace h.name in
        found.error ≡ none
        → found.exists ≡ false
        → process serve (new syncer_name host sync_down) env h w ≡ (
          reply (serve q w.server).0,
          record { server = (serve q w.server).1; log = sent q ∷ w.log },
        )
  unfolding process new delete_from_downstream
  process-deletes_down w fine gone = ground arith

  -- Upwards, the item of a deleted object is put back each time that it is taken, with no request sent:
  -- the deletion never reaches the global hub.
  pub process_next_work_item-retries_up :
      (w : World S Holder)
      → found.error ≡ none
      → found.object ≡ nothing
      → process_next_work_item serve (new syncer_name host sync_up) env (some h) w
        ≡ (ok true, record w { log = queue_done h ∷ queue_add_rate_limited h ∷ w.log })
  unfolding process_next_work_item process upsert new
  process_next_work_item-retries_up w fine gone = ground arith
