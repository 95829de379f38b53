-- ===== src/GlobalHub/Generic.antt =====
-- generic_controller.go: the store of the informer, the queue of keys, process, processNextWorkItem and
-- startWorker, over the reconciler of one controller.
pub mod Laws
use hohapiserver.Base.{
  String, ◌==◌, ◌&&◌, if◌then◌else◌, Bool, true, false, Option, none, some, List, [], ◌∷◌,
}
use hohapiserver.Kube.{
  Object, Err, Outcome, ok, fail, panic, World, Call, queue_add, queue_add_rate_limited,
  queue_forget, queue_done,
}
use hohapiserver.GlobalHub.Labels.{Reconciled}

-- The answer of GetStore().Get.
pub record Stored : Type 0 where
  pub object : Object
  pub exists : Bool
  pub error : Option Err

-- The world and the informer's store, by namespace and name.
pub record Hub (S : Type 0) : Type 0 where
  pub world : World S String
  pub store : String → String → Stored

-- cache.MetaNamespaceKeyFunc and cache.SplitMetaNamespaceKey of client-go.
pub record Keys : Type 0 where
  pub key_of : Object → Outcome String
  pub split : String → Outcome (String × String)

-- The store after its object was changed in place.
abbrev pub store_object :
    (String → String → Stored) → String → String → Object → String → String → Stored
store_object store namespace name o namespace' name' =
    if namespace == namespace' && name == name' then record s { object = o } else s
  where
    s : Stored
    s = store namespace' name'

abbrev log_call : {S : Type 0} → Call String → World S String → World S String
log_call c w = record w { log = c ∷ w.log }

-- An `error` that is returned as it is.
abbrev pub returned : Option Err → Outcome (Unit {0})
returned none = ok tt
returned (some e) = fail e

module _ {S : Type 0} (keys : Keys) where
  -- The three handlers enqueue the object that they get.
  unfoldable pub enqueue : Object → World S String → World S String
  enqueue o w = elim (keys.key_of o) [
    | ok key ↦ log_call (queue_add key) w
    | fail _ ↦ w
    | panic ↦ w
  ]

  module _ (reconcile : Object → World S String → Reconciled S) where
    -- The end of process: `err` is the error of the store's answer, nil at this point, and it is `err`
    -- that is compared with the result of reconcile and returned.
    unfoldable pub conclude : Option Err → Outcome (Unit {0}) → Outcome (Unit {0})
    conclude err (ok _) = ok tt
    conclude err (fail _) = returned err
    conclude err panic = panic

    run_reconcile : Stored → String → String → Hub S → Outcome (Unit {0}) × Hub S
    run_reconcile found namespace name h =
        let r = reconcile found.object h.world in
        (
          conclude found.error r.outcome,
          record { world = r.world; store = store_object h.store namespace name r.object },
        )

    -- After exists: the error of the store ends the call too.
    process_stored : Stored → String → String → Hub S → Outcome (Unit {0}) × Hub S
    process_stored found namespace name h =
        if found.exists
        then elim found.error [ none ↦ run_reconcile found namespace name h | some _ ↦ (ok tt, h) ]
        else (ok tt, h)

    unfoldable pub process : String → Hub S → Outcome (Unit {0}) × Hub S
    unfolding process_stored run_reconcile conclude
    process key h = elim (keys.split key) [
      | ok (namespace, name) ↦ process_stored (h.store namespace name) namespace name h
      | fail _ ↦ (ok tt, h)
      | panic ↦ (panic, h)
    ]

    -- What follows process, the deferred Done last.
    unfoldable pub settle : String → Outcome (Unit {0}) × Hub S → Outcome Bool × Hub S
    settle key (ok _, h) = (
      ok true,
      record h { world = log_call (queue_done key) (log_call (queue_forget key) h.world) },
    )
    settle key (fail _, h) = (
      ok true,
      record h {
        world = log_call (queue_done key) (log_call (queue_add_rate_limited key) h.world);
      },
    )
    settle key (panic, h) = (panic, record h { world = log_call (queue_done key) h.world })

    -- The argument is what queue.Get returned: `none` says that the queue is shut down.
    unfoldable pub process_next_work_item : Option String → Hub S → Outcome Bool × Hub S
    unfolding settle
    process_next_work_item none h = (ok false, h)
    process_next_work_item (some key) h = settle key (process key h)

    -- startWorker, over what successive calls of queue.Get return.
    unfoldable pub start_worker : List (Option String) → Hub S → Outcome (Unit {0}) × Hub S
    start_worker [] h = (ok tt, h)
    start_worker (got ∷ later) h =
        let t = process_next_work_item got h in
        elim t.0 [
          | ok more ↦ elim more [ true ↦ start_worker later t.1 | false ↦ (ok tt, t.1) ]
          | fail e ↦ (fail e, t.1)
          | panic ↦ (panic, t.1)
        ]
