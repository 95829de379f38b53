-- ===== src/Kube/Lifecycle.antt =====
-- The life of a controller: syncer.go's Start and generic_controller.go's Run start an informer, wait for its
-- cache, start workers and wait for the end of the context, while the cache and the context go their own ways.
pub mod Laws
use hohapiserver.Base.{
  ℕ, suc, Bool, true, false, ◌&&◌, if◌then◌else◌, ltb, Option, none, some, List, [], ◌∷◌,
}

-- Where the program is: before its informer is started, in WaitForCacheSync, in the loop that starts the
-- workers, at the end of the context, and after its deferred calls.
pub data Phase : Type 0 where
  begin syncing spawning waiting finished : Phase

pub record Lifecycle : Type 0 where
  pub phase : Phase
  pub synced : Bool
  pub cancelled : Bool
  pub workers : ℕ
  pub queue_open : Bool

abbrev pub initial : Lifecycle
initial = record {
  phase = begin;
  synced = false;
  cancelled = false;
  workers = 0;
  queue_open = true;
}

-- What WaitForCacheSync answers, `none` while it blocks; at a cache that is synced when the context has ended
-- it may answer either.
unfoldable pub wait_for_cache_sync : Bool → Lifecycle → Option Bool
wait_for_cache_sync either s =
    if s.synced
    then some (if s.cancelled then either else true)
    else if s.cancelled
    then some false
    else none

-- The deferred ShutDown of the queue.
abbrev pub shut_down : Lifecycle → Lifecycle
shut_down s = record s { phase = finished; queue_open = false }

-- The part behind WaitForCacheSync: `for i := 0; i < numThreads; i++ { go … }`, and the end of the context.
unfoldable pub serve_step : ℕ → Phase → Lifecycle → Option Lifecycle
serve_step n begin s = none
serve_step n syncing s = none
serve_step n spawning s =
    some (
      if ltb s.workers n
      then record s { workers = suc s.workers }
      else record s { phase = waiting })
serve_step n waiting s = if s.cancelled then some (shut_down s) else none
serve_step n finished s = none

-- One step of the program, `none` where it blocks or has ended; `unsynced` is where it goes when
-- WaitForCacheSync answers false.
unfoldable pub life_step : (Lifecycle → Lifecycle) → ℕ → Bool → Phase → Lifecycle → Option Lifecycle
life_step unsynced n either begin s = some (record s { phase = syncing })
life_step unsynced n either syncing s = elim (wait_for_cache_sync either s) [
  | none ↦ none
  | some true ↦ some (record s { phase = spawning })
  | some false ↦ some (unsynced s)
]
life_step unsynced n either phase s = serve_step n phase s

-- What can happen next: a step of the program, the context ends, or the cache is synced.
pub data Event : Type 0 where
  own : Bool → Event
  context_done : Event
  caches_synced : Event

abbrev pub stays : Lifecycle → Option Lifecycle → Lifecycle
stays s none = s
stays s (some t) = t

-- An event at a program, which is a step function.
unfoldable pub happen : (Bool → Lifecycle → Option Lifecycle) → Event → Lifecycle → Lifecycle
happen step (own either) s = stays s (step either s)
happen step context_done s = record s { cancelled = true }
happen step caches_synced s = record s { synced = true }

unfoldable pub play : (Bool → Lifecycle → Option Lifecycle) → List Event → Lifecycle → Lifecycle
play step [] s = s
play step (e ∷ later) s = play step later (happen step e s)

-- How many steps of the program there are.
abbrev pub own_steps : List Event → ℕ
own_steps [] = 0
own_steps (own either ∷ later) = suc (own_steps later)
own_steps (context_done ∷ later) = own_steps later
own_steps (caches_synced ∷ later) = own_steps later
