-- ===== src/GlobalHub/Run.antt =====
-- generic_controller.go: Run of a controller of the global hub, from its informer to the end of the context.
use hohapiserver.Base.{ℕ, zero, suc, ◌≤◌, ◌≡◌, refl, arith, Bool, true, ◌⊎◌, inl, inr, Option, List}
use hohapiserver.Kube.Lifecycle.{
  Phase, begin, syncing, spawning, waiting, finished, Lifecycle, initial, shut_down, life_step,
  Event, play,
}
use hohapiserver.Kube.Lifecycle.Laws.{IsSound, initial-IsSound, play-IsSound}

-- Run, which returns where the cache is not synced in time.
unfoldable pub run : ℕ → Bool → Lifecycle → Option Lifecycle
run n either s = life_step shut_down n either s.phase s

IsSound-guarded :
    (n : ℕ) (s : Lifecycle)
    → IsSound true n s
    → (s.workers ≤ n)
      × ((s.workers ≡ 0) ⊎ (s.synced ≡ true))
      × ((s.queue_open ≡ true) ⊎ ((s.phase ≡ finished) × (s.cancelled ≡ true)))
IsSound-guarded n s i = (i.bounded, by_workers s.workers refl, by_phase s.phase refl)
  where
    by_workers : (w : ℕ) → s.workers ≡ w → (s.workers ≡ 0) ⊎ (s.synced ≡ true)
    by_workers zero e = inl e
    by_workers (suc w) e = inr (i.synced_first refl (inr (omega (arith, e))))

    by_phase :
        (p : Phase)
        → s.phase ≡ p
        → (s.queue_open ≡ true) ⊎ ((s.phase ≡ finished) × (s.cancelled ≡ true))
    by_phase begin e = inl (i.open_before (ground (arith, e)))
    by_phase syncing e = inl (i.open_before (ground (arith, e)))
    by_phase spawning e = inl (i.open_before (ground (arith, e)))
    by_phase waiting e = inl (i.open_before (ground (arith, e)))
    by_phase finished e = let (_, cancelled, _) = i.shut_after e in inr (e, cancelled)

-- At each moment, whatever has happened: there are no more workers than asked for, none but over a cache that
-- is synced, and the queue is open until the context has ended and Run has returned.
pub run-guarded :
    (n : ℕ) (events : List Event)
    → let t = play (run n) events initial in
      (t.workers ≤ n)
      × ((t.workers ≡ 0) ⊎ (t.synced ≡ true))
      × ((t.queue_open ≡ true) ⊎ ((t.phase ≡ finished) × (t.cancelled ≡ true)))
unfolding run
run-guarded n events =
    IsSound-guarded n (play (run n) events initial)
      (play-IsSound true n events initial (initial-IsSound true n))
