-- ===== src/Kube/Lifecycle/Laws.antt =====
-- What holds through the life of a controller, and that it ends.
use hohapiserver.Base.{
  ℕ, ◌+◌, ◌-◌, ◌≤◌, ◌<◌, ◌≡◌, refl, ◌≢◌, arith, Bool, true, false, ◌⊎◌, if◌then◌else◌, Option, none,
  some, List, [], ◌∷◌, ◌++◌,
}
use hohapiserver.Kube.Lifecycle.{
  Phase, begin, syncing, spawning, waiting, finished, Lifecycle, initial, wait_for_cache_sync,
  shut_down, stays, serve_step, life_step, Event, own, context_done, caches_synced, happen, play,
  own_steps,
}

-- How many steps the program has left once the context has ended.
abbrev left : ℕ → Phase → ℕ → ℕ
left n begin workers = n + 4
left n syncing workers = n + 3
left n spawning workers = (n - workers) + 2
left n waiting workers = 1
left n finished workers = 0

-- `sure` tells that no worker starts before the cache is synced.
pub record IsSound (sure : Bool) (n : ℕ) (s : Lifecycle) : Type 0 where
  pub bounded : s.workers ≤ n
  pub none_yet : ((s.phase ≡ begin) ⊎ (s.phase ≡ syncing)) → s.workers ≡ 0
  pub all_there : s.phase ≡ waiting → s.workers ≡ n
  pub open_before : s.phase ≢ finished → s.queue_open ≡ true
  pub shut_after :
      s.phase ≡ finished
      → (s.queue_open ≡ false)
        × (s.cancelled ≡ true)
        × ((s.workers ≡ n) ⊎ ((sure ≡ true) × (s.workers ≡ 0)))
  pub synced_first : sure ≡ true → (s.phase ≡ spawning) ⊎ (0 < s.workers) → s.synced ≡ true

-- The two answers to a cache that is not synced: to go on, and to return.
abbrev pub after_timeout : Bool → Lifecycle → Lifecycle
after_timeout sure s = if sure then shut_down s else record s { phase = spawning }

abbrev pub program : Bool → ℕ → Bool → Lifecycle → Option Lifecycle
program sure n either s = life_step (after_timeout sure) n either s.phase s

pub initial-IsSound : (sure : Bool) (n : ℕ) → IsSound sure n initial
initial-IsSound sure n = ground arith

life_step-IsSound :
    (sure : Bool) (n : ℕ) (either : Bool) (p : Phase) (s t : Lifecycle)
    → s.phase ≡ p
    → IsSound sure n s
    → life_step (after_timeout sure) n either p s ≡ some t
    → IsSound sure n t
unfolding life_step wait_for_cache_sync serve_step
life_step-IsSound sure n either begin s t e i h = ground arith
life_step-IsSound sure n either syncing s t e i h = ground arith
life_step-IsSound sure n either spawning s t e i h = ground arith
life_step-IsSound sure n either waiting s t e i h = ground arith
life_step-IsSound sure n either finished s t e i h = ground arith

happen-IsSound :
    (sure : Bool) (n : ℕ) (e : Event) (s : Lifecycle)
    → IsSound sure n s
    → IsSound sure n (happen (program sure n) e s)
unfolding happen
happen-IsSound sure n (own either) s i =
    by_answer (program sure n either s)
      (λ t h. life_step-IsSound sure n either s.phase s t refl i h)
  where
    by_answer :
        (o : Option Lifecycle)
        → ((t : Lifecycle) → o ≡ some t → IsSound sure n t)
        → IsSound sure n (stays s o)
    by_answer none h = i
    by_answer (some t) h = h t refl
happen-IsSound sure n context_done s i = ground arith
happen-IsSound sure n caches_synced s i = ground arith

pub play-IsSound :
    (sure : Bool) (n : ℕ) (events : List Event) (s : Lifecycle)
    → IsSound sure n s
    → IsSound sure n (play (program sure n) events s)
unfolding play
play-IsSound sure n [] s i = i
play-IsSound sure n (e ∷ later) s i =
    play-IsSound sure n later (happen (program sure n) e s) (happen-IsSound sure n e s i)

-- Once the context has ended, each step of the program is one less that is left: it never blocks.
own-left :
    (sure : Bool) (n : ℕ) (either : Bool) (p : Phase) (s : Lifecycle)
    → s.phase ≡ p
    → s.cancelled ≡ true
    → let t = stays s (life_step (after_timeout sure) n either p s) in
      (t.cancelled ≡ true) × (left n t.phase t.workers ≤ left n p s.workers - 1)
unfolding life_step wait_for_cache_sync serve_step
own-left sure n either begin s e c = ground arith
own-left sure n either syncing s e c = ground arith
own-left sure n either spawning s e c = ground arith
own-left sure n either waiting s e c = ground arith
own-left sure n either finished s e c = ground arith

play-left :
    (sure : Bool) (n : ℕ) (events : List Event) (s : Lifecycle)
    → s.cancelled ≡ true
    → let t = play (program sure n) events s in
      (t.cancelled ≡ true)
      × (left n t.phase t.workers ≤ left n s.phase s.workers - own_steps events)
unfolding play happen
play-left sure n [] s c = (c, omega arith)
play-left sure n (own either ∷ later) s c =
    let t = stays s (program sure n either s) in
    let (c', below) = own-left sure n either s.phase s refl c in
    let (c'', below') = play-left sure n later t c' in (c'', omega (arith, below, below'))
play-left sure n (context_done ∷ later) s c =
    play-left sure n later (record s { cancelled = true }) refl
play-left sure n (caches_synced ∷ later) s c = play-left sure n later (record s { synced = true }) c

play-append :
    (step : Bool → Lifecycle → Option Lifecycle) (before after : List Event) (s : Lifecycle)
    → play step (before ++ after) s ≡ play step after (play step before s)
unfolding play
play-append step [] after s = refl
play-append step (e ∷ later) after s = play-append step later after (happen step e s)

left-le : (n : ℕ) (p : Phase) (workers : ℕ) → left n p workers ≤ n + 4
left-le n begin w = omega arith
left-le n syncing w = omega arith
left-le n spawning w = omega arith
left-le n waiting w = omega arith
left-le n finished w = omega arith

none_left : (n : ℕ) (p : Phase) (workers : ℕ) → left n p workers ≤ 0 → p ≡ finished
none_left n begin w h = absurd (omega arith)
none_left n syncing w h = absurd (omega arith)
none_left n spawning w h = absurd (omega arith)
none_left n waiting w h = absurd (omega arith)
none_left n finished w h = refl

-- Whatever happens before and after, the program ends within that many steps of its own behind the end of the
-- context, with the queue shut down.
pub play-ends :
    (sure : Bool) (n : ℕ) (before after : List Event)
    → n + 4 ≤ own_steps after
    → let t = play (program sure n) (before ++ context_done ∷ after) initial in
      (t.phase ≡ finished)
      × (t.queue_open ≡ false)
      × ((t.workers ≡ n) ⊎ ((sure ≡ true) × (t.workers ≡ 0)))
unfolding play happen
play-ends sure n before after enough =
    let s1 = play (program sure n) before initial in
    let s2 = record s1 { cancelled = true } in
    let t = play (program sure n) after s2 in
    let (_, below) = play-left sure n after s2 refl in
    let limit = left-le n s2.phase s2.workers in
    let done = none_left n t.phase t.workers (omega (arith, below, limit, enough)) in
    let sound = play-IsSound sure n after s2 (
      happen-IsSound sure n context_done s1
        (play-IsSound sure n before initial (initial-IsSound sure n))) in
    let (shut, _, workers) = sound.shut_after done in
    rw (play-append (program sure n) before (context_done ∷ after) initial) (done, shut, workers)
