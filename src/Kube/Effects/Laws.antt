-- ===== src/Kube/Effects/Laws.antt =====
-- What a log says of the work queue, with the requests to the server left out.
use hohapiserver.Base.{List, [], ◌∷◌}
use hohapiserver.Kube.Effects.{
  Call, sent, queue_add, queue_add_rate_limited, queue_forget, queue_done,
}

module _ {K : Type 0} where
  abbrev pub queue_calls : List (Call K) → List (Call K)
  queue_calls [] = []
  queue_calls (sent _ ∷ l) = queue_calls l
  queue_calls (queue_add k ∷ l) = queue_add k ∷ queue_calls l
  queue_calls (queue_add_rate_limited k ∷ l) = queue_add_rate_limited k ∷ queue_calls l
  queue_calls (queue_forget k ∷ l) = queue_forget k ∷ queue_calls l
  queue_calls (queue_done k ∷ l) = queue_done k ∷ queue_calls l

  -- From one log to a later one of calls to the queue, the latest first: each of the items in turn is forgotten
  -- or put back with rate limiting, and marked done next, and no other call is made.
  pub data Settles : List K → List (Call K) → List (Call K) → Type 0 where
    none_left : {l : List (Call K)} → Settles [] l l
    forgotten :
        {k : K} {ks : List K} {l m : List (Call K)}
        → Settles ks (queue_done k ∷ queue_forget k ∷ l) m
        → Settles (k ∷ ks) l m
    put_back :
        {k : K} {ks : List K} {l m : List (Call K)}
        → Settles ks (queue_done k ∷ queue_add_rate_limited k ∷ l) m
        → Settles (k ∷ ks) l m
