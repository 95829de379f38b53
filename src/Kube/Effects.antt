-- ===== src/Kube/Effects.antt =====
-- The monad of the handlers: a Go function that returns an error, runs against an API server, and
-- leaves behind the calls that it made. A panic is a result of its own.
pub mod Laws
use hohapiserver.Base.{String, List, ◌∷◌, ◌⊎◌, inl, inr}
use hohapiserver.Kube.Client.{Unstructured, ApiError, Request, Response, found, refused}

-- The errors that the modelled functions return.
pub data Err : Type 0 where
  api : ApiError → Err
  -- the object is not *unstructured.Unstructured
  not_unstructured : Err
  -- POD_NAMESPACE is not set
  no_pod_namespace : Err
  -- an encoder, decoder or converter failed
  conversion : String → Err

pub data Outcome {ℓ} (A : Type ℓ) : Type ℓ where
  ok : A → Outcome A
  fail : Err → Outcome A
  panic : Outcome A

-- A call that leaves the component: to the API server, or to the component's work queue.
pub data Call (K : Type 0) : Type 0 where
  sent : Request → Call K
  queue_add : K → Call K
  queue_add_rate_limited : K → Call K
  queue_forget : K → Call K
  queue_done : K → Call K

-- The state of the server, which is not part of the program, and the calls, the latest first.
pub record World (S K : Type 0) : Type 0 where
  pub server : S
  pub log : List (Call K)

abbrev pub M : Type 0 → Type 0 → Type 0 → Type 0
M S K A = World S K → Outcome A × World S K

abbrev pub pure : {S K A : Type 0} → A → M S K A
pure a w = (ok a, w)

abbrev pub throw : {S K A : Type 0} → Err → M S K A
throw e w = (fail e, w)

abbrev pub crash : {S K A : Type 0} → M S K A
crash w = (panic, w)

abbrev pub continue :
    {S K A B : Type 0} → Outcome A × World S K → (A → M S K B) → Outcome B × World S K
continue (ok a, w) f = f a w
continue (fail e, w) f = (fail e, w)
continue (panic, w) f = (panic, w)

-- `if err != nil { return err }` after a call.
infixl 5 ◌>>=◌ ◌>>◌
abbrev pub ◌>>=◌ : {S K A B : Type 0} → M S K A → (A → M S K B) → M S K B
◌>>=◌ m f w = continue (m w) f

abbrev pub ◌>>◌ : {S K B : Type 0} → M S K (Unit {0}) → M S K B → M S K B
m >> k = m >>= λ _. k

abbrev pub catch : {S K A : Type 0} → Outcome A × World S K → Outcome (Err ⊎ A) × World S K
catch (ok a, w) = (ok (inr a), w)
catch (fail e, w) = (ok (inl e), w)
catch (panic, w) = (panic, w)

-- A call whose error the caller looks at, or drops.
abbrev pub attempt : {S K A : Type 0} → M S K A → M S K (Err ⊎ A)
attempt m w = catch (m w)

-- A value or an error that needs no server.
abbrev pub lift : {S K A : Type 0} → Outcome A → M S K A
lift o w = (o, w)

abbrev pub emit : {S K : Type 0} → Call K → M S K (Unit {0})
emit c w = (ok tt, record w { log = c ∷ w.log })

abbrev pub answer : Response → Outcome Unstructured
answer (found u) = ok u
answer (refused e) = fail (api e)

-- The API server decides each answer and its own next state.
abbrev pub Server : Type 0 → Type 0
Server S = Request → S → Response × S

abbrev pub send : {S K : Type 0} → Server S → Request → M S K Unstructured
send serve q w =
    let r = serve q w.server in (answer r.0, record w { server = r.1; log = sent q ∷ w.log })
