-- ===== src/Syncer/Start.antt =====
-- syncer/syncer.go: Start of a controller, and StartSyncer with NewSpecSyncer and NewStatusSyncer; and the command
-- of cmd/syncer that runs them.
pub mod Laws
mod Tests
use hohapiserver.Base.{
  ℕ, String, ◌==◌, if◌then◌else◌, Bool, Option, none, some, ◌⊎◌, inl, inr, List, ◌∷◌, Program,
  Result, returned, panicked, give, value_or, unless_error, ◌>>=◌, ◌>>◌,
}
use hohapiserver.Kube.Lifecycle.{spawning, Lifecycle, life_step}
use hohapiserver.Syncer.Controller.{SyncDirection, sync_down, sync_up, Controller, new}

-- Start, which drops the answer of WaitForCacheSync.
unfoldable pub start : ℕ → Bool → Lifecycle → Option Lifecycle
start n either s = life_step (λ t. record t { phase = spawning }) n either s.phase s

-- `go controller.Start(ctx, threads)`, with the two clients of the controller.
pub record Started (Client : Type 0) : Type 0 where
  pub controller : Controller
  pub from_client : Client
  pub to_client : Client
  pub threads : ℕ

-- Options of cmd/syncer/options/options.go.
pub record SyncerOptions : Type 0 where
  pub from_kubeconfig : String
  pub to_kubeconfig : String
  pub pod_namespace : String

-- Validate
unfoldable pub validate_syncer_options : SyncerOptions → Option String
validate_syncer_options o =
    if o.from_kubeconfig == "" then some "--from-kubeconfig is required" else none

abbrev pub num_threads : ℕ
num_threads = 2

-- client-go: rest.Config with its copy that has a user agent, dynamic.NewForConfig, and how a configuration is
-- loaded from a file, or inside a cluster.
pub record ClientGo (Config Client : Type 0) : Type 0 where
  pub with_user_agent : String → Config → Config
  pub host : Config → String
  pub new_client : Config → String ⊎ Client
  pub load : String → String ⊎ Config
  pub in_cluster : String ⊎ Config

-- NewForConfigOrDie
abbrev or_die : {S A : Type 0} → String ⊎ A → Program S A
or_die (inl e) s = (panicked, s)
or_die (inr a) s = give a s

module _ {Config Client : Type 0} (lib : ClientGo Config Client) where
  -- NewSpecSyncer and NewStatusSyncer, by their agent and direction.
  unfoldable pub new_syncer :
      String
      → SyncDirection
      → String
      → Config
      → Config
      → Program (List (Started Client)) (Started Client)
  new_syncer agent direction name from to = do
    let from' = lib.with_user_agent agent from
    let to' = lib.with_user_agent agent to
    from_client ← or_die (lib.new_client from')
    to_client ← or_die (lib.new_client to')
    give (record {
      controller = new name (lib.host from') direction;
      from_client = from_client;
      to_client = to_client;
      threads = num_threads;
    })

  abbrev pub new_spec_syncer :
      String → Config → Config → Program (List (Started Client)) (Started Client)
  new_spec_syncer = new_syncer "globalhub#spec-syncer/v0.0.0" sync_down

  abbrev pub new_status_syncer :
      String → Config → Config → Program (List (Started Client)) (Started Client)
  new_status_syncer = new_syncer "globalhub#status-syncer/v0.0.0" sync_up

  -- StartSyncer with numThreads, on the controllers that were started.
  unfoldable pub start_syncer :
      String → Config → Config → Program (List (Started Client)) (Unit {0})
  start_syncer name upstream downstream = do
    spec ← new_spec_syncer name upstream downstream
    status ← new_status_syncer name downstream upstream
    λ started. give tt (status ∷ spec ∷ started)

  -- The configuration of the regional hub.
  unfoldable pub to_config : SyncerOptions → String ⊎ Config
  to_config o = if o.to_kubeconfig == "" then lib.in_cluster else lib.load o.to_kubeconfig

  -- Run of cmd/syncer/cmd/syncer.go
  unfoldable pub run : SyncerOptions → Program (List (Started Client)) (Unit {0})
  run o = do
    upstream ← value_or (lib.load o.from_kubeconfig)
    downstream ← value_or (to_config o)
    start_syncer o.pod_namespace upstream downstream

  -- RunE of the command, up to the end of its context.
  unfoldable pub run_command : SyncerOptions → Program (List (Started Client)) (Unit {0})
  run_command o = do unless_error (validate_syncer_options o); run o
