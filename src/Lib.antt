-- ===== src/Lib.antt =====
-- Multicluster global hub: an API server (server/) that holds the policies of a global hub, and a
-- syncer (syncer/) on each regional hub. The syncer takes policies, placement bindings and placement
-- rules down from the global hub and applies them to the regional hub, and it takes their status, the
-- managed clusters and a summary of the hub up. Controllers on the global hub
-- (server/controllers/globalhubcontroller) label the objects that are to be taken down and merge the
-- compliance that each regional hub reports into the status of the policy.
--
-- How the files correspond to the code:
--   Base: Booleans, native numbers, lists and Go maps with string keys, as association lists.
--   Kube/Content, Kube/Client: `interface{}` content of unstructured objects, their metadata, the
--     requests of a dynamic client and the answers.
--   Kube/Effects: a function that returns an error runs on a World, which holds the state of the API
--     server and the log of all calls made so far, the latest first. A panic is a result of its own.
--   Base/Programs: a function that returns an error or panics runs on a state of any kind.
--   Kube/Samples: objects and servers for the tests.
--   Syncer/Controller, Syncer/Handlers: New, the event handlers and AddToQueue of syncer/syncer.go.
--   Kube/Lifecycle: the life of a controller, a schedule of steps of syncer.go's Start or
--     generic_controller.go's Run and of the cache and the context beside it.
--   Syncer/Start: Start and StartSyncer of syncer/syncer.go, NewSpecSyncer, NewStatusSyncer and the command
--     of cmd/syncer. GlobalHub/Run: Run of generic_controller.go.
--   Syncer/Equality: deepEqualApartFromStatus and deepEqualStatus.
--   Syncer/Spec: syncer/specsyncer.go. Syncer/Status: syncer/statussyncer.go.
--   Syncer/Summary: applyHubControlPlaneInUpstream up to the HubControlPlane that it applies.
--   Syncer/Worker: process, processNextWorkItem and startWorker of syncer/syncer.go.
--   GlobalHub/Compliance, GlobalHub/Policy: policy_controller.go.
--   GlobalHub/Labels: placementbinding_controller.go and placementrule_controller.go.
--   GlobalHub/Generic: generic_controller.go. GlobalHub/Crds: install_crds.go.
--   ApiServer/Aggregator: apiServicesToRegister and makeAPIServiceAvailableHealthCheck of
--     server/apiserver/aggregator.go.
--   Pipeline: a policy on its way through the global hub's controllers and the syncer.
--   ApiServer/Etcd: options/embeddedetcd.go, and validateTokenRequest of options/options.go.
--   ApiServer/Authentication, ApiServer/Authorization: server/apiserver/options/authentication.go and
--     authorization.go. ApiServer/Sets and ApiServer/Ints: sets and signed integers.
--   ApiServer/Texts: strings.Split, strconv.Atoi and the decimal print. ApiServer/WatchCache:
--     ParseWatchCacheSizes and WriteWatchCacheSizes of server/apiserver/server.go.
--   ApiServer/Server: getServiceIPAndRanges of server/apiserver/server.go, and its children Complete
--     (Complete), RuntimeConfig (theorems on its last loop) and Config (CreateKubeAPIServerConfig and the
--     start of Run).
--   ApiServer/Options: NewServerRunOptions and Validate of options/options.go.
--   ApiServer/Generic: the configuration of a generic API server, whose maps of post start hooks are on a
--     heap, since copies of a configuration share them; its child Build is buildGenericConfig.
--   ApiServer/Chain: apiextensions.go, createAggregatorConfig and createAggregatorServer of aggregator.go,
--     and CreateServerChain of server.go; its child Main is Run and main of cmd/server/main.go.
--   Etcd and Etcd/Certificates: server/etcd/embedded.go.
--   KubeControllers/Manager, KubeControllers/Run: server/controllers/kubecontroller/controllermanager.go.
--     KubeControllers/Initializers: core.go, bootstrap.go and certificates.go beside it.
--     KubeControllers/Options: options/options.go and the options of its controllers.
--   KubeControllers/Signing: options/csrsigningcontroller.go and startCSRSigningController of
--     certificates.go in server/controllers/kubecontroller.
--   A child named Laws, or after what it proves (Totals, Entries, Codec, Plane, Items), holds the
--   theorems on its parent; Samples and Tests hold concrete inputs.
--
-- Parameters, since they are no code of the repository: the API server (`serve`, any function from a
-- request and a state to an answer and a state), the caches of the informers, json.Marshal and the
-- converters of apimachinery (`Env`, `to_policy`), Semantic.DeepEqual (`DeepEqual`), the keys of
-- client-go (`Keys`), RetryOnConflict (`retry`), url.Parse (`ParseUrl`), the authorization modes (`Modes`),
-- the calls of ApplyTo (`Library`), the constructors of the signers (`NewSigner`) and of the other
-- controllers (`Constructors`, `Offers`, `Defaults`), the clients of the syncer (`ClientGo`), the calls of
-- Complete and of the chain of servers (`Completing`, `Calls`, `Configuring`, `Chaining`, `Running`, on the
-- types `Parts`), what the libraries preset and report for their options (`LibraryDefaults`, `Reports`),
-- apimachinery's group resources (`Resources`), and for etcd the library itself, crypto and the file system
-- (`Etcd`, `Crypto`, `FileSystem`). A call behind Complete, the chain of servers or etcd answers a value or
-- an error, never a panic, but for Run of the prepared server: it runs the hooks and may panic. The order in
-- which a Go map is gone over is a parameter too. The queue is seen through the calls that a worker makes on
-- it and through what Get returns, which a run takes as a list.
--
-- Bounds and fuel: only the decimal print takes fuel, one more than the number, and each round divides the
-- number by ten. The other loops run over lists; the two startWorker loops run over
-- the successive answers of Get, and the life of a controller over a list of events, so that a run of any
-- finite length is one of the model. The uint32 counters wrap around at 2^32. Decoding a summary reads the exact keys of the JSON tags, the only ones
-- that the schema of the CRD keeps.
--
-- Not modelled: log output, what an informer does before its events, what a hook does once it runs, the
-- resync period, the label selectors of the informers, the rate limits of clients, the OpenAPI definitions
-- and other values that server.go hands to the libraries as they are, the flags of the command line and the deployment scripts.
mod Base
mod Kube
pub mod Syncer
pub mod GlobalHub
pub mod KubeControllers
pub mod ApiServer
pub mod Etcd
mod Pipeline
