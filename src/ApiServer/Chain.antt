-- ===== src/ApiServer/Chain.antt =====
-- The chain of API servers: createAPIExtensionsConfig of apiextensions.go, createAggregatorConfig and
-- createAggregatorServer of aggregator.go, and CreateServerChain of server.go.
pub mod Maps
pub mod Hooks
pub mod Laws
pub mod Main
pub mod Samples
mod Tests
use Prim.Native.String
use hohapiserver.Base.{
  ℕ, String, Bool, true, ◌&&◌, if◌then◌else◌, Option, none, some, ◌⊎◌, inl, inr, List, [], ◌∷◌,
  Program, Result, returned, give, value_or, unless_error, ◌>>=◌, ◌>>◌,
}
use hohapiserver.ApiServer.Aggregator.{
  ApiService, Registration, api_services_to_register, service_names,
}
use hohapiserver.ApiServer.Sets.{set_of}
use hohapiserver.ApiServer.Generic.{
  Parts, extensions, aggregation, v1, v1beta1, api_list_chunking, storage_version_api,
  api_server_identity, Loopback, Egress, EtcdOptions, GenericConfig, HookMap, Heap, new_map,
}
use hohapiserver.ApiServer.Generic.Build.{Calls, Built, Options, called, deref}
use hohapiserver.ApiServer.Server.Config.{Configuring, ExtraConfig, create_kube_api_server_config}

-- The hooks that createAggregatorServer adds: what each of them starts.
pub data ServerHook (D : Type 0) : Type 0 where
  -- the controllers of the registrations; the second waits for the first if CRDs are enabled
  autoregistration : List (Option ApiService) → Bool → ServerHook D
  -- RunKubeControllers with the loopback configuration, the client CA and its key
  kube_controllers : Option Loopback → String → String → ServerHook D
  -- InstallGlobalHubCRDs and AddControllers, with a client that may be nil
  global_hub_crds : Option D → ServerHook D
  global_hub_controllers : Option D → ServerHook D

module _ (P : Parts) where
  open P use {
    ClientCert, Dialer, Informers, Resolver, Resources, Tracer, ExtensionInformers, DynamicClient,
    Server,
  }

  -- The wrapper of webhook authentication, by the arguments that it is made of.
  pub record AuthWrapper : Type 0 where
    pub proxy_dialer : Option Dialer
    pub egress_selector : Option (Egress P)
    pub loopback : Option Loopback
    pub tracer_provider : Option Tracer

  pub record ExtensionsConfig : Type 0 where
    pub hooks : ℕ
    pub config : GenericConfig P
    pub informers : Informers
    pub crd_rest_options : EtcdOptions P
    pub master_count : ℕ
    pub auth_resolver_wrapper : AuthWrapper
    pub service_resolver : Resolver

  pub record AggregatorConfig : Type 0 where
    pub hooks : ℕ
    pub config : GenericConfig P
    pub informers : Informers
    pub service_resolver : Resolver
    pub proxy_dialer : Option Dialer

  -- The calls of CreateServerChain. A server is made of a configuration, the hooks in its map and the server
  -- that it delegates to.
  pub record Chaining : Type 0 where
    pub configuring : Configuring P
    -- ServerRunOptions.Etcd
    pub etcd : EtcdOptions P
    pub not_found_delegate : GenericConfig P → Server
    pub new_extensions_server :
        ExtensionsConfig → HookMap P → Server → String ⊎ (Server × ExtensionInformers)
    -- Complete and New of the configuration, which change it in place
    pub new_kube_server :
        ExtraConfig P
        → Server
        → GenericConfig P
        → HookMap P
        → (String ⊎ (Server × GenericConfig P)) × HookMap P
    pub new_aggregator : AggregatorConfig → HookMap P → Server → String ⊎ Server
    pub registration_client_error : Option Loopback → Option String
    pub listed_paths : Server → List String
    -- ResourceEnabled of the custom resource definitions
    pub crds_enabled : Resources → Bool
    pub new_dynamic_client : Option Loopback → String ⊎ DynamicClient
    pub add_server_hook : String → ServerHook DynamicClient → Server → String ⊎ Server
    pub add_boot_check : String → List String → Server → String ⊎ Server
    pub client_ca_file : ClientCert → String

module _ {P : Parts} (lib : Chaining P) where
  open P use {
    ClientCert, Dialer, Informers, Resolver, Initializer, ExtensionInformers, DynamicClient, Server,
  }

  calls : Calls P
  calls = lib.configuring.calls

  -- The etcd options of the two other servers, on a copy.
  abbrev extensions_etcd : EtcdOptions P
  extensions_etcd = record lib.etcd {
    paging = lib.configuring.calls.enabled api_list_chunking;
    codec = some (extensions, v1beta1 ∷ v1 ∷ []);
    encode_versioner = some (extensions, v1beta1);
  }

  abbrev aggregator_etcd : EtcdOptions P
  aggregator_etcd = record lib.etcd {
    paging = lib.configuring.calls.enabled api_list_chunking;
    codec = some (aggregation, v1 ∷ v1beta1 ∷ []);
    encode_versioner = some (aggregation, v1);
  }

  -- createAPIExtensionsConfig, on a copy of the configuration.
  unfoldable pub create_api_extensions_config :
      GenericConfig P
      → Informers
      → List Initializer
      → ℕ
      → Resolver
      → AuthWrapper P
      → Program (Heap P) (ExtensionsConfig P)
  create_api_extensions_config kube informers initializers masters resolver wrapper = do
    first ← new_map
    c ←
        called (lib.configuring.calls.admission informers kube.loopback initializers) first
          (record kube { rest_options = none })
    c ←
        called (lib.configuring.calls.api_enablement extensions) first
          (record c { rest_options = some extensions_etcd })
    last ← new_map
    give (record {
      hooks = last;
      config = c;
      informers = informers;
      crd_rest_options = extensions_etcd;
      master_count = masters;
      auth_resolver_wrapper = wrapper;
      service_resolver = resolver;
    })

  abbrev for_aggregator : GenericConfig P → GenericConfig P
  for_aggregator kube = record kube {
    rest_options = none;
    skip_open_api_installation = true;
    storage_version_precondition =
        if lib.configuring.calls.enabled storage_version_api
          && lib.configuring.calls.enabled api_server_identity
        then true
        else kube.storage_version_precondition;
  }

  -- createAggregatorConfig
  unfoldable pub create_aggregator_config :
      GenericConfig P
      → Informers
      → Resolver
      → Option Dialer
      → List Initializer
      → Program (Heap P) (AggregatorConfig P)
  create_aggregator_config kube informers resolver proxy initializers = do
    first ← new_map
    c ←
        called (lib.configuring.calls.admission informers kube.loopback initializers) first
          (for_aggregator kube)
    c ←
        called (lib.configuring.calls.api_enablement aggregation) first
          (record c { rest_options = some aggregator_etcd })
    last ← new_map
    give (record {
      hooks = last;
      config = c;
      informers = informers;
      service_resolver = resolver;
      proxy_dialer = proxy;
    })

  -- `dynamicClient, err := …; if err != nil { klog.Errorf(…) }`
  abbrev client_or_nil : String ⊎ DynamicClient → Option DynamicClient
  client_or_nil (inl e) = none
  client_or_nil (inr client) = some client

  -- createAggregatorServer, with the hooks that are in the map of the configuration.
  unfoldable pub create_aggregator_server :
      AggregatorConfig P → HookMap P → Server → String → String → Program (Heap P) Server
  create_aggregator_server c hooks delegate client_cert client_key = do
    server ← value_or (lib.new_aggregator c hooks delegate)
    unless_error (lib.registration_client_error c.config.loopback)
    let services = Registration.services (api_services_to_register (lib.listed_paths delegate))
    server ← value_or (
        lib.add_server_hook "kube-apiserver-autoregistration"
          (autoregistration services (lib.crds_enabled c.config.merged_resource_config)) server)
    names ← deref (service_names services)
    server ← value_or (lib.add_boot_check "autoregister-completion" (set_of names) server)
    server ← value_or (
        lib.add_server_hook "kube-controller"
          (kube_controllers c.config.loopback client_cert client_key) server)
    let client = client_or_nil (lib.new_dynamic_client c.config.loopback)
    server ← value_or (lib.add_server_hook "global-hub-crds" (global_hub_crds client) server)
    value_or (lib.add_server_hook "global-hub-controllers" (global_hub_controllers client) server)

  abbrev auth_wrapper : ExtraConfig P → AuthWrapper P
  auth_wrapper kube = record {
    proxy_dialer = kube.proxy_dialer;
    egress_selector = kube.built.config.egress_selector;
    loopback = kube.built.config.loopback;
    tracer_provider = kube.built.config.tracer_provider;
  }

  -- The server for extensions, in front of the one that answers "not found".
  unfoldable pub extensions_server : ExtraConfig P → Program (Heap P) (Server × ExtensionInformers)
  extensions_server kube = do
    c ←
        create_api_extensions_config kube.built.config kube.built.informers kube.built.initializers
          1 kube.built.resolver (auth_wrapper kube)
    λ h.
        value_or
          (lib.new_extensions_server c (h.maps c.hooks) (lib.not_found_delegate kube.built.config))
          h

  -- CreateKubeAPIServer
  abbrev pub create_kube_api_server :
      ExtraConfig P → Server → Program (Heap P) (Server × GenericConfig P)
  create_kube_api_server kube delegate =
      called (lib.new_kube_server kube delegate) kube.built.hooks kube.built.config

  -- The aggregator, in front of the API server; nil options of client certificates panic.
  unfoldable pub aggregator_server :
      Options P → ExtraConfig P → Server × GenericConfig P → Program (Heap P) Server
  aggregator_server s kube (server, config) = do
    c ←
        create_aggregator_config config kube.built.informers kube.built.resolver kube.proxy_dialer
          kube.built.initializers
    cert ← deref s.authentication.client_cert
    λ h.
        create_aggregator_server c (h.maps c.hooks) server (lib.client_ca_file cert)
          s.client_key_file h

  -- CreateServerChain
  unfoldable pub create_server_chain : Options P → Program (Heap P) Server
  create_server_chain s = do
    kube ← create_kube_api_server_config lib.configuring s
    (extension, informers) ← extensions_server kube
    made ← create_kube_api_server kube extension
    aggregator_server s kube made
