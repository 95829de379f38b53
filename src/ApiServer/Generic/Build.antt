-- ===== src/ApiServer/Generic/Build.antt =====
-- server.go: buildGenericConfig, buildServiceResolver, BuildAuthorizer and BuildPriorityAndFairness, as
-- programs on the heap of hook maps.
pub mod Laws
pub mod Ending
use Prim.Native.String
use hohapiserver.Base.{
  ℕ, ◌==◌, String, Bool, true, false, not, ◌&&◌, if◌then◌else◌, Option, none, some, ◌⊎◌, inl, inr,
  List, [], ◌∷◌, elem, Program, Result, returned, failed, panicked, give, refuse, value_or,
  unless_error, ◌>>=◌, ◌>>◌,
}
use hohapiserver.ApiServer.Ints.{ℤ, positive, sum, wrap64, quarter}
use hohapiserver.ApiServer.Authorization.{AuthorizationOptions}
use hohapiserver.ApiServer.Authentication.Config.{Applied, Library, apply_authentication}
use hohapiserver.ApiServer.Server.{RequestOptions, ServerOptions, wrapped}
use hohapiserver.ApiServer.Generic.{
  Parts, Scheme, legacy, Feature, api_server_tracing, open_api_v3, api_priority_and_fairness,
  Network, control_plane, Loopback, Egress, GenericConfig, StorageFactory, AuthorizerConfig,
  HookMap, Heap, Call, new_map, written,
}

module _ (P : Parts) where
  open P use {
    ClientCert, RequestHeader, Ca, HeaderConfig, Dialer, Authenticator, Definitions, Authorizer,
    Client, Informers, Factory, Completed, Resources, Tracer, Resolver, Initializer, FlowControl,
    Location, PublicKey, Hook,
  }

  -- The calls of the libraries, on the options that they define.
  pub record Calls : Type 0 where
    pub enabled : Feature → Bool
    -- NewConfig with DefaultAPIResourceConfigSource
    pub new_config : GenericConfig P
    pub generic_options : Call P
    pub secure_serving : Call P
    pub features : Call P
    pub api_enablement : Scheme → Call P
    pub egress_selector : Call P
    pub traces : Call P
    pub audit : Call P
    pub apply_etcd : StorageFactory P → Call P
    pub admission : Informers → Option Loopback → List Initializer → Call P
    pub complete_storage : Resources → String ⊎ Completed
    pub new_factory : Completed → String ⊎ Factory
    pub new_client : Loopback → String ⊎ Client
    pub new_informers : Client → Informers
    pub get_ca : ClientCert → String ⊎ Option Ca
    pub get_header : RequestHeader → String ⊎ Option HeaderConfig
    pub authentication :
        Client → Informers → Library Ca HeaderConfig Dialer Authenticator Definitions
    pub new_authorizer : AuthorizerConfig P → String ⊎ Authorizer
    -- modes.ModeRBAC and rbacrest.PostStartHookName
    pub mode_rbac : String
    pub rbac_hook : String
    pub endpoint_resolver : Informers → Resolver
    pub cluster_ip_resolver : Informers → Resolver
    pub loopback_resolver : Resolver → Location → Resolver
    pub parse_location : String → Option Location
    -- admissionConfig.New: the initializers and the hook.
    pub new_admission :
        Informers
        → Loopback
        → Option (Egress P)
        → Resolver
        → Option Tracer
        → String ⊎ (List Initializer × Hook)
    pub new_flow_control : Informers → Client → ℤ → ℤ → FlowControl

  -- What buildGenericConfig returns beside an error; `hooks` is the number of the configuration's map.
  pub record Built : Type 0 where
    pub hooks : ℕ
    pub config : GenericConfig P
    pub informers : Informers
    pub resolver : Resolver
    pub initializers : List Initializer
    pub admission_hook : Hook
    pub storage_factory : StorageFactory P

-- A call on the configuration with that map.
abbrev pub called :
    {P : Parts} {A : Type 0}
    → (GenericConfig P → HookMap P → (String ⊎ A) × HookMap P)
    → ℕ
    → GenericConfig P
    → Program (Heap P) A
called call ref c h =
    let (answer, hooks) = call c (h.maps ref) in value_or answer (written ref hooks h)

-- A pointer that is read, which panics at nil.
abbrev pub deref : {S A : Type 0} → Option A → Program S A
deref none s = (panicked, s)
deref (some a) s = give a s

-- `fmt.Errorf` around the error of a program.
abbrev relabelled : {A : Type 0} → String → Result A → Result A
relabelled prefix (returned a) = returned a
relabelled prefix (failed e) = failed (String.◌++◌ prefix e)
relabelled prefix panicked = panicked

abbrev pub failing : {S A : Type 0} → String → Program S A → Program S A
failing prefix m s = let (r, s') = m s in (relabelled prefix r, s')

abbrev pub Options : Parts → Type 0
Options P = ServerOptions P.ClientCert P.RequestHeader P.Ip P.Net P.Issuer

module _ {P : Parts} (lib : Calls P) where
  open P use {
    ClientCert, RequestHeader, Ca, HeaderConfig, Dialer, Authenticator, Definitions, Authorizer,
    Client, Informers, Tracer, Resolver, Initializer, FlowControl, Hook,
  }

  -- buildServiceResolver
  unfoldable pub build_service_resolver : Bool → String → Informers → Resolver
  build_service_resolver routing hostname informers =
      let resolver =
        if routing then lib.endpoint_resolver informers else lib.cluster_ip_resolver informers in
      elim (lib.parse_location hostname) [
        | none ↦ resolver
        | some location ↦ lib.loopback_resolver resolver location
      ]

  -- The dialer of the egress selector, if it is not nil.
  unfoldable pub egress_dial : Option (Egress P) → Program (Heap P) (Option Dialer)
  egress_dial none = give none
  egress_dial (some e) = value_or (e.dialer_for control_plane) >>= λ dialer. give (some dialer)

  -- BuildAuthorizer; nil options are read and panic.
  unfoldable pub build_authorizer :
      Option AuthorizationOptions → Option (Egress P) → Informers → Program (Heap P) Authorizer
  build_authorizer none egress informers s = (panicked, s)
  build_authorizer (some o) egress informers s =
      (do
        dial ← egress_dial egress
        value_or (
            lib.new_authorizer (record { options = o; informers = informers; custom_dial = dial })))
        s

  -- BuildPriorityAndFairness
  unfoldable pub build_priority_and_fairness :
      RequestOptions → Client → Informers → String ⊎ FlowControl
  build_priority_and_fairness r client informers =
      let requests = wrap64 (sum r.max_requests_in_flight r.max_mutating_requests_in_flight) in
      if not (positive requests)
      then inl "invalid configuration: MaxRequestsInFlight and MaxMutatingRequestsInFlight"
      else inr (lib.new_flow_control informers client requests (quarter r.request_timeout))

  -- The options that are applied before the storage.
  unfoldable pub apply_options : ℕ → Program (Heap P) (GenericConfig P)
  apply_options ref = do
    c ← called lib.generic_options ref lib.new_config
    c ← called lib.secure_serving ref c
    c ← called lib.features ref c
    c ← called (lib.api_enablement legacy) ref c
    c ← called lib.egress_selector ref c
    c ← if lib.enabled api_server_tracing then called lib.traces ref c else give c
    give (if lib.enabled open_api_v3 then record c { has_open_api_v3 = true } else c)

  -- The storage factory, and the etcd options applied with it.
  unfoldable pub apply_storage :
      ℕ → GenericConfig P → Program (Heap P) (StorageFactory P × GenericConfig P)
  apply_storage ref c = do
    completed ← value_or (lib.complete_storage c.merged_resource_config)
    factory ← value_or (lib.new_factory completed)
    let storage : StorageFactory P = record {
      factory = factory;
      egress_lookup = c.egress_selector;
      tracer = if lib.enabled api_server_tracing then c.tracer_provider else none;
    }
    c ← called (lib.apply_etcd storage) ref c
    give (storage, c)

  abbrev some_dialer : String ⊎ Dialer → String ⊎ Option Dialer
  some_dialer (inl e) = inl e
  some_dialer (inr dialer) = inr (some dialer)

  -- Authentication.ApplyTo on the fields of the configuration.
  unfoldable pub apply_to_fields :
      Options P
      → Client
      → Informers
      → GenericConfig P
      → Option String × Applied Ca Authenticator Definitions
  apply_to_fields s client informers c =
      let lookup : Option (String ⊎ Option Dialer) = elim c.egress_selector [
        | none ↦ none
        | some e ↦ some (some_dialer (e.dialer_for control_plane))
      ] in
      apply_authentication lib.get_ca lib.get_header (lib.authentication client informers)
        (some s.authentication) true c.has_open_api_v3 lookup c.authentication

  unfoldable pub authenticated :
      Options P → Client → Informers → GenericConfig P → Program (Heap P) (GenericConfig P)
  authenticated s client informers c =
      let t = apply_to_fields s client informers c in
      unless_error t.0 >> give (record c { authentication = t.1 })

  unfoldable pub authorized : Options P → Informers → GenericConfig P → Program (Heap P) Authorizer
  authorized s informers c =
      failing "invalid authorization config: "
        (build_authorizer s.authorization c.egress_selector informers)

  abbrev pub with_rbac_hook : AuthorizationOptions → GenericConfig P → GenericConfig P
  with_rbac_hook o c =
      if elem lib.mode_rbac o.modes
      then c
      else record c { disabled_post_start_hooks = lib.rbac_hook ∷ c.disabled_post_start_hooks }

  -- The part that makes the client, and authenticates and authorizes.
  unfoldable pub secured :
      Options P
      → Loopback
      → GenericConfig P
      → Program (Heap P) ((Client × Informers) × GenericConfig P)
  secured s loopback c = do
    client ←
        value_or (wrapped "failed to create real external clientset: " (lib.new_client loopback))
    let informers = lib.new_informers client
    c ← authenticated s client informers (record c { loopback = some loopback })
    authorizer ← authorized s informers c
    o ← deref s.authorization
    give ((client, informers), with_rbac_hook o (record c { authorizer = some authorizer }))

  -- The last assignment to lastErr.
  unfoldable pub with_flow_control :
      RequestOptions → Client → Informers → GenericConfig P → Program (Heap P) (GenericConfig P)
  with_flow_control r client informers c =
      if lib.enabled api_priority_and_fairness && r.enable_priority_and_fairness
      then (value_or (build_priority_and_fairness r client informers) >>= λ flow.
          give (record c { flow_control = some flow }))
      else give c

  -- The loopback client as the server uses it for itself.
  abbrev pub for_itself : Loopback → Loopback
  for_itself l = record l {
    content_type = "application/vnd.kubernetes.protobuf";
    disable_compression = true;
  }

  -- buildGenericConfig
  unfoldable pub build_generic_config : Options P → Program (Heap P) (Built P)
  build_generic_config s = do
    ref ← new_map
    c ← apply_options ref
    (storage, c) ← apply_storage ref c
    set ← deref c.loopback
    ((client, informers), c) ← secured s (for_itself set) c
    c ← called lib.audit ref c
    loopback ← deref c.loopback
    let resolver = build_service_resolver s.enable_aggregator_routing loopback.host informers
    (initializers, hook) ← value_or (
        wrapped "failed to create admission plugin initializer: "
          (lib.new_admission informers loopback c.egress_selector resolver c.tracer_provider))
    c ← called (lib.admission informers (some (for_itself set)) initializers) ref c
    c ← with_flow_control s.requests client informers c
    give (record {
      hooks = ref;
      config = c;
      informers = informers;
      resolver = resolver;
      initializers = initializers;
      admission_hook = hook;
      storage_factory = storage;
    })
