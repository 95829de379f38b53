-- ===== src/ApiServer/Generic.antt =====
-- The configuration of a generic API server that server.go, apiextensions.go and aggregator.go pass around:
-- its maps of post start hooks on a heap, and the calls of the libraries that change it.
pub mod Build
use Prim.Native.Nat.{compare, Ordering}
use hohapiserver.Base.{
  ℕ, suc, String, Bool, true, false, Option, none, some, ◌⊎◌, List, [], if◌then◌else◌, Program,
  Result, returned,
}
use hohapiserver.ApiServer.Ints.{ℤ}
use hohapiserver.ApiServer.Authentication.Config.{Applied, Library}
use hohapiserver.ApiServer.Authorization.{AuthorizationOptions}

-- The types of the libraries. Hook is what a post start hook runs, Rest all fields of a configuration that
-- only the libraries read, EtcdRest those of the etcd options, and Server a generic API
-- server.
pub record Parts : Type 1 where
  pub Ip : Type 0
  pub Net : Type 0
  pub Issuer : Type 0
  pub ClientCert : Type 0
  pub RequestHeader : Type 0
  pub Ca : Type 0
  pub HeaderConfig : Type 0
  pub Dialer : Type 0
  pub Authenticator : Type 0
  pub Definitions : Type 0
  pub Authorizer : Type 0
  pub Client : Type 0
  pub Informers : Type 0
  pub Factory : Type 0
  pub Completed : Type 0
  pub Resources : Type 0
  pub Tracer : Type 0
  pub Resolver : Type 0
  pub Initializer : Type 0
  pub FlowControl : Type 0
  pub Location : Type 0
  pub PublicKey : Type 0
  pub Hook : Type 0
  pub EtcdRest : Type 0
  pub Rest : Type 0
  pub ExtensionInformers : Type 0
  pub DynamicClient : Type 0
  pub Server : Type 0

-- The schemes legacyscheme, apiextensions and kube-aggregator, and the versions v1 and v1beta1 of one.
pub data Scheme : Type 0 where
  legacy extensions aggregation : Scheme

pub data Version : Type 0 where
  v1 v1beta1 : Version

-- The feature gates that are asked for.
pub data Feature : Type 0 where
  api_server_tracing open_api_v3 api_priority_and_fairness : Feature
  api_list_chunking storage_version_api api_server_identity : Feature

pub data Network : Type 0 where
  cluster control_plane : Network

-- rest.Config for the server itself, as far as it is read or set.
pub record Loopback : Type 0 where
  pub host : String
  pub content_type : String
  pub disable_compression : Bool

module _ (P : Parts) where
  open P use {
    Ca, Dialer, Authenticator, Definitions, Authorizer, Tracer, FlowControl, Factory, Resources,
    Hook, EtcdRest, Rest, Informers,
  }

  pub record Egress : Type 0 where
    pub dialer_for : Network → String ⊎ Dialer

  -- EtcdOptions: the storage configuration as far as it is set, and all else.
  pub record EtcdOptions : Type 0 where
    pub paging : Bool
    pub codec : Option (Scheme × List Version)
    pub encode_versioner : Option (Scheme × Version)
    pub others : EtcdRest

  -- genericapiserver.Config but for its map of post start hooks.
  pub record GenericConfig : Type 0 where
    pub loopback : Option Loopback
    pub egress_selector : Option Egress
    pub tracer_provider : Option Tracer
    pub merged_resource_config : Resources
    pub has_open_api_v3 : Bool
    pub authentication : Applied Ca Authenticator Definitions
    pub authorizer : Option Authorizer
    pub disabled_post_start_hooks : List String
    pub rest_options : Option EtcdOptions
    pub skip_open_api_installation : Bool
    pub storage_version_precondition : Bool
    pub flow_control : Option FlowControl
    pub others : Rest

  -- DefaultStorageFactory: the transport as far as it is set.
  pub record StorageFactory : Type 0 where
    pub factory : Factory
    pub egress_lookup : Option Egress
    pub tracer : Option Tracer

  -- authorizer.Config, made from the options.
  pub record AuthorizerConfig : Type 0 where
    pub options : AuthorizationOptions
    pub informers : Informers
    pub custom_dial : Option Dialer

  abbrev pub HookMap : Type 0
  HookMap = List (String × Hook)

  -- The maps of hooks that exist, by number; a configuration holds the number of its map, and a copy of the
  -- configuration the same number.
  pub record Heap : Type 0 where
    pub next : ℕ
    pub maps : ℕ → HookMap

  -- A call of a library on a configuration: it changes the configuration in place and may add to its map.
  abbrev pub Call : Type 0
  Call = GenericConfig → HookMap → (String ⊎ GenericConfig) × HookMap

abbrev pub same : ℕ → ℕ → Bool
same a b = elim (compare a b) [ Ordering.eq ↦ true | _ ↦ false ]

module _ {P : Parts} where
  -- `map[string]PostStartHookConfigEntry{}`
  abbrev pub new_map : Program (Heap P) ℕ
  new_map h = (
    returned h.next,
    record h { next = suc h.next; maps = λ r. if same h.next r then [] else h.maps r },
  )

  abbrev pub written : ℕ → HookMap P → Heap P → Heap P
  written ref hooks h = record h { maps = λ r. if same ref r then hooks else h.maps r }
