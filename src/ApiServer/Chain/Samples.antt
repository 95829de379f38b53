-- ===== src/ApiServer/Chain/Samples.antt =====
-- Calls of the libraries that succeed, and options of the API server, for the tests of the chain.
use hohapiserver.Base.{String, arith, true, false, none, some, inl, inr, List, [], ◌∷◌}
use hohapiserver.ApiServer.Ints.{ℤ}
use hohapiserver.ApiServer.Authentication.{new_authentication_options}
use hohapiserver.ApiServer.Authentication.Config.{Library}
use hohapiserver.ApiServer.Server.Samples.{Opts, signing, with_issuer}
use hohapiserver.ApiServer.Server.Config.{Configuring}
use hohapiserver.ApiServer.Generic.{Parts, GenericConfig, Heap, Call, EtcdOptions}
use hohapiserver.ApiServer.Generic.Build.{Calls}
use hohapiserver.ApiServer.Generic.Build.Laws.{KeepsLoopback, Keeps}
use hohapiserver.ApiServer.Chain.{Chaining}

-- Servers are lists of the names of their hooks.
abbrev pub parts : Parts
parts = record {
  Ip = String;
  Net = String;
  Issuer = String;
  ClientCert = Unit {0};
  RequestHeader = Unit {0};
  Ca = String;
  HeaderConfig = String;
  Dialer = String;
  Authenticator = String;
  Definitions = String;
  Authorizer = String;
  Client = String;
  Informers = String;
  Factory = String;
  Completed = String;
  Resources = String;
  Tracer = String;
  Resolver = String;
  Initializer = String;
  FlowControl = ℤ × ℤ;
  Location = String;
  PublicKey = String;
  Hook = String;
  EtcdRest = String;
  Rest = String;
  ExtensionInformers = String;
  DynamicClient = String;
  Server = List String;
}

abbrev pub empty_config : GenericConfig parts
empty_config = record {
  loopback = none;
  egress_selector = none;
  tracer_provider = none;
  merged_resource_config = "defaults";
  has_open_api_v3 = false;
  authentication = record {
    api_audiences = [];
    client_cas = [];
    authenticator = none;
    security_definitions = none;
    v3_definitions = none;
  };
  authorizer = none;
  disabled_post_start_hooks = [];
  rest_options = none;
  skip_open_api_installation = false;
  storage_version_precondition = false;
  flow_control = none;
  others = "";
}

abbrev unchanged : Call parts
unchanged c hooks = (inr c, hooks)

abbrev serving : Call parts
serving c hooks = (
  inr (record c {
    loopback = some (record {
      host = "https://localhost:6443";
      content_type = "";
      disable_compression = false;
    });
  }),
  hooks,
)

abbrev succeeding : Library String String String String String
succeeding = record {
  header_ca = λ c. none;
  apply_client_cert = λ ca. none;
  new_authenticator = λ config. (some "authenticator", ("definitions", none));
}

abbrev pub calls : Calls parts
calls = record {
  enabled = λ f. true;
  new_config = empty_config;
  generic_options = unchanged;
  secure_serving = serving;
  features = unchanged;
  api_enablement = λ scheme. unchanged;
  egress_selector = unchanged;
  traces = unchanged;
  audit = unchanged;
  apply_etcd = λ storage. unchanged;
  -- it adds a hook to the map that it is given
  admission = λ informers loopback initializers c hooks. (inr c, ("admission", "hook") ∷ hooks);
  complete_storage = λ r. inr "completed";
  new_factory = λ c. inr "factory";
  new_client = λ l. inr "client";
  new_informers = λ c. "informers";
  get_ca = λ c. inr none;
  get_header = λ h. inr none;
  authentication = λ client informers. succeeding;
  new_authorizer = λ c. inr "authorizer";
  mode_rbac = "RBAC";
  rbac_hook = "rbac/bootstrap-roles";
  endpoint_resolver = λ i. "endpoints";
  cluster_ip_resolver = λ i. "cluster IPs";
  loopback_resolver = λ r l. "loopback";
  parse_location = λ s. some s;
  new_admission = λ i l e r t. inr ([], "initializer");
  new_flow_control = λ i client requests wait. (requests, wait);
}

abbrev configuring : Configuring parts
configuring = record {
  calls = calls;
  client_ca = λ c. inr none;
  request_header_config = λ h. inr none;
  add_post_start_hook = λ name hook hooks. inr ((name, hook) ∷ hooks);
  public_keys_from_file = λ file. inr (file ∷ []);
}

abbrev etcd_options : EtcdOptions parts
etcd_options = record { paging = false; codec = none; encode_versioner = none; others = "" }

abbrev pub chaining : Chaining parts
chaining = record {
  configuring = configuring;
  etcd = etcd_options;
  not_found_delegate = λ c. [];
  new_extensions_server = λ c hooks delegate. inr ("extensions" ∷ delegate, "informers");
  new_kube_server = λ k delegate c hooks. (inr ("kube" ∷ delegate, c), hooks);
  new_aggregator = λ c hooks delegate. inr [];
  registration_client_error = λ l. none;
  listed_paths = λ s. "/api/v1" ∷ [];
  crds_enabled = λ r. true;
  new_dynamic_client = λ l. inl "no client";
  add_server_hook = λ name hook server. inr (name ∷ server);
  add_boot_check = λ name services server. inr server;
  client_ca_file = λ c. "ca.crt";
}

abbrev pub no_maps : Heap parts
no_maps = record { next = 0; maps = λ r. [] }

unchanged-Keeps : Keeps ⊥ unchanged
unchanged-Keeps c c' m m' e given = elim given [
  | inl set ↦ inl (λ q. set (ground (arith, e, q)))
  | inr x ↦ inr x
]

pub kept : KeepsLoopback ⊥ calls
kept = record {
  secure_serving = λ c c' m m' e. inl (λ q. ground (arith, e, q));
  features = unchanged-Keeps;
  api_enablement = unchanged-Keeps;
  egress_selector = unchanged-Keeps;
  traces = unchanged-Keeps;
  apply_etcd = λ storage. unchanged-Keeps;
  audit = unchanged-Keeps;
}

abbrev pub options : Opts
options = record signing {
  authentication = record new_authentication_options {
    service_accounts = some with_issuer;
    client_cert = some tt;
  };
}
