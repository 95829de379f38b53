-- ===== src/ApiServer/Server/Config.antt =====
-- server.go: CreateKubeAPIServerConfig, and Run up to the server that it prepares.
pub mod Laws
use Prim.Native.String
use hohapiserver.Base.{
  ℕ, String, Option, none, some, ◌⊎◌, inl, inr, List, [], ◌∷◌, ◌++◌, Bool, true, if◌then◌else◌,
  Program, Result, returned, failed, panicked, give, refuse, value_or, unless_error, ◌>>=◌, ◌>>◌,
}
use hohapiserver.ApiServer.Ints.{ℤ}
use hohapiserver.ApiServer.Authentication.{ServiceAccounts, AuthenticationOptions}
use hohapiserver.ApiServer.Etcd.{EmbeddedEtcd}
use hohapiserver.ApiServer.Server.{ServerOptions, Transport, wrapped}
use hohapiserver.ApiServer.Generic.{Parts, Egress, cluster, HookMap, Heap, written}
use hohapiserver.ApiServer.Generic.Build.{Calls, Built, Options, deref, build_generic_config}
use hohapiserver.Etcd.{Etcd, ClientInfo}
use hohapiserver.Etcd as EmbeddedServer
use hohapiserver.Etcd.Certificates.{Crypto, FileSystem, Disk}

module _ (P : Parts) where
  open P use {Ip, Issuer, ClientCert, RequestHeader, Ca, HeaderConfig, Dialer, PublicKey, Hook}

  -- The calls of CreateKubeAPIServerConfig behind buildGenericConfig.
  pub record Configuring : Type 0 where
    pub calls : Calls P
    pub client_ca : Option ClientCert → String ⊎ Option Ca
    pub request_header_config : Option RequestHeader → String ⊎ Option HeaderConfig
    -- GenericConfig.AddPostStartHook, on the map of the configuration
    pub add_post_start_hook : String → Hook → HookMap P → String ⊎ HookMap P
    pub public_keys_from_file : String → String ⊎ List PublicKey

  -- controlplane.Config: the generic configuration, and ExtraConfig as far as it is set from the options and
  -- the calls; the fields of the request headers are one configuration.
  pub record ExtraConfig : Type 0 where
    pub built : Built P
    pub api_server_service_ip : Option Ip
    pub service_account_issuer : Option Issuer
    pub service_account_max_expiration : ℤ
    pub extend_expiration : Bool
    pub client_ca : Option Ca
    pub request_header : Option HeaderConfig
    pub proxy_dialer : Option Dialer
    pub service_account_issuer_url : String
    pub service_account_jwks_uri : String
    pub service_account_public_keys : List PublicKey

-- AddPostStartHook on the map with that number.
abbrev pub hook_added :
    {P : Parts} (add : String → P.Hook → HookMap P → String ⊎ HookMap P)
    → ℕ
    → String
    → P.Hook
    → Program (Heap P) (Unit {0})
hook_added add ref name hook h =
    (value_or (add name hook (h.maps ref)) >>= λ hooks h'. give tt (written ref hooks h')) h

-- `Issuers[0]`, which panics at `none`.
abbrev pub first_of : List String → Option String
first_of [] = none
first_of (first ∷ others) = some first

module _ {P : Parts} (lib : Configuring P) where
  open P use {Dialer, PublicKey}

  -- The loop over the key files, behind the keys that it has.
  unfoldable pub public_keys : List PublicKey → List String → String ⊎ List PublicKey
  public_keys keys [] = inr keys
  public_keys keys (file ∷ rest) =
      elim (wrapped (String.◌++◌ "failed to parse key file " file)
        (lib.public_keys_from_file file)) [
          | inl e ↦ inl e
          | inr more ↦ public_keys (keys ++ more) rest
        ]

  egress_dialer : Option (Egress P) → String ⊎ Option Dialer
  egress_dialer none = inr none
  egress_dialer (some e) = elim (e.dialer_for cluster) [
    | inl error ↦ inl error
    | inr dialer ↦ inr (some dialer)
  ]

  -- The part of CreateKubeAPIServerConfig behind buildGenericConfig, with the service account options; issuers
  -- without a first panic.
  unfoldable pub extra_config :
      Options P → ServiceAccounts → Built P → Program (Heap P) (ExtraConfig P)
  unfolding egress_dialer
  extra_config s a built = do
    ca ← value_or (lib.client_ca s.authentication.client_cert)
    header ← value_or (lib.request_header_config s.authentication.request_header)
    hook_added lib.add_post_start_hook built.hooks "start-kube-apiserver-admission-initializer"
        built.admission_hook
    dialer ← value_or (egress_dialer built.config.egress_selector)
    keys ← value_or (public_keys [] a.key_files)
    first ← deref (first_of a.issuers)
    give (record {
      built = built;
      api_server_service_ip = s.api_server_service_ip;
      service_account_issuer = s.service_account_issuer;
      service_account_max_expiration = s.service_account_token_max_expiration;
      extend_expiration = a.extend_expiration;
      client_ca = ca;
      request_header = header;
      proxy_dialer = dialer;
      service_account_issuer_url = first;
      service_account_jwks_uri = a.jwks_uri;
      service_account_public_keys = keys;
    })

  -- CreateKubeAPIServerConfig; nil service account options panic.
  unfoldable pub create_kube_api_server_config : Options P → Program (Heap P) (ExtraConfig P)
  create_kube_api_server_config s = do
    built ← build_generic_config lib.calls s
    a ← deref s.authentication.service_accounts
    extra_config s a built

abbrev pub transport_of : {Tls : Type 0} → ClientInfo Tls → Transport
transport_of info = record {
  server_list = info.endpoints;
  key_file = info.key_file;
  cert_file = info.cert_file;
  trusted_ca_file = info.trusted_ca_file;
}

-- Run, on the disk: the embedded etcd, and the transport of etcd that it makes.
module _ {O R Server Tls Key Public : Type 0} (etcd : Etcd O R Server Tls)
    (crypto : Crypto O Key Public) (fs : FileSystem O) {C H Ip Net Issuer : Type 0} where
  unfoldable pub with_embedded_etcd :
      ServerOptions C H Ip Net Issuer → Program (Disk O) (ServerOptions C H Ip Net Issuer)
  with_embedded_etcd s = elim s.embedded_etcd [
    | none ↦ give s
    | some e ↦
        if e.enabled
        then (EmbeddedServer.run etcd crypto fs e.peer_port e.client_port >>= λ info.
            give (record s { transport = transport_of info }))
        else give s
  ]
