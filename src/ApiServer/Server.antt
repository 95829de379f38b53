-- ===== src/ApiServer/Server.antt =====
-- server.go: the options that Complete fills in, the addresses of services, and what Complete calls.
pub mod Complete
pub mod Config
pub mod Laws
pub mod RuntimeConfig
pub mod Samples
mod Tests
use Prim.Native.String
use hohapiserver.Base.{
  ℕ, String, ◌==◌, if◌then◌else◌, Bool, Option, none, some, ◌⊎◌, inl, inr, List, [], ◌∷◌,
}
use hohapiserver.ApiServer.Ints.{ℤ}
use hohapiserver.ApiServer.Texts.{split}
use hohapiserver.ApiServer.WatchCache.{Resources, Sizes}
use hohapiserver.ApiServer.Authorization.{Modes, AuthorizationOptions}
use hohapiserver.ApiServer.Authentication.{AuthenticationOptions}
use hohapiserver.ApiServer.Etcd.{EmbeddedEtcd}

-- Etcd.StorageConfig.Transport, as far as it is set.
pub record Transport : Type 0 where
  pub server_list : List String
  pub key_file : String
  pub cert_file : String
  pub trusted_ca_file : String

-- GenericServerRunOptions, as far as buildGenericConfig reads it itself.
pub record RequestOptions : Type 0 where
  pub max_requests_in_flight : ℤ
  pub max_mutating_requests_in_flight : ℤ
  pub request_timeout : ℤ
  pub enable_priority_and_fairness : Bool

-- ServerRunOptions, as far as Complete and Run read or set it. Ip and Net are net.IP and net.IPNet, with an
-- empty one as `none`; Issuer is the token generator; C and H are options of client certificates and headers.
pub record ServerOptions (C H Ip Net Issuer : Type 0) : Type 0 where
  pub advertise_address : Option Ip
  pub external_host : String
  pub service_cluster_ip_ranges : String
  pub api_server_service_ip : Option Ip
  pub primary_service_cluster_ip_range : Option Net
  pub secondary_service_cluster_ip_range : Option Net
  -- SecureServing.ServerCert.CertKey.KeyFile
  pub server_key_file : String
  pub authentication : AuthenticationOptions C H
  pub authorization : Option AuthorizationOptions
  pub service_account_signing_key_file : String
  pub service_account_issuer : Option Issuer
  pub service_account_token_max_expiration : ℤ
  pub enable_watch_cache : Bool
  pub watch_cache_sizes : List String
  -- APIEnablement.RuntimeConfig
  pub runtime_config : List (String × String)
  pub embedded_etcd : Option EmbeddedEtcd
  pub transport : Transport
  pub requests : RequestOptions
  pub enable_aggregator_routing : Bool
  pub client_key_file : String

-- The calls of Complete: each answers an error or a value.
pub record Completing (Ip Net Issuer Key R : Type 0) : Type 0 where
  pub modes : Modes
  pub resources : Resources R
  pub default_watch_cache_sizes : Sizes R
  -- the order in which WriteWatchCacheSizes goes over the map
  pub sizes_in_order : Sizes R → Sizes R
  pub default_advertise_address : Option Ip → String ⊎ Option Ip
  -- controlplane.ServiceIPRange: the range, and the address of the API server in it
  pub service_ip_range : Option Net → String ⊎ (Net × Ip)
  pub parse_cidr : String → String ⊎ Net
  -- MaybeDefaultWithSelfSignedCerts: the key file, from the two addresses and the file that is set
  pub self_signed : Option Ip → Option Ip → String → String ⊎ String
  pub ip_text : Ip → String
  pub hostname : String ⊎ String
  pub is_valid_key_file : String → Bool
  pub private_key_from_file : String → String ⊎ Key
  pub jwt_token_generator : String → Key → String ⊎ Issuer

-- What getServiceIPAndRanges answers.
pub record Ranges (Ip Net : Type 0) : Type 0 where
  pub service_ip : Ip
  pub primary : Net
  pub secondary : Option Net

abbrev pub wrapped : {A : Type 0} → String → String ⊎ A → String ⊎ A
wrapped prefix (inl e) = inl (String.◌++◌ prefix e)
wrapped prefix (inr a) = inr a

module _ {Ip Net Issuer Key R : Type 0} (lib : Completing Ip Net Issuer Key R) where
  -- The part of getServiceIPAndRanges behind the primary range.
  unfoldable pub secondary_range : Net × Ip → List String → String ⊎ Ranges Ip Net
  secondary_range (range, ip) [] =
      inr (record { service_ip = ip; primary = range; secondary = none })
  secondary_range (range, ip) (second ∷ others) = elim (lib.parse_cidr second) [
    | inl e ↦ inl "service-cluster-ip-range[1] is not an ip net"
    | inr net ↦ inr (record { service_ip = ip; primary = range; secondary = some net })
  ]

  unfoldable pub ranges_of_list : List String → String ⊎ Ranges Ip Net
  ranges_of_list [] =
      elim (wrapped "error determining service IP ranges: " (lib.service_ip_range none)) [
        | inl e ↦ inl e
        | inr (range, ip) ↦ inr (record { service_ip = ip; primary = range; secondary = none })
      ]
  ranges_of_list (first ∷ rest) = elim (lib.parse_cidr first) [
    | inl e ↦ inl "service-cluster-ip-range[0] is not a valid cidr"
    | inr cidr ↦
        elim (wrapped "error determining service IP ranges for primary service cidr: "
          (lib.service_ip_range (some cidr))) [
            | inl e ↦ inl e
            | inr found ↦ secondary_range found rest
          ]
  ]

  -- getServiceIPAndRanges
  unfoldable pub get_service_ip_and_ranges : String → String ⊎ Ranges Ip Net
  get_service_ip_and_ranges ranges = ranges_of_list (if ranges == "" then [] else split 44 ranges)
