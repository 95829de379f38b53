-- ===== src/ApiServer/Options.antt =====
-- options/options.go: NewServerRunOptions and Validate, over the parts that options/authentication.go,
-- authorization.go, embeddedetcd.go, admission.go and serving.go give.
pub mod Laws
use Prim.Native.String
use hohapiserver.Base.{
  String, Bool, true, false, Option, none, some, List, [], ◌∷◌, ◌++◌, is_some, map,
}
use hohapiserver.ApiServer.Ints.{pos, Backoff}
use hohapiserver.ApiServer.Authorization.{
  Modes, ModeError, new_authorization_options, validate_authorization,
}
use hohapiserver.ApiServer.Authentication.{
  AuthenticationError, ParseUrl, new_authentication_options, validate_authentication, with_all,
}
use hohapiserver.ApiServer.Etcd.{
  EmbeddedEtcd, EtcdError, TokenError, new_embedded_etcd, validate_etcd, validate_token_request,
}
use hohapiserver.ApiServer.Server.{RequestOptions, ServerOptions, Transport}

-- What the constructors of package genericoptions and NewDefaultConfig give.
pub record LibraryDefaults (C H Ip : Type 0) : Type 0 where
  pub modes : Modes
  pub backoff : Backoff
  pub client_cert : C
  pub request_header : H
  pub advertise_address : Option Ip
  pub external_host : String
  pub requests : RequestOptions
  pub enable_watch_cache : Bool
  pub watch_cache_sizes : List String
  pub transport : Transport
  pub runtime_config : List (String × String)

-- NewServerRunOptions
unfoldable pub new_server_run_options :
    {C H Ip Net Issuer : Type 0} → LibraryDefaults C H Ip → ServerOptions C H Ip Net Issuer
new_server_run_options d = record {
  advertise_address = d.advertise_address;
  external_host = d.external_host;
  service_cluster_ip_ranges = "";
  api_server_service_ip = none;
  primary_service_cluster_ip_range = none;
  secondary_service_cluster_ip_range = none;
  server_key_file = "";
  authentication = with_all d.client_cert d.request_header d.backoff new_authentication_options;
  authorization = some (new_authorization_options d.modes d.backoff);
  service_account_signing_key_file = "";
  service_account_issuer = none;
  service_account_token_max_expiration = pos 0;
  enable_watch_cache = d.enable_watch_cache;
  watch_cache_sizes = d.watch_cache_sizes;
  runtime_config = d.runtime_config;
  embedded_etcd = some new_embedded_etcd;
  transport = d.transport;
  requests = d.requests;
  enable_aggregator_routing = false;
  client_key_file = "";
}

-- What the validations of the libraries report on their own options.
pub record Reports : Type 0 where
  pub etcd : List String
  pub secure_serving : List String
  pub audit : List String
  pub admission : List String
  pub api_enablement : List String
  pub metrics : List String

pub data ServerOptionsError : Type 0 where
  library_error : String → ServerOptionsError
  authentication_error : AuthenticationError → ServerOptionsError
  authorization_error : ModeError → ServerOptionsError
  token_error : TokenError → ServerOptionsError
  embedded_etcd_error : EtcdError → ServerOptionsError

-- The errors in the order in which they are appended.
abbrev pub all_errors :
    {C H Ip Net Issuer : Type 0}
    → ParseUrl
    → Modes
    → Reports
    → ServerOptions C H Ip Net Issuer
    → List TokenError
    → EmbeddedEtcd
    → List ServerOptionsError
all_errors parse_url modes r s token e =
    map library_error r.etcd
    ++ (map library_error r.secure_serving
        ++ (map authentication_error (validate_authentication parse_url s.authentication)
            ++ (map authorization_error (validate_authorization modes s.authorization)
                ++ (map library_error r.audit
                    ++ (map library_error r.admission
                        ++ (map library_error r.api_enablement
                            ++ (map token_error token
                                ++ (map library_error r.metrics
                                    ++ map embedded_etcd_error (validate_etcd e)))))))))

-- Validate, where an empty list is the nil error; `none` is a panic, at nil service accounts without a key
-- file and at nil options of the embedded etcd.
unfoldable pub validate_options :
    {C H Ip Net Issuer : Type 0}
    → ParseUrl
    → Modes
    → Reports
    → ServerOptions C H Ip Net Issuer
    → Option (List ServerOptionsError)
validate_options parse_url modes r s =
    elim (validate_token_request s.service_account_signing_key_file s.authentication
      (is_some s.service_account_issuer)) [
        | none ↦ none
        | some token ↦ elim s.embedded_etcd [
          | none ↦ none
          | some e ↦ some (all_errors parse_url modes r s token e)
        ]
      ]
