-- ===== src/ApiServer/Server/Samples.antt =====
-- Options of the API server, and the calls that complete them, for the tests.
use hohapiserver.Base.{String, ◌==◌, true, false, none, some, inl, inr, List, [], ◌∷◌, elem}
use hohapiserver.ApiServer.Ints.{pos, Backoff}
use hohapiserver.ApiServer.WatchCache.{Resources, Sizes}
use hohapiserver.ApiServer.Authorization.{Modes, new_authorization_options}
use hohapiserver.ApiServer.Authentication.{
  ServiceAccounts, new_authentication_options, new_service_accounts, with_all,
}
use hohapiserver.ApiServer.Etcd.{new_embedded_etcd}
use hohapiserver.ApiServer.Server.{ServerOptions, Completing}

abbrev pub texts : Resources String
texts = record { same = λ a b. a == b; text = λ r. r; parse = λ s. s }

abbrev pub default_sizes : Sizes String
default_sizes = ("events", pos 0) ∷ ("pods", pos 1000) ∷ []

abbrev pub three_modes : Modes
three_modes = record {
  always_allow = "AlwaysAllow";
  abac = "ABAC";
  webhook = "Webhook";
  is_valid = λ mode. elem mode ("AlwaysAllow" ∷ "ABAC" ∷ "Webhook" ∷ []);
}

abbrev pub retries : Backoff
retries = record { steps = pos 5 }

abbrev pub completing : Completing String String String String String
completing = record {
  modes = three_modes;
  resources = texts;
  default_watch_cache_sizes = default_sizes;
  sizes_in_order = λ sizes. sizes;
  default_advertise_address = λ ip. inr (some "10.1.1.1");
  service_ip_range = λ net. inr ("10.0.0.0/24", "10.0.0.1");
  parse_cidr = λ s. inr s;
  self_signed = λ advertise service file. inr "apiserver.key";
  ip_text = λ ip. ip;
  hostname = inl "no host name";
  is_valid_key_file = λ file. true;
  private_key_from_file = λ file. inr file;
  jwt_token_generator = λ issuer key. inr issuer;
}

abbrev pub Opts : Type 0
Opts = ServerOptions (Unit {0}) (Unit {0}) String String String

abbrev pub by_default : Opts
by_default = record {
  advertise_address = none;
  external_host = "";
  service_cluster_ip_ranges = "";
  api_server_service_ip = none;
  primary_service_cluster_ip_range = none;
  secondary_service_cluster_ip_range = none;
  server_key_file = "";
  authentication = with_all tt tt retries new_authentication_options;
  authorization = some (new_authorization_options three_modes retries);
  service_account_signing_key_file = "";
  service_account_issuer = none;
  service_account_token_max_expiration = pos 0;
  enable_watch_cache = false;
  watch_cache_sizes = [];
  runtime_config = [];
  embedded_etcd = some new_embedded_etcd;
  transport = record { server_list = []; key_file = ""; cert_file = ""; trusted_ca_file = "" };
  requests = record {
    max_requests_in_flight = pos 400;
    max_mutating_requests_in_flight = pos 200;
    request_timeout = pos 60000000000;
    enable_priority_and_fairness = true;
  };
  enable_aggregator_routing = false;
  client_key_file = "ca.key";
}

abbrev pub with_issuer : ServiceAccounts
with_issuer = record new_service_accounts {
  issuers = "https://hub.example.com" ∷ [];
  key_files = "sa.pub" ∷ [];
}

abbrev pub signing : Opts
signing = record by_default {
  authentication = record new_authentication_options { service_accounts = some with_issuer };
  service_account_signing_key_file = "sa.key";
}

abbrev pub no_order : List (String × String) → List (String × String)
no_order l = l
