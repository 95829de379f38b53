-- ===== src/ApiServer/Tests.antt =====
-- The options of the API server and the aggregator at concrete values.
use hohapiserver.Base.{◌≡◌, refl, ◌≢◌, ◌↔◌, true, none, some, List, [], ◌∷◌, elem, All, map}
use hohapiserver.ApiServer.Ints.{pos, Backoff}
use hohapiserver.ApiServer.Authorization.{
  Modes, AuthorizationOptions, new_authorization_options, validate_authorization,
}
use hohapiserver.ApiServer.Authorization.Laws.{Authorized, validate_authorization_iff}
use hohapiserver.ApiServer.Authentication.{
  AuthenticationOptions, new_authentication_options, with_all, validate_authentication, oidc_errors,
  account_errors, issuer_errors, web_hook_errors, issuer_required, key_file_required, ParseUrl,
}
use hohapiserver.ApiServer.Authentication.Laws.{
  GoodOidc, GoodAccounts, GoodWebHook, validate_authentication_iff,
}
use hohapiserver.Base.{String, Option, ◌⊎◌, inr}
use hohapiserver.ApiServer.Authentication.{new_service_accounts}
use hohapiserver.ApiServer.Authentication.Config.{
  Config, Applied, Library, to_authentication_config, apply_authentication, intended_audiences,
  apply_authentication-audiences,
}
use hohapiserver.ApiServer.Aggregator.{
  ApiService, Change, make_api_service, priority_of, split_slash, service_of_tokens,
  service_of_path, api_services_to_register, available_health_check,
}
use hohapiserver.ApiServer.Aggregator.Laws.{seen_available, available_health_check_iff}

abbrev some_modes : Modes
some_modes = record {
  always_allow = "AlwaysAllow";
  abac = "ABAC";
  webhook = "Webhook";
  is_valid = λ mode. elem mode ("AlwaysAllow" ∷ "ABAC" ∷ "Webhook" ∷ []);
}

abbrev five_attempts : Backoff
five_attempts = record { steps = pos 5 }

abbrev default_authorization : AuthorizationOptions
default_authorization = new_authorization_options some_modes five_attempts

abbrev parse : ParseUrl
parse s = some "https"

abbrev default_authentication : AuthenticationOptions (Unit {0}) (Unit {0})
default_authentication = with_all tt tt five_attempts new_authentication_options

-- The defaults lack what the flags must give.
defaults_lack :
    validate_authentication parse default_authentication ≡ issuer_required ∷ key_file_required ∷ []
unfolding with_all validate_authentication oidc_errors account_errors issuer_errors web_hook_errors
defaults_lack = refl

validate_authorization_iff_example :
    (validate_authorization some_modes (some default_authorization) ≡ [])
    ↔ Authorized some_modes default_authorization
validate_authorization_iff_example = validate_authorization_iff some_modes default_authorization

validate_authentication_iff_example :
    (validate_authentication parse default_authentication ≡ []) ↔ (
      GoodOidc parse default_authentication.oidc
      × GoodAccounts parse default_authentication.service_accounts
      × GoodWebHook parse default_authentication.web_hook)
validate_authentication_iff_example = validate_authentication_iff parse default_authentication

abbrev listed_paths : List String
listed_paths = "/api/v1" ∷ "/healthz" ∷ "/apis/events.k8s.io/v1" ∷ "/apis/example.com/v1" ∷ []

abbrev changes : List Change
changes = record { service = "v1."; available = true } ∷ []

two_registered :
    (api_services_to_register listed_paths).services
    ≡ make_api_service (record { group = ""; version = "v1" })
      ∷ make_api_service (record { group = "events.k8s.io"; version = "v1" })
      ∷ []
unfolding api_services_to_register service_of_path service_of_tokens split_slash make_api_service
    priority_of
two_registered = refl

available_health_check_iff_example :
    (l : List ApiService) × ((api_services_to_register listed_paths).services ≡ map some l)
    × ((available_health_check (api_services_to_register listed_paths).services changes ≡ some none)
        ↔ All (λ s. seen_available s.name changes ≡ true) l)
    × (available_health_check (api_services_to_register listed_paths).services changes ≢ none)
available_health_check_iff_example = available_health_check_iff listed_paths changes

abbrev with_issuer : AuthenticationOptions (Unit {0}) (Unit {0})
with_issuer = record default_authentication {
  service_accounts = some (record new_service_accounts { issuers = "https://hub" ∷ [] });
}

abbrev no_value : Unit {0} → String ⊎ Option String
no_value u = inr none

abbrev library : Library String String String String String
library = record {
  header_ca = λ header. none;
  apply_client_cert = λ ca. none;
  new_authenticator = λ config. (some "authenticator", ("definitions", none));
}

abbrev before : Applied String String String
before = record {
  api_audiences = [];
  client_cas = [];
  authenticator = none;
  security_definitions = none;
  v3_definitions = none;
}

abbrev after : Applied String String String
after = record {
  api_audiences = "https://hub" ∷ [];
  client_cas = [];
  authenticator = some "authenticator";
  security_definitions = some "definitions";
  v3_definitions = some "definitions";
}

applied :
    apply_authentication no_value no_value library (some with_issuer) true true none before
    ≡ (none, after)
unfolding apply_authentication to_authentication_config with_all
applied = refl

apply_authentication-audiences_example :
    (config : Config String String String) × (after.authenticator
      ≡ (library.new_authenticator config).0)
    × (config.api_audiences ≡ intended_audiences with_issuer)
    × (after.api_audiences ≡ intended_audiences with_issuer)
apply_authentication-audiences_example =
    apply_authentication-audiences no_value no_value library with_issuer true none before after
      applied
