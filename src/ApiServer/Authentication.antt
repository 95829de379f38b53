-- ===== src/ApiServer/Authentication.antt =====
-- options/authentication.go: the built-in authentication options, their defaults, their validation,
-- the configuration that they become, and what the authorization options change in them.
pub mod Laws
pub mod Config
use Prim.Native.String
use hohapiserver.Base.{
  ℕ, String, ◌==◌, if◌then◌else◌, Bool, true, false, not, ◌&&◌, ◌||◌, ◌⊎◌, inl, inr, Option, none,
  some, List, [], ◌∷◌, ◌++◌, elem, leb,
}
use hohapiserver.ApiServer.Errors.{error_if}
use hohapiserver.ApiServer.Ints.{ℤ, pos, Backoff, no_attempts}
use hohapiserver.ApiServer.Authorization.{Modes, AuthorizationOptions, missing, is_empty}

-- OIDCAuthenticationOptions
pub record Oidc : Type 0 where
  pub ca_file : String
  pub client_id : String
  pub issuer_url : String
  pub username_claim : String
  pub username_prefix : String
  pub groups_claim : String
  pub groups_prefix : String
  pub signing_algs : List String
  pub required_claims : List (String × String)

-- ServiceAccountAuthenticationOptions; durations in nanoseconds.
pub record ServiceAccounts : Type 0 where
  pub key_files : List String
  pub lookup : Bool
  pub issuers : List String
  pub jwks_uri : String
  pub max_expiration : ℤ
  pub extend_expiration : Bool

-- WebHookAuthenticationOptions
pub record WebHook : Type 0 where
  pub config_file : String
  pub version : String
  pub cache_ttl : ℤ
  pub retry_backoff : Option Backoff

-- BuiltInAuthenticationOptions: a nil pointer is `none`, and of a structure with one field the field is
-- held. C and H are the options of genericoptions for client certificates and request headers.
pub record AuthenticationOptions (C H : Type 0) : Type 0 where
  pub api_audiences : List String
  -- Allow
  pub anonymous : Option Bool
  -- Enable
  pub bootstrap_token : Option Bool
  pub client_cert : Option C
  pub oidc : Option Oidc
  pub request_header : Option H
  pub service_accounts : Option ServiceAccounts
  pub token_file : Option String
  pub web_hook : Option WebHook
  pub token_success_cache_ttl : ℤ
  pub token_failure_cache_ttl : ℤ

-- NewBuiltInAuthenticationOptions
abbrev pub new_authentication_options : {C H : Type 0} → AuthenticationOptions C H
new_authentication_options = record {
  api_audiences = [];
  anonymous = none;
  bootstrap_token = none;
  client_cert = none;
  oidc = none;
  request_header = none;
  service_accounts = none;
  token_file = none;
  web_hook = none;
  token_success_cache_ttl = pos 10000000000;
  token_failure_cache_ttl = pos 0;
}

abbrev pub new_oidc : Oidc
new_oidc = record {
  ca_file = "";
  client_id = "";
  issuer_url = "";
  username_claim = "";
  username_prefix = "";
  groups_claim = "";
  groups_prefix = "";
  signing_algs = [];
  required_claims = [];
}

abbrev pub new_service_accounts : ServiceAccounts
new_service_accounts = record {
  key_files = [];
  lookup = true;
  issuers = [];
  jwks_uri = "";
  max_expiration = pos 0;
  extend_expiration = true;
}

-- WithAll, the chain of the eight With functions, over the zero values of C and H and the default backoff.
unfoldable pub with_all :
    {C H : Type 0} → C → H → Backoff → AuthenticationOptions C H → AuthenticationOptions C H
with_all c h backoff o = record o {
  anonymous = some true;
  bootstrap_token = some false;
  client_cert = some c;
  oidc = some new_oidc;
  request_header = some h;
  service_accounts = some new_service_accounts;
  token_file = some "";
  web_hook = some (record {
    config_file = "";
    version = "v1beta1";
    cache_ttl = pos 120000000000;
    retry_backoff = some backoff;
  });
}

pub data AuthenticationError : Type 0 where
  oidc_not_together issuer_required key_file_required jwks_invalid jwks_not_https no_webhook_attempt
        empty_issuer :
      AuthenticationError
  invalid_issuer repeated_issuer : String → AuthenticationError

-- strings.Contains(s, ":")
abbrev pub has_colon : String → Bool
has_colon s = leb (String.find s ":") (String.len s)

-- An exclusive or of two tests, `a != b` on Booleans.
abbrev pub differ : Bool → Bool → Bool
differ true b = not b
differ false b = b

-- url.Parse: the scheme of the URL, or `none` for an error.
abbrev pub ParseUrl : Type 0
ParseUrl = String → Option String

abbrev pub unparsed : Option String → Bool
unparsed none = true
unparsed (some scheme) = false

-- The error for the JWKS URI.
abbrev pub jwks_error : Option String → List AuthenticationError
jwks_error none = jwks_invalid ∷ []
jwks_error (some scheme) = error_if (not (scheme == "https")) jwks_not_https

module _ (parse_url : ParseUrl) where
  -- One round of the loop over the issuers, with the keys of `seen`.
  unfoldable pub issuer_error : String → List String → List AuthenticationError
  issuer_error issuer seen =
      if has_colon issuer && unparsed (parse_url issuer)
      then invalid_issuer issuer ∷ []
      else if issuer == ""
      then empty_issuer ∷ []
      else error_if (elem issuer seen) (repeated_issuer issuer)

  abbrev pub seen_after : List AuthenticationError → String → List String → List String
  seen_after [] issuer seen = issuer ∷ seen
  seen_after (e ∷ es) issuer seen = seen

  unfoldable pub issuer_errors : List String → List String → List AuthenticationError
  issuer_errors [] seen = []
  issuer_errors (issuer ∷ rest) seen =
      issuer_error issuer seen
      ++ issuer_errors rest (seen_after (issuer_error issuer seen) issuer seen)

  unfoldable pub oidc_errors : Option Oidc → List AuthenticationError
  oidc_errors none = []
  oidc_errors (some c) =
      error_if (differ (not (missing c.issuer_url)) (not (missing c.client_id))) oidc_not_together

  unfoldable pub account_errors : Option ServiceAccounts → List AuthenticationError
  account_errors none = []
  account_errors (some a) =
      issuer_errors a.issuers []
      ++ (error_if (is_empty a.issuers) issuer_required
          ++ (error_if (is_empty a.key_files) key_file_required
              ++ (if missing a.jwks_uri then [] else jwks_error (parse_url a.jwks_uri))))

  unfoldable pub web_hook_errors : Option WebHook → List AuthenticationError
  web_hook_errors none = []
  web_hook_errors (some h) = error_if (no_attempts h.retry_backoff) no_webhook_attempt

  unfoldable pub validate_authentication :
      {C H : Type 0} → AuthenticationOptions C H → List AuthenticationError
  validate_authentication o =
      oidc_errors o.oidc ++ (account_errors o.service_accounts ++ web_hook_errors o.web_hook)

-- ApplyAuthorization; a nil pointer of either side is `none`.
unfoldable pub apply_authorization :
    {C H : Type 0}
    → Modes
    → Option AuthorizationOptions
    → AuthenticationOptions C H
    → AuthenticationOptions C H
apply_authorization m none o = o
apply_authorization m (some a) o = elim o.anonymous [
  | none ↦ o
  | some allow ↦
      if allow && elem m.always_allow a.modes then record o { anonymous = some false } else o
]
