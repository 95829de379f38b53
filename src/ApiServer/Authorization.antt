-- ===== src/ApiServer/Authorization.antt =====
-- options/authorization.go: the authorization modes with their defaults and validation.
pub mod Laws
use hohapiserver.Base.{
  ℕ, String, ◌==◌, if◌then◌else◌, Bool, true, false, not, ◌&&◌, Option, none, some, List, [], ◌∷◌,
  ◌++◌, length, elem, leb,
}
use hohapiserver.ApiServer.Errors.{error_if}
use hohapiserver.ApiServer.Sets.{set_of}
use hohapiserver.ApiServer.Ints.{ℤ, pos, Backoff, no_attempts}

-- The names of package authzmodes and its IsValidAuthorizationMode.
pub record Modes : Type 0 where
  pub always_allow : String
  pub abac : String
  pub webhook : String
  pub is_valid : String → Bool

-- BuiltInAuthorizationOptions; durations in nanoseconds.
pub record AuthorizationOptions : Type 0 where
  pub modes : List String
  pub policy_file : String
  pub webhook_config_file : String
  pub webhook_version : String
  pub webhook_cache_authorized_ttl : ℤ
  pub webhook_cache_unauthorized_ttl : ℤ
  pub webhook_retry_backoff : Option Backoff

-- NewBuiltInAuthorizationOptions, over the default backoff of package genericoptions.
abbrev pub new_authorization_options : Modes → Backoff → AuthorizationOptions
new_authorization_options m backoff = record {
  modes = m.always_allow ∷ [];
  policy_file = "";
  webhook_config_file = "";
  webhook_version = "v1beta1";
  webhook_cache_authorized_ttl = pos 300000000000;
  webhook_cache_unauthorized_ttl = pos 30000000000;
  webhook_retry_backoff = some backoff;
}

pub data ModeError : Type 0 where
  no_mode no_policy_file no_webhook_file policy_without_abac config_without_webhook : ModeError
  mode_repeated no_retry : ModeError
  invalid_mode : String → ModeError

-- The test `s == ""`.
abbrev pub missing : String → Bool
missing s = s == ""

abbrev pub is_empty {ℓ} : {A : Type ℓ} → List A → Bool
is_empty [] = true
is_empty (x ∷ xs) = false

-- n == m on lengths.
abbrev pub same_length : ℕ → ℕ → Bool
same_length n m = leb n m && leb m n

module _ (m : Modes) where
  -- The body of the loop over the modes.
  unfoldable pub mode_errors : AuthorizationOptions → String → List ModeError
  mode_errors o mode =
      error_if (not (m.is_valid mode)) (invalid_mode mode)
      ++ (error_if (mode == m.abac && missing o.policy_file) no_policy_file
          ++ error_if (mode == m.webhook && missing o.webhook_config_file) no_webhook_file)

  unfoldable pub all_mode_errors : AuthorizationOptions → List String → List ModeError
  all_mode_errors o [] = []
  all_mode_errors o (mode ∷ rest) = mode_errors o mode ++ all_mode_errors o rest

  -- Validate, with the receiver nil as `none`.
  unfoldable pub validate_authorization : Option AuthorizationOptions → List ModeError
  validate_authorization none = []
  validate_authorization (some o) =
      error_if (is_empty o.modes) no_mode
      ++ (all_mode_errors o o.modes
          ++ (error_if (not (missing o.policy_file) && not (elem m.abac (set_of o.modes)))
                policy_without_abac
              ++ (error_if
                    (not (missing o.webhook_config_file) && not (elem m.webhook (set_of o.modes)))
                    config_without_webhook
                  ++ (error_if (not (same_length (length o.modes) (length (set_of o.modes))))
                        mode_repeated
                      ++ error_if (no_attempts o.webhook_retry_backoff) no_retry))))
