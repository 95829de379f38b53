-- ===== src/ApiServer/Authentication/Config.antt =====
-- options/authentication.go: ToAuthenticationConfig and ApplyTo. The certificate and header options of
-- genericoptions, the authenticator and the dialer are of the libraries, and so are parameters.
use hohapiserver.Base.{
  sum_cases, Option-cases, String, ◌≡◌, arith, ◌⊎◌, inl, inr, Bool, true, false, not, ◌&&◌, Option,
  none, some, List, [], ◌∷◌, ◌++◌, if◌then◌else◌,
}
use hohapiserver.ApiServer.Ints.{ℤ, pos, Backoff}
use hohapiserver.ApiServer.Authorization.{is_empty}
use hohapiserver.ApiServer.Authentication.{
  Oidc, ServiceAccounts, WebHook, AuthenticationOptions, new_oidc,
}

-- kubeauthenticator.Config: Ca is a provider of CA content, Hc a configuration of request headers, D a
-- dialer. The OIDC fields are one record.
pub record Config (Ca Hc D : Type 0) : Type 0 where
  pub token_success_cache_ttl : ℤ
  pub token_failure_cache_ttl : ℤ
  pub anonymous : Bool
  pub bootstrap_token : Bool
  pub client_ca : Option Ca
  pub oidc : Oidc
  pub request_header : Option Hc
  pub api_audiences : List String
  pub key_files : List String
  pub issuers : List String
  pub lookup : Bool
  pub token_auth_file : String
  pub webhook_config_file : String
  pub webhook_version : String
  pub webhook_cache_ttl : ℤ
  pub webhook_retry_backoff : Option Backoff
  pub custom_dial : Option D

abbrev or_false : Option Bool → Bool
or_false none = false
or_false (some b) = b

-- A value that is asked of a library when the options are not nil: an error, or nil or a value.
abbrev asked : {A B : Type 0} → (A → String ⊎ Option B) → Option A → String ⊎ Option B
asked f none = inr none
asked f (some a) = f a

abbrev with_accounts :
    {Ca Hc D : Type 0} → List String → Option ServiceAccounts → Config Ca Hc D → Config Ca Hc D
with_accounts audiences none r = r
with_accounts audiences (some a) r = record r {
  api_audiences =
      if not (is_empty a.issuers) && is_empty audiences then a.issuers else r.api_audiences;
  key_files = a.key_files;
  issuers = a.issuers;
  lookup = a.lookup;
}

abbrev with_web_hook : {Ca Hc D : Type 0} → Option WebHook → Config Ca Hc D → Config Ca Hc D
with_web_hook none r = r
with_web_hook (some h) r = record r {
  webhook_config_file = h.config_file;
  webhook_version = h.version;
  webhook_cache_ttl = h.cache_ttl;
  webhook_retry_backoff = h.retry_backoff;
}

-- authInfo, with the CAs that ApplyClientCert was called with, and the two OpenAPI configurations.
pub record Applied (Ca A Defs : Type 0) : Type 0 where
  pub api_audiences : List String
  pub client_cas : List Ca
  pub authenticator : Option A
  pub security_definitions : Option Defs
  pub v3_definitions : Option Defs

module _ {C H Ca Hc D : Type 0} (get_ca : C → String ⊎ Option Ca)
    (get_header : H → String ⊎ Option Hc) where
  -- ToAuthenticationConfig
  unfoldable pub to_authentication_config : AuthenticationOptions C H → String ⊎ Config Ca Hc D
  to_authentication_config o = elim (asked get_ca o.client_cert) [
    | inl e ↦ inl e
    | inr ca ↦ elim (asked get_header o.request_header) [
      | inl e ↦ inl e
      | inr header ↦ inr (
          with_web_hook o.web_hook (
            with_accounts o.api_audiences o.service_accounts (record {
              token_success_cache_ttl = o.token_success_cache_ttl;
              token_failure_cache_ttl = o.token_failure_cache_ttl;
              anonymous = or_false o.anonymous;
              bootstrap_token = or_false o.bootstrap_token;
              client_ca = ca;
              oidc = elim o.oidc [ none ↦ new_oidc | some c ↦ c ];
              request_header = header;
              api_audiences = o.api_audiences;
              key_files = [];
              issuers = [];
              lookup = false;
              token_auth_file = elim o.token_file [ none ↦ "" | some f ↦ f ];
              webhook_config_file = "";
              webhook_version = "";
              webhook_cache_ttl = pos 0;
              webhook_retry_backoff = none;
              custom_dial = none;
            })))
    ]
  ]

-- What ApplyTo calls: the CA of a request header configuration, ApplyClientCert, and New.
pub record Library (Ca Hc D A Defs : Type 0) : Type 0 where
  pub header_ca : Hc → Option Ca
  pub apply_client_cert : Ca → Option String
  pub new_authenticator : Config Ca Hc D → Option A × (Defs × Option String)

module _ {C H Ca Hc D A Defs : Type 0} (get_ca : C → String ⊎ Option Ca)
    (get_header : H → String ⊎ Option Hc) (lib : Library Ca Hc D A Defs) where
  -- `if ca != nil { if err = authInfo.ApplyClientCert(…); err != nil { return err } }`, then the rest.
  apply_ca :
      Option Ca
      → Applied Ca A Defs
      → (Applied Ca A Defs → Option String × Applied Ca A Defs)
      → Option String × Applied Ca A Defs
  apply_ca none info next = next info
  apply_ca (some ca) info next =
      let called = record info { client_cas = info.client_cas ++ ca ∷ [] } in
      elim (lib.apply_client_cert ca) [ some e ↦ (some e, called) | none ↦ next called ]

  -- The call of New, whose three results are assigned before its error is looked at.
  build : Bool → Config Ca Hc D → Applied Ca A Defs → Option String × Applied Ca A Defs
  build has_v3 config info =
      let (made, (definitions, error)) = lib.new_authenticator config in
      (
        error,
        record info {
          authenticator = made;
          security_definitions = some definitions;
          v3_definitions = if has_v3 then some definitions else info.v3_definitions;
        },
      )

  header_ca_of : Option Hc → Option Ca
  header_ca_of none = none
  header_ca_of (some header) = lib.header_ca header

  -- The part of ApplyTo behind the certificates; the egress selector is nil or answers its lookup.
  finish :
      Option (String ⊎ Option D)
      → Bool
      → AuthenticationOptions C H
      → Config Ca Hc D
      → Applied Ca A Defs
      → Option String × Applied Ca A Defs
  finish egress has_v3 o config info = elim egress [
    | none ↦ build has_v3 config chosen
    | some answer ↦ elim answer [
      | inl e ↦ (some e, chosen)
      | inr dial ↦ build has_v3 (record config { custom_dial = dial }) chosen
    ]
  ]
    where
      chosen : Applied Ca A Defs
      chosen = record info {
        api_audiences = elim o.service_accounts [
          | none ↦ o.api_audiences
          | some a ↦
              if not (is_empty a.issuers) && is_empty o.api_audiences
              then a.issuers
              else o.api_audiences
        ];
      }

  -- ApplyTo, with a nil receiver as `none`; the Booleans tell whether the two OpenAPI configurations are
  -- there.
  unfoldable pub apply_authentication :
      Option (AuthenticationOptions C H)
      → Bool
      → Bool
      → Option (String ⊎ Option D)
      → Applied Ca A Defs
      → Option String × Applied Ca A Defs
  unfolding apply_ca build header_ca_of finish
  apply_authentication none has_open_api has_v3 egress info = (none, info)
  apply_authentication (some o) has_open_api has_v3 egress info =
      if not has_open_api
      then (some "uninitialized OpenAPIConfig", info)
      else elim (to_authentication_config get_ca get_header o) [
        | inl e ↦ (some e, info)
        | inr config ↦ apply_ca config.client_ca info (λ info'.
            apply_ca (header_ca_of config.request_header) info'
              (λ info''. finish egress has_v3 o config info''))
      ]

-- The audiences that are meant: the given ones, or else the issuers of the service accounts.
abbrev pub intended_audiences : {C H : Type 0} → AuthenticationOptions C H → List String
intended_audiences o = elim o.api_audiences [
  | x ∷ xs ↦ x ∷ xs
  | [] ↦ elim o.service_accounts [ none ↦ [] | some a ↦ a.issuers ]
]

to_authentication_config-audiences :
    {C H Ca Hc D : Type 0} (get_ca : C → String ⊎ Option Ca) (get_header : H → String ⊎ Option Hc)
    (o : AuthenticationOptions C H) (config : Config Ca Hc D)
    → to_authentication_config get_ca get_header o ≡ inr config
    → config.api_audiences ≡ intended_audiences o
unfolding to_authentication_config
to_authentication_config-audiences get_ca get_header o config h = ground arith

-- Where the authentication is applied without an error, the authenticator is what New makes of a configuration
-- with the same audiences as the server's: the given ones, or else all issuers of the service accounts. The help
-- of --api-audiences says a single element instead, with the issuer URL.
pub apply_authentication-audiences :
    {C H Ca Hc D A Defs : Type 0} (get_ca : C → String ⊎ Option Ca)
    (get_header : H → String ⊎ Option Hc) (lib : Library Ca Hc D A Defs)
    (o : AuthenticationOptions C H) (has_v3 : Bool) (egress : Option (String ⊎ Option D))
    (info info' : Applied Ca A Defs)
    → apply_authentication get_ca get_header lib (some o) true has_v3 egress info ≡ (none, info')
    → (config : Config Ca Hc D) × (info'.authenticator ≡ (lib.new_authenticator config).0)
      × (config.api_audiences ≡ intended_audiences o)
      × (info'.api_audiences ≡ intended_audiences o)
unfolding apply_authentication
apply_authentication-audiences {D = D} get_ca get_header lib o has_v3 egress info info' h =
    elim (sum_cases (to_authentication_config {D = D} get_ca get_header o)) [
      | inl (e, q) ↦ ground (arith, h, q)
      | inr (config, q) ↦
          let audiences = to_authentication_config-audiences get_ca get_header o config q in
          elim (Option-cases egress) [
            | inl nil ↦ (config, ground (arith, h, q, nil), audiences, ground (arith, h, q, nil))
            | inr (answer, given) ↦ elim (sum_cases answer) [
              | inl (e, r) ↦ ground (arith, h, q, given, r)
              | inr (dial, r) ↦ (
                record config { custom_dial = dial },
                ground (arith, h, q, given, r),
                audiences,
                ground (arith, h, q, given, r),
              )
            ]
          ]
    ]
