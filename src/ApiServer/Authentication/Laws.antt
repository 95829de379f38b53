-- ===== src/ApiServer/Authentication/Laws.antt =====
-- options/authentication.go: which authentication options are valid, and that anonymous requests are off
-- where every request is allowed.
use mathlib.Core.Path.{subst}
use hohapiserver.Base.{
  String, eq_iff, arith, ◌≡◌, refl, sym, ◌∙◌, ◌≢◌, ◌↔◌, ◌⊎◌, inl, inr, true, false, Option, none,
  some, List, [], ◌∷◌, elem, All, Bool-cases,
}
use hohapiserver.ApiServer.Errors.{error_if, error_if-nil_iff, append-nil_iff}
use hohapiserver.Base.{if◌then◌else◌}
use hohapiserver.ApiServer.Sets.{distinct}
use hohapiserver.ApiServer.Ints.{no_attempts}
use hohapiserver.ApiServer.Authorization.{Modes, AuthorizationOptions, missing, is_empty}
use hohapiserver.ApiServer.Authorization.Laws.{is_empty_iff}
use hohapiserver.ApiServer.Authentication.{
  Oidc, ServiceAccounts, WebHook, AuthenticationOptions, has_colon, ParseUrl, unparsed,
  issuer_error, issuer_errors, issuer_required, key_file_required, oidc_errors, account_errors,
  web_hook_errors, validate_authentication, jwks_error, apply_authorization,
}

-- None of the names is among those seen.
abbrev Fresh : List String → List String → Type 0
Fresh seen names = All (λ i. elem i seen ≡ false) names

Fresh-cons :
    (i : String) (seen names : List String)
    → Fresh (i ∷ seen) names ↔ (Fresh seen names × (elem i names ≡ false))
unfolding elem
Fresh-cons i seen [] = (λ h. (tt, refl), λ h. tt)
Fresh-cons i seen (n ∷ ns) = (
  λ (a, b). (
    (ground arith, ((Fresh-cons i seen ns).0 b).0),
    ground (arith, eq_iff i n, eq_iff n i, ((Fresh-cons i seen ns).0 b).1),
  ),
  λ ((a, b), c).
      (ground (arith, eq_iff i n, eq_iff n i), (Fresh-cons i seen ns).1 (b, ground arith)),
)

Fresh-nil : (names : List String) → Fresh [] names
unfolding elem
Fresh-nil [] = tt
Fresh-nil (n ∷ ns) = (refl, Fresh-nil ns)

module _ (parse_url : ParseUrl) where
  -- A name of an issuer that is not empty, and a URL if it has a colon.
  abbrev pub GoodIssuer : String → Type 0
  GoodIssuer i = (i ≢ "") × ((has_colon i ≡ false) ⊎ (unparsed (parse_url i) ≡ false))

  issuer_error_iff :
      (i : String) (seen : List String)
      → (issuer_error parse_url i seen ≡ []) ↔ (GoodIssuer i × (elem i seen ≡ false))
  unfolding issuer_error
  issuer_error_iff i seen = ground (arith, eq_iff i "")

  issuer_errors-accepted :
      (i : String) (rest seen : List String)
      → issuer_error parse_url i seen ≡ []
      → issuer_errors parse_url (i ∷ rest) seen ≡ issuer_errors parse_url rest (i ∷ seen)
  unfolding issuer_errors
  issuer_errors-accepted i rest seen h = rw h

  issuer_errors-nil : (seen : List String) → issuer_errors parse_url [] seen ≡ []
  unfolding issuer_errors
  issuer_errors-nil seen = refl

  issuer_errors-first :
      (i : String) (rest seen : List String)
      → issuer_errors parse_url (i ∷ rest) seen ≡ []
      → issuer_error parse_url i seen ≡ []
  unfolding issuer_errors
  issuer_errors-first i rest seen h = ((append-nil_iff (issuer_error parse_url i seen) _).0 h).0

  issuer_errors_iff :
      (names seen : List String)
      → (issuer_errors parse_url names seen ≡ [])
        ↔ (All GoodIssuer names × (distinct names ≡ true) × Fresh seen names)
  unfolding distinct
  issuer_errors_iff [] seen = (λ h. (tt, refl, tt), λ h. issuer_errors-nil seen)
  issuer_errors_iff (i ∷ rest) seen = (
    λ h.
        let one = issuer_errors-first i rest seen h in
        let (g, f) = (issuer_error_iff i seen).0 one in
        let (gs, d, fs) =
          (issuer_errors_iff rest (i ∷ seen)).0
            (sym (issuer_errors-accepted i rest seen one) ∙ h) in
        let (fr, e) = (Fresh-cons i seen rest).0 fs in ((g, gs), ground arith, (f, fr)),
    λ ((g, gs), d, (f, fr)).
        let one = (issuer_error_iff i seen).1 (g, f) in
        issuer_errors-accepted i rest seen one
        ∙ (issuer_errors_iff rest (i ∷ seen)).1
            (gs, ground arith, (Fresh-cons i seen rest).1 (fr, ground arith)),
  )

  -- An OpenID client and its issuer are given together or not at all.
  abbrev pub GoodOidc : Option Oidc → Type 0
  GoodOidc none = Unit
  GoodOidc (some c) =
      ((c.issuer_url ≡ "") × (c.client_id ≡ "")) ⊎ ((c.issuer_url ≢ "") × (c.client_id ≢ ""))

  -- There are issuers, each good and none twice, and key files, and a JWKS URI is an https URL.
  abbrev pub GoodAccounts : Option ServiceAccounts → Type 0
  GoodAccounts none = Unit
  GoodAccounts (some a) =
      (All GoodIssuer a.issuers × (distinct a.issuers ≡ true))
      × (a.issuers ≢ [])
      × (a.key_files ≢ [])
      × ((a.jwks_uri ≡ "") ⊎ (parse_url a.jwks_uri ≡ some "https"))

  abbrev pub GoodWebHook : Option WebHook → Type 0
  GoodWebHook none = Unit
  GoodWebHook (some h) = no_attempts h.retry_backoff ≡ false

  oidc_errors_iff : (o : Option Oidc) → (oidc_errors parse_url o ≡ []) ↔ GoodOidc o
  unfolding oidc_errors
  oidc_errors_iff none = (λ h. tt, λ h. refl)
  oidc_errors_iff (some c) = ground (arith, eq_iff c.issuer_url "", eq_iff c.client_id "")

  jwks_iff :
      (uri : String)
      → ((if missing uri then [] else jwks_error (parse_url uri)) ≡ [])
        ↔ ((uri ≡ "") ⊎ (parse_url uri ≡ some "https"))
  jwks_iff uri = go (parse_url uri)
    where
      go :
          (p : Option String)
          → ((if missing uri then [] else jwks_error p) ≡ []) ↔ ((uri ≡ "") ⊎ (p ≡ some "https"))
      go none = ground (arith, eq_iff uri "")
      go (some scheme) = ground (arith, eq_iff uri "", eq_iff scheme "https")

  account_errors_iff :
      (o : Option ServiceAccounts) → (account_errors parse_url o ≡ []) ↔ GoodAccounts o
  unfolding account_errors
  account_errors_iff none = (λ h. tt, λ h. refl)
  account_errors_iff (some a) = (
    λ h.
        let (h1, r1) = (append-nil_iff (issuer_errors parse_url a.issuers []) _).0 h in
        let (h2, r2) = (append-nil_iff (error_if (is_empty a.issuers) issuer_required) _).0 r1 in
        let (h3, h4) =
          (append-nil_iff (error_if (is_empty a.key_files) key_file_required) _).0 r2 in
        let (g, d, f) = (issuer_errors_iff a.issuers []).0 h1 in
        (
          (g, d),
          (is_empty_iff a.issuers).0 ((error_if-nil_iff (is_empty a.issuers) issuer_required).0 h2),
          (is_empty_iff a.key_files).0
              ((error_if-nil_iff (is_empty a.key_files) key_file_required).0 h3),
          (jwks_iff a.jwks_uri).0 h4,
        ),
    λ ((g, d), i, k, j). (append-nil_iff (issuer_errors parse_url a.issuers []) _).1 (
      (issuer_errors_iff a.issuers []).1 (g, d, Fresh-nil a.issuers),
      (append-nil_iff (error_if (is_empty a.issuers) issuer_required) _).1 (
        (error_if-nil_iff (is_empty a.issuers) issuer_required).1 ((is_empty_iff a.issuers).1 i),
        (append-nil_iff (error_if (is_empty a.key_files) key_file_required) _).1 (
          (error_if-nil_iff (is_empty a.key_files) key_file_required).1
              ((is_empty_iff a.key_files).1 k),
          (jwks_iff a.jwks_uri).1 j,
        ),
      ),
    ),
  )

  web_hook_errors_iff : (o : Option WebHook) → (web_hook_errors parse_url o ≡ []) ↔ GoodWebHook o
  unfolding web_hook_errors
  web_hook_errors_iff none = (λ h. tt, λ h. refl)
  web_hook_errors_iff (some h) = ground arith

  -- The validation reports nothing exactly when the OpenID client and issuer are given together, the
  -- service accounts have key files and issuers, all of them good and none twice, an https JWKS URI if
  -- any, and the webhook makes an attempt. Parts whose options are nil are not looked at.
  pub validate_authentication_iff :
      {C H : Type 0} (o : AuthenticationOptions C H)
      → (validate_authentication parse_url o ≡ [])
        ↔ (GoodOidc o.oidc × GoodAccounts o.service_accounts × GoodWebHook o.web_hook)
  unfolding validate_authentication
  validate_authentication_iff o = (
    λ h.
        let (h1, r1) = (append-nil_iff (oidc_errors parse_url o.oidc) _).0 h in
        let (h2, h3) = (append-nil_iff (account_errors parse_url o.service_accounts) _).0 r1 in
        (
          (oidc_errors_iff o.oidc).0 h1,
          (account_errors_iff o.service_accounts).0 h2,
          (web_hook_errors_iff o.web_hook).0 h3,
        ),
    λ (a, b, c). (append-nil_iff (oidc_errors parse_url o.oidc) _).1 (
      (oidc_errors_iff o.oidc).1 a,
      (append-nil_iff (account_errors parse_url o.service_accounts) _).1
          ((account_errors_iff o.service_accounts).1 b, (web_hook_errors_iff o.web_hook).1 c),
    ),
  )

pub issuers_of_valid :
    {C H : Type 0} (parse_url : ParseUrl) (o : AuthenticationOptions C H) (a : ServiceAccounts)
    → o.service_accounts ≡ some a
    → validate_authentication parse_url o ≡ []
    → a.issuers ≢ []
issuers_of_valid parse_url o a has valid =
    let (_, accounts, _) = (validate_authentication_iff parse_url o).0 valid in
    (subst (GoodAccounts parse_url) has accounts).1

-- Where the authorization allows every request, anonymous requests are off afterwards; in any other case
-- the options are as they were.
pub apply_authorization-safe :
    {C H : Type 0} (m : Modes) (a : AuthorizationOptions) (o : AuthenticationOptions C H)
    → let o' = apply_authorization m (some a) o in
      ((elem m.always_allow a.modes ≡ true)
        × (o'.anonymous ≢ some true)
        × (o' ≡ record o { anonymous = o'.anonymous }))
      ⊎ ((elem m.always_allow a.modes ≡ false) × (o' ≡ o))
unfolding apply_authorization
apply_authorization-safe m a o = elim (Bool-cases (elem m.always_allow a.modes)) [
  | inl all ↦ inl (all, ground arith, ground arith)
  | inr e ↦ inr (e, ground arith)
]
