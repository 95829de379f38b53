-- ===== src/ApiServer/Options/Laws.antt =====
-- options.go: what Validate accepts.
use hohapiserver.Base.{◌≡◌, refl, ap, ◌↔◌, Option, none, some, List, [], ◌∷◌, ◌++◌, is_some, map}
use hohapiserver.ApiServer.Errors.{append-nil_iff}
use hohapiserver.ApiServer.Authorization.{Modes, validate_authorization}
use hohapiserver.ApiServer.Authentication.{ParseUrl, validate_authentication}
use hohapiserver.ApiServer.Etcd.{EmbeddedEtcd, TokenError, validate_etcd, validate_token_request}
use hohapiserver.ApiServer.Server.{ServerOptions}
use hohapiserver.ApiServer.Options.{
  Reports, ServerOptionsError, library_error, authentication_error, authorization_error,
  token_error, embedded_etcd_error, all_errors, validate_options,
}

map-nil_iff : {A B : Type 0} (f : A → B) (xs : List A) → (map f xs ≡ []) ↔ (xs ≡ [])
map-nil_iff f [] = (λ h. refl, λ h. refl)
map-nil_iff f (x ∷ xs) = (λ h. cc, λ h. cc)

some_injective : {A : Type 0} {a b : A} → some a ≡ some b → a ≡ b
some_injective h = cc

-- A list of errors in front of others.
joined_iff :
    {A B : Type 0} {X : Type 0} (f : A → B) (xs : List A) (ys : List B)
    → (ys ≡ []) ↔ X
    → (map f xs ++ ys ≡ []) ↔ ((xs ≡ []) × X)
joined_iff f xs ys rest = (
  λ h. let (a, b) = (append-nil_iff (map f xs) ys).0 h in ((map-nil_iff f xs).0 a, rest.0 b),
  λ (a, b). (append-nil_iff (map f xs) ys).1 ((map-nil_iff f xs).1 a, rest.1 b),
)

module _ {C H Ip Net Issuer : Type 0} where
  -- Each part is without an error; `Token` says so of validateTokenRequest.
  abbrev pub Accepted :
      ParseUrl → Modes → Reports → ServerOptions C H Ip Net Issuer → EmbeddedEtcd → Type 0 → Type 0
  Accepted parse_url modes r s e Token =
      (r.etcd ≡ [])
      × ((r.secure_serving ≡ [])
          × ((validate_authentication parse_url s.authentication ≡ [])
              × ((validate_authorization modes s.authorization ≡ [])
                  × ((r.audit ≡ [])
                      × ((r.admission ≡ [])
                          × ((r.api_enablement ≡ [])
                              × (Token × ((r.metrics ≡ []) × ((validate_etcd e ≡ []))))))))))

  all_errors_iff :
      (parse_url : ParseUrl) (modes : Modes) (r : Reports) (s : ServerOptions C H Ip Net Issuer)
      (e : EmbeddedEtcd) (token : List TokenError)
      → (all_errors parse_url modes r s token e ≡ []) ↔ Accepted parse_url modes r s e (token ≡ [])
  all_errors_iff parse_url modes r s e token = joined_iff library_error r.etcd _ (
      joined_iff library_error r.secure_serving _ (
        joined_iff authentication_error (validate_authentication parse_url s.authentication) _ (
          joined_iff authorization_error (validate_authorization modes s.authorization) _ (
            joined_iff library_error r.audit _ (
              joined_iff library_error r.admission _ (
                joined_iff library_error r.api_enablement _ (
                  joined_iff token_error token _ (
                    joined_iff library_error r.metrics _
                      (map-nil_iff embedded_etcd_error (validate_etcd e))))))))))

  with_token :
      (parse_url : ParseUrl) (modes : Modes) (r : Reports) (s : ServerOptions C H Ip Net Issuer)
      (e : EmbeddedEtcd) {T U : Type 0}
      → (T → U)
      → Accepted parse_url modes r s e T
      → Accepted parse_url modes r s e U
  with_token parse_url modes r s e' f (a, (b, (c, (d, (e, (g, (h, (token, rest)))))))) =
      (a, (b, (c, (d, (e, (g, (h, (f token, rest))))))))

  -- Validate accepts exactly the options of which each part is without an error.
  pub validate_options_iff :
      (parse_url : ParseUrl) (modes : Modes) (r : Reports) (s : ServerOptions C H Ip Net Issuer)
      (e : EmbeddedEtcd)
      → s.embedded_etcd ≡ some e
      → (validate_options parse_url modes r s ≡ some [])
        ↔ Accepted parse_url modes r s e (
            validate_token_request s.service_account_signing_key_file s.authentication
              (is_some s.service_account_issuer)
            ≡ some [])
  unfolding validate_options
  validate_options_iff parse_url modes r s e given = rw given (
      by_token (
        validate_token_request s.service_account_signing_key_file s.authentication
          (is_some s.service_account_issuer)))
    where
      by_token :
          (t : Option (List TokenError))
          → (elim t as (λ _. Option (List ServerOptionsError)) [
            | none ↦ none
            | some token ↦ some (all_errors parse_url modes r s token e)
          ]
              ≡ some [])
            ↔ Accepted parse_url modes r s e (t ≡ some [])
      by_token none = (λ h. cc, λ (_, (_, (_, (_, (_, (_, (_, (h, _)))))))). cc)
      by_token (some token) =
          let parts = all_errors_iff parse_url modes r s e token in
          (
            λ h. with_token parse_url modes r s e (ap some) (parts.0 (some_injective h)),
            λ h. ap some (parts.1 (with_token parse_url modes r s e some_injective h)),
          )
