-- ===== src/ApiServer/Server/Laws.antt =====
-- server.go: what Complete makes of the options of service accounts.
use hohapiserver.Base.{
  is_some, String, eq_iff, ◌≡◌, refl, ◌≢◌, ◌↔◌, ◌∙◌, ap, sym, arith, Bool, true, false, Bool-cases,
  Option-cases, step_then, ◌⊎◌, inl, inr, Option, none, some, List, [], returned,
}
use hohapiserver.ApiServer.Ints.{ℤ}
use hohapiserver.ApiServer.Authorization.{Modes, AuthorizationOptions, missing}
use hohapiserver.ApiServer.Authentication.{
  ServiceAccounts, AuthenticationOptions, apply_authorization,
}
use hohapiserver.ApiServer.Etcd.{validate_token_request, token_errors}
use hohapiserver.ApiServer.Server.{ServerOptions, Completing}
use hohapiserver.ApiServer.Server.Complete.{
  expiration_allowed, given_issuer, complete_addresses, complete_external_host, complete_key_files,
  complete_issuer, complete_watch_cache, complete,
}

-- What is kept of the options of service accounts: their issuers and the longest expiration.
abbrev account_view : Option ServiceAccounts → Option (List String × ℤ)
account_view none = none
account_view (some a) = some (a.issuers, a.max_expiration)

accounts_of_view :
    (o : Option ServiceAccounts) (a : ServiceAccounts)
    → account_view o ≡ account_view (some a)
    → (b : ServiceAccounts) × (o ≡ some b)
      × (b.issuers ≡ a.issuers)
      × (b.max_expiration ≡ a.max_expiration)
accounts_of_view none a h = cc
accounts_of_view (some b) a h = (b, refl, ground (arith, h), ground (arith, h))

-- A token issuer exists just when a key file and a first issuer are given, and then within the bounds.
abbrev IssuedIff : {I : Type 0} → Option I → String → List String → ℤ → Type 0
IssuedIff issuer file issuers expiration =
    ((is_some issuer ≡ true) ↔ ((file ≢ "") × (given_issuer issuers ≢ none)))
    × ((is_some issuer ≡ true) → expiration_allowed expiration ≡ true)

carried :
    {I : Type 0} {x x' : Option I} {f f' : String} {l l' : List String} {m m' : ℤ}
    → x ≡ x'
    → f' ≡ f
    → l' ≡ l
    → m' ≡ m
    → IssuedIff x' f' l' m'
    → IssuedIff x f l m
carried x f l m h = rw x (rw⁻¹ (f, l, m) h)

carried_file : {f f' : String} → f ≡ f' → f' ≢ "" → f ≢ ""
carried_file e h = rw e h

-- validateTokenRequest accepts exactly a key file with a token issuer, if an issuer is only made with a key
-- file.
token_request_iff :
    {C H : Type 0} (key_file : String) (o : AuthenticationOptions C H) (issued : Bool)
    (b : ServiceAccounts)
    → o.service_accounts ≡ some b
    → (issued ≡ true → key_file ≢ "")
    → (validate_token_request key_file o issued ≡ some []) ↔ (issued ≡ true)
unfolding validate_token_request token_errors
token_request_iff key_file o true b has file =
    (λ h. refl, λ h. ground (arith, has, file refl, eq_iff key_file ""))
token_request_iff key_file o false b has file =
    (λ h. ground (arith, h, has, eq_iff key_file ""), λ h. cc)

authorization-view :
    {C H : Type 0} (m : Modes) (z : Option AuthorizationOptions) (o : AuthenticationOptions C H)
    → account_view (apply_authorization m z o).service_accounts ≡ account_view o.service_accounts
unfolding apply_authorization
authorization-view m none o = refl
authorization-view m (some z) o = ground arith

module _ {C H Ip Net Issuer Key R : Type 0} (lib : Completing Ip Net Issuer Key R) where
  abbrev Same : ServerOptions C H Ip Net Issuer → ServerOptions C H Ip Net Issuer → Type 0
  Same s t =
      (t.service_account_signing_key_file ≡ s.service_account_signing_key_file)
      × (account_view t.authentication.service_accounts
          ≡ account_view s.authentication.service_accounts)
      × (t.service_account_issuer ≡ s.service_account_issuer)

  addresses-Same :
      (s t : ServerOptions C H Ip Net Issuer)
      → complete_addresses lib s ≡ (returned tt, t)
      → Same s t
  unfolding complete_addresses
  addresses-Same s t h = (ground (arith, h), ground (arith, h), ground (arith, h))

  external_host-Same :
      (s t : ServerOptions C H Ip Net Issuer)
      → complete_external_host lib s ≡ (returned tt, t)
      → Same s t
  unfolding complete_external_host
  external_host-Same s t h = (ground (arith, h), ground (arith, h), ground (arith, h))

  key_files-Same :
      (s t : ServerOptions C H Ip Net Issuer)
      → complete_key_files lib s ≡ (returned tt, t)
      → Same s t
  unfolding complete_key_files
  key_files-Same s t h = (ground (arith, h), ground (arith, h), ground (arith, h))

  watch_cache-Same :
      (s t : ServerOptions C H Ip Net Issuer)
      → complete_watch_cache lib s ≡ (returned tt, t)
      → Same s t
  unfolding complete_watch_cache
  watch_cache-Same s t h = (ground (arith, h), ground (arith, h), ground (arith, h))

  -- A token issuer is made exactly when a key file and an issuer are given, within the bounds.
  abbrev Issued :
      ServerOptions C H Ip Net Issuer → ServerOptions C H Ip Net Issuer → ServiceAccounts → Type 0
  Issued s t a =
      (((missing s.service_account_signing_key_file ≡ true) ⊎ (given_issuer a.issuers ≡ none))
        × (t.service_account_issuer ≡ s.service_account_issuer))
      ⊎ ((missing s.service_account_signing_key_file ≡ false)
          × (given_issuer a.issuers ≢ none)
          × (is_some t.service_account_issuer ≡ true)
          × (expiration_allowed a.max_expiration ≡ true)
          × (t.service_account_token_max_expiration ≡ a.max_expiration))

  issuer-Issued :
      (s t : ServerOptions C H Ip Net Issuer) (a : ServiceAccounts)
      → s.authentication.service_accounts ≡ some a
      → complete_issuer lib s ≡ (returned tt, t)
      → (t.service_account_signing_key_file ≡ s.service_account_signing_key_file)
        × (t.authentication ≡ s.authentication)
        × Issued s t a
  unfolding complete_issuer
  issuer-Issued s t a has h = (ground (arith, h, has), ground (arith, h, has), issued)
    where
      issued : Issued s t a
      issued = elim (Bool-cases (missing s.service_account_signing_key_file)) [
        | inl no_file ↦ inl (inl no_file, ground (arith, h, has, no_file))
        | inr file ↦ elim (Option-cases (given_issuer a.issuers)) [
          | inl q ↦ inl (inr q, ground (arith, h, has, file, q))
          | inr (first, q) ↦ inr (
            file,
            ground (arith, q),
            ground (arith, h, has, file, q),
            ground (arith, h, has, file, q),
            ground (arith, h, has, file, q),
          )
        ]
      ]

  issued_iff :
      (s t : ServerOptions C H Ip Net Issuer) (a : ServiceAccounts)
      → Issued s t a
      → s.service_account_issuer ≡ none
      → IssuedIff t.service_account_issuer s.service_account_signing_key_file a.issuers
          a.max_expiration
  issued_iff s t a (inl (why, kept)) unissued = (
    (
      λ h. ground (arith, h, kept, unissued),
      λ h. ground (arith, h, why, eq_iff s.service_account_signing_key_file ""),
    ),
    λ h. ground (arith, h, kept, unissued),
  )
  issued_iff s t a (inr (file, given, is, bounds, _)) unissued = (
    (λ h. (ground (arith, file, eq_iff s.service_account_signing_key_file ""), given), λ h. is),
    λ h. bounds,
  )

  -- What a Complete that returns has gone through, around the token issuer.
  complete_steps :
      (iterate : List (String × String) → List (String × String))
      (s t : ServerOptions C H Ip Net Issuer)
      → complete lib iterate s ≡ (returned tt, t)
      → (s' : ServerOptions C H Ip Net Issuer) × (t' : ServerOptions C H Ip Net Issuer) × Same s s'
        × (complete_issuer lib s' ≡ (returned tt, t'))
        × Same t' t
  unfolding complete
  complete_steps iterate s t h =
      let (s1, e1, h1) = step_then (complete_addresses lib) s h in
      let (s2, e2, h2) = step_then (complete_external_host lib) s1 h1 in
      let s3 = record s2 {
        authentication = apply_authorization lib.modes s2.authorization s2.authentication;
      } in
      let (s4, e4, h4) = step_then (complete_key_files lib) s3 h2 in
      let (s5, e5, h5) = step_then (complete_issuer lib) s4 h4 in
      let (s6, e6, h6) = step_then (complete_watch_cache lib) s5 h5 in
      let (f1, v1, i1) = addresses-Same s s1 e1 in
      let (f2, v2, i2) = external_host-Same s1 s2 e2 in
      let v3 = authorization-view lib.modes s2.authorization s2.authentication in
      let (f4, v4, i4) = key_files-Same s3 s4 e4 in
      let (f6, v6, i6) = watch_cache-Same s5 s6 e6 in
      (
        s4,
        s5,
        (f4 ∙ f2 ∙ f1, v4 ∙ v3 ∙ v2 ∙ v1, i4 ∙ i2 ∙ i1),
        e5,
        (
          sym (ap (λ r. r.1.service_account_signing_key_file) h6) ∙ f6,
          sym (ap (λ r. account_view r.1.authentication.service_accounts) h6) ∙ v6,
          sym (ap (λ r. r.1.service_account_issuer) h6) ∙ i6,
        ),
      )

  -- A Complete that returns leaves the issuers of the service accounts as they were.
  pub complete-issuers :
      (iterate : List (String × String) → List (String × String))
      (s t : ServerOptions C H Ip Net Issuer) (a : ServiceAccounts)
      → s.authentication.service_accounts ≡ some a
      → complete lib iterate s ≡ (returned tt, t)
      → (c : ServiceAccounts) × (t.authentication.service_accounts ≡ some c)
        × (c.issuers ≡ a.issuers)
  complete-issuers iterate s t a has h =
      let (s4, s5, before, e5, after) = complete_steps iterate s t h in
      let view = before.1 ∙ ap account_view has in
      let (b, has_b, _, _) = accounts_of_view s4.authentication.service_accounts a view in
      let (_, same, _) = issuer-Issued s4 s5 b has_b e5 in
      let view' = after.1 ∙ ap (λ o. account_view o.service_accounts) same ∙ view in
      let (c, has_c, issuers, _) = accounts_of_view t.authentication.service_accounts a view' in
      (c, has_c, issuers)

  -- Options for which Complete returns: validateTokenRequest reports nothing on them exactly when a key file
  -- and a first issuer are given, and only if the longest expiration is zero or within its bounds. No token
  -- issuer is made before.
  pub complete-validates_iff :
      (iterate : List (String × String) → List (String × String))
      (s t : ServerOptions C H Ip Net Issuer) (a : ServiceAccounts)
      → s.authentication.service_accounts ≡ some a
      → s.service_account_issuer ≡ none
      → complete lib iterate s ≡ (returned tt, t)
      → ((validate_token_request t.service_account_signing_key_file t.authentication
              (is_some t.service_account_issuer)
            ≡ some [])
          ↔ ((s.service_account_signing_key_file ≢ "") × (given_issuer a.issuers ≢ none)))
        × ((is_some t.service_account_issuer ≡ true) → expiration_allowed a.max_expiration ≡ true)
  complete-validates_iff iterate s t a has unissued h =
      let (s4, s5, before, e5, after) = complete_steps iterate s t h in
      let view = before.1 ∙ ap account_view has in
      let (b, has_b, issuers, expiration) =
        accounts_of_view s4.authentication.service_accounts a view in
      let (f5, same, issued) = issuer-Issued s4 s5 b has_b e5 in
      let (c, has_c, _) = complete-issuers iterate s t a has h in
      let file = after.0 ∙ f5 ∙ before.0 in
      let (made, bounds) =
        carried after.2 before.0 issuers expiration
          (issued_iff s4 s5 b issued (before.2 ∙ unissued)) in
      let accepts =
        token_request_iff t.service_account_signing_key_file t.authentication
          (is_some t.service_account_issuer) c has_c (λ h'. carried_file file (made.0 h').0) in
      ((λ h'. made.0 (accepts.0 h'), λ h'. accepts.1 (made.1 h')), bounds)
