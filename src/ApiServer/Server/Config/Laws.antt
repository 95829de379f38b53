-- ===== src/ApiServer/Server/Config/Laws.antt =====
-- server.go: when CreateKubeAPIServerConfig panics, what it makes, and where Run leaves etcd.
use hohapiserver.Base.{
  ℕ, suc, value_or, Ends, at_value, value_or-Ends, Ends-weaken, Ends-safe, >>=-Ends, String, ◌≡◌,
  refl, ◌≢◌, ◌∙◌, arith, none, some, ◌⊎◌, inl, inr, List, [], ◌∷◌, panicked,
}
use hohapiserver.ApiServer.Authentication.{ServiceAccounts, ParseUrl, validate_authentication}
use hohapiserver.ApiServer.Authentication.Laws.{issuers_of_valid}
use hohapiserver.ApiServer.Server.Config.{
  Configuring, hook_added, public_keys, egress_dialer, extra_config, first_of,
  create_kube_api_server_config,
}
use hohapiserver.ApiServer.Generic.{Parts, Heap}
use hohapiserver.ApiServer.Generic.Build.{Built, Options, deref, build_generic_config}
use hohapiserver.ApiServer.Generic.Build.Laws.{Touches, written-Touches, KeepsLoopback}
use hohapiserver.ApiServer.Generic.Build.Ending.{
  deref-Ends, Extends, touched-Extends, build_generic_config-Ends,
}
use hohapiserver.Etcd.{Etcd, ClientInfo}
use hohapiserver.Etcd as EmbeddedServer

first_given :
    {X : Type 0} (issuers : List String) → (issuers ≢ []) ⊎ X → (first_of issuers ≢ none) ⊎ X
first_given [] (inl n) = absurd (n refl)
first_given [] (inr x) = inr x
first_given (first ∷ others) h = inl (λ e. cc)

module _ {P : Parts} {X : Type 0} (lib : Configuring P) where
  hook_added-Ends :
      (ref : ℕ) (name : String) (hook : P.Hook) (h : Heap P)
      → Ends X (λ u h'. Touches ref h h') (hook_added lib.add_post_start_hook ref name hook h)
  hook_added-Ends ref name hook h =
      let added = lib.add_post_start_hook name hook (h.maps ref) in
      >>=-Ends {Q = λ hooks h'. h' ≡ h} (value_or added) _ h (value_or-Ends added h λ a e. refl)
        λ hooks h' e. at_value (rw e (written-Touches ref hooks h))

  extra_config-Ends :
      (s : Options P) (a : ServiceAccounts) (built : Built P) (h : Heap P)
      → (a.issuers ≢ []) ⊎ X
      → Ends X
          (λ k h'. (k.built ≡ built) × Touches built.hooks h h' × (a.issuers ≢ []))
          (extra_config lib s a built h)
  unfolding extra_config
  extra_config-Ends s a built h given =
      >>=-Ends {Q = λ v h'. h' ≡ h} (value_or (lib.client_ca s.authentication.client_cert)) _ h
        (value_or-Ends (lib.client_ca s.authentication.client_cert) h λ v e. refl)
        λ ca h1 t1.
          >>=-Ends {Q = λ v h'. h' ≡ h}
            (value_or (lib.request_header_config s.authentication.request_header)) _ h1
            (value_or-Ends (lib.request_header_config s.authentication.request_header) h1 λ v e. t1)
            λ header h2 t2.
              >>=-Ends
                (hook_added lib.add_post_start_hook built.hooks
                  "start-kube-apiserver-admission-initializer" built.admission_hook)
                _ h2 (hook_added-Ends built.hooks _ built.admission_hook h2)
                λ u h3 t3.
                  let dialer_answer = egress_dialer lib built.config.egress_selector in
                  >>=-Ends {Q = λ v h'. Touches built.hooks h2 h'} (value_or dialer_answer) _ h3
                    (value_or-Ends dialer_answer h3 λ v e. t3)
                    λ dialer h4 t4.
                      let found = public_keys lib [] a.key_files in
                      >>=-Ends {Q = λ v h'. Touches built.hooks h2 h'} (value_or found) _ h4
                        (value_or-Ends found h4 λ v e. t4)
                        λ keys h5 t5.
                          >>=-Ends (deref (first_of a.issuers)) _ h5
                            (deref-Ends (first_of a.issuers) h5 (first_given a.issuers given))
                            λ first h6 r6.
                              at_value (refl, rw r6.1 (rw⁻¹ t2 t5), λ q. ground (arith, r6.0, q))

  -- CreateKubeAPIServerConfig returns only with an issuer, and its configuration has a map of hooks of its own.
  pub create_kube_api_server_config-Ends :
      (s : Options P) (h : Heap P)
      → KeepsLoopback X lib.calls
      → (s.authorization ≢ none) ⊎ X
      → (s.authentication.service_accounts ≢ none) ⊎ X
      → ((a : ServiceAccounts) → s.authentication.service_accounts ≡ some a → (a.issuers ≢ []) ⊎ X)
      → Ends X
          (λ k h'.
            ((k.built.hooks ≡ h.next) × (h'.next ≡ suc h.next) × Extends h h')
            × ((a : ServiceAccounts) × (s.authentication.service_accounts ≡ some a)
                × (a.issuers ≢ [])))
          (create_kube_api_server_config lib s h)
  unfolding create_kube_api_server_config
  create_kube_api_server_config-Ends s h kept authorized has issuers =
      >>=-Ends (build_generic_config lib.calls s) _ h
        (build_generic_config-Ends kept s h authorized)
        λ built h1 r1.
          >>=-Ends (deref s.authentication.service_accounts) _ h1
            (deref-Ends s.authentication.service_accounts h1 has)
            λ a h2 r2. Ends-weaken (extra_config-Ends s a built h2 (issuers a r2.0)) λ k h3 r3.
              let touched = rw r2.1 at r3.1 in
              (
                (
                  rw r3.0 (r1.0.0),
                  touched.next_kept ∙ r1.0.1,
                  touched-Extends (omega (arith, r1.0.0)) r1.0.2 touched,
                ),
                (a, r2.0, r3.2),
              )

module _ {P : Parts} (lib : Configuring P) where
  -- Options of service accounts and authorization that pass the validation never make
  -- CreateKubeAPIServerConfig panic, if SecureServing sets a loopback client and the other calls leave it there.
  pub create_kube_api_server_config-safe :
      (parse_url : ParseUrl) (s : Options P) (a : ServiceAccounts) (h : Heap P)
      → KeepsLoopback ⊥ lib.calls
      → s.authorization ≢ none
      → s.authentication.service_accounts ≡ some a
      → validate_authentication parse_url s.authentication ≡ []
      → (create_kube_api_server_config lib s h).0 ≢ panicked
  create_kube_api_server_config-safe parse_url s a h kept authorized has valid = Ends-safe (
      create_kube_api_server_config-Ends lib s h kept (inl authorized)
        (inl (λ q. ground (arith, has, q)))
        (λ b is. inl (issuers_of_valid parse_url s.authentication b is valid)))
