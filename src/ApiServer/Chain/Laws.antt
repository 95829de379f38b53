-- ===== src/ApiServer/Chain/Laws.antt =====
-- The chain of API servers: which hooks end up where, and when making it panics.
use hohapiserver.Base.{
  ◌≡◌, ap, sym, Ends-same, ◌≢◌, ◌∙◌, arith, none, some, ◌⊎◌, inl, inr, [], returned, panicked, Ends,
  >>=-Ends, Ends-weaken, Ends-returned, Ends-safe,
}
use hohapiserver.ApiServer.Authentication.{ServiceAccounts, ParseUrl, validate_authentication}
use hohapiserver.ApiServer.Generic.{Parts, GenericConfig, Heap, same}
use hohapiserver.ApiServer.Generic.Build.{Options}
use hohapiserver.ApiServer.Generic.Build.Laws.{called-Ends, KeepsLoopback, anything}
use hohapiserver.ApiServer.Generic.Build.Ending.{Extends, touched-Extends, Extends-trans}
use hohapiserver.ApiServer.Server.Config.{ExtraConfig, create_kube_api_server_config}
use hohapiserver.ApiServer.Authentication.Laws.{issuers_of_valid}
use hohapiserver.ApiServer.Server.Config.Laws.{create_kube_api_server_config-Ends}
use hohapiserver.ApiServer.Chain.Hooks.{Aggregated, extensions_server-Ends, aggregator_server-Ends}
use hohapiserver.ApiServer.Chain.{
  Chaining, extensions_server, create_kube_api_server, create_server_chain,
}

module _ {P : Parts} (lib : Chaining P) where
  -- What CreateServerChain has done where it returns: the API server is made with the hooks that
  -- CreateKubeAPIServerConfig left, and what it leaves in its map stays there.
  pub record Chained (s : Options P) (h : Heap P) (server : P.Server) (h' : Heap P) : Type 0 where
    pub kube : ExtraConfig P
    pub built : Heap P
    pub delegate : P.Server
    pub made : P.Server × GenericConfig P
    pub configured : create_kube_api_server_config lib.configuring s h ≡ (returned kube, built)
    pub own_hooks :
        lib.new_kube_server kube delegate kube.built.config (built.maps kube.built.hooks)
        ≡ (inr made, h'.maps kube.built.hooks)
    pub old_kept : Extends h h'
    pub aggregated : Aggregated lib s made.0 server
    pub accounts : ServiceAccounts
    pub given : s.authentication.service_accounts ≡ some accounts
    pub has_issuer : accounts.issuers ≢ []

module _ {P : Parts} {X : Type 0} (lib : Chaining P) where
  pub create_server_chain-Ends :
      (s : Options P) (h : Heap P)
      → KeepsLoopback X lib.configuring.calls
      → (s.authorization ≢ none) ⊎ X
      → (s.authentication.service_accounts ≢ none) ⊎ X
      → ((a : ServiceAccounts) → s.authentication.service_accounts ≡ some a → (a.issuers ≢ []) ⊎ X)
      → (s.authentication.client_cert ≢ none) ⊎ X
      → Ends X (Chained lib s h) (create_server_chain lib s h)
  unfolding create_server_chain
  create_server_chain-Ends s h kept authorized has issuers cert =
      >>=-Ends (create_kube_api_server_config lib.configuring s) _ h
        (Ends-same
          (create_kube_api_server_config-Ends lib.configuring s h kept authorized has issuers))
        λ k h1 r1.
          >>=-Ends (extensions_server lib k) _ h1 (extensions_server-Ends lib k h1) λ p h2 e2.
            let call = lib.new_kube_server k p.0 in
            >>=-Ends (create_kube_api_server lib k p.0) _ h2
              (called-Ends call k.built.hooks k.built.config h2)
              λ made h3 r3.
                Ends-weaken (aggregator_server-Ends lib s k made h3 cert) λ server h4 r4.
                  let (same, ((hooks, next, before), (a, is, first))) = r1 in
                  record {
                    kube = k;
                    built = h1;
                    delegate = p.0;
                    made = made;
                    configured = same;
                    own_hooks =
                        ap (call k.built.config)
                          (sym (e2.old_kept k.built.hooks (omega (arith, hooks, next))))
                        ∙ r3.0
                        ∙ ap (λ m. (inr made, m))
                            (sym (
                              r4.1.old_kept k.built.hooks
                                (omega (arith, hooks, next, e2.grows, r3.1.next_kept))));
                    old_kept =
                        Extends-trans
                          (touched-Extends (omega (arith, hooks)) (Extends-trans before e2) r3.1)
                          r4.1;
                    aggregated = r4.0;
                    accounts = a;
                    given = is;
                    has_issuer = first;
                  }

module _ {P : Parts} (lib : Chaining P) where
  -- A server that CreateServerChain returns: the API server is made with exactly the hooks that
  -- CreateKubeAPIServerConfig left in its map, and what it leaves there stays, as do all older maps, although the
  -- other two servers are made of copies of its configuration. The aggregator is made with no hooks, and is given
  -- four: the registrations, RunKubeControllers with the client CA and its key, the CRDs and the controllers of
  -- the global hub. The service accounts have an issuer.
  pub create_server_chain-Chained :
      (s : Options P) (h h' : Heap P) (server : P.Server)
      → create_server_chain lib s h ≡ (returned server, h')
      → Chained lib s h server h'
  create_server_chain-Chained s h h' server = Ends-returned (
      create_server_chain-Ends {X = Unit {0}} lib s h (anything lib.configuring.calls) (inr tt)
        (inr tt) (λ a e. inr tt) (inr tt))

  -- Options of authentication that pass the validation, with client certificates and authorization, never make
  -- CreateServerChain panic, if SecureServing sets a loopback client and the other calls leave it there.
  pub create_server_chain-safe :
      (parse_url : ParseUrl) (s : Options P) (a : ServiceAccounts) (h : Heap P)
      → KeepsLoopback ⊥ lib.configuring.calls
      → s.authorization ≢ none
      → s.authentication.client_cert ≢ none
      → s.authentication.service_accounts ≡ some a
      → validate_authentication parse_url s.authentication ≡ []
      → (create_server_chain lib s h).0 ≢ panicked
  create_server_chain-safe parse_url s a h kept authorized cert has valid = Ends-safe (
      create_server_chain-Ends lib s h kept (inl authorized) (inl (λ q. ground (arith, has, q)))
        (λ b is. inl (issuers_of_valid parse_url s.authentication b is valid)) (inl cert))
