-- ===== src/ApiServer/Chain/Main/Safe.antt =====
-- Run of server.go on options that Validate of options.go accepts.
use hohapiserver.Base.{
  String, ◌≡◌, refl, ◌≢◌, arith, none, some, inl, inr, Result, List, [], returned, panicked,
  >>=-Ends, value_or-Ends, Ends-weaken, Ends-any, Ends-same, Ends-panic, Ends, at_value, at_error,
  at_panic, failed, value_or,
}
use hohapiserver.ApiServer.Authorization.{Modes}
use hohapiserver.ApiServer.Authentication.{
  ParseUrl, ServiceAccounts, new_service_accounts, with_all,
}
use hohapiserver.ApiServer.Authentication.Laws.{issuers_of_valid}
use hohapiserver.ApiServer.Etcd.{EmbeddedEtcd, new_embedded_etcd}
use hohapiserver.ApiServer.Server.{wrapped}
use hohapiserver.ApiServer.Server.Config.{with_embedded_etcd}
use hohapiserver.ApiServer.Options.{
  LibraryDefaults, new_server_run_options, Reports, validate_options,
}
use hohapiserver.ApiServer.Options.Laws.{validate_options_iff}
use hohapiserver.ApiServer.Generic.{Parts, Heap}
use hohapiserver.ApiServer.Generic.Build.{Options}
use hohapiserver.ApiServer.Generic.Build.Laws.{KeepsLoopback}
use hohapiserver.ApiServer.Chain.{create_server_chain}
use hohapiserver.ApiServer.Chain.Laws.{create_server_chain-Ends}
use hohapiserver.ApiServer.Chain.Main.{on_disk, on_heap, Running, run, main}
use hohapiserver.ApiServer.Chain.Main.Laws.{
  main-needs_issuer, on_disk-Ends, on_heap-Ends, with_embedded_etcd-Ends,
}
use hohapiserver.Etcd.Certificates.{Disk}

module _ {P : Parts} {O R E Tls Key Public SigningKey Group Prepared : Type 0}
    (lib : Running P O R E Tls Key Public SigningKey Group Prepared) where
  open P use {Server}

  -- A server that the chain makes on options with the same authentication, and that panics once it serves, as a
  -- hook may.
  pub record ServingPanics (s : Options P) : Type 0 where
    pub chained : Options P
    pub before : Heap P
    pub after : Heap P
    pub server : Server
    pub prepared : Prepared
    pub same_authentication : chained.authentication ≡ s.authentication
    pub made : create_server_chain lib.chaining chained before ≡ (returned server, after)
    pub ready : lib.prepare_run server ≡ inr prepared
    pub panics : lib.serve prepared ≡ panicked

  serving-Ends :
      {X : Type 0} (prepared : Prepared) (w : Disk O × Heap P) (r : Result (Unit {0}))
      → (r ≡ panicked → X)
      → Ends X (λ u w'. Unit {0}) (r, w)
  serving-Ends prepared w (returned u) x = at_value tt
  serving-Ends prepared w (failed e) x = at_error
  serving-Ends prepared w panicked x = at_panic (x refl)

  -- On options that Validate accepts, with service accounts, client certificates, authorization and the options
  -- of the embedded etcd, Run panics only once it serves, if SecureServing sets a loopback client and the other
  -- calls leave it there: a server that the chain made on options with this authentication is what panics then.
  pub run-panics_serving :
      (parse_url : ParseUrl) (modes : Modes) (r : Reports) (s : Options P) (a : ServiceAccounts)
      (e : EmbeddedEtcd) (w : Disk O × Heap P)
      → KeepsLoopback ⊥ lib.chaining.configuring.calls
      → s.authorization ≢ none
      → s.authentication.client_cert ≢ none
      → s.authentication.service_accounts ≡ some a
      → s.embedded_etcd ≡ some e
      → validate_options parse_url modes r s ≡ some []
      → (run lib s w).0 ≡ panicked
      → ServingPanics s
  unfolding run
  run-panics_serving parse_url modes r s a e (d, h) kept authorized cert has given accepted panics =
      let (_, (_, (valid, _))) = (validate_options_iff parse_url modes r s e given).0 accepted in
      Ends-panic {Q = λ u w'. Unit {0}}
        (>>=-Ends (on_disk (with_embedded_etcd lib.etcd lib.crypto lib.fs s)) _ (d, h)
          (on_disk-Ends (with_embedded_etcd lib.etcd lib.crypto lib.fs s) d h
            (with_embedded_etcd-Ends lib s d))
          λ s1 w1 same.
            let key =
              wrapped "error creating self-signed certificates: "
                (lib.self_signed s1.server_key_file) in
            >>=-Ends {Q = λ f w'. Unit {0}} (value_or key) _ w1 (value_or-Ends key w1 λ f q. tt)
              λ f w2 _.
                let s2 = record s1 { server_key_file = f } in
                let chain = create_server_chain lib.chaining s2 in
                >>=-Ends {Q = λ server w'. (h' : Heap P) × (chain w2.1 ≡ (returned server, h'))}
                  (on_heap chain) _ w2
                  (on_heap-Ends chain w2.0 w2.1 (
                    Ends-weaken
                      (Ends-any (
                        Ends-same (
                          create_server_chain-Ends lib.chaining s2 w2.1 kept
                            (inl (λ q. ground (arith, authorized, same, q)))
                            (inl (λ q. ground (arith, has, same, q)))
                            (λ b is. inl (
                              issuers_of_valid parse_url s.authentication b
                                (ground (arith, is, same)) valid))
                            (inl (λ q. ground (arith, cert, same, q))))))
                      λ server h' c. (h', c.0)))
                  λ server w3 (h', made).
                    >>=-Ends {Q = λ prepared w'. lib.prepare_run server ≡ inr prepared}
                      (value_or (lib.prepare_run server)) _ w3
                      (value_or-Ends (lib.prepare_run server) w3 λ prepared q. q)
                      λ prepared w4 q. serving-Ends prepared w4 (lib.serve prepared) λ p. record {
                        chained = s2;
                        before = w2.1;
                        after = h';
                        server = server;
                        prepared = prepared;
                        same_authentication = same.0;
                        made = made;
                        ready = q;
                        panics = p;
                      })
        panics

  -- Started with the options as NewServerRunOptions makes them, the server never gets to serve, and Validate
  -- does not accept these options.
  pub new_server_run_options-refused :
      (parse_url : ParseUrl) (modes : Modes) (r : Reports)
      (defaults : LibraryDefaults P.ClientCert P.RequestHeader P.Ip)
      (iterate : List (String × String) → List (String × String)) (w : Disk O × Heap P)
      → ((main lib iterate (new_server_run_options defaults) w).0 ≢ returned tt)
        × (validate_options parse_url modes r
              (new_server_run_options {Net = P.Net} {Issuer = P.Issuer} defaults)
            ≢ some [])
  unfolding new_server_run_options with_all
  new_server_run_options-refused parse_url modes r defaults iterate w = (
    main-needs_issuer lib iterate (new_server_run_options defaults) new_service_accounts w refl
        refl,
    λ accepted.
        let s = new_server_run_options {Net = P.Net} {Issuer = P.Issuer} defaults in
        let (_, (_, (valid, _))) =
          (validate_options_iff parse_url modes r s new_embedded_etcd refl).0 accepted in
        issuers_of_valid parse_url s.authentication new_service_accounts refl valid refl,
  )
