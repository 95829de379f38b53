-- ===== src/ApiServer/Chain/Main/Laws.antt =====
-- main: a server without an issuer never gets to serve.
use hohapiserver.Base.{
  Option-cases, Bool-cases, String, ◌≡◌, refl, ◌≢◌, ◌∙◌, arith, some, inl, inr, List, [], Program,
  Result, returned, failed, panicked, Ends, at_value, at_error, at_panic, >>=-Ends, value_or-Ends,
  Ends-weaken, Ends-any, value_or,
}
use hohapiserver.ApiServer.Authentication.{ServiceAccounts}
use hohapiserver.ApiServer.Server.{wrapped}
use hohapiserver.ApiServer.Server.Complete.{complete}
use hohapiserver.ApiServer.Server.Laws.{complete-issuers}
use hohapiserver.ApiServer.Server.Config.{with_embedded_etcd}
use hohapiserver.ApiServer.Generic.{Parts, Heap}
use hohapiserver.ApiServer.Generic.Build.{Options}
use hohapiserver.ApiServer.Generic.Build.Laws.{anything}
use hohapiserver.ApiServer.Chain.{create_server_chain}
use hohapiserver.ApiServer.Chain.Laws.{create_server_chain-Ends}
use hohapiserver.ApiServer.Chain.Main.{on_disk, on_heap, Running, run, main}
use hohapiserver.Etcd.{Etcd}
use hohapiserver.Etcd as EmbeddedServer
use hohapiserver.Etcd.Safe.{run-NeverPanics}
use hohapiserver.Etcd.Certificates.{Disk}

Ends-never :
    {A S : Type 0} {a : A} {r : Result A × S} → Ends (Unit {0}) (λ a s. ⊥) r → r.0 ≢ returned a
Ends-never (at_value q) e = q
Ends-never at_error e = cc
Ends-never (at_panic x) e = cc

module _ {A D H : Type 0} {X : Type 0} where
  pub on_disk-Ends :
      {Q : A → Type 0} (m : Program D A) (d : D) (h : H)
      → Ends X (λ a d'. Q a) (m d)
      → Ends X (λ a w. Q a) (on_disk m (d, h))
  on_disk-Ends {Q} m d h e = by_result e
    where
      by_result :
          {r : Result A × D}
          → Ends X (λ a d'. Q a) r
          → Ends X (λ a w. Q a) (on_disk (λ _. r) (d, h))
      by_result (at_value q) = at_value q
      by_result at_error = at_error
      by_result (at_panic x) = at_panic x

  pub on_heap-Ends :
      {Q : A → Type 0} (m : Program H A) (d : D) (h : H)
      → Ends X (λ a h'. Q a) (m h)
      → Ends X (λ a w. Q a) (on_heap m (d, h))
  on_heap-Ends {Q} m d h e = by_result e
    where
      by_result :
          {r : Result A × H}
          → Ends X (λ a d'. Q a) r
          → Ends X (λ a w. Q a) (on_heap (λ _. r) (d, h))
      by_result (at_value q) = at_value q
      by_result at_error = at_error
      by_result (at_panic x) = at_panic x

module _ {P : Parts} {O R E Tls Key Public SigningKey Group Prepared : Type 0}
    (lib : Running P O R E Tls Key Public SigningKey Group Prepared) where
  -- The embedded etcd changes only the transport.
  pub with_embedded_etcd-Ends :
      {X : Type 0} (s : Options P) (d : Disk O)
      → Ends X
          (λ s' d'. (s'.authentication ≡ s.authentication) × (s'.authorization ≡ s.authorization))
          (with_embedded_etcd lib.etcd lib.crypto lib.fs s d)
  unfolding with_embedded_etcd
  with_embedded_etcd-Ends s d = elim (Option-cases s.embedded_etcd) [
    | inl nil ↦ rw (nil, with_embedded_etcd) (at_value (refl, refl))
    | inr (e, given) ↦ elim (Bool-cases e.enabled) [
      | inl on ↦
          rw (given, on, with_embedded_etcd)
            (>>=-Ends {Q = λ info d'. Unit {0}}
              (EmbeddedServer.run lib.etcd lib.crypto lib.fs e.peer_port e.client_port) _ d
              (Ends-any (run-NeverPanics lib.crypto lib.fs lib.etcd e.peer_port e.client_port d))
              λ info d' _. at_value (refl, refl))
      | inr off ↦ rw (given, off, with_embedded_etcd) (at_value (refl, refl))
    ]
  ]

  -- Run returns only with an issuer.
  run-Ends :
      (s : Options P) (a : ServiceAccounts) (w : Disk O × Heap P)
      → s.authentication.service_accounts ≡ some a
      → a.issuers ≡ []
      → Ends (Unit {0}) (λ u w'. ⊥) (run lib s w)
  unfolding run
  run-Ends s a (d, h) has no_issuer =
      >>=-Ends (on_disk (with_embedded_etcd lib.etcd lib.crypto lib.fs s)) _ (d, h)
        (on_disk-Ends (with_embedded_etcd lib.etcd lib.crypto lib.fs s) d h
          (with_embedded_etcd-Ends s d))
        λ s1 w1 same.
          let key =
            wrapped "error creating self-signed certificates: "
              (lib.self_signed s1.server_key_file) in
          >>=-Ends {Q = λ f w'. Unit {0}} (value_or key) _ w1 (value_or-Ends key w1 λ f e. tt)
            λ f w2 _.
              let chain = create_server_chain lib.chaining (record s1 { server_key_file = f }) in
              >>=-Ends {Q = λ server w'. ⊥} (on_heap chain) _ w2
                (on_heap-Ends chain w2.0 w2.1 (
                  Ends-weaken
                    (create_server_chain-Ends {X = Unit {0}} lib.chaining
                      (record s1 { server_key_file = f }) w2.1
                      (anything lib.chaining.configuring.calls) (inr tt) (inr tt) (λ b e. inr tt)
                      (inr tt))
                    λ server h' c. c.has_issuer (ground (arith, c.given, has, same.0, no_issuer))))
                λ server w3 impossible. absurd impossible

  -- A server that is started without an issuer for its service accounts never gets to serve: main ends by an
  -- error or a panic, whatever else is given.
  pub main-needs_issuer :
      (iterate : List (String × String) → List (String × String)) (s : Options P)
      (a : ServiceAccounts) (w : Disk O × Heap P)
      → s.authentication.service_accounts ≡ some a
      → a.issuers ≡ []
      → (main lib iterate s w).0 ≢ returned tt
  unfolding main
  main-needs_issuer iterate s a w has no_issuer = by_result (complete lib.completing iterate s) refl
    where
      by_result :
          (r : Result (Unit {0}) × Options P)
          → complete lib.completing iterate s ≡ r
          → (elim r.0 as (λ _. Result (Unit {0}) × (Disk O × Heap P)) [
            | returned _ ↦ run lib r.1 w
            | failed e ↦ (failed e, w)
            | panicked ↦ (panicked, w)
          ]).0
            ≢ returned tt
      by_result (returned tt, t) e served =
          let (c, given, issuers) = complete-issuers lib.completing iterate s t a has e in
          Ends-never (run-Ends t c w given (issuers ∙ no_issuer)) served
      by_result (failed x, t) e served = cc
      by_result (panicked, t) e served = cc
