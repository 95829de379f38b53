-- ===== src/KubeControllers/Initializers/Answers.antt =====
-- core.go, bootstrap.go, certificates.go: what the initializers answer where nothing fails.
use hohapiserver.Base.{
  ℕ, String, eq_iff, arith, ◌≡◌, refl, ◌≢◌, if◌then◌else◌, true, false, none, some, inr, List, [],
  ◌∷◌, ◌++◌, ◌∙◌, sym,
}
use hohapiserver.KubeControllers.Signing.{
  SigningConfig, SigningFiles, Signer, kube_apiserver_client_signer, legacy_unknown_signer, running,
  NewSigner, cluster_files, any_specific_files_set, kube_apiserver_client_signer_files,
  legacy_unknown_signer_files, start_csr_signing_controller,
}
use hohapiserver.KubeControllers.Signing.Laws.{Absent}
use hohapiserver.KubeControllers.Manager.{Init, InitFunc, Offers}
use hohapiserver.KubeControllers.Manager.Order.{Settled, launched}
use hohapiserver.KubeControllers.Initializers.{
  ComponentConfig, Goroutine, namespace_workers, gc_workers, gc_sync, signer_workers, approver,
  cleaner, bootstrap_signer, token_cleaner, root_ca_publisher, anonymous, Constructors,
  start_namespace_controller, start_garbage_collector_controller, start_csr_signing,
  start_csr_approving_controller, start_csr_cleaner_controller, start_bootstrap_signer_controller,
  start_token_cleaner_controller, start_root_ca_cert_publisher, new_controller_initializers,
}

-- The signers get the files of the cluster when no signer has files of its own.
csr_signing-starts :
    (new_signer : NewSigner) (c : SigningConfig)
    → Absent c.kube_apiserver_client
    → Absent c.legacy_unknown
    → c.cluster_signing_cert_file ≢ ""
    → c.cluster_signing_key_file ≢ ""
    → ((s : Signer) (f : SigningFiles) (ttl : ℕ)
        → f.cert_file ≢ ""
        → f.key_file ≢ ""
        → new_signer s f ttl ≡ none)
    → start_csr_signing_controller new_signer c ≡ record {
      result = running;
      signers =
          (kube_apiserver_client_signer, cluster_files c)
          ∷ (legacy_unknown_signer, cluster_files c)
          ∷ [];
    }
unfolding start_csr_signing_controller any_specific_files_set kube_apiserver_client_signer_files
    legacy_unknown_signer_files
csr_signing-starts new_signer c (a, a') (b, b') cert key makes = ground (
  arith,
  eq_iff c.cluster_signing_cert_file "",
  eq_iff c.cluster_signing_key_file "",
  eq_iff c.kube_apiserver_client.cert_file "",
  eq_iff c.kube_apiserver_client.key_file "",
  eq_iff c.legacy_unknown.cert_file "",
  eq_iff c.legacy_unknown.key_file "",
  makes kube_apiserver_client_signer (cluster_files c) c.cluster_signing_duration,
  makes legacy_unknown_signer (cluster_files c) c.cluster_signing_duration,
)

module _ {O C : Type 0} (k : Constructors O C) where
  -- No constructor fails, and the garbage collector is the given one.
  abbrev pub Works : C → Type 0
  Works gc =
      ((o : O) → (k.namespace_metadata_client o).0 ≡ none)
      × ((o : O) → (k.gc_metadata_client o).0 ≡ none)
      × ((ignored : List (String × String)) (o : O)
          → (k.new_garbage_collector ignored o).0 ≡ inr gc)
      × ((o : O) → (k.new_bootstrap_signer o).0 ≡ none)
      × ((o : O) → (k.new_token_cleaner o).0 ≡ none)
      × ((ca : List ℕ) (o : O) → (k.new_publisher ca o).0 ≡ none)
      × ((s : Signer) (f : SigningFiles) (ttl : ℕ)
          → f.cert_file ≢ ""
          → f.key_file ≢ ""
          → k.new_signer s f ttl ≡ none)

  -- What is expected to run for a configuration with the files of the cluster and no root CA file.
  abbrev pub expected_goroutines : {N : Type 0} → ComponentConfig N → List Goroutine
  expected_goroutines c =
      namespace_workers c.namespace_controller.namespace_sync_period
        c.namespace_controller.concurrent_namespace_syncs
      ∷ ((if c.garbage_collector_controller.enable_garbage_collector
            then gc_workers c.garbage_collector_controller.concurrent_gc_syncs ∷ gc_sync ∷ []
            else [])
          ++ (signer_workers kube_apiserver_client_signer (cluster_files c.csr_signing_controller)
              ∷ signer_workers legacy_unknown_signer (cluster_files c.csr_signing_controller)
              ∷ approver
              ∷ cleaner
              ∷ bootstrap_signer
              ∷ token_cleaner
              ∷ root_ca_publisher k.ca_data
              ∷ []))

  module _ {N : Type 0} (c : ComponentConfig N) (gc : C) where
    gc_expected : Init C Goroutine
    gc_expected =
        if c.garbage_collector_controller.enable_garbage_collector
        then record {
          controller = some gc;
          enabled = true;
          error = none;
          goroutines = gc_workers c.garbage_collector_controller.concurrent_gc_syncs ∷ gc_sync ∷ [];
        }
        else anonymous false []

    namespace_answer :
        (o : O)
        → (k.namespace_metadata_client o).0 ≡ none
        → (start_namespace_controller k c o).0
          ≡ anonymous true (
              namespace_workers c.namespace_controller.namespace_sync_period
                c.namespace_controller.concurrent_namespace_syncs
              ∷ [])
    unfolding start_namespace_controller
    namespace_answer o h = rw h

    gc_answer :
        (o : O)
        → ((o : O) → (k.gc_metadata_client o).0 ≡ none)
        → ((ignored : List (String × String)) (o : O)
            → (k.new_garbage_collector ignored o).0 ≡ inr gc)
        → (start_garbage_collector_controller k c o).0 ≡ gc_expected
    unfolding start_garbage_collector_controller gc_expected
    gc_answer o h h' = ground (
      arith,
      h o,
      h' c.garbage_collector_controller.gc_ignored_resources (k.gc_metadata_client o).1,
    )

    bootstrap_answer :
        (o : O)
        → (k.new_bootstrap_signer o).0 ≡ none
        → (start_bootstrap_signer_controller k c o).0 ≡ anonymous true (bootstrap_signer ∷ [])
    unfolding start_bootstrap_signer_controller
    bootstrap_answer o h = rw h

    token_answer :
        (o : O)
        → (k.new_token_cleaner o).0 ≡ none
        → (start_token_cleaner_controller k c o).0 ≡ anonymous true (token_cleaner ∷ [])
    unfolding start_token_cleaner_controller
    token_answer o h = rw h

    -- Without a root CA file the publisher gets the CA data of the client.
    publisher_answer :
        (o : O)
        → c.root_ca_file ≡ ""
        → (k.new_publisher k.ca_data o).0 ≡ none
        → (start_root_ca_cert_publisher k c o).0 ≡ anonymous true (root_ca_publisher k.ca_data ∷ [])
    unfolding start_root_ca_cert_publisher
    publisher_answer o ca h = ground (arith, ca, h, eq_iff c.root_ca_file "")

    csr_answer :
        (o : O)
        → start_csr_signing_controller k.new_signer c.csr_signing_controller ≡ record {
          result = running;
          signers =
              (kube_apiserver_client_signer, cluster_files c.csr_signing_controller)
              ∷ (legacy_unknown_signer, cluster_files c.csr_signing_controller)
              ∷ [];
        }
        → (start_csr_signing k c o).0
          ≡ anonymous true (
              signer_workers kube_apiserver_client_signer (cluster_files c.csr_signing_controller)
              ∷ signer_workers legacy_unknown_signer (cluster_files c.csr_signing_controller)
              ∷ [])
    unfolding start_csr_signing
    csr_answer o h = ground (arith, h)

    -- The answers of the initializers at one world.
    abbrev pub answer : O → String × InitFunc O C Goroutine → Init C Goroutine
    answer o entry = (entry.1 o).0

    -- One initializer whose answers are all the same.
    constant :
        (f : InitFunc O C Goroutine) (o : O) {expected : Init C Goroutine}
        → ((o' : O) → (f o').0 ≡ expected)
        → expected.error ≡ none
        → ((o' : O) → (f o').0 ≡ (f o).0) × ((f o).0.error ≡ none)
    constant f o e fine = (λ o'. e o' ∙ sym (e o), rw (e o) fine)

    pub settled :
        {D H : Type 0} (offers : Offers C D H) (o : O)
        → Works gc
        → Absent c.csr_signing_controller.kube_apiserver_client
        → Absent c.csr_signing_controller.legacy_unknown
        → c.csr_signing_controller.cluster_signing_cert_file ≢ ""
        → c.csr_signing_controller.cluster_signing_key_file ≢ ""
        → c.root_ca_file ≡ ""
        → Settled offers (answer o) (new_controller_initializers k c)
          × (launched offers (answer o) (new_controller_initializers k c) ≡ expected_goroutines c)
    unfolding launched start_csr_approving_controller start_csr_cleaner_controller gc_expected
    settled offers o (ns, gcm, gcn, bs, tc, pub', makes) a b cert key ca =
        let csr = csr_signing-starts k.new_signer c.csr_signing_controller a b cert key makes in
        (
          (
            constant (start_namespace_controller k c) o (λ o'. namespace_answer o' (ns o')) refl,
            (
              constant (start_garbage_collector_controller k c) o (λ o'. gc_answer o' gcm gcn)
                  (ground arith),
              (
                constant (start_csr_signing k c) o (λ o'. csr_answer o' csr) refl,
                (
                  (λ o'. refl, refl),
                  (
                    (λ o'. refl, refl),
                    (
                      constant (start_bootstrap_signer_controller k c) o
                          (λ o'. bootstrap_answer o' (bs o')) refl,
                      (
                        constant (start_token_cleaner_controller k c) o
                            (λ o'. token_answer o' (tc o')) refl,
                        (
                          constant (start_root_ca_cert_publisher k c) o
                              (λ o'. publisher_answer o' ca (pub' k.ca_data o')) refl,
                          tt,
                        ),
                      ),
                    ),
                  ),
                ),
              ),
            ),
          ),
          rw
              (
                namespace_answer o (ns o),
                gc_answer o gcm gcn,
                csr_answer o csr,
                bootstrap_answer o (bs o),
                token_answer o (tc o),
                publisher_answer o ca (pub' k.ca_data o),
              )
              (ground arith),
        )
