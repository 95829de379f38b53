-- ===== src/KubeControllers/Initializers.antt =====
-- core.go, bootstrap.go, certificates.go: the functions that start the controllers.
-- controllermanager.go: NewControllerInitializers and readCA.
pub mod Answers
use Prim.Native.String
use hohapiserver.Base.{
  ℕ, String, ◌==◌, if◌then◌else◌, Bool, true, false, not, Option, none, some, ◌⊎◌, inl, inr, List,
  [], ◌∷◌, map,
}
use hohapiserver.ApiServer.Ints.{ℤ}
use hohapiserver.KubeControllers.Signing.{
  SigningConfig, SigningFiles, Signer, kube_apiserver_client_signer, legacy_unknown_signer,
  NewSigner, StartError, default_and_per_controller, not_started, skipped, running, start_error,
  Start, start_csr_signing_controller,
}
use hohapiserver.KubeControllers.Manager.{Init, InitFunc}

-- GarbageCollectorControllerConfiguration; a resource to ignore is a group and a resource.
pub record GcConfig : Type 0 where
  pub concurrent_gc_syncs : ℤ
  pub gc_ignored_resources : List (String × String)
  pub enable_garbage_collector : Bool

-- NamespaceControllerConfiguration; the period in nanoseconds.
pub record NamespaceConfig : Type 0 where
  pub namespace_sync_period : ℤ
  pub concurrent_namespace_syncs : ℤ

-- KubeControllerManagerConfiguration: the parts that are read; N is the generic part.
pub record ComponentConfig (N : Type 0) : Type 0 where
  pub generic : N
  pub csr_signing_controller : SigningConfig
  pub garbage_collector_controller : GcConfig
  pub namespace_controller : NamespaceConfig
  -- SAController.RootCAFile
  pub root_ca_file : String

-- What is started with `go`.
pub data Goroutine : Type 0 where
  namespace_workers : ℤ → ℤ → Goroutine
  gc_workers : ℤ → Goroutine
  gc_sync : Goroutine
  signer_workers : Signer → SigningFiles → Goroutine
  approver cleaner bootstrap_signer token_cleaner : Goroutine
  root_ca_publisher : List ℕ → Goroutine

-- The constructors of the controllers, on the world outside, and the files that they read. The rate limits
-- of their clients are left out.
pub record Constructors (O C : Type 0) : Type 0 where
  pub namespace_metadata_client : O → Option String × O
  pub gc_metadata_client : O → Option String × O
  pub new_garbage_collector : List (String × String) → O → (String ⊎ C) × O
  pub new_signer : NewSigner
  pub new_bootstrap_signer : O → Option String × O
  pub new_token_cleaner : O → Option String × O
  pub new_publisher : List ℕ → O → Option String × O
  pub read_file : String → O → (String ⊎ List ℕ) × O
  pub parse_certs_error : List ℕ → Option String
  -- CAData of ConfigOrDie
  pub ca_data : List ℕ

-- The results (nil, true, err), (nil, true, nil) and (nil, false, …).
abbrev pub failing : {C : Type 0} → Bool → String → Init C Goroutine
failing enabled e = record { controller = none; enabled = enabled; error = some e; goroutines = [] }

abbrev pub anonymous : {C : Type 0} → Bool → List Goroutine → Init C Goroutine
anonymous enabled gs = record {
  controller = none;
  enabled = enabled;
  error = none;
  goroutines = gs;
}

-- `if err != nil { return nil, true, fmt.Errorf(prefix, err) }`, and what is started otherwise.
abbrev pub unless_failing :
    {C : Type 0} → Option String → String → List Goroutine → Init C Goroutine
unless_failing none prefix gs = anonymous true gs
unless_failing (some e) prefix gs = failing true (String.◌++◌ prefix e)

abbrev signer_name : Signer → String
signer_name kube_apiserver_client_signer = "kubernetes.io/kube-apiserver-client"
signer_name legacy_unknown_signer = "kubernetes.io/legacy-unknown"

abbrev start_error_text : StartError → String
start_error_text default_and_per_controller =
    "cannot specify default and per controller certs at the same time"
start_error_text (not_started s e) =
    String.◌++◌ (String.◌++◌ "failed to start " (signer_name s))
      (String.◌++◌ " certificate controller: " e)

module _ {O C N : Type 0} (k : Constructors O C) (config : ComponentConfig N) where
  -- startNamespaceController and startModifiedNamespaceController
  unfoldable pub start_namespace_controller : InitFunc O C Goroutine
  start_namespace_controller o =
      let (error, o') = k.namespace_metadata_client o in
      (
        unless_failing error "" (
            namespace_workers config.namespace_controller.namespace_sync_period
              config.namespace_controller.concurrent_namespace_syncs
            ∷ []),
        o',
      )

  -- startGarbageCollectorController
  unfoldable pub start_garbage_collector_controller : InitFunc O C Goroutine
  start_garbage_collector_controller o =
      if not config.garbage_collector_controller.enable_garbage_collector
      then (anonymous false [], o)
      else let (error, o') = k.gc_metadata_client o in
        elim error [
          | some e ↦ (failing true e, o')
          | none ↦
              let (made, o'') =
                k.new_garbage_collector config.garbage_collector_controller.gc_ignored_resources
                  o' in
              elim made [
                | inl e ↦ (
                  failing true (String.◌++◌ "failed to start the generic garbage collector: " e),
                  o'',
                )
                | inr gc ↦ (
                  record {
                    controller = some gc;
                    enabled = true;
                    error = none;
                    goroutines =
                        gc_workers config.garbage_collector_controller.concurrent_gc_syncs
                        ∷ gc_sync
                        ∷ [];
                  },
                  o'',
                )
              ]
        ]

  -- What startCSRSigningController returns.
  unfoldable pub start_csr_signing : InitFunc O C Goroutine
  start_csr_signing o =
      let started = start_csr_signing_controller k.new_signer config.csr_signing_controller in
      (
        elim started.result [
          | skipped ↦ anonymous false []
          | running ↦ anonymous true (map (λ s. signer_workers s.0 s.1) started.signers)
          | start_error e ↦ record {
            controller = none;
            enabled = false;
            error = some (start_error_text e);
            goroutines = map (λ s. signer_workers s.0 s.1) started.signers;
          }
        ],
        o,
      )

  -- startCSRApprovingController and startCSRCleanerController
  unfoldable pub start_csr_approving_controller : InitFunc O C Goroutine
  start_csr_approving_controller o = (anonymous true (approver ∷ []), o)

  unfoldable pub start_csr_cleaner_controller : InitFunc O C Goroutine
  start_csr_cleaner_controller o = (anonymous true (cleaner ∷ []), o)

  -- startBootstrapSignerController and startTokenCleanerController
  unfoldable pub start_bootstrap_signer_controller : InitFunc O C Goroutine
  start_bootstrap_signer_controller o =
      let (error, o') = k.new_bootstrap_signer o in
      (
        unless_failing error "error creating BootstrapSigner controller: " (bootstrap_signer ∷ []),
        o',
      )

  unfoldable pub start_token_cleaner_controller : InitFunc O C Goroutine
  start_token_cleaner_controller o =
      let (error, o') = k.new_token_cleaner o in
      (unless_failing error "error creating TokenCleaner controller: " (token_cleaner ∷ []), o')

  -- readCA
  read_ca : String → O → (String ⊎ List ℕ) × O
  read_ca file o =
      let (content, o') = k.read_file file o in
      (
        elim content [
          | inl e ↦ inl e
          | inr bytes ↦ elim (k.parse_certs_error bytes) [ some e ↦ inl e | none ↦ inr bytes ]
        ],
        o',
      )

  -- startRootCACertPublisher
  unfoldable pub start_root_ca_cert_publisher : InitFunc O C Goroutine
  unfolding read_ca
  start_root_ca_cert_publisher o =
      let (root_ca, o') =
        if config.root_ca_file == "" then (inr k.ca_data, o) else read_ca config.root_ca_file o in
      elim root_ca [
        | inl e ↦ (
          failing true (
              String.◌++◌ (String.◌++◌ "error parsing root-ca-file at " config.root_ca_file)
                (String.◌++◌ ": " e)),
          o',
        )
        | inr bytes ↦
            let (error, o'') = k.new_publisher bytes o' in
            (
              unless_failing error "error creating root CA certificate publisher: "
                  (root_ca_publisher bytes ∷ []),
              o'',
            )
      ]

  -- NewControllerInitializers
  abbrev pub new_controller_initializers : List (String × InitFunc O C Goroutine)
  new_controller_initializers =
      ("namespace", start_namespace_controller)
      ∷ ("garbagecollector", start_garbage_collector_controller)
      ∷ ("csrsigning", start_csr_signing)
      ∷ ("csrapproving", start_csr_approving_controller)
      ∷ ("csrcleaner", start_csr_cleaner_controller)
      ∷ ("bootstrapsigner", start_bootstrap_signer_controller)
      ∷ ("tokencleaner", start_token_cleaner_controller)
      ∷ ("root-ca-cert-publisher", start_root_ca_cert_publisher)
      ∷ []
