-- ===== src/KubeControllers/Tests.antt =====
-- The certificate signers at concrete options.
use mathlib.Core.List.{Perm}
use mathlib.Core.List.Perm
use hohapiserver.ApiServer.Ints.{pos}
use hohapiserver.Base.{
  arith, eq_iff, List, String, true, false, ◌≡◌, refl, inl, inr, none, some, [], ◌∷◌,
}
use hohapiserver.KubeControllers.Signing.{
  SigningFiles, SigningConfig, csr_signing_files_valid, single_signing_file, any_of_four_set,
  validate, invalid_files, cert_without_key, kube_apiserver_client_signer, legacy_unknown_signer,
  cluster_files, running, NewSigner, start_csr_signing_controller,
}
use hohapiserver.KubeControllers.Signing.{any_specific_files_set}
use hohapiserver.KubeControllers.Manager.{InitFunc, Offers, Manager}
use hohapiserver.KubeControllers.Initializers.{
  ComponentConfig, Goroutine, Constructors, anonymous, start_csr_signing,
}
use hohapiserver.KubeControllers.Initializers.Answers.{expected_goroutines}
use hohapiserver.KubeControllers.Options.{Defaults, zero_config}
use hohapiserver.KubeControllers.Run.{
  ResourceLists, ParseGroupVersion, get_available_resources, started, run_kube_controllers,
}
use hohapiserver.KubeControllers.Run.Laws.{configured, run_kube_controllers-Perm}
use hohapiserver.KubeControllers.Signing.Laws.{validate_iff, start_of_valid}

abbrev no_files : SigningFiles
no_files = record { cert_file = ""; key_file = "" }

abbrev cluster_config : SigningConfig
cluster_config = record {
  cluster_signing_cert_file = "ca.crt";
  cluster_signing_key_file = "ca.key";
  kubelet_serving = no_files;
  kubelet_client = no_files;
  kube_apiserver_client = no_files;
  legacy_unknown = no_files;
  cluster_signing_duration = 31536000000000000;
}

abbrev making : NewSigner
making s f ttl = none

abbrev half_config : SigningConfig
half_config = record cluster_config {
  cluster_signing_cert_file = "";
  cluster_signing_key_file = "";
  kubelet_client = record { cert_file = "k.crt"; key_file = "" };
}

half_given :
    validate (some half_config)
    ≡ invalid_files "cluster-signing-kube-apiserver-client" cert_without_key ∷ []
unfolding validate csr_signing_files_valid single_signing_file any_of_four_set
half_given = refl

start_of_valid_example : start_csr_signing_controller making cluster_config ≡ record {
  result = running;
  signers =
      (kube_apiserver_client_signer, cluster_files cluster_config)
      ∷ (legacy_unknown_signer, cluster_files cluster_config)
      ∷ [];
}
start_of_valid_example =
    start_of_valid making cluster_config
      ((validate_iff cluster_config).1 (
        inl (refl, refl),
        inl (refl, refl),
        inl (refl, refl),
        inl (refl, refl),
        inr ((refl, refl), (refl, refl), (refl, refl), (refl, refl)),
      ))
      (λ s f ttl h k. refl)

abbrev all_works : Constructors (Unit {0}) String
all_works = record {
  namespace_metadata_client = λ o. (none, o);
  gc_metadata_client = λ o. (none, o);
  new_garbage_collector = λ ignored o. (inr "gc", o);
  new_signer = making;
  new_bootstrap_signer = λ o. (none, o);
  new_token_cleaner = λ o. (none, o);
  new_publisher = λ ca o. (none, o);
  read_file = λ file o. (inl "no such file", o);
  parse_certs_error = λ bytes. none;
  ca_data = 1 ∷ 2 ∷ [];
}

abbrev offers_check : Offers String (Unit {0}) String
offers_check = record { debugging_handler = λ c. none; health_checker = λ c. some c }

abbrev default_config : ComponentConfig (Unit {0})
default_config = record (zero_config tt) {
  csr_signing_controller = record cluster_config {
    cluster_signing_cert_file = "";
    cluster_signing_key_file = "";
  };
  garbage_collector_controller = record {
    concurrent_gc_syncs = pos 20;
    gc_ignored_resources = [];
    enable_garbage_collector = true;
  };
  namespace_controller = record {
    namespace_sync_period = pos 300000000000;
    concurrent_namespace_syncs = pos 10;
  };
}

abbrev some_defaults : Defaults (Unit {0})
some_defaults = record {
  component_config = inr default_config;
  ignored_resources = ("", "events") ∷ [];
  apply_generic = λ options target. inr options;
  zero_generic = tt;
  client_error = none;
}

abbrev parse_core : ParseGroupVersion
parse_core s = inr ("", s)

abbrev core_lists : ResourceLists
core_lists = ("v1", "pods" ∷ "secrets" ∷ []) ∷ []

core_resources :
    get_available_resources parse_core core_lists
    ≡ inr (
        record { group = ""; version = "v1"; resource = "pods" }
        ∷ record { group = ""; version = "v1"; resource = "secrets" }
        ∷ [])
unfolding get_available_resources
core_resources = refl

abbrev fresh : Manager (Unit {0}) Goroutine (Unit {0}) String
fresh = record { outer = tt; running = []; mux = none; health = [] }

abbrev in_order :
    List (String × InitFunc (Unit {0}) String Goroutine)
    → List (String × InitFunc (Unit {0}) String Goroutine)
in_order l = l

-- Without the key no signer is started, and nothing fails.
signing_skipped :
    (start_csr_signing all_works
      (record default_config {
        csr_signing_controller = record cluster_config { cluster_signing_key_file = "" };
      })
      tt).0
    ≡ anonymous false []
unfolding start_csr_signing start_csr_signing_controller any_specific_files_set
signing_skipped = refl

run_kube_controllers-Perm_example :
    let r =
      run_kube_controllers all_works offers_check some_defaults parse_core core_lists in_order
        "ca.crt" "ca.key" fresh in
    (r.0 ≡ started)
    × Perm r.1.running (
        expected_goroutines all_works
          (configured all_works some_defaults default_config tt "ca.crt" "ca.key"))
run_kube_controllers-Perm_example =
    run_kube_controllers-Perm all_works offers_check some_defaults parse_core core_lists in_order
      "ca.crt" "ca.key" fresh default_config tt "gc" _ refl refl refl core_resources (refl, refl)
      (refl, refl) (ground (arith, eq_iff "ca.crt" "")) (ground (arith, eq_iff "ca.key" ""))
      (λ o. refl, λ o. refl, λ i o. refl, λ o. refl, λ o. refl, λ c o. refl, λ s f t h h'. refl)
      (λ l. Perm.refl l)
