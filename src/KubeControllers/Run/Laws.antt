-- ===== src/KubeControllers/Run/Laws.antt =====
-- controllermanager.go: what RunKubeControllers starts.
use mathlib.Core.List.{Perm}
use hohapiserver.Base.{String, arith, ◌≡◌, refl, ◌≢◌, none, inr, List, ◌++◌, ◌∙◌}
use hohapiserver.KubeControllers.Signing.{apply_to}
use hohapiserver.KubeControllers.Signing.Laws.{Absent}
use hohapiserver.KubeControllers.Manager.{InitFunc, Offers, Manager, start_controllers}
use hohapiserver.KubeControllers.Manager.Order.{start_controllers-starts, start_controllers-Perm}
use hohapiserver.KubeControllers.Initializers.{
  ComponentConfig, Goroutine, Constructors, new_controller_initializers,
}
use hohapiserver.KubeControllers.Options.{
  Defaults, apply_namespace, apply_gc, new_kube_controller_manager_options, apply_options, config,
}
use hohapiserver.KubeControllers.Run.{
  Resource, ResourceLists, ParseGroupVersion, get_available_resources, started, run,
  run_kube_controllers,
}
use hohapiserver.KubeControllers.Initializers.Answers.{Works, expected_goroutines, answer, settled}

module _ {O C : Type 0} (k : Constructors O C) where
  -- The configuration that RunKubeControllers makes of the defaults.
  abbrev pub configured :
      {N : Type 0} → Defaults N → ComponentConfig N → N → String → String → ComponentConfig N
  configured defaults d g cert key = record {
    generic = g;
    csr_signing_controller = record d.csr_signing_controller {
      cluster_signing_cert_file = cert;
      cluster_signing_key_file = key;
    };
    garbage_collector_controller = record d.garbage_collector_controller {
      gc_ignored_resources = defaults.ignored_resources;
    };
    namespace_controller = d.namespace_controller;
    root_ca_file = "";
  }

  module _ {D H N : Type 0} (offers : Offers C D H) (defaults : Defaults N)
      (parse : ParseGroupVersion) (lists : ResourceLists)
      (iterate : List (String × InitFunc O C Goroutine)
        → List (String × InitFunc O C Goroutine)) where
    configures :
        (client_cert client_key : String) (m : Manager O Goroutine D H) (d : ComponentConfig N)
        (g : N)
        → defaults.component_config ≡ inr d
        → defaults.client_error ≡ none
        → defaults.apply_generic d.generic defaults.zero_generic ≡ inr g
        → run_kube_controllers k offers defaults parse lists iterate client_cert client_key m
          ≡ run k offers defaults parse lists iterate
              (configured defaults d g client_cert client_key)
              m
    unfolding run_kube_controllers new_kube_controller_manager_options config apply_options apply_to
        apply_gc apply_namespace
    configures client_cert client_key m d g h h' h'' = ground (arith, h, h', h'')

    runs :
        (c : ComponentConfig N) (m : Manager O Goroutine D H) (resources : List Resource)
        → get_available_resources parse lists ≡ inr resources
        → (start_controllers offers (iterate (new_controller_initializers k c)) m).0 ≡ none
        → run k offers defaults parse lists iterate c m
          ≡ (started, (start_controllers offers (iterate (new_controller_initializers k c)) m).1)
    unfolding run
    runs c m resources h e = ground (arith, h, e)

    -- With a client CA and its key, defaults that give no signer files of its own, resources that the API
    -- server knows, and constructors that do not fail, RunKubeControllers gets to the point where the
    -- informers are started, in whatever order the map of the controllers is gone over. Up to order it has
    -- started then exactly the expected goroutines: both signers with the client CA and its key, the garbage
    -- collector if it is enabled, and a publisher of the CA of the client.
    pub run_kube_controllers-Perm :
        (client_cert client_key : String) (m : Manager O Goroutine D H) (d : ComponentConfig N)
        (g : N) (gc : C) (resources : List Resource)
        → defaults.component_config ≡ inr d
        → defaults.client_error ≡ none
        → defaults.apply_generic d.generic defaults.zero_generic ≡ inr g
        → get_available_resources parse lists ≡ inr resources
        → Absent d.csr_signing_controller.kube_apiserver_client
        → Absent d.csr_signing_controller.legacy_unknown
        → client_cert ≢ ""
        → client_key ≢ ""
        → Works k gc
        → ((l : List (String × InitFunc O C Goroutine)) → Perm (iterate l) l)
        → let r =
            run_kube_controllers k offers defaults parse lists iterate client_cert client_key m in
          (r.0 ≡ started)
          × Perm r.1.running
              (m.running ++ expected_goroutines k (configured defaults d g client_cert client_key))
    run_kube_controllers-Perm client_cert client_key m d g gc resources h h' h'' hr a b cert key
          works iterates =
        let c = configured defaults d g client_cert client_key in
        let entries = new_controller_initializers k c in
        let (fixed, all_launched) = settled k c gc offers m.outer works a b cert key refl in
        let (e, e', alike, health) =
          start_controllers-Perm offers (answer k c gc m.outer) (iterate entries) entries m
            (iterates entries) fixed in
        let (e'', exact, checks) =
          start_controllers-starts offers (answer k c gc m.outer) entries m fixed in
        let same = configures client_cert client_key m d g h h' h'' ∙ runs c m resources hr e in
        (rw same refl, rw same (rw⁻¹ all_launched (rw⁻¹ exact alike)))
