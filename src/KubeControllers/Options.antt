-- ===== src/KubeControllers/Options.antt =====
-- options/options.go, namespacecontroller.go and garbagecollectorcontroller.go: the options of the
-- controllers, their validation and the configuration that they become.
use hohapiserver.Base.{String, Option, none, some, ◌⊎◌, inl, inr, List, [], ◌++◌}
use hohapiserver.ApiServer.Ints.{pos}
use hohapiserver.Base.{false}
use hohapiserver.KubeControllers.Signing.{
  SigningFiles, SigningConfig, OptionsError, validate, apply_to,
}
use hohapiserver.KubeControllers.Initializers.{GcConfig, NamespaceConfig, ComponentConfig}

-- KubeControllerManagerOptions without its metrics and logs: a nil pointer is `none`.
pub record KubeOptions (N : Type 0) : Type 0 where
  pub generic : N
  pub csr_signing : Option SigningConfig
  pub garbage_collector : Option GcConfig
  pub namespace : Option NamespaceConfig

-- The defaults of the scheme, an error or a configuration; the resources that the garbage collector ignores
-- by default; ApplyTo of the generic options; and clientset.NewForConfig.
pub record Defaults (N : Type 0) : Type 0 where
  pub component_config : String ⊎ ComponentConfig N
  pub ignored_resources : List (String × String)
  pub apply_generic : N → N → String ⊎ N
  pub zero_generic : N
  pub client_error : Option String

-- ApplyTo of NamespaceControllerOptions and GarbageCollectorControllerOptions
unfoldable pub apply_namespace : Option NamespaceConfig → NamespaceConfig → NamespaceConfig
apply_namespace none cfg = cfg
apply_namespace (some o) cfg = record cfg {
  namespace_sync_period = o.namespace_sync_period;
  concurrent_namespace_syncs = o.concurrent_namespace_syncs;
}

unfoldable pub apply_gc : Option GcConfig → GcConfig → GcConfig
apply_gc none cfg = cfg
apply_gc (some o) cfg = record cfg {
  concurrent_gc_syncs = o.concurrent_gc_syncs;
  gc_ignored_resources = o.gc_ignored_resources;
  enable_garbage_collector = o.enable_garbage_collector;
}

-- Validate of both: there is nothing to report.
unfoldable pub validate_namespace : Option NamespaceConfig → List OptionsError
validate_namespace none = []
validate_namespace (some o) = []

unfoldable pub validate_gc : Option GcConfig → List OptionsError
validate_gc none = []
validate_gc (some o) = []

-- KubeControllerManagerOptions.Validate
unfoldable pub validate_options : {N : Type 0} → KubeOptions N → List OptionsError
validate_options s =
    (validate s.csr_signing ++ validate_gc s.garbage_collector) ++ validate_namespace s.namespace

abbrev no_files : SigningFiles
no_files = record { cert_file = ""; key_file = "" }

-- The configuration with every field zero.
abbrev pub zero_config : {N : Type 0} → N → ComponentConfig N
zero_config n = record {
  generic = n;
  csr_signing_controller = record {
    cluster_signing_cert_file = "";
    cluster_signing_key_file = "";
    kubelet_serving = no_files;
    kubelet_client = no_files;
    kube_apiserver_client = no_files;
    legacy_unknown = no_files;
    cluster_signing_duration = 0;
  };
  garbage_collector_controller = record {
    concurrent_gc_syncs = pos 0;
    gc_ignored_resources = [];
    enable_garbage_collector = false;
  };
  namespace_controller = record {
    namespace_sync_period = pos 0;
    concurrent_namespace_syncs = pos 0;
  };
  root_ca_file = "";
}

module _ {N : Type 0} (defaults : Defaults N) where
  -- NewKubeControllerManagerOptions
  unfoldable pub new_kube_controller_manager_options : String ⊎ KubeOptions N
  new_kube_controller_manager_options = elim defaults.component_config [
    | inl e ↦ inl e
    | inr c ↦ inr (record {
      generic = c.generic;
      csr_signing = some c.csr_signing_controller;
      garbage_collector = some (record c.garbage_collector_controller {
        gc_ignored_resources = defaults.ignored_resources;
      });
      namespace = some c.namespace_controller;
    })
  ]

  -- KubeControllerManagerOptions.ApplyTo
  unfoldable pub apply_options : KubeOptions N → ComponentConfig N → String ⊎ ComponentConfig N
  apply_options s c = elim (defaults.apply_generic s.generic c.generic) [
    | inl e ↦ inl e
    | inr g ↦ inr (record c {
      generic = g;
      csr_signing_controller = apply_to s.csr_signing c.csr_signing_controller;
      garbage_collector_controller = apply_gc s.garbage_collector c.garbage_collector_controller;
      namespace_controller = apply_namespace s.namespace c.namespace_controller;
    })
  ]

  -- Config: the component configuration that it makes.
  unfoldable pub config : KubeOptions N → String ⊎ ComponentConfig N
  config s = elim defaults.client_error [
    | some e ↦ inl e
    | none ↦ apply_options s (zero_config defaults.zero_generic)
  ]
