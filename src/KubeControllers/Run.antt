-- ===== src/KubeControllers/Run.antt =====
-- controllermanager.go: GetAvailableResources, CreateControllerContext, Run and RunKubeControllers.
pub mod Laws
use hohapiserver.Base.{
  String, if◌then◌else◌, Option, none, some, ◌⊎◌, inl, inr, List, [], ◌∷◌, ◌++◌, map,
}
use hohapiserver.KubeControllers.Signing.{SigningConfig}
use hohapiserver.KubeControllers.Manager.{InitFunc, Offers, Manager, start_controllers}
use hohapiserver.KubeControllers.Initializers.{
  ComponentConfig, Goroutine, Constructors, new_controller_initializers,
}
use hohapiserver.KubeControllers.Options.{
  KubeOptions, Defaults, new_kube_controller_manager_options, config,
}

-- schema.GroupVersionResource; an APIResourceList names its group and version in one string.
pub record Resource : Type 0 where
  pub group : String
  pub version : String
  pub resource : String

abbrev pub ResourceLists : Type 0
ResourceLists = List (String × List String)

-- schema.ParseGroupVersion: an error, or the group and the version.
abbrev pub ParseGroupVersion : Type 0
ParseGroupVersion = String → String ⊎ (String × String)

-- The loop of GetAvailableResources; the map to true is the list of its keys.
available_loop : ParseGroupVersion → ResourceLists → String ⊎ List Resource
available_loop parse [] = inr []
available_loop parse ((group_version, names) ∷ rest) = elim (parse group_version) [
  | inl e ↦ inl e
  | inr (group, version) ↦ elim (available_loop parse rest) [
    | inl e ↦ inl e
    | inr later ↦
        inr (
          map (λ name. record { group = group; version = version; resource = name }) names ++ later)
  ]
]

-- GetAvailableResources, from the lists that ServerGroupsAndResources answers; its error is only logged.
unfoldable pub get_available_resources : ParseGroupVersion → ResourceLists → String ⊎ List Resource
unfolding available_loop
get_available_resources parse [] = inl "unable to get any supported resources from server"
get_available_resources parse (list ∷ lists) = available_loop parse (list ∷ lists)

-- ControllerContext, as far as it is read.
pub record Context (N : Type 0) : Type 0 where
  pub component_config : ComponentConfig N
  pub available_resources : List Resource

-- What klog.Fatalf ends the process with, or the controllers run and the informers are started: Run waits
-- then for a stop that never comes.
pub data Ended : Type 0 where
  fatal : String → Ended
  started : Ended

module _ {O C D H N : Type 0} (k : Constructors O C) (offers : Offers C D H) (defaults : Defaults N)
    (parse : ParseGroupVersion) (lists : ResourceLists)
    (iterate : List (String × InitFunc O C Goroutine)
      → List (String × InitFunc O C Goroutine)) where
  -- CreateControllerContext
  create_controller_context : ComponentConfig N → String ⊎ Context N
  create_controller_context c = elim (get_available_resources parse lists) [
    | inl e ↦ inl e
    | inr resources ↦ inr (record { component_config = c; available_resources = resources })
  ]

  -- Run; the map of the initializers is gone over in the order that `iterate` gives.
  unfoldable pub run : ComponentConfig N → Manager O Goroutine D H → Ended × Manager O Goroutine D H
  unfolding create_controller_context
  run c m = elim (create_controller_context c) [
    | inl e ↦ (fatal e, m)
    | inr context ↦
        let initializers = new_controller_initializers k context.component_config in
        let (error, m') = start_controllers offers (iterate initializers) m in
        elim error [ some e ↦ (fatal e, m') | none ↦ (started, m') ]
  ]

  abbrev with_cluster_files : String → String → KubeOptions N → KubeOptions N
  with_cluster_files cert key s = elim s.csr_signing [
    | none ↦ s
    | some o ↦ record s {
      csr_signing =
          some (record o { cluster_signing_cert_file = cert; cluster_signing_key_file = key });
    }
  ]

  -- RunKubeControllers
  unfoldable pub run_kube_controllers :
      String → String → Manager O Goroutine D H → Ended × Manager O Goroutine D H
  run_kube_controllers client_cert client_key m =
      elim (new_kube_controller_manager_options defaults) [
        | inl e ↦ (fatal e, m)
        | inr s ↦ elim (config defaults (with_cluster_files client_cert client_key s)) [
          | inl e ↦ (fatal e, m)
          | inr c ↦ run c m
        ]
      ]
