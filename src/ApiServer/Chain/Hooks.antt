-- ===== src/ApiServer/Chain/Hooks.antt =====
-- The server for extensions and the aggregator: the hooks that the aggregator is given, in their order.
use hohapiserver.Base.{
  String, ◌≡◌, refl, sym, ◌≢◌, ◌∙◌, none, some, ◌⊎◌, inl, inr, List, [], ◌∷◌, value_or,
  unless_error, Ends, >>=-Ends, value_or-Ends, unless_error-Ends, Ends-weaken,
}
use hohapiserver.ApiServer.Sets.{set_of}
use hohapiserver.ApiServer.Aggregator.{Registration, api_services_to_register, service_names}
use hohapiserver.ApiServer.Aggregator.Laws.{service_names-registered}
use hohapiserver.ApiServer.Generic.{Parts, GenericConfig, HookMap, Heap}
use hohapiserver.ApiServer.Generic.Build.{Options, deref}
use hohapiserver.ApiServer.Generic.Build.Ending.{deref-Ends, Extends}
use hohapiserver.ApiServer.Server.Config.{ExtraConfig}
use hohapiserver.ApiServer.Chain.Maps.{
  create_api_extensions_config-Ends, create_aggregator_config-Ends,
}
use hohapiserver.ApiServer.Chain.{
  ServerHook, autoregistration, kube_controllers, global_hub_crds, global_hub_controllers,
  AggregatorConfig, Chaining, create_api_extensions_config, create_aggregator_config, client_or_nil,
  create_aggregator_server, auth_wrapper, extensions_server, aggregator_server,
}

-- How a server comes from the one that was made: by the calls of AddPostStartHook that succeeded, the latest
-- first, and by health checks.
pub data Added {P : Parts} (lib : Chaining P) (made : P.Server)
    : List (String × ServerHook P.DynamicClient) → P.Server → Type 0 where
  start : Added lib made [] made
  hooked :
      {hooks : List (String × ServerHook P.DynamicClient)} {server next : P.Server} (name : String)
      (hook : ServerHook P.DynamicClient)
      → Added lib made hooks server
      → lib.add_server_hook name hook server ≡ inr next
      → Added lib made ((name, hook) ∷ hooks) next
  checked :
      {hooks : List (String × ServerHook P.DynamicClient)} {server next : P.Server} (name : String)
      (services : List String)
      → Added lib made hooks server
      → lib.add_boot_check name services server ≡ inr next
      → Added lib made hooks next

-- The hooks of the aggregator, the latest first.
abbrev pub aggregator_hooks :
    {P : Parts}
    → Chaining P
    → AggregatorConfig P
    → P.Server
    → String
    → String
    → List (String × ServerHook P.DynamicClient)
aggregator_hooks lib c delegate cert key =
    let client = client_or_nil lib (lib.new_dynamic_client c.config.loopback) in
    ("global-hub-controllers", global_hub_controllers client)
    ∷ ("global-hub-crds", global_hub_crds client)
    ∷ ("kube-controller", kube_controllers c.config.loopback cert key)
    ∷ (
      "kube-apiserver-autoregistration",
      autoregistration
          (Registration.services (api_services_to_register (lib.listed_paths delegate)))
          (lib.crds_enabled c.config.merged_resource_config),
    )
    ∷ []

-- The aggregator over a delegate, made with an empty map of hooks.
abbrev pub Aggregated : {P : Parts} → Chaining P → Options P → P.Server → P.Server → Type 0
Aggregated {P} lib s delegate server =
    (c : AggregatorConfig P) × (cert : P.ClientCert) × (made : P.Server)
    × (s.authentication.client_cert ≡ some cert)
    × (lib.new_aggregator c [] delegate ≡ inr made)
    × Added lib made (aggregator_hooks lib c delegate (lib.client_ca_file cert) s.client_key_file)
        server

module _ {P : Parts} {X : Type 0} (lib : Chaining P) where
  hook_added-Ends :
      (made : P.Server) (hooks : List (String × ServerHook P.DynamicClient)) (name : String)
      (hook : ServerHook P.DynamicClient) (server : P.Server) (h h' : Heap P)
      → Added lib made hooks server
      → h' ≡ h
      → Ends X
          (λ next h''. Added lib made ((name, hook) ∷ hooks) next × (h'' ≡ h))
          (value_or (lib.add_server_hook name hook server) h')
  hook_added-Ends made hooks name hook server h h' added e =
      value_or-Ends (lib.add_server_hook name hook server) h'
        λ next q. (hooked name hook added q, e)

  create_aggregator_server-Ends :
      (c : AggregatorConfig P) (hooks : HookMap P) (delegate : P.Server) (cert key : String)
      (h : Heap P)
      → Ends X
          (λ server h'.
            ((made : P.Server) × (lib.new_aggregator c hooks delegate ≡ inr made)
              × Added lib made (aggregator_hooks lib c delegate cert key) server)
            × (h' ≡ h))
          (create_aggregator_server lib c hooks delegate cert key h)
  unfolding create_aggregator_server
  create_aggregator_server-Ends c hooks delegate cert key h =
      let paths = lib.listed_paths delegate in
      let services = Registration.services (api_services_to_register paths) in
      let error = lib.registration_client_error c.config.loopback in
      let client = client_or_nil lib (lib.new_dynamic_client c.config.loopback) in
      let auto = autoregistration services (lib.crds_enabled c.config.merged_resource_config) in
      let kube = kube_controllers c.config.loopback cert key in
      >>=-Ends {Q = λ s h'. (lib.new_aggregator c hooks delegate ≡ inr s) × (h' ≡ h)}
        (value_or (lib.new_aggregator c hooks delegate)) _ h
        (value_or-Ends (lib.new_aggregator c hooks delegate) h λ s e. (e, refl))
        λ made h1 r1.
          >>=-Ends {Q = λ u h'. h' ≡ h} (unless_error error) _ h1 (unless_error-Ends error h1 r1.1)
            λ u h2 t2.
              >>=-Ends (value_or (lib.add_server_hook "kube-apiserver-autoregistration" auto made))
                _ h2
                (hook_added-Ends made [] "kube-apiserver-autoregistration" auto made h h2 start t2)
                λ s3 h3 r3.
                  >>=-Ends (deref (service_names services)) _ h3
                    (deref-Ends (service_names services) h3 (inl (service_names-registered paths)))
                    λ names h4 r4.
                      let checking =
                        lib.add_boot_check "autoregister-completion" (set_of names) s3 in
                      >>=-Ends
                        {Q = λ s h'.
                          Added lib made (("kube-apiserver-autoregistration", auto) ∷ []) s
                          × (h' ≡ h)}
                        (value_or checking) _ h4
                        (value_or-Ends checking h4 λ s e.
                          (checked "autoregister-completion" (set_of names) r3.0 e, r4.1 ∙ r3.1))
                        λ s5 h5 r5.
                          >>=-Ends (value_or (lib.add_server_hook "kube-controller" kube s5)) _ h5
                            (hook_added-Ends made _ "kube-controller" kube s5 h h5 r5.0 r5.1)
                            λ s6 h6 r6.
                              >>=-Ends
                                (value_or (
                                  lib.add_server_hook "global-hub-crds" (global_hub_crds client)
                                    s6))
                                _ h6
                                (hook_added-Ends made _ "global-hub-crds" (global_hub_crds client)
                                  s6 h h6 r6.0 r6.1)
                                λ s7 h7 r7.
                                  Ends-weaken
                                    (hook_added-Ends made _ "global-hub-controllers"
                                      (global_hub_controllers client) s7 h h7 r7.0 r7.1)
                                    λ s8 h8 r8. ((made, r1.0, r8.0), r8.1)

  pub extensions_server-Ends :
      (k : ExtraConfig P) (h : Heap P) → Ends X (λ p h'. Extends h h') (extensions_server lib k h)
  unfolding extensions_server
  extensions_server-Ends k h =
      >>=-Ends
        (create_api_extensions_config lib k.built.config k.built.informers k.built.initializers 1
          k.built.resolver (auth_wrapper lib k))
        _ h
        (create_api_extensions_config-Ends lib k.built.config k.built.informers k.built.initializers
          1 k.built.resolver (auth_wrapper lib k) h)
        λ c h1 r1.
          value_or-Ends
            (lib.new_extensions_server c (h1.maps c.hooks) (lib.not_found_delegate k.built.config))
            h1 λ p e. r1.extends

  pub aggregator_server-Ends :
      (s : Options P) (k : ExtraConfig P) (made : P.Server × GenericConfig P) (h : Heap P)
      → (s.authentication.client_cert ≢ none) ⊎ X
      → Ends X
          (λ server h'. Aggregated lib s made.0 server × Extends h h')
          (aggregator_server lib s k made h)
  unfolding aggregator_server
  aggregator_server-Ends s k (delegate, config) h given =
      >>=-Ends
        (create_aggregator_config lib config k.built.informers k.built.resolver k.proxy_dialer
          k.built.initializers)
        _ h
        (create_aggregator_config-Ends lib config k.built.informers k.built.resolver k.proxy_dialer
          k.built.initializers h)
        λ c h1 r1.
          >>=-Ends (deref s.authentication.client_cert) _ h1
            (deref-Ends s.authentication.client_cert h1 given)
            λ cert h2 r2.
              Ends-weaken
                (create_aggregator_server-Ends c (h2.maps c.hooks) delegate
                  (lib.client_ca_file cert) s.client_key_file h2)
                λ server h3 r3.
                  let same = r3.1 ∙ r2.1 in
                  let ((made, new, added), _) = r3 in
                  (
                    (c, cert, made, r2.0, rw (sym r1.empty) (rw (sym r2.1) new), added),
                    rw same r1.extends,
                  )
