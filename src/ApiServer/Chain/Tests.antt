-- ===== src/ApiServer/Chain/Tests.antt =====
-- The chain of API servers at concrete options, with calls of the libraries that succeed.
use hohapiserver.Base.{String, ◌≡◌, refl, true, none, some, List, [], ◌∷◌, returned, elem}
use hohapiserver.ApiServer.Ints.{pos, positive, sum, wrap64, quarter}
use hohapiserver.ApiServer.Authentication.Config.{apply_authentication, to_authentication_config}
use hohapiserver.ApiServer.Server.Config.{public_keys, extra_config, create_kube_api_server_config}
use hohapiserver.ApiServer.Sets.{set_of}
use hohapiserver.ApiServer.Aggregator.{
  api_services_to_register, service_of_path, make_api_service, priority_of, service_names,
}
use hohapiserver.ApiServer.Generic.{Heap}
use hohapiserver.ApiServer.Generic.Build.{
  Built, apply_options, apply_storage, secured, authenticated, apply_to_fields, authorized,
  build_authorizer, egress_dial, build_service_resolver, with_flow_control,
  build_priority_and_fairness, build_generic_config,
}
use hohapiserver.ApiServer.Generic.Build.Ending.{build_generic_config-flow_control}
use hohapiserver.ApiServer.Chain.{
  create_api_extensions_config, create_aggregator_config, create_aggregator_server,
  extensions_server, aggregator_server, create_server_chain,
}
use hohapiserver.ApiServer.Chain.Laws.{Chained, create_server_chain-Chained}
use hohapiserver.ApiServer.Chain.Samples.{parts, empty_config, calls, chaining, no_maps, options}

abbrev heap_after : Heap parts
unfolding build_generic_config apply_options apply_storage secured authenticated apply_to_fields
    authorized build_authorizer egress_dial build_service_resolver with_flow_control
    build_priority_and_fairness apply_authentication to_authentication_config elem sum wrap64
    quarter
heap_after = (build_generic_config calls options no_maps).1

abbrev built : Built parts
built = record {
  hooks = 0;
  config = record empty_config {
    loopback = some (record {
      host = "https://localhost:6443";
      content_type = "application/vnd.kubernetes.protobuf";
      disable_compression = true;
    });
    has_open_api_v3 = true;
    authentication = record {
      api_audiences = "https://hub.example.com" ∷ [];
      client_cas = [];
      authenticator = some "authenticator";
      security_definitions = some "definitions";
      v3_definitions = some "definitions";
    };
    authorizer = some "authorizer";
    disabled_post_start_hooks = "rbac/bootstrap-roles" ∷ [];
    flow_control = some (pos 600, pos 15000000000);
  };
  informers = "informers";
  resolver = "loopback";
  initializers = [];
  admission_hook = "initializer";
  storage_factory = record { factory = "factory"; egress_lookup = none; tracer = none };
}

builds : build_generic_config calls options no_maps ≡ (returned built, heap_after)
unfolding build_generic_config apply_options apply_storage secured authenticated apply_to_fields
    authorized build_authorizer egress_dial build_service_resolver with_flow_control
    build_priority_and_fairness apply_authentication to_authentication_config elem sum wrap64
    quarter
builds = refl

build_generic_config-flow_control_example :
    (client : String) × (positive (wrap64 (sum (pos 400) (pos 200))) ≡ true)
    × (built.config.flow_control
        ≡ some (
            calls.new_flow_control built.informers client
              (wrap64 (sum (pos 400) (pos 200)))
              (quarter (pos 60000000000))))
build_generic_config-flow_control_example =
    build_generic_config-flow_control calls options no_maps heap_after built builds refl refl

abbrev aggregator : List String
aggregator =
    "global-hub-controllers" ∷ "global-hub-crds" ∷ "kube-controller"
    ∷ "kube-apiserver-autoregistration" ∷ []

abbrev chain_after : Heap parts
unfolding heap_after create_server_chain create_kube_api_server_config extra_config public_keys
    extensions_server aggregator_server create_api_extensions_config create_aggregator_config
    create_aggregator_server api_services_to_register service_of_path make_api_service priority_of
    service_names set_of
chain_after = (create_server_chain chaining options no_maps).1

chains : create_server_chain chaining options no_maps ≡ (returned aggregator, chain_after)
unfolding heap_after create_server_chain create_kube_api_server_config extra_config public_keys
    extensions_server aggregator_server create_api_extensions_config create_aggregator_config
    create_aggregator_server api_services_to_register service_of_path make_api_service priority_of
    service_names set_of
chains = refl

create_server_chain-Chained_example : Chained chaining options no_maps aggregator chain_after
create_server_chain-Chained_example =
    create_server_chain-Chained chaining options no_maps chain_after aggregator chains
