-- ===== src/ApiServer/Chain/Main/Tests.antt =====
-- Run and main at concrete options, with calls of the libraries that succeed.
use hohapiserver.Etcd as EmbeddedServer
use hohapiserver.Etcd.{etcd_config, touch, serve}
use hohapiserver.Etcd.Certificates.{
  generate_client_and_server_certs, draw_material, write_material, write_files, cert_to_file,
  ec_private_key_to_file,
}
use hohapiserver.ApiServer.Ints.{sum, wrap64, quarter}
use hohapiserver.ApiServer.Authentication.Config.{apply_authentication, to_authentication_config}
use hohapiserver.ApiServer.Generic.Build.{
  apply_options, apply_storage, secured, authenticated, apply_to_fields, authorized,
  build_authorizer, egress_dial, build_service_resolver, with_flow_control,
  build_priority_and_fairness, build_generic_config,
}
use hohapiserver.Base.{
  ℕ, String, ◌≡◌, refl, ◌≢◌, arith, true, none, some, inr, List, [], returned, panicked, elem,
}
use hohapiserver.ApiServer.Authentication.{
  new_authentication_options, new_service_accounts, with_all, apply_authorization, ParseUrl,
  validate_authentication, oidc_errors, account_errors, issuer_errors, issuer_error,
  web_hook_errors,
}
use hohapiserver.ApiServer.Server.{secondary_range, ranges_of_list, get_service_ip_and_ranges}
use hohapiserver.ApiServer.Server.Complete.{
  expiration_allowed, rename_loop, complete_addresses, complete_external_host, complete_key_files,
  complete_issuer, complete_watch_cache, complete,
}
use hohapiserver.Etcd.Samples.{counting, accepting, starting, empty_disk}
use hohapiserver.ApiServer.Server.Samples.{
  completing, Opts, three_modes, retries, by_default, with_issuer, no_order,
}
use hohapiserver.ApiServer.Server.Config.{
  with_embedded_etcd, public_keys, extra_config, create_kube_api_server_config,
}
use hohapiserver.ApiServer.Sets.{set_of}
use hohapiserver.ApiServer.Aggregator.{
  api_services_to_register, service_of_path, make_api_service, priority_of, service_names,
}
use hohapiserver.ApiServer.Chain.{
  create_api_extensions_config, create_aggregator_config, create_aggregator_server,
  extensions_server, aggregator_server, create_server_chain,
}
use hohapiserver.ApiServer.Chain.Main.{Running, run, main}
use hohapiserver.ApiServer.Chain.Main.Laws.{main-needs_issuer}
use hohapiserver.ApiServer.Chain.Main.Safe.{
  ServingPanics, run-panics_serving, new_server_run_options-refused,
}
use hohapiserver.ApiServer.Options.{
  LibraryDefaults, new_server_run_options, Reports, validate_options,
}
use hohapiserver.ApiServer.Etcd.{
  EmbeddedEtcd, new_embedded_etcd, validate_token_request, token_errors, validate_etcd,
}
use hohapiserver.ApiServer.Authorization.{validate_authorization, all_mode_errors, mode_errors}
use hohapiserver.ApiServer.Chain.Samples.{parts, chaining, no_maps, kept, options}

abbrev parse_https : ParseUrl
parse_https s = some "https"

valid : validate_authentication parse_https options.authentication ≡ []
unfolding validate_authentication oidc_errors account_errors issuer_errors issuer_error
    web_hook_errors elem
valid = refl

abbrev running : Running parts ℕ (Unit {0}) ℕ String ℕ ℕ String String (List String)
running = record {
  etcd = starting;
  crypto = counting;
  fs = accepting;
  chaining = chaining;
  completing = completing;
  self_signed = λ file. inr "apiserver.key";
  prepare_run = λ server. inr server;
  serve = λ prepared. returned tt;
}

-- With an issuer it serves.
serves : (main running no_order options (empty_disk, no_maps)).0 ≡ returned tt
unfolding main run with_embedded_etcd build_generic_config apply_options apply_storage secured
    authenticated apply_to_fields authorized build_authorizer egress_dial build_service_resolver
    with_flow_control build_priority_and_fairness apply_authentication to_authentication_config elem
    sum wrap64 quarter create_server_chain create_kube_api_server_config extra_config public_keys
    extensions_server aggregator_server create_api_extensions_config create_aggregator_config
    create_aggregator_server api_services_to_register service_of_path make_api_service priority_of
    service_names set_of complete complete_addresses complete_external_host complete_key_files
    complete_issuer complete_watch_cache get_service_ip_and_ranges ranges_of_list secondary_range
    expiration_allowed apply_authorization rename_loop
serves = refl

-- As main is started without flags, it panics.
default_panics : (main running no_order by_default (empty_disk, no_maps)).0 ≡ panicked
unfolding main run with_embedded_etcd build_generic_config apply_options apply_storage secured
    authenticated apply_to_fields authorized build_authorizer egress_dial build_service_resolver
    with_flow_control build_priority_and_fairness apply_authentication to_authentication_config elem
    sum wrap64 quarter create_server_chain create_kube_api_server_config extra_config public_keys
    with_all complete complete_addresses complete_external_host complete_key_files complete_issuer
    complete_watch_cache get_service_ip_and_ranges ranges_of_list secondary_range expiration_allowed
    apply_authorization rename_loop
default_panics = refl

abbrev no_issuer : Opts
no_issuer = record by_default {
  authentication = record new_authentication_options {
    service_accounts = some new_service_accounts;
  };
}

main-needs_issuer_example : (main running no_order no_issuer (empty_disk, no_maps)).0 ≢ returned tt
main-needs_issuer_example =
    main-needs_issuer running no_order no_issuer new_service_accounts (empty_disk, no_maps) refl
      refl

abbrev no_reports : Reports
no_reports = record {
  etcd = [];
  secure_serving = [];
  audit = [];
  admission = [];
  api_enablement = [];
  metrics = [];
}

abbrev with_etcd : EmbeddedEtcd
with_etcd = record new_embedded_etcd { enabled = true }

abbrev issued : Opts
issued = record options {
  service_account_issuer = some "https://hub.example.com";
  embedded_etcd = some with_etcd;
}

accepted : validate_options parse_https three_modes no_reports issued ≡ some []
unfolding validate_options validate_authentication oidc_errors account_errors issuer_errors
    issuer_error web_hook_errors validate_authorization all_mode_errors mode_errors
    validate_token_request token_errors validate_etcd elem set_of
accepted = refl

-- A hook panics while the server serves.
abbrev panicking : Running parts ℕ (Unit {0}) ℕ String ℕ ℕ String String (List String)
panicking = record running { serve = λ prepared. panicked }

serving_panics : (run panicking issued (empty_disk, no_maps)).0 ≡ panicked
unfolding run with_embedded_etcd EmbeddedServer.run etcd_config touch serve
    generate_client_and_server_certs draw_material write_material write_files cert_to_file
    ec_private_key_to_file build_generic_config apply_options apply_storage secured authenticated
    apply_to_fields authorized build_authorizer egress_dial build_service_resolver with_flow_control
    build_priority_and_fairness apply_authentication to_authentication_config elem sum wrap64
    quarter create_server_chain create_kube_api_server_config extra_config public_keys
    extensions_server aggregator_server create_api_extensions_config create_aggregator_config
    create_aggregator_server api_services_to_register service_of_path make_api_service priority_of
    service_names set_of
serving_panics = refl

run-panics_serving_example : ServingPanics panicking issued
run-panics_serving_example =
    run-panics_serving panicking parse_https three_modes no_reports issued with_issuer with_etcd
      (empty_disk, no_maps) kept (λ e. ground (arith, e)) (λ e. ground (arith, e)) refl refl
      accepted serving_panics

abbrev by_libraries : LibraryDefaults (Unit {0}) (Unit {0}) String
by_libraries = record {
  modes = three_modes;
  backoff = retries;
  client_cert = tt;
  request_header = tt;
  advertise_address = none;
  external_host = "";
  requests = by_default.requests;
  enable_watch_cache = true;
  watch_cache_sizes = [];
  transport = by_default.transport;
  runtime_config = [];
}

new_server_run_options-refused_example :
    ((main running no_order (new_server_run_options by_libraries) (empty_disk, no_maps)).0
      ≢ returned tt)
    × (validate_options parse_https three_modes no_reports
          (new_server_run_options {Net = String} {Issuer = String} by_libraries)
        ≢ some [])
new_server_run_options-refused_example =
    new_server_run_options-refused running parse_https three_modes no_reports by_libraries no_order
      (empty_disk, no_maps)
