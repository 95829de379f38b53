-- ===== src/Etcd/Tests.antt =====
-- The embedded etcd with a counter for its randomness, keys that are numbers, and a server that starts.
use hohapiserver.Base.{some}
use hohapiserver.ApiServer.Server.Config.{transport_of}
use hohapiserver.Base.{ℕ, String, true, false, none, some, [], ◌∷◌, ◌≡◌, refl, returned, failed}
use hohapiserver.Etcd.Certificates.{
  Disk, generate_client_and_server_certs, draw_material, write_material, write_files, cert_to_file,
  ec_private_key_to_file,
}
use hohapiserver.Etcd.{ClientInfo, too_long, touch, serve, url_string, local_url, etcd_config, run}
use hohapiserver.ApiServer.Ints.{pos}
use hohapiserver.ApiServer.Authentication.{new_authentication_options}
use hohapiserver.ApiServer.Etcd.{EmbeddedEtcd, new_embedded_etcd}
use hohapiserver.ApiServer.Server.{ServerOptions}
use hohapiserver.ApiServer.Server.Config.{transport_of}
use hohapiserver.Etcd.Samples.{counting, accepting, starting, empty_disk}

abbrev told : ClientInfo String
told = record {
  endpoints = url_string (local_url "2379") ∷ [];
  tls = some "/etc/etcd-server/secrets/peer/cert.pem";
  cert_file = "/etc/etcd-server/secrets/peer/cert.pem";
  key_file = "/etc/etcd-server/secrets/peer/key.pem";
  trusted_ca_file = "/etc/etcd-server/secrets/ca/cert.pem";
}

abbrev disk_after : Disk ℕ
unfolding run etcd_config touch serve generate_client_and_server_certs draw_material write_material
    write_files cert_to_file ec_private_key_to_file
disk_after = (run starting counting accepting "2380" "2379" empty_disk).1

runs : run starting counting accepting "2380" "2379" empty_disk ≡ (returned told, disk_after)
unfolding run etcd_config touch serve generate_client_and_server_certs draw_material write_material
    write_files cert_to_file ec_private_key_to_file
runs = refl

-- A server that is not ready in time is an error.
late :
    (run
      (record starting { wait = λ server o. (too_long, o) })
      counting
      accepting
      "2380"
      "2379"
      empty_disk).0
    ≡ failed "server took too long to start"
unfolding run etcd_config touch serve generate_client_and_server_certs draw_material write_material
    write_files cert_to_file ec_private_key_to_file
late = refl

abbrev some_etcd : EmbeddedEtcd
some_etcd = record new_embedded_etcd { enabled = true }

abbrev embedding : ServerOptions (Unit {0}) (Unit {0}) String String String
embedding = record {
  advertise_address = none;
  external_host = "";
  service_cluster_ip_ranges = "";
  api_server_service_ip = none;
  primary_service_cluster_ip_range = none;
  secondary_service_cluster_ip_range = none;
  server_key_file = "";
  authentication = new_authentication_options;
  authorization = none;
  service_account_signing_key_file = "";
  service_account_issuer = none;
  service_account_token_max_expiration = pos 0;
  enable_watch_cache = false;
  watch_cache_sizes = [];
  runtime_config = [];
  embedded_etcd = some some_etcd;
  transport = record { server_list = []; key_file = ""; cert_file = ""; trusted_ca_file = "" };
  requests = record {
    max_requests_in_flight = pos 400;
    max_mutating_requests_in_flight = pos 200;
    request_timeout = pos 60000000000;
    enable_priority_and_fairness = true;
  };
  enable_aggregator_routing = false;
  client_key_file = "ca.key";
}

abbrev embedded : ServerOptions (Unit {0}) (Unit {0}) String String String
embedded = record embedding { transport = transport_of told }
