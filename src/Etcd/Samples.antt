-- ===== src/Etcd/Samples.antt =====
-- A counter for randomness, keys that are numbers, a disk that takes all files and an etcd that starts.
use hohapiserver.Base.{ℕ, suc, String, false, none, inr, [], ◌∷◌}
use hohapiserver.Etcd.Certificates.{Disk, Crypto, FileSystem}
use hohapiserver.Etcd.{TlsInfo, Etcd, ready}

abbrev pub counting : Crypto ℕ ℕ ℕ
counting = record {
  random = λ o. (inr o, suc o);
  now = λ o. (o, suc o);
  generate_key = λ o. (inr o, suc o);
  public_of = λ key. suc key;
  create_certificate = λ template parent public private o. (inr (public ∷ private ∷ []), suc o);
  marshal_ec_private_key = λ key. inr (key ∷ []);
  encode_error = λ block. none;
}

abbrev pub accepting : FileSystem ℕ
accepting = record {
  touch_dir_all = λ path o. (none, o);
  mkdir_all = λ path o. (none, o);
  write_file = λ path block o. (none, o);
}

abbrev pub no_tls : TlsInfo
no_tls = record {
  server_name = "";
  cert_file = "";
  key_file = "";
  trusted_ca_file = "";
  client_cert_auth = false;
}

abbrev pub starting : Etcd ℕ (Unit {0}) ℕ String
starting = record {
  new_config = record {
    rest = tt;
    name = "default";
    logger = "";
    log_level = "";
    dir = "";
    auth_token = "";
    peer_urls = [];
    advertised_peer_urls = [];
    client_urls = [];
    advertised_client_urls = [];
    initial_cluster = "";
    peer_tls = no_tls;
    client_tls = no_tls;
    unsafe_no_fsync = false;
  };
  initial_cluster_from_name = λ cfg name. name;
  disable_fsync = "true";
  start_etcd = λ cfg o. (inr o, o);
  client_config = λ tls. inr tls.cert_file;
  wait = λ server o. (ready, o);
  stop = λ server o. o;
}

abbrev pub empty_disk : Disk ℕ
empty_disk = record { outer = 0; directories = []; files = [] }
