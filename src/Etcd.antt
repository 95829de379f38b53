-- ===== src/Etcd.antt =====
-- etcd/embedded.go: the embedded etcd server and the files that its clients are told to use.
pub mod Certificates
pub mod Signed
pub mod Laws
pub mod Samples
pub mod Safe
mod Tests
use Prim.Native.String
use Prim.Native.String.{◌++◌}
use hohapiserver.Base.{
  String, if◌then◌else◌, Bool, true, Option, none, some, ◌⊎◌, List, [], ◌∷◌, elem, Program, give,
  refuse, value_or, unless_error, ◌>>=◌, ◌>>◌,
}
use hohapiserver.Etcd.Certificates.{
  Disk, Crypto, FileSystem, outside, join, generate_client_and_server_certs,
}

-- url.URL, as far as it is set.
pub record Url : Type 0 where
  pub scheme : String
  pub host : String

-- URL.String, for a host and port in which nothing is escaped.
abbrev pub url_string : Url → String
url_string u = u.scheme ++ "://" ++ u.host

-- transport.TLSInfo
pub record TlsInfo : Type 0 where
  pub server_name : String
  pub cert_file : String
  pub key_file : String
  pub trusted_ca_file : String
  pub client_cert_auth : Bool

-- embed.Config: the fields that Run sets, and the others as `rest`.
pub record EtcdConfig (R : Type 0) : Type 0 where
  pub rest : R
  pub name : String
  pub logger : String
  pub log_level : String
  pub dir : String
  pub auth_token : String
  pub peer_urls : List Url
  pub advertised_peer_urls : List Url
  pub client_urls : List Url
  pub advertised_client_urls : List Url
  pub initial_cluster : String
  pub peer_tls : TlsInfo
  pub client_tls : TlsInfo
  pub unsafe_no_fsync : Bool

-- What the select of Run receives.
pub data Event : Type 0 where
  ready too_long : Event
  -- what the channel of errors answers, which is nil once it is closed
  stopped_with : Option String → Event

-- The etcd library, and the environment variable; O is the world outside of the program.
pub record Etcd (O R Server Tls : Type 0) : Type 0 where
  pub new_config : EtcdConfig R
  pub initial_cluster_from_name : EtcdConfig R → String → String
  pub disable_fsync : String
  pub start_etcd : EtcdConfig R → O → (String ⊎ Server) × O
  pub client_config : TlsInfo → String ⊎ Tls
  pub wait : Server → O → Event × O
  pub stop : Server → O → O

-- ClientInfo, of which a nil TLS configuration is `none`.
pub record ClientInfo (Tls : Type 0) : Type 0 where
  pub endpoints : List String
  pub tls : Option Tls
  pub cert_file : String
  pub key_file : String
  pub trusted_ca_file : String

-- ClientInfo{}
abbrev pub no_client_info : {Tls : Type 0} → ClientInfo Tls
no_client_info = record {
  endpoints = [];
  tls = none;
  cert_file = "";
  key_file = "";
  trusted_ca_file = "";
}

-- The values for which strconv.ParseBool answers true.
abbrev parse_bool : String → Bool
parse_bool s = elem s ("1" ∷ "t" ∷ "T" ∷ "TRUE" ∷ "true" ∷ "True" ∷ [])

abbrev pub local_url : String → Url
local_url port = record { scheme = "https"; host = "localhost:" ++ port }

abbrev pub secrets : String → String
secrets dir = join dir "secrets"

abbrev local_tls : String → TlsInfo
local_tls dir = record {
  server_name = "localhost";
  cert_file = join (join (secrets dir) "peer") "cert.pem";
  key_file = join (join (secrets dir) "peer") "key.pem";
  trusted_ca_file = join (join (secrets dir) "ca") "cert.pem";
  client_cert_auth = true;
}

module _ {O R Server Tls Key Public : Type 0} (etcd : Etcd O R Server Tls)
    (crypto : Crypto O Key Public) (fs : FileSystem O) where
  -- The configuration with which the server is started.
  unfoldable pub etcd_config : String → String → EtcdConfig R
  etcd_config peer_port client_port = record with_urls {
    initial_cluster = etcd.initial_cluster_from_name with_urls with_urls.name;
    peer_tls = local_tls with_urls.dir;
    client_tls = local_tls with_urls.dir;
    unsafe_no_fsync =
        if parse_bool etcd.disable_fsync then true else etcd.new_config.unsafe_no_fsync;
  }
    where
      with_urls : EtcdConfig R
      with_urls = record etcd.new_config {
        logger = "zap";
        log_level = "warn";
        dir = "/etc/etcd-server";
        auth_token = "";
        peer_urls = local_url peer_port ∷ [];
        advertised_peer_urls = local_url peer_port ∷ [];
        client_urls = local_url client_port ∷ [];
        advertised_client_urls = local_url client_port ∷ [];
      }

  -- The select at the end of Run.
  await : EtcdConfig R → Server → Tls → Event → Program (Disk O) (ClientInfo Tls)
  await cfg server tls ready = give (record {
    endpoints = elim cfg.advertised_client_urls [ [] ↦ [] | url ∷ _ ↦ url_string url ∷ [] ];
    tls = some tls;
    cert_file = cfg.client_tls.cert_file;
    key_file = cfg.client_tls.key_file;
    trusted_ca_file = cfg.client_tls.trusted_ca_file;
  })
  await cfg server tls too_long = do
    _ ← outside (λ o. (some tt, etcd.stop server o))
    refuse "server took too long to start"
  await cfg server tls (stopped_with (some e)) = refuse e
  await cfg server tls (stopped_with none) = give no_client_info

  -- The part of Run that starts the server and waits for it. The goroutine that closes the server when the
  -- context is done is left out.
  unfoldable pub serve : EtcdConfig R → Program (Disk O) (ClientInfo Tls)
  unfolding await
  serve cfg = do
    started ← outside (λ o. etcd.start_etcd cfg o)
    server ← value_or started
    tls ← value_or (etcd.client_config cfg.client_tls)
    event ← outside (λ o. etcd.wait server o)
    await cfg server tls event

  unfoldable pub touch : String → Program (Disk O) (Unit {0})
  touch dir = do touched ← outside (λ o. fs.touch_dir_all dir o); unless_error touched

  -- Run
  unfoldable pub run : String → String → Program (Disk O) (ClientInfo Tls)
  unfolding etcd_config
  run peer_port client_port = do
    touch cfg.dir
    generate_client_and_server_certs crypto fs ("localhost" ∷ []) (secrets cfg.dir)
    serve cfg
    where
      cfg : EtcdConfig R
      cfg = etcd_config peer_port client_port
