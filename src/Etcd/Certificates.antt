-- ===== src/Etcd/Certificates.antt =====
-- etcd/embedded.go: the keys and certificates of the embedded etcd, and the files that hold them.
use Prim.Native.String.{◌++◌}
use Prim.Native.Char.{Char, code}
use hohapiserver.Base.{
  ℕ, ◌+◌, ◌*◌, String, if◌then◌else◌, Bool, true, false, ◌&&◌, leb, Option, none, some, ◌⊎◌, List,
  [], ◌∷◌, Program, returned, give, value_or, unless_error, ◌>>=◌, ◌>>◌,
}

-- x509.Certificate, as far as the templates set it; times in nanoseconds.
pub data KeyUsage : Type 0 where
  digital_signature cert_sign key_encipherment : KeyUsage

pub data ExtKeyUsage : Type 0 where
  client_auth server_auth : ExtKeyUsage

pub record Template : Type 0 where
  pub serial_number : ℕ
  pub not_before : ℕ
  pub not_after : ℕ
  pub organization : List String
  pub common_name : String
  pub subject_key_id : List ℕ
  pub dns_names : List String
  pub is_ca : Bool
  pub key_usage : List KeyUsage
  pub ext_key_usage : List ExtKeyUsage
  pub basic_constraints_valid : Bool

-- A pem.Block.
pub record Block : Type 0 where
  pub kind : String
  pub bytes : List ℕ

-- What the program has done to the disk, the latest first, with the world outside of it.
pub record Disk (O : Type 0) : Type 0 where
  pub outer : O
  pub directories : List String
  pub files : List (String × Block)

-- The random numbers, keys and certificates of crypto, the encoding to PEM and the clock.
pub record Crypto (O Key Public : Type 0) : Type 0 where
  -- rand.Int below 2^128
  pub random : O → (String ⊎ ℕ) × O
  pub now : O → ℕ × O
  pub generate_key : O → (String ⊎ Key) × O
  pub public_of : Key → Public
  pub create_certificate : Template → Template → Public → Key → O → (String ⊎ List ℕ) × O
  pub marshal_ec_private_key : Key → String ⊎ List ℕ
  -- the error of pem.Encode into a buffer
  pub encode_error : Block → Option String

-- The calls that change the disk: an error or nil.
pub record FileSystem (O : Type 0) : Type 0 where
  pub touch_dir_all : String → O → Option String × O
  pub mkdir_all : String → O → Option String × O
  pub write_file : String → Block → O → Option String × O

module _ {O : Type 0} where
  -- A call of something outside; its error is part of the answer.
  abbrev pub outside : {A : Type 0} → (O → A × O) → Program (Disk O) A
  outside call d = let r = call d.outer in (returned r.0, record d { outer = r.1 })

-- filepath.Join of clean parts.
abbrev pub join : String → String → String
join dir name = dir ++ "/" ++ name

abbrev is_slash : Char → Bool
is_slash c = leb (code c) 47 && leb 47 (code c)

before_slash : String → Option String
before_slash String.[] = none
before_slash (String.◌∷◌ c s) =
    let rest = before_slash s in
    elim rest [ some dir ↦ some (String.◌∷◌ c dir) | none ↦ if is_slash c then some "" else none ]

-- filepath.Dir of a clean path in a directory.
pub dir_of : String → String
unfolding before_slash
dir_of path = elim (before_slash path) [ some dir ↦ dir | none ↦ "." ]

abbrev ten_years : ℕ
ten_years = 10 * 365 * (24 * 3600000000000)

-- caTemplate, serverTemplate and clientTemplate
abbrev pub ca_template : ℕ → ℕ → ℕ → Template
ca_template serial from to = record {
  serial_number = serial;
  not_before = from;
  not_after = to + ten_years;
  organization = "etcd" ∷ [];
  common_name = "";
  subject_key_id = [];
  dns_names = [];
  is_ca = true;
  key_usage = digital_signature ∷ cert_sign ∷ [];
  ext_key_usage = client_auth ∷ server_auth ∷ [];
  basic_constraints_valid = true;
}

abbrev pub server_template : List String → ℕ → ℕ → ℕ → Template
server_template hosts serial from to = record {
  serial_number = serial + 1;
  not_before = from;
  not_after = to + ten_years;
  organization = "etcd" ∷ [];
  common_name = "";
  subject_key_id = 1 ∷ 2 ∷ 3 ∷ 4 ∷ 6 ∷ [];
  dns_names = hosts;
  is_ca = false;
  key_usage = key_encipherment ∷ digital_signature ∷ [];
  ext_key_usage = client_auth ∷ server_auth ∷ [];
  basic_constraints_valid = true;
}

abbrev pub client_template : ℕ → ℕ → ℕ → Template
client_template serial from to = record {
  serial_number = serial + 2;
  not_before = from;
  not_after = to + ten_years;
  organization = "etcd" ∷ [];
  common_name = "etcd-client";
  subject_key_id = [];
  dns_names = [];
  is_ca = false;
  key_usage = digital_signature ∷ [];
  ext_key_usage = client_auth ∷ [];
  basic_constraints_valid = true;
}

-- The serial number, the clock at the six uses of it, and the keys.
pub record Material (Key : Type 0) : Type 0 where
  pub serial : ℕ
  pub ca_from : ℕ
  pub ca_to : ℕ
  pub server_from : ℕ
  pub server_to : ℕ
  pub client_from : ℕ
  pub client_to : ℕ
  pub ca_key : Key
  pub server_key : Key
  pub client_key : Key

module _ {O Key Public : Type 0} (crypto : Crypto O Key Public) (fs : FileSystem O) where
  write_file : String → Block → Program (Disk O) (Unit {0})
  write_file path block = do
    error ← outside (λ o. fs.write_file path block o)
    unless_error error
    λ d. (returned tt, record d { files = (path, block) ∷ d.files })

  -- certToFile
  unfoldable pub cert_to_file :
      Template → Template → Public → Key → String → Program (Disk O) (Unit {0})
  unfolding write_file
  cert_to_file template parent public private path = do
    created ← outside (λ o. crypto.create_certificate template parent public private o)
    bytes ← value_or created
    unless_error (crypto.encode_error (record { kind = "CERTIFICATE"; bytes = bytes }))
    write_file path (record { kind = "CERTIFICATE"; bytes = bytes })

  -- ecPrivateKeyToFile
  unfoldable pub ec_private_key_to_file : Key → String → Program (Disk O) (Unit {0})
  unfolding write_file dir_of
  ec_private_key_to_file key path = do
    bytes ← value_or (crypto.marshal_ec_private_key key)
    unless_error (crypto.encode_error (record { kind = "EC PRIVATE KEY"; bytes = bytes }))
    error ← outside (λ o. fs.mkdir_all (dir_of path) o)
    unless_error error
    λ d. (returned tt, record d { directories = dir_of path ∷ d.directories })
    write_file path (record { kind = "EC PRIVATE KEY"; bytes = bytes })

  new_key : Program (Disk O) Key
  new_key = do made ← outside (λ o. crypto.generate_key o); value_or made

  time_now : Program (Disk O) ℕ
  time_now = outside (λ o. crypto.now o)

  -- The part of generateClientAndServerCerts that writes files.
  unfoldable pub write_files :
      Template → Template → Template → Key → Key → Key → String → Program (Disk O) (Unit {0})
  write_files ca server client ca_key server_key client_key dir = do
    ec_private_key_to_file ca_key (join (join dir "ca") "key.pem")
    cert_to_file ca ca (crypto.public_of ca_key) ca_key (join (join dir "ca") "cert.pem")
    ec_private_key_to_file server_key (join (join dir "peer") "key.pem")
    cert_to_file server ca (crypto.public_of server_key) ca_key (join (join dir "peer") "cert.pem")
    ec_private_key_to_file client_key (join (join dir "client") "key.pem")
    cert_to_file client ca (crypto.public_of client_key) ca_key
        (join (join dir "client") "cert.pem")

  -- The part of generateClientAndServerCerts in front of that.
  unfoldable pub draw_material : Program (Disk O) (Material Key)
  unfolding new_key time_now
  draw_material = do
    random ← outside (λ o. crypto.random o)
    serial ← value_or random
    t1 ← time_now
    t2 ← time_now
    t3 ← time_now
    t4 ← time_now
    t5 ← time_now
    t6 ← time_now
    ca_key ← new_key
    server_key ← new_key
    client_key ← new_key
    give (record {
      serial = serial;
      ca_from = t1;
      ca_to = t2;
      server_from = t3;
      server_to = t4;
      client_from = t5;
      client_to = t6;
      ca_key = ca_key;
      server_key = server_key;
      client_key = client_key;
    })

  -- The templates that the material gives, and the files.
  unfoldable pub write_material : List String → String → Material Key → Program (Disk O) (Unit {0})
  write_material hosts dir m =
      write_files (ca_template m.serial m.ca_from m.ca_to)
        (server_template hosts m.serial m.server_from m.server_to)
        (client_template m.serial m.client_from m.client_to) m.ca_key m.server_key m.client_key dir

  -- generateClientAndServerCerts
  unfoldable pub generate_client_and_server_certs :
      List String → String → Program (Disk O) (Unit {0})
  generate_client_and_server_certs hosts dir = draw_material >>= write_material hosts dir
