-- ===== src/Etcd/Laws.antt =====
-- etcd/embedded.go: what Run tells its callers, and what is on the disk then.
use hohapiserver.Base.{
  String, true, some, List, [], ◌∷◌, ◌≡◌, refl, ◌⊎◌, inl, inr, sum_cases, none, arith, lookup,
  Program, returned, ◌>>=◌, >>=-returned,
}
use hohapiserver.Etcd.Certificates.{
  Template, Block, Disk, Crypto, FileSystem, join, Material, draw_material, write_material,
  generate_client_and_server_certs, ca_template, server_template, client_template,
}
use hohapiserver.Etcd.Signed.{HoldsKey, HoldsCert, Six, files_written}
use hohapiserver.Etcd.{
  EtcdConfig, Etcd, Event, ready, too_long, stopped_with, ClientInfo, no_client_info, touch, serve,
  url_string, local_url, etcd_config, secrets, run,
}

-- The three paths that clients are told, among the six files.
found_in_six :
    (k1 c1 k2 c2 k3 c3 : Block) (before : List (String × Block))
    → let dir = secrets "/etc/etcd-server" in
      let files =
        (join (join dir "client") "cert.pem", c3)
        ∷ (join (join dir "client") "key.pem", k3)
        ∷ (join (join dir "peer") "cert.pem", c2)
        ∷ (join (join dir "peer") "key.pem", k2)
        ∷ (join (join dir "ca") "cert.pem", c1)
        ∷ (join (join dir "ca") "key.pem", k1)
        ∷ before in
      (lookup (join (join dir "ca") "cert.pem") files ≡ some c1)
      × (lookup (join (join dir "peer") "cert.pem") files ≡ some c2)
      × (lookup (join (join dir "peer") "key.pem") files ≡ some k2)
unfolding lookup
found_in_six k1 c1 k2 c2 k3 c3 before = (refl, refl, refl)

-- The channel of errors is closed while Run waits for some server.
abbrev pub ErrorsClosed : {O R Server Tls : Type 0} → Etcd O R Server Tls → Type 0
ErrorsClosed {O} {Server = Server} etcd =
    (server : Server) × (o : O) × ((etcd.wait server o).0 ≡ stopped_with none)

Event-cases :
    (e : Event)
    → (e ≡ ready)
      ⊎ ((x : String) × ((e ≡ too_long) ⊎ (e ≡ stopped_with (some x))))
      ⊎ (e ≡ stopped_with none)
Event-cases ready = inl refl
Event-cases too_long = inr (inl ("", inl refl))
Event-cases (stopped_with (some x)) = inr (inl (x, inr refl))
Event-cases (stopped_with none) = inr (inr refl)

module _ {O Key Public : Type 0} (crypto : Crypto O Key Public) (fs : FileSystem O) where
  drawn-files :
      (m : Material Key) (d t : Disk O)
      → draw_material crypto fs d ≡ (returned m, t)
      → t.files ≡ d.files
  unfolding draw_material
  drawn-files m d t h = ground (arith, h)

  generated :
      (hosts : List String) (dir : String) (d d' : Disk O)
      → generate_client_and_server_certs crypto fs hosts dir d ≡ (returned tt, d')
      → (m : Material Key) × Six crypto fs
          (ca_template m.serial m.ca_from m.ca_to)
          (server_template hosts m.serial m.server_from m.server_to)
          (client_template m.serial m.client_from m.client_to)
          m.ca_key
          m.server_key
          m.client_key
          dir
          d.files
          d'.files
  unfolding generate_client_and_server_certs write_material
  generated hosts dir d d' h =
      let (m, t, e, h') =
        >>=-returned (draw_material crypto fs) (write_material crypto fs hosts dir) h in
      (
        m,
        rw⁻¹ (drawn-files m d t e) (
            files_written crypto fs (ca_template m.serial m.ca_from m.ca_to)
              (server_template hosts m.serial m.server_from m.server_to)
              (client_template m.serial m.client_from m.client_to) m.ca_key m.server_key
              m.client_key dir t d' h'),
      )

  module _ {R Server Tls : Type 0} (etcd : Etcd O R Server Tls) where
    touch-files :
        (dir : String) (d t : Disk O)
        → touch etcd crypto fs dir d ≡ (returned tt, t)
        → t.files ≡ d.files
    unfolding touch
    touch-files dir d t h = ground (arith, h)

    served :
        (cfg : EtcdConfig R) (info : ClientInfo Tls) (d d' : Disk O)
        → serve etcd crypto fs cfg d ≡ (returned info, d')
        → ((info ≡ no_client_info) × ErrorsClosed etcd)
          ⊎ ((d'.files ≡ d.files)
              × (info.cert_file ≡ cfg.client_tls.cert_file)
              × (info.key_file ≡ cfg.client_tls.key_file)
              × (info.trusted_ca_file ≡ cfg.client_tls.trusted_ca_file)
              × (info.endpoints
                  ≡ elim cfg.advertised_client_urls [ [] ↦ [] | url ∷ _ ↦ url_string url ∷ [] ]))
    unfolding serve
    served cfg info d d' h = elim (sum_cases (etcd.start_etcd cfg d.outer).0) [
      | inl (e, q) ↦ absurd (ground (arith, h, q))
      | inr (server, q) ↦ elim (sum_cases (etcd.client_config cfg.client_tls)) [
        | inl (e, r) ↦ absurd (ground (arith, h, q, r))
        | inr (tls, r) ↦ elim (Event-cases (etcd.wait server (etcd.start_etcd cfg d.outer).1).0) [
          | inl up ↦ inr (ground (arith, h, q, r, up))
          | inr (inl (e, refused)) ↦ absurd (ground (arith, h, q, r, refused))
          | inr (inr closed) ↦ inl (ground (arith, h, q, r, closed), (server, _, closed))
        ]
      ]
    ]

    -- A path that holds a block with a property.
    abbrev pub Stored : String → List (String × Block) → (Block → Type 0) → Type 0
    Stored path files P = (block : Block) × (lookup path files ≡ some block) × P block

    -- When Run succeeds, it answers nothing, since the channel of errors is closed, or the files that it names
    -- are on the disk and belong together: the CA file is self-signed, and the certificate file is signed by
    -- that CA, for the host localhost and for the key in the key file.
    pub run-Stored :
        (peer_port client_port : String) (d d' : Disk O) (info : ClientInfo Tls)
        → run etcd crypto fs peer_port client_port d ≡ (returned info, d')
        → ((info ≡ no_client_info) × ErrorsClosed etcd)
          ⊎ ((ca : Template) × (cert : Template) × (ca_key : Key) × (key : Key) × Stored
                info.trusted_ca_file d'.files
                (HoldsCert crypto fs ca ca (crypto.public_of ca_key) ca_key)
              × Stored info.cert_file d'.files
                  (HoldsCert crypto fs cert ca (crypto.public_of key) ca_key)
              × Stored info.key_file d'.files (HoldsKey crypto fs key)
              × (ca.is_ca ≡ true)
              × (cert.dns_names ≡ "localhost" ∷ [])
              × (info.endpoints ≡ url_string (local_url client_port) ∷ []))
    unfolding run etcd_config
    run-Stored peer_port client_port d d' info h =
        let (u, d1, e1, h1) = >>=-returned (touch etcd crypto fs cfg.dir) (λ _. rest) h in
        let (v, d2, e2, h2) = >>=-returned generate (λ _. serve etcd crypto fs cfg) h1 in
        let (m, (k1, c1, k2, c2, k3, c3, K1, C1, K2, C2, K3, C3, six)) =
          generated ("localhost" ∷ []) (secrets cfg.dir) d1 d2 e2 in
        let (at_ca, at_cert, at_key) = found_in_six k1 c1 k2 c2 k3 c3 d1.files in
        elim (served cfg info d2 d' h2) [
          | inl empty ↦ inl empty
          | inr (files, cert_eq, key_eq, ca_eq, urls) ↦ inr (
            ca_template m.serial m.ca_from m.ca_to,
            server_template ("localhost" ∷ []) m.serial m.server_from m.server_to,
            m.ca_key,
            m.server_key,
            (c1, cc (ca_eq, files, six, at_ca), C1),
            (c2, cc (cert_eq, files, six, at_cert), C2),
            (k2, cc (key_eq, files, six, at_key), K2),
            refl,
            refl,
            urls,
          )
        ]
      where
        cfg : EtcdConfig R
        cfg = etcd_config etcd crypto fs peer_port client_port

        generate : Program (Disk O) (Unit {0})
        generate = generate_client_and_server_certs crypto fs ("localhost" ∷ []) (secrets cfg.dir)

        rest : Program (Disk O) (ClientInfo Tls)
        rest = generate >>= λ _. serve etcd crypto fs cfg
